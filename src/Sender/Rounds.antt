-- ===== src/Sender/Rounds.antt =====
-- The rounds of the sender's loop: how they end, and what holds afterwards.
use lingi1341_projet.Prelude.{
  ℕ, ◌≡◌, refl, sym, ap, subst, ◌∙◌, ◌⊎◌, inl, inr, Bool, Option, none, some, List, ◌>>=◌,
  Option-cases,
}
use mathlib.Core.Option.{some-injective}
use lingi1341_projet.Platform.{Zlib, Alloc}
use lingi1341_projet.Sender.{
  Sender, Socket, silent, received_from, Wake, Turn, finish, unless_finished,
}
use lingi1341_projet.Sender.Phases.{receive_ack, read_socket, read_file, round}
use lingi1341_projet.Sender.Invariant.{IsSound}
use lingi1341_projet.Sender.Send.{fast_retransmit-Sent, resend-Sent}
use lingi1341_projet.Sender.Acked.{receive_ack-IsSound}
use lingi1341_projet.Sender.Reads.{Outcome, fails, read_file-Outcome}

pub Socket-cases :
    (socket : Socket)
    → (socket ≡ silent)
      ⊎ ((answer : Option (List ℕ)) × (alloc : Alloc) × (socket ≡ received_from answer alloc))
Socket-cases silent = inl refl
Socket-cases (received_from answer alloc) = inr (answer, alloc, refl)

module _ (z : Zlib) where
  -- The part of a round from the socket on.
  abbrev pub tail : Bool → Wake → Sender → Option Turn
  tail is_file w s = read_socket z w.socket s >>= λ t.
      unless_finished t (λ s3. read_file z is_file w.file w.send_second w.payload_memory s3)

  pub round-tail :
      (is_file : Bool) (w : Wake) (s : Sender)
      → IsSound s
      → (s2 : Sender) × IsSound s2
        × (s2.slots ≡ s.slots)
        × (round z is_file (some w) s ≡ tail is_file w s2)
  unfolding round
  round-tail is_file w s v =
      let (s1, e1, v1, x1) = fast_retransmit-Sent z s v in
      let (s2, e2, v2, x2) = resend-Sent z w.resend_second s1 v1 in
      let same : s1.slots ≡ s.slots = elim x1 [
        | inl (_, same) ↦ ap (λ (t : Sender). t.slots) same
        | inr (_, sent, _) ↦ sent.slots_same
      ] in
      (s2, v2, x2.slots_same ∙ same, rw (e1, e2))

  pub silence :
      (is_file : Bool) (w : Wake) (s : Sender)
      → w.socket ≡ silent
      → tail is_file w s ≡ read_file z is_file w.file w.send_second w.payload_memory s
  unfolding read_socket
  silence is_file w s q = rw (q, read_socket)

  tail_silent :
      (is_file : Bool) (w : Wake) (s : Sender)
      → IsSound s
      → w.socket ≡ silent
      → (t : Turn) × (tail is_file w s ≡ some t) × Outcome z w.socket w.file t
  tail_silent is_file w s v q =
      let (t, e, x) =
        read_file-Outcome z w.socket is_file w.file w.send_second w.payload_memory s v in
      (t, silence is_file w s q ∙ e, x)

  tail_received :
      (is_file : Bool) (w : Wake) (s : Sender) (t : Turn) (answer : Option (List ℕ)) (alloc : Alloc)
      → IsSound s
      → w.socket ≡ received_from answer alloc
      → tail is_file w s ≡ some t
      → Outcome z w.socket w.file t
  unfolding read_socket
  tail_received is_file w s t none alloc v q e =
      subst (Outcome z w.socket w.file) (some-injective (finish s) t (rw (q, read_socket) at e))
        (fails s v (inl (alloc, q)))
  tail_received is_file w s t (some datagram) alloc v q e =
      elim (Option-cases (receive_ack z datagram alloc s)) [
        | inl undefined ↦ absurd (cc (rw (q, read_socket, undefined) at e))
        | inr (s3, same) ↦
            let v3 : IsSound s3 = receive_ack-IsSound z datagram alloc s s3 v same in
            let (t', e', x) =
              read_file-Outcome z w.socket is_file w.file w.send_second w.payload_memory s3 v3 in
            subst (Outcome z w.socket w.file)
              (some-injective t' t (sym e' ∙ (rw (q, read_socket, same) at e))) x
      ]

  -- A round that meets no undefined behaviour, from a sound state, whatever the calls answer: it leads
  -- to a sound state, or has sent a packet for which there was no slot, or is the last one because a
  -- call failed, or because the file is at its end and no packet waits for an acknowledgement.
  pub round-Outcome :
      (is_file : Bool) (w : Wake) (s : Sender) (t : Turn)
      → IsSound s
      → round z is_file (some w) s ≡ some t
      → Outcome z w.socket w.file t
  round-Outcome is_file w s t v e =
      let (s2, v2, _, same) = round-tail is_file w s v in
      elim (Socket-cases w.socket) [
        | inl q ↦
            let (t', e', x) = tail_silent is_file w s2 v2 q in
            subst (Outcome z w.socket w.file) (some-injective t' t (sym e' ∙ sym same ∙ e)) x
        | inr (answer, alloc, q) ↦ tail_received is_file w s2 t answer alloc v2 q (sym same ∙ e)
      ]

  -- From a sound state a round without anything to read on the socket meets no undefined behaviour.
  pub round_total :
      (is_file : Bool) (w : Wake) (s : Sender)
      → IsSound s
      → w.socket ≡ silent
      → (t : Turn) × (round z is_file (some w) s ≡ some t) × Outcome z w.socket w.file t
  round_total is_file w s v q =
      let (s2, v2, _, same) = round-tail is_file w s v in
      let (t, e, x) = tail_silent is_file w s2 v2 q in (t, same ∙ e, x)
