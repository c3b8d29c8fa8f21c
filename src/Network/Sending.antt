-- ===== src/Network/Sending.antt =====
-- The phases of a round of the sender between two states in which no piece of the file is forgotten.
use lingi1341_projet.Prelude.{
  ℕ, ◌≤◌, ◌<◌, ◌≡◌, refl, sym, ap, ap₂, subst, ◌∙◌, inl, inr, Bool, Option, none, some, List, [],
  ◌∷◌, map, arith, length, drop, replicate, All, All-append,
}
use lingi1341_projet.Platform.{Zlib}
use lingi1341_projet.Packet.{Pkt}
use lingi1341_projet.Packet.Slots.{Contains, Holds}
use lingi1341_projet.Packet.Wire.{wire}
use lingi1341_projet.Sender.{Sender, Socket, silent, received_from, Wake, go_on}
use lingi1341_projet.Sender.Phases.{read_socket, read_file, round, fast_retransmit}
use lingi1341_projet.Sender.Send.{
  Sent, Sent-IsSound, fast_retransmit-Sent, resend-Sent, selected, is_missing, is_older,
}
use lingi1341_projet.Packet.RoundTrip.{has_memory}
use lingi1341_projet.Sender.Invariant.{IsSound}
use lingi1341_projet.Sender.Loop.{sender_of}
use lingi1341_projet.Receiver.Answers.{Acknowledges}
use mathlib.Core.Option.{some-injective}
use lingi1341_projet.Sender.Unacked.{unacked, unacked-Holds, unacked-Contains}
use lingi1341_projet.Sender.Acked.{
  receive_ack-same, receive_ack-refused, length-socket_buffer, receive_ack-Acknowledges,
}
use lingi1341_projet.Sender.{datagram_bytes, Turn}
use lingi1341_projet.Network.{Hears, before_file, IsAmong}
use lingi1341_projet.Network.Chunks.{IsChunk, Carries}
use lingi1341_projet.Network.Invariant.{HasPending, IsAckUpTo}
use lingi1341_projet.Network.Slots.{selected-All, selected-IsAmong, IsAmong-right, IsAmong-All}

module _ (z : Zlib) (chunks : List (List ℕ)) (expected : ℕ) where
  -- Sending packets with pieces again.
  Sent-HasPending :
      (ps : List Pkt) (s s' : Sender)
      → All (IsChunk chunks) ps
      → Sent z ps s s'
      → HasPending z chunks expected s
      → HasPending z chunks expected s'
  Sent-HasPending ps s s' a x h = record {
    sound = Sent-IsSound z ps s s' h.sound x;
    number = x.seqnum_same ∙ h.number;
    acked = omega (arith, x.lastack_same, h.acked);
    pending = λ i lo hi. subst (Contains i) (sym x.slots_same) (h.pending i lo hi);
    stored = subst (All (Holds (IsChunk chunks))) (sym x.slots_same) h.stored;
    carried =
        subst (All (Carries z chunks)) (sym x.datagrams)
          (All-append (Carries z chunks) s.sent (map (wire z) ps) h.carried (all_carry ps a));
  }
    where
      all_carry :
          (qs : List Pkt) → All (IsChunk chunks) qs → All (Carries z chunks) (map (wire z) qs)
      all_carry [] b = tt
      all_carry (q ∷ qs) b = ((q, refl, b.0), all_carry qs b.1)

  -- What comes from the network and is not refused is an acknowledgement of at most the number that
  -- the receiver expects, which leaves the pieces that it lacks in their slots.
  Hears-HasPending :
      (socket : Socket) (answers : List (List ℕ)) (s : Sender)
      → All (IsAckUpTo z expected) answers
      → Hears z answers socket
      → HasPending z chunks expected s
      → (s' : Sender) × (read_socket z socket s ≡ some (go_on s'))
        × HasPending z chunks expected s'
        × (s'.sent ≡ s.sent)
  unfolding read_socket
  Hears-HasPending silent answers s a heard h = (s, refl, h, refl)
  Hears-HasPending (received_from none alloc) answers s a heard h = absurd heard
  Hears-HasPending (received_from (some d) alloc) answers s a (inl among, memory) h =
      let (window, number, small, long, acks) =
        IsAmong-All (IsAckUpTo z expected) d answers a among in
      let (s', e, v', last, _, slots) =
        receive_ack-Acknowledges z window number d s h.sound long acks in
      let (same_number, same_sent) = receive_ack-same z d s s' h.sound e in
      (
        s',
        rw (memory, e),
        record {
          sound = v';
          number = same_number ∙ h.number;
          acked = omega (arith, last);
          pending = λ i lo hi.
              subst (Contains i) (sym slots) (
                unacked-Contains number s.seqnum i s.slots (inl (omega arith)) (h.pending i lo hi));
          stored =
              subst (All (Holds (IsChunk chunks))) (sym slots)
                (unacked-Holds (IsChunk chunks) number s.seqnum s.slots h.stored);
          carried = subst (All (Carries z chunks)) (sym same_sent) h.carried;
        },
        same_sent,
      )
  Hears-HasPending (received_from (some d) alloc) answers s a (inr refused, memory) h =
      let (code, p, n, e) =
        refused (drop (length (datagram_bytes d)) s.buffer1) s.ack
          (length-socket_buffer z d s h.sound) in
      let (e1, v1) = receive_ack-refused z d s code p h.sound n e in
      (
        record s { buffer1 = replicate 528 0; ack = p },
        rw (memory, e1),
        record {
          sound = v1;
          number = h.number;
          acked = h.acked;
          pending = h.pending;
          stored = h.stored;
          carried = h.carried;
        },
        refl,
      )

  -- The round up to the phase that reads the file.
  pub record BeforeFile (w : Wake) (s : Sender) : Type 0 where
    pub state : Sender
    pub ends : before_file z w s ≡ some (go_on state)
    pub rounds :
        (is_file : Bool)
        → round z is_file (some w) s
          ≡ read_file z is_file w.file w.send_second w.payload_memory state
    pub pending : HasPending z chunks expected state
    pub heard :
        (d : List ℕ) (window number : ℕ)
        → w.socket ≡ received_from (some d) has_memory
        → length d ≡ 512
        → Acknowledges z window number d
        → (state.lastack ≡ number) × (state.slots ≡ map (unacked number s.seqnum) s.slots)
    pub silence : w.socket ≡ silent → state.slots ≡ s.slots
    pub resent :
        (i : ℕ)
        → i ≤ s.seqnum
        → Contains i s.slots
        → All (Holds (λ p. p.timestamp < w.resend_second)) s.slots
        → (p : Pkt) × (p.seqnum ≡ i) × IsChunk chunks p × IsAmong (wire z p) state.sent

  -- What an acknowledgement leaves.
  hears_number :
      (d : List ℕ) (window number : ℕ) (s s' : Sender)
      → IsSound s
      → length d ≡ 512
      → Acknowledges z window number d
      → read_socket z (received_from (some d) has_memory) s ≡ some (go_on s')
      → (s'.lastack ≡ number) × (s'.slots ≡ map (unacked number s.seqnum) s.slots)
  unfolding read_socket
  hears_number d window number s s' v long acks e =
      let (s1, e1, _, last, _, slots) = receive_ack-Acknowledges z window number d s v long acks in
      let same : s1 ≡ s' = ap sender_of (some-injective (go_on s1) (go_on s') (rw e1 at e)) in
      subst
        (λ (x : Sender). (x.lastack ≡ number) × (x.slots ≡ map (unacked number s.seqnum) s.slots))
        same (last, slots)

  hears_nothing : (s s' : Sender) → read_socket z silent s ≡ some (go_on s') → s'.slots ≡ s.slots
  unfolding read_socket
  hears_nothing s s' e =
      ap (λ (t : Turn). (sender_of t).slots) (some-injective (go_on s') (go_on s) (sym e))

  fast-HasPending :
      (s : Sender)
      → HasPending z chunks expected s
      → (s' : Sender) × (fast_retransmit z s ≡ some s')
        × HasPending z chunks expected s'
        × (s'.slots ≡ s.slots)
        × (s'.seqnum ≡ s.seqnum)
  fast-HasPending s h =
      let (s', e, _, x) = fast_retransmit-Sent z s h.sound in
      elim x [
        | inl (_, same) ↦ (
          s',
          e,
          subst (HasPending z chunks expected) (sym same) h,
          ap (λ (t : Sender). t.slots) same,
          ap (λ (t : Sender). t.seqnum) same,
        )
        | inr (_, sent, _) ↦ (
          s',
          e,
          Sent-HasPending (selected (is_missing s.lastack) s.slots) s s'
              (selected-All (IsChunk chunks) (is_missing s.lastack) s.slots h.stored) sent h,
          sent.slots_same,
          sent.seqnum_same,
        )
      ]

  pub BeforeFile-HasPending :
      (w : Wake) (answers : List (List ℕ)) (s : Sender)
      → All (IsAckUpTo z expected) answers
      → Hears z answers w.socket
      → HasPending z chunks expected s
      → BeforeFile w s
  unfolding round
  BeforeFile-HasPending w answers s a heard h =
      let (s1, e1, h1, slots1, number1) = fast-HasPending s h in
      let (s2, e2, _, x2) = resend-Sent z w.resend_second s1 h1.sound in
      let due : Pkt → Bool = is_older w.resend_second s1.seqnum in
      let h2 : HasPending z chunks expected s2 =
        Sent-HasPending (selected due s1.slots) s1 s2
          (selected-All (IsChunk chunks) due s1.slots h1.stored) x2 h1 in
      let (s3, e3, h3, sent3) = Hears-HasPending w.socket answers s2 a heard h2 in
      record {
        state = s3;
        ends = rw (e1, e2) e3;
        rounds = λ is_file. rw (e1, e2, e3) refl;
        pending = h3;
        heard = λ d window number socket long acks.
            let (last, slots) =
              hears_number d window number s2 s3 h2.sound long acks
                (subst (λ (x : Socket). read_socket z x s2 ≡ some (go_on s3)) socket e3) in
            (
              last,
              slots
                  ∙ ap₂ (λ (n : ℕ) (l : List (Option Pkt)). map (unacked number n) l)
                      (x2.seqnum_same ∙ number1) (x2.slots_same ∙ slots1),
            );
        silence = λ socket.
            hears_nothing s2 s3
              (subst (λ (x : Socket). read_socket z x s2 ≡ some (go_on s3)) socket e3)
            ∙ (x2.slots_same ∙ slots1);
        resent = λ i small c past.
            let (p, same, chunk, among) =
              selected-IsAmong z (IsChunk chunks) w.resend_second s1.seqnum i s1.slots
                (omega (arith, number1)) h1.stored
                (subst (All (Holds (λ p. p.timestamp < w.resend_second))) (sym slots1) past)
                (subst (Contains i) (sym slots1) c) in
            (
              p,
              same,
              chunk,
              subst (IsAmong (wire z p)) (sym (sent3 ∙ x2.datagrams))
                  (IsAmong-right (wire z p) s1.sent (map (wire z) (selected due s1.slots)) among),
            );
      }
