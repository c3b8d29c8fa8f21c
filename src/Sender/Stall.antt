-- ===== src/Sender/Stall.antt =====
-- The sender after an acknowledgement that is much older than the last one.
use lingi1341_projet.Prelude.{
  ℕ, ◌+◌, ◌≤◌, ◌≡◌, refl, ap, ◌∙◌, inl, inr, Bool, true, false, Option, none, some, List, [], ◌∷◌,
  map, arith, ◌>>=◌, length, All, ltb, leb, Bool-cases,
}
use lingi1341_projet.Platform.{Zlib}
use lingi1341_projet.Packet.{Pkt}
use lingi1341_projet.Packet.RoundTrip.{has_memory}
use lingi1341_projet.Packet.Slots.{occupied}
use lingi1341_projet.Receiver.Answers.{Acknowledges}
use lingi1341_projet.Sender.{Sender, silent, received_from, readable, Wake, go_on, unless_finished}
use lingi1341_projet.Sender.Phases.{
  fast_loop, fast_retransmit, resend, read_socket, read_file, round, read_write_loop,
}
use lingi1341_projet.Sender.Invariant.{IsSound}
use lingi1341_projet.Sender.Unacked.{unacked}
use lingi1341_projet.Sender.Acked.{receive_ack-same, receive_ack-Acknowledges}

-- A round in which the network is silent and the file can be read.
abbrev pub IsQuiet : Option Wake → Type 0
IsQuiet none = ⊥
IsQuiet (some w) = (w.socket ≡ silent) × ((answer : Option (List ℕ)) × (w.file ≡ readable answer))

-- A round in which a datagram arrives and the file can be read.
abbrev pub hearing : List ℕ → Option (List ℕ) → ℕ → ℕ → Wake
hearing d answer resend_second send_second = record {
  socket = received_from (some d) has_memory;
  file = readable answer;
  resend_second = resend_second;
  send_second = send_second;
  payload_memory = true;
}

-- No packet waits, and the window is shut.
abbrev IsShut : Sender → Type 0
IsShut s = (occupied s.slots ≡ 0) × (s.free ≡ 31) × (s.lastack + 31 ≤ s.seqnum)

unacked_empty :
    (number seqnum : ℕ) (slots : List (Option Pkt))
    → occupied slots ≡ 0
    → occupied (map (unacked number seqnum) slots) ≡ 0
unacked_empty number seqnum [] h = refl
unacked_empty number seqnum (none ∷ slots) h = unacked_empty number seqnum slots h
unacked_empty number seqnum (some p ∷ slots) h = absurd (omega arith)

module _ (z : Zlib) where
  fast_loop_empty :
      (slots : List (Option Pkt)) (s : Sender) → occupied slots ≡ 0 → fast_loop z slots s ≡ some s
  unfolding fast_loop
  fast_loop_empty [] s h = refl
  fast_loop_empty (none ∷ slots) s h = fast_loop_empty slots s h
  fast_loop_empty (some p ∷ slots) s h = absurd (omega arith)

  -- Without a packet in a slot nothing is sent again.
  resends_nothing :
      (stamp : ℕ) (s : Sender)
      → occupied s.slots ≡ 0
      → s.free ≡ 31
      → (fast_retransmit z s ≡ some s) × (resend z stamp s ≡ some s)
  unfolding fast_retransmit resend
  resends_nothing stamp s empty free = (
    elim (Bool-cases (leb 3 s.count)) [
      | inl enough ↦ rw enough (fast_loop_empty s.slots s empty)
      | inr few ↦ rw few refl
    ],
    rw free refl,
  )

  shut_file :
      (is_file : Bool) (answer : Option (List ℕ)) (second : ℕ) (memory : Bool) (s : Sender)
      → IsShut s
      → read_file z is_file (readable answer) second memory s ≡ some (go_on s)
  unfolding read_file
  shut_file is_file answer second memory s (_, free, shut) =
      let closed : ltb s.seqnum (s.lastack + s.free) ≡ false = ground arith in rw closed refl

  -- The round from the socket on, where no packet waits.
  round_empty :
      (is_file : Bool) (w : Wake) (s : Sender)
      → occupied s.slots ≡ 0
      → s.free ≡ 31
      → round z is_file (some w) s ≡ (
          read_socket z w.socket s >>= λ t.
          unless_finished t (λ x. read_file z is_file w.file w.send_second w.payload_memory x))
  unfolding round
  round_empty is_file w s empty free =
      let (e1, e2) = resends_nothing w.resend_second s empty free in rw (e1, e2) refl

  shut_round :
      (is_file : Bool) (w : Wake) (s : Sender)
      → IsQuiet (some w)
      → IsShut s
      → round z is_file (some w) s ≡ some (go_on s)
  unfolding read_socket
  shut_round is_file w s (quiet, (answer, ready)) (empty, free, shut) =
      round_empty is_file w s empty free
      ∙ rw (quiet, ready, read_socket)
          (shut_file is_file answer w.send_second w.payload_memory s (empty, free, shut))

  shut_loop :
      (is_file : Bool) (ws : List (Option Wake)) (s : Sender)
      → All IsQuiet ws
      → IsShut s
      → read_write_loop z is_file ws s ≡ some (go_on s)
  unfolding read_write_loop
  shut_loop is_file [] s quiet h = refl
  shut_loop is_file (none ∷ ws) s quiet h = absurd quiet.0
  shut_loop is_file (some w ∷ ws) s quiet h =
      rw (shut_round is_file w s quiet.0 h, read_write_loop) (shut_loop is_file ws s quiet.1 h)

  -- With all slots free, an acknowledgement whose number is 31 or more below the next one, which a slow or
  -- repeating network may deliver at any time, shuts the window for good: while the network is silent, the
  -- loop runs on without reading, sending or ending, although the file may have more bytes.
  pub old_ack_stalls :
      (is_file : Bool) (window number : ℕ) (d : List ℕ) (answer : Option (List ℕ))
      (resend_second send_second : ℕ) (s : Sender)
      → IsSound s
      → s.free ≡ 31
      → length d ≡ 512
      → Acknowledges z window number d
      → number + 31 ≤ s.seqnum
      → (s' : Sender) × (round z is_file (some (hearing d answer resend_second send_second)) s
          ≡ some (go_on s'))
        × ((ws : List (Option Wake))
            → All IsQuiet ws
            → read_write_loop z is_file ws s' ≡ some (go_on s'))
  unfolding read_socket
  old_ack_stalls is_file window number d answer resend_second send_second s v free long acks old =
      let (s', e, v', last, _, slots) = receive_ack-Acknowledges z window number d s v long acks in
      let same : s'.seqnum ≡ s.seqnum = (receive_ack-same z d s s' v e).0 in
      let none_waits : occupied s.slots ≡ 0 = omega (arith, v.balance) in
      let empty : occupied s'.slots ≡ 0 =
        ap occupied slots ∙ unacked_empty number s.seqnum s.slots none_waits in
      let shut : IsShut s' = (empty, omega (arith, v'.balance, empty), omega (arith, last, same)) in
      (
        s',
        round_empty is_file (hearing d answer resend_second send_second) s none_waits free
            ∙ rw (e, read_socket) (shut_file is_file answer send_second true s' shut),
        λ ws quiet. shut_loop is_file ws s' quiet shut,
      )
