-- ===== src/Sender/Minute.antt =====
-- The second of a packet: the sender compares `tm_sec` of the present time, which starts again from 0 every
-- minute, with the second in which it sent the packet.
use lingi1341_projet.Prelude.{
  ℕ, ◌≤◌, ◌<◌, ◌≡◌, refl, inl, inr, Bool, false, Option, none, some, List, [], ◌∷◌, arith, All, ltb,
  leb, Bool-cases,
}
use lingi1341_projet.Platform.{Zlib}
use lingi1341_projet.Packet.{Pkt}
use lingi1341_projet.Packet.Slots.{occupied, Holds}
use lingi1341_projet.Sender.{Sender, silent, readable, Wake, go_on}
use lingi1341_projet.Sender.Phases.{
  is_due, fast_retransmit, resend_loop, resend, read_socket, round, read_write_loop,
}
use lingi1341_projet.Sender.Invariant.{IsSound}
use lingi1341_projet.Sender.Reads.{read_file_at_end}

-- A round with a second of the clock, in which the network is silent and the file at its end.
abbrev pub IsIdle : Option Wake → Type 0
IsIdle none = ⊥
IsIdle (some w) = (w.socket ≡ silent) × (w.file ≡ readable (some [])) × (w.resend_second < 60)

-- A packet that was sent in the last second of a minute.
abbrev pub IsLate : Pkt → Type 0
IsLate p = 59 ≤ p.timestamp

module _ (z : Zlib) where
  resend_loop-late :
      (stamp : ℕ) (slots : List (Option Pkt)) (s : Sender)
      → stamp < 60
      → All (Holds IsLate) slots
      → resend_loop z stamp slots s ≡ some s
  unfolding resend_loop
  resend_loop-late stamp [] s h a = refl
  resend_loop-late stamp (none ∷ slots) s h a = resend_loop-late stamp slots s h a.1
  resend_loop-late stamp (some p ∷ slots) s h a =
      let early : is_due stamp s.seqnum p ≡ false = ground (arith, a.0) in
      rw (early, resend_loop) (resend_loop-late stamp slots s h a.1)

  resend-late :
      (stamp : ℕ) (s : Sender) → stamp < 60 → All (Holds IsLate) s.slots → resend z stamp s ≡ some s
  unfolding resend
  resend-late stamp s h a = elim (Bool-cases (ltb s.free 31)) [
    | inl some_taken ↦ rw some_taken (resend_loop-late stamp s.slots s h a)
    | inr all_free ↦ rw all_free refl
  ]

  fast_retransmit-few : (s : Sender) → s.count < 3 → fast_retransmit z s ≡ some s
  unfolding fast_retransmit
  fast_retransmit-few s h = let few : leb 3 s.count ≡ false = ground arith in rw few refl

  late_round :
      (is_file : Bool) (w : Wake) (s : Sender)
      → IsSound s
      → 1 ≤ occupied s.slots
      → All (Holds IsLate) s.slots
      → s.count < 3
      → IsIdle (some w)
      → round z is_file (some w) s ≡ some (go_on s)
  unfolding round read_socket
  late_round is_file w s v waits late few (quiet, at_end, clock) =
      rw
        (
          fast_retransmit-few s few,
          resend-late w.resend_second s clock late,
          quiet,
          read_socket,
          at_end,
        )
        (read_file_at_end z is_file w.send_second w.payload_memory s v waits)

  -- A packet that was sent in the second 59 and lost is never sent again for its age, since no second of the
  -- clock is above 59. If only such packets wait, fewer than three acknowledgements were repeated and
  -- the file is at its end, then as long as the network is silent the loop neither sends nor ends, however
  -- many rounds go by.
  pub last_second_stuck :
      (is_file : Bool) (ws : List (Option Wake)) (s : Sender)
      → IsSound s
      → 1 ≤ occupied s.slots
      → All (Holds IsLate) s.slots
      → s.count < 3
      → All IsIdle ws
      → read_write_loop z is_file ws s ≡ some (go_on s)
  unfolding read_write_loop
  last_second_stuck is_file [] s v waits late few idle = refl
  last_second_stuck is_file (none ∷ ws) s v waits late few idle = absurd idle.0
  last_second_stuck is_file (some w ∷ ws) s v waits late few idle =
      rw (late_round is_file w s v waits late few idle.0, read_write_loop)
        (last_second_stuck is_file ws s v waits late few idle.1)
