-- ===== src/Sender/StallTests.antt =====
-- The states in which the sender runs on for nothing, on concrete values.
use lingi1341_projet.Prelude.{
  ℕ, ◌+◌, ◌≤◌, ◌<◌, ◌≡◌, refl, ◌⊎◌, inl, true, Option, none, some, List, [], ◌∷◌, arith, replicate,
  All, length-replicate,
}
use lingi1341_projet.Packet.{Pkt}
use lingi1341_projet.Packet.Slots.{Contains, replicate-Holds, occupied-replicate}
use lingi1341_projet.Receiver.{initial}
use lingi1341_projet.Samples.{toy, text, data_packet}
use lingi1341_projet.Sender.{Sender, start, silent, readable, Wake, go_on, acknowledged}
use lingi1341_projet.Sender.Phases.{round, read_write_loop}
use lingi1341_projet.Sender.Invariant.{IsStored, IsSound, start-IsSound}
use lingi1341_projet.Sender.Tests.{first_ack, length-first_ack, first_ack-Acknowledges}
use lingi1341_projet.Sender.Acked.{acknowledged_keeps_last}
use lingi1341_projet.Sender.Stall.{IsQuiet, hearing, old_ack_stalls}
use lingi1341_projet.Sender.Minute.{IsLate, last_second_stuck}
use lingi1341_projet.Sender.Loop.{HasOverrun}
use lingi1341_projet.Sender.Last.{read_write_loop_endless}

-- One packet waits that was sent in the second 59.
abbrev waiting : ℕ → ℕ → Sender
waiting number next = record start {
  seqnum = next;
  slots = some (record (data_packet number) { timestamp = 59 }) ∷ replicate 30 none;
  free = 30;
}

waiting-IsSound : (number next : ℕ) → number < 256 → next < 256 → IsSound (waiting number next)
unfolding replicate
waiting-IsSound number next hn hs = record {
  slots_len = omega (arith, length-replicate {A = Option Pkt} 30 none);
  balance = omega (arith, occupied-replicate 30);
  seqnum_byte = hs;
  buffer1_len = start-IsSound.buffer1_len;
  buffer2_len = start-IsSound.buffer2_len;
  stored = (omega arith, replicate-Holds IsStored 30);
}

-- A round at the end of the file.
abbrev at_end : ℕ → Option Wake
at_end second = some record {
  socket = silent;
  file = readable (some []);
  resend_second = second;
  send_second = second;
  payload_memory = true;
}

no_repeats : (number next : ℕ) → (waiting number next).count < 3
unfolding start
no_repeats number next = omega arith

last_second_stuck_example :
    read_write_loop toy true (at_end 59 ∷ at_end 0 ∷ at_end 59 ∷ []) (waiting 0 1)
    ≡ some (go_on (waiting 0 1))
last_second_stuck_example =
    last_second_stuck toy true (at_end 59 ∷ at_end 0 ∷ at_end 59 ∷ []) (waiting 0 1)
      (waiting-IsSound 0 1 (omega arith) (omega arith)) (omega arith)
      (omega arith, replicate-Holds IsLate 30) (no_repeats 0 1)
      ((refl, refl, omega arith), ((refl, refl, omega arith), ((refl, refl, omega arith), tt)))

run_of_255 :
    read_write_loop toy true (at_end 59 ∷ []) (waiting 255 0) ≡ some (go_on (waiting 255 0))
run_of_255 =
    last_second_stuck toy true (at_end 59 ∷ []) (waiting 255 0)
      (waiting-IsSound 255 0 (omega arith) (omega arith)) (omega arith)
      (omega arith, replicate-Holds IsLate 30) (no_repeats 255 0) ((refl, refl, omega arith), tt)

read_write_loop_endless_example :
    ((s1 : Sender) × (go_on (waiting 255 0) ≡ go_on s1) × Contains 255 s1.slots)
    ⊎ HasOverrun toy true (at_end 59 ∷ []) (waiting 255 0)
read_write_loop_endless_example =
    read_write_loop_endless toy true (at_end 59 ∷ []) (waiting 255 0) (go_on (waiting 255 0))
      ((λ alloc e. cc, λ e. cc), tt) (waiting-IsSound 255 0 (omega arith) (omega arith)) (inl refl)
      run_of_255

-- The acknowledgement of packet 255, number 0, changes nothing.
last_stays : Contains 255 (acknowledged (data_packet 0) (waiting 255 0)).slots
last_stays = acknowledged_keeps_last (data_packet 0) (waiting 255 0) (omega arith) (inl refl)

-- The state after 31 packets, all acknowledged.
abbrev drained : Sender
drained = record start { seqnum = 31; lastack = 31 }

drained-IsSound : IsSound drained
drained-IsSound = record {
  slots_len = start-IsSound.slots_len;
  balance = start-IsSound.balance;
  seqnum_byte = omega arith;
  buffer1_len = start-IsSound.buffer1_len;
  buffer2_len = start-IsSound.buffer2_len;
  stored = start-IsSound.stored;
}

all_free : drained.free ≡ 31
unfolding start
all_free = refl

-- The first acknowledgement of the receiver arrives once more.
far_below : initial.seqnum + 31 ≤ drained.seqnum
unfolding initial
far_below = omega arith

old_ack_stalls_example :
    (s' : Sender) × (round toy true (some (hearing first_ack (some text) 13 13)) drained
      ≡ some (go_on s'))
    × ((ws : List (Option Wake))
        → All IsQuiet ws
        → read_write_loop toy true ws s' ≡ some (go_on s'))
old_ack_stalls_example =
    old_ack_stalls toy true initial.window initial.seqnum first_ack (some text) 13 13 drained
      drained-IsSound all_free length-first_ack first_ack-Acknowledges far_below
