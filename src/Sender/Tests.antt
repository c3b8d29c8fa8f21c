-- ===== src/Sender/Tests.antt =====
-- The sender on concrete values.
use lingi1341_projet.Prelude.{
  ℕ, zero, suc, ◌+◌, ◌≤◌, ◌<◌, ◌≡◌, refl, ◌⊎◌, true, Option, some, List, [], ◌∷◌, ◌++◌, map, arith,
  length, take, replicate, All, length-take, length-replicate, ◌==◌, if◌then◌else◌,
}
use lingi1341_projet.Packet.{Pkt}
use lingi1341_projet.Packet.RoundTrip.{has_memory}
use lingi1341_projet.Packet.Wire.{wire}
use lingi1341_projet.Packet.Slots.{occupied, Holds}
use lingi1341_projet.Receiver.{initial}
use lingi1341_projet.Receiver.Invariant.{initial-IsValid}
use lingi1341_projet.Receiver.Ack.{ack_buffer, length-ack_buffer}
use lingi1341_projet.Receiver.Answers.{IsCleared, Acknowledges, ack-Acknowledges}
use lingi1341_projet.Receiver.Arrivals.{IsData}
use lingi1341_projet.Samples.{toy, toy-IsZlib, text, data_packet}
use lingi1341_projet.Seqnum.{inc_seqnum}
use lingi1341_projet.Sender.{Sender, start, silent, readable, Wake, Turn, go_on, finish, put_packet}
use lingi1341_projet.Sender.Phases.{
  fast_retransmit, receive_ack, send_data, read_file, round, read_write_loop,
}
use lingi1341_projet.Sender.Invariant.{IsStored, IsSound, start-IsSound}
use lingi1341_projet.Sender.Send.{selected, Sent, is_missing, fast_retransmit-Sent}
use lingi1341_projet.Sender.Unacked.{unacked}
use lingi1341_projet.Sender.Acked.{receive_ack-Acknowledges}
use lingi1341_projet.Sender.Data.{send_data-IsData}
use lingi1341_projet.Sender.Reads.{Outcome}
use lingi1341_projet.Sender.Rounds.{round-Outcome, round_total}
use lingi1341_projet.Sender.Loop.{sender_of, HasOverrun, read_write_loop-IsSound}
use lingi1341_projet.Sender.Overrun.{read_file_overruns}

-- A state with all slots taken by one packet.
abbrev crowded : ℕ → ℕ → ℕ → Sender
crowded number next last = record {
  buffer1 = replicate 528 0;
  buffer2 = replicate 512 0;
  ack = data_packet 0;
  len = 528;
  seqnum = next;
  slots = replicate 31 (some (data_packet number));
  free = 0;
  lastack = last;
  count = 3;
  sent = [];
}

occupied-crowded : (k : ℕ) (p : Pkt) → occupied (replicate k (some p)) ≡ k
unfolding replicate
occupied-crowded zero p = refl
occupied-crowded (suc k) p = omega (arith, occupied-crowded k p)

replicate-IsStored : (k : ℕ) (p : Pkt) → IsStored p → All (Holds IsStored) (replicate k (some p))
unfolding replicate
replicate-IsStored zero p v = tt
replicate-IsStored (suc k) p v = (v, replicate-IsStored k p v)

crowded-IsSound :
    (number next last : ℕ) → number < 256 → next < 256 → IsSound (crowded number next last)
unfolding replicate
crowded-IsSound number next last hn hs = record {
  slots_len = length-replicate {A = Option Pkt} 31 (some (data_packet number));
  balance = occupied-crowded 31 (data_packet number);
  seqnum_byte = hs;
  buffer1_len = length-replicate {A = ℕ} 528 0;
  buffer2_len = length-replicate {A = ℕ} 512 0;
  stored = replicate-IsStored 31 (data_packet number) (omega arith);
}

-- At the start the sender waits for both descriptors: the file gives three bytes.
abbrev first_wake : Wake
first_wake = record {
  socket = silent;
  file = readable (some text);
  resend_second = 13;
  send_second = 13;
  payload_memory = true;
}

first_turn :
    (t : Turn) × (round toy true (some first_wake) start ≡ some t)
    × Outcome toy silent (readable (some text)) t
first_turn = round_total toy true first_wake start start-IsSound refl

round-Outcome_example : Outcome toy silent (readable (some text)) first_turn.0
round-Outcome_example =
    round-Outcome toy true first_wake start first_turn.0 start-IsSound first_turn.1

fast_retransmit-Sent_example :
    (s' : Sender) × (fast_retransmit toy (crowded 4 5 4) ≡ some s')
    × IsSound s'
    × (((3 < 3) × (s' ≡ crowded 4 5 4))
        ⊎ ((3 ≤ 3)
            × Sent toy
                (selected (is_missing 4) (replicate 31 (some (data_packet 4))))
                (crowded 4 5 4)
                s'
            × ((s'.count ≡ 0)
                ⊎ (selected (is_missing 4) (replicate 31 (some (data_packet 4))) ≡ []))))
fast_retransmit-Sent_example =
    fast_retransmit-Sent toy (crowded 4 5 4) (crowded-IsSound 4 5 4 (omega arith) (omega arith))

read_file_overruns_example :
    (s' : Sender) × (read_file toy true (readable (some text)) 13 true (crowded 255 3 255)
      ≡ some (go_on s'))
    × (s'.slots ≡ replicate 31 (some (data_packet 255)))
    × (s'.seqnum ≡ 3)
    × (s'.free ≡ 255)
    × (length s'.sent ≡ 0 + 1)
read_file_overruns_example =
    read_file_overruns toy true 104 (105 ∷ 33 ∷ []) 13 true (crowded 255 3 255)
      (crowded-IsSound 255 3 255 (omega arith) (omega arith)) refl (omega arith)

one_free : 1 ≤ start.free
unfolding start
one_free = omega arith

send_data-IsData_example :
    (p : Pkt) × (s' : Sender) × (send_data toy 3 13 true start ≡ some s')
    × IsSound s'
    × IsData p (take 3 start.buffer2)
    × (p.seqnum ≡ start.seqnum)
    × (s'.sent ≡ start.sent ++ (wire toy p ∷ []))
    × (s'.seqnum ≡ inc_seqnum start.seqnum)
    × (s'.free + 1 ≡ start.free)
    × (put_packet p start.slots ≡ some s'.slots)
send_data-IsData_example =
    send_data-IsData toy 3 13 start start-IsSound one_free (omega arith) (omega arith)

initial-IsCleared : IsCleared initial.buffer
unfolding initial replicate
initial-IsCleared = (replicate 16 0, refl)

few_slots : initial.window < 32
unfolding initial
few_slots = omega arith

first_number : initial.seqnum < 256
unfolding initial
first_number = omega arith

-- The first acknowledgement of the receiver.
abbrev pub first_ack : List ℕ
first_ack = take 512 (ack_buffer toy initial)

pub length-first_ack : length first_ack ≡ 512
length-first_ack =
    length-take 512 (ack_buffer toy initial)
      (omega (arith, length-ack_buffer toy initial initial-IsValid.buffer_len))

pub first_ack-Acknowledges : Acknowledges toy initial.window initial.seqnum first_ack
first_ack-Acknowledges =
    ack-Acknowledges toy initial toy-IsZlib few_slots first_number initial-IsCleared

-- It arrives at a sender whose slots are all taken.
receive_ack-Acknowledges_example :
    (s' : Sender) × (receive_ack toy (take 512 (ack_buffer toy initial)) has_memory (crowded 4 5 4)
      ≡ some s')
    × IsSound s'
    × (s'.lastack ≡ initial.seqnum)
    × (s'.count ≡ (if 4 == initial.seqnum then 4 else 3))
    × (s'.slots ≡ map (unacked initial.seqnum 5) (replicate 31 (some (data_packet 4))))
receive_ack-Acknowledges_example =
    receive_ack-Acknowledges toy initial.window initial.seqnum first_ack (crowded 4 5 4)
      (crowded-IsSound 4 5 4 (omega arith) (omega arith)) length-first_ack first_ack-Acknowledges

one_round :
    (t : Turn)
    → round toy true (some first_wake) start ≡ some t
    → (u : Turn) × (read_write_loop toy true (some first_wake ∷ []) start ≡ some u)
unfolding read_write_loop
one_round (go_on s) e = (go_on s, rw (e, read_write_loop) refl)
one_round (finish s) e = (finish s, rw (e, read_write_loop) refl)

first_run : (u : Turn) × (read_write_loop toy true (some first_wake ∷ []) start ≡ some u)
first_run = one_round first_turn.0 first_turn.1

read_write_loop-IsSound_example :
    IsSound (sender_of first_run.0) ⊎ HasOverrun toy true (some first_wake ∷ []) start
read_write_loop-IsSound_example =
    read_write_loop-IsSound toy true (some first_wake ∷ []) start first_run.0 start-IsSound
      first_run.1
