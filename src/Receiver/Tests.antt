-- ===== src/Receiver/Tests.antt =====
-- Runs of the receiver, and its theorems at concrete states.
use lingi1341_projet.Prelude.{
  ℕ, zero, suc, ◌+◌, ◌<◌, ◌≡◌, refl, ◌⊎◌, inl, Bool, true, false, Option, none, some, List, [], ◌∷◌,
  ◌++◌, arith, length, replicate, All, length-replicate,
}
use lingi1341_projet.Packet.{Pkt, Status, pkt_new}
use lingi1341_projet.Packet.Codec.{pkt_decode}
use lingi1341_projet.Packet.Wire.{wire}
use lingi1341_projet.Packet.RoundTrip.{has_memory}
use lingi1341_projet.Samples.{toy, toy-IsZlib, text, data_packet, header_packet}
use lingi1341_projet.Receiver.{
  Receiver, initial, arrival, Round, continue, break, step, receiver_loop, flush, in_order,
}
use lingi1341_projet.Packet.Slots.{Contains, replicate-Holds, occupied-replicate}
use lingi1341_projet.Receiver.Ack.{after_ack}
use lingi1341_projet.Receiver.Invariant.{IsValid, IsStorable, initial-IsValid}
use lingi1341_projet.Receiver.Scan.{IsExhausted}
use lingi1341_projet.Receiver.Slots.{put_first, up_to_free}
use lingi1341_projet.Receiver.Flush.{
  bodies, advance, Consecutive, Taken, Delivered, flush-Delivered,
}
use lingi1341_projet.Receiver.Branches.{state}
use lingi1341_projet.Receiver.Step.{
  cleared_buffer, received_buffer, step_total, receiver_loop-IsValid,
}
use lingi1341_projet.Receiver.Arrivals.{IsData}
use lingi1341_projet.Receiver.Delivery.{step_expected, step_inside, step_outside}
use lingi1341_projet.Receiver.Stuck.{flush_leaves_expected}
use lingi1341_projet.Receiver.Truncated.{step_header_only}
use lingi1341_projet.Receiver.Answers.{IsAnswer, receiver_loop-answers}
use lingi1341_projet.Receiver.Breaks.{step_breaks}

abbrev writable : ℕ → Bool
writable k = true

abbrev expecting : ℕ → Receiver
expecting n = record {
  slots = replicate 31 none;
  window = 31;
  seqnum = n;
  len = 528;
  buffer = replicate 528 0;
  output = [];
  sent = [];
}

initial-expecting : initial ≡ expecting 0
unfolding initial
initial-expecting = refl

expecting-IsValid : (n : ℕ) → n < 256 → IsValid (expecting n)
unfolding initial
expecting-IsValid n h =
    let v = initial-IsValid in
    record {
      slots_len = v.slots_len;
      free = v.free;
      seqnum_byte = h;
      buffer_len = v.buffer_len;
      cleared = v.cleared;
      stored = v.stored;
    }

data_packet-IsData : (n : ℕ) → n < 256 → IsData (data_packet n) text
data_packet-IsData n h = record {
  sendable = omega arith;
  is_data = refl;
  payload = refl;
  some_bytes = omega arith;
  not_too_many = omega arith;
}

abbrev greeting : List ℕ
greeting = wire toy (data_packet 0)

step_expected_example :
    (ps : List Pkt) × (r' : Receiver) × (step toy
        (arrival (some greeting) has_memory writable)
        (expecting 0)
      ≡ some (continue (after_ack toy r')))
    × Consecutive 0 (data_packet 0 ∷ ps)
    × Taken (replicate 31 none) 1 ps r'.slots
    × IsExhausted r'
    × (r'.output ≡ [] ++ (text ++ bodies ps))
    × (r'.seqnum ≡ advance 0 (data_packet 0 ∷ ps))
    × (r'.window ≡ 31 + length ps)
    × IsValid r'
    × (r'.buffer ≡ cleared_buffer (some greeting) (expecting 0))
    × (r'.sent ≡ [])
step_expected_example =
    step_expected toy (data_packet 0) text (expecting 0) (data_packet-IsData 0 (omega arith))
      (expecting-IsValid 0 (omega arith)) writable toy-IsZlib (λ j. refl) refl

step_inside_example :
    (r' : Receiver) × (step toy
        (arrival (some (wire toy (data_packet 5))) has_memory writable)
        (expecting 0)
      ≡ some (continue (after_ack toy r')))
    × (r'.output ≡ [])
    × (r'.seqnum ≡ 0)
    × Contains 5 r'.slots
    × (q : Pkt) × (q.seqnum ≡ 5)
    × (q.length ≡ 3)
    × (q.payload ≡ some text)
    × (((Contains 5 (up_to_free (replicate 31 none)))
          × (r'.slots ≡ replicate 31 none)
          × (r'.window ≡ 31))
        ⊎ ((¬ Contains 5 (up_to_free (replicate 31 none)))
            × (r'.slots ≡ put_first q (replicate 31 none))
            × (r'.window + 1 ≡ 31)))
step_inside_example =
    step_inside toy (data_packet 5) text (expecting 0) (data_packet-IsData 5 (omega arith))
      (expecting-IsValid 0 (omega arith)) writable toy-IsZlib (omega arith) (omega arith)

step_outside_example :
    (r' : Receiver) × (step toy (arrival (some greeting) has_memory writable) (expecting 9)
      ≡ some (continue (after_ack toy r')))
    × (r'.output ≡ [])
    × (r'.seqnum ≡ 9)
    × (r'.slots ≡ replicate 31 none)
    × (r'.window ≡ 31)
step_outside_example =
    step_outside toy (data_packet 0) text (expecting 9) (data_packet-IsData 0 (omega arith))
      (expecting-IsValid 9 (omega arith)) writable toy-IsZlib (omega arith) (inl (omega arith))

greeting_run :
    receiver_loop toy (arrival (some greeting) has_memory writable ∷ []) (expecting 0)
    ≡ some (continue (after_ack toy step_expected_example.1))
unfolding receiver_loop
greeting_run = rw (step_expected_example.2, receiver_loop)

receiver_loop-IsValid_example : IsValid (after_ack toy step_expected_example.1)
receiver_loop-IsValid_example =
    receiver_loop-IsValid toy (arrival (some greeting) has_memory writable ∷ []) (expecting 0)
      (continue (after_ack toy step_expected_example.1)) (expecting-IsValid 0 (omega arith))
      greeting_run

receiver_loop-answers_example : All (IsAnswer toy) (after_ack toy step_expected_example.1).sent
receiver_loop-answers_example =
    receiver_loop-answers toy (arrival (some greeting) has_memory writable ∷ []) (expecting 0)
      (continue (after_ack toy step_expected_example.1)) toy-IsZlib
      (expecting-IsValid 0 (omega arith)) tt greeting_run

step_total_example :
    (o : Round) × (step toy (arrival (some greeting) has_memory writable) (expecting 0) ≡ some o)
    × IsValid (state o)
step_total_example =
    step_total toy (some greeting) has_memory writable (expecting 0)
      (expecting-IsValid 0 (omega arith)) (inl refl)

step_header_only_example :
    (r' : Receiver) × (step toy
        (arrival (some (wire toy (header_packet 0))) has_memory writable)
        (expecting 0)
      ≡ some (break r'))
    × (r'.output ≡ [])
    × (r'.sent ≡ [])
step_header_only_example =
    step_header_only toy writable (header_packet 0) (expecting 0) toy-IsZlib (omega arith) refl
      (omega arith) (omega arith) refl (expecting-IsValid 0 (omega arith)) refl

step_breaks_example :
    (d : Status × Pkt) × (pkt_decode toy has_memory
        (received_buffer (some (wire toy (header_packet 0))) (expecting 0))
        12
        pkt_new
      ≡ some d)
    × (d.1.type ≡ 1)
    × (d.1.seqnum ≡ 0)
    × ((◌≡◌ {A = Bool} true false) ⊎ (d.1.payload ≡ none))
    × (in_order toy writable d.1 (record (expecting 0) {
      buffer = cleared_buffer (some (wire toy (header_packet 0))) (expecting 0);
    })
        ≡ some (break step_header_only_example.0))
step_breaks_example =
    step_breaks toy (some (wire toy (header_packet 0))) has_memory writable (expecting 0)
      step_header_only_example.0 (expecting-IsValid 0 (omega arith)) step_header_only_example.1

-- The packets 2 and 1 are kept in the slots 0 and 1, and 1 is expected.
abbrev crossed : Receiver
crossed = record (expecting 1) {
  slots = some (data_packet 2) ∷ some (data_packet 1) ∷ replicate 29 none;
  window = 29;
}

crossed-IsValid : IsValid crossed
crossed-IsValid = record {
  slots_len = omega (arith, length-replicate {A = Option Pkt} 29 none);
  free = omega (arith, occupied-replicate 29);
  seqnum_byte = omega arith;
  buffer_len = length-replicate {A = ℕ} 528 0;
  cleared = omega arith;
  stored = (refl, (refl, replicate-Holds IsStorable 29));
}

no_packet : (n k : ℕ) → ¬ Contains n (replicate k none)
unfolding replicate
no_packet n zero c = c
no_packet n (suc k) c = no_packet n k c

flush-Delivered_example :
    (ps : List Pkt) × (r' : Receiver) × (flush 1024 writable 1 0 crossed ≡ some r')
    × Delivered crossed ps r'
    × IsExhausted r'
flush-Delivered_example =
    flush-Delivered 1024 writable 1 crossed (λ j. refl) (omega (arith, occupied-replicate 29))
      crossed-IsValid

flush_leaves_expected_example :
    (r' : Receiver) × (flush 1024 writable 1 0 crossed ≡ some r')
    × (r'.slots ≡ some (data_packet 2) ∷ none ∷ replicate 29 none)
    × (2 ≡ r'.seqnum)
    × (r'.output ≡ [] ++ text)
flush_leaves_expected_example =
    flush_leaves_expected 1024 writable 1 crossed (data_packet 1) (data_packet 2)
      (replicate 29 none) (λ j. refl) crossed-IsValid refl refl refl (no_packet 2 29) (omega arith)
