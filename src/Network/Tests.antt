-- ===== src/Network/Tests.antt =====
-- A transfer of three bytes over the network.
use lingi1341_projet.Prelude.{
  ℕ, ◌+◌, ◌*◌, ◌≤◌, ◌<◌, ◌≡◌, refl, inl, inr, true, none, some, List, [], ◌∷◌, ◌++◌, arith, take,
  replicate, All,
}
use lingi1341_projet.Prelude.Memory.{load, store}
use lingi1341_projet.Packet.{Pkt, pkt_set_payload}
use lingi1341_projet.Packet.Codec.{
  encode_payload, pkt_encode, decode_payload, decode_crc1, decode_length, decode_type, pkt_decode,
}
use lingi1341_projet.Packet.RoundTrip.{has_memory}
use lingi1341_projet.Packet.Wire.{wire}
use lingi1341_projet.Receiver.{
  make_ack, Receiver, initial, arrival, continue, step, handle, in_order, write_out, after_write,
  flush, send_ack,
}
use lingi1341_projet.Receiver.Ack.{after_ack}
use lingi1341_projet.Samples.{toy, toy-IsZlib, text, data_packet}
use lingi1341_projet.Sender.{
  Sender, start, silent, received_from, readable, Wake, go_on, finish, put_packet, drop_acked,
}
use lingi1341_projet.Sender.Phases.{
  send_packet, fast_retransmit, resend_loop, resend, receive_ack, read_socket, send_data, read_some,
  read_file, round,
}
use mathlib.Core.List.{flatten}
use lingi1341_projet.Packet.Slots.{Contains, Holds, replicate-Holds}
use lingi1341_projet.Network.Progress.{IsEarly}
use lingi1341_projet.Sender.Stall.{hearing}
use lingi1341_projet.Prelude.Memory.{load-append}
use lingi1341_projet.Packet.{e_type, pkt_set_tr}
use lingi1341_projet.Packet.Codec.{load_header}
use lingi1341_projet.Receiver.Step.{cleared_buffer}
use lingi1341_projet.Network.{rounds_of, IsAmong, IsRefused}
use lingi1341_projet.Network.Safety.{Reach-IsPrefix, Reach-kept, finish_complete}
use lingi1341_projet.Network.Progress.{all_lost}
use lingi1341_projet.Network.Stream.{IsStreamRun, Reach-Moves}
use lingi1341_projet.Network.Completion.{Reach-ends}
use lingi1341_projet.Network.{
  System, launch, Hears, before_file, sends, receives, Reach, here, next,
}

-- The packet that is sent in the first round.
abbrev first_packet : Pkt
first_packet = record (data_packet 0) { window = 30; timestamp = 13 }

abbrev first_wake : Wake
first_wake = record {
  socket = silent;
  file = readable (some text);
  resend_second = 13;
  send_second = 13;
  payload_memory = true;
}

abbrev first_sender : Sender
first_sender = record start {
  slots = some first_packet ∷ replicate 30 none;
  free = 30;
  seqnum = 1;
  sent = wire toy first_packet ∷ [];
}

first_before : before_file toy first_wake start ≡ some (go_on start)
unfolding fast_retransmit resend read_socket start
first_before = refl

first_round : round toy true (some first_wake) start ≡ some (go_on first_sender)
unfolding round fast_retransmit resend read_socket start read_file read_some send_data send_packet
    put_packet pkt_set_payload pkt_encode encode_payload load store replicate
first_round = refl

abbrev first_receiver : Receiver
first_receiver = after_ack toy record {
  slots = replicate 31 none;
  window = 31;
  seqnum = 1;
  len = 528;
  buffer = replicate 528 0;
  output = text;
  sent = [];
}

first_arrival :
    step toy (arrival (some (wire toy first_packet)) has_memory (λ k. true)) initial
    ≡ some (continue first_receiver)
unfolding step initial handle in_order write_out after_write flush send_ack pkt_set_payload
    pkt_encode encode_payload load store replicate pkt_decode decode_type decode_length decode_crc1
    decode_payload
first_arrival = refl

abbrev answer : List ℕ
answer = wire toy (make_ack 31 1) ++ replicate 500 0

abbrev last_wake : Wake
last_wake = record {
  socket = received_from (some answer) has_memory;
  file = readable (some []);
  resend_second = 13;
  send_second = 13;
  payload_memory = true;
}

answer_sent : Hears toy first_receiver.sent last_wake.socket
unfolding replicate
answer_sent = (inl (inl refl), refl)

last_round : (s : Sender) × (round toy true (some last_wake) first_sender ≡ some (finish s))
unfolding round fast_retransmit resend resend_loop read_socket receive_ack start drop_acked
    read_file read_some load store replicate pkt_decode decode_type decode_length decode_crc1
    decode_payload pkt_set_payload
last_round = (_, refl)

-- The piece is on the network.
abbrev on_the_way : System
on_the_way = record { sender = first_sender; receiver = initial; chunks = text ∷ [] }

-- It has arrived.
abbrev arrived : System
arrived = record { sender = first_sender; receiver = first_receiver; chunks = text ∷ [] }

on_the_way-Reach : Reach toy true launch on_the_way
unfolding start
on_the_way-Reach = next here (
    sends first_wake start first_sender tt tt refl (omega arith, omega arith) first_before
      first_round)

arrived-Reach : Reach toy true launch arrived
arrived-Reach = next on_the_way-Reach (
    receives (wire toy first_packet) (λ k. true) first_receiver (inl (inl refl)) (λ k. refl)
      first_arrival)

Reach-Moves_example : IsStreamRun arrived-Reach
Reach-Moves_example =
    Reach-Moves {z = toy} {is_file = true} {t = arrived} toy-IsZlib arrived-Reach (omega arith)

prefix_arrived : (rest : List ℕ) × (flatten (text ∷ []) ≡ text ++ rest)
prefix_arrived = Reach-IsPrefix toy true arrived toy-IsZlib arrived-Reach (omega arith)

-- A header of an unknown type, which the receiver refuses and answers.
abbrev untyped : List ℕ
untyped = replicate 12 0

untyped-IsRefused : IsRefused toy untyped
unfolding pkt_decode decode_type replicate
untyped-IsRefused rest q h = (
  e_type,
  (pkt_set_tr (load_header untyped q) 0).1,
  λ e. cc,
  rw (load-append [] untyped rest 0 12 refl refl) refl,
)

abbrev disturbed_receiver : Receiver
disturbed_receiver =
    let r : Receiver = record initial { buffer = cleared_buffer (some untyped) initial } in
    after_ack toy r

untyped_arrival :
    step toy (arrival (some untyped) has_memory (λ k. true)) initial
    ≡ some (continue disturbed_receiver)
unfolding step initial handle send_ack pkt_encode encode_payload load store replicate pkt_decode
    decode_type
untyped_arrival = refl

abbrev disturbed : System
disturbed = record on_the_way { receiver = disturbed_receiver }

disturbed-Reach : Reach toy true launch disturbed
disturbed-Reach = next on_the_way-Reach (
    receives untyped (λ k. true) disturbed_receiver (inr untyped-IsRefused) (λ k. refl)
      untyped_arrival)

Reach-kept_example :
    (disturbed_receiver.output ≡ flatten (take disturbed_receiver.seqnum (text ∷ [])))
    × ((i : ℕ) → disturbed_receiver.seqnum ≤ i → i < 1 → Contains i first_sender.slots)
Reach-kept_example = Reach-kept toy true disturbed toy-IsZlib disturbed-Reach (omega arith)

finish_complete_example : text ≡ flatten (text ∷ [])
finish_complete_example =
    finish_complete toy true arrived last_wake last_round.0 toy-IsZlib arrived-Reach (omega arith)
      answer_sent refl last_round.1

lacks : initial.seqnum < 1
unfolding initial
lacks = omega arith

first_sender-IsEarly : All (Holds IsEarly) first_sender.slots
unfolding replicate
first_sender-IsEarly = (omega arith, replicate-Holds IsEarly 30)

Reach-ends_example :
    (u : System) × (run : Reach toy true (all_lost on_the_way) u) × (rounds_of toy run
        + 2 * initial.seqnum
      ≤ 2 * 1)
    × (u.receiver.output ≡ flatten (text ∷ []))
    × (d : List ℕ) × IsAmong d u.receiver.sent
    × (s : Sender) × (round toy true (some (hearing d (some []) 13 13)) u.sender ≡ some (finish s))
Reach-ends_example =
    Reach-ends toy true on_the_way 13 toy-IsZlib on_the_way-Reach (omega arith) lacks
      first_sender-IsEarly
