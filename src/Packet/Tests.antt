-- ===== src/Packet/Tests.antt =====
-- Runs of the packet codec, and its theorems at concrete packets.
use lingi1341_projet.Prelude.{
  ℕ, ◌≡◌, refl, ◌≢◌, inl, none, some, List, [], ◌∷◌, ◌++◌, arith, ◌>>=◌, length, take, drop,
  replicate, All, length-replicate,
}
use lingi1341_projet.Prelude.Memory.{load}
use lingi1341_projet.Packet.{pkt_ok, e_type, pkt_new}
use lingi1341_projet.Packet.Codec.{pkt_encode, pkt_decode, decode_type}
use lingi1341_projet.Packet.Wire.{IsSendable, wire, be32, header}
use lingi1341_projet.Packet.Canonical.{encode-decode}
use lingi1341_projet.Prelude.Words.{IsU8}
use lingi1341_projet.Packet.RoundTrip.{has_memory, received, decode-encode, decode-wire}
use lingi1341_projet.Packet.Sound.{IsAccepted, decode-IsAccepted}
use lingi1341_projet.Packet.Bounds.{encode_overflows, decode_in_bounds, decode_overreads}
use lingi1341_projet.Samples.{
  toy, toy-IsZlib, data_packet, long_ack, data_packet-IsSendable, data_packet-IsAcceptable,
}

abbrev room : List ℕ
room = 9 ∷ 9 ∷ 9 ∷ 9 ∷ 9 ∷ 9 ∷ 9 ∷ 9 ∷ 9 ∷ 9 ∷ 9 ∷ 9 ∷ 9 ∷ 9 ∷ 9 ∷ 9 ∷ 9 ∷ 9 ∷ 9 ∷ 9 ∷ []

-- The bytes of the header: 31 + 64, the number, the length and the timestamp.
header_bytes : take 8 (wire toy (data_packet 7)) ≡ 95 ∷ 7 ∷ 0 ∷ 3 ∷ 12 ∷ 0 ∷ 0 ∷ 0 ∷ []
header_bytes = refl

-- A buffer of zeros has no known type.
zeros_refused : pkt_decode toy has_memory (replicate 12 0) 12 pkt_new ≡ some (e_type, pkt_new)
unfolding pkt_decode decode_type load replicate
zeros_refused = refl

decode-encode_example :
    (pkt_encode toy (data_packet 0) room >>= λ r. pkt_decode toy has_memory r.1 r.2 pkt_new)
    ≡ some (pkt_ok, received toy (data_packet 0) pkt_new)
decode-encode_example =
    decode-encode toy (data_packet 0) pkt_new room toy-IsZlib data_packet-IsSendable
      data_packet-IsAcceptable (omega arith)

decode-IsAccepted_example :
    IsAccepted toy has_memory
      (wire toy (data_packet 0) ++ [])
      19
      pkt_new
      (received toy (data_packet 0) pkt_new)
decode-IsAccepted_example =
    decode-IsAccepted toy has_memory (wire toy (data_packet 0) ++ []) 19 pkt_new
      (received toy (data_packet 0) pkt_new)
      (decode-wire toy (data_packet 0) pkt_new [] toy-IsZlib data_packet-IsSendable
        data_packet-IsAcceptable)

wire_bytes : All IsU8 (wire toy (data_packet 0) ++ [])
wire_bytes = ground arith

-- The bytes of the packet, and none behind them.
encode-decode_example :
    (datagram : List ℕ) × (rest : List ℕ) × (wire toy (data_packet 0) ++ [] ≡ datagram ++ rest)
    × IsSendable (received toy (data_packet 0) pkt_new)
    × (pkt_encode toy (received toy (data_packet 0) pkt_new) room
        ≡ some (pkt_ok, datagram ++ drop (length datagram) room, length datagram))
encode-decode_example =
    encode-decode toy has_memory (wire toy (data_packet 0) ++ []) 19
      (received toy (data_packet 0) pkt_new) room toy-IsZlib wire_bytes (omega arith)
      (decode-wire toy (data_packet 0) pkt_new [] toy-IsZlib data_packet-IsSendable
        data_packet-IsAcceptable)

buffer_overflows : pkt_encode toy (data_packet 0) (take 18 room) ≡ none
buffer_overflows =
    encode_overflows toy (data_packet 0) (take 18 room) data_packet-IsSendable (omega arith)

decode_in_bounds_example :
    pkt_decode toy has_memory (wire toy (data_packet 0) ++ replicate 509 0) 19 pkt_new ≢ none
decode_in_bounds_example =
    decode_in_bounds toy has_memory (wire toy (data_packet 0) ++ replicate 509 0) 19 pkt_new
      (omega (arith, length-replicate {A = ℕ} 509 0)) (inl refl)

decode_overreads_example :
    pkt_decode toy has_memory
      (header long_ack ++ (be32 (toy.crc32 0 (header long_ack)) ++ replicate 516 0))
      13
      pkt_new
    ≡ none
decode_overreads_example =
    decode_overreads toy has_memory
      (header long_ack ++ (be32 (toy.crc32 0 (header long_ack)) ++ replicate 516 0)) 13 long_ack
      pkt_new (replicate 516 0) toy-IsZlib (omega arith) (omega arith) refl refl (omega arith)
      (omega (arith, length-replicate {A = ℕ} 516 0))
