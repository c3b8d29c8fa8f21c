-- ===== src/Samples.antt =====
-- Concrete values for the tests: a checksum that meets what is assumed of zlib, and packets.
use lingi1341_projet.Prelude.{ℕ, ◌+◌, ◌*◌, ◌%◌, refl, none, some, List, [], ◌∷◌, arith}
use lingi1341_projet.Platform.{Zlib, IsZlib}
use lingi1341_projet.Packet.{Pkt, pkt_new}
use lingi1341_projet.Packet.Wire.{IsSendable}
use lingi1341_projet.Packet.Decode.{IsAcceptable}

abbrev roll : ℕ → List ℕ → ℕ
roll c [] = c
roll c (b ∷ bs) = roll ((31 * c + b + 7) % 4294967296) bs

abbrev pub toy : Zlib
toy = record { crc32 = roll; crc32_null = 0 }

pub toy-IsZlib : IsZlib toy
toy-IsZlib = record { null_zero = refl; empty_same = λ c. refl }

abbrev pub text : List ℕ
text = 104 ∷ 105 ∷ 33 ∷ []

-- A data packet of three bytes with the number `n`.
abbrev pub data_packet : ℕ → Pkt
data_packet n = record pkt_new {
  window = 31;
  type = 1;
  seqnum = n;
  length = 3;
  timestamp = 12;
  payload = some text;
}

-- Its header alone.
abbrev pub header_packet : ℕ → Pkt
header_packet n = record (data_packet n) { payload = none }

-- An acknowledgement that announces 1000 bytes.
abbrev pub long_ack : Pkt
long_ack = record pkt_new { type = 2; length = 1000 }

pub data_packet-IsSendable : IsSendable (data_packet 0)
data_packet-IsSendable = omega arith

pub data_packet-IsAcceptable : IsAcceptable (data_packet 0)
data_packet-IsAcceptable = omega arith
