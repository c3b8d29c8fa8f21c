-- ===== src/Packet/Wire.antt =====
-- The wire format of the protocol, as an independent description of what is on the network: numbers
-- in network byte order but for the timestamp, which only its sender reads.
use lingi1341_projet.Prelude.{
  ℕ, ◌+◌, ◌*◌, ◌/◌, ◌%◌, ◌≡◌, Option, none, some, List, [], ◌∷◌, ◌++◌, length,
}
use lingi1341_projet.Prelude.Words.{bytes32}
use lingi1341_projet.Platform.{Zlib}
use lingi1341_projet.Packet.{Pkt, IsPacked}

-- A number in network byte order, most significant byte first.
abbrev pub be16 : ℕ → List ℕ
be16 x = x / 256 % 256 ∷ x % 256 ∷ []

abbrev pub be32 : ℕ → List ℕ
be32 x = x / 16777216 % 256 ∷ x / 65536 % 256 ∷ x / 256 % 256 ∷ x % 256 ∷ []

-- The eight bytes that crc1 covers.
abbrev pub header : Pkt → List ℕ
header p = (p.window + 32 * p.tr + 64 * p.type) ∷ p.seqnum ∷ (be16 p.length ++ bytes32 p.timestamp)

module _ (z : Zlib) where
  open z use {crc32}

  abbrev pub trailer : Option (List ℕ) → List ℕ
  trailer none = []
  trailer (some body) = body ++ be32 (crc32 0 body)

  abbrev pub wire : Pkt → List ℕ
  wire p = header p ++ (be32 (crc32 0 (header p)) ++ trailer p.payload)

-- The block of the payload, if there is one, holds as many bytes as the length field says.
abbrev pub Fits : ℕ → Option (List ℕ) → Type 0
Fits n none = Unit {0}
Fits n (some body) = length body ≡ n

-- A packet that can be sent: its fields fit their widths and its payload fits its length.
pub record IsSendable (p : Pkt) : Type 0 where
  pub packed : IsPacked p
  pub fits : Fits p.length p.payload
