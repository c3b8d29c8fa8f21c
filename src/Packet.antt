-- ===== src/Packet.antt =====
-- struct pkt and its accessors: projet1_Calmant_Outters/src/packet_interface.h and
-- packet_interface.c. The struct is packed, so its first 12 bytes are the header.
pub mod Codec
pub mod Wire
pub mod Encode
pub mod Decode
pub mod RoundTrip
pub mod Bounds
pub mod Sound
pub mod Bytes
pub mod Canonical
pub mod Slots
mod Tests
use lingi1341_projet.Prelude.{
  ℕ, ◌+◌, ◌*◌, ◌/◌, ◌%◌, ◌≡◌, ◌<◌, Option, none, some, List, [], ◌∷◌, Bool, get_or, take,
  if◌then◌else◌, ◌>>=◌,
}
use lingi1341_projet.Prelude.Words.{IsU8, IsU16, IsU32, word16, word32}
use lingi1341_projet.Prelude.Memory.{load}

-- `pkt_status_code`
pub data Status : Type 0 where
  pkt_ok e_type e_tr e_length e_crc e_window e_seqnum e_nomem e_noheader e_unconsistent : Status

-- `ptypes_t` is stored in a field of two bits, which may also hold 0.
abbrev pub ptype_data : ℕ
ptype_data = 1

abbrev pub ptype_ack : ℕ
ptype_ack = 2

abbrev pub ptype_nack : ℕ
ptype_nack = 3

abbrev pub max_payload_size : ℕ
max_payload_size = 512

abbrev pub window_size : ℕ
window_size = 31

-- `struct pkt`. The payload is `none` for a null pointer, else the allocated block.
pub record Pkt : Type 0 where
  pub window : ℕ
  pub tr : ℕ
  pub type : ℕ
  pub seqnum : ℕ
  pub length : ℕ
  pub timestamp : ℕ
  pub crc1 : ℕ
  pub payload : Option (List ℕ)
  pub crc2 : ℕ

-- Each field fits its width in the struct.
pub record IsPacked (p : Pkt) : Type 0 where
  pub window_bits : p.window < 32
  pub tr_bit : p.tr < 2
  pub type_bits : p.type < 4
  pub seqnum_byte : IsU8 p.seqnum
  pub length_word : IsU16 p.length
  pub timestamp_word : IsU32 p.timestamp
  pub crc1_word : IsU32 p.crc1
  pub crc2_word : IsU32 p.crc2

-- The zeroed struct of `calloc`.
abbrev pub pkt_new : Pkt
pkt_new = record {
  window = 0;
  tr = 0;
  type = 0;
  seqnum = 0;
  length = 0;
  timestamp = 0;
  crc1 = 0;
  payload = none;
  crc2 = 0;
}

abbrev pub pkt_get_type : Pkt → ℕ
pkt_get_type p = p.type

abbrev pub pkt_get_tr : Pkt → ℕ
pkt_get_tr p = p.tr

abbrev pub pkt_get_window : Pkt → ℕ
pkt_get_window p = p.window

abbrev pub pkt_get_seqnum : Pkt → ℕ
pkt_get_seqnum p = p.seqnum

abbrev pub pkt_get_length : Pkt → ℕ
pkt_get_length p = p.length

abbrev pub pkt_get_timestamp : Pkt → ℕ
pkt_get_timestamp p = p.timestamp

abbrev pub pkt_get_crc1 : Pkt → ℕ
pkt_get_crc1 p = p.crc1

abbrev pub pkt_get_payload : Pkt → Option (List ℕ)
pkt_get_payload p = p.payload

abbrev pub pkt_get_crc2 : Pkt → ℕ
pkt_get_crc2 p = p.crc2

-- A setter returns its status and the struct; the assignment cuts the value to the field's width.
abbrev pub pkt_set_type : Pkt → ℕ → Status × Pkt
pkt_set_type p type = (pkt_ok, record p { type = type % 4 })

abbrev pub pkt_set_tr : Pkt → ℕ → Status × Pkt
pkt_set_tr p tr = (pkt_ok, record p { tr = tr % 2 })

abbrev pub pkt_set_window : Pkt → ℕ → Status × Pkt
pkt_set_window p win = (pkt_ok, record p { window = win % 32 })

abbrev pub pkt_set_seqnum : Pkt → ℕ → Status × Pkt
pkt_set_seqnum p seqnum = (pkt_ok, record p { seqnum = seqnum % 256 })

abbrev pub pkt_set_length : Pkt → ℕ → Status × Pkt
pkt_set_length p length = (pkt_ok, record p { length = length % 65536 })

abbrev pub pkt_set_timestamp : Pkt → ℕ → Status × Pkt
pkt_set_timestamp p timestamp = (pkt_ok, record p { timestamp = timestamp % 4294967296 })

abbrev pub pkt_set_crc1 : Pkt → ℕ → Status × Pkt
pkt_set_crc1 p crc1 = (pkt_ok, record p { crc1 = crc1 % 4294967296 })

abbrev pub pkt_set_crc2 : Pkt → ℕ → Status × Pkt
pkt_set_crc2 p crc2 = (pkt_ok, record p { crc2 = crc2 % 4294967296 })

-- `enough` says whether `calloc` gives the block; `source` is the object that `data` points to, and
-- `none` a read outside it. The old payload is not freed.
unfoldable pub pkt_set_payload : Bool → Pkt → List ℕ → ℕ → Option (Status × Pkt)
pkt_set_payload enough p source length =
    if enough
    then (do
      block ← load source 0 (length % 65536)
      some (pkt_ok, (pkt_set_length (record p { payload = some block }) length).1))
    else some (e_nomem, record p { payload = none })
