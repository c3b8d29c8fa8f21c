-- ===== src/Draft/Packet.antt =====
-- The accessors of struct pkt in the earlier version of the program, src/packet_interface.c. The
-- struct, its constants and its status codes are those of the later version.
pub mod Codec
pub mod Compare
mod Tests
use lingi1341_projet.Prelude.{
  ℕ, zero, suc, ◌+◌, ◌-◌, ◌*◌, ◌/◌, ◌%◌, ◌^◌, ◌≤◌, ◌<◌, ◌≡◌, refl, sym, ap, ap₂, subst, ◌∙◌, ◌≢◌,
  ◌↔◌, ◌⊎◌, inl, inr, Bool, true, false, ◌&&◌, ◌||◌, not, Option, none, some, List, [], ◌∷◌, ◌++◌,
  map, append_assoc, append-nil, arith, ◌>>=◌, length, get_or, set, take, drop, replicate, All,
  length-append, length-take, length-take_le, length-drop, length-replicate, length-set,
  take-append, drop-append, drop-nil, drop-drop, drop_past, length_zero, take-take, take-all, ltb,
  leb, ◌==◌, if◌then◌else◌, ltb→lt, lt→ltb, leb→le, ==_iff, Bool-cases, Option-cases,
}
use lingi1341_projet.Prelude.Memory.{load}
use lingi1341_projet.Packet.{Pkt, Status, pkt_ok, e_length, e_nomem}

-- The zeroed struct of `calloc`.
abbrev pub pkt_new : Pkt
pkt_new = record {
  window = 0;
  tr = 0;
  type = 0;
  seqnum = 0;
  length = 0;
  timestamp = 0;
  crc1 = 0;
  payload = none;
  crc2 = 0;
}

abbrev pub pkt_get_type : Pkt → ℕ
pkt_get_type p = p.type

abbrev pub pkt_get_tr : Pkt → ℕ
pkt_get_tr p = p.tr

abbrev pub pkt_get_window : Pkt → ℕ
pkt_get_window p = p.window

abbrev pub pkt_get_seqnum : Pkt → ℕ
pkt_get_seqnum p = p.seqnum

abbrev pub pkt_get_length : Pkt → ℕ
pkt_get_length p = p.length

abbrev pub pkt_get_timestamp : Pkt → ℕ
pkt_get_timestamp p = p.timestamp

abbrev pub pkt_get_crc1 : Pkt → ℕ
pkt_get_crc1 p = p.crc1

abbrev pub pkt_get_payload : Pkt → Option (List ℕ)
pkt_get_payload p = p.payload

abbrev pub pkt_get_crc2 : Pkt → ℕ
pkt_get_crc2 p = p.crc2

-- A setter returns its status and the struct; the assignment cuts the value to the field's width.
abbrev pub pkt_set_type : Pkt → ℕ → Status × Pkt
pkt_set_type p type = (pkt_ok, record p { type = type % 4 })

abbrev pub pkt_set_tr : Pkt → ℕ → Status × Pkt
pkt_set_tr p tr = (pkt_ok, record p { tr = tr % 2 })

abbrev pub pkt_set_window : Pkt → ℕ → Status × Pkt
pkt_set_window p win = (pkt_ok, record p { window = win % 32 })

abbrev pub pkt_set_seqnum : Pkt → ℕ → Status × Pkt
pkt_set_seqnum p seqnum = (pkt_ok, record p { seqnum = seqnum % 256 })

abbrev pub pkt_set_length : Pkt → ℕ → Status × Pkt
pkt_set_length p length = (pkt_ok, record p { length = length % 65536 })

abbrev pub pkt_set_timestamp : Pkt → ℕ → Status × Pkt
pkt_set_timestamp p timestamp = (pkt_ok, record p { timestamp = timestamp % 4294967296 })

abbrev pub pkt_set_crc1 : Pkt → ℕ → Status × Pkt
pkt_set_crc1 p crc1 = (pkt_ok, record p { crc1 = crc1 % 4294967296 })

abbrev pub pkt_set_crc2 : Pkt → ℕ → Status × Pkt
pkt_set_crc2 p crc2 = (pkt_ok, record p { crc2 = crc2 % 4294967296 })

-- `enough` says whether `calloc` gives the block; `source` is the object that `data` points to, and
-- `none` a read outside it. A length of 0 is refused before anything is changed.
unfoldable pub pkt_set_payload : Bool → Pkt → List ℕ → ℕ → Option (Status × Pkt)
pkt_set_payload enough p source length =
    if leb (length % 65536) 0
    then some (e_length, p)
    else if enough
    then (do
      block ← load source 0 (length % 65536)
      some (pkt_ok, (pkt_set_length (record p { payload = some block }) length).1))
    else some (e_nomem, record p { payload = none })
