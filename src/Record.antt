-- ===== src/Record.antt =====
-- Serialised records: prerequis/format_struct/record.h and record.c. The host is little-endian, a
-- stream is the list of its bytes, and `malloc` is a parameter.
pub mod Codec
pub mod Write
pub mod RoundTrip
pub mod Database
pub mod Copy
mod Tests
use lingi1341_projet.Prelude.{
  ℕ, zero, suc, ◌+◌, ◌-◌, ◌*◌, ◌/◌, ◌%◌, ◌^◌, ◌≤◌, ◌<◌, ◌≡◌, refl, sym, ap, ap₂, subst, ◌∙◌, ◌≢◌,
  ◌↔◌, ◌⊎◌, inl, inr, Bool, true, false, ◌&&◌, ◌||◌, not, Option, none, some, List, [], ◌∷◌, ◌++◌,
  map, append_assoc, append-nil, arith, ◌>>=◌, length, get_or, set, take, drop, replicate, All,
  length-append, length-take, length-take_le, length-drop, length-replicate, length-set,
  take-append, drop-append, drop-nil, drop-drop, drop_past, length_zero, take-take, take-all, ltb,
  leb, ◌==◌, if◌then◌else◌, ltb→lt, lt→ltb, leb→le, ==_iff, Bool-cases, Option-cases,
}
use lingi1341_projet.Prelude.Memory.{load, store}

-- `struct record`. The payload is `none` for a null pointer, else the allocated block.
pub record Record : Type 0 where
  pub type : ℕ
  pub f : ℕ
  pub length : ℕ
  pub payload : Option (List ℕ)
  pub footer : ℕ

-- Each field fits its width, and a payload that is announced is there.
pub record IsRecord (r : Record) : Type 0 where
  pub type_bits : r.type < 32768
  pub f_bit : r.f < 2
  pub length_bits : r.length < 65536
  pub footer_bits : r.footer < 4294967296

abbrev pub record_get_type : Record → ℕ
record_get_type r = r.type

abbrev pub record_set_type : Record → ℕ → Record
record_set_type r type = record r { type = type % 32768 }

abbrev pub record_get_length : Record → ℕ
record_get_length r = r.length

abbrev pub record_has_footer : Record → ℕ
record_has_footer r = r.f

abbrev pub record_delete_footer : Record → Record
record_delete_footer r = record r { footer = 0; f = 0 }

abbrev pub record_set_uuid : Record → ℕ → Record
record_set_uuid r uuid = record r { f = 1; footer = uuid % 4294967296 }

abbrev pub record_get_uuid : Record → ℕ
record_get_uuid r = r.footer

-- The fields that `record_init` resets. The payload and the footer keep what they were.
abbrev pub reset_fields : Record → Record
reset_fields r = record r { type = 0; length = 0; f = 0 }

-- The value that is returned, and the record afterwards; `none` for a null pointer.
unfoldable pub record_init : Option Record → ℕ × Option Record
record_init none = (1, none)
record_init (some r) =
    let r1 = reset_fields r in
    if (record_get_type r1 == 0) && (record_get_length r1 == 0) && (record_has_footer r1 == 0)
    then (0, some r1)
    else (1, some r1)

-- `malloc n` is the block that the call gives. Nothing is freed.
unfoldable pub record_set_payload :
    (ℕ → Option (List ℕ)) → Record → List ℕ → ℕ → Option (ℕ × Record)
record_set_payload malloc r buf n = elim (malloc n) [
  | none ↦ some (1, record r { payload = none })
  | some block ↦ do
    bytes ← load buf 0 n
    block1 ← store block 0 bytes
    some (0, record r { payload = some block1; length = n % 65536 })
]

-- `memcpy` from the payload; no byte is read from a null pointer.
unfoldable pub read_payload : Option (List ℕ) → ℕ → Option (List ℕ)
read_payload none size = if size == 0 then some [] else none
read_payload (some block) size = load block 0 size

abbrev pub smaller : ℕ → ℕ → ℕ
smaller a b = if ltb a b then a else b

-- The number of bytes copied, and the buffer afterwards.
unfoldable pub record_get_payload : Record → Option (List ℕ) → ℕ → Option (ℕ × Option (List ℕ))
record_get_payload r none n = some (0, none)
record_get_payload r (some buf) n = do
  bytes ← read_payload r.payload (smaller (record_get_length r) n)
  buf1 ← store buf 0 bytes
  some (smaller (record_get_length r) n, some buf1)
