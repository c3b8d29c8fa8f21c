-- ===== src/Record/Codec.antt =====
-- record_write and record_read of prerequis/format_struct/record.c.
use lingi1341_projet.Prelude.{
  ℕ, ◌+◌, ◌*◌, ◌/◌, Bool, true, false, Option, none, some, List, [], ◌∷◌, ◌++◌, ◌>>=◌, length,
  get_or, take, drop, ltb, leb, if◌then◌else◌,
}
use lingi1341_projet.Prelude.Ints.{ℤ, pos, negsuc}
use lingi1341_projet.Prelude.Words.{bytes16, bytes32, word16, word32, htons}
use lingi1341_projet.Record.{
  Record, record_get_type, record_set_type, record_get_length, record_has_footer, record_get_uuid,
  record_set_uuid, record_set_payload, record_get_payload, reset_fields,
}

-- `fwrite(p, n, 1, f)`: the number of items, and the stream afterwards.
abbrev pub fwrite : Bool → List ℕ → List ℕ → ℕ × List ℕ
fwrite true bytes stream = (1, stream ++ bytes)
fwrite false bytes stream = (0, stream)

-- `fread(p, n, 1, f)` with the object at `p`: the number of items, the object, and what is left.
unfoldable pub fread : List ℕ → List ℕ → ℕ × List ℕ × List ℕ
fread object stream =
    if leb (length object) (length stream)
    then (1, take (length object) stream, drop (length object) stream)
    else (0, stream ++ drop (length stream) object, [])

-- The header: the bit of the footer above the 15 bits of the type.
abbrev pub record_header : Record → ℕ
record_header r = record_has_footer r * 32768 + record_get_type r

-- The payload in a block of its own; `some none` where `malloc` fails.
unfoldable pub fetch_payload : (ℕ → Option (List ℕ)) → Record → Option (Option (List ℕ))
fetch_payload malloc r =
    if ltb 0 (record_get_length r)
    then elim (malloc (record_get_length r)) [
      | none ↦ some none
      | some buf ↦ do (_, buf1) ← record_get_payload r (some buf) (record_get_length r); some buf1
    ]
    else some (some [])

-- The four writes. `writes k` says whether the `k`-th succeeds.
unfoldable pub write_fields : (ℕ → Bool) → Record → List ℕ → List ℕ → ℕ × List ℕ
write_fields writes r buf stream =
    let (n0, s0) = fwrite (writes 0) (bytes16 (record_header r)) stream in
    let (n1, s1) = fwrite (writes 1) (bytes16 (htons (record_get_length r))) s0 in
    let (n2, s2) = if ltb 0 (record_get_length r) then fwrite (writes 2) buf s1 else (0, s1) in
    let (n3, s3) =
      if ltb 0 (record_has_footer r)
      then fwrite (writes 3) (bytes32 (record_get_uuid r)) s2
      else (0, s2) in
    (2 * n0 + 2 * n1 + record_get_length r * n2 + 4 * n3, s3)

unfoldable pub record_write :
    (ℕ → Option (List ℕ)) → (ℕ → Bool) → Record → List ℕ → Option (ℤ × List ℕ)
record_write malloc writes r stream = elim (fetch_payload malloc r) [
  | none ↦ none
  | some none ↦ some (negsuc 0, stream)
  | some (some buf) ↦ let (n, s) = write_fields writes r buf stream in some (pos n, s)
]

-- The number of bytes counted, the record, and what is left of the stream.
unfoldable pub read_footer : ℕ → ℕ → Record → List ℕ → ℤ × Record × List ℕ
read_footer read bit r stream =
    if ltb 0 bit
    then (let (n, uuid, rest) = fread (0 ∷ 0 ∷ 0 ∷ 0 ∷ []) stream in
        (
          pos (read + 4 * n),
          record_set_uuid r
              (word32 (get_or uuid 0 0) (get_or uuid 1 0) (get_or uuid 2 0) (get_or uuid 3 0)),
          rest,
        ))
    else (pos read, r, stream)

-- A payload of the length in the header. `record_set_payload` may fail unnoticed.
unfoldable pub read_body :
    (ℕ → Option (List ℕ)) → ℕ → ℕ → Record → List ℕ → Option (ℤ × Record × List ℕ)
read_body malloc read bit r stream =
    if ltb 0 r.length
    then elim (malloc r.length) [
      | none ↦ some (negsuc 0, r, stream)
      | some buf ↦ do
        let (n, buf1, rest) = fread buf stream
        (_, r1) ← record_set_payload malloc r buf1 r.length
        some (read_footer (read + r.length * n) bit r1 rest)
    ]
    else some (read_footer read bit r stream)

unfoldable pub record_read : (ℕ → Option (List ℕ)) → Record → List ℕ → Option (ℤ × Record × List ℕ)
record_read malloc r stream =
    let (n0, h, s0) = fread (0 ∷ 0 ∷ []) stream in
    let (n1, l, s1) = fread (0 ∷ 0 ∷ []) s0 in
    let header = word16 (get_or h 0 0) (get_or h 1 0) in
    let length = htons (word16 (get_or l 0 0) (get_or l 1 0)) in
    let r1 = record_set_type (reset_fields r) header in
    read_body malloc (2 * n0 + 2 * n1) (header / 32768) (record r1 { length = length }) s1
