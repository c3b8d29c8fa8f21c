-- ===== src/Record/RoundTrip.antt =====
-- A record of prerequis/format_struct/record.c that is written to a stream and read from there.
use lingi1341_projet.Prelude.{
  ℕ, ◌+◌, ◌*◌, ◌/◌, ◌%◌, ◌≡◌, refl, sym, ap, ap₂, ◌∙◌, ◌⊎◌, inl, inr, Bool, true, false, Option,
  some, List, [], ◌∷◌, ◌++◌, append_assoc, arith, length, length-append, take-append, drop-append,
  ltb, leb, if◌then◌else◌, ltb→lt, Bool-cases,
}
use lingi1341_projet.Prelude.Ints.{ℤ, pos}
use lingi1341_projet.Prelude.Words.{bytes16, bytes32, word16, word32, htons}
use lingi1341_projet.Prelude.Memory.{load_all}
use lingi1341_projet.Packet.Wire.{be16}
use lingi1341_projet.Record.{Record, IsRecord, record_set_payload, reset_fields}
use lingi1341_projet.Record.Codec.{
  fread, record_header, fetch_payload, record_write, read_footer, read_body, record_read,
}
use lingi1341_projet.Record.Write.{
  GivesMemory, footer_bytes, image, store_over, empty_body, fetch_payload-body, write_fields-count,
  write_fields-stream,
}

fread-append :
    (object bytes rest : List ℕ)
    → length bytes ≡ length object
    → fread object (bytes ++ rest) ≡ (1, bytes, rest)
unfolding fread
fread-append object bytes rest h =
    rw
      (
        enough,
        take-append bytes rest (length object) (sym h),
        drop-append bytes rest (length object) (sym h),
      )
      refl
  where
    enough : leb (length object) (length (bytes ++ rest)) ≡ true
    enough = ground (arith, length-append bytes rest)

-- The record that is read over `q`: without a payload or a footer on the stream, it keeps those of `q`.
abbrev pub read_over : Record → List ℕ → Record → Record
read_over r body q = record r {
  payload = if ltb 0 r.length then some body else q.payload;
  footer = if ltb 0 r.f then r.footer else q.footer;
}

module _ (malloc : ℕ → Option (List ℕ)) (r : Record) (body : List ℕ) where
  footer_word :
      IsRecord r
      → word32
            (r.footer % 256)
            (r.footer / 256 % 256)
            (r.footer / 65536 % 256)
            (r.footer / 16777216 % 256)
          % 4294967296
        ≡ r.footer
  footer_word v = omega (arith, v.footer_bits)

  read_footer-bytes :
      (n : ℕ) (q : Record) (rest : List ℕ)
      → IsRecord r
      → q.f ≡ 0
      → read_footer n r.f q (footer_bytes r ++ rest) ≡ (
        pos (n + length (footer_bytes r)),
        record q { f = r.f; footer = if ltb 0 r.f then r.footer else q.footer },
        rest,
      )
  unfolding read_footer
  read_footer-bytes n q rest v q0 = elim (Bool-cases (ltb 0 r.f)) [
    | inl footer ↦
        rw (footer, fread-append (0 ∷ 0 ∷ 0 ∷ 0 ∷ []) (bytes32 r.footer) rest refl, footer_word v)
          (ap (λ (m : ℕ). (pos (n + 4), record q { f = m; footer = r.footer }, rest)) (one footer))
    | inr no_footer ↦ rw no_footer (
        ap₂ (λ (k m : ℕ). (pos k, record q { f = m }, rest)) (omega arith)
          (q0 ∙ sym (zero_flag no_footer)))
  ]
    where
      one : ltb 0 r.f ≡ true → 1 ≡ r.f
      one e = omega (arith, v.f_bit, ltb→lt 0 r.f e)

      zero_flag : ltb 0 r.f ≡ false → r.f ≡ 0
      zero_flag e = ground arith

  -- The record after the two fields at the front were read.
  abbrev after_front : Record → Record
  after_front q = record (reset_fields q) { type = r.type; length = r.length }

  set_payload-body :
      (q : Record)
      → GivesMemory malloc
      → IsRecord r
      → length body ≡ r.length
      → record_set_payload malloc q body r.length
        ≡ some (0, record q { payload = some body; length = r.length })
  unfolding record_set_payload
  set_payload-body q m v h =
      let (block, e, l) = m r.length in
      rw (e, record_set_payload, load_all body r.length (sym h), store_over block body (l ∙ sym h))
        (ap (λ (n : ℕ). some (0, record q { payload = some body; length = n }))
          (omega (arith, v.length_bits)))

  length-image :
      length body ≡ r.length → length (image r body) ≡ 4 + r.length + length (footer_bytes r)
  length-image h = omega (arith, length-append body (footer_bytes r))

  read_body-some :
      (q : Record) (rest : List ℕ)
      → GivesMemory malloc
      → IsRecord r
      → length body ≡ r.length
      → ltb 0 r.length ≡ true
      → read_body malloc 4 r.f (after_front q) (body ++ rest)
        ≡ some (
            read_footer
              (4 + r.length * 1)
              r.f
              (record (after_front q) { payload = some body })
              rest)
  unfolding read_body
  read_body-some q rest m v h some_bytes =
      let (block, e, l) = m r.length in
      rw
        (
          some_bytes,
          e,
          fread-append block body rest (h ∙ sym l),
          set_payload-body (after_front q) m v h,
        )
        refl

  read_body-none :
      (q : Record) (rest : List ℕ)
      → ltb 0 r.length ≡ false
      → read_body malloc 4 r.f (after_front q) rest ≡ some (read_footer 4 r.f (after_front q) rest)
  unfolding read_body
  read_body-none q rest empty = rw empty refl

  read_body-image :
      (q : Record) (rest : List ℕ)
      → GivesMemory malloc
      → IsRecord r
      → length body ≡ r.length
      → read_body malloc 4 r.f (after_front q) (body ++ (footer_bytes r ++ rest))
        ≡ some (pos (length (image r body)), read_over r body q, rest)
  read_body-image q rest m v h = elim (Bool-cases (ltb 0 r.length)) [
    | inl some_bytes ↦
        read_body-some q (footer_bytes r ++ rest) m v h some_bytes
        ∙ ap some (
            read_footer-bytes (4 + r.length * 1) (record (after_front q) { payload = some body })
              rest v refl)
        ∙ ap₂
            (λ (n : ℕ) (o : Option (List ℕ)).
              some (pos n, record (read_over r body q) { payload = o }, rest))
            (omega (arith, length-image h)) (rw some_bytes refl)
    | inr empty ↦
        ap (λ (b : List ℕ). read_body malloc 4 r.f (after_front q) (b ++ (footer_bytes r ++ rest)))
          (empty_body malloc r body h empty)
        ∙ read_body-none q (footer_bytes r ++ rest) empty
        ∙ ap some (read_footer-bytes 4 (after_front q) rest v refl)
        ∙ ap₂
            (λ (n : ℕ) (o : Option (List ℕ)).
              some (pos n, record (read_over r body q) { payload = o }, rest))
            (omega (arith, length-image h, nothing_announced empty)) (rw empty refl)
  ]
    where
      nothing_announced : ltb 0 r.length ≡ false → r.length ≡ 0
      nothing_announced e = ground arith

  abbrev front_read : Record → ℕ → ℕ → ℕ → List ℕ → Option (ℤ × Record × List ℕ)
  front_read q bit type length rest =
      read_body malloc 4 bit (record (reset_fields q) { type = type; length = length }) rest

  record_read-front :
      (q : Record) (rest : List ℕ)
      → IsRecord r
      → record_read malloc q (bytes16 (record_header r) ++ (be16 r.length ++ rest))
        ≡ front_read q r.f r.type r.length rest
  unfolding record_read
  record_read-front q rest v =
      rw
        (
          fread-append (0 ∷ 0 ∷ []) (bytes16 (record_header r)) (be16 r.length ++ rest) refl,
          fread-append (0 ∷ 0 ∷ []) (be16 r.length) rest refl,
        )
        (ap₂ (λ (t l : ℕ). front_read q (header_word / 32768) t l rest) type_bits length_bytes
          ∙ ap (λ (b : ℕ). front_read q b r.type r.length rest) flag_bit)
    where
      header_word : ℕ
      header_word = word16 (record_header r % 256) (record_header r / 256 % 256)

      type_bits : header_word % 32768 ≡ r.type
      type_bits = omega (arith, v.type_bits, v.f_bit)

      flag_bit : header_word / 32768 ≡ r.f
      flag_bit = omega (arith, v.type_bits, v.f_bit)

      length_bytes : htons (word16 (r.length / 256 % 256) (r.length % 256)) ≡ r.length
      length_bytes = omega (arith, v.length_bits)

  -- The image of a record is read, over any record, as that record.
  pub record_read-image :
      (rest : List ℕ) (q : Record)
      → GivesMemory malloc
      → IsRecord r
      → length body ≡ r.length
      → record_read malloc q (image r body ++ rest)
        ≡ some (pos (length (image r body)), read_over r body q, rest)
  record_read-image rest q m v h =
      record_read-front q ((body ++ footer_bytes r) ++ rest) v
      ∙ ap (front_read q r.f r.type r.length) (append_assoc body (footer_bytes r) rest)
      ∙ read_body-image q rest m v h

  fetch_payload-image :
      GivesMemory malloc
      → (r.payload ≡ some body) ⊎ (r.length ≡ 0)
      → length body ≡ r.length
      → fetch_payload malloc r ≡ some (some body)
  unfolding fetch_payload
  fetch_payload-image m (inl p) h = fetch_payload-body malloc r body m p h
  fetch_payload-image m (inr n) h =
      let none_read : ltb 0 r.length ≡ false = ground arith in
      rw none_read (ap (λ (t : List ℕ). some (some t)) (sym (empty_body malloc r body h none_read)))

  -- With memory, and if all writes succeed, what `record_write` appends to the stream is the image of
  -- the record, which has a payload of its length or the length 0, and is read by `record_read`, over any record, as that record, and both return the
  -- number of bytes of the image. Where the length is 0, or there is no footer, the record that is
  -- read over keeps its payload, or its footer.
  pub read-write :
      (writes : ℕ → Bool) (stream rest : List ℕ) (q : Record)
      → GivesMemory malloc
      → ((k : ℕ) → writes k ≡ true)
      → IsRecord r
      → (r.payload ≡ some body) ⊎ (r.length ≡ 0)
      → length body ≡ r.length
      → (record_write malloc writes r stream
          ≡ some (pos (length (image r body)), stream ++ image r body))
        × (record_read malloc q (image r body ++ rest)
            ≡ some (pos (length (image r body)), read_over r body q, rest))
  unfolding record_write
  read-write writes stream rest q m w v p h = (
    rw (fetch_payload-image m p h, record_write)
        (ap₂ (λ (n : ℕ) (t : List ℕ). some (pos n, t))
          (write_fields-count malloc r body writes stream w h)
          (write_fields-stream malloc r body writes stream w h)),
    record_read-image rest q m v h,
  )
