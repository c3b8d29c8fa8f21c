-- ===== src/Record/Write.antt =====
-- What record_write of prerequis/format_struct/record.c appends to the stream.
use lingi1341_projet.Prelude.{
  ℕ, ◌≡◌, refl, sym, ap, ◌∙◌, inl, inr, Bool, true, false, Option, some, List, [], ◌++◌,
  append_assoc, append-nil, arith, length, drop, length-append, length-drop, length_zero, ltb,
  if◌then◌else◌, Bool-cases,
}
use lingi1341_projet.Prelude.Words.{bytes16, bytes32, htons}
use lingi1341_projet.Prelude.Memory.{store, load_all, store_front}
use lingi1341_projet.Packet.Wire.{be16}
use lingi1341_projet.Packet.Encode.{bytes16-htons}
use lingi1341_projet.Record.{Record, record_get_payload, read_payload, smaller}
use lingi1341_projet.Record.Codec.{record_header, fetch_payload, write_fields}

-- What the program relies on of `malloc`, when there is memory: a block of the size that is asked for.
abbrev pub GivesMemory : (ℕ → Option (List ℕ)) → Type 0
GivesMemory malloc = (n : ℕ) → (block : List ℕ) × (malloc n ≡ some block) × (length block ≡ n)

-- The bytes of a record with the payload `body` on the stream.
abbrev pub footer_bytes : Record → List ℕ
footer_bytes r = if ltb 0 r.f then bytes32 r.footer else []

abbrev pub image : Record → List ℕ → List ℕ
image r body = bytes16 (record_header r) ++ (be16 r.length ++ (body ++ footer_bytes r))

smaller_self : (n : ℕ) → smaller n n ≡ n
smaller_self n = elim (Bool-cases (ltb n n)) [ inl b ↦ rw b refl | inr b ↦ rw b refl ]

pub store_over :
    (block bytes : List ℕ) → length block ≡ length bytes → store block 0 bytes ≡ some bytes
store_over block bytes h =
    store_front block bytes (omega arith)
    ∙ ap (λ (t : List ℕ). some (bytes ++ t))
        (length_zero (drop (length bytes) block) (omega (arith, length-drop (length bytes) block)))
    ∙ ap some (append-nil bytes)

module _ (malloc : ℕ → Option (List ℕ)) (r : Record) (body : List ℕ) where
  pub empty_body : length body ≡ r.length → ltb 0 r.length ≡ false → body ≡ []
  empty_body h e = length_zero body (ground arith)

  get_payload-body :
      (block : List ℕ)
      → r.payload ≡ some body
      → length body ≡ r.length
      → length block ≡ r.length
      → record_get_payload r (some block) r.length ≡ some (smaller r.length r.length, some body)
  unfolding record_get_payload read_payload
  get_payload-body block p h l = rw (read, store_over block body (l ∙ sym h)) refl
    where
      read : read_payload r.payload (smaller r.length r.length) ≡ some body
      read =
          ap (read_payload r.payload) (smaller_self r.length)
          ∙ ap (λ (o : Option (List ℕ)). read_payload o r.length) p
          ∙ load_all body r.length (sym h)

  pub fetch_payload-body :
      GivesMemory malloc
      → r.payload ≡ some body
      → length body ≡ r.length
      → fetch_payload malloc r ≡ some (some body)
  unfolding fetch_payload
  fetch_payload-body m p h = elim (Bool-cases (ltb 0 r.length)) [
    | inr empty ↦ rw empty (ap (λ (t : List ℕ). some (some t)) (sym (empty_body h empty)))
    | inl some_bytes ↦
        let (block, e, l) = m r.length in rw (some_bytes, e, get_payload-body block p h l) refl
  ]

  abbrev front : List ℕ → List ℕ
  front stream = (stream ++ bytes16 (record_header r)) ++ bytes16 (htons r.length)

  joined :
      (stream c d : List ℕ)
      → (front stream ++ c) ++ d
        ≡ stream ++ (bytes16 (record_header r) ++ (be16 r.length ++ (c ++ d)))
  joined stream c d =
      append_assoc (front stream) c d
      ∙ append_assoc (stream ++ bytes16 (record_header r)) (bytes16 (htons r.length)) (c ++ d)
      ∙ append_assoc stream (bytes16 (record_header r)) (bytes16 (htons r.length) ++ (c ++ d))
      ∙ ap (λ (t : List ℕ). stream ++ (bytes16 (record_header r) ++ (t ++ (c ++ d))))
          (bytes16-htons r.length)

  -- The stream after the four writes.
  pub write_fields-stream :
      (writes : ℕ → Bool) (stream : List ℕ)
      → ((k : ℕ) → writes k ≡ true)
      → length body ≡ r.length
      → (write_fields writes r body stream).1 ≡ stream ++ image r body
  unfolding write_fields
  write_fields-stream writes stream w h = elim (Bool-cases (ltb 0 r.length)) [
    | inl some_bytes ↦ elim (Bool-cases (ltb 0 r.f)) [
      | inl footer ↦
          rw (w 0, w 1, w 2, w 3, some_bytes, footer) (joined stream body (bytes32 r.footer))
      | inr no_footer ↦
          rw (w 0, w 1, w 2, some_bytes, no_footer)
            (sym (append-nil (front stream ++ body)) ∙ joined stream body [])
    ]
    | inr empty ↦ elim (Bool-cases (ltb 0 r.f)) [
      | inl footer ↦
          rw (w 0, w 1, w 3, empty, footer, empty_body h empty)
            (ap (λ (t : List ℕ). t ++ bytes32 r.footer) (sym (append-nil (front stream)))
              ∙ joined stream [] (bytes32 r.footer))
      | inr no_footer ↦
          rw (w 0, w 1, empty, no_footer, empty_body h empty)
            (sym (append-nil (front stream))
              ∙ sym (append-nil (front stream ++ []))
              ∙ joined stream [] [])
    ]
  ]

  pub write_fields-count :
      (writes : ℕ → Bool) (stream : List ℕ)
      → ((k : ℕ) → writes k ≡ true)
      → length body ≡ r.length
      → (write_fields writes r body stream).0 ≡ length (image r body)
  unfolding write_fields
  write_fields-count writes stream w h = elim (Bool-cases (ltb 0 r.length)) [
    | inl some_bytes ↦ elim (Bool-cases (ltb 0 r.f)) [
      | inl footer ↦
          rw (w 0, w 1, w 2, w 3, some_bytes, footer)
            (omega (arith, length-append body (bytes32 r.footer)))
      | inr no_footer ↦
          rw (w 0, w 1, w 2, some_bytes, no_footer) (omega (arith, length-append body []))
    ]
    | inr empty ↦
        let none_announced : r.length ≡ 0 = ground arith in
        elim (Bool-cases (ltb 0 r.f)) [
          | inl footer ↦ rw (w 0, w 1, w 3, empty, footer, empty_body h empty) (omega arith)
          | inr no_footer ↦ rw (w 0, w 1, empty, no_footer, empty_body h empty) (omega arith)
        ]
  ]
