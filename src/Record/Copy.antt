-- ===== src/Record/Copy.antt =====
-- What the program of prerequis/format_struct/database.c copies.
use lingi1341_projet.Prelude.{
  ℕ, zero, suc, ◌+◌, ◌<◌, ◌≡◌, refl, sym, ap, ap₂, ◌∙◌, inl, inr, Bool, true, Option, some, List,
  [], ◌∷◌, ◌++◌, append_assoc, append-nil, arith, length, All, ltb, Bool-cases,
}
use lingi1341_projet.Prelude.Ints.{pos}
use lingi1341_projet.Record.{Record, IsRecord, reset_fields, record_init}
use lingi1341_projet.Record.Codec.{
  fread, fetch_payload, record_write, record_read, read_body, read_footer,
}
use lingi1341_projet.Record.Write.{
  GivesMemory, image, empty_body, fetch_payload-body, write_fields-count, write_fields-stream,
}
use lingi1341_projet.Record.RoundTrip.{read_over, record_read-image}
use lingi1341_projet.Record.Database.{copy_records, database_main}

-- A record with the bytes of its payload.
abbrev pub IsEntry : Record × List ℕ → Type 0
IsEntry (r, body) = IsRecord r × (length body ≡ r.length)

-- A file with records, one behind the other.
abbrev pub images : List (Record × List ℕ) → List ℕ
images [] = []
images ((r, body) ∷ entries) = image r body ++ images entries

module _ (malloc : ℕ → Option (List ℕ)) (r : Record) (body : List ℕ) (q : Record) where
  -- The record that was read over another has the same bytes.
  image-read_over : image (read_over r body q) body ≡ image r body
  image-read_over = elim (Bool-cases (ltb 0 r.f)) [
    | inl footer ↦ rw footer refl
    | inr no_footer ↦ rw no_footer refl
  ]

  fetch_payload-read_over :
      GivesMemory malloc
      → length body ≡ r.length
      → fetch_payload malloc (read_over r body q) ≡ some (some body)
  unfolding fetch_payload
  fetch_payload-read_over m h = elim (Bool-cases (ltb 0 r.length)) [
    | inl some_bytes ↦ fetch_payload-body malloc (read_over r body q) body m (rw some_bytes refl) h
    | inr empty ↦
        rw empty (ap (λ (t : List ℕ). some (some t)) (sym (empty_body malloc r body h empty)))
  ]

  record_write-read_over :
      (writes : ℕ → Bool) (stream : List ℕ)
      → GivesMemory malloc
      → ((k : ℕ) → writes k ≡ true)
      → length body ≡ r.length
      → record_write malloc writes (read_over r body q) stream
        ≡ some (pos (length (image r body)), stream ++ image r body)
  unfolding record_write
  record_write-read_over writes stream m w h =
      rw (fetch_payload-read_over m h, record_write)
        (ap₂ (λ (n : ℕ) (t : List ℕ). some (pos n, t))
            (write_fields-count malloc (read_over r body q) body writes stream w h)
            (write_fields-stream malloc (read_over r body q) body writes stream w h)
          ∙ ap (λ (t : List ℕ). some (pos (length t), stream ++ t)) image-read_over)

module _ (malloc : ℕ → Option (List ℕ)) (writes : ℕ → ℕ → Bool) where
  -- At the end of the file no byte is read.
  record_read-end : (q : Record) → (r : Record) × (record_read malloc q [] ≡ some (pos 0, r, []))
  unfolding record_read read_body read_footer fread
  record_read-end q = (_, refl)

  -- With fuel for one round per record and one more.
  copy_records-images :
      (entries : List (Record × List ℕ)) (fuel k : ℕ) (q : Record) (output : List ℕ)
      → GivesMemory malloc
      → ((i j : ℕ) → writes i j ≡ true)
      → All IsEntry entries
      → length entries < fuel
      → copy_records malloc writes fuel k q (images entries) output
        ≡ some (output ++ images entries)
  unfolding copy_records
  copy_records-images entries zero k q output m w v h = absurd (omega arith)
  copy_records-images [] (suc fuel) k q output m w v h =
      let (r, e) = record_read-end q in rw (e, copy_records) (ap some (sym (append-nil output)))
  copy_records-images ((r, body) ∷ entries) (suc fuel) k q output m w ((fits, long), v) h =
      rw
        (
          record_read-image malloc r body (images entries) q m fits long,
          copy_records,
          record_write-read_over malloc r body q (writes k) output m (w k) long,
        )
        (copy_records-images entries fuel (k + 1) (read_over r body q) (output ++ image r body) m w
            v (omega arith)
          ∙ ap some (append_assoc output (image r body) (images entries)))

  -- With memory, and if all writes succeed, a file of records is copied byte for byte, whatever the local
  -- variable holds at first, and although a record without a payload or a footer is read over the
  -- one before, whose payload and footer stay in the variable.
  pub database_main-images :
      (entries : List (Record × List ℕ)) (fuel : ℕ) (new_record : Record)
      → GivesMemory malloc
      → ((i j : ℕ) → writes i j ≡ true)
      → All IsEntry entries
      → length entries < fuel
      → database_main malloc writes fuel new_record (some (images entries)) true
        ≡ some (0, some (images entries))
  unfolding database_main record_init
  database_main-images entries fuel new_record m w v h =
      rw (copy_records-images entries fuel 0 (reset_fields new_record) [] m w v h) refl
