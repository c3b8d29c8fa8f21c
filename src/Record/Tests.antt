-- ===== src/Record/Tests.antt =====
-- A record with a payload and a footer.
use lingi1341_projet.Prelude.{
  ℕ, ◌≡◌, refl, inl, true, Option, none, some, List, [], ◌∷◌, ◌++◌, arith, replicate,
  length-replicate,
}
use lingi1341_projet.Prelude.Ints.{pos}
use lingi1341_projet.Record.{Record, IsRecord}
use lingi1341_projet.Record.Codec.{record_write, record_read}
use lingi1341_projet.Record.Write.{GivesMemory, image}
use lingi1341_projet.Record.RoundTrip.{read_over, read-write}
use lingi1341_projet.Record.Database.{database_main}
use lingi1341_projet.Record.Copy.{images, database_main-images}
use lingi1341_projet.Samples.{text}

abbrev zeroed : ℕ → Option (List ℕ)
zeroed n = some (replicate n 0)

zeroed-GivesMemory : GivesMemory zeroed
zeroed-GivesMemory n = (replicate n 0, refl, length-replicate {A = ℕ} n 0)

abbrev sample : Record
sample = record { type = 5; f = 1; length = 3; payload = some text; footer = 77 }

abbrev blank : Record
blank = record { type = 0; f = 0; length = 0; payload = none; footer = 0 }

sample-IsRecord : IsRecord sample
sample-IsRecord = omega arith

blank-IsRecord : IsRecord blank
blank-IsRecord = omega arith

read-write_example :
    (record_write zeroed (λ k. true) sample (1 ∷ []) ≡ some (pos 11, 1 ∷ image sample text))
    × (record_read zeroed blank (image sample text ++ (9 ∷ []))
        ≡ some (pos 11, read_over sample text blank, 9 ∷ []))
read-write_example =
    read-write zeroed sample text (λ k. true) (1 ∷ []) (9 ∷ []) blank zeroed-GivesMemory (λ k. refl)
      sample-IsRecord (inl refl) refl

-- A record without a payload or a footer behind one that has both.
abbrev two_records : List (Record × List ℕ)
two_records = (sample, text) ∷ (blank, []) ∷ []

database_main-images_example :
    database_main zeroed (λ i j. true) 3 sample (some (images two_records)) true
    ≡ some (0, some (images two_records))
database_main-images_example =
    database_main-images zeroed (λ i j. true) two_records 3 sample zeroed-GivesMemory (λ i j. refl)
      ((sample-IsRecord, refl), ((blank-IsRecord, refl), tt)) (omega arith)
