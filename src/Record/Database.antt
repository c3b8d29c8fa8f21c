-- ===== src/Record/Database.antt =====
-- main of prerequis/format_struct/database.c: it copies the records of one file to another.
use lingi1341_projet.Prelude.{
  ℕ, zero, suc, ◌+◌, Bool, true, false, not, Option, none, some, List, [], ◌>>=◌, ◌==◌,
  if◌then◌else◌,
}
use lingi1341_projet.Programs.{is_zero}
use lingi1341_projet.Record.{Record, record_init}
use lingi1341_projet.Record.Codec.{record_read, record_write}

module _ (malloc : ℕ → Option (List ℕ)) (writes : ℕ → ℕ → Bool) where
  -- `while (record_read(&new_record, read) != 0) record_write(&new_record, write);`, from its `k`-th
  -- round on. `none` is undefined behaviour or the end of the fuel; the result is what was written.
  unfoldable pub copy_records : ℕ → ℕ → Record → List ℕ → List ℕ → Option (List ℕ)
  copy_records zero k new_record input output = none
  copy_records (suc fuel) k new_record input output = do
    (n, r, rest) ← record_read malloc new_record input
    elim (is_zero n) [
      | true ↦ some output
      | false ↦ (do
        (_, out) ← record_write malloc (writes k) r output
        copy_records fuel (k + 1) r rest out)
    ]

  -- `new_record` is what stands in the local variable, `input` what `fopen` finds in the first file, and
  -- `opens` whether it opens the second one. The status, and the second file if it was opened.
  unfoldable pub database_main : ℕ → Record → Option (List ℕ) → Bool → Option (ℕ × Option (List ℕ))
  database_main fuel new_record input opens =
      let (code, initialised) = record_init (some new_record) in
      if not (code == 0) then some (1, none) else elim initialised [
        | none ↦ none
        | some r ↦ elim input [
          | none ↦ some (1, none)
          | some bytes ↦
              let copied = copy_records fuel 0 r bytes [] in
              if opens then (do out ← copied; some (0, some out)) else some (1, none)
        ]
      ]
