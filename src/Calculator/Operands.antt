-- ===== src/Calculator/Operands.antt =====
-- What the options of calc.c compute, and what an operand that is zero does.
use lingi1341_projet.Prelude.{
  ℕ, ◌+◌, ◌≡◌, refl, ap, ap₂, ◌∙◌, Bool, true, Option, none, some, List, [], ◌∷◌, ◌++◌, ◌>>=◌,
  arith, length,
}
use mathlib.Core.Option.{some-injective}
use lingi1341_projet.Calculator.{
  LongDouble, Opt, add, sub, mul, div, incr, decr, unknown, exit_failure, convert, with_operand,
  calc_option, calc_options, calc_main,
}

-- A value after an option and the options behind it is the value of these.
after_option {ℓ} :
    {F : Type ℓ} (o : Option (Option F)) (rest : F → Option (Option F)) (n : F)
    → (do r ← o; elim r [ none ↦ some none | some a ↦ rest a ]) ≡ some (some n)
    → (a : F) × (o ≡ some (some a)) × (rest a ≡ some (some n))
after_option none rest n h = cc
after_option (some none) rest n h = cc
after_option (some (some a)) rest n h = (a, refl, h)

module _ {ℓ} {F : Type ℓ} (ops : LongDouble F) (malloc : ℕ → Bool) where
  -- Options of which the first ones give the value `n`.
  calc_options-append :
      (before after : List Opt) (k : ℕ) (nbr n : F)
      → calc_options ops malloc k nbr before ≡ some (some n)
      → calc_options ops malloc k nbr (before ++ after)
        ≡ calc_options ops malloc (k + length before) n after
  unfolding calc_options
  calc_options-append [] after k nbr n h =
      ap₂ (λ (i : ℕ) (v : F). calc_options ops malloc i v after) (omega arith)
        (some-injective nbr n (some-injective (some nbr) (some n) h))
  calc_options-append (opt ∷ before) after k nbr n h =
      let (a, e, rest) =
        after_option (calc_option ops (malloc k) nbr opt)
          (λ v. calc_options ops malloc (k + 1) v before) n h in
      rw (e, calc_options)
        (calc_options-append before after (k + 1) a n rest
          ∙ ap (λ (i : ℕ). calc_options ops malloc i n after) (omega arith))

  -- The operand of an option, if it has one.
  abbrev pub operand : Opt → Option (List ℕ)
  operand (add optarg) = some optarg
  operand (sub optarg) = some optarg
  operand (mul optarg) = some optarg
  operand (div optarg) = some optarg
  operand incr = none
  operand decr = none
  operand unknown = none

  with_operand-null :
      (memory : Bool) (operation : F → F) (optarg : List ℕ) (res : F)
      → convert ops memory optarg ≡ some res
      → ops.is_null res ≡ true
      → with_operand ops memory operation optarg ≡ some none
  unfolding with_operand
  with_operand-null memory operation optarg res e z = rw (e, z, with_operand) refl

  same_operand :
      (memory : Bool) (a optarg : List ℕ) (res : F)
      → some a ≡ some optarg
      → convert ops memory optarg ≡ some res
      → convert ops memory a ≡ some res
  same_operand memory a optarg res o e = ap (convert ops memory) (some-injective a optarg o) ∙ e

  calc_option-null :
      (memory : Bool) (nbr : F) (opt : Opt) (optarg : List ℕ) (res : F)
      → operand opt ≡ some optarg
      → convert ops memory optarg ≡ some res
      → ops.is_null res ≡ true
      → calc_option ops memory nbr opt ≡ some none
  unfolding calc_option
  calc_option-null memory nbr (add a) optarg res o e z =
      with_operand-null memory (ops.plus nbr) a res (same_operand memory a optarg res o e) z
  calc_option-null memory nbr (sub a) optarg res o e z =
      with_operand-null memory (ops.minus nbr) a res (same_operand memory a optarg res o e) z
  calc_option-null memory nbr (mul a) optarg res o e z =
      with_operand-null memory (ops.times nbr) a res (same_operand memory a optarg res o e) z
  calc_option-null memory nbr (div a) optarg res o e z =
      with_operand-null memory (ops.over nbr) a res (same_operand memory a optarg res o e) z
  calc_option-null memory nbr incr optarg res o e z = cc
  calc_option-null memory nbr decr optarg res o e z = cc
  calc_option-null memory nbr unknown optarg res o e z = cc

  calc_options-null :
      (after : List Opt) (k : ℕ) (nbr : F) (opt : Opt) (optarg : List ℕ) (res : F)
      → operand opt ≡ some optarg
      → convert ops (malloc k) optarg ≡ some res
      → ops.is_null res ≡ true
      → calc_options ops malloc k nbr (opt ∷ after) ≡ some none
  unfolding calc_options
  calc_options-null after k nbr opt optarg res o e z =
      rw (calc_option-null (malloc k) nbr opt optarg res o e z, calc_options) refl

  -- As soon as an operand is zero, also that of a sum, the program fails and prints nothing, whatever
  -- options follow: in particular it never divides by zero.
  pub calc_main-null_operand :
      (before after : List Opt) (opt : Opt) (nbr res : F) (optarg : List ℕ)
      (argument : Option (List ℕ))
      → calc_options ops malloc 0 ops.null before ≡ some (some nbr)
      → operand opt ≡ some optarg
      → convert ops (malloc (length before)) optarg ≡ some res
      → ops.is_null res ≡ true
      → calc_main ops malloc (before ++ (opt ∷ after)) argument ≡ some exit_failure
  unfolding calc_main
  calc_main-null_operand before after opt nbr res optarg argument b o e z =
      let here : convert ops (malloc (0 + length before)) optarg
          ≡ convert ops (malloc (length before)) optarg =
        ap (λ (i : ℕ). convert ops (malloc i) optarg) (omega arith) in
      rw
        (
          calc_options-append before (opt ∷ after) 0 ops.null nbr b,
          calc_options-null after (0 + length before) nbr opt optarg res o (here ∙ e) z,
        )
        refl
