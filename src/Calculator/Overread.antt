-- ===== src/Calculator/Overread.antt =====
-- convert of calc.c on a hexadecimal number: the string that it builds has no end.
use lingi1341_projet.Prelude.{
  ℕ, suc, ◌+◌, ◌-◌, ◌*◌, ◌≤◌, ◌≡◌, refl, ◌≢◌, ◌⊎◌, inl, inr, true, false, ◌&&◌, ◌||◌, none, some,
  List, [], ◌∷◌, All, arith, length, ltb, ◌==◌, Bool-cases,
}
use lingi1341_projet.Programs.{is_space}
use lingi1341_projet.Calculator.{
  LongDouble, hex_digit, skip_spaces, hex_digits, hex_number, strtoll, convert,
}

-- 0 to 9, A to F, a to f.
abbrev pub IsHexDigit : ℕ → Type 0
IsHexDigit c = (48 ≤ c × c ≤ 57) ⊎ ((65 ≤ c × c ≤ 70) ⊎ (97 ≤ c × c ≤ 102))

hex_digit-some : (c : ℕ) → IsHexDigit c → (d : ℕ) × (hex_digit c ≡ some d)
unfolding hex_digit
hex_digit-some c (inl h) = (c - 48, ground arith)
hex_digit-some c (inr (inl h)) = (c - 55, ground arith)
hex_digit-some c (inr (inr h)) = (c - 87, ground arith)

-- Nothing but digits: they are read to the end of the block and beyond.
hex_digits-none : (n : ℕ) (cs : List ℕ) → All IsHexDigit cs → hex_digits n cs ≡ none
unfolding hex_digits
hex_digits-none n [] h = refl
hex_digits-none n (c ∷ cs) (h, hs) =
    let (d, e) = hex_digit-some c h in rw (e, hex_digits) (hex_digits-none (16 * n + d) cs hs)

hex_number-none : (cs : List ℕ) → All IsHexDigit cs → hex_number cs ≡ none
unfolding hex_number
hex_number-none [] h = refl
hex_number-none (c ∷ []) h = hex_digits-none 0 (c ∷ []) h
hex_number-none (c ∷ x ∷ cs) h = elim (Bool-cases (c == 48 && (x == 120 || x == 88))) [
  | inl prefixed ↦ rw prefixed (hex_digits-none 0 cs h.1.1)
  | inr plain ↦ rw plain (hex_digits-none 0 (c ∷ x ∷ cs) h)
]

hex_digit_plain :
    (c : ℕ) → IsHexDigit c → (is_space c ≡ false) × ((c == 45) ≡ false) × ((c == 43) ≡ false)
hex_digit_plain c (inl h) = (ground arith, ground arith, ground arith)
hex_digit_plain c (inr (inl h)) = (ground arith, ground arith, ground arith)
hex_digit_plain c (inr (inr h)) = (ground arith, ground arith, ground arith)

strtoll-none : (cs : List ℕ) → All IsHexDigit cs → strtoll cs ≡ none
unfolding strtoll skip_spaces
strtoll-none [] h = refl
strtoll-none (c ∷ cs) h =
    let (no_space, no_minus, no_plus) = hex_digit_plain c h.0 in
    rw (no_space, no_minus, no_plus, hex_number-none (c ∷ cs) h, strtoll) refl

at_least_three : (n : ℕ) → ltb (suc (suc (suc n))) 3 ≡ false
at_least_three n = ground arith

-- With memory, convert reads behind the block that it builds for "0x" and one or more hexadecimal
-- digits: strncpy copies the digits alone, and strtoll looks for a byte that is no digit.
pub convert_overreads {ℓ} :
    {F : Type ℓ} (ops : LongDouble F) (digits : List ℕ)
    → digits ≢ []
    → All IsHexDigit digits
    → convert ops true (48 ∷ 120 ∷ digits) ≡ none
unfolding convert
convert_overreads ops [] p h = absurd (p refl)
convert_overreads ops (d ∷ digits) p h =
    rw (strtoll-none (d ∷ digits) h, at_least_three (length digits), convert) refl
