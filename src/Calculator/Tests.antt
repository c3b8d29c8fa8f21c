-- ===== src/Calculator/Tests.antt =====
-- The calculator over the integers, with strtold a reading of decimal digits.
use lingi1341_projet.Prelude.{
  ℕ, ◌≡◌, refl, true, none, some, [], ◌∷◌, ◌+◌, ◌-◌, ◌*◌, ◌==◌, inl, inr, arith,
}
use lingi1341_projet.Prelude.Ints.{pos, negsuc}
use lingi1341_projet.Programs.{digits}
use lingi1341_projet.Calculator.{
  LongDouble, hex_digit, skip_spaces, hex_digits, hex_number, strtoll, add, mul, incr, exit_failure,
  prints_whole, convert, with_operand, calc_option, calc_options, precision, print, calc_main,
}
use lingi1341_projet.Calculator.Overread.{convert_overreads}

-- Natural numbers, as far as they go.
abbrev naturals : LongDouble ℕ
naturals = record {
  strtold = digits 0;
  of_long_long = λ z. 0;
  to_int = λ n. some (pos n);
  to_long_long = λ n. some (pos n);
  is_null = λ n. n == 0;
  null = 0;
  one = 1;
  plus = λ m n. m + n;
  minus = λ m n. m - n;
  times = λ m n. m * n;
  over = λ m n. m;
}

-- calc -a 7 -m 6 -I
forty_three :
    calc_main naturals (λ k. true) (add (55 ∷ []) ∷ mul (54 ∷ []) ∷ incr ∷ []) none
    ≡ some (prints_whole (pos 43))
unfolding calc_main calc_options calc_option with_operand convert precision print digits
forty_three = refl

-- calc -a 7 -m 0
zero_factor :
    calc_main naturals (λ k. true) (add (55 ∷ []) ∷ mul (48 ∷ []) ∷ []) none ≡ some exit_failure
unfolding calc_main calc_options calc_option with_operand convert precision print digits
zero_factor = refl

-- A number that a byte ends: "1fg", " -2 ", "0xa.".
numbers_end :
    (strtoll (49 ∷ 102 ∷ 103 ∷ []) ≡ some (pos 31))
    × (strtoll (32 ∷ 45 ∷ 50 ∷ 32 ∷ []) ≡ some (negsuc 1))
    × (strtoll (48 ∷ 120 ∷ 97 ∷ 46 ∷ []) ≡ some (pos 10))
unfolding strtoll skip_spaces hex_number hex_digits hex_digit
numbers_end = (refl, refl, refl)

-- calc -a 0x1F
hexadecimal_operand : convert naturals true (48 ∷ 120 ∷ 49 ∷ 70 ∷ []) ≡ none
hexadecimal_operand =
    convert_overreads naturals (49 ∷ 70 ∷ []) (λ e. cc)
      (inl (omega arith), (inr (inl (omega arith)), tt))
