-- ===== src/Calculator.antt =====
-- calc.c of prerequis/getopt_calc: convert and main. The arithmetic of `long double` with its
-- conversions, and what `getopt` and the allocator answer, are parameters.
pub mod Overread
pub mod Operands
mod Tests
use lingi1341_projet.Prelude.{
  ℕ, zero, suc, ◌+◌, ◌-◌, ◌*◌, ◌^◌, ◌≤◌, ◌<◌, Bool, true, false, ◌&&◌, ◌||◌, not, Option, none,
  some, List, [], ◌∷◌, ◌>>=◌, length, get_or, drop, ltb, leb, ◌==◌, if◌then◌else◌,
}
use lingi1341_projet.Prelude.Ints.{ℤ, pos, negsuc}
use lingi1341_projet.Programs.{is_space, is_digit, negated}

-- `strtold`, the operators of `long double`, and its conversions; `none` is a value out of range.
pub record LongDouble {ℓ} (F : Type ℓ) : Type ℓ where
  pub strtold : List ℕ → F
  pub of_long_long : ℤ → F
  pub to_int : F → Option ℤ
  pub to_long_long : F → Option ℤ
  pub is_null : F → Bool
  pub null : F
  pub one : F
  pub plus : F → F → F
  pub minus : F → F → F
  pub times : F → F → F
  pub over : F → F → F

-- The value of a hexadecimal digit.
unfoldable pub hex_digit : ℕ → Option ℕ
hex_digit c =
    if is_digit c
    then some (c - 48)
    else if leb 65 c && leb c 70
    then some (c - 55)
    else if leb 97 c && leb c 102
    then some (c - 87)
    else none

-- The bytes of a block from the first that is no space on; `none` at the end of the block.
unfoldable pub skip_spaces : List ℕ → Option (List ℕ)
skip_spaces [] = none
skip_spaces (c ∷ cs) = let rest = skip_spaces cs in if is_space c then rest else some (c ∷ cs)

-- The number that the digits continue, up to the first byte that is none; `none` at the end of the block.
unfoldable pub hex_digits : ℕ → List ℕ → Option ℕ
hex_digits n [] = none
hex_digits n (c ∷ cs) = elim (hex_digit c) [ none ↦ some n | some d ↦ hex_digits (16 * n + d) cs ]

-- The digits behind an optional 0x or 0X, which counts if a digit follows.
unfoldable pub hex_number : List ℕ → Option ℕ
hex_number [] = none
hex_number (c ∷ []) = hex_digits 0 (c ∷ [])
hex_number (c ∷ x ∷ cs) =
    if c == 48 && (x == 120 || x == 88) then hex_digits 0 cs else hex_digits 0 (c ∷ x ∷ cs)

abbrev pub long_long_max : ℕ
long_long_max = 2 ^ 63 - 1

abbrev pub least : ℕ → ℕ → ℕ
least m n = if leb m n then m else n

-- `strtoll(value, NULL, 16)`, which reads `value` up to the first byte that is not part of a number.
-- `none` is a read behind the end of the block. A number out of range is the nearest one in it.
unfoldable pub strtoll : List ℕ → Option ℤ
strtoll value = do
  start ← skip_spaces value
  elim start [
    | [] ↦ none
    | c ∷ cs ↦
        if c == 45
        then (do n ← hex_number cs; some (negated (least n (2 ^ 63))))
        else if c == 43
        then (do n ← hex_number cs; some (pos (least n long_long_max)))
        else (do n ← hex_number (c ∷ cs); some (pos (least n long_long_max)))
  ]

pub data Opt : Type 0 where
  add : List ℕ → Opt
  sub : List ℕ → Opt
  mul : List ℕ → Opt
  div : List ℕ → Opt
  incr : Opt
  decr : Opt
  unknown : Opt

-- The program fails, or prints a value with a precision, or the whole part of a value.
pub data Printed {ℓ} (F : Type ℓ) : Type ℓ where
  exit_failure : Printed F
  prints : ℕ → F → Printed F
  prints_whole : ℤ → Printed F

module _ {ℓ} {F : Type ℓ} (ops : LongDouble F) where
  -- `malloc` says whether there is memory. The block holds the bytes behind "0x": `strncpy` copies them
  -- without the byte 0 behind them.
  unfoldable pub convert : Bool → List ℕ → Option F
  convert malloc nbr =
      if ltb (length nbr) 3
      then some (ops.strtold nbr)
      else if get_or nbr 0 0 == 48 && get_or nbr 1 0 == 120
      then if malloc
        then (do n ← strtoll (drop 2 nbr); some (ops.of_long_long n))
        else some (ops.strtold nbr)
      else some (ops.strtold nbr)

  -- `res = convert(optarg); if (res == 0) exit(EXIT_FAILURE);` and the operation: `none` is undefined
  -- behaviour, `some none` the exit.
  unfoldable pub with_operand : Bool → (F → F) → List ℕ → Option (Option F)
  with_operand malloc operation optarg = do
    res ← convert malloc optarg
    some (if ops.is_null res then none else some (operation res))

  unfoldable pub calc_option : Bool → F → Opt → Option (Option F)
  calc_option malloc nbr (add optarg) = with_operand malloc (ops.plus nbr) optarg
  calc_option malloc nbr (sub optarg) = with_operand malloc (ops.minus nbr) optarg
  calc_option malloc nbr (mul optarg) = with_operand malloc (ops.times nbr) optarg
  calc_option malloc nbr (div optarg) = with_operand malloc (ops.over nbr) optarg
  calc_option malloc nbr incr = some (some (ops.plus nbr ops.one))
  calc_option malloc nbr decr = some (some (ops.minus nbr ops.one))
  calc_option malloc nbr unknown = some none

  -- The loop over the options, from the `k`-th on.
  unfoldable pub calc_options : (ℕ → Bool) → ℕ → F → List Opt → Option (Option F)
  calc_options malloc k nbr [] = some (some nbr)
  calc_options malloc k nbr (opt ∷ opts) = do
    r ← calc_option (malloc k) nbr opt
    elim r [ none ↦ some none | some nbr1 ↦ calc_options malloc (k + 1) nbr1 opts ]

  -- `precision`, from the first argument behind the options, if there is one.
  unfoldable pub precision : Bool → Option (List ℕ) → Option ℤ
  precision malloc none = some (pos 0)
  precision malloc (some argument) = do res ← convert malloc argument; ops.to_int res

  abbrev pub print_whole : F → Option (Printed F)
  print_whole nbr = do whole ← ops.to_long_long nbr; some (prints_whole whole)

  unfoldable pub print : ℤ → F → Option (Printed F)
  print (pos (suc digits)) nbr = some (prints (suc digits) nbr)
  print (pos zero) nbr = print_whole nbr
  print (negsuc n) nbr = print_whole nbr

  unfoldable pub calc_main : (ℕ → Bool) → List Opt → Option (List ℕ) → Option (Printed F)
  calc_main malloc opts argument = do
    r ← calc_options malloc 0 ops.null opts
    elim r [
      | none ↦ some exit_failure
      | some nbr ↦ (do digits ← precision (malloc (length opts)) argument; print digits nbr)
    ]
