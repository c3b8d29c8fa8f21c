-- ===== src/Programs.antt =====
-- The main functions of projet1_Calmant_Outters/src/sender.c and receiver.c, up to the call of their
-- loops; Run adds these. What getopt, getaddrinfo and the system calls answer is a parameter; `none` is
-- undefined behaviour.
mod Tests
pub mod Arguments
pub mod Run
pub mod Status
use lingi1341_projet.Prelude.{
  ℕ, zero, suc, ◌+◌, ◌-◌, ◌*◌, ◌/◌, ◌%◌, ◌^◌, ◌≤◌, ◌<◌, ◌≡◌, refl, sym, ap, ap₂, subst, ◌∙◌, ◌≢◌,
  ◌↔◌, ◌⊎◌, inl, inr, Bool, true, false, ◌&&◌, ◌||◌, not, Option, none, some, List, [], ◌∷◌, ◌++◌,
  map, append_assoc, append-nil, arith, ◌>>=◌, length, get_or, set, take, drop, replicate, All,
  length-append, length-take, length-take_le, length-drop, length-replicate, length-set,
  take-append, drop-append, drop-nil, drop-drop, drop_past, length_zero, take-take, take-all, ltb,
  leb, ◌==◌, if◌then◌else◌, ltb→lt, lt→ltb, leb→le, ==_iff, Bool-cases, Option-cases,
}
use lingi1341_projet.Prelude.Ints.{ℤ, pos, negsuc}
use lingi1341_projet.Sockets.{Address, real_address, Calls, create_socket}

-- What the loop over `getopt` meets: the option for a file with its argument, or an option that is
-- not known.
pub data Opt : Type 0 where
  file : List ℕ → Opt
  unknown : Opt

-- A program fails before its loop, or runs it on a socket and a file.
pub data Launch {ℓ} (F : Type ℓ) : Type ℓ where
  exit_failure : Launch F
  runs : ℤ → F → Launch F

abbrev pub is_space : ℕ → Bool
is_space c = (c == 32) || (leb 9 c && leb c 13)

abbrev pub is_digit : ℕ → Bool
is_digit c = leb 48 c && leb c 57

unfoldable pub digits : ℕ → List ℕ → ℕ
digits n [] = n
digits n (c ∷ cs) = let rest = digits (10 * n + (c - 48)) cs in if is_digit c then rest else n

abbrev pub negated : ℕ → ℤ
negated zero = pos 0
negated (suc n) = negsuc n

-- `atoi`; a number outside the range of an `int` is not reduced.
unfoldable pub atoi : List ℕ → ℤ
atoi [] = pos 0
atoi (c ∷ cs) =
    let rest = atoi cs in
    if is_space c
    then rest
    else if c == 45
    then negated (digits 0 cs)
    else if c == 43
    then pos (digits 0 cs)
    else pos (digits 0 (c ∷ cs))

-- `argv[k]` as a string: `none` for the null pointer behind the last argument, and beyond.
abbrev pub arg : List (List ℕ) → ℕ → Option (List ℕ)
arg [] k = none
arg (a ∷ argv) zero = some a
arg (a ∷ argv) (suc k) = arg argv k

abbrev pub is_zero : ℤ → Bool
is_zero (pos zero) = true
is_zero (pos (suc n)) = false
is_zero (negsuc n) = false

abbrev pub is_negative : ℤ → Bool
is_negative (pos n) = false
is_negative (negsuc n) = true

abbrev pub launch {ℓ} : {F : Type ℓ} → Option ℤ → F → Launch F
launch none f = exit_failure
launch (some socket) f = runs socket f

-- The sender: `open_file name` is the descriptor that `open` returns.
unfoldable pub sender_file : (List ℕ → ℤ) → ℤ → List Opt → ℤ
sender_file open_file file_d [] = file_d
sender_file open_file file_d (file name ∷ opts) = sender_file open_file (open_file name) opts
sender_file open_file file_d (unknown ∷ opts) = sender_file open_file file_d opts

-- The receiver: `name` is the block of `malloc(64)`, which is not initialised.
unfoldable pub receiver_file : List ℕ → List Opt → List ℕ
receiver_file name [] = name
receiver_file name (file optarg ∷ opts) = receiver_file optarg opts
receiver_file name (unknown ∷ opts) = receiver_file (set name 0 0) opts

module _ (getaddrinfo : List ℕ → Option Address) (calls : Calls) where
  -- From the resolution of the name on. Both programs make one call of each function; `pick` says
  -- which end of the socket the address is.
  unfoldable pub open_socket : Bool → List ℕ → ℤ → Option ℤ
  open_socket is_source host port =
      let (status, address) = real_address getaddrinfo host in
      let created =
        if is_source
        then create_socket calls (some address) port none (pos 0)
        else create_socket calls none (pos 0) (some address) port in
      if not (is_zero status)
      then none
      else if is_negative created.result
      then none
      else some created.result

  unfoldable pub sender_main : (List ℕ → ℤ) → List (List ℕ) → List Opt → Option (Launch ℤ)
  sender_main open_file argv opts =
      let file_d = sender_file open_file (pos 0) opts in
      let argc = length argv in
      if ltb 5 argc
      then some exit_failure
      else if ltb argc 3 || (not (is_zero file_d) && ltb argc 5)
      then some exit_failure
      else (do
        host ← arg argv (if is_zero file_d then 1 else 3)
        port ← arg argv (if is_zero file_d then 2 else 4)
        some (launch (open_socket false host (atoi port)) file_d))

  unfoldable pub receiver_main : List ℕ → List (List ℕ) → List Opt → Option (Launch (List ℕ))
  receiver_main block argv opts =
      let name = receiver_file block opts in
      let argc = length argv in
      let unnamed = get_or name 0 0 == 0 in
      if ltb 5 argc then some exit_failure else if ltb argc 3 then some exit_failure else (do
        in_addr ← arg argv (if unnamed then 1 else 3)
        port ← arg argv (if unnamed then 2 else 4)
        some (launch (open_socket true in_addr (atoi port)) name))
