-- ===== src/Prelude/Memory.antt =====
-- A C object as its list of bytes: `memcpy` from it and into it. An access outside it is `none`.
use Prim.Native.Nat.{ℕ, ◌+◌, ◌≤◌, ◌<◌}
use mathlib.Core.Path.{◌≡◌, refl, ap, subst, ◌∙◌}
use mathlib.Core.Bool.{true}
use mathlib.Core.List.{List, [], ◌++◌, append_assoc, append-nil}
use mathlib.Core.Option.{Option, none, some}
use native.Mathlib.Omega.{arith}
use lingi1341_projet.Prelude.Tests.{leb, if◌then◌else◌}
use lingi1341_projet.Prelude.Lists.{
  length, take, drop, length-append, length-take, length-drop, take-append, drop-append, drop_past,
  replicate, length-replicate, length_zero,
}

-- `n` bytes from offset `off` on.
unfoldable pub load : List ℕ → ℕ → ℕ → Option (List ℕ)
load m off n = if leb (off + n) (length m) then some (take n (drop off m)) else none

-- `bs` written at offset `off`.
unfoldable pub store : List ℕ → ℕ → List ℕ → Option (List ℕ)
store m off bs =
    if leb (off + length bs) (length m)
    then some (take off m ++ (bs ++ drop (off + length bs) m))
    else none

le→leb : (a b : ℕ) → a ≤ b → leb a b ≡ true
le→leb a b h = ground arith

-- Inside the object a load gives the bytes between what stands before and behind them.
pub load-append :
    (pre mid post : List ℕ) (off n : ℕ)
    → off ≡ length pre
    → n ≡ length mid
    → load (pre ++ (mid ++ post)) off n ≡ some mid
unfolding load
load-append pre mid post off n ho hn =
    rw (le→leb (off + n) (length (pre ++ (mid ++ post))) fits, drop-append pre (mid ++ post) off ho)
      (ap some (take-append mid post n hn))
  where
    fits : off + n ≤ length (pre ++ (mid ++ post))
    fits = omega (arith, length-append pre (mid ++ post), length-append mid post)

-- A store behind a prefix that fills it puts the bytes there and keeps the rest.
pub store-append :
    (pre rest bs : List ℕ) (off : ℕ)
    → off ≡ length pre
    → length bs ≤ length rest
    → store (pre ++ rest) off bs ≡ some ((pre ++ bs) ++ drop (length bs) rest)
unfolding store
store-append pre rest bs off ho h =
    rw (le→leb (off + length bs) (length (pre ++ rest)) fits, take-append pre rest off ho)
      (ap some (rw (drop_past pre rest (off + length bs) (length bs) (omega arith), append_assoc)))
  where
    fits : off + length bs ≤ length (pre ++ rest)
    fits = omega (arith, length-append pre rest)

-- A load that leaves the object is undefined.
pub load_outside : (m : List ℕ) (off n : ℕ) → length m < off + n → load m off n ≡ none
unfolding load
load_outside m off n h = ground arith

-- A load that stays inside the object succeeds, with as many bytes as were asked for.
pub load_inside :
    (m : List ℕ) (off n : ℕ)
    → off + n ≤ length m
    → (bs : List ℕ) × (load m off n ≡ some bs) × (length bs ≡ n)
unfolding load
load_inside m off n h = (take n (drop off m), rw (le→leb (off + n) (length m) h), len)
  where
    len : length (take n (drop off m)) ≡ n
    len = length-take n (drop off m) (omega (arith, length-drop off m))

-- The whole object.
pub load_all : (m : List ℕ) (n : ℕ) → n ≡ length m → load m 0 n ≡ some m
load_all m n h = subst (λ t. load t 0 n ≡ some m) (append-nil m) (load-append [] m [] 0 n refl h)

-- A store that succeeds stays inside the object and keeps its size.
pub store-some :
    (m : List ℕ) (off : ℕ) (bs m' : List ℕ)
    → store m off bs ≡ some m'
    → (off + length bs ≤ length m) × (length m' ≡ length m)
unfolding store
store-some m off bs m' e = ground (
  arith,
  length-append (take off m) (bs ++ drop (off + length bs) m),
  length-append bs (drop (off + length bs) m),
  length-take off m,
  length-drop (off + length bs) m,
)

pub store_inside :
    (m : List ℕ) (off : ℕ) (bs : List ℕ)
    → off + length bs ≤ length m
    → (m' : List ℕ) × (store m off bs ≡ some m') × (length m' ≡ length m)
unfolding store
store_inside m off bs h =
    let e : store m off bs ≡ some (take off m ++ (bs ++ drop (off + length bs) m)) =
      rw (le→leb (off + length bs) (length m) h) in
    (take off m ++ (bs ++ drop (off + length bs) m), e, (store-some m off bs _ e).1)

pub load-some :
    (m : List ℕ) (off n : ℕ) (bs : List ℕ)
    → load m off n ≡ some bs
    → (off + n ≤ length m) × (length bs ≡ n)
unfolding load
load-some m off n bs e = ground (arith, length-take n (drop off m), length-drop off m)

-- A store that leaves the object is undefined.
pub store_outside :
    (m : List ℕ) (off : ℕ) (bs : List ℕ) → length m < off + length bs → store m off bs ≡ none
unfolding store
store_outside m off bs h = ground arith

pub load-take :
    (m : List ℕ) (off n : ℕ) → off + n ≤ length m → load m off n ≡ some (take n (drop off m))
unfolding load
load-take m off n h = ground arith

-- A store at the front.
pub store_front :
    (m bs : List ℕ) → length bs ≤ length m → store m 0 bs ≡ some (bs ++ drop (length bs) m)
store_front m bs h = store-append [] m bs 0 refl h

-- `memset` of a whole object.
pub store_all :
    (m : List ℕ) (n : ℕ) → length m ≡ n → store m 0 (replicate n 0) ≡ some (replicate n 0)
store_all m n h =
    store_front m (replicate n 0) (omega (arith, length-replicate {A = ℕ} n 0))
    ∙ ap (λ (t : List ℕ). some (replicate n 0 ++ t))
        (length_zero (drop (length (replicate {A = ℕ} n 0)) m) (
          omega
            (arith, length-replicate {A = ℕ} n 0, length-drop (length (replicate {A = ℕ} n 0)) m)))
    ∙ ap some (append-nil (replicate n 0))
