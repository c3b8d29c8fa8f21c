-- ===== src/Packet/Slots.antt =====
-- Arrays of pointers to packets, as the sender and the receiver keep them: a null pointer is `none`.
use lingi1341_projet.Prelude.{
  ℕ, zero, suc, ◌+◌, ◌≤◌, ◌≡◌, refl, ◌⊎◌, Option, none, some, List, [], ◌∷◌, arith, length, get_or,
  set, replicate, All,
}
use lingi1341_projet.Packet.{Pkt}

abbrev pub occupied : List (Option Pkt) → ℕ
occupied [] = 0
occupied (none ∷ slots) = occupied slots
occupied (some p ∷ slots) = suc (occupied slots)

-- Every packet in a slot has the property `P`.
abbrev pub Holds {ℓ} : (Pkt → Type ℓ) → Option Pkt → Type ℓ
Holds P none = Unit
Holds P (some p) = P p

-- Emptying a slot that holds a packet frees one slot.
pub free-occupied :
    (slots : List (Option Pkt)) (i : ℕ) (p : Pkt)
    → get_or slots i none ≡ some p
    → occupied (set slots i none) + 1 ≡ occupied slots
free-occupied [] i p e = ground arith
free-occupied (none ∷ slots) zero p e = ground arith
free-occupied (some q ∷ slots) zero p e = omega arith
free-occupied (none ∷ slots) (suc i) p e = free-occupied slots i p e
free-occupied (some q ∷ slots) (suc i) p e = omega (arith, free-occupied slots i p e)

pub set-All {ℓ} :
    (P : Pkt → Type ℓ) (slots : List (Option Pkt)) (i : ℕ)
    → All (Holds P) slots
    → All (Holds P) (set slots i none)
set-All P [] i a = a
set-All P (s ∷ slots) zero a = (tt, a.1)
set-All P (s ∷ slots) (suc i) a = (a.0, set-All P slots i a.1)

pub get-Holds {ℓ} :
    (P : Pkt → Type ℓ) (slots : List (Option Pkt)) (i : ℕ)
    → All (Holds P) slots
    → Holds P (get_or slots i none)
get-Holds P [] i a = tt
get-Holds P (s ∷ slots) zero a = a.0
get-Holds P (s ∷ slots) (suc i) a = get-Holds P slots i a.1

pub occupied-replicate : (n : ℕ) → occupied (replicate n none) ≡ 0
unfolding replicate
occupied-replicate zero = refl
occupied-replicate (suc n) = occupied-replicate n

pub replicate-Holds {ℓ} : (P : Pkt → Type ℓ) (n : ℕ) → All (Holds P) (replicate n none)
unfolding replicate
replicate-Holds P zero = tt
replicate-Holds P (suc n) = (tt, replicate-Holds P n)

pub occupied-le-length : (slots : List (Option Pkt)) → occupied slots ≤ length slots
occupied-le-length [] = omega arith
occupied-le-length (none ∷ slots) = omega (arith, occupied-le-length slots)
occupied-le-length (some p ∷ slots) = omega (arith, occupied-le-length slots)

-- A packet with the number `n` is in a slot.
abbrev pub Contains : ℕ → List (Option Pkt) → Type 0
Contains n [] = ⊥
Contains n (none ∷ slots) = Contains n slots
Contains n (some q ∷ slots) = (q.seqnum ≡ n) ⊎ Contains n slots

-- A slot is taken if a packet is in one.
pub Contains-occupied : (n : ℕ) (slots : List (Option Pkt)) → Contains n slots → 1 ≤ occupied slots
Contains-occupied n [] c = absurd c
Contains-occupied n (none ∷ slots) c = Contains-occupied n slots c
Contains-occupied n (some p ∷ slots) c = omega arith
