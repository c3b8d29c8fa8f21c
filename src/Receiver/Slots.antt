-- ===== src/Receiver/Slots.antt =====
-- What the loop that keeps a packet in the receiver's slots does.
use lingi1341_projet.Prelude.{
  ◌+◌, ◌<◌, ◌≡◌, refl, ◌⊎◌, inl, inr, Option, none, some, List, [], ◌∷◌, arith, length, All,
  Option-cases,
}
use native.Mathlib.Decide.{ℕ_discrete}
use lingi1341_projet.Packet.{Pkt}
use lingi1341_projet.Receiver.{keep_packet}
use lingi1341_projet.Packet.Slots.{occupied, Holds, Contains}

-- A packet that is kept takes one free slot and moves nothing else.
pub keep-occupied :
    (p : Pkt) (slots kept : List (Option Pkt))
    → keep_packet p slots ≡ some kept
    → (occupied kept ≡ occupied slots + 1) × (length kept ≡ length slots)
unfolding keep_packet
keep-occupied p [] kept e = ground arith
keep-occupied p (none ∷ slots) kept e = ground arith
keep-occupied p (some q ∷ slots) kept e = elim (Option-cases (keep_packet p slots)) [
  | inl n ↦ ground arith
  | inr (rest, s) ↦ ground (arith, keep-occupied p slots rest)
]

pub keep-All {ℓ} :
    (P : Pkt → Type ℓ) (p : Pkt) (slots kept : List (Option Pkt))
    → P p
    → All (Holds P) slots
    → keep_packet p slots ≡ some kept
    → All (Holds P) kept
unfolding keep_packet
keep-All P p [] kept h a e = cc
keep-All P p (none ∷ slots) kept h a e = ground arith
keep-All P p (some q ∷ slots) kept h a e = elim (Option-cases (keep_packet p slots)) [
  | inl n ↦ ground arith
  | inr (rest, s) ↦ ground (arith, keep-All P p slots rest)
]

-- The slots with a packet in the first free one.
abbrev pub put_first : Pkt → List (Option Pkt) → List (Option Pkt)
put_first p [] = []
put_first p (none ∷ slots) = some p ∷ slots
put_first p (some q ∷ slots) = some q ∷ put_first p slots

-- The slots before the first free one.
abbrev pub up_to_free : List (Option Pkt) → List (Option Pkt)
up_to_free [] = []
up_to_free (none ∷ slots) = []
up_to_free (some q ∷ slots) = some q ∷ up_to_free slots

-- With a free slot, the packet goes into the first one, unless one with its number comes before.
pub keep_packet-cases :
    (p : Pkt) (slots : List (Option Pkt))
    → occupied slots < length slots
    → ((keep_packet p slots ≡ none) × Contains p.seqnum (up_to_free slots))
      ⊎ ((keep_packet p slots ≡ some (put_first p slots))
          × (¬ Contains p.seqnum (up_to_free slots)))
unfolding keep_packet
keep_packet-cases p [] h = absurd (omega arith)
keep_packet-cases p (none ∷ slots) h = inr (refl, λ c. c)
keep_packet-cases p (some q ∷ slots) h = elim (ℕ_discrete q.seqnum p.seqnum) [
  | yes e ↦ inl (ground arith, inl e)
  | no n ↦ elim (keep_packet-cases p slots (omega arith)) [
    | inl (e, c) ↦ inl (ground arith, inr c)
    | inr (e, c) ↦ inr (ground arith, λ x. elim x [ inl same ↦ n same | inr y ↦ c y ])
  ]
]

abbrev kept_or : List (Option Pkt) → Option (List (Option Pkt)) → List (Option Pkt)
kept_or slots none = slots
kept_or slots (some kept) = kept

-- With a free slot, the number of the packet is in a slot afterwards: its own, or that of a packet
-- with the same number.
pub keep-Contains :
    (p : Pkt) (slots : List (Option Pkt))
    → occupied slots < length slots
    → Contains p.seqnum (kept_or slots (keep_packet p slots))
unfolding keep_packet
keep-Contains p [] h = absurd (omega arith)
keep-Contains p (none ∷ slots) h = inl refl
keep-Contains p (some q ∷ slots) h = elim (ℕ_discrete q.seqnum p.seqnum) [
  | yes e ↦ ground arith
  | no n ↦ elim (Option-cases (keep_packet p slots)) [
    | inl e ↦ ground (arith, keep-Contains p slots)
    | inr (rest, e) ↦ ground (arith, keep-Contains p slots)
  ]
]
