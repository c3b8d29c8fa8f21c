-- ===== src/Sender/Put.antt =====
-- The loop that puts a packet into a slot of the sender.
use lingi1341_projet.Prelude.{
  ℕ, ◌+◌, ◌≡◌, refl, subst, inl, inr, Option, none, some, List, [], ◌∷◌, arith, length, All,
  Option-cases,
}
use lingi1341_projet.Packet.{Pkt}
use lingi1341_projet.Packet.Slots.{occupied, Holds, Contains}
use mathlib.Core.Option.{some-injective}
use lingi1341_projet.Sender.{put_packet}

-- A packet that gets a slot takes one that was free.
pub put_packet-occupied :
    (p : Pkt) (slots put : List (Option Pkt))
    → put_packet p slots ≡ some put
    → (occupied put ≡ occupied slots + 1) × (length put ≡ length slots)
unfolding put_packet
put_packet-occupied p [] put e = ground arith
put_packet-occupied p (none ∷ slots) put e = ground arith
put_packet-occupied p (some q ∷ slots) put e = elim (Option-cases (put_packet p slots)) [
  | inl n ↦ ground arith
  | inr (rest, s) ↦ ground (arith, put_packet-occupied p slots rest)
]

pub put_packet-All {ℓ} :
    (P : Pkt → Type ℓ) (p : Pkt) (slots put : List (Option Pkt))
    → P p
    → All (Holds P) slots
    → put_packet p slots ≡ some put
    → All (Holds P) put
unfolding put_packet
put_packet-All P p [] put h a e = cc
put_packet-All P p (none ∷ slots) put h a e = ground arith
put_packet-All P p (some q ∷ slots) put h a e = elim (Option-cases (put_packet p slots)) [
  | inl n ↦ ground arith
  | inr (rest, s) ↦ ground (arith, put_packet-All P p slots rest)
]

-- Only where all slots are taken, it gets none.
pub put_packet_full :
    (p : Pkt) (slots : List (Option Pkt))
    → put_packet p slots ≡ none
    → occupied slots ≡ length slots
unfolding put_packet
put_packet_full p [] e = refl
put_packet_full p (none ∷ slots) e = ground arith
put_packet_full p (some q ∷ slots) e = elim (Option-cases (put_packet p slots)) [
  | inl n ↦ omega (arith, put_packet_full p slots n)
  | inr (rest, s) ↦ ground arith
]

-- A packet gets a slot, and the others stay.
pub put_packet-Contains :
    (p : Pkt) (slots put : List (Option Pkt))
    → put_packet p slots ≡ some put
    → Contains p.seqnum put × ((n : ℕ) → Contains n slots → Contains n put)
unfolding put_packet
put_packet-Contains p [] put e = cc
put_packet-Contains p (none ∷ slots) put e =
    subst (λ t. Contains p.seqnum t × ((n : ℕ) → Contains n slots → Contains n t))
      (some-injective (some p ∷ slots) put e) (inl refl, λ n c. inr c)
put_packet-Contains p (some q ∷ slots) put e = elim (Option-cases (put_packet p slots)) [
  | inl n ↦ ground arith
  | inr (rest, s) ↦
      let (own, others) = put_packet-Contains p slots rest s in
      subst (λ t. Contains p.seqnum t × ((n : ℕ) → Contains n (some q ∷ slots) → Contains n t))
        (some-injective (some q ∷ rest) put (rw s at e))
        (inr own, λ n c. elim c [ inl same ↦ inl same | inr c1 ↦ inr (others n c1) ])
]
