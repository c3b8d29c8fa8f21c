-- ===== src/Network/Slots.antt =====
-- Which packets stay in the slots of the two sides.
use lingi1341_projet.Prelude.{
  ℕ, ◌≤◌, ◌<◌, ◌≡◌, refl, sym, subst, inl, inr, Bool, true, Option, none, some, List, [], ◌∷◌, ◌++◌,
  map, arith, All, Bool-cases,
}
use lingi1341_projet.Packet.{Pkt}
use lingi1341_projet.Packet.Slots.{Contains, Holds}
use lingi1341_projet.Sender.Send.{selected, is_older}
use lingi1341_projet.Network.{IsAmong}
use lingi1341_projet.Platform.{Zlib}
use lingi1341_projet.Packet.Wire.{wire}

-- A property of the packets that follows from another holds of the slots too.
pub Holds-map {ℓ κ} :
    (P : Pkt → Type ℓ) (Q : Pkt → Type κ) (slots : List (Option Pkt))
    → ((p : Pkt) → P p → Q p)
    → All (Holds P) slots
    → All (Holds Q) slots
Holds-map P Q [] f a = tt
Holds-map P Q (none ∷ slots) f a = (tt, Holds-map P Q slots f a.1)
Holds-map P Q (some p ∷ slots) f a = (f p a.0, Holds-map P Q slots f a.1)

-- The packets that are sent again have what all packets in slots have.
pub selected-All {ℓ} :
    (P : Pkt → Type ℓ) (test : Pkt → Bool) (slots : List (Option Pkt))
    → All (Holds P) slots
    → All P (selected test slots)
selected-All P test [] a = tt
selected-All P test (none ∷ slots) a = selected-All P test slots a.1
selected-All P test (some p ∷ slots) a = elim (Bool-cases (test p)) [
  | inl hit ↦ rw hit (a.0, selected-All P test slots a.1)
  | inr miss ↦ rw miss (selected-All P test slots a.1)
]

-- Every packet in a slot that is due is among those that are sent again.
pub selected-IsAmong {ℓ} :
    (z : Zlib) (P : Pkt → Type ℓ) (stamp seqnum i : ℕ) (slots : List (Option Pkt))
    → i ≤ seqnum
    → All (Holds P) slots
    → All (Holds (λ p. p.timestamp < stamp)) slots
    → Contains i slots
    → (p : Pkt) × (p.seqnum ≡ i)
      × P p
      × IsAmong (wire z p) (map (wire z) (selected (is_older stamp seqnum) slots))
selected-IsAmong z P stamp seqnum i [] le a past c = absurd c
selected-IsAmong z P stamp seqnum i (none ∷ slots) le a past c =
    selected-IsAmong z P stamp seqnum i slots le a.1 past.1 c
selected-IsAmong z P stamp seqnum i (some p ∷ slots) le a past (inl same) =
    let due : is_older stamp seqnum p ≡ true = ground (arith, past.0) in
    (p, same, a.0, rw due (inl refl))
selected-IsAmong z P stamp seqnum i (some p ∷ slots) le a past (inr c) =
    let (q, same, holds, among) = selected-IsAmong z P stamp seqnum i slots le a.1 past.1 c in
    elim (Bool-cases (is_older stamp seqnum p)) [
      | inl hit ↦ (q, same, holds, rw hit (inr among))
      | inr miss ↦ (q, same, holds, rw miss among)
    ]

pub IsAmong-left : (d : List ℕ) (ds es : List (List ℕ)) → IsAmong d ds → IsAmong d (ds ++ es)
IsAmong-left d [] es m = absurd m
IsAmong-left d (e ∷ ds) es (inl same) = inl same
IsAmong-left d (e ∷ ds) es (inr m) = inr (IsAmong-left d ds es m)

pub IsAmong-right : (d : List ℕ) (ds es : List (List ℕ)) → IsAmong d es → IsAmong d (ds ++ es)
IsAmong-right d [] es m = m
IsAmong-right d (e ∷ ds) es m = inr (IsAmong-right d ds es m)

pub IsAmong-All {ℓ} :
    (P : List ℕ → Type ℓ) (d : List ℕ) (ds : List (List ℕ)) → All P ds → IsAmong d ds → P d
IsAmong-All P d [] a m = absurd m
IsAmong-All P d (e ∷ ds) a (inl same) = subst P (sym same) a.0
IsAmong-All P d (e ∷ ds) a (inr m) = IsAmong-All P d ds a.1 m
