-- ===== src/Sender/Unacked.antt =====
-- The slots of the sender after an acknowledgement.
use lingi1341_projet.Prelude.{
  ℕ, ◌+◌, ◌%◌, ◌≤◌, ◌<◌, ◌≡◌, refl, sym, ap, subst, ◌∙◌, ◌⊎◌, inl, inr, Option, none, some, List,
  [], ◌∷◌, map, arith, length, All, Bool, ltb, leb, not, ◌||◌, if◌then◌else◌, Bool-cases,
}
use lingi1341_projet.Packet.{Pkt}
use lingi1341_projet.Packet.Slots.{occupied, Holds, Contains}
use lingi1341_projet.Sender.{Sender, is_acked, drop_acked, acknowledged}
use lingi1341_projet.Sender.Invariant.{IsStored, IsSound}

-- The packet is below the acknowledged number, which is at most the next number to send.
abbrev pub is_below : ℕ → ℕ → Pkt → Bool
is_below number next p = not (leb number p.seqnum || ltb next number)

is_acked-is_below : (number next : ℕ) (p : Pkt) → is_acked number next p ≡ is_below number next p
is_acked-is_below number next p = ground arith

-- A slot after an acknowledgement.
abbrev pub unacked : ℕ → ℕ → Option Pkt → Option Pkt
unacked number seqnum none = none
unacked number seqnum (some p) = if is_below number seqnum p then none else some p

-- The loop frees as many slots as it counts.
drop_acked-occupied :
    (number seqnum : ℕ) (slots : List (Option Pkt)) (free : ℕ)
    → free + occupied slots < 256
    → (drop_acked number seqnum slots free).free
        + occupied (drop_acked number seqnum slots free).slots
      ≡ free + occupied slots
unfolding drop_acked
drop_acked-occupied number seqnum [] free h = refl
drop_acked-occupied number seqnum (none ∷ slots) free h =
    drop_acked-occupied number seqnum slots free h
drop_acked-occupied number seqnum (some p ∷ slots) free h =
    elim (Bool-cases (is_acked number seqnum p)) [
      | inl hit ↦
          rw (hit, drop_acked)
            (omega
              (arith, drop_acked-occupied number seqnum slots ((free + 1) % 256) (omega arith)))
      | inr miss ↦
          rw (miss, drop_acked)
            (omega (arith, drop_acked-occupied number seqnum slots free (omega arith)))
    ]

-- It empties the slots of the acknowledged packets and no others.
pub drop_acked-unacked :
    (number seqnum : ℕ) (slots : List (Option Pkt)) (free : ℕ)
    → (drop_acked number seqnum slots free).slots ≡ map (unacked number seqnum) slots
unfolding drop_acked
drop_acked-unacked number seqnum [] free = refl
drop_acked-unacked number seqnum (none ∷ slots) free =
    ap (λ (t : List (Option Pkt)). none ∷ t) (drop_acked-unacked number seqnum slots free)
drop_acked-unacked number seqnum (some p ∷ slots) free =
    elim (Bool-cases (is_below number seqnum p)) [
      | inl hit ↦
          rw (is_acked-is_below number seqnum p, hit, drop_acked)
            (ap (λ (t : List (Option Pkt)). none ∷ t)
              (drop_acked-unacked number seqnum slots ((free + 1) % 256)))
      | inr miss ↦
          rw (is_acked-is_below number seqnum p, miss, drop_acked)
            (ap (λ (t : List (Option Pkt)). some p ∷ t)
              (drop_acked-unacked number seqnum slots free))
    ]

pub unacked-Holds {ℓ} :
    (P : Pkt → Type ℓ) (number seqnum : ℕ) (slots : List (Option Pkt))
    → All (Holds P) slots
    → All (Holds P) (map (unacked number seqnum) slots)
unacked-Holds P number seqnum [] a = tt
unacked-Holds P number seqnum (none ∷ slots) a = (tt, unacked-Holds P number seqnum slots a.1)
unacked-Holds P number seqnum (some p ∷ slots) a = elim (Bool-cases (is_below number seqnum p)) [
  | inl hit ↦ rw hit (tt, unacked-Holds P number seqnum slots a.1)
  | inr miss ↦ rw miss (a.0, unacked-Holds P number seqnum slots a.1)
]

length-map : {A B : Type 0} (f : A → B) (xs : List A) → length (map f xs) ≡ length xs
length-map f [] = refl
length-map f (x ∷ xs) = omega (arith, length-map f xs)

pub acknowledged-IsSound : (ack : Pkt) (s : Sender) → IsSound s → IsSound (acknowledged ack s)
acknowledged-IsSound ack s v =
    let same : (drop_acked ack.seqnum s.seqnum s.slots s.free).slots
        ≡ map (unacked ack.seqnum s.seqnum) s.slots =
      drop_acked-unacked ack.seqnum s.seqnum s.slots s.free in
    record {
      slots_len = ap length same ∙ length-map (unacked ack.seqnum s.seqnum) s.slots ∙ v.slots_len;
      balance =
          drop_acked-occupied ack.seqnum s.seqnum s.slots s.free (omega (arith, v.balance))
          ∙ v.balance;
      seqnum_byte = v.seqnum_byte;
      buffer1_len = v.buffer1_len;
      buffer2_len = v.buffer2_len;
      stored =
          subst (All (Holds IsStored)) (sym same)
            (unacked-Holds IsStored ack.seqnum s.seqnum s.slots v.stored);
    }

-- An acknowledgement empties no slot of a packet from its number on, or from the next number to send on.
pub unacked-Contains :
    (number seqnum n : ℕ) (slots : List (Option Pkt))
    → (number ≤ n) ⊎ (seqnum ≤ n)
    → Contains n slots
    → Contains n (map (unacked number seqnum) slots)
unacked-Contains number seqnum n [] h c = c
unacked-Contains number seqnum n (none ∷ slots) h c = unacked-Contains number seqnum n slots h c
unacked-Contains number seqnum n (some p ∷ slots) h c =
    elim (Bool-cases (is_below number seqnum p)) [
      | inl hit ↦ elim c [
        | inl same ↦ absurd (below h (ground arith) (ground arith))
        | inr c1 ↦ rw hit (unacked-Contains number seqnum n slots h c1)
      ]
      | inr miss ↦ elim c [
        | inl same ↦ rw miss (inl same)
        | inr c1 ↦ rw miss (inr (unacked-Contains number seqnum n slots h c1))
      ]
    ]
  where
    below : (number ≤ n) ⊎ (seqnum ≤ n) → n < number → number ≤ seqnum → ⊥
    below (inl small) lt le = omega arith
    below (inr small) lt le = omega arith
