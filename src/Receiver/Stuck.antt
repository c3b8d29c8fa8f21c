-- ===== src/Receiver/Stuck.antt =====
-- What the loop over the slots leaves behind. After a delivery it goes on at slot 1, so the slots
-- from 1 on are emptied as far as they can be, and slot 0 can keep a packet that is expected.
use lingi1341_projet.Prelude.{
  ℕ, zero, suc, ◌+◌, ◌-◌, ◌<◌, ◌≤◌, ◌≡◌, refl, arith, sym, subst, ◌∙◌, inl, inr, Bool, true, Option,
  none, some, List, [], ◌∷◌, ◌++◌, get_or, Bool-cases, ltb, ltb→lt,
}
use native.Mathlib.Decide.{ℕ_discrete}
use lingi1341_projet.Packet.{Pkt}
use lingi1341_projet.Seqnum.{inc_seqnum}
use lingi1341_projet.Receiver.{Receiver, expected_in, flush}
use lingi1341_projet.Packet.Slots.{Contains, Holds, get-Holds}
use lingi1341_projet.Receiver.Invariant.{IsValid, IsStorable, deliver-IsValid}
use lingi1341_projet.Receiver.Scan.{
  deliver-slots, flush_stop, flush_skip, flush-deliver, body, deliver-output,
}

not-Contains :
    (n : ℕ) (slots : List (Option Pkt)) (j : ℕ)
    → ¬ Contains n slots
    → expected_in n (get_or slots j none) ≡ none
not-Contains n [] j h = refl
not-Contains n (none ∷ slots) zero h = refl
not-Contains n (some q ∷ slots) zero h = elim (ℕ_discrete q.seqnum n) [
  | yes e ↦ absurd (h (inl e))
  | no ne ↦ ground arith
]
not-Contains n (none ∷ slots) (suc j) h = not-Contains n slots j h
not-Contains n (some q ∷ slots) (suc j) h = not-Contains n slots j (λ c. h (inr c))

-- A scan that finds nothing changes nothing.
flush_idle :
    (fuel : ℕ) (writes : ℕ → Bool) (k i : ℕ) (r : Receiver)
    → ((j : ℕ) → i ≤ j → expected_in r.seqnum (get_or r.slots j none) ≡ none)
    → i ≤ 31
    → 31 - i < fuel
    → flush fuel writes k i r ≡ some r
flush_idle zero writes k i r h hi m = absurd (omega arith)
flush_idle (suc fuel) writes k i r h hi m = elim (Bool-cases (ltb i 31)) [
  | inr stop ↦ flush_stop fuel writes k i r stop
  | inl go ↦
      flush_skip fuel writes k i r go (h i (omega arith))
      ∙ flush_idle fuel writes k (i + 1) r (λ j lo. h j (omega arith))
          (omega (arith, ltb→lt i 31 go)) (omega (arith, ltb→lt i 31 go))
]

-- In a valid state slot 0 holds the packet `q` and slot 1 the packet `p` before it, which is the expected one, no
-- other slot holds a packet with the number of `q`, and the writes succeed: the loop delivers `p` and ends with `q` expected, but still in slot 0, and its bytes not written.
pub flush_leaves_expected :
    (fuel : ℕ) (writes : ℕ → Bool) (k : ℕ) (r : Receiver) (p q : Pkt) (rest : List (Option Pkt))
    → ((j : ℕ) → writes j ≡ true)
    → IsValid r
    → r.slots ≡ some q ∷ some p ∷ rest
    → p.seqnum ≡ r.seqnum
    → q.seqnum ≡ inc_seqnum r.seqnum
    → ¬ Contains (inc_seqnum r.seqnum) rest
    → 64 < fuel
    → (r' : Receiver) × (flush fuel writes k 0 r ≡ some r')
      × (r'.slots ≡ some q ∷ none ∷ rest)
      × (q.seqnum ≡ r'.seqnum)
      × (r'.output ≡ r.output ++ body p.payload)
flush_leaves_expected zero writes k r p q rest w v s hp hq c m = absurd (omega arith)
flush_leaves_expected (suc zero) writes k r p q rest w v s hp hq c m = absurd (omega arith)
flush_leaves_expected (suc (suc fuel)) writes k r p q rest w v s hp hq c m =
    let first : expected_in r.seqnum (get_or r.slots 0 none) ≡ none = rw s not_yet in
    let held : get_or r.slots 1 none ≡ some p = rw s in
    let found : expected_in r.seqnum (get_or r.slots 1 none) ≡ some p = rw s now in
    let (r1, e, v1, less) = deliver-IsValid (writes k) 1 p r held v in
    let after : r1.slots ≡ some q ∷ none ∷ rest = deliver-slots (writes k) 1 p r r1 e ∙ rw s in
    let (out, number, grown, buffer, sent) =
      deliver-output 1 p r r1
        (subst (Holds IsStorable) held (get-Holds IsStorable r.slots 1 v.stored)) v (omega arith)
        (rw (← w k) e) in
    (
      r1,
      flush_skip (suc fuel) writes k 0 r refl first
          ∙ flush-deliver fuel writes k 1 r refl found e
          ∙ flush_idle fuel writes (k + 1) 1 r1 (idle r1 after number) (omega arith) (omega arith),
      after,
      hq ∙ sym number,
      out,
    )
  where
    not_yet : expected_in r.seqnum (some q) ≡ none
    not_yet = ground (arith, v.seqnum_byte)

    now : expected_in r.seqnum (some p) ≡ some p
    now = ground arith

    idle :
        (r1 : Receiver)
        → r1.slots ≡ some q ∷ none ∷ rest
        → r1.seqnum ≡ inc_seqnum r.seqnum
        → (j : ℕ) → 1 ≤ j
        → expected_in r1.seqnum (get_or r1.slots j none) ≡ none
    idle r1 after number zero lo = absurd (omega arith)
    idle r1 after number (suc j) lo =
        rw (after, number) (not-Contains (inc_seqnum r.seqnum) (none ∷ rest) j c)
