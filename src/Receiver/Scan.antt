-- ===== src/Receiver/Scan.antt =====
-- The loop over the slots step by step: what one delivery does, and what the loop does at a slot.
use lingi1341_projet.Prelude.{
  ℕ, zero, suc, ◌+◌, ◌≤◌, ◌<◌, ◌≡◌, ◌≢◌, sym, ap, subst, ◌∙◌, inl, inr, Bool, true, false, Option,
  none, some, List, [], ◌++◌, append-nil, arith, get_or, set, ltb, ◌==◌, Bool-cases, Option-cases,
}
use native.Mathlib.Decide.{ℕ_discrete}
use mathlib.Core.Option.{some-injective}
use lingi1341_projet.Packet.{Pkt}
use lingi1341_projet.Seqnum.{inc_seqnum}
use lingi1341_projet.Receiver.{Receiver, expected_in, write_out, deliver, flush}
use lingi1341_projet.Packet.Slots.{occupied}
use lingi1341_projet.Receiver.Invariant.{IsValid, IsStorable}
use lingi1341_projet.Prelude.Memory.{load_all}
use lingi1341_projet.Packet.Wire.{Fits}

pub expected_in-some :
    (n : ℕ) (o : Option Pkt) (p : Pkt) → expected_in n o ≡ some p → (o ≡ some p) × (p.seqnum ≡ n)
expected_in-some n none p e = cc
expected_in-some n (some q) p e = ground arith

-- The bytes that packets hold, in order.
abbrev pub body : Option (List ℕ) → List ℕ
body none = []
body (some bs) = bs

-- A write that succeeds appends the payload.
pub write_out-body :
    (o : Option (List ℕ)) (n : ℕ) (out : List ℕ)
    → Fits n o
    → (b : Bool) × (write_out true o n out ≡ some (b, out ++ body o))
unfolding write_out
write_out-body none n out h = (n == 0, rw append-nil)
write_out-body (some bs) n out h = (true, rw (load_all bs n (sym h)))

-- One delivery, when the write succeeds.
pub deliver-output :
    (i : ℕ) (p : Pkt) (r r' : Receiver)
    → IsStorable p
    → IsValid r
    → 1 ≤ occupied r.slots
    → deliver true i p r ≡ some r'
    → (r'.output ≡ r.output ++ body p.payload)
      × (r'.seqnum ≡ inc_seqnum r.seqnum)
      × (r'.window ≡ r.window + 1)
      × (r'.buffer ≡ r.buffer)
      × (r'.sent ≡ r.sent)
unfolding deliver
deliver-output i p r r' s v some_taken e =
    let (b, w) = write_out-body p.payload p.length r.output s in ground (arith, w)

pub deliver-slots :
    (done : Bool) (i : ℕ) (p : Pkt) (r r' : Receiver)
    → deliver done i p r ≡ some r'
    → r'.slots ≡ set r.slots i none
unfolding deliver
deliver-slots done i p r r' e = ground arith

pub deliver-buffer :
    (done : Bool) (i : ℕ) (p : Pkt) (r r' : Receiver)
    → deliver done i p r ≡ some r'
    → r'.buffer ≡ r.buffer
unfolding deliver
deliver-buffer done i p r r' e = ground arith

pub deliver-sent :
    (done : Bool) (i : ℕ) (p : Pkt) (r r' : Receiver)
    → deliver done i p r ≡ some r'
    → r'.sent ≡ r.sent
unfolding deliver
deliver-sent done i p r r' e = ground arith

module _ (fuel : ℕ) (writes : ℕ → Bool) (k i : ℕ) (r : Receiver) where
  pub flush_stop : ltb i 31 ≡ false → flush (suc fuel) writes k i r ≡ some r
  unfolding flush
  flush_stop stop = rw (stop, flush)

  pub flush_skip :
      ltb i 31 ≡ true
      → expected_in r.seqnum (get_or r.slots i none) ≡ none
      → flush (suc fuel) writes k i r ≡ flush fuel writes k (i + 1) r
  unfolding flush
  flush_skip go e = rw (go, e, flush)

  pub flush-deliver :
      {p : Pkt} {r' : Receiver}
      → ltb i 31 ≡ true
      → expected_in r.seqnum (get_or r.slots i none) ≡ some p
      → deliver (writes k) i p r ≡ some r'
      → flush (suc fuel) writes k i r ≡ flush fuel writes (k + 1) 1 r'
  unfolding flush
  flush-deliver go e d = rw (go, e, d, flush)

  pub flush_fault :
      {p : Pkt}
      → ltb i 31 ≡ true
      → expected_in r.seqnum (get_or r.slots i none) ≡ some p
      → deliver (writes k) i p r ≡ none
      → flush (suc fuel) writes k i r ≡ none
  unfolding flush
  flush_fault go e d = rw (go, e, d, flush)

-- No slot from 1 up to, but not including, slot `i` holds the expected packet.
abbrev pub NoneBelow : ℕ → Receiver → Type 0
NoneBelow i r = (j : ℕ) → 1 ≤ j → j < i → expected_in r.seqnum (get_or r.slots j none) ≡ none

-- When the loop over the slots ends, no slot but slot 0 holds the expected packet.
pub flush-NoneBelow :
    (fuel : ℕ) (writes : ℕ → Bool) (k i : ℕ) (r r' : Receiver)
    → NoneBelow i r
    → flush fuel writes k i r ≡ some r'
    → NoneBelow 31 r'
flush-NoneBelow zero writes k i r r' below e = unfold flush in cc
flush-NoneBelow (suc fuel) writes k i r r' below e = elim (Bool-cases (ltb i 31)) [
  | inr stop ↦
      let same : r ≡ r' = some-injective r r' (sym (flush_stop fuel writes k i r stop) ∙ e) in
      subst (NoneBelow 31) same (λ j lo hi. below j lo (omega (arith, not_below stop)))
  | inl go ↦ elim (Option-cases (expected_in r.seqnum (get_or r.slots i none))) [
    | inl skip ↦
        flush-NoneBelow fuel writes k (i + 1) r r'
          (λ j lo hi. elim (ℕ_discrete j i) [
            | yes same ↦ rw same skip
            | no ne ↦ below j lo (omega arith)
          ])
          (sym (flush_skip fuel writes k i r go skip) ∙ e)
    | inr (p, found) ↦ elim (Option-cases (deliver (writes k) i p r)) [
      | inl n ↦ absurd (cc (flush_fault fuel writes k i r go found n, e))
      | inr (r1, d) ↦
          flush-NoneBelow fuel writes (k + 1) 1 r1 r' (λ j lo hi. absurd (omega arith))
            (sym (flush-deliver fuel writes k i r go found d) ∙ e)
    ]
  ]
]
  where
    not_below : ltb i 31 ≡ false → 31 ≤ i
    not_below h = ground arith

-- No slot from 1 on holds a packet with the expected number.
abbrev pub IsExhausted : Receiver → Type 0
IsExhausted r =
    (j : ℕ) (q : Pkt) → 1 ≤ j → j < 31 → get_or r.slots j none ≡ some q → q.seqnum ≢ r.seqnum

expected_in-found : (n : ℕ) (q : Pkt) → q.seqnum ≡ n → expected_in n (some q) ≡ some q
expected_in-found n q h = ground arith

pub NoneBelow-IsExhausted : (r : Receiver) → NoneBelow 31 r → IsExhausted r
NoneBelow-IsExhausted r none_left j q lo hi held same =
    let found : expected_in r.seqnum (get_or r.slots j none) ≡ some q =
      ap (expected_in r.seqnum) held ∙ expected_in-found r.seqnum q same in
    absurd (cc (found, none_left j lo hi))
