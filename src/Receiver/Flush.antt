-- ===== src/Receiver/Flush.antt =====
-- The loop that delivers packets from the slots: it ends, keeps the invariant and delivers a run of
-- consecutive packets.
use lingi1341_projet.Prelude.{
  ℕ, zero, suc, ◌+◌, ◌-◌, ◌*◌, ◌≤◌, ◌<◌, ◌≡◌, refl, sym, ap, subst, ◌∙◌, inl, inr, Bool, true,
  Option, none, some, List, [], ◌∷◌, ◌++◌, append_assoc, append-nil, arith, length, get_or, set,
  ltb, ltb→lt, Bool-cases, Option-cases,
}
use lingi1341_projet.Packet.{Pkt}
use lingi1341_projet.Seqnum.{inc_seqnum}
use lingi1341_projet.Receiver.{Receiver, expected_in, deliver, flush}
use lingi1341_projet.Packet.Slots.{occupied, Holds, get-Holds}
use lingi1341_projet.Receiver.Scan.{
  expected_in-some, body, deliver-output, deliver-slots, flush_stop, flush_skip, flush-deliver,
  flush-NoneBelow, IsExhausted, NoneBelow-IsExhausted,
}
use lingi1341_projet.Receiver.Invariant.{IsValid, IsStorable, deliver-IsValid}

-- Packets with the numbers from `n` on.
abbrev pub Consecutive : ℕ → List Pkt → Type 0
Consecutive n [] = Unit {0}
Consecutive n (p ∷ ps) = (p.seqnum ≡ n) × Consecutive (inc_seqnum n) ps

-- The bytes that packets hold, in order.
abbrev pub bodies : List Pkt → List ℕ
bodies [] = []
bodies (p ∷ ps) = body p.payload ++ bodies ps

abbrev pub advance : ℕ → List Pkt → ℕ
advance n [] = n
advance n (p ∷ ps) = advance (inc_seqnum n) ps

-- The packets are taken one after the other, each with the next number from `n` on and from a slot that holds
-- it, which is then empty; `after` are the slots at the end.
abbrev pub Taken : List (Option Pkt) → ℕ → List Pkt → List (Option Pkt) → Type 0
Taken slots n [] after = after ≡ slots
Taken slots n (p ∷ ps) after =
    (i : ℕ) × (get_or slots i none ≡ some p)
    × (p.seqnum ≡ n)
    × Taken (set slots i none) (inc_seqnum n) ps after

-- The state `r'` after the packets `ps` were delivered from the slots of `r`.
pub record Delivered (r : Receiver) (ps : List Pkt) (r' : Receiver) : Type 0 where
  pub valid : IsValid r'
  pub run : Consecutive r.seqnum ps
  pub taken : Taken r.slots r.seqnum ps r'.slots
  pub number : r'.seqnum ≡ advance r.seqnum ps
  pub written : r'.output ≡ r.output ++ bodies ps
  pub freed : r'.window ≡ r.window + length ps
  pub same_buffer : r'.buffer ≡ r.buffer
  pub same_sent : r'.sent ≡ r.sent

Delivered-none : (r : Receiver) → IsValid r → Delivered r [] r
Delivered-none r v = record {
  valid = v;
  run = tt;
  taken = refl;
  number = refl;
  written = sym (append-nil r.output);
  freed = omega arith;
  same_buffer = refl;
  same_sent = refl;
}

-- A delivery and then a run of deliveries.
Delivered-cons :
    (p : Pkt) (ps : List Pkt) (i : ℕ) (r r1 r2 : Receiver)
    → get_or r.slots i none ≡ some p
    → p.seqnum ≡ r.seqnum
    → r1.slots ≡ set r.slots i none
    → (r1.output ≡ r.output ++ body p.payload)
      × (r1.seqnum ≡ inc_seqnum r.seqnum)
      × (r1.window ≡ r.window + 1)
      × (r1.buffer ≡ r.buffer)
      × (r1.sent ≡ r.sent)
    → Delivered r1 ps r2
    → Delivered r (p ∷ ps) r2
Delivered-cons p ps i r r1 r2 held e emptied (out, number, freed, buffer, sent) d = record {
  valid = d.valid;
  run = (e, subst (λ (n : ℕ). Consecutive n ps) number d.run);
  taken = (
    i,
    held,
    e,
    subst (λ (n : ℕ). Taken (set r.slots i none) n ps r2.slots) number
        (subst (λ (t : List (Option Pkt)). Taken t r1.seqnum ps r2.slots) emptied d.taken),
  );
  number = d.number ∙ ap (λ (n : ℕ). advance n ps) number;
  written =
      d.written
      ∙ ap (λ (o : List ℕ). o ++ bodies ps) out
      ∙ append_assoc r.output (body p.payload) (bodies ps);
  freed = omega (arith, d.freed);
  same_buffer = d.same_buffer ∙ buffer;
  same_sent = d.same_sent ∙ sent;
}

-- From any slot on, with fuel for a scan of the slots after each delivery.
flush_run :
    (fuel : ℕ) (writes : ℕ → Bool) (k i : ℕ) (r : Receiver)
    → ((j : ℕ) → writes j ≡ true)
    → i ≤ 31
    → 32 * occupied r.slots + (31 - i) < fuel
    → IsValid r
    → (ps : List Pkt) × (r' : Receiver) × (flush fuel writes k i r ≡ some r') × Delivered r ps r'
flush_run zero writes k i r w hi m v = absurd (omega arith)
flush_run (suc fuel) writes k i r w hi m v = elim (Bool-cases (ltb i 31)) [
  | inr stop ↦ ([], r, flush_stop fuel writes k i r stop, Delivered-none r v)
  | inl go ↦ elim (Option-cases (expected_in r.seqnum (get_or r.slots i none))) [
    | inl skip ↦
        let (ps, r', e, d) =
          flush_run fuel writes k (i + 1) r w (omega (arith, ltb→lt i 31 go))
            (omega (arith, ltb→lt i 31 go)) v in
        (ps, r', flush_skip fuel writes k i r go skip ∙ e, d)
    | inr (p, found) ↦
        let (held, number) = expected_in-some r.seqnum (get_or r.slots i none) p found in
        let (r1, e1, v1, less) = deliver-IsValid (writes k) i p r held v in
        let stored : IsStorable p =
          subst (Holds IsStorable) held (get-Holds IsStorable r.slots i v.stored) in
        let (ps, r', e, d) =
          flush_run fuel writes (k + 1) 1 r1 w (omega arith) (omega (arith, ltb→lt i 31 go)) v1 in
        (
          p ∷ ps,
          r',
          flush-deliver fuel writes k i r go found e1 ∙ e,
          Delivered-cons p ps i r r1 r' held number (deliver-slots (writes k) i p r r1 e1)
              (deliver-output i p r r1 stored v (omega arith) (rw (← w k) e1)) d,
        )
  ]
]

-- With fuel for a scan of the slots after each delivery, and when the writes succeed, the loop ends in a
-- valid state. It has delivered a run of packets from the slots, with the numbers from the expected one on, and
-- no slot from 1 on holds the packet that is expected then.
pub flush-Delivered :
    (fuel : ℕ) (writes : ℕ → Bool) (k : ℕ) (r : Receiver)
    → ((j : ℕ) → writes j ≡ true)
    → 32 * occupied r.slots + 31 < fuel
    → IsValid r
    → (ps : List Pkt) × (r' : Receiver) × (flush fuel writes k 0 r ≡ some r')
      × Delivered r ps r'
      × IsExhausted r'
flush-Delivered fuel writes k r w m v =
    let (ps, r', e, d) = flush_run fuel writes k 0 r w (omega arith) m v in
    (
      ps,
      r',
      e,
      d,
      NoneBelow-IsExhausted r'
          (flush-NoneBelow fuel writes k 0 r r' (λ j lo hi. absurd (omega arith)) e),
    )

-- What a delivery keeps, the loop keeps, which ends in a valid state whatever the writes answer.
pub flush-preserves {ℓ} :
    (P : Receiver → Type ℓ) (writes : ℕ → Bool)
    → ((k i : ℕ) (p : Pkt) (r r' : Receiver)
        → IsValid r
        → get_or r.slots i none ≡ some p
        → p.seqnum ≡ r.seqnum
        → deliver (writes k) i p r ≡ some r'
        → P r
        → P r')
    → (fuel k i : ℕ) (r : Receiver) → i ≤ 31
    → 32 * occupied r.slots + (31 - i) < fuel
    → IsValid r
    → P r
    → (r' : Receiver) × (flush fuel writes k i r ≡ some r') × IsValid r' × P r'
flush-preserves P writes keeps zero k i r hi m v h = absurd (omega arith)
flush-preserves P writes keeps (suc fuel) k i r hi m v h = elim (Bool-cases (ltb i 31)) [
  | inr stop ↦ (r, flush_stop fuel writes k i r stop, v, h)
  | inl go ↦ elim (Option-cases (expected_in r.seqnum (get_or r.slots i none))) [
    | inl skip ↦
        let (r', e, v', h') =
          flush-preserves P writes keeps fuel k (i + 1) r (omega (arith, ltb→lt i 31 go))
            (omega (arith, ltb→lt i 31 go)) v h in
        (r', flush_skip fuel writes k i r go skip ∙ e, v', h')
    | inr (p, found) ↦
        let (held, number) = expected_in-some r.seqnum (get_or r.slots i none) p found in
        let (r1, e1, v1, less) = deliver-IsValid (writes k) i p r held v in
        let (r', e, v', h') =
          flush-preserves P writes keeps fuel (k + 1) 1 r1 (omega arith)
            (omega (arith, ltb→lt i 31 go)) v1 (keeps k i p r r1 v held number e1 h) in
        (r', flush-deliver fuel writes k i r go found e1 ∙ e, v', h')
  ]
]
