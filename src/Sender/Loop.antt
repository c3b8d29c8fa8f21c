-- ===== src/Sender/Loop.antt =====
-- The sender's loop over any number of rounds.
use lingi1341_projet.Prelude.{
  ◌≡◌, refl, sym, ap, subst, ◌∙◌, ◌⊎◌, inl, inr, Bool, Option, none, some, List, [], ◌∷◌, ◌++◌, All,
  Option-cases,
}
use mathlib.Core.Option.{some-injective}
use lingi1341_projet.Platform.{Zlib}
use lingi1341_projet.Sender.{Sender, Wake, Turn, go_on, finish}
use lingi1341_projet.Sender.Phases.{round, read_write_loop}
use lingi1341_projet.Sender.Invariant.{IsSound}
use lingi1341_projet.Sender.Reads.{Outcome, IsOverrun, continues, overruns, fails, completes}
use lingi1341_projet.Sender.Rounds.{round-Outcome}

abbrev pub sender_of : Turn → Sender
sender_of (go_on s) = s
sender_of (finish s) = s

module _ (z : Zlib) (is_file : Bool) where
  -- After some of the rounds, a packet has been sent for which there was no slot.
  pub record HasOverrun (ws : List (Option Wake)) (s : Sender) : Type 0 where
    pub before : List (Option Wake)
    pub behind : List (Option Wake)
    pub over : Sender
    pub parts : ws ≡ before ++ behind
    pub reached : read_write_loop z is_file before s ≡ some (go_on over)
    pub unslotted : IsOverrun z over

  loop_next :
      (w : Option Wake) (ws : List (Option Wake)) (s s1 : Sender)
      → round z is_file w s ≡ some (go_on s1)
      → read_write_loop z is_file (w ∷ ws) s ≡ read_write_loop z is_file ws s1
  unfolding read_write_loop
  loop_next w ws s s1 e = rw (e, read_write_loop) refl

  loop_stop :
      (w : Option Wake) (ws : List (Option Wake)) (s s1 : Sender)
      → round z is_file w s ≡ some (finish s1)
      → read_write_loop z is_file (w ∷ ws) s ≡ some (finish s1)
  unfolding read_write_loop
  loop_stop w ws s s1 e = rw (e, read_write_loop) refl

  loop_undefined :
      (w : Option Wake) (ws : List (Option Wake)) (s : Sender)
      → round z is_file w s ≡ none
      → read_write_loop z is_file (w ∷ ws) s ≡ none
  unfolding read_write_loop
  loop_undefined w ws s e = rw (e, read_write_loop) refl

  after_round :
      (w : Option Wake) (s : Sender) (t : Turn)
      → IsSound s
      → round z is_file w s ≡ some t
      → IsSound (sender_of t) ⊎ ((s1 : Sender) × (t ≡ go_on s1) × (IsOverrun z s1))
  unfolding round
  after_round none s t v e =
      inl (subst (λ (u : Turn). IsSound (sender_of u)) (some-injective (finish s) t e) v)
  after_round (some w) s t v e = from_outcome t (round-Outcome z is_file w s t v e)
    where
      from_outcome :
          (u : Turn)
          → Outcome z w.socket w.file u
          → IsSound (sender_of u) ⊎ ((s1 : Sender) × (u ≡ go_on s1) × (IsOverrun z s1))
      from_outcome u (continues s1 v1) = inl v1
      from_outcome u (overruns s1 f) = inr (s1, refl, f)
      from_outcome u (fails s1 v1 h) = inl v1
      from_outcome u (completes s1 v1 o h) = inl v1

  overrun_now :
      (w : Option Wake) (ws : List (Option Wake)) (s s1 : Sender)
      → round z is_file w s ≡ some (go_on s1)
      → IsOverrun z s1
      → HasOverrun (w ∷ ws) s
  unfolding read_write_loop
  overrun_now w ws s s1 e f = record {
    before = w ∷ [];
    behind = ws;
    over = s1;
    parts = refl;
    reached = loop_next w [] s s1 e;
    unslotted = f;
  }

  overrun_later :
      (w : Option Wake) (ws : List (Option Wake)) (s s1 : Sender)
      → round z is_file w s ≡ some (go_on s1)
      → HasOverrun ws s1
      → HasOverrun (w ∷ ws) s
  overrun_later w ws s s1 e o = record {
    before = w ∷ o.before;
    behind = o.behind;
    over = o.over;
    parts = ap (λ (l : List (Option Wake)). w ∷ l) o.parts;
    reached = loop_next w o.before s s1 e ∙ o.reached;
    unslotted = o.unslotted;
  }

  -- What every round keeps, from a sound state and under an event of a kind `K`, holds when the loop has run
  -- from a sound state over such events, unless a packet was sent on the way for which there was no slot.
  pub loop_keeps :
      (K : Option Wake → Type 0) (P : Turn → Type 0)
      → ((w : Option Wake) (s : Sender) (t : Turn)
          → K w
          → IsSound s
          → P (go_on s)
          → round z is_file w s ≡ some t
          → P t)
      → (ws : List (Option Wake)) (s : Sender) (t : Turn) → All K ws
      → IsSound s
      → P (go_on s)
      → read_write_loop z is_file ws s ≡ some t
      → (IsSound (sender_of t) × P t) ⊎ HasOverrun ws s
  unfolding read_write_loop
  loop_keeps K P keeps [] s t ks v h e =
      inl (subst (λ (u : Turn). IsSound (sender_of u) × P u) (some-injective (go_on s) t e) (v, h))
  loop_keeps K P keeps (w ∷ ws) s t ks v h e = elim (Option-cases (round z is_file w s)) [
    | inl n ↦ absurd (cc (e, loop_undefined w ws s n))
    | inr (finish s1, n) ↦ elim (after_round w s (finish s1) v n) [
      | inl v1 ↦ inl (
          subst (λ (u : Turn). IsSound (sender_of u) × P u)
            (some-injective (finish s1) t (sym (loop_stop w ws s s1 n) ∙ e))
            (v1, keeps w s (finish s1) ks.0 v h n))
      | inr (s2, same, _) ↦ absurd (cc (same))
    ]
    | inr (go_on s1, n) ↦ elim (after_round w s (go_on s1) v n) [
      | inl v1 ↦
          elim (loop_keeps K P keeps ws s1 t ks.1 v1 (keeps w s (go_on s1) ks.0 v h n)
            (sym (loop_next w ws s s1 n) ∙ e)) [
              | inl v2 ↦ inl v2
              | inr o ↦ inr (overrun_later w ws s s1 n o)
            ]
      | inr (s2, same, f) ↦ inr (overrun_now w ws s s2 (n ∙ ap some same) f)
    ]
  ]

  -- Every state that the loop reaches from a sound one without undefined behaviour is sound, unless after some of
  -- the rounds the last datagram is a packet that got no slot: it has the next number, which was not advanced,
  -- all slots are taken and 255 are counted as free.
  pub read_write_loop-IsSound :
      (ws : List (Option Wake)) (s : Sender) (t : Turn)
      → IsSound s
      → read_write_loop z is_file ws s ≡ some t
      → IsSound (sender_of t) ⊎ HasOverrun ws s
  read_write_loop-IsSound ws s t v e =
      elim (loop_keeps (λ w. Unit) (λ u. Unit) (λ w s u k v h e. tt) ws s t (any_event ws) v tt e) [
        | inl (sound, _) ↦ inl sound
        | inr o ↦ inr o
      ]
    where
      any_event : (l : List (Option Wake)) → All (λ w. Unit {0}) l
      any_event [] = tt
      any_event (w ∷ l) = (tt, any_event l)
