-- ===== src/Draft/Seqnum.antt =====
-- The sequence numbers of the earlier version: inc_seqnum and compare_seqnum of
-- src/transport_interface.c.
mod Tests
use lingi1341_projet.Prelude.{
  ℕ, zero, suc, ◌+◌, ◌-◌, ◌*◌, ◌/◌, ◌%◌, ◌^◌, ◌≤◌, ◌<◌, ◌≡◌, refl, sym, ap, ap₂, subst, ◌∙◌, ◌≢◌,
  ◌↔◌, ◌⊎◌, inl, inr, Bool, true, false, ◌&&◌, ◌||◌, not, Option, none, some, List, [], ◌∷◌, ◌++◌,
  map, append_assoc, append-nil, arith, ◌>>=◌, length, get_or, set, take, drop, replicate, All,
  length-append, length-take, length-take_le, length-drop, length-replicate, length-set,
  take-append, drop-append, drop-nil, drop-drop, drop_past, length_zero, take-take, take-all, ltb,
  leb, ◌==◌, if◌then◌else◌, ltb→lt, lt→ltb, leb→le, ==_iff, Bool-cases, Option-cases,
}
use lingi1341_projet.Prelude.Ints.{ℤ, pos, negsuc}

-- `seqnum++` gives the number before it is incremented.
unfoldable pub inc_seqnum : ℕ → ℕ
inc_seqnum seqnum = if seqnum == 255 then 0 else seqnum

unfoldable pub compare_seqnum : ℕ → ℕ → ℤ
compare_seqnum seqnum1 seqnum2 =
    if ltb seqnum1 seqnum2
    then pos 0
    else if ltb (255 - 1) seqnum1 && (seqnum2 == 0)
    then pos 0
    else if seqnum1 == seqnum2
    then pos 1
    else negsuc 0

abbrev pub iterate : ℕ → ℕ → ℕ
iterate zero n = n
iterate (suc k) n = iterate k (inc_seqnum n)

-- However often a number below 255 is incremented, it stays what it is.
pub inc_seqnum_stays : (k n : ℕ) → n < 255 → iterate k n ≡ n
unfolding inc_seqnum
inc_seqnum_stays zero n h = refl
inc_seqnum_stays (suc k) n h = rw (below n h) (inc_seqnum_stays k n h)
  where
    below : (m : ℕ) → m < 255 → (m == 255) ≡ false
    below m q = ground arith

-- Two numbers of one byte compare as 1 exactly if they are equal, and as 0 exactly if the first is
-- below the second or they are the last number and 0.
pub compare_seqnum_lem :
    (a b : ℕ)
    → a < 256
    → b < 256
    → ((compare_seqnum a b ≡ pos 1) × (a ≡ b))
      ⊎ ((compare_seqnum a b ≡ pos 0) × ((a < b) ⊎ ((a ≡ 255) × (b ≡ 0))))
      ⊎ ((compare_seqnum a b ≡ negsuc 0) × (b < a) × ((a ≢ 255) ⊎ (b ≢ 0)))
unfolding compare_seqnum
compare_seqnum_lem a b ha hb = ground arith
