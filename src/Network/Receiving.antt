-- ===== src/Network/Receiving.antt =====
-- A round of the receiver on a datagram with a piece of the file, whether it is the expected one, a
-- later one or an earlier one.
use lingi1341_projet.Prelude.{
  ℕ, suc, ◌+◌, ◌≤◌, ◌<◌, ◌≡◌, refl, sym, ap, subst, ◌∙◌, ◌≢◌, inl, inr, Bool, true, ◌&&◌, Option,
  none, some, List, ◌++◌, arith, length, get_or, take, All, ltb, Bool-cases, Option-cases,
}
use mathlib.Core.List.{flatten}
use native.Mathlib.Decide.{ℕ_discrete}
use lingi1341_projet.Platform.{Zlib, IsZlib}
use lingi1341_projet.Packet.{Pkt}
use lingi1341_projet.Packet.Wire.{wire}
use lingi1341_projet.Packet.RoundTrip.{has_memory}
use lingi1341_projet.Packet.Slots.{Holds, get-Holds, set-All, free-occupied}
use lingi1341_projet.Seqnum.{inc_seqnum}
use lingi1341_projet.Receiver.{
  Receiver, arrival, continue, step, deliver, keep_inside, keep_packet, after_keep, Round,
}
use lingi1341_projet.Receiver.Ack.{after_ack}
use lingi1341_projet.Receiver.Answers.{IsCleared, cleared_buffer-IsCleared}
use lingi1341_projet.Receiver.Branches.{
  handle_expected, handle_unexpected, out_of_order_lem, keep_inside-same, after_write-preserves,
}
use lingi1341_projet.Receiver.Arrivals.{announced, got, step-got}
use lingi1341_projet.Receiver.Delivery.{in_order-written}
use lingi1341_projet.Receiver.Scan.{body, deliver-output, deliver-slots}
use lingi1341_projet.Receiver.Invariant.{IsValid, IsStorable, after_keep-IsValid}
use lingi1341_projet.Receiver.Slots.{keep-All}
use lingi1341_projet.Receiver.Step.{cleared_buffer, cleared_buffer-IsValid}
use lingi1341_projet.Network.Chunks.{IsNumbered, IsChunk, get_elem?, get_elem?-lt, flatten-take}
use lingi1341_projet.Network.Invariant.{HasPieces}

-- What the deliveries from the slots keep, from a state with the expected number `low`.
record Delivering (chunks : List (List ℕ)) (low : ℕ) (buffer : List ℕ) (sent : List (List ℕ))
    (r : Receiver) : Type 0 where
  stored : All (Holds (IsNumbered chunks)) r.slots
  written : r.output ≡ flatten (take r.seqnum chunks)
  within : r.seqnum ≤ length chunks
  above : low ≤ r.seqnum
  same_buffer : r.buffer ≡ buffer
  same_sent : r.sent ≡ sent

-- The next piece.
next_piece :
    (chunks : List (List ℕ)) (c : List ℕ) (n : ℕ)
    → length chunks ≤ 255
    → get_elem? chunks n ≡ some c
    → (inc_seqnum n ≡ suc n)
      × (suc n ≤ length chunks)
      × (flatten (take n chunks) ++ c ≡ flatten (take (inc_seqnum n) chunks))
next_piece chunks c n few e =
    let below : n < length chunks = get_elem?-lt chunks n c e in
    let same : inc_seqnum n ≡ suc n = omega arith in
    (
      same,
      omega arith,
      sym (flatten-take chunks n c e) ∙ ap (λ (k : ℕ). flatten (take k chunks)) (sym same),
    )

deliver-Delivering :
    (chunks : List (List ℕ)) (low : ℕ) (buffer : List ℕ) (sent : List (List ℕ)) (i : ℕ) (p : Pkt)
    (x y : Receiver)
    → length chunks ≤ 255
    → IsValid x
    → get_or x.slots i none ≡ some p
    → p.seqnum ≡ x.seqnum
    → deliver true i p x ≡ some y
    → Delivering chunks low buffer sent x
    → Delivering chunks low buffer sent y
deliver-Delivering chunks low buffer sent i p x y few v held number e h =
    let fits : IsStorable p =
      subst (Holds IsStorable) held (get-Holds IsStorable x.slots i v.stored) in
    let piece : IsNumbered chunks p =
      subst (Holds (IsNumbered chunks)) held (get-Holds (IsNumbered chunks) x.slots i h.stored) in
    let (out, next, _, same_buffer, same_sent) =
      deliver-output i p x y fits v (omega (arith, free-occupied x.slots i p held)) e in
    let (one_more, within, text) =
      next_piece chunks (body p.payload) x.seqnum few
        (subst (λ (n : ℕ). get_elem? chunks n ≡ some (body p.payload)) number piece) in
    record {
      stored =
          subst (All (Holds (IsNumbered chunks))) (sym (deliver-slots true i p x y e))
            (set-All (IsNumbered chunks) x.slots i h.stored);
      written =
          out
          ∙ ap (λ (o : List ℕ). o ++ body p.payload) h.written
          ∙ text
          ∙ ap (λ (n : ℕ). flatten (take n chunks)) (sym next);
      within = omega (arith, next, one_more, within);
      above = omega (arith, next, one_more, h.above);
      same_buffer = same_buffer ∙ h.same_buffer;
      same_sent = same_sent ∙ h.same_sent;
    }

-- How a round answers a piece: the file holds the pieces up to a number that is not smaller than
-- before, and greater if the piece was the expected one.
pub record Answered (z : Zlib) (chunks : List (List ℕ)) (p : Pkt) (r : Receiver) (o : Option Round)
    : Type 0 where
  pub after : Receiver
  pub answers : o ≡ some (continue (after_ack z after))
  pub pieces : HasPieces chunks after
  pub not_back : r.seqnum ≤ after.seqnum
  pub ahead : p.seqnum ≡ r.seqnum → r.seqnum < after.seqnum
  pub clear : IsCleared after.buffer
  pub same_sent : after.sent ≡ r.sent

module _ (z : Zlib) (chunks : List (List ℕ)) (p : Pkt) (r : Receiver) (few : length chunks ≤ 255)
    (c : IsChunk chunks p) (h : HasPieces chunks r) where
  abbrev bs : List ℕ
  bs = body p.payload

  abbrev r0 : Receiver
  r0 = record r { buffer = cleared_buffer (some (wire z p)) r }

  v0 : IsValid r0
  v0 = cleared_buffer-IsValid (some (wire z p)) r h.valid

  clear0 : IsCleared r0.buffer
  clear0 = cleared_buffer-IsCleared z (some (wire z p)) r h.valid

  abbrev packet : Pkt
  packet = got z p bs r c.data_packet h.valid

  expected_piece :
      (writes : ℕ → Bool)
      → IsZlib z
      → ((k : ℕ) → writes k ≡ true)
      → p.seqnum ≡ r.seqnum
      → Answered z chunks p r (step z (arrival (some (wire z p)) has_memory writes) r)
  expected_piece writes iz w n =
      let r1 : Receiver = record r0 { seqnum = inc_seqnum r.seqnum; output = r.output ++ bs } in
      let v1 : IsValid r1 = record {
        slots_len = v0.slots_len;
        free = v0.free;
        seqnum_byte = omega arith;
        buffer_len = v0.buffer_len;
        cleared = v0.cleared;
        stored = v0.stored;
      } in
      let (one_more, within, text) =
        next_piece chunks bs r.seqnum few
          (subst (λ (k : ℕ). get_elem? chunks k ≡ some bs) n c.numbered) in
      let (r2, e, v2, d) =
        after_write-preserves z (Delivering chunks (suc r.seqnum) r0.buffer r.sent) writes r1
          (λ k i q x y u held number e.
            deliver-Delivering chunks (suc r.seqnum) r0.buffer r.sent i q x y few u held number
              (rw (← w k) e))
          v1
          record {
            stored = h.stored;
            written = ap (λ (o : List ℕ). o ++ bs) h.written ∙ text;
            within = omega (arith, one_more, within);
            above = omega (arith, one_more);
            same_buffer = refl;
            same_sent = refl;
          } in
      record {
        after = r2;
        answers =
            step-got z p bs r c.data_packet h.valid writes iz
            ∙ handle_expected z writes packet r0 c.data_packet.is_data n
            ∙ in_order-written z writes packet bs r0 (w 0) refl
                (announced z p bs r c.data_packet h.valid)
            ∙ e;
        pieces = record { valid = v2; stored = d.stored; written = d.written; within = d.within };
        not_back = omega (arith, d.above);
        ahead = λ same. omega (arith, d.above);
        clear = subst IsCleared (sym d.same_buffer) clear0;
        same_sent = d.same_sent;
      }

  kept_pieces : HasPieces chunks (keep_inside packet r0)
  kept_pieces = elim (Bool-cases (ltb p.seqnum (r.seqnum + r.window) && ltb r.seqnum p.seqnum)) [
    | inr out ↦ rw out pieces0
    | inl inside ↦ rw inside (elim (Option-cases (keep_packet packet r.slots)) [
      | inl e ↦ rw e pieces0
      | inr (slots, e) ↦ rw e record {
        valid =
            subst (λ (t : Option (List (Option Pkt))). IsValid (after_keep r0 t)) e
              (after_keep-IsValid packet r0 (announced z p bs r c.data_packet h.valid) v0);
        stored = keep-All (IsNumbered chunks) packet r.slots slots c.numbered h.stored e;
        written = h.written;
        within = h.within;
      }
    ])
  ]
    where
      pieces0 : HasPieces chunks r0
      pieces0 = record { valid = v0; stored = h.stored; written = h.written; within = h.within }

  kept_seqnum : (keep_inside packet r0).seqnum ≡ r.seqnum
  kept_seqnum = elim (Option-cases (keep_packet packet r.slots)) [
    | inl e ↦ ground arith
    | inr (s, e) ↦ ground arith
  ]

  other_piece :
      (writes : ℕ → Bool)
      → IsZlib z
      → p.seqnum ≢ r.seqnum
      → Answered z chunks p r (step z (arrival (some (wire z p)) has_memory writes) r)
  other_piece writes iz n =
      let (same_buffer, same_sent) = keep_inside-same packet r0 in
      record {
        after = keep_inside packet r0;
        answers =
            step-got z p bs r c.data_packet h.valid writes iz
            ∙ handle_unexpected z writes packet r0 c.data_packet.is_data n
            ∙ (out_of_order_lem z packet r0 (announced z p bs r c.data_packet h.valid) v0).0;
        pieces = kept_pieces;
        not_back = omega (arith, kept_seqnum);
        ahead = λ same. absurd (n same);
        clear = subst IsCleared (sym same_buffer) clear0;
        same_sent = same_sent;
      }

  pub piece-Answered :
      (writes : ℕ → Bool)
      → IsZlib z
      → ((k : ℕ) → writes k ≡ true)
      → Answered z chunks p r (step z (arrival (some (wire z p)) has_memory writes) r)
  piece-Answered writes iz w = elim (ℕ_discrete p.seqnum r.seqnum) [
    | yes n ↦ expected_piece writes iz w n
    | no n ↦ other_piece writes iz n
  ]
