-- ===== src/Receiver/Delivery.antt =====
-- What a datagram does to the file that the receiver writes, from the wire to the output.
use lingi1341_projet.Prelude.{
  ℕ, ◌+◌, ◌≤◌, ◌<◌, ◌≡◌, refl, sym, ◌∙◌, ◌≢◌, ◌⊎◌, inl, inr, Bool, true, some, List, ◌∷◌, ◌++◌,
  append_assoc, arith, length, Option-cases,
}
use lingi1341_projet.Platform.{Zlib, IsZlib}
use lingi1341_projet.Prelude.Memory.{load_all}
use lingi1341_projet.Packet.{Pkt}
use lingi1341_projet.Packet.Wire.{wire}
use lingi1341_projet.Packet.RoundTrip.{has_memory}
use lingi1341_projet.Seqnum.{inc_seqnum}
use lingi1341_projet.Receiver.{
  Receiver, arrival, continue, write_out, after_write, flush_fuel, in_order, step, keep_inside,
  keep_packet,
}
use lingi1341_projet.Packet.Slots.{occupied-le-length, Contains}
use lingi1341_projet.Receiver.Slots.{keep-Contains, put_first, up_to_free, keep_packet-cases}
use lingi1341_projet.Receiver.Ack.{after_ack, send_ack-after_ack}
use lingi1341_projet.Receiver.Invariant.{IsValid}
use lingi1341_projet.Receiver.Scan.{IsExhausted}
use lingi1341_projet.Receiver.Flush.{
  Consecutive, bodies, advance, Taken, Delivered, flush-Delivered,
}
use lingi1341_projet.Receiver.Branches.{handle_expected, handle_unexpected, out_of_order_lem}
use lingi1341_projet.Receiver.Step.{cleared_buffer, cleared_buffer-IsValid}
use lingi1341_projet.Receiver.Arrivals.{IsData, announced, got, step-got}

module _ (z : Zlib) where
  after_write-Delivered :
      (writes : ℕ → Bool) (r : Receiver)
      → ((j : ℕ) → writes j ≡ true)
      → IsValid r
      → (ps : List Pkt) × (r' : Receiver) × (after_write z writes true r
          ≡ some (continue (after_ack z r')))
        × Delivered r ps r'
        × IsExhausted r'
  unfolding after_write
  after_write-Delivered writes r w v =
      let (ps, r', e, d, x) =
        flush-Delivered flush_fuel writes 1 r w (omega (arith, occupied-le-length r.slots)) v in
      (ps, r', rw (e, send_ack-after_ack z r' d.valid.buffer_len), d, x)

  -- The expected packet, when its payload is written.
  pub in_order-written :
      (writes : ℕ → Bool) (packet : Pkt) (bs : List ℕ) (r : Receiver)
      → writes 0 ≡ true
      → packet.payload ≡ some bs
      → length bs ≡ packet.length
      → in_order z writes packet r
        ≡ after_write z writes true
            (record r { seqnum = inc_seqnum r.seqnum; output = r.output ++ bs })
  unfolding in_order write_out
  in_order-written writes packet bs r w b l = rw (b, load_all bs packet.length (sym l), w)

  in_order-Delivered :
      (writes : ℕ → Bool) (packet : Pkt) (bs : List ℕ) (r : Receiver)
      → ((j : ℕ) → writes j ≡ true)
      → packet.payload ≡ some bs
      → length bs ≡ packet.length
      → IsValid r
      → let r1 = record r { seqnum = inc_seqnum r.seqnum; output = r.output ++ bs } in
        (ps : List Pkt) × (r' : Receiver) × (in_order z writes packet r
          ≡ some (continue (after_ack z r')))
        × Delivered r1 ps r'
        × IsExhausted r'
  in_order-Delivered writes packet bs r w b l v =
      let r1 : Receiver = record r { seqnum = inc_seqnum r.seqnum; output = r.output ++ bs } in
      let v1 : IsValid r1 = record {
        slots_len = v.slots_len;
        free = v.free;
        seqnum_byte = omega arith;
        buffer_len = v.buffer_len;
        cleared = v.cleared;
        stored = v.stored;
      } in
      let (ps, r', e, d, x) = after_write-Delivered writes r1 w v1 in
      (ps, r', in_order-written writes packet bs r (w 0) b l ∙ e, d, x)

module _ (z : Zlib) (p : Pkt) (bs : List ℕ) (r : Receiver) (d : IsData p bs) (v : IsValid r) where
  -- The expected data packet arrives, with memory, and the writes succeed: the round goes on, its payload is
  -- appended to the file, behind it the payloads of packets that are taken from the slots one after the other,
  -- with the numbers that follow, until no slot from 1 on holds the next one; the expected number and the window
  -- advance by that run, and the new state is valid and acknowledged.
  pub step_expected :
      (writes : ℕ → Bool)
      → IsZlib z
      → ((j : ℕ) → writes j ≡ true)
      → p.seqnum ≡ r.seqnum
      → (ps : List Pkt) × (r' : Receiver) × (step z (arrival (some (wire z p)) has_memory writes) r
          ≡ some (continue (after_ack z r')))
        × Consecutive r.seqnum (p ∷ ps)
        × Taken r.slots (inc_seqnum r.seqnum) ps r'.slots
        × IsExhausted r'
        × (r'.output ≡ r.output ++ (bs ++ bodies ps))
        × (r'.seqnum ≡ advance r.seqnum (p ∷ ps))
        × (r'.window ≡ r.window + length ps)
        × IsValid r'
        × (r'.buffer ≡ cleared_buffer (some (wire z p)) r)
        × (r'.sent ≡ r.sent)
  step_expected writes iz w n =
      let r0 : Receiver = record r { buffer = cleared_buffer (some (wire z p)) r } in
      let (ps, r', e, x, y) =
        in_order-Delivered z writes (got z p bs r d v) bs r0 w refl (announced z p bs r d v)
          (cleared_buffer-IsValid (some (wire z p)) r v) in
      (
        ps,
        r',
        step-got z p bs r d v writes iz
            ∙ handle_expected z writes (got z p bs r d v) r0 d.is_data n
            ∙ e,
        (n, x.run),
        x.taken,
        y,
        x.written ∙ append_assoc r.output bs (bodies ps),
        x.number,
        x.freed,
        x.valid,
        x.same_buffer,
        x.same_sent,
      )

  kept : Receiver
  kept = keep_inside (got z p bs r d v) (record r { buffer = cleared_buffer (some (wire z p)) r })

  kept-output : (kept.output ≡ r.output) × (kept.seqnum ≡ r.seqnum) × (kept.sent ≡ r.sent)
  unfolding kept
  kept-output = elim (Option-cases (keep_packet (got z p bs r d v) r.slots)) [
    | inl e ↦ ground arith
    | inr (s, e) ↦ ground arith
  ]

  kept-Contains :
      r.seqnum < p.seqnum → p.seqnum < r.seqnum + r.window → Contains p.seqnum kept.slots
  unfolding kept
  kept-Contains above below =
      let c = keep-Contains (got z p bs r d v) r.slots (omega (arith, v.free, v.slots_len)) in
      elim (Option-cases (keep_packet (got z p bs r d v) r.slots)) [
        | inl e ↦ ground (arith, c)
        | inr (s, e) ↦ ground (arith, c)
      ]

  -- A packet with the number and the payload that was sent, and what becomes of it in the slots.
  kept-slots :
      r.seqnum < p.seqnum
      → p.seqnum < r.seqnum + r.window
      → ((Contains p.seqnum (up_to_free r.slots))
          × (kept.slots ≡ r.slots)
          × (kept.window ≡ r.window))
        ⊎ ((¬ Contains p.seqnum (up_to_free r.slots))
            × (kept.slots ≡ put_first (got z p bs r d v) r.slots)
            × (kept.window + 1 ≡ r.window))
  unfolding kept
  kept-slots above below =
      elim (keep_packet-cases (got z p bs r d v) r.slots (omega (arith, v.free, v.slots_len))) [
        | inl (e, there) ↦ inl (there, ground arith, ground arith)
        | inr (e, new) ↦ inr (new, ground arith, ground (arith, v.free))
      ]

  kept-outside :
      (p.seqnum ≤ r.seqnum) ⊎ (r.seqnum + r.window ≤ p.seqnum)
      → (kept.slots ≡ r.slots) × (kept.window ≡ r.window)
  unfolding kept
  kept-outside h = ground arith

  step-kept :
      (writes : ℕ → Bool)
      → IsZlib z
      → p.seqnum ≢ r.seqnum
      → step z (arrival (some (wire z p)) has_memory writes) r ≡ some (continue (after_ack z kept))
  unfolding kept
  step-kept writes iz n =
      let r0 : Receiver = record r { buffer = cleared_buffer (some (wire z p)) r } in
      step-got z p bs r d v writes iz
      ∙ handle_unexpected z writes (got z p bs r d v) r0 d.is_data n
      ∙ (out_of_order_lem z (got z p bs r d v) r0 (announced z p bs r d v)
          (cleared_buffer-IsValid (some (wire z p)) r v)).0

  -- A data packet whose number is above the expected one and inside the window arrives, with memory: it changes
  -- neither the file nor the expected number, which is acknowledged again, and a packet with its number is in a
  -- slot afterwards. If one is in a slot before the first free one, slots and window stay as they are; otherwise a
  -- packet with its number, length and payload goes into the first free slot, the other slots stay as they
  -- are, and the window shrinks by one.
  pub step_inside :
      (writes : ℕ → Bool)
      → IsZlib z
      → r.seqnum < p.seqnum
      → p.seqnum < r.seqnum + r.window
      → (r' : Receiver) × (step z (arrival (some (wire z p)) has_memory writes) r
          ≡ some (continue (after_ack z r')))
        × (r'.output ≡ r.output)
        × (r'.seqnum ≡ r.seqnum)
        × Contains p.seqnum r'.slots
        × (q : Pkt) × (q.seqnum ≡ p.seqnum)
        × (q.length ≡ p.length)
        × (q.payload ≡ some bs)
        × (((Contains p.seqnum (up_to_free r.slots))
              × (r'.slots ≡ r.slots)
              × (r'.window ≡ r.window))
            ⊎ ((¬ Contains p.seqnum (up_to_free r.slots))
                × (r'.slots ≡ put_first q r.slots)
                × (r'.window + 1 ≡ r.window)))
  step_inside writes iz above below = (
    kept,
    step-kept writes iz (λ e. omega arith),
    kept-output.0,
    kept-output.1,
    kept-Contains above below,
    got z p bs r d v,
    refl,
    refl,
    refl,
    kept-slots above below,
  )

  -- Any other data packet that is not expected, such as a packet that was delivered before, is dropped:
  -- file, slots, window and expected number stay, and the expected number is acknowledged again.
  pub step_outside :
      (writes : ℕ → Bool)
      → IsZlib z
      → p.seqnum ≢ r.seqnum
      → (p.seqnum ≤ r.seqnum) ⊎ (r.seqnum + r.window ≤ p.seqnum)
      → (r' : Receiver) × (step z (arrival (some (wire z p)) has_memory writes) r
          ≡ some (continue (after_ack z r')))
        × (r'.output ≡ r.output)
        × (r'.seqnum ≡ r.seqnum)
        × (r'.slots ≡ r.slots)
        × (r'.window ≡ r.window)
  step_outside writes iz n h = (
    kept,
    step-kept writes iz n,
    kept-output.0,
    kept-output.1,
    (kept-outside h).0,
    (kept-outside h).1,
  )
