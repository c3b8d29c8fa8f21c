-- ===== src/Receiver/Branches.antt =====
-- The branches that receiver_loop takes on a packet: each keeps the invariant and answers.
use lingi1341_projet.Prelude.{
  ℕ, ◌+◌, ◌≡◌, refl, ap, ◌∙◌, ◌≢◌, ◌⊎◌, inl, inr, Bool, true, false, ◌&&◌, Option, none, some, List,
  arith, get_or, drop, replicate, length-append, length-drop, length-replicate, ltb, Bool-cases,
  Option-cases,
}
use lingi1341_projet.Prelude.Memory.{load}
use lingi1341_projet.Platform.{Zlib}
use lingi1341_projet.Packet.{Pkt, Status, pkt_ok}
use native.Mathlib.Decide.{ℕ_discrete}
use lingi1341_projet.Seqnum.{inc_seqnum}
use lingi1341_projet.Receiver.{
  Receiver, Round, continue, break, deliver, flush_fuel, keep_inside, keep_packet, write_out,
  after_write, out_of_order, in_order, handle,
}
use lingi1341_projet.Packet.Slots.{occupied-le-length}
use lingi1341_projet.Receiver.Ack.{after_ack, ack_buffer, length-ack_buffer, send_ack-after_ack}
use lingi1341_projet.Receiver.Invariant.{IsValid, IsStorable, after_keep-IsValid, write_out_inside}
use lingi1341_projet.Receiver.Scan.{deliver-buffer, deliver-sent}
use lingi1341_projet.Receiver.Flush.{flush-preserves}

-- The state at the end of a round.
abbrev pub state : Round → Receiver
state (continue r) = r
state (break r) = r

-- How a round may end from the state `r` in which a packet is handled: it goes on with nothing done,
-- it goes on with an acknowledgement, or the expected packet could not be written and the loop ends.
pub data Ends (z : Zlib) (writes : ℕ → Bool) (p : Pkt) (r : Receiver) : Round → Type 0 where
  idle : Ends z writes p r (continue r)
  answers :
      (r1 : Receiver)
      → IsValid r1
      → r1.buffer ≡ r.buffer
      → r1.sent ≡ r.sent
      → Ends z writes p r (continue (after_ack z r1))
  stops :
      (r1 : Receiver)
      → r1.sent ≡ r.sent
      → p.type ≡ 1
      → p.seqnum ≡ r.seqnum
      → (writes 0 ≡ false) ⊎ (p.payload ≡ none)
      → Ends z writes p r (break r1)

pub keep_inside-same :
    (packet : Pkt) (r : Receiver)
    → ((keep_inside packet r).buffer ≡ r.buffer) × ((keep_inside packet r).sent ≡ r.sent)
keep_inside-same packet r = elim (Option-cases (keep_packet packet r.slots)) [
  | inl e ↦ ground arith
  | inr (s, e) ↦ ground arith
]

write_out_fails :
    (done : Bool) (o : Option (List ℕ)) (n : ℕ) (out : List ℕ) (w : Bool × List ℕ)
    → write_out done o n out ≡ some w
    → w.0 ≡ false
    → (done ≡ false) ⊎ (o ≡ none)
unfolding write_out
write_out_fails done none n out w e f = inr refl
write_out_fails false (some body) n out w e f = inl refl
write_out_fails true (some body) n out w e f = elim (Option-cases (load body 0 n)) [
  | inl l ↦ ground arith
  | inr (bs, l) ↦ ground arith
]

module _ (z : Zlib) where
  pub after_ack-IsValid : (r : Receiver) → IsValid r → IsValid (after_ack z r)
  after_ack-IsValid r v = record {
    slots_len = v.slots_len;
    free = v.free;
    seqnum_byte = v.seqnum_byte;
    buffer_len = omega (
      arith,
      length-append (replicate 512 0) (drop 512 (ack_buffer z r)),
      length-replicate {A = ℕ} 512 0,
      length-drop 512 (ack_buffer z r),
      length-ack_buffer z r v.buffer_len,
    );
    cleared = omega arith;
    stored = v.stored;
  }

  pub keep_inside-IsValid :
      (packet : Pkt) (r : Receiver) → IsStorable packet → IsValid r → IsValid (keep_inside packet r)
  keep_inside-IsValid packet r s v =
      elim (Bool-cases (ltb packet.seqnum (r.seqnum + r.window) && ltb r.seqnum packet.seqnum)) [
        | inl e ↦ rw e (after_keep-IsValid packet r s v)
        | inr e ↦ rw e v
      ]

  -- An unexpected data packet is kept if it is inside the window, and is answered.
  pub out_of_order_lem :
      (packet : Pkt) (r : Receiver)
      → IsStorable packet
      → IsValid r
      → (out_of_order z packet r ≡ some (continue (after_ack z (keep_inside packet r))))
        × IsValid (after_ack z (keep_inside packet r))
  unfolding out_of_order
  out_of_order_lem packet r s v =
      let v' = keep_inside-IsValid packet r s v in
      (
        rw (send_ack-after_ack z (keep_inside packet r) v'.buffer_len),
        after_ack-IsValid (keep_inside packet r) v',
      )

  -- What the deliveries keep holds when the round is answered.
  pub after_write-preserves {ℓ} :
      (P : Receiver → Type ℓ) (writes : ℕ → Bool) (r : Receiver)
      → ((k i : ℕ) (p : Pkt) (x y : Receiver)
          → IsValid x
          → get_or x.slots i none ≡ some p
          → p.seqnum ≡ x.seqnum
          → deliver (writes k) i p x ≡ some y
          → P x
          → P y)
      → IsValid r
      → P r
      → (r1 : Receiver) × (after_write z writes true r ≡ some (continue (after_ack z r1)))
        × IsValid r1
        × P r1
  unfolding after_write
  after_write-preserves P writes r keeps v h =
      let (r1, e, v1, h1) =
        flush-preserves P writes keeps flush_fuel 1 0 r (omega arith)
          (omega (arith, occupied-le-length r.slots)) v h in
      (r1, rw (e, send_ack-after_ack z r1 v1.buffer_len), v1, h1)

  after_write-true :
      (writes : ℕ → Bool) (r : Receiver)
      → IsValid r
      → (r1 : Receiver) × (after_write z writes true r ≡ some (continue (after_ack z r1)))
        × IsValid r1
        × (r1.buffer ≡ r.buffer)
        × (r1.sent ≡ r.sent)
  after_write-true writes r v =
      let (r1, e1, v1, (b1, s1)) =
        after_write-preserves (λ (x : Receiver). (x.buffer ≡ r.buffer) × (x.sent ≡ r.sent)) writes r
          (λ k i p x y u held number e (b, s).
            (deliver-buffer (writes k) i p x y e ∙ b, deliver-sent (writes k) i p x y e ∙ s))
          v (refl, refl) in
      (r1, e1, v1, b1, s1)

  pub in_order_lem :
      (writes : ℕ → Bool) (packet : Pkt) (r : Receiver) (w : Bool × List ℕ)
      → write_out (writes 0) packet.payload packet.length r.output ≡ some w
      → in_order z writes packet r
        ≡ after_write z writes w.0 (record r { seqnum = inc_seqnum r.seqnum; output = w.1 })
  unfolding in_order
  in_order_lem writes packet r w e = rw e

  in_order-IsValid :
      (writes : ℕ → Bool) (packet : Pkt) (r : Receiver)
      → IsStorable packet
      → IsValid r
      → packet.type ≡ 1
      → packet.seqnum ≡ r.seqnum
      → (o : Round) × (in_order z writes packet r ≡ some o)
        × IsValid (state o)
        × Ends z writes packet r o
  in_order-IsValid writes packet r s v t n =
      let (w, e) = write_out_inside (writes 0) packet.payload packet.length r.output s in
      let r1 : Receiver = record r { seqnum = inc_seqnum r.seqnum; output = w.1 } in
      let v1 : IsValid r1 = record {
        slots_len = v.slots_len;
        free = v.free;
        seqnum_byte = omega arith;
        buffer_len = v.buffer_len;
        cleared = v.cleared;
        stored = v.stored;
      } in
      let split = in_order_lem writes packet r w e in
      elim (Bool-cases w.0) [
        | inl done ↦
            let (r2, e1, v2, b, sent) = after_write-true writes r1 v1 in
            (
              continue (after_ack z r2),
              split ∙ ap (λ (x : Bool). after_write z writes x r1) done ∙ e1,
              after_ack-IsValid r2 v2,
              answers r2 v2 b sent,
            )
        | inr failed ↦ (
          break r1,
          split ∙ ap (λ (x : Bool). after_write z writes x r1) failed ∙ unfold after_write in refl,
          v1,
          stops r1 refl t n
              (write_out_fails (writes 0) packet.payload packet.length r.output w e failed),
        )
      ]

  -- Which branch a packet takes.
  pub handle_unexpected :
      (writes : ℕ → Bool) (packet : Pkt) (r : Receiver)
      → packet.type ≡ 1
      → packet.seqnum ≢ r.seqnum
      → handle z writes pkt_ok packet r ≡ out_of_order z packet r
  unfolding handle
  handle_unexpected writes packet r t n = ground arith

  pub handle_expected :
      (writes : ℕ → Bool) (packet : Pkt) (r : Receiver)
      → packet.type ≡ 1
      → packet.seqnum ≡ r.seqnum
      → handle z writes pkt_ok packet r ≡ in_order z writes packet r
  unfolding handle
  handle_expected writes packet r t n = ground arith

  pub handle_no_data :
      (writes : ℕ → Bool) (packet : Pkt) (r : Receiver)
      → packet.type ≢ 1
      → handle z writes pkt_ok packet r ≡ some (continue r)
  unfolding handle
  handle_no_data writes packet r t = ground arith

  pub handle_refused :
      (writes : ℕ → Bool) (code : Status) (packet : Pkt) (r : Receiver)
      → code ≢ pkt_ok
      → IsValid r
      → handle z writes code packet r ≡ some (continue (after_ack z r))
  unfolding handle
  handle_refused writes pkt_ok packet r n v = absurd (n refl)
  handle_refused writes _ packet r n v = rw (send_ack-after_ack z r v.buffer_len)

  pub handle-IsValid :
      (writes : ℕ → Bool) (code : Status) (packet : Pkt) (r : Receiver)
      → (code ≡ pkt_ok → IsStorable packet)
      → IsValid r
      → (o : Round) × (handle z writes code packet r ≡ some o)
        × IsValid (state o)
        × Ends z writes packet r o
  handle-IsValid writes pkt_ok packet r s v = elim (ℕ_discrete packet.type 1) [
    | no t ↦ (continue r, handle_no_data writes packet r t, v, idle)
    | yes t ↦ elim (ℕ_discrete packet.seqnum r.seqnum) [
      | yes n ↦
          let (o, e, w, x) = in_order-IsValid writes packet r (s refl) v t n in
          (o, handle_expected writes packet r t n ∙ e, w, x)
      | no n ↦
          let (e, w) = out_of_order_lem packet r (s refl) v in
          let (b, sent) = keep_inside-same packet r in
          (
            _,
            handle_unexpected writes packet r t n ∙ e,
            w,
            answers (keep_inside packet r) (keep_inside-IsValid packet r (s refl) v) b sent,
          )
    ]
  ]
  handle-IsValid writes code packet r s v = (
    continue (after_ack z r),
    handle_refused writes code packet r (λ e. cc) v,
    after_ack-IsValid r v,
    answers r v refl refl,
  )
