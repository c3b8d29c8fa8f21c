-- ===== src/Receiver/Breaks.antt =====
-- How an arrival ends receiver_loop.
use lingi1341_projet.Prelude.{ℕ, ◌≡◌, refl, sym, ◌∙◌, ◌⊎◌, Bool, false, Option, none, some, List}
use lingi1341_projet.Platform.{Zlib, Alloc}
use lingi1341_projet.Packet.{Pkt, Status, pkt_ok, pkt_new}
use lingi1341_projet.Packet.Codec.{pkt_decode}
use lingi1341_projet.Receiver.{recv_size, Receiver, arrival, Round, break, in_order, handle, step}
use lingi1341_projet.Receiver.Invariant.{IsValid}
use lingi1341_projet.Receiver.Branches.{Ends, idle, answers, stops, handle_expected, handle_refused}
use lingi1341_projet.Receiver.Step.{
  received_buffer, cleared_buffer, cleared_buffer-IsValid, step_after, step-Ends,
}

module _ (z : Zlib) where
  stops_needs :
      (writes : ℕ → Bool) (p : Pkt) (r r' : Receiver) {o : Round}
      → Ends z writes p r o
      → o ≡ break r'
      → (p.type ≡ 1) × (p.seqnum ≡ r.seqnum) × ((writes 0 ≡ false) ⊎ (p.payload ≡ none))
  stops_needs writes p r r' idle e = cc
  stops_needs writes p r r' (answers r1 v1 b s) e = cc
  stops_needs writes p r r' (stops r1 s t n w) e = (t, n, w)

  -- Where the expected data packet ends the loop, the branch of the expected packet does.
  ends_in_order :
      (writes : ℕ → Bool) (code : Status) (p : Pkt) (r r' : Receiver)
      → p.type ≡ 1
      → p.seqnum ≡ r.seqnum
      → IsValid r
      → handle z writes code p r ≡ some (break r')
      → in_order z writes p r ≡ some (break r')
  ends_in_order writes pkt_ok p r r' t n v e = sym (handle_expected z writes p r t n) ∙ e
  ends_in_order writes code p r r' t n v e =
      absurd (cc (e, handle_refused z writes code p r (λ x. cc) v))

  -- An arrival ends the loop only if the packet decoded from it is the expected data packet and its write
  -- fails, or it has no payload; and it is the branch of the expected packet that ends the loop.
  pub step_breaks :
      (read : Option (List ℕ)) (alloc : Alloc) (writes : ℕ → Bool) (r r' : Receiver)
      → IsValid r
      → step z (arrival read alloc writes) r ≡ some (break r')
      → (d : Status × Pkt) × (pkt_decode z alloc (received_buffer read r) (recv_size read) pkt_new
          ≡ some d)
        × (d.1.type ≡ 1)
        × (d.1.seqnum ≡ r.seqnum)
        × ((writes 0 ≡ false) ⊎ (d.1.payload ≡ none))
        × (in_order z writes d.1 (record r { buffer = cleared_buffer read r }) ≡ some (break r'))
  step_breaks read alloc writes r r' v e =
      let r0 : Receiver = record r { buffer = cleared_buffer read r } in
      let (d, same, x) = step-Ends z read alloc writes r (break r') v e in
      let (t, n, w) = stops_needs writes d.1 r0 r' x refl in
      let handled : handle z writes d.0 d.1 r0 ≡ some (break r') =
        sym (step_after z read alloc writes r v (some d) same) ∙ e in
      (
        d,
        same,
        t,
        n,
        w,
        ends_in_order writes d.0 d.1 r0 r' t n (cleared_buffer-IsValid read r v) handled,
      )
