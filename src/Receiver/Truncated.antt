-- ===== src/Receiver/Truncated.antt =====
-- What the receiver does with a data packet that arrives without its payload.
use lingi1341_projet.Prelude.{
  ℕ, ◌≤◌, ◌≡◌, refl, ap, ◌∙◌, inr, Bool, true, false, ◌&&◌, Option, none, some, List, arith, length,
  ◌==◌,
}
use lingi1341_projet.Platform.{Zlib, IsZlib}
use lingi1341_projet.Packet.{Pkt, pkt_ok, pkt_new}
use lingi1341_projet.Packet.Wire.{header, wire, IsSendable}
use lingi1341_projet.Packet.Decode.{IsAcceptable, received_header}
use lingi1341_projet.Packet.RoundTrip.{has_memory, received_trailer}
use lingi1341_projet.Seqnum.{inc_seqnum}
use lingi1341_projet.Receiver.{
  Receiver, arrival, break, write_out, after_write, in_order, handle, step,
}
use lingi1341_projet.Receiver.Invariant.{IsValid}
use lingi1341_projet.Receiver.Branches.{handle_expected}
use lingi1341_projet.Receiver.Step.{cleared_buffer}
use lingi1341_projet.Receiver.Arrivals.{step-wire}

module _ (z : Zlib) where
  in_order_no_payload :
      (writes : ℕ → Bool) (packet : Pkt) (r : Receiver)
      → packet.payload ≡ none
      → 1 ≤ packet.length
      → in_order z writes packet r ≡ some (break (record r { seqnum = inc_seqnum r.seqnum }))
  unfolding in_order write_out after_write
  in_order_no_payload writes packet r n l = rw (n, no_bytes (writes 0))
    where
      no_bytes : (b : Bool) → (b && (packet.length == 0)) ≡ false
      no_bytes true = ground arith
      no_bytes false = refl

  -- The expected data packet without its payload, only the 12 bytes of a header that announces 1 to
  -- 512 bytes, is accepted by the decoder and ends the receiver's loop, with nothing written.
  pub step_header_only :
      (writes : ℕ → Bool) (p : Pkt) (r : Receiver)
      → IsZlib z
      → IsSendable p
      → p.type ≡ 1
      → 1 ≤ p.length
      → p.length ≤ 512
      → p.payload ≡ none
      → IsValid r
      → p.seqnum ≡ r.seqnum
      → (r' : Receiver) × (step z (arrival (some (wire z p)) has_memory writes) r ≡ some (break r'))
        × (r'.output ≡ r.output)
        × (r'.sent ≡ r.sent)
  step_header_only writes p r iz s t lo hi n v e =
      let r0 : Receiver = record r { buffer = cleared_buffer (some (wire z p)) r } in
      let got : Pkt = received_header p (z.crc32 0 (header p)) pkt_new in
      (
        record r0 { seqnum = inc_seqnum r.seqnum },
        step-wire z writes p r iz s acceptable fits v
            ∙ ap (λ (o : Option (List ℕ)). handle z writes pkt_ok (received_trailer z o got) r0) n
            ∙ handle_expected z writes got r0 t e
            ∙ in_order_no_payload writes got r0 refl lo,
        refl,
        refl,
      )
    where
      acceptable : IsAcceptable p
      acceptable = record { known = omega (arith, t); truncation = inr t; announced = inr (lo, hi) }

      fits : length (wire z p) ≤ 528
      fits = rw n (omega arith)
