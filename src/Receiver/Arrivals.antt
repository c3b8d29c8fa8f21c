-- ===== src/Receiver/Arrivals.antt =====
-- A round of the receiver on a datagram that is a packet on the wire.
use lingi1341_projet.Prelude.{
  ℕ, ◌≤◌, ◌≡◌, sym, ap, subst, ◌∙◌, inr, Bool, Option, some, List, ◌++◌, arith, length, take, drop,
  length-append, take-all,
}
use lingi1341_projet.Platform.{Zlib, IsZlib}
use lingi1341_projet.Packet.{Pkt, pkt_ok, pkt_new}
use lingi1341_projet.Packet.Codec.{pkt_decode}
use lingi1341_projet.Packet.Wire.{be32, header, wire, Fits, IsSendable}
use lingi1341_projet.Packet.Decode.{IsAcceptable, received_header}
use lingi1341_projet.Packet.RoundTrip.{has_memory, received, received_trailer, decode-wire}
use lingi1341_projet.Receiver.{Receiver, arrival, handle, step}
use lingi1341_projet.Receiver.Invariant.{IsValid}
use lingi1341_projet.Receiver.Step.{received_buffer, cleared_buffer, step_after}

module _ (z : Zlib) where
  -- A round on a datagram that is a packet on the wire takes the branch of that packet.
  pub step-wire :
      (writes : ℕ → Bool) (p : Pkt) (r : Receiver)
      → IsZlib z
      → IsSendable p
      → IsAcceptable p
      → length (wire z p) ≤ 528
      → IsValid r
      → step z (arrival (some (wire z p)) has_memory writes) r
        ≡ handle z writes pkt_ok
            (received z p pkt_new)
            (record r { buffer = cleared_buffer (some (wire z p)) r })
  step-wire writes p r iz s a fits v =
      step_after z (some (wire z p)) has_memory writes r v (some (pkt_ok, received z p pkt_new))
        decoded
    where
      whole : take 528 (wire z p) ≡ wire z p
      whole = take-all 528 (wire z p) fits

      decoded :
          pkt_decode z has_memory
            (received_buffer (some (wire z p)) r)
            (length (take 528 (wire z p)))
            pkt_new
          ≡ some (pkt_ok, received z p pkt_new)
      decoded =
          subst
            (λ (w : List ℕ).
              pkt_decode z has_memory (w ++ drop (length w) r.buffer) (length w) pkt_new
              ≡ some (pkt_ok, received z p pkt_new))
            (sym whole) (decode-wire z p pkt_new (drop (length (wire z p)) r.buffer) iz s a)

-- A data packet with its payload, as a correct sender puts it on the wire.
pub record IsData (p : Pkt) (bs : List ℕ) : Type 0 where
  pub sendable : IsSendable p
  pub is_data : p.type ≡ 1
  pub payload : p.payload ≡ some bs
  pub some_bytes : 1 ≤ length bs
  pub not_too_many : length bs ≤ 512

module _ (z : Zlib) (p : Pkt) (bs : List ℕ) (r : Receiver) (d : IsData p bs) (v : IsValid r) where
  pub announced : length bs ≡ p.length
  announced = subst (Fits p.length) d.payload d.sendable.fits

  data-IsAcceptable : IsAcceptable p
  data-IsAcceptable = record {
    known = omega (arith, d.is_data);
    truncation = inr d.is_data;
    announced =
        inr (omega (arith, announced, d.some_bytes), omega (arith, announced, d.not_too_many));
  }

  data_fits : length (wire z p) ≤ 528
  data_fits = rw d.payload (omega (arith, length-append bs (be32 (z.crc32 0 bs)), d.not_too_many))

  abbrev pub got : Pkt
  got = received_trailer z (some bs) (received_header p (z.crc32 0 (header p)) pkt_new)

  got-received : received z p pkt_new ≡ got
  got-received =
      ap
        (λ (o : Option (List ℕ)).
          received_trailer z o (received_header p (z.crc32 0 (header p)) pkt_new))
        d.payload

  -- A round on the datagram handles this packet, with the buffer cleared.
  pub step-got :
      (writes : ℕ → Bool)
      → IsZlib z
      → step z (arrival (some (wire z p)) has_memory writes) r
        ≡ handle z writes pkt_ok got (record r { buffer = cleared_buffer (some (wire z p)) r })
  step-got writes iz =
      step-wire z writes p r iz d.sendable data-IsAcceptable data_fits v
      ∙ ap
          (λ (q : Pkt).
            handle z writes pkt_ok q (record r { buffer = cleared_buffer (some (wire z p)) r }))
          got-received
