-- ===== src/Receiver/Answers.antt =====
-- What the receiver sends, and what the sender's decoder makes of it.
use lingi1341_projet.Prelude.{
  ℕ, zero, suc, ◌+◌, ◌-◌, ◌≤◌, ◌<◌, ◌≡◌, refl, sym, ap, subst, ◌∙◌, inl, inr, Bool, Option, some,
  List, [], ◌∷◌, ◌++◌, append_assoc, arith, take, drop, replicate, All, length-replicate,
  take-append, drop-append, All-append, Option-cases,
}
use lingi1341_projet.Platform.{Zlib, IsZlib}
use lingi1341_projet.Packet.{Pkt, pkt_ok}
use lingi1341_projet.Packet.Codec.{pkt_decode, decode_payload}
use lingi1341_projet.Packet.Wire.{be32, header, wire}
use lingi1341_projet.Packet.Decode.{IsAcceptable, received_header, decode-header}
use lingi1341_projet.Packet.RoundTrip.{has_memory, received_trailer, decode_payload-body}
use mathlib.Core.Option.{some-injective}
use lingi1341_projet.Receiver.{
  Receiver, Event, timeout, no_data, arrival, Round, continue, break, make_ack, step, receiver_loop,
}
use lingi1341_projet.Receiver.Invariant.{IsValid}
use lingi1341_projet.Receiver.Branches.{state, Ends, idle, answers, stops}
use lingi1341_projet.Receiver.Step.{received_buffer, cleared_buffer, step-IsValid, step-Ends}
use lingi1341_projet.Receiver.Ack.{ack_buffer, make_ack-IsSendable}

-- The first 512 bytes of the buffer are zero.
abbrev pub IsCleared : List ℕ → Type 0
IsCleared buffer = (rest : List ℕ) × (buffer ≡ replicate 512 0 ++ rest)

replicate-add : (n m k a : ℕ) → k ≡ n + m → replicate k a ≡ replicate n a ++ replicate m a
unfolding replicate
replicate-add zero m k a h = let e : k ≡ m = omega arith in ap (λ j. replicate j a) e
replicate-add (suc n) m zero a h = absurd (omega arith)
replicate-add (suc n) m (suc k) a h =
    ap (λ (t : List ℕ). a ∷ t) (replicate-add n m k a (omega arith))

four_zeros : be32 0 ≡ replicate 4 0
unfolding replicate
four_zeros = refl

-- Behind the header there are zeros too.
zeros_behind :
    (buffer : List ℕ) → IsCleared buffer → take 500 (drop 12 buffer) ≡ be32 0 ++ replicate 496 0
zeros_behind buffer (rest, e) =
    ap (λ (b : List ℕ). take 500 (drop 12 b)) split
    ∙ ap (take 500) (
        drop-append (replicate 12 0) (replicate 500 0 ++ rest) 12
          (sym (length-replicate {A = ℕ} 12 0)))
    ∙ take-append (replicate 500 0) rest 500 (sym (length-replicate {A = ℕ} 500 0))
    ∙ replicate-add 4 496 500 0 refl
    ∙ ap (λ (t : List ℕ). t ++ replicate 496 0) (sym four_zeros)
  where
    split : buffer ≡ replicate 12 0 ++ (replicate 500 0 ++ rest)
    split =
        e
        ∙ ap (λ (t : List ℕ). t ++ rest) (replicate-add 12 500 512 0 refl)
        ∙ append_assoc (replicate 12 0) (replicate 500 0) rest

module _ (z : Zlib) where
  open z use {crc32}

  -- A datagram that the sender accepts as an acknowledgement, whatever stands behind it in the
  -- sender's buffer and whatever was in the struct: with this window and this expected number.
  abbrev pub Acknowledges : ℕ → ℕ → List ℕ → Type 0
  Acknowledges window seqnum datagram =
      (tail : List ℕ) (q : Pkt)
      → (p : Pkt) × (pkt_decode z has_memory (datagram ++ tail) 512 q ≡ some (pkt_ok, p))
        × (p.type ≡ 2)
        × (p.tr ≡ 0)
        × (p.window ≡ window)
        × (p.seqnum ≡ seqnum)

  ack-IsAcceptable : (window seqnum : ℕ) → IsAcceptable (make_ack window seqnum)
  ack-IsAcceptable window seqnum = omega arith

  -- The 512 bytes that are sent: the acknowledgement, and zeros from the cleared buffer.
  ack_datagram :
      (r : Receiver)
      → IsCleared r.buffer
      → take 512 (ack_buffer z r)
        ≡ wire z (make_ack r.window r.seqnum) ++ (be32 0 ++ replicate 496 0)
  ack_datagram r c =
      ap (λ (t : List ℕ). wire z (make_ack r.window r.seqnum) ++ t) (zeros_behind r.buffer c)

  ack_bytes-decode :
      (window seqnum : ℕ) (tail : List ℕ) (q : Pkt)
      → IsZlib z
      → let ack = make_ack window seqnum in
        pkt_decode z has_memory (wire z ack ++ (be32 0 ++ tail)) 512 q
        ≡ some (pkt_ok, received_trailer z (some []) (received_header ack (crc32 0 (header ack)) q))
  ack_bytes-decode window seqnum tail q iz =
      let ack : Pkt = make_ack window seqnum in
      let r : Pkt = received_header ack (crc32 0 (header ack)) q in
      decode-header z has_memory (wire z ack ++ (be32 0 ++ tail)) 512 ack q (be32 0 ++ tail) iz
        (make_ack-IsSendable window seqnum).packed (ack-IsAcceptable window seqnum) refl
      ∙ subst
          (λ (k : ℕ).
            decode_payload z has_memory (wire z ack ++ (be32 k ++ tail)) 512 r
            ≡ some (pkt_ok, received_trailer z (some []) r))
          (iz.empty_same 0)
          (decode_payload-body z r (wire z ack) [] tail 512 refl refl (omega arith) (omega arith))

  pub ack-Acknowledges :
      (r : Receiver)
      → IsZlib z
      → r.window < 32
      → r.seqnum < 256
      → IsCleared r.buffer
      → Acknowledges r.window r.seqnum (take 512 (ack_buffer z r))
  ack-Acknowledges r iz hw hs c tail q =
      let ack : Pkt = make_ack r.window r.seqnum in
      (
        received_trailer z (some []) (received_header ack (crc32 0 (header ack)) q),
        ap (λ (d : List ℕ). pkt_decode z has_memory (d ++ tail) 512 q) (ack_datagram r c)
            ∙ ap (λ (t : List ℕ). pkt_decode z has_memory (wire z ack ++ t) 512 q)
                (append_assoc (be32 0) (replicate 496 0) tail)
            ∙ ack_bytes-decode r.window r.seqnum (replicate 496 0 ++ tail) q iz,
        refl,
        refl,
        omega arith,
        omega arith,
      )

  -- A datagram that acknowledges some window of at most 31 slots and some expected number.
  abbrev pub IsAnswer : List ℕ → Type 0
  IsAnswer datagram =
      (window : ℕ) × (seqnum : ℕ) × (window ≤ 31)
      × (seqnum < 256)
      × Acknowledges window seqnum datagram

  pub cleared_buffer-IsCleared :
      (read : Option (List ℕ)) (r : Receiver) → IsValid r → IsCleared (cleared_buffer read r)
  cleared_buffer-IsCleared read r v = (
    replicate (r.len - 512) 0 ++ drop r.len (received_buffer read r),
    ap (λ (t : List ℕ). t ++ drop r.len (received_buffer read r))
          (replicate-add 512 (r.len - 512) r.len 0 (omega arith))
        ∙ append_assoc (replicate 512 0) (replicate (r.len - 512) 0)
            (drop r.len (received_buffer read r)),
  )

  Ends-answers :
      (writes : ℕ → Bool) (p : Pkt) (r : Receiver) {o : Round}
      → IsZlib z
      → IsCleared r.buffer
      → All IsAnswer r.sent
      → Ends z writes p r o
      → All IsAnswer (state o).sent
  Ends-answers writes p r iz c a idle = a
  Ends-answers writes p r iz c a (answers r1 v1 b s) =
      All-append IsAnswer r1.sent (take 512 (ack_buffer z r1) ∷ []) (subst (All IsAnswer) (sym s) a)
        (
          (
            r1.window,
            r1.seqnum,
            omega (arith, v1.free),
            v1.seqnum_byte,
            ack-Acknowledges r1 iz (omega (arith, v1.free)) v1.seqnum_byte
                (subst IsCleared (sym b) c),
          ),
          tt,
        )
  Ends-answers writes p r iz c a (stops r1 s t n w) = subst (All IsAnswer) (sym s) a

  step-answers :
      (e : Event) (r : Receiver) (o : Round)
      → IsZlib z
      → IsValid r
      → All IsAnswer r.sent
      → step z e r ≡ some o
      → All IsAnswer (state o).sent
  step-answers timeout r o iz v a e =
      subst (λ (t : Round). All IsAnswer (state t).sent)
        (some-injective (break r) o (unfold step in e)) a
  step-answers no_data r o iz v a e =
      subst (λ (t : Round). All IsAnswer (state t).sent)
        (some-injective (continue r) o (unfold step in e)) a
  step-answers (arrival read alloc writes) r o iz v a e =
      let (d, same, x) = step-Ends z read alloc writes r o v e in
      Ends-answers writes d.1 (record r { buffer = cleared_buffer read r }) iz
        (cleared_buffer-IsCleared read r v) a x

  -- Every datagram that the loop sends, from a valid state on, is an acknowledgement that the sender's
  -- `pkt_decode` accepts, whatever arrives, the allocator gives and the writes answer: although 512
  -- bytes are sent for a packet of 12, the zeros behind it decode as an empty payload.
  pub receiver_loop-answers :
      (es : List Event) (r : Receiver) (o : Round)
      → IsZlib z
      → IsValid r
      → All IsAnswer r.sent
      → receiver_loop z es r ≡ some o
      → All IsAnswer (state o).sent
  unfolding receiver_loop
  receiver_loop-answers [] r o iz v a e =
      subst (λ (t : Round). All IsAnswer (state t).sent) (some-injective (continue r) o e) a
  receiver_loop-answers (ev ∷ es) r o iz v a e = elim (Option-cases (step z ev r)) [
    | inl n ↦ absurd (cc (rw (n, receiver_loop) at e))
    | inr (break r1, n) ↦
        subst (λ (t : Round). All IsAnswer (state t).sent)
          (some-injective (break r1) o (rw (n, receiver_loop) at e))
          (step-answers ev r (break r1) iz v a n)
    | inr (continue r1, n) ↦
        receiver_loop-answers es r1 o iz (step-IsValid z ev r (continue r1) v n)
          (step-answers ev r (continue r1) iz v a n) (rw (n, receiver_loop) at e)
  ]
