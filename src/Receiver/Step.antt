-- ===== src/Receiver/Step.antt =====
-- The rounds of the receiver keep its invariant.
use lingi1341_projet.Prelude.{
  ℕ, ◌≤◌, ◌≡◌, arith, ap, sym, subst, ◌∙◌, ◌⊎◌, inl, inr, Bool, Option, none, some, List, [], ◌∷◌,
  ◌++◌, length, take, drop, replicate, length-replicate, length-take, length-take_le, length-drop,
  length-append, Option-cases, ◌>>=◌,
}
use lingi1341_projet.Prelude.Memory.{store_front}
use lingi1341_projet.Platform.{Zlib, Alloc}
use lingi1341_projet.Packet.{Pkt, Status, pkt_ok, pkt_new}
use lingi1341_projet.Packet.Codec.{pkt_decode, load_header}
use lingi1341_projet.Packet.Sound.{decode-IsAccepted}
use mathlib.Core.Option.{some-injective}
use lingi1341_projet.Packet.Bounds.{decode_in_bounds}
use lingi1341_projet.Receiver.{
  Receiver, Event, timeout, no_data, arrival, Round, continue, break, recv_bytes, recv_size, handle,
  step, receiver_loop,
}
use lingi1341_projet.Receiver.Invariant.{IsValid, IsStorable}
use lingi1341_projet.Receiver.Branches.{state, Ends, handle-IsValid}

-- What the decoder accepts over a new struct is as long as it says.
pub decoded-IsStorable :
    (z : Zlib) (mem : Alloc) (bytes : List ℕ) (len : ℕ) (p : Pkt)
    → pkt_decode z mem bytes len pkt_new ≡ some (pkt_ok, p)
    → IsStorable p
decoded-IsStorable z mem bytes len p e = elim (decode-IsAccepted z mem bytes len pkt_new p e).body [
  | inl (short, same) ↦ rw same tt
  | inr (long, room, inl n, crc) ↦ rw n tt
  | inr (long, room, inr b, crc) ↦
      rw b (length-take p.length (drop 12 bytes) (omega (arith, length-drop 12 bytes)))
]

recv_bytes-le : (read : Option (List ℕ)) → length (recv_bytes read) ≤ 528
recv_bytes-le none = omega arith
recv_bytes-le (some datagram) = length-take_le 528 datagram

-- The buffer after `recvfrom`, and after the `memset` that follows the decoding.
abbrev pub received_buffer : Option (List ℕ) → Receiver → List ℕ
received_buffer read r = recv_bytes read ++ drop (length (recv_bytes read)) r.buffer

abbrev pub cleared_buffer : Option (List ℕ) → Receiver → List ℕ
cleared_buffer read r = replicate r.len 0 ++ drop r.len (received_buffer read r)

pub length-received_buffer :
    (read : Option (List ℕ)) (r : Receiver) → IsValid r → length (received_buffer read r) ≡ 528
length-received_buffer read r v = omega (
  arith,
  recv_bytes-le read,
  length-append (recv_bytes read) (drop (length (recv_bytes read)) r.buffer),
  length-drop (length (recv_bytes read)) r.buffer,
)

pub cleared_buffer-IsValid :
    (read : Option (List ℕ)) (r : Receiver)
    → IsValid r
    → IsValid (record r { buffer = cleared_buffer read r })
cleared_buffer-IsValid read r v = record {
  slots_len = v.slots_len;
  free = v.free;
  seqnum_byte = v.seqnum_byte;
  buffer_len = omega (
    arith,
    length-append (replicate r.len 0) (drop r.len (received_buffer read r)),
    length-replicate {A = ℕ} r.len 0,
    length-drop r.len (received_buffer read r),
    length-received_buffer read r v,
  );
  cleared = v.cleared;
  stored = v.stored;
}

module _ (z : Zlib) where
  -- A round on what `recvfrom` answers is the decoding of the buffer with those bytes at its front,
  -- and then the branch that the packet takes, with the buffer cleared.
  pub step_arrival :
      (read : Option (List ℕ)) (alloc : Alloc) (writes : ℕ → Bool) (r : Receiver)
      → IsValid r
      → step z (arrival read alloc writes) r ≡ (
          pkt_decode z alloc (received_buffer read r) (recv_size read) pkt_new >>= λ d.
          handle z writes d.0 d.1 (record r { buffer = cleared_buffer read r }))
  unfolding step
  step_arrival read alloc writes r v =
      rw (store_front r.buffer (recv_bytes read) fits)
        (elim (Option-cases
          (pkt_decode z alloc (received_buffer read r) (recv_size read) pkt_new)) [
            | inl e ↦ rw e
            | inr (d, e) ↦ rw (
              e,
              store_front (received_buffer read r) (replicate r.len 0) room,
              length-replicate {A = ℕ} r.len 0,
            )
          ])
    where
      fits : length (recv_bytes read) ≤ length r.buffer
      fits = omega (arith, recv_bytes-le read, v.buffer_len)

      room : length (replicate {A = ℕ} r.len 0) ≤ length (received_buffer read r)
      room = omega (arith, length-replicate {A = ℕ} r.len 0, length-received_buffer read r v)

  pub step_after :
      (read : Option (List ℕ)) (alloc : Alloc) (writes : ℕ → Bool) (r : Receiver)
      → IsValid r
      → (d : Option (Status × Pkt))
      → pkt_decode z alloc (received_buffer read r) (recv_size read) pkt_new ≡ d
      → step z (arrival read alloc writes) r
        ≡ (d >>= λ y. handle z writes y.0 y.1 (record r { buffer = cleared_buffer read r }))
  step_after read alloc writes r v d e =
      step_arrival read alloc writes r v
      ∙ ap
          (λ (x : Option (Status × Pkt)).
            x >>= λ y. handle z writes y.0 y.1 (record r { buffer = cleared_buffer read r }))
          e

  -- A round whose decoding ends, ends, in a valid state.
  step_decoded :
      (read : Option (List ℕ)) (alloc : Alloc) (writes : ℕ → Bool) (r : Receiver)
      → IsValid r
      → (d : Status × Pkt)
      → pkt_decode z alloc (received_buffer read r) (recv_size read) pkt_new ≡ some d
      → (o : Round) × (step z (arrival read alloc writes) r ≡ some o)
        × IsValid (state o)
        × Ends z writes d.1 (record r { buffer = cleared_buffer read r }) o
  step_decoded read alloc writes r v (code, packet) d =
      let (o, h, w, x) =
        handle-IsValid z writes code packet (record r { buffer = cleared_buffer read r })
          (λ k.
            decoded-IsStorable z alloc (received_buffer read r) (recv_size read) packet
              (d ∙ ap (λ (c : Status). some (c, packet)) k))
          (cleared_buffer-IsValid read r v) in
      (o, step_after read alloc writes r v (some (code, packet)) d ∙ h, w, x)

  -- A round that meets no undefined behaviour ends in a valid state.
  pub step-IsValid :
      (e : Event) (r : Receiver) (o : Round) → IsValid r → step z e r ≡ some o → IsValid (state o)
  step-IsValid timeout r o v e = unfold step in ground arith
  step-IsValid no_data r o v e = unfold step in ground arith
  step-IsValid (arrival read alloc writes) r o v e =
      elim (Option-cases (pkt_decode z alloc (received_buffer read r) (recv_size read) pkt_new)) [
        | inl d ↦ absurd (cc (step_after read alloc writes r v none d, e))
        | inr (d, same) ↦
            let (o', h, w, x) = step_decoded read alloc writes r v d same in
            subst (λ (t : Round). IsValid (state t)) (some-injective o' o (sym h ∙ e)) w
      ]

  -- How a round on an arrival may end, with the status and the packet that were decoded.
  pub step-Ends :
      (read : Option (List ℕ)) (alloc : Alloc) (writes : ℕ → Bool) (r : Receiver) (o : Round)
      → IsValid r
      → step z (arrival read alloc writes) r ≡ some o
      → (d : Status × Pkt) × (pkt_decode z alloc (received_buffer read r) (recv_size read) pkt_new
          ≡ some d)
        × Ends z writes d.1 (record r { buffer = cleared_buffer read r }) o
  step-Ends read alloc writes r o v e =
      elim (Option-cases (pkt_decode z alloc (received_buffer read r) (recv_size read) pkt_new)) [
        | inl d ↦ absurd (cc (step_after read alloc writes r v none d, e))
        | inr (d, same) ↦
            let (o', h, w, x) = step_decoded read alloc writes r v d same in
            (
              d,
              same,
              subst
                  (λ (t : Round). Ends z writes d.1 (record r { buffer = cleared_buffer read r }) t)
                  (some-injective o' o (sym h ∙ e)) x,
            )
      ]

  -- A round in which `recvfrom` delivers a header of type data, or no more than a header, meets no
  -- undefined behaviour, whatever its bytes are, the allocator gives and the writes answer.
  pub step_total :
      (read : Option (List ℕ)) (alloc : Alloc) (writes : ℕ → Bool) (r : Receiver)
      → IsValid r
      → ((load_header (take 12 (received_buffer read r)) pkt_new).type ≡ 1) ⊎ (recv_size read ≤ 12)
      → (o : Round) × (step z (arrival read alloc writes) r ≡ some o) × IsValid (state o)
  step_total read alloc writes r v h =
      elim (Option-cases (pkt_decode z alloc (received_buffer read r) (recv_size read) pkt_new)) [
        | inl d ↦ absurd (
            decode_in_bounds z alloc (received_buffer read r) (recv_size read) pkt_new
              (omega (arith, length-received_buffer read r v)) h d)
        | inr (d, same) ↦ let (o, e, w, x) = step_decoded read alloc writes r v d same in (o, e, w)
      ]

  -- However the network, the allocator and the files behave, every state that the loop reaches from a
  -- valid one without undefined behaviour is valid.
  pub receiver_loop-IsValid :
      (es : List Event) (r : Receiver) (o : Round)
      → IsValid r
      → receiver_loop z es r ≡ some o
      → IsValid (state o)
  unfolding receiver_loop
  receiver_loop-IsValid [] r o v e =
      subst (λ (t : Round). IsValid (state t)) (some-injective (continue r) o e) v
  receiver_loop-IsValid (ev ∷ es) r o v e = elim (Option-cases (step z ev r)) [
    | inl n ↦ absurd (cc (rw (n, receiver_loop) at e))
    | inr (break r1, n) ↦
        subst (λ (t : Round). IsValid (state t))
          (some-injective (break r1) o (rw (n, receiver_loop) at e))
          (step-IsValid ev r (break r1) v n)
    | inr (continue r1, n) ↦
        receiver_loop-IsValid es r1 o (step-IsValid ev r (continue r1) v n)
          (rw (n, receiver_loop) at e)
  ]
