-- ===== src/Draft/Packet/Compare.antt =====
-- The packets of the earlier version, src/packet_interface.c, beside those of the later one,
-- projet1_Calmant_Outters/src/packet_interface.c.
use lingi1341_projet.Prelude.{
  ℕ, ◌+◌, ◌%◌, ◌≤◌, ◌<◌, ◌≡◌, refl, ◌∙◌, ◌⊎◌, inl, inr, Bool, false, Option, none, some, List, ◌++◌,
  arith, length, take, drop, length-append, ltb, leb, ltb→lt, Bool-cases, Option-cases,
}
use native.Mathlib.Decide.{dec_lt}
use lingi1341_projet.Prelude.Words.{htons}
use lingi1341_projet.Prelude.Memory.{load-take, load_outside}
use lingi1341_projet.Platform.{Zlib, Alloc}
use lingi1341_projet.Packet.{Pkt, Status, pkt_ok, e_nomem}
use lingi1341_projet.Packet.Codec.{load_header, first_bytes}
use lingi1341_projet.Packet.Wire.{wire, be32, trailer, Fits, IsSendable}
use lingi1341_projet.Packet.Encode.{encode-wire}
use lingi1341_projet.Draft.Packet.Codec.{
  pkt_encode, pkt_decode, encode_packet, encode_payload, decode_payload, decode_crc1, decode_length,
  decode_type,
}
use lingi1341_projet.Packet as Later
use lingi1341_projet.Packet.Codec as LaterCodec
use lingi1341_projet.Draft.Packet as Earlier

not_below : (a b : ℕ) → ltb a b ≡ false → b ≤ a
not_below a b h = ground arith

positive : (n : ℕ) → 1 ≤ n → leb n 0 ≡ false
positive n h = ground arith

set_payload-same :
    (enough : Bool) (p : Pkt) (source : List ℕ) (length : ℕ)
    → 1 ≤ length % 65536
    → Earlier.pkt_set_payload enough p source length ≡ Later.pkt_set_payload enough p source length
unfolding Earlier.pkt_set_payload Later.pkt_set_payload
set_payload-same enough p source length h = rw (positive (length % 65536) h)

module _ (z : Zlib) where
  length-trailer : (n : ℕ) (body : Option (List ℕ)) → Fits n body → length (trailer z body) ≤ n + 4
  length-trailer n none f = omega arith
  length-trailer n (some body) f = omega (arith, length-append body (be32 (z.crc32 0 body)))

  encode_payload-same :
      (p : Pkt) (body : Option (List ℕ)) (buf : List ℕ)
      → encode_payload z p body buf ≡ LaterCodec.encode_payload z p body buf
  unfolding encode_payload LaterCodec.encode_payload
  encode_payload-same p none buf = refl
  encode_payload-same p (some block) buf = refl

  encode_packet-same :
      (p : Pkt) (buf : List ℕ) → encode_packet z p buf ≡ LaterCodec.pkt_encode z p buf
  unfolding encode_packet LaterCodec.pkt_encode encode_payload LaterCodec.encode_payload
  encode_packet-same p buf = elim (Option-cases p.payload) [
    | inl e ↦ rw e refl
    | inr (block, e) ↦ rw e refl
  ]

  decode_payload-same :
      (mem : Alloc) (bytes : List ℕ) (len : ℕ) (p : Pkt)
      → (1 ≤ p.length % 65536) ⊎ (len ≤ 12)
      → decode_payload z mem bytes len p ≡ LaterCodec.decode_payload z mem bytes len p
  unfolding decode_payload LaterCodec.decode_payload Earlier.pkt_set_payload Later.pkt_set_payload
  decode_payload-same mem bytes len p (inl h) = rw (positive (p.length % 65536) h) refl
  decode_payload-same mem bytes len p (inr h) = rw (short len h) refl
    where
      short : (n : ℕ) → n ≤ 12 → ltb 12 n ≡ false
      short n q = ground arith

  decode_crc1-same :
      (mem : Alloc) (bytes : List ℕ) (len tr : ℕ) (p : Pkt)
      → (1 ≤ p.length % 65536) ⊎ (len ≤ 12)
      → decode_crc1 z mem bytes len tr p ≡ LaterCodec.decode_crc1 z mem bytes len tr p
  unfolding decode_crc1 LaterCodec.decode_crc1
  decode_crc1-same mem bytes len tr p h =
      rw (decode_payload-same mem bytes len (record p { tr = tr % 2 }) h) refl

  decode_length-same :
      (mem : Alloc) (bytes : List ℕ) (len tr : ℕ) (p : Pkt)
      → (1 ≤ htons p.length % 65536) ⊎ (len ≤ 12)
      → decode_length z mem bytes len tr p ≡ LaterCodec.decode_length z mem bytes len tr p
  unfolding decode_length LaterCodec.decode_length
  decode_length-same mem bytes len tr p h =
      rw
        (decode_crc1-same mem bytes len tr (record p { length = htons p.length % 65536 }) (again h))
        refl
    where
      again :
          ((1 ≤ htons p.length % 65536) ⊎ (len ≤ 12))
          → (1 ≤ htons p.length % 65536 % 65536) ⊎ (len ≤ 12)
      again k = omega arith

  decode_type-same :
      (mem : Alloc) (bytes : List ℕ) (len tr : ℕ) (p : Pkt)
      → (1 ≤ htons p.length % 65536) ⊎ (len ≤ 12)
      → decode_type z mem bytes len tr p ≡ LaterCodec.decode_type z mem bytes len tr p
  unfolding decode_type LaterCodec.decode_type
  decode_type-same mem bytes len tr p h = rw (decode_length-same mem bytes len tr p h) refl

  -- On a header that announces at least one byte, or where no more than a header was received, the
  -- earlier and the later decoder do the same.
  pub decode-same :
      (mem : Alloc) (bytes : List ℕ) (len : ℕ) (q : Pkt)
      → (1 ≤ htons (load_header (take 12 bytes) q).length % 65536) ⊎ (len ≤ 12)
      → pkt_decode z mem bytes len q ≡ LaterCodec.pkt_decode z mem bytes len q
  unfolding pkt_decode LaterCodec.pkt_decode
  decode-same mem bytes len q h = elim (dec_lt (length bytes) 12) [
    | yes short ↦ rw (load_outside bytes 0 12 short) refl
    | no enough ↦
        let p : Pkt = load_header (take 12 bytes) q in
        rw
          (
            load-take bytes 0 12 (omega arith),
            decode_type-same mem bytes len p.tr (record p { tr = 0 }) h,
          )
          refl
  ]

  -- With `*len` no larger than the buffer, the earlier encoder writes nothing outside it: it refuses a
  -- packet for which 16 bytes and the payload do not fit into `*len` with E_NOMEM and touches nothing,
  -- and writes the wire format of any other.
  pub encode_guarded :
      (p : Pkt) (buf : List ℕ) (len : ℕ)
      → IsSendable p
      → len ≤ length buf
      → ((len < 16 + p.length) × (pkt_encode z p buf len ≡ some (e_nomem, buf, len)))
        ⊎ ((16 + p.length ≤ len)
            × (pkt_encode z p buf len
                ≡ some (pkt_ok, wire z p ++ drop (length (wire z p)) buf, length (wire z p))))
  unfolding pkt_encode
  encode_guarded p buf len s fits = elim (Bool-cases (ltb len (16 + p.length))) [
    | inl short ↦ inl (ltb→lt len (16 + p.length) short, rw short refl)
    | inr enough ↦ inr (
      not_below len (16 + p.length) enough,
      rw enough (
          encode_packet-same p buf
          ∙ encode-wire z p buf s (
              omega (
                arith,
                not_below len (16 + p.length) enough,
                length-trailer p.length p.payload s.fits,
              ))),
    )
  ]
