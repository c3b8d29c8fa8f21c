-- ===== src/Packet/Bounds.antt =====
-- Accesses outside the buffers: where pkt_encode and pkt_decode stay inside, and where they do not.
use lingi1341_projet.Prelude.{
  ℕ, ◌+◌, ◌<◌, ◌≤◌, ◌≡◌, ◌≢◌, refl, arith, ap, sym, ◌∙◌, ◌⊎◌, inl, inr, Option, none, some, List,
  [], ◌∷◌, ◌++◌, length, take, drop, length-take, length-drop, length-append, true, Option-cases,
  ◌>>=◌, ◌%◌, lt→ltb,
}
use lingi1341_projet.Prelude.Words.{IsU16, htonl, bytes32, htons}
use lingi1341_projet.Prelude.Memory.{load, store, store-some, store_outside, load_all, load_outside}
use lingi1341_projet.Platform.{Zlib, IsZlib, Alloc}
use lingi1341_projet.Packet.{Pkt, IsPacked, pkt_ok, pkt_set_payload}
use lingi1341_projet.Packet.Decode.{IsAcceptable, decode-header}
use lingi1341_projet.Packet.Encode.{encode_header}
use native.Mathlib.Decide.{dec_lt}
use lingi1341_projet.Packet.Wire.{be32, header, trailer, wire, Fits, IsSendable}
use lingi1341_projet.Packet.Codec.{
  encode_payload, pkt_encode, load_header, pkt_decode, decode_type, decode_length, decode_crc1,
  decode_payload,
}

module _ (z : Zlib) where
  open z use {crc32, crc32_null}

  -- No room for the header.
  encode_no_header : (p : Pkt) (buf : List ℕ) → length buf < 12 → pkt_encode z p buf ≡ none
  unfolding pkt_encode load store
  encode_no_header p [] n = refl
  encode_no_header p (a ∷ []) n = refl
  encode_no_header p (a ∷ b ∷ []) n = refl
  encode_no_header p (a ∷ b ∷ c ∷ []) n = refl
  encode_no_header p (a ∷ b ∷ c ∷ d ∷ []) n = refl
  encode_no_header p (a ∷ b ∷ c ∷ d ∷ e ∷ []) n = refl
  encode_no_header p (a ∷ b ∷ c ∷ d ∷ e ∷ f ∷ []) n = refl
  encode_no_header p (a ∷ b ∷ c ∷ d ∷ e ∷ f ∷ g ∷ []) n = refl
  encode_no_header p (a ∷ b ∷ c ∷ d ∷ e ∷ f ∷ g ∷ h ∷ []) n = refl
  encode_no_header p (a ∷ b ∷ c ∷ d ∷ e ∷ f ∷ g ∷ h ∷ i ∷ []) n = refl
  encode_no_header p (a ∷ b ∷ c ∷ d ∷ e ∷ f ∷ g ∷ h ∷ i ∷ j ∷ []) n = refl
  encode_no_header p (a ∷ b ∷ c ∷ d ∷ e ∷ f ∷ g ∷ h ∷ i ∷ j ∷ k ∷ []) n = refl
  encode_no_header p (a ∷ b ∷ c ∷ d ∷ e ∷ f ∷ g ∷ h ∷ i ∷ j ∷ k ∷ l ∷ m) n = absurd (omega arith)

  -- Room for the header, but not for what stands behind it.
  encode_no_trailer :
      (p : Pkt) (o : Option (List ℕ)) (buf : List ℕ)
      → Fits p.length o
      → 12 ≤ length buf
      → length buf < 12 + length (trailer z o)
      → encode_payload z p o buf ≡ none
  unfolding encode_payload
  encode_no_trailer p none buf fit h short = absurd (omega arith)
  encode_no_trailer p (some block) buf fit h short =
      rw (load_all block p.length (sym fit)) (elim (Option-cases (store buf 12 block)) [
        | inl e ↦ rw e
        | inr (buf1, e) ↦ rw e (
            ap (λ (o : Option (List ℕ)). o >>= λ b. some (pkt_ok, b, 12 + p.length + 4))
              (second buf1 (store-some buf 12 block buf1 e)))
      ])
    where
      second :
          (b : List ℕ)
          → (12 + length block ≤ length buf) × (length b ≡ length buf)
          → store b (12 + p.length) (bytes32 (htonl (crc32 0 block))) ≡ none
      second b (x, y) =
          store_outside b (12 + p.length) (bytes32 (htonl (crc32 0 block)))
            (omega (arith, length-append block (be32 (crc32 0 block))))

  -- Into a buffer that is too small, `pkt_encode` writes past the end: it returns no status.
  pub encode_overflows :
      (p : Pkt) (buf : List ℕ)
      → IsSendable p
      → length buf < length (wire z p)
      → pkt_encode z p buf ≡ none
  encode_overflows p buf s short = elim (dec_lt (length buf) 12) [
    | yes h ↦ encode_no_header p buf h
    | no h ↦
        encode_header z p buf (omega arith)
        ∙ encode_no_trailer p p.payload ((header p ++ be32 (crc32 0 (header p))) ++ drop 12 buf)
            s.fits (omega arith) (omega (arith, length-drop 12 buf))
  ]

module _ (z : Zlib) (mem : Alloc) (bytes : List ℕ) (len : ℕ) where
  open z use {crc32, crc32_null}

  decode_payload_in_bounds :
      (p : Pkt)
      → IsU16 p.length
      → (12 + p.length + 4 ≤ length bytes) ⊎ (len ≤ 12)
      → decode_payload z mem bytes len p ≢ none
  unfolding decode_payload pkt_set_payload load
  decode_payload_in_bounds p small h = ground (arith, fits)
    where
      kept : p.length % 65536 ≡ p.length
      kept = omega arith

      fits :
          12 + p.length + 4 ≤ length bytes
          → 0 + p.length % 65536 ≤ length (take p.length (drop 12 bytes))
      fits room = omega (arith, length-take p.length (drop 12 bytes), length-drop 12 bytes)

  decode_crc1_in_bounds :
      (p : Pkt) (tr_read : ℕ)
      → IsU16 p.length
      → 12 ≤ length bytes
      → (12 + p.length + 4 ≤ length bytes) ⊎ (len ≤ 12)
      → decode_crc1 z mem bytes len tr_read p ≢ none
  unfolding decode_crc1 load
  decode_crc1_in_bounds p tr_read small room h =
      ground (arith, decode_payload_in_bounds (record p { tr = tr_read % 2 }) small h)

  decode_length_in_bounds :
      (p : Pkt) (tr_read : ℕ)
      → 528 ≤ length bytes
      → (p.type ≡ 1) ⊎ (len ≤ 12)
      → decode_length z mem bytes len tr_read p ≢ none
  unfolding decode_length
  decode_length_in_bounds p tr_read room h = ground (
    arith,
    decode_crc1_in_bounds (record p { length = htons p.length % 65536 }) tr_read (omega arith),
  )

  decode_type_in_bounds :
      (p : Pkt) (tr_read : ℕ)
      → 528 ≤ length bytes
      → (p.type ≡ 1) ⊎ (len ≤ 12)
      → decode_type z mem bytes len tr_read p ≢ none
  unfolding decode_type
  decode_type_in_bounds p tr_read room h = ground (arith, decode_length_in_bounds p tr_read)

  -- In a buffer of MAX_PACKET_SIZE bytes or more, `pkt_decode` reads nothing outside it and returns a
  -- status, if the header says data or no more than a header was received.
  pub decode_in_bounds :
      (q : Pkt)
      → 528 ≤ length bytes
      → ((load_header (take 12 bytes) q).type ≡ 1) ⊎ (len ≤ 12)
      → pkt_decode z mem bytes len q ≢ none
  unfolding pkt_decode load
  decode_in_bounds q room h = ground (
    arith,
    decode_type_in_bounds (record (load_header (take 12 bytes) q) { tr = 0 })
        (load_header (take 12 bytes) q).tr room h,
  )

  -- An acceptable header that announces more bytes than the buffer holds, with more than 12 bytes
  -- received and memory for the copy of the payload, makes `pkt_decode` read past the buffer.
  pub decode_overreads :
      (p q : Pkt) (rest : List ℕ)
      → IsZlib z
      → IsPacked p
      → IsAcceptable p
      → mem.temporary ≡ true
      → bytes ≡ header p ++ (be32 (crc32 0 (header p)) ++ rest)
      → 12 < len
      → length bytes < 12 + p.length
      → pkt_decode z mem bytes len q ≡ none
  unfolding decode_payload
  decode_overreads p q rest iz v a m e more short =
      decode-header z mem bytes len p q rest iz v a e
      ∙ rw (lt→ltb 12 len more, m, load_outside bytes 12 p.length short)
