-- ===== src/Packet/Canonical.antt =====
-- The bytes that pkt_decode accepts are the wire format of the packet that it makes of them.
use lingi1341_projet.Prelude.{
  ℕ, zero, suc, ◌+◌, ◌≤◌, ◌<◌, ◌≡◌, refl, sym, ap, ap₂, subst, ◌∙◌, inl, inr, Option, none, some,
  List, [], ◌∷◌, ◌++◌, append_assoc, arith, length, get_or, take, drop, All, length-append,
  length-take, length-drop, drop-drop, All-take, All-drop, take-drop, take-take_le,
}
use lingi1341_projet.Prelude.Words.{IsU8, IsU32, htonl}
use lingi1341_projet.Platform.{Zlib, IsZlib, Alloc}
use lingi1341_projet.Packet.{Pkt, IsPacked, pkt_ok, pkt_new}
use lingi1341_projet.Packet.Codec.{pkt_encode, pkt_decode}
use lingi1341_projet.Packet.Wire.{be32, header, trailer, wire, Fits, IsSendable}
use lingi1341_projet.Packet.Encode.{encode-wire}
use lingi1341_projet.Packet.Sound.{IsAccepted, decode-IsAccepted}
use lingi1341_projet.Packet.Bytes.{header_read, be32_read}

get_or-IsU8 : (h : List ℕ) (i : ℕ) → All IsU8 h → IsU8 (get_or h i 0)
get_or-IsU8 [] i v = omega arith
get_or-IsU8 (x ∷ h) zero v = v.0
get_or-IsU8 (x ∷ h) (suc i) v = get_or-IsU8 h i v.1

module _ (z : Zlib) (mem : Alloc) (bytes : List ℕ) (len : ℕ) (q p : Pkt) (iz : IsZlib z)
    (v : All IsU8 bytes) (x : IsAccepted z mem bytes len q p) where
  open z use {crc32, crc32_null}

  -- The header that was read is the header of the packet, with its checksum.
  accepted-header : header p ++ be32 (crc32 0 (header p)) ≡ take 12 bytes
  accepted-header =
      let h : List ℕ = take 12 bytes in
      let covered : List ℕ = take 8 bytes in
      let (top, sum) =
        header_read h q p (crc32 0 covered) (All-take IsU8 12 bytes v)
          (length-take 12 bytes x.header_room)
          (
            x.window_read, x.tr_read, x.type_read, x.seqnum_read, x.length_read, x.timestamp_read,
            x.crc1_read,
          )
          (x.crc1_valid ∙ ap (λ (k : ℕ). htonl (crc32 k covered)) iz.null_zero) in
      let same : header p ≡ covered = top ∙ take-take_le 8 12 bytes (omega arith) in
      ap₂ (λ (a b : List ℕ). a ++ b) top (ap (λ (a : List ℕ). be32 (crc32 0 a)) same ∙ sum)
      ∙ take-drop 8 h

  -- With a payload that was read, or none, behind it.
  accepted-wire :
      (o : Option (List ℕ)) (rest : List ℕ)
      → p.payload ≡ o
      → drop 12 bytes ≡ trailer z o ++ rest
      → bytes ≡ wire z p ++ rest
  accepted-wire o rest same behind =
      sym (take-drop 12 bytes)
      ∙ ap₂ (λ (a b : List ℕ). a ++ b) (sym accepted-header)
          (behind ∙ ap (λ (t : Option (List ℕ)). trailer z t ++ rest) (sym same))

  -- The checksum of the payload stands behind it.
  accepted-trailer :
      12 < len
      → 12 + p.length + 4 ≤ length bytes
      → p.crc2 ≡ htonl (crc32 0 (take p.length (drop 12 bytes)))
      → drop 12 bytes
        ≡ trailer z (some (take p.length (drop 12 bytes))) ++ drop (p.length + 4) (drop 12 bytes)
  accepted-trailer long room crc =
      let n : ℕ = p.length in
      let d : List ℕ = drop 12 bytes in
      let c : ℕ = crc32 0 (take n d) in
      let read : be32 c ≡ take 4 (drop (12 + n) bytes) =
        be32_read (take 4 (drop (12 + n) bytes)) c
          (All-take IsU8 4 (drop (12 + n) bytes) (All-drop IsU8 (12 + n) bytes v))
          (length-take 4 (drop (12 + n) bytes) (omega (arith, length-drop (12 + n) bytes)))
          (sym (x.tail_read long) ∙ crc) in
      let front : take 4 (drop n d) ≡ be32 c =
        ap (λ (t : List ℕ). take 4 t) (drop-drop 12 n (12 + n) bytes refl) ∙ sym read in
      sym (take-drop n d)
      ∙ ap (λ (t : List ℕ). take n d ++ t)
          (sym (take-drop 4 (drop n d))
            ∙ ap₂ (λ (a b : List ℕ). a ++ b) front (drop-drop n 4 (n + 4) d refl))
      ∙ sym (append_assoc (take n d) (be32 c) (drop (n + 4) d))

  accepted-IsPacked : IsU32 q.crc2 → IsPacked p
  accepted-IsPacked word =
      let h : List ℕ = take 12 bytes in
      let byte : (i : ℕ) → IsU8 (get_or h i 0) = λ i. get_or-IsU8 h i (All-take IsU8 12 bytes v) in
      record {
        window_bits = omega (arith, x.window_read);
        tr_bit = omega (arith, x.tr_read);
        type_bits = omega (arith, x.type_read);
        seqnum_byte = omega (arith, x.seqnum_read, byte 1);
        length_word = omega (arith, x.length_read);
        timestamp_word = omega (arith, x.timestamp_read, byte 4, byte 5, byte 6, byte 7);
        crc1_word = omega (arith, x.crc1_valid);
        crc2_word = elim x.body [
          | inl (short, _) ↦ omega (arith, x.no_tail short, word)
          | inr (_, _, _, crc) ↦ omega (arith, crc)
        ];
      }

  -- What follows the header, if the struct had no payload.
  accepted-parts :
      q.payload ≡ none
      → (o : Option (List ℕ)) × (rest : List ℕ) × (p.payload ≡ o)
        × (drop 12 bytes ≡ trailer z o ++ rest)
        × Fits p.length o
  accepted-parts empty = elim x.body [
    | inl (_, same) ↦ (none, drop 12 bytes, same ∙ empty, refl, tt)
    | inr (long, room, inl same, crc) ↦ (none, drop 12 bytes, same, refl, tt)
    | inr (long, room, inr same, crc) ↦ (
      some (take p.length (drop 12 bytes)),
      drop (p.length + 4) (drop 12 bytes),
      same,
      accepted-trailer long room crc,
      length-take p.length (drop 12 bytes) (omega (arith, length-drop 12 bytes)),
    )
  ]

-- Bytes that pkt_decode accepts, over a new struct and whatever the allocator answers, are the wire format of the
-- packet that it makes of them, followed by what was not looked at; and pkt_encode writes the same bytes
-- again into a buffer that is large enough for them.
pub encode-decode :
    (z : Zlib) (mem : Alloc) (bytes : List ℕ) (len : ℕ) (p : Pkt) (buf : List ℕ)
    → IsZlib z
    → All IsU8 bytes
    → length bytes ≤ length buf
    → pkt_decode z mem bytes len pkt_new ≡ some (pkt_ok, p)
    → (datagram : List ℕ) × (rest : List ℕ) × (bytes ≡ datagram ++ rest)
      × IsSendable p
      × (pkt_encode z p buf
          ≡ some (pkt_ok, datagram ++ drop (length datagram) buf, length datagram))
encode-decode z mem bytes len p buf iz v room e =
    let x = decode-IsAccepted z mem bytes len pkt_new p e in
    let (o, rest, same, behind, fits) = accepted-parts z mem bytes len pkt_new p iz v x refl in
    let parts : bytes ≡ wire z p ++ rest =
      accepted-wire z mem bytes len pkt_new p iz v x o rest same behind in
    let sendable : IsSendable p = record {
      packed = accepted-IsPacked z mem bytes len pkt_new p iz v x (omega arith);
      fits = subst (Fits p.length) (sym same) fits;
    } in
    (
      wire z p,
      rest,
      parts,
      sendable,
      encode-wire z p buf sendable (omega (arith, ap length parts, length-append (wire z p) rest)),
    )
