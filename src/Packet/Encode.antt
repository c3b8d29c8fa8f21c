-- ===== src/Packet/Encode.antt =====
-- pkt_encode writes the wire format.
use lingi1341_projet.Prelude.{
  ℕ, ◌+◌, ◌≤◌, ◌≡◌, refl, arith, ap, sym, Option, none, some, List, [], ◌++◌, length, drop,
  length-append, length-drop, drop-drop, append_assoc, append-nil,
}
use lingi1341_projet.Prelude.Words.{bytes16, bytes32, htons, htonl}
use lingi1341_projet.Prelude.Memory.{load-append, load_all, store-append}
use lingi1341_projet.Platform.{Zlib}
use lingi1341_projet.Packet.{Pkt, pkt_ok}
use lingi1341_projet.Packet.Codec.{first_bytes, encode_payload, pkt_encode}
use lingi1341_projet.Packet.Wire.{be16, be32, header, trailer, wire, Fits, IsSendable}

-- `htons` and `htonl` put the network byte order into memory.
pub bytes16-htons : (x : ℕ) → bytes16 (htons x) ≡ be16 x
bytes16-htons x = ground arith

pub bytes32-htonl : (x : ℕ) → bytes32 (htonl x) ≡ be32 x
bytes32-htonl x = ground arith

-- Four stores, one behind the other, fill the header, and two more the trailer.
module _ (z : Zlib) where
  open z use {crc32}

  pub encode_header :
      (p : Pkt) (buf : List ℕ)
      → 12 ≤ length buf
      → pkt_encode z p buf
        ≡ encode_payload z p p.payload ((header p ++ be32 (crc32 0 (header p))) ++ drop 12 buf)
  unfolding pkt_encode
  encode_header p buf h = rw (
    store-append [] buf (first_bytes p) 0 refl (omega arith),
    bytes16-htons,
    store-append (first_bytes p) (drop 2 buf) (be16 p.length) 2 refl
        (omega (arith, length-drop 2 buf)),
    drop-drop 2 2 4 buf refl,
    store-append (first_bytes p ++ be16 p.length) (drop 4 buf) (bytes32 p.timestamp) 4 refl
        (omega (arith, length-drop 4 buf)),
    drop-drop 4 4 8 buf refl,
    load-append [] (header p) (drop 8 buf) 0 8 refl refl,
    bytes32-htonl,
    store-append (header p) (drop 8 buf) (be32 (crc32 0 (header p))) 8 refl
        (omega (arith, length-drop 8 buf)),
    drop-drop 8 4 12 buf refl,
  )

  -- The trailer goes behind the 12 bytes of the header.
  encode_trailer :
      (p : Pkt) (o : Option (List ℕ)) (hd rest : List ℕ)
      → length hd ≡ 12
      → Fits p.length o
      → length (trailer z o) ≤ length rest
      → encode_payload z p o (hd ++ rest)
        ≡ some (
          pkt_ok,
          (hd ++ trailer z o) ++ drop (length (trailer z o)) rest,
          12 + length (trailer z o),
        )
  unfolding encode_payload
  encode_trailer p none hd rest hh fit room =
      ap (λ (b : List ℕ). some (pkt_ok, b, 12)) (rw append-nil)
  encode_trailer p (some body) hd rest hh fit room =
      rw
        (
          load_all body p.length (sym fit),
          store-append hd rest body 12 (sym hh) (omega (arith, total)),
          bytes32-htonl,
          store-append (hd ++ body) (drop (length body) rest) (be32 (crc32 0 body)) (12 + p.length)
              (omega (arith, length-append hd body))
              (omega (arith, length-drop (length body) rest, total)),
          drop-drop (length body) 4 (length (body ++ be32 (crc32 0 body))) rest
              (omega (arith, total)),
          append_assoc hd body (be32 (crc32 0 body)),
          total,
        )
        (ap
          (λ (n : ℕ).
            some (pkt_ok, (hd ++ (body ++ be32 (crc32 0 body))) ++ drop (length body + 4) rest, n))
          count)
    where
      count : 12 + p.length + 4 ≡ 12 + (length body + 4)
      count = omega arith

      total : length (body ++ be32 (crc32 0 body)) ≡ length body + 4
      total = length-append body (be32 (crc32 0 body))

  pub encode-wire :
      (p : Pkt) (buf : List ℕ)
      → IsSendable p
      → length (wire z p) ≤ length buf
      → pkt_encode z p buf
        ≡ some (pkt_ok, wire z p ++ drop (length (wire z p)) buf, length (wire z p))
  encode-wire p buf s room =
      rw
        (
          encode_header p buf (omega arith),
          encode_trailer p p.payload (header p ++ be32 (crc32 0 (header p))) (drop 12 buf) refl
              s.fits (omega (arith, length-drop 12 buf)),
          drop-drop 12 (length (trailer z p.payload)) (length (wire z p)) buf count,
        )
        (ap (λ (n : ℕ). some (pkt_ok, wire z p ++ drop (length (wire z p)) buf, n)) (sym count))
    where
      count : length (wire z p) ≡ 12 + length (trailer z p.payload)
      count = omega arith
