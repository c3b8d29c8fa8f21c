-- ===== src/Packet/RoundTrip.antt =====
-- pkt_decode after pkt_encode.
use lingi1341_projet.Prelude.{
  ℕ, ◌+◌, ◌%◌, ◌<◌, ◌≤◌, ◌≡◌, refl, arith, sym, ◌∙◌, Option, none, some, List, ◌++◌, length, drop,
  length-append, append_assoc, true, lt→ltb, ◌==◌, ◌>>=◌,
}
use lingi1341_projet.Prelude.Words.{IsU16, htonl}
use lingi1341_projet.Prelude.Memory.{load, load-append, load_all}
use lingi1341_projet.Platform.{Zlib, IsZlib, Alloc}
use lingi1341_projet.Packet.{Pkt, pkt_ok, pkt_set_payload}
use lingi1341_projet.Packet.Codec.{pkt_encode, pkt_decode, decode_payload}
use lingi1341_projet.Packet.Wire.{be32, header, trailer, wire, Fits, IsSendable}
use lingi1341_projet.Packet.Encode.{encode-wire}
use lingi1341_projet.Packet.Decode.{IsAcceptable, received_header, decode-header}

-- The allocator gives what the decoder asks for.
abbrev pub has_memory : Alloc
has_memory = record { temporary = true; payload = true }

htonl_small : (x : ℕ) → htonl x % 4294967296 ≡ htonl x
htonl_small x = omega arith

==-self : (x : ℕ) → (x == x) ≡ true
==-self x = ground arith

module _ (z : Zlib) where
  open z use {crc32}

  -- The struct after a packet was received over the struct `q`: the header with its checksum, and
  -- the payload with its checksum if there is one.
  abbrev pub received_trailer : Option (List ℕ) → Pkt → Pkt
  received_trailer none r = r
  received_trailer (some body) r = record r { payload = some body; crc2 = htonl (crc32 0 body) }

  abbrev pub received : Pkt → Pkt → Pkt
  received p q = received_trailer p.payload (received_header p (crc32 0 (header p)) q)

  -- A payload of the announced length behind a header, with its checksum behind it, is taken.
  pub decode_payload-body :
      (r : Pkt) (hd body rest : List ℕ) (len : ℕ)
      → length hd ≡ 12
      → length body ≡ r.length
      → IsU16 r.length
      → 12 < len
      → decode_payload z has_memory (hd ++ (body ++ (be32 (crc32 0 body) ++ rest))) len r
        ≡ some (pkt_ok, received_trailer (some body) r)
  unfolding decode_payload pkt_set_payload
  decode_payload-body r hd body rest len hh hb hl more = rw (
    lt→ltb 12 len more,
    load-append hd body (be32 c ++ rest) 12 r.length (sym hh) (sym hb),
    small,
    load_all body r.length (sym hb),
    tail,
    htonl_small c,
    ==-self (htonl c),
  )
    where
      c : ℕ
      c = crc32 0 body

      small : r.length % 65536 ≡ r.length
      small = omega arith

      tail : load (hd ++ (body ++ (be32 c ++ rest))) (12 + r.length) 4 ≡ some (be32 c)
      tail = rw (← append_assoc hd body (be32 c ++ rest)) (
          load-append (hd ++ body) (be32 c) rest (12 + r.length) 4
            (omega (arith, length-append hd body)) refl)

  decode_payload-none :
      (r : Pkt) (bytes : List ℕ) → decode_payload z has_memory bytes 12 r ≡ some (pkt_ok, r)
  unfolding decode_payload
  decode_payload-none r bytes = refl

  decode_payload-trailer :
      (r : Pkt) (o : Option (List ℕ)) (hd rest : List ℕ) (len : ℕ)
      → len ≡ 12 + length (trailer z o)
      → length hd ≡ 12
      → Fits r.length o
      → IsU16 r.length
      → decode_payload z has_memory (hd ++ (trailer z o ++ rest)) len r
        ≡ some (pkt_ok, received_trailer o r)
  decode_payload-trailer r none hd rest len hl hh fit small =
      rw hl (decode_payload-none r (hd ++ rest))
  decode_payload-trailer r (some body) hd rest len hl hh fit small =
      rw (append_assoc body (be32 (crc32 0 body)) rest) (
        decode_payload-body r hd body rest len hh fit small
          (omega (arith, length-append body (be32 (crc32 0 body)))))

  -- Whatever stands behind it in the buffer, a packet on the wire is read back.
  pub decode-wire :
      (p q : Pkt) (rest : List ℕ)
      → IsZlib z
      → IsSendable p
      → IsAcceptable p
      → pkt_decode z has_memory (wire z p ++ rest) (length (wire z p)) q
        ≡ some (pkt_ok, received p q)
  decode-wire p q rest iz s a =
      decode-header z has_memory (wire z p ++ rest) (length (wire z p)) p q
        (trailer z p.payload ++ rest) iz s.packed a refl
      ∙ decode_payload-trailer (received_header p (crc32 0 (header p)) q) p.payload
          (header p ++ be32 (crc32 0 (header p))) rest (length (wire z p)) (omega arith) refl s.fits
          s.packed.length_word

  -- A packet that is encoded into a buffer with room for it and decoded from there, with memory and over any
  -- struct, is accepted and comes back: every header field and the computed crc1, and its payload and the
  -- computed crc2 if it has a payload; without one the struct keeps its own.
  pub decode-encode :
      (p q : Pkt) (buf : List ℕ)
      → IsZlib z
      → IsSendable p
      → IsAcceptable p
      → length (wire z p) ≤ length buf
      → (pkt_encode z p buf >>= λ r. pkt_decode z has_memory r.1 r.2 q)
        ≡ some (pkt_ok, received p q)
  decode-encode p q buf iz s a room =
      rw (encode-wire z p buf s room) (decode-wire p q (drop (length (wire z p)) buf) iz s a)
