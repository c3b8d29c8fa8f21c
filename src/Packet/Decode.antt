-- ===== src/Packet/Decode.antt =====
-- What pkt_decode does on each of its branches.
use lingi1341_projet.Prelude.{
  ℕ, ◌%◌, ◌<◌, ◌≤◌, ◌≡◌, ◌≢◌, refl, arith, ap, sym, subst, ◌∙◌, ◌⊎◌, some, List, [], ◌++◌, ltb, leb,
  ◌==◌, ◌&&◌, ◌||◌, if◌then◌else◌,
}
use lingi1341_projet.Prelude.Words.{IsU16, htons, htonl}
use lingi1341_projet.Prelude.Memory.{load, load-append}
use lingi1341_projet.Platform.{Zlib, IsZlib, Alloc}
use lingi1341_projet.Packet.{Pkt, IsPacked, e_length}
use lingi1341_projet.Packet.Codec.{
  load_header, pkt_decode, decode_type, decode_length, decode_crc1, decode_payload,
}
use lingi1341_projet.Packet.Wire.{be32, header}

-- A packet whose header `pkt_decode` takes: a known type, no truncation bit but on data, and between
-- 1 and 512 bytes announced by data.
pub record IsAcceptable (p : Pkt) : Type 0 where
  pub known : p.type ≢ 0
  pub truncation : (p.tr ≡ 0) ⊎ (p.type ≡ 1)
  pub announced : (p.type ≢ 1) ⊎ ((1 ≤ p.length) × (p.length ≤ 512))

-- The struct when the header of `p` with checksum `c` was read over the struct `q`.
abbrev pub received_header : Pkt → ℕ → Pkt → Pkt
received_header p c q = record p { crc1 = htonl c; payload = q.payload; crc2 = q.crc2 }

load-header :
    (p q : Pkt) (c : ℕ)
    → IsPacked p
    → load_header (header p ++ be32 c) q
      ≡ record (received_header p c q) { length = htons p.length }
load-header p q c v = ground arith

-- An acceptable header passes the checks of the truncation bit, of the type and of the length, and
-- the length is in the order of the host afterwards.
module _ (z : Zlib) (mem : Alloc) (bytes : List ℕ) (len : ℕ) where
  open z use {crc32, crc32_null}

  decode_length-accept :
      (p : Pkt) (tr_read : ℕ)
      → IsU16 p.length
      → (p.type ≢ 1) ⊎ ((1 ≤ p.length) × (p.length ≤ 512))
      → decode_length z mem bytes len tr_read (record p { length = htons p.length })
        ≡ decode_crc1 z mem bytes len tr_read p
  unfolding decode_length
  decode_length-accept p tr_read v a = rw swapped (passes a)
    where
      swapped : htons (htons p.length) % 65536 ≡ p.length
      swapped = omega arith

      passes :
          (p.type ≢ 1) ⊎ ((1 ≤ p.length) × (p.length ≤ 512))
          → (if p.type == 1 && (leb p.length 0 || ltb 512 p.length)
              then some (e_length, p)
              else decode_crc1 z mem bytes len tr_read p)
            ≡ decode_crc1 z mem bytes len tr_read p
      passes h = ground arith

  decode_type-accept :
      (p : Pkt) (tr_read : ℕ)
      → p.type < 4
      → p.type ≢ 0
      → decode_type z mem bytes len tr_read p ≡ decode_length z mem bytes len tr_read p
  unfolding decode_type
  decode_type-accept p tr_read v h = ground arith

  pkt_decode-accept :
      (h : List ℕ) (q : Pkt)
      → load bytes 0 12 ≡ some h
      → ((load_header h q).tr ≡ 0) ⊎ ((load_header h q).type ≡ 1)
      → pkt_decode z mem bytes len q
        ≡ decode_type z mem bytes len (load_header h q).tr (record (load_header h q) { tr = 0 })
  unfolding pkt_decode
  pkt_decode-accept h q e a = rw e (ground arith)

  decode_crc1-accept :
      (h : List ℕ) (p : Pkt) (tr_read : ℕ)
      → load bytes 0 8 ≡ some h
      → p.crc1 ≡ htonl (crc32 crc32_null h)
      → decode_crc1 z mem bytes len tr_read p
        ≡ decode_payload z mem bytes len (record p { tr = tr_read % 2 })
  unfolding decode_crc1
  decode_crc1-accept h p tr_read e c = rw e (ground arith)

  -- `pkt_decode` reads an acceptable header back over the struct, and goes on to the payload.
  pub decode-header :
      (p q : Pkt) (rest : List ℕ)
      → IsZlib z
      → IsPacked p
      → IsAcceptable p
      → bytes ≡ header p ++ (be32 (crc32 0 (header p)) ++ rest)
      → pkt_decode z mem bytes len q
        ≡ decode_payload z mem bytes len (received_header p (crc32 0 (header p)) q)
  decode-header p q rest iz v a e =
      subst
        (λ (s : Pkt).
          ((s.tr ≡ 0) ⊎ (s.type ≡ 1))
          → pkt_decode z mem bytes len q ≡ decode_type z mem bytes len s.tr (record s { tr = 0 }))
        (load-header p q c v) (pkt_decode-accept (header p ++ be32 c) q head12) a.truncation
      ∙ decode_type-accept (record r { tr = 0; length = htons p.length }) p.tr v.type_bits a.known
      ∙ decode_length-accept (record r { tr = 0 }) p.tr v.length_word a.announced
      ∙ decode_crc1-accept (header p) (record r { tr = 0 }) p.tr head8
          (ap (λ (k : ℕ). htonl (crc32 k (header p))) (sym iz.null_zero))
      ∙ ap (λ (t : ℕ). decode_payload z mem bytes len (record r { tr = t })) tr_kept
    where
      c : ℕ
      c = crc32 0 (header p)

      r : Pkt
      r = received_header p c q

      head12 : load bytes 0 12 ≡ some (header p ++ be32 c)
      head12 = rw e (load-append [] (header p ++ be32 c) rest 0 12 refl refl)

      head8 : load bytes 0 8 ≡ some (header p)
      head8 = rw e (load-append [] (header p) (be32 c ++ rest) 0 8 refl refl)

      tr_kept : p.tr % 2 ≡ p.tr
      tr_kept = omega arith
