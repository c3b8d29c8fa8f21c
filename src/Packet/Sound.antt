-- ===== src/Packet/Sound.antt =====
-- What is known of a packet that pkt_decode accepts.
use lingi1341_projet.Prelude.{
  ℕ, ◌+◌, ◌%◌, ◌≤◌, ◌<◌, ◌≡◌, sym, subst, ◌∙◌, ◌≢◌, ◌⊎◌, none, some, List, arith, length, get_or,
  take, drop, take-take,
}
use lingi1341_projet.Prelude.Words.{IsU16, htons, htonl, word32}
use lingi1341_projet.Prelude.Memory.{load}
use lingi1341_projet.Platform.{Zlib, Alloc}
use lingi1341_projet.Packet.{Pkt, pkt_ok, pkt_set_payload}
use lingi1341_projet.Packet.Decode.{IsAcceptable}
use lingi1341_projet.Packet.Codec.{
  load_header, pkt_decode, decode_type, decode_length, decode_crc1, decode_payload,
}

module _ (z : Zlib) (mem : Alloc) (bytes : List ℕ) (len : ℕ) where
  open z use {crc32, crc32_null}

  -- The four bytes behind a payload of `n` bytes.
  abbrev pub tail_bytes : ℕ → List ℕ
  tail_bytes n = take 4 (drop (12 + n) bytes)

  -- The payload of the struct `p` against the bytes, where the header had been read into `r`.
  pub record HasBody (r p : Pkt) : Type 0 where
    pub same_window : p.window ≡ r.window
    pub same_tr : p.tr ≡ r.tr
    pub same_type : p.type ≡ r.type
    pub same_seqnum : p.seqnum ≡ r.seqnum
    pub same_length : p.length ≡ r.length
    pub same_timestamp : p.timestamp ≡ r.timestamp
    pub same_crc1 : p.crc1 ≡ r.crc1
    pub tail_read :
        12 < len
        → p.crc2
          ≡ word32
              (get_or (tail_bytes r.length) 0 0)
              (get_or (tail_bytes r.length) 1 0)
              (get_or (tail_bytes r.length) 2 0)
              (get_or (tail_bytes r.length) 3 0)
            % 4294967296
    pub no_tail : len ≤ 12 → p.crc2 ≡ r.crc2
    pub body :
        ((len ≤ 12) × (p.payload ≡ r.payload))
        ⊎ ((12 < len)
            × (12 + r.length + 4 ≤ length bytes)
            × ((p.payload ≡ none) ⊎ (p.payload ≡ some (take r.length (drop 12 bytes))))
            × (p.crc2 ≡ htonl (crc32 0 (take r.length (drop 12 bytes)))))

  decode_payload-HasBody :
      (r p : Pkt)
      → IsU16 r.length
      → decode_payload z mem bytes len r ≡ some (pkt_ok, p)
      → HasBody r p
  unfolding decode_payload pkt_set_payload load
  decode_payload-HasBody r p small e = ground (arith, again)
    where
      kept : r.length % 65536 ≡ r.length
      kept = omega arith

      again :
          take (r.length % 65536) (take r.length (drop 12 bytes)) ≡ take r.length (drop 12 bytes)
      again = rw kept (take-take r.length (drop 12 bytes))

  decode_crc1-HasBody :
      (r p : Pkt) (tr_read : ℕ)
      → IsU16 r.length
      → decode_crc1 z mem bytes len tr_read r ≡ some (pkt_ok, p)
      → (r.crc1 ≡ htonl (crc32 crc32_null (take 8 bytes)))
        × HasBody (record r { tr = tr_read % 2 }) p
  unfolding decode_crc1 load
  decode_crc1-HasBody r p tr_read small e =
      ground (arith, decode_payload-HasBody (record r { tr = tr_read % 2 }) p small)

  decode_length-HasBody :
      (r p : Pkt) (tr_read : ℕ)
      → decode_length z mem bytes len tr_read r ≡ some (pkt_ok, p)
      → ((r.type ≢ 1) ⊎ ((1 ≤ p.length) × (p.length ≤ 512)))
        × (r.crc1 ≡ htonl (crc32 crc32_null (take 8 bytes)))
        × HasBody (record r { tr = tr_read % 2; length = htons r.length % 65536 }) p
  unfolding decode_length
  decode_length-HasBody r p tr_read e = ground (
    arith,
    decode_crc1-HasBody (record r { length = htons r.length % 65536 }) p tr_read (omega arith),
  )

  decode_type-HasBody :
      (r p : Pkt) (tr_read : ℕ)
      → decode_type z mem bytes len tr_read r ≡ some (pkt_ok, p)
      → ((r.type ≡ 1) ⊎ (r.type ≡ 2) ⊎ (r.type ≡ 3))
        × ((r.type ≢ 1) ⊎ ((1 ≤ p.length) × (p.length ≤ 512)))
        × (r.crc1 ≡ htonl (crc32 crc32_null (take 8 bytes)))
        × HasBody (record r { tr = tr_read % 2; length = htons r.length % 65536 }) p
  unfolding decode_type
  decode_type-HasBody r p tr_read e = ground (arith, decode_length-HasBody r p tr_read)

  -- What `pkt_decode` has checked of a packet `p` that it accepts, decoded over the struct `q`: the
  -- fields are those of the first 12 bytes, the type is known, only data may be truncated, data
  -- announces 1 to 512 bytes, and both checksums are those of the bytes.
  pub record IsAccepted (q p : Pkt) : Type 0 where
    pub acceptable : IsAcceptable p
    pub window_read : p.window ≡ (load_header (take 12 bytes) q).window
    pub tr_read : p.tr ≡ (load_header (take 12 bytes) q).tr
    pub type_read : p.type ≡ (load_header (take 12 bytes) q).type
    pub seqnum_read : p.seqnum ≡ (load_header (take 12 bytes) q).seqnum
    pub length_read : p.length ≡ htons (load_header (take 12 bytes) q).length
    pub timestamp_read : p.timestamp ≡ (load_header (take 12 bytes) q).timestamp
    pub crc1_read : p.crc1 ≡ (load_header (take 12 bytes) q).crc1
    pub tail_read :
        12 < len
        → p.crc2
          ≡ word32
              (get_or (tail_bytes p.length) 0 0)
              (get_or (tail_bytes p.length) 1 0)
              (get_or (tail_bytes p.length) 2 0)
              (get_or (tail_bytes p.length) 3 0)
            % 4294967296
    pub no_tail : len ≤ 12 → p.crc2 ≡ q.crc2
    pub header_room : 12 ≤ length bytes
    pub crc1_valid : p.crc1 ≡ htonl (crc32 crc32_null (take 8 bytes))
    pub body :
        ((len ≤ 12) × (p.payload ≡ q.payload))
        ⊎ ((12 < len)
            × (12 + p.length + 4 ≤ length bytes)
            × ((p.payload ≡ none) ⊎ (p.payload ≡ some (take p.length (drop 12 bytes))))
            × (p.crc2 ≡ htonl (crc32 0 (take p.length (drop 12 bytes)))))

  pkt_decode-HasBody :
      (q p : Pkt)
      → pkt_decode z mem bytes len q ≡ some (pkt_ok, p)
      → let r = load_header (take 12 bytes) q in
        (12 ≤ length bytes)
        × ((r.tr ≡ 0) ⊎ (r.type ≡ 1))
        × (decode_type z mem bytes len r.tr (record r { tr = 0 }) ≡ some (pkt_ok, p))
  unfolding pkt_decode load
  pkt_decode-HasBody q p e = ground arith

  -- A packet that `pkt_decode` accepts, from any bytes, over any struct and whatever the allocator
  -- answers, has passed every check, and its fields are those of the header; crc1 is checked over the header as
  -- it was received, with its TR bit.
  pub decode-IsAccepted :
      (q p : Pkt) → pkt_decode z mem bytes len q ≡ some (pkt_ok, p) → IsAccepted q p
  decode-IsAccepted q p e =
      let (room, truncation, rest) = pkt_decode-HasBody q p e in
      let r : Pkt = load_header (take 12 bytes) q in
      let (known, announced, crc, has) = decode_type-HasBody (record r { tr = 0 }) p r.tr rest in
      let swapped_length : ℕ = htons r.length in
      let swapped : swapped_length % 65536 ≡ swapped_length = omega arith in
      let tr_same : r.tr % 2 ≡ r.tr = omega arith in
      record {
        acceptable = record {
          known = ground (arith, has.same_type);
          truncation = ground (arith, has.same_type, has.same_tr);
          announced = ground (arith, has.same_type);
        };
        window_read = has.same_window;
        tr_read = has.same_tr ∙ tr_same;
        type_read = has.same_type;
        seqnum_read = has.same_seqnum;
        length_read = has.same_length ∙ swapped;
        timestamp_read = has.same_timestamp;
        crc1_read = has.same_crc1;
        tail_read =
            subst
              (λ (n : ℕ).
                12 < len
                → p.crc2
                  ≡ word32 (get_or (tail_bytes n) 0 0) (get_or (tail_bytes n) 1 0)
                      (get_or (tail_bytes n) 2 0) (get_or (tail_bytes n) 3 0)
                    % 4294967296)
              (sym has.same_length) has.tail_read;
        no_tail = has.no_tail;
        header_room = room;
        crc1_valid = has.same_crc1 ∙ crc;
        body =
            subst
              (λ (n : ℕ).
                ((len ≤ 12) × (p.payload ≡ q.payload))
                ⊎ ((12 < len)
                    × (12 + n + 4 ≤ length bytes)
                    × ((p.payload ≡ none) ⊎ (p.payload ≡ some (take n (drop 12 bytes))))
                    × (p.crc2 ≡ htonl (crc32 0 (take n (drop 12 bytes))))))
              (sym has.same_length) has.body;
      }
