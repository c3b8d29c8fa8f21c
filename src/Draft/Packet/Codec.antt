-- ===== src/Draft/Packet/Codec.antt =====
-- pkt_encode and pkt_decode of the earlier version of the program, src/packet_interface.c.
use lingi1341_projet.Prelude.{
  ℕ, ◌+◌, ◌&&◌, ◌||◌, not, Option, none, some, List, ◌>>=◌, get_or, ltb, leb, ◌==◌, if◌then◌else◌,
}
use lingi1341_projet.Prelude.Words.{bytes16, bytes32, word32, htons, htonl}
use lingi1341_projet.Prelude.Memory.{load, store}
use lingi1341_projet.Platform.{Zlib, Alloc}
use lingi1341_projet.Packet.{
  Status, pkt_ok, e_type, e_tr, e_length, e_crc, e_nomem, Pkt, ptype_data, ptype_ack, ptype_nack,
}
use lingi1341_projet.Packet.Codec.{first_bytes, load_header}
use lingi1341_projet.Draft.Packet.{
  pkt_get_type, pkt_get_tr, pkt_get_length, pkt_get_timestamp, pkt_get_crc1, pkt_get_payload,
  pkt_get_crc2, pkt_set_tr, pkt_set_length, pkt_set_crc2, pkt_set_payload,
}

module _ (z : Zlib) where
  open z use {crc32, crc32_null}

  -- The part of `pkt_encode` under `if(pkt_get_payload(pkt) != NULL)`, and its end.
  unfoldable pub encode_payload : Pkt → Option (List ℕ) → List ℕ → Option (Status × List ℕ × ℕ)
  encode_payload p none buf = some (pkt_ok, buf, 12)
  encode_payload p (some block) buf = do
    body ← load block 0 (pkt_get_length p)
    buf1 ← store buf 12 body
    buf2 ← store buf1 (12 + pkt_get_length p) (bytes32 (htonl (crc32 0 body)))
    some (pkt_ok, buf2, 12 + pkt_get_length p + 4)

  -- What follows the check of the size.
  unfoldable pub encode_packet : Pkt → List ℕ → Option (Status × List ℕ × ℕ)
  encode_packet p buf = do
    buf1 ← store buf 0 (first_bytes p)
    buf2 ← store buf1 2 (bytes16 (htons (pkt_get_length p)))
    buf3 ← store buf2 4 (bytes32 (pkt_get_timestamp p))
    head ← load buf3 0 8
    buf4 ← store buf3 8 (bytes32 (htonl (crc32 0 head)))
    encode_payload p (pkt_get_payload p) buf4

  -- The status, the buffer afterwards and the value left in `*len`, where `len` is its value before.
  unfoldable pub pkt_encode : Pkt → List ℕ → ℕ → Option (Status × List ℕ × ℕ)
  pkt_encode p buf len =
      if ltb len (16 + pkt_get_length p) then some (e_nomem, buf, len) else encode_packet p buf

  -- The part of `pkt_decode` under `if (len > 12)`, and its end.
  unfoldable pub decode_payload : Alloc → List ℕ → ℕ → Pkt → Option (Status × Pkt)
  decode_payload mem bytes len p =
      if ltb 12 len
      then (if mem.temporary
          then (do
            buf ← load bytes 12 (pkt_get_length p)
            (_, p1) ← pkt_set_payload mem.payload p buf (pkt_get_length p)
            tail ← load bytes (12 + pkt_get_length p) 4
            let crc2 =
                word32 (get_or tail 0 0) (get_or tail 1 0) (get_or tail 2 0) (get_or tail 3 0)
            let p2 = (pkt_set_crc2 p1 crc2).1
            let tmp = htonl (crc32 0 buf)
            some (if tmp == pkt_get_crc2 p2 then pkt_ok else e_crc, p2))
          else some (e_nomem, p))
      else some (pkt_ok, p)

  -- From the check of crc1 on.
  unfoldable pub decode_crc1 : Alloc → List ℕ → ℕ → ℕ → Pkt → Option (Status × Pkt)
  decode_crc1 mem bytes len tr_read p = do
    head ← load bytes 0 8
    let crc1 = htonl (crc32 crc32_null head)
    if crc1 == pkt_get_crc1 p
        then decode_payload mem bytes len (pkt_set_tr p tr_read).1
        else some (e_crc, p)

  -- From the check of the length on.
  unfoldable pub decode_length : Alloc → List ℕ → ℕ → ℕ → Pkt → Option (Status × Pkt)
  decode_length mem bytes len tr_read p =
      let p1 = (pkt_set_length p (htons (pkt_get_length p))).1 in
      if pkt_get_type p1 == ptype_data && (leb (pkt_get_length p1) 0 || ltb 512 (pkt_get_length p1))
      then some (e_length, p1)
      else decode_crc1 mem bytes len tr_read p1

  -- From the check of the type on.
  unfoldable pub decode_type : Alloc → List ℕ → ℕ → ℕ → Pkt → Option (Status × Pkt)
  decode_type mem bytes len tr_read p =
      if not (pkt_get_type p == ptype_data)
        && not (pkt_get_type p == ptype_ack)
        && not (pkt_get_type p == ptype_nack)
      then some (e_type, p)
      else decode_length mem bytes len tr_read p

  -- `bytes` is the buffer that `data` points to, `len` the number of bytes received. The struct is
  -- overwritten in place: fields that the data does not set keep their values.
  unfoldable pub pkt_decode : Alloc → List ℕ → ℕ → Pkt → Option (Status × Pkt)
  pkt_decode mem bytes len pkt = do
    header ← load bytes 0 12
    let p = load_header header pkt
    let tr_read = pkt_get_tr p
    let p1 = (pkt_set_tr p 0).1
    if ltb 0 tr_read && not (pkt_get_type p1 == ptype_data)
        then some (e_tr, p1)
        else decode_type mem bytes len tr_read p1
