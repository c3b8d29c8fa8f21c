-- ===== src/Sender/Phases.antt =====
-- The phases of a round of read_write_loop in projet1_Calmant_Outters/src/sender.c, in their order,
-- and the loop.
use lingi1341_projet.Prelude.{
  ℕ, ◌+◌, ◌%◌, Bool, true, false, ◌&&◌, Option, none, some, List, [], ◌∷◌, ◌++◌, ◌>>=◌, length, set,
  replicate, ltb, leb, ◌==◌, if◌then◌else◌,
}
use lingi1341_projet.Prelude.Memory.{load, store}
use lingi1341_projet.Platform.{Zlib, Alloc}
use lingi1341_projet.Packet.{
  Pkt, ptype_ack, window_size, max_payload_size, pkt_get_type, pkt_get_seqnum, pkt_get_timestamp,
  pkt_set_length, pkt_set_payload,
}
use lingi1341_projet.Packet.Codec.{pkt_encode, pkt_decode}
use lingi1341_projet.Seqnum.{inc_seqnum}
use lingi1341_projet.Receiver.{max_packet_size, is_ok}
use lingi1341_projet.Sender.{
  Sender, Socket, silent, received_from, File, not_ready, readable, Wake, Turn, go_on, finish,
  unless_finished, acknowledged, put_packet, after_put, data_header, read_bytes, datagram_bytes,
}

-- `(double) stamp - (double) timestamp > 0.0005` on whole seconds.
abbrev pub is_due : ℕ → ℕ → Pkt → Bool
is_due stamp seqnum p = ltb (pkt_get_timestamp p) stamp && leb (pkt_get_seqnum p) seqnum

module _ (z : Zlib) where
  -- `pkt_encode`, `sendto`, `memset(buffer1, 0, MAX_PACKET_SIZE)` and `len = MAX_PACKET_SIZE`.
  unfoldable pub send_packet : Pkt → Sender → Option Sender
  send_packet p s = do
    (_, buf1, len) ← pkt_encode z p s.buffer1
    datagram ← load buf1 0 len
    buf2 ← store buf1 0 (replicate max_packet_size 0)
    some (record s { buffer1 = buf2; len = max_packet_size; sent = s.sent ++ (datagram ∷ []) })

  -- The loop over the slots of the fast retransmit.
  unfoldable pub fast_loop : List (Option Pkt) → Sender → Option Sender
  fast_loop [] s = some s
  fast_loop (none ∷ slots) s = fast_loop slots s
  fast_loop (some p ∷ slots) s = elim (pkt_get_seqnum p == s.lastack) [
    | false ↦ fast_loop slots s
    | true ↦ do s1 ← send_packet p s; fast_loop slots (record s1 { count = 0 })
  ]

  unfoldable pub fast_retransmit : Sender → Option Sender
  fast_retransmit s = if leb 3 s.count then fast_loop s.slots s else some s

  -- The loop over the slots that sends the packets again.
  unfoldable pub resend_loop : ℕ → List (Option Pkt) → Sender → Option Sender
  resend_loop stamp [] s = some s
  resend_loop stamp (none ∷ slots) s = resend_loop stamp slots s
  resend_loop stamp (some p ∷ slots) s = elim (is_due stamp s.seqnum p) [
    | false ↦ resend_loop stamp slots s
    | true ↦ do s1 ← send_packet p s; resend_loop stamp slots s1
  ]

  unfoldable pub resend : ℕ → Sender → Option Sender
  resend stamp s = if ltb s.free window_size then resend_loop stamp s.slots s else some s

  -- What follows a `recvfrom` without an error.
  unfoldable pub receive_ack : List ℕ → Alloc → Sender → Option Sender
  receive_ack datagram alloc s = do
    buf1 ← store s.buffer1 0 (datagram_bytes datagram)
    (status, ack) ← pkt_decode z alloc buf1 (length (datagram_bytes datagram)) s.ack
    buf2 ← store buf1 0 (replicate max_packet_size 0)
    let s1 = record s { buffer1 = buf2; ack = ack }
    some (if is_ok status && (pkt_get_type ack == ptype_ack) then acknowledged ack s1 else s1)

  unfoldable pub read_socket : Socket → Sender → Option Turn
  read_socket silent s = some (go_on s)
  read_socket (received_from none alloc) s = some (finish s)
  read_socket (received_from (some datagram) alloc) s = do
    s1 ← receive_ack datagram alloc s
    some (go_on s1)

  -- A packet with `size` bytes of `buffer2`. It is sent before it gets a slot.
  unfoldable pub send_data : ℕ → ℕ → Bool → Sender → Option Sender
  send_data size second memory s = do
    let free = (s.free + 255) % 256
    (_, p) ← pkt_set_payload memory (data_header s.seqnum second free) s.buffer2 size
    s1 ← send_packet p (record s { free = free })
    buf ← store s1.buffer2 0 (replicate max_payload_size 0)
    some (after_put (put_packet p s1.slots) (record s1 { buffer2 = buf }))

  -- What follows a `read` that put `content` into `buffer2`.
  unfoldable pub read_some : List ℕ → ℕ → Bool → Sender → Option Turn
  read_some content second memory s = do
    buf ← store s.buffer2 0 (read_bytes content)
    let s1 = record s { buffer2 = buf }
    let size = length (read_bytes content)
    if (size == 0) && (s1.free == window_size)
        then some (finish s1)
        else if ltb 0 size
        then (do s2 ← send_data size second memory s1; some (go_on s2))
        else some (go_on s1)

  -- The packet of length 0 for the end of the transmission.
  unfoldable pub send_end : ℕ → Sender → Option Sender
  send_end second s = do
    let free = (s.free + 255) % 256
    let p = (pkt_set_length (data_header s.seqnum second free) 0).1
    s1 ← send_packet p (record s { free = free })
    buf ← store s1.buffer2 0 (replicate max_payload_size 0)
    some (record s1 {
      buffer2 = buf;
      slots = set s1.slots (s1.seqnum % 30) (some p);
      seqnum = inc_seqnum s1.seqnum;
    })

  -- `is_file` is `file_d != fileno(stdin)`.
  unfoldable pub read_file : Bool → File → ℕ → Bool → Sender → Option Turn
  read_file is_file not_ready second memory s =
      if is_file && (s.free == window_size)
      then (do s1 ← send_end second s; some (go_on s1))
      else some (go_on s)
  read_file is_file (readable answer) second memory s =
      if ltb s.seqnum (s.lastack + s.free)
      then elim answer [ none ↦ some (finish s) | some content ↦ read_some content second memory s ]
      else some (go_on s)

  -- A round; `none` for a `poll` that fails.
  unfoldable pub round : Bool → Option Wake → Sender → Option Turn
  round is_file none s = some (finish s)
  round is_file (some w) s = do
    s1 ← fast_retransmit s
    s2 ← resend w.resend_second s1
    t ← read_socket w.socket s2
    unless_finished t (λ s3. read_file is_file w.file w.send_second w.payload_memory s3)

  -- The loop over a sequence of rounds, up to its end or to the end of the sequence.
  unfoldable pub read_write_loop : Bool → List (Option Wake) → Sender → Option Turn
  read_write_loop is_file [] s = some (go_on s)
  read_write_loop is_file (w ∷ ws) s = elim (round is_file w s) [
    | none ↦ none
    | some (finish s1) ↦ some (finish s1)
    | some (go_on s1) ↦ read_write_loop is_file ws s1
  ]
