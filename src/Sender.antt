-- ===== src/Sender.antt =====
-- read_write_loop of projet1_Calmant_Outters/src/sender.c: one round of the loop is a step on the
-- sender's state, driven by what poll, recvfrom, read, time and the allocator answer.
pub mod Phases
pub mod Invariant
pub mod Send
pub mod Unacked
pub mod Acked
pub mod Data
pub mod Put
pub mod Reads
pub mod Rounds
pub mod Loop
pub mod Overrun
pub mod Stall
pub mod Last
pub mod Minute
mod Tests
mod StallTests
use lingi1341_projet.Prelude.{
  ℕ, zero, suc, ◌+◌, ◌-◌, ◌*◌, ◌/◌, ◌%◌, ◌^◌, ◌≤◌, ◌<◌, ◌≡◌, refl, sym, ap, ap₂, subst, ◌∙◌, ◌≢◌,
  ◌↔◌, ◌⊎◌, inl, inr, Bool, true, false, ◌&&◌, ◌||◌, not, Option, none, some, List, [], ◌∷◌, ◌++◌,
  map, append_assoc, append-nil, arith, ◌>>=◌, length, get_or, set, take, drop, replicate, All,
  length-append, length-take, length-take_le, length-drop, length-replicate, length-set,
  take-append, drop-append, drop-nil, drop-drop, drop_past, length_zero, take-take, take-all, ltb,
  leb, ◌==◌, if◌then◌else◌, ltb→lt, lt→ltb, leb→le, ==_iff, Bool-cases, Option-cases,
}
use lingi1341_projet.Prelude.Memory.{load, store}
use lingi1341_projet.Platform.{Zlib, Alloc}
use lingi1341_projet.Packet.{
  Pkt, Status, pkt_ok, pkt_new, ptype_data, ptype_ack, window_size, max_payload_size, pkt_get_type,
  pkt_get_seqnum, pkt_get_timestamp, pkt_set_type, pkt_set_window, pkt_set_seqnum,
  pkt_set_timestamp, pkt_set_length, pkt_set_payload,
}
use lingi1341_projet.Packet.Codec.{pkt_encode, pkt_decode}
use lingi1341_projet.Seqnum.{inc_seqnum}
use lingi1341_projet.Receiver.{max_packet_size, is_ok}

-- The local variables of the loop that live from one round to the next, with the datagrams sent:
-- `slots` is `sender_buffer`, `free` is `sender_buffer_size`, `ack` the struct that is decoded into.
pub record Sender : Type 0 where
  pub buffer1 : List ℕ
  pub buffer2 : List ℕ
  pub ack : Pkt
  pub len : ℕ
  pub seqnum : ℕ
  pub slots : List (Option Pkt)
  pub free : ℕ
  pub lastack : ℕ
  pub count : ℕ
  pub sent : List (List ℕ)

unfoldable pub start : Sender
start = record {
  buffer1 = replicate max_packet_size 0;
  buffer2 = replicate max_payload_size 0;
  ack = pkt_new;
  len = max_packet_size;
  seqnum = 0;
  slots = replicate window_size none;
  free = window_size;
  lastack = 0;
  count = 0;
  sent = [];
}

-- What `poll` reports of the socket: nothing to read, or a call of `recvfrom` with its answer, where
-- `none` is an error, and the allocator's answers to `pkt_decode`.
pub data Socket : Type 0 where
  silent : Socket
  received_from : Option (List ℕ) → Alloc → Socket

-- What `poll` reports of the file: nothing to read, or what a call of `read` would answer, where
-- `none` is an error.
pub data File : Type 0 where
  not_ready : File
  readable : Option (List ℕ) → File

-- The seconds that the two calls of `time` see, and whether `pkt_set_payload` gets memory.
pub record Wake : Type 0 where
  pub socket : Socket
  pub file : File
  pub resend_second : ℕ
  pub send_second : ℕ
  pub payload_memory : Bool

-- A round ends with the next round or with the end of the loop.
pub data Turn : Type 0 where
  go_on : Sender → Turn
  finish : Sender → Turn

-- What follows unless the loop has ended.
abbrev pub unless_finished : Turn → (Sender → Option Turn) → Option Turn
unless_finished (go_on s) f = f s
unless_finished (finish s) f = some (finish s)

-- The slots and `sender_buffer_size` after the loop that drops the acknowledged packets.
pub record Window : Type 0 where
  pub slots : List (Option Pkt)
  pub free : ℕ

abbrev pub is_acked : ℕ → ℕ → Pkt → Bool
is_acked number seqnum p = ltb (pkt_get_seqnum p) number && leb number seqnum

unfoldable pub drop_acked : ℕ → ℕ → List (Option Pkt) → ℕ → Window
drop_acked number seqnum [] free = record { slots = []; free = free }
drop_acked number seqnum (none ∷ slots) free =
    let rest = drop_acked number seqnum slots free in record rest { slots = none ∷ rest.slots }
drop_acked number seqnum (some p ∷ slots) free = elim (is_acked number seqnum p) [
  | true ↦
      let rest = drop_acked number seqnum slots ((free + 1) % 256) in
      record rest { slots = none ∷ rest.slots }
  | false ↦
      let rest = drop_acked number seqnum slots free in record rest { slots = some p ∷ rest.slots }
]

-- An accepted acknowledgement.
abbrev pub acknowledged : Pkt → Sender → Sender
acknowledged ack s =
    let w = drop_acked (pkt_get_seqnum ack) s.seqnum s.slots s.free in
    record s {
      count = if s.lastack == pkt_get_seqnum ack then s.count + 1 else s.count;
      lastack = pkt_get_seqnum ack;
      slots = w.slots;
      free = w.free;
    }

-- The loop that puts a packet into the first free slot; `none` if there is no free slot.
unfoldable pub put_packet : Pkt → List (Option Pkt) → Option (List (Option Pkt))
put_packet p [] = none
put_packet p (none ∷ slots) = some (some p ∷ slots)
put_packet p (some q ∷ slots) = do rest ← put_packet p slots; some (some q ∷ rest)

-- Without a free slot, neither the slots nor the sequence number change.
abbrev pub after_put : Option (List (Option Pkt)) → Sender → Sender
after_put none s = s
after_put (some slots) s = record s { slots = slots; seqnum = inc_seqnum s.seqnum }

-- The fields of a packet that is sent, before its payload.
abbrev pub data_header : ℕ → ℕ → ℕ → Pkt
data_header seqnum second free =
    (pkt_set_window
      (pkt_set_timestamp (pkt_set_seqnum (pkt_set_type pkt_new ptype_data).1 seqnum).1 second).1
      free).1

-- The bytes that `read` and `recvfrom` put into the buffer.
abbrev pub read_bytes : List ℕ → List ℕ
read_bytes content = take max_payload_size content

abbrev pub datagram_bytes : List ℕ → List ℕ
datagram_bytes datagram = take max_packet_size datagram
