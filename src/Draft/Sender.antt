-- ===== src/Draft/Sender.antt =====
-- The sender of the earlier version of the program, src/sender.c with the globals of src/sender.h:
-- send_data, receive_data and read_write_loop. What select, read, write and the allocator answer is
-- an argument.
pub mod Idle
pub mod Blocks
pub mod Sockets
mod Tests
use lingi1341_projet.Prelude.{
  ℕ, zero, suc, ◌+◌, ◌-◌, ◌*◌, ◌/◌, ◌%◌, ◌^◌, ◌≤◌, ◌<◌, ◌≡◌, refl, sym, ap, ap₂, subst, ◌∙◌, ◌≢◌,
  ◌↔◌, ◌⊎◌, inl, inr, Bool, true, false, ◌&&◌, ◌||◌, not, Option, none, some, List, [], ◌∷◌, ◌++◌,
  map, append_assoc, append-nil, arith, ◌>>=◌, length, get_or, set, take, drop, replicate, All,
  length-append, length-take, length-take_le, length-drop, length-replicate, length-set,
  take-append, drop-append, drop-nil, drop-drop, drop_past, length_zero, take-take, take-all,
  All-map, All-append, ltb, leb, ◌==◌, if◌then◌else◌, ltb→lt, lt→ltb, leb→le, ==_iff, Bool-cases,
  Option-cases,
}
use lingi1341_projet.Prelude.Ints.{ℤ, pos, negsuc}
use lingi1341_projet.Prelude.Memory.{load}
use lingi1341_projet.Platform.{Zlib, Alloc}
use lingi1341_projet.Packet.{Pkt, ptype_data, ptype_ack}
use lingi1341_projet.Programs.{is_zero, is_negative}
use lingi1341_projet.Draft.Receiver.{draft_packet_size}
use lingi1341_projet.Draft.Packet.{
  pkt_new, pkt_get_type, pkt_get_window, pkt_get_seqnum, pkt_set_type, pkt_set_window, pkt_set_tr,
  pkt_set_timestamp, pkt_set_payload, pkt_set_seqnum,
}
use lingi1341_projet.Draft.Packet.Codec.{pkt_encode, pkt_decode}

-- The globals, with the datagrams written to the socket. In `pkt_sent`, `none` is a null pointer and
-- `some none` an entry whose packet was freed.
pub record Globals : Type 0 where
  pub sender_window : ℕ
  pub receiver_window : ℕ
  pub seqnum_sent : ℕ
  pub pkt_sent : List (Option (Option Pkt))
  pub sent : List (List ℕ)

-- WINDOW_SIZE is 1.
abbrev pub globals : Globals
globals = record {
  sender_window = 1;
  receiver_window = 1;
  seqnum_sent = 0;
  pkt_sent = none ∷ [];
  sent = [];
}

-- What a function returns: a value, or none because it ends without a `return`.
pub data Value : Type 0 where
  returned : ℤ → Value
  indeterminate : Value

-- How a round ends: with the next round, or with the return of a status.
pub data Ending : Type 0 where
  goes_on : Globals → Ending
  returns : ℤ → Globals → Ending

-- EXIT_FAILURE is 1.
abbrev pub exit_failure : Value
exit_failure = returned (pos 1)

-- What `send_data` meets: the answers of `select`, whether it reports the standard input and the file,
-- what the two calls of `read` answer if they are made (`none` for an error), the allocator and
-- `write`. `assigned` is what `seqnum_sent = seqnum_sent++` leaves, which C does not say, and the
-- buffers are what stands in the two local arrays.
pub record Offer : Type 0 where
  pub selects : Bool
  pub input_set : Bool
  pub file_set : Bool
  pub input_read : Option (List ℕ)
  pub file_read : Option (List ℕ)
  pub packet_memory : Bool
  pub payload_memory : Bool
  pub writes : Bool
  pub assigned : ℕ
  pub history_memory : Bool
  pub buffer : List ℕ
  pub buf_pkt : List ℕ

-- What `receive_data` meets.
pub record Reply : Type 0 where
  pub selects : Bool
  pub socket_set : Bool
  pub socket_read : Option (List ℕ)
  pub packet_memory : Bool
  pub alloc : Alloc
  pub buffer : List ℕ

-- `data_len` and the buffer after a `read` of at most `size` bytes; -1 becomes the largest `size_t`.
abbrev pub read_into : ℕ → Option (List ℕ) → List ℕ → ℕ × List ℕ
read_into size none buffer = (18446744073709551615, buffer)
read_into size (some bytes) buffer =
    (length (take size bytes), take size bytes ++ drop (length (take size bytes)) buffer)

-- `if (FD_ISSET(fd, &descriptor)) data_len = read(fd, buffer, size)`. Before the first read `data_len`
-- has no value.
abbrev pub read_if_set : Bool → ℕ → Option (List ℕ) → Option ℕ × List ℕ → Option ℕ × List ℕ
read_if_set false size answer before = before
read_if_set true size answer (len, buffer) =
    (some (read_into size answer buffer).0, (read_into size answer buffer).1)

-- The two reads. Without a file, `file_d` is the descriptor of the standard input, and its bit is that of
-- the standard input.
abbrev pub read_inputs : ℤ → Offer → Option ℕ × List ℕ
read_inputs file_d o =
    read_if_set (if is_zero file_d then o.input_set else o.file_set) 512 o.file_read
      (read_if_set o.input_set 512 o.input_read (none, o.buffer))

-- The packet before its payload.
abbrev pub packet_header : ℕ → Pkt
packet_header window =
    (pkt_set_timestamp
      (pkt_set_tr (pkt_set_window (pkt_set_type pkt_new ptype_data).1 window).1 0).1 0).1

-- The end of `send_data`: the window, the number and the entry for the packet. An index outside the array
-- and a null pointer from `malloc` are undefined behaviour.
unfoldable pub remember : ℕ → Bool → Pkt → Globals → Option (Value × Globals)
remember assigned history_memory p g =
    let seqnum = assigned % 256 % 255 in
    if ltb seqnum (length g.pkt_sent) && history_memory
    then some (
      indeterminate,
      record g {
        sender_window = (g.sender_window + 255) % 256;
        seqnum_sent = seqnum;
        pkt_sent = set g.pkt_sent seqnum (some (some p));
      },
    )
    else none

-- What an acknowledgement does: the entry has to be there, with a packet that was not freed before.
unfoldable pub forget : Pkt → Globals → Option Globals
forget p g = elim (get_or g.pkt_sent (pkt_get_seqnum p) none) [
  | some (some kept) ↦ some (record g {
    receiver_window = pkt_get_window p;
    pkt_sent = set g.pkt_sent (pkt_get_seqnum p) (some none);
  })
  | some none ↦ none
  | none ↦ none
]

-- `if (status < 0) return status;`: the test of a value that was not returned is undefined.
abbrev pub unless_negative : Value × Globals → (Globals → Option Ending) → Option Ending
unless_negative (indeterminate, g) f = none
unless_negative (returned status, g) f =
    let rest = f g in if is_negative status then some (returns status g) else rest

module _ (z : Zlib) where
  -- From the call of `pkt_new` on. No status is negative, so that the tests of the statuses are never
  -- met.
  unfoldable pub send_bytes : ℕ → List ℕ → Offer → Globals → Option (Value × Globals)
  send_bytes data_len buffer o g = if not o.packet_memory then some (exit_failure, g) else (do
    (_, p1) ← pkt_set_payload o.payload_memory (packet_header g.sender_window) buffer data_len
    let p2 = (pkt_set_seqnum p1 g.seqnum_sent).1
    (_, buf, pkt_len) ← pkt_encode z p2 o.buf_pkt draft_packet_size
    datagram ← load buf 0 pkt_len
    if o.writes
        then remember o.assigned o.history_memory p2 (record g { sent = g.sent ++ (datagram ∷ []) })
        else some (exit_failure, g))

  -- From the test of `data_len` on. Its use without a value is undefined.
  unfoldable pub send_read : Option ℕ × List ℕ → Offer → Globals → Option (Value × Globals)
  send_read (none, buffer) o g = none
  send_read (some data_len, buffer) o g =
      let rest = send_bytes data_len buffer o g in
      if data_len == 0 then some (exit_failure, g) else rest

  -- `FD_SET` of a negative descriptor is undefined.
  unfoldable pub send_data : ℤ → Offer → Globals → Option (Value × Globals)
  send_data file_d o g =
      if is_negative file_d
      then none
      else if not o.selects
      then some (exit_failure, g)
      else send_read (read_inputs file_d o) o g

  -- From the call of `pkt_new` on.
  unfoldable pub receive_bytes : ℕ → List ℕ → Reply → Globals → Option (Value × Globals)
  receive_bytes data_len buffer r g = if not r.packet_memory then some (exit_failure, g) else (do
    (_, p) ← pkt_decode z r.alloc buffer data_len pkt_new
    g1 ← (if pkt_get_type p == ptype_ack then forget p g else some g)
    some (indeterminate, g1))

  unfoldable pub receive_data : Reply → Globals → Option (Value × Globals)
  receive_data r g =
      if not r.selects
      then some (exit_failure, g)
      else if not r.socket_set
      then none
      else (let (data_len, buffer) = read_into draft_packet_size r.socket_read r.buffer in
          if data_len == 0 then some (exit_failure, g) else receive_bytes data_len buffer r g)

  -- A round of the loop.
  unfoldable pub sending_round : ℤ → Offer × Reply → Globals → Option Ending
  sending_round file_d (o, r) g =
      let receiving : Globals → Option Ending = λ g1. (do
        received ← receive_data r g1
        unless_negative received (λ g2. some (goes_on g2))) in
      if ltb 0 g.receiver_window && ltb 0 g.sender_window
      then (do sent ← send_data file_d o g; unless_negative sent receiving)
      else receiving g

  unfoldable pub sending_loop : ℤ → List (Offer × Reply) → Globals → Option Ending
  sending_loop file_d [] g = some (goes_on g)
  sending_loop file_d (round ∷ rounds) g = elim (sending_round file_d round g) [
    | none ↦ none
    | some (returns status g1) ↦ some (returns status g1)
    | some (goes_on g1) ↦ sending_loop file_d rounds g1
  ]
