-- ===== src/Receiver.antt =====
-- receiver_loop of projet1_Calmant_Outters/src/transport_interface.c: one round of the loop is a
-- step on the receiver's state, driven by what the network and the system calls answer.
pub mod Slots
pub mod Ack
pub mod Invariant
pub mod Scan
pub mod Flush
pub mod Branches
pub mod Step
pub mod Arrivals
pub mod Delivery
pub mod Stuck
mod Tests
pub mod Truncated
pub mod Answers
pub mod Breaks
use lingi1341_projet.Prelude.{
  ℕ, zero, suc, ◌+◌, ◌-◌, ◌%◌, Bool, true, false, ◌&&◌, not, Option, none, some, List, [], ◌∷◌,
  ◌++◌, length, take, drop, set, get_or, replicate, ltb, ◌==◌, if◌then◌else◌, ◌>>=◌,
}
use lingi1341_projet.Prelude.Memory.{load, store}
use lingi1341_projet.Platform.{Zlib, Alloc}
use lingi1341_projet.Packet.{
  Pkt, Status, pkt_ok, pkt_new, ptype_data, ptype_ack, window_size, max_payload_size, pkt_get_type,
  pkt_get_seqnum, pkt_get_length, pkt_get_payload, pkt_set_type, pkt_set_window, pkt_set_seqnum,
}
use lingi1341_projet.Packet.Codec.{pkt_encode, pkt_decode}
use lingi1341_projet.Seqnum.{inc_seqnum}

abbrev pub max_packet_size : ℕ
max_packet_size = 528

-- The local variables of the loop, with what it has written to the file and sent to the network.
pub record Receiver : Type 0 where
  pub slots : List (Option Pkt)
  pub window : ℕ
  pub seqnum : ℕ
  pub len : ℕ
  pub buffer : List ℕ
  pub output : List ℕ
  pub sent : List (List ℕ)

unfoldable pub initial : Receiver
initial = record {
  slots = replicate window_size none;
  window = window_size;
  seqnum = 0;
  len = max_packet_size;
  buffer = replicate max_packet_size 0;
  output = [];
  sent = [];
}

-- What one round meets: `poll` times out or fails, wakes up with nothing to read, or a call of
-- `recvfrom` with its answer (`none` for an error). `writes k` says whether the `k`-th `write` of
-- the round succeeds.
pub data Event : Type 0 where
  timeout : Event
  no_data : Event
  arrival : Option (List ℕ) → Alloc → (ℕ → Bool) → Event

-- How a round ends: with the next round, or with the end of the loop.
pub data Round : Type 0 where
  continue : Receiver → Round
  break : Receiver → Round

abbrev pub is_ok : Status → Bool
is_ok pkt_ok = true
is_ok _ = false

-- `recvfrom` puts at most 528 bytes of the datagram into the buffer and returns their number; the
-- error -1 becomes the largest `size_t` where it is passed to `pkt_decode`.
abbrev pub recv_size : Option (List ℕ) → ℕ
recv_size none = 18446744073709551615
recv_size (some datagram) = length (take max_packet_size datagram)

abbrev pub recv_bytes : Option (List ℕ) → List ℕ
recv_bytes none = []
recv_bytes (some datagram) = take max_packet_size datagram

-- `write(receiver_fd, payload, length)`: whether it succeeds, and the file afterwards. A null
-- pointer is refused unless there is nothing to write.
unfoldable pub write_out : Bool → Option (List ℕ) → ℕ → List ℕ → Option (Bool × List ℕ)
write_out done none n out = some (done && (n == 0), out)
write_out done (some body) n out = do
  bs ← load body 0 n
  some (if done then (true, out ++ bs) else (false, out))

-- The loop that looks for a free slot, up to a packet with the same number; `none` keeps nothing.
unfoldable pub keep_packet : Pkt → List (Option Pkt) → Option (List (Option Pkt))
keep_packet p [] = none
keep_packet p (none ∷ slots) = some (some p ∷ slots)
keep_packet p (some q ∷ slots) =
    let rest = keep_packet p slots in
    if pkt_get_seqnum q == pkt_get_seqnum p then none else (do s ← rest; some (some q ∷ s))

abbrev pub after_keep : Receiver → Option (List (Option Pkt)) → Receiver
after_keep r none = r
after_keep r (some slots) = record r { slots = slots; window = (r.window + 255) % 256 }

-- A packet whose number is above the expected one and inside the window is kept.
abbrev pub keep_inside : Pkt → Receiver → Receiver
keep_inside packet r =
    if ltb (pkt_get_seqnum packet) (r.seqnum + r.window) && ltb r.seqnum (pkt_get_seqnum packet)
    then after_keep r (keep_packet packet r.slots)
    else r

-- The packet in a slot, if it is the one that is expected.
abbrev pub expected_in : ℕ → Option Pkt → Option Pkt
expected_in seqnum none = none
expected_in seqnum (some p) = if pkt_get_seqnum p == seqnum then some p else none

-- The body of the loop over the slots where slot `i` holds the expected packet. A failed write only
-- prints a message.
unfoldable pub deliver : Bool → ℕ → Pkt → Receiver → Option Receiver
deliver done i p r = do
  (_, out) ← write_out done (pkt_get_payload p) (pkt_get_length p) r.output
  some (record r {
    output = out;
    slots = set r.slots i none;
    window = (r.window + 1) % 256;
    seqnum = inc_seqnum r.seqnum;
  })

-- The loop over the slots. After a delivery `i = 0` and then `i++` make it go on at slot 1. `k` is
-- the number of the next `write`. `none` is also the end of the fuel.
unfoldable pub flush : ℕ → (ℕ → Bool) → ℕ → ℕ → Receiver → Option Receiver
flush zero writes k i r = none
flush (suc fuel) writes k i r = elim (ltb i window_size) [
  | false ↦ some r
  | true ↦ elim (expected_in r.seqnum (get_or r.slots i none)) [
    | none ↦ flush fuel writes k (i + 1) r
    | some p ↦ elim (deliver (writes k) i p r) [
      | none ↦ none
      | some r1 ↦ flush fuel writes (k + 1) 1 r1
    ]
  ]
]

-- Each delivery empties a slot and restarts a scan of at most 31 slots.
abbrev pub flush_fuel : ℕ
flush_fuel = 1024

-- The acknowledgement that the three branches make: the free slots and the expected number.
abbrev pub make_ack : ℕ → ℕ → Pkt
make_ack window seqnum =
    (pkt_set_seqnum (pkt_set_window (pkt_set_type pkt_new ptype_ack).1 window).1 seqnum).1

module _ (z : Zlib) where
  -- `pkt_encode` sets `len` to 12, which `len = MAX_PAYLOAD_SIZE` overwrites: 512 bytes are sent.
  unfoldable pub send_ack : Receiver → Option Receiver
  send_ack r = do
    (_, buf1, _) ← pkt_encode z (make_ack r.window r.seqnum) r.buffer
    datagram ← load buf1 0 max_payload_size
    buf2 ← store buf1 0 (replicate max_payload_size 0)
    some (record r { buffer = buf2; len = max_payload_size; sent = r.sent ++ (datagram ∷ []) })

  -- A data packet with another number than the expected one.
  unfoldable pub out_of_order : Pkt → Receiver → Option Round
  out_of_order packet r = do r1 ← send_ack (keep_inside packet r); some (continue r1)

  -- What follows the write of the expected packet.
  unfoldable pub after_write : (ℕ → Bool) → Bool → Receiver → Option Round
  after_write writes false r = some (break r)
  after_write writes true r = do
    r1 ← flush flush_fuel writes 1 0 r
    r2 ← send_ack r1
    some (continue r2)

  -- The expected data packet.
  unfoldable pub in_order : (ℕ → Bool) → Pkt → Receiver → Option Round
  in_order writes packet r = do
    (done, out) ← write_out (writes 0) (pkt_get_payload packet) (pkt_get_length packet) r.output
    after_write writes done (record r { seqnum = inc_seqnum r.seqnum; output = out })

  unfoldable pub handle : (ℕ → Bool) → Status → Pkt → Receiver → Option Round
  handle writes code packet r =
      if is_ok code
        && not (pkt_get_seqnum packet == r.seqnum)
        && (pkt_get_type packet == ptype_data)
      then out_of_order packet r
      else if is_ok code
          && (pkt_get_seqnum packet == r.seqnum)
          && (pkt_get_type packet == ptype_data)
      then in_order writes packet r
      else if is_ok code
          && (pkt_get_type packet == ptype_data)
          && (pkt_get_length packet == 0)
          && (pkt_get_seqnum packet == r.seqnum)
      then some (break r)
      else if not (is_ok code)
      then (do r1 ← send_ack r; some (continue r1))
      else some (continue r)

  unfoldable pub step : Event → Receiver → Option Round
  step timeout r = some (break r)
  step no_data r = some (continue r)
  step (arrival read alloc writes) r = do
    buf1 ← store r.buffer 0 (recv_bytes read)
    (code, packet) ← pkt_decode z alloc buf1 (recv_size read) pkt_new
    buf2 ← store buf1 0 (replicate r.len 0)
    handle writes code packet (record r { buffer = buf2 })

  -- The loop over a sequence of events, up to its end or to the end of the sequence.
  unfoldable pub receiver_loop : List Event → Receiver → Option Round
  receiver_loop [] r = some (continue r)
  receiver_loop (e ∷ es) r = elim (step e r) [
    | none ↦ none
    | some (break r1) ↦ some (break r1)
    | some (continue r1) ↦ receiver_loop es r1
  ]
