-- ===== src/Draft/Receiver.antt =====
-- receiver_loop of the earlier version of the program, src/transport_interface.c.
pub mod Waiting
mod Tests
use lingi1341_projet.Prelude.{
  ℕ, zero, suc, ◌+◌, ◌-◌, ◌*◌, ◌/◌, ◌%◌, ◌^◌, ◌≤◌, ◌<◌, ◌≡◌, refl, sym, ap, ap₂, subst, ◌∙◌, ◌≢◌,
  ◌↔◌, ◌⊎◌, inl, inr, Bool, true, false, ◌&&◌, ◌||◌, not, Option, none, some, List, [], ◌∷◌, ◌++◌,
  map, append_assoc, append-nil, arith, ◌>>=◌, length, get_or, set, take, drop, replicate, All,
  length-append, length-take, length-take_le, length-drop, length-replicate, length-set,
  take-append, drop-append, drop-nil, drop-drop, drop_past, length_zero, take-take, take-all, ltb,
  leb, ◌==◌, if◌then◌else◌, ltb→lt, lt→ltb, leb→le, ==_iff, Bool-cases, Option-cases,
}
use lingi1341_projet.Prelude.Memory.{store}
use lingi1341_projet.Platform.{Zlib, Alloc}
use lingi1341_projet.Packet.{Pkt, Status, ptype_data}
use lingi1341_projet.Receiver.{is_ok, write_out}
use lingi1341_projet.Draft.Packet.{
  pkt_new, pkt_get_type, pkt_get_seqnum, pkt_get_length, pkt_get_payload,
}
use lingi1341_projet.Draft.Packet.Codec.{pkt_decode}
use lingi1341_projet.Draft.Seqnum.{inc_seqnum}

abbrev pub draft_packet_size : ℕ
draft_packet_size = 640

-- The local variables of the loop and the bytes written to the file. The window is one packet.
pub record Reception : Type 0 where
  pub slots : List (Option Pkt)
  pub seqnum : ℕ
  pub buffer : List ℕ
  pub output : List ℕ

unfoldable pub at_start : Reception
at_start = record {
  slots = none ∷ [];
  seqnum = 0;
  buffer = replicate draft_packet_size 0;
  output = [];
}

-- What a round meets: `poll` times out or fails, there is nothing to read, or `recvfrom` answers
-- (`none` for an error), with the allocator's answers and whether the `write` succeeds.
pub data Input : Type 0 where
  quiet : Input
  nothing : Input
  datagram : Option (List ℕ) → Alloc → Bool → Input

pub data Next : Type 0 where
  again : Reception → Next
  leave : Reception → Next

-- The loop over the slots. It calls `pkt_encode` with the number 640 as the pointer to the length, which
-- is undefined.
unfoldable pub scan : ℕ → List (Option Pkt) → Option ℕ
scan seqnum [] = some seqnum
scan seqnum (none ∷ slots) = scan seqnum slots
scan seqnum (some p ∷ slots) =
    let rest = scan seqnum slots in if pkt_get_seqnum p == seqnum then none else rest

-- An accepted data packet.
unfoldable pub take_data : Bool → Pkt → Reception → Option Reception
take_data done packet r =
    if pkt_get_seqnum packet == r.seqnum
    then (do
      (_, out) ← write_out done (pkt_get_payload packet) (pkt_get_length packet) r.output
      seqnum ← scan (inc_seqnum r.seqnum) r.slots
      some (record r { output = out; seqnum = seqnum }))
    else some r

module _ (z : Zlib) where
  unfoldable pub receive : List ℕ → Alloc → Bool → Reception → Option Next
  receive bytes alloc done r = do
    buf1 ← store r.buffer 0 bytes
    (code, packet) ← pkt_decode z alloc buf1 (length bytes) pkt_new
    buf2 ← store buf1 0 (replicate draft_packet_size 0)
    let r1 = record r { buffer = buf2 }
    if (pkt_get_type packet == ptype_data) && is_ok code
        then (do r2 ← take_data done packet r1; some (again r2))
        else some (again r1)

  unfoldable pub reception_step : Input → Reception → Option Next
  reception_step quiet r = some (leave r)
  reception_step nothing r = some (again r)
  reception_step (datagram none alloc done) r = some (leave r)
  reception_step (datagram (some bytes) alloc done) r =
      let size = length (take draft_packet_size bytes) in
      if leb size 0
      then (do
        buf ← store r.buffer 0 (take draft_packet_size bytes)
        some (leave (record r { buffer = buf })))
      else receive (take draft_packet_size bytes) alloc done r

  unfoldable pub reception_loop : List Input → Reception → Option Next
  reception_loop [] r = some (again r)
  reception_loop (i ∷ inputs) r = elim (reception_step i r) [
    | none ↦ none
    | some (leave r1) ↦ some (leave r1)
    | some (again r1) ↦ reception_loop inputs r1
  ]
