-- ===== src/Sender/Data.antt =====
-- What the sender does with the bytes that it reads, and with the end of the file.
use lingi1341_projet.Prelude.{
  ℕ, zero, suc, ◌+◌, ◌%◌, ◌≤◌, ◌<◌, ◌≡◌, refl, ◌∙◌, inl, inr, Bool, true, false, Option, none, some,
  List, [], ◌∷◌, ◌++◌, arith, length, set, take, replicate, All, length-take, length-replicate,
  length-set, Option-cases,
}
use lingi1341_projet.Prelude.Memory.{load-take, store_all}
use lingi1341_projet.Platform.{Zlib}
use lingi1341_projet.Packet.{Pkt, Status, pkt_ok, e_nomem, pkt_set_payload, pkt_set_length}
use lingi1341_projet.Packet.Wire.{wire}
use lingi1341_projet.Packet.Slots.{occupied, Holds}
use lingi1341_projet.Seqnum.{inc_seqnum}
use lingi1341_projet.Receiver.Arrivals.{IsData}
use lingi1341_projet.Sender.{Sender, put_packet, after_put, data_header}
use lingi1341_projet.Sender.Phases.{send_data, send_end}
use lingi1341_projet.Sender.Invariant.{IsStored, IsSound}
use lingi1341_projet.Sender.Send.{after_send, send_packet-after_send}
use lingi1341_projet.Sender.Put.{put_packet-occupied, put_packet-All, put_packet_full}

-- The packet that is sent for `size` bytes of the buffer: without memory for the payload, it has none.
abbrev pub read_packet : ℕ → ℕ → ℕ → Bool → List ℕ → ℕ → Pkt
read_packet seqnum second free true buffer size = record (data_header seqnum second free) {
  payload = some (take size buffer);
  length = size % 65536;
}
read_packet seqnum second free false buffer size = data_header seqnum second free

set_payload-read_packet :
    (seqnum second free : ℕ) (memory : Bool) (buffer : List ℕ) (size : ℕ)
    → size ≤ 512
    → length buffer ≡ 512
    → (st : Status) × (pkt_set_payload memory (data_header seqnum second free) buffer size
        ≡ some (st, read_packet seqnum second free memory buffer size))
unfolding pkt_set_payload
set_payload-read_packet seqnum second free true buffer size h b =
    let cut : size % 65536 ≡ size = omega arith in
    (pkt_ok, rw (cut, load-take buffer 0 size (omega arith)))
set_payload-read_packet seqnum second free false buffer size h b = (e_nomem, refl)

pub read_packet-IsStored :
    (seqnum second free : ℕ) (memory : Bool) (buffer : List ℕ) (size : ℕ)
    → size ≤ 512
    → length buffer ≡ 512
    → IsStored (read_packet seqnum second free memory buffer size)
read_packet-IsStored seqnum second free true buffer size h b = record {
  sendable = record { packed = omega arith; fits = omega (arith, length-take size buffer) };
  short = omega arith;
}
read_packet-IsStored seqnum second free false buffer size h b = record {
  sendable = record { packed = omega arith; fits = tt };
  short = omega arith;
}

-- With memory, it is a data packet as the receiver expects it, with the bytes read.
pub read_packet-IsData :
    (seqnum second free : ℕ) (buffer : List ℕ) (size : ℕ)
    → 1 ≤ size
    → size ≤ 512
    → length buffer ≡ 512
    → IsData (read_packet seqnum second free true buffer size) (take size buffer)
read_packet-IsData seqnum second free buffer size lo hi b = record {
  sendable = (read_packet-IsStored seqnum second free true buffer size hi b).sendable;
  is_data = refl;
  payload = refl;
  some_bytes = omega (arith, length-take size buffer);
  not_too_many = omega (arith, length-take size buffer);
}

module _ (z : Zlib) where
  -- The state after the data packet `p` was sent.
  abbrev pub after_data : Pkt → Sender → Sender
  after_data p s =
      after_put (put_packet p s.slots)
        (record (after_send z p s) { free = (s.free + 255) % 256; buffer2 = replicate 512 0 })

  pub send_data-after_data :
      (size second : ℕ) (memory : Bool) (s : Sender)
      → IsSound s
      → size ≤ 512
      → send_data z size second memory s
        ≡ some (
            after_data (read_packet s.seqnum second ((s.free + 255) % 256) memory s.buffer2 size) s)
  unfolding send_data
  send_data-after_data size second memory s v h =
      let free : ℕ = (s.free + 255) % 256 in
      let p : Pkt = read_packet s.seqnum second free memory s.buffer2 size in
      let (st, e) =
        set_payload-read_packet s.seqnum second free memory s.buffer2 size h v.buffer2_len in
      rw (
        e,
        send_packet-after_send z p (record s { free = free })
            (read_packet-IsStored s.seqnum second free memory s.buffer2 size h v.buffer2_len)
            v.buffer1_len,
        store_all s.buffer2 512 v.buffer2_len,
      )

  -- With a free slot the packet gets one.
  pub put_packet_free :
      (p : Pkt) (s : Sender)
      → IsSound s
      → 1 ≤ s.free
      → (put : List (Option Pkt)) × (put_packet p s.slots ≡ some put)
  put_packet_free p s v h = elim (Option-cases (put_packet p s.slots)) [
    | inl n ↦ absurd (omega (arith, put_packet_full p s.slots n, v.balance, v.slots_len))
    | inr x ↦ x
  ]

  pub after_data-IsSound :
      (p : Pkt) (s : Sender) (put : List (Option Pkt))
      → IsSound s
      → IsStored p
      → 1 ≤ s.free
      → put_packet p s.slots ≡ some put
      → IsSound (after_data p s)
  after_data-IsSound p s put v w h e = rw e record {
    slots_len = (put_packet-occupied p s.slots put e).1 ∙ v.slots_len;
    balance = omega (arith, (put_packet-occupied p s.slots put e).0, v.balance);
    seqnum_byte = omega arith;
    buffer1_len = length-replicate {A = ℕ} 528 0;
    buffer2_len = length-replicate {A = ℕ} 512 0;
    stored = put_packet-All IsStored p s.slots put w v.stored e;
  }

  occupied-set :
      (slots : List (Option Pkt)) (i : ℕ) (p : Pkt)
      → occupied slots ≡ 0
      → i < length slots
      → occupied (set slots i (some p)) ≡ 1
  occupied-set [] i p h lt = absurd (omega arith)
  occupied-set (none ∷ slots) zero p h lt = omega arith
  occupied-set (none ∷ slots) (suc i) p h lt = occupied-set slots i p h (omega arith)
  occupied-set (some q ∷ slots) i p h lt = absurd (omega arith)

  set-IsStored :
      (slots : List (Option Pkt)) (i : ℕ) (p : Pkt)
      → IsStored p
      → All (Holds IsStored) slots
      → All (Holds IsStored) (set slots i (some p))
  set-IsStored [] i p w a = a
  set-IsStored (q ∷ slots) zero p w a = (w, a.1)
  set-IsStored (q ∷ slots) (suc i) p w a = (a.0, set-IsStored slots i p w a.1)

  abbrev end_packet : ℕ → ℕ → ℕ → Pkt
  end_packet seqnum second free = (pkt_set_length (data_header seqnum second free) 0).1

  -- The packet for the end of the transmission: a header of type data that announces no bytes. It is
  -- sent when all slots are free, and takes one.
  pub send_end-IsSound :
      (second : ℕ) (s : Sender)
      → IsSound s
      → s.free ≡ 31
      → (p : Pkt) × (s' : Sender) × (send_end z second s ≡ some s')
        × IsSound s'
        × (s'.sent ≡ s.sent ++ (wire z p ∷ []))
        × (p.type ≡ 1)
        × (p.length ≡ 0)
        × (p.payload ≡ none)
  unfolding send_end
  send_end-IsSound second s v h =
      let free : ℕ = (s.free + 255) % 256 in
      let p : Pkt = end_packet s.seqnum second free in
      let w : IsStored p = record {
        sendable = record { packed = omega arith; fits = tt };
        short = omega arith;
      } in
      let s1 : Sender = after_send z p (record s { free = free }) in
      (
        p,
        record s1 {
          buffer2 = replicate 512 0;
          slots = set s.slots (s.seqnum % 30) (some p);
          seqnum = inc_seqnum s.seqnum;
        },
        rw (
          send_packet-after_send z p (record s { free = free }) w v.buffer1_len,
          store_all s.buffer2 512 v.buffer2_len,
        ),
        record {
          slots_len = length-set s.slots (s.seqnum % 30) (some p) ∙ v.slots_len;
          balance = omega (
            arith,
            v.balance,
            v.slots_len,
            occupied-set s.slots (s.seqnum % 30) p (omega (arith, v.balance))
                (omega (arith, v.slots_len)),
          );
          seqnum_byte = omega arith;
          buffer1_len = length-replicate {A = ℕ} 528 0;
          buffer2_len = length-replicate {A = ℕ} 512 0;
          stored = set-IsStored s.slots (s.seqnum % 30) p w v.stored;
        },
        refl,
        refl,
        refl,
        refl,
      )

  -- With a free slot and memory for the payload, the bytes read become a data packet of their own,
  -- with the next number, which is sent in the wire format and kept in a slot.
  pub send_data-IsData :
      (size second : ℕ) (s : Sender)
      → IsSound s
      → 1 ≤ s.free
      → 1 ≤ size
      → size ≤ 512
      → (p : Pkt) × (s' : Sender) × (send_data z size second true s ≡ some s')
        × IsSound s'
        × IsData p (take size s.buffer2)
        × (p.seqnum ≡ s.seqnum)
        × (s'.sent ≡ s.sent ++ (wire z p ∷ []))
        × (s'.seqnum ≡ inc_seqnum s.seqnum)
        × (s'.free + 1 ≡ s.free)
        × (put_packet p s.slots ≡ some s'.slots)
  send_data-IsData size second s v h lo hi =
      let p : Pkt = read_packet s.seqnum second ((s.free + 255) % 256) true s.buffer2 size in
      let (put, e) = put_packet_free p s v h in
      (
        p,
        after_data p s,
        send_data-after_data size second true s v hi,
        after_data-IsSound p s put v
            (read_packet-IsStored s.seqnum second ((s.free + 255) % 256) true s.buffer2 size hi
              v.buffer2_len)
            h e,
        read_packet-IsData s.seqnum second ((s.free + 255) % 256) s.buffer2 size lo hi
            v.buffer2_len,
        omega (arith, v.seqnum_byte),
        rw e refl,
        rw e refl,
        rw e (omega (arith, v.balance)),
        rw e refl,
      )
