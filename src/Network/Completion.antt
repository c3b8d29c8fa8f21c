-- ===== src/Network/Completion.antt =====
-- How every byte gets into the receiver's file, and how the sender's loop then ends.
use lingi1341_projet.Prelude.{
  ℕ, ◌+◌, ◌*◌, ◌≤◌, ◌<◌, ◌≡◌, refl, ap, ◌∙◌, inl, Bool, true, Option, none, some, List, [], ◌∷◌,
  map, arith, length, All, take-all, ltb,
}
use lingi1341_projet.Prelude.Memory.{store_front}
use mathlib.Core.List.{flatten}
use lingi1341_projet.Platform.{Zlib, IsZlib}
use lingi1341_projet.Packet.{Pkt}
use lingi1341_projet.Packet.Slots.{occupied, Holds}
use lingi1341_projet.Receiver.Scan.{body}
use lingi1341_projet.Sender.{Sender, Wake, finish, readable}
use lingi1341_projet.Sender.Phases.{round, read_file, read_some}
use lingi1341_projet.Sender.Invariant.{IsSound}
use lingi1341_projet.Sender.Unacked.{unacked, is_below}
use lingi1341_projet.Sender.Reads.{after_read}
use lingi1341_projet.Sender.Stall.{hearing}
use lingi1341_projet.Network.{System, launch, Reach, rounds_of, IsAmong}
use lingi1341_projet.Network.Chunks.{IsChunk, get_elem?-lt}
use lingi1341_projet.Network.Invariant.{Invariant, IsAckOf, launch-Invariant}
use lingi1341_projet.Network.Progress.{IsEarly, all_lost, all_lost-Invariant, catches_up}
use lingi1341_projet.Network.Safety.{Reach-Invariant}
use lingi1341_projet.Network.Sending.{BeforeFile-HasPending}

module _ (z : Zlib) (is_file : Bool) where
  -- An acknowledgement above all numbers empties the slots.
  below_acked :
      (chunks : List (List ℕ)) (number seqnum : ℕ) (slots : List (Option Pkt))
      → All (Holds (IsChunk chunks)) slots
      → length chunks ≤ number
      → number ≤ seqnum
      → occupied (map (unacked number seqnum) slots) ≡ 0
  below_acked chunks number seqnum [] a lo hi = refl
  below_acked chunks number seqnum (none ∷ slots) a lo hi =
      below_acked chunks number seqnum slots a.1 lo hi
  below_acked chunks number seqnum (some p ∷ slots) a lo hi =
      let below : p.seqnum < length chunks =
        get_elem?-lt chunks p.seqnum (body p.payload) a.0.numbered in
      let acked : is_below number seqnum p ≡ true = ground (arith, below) in
      rw acked (below_acked chunks number seqnum slots a.1 lo hi)

  -- At the end of the file, with all slots free and an open window, the loop ends.
  read_end :
      (second : ℕ) (s : Sender)
      → IsSound s
      → s.free ≡ 31
      → s.seqnum ≡ s.lastack
      → read_file z is_file (readable (some [])) second true s ≡ some (finish (after_read [] s))
  unfolding read_file read_some
  read_end second s v free acked =
      let asked : ltb s.seqnum (s.lastack + s.free) ≡ true = ground arith in
      rw (asked, store_front s.buffer2 [] (omega arith), free) refl

  -- With every piece in the file, and its answer, the sender's loop ends at the end of the file.
  ends :
      (t : System) (d : List ℕ) (second : ℕ)
      → Invariant z t
      → length t.chunks ≤ t.receiver.seqnum
      → IsAmong d t.receiver.sent
      → IsAckOf z t.receiver.seqnum d
      → (s : Sender) × (round z is_file (some (hearing d (some []) second second)) t.sender
          ≡ some (finish s))
  ends t d second v all among (window, long, acks) =
      let w : Wake = hearing d (some []) second second in
      let b =
        BeforeFile-HasPending z t.chunks t.receiver.seqnum w t.receiver.sent t.sender v.answers
          (inl among, refl) v.sending in
      let (last, slots) = b.heard d window t.receiver.seqnum refl long acks in
      let emptied : occupied b.state.slots ≡ 0 =
        ap occupied slots
        ∙ below_acked t.chunks t.receiver.seqnum t.sender.seqnum t.sender.slots v.sending.stored all
            (omega (arith, v.pieces.within, v.sending.number)) in
      (
        after_read [] b.state,
        b.rounds is_file
            ∙ read_end second b.state b.pending.sound
                (omega (arith, b.pending.sound.balance, emptied))
                (omega (arith, b.pending.number, last, v.pieces.within)),
      )

-- However the rounds of both sides went so far, on a network that loses, repeats, delays, reorders or
-- corrupts datagrams so that pkt_decode refuses them, while memory and writes do not fail and
-- with at most 255 pieces read: if the receiver's file lacks a piece and no packet in a slot was sent in
-- the second 59 of a minute, and even if every datagram sent so far is lost, a run of at most two further rounds
-- for each missing piece brings all bytes that the sender has read into the receiver's file, and puts an
-- acknowledgement on the network with which the sender's loop ends, at any second, if its file is at
-- its end.
pub Reach-ends :
    (z : Zlib) (is_file : Bool) (t : System) (second : ℕ)
    → IsZlib z
    → Reach z is_file launch t
    → length t.chunks ≤ 255
    → t.receiver.seqnum < length t.chunks
    → All (Holds IsEarly) t.sender.slots
    → (u : System) × (run : Reach z is_file (all_lost t) u) × (rounds_of z run
          + 2 * t.receiver.seqnum
        ≤ 2 * length t.chunks)
      × (u.receiver.output ≡ flatten t.chunks)
      × (d : List ℕ) × IsAmong d u.receiver.sent
      × (s : Sender) × (round z is_file (some (hearing d (some []) second second)) u.sender
          ≡ some (finish s))
Reach-ends z is_file t second iz r few lacks early =
    let v : Invariant z (all_lost t) =
      all_lost-Invariant z t (Reach-Invariant iz few (launch-Invariant z) r) in
    let (u, a, all) =
      catches_up z is_file (length t.chunks) (all_lost t) iz few v lacks early (omega arith) in
    let (s, e) = ends z is_file u a.answer second a.invariant all a.sent a.acks in
    (
      u,
      a.reach,
      omega (arith, a.short, a.invariant.pieces.within, ap length a.same),
      a.invariant.pieces.written ∙ ap flatten (take-all u.receiver.seqnum u.chunks all ∙ a.same),
      a.answer,
      a.sent,
      s,
      e,
    )
