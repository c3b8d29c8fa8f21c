-- ===== src/Transfer.antt =====
-- The sender of sender.c and the receiver of transport_interface.c on the two ends of the network, in
-- projet1_Calmant_Outters/src.
mod Tests
use lingi1341_projet.Prelude.{
  ℕ, zero, suc, ◌+◌, ◌-◌, ◌*◌, ◌/◌, ◌%◌, ◌^◌, ◌≤◌, ◌<◌, ◌≡◌, refl, sym, ap, ap₂, subst, ◌∙◌, ◌≢◌,
  ◌↔◌, ◌⊎◌, inl, inr, Bool, true, false, ◌&&◌, ◌||◌, not, Option, none, some, List, [], ◌∷◌, ◌++◌,
  map, append_assoc, append-nil, arith, ◌>>=◌, length, get_or, set, take, drop, replicate, All,
  length-append, length-take, length-take_le, length-drop, length-replicate, length-set,
  take-append, drop-append, drop-nil, drop-drop, drop_past, length_zero, take-take, take-all, ltb,
  leb, ◌==◌, if◌then◌else◌, ltb→lt, lt→ltb, leb→le, ==_iff, Bool-cases, Option-cases,
}
use lingi1341_projet.Platform.{Zlib, IsZlib}
use lingi1341_projet.Packet.{Pkt}
use lingi1341_projet.Packet.RoundTrip.{has_memory}
use lingi1341_projet.Packet.Wire.{wire}
use lingi1341_projet.Receiver.{Receiver, arrival, continue, step}
use lingi1341_projet.Receiver.Ack.{ack_buffer, after_ack, length-ack_buffer}
use lingi1341_projet.Receiver.Answers.{IsCleared, ack-Acknowledges, cleared_buffer-IsCleared}
use lingi1341_projet.Receiver.Delivery.{step_expected}
use lingi1341_projet.Receiver.Scan.{IsExhausted}
use lingi1341_projet.Receiver.Flush.{bodies, advance, Taken}
use lingi1341_projet.Seqnum.{inc_seqnum}
use lingi1341_projet.Receiver.Invariant.{IsValid}
use lingi1341_projet.Sender.{Sender}
use lingi1341_projet.Sender.Phases.{receive_ack, send_data}
use lingi1341_projet.Sender.Invariant.{IsSound}
use lingi1341_projet.Sender.Data.{send_data-IsData}
use lingi1341_projet.Sender.Unacked.{unacked}
use lingi1341_projet.Sender.Acked.{receive_ack-Acknowledges}

-- What one exchange over the network makes of a sender and a receiver: `datagram` goes there, `answer`
-- comes back, and `ps` are the packets that are delivered behind it, taken from the receiver's slots until no slot
-- from 1 on holds the next one.
pub record Exchange (z : Zlib) (size second : ℕ) (writes : ℕ → Bool) (s : Sender) (r : Receiver)
    : Type 0 where
  pub datagram : List ℕ
  pub answer : List ℕ
  pub ps : List Pkt
  pub sender : Sender
  pub receiver : Receiver
  pub sender_after : Sender
  pub sends : send_data z size second true s ≡ some sender
  pub on_the_way : sender.sent ≡ s.sent ++ (datagram ∷ [])
  pub receives : step z (arrival (some datagram) has_memory writes) r ≡ some (continue receiver)
  pub written : receiver.output ≡ r.output ++ (take size s.buffer2 ++ bodies ps)
  pub kept : Taken r.slots (inc_seqnum r.seqnum) ps receiver.slots
  pub exhausted : IsExhausted receiver
  pub on_the_way_back : receiver.sent ≡ r.sent ++ (answer ∷ [])
  pub understands : receive_ack z answer has_memory sender ≡ some sender_after
  pub sound : IsSound sender_after
  pub acknowledged_number : sender_after.lastack ≡ receiver.seqnum
  pub emptied : sender_after.slots ≡ map (unacked receiver.seqnum sender.seqnum) sender.slots

module _ (z : Zlib) where
  -- A sound sender with a free slot and a valid receiver that expects its next number: the bytes that
  -- the sender has read are at the end of the receiver's file after one datagram, ahead of the
  -- payloads of the packets that are then taken from the receiver's slots, and its answer makes the sender empty
  -- the slots of exactly the packets below the receiver's expected number, if that is at most the sender's next
  -- number, and none otherwise. There is memory, and the writes succeed.
  pub exchange :
      (size second : ℕ) (writes : ℕ → Bool) (s : Sender) (r : Receiver)
      → IsZlib z
      → IsSound s
      → 1 ≤ s.free
      → 1 ≤ size
      → size ≤ 512
      → IsValid r
      → s.seqnum ≡ r.seqnum
      → ((j : ℕ) → writes j ≡ true)
      → Exchange z size second writes s r
  exchange size second writes s r iz v h lo hi u n w =
      let (p, s1, sends, v1, d, number, way, _, _, _) =
        send_data-IsData z size second s v h lo hi in
      let (ps, r1, receives, _, taken, none_left, written, _, _, u1, buffer, sent) =
        step_expected z p (take size s.buffer2) r d u writes iz w (number ∙ n) in
      let cleared : IsCleared r1.buffer =
        subst IsCleared (sym buffer) (cleared_buffer-IsCleared z (some (wire z p)) r u) in
      let acks = ack-Acknowledges z r1 iz (omega (arith, u1.free)) u1.seqnum_byte cleared in
      let answer : List ℕ = take 512 (ack_buffer z r1) in
      let len : length answer ≡ 512 =
        length-take 512 (ack_buffer z r1) (omega (arith, length-ack_buffer z r1 u1.buffer_len)) in
      let (s2, understands, v2, last, _, emptied) =
        receive_ack-Acknowledges z r1.window r1.seqnum answer s1 v1 len acks in
      record {
        datagram = wire z p;
        answer = answer;
        ps = ps;
        sender = s1;
        receiver = after_ack z r1;
        sender_after = s2;
        sends = sends;
        on_the_way = way;
        receives = receives;
        written = written;
        kept = taken;
        exhausted = none_left;
        on_the_way_back = ap (λ (t : List (List ℕ)). t ++ (answer ∷ [])) sent;
        understands = understands;
        sound = v2;
        acknowledged_number = last;
        emptied = emptied;
      }
