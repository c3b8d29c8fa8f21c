-- ===== src/Network/Rounds.antt =====
-- The rounds of both sides keep the invariant of the network.
use lingi1341_projet.Prelude.{
  ℕ, ◌≤◌, ◌<◌, ◌≡◌, refl, sym, ap, subst, ◌∙◌, inl, inr, Bool, true, some, List, [], ◌∷◌, ◌++◌,
  arith, length, take, drop, All, length-take, All-map, All-append,
}
use mathlib.Core.Option.{some-injective}
use lingi1341_projet.Platform.{Zlib, IsZlib}
use lingi1341_projet.Packet.{Pkt}
use lingi1341_projet.Packet.Wire.{wire}
use lingi1341_projet.Packet.RoundTrip.{has_memory}
use lingi1341_projet.Receiver.{Receiver, arrival, continue, step}
use lingi1341_projet.Receiver.Ack.{ack_buffer, after_ack, length-ack_buffer}
use lingi1341_projet.Receiver.Answers.{ack-Acknowledges}
use lingi1341_projet.Receiver.Branches.{state, after_ack-IsValid}
use lingi1341_projet.Receiver.Invariant.{IsValid}
use lingi1341_projet.Sender.{Sender, Wake, go_on}
use lingi1341_projet.Sender.Loop.{sender_of}
use lingi1341_projet.Sender.Phases.{round, read_file}
use lingi1341_projet.Network.{
  System, Hears, IsPolled, bytes_read, before_file, Step, sends, receives,
}
use lingi1341_projet.Packet.{pkt_new}
use lingi1341_projet.Sender.{datagram_bytes}
use lingi1341_projet.Receiver.Answers.{IsCleared, cleared_buffer-IsCleared}
use lingi1341_projet.Receiver.Branches.{handle_refused}
use lingi1341_projet.Receiver.Step.{
  cleared_buffer, cleared_buffer-IsValid, length-received_buffer, step_after,
}
use lingi1341_projet.Network.Invariant.{HasPieces}
use lingi1341_projet.Network.{IsRefused}
use lingi1341_projet.Network.{IsAmong}
use lingi1341_projet.Network.Chunks.{IsChunk, Carries}
use lingi1341_projet.Network.Invariant.{
  HasPieces-append, IsAckOf, IsAckUpTo, IsAckUpTo-le, HasPending, HasPending-le, Invariant,
}
use lingi1341_projet.Network.Receiving.{piece-Answered}
use lingi1341_projet.Network.Sending.{BeforeFile-HasPending}
use lingi1341_projet.Network.Reading.{read_file-HasPending}
use lingi1341_projet.Network.Slots.{IsAmong-right, IsAmong-All}

module _ (z : Zlib) where
  -- The answer acknowledges the number that the receiver expects then.
  answer-IsAckOf :
      (after : Receiver)
      → IsZlib z
      → IsValid after
      → IsCleared after.buffer
      → IsAckOf z after.seqnum (take 512 (ack_buffer z after))
  answer-IsAckOf after iz v clear = (
    after.window,
    length-take 512 (ack_buffer z after) (omega (arith, length-ack_buffer z after v.buffer_len)),
    ack-Acknowledges z after iz (omega (arith, v.free)) v.seqnum_byte clear,
  )

  answered-Invariant :
      (t : System) (after : Receiver)
      → IsZlib z
      → Invariant z t
      → HasPieces t.chunks after
      → t.receiver.seqnum ≤ after.seqnum
      → IsCleared after.buffer
      → after.sent ≡ t.receiver.sent
      → Invariant z (record t { receiver = after_ack z after })
  answered-Invariant t after iz v pieces not_back clear same_sent =
      let (window, long, acks) = answer-IsAckOf after iz pieces.valid clear in
      record {
        pieces = record {
          valid = after_ack-IsValid z after pieces.valid;
          stored = pieces.stored;
          written = pieces.written;
          within = pieces.within;
        };
        answers =
            All-append (IsAckUpTo z after.seqnum) after.sent (take 512 (ack_buffer z after) ∷ [])
              (subst (All (IsAckUpTo z after.seqnum)) (sym same_sent) (
                All-map (IsAckUpTo z t.receiver.seqnum) (IsAckUpTo z after.seqnum) t.receiver.sent
                  (IsAckUpTo-le z t.receiver.seqnum after.seqnum not_back) v.answers))
              ((window, after.seqnum, omega arith, long, acks), tt);
        sending =
            HasPending-le z t.chunks t.receiver.seqnum after.seqnum t.sender not_back v.sending;
      }

  -- A datagram that is refused is answered with an acknowledgement, and changes nothing else.
  refused_round :
      (t : System) (d : List ℕ) (writes : ℕ → Bool)
      → IsZlib z
      → Invariant z t
      → IsRefused z d
      → (r : Receiver) × (step z (arrival (some d) has_memory writes) t.receiver
          ≡ some (continue r))
        × Invariant z (record t { receiver = r })
        × (t.receiver.seqnum ≤ r.seqnum)
  refused_round t d writes iz v refused =
      let r : Receiver = t.receiver in
      let r0 : Receiver = record r { buffer = cleared_buffer (some d) r } in
      let v0 : IsValid r0 = cleared_buffer-IsValid (some d) r v.pieces.valid in
      let (code, p, n, e) =
        refused (drop (length (datagram_bytes d)) r.buffer) pkt_new
          (length-received_buffer (some d) r v.pieces.valid) in
      (
        after_ack z r0,
        step_after z (some d) has_memory writes r v.pieces.valid (some (code, p)) e
            ∙ handle_refused z writes code p r0 n v0,
        answered-Invariant t r0 iz v
            record {
              valid = v0;
              stored = v.pieces.stored;
              written = v.pieces.written;
              within = v.pieces.within;
            }
            (omega arith) (cleared_buffer-IsCleared z (some d) r v.pieces.valid) refl,
        omega arith,
      )

  -- A round of the receiver on a piece, and its answer.
  pub receive_round :
      (t : System) (p : Pkt) (writes : ℕ → Bool)
      → IsZlib z
      → length t.chunks ≤ 255
      → Invariant z t
      → IsChunk t.chunks p
      → ((k : ℕ) → writes k ≡ true)
      → (r : Receiver) × (step z (arrival (some (wire z p)) has_memory writes) t.receiver
          ≡ some (continue r))
        × Invariant z (record t { receiver = r })
        × (d : List ℕ) × IsAmong d r.sent
        × IsAckOf z r.seqnum d
        × (p.seqnum ≡ t.receiver.seqnum → t.receiver.seqnum < r.seqnum)
        × (t.receiver.seqnum ≤ r.seqnum)
  receive_round t p writes iz few v c w =
      let a = piece-Answered z t.chunks p t.receiver few c v.pieces writes iz w in
      (
        after_ack z a.after,
        a.answers,
        answered-Invariant t a.after iz v a.pieces a.not_back a.clear a.same_sent,
        take 512 (ack_buffer z a.after),
        IsAmong-right (take 512 (ack_buffer z a.after)) a.after.sent
            (take 512 (ack_buffer z a.after) ∷ []) (inl refl),
        answer-IsAckOf a.after iz a.pieces.valid a.clear,
        a.ahead,
        a.not_back,
      )

  -- A round of the sender.
  pub send_round :
      (is_file : Bool) (t : System) (w : Wake) (s1 s2 : Sender)
      → Invariant z t
      → Hears z t.receiver.sent w.socket
      → IsPolled is_file w.file
      → w.payload_memory ≡ true
      → before_file z w t.sender ≡ some (go_on s1)
      → round z is_file (some w) t.sender ≡ some (go_on s2)
      → length (t.chunks ++ bytes_read w.file s1) ≤ 255
      → Invariant z (record t { sender = s2; chunks = t.chunks ++ bytes_read w.file s1 })
  send_round is_file t w s1 s2 v heard polled memory before e few =
      let b =
        BeforeFile-HasPending z t.chunks t.receiver.seqnum w t.receiver.sent t.sender v.answers
          heard v.sending in
      let same : b.state ≡ s1 =
        ap sender_of (some-injective (go_on b.state) (go_on s1) (sym b.ends ∙ before)) in
      let reads : read_file z is_file w.file w.send_second true s1 ≡ some (go_on s2) =
        subst (λ (m : Bool). read_file z is_file w.file w.send_second m s1 ≡ some (go_on s2)) memory
          (subst
            (λ (x : Sender).
              read_file z is_file w.file w.send_second w.payload_memory x ≡ some (go_on s2))
            same (sym (b.rounds is_file) ∙ e)) in
      let (_, _, h) =
        read_file-HasPending z t.chunks t.receiver.seqnum is_file w.file w.send_second s1 s2
          (subst (HasPending z t.chunks t.receiver.seqnum) same b.pending) v.pieces.within polled
          few reads in
      record {
        pieces = HasPieces-append t.chunks (bytes_read w.file s1) t.receiver v.pieces;
        answers = v.answers;
        sending = h;
      }

  next_receiver :
      (t : System) (r1 r : Receiver)
      → some (continue r1) ≡ some (continue r)
      → Invariant z (record t { receiver = r1 }) × (t.receiver.seqnum ≤ r1.seqnum)
      → Invariant z (record t { receiver = r }) × (t.receiver.seqnum ≤ r.seqnum)
  next_receiver t r1 r same v =
      subst
        (λ (x : Receiver). Invariant z (record t { receiver = x }) × (t.receiver.seqnum ≤ x.seqnum))
        (ap state (some-injective (continue r1) (continue r) same)) v

  -- Every step keeps the invariant, and the expected number does not go back.
  pub Step-Invariant :
      {is_file : Bool} {t u : System}
      → IsZlib z
      → length u.chunks ≤ 255
      → Step z is_file t u
      → Invariant z t
      → Invariant z u × (t.receiver.seqnum ≤ u.receiver.seqnum)
  Step-Invariant {is_file} {t} iz few (sends w s1 s2 heard polled memory timed before e) v =
      (send_round is_file t w s1 s2 v heard polled memory before e few, omega arith)
  Step-Invariant {is_file} {t} iz few (receives d writes r (inl among) w e) v =
      let (p, same, c) = IsAmong-All (Carries z t.chunks) d t.sender.sent v.sending.carried among in
      let (r1, e1, v1, _, _, _, _, le) = receive_round t p writes iz few v c w in
      next_receiver t r1 r
        (sym e1
          ∙ ap (λ (x : List ℕ). step z (arrival (some x) has_memory writes) t.receiver) (sym same)
          ∙ e)
        (v1, le)
  Step-Invariant {is_file} {t} iz few (receives d writes r (inr refused) w e) v =
      let (r1, e1, v1, le) = refused_round t d writes iz v refused in
      next_receiver t r1 r (sym e1 ∙ e) (v1, le)
