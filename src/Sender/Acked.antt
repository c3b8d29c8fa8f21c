-- ===== src/Sender/Acked.antt =====
-- What the sender does with acknowledgements.
use lingi1341_projet.Prelude.{
  ℕ, ◌+◌, ◌≤◌, ◌<◌, ◌≡◌, refl, sym, ap, subst, ◌∙◌, ◌≢◌, ◌⊎◌, inl, inr, false, ◌&&◌, none, some,
  List, ◌++◌, map, arith, length, take, drop, replicate, length-append, length-take_le, length-drop,
  length-replicate, take-all, ◌==◌, if◌then◌else◌, Bool-cases, Option-cases,
}
use lingi1341_projet.Prelude.Memory.{store_front, store_all}
use mathlib.Core.Option.{some-injective}
use lingi1341_projet.Platform.{Zlib, Alloc}
use lingi1341_projet.Packet.{Pkt, Status, pkt_ok}
use lingi1341_projet.Packet.Codec.{pkt_decode}
use lingi1341_projet.Packet.RoundTrip.{has_memory}
use lingi1341_projet.Packet.Slots.{Contains}
use lingi1341_projet.Receiver.{is_ok}
use lingi1341_projet.Receiver.Answers.{Acknowledges}
use lingi1341_projet.Sender.{Sender, acknowledged, datagram_bytes}
use lingi1341_projet.Sender.Phases.{receive_ack}
use lingi1341_projet.Sender.Invariant.{IsSound}
use lingi1341_projet.Sender.Unacked.{
  unacked, unacked-Contains, drop_acked-unacked, acknowledged-IsSound,
}

acknowledged-Contains :
    (ack : Pkt) (s : Sender) (n : ℕ)
    → (ack.seqnum ≤ n) ⊎ (s.seqnum ≤ n)
    → Contains n s.slots
    → Contains n (acknowledged ack s).slots
acknowledged-Contains ack s n h c =
    subst (Contains n) (sym (drop_acked-unacked ack.seqnum s.seqnum s.slots s.free))
      (unacked-Contains ack.seqnum s.seqnum n s.slots h c)

-- The packet with the number 255 stays in its slot, whatever one-byte number is acknowledged: none is above it,
-- and the number after it, 0, is below it.
pub acknowledged_keeps_last :
    (ack : Pkt) (s : Sender)
    → ack.seqnum < 256
    → Contains 255 s.slots
    → Contains 255 (acknowledged ack s).slots
acknowledged_keeps_last ack s h c = acknowledged-Contains ack s 255 (inl (omega arith)) c

module _ (z : Zlib) where
  -- The state after a datagram was received that is decoded to the status and the struct `d`.
  abbrev pub after_datagram : Status × Pkt → Sender → Sender
  after_datagram d s =
      let s1 : Sender = record s { buffer1 = replicate 528 0; ack = d.1 } in
      if is_ok d.0 && (d.1.type == 2) then acknowledged d.1 s1 else s1

  abbrev pub socket_buffer : List ℕ → Sender → List ℕ
  socket_buffer datagram s =
      datagram_bytes datagram ++ drop (length (datagram_bytes datagram)) s.buffer1

  pub length-socket_buffer :
      (datagram : List ℕ) (s : Sender) → IsSound s → length (socket_buffer datagram s) ≡ 528
  length-socket_buffer datagram s v = omega (
    arith,
    length-append (datagram_bytes datagram) (drop (length (datagram_bytes datagram)) s.buffer1),
    length-drop (length (datagram_bytes datagram)) s.buffer1,
    length-take_le 528 datagram,
    v.buffer1_len,
  )

  pub receive_ack-after_datagram :
      (datagram : List ℕ) (alloc : Alloc) (s : Sender) (d : Status × Pkt)
      → IsSound s
      → pkt_decode z alloc (socket_buffer datagram s) (length (datagram_bytes datagram)) s.ack
        ≡ some d
      → receive_ack z datagram alloc s ≡ some (after_datagram d s)
  unfolding receive_ack
  receive_ack-after_datagram datagram alloc s d v e = rw (
    store_front s.buffer1 (datagram_bytes datagram)
        (omega (arith, length-take_le 528 datagram, v.buffer1_len)),
    e,
    store_all (socket_buffer datagram s) 528 (length-socket_buffer datagram s v),
  )

  pub receive_ack_undefined :
      (datagram : List ℕ) (alloc : Alloc) (s : Sender)
      → IsSound s
      → pkt_decode z alloc (socket_buffer datagram s) (length (datagram_bytes datagram)) s.ack
        ≡ none
      → receive_ack z datagram alloc s ≡ none
  unfolding receive_ack
  receive_ack_undefined datagram alloc s v e = rw (
    store_front s.buffer1 (datagram_bytes datagram)
        (omega (arith, length-take_le 528 datagram, v.buffer1_len)),
    e,
  )

  refused-false : (code : Status) → code ≢ pkt_ok → is_ok code ≡ false
  refused-false pkt_ok n = absurd (n refl)
  refused-false _ n = refl

  after_datagram-IsSound :
      (d : Status × Pkt) (s : Sender) → IsSound s → IsSound (after_datagram d s)
  after_datagram-IsSound d s v =
      let s1 : Sender = record s { buffer1 = replicate 528 0; ack = d.1 } in
      let v1 : IsSound s1 = record {
        slots_len = v.slots_len;
        balance = v.balance;
        seqnum_byte = v.seqnum_byte;
        buffer1_len = length-replicate {A = ℕ} 528 0;
        buffer2_len = v.buffer2_len;
        stored = v.stored;
      } in
      elim (Bool-cases (is_ok d.0 && (d.1.type == 2))) [
        | inl good ↦ rw good (acknowledged-IsSound d.1 s1 v1)
        | inr bad ↦ rw bad v1
      ]

  -- Whatever is received and the allocator gives, the state stays sound.
  pub receive_ack-IsSound :
      (datagram : List ℕ) (alloc : Alloc) (s s' : Sender)
      → IsSound s
      → receive_ack z datagram alloc s ≡ some s'
      → IsSound s'
  receive_ack-IsSound datagram alloc s s' v e =
      elim (Option-cases
        (pkt_decode z alloc (socket_buffer datagram s) (length (datagram_bytes datagram)) s.ack)) [
          | inr (d, same) ↦
              subst IsSound
                (some-injective (after_datagram d s) s'
                  (sym (receive_ack-after_datagram datagram alloc s d v same) ∙ e))
                (after_datagram-IsSound d s v)
          | inl undefined ↦ absurd (cc (e, receive_ack_undefined datagram alloc s v undefined))
        ]

  -- What pkt_decode refuses changes nothing but the buffer and the struct.
  pub receive_ack-refused :
      (datagram : List ℕ) (s : Sender) (code : Status) (p : Pkt)
      → IsSound s
      → code ≢ pkt_ok
      → pkt_decode z has_memory (socket_buffer datagram s) (length (datagram_bytes datagram)) s.ack
        ≡ some (code, p)
      → (receive_ack z datagram has_memory s
          ≡ some (record s { buffer1 = replicate 528 0; ack = p }))
        × IsSound (record s { buffer1 = replicate 528 0; ack = p })
  receive_ack-refused datagram s code p v n e =
      let same : after_datagram (code, p) s ≡ record s { buffer1 = replicate 528 0; ack = p } =
        rw (refused-false code n) refl in
      (
        receive_ack-after_datagram datagram has_memory s (code, p) v e ∙ ap some same,
        subst IsSound same (after_datagram-IsSound (code, p) s v),
      )

  -- With memory, an acknowledgement of `number` from the receiver is understood: it becomes the last one, counts
  -- if it repeats the one before, and empties the slots of exactly the packets below `number`, if
  -- `number` is at most the next number to send, and none otherwise.
  pub receive_ack-Acknowledges :
      (window number : ℕ) (datagram : List ℕ) (s : Sender)
      → IsSound s
      → length datagram ≡ 512
      → Acknowledges z window number datagram
      → (s' : Sender) × (receive_ack z datagram has_memory s ≡ some s')
        × IsSound s'
        × (s'.lastack ≡ number)
        × (s'.count ≡ (if s.lastack == number then s.count + 1 else s.count))
        × (s'.slots ≡ map (unacked number s.seqnum) s.slots)
  receive_ack-Acknowledges window number datagram s v h a =
      let (p, e, is_ack, _, _, numbered) = a (drop (length datagram) s.buffer1) s.ack in
      let whole : take 528 datagram ≡ datagram = take-all 528 datagram (omega arith) in
      let decoded : pkt_decode z has_memory (socket_buffer datagram s)
            (length (datagram_bytes datagram)) s.ack
          ≡ some (pkt_ok, p) =
        ap
          (λ (b : List ℕ).
            pkt_decode z has_memory (b ++ drop (length b) s.buffer1) (length b) s.ack)
          whole
        ∙ ap
            (λ (n : ℕ).
              pkt_decode z has_memory (datagram ++ drop (length datagram) s.buffer1) n s.ack)
            h
        ∙ e in
      let s1 : Sender = record s { buffer1 = replicate 528 0; ack = p } in
      let accepted : after_datagram (pkt_ok, p) s ≡ acknowledged p s1 = rw is_ack refl in
      (
        acknowledged p s1,
        receive_ack-after_datagram datagram has_memory s (pkt_ok, p) v decoded ∙ ap some accepted,
        subst IsSound accepted (after_datagram-IsSound (pkt_ok, p) s v),
        numbered,
        ap (λ (n : ℕ). if s.lastack == n then s.count + 1 else s.count) numbered,
        drop_acked-unacked p.seqnum s.seqnum s.slots s.free
            ∙ ap (λ (n : ℕ). map (unacked n s.seqnum) s.slots) numbered,
      )

  -- An acknowledgement neither sends nor changes the next number.
  pub receive_ack-same :
      (datagram : List ℕ) (s s' : Sender)
      → IsSound s
      → receive_ack z datagram has_memory s ≡ some s'
      → (s'.seqnum ≡ s.seqnum) × (s'.sent ≡ s.sent)
  receive_ack-same datagram s s' v e =
      elim (Option-cases (
        pkt_decode z has_memory (socket_buffer datagram s) (length (datagram_bytes datagram))
          s.ack)) [
            | inl undefined ↦
                absurd (cc (e, receive_ack_undefined datagram has_memory s v undefined))
            | inr (d, same) ↦
                let result : after_datagram d s ≡ s' =
                  some-injective (after_datagram d s) s'
                    (sym (receive_ack-after_datagram datagram has_memory s d v same) ∙ e) in
                elim (Bool-cases (is_ok d.0 && (d.1.type == 2))) [
                  | inl good ↦
                      subst (λ (t : Sender). (t.seqnum ≡ s.seqnum) × (t.sent ≡ s.sent)) result
                        (rw good (refl, refl))
                  | inr bad ↦
                      subst (λ (t : Sender). (t.seqnum ≡ s.seqnum) × (t.sent ≡ s.sent)) result
                        (rw bad (refl, refl))
                ]
          ]

  -- Whatever arrives, no packet from the next number to send on is dropped.
  pub receive_ack-Contains :
      (datagram : List ℕ) (alloc : Alloc) (s s' : Sender) (n : ℕ)
      → IsSound s
      → receive_ack z datagram alloc s ≡ some s'
      → s.seqnum ≤ n
      → Contains n s.slots
      → Contains n s'.slots
  receive_ack-Contains datagram alloc s s' n v e h c =
      elim (Option-cases
        (pkt_decode z alloc (socket_buffer datagram s) (length (datagram_bytes datagram)) s.ack)) [
          | inl undefined ↦ absurd (cc (e, receive_ack_undefined datagram alloc s v undefined))
          | inr (d, same) ↦
              subst (λ (t : Sender). Contains n t.slots)
                (some-injective (after_datagram d s) s'
                  (sym (receive_ack-after_datagram datagram alloc s d v same) ∙ e))
                (elim (Bool-cases (is_ok d.0 && (d.1.type == 2))) [
                  | inl good ↦ rw good (
                      acknowledged-Contains d.1 (record s { buffer1 = replicate 528 0; ack = d.1 })
                        n (inr h) c)
                  | inr bad ↦ rw bad c
                ])
        ]
