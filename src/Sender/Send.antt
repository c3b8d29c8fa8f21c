-- ===== src/Sender/Send.antt =====
-- What the sender puts on the network: every datagram is the wire format of a packet.
use lingi1341_projet.Prelude.{
  ℕ, ◌+◌, ◌≤◌, ◌<◌, ◌≡◌, refl, sym, ap, ap₂, subst, ◌∙◌, ◌⊎◌, inl, inr, Bool, true, false, Option,
  none, some, List, [], ◌∷◌, ◌++◌, map, append_assoc, append-nil, arith, length, drop, replicate,
  All, length-append, length-drop, length-replicate, ltb, leb, not, ◌||◌, ◌==◌, if◌then◌else◌,
  leb→le, Bool-cases,
}
use lingi1341_projet.Prelude.Memory.{load-append, store_all}
use lingi1341_projet.Platform.{Zlib}
use lingi1341_projet.Packet.{Pkt}
use lingi1341_projet.Packet.Wire.{wire, be32, trailer, Fits}
use lingi1341_projet.Packet.Slots.{occupied, Holds}
use lingi1341_projet.Packet.Encode.{encode-wire}
use lingi1341_projet.Sender.{Sender}
use lingi1341_projet.Sender.Phases.{
  send_packet, fast_loop, fast_retransmit, is_due, resend_loop, resend,
}
use lingi1341_projet.Sender.Invariant.{IsStored, IsSound}

-- The packets in the slots that pass a test, in the order of the slots.
abbrev pub selected : (Pkt → Bool) → List (Option Pkt) → List Pkt
selected test [] = []
selected test (none ∷ slots) = selected test slots
selected test (some p ∷ slots) = if test p then p ∷ selected test slots else selected test slots

pub selected_empty :
    (test : Pkt → Bool) (slots : List (Option Pkt)) → occupied slots ≡ 0 → selected test slots ≡ []
selected_empty test [] h = refl
selected_empty test (none ∷ slots) h = selected_empty test slots h
selected_empty test (some p ∷ slots) h = absurd (omega arith)

-- A packet with the number that was acknowledged again and again.
abbrev pub is_missing : ℕ → Pkt → Bool
is_missing number p = p.seqnum == number

-- A packet of an earlier second of the minute whose number is at most the next one.
abbrev pub is_older : ℕ → ℕ → Pkt → Bool
is_older stamp next p = not (leb stamp p.timestamp || ltb next p.seqnum)

is_due-is_older : (stamp next : ℕ) (p : Pkt) → is_due stamp next p ≡ is_older stamp next p
is_due-is_older stamp next p = ground arith

selected-is_older :
    (stamp next : ℕ) (slots : List (Option Pkt))
    → selected (is_due stamp next) slots ≡ selected (is_older stamp next) slots
selected-is_older stamp next [] = refl
selected-is_older stamp next (none ∷ slots) = selected-is_older stamp next slots
selected-is_older stamp next (some p ∷ slots) =
    rw (is_due-is_older stamp next p, selected-is_older stamp next slots) refl

module _ (z : Zlib) where
  length-trailer :
      (n : ℕ) (body : Option (List ℕ)) → Fits n body → n ≤ 512 → length (trailer z body) ≤ 516
  length-trailer n none f h = omega arith
  length-trailer n (some body) f h = omega (arith, length-append body (be32 (z.crc32 0 body)))

  pub length-wire_le : (p : Pkt) → IsStored p → length (wire z p) ≤ 528
  length-wire_le p v = omega (arith, length-trailer p.length p.payload v.sendable.fits v.short)

  -- The state after a packet was sent.
  abbrev pub after_send : Pkt → Sender → Sender
  after_send p s = record s {
    buffer1 = replicate 528 0;
    len = 528;
    sent = s.sent ++ (wire z p ∷ []);
  }

  pub send_packet-after_send :
      (p : Pkt) (s : Sender)
      → IsStored p
      → length s.buffer1 ≡ 528
      → send_packet z p s ≡ some (after_send p s)
  unfolding send_packet
  send_packet-after_send p s v h =
      let room : length (wire z p) ≤ length s.buffer1 = omega (arith, length-wire_le p v) in
      rw (
        encode-wire z p s.buffer1 v.sendable room,
        load-append [] (wire z p) (drop (length (wire z p)) s.buffer1) 0 (length (wire z p)) refl
            refl,
        store_all (wire z p ++ drop (length (wire z p)) s.buffer1) 528 (
            omega (
              arith,
              length-append (wire z p) (drop (length (wire z p)) s.buffer1),
              length-drop (length (wire z p)) s.buffer1,
            )),
      )

  -- Between the states `s` and `s'` the packets `ps` were sent, and nothing was stored or dropped.
  pub record Sent (ps : List Pkt) (s s' : Sender) : Type 0 where
    pub datagrams : s'.sent ≡ s.sent ++ map (wire z) ps
    pub slots_same : s'.slots ≡ s.slots
    pub free_same : s'.free ≡ s.free
    pub seqnum_same : s'.seqnum ≡ s.seqnum
    pub lastack_same : s'.lastack ≡ s.lastack
    pub buffer1_len : length s'.buffer1 ≡ 528
    pub buffer2_same : s'.buffer2 ≡ s.buffer2

  Sent-none : (s : Sender) → length s.buffer1 ≡ 528 → Sent [] s s
  Sent-none s h = record {
    datagrams = sym (append-nil s.sent);
    slots_same = refl;
    free_same = refl;
    seqnum_same = refl;
    lastack_same = refl;
    buffer1_len = h;
    buffer2_same = refl;
  }

  Sent-cons :
      (p : Pkt) (ps : List Pkt) (s s' : Sender) (n : ℕ)
      → Sent ps (record (after_send p s) { count = n }) s'
      → Sent (p ∷ ps) s s'
  Sent-cons p ps s s' n x = record {
    datagrams = x.datagrams ∙ append_assoc s.sent (wire z p ∷ []) (map (wire z) ps);
    slots_same = x.slots_same;
    free_same = x.free_same;
    seqnum_same = x.seqnum_same;
    lastack_same = x.lastack_same;
    buffer1_len = x.buffer1_len;
    buffer2_same = x.buffer2_same;
  }

  pub Sent-IsSound : (ps : List Pkt) (s s' : Sender) → IsSound s → Sent ps s s' → IsSound s'
  Sent-IsSound ps s s' v x = record {
    slots_len = ap length x.slots_same ∙ v.slots_len;
    balance =
        ap₂ (λ (n : ℕ) (t : List (Option Pkt)). n + occupied t) x.free_same x.slots_same
        ∙ v.balance;
    seqnum_byte = subst (λ (n : ℕ). n < 256) (sym x.seqnum_same) v.seqnum_byte;
    buffer1_len = x.buffer1_len;
    buffer2_len = ap length x.buffer2_same ∙ v.buffer2_len;
    stored = subst (All (Holds IsStored)) (sym x.slots_same) v.stored;
  }

  not_below : (n : ℕ) → ltb n 31 ≡ false → 31 ≤ n
  not_below n h = ground arith

  fast_loop_hit :
      (p : Pkt) (slots : List (Option Pkt)) (s : Sender)
      → is_missing s.lastack p ≡ true
      → IsStored p
      → length s.buffer1 ≡ 528
      → fast_loop z (some p ∷ slots) s ≡ fast_loop z slots (record (after_send p s) { count = 0 })
  unfolding fast_loop
  fast_loop_hit p slots s hit v h = rw (hit, fast_loop, send_packet-after_send p s v h)

  resend_loop_hit :
      (stamp : ℕ) (p : Pkt) (slots : List (Option Pkt)) (s : Sender)
      → is_due stamp s.seqnum p ≡ true
      → IsStored p
      → length s.buffer1 ≡ 528
      → resend_loop z stamp (some p ∷ slots) s ≡ resend_loop z stamp slots (after_send p s)
  unfolding resend_loop
  resend_loop_hit stamp p slots s hit v h = rw (hit, resend_loop, send_packet-after_send p s v h)

  fast_loop-Sent :
      (slots : List (Option Pkt)) (s : Sender)
      → All (Holds IsStored) slots
      → length s.buffer1 ≡ 528
      → (s' : Sender) × (fast_loop z slots s ≡ some s')
        × Sent (selected (is_missing s.lastack) slots) s s'
        × ((s'.count ≡ 0) ⊎ ((selected (is_missing s.lastack) slots ≡ []) × (s' ≡ s)))
  unfolding fast_loop
  fast_loop-Sent [] s a h = (s, refl, Sent-none s h, inr (refl, refl))
  fast_loop-Sent (none ∷ slots) s a h = fast_loop-Sent slots s a.1 h
  fast_loop-Sent (some p ∷ slots) s a h = elim (Bool-cases (is_missing s.lastack p)) [
    | inr miss ↦
        let (s', e, x, c) = fast_loop-Sent slots s a.1 h in
        (s', rw (miss, fast_loop) e, rw miss x, rw miss c)
    | inl hit ↦
        let s1 : Sender = record (after_send p s) { count = 0 } in
        let (s', e, x, c) = fast_loop-Sent slots s1 a.1 (length-replicate {A = ℕ} 528 0) in
        (
          s',
          fast_loop_hit p slots s hit a.0 h ∙ e,
          rw hit (Sent-cons p (selected (is_missing s.lastack) slots) s s' 0 x),
          inl (elim c [
            | inl zero_now ↦ zero_now
            | inr (_, same) ↦ ap (λ (t : Sender). t.count) same
          ]),
        )
  ]

  resend_loop-Sent :
      (stamp : ℕ) (slots : List (Option Pkt)) (s : Sender)
      → All (Holds IsStored) slots
      → length s.buffer1 ≡ 528
      → (s' : Sender) × (resend_loop z stamp slots s ≡ some s')
        × Sent (selected (is_due stamp s.seqnum) slots) s s'
  unfolding resend_loop
  resend_loop-Sent stamp [] s a h = (s, refl, Sent-none s h)
  resend_loop-Sent stamp (none ∷ slots) s a h = resend_loop-Sent stamp slots s a.1 h
  resend_loop-Sent stamp (some p ∷ slots) s a h = elim (Bool-cases (is_due stamp s.seqnum p)) [
    | inr miss ↦
        let (s', e, x) = resend_loop-Sent stamp slots s a.1 h in
        (s', rw (miss, resend_loop) e, rw miss x)
    | inl hit ↦
        let s1 : Sender = after_send p s in
        let (s', e, x) = resend_loop-Sent stamp slots s1 a.1 (length-replicate {A = ℕ} 528 0) in
        (
          s',
          resend_loop_hit stamp p slots s hit a.0 h ∙ e,
          rw hit (Sent-cons p (selected (is_due stamp s.seqnum) slots) s s' s.count x),
        )
  ]

  -- From three repeated acknowledgements on, the fast retransmit sends exactly the packets in the
  -- slots that have the acknowledged number, stores and drops nothing, and if there is one, starts to
  -- count anew; with fewer it does nothing.
  pub fast_retransmit-Sent :
      (s : Sender)
      → IsSound s
      → (s' : Sender) × (fast_retransmit z s ≡ some s')
        × IsSound s'
        × (((s.count < 3) × (s' ≡ s))
            ⊎ ((3 ≤ s.count)
                × Sent (selected (is_missing s.lastack) s.slots) s s'
                × ((s'.count ≡ 0) ⊎ (selected (is_missing s.lastack) s.slots ≡ []))))
  unfolding fast_retransmit
  fast_retransmit-Sent s v = elim (Bool-cases (leb 3 s.count)) [
    | inr few ↦ (s, rw few, v, inl (ground arith, refl))
    | inl enough ↦
        let (s', e, x, c) = fast_loop-Sent s.slots s v.stored v.buffer1_len in
        (
          s',
          rw enough e,
          Sent-IsSound (selected (is_missing s.lastack) s.slots) s s' v x,
          inr (
            leb→le 3 s.count enough,
            x,
            elim c [ inl c0 ↦ inl c0 | inr (none_left, _) ↦ inr none_left ],
          ),
        )
  ]

  pub resend-Sent :
      (stamp : ℕ) (s : Sender)
      → IsSound s
      → (s' : Sender) × (resend z stamp s ≡ some s')
        × IsSound s'
        × Sent (selected (is_older stamp s.seqnum) s.slots) s s'
  unfolding resend
  resend-Sent stamp s v = elim (Bool-cases (ltb s.free 31)) [
    | inr all_free ↦
        let empty : selected (is_older stamp s.seqnum) s.slots ≡ [] =
          selected_empty (is_older stamp s.seqnum) s.slots
            (omega (arith, v.balance, not_below s.free all_free)) in
        (s, rw all_free, v, rw empty (Sent-none s v.buffer1_len))
    | inl some_taken ↦
        let (s', e, x) = resend_loop-Sent stamp s.slots s v.stored v.buffer1_len in
        let y : Sent (selected (is_older stamp s.seqnum) s.slots) s s' =
          subst (λ (ps : List Pkt). Sent ps s s') (selected-is_older stamp s.seqnum s.slots) x in
        (s', rw some_taken e, Sent-IsSound (selected (is_older stamp s.seqnum) s.slots) s s' v y, y)
  ]
