-- ===== src/Network/Progress.antt =====
-- How the next piece gets to the receiver, whatever has happened to the datagrams that were sent.
use lingi1341_projet.Prelude.{
  ℕ, zero, suc, ◌+◌, ◌*◌, ◌≤◌, ◌<◌, ◌≡◌, refl, sym, ap, subst, ◌∙◌, inl, Bool, true, some, List, [],
  ◌++◌, append-nil, arith, length, All, length-append,
}
use native.Mathlib.Decide.{dec_lt}
use lingi1341_projet.Platform.{Zlib, IsZlib}
use lingi1341_projet.Packet.{Pkt}
use lingi1341_projet.Packet.Wire.{wire}
use lingi1341_projet.Packet.Slots.{Contains, Holds}
use lingi1341_projet.Sender.{Sender, Wake, silent, go_on, readable}
use lingi1341_projet.Sender.Phases.{round, read_file}
use lingi1341_projet.Sender.Reads.{read_file_at_end}
use lingi1341_projet.Network.{System, Step, rounds_of, sends, receives, Reach, here, next, IsAmong}
use lingi1341_projet.Network.Chunks.{IsChunk}
use lingi1341_projet.Network.Invariant.{Invariant}
use lingi1341_projet.Network.Rounds.{receive_round, send_round}
use lingi1341_projet.Network.Sending.{BeforeFile-HasPending}
use lingi1341_projet.Network.Invariant.{IsAckOf}
use lingi1341_projet.Packet.Slots.{Contains-occupied}

-- The network has lost every datagram that was sent.
abbrev pub all_lost : System → System
all_lost t = record t {
  sender = record t.sender { sent = [] };
  receiver = record t.receiver { sent = [] };
}

pub all_lost-Invariant : (z : Zlib) (t : System) → Invariant z t → Invariant z (all_lost t)
all_lost-Invariant z t v = record {
  pieces = record {
    valid = record {
      slots_len = v.pieces.valid.slots_len;
      free = v.pieces.valid.free;
      seqnum_byte = v.pieces.valid.seqnum_byte;
      buffer_len = v.pieces.valid.buffer_len;
      cleared = v.pieces.valid.cleared;
      stored = v.pieces.valid.stored;
    };
    stored = v.pieces.stored;
    written = v.pieces.written;
    within = v.pieces.within;
  };
  answers = tt;
  sending = record {
    sound = record {
      slots_len = v.sending.sound.slots_len;
      balance = v.sending.sound.balance;
      seqnum_byte = v.sending.sound.seqnum_byte;
      buffer1_len = v.sending.sound.buffer1_len;
      buffer2_len = v.sending.sound.buffer2_len;
      stored = v.sending.sound.stored;
    };
    number = v.sending.number;
    acked = v.sending.acked;
    pending = v.sending.pending;
    stored = v.sending.stored;
    carried = tt;
  };
}

-- A packet that was not sent in the last second of a minute.
abbrev pub IsEarly : Pkt → Type 0
IsEarly p = p.timestamp < 59

-- A round at the end of the file, with nothing to read on the socket.
abbrev idle_wake : Wake
idle_wake = record {
  socket = silent;
  file = readable (some []);
  resend_second = 59;
  send_second = 59;
  payload_memory = true;
}

module _ (z : Zlib) (is_file : Bool) where
  -- The sender sends the expected piece again.
  sends_again :
      (t : System)
      → length t.chunks ≤ 255
      → Invariant z t
      → t.receiver.seqnum < length t.chunks
      → All (Holds IsEarly) t.sender.slots
      → (s : Sender) × (p : Pkt) × Step z is_file t
          (record t { sender = s; chunks = t.chunks ++ [] })
        × Invariant z (record t { sender = s; chunks = t.chunks ++ [] })
        × (p.seqnum ≡ t.receiver.seqnum)
        × IsChunk t.chunks p
        × IsAmong (wire z p) s.sent
        × All (Holds IsEarly) s.slots
  sends_again t few v lacks early =
      let w : Wake = idle_wake in
      let b =
        BeforeFile-HasPending z t.chunks t.receiver.seqnum w t.receiver.sent t.sender v.answers tt
          v.sending in
      let waits : Contains t.receiver.seqnum b.state.slots =
        b.pending.pending t.receiver.seqnum (omega arith) lacks in
      let e : read_file z is_file (readable (some [])) 59 true b.state ≡ some (go_on b.state) =
        read_file_at_end z is_file 59 true b.state b.pending.sound
          (Contains-occupied t.receiver.seqnum b.state.slots waits) in
      let (p, number, chunk, among) =
        b.resent t.receiver.seqnum (omega (arith, v.sending.number))
          (v.sending.pending t.receiver.seqnum (omega arith) lacks) early in
      let goes_on : round z is_file (some w) t.sender ≡ some (go_on b.state) =
        b.rounds is_file ∙ e in
      (
        b.state,
        p,
        sends w b.state b.state tt tt refl (omega arith, omega arith) b.ends goes_on,
        send_round z is_file t w b.state b.state v tt tt refl b.ends goes_on
            (omega (arith, length-append t.chunks [])),
        number,
        chunk,
        among,
        subst (All (Holds IsEarly)) (sym (b.silence refl)) early,
      )

  -- How two rounds, or more, have brought the system from `t` to `u`: the receiver has more pieces, and
  -- has acknowledged them.
  pub record Advanced (t u : System) : Type 0 where
    pub reach : Reach z is_file t u
    pub short : rounds_of z reach + 2 * t.receiver.seqnum ≤ 2 * u.receiver.seqnum
    pub invariant : Invariant z u
    pub same : u.chunks ≡ t.chunks
    pub ahead : t.receiver.seqnum < u.receiver.seqnum
    pub answer : List ℕ
    pub sent : IsAmong answer u.receiver.sent
    pub acks : IsAckOf z u.receiver.seqnum answer
    pub early : All (Holds IsEarly) u.sender.slots

  one_more :
      (t : System)
      → IsZlib z
      → length t.chunks ≤ 255
      → Invariant z t
      → t.receiver.seqnum < length t.chunks
      → All (Holds IsEarly) t.sender.slots
      → (u : System) × Advanced t u
  one_more t iz few v lacks early =
      let (s, p, st, v1, number, chunk, among, early1) = sends_again t few v lacks early in
      let t1 : System = record t { sender = s; chunks = t.chunks ++ [] } in
      let chunk1 : IsChunk t1.chunks p =
        subst (λ (cs : List (List ℕ)). IsChunk cs p) (sym (append-nil t.chunks)) chunk in
      let (r, e, v2, d, sent, acks, ahead, _) =
        receive_round z t1 p (λ k. true) iz (omega (arith, length-append t.chunks [])) v1 chunk1
          (λ k. refl) in
      (
        record t1 { receiver = r },
        record {
          reach = next (next here st) (receives (wire z p) (λ k. true) r (inl among) (λ k. refl) e);
          short = omega (arith, ahead number);
          invariant = v2;
          same = append-nil t.chunks;
          ahead = ahead number;
          answer = d;
          sent = sent;
          acks = acks;
          early = early1;
        },
      )

  Reach-append : {t u v : System} → Reach z is_file t u → Reach z is_file u v → Reach z is_file t v
  Reach-append r here = r
  Reach-append r (next q st) = next (Reach-append r q) st

  rounds-append :
      {t u v : System} (r : Reach z is_file t u) (q : Reach z is_file u v)
      → rounds_of z (Reach-append r q) ≡ rounds_of z r + rounds_of z q
  unfolding Reach-append
  rounds-append r here = omega arith
  rounds-append r (next q st) = omega (arith, rounds-append r q)

  -- Up to the last piece.
  pub catches_up :
      (fuel : ℕ) (t : System)
      → IsZlib z
      → length t.chunks ≤ 255
      → Invariant z t
      → t.receiver.seqnum < length t.chunks
      → All (Holds IsEarly) t.sender.slots
      → length t.chunks ≤ t.receiver.seqnum + fuel
      → (u : System) × Advanced t u × (length u.chunks ≤ u.receiver.seqnum)
  catches_up zero t iz few v lacks early m = absurd (omega arith)
  catches_up (suc fuel) t iz few v lacks early m =
      let (u, a) = one_more t iz few v lacks early in
      let same_length : length u.chunks ≡ length t.chunks = ap length a.same in
      elim (dec_lt u.receiver.seqnum (length u.chunks)) [
        | no all ↦ (u, a, omega arith)
        | yes more ↦
            let (x, b, all) =
              catches_up fuel u iz (omega (arith, same_length)) a.invariant more a.early
                (omega (arith, same_length, a.ahead)) in
            (
              x,
              record {
                reach = Reach-append a.reach b.reach;
                short = omega (arith, rounds-append a.reach b.reach, a.short, b.short);
                invariant = b.invariant;
                same = b.same ∙ a.same;
                ahead = omega (arith, a.ahead, b.ahead);
                answer = b.answer;
                sent = b.sent;
                acks = b.acks;
                early = b.early;
              },
              all,
            )
      ]
