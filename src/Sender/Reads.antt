-- ===== src/Sender/Reads.antt =====
-- How a round of the sender ends, and what the phase that reads the file does.
use lingi1341_projet.Prelude.{
  ℕ, ◌+◌, ◌%◌, ◌≤◌, ◌<◌, ◌≡◌, refl, ap, ◌∙◌, ◌⊎◌, inl, inr, Bool, true, false, ◌&&◌, Option, none,
  some, List, [], ◌∷◌, ◌++◌, arith, ◌>>=◌, length, drop, replicate, length-append, length-take_le,
  length-drop, ltb, ◌==◌, ltb→lt, Bool-cases, Option-cases,
}
use lingi1341_projet.Prelude.Memory.{store, store_front}
use lingi1341_projet.Platform.{Zlib, Alloc}
use lingi1341_projet.Packet.{Pkt}
use lingi1341_projet.Packet.Wire.{wire}
use lingi1341_projet.Packet.Slots.{occupied, occupied-le-length}
use lingi1341_projet.Sender.{
  Sender, Socket, received_from, File, not_ready, readable, Turn, go_on, finish, read_bytes,
  put_packet,
}
use lingi1341_projet.Sender.Phases.{read_some, send_data, read_file}
use lingi1341_projet.Sender.Invariant.{IsSound}
use lingi1341_projet.Sender.Send.{after_send}
use lingi1341_projet.Sender.Data.{
  read_packet, read_packet-IsStored, after_data, send_data-after_data, after_data-IsSound,
  send_end-IsSound,
}
use lingi1341_projet.Sender.Put.{put_packet_full, put_packet-occupied}

-- The last datagram is a packet with the next number, which it has not advanced: with all slots taken it has
-- got none, and the count of free slots has wrapped around.
pub record IsOverrun (z : Zlib) (s : Sender) : Type 0 where
  pub packet : Pkt
  pub earlier : List (List ℕ)
  pub packet_sent : s.sent ≡ earlier ++ (wire z packet ∷ [])
  pub numbered : packet.seqnum ≡ s.seqnum
  pub full : occupied s.slots ≡ 31
  pub wrapped : s.free ≡ 255

-- How a round ends, by what the socket and the file answered.
pub data Outcome (z : Zlib) (socket : Socket) (file : File) : Turn → Type 0 where
  -- The next round follows, from a sound state.
  continues : (s : Sender) → IsSound s → Outcome z socket file (go_on s)
  -- A packet was sent with all slots taken.
  overruns : (s : Sender) → IsOverrun z s → Outcome z socket file (go_on s)
  -- `recvfrom` or `read` failed.
  fails :
      (s : Sender)
      → IsSound s
      → ((alloc : Alloc) × (socket ≡ received_from none alloc)) ⊎ (file ≡ readable none)
      → Outcome z socket file (finish s)
  -- The file is at its end and no packet waits for an acknowledgement.
  completes :
      (s : Sender)
      → IsSound s
      → occupied s.slots ≡ 0
      → file ≡ readable (some [])
      → Outcome z socket file (finish s)

nothing_read : (content : List ℕ) → length (read_bytes content) ≡ 0 → content ≡ []
nothing_read [] h = refl
nothing_read (b ∷ content) h = absurd (omega arith)

-- The state with what `read` put into the second buffer.
abbrev pub after_read : List ℕ → Sender → Sender
after_read content s = record s {
  buffer2 = read_bytes content ++ drop (length (read_bytes content)) s.buffer2;
}

pub after_read-IsSound :
    (content : List ℕ) (s : Sender) → IsSound s → IsSound (after_read content s)
after_read-IsSound content s v = record {
  slots_len = v.slots_len;
  balance = v.balance;
  seqnum_byte = v.seqnum_byte;
  buffer1_len = v.buffer1_len;
  buffer2_len = omega (
    arith,
    length-append (read_bytes content) (drop (length (read_bytes content)) s.buffer2),
    length-drop (length (read_bytes content)) s.buffer2,
    length-take_le 512 content,
    v.buffer2_len,
  );
  stored = v.stored;
}

read_packet-seqnum :
    (seqnum second free : ℕ) (memory : Bool) (buffer : List ℕ) (size : ℕ)
    → seqnum < 256
    → (read_packet seqnum second free memory buffer size).seqnum ≡ seqnum
read_packet-seqnum seqnum second free true buffer size h = omega arith
read_packet-seqnum seqnum second free false buffer size h = omega arith

module _ (z : Zlib) where
  data_Outcome :
      (socket : Socket) (file : File) (size second : ℕ) (memory : Bool) (s : Sender)
      → IsSound s
      → size ≤ 512
      → let p = read_packet s.seqnum second ((s.free + 255) % 256) memory s.buffer2 size in
        Outcome z socket file (go_on (after_data z p s))
  data_Outcome socket file size second memory s v h =
      let p : Pkt = read_packet s.seqnum second ((s.free + 255) % 256) memory s.buffer2 size in
      elim (Option-cases (put_packet p s.slots)) [
        | inl full ↦ rw full (
            overruns
              (record (after_send z p s) { free = (s.free + 255) % 256; buffer2 = replicate 512 0 })
              (record {
                packet = p;
                earlier = s.sent;
                packet_sent = refl;
                numbered =
                    read_packet-seqnum s.seqnum second ((s.free + 255) % 256) memory s.buffer2 size
                      v.seqnum_byte;
                full = put_packet_full p s.slots full ∙ v.slots_len;
                wrapped = omega (arith, put_packet_full p s.slots full, v.balance, v.slots_len);
              }))
        | inr (put, e) ↦ continues (after_data z p s) (
            after_data-IsSound z p s put v
              (read_packet-IsStored s.seqnum second ((s.free + 255) % 256) memory s.buffer2 size h
                v.buffer2_len)
              (omega (
                arith,
                (put_packet-occupied p s.slots put e).0,
                (put_packet-occupied p s.slots put e).1,
                occupied-le-length put,
                v.balance,
                v.slots_len,
              ))
              e)
      ]

  pub read_some_cases :
      (content : List ℕ) (second : ℕ) (memory : Bool) (s : Sender)
      → IsSound s
      → let size = length (read_bytes content) in
        let s1 = after_read content s in
        ((size ≡ 0) × (s.free ≡ 31) × (read_some z content second memory s ≡ some (finish s1)))
        ⊎ ((1 ≤ size)
            × (read_some z content second memory s
                ≡ (send_data z size second memory s1 >>= λ s2. some (go_on s2))))
        ⊎ ((size ≡ 0) × (read_some z content second memory s ≡ some (go_on s1)))
  unfolding read_some
  read_some_cases content second memory s v =
      let stored : store s.buffer2 0 (read_bytes content) ≡ some (after_read content s).buffer2 =
        store_front s.buffer2 (read_bytes content)
          (omega (arith, length-take_le 512 content, v.buffer2_len)) in
      elim (Bool-cases ((length (read_bytes content) == 0) && (s.free == 31))) [
        | inl stop ↦ inl (ground arith, ground arith, rw (stored, stop))
        | inr on ↦ elim (Bool-cases (ltb 0 (length (read_bytes content)))) [
          | inl more ↦
              inr (inl (ltb→lt 0 (length (read_bytes content)) more, rw (stored, on, more)))
          | inr none_read ↦ inr (inr (ground arith, rw (stored, on, none_read)))
        ]
      ]

  -- At the end of the file, with a packet in a slot, nothing is read and the loop goes on.
  pub read_file_at_end :
      (is_file : Bool) (second : ℕ) (memory : Bool) (s : Sender)
      → IsSound s
      → 1 ≤ occupied s.slots
      → read_file z is_file (readable (some [])) second memory s ≡ some (go_on s)
  unfolding read_file
  read_file_at_end is_file second memory s v waits =
      elim (Bool-cases (ltb s.seqnum (s.lastack + s.free))) [
        | inr closed ↦ rw closed refl
        | inl asked ↦ elim (read_some_cases [] second memory s v) [
          | inl (_, free, _) ↦ absurd (omega (arith, v.balance))
          | inr (inl (some_bytes, _)) ↦ absurd (omega arith)
          | inr (inr (_, same)) ↦ rw asked same
        ]
      ]

  read_some-Outcome :
      (socket : Socket) (content : List ℕ) (second : ℕ) (memory : Bool) (s : Sender)
      → IsSound s
      → (t : Turn) × (read_some z content second memory s ≡ some t)
        × Outcome z socket (readable (some content)) t
  read_some-Outcome socket content second memory s v =
      let s1 : Sender = after_read content s in
      let v1 : IsSound s1 = after_read-IsSound content s v in
      let size : ℕ = length (read_bytes content) in
      elim (read_some_cases content second memory s v) [
        | inl (nothing, free, e) ↦ (
          finish s1,
          e,
          completes s1 v1 (omega (arith, v.balance))
              (ap (λ (c : List ℕ). readable (some c)) (nothing_read content nothing)),
        )
        | inr (inl (more, e)) ↦ (
          go_on (
              after_data z
                (read_packet s.seqnum second ((s.free + 255) % 256) memory s1.buffer2 size) s1),
          e
              ∙ ap (λ (o : Option Sender). o >>= λ s2. some (go_on s2))
                  (send_data-after_data z size second memory s1 v1 (length-take_le 512 content)),
          data_Outcome socket (readable (some content)) size second memory s1 v1
              (length-take_le 512 content),
        )
        | inr (inr (_, e)) ↦ (go_on s1, e, continues s1 v1)
      ]

  pub read_file-Outcome :
      (socket : Socket) (is_file : Bool) (file : File) (second : ℕ) (memory : Bool) (s : Sender)
      → IsSound s
      → (t : Turn) × (read_file z is_file file second memory s ≡ some t) × Outcome z socket file t
  unfolding read_file
  read_file-Outcome socket is_file not_ready second memory s v =
      elim (Bool-cases (is_file && (s.free == 31))) [
        | inl all_free ↦
            let (p, s1, e, v1, _, _, _, _) = send_end-IsSound z second s v (ground arith) in
            (go_on s1, rw (all_free, e), continues s1 v1)
        | inr waiting ↦ (go_on s, rw waiting, continues s v)
      ]
  read_file-Outcome socket is_file (readable none) second memory s v =
      elim (Bool-cases (ltb s.seqnum (s.lastack + s.free))) [
        | inr closed ↦ (go_on s, rw closed, continues s v)
        | inl open_window ↦ (finish s, rw open_window, fails s v (inr refl))
      ]
  read_file-Outcome socket is_file (readable (some content)) second memory s v =
      elim (Bool-cases (ltb s.seqnum (s.lastack + s.free))) [
        | inr closed ↦ (go_on s, rw closed, continues s v)
        | inl open_window ↦
            let (t, e, x) = read_some-Outcome socket content second memory s v in
            (t, rw open_window e, x)
      ]
