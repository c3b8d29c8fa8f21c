-- ===== src/Sender/Last.antt =====
-- The packet with the number 255 in the rounds of the sender's loop.
use lingi1341_projet.Prelude.{
  ℕ, ◌+◌, ◌%◌, ◌≡◌, refl, sym, ap, subst, ◌∙◌, ◌≢◌, ◌⊎◌, inl, inr, Bool, false, ◌&&◌, Option, none,
  some, List, arith, ◌>>=◌, length, replicate, All, length-take_le, ltb, ◌==◌, Bool-cases,
  Option-cases,
}
use mathlib.Core.Option.{some-injective}
use lingi1341_projet.Platform.{Zlib, Alloc}
use lingi1341_projet.Packet.{Pkt}
use lingi1341_projet.Packet.Slots.{Contains, Contains-occupied}
use lingi1341_projet.Sender.{
  Sender, received_from, File, not_ready, readable, Wake, Turn, go_on, finish, put_packet,
  after_put, read_bytes,
}
use lingi1341_projet.Sender.Phases.{
  receive_ack, read_socket, read_some, read_file, round, read_write_loop,
}
use lingi1341_projet.Sender.Invariant.{IsSound}
use lingi1341_projet.Sender.Send.{after_send}
use lingi1341_projet.Sender.Acked.{receive_ack-IsSound, receive_ack-Contains}
use lingi1341_projet.Sender.Put.{put_packet-Contains}
use lingi1341_projet.Sender.Data.{read_packet, after_data, send_data-after_data}
use lingi1341_projet.Sender.Reads.{after_read, after_read-IsSound, read_some_cases}
use lingi1341_projet.Sender.Rounds.{tail, round-tail, silence, Socket-cases}
use lingi1341_projet.Sender.Loop.{HasOverrun, loop_keeps}

-- A round in which no call fails.
abbrev pub IsHealthy : Option Wake → Type 0
IsHealthy none = ⊥
IsHealthy (some w) =
    ((alloc : Alloc) → w.socket ≢ received_from none alloc) × (w.file ≢ readable none)

-- The loop goes on, and the packet with the number 255 is in a slot.
abbrev pub Keeps : Turn → Type 0
Keeps (go_on s) = Contains 255 s.slots
Keeps (finish s) = ⊥

after_put-Contains :
    (p : Pkt) (s : Sender)
    → Contains 255 s.slots
    → Contains 255 (after_put (put_packet p s.slots) s).slots
after_put-Contains p s c = elim (Option-cases (put_packet p s.slots)) [
  | inl full ↦ rw full c
  | inr (put, e) ↦ rw e ((put_packet-Contains p s.slots put e).1 255 c)
]

module _ (z : Zlib) where
  read_some-Keeps :
      (content : List ℕ) (second : ℕ) (memory : Bool) (s : Sender) (t : Turn)
      → IsSound s
      → Contains 255 s.slots
      → read_some z content second memory s ≡ some t
      → Keeps t
  read_some-Keeps content second memory s t v c e =
      elim (read_some_cases z content second memory s v) [
        | inl (_, free, _) ↦ absurd (omega (arith, v.balance, Contains-occupied 255 s.slots c))
        | inr (inl (_, same)) ↦
            let size : ℕ = length (read_bytes content) in
            let s1 : Sender = after_read content s in
            let p : Pkt =
              read_packet s.seqnum second ((s.free + 255) % 256) memory s1.buffer2 size in
            subst Keeps
              (some-injective (go_on (after_data z p s1)) t (
                ap (λ (o : Option Sender). o >>= λ s2. some (go_on s2))
                  (sym (
                    send_data-after_data z size second memory s1 (after_read-IsSound content s v)
                      (length-take_le 512 content)))
                ∙ (sym same ∙ e)))
              (after_put-Contains p
                (record (after_send z p s1) {
                  free = (s1.free + 255) % 256;
                  buffer2 = replicate 512 0;
                })
                c)
        | inr (inr (_, same)) ↦
            subst Keeps (some-injective (go_on (after_read content s)) t (sym same ∙ e)) c
      ]

  read_file-Keeps :
      (is_file : Bool) (file : File) (second : ℕ) (memory : Bool) (s : Sender) (t : Turn)
      → IsSound s
      → Contains 255 s.slots
      → file ≢ readable none
      → read_file z is_file file second memory s ≡ some t
      → Keeps t
  unfolding read_file
  read_file-Keeps is_file not_ready second memory s t v c good e =
      let taken : (is_file && (s.free == 31)) ≡ false =
        ground (arith, v.balance, Contains-occupied 255 s.slots c) in
      subst Keeps (some-injective (go_on s) t (rw taken at e)) c
  read_file-Keeps is_file (readable none) second memory s t v c good e = absurd (good refl)
  read_file-Keeps is_file (readable (some content)) second memory s t v c good e =
      elim (Bool-cases (ltb s.seqnum (s.lastack + s.free))) [
        | inr closed ↦ subst Keeps (some-injective (go_on s) t (rw closed at e)) c
        | inl asked ↦ read_some-Keeps content second memory s t v c (rw asked at e)
      ]

  tail-Keeps :
      (is_file : Bool) (w : Wake) (s : Sender) (t : Turn)
      → IsHealthy (some w)
      → IsSound s
      → Contains 255 s.slots
      → tail z is_file w s ≡ some t
      → Keeps t
  unfolding read_socket
  tail-Keeps is_file w s t (hears, reads) v c e = elim (Socket-cases w.socket) [
    | inl q ↦
        read_file-Keeps is_file w.file w.send_second w.payload_memory s t v c reads
          (sym (silence z is_file w s q) ∙ e)
    | inr (none, alloc, q) ↦ absurd (hears alloc q)
    | inr (some datagram, alloc, q) ↦ elim (Option-cases (receive_ack z datagram alloc s)) [
      | inl undefined ↦ absurd (cc (rw (q, read_socket, undefined) at e))
      | inr (s1, same) ↦
          read_file-Keeps is_file w.file w.send_second w.payload_memory s1 t
            (receive_ack-IsSound z datagram alloc s s1 v same)
            (receive_ack-Contains z datagram alloc s s1 255 v same (omega (arith, v.seqnum_byte)) c)
            reads (rw (q, read_socket, same) at e)
    ]
  ]

  round-Keeps :
      (is_file : Bool) (w : Option Wake) (s : Sender) (t : Turn)
      → IsHealthy w
      → IsSound s
      → Contains 255 s.slots
      → round z is_file w s ≡ some t
      → Keeps t
  round-Keeps is_file none s t h v c e = absurd h
  round-Keeps is_file (some w) s t h v c e =
      let (s2, v2, slots, same) = round-tail z is_file w s v in
      tail-Keeps is_file w s2 t h v2 (subst (Contains 255) (sym slots) c) (sym same ∙ e)

  -- Once the packet with the number 255 is in a slot of a sound state, the loop never ends by itself: whatever
  -- is acknowledged, as long as no call fails and no behaviour is undefined it goes on with that packet in a
  -- slot, unless a packet was sent on the way for which there was no slot.
  pub read_write_loop_endless :
      (is_file : Bool) (ws : List (Option Wake)) (s : Sender) (t : Turn)
      → All IsHealthy ws
      → IsSound s
      → Contains 255 s.slots
      → read_write_loop z is_file ws s ≡ some t
      → ((s1 : Sender) × (t ≡ go_on s1) × Contains 255 s1.slots) ⊎ HasOverrun z is_file ws s
  read_write_loop_endless is_file ws s t healthy v c e =
      elim (loop_keeps z is_file IsHealthy Keeps (round-Keeps is_file) ws s t healthy v c e) [
        | inl (_, kept) ↦ inl (going t kept)
        | inr o ↦ inr o
      ]
    where
      going : (u : Turn) → Keeps u → (s1 : Sender) × (u ≡ go_on s1) × Contains 255 s1.slots
      going (go_on s1) kept = (s1, refl, kept)
      going (finish s1) kept = absurd kept
