-- ===== src/Sender/Overrun.antt =====
-- The sender's window after the sequence numbers have wrapped around.
use lingi1341_projet.Prelude.{
  ℕ, ◌+◌, ◌%◌, ◌≤◌, ◌<◌, ◌≡◌, refl, ap, ◌∙◌, inl, inr, Bool, true, Option, none, some, List, [],
  ◌∷◌, arith, ◌>>=◌, length, replicate, length-append, length-take_le, ltb, lt→ltb, Option-cases,
}
use lingi1341_projet.Platform.{Zlib}
use lingi1341_projet.Packet.{Pkt}
use lingi1341_projet.Packet.Wire.{wire}
use lingi1341_projet.Packet.Slots.{occupied-le-length}
use lingi1341_projet.Sender.{Sender, readable, go_on, read_bytes, put_packet, after_put}
use lingi1341_projet.Sender.Phases.{read_some, send_data, read_file}
use lingi1341_projet.Sender.Invariant.{IsSound}
use lingi1341_projet.Sender.Send.{after_send}
use lingi1341_projet.Sender.Data.{read_packet, send_data-after_data}
use lingi1341_projet.Sender.Put.{put_packet-occupied}
use lingi1341_projet.Sender.Reads.{after_read, after_read-IsSound, read_some_cases}

module _ (z : Zlib) where
  -- The state after the packet `p` was sent, but got no slot.
  abbrev after_overrun : Pkt → Sender → Sender
  after_overrun p s = record (after_send z p s) {
    free = (s.free + 255) % 256;
    buffer2 = replicate 512 0;
  }

  read_some_sends :
      (content : List ℕ) (second : ℕ) (memory : Bool) (s : Sender)
      → IsSound s
      → 1 ≤ length (read_bytes content)
      → read_some z content second memory s ≡ (
          send_data z (length (read_bytes content)) second memory (after_read content s) >>= λ s2.
          some (go_on s2))
  read_some_sends content second memory s v h = elim (read_some_cases z content second memory s v) [
    | inl (nothing, _, _) ↦ absurd (omega arith)
    | inr (inl (_, e)) ↦ e
    | inr (inr (nothing, _)) ↦ absurd (omega arith)
  ]

  put_packet_refused : (p : Pkt) (s : Sender) → IsSound s → s.free ≡ 0 → put_packet p s.slots ≡ none
  put_packet_refused p s v h = elim (Option-cases (put_packet p s.slots)) [
    | inl n ↦ n
    | inr (put, e) ↦ absurd (
        omega (
          arith,
          (put_packet-occupied p s.slots put e).0,
          (put_packet-occupied p s.slots put e).1,
          occupied-le-length put,
          v.balance,
          v.slots_len,
        ))
  ]

  -- Where all slots are taken, and the last acknowledged number is above the next one, as after the
  -- wrap-around of the numbers, the guard of the window lets a packet through: it is sent, but gets no
  -- slot and no number of its own, and 255 slots count as free.
  pub read_file_overruns :
      (is_file : Bool) (b : ℕ) (content : List ℕ) (second : ℕ) (memory : Bool) (s : Sender)
      → IsSound s
      → s.free ≡ 0
      → s.seqnum < s.lastack
      → (s' : Sender) × (read_file z is_file (readable (some (b ∷ content))) second memory s
          ≡ some (go_on s'))
        × (s'.slots ≡ s.slots)
        × (s'.seqnum ≡ s.seqnum)
        × (s'.free ≡ 255)
        × (length s'.sent ≡ length s.sent + 1)
  unfolding read_file
  read_file_overruns is_file b content second memory s v none_free wrapped =
      let s1 : Sender = after_read (b ∷ content) s in
      let v1 : IsSound s1 = after_read-IsSound (b ∷ content) s v in
      let size : ℕ = length (read_bytes (b ∷ content)) in
      let p : Pkt = read_packet s.seqnum second ((s.free + 255) % 256) memory s1.buffer2 size in
      let open_window : ltb s.seqnum (s.lastack + s.free) ≡ true =
        lt→ltb s.seqnum (s.lastack + s.free) (omega arith) in
      (
        after_overrun p s1,
        rw open_window (
            read_some_sends (b ∷ content) second memory s v (omega arith)
            ∙ ap (λ (o : Option Sender). o >>= λ s2. some (go_on s2))
                (send_data-after_data z size second memory s1 v1 (length-take_le 512 (b ∷ content)))
            ∙ ap
                (λ (o : Option (List (Option Pkt))).
                  some (go_on (after_put o (after_overrun p s1))))
                (put_packet_refused p s v none_free)),
        refl,
        refl,
        omega arith,
        length-append s.sent (wire z p ∷ []),
      )
