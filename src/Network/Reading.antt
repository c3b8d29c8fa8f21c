-- ===== src/Network/Reading.antt =====
-- The phase of the sender that reads the file, between two states in which no piece is forgotten.
use lingi1341_projet.Prelude.{
  ℕ, ◌+◌, ◌%◌, ◌≤◌, ◌<◌, ◌≡◌, refl, sym, ap, subst, ◌∙◌, inl, inr, Bool, true, Option, none, some,
  List, [], ◌∷◌, ◌++◌, append-nil, arith, length, drop, length-append, length-take_le, take-append,
  All-append, ltb, ltb→lt, Bool-cases,
}
use mathlib.Core.Option.{some-injective}
use native.Mathlib.Decide.{dec_lt}
use lingi1341_projet.Platform.{Zlib}
use lingi1341_projet.Packet.{Pkt}
use lingi1341_projet.Packet.Wire.{wire}
use lingi1341_projet.Packet.Slots.{Contains}
use lingi1341_projet.Sender.{
  Sender, File, not_ready, readable, go_on, finish, read_bytes, put_packet,
}
use lingi1341_projet.Sender.Phases.{read_file, read_some, send_data}
use lingi1341_projet.Sender.Invariant.{IsSound}
use lingi1341_projet.Sender.Loop.{sender_of}
use lingi1341_projet.Sender.Put.{put_packet-All}
use lingi1341_projet.Sender.Data.{
  read_packet, read_packet-IsData, read_packet-IsStored, after_data, after_data-IsSound,
  send_data-after_data, put_packet_free,
}
use lingi1341_projet.Sender.Reads.{after_read, after_read-IsSound, read_some_cases}
use lingi1341_projet.Network.{IsPolled, bytes_read}
use lingi1341_projet.Network.Chunks.{IsChunk, IsChunk-append, Carries, get_elem?-last, get_elem?}
use lingi1341_projet.Network.Invariant.{HasPending, Carries-append}
use lingi1341_projet.Sender.Put.{put_packet-Contains}
use lingi1341_projet.Network.Slots.{Holds-map}

module _ (z : Zlib) (chunks : List (List ℕ)) (expected : ℕ) where
  after_read-HasPending :
      (content : List ℕ) (s : Sender)
      → HasPending z chunks expected s
      → HasPending z chunks expected (after_read content s)
  after_read-HasPending content s h = record {
    sound = after_read-IsSound content s h.sound;
    number = h.number;
    acked = h.acked;
    pending = h.pending;
    stored = h.stored;
    carried = h.carried;
  }

  -- The packet that is made of the bytes read.
  abbrev new_packet : ℕ → List ℕ → Sender → Pkt
  new_packet second content s =
      read_packet s.seqnum second ((s.free + 255) % 256) true (after_read content s).buffer2
        (length (read_bytes content))

  new_packet-IsChunk :
      (second : ℕ) (content : List ℕ) (s : Sender)
      → HasPending z chunks expected s
      → 1 ≤ length (read_bytes content)
      → IsChunk (chunks ++ (read_bytes content ∷ [])) (new_packet second content s)
        × ((new_packet second content s).seqnum ≡ length chunks)
  new_packet-IsChunk second content s h some_bytes =
      let c : List ℕ = read_bytes content in
      let all : List (List ℕ) = chunks ++ (c ∷ []) in
      let own_number : (new_packet second content s).seqnum ≡ length chunks =
        omega (arith, h.number, h.sound.seqnum_byte) in
      (
        record {
          data_packet =
              read_packet-IsData s.seqnum second ((s.free + 255) % 256)
                (after_read content s).buffer2 (length c) some_bytes (length-take_le 512 content)
                (after_read-IsSound content s h.sound).buffer2_len;
          numbered =
              ap (get_elem? all) own_number
              ∙ get_elem?-last chunks c
              ∙ ap some (sym (take-append c (drop (length c) s.buffer2) (length c) refl));
        },
        own_number,
      )

  pending_after :
      (p : Pkt) (c : List ℕ) (s : Sender) (put : List (Option Pkt))
      → HasPending z chunks expected s
      → put_packet p s.slots ≡ some put
      → p.seqnum ≡ length chunks
      → (i : ℕ) → expected ≤ i
      → i < length (chunks ++ (c ∷ []))
      → Contains i put
  pending_after p c s put h e own_number i lo hi =
      let (own, others) = put_packet-Contains p s.slots put e in
      elim (dec_lt i (length chunks)) [
        | yes old ↦ others i (h.pending i lo old)
        | no new ↦
            let last : p.seqnum ≡ i = omega (arith, own_number, length-append chunks (c ∷ [])) in
            subst (λ (n : ℕ). Contains n put) last own
      ]

  -- A new piece gets the next number, goes on the network and takes a slot.
  send_data-HasPending :
      (second : ℕ) (content : List ℕ) (s : Sender)
      → HasPending z chunks expected s
      → 1 ≤ s.free
      → 1 ≤ length (read_bytes content)
      → length chunks < 255
      → (s' : Sender) × (send_data z
            (length (read_bytes content))
            second
            true
            (after_read content s)
          ≡ some s')
        × HasPending z (chunks ++ (read_bytes content ∷ [])) expected s'
        × (s'.sent ≡ s.sent ++ (wire z (new_packet second content s) ∷ []))
  send_data-HasPending second content s h room some_bytes few =
      let s1 : Sender = after_read content s in
      let c : List ℕ = read_bytes content in
      let all : List (List ℕ) = chunks ++ (c ∷ []) in
      let v1 : IsSound s1 = after_read-IsSound content s h.sound in
      let small : length c ≤ 512 = length-take_le 512 content in
      let p : Pkt = new_packet second content s in
      let (put, e) = put_packet_free z p s1 v1 room in
      let (chunk, own_number) = new_packet-IsChunk second content s h some_bytes in
      let sound1 : IsSound (after_data z p s1) =
        after_data-IsSound z p s1 put v1
          (read_packet-IsStored s.seqnum second ((s.free + 255) % 256) true s1.buffer2 (length c)
            small v1.buffer2_len)
          room e in
      (
        after_data z p s1,
        send_data-after_data z (length c) second true s1 v1 small,
        rw e record {
          sound = rw e at sound1;
          number = omega (arith, h.number, length-append chunks (c ∷ []));
          acked = h.acked;
          pending = pending_after p c s put h e own_number;
          stored =
              put_packet-All (IsChunk all) p s.slots put chunk
                (Holds-map (IsChunk chunks) (IsChunk all) s.slots (IsChunk-append chunks (c ∷ []))
                  h.stored)
                e;
          carried =
              All-append (Carries z all) s.sent (wire z p ∷ [])
                (Carries-append z chunks (c ∷ []) s.sent h.carried) ((p, refl, chunk), tt);
        },
        rw e refl,
      )

  -- After the phase, with what it read.
  abbrev pub Kept : List (List ℕ) → Sender → Sender → Type 0
  Kept more s s2 =
      (ds : List (List ℕ)) × (s2.sent ≡ s.sent ++ ds) × HasPending z (chunks ++ more) expected s2

  -- Nothing is read.
  unchanged :
      (s s1 s2 : Sender)
      → HasPending z chunks expected s1
      → s1.sent ≡ s.sent
      → some (go_on s1) ≡ some (go_on s2)
      → Kept [] s s2
  unchanged s s1 s2 h same e =
      let next : s1 ≡ s2 = ap sender_of (some-injective (go_on s1) (go_on s2) e) in
      (
        [],
        ap (λ (t : Sender). t.sent) (sym next) ∙ same ∙ sym (append-nil s.sent),
        subst (λ (t : Sender). HasPending z (chunks ++ []) expected t) next
            (subst (λ (cs : List (List ℕ)). HasPending z cs expected s1) (sym (append-nil chunks))
              h),
      )

  not_finished : (s s2 : Sender) → some (finish s) ≡ some (go_on s2) → ⊥
  not_finished s s2 e = cc

  read_piece :
      (b : ℕ) (content : List ℕ) (second : ℕ) (s s2 : Sender)
      → HasPending z chunks expected s
      → 1 ≤ s.free
      → length chunks < 255
      → read_some z (b ∷ content) second true s ≡ some (go_on s2)
      → Kept (read_bytes (b ∷ content) ∷ []) s s2
  read_piece b content second s s2 h room few e =
      elim (read_some_cases z (b ∷ content) second true s h.sound) [
        | inl (nothing, _, _) ↦ absurd (omega arith)
        | inr (inr (nothing, _)) ↦ absurd (omega arith)
        | inr (inl (some_bytes, same)) ↦
            let (s3, sends, h3, sent) =
              send_data-HasPending second (b ∷ content) s h room some_bytes few in
            let next : s3 ≡ s2 =
              ap sender_of (some-injective (go_on s3) (go_on s2) (rw sends at (sym same ∙ e))) in
            (
              _,
              ap (λ (t : Sender). t.sent) (sym next) ∙ sent,
              subst (HasPending z (chunks ++ (read_bytes (b ∷ content) ∷ [])) expected) next h3,
            )
      ]

  pub read_file-HasPending :
      (is_file : Bool) (file : File) (second : ℕ) (s s2 : Sender)
      → HasPending z chunks expected s
      → expected ≤ length chunks
      → IsPolled is_file file
      → length (chunks ++ bytes_read file s) ≤ 255
      → read_file z is_file file second true s ≡ some (go_on s2)
      → Kept (bytes_read file s) s s2
  unfolding read_file
  read_file-HasPending is_file not_ready second s s2 h le polled few e =
      unchanged s s s2 h refl (rw polled at e)
  read_file-HasPending is_file (readable none) second s s2 h le polled few e =
      elim (Bool-cases (ltb s.seqnum (s.lastack + s.free))) [
        | inl asked ↦ absurd (not_finished s s2 (rw asked at e))
        | inr closed ↦ unchanged s s s2 h refl (rw closed at e)
      ]
  read_file-HasPending is_file (readable (some [])) second s s2 h le polled few e =
      elim (Bool-cases (ltb s.seqnum (s.lastack + s.free))) [
        | inr closed ↦ unchanged s s s2 h refl (rw closed at e)
        | inl asked ↦ elim (read_some_cases z [] second true s h.sound) [
          | inl (_, _, same) ↦
              absurd (not_finished (after_read [] s) s2 (sym same ∙ (rw asked at e)))
          | inr (inl (some_bytes, _)) ↦ absurd (omega arith)
          | inr (inr (_, same)) ↦
              unchanged s (after_read [] s) s2 (after_read-HasPending [] s h) refl
                (sym same ∙ (rw asked at e))
        ]
      ]
  read_file-HasPending is_file (readable (some (b ∷ content))) second s s2 h le polled few e =
      elim (Bool-cases (ltb s.seqnum (s.lastack + s.free))) [
        | inr closed ↦ rw closed (unchanged s s s2 h refl (rw closed at e))
        | inl asked ↦ rw asked (
            read_piece b content second s s2 h
              (omega (arith, ltb→lt s.seqnum (s.lastack + s.free) asked, h.number, h.acked))
              (omega (arith, length-append chunks (read_bytes (b ∷ content) ∷ []), rw asked at few))
              (rw asked at e))
      ]
