-- ===== src/Network/Safety.antt =====
-- What the network can do to the file that the receiver writes: nothing but delay it.
use lingi1341_projet.Prelude.{
  ℕ, ◌+◌, ◌≤◌, ◌<◌, ◌≡◌, sym, ap, subst, ◌∙◌, inl, inr, Bool, some, List, [], ◌++◌, arith, length,
  take, drop, length-append, take-all, ltb, Bool-cases,
}
use mathlib.Core.List.{flatten}
use native.Mathlib.Decide.{dec_lt}
use lingi1341_projet.Platform.{Zlib, IsZlib}
use lingi1341_projet.Packet.Slots.{Contains}
use lingi1341_projet.Sender.{Sender, Wake, File, go_on, finish, readable}
use lingi1341_projet.Sender.Phases.{round, read_file}
use lingi1341_projet.Sender.Invariant.{IsSound}
use lingi1341_projet.Sender.Reads.{after_read, read_some_cases}
use lingi1341_projet.Network.{
  System, launch, Hears, bytes_read, Step, sends, receives, Reach, here, next,
}
use lingi1341_projet.Network.Chunks.{flatten-split}
use lingi1341_projet.Network.Invariant.{Invariant, launch-Invariant}
use lingi1341_projet.Network.Rounds.{Step-Invariant}
use lingi1341_projet.Network.Sending.{BeforeFile-HasPending}
use lingi1341_projet.Packet.Slots.{Contains-occupied}

module _ {z : Zlib} {is_file : Bool} where
  pub Step-le : {t u : System} → Step z is_file t u → length t.chunks ≤ length u.chunks
  Step-le {t} (sends w s1 s2 heard polled memory timed before e) =
      omega (arith, length-append t.chunks (bytes_read w.file s1))
  Step-le (receives d writes r among w e) = omega arith

  pub Reach-Invariant :
      {t u : System}
      → IsZlib z
      → length u.chunks ≤ 255
      → Invariant z t
      → Reach z is_file t u
      → Invariant z u
  Reach-Invariant iz few v here = v
  Reach-Invariant iz few v (next r st) =
      (Step-Invariant z iz few st (Reach-Invariant iz (omega (arith, Step-le st)) v r)).0

-- While memory and writes do not fail: of at most 255 pieces that the sender has read, whatever datagrams the network loses, repeats,
-- delays, reorders or corrupts so that pkt_decode refuses them, the receiver's file is at any time a prefix of their bytes: no byte is
-- corrupted, duplicated, left out or out of order.
pub Reach-IsPrefix :
    (z : Zlib) (is_file : Bool) (t : System)
    → IsZlib z
    → Reach z is_file launch t
    → length t.chunks ≤ 255
    → (rest : List ℕ) × (flatten t.chunks ≡ t.receiver.output ++ rest)
Reach-IsPrefix z is_file t iz r few =
    let v : Invariant z t = Reach-Invariant iz few (launch-Invariant z) r in
    (
      flatten (drop t.receiver.seqnum t.chunks),
      flatten-split t.chunks t.receiver.seqnum
          ∙ ap (λ (o : List ℕ). o ++ flatten (drop t.receiver.seqnum t.chunks))
              (sym v.pieces.written),
    )

-- While memory and writes do not fail: of at most 255 pieces, whatever the network loses, repeats,
-- delays, reorders or corrupts so that pkt_decode refuses it, the file holds those below the number that
-- the receiver expects, and a packet for every other piece is still in a slot of the sender: no acknowledgement, however old,
-- makes it forget a piece that the file lacks.
pub Reach-kept :
    (z : Zlib) (is_file : Bool) (t : System)
    → IsZlib z
    → Reach z is_file launch t
    → length t.chunks ≤ 255
    → (t.receiver.output ≡ flatten (take t.receiver.seqnum t.chunks))
      × ((i : ℕ) → t.receiver.seqnum ≤ i → i < length t.chunks → Contains i t.sender.slots)
Reach-kept z is_file t iz r few =
    let v : Invariant z t = Reach-Invariant iz few (launch-Invariant z) r in
    (v.pieces.written, v.sending.pending)

-- At the end of the file the phase that reads ends the loop only if all slots are free.
finish_at_end :
    (z : Zlib) (is_file : Bool) (second : ℕ) (memory : Bool) (s s2 : Sender)
    → IsSound s
    → read_file z is_file (readable (some [])) second memory s ≡ some (finish s2)
    → s.free ≡ 31
unfolding read_file
finish_at_end z is_file second memory s s2 v e =
    elim (Bool-cases (ltb s.seqnum (s.lastack + s.free))) [
      | inr closed ↦ absurd (goes_on s (rw closed at e))
      | inl asked ↦ elim (read_some_cases z [] second memory s v) [
        | inl (_, free, _) ↦ free
        | inr (inl (some_bytes, _)) ↦ absurd (omega arith)
        | inr (inr (_, same)) ↦ absurd (goes_on (after_read [] s) (sym same ∙ (rw asked at e)))
      ]
    ]
  where
    goes_on : (x : Sender) → some (go_on x) ≡ some (finish s2) → ⊥
    goes_on x h = cc

-- While memory and writes do not fail: if the sender's loop ends at the end of its file, after at most 255 pieces and on a network that
-- loses, repeats, delays or reorders datagrams, or corrupts them so that pkt_decode refuses them, the receiver's file holds every byte that was read.
pub finish_complete :
    (z : Zlib) (is_file : Bool) (t : System) (w : Wake) (s : Sender)
    → IsZlib z
    → Reach z is_file launch t
    → length t.chunks ≤ 255
    → Hears z t.receiver.sent w.socket
    → w.file ≡ readable (some [])
    → round z is_file (some w) t.sender ≡ some (finish s)
    → t.receiver.output ≡ flatten t.chunks
finish_complete z is_file t w s iz r few heard at_end e =
    let v : Invariant z t = Reach-Invariant iz few (launch-Invariant z) r in
    let b =
      BeforeFile-HasPending z t.chunks t.receiver.seqnum w t.receiver.sent t.sender v.answers heard
        v.sending in
    let free : b.state.free ≡ 31 =
      finish_at_end z is_file w.send_second w.payload_memory b.state s b.pending.sound (
        subst
          (λ (f : File).
            read_file z is_file f w.send_second w.payload_memory b.state ≡ some (finish s))
          at_end (sym (b.rounds is_file) ∙ e)) in
    v.pieces.written
    ∙ ap flatten (elim (dec_lt t.receiver.seqnum (length t.chunks)) [
      | yes lacks ↦ absurd (
          omega (
            arith,
            free,
            b.pending.sound.balance,
            Contains-occupied t.receiver.seqnum b.state.slots
                (b.pending.pending t.receiver.seqnum (omega arith) lacks),
          ))
      | no all ↦ take-all t.receiver.seqnum t.chunks (omega arith)
    ])
