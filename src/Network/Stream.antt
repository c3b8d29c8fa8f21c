-- ===== src/Network/Stream.antt =====
-- The network with both programs as a reliable stream of bytes, whose definition knows of no packets.
use lingi1341_projet.Prelude.{
  ℕ, ◌≤◌, ◌≡◌, refl, sym, ap, subst, ◌∙◌, Bool, List, [], ◌++◌, arith, length, take, drop,
}
use mathlib.Core.List.{flatten}
use lingi1341_projet.Platform.{Zlib, IsZlib}
use lingi1341_projet.Receiver.{initial}
use lingi1341_projet.Network.{System, launch, bytes_read, Step, sends, receives, Reach, here, next}
use lingi1341_projet.Network.Chunks.{flatten-append, flatten-take_le, flatten-split}
use lingi1341_projet.Network.Invariant.{Invariant, launch-Invariant}
use lingi1341_projet.Network.Rounds.{Step-Invariant}
use lingi1341_projet.Network.Safety.{Step-le, Reach-Invariant}

-- The bytes that went in at one end, and those that came out at the other.
pub record Stream : Type 0 where
  pub accepted : List ℕ
  pub delivered : List ℕ

abbrev pub empty_stream : Stream
empty_stream = record { accepted = []; delivered = [] }

-- Bytes go in at the end, or the next ones that went in come out.
pub data Move (c : Stream) : Stream → Type 0 where
  accepts : (bytes : List ℕ) → Move c (record c { accepted = c.accepted ++ bytes })
  delivers :
      (bytes rest : List ℕ)
      → c.accepted ≡ (c.delivered ++ bytes) ++ rest
      → Move c (record c { delivered = c.delivered ++ bytes })

-- What a system looks like from outside: the bytes that the sender has read, and the receiver's file.
abbrev pub stream_of : System → Stream
stream_of t = record { accepted = flatten t.chunks; delivered = t.receiver.output }

-- Along the run of both programs: it starts with nothing read and an empty file, and from every state
-- to the next the stream makes a move.
abbrev pub IsStreamRun : {z : Zlib} {is_file : Bool} {t u : System} → Reach z is_file t u → Type 0
IsStreamRun {t = t} here = stream_of t ≡ empty_stream
IsStreamRun {u = v} (next {u = u} r st) = IsStreamRun r × Move (stream_of u) (stream_of v)

module _ {z : Zlib} {is_file : Bool} where
  -- A step of either program is a move of the stream.
  Step-Move :
      {t u : System}
      → IsZlib z
      → length u.chunks ≤ 255
      → Invariant z t
      → Step z is_file t u
      → Move (stream_of t) (stream_of u)
  Step-Move {t} iz few v (sends w s1 s2 heard polled memory timed before e) =
      subst (λ (b : List ℕ). Move (stream_of t) (record (stream_of t) { accepted = b }))
        (sym (flatten-append t.chunks (bytes_read w.file s1)))
        (accepts (flatten (bytes_read w.file s1)))
  Step-Move {t} iz few v (receives d writes r among w e) =
      let u : System = record t { receiver = r } in
      let (v1, le) =
        Step-Invariant z {is_file = is_file} {t = t} {u = u} iz few (receives d writes r among w e)
          v in
      let more : List ℕ = flatten (drop t.receiver.seqnum (take r.seqnum t.chunks)) in
      let grown : r.output ≡ t.receiver.output ++ more =
        v1.pieces.written
        ∙ flatten-take_le t.chunks t.receiver.seqnum r.seqnum le
        ∙ ap (λ (o : List ℕ). o ++ more) (sym v.pieces.written) in
      subst (λ (o : List ℕ). Move (stream_of t) (record (stream_of t) { delivered = o }))
        (sym grown)
        (delivers more (flatten (drop r.seqnum t.chunks)) (
          flatten-split t.chunks r.seqnum
          ∙ ap (λ (o : List ℕ). o ++ flatten (drop r.seqnum t.chunks))
              (sym v1.pieces.written ∙ grown)))

  -- While memory and writes do not fail: of at most 255 pieces read, however the rounds of both programs follow
  -- each other and whatever datagrams the network loses, repeats, delays, reorders or corrupts so that
  -- pkt_decode refuses them, every round of a run leaves what is in the file of the receiver and what was read, and
  -- either appends bytes to what was read, or appends to the file the next of the bytes that were read.
  pub Reach-Moves :
      {t : System}
      → IsZlib z
      → (r : Reach z is_file launch t) → length t.chunks ≤ 255
      → IsStreamRun r
  unfolding flatten initial
  Reach-Moves iz here few = refl
  Reach-Moves iz (next {u = t1} r st) few =
      let before : length t1.chunks ≤ 255 = omega (arith, Step-le st) in
      (
        Reach-Moves iz r before,
        Step-Move iz few (Reach-Invariant iz before (launch-Invariant z) r) st,
      )
