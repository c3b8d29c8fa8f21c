-- ===== src/Network.antt =====
-- The sender's loop of sender.c and the receiver's loop of transport_interface.c, in
-- projet1_Calmant_Outters/src, on a network that loses, repeats, delays, reorders and corrupts
-- datagrams: a round of either side is a step, and a round may receive any datagram that the other
-- side ever sent, and any that pkt_decode refuses.
pub mod Chunks
pub mod Slots
pub mod Invariant
pub mod Receiving
pub mod Sending
pub mod Reading
pub mod Rounds
pub mod Safety
pub mod Stream
pub mod Progress
pub mod Completion
mod Tests
use lingi1341_projet.Prelude.{
  ℕ, zero, suc, ◌+◌, ◌-◌, ◌*◌, ◌/◌, ◌%◌, ◌^◌, ◌≤◌, ◌<◌, ◌≡◌, refl, sym, ap, ap₂, subst, ◌∙◌, ◌≢◌,
  ◌↔◌, ◌⊎◌, inl, inr, Bool, true, false, ◌&&◌, ◌||◌, not, Option, none, some, List, [], ◌∷◌, ◌++◌,
  map, append_assoc, append-nil, arith, ◌>>=◌, length, get_or, set, take, drop, replicate, All,
  length-append, length-take, length-take_le, length-drop, length-replicate, length-set,
  take-append, drop-append, drop-nil, drop-drop, drop_past, length_zero, take-take, take-all, ltb,
  leb, ◌==◌, if◌then◌else◌, ltb→lt, lt→ltb, leb→le, ==_iff, Bool-cases, Option-cases,
}
use lingi1341_projet.Platform.{Zlib}
use lingi1341_projet.Packet.{Pkt, Status, pkt_ok}
use lingi1341_projet.Packet.Codec.{pkt_decode}
use lingi1341_projet.Packet.RoundTrip.{has_memory}
use lingi1341_projet.Receiver.{Receiver, initial, arrival, continue, step}
use lingi1341_projet.Sender.{
  Sender, datagram_bytes, start, Socket, silent, received_from, File, not_ready, readable, Wake,
  Turn, go_on, read_bytes,
}
use lingi1341_projet.Sender.Phases.{fast_retransmit, resend, read_socket, round}

-- Both ends. `chunks` is what the sender's calls of `read` have returned so far.
pub record System : Type 0 where
  pub sender : Sender
  pub receiver : Receiver
  pub chunks : List (List ℕ)

-- Both programs before their first round.
abbrev pub launch : System
launch = record { sender = start; receiver = initial; chunks = [] }

-- A datagram is among those that were sent.
abbrev pub IsAmong : List ℕ → List (List ℕ) → Type 0
IsAmong d [] = ⊥
IsAmong d (e ∷ ds) = (d ≡ e) ⊎ IsAmong d ds

-- `pkt_decode` refuses the datagram, whatever stands behind it in the buffer and in the struct.
abbrev pub IsRefused : Zlib → List ℕ → Type 0
IsRefused z d =
    (rest : List ℕ) (q : Pkt)
    → length (datagram_bytes d ++ rest) ≡ 528
    → (code : Status) × (p : Pkt) × (code ≢ pkt_ok)
      × (pkt_decode z has_memory (datagram_bytes d ++ rest) (length (datagram_bytes d)) q
          ≡ some (code, p))

-- What the network delivers is a datagram that was sent, or one so corrupted that it is refused.
abbrev pub Comes : Zlib → List (List ℕ) → List ℕ → Type 0
Comes z ds d = IsAmong d ds ⊎ IsRefused z d

-- What the socket answers comes from the network, where `recvfrom` and the allocator do not fail.
abbrev pub Hears : Zlib → List (List ℕ) → Socket → Type 0
Hears z ds silent = Unit {0}
Hears z ds (received_from none alloc) = ⊥
Hears z ds (received_from (some d) alloc) = Comes z ds d × (alloc ≡ has_memory)

-- `poll` always reports a file as readable; only the standard input may have nothing to read.
abbrev pub IsPolled : Bool → File → Type 0
IsPolled is_file not_ready = is_file ≡ false
IsPolled is_file (readable answer) = Unit {0}

-- What a call of `read` returns in the state `s`, if the code makes one: it reads only inside the
-- window, and at most 512 bytes.
abbrev pub bytes_read : File → Sender → List (List ℕ)
bytes_read not_ready s = []
bytes_read (readable none) s = []
bytes_read (readable (some [])) s = []
bytes_read (readable (some (b ∷ content))) s =
    if ltb s.seqnum (s.lastack + s.free) then read_bytes (b ∷ content) ∷ [] else []

-- `tm_sec` counts the seconds of a minute, from 0 to 59.
abbrev pub IsTimed : Wake → Type 0
IsTimed w = (w.resend_second < 60) × (w.send_second < 60)

module _ (z : Zlib) where
  -- The phases of a round of the sender in front of the one that reads the file.
  abbrev pub before_file : Wake → Sender → Option Turn
  before_file w s = do
    s1 ← fast_retransmit z s
    s2 ← resend z w.resend_second s1
    read_socket z w.socket s2

  -- A step is a round of one side after which its loop goes on.
  pub data Step (is_file : Bool) (t : System) : System → Type 0 where
    sends :
        (w : Wake) (s1 s2 : Sender)
        → Hears z t.receiver.sent w.socket
        → IsPolled is_file w.file
        → w.payload_memory ≡ true
        → IsTimed w
        → before_file w t.sender ≡ some (go_on s1)
        → round z is_file (some w) t.sender ≡ some (go_on s2)
        → Step is_file t (record t { sender = s2; chunks = t.chunks ++ bytes_read w.file s1 })
    receives :
        (d : List ℕ) (writes : ℕ → Bool) (r : Receiver)
        → Comes z t.sender.sent d
        → ((k : ℕ) → writes k ≡ true)
        → step z (arrival (some d) has_memory writes) t.receiver ≡ some (continue r)
        → Step is_file t (record t { receiver = r })

  pub data Reach (is_file : Bool) (t : System) : System → Type 0 where
    here : Reach is_file t t
    next : {u v : System} → Reach is_file t u → Step is_file u v → Reach is_file t v

  -- The number of rounds of a run.
  abbrev pub rounds_of : {is_file : Bool} {t u : System} → Reach is_file t u → ℕ
  rounds_of here = 0
  rounds_of (next r st) = suc (rounds_of r)
