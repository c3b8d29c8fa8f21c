-- ===== src/Network/Invariant.antt =====
-- What holds of both sides and of the datagrams on the network between two rounds, as long as the
-- sequence numbers have not wrapped around.
use lingi1341_projet.Prelude.{
  ℕ, ◌≤◌, ◌<◌, ◌≡◌, refl, sym, ap, ◌∙◌, List, [], ◌++◌, arith, length, take, All, length-append,
  All-map,
}
use mathlib.Core.List.{flatten}
use lingi1341_projet.Platform.{Zlib}
use lingi1341_projet.Packet.Slots.{Contains, Holds, replicate-Holds}
use lingi1341_projet.Receiver.{Receiver, initial}
use lingi1341_projet.Receiver.Invariant.{IsValid, initial-IsValid}
use lingi1341_projet.Receiver.Answers.{Acknowledges}
use lingi1341_projet.Sender.{Sender, start}
use lingi1341_projet.Sender.Invariant.{IsSound, start-IsSound}
use lingi1341_projet.Network.{System, launch}
use lingi1341_projet.Network.Chunks.{
  IsNumbered, IsNumbered-append, IsChunk, IsChunk-append, Carries, take_within,
}
use lingi1341_projet.Network.Slots.{Holds-map}

-- The receiver's file holds the pieces below its expected number, and its slots hold pieces.
pub record HasPieces (chunks : List (List ℕ)) (r : Receiver) : Type 0 where
  pub valid : IsValid r
  pub stored : All (Holds (IsNumbered chunks)) r.slots
  pub written : r.output ≡ flatten (take r.seqnum chunks)
  pub within : r.seqnum ≤ length chunks

-- A datagram of 512 bytes that acknowledges the number `n`.
abbrev pub IsAckOf : Zlib → ℕ → List ℕ → Type 0
IsAckOf z n d = (window : ℕ) × (length d ≡ 512) × Acknowledges z window n d

-- One that acknowledges at most the number `n`.
abbrev pub IsAckUpTo : Zlib → ℕ → List ℕ → Type 0
IsAckUpTo z n d =
    (window : ℕ) × (number : ℕ) × (number ≤ n) × (length d ≡ 512) × Acknowledges z window number d

-- The sender has in its slots all pieces from the number `expected` on, and in its slots and on the
-- network are pieces only.
pub record HasPending (z : Zlib) (chunks : List (List ℕ)) (expected : ℕ) (s : Sender) : Type 0 where
  pub sound : IsSound s
  pub number : s.seqnum ≡ length chunks
  pub acked : s.lastack ≤ expected
  pub pending : (i : ℕ) → expected ≤ i → i < length chunks → Contains i s.slots
  pub stored : All (Holds (IsChunk chunks)) s.slots
  pub carried : All (Carries z chunks) s.sent

pub record Invariant (z : Zlib) (t : System) : Type 0 where
  pub pieces : HasPieces t.chunks t.receiver
  pub answers : All (IsAckUpTo z t.receiver.seqnum) t.receiver.sent
  pub sending : HasPending z t.chunks t.receiver.seqnum t.sender

pub HasPieces-append :
    (chunks more : List (List ℕ)) (r : Receiver) → HasPieces chunks r → HasPieces (chunks ++ more) r
HasPieces-append chunks more r h = record {
  valid = h.valid;
  stored =
      Holds-map (IsNumbered chunks) (IsNumbered (chunks ++ more)) r.slots
        (IsNumbered-append chunks more) h.stored;
  written = h.written ∙ ap flatten (sym (take_within chunks more r.seqnum h.within));
  within = omega (arith, h.within, length-append chunks more);
}

pub IsAckUpTo-le : (z : Zlib) (n m : ℕ) → n ≤ m → (d : List ℕ) → IsAckUpTo z n d → IsAckUpTo z m d
IsAckUpTo-le z n m h d (window, number, small, l, a) = (window, number, omega arith, l, a)

pub HasPending-le :
    (z : Zlib) (chunks : List (List ℕ)) (n m : ℕ) (s : Sender)
    → n ≤ m
    → HasPending z chunks n s
    → HasPending z chunks m s
HasPending-le z chunks n m s le h = record {
  sound = h.sound;
  number = h.number;
  acked = omega (arith, h.acked);
  pending = λ i lo hi. h.pending i (omega arith) hi;
  stored = h.stored;
  carried = h.carried;
}

pub Carries-append :
    (z : Zlib) (chunks more ds : List (List ℕ))
    → All (Carries z chunks) ds
    → All (Carries z (chunks ++ more)) ds
Carries-append z chunks more ds =
    All-map (Carries z chunks) (Carries z (chunks ++ more)) ds
      (λ d (p, e, c). (p, e, IsChunk-append chunks more p c))

-- It holds before the first round.
pub launch-Invariant : (z : Zlib) → Invariant z launch
unfolding initial start flatten
launch-Invariant z = record {
  pieces = record {
    valid = initial-IsValid;
    stored = replicate-Holds (IsNumbered []) 31;
    written = refl;
    within = omega arith;
  };
  answers = tt;
  sending = record {
    sound = start-IsSound;
    number = refl;
    acked = omega arith;
    pending = λ i lo hi. absurd (omega arith);
    stored = replicate-Holds (IsChunk []) 31;
    carried = tt;
  };
}
