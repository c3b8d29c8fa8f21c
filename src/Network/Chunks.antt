-- ===== src/Network/Chunks.antt =====
-- The pieces of a file that the sender has read, by their sequence numbers.
use lingi1341_projet.Prelude.{
  ℕ, zero, suc, ◌≤◌, ◌<◌, ◌≡◌, refl, sym, ap, ◌∙◌, Option, none, some, List, [], ◌∷◌, ◌++◌,
  append_assoc, append-nil, arith, length, take, drop, take-take_le,
}
use lingi1341_projet.Platform.{Zlib}
use lingi1341_projet.Packet.{Pkt}
use lingi1341_projet.Packet.Wire.{wire}
use lingi1341_projet.Receiver.Scan.{body}
use lingi1341_projet.Receiver.Arrivals.{IsData}
use mathlib.Core.Option.{some-injective}
use mathlib.Core.List.{flatten}

module _ {ℓ} {A : Type ℓ} where
  abbrev pub get_elem? : List A → ℕ → Option A
  get_elem? [] i = none
  get_elem? (x ∷ xs) zero = some x
  get_elem? (x ∷ xs) (suc i) = get_elem? xs i

  pub get_elem?-append :
      (xs ys : List A) (i : ℕ) (x : A) → get_elem? xs i ≡ some x → get_elem? (xs ++ ys) i ≡ some x
  get_elem?-append [] ys i x e = cc
  get_elem?-append (y ∷ xs) ys zero x e = e
  get_elem?-append (y ∷ xs) ys (suc i) x e = get_elem?-append xs ys i x e

  pub get_elem?-last : (xs : List A) (x : A) → get_elem? (xs ++ (x ∷ [])) (length xs) ≡ some x
  get_elem?-last [] x = refl
  get_elem?-last (y ∷ xs) x = get_elem?-last xs x

  pub get_elem?-lt : (xs : List A) (i : ℕ) (x : A) → get_elem? xs i ≡ some x → i < length xs
  get_elem?-lt [] i x e = cc
  get_elem?-lt (y ∷ xs) zero x e = omega arith
  get_elem?-lt (y ∷ xs) (suc i) x e = omega (arith, get_elem?-lt xs i x e)

  pub take_within : (xs ys : List A) (n : ℕ) → n ≤ length xs → take n (xs ++ ys) ≡ take n xs
  take_within xs ys zero h = refl
  take_within [] ys (suc n) h = absurd (omega arith)
  take_within (x ∷ xs) ys (suc n) h = ap (λ t. x ∷ t) (take_within xs ys n (omega arith))

-- One more piece.
pub flatten-take :
    (cs : List (List ℕ)) (i : ℕ) (c : List ℕ)
    → get_elem? cs i ≡ some c
    → flatten (take (suc i) cs) ≡ flatten (take i cs) ++ c
unfolding flatten
flatten-take [] i c e = cc
flatten-take (d ∷ cs) zero c e = append-nil d ∙ some-injective d c e
flatten-take (d ∷ cs) (suc i) c e =
    ap (λ t. d ++ t) (flatten-take cs i c e) ∙ sym (append_assoc d (flatten (take i cs)) c)

-- The pieces up to some number are a prefix of all of them.
pub flatten-split :
    (cs : List (List ℕ)) (i : ℕ) → flatten cs ≡ flatten (take i cs) ++ flatten (drop i cs)
unfolding flatten
flatten-split cs zero = refl
flatten-split [] (suc i) = refl
flatten-split (d ∷ cs) (suc i) =
    ap (λ t. d ++ t) (flatten-split cs i)
    ∙ sym (append_assoc d (flatten (take i cs)) (flatten (drop i cs)))

pub flatten-append : (cs ds : List (List ℕ)) → flatten (cs ++ ds) ≡ flatten cs ++ flatten ds
unfolding flatten
flatten-append [] ds = refl
flatten-append (c ∷ cs) ds =
    ap (λ t. c ++ t) (flatten-append cs ds) ∙ sym (append_assoc c (flatten cs) (flatten ds))

-- The first pieces begin with fewer of them.
pub flatten-take_le :
    (cs : List (List ℕ)) (n m : ℕ)
    → n ≤ m
    → flatten (take m cs) ≡ flatten (take n cs) ++ flatten (drop n (take m cs))
flatten-take_le cs n m h =
    flatten-split (take m cs) n
    ∙ ap (λ (t : List (List ℕ)). flatten t ++ flatten (drop n (take m cs))) (take-take_le n m cs h)

-- A packet holds the piece that its sequence number says.
abbrev pub IsNumbered : List (List ℕ) → Pkt → Type 0
IsNumbered chunks p = get_elem? chunks p.seqnum ≡ some (body p.payload)

-- A data packet with the piece that its sequence number says.
pub record IsChunk (chunks : List (List ℕ)) (p : Pkt) : Type 0 where
  pub data_packet : IsData p (body p.payload)
  pub numbered : IsNumbered chunks p

pub IsNumbered-append :
    (chunks more : List (List ℕ)) (p : Pkt) → IsNumbered chunks p → IsNumbered (chunks ++ more) p
IsNumbered-append chunks more p n = get_elem?-append chunks more p.seqnum (body p.payload) n

pub IsChunk-append :
    (chunks more : List (List ℕ)) (p : Pkt) → IsChunk chunks p → IsChunk (chunks ++ more) p
IsChunk-append chunks more p c = record {
  data_packet = c.data_packet;
  numbered = IsNumbered-append chunks more p c.numbered;
}

-- A datagram with such a packet.
abbrev pub Carries : Zlib → List (List ℕ) → List ℕ → Type 0
Carries z chunks d = (p : Pkt) × (d ≡ wire z p) × IsChunk chunks p
