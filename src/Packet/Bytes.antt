-- ===== src/Packet/Bytes.antt =====
-- The header and the checksums of a packet, from the bytes that they were read from.
use lingi1341_projet.Prelude.{
  ℕ, ◌+◌, ◌*◌, ◌/◌, ◌%◌, ◌≡◌, refl, sym, ap, subst, ◌∙◌, List, [], ◌∷◌, arith, length, get_or, take,
  drop, All, length_zero,
}
use lingi1341_projet.Prelude.Words.{word16, IsU8, bytes32, word32, htons, htonl}
use lingi1341_projet.Packet.{Pkt}
use lingi1341_projet.Packet.Codec.{load_header}
use lingi1341_projet.Packet.Wire.{be32, header}
use lingi1341_projet.Packet.Encode.{bytes32-htonl}

-- The first four of at least four bytes.
abbrev Four : ℕ → List ℕ → Type 0
Four n h =
    (a : ℕ) × (b : ℕ) × (c : ℕ) × (d : ℕ) × (t : List ℕ) × (h ≡ a ∷ b ∷ c ∷ d ∷ t)
    × (IsU8 a × IsU8 b × IsU8 c × IsU8 d)
    × All IsU8 t
    × (length t ≡ n)

four : (n : ℕ) (h : List ℕ) → All IsU8 h → length h ≡ 4 + n → Four n h
four n [] v e = absurd (omega arith)
four n (a ∷ []) v e = absurd (omega arith)
four n (a ∷ b ∷ []) v e = absurd (omega arith)
four n (a ∷ b ∷ c ∷ []) v e = absurd (omega arith)
four n (a ∷ b ∷ c ∷ d ∷ t) (va, (vb, (vc, (vd, vt)))) e =
    (a, b, c, d, t, refl, (va, vb, vc, vd), vt, omega arith)

pub bytes32-word32 :
    (a b c d : ℕ)
    → IsU8 a
    → IsU8 b
    → IsU8 c
    → IsU8 d
    → bytes32 (word32 a b c d) ≡ a ∷ b ∷ c ∷ d ∷ []
bytes32-word32 a b c d va vb vc vd = ground arith

be32_word :
    (a b c d n : ℕ)
    → IsU8 a
    → IsU8 b
    → IsU8 c
    → IsU8 d
    → word32 a b c d % 4294967296 ≡ htonl n
    → be32 n ≡ a ∷ b ∷ c ∷ d ∷ []
be32_word a b c d n va vb vc vd e =
    let whole : htonl n ≡ word32 a b c d = omega (arith, e) in
    sym (bytes32-htonl n) ∙ ap bytes32 whole ∙ bytes32-word32 a b c d va vb vc vd

header_bytes :
    (p : Pkt) (a b c d e f g h : ℕ)
    → IsU8 a
    → IsU8 c
    → IsU8 d
    → p.window ≡ a % 32
    → p.tr ≡ a / 32 % 2
    → p.type ≡ a / 64 % 4
    → p.seqnum ≡ b
    → p.length ≡ htons (word16 c d)
    → p.timestamp ≡ word32 e f g h
    → bytes32 (word32 e f g h) ≡ e ∷ f ∷ g ∷ h ∷ []
    → header p ≡ a ∷ b ∷ c ∷ d ∷ e ∷ f ∷ g ∷ h ∷ []
header_bytes p a b c d e f g h va vc vd window tr type seqnum length timestamp word =
    let first : p.window + 32 * p.tr + 64 * p.type ≡ a = omega (arith, window, tr, type) in
    let high : p.length / 256 % 256 ≡ c = omega (arith, length) in
    let low : p.length % 256 ≡ d = omega (arith, length) in
    rw (first, seqnum, high, low, timestamp) (ap (λ (t : List ℕ). a ∷ b ∷ c ∷ d ∷ t) word)

-- The header fields of `p` are read from the bytes `h`, over the struct `q`.
abbrev IsReadFrom : List ℕ → Pkt → Pkt → Type 0
IsReadFrom h q p =
    (p.window ≡ (load_header h q).window)
    × (p.tr ≡ (load_header h q).tr)
    × (p.type ≡ (load_header h q).type)
    × (p.seqnum ≡ (load_header h q).seqnum)
    × (p.length ≡ htons (load_header h q).length)
    × (p.timestamp ≡ (load_header h q).timestamp)
    × (p.crc1 ≡ (load_header h q).crc1)

-- Twelve bytes from which a header was read, the last four of them the number `n`.
pub header_read :
    (h : List ℕ) (q p : Pkt) (n : ℕ)
    → All IsU8 h
    → length h ≡ 12
    → IsReadFrom h q p
    → p.crc1 ≡ htonl n
    → (header p ≡ take 8 h) × (be32 n ≡ drop 8 h)
header_read h q p n v len r crc =
    let (a, b, c, d, t1, e1, (va, vb, vc, vd), v1, l1) = four 8 h v len in
    let (e, f, g, i, t2, e2, (ve, vf, vg, vi), v2, l2) = four 4 t1 v1 l1 in
    let (j, k, l, m, t3, e3, (vj, vk, vl, vm), v3, l3) = four 0 t2 v2 l2 in
    let last : t2 ≡ j ∷ k ∷ l ∷ m ∷ [] =
      e3 ∙ ap (λ (t : List ℕ). j ∷ k ∷ l ∷ m ∷ t) (length_zero t3 l3) in
    let all : h ≡ a ∷ b ∷ c ∷ d ∷ e ∷ f ∷ g ∷ i ∷ j ∷ k ∷ l ∷ m ∷ [] =
      e1
      ∙ ap (λ (t : List ℕ). a ∷ b ∷ c ∷ d ∷ t) (e2 ∙ ap (λ (t : List ℕ). e ∷ f ∷ g ∷ i ∷ t) last) in
    subst (λ (x : List ℕ). IsReadFrom x q p → (header p ≡ take 8 x) × (be32 n ≡ drop 8 x)) (sym all)
      (λ s.
        let (window, tr, type, seqnum, length, timestamp, crc1) = s in
        (
          header_bytes p a b c d e f g i va vc vd window tr type seqnum length timestamp
              (bytes32-word32 e f g i ve vf vg vi),
          be32_word j k l m n vj vk vl vm (omega (arith, crc1, crc)),
        ))
      r

-- Four bytes that, read as a word, are a number in network byte order.
pub be32_read :
    (h : List ℕ) (n : ℕ)
    → All IsU8 h
    → length h ≡ 4
    → word32 (get_or h 0 0) (get_or h 1 0) (get_or h 2 0) (get_or h 3 0) % 4294967296 ≡ htonl n
    → be32 n ≡ h
be32_read h n v len r =
    let (a, b, c, d, t, e, (va, vb, vc, vd), _, l) = four 0 h v len in
    let all : h ≡ a ∷ b ∷ c ∷ d ∷ [] =
      e ∙ ap (λ (x : List ℕ). a ∷ b ∷ c ∷ d ∷ x) (length_zero t l) in
    subst
      (λ (x : List ℕ).
        word32 (get_or x 0 0) (get_or x 1 0) (get_or x 2 0) (get_or x 3 0) % 4294967296 ≡ htonl n
        → be32 n ≡ x)
      (sym all) (be32_word a b c d n va vb vc vd) r
