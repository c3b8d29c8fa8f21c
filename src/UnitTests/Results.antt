-- ===== src/UnitTests/Results.antt =====
-- Which of the unit tests pass, and when.
use lingi1341_projet.Prelude.{
  ℕ, ◌%◌, ◌≤◌, ◌<◌, ◌≡◌, refl, sym, ap, ◌∙◌, ◌⊎◌, inl, inr, true, Option, none, some, List, [], ◌∷◌,
  arith, length, replicate, length-replicate,
}
use lingi1341_projet.Prelude.Memory.{load, load_inside, load_outside, load_all}
use native.Mathlib.Decide.{dec_lt}
use lingi1341_projet.Packet.{pkt_set_payload}
use lingi1341_projet.Sockets.{Address, real_address}
use lingi1341_projet.UnitTests.{
  bytes_equal, same_memory, set_get, test_set_get, address_results, localhost, localhost_name,
  test_payload, size_of_pointer, test_real_address,
}

bytes_equal_refl : (xs : List ℕ) → bytes_equal xs xs ≡ true
unfolding bytes_equal
bytes_equal_refl [] = refl
bytes_equal_refl (x ∷ xs) = rw (bytes_equal_refl xs, bytes_equal) (ground arith)

same_memory_refl :
    (payload block : List ℕ) (len : ℕ)
    → load payload 0 len ≡ some block
    → length block ≡ len
    → same_memory block payload len ≡ some true
unfolding same_memory
same_memory_refl payload block len e h =
    rw (load_all block len (sym h), e) (ap some (bytes_equal_refl block))

-- With memory, and if `len` bytes can be read at the payload, all assertions of the test of the setters and
-- getters hold; if the payload is shorter, the test reads behind it.
pub set_get-passes :
    (payload : List ℕ) (len : ℕ)
    → len < 65536
    → ((len ≤ length payload) × (set_get true true payload len ≡ some (replicate 8 true)))
      ⊎ ((length payload < len) × (set_get true true payload len ≡ none))
unfolding set_get pkt_set_payload replicate
set_get-passes payload len small =
    let whole : len % 65536 ≡ len = omega arith in
    elim (dec_lt (length payload) len) [
      | yes short ↦ inr (short, rw (whole, load_outside payload 0 len (omega arith)) refl)
      | no enough ↦
          let (block, e, h) = load_inside payload 0 len (omega arith) in
          inl (omega arith, rw (whole, e, same_memory_refl payload block len e h) refl)
    ]

-- The test itself gives the size of a pointer for the length of "test", and copies three bytes from behind it.
pub test_set_get_undefined : test_set_get true true ≡ none
unfolding test_set_get
test_set_get_undefined = elim (set_get-passes test_payload size_of_pointer (omega arith)) [
  | inl (fits, _) ↦ absurd (omega arith)
  | inr (_, undefined) ↦ undefined
]

-- The test of real_address passes if the name cannot be resolved.
pub test_real_address-unresolved :
    (getaddrinfo : List ℕ → Option Address)
    → getaddrinfo localhost_name ≡ none
    → test_real_address getaddrinfo ≡ some (true ∷ [])
unfolding address_results
test_real_address-unresolved getaddrinfo fails =
    let size : length localhost ≡ 16 = length-replicate {A = ℕ} 16 0 in
    let none_found : (real_address getaddrinfo localhost_name).1.sin6_addr ≡ localhost =
      rw (fails, real_address) refl in
    ap address_results none_found
    ∙ rw (same_memory_refl localhost localhost 16 (load_all localhost 16 (sym size)) size) refl
