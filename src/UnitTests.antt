-- ===== src/UnitTests.antt =====
-- The unit tests of projet1_Calmant_Outters/tests/test.c. CUnit and the answers of the system calls are
-- parameters. A test gives the results of its assertions, or `none` for undefined behaviour.
pub mod Results
mod Tests
use lingi1341_projet.Prelude.{
  ℕ, zero, suc, ◌+◌, ◌-◌, ◌*◌, ◌/◌, ◌%◌, ◌^◌, ◌≤◌, ◌<◌, ◌≡◌, refl, sym, ap, ap₂, subst, ◌∙◌, ◌≢◌,
  ◌↔◌, ◌⊎◌, inl, inr, Bool, true, false, ◌&&◌, ◌||◌, not, Option, none, some, List, [], ◌∷◌, ◌++◌,
  map, append_assoc, append-nil, arith, ◌>>=◌, length, get_or, set, take, drop, replicate, All,
  length-append, length-take, length-take_le, length-drop, length-replicate, length-set,
  take-append, drop-append, drop-nil, drop-drop, drop_past, length_zero, take-take, take-all,
  All-map, All-append, All-take, All-drop, take-drop, take-take_le, ltb, leb, ◌==◌, if◌then◌else◌,
  ltb→lt, lt→ltb, leb→le, ==_iff, Bool-cases, Option-cases,
}
use lingi1341_projet.Prelude.Ints.{ℤ, pos, negsuc}
use lingi1341_projet.Prelude.Memory.{load}
use lingi1341_projet.Packet.{
  Pkt, pkt_new, ptype_data, pkt_get_type, pkt_get_tr, pkt_get_window, pkt_get_seqnum,
  pkt_get_timestamp, pkt_get_crc1, pkt_get_payload, pkt_get_crc2, pkt_set_type, pkt_set_tr,
  pkt_set_window, pkt_set_seqnum, pkt_set_timestamp, pkt_set_crc1, pkt_set_crc2, pkt_set_payload,
}
use lingi1341_projet.Seqnum.{inc_seqnum}
use lingi1341_projet.Sockets.{Address, real_address, Calls, create_socket, af_inet6}

-- Whether two blocks of the same size are equal.
unfoldable pub bytes_equal : List ℕ → List ℕ → Bool
bytes_equal [] [] = true
bytes_equal [] (y ∷ ys) = false
bytes_equal (x ∷ xs) [] = false
bytes_equal (x ∷ xs) (y ∷ ys) = x == y && bytes_equal xs ys

-- `memcmp(a, b, n) == 0`
unfoldable pub same_memory : List ℕ → List ℕ → ℕ → Option Bool
same_memory a b n = do xs ← load a 0 n; ys ← load b 0 n; some (bytes_equal xs ys)

-- `calloc` says whether there is memory for a struct; `pkt_del` reads it.
unfoldable pub test_pkt_new : Bool → Option (List Bool)
test_pkt_new calloc = if calloc then some (true ∷ []) else none

-- "test", with the byte 0 at its end, and the size of a pointer to it.
abbrev pub test_payload : List ℕ
test_payload = 116 ∷ 101 ∷ 115 ∷ 116 ∷ 0 ∷ []

abbrev pub size_of_pointer : ℕ
size_of_pointer = 8

-- The struct after the setters in front of `pkt_set_payload`, and after those behind it.
abbrev pub fields_set : Pkt
fields_set =
    (pkt_set_timestamp (pkt_set_tr (pkt_set_window (pkt_set_type pkt_new ptype_data).1 10).1 0).1
      0).1

abbrev pub checksums_set : Pkt → Pkt
checksums_set p = (pkt_set_crc2 (pkt_set_crc1 (pkt_set_seqnum p 0).1 42).1 42).1

-- `malloc` says whether there is memory for the payload.
unfoldable pub set_get : Bool → Bool → List ℕ → ℕ → Option (List Bool)
set_get calloc malloc payload len =
    if calloc
    then (do
      (_, p) ← pkt_set_payload malloc fields_set payload len
      let pkt = checksums_set p
      block ← pkt_get_payload pkt
      same ← same_memory block payload len
      some (
          (pkt_get_type pkt == ptype_data)
          ∷ (pkt_get_window pkt == 10)
          ∷ (pkt_get_tr pkt == 0)
          ∷ (pkt_get_timestamp pkt == 0)
          ∷ same
          ∷ (pkt_get_seqnum pkt == 0)
          ∷ (pkt_get_crc1 pkt == 42)
          ∷ (pkt_get_crc2 pkt == 42)
          ∷ []))
    else none

unfoldable pub test_set_get : Bool → Bool → Option (List Bool)
test_set_get calloc malloc = set_get calloc malloc test_payload size_of_pointer

-- The addresses :: and ::1.
abbrev pub localhost : List ℕ
localhost = replicate 16 0

abbrev pub localhost_1 : List ℕ
localhost_1 = replicate 15 0 ++ (1 ∷ [])

-- "localhost"
abbrev pub localhost_name : List ℕ
localhost_name = 108 ∷ 111 ∷ 99 ∷ 97 ∷ 108 ∷ 104 ∷ 111 ∷ 115 ∷ 116 ∷ []

-- The assertions on the address that was found.
unfoldable pub address_results : List ℕ → Option (List Bool)
address_results s6_addr = do
  same ← same_memory s6_addr localhost 16
  if same
      then some (true ∷ [])
      else (do same_1 ← same_memory s6_addr localhost_1 16; some (same_1 ∷ []))

abbrev pub test_real_address : (List ℕ → Option Address) → Option (List Bool)
test_real_address getaddrinfo =
    address_results (real_address getaddrinfo localhost_name).1.sin6_addr

unfoldable pub test_inc_seqnum : Option (List Bool)
test_inc_seqnum = some ((inc_seqnum 0 == 1) ∷ (inc_seqnum 255 == 0) ∷ [])

abbrev pub is_positive : ℤ → Bool
is_positive (pos n) = ltb 0 n
is_positive (negsuc n) = false

unfoldable pub test_create_socket : (List ℕ → Option Address) → Calls → Option (List Bool)
test_create_socket getaddrinfo calls =
    let source = (real_address getaddrinfo localhost_name).1 in
    some (is_positive (create_socket calls (some source) (pos 9858) none (pos 0)).result ∷ [])

-- What CUnit answers: whether it starts, adds the suite and adds the test of a number, and its error code.
pub record CUnit : Type 0 where
  pub initialize_registry : Bool
  pub add_suite : Bool
  pub add_test : ℕ → Bool
  pub get_error : ℕ

-- The status, and the results of the tests that were run, in their order.
unfoldable pub test_main :
    CUnit → Bool → Bool → (List ℕ → Option Address) → Calls → ℕ × List (Option (List Bool))
test_main cunit calloc malloc getaddrinfo calls =
    if not cunit.initialize_registry
    then (cunit.get_error, [])
    else if not cunit.add_suite
    then (cunit.get_error, [])
    else if not (cunit.add_test 0)
        || not (cunit.add_test 1)
        || not (cunit.add_test 2)
        || not (cunit.add_test 3)
        || not (cunit.add_test 4)
    then (cunit.get_error, [])
    else (
      0,
      test_pkt_new calloc
          ∷ test_set_get calloc malloc
          ∷ test_real_address getaddrinfo
          ∷ test_create_socket getaddrinfo calls
          ∷ test_inc_seqnum
          ∷ [],
    )
