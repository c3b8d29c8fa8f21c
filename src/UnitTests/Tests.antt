-- ===== src/UnitTests/Tests.antt =====
-- The unit tests on concrete answers.
use lingi1341_projet.Prelude.{
  ℕ, ◌≡◌, refl, true, false, Option, none, some, List, [], ◌∷◌, replicate,
}
use lingi1341_projet.Prelude.Memory.{load}
use lingi1341_projet.Packet.{pkt_set_payload}
use lingi1341_projet.Sockets
use lingi1341_projet.Sockets.{Address, Calls}
use lingi1341_projet.UnitTests.{
  bytes_equal, same_memory, set_get, localhost_1, test_pkt_new, test_set_get, address_results,
  test_inc_seqnum, test_create_socket, CUnit, test_main,
}

abbrev resolved : List ℕ → Option Address
resolved name = some record {
  sin6_family = 10;
  sin6_port = 0;
  sin6_flowinfo = 0;
  sin6_addr = localhost_1;
  sin6_scope_id = 0;
}

abbrev free_port : Calls
free_port = record { socket = some 3; bind = λ fd a. true; connect = λ fd a. true }

abbrev willing : CUnit
willing = record {
  initialize_registry = true;
  add_suite = true;
  add_test = λ n. true;
  get_error = 0;
}

-- Where all calls succeed, every test passes but for the undefined one.
all_tests : test_main willing true true resolved free_port ≡ (
  0,
  some (true ∷ []) ∷ none ∷ some (true ∷ []) ∷ some (true ∷ []) ∷ some (true ∷ true ∷ []) ∷ [],
)
unfolding test_main test_pkt_new test_set_get set_get address_results test_create_socket
    test_inc_seqnum same_memory bytes_equal load replicate pkt_set_payload Sockets.create_socket
    Sockets.bind_source Sockets.connect_dest
all_tests = refl

-- Without the suite no test is run.
no_suite :
    test_main (record willing { add_suite = false; get_error = 3 }) true true resolved free_port
    ≡ (3, [])
unfolding test_main
no_suite = refl
