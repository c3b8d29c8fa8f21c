-- ===== src/Draft/Programs/Tests.antt =====
-- Runs of the earlier main functions.
use lingi1341_projet.Prelude.{ℕ, ◌≡◌, refl, ◌⊎◌, true, false, Option, none, some, List, [], ◌∷◌}
use lingi1341_projet.Prelude.Ints.{ℤ, pos, negsuc}
use lingi1341_projet.Packet.RoundTrip.{has_memory}
use lingi1341_projet.Samples.{toy}
use lingi1341_projet.Sockets
use lingi1341_projet.Sockets.{Address, Calls}
use lingi1341_projet.Programs.{atoi, digits, sender_file}
use lingi1341_projet.Draft.Sender.{
  Globals, globals, Offer, Reply, send_data, receive_data, sending_round, sending_loop,
}
use lingi1341_projet.Draft.Programs.{loops, receiver_main, sender_start, sender_main}
use lingi1341_projet.Draft.Programs.Idle.{sender_main_idle}

-- No name is known, and the socket is the descriptor 3.
abbrev unknown : List ℕ → Option Address
unknown name = none

abbrev refusing : Calls
refusing = record { socket = none; bind = λ fd a. false; connect = λ fd a. false }

abbrev somewhere : Address
somewhere = record {
  sin6_family = 10;
  sin6_port = 0;
  sin6_flowinfo = 0;
  sin6_addr = [];
  sin6_scope_id = 0;
}

abbrev ready : Calls
ready = record { socket = some 3; bind = λ fd a. true; connect = λ fd a. true }

-- The arguments `prog a 80`.
abbrev two_arguments : List (List ℕ)
two_arguments = (112 ∷ []) ∷ (97 ∷ []) ∷ (56 ∷ 48 ∷ []) ∷ []

-- The name is unknown and there is no socket: the loop of the receiver runs on descriptor -1.
receiver_without_socket :
    receiver_main unknown refusing (λ fd. none) somewhere two_arguments
    ≡ some (loops (negsuc 0) none none)
unfolding receiver_main Sockets.create_socket Sockets.bind_source Sockets.connect_dest atoi digits
receiver_without_socket = refl

-- With a file and no port, `argv[4]` is read.
receiver_without_port :
    receiver_main unknown ready
      (λ fd. none)
      somewhere
      ((112 ∷ []) ∷ (45 ∷ 102 ∷ []) ∷ (97 ∷ []) ∷ (98 ∷ []) ∷ [])
    ≡ none
unfolding receiver_main
receiver_without_port = refl

-- Two rounds in which `select` fails in both functions.
abbrev failing_round : Offer × Reply
failing_round = (
  record {
    selects = false;
    input_set = false;
    file_set = false;
    input_read = none;
    file_read = none;
    packet_memory = true;
    payload_memory = true;
    writes = true;
    assigned = 0;
    history_memory = true;
    buffer = [];
    buf_pkt = [];
  },
  record {
    selects = false;
    socket_set = false;
    socket_read = none;
    packet_memory = true;
    alloc = has_memory;
    buffer = [];
  },
)

running :
    sender_main
      (λ name. some somewhere)
      ready
      toy
      (λ name. pos 5)
      two_arguments
      []
      (failing_round ∷ failing_round ∷ [])
    ≡ some (none, globals)
unfolding sender_main sender_start sender_file Sockets.create_socket Sockets.bind_source
    Sockets.connect_dest atoi digits sending_loop sending_round send_data receive_data
running = refl

abbrev endless : Option ℤ × Globals
endless = (none, globals)

abbrev refused : Option ℤ × Globals
refused = (some (pos 1), globals)

sender_main_idle_example : (endless ≡ refused) ⊎ (endless ≡ endless)
sender_main_idle_example =
    sender_main_idle (λ name. some somewhere) ready toy (λ name. pos 5) two_arguments []
      (failing_round ∷ failing_round ∷ []) endless running
