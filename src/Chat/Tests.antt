-- ===== src/Chat/Tests.antt =====
-- The chat exercise on concrete values.
use lingi1341_projet.Prelude.{◌≡◌, refl, true, false, some, [], ◌∷◌}
use lingi1341_projet.Samples.{text}
use lingi1341_projet.Sockets
use lingi1341_projet.Sockets.{Address, Calls}
use lingi1341_projet.Programs.{atoi, digits}
use lingi1341_projet.Draft.Sockets as DraftSockets
use lingi1341_projet.Chat.{
  Talk, socket_set, input_set, goes_on, read_write_loop, settings, port, fails, real_address,
  chat_main,
}
use lingi1341_projet.Chat.Forward.{read_write_loop-forwards}

abbrev new_talk : Talk
new_talk = record { shown = []; sent = [] }

read_write_loop-forwards_example :
    read_write_loop
      (socket_set (some text) true
        ∷ input_set (some (1 ∷ [])) true
        ∷ socket_set (some text) false
        ∷ [])
      new_talk
    ≡ goes_on (record new_talk { shown = text; sent = (1 ∷ []) ∷ [] })
read_write_loop-forwards_example =
    read_write_loop-forwards
      (socket_set (some text) true
        ∷ input_set (some (1 ∷ [])) true
        ∷ socket_set (some text) false
        ∷ [])
      new_talk (λ e. cc, (λ e. cc, (λ e. cc, tt)))

abbrev somewhere : Address
somewhere = record {
  sin6_family = 10;
  sin6_port = 0;
  sin6_flowinfo = 0;
  sin6_addr = [];
  sin6_scope_id = 0;
}

abbrev ready : Calls
ready = record { socket = some 3; bind = λ fd a. true; connect = λ fd a. false }

-- A server that cannot connect to its first client closes its socket.
refused_client :
    chat_main
      (λ name. some somewhere)
      ready
      (λ fd. some somewhere)
      somewhere
      (port (56 ∷ 48 ∷ []) ∷ [])
    ≡ fails (3 ∷ [])
unfolding chat_main settings real_address atoi digits Sockets.create_socket Sockets.bind_source
    Sockets.connect_dest DraftSockets.wait_for_client
refused_client = refl
