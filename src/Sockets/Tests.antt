-- ===== src/Sockets/Tests.antt =====
-- A socket that is bound, and a refused connection.
use lingi1341_projet.Prelude.{ℕ, ◌≡◌, ◌⊎◌, true, false, none, some, [], ◌∷◌}
use lingi1341_projet.Prelude.Ints.{pos, negsuc}
use lingi1341_projet.Sockets.{Address, Calls, create_socket, IsHanded, create_socket-IsHanded}

abbrev localhost : Address
localhost = record {
  sin6_family = 10;
  sin6_port = 0;
  sin6_flowinfo = 0;
  sin6_addr = 1 ∷ [];
  sin6_scope_id = 0;
}

abbrev refusing : Calls
refusing = record { socket = some 3; bind = λ fd a. true; connect = λ fd a. false }

create_socket-IsHanded_example :
    let c = create_socket refusing none (pos 0) (some localhost) (pos 8080) in
    ((refusing.socket ≡ none) × (c.result ≡ negsuc 0) × (c.closed ≡ []))
    ⊎ ((fd : ℕ) × (refusing.socket ≡ some fd) × IsHanded fd c)
create_socket-IsHanded_example =
    create_socket-IsHanded refusing none (some localhost) (pos 0) (pos 8080)
