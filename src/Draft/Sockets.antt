-- ===== src/Draft/Sockets.antt =====
-- real_address, create_socket and wait_for_client of the earlier version, src/transport_interface.c.
use lingi1341_projet.Prelude.{ℕ, Option, none, some, List, if◌then◌else◌}
use lingi1341_projet.Prelude.Ints.{ℤ, pos, negsuc}
use lingi1341_projet.Sockets
use lingi1341_projet.Sockets.{Address, Calls, Created}

-- The later version differs in the hints for `getaddrinfo`, which is a parameter.
abbrev pub real_address : (List ℕ → Option Address) → List ℕ → ℤ × Address
real_address getaddrinfo address = Sockets.real_address getaddrinfo address

-- The later version differs in the protocol for `socket`, which is a parameter.
abbrev pub create_socket : Calls → Option Address → ℤ → Option Address → ℤ → Created
create_socket calls source_addr src_port dest_addr dst_port =
    Sockets.create_socket calls source_addr src_port dest_addr dst_port

-- `peek` is the sender of the first datagram on a socket, or an error of `recvfrom`, which only prints a
-- message. The variable for the address is not initialised: `stack` is what stands in it.
unfoldable pub wait_for_client : (ℕ → Option Address) → Calls → Address → ℕ → ℤ
wait_for_client peek calls stack sfd = elim (peek sfd) [
  | none ↦ if calls.connect sfd stack then pos 0 else negsuc 0
  | some addr ↦ if calls.connect sfd addr then pos 0 else negsuc 0
]
