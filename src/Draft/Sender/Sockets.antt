-- ===== src/Draft/Sender/Sockets.antt =====
-- The copies of real_address and create_socket at the end of the earlier sender, src/sender.c.
use lingi1341_projet.Prelude.{ℕ, Option, List}
use lingi1341_projet.Prelude.Ints.{ℤ}
use lingi1341_projet.Draft.Sockets
use lingi1341_projet.Sockets.{Address, Calls, Created}

abbrev pub real_address : (List ℕ → Option Address) → List ℕ → ℤ × Address
real_address getaddrinfo address = Sockets.real_address getaddrinfo address

abbrev pub create_socket : Calls → Option Address → ℤ → Option Address → ℤ → Created
create_socket calls source_addr src_port dest_addr dst_port =
    Sockets.create_socket calls source_addr src_port dest_addr dst_port
