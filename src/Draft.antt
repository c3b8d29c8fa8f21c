-- ===== src/Draft.antt =====
-- The earlier version of the program, in src/.
pub mod Packet
pub mod Seqnum
pub mod Receiver
pub mod Sender
pub mod Sockets
pub mod Programs
