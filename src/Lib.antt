-- ===== src/Lib.antt =====
-- The reliable transport over UDP of projet1_Calmant_Outters/src: a sender reads a file, cuts it into
-- packets and sends them with selective repeat; a receiver writes their payloads to a file in order
-- and answers every packet with an acknowledgement.
--
-- Parts and files
--   Platform   what is taken from zlib (crc32) and from the allocator, as parameters.
--   Packet     struct pkt with its getters and setters (packet_interface.h, packet_interface.c).
--     Codec      pkt_encode and pkt_decode, cut at their early returns.
--     Wire       the format of a packet on the wire, written down without the code.
--     Encode, Decode, RoundTrip, Sound, Bytes, Canonical, Bounds
--                what the two functions do on the wire format, on any bytes, and at the buffer's end.
--   Seqnum     inc_seqnum (transport_interface.c).
--   Receiver   receiver_loop (transport_interface.c): the record Receiver holds its local variables
--              (receiver_buffer is `slots`, window, seqnum, len, buffer), the bytes written to the
--              file (`output`) and the datagrams sent (`sent`). `step` is one round of while(42).
--     Slots, Ack, Invariant
--                keeping a packet in the slots, the acknowledgement, and what holds of every state.
--     Scan, Flush, Stuck
--                the loop over the slots after a delivery.
--     Branches, Step, Arrivals, Delivery, Answers, Breaks, Truncated
--                the branches of a round, the round, and what the network sees.
--   Sender     read_write_loop (sender.c): the record Sender holds its local variables
--              (sender_buffer is `slots`, sender_buffer_size is `free`) and the datagrams sent.
--     Phases     the phases of a round: fast retransmit, resend, socket, file; and the loop.
--     Invariant  what holds of every sound state.
--     Send, Unacked, Acked, Put, Data, Reads, Rounds, Loop
--                what each phase does, the round and the loop.
--     Overrun, Stall, Minute, Last
--                the window after a wrap-around and after an old acknowledgement, the second 59, and
--                the packet with the number 255.
--   Transfer   one datagram from the sender to the receiver, and its answer.
--   Network    the two loops on a network that loses, repeats, delays, reorders and corrupts
--              datagrams: a round of either side is a step, which may receive any datagram that the other
--              side ever sent, and any that pkt_decode refuses.
--     Chunks, Slots
--                the pieces of the file by their numbers, and which packets stay in the slots.
--     Invariant  what holds of both sides and of the datagrams on the network.
--     Receiving, Sending, Reading, Rounds
--                the rounds of the receiver, and of the sender up to and in the phase that reads.
--     Safety, Stream
--                what holds of the receiver's file, and the two loops as a reliable stream of bytes.
--     Progress, Completion
--                how the file gets every byte, and how the sender ends.
--   Draft      the earlier version of the program in src/: Packet (packet_interface.c), Seqnum,
--              Receiver and Sockets (transport_interface.c), Sender (sender.c) and Programs (the main
--              functions). Where it has the statements of the later version, its definition is that one.
--   Record     the records of prerequis/format_struct/record.c; Codec is record_write and
--              record_read, Write and RoundTrip what they do. Database is main of database.c, Copy
--              what it copies.
--   Chat       the chat of "prerequis/envoyer et recevoir": its loop, its sockets and main of chat.c;
--              Forward is what the loop forwards.
--   Calculator convert and main of prerequis/getopt_calc/calc.c, on any arithmetic for long double.
--              Overread is convert on hexadecimal numbers, Operands what operands that are zero do.
--   Sockets    real_address and create_socket (transport_interface.c).
--   UnitTests  the tests of tests/test.c; Results is when they pass.
--   Programs   main of sender.c and receiver.c: Run adds the loop and the exit status to them,
--              Arguments is how they read their arguments, Status what their exit status tells.
--   Samples    values for the examples.
--
-- Conventions
--   An object in memory is the list of its bytes. A function that may read or write outside an object
--   returns an Option, and `none` is undefined behaviour (Prelude.Memory). A pointer to a payload is
--   `none` when it is null. Words are natural numbers with their wrap-around written out; the host is
--   little-endian and fills bit fields from the lowest bit, as GCC does on x86.
--   What the system calls answer is an argument: an Event says what poll, recvfrom, the allocator and
--   write answer in a round. calloc of a struct pkt is taken to succeed, as the code takes it. A
--   `write` puts out all bytes or fails.
--   The loop over the slots runs on fuel. It is given 1024 steps; a scan has at most 31 steps and is
--   restarted at most once per occupied slot, and Flush shows that 32 * occupied + 31 + 1 is enough.
--   `while(42)` follows a list of events.
--   A second is a tm_sec of localtime, from 0 to 59, since the time of POSIX has no leap seconds.
--   On the network, memory and writes do not fail, a file is always ready to be read, as poll reports of
--   one, and at most 255 pieces are read: from then on the comparisons of numbers wrap around.
--
-- Not modelled
--   Messages on stderr, closing and opening of descriptors, freeing of memory, the addresses of
--   sendto, corrupted datagrams that pkt_decode accepts, and the link simulator of
--   LINGI1341-linksim, which is another project's tool with a licence of its own.
pub mod Prelude
pub mod Platform
pub mod Packet
pub mod Seqnum
pub mod Receiver
pub mod Sender
pub mod Transfer
pub mod Network
pub mod Draft
pub mod Record
pub mod UnitTests
pub mod Calculator
pub mod Chat
pub mod Sockets
pub mod Programs
pub mod Samples
