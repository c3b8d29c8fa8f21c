-- ===== src/Sender/Invariant.antt =====
-- What holds of the sender's state between two rounds.
use lingi1341_projet.Prelude.{
  ℕ, ◌+◌, ◌≤◌, ◌<◌, ◌≡◌, Option, none, arith, length, All, length-replicate,
}
use lingi1341_projet.Packet.{Pkt}
use lingi1341_projet.Packet.Wire.{IsSendable}
use lingi1341_projet.Packet.Slots.{occupied, Holds, occupied-replicate, replicate-Holds}
use lingi1341_projet.Sender.{Sender, start}

-- A packet that fits the buffer of 528 bytes when it is encoded.
pub record IsStored (p : Pkt) : Type 0 where
  pub sendable : IsSendable p
  pub short : p.length ≤ 512

-- `sender_buffer_size` counts the free slots, and what is in a slot can be sent again.
pub record IsSound (s : Sender) : Type 0 where
  pub slots_len : length s.slots ≡ 31
  pub balance : s.free + occupied s.slots ≡ 31
  pub seqnum_byte : s.seqnum < 256
  pub buffer1_len : length s.buffer1 ≡ 528
  pub buffer2_len : length s.buffer2 ≡ 512
  pub stored : All (Holds IsStored) s.slots

-- The sender starts in such a state.
pub start-IsSound : IsSound start
unfolding start
start-IsSound = record {
  slots_len = length-replicate {A = Option Pkt} 31 none;
  balance = omega (arith, occupied-replicate 31);
  seqnum_byte = omega arith;
  buffer1_len = length-replicate {A = ℕ} 528 0;
  buffer2_len = length-replicate {A = ℕ} 512 0;
  stored = replicate-Holds IsStored 31;
}
