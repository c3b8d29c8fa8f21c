-- ===== src/Draft/Receiver/Tests.antt =====
-- The receiver of the earlier version on concrete values.
use lingi1341_projet.Prelude.{◌≡◌, refl, true, none, some, [], ◌∷◌, replicate}
use lingi1341_projet.Prelude.Memory.{load, store}
use lingi1341_projet.Packet.Wire.{wire}
use lingi1341_projet.Packet.RoundTrip.{has_memory}
use lingi1341_projet.Receiver.{write_out}
use lingi1341_projet.Draft.Packet.{pkt_set_payload}
use lingi1341_projet.Draft.Packet.Codec.{
  pkt_decode, decode_type, decode_length, decode_crc1, decode_payload,
}
use lingi1341_projet.Draft.Seqnum.{inc_seqnum}
use lingi1341_projet.Draft.Receiver.{
  Reception, at_start, datagram, again, scan, take_data, receive, reception_step, reception_loop,
}
use lingi1341_projet.Draft.Receiver.Waiting.{
  IsWaiting, at_start-IsWaiting, reception_loop-IsWaiting,
}
use lingi1341_projet.Samples.{toy, text, data_packet}

abbrev one_written : Reception
one_written = record { slots = none ∷ []; seqnum = 0; buffer = replicate 640 0; output = text }

-- The first packet is written, and packet 0 is still expected.
one_run :
    reception_loop toy (datagram (some (wire toy (data_packet 0))) has_memory true ∷ []) at_start
    ≡ some (again one_written)
unfolding reception_loop reception_step receive take_data scan inc_seqnum pkt_decode decode_type
    decode_length decode_crc1 decode_payload pkt_set_payload load store write_out at_start replicate
one_run = refl

reception_loop-IsWaiting_example : IsWaiting one_written
reception_loop-IsWaiting_example =
    reception_loop-IsWaiting toy (datagram (some (wire toy (data_packet 0))) has_memory true ∷ [])
      at_start (again one_written) at_start-IsWaiting one_run
