-- ===== src/Draft/Packet/Tests.antt =====
-- The packets of the earlier version on concrete values.
use lingi1341_projet.Prelude.{
  ℕ, ◌+◌, ◌≤◌, ◌<◌, ◌≡◌, ◌⊎◌, inl, some, ◌++◌, arith, drop, replicate, length-replicate,
}
use lingi1341_projet.Packet.{pkt_new, pkt_ok, e_nomem}
use lingi1341_projet.Packet.Wire.{wire}
use lingi1341_projet.Packet.RoundTrip.{has_memory}
use lingi1341_projet.Packet.Codec as LaterCodec
use lingi1341_projet.Draft.Packet.Codec.{pkt_encode, pkt_decode}
use lingi1341_projet.Draft.Packet.Compare.{decode-same, encode_guarded}
use lingi1341_projet.Samples.{toy, data_packet, data_packet-IsSendable}

decode-same_example :
    pkt_decode toy has_memory (wire toy (data_packet 7)) 19 pkt_new
    ≡ LaterCodec.pkt_decode toy has_memory (wire toy (data_packet 7)) 19 pkt_new
decode-same_example =
    decode-same toy has_memory (wire toy (data_packet 7)) 19 pkt_new (inl (omega arith))

room_decides :
    ((640 < 16 + 3)
      × (pkt_encode toy (data_packet 0) (replicate 640 0) 640
          ≡ some (e_nomem, replicate 640 0, 640)))
    ⊎ ((16 + 3 ≤ 640)
        × (pkt_encode toy (data_packet 0) (replicate 640 0) 640
            ≡ some (pkt_ok, wire toy (data_packet 0) ++ drop 19 (replicate 640 0), 19)))
room_decides =
    encode_guarded toy (data_packet 0) (replicate 640 0) 640 data_packet-IsSendable
      (omega (arith, length-replicate {A = ℕ} 640 0))
