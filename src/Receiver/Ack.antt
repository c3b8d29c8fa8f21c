-- ===== src/Receiver/Ack.antt =====
-- The acknowledgements of the receiver, from the struct to what the sender makes of the datagram.
use lingi1341_projet.Prelude.{
  ℕ, ◌≡◌, arith, List, [], ◌∷◌, ◌++◌, some, length, take, drop, replicate, length-replicate,
  length-drop,
}
use lingi1341_projet.Prelude.Memory.{load-take, store_front}
use lingi1341_projet.Platform.{Zlib}
use lingi1341_projet.Packet.Wire.{wire, IsSendable}
use lingi1341_projet.Packet.Encode.{encode-wire}
use lingi1341_projet.Receiver.{Receiver, make_ack, send_ack}

pub make_ack-IsSendable : (window seqnum : ℕ) → IsSendable (make_ack window seqnum)
make_ack-IsSendable window seqnum = omega arith

module _ (z : Zlib) where
  -- The buffer with the acknowledgement at its front.
  abbrev pub ack_buffer : Receiver → List ℕ
  ack_buffer r = wire z (make_ack r.window r.seqnum) ++ drop 12 r.buffer

  pub length-ack_buffer : (r : Receiver) → length r.buffer ≡ 528 → length (ack_buffer r) ≡ 528
  length-ack_buffer r h = omega (arith, length-drop 12 r.buffer)

  -- The state after an acknowledgement was sent.
  abbrev pub after_ack : Receiver → Receiver
  after_ack r = record r {
    buffer = replicate 512 0 ++ drop 512 (ack_buffer r);
    len = 512;
    sent = r.sent ++ (take 512 (ack_buffer r) ∷ []);
  }

  pub send_ack-after_ack :
      (r : Receiver) → length r.buffer ≡ 528 → send_ack z r ≡ some (after_ack r)
  unfolding send_ack
  send_ack-after_ack r h = rw (
    encode-wire z (make_ack r.window r.seqnum) r.buffer (make_ack-IsSendable r.window r.seqnum)
        (omega arith),
    load-take (ack_buffer r) 0 512 (omega (arith, length-ack_buffer r h)),
    store_front (ack_buffer r) (replicate 512 0)
        (omega (arith, length-replicate {A = ℕ} 512 0, length-ack_buffer r h)),
    length-replicate {A = ℕ} 512 0,
  )
