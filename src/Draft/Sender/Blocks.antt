-- ===== src/Draft/Sender/Blocks.antt =====
-- What send_data of the earlier version makes of what it reads.
use lingi1341_projet.Prelude.{
  ℕ, ◌%◌, ◌≤◌, ◌≡◌, refl, sym, ap, ap₂, ◌∙◌, Bool, true, false, not, Option, none, some, List, [],
  ◌∷◌, ◌++◌, arith, length, set, take, drop, length-take_le, ◌==◌, if◌then◌else◌,
}
use lingi1341_projet.Prelude.Ints.{pos}
use lingi1341_projet.Prelude.Memory.{load-append, load_all, load_outside}
use lingi1341_projet.Platform.{Zlib}
use lingi1341_projet.Packet.{Pkt}
use lingi1341_projet.Draft.Packet.{pkt_set_payload}
use lingi1341_projet.Draft.Sender.{
  Globals, Offer, read_inputs, packet_header, exit_failure, Value, read_into, read_if_set,
  send_read, send_bytes, send_data,
}

-- The payload is what stands in front in the buffer.
set_payload_front :
    (memory : Bool) (p : Pkt) (c rest : List ℕ)
    → length c ≤ 512
    → pkt_set_payload memory p (c ++ rest) (length c) ≡ pkt_set_payload memory p c (length c)
unfolding pkt_set_payload
set_payload_front memory p c rest h =
    let small : length c % 65536 ≡ length c = omega arith in
    rw (small, load-append [] c rest 0 (length c) refl refl, load_all c (length c) refl) refl

module _ (z : Zlib) where
  send_bytes_front :
      (c rest : List ℕ) (o : Offer) (g : Globals)
      → length c ≤ 512
      → send_bytes z (length c) (c ++ rest) o g ≡ send_bytes z (length c) c o g
  unfolding send_bytes
  send_bytes_front c rest o g h =
      rw (set_payload_front o.payload_memory (packet_header g.sender_window) c rest h) refl

  send_read_front :
      (c rest : List ℕ) (o : Offer) (g : Globals)
      → 1 ≤ length c
      → length c ≤ 512
      → send_read z (some (length c), c ++ rest) o g ≡ send_bytes z (length c) c o g
  unfolding send_read
  send_read_front c rest o g lo hi =
      let some_bytes : (length c == 0) ≡ false = ground arith in
      rw some_bytes (send_bytes_front c rest o g hi)

  send_data_standard :
      (o : Offer) (g : Globals) (input : Option ℕ × List ℕ)
      → read_inputs (pos 0) o ≡ input
      → send_data z (pos 0) o g
        ≡ (if not o.selects then some (exit_failure, g) else send_read z input o g)
  unfolding send_data
  send_data_standard o g input same =
      ap
        (λ (i : Option ℕ × List ℕ).
          if not o.selects then some (exit_failure, g) else send_read z i o g)
        same

  -- Without a file, the packet has the bytes of the second of two reads.
  second_block :
      (o : Offer) (b : ℕ) (bytes : List ℕ) (g : Globals)
      → o.input_set ≡ true
      → o.file_read ≡ some (b ∷ bytes)
      → let c = take 512 (b ∷ bytes) in
        send_data z (pos 0) o g
        ≡ (if not o.selects then some (exit_failure, g) else send_bytes z (length c) c o g)
  second_block o b bytes g set second =
      let c : List ℕ = take 512 (b ∷ bytes) in
      let behind : List ℕ = drop (length c) (read_into 512 o.input_read o.buffer).1 in
      send_data_standard o g (some (length c), c ++ behind)
        (ap₂
          (λ (set1 : Bool) (read : Option (List ℕ)).
            read_if_set set1 512 read (read_if_set set1 512 o.input_read (none, o.buffer)))
          set second)
      ∙ ap (λ (x : Option (Value × Globals)). if not o.selects then some (exit_failure, g) else x)
          (send_read_front c behind o g (omega arith) (length-take_le 512 (b ∷ bytes)))

  -- Without a file, the standard input is read twice, and the first block is lost: what `send_data` sends
  -- and keeps does not depend on what the first read gives, if the second one gives some bytes.
  pub send_data_first_lost :
      (o : Offer) (other : Option (List ℕ)) (b : ℕ) (bytes : List ℕ) (g : Globals)
      → o.input_set ≡ true
      → o.file_read ≡ some (b ∷ bytes)
      → send_data z (pos 0) (record o { input_read = other }) g ≡ send_data z (pos 0) o g
  unfolding send_bytes
  send_data_first_lost o other b bytes g set second =
      second_block (record o { input_read = other }) b bytes g set second
      ∙ sym (second_block o b bytes g set second)

  send_read_error :
      (o : Offer) (g : Globals)
      → o.packet_memory ≡ true
      → o.payload_memory ≡ true
      → length o.buffer ≡ 512
      → send_read z (some 18446744073709551615, o.buffer) o g ≡ none
  unfolding send_read send_bytes pkt_set_payload
  send_read_error o g packet payload short =
      rw (packet, payload, load_outside o.buffer 0 65535 (omega arith)) refl

  -- A `read` that fails is taken for one of the largest `size_t`: if there is memory, `pkt_set_payload`
  -- copies 65535 bytes from an array of 512.
  pub send_data_read_error :
      (o : Offer) (g : Globals)
      → o.selects ≡ true
      → o.packet_memory ≡ true
      → o.payload_memory ≡ true
      → length o.buffer ≡ 512
      → o.input_set ≡ true
      → o.input_read ≡ none
      → o.file_read ≡ none
      → send_data z (pos 0) o g ≡ none
  send_data_read_error o g ready packet payload short set e1 e2 =
      send_data_standard o g (some 18446744073709551615, o.buffer)
        (ap₂
          (λ (set1 : Bool) (reads : Option (List ℕ) × Option (List ℕ)).
            read_if_set set1 512 reads.1 (read_if_set set1 512 reads.0 (none, o.buffer)))
          set (ap₂ (λ (x y : Option (List ℕ)). (x, y)) e1 e2))
      ∙ ap
          (λ (selected : Bool).
            if not selected
            then some (exit_failure, g)
            else send_read z (some 18446744073709551615, o.buffer) o g)
          ready
      ∙ send_read_error o g packet payload short
