-- ===== src/Draft/Sender/Tests.antt =====
-- The sender of the earlier version on concrete values.
use lingi1341_projet.Prelude.{◌≡◌, refl, true, some, [], ◌∷◌, replicate}
use lingi1341_projet.Prelude.Ints.{pos}
use lingi1341_projet.Samples.{toy, text}
use lingi1341_projet.Draft.Sender.{globals, Offer, send_data}
use lingi1341_projet.Draft.Sender.Blocks.{send_data_first_lost}

-- The standard input has two blocks of three bytes.
abbrev two_blocks : Offer
two_blocks = record {
  selects = true;
  input_set = true;
  file_set = true;
  input_read = some (1 ∷ 2 ∷ 3 ∷ []);
  file_read = some text;
  packet_memory = true;
  payload_memory = true;
  writes = true;
  assigned = 0;
  history_memory = true;
  buffer = replicate 512 0;
  buf_pkt = replicate 640 0;
}

send_data_first_lost_example :
    send_data toy (pos 0) (record two_blocks { input_read = some [] }) globals
    ≡ send_data toy (pos 0) two_blocks globals
send_data_first_lost_example =
    send_data_first_lost toy two_blocks (some []) 104 (105 ∷ 33 ∷ []) globals refl refl
