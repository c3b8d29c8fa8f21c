-- ===== src/Seqnum.antt =====
-- inc_seqnum of projet1_Calmant_Outters/src/transport_interface.c.
use lingi1341_projet.Prelude.{ℕ, ◌+◌, ◌%◌}

abbrev pub inc_seqnum : ℕ → ℕ
inc_seqnum seqnum = (seqnum + 1) % 256
