-- ===== src/Draft/Seqnum/Tests.antt =====
-- The sequence numbers of the earlier version on concrete values.
use lingi1341_projet.Prelude.{◌≡◌, refl}
use lingi1341_projet.Prelude.Ints.{pos}
use lingi1341_projet.Draft.Seqnum.{iterate, inc_seqnum, compare_seqnum}

stays : iterate 300 7 ≡ 7
unfolding inc_seqnum
stays = refl

wraps : compare_seqnum 255 0 ≡ pos 0
unfolding compare_seqnum
wraps = refl
