-- ===== src/Transfer/Tests.antt =====
-- The first exchange of a transfer.
use lingi1341_projet.Prelude.{◌≤◌, ◌≡◌, refl, true, arith}
use lingi1341_projet.Receiver.{initial}
use lingi1341_projet.Receiver.Invariant.{initial-IsValid}
use lingi1341_projet.Samples.{toy, toy-IsZlib}
use lingi1341_projet.Sender.{start}
use lingi1341_projet.Sender.Invariant.{start-IsSound}
use lingi1341_projet.Transfer.{Exchange, exchange}

one_free : 1 ≤ start.free
unfolding start
one_free = omega arith

same_number : start.seqnum ≡ initial.seqnum
unfolding start initial
same_number = refl

exchange_example : Exchange toy 3 13 (λ k. true) start initial
exchange_example =
    exchange toy 3 13 (λ k. true) start initial toy-IsZlib start-IsSound one_free (omega arith)
      (omega arith) initial-IsValid same_number (λ j. refl)
