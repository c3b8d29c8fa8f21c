-- ===== src/Programs/Run.antt =====
-- The programs from their arguments to their exit status: main of
-- projet1_Calmant_Outters/src/sender.c and receiver.c with their loops.
use lingi1341_projet.Prelude.{ℕ, not, Option, some, List, [], ◌>>=◌, if◌then◌else◌}
use lingi1341_projet.Prelude.Ints.{ℤ, pos}
use lingi1341_projet.Platform.{Zlib}
use lingi1341_projet.Sockets.{Address, Calls}
use lingi1341_projet.Sender.{Wake, Turn, go_on, finish, start}
use lingi1341_projet.Sender.Phases.{read_write_loop}
use lingi1341_projet.Receiver.{Event, Round, continue, break, receiver_loop, initial}
use lingi1341_projet.Programs.{
  Opt, Launch, exit_failure, runs, is_zero, is_negative, sender_main, receiver_main,
}

-- How far a program comes: to its exit status, or to another round of its loop; with the datagrams
-- it has sent.
pub data Run : Type 0 where
  exited : ℕ → List (List ℕ) → Run
  running : List (List ℕ) → Run

-- `return 0` of read_write_loop, whatever ended the loop.
abbrev pub loop_status : ℤ
loop_status = pos 0

-- What main of the sender makes of the end of its loop: it has no `return` at its end, which by the
-- standard that the Makefile asks for is the status 0.
abbrev pub sender_end : Turn → Run
sender_end (go_on s) = running s.sent
sender_end (finish s) = exited (if is_negative loop_status then 1 else 0) s.sent

-- receiver_loop returns nothing.
abbrev pub receiver_end : Round → Run
receiver_end (continue r) = running r.sent
receiver_end (break r) = exited 0 r.sent

module _ (z : Zlib) where
  unfoldable pub sender_launched : Launch ℤ → List (Option Wake) → Option Run
  sender_launched exit_failure ws = some (exited 1 [])
  sender_launched (runs socket file_d) ws = do
    t ← read_write_loop z (not (is_zero file_d)) ws start
    some (sender_end t)

  unfoldable pub receiver_launched : Launch (List ℕ) → List Event → Option Run
  receiver_launched exit_failure es = some (exited 1 [])
  receiver_launched (runs socket name) es = do o ← receiver_loop z es initial; some (receiver_end o)

module _ (getaddrinfo : List ℕ → Option Address) (calls : Calls) (z : Zlib) where
  unfoldable pub sender_program :
      (List ℕ → ℤ) → List (List ℕ) → List Opt → List (Option Wake) → Option Run
  sender_program open_file argv opts ws = do
    launched ← sender_main getaddrinfo calls open_file argv opts
    sender_launched z launched ws

  unfoldable pub receiver_program : List ℕ → List (List ℕ) → List Opt → List Event → Option Run
  receiver_program block argv opts es = do
    launched ← receiver_main getaddrinfo calls block argv opts
    receiver_launched z launched es
