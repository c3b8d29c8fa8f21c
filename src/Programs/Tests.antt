-- ===== src/Programs/Tests.antt =====
-- The main functions on concrete arguments.
use lingi1341_projet.Prelude.{
  ℕ, ◌≡◌, refl, ◌≢◌, ◌↔◌, true, Option, none, some, List, [], ◌∷◌, arith,
}
use lingi1341_projet.Prelude.Ints.{ℤ, pos, negsuc}
use lingi1341_projet.Sockets.{Address, Calls, connect_dest, bind_source, create_socket}
use lingi1341_projet.Programs.{
  atoi, digits, runs, sender_file, open_socket, sender_main, receiver_main,
}
use lingi1341_projet.Programs.Status.{sender_program_status, sender_program_poll_fails}
use lingi1341_projet.Samples.{toy}
use lingi1341_projet.Programs.Arguments.{receiver_main_undefined}

-- " 8080"
port_number : atoi (32 ∷ 56 ∷ 48 ∷ 56 ∷ 48 ∷ []) ≡ pos 8080
unfolding atoi digits
port_number = refl

abbrev no_names : List ℕ → Option Address
no_names name = none

abbrev working : Calls
working = record { socket = some 3; bind = λ fd a. true; connect = λ fd a. true }

abbrev arguments : List (List ℕ)
arguments = (115 ∷ []) ∷ (58 ∷ 58 ∷ []) ∷ (56 ∷ 48 ∷ []) ∷ []

abbrev leftover : ℕ
leftover = 7

leftover_positive : leftover ≢ 0
leftover_positive e = omega arith

-- The first byte of the block is not 0.
undefined_call : receiver_main no_names working (leftover ∷ []) arguments [] ≡ none
undefined_call =
    receiver_main_undefined no_names working (leftover ∷ []) (115 ∷ []) (58 ∷ 58 ∷ [])
      (56 ∷ 48 ∷ []) leftover_positive

abbrev one_name : List ℕ → Option Address
one_name name = some (record {
  sin6_family = 10;
  sin6_port = 0;
  sin6_flowinfo = 0;
  sin6_addr = 1 ∷ [];
  sin6_scope_id = 0;
})

abbrev no_file : List ℕ → ℤ
no_file name = negsuc 0

on_stdin : sender_main one_name working no_file arguments [] ≡ some (runs (pos 3) (pos 0))
unfolding sender_main sender_file open_socket create_socket bind_source connect_dest atoi digits
on_stdin = refl

abbrev poll_failure : ℕ
poll_failure = 0

sender_program_status_example : (poll_failure ≡ 0) ↔ (
    (socket : ℤ) × (file_d : ℤ) × (sender_main one_name working no_file arguments []
      ≡ some (runs socket file_d)))
sender_program_status_example =
    sender_program_status one_name working toy no_file arguments [] (none ∷ []) poll_failure [] (
      sender_program_poll_fails one_name working toy no_file arguments [] [] (pos 3) (pos 0)
        on_stdin)
