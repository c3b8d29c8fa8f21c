-- ===== src/Draft/Programs/Idle.antt =====
-- What the earlier sender can do, from its main function on.
use lingi1341_projet.Prelude.{
  ℕ, ◌≡◌, refl, sym, ap, ◌∙◌, ◌⊎◌, inl, inr, Option, none, some, List, Option-cases,
}
use lingi1341_projet.Prelude.Ints.{ℤ, pos}
use mathlib.Core.Option.{some-injective}
use lingi1341_projet.Platform.{Zlib}
use lingi1341_projet.Sockets.{Address, Calls}
use lingi1341_projet.Programs.{Opt, exit_failure, runs}
use lingi1341_projet.Draft.Sender.{Globals, globals, Offer, Reply, Ending, goes_on, sending_loop}
use lingi1341_projet.Draft.Sender.Idle.{sending_loop_idle}
use lingi1341_projet.Draft.Programs.{sender_start, sender_main}

module _ (getaddrinfo : List ℕ → Option Address) (calls : Calls) where
  main_from_loop :
      (z : Zlib) (open_file : List ℕ → ℤ) (argv : List (List ℕ)) (opts : List Opt)
      (rounds : List (Offer × Reply)) (socket file_d : ℤ) (ending : Option Ending)
      (r : Option ℤ × Globals)
      → sender_start getaddrinfo calls open_file argv opts ≡ some (runs socket file_d)
      → sending_loop z file_d rounds globals ≡ ending
      → sender_main getaddrinfo calls z open_file argv opts rounds ≡ some r
      → r ≡ (none, globals)
  unfolding sender_main
  main_from_loop z open_file argv opts rounds socket file_d none r started looped e =
      absurd (cc (rw (started, looped) at e))
  main_from_loop z open_file argv opts rounds socket file_d (some ending) r started looped e =
      let idle : ending ≡ goes_on globals =
        sending_loop_idle z file_d rounds globals ending looped in
      sym (some-injective (none, globals) r (rw (started, looped ∙ ap some idle) at e))

  -- Whatever its arguments are and the calls answer, as long as its behaviour is defined: the earlier
  -- sender ends with status 1 before its loop, or its loop runs for ever, and it has sent no datagram
  -- and changed none of its globals. A function that did something ends without a `return`, so that
  -- the test of its status is undefined, and the status of a failure is not negative.
  pub sender_main_idle :
      (z : Zlib) (open_file : List ℕ → ℤ) (argv : List (List ℕ)) (opts : List Opt)
      (rounds : List (Offer × Reply)) (r : Option ℤ × Globals)
      → sender_main getaddrinfo calls z open_file argv opts rounds ≡ some r
      → (r ≡ (some (pos 1), globals)) ⊎ (r ≡ (none, globals))
  unfolding sender_main
  sender_main_idle z open_file argv opts rounds r e =
      elim (Option-cases (sender_start getaddrinfo calls open_file argv opts)) [
        | inl undefined ↦ absurd (cc (rw undefined at e))
        | inr (exit_failure, started) ↦
            inl (sym (some-injective (some (pos 1), globals) r (rw started at e)))
        | inr (runs socket file_d, started) ↦ inr (
            main_from_loop z open_file argv opts rounds socket file_d
              (sending_loop z file_d rounds globals) r started refl e)
      ]
