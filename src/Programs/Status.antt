-- ===== src/Programs/Status.antt =====
-- What the exit status of the programs tells.
use lingi1341_projet.Prelude.{
  ℕ, ◌≡◌, refl, sym, ap, ◌∙◌, ◌↔◌, inl, inr, not, Option, none, some, List, [], ◌∷◌, arith,
  Option-cases,
}
use mathlib.Core.Option.{some-injective}
use lingi1341_projet.Prelude.Ints.{ℤ}
use lingi1341_projet.Platform.{Zlib}
use lingi1341_projet.Sockets.{Address, Calls}
use lingi1341_projet.Sender.{Wake, Turn, go_on, finish, start}
use lingi1341_projet.Sender.Phases.{round, read_write_loop}
use lingi1341_projet.Receiver.{Event, Round, continue, break, receiver_loop, initial}
use lingi1341_projet.Programs.{Opt, Launch, exit_failure, runs, is_zero, sender_main, receiver_main}
use lingi1341_projet.Programs.Run.{
  Run, exited, running, sender_end, receiver_end, sender_launched, sender_program,
  receiver_launched, receiver_program,
}

abbrev pub HasStarted {ℓ} : {F : Type ℓ} → Launch F → Type ℓ
HasStarted {F = F} l = (socket : ℤ) × (f : F) × (l ≡ runs socket f)

abbrev pub status_of : Run → ℕ → ℕ
status_of (exited k d) n = k
status_of (running d) n = n

exit_of : (r : Run) (k : ℕ) (d : List (List ℕ)) → r ≡ exited k d → k ≡ status_of r k
exit_of r k d e = sym (ap (λ (x : Run). status_of x k) e)

not_started {ℓ} : {F : Type ℓ} → HasStarted {F = F} exit_failure → ⊥
not_started (socket, f, e) = absurd (cc (e))

sender_end_zero : (t : Turn) (k : ℕ) (d : List (List ℕ)) → sender_end t ≡ exited k d → k ≡ 0
sender_end_zero (go_on s) k d e = absurd (cc (e))
sender_end_zero (finish s) k d e = exit_of (exited 0 s.sent) k d e

receiver_end_zero : (o : Round) (k : ℕ) (d : List (List ℕ)) → receiver_end o ≡ exited k d → k ≡ 0
receiver_end_zero (continue r) k d e = absurd (cc (e))
receiver_end_zero (break r) k d e = exit_of (exited 0 r.sent) k d e

-- A program that failed before its loop has the status 1, and one whose loop has ended the status 0.
unstarted_status {ℓ} :
    {F : Type ℓ} (k : ℕ) (d : List (List ℕ))
    → some (exited 1 []) ≡ some (exited k d)
    → (k ≡ 0) ↔ HasStarted {F = F} exit_failure
unstarted_status k d e =
    let one : k ≡ 1 = exit_of (exited 1 []) k d (some-injective (exited 1 []) (exited k d) e) in
    (λ zero_status. absurd (omega arith), λ h. absurd (not_started h))

started_status {ℓ} :
    {F : Type ℓ} (socket : ℤ) (f : F) (k : ℕ) → k ≡ 0 → (k ≡ 0) ↔ HasStarted (runs socket f)
started_status socket f k e = (λ zero_status. (socket, f, refl), λ h. e)

module _ (z : Zlib) where
  sender_launched_status :
      (l : Launch ℤ) (ws : List (Option Wake)) (k : ℕ) (d : List (List ℕ))
      → sender_launched z l ws ≡ some (exited k d)
      → (k ≡ 0) ↔ HasStarted l
  unfolding sender_launched
  sender_launched_status exit_failure ws k d e = unstarted_status k d e
  sender_launched_status (runs socket file_d) ws k d e =
      elim (Option-cases (read_write_loop z (not (is_zero file_d)) ws start)) [
        | inl undefined ↦ absurd (cc (rw undefined at e))
        | inr (t, ran) ↦
            started_status socket file_d k
              (sender_end_zero t k d (some-injective (sender_end t) (exited k d) (rw ran at e)))
      ]

  receiver_launched_status :
      (l : Launch (List ℕ)) (es : List Event) (k : ℕ) (d : List (List ℕ))
      → receiver_launched z l es ≡ some (exited k d)
      → (k ≡ 0) ↔ HasStarted l
  unfolding receiver_launched
  receiver_launched_status exit_failure es k d e = unstarted_status k d e
  receiver_launched_status (runs socket name) es k d e =
      elim (Option-cases (receiver_loop z es initial)) [
        | inl undefined ↦ absurd (cc (rw undefined at e))
        | inr (o, ran) ↦
            started_status socket name k
              (receiver_end_zero o k d (some-injective (receiver_end o) (exited k d) (rw ran at e)))
      ]

-- What a `main` that has given a launch says of it.
launched_here {ℓ} :
    {F : Type ℓ} (main : Option (Launch F)) (l : Launch F) (k : ℕ)
    → main ≡ some l
    → (k ≡ 0) ↔ HasStarted l
    → (k ≡ 0) ↔ ((socket : ℤ) × (f : F) × (main ≡ some (runs socket f)))
launched_here main l k e (there, back) = (
  λ zero_status. let (socket, f, same) = there zero_status in (socket, f, e ∙ ap some same),
  λ (socket, f, same). back (socket, f, some-injective l (runs socket f) (sym e ∙ same)),
)

module _ (getaddrinfo : List ℕ → Option Address) (calls : Calls) (z : Zlib) where
  -- Where the sender exits, its status is 0 exactly if it came to its loop, whatever ended the loop.
  pub sender_program_status :
      (open_file : List ℕ → ℤ) (argv : List (List ℕ)) (opts : List Opt) (ws : List (Option Wake))
      (k : ℕ) (d : List (List ℕ))
      → sender_program getaddrinfo calls z open_file argv opts ws ≡ some (exited k d)
      → (k ≡ 0) ↔ (
          (socket : ℤ) × (file_d : ℤ) × (sender_main getaddrinfo calls open_file argv opts
            ≡ some (runs socket file_d)))
  unfolding sender_program
  sender_program_status open_file argv opts ws k d e =
      elim (Option-cases (sender_main getaddrinfo calls open_file argv opts)) [
        | inl undefined ↦ absurd (cc (rw undefined at e))
        | inr (l, started) ↦
            launched_here (sender_main getaddrinfo calls open_file argv opts) l k started
              (sender_launched_status z l ws k d (rw started at e))
      ]

  -- The same holds for the receiver.
  pub receiver_program_status :
      (block : List ℕ) (argv : List (List ℕ)) (opts : List Opt) (es : List Event) (k : ℕ)
      (d : List (List ℕ))
      → receiver_program getaddrinfo calls z block argv opts es ≡ some (exited k d)
      → (k ≡ 0) ↔ (
          (socket : ℤ) × (name : List ℕ) × (receiver_main getaddrinfo calls block argv opts
            ≡ some (runs socket name)))
  unfolding receiver_program
  receiver_program_status block argv opts es k d e =
      elim (Option-cases (receiver_main getaddrinfo calls block argv opts)) [
        | inl undefined ↦ absurd (cc (rw undefined at e))
        | inr (l, started) ↦
            launched_here (receiver_main getaddrinfo calls block argv opts) l k started
              (receiver_launched_status z l es k d (rw started at e))
      ]

  -- A sender whose first `poll` fails has sent nothing and exits with the status 0.
  pub sender_program_poll_fails :
      (open_file : List ℕ → ℤ) (argv : List (List ℕ)) (opts : List Opt) (ws : List (Option Wake))
      (socket file_d : ℤ)
      → sender_main getaddrinfo calls open_file argv opts ≡ some (runs socket file_d)
      → sender_program getaddrinfo calls z open_file argv opts (none ∷ ws) ≡ some (exited 0 [])
  unfolding sender_program sender_launched read_write_loop round start
  sender_program_poll_fails open_file argv opts ws socket file_d e = rw e refl
