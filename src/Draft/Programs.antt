-- ===== src/Draft/Programs.antt =====
-- The main functions of the earlier version, src/sender.c and src/receiver.c, with the loop of the sender.
pub mod Idle
mod Tests
use lingi1341_projet.Prelude.{
  ℕ, zero, suc, ◌+◌, ◌-◌, ◌*◌, ◌/◌, ◌%◌, ◌^◌, ◌≤◌, ◌<◌, ◌≡◌, refl, sym, ap, ap₂, subst, ◌∙◌, ◌≢◌,
  ◌↔◌, ◌⊎◌, inl, inr, Bool, true, false, ◌&&◌, ◌||◌, not, Option, none, some, List, [], ◌∷◌, ◌++◌,
  map, append_assoc, append-nil, arith, ◌>>=◌, length, get_or, set, take, drop, replicate, All,
  length-append, length-take, length-take_le, length-drop, length-replicate, length-set,
  take-append, drop-append, drop-nil, drop-drop, drop_past, length_zero, take-take, take-all,
  All-map, All-append, ltb, leb, ◌==◌, if◌then◌else◌, ltb→lt, lt→ltb, leb→le, ==_iff, Bool-cases,
  Option-cases,
}
use lingi1341_projet.Prelude.Ints.{ℤ, pos, negsuc}
use lingi1341_projet.Platform.{Zlib}
use lingi1341_projet.Sockets.{Address, Calls}
use lingi1341_projet.Programs.{
  Opt, Launch, exit_failure, runs, atoi, arg, is_zero, is_negative, launch, sender_file,
}
use lingi1341_projet.Draft.Sockets.{real_address, create_socket, wait_for_client}
use lingi1341_projet.Draft.Sender
use lingi1341_projet.Draft.Sender.{
  Globals, globals, Offer, Reply, Ending, goes_on, returns, sending_loop,
}

-- How the receiver starts: with too few arguments it ends, otherwise its loop runs on a descriptor and the
-- name of a file, after `wait_for_client` returned a value if it was called.
pub data Start : Type 0 where
  too_few : Start
  loops : ℤ → Option (List ℕ) → Option ℤ → Start

-- `strcmp(argument, "-f") == 0`
abbrev pub is_file_option : List ℕ → Bool
is_file_option (a ∷ b ∷ []) = (a == 45) && (b == 102)
is_file_option _ = false

-- `if(socket_descriptor > 0 && wait_for_client(socket_descriptor) < 0)`
abbrev pub client : (ℕ → Option Address) → Calls → Address → ℤ → Option ℤ
client peek calls stack (pos zero) = none
client peek calls stack (pos (suc n)) = some (wait_for_client peek calls stack (suc n))
client peek calls stack (negsuc n) = none

module _ (getaddrinfo : List ℕ → Option Address) (calls : Calls) where
  -- No failure ends the program: only messages are printed. `argv[k]` beyond the last argument is `none`.
  unfoldable pub receiver_main : (ℕ → Option Address) → Address → List (List ℕ) → Option Start
  receiver_main peek stack argv = if ltb (length argv) 3 then some too_few else (do
    first ← arg argv 1
    in_addr ← arg argv (if is_file_option first then 3 else 1)
    port ← arg argv (if is_file_option first then 4 else 2)
    let file_name = if is_file_option first then arg argv 2 else none
    let address = (real_address getaddrinfo in_addr).1
    let created = create_socket calls (some address) (atoi port) none (negsuc 0)
    some (loops created.result file_name (client peek calls stack created.result)))

  -- Up to the loop.
  unfoldable pub sender_start : (List ℕ → ℤ) → List (List ℕ) → List Opt → Option (Launch ℤ)
  sender_start open_file argv opts =
      let file_d = sender_file open_file (pos 0) opts in
      let argc = length argv in
      if ltb 5 argc || ltb argc 3 || (not (is_zero file_d) && ltb argc 5)
      then some exit_failure
      else (do
        host ← arg argv (if is_zero file_d then 1 else 3)
        port ← arg argv (if is_zero file_d then 2 else 4)
        let (status, destination) = Sender.Sockets.real_address getaddrinfo host
        let created = Sender.Sockets.create_socket calls none (pos 0) (some destination) (atoi port)
        some (
            if not (is_zero status) || is_negative created.result
            then exit_failure
            else runs created.result file_d))

  -- With the loop over a sequence of rounds, up to its end or to the end of the sequence; the value is that
  -- of `main` and the globals, or none if the loop still runs.
  unfoldable pub sender_main :
      Zlib
      → (List ℕ → ℤ)
      → List (List ℕ)
      → List Opt
      → List (Offer × Reply)
      → Option (Option ℤ × Globals)
  sender_main z open_file argv opts rounds = do
    started ← sender_start open_file argv opts
    elim started [
      | exit_failure ↦ some (some (pos 1), globals)
      | runs socket file_d ↦ (do
        ending ← sending_loop z file_d rounds globals
        elim ending [
          | goes_on g ↦ some (none, g)
          | returns status g ↦ some (some (if is_negative status then pos 1 else pos 0), g)
        ])
    ]
