-- ===== src/Programs/Arguments.antt =====
-- How the main functions read their arguments.
use lingi1341_projet.Prelude.{
  ℕ, zero, suc, ◌<◌, ◌≡◌, refl, ◌≢◌, inl, inr, Bool, true, false, ◌&&◌, ◌||◌, not, Option, none,
  some, List, [], ◌∷◌, arith, length, get_or, ltb, ◌==◌, if◌then◌else◌, Bool-cases,
}
use lingi1341_projet.Prelude.Ints.{ℤ, pos}
use lingi1341_projet.Sockets.{Address, Calls}
use lingi1341_projet.Programs.{
  Opt, Launch, exit_failure, atoi, arg, is_zero, launch, open_socket, sender_file, sender_main,
  receiver_file, receiver_main,
}

arg-some : (argv : List (List ℕ)) (k : ℕ) → k < length argv → (a : List ℕ) × (arg argv k ≡ some a)
arg-some [] k h = absurd (omega arith)
arg-some (a ∷ argv) zero h = (a, refl)
arg-some (a ∷ argv) (suc k) h = arg-some argv k (omega arith)

host_there :
    (standard : Bool) (argc : ℕ)
    → (ltb argc 3 || (not standard && ltb argc 5)) ≡ false
    → (if standard then 1 else 3) < argc
host_there true argc h = ground arith
host_there false argc h = ground arith

port_there :
    (standard : Bool) (argc : ℕ)
    → (ltb argc 3 || (not standard && ltb argc 5)) ≡ false
    → (if standard then 2 else 4) < argc
port_there true argc h = ground arith
port_there false argc h = ground arith

named : (n : ℕ) → n ≢ 0 → (n == 0) ≡ false
named n h = ground arith

module _ (getaddrinfo : List ℕ → Option Address) (calls : Calls) where
  -- The sender reads no argument behind the last one, whatever options there are and `open` answers.
  pub sender_main_total :
      (open_file : List ℕ → ℤ) (argv : List (List ℕ)) (opts : List Opt)
      → (l : Launch ℤ) × (sender_main getaddrinfo calls open_file argv opts ≡ some l)
  unfolding sender_main
  sender_main_total open_file argv opts =
      let file_d : ℤ = sender_file open_file (pos 0) opts in
      elim (Bool-cases (ltb 5 (length argv))) [
        | inl many ↦ (exit_failure, rw many refl)
        | inr fits ↦
            elim (Bool-cases
              (ltb (length argv) 3 || (not (is_zero file_d) && ltb (length argv) 5))) [
                | inl few ↦ (exit_failure, rw (fits, few) refl)
                | inr enough ↦
                    let (host, e1) =
                      arg-some argv (if is_zero file_d then 1 else 3)
                        (host_there (is_zero file_d) (length argv) enough) in
                    let (port, e2) =
                      arg-some argv (if is_zero file_d then 2 else 4)
                        (port_there (is_zero file_d) (length argv) enough) in
                    (
                      launch (open_socket getaddrinfo calls false host (atoi port)) file_d,
                      rw (fits, enough, e1, e2) refl,
                    )
              ]
      ]

  -- Called with an address and a port and without options, the receiver reads behind its last argument
  -- if the block for the file name happens not to start with 0.
  pub receiver_main_undefined :
      (block : List ℕ) (program address port : List ℕ)
      → get_or block 0 0 ≢ 0
      → receiver_main getaddrinfo calls block (program ∷ address ∷ port ∷ []) [] ≡ none
  unfolding receiver_main receiver_file
  receiver_main_undefined block program address port h = rw (named (get_or block 0 0) h) refl
