-- ===== src/Chat.antt =====
-- The chat exercise of "prerequis/envoyer et recevoir": real_address.c, create_socket.c,
-- wait_for_client.c, read_write_loop.c and chat.c. What the system calls answer is a parameter.
pub mod Forward
mod Tests
use lingi1341_projet.Prelude.{
  ℕ, zero, suc, ◌+◌, ◌-◌, ◌*◌, ◌/◌, ◌%◌, ◌^◌, ◌≤◌, ◌<◌, ◌≡◌, refl, sym, ap, ap₂, subst, ◌∙◌, ◌≢◌,
  ◌↔◌, ◌⊎◌, inl, inr, Bool, true, false, ◌&&◌, ◌||◌, not, Option, none, some, List, [], ◌∷◌, ◌++◌,
  map, append_assoc, append-nil, arith, ◌>>=◌, length, get_or, set, take, drop, replicate, All,
  length-append, length-take, length-take_le, length-drop, length-replicate, length-set,
  take-append, drop-append, drop-nil, drop-drop, drop_past, length_zero, take-take, take-all,
  All-map, All-append, ltb, leb, ◌==◌, if◌then◌else◌, ltb→lt, lt→ltb, leb→le, ==_iff, Bool-cases,
  Option-cases,
}
use lingi1341_projet.Prelude.Ints.{ℤ, pos, negsuc}
use lingi1341_projet.Programs.{atoi, is_negative}
use lingi1341_projet.Sockets
use lingi1341_projet.Sockets.{Address, Calls, Created}
use lingi1341_projet.Draft.Sockets as DraftSockets

-- The message of `gai_strerror`, or none for a null pointer, and `*rval`.
unfoldable pub real_address :
    (List ℕ → Option Address) → List ℕ → List ℕ → Option (List ℕ) × Address
real_address getaddrinfo message address = elim (getaddrinfo address) [
  | none ↦ (
    some message,
    record {
      sin6_family = 10;
      sin6_port = 0;
      sin6_flowinfo = 0;
      sin6_addr = replicate 16 0;
      sin6_scope_id = 0;
    },
  )
  | some found ↦ (none, found)
]

-- The statements of the program in src/.
abbrev pub create_socket : Calls → Option Address → ℤ → Option Address → ℤ → Created
create_socket calls source_addr src_port dest_addr dst_port =
    Sockets.create_socket calls source_addr src_port dest_addr dst_port

abbrev pub wait_for_client : (ℕ → Option Address) → Calls → Address → ℕ → ℤ
wait_for_client peek calls stack sfd = DraftSockets.wait_for_client peek calls stack sfd

-- What was written to the standard output, and the datagrams written to the socket.
pub record Talk : Type 0 where
  pub shown : List ℕ
  pub sent : List (List ℕ)

-- What a round of the loop meets: `select` fails, or it reports the socket, or the standard input alone,
-- or nothing; then what `read` gives (`none` for an error) and whether `write` succeeds.
pub data Ready : Type 0 where
  select_fails : Ready
  socket_set : Option (List ℕ) → Bool → Ready
  input_set : Option (List ℕ) → Bool → Ready
  nothing_set : Ready

pub data Next : Type 0 where
  goes_on : Talk → Next
  breaks : Talk → Next

-- A `write` that fails only prints a message.
unfoldable pub chat_round : Ready → Talk → Next
chat_round select_fails t = goes_on t
chat_round nothing_set t = goes_on t
chat_round (socket_set none done) t = breaks t
chat_round (socket_set (some bytes) done) t =
    goes_on (if done then record t { shown = t.shown ++ take 1024 bytes } else t)
chat_round (input_set none done) t = breaks t
chat_round (input_set (some bytes) done) t =
    goes_on (if done then record t { sent = t.sent ++ (take 1024 bytes ∷ []) } else t)

-- The loop over a sequence of rounds, up to its end or to the end of the sequence.
unfoldable pub read_write_loop : List Ready → Talk → Next
read_write_loop [] t = goes_on t
read_write_loop (e ∷ events) t = elim (chat_round e t) [
  | goes_on t1 ↦ read_write_loop events t1
  | breaks t1 ↦ breaks t1
]

-- The options that `getopt` finds.
pub data Opt : Type 0 where
  server : Opt
  client : Opt
  port : List ℕ → Opt
  host : List ℕ → Opt
  unknown : Opt

pub record Settings : Type 0 where
  pub is_client : Bool
  pub port_number : ℤ
  pub host_name : List ℕ

-- Port 12345 on ::1.
abbrev pub defaults : Settings
defaults = record { is_client = false; port_number = pos 12345; host_name = 58 ∷ 58 ∷ 49 ∷ [] }

unfoldable pub settings : Settings → List Opt → Settings
settings s [] = s
settings s (server ∷ opts) = settings (record s { is_client = false }) opts
settings s (client ∷ opts) = settings (record s { is_client = true }) opts
settings s (port optarg ∷ opts) = settings (record s { port_number = atoi optarg }) opts
settings s (host optarg ∷ opts) = settings (record s { host_name = optarg }) opts
settings s (unknown ∷ opts) = settings s opts

-- The program fails, with the descriptors that it has closed, or its loop runs on a socket.
pub data Outcome : Type 0 where
  fails : List ℕ → Outcome
  chats : ℤ → Outcome

-- `if (sfd < 0)`, and the loop.
abbrev pub unless_negative : Created → Outcome
unless_negative created =
    if is_negative created.result then fails created.closed else chats created.result

-- `if (sfd > 0 && wait_for_client(sfd) < 0)`
abbrev pub served : (ℕ → ℤ) → Created → ℤ → Outcome
served wait created (pos (suc n)) =
    if is_negative (wait (suc n)) then fails (suc n ∷ []) else chats (pos (suc n))
served wait created _ = unless_negative created

unfoldable pub chat_main :
    (List ℕ → Option Address) → Calls → (ℕ → Option Address) → Address → List Opt → Outcome
chat_main getaddrinfo calls peek stack opts =
    let s = settings defaults opts in
    let (err, addr) = real_address getaddrinfo [] s.host_name in
    let connected = create_socket calls none (negsuc 0) (some addr) s.port_number in
    let bound = create_socket calls (some addr) s.port_number none (negsuc 0) in
    elim err [
      | some message ↦ fails []
      | none ↦
          if s.is_client
          then unless_negative connected
          else served (wait_for_client peek calls stack) bound bound.result
    ]
