-- ===== src/Sockets.antt =====
-- real_address and create_socket of projet1_Calmant_Outters/src/transport_interface.c. What the
-- resolver and the system calls answer is a parameter.
mod Tests
use lingi1341_projet.Prelude.{
  ℕ, zero, suc, ◌+◌, ◌-◌, ◌*◌, ◌/◌, ◌%◌, ◌^◌, ◌≤◌, ◌<◌, ◌≡◌, refl, sym, ap, ap₂, subst, ◌∙◌, ◌≢◌,
  ◌↔◌, ◌⊎◌, inl, inr, Bool, true, false, ◌&&◌, ◌||◌, not, Option, none, some, List, [], ◌∷◌, ◌++◌,
  map, append_assoc, append-nil, arith, ◌>>=◌, length, get_or, set, take, drop, replicate, All,
  length-append, length-take, length-take_le, length-drop, length-replicate, length-set,
  take-append, drop-append, drop-nil, drop-drop, drop_past, length_zero, take-take, take-all, ltb,
  leb, ◌==◌, if◌then◌else◌, ltb→lt, lt→ltb, leb→le, ==_iff, Bool-cases, Option-cases,
}
use lingi1341_projet.Prelude.Ints.{ℤ, pos, negsuc}
use lingi1341_projet.Prelude.Words.{htons}

-- `struct sockaddr_in6`
pub record Address : Type 0 where
  pub sin6_family : ℕ
  pub sin6_port : ℕ
  pub sin6_flowinfo : ℕ
  pub sin6_addr : List ℕ
  pub sin6_scope_id : ℕ

-- AF_INET6 on Linux.
abbrev pub af_inet6 : ℕ
af_inet6 = 10

-- `getaddrinfo` gives the first address of a name, or an error. The value returned, and `*rval`.
abbrev pub real_address : (List ℕ → Option Address) → List ℕ → ℤ × Address
real_address getaddrinfo address = elim (getaddrinfo address) [
  | none ↦ (
    negsuc 0,
    record {
      sin6_family = af_inet6;
      sin6_port = 0;
      sin6_flowinfo = 0;
      sin6_addr = replicate 16 0;
      sin6_scope_id = 0;
    },
  )
  | some found ↦ (pos 0, found)
]

-- The answers of `socket` (`none` for an error), `bind` and `connect`.
pub record Calls : Type 0 where
  pub socket : Option ℕ
  pub bind : ℕ → Address → Bool
  pub connect : ℕ → Address → Bool

-- The value returned, the descriptors that were closed, and the two addresses afterwards.
pub record Created : Type 0 where
  pub result : ℤ
  pub closed : List ℕ
  pub source : Option Address
  pub dest : Option Address

-- The port in network byte order, if an `int` is above 0.
abbrev pub usable_port : ℤ → Option ℕ
usable_port (pos zero) = none
usable_port (pos (suc n)) = some (htons (suc n))
usable_port (negsuc n) = none

unfoldable pub connect_dest : Calls → ℕ → Option Address → Option Address → Option ℕ → Created
connect_dest calls fd source (some a) (some port) =
    let a1 : Address = record a { sin6_port = port } in
    if calls.connect fd a1
    then record { result = pos fd; closed = []; source = source; dest = some a1 }
    else record { result = negsuc 0; closed = fd ∷ []; source = source; dest = some a1 }
connect_dest calls fd source none port = record {
  result = pos fd;
  closed = [];
  source = source;
  dest = none;
}
connect_dest calls fd source (some a) none = record {
  result = pos fd;
  closed = [];
  source = source;
  dest = some a;
}

unfoldable pub bind_source :
    Calls → ℕ → Option Address → Option ℕ → Option Address → Option ℕ → Created
bind_source calls fd (some a) (some port) dest dst_port =
    let a1 : Address = record a { sin6_family = af_inet6; sin6_port = port } in
    let rest = connect_dest calls fd (some a1) dest dst_port in
    if calls.bind fd a1
    then rest
    else record { result = negsuc 0; closed = fd ∷ []; source = some a1; dest = dest }
bind_source calls fd none port dest dst_port = connect_dest calls fd none dest dst_port
bind_source calls fd (some a) none dest dst_port = connect_dest calls fd (some a) dest dst_port

unfoldable pub create_socket : Calls → Option Address → ℤ → Option Address → ℤ → Created
create_socket calls source src_port dest dst_port = elim calls.socket [
  | none ↦ record { result = negsuc 0; closed = []; source = source; dest = dest }
  | some fd ↦ bind_source calls fd source (usable_port src_port) dest (usable_port dst_port)
]

-- A descriptor is returned open, or was closed before -1 was returned.
abbrev pub IsHanded : ℕ → Created → Type 0
IsHanded fd c =
    ((c.result ≡ pos fd) × (c.closed ≡ [])) ⊎ ((c.result ≡ negsuc 0) × (c.closed ≡ fd ∷ []))

connect_dest-IsHanded :
    (calls : Calls) (fd : ℕ) (source dest : Option Address) (port : Option ℕ)
    → IsHanded fd (connect_dest calls fd source dest port)
unfolding connect_dest
connect_dest-IsHanded calls fd source none port = inl (refl, refl)
connect_dest-IsHanded calls fd source (some a) none = inl (refl, refl)
connect_dest-IsHanded calls fd source (some a) (some port) =
    elim (Bool-cases (calls.connect fd (record a { sin6_port = port }))) [
      | inl connected ↦ rw connected (inl (refl, refl))
      | inr refused ↦ rw refused (inr (refl, refl))
    ]

bind_source-IsHanded :
    (calls : Calls) (fd : ℕ) (source : Option Address) (port : Option ℕ) (dest : Option Address)
    (dst_port : Option ℕ)
    → IsHanded fd (bind_source calls fd source port dest dst_port)
unfolding bind_source
bind_source-IsHanded calls fd none port dest dst_port =
    connect_dest-IsHanded calls fd none dest dst_port
bind_source-IsHanded calls fd (some a) none dest dst_port =
    connect_dest-IsHanded calls fd (some a) dest dst_port
bind_source-IsHanded calls fd (some a) (some port) dest dst_port =
    let a1 : Address = record a { sin6_family = af_inet6; sin6_port = port } in
    elim (Bool-cases (calls.bind fd a1)) [
      | inl bound ↦ rw bound (connect_dest-IsHanded calls fd (some a1) dest dst_port)
      | inr refused ↦ rw refused (inr (refl, refl))
    ]

-- `create_socket` loses no descriptor: without one it returns -1 and closes nothing, and with one it
-- returns it open or closes it and returns -1, whatever `bind` and `connect` answer.
pub create_socket-IsHanded :
    (calls : Calls) (source dest : Option Address) (src_port dst_port : ℤ)
    → let c = create_socket calls source src_port dest dst_port in
      ((calls.socket ≡ none) × (c.result ≡ negsuc 0) × (c.closed ≡ []))
      ⊎ ((fd : ℕ) × (calls.socket ≡ some fd) × IsHanded fd c)
unfolding create_socket bind_source connect_dest
create_socket-IsHanded calls source dest src_port dst_port = elim (Option-cases calls.socket) [
  | inl n ↦ inl (n, rw n refl, rw n refl)
  | inr (fd, e) ↦ inr (
    fd,
    e,
    rw e (bind_source-IsHanded calls fd source (usable_port src_port) dest (usable_port dst_port)),
  )
]
