-- ===== src/Draft/Sender/Idle.antt =====
-- What the sender of the earlier version can do without undefined behaviour: nothing.
use lingi1341_projet.Prelude.{
  ℕ, ◌%◌, ◌≡◌, refl, sym, ap, ◌∙◌, inl, inr, Bool, true, false, ◌&&◌, not, Option, none, some, List,
  [], ◌∷◌, ◌++◌, ◌>>=◌, length, ltb, ◌==◌, if◌then◌else◌, Bool-cases, Option-cases,
}
use lingi1341_projet.Prelude.Ints.{ℤ, pos}
use lingi1341_projet.Prelude.Memory.{load}
use mathlib.Core.Option.{some-injective}
use lingi1341_projet.Platform.{Zlib}
use lingi1341_projet.Packet.{Pkt, ptype_ack}
use lingi1341_projet.Programs.{is_negative}
use lingi1341_projet.Draft.Packet.{pkt_new, pkt_get_type, pkt_set_payload, pkt_set_seqnum}
use lingi1341_projet.Draft.Packet.Codec.{pkt_encode, pkt_decode}
use lingi1341_projet.Draft.Receiver.{draft_packet_size}
use lingi1341_projet.Draft.Sender.{
  Globals, Value, returned, indeterminate, Ending, goes_on, returns, Offer, Reply, read_inputs,
  read_into, packet_header, remember, forget, send_bytes, send_read, send_data, receive_bytes,
  receive_data, unless_negative, sending_round, sending_loop,
}

-- A function has ended without a `return`, or has returned EXIT_FAILURE and changed nothing.
abbrev IsIdle : Globals → Option (Value × Globals) → Type 0
IsIdle g none = Unit {0}
IsIdle g (some (indeterminate, g1)) = Unit {0}
IsIdle g (some (returned status, g1)) = (status ≡ pos 1) × (g1 ≡ g)

if-IsIdle :
    (g : Globals) (b : Bool) (x y : Option (Value × Globals))
    → IsIdle g x
    → IsIdle g y
    → IsIdle g (if b then x else y)
if-IsIdle g true x y h k = h
if-IsIdle g false x y h k = k

bind-IsIdle :
    {A : Type 0} (g : Globals) (x : Option A) (f : A → Option (Value × Globals))
    → ((a : A) → IsIdle g (f a))
    → IsIdle g (x >>= f)
bind-IsIdle g none f h = tt
bind-IsIdle g (some a) f h = h a

remember-IsIdle :
    (assigned : ℕ) (memory : Bool) (p : Pkt) (g g0 : Globals)
    → IsIdle g0 (remember assigned memory p g)
unfolding remember
remember-IsIdle assigned memory p g g0 =
    elim (Bool-cases (ltb (assigned % 256 % 255) (length g.pkt_sent) && memory)) [
      | inl there ↦ rw there tt
      | inr missing ↦ rw missing tt
    ]

module _ (z : Zlib) where
  send_bytes-IsIdle :
      (data_len : ℕ) (buffer : List ℕ) (o : Offer) (g : Globals)
      → IsIdle g (send_bytes z data_len buffer o g)
  unfolding send_bytes
  send_bytes-IsIdle data_len buffer o g =
      if-IsIdle g (not o.packet_memory) _ _ (refl, refl)
        (bind-IsIdle g
          (pkt_set_payload o.payload_memory (packet_header g.sender_window) buffer data_len) _
          (λ p.
            bind-IsIdle g
              (pkt_encode z (pkt_set_seqnum p.1 g.seqnum_sent).1 o.buf_pkt draft_packet_size) _
              (λ e. bind-IsIdle g (load e.1 0 e.2) _ (λ datagram.
                if-IsIdle g o.writes _ _
                  (remember-IsIdle o.assigned o.history_memory (pkt_set_seqnum p.1 g.seqnum_sent).1
                    (record g { sent = g.sent ++ (datagram ∷ []) }) g)
                  (refl, refl)))))

  send_read-IsIdle :
      (input : Option ℕ × List ℕ) (o : Offer) (g : Globals) → IsIdle g (send_read z input o g)
  unfolding send_read
  send_read-IsIdle (none, buffer) o g = tt
  send_read-IsIdle (some data_len, buffer) o g =
      if-IsIdle g (data_len == 0) _ _ (refl, refl) (send_bytes-IsIdle data_len buffer o g)

  send_data-IsIdle : (file_d : ℤ) (o : Offer) (g : Globals) → IsIdle g (send_data z file_d o g)
  unfolding send_data
  send_data-IsIdle file_d o g =
      if-IsIdle g (is_negative file_d) _ _ tt
        (if-IsIdle g (not o.selects) _ _ (refl, refl) (send_read-IsIdle (read_inputs file_d o) o g))

  receive_bytes-IsIdle :
      (data_len : ℕ) (buffer : List ℕ) (r : Reply) (g : Globals)
      → IsIdle g (receive_bytes z data_len buffer r g)
  unfolding receive_bytes
  receive_bytes-IsIdle data_len buffer r g =
      if-IsIdle g (not r.packet_memory) _ _ (refl, refl)
        (bind-IsIdle g (pkt_decode z r.alloc buffer data_len pkt_new) _ (λ d.
          bind-IsIdle g (if pkt_get_type d.1 == ptype_ack then forget d.1 g else some g) _
            (λ g1. tt)))

  receive_data-IsIdle : (r : Reply) (g : Globals) → IsIdle g (receive_data z r g)
  unfolding receive_data
  receive_data-IsIdle r g =
      let (data_len, buffer) = read_into draft_packet_size r.socket_read r.buffer in
      if-IsIdle g (not r.selects) _ _ (refl, refl)
        (if-IsIdle g (not r.socket_set) _ _ tt
          (if-IsIdle g (data_len == 0) _ _ (refl, refl) (receive_bytes-IsIdle data_len buffer r g)))

  -- A part of a round that ends without undefined behaviour ends with the next round, with the same
  -- globals.
  abbrev Stays : Globals → Option Ending → Type 0
  Stays g none = Unit {0}
  Stays g (some (goes_on g1)) = g1 ≡ g
  Stays g (some (returns status g1)) = ⊥

  unless_negative-Stays :
      (g : Globals) (x : Option (Value × Globals)) (f : Globals → Option Ending)
      → IsIdle g x
      → Stays g (f g)
      → Stays g (x >>= λ y. unless_negative y f)
  unless_negative-Stays g none f h k = tt
  unless_negative-Stays g (some (indeterminate, g1)) f h k = tt
  unless_negative-Stays g (some (returned status, g1)) f (one, same) k = rw (one, same) k

  sending_round-Stays :
      (file_d : ℤ) (o : Offer) (r : Reply) (g : Globals) → Stays g (sending_round z file_d (o, r) g)
  unfolding sending_round
  sending_round-Stays file_d o r g =
      let receiving : Globals → Option Ending =
        λ g1. receive_data z r g1 >>= λ y. unless_negative y (λ g2. some (goes_on g2)) in
      let received : Stays g (receiving g) =
        unless_negative-Stays g (receive_data z r g) (λ g2. some (goes_on g2))
          (receive_data-IsIdle r g) refl in
      elim (Bool-cases (ltb 0 g.receiver_window && ltb 0 g.sender_window)) [
        | inl open_windows ↦ rw open_windows (
            unless_negative-Stays g (send_data z file_d o g) receiving (send_data-IsIdle file_d o g)
              received)
        | inr closed ↦ rw closed received
      ]

  Stays-goes_on :
      (g : Globals) (x : Option Ending) (e : Ending) → Stays g x → x ≡ some e → e ≡ goes_on g
  Stays-goes_on g none e h same = absurd (cc)
  Stays-goes_on g (some (returns status g1)) e h same = absurd h
  Stays-goes_on g (some (goes_on g1)) e h same =
      sym (some-injective (goes_on g1) e same) ∙ ap goes_on h

  -- However many rounds there are and whatever the calls answer: as long as its behaviour is defined, the
  -- sender of the earlier version has sent and received nothing, and its loop goes on. A function that
  -- did something ends without a `return`, and the status of a failure is not negative.
  pub sending_loop_idle :
      (file_d : ℤ) (rounds : List (Offer × Reply)) (g : Globals) (e : Ending)
      → sending_loop z file_d rounds g ≡ some e
      → e ≡ goes_on g
  unfolding sending_loop
  sending_loop_idle file_d [] g e same = sym (some-injective (goes_on g) e same)
  sending_loop_idle file_d ((o, r) ∷ rounds) g e same =
      elim (Option-cases (sending_round z file_d (o, r) g)) [
        | inl undefined ↦ absurd (cc (rw (undefined, sending_loop) at same))
        | inr (step, done) ↦
            let next : step ≡ goes_on g =
              Stays-goes_on g (sending_round z file_d (o, r) g) step
                (sending_round-Stays file_d o r g) done in
            sending_loop_idle file_d rounds g e (rw (done ∙ ap some next, sending_loop) at same)
      ]
