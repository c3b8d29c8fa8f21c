-- ===== src/Draft/Receiver/Waiting.antt =====
-- What the receiver of the earlier version, src/transport_interface.c, waits for.
use lingi1341_projet.Prelude.{
  ℕ, ◌≡◌, refl, sym, subst, ◌∙◌, ◌⊎◌, inl, inr, Bool, true, false, ◌&&◌, none, some, List, [], ◌∷◌,
  ◌>>=◌, length, take, replicate, leb, ◌==◌, if◌then◌else◌, Bool-cases, Option-cases,
}
use lingi1341_projet.Prelude.Memory.{store}
use mathlib.Core.Option.{some-injective}
use lingi1341_projet.Platform.{Zlib, Alloc}
use lingi1341_projet.Packet.{Pkt}
use lingi1341_projet.Receiver.{is_ok, write_out}
use lingi1341_projet.Draft.Packet.{pkt_new}
use lingi1341_projet.Draft.Packet.Codec.{pkt_decode}
use lingi1341_projet.Draft.Seqnum.{inc_seqnum}
use lingi1341_projet.Draft.Receiver.{
  Reception, at_start, Input, quiet, nothing, datagram, Next, again, leave, scan, take_data,
  receive, reception_step, reception_loop,
}

abbrev pub reception : Next → Reception
reception (again r) = r
reception (leave r) = r

-- No slot is taken, and packet 0 is expected.
pub record IsWaiting (r : Reception) : Type 0 where
  pub free_slot : r.slots ≡ none ∷ []
  pub first_number : r.seqnum ≡ 0

pub at_start-IsWaiting : IsWaiting at_start
unfolding at_start
at_start-IsWaiting = record { free_slot = refl; first_number = refl }

-- With its number never incremented, the receiver goes on to wait for packet 0.
taken :
    (r : Reception) (out : List ℕ)
    → IsWaiting r
    → IsWaiting (record r { output = out; seqnum = inc_seqnum r.seqnum })
unfolding inc_seqnum
taken r out w = record { free_slot = w.free_slot; first_number = rw w.first_number refl }

take_data-cases :
    (done : Bool) (packet : Pkt) (r : Reception)
    → IsWaiting r
    → (take_data done packet r ≡ some r)
      ⊎ (take_data done packet r ≡ none)
      ⊎ ((out : List ℕ) × (take_data done packet r
            ≡ some (record r { output = out; seqnum = inc_seqnum r.seqnum })))
unfolding take_data scan
take_data-cases done packet r w = elim (Bool-cases (packet.seqnum == r.seqnum)) [
  | inr other ↦ inl (rw other refl)
  | inl same ↦ elim (Option-cases (write_out done packet.payload packet.length r.output)) [
    | inl undefined ↦ inr (inl (rw (same, undefined) refl))
    | inr ((_, out), e) ↦ inr (inr (out, rw (same, e, w.free_slot) refl))
  ]
]

take_data-IsWaiting :
    (done : Bool) (packet : Pkt) (r r' : Reception)
    → IsWaiting r
    → take_data done packet r ≡ some r'
    → IsWaiting r'
take_data-IsWaiting done packet r r' w e = elim (take_data-cases done packet r w) [
  | inl same ↦ subst IsWaiting (some-injective r r' (sym same ∙ e)) w
  | inr (inl undefined) ↦ absurd (cc)
  | inr (inr (out, same)) ↦
      subst IsWaiting
        (some-injective (record r { output = out; seqnum = inc_seqnum r.seqnum }) r' (sym same ∙ e))
        (taken r out w)
]

module _ (z : Zlib) where
  finish_receive :
      (good done : Bool) (packet : Pkt) (r : Reception) (o : Next)
      → IsWaiting r
      → (if good then (take_data done packet r >>= λ r2. some (again r2)) else some (again r))
        ≡ some o
      → IsWaiting (reception o)
  finish_receive false done packet r o w e =
      subst (λ (t : Next). IsWaiting (reception t)) (some-injective (again r) o e) w
  finish_receive true done packet r o w e = elim (Option-cases (take_data done packet r)) [
    | inl undefined ↦ absurd (cc (rw undefined at e))
    | inr (r2, same) ↦
        subst (λ (t : Next). IsWaiting (reception t)) (some-injective (again r2) o (rw same at e))
          (take_data-IsWaiting done packet r r2 w same)
  ]

  receive-IsWaiting :
      (bytes : List ℕ) (alloc : Alloc) (done : Bool) (r : Reception) (o : Next)
      → IsWaiting r
      → receive z bytes alloc done r ≡ some o
      → IsWaiting (reception o)
  unfolding receive
  receive-IsWaiting bytes alloc done r o w e = elim (Option-cases (store r.buffer 0 bytes)) [
    | inl n ↦ absurd (cc (rw (n, receive) at e))
    | inr (buf1, e1) ↦ elim (Option-cases (pkt_decode z alloc buf1 (length bytes) pkt_new)) [
      | inl n ↦ absurd (cc (rw (e1, n, receive) at e))
      | inr ((code, packet), e2) ↦ elim (Option-cases (store buf1 0 (replicate 640 0))) [
        | inl n ↦ absurd (cc (rw (e1, e2, n, receive) at e))
        | inr (buf2, e3) ↦
            finish_receive ((packet.type == 1) && is_ok code) done packet
              (record r { buffer = buf2 }) o
              (record { free_slot = w.free_slot; first_number = w.first_number })
              (rw (e1, e2, e3, receive) at e)
      ]
    ]
  ]

  reception_step-IsWaiting :
      (i : Input) (r : Reception) (o : Next)
      → IsWaiting r
      → reception_step z i r ≡ some o
      → IsWaiting (reception o)
  unfolding reception_step
  reception_step-IsWaiting quiet r o w e =
      subst (λ (t : Next). IsWaiting (reception t)) (some-injective (leave r) o e) w
  reception_step-IsWaiting nothing r o w e =
      subst (λ (t : Next). IsWaiting (reception t)) (some-injective (again r) o e) w
  reception_step-IsWaiting (datagram none alloc done) r o w e =
      subst (λ (t : Next). IsWaiting (reception t)) (some-injective (leave r) o e) w
  reception_step-IsWaiting (datagram (some bytes) alloc done) r o w e =
      elim (Bool-cases (leb (length (take 640 bytes)) 0)) [
        | inr some_bytes ↦
            receive-IsWaiting (take 640 bytes) alloc done r o w
              (rw (some_bytes, reception_step) at e)
        | inl no_bytes ↦ elim (Option-cases (store r.buffer 0 (take 640 bytes))) [
          | inl n ↦ absurd (cc (rw (no_bytes, n, reception_step) at e))
          | inr (buf, n) ↦
              subst (λ (t : Next). IsWaiting (reception t))
                (some-injective (leave (record r { buffer = buf })) o
                  (rw (no_bytes, n, reception_step) at e))
                (record { free_slot = w.free_slot; first_number = w.first_number })
        ]
      ]

  -- Whatever arrives, the receiver of the earlier version expects packet 0 for ever, and keeps no
  -- packet: every state that its loop reaches from such a state is one.
  pub reception_loop-IsWaiting :
      (inputs : List Input) (r : Reception) (o : Next)
      → IsWaiting r
      → reception_loop z inputs r ≡ some o
      → IsWaiting (reception o)
  unfolding reception_loop
  reception_loop-IsWaiting [] r o w e =
      subst (λ (t : Next). IsWaiting (reception t)) (some-injective (again r) o e) w
  reception_loop-IsWaiting (i ∷ inputs) r o w e = elim (Option-cases (reception_step z i r)) [
    | inl n ↦ absurd (cc (rw (n, reception_loop) at e))
    | inr (leave r1, n) ↦
        subst (λ (t : Next). IsWaiting (reception t))
          (some-injective (leave r1) o (rw (n, reception_loop) at e))
          (reception_step-IsWaiting i r (leave r1) w n)
    | inr (again r1, n) ↦
        reception_loop-IsWaiting inputs r1 o (reception_step-IsWaiting i r (again r1) w n)
          (rw (n, reception_loop) at e)
  ]
