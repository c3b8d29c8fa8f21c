-- ===== src/Receiver/Invariant.antt =====
-- The invariant of the receiver: the advertised window is the number of free slots.
use lingi1341_projet.Prelude.{
  ℕ, ◌+◌, ◌%◌, ◌<◌, ◌≤◌, ◌≡◌, refl, arith, sym, subst, ◌∙◌, inl, inr, Bool, true, false, Option,
  none, some, List, ◌++◌, length, set, get_or, All, length-replicate, length-set, Option-cases,
  if◌then◌else◌,
}
use lingi1341_projet.Prelude.Memory.{load_all}
use lingi1341_projet.Packet.{Pkt}
use lingi1341_projet.Packet.Wire.{Fits}
use lingi1341_projet.Seqnum.{inc_seqnum}
use lingi1341_projet.Receiver.{Receiver, initial, keep_packet, after_keep, write_out, deliver}
use lingi1341_projet.Packet.Slots.{
  occupied, Holds, free-occupied, set-All, get-Holds, occupied-replicate, replicate-Holds,
  occupied-le-length,
}
use lingi1341_projet.Receiver.Slots.{keep-occupied, keep-All}

-- The payload of a packet is as long as its length field says, or a null pointer.
abbrev pub IsStorable : Pkt → Type 0
IsStorable p = Fits p.length p.payload

pub record IsValid (r : Receiver) : Type 0 where
  pub slots_len : length r.slots ≡ 31
  pub free : r.window + occupied r.slots ≡ 31
  pub seqnum_byte : r.seqnum < 256
  pub buffer_len : length r.buffer ≡ 528
  pub cleared : (512 ≤ r.len) × (r.len ≤ 528)
  pub stored : All (Holds IsStorable) r.slots

-- The loop starts in a valid state.
pub initial-IsValid : IsValid initial
unfolding initial
initial-IsValid = record {
  slots_len = length-replicate 31 none;
  free = omega (arith, occupied-replicate 31);
  seqnum_byte = omega arith;
  buffer_len = length-replicate 528 0;
  cleared = omega arith;
  stored = replicate-Holds IsStorable 31;
}

pub after_keep-IsValid :
    (p : Pkt) (r : Receiver)
    → IsStorable p
    → IsValid r
    → IsValid (after_keep r (keep_packet p r.slots))
after_keep-IsValid p r s v = elim (Option-cases (keep_packet p r.slots)) [
  | inl e ↦ rw e v
  | inr (kept, e) ↦ rw e (
      let (o, l) = keep-occupied p r.slots kept e in
      record {
        slots_len = omega arith;
        free = omega (arith, occupied-le-length kept);
        seqnum_byte = v.seqnum_byte;
        buffer_len = v.buffer_len;
        cleared = v.cleared;
        stored = keep-All IsStorable p r.slots kept s v.stored e;
      })
]

-- A write of a payload that fits its length stays inside the payload.
pub write_out_inside :
    (done : Bool) (o : Option (List ℕ)) (n : ℕ) (out : List ℕ)
    → Fits n o
    → (w : Bool × List ℕ) × (write_out done o n out ≡ some w)
unfolding write_out
write_out_inside done none n out h = (_, refl)
write_out_inside done (some body) n out h =
    (if done then (true, out ++ body) else (false, out), rw (load_all body n (sym h)))

-- A delivery frees the slot and advances the window and the expected number.
pub deliver-IsValid :
    (done : Bool) (i : ℕ) (p : Pkt) (r : Receiver)
    → get_or r.slots i none ≡ some p
    → IsValid r
    → (r' : Receiver) × (deliver done i p r ≡ some r')
      × IsValid r'
      × (occupied r'.slots + 1 ≡ occupied r.slots)
unfolding deliver
deliver-IsValid done i p r e v =
    let (w, we) = write_out_inside done p.payload p.length r.output held in
    (
      record r {
        output = w.1;
        slots = set r.slots i none;
        window = (r.window + 1) % 256;
        seqnum = inc_seqnum r.seqnum;
      },
      rw we,
      record {
        slots_len = length-set r.slots i none ∙ v.slots_len;
        free = omega (arith, freed);
        seqnum_byte = omega arith;
        buffer_len = v.buffer_len;
        cleared = v.cleared;
        stored = set-All IsStorable r.slots i v.stored;
      },
      freed,
    )
  where
    held : IsStorable p
    held = subst (Holds IsStorable) e (get-Holds IsStorable r.slots i v.stored)

    freed : occupied (set r.slots i none) + 1 ≡ occupied r.slots
    freed = free-occupied r.slots i p e
