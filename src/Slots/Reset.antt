-- ===== src/Slots/Reset.antt =====
-- froth_slot_reset_overlay drops exactly the overlay slots.
use froth.Base.{
  ℕ, zero, suc, ◌+◌, ◌≤◌, ◌<◌, ◌≡◌, true, false, not, ◌&&◌, List, [], ◌∷◌, arith, ltb,
  if◌then◌else◌, length, get_or,
}
use froth.Status.{err, undefined_word}
use froth.Slots.{
  Slot, Slots, blank, cleared, overlaid, slot_at, has_slot_assigned, is_named, get_impl, is_overlay,
  reset_from, reset_overlay,
}
use froth.Slots.Fields.{InTable}

-- Below the rounds made, overlay entries are cleared and the others stay.
reset_from-entry :
    (left i p : ℕ) (ss : List Slot) (j : ℕ)
    → left ≤ length ss
    → get_or (reset_from left i p ss).0 j blank
      ≡ (if ltb j left && overlaid (get_or ss j blank) then cleared else get_or ss j blank)
unfolding reset_from
reset_from-entry zero i p ss j h = ground arith
reset_from-entry (suc left) i p [] j h = absurd (omega arith)
reset_from-entry (suc left) i p (s ∷ ss) zero h = ground arith
reset_from-entry (suc left) i p (s ∷ ss) (suc j) h = ground (
  arith,
  reset_from-entry left (i + 1) (if overlaid s then p else if is_named s then i + 1 else p) ss j
      (omega arith),
)

-- The new pointer lies above every entry that is kept, and no higher than the old one.
reset_from-pointer :
    (left i p : ℕ) (ss : List Slot) (j : ℕ)
    → left ≤ length ss
    → p ≤ i
    → (p ≤ (reset_from left i p ss).1)
      × ((reset_from left i p ss).1 ≤ i + left)
      × (j < left
          → is_named (get_or ss j blank) ≡ true
          → overlaid (get_or ss j blank) ≡ false
          → i + j < (reset_from left i p ss).1)
unfolding reset_from
reset_from-pointer zero i p ss j h k = (omega arith, omega arith, λ b. elim b [ ])
reset_from-pointer (suc left) i p [] j h k = absurd (omega arith)
reset_from-pointer (suc left) i p (s ∷ ss) zero h k =
    let p' : ℕ = if overlaid s then p else if is_named s then i + 1 else p in
    let ih = reset_from-pointer left (i + 1) p' ss 0 (omega arith) (ground arith) in
    (ground (arith, ih.0), ground (arith, ih.1), λ b n o. ground (arith, ih.0))
reset_from-pointer (suc left) i p (s ∷ ss) (suc j) h k =
    let p' : ℕ = if overlaid s then p else if is_named s then i + 1 else p in
    let ih = reset_from-pointer left (i + 1) p' ss j (omega arith) (ground arith) in
    (ground (arith, ih.0), ground (arith, ih.1), λ b n o. ground (arith, ih.2 (omega arith) n o))

module _ (t : Slots) (j : ℕ) (v : InTable t) where
  entry :
      slot_at (reset_overlay t) j
      ≡ (if ltb j t.slot_pointer && overlaid (slot_at t j) then cleared else slot_at t j)
  unfolding reset_overlay
  entry = reset_from-entry t.slot_pointer 0 0 t.table j v

  pointer :
      ((reset_overlay t).slot_pointer ≤ t.slot_pointer)
      × (j < t.slot_pointer
          → is_named (slot_at t j) ≡ true
          → overlaid (slot_at t j) ≡ false
          → j < (reset_overlay t).slot_pointer)
  unfolding reset_overlay
  pointer =
      let bounds = reset_from-pointer t.slot_pointer 0 0 t.table j v (omega arith) in
      (omega (arith, bounds.1), λ b n o. omega (arith, bounds.2 b n o))

  assigned : has_slot_assigned (reset_overlay t) j ≡ (has_slot_assigned t j && not (is_overlay t j))
  unfolding is_overlay
  assigned = ground (arith, entry, pointer.0, pointer.1)

  -- `reset_overlay` unassigns every slot that carries the overlay flag and no other; no overlay
  -- slot is left, the slots that stay keep their values, and the table does not grow.
  pub reset_overlay_lem :
      (has_slot_assigned (reset_overlay t) j ≡ (has_slot_assigned t j && not (is_overlay t j)))
      × (is_overlay (reset_overlay t) j ≡ false)
      × (get_impl (reset_overlay t) j
          ≡ (if is_overlay t j then err undefined_word else get_impl t j))
      × ((reset_overlay t).slot_pointer ≤ t.slot_pointer)
  unfolding is_overlay get_impl
  reset_overlay_lem =
      (assigned, ground (arith, entry, assigned), ground (arith, entry, assigned), pointer.0)
