-- ===== src/Slots/Fields.antt =====
-- Reading and writing the entries of the slot table.
use froth.Base.{
  ℕ, ◌≤◌, ◌<◌, ◌≡◌, true, false, not, ◌&&◌, ◌||◌, none, List, arith, ◌==◌, if◌then◌else◌, length,
  get_or, set, get_or-set_self, get_or-set_ne, inl, inr, Bool-cases,
}
use froth.Base.Int.{ℤ, pos}
use froth.Status.{ok, err, undefined_word, bounds, is_ok}
use froth.Slots.{
  Slot, Slots, blank, slot_at, has_slot_assigned, arity_unknown, get_impl, set_impl, clear_binding,
  get_arity, set_arity, is_overlay, update_slot,
}

abbrev pub InTable : Slots → Type 0
InTable t = t.slot_pointer ≤ length t.table

get_or-set_if :
    (xs : List Slot) (i j : ℕ) (v d : Slot)
    → i < length xs
    → get_or (set xs i v) j d ≡ (if i == j then v else get_or xs j d)
get_or-set_if xs i j v d h = elim (Bool-cases (i == j)) [
  | inl e ↦ rw (e, ← same i j e) (get_or-set_self xs i v d h)
  | inr e ↦ rw e (get_or-set_ne xs i j v d (ground arith))
]
  where
    same : (i j : ℕ) → (i == j) ≡ true → i ≡ j
    same i j e = ground arith

-- The entry at `j` after a write at an assigned index `i`.
pub slot_at-update :
    (i j : ℕ) (f : Slot → Slot) (t : Slots)
    → InTable t
    → slot_at (update_slot i f t).1 j
      ≡ (if has_slot_assigned t i && i == j then f (slot_at t i) else slot_at t j)
slot_at-update i j f t v = elim (Bool-cases (has_slot_assigned t i)) [
  | inl e ↦ rw e (get_or-set_if t.table i j (f (slot_at t i)) blank (ground arith))
  | inr e ↦ rw e
]

-- An entry written by `set_impl` is read back, by `get_impl` of that index only, and only if a slot
-- is assigned there; else the call fails and changes nothing.
pub get_impl-set_impl :
    (i j : ℕ) (z : ℤ) (t : Slots)
    → InTable t
    → (is_ok (set_impl i z t).0 ≡ has_slot_assigned t i)
      × (get_impl (set_impl i z t).1 j
          ≡ (if has_slot_assigned t i && i == j then ok z else get_impl t j))
unfolding get_impl set_impl
get_impl-set_impl i j z t v = (
  ground arith,
  ground (arith, slot_at-update i j (λ (s : Slot). record s { impl = z; impl_bound = true }) t v),
)

-- `set_arity` with two known arities is read back at its index only; with an unknown one it is
-- refused with a bounds error, at an unassigned index with an undefined word. A refused call
-- changes nothing.
pub get_arity-set_arity :
    (i j m n : ℕ) (t : Slots)
    → InTable t
    → let known = not (m == arity_unknown || n == arity_unknown) in
      ((set_arity i m n t).0 ≡ (
        if not (has_slot_assigned t i)
        then err undefined_word
        else if known
        then ok tt
        else err bounds))
      × (get_arity (set_arity i m n t).1 j
          ≡ (if (has_slot_assigned t i && known) && i == j then ok (m, n) else get_arity t j))
unfolding get_arity set_arity
get_arity-set_arity i j m n t v = (
  ground arith,
  ground (arith, slot_at-update i j (λ (s : Slot). record s { in_arity = m; out_arity = n }) t v),
)

-- `clear_binding` unbinds the slot at its index and forgets its arities; the overlay flag of every
-- slot, which indices are assigned and the values of all other slots stay.
pub clear_binding_lem :
    (i j : ℕ) (t : Slots)
    → InTable t
    → (get_impl (clear_binding i t).1 j
        ≡ (if has_slot_assigned t i && i == j then err undefined_word else get_impl t j))
      × (get_arity (clear_binding i t).1 j ≡ (
          if has_slot_assigned t i && i == j
          then ok (arity_unknown, arity_unknown)
          else get_arity t j))
      × (is_overlay (clear_binding i t).1 j ≡ is_overlay t j)
      × (has_slot_assigned (clear_binding i t).1 j ≡ has_slot_assigned t j)
unfolding get_impl get_arity clear_binding is_overlay
clear_binding_lem i j t v = (part, part', ground (arith, at_j), ground (arith, at_j))
  where
    f : Slot → Slot
    f s = record s {
      impl = pos 0;
      prim = none;
      impl_bound = false;
      in_arity = arity_unknown;
      out_arity = arity_unknown;
    }

    at_j :
        slot_at (update_slot i f t).1 j
        ≡ (if has_slot_assigned t i && i == j then f (slot_at t i) else slot_at t j)
    at_j = slot_at-update i j f t v

    part :
        get_impl (clear_binding i t).1 j
        ≡ (if has_slot_assigned t i && i == j then err undefined_word else get_impl t j)
    part = ground (arith, at_j)

    part' : get_arity (clear_binding i t).1 j ≡ (
        if has_slot_assigned t i && i == j
        then ok (arity_unknown, arity_unknown)
        else get_arity t j)
    part' = ground (arith, at_j)
