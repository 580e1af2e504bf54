-- ===== src/Tests/Slots.antt =====
-- The slot table of src/froth_slot_table.c, at concrete states.
use froth.Base.{
  ℕ, ◌≤◌, ◌≡◌, refl, true, false, not, if◌then◌else◌, none, some, List, [], ◌∷◌, arith, replicate,
}
use froth.Base.Int.{pos}
use froth.Status.{ok, err, undefined_word}
use froth.Slots.{
  Slots, Slot, Store, blank, arity_unknown, has_slot_assigned, get_impl, is_overlay, reset_overlay,
  find_name, create, find_name_or_create, find_from, slot_name_matches, found_or_create,
}
use froth.Slots.Reset.{reset_overlay_lem}
use froth.Slots.Valid.{IsValid, create_lem, created}
use froth.Slots.Names.{same_bytes}
use froth.Slots.Create.{or_else, find_name-create, create-IsValid, find_name_or_create_twice}

-- The slots "a" and "b" of a table of three, the second an overlay slot.
abbrev slot_a : Slot
slot_a = record {
  name = some 0;
  impl = pos 4;
  prim = none;
  overlay = 0;
  impl_bound = true;
  in_arity = 1;
  out_arity = 1;
}

abbrev slot_b : Slot
slot_b = record {
  name = some 2;
  impl = pos 8;
  prim = none;
  overlay = 1;
  impl_bound = true;
  in_arity = arity_unknown;
  out_arity = arity_unknown;
}

abbrev slots2 : Slots
slots2 = record { table = slot_a ∷ slot_b ∷ blank ∷ []; slot_pointer = 2; high_water = 2 }

abbrev store2 : Store
store2 = record {
  heap = record { bytes = b'a' ∷ 0 ∷ b'b' ∷ 0 ∷ replicate 8 0; pointer = 4; high_water = 4 };
  slots = slots2;
}

store2-IsValid : IsValid 12 3 store2
store2-IsValid = record {
  heap_valid = record { backed = refl; within = omega arith; marked = omega arith };
  sized = refl;
  within = omega arith;
  terminated = omega arith;
}

abbrev name_c : List ℕ
name_c = b'c' ∷ []

find_b : find_name (b'b' ∷ []) store2 ≡ ok 1
unfolding find_name find_from slot_name_matches
find_b = refl

find_no_c : find_name name_c store2 ≡ err undefined_word
unfolding find_name find_from slot_name_matches
find_no_c = refl

reset_overlay_lem_example :
    (has_slot_assigned (reset_overlay slots2) 1 ≡ not (is_overlay slots2 1))
    × (is_overlay (reset_overlay slots2) 1 ≡ false)
    × (get_impl (reset_overlay slots2) 1
        ≡ (if is_overlay slots2 1 then err undefined_word else get_impl slots2 1))
    × ((reset_overlay slots2).slot_pointer ≤ 2)
reset_overlay_lem_example = reset_overlay_lem slots2 1 (omega arith)

created_c : create 12 3 name_c store2 ≡ (ok 2, created name_c store2)
created_c = create_lem 12 3 (omega arith) name_c store2 store2-IsValid (omega arith)

find_name-create_example :
    find_name name_c (created name_c store2)
    ≡ or_else
        (find_name name_c store2)
        (if same_bytes name_c name_c then ok 2 else err undefined_word)
find_name-create_example =
    find_name-create 12 3 (omega arith) name_c store2 store2-IsValid (omega arith) refl 2
      (created name_c store2) created_c name_c

create-IsValid_example : IsValid 12 3 (create 12 3 name_c store2).1
create-IsValid_example =
    create-IsValid 12 3 (omega arith) name_c store2 store2-IsValid (omega arith) refl

found_again : find_name_or_create 12 3 (b'b' ∷ []) store2 ≡ (ok 1, store2)
unfolding find_name_or_create found_or_create find_name find_from slot_name_matches
found_again = refl

find_name_or_create_twice_example :
    (find_name (b'b' ∷ []) store2 ≡ ok 1)
    × (find_name_or_create 12 3 (b'b' ∷ []) store2 ≡ (ok 1, store2))
find_name_or_create_twice_example =
    find_name_or_create_twice 12 3 (omega arith) (b'b' ∷ []) store2 store2-IsValid (omega arith)
      refl 1 store2 found_again
