-- ===== src/Slots.antt =====
-- src/froth_slot_table.c and src/froth_slot_table.h: the table of named slots. `table_size` is the
-- build's FROTH_SLOT_TABLE_SIZE, `heap_size` its FROTH_HEAP_SIZE.
-- A slot's name is a pointer into the heap, here a byte offset, so what it reads depends on the
-- heap. A `const char *` argument with a length is a list of bytes; the calls that take strlen of
-- their argument are the calls on that list. `froth_native_word_t` is a handle.
pub mod Fields
pub mod Names
pub mod Reset
pub mod Valid
pub mod Create
use froth.Base.{
  ℕ, zero, suc, ◌+◌, ◌%◌, ◌^◌, ◌≤◌, ◌<◌, ◌≡◌, Bool, true, false, not, ◌&&◌, ◌||◌, Option, none,
  some, List, [], ◌∷◌, ◌++◌, ltb, leb, ◌==◌, if◌then◌else◌, length, get_or, set, drop, take,
  replicate, write_at,
}
use froth.Base.Int.{ℤ, pos}
use froth.Status.{Exec, Result, ok, err, undefined_word, slot_table_full, bounds}
use froth.Heap.{Heap, allocate_bytes}

pub record Slot : Type 0 where
  pub name : Option ℕ
  pub impl : ℤ
  pub prim : Option ℕ
  pub overlay : ℕ
  pub impl_bound : Bool
  pub in_arity : ℕ
  pub out_arity : ℕ

pub record Slots : Type 0 where
  pub table : List Slot
  pub slot_pointer : ℕ
  pub high_water : ℕ

-- The heap that holds the names, and the table.
pub record Store : Type 0 where
  pub heap : Heap
  pub slots : Slots

-- FROTH_SLOT_ARITY_UNKNOWN
abbrev pub arity_unknown : ℕ
arity_unknown = 0xff

-- An entry of the table after memset.
abbrev pub blank : Slot
blank = record {
  name = none;
  impl = pos 0;
  prim = none;
  overlay = 0;
  impl_bound = false;
  in_arity = 0;
  out_arity = 0;
}

abbrev pub slot_at : Slots → ℕ → Slot
slot_at t i = get_or t.table i blank

abbrev pub is_named : Slot → Bool
is_named s = elim s.name [ none ↦ false | some p ↦ true ]

-- index_has_slot_assigned
abbrev pub has_slot_assigned : Slots → ℕ → Bool
has_slot_assigned t i = ltb i t.slot_pointer && is_named (slot_at t i)

-- The C string that starts a run of bytes.
abbrev pub c_string : List ℕ → List ℕ
c_string [] = []
c_string (zero ∷ bs) = []
c_string (suc c ∷ bs) = suc c ∷ c_string bs

-- `memcmp(a, b, length of b) == 0`
abbrev pub starts_with_bytes : List ℕ → List ℕ → Bool
starts_with_bytes xs [] = true
starts_with_bytes [] (b ∷ bs) = false
starts_with_bytes (a ∷ xs) (b ∷ bs) = a == b && starts_with_bytes xs bs

-- froth_slot_name_matches, of the bytes at the slot's name.
unfoldable pub slot_name_matches : List ℕ → List ℕ → Bool
slot_name_matches at_name name =
    length (c_string at_name) == length name && starts_with_bytes at_name name

abbrev pub matches : Heap → Slot → List ℕ → Bool
matches h s name = elim s.name [ none ↦ false | some p ↦ slot_name_matches (drop p h.bytes) name ]

-- The loop of froth_slot_find_name_n at index `ip`, over the entries from there on.
unfoldable pub find_from : Heap → List ℕ → ℕ → List Slot → Result ℕ
find_from h name ip [] = err undefined_word
find_from h name ip (s ∷ rest) = if matches h s name then ok ip else find_from h name (ip + 1) rest

-- froth_slot_find_name_n, froth_slot_find_name
unfoldable pub find_name : List ℕ → Store → Result ℕ
find_name name w = find_from w.heap name 0 (take w.slots.slot_pointer w.slots.table)

abbrev fresh : ℕ → Slot
fresh place = record blank {
  name = some place;
  in_arity = arity_unknown;
  out_arity = arity_unknown;
}

module _ (heap_size table_size : ℕ) where
  -- The part of froth_slot_create_n behind the allocation of the name.
  add_slot : List ℕ → Result ℕ → Heap → Slots → Result ℕ × Store
  add_slot name (err e) h t = (err e, record { heap = h; slots = t })
  add_slot name (ok place) h t = (
    ok t.slot_pointer,
    record {
      heap = record h { bytes = write_at place (name ++ 0 ∷ []) h.bytes };
      slots = record {
        table = set t.table t.slot_pointer (fresh place);
        slot_pointer = t.slot_pointer + 1;
        high_water =
            if ltb t.high_water (t.slot_pointer + 1) then t.slot_pointer + 1 else t.high_water;
      };
    },
  )

  -- froth_slot_create_n, froth_slot_create
  pub create : List ℕ → Exec Store ℕ
  unfolding add_slot
  create name w =
      let allocated = allocate_bytes heap_size ((length name + 1) % 2 ^ 32) w.heap in
      if leb table_size w.slots.slot_pointer
      then (err slot_table_full, w)
      else add_slot name allocated.0 allocated.1 w.slots

  unfoldable pub found_or_create : List ℕ → Result ℕ → Exec Store ℕ
  found_or_create name (ok i) w = (ok i, w)
  found_or_create name (err e) w = create name w

  -- froth_slot_find_name_or_create_n, froth_slot_find_name_or_create
  unfoldable pub find_name_or_create : List ℕ → Exec Store ℕ
  unfolding found_or_create
  find_name_or_create name w = found_or_create name (find_name name w) w

-- A getter: an error where no slot is assigned at the index.
abbrev at_slot : {A : Type 0} → Slots → ℕ → (Slot → Result A) → Result A
at_slot t i f = if has_slot_assigned t i then f (slot_at t i) else err undefined_word

-- A setter: the same error, or the entry replaced.
abbrev update_slot : ℕ → (Slot → Slot) → Exec Slots (Unit {0})
update_slot i f t =
    if has_slot_assigned t i
    then (ok tt, record t { table = set t.table i (f (slot_at t i)) })
    else (err undefined_word, t)

-- froth_slot_get_impl
unfoldable pub get_impl : Slots → ℕ → Result ℤ
get_impl t i = at_slot t i λ s. if s.impl_bound then ok s.impl else err undefined_word

-- froth_slot_get_prim
pub get_prim : Slots → ℕ → Result ℕ
get_prim t i = at_slot t i λ s. elim s.prim [ none ↦ err undefined_word | some p ↦ ok p ]

-- froth_slot_set_impl
unfoldable pub set_impl : ℕ → ℤ → Exec Slots (Unit {0})
set_impl i z = update_slot i λ s. record s { impl = z; impl_bound = true }

-- froth_slot_set_prim
pub set_prim : ℕ → Option ℕ → Exec Slots (Unit {0})
set_prim i p = update_slot i λ s. record s { prim = p }

-- froth_slot_clear_binding
unfoldable pub clear_binding : ℕ → Exec Slots (Unit {0})
clear_binding i = update_slot i λ s. record s {
  impl = pos 0;
  prim = none;
  impl_bound = false;
  in_arity = arity_unknown;
  out_arity = arity_unknown;
}

-- froth_slot_get_name: the name's place in the heap.
pub get_name : Slots → ℕ → Result ℕ
get_name t i = at_slot t i λ s. elim s.name [ none ↦ err undefined_word | some p ↦ ok p ]

-- froth_slot_set_overlay
unfoldable pub set_overlay : ℕ → ℕ → Exec Slots (Unit {0})
set_overlay i flag = update_slot i λ s. record s { overlay = flag }

-- froth_slot_get_arity
pub get_arity : Slots → ℕ → Result (ℕ × ℕ)
get_arity t i = at_slot t i λ s. ok (s.in_arity, s.out_arity)

-- froth_slot_set_arity
unfoldable pub set_arity : ℕ → ℕ → ℕ → Exec Slots (Unit {0})
set_arity i in_n out_n t =
    if has_slot_assigned t i && (in_n == arity_unknown || out_n == arity_unknown)
    then (err bounds, t)
    else update_slot i (λ s. record s { in_arity = in_n; out_arity = out_n }) t

-- froth_slot_clear_arity
pub clear_arity : ℕ → Exec Slots (Unit {0})
clear_arity i = update_slot i λ s. record s { in_arity = arity_unknown; out_arity = arity_unknown }

-- froth_slot_is_overlay
unfoldable pub is_overlay : Slots → ℕ → Bool
is_overlay t i = has_slot_assigned t i && not ((slot_at t i).overlay == 0)

-- froth_slot_debug_reset_high_water
pub reset_high_water : Slots → Slots
reset_high_water t = record t { high_water = t.slot_pointer }

-- What froth_slot_reset_overlay leaves of an overlay slot.
abbrev cleared : Slot
cleared = record blank { in_arity = arity_unknown; out_arity = arity_unknown }

abbrev overlaid : Slot → Bool
overlaid s = not (s.overlay == 0)

-- The loop of froth_slot_reset_overlay at index `i` with `left` rounds to go.
reset_from : ℕ → ℕ → ℕ → List Slot → List Slot × ℕ
reset_from zero i new_pointer ss = (ss, new_pointer)
reset_from (suc left) i new_pointer [] = ([], new_pointer)
reset_from (suc left) i new_pointer (s ∷ ss) =
    let kept = if overlaid s then new_pointer else if is_named s then i + 1 else new_pointer in
    let (rest, last) = reset_from left (i + 1) kept ss in
    ((if overlaid s then cleared else s) ∷ rest, last)

-- froth_slot_reset_overlay
unfoldable pub reset_overlay : Slots → Slots
unfolding reset_from
reset_overlay t =
    let (table, new_pointer) = reset_from t.slot_pointer 0 0 t.table in
    record t { table = table; slot_pointer = new_pointer }

-- froth_slot_reset_all
pub reset_all : Slots → Slots
reset_all t = record { table = replicate (length t.table) blank; slot_pointer = 0; high_water = 0 }
