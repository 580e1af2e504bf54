-- ===== src/Slots/Valid.antt =====
-- The invariant of the slot table and its heap, and what froth_slot_create_n adds.
use native.Mathlib.Nat.{zero-add}
use froth.Base.{
  ℕ, zero, suc, ◌+◌, ◌-◌, ◌%◌, ◌^◌, ◌≤◌, ◌<◌, ◌≡◌, refl, ap, ap₂, ◌∙◌, true, Option, none, some,
  List, [], ◌∷◌, ◌++◌, arith, ltb, leb, if◌then◌else◌, length, set, drop, take, write_at,
  length-write_at, length-drop, length-set,
}
use froth.Status.{ok, err, slot_table_full, heap_out_of_memory}
use froth.Heap
use froth.Heap.{Heap, allocate_bytes}
use froth.Heap.Bounds.{allocate_bytes_lem, moved}
use froth.Slots.{Slot, Store, c_string, create, fresh}
use froth.Slots.Names.{
  no_nul, c_string-write, drop-write, c_string-written, read_name, names_of, names,
}

-- A slot's name ends, with its NUL, below the heap pointer.
abbrev pub Terminated : Heap → Option ℕ → Type 0
Terminated h none = Unit
Terminated h (some p) = p + length (c_string (drop p h.bytes)) < h.pointer

abbrev pub AllTerminated : Heap → List Slot → Type 0
AllTerminated h [] = Unit
AllTerminated h (s ∷ ss) = Terminated h s.name × AllTerminated h ss

pub record IsValid (heap_size table_size : ℕ) (w : Store) : Type 0 where
  pub heap_valid : Heap.IsValid heap_size w.heap
  pub sized : length w.slots.table ≡ table_size
  pub within : w.slots.slot_pointer ≤ table_size
  pub terminated : AllTerminated w.heap (take w.slots.slot_pointer w.slots.table)

take-set_end :
    (n : ℕ) (xs : List Slot) (v : Slot)
    → n < length xs
    → take (n + 1) (set xs n v) ≡ take n xs ++ v ∷ []
take-set_end n xs v h = rw (add-one n) (go n xs h)
  where
    add-one : (n : ℕ) → n + 1 ≡ suc n
    add-one n = omega arith

    go : (n : ℕ) (xs : List Slot) → n < length xs → take (suc n) (set xs n v) ≡ take n xs ++ v ∷ []
    go n [] h = elim h [ ]
    go zero (x ∷ xs) h = refl
    go (suc n) (x ∷ xs) h = ap (λ (t : List Slot). x ∷ t) (go n xs (omega arith))

names_of-append :
    (h : Heap) (xs ys : List Slot) → names_of h (xs ++ ys) ≡ names_of h xs ++ names_of h ys
names_of-append h [] ys = refl
names_of-append h (x ∷ xs) ys =
    ap (λ (t : List (Option (List ℕ))). read_name h x.name ∷ t) (names_of-append h xs ys)

module _ (h : Heap) (src : List ℕ) (end : ℕ) (later : h.pointer ≤ end) where
  abbrev after_write : Heap
  after_write = record (moved h end) { bytes = write_at h.pointer src h.bytes }

  string_kept :
      (p : ℕ)
      → p + length (c_string (drop p h.bytes)) < h.pointer
      → c_string (drop p (write_at h.pointer src h.bytes)) ≡ c_string (drop p h.bytes)
  string_kept p t =
      ap c_string (drop-write p h.pointer (h.pointer - p) src h.bytes (omega arith))
      ∙ c_string-write (h.pointer - p) src (drop p h.bytes) (omega arith)

  -- A write at the heap pointer changes no name of a terminated slot.
  names_kept : (ss : List Slot) → AllTerminated h ss → names_of after_write ss ≡ names_of h ss
  names_kept [] t = refl
  names_kept (s ∷ ss) t = ap₂ ◌∷◌ (one s.name t.0) (names_kept ss t.1)
    where
      one : (n : Option ℕ) → Terminated h n → read_name after_write n ≡ read_name h n
      one none t = refl
      one (some p) t = ap some (string_kept p t)

  terminated_kept : (ss : List Slot) → AllTerminated h ss → AllTerminated after_write ss
  terminated_kept [] t = t
  terminated_kept (s ∷ ss) t = (one s.name t.0, terminated_kept ss t.1)
    where
      one : (n : Option ℕ) → Terminated h n → Terminated after_write n
      one none t = t
      one (some p) t = rw (string_kept p t) (omega arith)

AllTerminated-append :
    (h : Heap) (xs ys : List Slot)
    → AllTerminated h xs
    → AllTerminated h ys
    → AllTerminated h (xs ++ ys)
AllTerminated-append h [] ys t u = u
AllTerminated-append h (x ∷ xs) ys t u = (t.0, AllTerminated-append h xs ys t.1 u)

-- The store after a slot of this name was created.
abbrev pub created : List ℕ → Store → Store
created name w = record {
  heap = record (moved w.heap (w.heap.pointer + (length name + 1))) {
    bytes = write_at w.heap.pointer (name ++ 0 ∷ []) w.heap.bytes;
  };
  slots = record {
    table = set w.slots.table w.slots.slot_pointer (fresh w.heap.pointer);
    slot_pointer = w.slots.slot_pointer + 1;
    high_water =
        if ltb w.slots.high_water (w.slots.slot_pointer + 1)
        then w.slots.slot_pointer + 1
        else w.slots.high_water;
  };
}

module _ (heap_size table_size : ℕ) (small : heap_size + 3 < 2 ^ 32) (name : List ℕ) (w : Store)
    (v : IsValid heap_size table_size w) (fits : length name + 1 < 2 ^ 32) where
  -- `create` fails with the table full, or else with the heap full, and then changes nothing; with
  -- room in both it adds the slot and returns its index.
  pub create_lem : create heap_size table_size name w ≡ (
      if leb table_size w.slots.slot_pointer
      then (err slot_table_full, w)
      else if leb (w.heap.pointer + (length name + 1)) heap_size
      then (ok w.slots.slot_pointer, created name w)
      else (err heap_out_of_memory, w))
  unfolding create
  create_lem =
      ground
        (arith, allocate_bytes_lem heap_size small ((length name + 1) % 2 ^ 32) w.heap v.heap_valid)

  module _ (clean : no_nul name ≡ true) (room : w.slots.slot_pointer < table_size)
      (space : w.heap.pointer + (length name + 1) ≤ heap_size) where
    written_name : c_string (drop w.heap.pointer (created name w).heap.bytes) ≡ name
    written_name =
        ap c_string
          (drop-write w.heap.pointer w.heap.pointer 0 (name ++ 0 ∷ []) w.heap.bytes (zero-add _))
        ∙ c_string-written name (drop w.heap.pointer w.heap.bytes) clean
            (omega (arith, length-drop w.heap.pointer w.heap.bytes, v.heap_valid.backed))

    new_table :
        take (w.slots.slot_pointer + 1) (created name w).slots.table
        ≡ take w.slots.slot_pointer w.slots.table ++ fresh w.heap.pointer ∷ []
    new_table =
        take-set_end w.slots.slot_pointer w.slots.table (fresh w.heap.pointer)
          (omega (arith, v.sized))

    pub names-created : names (created name w) ≡ names w ++ some name ∷ []
    names-created =
        ap (names_of (created name w).heap) new_table
        ∙ names_of-append (created name w).heap (take w.slots.slot_pointer w.slots.table)
            (fresh w.heap.pointer ∷ [])
        ∙ ap₂ ◌++◌
            (names_kept w.heap (name ++ 0 ∷ []) (w.heap.pointer + (length name + 1)) (omega arith)
              (take w.slots.slot_pointer w.slots.table) v.terminated)
            (ap (λ (n : List ℕ). some n ∷ []) written_name)

    pub created-IsValid : IsValid heap_size table_size (created name w)
    created-IsValid = record {
      heap_valid = record {
        backed = length-write_at w.heap.pointer (name ++ 0 ∷ []) w.heap.bytes ∙ v.heap_valid.backed;
        within = ground (arith, v.heap_valid.within);
        marked = ground (arith, v.heap_valid.marked);
      };
      sized = length-set w.slots.table w.slots.slot_pointer (fresh w.heap.pointer) ∙ v.sized;
      within = omega arith;
      terminated = rw new_table (
          AllTerminated-append (created name w).heap (take w.slots.slot_pointer w.slots.table)
            (fresh w.heap.pointer ∷ [])
            (terminated_kept w.heap (name ++ 0 ∷ []) (w.heap.pointer + (length name + 1))
              (omega arith) (take w.slots.slot_pointer w.slots.table) v.terminated)
            (rw written_name (omega arith), tt));
    }
