-- ===== src/Slots/Create.antt =====
-- What a search finds after froth_slot_create_n and froth_slot_find_name_or_create_n.
use froth.Base.{
  ℕ, suc, ◌+◌, ◌^◌, ◌≤◌, ◌<◌, ◌≡◌, refl, ap, ◌∙◌, true, false, Option, some, List, [], ◌∷◌, ◌++◌,
  arith, leb, leb→le, if◌then◌else◌, length, take, length-take, Bool-cases, inl, inr,
}
use native.Mathlib.Nat.{add-zero}
use froth.Status.{Result, ok, err, undefined_word}
use froth.Heap.{Heap}
use froth.Slots.{Slot, Store, find_name, create, found_or_create, find_name_or_create}
use froth.Slots.Names.{no_nul, names, names_of, index_of, is_name, find_name-eq, same_bytes}
use froth.Slots.Valid.{IsValid, created, create_lem, names-created, created-IsValid}

-- The first result, or the second where the first is an error.
abbrev pub or_else : Result ℕ → Result ℕ → Result ℕ
or_else (ok i) r = ok i
or_else (err e) r = r

index_of-append :
    (name : List ℕ) (i k : ℕ) (ns : List (Option (List ℕ))) (n : Option (List ℕ))
    → i + length ns ≡ k
    → index_of name i (ns ++ n ∷ [])
      ≡ or_else (index_of name i ns) (if is_name name n then ok k else err undefined_word)
index_of-append name i k [] n e = rw (← e, add-zero)
index_of-append name i k (m ∷ ns) n e =
    let ih = index_of-append name (i + 1) k ns n (omega arith) in
    elim (Bool-cases (is_name name m)) [ inl yes' ↦ rw yes' | inr no' ↦ rw no' ih ]

length-names_of : (h : Heap) (ss : List Slot) → length (names_of h ss) ≡ length ss
length-names_of h [] = refl
length-names_of h (s ∷ ss) = ap suc (length-names_of h ss)

pub same_bytes_refl : (xs : List ℕ) → same_bytes xs xs ≡ true
same_bytes_refl [] = refl
same_bytes_refl (x ∷ xs) = ground (arith, same_bytes_refl xs)

module _ (heap_size table_size : ℕ) (small : heap_size + 3 < 2 ^ 32) (name : List ℕ) (w : Store)
    (v : IsValid heap_size table_size w) (fits : length name + 1 < 2 ^ 32) where
  length-names : length (names w) ≡ w.slots.slot_pointer
  length-names =
      length-names_of w.heap (take w.slots.slot_pointer w.slots.table)
      ∙ omega (arith, length-take w.slots.slot_pointer w.slots.table, v.sized, v.within)

  record Success (i : ℕ) (w' : Store) : Type 0 where
    index : i ≡ w.slots.slot_pointer
    state : w' ≡ created name w
    room : leb table_size w.slots.slot_pointer ≡ false
    space : leb (w.heap.pointer + (length name + 1)) heap_size ≡ true

  success : (i : ℕ) (w' : Store) → create heap_size table_size name w ≡ (ok i, w') → Success i w'
  success i w' e = record {
    index = ground (arith, create_lem heap_size table_size small name w v fits);
    state = ground (arith, create_lem heap_size table_size small name w v fits);
    room = ground (arith, create_lem heap_size table_size small name w v fits);
    space = ground (arith, create_lem heap_size table_size small name w v fits);
  }

  module _ (clean : no_nul name ≡ true) (i : ℕ) (w' : Store)
      (done : create heap_size table_size name w ≡ (ok i, w')) where
    -- After a name with no NUL byte was created in a valid store, every name that was found is found
    -- where it was, and of the others exactly the new name is found, at the index that was returned.
    pub find_name-create :
        (other : List ℕ)
        → find_name other w'
          ≡ or_else (find_name other w) (if same_bytes name other then ok i else err undefined_word)
    find_name-create other =
        let s = success i w' done in
        let room : w.slots.slot_pointer < table_size = let r = s.room in ground arith in
        let space : w.heap.pointer + (length name + 1) ≤ heap_size = leb→le _ _ s.space in
        rw (s.state, s.index, find_name-eq, find_name-eq other w)
          (ap (index_of other 0)
              (names-created heap_size table_size small name w v fits clean room space)
            ∙ index_of-append other 0 w.slots.slot_pointer (names w) (some name)
                (omega (arith, length-names)))

  -- Whether `create` succeeds or not, it gives a valid store if it is given one, for a name with no
  -- NUL byte that is shorter than 2 ^ 32 - 1 bytes, over a heap of less than 2 ^ 32 - 3 bytes.
  pub create-IsValid :
      no_nul name ≡ true → IsValid heap_size table_size (create heap_size table_size name w).1
  create-IsValid clean =
      rw (create_lem heap_size table_size small name w v fits)
        (elim (Bool-cases (leb table_size w.slots.slot_pointer)) [
          | inl full ↦ rw full v
          | inr room ↦ elim (Bool-cases (leb (w.heap.pointer + (length name + 1)) heap_size)) [
            | inl space ↦
                rw (room, space)
                  (created-IsValid heap_size table_size small name w v fits clean (ground arith)
                    (leb→le _ _ space))
            | inr no_space ↦ rw (room, no_space) v
          ]
        ])

module _ (heap_size table_size : ℕ) (small : heap_size + 3 < 2 ^ 32) (name : List ℕ) (w : Store)
    (v : IsValid heap_size table_size w) (fits : length name + 1 < 2 ^ 32)
    (clean : no_nul name ≡ true) where
  found_after :
      (r : Result ℕ) (i : ℕ) (w' : Store)
      → find_name name w ≡ r
      → found_or_create heap_size table_size name r w ≡ (ok i, w')
      → find_name name w' ≡ ok i
  unfolding found_or_create
  found_after (ok k) i w' e h = ground (arith, e)
  found_after (err x) i w' e h =
      find_name-create heap_size table_size small name w v fits clean i w' h name
      ∙ rw (e, same_bytes_refl name)

  -- Where `find_name_or_create` succeeds on a valid store, for a name with no NUL byte, a search
  -- then finds the name at the index that was returned, and a second call returns the same index
  -- and changes nothing.
  pub find_name_or_create_twice :
      (i : ℕ) (w' : Store)
      → find_name_or_create heap_size table_size name w ≡ (ok i, w')
      → (find_name name w' ≡ ok i) × (find_name_or_create heap_size table_size name w' ≡ (ok i, w'))
  unfolding find_name_or_create
  find_name_or_create_twice i w' h =
      let found = found_after (find_name name w) i w' refl h in (found, rw (found, found_or_create))
