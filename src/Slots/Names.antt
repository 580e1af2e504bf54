-- ===== src/Slots/Names.antt =====
-- Creating and finding slots by name. The names live in the heap, so these are facts about what
-- later allocations leave alone.
use froth.Base.{
  ℕ, zero, suc, ◌+◌, ◌<◌, ◌≡◌, refl, Bool, true, false, ◌&&◌, Option, none, some, List, [], ◌∷◌,
  ◌++◌, arith, ◌==◌, if◌then◌else◌, length, drop, take, write_at,
}
use native.Mathlib.Nat.{add-zero}
use froth.Status.{Result, ok, err, undefined_word}
use froth.Heap.{Heap}
use froth.Slots.{Slot, Store, c_string, slot_name_matches, find_from, find_name}

abbrev pub same_bytes : List ℕ → List ℕ → Bool
same_bytes [] [] = true
same_bytes (x ∷ xs) (y ∷ ys) = x == y && same_bytes xs ys
same_bytes _ _ = false

-- A name with no NUL byte.
abbrev pub no_nul : List ℕ → Bool
no_nul [] = true
no_nul (zero ∷ bs) = false
no_nul (suc b ∷ bs) = no_nul bs

-- The length test and the memcmp compare the C string at the name with the bytes.
slot_name_matches-eq : (xs ys : List ℕ) → slot_name_matches xs ys ≡ same_bytes (c_string xs) ys
unfolding slot_name_matches
slot_name_matches-eq [] [] = refl
slot_name_matches-eq [] (y ∷ ys) = ground arith
slot_name_matches-eq (zero ∷ xs) [] = refl
slot_name_matches-eq (suc x ∷ xs) [] = ground arith
slot_name_matches-eq (zero ∷ xs) (y ∷ ys) = ground arith
slot_name_matches-eq (suc x ∷ xs) (y ∷ ys) = ground (arith, slot_name_matches-eq xs ys)

-- A C string that ends inside the bytes below `limit` does not see writes from `limit` on.
pub c_string-write :
    (limit : ℕ) (src xs : List ℕ)
    → length (c_string xs) < limit
    → c_string (write_at limit src xs) ≡ c_string xs
c_string-write zero src xs h = elim h [ ]
c_string-write (suc n) [] xs h = refl
c_string-write (suc n) (s ∷ src) [] h = refl
c_string-write (suc n) (s ∷ src) (zero ∷ xs) h = refl
c_string-write (suc n) (s ∷ src) (suc x ∷ xs) h = rw (c_string-write n (s ∷ src) xs (omega arith))

pub drop-write :
    (p limit k : ℕ) (src xs : List ℕ)
    → k + p ≡ limit
    → drop p (write_at limit src xs) ≡ write_at k src (drop p xs)
drop-write zero limit k src xs e = rw (← e, add-zero)
drop-write (suc p) zero k src xs e = absurd (omega arith)
drop-write (suc p) (suc n) zero [] [] e = refl
drop-write (suc p) (suc n) (suc k) [] [] e = refl
drop-write (suc p) (suc n) zero [] (x ∷ xs) e = refl
drop-write (suc p) (suc n) (suc k) [] (x ∷ xs) e = refl
drop-write (suc p) (suc n) zero (s ∷ src) [] e = refl
drop-write (suc p) (suc n) (suc k) (s ∷ src) [] e = refl
drop-write (suc p) (suc n) k (s ∷ src) (x ∷ xs) e = drop-write p n k (s ∷ src) xs (omega arith)

-- A string that is written is read back.
pub c_string-written :
    (name xs : List ℕ)
    → no_nul name ≡ true
    → length name < length xs
    → c_string (write_at 0 (name ++ 0 ∷ []) xs) ≡ name
c_string-written [] [] q h = elim h [ ]
c_string-written [] (x ∷ xs) q h = refl
c_string-written (n ∷ name) [] q h = elim h [ ]
c_string-written (zero ∷ name) (x ∷ xs) q h = cc
c_string-written (suc n ∷ name) (x ∷ xs) q h = rw (c_string-written name xs q (omega arith))

-- The names of the assigned indices, which is all that a search sees.
abbrev pub read_name : Heap → Option ℕ → Option (List ℕ)
read_name h none = none
read_name h (some p) = some (c_string (drop p h.bytes))

abbrev pub names_of : Heap → List Slot → List (Option (List ℕ))
names_of h [] = []
names_of h (s ∷ ss) = read_name h s.name ∷ names_of h ss

abbrev pub names : Store → List (Option (List ℕ))
names w = names_of w.heap (take w.slots.slot_pointer w.slots.table)

abbrev pub is_name : List ℕ → Option (List ℕ) → Bool
is_name name none = false
is_name name (some n) = same_bytes n name

-- The reference search: the first position of a name.
abbrev pub index_of : List ℕ → ℕ → List (Option (List ℕ)) → Result ℕ
index_of name i [] = err undefined_word
index_of name i (n ∷ ns) = if is_name name n then ok i else index_of name (i + 1) ns

find_from-eq :
    (h : Heap) (name : List ℕ) (i : ℕ) (ss : List Slot)
    → find_from h name i ss ≡ index_of name i (names_of h ss)
unfolding find_from
find_from-eq h name i [] = refl
find_from-eq h name i (s ∷ ss) = rw (matches-eq s.name, find_from-eq h name (i + 1) ss)
  where
    matches-eq :
        (n : Option ℕ)
        → (elim n [ none ↦ false | some p ↦ slot_name_matches (drop p h.bytes) name ])
          ≡ is_name name (read_name h n)
    matches-eq none = refl
    matches-eq (some p) = slot_name_matches-eq (drop p h.bytes) name

-- `find_name` is the search for the first position in the list of names.
pub find_name-eq : (name : List ℕ) (w : Store) → find_name name w ≡ index_of name 0 (names w)
unfolding find_name
find_name-eq name w = find_from-eq w.heap name 0 (take w.slots.slot_pointer w.slots.table)
