-- ===== src/Cellspace/Contents.antt =====
-- What fetches return after the operations of froth_cellspace.c.
use froth.Base.{
  ℕ, ◌+◌, ◌-◌, ◌^◌, ◌≤◌, ◌<◌, ◌≡◌, List, Bool, true, ◌&&◌, arith, ltb, ◌==◌, length, replicate,
  get_or, set, get_or-set_self, get_or-set_ne, get_or-write_below, get_or-write_inside,
  get_or-replicate, length-replicate, if◌then◌else◌, inl, inr, Bool-cases,
}
use froth.Base.Int.{ℤ, pos, negsuc, to_u32, IsInt32}
use froth.Status.{ok, is_ok}
use froth.Cellspace.{Cellspace, IsValid, allot, fetch, store}
use froth.Cellspace.Bounds.{allot_lem}

-- Whether an index may be accessed.
abbrev pub in_use : Cellspace → ℤ → Bool
in_use c (pos i) = ltb i c.used
in_use c (negsuc i) = ltb i 0

pub get_or-set_if :
    (xs : List ℤ) (i j : ℕ) (z d : ℤ)
    → i < length xs
    → get_or (set xs i z) j d ≡ (if i == j then z else get_or xs j d)
get_or-set_if xs i j z d h = elim (Bool-cases (i == j)) [
  | inl e ↦ rw (e, ← ==→eq i j e) (get_or-set_self xs i z d h)
  | inr e ↦ rw e (get_or-set_ne xs i j z d (ground arith))
]
  where
    ==→eq : (i j : ℕ) → (i == j) ≡ true → i ≡ j
    ==→eq i j e = ground arith

-- A store to an index in use is read back by a fetch of that index, and by no other fetch; a store
-- to any other index fails with a bounds error. Both hold for all 32-bit indices.
pub fetch-store :
    (i j z : ℤ) (c : Cellspace)
    → IsValid c
    → IsInt32 i
    → IsInt32 j
    → (is_ok (store i z c).0 ≡ in_use c i)
      × (fetch (store i z c).1 j ≡ (if in_use c i && to_u32 i == to_u32 j then ok z else fetch c j))
unfolding fetch store
fetch-store (pos i) (pos j) z c v hi hj =
    (ground arith, ground (arith, get_or-set_if c.cells i j z (pos 0)))
fetch-store (pos i) (negsuc j) z c v hi hj = (ground arith, ground arith)
fetch-store (negsuc i) (pos j) z c v hi hj = (ground arith, ground arith)
fetch-store (negsuc i) (negsuc j) z c v hi hj = (ground arith, ground arith)

-- After a successful `allot` of n cells the new cells read 0, whatever was stored there before,
-- and every cell that was in use reads as it did.
pub fetch-allot :
    (n : ℕ) (c : Cellspace) (i : ℕ)
    → IsValid c
    → c.used + n ≤ c.capacity
    → i < c.used + n
    → n < 2 ^ 31
    → fetch (allot (pos n) c).1 (pos i) ≡ (if ltb i c.used then fetch c (pos i) else ok (pos 0))
unfolding fetch
fetch-allot n c i v room h small = ground (
  arith,
  (allot_lem n c v small).0,
  get_or-write_below c.used (replicate n (pos 0)) c.cells i (pos 0),
  get_or-write_inside c.used (replicate n (pos 0)) c.cells (i - c.used) i (pos 0),
  get_or-replicate n (i - c.used) (pos 0),
  length-replicate n (pos 0),
)
