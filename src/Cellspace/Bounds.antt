-- ===== src/Cellspace/Bounds.antt =====
-- No operation of froth_cellspace.c leaves the array's bounds.
use froth.Base.{
  ℕ, ◌+◌, ◌^◌, ◌≤◌, ◌<◌, ◌≡◌, List, arith, leb, replicate, write_at, length-write_at,
  length-replicate, length-set, take, if◌then◌else◌,
}
use froth.Base.Int.{ℤ, pos, negsuc, to_i32, to_u32}
use froth.Status.{ok, err, bounds, cellspace_full}
use froth.Cellspace.{
  Cellspace, IsValid, init, allot, store, capture_base_seed, reset_to_base, reset_high_water, raise,
}

pub init-IsValid : (c : Cellspace) → c.capacity ≤ 2 ^ 31 → IsValid (init c)
unfolding init
init-IsValid c h = record {
  backed = length-replicate c.capacity (pos 0);
  seeded = length-replicate c.capacity (pos 0);
  within = omega arith;
  based = omega arith;
  addressed = h;
}

abbrev zeros : ℕ → List ℤ
zeros n = replicate n (pos 0)

-- The state after a successful `allot`.
abbrev pub grown : Cellspace → ℕ → Cellspace
grown c n = record c {
  cells = write_at c.used (zeros n) c.cells;
  used = c.used + n;
  high_water = raise c.high_water (c.used + n);
}

-- `allot` of a cell count succeeds exactly if the count is not negative and the cells fit; it then
-- hands out the cells from `used` on, zeroed. Otherwise it says which condition failed and changes
-- nothing.
pub allot_lem :
    (n : ℕ) (c : Cellspace)
    → IsValid c
    → n < 2 ^ 31
    → (allot (pos n) c ≡ (
        if leb (c.used + n) c.capacity
        then (ok (to_i32 c.used), grown c n)
        else (err cellspace_full, c)))
      × (allot (negsuc n) c ≡ (err bounds, c))
unfolding allot
allot_lem n c v h = (ground arith, ground arith)

allot-IsValid : (z : ℤ) (c : Cellspace) → IsValid c → IsValid (allot z c).1
unfolding allot
allot-IsValid z c v = ground (arith, length-write_at c.used (replicate (to_u32 z) (pos 0)) c.cells)

store-IsValid : (i z : ℤ) (c : Cellspace) → IsValid c → IsValid (store i z c).1
unfolding store
store-IsValid i z c v = ground (arith, length-set c.cells (to_u32 i) z)

capture-IsValid : (c : Cellspace) → IsValid c → IsValid (capture_base_seed c)
unfolding capture_base_seed
capture-IsValid c v = ground (arith, length-write_at 0 (take c.used c.cells) c.base_seed)

reset-IsValid : (c : Cellspace) → IsValid c → IsValid (reset_to_base c)
unfolding reset_to_base
reset-IsValid c v = ground (arith, length-write_at 0 (take c.base_mark c.base_seed) c.cells)

-- The operations that change a cell space.
pub data Op : Type 0 where
  do_allot : ℤ → Op
  do_store : ℤ → ℤ → Op
  do_capture do_reset do_reset_high_water : Op

abbrev pub apply : Op → Cellspace → Cellspace
apply (do_allot n) c = (allot n c).1
apply (do_store i z) c = (store i z c).1
apply do_capture c = capture_base_seed c
apply do_reset c = reset_to_base c
apply do_reset_high_water c = reset_high_water c

-- An operation, successful or not, keeps a cell space valid.
pub apply-IsValid : (o : Op) (c : Cellspace) → IsValid c → IsValid (apply o c)
unfolding reset_high_water
apply-IsValid (do_allot n) c v = allot-IsValid n c v
apply-IsValid (do_store i z) c v = store-IsValid i z c v
apply-IsValid do_capture c v = capture-IsValid c v
apply-IsValid do_reset c v = reset-IsValid c v
apply-IsValid do_reset_high_water c v = ground arith
