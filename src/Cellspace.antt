-- ===== src/Cellspace.antt =====
-- src/froth_cellspace.c and src/froth_cellspace.h: the array of cells behind `cells` objects, with
-- the seed of the base image. The two arrays are lists of `capacity` signed cells.
pub mod Bounds
pub mod Contents
pub mod Base
pub mod Steps
use froth.Base.{
  ℕ, ◌+◌, ◌-◌, ◌%◌, ◌^◌, ◌≤◌, ◌≡◌, List, ◌||◌, ltb, leb, length, if◌then◌else◌, take, replicate,
  write_at, set, get_or,
}
use froth.Base.Int.{ℤ, pos, to_i32, to_u32, is_negative}
use froth.Status.{Exec, Result, ok, err, bounds, cellspace_full}

pub record Cellspace : Type 0 where
  pub cells : List ℤ
  pub base_seed : List ℤ
  pub used : ℕ
  pub high_water : ℕ
  pub capacity : ℕ
  pub base_mark : ℕ

-- froth_cellspace_init
pub init : Cellspace → Cellspace
init c = record c {
  cells = replicate c.capacity (pos 0);
  base_seed = replicate c.capacity (pos 0);
  used = 0;
  high_water = 0;
  base_mark = 0;
}

abbrev pub raise : ℕ → ℕ → ℕ
raise mark n = if ltb mark n then n else mark

-- froth_cellspace_allot: the index of the first new cell.
unfoldable pub allot : ℤ → Exec Cellspace ℤ
allot count c =
    let requested = to_u32 count in
    if is_negative count
    then (err bounds, c)
    else if ltb c.capacity requested || ltb (c.capacity - requested) c.used
    then (err cellspace_full, c)
    else (
      ok (to_i32 c.used),
      record c {
        cells = write_at c.used (replicate requested (pos 0)) c.cells;
        used = (c.used + requested) % 2 ^ 32;
        high_water = raise c.high_water ((c.used + requested) % 2 ^ 32);
      },
    )

-- froth_cellspace_fetch
unfoldable pub fetch : Cellspace → ℤ → Result ℤ
fetch c index =
    if is_negative index || leb c.used (to_u32 index)
    then err bounds
    else ok (get_or c.cells (to_u32 index) (pos 0))

-- froth_cellspace_store
unfoldable pub store : ℤ → ℤ → Exec Cellspace (Unit {0})
store index value c =
    if is_negative index || leb c.used (to_u32 index)
    then (err bounds, c)
    else (ok tt, record c { cells = set c.cells (to_u32 index) value })

-- froth_cellspace_capture_base_seed
pub capture_base_seed : Cellspace → Cellspace
capture_base_seed c = record c {
  base_seed = write_at 0 (take c.used c.cells) c.base_seed;
  base_mark = c.used;
  high_water = raise c.high_water c.used;
}

-- froth_cellspace_reset_to_base
unfoldable pub reset_to_base : Cellspace → Cellspace
reset_to_base c = record c {
  cells = write_at 0 (take c.base_mark c.base_seed) c.cells;
  used = c.base_mark;
}

-- froth_cellspace_debug_reset_high_water
pub reset_high_water : Cellspace → Cellspace
reset_high_water c = record c { high_water = c.used }

-- A cell space as its operations keep it.
pub record IsValid (c : Cellspace) : Type 0 where
  pub backed : length c.cells ≡ c.capacity
  pub seeded : length c.base_seed ≡ c.capacity
  pub within : c.used ≤ c.capacity
  pub based : c.base_mark ≤ c.capacity
  pub addressed : c.capacity ≤ 2 ^ 31
