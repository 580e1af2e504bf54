-- ===== src/Cellspace/Steps.antt =====
-- What one operation of src/froth_cellspace.c does to the marks and to the cells not in use.
use froth.Base.{
  ltb, ◌-◌, ◌&&◌, ◌==◌, get_or-write_below, get_or-write_inside, get_or-replicate, get_or-take, ℕ,
  ◌≤◌, ◌≡◌, refl, ◌||◌, arith, leb, if◌then◌else◌, get_or, take, replicate, get_or-set_ne,
  get_or-write_above, length-replicate, length-take, Bool-cases, inl, inr,
}
use froth.Base.Int.{ℤ, pos, to_u32, is_negative}
use froth.Status.{is_ok}
use froth.Cellspace.Contents.{get_or-set_if}
use froth.Cellspace.{
  Cellspace, fetch, IsValid, allot, store, capture_base_seed, reset_to_base, reset_high_water,
}
use froth.Cellspace.Bounds.{
  Op, do_allot, do_store, do_capture, do_reset, do_reset_high_water, apply, apply-IsValid,
}

-- The base image is part of what is in use, and the high-water mark is between that and the
-- capacity.
abbrev pub IsOrdered : Cellspace → Type 0
IsOrdered c = (c.base_mark ≤ c.used) × (c.used ≤ c.high_water) × (c.high_water ≤ c.capacity)

-- The high-water mark after an operation that leaves so many cells in use.
abbrev pub high_after : Op → ℕ → ℕ → ℕ
high_after do_reset_high_water high used = used
high_after (do_allot n) high used = if leb used high then high else used
high_after (do_store i z) high used = if leb used high then high else used
high_after do_capture high used = if leb used high then high else used
high_after do_reset high used = if leb used high then high else used

-- The cell at `i` after an operation that leaves so many cells in use. A store writes where a fetch
-- of the same index succeeds.
abbrev pub cell_after : Op → Cellspace → ℕ → ℕ → ℤ
cell_after (do_allot n) c used i =
    if leb c.used i && ltb i used then pos 0 else get_or c.cells i (pos 0)
cell_after (do_store j z) c used i =
    if is_ok (fetch c j) && to_u32 j == i then z else get_or c.cells i (pos 0)
cell_after do_reset c used i =
    if ltb i c.base_mark then get_or c.base_seed i (pos 0) else get_or c.cells i (pos 0)
cell_after do_capture c used i = get_or c.cells i (pos 0)
cell_after do_reset_high_water c used i = get_or c.cells i (pos 0)

-- The seed at `i` after an operation.
abbrev pub seed_after : Op → Cellspace → ℕ → ℤ
seed_after do_capture c i =
    if ltb i c.used then get_or c.cells i (pos 0) else get_or c.base_seed i (pos 0)
seed_after (do_allot n) c i = get_or c.base_seed i (pos 0)
seed_after (do_store j z) c i = get_or c.base_seed i (pos 0)
seed_after do_reset c i = get_or c.base_seed i (pos 0)
seed_after do_reset_high_water c i = get_or c.base_seed i (pos 0)

-- What an operation has done: the marks are in order, and a cell that was not in use before and is
-- not in use now was not written. `cells` and `seed` say what every cell holds.
pub record Applied (o : Op) (c c' : Cellspace) : Type 0 where
  pub valid : IsValid c'
  pub ordered : IsOrdered c'
  pub same_capacity : c'.capacity ≡ c.capacity
  pub high : c'.high_water ≡ high_after o c.high_water c'.used
  pub cells : (i : ℕ) → get_or c'.cells i (pos 0) ≡ cell_after o c c'.used i
  pub seed : (i : ℕ) → get_or c'.base_seed i (pos 0) ≡ seed_after o c i
  pub untouched :
      (i : ℕ) → c.used ≤ i → c'.used ≤ i → get_or c'.cells i (pos 0) ≡ get_or c.cells i (pos 0)

module _ (c : Cellspace) (v : IsValid c) (m : IsOrdered c) where
  allot-Applied : (z : ℤ) → Applied (do_allot z) c (allot z c).1
  unfolding allot
  allot-Applied z = record {
    valid = apply-IsValid (do_allot z) c v;
    ordered = ground arith;
    same_capacity = ground arith;
    high = ground arith;
    cells = λ i. ground (
      arith,
      get_or-write_below c.used (replicate (to_u32 z) (pos 0)) c.cells i (pos 0),
      get_or-write_inside c.used (replicate (to_u32 z) (pos 0)) c.cells (i - c.used) i (pos 0),
      get_or-write_above c.used (replicate (to_u32 z) (pos 0)) c.cells i (pos 0),
      get_or-replicate (to_u32 z) (i - c.used) (pos 0),
      length-replicate (to_u32 z) (pos 0),
    );
    seed = λ i. ground arith;
    untouched = λ i before now. ground (
      arith,
      get_or-write_above c.used (replicate (to_u32 z) (pos 0)) c.cells i (pos 0),
      length-replicate (to_u32 z) (pos 0),
    );
  }

  store-Applied : (j z : ℤ) → Applied (do_store j z) c (store j z c).1
  unfolding store fetch
  store-Applied j z = record {
    valid = apply-IsValid (do_store j z) c v;
    ordered = ground arith;
    same_capacity = ground arith;
    high = ground arith;
    cells = λ i. ground (arith, get_or-set_if c.cells (to_u32 j) i z (pos 0));
    seed = λ i. ground arith;
    untouched = λ i before now. elim (Bool-cases (is_negative j || leb c.used (to_u32 j))) [
      | inl outside ↦ rw outside refl
      | inr inside ↦ rw inside (get_or-set_ne c.cells (to_u32 j) i z (pos 0) (λ same. ground arith))
    ];
  }

  capture-Applied : Applied do_capture c (capture_base_seed c)
  unfolding capture_base_seed
  capture-Applied = record {
    valid = apply-IsValid do_capture c v;
    ordered = ground arith;
    same_capacity = refl;
    high = ground arith;
    cells = λ i. refl;
    seed = λ i. ground (
      arith,
      get_or-write_inside 0 (take c.used c.cells) c.base_seed i i (pos 0),
      get_or-write_above 0 (take c.used c.cells) c.base_seed i (pos 0),
      length-take c.used c.cells,
      get_or-take c.used c.cells i (pos 0),
    );
    untouched = λ i before now. refl;
  }

  reset-Applied : Applied do_reset c (reset_to_base c)
  unfolding reset_to_base
  reset-Applied = record {
    valid = apply-IsValid do_reset c v;
    ordered = omega (arith, m);
    same_capacity = refl;
    high = ground arith;
    cells = λ i. ground (
      arith,
      get_or-write_inside 0 (take c.base_mark c.base_seed) c.cells i i (pos 0),
      get_or-write_above 0 (take c.base_mark c.base_seed) c.cells i (pos 0),
      length-take c.base_mark c.base_seed,
      get_or-take c.base_mark c.base_seed i (pos 0),
    );
    seed = λ i. refl;
    untouched = λ i before now.
        get_or-write_above 0 (take c.base_mark c.base_seed) c.cells i (pos 0)
          (ground (arith, length-take c.base_mark c.base_seed));
  }

  reset_high_water-Applied : Applied do_reset_high_water c (reset_high_water c)
  unfolding reset_high_water
  reset_high_water-Applied = record {
    valid = apply-IsValid do_reset_high_water c v;
    ordered = omega (arith, m, v.within);
    same_capacity = refl;
    high = refl;
    cells = λ i. refl;
    seed = λ i. refl;
    untouched = λ i before now. refl;
  }

-- Every operation, successful or not, on a cell space whose arrays have the length of its capacity,
-- at most 2 ^ 31, and whose base mark, use, high-water mark and capacity are in that order, keeps
-- this so. It raises the high-water mark to the cells in use where these are more, or sets it to
-- them where it resets the mark. It writes no cell that is neither in use before nor after, and what
-- every cell and every cell of the seed holds is: zero in the cells that were allotted, the value in
-- the cell of a store whose index can be fetched, the cells in use in a seed that was captured, the
-- seed in the cells of the base image after a reset, and elsewhere what was there before.
pub apply-Applied : (o : Op) (c : Cellspace) → IsValid c → IsOrdered c → Applied o c (apply o c)
apply-Applied (do_allot n) c v m = allot-Applied c v m n
apply-Applied (do_store i z) c v m = store-Applied c v m i z
apply-Applied do_capture c v m = capture-Applied c v m
apply-Applied do_reset c v m = reset-Applied c v m
apply-Applied do_reset_high_water c v m = reset_high_water-Applied c v m
