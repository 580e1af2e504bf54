-- ===== src/Tests/Memory.antt =====
-- The heap of src/froth_heap.c and the cells of src/froth_cellspace.c, at concrete states.
use froth.Base.{◌≡◌, refl, [], ◌∷◌, arith, replicate}
use froth.Base.Int.{pos, negsuc}
use froth.Status.{ok, err, bounds, heap_out_of_memory}
use froth.Heap
use froth.Heap.{Heap, allocate_bytes, allocate_cells}
use froth.Cellspace
use froth.Cellspace.{
  Cellspace, init, allot, fetch, store, capture_base_seed, reset_to_base, reset_high_water,
}
use froth.Cellspace.Bounds.{do_allot, do_store, do_reset_high_water, apply}
use froth.Cellspace.Steps.{Applied, apply-Applied}
use froth.Cellspace.Base.{run, fetch-reset}

-- A heap of 16 bytes, 5 of them in use.
abbrev heap16 : Heap
heap16 = record { bytes = replicate 16 0; pointer = 5; high_water = 6 }

heap16-IsValid : Heap.IsValid 16 heap16
heap16-IsValid = record { backed = refl; within = omega arith; marked = omega arith }

allocate_bytes_full : allocate_bytes 16 12 heap16 ≡ (err heap_out_of_memory, heap16)
unfolding allocate_bytes
allocate_bytes_full = refl

-- Four cells, the first three in use, two of them the base image's.
abbrev cells4 : Cellspace
cells4 = record {
  cells = pos 7 ∷ negsuc 2 ∷ pos 9 ∷ pos 8 ∷ [];
  base_seed = pos 7 ∷ pos 1 ∷ pos 0 ∷ pos 0 ∷ [];
  used = 3;
  high_water = 3;
  capacity = 4;
  base_mark = 2;
}

cells4-IsValid : Cellspace.IsValid cells4
cells4-IsValid = record {
  backed = refl;
  seeded = refl;
  within = omega arith;
  based = omega arith;
  addressed = omega arith;
}

fetch_in_use : fetch cells4 (pos 1) ≡ ok (negsuc 2)
unfolding fetch
fetch_in_use = refl

fetch_behind : fetch cells4 (pos 3) ≡ err bounds
unfolding fetch
fetch_behind = refl

apply-Applied_example :
    Applied (do_store (pos 2) (negsuc 4)) cells4 (apply (do_store (pos 2) (negsuc 4)) cells4)
apply-Applied_example =
    apply-Applied (do_store (pos 2) (negsuc 4)) cells4 cells4-IsValid
      (omega arith, omega arith, omega arith)

fetch-reset_example :
    fetch
      (reset_to_base (
        run
          (do_allot (pos 1) ∷ do_store (pos 0) (pos 99) ∷ do_reset_high_water ∷ [])
          (capture_base_seed cells4)))
      (pos 0)
    ≡ fetch cells4 (pos 0)
fetch-reset_example =
    fetch-reset (do_allot (pos 1) ∷ do_store (pos 0) (pos 99) ∷ do_reset_high_water ∷ []) cells4
      cells4-IsValid refl (pos 0)
