-- ===== src/Heap/Bounds.antt =====
-- The guarantees of src/froth_heap.c.
use Prim.Native.Nat.{max}
use froth.Base.{ℕ, ◌+◌, ◌-◌, ◌*◌, ◌/◌, ◌^◌, ◌<◌, ◌≡◌, arith, leb, if◌then◌else◌}
use froth.Base.Bits.{bit_and_step, bit_and_low}
use froth.Status.{ok, err, heap_out_of_memory}
use froth.Heap.{Heap, IsValid, allocate_bytes, allocate_cells, align_cell, reset_high_water}

-- The mask `~3` on a word rounds down to a multiple of four.
align_cell-eq : (p : ℕ) → p + 3 < 2 ^ 32 → align_cell p ≡ (p + 3) / 4 * 4
unfolding align_cell
align_cell-eq p h = ground (
  arith,
  bit_and_step (p + 3) (2 ^ 32 - 4),
  bit_and_step ((p + 3) / 2) (2 ^ 31 - 2),
  bit_and_low 30 ((p + 3) / 2 / 2),
)

abbrev pub moved : Heap → ℕ → Heap
moved h p = record h { pointer = p; high_water = max h.high_water p }

module _ (heap_size : ℕ) (fits : heap_size + 3 < 2 ^ 32) where
  -- On a valid heap `froth_heap_allocate_bytes` hands out the bytes from the pointer on and moves
  -- the pointer past them, exactly if they end inside the heap; else it fails and changes nothing.
  pub allocate_bytes_lem :
      (size : ℕ) (h : Heap)
      → IsValid heap_size h
      → allocate_bytes heap_size size h ≡ (
          if leb (h.pointer + size) heap_size
          then (ok h.pointer, moved h (h.pointer + size))
          else (err heap_out_of_memory, h))
  unfolding allocate_bytes
  allocate_bytes_lem size h v = ground arith

  -- On a valid heap `froth_heap_allocate_cells` hands out the next multiple of four, exactly if the
  -- cells end inside the heap; else it fails and changes nothing.
  pub allocate_cells_lem :
      (count : ℕ) (h : Heap)
      → IsValid heap_size h
      → allocate_cells heap_size count h ≡ (
          if leb ((h.pointer + 3) / 4 * 4 + count * 4) heap_size
          then (ok ((h.pointer + 3) / 4 * 4), moved h ((h.pointer + 3) / 4 * 4 + count * 4))
          else (err heap_out_of_memory, h))
  unfolding allocate_cells
  allocate_cells_lem count h v = ground (arith, align_cell-eq h.pointer (omega arith))

  -- Both allocators keep a heap valid, whether they succeed or fail.
  pub allocate-IsValid :
      (n : ℕ) (h : Heap)
      → IsValid heap_size h
      → IsValid heap_size (allocate_bytes heap_size n h).1
        × IsValid heap_size (allocate_cells heap_size n h).1
  allocate-IsValid n h v =
      (ground (arith, allocate_bytes_lem n h v), ground (arith, allocate_cells_lem n h v))

pub reset_high_water-IsValid :
    (heap_size : ℕ) (h : Heap) → IsValid heap_size h → IsValid heap_size (reset_high_water h)
unfolding reset_high_water
reset_high_water-IsValid heap_size h v = ground arith
