-- ===== src/Heap.antt =====
-- src/froth_heap.c and src/froth_heap.h: the bump allocator for slot names and other bytes.
-- `heap_size` is the build's FROTH_HEAP_SIZE. A pointer into the heap is its byte offset, and
-- `froth_cell_u_t` is 32 bits wide, so its arithmetic wraps at 2^32.
pub mod Bounds
use froth.Base.{
  ℕ, ◌+◌, ◌-◌, ◌*◌, ◌/◌, ◌%◌, ◌^◌, ◌≤◌, ◌≡◌, Bool, List, ◌||◌, bit_and, ltb, length, if◌then◌else◌,
}
use froth.Status.{Exec, ok, err, heap_out_of_memory}

pub record Heap : Type 0 where
  pub bytes : List ℕ
  pub pointer : ℕ
  pub high_water : ℕ

-- froth_heap_debug_reset_high_water
pub reset_high_water : Heap → Heap
reset_high_water h = record h { high_water = h.pointer }

-- `heap->pointer = p`, and the high water mark with it.
advance : ℕ → Heap → Heap
advance p h = record h { pointer = p; high_water = if ltb h.high_water p then p else h.high_water }

-- `(pointer + alignment) & ~alignment` with alignment 3.
align_cell : ℕ → ℕ
align_cell p = bit_and ((p + 3) % 2 ^ 32) (2 ^ 32 - 4)

-- A heap as the allocator keeps it.
pub record IsValid (heap_size : ℕ) (h : Heap) : Type 0 where
  pub backed : length h.bytes ≡ heap_size
  pub within : h.pointer ≤ h.high_water
  pub marked : h.high_water ≤ heap_size

module _ (heap_size : ℕ) where
  -- froth_heap_allocate_bytes
  unfoldable pub allocate_bytes : ℕ → Exec Heap ℕ
  unfolding advance
  allocate_bytes size h =
      if ltb heap_size size || ltb (heap_size - size) h.pointer
      then (err heap_out_of_memory, h)
      else (ok h.pointer, advance ((h.pointer + size) % 2 ^ 32) h)

  -- froth_heap_allocate_cells: the cells' place, as a byte offset.
  pub allocate_cells : ℕ → Exec Heap ℕ
  unfolding advance
  allocate_cells count h =
      let aligned = align_cell h.pointer in
      let requested = (count * 4) % 2 ^ 32 in
      if ltb (heap_size / 4) count || ltb heap_size aligned
      then (err heap_out_of_memory, h)
      else if ltb (heap_size - aligned) requested
      then (err heap_out_of_memory, h)
      else (ok aligned, advance ((aligned + count * 4) % 2 ^ 32) h)
