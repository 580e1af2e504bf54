-- ===== src/Tests/Cells.antt =====
-- Cells objects of src/frothy_value.c, with no room for one more object.
use froth.Base.{◌≡◌, refl, false, [], ◌∷◌, arith}
use froth.Base.Int.{pos}
use froth.Status.{err, heap_out_of_memory}
use froth.Cellspace
use froth.Cellspace.{Cellspace, allot}
use froth.Spans.{add_span, insert_span, coalesce, trim_tail, take_span}
use froth.Payload.{empty}
use froth.Value.{to_cell, make_nil}
use froth.Objects.{Runtime, append_object}
use froth.Objects.Cells.{CellHeap, alloc_cells, add_free_span, fill_nil}
use froth.Objects.Cells.Failed.{alloc_cells-failed}

abbrev cellspace : Cellspace
cellspace = record {
  cells = pos 7 ∷ pos 0 ∷ pos 0 ∷ pos 0 ∷ [];
  base_seed = pos 7 ∷ pos 0 ∷ pos 0 ∷ pos 0 ∷ [];
  used = 1;
  high_water = 1;
  capacity = 4;
  base_mark = 1;
}

cellspace-IsValid : Cellspace.IsValid cellspace
cellspace-IsValid = record {
  backed = refl;
  seeded = refl;
  within = omega arith;
  based = omega arith;
  addressed = omega arith;
}

abbrev heap : CellHeap
heap = record { free_spans = []; cellspace = cellspace }

-- No object may be added.
abbrev no_room : Runtime
no_room = record {
  objects = [];
  object_capacity = 4;
  live_object_count = 0;
  object_high_water = 0;
  object_limit = 0;
  fail_next_append = false;
  payload = empty 32;
  payload_bytes = [];
}

-- Two cells were set to nil and given back.
abbrev heap_after : CellHeap
heap_after = record {
  free_spans = [];
  cellspace = record cellspace { cells = pos 7 ∷ pos 1 ∷ pos 1 ∷ pos 0 ∷ []; high_water = 3 };
}

alloc_two : alloc_cells 2 heap no_room ≡ (err heap_out_of_memory, heap_after, no_room)
unfolding alloc_cells allot append_object add_free_span fill_nil add_span insert_span coalesce
    trim_tail take_span to_cell make_nil
alloc_two = refl

alloc_cells-failed_example :
    (heap_after.free_spans ≡ heap.free_spans) × (heap_after.cellspace.used ≡ heap.cellspace.used)
alloc_cells-failed_example =
    alloc_cells-failed 2 heap no_room (omega arith) (omega arith) tt cellspace-IsValid
      heap_out_of_memory heap_after no_room alloc_two
