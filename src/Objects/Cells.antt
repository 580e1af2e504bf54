-- ===== src/Objects/Cells.antt =====
-- Cells objects of src/frothy_value.c: the free spans of the cell space, allocation and reading. The
-- free spans and the cell space are the fields of frothy_runtime_t beside those of `Runtime`.
pub mod Failed
use froth.Base.{
  ℕ, ◌+◌, ◌-◌, ◌^◌, ◌||◌, Option, none, some, List, ltb, ◌==◌, if◌then◌else◌, replicate, write_at,
}
use froth.Base.Int.{ℤ, pos, to_u32}
use froth.Status.{Exec, Result, ok, err, ◌>>=◌, type_mismatch, bounds}
use froth.Cellspace.{Cellspace, allot}
use froth.Spans.{Span, add_span, take_span}
use froth.Value.{to_cell, make_nil}
use froth.Objects.{Runtime, Body, cells_object, append_object, get_object}

pub record CellHeap : Type 0 where
  pub free_spans : List Span
  pub cellspace : Cellspace

-- frothy_runtime_add_free_span
unfoldable pub add_free_span : Span → CellHeap → CellHeap
add_free_span s h =
    let (spans, used) = add_span s h.free_spans h.cellspace.used in
    record h { free_spans = spans; cellspace = record h.cellspace { used = used } }

abbrev allotted : Result ℤ × Cellspace → CellHeap → Result ℕ × CellHeap
allotted (ok base, c) h = (ok (to_u32 base), record h { cellspace = c })
allotted (err e, c) h = (err e, record h { cellspace = c })

-- The choice of the cells: a free span that frothy_runtime_take_free_span finds, else new ones.
abbrev span_from : ℕ → Option (ℕ × List Span) → Exec CellHeap ℕ
span_from n (some (base, rest)) h = (ok base, record h { free_spans = rest })
span_from n none h = allotted (allot (pos n) h.cellspace) h

-- The loop that stores nil in the cells.
unfoldable pub fill_nil : ℕ → ℕ → CellHeap → CellHeap
fill_nil base n h = record h {
  cellspace = record h.cellspace {
    cells = write_at base (replicate n (to_cell make_nil)) h.cellspace.cells;
  };
}

-- The cells are given back where the object could not be added.
abbrev undo_cells : Span → Result ℕ × Runtime → CellHeap → Result ℕ × CellHeap × Runtime
undo_cells s (ok value, rt) h = (ok value, h, rt)
undo_cells s (err e, rt) h = (err e, add_free_span s h, rt)

abbrev place_cells : ℕ → Result ℕ × CellHeap → Runtime → Result ℕ × CellHeap × Runtime
place_cells n (err e, h) rt = (err e, h, rt)
place_cells n (ok base, h) rt =
    let s : Span = record { offset = base; length = n } in
    undo_cells s (append_object (cells_object s) rt) (fill_nil base n h)

-- frothy_runtime_alloc_cells, with a cell space
unfoldable pub alloc_cells : ℕ → CellHeap → Runtime → Result ℕ × CellHeap × Runtime
unfolding fill_nil add_free_span
alloc_cells n h rt =
    if n == 0 || ltb (2 ^ 31 - 1) n
    then (err bounds, h, rt)
    else place_cells n (span_from n (take_span n h.free_spans) h) rt

abbrev cells_span : Body → Result Span
cells_span (cells_object s) = ok s
cells_span _ = err type_mismatch

-- frothy_runtime_get_cells
unfoldable pub get_cells : Runtime → ℕ → Result Span
unfolding get_object
get_cells rt value = get_object rt value 2 >>= cells_span
