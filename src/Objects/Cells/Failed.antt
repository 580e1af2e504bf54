-- ===== src/Objects/Cells/Failed.antt =====
-- The allocation of cells in src/frothy_value.c where it fails.
use froth.Base.{
  ℕ, ◌+◌, ◌-◌, ◌^◌, ◌<◌, ◌≡◌, refl, sym, ap, ◌∙◌, false, ◌||◌, Option, none, some, List, arith, ltb,
  leb, ◌==◌, if◌then◌else◌, Bool-cases, inl, inr,
}
use froth.Base.Int.{ℤ, pos, negsuc, to_u32, to_i32, to_u32-to_i32}
use froth.Status.{Error, Result, ok, err, bounds, cellspace_full}
use froth.Cellspace
use froth.Cellspace.{Cellspace, allot}
use froth.Cellspace.Bounds.{allot_lem, grown}
use froth.Spans.{Span, Canonical, add_span, take_span}
use froth.Spans.Restore.{add-take, add-extend}
use froth.Objects.{Runtime, cells_object, append_object}
use froth.Objects.Cells.{
  CellHeap, alloc_cells, span_from, allotted, place_cells, undo_cells, add_free_span, fill_nil,
}

record SameCells (h h' : CellHeap) : Type 0 where
  spans : h'.free_spans ≡ h.free_spans
  used : h'.cellspace.used ≡ h.cellspace.used

module _ (n : ℕ) (h : CellHeap) (rt : Runtime) (some_cells : 0 < n) (small : n < 2 ^ 31)
    (free : Canonical 0 h.free_spans h.cellspace.used) (v : Cellspace.IsValid h.cellspace) where
  abbrev span : ℕ → Span
  span base = record { offset = base; length = n }

  allots :
      (allot (pos n) h.cellspace ≡ (
        if leb (h.cellspace.used + n) h.cellspace.capacity
        then (ok (to_i32 h.cellspace.used), grown h.cellspace n)
        else (err cellspace_full, h.cellspace)))
      × (allot (negsuc n) h.cellspace ≡ (err bounds, h.cellspace))
  allots = allot_lem n h.cellspace v small

  undone :
      (base : ℕ) (h1 : CellHeap) (r : Result ℕ × Runtime) (e : Error) (h' : CellHeap)
      (rt' : Runtime)
      → add_span (span base) h1.free_spans h1.cellspace.used ≡ (h.free_spans, h.cellspace.used)
      → undo_cells (span base) r (fill_nil base n h1) ≡ (err e, h', rt')
      → SameCells h h'
  unfolding add_free_span fill_nil
  undone base h1 (ok x, rt1) e h' rt' back done = cc
  undone base h1 (err x, rt1) e h' rt' back done =
      let state : add_free_span (span base) (fill_nil base n h1) ≡ h' =
        ap (λ (r : Result ℕ × CellHeap × Runtime). r.1) done in
      record {
        spans =
            sym (ap (λ (c : CellHeap). c.free_spans) state) ∙ ap (λ (r : List Span × ℕ). r.0) back;
        used =
            sym (ap (λ (c : CellHeap). c.cellspace.used) state)
            ∙ ap (λ (r : List Span × ℕ). r.1) back;
      }

  from_span :
      (o : Option (ℕ × List Span)) (e : Error) (h' : CellHeap) (rt' : Runtime)
      → take_span n h.free_spans ≡ o
      → place_cells n (span_from n o h) rt ≡ (err e, h', rt')
      → SameCells h h'
  from_span (some (base, rest)) e h' rt' q done =
      undone base (record h { free_spans = rest }) (append_object (cells_object (span base)) rt) e
        h' rt' (add-take n base h.free_spans rest h.cellspace.used some_cells free q) done
  from_span none e h' rt' q done =
      elim (Bool-cases (leb (h.cellspace.used + n) h.cellspace.capacity)) [
        | inl room ↦
            let c : Cellspace = grown h.cellspace n in
            let made : allot (pos n) h.cellspace ≡ (ok (to_i32 h.cellspace.used), c) =
              allots.0 ∙ (rw room refl) in
            let index : to_u32 (to_i32 h.cellspace.used) ≡ h.cellspace.used =
              to_u32-to_i32 h.cellspace.used (omega (arith, v.within, v.addressed)) in
            let taken : span_from n none h ≡ (ok h.cellspace.used, record h { cellspace = c }) =
              ap (λ (r : Result ℤ × Cellspace). allotted r h) made
              ∙ ap (λ (base : ℕ). (ok base, record h { cellspace = c })) index in
            undone h.cellspace.used (record h { cellspace = c })
              (append_object (cells_object (span h.cellspace.used)) rt) e h' rt'
              (add-extend n h.cellspace.used h.free_spans some_cells free)
              (ap (λ (r : Result ℕ × CellHeap). place_cells n r rt) (sym taken) ∙ done)
        | inr full ↦
            let made : allot (pos n) h.cellspace ≡ (err cellspace_full, h.cellspace) =
              allots.0 ∙ (rw full refl) in
            let refused : span_from n none h ≡ (err cellspace_full, h) =
              ap (λ (r : Result ℤ × Cellspace). allotted r h) made in
            let state : h ≡ h' =
              ap (λ (r : Result ℕ × CellHeap × Runtime). r.1)
                (ap (λ (r : Result ℕ × CellHeap). place_cells n r rt) (sym refused) ∙ done) in
            record {
              spans = sym (ap (λ (c : CellHeap). c.free_spans) state);
              used = sym (ap (λ (c : CellHeap). c.cellspace.used) state);
            }
      ]

  -- Where cells cannot be allocated, for a positive count, the free spans and the mark of the cells in
  -- use are as before; also where the cells were there but the object could not be added.
  pub alloc_cells-failed :
      (e : Error) (h' : CellHeap) (rt' : Runtime)
      → alloc_cells n h rt ≡ (err e, h', rt')
      → (h'.free_spans ≡ h.free_spans) × (h'.cellspace.used ≡ h.cellspace.used)
  unfolding alloc_cells
  alloc_cells-failed e h' rt' done =
      let ok_count : (n == 0 || ltb (2 ^ 31 - 1) n) ≡ false = ground arith in
      let same = from_span (take_span n h.free_spans) e h' rt' refl (rw ok_count at done) in
      (same.spans, same.used)
