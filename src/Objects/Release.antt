-- ===== src/Objects/Release.antt =====
-- Releasing references in src/frothy_value.c: frothy_value_release and
-- frothy_runtime_clear_live_object, which call one another through the cells and the fields of an
-- object. A call takes a fuel, the depth to which they may call one another; `none` is the result
-- where that is not enough. Fields are 32-bit words of the payload in little-endian order, the byte
-- order of the targets. The host memory of a program that has no bytes in the payload, which
-- frothy_ir_program_free gives back, is not part of the state.
pub mod Keeps
pub mod Ends
pub mod Retained
use froth.Base.{
  ℕ, zero, suc, ◌+◌, ◌-◌, Bool, not, Option, none, some, List, ltb, ◌==◌, if◌then◌else◌, get_or,
  set, drop,
}
use froth.Base.Int.{pos}
use froth.Status.{Result, ok, err, bounds}
use froth.Spans.{Span}
use froth.Payload.{release_payload}
use froth.Value.{is_object_ref, from_cell}
use froth.Snapshot.Le.{read_le32}
use froth.Objects.{
  Runtime, Body, Object, free_object, text_object, cells_object, code_object, native_object,
  record_def_object, record_object, object_at, no_object, get_live_object_id,
}
use froth.Objects.Cells.{CellHeap, add_free_span}

-- frothy_runtime_t as far as a release changes it.
pub record World : Type 0 where
  pub runtime : Runtime
  pub heap : CellHeap

abbrev pub Outcome : Type 0
Outcome = Option (Result (Unit {0}) × World)

-- FROTH_TRY, while there is fuel.
abbrev pub continue : Outcome → (World → Outcome) → Outcome
continue none k = none
continue (some (ok u, w)) k = k w
continue (some (err e, w)) k = some (err e, w)

abbrev pub done : World → Outcome
done w = some (ok tt, w)

abbrev pub with_object : ℕ → Object → World → World
with_object id o w = record w {
  runtime = record w.runtime { objects = set w.runtime.objects id o };
}

-- frothy_cellspace_value
abbrev pub cell_value : ℕ → World → ℕ
cell_value i w = from_cell (get_or w.heap.cellspace.cells i (pos 0))

-- `runtime->cellspace->data[i] = 0`
abbrev pub zero_cell : ℕ → World → World
zero_cell i w = record w {
  heap = record w.heap {
    cellspace = record w.heap.cellspace { cells = set w.heap.cellspace.cells i (pos 0) };
  };
}

-- The field whose word starts at a byte of the payload.
abbrev pub field_value : ℕ → World → ℕ
field_value place w = read_le32 (drop place w.runtime.payload_bytes)

-- The loop over the cells of an object, with `left` rounds to go.
unfoldable pub release_cells : (ℕ → World → Outcome) → ℕ → ℕ → World → Outcome
release_cells rel zero i w = done w
release_cells rel (suc left) i w =
    continue (rel (cell_value i w) w) λ w'. release_cells rel left (i + 1) (zero_cell i w')

-- The loop over the fields of a record.
unfoldable pub release_fields : (ℕ → World → Outcome) → ℕ → ℕ → World → Outcome
release_fields rel zero place w = done w
release_fields rel (suc left) place w =
    continue (rel (field_value place w) w) λ w'. release_fields rel left (place + 4) w'

-- `object->refcount--`
abbrev pub drop_reference : ℕ → World → World
drop_reference id w =
    let o = object_at w.runtime id in with_object id (record o { refcount = o.refcount - 1 }) w

module _ (alignment size_max : ℕ) where
  -- `runtime->live_object_count--` on size_t.
  abbrev pub decrement : ℕ → ℕ
  decrement n = if n == 0 then size_max else n - 1

  -- frothy_runtime_finish_object_teardown
  abbrev pub finish_teardown : ℕ → World → World
  finish_teardown id w = record w {
    runtime = record w.runtime {
      objects = set w.runtime.objects id no_object;
      live_object_count = decrement w.runtime.live_object_count;
    };
  }

  abbrev pub release_bytes : Span → World → World
  release_bytes s w = record w {
    runtime = record w.runtime { payload = release_payload alignment size_max s w.runtime.payload };
  }

  -- frothy_runtime_release_object_storage, frothy_runtime_release_code_storage
  abbrev pub release_storage : Body → World → World
  release_storage (text_object s n) w = release_bytes s w
  release_storage (cells_object s) w = w
  release_storage (code_object s arity local_count body) w =
      if ltb 0 s.length then release_bytes s w else w
  release_storage (record_def_object s n) w = release_bytes s w
  release_storage (record_object s definition n) w = release_bytes s w
  release_storage (native_object f context name arity) w = w
  release_storage free_object w = w

  -- The switch of frothy_runtime_clear_live_object, and the teardown behind it.
  unfoldable pub clear_body : (ℕ → World → Outcome) → Body → ℕ → World → Outcome
  clear_body rel (cells_object s) id w =
      continue (release_cells rel s.length s.offset w)
        λ w'. done (finish_teardown id (record w' { heap = add_free_span s w'.heap }))
  clear_body rel (record_object s definition n) id w =
      continue (release_fields rel n s.offset w) λ w'.
        continue (rel definition w')
          λ w''. done (finish_teardown id (release_storage (record_object s definition n) w''))
  clear_body rel body id w = done (finish_teardown id (release_storage body w))

  -- frothy_runtime_clear_live_object
  unfoldable pub clear_live_object : (ℕ → World → Outcome) → ℕ → World → Outcome
  unfolding clear_body
  clear_live_object rel id w =
      let o = object_at w.runtime id in if not o.live then done w else clear_body rel o.body id w

  unfoldable pub release_id : (ℕ → World → Outcome) → Result ℕ → World → Outcome
  unfolding clear_live_object
  release_id rel (err e) w = some (err e, w)
  release_id rel (ok id) w =
      let left = (object_at w.runtime id).refcount - 1 in
      if (object_at w.runtime id).refcount == 0
      then some (err bounds, w)
      else if ltb 0 left
      then done (drop_reference id w)
      else clear_live_object rel id (drop_reference id w)

  -- frothy_value_release
  unfoldable pub release : ℕ → ℕ → World → Outcome
  unfolding release_id
  release zero value w = none
  release (suc fuel) value w =
      if not (is_object_ref value)
      then done w
      else release_id (release fuel) (get_live_object_id w.runtime value) w
