-- ===== src/Tests/Release.antt =====
-- Releases in src/frothy_value.c at a concrete runtime: a record of one field, its definition and
-- the text in the field.
use froth.Base.{ℕ, ◌≤◌, some, ◌≡◌, ◌≢◌, refl, false, List, [], ◌∷◌, ◌++◌, arith, replicate}
use froth.Status.{Result, ok}
use froth.Spans.{Span, add_span, insert_span, coalesce, trim_tail}
use froth.Payload.{Payload, release_payload}
use froth.Value.{object_value, object_index, is_object_ref}
use froth.Snapshot.Le.{le32, read_le32}
use froth.Objects.{
  Object, Runtime, text_object, record_def_object, record_object, installed, no_object, object_at,
  retain, get_live_object_id,
}
use froth.Objects.Cells.{CellHeap}
use froth.Objects.Release.{
  World, done, release, release_id, clear_live_object, clear_body, release_fields,
}
use froth.Objects.Append.{IsValid}
use froth.Objects.Release.Keeps.{refs}
use froth.Objects.Release.Ends.{release_lem}
use froth.Objects.Release.Retained.{release-retain, raised}

abbrev span : ℕ → Span
span offset = record { offset = offset; length = 8 }

abbrev memory : Payload
memory = record {
  free_spans = [];
  capacity = 32;
  extent = 24;
  bytes_used = 24;
  bytes_high_water = 24;
}

abbrev objects : List Object
objects =
    installed (record_object (span 0) (object_value 1) 1)
    ∷ installed (record_def_object (span 8) 1)
    ∷ installed (text_object (span 16) 2)
    ∷ []

abbrev runtime : Runtime
unfolding le32 object_value
runtime = record {
  objects = objects;
  object_capacity = 4;
  live_object_count = 3;
  object_high_water = 3;
  object_limit = 4;
  fail_next_append = false;
  payload = memory;
  payload_bytes = le32 (object_value 2) ++ replicate 28 0;
}

abbrev heap : CellHeap
heap = record {
  free_spans = [];
  cellspace = record {
    cells = [];
    base_seed = [];
    used = 0;
    high_water = 0;
    capacity = 0;
    base_mark = 0;
  };
}

abbrev world : World
world = record { runtime = runtime; heap = heap }

-- The record takes its definition and its text with it.
release_record :
    release 8 1000 4 (object_value 0) world
    ≡ done (record {
      runtime = record runtime {
        objects = no_object ∷ no_object ∷ no_object ∷ [];
        live_object_count = 0;
        payload = record memory { extent = 0; bytes_used = 0 };
      };
      heap = heap;
    })
unfolding runtime release release_id clear_live_object clear_body release_fields release_payload
    add_span insert_span coalesce trim_tail object_value object_index is_object_ref read_le32 le32
    get_live_object_id
release_record = refl

world-IsValid : IsValid runtime
unfolding runtime
world-IsValid = record { counted = refl; within = omega arith; marked = omega arith }

release_lem_example :
    (r : Result (Unit {0})) × (w' : World) × (release 8 1000 4 (object_value 0) world
      ≡ some (r, w'))
    × (refs w' ≤ refs world)
    × (object_at w'.runtime 3 ≡ object_at runtime 3)
    × IsValid w'.runtime
unfolding object_value runtime
release_lem_example = release_lem 8 1000 4 (object_value 0) 3 world world-IsValid (omega arith) refl

release-retain_example :
    release 8 1000 1
      (object_value 2)
      (record { runtime = raised runtime (object_value 2) 2; heap = heap })
    ≡ done world
unfolding runtime retain object_value object_index is_object_ref get_live_object_id le32
release-retain_example =
    release-retain runtime (object_value 2) 8 1000 0 heap (raised runtime (object_value 2) 2) refl
      counted
  where
    counted :
        (id : ℕ)
        → get_live_object_id runtime (object_value 2) ≡ ok id
        → (object_at runtime id).refcount ≢ 0
    counted id e z = let two : ok 2 ≡ ok id = e in cc
