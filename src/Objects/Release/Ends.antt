-- ===== src/Objects/Release/Ends.antt =====
-- The recursion of frothy_value_release in src/frothy_value.c: its depth is bounded by the references
-- that are counted, since each call that goes deeper has taken one away.
use froth.Base.{
  ◌≤◌, some, none, ℕ, zero, suc, ◌+◌, ◌-◌, ◌<◌, ◌≡◌, ◌≢◌, refl, ap, ◌∙◌, true, arith, ltb, ◌==◌,
  if◌then◌else◌, Bool-cases, inl, inr,
}
use froth.Status.{Result, ok, err}
use froth.Spans.{Span}
use froth.Value.{is_object_ref}
use froth.Objects.{
  Runtime, Object, Body, free_object, text_object, cells_object, code_object, native_object,
  record_def_object, record_object, object_at, get_live_object_id,
}
use froth.Objects.Cells.{add_free_span}
use froth.Objects.Append.{IsValid}
use froth.Objects.Release.{
  World, Outcome, done, cell_value, zero_cell, field_value, release_cells, release_fields,
  finish_teardown, release_storage, release_bytes, clear_body, clear_live_object, drop_reference,
  release_id, release,
}
use froth.Objects.Release.Keeps.{
  refs, Kept, Ends, Kept-refl, Kept-trans, Ends-trans, Ends-continue, dropped-refs, dropped-at,
  drop-Kept, teardown-Kept,
}

-- A release that ends wherever the references are below a bound.
abbrev EndsBelow : ℕ → (ℕ → World → Outcome) → Type 0
EndsBelow n rel = (v : ℕ) (w : World) → refs w < n → Ends w (rel v w)

module _ (rel : ℕ → World → Outcome) (n : ℕ) (ends : EndsBelow n rel) where
  release_cells-Ends : (left i : ℕ) (w : World) → refs w < n → Ends w (release_cells rel left i w)
  unfolding release_cells
  release_cells-Ends zero i w h = Kept-refl w
  release_cells-Ends (suc left) i w h =
      Ends-continue w w (rel (cell_value i w) w) _ (Kept-refl w) (ends (cell_value i w) w h) λ w' k.
        let zeroed : Kept w' (zero_cell i w') = record {
          fewer = omega arith;
          frozen = λ id q. refl;
          valid = λ v. v;
        } in
        Ends-trans w (zero_cell i w') _ (Kept-trans w w' (zero_cell i w') k zeroed)
          (release_cells-Ends left (i + 1) (zero_cell i w') (omega (arith, k.fewer)))

  release_fields-Ends :
      (left place : ℕ) (w : World) → refs w < n → Ends w (release_fields rel left place w)
  unfolding release_fields
  release_fields-Ends zero place w h = Kept-refl w
  release_fields-Ends (suc left) place w h =
      Ends-continue w w (rel (field_value place w) w) _ (Kept-refl w)
        (ends (field_value place w) w h)
        λ w' k.
          Ends-trans w w' _ k (release_fields-Ends left (place + 4) w' (omega (arith, k.fewer)))

  module _ (alignment size_max id : ℕ) (w : World) (alive : (object_at w.runtime id).live ≡ true)
      (counted : (object_at w.runtime id).refcount ≢ 0) (few : refs (drop_reference id w) < n)
      (last : (object_at (drop_reference id w).runtime id).refcount ≡ 0) where
    torn :
        (w' : World)
        → Kept (drop_reference id w) w'
        → Kept w (finish_teardown alignment size_max id w')
    torn w' k = teardown-Kept id w alive counted alignment size_max w' last k

    with_bytes :
        (s : Span) (w' : World)
        → Kept (drop_reference id w) w'
        → Kept (drop_reference id w) (release_bytes alignment size_max s w')
    with_bytes s w' k = record {
      fewer = k.fewer;
      frozen = k.frozen;
      valid = λ v.
          let u = k.valid v in record { counted = u.counted; within = u.within; marked = u.marked };
    }

    -- Changes of the heaps of bytes and of cells keep the table.
    with_storage :
        (b : Body) (w' : World)
        → Kept (drop_reference id w) w'
        → Kept (drop_reference id w) (release_storage alignment size_max b w')
    with_storage (text_object s m) w' k = with_bytes s w' k
    with_storage (cells_object s) w' k = k
    with_storage (code_object s a l c) w' k = elim (Bool-cases (ltb 0 s.length)) [
      | inl e ↦ rw e (with_bytes s w' k)
      | inr e ↦ rw e k
    ]
    with_storage (record_def_object s m) w' k = with_bytes s w' k
    with_storage (record_object s d m) w' k = with_bytes s w' k
    with_storage (native_object f c m a) w' k = k
    with_storage free_object w' k = k

    abbrev start : World
    start = drop_reference id w

    begin : Kept w start
    begin = drop-Kept id w alive counted

    clear_body-Ends : (b : Body) → Ends w (clear_body alignment size_max rel b id start)
    unfolding clear_body
    clear_body-Ends (cells_object s) =
        Ends-continue w start (release_cells rel s.length s.offset start) _ begin
          (release_cells-Ends s.length s.offset start few)
          λ w' k.
            torn (record w' { heap = add_free_span s w'.heap })
              (record { fewer = k.fewer; frozen = k.frozen; valid = k.valid })
    clear_body-Ends (record_object s d m) =
        Ends-continue w start (release_fields rel m s.offset start) _ begin
          (release_fields-Ends m s.offset start few)
          λ w' k.
            Ends-continue w w' (rel d w') _ (Kept-trans w start w' begin k)
              (ends d w' (omega (arith, k.fewer, few)))
              λ w'' l. torn _ (with_storage (record_object s d m) w'' (Kept-trans start w' w'' k l))
    clear_body-Ends free_object = torn _ (Kept-refl start)
    clear_body-Ends (text_object s m) = torn _ (with_storage (text_object s m) _ (Kept-refl start))
    clear_body-Ends (code_object s a l b) =
        torn _ (with_storage (code_object s a l b) _ (Kept-refl start))
    clear_body-Ends (native_object f c m a) = torn _ (Kept-refl start)
    clear_body-Ends (record_def_object s m) =
        torn _ (with_storage (record_def_object s m) _ (Kept-refl start))

    clear_live_object-Ends : Ends w (clear_live_object alignment size_max rel id start)
    unfolding clear_live_object
    clear_live_object-Ends =
        let alive' : (object_at start.runtime id).live ≡ true =
          ap (λ (o : Object). o.live) (dropped-at id w alive counted) ∙ alive in
        simp alive' (clear_body-Ends (object_at start.runtime id).body)

live_of :
    (rt : Runtime) (value id : ℕ)
    → get_live_object_id rt value ≡ ok id
    → (object_at rt id).live ≡ true
unfolding get_live_object_id
live_of rt value id e = ground arith

release_id-Ends :
    (alignment size_max : ℕ) (rel : ℕ → World → Outcome) (n : ℕ) (r : Result ℕ) (value : ℕ)
    (w : World)
    → EndsBelow n rel
    → refs w < n + 1
    → get_live_object_id w.runtime value ≡ r
    → Ends w (release_id alignment size_max rel r w)
unfolding release_id
release_id-Ends alignment size_max rel n (err e) value w ends h q = Kept-refl w
release_id-Ends alignment size_max rel n (ok id) value w ends h q =
    elim (Bool-cases ((object_at w.runtime id).refcount == 0)) [
      | inl e ↦ rw e (Kept-refl w)
      | inr e ↦
          let alive = live_of w.runtime value id q in
          let counted : (object_at w.runtime id).refcount ≢ 0 = ground arith in
          let few : refs (drop_reference id w) < n =
            omega (arith, dropped-refs id w alive counted) in
          rw e (after alive counted few)
    ]
  where
    after :
        (object_at w.runtime id).live ≡ true
        → (object_at w.runtime id).refcount ≢ 0
        → refs (drop_reference id w) < n
        → Ends w (
            if ltb 0 ((object_at w.runtime id).refcount - 1)
            then done (drop_reference id w)
            else clear_live_object alignment size_max rel id (drop_reference id w))
    after alive counted few = elim (Bool-cases (ltb 0 ((object_at w.runtime id).refcount - 1))) [
      | inl e ↦ rw e (drop-Kept id w alive counted)
      | inr e ↦
          let left : (object_at w.runtime id).refcount - 1 ≡ 0 = ground arith in
          rw e (
            clear_live_object-Ends rel n ends alignment size_max id w alive counted few
              (ap (λ (o : Object). o.refcount) (dropped-at id w alive counted) ∙ left))
    ]

-- The recursion on the fuel.
release-Ends :
    (alignment size_max fuel value : ℕ) (w : World)
    → refs w < fuel
    → Ends w (release alignment size_max fuel value w)
unfolding release
release-Ends alignment size_max zero value w h = elim h [ ]
release-Ends alignment size_max (suc fuel) value w h = elim (Bool-cases (is_object_ref value)) [
  | inl e ↦ rw e (
      release_id-Ends alignment size_max (release alignment size_max fuel) fuel
        (get_live_object_id w.runtime value) value w
        (λ v w' h'. release-Ends alignment size_max fuel v w' h') (omega arith) refl)
  | inr e ↦ rw e (Kept-refl w)
]

returned :
    (w : World) (o : Outcome) (id : ℕ)
    → Ends w o
    → IsValid w.runtime
    → (object_at w.runtime id).refcount ≡ 0
    → (r : Result (Unit {0})) × (w' : World) × (o ≡ some (r, w'))
      × (refs w' ≤ refs w)
      × (object_at w'.runtime id ≡ object_at w.runtime id)
      × IsValid w'.runtime
returned w none id e v h = elim e [ ]
returned w (some (r, w')) id k v h = (r, w', refl, k.fewer, k.frozen id h, k.valid v)

-- A release with more fuel than there are counted references returns, whatever the objects hold and
-- however they refer to one another, with success or with an error. It adds no reference, does not
-- touch an object whose count is 0, and keeps the table of objects valid.
pub release_lem :
    (alignment size_max fuel value id : ℕ) (w : World)
    → IsValid w.runtime
    → refs w < fuel
    → (object_at w.runtime id).refcount ≡ 0
    → (r : Result (Unit {0})) × (w' : World) × (release alignment size_max fuel value w
        ≡ some (r, w'))
      × (refs w' ≤ refs w)
      × (object_at w'.runtime id ≡ object_at w.runtime id)
      × IsValid w'.runtime
release_lem alignment size_max fuel value id w v few frozen =
    returned w (release alignment size_max fuel value w) id
      (release-Ends alignment size_max fuel value w few) v frozen
