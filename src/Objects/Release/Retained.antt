-- ===== src/Objects/Release/Retained.antt =====
-- A release that takes back a retain, in src/frothy_value.c.
use froth.Base.{
  ℕ, zero, suc, ◌+◌, ◌-◌, ◌<◌, ◌≡◌, ◌≢◌, refl, sym, ap, ◌∙◌, true, false, List, [], ◌∷◌, arith, ltb,
  ◌==◌, length, get_or, set, Bool-cases, inl, inr, length-set, get_or-set_self,
}
use froth.Status.{Result, ok, err, heap_out_of_memory}
use froth.Value.{is_object_ref}
use froth.Objects.{Runtime, Object, object_at, no_object, get_live_object_id, retain, retain_id}
use froth.Objects.Retain.{counted_up}
use froth.Objects.Release.{Outcome, done, release, release_id}
use froth.Objects.Cells.{CellHeap}

set_back :
    (os : List Object) (i : ℕ) (o : Object)
    → i < length os
    → set (set os i o) i (get_or os i no_object) ≡ os
set_back [] i o h = refl
set_back (x ∷ os) zero o h = refl
set_back (x ∷ os) (suc i) o h = ap (λ (t : List Object). x ∷ t) (set_back os i o (omega arith))

module _ (rt : Runtime) (value : ℕ) where
  abbrev pub raised : ℕ → Runtime
  raised id = record rt { objects = set rt.objects id (counted_up (object_at rt id)) }

  inside : (id : ℕ) → get_live_object_id rt value ≡ ok id → id < length rt.objects
  unfolding get_live_object_id
  inside id e = ground arith

  live_after :
      (id : ℕ) → get_live_object_id rt value ≡ ok id → get_live_object_id (raised id) value ≡ ok id
  unfolding get_live_object_id
  live_after id e = ground (
    arith,
    length-set rt.objects id (counted_up (object_at rt id)),
    get_or-set_self rt.objects id (counted_up (object_at rt id)) no_object,
  )

  raised_by :
      (r : Result ℕ) (rt' : Runtime)
      → retain_id r rt ≡ (ok tt, rt')
      → (id : ℕ) × (r ≡ ok id) × (raised id ≡ rt')
  raised_by (err x) rt' e =
      let same : err x ≡ ok tt = ap (λ (t : Result (Unit {0}) × Runtime). t.0) e in cc
  raised_by (ok id) rt' e = elim (Bool-cases ((object_at rt id).refcount == 0xFFFF_FFFF)) [
    | inl full ↦
        let failed : retain_id (ok id) rt ≡ (err heap_out_of_memory, rt) = rw full refl in
        let same : err heap_out_of_memory ≡ ok tt =
          ap (λ (t : Result (Unit {0}) × Runtime). t.0) (sym failed ∙ e) in
        cc
    | inr room ↦
        let kept : retain_id (ok id) rt ≡ (ok tt, raised id) = rw room refl in
        (id, refl, ap (λ (t : Result (Unit {0}) × Runtime). t.1) (sym kept ∙ e))
  ]

  module _ (alignment size_max fuel : ℕ) (heap : CellHeap) where
    taken_back :
        (id : ℕ)
        → get_live_object_id rt value ≡ ok id
        → (object_at rt id).refcount ≢ 0
        → release_id alignment size_max
            (release alignment size_max fuel)
            (ok id)
            (record { runtime = raised id; heap = heap })
          ≡ done (record { runtime = rt; heap = heap })
    unfolding release_id
    taken_back id e counted =
        let o : Object = object_at rt id in
        let up : List Object = set rt.objects id (counted_up o) in
        let at : get_or up id no_object ≡ counted_up o =
          get_or-set_self rt.objects id (counted_up o) no_object (inside id e) in
        let some_left : ((get_or up id no_object).refcount == 0) ≡ false =
          ground (arith, ap (λ (x : Object). x.refcount) at) in
        let more_left : ltb 0 ((get_or up id no_object).refcount - 1) ≡ true =
          ground (arith, ap (λ (x : Object). x.refcount) at) in
        let back : o.refcount + 1 - 1 ≡ o.refcount = omega arith in
        simp (some_left, more_left)
          (ap
            (λ (os : List Object).
              done (record { runtime = record rt { objects = os }; heap = heap }))
            (ap (λ (x : Object). set up id (record x { refcount = x.refcount - 1 })) at
              ∙ ap (λ (n : ℕ). set up id (record o { refcount = n })) back
              ∙ set_back rt.objects id (counted_up o) (inside id e)))

    taken_back_value :
        (rt' : Runtime) (id : ℕ)
        → is_object_ref value ≡ true
        → get_live_object_id rt value ≡ ok id
        → raised id ≡ rt'
        → (object_at rt id).refcount ≢ 0
        → release alignment size_max (suc fuel) value (record { runtime = rt'; heap = heap })
          ≡ done (record { runtime = rt; heap = heap })
    unfolding release
    taken_back_value rt' id o q same counted =
        ap
          (λ (r : Runtime).
            release alignment size_max (suc fuel) value (record { runtime = r; heap = heap }))
          (sym same)
        ∙ (rw (o, live_after id q) (taken_back id q counted))

    -- Where a retain succeeded, of a value whose object was counted, the release of the same value
    -- succeeds and gives back the runtime as it was before.
    pub release-retain :
        (rt' : Runtime)
        → retain value rt ≡ (ok tt, rt')
        → ((id : ℕ) → get_live_object_id rt value ≡ ok id → (object_at rt id).refcount ≢ 0)
        → release alignment size_max (suc fuel) value (record { runtime = rt'; heap = heap })
          ≡ done (record { runtime = rt; heap = heap })
    unfolding release retain
    release-retain rt' e counted = elim (Bool-cases (is_object_ref value)) [
      | inl o ↦
          let kept : retain value rt ≡ retain_id (get_live_object_id rt value) rt = rw o refl in
          let (id, q, same) = raised_by (get_live_object_id rt value) rt' (sym kept ∙ e) in
          taken_back_value rt' id o q same (counted id q)
      | inr o ↦
          let kept : retain value rt ≡ (ok tt, rt) = rw o refl in
          ap again (ap (λ (t : Result (Unit {0}) × Runtime). t.1) (sym e ∙ kept)) ∙ (rw o refl)
    ]
      where
        again : Runtime → Outcome
        again r = release alignment size_max (suc fuel) value (record { runtime = r; heap = heap })
