-- ===== src/Objects/Retain.antt =====
-- References to objects in src/frothy_value.c.
use froth.Base.{
  ℕ, zero, suc, ◌+◌, ◌^◌, ◌<◌, ◌≡◌, ◌≢◌, refl, ◌∙◌, true, false, List, [], ◌∷◌, arith, leb, ◌==◌,
  if◌then◌else◌, length, get_or, set, length-set, get_or-set_self, get_or-set_ne,
}
use froth.Status.{ok, err, heap_out_of_memory}
use froth.Value.{object_value}
use froth.Value.Tags.{references}
use froth.Objects.{Runtime, Object, object_at, no_object, retain}
use froth.Objects.Append.{IsValid, count_live}

count_live-kept :
    (os : List Object) (i : ℕ) (o : Object)
    → o.live ≡ (get_or os i no_object).live
    → count_live (set os i o) ≡ count_live os
count_live-kept [] i o e = refl
count_live-kept (x ∷ os) zero o e = ground (arith, e)
count_live-kept (x ∷ os) (suc i) o e = ground (arith, count_live-kept os i o e)

abbrev pub counted_up : Object → Object
counted_up o = record o { refcount = o.refcount + 1 }

module _ (rt : Runtime) (v : IsValid rt) (id : ℕ) (small : id < 2 ^ 30)
    (inside : id < length rt.objects) (alive : (object_at rt id).live ≡ true) where
  abbrev after : Runtime
  after = record rt { objects = set rt.objects id (counted_up (object_at rt id)) }

  retain-eq : retain (object_value id) rt ≡ (
      if (object_at rt id).refcount == 0xFFFF_FFFF
      then (err heap_out_of_memory, rt)
      else (ok tt, after))
  unfolding retain
  retain-eq =
      let r = references id small in
      let known : leb (length rt.objects) id ≡ false = ground arith in
      simp (r.0, r.1, known, alive) refl

  -- A retain of a live object of a valid table adds one to its references, keeps every other object
  -- and the table valid; at the largest count it fails and changes nothing.
  pub retain_lem :
      ((object_at rt id).refcount ≡ 0xFFFF_FFFF
        → retain (object_value id) rt ≡ (err heap_out_of_memory, rt))
      × ((object_at rt id).refcount ≢ 0xFFFF_FFFF
          → (retain (object_value id) rt ≡ (ok tt, after))
            × (object_at after id ≡ counted_up (object_at rt id))
            × ((j : ℕ) → id ≢ j → object_at after j ≡ object_at rt j)
            × IsValid after)
  retain_lem = (
    λ e.
        let full : ((object_at rt id).refcount == 0xFFFF_FFFF) ≡ true = ground arith in
        retain-eq ∙ (rw full refl),
    λ n.
        let room : ((object_at rt id).refcount == 0xFFFF_FFFF) ≡ false = ground arith in
        (
          retain-eq ∙ (rw room refl),
          get_or-set_self rt.objects id (counted_up (object_at rt id)) no_object inside,
          λ j m. get_or-set_ne rt.objects id j (counted_up (object_at rt id)) no_object m,
          record {
            counted = omega (
              arith,
              v.counted,
              count_live-kept rt.objects id (counted_up (object_at rt id)) refl,
            );
            within =
                omega (arith, v.within, length-set rt.objects id (counted_up (object_at rt id)));
            marked =
                omega (arith, v.marked, length-set rt.objects id (counted_up (object_at rt id)));
          },
        ),
  )
