-- ===== src/Objects/Release/Keeps.antt =====
-- What a release of src/frothy_value.c leaves alone, for the proofs about the recursion.
use froth.Base.{
  ℕ, zero, suc, ◌+◌, ◌-◌, ◌≤◌, ◌<◌, ◌≡◌, ◌≢◌, refl, ap, ◌∙◌, true, none, some, List, [], ◌∷◌, arith,
  if◌then◌else◌, length, get_or, set, length-set, get_or-set_self, get_or-set_ne,
}
use froth.Status.{ok, err}
use froth.Objects.{Object, object_at, no_object}
use froth.Objects.Append.{IsValid, count_live}
use froth.Objects.Release.{World, Outcome, continue, finish_teardown, drop_reference}

-- The references that are counted in a table.
abbrev pub count_refs : List Object → ℕ
count_refs [] = 0
count_refs (o ∷ os) = o.refcount + count_refs os

abbrev pub refs : World → ℕ
refs w = count_refs w.runtime.objects

-- No reference is added, an object whose count is 0 stays as it is, and the table stays valid.
pub record Kept (w w' : World) : Type 0 where
  pub fewer : refs w' ≤ refs w
  pub frozen :
      (id : ℕ)
      → (object_at w.runtime id).refcount ≡ 0
      → object_at w'.runtime id ≡ object_at w.runtime id
  pub valid : IsValid w.runtime → IsValid w'.runtime

-- The fuel was enough.
abbrev pub Ends : World → Outcome → Type 0
Ends w none = ⊥
Ends w (some (r, w')) = Kept w w'

pub Kept-refl : (w : World) → Kept w w
Kept-refl w = record { fewer = omega arith; frozen = λ id h. refl; valid = λ v. v }

pub Kept-trans : (a b c : World) → Kept a b → Kept b c → Kept a c
Kept-trans a b c p q = record {
  fewer = omega (arith, p.fewer, q.fewer);
  frozen = λ id h.
      let same = p.frozen id h in q.frozen id (ap (λ (o : Object). o.refcount) same ∙ h) ∙ same;
  valid = λ v. q.valid (p.valid v);
}

pub Ends-trans : (a b : World) (o : Outcome) → Kept a b → Ends b o → Ends a o
Ends-trans a b none p q = q
Ends-trans a b (some (r, c)) p q = Kept-trans a b c p q

pub Ends-continue :
    (b a : World) (o : Outcome) (k : World → Outcome)
    → Kept b a
    → Ends a o
    → ((w : World) → Kept a w → Ends b (k w))
    → Ends b (continue o k)
Ends-continue b a none k p e f = e
Ends-continue b a (some (ok u, w)) k p e f = f w e
Ends-continue b a (some (err x, w)) k p e f = Kept-trans b a w p e

count_refs-set :
    (os : List Object) (i : ℕ) (o : Object)
    → i < length os
    → count_refs (set os i o) + (get_or os i no_object).refcount ≡ count_refs os + o.refcount
count_refs-set [] i o h = elim h [ ]
count_refs-set (x ∷ os) zero o h = omega arith
count_refs-set (x ∷ os) (suc i) o h = omega (arith, count_refs-set os i o (omega arith))

count_live-set :
    (os : List Object) (i : ℕ) (o : Object)
    → i < length os
    → count_live (set os i o) + (if (get_or os i no_object).live then 1 else 0)
      ≡ count_live os + (if o.live then 1 else 0)
count_live-set [] i o h = elim h [ ]
count_live-set (x ∷ os) zero o h = omega arith
count_live-set (x ∷ os) (suc i) o h = omega (arith, count_live-set os i o (omega arith))

-- A live object is in the table.
pub live_inside : (os : List Object) (i : ℕ) → (get_or os i no_object).live ≡ true → i < length os
live_inside [] i h = cc
live_inside (x ∷ os) zero h = omega arith
live_inside (x ∷ os) (suc i) h = omega (arith, live_inside os i h)

module _ (id : ℕ) (w : World) (alive : (object_at w.runtime id).live ≡ true)
    (counted : (object_at w.runtime id).refcount ≢ 0) where
  abbrev dropped : Object
  dropped = record (object_at w.runtime id) { refcount = (object_at w.runtime id).refcount - 1 }

  inside : id < length w.runtime.objects
  inside = live_inside w.runtime.objects id alive

  pub dropped-refs : refs (drop_reference id w) + 1 ≡ refs w
  dropped-refs = omega (arith, count_refs-set w.runtime.objects id dropped inside, counted)

  pub dropped-at : object_at (drop_reference id w).runtime id ≡ dropped
  dropped-at = get_or-set_self w.runtime.objects id dropped no_object inside

  pub drop-Kept : Kept w (drop_reference id w)
  drop-Kept = record {
    fewer = omega (arith, dropped-refs);
    frozen = λ j h.
        get_or-set_ne w.runtime.objects id j dropped no_object
          (λ q. counted (ap (λ (k : ℕ). (object_at w.runtime k).refcount) q ∙ h));
    valid = λ v. record {
      counted = omega (arith, v.counted, count_live-set w.runtime.objects id dropped inside);
      within = omega (arith, v.within, length-set w.runtime.objects id dropped);
      marked = omega (arith, v.marked, length-set w.runtime.objects id dropped);
    };
  }

  -- The teardown of the object, when its references are gone and what it holds was released.
  pub teardown-Kept :
      (alignment size_max : ℕ) (w' : World)
      → (object_at (drop_reference id w).runtime id).refcount ≡ 0
      → Kept (drop_reference id w) w'
      → Kept w (finish_teardown alignment size_max id w')
  teardown-Kept alignment size_max w' none_left k =
      let same : object_at w'.runtime id ≡ dropped = k.frozen id none_left ∙ dropped-at in
      let alive' : (object_at w'.runtime id).live ≡ true =
        ap (λ (o : Object). o.live) same ∙ alive in
      let here : id < length w'.runtime.objects = live_inside w'.runtime.objects id alive' in
      record {
        fewer =
            omega (
              arith,
              drop-Kept.fewer,
              k.fewer,
              count_refs-set w'.runtime.objects id no_object here,
            );
        frozen = λ j h.
            get_or-set_ne w'.runtime.objects id j no_object no_object
              (λ q. counted (ap (λ (i : ℕ). (object_at w.runtime i).refcount) q ∙ h))
            ∙ k.frozen j (ap (λ (o : Object). o.refcount) (drop-Kept.frozen j h) ∙ h)
            ∙ drop-Kept.frozen j h;
        valid = λ v.
            let v' = k.valid (drop-Kept.valid v) in
            record {
              counted =
                  ground (
                    arith,
                    v'.counted,
                    alive',
                    count_live-set w'.runtime.objects id no_object here,
                  );
              within = omega (arith, v'.within, length-set w'.runtime.objects id no_object);
              marked = omega (arith, v'.marked, length-set w'.runtime.objects id no_object);
            };
      }
