-- ===== src/Objects/Append.antt =====
-- The table of objects under frothy_runtime_append_object and frothy_value_retain.
use froth.Base.{
  ℕ, zero, suc, ◌+◌, ◌<◌, ◌≤◌, ◌≡◌, ◌≢◌, refl, ap, Bool, true, false, ◌&&◌, ◌||◌, Option, none,
  some, List, [], ◌∷◌, ◌++◌, arith, ltb, leb, ◌==◌, if◌then◌else◌, length, get_or, set, Bool-cases,
  inl, inr, length-set, length-append, get_or-past, get_or-set_self, get_or-set_ne,
}
use froth.Status.{Result, ok, err, heap_out_of_memory}
use froth.Value.{object_value}
use froth.Objects.{
  Runtime, Object, Body, object_at, no_object, installed, first_dead, append_at, append_object,
  install_object, least,
}

abbrev pub count_live : List Object → ℕ
count_live [] = 0
count_live (o ∷ os) = (if o.live then 1 else 0) + count_live os

-- A table as its operations keep it.
pub record IsValid (rt : Runtime) : Type 0 where
  pub counted : rt.live_object_count ≡ count_live rt.objects
  pub within : length rt.objects ≤ rt.object_capacity
  pub marked : length rt.objects ≤ rt.object_high_water

-- Every id is live and the limit is reached.
abbrev pub is_full : Runtime → Bool
is_full rt =
    count_live rt.objects == length rt.objects
    && (leb rt.object_limit (length rt.objects) || leb rt.object_capacity (length rt.objects))

-- An object that was added, at an id where none was live; every other id keeps its object, and
-- the payload is not touched. No failure was asked for, and the table was not full.
pub record Appended (body : Body) (rt : Runtime) (value : ℕ) (rt' : Runtime) : Type 0 where
  pub id : ℕ
  pub reference : value ≡ object_value id
  pub was_dead : (object_at rt id).live ≡ false
  pub in_table : id < length rt'.objects
  pub in_capacity : id < rt.object_capacity
  pub present : object_at rt' id ≡ installed body
  pub others : (j : ℕ) → id ≢ j → object_at rt' j ≡ object_at rt j
  pub table_grows : length rt.objects ≤ length rt'.objects
  pub same_payload : rt'.payload ≡ rt.payload
  pub same_bytes : rt'.payload_bytes ≡ rt.payload_bytes
  pub allowed : (rt.fail_next_append || is_full rt) ≡ false
  pub valid : IsValid rt'

-- What an append may return: an object that was added, or `heap_out_of_memory`, the table as it was,
-- if a failure was asked for or every id is live and its limit or its capacity is reached.
abbrev pub Outcome : Body → Runtime → Result ℕ × Runtime → Type 0
Outcome body rt (ok value, rt') = Appended body rt value rt'
Outcome body rt (err e, rt') =
    (e ≡ heap_out_of_memory)
    × (rt' ≡ record rt { fail_next_append = false })
    × ((rt.fail_next_append || is_full rt) ≡ true)

-- What the search for an id that is not live finds.
abbrev Found : ℕ → List Object → Option ℕ → Type 0
Found base os none = count_live os ≡ length os
Found base os (some id) =
    (k : ℕ) × (id ≡ base + k) × (k < length os) × ((get_or os k no_object).live ≡ false)

Found-step :
    (base : ℕ) (o : Object) (os : List Object) (r : Option ℕ)
    → o.live ≡ true
    → Found (base + 1) os r
    → Found base (o ∷ os) r
Found-step base o os none l f = ground arith
Found-step base o os (some id) l f = (suc f.0, omega (arith, f.1), omega (arith, f.2), f.3)

first_dead-Found : (base : ℕ) (os : List Object) → Found base os (first_dead base os)
first_dead-Found base [] = refl
first_dead-Found base (o ∷ os) = elim (Bool-cases o.live) [
  | inl e ↦
      simp e (Found-step base o os (first_dead (base + 1) os) e (first_dead-Found (base + 1) os))
  | inr e ↦ simp e (0, omega arith, omega arith, e)
]

count_live-set :
    (os : List Object) (i : ℕ) (o : Object)
    → i < length os
    → (get_or os i no_object).live ≡ false
    → o.live ≡ true
    → count_live (set os i o) ≡ count_live os + 1
count_live-set [] i o h d l = elim h [ ]
count_live-set (x ∷ os) zero o h d l = ground arith
count_live-set (x ∷ os) (suc i) o h d l = ground (arith, count_live-set os i o)

count_live-append :
    (os : List Object) (o : Object) → o.live ≡ true → count_live (os ++ o ∷ []) ≡ count_live os + 1
count_live-append [] o l = ground arith
count_live-append (x ∷ os) o l = ground (arith, count_live-append os o l)

get_or-append :
    (os : List Object) (o : Object) (j : ℕ)
    → get_or (os ++ o ∷ []) j no_object ≡ (if j == length os then o else get_or os j no_object)
get_or-append [] o zero = refl
get_or-append [] o (suc j) = ground arith
get_or-append (x ∷ os) o zero = ground arith
get_or-append (x ∷ os) o (suc j) = ground (arith, get_or-append os o j)

count_live-le : (os : List Object) → count_live os ≤ length os
count_live-le [] = omega arith
count_live-le (o ∷ os) = ground (arith, count_live-le os)

count_live-lt :
    (os : List Object) (i : ℕ)
    → i < length os
    → (get_or os i no_object).live ≡ false
    → count_live os < length os
count_live-lt [] i h d = elim h [ ]
count_live-lt (o ∷ os) zero h d = ground (arith, count_live-le os)
count_live-lt (o ∷ os) (suc i) h d = ground (arith, count_live-lt os i)

module _ (body : Body) (rt : Runtime) (v : IsValid rt) where
  -- The search found an id.
  install-Appended :
      (id : ℕ)
      → id < length rt.objects
      → (object_at rt id).live ≡ false
      → rt.fail_next_append ≡ false
      → Appended body rt (object_value id) (install_object id body rt).1
  install-Appended id h d asked = record {
    allowed = let fewer = count_live-lt rt.objects id h d in ground arith;
    id = id;
    reference = refl;
    was_dead = d;
    in_table = omega (arith, length-set rt.objects id (installed body));
    in_capacity = omega (arith, v.within);
    present = get_or-set_self rt.objects id (installed body) no_object h;
    others = λ j n. get_or-set_ne rt.objects id j (installed body) no_object n;
    table_grows = omega (arith, length-set rt.objects id (installed body));
    same_payload = refl;
    same_bytes = refl;
    valid = record {
      counted = omega (arith, v.counted, count_live-set rt.objects id (installed body) h d refl);
      within = omega (arith, v.within, length-set rt.objects id (installed body));
      marked = omega (arith, v.marked, length-set rt.objects id (installed body));
    };
  }

  abbrev grown : Runtime
  grown = record rt {
    objects = rt.objects ++ installed body ∷ [];
    live_object_count = rt.live_object_count + 1;
    object_high_water =
        if ltb rt.object_high_water (length rt.objects + 1)
        then length rt.objects + 1
        else rt.object_high_water;
  }

  -- Every id is live, and there is room for one more.
  grow-Appended :
      length rt.objects < rt.object_capacity
      → length rt.objects < rt.object_limit
      → rt.fail_next_append ≡ false
      → Appended body rt (object_value (length rt.objects)) grown
  grow-Appended room below asked =
      let size = length-append rt.objects (installed body ∷ []) in
      record {
        id = length rt.objects;
        allowed = ground arith;
        reference = refl;
        was_dead =
            ap (λ (o : Object). o.live)
              (get_or-past rt.objects (length rt.objects) no_object (omega arith));
        in_table = omega (arith, size);
        in_capacity = room;
        present = ground (arith, get_or-append rt.objects (installed body) (length rt.objects));
        others = λ j n. ground (arith, get_or-append rt.objects (installed body) j);
        table_grows = omega (arith, size);
        same_payload = refl;
        same_bytes = refl;
        valid = record {
          counted = omega (arith, v.counted, count_live-append rt.objects (installed body) refl);
          within = omega (arith, size);
          marked = ground (arith, size);
        };
      }

  append_at-Outcome :
      (r : Option ℕ)
      → rt.fail_next_append ≡ false
      → Found 0 rt.objects r
      → Outcome body rt (append_at r body rt)
  append_at-Outcome (some id) asked f =
      let place : id ≡ f.0 = omega (arith, f.1) in
      install-Appended id (omega (arith, f.1, f.2)) (rw place f.3) asked
  append_at-Outcome none asked f =
      elim (Bool-cases (leb (least rt.object_limit rt.object_capacity) (length rt.objects))) [
        | inl full ↦
            rw full
              (refl, ap (λ (b : Bool). record rt { fail_next_append = b }) asked, ground (arith, f))
        | inr room ↦
            let small : ltb rt.object_capacity (length rt.objects + 1) ≡ false = ground arith in
            rw (room, small) (grow-Appended (ground arith) (ground arith) asked)
      ]

  -- Adding an object to a valid table makes it live with one reference, at an id where none was
  -- live, and keeps the table valid and all other objects as they are; it fails, and adds nothing,
  -- exactly if a failure was asked for, or every id is live and the limit or the capacity of the
  -- table is reached.
  pub append_object-Outcome : Outcome body rt (append_object body rt)
  unfolding append_object
  append_object-Outcome = elim (Bool-cases rt.fail_next_append) [
    | inl asked ↦ simp asked (refl, refl, refl)
    | inr e ↦ simp e (append_at-Outcome (first_dead 0 rt.objects) e (first_dead-Found 0 rt.objects))
  ]
