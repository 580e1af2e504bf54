-- ===== src/Objects/Equal.antt =====
-- Equality of values in src/frothy_value.c.
use froth.Base.{
  ℕ, ◌≡◌, refl, Bool, true, false, ◌&&◌, ◌||◌, List, [], ◌∷◌, take, drop, arith, ◌==◌,
  if◌then◌else◌, Bool-cases, inl, inr,
}
use froth.Status.{Result, ok, err, type_mismatch, ◌>>=◌}
use froth.Value.{is_int, is_bool, is_nil, is_object_ref, is_slot_designator, slot_index}
use froth.Objects.{
  Runtime, ValueClass, int_class, bool_class, nil_class, compare_classes, compare_objects,
  free_object, cells_object, code_object, native_object, record_def_object, record_object,
  value_class, get_text, value_equals, class_number, same_text, kind_of, get_live_object_id,
  get_object, class_of, text_bytes, object_at, Body, text_object,
}

same_text_comm : (xs ys : List ℕ) → same_text xs ys ≡ same_text ys xs
same_text_comm [] [] = refl
same_text_comm [] (y ∷ ys) = refl
same_text_comm (x ∷ xs) [] = refl
same_text_comm (x ∷ xs) (y ∷ ys) = ground (arith, same_text_comm xs ys)

designators :
    {l l' k k' : Bool} {x y : Result Bool} (s t : Bool)
    → l ≡ l'
    → k ≡ k'
    → x ≡ y
    → (if l then ok true else if s || t then ok ((s && t) && k) else x)
      ≡ (if l' then ok true else if t || s then ok ((t && s) && k') else y)
designators true true p q r = rw (p, q) refl
designators true false p q r = rw p refl
designators false true p q r = rw p refl
designators false false p q r = rw (p, r) refl

module _ (rt : Runtime) where
  -- A value of the class of texts has a text.
  class_text :
      (b : Body) (c : ValueClass)
      → class_of b ≡ ok c
      → (class_number c == 3) ≡ true
      → (t : List ℕ) × (((if kind_of b == 1 then ok b else err type_mismatch) >>= text_bytes rt)
          ≡ ok t)
  class_text free_object c e k = cc
  class_text (text_object s n) c e k = (take n (drop s.offset rt.payload_bytes), refl)
  class_text (cells_object s) c e k = absurd (ground (arith, e, k))
  class_text (code_object s arity local_count body) c e k = absurd (ground (arith, e, k))
  class_text (native_object f context name arity) c e k = absurd (ground (arith, e, k))
  class_text (record_def_object s n) c e k = absurd (ground (arith, e, k))
  class_text (record_object s definition n) c e k = absurd (ground (arith, e, k))

  abbrev tagged : Bool → Bool → Bool → Bool → Bool → Result ℕ → Result ValueClass
  tagged is_i is_b is_n is_s is_o r =
      if is_i
      then ok int_class
      else if is_b
      then ok bool_class
      else if is_n
      then ok nil_class
      else if is_s
      then err type_mismatch
      else if is_o
      then r >>= (λ id. class_of (object_at rt id).body)
      else err type_mismatch

  tagged_text :
      (is_i is_b is_n is_s is_o : Bool) (r : Result ℕ) (c : ValueClass)
      → tagged is_i is_b is_n is_s is_o r ≡ ok c
      → (class_number c == 3) ≡ true
      → (t : List ℕ) × (((r >>= λ id.
              if kind_of (object_at rt id).body == 1
              then ok (object_at rt id).body
              else err type_mismatch)
            >>= text_bytes rt)
          ≡ ok t)
  tagged_text true b n s o r c e k = absurd (ground (arith, e, k))
  tagged_text false true n s o r c e k = absurd (ground (arith, e, k))
  tagged_text false false true s o r c e k = absurd (ground (arith, e, k))
  tagged_text false false false true o r c e k = cc
  tagged_text false false false false false r c e k = cc
  tagged_text false false false false true (err x) c e k = cc
  tagged_text false false false false true (ok id) c e k = class_text (object_at rt id).body c e k

  text_of :
      (v : ℕ) (c : ValueClass)
      → value_class rt v ≡ ok c
      → (class_number c == 3) ≡ true
      → (t : List ℕ) × (get_text rt v ≡ ok t)
  unfolding value_class get_text get_object
  text_of v c e k =
      tagged_text (is_int v) (is_bool v) (is_nil v) (is_slot_designator v) (is_object_ref v)
        (get_live_object_id rt v) c e k

  compare_classes_comm :
      (a b : ValueClass) (s t : Result (List ℕ))
      → ((class_number a == 3) ≡ true → (x : List ℕ) × (s ≡ ok x))
      → ((class_number b == 3) ≡ true → (y : List ℕ) × (t ≡ ok y))
      → compare_classes a b s t ≡ compare_classes b a t s
  compare_classes_comm a b (ok x) (ok y) f g = ground (arith, same_text_comm x y)
  compare_classes_comm a b (err e) t f g = elim (Bool-cases (class_number a == 3)) [
    | inl h ↦ let x = f h in cc
    | inr h ↦ ground (arith, h)
  ]
  compare_classes_comm a b (ok x) (err e) f g = elim (Bool-cases (class_number b == 3)) [
    | inl h ↦ let y = g h in cc
    | inr h ↦ ground (arith, h)
  ]

  -- Whether two values that have a class are equal does not depend on their order.
  pub value_equals_comm :
      (lhs rhs : ℕ) (a b : ValueClass)
      → value_class rt lhs ≡ ok a
      → value_class rt rhs ≡ ok b
      → value_equals rt lhs rhs ≡ value_equals rt rhs lhs
  unfolding value_equals
  value_equals_comm lhs rhs a b ca cb =
      let swapped : compare_objects rt lhs rhs (value_class rt lhs) (value_class rt rhs)
          ≡ compare_objects rt rhs lhs (value_class rt rhs) (value_class rt lhs) =
        simp (ca, cb)
          (compare_classes_comm a b (get_text rt lhs) (get_text rt rhs) (text_of lhs a ca)
            (text_of rhs b cb)) in
      let identical : (lhs == rhs) ≡ (rhs == lhs) = ground arith in
      let index : (slot_index lhs == slot_index rhs) ≡ (slot_index rhs == slot_index lhs) =
        ground arith in
      designators (is_slot_designator lhs) (is_slot_designator rhs) identical index swapped
