-- ===== src/Codec/Values/RoundTrip.antt =====
-- Values of src/frothy_snapshot_codec.c are decoded as they were written.
use froth.Base.{
  ℕ, ◌^◌, ◌<◌, ◌≡◌, refl, sym, ap, ◌∙◌, Bool, true, false, not, ◌||◌, Option, none, some, List,
  ◌++◌, arith, leb, if◌then◌else◌, length, get_or, drop, Bool-cases, inl, inr,
}
use froth.Base.Int.{IsInt32}
use froth.Status.{Result, ok, err, bounds, type_mismatch}
use froth.Value.{
  is_object_ref, object_index, is_int, is_nil, is_bool, as_int, as_bool, make_nil, make_bool,
}
use froth.Value.Ints.{make_int-as_int}
use froth.Objects.{Runtime, object_at}
use froth.Codec.Measure.Agrees.{not_ok}
use froth.Codec.Put.{Put, Writer, ◌>>◌, write_u8, write_u32, write_i32}
use froth.Codec.Get.{Get}
use froth.Codec.Transmit.{Sends, Sends-next, Sends-last}
use froth.Codec.Fields.{u8-Sends, u32-Sends, i32-Sends, received}
use froth.Codec.Nodes.{indexed}
use froth.Codec.Values.{
  ObjectTable, objects_lookup, encode_object_ref, encode_found, write_value, decode_tag, read_value,
  made,
}

as_int-IsInt32 : (v : ℕ) → v < 2 ^ 32 → IsInt32 (as_int v)
unfolding as_int
as_int-IsInt32 v h = ground arith

Sends-through :
    {A : Type 0} (r : Result ℕ) (k : ℕ → Put) (d : Get (List ℕ) A) (a : A)
    → ((i : ℕ) → r ≡ ok i → Sends (k i) d a)
    → Sends (indexed r k) d a
Sends-through (ok i) k d a h = h i refl
Sends-through (err e) k d a h = record {
  run = λ w w' q. let bad : err e ≡ ok tt = ap (λ (t : Result (Unit {0}) × Writer). t.0) q in cc;
}

truth : (v : ℕ) → as_bool v ≡ true → make_bool true ≡ v
unfolding as_bool make_bool
truth v e = ground arith

falsity : (v : ℕ) → is_bool v ≡ true → as_bool v ≡ false → make_bool false ≡ v
unfolding is_bool as_bool make_bool
falsity v e h = ground arith

module _ (size_max capacity : ℕ) (rt : Runtime) (t : ObjectTable) (objects : List ℕ) where
  -- A number, nil or a truth value stays the same; a reference becomes the object that was decoded for
  -- the number that the writer gave it.
  abbrev pub moved_to : ℕ → Option ℕ → ℕ × Bool
  moved_to value none = (value, false)
  moved_to value (some i) = (get_or objects i 0, true)

  unfoldable pub moved : ℕ → ℕ × Bool
  unfolding objects_lookup
  moved value =
      if is_int value || is_nil value || is_bool value
      then (value, false)
      else moved_to value (objects_lookup size_max capacity t (object_index value))

  encode_found-lookup :
      (id : ℕ) (o : Option ℕ) (i : ℕ) → encode_found size_max capacity rt id o ≡ ok i → o ≡ some i
  encode_found-lookup id none i e = not_ok _ i e
  encode_found-lookup id (some j) i e =
      elim (Bool-cases (leb (length rt.objects) id || not (object_at rt id).live)) [
        | inl h ↦
            let gone : encode_found size_max capacity rt id (some j) ≡ err bounds = rw h refl in
            not_ok bounds i (sym gone ∙ e)
        | inr h ↦
            let there : encode_found size_max capacity rt id (some j) ≡ ok j = rw h refl in
            let both : ok j ≡ ok i = sym there ∙ e in
            let same : j ≡ i = cc in ap (λ (n : ℕ). some n) same
      ]

  encode_object_ref-lookup :
      (value i : ℕ)
      → encode_object_ref size_max capacity rt t value ≡ ok i
      → objects_lookup size_max capacity t (object_index value) ≡ some i
  unfolding encode_object_ref
  encode_object_ref-lookup value i e = elim (Bool-cases (is_object_ref value)) [
    | inl h ↦
        let found : encode_object_ref size_max capacity rt t value
            ≡ encode_found size_max capacity rt (object_index value)
                (objects_lookup size_max capacity t (object_index value)) =
          rw h refl in
        encode_found-lookup (object_index value)
          (objects_lookup size_max capacity t (object_index value)) i (sym found ∙ e)
    | inr h ↦
        let wrong : encode_object_ref size_max capacity rt t value ≡ err type_mismatch =
          rw h refl in
        not_ok type_mismatch i (sym wrong ∙ e)
  ]

  int-Sends :
      (value : ℕ)
      → value < 2 ^ 32
      → is_int value ≡ true
      → Sends (write_u8 3 >> write_i32 (as_int value)) (read_value objects) (value, false)
  unfolding read_value decode_tag
  int-Sends value h e = Sends-next (u8-Sends 3 (omega arith)) _ (
      Sends-last (i32-Sends (as_int value) (as_int-IsInt32 value h)) _
        λ rest. ap (λ (r : Result ℕ). made r rest) (make_int-as_int value h e))

  nil-Sends :
      (value : ℕ) → is_nil value ≡ true → Sends (write_u8 0) (read_value objects) (value, false)
  unfolding read_value decode_tag is_nil make_nil
  nil-Sends value e =
      let same : make_nil ≡ value = ground arith in
      Sends-last (u8-Sends 0 (omega arith)) _ λ rest. ap (λ (v : ℕ). ok ((v, false), rest)) same

  bool-Sends :
      (value : ℕ)
      → is_bool value ≡ true
      → Sends (write_u8 (if as_bool value then 2 else 1)) (read_value objects) (value, false)
  unfolding read_value decode_tag
  bool-Sends value e = elim (Bool-cases (as_bool value)) [
    | inl h ↦ rw h (
        Sends-last (u8-Sends 2 (omega arith)) _
          λ rest. ap (λ (v : ℕ). ok ((v, false), rest)) (truth value h))
    | inr h ↦ rw h (
        Sends-last (u8-Sends 1 (omega arith)) _
          λ rest. ap (λ (v : ℕ). ok ((v, false), rest)) (falsity value e h))
  ]

  object-Sends :
      (value i : ℕ)
      → i < length objects
      → length objects < 2 ^ 32
      → Sends (write_u8 4 >> write_u32 i) (read_value objects) (get_or objects i 0, true)
  unfolding read_value decode_tag
  object-Sends value i inside small =
      let there : not (leb (length objects) i) ≡ true = ground arith in
      Sends-next (u8-Sends 4 (omega arith)) _
        (Sends-last (u32-Sends i (omega arith)) _ λ rest. rw there refl)

  module _
      (numbered : (id i : ℕ) → objects_lookup size_max capacity t id ≡ some i → i < length objects)
      (small : length objects < 2 ^ 32) where
    value-Sends :
        (value : ℕ)
        → value < 2 ^ 32
        → Sends (write_value size_max capacity rt t value) (read_value objects) (moved value)
    unfolding write_value moved
    value-Sends value h = elim (Bool-cases (is_int value)) [
      | inl a ↦ rw a (int-Sends value h a)
      | inr a ↦ elim (Bool-cases (is_nil value)) [
        | inl b ↦ rw (a, b) (nil-Sends value b)
        | inr b ↦ elim (Bool-cases (is_bool value)) [
          | inl c ↦ rw (a, b, c) (bool-Sends value c)
          | inr c ↦
              rw (a, b, c)
                (Sends-through (encode_object_ref size_max capacity rt t value) _
                  (read_value objects) _
                  λ i e.
                    let found = encode_object_ref-lookup value i e in
                    rw found (object-Sends value i (numbered (object_index value) i found) small))
        ]
      ]
    ]

    -- A value that is written is decoded: a number, nil or a truth value as the same value, and a
    -- reference as the object that was decoded for its number in the payload, where every number of
    -- the table has been decoded.
    pub read-write_value :
        (value : ℕ) (w w' : Writer) (rest : List ℕ)
        → value < 2 ^ 32
        → write_value size_max capacity rt t value w ≡ (ok tt, w')
        → read_value objects (drop (length w.bytes) w'.bytes ++ rest) ≡ ok (moved value, rest)
    read-write_value value w w' rest h e = received (value-Sends value h) w w' rest e
