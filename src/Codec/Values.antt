-- ===== src/Codec/Values.antt =====
-- Values in src/frothy_snapshot_codec.c: the table that numbers the objects of a payload, and the
-- writer, the check and the decoder of a value. `size_max` is SIZE_MAX, which stands for an object that
-- has no number yet, and `capacity` FROTHY_OBJECT_CAPACITY.
pub mod RoundTrip
pub mod Checked
use froth.Base.{
  ℕ, ◌+◌, ◌-◌, ◌%◌, ◌^◌, Bool, true, false, not, ◌&&◌, ◌||◌, Option, none, some, List, [], ◌∷◌,
  ◌++◌, leb, ltb, ◌==◌, if◌then◌else◌, length, get_or, set, replicate,
}
use froth.Status.{
  Exec, Result, ok, err, type_mismatch, bounds, heap_out_of_memory, snapshot_format,
  snapshot_unresolved, not_persistable,
}
use froth.Value.{
  is_object_ref, object_index, is_int, is_nil, is_bool, as_int, as_bool, make_int, make_nil,
  make_bool,
}
use froth.Objects.{Runtime, object_at, retain}
use froth.Codec.Put.{Put, Writer, ◌>>◌, write_u8, write_u32, write_i32, write_bytes}
use froth.Codec.Get.{Get, ◌>>=◌, carry, give, reject, require, read_u8, read_u32, read_i32}
use froth.Codec.Nodes.{indexed}

-- frothy_snapshot_object_table_t
pub record ObjectTable : Type 0 where
  pub items : List ℕ
  pub index_by_id : List ℕ

-- frothy_snapshot_value_tag_t
pub data ValueTag : Type 0 where
  nil_tag false_tag true_tag int_tag object_tag : ValueTag
  unknown_tag : ℕ → ValueTag

-- `(frothy_snapshot_value_tag_t)k`
abbrev pub to_tag : ℕ → ValueTag
to_tag k =
    if k == 0
    then nil_tag
    else if k == 1
    then false_tag
    else if k == 2
    then true_tag
    else if k == 3
    then int_tag
    else if k == 4
    then object_tag
    else unknown_tag k

module _ (size_max capacity : ℕ) where
  -- frothy_snapshot_objects_init
  unfoldable pub objects_init : ℕ → Result ObjectTable
  objects_init n =
      if ltb capacity n
      then err heap_out_of_memory
      else ok (record { items = []; index_by_id = replicate n size_max })

  -- frothy_snapshot_objects_lookup
  unfoldable pub objects_lookup : ObjectTable → ℕ → Option ℕ
  objects_lookup t id =
      if leb (length t.index_by_id) id || get_or t.index_by_id id size_max == size_max
      then none
      else some (get_or t.index_by_id id size_max % 2 ^ 32)

  -- frothy_snapshot_objects_add
  unfoldable pub objects_add : ℕ → Exec ObjectTable ℕ
  objects_add id t = if ltb capacity (length t.items + 1) then (err heap_out_of_memory, t) else (
    ok (length t.items % 2 ^ 32),
    record { items = t.items ++ (id ∷ []); index_by_id = set t.index_by_id id (length t.items) },
  )

  abbrev pub encode_found : Runtime → ℕ → Option ℕ → Result ℕ
  encode_found rt id none = err snapshot_unresolved
  encode_found rt id (some i) =
      if leb (length rt.objects) id || not (object_at rt id).live then err bounds else ok i

  -- frothy_snapshot_encode_object_ref
  unfoldable pub encode_object_ref : Runtime → ObjectTable → ℕ → Result ℕ
  unfolding objects_lookup
  encode_object_ref rt t value =
      if not (is_object_ref value)
      then err type_mismatch
      else encode_found rt (object_index value) (objects_lookup t (object_index value))

  -- frothy_snapshot_write_value
  unfoldable pub write_value : Runtime → ObjectTable → ℕ → Put
  unfolding encode_object_ref write_bytes
  write_value rt t value =
      if is_int value
      then (write_u8 3 >> write_i32 (as_int value))
      else if is_nil value
      then write_u8 0
      else if is_bool value
      then write_u8 (if as_bool value then 2 else 1)
      else indexed (encode_object_ref rt t value) λ i. write_u8 4 >> write_u32 i

abbrev pub made : Result ℕ → Get (List ℕ) (ℕ × Bool)
made (ok value) = give (value, false)
made (err e) = reject e

-- The switch of frothy_snapshot_decode_value up to the retain: the value, and whether it is one of the
-- decoded objects.
unfoldable pub decode_tag : List ℕ → ValueTag → Get (List ℕ) (ℕ × Bool)
unfolding read_u32
decode_tag objects nil_tag = give (make_nil, false)
decode_tag objects false_tag = give (make_bool false, false)
decode_tag objects true_tag = give (make_bool true, false)
decode_tag objects int_tag = read_i32 >>= λ z. made (make_int z)
decode_tag objects object_tag = read_u32 >>= λ i.
    require (not (leb (length objects) i)) snapshot_format >>= λ u. give (get_or objects i 0, true)
decode_tag objects (unknown_tag k) = reject snapshot_format

unfoldable pub read_value : List ℕ → Get (List ℕ) (ℕ × Bool)
unfolding decode_tag read_u8
read_value objects = read_u8 >>= λ k. decode_tag objects (to_tag k)

abbrev pub retained : ℕ → List ℕ → Result (Unit {0}) × Runtime → Result (ℕ × List ℕ) × Runtime
retained value bs (ok u, rt) = (ok (value, bs), rt)
retained value bs (err e, rt) = (err e, rt)

abbrev pub keep_value :
    Bool → Result ((ℕ × Bool) × List ℕ) → Runtime → Result (ℕ × List ℕ) × Runtime
keep_value retain_object (err e) rt = (err e, rt)
keep_value retain_object (ok ((value, is_object), bs)) rt =
    if retain_object && is_object then retained value bs (retain value rt) else (ok (value, bs), rt)

-- frothy_snapshot_decode_value
unfoldable pub decode_value : List ℕ → Bool → List ℕ → Runtime → Result (ℕ × List ℕ) × Runtime
unfolding read_value
decode_value objects retain_object bs rt = keep_value retain_object (read_value objects bs) rt

-- The switch of frothy_snapshot_validate_value over `object_count` objects with their kinds, which are
-- the numbers of frothy_object_kind_t. `max_index` is FROTHY_SNAPSHOT_INVALID_INDEX where references
-- may go forward.
unfoldable pub check_tag : List ℕ → ℕ → Bool → ℕ → ValueTag → Get (List ℕ) (Unit {0})
unfolding read_u32
check_tag kinds object_count restricted max_index nil_tag = give tt
check_tag kinds object_count restricted max_index false_tag = give tt
check_tag kinds object_count restricted max_index true_tag = give tt
check_tag kinds object_count restricted max_index int_tag = read_i32 >>= λ ignored. give tt
check_tag kinds object_count restricted max_index object_tag = read_u32 >>= λ i.
    require (not (leb object_count i)) snapshot_format >>= λ u.
    require (max_index == 2 ^ 32 - 1 || not (leb max_index i)) snapshot_format >>= λ v.
    require (not restricted || get_or kinds i 0 == 1 || get_or kinds i 0 == 6) not_persistable
    >>= λ x.
        require (restricted || not (get_or kinds i 0 == 4 || get_or kinds i 0 == 0)) not_persistable
check_tag kinds object_count restricted max_index (unknown_tag k) = reject snapshot_format

-- frothy_snapshot_validate_value
unfoldable pub validate_value : List ℕ → ℕ → Bool → ℕ → Get (List ℕ) (Unit {0})
unfolding check_tag read_u8
validate_value kinds object_count restricted max_index =
    read_u8 >>= λ k. check_tag kinds object_count restricted max_index (to_tag k)
