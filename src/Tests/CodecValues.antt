-- ===== src/Tests/CodecValues.antt =====
-- Values of src/frothy_snapshot_codec.c: a reference to the only object of a payload.
use froth.Base.{
  ℕ, zero, suc, ◌-◌, ◌^◌, ◌<◌, ◌≡◌, refl, false, true, some, List, [], ◌∷◌, ◌++◌, List, arith,
  replicate, drop,
}
use froth.Status.{ok}
use froth.Spans.{Span}
use froth.Value.{object_value, object_index, is_object_ref, is_int, is_nil, is_bool}
use froth.Objects.{Runtime, text_object, installed}
use froth.Snapshot.Le.{le32, read_le32}
use froth.Codec.Put.{Writer, write_bytes, has_space}
use froth.Codec.Get.{read_u8, read_u32}
use froth.Codec.Values.{
  ObjectTable, objects_lookup, encode_object_ref, write_value, read_value, check_tag,
  validate_value, to_tag,
}
use froth.Codec.Values.RoundTrip.{moved, read-write_value}
use froth.Codec.Values.Checked.{TakesOrOverflows, read-validate_value}

abbrev size_max : ℕ
size_max = 0xFFFF_FFFF

abbrev text : Span
text = record { offset = 0; length = 8 }

abbrev runtime : Runtime
runtime = record {
  objects = installed (text_object text 2) ∷ [];
  object_capacity = 4;
  live_object_count = 1;
  object_high_water = 1;
  object_limit = 4;
  fail_next_append = false;
  payload = record {
    free_spans = [];
    capacity = 32;
    extent = 8;
    bytes_used = 8;
    bytes_high_water = 8;
  };
  payload_bytes = replicate 32 0;
}

abbrev table : ObjectTable
table = record { items = 0 ∷ []; index_by_id = 0 ∷ [] }

numbered : (id i : ℕ) → objects_lookup size_max 4 table id ≡ some i → i < 1
unfolding objects_lookup
numbered zero i e = let same : some 0 ≡ some i = e in let at : 0 ≡ i = cc in omega arith
numbered (suc id) i e = ground arith

abbrev start : Writer
start = record { bytes = 7 ∷ []; capacity = 64 }

-- The object was decoded as the object 5 of the new runtime.
abbrev decoded : List ℕ
unfolding object_value
decoded = object_value 5 ∷ []

abbrev written : Writer
unfolding object_value
written = (write_value size_max 4 runtime table (object_value 0) start).1

read-write_value_example :
    read_value decoded (drop 1 written.bytes ++ 9 ∷ [])
    ≡ ok (moved size_max 4 runtime table decoded (object_value 0), 9 ∷ [])
unfolding written decoded object_value object_index is_object_ref is_int is_nil is_bool
    objects_lookup encode_object_ref write_value write_bytes has_space le32
read-write_value_example =
    read-write_value size_max 4 runtime table decoded numbered (omega arith) (object_value 0) start
      written (9 ∷ []) (omega arith) refl

read-validate_value_example :
    (k : ℕ) × (mid : List ℕ) × (read_u8 (4 ∷ 0 ∷ 0 ∷ 0 ∷ 0 ∷ 9 ∷ []) ≡ ok (k, mid))
    × TakesOrOverflows
        (3 ∷ [])
        (to_tag k)
        mid
        (read_value (3 ∷ []) (4 ∷ 0 ∷ 0 ∷ 0 ∷ 0 ∷ 9 ∷ []))
        (9 ∷ [])
unfolding validate_value check_tag read_u8 read_u32 read_le32
read-validate_value_example =
    read-validate_value (1 ∷ []) (3 ∷ []) true (2 ^ 32 - 1) (4 ∷ 0 ∷ 0 ∷ 0 ∷ 0 ∷ 9 ∷ []) (9 ∷ [])
      refl
