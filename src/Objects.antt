-- ===== src/Objects.antt =====
-- The table of objects of src/frothy_value.c: finding, adding and retaining objects, the texts and
-- natives, the class of a value and equality. The object ids below `object_count` are the positions
-- of a list; the entries behind are written before they are read. Function and string pointers of
-- natives are handles. `alignment` and `size_max` are as in Payload.
pub mod Append
pub mod Bytes
pub mod Text
pub mod Retain
pub mod Equal
pub mod Cells
pub mod Release
use froth.Base.{
  ℕ, zero, suc, ◌+◌, ◌-◌, ◌<◌, ◌≤◌, ◌≡◌, Bool, true, false, not, ◌&&◌, ◌||◌, Option, none, some,
  List, [], ◌∷◌, ◌++◌, ltb, leb, ◌==◌, if◌then◌else◌, length, get_or, set, drop, take, write_at,
}
use froth.Status.{Exec, Result, ok, err, ◌>>=◌, heap_out_of_memory, type_mismatch, bounds}
use froth.Spans.{Span}
use froth.Payload.{Payload, alloc_payload, release_payload}
use froth.Value.{
  is_object_ref, object_index, object_value, is_int, is_bool, is_nil, is_slot_designator,
  slot_index,
}

-- The union of frothy_object_t, tagged with its kind.
pub data Body : Type 0 where
  free_object : Body
  text_object : Span → ℕ → Body
  cells_object : Span → Body
  code_object : Span → ℕ → ℕ → ℕ → Body
  native_object : ℕ → ℕ → ℕ → ℕ → Body
  record_def_object : Span → ℕ → Body
  record_object : Span → ℕ → ℕ → Body

-- frothy_object_kind_t
abbrev pub kind_of : Body → ℕ
kind_of free_object = 0
kind_of (text_object s n) = 1
kind_of (cells_object s) = 2
kind_of (code_object s arity local_count body) = 3
kind_of (native_object f context name arity) = 4
kind_of (record_def_object s n) = 5
kind_of (record_object s definition n) = 6

-- frothy_object_t
pub record Object : Type 0 where
  pub body : Body
  pub refcount : ℕ
  pub live : Bool

abbrev pub no_object : Object
no_object = record { body = free_object; refcount = 0; live = false }

-- The fields of frothy_runtime_t that hold the objects and the payload.
pub record Runtime : Type 0 where
  pub objects : List Object
  pub object_capacity : ℕ
  pub live_object_count : ℕ
  pub object_high_water : ℕ
  pub object_limit : ℕ
  pub fail_next_append : Bool
  pub payload : Payload
  pub payload_bytes : List ℕ

abbrev pub object_at : Runtime → ℕ → Object
object_at rt i = get_or rt.objects i no_object

-- frothy_runtime_get_live_object_id
unfoldable pub get_live_object_id : Runtime → ℕ → Result ℕ
get_live_object_id rt value =
    if not (is_object_ref value)
    then err type_mismatch
    else if leb (length rt.objects) (object_index value)
    then err bounds
    else if not (object_at rt (object_index value)).live
    then err bounds
    else ok (object_index value)

-- frothy_runtime_get_object
unfoldable pub get_object : Runtime → ℕ → ℕ → Result Body
unfolding get_live_object_id
get_object rt value expected = get_live_object_id rt value >>= λ id.
    if kind_of (object_at rt id).body == expected
    then ok (object_at rt id).body
    else err type_mismatch

abbrev pub installed : Body → Object
installed body = record { body = body; refcount = 1; live = true }

-- frothy_runtime_install_object at an id below `object_count`.
abbrev pub install_object : ℕ → Body → Runtime → Result ℕ × Runtime
install_object id body rt = (
  ok (object_value id),
  record rt {
    objects = set rt.objects id (installed body);
    live_object_count = rt.live_object_count + 1;
  },
)

-- The loop for an id that is not live.
abbrev pub first_dead : ℕ → List Object → Option ℕ
first_dead id [] = none
first_dead id (o ∷ os) = if not o.live then some id else first_dead (id + 1) os

abbrev pub least : ℕ → ℕ → ℕ
least a b = if ltb b a then b else a

-- The part of frothy_runtime_append_object behind that loop.
abbrev pub append_at : Option ℕ → Body → Runtime → Result ℕ × Runtime
append_at (some id) body rt = install_object id body rt
append_at none body rt =
    let count = length rt.objects in
    if leb (least rt.object_limit rt.object_capacity) count
    then (err heap_out_of_memory, rt)
    else if ltb rt.object_capacity (count + 1)
    then (err heap_out_of_memory, rt)
    else (
      ok (object_value count),
      record rt {
        objects = rt.objects ++ installed body ∷ [];
        live_object_count = rt.live_object_count + 1;
        object_high_water =
            if ltb rt.object_high_water (count + 1) then count + 1 else rt.object_high_water;
      },
    )

-- frothy_runtime_append_object
unfoldable pub append_object : Body → Exec Runtime ℕ
append_object body rt =
    if rt.fail_next_append
    then (err heap_out_of_memory, record rt { fail_next_append = false })
    else append_at (first_dead 0 rt.objects) body rt

abbrev pub retain_id : Result ℕ → Exec Runtime (Unit {0})
retain_id (err e) rt = (err e, rt)
retain_id (ok id) rt =
    let o = object_at rt id in
    if o.refcount == 0xFFFF_FFFF
    then (err heap_out_of_memory, rt)
    else (ok tt, record rt { objects = set rt.objects id (record o { refcount = o.refcount + 1 }) })

-- frothy_value_retain
unfoldable pub retain : ℕ → Exec Runtime (Unit {0})
unfolding get_live_object_id
retain value rt =
    if not (is_object_ref value) then (ok tt, rt) else retain_id (get_live_object_id rt value) rt

module _ (alignment size_max : ℕ) where
  -- The release of the bytes after an object could not be added.
  abbrev pub undo_payload : Span → Result ℕ × Runtime → Result ℕ × Runtime
  undo_payload s (ok value, rt) = (ok value, rt)
  undo_payload s (err e, rt) =
      (err e, record rt { payload = release_payload alignment size_max s rt.payload })

  -- The part of frothy_runtime_alloc_text behind the allocation of its bytes.
  unfoldable pub place_text : List ℕ → Result Span × Payload → Exec Runtime ℕ
  unfolding append_object
  place_text text (err e, p) rt = (err e, record rt { payload = p })
  place_text text (ok s, p) rt = undo_payload s (
      append_object (text_object s (length text)) (record rt {
        payload = p;
        payload_bytes = write_at s.offset (text ++ 0 ∷ []) rt.payload_bytes;
      }))

  -- frothy_runtime_alloc_text
  unfoldable pub alloc_text : List ℕ → Exec Runtime ℕ
  unfolding place_text
  alloc_text text rt =
      if ltb (size_max - 1) (length text)
      then (err heap_out_of_memory, rt)
      else place_text text (alloc_payload alignment size_max (length text + 1) rt.payload) rt

abbrev text_bytes : Runtime → Body → Result (List ℕ)
text_bytes rt (text_object s n) = ok (take n (drop s.offset rt.payload_bytes))
text_bytes rt _ = err type_mismatch

-- frothy_runtime_get_text: the bytes at the pointer, as many as the length says.
unfoldable pub get_text : Runtime → ℕ → Result (List ℕ)
unfolding get_object
get_text rt value = get_object rt value 1 >>= text_bytes rt

-- frothy_runtime_alloc_native, with a function and a name that are not null
unfoldable pub alloc_native : ℕ → ℕ → ℕ → ℕ → Exec Runtime ℕ
unfolding append_object
alloc_native f name arity context = append_object (native_object f context name arity)

abbrev native_fields : Body → Result (ℕ × ℕ × ℕ × ℕ)
native_fields (native_object f context name arity) = ok (f, context, name, arity)
native_fields _ = err type_mismatch

-- frothy_runtime_get_native
unfoldable pub get_native : Runtime → ℕ → Result (ℕ × ℕ × ℕ × ℕ)
unfolding get_object
get_native rt value = get_object rt value 4 >>= native_fields

-- frothy_value_class_t
pub data ValueClass : Type 0 where
  int_class bool_class nil_class text_class cells_class code_class native_class : ValueClass
  record_def_class record_class : ValueClass

abbrev class_of : Body → Result ValueClass
class_of (text_object s n) = ok text_class
class_of (cells_object s) = ok cells_class
class_of (code_object s arity local_count body) = ok code_class
class_of (native_object f context name arity) = ok native_class
class_of (record_def_object s n) = ok record_def_class
class_of (record_object s definition n) = ok record_class
class_of free_object = err bounds

-- frothy_value_class
unfoldable pub value_class : Runtime → ℕ → Result ValueClass
unfolding get_live_object_id
value_class rt value =
    if is_int value
    then ok int_class
    else if is_bool value
    then ok bool_class
    else if is_nil value
    then ok nil_class
    else if is_slot_designator value
    then err type_mismatch
    else if is_object_ref value
    then get_live_object_id rt value >>= (λ id. class_of (object_at rt id).body)
    else err type_mismatch

abbrev pub class_number : ValueClass → ℕ
class_number int_class = 0
class_number bool_class = 1
class_number nil_class = 2
class_number text_class = 3
class_number cells_class = 4
class_number code_class = 5
class_number native_class = 6
class_number record_def_class = 7
class_number record_class = 8

-- `memcmp(a, b, length) == 0`, of texts of the same length.
abbrev same_text : List ℕ → List ℕ → Bool
same_text [] [] = true
same_text (x ∷ xs) (y ∷ ys) = x == y && same_text xs ys
same_text _ _ = false

-- The part of frothy_value_equals behind the two classes, with what frothy_runtime_get_text says.
abbrev pub compare_classes :
    ValueClass → ValueClass → Result (List ℕ) → Result (List ℕ) → Result Bool
compare_classes lhs_class rhs_class lhs_text rhs_text =
    if not (class_number lhs_class == class_number rhs_class)
    then ok false
    else if class_number lhs_class == 3
    then lhs_text >>= (λ a. rhs_text >>= λ b. ok (same_text a b))
    else ok false

abbrev pub compare_objects : Runtime → ℕ → ℕ → Result ValueClass → Result ValueClass → Result Bool
compare_objects rt lhs rhs (ok a) (ok b) = compare_classes a b (get_text rt lhs) (get_text rt rhs)
compare_objects rt lhs rhs (ok a) (err e) = err e
compare_objects rt lhs rhs (err e) b = err e

-- frothy_value_equals
unfoldable pub value_equals : Runtime → ℕ → ℕ → Result Bool
value_equals rt lhs rhs =
    if lhs == rhs
    then ok true
    else if is_slot_designator lhs || is_slot_designator rhs
    then ok ((is_slot_designator lhs && is_slot_designator rhs) && slot_index lhs == slot_index rhs)
    else compare_objects rt lhs rhs (value_class rt lhs) (value_class rt rhs)
