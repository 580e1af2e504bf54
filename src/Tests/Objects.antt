-- ===== src/Tests/Objects.antt =====
-- The objects of src/frothy_value.c at a concrete runtime, which holds one text.
use froth.Base.{ℕ, ◌≡◌, ◌<◌, ◌≤◌, ◌+◌, refl, true, false, List, [], ◌∷◌, ◌++◌, arith, replicate}
use froth.Status.{ok}
use froth.Spans.{Span, take_span}
use froth.Payload.{Payload, align_up, alloc_payload, alloc_reserved, alloc_from, charge}
use froth.Payload.Laws
use froth.Payload.Laws.{free_at}
use froth.Value.{
  object_value, is_object_ref, object_index, is_int, is_bool, is_nil, is_slot_designator,
}
use froth.Objects.{
  Runtime, text_object, native_object, installed, object_at, text_class, append_object, alloc_text,
  place_text, get_text, get_live_object_id, value_class, value_equals,
}
use froth.Objects.Append
use froth.Objects.Append.{append_object-Outcome}
use froth.Objects.Text.{get_text-alloc_text}
use froth.Objects.Retain.{counted_up}
use froth.Objects.Equal.{value_equals_comm}

-- "hi" in the first eight bytes of 32.
abbrev memory : Payload
memory = record { free_spans = []; capacity = 32; extent = 8; bytes_used = 8; bytes_high_water = 8 }

memory-IsValid : Laws.IsValid 1000 memory
memory-IsValid = record {
  canonical = omega arith;
  bounded = omega arith;
  sized = omega arith;
  counted = refl;
  marked = omega arith;
}

abbrev hi : Span
hi = record { offset = 0; length = 8 }

abbrev runtime : Runtime
runtime = record {
  objects = installed (text_object hi 2) ∷ [];
  object_capacity = 4;
  live_object_count = 1;
  object_high_water = 1;
  object_limit = 4;
  fail_next_append = false;
  payload = memory;
  payload_bytes = b'h' ∷ b'i' ∷ replicate 30 0;
}

runtime-IsValid : Append.IsValid runtime
runtime-IsValid = record { counted = refl; within = omega arith; marked = omega arith }

append_object-Outcome_example :
    Append.Outcome (native_object 1 2 3 0) runtime (append_object (native_object 1 2 3 0) runtime)
append_object-Outcome_example =
    append_object-Outcome (native_object 1 2 3 0) runtime runtime-IsValid

-- "yes"
abbrev text : List ℕ
text = b'y' ∷ b'e' ∷ b's' ∷ []

abbrev runtime2 : Runtime
runtime2 = record {
  objects =
      installed (text_object hi 2)
      ∷ installed (text_object (record { offset = 8; length = 8 }) 3)
      ∷ [];
  object_capacity = 4;
  live_object_count = 2;
  object_high_water = 2;
  object_limit = 4;
  fail_next_append = false;
  payload = record memory { extent = 16; bytes_used = 16; bytes_high_water = 16 };
  payload_bytes = b'h' ∷ b'i' ∷ replicate 6 0 ++ (text ++ replicate 21 0);
}

alloc_text_yes : alloc_text 8 1000 text runtime ≡ (ok (object_value 1), runtime2)
unfolding alloc_text place_text append_object alloc_payload alloc_reserved alloc_from charge
    take_span align_up
alloc_text_yes = refl

get_text-alloc_text_example :
    (get_text runtime2 (object_value 1) ≡ ok text)
    × ((i n : ℕ) (s : Span)
        → i < 1
        → (object_at runtime i).live ≡ true
        → (object_at runtime i).body ≡ text_object s n
        → ((x : ℕ) → s.offset ≤ x → x < s.offset + n → free_at memory x ≡ false)
        → get_text runtime2 (object_value i) ≡ get_text runtime (object_value i))
get_text-alloc_text_example =
    get_text-alloc_text 8 1000 text runtime runtime-IsValid memory-IsValid refl (omega arith)
      (omega arith) (omega arith) (object_value 1) runtime2 alloc_text_yes

class_of_hi : value_class runtime2 3 ≡ ok text_class
unfolding value_class get_live_object_id is_object_ref object_index is_int is_bool is_nil
    is_slot_designator
class_of_hi = refl

class_of_yes : value_class runtime2 7 ≡ ok text_class
unfolding value_class get_live_object_id is_object_ref object_index is_int is_bool is_nil
    is_slot_designator
class_of_yes = refl

value_equals_comm_example : value_equals runtime2 3 7 ≡ value_equals runtime2 7 3
value_equals_comm_example =
    value_equals_comm runtime2 3 7 text_class text_class class_of_hi class_of_yes

-- The runtime with two references to its text.
abbrev runtime_retained : Runtime
runtime_retained = record runtime { objects = counted_up (installed (text_object hi 2)) ∷ [] }
