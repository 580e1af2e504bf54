-- ===== src/Payload.antt =====
-- The payload heap of src/frothy_value.c, which holds texts, packed code, record definitions and
-- record fields: frothy_payload_align_up, frothy_runtime_alloc_payload,
-- frothy_runtime_release_payload, and the fields of frothy_runtime_t that they use. `alignment` is
-- _Alignof(max_align_t) and `size_max` SIZE_MAX of the target.
pub mod Count
pub mod Laws
pub mod Release
use froth.Base.{
  ℕ, ◌+◌, ◌-◌, ◌%◌, ◌≤◌, ◌<◌, ◌≡◌, ◌||◌, Option, none, some, List, [], ltb, leb, ◌==◌,
  if◌then◌else◌,
}
use froth.Status.{Exec, Result, ok, err, heap_out_of_memory}
use froth.Spans.{Span, add_span, take_span}

pub record Payload : Type 0 where
  pub free_spans : List Span
  pub capacity : ℕ
  pub extent : ℕ
  pub bytes_used : ℕ
  pub bytes_high_water : ℕ

-- As frothy_runtime_init and frothy_runtime_clear_overlay_state leave it.
abbrev pub empty : ℕ → Payload
empty capacity = record {
  free_spans = [];
  capacity = capacity;
  extent = 0;
  bytes_used = 0;
  bytes_high_water = 0;
}

-- frothy_runtime_payload_used and frothy_runtime_debug_reset_high_water, of this part.
pub reset_high_water : Payload → Payload
reset_high_water p = record p { bytes_high_water = p.bytes_used }

-- The bytes at `offset` are handed out.
unfoldable pub charge : ℕ → ℕ → Payload → Result Span × Payload
charge offset reserved p = (
  ok (record { offset = offset; length = reserved }),
  record p {
    bytes_used = p.bytes_used + reserved;
    bytes_high_water =
        if ltb p.bytes_high_water (p.bytes_used + reserved)
        then p.bytes_used + reserved
        else p.bytes_high_water;
  },
)

-- frothy_runtime_alloc_payload behind frothy_payload_align_up: the free spans, else the extent.
unfoldable pub alloc_from : ℕ → Option (ℕ × List Span) → Exec Payload Span
unfolding charge
alloc_from reserved (some (offset, rest)) p =
    charge offset reserved (record p { free_spans = rest })
alloc_from reserved none p =
    if ltb p.capacity reserved || ltb (p.capacity - reserved) p.extent
    then (err heap_out_of_memory, p)
    else charge p.extent reserved (record p { extent = p.extent + reserved })

unfoldable pub alloc_reserved : Result ℕ → Exec Payload Span
unfolding alloc_from
alloc_reserved (err e) p = (err e, p)
alloc_reserved (ok reserved) p =
    if reserved == 0
    then (ok (record { offset = 0; length = 0 }), p)
    else alloc_from reserved (take_span reserved p.free_spans) p

module _ (alignment size_max : ℕ) where
  -- frothy_payload_align_up
  unfoldable pub align_up : ℕ → Result ℕ
  align_up value =
      let padding = alignment - value % alignment in
      if value % alignment == 0
      then ok value
      else if ltb (size_max - padding) value
      then err heap_out_of_memory
      else ok (value + padding)

  -- frothy_runtime_alloc_payload
  unfoldable pub alloc_payload : ℕ → Exec Payload Span
  unfolding alloc_reserved
  alloc_payload length p = alloc_reserved (align_up length) p

  -- `a -= b` on size_t.
  abbrev sub_size : ℕ → ℕ → ℕ
  sub_size a b = if leb b a then a - b else a + (size_max + 1) - b

  -- frothy_runtime_release_payload
  unfoldable pub release_payload : Span → Payload → Payload
  release_payload s p =
      let (spans, extent) = add_span s p.free_spans p.extent in
      if s.length == 0 then p else record p {
        free_spans = spans;
        extent = extent;
        bytes_used = sub_size p.bytes_used s.length;
      }
