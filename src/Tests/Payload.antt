-- ===== src/Tests/Payload.antt =====
-- The free lists and the payload heap of src/frothy_value.c, at concrete states.
use froth.Base.{ℕ, ◌≡◌, ◌≤◌, ◌+◌, refl, ◌||◌, some, List, [], ◌∷◌, arith}
use froth.Status.{ok}
use froth.Spans.{
  Span, insert_span, coalesce, trim_tail, add_span, take_span, Canonical, is_free, in_span,
}
use froth.Spans.Trim.{add_span_lem}
use froth.Spans.Take.{take_span-Fits, Fits}
use froth.Spans.Restore.{add-take}
use froth.Payload.{
  Payload, align_up, alloc_payload, alloc_reserved, alloc_from, charge, release_payload,
}
use froth.Payload.Laws.{IsValid, free_at, Outcome, alloc_payload-Outcome}
use froth.Payload.Release.{release_payload_lem, release-alloc_payload}

abbrev span : ℕ → ℕ → Span
span o n = record { offset = o; length = n }

-- Bytes 8 to 15 and 32 to 39 are free, and those from 48 on.
abbrev spans : List Span
spans = span 8 8 ∷ span 32 8 ∷ []

-- The gap between two free spans closes.
add_span_joins : add_span (span 16 16) spans 48 ≡ (span 8 32 ∷ [], 48)
unfolding add_span insert_span coalesce trim_tail
add_span_joins = refl

-- The last span reaches the extent, which shrinks.
add_span_trims : add_span (span 40 8) spans 48 ≡ (span 8 8 ∷ [], 32)
unfolding add_span insert_span coalesce trim_tail
add_span_trims = refl

take_span_first_fit : take_span 4 spans ≡ some (8, span 12 4 ∷ span 32 8 ∷ [])
unfolding take_span
take_span_first_fit = refl

spans-Canonical : Canonical 0 spans 48
spans-Canonical = omega arith

add_span_lem_example :
    (is_free (add_span (span 16 16) spans 48).0 (add_span (span 16 16) spans 48).1 20
      ≡ (is_free spans 48 20 || in_span (span 16 16) 20))
    × Canonical 0 (add_span (span 16 16) spans 48).0 (add_span (span 16 16) spans 48).1
    × ((add_span (span 16 16) spans 48).1 ≤ 48)
add_span_lem_example = add_span_lem (span 16 16) spans 48 spans-Canonical (omega arith) 20

take_span-Fits_example : Fits 0 4 spans 48 (take_span 4 spans)
take_span-Fits_example = take_span-Fits 0 4 spans 48 (omega arith) spans-Canonical

add-take_example : add_span (span 8 4) (span 12 4 ∷ span 32 8 ∷ []) 48 ≡ (spans, 48)
add-take_example =
    add-take 4 8 spans (span 12 4 ∷ span 32 8 ∷ []) 48 (omega arith) spans-Canonical
      take_span_first_fit

-- A heap of 64 bytes: 32 of them are handed out.
abbrev heap64 : Payload
heap64 = record {
  free_spans = spans;
  capacity = 64;
  extent = 48;
  bytes_used = 32;
  bytes_high_water = 40;
}

heap64-IsValid : IsValid 4294967295 heap64
heap64-IsValid = record {
  canonical = spans-Canonical;
  bounded = omega arith;
  sized = omega arith;
  counted = refl;
  marked = omega arith;
}

align_up_13 : align_up 8 4294967295 13 ≡ ok 16
unfolding align_up
align_up_13 = refl

alloc_payload-Outcome_example : Outcome 4294967295 16 heap64 (alloc_payload 8 4294967295 13 heap64)
alloc_payload-Outcome_example =
    alloc_payload-Outcome 8 4294967295 13 16 heap64 align_up_13 (omega arith) heap64-IsValid

-- The bytes that an allocation of 13 gets, and the heap behind it.
abbrev heap64_taken : Payload
heap64_taken = record heap64 { extent = 64; bytes_used = 48; bytes_high_water = 48 }

alloc_13 : alloc_payload 8 4294967295 13 heap64 ≡ (ok (span 48 16), heap64_taken)
unfolding alloc_payload alloc_reserved alloc_from charge take_span align_up
alloc_13 = refl

release-alloc_payload_example :
    release_payload 8 4294967295 (span 48 16) heap64_taken ≡ record heap64 { bytes_high_water = 48 }
release-alloc_payload_example =
    release-alloc_payload 8 4294967295 13 16 heap64 (span 48 16) heap64_taken align_up_13
      (omega arith) heap64-IsValid alloc_13

release_payload_lem_example :
    let after = release_payload 8 4294967295 (span 16 16) heap64 in
    IsValid 4294967295 after
    × ((x : ℕ) → free_at after x ≡ (free_at heap64 x || in_span (span 16 16) x))
    × (after.bytes_used + 16 ≡ 32)
release_payload_lem_example =
    release_payload_lem 8 4294967295 (span 16 16) heap64 heap64-IsValid (omega arith)
      (λ x h. ground arith)
