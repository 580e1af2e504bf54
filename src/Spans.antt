-- ===== src/Spans.antt =====
-- The free lists of src/frothy_value.c: frothy_runtime_add_payload_free_span and
-- frothy_runtime_take_payload_free_span over bytes, frothy_runtime_add_free_span and
-- frothy_runtime_take_free_span over cells. The two pairs are the same code over two arrays of
-- spans, so the functions here serve both. An array of spans is a list; a removal by memmove
-- shortens it, and the array's capacity is not part of it.
pub mod Insert
pub mod Trim
pub mod Take
pub mod Restore
use froth.Base.{
  ℕ, ◌+◌, ◌-◌, ◌≤◌, ◌<◌, ◌≡◌, Bool, true, false, ◌&&◌, ◌||◌, Option, none, some, List, [], ◌∷◌, ltb,
  leb, ◌==◌, if◌then◌else◌,
}

-- frothy_payload_span_t; frothy_cells_span_t calls its first field `base`.
pub record Span : Type 0 where
  pub offset : ℕ
  pub length : ℕ

abbrev pub end : Span → ℕ
end s = s.offset + s.length

-- The search for the place, and the memmove that makes room: in front of the first span whose
-- offset is not lower.
unfoldable pub insert_span : Span → List Span → List Span
insert_span s [] = s ∷ []
insert_span s (t ∷ ts) = if ltb t.offset s.offset then t ∷ insert_span s ts else s ∷ t ∷ ts

-- `prev->length = current_end - prev->offset`, where that is longer.
abbrev pub widen : Span → Span → Span
widen prev cur =
    if ltb (end prev) (end cur)
    then record { offset = prev.offset; length = end cur - prev.offset }
    else prev

-- The loop that joins a span with those that it reaches, at `prev`.
unfoldable pub coalesce : Span → List Span → List Span
coalesce prev [] = prev ∷ []
coalesce prev (cur ∷ rest) = elim (ltb (end prev) cur.offset) [
  | true ↦ prev ∷ coalesce cur rest
  | false ↦ coalesce (widen prev cur) rest
]

abbrev pub coalesce_all : List Span → List Span
coalesce_all [] = []
coalesce_all (s ∷ ss) = coalesce s ss

abbrev pub trim_one : Span → List Span → ℕ → List Span × ℕ
trim_one s [] e = if end s == e then ([], s.offset) else (s ∷ [], e)
trim_one s (t ∷ ts) e = (s ∷ t ∷ ts, e)

-- The loop that gives the last span back to the extent, while it ends there.
unfoldable pub trim_tail : List Span → ℕ → List Span × ℕ
trim_tail [] extent = ([], extent)
trim_tail (s ∷ ss) extent = let (rest, e) = trim_tail ss extent in trim_one s rest e

-- The release of a span of positive length: the spans and the extent after it.
unfoldable pub add_span : Span → List Span → ℕ → List Span × ℕ
unfolding insert_span coalesce trim_tail
add_span s ss extent =
    if s.length == 0 then (ss, extent) else trim_tail (coalesce_all (insert_span s ss)) extent

abbrev pub keep_span : Span → Option (ℕ × List Span) → Option (ℕ × List Span)
keep_span s none = none
keep_span s (some (o, rest)) = some (o, s ∷ rest)

-- What is left of a span behind its first `need` units.
abbrev pub cut_span : ℕ → Span → List Span → List Span
cut_span need s ss =
    if s.length - need == 0
    then ss
    else record { offset = s.offset + need; length = s.length - need } ∷ ss

-- First fit: the offset of the free run, and the spans without it.
unfoldable pub take_span : ℕ → List Span → Option (ℕ × List Span)
take_span need [] = none
take_span need (s ∷ ss) =
    if ltb s.length need
    then keep_span s (take_span need ss)
    else some (s.offset, cut_span need s ss)

abbrev pub in_span : Span → ℕ → Bool
in_span s x = leb s.offset x && ltb x (end s)

-- Whether a unit lies in one of the spans.
abbrev pub covers : List Span → ℕ → Bool
covers [] x = false
covers (s ∷ ss) x = in_span s x || covers ss x

-- What the allocator may still hand out: the free spans, and all from the extent on.
abbrev pub is_free : List Span → ℕ → ℕ → Bool
is_free ss extent x = covers ss x || leb extent x

-- A free list as the code keeps it: from `lo` on, in order, no span empty, a gap behind each, the
-- last one short of the extent.
abbrev pub Canonical : ℕ → List Span → ℕ → Type 0
Canonical lo [] extent = Unit
Canonical lo (s ∷ ss) extent =
    (lo ≤ s.offset) × (0 < s.length) × (end s < extent) × Canonical (end s + 1) ss extent

-- The same, while the last span may still touch the extent.
abbrev pub Separated : ℕ → List Span → ℕ → Type 0
Separated lo [] extent = Unit
Separated lo (s ∷ ss) extent =
    (lo ≤ s.offset) × (0 < s.length) × (end s ≤ extent) × Separated (end s + 1) ss extent
