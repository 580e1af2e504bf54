-- ===== src/Spans/Insert.antt =====
-- Insertion and joining keep the units that the spans cover.
use froth.Base.{ℕ, ◌+◌, ◌≤◌, ◌<◌, ◌≡◌, refl, ◌||◌, List, [], ◌∷◌, arith, ltb, inl, inr, Bool-cases}
use froth.Spans.{Span, end, insert_span, widen, coalesce, in_span, covers, Canonical, Separated}

-- In order of their offsets, none empty, none beyond the extent.
abbrev pub Sorted : ℕ → List Span → ℕ → Type 0
Sorted lo [] extent = Unit
Sorted lo (s ∷ ss) extent =
    (lo ≤ s.offset) × (0 < s.length) × (end s ≤ extent) × Sorted s.offset ss extent

pub covers-insert :
    (s : Span) (ss : List Span) (x : ℕ) → covers (insert_span s ss) x ≡ (in_span s x || covers ss x)
unfolding insert_span
covers-insert s [] x = refl
covers-insert s (t ∷ ts) x = ground (arith, covers-insert s ts x)

Sorted-weaken :
    (a b : ℕ) (ss : List Span) (extent : ℕ) → b ≤ a → Sorted a ss extent → Sorted b ss extent
Sorted-weaken a b [] extent h v = v
Sorted-weaken a b (s ∷ ss) extent h v = (omega arith, v.1, v.2, v.3)

pub Sorted-Canonical :
    (lo : ℕ) (ss : List Span) (extent : ℕ) → Canonical lo ss extent → Sorted lo ss extent
Sorted-Canonical lo [] extent v = v
Sorted-Canonical lo (s ∷ ss) extent v = (
  v.0,
  v.1,
  omega arith,
  Sorted-weaken (end s + 1) s.offset ss extent (omega arith)
      (Sorted-Canonical (end s + 1) ss extent v.3),
)

pub Sorted-insert :
    (lo : ℕ) (s : Span) (ss : List Span) (extent : ℕ)
    → lo ≤ s.offset
    → 0 < s.length
    → end s ≤ extent
    → Sorted lo ss extent
    → Sorted lo (insert_span s ss) extent
unfolding insert_span
Sorted-insert lo s [] extent a b c v = (a, b, c, tt)
Sorted-insert lo s (t ∷ ts) extent a b c v = elim (Bool-cases (ltb t.offset s.offset)) [
  | inl e ↦ rw e (v.0, v.1, v.2, Sorted-insert t.offset s ts extent (ground arith) b c v.3)
  | inr e ↦ rw e (a, b, c, (ground arith, v.1, v.2, v.3))
]

covers-widen :
    (p c : Span) (x : ℕ)
    → p.offset ≤ c.offset
    → c.offset ≤ end p
    → in_span (widen p c) x ≡ (in_span p x || in_span c x)
covers-widen p c x h k = ground arith

pub covers-coalesce :
    (p : Span) (ss : List Span) (extent x : ℕ)
    → 0 < p.length
    → Sorted p.offset ss extent
    → covers (coalesce p ss) x ≡ (in_span p x || covers ss x)
unfolding coalesce
covers-coalesce p [] extent x h v = refl
covers-coalesce p (c ∷ ss) extent x h v = elim (Bool-cases (ltb (end p) c.offset)) [
  | inl e ↦ rw (e, coalesce, covers) (ground (arith, covers-coalesce c ss extent x v.1 v.3))
  | inr e ↦
      rw (e, coalesce, covers)
        (ground (
          arith,
          covers-widen p c x v.0 (ground arith),
          covers-coalesce (widen p c) ss extent x (ground arith)
              (Sorted-weaken c.offset (widen p c).offset ss extent (ground arith) v.3),
        ))
]

pub Separated-coalesce :
    (lo : ℕ) (p : Span) (ss : List Span) (extent : ℕ)
    → lo ≤ p.offset
    → 0 < p.length
    → end p ≤ extent
    → Sorted p.offset ss extent
    → Separated lo (coalesce p ss) extent
unfolding coalesce
Separated-coalesce lo p [] extent a b c v = (a, b, c, tt)
Separated-coalesce lo p (q ∷ ss) extent a b c v = elim (Bool-cases (ltb (end p) q.offset)) [
  | inl e ↦
      rw (e, coalesce, Separated)
        (a, b, c, Separated-coalesce (end p + 1) q ss extent (ground arith) v.1 v.2 v.3)
  | inr e ↦
      rw (e, coalesce, Separated)
        (Separated-coalesce lo (widen p q) ss extent (ground arith) (ground arith) (ground arith)
          (Sorted-weaken q.offset (widen p q).offset ss extent (ground arith) v.3))
]
