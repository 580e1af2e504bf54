-- ===== src/Spans/Trim.antt =====
-- The release of a span: the units that are free after it.
use froth.Base.{
  ℕ, ◌+◌, ◌≤◌, ◌<◌, ◌≡◌, refl, ◌∙◌, ◌||◌, List, [], ◌∷◌, arith, ◌==◌, inl, inr, Bool-cases,
}
use froth.Spans.{
  Span, end, insert_span, coalesce_all, trim_one, trim_tail, add_span, in_span, covers, is_free,
  Canonical, Separated,
}
use froth.Spans.Insert.{
  Sorted, Sorted-insert, Sorted-Canonical, covers-insert, covers-coalesce, Separated-coalesce,
}

-- What the trimmed list and extent satisfy.
record Trimmed (lo : ℕ) (ss : List Span) (extent : ℕ) (r : List Span × ℕ) : Type 0 where
  canonical : Canonical lo r.0 r.1
  lower : r.1 ≤ extent
  above : lo ≤ extent + 1 → lo ≤ r.1 + 1
  same : (x : ℕ) → is_free r.0 r.1 x ≡ is_free ss extent x

Trimmed-one :
    (lo : ℕ) (s : Span) (ss : List Span) (extent : ℕ) (rest : List Span) (e : ℕ)
    → lo ≤ s.offset
    → 0 < s.length
    → end s ≤ extent
    → Trimmed (end s + 1) ss extent (rest, e)
    → Trimmed lo (s ∷ ss) extent (trim_one s rest e)
Trimmed-one lo s ss extent [] e a b c t = elim (Bool-cases (end s == e)) [
  | inl q ↦ rw q (record {
    canonical = tt;
    lower = ground (arith, t.lower);
    above = ground (arith, t.above);
    same = λ x. ground (arith, t.same x);
  })
  | inr q ↦ rw q (record {
    canonical = (a, b, ground (arith, t.above), tt);
    lower = t.lower;
    above = ground (arith, t.above);
    same = λ x. ground (arith, t.same x);
  })
]
Trimmed-one lo s ss extent (r ∷ rs) e a b c t = record {
  canonical = (a, b, omega (arith, t.canonical.0, t.canonical.2), t.canonical);
  lower = t.lower;
  above = λ h. omega (arith, t.canonical.0, t.canonical.2);
  same = λ x. ground (arith, t.same x);
}

trim_tail-Trimmed :
    (lo : ℕ) (ss : List Span) (extent : ℕ)
    → Separated lo ss extent
    → Trimmed lo ss extent (trim_tail ss extent)
unfolding trim_tail
trim_tail-Trimmed lo [] extent v = record {
  canonical = tt;
  lower = omega arith;
  above = λ h. h;
  same = λ x. refl;
}
trim_tail-Trimmed lo (s ∷ ss) extent v =
    Trimmed-one lo s ss extent (trim_tail ss extent).0 (trim_tail ss extent).1 v.0 v.1 v.2
      (trim_tail-Trimmed (end s + 1) ss extent v.3)

covers-coalesce_all :
    (ss : List Span) (extent x : ℕ) → Sorted 0 ss extent → covers (coalesce_all ss) x ≡ covers ss x
covers-coalesce_all [] extent x v = refl
covers-coalesce_all (s ∷ ss) extent x v = covers-coalesce s ss extent x v.1 v.3

Separated-coalesce_all :
    (ss : List Span) (extent : ℕ) → Sorted 0 ss extent → Separated 0 (coalesce_all ss) extent
Separated-coalesce_all [] extent v = v
Separated-coalesce_all (s ∷ ss) extent v = Separated-coalesce 0 s ss extent v.0 v.1 v.2 v.3

module _ (s : Span) (ss : List Span) (extent : ℕ) (v : Canonical 0 ss extent)
    (inside : end s ≤ extent) where
  sorted : 0 < s.length → Sorted 0 (insert_span s ss) extent
  sorted h = Sorted-insert 0 s ss extent (omega arith) h inside (Sorted-Canonical 0 ss extent v)

  trimmed :
      0 < s.length
      → Trimmed 0
          (coalesce_all (insert_span s ss))
          extent
          (trim_tail (coalesce_all (insert_span s ss)) extent)
  trimmed h =
      trim_tail-Trimmed 0 (coalesce_all (insert_span s ss)) extent
        (Separated-coalesce_all (insert_span s ss) extent (sorted h))

  -- Releasing a span inside the extent into a canonical free list gives a canonical free list, in
  -- which exactly the units that were free and those of the span are free; the extent does not grow.
  pub add_span_lem :
      (x : ℕ)
      → (is_free (add_span s ss extent).0 (add_span s ss extent).1 x
          ≡ (is_free ss extent x || in_span s x))
        × Canonical 0 (add_span s ss extent).0 (add_span s ss extent).1
        × ((add_span s ss extent).1 ≤ extent)
  unfolding add_span
  add_span_lem x = elim (Bool-cases (s.length == 0)) [
    | inl e ↦ rw e (ground arith, v, omega arith)
    | inr e ↦
        let h : 0 < s.length = ground arith in
        rw e (
          (trimmed h).same x
              ∙ ground (
                arith,
                covers-coalesce_all (insert_span s ss) extent x (sorted h),
                covers-insert s ss x,
              ),
          (trimmed h).canonical,
          (trimmed h).lower,
        )
  ]
