-- ===== src/Spans/Take.antt =====
-- First fit: what an allocation takes from the free list, and that a release gives it back.
use froth.Base.{
  ℕ, ◌+◌, ◌-◌, ◌≤◌, ◌<◌, ◌≡◌, refl, Bool, true, false, not, ◌&&◌, ◌||◌, Option, none, some, List,
  [], ◌∷◌, arith, ltb, leb, ◌==◌, inl, inr, Bool-cases,
}
use froth.Spans.{Span, end, keep_span, cut_span, take_span, in_span, covers, Canonical}

-- Whether some span is long enough.
abbrev pub has_room : ℕ → List Span → Bool
has_room need [] = false
has_room need (s ∷ ss) = leb need s.length || has_room need ss

-- The first unit of a canonical list from `lo` on is not below `lo`.
pub covers-below :
    (lo : ℕ) (ss : List Span) (extent x : ℕ) → Canonical lo ss extent → x < lo → covers ss x ≡ false
covers-below lo [] extent x v h = refl
covers-below lo (s ∷ ss) extent x v h =
    ground (arith, covers-below (end s + 1) ss extent x v.3 (omega arith))

-- An allocation of `need` units: where it lies, and what is free after it.
pub record Taken (lo need : ℕ) (ss : List Span) (extent : ℕ) (r : ℕ × List Span) : Type 0 where
  pub low : lo ≤ r.0
  pub inside : r.0 + need < extent + 1
  pub was_free :
      (x : ℕ) → in_span (record { offset = r.0; length = need }) x ≡ true → covers ss x ≡ true
  pub left :
      (x : ℕ)
      → covers r.1 x ≡ (covers ss x && not (in_span (record { offset = r.0; length = need }) x))
  pub canonical : Canonical lo r.1 extent

Taken-keep :
    (lo need : ℕ) (s : Span) (ss : List Span) (extent o : ℕ) (rest : List Span)
    → Canonical lo (s ∷ ss) extent
    → Taken (end s + 1) need ss extent (o, rest)
    → Taken lo need (s ∷ ss) extent (o, s ∷ rest)
Taken-keep lo need s ss extent o rest v t = record {
  low = omega (arith, t.low);
  inside = t.inside;
  was_free = λ x h. ground (arith, t.was_free x);
  left = λ x. ground (arith, t.left x, t.low);
  canonical = (v.0, v.1, v.2, t.canonical);
}

Canonical-weaken :
    (a b : ℕ) (ss : List Span) (extent : ℕ) → b ≤ a → Canonical a ss extent → Canonical b ss extent
Canonical-weaken a b [] extent h v = v
Canonical-weaken a b (s ∷ ss) extent h v = (omega arith, v.1, v.2, v.3)

Taken-cut :
    (lo need : ℕ) (s : Span) (ss : List Span) (extent : ℕ)
    → 0 < need
    → need ≤ s.length
    → Canonical lo (s ∷ ss) extent
    → Taken lo need (s ∷ ss) extent (s.offset, cut_span need s ss)
Taken-cut lo need s ss extent h k v = elim (Bool-cases (s.length - need == 0)) [
  | inl e ↦ rw e (record {
    low = v.0;
    inside = omega arith;
    was_free = λ x q. ground arith;
    left = λ x. ground (arith, covers-below (end s + 1) ss extent x v.3);
    canonical = Canonical-weaken (end s + 1) lo ss extent (omega arith) v.3;
  })
  | inr e ↦ rw e (record {
    low = v.0;
    inside = omega arith;
    was_free = λ x q. ground arith;
    left = λ x. ground (arith, covers-below (end s + 1) ss extent x v.3);
    canonical = (
      omega arith,
      ground arith,
      ground arith,
      Canonical-weaken (end s + 1) (s.offset + need + (s.length - need) + 1) ss extent
          (ground arith) v.3,
    );
  })
]

-- What first fit may answer: `none` only if no span is long enough.
abbrev pub Fits : ℕ → ℕ → List Span → ℕ → Option (ℕ × List Span) → Type 0
Fits lo need ss extent none = has_room need ss ≡ false
Fits lo need ss extent (some r) = Taken lo need ss extent r × (has_room need ss ≡ true)

Fits-keep :
    (lo need : ℕ) (s : Span) (ss : List Span) (extent : ℕ) (o : Option (ℕ × List Span))
    → s.length < need
    → Canonical lo (s ∷ ss) extent
    → Fits (end s + 1) need ss extent o
    → Fits lo need (s ∷ ss) extent (keep_span s o)
Fits-keep lo need s ss extent none h v f = ground arith
Fits-keep lo need s ss extent (some (o, rest)) h v f =
    (Taken-keep lo need s ss extent o rest v f.0, ground arith)

-- First fit on a canonical free list takes a run that was free and changes no other unit; it finds
-- none exactly if no span is long enough.
pub take_span-Fits :
    (lo need : ℕ) (ss : List Span) (extent : ℕ)
    → 0 < need
    → Canonical lo ss extent
    → Fits lo need ss extent (take_span need ss)
unfolding take_span
take_span-Fits lo need [] extent h v = refl
take_span-Fits lo need (s ∷ ss) extent h v = elim (Bool-cases (ltb s.length need)) [
  | inl short ↦ rw short (
      Fits-keep lo need s ss extent (take_span need ss) (ground arith) v
        (take_span-Fits (end s + 1) need ss extent h v.3))
  | inr fits ↦ rw fits (Taken-cut lo need s ss extent h (ground arith) v, ground arith)
]
