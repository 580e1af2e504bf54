-- ===== src/Spans/Restore.antt =====
-- A release directly after an allocation restores the free list and the extent.
use froth.Base.{
  ℕ, ◌+◌, ◌-◌, ◌≤◌, ◌<◌, ◌≡◌, refl, ap, ◌∙◌, true, false, Option, none, some, List, [], ◌∷◌, arith,
  ltb, ◌==◌, inl, inr, Bool-cases, ◌++◌, sym,
}
use mathlib.Core.Path.{subst}
use froth.Spans.{
  Span, end, keep_span, cut_span, take_span, insert_span, widen, coalesce, coalesce_all, trim_tail,
  add_span, Canonical,
}

-- Nothing is joined in a canonical list.
coalesce-Canonical :
    (lo : ℕ) (s : Span) (ss : List Span) (extent : ℕ)
    → Canonical lo (s ∷ ss) extent
    → coalesce s ss ≡ s ∷ ss
unfolding coalesce
coalesce-Canonical lo s [] extent v = refl
coalesce-Canonical lo s (t ∷ ts) extent v =
    let apart : ltb (end s) t.offset ≡ true = ground arith in
    rw (apart, coalesce)
      (ap (λ (l : List Span). s ∷ l) (coalesce-Canonical (end s + 1) t ts extent v.3))

-- A canonical list does not reach the extent.
trim_tail-Canonical :
    (lo : ℕ) (ss : List Span) (extent : ℕ)
    → Canonical lo ss extent
    → trim_tail ss extent ≡ (ss, extent)
unfolding trim_tail
trim_tail-Canonical lo [] extent v = refl
trim_tail-Canonical lo (s ∷ []) extent v = ground arith
trim_tail-Canonical lo (s ∷ t ∷ ts) extent v =
    rw (trim_tail-Canonical (end s + 1) (t ∷ ts) extent v.3)

gap_before :
    (s y z : Span) → end s + 1 ≤ z.offset → z.offset ≡ y.offset → ltb (end s) y.offset ≡ true
gap_before s y z h e = ground arith

-- Joining keeps the first offset.
coalesce-head :
    (y : Span) (ys : List Span)
    → (z : Span) × (zs : List Span) × (coalesce y ys ≡ z ∷ zs) × (z.offset ≡ y.offset)
unfolding coalesce
coalesce-head y [] = (y, [], refl, refl)
coalesce-head y (c ∷ cs) = elim (Bool-cases (ltb (end y) c.offset)) [
  | inl e ↦ (y, coalesce c cs, rw (e, coalesce), refl)
  | inr e ↦
      let h = coalesce-head (widen y c) cs in (h.0, h.1, rw (e, coalesce) h.2, h.3 ∙ ground arith)
]

-- The run `offset` on is put back where it was.
abbrev run : ℕ → ℕ → Span
run o n = record { offset = o; length = n }

insert-front :
    (s : Span) (lo : ℕ) (ss : List Span) (extent : ℕ)
    → s.offset ≤ lo
    → Canonical lo ss extent
    → insert_span s ss ≡ s ∷ ss
unfolding insert_span
insert-front s lo [] extent h v = refl
insert-front s lo (t ∷ ts) extent h v = ground arith

widen-cut :
    (need : ℕ) (s : Span)
    → 0 < need
    → need < s.length
    → widen (run s.offset need) (run (s.offset + need) (s.length - need)) ≡ s
widen-cut need s h k = ground arith

insert-cut :
    (lo need : ℕ) (s : Span) (ss : List Span) (extent : ℕ)
    → 0 < need
    → need ≤ s.length
    → Canonical lo (s ∷ ss) extent
    → coalesce_all (insert_span (run s.offset need) (cut_span need s ss)) ≡ s ∷ ss
insert-cut lo need s ss extent h k v = elim (Bool-cases (s.length - need == 0)) [
  | inl e ↦
      let whole : need ≡ s.length = ground arith in
      rw (e, whole)
        (ap coalesce_all (insert-front s (end s + 1) ss extent (omega arith) v.3)
          ∙ coalesce-Canonical lo s ss extent v)
  | inr e ↦
      let front : insert_span (run s.offset need) (run (s.offset + need) (s.length - need) ∷ ss)
          ≡ run s.offset need ∷ run (s.offset + need) (s.length - need) ∷ ss =
        unfold insert_span in ground arith in
      rw e (ap coalesce_all front ∙ joined (ground arith))
]
  where
    joined :
        need < s.length
        → coalesce (run s.offset need) (run (s.offset + need) (s.length - need) ∷ ss) ≡ s ∷ ss
    joined k' =
        let touch : ltb (s.offset + need) (s.offset + need) ≡ false = ground arith in
        unfold coalesce in
        rw (touch, coalesce)
          (ap (λ (p : Span). coalesce p ss) (widen-cut need s h k')
            ∙ coalesce-Canonical lo s ss extent v)

abbrev Restores : ℕ → ℕ → List Span → Option (ℕ × List Span) → Type 0
Restores lo need ss none = Unit
Restores lo need ss (some (o, rest)) =
    (coalesce_all (insert_span (run o need) rest) ≡ ss) × (lo ≤ o)

Restores-keep :
    (lo need : ℕ) (s : Span) (ss : List Span) (extent : ℕ) (o : Option (ℕ × List Span))
    → Canonical lo (s ∷ ss) extent
    → Restores (end s + 1) need ss o
    → Restores lo need (s ∷ ss) (keep_span s o)
unfolding coalesce
Restores-keep lo need s ss extent none v r = tt
Restores-keep lo need s ss extent (some (o, rest)) v r =
    let past : insert_span (run o need) (s ∷ rest) ≡ s ∷ insert_span (run o need) rest =
      unfold insert_span in ground (arith, r.1) in
    (ap coalesce_all past ∙ apart (insert_span (run o need) rest) ss r.0 v, omega (arith, r.1))
  where
    apart :
        (l ss : List Span)
        → coalesce_all l ≡ ss
        → Canonical lo (s ∷ ss) extent
        → coalesce s l ≡ s ∷ ss
    apart [] ss e w = ap (λ (t : List Span). s ∷ t) e
    apart (y ∷ ys) ss e w =
        let head = coalesce-head y ys in
        let w' : Canonical lo (s ∷ head.0 ∷ head.1) extent =
          subst (λ t. Canonical lo (s ∷ t) extent) (sym e ∙ head.2) w in
        let gap : ltb (end s) y.offset ≡ true = gap_before s y head.0 w'.3.0 head.3 in
        rw (gap, coalesce) (ap (λ (t : List Span). s ∷ t) e)

-- A release of the run that first fit took gives the same free list again.
restores :
    (lo need : ℕ) (ss : List Span) (extent : ℕ)
    → 0 < need
    → Canonical lo ss extent
    → Restores lo need ss (take_span need ss)
unfolding take_span
restores lo need [] extent h v = tt
restores lo need (s ∷ ss) extent h v = elim (Bool-cases (ltb s.length need)) [
  | inl short ↦ rw short (
      Restores-keep lo need s ss extent (take_span need ss) v
        (restores (end s + 1) need ss extent h v.3))
  | inr fits ↦ rw fits (insert-cut lo need s ss extent h (ground arith) v, v.0)
]

pub add-take :
    (need o : ℕ) (ss rest : List Span) (extent : ℕ)
    → 0 < need
    → Canonical 0 ss extent
    → take_span need ss ≡ some (o, rest)
    → add_span (run o need) rest extent ≡ (ss, extent)
unfolding add_span
add-take need o ss rest extent h v e =
    let positive : (need == 0) ≡ false = ground arith in
    let back : Restores 0 need ss (some (o, rest)) =
      subst (λ r. Restores 0 need ss r) e (restores 0 need ss extent h v) in
    rw (positive, back.0) (trim_tail-Canonical 0 ss extent v)

insert-end :
    (lo n extent : ℕ) (ss : List Span)
    → Canonical lo ss extent
    → insert_span (run extent n) ss ≡ ss ++ run extent n ∷ []
unfolding insert_span
insert-end lo n extent [] v = refl
insert-end lo n extent (s ∷ ss) v =
    let before : ltb s.offset extent ≡ true = ground arith in
    rw before (ap (λ (t : List Span). s ∷ t) (insert-end (end s + 1) n extent ss v.3))

coalesce-end :
    (lo n extent : ℕ) (s : Span) (ss : List Span)
    → Canonical lo (s ∷ ss) extent
    → coalesce s (ss ++ run extent n ∷ []) ≡ s ∷ ss ++ run extent n ∷ []
unfolding coalesce
coalesce-end lo n extent s [] v = ground arith
coalesce-end lo n extent s (t ∷ ts) v =
    let apart : ltb (end s) t.offset ≡ true = ground arith in
    rw (apart, coalesce)
      (ap (λ (l : List Span). s ∷ l) (coalesce-end (end s + 1) n extent t ts v.3))

coalesce_all-end :
    (n extent : ℕ) (ss : List Span)
    → Canonical 0 ss extent
    → coalesce_all (ss ++ run extent n ∷ []) ≡ ss ++ run extent n ∷ []
unfolding coalesce
coalesce_all-end n extent [] v = refl
coalesce_all-end n extent (s ∷ ss) v = coalesce-end 0 n extent s ss v

trim-end :
    (lo n extent : ℕ) (ss : List Span)
    → Canonical lo ss extent
    → trim_tail (ss ++ run extent n ∷ []) (extent + n) ≡ (ss, extent)
unfolding trim_tail
trim-end lo n extent [] v = ground arith
trim-end lo n extent (s ∷ []) v = ground arith
trim-end lo n extent (s ∷ t ∷ ts) v = rw (trim-end (end s + 1) n extent (t ∷ ts) v.3)

-- Likewise for a run that was taken from behind the extent.
pub add-extend :
    (n extent : ℕ) (ss : List Span)
    → 0 < n
    → Canonical 0 ss extent
    → add_span (run extent n) ss (extent + n) ≡ (ss, extent)
unfolding add_span
add-extend n extent ss h v =
    let positive : (n == 0) ≡ false = ground arith in
    rw (positive, insert-end 0 n extent ss v, coalesce_all-end n extent ss v)
      (trim-end 0 n extent ss v)
