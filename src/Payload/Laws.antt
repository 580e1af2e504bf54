-- ===== src/Payload/Laws.antt =====
-- The payload heap hands out bytes that nobody else has, takes them back, and counts them.
use froth.Base.{
  ℕ, ◌+◌, ◌-◌, ◌*◌, ◌/◌, ◌%◌, ◌≤◌, ◌<◌, ◌≡◌, refl, Bool, true, false, not, ◌&&◌, ◌||◌, Option, none,
  some, List, [], ◌∷◌, arith, leb, ltb, ◌==◌, if◌then◌else◌, inl, inr, Bool-cases,
}
use native.Mathlib.Nat.{div-add-mod, mod-lt}
use froth.Status.{Result, ok, err, heap_out_of_memory}
use froth.Spans.{Span, end, in_span, is_free, covers, Canonical, add_span, take_span}
use froth.Spans.Take.{has_room, Fits, take_span-Fits}
use froth.Spans.Restore.{add-take, add-extend}
use froth.Payload.{Payload, align_up, charge, alloc_from, alloc_reserved, alloc_payload}
use froth.Payload.Count.{count_taken, count_taken-release}

-- A canonical list covers nothing from the extent on.
covers-lt :
    (lo : ℕ) (ss : List Span) (extent x : ℕ)
    → Canonical lo ss extent
    → covers ss x ≡ true
    → x < extent
covers-lt lo [] extent x v h = cc
covers-lt lo (s ∷ ss) extent x v h = ground (arith, covers-lt (end s + 1) ss extent x v.3)

Canonical-grow :
    (lo : ℕ) (ss : List Span) (extent n : ℕ) → Canonical lo ss extent → Canonical lo ss (extent + n)
Canonical-grow lo [] extent n v = v
Canonical-grow lo (s ∷ ss) extent n v =
    (v.0, v.1, omega arith, Canonical-grow (end s + 1) ss extent n v.3)

abbrev pub free_at : Payload → ℕ → Bool
free_at p x = is_free p.free_spans p.extent x

-- The heap as its operations keep it; the last field says that `bytes_used` counts the bytes that
-- are handed out.
pub record IsValid (size_max : ℕ) (p : Payload) : Type 0 where
  pub canonical : Canonical 0 p.free_spans p.extent
  pub bounded : p.extent ≤ p.capacity
  pub sized : p.capacity ≤ size_max
  pub counted : p.bytes_used ≡ count_taken p.capacity (free_at p)
  pub marked : p.bytes_used ≤ p.bytes_high_water

-- A successful allocation of `n` bytes: where it lies, and what it changes.
pub record Allocated (size_max n : ℕ) (p : Payload) (s : Span) (p' : Payload) : Type 0 where
  pub size : s.length ≡ n
  pub inside : end s ≤ p.capacity
  pub was_free : (x : ℕ) → in_span s x ≡ true → free_at p x ≡ true
  pub left : (x : ℕ) → free_at p' x ≡ (free_at p x && not (in_span s x))
  pub valid : IsValid size_max p'
  pub undone : (add_span s p'.free_spans p'.extent) ≡ (p.free_spans, p.extent)
  pub used : p'.bytes_used ≡ p.bytes_used + n
  pub same_capacity : p'.capacity ≡ p.capacity

-- What an allocation of `n` bytes may return: a fresh span, or `heap_out_of_memory` with the heap
-- unchanged, and then no free span is long enough and the extent cannot grow by `n`.
abbrev pub Outcome : ℕ → ℕ → Payload → Result Span × Payload → Type 0
Outcome size_max n p (ok s, p') = Allocated size_max n p s p'
Outcome size_max n p (err e, p') =
    (e ≡ heap_out_of_memory)
    × (p' ≡ p)
    × (has_room n p.free_spans ≡ false)
    × (p.capacity < p.extent + n)

module _ (size_max n : ℕ) (positive : 0 < n) (p : Payload) (v : IsValid size_max p) where
  counted_after :
      (s : Span) (p' : Payload)
      → s.length ≡ n
      → end s ≤ p.capacity
      → p'.capacity ≡ p.capacity
      → ((x : ℕ) → in_span s x ≡ true → free_at p x ≡ true)
      → ((x : ℕ) → free_at p' x ≡ (free_at p x && not (in_span s x)))
      → p.bytes_used + n ≡ count_taken p'.capacity (free_at p')
  counted_after s p' size inside cap was left =
      let release =
        count_taken-release p.capacity s (free_at p') (free_at p) inside
          (λ x. ground (arith, was x, left x)) (λ x h. ground (arith, left x)) in
      rw cap (omega (arith, release, v.counted, size))

  alloc_from-Outcome :
      (o : Option (ℕ × List Span))
      → take_span n p.free_spans ≡ o
      → Fits 0 n p.free_spans p.extent o
      → Outcome size_max n p (alloc_from n o p)
  unfolding alloc_from
  alloc_from-Outcome none e f =
      elim (Bool-cases (ltb p.capacity n || ltb (p.capacity - n) p.extent)) [
        | inl full ↦ rw full (refl, refl, f, ground arith)
        | inr room ↦ rw room (extended (ground arith))
      ]
    where
      s : Span
      s = record { offset = p.extent; length = n }

      grown : Payload
      grown = (charge p.extent n (record p { extent = p.extent + n })).1

      below : (x : ℕ) → covers p.free_spans x ≡ true → x < p.extent
      below x = covers-lt 0 p.free_spans p.extent x v.canonical

      left : (x : ℕ) → free_at grown x ≡ (free_at p x && not (in_span s x))
      left x = unfold charge in ground (arith, below x)

      extended : p.extent + n ≤ p.capacity → Allocated size_max n p s grown
      extended fits =
          unfold charge in
          record {
            size = refl;
            inside = fits;
            was_free = λ x h. ground arith;
            left = left;
            valid = record {
              canonical = Canonical-grow 0 p.free_spans p.extent n v.canonical;
              bounded = fits;
              sized = v.sized;
              counted = counted_after s grown refl fits refl (λ x h. ground arith) left;
              marked = ground (arith, v.marked);
            };
            undone = add-extend n p.extent p.free_spans positive v.canonical;
            used = refl;
            same_capacity = refl;
          }
  alloc_from-Outcome (some (o, rest)) e f =
      unfold charge in
      record {
        size = refl;
        inside = omega (arith, f.0.inside, v.bounded);
        was_free = λ x h. ground (arith, f.0.was_free x);
        left = left;
        valid = record {
          canonical = f.0.canonical;
          bounded = v.bounded;
          sized = v.sized;
          counted =
              counted_after s taken refl (omega (arith, f.0.inside, v.bounded)) refl
                (λ x h. ground (arith, f.0.was_free x)) left;
          marked = ground (arith, v.marked);
        };
        undone = add-take n o p.free_spans rest p.extent positive v.canonical e;
        used = refl;
        same_capacity = refl;
      }
    where
      s : Span
      s = record { offset = o; length = n }

      taken : Payload
      taken = (charge o n (record p { free_spans = rest })).1

      left : (x : ℕ) → free_at taken x ≡ (free_at p x && not (in_span s x))
      left x = unfold charge in ground (arith, f.0.left x, f.0.inside)

module _ (alignment size_max : ℕ) where
  -- Rounding up gives the next multiple of the alignment, less than `alignment` above the value; it
  -- fails exactly if that multiple exceeds SIZE_MAX.
  pub align_up_lem :
      (value : ℕ)
      → 0 < alignment
      → alignment ≤ size_max
      → value ≤ size_max
      → let up = (value / alignment + (if value % alignment == 0 then 0 else 1)) * alignment in
        (align_up alignment size_max value
          ≡ (if leb up size_max then ok up else err heap_out_of_memory))
        × (value ≤ up)
        × (up < value + alignment)
  unfolding align_up
  align_up_lem value h a b =
      let split : alignment * (value / alignment) + value % alignment ≡ value =
        div-add-mod value alignment in
      let small : value % alignment < alignment = mod-lt value h in
      elim (Bool-cases (value % alignment == 0)) [
        | inl e ↦
            let same : (value / alignment + 0) * alignment ≡ value = ground arith in
            rw (e, same) (ground arith, ground arith, ground arith)
        | inr e ↦
            let same : (value / alignment + 1) * alignment
                ≡ value + (alignment - value % alignment) =
              ground arith in
            rw (e, same) (ground arith, ground arith, ground arith)
      ]

  -- On a valid heap an allocation whose rounded size is `n` either returns `n` fresh bytes, which
  -- were free and are now the only ones taken more, and keeps the heap valid; or it fails, with the
  -- heap unchanged, when neither a free span nor the rest of the heap has `n` bytes in a row.
  pub alloc_payload-Outcome :
      (length n : ℕ) (p : Payload)
      → align_up alignment size_max length ≡ ok n
      → 0 < n
      → IsValid size_max p
      → Outcome size_max n p (alloc_payload alignment size_max length p)
  unfolding alloc_payload
  alloc_payload-Outcome length n p e h v =
      let positive : (n == 0) ≡ false = ground arith in
      rw (e, alloc_reserved, positive)
        (alloc_from-Outcome size_max n h p v (take_span n p.free_spans) refl
          (take_span-Fits 0 n p.free_spans p.extent h v.canonical))
