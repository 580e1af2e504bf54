-- ===== src/Payload/Release.antt =====
-- Giving payload bytes back.
use froth.Base.{ℕ, ◌+◌, ◌-◌, ◌≤◌, ◌<◌, ◌≡◌, true, false, ◌||◌, arith, ◌==◌}
use mathlib.Core.Path.{subst}
use froth.Status.{ok}
use froth.Spans.{Span, end, in_span, Canonical, add_span}
use froth.Spans.Trim.{add_span_lem}
use froth.Payload.{Payload, align_up, alloc_payload, release_payload}
use froth.Payload.Count.{count_taken, count_taken-release}
use froth.Payload.Laws.{IsValid, free_at, Allocated, Outcome, alloc_payload-Outcome}

module _ (alignment size_max : ℕ) (s : Span) (p : Payload) (v : IsValid size_max p)
    (some_bytes : 0 < s.length) (taken : (x : ℕ) → in_span s x ≡ true → free_at p x ≡ false) where
  inside : end s ≤ p.extent
  inside = ground (arith, taken (end s - 1))

  abbrev after : Payload
  after = release_payload alignment size_max s p

  not_empty : (s.length == 0) ≡ false
  not_empty = ground arith

  release-eq : after ≡ record p {
    free_spans = (add_span s p.free_spans p.extent).0;
    extent = (add_span s p.free_spans p.extent).1;
    bytes_used = after.bytes_used;
  }
  unfolding release_payload
  release-eq = rw not_empty

  released :
      (x : ℕ)
      → (free_at after x ≡ (free_at p x || in_span s x))
        × Canonical 0 after.free_spans after.extent
        × (after.extent ≤ p.extent)
  unfolding release_payload
  released x = rw not_empty (add_span_lem s p.free_spans p.extent v.canonical inside x)

  counted_after :
      count_taken p.capacity (free_at p) ≡ count_taken p.capacity (free_at after) + s.length
  counted_after =
      count_taken-release p.capacity s (free_at p) (free_at after)
        (omega (arith, inside, v.bounded)) (λ x. (released x).0) taken

  same_capacity : after.capacity ≡ p.capacity
  unfolding release_payload
  same_capacity = rw not_empty

  used_after : after.bytes_used + s.length ≡ p.bytes_used
  unfolding release_payload
  used_after =
      let enough : s.length ≤ p.bytes_used = omega (arith, counted_after, v.counted) in
      rw not_empty (ground arith)

  mark_after : after.bytes_high_water ≡ p.bytes_high_water
  unfolding release_payload
  mark_after = rw not_empty

  -- Releasing a span of bytes that are handed out makes exactly those bytes free again, subtracts
  -- their number from `bytes_used`, and keeps the heap valid.
  pub release_payload_lem :
      IsValid size_max after
      × ((x : ℕ) → free_at after x ≡ (free_at p x || in_span s x))
      × (after.bytes_used + s.length ≡ p.bytes_used)
  release_payload_lem = (
    record {
      canonical = (released 0).1;
      bounded = rw same_capacity (omega (arith, (released 0).2, v.bounded));
      sized = rw same_capacity v.sized;
      counted = rw same_capacity (omega (arith, counted_after, v.counted, used_after));
      marked = omega (arith, used_after, mark_after, v.marked);
    },
    λ x. (released x).0,
    used_after,
  )

module _ (alignment size_max length n : ℕ) (p : Payload) (s : Span) (p' : Payload)
    (rounded : align_up alignment size_max length ≡ ok n) (positive : 0 < n)
    (v : IsValid size_max p) (done : alloc_payload alignment size_max length p ≡ (ok s, p')) where
  -- Releasing what was just allocated gives back the heap as it was, free list, extent and count,
  -- but for the high water mark.
  pub release-alloc_payload :
      release_payload alignment size_max s p' ≡ record p { bytes_high_water = p'.bytes_high_water }
  unfolding release_payload
  release-alloc_payload =
      let a : Allocated size_max n p s p' =
        subst (Outcome size_max n p) done
          (alloc_payload-Outcome alignment size_max length n p rounded positive v) in
      let not_empty : (s.length == 0) ≡ false = ground (arith, a.size) in
      rw (not_empty, a.undone) (ground (arith, a.size, a.used, a.same_capacity))
