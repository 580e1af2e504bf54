-- ===== src/Payload/Count.antt =====
-- Counting the units of a heap that are not free.
use Prim.Native.Nat.{min}
use froth.Base.{
  ℕ, zero, suc, ◌+◌, ◌-◌, ◌≤◌, ◌≡◌, refl, Bool, true, false, ◌||◌, arith, if◌then◌else◌,
}
use froth.Spans.{Span, end, in_span}

-- How many numbers below `n` do not satisfy the test.
abbrev pub count_taken : ℕ → (ℕ → Bool) → ℕ
count_taken zero free = 0
count_taken (suc n) free = count_taken n free + (if free n then 0 else 1)

pub count_taken-ext :
    (n : ℕ) (f g : ℕ → Bool) → ((x : ℕ) → f x ≡ g x) → count_taken n f ≡ count_taken n g
count_taken-ext zero f g h = refl
count_taken-ext (suc n) f g h = ground (arith, count_taken-ext n f g h, h n)

pub count_taken-zero : (n : ℕ) (f : ℕ → Bool) → ((x : ℕ) → f x ≡ true) → count_taken n f ≡ 0
count_taken-zero zero f h = refl
count_taken-zero (suc n) f h = ground (arith, count_taken-zero n f h, h n)

-- How many units of a span lie below `n`.
abbrev span_below : Span → ℕ → ℕ
span_below s n = min n (end s) - min n s.offset

released_below :
    (n : ℕ) (s : Span) (f g : ℕ → Bool)
    → ((x : ℕ) → g x ≡ (f x || in_span s x))
    → ((x : ℕ) → in_span s x ≡ true → f x ≡ false)
    → count_taken n f ≡ count_taken n g + span_below s n
released_below zero s f g h k = omega arith
released_below (suc n) s f g h k = ground (arith, released_below n s f g h k, h n, k n)

-- If `g` is free where `f` is free and in a span that `f` holds taken, then it has fewer units taken by
-- the span's length.
pub count_taken-release :
    (n : ℕ) (s : Span) (f g : ℕ → Bool)
    → end s ≤ n
    → ((x : ℕ) → g x ≡ (f x || in_span s x))
    → ((x : ℕ) → in_span s x ≡ true → f x ≡ false)
    → count_taken n f ≡ count_taken n g + s.length
count_taken-release n s f g fits h k = omega (arith, released_below n s f g h k)
