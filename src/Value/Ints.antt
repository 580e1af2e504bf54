-- ===== src/Value/Ints.antt =====
-- Integers in values: 30 bits, with a round trip for those that fit and a wrap for the others.
use froth.Base.{
  ℕ, ◌-◌, ◌*◌, ◌/◌, ◌%◌, ◌^◌, ◌<◌, ◌≡◌, Bool, true, false, ◌&&◌, arith, bit_and, ◌==◌,
  if◌then◌else◌, ltb, ◌∙◌,
}
use froth.Base.Bits.{bit_and_low, bit_and_digit, bit_or_sum_swapped}
use froth.Base.Int.{ℤ, pos, negsuc, to_u32, leb_ℤ}
use froth.Status.{ok, err, value_overflow}
use froth.Value.{int_min, int_max, make_int, as_int, is_int, wrap_int}

abbrev pub in_range : ℤ → Bool
in_range z = leb_ℤ int_min z && leb_ℤ z int_max

-- An integer of at most 30 bits makes a word with the tag of integers from which it is read back;
-- any other is refused.
pub as_int-make_int :
    (z : ℤ)
    → (in_range z ≡ true
        → (w : ℕ) × (make_int z ≡ ok w) × (w < 2 ^ 32) × (is_int w ≡ true) × (as_int w ≡ z))
      × (in_range z ≡ false → make_int z ≡ err value_overflow)
unfolding make_int is_int as_int
as_int-make_int (pos n) = (
  λ h. (n * 4, ground arith, ground arith, ground (arith, bit_and_low 2 (n * 4)), ground arith),
  λ h. ground arith,
)
as_int-make_int (negsuc n) = (
  λ h. (
    2 ^ 32 - 4 - n * 4,
    ground arith,
    ground arith,
    ground (arith, bit_and_low 2 (2 ^ 32 - 4 - n * 4)),
    ground arith,
  ),
  λ h. ground arith,
)

-- Every word with the tag of integers is the word of exactly the integer that is read from it.
pub make_int-as_int : (w : ℕ) → w < 2 ^ 32 → is_int w ≡ true → make_int (as_int w) ≡ ok w
unfolding make_int is_int as_int
make_int-as_int w h e = ground (arith, bit_and_low 2 w)

-- The low 30 bits, read as a two's complement number.
abbrev signed30 : ℕ → ℤ
signed30 b = if bit_and b (2 ^ 29) == 0 then pos b else negsuc (2 ^ 30 - 1 - b)

wrap_int-eq : (raw : ℤ) → wrap_int raw ≡ signed30 (to_u32 raw % 2 ^ 30)
unfolding wrap_int
wrap_int-eq raw = rw (bit_and_low 30 (to_u32 raw)) (
    ground (
      arith,
      bit_and_digit 29 (to_u32 raw % 2 ^ 30 / 2 ^ 29) (to_u32 raw % 2 ^ 30 % 2 ^ 29) (omega arith),
      bit_or_sum_swapped 30 3 (to_u32 raw % 2 ^ 30) (omega arith),
    ))

signed30-eq :
    (b : ℕ) → b < 2 ^ 30 → signed30 b ≡ (if ltb b (2 ^ 29) then pos b else negsuc (2 ^ 30 - 1 - b))
signed30-eq b h = ground (arith, bit_and_digit 29 (b / 2 ^ 29) (b % 2 ^ 29) (omega arith))

wrap_int-cases :
    (raw : ℤ)
    → let b = to_u32 raw % 2 ^ 30 in
      wrap_int raw ≡ (if ltb b (2 ^ 29) then pos b else negsuc (2 ^ 30 - 1 - b))
wrap_int-cases raw = wrap_int-eq raw ∙ signed30-eq (to_u32 raw % 2 ^ 30) (omega arith)

-- Wrapping gives a 30-bit integer that agrees with the argument modulo 2^30, and leaves alone an
-- argument that already fits.
pub wrap_int_lem :
    (raw : ℤ)
    → (in_range (wrap_int raw) ≡ true)
      × (to_u32 (wrap_int raw) % 2 ^ 30 ≡ to_u32 raw % 2 ^ 30)
      × (in_range raw ≡ true → wrap_int raw ≡ raw)
wrap_int_lem (pos n) = rw (wrap_int-cases (pos n)) (ground arith, ground arith, λ h. ground arith)
wrap_int_lem (negsuc n) =
    rw (wrap_int-cases (negsuc n)) (ground arith, ground arith, λ h. ground arith)
