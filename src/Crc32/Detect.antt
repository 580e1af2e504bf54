-- ===== src/Crc32/Detect.antt =====
-- What the checksum detects.
use froth.Base.{
  ℕ, zero, suc, ◌/◌, ◌%◌, ◌^◌, ◌≤◌, ◌<◌, ◌≡◌, ◌≢◌, refl, sym, ap, ◌∙◌, List, [], ◌∷◌, ◌++◌, arith,
  bit_xor, ◌==◌, if◌then◌else◌, Bool-cases, inl, inr, ltb,
}
use froth.Base.Bits.{bit_and_low, bit_xor-lt, bit_xor_back, bit_xor_comm}
use froth.Crc32.{crc_bit, crc_bits, crc_byte, crc32_update, crc32}

abbrev pub AreBytes : List ℕ → Type 0
AreBytes [] = Unit
AreBytes (b ∷ bs) = (b < 256) × AreBytes bs

-- A checksum is taken on by the next call.
pub crc32_update-append :
    (crc : ℕ) (xs ys : List ℕ) → crc32_update crc (xs ++ ys) ≡ crc32_update (crc32_update crc xs) ys
unfolding crc32_update
crc32_update-append crc [] ys = refl
crc32_update-append crc (x ∷ xs) ys = crc32_update-append (crc_byte crc x) xs ys

abbrev poly : ℕ
poly = 0xEDB88320

crc_bit-eq : (c : ℕ) → crc_bit c ≡ (if c % 2 == 0 then c / 2 else bit_xor (c / 2) poly)
unfolding crc_bit
crc_bit-eq c = rw (bit_and_low 1 c)

-- The polynomial sets the top digit, which the shift has cleared.
poly_sets_top : (a : ℕ) → a < 2 ^ 31 → (2 ^ 31 ≤ bit_xor a poly) × (bit_xor a poly < 2 ^ 32)
poly_sets_top a h =
    let back : bit_xor (bit_xor a poly) a ≡ poly =
      ap (λ (t : ℕ). bit_xor t a) (bit_xor_comm 32 a poly (omega arith) (omega arith))
      ∙ bit_xor_back 32 poly a (omega arith) (omega arith) in
    let small : bit_xor a poly < 2 ^ 32 = bit_xor-lt 32 a poly (omega arith) (omega arith) in
    (top (bit_xor a poly) back, small)
  where
    top : (x : ℕ) → bit_xor x a ≡ poly → 2 ^ 31 ≤ x
    top x e = elim (Bool-cases (ltb x (2 ^ 31))) [
      | inl low ↦ absurd (omega (arith, bit_xor-lt 31 x a (ground arith) h, e))
      | inr high ↦ ground arith
    ]

crc_bit-lt : (c : ℕ) → c < 2 ^ 32 → crc_bit c < 2 ^ 32
crc_bit-lt c h = rw crc_bit-eq (ground (arith, poly_sets_top (c / 2) (omega arith)))

crc_bit-injective : (a b : ℕ) → a < 2 ^ 32 → b < 2 ^ 32 → crc_bit a ≡ crc_bit b → a ≡ b
crc_bit-injective a b ha hb e = ground (
  arith,
  e,
  crc_bit-eq a,
  crc_bit-eq b,
  poly_sets_top (a / 2) (omega arith),
  poly_sets_top (b / 2) (omega arith),
  bit_xor_back 32 (a / 2) poly (omega arith) (omega arith),
  bit_xor_back 32 (b / 2) poly (omega arith) (omega arith),
)

crc_bits-lt : (n c : ℕ) → c < 2 ^ 32 → crc_bits n c < 2 ^ 32
crc_bits-lt zero c h = h
crc_bits-lt (suc n) c h = crc_bits-lt n (crc_bit c) (crc_bit-lt c h)

crc_bits-injective : (n a b : ℕ) → a < 2 ^ 32 → b < 2 ^ 32 → crc_bits n a ≡ crc_bits n b → a ≡ b
crc_bits-injective zero a b ha hb e = e
crc_bits-injective (suc n) a b ha hb e =
    crc_bit-injective a b ha hb
      (crc_bits-injective n (crc_bit a) (crc_bit b) (crc_bit-lt a ha) (crc_bit-lt b hb) e)

xor_injective :
    (a b c : ℕ) → a < 2 ^ 32 → b < 2 ^ 32 → c < 2 ^ 32 → bit_xor a c ≡ bit_xor b c → a ≡ b
xor_injective a b c ha hb hc e =
    sym (bit_xor_back 32 a c ha hc) ∙ ap (λ (t : ℕ). bit_xor t c) e ∙ bit_xor_back 32 b c hb hc

crc_byte-lt : (c b : ℕ) → c < 2 ^ 32 → b < 256 → crc_byte c b < 2 ^ 32
unfolding crc_byte
crc_byte-lt c b h k = crc_bits-lt 8 (bit_xor c b) (bit_xor-lt 32 c b h (omega arith))

pub crc32_update-lt : (c : ℕ) (bs : List ℕ) → c < 2 ^ 32 → AreBytes bs → crc32_update c bs < 2 ^ 32
unfolding crc32_update
crc32_update-lt c [] h k = h
crc32_update-lt c (b ∷ bs) h k = crc32_update-lt (crc_byte c b) bs (crc_byte-lt c b h k.0) k.1

-- A checksum is a 32-bit word.
pub crc32-lt : (bs : List ℕ) → AreBytes bs → crc32 bs < 2 ^ 32
unfolding crc32
crc32-lt bs h =
    bit_xor-lt 32 (crc32_update 0xFFFF_FFFF bs) 0xFFFF_FFFF
      (crc32_update-lt 0xFFFF_FFFF bs (omega arith) h) (omega arith)

crc32_update-injective :
    (a b : ℕ) (bs : List ℕ)
    → a < 2 ^ 32
    → b < 2 ^ 32
    → AreBytes bs
    → crc32_update a bs ≡ crc32_update b bs
    → a ≡ b
unfolding crc32_update
crc32_update-injective a b [] ha hb k e = e
crc32_update-injective a b (x ∷ xs) ha hb k e = xor_injective a b x ha hb (omega (arith, k.0)) (
    unfold crc_byte in
    crc_bits-injective 8 (bit_xor a x) (bit_xor b x) (bit_xor-lt 32 a x ha (omega (arith, k.0)))
      (bit_xor-lt 32 b x hb (omega (arith, k.0)))
      (crc32_update-injective (crc_byte a x) (crc_byte b x) xs (crc_byte-lt a x ha k.0)
        (crc_byte-lt b x hb k.0) k.1 e))

-- The checksum tells apart any two byte strings that differ in exactly one byte.
pub crc32_detects :
    (xs ys : List ℕ) (b c : ℕ)
    → AreBytes xs
    → AreBytes ys
    → b < 256
    → c < 256
    → b ≢ c
    → crc32 (xs ++ b ∷ ys) ≢ crc32 (xs ++ c ∷ ys)
unfolding crc32
crc32_detects xs ys b c hx hy hb hc differ e =
    let state = crc32_update 0xFFFF_FFFF xs in
    let small : state < 2 ^ 32 = crc32_update-lt 0xFFFF_FFFF xs (omega arith) hx in
    let all_lt : (d : ℕ) → d < 256 → crc32_update (crc_byte state d) ys < 2 ^ 32 =
      λ d hd. crc32_update-lt (crc_byte state d) ys (crc_byte-lt state d small hd) hy in
    let tails : crc32_update (crc_byte state b) ys ≡ crc32_update (crc_byte state c) ys =
      xor_injective (crc32_update (crc_byte state b) ys) (crc32_update (crc_byte state c) ys)
        0xFFFF_FFFF (all_lt b hb) (all_lt c hc) (omega arith) (rw (split b, split c) at e) in
    differ (
      same state small (
        crc32_update-injective (crc_byte state b) (crc_byte state c) ys
          (crc_byte-lt state b small hb) (crc_byte-lt state c small hc) hy tails))
  where
    split :
        (d : ℕ)
        → crc32_update 0xFFFF_FFFF (xs ++ d ∷ ys)
          ≡ crc32_update (crc_byte (crc32_update 0xFFFF_FFFF xs) d) ys
    split d = crc32_update-append 0xFFFF_FFFF xs (d ∷ ys) ∙ unfold crc32_update in refl

    same : (s : ℕ) → s < 2 ^ 32 → crc_byte s b ≡ crc_byte s c → b ≡ c
    same s h q =
        let xors : bit_xor s b ≡ bit_xor s c =
          crc_bits-injective 8 (bit_xor s b) (bit_xor s c) (bit_xor-lt 32 s b h (omega arith))
            (bit_xor-lt 32 s c h (omega arith)) (unfold crc_byte in q) in
        xor_injective b c s (omega arith) (omega arith) h
          (bit_xor_comm 32 b s (omega arith) h ∙ xors ∙ bit_xor_comm 32 s c h (omega arith))
