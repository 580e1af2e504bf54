-- ===== src/Objects/Bytes.antt =====
-- Reading bytes of src/frothy_value.c's payload after a write of others.
use native.Mathlib.Nat.{zero-add}
use froth.Base.{
  ℕ, zero, suc, ◌+◌, ◌<◌, ◌≤◌, ◌≡◌, ◌⊎◌, refl, sym, ap, ◌∙◌, List, [], ◌∷◌, ◌++◌, arith, ltb,
  length, get_or, take, drop, write_at, Bool-cases, inl, inr, length-write_at, length-take,
  length-drop, get_or-take, get_or-past, get_or_ext, get_or-write_below, get_or-write_above,
}

get_or-drop : (n i : ℕ) (xs : List ℕ) → get_or (drop n xs) i 0 ≡ get_or xs (n + i) 0
get_or-drop zero i xs = ap (λ (k : ℕ). get_or xs k 0) (sym (zero-add i))
get_or-drop (suc n) i [] = refl
get_or-drop (suc n) i (x ∷ xs) = get_or-drop n i xs ∙ ap (λ (k : ℕ). get_or (x ∷ xs) k 0) next
  where
    next : suc (n + i) ≡ suc n + i
    next = omega arith

-- Bytes that a write does not reach.
pub read_elsewhere :
    (m o at : ℕ) (src dst : List ℕ)
    → ((x : ℕ) → o ≤ x → x < o + m → (x < at) ⊎ (at + length src ≤ x))
    → take m (drop o (write_at at src dst)) ≡ take m (drop o dst)
read_elsewhere m o at src dst apart =
    get_or_ext 0 (take m (drop o (write_at at src dst))) (take m (drop o dst)) size point
  where
    size : length (take m (drop o (write_at at src dst))) ≡ length (take m (drop o dst))
    size = omega (
      arith,
      length-take m (drop o (write_at at src dst)),
      length-take m (drop o dst),
      length-drop o (write_at at src dst),
      length-drop o dst,
      length-write_at at src dst,
    )

    byte :
        (x : ℕ)
        → (x < at) ⊎ (at + length src ≤ x)
        → get_or (write_at at src dst) x 0 ≡ get_or dst x 0
    byte x (inl h) = get_or-write_below at src dst x 0 h
    byte x (inr h) = get_or-write_above at src dst x 0 h

    point :
        (i : ℕ)
        → get_or (take m (drop o (write_at at src dst))) i 0 ≡ get_or (take m (drop o dst)) i 0
    point i = elim (Bool-cases (ltb i m)) [
      | inl e ↦
          get_or-take m (drop o (write_at at src dst)) i 0 (ground arith)
          ∙ get_or-drop o i (write_at at src dst)
          ∙ byte (o + i) (apart (o + i) (omega arith) (ground arith))
          ∙ sym (get_or-drop o i dst)
          ∙ sym (get_or-take m (drop o dst) i 0 (ground arith))
      | inr e ↦
          get_or-past (take m (drop o (write_at at src dst))) i 0
            (ground (arith, length-take m (drop o (write_at at src dst))))
          ∙ sym (get_or-past (take m (drop o dst)) i 0 (ground (arith, length-take m (drop o dst))))
    ]

-- Bytes that were written.
pub read_written :
    (at : ℕ) (xs ys dst : List ℕ)
    → at + length xs ≤ length dst
    → take (length xs) (drop at (write_at at (xs ++ ys) dst)) ≡ xs
read_written at [] ys dst h = refl
read_written zero (x ∷ xs) ys [] h = absurd (omega arith)
read_written zero (x ∷ xs) ys (d ∷ dst) h =
    ap (λ (t : List ℕ). x ∷ t) (read_written zero xs ys dst (omega arith))
read_written (suc at) (x ∷ xs) ys [] h = absurd (omega arith)
read_written (suc at) (x ∷ xs) ys (d ∷ dst) h = read_written at (x ∷ xs) ys dst (omega arith)
