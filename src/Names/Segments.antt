-- ===== src/Names/Segments.antt =====
-- The names of slots of src/frothy_name_rules.h as dotted lists of simple names.
use froth.Base.{ℕ, ◌≡◌, refl, Bool, true, false, ◌&&◌, List, [], ◌∷◌, arith, ◌==◌, if◌then◌else◌}
use froth.Names.{is_start, continues, simple_name_is_valid, scan, slot_name_is_valid}

-- The parts between the dots: the first one, and those behind it.
abbrev pub first_part : List ℕ → List ℕ
first_part [] = []
first_part (b ∷ bs) = if b == b'.' then [] else b ∷ first_part bs

abbrev pub more_parts : List ℕ → List (List ℕ)
more_parts [] = []
more_parts (b ∷ bs) =
    let behind = first_part bs ∷ more_parts bs in if b == b'.' then behind else more_parts bs

abbrev pub all_valid : (List ℕ → Bool) → List (List ℕ) → Bool
all_valid p [] = true
all_valid p (x ∷ xs) = p x && all_valid p xs

module _ (is_alpha is_alnum : ℕ → Bool) (dot : is_alpha b'.' ≡ false)
    (nul : is_alpha 0 ≡ false) where
  abbrev valid : List ℕ → Bool
  valid = simple_name_is_valid is_alpha is_alnum

  dot-start : (b : ℕ) → (b == b'.') ≡ true → is_start is_alpha is_alnum b ≡ false
  dot-start b e = let is_dot : b ≡ b'.' = ground arith in rw is_dot (rw dot refl)

  nul-start : (b : ℕ) → (b == 0) ≡ true → is_start is_alpha is_alnum b ≡ false
  nul-start b e = let is_nul : b ≡ 0 = ground arith in rw is_nul (rw nul refl)

  -- What the scan of a part still has to find.
  abbrev part_valid : Bool → List ℕ → Bool
  part_valid expect part = if expect then valid part else continues is_alpha is_alnum part

  scan-parts :
      (expect : Bool) (bs : List ℕ)
      → scan is_alpha is_alnum expect bs
        ≡ (part_valid expect (first_part bs) && all_valid valid (more_parts bs))
  unfolding simple_name_is_valid
  scan-parts true [] = refl
  scan-parts false [] = refl
  scan-parts true (b ∷ bs) = ground (arith, scan-parts false bs, dot-start b, nul-start b)
  scan-parts false (b ∷ bs) = ground (arith, scan-parts false bs, scan-parts true bs)

  -- A byte string is the name of a slot exactly if every part between its dots is a simple name, for
  -- an isalpha that does not accept the dot and the NUL byte.
  pub slot_name_is_valid-segments :
      (bs : List ℕ)
      → slot_name_is_valid is_alpha is_alnum bs ≡ all_valid valid (first_part bs ∷ more_parts bs)
  unfolding slot_name_is_valid simple_name_is_valid
  slot_name_is_valid-segments [] = refl
  slot_name_is_valid-segments (b ∷ bs) = scan-parts true (b ∷ bs)
