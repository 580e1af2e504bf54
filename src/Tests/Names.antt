-- ===== src/Tests/Names.antt =====
-- The names of src/frothy_name_rules.h at concrete inputs, with the letters and digits of ASCII.
use froth.Base.{ℕ, ◌≡◌, refl, Bool, true, false, ◌&&◌, ◌||◌, List, [], ◌∷◌, leb}
use froth.Names.{simple_name_is_valid, slot_name_is_valid}
use froth.Names.Segments.{all_valid, slot_name_is_valid-segments}

abbrev is_alpha : ℕ → Bool
is_alpha b = (leb b'a' b && leb b b'z') || (leb b'A' b && leb b b'Z')

abbrev is_alnum : ℕ → Bool
is_alnum b = is_alpha b || (leb b'0' b && leb b b'9')

-- "a.b1"
abbrev dotted : List ℕ
dotted = b'a' ∷ b'.' ∷ b'b' ∷ b'1' ∷ []

dotted_is_valid : slot_name_is_valid is_alpha is_alnum dotted ≡ true
unfolding slot_name_is_valid
dotted_is_valid = refl

no_trailing_dot : slot_name_is_valid is_alpha is_alnum (b'a' ∷ b'.' ∷ []) ≡ false
unfolding slot_name_is_valid
no_trailing_dot = refl

slot_name_is_valid-segments_example :
    slot_name_is_valid is_alpha is_alnum dotted
    ≡ all_valid (simple_name_is_valid is_alpha is_alnum) ((b'a' ∷ []) ∷ (b'b' ∷ b'1' ∷ []) ∷ [])
slot_name_is_valid-segments_example = slot_name_is_valid-segments is_alpha is_alnum refl refl dotted
