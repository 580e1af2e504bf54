-- ===== src/Names.antt =====
-- src/frothy_name_rules.h: which byte strings are names. isalpha and isalnum of <ctype.h> are
-- arguments; a string with its length is a list of bytes.
pub mod Segments
use froth.Base.{ℕ, Bool, true, false, not, ◌||◌, List, [], ◌∷◌, ◌==◌, if◌then◌else◌}

module _ (is_alpha is_alnum : ℕ → Bool) where
  -- frothy_name_byte_is_start
  abbrev pub is_start : ℕ → Bool
  is_start b = is_alpha b || b == b'_'

  -- frothy_name_byte_is_simple_continue
  abbrev pub is_simple_continue : ℕ → Bool
  is_simple_continue b = is_alnum b || b == b'_' || b == b'!' || b == b'?' || b == b'@'

  -- frothy_name_byte_is_slot_continue
  abbrev pub is_slot_continue : ℕ → Bool
  is_slot_continue b = is_simple_continue b || b == b'.'

  -- The loop of frothy_simple_name_bytes_are_valid.
  abbrev pub continues : List ℕ → Bool
  continues [] = true
  continues (b ∷ bs) = if b == 0 || not (is_simple_continue b) then false else continues bs

  -- frothy_simple_name_bytes_are_valid
  unfoldable pub simple_name_is_valid : List ℕ → Bool
  simple_name_is_valid [] = false
  simple_name_is_valid (b ∷ bs) = if not (is_start b) then false else continues bs

  -- The loop of frothy_slot_name_bytes_are_valid, with `expect_segment_start`.
  abbrev pub scan : Bool → List ℕ → Bool
  scan expect [] = not expect
  scan expect (b ∷ bs) =
      let rest_start = scan true bs in
      let rest = scan false bs in
      if b == 0
      then false
      else if expect
      then (if not (is_start b) then false else rest)
      else if b == b'.'
      then rest_start
      else if not (is_simple_continue b)
      then false
      else rest

  -- frothy_slot_name_bytes_are_valid
  unfoldable pub slot_name_is_valid : List ℕ → Bool
  slot_name_is_valid [] = false
  slot_name_is_valid (b ∷ bs) = scan true (b ∷ bs)
