-- ===== src/Codec/Values/Checked.antt =====
-- What the check of src/frothy_snapshot_codec.c accepts as a value, and what the decoder makes of it.
use froth.Base.{
  ◌<◌, ℕ, ◌-◌, ◌^◌, ◌≡◌, ◌⊎◌, refl, sym, ap, ◌∙◌, arith, ◌&&◌, Bool, true, false, not, ◌||◌, List,
  leb, ◌==◌, length, get_or, Bool-cases, inl, inr,
}
use froth.Base.Int.{ℤ, leb_ℤ}
use froth.Status.{Error, Result, ok, err, value_overflow, snapshot_format, not_persistable}
use froth.Value.{make_nil, make_bool, make_int, int_min, int_max}
use mathlib.Core.Path.{subst}
use froth.Codec.Get.{Get, ◌>>=◌, give, require, read_u8, read_u32, read_i32}
use froth.Codec.Measure.Agrees.{carry-ok, not_ok}
use froth.Codec.Values.{
  ValueTag, nil_tag, false_tag, true_tag, int_tag, object_tag, unknown_tag, to_tag, made,
  decode_tag, read_value, check_tag, validate_value,
}

-- Whether a number fits the 30 bits of a value.
abbrev pub fits_value : ℤ → Bool
fits_value z = leb_ℤ int_min z && leb_ℤ z int_max

-- The value that a tag and the bytes behind it stand for, with `rest` left: nil, a truth value, a
-- number that fits, or the decoded object with the number that is read.
abbrev pub StandsFor : List ℕ → ValueTag → List ℕ → List ℕ → ℕ × Bool → Type 0
StandsFor objects nil_tag bs rest v = v ≡ (make_nil, false)
StandsFor objects false_tag bs rest v = v ≡ (make_bool false, false)
StandsFor objects true_tag bs rest v = v ≡ (make_bool true, false)
StandsFor objects int_tag bs rest v =
    (z : ℤ) × (read_i32 bs ≡ ok (z, rest))
    × (fits_value z ≡ true)
    × (make_int z ≡ ok v.0)
    × (v.1 ≡ false)
StandsFor objects object_tag bs rest v =
    (i : ℕ) × (read_u32 bs ≡ ok (i, rest)) × (i < length objects) × (v ≡ (get_or objects i 0, true))
StandsFor objects (unknown_tag k) bs rest v = ⊥

-- The same bytes are taken, or there is a number behind the tag that does not fit a value.
abbrev pub TakesOrOverflows :
    List ℕ → ValueTag → List ℕ → Result ((ℕ × Bool) × List ℕ) → List ℕ → Type 0
TakesOrOverflows objects tag bs r rest =
    ((v : ℕ × Bool) × (r ≡ ok (v, rest)) × StandsFor objects tag bs rest v)
    ⊎ ((z : ℤ) × (tag ≡ int_tag)
        × (read_i32 bs ≡ ok (z, rest))
        × (fits_value z ≡ false)
        × (r ≡ err value_overflow))

made_cases :
    (objects : List ℕ) (z : ℤ) (bs rest : List ℕ)
    → read_i32 bs ≡ ok (z, rest)
    → TakesOrOverflows objects int_tag bs (made (make_int z) rest) rest
unfolding make_int
made_cases objects z bs rest e =
    elim (Bool-cases (not (leb_ℤ int_min z) || not (leb_ℤ z int_max))) [
      | inl h ↦ inr (z, refl, e, ground arith, rw h refl)
      | inr h ↦ rw h (inl (_, refl, (z, e, ground arith, rw h refl, refl)))
    ]

required :
    {A : Type 0} (t : Bool) (x : Error) (k : Unit {0} → Get (List ℕ) A) (bs rest : List ℕ) (c : A)
    → (require t x >>= k) bs ≡ ok (c, rest)
    → (t ≡ true) × (k tt bs ≡ ok (c, rest))
required true x k bs rest c e = (refl, e)
required false x k bs rest c e = not_ok x (c, rest) e

required_last :
    (t : Bool) (x : Error) (bs rest : List ℕ) → require t x bs ≡ ok (tt, rest) → bs ≡ rest
required_last true x bs rest e = let both : ok (tt, bs) ≡ ok (tt, rest) = e in cc
required_last false x bs rest e = not_ok x (tt, rest) e

taken :
    (objects : List ℕ) (tag : ValueTag) (v : ℕ × Bool) (bs rest : List ℕ)
    → StandsFor objects tag bs rest v
    → give tt bs ≡ ok (tt, rest)
    → TakesOrOverflows objects tag bs (give v bs) rest
taken objects tag v bs rest m e =
    let same : bs ≡ rest = let both : ok (tt, bs) ≡ ok (tt, rest) = e in cc in
    inl (v, ap (λ (x : List ℕ). ok (v, x)) same, m)

module _ (kinds objects : List ℕ) (restricted : Bool) (max_index : ℕ) where
  tag_cases :
      (tag : ValueTag) (bs rest : List ℕ)
      → check_tag kinds (length objects) restricted max_index tag bs ≡ ok (tt, rest)
      → TakesOrOverflows objects tag bs (decode_tag objects tag bs) rest
  unfolding check_tag decode_tag
  tag_cases nil_tag bs rest e = taken objects nil_tag (make_nil, false) bs rest refl e
  tag_cases false_tag bs rest e = taken objects false_tag (make_bool false, false) bs rest refl e
  tag_cases true_tag bs rest e = taken objects true_tag (make_bool true, false) bs rest refl e
  tag_cases int_tag bs rest e =
      let (z, mid, e1, e2) = carry-ok (read_i32 bs) (λ ignored. give tt) tt rest e in
      let same : mid ≡ rest = let both : ok (tt, mid) ≡ ok (tt, rest) = e2 in cc in
      let read : read_i32 bs ≡ ok (z, rest) = e1 ∙ ap (λ (x : List ℕ). ok (z, x)) same in
      let carried : decode_tag objects int_tag bs ≡ made (make_int z) rest = rw read refl in
      subst (λ (r : Result ((ℕ × Bool) × List ℕ)). TakesOrOverflows objects int_tag bs r rest)
        (sym carried) (made_cases objects z bs rest read)
  tag_cases object_tag bs rest e =
      let (i, mid, e1, e2) = carry-ok (read_u32 bs) _ tt rest e in
      let (inside, e3) = required (not (leb (length objects) i)) snapshot_format _ mid rest tt e2 in
      let (known, e4) =
        required (max_index == 2 ^ 32 - 1 || not (leb max_index i)) snapshot_format _ mid rest tt
          e3 in
      let (kind, e5) =
        required (not restricted || get_or kinds i 0 == 1 || get_or kinds i 0 == 6) not_persistable
          _ mid rest tt e4 in
      let same : mid ≡ rest = required_last _ not_persistable mid rest e5 in
      let read : read_u32 bs ≡ ok (i, rest) = e1 ∙ ap (λ (x : List ℕ). ok (i, x)) same in
      let carried : decode_tag objects object_tag bs ≡ ok ((get_or objects i 0, true), rest) =
        rw (read, inside) refl in
      inl ((get_or objects i 0, true), carried, (i, read, ground arith, refl))
  tag_cases (unknown_tag k) bs rest e = not_ok snapshot_format (tt, rest) e

  -- What the check accepts as a value begins with a byte for its tag, and the decoder takes it up to
  -- the same byte, as the value that these bytes stand for, with one exception: where the tag is that of a number and the number does not fit
  -- the 30 bits of a value, which the check does not look at, the decoder fails with an overflow.
  pub read-validate_value :
      (bs rest : List ℕ)
      → validate_value kinds (length objects) restricted max_index bs ≡ ok (tt, rest)
      → (k : ℕ) × (mid : List ℕ) × (read_u8 bs ≡ ok (k, mid))
        × TakesOrOverflows objects (to_tag k) mid (read_value objects bs) rest
  unfolding validate_value read_value
  read-validate_value bs rest e =
      let (k, mid, e1, e2) =
        carry-ok (read_u8 bs)
          (λ x. check_tag kinds (length objects) restricted max_index (to_tag x)) tt rest e in
      let carried : read_value objects bs ≡ decode_tag objects (to_tag k) mid = rw e1 refl in
      (
        k,
        mid,
        e1,
        subst (λ (r : Result ((ℕ × Bool) × List ℕ)). TakesOrOverflows objects (to_tag k) mid r rest)
            (sym carried) (tag_cases (to_tag k) mid rest e2),
      )
