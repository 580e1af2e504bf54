-- ===== src/Base/Lists.antt =====
-- Lists measured and indexed by native numbers, under the library's names. They stand for the
-- arrays of the C code.
use Prim.Native.Nat.{ℕ, zero, suc, ◌+◌, ◌-◌, ◌≤◌, ◌<◌, min}
use mathlib.Core.Path.{◌≡◌, refl, ap, ap₂}
use mathlib.Core.Logic.{◌≢◌}
use mathlib.Core.List.{List, [], ◌∷◌, ◌++◌}
use mathlib.Core.Option.{Option, none, some}
use native.Mathlib.Omega.{arith}

module _ {ℓ} {A : Type ℓ} where
  abbrev pub length : List A → ℕ
  length [] = 0
  length (x ∷ xs) = suc (length xs)

  abbrev pub get_elem? : List A → ℕ → Option A
  get_elem? [] i = none
  get_elem? (x ∷ xs) zero = some x
  get_elem? (x ∷ xs) (suc i) = get_elem? xs i

  abbrev pub get_or : List A → ℕ → A → A
  get_or [] i d = d
  get_or (x ∷ xs) zero d = x
  get_or (x ∷ xs) (suc i) d = get_or xs i d

  -- A write out of bounds changes nothing.
  abbrev pub set : List A → ℕ → A → List A
  set [] i v = []
  set (x ∷ xs) zero v = v ∷ xs
  set (x ∷ xs) (suc i) v = x ∷ set xs i v

  abbrev pub take : ℕ → List A → List A
  take zero xs = []
  take (suc n) [] = []
  take (suc n) (x ∷ xs) = x ∷ take n xs

  abbrev pub drop : ℕ → List A → List A
  drop zero xs = xs
  drop (suc n) [] = []
  drop (suc n) (x ∷ xs) = drop n xs

  abbrev pub replicate : ℕ → A → List A
  replicate zero a = []
  replicate (suc n) a = a ∷ replicate n a

  -- `memcpy(dst + at, src, length of src)` inside `dst`; what does not fit is dropped.
  abbrev pub write_at : ℕ → List A → List A → List A
  write_at at [] dst = dst
  write_at at src [] = []
  write_at zero (s ∷ src) (d ∷ dst) = s ∷ write_at zero src dst
  write_at (suc at) (s ∷ src) (d ∷ dst) = d ∷ write_at at (s ∷ src) dst

abbrev pub All {ℓ} : {A : Type ℓ} → (A → Type 0) → List A → Type 0
All P [] = Unit {0}
All P (x ∷ xs) = P x × All P xs

module _ {ℓ} {A : Type ℓ} where
  pub length-append : (xs ys : List A) → length (xs ++ ys) ≡ length xs + length ys
  length-append [] ys = omega arith
  length-append (x ∷ xs) ys = omega (arith, length-append xs ys)

  pub length-set : (xs : List A) (i : ℕ) (v : A) → length (set xs i v) ≡ length xs
  length-set [] i v = refl
  length-set (x ∷ xs) zero v = refl
  length-set (x ∷ xs) (suc i) v = ap suc (length-set xs i v)

  pub length-replicate : (n : ℕ) (a : A) → length (replicate n a) ≡ n
  length-replicate zero a = refl
  length-replicate (suc n) a = ap suc (length-replicate n a)

  pub length-write_at : (at : ℕ) (src dst : List A) → length (write_at at src dst) ≡ length dst
  length-write_at zero [] dst = refl
  length-write_at (suc at) [] dst = refl
  length-write_at zero (s ∷ src) [] = refl
  length-write_at (suc at) (s ∷ src) [] = refl
  length-write_at zero (s ∷ src) (d ∷ dst) = ap suc (length-write_at zero src dst)
  length-write_at (suc at) (s ∷ src) (d ∷ dst) = ap suc (length-write_at at (s ∷ src) dst)

  pub get_or-set_self :
      (xs : List A) (i : ℕ) (v d : A) → i < length xs → get_or (set xs i v) i d ≡ v
  get_or-set_self [] i v d h = elim h [ ]
  get_or-set_self (x ∷ xs) zero v d h = refl
  get_or-set_self (x ∷ xs) (suc i) v d h = get_or-set_self xs i v d (omega arith)

  pub get_or-set_ne :
      (xs : List A) (i j : ℕ) (v d : A) → i ≢ j → get_or (set xs i v) j d ≡ get_or xs j d
  get_or-set_ne [] i j v d h = refl
  get_or-set_ne (x ∷ xs) zero zero v d h = absurd (h refl)
  get_or-set_ne (x ∷ xs) zero (suc j) v d h = refl
  get_or-set_ne (x ∷ xs) (suc i) zero v d h = refl
  get_or-set_ne (x ∷ xs) (suc i) (suc j) v d h = get_or-set_ne xs i j v d (λ e. h (ap suc e))

  pub get_or-past : (xs : List A) (i : ℕ) (d : A) → length xs ≤ i → get_or xs i d ≡ d
  get_or-past [] i d h = refl
  get_or-past (x ∷ xs) zero d h = elim h [ ]
  get_or-past (x ∷ xs) (suc i) d h = get_or-past xs i d (omega arith)

  pub get_or-replicate : (n i : ℕ) (a : A) → get_or (replicate n a) i a ≡ a
  get_or-replicate zero i a = refl
  get_or-replicate (suc n) zero a = refl
  get_or-replicate (suc n) (suc i) a = get_or-replicate n i a

  pub get_or-write_below :
      (at : ℕ) (src dst : List A) (i : ℕ) (d : A)
      → i < at
      → get_or (write_at at src dst) i d ≡ get_or dst i d
  get_or-write_below zero src dst i d h = elim h [ ]
  get_or-write_below (suc at) [] dst i d h = refl
  get_or-write_below (suc at) (s ∷ src) [] i d h = refl
  get_or-write_below (suc at) (s ∷ src) (x ∷ dst) zero d h = refl
  get_or-write_below (suc at) (s ∷ src) (x ∷ dst) (suc i) d h =
      get_or-write_below at (s ∷ src) dst i d (omega arith)

  pub get_or-write_above :
      (at : ℕ) (src dst : List A) (i : ℕ) (d : A)
      → at + length src ≤ i
      → get_or (write_at at src dst) i d ≡ get_or dst i d
  get_or-write_above zero [] dst i d h = refl
  get_or-write_above (suc at) [] dst i d h = refl
  get_or-write_above zero (s ∷ src) [] i d h = refl
  get_or-write_above (suc at) (s ∷ src) [] i d h = refl
  get_or-write_above zero (s ∷ src) (x ∷ dst) zero d h = absurd (omega arith)
  get_or-write_above zero (s ∷ src) (x ∷ dst) (suc i) d h =
      get_or-write_above zero src dst i d (omega arith)
  get_or-write_above (suc at) (s ∷ src) (x ∷ dst) zero d h = absurd (omega arith)
  get_or-write_above (suc at) (s ∷ src) (x ∷ dst) (suc i) d h =
      get_or-write_above at (s ∷ src) dst i d (omega arith)

  pub get_or-write_inside :
      (at : ℕ) (src dst : List A) (i j : ℕ) (d : A)
      → at + i ≡ j
      → i < length src
      → j < length dst
      → get_or (write_at at src dst) j d ≡ get_or src i d
  get_or-write_inside at [] dst i j d e h k = elim h [ ]
  get_or-write_inside at (s ∷ src) [] i j d e h k = elim k [ ]
  get_or-write_inside zero (s ∷ src) (x ∷ dst) zero zero d e h k = refl
  get_or-write_inside zero (s ∷ src) (x ∷ dst) zero (suc j) d e h k = absurd (omega arith)
  get_or-write_inside zero (s ∷ src) (x ∷ dst) (suc i) zero d e h k = absurd (omega arith)
  get_or-write_inside zero (s ∷ src) (x ∷ dst) (suc i) (suc j) d e h k =
      get_or-write_inside zero src dst i j d (omega arith) (omega arith) (omega arith)
  get_or-write_inside (suc at) (s ∷ src) (x ∷ dst) i zero d e h k = absurd (omega arith)
  get_or-write_inside (suc at) (s ∷ src) (x ∷ dst) i (suc j) d e h k =
      get_or-write_inside at (s ∷ src) dst i j d (omega arith) h (omega arith)

  pub get_or_ext :
      (d : A) (xs ys : List A)
      → length xs ≡ length ys
      → ((i : ℕ) → get_or xs i d ≡ get_or ys i d)
      → xs ≡ ys
  get_or_ext d [] [] e h = refl
  get_or_ext d [] (y ∷ ys) e h = absurd (omega arith)
  get_or_ext d (x ∷ xs) [] e h = absurd (omega arith)
  get_or_ext d (x ∷ xs) (y ∷ ys) e h =
      ap₂ ◌∷◌ (h 0) (get_or_ext d xs ys (omega arith) (λ i. h (suc i)))

  pub take-length : (xs : List A) → take (length xs) xs ≡ xs
  take-length [] = refl
  take-length (x ∷ xs) = ap (λ (t : List A). x ∷ t) (take-length xs)

  pub length-take : (n : ℕ) (xs : List A) → length (take n xs) ≡ min n (length xs)
  length-take zero xs = omega arith
  length-take (suc n) [] = omega arith
  length-take (suc n) (x ∷ xs) = omega (arith, length-take n xs)

  pub length-drop : (n : ℕ) (xs : List A) → length (drop n xs) ≡ length xs - n
  length-drop zero xs = omega arith
  length-drop (suc n) [] = omega arith
  length-drop (suc n) (x ∷ xs) = omega (arith, length-drop n xs)

  pub get_or-take :
      (n : ℕ) (xs : List A) (i : ℕ) (d : A) → i < n → get_or (take n xs) i d ≡ get_or xs i d
  get_or-take zero xs i d h = elim h [ ]
  get_or-take (suc n) [] i d h = refl
  get_or-take (suc n) (x ∷ xs) zero d h = refl
  get_or-take (suc n) (x ∷ xs) (suc i) d h = get_or-take n xs i d (omega arith)
