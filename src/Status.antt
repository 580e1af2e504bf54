-- ===== src/Status.antt =====
-- `froth_error_t` of src/froth_types.h, and how a C function that returns it is modelled.
use froth.Base.{◌≡◌, refl, ◌⊎◌, inl, inr, Bool, true, false}

-- The error codes. FROTH_OK is the constructor `ok` of `Result`, below.
pub data Error : Type 0 where
  stack_overflow stack_underflow type_mismatch undefined_word division_by_zero : Error
  heap_out_of_memory pattern_invalid pattern_too_large io nocatch loop_stack : Error
  value_overflow bounds program_interrupted unbalanced_return_stack_calls : Error
  slot_table_full redef_primitive call_depth no_mark reset ffi_table_full : Error
  transient_expired transient_full cellspace_full toplevel_only busy not_persistable : Error
  token_too_long unterminated_quote unterminated_comment unexpected_paren : Error
  bstring_too_long unterminated_string invalid_escape unexpected_bracket signature : Error
  named_frame : Error
  snapshot_overflow snapshot_format snapshot_unresolved snapshot_bad_crc : Error
  snapshot_incompat snapshot_no_snapshot snapshot_bad_name snapshot_transient : Error
  link_overflow link_cobs_decode link_bad_magic link_bad_version link_bad_crc : Error
  link_too_large link_unknown_type : Error
  throw : Error

-- A status with the value that the function writes through its out-pointer, which it writes only
-- where it returns FROTH_OK.
pub data Result {ℓ} (A : Type ℓ) : Type ℓ where
  ok : A → Result A
  err : Error → Result A

-- A function that changes a state: what it wrote before it failed stays written.
abbrev pub Exec {ℓ} : Type ℓ → Type ℓ → Type ℓ
Exec S A = S → Result A × S

abbrev pub is_ok {ℓ} : {A : Type ℓ} → Result A → Bool
is_ok (ok a) = true
is_ok (err e) = false

-- FROTH_TRY: go on after a success, return any error.
module _ {ℓ κ} {A : Type ℓ} {B : Type κ} where
  infixl 5 ◌>>=◌
  abbrev pub ◌>>=◌ : Result A → (A → Result B) → Result B
  ok a >>= f = f a
  err e >>= f = err e

-- FROTH_TRY over a state.
module _ {ℓ} {S A B : Type ℓ} where
  abbrev pub after : Result A → S → (A → Exec S B) → Result B × S
  after (ok a) s f = f a s
  after (err e) s f = (err e, s)

  abbrev pub bind : Exec S A → (A → Exec S B) → Exec S B
  bind m f s = after (m s).0 (m s).1 f

-- To split on a status and keep the equation.
pub Result-cases {ℓ} :
    {A : Type ℓ} (r : Result A) → ((a : A) × (r ≡ ok a)) ⊎ ((e : Error) × (r ≡ err e))
Result-cases (ok a) = inl (a, refl)
Result-cases (err e) = inr (e, refl)
