-- ===== src/Parser/Scopes/Resolve.antt =====
-- What names stand for in src/frothy_parser.c: a declared local is found, and shadows nothing else.
use froth.Base.{
  ℕ, ◌+◌, ◌-◌, ◌<◌, ◌≡◌, refl, inl, inr, true, false, not, ◌||◌, Option, none, some, List, [], ◌∷◌,
  arith, ltb, ◌==◌, length, Bool-cases,
}
use froth.Status.{ok, Result-cases}
use froth.Slots.Names.{same_bytes}
use froth.Parser.Token.{Token, name_token, same_kind, token_text}
use froth.Parser.State.{Binding, Frame, Parser}
use froth.Parser.Scopes.{
  reserve_bindings, declared_in, local_declared, declare_local_in, declare_local, current_frame,
  local, resolve_in, resolve_name, count_local,
}

same_bytes_refl : (bs : List ℕ) → same_bytes bs bs ≡ true
same_bytes_refl [] = refl
same_bytes_refl (b ∷ bs) = ground (arith, same_bytes_refl bs)

-- What a successful declaration did.
declared_at :
    (size_max : ℕ) (t : Token) (o : Option Frame) (s : Parser) (i : ℕ) (u : Parser)
    → declare_local_in size_max t o s ≡ ok (i, u)
    → (f : Frame) × (c : ℕ) × (o ≡ some f)
      × (i ≡ f.next_local_index)
      × (u ≡ local_declared s (token_text t) f c)
unfolding declare_local_in
declared_at m t none s i u e = cc
declared_at m t (some f) s i u e =
    elim (Bool-cases (length s.scopes == 0 || not (same_kind t.kind name_token))) [
      | inl bad ↦ let wrong = simp bad at e in cc
      | inr good ↦ elim (Bool-cases (declared_in (length s.scopes - 1) (token_text t) s.bindings)) [
        | inl twice ↦ let wrong = simp (good, twice) at e in cc
        | inr fresh ↦ elim (Result-cases (reserve_bindings m 1 s)) [
          | inl (c, r) ↦ let known = simp (good, fresh, r) at e in (f, c, refl, cc, cc)
          | inr (x, r) ↦ let wrong = simp (good, fresh, r) at e in cc
        ]
      ]
    ]

current_frame-count_local :
    (fs : List Frame) (f : Frame)
    → current_frame fs ≡ some f
    → current_frame (count_local fs) ≡ some (record f { next_local_index = f.next_local_index + 1 })
current_frame-count_local [] f e = cc
current_frame-count_local (g ∷ fs) f e = let same : g ≡ f = cc in rw same refl

-- The index of the next local does not matter to a name.
resolve_in-next :
    (f : Frame) (k : ℕ) (name : List ℕ) (bs : List Binding)
    → resolve_in (record f { next_local_index = k }) name bs ≡ resolve_in f name bs
unfolding resolve_in
resolve_in-next f k name [] = refl
resolve_in-next f k name (b ∷ bs) = simp (resolve_in-next f k name bs) refl

module _ (size_max : ℕ) (t : Token) (s u : Parser) (f : Frame) (i : ℕ) where
  -- In a scope of the current frame, a name that has just been declared stands for its local.
  pub resolve-declare :
      current_frame s.frames ≡ some f
      → f.scope_base < length s.scopes
      → declare_local size_max t s ≡ ok (i, u)
      → resolve_name t u ≡ ok (local i)
  unfolding resolve_in
  resolve-declare top inside e =
      let (g, c, is, index, after) = declared_at size_max t (current_frame s.frames) s i u e in
      let same : f ≡ g = cc in
      let within : g.scope_base < length s.scopes = rw same at inside in
      let outside : ltb (length s.scopes - 1) g.scope_base ≡ false = ground arith in
      let frame = current_frame-count_local s.frames g is in
      let name = same_bytes_refl (token_text t) in
      rw after (simp (frame, outside, name, index) refl)

  -- A declaration changes what no other name stands for.
  pub resolve-declare_ne :
      (x : Token)
      → current_frame s.frames ≡ some f
      → f.scope_base < length s.scopes
      → declare_local size_max t s ≡ ok (i, u)
      → same_bytes (token_text t) (token_text x) ≡ false
      → resolve_name x u ≡ resolve_name x s
  unfolding resolve_in
  resolve-declare_ne x top inside e other =
      let (g, c, is, index, after) = declared_at size_max t (current_frame s.frames) s i u e in
      let same : f ≡ g = cc in
      let within : g.scope_base < length s.scopes = rw same at inside in
      let outside : ltb (length s.scopes - 1) g.scope_base ≡ false = ground arith in
      let frame = current_frame-count_local s.frames g is in
      rw after (
        simp (frame, outside, other, is)
          (resolve_in-next g (g.next_local_index + 1) (token_text x) s.bindings))
