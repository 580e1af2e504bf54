-- ===== src/Codec/Symbols/Lookup.antt =====
-- The search of src/frothy_snapshot_codec.c for a symbol finds the name that it is given.
use froth.Base.{
  ℕ, suc, ◌+◌, ◌%◌, ◌^◌, ◌<◌, ◌≡◌, refl, sym, ap, ap₂, ◌∙◌, true, false, ◌&&◌, List, [], ◌∷◌, arith,
  ◌==◌, length, get_or, Bool-cases, inl, inr,
}
use froth.Status.{ok, err, snapshot_unresolved}
use froth.Slots.Names.{same_bytes}
use froth.Codec.Symbols.{find_symbol, symbol_index}

same_bytes-true : (xs ys : List ℕ) → same_bytes xs ys ≡ true → xs ≡ ys
same_bytes-true [] [] e = refl
same_bytes-true [] (y ∷ ys) e = let bad : false ≡ true = e in cc
same_bytes-true (x ∷ xs) [] e = let bad : false ≡ true = e in cc
same_bytes-true (x ∷ xs) (y ∷ ys) e = elim (Bool-cases (x == y)) [
  | inl h ↦
      let rest : same_bytes xs ys ≡ true = sym (rw h refl) ∙ e in
      let first : x ≡ y = ground arith in
      ap₂ (λ (a : ℕ) (t : List ℕ). a ∷ t) first (same_bytes-true xs ys rest)
  | inr h ↦
      let no : (x == y && same_bytes xs ys) ≡ false = rw h refl in
      let bad : false ≡ true = sym no ∙ e in cc
]

find_symbol_lem :
    (i : ℕ) (ss : List (List ℕ)) (name : List ℕ) (j : ℕ)
    → i + length ss < 2 ^ 32
    → find_symbol i ss name ≡ ok j
    → (k : ℕ) × (j ≡ i + k) × (k < length ss) × (get_or ss k [] ≡ name)
find_symbol_lem i [] name j h e = let bad : err snapshot_unresolved ≡ ok j = e in cc
find_symbol_lem i (s ∷ ss) name j h e = elim (Bool-cases (same_bytes s name)) [
  | inl q ↦
      let here : find_symbol i (s ∷ ss) name ≡ ok (i % 2 ^ 32) = rw q refl in
      let same : ok (i % 2 ^ 32) ≡ ok j = sym here ∙ e in
      let at : i % 2 ^ 32 ≡ j = cc in (0, omega arith, omega arith, same_bytes-true s name q)
  | inr q ↦
      let there : find_symbol i (s ∷ ss) name ≡ find_symbol (i + 1) ss name = rw q refl in
      let (k, at, inside, found) =
        find_symbol_lem (i + 1) ss name j (omega arith) (sym there ∙ e) in
      (suc k, omega arith, omega arith, found)
]

-- Where a symbol is found, its index is in the table and has the name.
pub symbol_index_lem :
    (ss : List (List ℕ)) (name : List ℕ) (j : ℕ)
    → length ss < 2 ^ 32
    → symbol_index ss name ≡ ok j
    → (j < length ss) × (get_or ss j [] ≡ name)
unfolding symbol_index
symbol_index_lem ss name j h e =
    let (k, at, inside, found) = find_symbol_lem 0 ss name j (omega arith) e in
    let same : j ≡ k = omega arith in (omega arith, ap (λ (x : ℕ). get_or ss x []) same ∙ found)
