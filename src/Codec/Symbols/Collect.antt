-- ===== src/Codec/Symbols/Collect.antt =====
-- The symbols that src/frothy_snapshot_codec.c collects from a program are those that its writer looks
-- for.
use froth.Base.{
  All, ℕ, suc, ◌+◌, ◌%◌, ◌^◌, ◌≡◌, refl, sym, ap, ◌∙◌, Bool, true, false, not, List, [], ◌∷◌, ◌++◌,
  arith, ltb, ◌==◌, if◌then◌else◌, length, Bool-cases, inl, inr,
}
use froth.Status.{Error, Result, Exec, ok, err, bind, after, snapshot_bad_name, heap_out_of_memory}
use froth.Ir.{
  Node, read_slot, read_slot_fallback, write_slot, write_slot_fallback, slot_designator, lit,
  read_local, write_local, record_def, read_index, write_index, read_field, write_field, fn, call,
  if_expr, while_expr, seq, unknown_node,
}
use froth.Names.{slot_name_is_valid}
use froth.Slots.Names.{same_bytes}
use froth.Codec.Symbols.{
  find_symbol, symbol_index, add_symbol, find_or_add, collect_node, collect_program_symbols,
  collected,
}
use froth.Codec.Measure.Agrees.{not_ok}

same_bytes_refl : (xs : List ℕ) → same_bytes xs xs ≡ true
same_bytes_refl [] = refl
same_bytes_refl (x ∷ xs) = let here : (x == x) ≡ true = ground arith in rw here (same_bytes_refl xs)

find_symbol-append :
    (k : ℕ) (ss ys : List (List ℕ)) (name : List ℕ) (i : ℕ)
    → find_symbol k ss name ≡ ok i
    → find_symbol k (ss ++ ys) name ≡ ok i
find_symbol-append k [] ys name i e = not_ok _ i e
find_symbol-append k (s ∷ ss) ys name i e = elim (Bool-cases (same_bytes s name)) [
  | inl h ↦
      let here : find_symbol k (s ∷ ss) name ≡ ok (k % 2 ^ 32) = rw h refl in rw h (sym here ∙ e)
  | inr h ↦
      let later : find_symbol k (s ∷ ss) name ≡ find_symbol (k + 1) ss name = rw h refl in
      rw h (find_symbol-append (k + 1) ss ys name i (sym later ∙ e))
]

find_symbol-added :
    (k : ℕ) (ss : List (List ℕ)) (name : List ℕ) (x : Error)
    → find_symbol k ss name ≡ err x
    → find_symbol k (ss ++ (name ∷ [])) name ≡ ok ((k + length ss) % 2 ^ 32)
find_symbol-added k [] name x e =
    let same : (k + 0) % 2 ^ 32 ≡ k % 2 ^ 32 = omega arith in
    rw (same_bytes_refl name) (ap (λ (i : ℕ). ok i) (sym same))
find_symbol-added k (s ∷ ss) name x e = elim (Bool-cases (same_bytes s name)) [
  | inl h ↦
      let here : find_symbol k (s ∷ ss) name ≡ ok (k % 2 ^ 32) = rw h refl in
      not_ok x (k % 2 ^ 32) (sym e ∙ here)
  | inr h ↦
      let later : find_symbol k (s ∷ ss) name ≡ find_symbol (k + 1) ss name = rw h refl in
      let shifted : (k + 1 + length ss) % 2 ^ 32 ≡ (k + suc (length ss)) % 2 ^ 32 =
        ap (λ (i : ℕ). i % 2 ^ 32) (omega arith) in
      rw h (find_symbol-added (k + 1) ss name x (sym later ∙ e) ∙ ap (λ (i : ℕ). ok i) shifted)
]

-- Symbols keep their indices.
abbrev pub Keeps : List (List ℕ) → List (List ℕ) → Type 0
Keeps ss ss' = (name : List ℕ) (i : ℕ) → symbol_index ss name ≡ ok i → symbol_index ss' name ≡ ok i

-- An index that was found before is found now.
abbrev pub StaysFound : Result ℕ → Result ℕ → Type 0
StaysFound (ok i) r = r ≡ ok i
StaysFound (err e) r = Unit {0}

stays_found :
    (before now : Result ℕ) → ((i : ℕ) → before ≡ ok i → now ≡ ok i) → StaysFound before now
stays_found (ok i) now h = h i refl
stays_found (err e) now h = tt

abbrev pub IsKnown : List (List ℕ) → List ℕ → Type 0
IsKnown ss name = (i : ℕ) × (symbol_index ss name ≡ ok i)

-- The slots that a node names.
abbrev pub node_symbols : Node → List (List ℕ)
node_symbols (read_slot name) = name ∷ []
node_symbols (read_slot_fallback name other) = name ∷ other ∷ []
node_symbols (write_slot name v b) = name ∷ []
node_symbols (write_slot_fallback name other v b) = name ∷ other ∷ []
node_symbols (slot_designator name) = name ∷ []
node_symbols _ = []

Keeps-IsKnown :
    (ss ss' : List (List ℕ))
    → Keeps ss ss'
    → (names : List (List ℕ)) → All (IsKnown ss) names
    → All (IsKnown ss') names
Keeps-IsKnown ss ss' keeps [] known = tt
Keeps-IsKnown ss ss' keeps (name ∷ names) ((i, e), known) =
    ((i, keeps name i e), Keeps-IsKnown ss ss' keeps names known)

after-ok :
    {A B : Type 0} (r : Result A) (s s' : List (List ℕ)) (k : A → Exec (List (List ℕ)) B) (b : B)
    → after r s k ≡ (ok b, s')
    → (a : A) × (r ≡ ok a) × (k a s ≡ (ok b, s'))
after-ok (ok a) s s' k b e = (a, refl, e)
after-ok {B = B} (err x) s s' k b e = not_ok x b (ap (λ (t : Result B × List (List ℕ)). t.0) e)

abbrev pub collected_at : ℕ → List (List ℕ) → Result ℕ × List (List ℕ)
collected_at i ss = (ok i, ss)

-- A guard that did not return.
pub past :
    (t : Bool) (x : Error) (ss : List (List ℕ)) (r : Result ℕ × List (List ℕ)) (i : ℕ)
    (ss' : List (List ℕ))
    → (if t then (err x, ss) else r) ≡ (ok i, ss')
    → (t ≡ false) × (r ≡ (ok i, ss'))
past true x ss r i ss' e = not_ok x i (ap (λ (t : Result ℕ × List (List ℕ)). t.0) e)
past false x ss r i ss' e = (refl, e)

module _ (is_alpha is_alnum : ℕ → Bool) (capacity : ℕ) where
  -- A name that is added passed the three tests.
  pub passed :
      (x : Error) (name : List ℕ) (ss ss' : List (List ℕ)) (i : ℕ)
      → add_symbol is_alpha is_alnum capacity name (err x) ss ≡ (ok i, ss')
      → (ltb 0xFFFF (length name) ≡ false)
        × (not (slot_name_is_valid is_alpha is_alnum name) ≡ false)
        × (ltb capacity (length ss + 1) ≡ false)
        × (collected_at (length ss % 2 ^ 32) (ss ++ (name ∷ [])) ≡ (ok i, ss'))
  passed x name ss ss' i e =
      let (short, e1) = past (ltb 0xFFFF (length name)) snapshot_bad_name ss _ i ss' e in
      let (valid, e2) =
        past (not (slot_name_is_valid is_alpha is_alnum name)) snapshot_bad_name ss _ i ss' e1 in
      let (room, e3) = past (ltb capacity (length ss + 1)) heap_out_of_memory ss _ i ss' e2 in
      (short, valid, room, e3)

  added :
      (r : Result ℕ) (name : List ℕ) (ss ss' : List (List ℕ)) (i : ℕ)
      → symbol_index ss name ≡ r
      → add_symbol is_alpha is_alnum capacity name r ss ≡ (ok i, ss')
      → (symbol_index ss' name ≡ ok i) × Keeps ss ss'
  unfolding symbol_index
  added (ok j) name ss ss' i q e =
      let index : ok j ≡ ok i = ap (λ (t : Result ℕ × List (List ℕ)). t.0) e in
      let table : ss ≡ ss' = ap (λ (t : Result ℕ × List (List ℕ)). t.1) e in
      (
        ap (λ (t : List (List ℕ)). find_symbol 0 t name) (sym table) ∙ q ∙ index,
        λ n k h. ap (λ (t : List (List ℕ)). find_symbol 0 t n) (sym table) ∙ h,
      )
  added (err x) name ss ss' i q e =
      let (short, valid, room, grown) = passed x name ss ss' i e in
      let index : ok (length ss % 2 ^ 32) ≡ ok i =
        ap (λ (t : Result ℕ × List (List ℕ)). t.0) grown in
      let table : ss ++ (name ∷ []) ≡ ss' = ap (λ (t : Result ℕ × List (List ℕ)). t.1) grown in
      let from_start : (0 + length ss) % 2 ^ 32 ≡ length ss % 2 ^ 32 =
        ap (λ (n : ℕ). n % 2 ^ 32) (omega arith) in
      (
        ap (λ (t : List (List ℕ)). find_symbol 0 t name) (sym table)
            ∙ find_symbol-added 0 ss name x q
            ∙ ap (λ (n : ℕ). ok n) from_start
            ∙ index,
        λ n k h.
            ap (λ (t : List (List ℕ)). find_symbol 0 t n) (sym table)
            ∙ find_symbol-append 0 ss (name ∷ []) n k h,
      )

  -- What find_or_add returns is the index of the name, and no symbol moves.
  pub find_or_add_lem :
      (name : List ℕ) (ss ss' : List (List ℕ)) (i : ℕ)
      → find_or_add is_alpha is_alnum capacity name ss ≡ (ok i, ss')
      → (symbol_index ss' name ≡ ok i) × Keeps ss ss'
  unfolding find_or_add
  find_or_add_lem name ss ss' i e = added (symbol_index ss name) name ss ss' i refl e

  one :
      (name : List ℕ) (ss ss' : List (List ℕ)) (k : ℕ → Exec (List (List ℕ)) (Unit {0}))
      → bind (find_or_add is_alpha is_alnum capacity name) k ss ≡ (ok tt, ss')
      → (mid : List (List ℕ)) × (i : ℕ) × (symbol_index mid name ≡ ok i)
        × Keeps ss mid
        × (k i mid ≡ (ok tt, ss'))
  one name ss ss' k e =
      let r = find_or_add is_alpha is_alnum capacity name ss in
      let (i, e1, e2) = after-ok r.0 r.1 ss' k tt e in
      let (found, keeps) = find_or_add_lem name ss r.1 i (ap (λ (x : Result ℕ). (x, r.1)) e1) in
      (r.1, i, found, keeps, e2)

  one_name :
      (name : List ℕ) (ss ss' : List (List ℕ))
      → bind (find_or_add is_alpha is_alnum capacity name) (λ ignored. collected) ss ≡ (ok tt, ss')
      → Keeps ss ss' × All (IsKnown ss') (name ∷ [])
  one_name name ss ss' e =
      let (mid, i, found, keeps, q) = one name ss ss' (λ ignored. collected) e in
      let same : mid ≡ ss' = ap (λ (t : Result (Unit {0}) × List (List ℕ)). t.1) q in
      (
        λ n k h. ap (λ (t : List (List ℕ)). symbol_index t n) (sym same) ∙ keeps n k h,
        ((i, ap (λ (t : List (List ℕ)). symbol_index t name) (sym same) ∙ found), tt),
      )

  two_names :
      (name other : List ℕ) (ss ss' : List (List ℕ))
      → bind
          (find_or_add is_alpha is_alnum capacity name)
          (λ ignored. bind (find_or_add is_alpha is_alnum capacity other) (λ ignored'. collected))
          ss
        ≡ (ok tt, ss')
      → Keeps ss ss' × All (IsKnown ss') (name ∷ other ∷ [])
  two_names name other ss ss' e =
      let (mid, i, found, keeps, q) =
        one name ss ss'
          (λ ignored. bind (find_or_add is_alpha is_alnum capacity other) (λ ignored'. collected))
          e in
      let (keeps', known) = one_name other mid ss' q in
      (λ n k h. keeps' n k (keeps n k h), ((i, keeps' name i found), known))

  unchanged : (ss ss' : List (List ℕ)) → collected ss ≡ (ok tt, ss') → Keeps ss ss'
  unchanged ss ss' e =
      let same : ss ≡ ss' = ap (λ (t : Result (Unit {0}) × List (List ℕ)). t.1) e in
      λ n k h. ap (λ (t : List (List ℕ)). symbol_index t n) (sym same) ∙ h

  collect_node_lem :
      (node : Node) (ss ss' : List (List ℕ))
      → collect_node is_alpha is_alnum capacity node ss ≡ (ok tt, ss')
      → Keeps ss ss' × All (IsKnown ss') (node_symbols node)
  unfolding collect_node
  collect_node_lem (read_slot name) ss ss' e = one_name name ss ss' e
  collect_node_lem (write_slot name v b) ss ss' e = one_name name ss ss' e
  collect_node_lem (slot_designator name) ss ss' e = one_name name ss ss' e
  collect_node_lem (read_slot_fallback name other) ss ss' e = two_names name other ss ss' e
  collect_node_lem (write_slot_fallback name other v b) ss ss' e = two_names name other ss ss' e
  collect_node_lem (lit a) ss ss' e = (unchanged ss ss' e, tt)
  collect_node_lem (read_local a) ss ss' e = (unchanged ss ss' e, tt)
  collect_node_lem (write_local a b) ss ss' e = (unchanged ss ss' e, tt)
  collect_node_lem (record_def a b c) ss ss' e = (unchanged ss ss' e, tt)
  collect_node_lem (read_index a b) ss ss' e = (unchanged ss ss' e, tt)
  collect_node_lem (write_index a b c) ss ss' e = (unchanged ss ss' e, tt)
  collect_node_lem (read_field a b) ss ss' e = (unchanged ss ss' e, tt)
  collect_node_lem (write_field a b c) ss ss' e = (unchanged ss ss' e, tt)
  collect_node_lem (fn a b c) ss ss' e = (unchanged ss ss' e, tt)
  collect_node_lem (call a b c d) ss ss' e = (unchanged ss ss' e, tt)
  collect_node_lem (if_expr a b c d) ss ss' e = (unchanged ss ss' e, tt)
  collect_node_lem (while_expr a b) ss ss' e = (unchanged ss ss' e, tt)
  collect_node_lem (seq a b) ss ss' e = (unchanged ss ss' e, tt)
  collect_node_lem (unknown_node a) ss ss' e = (unchanged ss ss' e, tt)

  -- The loop over the nodes.
  collect_nodes :
      (nodes : List Node) (ss ss' : List (List ℕ))
      → collect_program_symbols is_alpha is_alnum capacity nodes ss ≡ (ok tt, ss')
      → Keeps ss ss' × All (λ node. All (IsKnown ss') (node_symbols node)) nodes
  unfolding collect_program_symbols
  collect_nodes [] ss ss' e = (unchanged ss ss' e, tt)
  collect_nodes (node ∷ nodes) ss ss' e =
      let r = collect_node is_alpha is_alnum capacity node ss in
      let (u, e1, e2) =
        after-ok r.0 r.1 ss' (λ v. collect_program_symbols is_alpha is_alnum capacity nodes) tt e in
      let (keeps, known) =
        collect_node_lem node ss r.1 (ap (λ (x : Result (Unit {0})). (x, r.1)) e1) in
      let (keeps', later) = collect_nodes nodes r.1 ss' e2 in
      (
        λ n k h. keeps' n k (keeps n k h),
        (Keeps-IsKnown r.1 ss' keeps' (node_symbols node) known, later),
      )

  -- Where the symbols of a program are collected into any table, also an empty one, every slot that a
  -- node names is then in the table, where the writer will find it, and what was in the table before
  -- is still found at the same index.
  pub collect_program_symbols_lem :
      (nodes : List Node) (ss ss' : List (List ℕ)) (name : List ℕ)
      → collect_program_symbols is_alpha is_alnum capacity nodes ss ≡ (ok tt, ss')
      → StaysFound (symbol_index ss name) (symbol_index ss' name)
        × All (λ node. All (IsKnown ss') (node_symbols node)) nodes
  collect_program_symbols_lem nodes ss ss' name e =
      let (keeps, known) = collect_nodes nodes ss ss' e in
      (stays_found (symbol_index ss name) (symbol_index ss' name) (keeps name), known)
