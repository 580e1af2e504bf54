-- ===== src/Parser/Runs/Render.antt =====
-- The programs of src/frothy_parser.c in the printer of src/frothy_ir.c.
use froth.Base.{
  ℕ, zero, suc, ◌≤◌, ◌<◌, ◌++◌, ◌≡◌, refl, inl, inr, Bool, ◌&&◌, true, false, some, List, [], ◌∷◌,
  arith, ◌==◌, length, get_elem?, get_or, Bool-cases,
}
use froth.Ir.{
  Literal, int_literal, bool_literal, nil_literal, text_literal, unknown_literal, Node, lit,
  read_local, write_local, read_slot, write_slot, read_slot_fallback, write_slot_fallback,
  slot_designator, record_def, read_index, write_index, read_field, write_field, fn, call, if_expr,
  while_expr, seq, unknown_node, Program,
}
use froth.Ir.Render.{
  Rendered, rendered, ◌⊕◌, render_quoted, render_literal, render_callee, render_else, literal_text,
  render_node_list, render_fields, render_node, render, builtin_name,
}
use froth.Parser.Lexer.{Host}
use froth.Parser.State.{done}
use froth.Parser.Top.{parse_with_fuel, fuel_for}
use froth.Parser.Runs.{NodeFits, RangeBelow}
use froth.Parser.Runs.Whole.{parse_with_fuel-NodeFits, parse_with_fuel_bounds}

-- The printer has finished without an error.
pub data IsRendered : Rendered → Type 0 where
  printed : (bs : List ℕ) → IsRendered (rendered bs)

-- A node of a kind that the printer knows, other than a record definition.
abbrev pub is_plain : Node → Bool
is_plain (record_def a b c) = false
is_plain (unknown_node k) = false
is_plain (lit a) = true
is_plain (read_local a) = true
is_plain (write_local a b) = true
is_plain (read_slot a) = true
is_plain (write_slot a b c) = true
is_plain (read_slot_fallback a b) = true
is_plain (write_slot_fallback a b c d) = true
is_plain (slot_designator a) = true
is_plain (read_index a b) = true
is_plain (write_index a b c) = true
is_plain (read_field a b) = true
is_plain (write_field a b c) = true
is_plain (fn a b c) = true
is_plain (call a b c d) = true
is_plain (if_expr a b c d) = true
is_plain (while_expr a b) = true
is_plain (seq a b) = true

abbrev pub all_plain : List Node → Bool
all_plain [] = true
all_plain (n ∷ ns) = is_plain n && all_plain ns

plain-at :
    (ns : List Node) (i : ℕ) (n : Node)
    → all_plain ns ≡ true
    → get_elem? ns i ≡ some n
    → is_plain n ≡ true
plain-at [] i n h at = ground (arith, at)
plain-at (m ∷ ns) zero n h at = ground (arith, h, at)
plain-at (m ∷ ns) (suc i) n h at = plain-at ns i n (ground (arith, h)) at

infixr 4 ◌⊗◌
◌⊗◌ : {r s : Rendered} → IsRendered r → IsRendered s → IsRendered (r ⊕ s)
unfolding ◌⊕◌
printed bs ⊗ printed cs = printed (bs ++ cs)

IsRendered-quoted : (bs : List ℕ) → IsRendered (render_quoted bs)
unfolding render_quoted
IsRendered-quoted bs = printed _

IsRendered-text : (l : Literal) → IsRendered (literal_text l)
unfolding render_quoted
IsRendered-text (int_literal z) = printed _
IsRendered-text (bool_literal true) = printed _
IsRendered-text (bool_literal false) = printed _
IsRendered-text nil_literal = printed _
IsRendered-text (text_literal bs) = printed _
IsRendered-text (unknown_literal k) = printed _

element : {A : Type 0} (xs : List A) (i : ℕ) → i < length xs → (a : A) × (get_elem? xs i ≡ some a)
element [] i h = elim h [ ]
element (x ∷ xs) zero h = (x, refl)
element (x ∷ xs) (suc i) h = element xs i (omega arith)

link_below :
    (links : List ℕ) (i bound : ℕ)
    → i < length links
    → get_or links i 0 < bound
    → (id : ℕ) × ((get_elem? links i ≡ some id) × (id < bound))
link_below [] i bound h b = elim h [ ]
link_below (x ∷ xs) zero bound h b = (x, (refl, b))
link_below (x ∷ xs) (suc i) bound h b = link_below xs i bound (omega arith) b

module _ (p : Program) where
  IsRendered-literal : (id : ℕ) → id < length p.literals → IsRendered (render_literal p id)
  unfolding render_literal
  IsRendered-literal id h =
      let found = element p.literals id h in
      rw found.1 (printed _ ⊗ IsRendered-text found.0 ⊗ printed _)

  module _ (render_id : ℕ → Rendered) (i : ℕ)
      (below : (j : ℕ) → j < i → IsRendered (render_id j)) where
    IsRendered-list :
        (first count : ℕ)
        → RangeBelow p.links first count i
        → IsRendered (render_node_list p render_id first count)
    unfolding render_node_list
    IsRendered-list first zero h = printed _
    IsRendered-list first (suc count) h =
        let found =
          link_below p.links first i (omega (arith, h.0)) (h.1 first (omega arith) (omega arith)) in
        rw found.1.0 (
          (printed _ ⊗ below found.0 found.1.1)
          ⊗ IsRendered-list (suc first) count
              (omega (arith, h.0), λ j l u. h.1 j (omega arith) (omega arith)))

    IsRendered-callee :
        (builtin callee : ℕ)
        → (builtin ≡ 0 → callee < i)
        → IsRendered (render_callee p render_id builtin callee)
    IsRendered-callee builtin callee h = elim (Bool-cases (builtin == 0)) [
      | inl e ↦ rw e (below callee (h (ground arith)))
      | inr e ↦ rw e (printed _ ⊗ IsRendered-quoted (builtin_name builtin) ⊗ printed _)
    ]

    IsRendered-else :
        (id : ℕ) (b : Bool) → (b ≡ true → id < i) → IsRendered (render_else p render_id id b)
    IsRendered-else id true h = printed _ ⊗ below id (h refl)
    IsRendered-else id false h = printed _

    IsRendered-fields :
        (n : Node)
        → is_plain n ≡ true
        → NodeFits (length p.literals) p.links i n
        → IsRendered (render_fields p render_id n)
    unfolding render_fields
    IsRendered-fields (lit a) k f = IsRendered-literal a f
    IsRendered-fields (read_local a) k f = printed _ ⊗ printed _ ⊗ printed _
    IsRendered-fields (write_local a v) k f =
        printed _ ⊗ printed _ ⊗ printed _ ⊗ below v f ⊗ printed _
    IsRendered-fields (read_slot a) k f = printed _ ⊗ IsRendered-quoted a ⊗ printed _
    IsRendered-fields (write_slot a v true) k f =
        printed _ ⊗ IsRendered-quoted a ⊗ printed _ ⊗ below v f ⊗ printed _
    IsRendered-fields (write_slot a v false) k f =
        printed _ ⊗ IsRendered-quoted a ⊗ printed _ ⊗ below v f ⊗ printed _
    IsRendered-fields (read_slot_fallback a b) k f =
        printed _ ⊗ IsRendered-quoted a ⊗ printed _ ⊗ IsRendered-quoted b ⊗ printed _
    IsRendered-fields (write_slot_fallback a b v true) k f =
        printed _
        ⊗ IsRendered-quoted a
        ⊗ printed _
        ⊗ IsRendered-quoted b
        ⊗ printed _
        ⊗ below v f
        ⊗ printed _
    IsRendered-fields (write_slot_fallback a b v false) k f =
        printed _
        ⊗ IsRendered-quoted a
        ⊗ printed _
        ⊗ IsRendered-quoted b
        ⊗ printed _
        ⊗ below v f
        ⊗ printed _
    IsRendered-fields (slot_designator a) k f = printed _ ⊗ IsRendered-quoted a ⊗ printed _
    IsRendered-fields (record_def a b c) k f = ground (arith, k)
    IsRendered-fields (read_index a b) k f =
        printed _ ⊗ below a f.0 ⊗ printed _ ⊗ below b f.1 ⊗ printed _
    IsRendered-fields (write_index a b v) k f =
        printed _ ⊗ below a f.0 ⊗ printed _ ⊗ below b f.1 ⊗ printed _ ⊗ below v f.2 ⊗ printed _
    IsRendered-fields (read_field a b) k f =
        printed _ ⊗ below a f ⊗ printed _ ⊗ IsRendered-quoted b ⊗ printed _
    IsRendered-fields (write_field a b v) k f =
        printed _
        ⊗ below a f.0
        ⊗ printed _
        ⊗ IsRendered-quoted b
        ⊗ printed _
        ⊗ below v f.1
        ⊗ printed _
    IsRendered-fields (fn a b c) k f =
        printed _ ⊗ printed _ ⊗ printed _ ⊗ printed _ ⊗ printed _ ⊗ below c f ⊗ printed _
    IsRendered-fields (call b c first count) k f =
        printed _ ⊗ IsRendered-callee b c f.0 ⊗ IsRendered-list first count f.1 ⊗ printed _
    IsRendered-fields (if_expr a b c e) k f =
        printed _ ⊗ below a f.0 ⊗ printed _ ⊗ below b f.1 ⊗ IsRendered-else c e f.2 ⊗ printed _
    IsRendered-fields (while_expr a b) k f =
        printed _ ⊗ below a f.0 ⊗ printed _ ⊗ below b f.1 ⊗ printed _
    IsRendered-fields (seq first count) k f = printed _ ⊗ IsRendered-list first count f ⊗ printed _
    IsRendered-fields (unknown_node a) k f = ground (arith, k)

  module _
      (fit : (i : ℕ) (n : Node)
        → get_elem? p.nodes i ≡ some n
        → NodeFits (length p.literals) p.links i n)
      (plain : (i : ℕ) (n : Node) → get_elem? p.nodes i ≡ some n → is_plain n ≡ true) where
    IsRendered-node :
        (fuel id : ℕ) → id < fuel → id < length p.nodes → IsRendered (render_node p fuel id)
    unfolding render_node
    IsRendered-node zero id l h = elim l [ ]
    IsRendered-node (suc fuel) id l h =
        let found = element p.nodes id h in
        rw found.1 (
          IsRendered-fields (render_node p fuel) id
            (λ j b. IsRendered-node fuel j (omega arith) (omega arith)) found.0
            (plain id found.0 found.1) (fit id found.0 found.1))

-- A program that the parser returns is printed, without an error, a read outside of its arrays or
-- more nested calls than it has nodes, where it has no record definitions and no nodes of an unknown
-- kind. FROTHY_IR_NODE_INVALID is SIZE_MAX, which is at least 1024.
pub parse-render :
    (h : Host) (source : List ℕ) (require_eof : Bool) (p : Program) (consumed : ℕ)
    → 1024 ≤ h.size_max
    → parse_with_fuel h (fuel_for h source) require_eof source ≡ done (p, consumed)
    → all_plain p.nodes ≡ true
    → IsRendered (render h.size_max (length p.nodes) p)
unfolding render
parse-render h source require_eof p consumed room e plain =
    let b = parse_with_fuel_bounds h source require_eof p consumed room e in
    elim (Bool-cases (p.root == h.size_max)) [
      | inl same ↦ ground (arith, b, same)
      | inr other ↦ rw other (
          IsRendered-node p
            (λ i n. parse_with_fuel-NodeFits h source require_eof p consumed i n room e)
            (λ i n. plain-at p.nodes i n plain) (length p.nodes) p.root b.0 b.0)
    ]
