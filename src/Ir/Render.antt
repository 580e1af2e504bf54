-- ===== src/Ir/Render.antt =====
-- The printed form of src/frothy_ir.c, frothy_ir_render and what it calls. The string builder is
-- the text that a call appends.
use froth.Base.{
  ℕ, zero, suc, ◌+◌, ◌/◌, ◌%◌, Bool, true, false, Option, none, some, List, [], ◌∷◌, ◌++◌, ◌==◌,
  if◌then◌else◌, length, get_elem?, leb,
}
use froth.Base.Int.{ℤ, pos, negsuc}
use froth.Status.{Error, signature, bounds}
use froth.Ir.{
  Literal, int_literal, bool_literal, nil_literal, text_literal, unknown_literal, Node, lit,
  read_local, write_local, read_slot, write_slot, read_slot_fallback, write_slot_fallback,
  slot_designator, record_def, read_index, write_index, read_field, write_field, fn, call, if_expr,
  while_expr, seq, unknown_node, Program,
}

-- What a call appends, or the error that it returns. `outside` is a read outside of an array of the
-- program, and `too_deep` more nested calls than the fuel.
pub data Rendered : Type 0 where
  rendered : List ℕ → Rendered
  refused : Error → Rendered
  outside too_deep : Rendered

abbrev pub and_then : Rendered → Rendered → Rendered
and_then (rendered bs) (rendered cs) = rendered (bs ++ cs)
and_then (rendered bs) (refused e) = refused e
and_then (rendered bs) outside = outside
and_then (rendered bs) too_deep = too_deep
and_then (refused e) r = refused e
and_then outside r = outside
and_then too_deep r = too_deep

infixr 4 ◌⊕◌
unfoldable pub ◌⊕◌ : Rendered → Rendered → Rendered
r ⊕ s = and_then r s

abbrev digits : ℕ → ℕ → List ℕ
digits zero n = []
digits (suc fuel) n =
    let rest = digits fuel (n / 10) in
    if n / 10 == 0 then (48 + n) ∷ [] else rest ++ (48 + n % 10) ∷ []

-- `%zu`: a size_t has at most 20 digits.
unfoldable pub decimal : ℕ → List ℕ
decimal n = digits 20 n

-- `%` FROTH_CELL_FORMAT
unfoldable pub decimal_cell : ℤ → List ℕ
decimal_cell (pos n) = decimal n
decimal_cell (negsuc n) = 45 ∷ decimal (n + 1)

abbrev close : Rendered
close = rendered (b')' ∷ [])

abbrev one_space : Rendered
one_space = rendered (b' ' ∷ [])

abbrev escaped : ℕ → List ℕ
escaped c =
    if c == 92
    then 92 ∷ 92 ∷ []
    else if c == 34
    then 92 ∷ 34 ∷ []
    else if c == 10
    then 92 ∷ b'n' ∷ []
    else if c == 13
    then 92 ∷ b'r' ∷ []
    else if c == 9
    then 92 ∷ b't' ∷ []
    else c ∷ []

abbrev escape_all : List ℕ → List ℕ
escape_all [] = []
escape_all (c ∷ cs) = escaped c ++ escape_all cs

-- frothy_ir_render_quoted
unfoldable pub render_quoted : List ℕ → Rendered
render_quoted bs = rendered (34 ∷ escape_all bs ++ 34 ∷ [])

-- frothy_ir_builtin_name
abbrev pub builtin_name : ℕ → List ℕ
builtin_name k =
    if k == 1
    then b'c' ∷ b'e' ∷ b'l' ∷ b'l' ∷ b's' ∷ []
    else if k == 2
    then b'n' ∷ b'o' ∷ b't' ∷ []
    else if k == 3
    then b'n' ∷ b'e' ∷ b'g' ∷ []
    else if k == 4
    then b'+' ∷ []
    else if k == 5
    then b'-' ∷ []
    else if k == 6
    then b'*' ∷ []
    else if k == 7
    then b'/' ∷ []
    else if k == 8
    then b'%' ∷ []
    else if k == 9
    then b'<' ∷ []
    else if k == 10
    then b'<' ∷ b'=' ∷ []
    else if k == 11
    then b'>' ∷ []
    else if k == 12
    then b'>' ∷ b'=' ∷ []
    else if k == 13
    then b'=' ∷ b'=' ∷ []
    else if k == 14
    then b'!' ∷ b'=' ∷ []
    else []

abbrev pub literal_text : Literal → Rendered
literal_text (int_literal z) = rendered (decimal_cell z)
literal_text (bool_literal true) = rendered (b't' ∷ b'r' ∷ b'u' ∷ b'e' ∷ [])
literal_text (bool_literal false) = rendered (b'f' ∷ b'a' ∷ b'l' ∷ b's' ∷ b'e' ∷ [])
literal_text nil_literal = rendered (b'n' ∷ b'i' ∷ b'l' ∷ [])
literal_text (text_literal bs) = render_quoted bs
literal_text (unknown_literal k) = rendered []

abbrev pub literal_shown : Option Literal → Rendered
literal_shown none = outside
literal_shown (some l) = rendered (b'(' ∷ b'l' ∷ b'i' ∷ b't' ∷ b' ' ∷ []) ⊕ literal_text l ⊕ close

-- frothy_ir_render_literal
unfoldable pub render_literal : Program → ℕ → Rendered
render_literal p id = literal_shown (get_elem? p.literals id)

abbrev text_of_literal : Option Literal → Option (List ℕ)
text_of_literal (some (text_literal bs)) = some bs
text_of_literal (some (int_literal z)) = none
text_of_literal (some (bool_literal b)) = none
text_of_literal (some nil_literal) = none
text_of_literal (some (unknown_literal k)) = none
text_of_literal none = none

-- frothy_ir_text_literal_value
abbrev pub text_literal_value : Program → ℕ → Option (List ℕ)
text_literal_value p id = text_of_literal (get_elem? p.literals id)

abbrev field_name_text : Option (List ℕ) → Rendered
field_name_text none = refused signature
field_name_text (some bs) = one_space ⊕ render_quoted bs

module _ (p : Program) where
  abbrev field_at : Option ℕ → Rendered
  field_at none = outside
  field_at (some id) = field_name_text (text_literal_value p id)

  -- The loop over the fields of a record definition.
  unfoldable pub render_field_names : ℕ → ℕ → Rendered
  render_field_names first zero = rendered []
  render_field_names first (suc count) =
      field_at (get_elem? p.links first) ⊕ render_field_names (suc first) count

  -- `render` is frothy_ir_render_node with less fuel.
  module _ (render : ℕ → Rendered) where
    abbrev pub link_at : Option ℕ → Rendered
    link_at none = outside
    link_at (some id) = one_space ⊕ render id

    -- frothy_ir_render_node_list
    unfoldable pub render_node_list : ℕ → ℕ → Rendered
    render_node_list first zero = rendered []
    render_node_list first (suc count) =
        link_at (get_elem? p.links first) ⊕ render_node_list (suc first) count

    abbrev pub render_callee : ℕ → ℕ → Rendered
    render_callee builtin callee =
        if builtin == 0
        then render callee
        else rendered (b'(' ∷ b'b' ∷ b'u' ∷ b'i' ∷ b'l' ∷ b't' ∷ b'i' ∷ b'n' ∷ b' ' ∷ [])
          ⊕ render_quoted (builtin_name builtin)
          ⊕ close

    abbrev pub render_else : ℕ → Bool → Rendered
    render_else id true = one_space ⊕ render id
    render_else id false = rendered []

    -- The switch of frothy_ir_render_node.
    unfoldable pub render_fields : Node → Rendered
    render_fields (lit id) = render_literal p id
    render_fields (read_local i) =
        rendered
          (b'(' ∷ b'r' ∷ b'e' ∷ b'a' ∷ b'd' ∷ b'-' ∷ b'l' ∷ b'o' ∷ b'c' ∷ b'a' ∷ b'l' ∷ b' ' ∷ [])
        ⊕ rendered (decimal i)
        ⊕ close
    render_fields (write_local i value) =
        rendered (
          b'(' ∷ b'w' ∷ b'r' ∷ b'i' ∷ b't' ∷ b'e' ∷ b'-' ∷ b'l' ∷ b'o' ∷ b'c' ∷ b'a' ∷ b'l' ∷ b' '
          ∷ [])
        ⊕ rendered (decimal i)
        ⊕ one_space
        ⊕ render value
        ⊕ close
    render_fields (read_slot name) =
        rendered (b'(' ∷ b'r' ∷ b'e' ∷ b'a' ∷ b'd' ∷ b'-' ∷ b's' ∷ b'l' ∷ b'o' ∷ b't' ∷ b' ' ∷ [])
        ⊕ render_quoted name
        ⊕ close
    render_fields (read_slot_fallback name other) =
        rendered (
          b'(' ∷ b'r' ∷ b'e' ∷ b'a' ∷ b'd' ∷ b'-' ∷ b's' ∷ b'l' ∷ b'o' ∷ b't' ∷ b'-' ∷ b'f' ∷ b'a'
          ∷ b'l' ∷ b'l' ∷ b'b' ∷ b'a' ∷ b'c' ∷ b'k' ∷ b' ' ∷ [])
        ⊕ render_quoted name
        ⊕ one_space
        ⊕ render_quoted other
        ⊕ close
    render_fields (write_slot name value existing) =
        (if existing
          then rendered (
              b'(' ∷ b'w' ∷ b'r' ∷ b'i' ∷ b't' ∷ b'e' ∷ b'-' ∷ b's' ∷ b'l' ∷ b'o' ∷ b't' ∷ b'!'
              ∷ b' ' ∷ [])
          else rendered (
              b'(' ∷ b'w' ∷ b'r' ∷ b'i' ∷ b't' ∷ b'e' ∷ b'-' ∷ b's' ∷ b'l' ∷ b'o' ∷ b't' ∷ b' '
              ∷ []))
        ⊕ render_quoted name
        ⊕ one_space
        ⊕ render value
        ⊕ close
    render_fields (write_slot_fallback name other value existing) =
        (if existing
          then rendered (
              b'(' ∷ b'w' ∷ b'r' ∷ b'i' ∷ b't' ∷ b'e' ∷ b'-' ∷ b's' ∷ b'l' ∷ b'o' ∷ b't' ∷ b'-'
              ∷ b'f' ∷ b'a' ∷ b'l' ∷ b'l' ∷ b'b' ∷ b'a' ∷ b'c' ∷ b'k' ∷ b'!' ∷ b' ' ∷ [])
          else rendered (
              b'(' ∷ b'w' ∷ b'r' ∷ b'i' ∷ b't' ∷ b'e' ∷ b'-' ∷ b's' ∷ b'l' ∷ b'o' ∷ b't' ∷ b'-'
              ∷ b'f' ∷ b'a' ∷ b'l' ∷ b'l' ∷ b'b' ∷ b'a' ∷ b'c' ∷ b'k' ∷ b' ' ∷ []))
        ⊕ render_quoted name
        ⊕ one_space
        ⊕ render_quoted other
        ⊕ one_space
        ⊕ render value
        ⊕ close
    render_fields (slot_designator name) =
        rendered (
          b'(' ∷ b's' ∷ b'l' ∷ b'o' ∷ b't' ∷ b'-' ∷ b'd' ∷ b'e' ∷ b's' ∷ b'i' ∷ b'g' ∷ b'n' ∷ b'a'
          ∷ b't' ∷ b'o' ∷ b'r' ∷ b' ' ∷ [])
        ⊕ render_quoted name
        ⊕ close
    render_fields (record_def name first count) =
        rendered
          (b'(' ∷ b'r' ∷ b'e' ∷ b'c' ∷ b'o' ∷ b'r' ∷ b'd' ∷ b'-' ∷ b'd' ∷ b'e' ∷ b'f' ∷ b' ' ∷ [])
        ⊕ render_quoted name
        ⊕ render_field_names first count
        ⊕ close
    render_fields (read_index base i) =
        rendered
          (b'(' ∷ b'r' ∷ b'e' ∷ b'a' ∷ b'd' ∷ b'-' ∷ b'i' ∷ b'n' ∷ b'd' ∷ b'e' ∷ b'x' ∷ b' ' ∷ [])
        ⊕ render base
        ⊕ one_space
        ⊕ render i
        ⊕ close
    render_fields (write_index base i value) =
        rendered (
          b'(' ∷ b'w' ∷ b'r' ∷ b'i' ∷ b't' ∷ b'e' ∷ b'-' ∷ b'i' ∷ b'n' ∷ b'd' ∷ b'e' ∷ b'x' ∷ b' '
          ∷ [])
        ⊕ render base
        ⊕ one_space
        ⊕ render i
        ⊕ one_space
        ⊕ render value
        ⊕ close
    render_fields (read_field base name) =
        rendered
          (b'(' ∷ b'r' ∷ b'e' ∷ b'a' ∷ b'd' ∷ b'-' ∷ b'f' ∷ b'i' ∷ b'e' ∷ b'l' ∷ b'd' ∷ b' ' ∷ [])
        ⊕ render base
        ⊕ one_space
        ⊕ render_quoted name
        ⊕ close
    render_fields (write_field base name value) =
        rendered (
          b'(' ∷ b'w' ∷ b'r' ∷ b'i' ∷ b't' ∷ b'e' ∷ b'-' ∷ b'f' ∷ b'i' ∷ b'e' ∷ b'l' ∷ b'd' ∷ b' '
          ∷ [])
        ⊕ render base
        ⊕ one_space
        ⊕ render_quoted name
        ⊕ one_space
        ⊕ render value
        ⊕ close
    render_fields (fn arity locals body) =
        rendered (b'(' ∷ b'f' ∷ b'n' ∷ b' ' ∷ b'a' ∷ b'r' ∷ b'i' ∷ b't' ∷ b'y' ∷ b'=' ∷ [])
        ⊕ rendered (decimal arity)
        ⊕ rendered (b' ' ∷ b'l' ∷ b'o' ∷ b'c' ∷ b'a' ∷ b'l' ∷ b's' ∷ b'=' ∷ [])
        ⊕ rendered (decimal locals)
        ⊕ one_space
        ⊕ render body
        ⊕ close
    render_fields (call builtin callee first count) =
        rendered (b'(' ∷ b'c' ∷ b'a' ∷ b'l' ∷ b'l' ∷ b' ' ∷ [])
        ⊕ render_callee builtin callee
        ⊕ render_node_list first count
        ⊕ close
    render_fields (if_expr condition then_branch else_branch has_else) =
        rendered (b'(' ∷ b'i' ∷ b'f' ∷ b' ' ∷ [])
        ⊕ render condition
        ⊕ one_space
        ⊕ render then_branch
        ⊕ render_else else_branch has_else
        ⊕ close
    render_fields (while_expr condition body) =
        rendered (b'(' ∷ b'w' ∷ b'h' ∷ b'i' ∷ b'l' ∷ b'e' ∷ b' ' ∷ [])
        ⊕ render condition
        ⊕ one_space
        ⊕ render body
        ⊕ close
    render_fields (seq first count) =
        rendered (b'(' ∷ b's' ∷ b'e' ∷ b'q' ∷ []) ⊕ render_node_list first count ⊕ close
    render_fields (unknown_node k) = refused signature

  abbrev pub render_at : (ℕ → Rendered) → Option Node → Rendered
  render_at render none = outside
  render_at render (some n) = render_fields render n

  -- frothy_ir_render_node
  unfoldable pub render_node : ℕ → ℕ → Rendered
  render_node zero id = too_deep
  render_node (suc fuel) id = render_at (render_node fuel) (get_elem? p.nodes id)

-- frothy_ir_render. `invalid` is FROTHY_IR_NODE_INVALID.
unfoldable pub render : ℕ → ℕ → Program → Rendered
render invalid fuel p = if p.root == invalid then refused signature else render_node p fuel p.root

-- frothy_ir_render_code
unfoldable pub render_code : ℕ → Program → ℕ → ℕ → ℕ → Rendered
render_code fuel p body arity locals =
    if leb (length p.nodes) body
    then refused bounds
    else rendered (b'(' ∷ b'f' ∷ b'n' ∷ b' ' ∷ b'a' ∷ b'r' ∷ b'i' ∷ b't' ∷ b'y' ∷ b'=' ∷ [])
      ⊕ rendered (decimal arity)
      ⊕ rendered (b' ' ∷ b'l' ∷ b'o' ∷ b'c' ∷ b'a' ∷ b'l' ∷ b's' ∷ b'=' ∷ [])
      ⊕ rendered (decimal locals)
      ⊕ one_space
      ⊕ render_node p fuel body
      ⊕ close
