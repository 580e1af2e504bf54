-- ===== src/Parser/Expr.antt =====
-- The expressions of src/frothy_parser.c: primary forms, calls, indexing, fields and operators.
-- `parse_expr` takes a fuel, the depth to which expressions nest and the bound of every loop.
use froth.Base.{
  ℕ, zero, suc, Bool, true, false, not, ◌&&◌, ◌||◌, Option, none, some, List, [], ◌∷◌, ◌==◌,
  get_elem?, if◌then◌else◌, length,
}
use froth.Base.Int.{pos}
use froth.Status.{signature, toplevel_only}
use froth.Ir.{Node, slot_designator, text_literal}
use froth.Parser.Token.{
  TokenKind, name_token, int_token, text_token, lparen, rparen, lbracket, rbracket, comma, colon,
  at_sign, minus, arrow, kw_fn, kw_if, kw_while, kw_repeat, kw_cond, kw_case, kw_when, kw_unless,
  kw_true, kw_false, kw_nil, kw_not, kw_and, kw_or, kw_call, kw_cells, kw_record, Token, token_text,
  has_dot, is_simple_name, can_start_expr, is_binary_operator, binary_builtin, builtin_not,
  builtin_negate,
}
use froth.Parser.Lexer.{Host}
use froth.Parser.Scopes.{Resolved, local, slot, resolve_name}
use froth.Parser.State.{Parser, Parse, ◌>>=◌, ◌>>◌, pure, fail, get, of_result}
use froth.Parser.Advance.{at, pass_token, require, expect, take_name}
use froth.Parser.Pools.{
  NodeList, no_nodes, node_list_push, join_prefix_name, make_literal_node, make_int_literal_node,
  make_bool_literal_node, make_nil_literal_node, make_read_local_node, make_read_slot_node,
  make_read_slot_fallback_node, make_slot_designator_node, make_read_index_node,
  make_read_field_node, make_builtin_call, make_short_circuit_node,
}
use froth.Parser.Params.{stuck}
use froth.Parser.Control.{
  and_advance, parse_fn, parse_if, parse_while, parse_cond, parse_case, parse_when, parse_unless,
  parse_repeat, parse_call_expr, parse_cells, args_loop, make_call_of,
}

-- `a == b` of two pointers into the source.
abbrev pub same_pointer : Option (List ℕ) → Option (List ℕ) → Bool
same_pointer none none = true
same_pointer none (some b) = false
same_pointer (some a) none = false
same_pointer (some a) (some b) = length a == length b

-- Is there a bracket that a condition leaves to the block behind it?
unfoldable pub leaves_bracket : Parser → Bool
leaves_bracket s =
    at lbracket s
    && (s.prefer_block_on_spaced_bracket && not (same_pointer s.prev_token_end s.current.start))

abbrev pub is_designator : Option Node → Bool
is_designator (some (slot_designator name)) = true
is_designator _ = false

abbrev pub starts_postfix : Parser → Bool
starts_postfix s = at lparen s || at lbracket s || at colon s || at arrow s

module _ (h : Host) where
  -- A name that is no local, in frothy_parse_primary.
  abbrev pub read_slot_under : Option (List ℕ) → Token → List ℕ → Parse ℕ
  read_slot_under none t name = make_read_slot_node h.size_max name
  read_slot_under (some prefix) t name =
      if not (has_dot (token_text t))
      then make_read_slot_fallback_node h.size_max (join_prefix_name (some prefix) name) name
      else make_read_slot_node h.size_max name

  abbrev pub read_resolved : Token → Resolved → Parse ℕ
  read_resolved t (local i) = make_read_local_node h.size_max i
  read_resolved t (slot name) = λ s. read_slot_under s.active_prefix t name s

  -- The NAME case of frothy_parse_primary
  unfoldable pub parse_name : Parse ℕ
  parse_name = do t ← take_name h; s ← get; r ← of_result (resolve_name t s); read_resolved t r

  -- The AT case of frothy_parse_primary
  unfoldable pub parse_designator : Parse ℕ
  parse_designator = do
    pass_token h
    s ← get
    require h (at name_token s)
    pass_token h
    make_slot_designator_node h.size_max (token_text s.current)

  -- The ARROW case of frothy_parse_postfix
  unfoldable pub parse_field : ℕ → Parse ℕ
  parse_field base = do
    pass_token h
    s ← get
    require h (is_simple_name s.current)
    pass_token h
    make_read_field_node h.size_max base (token_text s.current)

  -- No call and no index of a slot designator.
  unfoldable pub refuse_designator : ℕ → Parse (Unit {0})
  refuse_designator id = do s ← get; require h (not (is_designator (get_elem? s.program.nodes id)))

  module _ (parse_expr : Bool → Parse ℕ) (n : ℕ) where
    -- The LPAREN case of frothy_parse_primary
    unfoldable pub parse_parens : Parse ℕ
    parse_parens = do pass_token h; id ← parse_expr false; expect h rparen; pure id

    -- The switch of frothy_parse_primary
    unfoldable pub primary_of : Bool → TokenKind → Parse ℕ
    primary_of top int_token = do
      s ← get
      and_advance h (make_int_literal_node h.size_max (pos s.current.int_value))
    primary_of top text_token = do
      s ← get
      and_advance h (make_literal_node h.size_max (text_literal s.current.owned_text))
    primary_of top kw_true = and_advance h (make_bool_literal_node h.size_max true)
    primary_of top kw_false = and_advance h (make_bool_literal_node h.size_max false)
    primary_of top kw_nil = and_advance h (make_nil_literal_node h.size_max)
    primary_of top name_token = parse_name
    primary_of top at_sign = parse_designator
    primary_of top lparen = parse_parens
    primary_of top kw_fn = parse_fn h parse_expr n
    primary_of top kw_if = parse_if h parse_expr n
    primary_of top kw_while = parse_while h parse_expr n
    primary_of top kw_cond = parse_cond h parse_expr n
    primary_of top kw_case = parse_case h parse_expr n
    primary_of top kw_when = parse_when h parse_expr n
    primary_of top kw_unless = parse_unless h parse_expr n
    primary_of top kw_repeat = parse_repeat h parse_expr n
    primary_of top kw_call = parse_call_expr h parse_expr n
    primary_of top kw_cells = parse_cells h top
    primary_of top kw_record = fail toplevel_only
    primary_of top _ = fail signature

    -- frothy_parse_primary
    unfoldable pub parse_primary : Bool → Parse ℕ
    parse_primary top = do s ← get; primary_of top s.current.kind

    -- One argument in parentheses, and whether a comma followed.
    unfoldable pub paren_arg : NodeList → Parse (Bool × NodeList)
    paren_arg args = do
      arg ← parse_expr false
      pushed ← node_list_push h.size_max args arg
      s ← get
      if at comma s then pass_token h >> pure (true, pushed) else pure (false, pushed)

    -- The loop over the arguments in parentheses.
    unfoldable pub paren_args_loop : ℕ → NodeList → Parse NodeList
    paren_args_loop zero args = stuck
    paren_args_loop (suc k) args = do
      s ← get
      if at rparen s
          then pure args
          else (paren_arg args >>= λ r. if r.0 then paren_args_loop k r.1 else pure r.1)

    -- The call `callee(...)` in frothy_parse_postfix
    unfoldable pub parse_paren_call : ℕ → Parse ℕ
    parse_paren_call callee = do
      refuse_designator callee
      pass_token h
      args ← paren_args_loop n no_nodes
      expect h rparen
      make_call_of h parse_expr n callee args

    abbrev pub colon_args : Parse NodeList
    colon_args = do
      s ← get
      if can_start_expr s.current.kind then args_loop h parse_expr n n no_nodes else pure no_nodes

    -- The call `callee: ...` in frothy_parse_postfix
    unfoldable pub parse_colon_call : ℕ → Parse ℕ
    parse_colon_call callee = do
      refuse_designator callee
      pass_token h
      args ← colon_args
      make_call_of h parse_expr n callee args

    -- The index `base[...]` in frothy_parse_postfix
    unfoldable pub parse_index : ℕ → Parse ℕ
    parse_index base = do
      refuse_designator base
      pass_token h
      index ← parse_expr false
      expect h rbracket
      make_read_index_node h.size_max base index

    -- One round of the loop in frothy_parse_postfix
    unfoldable pub postfix_round : ℕ → Parse ℕ
    postfix_round id = do
      s ← get
      if at lparen s
          then parse_paren_call id
          else if at colon s
          then parse_colon_call id
          else if at arrow s
          then parse_field id
          else parse_index id

    -- The loop of frothy_parse_postfix
    unfoldable pub postfix_loop : ℕ → ℕ → Parse ℕ
    postfix_loop zero id = stuck
    postfix_loop (suc k) id = do
      s ← get
      if not (starts_postfix s) || leaves_bracket s
          then pure id
          else (postfix_round id >>= postfix_loop k)

    -- frothy_parse_postfix
    unfoldable pub parse_postfix : Bool → Parse ℕ
    parse_postfix top = do id ← parse_primary top; postfix_loop n id

    -- frothy_parse_prefix
    unfoldable pub parse_prefix : ℕ → Bool → Parse ℕ
    parse_prefix zero top = stuck
    parse_prefix (suc k) top = do
      s ← get
      if at minus s
          then (pass_token h >> parse_prefix k false >>= λ id.
              make_builtin_call h.size_max builtin_negate (id ∷ []))
          else if at kw_not s
          then (pass_token h >> parse_prefix k false >>= λ id.
              make_builtin_call h.size_max builtin_not (id ∷ []))
          else parse_postfix top

    -- One round of the loop of frothy_parse_binary_expr
    unfoldable pub binary_round : ℕ → Parse ℕ
    binary_round lhs = do
      s ← get
      pass_token h
      rhs ← parse_prefix n false
      make_builtin_call h.size_max (binary_builtin s.current.kind) (lhs ∷ (rhs ∷ []))

    -- The loop of frothy_parse_binary_expr
    unfoldable pub binary_loop : ℕ → ℕ → Parse ℕ
    binary_loop zero lhs = stuck
    binary_loop (suc k) lhs = do
      s ← get
      if is_binary_operator s.current.kind then (binary_round lhs >>= binary_loop k) else pure lhs

    -- frothy_parse_binary_expr
    unfoldable pub parse_binary_expr : Bool → Parse ℕ
    parse_binary_expr top = do lhs ← parse_prefix n top; binary_loop n lhs

    -- One round of the loop of frothy_parse_and_expr
    unfoldable pub and_round : ℕ → Parse ℕ
    and_round lhs = do
      pass_token h
      rhs ← parse_binary_expr false
      make_short_circuit_node h.size_max false lhs rhs

    -- The loop of frothy_parse_and_expr
    unfoldable pub and_loop : ℕ → ℕ → Parse ℕ
    and_loop zero lhs = stuck
    and_loop (suc k) lhs = do
      s ← get
      if at kw_and s then (and_round lhs >>= and_loop k) else pure lhs

    -- frothy_parse_and_expr
    unfoldable pub parse_and_expr : Bool → Parse ℕ
    parse_and_expr top = do lhs ← parse_binary_expr top; and_loop n lhs

    -- One round of the loop of frothy_parse_expr
    unfoldable pub or_round : ℕ → Parse ℕ
    or_round lhs = do
      pass_token h
      rhs ← parse_and_expr false
      make_short_circuit_node h.size_max true lhs rhs

    -- The loop of frothy_parse_expr
    unfoldable pub or_loop : ℕ → ℕ → Parse ℕ
    or_loop zero lhs = stuck
    or_loop (suc k) lhs = do s ← get; if at kw_or s then (or_round lhs >>= or_loop k) else pure lhs

    -- The body of frothy_parse_expr, with itself for the expressions inside.
    unfoldable pub expr_body : Bool → Parse ℕ
    expr_body top = do lhs ← parse_and_expr top; or_loop n lhs

  -- frothy_parse_expr
  unfoldable pub parse_expr : ℕ → Bool → Parse ℕ
  parse_expr zero top = stuck
  parse_expr (suc n) top = expr_body (parse_expr n) (suc n) top
