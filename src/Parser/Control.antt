-- ===== src/Parser/Control.antt =====
-- The control forms of src/frothy_parser.c, over the parser of expressions: functions, conditionals,
-- loops and calls. The fuel bounds the tokens that are left.
use froth.Base.{
  ℕ, zero, suc, Bool, true, false, not, ◌||◌, Option, none, some, List, [], ◌∷◌, if◌then◌else◌,
  length, leb, ◌==◌,
}
use mathlib.Core.List.{reverse}
use froth.Base.Int.{ℤ, pos, negsuc}
use froth.Status.{signature, toplevel_only, bounds}
use froth.Ir.{text_literal}
use froth.Parser.Token.{
  TokenKind, Token, eof_token, semicolon, comma, lparen, rparen, minus, int_token, text_token,
  kw_fn, kw_if, kw_else, kw_while, kw_when, kw_unless, kw_cond, kw_case, kw_repeat, kw_as, kw_with,
  kw_cells, kw_call, kw_true, kw_false, kw_nil, is_block_start, can_start_expr, builtin_none,
  builtin_cells, builtin_not, builtin_add, builtin_lt, builtin_eq,
}
use froth.Parser.Lexer.{Host}
use froth.Parser.Scopes.{pop_scope}
use froth.Parser.State.{Parse, ◌>>=◌, ◌>>◌, pure, fail, get, finally}
use froth.Parser.Advance.{
  at, pass_token, require, expect, expect_block_start, take_name, enter_scope, declare,
  hidden_local,
}
use froth.Parser.Pools.{
  NodeList, no_nodes, node_list_push, node_list_flush, make_literal_node, make_int_literal_node,
  make_bool_literal_node, make_nil_literal_node, make_read_local_node, make_write_local_node,
  make_if_node, make_while_node, make_seq_node, make_call_node, make_builtin_call,
}
use froth.Parser.Params.{stuck, params_none, params_list, params_with, body_block, parse_fn_node}
use froth.Parser.Blocks.{
  skip_semicolons, parse_expr_before_block, parse_block, parse_block_contents_until,
}

-- What the loops of frothy_parse_cond and frothy_parse_case collect: the conditions or matched
-- values, the bodies, and the body behind `else`.
pub record Clauses : Type 0 where
  pub heads : NodeList
  pub bodies : NodeList
  pub else_body : Option ℕ

abbrev pub no_clauses : Clauses
no_clauses = record { heads = no_nodes; bodies = no_nodes; else_body = none }

abbrev pub with_else : Clauses → ℕ → Clauses
with_else c body = record c { else_body = some body }

-- The entries of two lists of one length, side by side.
abbrev pub pairs : List ℕ → List ℕ → List (ℕ × ℕ)
pairs (x ∷ xs) (y ∷ ys) = (x, y) ∷ pairs xs ys
pairs _ _ = []

-- The clauses, the last one first.
abbrev pub clauses_reversed : Clauses → List (ℕ × ℕ)
clauses_reversed c = reverse (pairs c.heads.items c.bodies.items)

-- `-value` of a froth_cell_t that is not negative.
abbrev pub negated : ℕ → ℤ
negated zero = pos 0
negated (suc n) = negsuc n

module _ (h : Host) where
  -- A literal's node, then on to the next token.
  abbrev pub and_advance : Parse ℕ → Parse ℕ
  and_advance m = do id ← m; pass_token h; pure id

  -- The MINUS case of frothy_parse_case_literal
  unfoldable pub parse_negative : Parse ℕ
  parse_negative = do
    pass_token h
    s ← get
    require h (at int_token s)
    and_advance (make_int_literal_node h.size_max (negated s.current.int_value))

  -- frothy_parse_case_literal
  unfoldable pub parse_case_literal : Parse ℕ
  parse_case_literal = do
    s ← get
    if at minus s
        then parse_negative
        else if at int_token s
        then and_advance (make_int_literal_node h.size_max (pos s.current.int_value))
        else if at text_token s
        then and_advance (make_literal_node h.size_max (text_literal s.current.owned_text))
        else if at kw_true s
        then and_advance (make_bool_literal_node h.size_max true)
        else if at kw_false s
        then and_advance (make_bool_literal_node h.size_max false)
        else if at kw_nil s
        then and_advance (make_nil_literal_node h.size_max)
        else fail signature

  -- The node where no condition holds: the `else` body, or nil.
  abbrev pub last_branch : Option ℕ → Parse ℕ
  last_branch none = make_nil_literal_node h.size_max
  last_branch (some body) = pure body

  -- The last loop of frothy_parse_cond
  unfoldable pub cond_chain : List (ℕ × ℕ) → ℕ → Parse ℕ
  cond_chain [] chain = pure chain
  cond_chain ((condition, body) ∷ rest) chain =
      make_if_node h.size_max condition body true chain >>= cond_chain rest

  -- One round of the last loop of frothy_parse_case
  unfoldable pub case_test : ℕ → ℕ → ℕ → ℕ → Parse ℕ
  case_test hidden value body chain = do
    scrutinee ← make_read_local_node h.size_max hidden
    condition ← make_builtin_call h.size_max builtin_eq (scrutinee ∷ (value ∷ []))
    make_if_node h.size_max condition body true chain

  -- The last loop of frothy_parse_case
  unfoldable pub case_chain : ℕ → List (ℕ × ℕ) → ℕ → Parse ℕ
  case_chain hidden [] chain = pure chain
  case_chain hidden ((value, body) ∷ rest) chain =
      case_test hidden value body chain >>= case_chain hidden rest

  -- Nodes pushed one after the other, flushed and made a sequence.
  unfoldable pub push_all : NodeList → List ℕ → Parse NodeList
  push_all l [] = pure l
  push_all l (id ∷ ids) = do pushed ← node_list_push h.size_max l id; push_all pushed ids

  unfoldable pub make_seq_of : NodeList → Parse ℕ
  make_seq_of l = do
    first ← node_list_flush h.size_max l
    make_seq_node h.size_max first (length l.items)

  unfoldable pub make_seq : List ℕ → Parse ℕ
  make_seq ids = do l ← push_all no_nodes ids; make_seq_of l

  -- The index variable's assignment in frothy_parse_repeat, if the loop names an index.
  unfoldable pub index_items : ℕ → Option ℕ → Parse NodeList
  index_items counter none = pure no_nodes
  index_items counter (some index) = do
    read ← make_read_local_node h.size_max counter
    prelude ← make_write_local_node h.size_max index read
    node_list_push h.size_max no_nodes prelude

  -- The increment of the counter in frothy_parse_repeat
  unfoldable pub make_increment : ℕ → Parse ℕ
  make_increment counter = do
    one ← make_int_literal_node h.size_max (pos 1)
    read ← make_read_local_node h.size_max counter
    value ← make_builtin_call h.size_max builtin_add (read ∷ (one ∷ []))
    make_write_local_node h.size_max counter value

  -- The condition of the loop in frothy_parse_repeat
  unfoldable pub make_loop_condition : ℕ → ℕ → Parse ℕ
  make_loop_condition counter limit = do
    counter_read ← make_read_local_node h.size_max counter
    limit_read ← make_read_local_node h.size_max limit
    make_builtin_call h.size_max builtin_lt (counter_read ∷ (limit_read ∷ []))

  -- The loop node of frothy_parse_repeat: the items, then the increment.
  unfoldable pub make_counting_loop : ℕ → ℕ → NodeList → Parse ℕ
  make_counting_loop counter condition items = do
    increment ← make_increment counter
    loop_items ← node_list_push h.size_max items increment
    while_body ← make_seq_of loop_items
    make_while_node h.size_max condition while_body

  -- frothy_parse_repeat behind the body.
  unfoldable pub make_repeat : ℕ → Option ℕ → ℕ → Parse ℕ
  make_repeat count_expr index body = do
    limit ← hidden_local h
    counter ← hidden_local h
    limit_init ← make_write_local_node h.size_max limit count_expr
    zero_node ← make_int_literal_node h.size_max (pos 0)
    counter_init ← make_write_local_node h.size_max counter zero_node
    condition ← make_loop_condition counter limit
    items ← index_items counter index
    with_body ← node_list_push h.size_max items body
    while_node ← make_counting_loop counter condition with_body
    make_seq (limit_init ∷ (counter_init ∷ (while_node ∷ [])))

  -- frothy_parse_cells
  unfoldable pub parse_cells : Bool → Parse ℕ
  parse_cells false = fail toplevel_only
  parse_cells true = do
    expect h kw_cells
    expect h lparen
    s ← get
    if not (at int_token s) || leb s.current.int_value 0 then fail bounds else pure tt
    arg ← make_int_literal_node h.size_max (pos s.current.int_value)
    pass_token h
    expect h rparen
    make_builtin_call h.size_max builtin_cells (arg ∷ [])

  -- `as NAME` in frothy_parse_repeat
  unfoldable pub parse_index_name : Parse (Option Token)
  parse_index_name = do
    s ← get
    if at kw_as s then (pass_token h >> take_name h >>= λ t. pure (some t)) else pure none

  abbrev pub declare_index : Option Token → Parse (Option ℕ)
  declare_index none = pure none
  declare_index (some t) = declare h t >>= λ i. pure (some i)

  module _ (parse_expr : Bool → Parse ℕ) (n : ℕ) where
    -- frothy_parse_fn
    unfoldable pub parse_fn : Parse ℕ
    parse_fn = do
      expect h kw_fn
      s ← get
      if at lparen s
          then parse_fn_node h parse_expr (parse_block h parse_expr n) n params_list body_block
          else if at kw_with s
          then parse_fn_node h parse_expr (parse_block h parse_expr n) n params_with body_block
          else if is_block_start s.current.kind
          then parse_fn_node h parse_expr (parse_block h parse_expr n) n params_none body_block
          else fail signature

    -- frothy_parse_if behind the first branch.
    unfoldable pub parse_else : ℕ → ℕ → Parse ℕ
    parse_else condition then_branch = do
      s ← get
      if at kw_else s
          then pass_token h
            >> parse_block h parse_expr n
            >>= make_if_node h.size_max condition then_branch true
          else make_if_node h.size_max condition then_branch false h.size_max

    -- A condition and the block behind it.
    unfoldable pub parse_guarded : Parse (ℕ × ℕ)
    parse_guarded = do
      condition ← parse_expr_before_block h parse_expr false
      body ← parse_block h parse_expr n
      pure (condition, body)

    abbrev pub else_of : ℕ × ℕ → Parse ℕ
    else_of (condition, body) = parse_else condition body

    -- frothy_parse_if
    unfoldable pub parse_if : Parse ℕ
    parse_if = do expect h kw_if; r ← parse_guarded; else_of r

    abbrev pub while_of : ℕ × ℕ → Parse ℕ
    while_of (condition, body) = make_while_node h.size_max condition body

    -- frothy_parse_while
    unfoldable pub parse_while : Parse ℕ
    parse_while = do expect h kw_while; r ← parse_guarded; while_of r

    abbrev pub when_of : ℕ × ℕ → Parse ℕ
    when_of (condition, body) = make_if_node h.size_max condition body false h.size_max

    -- frothy_parse_when
    unfoldable pub parse_when : Parse ℕ
    parse_when = do expect h kw_when; r ← parse_guarded; when_of r

    -- frothy_parse_unless
    unfoldable pub parse_unless : Parse ℕ
    parse_unless = do
      expect h kw_unless
      condition ← parse_expr_before_block h parse_expr false
      negation ← make_builtin_call h.size_max builtin_not (condition ∷ [])
      body ← parse_block h parse_expr n
      make_if_node h.size_max negation body false h.size_max

    -- The `else` clause of frothy_parse_cond and frothy_parse_case, which is the last one.
    unfoldable pub parse_else_clause : TokenKind → Clauses → Parse Clauses
    parse_else_clause close c = do
      require h (not (length c.heads.items == 0))
      pass_token h
      body ← parse_block h parse_expr n
      skip_semicolons h n
      s ← get
      require h (at close s)
      pure (with_else c body)

    -- A clause's two nodes pushed, and the semicolons behind it.
    unfoldable pub push_clause : Clauses → ℕ × ℕ → Parse Clauses
    push_clause c (head, body) = do
      heads ← node_list_push h.size_max c.heads head
      bodies ← node_list_push h.size_max c.bodies body
      skip_semicolons h n
      pure (record c { heads = heads; bodies = bodies })

    -- A `when` clause of frothy_parse_cond
    unfoldable pub parse_cond_clause : Clauses → Parse Clauses
    parse_cond_clause c = do
      s ← get
      require h (at kw_when s)
      pass_token h
      r ← parse_guarded
      push_clause c r

    -- A clause of frothy_parse_case
    unfoldable pub parse_case_clause : Clauses → Parse Clauses
    parse_case_clause c = do
      value ← parse_case_literal
      body ← parse_block h parse_expr n
      push_clause c (value, body)

    -- The first loop of frothy_parse_cond and that of frothy_parse_case, which differ in their
    -- clauses.
    unfoldable pub clauses_loop :
        (Clauses → Parse Clauses) → ℕ → TokenKind → Clauses → Parse Clauses
    clauses_loop clause zero close c = stuck
    clauses_loop clause (suc k) close c = do
      s ← get
      if at close s
          then pure c
          else if at eof_token s
          then fail signature
          else if at semicolon s
          then pass_token h >> clauses_loop clause k close c
          else if at kw_else s
          then parse_else_clause close c
          else (clause c >>= clauses_loop clause k close)

    -- frothy_parse_cond
    unfoldable pub parse_cond : Parse ℕ
    parse_cond = do
      expect h kw_cond
      close ← expect_block_start h
      c ← clauses_loop parse_cond_clause n close no_clauses
      expect h close
      chain ← last_branch c.else_body
      cond_chain (clauses_reversed c) chain

    -- frothy_parse_case
    unfoldable pub parse_case : Parse ℕ
    parse_case = do
      expect h kw_case
      scrutinee ← parse_expr_before_block h parse_expr false
      close ← expect_block_start h
      c ← clauses_loop parse_case_clause n close no_clauses
      expect h close
      hidden ← hidden_local h
      scrutinee_init ← make_write_local_node h.size_max hidden scrutinee
      chain ← last_branch c.else_body
      whole ← case_chain hidden (clauses_reversed c) chain
      make_seq (scrutinee_init ∷ (whole ∷ []))

    -- frothy_parse_repeat. Where the index cannot be declared the source leaves the scope to
    -- frothy_parser_cleanup.
    unfoldable pub parse_repeat : Parse ℕ
    parse_repeat = do
      expect h kw_repeat
      count_expr ← parse_expr_before_block h parse_expr false
      index_name ← parse_index_name
      close ← expect_block_start h
      enter_scope h
      index ← declare_index index_name
      body ← finally (parse_block_contents_until h parse_expr n close) pop_scope
      make_repeat count_expr index body

    -- The loops over arguments that read at least one.
    unfoldable pub args_loop : ℕ → NodeList → Parse NodeList
    args_loop zero args = stuck
    args_loop (suc k) args = do
      arg ← parse_expr false
      pushed ← node_list_push h.size_max args arg
      s ← get
      if at comma s then pass_token h >> args_loop k pushed else pure pushed

    -- A call of `callee` with the arguments.
    unfoldable pub make_call_of : ℕ → NodeList → Parse ℕ
    make_call_of callee args = do
      first ← node_list_flush h.size_max args
      make_call_node h.size_max builtin_none callee first (length args.items)

    -- frothy_parse_call_expr
    unfoldable pub parse_call_expr : Parse ℕ
    parse_call_expr = do
      expect h kw_call
      callee ← parse_expr false
      expect h kw_with
      s ← get
      require h (can_start_expr s.current.kind)
      args ← args_loop n no_nodes
      make_call_of callee args
