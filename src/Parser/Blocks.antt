-- ===== src/Parser/Blocks.antt =====
-- Blocks, places and assignments (src/frothy_parser.c), over the parser of expressions. The loops
-- take a fuel, a bound on the tokens that are left.
use froth.Base.{
  ℕ, zero, suc, Bool, true, false, ◌&&◌, Option, some, List, get_elem?, if◌then◌else◌, length,
}
use froth.Status.{signature, toplevel_only}
use froth.Ir.{
  Node, read_local, read_slot, read_slot_fallback, slot_designator, read_index, read_field,
}
use froth.Parser.Token.{
  TokenKind, Token, eof_token, semicolon, name_token, kw_set, kw_here, kw_record,
  is_binding_operator,
}
use froth.Parser.Lexer.{Host}
use froth.Parser.Scopes.{pop_scope}
use froth.Parser.State.{Parser, Parse, ◌>>=◌, ◌>>◌, pure, fail, get, put, finally}
use froth.Parser.Advance.{
  at, pass_token, expect, expect_block_start, expect_binding_operator, expect_set_operator,
  take_name, enter_scope, declare,
}
use froth.Parser.Pools.{
  NodeList, no_nodes, node_list_push, node_list_flush, make_write_local_node, make_write_slot_node,
  make_write_slot_fallback_node, make_write_index_node, make_write_field_node, make_seq_node,
}
use froth.Parser.Params.{stuck}

-- frothy_place_t
pub data Place : Type 0 where
  local_place : ℕ → Place
  slot_place : List ℕ → Place
  slot_fallback_place : List ℕ → List ℕ → Place
  index_place : ℕ → ℕ → Place
  field_place : ℕ → List ℕ → Place

-- frothy_parse_place on the node of the expression.
abbrev pub node_place : Option Node → Parse Place
node_place (some (read_local i)) = pure (local_place i)
node_place (some (read_slot name)) = pure (slot_place name)
node_place (some (read_slot_fallback primary fallback)) =
    pure (slot_fallback_place primary fallback)
node_place (some (slot_designator name)) = pure (slot_fallback_place name name)
node_place (some (read_index base index)) = pure (index_place base index)
node_place (some (read_field base name)) = pure (field_place base name)
node_place _ = fail signature

abbrev pub set_prefer : Bool → Parser → Parser
set_prefer b s = record s { prefer_block_on_spaced_bracket = b }

module _ (h : Host) where
  -- The switch of frothy_parse_set_item
  unfoldable pub write_place : ℕ → Place → Parse ℕ
  write_place value (local_place i) = make_write_local_node h.size_max i value
  write_place value (slot_place name) = make_write_slot_node h.size_max name value true
  write_place value (slot_fallback_place primary fallback) =
      make_write_slot_fallback_node h.size_max primary fallback value true
  write_place value (index_place base index) = make_write_index_node h.size_max base index value
  write_place value (field_place base name) = make_write_field_node h.size_max base name value

  -- The loops `while (frothy_parser_match(parser, FROTHY_TOKEN_SEMICOLON))`
  unfoldable pub skip_semicolons : ℕ → Parse (Unit {0})
  skip_semicolons zero = stuck
  skip_semicolons (suc n) = do
    s ← get
    if at semicolon s then pass_token h >> skip_semicolons n else pure tt

  module _ (parse_expr : Bool → Parse ℕ) where
    -- frothy_parse_expr_before_block
    unfoldable pub parse_expr_before_block : Bool → Parse ℕ
    parse_expr_before_block top = do
      s ← get
      put (set_prefer true s)
      finally (parse_expr top) (set_prefer s.prefer_block_on_spaced_bracket)

    -- frothy_parse_place
    unfoldable pub parse_place : Parse Place
    parse_place = do expr ← parse_expr false; s ← get; node_place (get_elem? s.program.nodes expr)

    -- frothy_parse_set_item
    unfoldable pub parse_set_item : Parse ℕ
    parse_set_item = do
      expect h kw_set
      place ← parse_place
      expect_set_operator h
      value ← parse_expr false
      write_place value place

    -- frothy_parse_local_binding_item
    unfoldable pub parse_local_binding_item : Token → Parse ℕ
    parse_local_binding_item t = do
      expect_binding_operator h
      value ← parse_expr false
      i ← declare h t
      make_write_local_node h.size_max i value

    -- frothy_parse_here_item
    unfoldable pub parse_here_item : Parse ℕ
    parse_here_item = do expect h kw_here; t ← take_name h; parse_local_binding_item t

    abbrev pub parse_named_item : Parse ℕ
    parse_named_item = take_name h >>= parse_local_binding_item

    -- frothy_parse_block_item
    unfoldable pub parse_block_item : Parse ℕ
    parse_block_item = do
      s ← get
      if at kw_here s
          then parse_here_item
          else if at name_token s && is_binding_operator s.next.kind
          then parse_named_item
          else if at kw_set s
          then parse_set_item
          else if at kw_record s
          then fail toplevel_only
          else parse_expr false

    -- One item of a block, pushed on the list, with the semicolons behind it.
    unfoldable pub parse_item_of : ℕ → NodeList → Parse NodeList
    parse_item_of n items = do
      item ← parse_block_item
      pushed ← node_list_push h.size_max items item
      skip_semicolons n
      pure pushed

    -- The loop of frothy_parse_block_contents_until
    unfoldable pub block_loop : ℕ → TokenKind → NodeList → Parse NodeList
    block_loop zero close items = stuck
    block_loop (suc n) close items = do
      s ← get
      if at close s
          then pure items
          else if at eof_token s
          then fail signature
          else if at semicolon s
          then pass_token h >> block_loop n close items
          else (parse_item_of n items >>= block_loop n close)

    -- frothy_parse_block_contents_until
    unfoldable pub parse_block_contents_until : ℕ → TokenKind → Parse ℕ
    parse_block_contents_until n close = do
      items ← block_loop n close no_nodes
      expect h close
      first ← node_list_flush h.size_max items
      make_seq_node h.size_max first (length items.items)

    -- frothy_parse_block
    unfoldable pub parse_block : ℕ → Parse ℕ
    parse_block n = do
      close ← expect_block_start h
      enter_scope h
      finally (parse_block_contents_until n close) pop_scope
