-- ===== src/Parser/Top.antt =====
-- The top level of src/frothy_parser.c: definitions, records, `in` blocks, and the entry points. The
-- fuel bounds the tokens that are left.
use froth.Base.{
  ℕ, zero, suc, ◌+◌, ◌-◌, Bool, true, false, not, ◌&&◌, ◌||◌, Option, none, some, List, [], ◌∷◌,
  get_elem?, if◌then◌else◌, length,
}
use froth.Status.{signature, bounds}
use froth.Ir.{Literal, text_literal, Program}
use froth.Slots.Names.{same_bytes}
use froth.Parser.Token.{
  TokenKind, Token, no_token, eof_token, name_token, semicolon, comma, lbrace, lbracket, rbracket,
  kw_to, kw_with, kw_record, kw_in, kw_set, kw_cells, is_block_start, is_binding_operator,
  is_simple_name, matches_name, token_text, bytes_from, same_kind,
}
use froth.Parser.Lexer.{Host}
use froth.Parser.Scopes.{current_frame}
use froth.Parser.State.{
  Pools, Parser, Outcome, done, failed, overread, out_of_fuel, Parse, ◌>>=◌, ◌>>◌, pure, fail, get,
  put, finally,
}
use froth.Parser.Advance.{
  at, lex_into_next, pass_token, require, expect, expect_block_start, expect_binding_operator,
  take_name, enter_frame,
}
use froth.Parser.Pools.{
  NodeList, no_nodes, node_list_push, append_link, add_text_literal, join_prefix_name,
  make_record_def_node, make_top_level_write_slot_range, make_top_level_write_slot_token,
}
use froth.Parser.Params.{
  stuck, ParamsKind, params_none, params_with, BodyKind, body_block, body_expr, NamedFnKind,
  named_fn_none, named_fn_expr, named_fn_block, parse_fn_node, parse_top_level_named_fn,
  match_top_level_named_fn, frame_locals,
}
use froth.Parser.Blocks.{parse_block, skip_semicolons, parse_set_item}
use froth.Parser.Control.{parse_cells, make_seq_of}
use froth.Parser.Expr.{parse_expr}

-- The loop of frothy_record_fields_contain_name from the literal at link `first`.
abbrev pub is_text : Option Literal → List ℕ → Bool
is_text (some (text_literal bs)) name = same_bytes bs name
is_text _ name = false

abbrev pub literal_at : Pools → Option ℕ → Option Literal
literal_at p none = none
literal_at p (some id) = get_elem? p.literals id

unfoldable pub fields_contain : Pools → ℕ → ℕ → List ℕ → Bool
fields_contain p first zero name = false
fields_contain p first (suc count) name =
    is_text (literal_at p (get_elem? p.links first)) name || fields_contain p (first + 1) count name

-- frothy_record_fields_contain_name
abbrev pub record_fields_contain_name : Parser → ℕ → ℕ → Token → Bool
record_fields_contain_name s first count t = fields_contain s.program first count (token_text t)

module _ (h : Host) where
  -- One round of the loop in frothy_parse_top_level_record: a field, and whether a comma followed.
  unfoldable pub parse_record_field : ℕ → ℕ → Parse Bool
  parse_record_field first count = do
    s ← get
    require h (is_simple_name s.current)
    require h (not (record_fields_contain_name s first count s.current))
    id ← add_text_literal h.size_max (token_text s.current)
    append_link h.size_max id
    pass_token h
    t ← get
    if at comma t then pass_token h >> pure true else pure false

  -- The loop of frothy_parse_top_level_record: the count of fields.
  unfoldable pub record_loop : ℕ → ℕ → ℕ → Parse ℕ
  record_loop zero first count = stuck
  record_loop (suc k) first count = do
    more ← parse_record_field first count
    if more then record_loop k first (count + 1) else pure (count + 1)

  -- frothy_parse_top_level_record
  unfoldable pub parse_top_level_record : ℕ → Parse ℕ
  parse_top_level_record n = do
    start ← get
    expect h kw_record
    s ← get
    require h (is_simple_name s.current)
    t ← take_name h
    expect h lbracket
    u ← get
    if at rbracket u then fail bounds else pure tt
    count ← record_loop n (length start.program.links) 0
    expect h rbracket
    v ← get
    def ←
        make_record_def_node h.size_max (join_prefix_name v.active_prefix (token_text t))
          (length start.program.links) count
    make_top_level_write_slot_token h.size_max t def

  -- frothy_parse_top_level_boot_block
  unfoldable pub parse_top_level_boot_block : ℕ → Parse ℕ
  parse_top_level_boot_block n = do
    pass_token h
    f ← parse_fn_node h (parse_expr h n) (parse_block h (parse_expr h n) n) n params_none body_block
    make_top_level_write_slot_range h.size_max (b'b' ∷ (b'o' ∷ (b'o' ∷ (b't' ∷ [])))) f

  abbrev pub to_params : Parser → ParamsKind
  to_params s = if at kw_with s then params_with else params_none

  -- frothy_parse_top_level_to
  unfoldable pub parse_top_level_to : ℕ → Parse ℕ
  parse_top_level_to n = do
    expect h kw_to
    t ← take_name h
    s ← get
    require h (at kw_with s || is_block_start s.current.kind)
    f ←
        parse_fn_node h (parse_expr h n) (parse_block h (parse_expr h n) n) n (to_params s)
          body_block
    make_top_level_write_slot_token h.size_max t f

  -- The value of a binding: `cells(...)` or an expression.
  unfoldable pub parse_bound_value : ℕ → Parse ℕ
  parse_bound_value n = do
    s ← get
    if at kw_cells s then parse_cells h true else parse_expr h n false

  -- `NAME is VALUE` at the top level and in an `in` block.
  unfoldable pub parse_binding : ℕ → Parse ℕ
  parse_binding n = do
    t ← take_name h
    expect_binding_operator h
    value ← parse_bound_value n
    make_top_level_write_slot_token h.size_max t value

  -- `NAME(...) = EXPR` and `NAME(...) { ... }` at the top level and in an `in` block.
  unfoldable pub parse_named_fn : ℕ → BodyKind → Parse ℕ
  parse_named_fn n kind = do
    t ← take_name h
    parse_top_level_named_fn h (parse_expr h n) (parse_block h (parse_expr h n) n) n t kind

  abbrev pub is_binding : Parser → Bool
  is_binding s = at name_token s && is_binding_operator s.next.kind

  -- What frothy_parse_in_item does behind its tests for `to` and `record`.
  abbrev pub named_or_in : ℕ → Parse ℕ → NamedFnKind → Parser → Parse ℕ
  named_or_in n parse_in named_fn_expr s = parse_named_fn n body_expr
  named_or_in n parse_in named_fn_block s = parse_named_fn n body_block
  named_or_in n parse_in named_fn_none s = if at kw_in s then parse_in else fail signature

  -- frothy_parse_in_item, with frothy_parse_in for a block inside.
  unfoldable pub parse_in_item : ℕ → Parse ℕ → Parse ℕ
  parse_in_item n parse_in = do
    kind ← match_top_level_named_fn h n
    s ← get
    if is_binding s
        then parse_binding n
        else if at kw_to s
        then parse_top_level_to n
        else if at kw_record s
        then parse_top_level_record n
        else named_or_in n parse_in kind s

  unfoldable pub in_item_pushed : ℕ → Parse ℕ → NodeList → Parse NodeList
  in_item_pushed n parse_in items = do
    item ← parse_in_item n parse_in
    pushed ← node_list_push h.size_max items item
    skip_semicolons h n
    pure pushed

  -- The loop of frothy_parse_in
  unfoldable pub in_loop : ℕ → Parse ℕ → ℕ → TokenKind → NodeList → Parse NodeList
  in_loop n parse_in zero close items = stuck
  in_loop n parse_in (suc k) close items = do
    s ← get
    if at close s
        then pure items
        else if at eof_token s
        then fail signature
        else if at semicolon s
        then pass_token h >> in_loop n parse_in k close items
        else (in_item_pushed n parse_in items >>= in_loop n parse_in k close)

  abbrev pub set_prefix : Option (List ℕ) → Parser → Parser
  set_prefix prefix s = record s { active_prefix = prefix }

  -- frothy_parse_in behind the block's start.
  unfoldable pub in_contents : ℕ → Parse ℕ → TokenKind → Parse ℕ
  in_contents n parse_in close = do
    items ← in_loop n parse_in n close no_nodes
    expect h close
    make_seq_of h items

  -- frothy_parse_in. Here the name stays the current token while its prefix is made.
  unfoldable pub parse_in : ℕ → ℕ → Parse ℕ
  parse_in n zero = stuck
  parse_in n (suc depth) = do
    expect h kw_in
    s ← get
    require h (at name_token s)
    pass_token h
    close ← expect_block_start h
    t ← get
    put (set_prefix (some (join_prefix_name s.active_prefix (token_text s.current))) t)
    finally (in_contents n (parse_in n depth) close) (set_prefix s.active_prefix)

  abbrev pub is_boot_block : Parser → Bool
  is_boot_block s =
      at name_token s
      && (same_kind s.next.kind lbrace
          && matches_name s.current (b'b' ∷ (b'o' ∷ (b'o' ∷ (b't' ∷ [])))))

  -- The last tests of frothy_parse_top_level_internal
  abbrev pub named_or_rest : ℕ → NamedFnKind → Parser → Parse ℕ
  named_or_rest n named_fn_expr s = parse_named_fn n body_expr
  named_or_rest n named_fn_block s = parse_named_fn n body_block
  named_or_rest n named_fn_none s =
      if at kw_in s
      then parse_in n n
      else if at kw_set s
      then parse_set_item h (parse_expr h n)
      else parse_expr h n false

  -- frothy_parse_top_level_internal from its look ahead to the root.
  unfoldable pub parse_root : ℕ → Parse ℕ
  parse_root n = do
    kind ← match_top_level_named_fn h n
    s ← get
    if is_binding s
        then parse_binding n
        else if is_boot_block s
        then parse_top_level_boot_block n
        else if at kw_to s
        then parse_top_level_to n
        else if at kw_record s
        then parse_top_level_record n
        else named_or_rest n kind s

  -- The parser after its memset, over an empty program.
  abbrev pub initial_parser : List ℕ → Parser
  initial_parser source = record {
    cursor = some source;
    prev_token_end = none;
    prefer_block_on_spaced_bracket = false;
    current = no_token;
    next = no_token;
    program = record {
      literals = [];
      literal_capacity = 0;
      nodes = [];
      node_capacity = 0;
      links = [];
      link_capacity = 0;
    };
    bindings = [];
    binding_capacity = 0;
    scopes = [];
    scope_capacity = 0;
    frames = [];
    frame_capacity = 0;
    active_prefix = none;
  }

  -- The first token is read into `current`, the second into `next`.
  unfoldable pub start_tokens : Parse (Unit {0})
  start_tokens = do
    s ← get
    lex_into_next h s.cursor
    t ← get
    put (record t { current = t.next; next = no_token })
    lex_into_next h t.cursor

  -- frothy_parse_top_level_internal up to the program's root.
  unfoldable pub parse_source : ℕ → Bool → Parse ℕ
  parse_source n require_eof = do
    start_tokens
    enter_frame h false
    root ← parse_root n
    skip_semicolons h n
    s ← get
    require h (not require_eof || at eof_token s)
    pure root

  abbrev pub end_of_tokens : Parser → Option (List ℕ) → List ℕ
  end_of_tokens s (some start) = start
  end_of_tokens s none = bytes_from s.cursor

  abbrev pub program_of : ℕ → Parser → Program
  program_of root s = record {
    literals = s.program.literals;
    nodes = s.program.nodes;
    links = s.program.links;
    root = root;
    root_local_count = frame_locals h (current_frame s.frames);
  }

  -- frothy_parse_top_level_internal behind the root: the program and the bytes consumed.
  abbrev pub finished : List ℕ → Outcome ℕ × Parser → Outcome (Program × ℕ)
  finished source (done root, s) =
      done (program_of root s, length source - length (end_of_tokens s s.current.start))
  finished source (failed e, s) = failed e
  finished source (overread, s) = overread
  finished source (out_of_fuel, s) = out_of_fuel

  -- frothy_parse_top_level_internal, with a fuel.
  unfoldable pub parse_with_fuel : ℕ → Bool → List ℕ → Outcome (Program × ℕ)
  parse_with_fuel n require_eof source =
      finished source (parse_source n require_eof (initial_parser source))

  -- The fuel that is always enough: one more than the tokens there can be.
  abbrev pub fuel_for : List ℕ → ℕ
  fuel_for source = length source + 1

  -- frothy_parse_top_level
  unfoldable pub parse_top_level : List ℕ → Outcome (Program × ℕ)
  parse_top_level source = parse_with_fuel (fuel_for source) true source

  -- frothy_parse_top_level_prefix
  unfoldable pub parse_top_level_prefix : List ℕ → Outcome (Program × ℕ)
  parse_top_level_prefix source = parse_with_fuel (fuel_for source) false source
