-- ===== src/Tests/Parser.antt =====
-- Parses of concrete sources.
use froth.Base.{
  ℕ, ◌≡◌, ◌≢◌, ◌≤◌, ◌<◌, refl, Bool, true, false, ◌&&◌, ◌||◌, some, List, [], ◌∷◌, arith, leb, ◌==◌,
}
use froth.Base.Int.{pos}
use froth.Status.{ok}
use froth.Ir.{Program, int_literal, read_local, lit, call, seq, fn, write_slot}
use froth.Parser.Token.{Token, is_simple_name, lbracket, name_token, no_token, rparen}
use froth.Parser.Lexer.{
  Host, keyword, lex_at, lex_name, lex_next, lex_number, lex_number_loop, lex_punct, lex_text,
  lex_text_loop, skip_name, skip_space, unescape,
}
use froth.Parser.Capacity.{Reserved, capped_capacity, grow, reserve, reserve_bounds}
use froth.Parser.Pools.{
  add_literal, add_node, append_link, append_links, join_prefix_name, make_bool_condition_node,
  make_builtin_call, make_literal_node, make_short_circuit_node, make_single_item_seq_node,
  make_top_level_write_slot_range, node_list_flush, node_list_push,
}
use froth.Parser.Scopes.{
  local_declared, bound_outside, declare_local, declare_local_in, declared_in, local, push_frame,
  push_scope, resolve_in, resolve_name,
}
use froth.Parser.Advance.{
  expect, expect_binding_operator, expect_block_start, expect_set_operator, pass_token, take_name,
}
use froth.Parser.Params.{
  fn_contents, match_top_level_named_fn, name_and_comma, named_fn_ahead, named_fn_loop,
  parameter_list_loop, parse_body, parse_fn_node, parse_parameter, parse_parameter_list,
  parse_params, parse_top_level_named_fn, parse_with_parameter_list, with_list_loop,
}
use froth.Parser.Blocks.{
  block_loop, parse_block, parse_block_contents_until, parse_block_item, parse_expr_before_block,
  parse_here_item, parse_item_of, parse_local_binding_item, parse_place, parse_set_item,
  skip_semicolons, write_place,
}
use froth.Parser.Control.{
  args_loop, case_chain, case_test, clauses_loop, cond_chain, index_items, make_call_of,
  make_counting_loop, make_increment, make_loop_condition, make_repeat, make_seq, make_seq_of,
  parse_call_expr, parse_case, parse_case_clause, parse_case_literal, parse_cells, parse_cond,
  parse_cond_clause, parse_else, parse_else_clause, parse_fn, parse_guarded, parse_if,
  parse_index_name, parse_negative, parse_repeat, parse_unless, parse_when, parse_while, push_all,
  push_clause,
}
use froth.Parser.Expr.{
  and_loop, and_round, binary_loop, binary_round, expr_body, leaves_bracket, or_loop, or_round,
  paren_arg, paren_args_loop, parse_and_expr, parse_binary_expr, parse_colon_call, parse_designator,
  parse_expr, parse_field, parse_index, parse_name, parse_paren_call, parse_parens, parse_postfix,
  parse_prefix, parse_primary, postfix_loop, postfix_round, primary_of, refuse_designator,
}
use froth.Parser.Top.{
  initial_parser, fields_contain, fuel_for, in_contents, in_item_pushed, in_loop, parse_binding,
  parse_bound_value, parse_in, parse_in_item, parse_named_fn, parse_record_field, parse_root,
  parse_source, parse_top_level, parse_top_level_boot_block, parse_top_level_prefix,
  parse_top_level_record, parse_top_level_to, parse_with_fuel, record_loop, start_tokens,
}
use froth.Parser.State.{Parser, Frame, done, overread, out_of_fuel}
use froth.Parser.Runs.{RangeBelow}
use froth.Parser.Runs.Whole.{
  parse_with_fuel-ne-out_of_fuel, parse_with_fuel_bounds, parse_with_fuel-NodeFits,
}
use froth.Ir.Render.{
  render, decimal, decimal_cell, render_quoted, render_literal, render_node_list, render_fields,
  render_node, rendered, ◌⊕◌,
}
use froth.Parser.Runs.Render.{IsRendered, parse-render}
use froth.Parser.Advance.Bracket.{pass_token-leaves_bracket}
use froth.Parser.Scopes.Resolve.{resolve-declare, resolve-declare_ne}

-- <ctype.h> in the C locale.
abbrev is_digit : ℕ → Bool
is_digit b = leb b'0' b && leb b b'9'

abbrev is_alpha : ℕ → Bool
is_alpha b = (leb b'a' b && leb b b'z') || (leb b'A' b && leb b b'Z')

abbrev host : Host
host = record {
  is_alpha = is_alpha;
  is_alnum = λ b. is_alpha b || is_digit b;
  is_digit = is_digit;
  is_space = λ b. b == b' ' || (leb 9 b && leb b 13);
  size_max = 4294967295;
}

-- f(x)=x+1
abbrev successor : List ℕ
successor = b'f' ∷ (b'(' ∷ (b'x' ∷ (b')' ∷ (b'=' ∷ (b'x' ∷ (b'+' ∷ (b'1' ∷ [])))))))

abbrev successor_program : Program
successor_program = record {
  literals = int_literal (pos 1) ∷ [];
  nodes =
      read_local 0
      ∷ (lit 0
          ∷ (call 4 4294967295 0 2
              ∷ (seq 2 1 ∷ (fn 1 1 3 ∷ (write_slot (b'f' ∷ []) 4 false ∷ [])))));
  links = 0 ∷ (1 ∷ (2 ∷ []));
  root = 5;
  root_local_count = 0;
}

successor_parsed :
    parse_with_fuel host (fuel_for host successor) true successor ≡ done (successor_program, 8)
unfolding add_literal add_node and_loop and_round append_link append_links args_loop binary_loop
    binary_round block_loop bound_outside capped_capacity case_chain case_test clauses_loop
    cond_chain declare_local_in declared_in expect expect_binding_operator expect_block_start
    expect_set_operator expr_body fields_contain fn_contents grow in_contents in_item_pushed in_loop
    index_items is_simple_name join_prefix_name keyword leaves_bracket lex_at lex_name lex_next
    lex_number lex_number_loop lex_punct lex_text lex_text_loop make_bool_condition_node
    make_builtin_call make_call_of make_counting_loop make_increment make_literal_node
    make_loop_condition make_repeat make_seq make_seq_of make_short_circuit_node
    make_single_item_seq_node make_top_level_write_slot_range match_top_level_named_fn
    name_and_comma named_fn_ahead named_fn_loop node_list_flush node_list_push or_loop or_round
    parameter_list_loop paren_arg paren_args_loop parse_and_expr parse_binary_expr parse_binding
    parse_block parse_block_contents_until parse_block_item parse_body parse_bound_value
    parse_call_expr parse_case parse_case_clause parse_case_literal parse_cells parse_colon_call
    parse_cond parse_cond_clause parse_designator parse_else parse_else_clause parse_expr
    parse_expr_before_block parse_field parse_fn parse_fn_node parse_guarded parse_here_item
    parse_if parse_in parse_in_item parse_index parse_index_name parse_item_of
    parse_local_binding_item parse_name parse_named_fn parse_negative parse_parameter
    parse_parameter_list parse_params parse_paren_call parse_parens parse_place parse_postfix
    parse_prefix parse_primary parse_record_field parse_repeat parse_root parse_set_item
    parse_source parse_top_level parse_top_level_boot_block parse_top_level_named_fn
    parse_top_level_prefix parse_top_level_record parse_top_level_to parse_unless parse_when
    parse_while parse_with_fuel parse_with_parameter_list pass_token postfix_loop postfix_round
    primary_of push_all push_clause push_frame push_scope record_loop refuse_designator reserve
    resolve_in skip_name skip_semicolons skip_space start_tokens take_name unescape with_list_loop
    write_place
successor_parsed = refl

-- A text that ends in a backslash, inside a parameter list that has no closing parenthesis: fn({"\
abbrev unclosed : List ℕ
unclosed = b'f' ∷ (b'n' ∷ (b'(' ∷ (b'{' ∷ (b'"' ∷ (b'\\' ∷ [])))))

-- The source is read behind its closing 0.
unclosed_overread : parse_top_level host unclosed ≡ overread
unfolding add_literal add_node and_loop and_round append_link append_links args_loop binary_loop
    binary_round block_loop bound_outside capped_capacity case_chain case_test clauses_loop
    cond_chain declare_local_in declared_in expect expect_binding_operator expect_block_start
    expect_set_operator expr_body fields_contain fn_contents grow in_contents in_item_pushed in_loop
    index_items is_simple_name join_prefix_name keyword leaves_bracket lex_at lex_name lex_next
    lex_number lex_number_loop lex_punct lex_text lex_text_loop make_bool_condition_node
    make_builtin_call make_call_of make_counting_loop make_increment make_literal_node
    make_loop_condition make_repeat make_seq make_seq_of make_short_circuit_node
    make_single_item_seq_node make_top_level_write_slot_range match_top_level_named_fn
    name_and_comma named_fn_ahead named_fn_loop node_list_flush node_list_push or_loop or_round
    parameter_list_loop paren_arg paren_args_loop parse_and_expr parse_binary_expr parse_binding
    parse_block parse_block_contents_until parse_block_item parse_body parse_bound_value
    parse_call_expr parse_case parse_case_clause parse_case_literal parse_cells parse_colon_call
    parse_cond parse_cond_clause parse_designator parse_else parse_else_clause parse_expr
    parse_expr_before_block parse_field parse_fn parse_fn_node parse_guarded parse_here_item
    parse_if parse_in parse_in_item parse_index parse_index_name parse_item_of
    parse_local_binding_item parse_name parse_named_fn parse_negative parse_parameter
    parse_parameter_list parse_params parse_paren_call parse_parens parse_place parse_postfix
    parse_prefix parse_primary parse_record_field parse_repeat parse_root parse_set_item
    parse_source parse_top_level parse_top_level_boot_block parse_top_level_named_fn
    parse_top_level_prefix parse_top_level_record parse_top_level_to parse_unless parse_when
    parse_while parse_with_fuel parse_with_parameter_list pass_token postfix_loop postfix_round
    primary_of push_all push_clause push_frame push_scope record_loop refuse_designator reserve
    resolve_in skip_name skip_semicolons skip_space start_tokens take_name unescape with_list_loop
    write_place
unclosed_overread = refl

parse_with_fuel-ne-out_of_fuel_example :
    parse_with_fuel host (fuel_for host successor) true successor ≢ out_of_fuel
parse_with_fuel-ne-out_of_fuel_example =
    parse_with_fuel-ne-out_of_fuel host successor true (omega arith)

parse_with_fuel_bounds_example : (5 < 6) × (1 ≤ 128) × (6 ≤ 512) × (3 ≤ 512)
parse_with_fuel_bounds_example =
    parse_with_fuel_bounds host successor true successor_program 8 (omega arith) successor_parsed

parse_with_fuel-NodeFits_example : RangeBelow (0 ∷ (1 ∷ (2 ∷ []))) 2 1 3
parse_with_fuel-NodeFits_example =
    parse_with_fuel-NodeFits host successor true successor_program 8 3 (seq 2 1) (omega arith)
      successor_parsed refl

parse-render_example : IsRendered (render 4294967295 6 successor_program)
parse-render_example =
    parse-render host successor true successor_program 8 (omega arith) successor_parsed refl

-- (write-slot "f" (fn arity=1 locals=1 (seq (call (builtin "+") (read-local 0) (lit 1)))))
successor_printed :
    render 4294967295 6 successor_program
    ≡ rendered (
        40 ∷ 119 ∷ 114 ∷ 105 ∷ 116 ∷ 101 ∷ 45 ∷ 115 ∷ 108 ∷ 111 ∷ 116 ∷ 32 ∷ 34 ∷ 102 ∷ 34 ∷ 32 ∷ 40
        ∷ 102 ∷ 110 ∷ 32 ∷ 97 ∷ 114 ∷ 105 ∷ 116 ∷ 121 ∷ 61 ∷ 49 ∷ 32 ∷ 108 ∷ 111 ∷ 99 ∷ 97 ∷ 108
        ∷ 115 ∷ 61 ∷ 49 ∷ 32 ∷ 40 ∷ 115 ∷ 101 ∷ 113 ∷ 32 ∷ 40 ∷ 99 ∷ 97 ∷ 108 ∷ 108 ∷ 32 ∷ 40 ∷ 98
        ∷ 117 ∷ 105 ∷ 108 ∷ 116 ∷ 105 ∷ 110 ∷ 32 ∷ 34 ∷ 43 ∷ 34 ∷ 41 ∷ 32 ∷ 40 ∷ 114 ∷ 101 ∷ 97
        ∷ 100 ∷ 45 ∷ 108 ∷ 111 ∷ 99 ∷ 97 ∷ 108 ∷ 32 ∷ 48 ∷ 41 ∷ 32 ∷ 40 ∷ 108 ∷ 105 ∷ 116 ∷ 32 ∷ 49
        ∷ 41 ∷ 41 ∷ 41 ∷ 41 ∷ 41 ∷ [])
unfolding ◌⊕◌ render decimal decimal_cell render_quoted render_literal render_node_list
    render_fields render_node
successor_printed = refl

reserve_bounds_example : Reserved 8 20 128 8 (reserve 4294967295 8 128 8 20)
reserve_bounds_example =
    reserve_bounds 4294967295 8 128 8 20 (omega arith) (omega arith) (omega arith)

abbrev frame : Frame
frame = record { scope_base = 0; next_local_index = 0; reject_outer_capture = true }

-- A parser in a frame with one scope.
abbrev in_scope : Parser
in_scope = record (initial_parser host []) { scopes = 0 ∷ []; frames = frame ∷ [] }

-- The token of a name of one byte.
abbrev name_of : ℕ → Token
name_of b = record no_token { kind = name_token; start = some (b ∷ []); length = 1 }

abbrev with_x : Parser
with_x = local_declared in_scope (b'x' ∷ []) frame 8

x_declared : declare_local 4294967295 (name_of b'x') in_scope ≡ ok (0, with_x)
unfolding declare_local_in declared_in reserve capped_capacity grow
x_declared = refl

resolve-declare_example : resolve_name (name_of b'x') with_x ≡ ok (local 0)
resolve-declare_example =
    resolve-declare 4294967295 (name_of b'x') in_scope with_x frame 0 refl (omega arith) x_declared

resolve-declare_ne_example :
    resolve_name (name_of b'y') with_x ≡ resolve_name (name_of b'y') in_scope
resolve-declare_ne_example =
    resolve-declare_ne 4294967295 (name_of b'x') in_scope with_x frame 0 (name_of b'y') refl
      (omega arith) x_declared refl

-- In front of `)[`, where a block is preferred.
abbrev at_paren : Parser
at_paren = record (initial_parser host []) {
  cursor = some [];
  prefer_block_on_spaced_bracket = true;
  current = record no_token { kind = rparen; start = some (b')' ∷ (b'[' ∷ [])) };
  next = record no_token { kind = lbracket; start = some (b'[' ∷ []) };
}

abbrev at_bracket : Parser
at_bracket = record at_paren {
  prev_token_end = some (b')' ∷ (b'[' ∷ []));
  current = at_paren.next;
  next = record no_token { start = some [] };
}

bracket_passed : pass_token host at_paren ≡ (done tt, at_bracket)
unfolding pass_token lex_next lex_at skip_space
bracket_passed = refl

pass_token-leaves_bracket_example : leaves_bracket at_bracket ≡ true
unfolding lex_next lex_at lex_punct skip_space
pass_token-leaves_bracket_example =
    pass_token-leaves_bracket host at_paren at_bracket at_paren.current at_paren.next
      (b')' ∷ (b'[' ∷ [])) (b'[' ∷ []) [] refl refl refl refl refl bracket_passed
