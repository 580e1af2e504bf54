-- ===== src/Parser/Params.antt =====
-- Parameter lists and functions (src/frothy_parser.c). The loops take a fuel, a bound on the tokens
-- that are left.
use froth.Base.{ℕ, zero, suc, ◌+◌, Bool, true, false, ◌&&◌, Option, none, some, if◌then◌else◌}
use froth.Parser.Token.{Token, lparen, rparen, comma, equal, lbrace, name_token, kw_with, same_kind}
use froth.Parser.Lexer.{Host}
use froth.Parser.Scopes.{pop_scope, pop_frame, current_frame}
use froth.Parser.State.{
  Frame, Parser, Outcome, done, failed, overread, out_of_fuel, Parse, ◌>>=◌, ◌>>◌, pure, get,
  finally,
}
use froth.Parser.Advance.{
  at, pass_token, require, expect, take_name, enter_scope, enter_frame, declare,
}
use froth.Parser.Pools.{make_single_item_seq_node, make_fn_node, make_top_level_write_slot_token}

-- frothy_fn_params_kind_t
pub data ParamsKind : Type 0 where
  params_none params_list params_with : ParamsKind

-- frothy_fn_body_kind_t
pub data BodyKind : Type 0 where
  body_block body_expr : BodyKind

-- frothy_top_level_named_fn_kind_t
pub data NamedFnKind : Type 0 where
  named_fn_none named_fn_expr named_fn_block : NamedFnKind

abbrev pub stuck : {A : Type 0} → Parse A
stuck s = (out_of_fuel, s)

-- Runs a parse on a copy of the parser that is thrown away.
abbrev pub look : {A B : Type 0} → Outcome A × Parser → (Outcome A → Parser → Outcome B) → Parse B
look (o, t) f s = (f o t, s)

module _ (h : Host) where
  -- One round of the loops over names: a name is declared. Tells whether a comma follows, which is
  -- then passed.
  unfoldable pub parse_parameter : Parse Bool
  parse_parameter = do
    t ← take_name h
    declare h t
    s ← get
    if at comma s then pass_token h >> pure true else pure false

  -- The loop of frothy_parse_parameter_list, with the arity so far.
  unfoldable pub parameter_list_loop : ℕ → ℕ → Parse ℕ
  parameter_list_loop zero arity = stuck
  parameter_list_loop (suc n) arity = do
    s ← get
    if at rparen s
        then pure arity
        else (parse_parameter >>= λ more.
            if more then parameter_list_loop n (arity + 1) else pure (arity + 1))

  -- frothy_parse_parameter_list
  unfoldable pub parse_parameter_list : ℕ → Parse ℕ
  parse_parameter_list n = do
    expect h lparen
    arity ← parameter_list_loop n 0
    expect h rparen
    pure arity

  -- The loop of frothy_parse_with_parameter_list
  unfoldable pub with_list_loop : ℕ → ℕ → Parse ℕ
  with_list_loop zero arity = stuck
  with_list_loop (suc n) arity = do
    more ← parse_parameter
    if more then with_list_loop n (arity + 1) else pure (arity + 1)

  -- frothy_parse_with_parameter_list
  unfoldable pub parse_with_parameter_list : ℕ → Parse ℕ
  parse_with_parameter_list n = do expect h kw_with; with_list_loop n 0

  -- The status of frothy_parse_parameter_list is not looked at: after an error the arity is still 0.
  abbrev pub arity_or_zero : Outcome ℕ × Parser → Outcome ℕ × Parser
  arity_or_zero (done arity, s) = (done arity, s)
  arity_or_zero (failed e, s) = (done 0, s)
  arity_or_zero (overread, s) = (overread, s)
  arity_or_zero (out_of_fuel, s) = (out_of_fuel, s)

  -- The parameters in frothy_parse_fn_node
  unfoldable pub parse_params : ℕ → ParamsKind → Parse ℕ
  parse_params n params_none = pure 0
  parse_params n params_list = λ s. arity_or_zero (parse_parameter_list n s)
  parse_params n params_with = parse_with_parameter_list n

  abbrev pub frame_locals : Option Frame → ℕ
  frame_locals none = 0
  frame_locals (some f) = f.next_local_index

  module _ (parse_expr : Bool → Parse ℕ) (parse_block : Parse ℕ) where
    -- The body in frothy_parse_fn_node
    unfoldable pub parse_body : BodyKind → Parse ℕ
    parse_body body_block = parse_block
    parse_body body_expr = do
      expect h equal
      body ← parse_expr false
      make_single_item_seq_node h.size_max body

    -- frothy_parse_fn_node between the pushes and `cleanup`: the arity, the count of locals and
    -- the body.
    unfoldable pub fn_contents : ℕ → ParamsKind → BodyKind → Parse (ℕ × ℕ × ℕ)
    fn_contents n params kind = do
      arity ← parse_params n params
      body ← parse_body kind
      s ← get
      pure (arity, frame_locals (current_frame s.frames), body)

    abbrev pub make_fn : ℕ × ℕ × ℕ → Parse ℕ
    make_fn (arity, local_count, body) = make_fn_node h.size_max arity local_count body

    -- frothy_parse_fn_node
    unfoldable pub parse_fn_node : ℕ → ParamsKind → BodyKind → Parse ℕ
    parse_fn_node n params kind = do
      enter_frame h true
      r ← finally (enter_scope h >> finally (fn_contents n params kind) pop_scope) pop_frame
      make_fn r

    -- frothy_parse_top_level_named_fn
    unfoldable pub parse_top_level_named_fn : ℕ → Token → BodyKind → Parse ℕ
    parse_top_level_named_fn n t kind = do
      f ← parse_fn_node n params_list kind
      make_top_level_write_slot_token h.size_max t f

  -- One round of the loop of frothy_match_top_level_named_fn: a name, and whether a comma followed.
  unfoldable pub name_and_comma : Parse Bool
  name_and_comma = do
    s ← get
    require h (at name_token s)
    pass_token h
    t ← get
    if at comma t then pass_token h >> pure true else pure false

  -- The loop of frothy_match_top_level_named_fn
  unfoldable pub named_fn_loop : ℕ → Parse (Unit {0})
  named_fn_loop zero = stuck
  named_fn_loop (suc n) = do
    s ← get
    if at rparen s
        then pure tt
        else (name_and_comma >>= λ more. if more then named_fn_loop n else pure tt)

  -- frothy_match_top_level_named_fn in front of its last test.
  unfoldable pub named_fn_ahead : ℕ → Parse (Unit {0})
  named_fn_ahead n = do
    s ← get
    require h (at name_token s && same_kind s.next.kind lparen)
    pass_token h
    expect h lparen
    named_fn_loop n
    expect h rparen

  abbrev pub named_fn_kind : Outcome (Unit {0}) → Parser → Outcome NamedFnKind
  named_fn_kind (done u) t =
      done (
        if at equal t then named_fn_expr else if at lbrace t then named_fn_block else named_fn_none)
  named_fn_kind (failed e) t = done named_fn_none
  named_fn_kind overread t = overread
  named_fn_kind out_of_fuel t = out_of_fuel

  -- frothy_match_top_level_named_fn
  unfoldable pub match_top_level_named_fn : ℕ → Parse NamedFnKind
  match_top_level_named_fn n s = look (named_fn_ahead n s) named_fn_kind s
