-- ===== src/Parser/Runs/Expr.antt =====
-- The expressions (src/frothy_parser.c) end within their fuel and keep the program well formed. In
-- each lemma `c` is a bound on what is left.
use froth.Base.{
  ℕ, zero, suc, ◌≤◌, ◌<◌, ◌≡◌, refl, Bool, true, false, not, ◌||◌, Option, none, some, List, [],
  ◌∷◌, arith, length, get_elem?,
}
use froth.Status.{Result, ok, err}
use froth.Parser.Token.{
  TokenKind, name_token, int_token, text_token, lparen, rparen, rbracket, comma, colon, at_sign,
  minus, arrow, kw_fn, kw_if, kw_while, kw_repeat, kw_cond, kw_case, kw_when, kw_unless, kw_true,
  kw_false, kw_nil, kw_not, kw_call, kw_cells, kw_record, Token, token_text, has_dot,
  is_simple_name, can_start_expr, is_binary_operator, binary_builtin, builtin_not, builtin_negate,
  kind_code,
}
use froth.Parser.Lexer.{Host}
use froth.Parser.Scopes.{Resolved, local, slot, resolve_name}
use froth.Parser.State.{Parser, Parse, chain_runs, of_result}
use froth.Parser.Advance.{at}
use froth.Parser.Pools.{NodeList, no_nodes}
use froth.Parser.Expr.{
  leaves_bracket, is_designator, starts_postfix, read_slot_under, read_resolved, parse_name,
  parse_designator, parse_field, refuse_designator, parse_parens, primary_of, parse_primary,
  paren_arg, paren_args_loop, parse_paren_call, colon_args, parse_colon_call, parse_index,
  postfix_round, postfix_loop, parse_postfix, parse_prefix,
}
use froth.Parser.Runs.{
  weight, cost, Step-refl, Runs, returns, fails, Runs-bind, Runs-if, Made, Left,
}
use froth.Parser.Runs.Tokens.{Runs-require, expect-Runs, take_name-Runs}
use froth.Parser.Runs.Nodes.{add_node-Runs}
use froth.Parser.Runs.Make.{AllBelow-mono, Listed, node_list_push-Runs, make_builtin_call-Runs}
use froth.Parser.Runs.Params.{Parses, Begins, pass_token-Left}
use froth.Parser.Runs.Blocks.{pass_token-Passed}
use froth.Parser.Runs.Control.{and_advance-Runs, parse_cells-Runs}
use froth.Parser.Runs.Forms.{
  parse_fn-Runs, parse_if-Runs, parse_while-Runs, parse_when-Runs, parse_unless-Runs,
  parse_cond-Runs, parse_case-Runs, parse_repeat-Runs, args_loop-Runs, make_call_of-Runs,
  parse_call_expr-Runs,
}

pub binary_builtin-pos :
    (k : TokenKind) → is_binary_operator k ≡ true → (0 < binary_builtin k) × (0 < kind_code k)
binary_builtin-pos k e = ground arith

module _ (h : Host) (room : 1024 ≤ h.size_max) where
  of_result-Runs :
      (r : Result Resolved) (s : Parser) (c : ℕ) → cost s < c → Runs s (Left c) (of_result r s)
  of_result-Runs (ok a) s c l = returns (Step-refl s) l
  of_result-Runs (err x) s c l = fails (Step-refl s)

  read_slot_under-Runs :
      (prefix : Option (List ℕ)) (t : Token) (name : List ℕ) (s : Parser) (c : ℕ)
      → cost s < c
      → Runs s (Made c) (read_slot_under h prefix t name s)
  read_slot_under-Runs none t name s c l = add_node-Runs h.size_max room s _ c l tt
  read_slot_under-Runs (some prefix) t name s c l =
      Runs-if s _ (not (has_dot (token_text t))) _ _ (λ _. add_node-Runs h.size_max room s _ c l tt)
        (λ _. add_node-Runs h.size_max room s _ c l tt)

  read_resolved-Runs :
      (t : Token) (r : Resolved) (s : Parser) (c : ℕ)
      → cost s < c
      → Runs s (Made c) (read_resolved h t r s)
  read_resolved-Runs t (local i) s c l = add_node-Runs h.size_max room s _ c l tt
  read_resolved-Runs t (slot name) s c l = read_slot_under-Runs s.active_prefix t name s c l

  parse_name-Runs : (s : Parser) (c : ℕ) → cost s ≤ c → Runs s (Made c) (parse_name h s)
  unfolding parse_name
  parse_name-Runs s c l = Runs-bind (take_name-Runs h s) λ t u st p.
      Runs-bind (of_result-Runs (resolve_name t u) u c (omega arith))
        λ r v sv q. read_resolved-Runs t r v c q

  parse_designator-Runs :
      (s : Parser) (c : ℕ)
      → weight s.current ≡ 1
      → cost s ≤ c
      → Runs s (Made c) (parse_designator h s)
  unfolding parse_designator
  parse_designator-Runs s c full l = Runs-bind (pass_token-Passed h room s full) λ _ t st p.
      Runs-require h t _ (at name_token t) _ λ is.
        Runs-bind (pass_token-Left h t c (omega arith))
          λ _ u su q. add_node-Runs h.size_max room u _ c q tt

  parse_field-Runs :
      (base : ℕ) (s : Parser) (c : ℕ)
      → weight s.current ≡ 1
      → cost s ≤ c
      → base < length s.program.nodes
      → Runs s (Made c) (parse_field h base s)
  unfolding parse_field
  parse_field-Runs base s c full l b = Runs-bind (pass_token-Passed h room s full) λ _ t st p.
      Runs-require h t _ (is_simple_name t.current) _ λ is.
        Runs-bind (pass_token-Left h t c (omega arith)) λ _ u su q.
          add_node-Runs h.size_max room u _ c q (omega (arith, st.nodes_le, su.nodes_le))

  refuse-Runs :
      {A : Type 0} (id : ℕ) (s : Parser) (Q : A → Parser → Type 0) (f : Unit {0} → Parse A)
      → Runs s Q (f tt s)
      → Runs s Q (chain_runs (refuse_designator h id s) f)
  unfolding refuse_designator
  refuse-Runs id s Q f r =
      Runs-require h s Q (not (is_designator (get_elem? s.program.nodes id))) f (λ _. r)

module _ (h : Host) (room : 1024 ≤ h.size_max) (e n : ℕ) (fuel : e < n)
    (parse_expr : Bool → Parse ℕ) (E : (top : Bool) → Parses e (parse_expr top)) where
  parse_parens-Runs :
      (s : Parser) (c : ℕ)
      → weight s.current ≡ 1
      → cost s ≤ e
      → cost s ≤ c
      → Runs s (Made c) (parse_parens h parse_expr n s)
  unfolding parse_parens
  parse_parens-Runs s c full f l = Runs-bind (pass_token-Passed h room s full) λ _ t st p.
      Runs-bind (E false t c (omega arith) (omega arith)) λ id u su q.
        Runs-bind (expect-Runs h u rparen (omega arith))
          λ _ v sv r. returns (Step-refl v) (omega (arith, q.0, sv.nodes_le), omega (arith, q.1, r))

  primary_of-Runs :
      (top : Bool) (k : TokenKind) (s : Parser) (c : ℕ)
      → s.current.kind ≡ k
      → cost s ≤ e
      → cost s ≤ c
      → Runs s (Made c) (primary_of h parse_expr n top k s)
  unfolding primary_of
  primary_of-Runs top int_token s c k f l = and_advance-Runs h room s _ c (ground arith) l
  primary_of-Runs top text_token s c k f l = and_advance-Runs h room s _ c (ground arith) l
  primary_of-Runs top kw_true s c k f l = and_advance-Runs h room s _ c (ground arith) l
  primary_of-Runs top kw_false s c k f l = and_advance-Runs h room s _ c (ground arith) l
  primary_of-Runs top kw_nil s c k f l = and_advance-Runs h room s _ c (ground arith) l
  primary_of-Runs top name_token s c k f l = parse_name-Runs h room s c l
  primary_of-Runs top at_sign s c k f l = parse_designator-Runs h room s c (ground arith) l
  primary_of-Runs top lparen s c k f l = parse_parens-Runs s c (ground arith) f l
  primary_of-Runs top kw_fn s c k f l = parse_fn-Runs h room e n (omega arith) parse_expr E s c f l
  primary_of-Runs top kw_if s c k f l = parse_if-Runs h room e n (omega arith) parse_expr E s c f l
  primary_of-Runs top kw_while s c k f l =
      parse_while-Runs h room e n (omega arith) parse_expr E s c f l
  primary_of-Runs top kw_cond s c k f l =
      parse_cond-Runs h room e n (omega arith) parse_expr E s c f l
  primary_of-Runs top kw_case s c k f l =
      parse_case-Runs h room e n (omega arith) parse_expr E s c f l
  primary_of-Runs top kw_when s c k f l =
      parse_when-Runs h room e n (omega arith) parse_expr E s c f l
  primary_of-Runs top kw_unless s c k f l =
      parse_unless-Runs h room e n (omega arith) parse_expr E s c f l
  primary_of-Runs top kw_repeat s c k f l =
      parse_repeat-Runs h room e n (omega arith) parse_expr E s c f l
  primary_of-Runs top kw_call s c k f l =
      parse_call_expr-Runs h room e n (omega arith) parse_expr E s c f l
  primary_of-Runs top kw_cells s c k f l = parse_cells-Runs h room top s c l
  primary_of-Runs top kw_record s c k f l = fails (Step-refl s)
  primary_of-Runs top _ s c k f l = fails (Step-refl s)

  parse_primary-Runs : (top : Bool) → Begins e (parse_primary h parse_expr n top)
  unfolding parse_primary
  parse_primary-Runs top s c f l = primary_of-Runs top s.current.kind s c refl f l

  -- A flag, and a list of nodes that exist.
  abbrev FlagListed : ℕ → Bool × NodeList → Parser → Type 0
  FlagListed c (b, l) t = Listed c l t

  paren_arg-Runs :
      (args : NodeList) (s : Parser)
      → cost s < e
      → Listed (suc (cost s)) args s
      → Runs s (FlagListed (cost s)) (paren_arg h parse_expr n args s)
  unfolding paren_arg
  paren_arg-Runs args s f a = Runs-bind (E false s (cost s) f (omega arith)) λ id t st p.
      Runs-bind
        (node_list_push-Runs h.size_max room args id t (cost s) p.1
          (AllBelow-mono _ _ args.items st.nodes_le a.0) p.0)
        λ r u su q.
          Runs-if u _ (at comma u) _ _
            (λ _. Runs-bind (pass_token-Left h u (cost s) q.0.1) λ _ v sv x.
              returns {a = (true, r)} (Step-refl v)
                (AllBelow-mono _ _ r.items sv.nodes_le q.0.0, x))
            (λ _. returns {a = (false, r)} (Step-refl u) (q.0.0, q.0.1))

  paren_args_loop-Runs :
      (k : ℕ) (args : NodeList) (s : Parser) (c : ℕ)
      → cost s < k
      → cost s < e
      → Listed c args s
      → Runs s (λ r t. Listed c r t) (paren_args_loop h parse_expr n k args s)
  unfolding paren_args_loop
  paren_args_loop-Runs zero args s c b f a = elim b [ ]
  paren_args_loop-Runs (suc k) args s c b f a =
      Runs-if s _ (at rparen s) _ _ (λ _. returns (Step-refl s) a)
        λ _. Runs-bind (paren_arg-Runs args s f (a.0, omega arith)) λ (more, r) t st p.
          Runs-if t _ more _ _
            (λ _.
              paren_args_loop-Runs k r t c (omega (arith, p.1)) (omega (arith, p.1))
                (p.0, omega (arith, p.1, a.1)))
            (λ _. returns (Step-refl t) (p.0, omega (arith, p.1, a.1)))

  -- A round of the loop over calls, fields and indices.
  abbrev pub Round : (ℕ → Parse ℕ) → Type 0
  Round m =
      (id : ℕ) (s : Parser)
      → weight s.current ≡ 1
      → cost s ≤ e
      → id < length s.program.nodes
      → Runs s (Made (cost s)) (m id s)

  parse_paren_call-Runs : Round (parse_paren_call h parse_expr n)
  unfolding parse_paren_call
  parse_paren_call-Runs id s full f b = refuse-Runs h room id s _ _ (
      Runs-bind (pass_token-Passed h room s full) λ _ t st p.
        Runs-bind
          (paren_args_loop-Runs n no_nodes t (cost s) (omega arith) (omega arith) (tt, omega arith))
          λ args u su q. Runs-bind (expect-Runs h u rparen (omega arith)) λ _ v sv r.
            make_call_of-Runs h room e n (omega arith) parse_expr E id args v (cost s)
              (omega (arith, q.1)) (omega (arith, st.nodes_le, su.nodes_le, sv.nodes_le))
              (AllBelow-mono _ _ args.items sv.nodes_le q.0))

  colon_args-Runs :
      (s : Parser) (c : ℕ)
      → cost s < e
      → cost s < c
      → Runs s (λ r t. Listed c r t) (colon_args h parse_expr n s)
  colon_args-Runs s c f l =
      Runs-if s _ (can_start_expr s.current.kind) _ _
        (λ _.
          args_loop-Runs h room e n (omega arith) parse_expr E n no_nodes s c (omega arith) f l tt)
        (λ _. returns (Step-refl s) (tt, l))

  parse_colon_call-Runs : Round (parse_colon_call h parse_expr n)
  unfolding parse_colon_call
  parse_colon_call-Runs id s full f b = refuse-Runs h room id s _ _ (
      Runs-bind (pass_token-Passed h room s full) λ _ t st p.
        Runs-bind (colon_args-Runs t (cost s) (omega arith) p) λ args u su q.
          make_call_of-Runs h room e n (omega arith) parse_expr E id args u (cost s) q.1
            (omega (arith, st.nodes_le, su.nodes_le)) q.0)

  parse_index-Runs : Round (parse_index h parse_expr n)
  unfolding parse_index
  parse_index-Runs id s full f b = refuse-Runs h room id s _ _ (
      Runs-bind (pass_token-Passed h room s full) λ _ t st p.
        Runs-bind (E false t (cost s) (omega arith) (omega arith)) λ index u su q.
          Runs-bind (expect-Runs h u rbracket (omega arith)) λ _ v sv r.
            add_node-Runs h.size_max room v _ (cost s) (omega (arith, q.1)) (
              omega (arith, st.nodes_le, su.nodes_le, sv.nodes_le),
              omega (arith, q.0, sv.nodes_le),
            ))

  postfix_round-Runs : Round (postfix_round h parse_expr n)
  unfolding postfix_round
  postfix_round-Runs id s full f b =
      Runs-if s _ (at lparen s) _ _ (λ _. parse_paren_call-Runs id s full f b)
        λ _.
          Runs-if s _ (at colon s) _ _ (λ _. parse_colon_call-Runs id s full f b)
            λ _.
              Runs-if s _ (at arrow s) _ _
                (λ _. parse_field-Runs h room id s (cost s) full (omega arith) b)
                (λ _. parse_index-Runs id s full f b)

  starts_postfix-weight :
      (s : Parser) → (not (starts_postfix s) || leaves_bracket s) ≡ false → weight s.current ≡ 1
  starts_postfix-weight s x = ground arith

  postfix_loop-Runs :
      (k id : ℕ) (s : Parser) (c : ℕ)
      → cost s < k
      → cost s ≤ e
      → Made c id s
      → Runs s (Made c) (postfix_loop h parse_expr n k id s)
  unfolding postfix_loop
  postfix_loop-Runs zero id s c b f m = elim b [ ]
  postfix_loop-Runs (suc k) id s c b f m =
      Runs-if s _ (not (starts_postfix s) || leaves_bracket s) _ _ (λ _. returns (Step-refl s) m)
        λ x. Runs-bind (postfix_round-Runs id s (starts_postfix-weight s x) f m.0) λ r t st p.
          postfix_loop-Runs k r t c (omega (arith, p.1)) (omega (arith, p.1))
            (p.0, omega (arith, p.1, m.1))

  parse_postfix-Runs : (top : Bool) → Begins e (parse_postfix h parse_expr n top)
  unfolding parse_postfix
  parse_postfix-Runs top s c f l = Runs-bind (parse_primary-Runs top s c f l) λ id t st p.
      postfix_loop-Runs n id t c (omega (arith, st.cost_le)) (omega (arith, st.cost_le)) p

  pub parse_prefix-Runs :
      (k : ℕ) (top : Bool) (s : Parser) (c : ℕ)
      → cost s < k
      → cost s ≤ e
      → cost s ≤ c
      → Runs s (Made c) (parse_prefix h parse_expr n k top s)
  unfolding parse_prefix
  parse_prefix-Runs zero top s c b f l = elim b [ ]
  parse_prefix-Runs (suc k) top s c b f l =
      Runs-if s _ (at minus s) _ _
        (λ is.
          Runs-bind
            (Runs-bind (pass_token-Passed h room s (ground arith))
              λ _ t st p. parse_prefix-Runs k false t c (omega arith) (omega arith) (omega arith))
            λ id u su q.
              make_builtin_call-Runs h.size_max room builtin_negate (id ∷ []) u c (omega arith) q.1
                (q.0, tt))
        λ _.
          Runs-if s _ (at kw_not s) _ _
            (λ is.
              Runs-bind
                (Runs-bind (pass_token-Passed h room s (ground arith)) λ _ t st p.
                  parse_prefix-Runs k false t c (omega arith) (omega arith) (omega arith))
                λ id u su q.
                  make_builtin_call-Runs h.size_max room builtin_not (id ∷ []) u c (omega arith) q.1
                    (q.0, tt))
            (λ _. parse_postfix-Runs top s c f l)
