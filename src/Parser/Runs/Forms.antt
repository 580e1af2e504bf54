-- ===== src/Parser/Runs/Forms.antt =====
-- The control forms (src/frothy_parser.c) end within their fuel and keep the program well formed. In
-- each lemma `c` is a bound on what is left.
use froth.Base.{
  ℕ, zero, suc, ◌≤◌, ◌<◌, Bool, false, not, Option, none, some, [], ◌∷◌, arith, length, ◌==◌,
}
use froth.Parser.Token.{
  TokenKind, eof_token, semicolon, comma, lparen, kw_fn, kw_if, kw_else, kw_while, kw_when,
  kw_unless, kw_cond, kw_case, kw_repeat, kw_with, kw_call, is_block_start, can_start_expr,
  builtin_not,
}
use froth.Parser.Lexer.{Host}
use froth.Parser.Scopes.{pop_scope}
use froth.Parser.State.{Parser, Parse}
use froth.Parser.Advance.{at}
use froth.Parser.Pools.{NodeList, no_nodes}
use froth.Parser.Params.{
  ParamsKind, params_none, params_list, params_with, body_block, parse_fn_node,
}
use froth.Parser.Blocks.{parse_block}
use froth.Parser.Control.{
  Clauses, no_clauses, parse_fn, parse_else, parse_guarded, else_of, parse_if, while_of,
  parse_while, when_of, parse_when, parse_unless, parse_else_clause, push_clause, parse_cond_clause,
  parse_case_clause, clauses_loop, parse_cond, parse_case, parse_repeat, args_loop, make_call_of,
  parse_call_expr, clauses_reversed,
}
use froth.Parser.Runs.{cost, Step-refl, Runs, returns, fails, Runs-bind, Runs-settle, Runs-if, Made}
use froth.Parser.Runs.Tokens.{Runs-require, expect-Runs, expect_block_start-Runs}
use froth.Parser.Runs.Nodes.{add_node-Runs}
use froth.Parser.Runs.Make.{
  AllBelow, AllBelow-mono, Listed, node_list_push-Runs, node_list_flush-Runs,
  make_builtin_call-Runs,
}
use froth.Parser.Runs.Params.{
  Parses, Begins, Made-pop, pop_scope-Step, enter_scope-Runs, hidden_local-Runs, pass_token-Left,
  parse_fn_node-Runs,
}
use froth.Parser.Runs.Blocks.{
  pass_token-Passed, skip_semicolons-Runs, parse_expr_before_block-Runs, parse_block-Runs,
  parse_block_contents_until-Runs,
}
use froth.Parser.Runs.Control.{
  ClausesFit, ElseFits, clauses_reversed-PairsBelow, parse_case_literal-Runs, last_branch-Runs,
  cond_chain-Runs, case_chain-Runs, make_seq-Runs, make_repeat-Runs, parse_index_name-Runs,
  declare_index-Runs,
}

ElseFits-mono : (k m : ℕ) (o : Option ℕ) → k ≤ m → ElseFits k o → ElseFits m o
ElseFits-mono k m none l f = tt
ElseFits-mono k m (some id) l f = omega arith

pub ClausesFit-mono : (k m : ℕ) (c : Clauses) → k ≤ m → ClausesFit k c → ClausesFit m c
ClausesFit-mono k m c l (a, b, f) = (
  AllBelow-mono k m c.heads.items l a,
  AllBelow-mono k m c.bodies.items l b,
  ElseFits-mono k m c.else_body l f,
)

module _ (h : Host) (room : 1024 ≤ h.size_max) (e n : ℕ) (fuel : e ≤ n)
    (parse_expr : Bool → Parse ℕ) (E : (top : Bool) → Parses e (parse_expr top)) where
  -- Two nodes that were made.
  abbrev MadePair : ℕ → ℕ × ℕ → Parser → Type 0
  MadePair c (a, b) t = (a < length t.program.nodes) × (b < length t.program.nodes) × (cost t < c)

  block : Begins e (parse_block h parse_expr n)
  block = parse_block-Runs h room e n fuel parse_expr E

  fn_node :
      (params : ParamsKind) (s : Parser) (c : ℕ)
      → cost s < e
      → cost s < c
      → Runs s
          (Made c)
          (parse_fn_node h parse_expr (parse_block h parse_expr n) n params body_block s)
  fn_node params s c f l =
      parse_fn_node-Runs h room e n fuel parse_expr E (parse_block h parse_expr n) block params
        body_block s c f l

  pub parse_fn-Runs : Begins e (parse_fn h parse_expr n)
  unfolding parse_fn
  parse_fn-Runs s c f l = Runs-bind (expect-Runs h s kw_fn (omega arith)) λ _ t st p.
      Runs-if t _ (at lparen t) _ _ (λ _. fn_node params_list t c (omega arith) (omega arith))
        λ _.
          Runs-if t _ (at kw_with t) _ _ (λ _. fn_node params_with t c (omega arith) (omega arith))
            λ _.
              Runs-if t _ (is_block_start t.current.kind) _ _
                (λ _. fn_node params_none t c (omega arith) (omega arith))
                (λ _. fails (Step-refl t))

  parse_guarded-Runs :
      (s : Parser) (c : ℕ)
      → cost s < e
      → cost s ≤ c
      → Runs s (MadePair c) (parse_guarded h parse_expr n s)
  unfolding parse_guarded
  parse_guarded-Runs s c f l =
      Runs-bind (parse_expr_before_block-Runs h room e n fuel parse_expr E false s c f l)
        λ id t st p.
          Runs-bind (block t c (omega (arith, st.cost_le)) (omega (arith, p.1))) λ body u su q.
            returns {a = (id, body)} (Step-refl u) (omega (arith, p.0, su.nodes_le), q.0, q.1)

  else_of-Runs :
      (r : ℕ × ℕ) (s : Parser) (c : ℕ)
      → cost s < e
      → MadePair c r s
      → Runs s (Made c) (else_of h parse_expr n r s)
  unfolding parse_else
  else_of-Runs (condition, body) s c f (a, b, l) =
      Runs-if s _ (at kw_else s) _ _
        (λ _.
          Runs-bind
            (Runs-bind (pass_token-Left h s c l)
              λ _ t st p. block t c (omega (arith, st.cost_le)) (omega arith))
            λ id u su q.
              add_node-Runs h.size_max room u _ c q.1
                (omega (arith, su.nodes_le), omega (arith, su.nodes_le), λ _. q.0))
        (λ _. add_node-Runs h.size_max room s _ c l (a, b, λ x. cc))

  pub parse_if-Runs : Begins e (parse_if h parse_expr n)
  unfolding parse_if
  parse_if-Runs s c f l = Runs-bind (expect-Runs h s kw_if (omega arith)) λ _ t st p.
      Runs-bind (parse_guarded-Runs t c (omega arith) (omega arith))
        λ r u su q. else_of-Runs r u c (omega (arith, su.cost_le)) q

  while_of-Runs :
      (r : ℕ × ℕ) (s : Parser) (c : ℕ)
      → MadePair c r s
      → Runs s (Made c) (while_of h parse_expr n r s)
  while_of-Runs (condition, body) s c (a, b, l) = add_node-Runs h.size_max room s _ c l (a, b)

  pub parse_while-Runs : Begins e (parse_while h parse_expr n)
  unfolding parse_while
  parse_while-Runs s c f l = Runs-bind (expect-Runs h s kw_while (omega arith)) λ _ t st p.
      Runs-bind (parse_guarded-Runs t c (omega arith) (omega arith))
        λ r u su q. while_of-Runs r u c q

  when_of-Runs :
      (r : ℕ × ℕ) (s : Parser) (c : ℕ)
      → MadePair c r s
      → Runs s (Made c) (when_of h parse_expr n r s)
  when_of-Runs (condition, body) s c (a, b, l) =
      add_node-Runs h.size_max room s _ c l (a, b, λ x. cc)

  pub parse_when-Runs : Begins e (parse_when h parse_expr n)
  unfolding parse_when
  parse_when-Runs s c f l = Runs-bind (expect-Runs h s kw_when (omega arith)) λ _ t st p.
      Runs-bind (parse_guarded-Runs t c (omega arith) (omega arith))
        λ r u su q. when_of-Runs r u c q

  pub parse_unless-Runs : Begins e (parse_unless h parse_expr n)
  unfolding parse_unless
  parse_unless-Runs s c f l = Runs-bind (expect-Runs h s kw_unless (omega arith)) λ _ t st p.
      Runs-bind
        (parse_expr_before_block-Runs h room e n fuel parse_expr E false t c (omega arith)
          (omega arith))
        λ id u su q.
          Runs-bind
            (make_builtin_call-Runs h.size_max room builtin_not (id ∷ []) u c (omega arith) q.1
              (q.0, tt))
            λ negation v sv r.
              Runs-bind (block v c (omega (arith, su.cost_le, sv.cost_le)) (omega (arith, r.1)))
                λ body w sw x.
                  add_node-Runs h.size_max room w _ c x.1
                    (omega (arith, r.0, sw.nodes_le), x.0, λ y. cc)

  -- Clauses whose nodes exist, and less than `c` left.
  abbrev Collected : ℕ → Clauses → Parser → Type 0
  Collected c r t = ClausesFit (length t.program.nodes) r × (cost t < c)

  parse_else_clause-Runs :
      (close : TokenKind) (r : Clauses) (s : Parser) (c : ℕ)
      → cost s < e
      → cost s < c
      → ClausesFit (length s.program.nodes) r
      → Runs s (Collected c) (parse_else_clause h parse_expr n close r s)
  unfolding parse_else_clause
  parse_else_clause-Runs close r s c f l (a, b, d) =
      Runs-require h s _ (not (length r.heads.items == 0)) _ λ _.
        Runs-bind (pass_token-Left h s c l) λ _ t st p.
          Runs-bind (block t c (omega (arith, st.cost_le)) (omega arith)) λ id u su q.
            Runs-bind
              (skip_semicolons-Runs h room n u c (omega (arith, st.cost_le, su.cost_le)) q.1)
              λ _ v sv x. Runs-require h v _ (at close v) _ λ _. returns (Step-refl v) (
                (
                  AllBelow-mono _ _ r.heads.items
                      (omega (arith, st.nodes_le, su.nodes_le, sv.nodes_le)) a,
                  AllBelow-mono _ _ r.bodies.items
                      (omega (arith, st.nodes_le, su.nodes_le, sv.nodes_le)) b,
                  omega (arith, q.0, sv.nodes_le),
                ),
                x,
              )

  push_clause-Runs :
      (r : Clauses) (p : ℕ × ℕ) (s : Parser) (c : ℕ)
      → cost s < n
      → MadePair c p s
      → ClausesFit (length s.program.nodes) r
      → Runs s (Collected c) (push_clause h parse_expr n r p s)
  unfolding push_clause
  push_clause-Runs r (x, y) s c f (p, q, l) (a, b, d) =
      Runs-bind (node_list_push-Runs h.size_max room r.heads x s c l a p) λ heads t st u.
        Runs-bind
          (node_list_push-Runs h.size_max room r.bodies y t c u.0.1
            (AllBelow-mono _ _ r.bodies.items st.nodes_le b) (omega (arith, st.nodes_le)))
          λ bodies v sv w.
            Runs-bind
              (skip_semicolons-Runs h room n v c (omega (arith, st.cost_le, sv.cost_le)) w.0.1)
              λ _ k sk z. returns (Step-refl k) (
                (
                  AllBelow-mono _ _ heads.items (omega (arith, sv.nodes_le, sk.nodes_le)) u.0.0,
                  AllBelow-mono _ _ bodies.items sk.nodes_le w.0.0,
                  ElseFits-mono _ _ r.else_body
                      (omega (arith, st.nodes_le, sv.nodes_le, sk.nodes_le)) d,
                ),
                z,
              )

  -- A clause's parser that ends within `e`, where it leaves less than there was.
  abbrev ParsesClause : (Clauses → Parse Clauses) → Type 0
  ParsesClause clause =
      (r : Clauses) (s : Parser)
      → cost s < e
      → ClausesFit (length s.program.nodes) r
      → Runs s (Collected (cost s)) (clause r s)

  parse_cond_clause-Runs : ParsesClause (parse_cond_clause h parse_expr n)
  unfolding parse_cond_clause
  parse_cond_clause-Runs r s f a = Runs-require h s _ (at kw_when s) _ λ is.
      Runs-bind (pass_token-Passed h room s (ground arith)) λ _ t st p.
        Runs-bind (parse_guarded-Runs t (cost s) (omega arith) (omega arith)) λ q u su x.
          push_clause-Runs r q u (cost s) (omega (arith, su.cost_le)) x
            (ClausesFit-mono _ _ r (omega (arith, st.nodes_le, su.nodes_le)) a)

  parse_case_clause-Runs : ParsesClause (parse_case_clause h parse_expr n)
  unfolding parse_case_clause
  parse_case_clause-Runs r s f a =
      Runs-bind (parse_case_literal-Runs h room s (cost s) (omega arith)) λ id t st p.
        Runs-bind (block t (cost s) (omega (arith, st.cost_le)) (omega (arith, p.1))) λ body u su q.
          push_clause-Runs r (id, body) u (cost s) (omega (arith, q.1))
            (omega (arith, p.0, su.nodes_le), q.0, q.1)
            (ClausesFit-mono _ _ r (omega (arith, st.nodes_le, su.nodes_le)) a)

  clauses_loop-Runs :
      (clause : Clauses → Parse Clauses)
      → ParsesClause clause
      → (k : ℕ) (close : TokenKind) (r : Clauses) (s : Parser) (c : ℕ) → cost s < k
      → cost s < e
      → cost s < c
      → ClausesFit (length s.program.nodes) r
      → Runs s (Collected c) (clauses_loop h parse_expr n clause k close r s)
  unfolding clauses_loop
  clauses_loop-Runs clause C zero close r s c b f l a = elim b [ ]
  clauses_loop-Runs clause C (suc k) close r s c b f l a =
      Runs-if s _ (at close s) _ _ (λ _. returns (Step-refl s) (a, l))
        λ _.
          Runs-if s _ (at eof_token s) _ _ (λ _. fails (Step-refl s))
            λ _.
              Runs-if s _ (at semicolon s) _ _
                (λ is. Runs-bind (pass_token-Passed h room s (ground arith)) λ _ t st p.
                  clauses_loop-Runs clause C k close r t c (omega arith) (omega arith) (omega arith)
                    (ClausesFit-mono _ _ r st.nodes_le a))
                λ _.
                  Runs-if s _ (at kw_else s) _ _ (λ _. parse_else_clause-Runs close r s c f l a)
                    λ _. Runs-bind (C r s f a) λ q t st x.
                      clauses_loop-Runs clause C k close q t c (omega (arith, x.1))
                        (omega (arith, x.1)) (omega (arith, x.1)) x.0

  pub parse_cond-Runs : Begins e (parse_cond h parse_expr n)
  unfolding parse_cond
  parse_cond-Runs s c f l = Runs-bind (expect-Runs h s kw_cond (omega arith)) λ _ t st p.
      Runs-bind (expect_block_start-Runs h t) λ close u su (q, ne).
        Runs-bind
          (clauses_loop-Runs _ parse_cond_clause-Runs n close no_clauses u c (omega arith)
            (omega arith) (omega arith) (tt, tt, tt))
          λ r v sv x. Runs-bind (expect-Runs h v close ne) λ _ w sw y.
            Runs-bind
              (last_branch-Runs h room r.else_body w c (omega (arith, x.1))
                (ClausesFit-mono _ _ r sw.nodes_le x.0).2)
              λ chain k sk z.
                cond_chain-Runs h room (clauses_reversed r) chain k c z.1
                  (clauses_reversed-PairsBelow _ r
                    (ClausesFit-mono _ _ r (omega (arith, sw.nodes_le, sk.nodes_le)) x.0))
                  z.0

  pub parse_case-Runs : Begins e (parse_case h parse_expr n)
  unfolding parse_case
  parse_case-Runs s c f l = Runs-bind (expect-Runs h s kw_case (omega arith)) λ _ t st p.
      Runs-bind
        (parse_expr_before_block-Runs h room e n fuel parse_expr E false t (cost s) (omega arith)
          (omega arith))
        λ scrutinee u su q. Runs-bind (expect_block_start-Runs h u) λ close v sv (r, ne).
          Runs-bind
            (clauses_loop-Runs _ parse_case_clause-Runs n close no_clauses v c (omega (arith, q.1))
              (omega (arith, q.1)) (omega (arith, q.1)) (tt, tt, tt))
            λ k w sw x. Runs-bind (expect-Runs h w close ne) λ _ s1 t1 p1.
              Runs-bind (hidden_local-Runs h s1 c (omega (arith, x.1))) λ hidden s2 t2 p2.
                Runs-bind
                  (add_node-Runs h.size_max room s2 _ c p2
                    (omega (arith, q.0, sv.nodes_le, sw.nodes_le, t1.nodes_le, t2.nodes_le)))
                  λ init s3 t3 p3.
                    let fits : ClausesFit (length s3.program.nodes) k =
                      ClausesFit-mono _ _ k (omega (arith, t1.nodes_le, t2.nodes_le, t3.nodes_le))
                        x.0 in
                    Runs-bind (last_branch-Runs h room k.else_body s3 c p3.1 fits.2)
                      λ chain s4 t4 p4.
                        Runs-bind
                          (case_chain-Runs h room hidden (clauses_reversed k) chain s4 c p4.1
                            (clauses_reversed-PairsBelow _ k
                              (ClausesFit-mono _ _ k t4.nodes_le fits))
                            p4.0)
                          λ whole s5 t5 p5.
                            make_seq-Runs h room _ s5 c p5.1
                              (omega (arith, p3.0, t4.nodes_le, t5.nodes_le), (p5.0, tt))

  pub parse_repeat-Runs : Begins e (parse_repeat h parse_expr n)
  unfolding parse_repeat
  parse_repeat-Runs s c f l = Runs-bind (expect-Runs h s kw_repeat (omega arith)) λ _ t st p.
      Runs-bind
        (parse_expr_before_block-Runs h room e n fuel parse_expr E false t (cost s) (omega arith)
          (omega arith))
        λ count u su q. Runs-bind (parse_index_name-Runs h room u (cost s) q.1) λ name v sv r.
          Runs-bind (expect_block_start-Runs h v) λ close w sw (x, ne).
            Runs-bind (enter_scope-Runs h w (cost s) (omega arith)) λ _ s1 t1 p1.
              Runs-bind (declare_index-Runs h room name s1 (cost s) p1) λ index s2 t2 p2.
                Runs-bind {P = Made c}
                  (Runs-settle
                    (parse_block_contents_until-Runs h room e n fuel parse_expr E close s2 c ne
                      (omega arith) (omega arith))
                    pop_scope-Step (λ id y sy z. Made-pop pop_scope c id y (pop_scope-Step y) z))
                  λ body s3 t3 p3.
                    make_repeat-Runs h room count index body s3 c p3.1
                      (omega (
                        arith, q.0, sv.nodes_le, sw.nodes_le, t1.nodes_le, t2.nodes_le, t3.nodes_le,
                      ))
                      p3.0

  pub args_loop-Runs :
      (k : ℕ) (args : NodeList) (s : Parser) (c : ℕ)
      → cost s < k
      → cost s < e
      → cost s < c
      → AllBelow (length s.program.nodes) args.items
      → Runs s (λ r t. Listed c r t) (args_loop h parse_expr n k args s)
  unfolding args_loop
  args_loop-Runs zero args s c b f l a = elim b [ ]
  args_loop-Runs (suc k) args s c b f l a =
      Runs-bind (E false s (cost s) f (omega arith)) λ id t st p.
        Runs-bind
          (node_list_push-Runs h.size_max room args id t (cost s) p.1
            (AllBelow-mono _ _ args.items st.nodes_le a) p.0)
          λ r u su q.
            Runs-if u _ (at comma u) _ _
              (λ _. Runs-bind (pass_token-Left h u (cost s) q.0.1) λ _ v sv x.
                args_loop-Runs k r v c (omega arith) (omega arith) (omega arith)
                  (AllBelow-mono _ _ r.items sv.nodes_le q.0.0))
              (λ _. returns (Step-refl u) (q.0.0, omega (arith, q.0.1)))

  pub make_call_of-Runs :
      (callee : ℕ) (args : NodeList) (s : Parser) (c : ℕ)
      → cost s < c
      → callee < length s.program.nodes
      → AllBelow (length s.program.nodes) args.items
      → Runs s (Made c) (make_call_of h parse_expr n callee args s)
  unfolding make_call_of
  make_call_of-Runs callee args s c l b a =
      Runs-bind (node_list_flush-Runs h.size_max room args s c l a) λ first t st p.
        add_node-Runs h.size_max room t _ c p.1 ((λ x. omega (arith, st.nodes_le)), p.0)

  pub parse_call_expr-Runs : Begins e (parse_call_expr h parse_expr n)
  unfolding parse_call_expr
  parse_call_expr-Runs s c f l = Runs-bind (expect-Runs h s kw_call (omega arith)) λ _ t st p.
      Runs-bind (E false t c (omega arith) (omega arith)) λ callee u su q.
        Runs-bind (expect-Runs h u kw_with (omega arith)) λ _ v sv r.
          Runs-require h v _ (can_start_expr v.current.kind) _ λ _.
            Runs-bind
              (args_loop-Runs n no_nodes v c (omega (arith, su.cost_le)) (omega (arith, su.cost_le))
                (omega (arith, q.1)) tt)
              λ args w sw x.
                make_call_of-Runs callee args w c x.1 (omega (arith, q.0, sv.nodes_le, sw.nodes_le))
                  x.0
