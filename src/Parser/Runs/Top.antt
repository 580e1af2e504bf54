-- ===== src/Parser/Runs/Top.antt =====
-- The top level of src/frothy_parser.c ends within its fuel and keeps the program well formed. In each
-- lemma `c` is a bound on what is left.
use froth.Base.{
  ℕ, zero, suc, ◌+◌, ◌≤◌, ◌<◌, ◌≡◌, ◌≢◌, refl, Bool, true, false, not, ◌||◌, Option, some, List,
  arith, length,
}
use froth.Parser.Token.{
  TokenKind, kind_code, eof_token, name_token, semicolon, lbracket, rbracket, kw_to, kw_with,
  kw_record, kw_in, kw_set, kw_cells, is_block_start, is_simple_name, token_text, no_token,
}
use froth.Parser.Lexer.{Host}
use froth.Parser.State.{Parser, Parse}
use froth.Parser.Advance.{at}
use froth.Parser.Pools.{NodeList, no_nodes, join_prefix_name}
use froth.Parser.Params.{
  ParamsKind, params_none, params_list, BodyKind, body_block, body_expr, NamedFnKind, named_fn_none,
  named_fn_expr, named_fn_block, parse_fn_node, parse_top_level_named_fn,
}
use froth.Parser.Blocks.{parse_block}
use froth.Parser.Expr.{parse_expr}
use froth.Parser.Top.{
  record_fields_contain_name, parse_record_field, record_loop, parse_top_level_record,
  parse_top_level_boot_block, to_params, parse_top_level_to, parse_bound_value, parse_binding,
  parse_named_fn, is_binding, named_or_in, parse_in_item, in_item_pushed, in_loop, set_prefix,
  in_contents, parse_in, start_tokens, parse_source, is_boot_block, named_or_rest, parse_root,
}
use froth.Parser.Runs.{
  weight, cost, Step-refl, Step-same, Runs, returns, fails, Runs-from, Runs-bind, Runs-weaken,
  Runs-settle, Runs-if, Made, Left,
}
use froth.Parser.Runs.Tokens.{
  lex_into_next-Runs, Runs-require, expect-Runs, take_name-Runs, expect_binding_operator-Runs,
  expect_block_start-Runs,
}
use froth.Parser.Runs.Nodes.{add_node-Runs, add_literal-Runs, append_link-Runs}
use froth.Parser.Runs.Make.{
  AllBelow-mono, Listed, node_list_push-Runs, make_top_level_write_slot_range-Runs,
}
use froth.Parser.Runs.Params.{
  enter_frame-Runs, Parses, Begins, match_top_level_named_fn-Runs, comma_flag-Runs,
  parse_fn_node-Runs,
}
use froth.Parser.Runs.Blocks.{
  pass_token-Passed, skip_semicolons-Runs, parse_block-Runs, parse_set_item-Runs,
}
use froth.Parser.Runs.Control.{parse_cells-Runs, make_seq_of-Runs}
use froth.Parser.Runs.Operators.{parse_expr-Runs}

boot_block-weight : (h : Host) (s : Parser) → is_boot_block h s ≡ true → weight s.current ≡ 1
boot_block-weight h s e = ground arith

module _ (h : Host) (room : 1024 ≤ h.size_max) (n : ℕ) where
  block : Begins n (parse_block h (parse_expr h n) n)
  block =
      parse_block-Runs h room n n (omega arith) (parse_expr h n)
        (λ top. parse_expr-Runs h n top room)

  fn_node :
      (params : ParamsKind) (kind : BodyKind) (s : Parser) (c : ℕ)
      → cost s < n
      → cost s < c
      → Runs s
          (Made c)
          (parse_fn_node h (parse_expr h n) (parse_block h (parse_expr h n) n) n params kind s)
  fn_node =
      parse_fn_node-Runs h room n n (omega arith) (parse_expr h n)
        (λ top. parse_expr-Runs h n top room) (parse_block h (parse_expr h n) n) block

  parse_record_field-Runs :
      (first count : ℕ) (s : Parser) (c : ℕ)
      → cost s ≤ c
      → Runs s (Left c) (parse_record_field h first count s)
  unfolding parse_record_field is_simple_name
  parse_record_field-Runs first count s c l = Runs-require h s _ (is_simple_name s.current) _ λ is.
      Runs-require h s _ (not (record_fields_contain_name s first count s.current)) _ λ _.
        Runs-bind (add_literal-Runs h.size_max room s _ (suc (cost s)) (omega arith))
          λ id t st (b, p, k).
            Runs-bind (append_link-Runs h.size_max room t id (suc (cost s)) p) λ _ u su (q, e, k').
              let still : weight u.current ≡ 1 = rw (k', k) (ground arith) in
              Runs-bind (pass_token-Passed h room u still)
                λ _ v sv r. comma_flag-Runs h _ v c (omega arith)

  record_loop-Runs :
      (k first count : ℕ) (s : Parser) (c : ℕ)
      → cost s < k
      → cost s < c
      → Runs s (Left c) (record_loop h k first count s)
  unfolding record_loop
  record_loop-Runs zero first count s c b l = elim b [ ]
  record_loop-Runs (suc k) first count s c b l =
      Runs-bind (parse_record_field-Runs first count s (cost s) (omega arith)) λ more t st p.
        Runs-if t _ more _ _
          (λ _. record_loop-Runs k first (count + 1) t c (omega arith) (omega arith))
          (λ _. returns (Step-refl t) (omega arith))

  parse_top_level_record-Runs : Begins n (parse_top_level_record h n)
  unfolding parse_top_level_record
  parse_top_level_record-Runs s c f l =
      Runs-bind (expect-Runs h s kw_record (omega arith)) λ _ t st p.
        Runs-require h t _ (is_simple_name t.current) _ λ _.
          Runs-bind (take_name-Runs h t) λ name u su q.
            Runs-bind (expect-Runs h u lbracket (omega arith)) λ _ v sv r.
              Runs-bind
                (Runs-if v (λ _ w. w ≡ v) (at rbracket v) _ _ (λ _. fails (Step-refl v))
                  (λ _. returns (Step-refl v) refl))
                λ _ w sw x.
                  Runs-bind
                    (record_loop-Runs n (length s.program.links) 0 w c (omega (arith, sw.cost_le))
                      (omega (arith, sw.cost_le)))
                    λ count y sy z. Runs-bind (expect-Runs h y rbracket (omega arith)) λ _ k sk g.
                      Runs-bind (add_node-Runs h.size_max room k _ c (omega arith) tt) λ def m sm d.
                        make_top_level_write_slot_range-Runs h.size_max room _ def m c d.1 d.0

  parse_top_level_boot_block-Runs :
      (s : Parser) (c : ℕ)
      → weight s.current ≡ 1
      → cost s ≤ n
      → cost s ≤ c
      → Runs s (Made c) (parse_top_level_boot_block h n s)
  unfolding parse_top_level_boot_block
  parse_top_level_boot_block-Runs s c full f l =
      Runs-bind (pass_token-Passed h room s full) λ _ t st p.
        Runs-bind (fn_node params_none body_block t c (omega arith) (omega arith))
          λ id u su q. make_top_level_write_slot_range-Runs h.size_max room _ id u c q.1 q.0

  parse_top_level_to-Runs : Begins n (parse_top_level_to h n)
  unfolding parse_top_level_to
  parse_top_level_to-Runs s c f l = Runs-bind (expect-Runs h s kw_to (omega arith)) λ _ t st p.
      Runs-bind (take_name-Runs h t) λ name u su q.
        Runs-require h u _ (at kw_with u || is_block_start u.current.kind) _ λ _.
          Runs-bind (fn_node (to_params h u) body_block u c (omega arith) (omega arith))
            λ id v sv r. make_top_level_write_slot_range-Runs h.size_max room _ id v c r.1 r.0

  parse_bound_value-Runs : Parses n (parse_bound_value h n)
  unfolding parse_bound_value
  parse_bound_value-Runs s c f l =
      Runs-if s _ (at kw_cells s) _ _ (λ _. parse_cells-Runs h room true s c l)
        (λ _. parse_expr-Runs h n false room s c f l)

  parse_binding-Runs : Begins n (parse_binding h n)
  unfolding parse_binding
  parse_binding-Runs s c f l = Runs-bind (take_name-Runs h s) λ name t st p.
      Runs-bind (expect_binding_operator-Runs h t) λ _ u su q.
        Runs-bind (parse_bound_value-Runs u c (omega arith) (omega arith))
          λ id v sv r. make_top_level_write_slot_range-Runs h.size_max room _ id v c r.1 r.0

  parse_named_fn-Runs : (kind : BodyKind) → Begins n (parse_named_fn h n kind)
  unfolding parse_named_fn parse_top_level_named_fn
  parse_named_fn-Runs kind s c f l = Runs-bind (take_name-Runs h s) λ name t st p.
      Runs-bind (fn_node params_list kind t c (omega arith) (omega arith))
        λ id u su q. make_top_level_write_slot_range-Runs h.size_max room _ id u c q.1 q.0

  named_or_in-Runs :
      (parse_in : Parse ℕ) (d : ℕ)
      → Begins d parse_in
      → (kind : NamedFnKind) (s : Parser) (c : ℕ) → cost s ≤ n
      → cost s ≤ d
      → cost s ≤ c
      → Runs s (Made c) (named_or_in h n parse_in kind s s)
  named_or_in-Runs parse_in d I named_fn_expr s c f b l = parse_named_fn-Runs body_expr s c f l
  named_or_in-Runs parse_in d I named_fn_block s c f b l = parse_named_fn-Runs body_block s c f l
  named_or_in-Runs parse_in d I named_fn_none s c f b l =
      Runs-if s _ (at kw_in s) _ _ (λ _. I s c b l) (λ _. fails (Step-refl s))

  parse_in_item-Runs :
      (parse_in : Parse ℕ) (d : ℕ)
      → Begins d parse_in
      → (s : Parser) (c : ℕ) → cost s < n
      → cost s ≤ d
      → cost s ≤ c
      → Runs s (Made c) (parse_in_item h n parse_in s)
  unfolding parse_in_item
  parse_in_item-Runs parse_in d I s c f b l =
      Runs-bind (match_top_level_named_fn-Runs h n s (suc (cost s)) f (omega arith)) λ kind t st p.
        Runs-if t _ (is_binding h t) _ _ (λ _. parse_binding-Runs t c (omega arith) (omega arith))
          λ _.
            Runs-if t _ (at kw_to t) _ _
              (λ _. parse_top_level_to-Runs t c (omega arith) (omega arith))
              λ _.
                Runs-if t _ (at kw_record t) _ _
                  (λ _. parse_top_level_record-Runs t c (omega arith) (omega arith))
                  (λ _.
                    named_or_in-Runs parse_in d I kind t c (omega arith) (omega arith)
                      (omega arith))

  in_item_pushed-Runs :
      (parse_in : Parse ℕ) (d : ℕ)
      → Begins d parse_in
      → (items : NodeList) (s : Parser) → cost s < n
      → cost s ≤ d
      → Listed (suc (cost s)) items s
      → Runs s (λ r t. Listed (cost s) r t) (in_item_pushed h n parse_in items s)
  unfolding in_item_pushed
  in_item_pushed-Runs parse_in d I items s f b a =
      Runs-bind (parse_in_item-Runs parse_in d I s (cost s) f b (omega arith)) λ id t st p.
        Runs-bind
          (node_list_push-Runs h.size_max room items id t (cost s) p.1
            (AllBelow-mono _ _ items.items st.nodes_le a.0) p.0)
          λ r u su q.
            Runs-bind (skip_semicolons-Runs h room n u (cost s) (omega (arith, q.0.1)) q.0.1)
              λ _ v sv x. returns (Step-refl v) (AllBelow-mono _ _ r.items sv.nodes_le q.0.0, x)

  in_loop-Runs :
      (parse_in : Parse ℕ) (d : ℕ)
      → Begins d parse_in
      → (k : ℕ) (close : TokenKind) (items : NodeList) (s : Parser) (c : ℕ) → cost s < k
      → cost s < n
      → cost s ≤ d
      → Listed c items s
      → Runs s (λ r t. Listed c r t) (in_loop h n parse_in k close items s)
  unfolding in_loop
  in_loop-Runs parse_in d I zero close items s c b f g l = elim b [ ]
  in_loop-Runs parse_in d I (suc k) close items s c b f g l =
      Runs-if s _ (at close s) _ _ (λ _. returns (Step-refl s) l)
        λ _.
          Runs-if s _ (at eof_token s) _ _ (λ _. fails (Step-refl s))
            λ _.
              Runs-if s _ (at semicolon s) _ _
                (λ is. Runs-bind (pass_token-Passed h room s (ground arith)) λ _ t st p.
                  in_loop-Runs parse_in d I k close items t c (omega arith) (omega arith)
                    (omega arith)
                    (AllBelow-mono _ _ items.items st.nodes_le l.0, omega (arith, l.1)))
                λ _.
                  Runs-bind (in_item_pushed-Runs parse_in d I items s f g (l.0, omega arith))
                    λ r t st p.
                      in_loop-Runs parse_in d I k close r t c (omega (arith, p.1))
                        (omega (arith, p.1)) (omega (arith, p.1)) (p.0, omega (arith, p.1, l.1))

  in_contents-Runs :
      (parse_in : Parse ℕ) (d : ℕ)
      → Begins d parse_in
      → (close : TokenKind) (s : Parser) (c : ℕ) → kind_code close ≢ 0
      → cost s < n
      → cost s ≤ d
      → cost s < c
      → Runs s (Made c) (in_contents h n parse_in close s)
  unfolding in_contents
  in_contents-Runs parse_in d I close s c k f g l =
      Runs-bind (in_loop-Runs parse_in d I n close no_nodes s c f f g (tt, l)) λ items t st p.
        Runs-bind (expect-Runs h t close k) λ _ u su q.
          make_seq_of-Runs h room items u c (omega (arith, p.1))
            (AllBelow-mono _ _ items.items su.nodes_le p.0)

  -- Each block inside takes a unit of depth, and it passes two tokens.
  parse_in-Runs :
      (depth : ℕ) (s : Parser) (c : ℕ)
      → cost s < depth
      → cost s ≤ n
      → cost s ≤ c
      → Runs s (Made c) (parse_in h n depth s)
  unfolding parse_in
  parse_in-Runs zero s c d f l = elim d [ ]
  parse_in-Runs (suc depth) s c d f l = Runs-bind (expect-Runs h s kw_in (omega arith)) λ _ t st p.
      Runs-require h t _ (at name_token t) _ λ is.
        Runs-bind (pass_token-Passed h room t (ground arith)) λ _ u su q.
          Runs-bind (expect_block_start-Runs h u) λ close v sv (r, ne).
            let prefix : Option (List ℕ) =
              some (join_prefix_name t.active_prefix (token_text t.current)) in
            Runs-from (Step-same v (set_prefix h prefix v) refl (omega arith)) (
              Runs-settle
                (in_contents-Runs (parse_in h n depth) (cost v)
                  (λ x k y w. parse_in-Runs depth x k (omega arith) (omega arith) w) close
                  (set_prefix h prefix v) c ne (omega arith) (omega arith) (omega arith))
                (λ x. Step-same x (set_prefix h t.active_prefix x) refl (omega arith))
                (λ id x sx y. y))

  named_or_rest-Runs :
      (kind : NamedFnKind) (s : Parser) (c : ℕ)
      → cost s < n
      → cost s ≤ c
      → Runs s (Made c) (named_or_rest h n kind s s)
  named_or_rest-Runs named_fn_expr s c f l = parse_named_fn-Runs body_expr s c (omega arith) l
  named_or_rest-Runs named_fn_block s c f l = parse_named_fn-Runs body_block s c (omega arith) l
  named_or_rest-Runs named_fn_none s c f l =
      Runs-if s _ (at kw_in s) _ _ (λ _. parse_in-Runs n s c f (omega arith) l)
        λ _.
          Runs-if s _ (at kw_set s) _ _
            (λ _.
              parse_set_item-Runs h room n n (omega arith) (parse_expr h n)
                (λ top. parse_expr-Runs h n top room) s c (omega arith) l)
            (λ _. parse_expr-Runs h n false room s c f l)

  -- The root of a program.
  pub parse_root-Runs : Parses n (parse_root h n)
  unfolding parse_root
  parse_root-Runs s c f l =
      Runs-bind (match_top_level_named_fn-Runs h n s (suc (cost s)) f (omega arith)) λ kind t st p.
        Runs-if t _ (is_binding h t) _ _ (λ _. parse_binding-Runs t c (omega arith) (omega arith))
          λ _.
            Runs-if t _ (is_boot_block h t) _ _
              (λ is.
                parse_top_level_boot_block-Runs t c (boot_block-weight h t is) (omega arith)
                  (omega arith))
              λ _.
                Runs-if t _ (at kw_to t) _ _
                  (λ _. parse_top_level_to-Runs t c (omega arith) (omega arith))
                  λ _.
                    Runs-if t _ (at kw_record t) _ _
                      (λ _. parse_top_level_record-Runs t c (omega arith) (omega arith))
                      (λ _. named_or_rest-Runs kind t c (omega arith) (omega arith))

  -- The first two tokens.
  start_tokens-Runs : (s : Parser) → s.next ≡ no_token → Runs s (λ _ t. Unit {0}) (start_tokens h s)
  unfolding start_tokens
  start_tokens-Runs s e =
      let none_yet : weight s.next ≡ 0 = rw e refl in
      Runs-bind (lex_into_next-Runs h s s.cursor refl none_yet) λ _ t st p.
        let moved : Parser = record t { current = t.next; next = no_token } in
        Runs-from (Step-same t moved refl (omega arith))
          (Runs-weaken (lex_into_next-Runs h moved t.cursor refl refl) (λ _ u su q. tt))

  -- From the source's first token on, the parse ends within the fuel and its root is a node.
  pub parse_source-Runs :
      (require_eof : Bool) (s : Parser)
      → cost s < n
      → s.next ≡ no_token
      → Runs s (λ root t. root < length t.program.nodes) (parse_source h n require_eof s)
  unfolding parse_source
  parse_source-Runs require_eof s f e = Runs-bind (start_tokens-Runs s e) λ _ t st _.
      Runs-bind (enter_frame-Runs h false t n (omega (arith, st.cost_le))) λ _ u su p.
        Runs-bind (parse_root-Runs u n p (omega arith)) λ root v sv q.
          Runs-bind (skip_semicolons-Runs h room n v n q.1 q.1) λ _ w sw r.
            Runs-require h w _ (not require_eof || at eof_token w) _
              λ _. returns (Step-refl w) (omega (arith, q.0, sw.nodes_le))
