-- ===== src/Parser/Runs/Control.antt =====
-- The pieces that the control forms make (src/frothy_parser.c): literals, chains of clauses, and the
-- nodes of `repeat`. In each lemma `c` is a bound on what is left.
use froth.Base.{
  ℕ, suc, ◌≤◌, ◌<◌, ◌≡◌, refl, Bool, true, false, not, ◌||◌, Option, none, some, List, [], ◌∷◌,
  arith, length, All, leb,
}
use mathlib.Core.List.{reverse_aux}
use froth.Ir.{Literal, nil_literal}
use froth.Parser.Token.{
  Token, minus, int_token, text_token, lparen, rparen, kw_true, kw_false, kw_nil, kw_cells, kw_as,
  builtin_eq, builtin_add, builtin_lt, builtin_cells,
}
use froth.Parser.Lexer.{Host}
use froth.Parser.State.{Parser}
use froth.Parser.Advance.{at}
use froth.Parser.Pools.{NodeList, no_nodes, make_literal_node}
use froth.Parser.Control.{
  Clauses, clauses_reversed, pairs, and_advance, parse_negative, parse_case_literal, last_branch,
  cond_chain, case_test, case_chain, push_all, make_seq_of, make_seq, index_items, make_increment,
  make_loop_condition, make_counting_loop, make_repeat, parse_cells, parse_index_name,
  declare_index,
}
use froth.Parser.Runs.{
  weight, cost, Step-refl, Runs, returns, fails, Runs-bind, Runs-weaken, Runs-if, Made, Left,
}
use froth.Parser.Runs.Tokens.{Runs-require, expect-Runs, take_name-Runs}
use froth.Parser.Runs.Nodes.{add_node-Runs, make_literal_node-Kept}
use froth.Parser.Runs.Make.{
  AllBelow, AllBelow-mono, Listed, node_list_push-Runs, node_list_flush-Runs,
  make_literal_node-Runs, make_builtin_call-Runs,
}
use froth.Parser.Runs.Params.{hidden_local-Runs, declare-Runs, pass_token-Left}
use froth.Parser.Runs.Blocks.{pass_token-Passed}

abbrev pub PairBelow : ℕ → ℕ × ℕ → Type 0
PairBelow k (x, y) = (x < k) × (y < k)

abbrev pub PairsBelow : ℕ → List (ℕ × ℕ) → Type 0
PairsBelow k = All (PairBelow k)

pairs-PairsBelow :
    (k : ℕ) (xs ys : List ℕ) → AllBelow k xs → AllBelow k ys → PairsBelow k (pairs xs ys)
pairs-PairsBelow k [] ys a b = tt
pairs-PairsBelow k (x ∷ xs) [] a b = tt
pairs-PairsBelow k (x ∷ xs) (y ∷ ys) (p, a) (q, b) = ((p, q), pairs-PairsBelow k xs ys a b)

reverse_aux-PairsBelow :
    (k : ℕ) (ps acc : List (ℕ × ℕ))
    → PairsBelow k ps
    → PairsBelow k acc
    → PairsBelow k (reverse_aux ps acc)
reverse_aux-PairsBelow k [] acc a b = b
reverse_aux-PairsBelow k (p ∷ ps) acc (q, a) b = reverse_aux-PairsBelow k ps (p ∷ acc) a (q, b)

abbrev pub ElseFits : ℕ → Option ℕ → Type 0
ElseFits k none = Unit {0}
ElseFits k (some id) = id < k

-- The clauses' nodes exist.
abbrev pub ClausesFit : ℕ → Clauses → Type 0
ClausesFit k c = AllBelow k c.heads.items × AllBelow k c.bodies.items × ElseFits k c.else_body

pub clauses_reversed-PairsBelow :
    (k : ℕ) (c : Clauses) → ClausesFit k c → PairsBelow k (clauses_reversed c)
clauses_reversed-PairsBelow k c (a, b, f) =
    reverse_aux-PairsBelow k (pairs c.heads.items c.bodies.items) []
      (pairs-PairsBelow k c.heads.items c.bodies.items a b) tt

module _ (h : Host) (room : 1024 ≤ h.size_max) where
  -- A literal's node, and past the token that it was read from.
  pub and_advance-Runs :
      (s : Parser) (l : Literal) (c : ℕ)
      → weight s.current ≡ 1
      → cost s ≤ c
      → Runs s (Made c) (and_advance h (make_literal_node h.size_max l) s)
  and_advance-Runs s l c full b =
      Runs-bind (make_literal_node-Kept h.size_max room s l (suc (cost s)) (omega arith))
        λ id t st (p, k).
          let still : weight t.current ≡ 1 = rw k full in
          Runs-bind (pass_token-Passed h room t still) λ _ u su q.
            returns (Step-refl u) (omega (arith, p.0, su.nodes_le), omega (arith, q, p.1, b))

  parse_negative-Runs :
      (s : Parser) (c : ℕ)
      → weight s.current ≡ 1
      → cost s ≤ c
      → Runs s (Made c) (parse_negative h s)
  unfolding parse_negative
  parse_negative-Runs s c full l = Runs-bind (pass_token-Passed h room s full) λ _ t st p.
      Runs-require h t _ (at int_token t) _
        λ is. and_advance-Runs t _ c (ground arith) (omega arith)

  pub parse_case_literal-Runs :
      (s : Parser) (c : ℕ) → cost s ≤ c → Runs s (Made c) (parse_case_literal h s)
  unfolding parse_case_literal
  parse_case_literal-Runs s c l =
      Runs-if s _ (at minus s) _ _ (λ is. parse_negative-Runs s c (ground arith) l)
        λ _.
          Runs-if s _ (at int_token s) _ _ (λ is. and_advance-Runs s _ c (ground arith) l)
            λ _.
              Runs-if s _ (at text_token s) _ _ (λ is. and_advance-Runs s _ c (ground arith) l)
                λ _.
                  Runs-if s _ (at kw_true s) _ _ (λ is. and_advance-Runs s _ c (ground arith) l)
                    λ _.
                      Runs-if s _ (at kw_false s) _ _
                        (λ is. and_advance-Runs s _ c (ground arith) l)
                        λ _.
                          Runs-if s _ (at kw_nil s) _ _
                            (λ is. and_advance-Runs s _ c (ground arith) l)
                            (λ _. fails (Step-refl s))

  pub last_branch-Runs :
      (o : Option ℕ) (s : Parser) (c : ℕ)
      → cost s < c
      → ElseFits (length s.program.nodes) o
      → Runs s (Made c) (last_branch h o s)
  last_branch-Runs none s c l f = make_literal_node-Runs h.size_max room s nil_literal c l
  last_branch-Runs (some id) s c l f = returns (Step-refl s) (f, l)

  PairsBelow-mono : (k m : ℕ) (ps : List (ℕ × ℕ)) → k ≤ m → PairsBelow k ps → PairsBelow m ps
  PairsBelow-mono k m [] l a = tt
  PairsBelow-mono k m ((x, y) ∷ ps) l (b, a) = (omega arith, PairsBelow-mono k m ps l a)

  pub cond_chain-Runs :
      (ps : List (ℕ × ℕ)) (chain : ℕ) (s : Parser) (c : ℕ)
      → cost s < c
      → PairsBelow (length s.program.nodes) ps
      → chain < length s.program.nodes
      → Runs s (Made c) (cond_chain h ps chain s)
  unfolding cond_chain
  cond_chain-Runs [] chain s c l a b = returns (Step-refl s) (b, l)
  cond_chain-Runs ((condition, body) ∷ ps) chain s c l (x, a) b =
      Runs-bind (add_node-Runs h.size_max room s _ c l (x.0, x.1, λ _. b))
        λ id t st p. cond_chain-Runs ps id t c p.1 (PairsBelow-mono _ _ ps st.nodes_le a) p.0

  case_test-Runs :
      (hidden value body chain : ℕ) (s : Parser) (c : ℕ)
      → cost s < c
      → value < length s.program.nodes
      → body < length s.program.nodes
      → chain < length s.program.nodes
      → Runs s (Made c) (case_test h hidden value body chain s)
  unfolding case_test
  case_test-Runs hidden value body chain s c l a b d =
      Runs-bind (add_node-Runs h.size_max room s _ c l tt) λ id t st p.
        Runs-bind
          (make_builtin_call-Runs h.size_max room builtin_eq (id ∷ (value ∷ [])) t c (omega arith)
            p.1 (p.0, (omega arith, tt)))
          λ k u su q. add_node-Runs h.size_max room u _ c q.1 (q.0, omega arith, λ _. omega arith)

  pub case_chain-Runs :
      (hidden : ℕ) (ps : List (ℕ × ℕ)) (chain : ℕ) (s : Parser) (c : ℕ)
      → cost s < c
      → PairsBelow (length s.program.nodes) ps
      → chain < length s.program.nodes
      → Runs s (Made c) (case_chain h hidden ps chain s)
  unfolding case_chain
  case_chain-Runs hidden [] chain s c l a b = returns (Step-refl s) (b, l)
  case_chain-Runs hidden ((value, body) ∷ ps) chain s c l (x, a) b =
      Runs-bind (case_test-Runs hidden value body chain s c l x.0 x.1 b)
        λ id t st p. case_chain-Runs hidden ps id t c p.1 (PairsBelow-mono _ _ ps st.nodes_le a) p.0

  push_all-Runs :
      (ids : List ℕ) (l : NodeList) (s : Parser) (c : ℕ)
      → cost s < c
      → AllBelow (length s.program.nodes) l.items
      → AllBelow (length s.program.nodes) ids
      → Runs s (λ r t. Listed c r t) (push_all h l ids s)
  unfolding push_all
  push_all-Runs [] l s c b a d = returns (Step-refl s) (a, b)
  push_all-Runs (id ∷ ids) l s c b a d =
      Runs-bind (node_list_push-Runs h.size_max room l id s c b a d.0)
        λ r t st p. push_all-Runs ids r t c p.0.1 p.0.0 (AllBelow-mono _ _ ids st.nodes_le d.1)

  pub make_seq_of-Runs :
      (l : NodeList) (s : Parser) (c : ℕ)
      → cost s < c
      → AllBelow (length s.program.nodes) l.items
      → Runs s (Made c) (make_seq_of h l s)
  unfolding make_seq_of
  make_seq_of-Runs l s c b a =
      Runs-bind (node_list_flush-Runs h.size_max room l s c b a)
        λ first t st p. add_node-Runs h.size_max room t _ c p.1 p.0

  pub make_seq-Runs :
      (ids : List ℕ) (s : Parser) (c : ℕ)
      → cost s < c
      → AllBelow (length s.program.nodes) ids
      → Runs s (Made c) (make_seq h ids s)
  unfolding make_seq
  make_seq-Runs ids s c b a =
      Runs-bind (push_all-Runs ids no_nodes s c b tt a) λ l t st p. make_seq_of-Runs l t c p.1 p.0

  index_items-Runs :
      (counter : ℕ) (index : Option ℕ) (s : Parser) (c : ℕ)
      → cost s < c
      → Runs s (λ r t. Listed c r t) (index_items h counter index s)
  unfolding index_items
  index_items-Runs counter none s c l = returns (Step-refl s) (tt, l)
  index_items-Runs counter (some index) s c l =
      Runs-bind (add_node-Runs h.size_max room s _ c l tt) λ read t st p.
        Runs-bind (add_node-Runs h.size_max room t _ c p.1 p.0) λ prelude u su q.
          Runs-weaken (node_list_push-Runs h.size_max room no_nodes prelude u c q.1 tt q.0)
            λ r v sv x. x.0

  make_increment-Runs :
      (counter : ℕ) (s : Parser) (c : ℕ) → cost s < c → Runs s (Made c) (make_increment h counter s)
  unfolding make_increment
  make_increment-Runs counter s c l =
      Runs-bind (make_literal_node-Runs h.size_max room s _ c l) λ one t st p.
        Runs-bind (add_node-Runs h.size_max room t _ c p.1 tt) λ read u su q.
          Runs-bind
            (make_builtin_call-Runs h.size_max room builtin_add (read ∷ (one ∷ [])) u c
              (omega arith) q.1 (q.0, (omega arith, tt)))
            λ value v sv r. add_node-Runs h.size_max room v _ c r.1 r.0

  make_loop_condition-Runs :
      (counter limit : ℕ) (s : Parser) (c : ℕ)
      → cost s < c
      → Runs s (Made c) (make_loop_condition h counter limit s)
  unfolding make_loop_condition
  make_loop_condition-Runs counter limit s c l =
      Runs-bind (add_node-Runs h.size_max room s _ c l tt) λ read t st p.
        Runs-bind (add_node-Runs h.size_max room t _ c p.1 tt) λ other u su q.
          make_builtin_call-Runs h.size_max room builtin_lt (read ∷ (other ∷ [])) u c (omega arith)
            q.1 (omega arith, (q.0, tt))

  make_counting_loop-Runs :
      (counter condition : ℕ) (items : NodeList) (s : Parser) (c : ℕ)
      → cost s < c
      → condition < length s.program.nodes
      → AllBelow (length s.program.nodes) items.items
      → Runs s (Made c) (make_counting_loop h counter condition items s)
  unfolding make_counting_loop
  make_counting_loop-Runs counter condition items s c l b a =
      Runs-bind (make_increment-Runs counter s c l) λ increment t st p.
        Runs-bind
          (node_list_push-Runs h.size_max room items increment t c p.1
            (AllBelow-mono _ _ items.items st.nodes_le a) p.0)
          λ r u su q.
            Runs-bind (make_seq_of-Runs r u c q.0.1 q.0.0)
              λ body v sv x. add_node-Runs h.size_max room v _ c x.1 (omega arith, x.0)

  -- What `repeat` makes behind its body.
  pub make_repeat-Runs :
      (count_expr : ℕ) (index : Option ℕ) (body : ℕ) (s : Parser) (c : ℕ)
      → cost s < c
      → count_expr < length s.program.nodes
      → body < length s.program.nodes
      → Runs s (Made c) (make_repeat h count_expr index body s)
  unfolding make_repeat
  make_repeat-Runs count_expr index body s c l a b =
      Runs-bind (hidden_local-Runs h s c l) λ limit s1 t1 p1.
        Runs-bind (hidden_local-Runs h s1 c p1) λ counter s2 t2 p2.
          Runs-bind (add_node-Runs h.size_max room s2 _ c p2 (omega arith)) λ limit_init s3 t3 p3.
            Runs-bind (make_literal_node-Runs h.size_max room s3 _ c p3.1) λ z s4 t4 p4.
              Runs-bind (add_node-Runs h.size_max room s4 _ c p4.1 p4.0) λ counter_init s5 t5 p5.
                Runs-bind (make_loop_condition-Runs counter limit s5 c p5.1) λ condition s6 t6 p6.
                  Runs-bind (index_items-Runs counter index s6 c p6.1) λ items s7 t7 p7.
                    Runs-bind
                      (node_list_push-Runs h.size_max room items body s7 c p7.1 p7.0 (omega arith))
                      λ with_body s8 t8 p8.
                        Runs-bind
                          (make_counting_loop-Runs counter condition with_body s8 c p8.0.1
                            (omega arith) p8.0.0)
                          λ while_node s9 t9 p9.
                            make_seq-Runs _ s9 c p9.1 (omega arith, (omega arith, (p9.0, tt)))

  -- `cells(n)`, whose size is a positive literal.
  pub parse_cells-Runs :
      (top : Bool) → (s : Parser) (c : ℕ) → cost s ≤ c → Runs s (Made c) (parse_cells h top s)
  unfolding parse_cells
  parse_cells-Runs false s c l = fails (Step-refl s)
  parse_cells-Runs true s c l = Runs-bind (expect-Runs h s kw_cells (omega arith)) λ _ t st p.
      Runs-bind (expect-Runs h t lparen (omega arith)) λ _ u su q.
        Runs-bind
          (Runs-if u (λ _ v. v ≡ u) (not (at int_token u) || leb u.current.int_value 0) _ _
            (λ _. fails (Step-refl u)) (λ _. returns (Step-refl u) refl))
          λ _ v sv r.
            Runs-bind (make_literal_node-Runs h.size_max room v _ c (omega (arith, sv.cost_le)))
              λ arg w sw x. Runs-bind (pass_token-Left h w c x.1) λ _ y sy z.
                Runs-bind (expect-Runs h y rparen (omega arith)) λ _ k sk g.
                  make_builtin_call-Runs h.size_max room builtin_cells (arg ∷ []) k c (omega arith)
                    (omega arith) (omega arith, tt)

  pub parse_index_name-Runs :
      (s : Parser) (c : ℕ) → cost s < c → Runs s (Left c) (parse_index_name h s)
  unfolding parse_index_name
  parse_index_name-Runs s c l =
      Runs-if s _ (at kw_as s) _ _
        (λ _.
          Runs-bind
            (Runs-bind (pass_token-Left h s c l) λ _ t st p.
              Runs-weaken {Q = Left c} (take_name-Runs h t) (λ name u su q. omega arith))
            λ name u su q. returns {a = some name} (Step-refl u) q)
        (λ _. returns (Step-refl s) l)

  pub declare_index-Runs :
      (o : Option Token) (s : Parser) (c : ℕ) → cost s < c → Runs s (Left c) (declare_index h o s)
  declare_index-Runs none s c l = returns (Step-refl s) l
  declare_index-Runs (some t) s c l =
      Runs-bind (declare-Runs h t s c l) λ i u su p. returns (Step-refl u) p
