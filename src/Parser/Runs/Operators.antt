-- ===== src/Parser/Runs/Operators.antt =====
-- Operators and the whole expression (src/frothy_parser.c) end within their fuel and keep the program
-- well formed. In each lemma `c` is a bound on what is left.
use froth.Base.{ℕ, zero, suc, ◌≤◌, ◌<◌, ◌≡◌, Bool, true, false, [], ◌∷◌, arith, length}
use froth.Parser.Token.{kw_and, kw_or, is_binary_operator}
use froth.Parser.Lexer.{Host}
use froth.Parser.State.{Parser, Parse}
use froth.Parser.Advance.{at}
use froth.Parser.Expr.{
  binary_round, binary_loop, parse_binary_expr, and_round, and_loop, parse_and_expr, or_round,
  or_loop, expr_body, parse_expr,
}
use froth.Parser.Runs.{weight, cost, Step-refl, Runs, returns, Runs-bind, Runs-if, Made}
use froth.Parser.Runs.Make.{make_builtin_call-Runs, make_short_circuit_node-Runs}
use froth.Parser.Runs.Params.{Parses, Begins}
use froth.Parser.Runs.Blocks.{pass_token-Passed}
use froth.Parser.Runs.Expr.{binary_builtin-pos, parse_prefix-Runs}

binary_operator-weight :
    (s : Parser) → is_binary_operator s.current.kind ≡ true → weight s.current ≡ 1
binary_operator-weight s e = let pos = binary_builtin-pos s.current.kind e in ground (arith, pos.1)

module _ (h : Host) (room : 1024 ≤ h.size_max) (e n : ℕ) (fuel : e < n)
    (parse_expr : Bool → Parse ℕ) (E : (top : Bool) → Parses e (parse_expr top)) where
  binary_round-Runs :
      (lhs : ℕ) (s : Parser)
      → is_binary_operator s.current.kind ≡ true
      → cost s ≤ e
      → lhs < length s.program.nodes
      → Runs s (Made (cost s)) (binary_round h parse_expr n lhs s)
  unfolding binary_round
  binary_round-Runs lhs s is f b =
      Runs-bind (pass_token-Passed h room s (binary_operator-weight s is)) λ _ t st p.
        Runs-bind
          (parse_prefix-Runs h room e n fuel parse_expr E n false t (cost s) (omega arith)
            (omega arith) (omega arith))
          λ rhs u su q.
            make_builtin_call-Runs h.size_max room _ (lhs ∷ (rhs ∷ [])) u (cost s)
              (binary_builtin-pos s.current.kind is).0 q.1
              (omega (arith, st.nodes_le, su.nodes_le), (q.0, tt))

  binary_loop-Runs :
      (k lhs : ℕ) (s : Parser) (c : ℕ)
      → cost s < k
      → cost s ≤ e
      → Made c lhs s
      → Runs s (Made c) (binary_loop h parse_expr n k lhs s)
  unfolding binary_loop
  binary_loop-Runs zero lhs s c b f m = elim b [ ]
  binary_loop-Runs (suc k) lhs s c b f m =
      Runs-if s _ (is_binary_operator s.current.kind) _ _
        (λ is. Runs-bind (binary_round-Runs lhs s is f m.0) λ r t st p.
          binary_loop-Runs k r t c (omega (arith, p.1)) (omega (arith, p.1))
            (p.0, omega (arith, p.1, m.1)))
        (λ _. returns (Step-refl s) m)

  parse_binary_expr-Runs : (top : Bool) → Begins e (parse_binary_expr h parse_expr n top)
  unfolding parse_binary_expr
  parse_binary_expr-Runs top s c f l =
      Runs-bind (parse_prefix-Runs h room e n fuel parse_expr E n top s c (omega arith) f l)
        λ id t st p.
          binary_loop-Runs n id t c (omega (arith, st.cost_le)) (omega (arith, st.cost_le)) p

  and_round-Runs :
      (lhs : ℕ) (s : Parser)
      → weight s.current ≡ 1
      → cost s ≤ e
      → lhs < length s.program.nodes
      → Runs s (Made (cost s)) (and_round h parse_expr n lhs s)
  unfolding and_round
  and_round-Runs lhs s full f b = Runs-bind (pass_token-Passed h room s full) λ _ t st p.
      Runs-bind (parse_binary_expr-Runs false t (cost s) (omega arith) (omega arith)) λ rhs u su q.
        make_short_circuit_node-Runs h.size_max room false lhs rhs u (cost s) q.1
          (omega (arith, st.nodes_le, su.nodes_le)) q.0

  and_loop-Runs :
      (k lhs : ℕ) (s : Parser) (c : ℕ)
      → cost s < k
      → cost s ≤ e
      → Made c lhs s
      → Runs s (Made c) (and_loop h parse_expr n k lhs s)
  unfolding and_loop
  and_loop-Runs zero lhs s c b f m = elim b [ ]
  and_loop-Runs (suc k) lhs s c b f m =
      Runs-if s _ (at kw_and s) _ _
        (λ is. Runs-bind (and_round-Runs lhs s (ground arith) f m.0) λ r t st p.
          and_loop-Runs k r t c (omega (arith, p.1)) (omega (arith, p.1))
            (p.0, omega (arith, p.1, m.1)))
        (λ _. returns (Step-refl s) m)

  parse_and_expr-Runs : (top : Bool) → Begins e (parse_and_expr h parse_expr n top)
  unfolding parse_and_expr
  parse_and_expr-Runs top s c f l =
      Runs-bind (parse_binary_expr-Runs top s c f l) λ id t st p.
        and_loop-Runs n id t c (omega (arith, st.cost_le)) (omega (arith, st.cost_le)) p

  or_round-Runs :
      (lhs : ℕ) (s : Parser)
      → weight s.current ≡ 1
      → cost s ≤ e
      → lhs < length s.program.nodes
      → Runs s (Made (cost s)) (or_round h parse_expr n lhs s)
  unfolding or_round
  or_round-Runs lhs s full f b = Runs-bind (pass_token-Passed h room s full) λ _ t st p.
      Runs-bind (parse_and_expr-Runs false t (cost s) (omega arith) (omega arith)) λ rhs u su q.
        make_short_circuit_node-Runs h.size_max room true lhs rhs u (cost s) q.1
          (omega (arith, st.nodes_le, su.nodes_le)) q.0

  or_loop-Runs :
      (k lhs : ℕ) (s : Parser) (c : ℕ)
      → cost s < k
      → cost s ≤ e
      → Made c lhs s
      → Runs s (Made c) (or_loop h parse_expr n k lhs s)
  unfolding or_loop
  or_loop-Runs zero lhs s c b f m = elim b [ ]
  or_loop-Runs (suc k) lhs s c b f m =
      Runs-if s _ (at kw_or s) _ _
        (λ is. Runs-bind (or_round-Runs lhs s (ground arith) f m.0) λ r t st p.
          or_loop-Runs k r t c (omega (arith, p.1)) (omega (arith, p.1))
            (p.0, omega (arith, p.1, m.1)))
        (λ _. returns (Step-refl s) m)

  expr_body-Runs : (top : Bool) → Begins e (expr_body h parse_expr n top)
  unfolding expr_body
  expr_body-Runs top s c f l =
      Runs-bind (parse_and_expr-Runs top s c f l)
        λ id t st p. or_loop-Runs n id t c (omega (arith, st.cost_le)) (omega (arith, st.cost_le)) p

-- An expression ends within a fuel above what is left.
pub parse_expr-Runs :
    (h : Host) (n : ℕ) (top : Bool) → 1024 ≤ h.size_max → Parses n (parse_expr h n top)
unfolding parse_expr
parse_expr-Runs h zero top room s c f l = elim f [ ]
parse_expr-Runs h (suc n) top room s c f l =
    expr_body-Runs h room n (suc n) (omega arith) (parse_expr h n) (λ b. parse_expr-Runs h n b room)
      top s c (omega arith) l
