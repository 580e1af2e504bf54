-- ===== src/Parser/Runs/Blocks.antt =====
-- Blocks, places and assignments (src/frothy_parser.c) end within their fuel and keep the program
-- well formed. In each lemma `c` is a bound on what is left.
use froth.Base.{
  ℕ, zero, suc, ◌≤◌, ◌<◌, ◌≡◌, ◌≢◌, refl, Bool, true, false, ◌&&◌, Option, none, some, arith,
  length, get_elem?,
}
use froth.Ir.{
  Node, lit, read_local, write_local, read_slot, write_slot, read_slot_fallback,
  write_slot_fallback, slot_designator, record_def, read_index, write_index, read_field,
  write_field, fn, call, if_expr, while_expr, seq, unknown_node,
}
use froth.Parser.Token.{
  TokenKind, Token, kind_code, eof_token, semicolon, name_token, kw_set, kw_here, kw_record,
  is_binding_operator,
}
use froth.Parser.Lexer.{Host}
use froth.Parser.Scopes.{pop_scope}
use froth.Parser.State.{Parser, Parse}
use froth.Parser.Pools.{NodeList, no_nodes}
use froth.Parser.Advance.{at, pass_token}
use froth.Parser.Blocks.{
  Place, local_place, slot_place, slot_fallback_place, index_place, field_place, node_place,
  set_prefer, write_place, skip_semicolons, parse_expr_before_block, parse_place, parse_set_item,
  parse_local_binding_item, parse_here_item, parse_named_item, parse_block_item, parse_item_of,
  block_loop, parse_block_contents_until, parse_block,
}
use froth.Parser.Runs.{
  weight, cost, IsWell, Step, Step-refl, Step-same, Runs, returns, fails, Runs-from, Runs-bind,
  Runs-later, Runs-rooted, Runs-weaken, Runs-settle, Runs-if, Made, Left,
}
use froth.Parser.Runs.Tokens.{
  pass_token-Runs, expect-Runs, take_name-Runs, expect_binding_operator-Runs,
  expect_set_operator-Runs, expect_block_start-Runs, Passed,
}
use froth.Parser.Runs.Nodes.{add_node-rooted, add_node-Runs}
use froth.Parser.Runs.Make.{Listed, node_list_push-Runs, node_list_flush-Runs, AllBelow-mono}
use froth.Parser.Runs.Params.{
  Parses, Begins, Made-pop, pop_scope-Step, enter_scope-Runs, declare-Runs,
}

-- A place's nodes exist.
abbrev PlaceFits : ℕ → Place → Type 0
PlaceFits k (local_place i) = Unit {0}
PlaceFits k (slot_place name) = Unit {0}
PlaceFits k (slot_fallback_place primary fallback) = Unit {0}
PlaceFits k (index_place base index) = (base < k) × (index < k)
PlaceFits k (field_place base name) = base < k

PlaceFits-mono : (k m : ℕ) (p : Place) → k ≤ m → PlaceFits k p → PlaceFits m p
PlaceFits-mono k m (local_place i) l f = tt
PlaceFits-mono k m (slot_place name) l f = tt
PlaceFits-mono k m (slot_fallback_place primary fallback) l f = tt
PlaceFits-mono k m (index_place base index) l f = omega arith
PlaceFits-mono k m (field_place base name) l f = omega arith

-- A place whose nodes exist where the program of `s` is well formed.
abbrev Placed : Parser → ℕ → Place → Parser → Type 0
Placed s c p t = (IsWell s.program → PlaceFits (length t.program.nodes) p) × (cost t < c)

node_place-Runs :
    (s : Parser) (o : Option Node) (t : Parser) (c id : ℕ)
    → Step s t
    → cost t < c
    → id < length t.program.nodes
    → get_elem? t.program.nodes id ≡ o
    → Runs s (Placed s c) (node_place o t)
node_place-Runs s none t c id st l b e = fails st
node_place-Runs s (some (read_local i)) t c id st l b e = returns st (λ w. tt, l)
node_place-Runs s (some (read_slot name)) t c id st l b e = returns st (λ w. tt, l)
node_place-Runs s (some (read_slot_fallback p f)) t c id st l b e = returns st (λ w. tt, l)
node_place-Runs s (some (slot_designator name)) t c id st l b e = returns st (λ w. tt, l)
node_place-Runs s (some (read_index base index)) t c id st l b e =
    returns st (
      (λ w. let fits : (base < id) × (index < id) = (st.keeps w).node_fits id _ e in omega arith),
      l,
    )
node_place-Runs s (some (read_field base name)) t c id st l b e =
    returns st ((λ w. let fits : base < id = (st.keeps w).node_fits id _ e in omega arith), l)
node_place-Runs s (some (lit a)) t c id st l b e = fails st
node_place-Runs s (some (write_local a v)) t c id st l b e = fails st
node_place-Runs s (some (write_slot a v x)) t c id st l b e = fails st
node_place-Runs s (some (write_slot_fallback a v x y)) t c id st l b e = fails st
node_place-Runs s (some (record_def a x y)) t c id st l b e = fails st
node_place-Runs s (some (write_index a x y)) t c id st l b e = fails st
node_place-Runs s (some (write_field a x y)) t c id st l b e = fails st
node_place-Runs s (some (fn a x y)) t c id st l b e = fails st
node_place-Runs s (some (call a x y z)) t c id st l b e = fails st
node_place-Runs s (some (if_expr a x y z)) t c id st l b e = fails st
node_place-Runs s (some (while_expr x y)) t c id st l b e = fails st
node_place-Runs s (some (seq x y)) t c id st l b e = fails st
node_place-Runs s (some (unknown_node k)) t c id st l b e = fails st

module _ (h : Host) (room : 1024 ≤ h.size_max) where
  write_place-rooted :
      (s w : Parser) (value : ℕ) (p : Place) (c : ℕ)
      → Step s w
      → cost w < c
      → value < length w.program.nodes
      → (IsWell s.program → PlaceFits (length w.program.nodes) p)
      → Runs s (Made c) (write_place h value p w)
  unfolding write_place
  write_place-rooted s w value (local_place i) c sw l b f =
      add_node-rooted h.size_max room s w _ c sw l (λ _. b)
  write_place-rooted s w value (slot_place name) c sw l b f =
      add_node-rooted h.size_max room s w _ c sw l (λ _. b)
  write_place-rooted s w value (slot_fallback_place primary fallback) c sw l b f =
      add_node-rooted h.size_max room s w _ c sw l (λ _. b)
  write_place-rooted s w value (index_place base index) c sw l b f =
      add_node-rooted h.size_max room s w _ c sw l (λ i. ((f i).0, (f i).1, b))
  write_place-rooted s w value (field_place base name) c sw l b f =
      add_node-rooted h.size_max room s w _ c sw l (λ i. (f i, b))

  -- Passing a token that is not the end of the source.
  pub pass_token-Passed :
      (s : Parser) → weight s.current ≡ 1 → Runs s (Passed (cost s)) (pass_token h s)
  pass_token-Passed s full = Runs-weaken (pass_token-Runs h s) (λ _ t st p. omega (arith, full))

  pub skip_semicolons-Runs :
      (n : ℕ) (s : Parser) (c : ℕ)
      → cost s < n
      → cost s < c
      → Runs s (Left c) (skip_semicolons h n s)
  unfolding skip_semicolons
  skip_semicolons-Runs zero s c f l = elim f [ ]
  skip_semicolons-Runs (suc n) s c f l =
      Runs-if s _ (at semicolon s) _ _
        (λ e.
          Runs-bind (pass_token-Passed s (ground arith))
            λ _ t st p. skip_semicolons-Runs n t c (omega arith) (omega arith))
        (λ e. returns (Step-refl s) l)

module _ (h : Host) (room : 1024 ≤ h.size_max) (e n : ℕ) (fuel : e ≤ n)
    (parse_expr : Bool → Parse ℕ) (E : (top : Bool) → Parses e (parse_expr top)) where
  pub parse_expr_before_block-Runs :
      (top : Bool) → Parses e (parse_expr_before_block h parse_expr top)
  unfolding parse_expr_before_block
  parse_expr_before_block-Runs top s c f l =
      Runs-from (Step-same s (set_prefer true s) refl (omega arith)) (
        Runs-settle (E top (set_prefer true s) c f l)
          (λ t. Step-same t (set_prefer s.prefer_block_on_spaced_bracket t) refl (omega arith))
          (λ id t st p. p))

  parse_place-rooted :
      (s t : Parser) (c : ℕ)
      → Step s t
      → cost t < e
      → cost t ≤ c
      → Runs s (Placed s c) (parse_place h parse_expr t)
  unfolding parse_place
  parse_place-rooted s t c st f l =
      Runs-rooted (Runs-from st (E false t c f l))
        λ id u su p. node_place-Runs s _ u c id su p.1 p.0 refl

  pub parse_set_item-Runs : Begins e (parse_set_item h parse_expr)
  unfolding parse_set_item
  parse_set_item-Runs s c f l = Runs-rooted (expect-Runs h s kw_set (omega arith)) λ _ t st p.
      Runs-rooted (parse_place-rooted s t c st (omega arith) (omega arith)) λ place u su q.
        Runs-rooted (Runs-later su (expect_set_operator-Runs h u)) λ _ v sv (uv, r).
          Runs-rooted
            (Runs-later sv
              (E false v c (omega (arith, su.cost_le, sv.cost_le, r, q)) (omega arith)))
            λ id w sw (vw, x).
              write_place-rooted h room s w id place c sw x.1 x.0
                (λ i. PlaceFits-mono _ _ place (omega (arith, uv.nodes_le, vw.nodes_le)) (q.0 i))

  parse_local_binding_item-Runs : (t : Token) → Begins e (parse_local_binding_item h parse_expr t)
  unfolding parse_local_binding_item
  parse_local_binding_item-Runs t s c f l = Runs-bind (expect_binding_operator-Runs h s) λ _ u st p.
      Runs-bind (E false u c (omega arith) (omega arith)) λ id v sv q.
        Runs-bind (declare-Runs h t v c q.1)
          λ i w sw r. add_node-Runs h.size_max room w _ c r (omega (arith, sw.nodes_le))

  parse_here_item-Runs : Begins e (parse_here_item h parse_expr)
  unfolding parse_here_item
  parse_here_item-Runs s c f l = Runs-bind (expect-Runs h s kw_here (omega arith)) λ _ t st p.
      Runs-bind (take_name-Runs h t)
        λ name u su q. parse_local_binding_item-Runs name u c (omega arith) (omega arith)

  parse_named_item-Runs : Begins e (parse_named_item h parse_expr)
  parse_named_item-Runs s c f l =
      Runs-bind (take_name-Runs h s)
        λ name u su q. parse_local_binding_item-Runs name u c (omega arith) (omega arith)

  parse_block_item-Runs : Parses e (parse_block_item h parse_expr)
  unfolding parse_block_item
  parse_block_item-Runs s c f l =
      Runs-if s _ (at kw_here s) _ _ (λ _. parse_here_item-Runs s c (omega arith) l)
        λ _.
          Runs-if s _ (at name_token s && is_binding_operator s.next.kind) _ _
            (λ _. parse_named_item-Runs s c (omega arith) l)
            λ _.
              Runs-if s _ (at kw_set s) _ _ (λ _. parse_set_item-Runs s c (omega arith) l)
                λ _.
                  Runs-if s _ (at kw_record s) _ _ (λ _. fails (Step-refl s)) (λ _. E false s c f l)

  parse_item_of-Runs :
      (k : ℕ) (items : NodeList) (s : Parser) (c : ℕ)
      → cost s ≤ k
      → cost s < e
      → cost s ≤ c
      → Listed (suc c) items s
      → Runs s (λ r t. Listed c r t) (parse_item_of h parse_expr k items s)
  unfolding parse_item_of
  parse_item_of-Runs k items s c b f l a =
      Runs-bind (parse_block_item-Runs s (cost s) f (omega arith)) λ id t st p.
        Runs-bind
          (node_list_push-Runs h.size_max room items id t (cost s) p.1
            (AllBelow-mono _ _ items.items st.nodes_le a.0) p.0)
          λ r u su q.
            Runs-bind
              (skip_semicolons-Runs h room k u c (omega (arith, q.0.1)) (omega (arith, q.0.1)))
              λ _ v sv x. returns (Step-refl v) (AllBelow-mono _ _ r.items sv.nodes_le q.0.0, x)

  block_loop-Runs :
      (k : ℕ) (close : TokenKind) (items : NodeList) (s : Parser) (c : ℕ)
      → cost s < k
      → cost s < e
      → Listed c items s
      → Runs s (Listed c) (block_loop h parse_expr k close items s)
  unfolding block_loop
  block_loop-Runs zero close items s c k f l = elim k [ ]
  block_loop-Runs (suc k) close items s c b f l =
      Runs-if s _ (at close s) _ _ (λ _. returns (Step-refl s) l)
        λ _.
          Runs-if s _ (at eof_token s) _ _ (λ _. fails (Step-refl s))
            λ _.
              Runs-if s _ (at semicolon s) _ _
                (λ is. Runs-bind (pass_token-Passed h room s (ground arith)) λ _ t st p.
                  block_loop-Runs k close items t c (omega arith) (omega arith)
                    (AllBelow-mono _ _ items.items st.nodes_le l.0, omega (arith, l.1)))
                λ _.
                  Runs-bind
                    (parse_item_of-Runs k items s (cost s) (omega arith) f (omega arith)
                      (l.0, omega arith))
                    λ r t st p.
                      block_loop-Runs k close r t c (omega (arith, p.1)) (omega (arith, p.1))
                        (p.0, omega (arith, p.1, l.1))

  pub parse_block_contents_until-Runs :
      (close : TokenKind) (s : Parser) (c : ℕ)
      → kind_code close ≢ 0
      → cost s < e
      → cost s < c
      → Runs s (Made c) (parse_block_contents_until h parse_expr n close s)
  unfolding parse_block_contents_until
  parse_block_contents_until-Runs close s c k f l =
      Runs-bind (block_loop-Runs n close no_nodes s c (omega arith) f (tt, l)) λ items t st p.
        Runs-bind (expect-Runs h t close k) λ _ u su q.
          Runs-bind
            (node_list_flush-Runs h.size_max room items u c (omega (arith, p.1))
              (AllBelow-mono _ _ items.items su.nodes_le p.0))
            λ first v sv x. add_node-Runs h.size_max room v _ c x.1 x.0

  -- A block ends within the fuel, and its scope is popped whatever it does.
  pub parse_block-Runs : Begins e (parse_block h parse_expr n)
  unfolding parse_block
  parse_block-Runs s c f l = Runs-bind (expect_block_start-Runs h s) λ close t st (p, k).
      Runs-bind (enter_scope-Runs h t (cost s) p) λ _ u su q.
        Runs-settle (parse_block_contents_until-Runs close u c k (omega arith) (omega arith))
          pop_scope-Step (λ id v sv r. Made-pop pop_scope c id v (pop_scope-Step v) r)
