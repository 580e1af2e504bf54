-- ===== src/Parser/Runs/Nodes.antt =====
-- Adding to the pools keeps the program well formed (src/frothy_parser.c).
use froth.Base.{
  ℕ, zero, suc, ◌+◌, ◌≤◌, ◌<◌, ◌≡◌, refl, sym, ◌∙◌, ap, ◌⊎◌, inl, inr, some, List, [], ◌∷◌, ◌++◌,
  arith, length, get_elem?, get_or, length-append,
}
use froth.Status.{ok, Result-cases}
use froth.Ir.{
  Literal, Node, lit, read_local, write_local, read_slot, write_slot, read_slot_fallback,
  write_slot_fallback, slot_designator, record_def, read_index, write_index, read_field,
  write_field, fn, call, if_expr, while_expr, seq, unknown_node,
}
use froth.Parser.Capacity.{Reserved, reserve_bounds}
use froth.Parser.State.{Pools, Parser}
use froth.Parser.Pools.{
  ir_literal_capacity, ir_node_capacity, ir_link_capacity, reserve_literals, reserve_nodes,
  reserve_links, literal_added, node_added, link_added, with_program, add_literal, add_node,
  append_link, make_literal_node,
}
use froth.Parser.Runs.{
  cost, RangeBelow, NodeFits, IsWell, Step, Step-refl, Runs, returns, fails, Runs-bind, Runs-weaken,
  Made,
}

module _ {A : Type 0} where
  get_elem?-append_end :
      (xs : List A) (x : A) (i : ℕ) (y : A)
      → get_elem? (xs ++ x ∷ []) i ≡ some y
      → (get_elem? xs i ≡ some y) ⊎ ((i ≡ length xs) × (x ≡ y))
  get_elem?-append_end [] x zero y e = inr (refl, ground arith)
  get_elem?-append_end [] x (suc i) y e = cc
  get_elem?-append_end (z ∷ xs) x zero y e = inl e
  get_elem?-append_end (z ∷ xs) x (suc i) y e = elim (get_elem?-append_end xs x i y e) [
    | inl old ↦ inl old
    | inr (at, is) ↦ inr (ap suc at, is)
  ]

  pub get_or-append_left :
      (xs ys : List A) (j : ℕ) (d : A) → j < length xs → get_or (xs ++ ys) j d ≡ get_or xs j d
  get_or-append_left [] ys j d l = elim l [ ]
  get_or-append_left (x ∷ xs) ys zero d l = refl
  get_or-append_left (x ∷ xs) ys (suc j) d l = get_or-append_left xs ys j d (omega arith)

  pub get_or-append_end : (xs : List A) (x d : A) → get_or (xs ++ x ∷ []) (length xs) d ≡ x
  get_or-append_end [] x d = refl
  get_or-append_end (y ∷ xs) x d = get_or-append_end xs x d

-- The links of `ls` are the first ones of `ls'`.
abbrev pub Extends : List ℕ → List ℕ → Type 0
Extends ls ls' =
    (length ls ≤ length ls') × ((j : ℕ) → j < length ls → get_or ls' j 0 ≡ get_or ls j 0)

pub RangeBelow-mono :
    (ls ls' : List ℕ) (first count b b' : ℕ)
    → Extends ls ls'
    → b ≤ b'
    → RangeBelow ls first count b
    → RangeBelow ls' first count b'
RangeBelow-mono ls ls' first count b b' (l, k) m (fits, below) =
    (omega arith, λ j low high. rw (k j (omega arith)) (omega (arith, below j low high)))

NodeFits-mono :
    (l l' : ℕ) (ls ls' : List ℕ) (i : ℕ) (n : Node)
    → l ≤ l'
    → Extends ls ls'
    → NodeFits l ls i n
    → NodeFits l' ls' i n
NodeFits-mono l l' ls ls' i (lit id) m e f = omega arith
NodeFits-mono l l' ls ls' i (record_def a first count) m e f = f
NodeFits-mono l l' ls ls' i (call builtin callee first count) m e (f, g) =
    (f, RangeBelow-mono ls ls' first count i i e (omega arith) g)
NodeFits-mono l l' ls ls' i (seq first count) m e f =
    RangeBelow-mono ls ls' first count i i e (omega arith) f
NodeFits-mono l l' ls ls' i (read_local a) m e f = f
NodeFits-mono l l' ls ls' i (write_local a value) m e f = f
NodeFits-mono l l' ls ls' i (read_slot a) m e f = f
NodeFits-mono l l' ls ls' i (write_slot a value b) m e f = f
NodeFits-mono l l' ls ls' i (read_slot_fallback a b) m e f = f
NodeFits-mono l l' ls ls' i (write_slot_fallback a b value c) m e f = f
NodeFits-mono l l' ls ls' i (slot_designator a) m e f = f
NodeFits-mono l l' ls ls' i (read_index base index) m e f = f
NodeFits-mono l l' ls ls' i (write_index base index value) m e f = f
NodeFits-mono l l' ls ls' i (read_field base a) m e f = f
NodeFits-mono l l' ls ls' i (write_field base a value) m e f = f
NodeFits-mono l l' ls ls' i (fn a b body) m e f = f
NodeFits-mono l l' ls ls' i (if_expr condition t o b) m e f = f
NodeFits-mono l l' ls ls' i (while_expr condition body) m e f = f
NodeFits-mono l l' ls ls' i (unknown_node k) m e f = f

Extends-refl : (ls : List ℕ) → Extends ls ls
Extends-refl ls = (omega arith, λ j l. refl)

Extends-append : (ls ms : List ℕ) → Extends ls (ls ++ ms)
Extends-append ls ms = (omega (arith, length-append ls ms), λ j l. get_or-append_left ls ms j 0 l)

module _ (m : ℕ) (room : 1024 ≤ m) where
  node_added-IsWell :
      (p : Pools) (n : Node) (c : ℕ)
      → NodeFits (length p.literals) p.links (length p.nodes) n
      → reserve_nodes m 1 p ≡ ok c
      → IsWell p
      → IsWell (node_added m n p c)
  node_added-IsWell p n c f r w =
      let reserved : Reserved 16 (length p.nodes + 1) ir_node_capacity p.node_capacity (ok c) =
        rw r at (
          reserve_bounds m 16 ir_node_capacity p.node_capacity (length p.nodes + 1) (omega arith)
            (omega arith) (omega arith)) in
      record {
        literals_fit = w.literals_fit;
        literals_limit = w.literals_limit;
        nodes_fit = omega (arith, length-append p.nodes (n ∷ []), reserved);
        nodes_limit = reserved.1;
        links_fit = w.links_fit;
        links_limit = w.links_limit;
        node_fits = λ i k e. elim (get_elem?-append_end p.nodes n i k e) [
          | inl old ↦ w.node_fits i k old
          | inr (at, is) ↦ rw (at, sym is) f
        ];
      }

  literal_added-IsWell :
      (p : Pools) (l : Literal) (c : ℕ)
      → reserve_literals m 1 p ≡ ok c
      → IsWell p
      → IsWell (literal_added m l p c)
  literal_added-IsWell p l c r w =
      let reserved : Reserved 8 (length p.literals + 1) ir_literal_capacity p.literal_capacity
          (ok c) =
        rw r at (
          reserve_bounds m 8 ir_literal_capacity p.literal_capacity (length p.literals + 1)
            (omega arith) (omega arith) (omega arith)) in
      record {
        literals_fit = omega (arith, length-append p.literals (l ∷ []), reserved);
        literals_limit = reserved.1;
        nodes_fit = w.nodes_fit;
        nodes_limit = w.nodes_limit;
        links_fit = w.links_fit;
        links_limit = w.links_limit;
        node_fits = λ i k e.
            NodeFits-mono _ _ p.links p.links i k (omega (arith, length-append p.literals (l ∷ [])))
              (Extends-refl p.links) (w.node_fits i k e);
      }

  link_added-IsWell :
      (p : Pools) (id c : ℕ) → reserve_links m 1 p ≡ ok c → IsWell p → IsWell (link_added m id p c)
  link_added-IsWell p id c r w =
      let reserved : Reserved 16 (length p.links + 1) ir_link_capacity p.link_capacity (ok c) =
        rw r at (
          reserve_bounds m 16 ir_link_capacity p.link_capacity (length p.links + 1) (omega arith)
            (omega arith) (omega arith)) in
      record {
        literals_fit = w.literals_fit;
        literals_limit = w.literals_limit;
        nodes_fit = w.nodes_fit;
        nodes_limit = w.nodes_limit;
        links_fit = omega (arith, length-append p.links (id ∷ []), reserved);
        links_limit = reserved.1;
        node_fits = λ i k e.
            NodeFits-mono (length p.literals) (length p.literals) p.links (p.links ++ id ∷ []) i k
              (omega arith) (Extends-append p.links (id ∷ [])) (w.node_fits i k e);
      }

  -- The current token stays.
  abbrev pub Kept : ℕ → Parser → ℕ → Parser → Type 0
  Kept c w id t = Made c id t × (t.current ≡ w.current)

  -- A node is added that fits where the program of `s` is well formed; `c` is a bound on what is
  -- left.
  add_node-Kept :
      (s w : Parser) (n : Node) (c : ℕ)
      → Step s w
      → cost w < c
      → (IsWell s.program
          → NodeFits (length w.program.literals) w.program.links (length w.program.nodes) n)
      → Runs s (Kept c w) (add_node m n w)
  unfolding add_node
  add_node-Kept s w n c sw l f = elim (Result-cases (reserve_nodes m 1 w.program)) [
    | inl (k, r) ↦
        let t : Parser = with_program m w (node_added m n w.program k) in
        let longer = length-append w.program.nodes (n ∷ []) in
        let st : Step s t = record {
          cost_le = sw.cost_le;
          literals_le = sw.literals_le;
          nodes_le = omega (arith, longer, sw.nodes_le);
          links_le = sw.links_le;
          links_kept = sw.links_kept;
          keeps = λ i. node_added-IsWell w.program n k (f i) r (sw.keeps i);
        } in
        let made : Made c (length w.program.nodes) t = (omega (arith, longer), l) in
        simp r (returns st (made, refl))
    | inr (e, r) ↦ simp r (fails sw)
  ]

  pub add_node-rooted :
      (s w : Parser) (n : Node) (c : ℕ)
      → Step s w
      → cost w < c
      → (IsWell s.program
          → NodeFits (length w.program.literals) w.program.links (length w.program.nodes) n)
      → Runs s (Made c) (add_node m n w)
  add_node-rooted s w n c sw l f = Runs-weaken (add_node-Kept s w n c sw l f) (λ id t st p. p.0)

  pub add_node-Runs :
      (s : Parser) (n : Node) (c : ℕ)
      → cost s < c
      → NodeFits (length s.program.literals) s.program.links (length s.program.nodes) n
      → Runs s (Made c) (add_node m n s)
  add_node-Runs s n c l f = add_node-rooted s s n c (Step-refl s) l (λ i. f)

  pub add_literal-Runs :
      (s : Parser) (l : Literal) (c : ℕ)
      → cost s < c
      → Runs s
          (λ id t. (id < length t.program.literals) × (cost t < c) × (t.current ≡ s.current))
          (add_literal m l s)
  unfolding add_literal
  add_literal-Runs s l c b = elim (Result-cases (reserve_literals m 1 s.program)) [
    | inl (k, r) ↦
        let t : Parser = with_program m s (literal_added m l s.program k) in
        let longer = length-append s.program.literals (l ∷ []) in
        let st : Step s t = record {
          cost_le = omega arith;
          literals_le = omega (arith, longer);
          nodes_le = omega arith;
          links_le = omega arith;
          links_kept = λ j l. refl;
          keeps = literal_added-IsWell s.program l k r;
        } in
        simp r (returns st (omega (arith, longer), b, refl))
    | inr (e, r) ↦ simp r (fails (Step-refl s))
  ]

  pub append_link-Runs :
      (s : Parser) (id c : ℕ)
      → cost s < c
      → Runs s
          (λ _ t.
            (cost t < c) × (t.program.links ≡ s.program.links ++ id ∷ []) × (t.current ≡ s.current))
          (append_link m id s)
  unfolding append_link
  append_link-Runs s id c b = elim (Result-cases (reserve_links m 1 s.program)) [
    | inl (k, r) ↦
        let t : Parser = with_program m s (link_added m id s.program k) in
        let st : Step s t = record {
          cost_le = omega arith;
          literals_le = omega arith;
          nodes_le = omega arith;
          links_le = omega (arith, length-append s.program.links (id ∷ []));
          links_kept = λ j l. get_or-append_left s.program.links (id ∷ []) j 0 l;
          keeps = link_added-IsWell s.program id k r;
        } in
        simp r (returns st (b, refl, refl))
    | inr (e, r) ↦ simp r (fails (Step-refl s))
  ]

  -- A literal and its node; the current token stays.
  pub make_literal_node-Kept :
      (s : Parser) (l : Literal) (c : ℕ) → cost s < c → Runs s (Kept c s) (make_literal_node m l s)
  unfolding make_literal_node
  make_literal_node-Kept s l c p = Runs-bind (add_literal-Runs s l c p) λ id t st (b, q, e).
      Runs-weaken (add_node-Kept t t (lit id) c (Step-refl t) q (λ _. b))
        λ i u su (r, k). (r, k ∙ e)
