-- ===== src/Parser/Runs/Make.antt =====
-- The lists of nodes and the nodes that the parser makes (src/frothy_parser.c) fit the program. In
-- each lemma `c` is a bound on what is left.
use froth.Base.{
  ℕ, suc, ◌+◌, ◌≤◌, ◌<◌, ◌≡◌, inl, inr, Bool, true, false, List, [], ◌∷◌, ◌++◌, arith, leb, length,
  get_or, All, length-append, Bool-cases, if◌then◌else◌,
}
use froth.Status.{Result-cases}
use froth.Ir.{Literal, bool_literal, lit}
use froth.Parser.Capacity.{reserve}
use froth.Parser.State.{Parser}
use froth.Parser.Pools.{
  ir_link_capacity, NodeList, append_links, node_list_push, node_list_flush, make_literal_node,
  make_builtin_call, make_bool_condition_node, make_if_node, make_short_circuit_node,
  make_single_item_seq_node, make_top_level_write_slot_range,
}
use froth.Parser.Runs.{
  cost, RangeBelow, Step-refl, Runs, returns, fails, Runs-bind, Runs-weaken, Made,
}
use froth.Parser.Runs.Nodes.{add_node-Runs, add_literal-Runs, append_link-Runs, get_or-append_end}

abbrev pub AllBelow : ℕ → List ℕ → Type 0
AllBelow k ids = All (λ id. id < k) ids

pub AllBelow-mono : (k m : ℕ) (ids : List ℕ) → k ≤ m → AllBelow k ids → AllBelow m ids
AllBelow-mono k m [] l a = tt
AllBelow-mono k m (id ∷ ids) l (b, a) = (omega arith, AllBelow-mono k m ids l a)

pub AllBelow-append_end :
    (k : ℕ) (ids : List ℕ) (id : ℕ) → AllBelow k ids → id < k → AllBelow k (ids ++ id ∷ [])
AllBelow-append_end k [] id a b = (b, tt)
AllBelow-append_end k (x ∷ ids) id (h, a) b = (h, AllBelow-append_end k ids id a b)

-- A list of nodes that exist.
abbrev pub Listed : ℕ → NodeList → Parser → Type 0
Listed c l t = AllBelow (length t.program.nodes) l.items × (cost t < c)

-- Links that exist from `first` on and name nodes that exist.
abbrev pub Linked : ℕ → ℕ → ℕ → Parser → Type 0
Linked c count first t =
    RangeBelow t.program.links first count (length t.program.nodes) × (cost t < c)

-- One more link in front of a range.
RangeBelow-cons :
    (links : List ℕ) (first count k : ℕ)
    → first < length links
    → get_or links first 0 < k
    → RangeBelow links (suc first) count k
    → RangeBelow links first (suc count) k
RangeBelow-cons links first count k l head (fits, below) = (
  omega arith,
  λ j low high. elim (Bool-cases (leb j first)) [
    | inl at ↦ let e : j ≡ first = ground arith in rw e head
    | inr later ↦ below j (ground arith) (omega arith)
  ],
)

module _ (m : ℕ) (room : 1024 ≤ m) where
  pub append_links-Runs :
      (ids : List ℕ) (s : Parser) (c : ℕ)
      → cost s < c
      → AllBelow (length s.program.nodes) ids
      → Runs s (λ _ t. Linked c (length ids) (length s.program.links) t) (append_links m ids s)
  unfolding append_links
  append_links-Runs [] s c l a =
      returns (Step-refl s) ((omega arith, λ j low high. absurd (omega arith)), l)
  append_links-Runs (id ∷ ids) s c l (b, a) =
      Runs-bind (append_link-Runs m room s id c l) λ _ t st (p, e, k).
        let one : length t.program.links ≡ suc (length s.program.links) =
          rw e (omega (arith, length-append s.program.links (id ∷ []))) in
        let at : get_or t.program.links (length s.program.links) 0 ≡ id =
          rw e (get_or-append_end s.program.links id 0) in
        Runs-weaken
          (append_links-Runs ids t c p (AllBelow-mono _ (length t.program.nodes) ids st.nodes_le a))
          λ _ u st' (range, q). (
            RangeBelow-cons u.program.links (length s.program.links) (length ids)
                (length u.program.nodes) (omega (arith, st'.links_le, one))
                (rw (st'.links_kept (length s.program.links) (omega (arith, one)), at)
                  (omega (arith, b, st.nodes_le, st'.nodes_le)))
                (rw one at range),
            q,
          )

  pub node_list_flush-Runs :
      (l : NodeList) (s : Parser) (c : ℕ)
      → cost s < c
      → AllBelow (length s.program.nodes) l.items
      → Runs s (Linked c (length l.items)) (node_list_flush m l s)
  unfolding node_list_flush
  node_list_flush-Runs l s c p a =
      Runs-bind (append_links-Runs l.items s c p a) λ _ t st q. returns (Step-refl t) q

  pub node_list_push-Runs :
      (l : NodeList) (id : ℕ) (s : Parser) (c : ℕ)
      → cost s < c
      → AllBelow (length s.program.nodes) l.items
      → id < length s.program.nodes
      → Runs s
          (λ r t. Listed c r t × (length r.items ≡ length l.items + 1))
          (node_list_push m l id s)
  unfolding node_list_push
  node_list_push-Runs l id s c p a b =
      elim (Result-cases (reserve m 4 ir_link_capacity l.capacity (length l.items + 1))) [
        | inl (k, r) ↦ simp r (
            returns (Step-refl s) (
              (AllBelow-append_end _ l.items id a b, p),
              omega (arith, length-append l.items (id ∷ [])),
            ))
        | inr (e, r) ↦ simp r (fails (Step-refl s))
      ]

  pub make_literal_node-Runs :
      (s : Parser) (l : Literal) (c : ℕ) → cost s < c → Runs s (Made c) (make_literal_node m l s)
  unfolding make_literal_node
  make_literal_node-Runs s l c p =
      Runs-bind (add_literal-Runs m room s l c p)
        λ id t st (b, q, e). add_node-Runs m room t (lit id) c q b

  pub make_builtin_call-Runs :
      (builtin : ℕ) (args : List ℕ) (s : Parser) (c : ℕ)
      → 0 < builtin
      → cost s < c
      → AllBelow (length s.program.nodes) args
      → Runs s (Made c) (make_builtin_call m builtin args s)
  unfolding make_builtin_call
  make_builtin_call-Runs builtin args s c n p a =
      Runs-bind (append_links-Runs args s c p a)
        λ _ t st (range, q). add_node-Runs m room t _ c q (λ e. absurd (omega arith), range)

  pub make_bool_condition_node-Runs :
      (condition : ℕ) (s : Parser) (c : ℕ)
      → cost s < c
      → condition < length s.program.nodes
      → Runs s (Made c) (make_bool_condition_node m condition s)
  unfolding make_bool_condition_node
  make_bool_condition_node-Runs condition s c p b =
      Runs-bind (make_literal_node-Runs s (bool_literal true) c p) λ t u st q.
        Runs-bind (make_literal_node-Runs u (bool_literal false) c q.1)
          λ f v st' r. add_node-Runs m room v _ c r.1 (omega arith, omega arith, λ _. r.0)

  -- The last node of frothy_make_short_circuit_node
  choice-Runs :
      (is_or : Bool) (lhs t f k : ℕ) (w : Parser) (c : ℕ)
      → cost w < c
      → lhs < length w.program.nodes
      → t < length w.program.nodes
      → f < length w.program.nodes
      → k < length w.program.nodes
      → Runs w
          (Made c)
          ((if is_or then make_if_node m lhs t true k else make_if_node m lhs k true f) w)
  choice-Runs true lhs t f k w c p a b d e = add_node-Runs m room w _ c p (a, b, λ _. e)
  choice-Runs false lhs t f k w c p a b d e = add_node-Runs m room w _ c p (a, e, λ _. d)

  pub make_short_circuit_node-Runs :
      (is_or : Bool) (lhs rhs : ℕ) (s : Parser) (c : ℕ)
      → cost s < c
      → lhs < length s.program.nodes
      → rhs < length s.program.nodes
      → Runs s (Made c) (make_short_circuit_node m is_or lhs rhs s)
  unfolding make_short_circuit_node
  make_short_circuit_node-Runs is_or lhs rhs s c p b d =
      Runs-bind (make_literal_node-Runs s (bool_literal true) c p) λ t u st q.
        Runs-bind (make_literal_node-Runs u (bool_literal false) c q.1) λ f v st' r.
          Runs-bind (make_bool_condition_node-Runs rhs v c r.1 (omega arith)) λ k w st'' x.
            choice-Runs is_or lhs t f k w c x.1 (omega arith) (omega arith) (omega arith) x.0

  pub make_single_item_seq_node-Runs :
      (item : ℕ) (s : Parser) (c : ℕ)
      → cost s < c
      → item < length s.program.nodes
      → Runs s (Made c) (make_single_item_seq_node m item s)
  unfolding make_single_item_seq_node append_links
  make_single_item_seq_node-Runs item s c p b =
      Runs-bind (append_link-Runs m room s item c p) λ _ t st (q, e, k).
        let at : get_or t.program.links (length s.program.links) 0 ≡ item =
          rw e (get_or-append_end s.program.links item 0) in
        let one : length t.program.links ≡ suc (length s.program.links) =
          rw e (omega (arith, length-append s.program.links (item ∷ []))) in
        add_node-Runs m room t _ c q (
          RangeBelow-cons t.program.links (length s.program.links) 0 _ (omega (arith, one))
            (rw at (omega (arith, b, st.nodes_le)))
            (omega (arith, one), λ j low high. absurd (omega arith)))

  pub make_top_level_write_slot_range-Runs :
      (name : List ℕ) (value : ℕ) (s : Parser) (c : ℕ)
      → cost s < c
      → value < length s.program.nodes
      → Runs s (Made c) (make_top_level_write_slot_range m name value s)
  unfolding make_top_level_write_slot_range
  make_top_level_write_slot_range-Runs name value s c p b = add_node-Runs m room s _ c p b
