-- ===== src/Parser/Pools.antt =====
-- The pools of the growing program, and the nodes that the parser makes (src/frothy_parser.c).
use froth.Base.{
  ℕ, ◌+◌, Bool, true, false, Option, none, some, List, [], ◌∷◌, ◌++◌, if◌then◌else◌, length,
}
use froth.Base.Int.{ℤ}
use froth.Status.{Result}
use froth.Ir.{
  Literal, int_literal, bool_literal, nil_literal, text_literal, Node, lit, read_local, write_local,
  read_slot, write_slot, read_slot_fallback, write_slot_fallback, slot_designator, record_def,
  read_index, write_index, read_field, write_field, fn, call, if_expr, while_expr, seq,
}
use froth.Parser.Capacity.{reserve}
use froth.Parser.Token.{Token, token_text}
use froth.Parser.State.{Pools, Parser, Parse, ◌>>=◌, ◌>>◌, pure, get, put, of_result}

-- FROTHY_IR_LITERAL_CAPACITY
abbrev pub ir_literal_capacity : ℕ
ir_literal_capacity = 128

-- FROTHY_IR_NODE_CAPACITY
abbrev pub ir_node_capacity : ℕ
ir_node_capacity = 512

-- FROTHY_IR_LINK_CAPACITY
abbrev pub ir_link_capacity : ℕ
ir_link_capacity = 512

-- frothy_node_list_t
pub record NodeList : Type 0 where
  pub items : List ℕ
  pub capacity : ℕ

-- A list after its memset.
abbrev pub no_nodes : NodeList
no_nodes = record { items = []; capacity = 0 }

-- frothy_join_prefix_name
unfoldable pub join_prefix_name : Option (List ℕ) → List ℕ → List ℕ
join_prefix_name none name = name
join_prefix_name (some []) name = name
join_prefix_name (some (b ∷ bs)) name = (b ∷ bs) ++ (b'.' ∷ name)

module _ (size_max : ℕ) where
  -- frothy_program_reserve_literals
  abbrev pub reserve_literals : ℕ → Pools → Result ℕ
  reserve_literals extra p =
      reserve size_max 8 ir_literal_capacity p.literal_capacity (length p.literals + extra)

  -- frothy_program_reserve_nodes
  abbrev pub reserve_nodes : ℕ → Pools → Result ℕ
  reserve_nodes extra p =
      reserve size_max 16 ir_node_capacity p.node_capacity (length p.nodes + extra)

  -- frothy_program_reserve_links
  abbrev pub reserve_links : ℕ → Pools → Result ℕ
  reserve_links extra p =
      reserve size_max 16 ir_link_capacity p.link_capacity (length p.links + extra)

  abbrev pub literal_added : Literal → Pools → ℕ → Pools
  literal_added l p c = record p { literals = p.literals ++ l ∷ []; literal_capacity = c }

  abbrev pub node_added : Node → Pools → ℕ → Pools
  node_added n p c = record p { nodes = p.nodes ++ n ∷ []; node_capacity = c }

  abbrev pub link_added : ℕ → Pools → ℕ → Pools
  link_added id p c = record p { links = p.links ++ id ∷ []; link_capacity = c }

  abbrev pub with_program : Parser → Pools → Parser
  with_program s p = record s { program = p }

  -- frothy_program_add_literal: the id of the literal.
  unfoldable pub add_literal : Literal → Parse ℕ
  add_literal l = do
    s ← get
    c ← of_result (reserve_literals 1 s.program)
    put (with_program s (literal_added l s.program c))
    pure (length s.program.literals)

  -- frothy_program_add_node: the id of the node.
  unfoldable pub add_node : Node → Parse ℕ
  add_node n = do
    s ← get
    c ← of_result (reserve_nodes 1 s.program)
    put (with_program s (node_added n s.program c))
    pure (length s.program.nodes)

  -- frothy_program_append_link
  unfoldable pub append_link : ℕ → Parse (Unit {0})
  append_link id = do
    s ← get
    c ← of_result (reserve_links 1 s.program)
    put (with_program s (link_added id s.program c))

  -- frothy_node_list_push
  unfoldable pub node_list_push : NodeList → ℕ → Parse NodeList
  node_list_push l id = do
    c ← of_result (reserve size_max 4 ir_link_capacity l.capacity (length l.items + 1))
    pure (record { items = l.items ++ id ∷ []; capacity = c })

  -- The loop of frothy_node_list_flush, and that of frothy_make_builtin_call.
  unfoldable pub append_links : List ℕ → Parse (Unit {0})
  append_links [] = pure tt
  append_links (id ∷ ids) = append_link id >> append_links ids

  -- frothy_node_list_flush: the place of the first link.
  unfoldable pub node_list_flush : NodeList → Parse ℕ
  node_list_flush l = do s ← get; append_links l.items; pure (length s.program.links)

  -- frothy_make_literal_node
  unfoldable pub make_literal_node : Literal → Parse ℕ
  make_literal_node l = do id ← add_literal l; add_node (lit id)

  -- frothy_make_int_literal_node
  abbrev pub make_int_literal_node : ℤ → Parse ℕ
  make_int_literal_node z = make_literal_node (int_literal z)

  -- frothy_make_bool_literal_node
  abbrev pub make_bool_literal_node : Bool → Parse ℕ
  make_bool_literal_node b = make_literal_node (bool_literal b)

  -- frothy_make_nil_literal_node
  abbrev pub make_nil_literal_node : Parse ℕ
  make_nil_literal_node = make_literal_node nil_literal

  -- frothy_add_text_literal
  abbrev pub add_text_literal : List ℕ → Parse ℕ
  add_text_literal bs = add_literal (text_literal bs)

  -- frothy_make_read_local_node
  abbrev pub make_read_local_node : ℕ → Parse ℕ
  make_read_local_node i = add_node (read_local i)

  -- frothy_make_write_local_node
  abbrev pub make_write_local_node : ℕ → ℕ → Parse ℕ
  make_write_local_node i value = add_node (write_local i value)

  -- frothy_make_read_slot_node
  abbrev pub make_read_slot_node : List ℕ → Parse ℕ
  make_read_slot_node name = add_node (read_slot name)

  -- frothy_make_read_slot_fallback_node
  abbrev pub make_read_slot_fallback_node : List ℕ → List ℕ → Parse ℕ
  make_read_slot_fallback_node primary fallback = add_node (read_slot_fallback primary fallback)

  -- frothy_make_write_slot_node
  abbrev pub make_write_slot_node : List ℕ → ℕ → Bool → Parse ℕ
  make_write_slot_node name value require_existing =
      add_node (write_slot name value require_existing)

  -- frothy_make_write_slot_fallback_node
  abbrev pub make_write_slot_fallback_node : List ℕ → List ℕ → ℕ → Bool → Parse ℕ
  make_write_slot_fallback_node primary fallback value require_existing =
      add_node (write_slot_fallback primary fallback value require_existing)

  -- frothy_make_slot_designator_node
  abbrev pub make_slot_designator_node : List ℕ → Parse ℕ
  make_slot_designator_node name = add_node (slot_designator name)

  -- frothy_make_record_def_node
  abbrev pub make_record_def_node : List ℕ → ℕ → ℕ → Parse ℕ
  make_record_def_node name first count = add_node (record_def name first count)

  -- frothy_make_read_index_node
  abbrev pub make_read_index_node : ℕ → ℕ → Parse ℕ
  make_read_index_node base index = add_node (read_index base index)

  -- frothy_make_write_index_node
  abbrev pub make_write_index_node : ℕ → ℕ → ℕ → Parse ℕ
  make_write_index_node base index value = add_node (write_index base index value)

  -- frothy_make_read_field_node
  abbrev pub make_read_field_node : ℕ → List ℕ → Parse ℕ
  make_read_field_node base name = add_node (read_field base name)

  -- frothy_make_write_field_node
  abbrev pub make_write_field_node : ℕ → List ℕ → ℕ → Parse ℕ
  make_write_field_node base name value = add_node (write_field base name value)

  -- frothy_make_fn_node
  abbrev pub make_fn_node : ℕ → ℕ → ℕ → Parse ℕ
  make_fn_node arity local_count body = add_node (fn arity local_count body)

  -- frothy_make_call_node
  abbrev pub make_call_node : ℕ → ℕ → ℕ → ℕ → Parse ℕ
  make_call_node builtin callee first count = add_node (call builtin callee first count)

  -- frothy_make_if_node
  abbrev pub make_if_node : ℕ → ℕ → Bool → ℕ → Parse ℕ
  make_if_node condition then_branch has_else else_branch =
      add_node (if_expr condition then_branch else_branch has_else)

  -- frothy_make_while_node
  abbrev pub make_while_node : ℕ → ℕ → Parse ℕ
  make_while_node condition body = add_node (while_expr condition body)

  -- frothy_make_seq_node
  abbrev pub make_seq_node : ℕ → ℕ → Parse ℕ
  make_seq_node first count = add_node (seq first count)

  -- frothy_make_single_item_seq_node
  unfoldable pub make_single_item_seq_node : ℕ → Parse ℕ
  make_single_item_seq_node item = do
    s ← get
    append_link item
    make_seq_node (length s.program.links) 1

  -- frothy_make_top_level_write_slot_range
  unfoldable pub make_top_level_write_slot_range : List ℕ → ℕ → Parse ℕ
  make_top_level_write_slot_range name value = do
    s ← get
    make_write_slot_node (join_prefix_name s.active_prefix name) value false

  -- frothy_make_top_level_write_slot_token
  abbrev pub make_top_level_write_slot_token : Token → ℕ → Parse ℕ
  make_top_level_write_slot_token t value = make_top_level_write_slot_range (token_text t) value

  -- frothy_make_builtin_call. The callee is FROTHY_IR_NODE_INVALID.
  unfoldable pub make_builtin_call : ℕ → List ℕ → Parse ℕ
  make_builtin_call builtin args = do
    s ← get
    append_links args
    make_call_node builtin size_max (length s.program.links) (length args)

  -- frothy_make_bool_condition_node
  unfoldable pub make_bool_condition_node : ℕ → Parse ℕ
  make_bool_condition_node condition = do
    t ← make_bool_literal_node true
    f ← make_bool_literal_node false
    make_if_node condition t true f

  -- frothy_make_short_circuit_node
  unfoldable pub make_short_circuit_node : Bool → ℕ → ℕ → Parse ℕ
  make_short_circuit_node is_or lhs rhs = do
    t ← make_bool_literal_node true
    f ← make_bool_literal_node false
    b ← make_bool_condition_node rhs
    if is_or then make_if_node lhs t true b else make_if_node lhs b true f
