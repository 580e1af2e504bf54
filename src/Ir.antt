-- ===== src/Ir.antt =====
-- The data of src/frothy_ir.h: literals, nodes and programs of the intermediate code. A string is
-- the list of its bytes without the closing 0; a node id is a number, and FROTHY_IR_NODE_INVALID the
-- largest size_t.
pub mod Render
use froth.Base.{ℕ, Bool, List, ◌==◌, if◌then◌else◌}
use froth.Base.Int.{ℤ}

-- frothy_ir_literal_t. `unknown_literal` is a kind that the enumeration does not name.
pub data Literal : Type 0 where
  int_literal : ℤ → Literal
  bool_literal : Bool → Literal
  nil_literal : Literal
  text_literal : List ℕ → Literal
  unknown_literal : ℕ → Literal

-- frothy_ir_node_t, the fields in the order of the C code. `unknown_node` is a kind that the
-- enumeration does not name.
pub data Node : Type 0 where
  lit : ℕ → Node
  read_local : ℕ → Node
  write_local : ℕ → ℕ → Node
  read_slot : List ℕ → Node
  write_slot : List ℕ → ℕ → Bool → Node
  read_slot_fallback : List ℕ → List ℕ → Node
  write_slot_fallback : List ℕ → List ℕ → ℕ → Bool → Node
  slot_designator : List ℕ → Node
  record_def : List ℕ → ℕ → ℕ → Node
  read_index : ℕ → ℕ → Node
  write_index : ℕ → ℕ → ℕ → Node
  read_field : ℕ → List ℕ → Node
  write_field : ℕ → List ℕ → ℕ → Node
  fn : ℕ → ℕ → ℕ → Node
  call : ℕ → ℕ → ℕ → ℕ → Node
  if_expr : ℕ → ℕ → ℕ → Bool → Node
  while_expr : ℕ → ℕ → Node
  seq : ℕ → ℕ → Node
  unknown_node : ℕ → Node

-- frothy_ir_program_t
pub record Program : Type 0 where
  pub literals : List Literal
  pub nodes : List Node
  pub links : List ℕ
  pub root : ℕ
  pub root_local_count : ℕ

-- frothy_ir_node_kind_t
abbrev pub node_kind : Node → ℕ
node_kind (lit a) = 0
node_kind (read_local a) = 1
node_kind (write_local a b) = 2
node_kind (read_slot a) = 3
node_kind (write_slot a b c) = 4
node_kind (read_slot_fallback a b) = 5
node_kind (write_slot_fallback a b c d) = 6
node_kind (slot_designator a) = 7
node_kind (record_def a b c) = 8
node_kind (read_index a b) = 9
node_kind (write_index a b c) = 10
node_kind (read_field a b) = 11
node_kind (write_field a b c) = 12
node_kind (fn a b c) = 13
node_kind (call a b c d) = 14
node_kind (if_expr a b c d) = 15
node_kind (while_expr a b) = 16
node_kind (seq a b) = 17
node_kind (unknown_node k) = k

-- frothy_ir_node_kind_t as the value of a switch; `unknown_kind` is any other number.
pub data NodeKind : Type 0 where
  lit_kind : NodeKind
  read_local_kind : NodeKind
  write_local_kind : NodeKind
  read_slot_kind : NodeKind
  write_slot_kind : NodeKind
  read_slot_fallback_kind : NodeKind
  write_slot_fallback_kind : NodeKind
  slot_designator_kind : NodeKind
  record_def_kind : NodeKind
  read_index_kind : NodeKind
  write_index_kind : NodeKind
  read_field_kind : NodeKind
  write_field_kind : NodeKind
  fn_kind : NodeKind
  call_kind : NodeKind
  if_expr_kind : NodeKind
  while_expr_kind : NodeKind
  seq_kind : NodeKind
  unknown_kind : ℕ → NodeKind

-- `(frothy_ir_node_kind_t)k`
abbrev pub to_node_kind : ℕ → NodeKind
to_node_kind k =
    if k == 0
    then lit_kind
    else if k == 1
    then read_local_kind
    else if k == 2
    then write_local_kind
    else if k == 3
    then read_slot_kind
    else if k == 4
    then write_slot_kind
    else if k == 5
    then read_slot_fallback_kind
    else if k == 6
    then write_slot_fallback_kind
    else if k == 7
    then slot_designator_kind
    else if k == 8
    then record_def_kind
    else if k == 9
    then read_index_kind
    else if k == 10
    then write_index_kind
    else if k == 11
    then read_field_kind
    else if k == 12
    then write_field_kind
    else if k == 13
    then fn_kind
    else if k == 14
    then call_kind
    else if k == 15
    then if_expr_kind
    else if k == 16
    then while_expr_kind
    else if k == 17
    then seq_kind
    else unknown_kind k

-- frothy_ir_literal_kind_t
pub data LiteralKind : Type 0 where
  int_kind bool_kind nil_kind text_kind : LiteralKind
  other_kind : ℕ → LiteralKind

-- `(frothy_ir_literal_kind_t)k`
abbrev pub to_literal_kind : ℕ → LiteralKind
to_literal_kind k =
    if k == 0
    then int_kind
    else if k == 1
    then bool_kind
    else if k == 2
    then nil_kind
    else if k == 3
    then text_kind
    else other_kind k
