-- ===== src/Codec/Decode.antt =====
-- The decoder of literals, nodes and links in src/frothy_snapshot_codec.c: the loops of
-- frothy_snapshot_decode_code_object. The second component of its state is the storage that is left
-- for strings, from `string_cursor` to `storage_end`.
use froth.Base.{
  ℕ, ◌+◌, ◌-◌, Bool, not, ◌&&◌, List, [], leb, ltb, ◌==◌, if◌then◌else◌, length, get_or,
}
use froth.Status.{ok, err, not_persistable, snapshot_format, heap_out_of_memory}
use froth.Ir.{
  Literal, int_literal, bool_literal, nil_literal, text_literal, unknown_literal, Node, lit,
  read_local, write_local, read_slot, write_slot, read_slot_fallback, write_slot_fallback,
  slot_designator, read_index, write_index, read_field, write_field, fn, call, if_expr, while_expr,
  seq, unknown_node, LiteralKind, int_kind, bool_kind, nil_kind, text_kind, other_kind,
  to_literal_kind, NodeKind, lit_kind, read_local_kind, write_local_kind, read_slot_kind,
  write_slot_kind, read_slot_fallback_kind, write_slot_fallback_kind, slot_designator_kind,
  record_def_kind, read_index_kind, write_index_kind, read_field_kind, write_field_kind, fn_kind,
  call_kind, if_expr_kind, while_expr_kind, seq_kind, unknown_kind, to_node_kind,
}
use froth.Codec.Get.{
  Get, Input, ◌>>=◌, ◌>>◌, on_bytes, give, reject, require, read_u8, read_u32, read_i32, read_bytes,
  read_string_bytes,
}
use froth.Codec.Nodes.{decode_node_id}

-- frothy_snapshot_copy_string
unfoldable pub copy_string : List ℕ → Get Input (List ℕ)
copy_string name (bs, room) =
    if ltb room (length name + 1)
    then err heap_out_of_memory
    else ok (name, (bs, room - (length name + 1)))

-- frothy_snapshot_copy_symbol_string
abbrev pub copy_symbol : List (List ℕ) → ℕ → Get Input (List ℕ)
copy_symbol symbols i = copy_string (get_or symbols i [])

abbrev pub u8 : Get Input ℕ
u8 = on_bytes read_u8

abbrev pub u32 : Get Input ℕ
u32 = on_bytes read_u32

-- `value != 0`
abbrev pub is_set : ℕ → Bool
is_set b = not (b == 0)

-- The switch over the kind of a literal.
unfoldable pub decode_literal_fields : LiteralKind → Get Input Literal
unfolding copy_string read_u8 read_u32 read_bytes
decode_literal_fields int_kind = on_bytes read_i32 >>= λ z. give (int_literal z)
decode_literal_fields bool_kind = u8 >>= λ b. give (bool_literal (is_set b))
decode_literal_fields nil_kind = give nil_literal
decode_literal_fields text_kind =
    u32 >>= λ n. on_bytes (read_bytes n) >>= λ bs. copy_string bs >>= λ t. give (text_literal t)
decode_literal_fields (other_kind k) = give (unknown_literal k)

unfoldable pub decode_literal : Get Input Literal
unfolding decode_literal_fields read_u8
decode_literal = u8 >>= λ k. decode_literal_fields (to_literal_kind k)

module _ (symbols : List (List ℕ)) where
  -- `symbol_index < symbol_count`
  abbrev pub known : ℕ → Bool
  known i = not (leb (length symbols) i)

  -- The cases of one symbol.
  abbrev pub named : ℕ → (List ℕ → Node) → Get Input Node
  named i node =
      require (known i) snapshot_format >> (copy_symbol symbols i >>= λ name. give (node name))

  -- The cases of a symbol and another that stands in for it.
  abbrev pub named_fallback : ℕ → ℕ → (List ℕ → List ℕ → Node) → Get Input Node
  named_fallback i j node =
      require (known i && known j) snapshot_format
      >> (copy_symbol symbols i >>= λ name.
          copy_symbol symbols j >>= λ other. give (node name other))

module _ (invalid : ℕ) (symbols : List (List ℕ)) where
  -- The switch over the kind of a node.
  unfoldable pub decode_fields : NodeKind → Get Input Node
  unfolding copy_string read_u8 read_u32 read_string_bytes
  decode_fields lit_kind = u32 >>= λ id. give (lit id)
  decode_fields read_local_kind = u32 >>= λ i. give (read_local i)
  decode_fields write_local_kind = u32 >>= λ i. u32 >>= λ v. give (write_local i v)
  decode_fields read_slot_kind = u32 >>= λ i. named symbols i read_slot
  decode_fields write_slot_kind =
      u32 >>= λ i. u32 >>= λ v. u8 >>= λ b. named symbols i λ name. write_slot name v (is_set b)
  decode_fields read_slot_fallback_kind =
      u32 >>= λ i. u32 >>= λ j. named_fallback symbols i j read_slot_fallback
  decode_fields write_slot_fallback_kind = u32 >>= λ i. u32 >>= λ j. u32 >>= λ v. u8 >>= λ b.
      named_fallback symbols i j λ name other. write_slot_fallback name other v (is_set b)
  decode_fields slot_designator_kind = u32 >>= λ i. named symbols i slot_designator
  decode_fields record_def_kind = reject not_persistable
  decode_fields read_index_kind = u32 >>= λ base. u32 >>= λ i. give (read_index base i)
  decode_fields write_index_kind =
      u32 >>= λ base. u32 >>= λ i. u32 >>= λ v. give (write_index base i v)
  decode_fields read_field_kind = u32 >>= λ base.
      on_bytes read_string_bytes >>= λ bs. copy_string bs >>= λ name. give (read_field base name)
  decode_fields write_field_kind = u32 >>= λ base. on_bytes read_string_bytes >>= λ bs.
      u32 >>= λ v. copy_string bs >>= λ name. give (write_field base name v)
  decode_fields fn_kind =
      u32 >>= λ arity. u32 >>= λ locals. u32 >>= λ body. give (fn arity locals body)
  decode_fields call_kind = u8 >>= λ builtin. u32 >>= λ callee.
      u32 >>= λ first. u32 >>= λ n. give (call builtin (decode_node_id invalid callee) first n)
  decode_fields if_expr_kind = u32 >>= λ c.
      u32 >>= λ t. u32 >>= λ e. u8 >>= λ b. give (if_expr c t (decode_node_id invalid e) (is_set b))
  decode_fields while_expr_kind = u32 >>= λ c. u32 >>= λ body. give (while_expr c body)
  decode_fields seq_kind = u32 >>= λ first. u32 >>= λ n. give (seq first n)
  decode_fields (unknown_kind k) = give (unknown_node k)

  unfoldable pub decode_node : Get Input Node
  unfolding decode_fields read_u8
  decode_node = u8 >>= λ k. decode_fields (to_node_kind k)
