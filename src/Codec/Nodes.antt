-- ===== src/Codec/Nodes.antt =====
-- Literals and nodes of the intermediate code in src/frothy_snapshot_codec.c: the cases of
-- frothy_snapshot_write_literal, frothy_snapshot_write_node and frothy_snapshot_decode_code_object.
-- `invalid` is FROTHY_IR_NODE_INVALID, the largest size_t. The second component of the decoder's
-- state is what is left of the storage behind `string_cursor`.
pub mod Portable
pub mod Ends
pub mod RoundTrip
use froth.Base.{
  ℕ, ◌+◌, ◌-◌, ◌%◌, ◌^◌, Bool, not, ◌&&◌, ◌||◌, List, [], leb, ltb, ◌==◌, if◌then◌else◌, length,
  get_or,
}
use froth.Base.Int.{ℤ, to_i32}
use froth.Status.{Error, Result, ok, err, not_persistable, snapshot_format, heap_out_of_memory}
use froth.Ir.{
  Literal, int_literal, bool_literal, nil_literal, text_literal, unknown_literal, Node, node_kind,
  lit, read_local, write_local, read_slot, write_slot, read_slot_fallback, write_slot_fallback,
  slot_designator, record_def, read_index, write_index, read_field, write_field, fn, call, if_expr,
  while_expr, seq, unknown_node,
}
use froth.Codec.Put.{
  Put, Writer, ◌>>◌, skip, write_u8, write_u32, write_i32, write_bytes, write_string, flag,
}
use froth.Codec.Get.{
  Get, Input, ◌>>=◌, carry, on_bytes, give, read_u8, read_u32, read_i32, read_bytes,
  read_string_bytes,
}
use froth.Codec.Symbols.{symbol_index}

abbrev pub fail : Error → Put
fail e w = (err e, w)

-- frothy_snapshot_write_literal
unfoldable pub write_literal : Literal → Put
unfolding write_bytes
write_literal (int_literal z) = write_u8 0 >> write_i32 z
write_literal (bool_literal b) = write_u8 1 >> write_u8 (flag b)
write_literal nil_literal = write_u8 2 >> skip
write_literal (text_literal t) = write_u8 3 >> write_u32 (length t) >> write_bytes t
write_literal (unknown_literal k) = write_u8 k >> fail snapshot_format

-- FROTH_TRY of a frothy_snapshot_symbol_index
abbrev pub indexed : Result ℕ → (ℕ → Put) → Put
indexed (ok i) k = k i
indexed (err e) k = fail e

module _ (invalid : ℕ) where
  -- frothy_snapshot_encode_node_id
  abbrev pub encode_node_id : ℕ → ℕ
  encode_node_id id = if id == invalid then 2 ^ 32 - 1 else id % 2 ^ 32

  -- The way back in frothy_snapshot_decode_code_object.
  abbrev pub decode_node_id : ℕ → ℕ
  decode_node_id id = if id == 2 ^ 32 - 1 then invalid else id

  -- The switch of frothy_snapshot_write_node.
  unfoldable pub write_fields : List (List ℕ) → Node → Put
  unfolding symbol_index write_bytes write_string
  write_fields symbols (lit id) = write_u32 id
  write_fields symbols (read_local i) = write_u32 i
  write_fields symbols (write_local i v) = write_u32 i >> write_u32 v
  write_fields symbols (read_slot name) = indexed (symbol_index symbols name) λ i. write_u32 i
  write_fields symbols (read_slot_fallback name other) =
      indexed (symbol_index symbols name)
        λ i. indexed (symbol_index symbols other) λ j. write_u32 i >> write_u32 j
  write_fields symbols (write_slot name v existing) =
      indexed (symbol_index symbols name)
        λ i. write_u32 i >> write_u32 v >> write_u8 (flag existing)
  write_fields symbols (write_slot_fallback name other v existing) =
      indexed (symbol_index symbols name) λ i.
        indexed (symbol_index symbols other)
          λ j. write_u32 i >> write_u32 j >> write_u32 v >> write_u8 (flag existing)
  write_fields symbols (slot_designator name) = indexed (symbol_index symbols name) λ i. write_u32 i
  write_fields symbols (record_def name first n) = fail not_persistable
  write_fields symbols (read_index base i) = write_u32 base >> write_u32 i
  write_fields symbols (write_index base i v) = write_u32 base >> write_u32 i >> write_u32 v
  write_fields symbols (read_field base name) = write_u32 base >> write_string name
  write_fields symbols (write_field base name v) =
      write_u32 base >> write_string name >> write_u32 v
  write_fields symbols (fn arity locals body) =
      write_u32 arity >> write_u32 locals >> write_u32 body
  write_fields symbols (call builtin callee first n) =
      write_u8 builtin >> write_u32 (encode_node_id callee) >> write_u32 first >> write_u32 n
  write_fields symbols (if_expr c t e has_else) =
      write_u32 c >> write_u32 t >> write_u32 (encode_node_id e) >> write_u8 (flag has_else)
  write_fields symbols (while_expr c body) = write_u32 c >> write_u32 body
  write_fields symbols (seq first n) = write_u32 first >> write_u32 n
  write_fields symbols (unknown_node k) = fail snapshot_format

  -- frothy_snapshot_write_node
  unfoldable pub write_node : List (List ℕ) → Node → Put
  unfolding write_fields write_bytes
  write_node symbols node = write_u8 (node_kind node) >> write_fields symbols node
