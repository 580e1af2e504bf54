-- ===== src/Codec/Nodes/RoundTrip.antt =====
-- Literals and nodes of src/frothy_snapshot_codec.c are decoded as they were written.
use froth.Base.{ℕ, ◌+◌, ◌^◌, ◌<◌, ap, ◌∙◌, List, arith, length}
use froth.Status.{ok, snapshot_format, not_persistable}
use froth.Ir.{
  Node, lit, read_local, write_local, read_slot, write_slot, read_slot_fallback,
  write_slot_fallback, slot_designator, record_def, read_index, write_index, read_field,
  write_field, fn, call, if_expr, while_expr, seq, unknown_node, node_kind, to_node_kind,
}
use froth.Codec.Put.{flag}
use froth.Codec.Transmit.{Transmits, next, last}
use froth.Codec.Fields.{u8-Sends, u32-Sends, string-Sends}
use froth.Codec.Symbols.{symbol_index}
use froth.Codec.Nodes.{write_fields, write_node, encode_node_id}
use froth.Codec.Decode.{decode_fields, decode_node}
use froth.Codec.Nodes.Portable.{
  node_room, IsPortable, ended, fails, through_index, decode-encode_id, encoded_small, flag_small,
}
use froth.Codec.Nodes.Ends.{
  named_lem, named_fallback_lem, index_small, copied_then, write_slot_end, write_slot_fallback_end,
  if_end,
}

module _ (invalid : ℕ) (symbols : List (List ℕ)) (small : length symbols < 2 ^ 32) where
  fields_lem :
      (node : Node)
      → IsPortable invalid node
      → Transmits
          (write_fields invalid symbols node)
          (decode_fields invalid symbols (to_node_kind (node_kind node)))
          (node_room node)
          node
  unfolding write_fields decode_fields
  fields_lem (lit id) p = last (u32-Sends id p) _ (ended (lit id))
  fields_lem (read_local i) p = last (u32-Sends i p) _ (ended (read_local i))
  fields_lem (write_local i v) (p, q) =
      next (u32-Sends i p) _ (last (u32-Sends v q) _ (ended (write_local i v)))
  fields_lem (read_slot name) p = through_index (symbol_index symbols name) _ _ _ _ λ i e.
      last (u32-Sends i (index_small invalid symbols small name i e)) _
        (λ rest room. named_lem invalid symbols small i name read_slot rest room e)
  fields_lem (write_slot name v b) p = through_index (symbol_index symbols name) _ _ _ _ λ i e.
      next (u32-Sends i (index_small invalid symbols small name i e)) _ (
        next (u32-Sends v p) _ (
          last (u8-Sends (flag b) (flag_small b)) _
            (λ rest room. write_slot_end invalid symbols small name v b i rest room e)))
  fields_lem (read_slot_fallback name other) p =
      through_index (symbol_index symbols name) _ _ _ _ λ i e.
        through_index (symbol_index symbols other) _ _ _ _ λ j e'.
          next (u32-Sends i (index_small invalid symbols small name i e)) _ (
            last (u32-Sends j (index_small invalid symbols small other j e')) _ (λ rest room.
              named_fallback_lem invalid symbols small i j name other read_slot_fallback rest room e
                e'))
  fields_lem (write_slot_fallback name other v b) p =
      through_index (symbol_index symbols name) _ _ _ _ λ i e.
        through_index (symbol_index symbols other) _ _ _ _ λ j e'.
          next (u32-Sends i (index_small invalid symbols small name i e)) _ (
            next (u32-Sends j (index_small invalid symbols small other j e')) _ (
              next (u32-Sends v p) _ (
                last (u8-Sends (flag b) (flag_small b)) _ (λ rest room.
                  write_slot_fallback_end invalid symbols small name other v b i j rest room e
                    e'))))
  fields_lem (slot_designator name) p = through_index (symbol_index symbols name) _ _ _ _ λ i e.
      last (u32-Sends i (index_small invalid symbols small name i e)) _
        (λ rest room. named_lem invalid symbols small i name slot_designator rest room e)
  fields_lem (record_def name first n) p = fails not_persistable _ _ _
  fields_lem (read_index base i) (p, q) =
      next (u32-Sends base p) _ (last (u32-Sends i q) _ (ended (read_index base i)))
  fields_lem (write_index base i v) (p, q, r) =
      next (u32-Sends base p) _
        (next (u32-Sends i q) _ (last (u32-Sends v r) _ (ended (write_index base i v))))
  fields_lem (read_field base name) (p, q) = next (u32-Sends base p) _ (
      last (string-Sends name q) _
        (λ rest room. copied_then invalid symbols small name rest room (λ t. read_field base t)))
  fields_lem (write_field base name v) (p, q, r) = next (u32-Sends base p) _ (
      next (string-Sends name q) _ (
        last (u32-Sends v r) _ (λ rest room.
          copied_then invalid symbols small name rest room (λ t. write_field base t v))))
  fields_lem (fn arity locals body) (p, q, r) =
      next (u32-Sends arity p) _
        (next (u32-Sends locals q) _ (last (u32-Sends body r) _ (ended (fn arity locals body))))
  fields_lem (call builtin callee first n) (p, q, r, s) = next (u8-Sends builtin p) _ (
      next (u32-Sends (encode_node_id invalid callee) (encoded_small invalid callee)) _ (
        next (u32-Sends first r) _ (
          last (u32-Sends n s) _ (λ rest room.
            ap (λ (x : ℕ). ok (call builtin x first n, (rest, room + 0)))
              (decode-encode_id invalid callee q)
            ∙ ended (call builtin callee first n) rest room))))
  fields_lem (if_expr c t e b) (p, q, r) = next (u32-Sends c p) _ (
      next (u32-Sends t q) _ (
        next (u32-Sends (encode_node_id invalid e) (encoded_small invalid e)) _ (
          last (u8-Sends (flag b) (flag_small b)) _
            (λ rest room. if_end invalid symbols small c t e b rest room r))))
  fields_lem (while_expr c body) (p, q) =
      next (u32-Sends c p) _ (last (u32-Sends body q) _ (ended (while_expr c body)))
  fields_lem (seq first n) (p, q) =
      next (u32-Sends first p) _ (last (u32-Sends n q) _ (ended (seq first n)))
  fields_lem (unknown_node k) p = fails snapshot_format _ _ _

  cast_kind : (node : Node) → IsPortable invalid node → node_kind node < 2 ^ 8
  cast_kind (unknown_node k) p = p
  cast_kind (lit a) p = omega arith
  cast_kind (read_local a) p = omega arith
  cast_kind (write_local a b) p = omega arith
  cast_kind (read_slot a) p = omega arith
  cast_kind (write_slot a b c) p = omega arith
  cast_kind (read_slot_fallback a b) p = omega arith
  cast_kind (write_slot_fallback a b c d) p = omega arith
  cast_kind (slot_designator a) p = omega arith
  cast_kind (record_def a b c) p = omega arith
  cast_kind (read_index a b) p = omega arith
  cast_kind (write_index a b c) p = omega arith
  cast_kind (read_field a b) p = omega arith
  cast_kind (write_field a b c) p = omega arith
  cast_kind (fn a b c) p = omega arith
  cast_kind (call a b c d) p = omega arith
  cast_kind (if_expr a b c d) p = omega arith
  cast_kind (while_expr a b) p = omega arith
  cast_kind (seq a b) p = omega arith

  -- A node that the format can hold is decoded as it was written, where its symbols are in the table
  -- and the writer has room: the decoder reads the bytes that were written, whatever follows them,
  -- and takes from the storage what the strings of the node need and no more.
  pub decode-write_node :
      (node : Node)
      → IsPortable invalid node
      → Transmits
          (write_node invalid symbols node)
          (decode_node invalid symbols)
          (node_room node)
          node
  unfolding write_node decode_node
  decode-write_node node p =
      next (u8-Sends (node_kind node) (cast_kind node p)) _ (fields_lem node p)
