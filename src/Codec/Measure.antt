-- ===== src/Codec/Measure.antt =====
-- frothy_snapshot_measure_code_object in src/frothy_snapshot_codec.c: the pass that adds up the
-- storage of the strings before the decoder runs. The second component of its state is the sum.
pub mod Agrees
pub mod Enough
use froth.Base.{
  ℕ, zero, suc, ◌+◌, ◌-◌, Bool, not, ◌&&◌, List, [], ltb, if◌then◌else◌, length, get_or,
}
use froth.Status.{ok, err, not_persistable, snapshot_format, heap_out_of_memory}
use froth.Ir.{
  LiteralKind, int_kind, bool_kind, nil_kind, text_kind, other_kind, to_literal_kind, NodeKind,
  lit_kind, read_local_kind, write_local_kind, read_slot_kind, write_slot_kind,
  read_slot_fallback_kind, write_slot_fallback_kind, slot_designator_kind, record_def_kind,
  read_index_kind, write_index_kind, read_field_kind, write_field_kind, fn_kind, call_kind,
  if_expr_kind, while_expr_kind, seq_kind, unknown_kind, to_node_kind,
}
use froth.Codec.Get.{
  Get, Input, ◌>>=◌, ◌>>◌, carry, on_bytes, give, reject, require, read_u8, read_u32, read_i32,
  read_bytes, read_string_bytes,
}
use froth.Codec.Decode.{u8, u32, known}
use froth.Codec.Code.{Header}

abbrev pub done_reading : Get Input (Unit {0})
done_reading = give tt

unfoldable pub repeat : ℕ → Get Input (Unit {0}) → Get Input (Unit {0})
repeat zero m = done_reading
repeat (suc left) m = m >>= λ u. repeat left m

module _ (size_max : ℕ) where
  -- frothy_snapshot_add_size of a string's length and its closing 0. `n + 1` cannot wrap, as `n` has
  -- at most 32 bits or is the length of bytes in the payload.
  unfoldable pub count_string : ℕ → Get Input (Unit {0})
  count_string n (bs, sum) =
      if ltb (size_max - (n + 1)) sum then err heap_out_of_memory else ok (tt, (bs, sum + (n + 1)))

  -- The switch over the kind of a literal.
  unfoldable pub measure_literal_fields : LiteralKind → Get Input (Unit {0})
  unfolding count_string read_u8 read_u32 read_bytes
  measure_literal_fields int_kind = on_bytes read_i32 >>= λ ignored. done_reading
  measure_literal_fields bool_kind = u8 >>= λ ignored. done_reading
  measure_literal_fields nil_kind = done_reading
  measure_literal_fields text_kind =
      u32 >>= λ n. on_bytes (read_bytes n) >>= λ bytes. count_string n >> done_reading
  measure_literal_fields (other_kind k) = done_reading

  unfoldable pub measure_literal : Get Input (Unit {0})
  unfolding measure_literal_fields read_u8
  measure_literal = u8 >>= λ k. measure_literal_fields (to_literal_kind k)

  module _ (symbols : List (List ℕ)) where
    -- A symbol of the table.
    abbrev pub count_symbol : ℕ → Get Input (Unit {0})
    count_symbol i = count_string (length (get_or symbols i []))

    abbrev pub measure_named : ℕ → Get Input (Unit {0})
    measure_named i = require (known symbols i) snapshot_format >> (count_symbol i >> done_reading)

    abbrev pub measure_fallback : ℕ → ℕ → Get Input (Unit {0})
    measure_fallback i j =
        require (known symbols i && known symbols j) snapshot_format
        >> (count_symbol i >> (count_symbol j >> done_reading))

    -- The switch over the kind of a node.
    unfoldable pub measure_fields : NodeKind → Get Input (Unit {0})
    unfolding count_string read_u8 read_u32 read_string_bytes
    measure_fields lit_kind = u32 >>= λ ignored. done_reading
    measure_fields read_local_kind = u32 >>= λ ignored. done_reading
    measure_fields write_local_kind = u32 >>= λ ignored. u32 >>= λ ignored. done_reading
    measure_fields read_slot_kind = u32 >>= λ i. measure_named i
    measure_fields write_slot_kind =
        u32 >>= λ i. u32 >>= λ ignored. u8 >>= λ require_existing. measure_named i
    measure_fields read_slot_fallback_kind = u32 >>= λ i. u32 >>= λ j. measure_fallback i j
    measure_fields write_slot_fallback_kind =
        u32 >>= λ i. u32 >>= λ j. u32 >>= λ ignored. u8 >>= λ require_existing. measure_fallback i j
    measure_fields slot_designator_kind = u32 >>= λ i. measure_named i
    measure_fields record_def_kind = reject not_persistable
    measure_fields read_index_kind = u32 >>= λ ignored. u32 >>= λ ignored. done_reading
    measure_fields write_index_kind =
        u32 >>= λ ignored. u32 >>= λ ignored. u32 >>= λ ignored. done_reading
    measure_fields read_field_kind = u32 >>= λ ignored.
        on_bytes read_string_bytes >>= λ bytes. count_string (length bytes) >> done_reading
    measure_fields write_field_kind = u32 >>= λ ignored. on_bytes read_string_bytes >>= λ bytes.
        u32 >>= λ ignored'. count_string (length bytes) >> done_reading
    measure_fields fn_kind = u32 >>= λ ignored. u32 >>= λ ignored. u32 >>= λ ignored. done_reading
    measure_fields call_kind =
        u8 >>= λ builtin. u32 >>= λ ignored. u32 >>= λ ignored. u32 >>= λ ignored. done_reading
    measure_fields if_expr_kind =
        u32 >>= λ ignored. u32 >>= λ ignored. u32 >>= λ ignored. u8 >>= λ has_else. done_reading
    measure_fields while_expr_kind = u32 >>= λ ignored. u32 >>= λ ignored. done_reading
    measure_fields seq_kind = u32 >>= λ ignored. u32 >>= λ ignored. done_reading
    measure_fields (unknown_kind k) = done_reading

    unfoldable pub measure_node : Get Input (Unit {0})
    unfolding measure_fields read_u8
    measure_node = u8 >>= λ k. measure_fields (to_node_kind k)

    -- frothy_snapshot_measure_code_object
    unfoldable pub measure_code_object : Header → Get Input (Unit {0})
    unfolding repeat measure_literal measure_node read_u32
    measure_code_object h =
        repeat h.literal_count measure_literal
        >> (repeat h.node_count measure_node
            >> (repeat h.link_count (u32 >>= λ ignored. done_reading) >> done_reading))
