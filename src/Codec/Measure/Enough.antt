-- ===== src/Codec/Measure/Enough.antt =====
-- The storage that the measuring pass of src/frothy_snapshot_codec.c asks for is what the decoder
-- takes.
use froth.Base.{ℕ, zero, suc, ◌+◌, ◌-◌, ◌≤◌, ◌≡◌, sym, ◌&&◌, List, [], length, get_or}
use froth.Status.{ok, not_persistable, snapshot_format}
use froth.Ir.{
  Program, text_literal, Node, LiteralKind, int_kind, bool_kind, nil_kind, text_kind, other_kind,
  to_literal_kind, NodeKind, lit_kind, read_local_kind, write_local_kind, read_slot_kind,
  write_slot_kind, read_slot_fallback_kind, write_slot_fallback_kind, slot_designator_kind,
  record_def_kind, read_index_kind, write_index_kind, read_field_kind, write_field_kind, fn_kind,
  call_kind, if_expr_kind, while_expr_kind, seq_kind, unknown_kind, to_node_kind,
}
use froth.Codec.Get.{
  Get, Input, ◌>>=◌, ◌>>◌, give, read_u8, read_u32, read_i32, read_bytes, read_string_bytes,
}
use froth.Codec.Decode.{
  copy_string, decode_literal, decode_literal_fields, decode_node, decode_fields, known, named,
  named_fallback,
}
use froth.Codec.Code.{Header, get_all, decode_contents}
use froth.Codec.Measure.{
  repeat, count_string, measure_literal, measure_literal_fields, measure_node, measure_fields,
  measure_named, measure_fallback, measure_code_object,
}
use froth.Codec.Measure.Agrees.{
  Agrees, agree_in_turn, agree_read, agree_give, agree_reject, agree_require, agree_string,
  agree_same, agree_packed, agree_dropped, read_bytes-length,
}

module _ (size_max : ℕ) where
  -- A string at the end of a literal or of a node.
  copy-Agrees :
      {A : Type 0} (name : List ℕ) (g : List ℕ → A)
      → Agrees
          (count_string size_max (length name) >> give tt)
          (copy_string name >>= λ t. give (g t))
  copy-Agrees name g = agree_in_turn (agree_string size_max name) _ _ λ u t. agree_give tt (g t)

  literal-Agrees :
      (k : LiteralKind) → Agrees (measure_literal_fields size_max k) (decode_literal_fields k)
  unfolding measure_literal_fields decode_literal_fields
  literal-Agrees int_kind = agree_read read_i32 _ _ λ bs bs' z e. agree_give tt _
  literal-Agrees bool_kind = agree_read read_u8 _ _ λ bs bs' b e. agree_give tt _
  literal-Agrees nil_kind = agree_give tt _
  literal-Agrees text_kind = agree_read read_u32 _ _ λ bs bs' n e.
      agree_read (read_bytes n) _ _
        λ cs cs' t e'. counted_text n t (read_bytes-length n cs cs' t e')
    where
      counted_text :
          (n : ℕ) (t : List ℕ)
          → length t ≡ n
          → Agrees
              (count_string size_max n >> give tt)
              (copy_string t >>= λ x. give (text_literal x))
      counted_text n t same = rw (sym same) (copy-Agrees t (λ x. text_literal x))
  literal-Agrees (other_kind k) = agree_give tt _

  module _ (invalid : ℕ) (symbols : List (List ℕ)) where
    named-Agrees :
        (i : ℕ) (node : List ℕ → Node)
        → Agrees (measure_named size_max symbols i) (named symbols i node)
    named-Agrees i node =
        agree_require (known symbols i) snapshot_format _ _ (copy-Agrees (get_or symbols i []) node)

    fallback-Agrees :
        (i j : ℕ) (node : List ℕ → List ℕ → Node)
        → Agrees (measure_fallback size_max symbols i j) (named_fallback symbols i j node)
    fallback-Agrees i j node =
        agree_require (known symbols i && known symbols j) snapshot_format _ _ (
          agree_in_turn (agree_string size_max (get_or symbols i [])) _ _
            λ u name. copy-Agrees (get_or symbols j []) (node name))

    fields_agree :
        (k : NodeKind)
        → Agrees (measure_fields size_max symbols k) (decode_fields invalid symbols k)
    unfolding measure_fields decode_fields
    fields_agree lit_kind = agree_read read_u32 _ _ λ bs0 bs0' x0 e0. agree_give tt _
    fields_agree read_local_kind = agree_read read_u32 _ _ λ bs0 bs0' x0 e0. agree_give tt _
    fields_agree write_local_kind =
        agree_read read_u32 _ _
          λ bs0 bs0' x0 e0. agree_read read_u32 _ _ λ bs1 bs1' x1 e1. agree_give tt _
    fields_agree read_slot_kind = agree_read read_u32 _ _ λ bs0 bs0' x0 e0. named-Agrees x0 _
    fields_agree write_slot_kind = agree_read read_u32 _ _ λ bs0 bs0' x0 e0.
        agree_read read_u32 _ _
          λ bs1 bs1' x1 e1. agree_read read_u8 _ _ λ bs2 bs2' x2 e2. named-Agrees x0 _
    fields_agree read_slot_fallback_kind =
        agree_read read_u32 _ _
          λ bs0 bs0' x0 e0. agree_read read_u32 _ _ λ bs1 bs1' x1 e1. fallback-Agrees x0 x1 _
    fields_agree write_slot_fallback_kind = agree_read read_u32 _ _ λ bs0 bs0' x0 e0.
        agree_read read_u32 _ _ λ bs1 bs1' x1 e1.
          agree_read read_u32 _ _
            λ bs2 bs2' x2 e2. agree_read read_u8 _ _ λ bs3 bs3' x3 e3. fallback-Agrees x0 x1 _
    fields_agree slot_designator_kind = agree_read read_u32 _ _ λ bs0 bs0' x0 e0. named-Agrees x0 _
    fields_agree record_def_kind = agree_reject not_persistable _
    fields_agree read_index_kind =
        agree_read read_u32 _ _
          λ bs0 bs0' x0 e0. agree_read read_u32 _ _ λ bs1 bs1' x1 e1. agree_give tt _
    fields_agree write_index_kind = agree_read read_u32 _ _ λ bs0 bs0' x0 e0.
        agree_read read_u32 _ _
          λ bs1 bs1' x1 e1. agree_read read_u32 _ _ λ bs2 bs2' x2 e2. agree_give tt _
    fields_agree read_field_kind =
        agree_read read_u32 _ _
          λ bs0 bs0' x0 e0. agree_read read_string_bytes _ _ λ bs1 bs1' x1 e1. copy-Agrees x1 _
    fields_agree write_field_kind = agree_read read_u32 _ _ λ bs0 bs0' x0 e0.
        agree_read read_string_bytes _ _
          λ bs1 bs1' x1 e1. agree_read read_u32 _ _ λ bs2 bs2' x2 e2. copy-Agrees x1 _
    fields_agree fn_kind = agree_read read_u32 _ _ λ bs0 bs0' x0 e0.
        agree_read read_u32 _ _
          λ bs1 bs1' x1 e1. agree_read read_u32 _ _ λ bs2 bs2' x2 e2. agree_give tt _
    fields_agree call_kind = agree_read read_u8 _ _ λ bs0 bs0' x0 e0.
        agree_read read_u32 _ _ λ bs1 bs1' x1 e1.
          agree_read read_u32 _ _
            λ bs2 bs2' x2 e2. agree_read read_u32 _ _ λ bs3 bs3' x3 e3. agree_give tt _
    fields_agree if_expr_kind = agree_read read_u32 _ _ λ bs0 bs0' x0 e0.
        agree_read read_u32 _ _ λ bs1 bs1' x1 e1.
          agree_read read_u32 _ _
            λ bs2 bs2' x2 e2. agree_read read_u8 _ _ λ bs3 bs3' x3 e3. agree_give tt _
    fields_agree while_expr_kind =
        agree_read read_u32 _ _
          λ bs0 bs0' x0 e0. agree_read read_u32 _ _ λ bs1 bs1' x1 e1. agree_give tt _
    fields_agree seq_kind =
        agree_read read_u32 _ _
          λ bs0 bs0' x0 e0. agree_read read_u32 _ _ λ bs1 bs1' x1 e1. agree_give tt _
    fields_agree (unknown_kind k) = agree_give tt _

    loops_agree :
        {A : Type 0} (m : Get Input (Unit {0})) (d : Get Input A)
        → Agrees m d
        → (n : ℕ) → Agrees (repeat n m) (get_all n d)
    unfolding repeat get_all
    loops_agree m d agree zero = agree_give tt []
    loops_agree m d agree (suc n) =
        agree_in_turn agree _ _ λ u x. agree_packed (loops_agree m d agree n) _

    -- The two passes over the contents of a code object.
    measure-decode_contents :
        (h : Header)
        → Agrees (measure_code_object size_max symbols h) (decode_contents invalid symbols h)
    unfolding measure_code_object decode_contents measure_literal decode_literal measure_node
        decode_node
    measure-decode_contents h =
        agree_in_turn
          (loops_agree _ _ (agree_read read_u8 _ _ λ bs bs' k e. literal-Agrees (to_literal_kind k))
            h.literal_count)
          _ _
          λ u literals.
            agree_in_turn
              (loops_agree _ _ (agree_read read_u8 _ _ λ bs bs' k e. fields_agree (to_node_kind k))
                h.node_count)
              _ _
              λ u nodes.
                agree_in_turn
                  (loops_agree _ _ (agree_dropped (agree_same read_u32) tt) h.link_count) _ _
                  λ u links. agree_give tt _

    -- Where the measuring pass succeeds, the decoder succeeds on the same bytes with as much storage
    -- for the strings as the sum has grown: it uses that up, leaves what is beyond it, and stops at the
    -- byte where the measuring pass did.
    pub decode-measure_code_object :
        (h : Header) (bs : List ℕ) (sum room : ℕ) (out : Input)
        → measure_code_object size_max symbols h (bs, sum) ≡ ok (tt, out)
        → (sum ≤ out.1)
          × (program : Program) × (decode_contents invalid symbols h (bs, room + (out.1 - sum))
              ≡ ok (program, (out.0, room)))
    decode-measure_code_object h bs sum room out e =
        let (up, takes) = (measure-decode_contents h).run bs sum tt out e in
        let (program, q) = takes room in (up, program, q)
