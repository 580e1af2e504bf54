-- ===== src/Codec/Validate/Decoded.antt =====
-- What the check of src/frothy_snapshot_codec.c accepts, the decoder can decode.
use froth.Base.{
  ℕ, zero, suc, ◌+◌, ◌≡◌, Bool, true, false, not, ◌&&◌, ◌||◌, List, [], arith, leb, ltb, ◌==◌,
  length, get_or,
}
use froth.Status.{ok, not_persistable, snapshot_format, snapshot_bad_name}
use froth.Ir.{
  Node, LiteralKind, int_kind, bool_kind, nil_kind, text_kind, other_kind, to_literal_kind,
  NodeKind, lit_kind, read_local_kind, write_local_kind, read_slot_kind, write_slot_kind,
  read_slot_fallback_kind, write_slot_fallback_kind, slot_designator_kind, record_def_kind,
  read_index_kind, write_index_kind, read_field_kind, write_field_kind, fn_kind, call_kind,
  if_expr_kind, while_expr_kind, seq_kind, unknown_kind, to_node_kind,
}
use froth.Codec.Get.{Get, Input, read_u8, read_u32, read_i32, read_bytes, read_string_bytes}
use froth.Codec.Decode.{
  u32, decode_literal, decode_literal_fields, decode_node, decode_fields, known, named,
  named_fallback,
}
use froth.Codec.Code.{
  Code, Header, Limits, within, get_all, decode_code, decode_contents, read_code_header,
}
use froth.Names.{simple_name_is_valid}
use froth.Codec.Validate.{
  node_id_fits, link_span_fits, accept, check_all, check_literal_fields, validate_literal,
  check_fields, check_node, check_link, check_contents, header_fits, validate_code_object,
}
use froth.Codec.Validate.Follows.{
  Follows, follow_read, follow_in_turn, follow_give, follow_reject, follow_check, follow_dropped,
  follow_last, follow_packed, follow_both, follow_copy,
}

literal-Follows : (k : LiteralKind) → Follows (check_literal_fields k) (decode_literal_fields k)
unfolding check_literal_fields decode_literal_fields
literal-Follows int_kind = follow_read read_i32 _ _ λ z. follow_give tt _
literal-Follows bool_kind = follow_read read_u8 _ _ λ b. follow_give tt _
literal-Follows nil_kind = follow_give tt _
literal-Follows text_kind =
    follow_read read_u32 _ _
      λ n. follow_read (read_bytes n) _ _ λ t. follow_copy tt t _ (follow_give tt _)
literal-Follows (other_kind k) = follow_reject snapshot_format _

loops_follow :
    {A : Type 0} (v : Get (List ℕ) (Unit {0})) (d : Get Input A)
    → Follows v d
    → (n : ℕ) → Follows (check_all n v) (get_all n d)
unfolding check_all get_all
loops_follow v d follow zero = follow_give tt []
loops_follow v d follow (suc n) =
    follow_in_turn follow _ _ λ u x. follow_packed (loops_follow v d follow n) _

module _ (symbols : List (List ℕ)) where
  named-Follows :
      (i : ℕ) (node : List ℕ → Node)
      → not (leb (length symbols) i) ≡ true
      → Follows accept (named symbols i node)
  named-Follows i node t = rw t (follow_copy tt (get_or symbols i []) _ (follow_give tt _))

  fallback-Follows :
      (i j : ℕ) (node : List ℕ → List ℕ → Node)
      → not (leb (length symbols) i || leb (length symbols) j) ≡ true
      → Follows accept (named_fallback symbols i j node)
  fallback-Follows i j node t =
      let both : (known symbols i && known symbols j) ≡ true = ground arith in
      rw both (
        follow_copy tt (get_or symbols i []) _
          (follow_copy tt (get_or symbols j []) _ (follow_give tt _)))

  module _ (is_alpha is_alnum : ℕ → Bool) (invalid : ℕ) where
    fields_follow :
        (h : Header) (k : NodeKind)
        → Follows
            (check_fields is_alpha is_alnum (length symbols) h k)
            (decode_fields invalid symbols k)
    unfolding check_fields decode_fields
    fields_follow h lit_kind =
        follow_read read_u32 _ _
          λ a. follow_dropped (not (leb h.literal_count a)) snapshot_format (follow_give tt _)
    fields_follow h read_local_kind = follow_read read_u32 _ _ λ a. follow_give tt _
    fields_follow h write_local_kind = follow_read read_u32 _ _ λ a.
        follow_read read_u32 _ _
          λ b. follow_dropped (node_id_fits b h.node_count false) snapshot_format (follow_give tt _)
    fields_follow h read_slot_kind = follow_read read_u32 _ _ λ a.
        follow_check (not (leb (length symbols) a)) snapshot_format _ _ λ t. named-Follows a _ t
    fields_follow h write_slot_kind = follow_read read_u32 _ _ λ a. follow_read read_u32 _ _ λ b.
        follow_read read_u8 _ _ λ flag.
          follow_check (not (leb (length symbols) a)) snapshot_format _ _ λ t.
            follow_dropped (node_id_fits b h.node_count false) snapshot_format (named-Follows a _ t)
    fields_follow h read_slot_fallback_kind = follow_read read_u32 _ _ λ a.
        follow_read read_u32 _ _ λ b.
          follow_check (not (leb (length symbols) a || leb (length symbols) b)) snapshot_format _ _
            λ t. fallback-Follows a b _ t
    fields_follow h write_slot_fallback_kind = follow_read read_u32 _ _ λ a.
        follow_read read_u32 _ _ λ b. follow_read read_u32 _ _ λ c. follow_read read_u8 _ _ λ flag.
          follow_check (not (leb (length symbols) a || leb (length symbols) b)) snapshot_format _ _
            λ t.
              follow_dropped (node_id_fits c h.node_count false) snapshot_format
                (fallback-Follows a b _ t)
    fields_follow h slot_designator_kind = follow_read read_u32 _ _ λ a.
        follow_check (not (leb (length symbols) a)) snapshot_format _ _ λ t. named-Follows a _ t
    fields_follow h record_def_kind = follow_reject not_persistable _
    fields_follow h read_index_kind = follow_read read_u32 _ _ λ a. follow_read read_u32 _ _ λ b.
        follow_dropped (node_id_fits a h.node_count false) snapshot_format
          (follow_dropped (node_id_fits b h.node_count false) snapshot_format (follow_give tt _))
    fields_follow h write_index_kind = follow_read read_u32 _ _ λ a. follow_read read_u32 _ _ λ b.
        follow_read read_u32 _ _ λ c.
          follow_dropped (node_id_fits a h.node_count false) snapshot_format (
            follow_dropped (node_id_fits b h.node_count false) snapshot_format (
              follow_dropped (node_id_fits c h.node_count false) snapshot_format
                (follow_give tt _)))
    fields_follow h read_field_kind = follow_read read_u32 _ _ λ a.
        follow_read read_string_bytes _ _ λ bytes.
          follow_dropped (simple_name_is_valid is_alpha is_alnum bytes) snapshot_bad_name (
            follow_dropped (node_id_fits a h.node_count false) snapshot_format
              (follow_copy tt bytes _ (follow_give tt _)))
    fields_follow h write_field_kind = follow_read read_u32 _ _ λ a.
        follow_read read_string_bytes _ _ λ bytes. follow_read read_u32 _ _ λ b.
          follow_dropped (simple_name_is_valid is_alpha is_alnum bytes) snapshot_bad_name (
            follow_dropped (node_id_fits a h.node_count false) snapshot_format (
              follow_dropped (node_id_fits b h.node_count false) snapshot_format
                (follow_copy tt bytes _ (follow_give tt _))))
    fields_follow h fn_kind = follow_read read_u32 _ _ λ a. follow_read read_u32 _ _ λ b.
        follow_read read_u32 _ _ λ c.
          follow_dropped (not (ltb b a || leb h.node_count c)) snapshot_format (follow_give tt _)
    fields_follow h call_kind = follow_read read_u8 _ _ λ flag. follow_read read_u32 _ _ λ a.
        follow_read read_u32 _ _ λ b. follow_read read_u32 _ _ λ c.
          follow_dropped (not (ltb 14 flag)) snapshot_format (
            follow_dropped (link_span_fits b c h.link_count) snapshot_format (
              follow_dropped (node_id_fits a h.node_count (not (flag == 0))) snapshot_format
                (follow_give tt _)))
    fields_follow h if_expr_kind = follow_read read_u32 _ _ λ a. follow_read read_u32 _ _ λ b.
        follow_read read_u32 _ _ λ c. follow_read read_u8 _ _ λ flag.
          follow_dropped (node_id_fits a h.node_count false) snapshot_format (
            follow_dropped (node_id_fits b h.node_count false) snapshot_format (
              follow_dropped (node_id_fits c h.node_count (flag == 0)) snapshot_format
                (follow_give tt _)))
    fields_follow h while_expr_kind = follow_read read_u32 _ _ λ a. follow_read read_u32 _ _ λ b.
        follow_dropped (node_id_fits a h.node_count false) snapshot_format
          (follow_dropped (node_id_fits b h.node_count false) snapshot_format (follow_give tt _))
    fields_follow h seq_kind = follow_read read_u32 _ _ λ a.
        follow_read read_u32 _ _
          λ b. follow_dropped (link_span_fits a b h.link_count) snapshot_format (follow_give tt _)
    fields_follow h (unknown_kind k) = follow_reject snapshot_format _

    link-Follows : (h : Header) → Follows (check_link is_alpha is_alnum (length symbols) h) u32
    unfolding check_link
    link-Follows h = follow_last _ _ read_u32

    contents_follow :
        (h : Header)
        → Follows
            (check_contents is_alpha is_alnum (length symbols) h)
            (decode_contents invalid symbols h)
    unfolding check_contents decode_contents check_node decode_node validate_literal decode_literal
        check_link
    contents_follow h =
        follow_in_turn
          (loops_follow _ _ (follow_read read_u8 _ _ λ k. literal-Follows (to_literal_kind k))
            h.literal_count)
          _ _
          λ u literals.
            follow_in_turn
              (loops_follow _ _ (follow_read read_u8 _ _ λ k. fields_follow h (to_node_kind k))
                h.node_count)
              _ _ λ u nodes. follow_packed (loops_follow _ _ (link-Follows h) h.link_count) _

    code-Follows :
        (limits : Limits)
        → Follows
            (validate_code_object is_alpha is_alnum limits (length symbols))
            (decode_code limits invalid symbols)
    unfolding validate_code_object decode_code
    code-Follows limits = follow_read read_code_header _ _ λ h.
        follow_check (header_fits h) _ _ _
          λ t. follow_both (within limits h) _ _ _ (follow_packed (contents_follow h) _)

    -- What the check accepts, the decoder decodes, with the same table of symbols: there is an amount
    -- of storage for strings with which it succeeds, and it stops at the byte where the check did.
    pub decode-validate_code_object :
        (limits : Limits) (bs rest : List ℕ)
        → validate_code_object is_alpha is_alnum limits (length symbols) bs ≡ ok (tt, rest)
        → (n : ℕ) × (code : Code) × ((room : ℕ)
            → decode_code limits invalid symbols (bs, room + n) ≡ ok (code, (rest, room)))
    decode-validate_code_object limits bs rest e = (code-Follows limits).run bs rest tt e
