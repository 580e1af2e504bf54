-- ===== src/Codec/Validate.antt =====
-- The check of a code object in src/frothy_snapshot_codec.c: frothy_snapshot_validate_literal and
-- frothy_snapshot_validate_code_object, which runs over the whole payload before anything is
-- decoded. isalpha and isalnum of <ctype.h> are arguments, as in Names.
pub mod Follows
pub mod Decoded
use froth.Base.{
  ℕ, zero, suc, ◌-◌, ◌^◌, Bool, true, false, not, ◌&&◌, ◌||◌, List, leb, ltb, ◌==◌, if◌then◌else◌,
}
use froth.Status.{not_persistable, snapshot_format, snapshot_overflow, snapshot_bad_name}
use froth.Ir.{
  LiteralKind, int_kind, bool_kind, nil_kind, text_kind, other_kind, to_literal_kind, NodeKind,
  lit_kind, read_local_kind, write_local_kind, read_slot_kind, write_slot_kind,
  read_slot_fallback_kind, write_slot_fallback_kind, slot_designator_kind, record_def_kind,
  read_index_kind, write_index_kind, read_field_kind, write_field_kind, fn_kind, call_kind,
  if_expr_kind, while_expr_kind, seq_kind, unknown_kind, to_node_kind,
}
use froth.Names.{simple_name_is_valid}
use froth.Codec.Get.{
  Get, ◌>>=◌, ◌>>◌, carry, give, reject, require, read_u8, read_u32, read_i32, read_bytes,
  read_string_bytes,
}
use froth.Codec.Code.{Header, Limits, within, read_code_header}

abbrev pub accept : Get (List ℕ) (Unit {0})
accept = give tt

unfoldable pub check_all : ℕ → Get (List ℕ) (Unit {0}) → Get (List ℕ) (Unit {0})
check_all zero m = accept
check_all (suc left) m = m >>= λ u. check_all left m

-- The switch over the kind of a literal.
unfoldable pub check_literal_fields : LiteralKind → Get (List ℕ) (Unit {0})
unfolding read_u8 read_u32 read_bytes
check_literal_fields int_kind = read_i32 >>= λ ignored. accept
check_literal_fields bool_kind = read_u8 >>= λ ignored. accept
check_literal_fields nil_kind = accept
check_literal_fields text_kind = read_u32 >>= λ n. read_bytes n >>= λ ignored. accept
check_literal_fields (other_kind k) = reject snapshot_format

-- frothy_snapshot_validate_literal
unfoldable pub validate_literal : Get (List ℕ) (Unit {0})
unfolding check_literal_fields read_u8
validate_literal = read_u8 >>= λ k. check_literal_fields (to_literal_kind k)

-- frothy_snapshot_validate_link_span
abbrev pub link_span_fits : ℕ → ℕ → ℕ → Bool
link_span_fits first n link_count = not (ltb link_count first || ltb (link_count - first) n)

-- frothy_snapshot_validate_node_id
abbrev pub node_id_fits : ℕ → ℕ → Bool → Bool
node_id_fits id node_count allow_invalid =
    (allow_invalid && id == 2 ^ 32 - 1) || not (leb node_count id)

module _ (is_alpha is_alnum : ℕ → Bool) (symbol_count : ℕ) (h : Header) where
  abbrev pub check_id : ℕ → Bool → Get (List ℕ) (Unit {0})
  check_id id allow = require (node_id_fits id h.node_count allow) snapshot_format

  abbrev pub check_symbol : ℕ → Get (List ℕ) (Unit {0})
  check_symbol i = require (not (leb symbol_count i)) snapshot_format

  abbrev pub check_symbols : ℕ → ℕ → Get (List ℕ) (Unit {0})
  check_symbols i j = require (not (leb symbol_count i || leb symbol_count j)) snapshot_format

  abbrev pub check_field_name : List ℕ → Get (List ℕ) (Unit {0})
  check_field_name name = require (simple_name_is_valid is_alpha is_alnum name) snapshot_bad_name

  -- The switch over the kind of a node.
  unfoldable pub check_fields : NodeKind → Get (List ℕ) (Unit {0})
  unfolding read_u8 read_u32 read_string_bytes simple_name_is_valid
  check_fields lit_kind =
      read_u32 >>= λ a. (require (not (leb h.literal_count a)) snapshot_format) >> (accept)
  check_fields read_local_kind = read_u32 >>= λ a. accept
  check_fields write_local_kind = read_u32 >>= λ a. read_u32 >>= λ b. (check_id b false) >> (accept)
  check_fields read_slot_kind = read_u32 >>= λ a. (check_symbol a) >> (accept)
  check_fields write_slot_kind = read_u32 >>= λ a.
      read_u32 >>= λ b. read_u8 >>= λ flag. (check_symbol a) >> ((check_id b false) >> (accept))
  check_fields read_slot_fallback_kind =
      read_u32 >>= λ a. read_u32 >>= λ b. (check_symbols a b) >> (accept)
  check_fields write_slot_fallback_kind = read_u32 >>= λ a. read_u32 >>= λ b.
      read_u32 >>= λ c. read_u8 >>= λ flag. (check_symbols a b) >> ((check_id c false) >> (accept))
  check_fields slot_designator_kind = read_u32 >>= λ a. (check_symbol a) >> (accept)
  check_fields record_def_kind = reject not_persistable
  check_fields read_index_kind =
      read_u32 >>= λ a. read_u32 >>= λ b. (check_id a false) >> ((check_id b false) >> (accept))
  check_fields write_index_kind = read_u32 >>= λ a. read_u32 >>= λ b. read_u32 >>= λ c.
      (check_id a false) >> ((check_id b false) >> ((check_id c false) >> (accept)))
  check_fields read_field_kind = read_u32 >>= λ a.
      read_string_bytes >>= λ bytes. (check_field_name bytes) >> ((check_id a false) >> (accept))
  check_fields write_field_kind = read_u32 >>= λ a. read_string_bytes >>= λ bytes. read_u32 >>= λ b.
      (check_field_name bytes) >> ((check_id a false) >> ((check_id b false) >> (accept)))
  check_fields fn_kind = read_u32 >>= λ a. read_u32 >>= λ b.
      read_u32 >>= λ c. (require (not (ltb b a || leb h.node_count c)) snapshot_format) >> (accept)
  check_fields call_kind = read_u8 >>= λ flag. read_u32 >>= λ a. read_u32 >>= λ b. read_u32 >>= λ c.
      (require (not (ltb 14 flag)) snapshot_format)
      >> ((require (link_span_fits b c h.link_count) snapshot_format)
          >> ((check_id a (not (flag == 0))) >> (accept)))
  check_fields if_expr_kind = read_u32 >>= λ a. read_u32 >>= λ b. read_u32 >>= λ c.
      read_u8 >>= λ flag.
      (check_id a false) >> ((check_id b false) >> ((check_id c (flag == 0)) >> (accept)))
  check_fields while_expr_kind =
      read_u32 >>= λ a. read_u32 >>= λ b. (check_id a false) >> ((check_id b false) >> (accept))
  check_fields seq_kind = read_u32 >>= λ a.
      read_u32 >>= λ b. (require (link_span_fits a b h.link_count) snapshot_format) >> (accept)
  check_fields (unknown_kind k) = reject snapshot_format

  -- The loop over the nodes.
  unfoldable pub check_node : Get (List ℕ) (Unit {0})
  unfolding check_fields read_u8
  check_node = read_u8 >>= λ k. check_fields (to_node_kind k)

  -- The loop over the links.
  unfoldable pub check_link : Get (List ℕ) (Unit {0})
  unfolding read_u32
  check_link = read_u32 >>= λ link. require (not (leb h.node_count link)) snapshot_format

  -- The three loops.
  unfoldable pub check_contents : Get (List ℕ) (Unit {0})
  unfolding check_all validate_literal check_node check_link
  check_contents =
      check_all h.literal_count validate_literal
      >> (check_all h.node_count check_node >> check_all h.link_count check_link)

-- The tests of the numbers before the contents.
abbrev pub header_fits : Header → Bool
header_fits h =
    not (ltb h.local_count h.arity || leb h.node_count h.body || leb h.node_count h.root)

-- frothy_snapshot_validate_code_object. Its last test of the numbers is left out, since no number of
-- 32 bits is above UINT32_MAX.
unfoldable pub validate_code_object : (ℕ → Bool) → (ℕ → Bool) → Limits → ℕ → Get (List ℕ) (Unit {0})
unfolding read_code_header check_contents
validate_code_object is_alpha is_alnum limits symbol_count = read_code_header >>= λ h.
    require (header_fits h) snapshot_format
    >> (require (within limits h) snapshot_overflow
        >> check_contents is_alpha is_alnum symbol_count h)
