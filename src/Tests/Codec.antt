-- ===== src/Tests/Codec.antt =====
-- A code object of src/frothy_snapshot_codec.c that reads a slot, calls a builtin and branches, with
-- a number and a text for literals.
use froth.Base.{
  ℕ, ◌+◌, ◌≡◌, ◌≤◌, ◌-◌, refl, Bool, true, ◌&&◌, leb, List, [], ◌∷◌, ◌++◌, arith, inl, inr, drop,
}
use froth.Base.Int.{negsuc}
use froth.Status.{ok}
use froth.Names.{simple_name_is_valid}
use froth.Ir.{
  int_literal, text_literal, bool_literal, nil_literal, lit, read_slot, call, if_expr, read_field,
  write_slot, Program,
}
use froth.Snapshot.Le.{le16, le32, read_le16, read_le32}
use froth.Codec.Put.{Writer, write_bytes, has_space, write_string}
use froth.Codec.Get.{read_u8, read_u16, read_u32, read_bytes, read_string_bytes}
use froth.Codec.Symbols.{symbol_index}
use froth.Codec.Nodes.{write_literal, write_node, write_fields}
use froth.Codec.Code.{
  Code, Limits, write_all, write_code_object, write_code_header, write_contents, read_code_header,
  decode_code, decode_contents,
}
use froth.Codec.Code.RoundTrip.{header_of, code_room, IsPortableCode, decode-write_code_object}
use froth.Codec.Measure.{
  measure_code_object, measure_literal, measure_literal_fields, measure_node, measure_fields,
  repeat, count_string,
}
use froth.Codec.Measure.Enough.{decode-measure_code_object}
use froth.Codec.Validate.{
  validate_code_object, validate_literal, check_literal_fields, check_all, check_contents,
  check_node, check_fields, check_link,
}
use froth.Codec.Validate.Decoded.{decode-validate_code_object}

-- SIZE_MAX of a 32-bit target.
abbrev size_max : ℕ
size_max = 0xFFFF_FFFF

abbrev limits : Limits
limits = record { literals = 128; nodes = 512; links = 512 }

-- "led"
abbrev led : List ℕ
led = b'l' ∷ b'e' ∷ b'd' ∷ []

abbrev symbols : List (List ℕ)
symbols = (b'x' ∷ []) ∷ led ∷ []

abbrev program : Program
program = record {
  literals =
      int_literal (negsuc 4)
      ∷ text_literal (b'h' ∷ b'i' ∷ [])
      ∷ bool_literal true
      ∷ nil_literal
      ∷ [];
  nodes =
      lit 0
      ∷ read_slot led
      ∷ call 4 size_max 0 2
      ∷ if_expr 0 1 2 true
      ∷ read_field 3 (b'y' ∷ [])
      ∷ write_slot led 3 true
      ∷ [];
  links = 0 ∷ 1 ∷ [];
  root = 5;
  root_local_count = 0;
}

abbrev code : Code
code = record { arity = 0; local_count = 1; body = 3; program = program }

abbrev code-IsPortable : IsPortableCode limits size_max code
code-IsPortable = record {
  arity = omega arith;
  local_count = omega arith;
  body = omega arith;
  root = omega arith;
  root_local_count = omega arith;
  literal_count = omega arith;
  node_count = omega arith;
  link_count = omega arith;
  fits = refl;
  literals = (omega arith, (omega arith, (tt, (tt, tt))));
  nodes = (
    omega arith,
    (
      tt,
      (
        (omega arith, inl refl, omega arith, omega arith),
        (
          (omega arith, omega arith, inr (omega arith)),
          ((omega arith, omega arith), (omega arith, tt)),
        ),
      ),
    ),
  );
  links = (omega arith, (omega arith, tt));
}

abbrev start : Writer
start = record { bytes = 7 ∷ []; capacity = 2048 }

abbrev written : Writer
written = (write_code_object size_max symbols code start).1

abbrev object_bytes : List ℕ
object_bytes = drop 1 written.bytes

decode-write_code_object_example :
    decode_code limits size_max symbols (drop 1 written.bytes ++ 9 ∷ [], 5 + code_room code)
    ≡ ok (code, (9 ∷ [], 5))
unfolding write_code_object write_code_header write_contents write_all write_literal write_node
    write_fields write_bytes has_space symbol_index write_string le16 le32
decode-write_code_object_example =
    decode-write_code_object limits size_max symbols (omega arith) code start written (9 ∷ []) 5
      code-IsPortable refl

-- The strings "hi", "led", "y" and "led", each with its closing 0.
decode-measure_code_object_example :
    (0 ≤ 13)
    × (p : Program) × (decode_contents size_max symbols
          (header_of code)
          (drop 33 written.bytes, 5 + (13 - 0))
        ≡ ok (p, ([], 5)))
unfolding write_code_object write_code_header write_contents write_all write_literal write_node
    write_fields write_bytes has_space symbol_index write_string le16 le32 measure_code_object
    repeat measure_literal measure_literal_fields measure_node measure_fields count_string read_u8
    read_u32 read_u16 read_bytes read_string_bytes read_le16 read_le32
decode-measure_code_object_example =
    decode-measure_code_object size_max size_max symbols (header_of code) (drop 33 written.bytes) 0
      5 ([], 13) refl

abbrev is_letter : ℕ → Bool
is_letter b = leb b'a' b && leb b b'z'

decode-validate_code_object_example :
    (n : ℕ) × (c : Code) × ((room : ℕ)
      → decode_code limits size_max symbols (drop 1 written.bytes, room + n) ≡ ok (c, ([], room)))
unfolding write_code_object write_code_header write_contents write_all write_literal write_node
    write_fields write_bytes has_space symbol_index write_string le16 le32 validate_code_object
    read_code_header check_contents check_all validate_literal check_literal_fields check_node
    check_fields check_link read_u8 read_u32 read_u16 read_bytes read_string_bytes read_le16
    read_le32 simple_name_is_valid
decode-validate_code_object_example =
    decode-validate_code_object symbols is_letter is_letter size_max limits (drop 1 written.bytes)
      [] refl
