-- ===== src/Tests/Symbols.antt =====
-- The symbol table of src/frothy_snapshot_codec.c for a program that names two slots.
use froth.Base.{All, ℕ, ◌≡◌, refl, Bool, true, ◌&&◌, leb, List, [], ◌∷◌, ◌++◌, arith, drop}
use froth.Status.{ok}
use froth.Names.{slot_name_is_valid}
use froth.Ir.{Node, read_slot, write_slot_fallback, lit}
use froth.Snapshot.Le.{le16, le32}
use froth.Codec.Put.{Writer, write_bytes, has_space}
use froth.Codec.Get.{◌>>=◌, read_u32}
use froth.Codec.Symbols.{
  symbol_index, find_or_add, collect_node, collect_program_symbols, write_symbols, write_names,
  decode_symbols, validate_symbols,
}
use froth.Codec.Symbols.Collect.{IsKnown, StaysFound, node_symbols, collect_program_symbols_lem}
use froth.Codec.Symbols.RoundTrip.{IsTable, find_or_add-IsTable, decode-write_symbols}

abbrev is_letter : ℕ → Bool
is_letter b = leb b'a' b && leb b b'z'

-- "led"
abbrev led : List ℕ
led = b'l' ∷ b'e' ∷ b'd' ∷ []

-- "pin"
abbrev pin : List ℕ
pin = b'p' ∷ b'i' ∷ b'n' ∷ []

abbrev nodes : List Node
nodes = lit 0 ∷ read_slot led ∷ write_slot_fallback pin led 0 true ∷ []

abbrev table : List (List ℕ)
table = led ∷ pin ∷ []

collect_program_symbols_lem_example :
    StaysFound (symbol_index [] led) (symbol_index table led)
    × All (λ node. All (IsKnown table) (node_symbols node)) nodes
unfolding symbol_index collect_program_symbols collect_node find_or_add slot_name_is_valid
collect_program_symbols_lem_example =
    collect_program_symbols_lem is_letter is_letter 16 nodes [] table led refl

table-IsTable : IsTable is_letter is_letter 16 table
unfolding slot_name_is_valid
table-IsTable = record {
  symbols = (
    record { valid = refl; small = omega arith },
    (record { valid = refl; small = omega arith }, tt),
  );
  within = omega arith;
}

find_or_add-IsTable_example : IsTable is_letter is_letter 16 (led ∷ pin ∷ (b'x' ∷ []) ∷ [])
unfolding symbol_index find_or_add slot_name_is_valid
find_or_add-IsTable_example =
    find_or_add-IsTable is_letter is_letter 16 (b'x' ∷ []) table (led ∷ pin ∷ (b'x' ∷ []) ∷ []) 2
      table-IsTable refl

abbrev start : Writer
start = record { bytes = 7 ∷ []; capacity = 64 }

abbrev written : Writer
written = (write_symbols table start).1

decode-write_symbols_example :
    (validate_symbols is_letter is_letter 16 (drop 1 written.bytes ++ 9 ∷ []) ≡ ok (2, 9 ∷ []))
    × ((read_u32 >>= decode_symbols) (drop 1 written.bytes ++ 9 ∷ []) ≡ ok (table, 9 ∷ []))
unfolding write_symbols write_names write_bytes has_space le16 le32
decode-write_symbols_example =
    decode-write_symbols is_letter is_letter 16 table start written (9 ∷ []) table-IsTable
      (omega arith) refl
