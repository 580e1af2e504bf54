-- ===== src/Codec/Symbols.antt =====
-- The symbol table of src/frothy_snapshot_codec.c: the names of the slots that the persisted state
-- mentions. A symbol is its name; isalpha and isalnum of <ctype.h> are arguments, as in Names.
pub mod Lookup
pub mod Collect
pub mod RoundTrip
use froth.Base.{
  ℕ, zero, suc, ◌+◌, ◌%◌, ◌^◌, Bool, true, false, not, ◌&&◌, List, [], ◌∷◌, ◌++◌, leb, ltb, ◌==◌,
  if◌then◌else◌, length, get_or,
}
use froth.Status.{
  Exec, Result, ok, err, bind, snapshot_unresolved, snapshot_bad_name, snapshot_overflow,
  snapshot_format, heap_out_of_memory,
}
use froth.Ir.{Node, read_slot, read_slot_fallback, write_slot, write_slot_fallback, slot_designator}
use froth.Slots.Names.{same_bytes}
use froth.Names.{slot_name_is_valid}
use froth.Codec.Put.{Put, Writer, ◌>>◌, skip, write_u16, write_u32, write_bytes}
use froth.Codec.Get.{Get, ◌>>=◌, give, require, read_u16, read_u32, read_bytes}

-- The loop with strcmp.
abbrev pub find_symbol : ℕ → List (List ℕ) → List ℕ → Result ℕ
find_symbol i [] name = err snapshot_unresolved
find_symbol i (s ∷ ss) name =
    let later = find_symbol (i + 1) ss name in if same_bytes s name then ok (i % 2 ^ 32) else later

-- frothy_snapshot_symbol_index
unfoldable pub symbol_index : List (List ℕ) → List ℕ → Result ℕ
symbol_index symbols name = find_symbol 0 symbols name

-- `return FROTH_OK`
abbrev pub collected : Exec (List (List ℕ)) (Unit {0})
collected symbols = (ok tt, symbols)

module _ (is_alpha is_alnum : ℕ → Bool) (capacity : ℕ) where
  abbrev pub add_symbol : List ℕ → Result ℕ → Exec (List (List ℕ)) ℕ
  add_symbol name (ok i) symbols = (ok i, symbols)
  add_symbol name (err e) symbols =
      if ltb 0xFFFF (length name)
      then (err snapshot_bad_name, symbols)
      else if not (slot_name_is_valid is_alpha is_alnum name)
      then (err snapshot_bad_name, symbols)
      else if ltb capacity (length symbols + 1)
      then (err heap_out_of_memory, symbols)
      else (ok (length symbols % 2 ^ 32), symbols ++ (name ∷ []))

  -- frothy_snapshot_symbols_find_or_add
  unfoldable pub find_or_add : List ℕ → Exec (List (List ℕ)) ℕ
  unfolding symbol_index
  find_or_add name symbols = add_symbol name (symbol_index symbols name) symbols

  -- The switch of frothy_snapshot_collect_program_symbols.
  unfoldable pub collect_node : Node → Exec (List (List ℕ)) (Unit {0})
  unfolding find_or_add
  collect_node (read_slot name) = bind (find_or_add name) λ ignored. collected
  collect_node (read_slot_fallback name other) =
      bind (find_or_add name) λ ignored. bind (find_or_add other) λ ignored'. collected
  collect_node (write_slot name v existing) = bind (find_or_add name) λ ignored. collected
  collect_node (write_slot_fallback name other v existing) =
      bind (find_or_add name) λ ignored. bind (find_or_add other) λ ignored'. collected
  collect_node (slot_designator name) = bind (find_or_add name) λ ignored. collected
  collect_node _ = collected

  -- The loop of frothy_snapshot_collect_program_symbols.
  unfoldable pub collect_program_symbols : List Node → Exec (List (List ℕ)) (Unit {0})
  unfolding collect_node
  collect_program_symbols [] = collected
  collect_program_symbols (node ∷ nodes) =
      bind (collect_node node) λ u. collect_program_symbols nodes

-- The loop of frothy_snapshot_write_symbols.
unfoldable pub write_names : List (List ℕ) → Put
unfolding write_bytes
write_names [] = skip
write_names (s ∷ ss) = write_u16 (length s) >> write_bytes s >> write_names ss

-- frothy_snapshot_write_symbols
unfoldable pub write_symbols : List (List ℕ) → Put
unfolding write_names
write_symbols symbols = write_u32 (length symbols) >> write_names symbols

-- frothy_snapshot_decode_symbols
unfoldable pub decode_symbols : ℕ → Get (List ℕ) (List (List ℕ))
unfolding read_u16 read_bytes
decode_symbols zero = give []
decode_symbols (suc left) =
    read_u16 >>= λ n. read_bytes n >>= λ name. decode_symbols left >>= λ names. give (name ∷ names)

module _ (is_alpha is_alnum : ℕ → Bool) where
  -- The loop over the symbols in frothy_snapshot_validate.
  unfoldable pub check_names : ℕ → Get (List ℕ) (Unit {0})
  unfolding read_u16 read_bytes
  check_names zero = give tt
  check_names (suc left) = read_u16 >>= λ n. require (not (n == 0)) snapshot_bad_name >>= λ u.
      read_bytes n >>= λ name.
      require (slot_name_is_valid is_alpha is_alnum name) snapshot_bad_name >>= λ v.
      check_names left

  -- The symbols in frothy_snapshot_validate, where `capacity` is FROTH_SLOT_TABLE_SIZE; the count is
  -- the result.
  unfoldable pub validate_symbols : ℕ → Get (List ℕ) ℕ
  unfolding check_names read_u32
  validate_symbols capacity = read_u32 >>= λ n.
      require (not (ltb capacity n)) snapshot_overflow >>= λ u. check_names n >>= λ v. give n
