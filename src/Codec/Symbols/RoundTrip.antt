-- ===== src/Codec/Symbols/RoundTrip.antt =====
-- The symbol table in src/frothy_snapshot_codec.c, from the collection of the symbols to the check and
-- the decoding of what is written of them.
use mathlib.Core.Path.{subst}
use froth.Base.{
  length-append, All, ℕ, ◌^◌, ◌<◌, ◌≤◌, ◌≡◌, ap, Bool, true, false, not, List, [], ◌∷◌, ◌++◌, arith,
  ltb, ◌==◌, length, drop,
}
use froth.Status.{Result, ok, err}
use froth.Names.{slot_name_is_valid}
use froth.Codec.Put.{Writer}
use froth.Codec.Get.{◌>>=◌, read_u32}
use froth.Codec.Transmit.{Sends, Sends-next, Sends-packed, no_bytes}
use froth.Codec.Fields.{received}
use froth.Codec.Fields.{u16-Sends, u32-Sends, bytes-Sends}
use froth.Codec.Symbols.Collect.{passed}
use froth.Codec.Symbols.{
  symbol_index, add_symbol, find_or_add, write_names, write_symbols, decode_symbols, check_names,
  validate_symbols,
}

module _ (is_alpha is_alnum : ℕ → Bool) where
  -- What find_or_add lets into the table.
  pub record IsSymbol (name : List ℕ) : Type 0 where
    pub valid : slot_name_is_valid is_alpha is_alnum name ≡ true
    pub small : length name < 2 ^ 16

  decode_names-Sends :
      (ss : List (List ℕ))
      → All IsSymbol ss
      → Sends (write_names ss) (decode_symbols (length ss)) ss
  unfolding write_names decode_symbols
  decode_names-Sends [] p = no_bytes []
  decode_names-Sends (s ∷ ss) (p, ps) =
      Sends-next (u16-Sends (length s) p.small) _
        (Sends-next (bytes-Sends s) _ (Sends-packed (decode_names-Sends ss ps) _))

  not_empty :
      (name : List ℕ)
      → slot_name_is_valid is_alpha is_alnum name ≡ true
      → not (length name == 0) ≡ true
  unfolding slot_name_is_valid
  not_empty [] e = let bad : false ≡ true = e in cc
  not_empty (b ∷ bs) e = ground arith

  check_names-Sends :
      (ss : List (List ℕ))
      → All IsSymbol ss
      → Sends (write_names ss) (check_names is_alpha is_alnum (length ss)) tt
  unfolding write_names check_names
  check_names-Sends [] p = no_bytes tt
  check_names-Sends (s ∷ ss) (p, ps) = Sends-next (u16-Sends (length s) p.small) _ (
      rw (not_empty s p.valid)
        (Sends-next (bytes-Sends s) _ (rw p.valid (check_names-Sends ss ps))))

  -- A table as the collection builds it.
  pub record IsTable (capacity : ℕ) (ss : List (List ℕ)) : Type 0 where
    pub symbols : All IsSymbol ss
    pub within : length ss ≤ capacity

  all_added :
      (ss : List (List ℕ)) (name : List ℕ)
      → All IsSymbol ss
      → IsSymbol name
      → All IsSymbol (ss ++ (name ∷ []))
  all_added [] name p q = (q, tt)
  all_added (s ∷ ss) name (p, ps) q = (p, all_added ss name ps q)

  add_symbol-IsTable :
      (capacity : ℕ) (r : Result ℕ) (name : List ℕ) (ss ss' : List (List ℕ)) (i : ℕ)
      → IsTable capacity ss
      → add_symbol is_alpha is_alnum capacity name r ss ≡ (ok i, ss')
      → IsTable capacity ss'
  add_symbol-IsTable capacity (ok j) name ss ss' i t e =
      subst (λ (x : List (List ℕ)). IsTable capacity x)
        (ap (λ (x : Result ℕ × List (List ℕ)). x.1) e) t
  add_symbol-IsTable capacity (err x) name ss ss' i t e =
      let (short, invalid, room, grown) = passed is_alpha is_alnum capacity x name ss ss' i e in
      let valid : slot_name_is_valid is_alpha is_alnum name ≡ true = ground arith in
      subst (λ (x : List (List ℕ)). IsTable capacity x)
        (ap (λ (x : Result ℕ × List (List ℕ)). x.1) grown)
        (record {
          symbols = all_added ss name t.symbols (record { valid = valid; small = ground arith });
          within = ground (arith, length-append ss (name ∷ []), t.within);
        })

  -- The collection keeps the table as the format wants it: valid names of less than 2^16 bytes, and no
  -- more of them than the table holds.
  pub find_or_add-IsTable :
      (capacity : ℕ) (name : List ℕ) (ss ss' : List (List ℕ)) (i : ℕ)
      → IsTable capacity ss
      → find_or_add is_alpha is_alnum capacity name ss ≡ (ok i, ss')
      → IsTable capacity ss'
  unfolding find_or_add
  find_or_add-IsTable capacity name ss ss' i t e =
      add_symbol-IsTable capacity (symbol_index ss name) name ss ss' i t e

  -- A symbol table that is written is accepted and decoded: the check of the payload counts the
  -- symbols, the decoder gives the same names in the same order, and both stop where the writer did.
  pub decode-write_symbols :
      (capacity : ℕ) (ss : List (List ℕ)) (w w' : Writer) (rest : List ℕ)
      → IsTable capacity ss
      → capacity < 2 ^ 32
      → write_symbols ss w ≡ (ok tt, w')
      → (validate_symbols is_alpha is_alnum capacity (drop (length w.bytes) w'.bytes ++ rest)
          ≡ ok (length ss, rest))
        × ((read_u32 >>= decode_symbols) (drop (length w.bytes) w'.bytes ++ rest) ≡ ok (ss, rest))
  unfolding write_symbols validate_symbols
  decode-write_symbols capacity ss w w' rest t small e =
      let counted : length ss < 2 ^ 32 = omega (arith, t.within) in
      let fits : not (ltb capacity (length ss)) ≡ true = ground (arith, t.within) in
      let checks : Sends (write_symbols ss) (validate_symbols is_alpha is_alnum capacity)
          (length ss) =
        Sends-next (u32-Sends (length ss) counted) _
          (rw fits (Sends-packed (check_names-Sends ss t.symbols) (λ v. length ss))) in
      let decodes : Sends (write_symbols ss) (read_u32 >>= decode_symbols) ss =
        Sends-next (u32-Sends (length ss) counted) _ (decode_names-Sends ss t.symbols) in
      (received checks w w' rest e, received decodes w w' rest e)
