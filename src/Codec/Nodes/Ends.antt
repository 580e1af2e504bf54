-- ===== src/Codec/Nodes/Ends.antt =====
-- The ends of the nodes that need more than their numbers, in src/frothy_snapshot_codec.c.
use froth.Base.{ℕ, ◌+◌, ◌^◌, ◌<◌, ◌≡◌, refl, ap, ◌∙◌, Bool, true, List, arith, length}
use froth.Status.{ok}
use froth.Ir.{Node, write_slot, write_slot_fallback, if_expr}
use froth.Codec.Put.{flag}
use froth.Codec.Get.{Input, ◌>>=◌, give}
use froth.Codec.Symbols.{symbol_index}
use froth.Codec.Symbols.Lookup.{symbol_index_lem}
use froth.Codec.Nodes.{encode_node_id, decode_node_id}
use froth.Codec.Decode.{copy_string, known, named, named_fallback, is_set}
use froth.Codec.Nodes.Portable.{room_of, copied, IsNodeId, ended, decode-encode_id, is_set-flag}

module _ (invalid : ℕ) (symbols : List (List ℕ)) (small : length symbols < 2 ^ 32) where
  -- The end of a node with one symbol.
  pub named_lem :
      (i : ℕ) (name : List ℕ) (node : List ℕ → Node) (rest : List ℕ) (room : ℕ)
      → symbol_index symbols name ≡ ok i
      → named symbols i node (rest, room + room_of name) ≡ ok (node name, (rest, room))
  named_lem i name node rest room e =
      let (inside, at) = symbol_index_lem symbols name i small e in
      let here : known symbols i ≡ true = ground arith in rw (here, at, copied name rest room) refl

  pub named_fallback_lem :
      (i j : ℕ) (name other : List ℕ) (node : List ℕ → List ℕ → Node) (rest : List ℕ) (room : ℕ)
      → symbol_index symbols name ≡ ok i
      → symbol_index symbols other ≡ ok j
      → named_fallback symbols i j node (rest, room + (room_of other + room_of name))
        ≡ ok (node name other, (rest, room))
  named_fallback_lem i j name other node rest room e e' =
      let (inside, at) = symbol_index_lem symbols name i small e in
      let (inside', at') = symbol_index_lem symbols other j small e' in
      let here : known symbols i ≡ true = ground arith in
      let here' : known symbols j ≡ true = ground arith in
      let grouped : room + (room_of other + room_of name) ≡ room + room_of other + room_of name =
        omega arith in
      rw
        (
          here,
          here',
          at,
          at',
          grouped,
          copied name rest (room + room_of other),
          copied other rest room,
        )
        refl

  pub index_small : (name : List ℕ) (i : ℕ) → symbol_index symbols name ≡ ok i → i < 2 ^ 32
  index_small name i e = let (inside, at) = symbol_index_lem symbols name i small e in omega arith

  pub copied_then :
      (name rest : List ℕ) (room : ℕ) (node : List ℕ → Node)
      → (copy_string name >>= λ t. give (node t)) (rest, room + room_of name)
        ≡ ok (node name, (rest, room))
  copied_then name rest room node = rw (copied name rest room) refl

  pub write_slot_end :
      (name : List ℕ) (v : ℕ) (b : Bool) (i : ℕ) (rest : List ℕ) (room : ℕ)
      → symbol_index symbols name ≡ ok i
      → named symbols i (λ t. write_slot t v (is_set (flag b))) (rest, room + room_of name)
        ≡ ok (write_slot name v b, (rest, room))
  write_slot_end name v b i rest room e =
      named_lem i name (λ t. write_slot t v (is_set (flag b))) rest room e
      ∙ ap (λ (x : Bool). ok (write_slot name v x, (rest, room))) (is_set-flag b)

  pub write_slot_fallback_end :
      (name other : List ℕ) (v : ℕ) (b : Bool) (i j : ℕ) (rest : List ℕ) (room : ℕ)
      → symbol_index symbols name ≡ ok i
      → symbol_index symbols other ≡ ok j
      → named_fallback symbols i j
          (λ t u. write_slot_fallback t u v (is_set (flag b)))
          (rest, room + (room_of other + room_of name))
        ≡ ok (write_slot_fallback name other v b, (rest, room))
  write_slot_fallback_end name other v b i j rest room e e' =
      named_fallback_lem i j name other (λ t u. write_slot_fallback t u v (is_set (flag b))) rest
        room e e'
      ∙ ap (λ (x : Bool). ok (write_slot_fallback name other v x, (rest, room))) (is_set-flag b)

  pub if_end :
      (c t e : ℕ) (b : Bool) (rest : List ℕ) (room : ℕ)
      → IsNodeId invalid e
      → give {S = Input}
          (if_expr c t (decode_node_id invalid (encode_node_id invalid e)) (is_set (flag b)))
          (rest, room + 0)
        ≡ ok (if_expr c t e b, (rest, room))
  if_end c t e b rest room h =
      rw (decode-encode_id invalid e h, is_set-flag b) (ended (if_expr c t e b) rest room)
