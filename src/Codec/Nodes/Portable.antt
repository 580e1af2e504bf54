-- ===== src/Codec/Nodes/Portable.antt =====
-- What the format of src/frothy_snapshot_codec.c can hold, and the parts of a node.
use froth.Base.{
  ℕ, ◌+◌, ◌-◌, ◌^◌, ◌<◌, ◌≡◌, refl, ap, ◌⊎◌, Bool, true, false, not, List, arith, ltb, ◌==◌, length,
  inl, inr,
}
use froth.Status.{Error, Result, ok, err}
use froth.Ir.{
  Node, lit, read_local, write_local, read_slot, write_slot, read_slot_fallback,
  write_slot_fallback, slot_designator, read_index, write_index, read_field, write_field, fn, call,
  if_expr, while_expr, seq, unknown_node,
}
use froth.Codec.Put.{Put, Writer, flag}
use froth.Codec.Get.{Get, Input, give}
use froth.Codec.Transmit.{Transmits}
use froth.Codec.Nodes.{fail, indexed, encode_node_id, decode_node_id}
use froth.Codec.Decode.{copy_string}

-- The storage that a string takes.
abbrev pub room_of : List ℕ → ℕ
room_of name = length name + 1

abbrev pub node_room : Node → ℕ
node_room (read_slot name) = room_of name
node_room (write_slot name v b) = room_of name
node_room (read_slot_fallback name other) = room_of other + room_of name
node_room (write_slot_fallback name other v b) = room_of other + room_of name
node_room (slot_designator name) = room_of name
node_room (read_field base name) = room_of name
node_room (write_field base name v) = room_of name
node_room _ = 0

pub copied :
    (name rest : List ℕ) (room : ℕ)
    → copy_string name (rest, room + room_of name) ≡ ok (name, (rest, room))
unfolding copy_string
copied name rest room =
    let fits : ltb (room + room_of name) (length name + 1) ≡ false = ground arith in
    let left : room + room_of name - (length name + 1) ≡ room = omega arith in rw (fits, left) refl

-- What the format holds of an id, of a string and of a node: 32 bits for a number, with the largest
-- for no node, a byte for a builtin, and no empty field name.
abbrev pub IsWord : ℕ → Type 0
IsWord v = v < 2 ^ 32

abbrev pub IsNodeId : ℕ → ℕ → Type 0
IsNodeId invalid id = (id ≡ invalid) ⊎ (id < 2 ^ 32 - 1)

abbrev pub IsPortable : ℕ → Node → Type 0
IsPortable invalid (lit id) = IsWord id
IsPortable invalid (read_local i) = IsWord i
IsPortable invalid (write_local i v) = IsWord i × IsWord v
IsPortable invalid (write_slot name v b) = IsWord v
IsPortable invalid (write_slot_fallback name other v b) = IsWord v
IsPortable invalid (read_index base i) = IsWord base × IsWord i
IsPortable invalid (write_index base i v) = IsWord base × IsWord i × IsWord v
IsPortable invalid (read_field base name) = IsWord base × (0 < length name)
IsPortable invalid (write_field base name v) = IsWord base × (0 < length name) × IsWord v
IsPortable invalid (fn arity locals body) = IsWord arity × IsWord locals × IsWord body
IsPortable invalid (call builtin callee first n) =
    (builtin < 2 ^ 8) × IsNodeId invalid callee × IsWord first × IsWord n
IsPortable invalid (if_expr c t e b) = IsWord c × IsWord t × IsNodeId invalid e
IsPortable invalid (while_expr c body) = IsWord c × IsWord body
IsPortable invalid (seq first n) = IsWord first × IsWord n
IsPortable invalid (unknown_node k) = k < 2 ^ 8
IsPortable invalid _ = Unit {0}

pub ended :
    {A : Type 0} (a : A) (rest : List ℕ) (room : ℕ)
    → give {S = Input} a (rest, room + 0) ≡ ok (a, (rest, room))
ended a rest room =
    let same : room + 0 ≡ room = omega arith in ap (λ (x : ℕ). ok (a, (rest, x))) same

-- A write that fails transmits anything.
pub fails : {A : Type 0} (e : Error) (d : Get Input A) (n : ℕ) (a : A) → Transmits (fail e) d n a
fails e d n a = record {
  run = λ w w' h. let bad : err e ≡ ok tt = ap (λ (t : Result (Unit {0}) × Writer). t.0) h in cc;
}

pub through_index :
    {A : Type 0} (r : Result ℕ) (k : ℕ → Put) (d : Get Input A) (n : ℕ) (a : A)
    → ((i : ℕ) → r ≡ ok i → Transmits (k i) d n a)
    → Transmits (indexed r k) d n a
through_index (ok i) k d n a h = h i refl
through_index (err e) k d n a h = fails e d n a

pub decode-encode_id :
    (invalid id : ℕ) → IsNodeId invalid id → decode_node_id invalid (encode_node_id invalid id) ≡ id
decode-encode_id invalid id (inl h) = ground arith
decode-encode_id invalid id (inr h) = ground arith

pub encoded_small : (invalid id : ℕ) → encode_node_id invalid id < 2 ^ 32
encoded_small invalid id = ground arith

pub is_set-flag : (b : Bool) → not (flag b == 0) ≡ b
is_set-flag true = refl
is_set-flag false = refl

pub flag_small : (b : Bool) → flag b < 2 ^ 8
flag_small true = omega arith
flag_small false = omega arith
