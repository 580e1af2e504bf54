-- ===== src/Codec/Code/RoundTrip.antt =====
-- A code object of src/frothy_snapshot_codec.c is decoded as it was written.
use froth.Base.{
  All, ℕ, ◌+◌, ◌^◌, ◌<◌, ◌≡◌, refl, ap, ◌∙◌, Bool, true, List, [], ◌∷◌, arith, length, drop, ◌++◌,
}
use froth.Base.Int.{IsInt32}
use froth.Status.{ok, snapshot_format, snapshot_overflow}
use froth.Ir.{Literal, int_literal, bool_literal, nil_literal, text_literal, unknown_literal}
use froth.Codec.Put.{Put, Writer, flag, write_u32}
use froth.Codec.Get.{Get, Input, ◌>>=◌, give, require}
use froth.Codec.Transmit.{
  Sends, Transmits, Sends-next, Sends-packed, beside_strings, next, last, in_turn, packed, nothing,
}
use froth.Codec.Fields.{drop-append, u8-Sends, u32-Sends, i32-Sends, bytes-Sends}
use froth.Codec.Nodes.{write_literal, write_node}
use froth.Codec.Nodes.Portable.{
  room_of, node_room, copied, IsWord, IsPortable, ended, fails, is_set-flag, flag_small,
}
use froth.Codec.Nodes.RoundTrip.{decode-write_node}
use froth.Codec.Decode.{decode_literal, decode_literal_fields, decode_node, u32}
use froth.Codec.Code.{
  Code, Header, Limits, within, write_all, get_all, write_code_object, write_code_header,
  write_contents, decode_code, read_code_header, decode_contents,
}

abbrev pub literal_room : Literal → ℕ
literal_room (text_literal t) = room_of t
literal_room _ = 0

abbrev pub IsPortableLiteral : Literal → Type 0
IsPortableLiteral (int_literal z) = IsInt32 z
IsPortableLiteral (text_literal t) = IsWord (length t)
IsPortableLiteral (unknown_literal k) = k < 2 ^ 8
IsPortableLiteral _ = Unit {0}

-- A literal is decoded as it was written.
pub decode-write_literal :
    (l : Literal)
    → IsPortableLiteral l
    → Transmits (write_literal l) decode_literal (literal_room l) l
unfolding write_literal decode_literal decode_literal_fields
decode-write_literal (int_literal z) p =
    next (u8-Sends 0 (omega arith)) _ (last (i32-Sends z p) _ (ended (int_literal z)))
decode-write_literal (bool_literal b) p = next (u8-Sends 1 (omega arith)) _ (
    last (u8-Sends (flag b) (flag_small b)) _ λ rest room.
      ap (λ (x : Bool). ok (bool_literal x, (rest, room + 0))) (is_set-flag b)
      ∙ ended (bool_literal b) rest room)
decode-write_literal nil_literal p = next (u8-Sends 2 (omega arith)) _ (nothing nil_literal)
decode-write_literal (text_literal t) p = next (u8-Sends 3 (omega arith)) _ (
    next (u32-Sends (length t) p) _
      (last (bytes-Sends t) _ λ rest room. rw (copied t rest room) refl))
decode-write_literal (unknown_literal k) p = next (u8-Sends k p) _ (fails snapshot_format _ _ _)

abbrev pub total : {A : Type 0} → (A → ℕ) → List A → ℕ
total room [] = 0
total room (x ∷ xs) = total room xs + room x

module _ {A : Type 0} (P : A → Type 0) (room : A → ℕ) where
  -- A loop that writes the parts of a list, and one that reads as many.
  get_all-write_all :
      (f : A → Put) (d : Get Input A)
      → ((x : A) → P x → Transmits (f x) d (room x) x)
      → (xs : List A) → All P xs
      → Transmits (write_all f xs) (get_all (length xs) d) (total room xs) xs
  unfolding write_all get_all
  get_all-write_all f d each [] p = nothing []
  get_all-write_all f d each (x ∷ xs) (p, q) =
      in_turn (each x p) _ (packed (get_all-write_all f d each xs q) (λ ys. x ∷ ys))

abbrev pub header_of : Code → Header
header_of code = record {
  arity = code.arity;
  local_count = code.local_count;
  body = code.body;
  root = code.program.root;
  root_local_count = code.program.root_local_count;
  literal_count = length code.program.literals;
  node_count = length code.program.nodes;
  link_count = length code.program.links;
}

-- What the format can hold of a program and of a code object.
pub record IsPortableCode (limits : Limits) (invalid : ℕ) (code : Code) : Type 0 where
  pub arity : IsWord code.arity
  pub local_count : IsWord code.local_count
  pub body : IsWord code.body
  pub root : IsWord code.program.root
  pub root_local_count : IsWord code.program.root_local_count
  pub literal_count : IsWord (length code.program.literals)
  pub node_count : IsWord (length code.program.nodes)
  pub link_count : IsWord (length code.program.links)
  pub fits : within limits (header_of code) ≡ true
  pub literals : All IsPortableLiteral code.program.literals
  pub nodes : All (IsPortable invalid) code.program.nodes
  pub links : All IsWord code.program.links

abbrev pub code_room : Code → ℕ
code_room code =
    total (λ v. 0) code.program.links
    + total node_room code.program.nodes
    + total literal_room code.program.literals

word : (v : ℕ) → IsWord v → Transmits (write_u32 v) u32 0 v
word v p = beside_strings (u32-Sends v p)

module _ (limits : Limits) (invalid : ℕ) (symbols : List (List ℕ))
    (small : length symbols < 2 ^ 32) where
  header-Sends :
      (code : Code)
      → IsPortableCode limits invalid code
      → Sends (write_code_header code) read_code_header (header_of code)
  unfolding write_code_header read_code_header
  header-Sends code p = Sends-next (u32-Sends code.arity p.arity) _ (
      Sends-next (u32-Sends code.local_count p.local_count) _ (
        Sends-next (u32-Sends code.body p.body) _ (
          Sends-next (u32-Sends code.program.root p.root) _ (
            Sends-next (u32-Sends code.program.root_local_count p.root_local_count) _ (
              Sends-next (u32-Sends (length code.program.literals) p.literal_count) _ (
                Sends-next (u32-Sends (length code.program.nodes) p.node_count) _
                  (Sends-packed (u32-Sends (length code.program.links) p.link_count) _)))))))

  decode-write_contents :
      (code : Code)
      → IsPortableCode limits invalid code
      → Transmits
          (write_contents invalid symbols code.program)
          (decode_contents invalid symbols (header_of code))
          (code_room code)
          code.program
  unfolding write_contents decode_contents
  decode-write_contents code p =
      in_turn
        (get_all-write_all IsPortableLiteral literal_room write_literal decode_literal
          decode-write_literal code.program.literals p.literals)
        _
        (in_turn
          (get_all-write_all (IsPortable invalid) node_room (write_node invalid symbols)
            (decode_node invalid symbols) (decode-write_node invalid symbols small)
            code.program.nodes p.nodes)
          _
          (packed (get_all-write_all IsWord (λ v. 0) write_u32 u32 word code.program.links p.links)
            (λ links. record {
              literals = code.program.literals;
              nodes = code.program.nodes;
              links = links;
              root = code.program.root;
              root_local_count = code.program.root_local_count;
            })))

  -- What is left of the decoder behind the numbers.
  decode-write_rest :
      (code : Code)
      → IsPortableCode limits invalid code
      → Transmits
          (write_contents invalid symbols code.program)
          (require (within limits (header_of code)) snapshot_overflow >>= λ u.
            decode_contents invalid symbols (header_of code) >>= λ program.
            give {S = Input} {A = Code} (record {
              arity = code.arity;
              local_count = code.local_count;
              body = code.body;
              program = program;
            }))
          (code_room code)
          code
  decode-write_rest code p = rw p.fits (
      packed (decode-write_contents code p) (λ program. record {
        arity = code.arity;
        local_count = code.local_count;
        body = code.body;
        program = program;
      }))

  transmits_code :
      (code : Code)
      → IsPortableCode limits invalid code
      → Transmits
          (write_code_object invalid symbols code)
          (decode_code limits invalid symbols)
          (code_room code)
          code
  unfolding write_code_object decode_code
  transmits_code code p = next (header-Sends code p) _ (decode-write_rest code p)

  -- A code object that the format can hold is decoded as it was written, where the writer succeeds:
  -- from the bytes that were added to the buffer the decoder gives the same numbers, literals, nodes
  -- and links, it leaves the bytes that follow, and takes the storage that the strings need and no
  -- more.
  pub decode-write_code_object :
      (code : Code) (w w' : Writer) (rest : List ℕ) (room : ℕ)
      → IsPortableCode limits invalid code
      → write_code_object invalid symbols code w ≡ (ok tt, w')
      → decode_code limits invalid symbols
          (drop (length w.bytes) w'.bytes ++ rest, room + code_room code)
        ≡ ok (code, (rest, room))
  decode-write_code_object code w w' rest room p e =
      let (bs, q, r) = (transmits_code code p).run w w' e in
      let added : drop (length w.bytes) w'.bytes ≡ bs =
        ap (λ (v : Writer). drop (length w.bytes) v.bytes) q ∙ drop-append w.bytes bs in
      ap (λ (x : List ℕ). decode_code limits invalid symbols (x ++ rest, room + code_room code))
        added
      ∙ r rest room
