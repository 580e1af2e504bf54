-- ===== src/Codec/Code.antt =====
-- Code objects in src/frothy_snapshot_codec.c: frothy_snapshot_write_code_object, and the reads of
-- frothy_snapshot_decode_code_object. The storage is what is behind the arrays of the program.
pub mod RoundTrip
use froth.Base.{ℕ, zero, suc, Bool, ◌||◌, not, List, [], ◌∷◌, ltb, if◌then◌else◌, length}
use froth.Status.{Result, ok, err, snapshot_overflow}
use froth.Ir.{Literal, Node, Program}
use froth.Codec.Put.{Put, ◌>>◌, skip, write_u32, write_bytes}
use froth.Codec.Get.{Get, Input, ◌>>=◌, on_bytes, give, require, read_u32}
use froth.Codec.Nodes.{write_literal, write_node}
use froth.Codec.Decode.{u32, decode_literal, decode_node}

-- The members `code` of frothy_object_t but for its storage.
pub record Code : Type 0 where
  pub arity : ℕ
  pub local_count : ℕ
  pub body : ℕ
  pub program : Program

-- The eight numbers before the contents of a code object.
pub record Header : Type 0 where
  pub arity : ℕ
  pub local_count : ℕ
  pub body : ℕ
  pub root : ℕ
  pub root_local_count : ℕ
  pub literal_count : ℕ
  pub node_count : ℕ
  pub link_count : ℕ

unfoldable pub write_all : {A : Type 0} → (A → Put) → List A → Put
write_all f [] = skip
write_all f (x ∷ xs) = f x >> write_all f xs

unfoldable pub get_all : {A : Type 0} → ℕ → Get Input A → Get Input (List A)
get_all zero d = give []
get_all (suc left) d = d >>= λ x. get_all left d >>= λ xs. give (x ∷ xs)

-- The numbers before the contents, and the loops behind them.
unfoldable pub write_code_header : Code → Put
unfolding write_bytes
write_code_header code =
    write_u32 code.arity
    >> write_u32 code.local_count
    >> write_u32 code.body
    >> write_u32 code.program.root
    >> write_u32 code.program.root_local_count
    >> write_u32 (length code.program.literals)
    >> write_u32 (length code.program.nodes)
    >> write_u32 (length code.program.links)

unfoldable pub write_contents : ℕ → List (List ℕ) → Program → Put
unfolding write_all write_literal write_node write_bytes
write_contents invalid symbols program =
    write_all write_literal program.literals
    >> write_all (write_node invalid symbols) program.nodes
    >> write_all write_u32 program.links

-- frothy_snapshot_write_code_object
unfoldable pub write_code_object : ℕ → List (List ℕ) → Code → Put
unfolding write_code_header write_contents
write_code_object invalid symbols code =
    write_code_header code >> write_contents invalid symbols code.program

-- The first reads of frothy_snapshot_validate_code_object and of
-- frothy_snapshot_decode_code_object.
unfoldable pub read_code_header : Get (List ℕ) Header
unfolding read_u32
read_code_header = read_u32 >>= λ arity. read_u32 >>= λ local_count. read_u32 >>= λ body.
    read_u32 >>= λ root. read_u32 >>= λ root_locals. read_u32 >>= λ literals. read_u32 >>= λ nodes.
    read_u32 >>= λ links. give (record {
      arity = arity;
      local_count = local_count;
      body = body;
      root = root;
      root_local_count = root_locals;
      literal_count = literals;
      node_count = nodes;
      link_count = links;
    })

-- FROTHY_IR_LITERAL_CAPACITY, FROTHY_IR_NODE_CAPACITY, FROTHY_IR_LINK_CAPACITY
pub record Limits : Type 0 where
  pub literals : ℕ
  pub nodes : ℕ
  pub links : ℕ

abbrev pub within : Limits → Header → Bool
within limits h = not (
    ltb limits.literals h.literal_count
    || ltb limits.nodes h.node_count
    || ltb limits.links h.link_count)

-- The loops of frothy_snapshot_decode_code_object over the literals, the nodes and the links.
unfoldable pub decode_contents : ℕ → List (List ℕ) → Header → Get Input Program
unfolding get_all decode_literal decode_node read_u32
decode_contents invalid symbols h = get_all h.literal_count decode_literal >>= λ literals.
    get_all h.node_count (decode_node invalid symbols) >>= λ nodes.
    get_all h.link_count u32 >>= λ links. give (record {
      literals = literals;
      nodes = nodes;
      links = links;
      root = h.root;
      root_local_count = h.root_local_count;
    })

-- The reads of frothy_snapshot_decode_code_object, one after another. The storage is an argument here;
-- the measuring pass, which finds how much is allocated, is in Measure.
unfoldable pub decode_code : Limits → ℕ → List (List ℕ) → Get Input Code
unfolding read_code_header decode_contents
decode_code limits invalid symbols = on_bytes read_code_header >>= λ h.
    require (within limits h) snapshot_overflow >>= λ u.
    decode_contents invalid symbols h >>= λ program.
    give (record { arity = h.arity; local_count = h.local_count; body = h.body; program = program })
