-- ===== src/Parser/Runs.antt =====
-- What every parse of src/frothy_parser.c keeps: the tokens and bytes left never grow, the pools only
-- grow, and the program stays well formed. Stated for runs that succeed and for those that fail.
pub mod Tokens
pub mod Nodes
pub mod Make
pub mod Params
pub mod Blocks
pub mod Control
pub mod Forms
pub mod Expr
pub mod Operators
pub mod Top
pub mod Render
pub mod Whole
use froth.Base.{
  ℕ, zero, suc, ◌+◌, ◌≤◌, ◌<◌, ◌≡◌, refl, sym, ◌∙◌, ◌⊎◌, inl, inr, Bool, true, false, Option, none,
  some, List, [], ◌∷◌, arith, ◌==◌, if◌then◌else◌, length, get_elem?, get_or,
}
use froth.Ir.{
  Literal, Node, lit, read_local, write_local, read_slot, write_slot, read_slot_fallback,
  write_slot_fallback, slot_designator, record_def, read_index, write_index, read_field,
  write_field, fn, call, if_expr, while_expr, seq, unknown_node,
}
use froth.Parser.Token.{TokenKind, eof_token, Token, same_kind, bytes_from, kind_code}
use froth.Parser.State.{
  Pools, Parser, Outcome, done, failed, overread, out_of_fuel, Parse, chain_runs, settle,
}
use froth.Parser.Pools.{ir_literal_capacity, ir_node_capacity, ir_link_capacity}

-- 1 for a token that can be passed, 0 for the end of the source and a token that was moved away.
abbrev pub weight : Token → ℕ
weight t = if kind_code t.kind == 0 then 0 else 1

-- What is left to read: the two tokens and the bytes behind them.
abbrev pub cost : Parser → ℕ
cost s = weight s.current + weight s.next + length (bytes_from s.cursor)

-- The links from `first` on exist and are below the bound.
abbrev pub RangeBelow : List ℕ → ℕ → ℕ → ℕ → Type 0
RangeBelow links first count bound =
    (first + count ≤ length links)
    × ((j : ℕ) → first ≤ j → j < first + count → get_or links j 0 < bound)

-- A node with id `i` refers to nodes below `i` only, to literals that exist, and to links that
-- exist and name such nodes. Nothing is said of the fields of a record definition.
abbrev pub NodeFits : ℕ → List ℕ → ℕ → Node → Type 0
NodeFits literals links i (lit id) = id < literals
NodeFits literals links i (read_local a) = Unit {0}
NodeFits literals links i (write_local a value) = value < i
NodeFits literals links i (read_slot a) = Unit {0}
NodeFits literals links i (write_slot a value b) = value < i
NodeFits literals links i (read_slot_fallback a b) = Unit {0}
NodeFits literals links i (write_slot_fallback a b value c) = value < i
NodeFits literals links i (slot_designator a) = Unit {0}
NodeFits literals links i (record_def a first count) = Unit {0}
NodeFits literals links i (read_index base index) = (base < i) × (index < i)
NodeFits literals links i (write_index base index value) = (base < i) × (index < i) × (value < i)
NodeFits literals links i (read_field base a) = base < i
NodeFits literals links i (write_field base a value) = (base < i) × (value < i)
NodeFits literals links i (fn a b body) = body < i
NodeFits literals links i (call builtin callee first count) =
    (builtin ≡ 0 → callee < i) × RangeBelow links first count i
NodeFits literals links i (if_expr condition then_branch else_branch has_else) =
    (condition < i) × (then_branch < i) × (has_else ≡ true → else_branch < i)
NodeFits literals links i (while_expr condition body) = (condition < i) × (body < i)
NodeFits literals links i (seq first count) = RangeBelow links first count i
NodeFits literals links i (unknown_node k) = Unit {0}

-- The pools hold what their capacities say, within the limits, and every node fits.
pub record IsWell (p : Pools) : Type 0 where
  pub literals_fit : length p.literals ≤ p.literal_capacity
  pub literals_limit : p.literal_capacity ≤ ir_literal_capacity
  pub nodes_fit : length p.nodes ≤ p.node_capacity
  pub nodes_limit : p.node_capacity ≤ ir_node_capacity
  pub links_fit : length p.links ≤ p.link_capacity
  pub links_limit : p.link_capacity ≤ ir_link_capacity
  pub node_fits :
      (i : ℕ) (n : Node) → get_elem? p.nodes i ≡ some n → NodeFits (length p.literals) p.links i n

pub record Step (s t : Parser) : Type 0 where
  pub cost_le : cost t ≤ cost s
  pub literals_le : length s.program.literals ≤ length t.program.literals
  pub nodes_le : length s.program.nodes ≤ length t.program.nodes
  pub links_le : length s.program.links ≤ length t.program.links
  pub links_kept :
      (j : ℕ) → j < length s.program.links → get_or t.program.links j 0 ≡ get_or s.program.links j 0
  pub keeps : IsWell s.program → IsWell t.program

pub Step-refl : (s : Parser) → Step s s
Step-refl s = record {
  cost_le = omega arith;
  literals_le = omega arith;
  nodes_le = omega arith;
  links_le = omega arith;
  links_kept = λ j l. refl;
  keeps = λ w. w;
}

pub Step-trans : {s t u : Parser} → Step s t → Step t u → Step s u
Step-trans {s} {t} {u} p q = record {
  cost_le = omega (arith, p.cost_le, q.cost_le);
  literals_le = omega (arith, p.literals_le, q.literals_le);
  nodes_le = omega (arith, p.nodes_le, q.nodes_le);
  links_le = omega (arith, p.links_le, q.links_le);
  links_kept = λ j l. q.links_kept j (omega (arith, p.links_le)) ∙ p.links_kept j l;
  keeps = λ w. q.keeps (p.keeps w);
}

-- A step that leaves the program alone.
pub Step-same : (s t : Parser) → t.program ≡ s.program → cost t ≤ cost s → Step s t
Step-same s t e c = record {
  cost_le = c;
  literals_le = rw e (omega arith);
  nodes_le = rw e (omega arith);
  links_le = rw e (omega arith);
  links_kept = λ j l. rw e refl;
  keeps = λ w. rw e w;
}

-- A run from `s` that does not run out of fuel; `Q` holds of what it returns.
pub data Runs (s : Parser) {A : Type 0} (Q : A → Parser → Type 0)
    : Outcome A × Parser → Type 0 where
  returns : {a : A} {t : Parser} → Step s t → Q a t → Runs s Q (done a, t)
  fails : {e : _} {t : Parser} → Step s t → Runs s Q (failed e, t)
  overreads : {t : Parser} → Step s t → Runs s Q (overread, t)

pub Runs-from :
    {B : Type 0} {s t : Parser} {Q : B → Parser → Type 0} {o : Outcome B × Parser}
    → Step s t
    → Runs t Q o
    → Runs s Q o
Runs-from st (returns st' q) = returns (Step-trans st st') q
Runs-from st (fails st') = fails (Step-trans st st')
Runs-from st (overreads st') = overreads (Step-trans st st')

module _ {A B : Type 0} {s : Parser} {P : A → Parser → Type 0} {Q : B → Parser → Type 0} where
  pub Runs-bind :
      {o : Outcome A × Parser} {f : A → Parse B}
      → Runs s P o
      → ((a : A) (t : Parser) → Step s t → P a t → Runs t Q (f a t))
      → Runs s Q (chain_runs o f)
  Runs-bind (returns {a} {t} st p) k = Runs-from st (k a t st p)
  Runs-bind (fails st) k = fails st
  Runs-bind (overreads st) k = overreads st

-- A later run seen from `s`, with its own step kept.
pub Runs-later :
    {A : Type 0} {s t : Parser} {P : A → Parser → Type 0} {o : Outcome A × Parser}
    → Step s t
    → Runs t P o
    → Runs s (λ a u. Step t u × P a u) o
Runs-later st (returns su p) = returns (Step-trans st su) (su, p)
Runs-later st (fails su) = fails (Step-trans st su)
Runs-later st (overreads su) = overreads (Step-trans st su)

-- A chain with every run seen from `s`.
pub Runs-rooted :
    {A B : Type 0} {s : Parser} {P : A → Parser → Type 0} {Q : B → Parser → Type 0}
    {o : Outcome A × Parser} {f : A → Parse B}
    → Runs s P o
    → ((a : A) (t : Parser) → Step s t → P a t → Runs s Q (f a t))
    → Runs s Q (chain_runs o f)
Runs-rooted (returns {a} {t} st p) k = k a t st p
Runs-rooted (fails st) k = fails st
Runs-rooted (overreads st) k = overreads st

module _ {A : Type 0} {s : Parser} {P Q : A → Parser → Type 0} where
  pub Runs-weaken :
      {o : Outcome A × Parser}
      → Runs s P o
      → ((a : A) (t : Parser) → Step s t → P a t → Q a t)
      → Runs s Q o
  Runs-weaken (returns {a} {t} st p) k = returns st (k a t st p)
  Runs-weaken (fails st) k = fails st
  Runs-weaken (overreads st) k = overreads st

  pub Runs-settle :
      {o : Outcome A × Parser} {f : Parser → Parser}
      → Runs s P o
      → ((t : Parser) → Step t (f t))
      → ((a : A) (t : Parser) → Step s t → P a t → Q a (f t))
      → Runs s Q (settle o f)
  Runs-settle (returns {a} {t} st p) g k = returns (Step-trans st (g t)) (k a t st p)
  Runs-settle (fails {e} {t} st) g k = fails (Step-trans st (g t))
  Runs-settle (overreads {t} st) g k = overreads (Step-trans st (g t))

-- A run of a conditional, with the test known.
pub Runs-if :
    {A : Type 0} (s : Parser) (Q : A → Parser → Type 0) (b : Bool) (m k : Parse A)
    → (b ≡ true → Runs s Q (m s))
    → (b ≡ false → Runs s Q (k s))
    → Runs s Q ((if b then m else k) s)
Runs-if s Q true m k f g = f refl
Runs-if s Q false m k f g = g refl

-- A node was made, and less than `c` is left.
abbrev pub Made : ℕ → ℕ → Parser → Type 0
Made c id t = (id < length t.program.nodes) × (cost t < c)

-- Less than `c` is left.
abbrev pub Left : {A : Type 0} → ℕ → A → Parser → Type 0
Left c a t = cost t < c
