-- ===== src/Parser/Runs/Whole.antt =====
-- Whole sources (src/frothy_parser.c): a parse ends within the fuel that it is given, and the program
-- that it returns is well formed.
use froth.Base.{ℕ, ◌≤◌, ◌<◌, ◌≡◌, ◌≢◌, refl, Bool, some, List, arith, length, get_elem?}
use froth.Ir.{Node, Program}
use froth.Parser.Lexer.{Host}
use froth.Parser.State.{Parser, Outcome, done, failed, overread, out_of_fuel}
use froth.Parser.Top.{initial_parser, finished, parse_with_fuel, fuel_for}
use froth.Parser.Runs.{NodeFits, IsWell, Runs, returns, fails, overreads}
use froth.Parser.Runs.Top.{parse_source-Runs}

-- What a parse from the first byte has made.
record Parsed (p : Program) : Type 0 where
  root_lt : p.root < length p.nodes
  literals_le : length p.literals ≤ 128
  nodes_le : length p.nodes ≤ 512
  links_le : length p.links ≤ 512
  node_fits :
      (i : ℕ) (n : Node) → get_elem? p.nodes i ≡ some n → NodeFits (length p.literals) p.links i n

abbrev Ends : Outcome (Program × ℕ) → Type 0
Ends (done (p, consumed)) = Parsed p
Ends (failed e) = Unit {0}
Ends overread = Unit {0}
Ends out_of_fuel = ⊥

module _ (h : Host) (source : List ℕ) where
  initial-IsWell : IsWell (initial_parser h source).program
  initial-IsWell = record {
    literals_fit = omega arith;
    literals_limit = omega arith;
    nodes_fit = omega arith;
    nodes_limit = omega arith;
    links_fit = omega arith;
    links_limit = omega arith;
    node_fits = λ i n e. cc;
  }

  finished-Ends :
      (o : Outcome ℕ × Parser)
      → Runs (initial_parser h source) (λ root t. root < length t.program.nodes) o
      → Ends (finished h source o)
  finished-Ends (done root, t) (returns st l) =
      let w = st.keeps initial-IsWell in
      record {
        root_lt = l;
        literals_le = omega (arith, w.literals_fit, w.literals_limit);
        nodes_le = omega (arith, w.nodes_fit, w.nodes_limit);
        links_le = omega (arith, w.links_fit, w.links_limit);
        node_fits = w.node_fits;
      }
  finished-Ends (failed e, t) (fails st) = tt
  finished-Ends (overread, t) (overreads st) = tt
  finished-Ends (out_of_fuel, t) r = elim r [ ]

  whole-Ends :
      (require_eof : Bool)
      → 1024 ≤ h.size_max
      → Ends (parse_with_fuel h (fuel_for h source) require_eof source)
  unfolding parse_with_fuel
  whole-Ends require_eof room = finished-Ends _ (
      parse_source-Runs h room (fuel_for h source) require_eof (initial_parser h source)
        (omega arith) refl)

-- Parsing a source ends within a fuel of one more than the length of the source: the model never runs
-- out of it. SIZE_MAX is at least 1024, twice the largest limit of a pool.
pub parse_with_fuel-ne-out_of_fuel :
    (h : Host) (source : List ℕ) (require_eof : Bool)
    → 1024 ≤ h.size_max
    → parse_with_fuel h (fuel_for h source) require_eof source ≢ out_of_fuel
parse_with_fuel-ne-out_of_fuel h source require_eof room e =
    rw e at (whole-Ends h source require_eof room)

parsed :
    (h : Host) (source : List ℕ) (require_eof : Bool) (p : Program) (consumed : ℕ)
    → 1024 ≤ h.size_max
    → parse_with_fuel h (fuel_for h source) require_eof source ≡ done (p, consumed)
    → Parsed p
parsed h source require_eof p consumed room e = rw e at (whole-Ends h source require_eof room)

-- A program that the parser returns has a root among its nodes, at most 128 literals, 512 nodes and
-- 512 links. SIZE_MAX is at least 1024.
pub parse_with_fuel_bounds :
    (h : Host) (source : List ℕ) (require_eof : Bool) (p : Program) (consumed : ℕ)
    → 1024 ≤ h.size_max
    → parse_with_fuel h (fuel_for h source) require_eof source ≡ done (p, consumed)
    → (p.root < length p.nodes)
      × (length p.literals ≤ 128)
      × (length p.nodes ≤ 512)
      × (length p.links ≤ 512)
parse_with_fuel_bounds h source require_eof p consumed room e =
    let w = parsed h source require_eof p consumed room e in
    (w.root_lt, w.literals_le, w.nodes_le, w.links_le)

-- Every node of a program that the parser returns refers to literals that exist and to nodes with
-- smaller ids only, directly or through links that exist; so no node leads back to itself. The
-- fields of a record definition are not covered. SIZE_MAX is at least 1024.
pub parse_with_fuel-NodeFits :
    (h : Host) (source : List ℕ) (require_eof : Bool) (p : Program) (consumed i : ℕ) (n : Node)
    → 1024 ≤ h.size_max
    → parse_with_fuel h (fuel_for h source) require_eof source ≡ done (p, consumed)
    → get_elem? p.nodes i ≡ some n
    → NodeFits (length p.literals) p.links i n
parse_with_fuel-NodeFits h source require_eof p consumed i n room e at =
    (parsed h source require_eof p consumed room e).node_fits i n at
