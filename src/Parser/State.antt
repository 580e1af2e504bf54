-- ===== src/Parser/State.antt =====
-- The state of a parse (src/frothy_parser.c) and how its functions are chained. Bindings, scopes and frames are stacks, the last one first.
use froth.Base.{ℕ, Bool, Option, List}
use froth.Status.{Error, Result, ok, err}
use froth.Ir.{Literal, Node}
use froth.Parser.Token.{Token}

-- frothy_binding_t
pub record Binding : Type 0 where
  pub name : List ℕ
  pub local_index : ℕ
  pub scope_index : ℕ

-- frothy_frame_t
pub record Frame : Type 0 where
  pub scope_base : ℕ
  pub next_local_index : ℕ
  pub reject_outer_capture : Bool

-- The growing program: the arrays of frothy_ir_program_t with their capacities.
pub record Pools : Type 0 where
  pub literals : List Literal
  pub literal_capacity : ℕ
  pub nodes : List Node
  pub node_capacity : ℕ
  pub links : List ℕ
  pub link_capacity : ℕ

-- frothy_parser_t. A scope is its binding_start.
pub record Parser : Type 0 where
  pub cursor : Option (List ℕ)
  pub prev_token_end : Option (List ℕ)
  pub prefer_block_on_spaced_bracket : Bool
  pub current : Token
  pub next : Token
  pub program : Pools
  pub bindings : List Binding
  pub binding_capacity : ℕ
  pub scopes : List ℕ
  pub scope_capacity : ℕ
  pub frames : List Frame
  pub frame_capacity : ℕ
  pub active_prefix : Option (List ℕ)

-- A status with its value. `overread` is a read behind the closing 0 of the source, on which C gives
-- no result; `out_of_fuel` has no counterpart in the program.
pub data Outcome (A : Type 0) : Type 0 where
  done : A → Outcome A
  failed : Error → Outcome A
  overread out_of_fuel : Outcome A

-- A function that parses an `A`. What it did before a failure stays done.
abbrev pub Parse : Type 0 → Type 0
Parse A = Parser → Outcome A × Parser

abbrev pub chain_runs : {A B : Type 0} → Outcome A × Parser → (A → Parse B) → Outcome B × Parser
chain_runs (done a, s) f = f a s
chain_runs (failed e, s) f = (failed e, s)
chain_runs (overread, s) f = (overread, s)
chain_runs (out_of_fuel, s) f = (out_of_fuel, s)

-- FROTH_TRY
infixl 5 ◌>>=◌ ◌>>◌
abbrev pub ◌>>=◌ : {A B : Type 0} → Parse A → (A → Parse B) → Parse B
(m >>= f) s = chain_runs (m s) f

abbrev pub ◌>>◌ : {A B : Type 0} → Parse A → Parse B → Parse B
m >> k = m >>= λ _. k

abbrev pub pure : {A : Type 0} → A → Parse A
pure a s = (done a, s)

abbrev pub fail : {A : Type 0} → Error → Parse A
fail e s = (failed e, s)

abbrev pub get : Parse Parser
get s = (done s, s)

abbrev pub put : Parser → Parse (Unit {0})
put t s = (done tt, t)

abbrev pub of_result : {A : Type 0} → Result A → Parse A
of_result (ok a) s = (done a, s)
of_result (err e) s = (failed e, s)

abbrev pub stepped : {A : Type 0} → Result (A × Parser) → Parse A
stepped (ok (a, t)) s = (done a, t)
stepped (err e) s = (failed e, s)

-- A function that changes the parser only where it succeeds.
abbrev pub of_step : {A : Type 0} → (Parser → Result (A × Parser)) → Parse A
of_step f s = stepped (f s) s

abbrev pub settle : {A : Type 0} → Outcome A × Parser → (Parser → Parser) → Outcome A × Parser
settle (o, s) after = (o, after s)

-- Runs `after` on whatever the parse leaves, and keeps its status.
abbrev pub finally : {A : Type 0} → Parse A → (Parser → Parser) → Parse A
finally m after s = settle (m s) after
