-- ===== src/Parser/Scopes.antt =====
-- The names of src/frothy_parser.c: scopes, frames and locals, and what a name stands for.
pub mod Resolve
use froth.Base.{
  ℕ, suc, ◌+◌, ◌-◌, Bool, true, false, not, ◌&&◌, ◌||◌, Option, none, some, List, [], ◌∷◌, ltb, leb,
  ◌==◌, if◌then◌else◌, length, drop,
}
use froth.Status.{Result, ok, err, ◌>>=◌, signature}
use froth.Slots.Names.{same_bytes}
use froth.Parser.Capacity.{reserve}
use froth.Parser.Token.{Token, name_token, same_kind, token_text}
use froth.Parser.State.{Binding, Frame, Parser}

-- FROTHY_PARSER_BINDING_CAPACITY
abbrev pub parser_binding_capacity : ℕ
parser_binding_capacity = 128

-- FROTHY_PARSER_SCOPE_CAPACITY
abbrev pub parser_scope_capacity : ℕ
parser_scope_capacity = 32

-- FROTHY_PARSER_FRAME_CAPACITY
abbrev pub parser_frame_capacity : ℕ
parser_frame_capacity = 16

-- frothy_parser_reserve_bindings
abbrev pub reserve_bindings : ℕ → ℕ → Parser → Result ℕ
reserve_bindings size_max extra s =
    reserve size_max 8 parser_binding_capacity s.binding_capacity (length s.bindings + extra)

-- frothy_parser_reserve_scopes
abbrev pub reserve_scopes : ℕ → ℕ → Parser → Result ℕ
reserve_scopes size_max extra s =
    reserve size_max 4 parser_scope_capacity s.scope_capacity (length s.scopes + extra)

-- frothy_parser_reserve_frames
abbrev pub reserve_frames : ℕ → ℕ → Parser → Result ℕ
reserve_frames size_max extra s =
    reserve size_max 4 parser_frame_capacity s.frame_capacity (length s.frames + extra)

abbrev pub scope_pushed : Parser → ℕ → Parser
scope_pushed s c = record s { scopes = length s.bindings ∷ s.scopes; scope_capacity = c }

-- frothy_push_scope
unfoldable pub push_scope : ℕ → Parser → Result (Unit {0} × Parser)
push_scope size_max s = do c ← reserve_scopes size_max 1 s; ok (tt, scope_pushed s c)

-- The bindings below `start`.
abbrev pub bindings_below : ℕ → List Binding → List Binding
bindings_below start bs = drop (length bs - start) bs

abbrev pub pop_scopes : List ℕ → Parser → Parser
pop_scopes [] s = s
pop_scopes (start ∷ scopes) s = record s {
  bindings = bindings_below start s.bindings;
  scopes = scopes;
}

-- frothy_pop_scope
abbrev pub pop_scope : Parser → Parser
pop_scope s = pop_scopes s.scopes s

abbrev pub frame_pushed : Parser → Bool → ℕ → Parser
frame_pushed s reject c = record s {
  frames =
      record { scope_base = length s.scopes; next_local_index = 0; reject_outer_capture = reject }
      ∷ s.frames;
  frame_capacity = c;
}

-- frothy_push_frame
unfoldable pub push_frame : ℕ → Bool → Parser → Result (Unit {0} × Parser)
push_frame size_max reject s = do c ← reserve_frames size_max 1 s; ok (tt, frame_pushed s reject c)

-- frothy_current_frame
abbrev pub current_frame : List Frame → Option Frame
current_frame [] = none
current_frame (f ∷ fs) = some f

abbrev pub drop_frame : List Frame → List Frame
drop_frame [] = []
drop_frame (f ∷ fs) = fs

-- frothy_pop_frame
abbrev pub pop_frame : Parser → Parser
pop_frame s = record s { frames = drop_frame s.frames }

-- frame->next_local_index++
abbrev pub count_local : List Frame → List Frame
count_local [] = []
count_local (f ∷ fs) = record f { next_local_index = f.next_local_index + 1 } ∷ fs

-- The first loop of frothy_declare_local: does the scope chain_runs the name already?
unfoldable pub declared_in : ℕ → List ℕ → List Binding → Bool
declared_in scope name [] = false
declared_in scope name (b ∷ bs) =
    let rest = declared_in scope name bs in
    if not (b.scope_index == scope) then false else if same_bytes b.name name then true else rest

abbrev pub local_declared : Parser → List ℕ → Frame → ℕ → Parser
local_declared s name f c = record s {
  bindings =
      record { name = name; local_index = f.next_local_index; scope_index = length s.scopes - 1 }
      ∷ s.bindings;
  binding_capacity = c;
  frames = count_local s.frames;
}

-- frothy_declare_local
unfoldable pub declare_local_in : ℕ → Token → Option Frame → Parser → Result (ℕ × Parser)
declare_local_in size_max t none s = err signature
declare_local_in size_max t (some f) s =
    let room = reserve_bindings size_max 1 s in
    if length s.scopes == 0 || not (same_kind t.kind name_token)
    then err signature
    else if declared_in (length s.scopes - 1) (token_text t) s.bindings
    then err signature
    else (room >>= λ c. ok (f.next_local_index, local_declared s (token_text t) f c))

abbrev pub declare_local : ℕ → Token → Parser → Result (ℕ × Parser)
declare_local size_max t s = declare_local_in size_max t (current_frame s.frames) s

-- frothy_reserve_hidden_local
abbrev pub reserve_hidden_in : Option Frame → Parser → Result (ℕ × Parser)
reserve_hidden_in none s = err signature
reserve_hidden_in (some f) s = ok (f.next_local_index, record s { frames = count_local s.frames })

abbrev pub reserve_hidden_local : Parser → Result (ℕ × Parser)
reserve_hidden_local s = reserve_hidden_in (current_frame s.frames) s

-- What a name stands for.
pub data Resolved : Type 0 where
  local : ℕ → Resolved
  slot : List ℕ → Resolved

-- The second loop of frothy_resolve_name: is the name bound outside of the frame?
unfoldable pub bound_outside : List ℕ → List Binding → Bool
bound_outside name [] = false
bound_outside name (b ∷ bs) = same_bytes b.name name || bound_outside name bs

-- frothy_resolve_name behind its first loop.
abbrev pub resolve_outside : Frame → List ℕ → List Binding → Result Resolved
resolve_outside f name bs =
    if f.reject_outer_capture && bound_outside name bs then err signature else ok (slot name)

-- The first loop of frothy_resolve_name.
unfoldable pub resolve_in : Frame → List ℕ → List Binding → Result Resolved
resolve_in f name [] = resolve_outside f name []
resolve_in f name (b ∷ bs) =
    let rest = resolve_in f name bs in
    if ltb b.scope_index f.scope_base
    then resolve_outside f name (b ∷ bs)
    else if same_bytes b.name name
    then ok (local b.local_index)
    else rest

abbrev pub resolve_frame : Option Frame → List ℕ → List Binding → Result Resolved
resolve_frame none name bs = ok (slot name)
resolve_frame (some f) name bs = resolve_in f name bs

-- frothy_resolve_name
abbrev pub resolve_name : Token → Parser → Result Resolved
resolve_name t s = resolve_frame (current_frame s.frames) (token_text t) s.bindings
