-- ===== src/Parser/Runs/Params.antt =====
-- Parameter lists, functions and the look ahead (src/frothy_parser.c) end within their fuel and keep
-- the program well formed. In each lemma `c` is a bound on what is left.
use froth.Base.{
  ℕ, zero, suc, ◌+◌, ◌-◌, ◌≤◌, ◌<◌, ◌≡◌, refl, inl, inr, Bool, true, false, not, ◌&&◌, ◌||◌, Option,
  none, some, List, [], ◌∷◌, arith, length, Bool-cases, if◌then◌else◌, ◌==◌,
}
use froth.Status.{Result, ok, err, Result-cases}
use froth.Parser.Token.{Token, equal, name_token, lparen, rparen, kw_with, same_kind, token_text}
use froth.Parser.Lexer.{Host}
use froth.Parser.Scopes.{
  reserve_bindings, reserve_scopes, reserve_frames, push_scope, push_frame, pop_scopes, pop_scope,
  pop_frame, declare_local_in, declared_in, local_declared, reserve_hidden_in, scope_pushed,
  frame_pushed, current_frame,
}
use froth.Parser.State.{
  Frame, Parser, Outcome, done, failed, overread, out_of_fuel, Parse, stepped, ◌>>◌, pure,
}
use froth.Parser.Advance.{at, pass_token, enter_scope, enter_frame, declare, hidden_local}
use froth.Parser.Params.{
  ParamsKind, params_none, params_list, params_with, BodyKind, body_block, body_expr,
  parse_parameter, parameter_list_loop, parse_parameter_list, with_list_loop,
  parse_with_parameter_list, parse_params, arity_or_zero, parse_body, fn_contents, make_fn,
  parse_fn_node, name_and_comma, named_fn_loop, named_fn_ahead, match_top_level_named_fn,
  named_fn_kind, look,
}
use froth.Parser.Runs.{
  weight, cost, Step, Step-refl, Step-same, Runs, returns, fails, overreads, Runs-bind, Runs-weaken,
  Runs-settle, Runs-if, Made, Left,
}
use froth.Parser.Runs.Tokens.{pass_token-Runs, Runs-require, expect-Runs, take_name-Runs}
use froth.Parser.Runs.Nodes.{add_node-Runs}
use froth.Parser.Runs.Make.{make_single_item_seq_node-Runs}

-- A function over names changes neither the program nor what is left.
abbrev Steps : {A : Type 0} → Parser → Result (A × Parser) → Type 0
Steps s (ok (a, t)) = Step s t
Steps s (err e) = Unit {0}

stepped-Runs :
    {A : Type 0} (r : Result (A × Parser)) (s : Parser) (c : ℕ)
    → cost s < c
    → Steps s r
    → Runs s (Left c) (stepped r s)
stepped-Runs (ok (a, t)) s c l st = returns st (omega (arith, st.cost_le))
stepped-Runs (err e) s c l st = fails (Step-refl s)

pop_scopes-Step : (scopes : List ℕ) (s : Parser) → Step s (pop_scopes scopes s)
pop_scopes-Step [] s = Step-refl s
pop_scopes-Step (start ∷ scopes) s = Step-same s _ refl (omega arith)

pub pop_scope-Step : (s : Parser) → Step s (pop_scope s)
pop_scope-Step s = pop_scopes-Step s.scopes s

pub pop_frame-Step : (s : Parser) → Step s (pop_frame s)
pop_frame-Step s = Step-same s (pop_frame s) refl (omega arith)

module _ (h : Host) where
  pub enter_scope-Runs : (s : Parser) (c : ℕ) → cost s < c → Runs s (Left c) (enter_scope h s)
  unfolding push_scope
  enter_scope-Runs s c l = elim (Result-cases (reserve_scopes h.size_max 1 s)) [
    | inl (k, e) ↦ simp e (returns (Step-same s (scope_pushed s k) refl (omega arith)) l)
    | inr (x, e) ↦ simp e (fails (Step-refl s))
  ]

  pub enter_frame-Runs :
      (reject : Bool) (s : Parser) (c : ℕ) → cost s < c → Runs s (Left c) (enter_frame h reject s)
  unfolding push_frame
  enter_frame-Runs reject s c l = elim (Result-cases (reserve_frames h.size_max 1 s)) [
    | inl (k, e) ↦ simp e (returns (Step-same s (frame_pushed s reject k) refl (omega arith)) l)
    | inr (x, e) ↦ simp e (fails (Step-refl s))
  ]

  declare_local_in-Steps :
      (t : Token) (o : Option Frame) (s : Parser) → Steps s (declare_local_in h.size_max t o s)
  unfolding declare_local_in
  declare_local_in-Steps t none s = tt
  declare_local_in-Steps t (some f) s =
      elim (Bool-cases (length s.scopes == 0 || not (same_kind t.kind name_token))) [
        | inl bad ↦ simp bad tt
        | inr good ↦
            elim (Bool-cases (declared_in (length s.scopes - 1) (token_text t) s.bindings)) [
              | inl twice ↦ simp (good, twice) tt
              | inr fresh ↦ elim (Result-cases (reserve_bindings h.size_max 1 s)) [
                | inl (k, e) ↦
                    simp (good, fresh, e)
                      (Step-same s (local_declared s (token_text t) f k) refl (omega arith))
                | inr (x, e) ↦ simp (good, fresh, e) tt
              ]
            ]
      ]

  pub declare-Runs : (t : Token) (s : Parser) (c : ℕ) → cost s < c → Runs s (Left c) (declare h t s)
  declare-Runs t s c l = stepped-Runs _ s c l (declare_local_in-Steps t (current_frame s.frames) s)

  reserve_hidden_in-Steps : (o : Option Frame) (s : Parser) → Steps s (reserve_hidden_in o s)
  reserve_hidden_in-Steps none s = tt
  reserve_hidden_in-Steps (some f) s = Step-same s _ refl (omega arith)

  pub hidden_local-Runs : (s : Parser) (c : ℕ) → cost s < c → Runs s (Left c) (hidden_local h s)
  hidden_local-Runs s c l =
      stepped-Runs _ s c l (reserve_hidden_in-Steps (current_frame s.frames) s)

  -- Passing a token, where less than `c` was left already.
  pub pass_token-Left : (s : Parser) (c : ℕ) → cost s < c → Runs s (Left c) (pass_token h s)
  pass_token-Left s c l = Runs-weaken (pass_token-Runs h s) (λ _ t st p. omega (arith, st.cost_le))

  -- A flag is returned, behind a token that is passed where the flag is set.
  pub comma_flag-Runs :
      (b : Bool) (s : Parser) (c : ℕ)
      → cost s < c
      → Runs s (Left c) ((if b then pass_token h >> pure true else pure false) s)
  comma_flag-Runs b s c l =
      Runs-if s _ b _ _ (λ e. Runs-bind (pass_token-Left s c l) λ _ t st p. returns (Step-refl t) p)
        (λ e. returns (Step-refl s) l)

  parse_parameter-Runs : (s : Parser) (c : ℕ) → cost s ≤ c → Runs s (Left c) (parse_parameter h s)
  unfolding parse_parameter
  parse_parameter-Runs s c l =
      Runs-bind (take_name-Runs h s) λ t u st p.
        Runs-bind (declare-Runs t u c (omega arith)) λ i v st' q. comma_flag-Runs _ v c q

  parameter_list_loop-Runs :
      (n arity : ℕ) (s : Parser) (c : ℕ)
      → cost s < n
      → cost s < c
      → Runs s (Left c) (parameter_list_loop h n arity s)
  unfolding parameter_list_loop
  parameter_list_loop-Runs zero arity s c f l = elim f [ ]
  parameter_list_loop-Runs (suc n) arity s c f l =
      Runs-if s _ (at rparen s) _ _ (λ e. returns (Step-refl s) l)
        λ e. Runs-bind (parse_parameter-Runs s (cost s) (omega arith)) λ more t st p.
          Runs-if t _ more _ _
            (λ e. parameter_list_loop-Runs n (arity + 1) t c (omega arith) (omega arith))
            (λ e. returns (Step-refl t) (omega arith))

  with_list_loop-Runs :
      (n arity : ℕ) (s : Parser) (c : ℕ)
      → cost s < n
      → cost s < c
      → Runs s (Left c) (with_list_loop h n arity s)
  unfolding with_list_loop
  with_list_loop-Runs zero arity s c f l = elim f [ ]
  with_list_loop-Runs (suc n) arity s c f l =
      Runs-bind (parse_parameter-Runs s (cost s) (omega arith)) λ more t st p.
        Runs-if t _ more _ _
          (λ e. with_list_loop-Runs n (arity + 1) t c (omega arith) (omega arith))
          (λ e. returns (Step-refl t) (omega arith))

  arity_or_zero-Runs :
      (s : Parser) (c : ℕ) (o : Outcome ℕ × Parser)
      → cost s < c
      → Runs s (Left c) o
      → Runs s (Left c) (arity_or_zero h o)
  arity_or_zero-Runs s c (done a, t) l (returns st p) = returns st p
  arity_or_zero-Runs s c (failed e, t) l (fails st) = returns st (omega (arith, st.cost_le))
  arity_or_zero-Runs s c (overread, t) l (overreads st) = overreads st
  arity_or_zero-Runs s c (out_of_fuel, t) l r = elim r [ ]

  pub parse_params-Runs :
      (n : ℕ) (params : ParamsKind) (s : Parser) (c : ℕ)
      → cost s < n
      → cost s < c
      → Runs s (Left c) (parse_params h n params s)
  unfolding parse_params parse_parameter_list parse_with_parameter_list
  parse_params-Runs n params_none s c f l = returns (Step-refl s) l
  parse_params-Runs n params_list s c f l = arity_or_zero-Runs s c _ l (
      Runs-bind (expect-Runs h s lparen (omega arith)) λ _ t st p.
        Runs-bind (parameter_list_loop-Runs n 0 t c (omega arith) (omega arith)) λ a u st' q.
          Runs-bind (expect-Runs h u rparen (omega arith))
            λ _ v st'' r. returns (Step-refl v) (omega arith))
  parse_params-Runs n params_with s c f l =
      Runs-bind (expect-Runs h s kw_with (omega arith))
        λ _ t st p. with_list_loop-Runs n 0 t c (omega arith) (omega arith)

  name_and_comma-Runs : (s : Parser) (c : ℕ) → cost s ≤ c → Runs s (Left c) (name_and_comma h s)
  unfolding name_and_comma
  name_and_comma-Runs s c l = Runs-require h s _ (at name_token s) _ λ e.
      let full : weight s.current ≡ 1 = ground arith in
      Runs-bind (pass_token-Runs h s) λ _ t st p. comma_flag-Runs _ t c (omega (arith, full))

  named_fn_loop-Runs :
      (n : ℕ) (s : Parser) (c : ℕ) → cost s < n → cost s < c → Runs s (Left c) (named_fn_loop h n s)
  unfolding named_fn_loop
  named_fn_loop-Runs zero s c f l = elim f [ ]
  named_fn_loop-Runs (suc n) s c f l =
      Runs-if s _ (at rparen s) _ _ (λ e. returns (Step-refl s) l)
        λ e. Runs-bind (name_and_comma-Runs s (cost s) (omega arith)) λ more t st p.
          Runs-if t _ more _ _ (λ e. named_fn_loop-Runs n t c (omega arith) (omega arith))
            (λ e. returns (Step-refl t) (omega arith))

  named_fn_ahead-Runs :
      (n : ℕ) (s : Parser) (c : ℕ)
      → cost s < n
      → cost s < c
      → Runs s (Left c) (named_fn_ahead h n s)
  unfolding named_fn_ahead
  named_fn_ahead-Runs n s c f l =
      Runs-require h s _ (at name_token s && same_kind s.next.kind lparen) _ λ e.
        Runs-bind (pass_token-Left s c l) λ _ t st p.
          Runs-bind (expect-Runs h t lparen (omega arith)) λ _ u st' q.
            Runs-bind (named_fn_loop-Runs n u c (omega (arith, st.cost_le)) (omega arith))
              λ _ v sv r. Runs-weaken (expect-Runs h v rparen (omega arith)) λ _ w sw x. omega arith

  look-Runs :
      (s : Parser) (c : ℕ) (o : Outcome (Unit {0}) × Parser)
      → cost s < c
      → Runs s (Left c) o
      → Runs s (Left c) (look o (named_fn_kind h) s)
  look-Runs s c (done a, t) l (returns st p) = returns (Step-refl s) l
  look-Runs s c (failed e, t) l (fails st) = returns (Step-refl s) l
  look-Runs s c (overread, t) l (overreads st) = overreads (Step-refl s)
  look-Runs s c (out_of_fuel, t) l r = elim r [ ]

  -- The look ahead ends and leaves the parser as it is.
  pub match_top_level_named_fn-Runs :
      (n : ℕ) (s : Parser) (c : ℕ)
      → cost s < n
      → cost s < c
      → Runs s (Left c) (match_top_level_named_fn h n s)
  unfolding match_top_level_named_fn
  match_top_level_named_fn-Runs n s c f l = look-Runs s c _ l (named_fn_ahead-Runs n s c f l)

-- An expression parser that ends within `e`, and so for a block.
abbrev pub Parses : ℕ → Parse ℕ → Type 0
Parses e m = (s : Parser) (c : ℕ) → cost s < e → cost s ≤ c → Runs s (Made c) (m s)

-- The same for a form that begins with a token, so that `e` itself may be left.
abbrev pub Begins : ℕ → Parse ℕ → Type 0
Begins e m = (s : Parser) (c : ℕ) → cost s ≤ e → cost s ≤ c → Runs s (Made c) (m s)

-- Popping keeps what was made.
pub Made-pop :
    (f : Parser → Parser) (c id : ℕ) (t : Parser) → Step t (f t) → Made c id t → Made c id (f t)
Made-pop f c id t st p = (omega (arith, st.nodes_le), omega (arith, st.cost_le))

module _ (h : Host) (room : 1024 ≤ h.size_max) (e n : ℕ) (fuel : e ≤ n)
    (parse_expr : Bool → Parse ℕ) (E : (top : Bool) → Parses e (parse_expr top))
    (parse_block : Parse ℕ) (B : Begins e parse_block) where
  parse_body-Runs :
      (kind : BodyKind) (s : Parser) (c : ℕ)
      → cost s ≤ e
      → cost s ≤ c
      → Runs s (Made c) (parse_body h parse_expr parse_block kind s)
  unfolding parse_body
  parse_body-Runs body_block s c f l = B s c f l
  parse_body-Runs body_expr s c f l = Runs-bind (expect-Runs h s equal (omega arith)) λ _ t st p.
      Runs-bind (E false t c (omega arith) (omega arith))
        λ id u st' q. make_single_item_seq_node-Runs h.size_max room id u c q.1 q.0

  -- The arity, the count of locals, and a body that was made.
  abbrev MadeBody : ℕ → ℕ × ℕ × ℕ → Parser → Type 0
  MadeBody c (arity, locals, body) t = Made c body t

  fn_contents-Runs :
      (params : ParamsKind) (kind : BodyKind) (s : Parser) (c : ℕ)
      → cost s < e
      → cost s < c
      → Runs s (MadeBody c) (fn_contents h parse_expr parse_block n params kind s)
  unfolding fn_contents
  fn_contents-Runs params kind s c f l =
      Runs-bind (parse_params-Runs h n params s c (omega arith) l) λ a t st p.
        Runs-bind (parse_body-Runs kind t c (omega (arith, st.cost_le)) (omega arith))
          λ b u st' q. returns (Step-refl u) q

  make_fn-Runs :
      (r : ℕ × ℕ × ℕ) (s : Parser) (c : ℕ)
      → MadeBody c r s
      → Runs s (Made c) (make_fn h parse_expr parse_block r s)
  make_fn-Runs (a, k, b) s c (m, l) = add_node-Runs h.size_max room s _ c l m

  -- A function ends within the fuel; frame and scope are popped whatever it does.
  pub parse_fn_node-Runs :
      (params : ParamsKind) (kind : BodyKind) (s : Parser) (c : ℕ)
      → cost s < e
      → cost s < c
      → Runs s (Made c) (parse_fn_node h parse_expr parse_block n params kind s)
  unfolding parse_fn_node
  parse_fn_node-Runs params kind s c f l = Runs-bind (enter_frame-Runs h true s c l) λ _ t st p.
      Runs-bind
        (Runs-settle
          (Runs-bind (enter_scope-Runs h t c p) λ _ u st' q.
            Runs-settle
              (fn_contents-Runs params kind u c (omega (arith, st.cost_le, st'.cost_le)) q)
              pop_scope-Step (λ (a, k, b) v sv r. Made-pop pop_scope c b v (pop_scope-Step v) r))
          pop_frame-Step (λ (a, k, b) v sv r. Made-pop pop_frame c b v (pop_frame-Step v) r))
        λ r w sw x. make_fn-Runs r w c x
