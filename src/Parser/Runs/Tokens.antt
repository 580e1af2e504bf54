-- ===== src/Parser/Runs/Tokens.antt =====
-- The lexer and the moves over tokens (src/frothy_parser.c) never give more to read than there was,
-- and passing a token leaves less.
use froth.Base.{
  ℕ, suc, ◌+◌, ◌-◌, ◌*◌, ◌/◌, ◌≤◌, ◌≡◌, ◌≢◌, refl, Bool, true, false, Option, none, some, List, [],
  ◌∷◌, ◌++◌, inl, inr, arith, ltb, ◌==◌, length, take, Bool-cases, Option-cases,
}
use froth.Names.{is_start, is_slot_continue}
use froth.Parser.Token.{
  TokenKind, Token, kind_code, bytes_from, is_block_start, is_binding_operator, is_set_operator,
  no_token, name_token,
}
use froth.Parser.Lexer.{
  Host, Scan, scanned, scan_failed, unescape, lex_text_loop, lex_text, lex_number_loop, lex_number,
  skip_name, lex_name, keyword, skip_space, Lexed, token_read, lex_failed, number_lexed, text_lexed,
  name_lexed, token_to, lex_punct, lex_at, lex_next, value_int_max,
}
use froth.Parser.State.{Parser, Parse, chain_runs}
use froth.Parser.Advance.{
  at, shifted, lexed, lex_into_next, pass_token, require, expect, expect_block_start,
  expect_binding_operator, expect_set_operator, take_name,
}
use froth.Parser.Runs.{
  weight, cost, Step-refl, Step-same, Runs, returns, fails, overreads, Runs-from, Runs-bind,
  Runs-weaken,
}

-- What a scan leaves of `n` bytes.
abbrev pub Scans : {A : Type 0} → ℕ → Scan A → Type 0
Scans n (scanned a cursor) = length cursor ≤ n
Scans n (scan_failed e cursor) = length (bytes_from cursor) ≤ n

Scans-mono : {A : Type 0} (n m : ℕ) (r : Scan A) → n ≤ m → Scans n r → Scans m r
Scans-mono n m (scanned a cursor) l h = omega arith
Scans-mono n m (scan_failed e cursor) l h = omega arith

pub lex_text_loop-Scans : (bs buffer : List ℕ) → Scans (length bs) (lex_text_loop bs buffer)
unfolding lex_text_loop
lex_text_loop-Scans [] buffer = omega arith
lex_text_loop-Scans (b ∷ []) buffer = ground arith
lex_text_loop-Scans (b ∷ (c ∷ cs)) buffer =
    let plain =
      Scans-mono _ (length (b ∷ (c ∷ cs))) _ (omega arith)
        (lex_text_loop-Scans (c ∷ cs) (buffer ++ b ∷ [])) in
    elim (Option-cases (unescape c)) [
      | inl none_is ↦ rw none_is (ground arith)
      | inr (d, some_is) ↦
          let escaped =
            Scans-mono _ (length (b ∷ (c ∷ cs))) _ (omega arith)
              (lex_text_loop-Scans cs (buffer ++ d ∷ [])) in
          rw some_is (ground arith)
    ]

pub lex_number_loop-Scans :
    (is_digit : ℕ → Bool) (bs : List ℕ) (value : ℕ)
    → Scans (length bs) (lex_number_loop is_digit bs value)
unfolding lex_number_loop
lex_number_loop-Scans is_digit [] value = omega arith
lex_number_loop-Scans is_digit (b ∷ bs) value =
    let rest =
      Scans-mono _ (length (b ∷ bs)) _ (omega arith)
        (lex_number_loop-Scans is_digit bs (value * 10 + (b - b'0'))) in
    ground arith

pub skip_name-le :
    (continues : ℕ → Bool) (bs : List ℕ) → length (skip_name continues bs) ≤ length bs
unfolding skip_name
skip_name-le continues [] = omega arith
skip_name-le continues (b ∷ bs) = ground (arith, skip_name-le continues bs)

pub skip_space-le :
    (is_space : ℕ → Bool) (comment : Bool) (bs : List ℕ)
    → length (skip_space is_space comment bs) ≤ length bs
unfolding skip_space
skip_space-le is_space comment [] = omega arith
skip_space-le is_space false (b ∷ bs) =
    ground (arith, skip_space-le is_space false bs, skip_space-le is_space true bs)
skip_space-le is_space true (b ∷ bs) =
    ground (arith, skip_space-le is_space false bs, skip_space-le is_space true bs)

-- What lexing leaves of `n` bytes: a token that is not the end takes at least one of them.
abbrev pub Lexes : ℕ → Lexed → Type 0
Lexes n (token_read t cursor) = weight t + length cursor ≤ n
Lexes n (lex_failed e t cursor) = weight t + length (bytes_from cursor) ≤ n

Lexes-mono : (n m : ℕ) (r : Lexed) → n ≤ m → Lexes n r → Lexes m r
Lexes-mono n m (token_read t cursor) l h = omega arith
Lexes-mono n m (lex_failed e t cursor) l h = omega arith

number_lexed-Lexes :
    (n : ℕ) (start : List ℕ) (r : Scan ℕ) → Scans n r → Lexes (suc n) (number_lexed start r)
number_lexed-Lexes n start (scanned v cursor) h = omega arith
number_lexed-Lexes n start (scan_failed e cursor) h = omega arith

text_lexed-Lexes :
    (n : ℕ) (start : List ℕ) (r : Scan (List ℕ)) → Scans n r → Lexes (suc n) (text_lexed start r)
text_lexed-Lexes n start (scanned v cursor) h = omega arith
text_lexed-Lexes n start (scan_failed e cursor) h = omega arith

lex_text-Lexes : (quote : ℕ) (bs : List ℕ) → Lexes (suc (length bs)) (lex_text quote bs)
unfolding lex_text
lex_text-Lexes quote bs = text_lexed-Lexes _ _ _ (lex_text_loop-Scans bs [])

lex_number-Lexes :
    (is_digit : ℕ → Bool) (b : ℕ) (bs : List ℕ)
    → is_digit b ≡ true
    → Lexes (suc (length bs)) (lex_number is_digit (b ∷ bs))
unfolding lex_number lex_number_loop
lex_number-Lexes is_digit b bs d = elim (Bool-cases (ltb ((value_int_max - (b - b'0')) / 10) 0)) [
  | inl over ↦ rw (d, over) (omega arith)
  | inr fits ↦
      rw (d, fits)
        (number_lexed-Lexes _ _ _ (lex_number_loop-Scans is_digit bs (0 * 10 + (b - b'0'))))
]

weight-le : (t : Token) → weight t ≤ 1
weight-le t = ground arith

name_lexed-Lexes :
    (start cursor : List ℕ) (n : ℕ) → length cursor ≤ n → Lexes (suc n) (name_lexed start cursor)
name_lexed-Lexes start cursor n l =
    omega (
      arith,
      weight-le (token_to (keyword (take (length start - length cursor) start)) start cursor),
    )

lex_name-Lexes :
    (continues : ℕ → Bool) (b : ℕ) (bs : List ℕ) → Lexes (suc (length bs)) (lex_name continues b bs)
unfolding lex_name
lex_name-Lexes continues b bs = name_lexed-Lexes (b ∷ bs) _ _ (skip_name-le continues bs)

lex_punct-Lexes : (b : ℕ) (bs : List ℕ) → Lexes (suc (length bs)) (lex_punct b bs)
unfolding lex_punct
lex_punct-Lexes b [] = ground arith
lex_punct-Lexes b (c ∷ cs) = ground arith

lex_at-Lexes : (h : Host) (bs : List ℕ) → Lexes (length bs) (lex_at h bs)
unfolding lex_at
lex_at-Lexes h [] = omega arith
lex_at-Lexes h (b ∷ bs) = elim (Bool-cases (is_start h.is_alpha h.is_alnum b)) [
  | inl name ↦ rw name (lex_name-Lexes (is_slot_continue h.is_alpha h.is_alnum) b bs)
  | inr other ↦ elim (Bool-cases (h.is_digit b)) [
    | inl digit ↦ rw (other, digit) (lex_number-Lexes h.is_digit b bs digit)
    | inr rest ↦ elim (Bool-cases (b == b'"')) [
      | inl quote ↦ rw (other, rest, quote) (lex_text-Lexes b bs)
      | inr not_quote ↦ rw (other, rest, not_quote) (lex_punct-Lexes b bs)
    ]
  ]
]

-- What is read is at most what there was, less what the white space took.
pub lex_next-Lexes : (h : Host) (bs : List ℕ) → Lexes (length bs) (lex_next h bs)
unfolding lex_next
lex_next-Lexes h bs = Lexes-mono _ _ _ (skip_space-le h.is_space false bs) (lex_at-Lexes h _)

lexed-Runs :
    (h : Host) (s : Parser) (bs : List ℕ) (r : Lexed)
    → s.cursor ≡ some bs
    → weight s.next ≡ 0
    → Lexes (length bs) r
    → Runs s (λ _ t. cost t ≤ cost s) (lexed h r s)
lexed-Runs h s bs (token_read t cursor) c n l =
    let le : weight s.current + weight t + length cursor ≤ cost s = rw c (omega arith) in
    returns (Step-same s (record s { next = t; cursor = some cursor }) refl le) le
lexed-Runs h s bs (lex_failed e t cursor) c n l =
    let le : weight s.current + weight t + length (bytes_from cursor) ≤ cost s =
      rw c (omega arith) in
    fails (Step-same s (record s { next = t; cursor = cursor }) refl le)

pub lex_into_next-Runs :
    (h : Host) (s : Parser) (c : Option (List ℕ))
    → s.cursor ≡ c
    → weight s.next ≡ 0
    → Runs s (λ _ t. cost t ≤ cost s) (lex_into_next h c s)
lex_into_next-Runs h s none c n = overreads (Step-refl s)
lex_into_next-Runs h s (some bs) c n = lexed-Runs h s bs _ c n (lex_next-Lexes h bs)

-- Passing the current token leaves at least its weight less.
pub pass_token-Runs :
    (h : Host) (s : Parser) → Runs s (λ _ t. cost t + weight s.current ≤ cost s) (pass_token h s)
unfolding pass_token
pass_token-Runs h s =
    Runs-weaken
      (Runs-from (Step-same s (shifted h s) refl (omega arith))
        (lex_into_next-Runs h (shifted h s) s.cursor refl refl))
      (λ _ t st p. omega (arith, p))

pub Runs-require :
    {A : Type 0} (h : Host) (s : Parser) (Q : A → Parser → Type 0) (b : Bool)
    (f : Unit {0} → Parse A)
    → (b ≡ true → Runs s Q (f tt s))
    → Runs s Q (chain_runs (require h b s) f)
Runs-require h s Q true f k = k refl
Runs-require h s Q false f k = fails (Step-refl s)

-- A token that the parser requires is passed.
abbrev pub Passed : {A : Type 0} → ℕ → A → Parser → Type 0
Passed c a t = suc (cost t) ≤ c

module _ (h : Host) (s : Parser) where
  Passed-Runs :
      (b : Bool)
      → (b ≡ true → weight s.current ≡ 1)
      → Runs s (Passed (cost s)) (chain_runs (require h b s) (λ _. pass_token h))
  Passed-Runs b w =
      Runs-require h s _ b _
        λ e. Runs-weaken (pass_token-Runs h s) (λ _ v st q. omega (arith, q, w e))

  pub expect-Runs : (k : TokenKind) → kind_code k ≢ 0 → Runs s (Passed (cost s)) (expect h k s)
  unfolding expect
  expect-Runs k n = Passed-Runs (at k s) (λ e. ground arith)

  pub expect_binding_operator-Runs : Runs s (Passed (cost s)) (expect_binding_operator h s)
  unfolding expect_binding_operator
  expect_binding_operator-Runs =
      Passed-Runs (is_binding_operator s.current.kind) (λ e. ground arith)

  pub expect_set_operator-Runs : Runs s (Passed (cost s)) (expect_set_operator h s)
  unfolding expect_set_operator
  expect_set_operator-Runs = Passed-Runs (is_set_operator s.current.kind) (λ e. ground arith)

  -- The block's end is not the end of the source.
  pub expect_block_start-Runs :
      Runs s (λ k t. Passed (cost s) k t × (kind_code k ≢ 0)) (expect_block_start h s)
  unfolding expect_block_start
  expect_block_start-Runs = Runs-require h s _ (is_block_start s.current.kind) _ λ e.
      let full : weight s.current ≡ 1 = ground arith in
      Runs-bind (pass_token-Runs h s)
        λ _ t st p. returns (Step-refl t) (omega (arith, p, full), ground arith)

  pub take_name-Runs : Runs s (Passed (cost s)) (take_name h s)
  unfolding take_name
  take_name-Runs = Runs-require h s _ (at name_token s) _ λ e.
      let moved : Parser = record s { current = no_token } in
      let full : weight s.current ≡ 1 = ground arith in
      Runs-from (Step-same s moved refl (omega arith)) (
        Runs-bind (pass_token-Runs h moved)
          λ _ t st p. returns (Step-refl t) (omega (arith, p, full)))
