-- ===== src/Parser/Advance/Bracket.antt =====
-- A bracket behind another token in src/frothy_parser.c. A token of punctuation has length 0, so its
-- end is its start.
use froth.Base.{
  ℕ, ◌+◌, ◌-◌, ◌≤◌, ◌≡◌, refl, ap, ◌∙◌, Bool, true, false, not, ◌&&◌, ◌||◌, Option, none, some,
  List, [], ◌∷◌, arith, leb, ◌==◌, if◌then◌else◌, length, take, drop, length-drop, Bool-cases, inl,
  inr,
}
use froth.Names.{is_start, is_slot_continue}
use froth.Parser.Token.{TokenKind, Token, kind_code, lbracket}
use froth.Parser.Lexer.{
  Host, Scan, scanned, scan_failed, Lexed, token_read, lex_failed, lex_next, lex_at, lex_punct,
  lex_text, lex_text_loop, text_lexed, lex_number, lex_number_loop, number_lexed, lex_name,
  name_lexed, skip_name, skip_space, keyword,
}
use froth.Parser.State.{Parser, done}
use froth.Parser.Advance.{shifted, lexed, lex_into_next, pass_token}
use froth.Parser.Expr.{leaves_bracket}
use froth.Parser.Runs.Tokens.{
  Scans, lex_text_loop-Scans, lex_number_loop-Scans, skip_name-le, skip_space-le,
}

-- The kinds of the tokens that the switch of frothy_lex_next makes.
abbrev pub is_punctuation : TokenKind → Bool
is_punctuation k = leb 4 (kind_code k) && leb (kind_code k) 26

-- A token read from these bytes starts at the first of them. Punctuation has length 0 and takes a byte
-- at least, and any other token has the length of the bytes it takes.
abbrev Covers : List ℕ → Lexed → Type 0
Covers bs (token_read t cursor) =
    (t.start ≡ some bs)
    × (t.length ≡ (if is_punctuation t.kind then 0 else length bs - length cursor))
    × (length cursor + (if is_punctuation t.kind then 1 else 0) ≤ length bs)
Covers bs (lex_failed e t cursor) = Unit {0}

not_punctuation : (w : List ℕ) → is_punctuation (keyword w) ≡ false
unfolding keyword
not_punctuation w = ground arith

name_lexed-Covers :
    (start cursor : List ℕ) → length cursor ≤ length start → Covers start (name_lexed start cursor)
name_lexed-Covers start cursor h =
    rw (not_punctuation (take (length start - length cursor) start)) (refl, refl, omega arith)

text_lexed-Covers :
    (b : ℕ) (bs : List ℕ) (r : Scan (List ℕ))
    → Scans (length bs) r
    → Covers (b ∷ bs) (text_lexed (b ∷ bs) r)
text_lexed-Covers b bs (scanned text cursor) h = (refl, refl, omega arith)
text_lexed-Covers b bs (scan_failed e cursor) h = tt

number_lexed-Covers :
    (bs : List ℕ) (r : Scan ℕ) → Scans (length bs) r → Covers bs (number_lexed bs r)
number_lexed-Covers bs (scanned value cursor) h = (refl, refl, omega arith)
number_lexed-Covers bs (scan_failed e cursor) h = tt

lex_punct-Covers : (b : ℕ) (bs : List ℕ) → Covers (b ∷ bs) (lex_punct b bs)
unfolding lex_punct
lex_punct-Covers b [] = ground arith
lex_punct-Covers b (c ∷ cs) = ground arith

lex_at-Covers : (h : Host) (bs : List ℕ) → Covers bs (lex_at h bs)
unfolding lex_at lex_name lex_number lex_text
lex_at-Covers h [] = (refl, refl, omega arith)
lex_at-Covers h (b ∷ bs) = elim (Bool-cases (is_start h.is_alpha h.is_alnum b)) [
  | inl name ↦
      let continues = is_slot_continue h.is_alpha h.is_alnum in
      let shorter = skip_name-le continues bs in
      rw name (name_lexed-Covers (b ∷ bs) (skip_name continues bs) (omega (arith, shorter)))
  | inr other ↦ elim (Bool-cases (h.is_digit b)) [
    | inl digit ↦
        rw (other, digit)
          (number_lexed-Covers (b ∷ bs) (lex_number_loop h.is_digit (b ∷ bs) 0)
            (lex_number_loop-Scans h.is_digit (b ∷ bs) 0))
    | inr rest ↦ elim (Bool-cases (b == b'"')) [
      | inl quote ↦
          rw (other, rest, quote)
            (text_lexed-Covers b bs (lex_text_loop bs []) (lex_text_loop-Scans bs []))
      | inr not_quote ↦ rw (other, rest, not_quote) (lex_punct-Covers b bs)
    ]
  ]
]

-- The same of a token that was read behind white space.
read-Covers :
    (h : Host) (bs : List ℕ) (t : Token) (cursor : List ℕ)
    → lex_next h bs ≡ token_read t cursor
    → Covers (skip_space h.is_space false bs) (token_read t cursor)
unfolding lex_next
read-Covers h bs t cursor e = rw e at (lex_at-Covers h (skip_space h.is_space false bs))

lexed-leaves :
    (h : Host) (r : Lexed) (s t : Parser)
    → lexed h r s ≡ (done tt, t)
    → leaves_bracket t ≡ leaves_bracket s
unfolding leaves_bracket
lexed-leaves h (token_read k c) s t e = ground arith
lexed-leaves h (lex_failed x k c) s t e = cc

lex_into_next-leaves :
    (h : Host) (c : Option (List ℕ)) (s t : Parser)
    → lex_into_next h c s ≡ (done tt, t)
    → leaves_bracket t ≡ leaves_bracket s
lex_into_next-leaves h none s t e = cc
lex_into_next-leaves h (some bs) s t e = lexed-leaves h (lex_next h bs) s t e

-- The end of a token from `a` bytes to `c` bytes is not where a token of `b` bytes begins.
apart :
    (punctuation : Bool) (a l c b : ℕ)
    → l ≡ (if punctuation then 0 else a - c)
    → c + (if punctuation then 1 else 0) ≤ a
    → b ≤ c
    → not (a - l == b) ≡ (punctuation || not (c == b))
apart true a l c b e h k = ground arith
apart false a l c b e h k = ground arith

-- Where the two tokens of a parser were read one behind the other and the second is a bracket,
-- passing the first, where the token behind the bracket can be read, leaves the bracket to a block
-- exactly if a block is preferred, and the first token is punctuation or white space or a comment
-- stands between the two: behind punctuation a bracket is left even if nothing stands between.
pub pass_token-leaves_bracket :
    (h : Host) (s t : Parser) (p q : Token) (bs cs ds : List ℕ)
    → lex_next h bs ≡ token_read p cs
    → lex_next h cs ≡ token_read q ds
    → q.kind ≡ lbracket
    → s.current ≡ p
    → s.next ≡ q
    → pass_token h s ≡ (done tt, t)
    → leaves_bracket t ≡ (
        s.prefer_block_on_spaced_bracket
        && (is_punctuation p.kind || not (length cs == length (skip_space h.is_space false cs))))
unfolding pass_token leaves_bracket
pass_token-leaves_bracket h s t p q bs cs ds first second bracket current next e =
    let before = read-Covers h bs p cs first in
    let behind = read-Covers h cs q ds second in
    let start = skip_space h.is_space false bs in
    let after_space = skip_space-le h.is_space false cs in
    let gone : length (drop p.length start) ≡ length start - p.length =
      length-drop p.length start in
    let here : leaves_bracket (shifted h s) ≡ (
        s.prefer_block_on_spaced_bracket
        && (is_punctuation p.kind || not (length cs == length (skip_space h.is_space false cs)))) =
      simp (current, next, bracket, before.0, behind.0, gone)
        (ap (λ (x : Bool). s.prefer_block_on_spaced_bracket && x)
          (apart (is_punctuation p.kind) (length start) p.length (length cs)
            (length (skip_space h.is_space false cs)) before.1 before.2 after_space)) in
    lex_into_next-leaves h s.cursor (shifted h s) t e ∙ here
