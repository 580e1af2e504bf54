-- ===== src/Parser/Advance.antt =====
-- Moving over the tokens in src/frothy_parser.c: the parser holds the current token and the next.
pub mod Bracket
use froth.Base.{ℕ, Bool, true, false, Option, none, some, List, [], drop, if◌then◌else◌}
use froth.Status.{Result, ok, err, signature}
use froth.Parser.Token.{
  TokenKind, Token, no_token, same_kind, is_block_start, block_close_kind, is_binding_operator,
  is_set_operator, kw_with, name_token,
}
use froth.Parser.Lexer.{Host, Lexed, token_read, lex_failed, lex_next}
use froth.Parser.Scopes.{Resolved, push_scope, push_frame, declare_local, reserve_hidden_local}
use froth.Parser.State.{
  Parser, Outcome, done, failed, overread, Parse, ◌>>=◌, ◌>>◌, pure, fail, get, put, of_result,
  of_step,
}

-- parser->current.start + parser->current.length, NULL where the start is NULL.
abbrev pub token_end : Token → Option (List ℕ) → Option (List ℕ)
token_end t none = none
token_end t (some start) = some (drop t.length start)

-- frothy_parser_match on the current token
abbrev pub at : TokenKind → Parser → Bool
at k s = same_kind s.current.kind k

module _ (h : Host) where
  -- frothy_parser_advance in front of its call of frothy_lex_next.
  abbrev pub shifted : Parser → Parser
  shifted s = record s {
    prev_token_end = token_end s.current s.current.start;
    current = s.next;
    next = no_token;
  }

  abbrev pub lexed : Lexed → Parser → Outcome (Unit {0}) × Parser
  lexed (token_read t cursor) s = (done tt, record s { next = t; cursor = some cursor })
  lexed (lex_failed e t cursor) s = (failed e, record s { next = t; cursor = cursor })

  -- frothy_lex_next into parser->next
  abbrev pub lex_into_next : Option (List ℕ) → Parse (Unit {0})
  lex_into_next none s = (overread, s)
  lex_into_next (some bs) s = lexed (lex_next h bs) s

  -- frothy_parser_advance
  unfoldable pub pass_token : Parse (Unit {0})
  pass_token s = lex_into_next s.cursor (shifted s)

  abbrev pub require : Bool → Parse (Unit {0})
  require true = pure tt
  require false = fail signature

  -- frothy_parser_expect
  unfoldable pub expect : TokenKind → Parse (Unit {0})
  expect k = do s ← get; require (at k s); pass_token

  -- frothy_parser_expect_block_start: the kind that closes the block.
  unfoldable pub expect_block_start : Parse TokenKind
  expect_block_start = do
    s ← get
    require (is_block_start s.current.kind)
    pass_token
    pure (block_close_kind s.current.kind)

  -- frothy_parser_expect_binding_operator
  unfoldable pub expect_binding_operator : Parse (Unit {0})
  expect_binding_operator = do s ← get; require (is_binding_operator s.current.kind); pass_token

  -- frothy_parser_expect_set_operator
  unfoldable pub expect_set_operator : Parse (Unit {0})
  expect_set_operator = do s ← get; require (is_set_operator s.current.kind); pass_token

  -- The current token is a name: it is moved out of the parser, and the parser advances.
  unfoldable pub take_name : Parse Token
  take_name = do
    s ← get
    require (at name_token s)
    put (record s { current = no_token })
    pass_token
    pure s.current

  abbrev pub enter_scope : Parse (Unit {0})
  enter_scope = of_step (push_scope h.size_max)

  abbrev pub enter_frame : Bool → Parse (Unit {0})
  enter_frame reject = of_step (push_frame h.size_max reject)

  abbrev pub declare : Token → Parse ℕ
  declare t = of_step (declare_local h.size_max t)

  abbrev pub hidden_local : Parse ℕ
  hidden_local = of_step reserve_hidden_local
