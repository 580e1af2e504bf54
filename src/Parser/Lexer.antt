-- ===== src/Parser/Lexer.antt =====
-- The lexer of src/frothy_parser.c. The cursor is the list of the bytes from it to the closing 0;
-- the functions return the token with the new cursor. isalpha, isalnum, isdigit and isspace
-- of <ctype.h> are false of the byte 0.
use froth.Base.{
  ℕ, ◌+◌, ◌-◌, ◌*◌, ◌/◌, Bool, true, false, Option, none, some, List, [], ◌∷◌, ◌++◌, ltb, leb, ◌==◌,
  if◌then◌else◌, length, take,
}
use froth.Status.{
  Error, unterminated_string, invalid_escape, bstring_too_long, value_overflow, signature,
}
use froth.Names.{is_start, is_slot_continue}
use froth.Slots.Names.{same_bytes}
use froth.Parser.Token.{
  TokenKind, eof_token, name_token, int_token, text_token, lparen, rparen, lbrace, rbrace, lbracket,
  rbracket, comma, semicolon, colon, at_sign, equal, plus, minus, arrow, star, slash, percent,
  lt_token, le_token, gt_token, ge_token, eqeq, neq, kw_here, kw_is, kw_set, kw_to, kw_with, kw_as,
  kw_fn, kw_if, kw_else, kw_while, kw_repeat, kw_in, kw_cond, kw_case, kw_when, kw_unless, kw_true,
  kw_false, kw_nil, kw_not, kw_and, kw_or, kw_call, kw_cells, kw_record, Token, no_token,
}

-- FROTH_STRING_MAX_LEN
abbrev pub string_max_len : ℕ
string_max_len = 256

-- FROTHY_VALUE_INT_MAX
abbrev pub value_int_max : ℕ
value_int_max = 536870911

-- What the C library and the target give: the tests of <ctype.h> and SIZE_MAX.
pub record Host : Type 0 where
  pub is_alpha : ℕ → Bool
  pub is_alnum : ℕ → Bool
  pub is_digit : ℕ → Bool
  pub is_space : ℕ → Bool
  pub size_max : ℕ

-- The token from `start` to `cursor`, `cursor - start` bytes long.
abbrev pub token_to : TokenKind → List ℕ → List ℕ → Token
token_to k start cursor = record {
  kind = k;
  start = some start;
  length = length start - length cursor;
  int_value = 0;
  owned_text = [];
}

-- The kind that frothy_lex_name gives to a name.
unfoldable pub keyword : List ℕ → TokenKind
keyword w =
    if same_bytes w (b'h' ∷ b'e' ∷ b'r' ∷ b'e' ∷ [])
    then kw_here
    else if same_bytes w (b'i' ∷ b's' ∷ [])
    then kw_is
    else if same_bytes w (b's' ∷ b'e' ∷ b't' ∷ [])
    then kw_set
    else if same_bytes w (b't' ∷ b'o' ∷ [])
    then kw_to
    else if same_bytes w (b'w' ∷ b'i' ∷ b't' ∷ b'h' ∷ [])
    then kw_with
    else if same_bytes w (b'a' ∷ b's' ∷ [])
    then kw_as
    else if same_bytes w (b'f' ∷ b'n' ∷ [])
    then kw_fn
    else if same_bytes w (b'i' ∷ b'f' ∷ [])
    then kw_if
    else if same_bytes w (b'e' ∷ b'l' ∷ b's' ∷ b'e' ∷ [])
    then kw_else
    else if same_bytes w (b'w' ∷ b'h' ∷ b'i' ∷ b'l' ∷ b'e' ∷ [])
    then kw_while
    else if same_bytes w (b'r' ∷ b'e' ∷ b'p' ∷ b'e' ∷ b'a' ∷ b't' ∷ [])
    then kw_repeat
    else if same_bytes w (b'i' ∷ b'n' ∷ [])
    then kw_in
    else if same_bytes w (b'c' ∷ b'o' ∷ b'n' ∷ b'd' ∷ [])
    then kw_cond
    else if same_bytes w (b'c' ∷ b'a' ∷ b's' ∷ b'e' ∷ [])
    then kw_case
    else if same_bytes w (b'w' ∷ b'h' ∷ b'e' ∷ b'n' ∷ [])
    then kw_when
    else if same_bytes w (b'u' ∷ b'n' ∷ b'l' ∷ b'e' ∷ b's' ∷ b's' ∷ [])
    then kw_unless
    else if same_bytes w (b't' ∷ b'r' ∷ b'u' ∷ b'e' ∷ [])
    then kw_true
    else if same_bytes w (b'f' ∷ b'a' ∷ b'l' ∷ b's' ∷ b'e' ∷ [])
    then kw_false
    else if same_bytes w (b'n' ∷ b'i' ∷ b'l' ∷ [])
    then kw_nil
    else if same_bytes w (b'n' ∷ b'o' ∷ b't' ∷ [])
    then kw_not
    else if same_bytes w (b'a' ∷ b'n' ∷ b'd' ∷ [])
    then kw_and
    else if same_bytes w (b'o' ∷ b'r' ∷ [])
    then kw_or
    else if same_bytes w (b'c' ∷ b'a' ∷ b'l' ∷ b'l' ∷ [])
    then kw_call
    else if same_bytes w (b'c' ∷ b'e' ∷ b'l' ∷ b'l' ∷ b's' ∷ [])
    then kw_cells
    else if same_bytes w (b'r' ∷ b'e' ∷ b'c' ∷ b'o' ∷ b'r' ∷ b'd' ∷ [])
    then kw_record
    else name_token

-- A value read with the cursor behind it, or an error with the cursor where the C code leaves it:
-- none is behind the closing 0.
pub data Scan (A : Type 0) : Type 0 where
  scanned : A → List ℕ → Scan A
  scan_failed : Error → Option (List ℕ) → Scan A

-- The byte behind a backslash in a text.
unfoldable pub unescape : ℕ → Option ℕ
unescape b =
    if b == b'n'
    then some b'\n'
    else if b == b'r'
    then some b'\r'
    else if b == b't'
    then some b'\t'
    else if b == b'\\'
    then some b'\\'
    else if b == b'"'
    then some b'"'
    else none

-- Puts the byte into the buffer if there is room, and goes on; `cursor` is behind the byte.
abbrev pub text_push : List ℕ → ℕ → List ℕ → Scan (List ℕ) → Scan (List ℕ)
text_push buffer b cursor rest =
    if leb string_max_len (length buffer) then scan_failed bstring_too_long (some cursor) else rest

abbrev pub text_escaped : Option ℕ → List ℕ → List ℕ → (ℕ → Scan (List ℕ)) → Scan (List ℕ)
text_escaped none buffer cursor continue = scan_failed invalid_escape (some cursor)
text_escaped (some d) buffer cursor continue = text_push buffer d cursor (continue d)

-- The loop of frothy_lex_text and the closing quote: the text, and the cursor behind the quote.
-- After a backslash the closing 0 is read as the escape, and the cursor is then behind it.
unfoldable pub lex_text_loop : List ℕ → List ℕ → Scan (List ℕ)
lex_text_loop [] buffer = scan_failed unterminated_string (some [])
lex_text_loop (b ∷ []) buffer =
    if b == b'"'
    then scanned buffer []
    else if b == b'\\'
    then scan_failed unterminated_string none
    else text_push buffer b [] (scan_failed unterminated_string (some []))
lex_text_loop (b ∷ (c ∷ cs)) buffer =
    let escaped = text_escaped (unescape c) buffer cs (λ d. lex_text_loop cs (buffer ++ d ∷ [])) in
    let plain = text_push buffer b (c ∷ cs) (lex_text_loop (c ∷ cs) (buffer ++ b ∷ [])) in
    if b == b'"' then scanned buffer (c ∷ cs) else if b == b'\\' then escaped else plain

-- The loop of frothy_lex_number
unfoldable pub lex_number_loop : (ℕ → Bool) → List ℕ → ℕ → Scan ℕ
lex_number_loop is_digit [] value = scanned value []
lex_number_loop is_digit (b ∷ bs) value =
    let digit = b - b'0' in
    let rest = lex_number_loop is_digit bs (value * 10 + digit) in
    if is_digit b
    then (if ltb ((value_int_max - digit) / 10) value
        then scan_failed value_overflow (some (b ∷ bs))
        else rest)
    else scanned value (b ∷ bs)

-- What frothy_lex_next writes: the token and the cursor, and the error if there is one.
pub data Lexed : Type 0 where
  token_read : Token → List ℕ → Lexed
  lex_failed : Error → Token → Option (List ℕ) → Lexed

-- The token of a failure has its start and nothing more.
abbrev pub bare_token : List ℕ → Token
bare_token start = record no_token { start = some start }

-- The last part of frothy_lex_text
abbrev pub text_lexed : List ℕ → Scan (List ℕ) → Lexed
text_lexed start (scanned text cursor) =
    token_read (record (token_to text_token start cursor) { owned_text = text }) cursor
text_lexed start (scan_failed e cursor) = lex_failed e (bare_token start) cursor

-- frothy_lex_text at the quote, with the bytes behind it.
unfoldable pub lex_text : ℕ → List ℕ → Lexed
lex_text quote bs = text_lexed (quote ∷ bs) (lex_text_loop bs [])

-- The last part of frothy_lex_number
abbrev pub number_lexed : List ℕ → Scan ℕ → Lexed
number_lexed start (scanned value cursor) =
    token_read (record (token_to int_token start cursor) { int_value = value }) cursor
number_lexed start (scan_failed e cursor) = lex_failed e (bare_token start) cursor

-- frothy_lex_number
unfoldable pub lex_number : (ℕ → Bool) → List ℕ → Lexed
lex_number is_digit bs = number_lexed bs (lex_number_loop is_digit bs 0)

-- The cursor behind the bytes that continue a name.
unfoldable pub skip_name : (ℕ → Bool) → List ℕ → List ℕ
skip_name continues [] = []
skip_name continues (b ∷ bs) =
    let rest = skip_name continues bs in if continues b then rest else b ∷ bs

abbrev pub name_lexed : List ℕ → List ℕ → Lexed
name_lexed start cursor =
    token_read (token_to (keyword (take (length start - length cursor) start)) start cursor) cursor

-- frothy_lex_name at its first byte, with the bytes behind it.
unfoldable pub lex_name : (ℕ → Bool) → ℕ → List ℕ → Lexed
lex_name continues b bs = name_lexed (b ∷ bs) (skip_name continues bs)

-- frothy_lex_skip_space; the flag says that the cursor is in a comment. The newline that ends a
-- comment is looked at again outside of it.
unfoldable pub skip_space : (ℕ → Bool) → Bool → List ℕ → List ℕ
skip_space is_space comment [] = []
skip_space is_space false (b ∷ bs) =
    let spaces = skip_space is_space false bs in
    let comment = skip_space is_space true bs in
    if is_space b then spaces else if b == b'\\' then comment else b ∷ bs
skip_space is_space true (b ∷ bs) =
    let spaces = skip_space is_space false bs in
    let comment = skip_space is_space true bs in
    if b == b'\n' then (if is_space b then spaces else b ∷ bs) else comment

-- A token of the switch in frothy_lex_next: its start is set and its length stays 0.
abbrev pub punct : TokenKind → List ℕ → List ℕ → Lexed
punct k start cursor = token_read (record (bare_token start) { kind = k }) cursor

-- A token of two bytes if the next byte is `second`, and of one byte otherwise.
abbrev pub punct_two : ℕ → TokenKind → Lexed → List ℕ → List ℕ → Lexed
punct_two second both otherwise start [] = otherwise
punct_two second both otherwise start (b ∷ bs) =
    if b == second then punct both start bs else otherwise

abbrev pub unknown_byte : List ℕ → List ℕ → Lexed
unknown_byte start cursor = lex_failed signature (bare_token start) (some cursor)

-- The switch of frothy_lex_next
unfoldable pub lex_punct : ℕ → List ℕ → Lexed
lex_punct b bs =
    let start = b ∷ bs in
    if b == b'('
    then punct lparen start bs
    else if b == b')'
    then punct rparen start bs
    else if b == b'{'
    then punct lbrace start bs
    else if b == b'}'
    then punct rbrace start bs
    else if b == b'['
    then punct lbracket start bs
    else if b == b']'
    then punct rbracket start bs
    else if b == b','
    then punct comma start bs
    else if b == b';'
    then punct semicolon start bs
    else if b == b':'
    then punct colon start bs
    else if b == b'@'
    then punct at_sign start bs
    else if b == b'+'
    then punct plus start bs
    else if b == b'-'
    then punct_two b'>' arrow (punct minus start bs) start bs
    else if b == b'*'
    then punct star start bs
    else if b == b'/'
    then punct slash start bs
    else if b == b'%'
    then punct percent start bs
    else if b == b'='
    then punct_two b'=' eqeq (punct equal start bs) start bs
    else if b == b'!'
    then punct_two b'=' neq (unknown_byte start bs) start bs
    else if b == b'<'
    then punct_two b'=' le_token (punct lt_token start bs) start bs
    else if b == b'>'
    then punct_two b'=' ge_token (punct gt_token start bs) start bs
    else unknown_byte start bs

-- frothy_lex_next behind the white space.
unfoldable pub lex_at : Host → List ℕ → Lexed
lex_at h [] = punct eof_token [] []
lex_at h (b ∷ bs) =
    if is_start h.is_alpha h.is_alnum b
    then lex_name (is_slot_continue h.is_alpha h.is_alnum) b bs
    else if h.is_digit b
    then lex_number h.is_digit (b ∷ bs)
    else if b == b'"'
    then lex_text b bs
    else lex_punct b bs

-- frothy_lex_next
unfoldable pub lex_next : Host → List ℕ → Lexed
lex_next h bs = lex_at h (skip_space h.is_space false bs)
