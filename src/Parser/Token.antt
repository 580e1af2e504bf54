-- ===== src/Parser/Token.antt =====
-- The tokens of src/frothy_parser.c. A pointer into the source is the list of the bytes from it to
-- the closing 0, so two pointers into one source are equal where as many bytes follow.
use froth.Base.{
  ℕ, Bool, true, false, not, ◌&&◌, ◌||◌, Option, none, some, List, [], ◌∷◌, ◌==◌, if◌then◌else◌,
  take,
}
use froth.Slots.Names.{same_bytes}

-- frothy_token_kind_t
pub data TokenKind : Type 0 where
  eof_token name_token int_token text_token lparen rparen lbrace rbrace : TokenKind
  lbracket rbracket comma semicolon colon at_sign equal plus minus arrow : TokenKind
  star slash percent lt_token le_token gt_token ge_token eqeq neq : TokenKind
  kw_here kw_is kw_set kw_to kw_with kw_as kw_fn kw_if kw_else kw_while : TokenKind
  kw_repeat kw_in kw_cond kw_case kw_when kw_unless kw_true kw_false : TokenKind
  kw_nil kw_not kw_and kw_or kw_call kw_cells kw_record : TokenKind

-- The number of a kind in the enumeration.
abbrev pub kind_code : TokenKind → ℕ
kind_code eof_token = 0
kind_code name_token = 1
kind_code int_token = 2
kind_code text_token = 3
kind_code lparen = 4
kind_code rparen = 5
kind_code lbrace = 6
kind_code rbrace = 7
kind_code lbracket = 8
kind_code rbracket = 9
kind_code comma = 10
kind_code semicolon = 11
kind_code colon = 12
kind_code at_sign = 13
kind_code equal = 14
kind_code plus = 15
kind_code minus = 16
kind_code arrow = 17
kind_code star = 18
kind_code slash = 19
kind_code percent = 20
kind_code lt_token = 21
kind_code le_token = 22
kind_code gt_token = 23
kind_code ge_token = 24
kind_code eqeq = 25
kind_code neq = 26
kind_code kw_here = 27
kind_code kw_is = 28
kind_code kw_set = 29
kind_code kw_to = 30
kind_code kw_with = 31
kind_code kw_as = 32
kind_code kw_fn = 33
kind_code kw_if = 34
kind_code kw_else = 35
kind_code kw_while = 36
kind_code kw_repeat = 37
kind_code kw_in = 38
kind_code kw_cond = 39
kind_code kw_case = 40
kind_code kw_when = 41
kind_code kw_unless = 42
kind_code kw_true = 43
kind_code kw_false = 44
kind_code kw_nil = 45
kind_code kw_not = 46
kind_code kw_and = 47
kind_code kw_or = 48
kind_code kw_call = 49
kind_code kw_cells = 50
kind_code kw_record = 51

-- `a == b` of two kinds.
abbrev pub same_kind : TokenKind → TokenKind → Bool
same_kind a b = kind_code a == kind_code b

-- frothy_token_t; `start` is none where the pointer is NULL.
pub record Token : Type 0 where
  pub kind : TokenKind
  pub start : Option (List ℕ)
  pub length : ℕ
  pub int_value : ℕ
  pub owned_text : List ℕ

-- frothy_token_clear, and the memset of a token that was moved away.
abbrev pub no_token : Token
no_token = record { kind = eof_token; start = none; length = 0; int_value = 0; owned_text = [] }

abbrev pub bytes_from : Option (List ℕ) → List ℕ
bytes_from none = []
bytes_from (some bs) = bs

-- frothy_strdup_range of a token's start and length.
abbrev pub token_text : Token → List ℕ
token_text t = take t.length (bytes_from t.start)

-- frothy_token_matches_name
abbrev pub matches_name : Token → List ℕ → Bool
matches_name t name = same_kind t.kind name_token && same_bytes (token_text t) name

-- frothy_name_has_dot
abbrev pub has_dot : List ℕ → Bool
has_dot [] = false
has_dot (b ∷ bs) = b == b'.' || has_dot bs

-- frothy_token_is_simple_name
unfoldable pub is_simple_name : Token → Bool
is_simple_name t =
    if not (same_kind t.kind name_token) || t.length == 0
    then false
    else not (has_dot (token_text t))

-- frothy_token_is_block_start
abbrev pub is_block_start : TokenKind → Bool
is_block_start k = same_kind k lbrace || same_kind k lbracket

-- frothy_block_close_kind
abbrev pub block_close_kind : TokenKind → TokenKind
block_close_kind k = if same_kind k lbrace then rbrace else rbracket

-- frothy_token_is_binding_operator
abbrev pub is_binding_operator : TokenKind → Bool
is_binding_operator k = same_kind k equal || same_kind k kw_is

-- frothy_token_is_set_operator
abbrev pub is_set_operator : TokenKind → Bool
is_set_operator k = same_kind k equal || same_kind k kw_to

-- frothy_token_is_binary_operator
abbrev pub is_binary_operator : TokenKind → Bool
is_binary_operator plus = true
is_binary_operator minus = true
is_binary_operator star = true
is_binary_operator slash = true
is_binary_operator percent = true
is_binary_operator lt_token = true
is_binary_operator le_token = true
is_binary_operator gt_token = true
is_binary_operator ge_token = true
is_binary_operator eqeq = true
is_binary_operator neq = true
is_binary_operator _ = false

-- frothy_token_can_start_expr
abbrev pub can_start_expr : TokenKind → Bool
can_start_expr name_token = true
can_start_expr int_token = true
can_start_expr text_token = true
can_start_expr lparen = true
can_start_expr at_sign = true
can_start_expr minus = true
can_start_expr kw_fn = true
can_start_expr kw_if = true
can_start_expr kw_while = true
can_start_expr kw_cond = true
can_start_expr kw_case = true
can_start_expr kw_when = true
can_start_expr kw_unless = true
can_start_expr kw_repeat = true
can_start_expr kw_true = true
can_start_expr kw_false = true
can_start_expr kw_nil = true
can_start_expr kw_not = true
can_start_expr kw_call = true
can_start_expr kw_cells = true
can_start_expr _ = false

-- frothy_ir_builtin_kind_t, the numbers of the enumeration.
abbrev pub builtin_none : ℕ
builtin_none = 0

abbrev pub builtin_cells : ℕ
builtin_cells = 1

abbrev pub builtin_not : ℕ
builtin_not = 2

abbrev pub builtin_negate : ℕ
builtin_negate = 3

abbrev pub builtin_add : ℕ
builtin_add = 4

abbrev pub builtin_lt : ℕ
builtin_lt = 9

abbrev pub builtin_eq : ℕ
builtin_eq = 13

-- frothy_binary_builtin
abbrev pub binary_builtin : TokenKind → ℕ
binary_builtin plus = builtin_add
binary_builtin minus = 5
binary_builtin star = 6
binary_builtin slash = 7
binary_builtin percent = 8
binary_builtin lt_token = builtin_lt
binary_builtin le_token = 10
binary_builtin gt_token = 11
binary_builtin ge_token = 12
binary_builtin eqeq = builtin_eq
binary_builtin neq = 14
binary_builtin _ = builtin_none
