-- ===== src/Lexer.antt =====
-- src/lexer.c, include/pigen/lexer.h, and `pigen_is_identifier_char` of src/util.c. The text is read
-- through the list of its bytes behind the cursor; `pigen_fail` is `failed`, and a read of bytes
-- behind the text's end is `overrun`. Characters are classed as in the C locale.
pub mod Places
pub mod Tokens
pub mod Munch
mod Tests
use pigen.Common.{
  ℕ, zero, suc, ◌+◌, Bool, true, false, ◌&&◌, ◌||◌, not, Option, none, some, List, [], ◌∷◌, ltb,
  leb, ◌==◌, if◌then◌else◌, length, take, drop,
}
use pigen.TransferType.{bytes_same}

pub data TokenKind : Type 0 where
  end_of_file identifier number string symbol : TokenKind

pub record Token : Type 0 where
  pub kind : TokenKind
  pub start : ℕ
  pub end : ℕ
  pub line : ℕ
  pub column : ℕ

-- The cursor, with the line and the column that are counted along.
pub record Place : Type 0 where
  pub cursor : ℕ
  pub line : ℕ
  pub column : ℕ

abbrev pub is_digit : ℕ → Bool
is_digit c = leb b'0' c && leb c b'9'

abbrev pub is_space : ℕ → Bool
is_space c = c == b' ' || (leb b'\t' c && leb c b'\r')

abbrev is_letter : ℕ → Bool
is_letter c = (leb b'a' c && leb c b'z') || (leb b'A' c && leb c b'Z')

abbrev pub pigen_is_identifier_char : ℕ → Bool
pigen_is_identifier_char c = is_digit c || is_letter c || c == b'_' || c == b'$'

abbrev pub is_number_char : ℕ → Bool
is_number_char c = pigen_is_identifier_char c || c == b'\''

abbrev pub is_line_char : ℕ → Bool
is_line_char c = not (c == b'\n')

abbrev pub advance : ℕ → Place → Place
advance c p =
    if c == b'\n'
    then record { cursor = suc p.cursor; line = p.line + 1; column = 1 }
    else record { cursor = suc p.cursor; line = p.line; column = p.column + 1 }

-- What is left of the text, and the place of the cursor.
abbrev pub Scan : Type 0
Scan = List ℕ × Place

-- `while (cursor < length && class(source[cursor])) advance`.
unfoldable pub scan_while : (ℕ → Bool) → List ℕ → Place → Scan
scan_while class [] p = ([], p)
scan_while class (c ∷ rest) p =
    let later = scan_while class rest (advance c p) in if class c then later else (c ∷ rest, p)

-- `advance` for the next `n` bytes.
unfoldable pub scan_count : ℕ → List ℕ → Place → Scan
scan_count zero rest p = (rest, p)
scan_count (suc n) [] p = ([], p)
scan_count (suc n) (c ∷ rest) p = scan_count n rest (advance c p)

pub data Comment : Type 0 where
  closed : List ℕ → Place → Comment
  unterminated : Comment
  past_end : Comment

-- The inside of a block comment, and its end: the code tests that one byte is left, not none.
unfoldable pub block_comment : List ℕ → Place → Comment
block_comment [] p = past_end
block_comment (a ∷ []) p = unterminated
block_comment (a ∷ b ∷ rest) p =
    let later = block_comment (b ∷ rest) (advance a p) in
    if a == b'*' && b == b'/' then closed rest (advance b (advance a p)) else later

abbrev behind_quote : List ℕ → Place → Option Scan
behind_quote [] p = none
behind_quote (c ∷ rest) p = some (rest, advance c p)

-- The inside of a string and its closing quote; `none` is an unterminated one.
unfoldable pub string_body : List ℕ → Place → Option Scan
string_body [] p = none
string_body (c ∷ []) p = if c == b'"' then some ([], advance c p) else none
string_body (c ∷ d ∷ rest) p =
    let escaped = string_body rest (advance d (advance c p)) in
    let plain = string_body (d ∷ rest) (advance c p) in
    if c == b'"' then some (d ∷ rest, advance c p) else if c == b'\\' then escaped else plain

abbrev pub symbols : List (List ℕ)
symbols =
    (b'<' ∷ b'<' ∷ b'<' ∷ b'=' ∷ [])
    ∷ (b'>' ∷ b'>' ∷ b'>' ∷ b'=' ∷ [])
    ∷ (b'<' ∷ b'<' ∷ b'=' ∷ [])
    ∷ (b'>' ∷ b'>' ∷ b'=' ∷ [])
    ∷ (b'=' ∷ b'=' ∷ b'=' ∷ [])
    ∷ (b'!' ∷ b'=' ∷ b'=' ∷ [])
    ∷ (b'=' ∷ b'=' ∷ b'?' ∷ [])
    ∷ (b'!' ∷ b'=' ∷ b'?' ∷ [])
    ∷ (b'<' ∷ b'<' ∷ b'<' ∷ [])
    ∷ (b'>' ∷ b'>' ∷ b'>' ∷ [])
    ∷ (b'*' ∷ b'*' ∷ [])
    ∷ (b'<' ∷ b'=' ∷ [])
    ∷ (b'>' ∷ b'=' ∷ [])
    ∷ (b'=' ∷ b'=' ∷ [])
    ∷ (b'!' ∷ b'=' ∷ [])
    ∷ (b'&' ∷ b'&' ∷ [])
    ∷ (b'|' ∷ b'|' ∷ [])
    ∷ (b'<' ∷ b'<' ∷ [])
    ∷ (b'>' ∷ b'>' ∷ [])
    ∷ (b'~' ∷ b'&' ∷ [])
    ∷ (b'~' ∷ b'|' ∷ [])
    ∷ (b'~' ∷ b'^' ∷ [])
    ∷ (b'^' ∷ b'~' ∷ [])
    ∷ (b'+' ∷ b':' ∷ [])
    ∷ (b'-' ∷ b':' ∷ [])
    ∷ (b'+' ∷ b'+' ∷ [])
    ∷ (b'-' ∷ b'-' ∷ [])
    ∷ (b'+' ∷ b'=' ∷ [])
    ∷ (b'-' ∷ b'=' ∷ [])
    ∷ (b'*' ∷ b'=' ∷ [])
    ∷ (b'/' ∷ b'=' ∷ [])
    ∷ (b'%' ∷ b'=' ∷ [])
    ∷ (b'&' ∷ b'=' ∷ [])
    ∷ (b'|' ∷ b'=' ∷ [])
    ∷ (b'^' ∷ b'=' ∷ [])
    ∷ (b'-' ∷ b'>' ∷ [])
    ∷ (b':' ∷ b':' ∷ [])
    ∷ []

-- `length <= remaining && !memcmp(source, symbol, length)`.
abbrev pub is_prefix : List ℕ → List ℕ → Bool
is_prefix known source =
    leb (length known) (length source) && bytes_same known (take (length known) source)

unfoldable pub match_symbol : List (List ℕ) → List ℕ → ℕ
match_symbol [] source = 1
match_symbol (known ∷ rest) source =
    let later = match_symbol rest source in if is_prefix known source then length known else later

unfoldable pub symbol_length : List ℕ → ℕ
symbol_length source = match_symbol symbols source

pub data Lexed : Type 0 where
  lexed : List Token → Lexed
  failed : Lexed
  overrun : Lexed
  out_of_fuel : Lexed

abbrev new_token : TokenKind → Place → ℕ → Token
new_token kind p end = record {
  kind = kind;
  start = p.cursor;
  end = end;
  line = p.line;
  column = p.column;
}

abbrev pub add_token : TokenKind → Place → ℕ → Lexed → Lexed
add_token kind p end (lexed tokens) = lexed (new_token kind p end ∷ tokens)
add_token kind p end failed = failed
add_token kind p end overrun = overrun
add_token kind p end out_of_fuel = out_of_fuel

-- The token's text is scanned, and the loop goes on behind it.
abbrev pub scanned : TokenKind → Place → Scan → (List ℕ → Place → Lexed) → Lexed
scanned kind p s next = add_token kind p s.1.cursor (next s.0 s.1)

abbrev pub scanned_string : Place → Option Scan → (List ℕ → Place → Lexed) → Lexed
scanned_string p none next = failed
scanned_string p (some s) next = scanned string p s next

abbrev pub after_comment : Comment → (List ℕ → Place → Lexed) → Lexed
after_comment (closed rest p) next = next rest p
after_comment unterminated next = failed
after_comment past_end next = overrun

-- One round of the loop, at the byte `c`.
abbrev pub lex_token : ℕ → List ℕ → Place → (List ℕ → Place → Lexed) → Lexed
lex_token c rest p next =
    if is_digit c
    then scanned number p (scan_while is_number_char (c ∷ rest) p) next
    else if pigen_is_identifier_char c
    then scanned identifier p (scan_while pigen_is_identifier_char (c ∷ rest) p) next
    else if c == b'"'
    then scanned_string p (string_body rest (advance c p)) next
    else scanned symbol p (scan_count (symbol_length (c ∷ rest)) (c ∷ rest) p) next

abbrev pub starts_with : ℕ → List ℕ → Bool
starts_with c [] = false
starts_with c (d ∷ rest) = d == c

abbrev pub lex_round : ℕ → List ℕ → Place → (List ℕ → Place → Lexed) → Lexed
lex_round c rest p next =
    if is_space c
    then next rest (advance c p)
    else if c == b'/' && starts_with b'/' rest
    then (let s = scan_while is_line_char (c ∷ rest) p in next s.0 s.1)
    else if c == b'/' && starts_with b'*' rest
    then (let s = scan_count 2 (c ∷ rest) p in after_comment (block_comment s.0 s.1) next)
    else lex_token c rest p next

-- The loop, with fuel for its rounds; the last token is behind the text.
unfoldable pub lex_loop : ℕ → List ℕ → Place → Lexed
lex_loop zero rest p = out_of_fuel
lex_loop (suc fuel) [] p = lexed (new_token end_of_file p p.cursor ∷ [])
lex_loop (suc fuel) (c ∷ rest) p =
    lex_round c rest p (λ (more : List ℕ) (q : Place). lex_loop fuel more q)

abbrev pub text_start : Place
text_start = record { cursor = 0; line = 1; column = 1 }

unfoldable pub pigen_lex_source : List ℕ → Lexed
pigen_lex_source source = lex_loop (suc (length source)) source text_start

unfoldable pigen_token_is : List ℕ → Token → List ℕ → Bool
pigen_token_is source t text =
    if t.end == t.start + length text
    then bytes_same text (take (length text) (drop t.start source))
    else false
