-- ===== src/Lexer/Tests.antt =====
-- The lexer at concrete inputs.
use pigen.Common.{ℕ, ◌≡◌, refl, List, [], ◌∷◌}
use pigen.Lexer.{
  identifier, symbol, end_of_file, number, lexed, overrun, failed, lex_loop, scan_while, scan_count,
  block_comment, string_body, match_symbol, symbols, symbol_length, pigen_lex_source,
}
use pigen.Lexer.Tokens.{IsLexed, pigen_lex_source-IsLexed}
use pigen.Lexer.Munch.{IsLongest, symbol_length-IsLongest, pigen_lex_source-overrun}

-- `a /**/` and, on the next line, `<<=7`.
abbrev text : List ℕ
text = b'a' ∷ b' ' ∷ b'/' ∷ b'*' ∷ b'*' ∷ b'/' ∷ b'\n' ∷ b'<' ∷ b'<' ∷ b'=' ∷ b'7' ∷ []

lexed_text :
    pigen_lex_source text
    ≡ lexed (
        record { kind = identifier; start = 0; end = 1; line = 1; column = 1 }
        ∷ record { kind = symbol; start = 7; end = 10; line = 2; column = 1 }
        ∷ record { kind = number; start = 10; end = 11; line = 2; column = 4 }
        ∷ record { kind = end_of_file; start = 11; end = 11; line = 2; column = 5 }
        ∷ [])
unfolding scan_while scan_count block_comment match_symbol symbol_length lex_loop pigen_lex_source
lexed_text = refl

unclosed : pigen_lex_source (b'"' ∷ b'\\' ∷ b'"' ∷ []) ≡ failed
unfolding string_body lex_loop pigen_lex_source
unclosed = refl

pigen_lex_source-IsLexed_example : IsLexed text 0 (pigen_lex_source text)
pigen_lex_source-IsLexed_example = pigen_lex_source-IsLexed text

symbol_length-IsLongest_example :
    IsLongest symbols
      (b'<' ∷ b'<' ∷ b'=' ∷ b'7' ∷ [])
      (symbol_length (b'<' ∷ b'<' ∷ b'=' ∷ b'7' ∷ []))
symbol_length-IsLongest_example = symbol_length-IsLongest (b'<' ∷ b'<' ∷ b'=' ∷ b'7' ∷ [])

pigen_lex_source-overrun_example : pigen_lex_source (b'\n' ∷ b' ' ∷ b'/' ∷ b'*' ∷ []) ≡ overrun
pigen_lex_source-overrun_example = pigen_lex_source-overrun (b'\n' ∷ b' ' ∷ []) (refl, (refl, tt))
