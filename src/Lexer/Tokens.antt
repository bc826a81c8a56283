-- ===== src/Lexer/Tokens.antt =====
-- src/lexer.c, `pigen_lex_source`: the tokens of a text.
use pigen.Common.{
  ℕ, zero, suc, ◌≤◌, ◌<◌, ◌≡◌, ◌≢◌, refl, ◌∙◌, inl, inr, Bool, true, ◌&&◌, Option, none, some, List,
  [], ◌∷◌, arith, ◌==◌, length, drop, All, Bool-cases, if_cases,
}
use pigen.Source.{diagnostic_place}
use pigen.Lexer.{
  TokenKind, end_of_file, identifier, number, string, symbol, Token, Place, is_digit, is_space,
  pigen_is_identifier_char, is_number_char, is_line_char, advance, Scan, scan_while, scan_count,
  Comment, closed, unterminated, past_end, block_comment, match_symbol, symbols, symbol_length,
  Lexed, lexed, failed, overrun, out_of_fuel, add_token, scanned, scanned_string, after_comment,
  lex_token, starts_with, lex_round, lex_loop, text_start, pigen_lex_source,
}
use pigen.Lexer.Places.{
  IsAt, IsScan, advance-IsAt, cursor-advance, scan_while-IsScan, scan_count-IsScan, IsComment,
  IsComment-IsScan, block_comment-IsComment, IsString, string_body-IsString,
}

-- The token's line and column are those that `pigen_fail` counts for its start.
abbrev IsPlaced : List ℕ → Token → Type 0
IsPlaced source t =
    diagnostic_place source t.start 1 1 ≡ record { line = t.line; column = t.column }

-- Tokens from offset `from` on: each has bytes of the source, behind those of the one before it, and
-- a right place, and the last is the end of the file, behind the source.
abbrev AreTokens : List ℕ → ℕ → List Token → Type 0
AreTokens source from [] = ⊥
AreTokens source from (t ∷ []) =
    (t.kind ≡ end_of_file) × (t.start ≡ length source) × (t.end ≡ length source) × IsPlaced source t
AreTokens source from (t ∷ u ∷ ts) =
    (t.kind ≢ end_of_file)
    × (from ≤ t.start)
    × (t.start < t.end)
    × (t.end ≤ length source)
    × IsPlaced source t
    × AreTokens source t.end (u ∷ ts)

abbrev pub IsLexed : List ℕ → ℕ → Lexed → Type 0
IsLexed source from (lexed tokens) = AreTokens source from tokens
IsLexed source from failed = Unit
IsLexed source from overrun = (n : ℕ) × (drop n source ≡ b'/' ∷ b'*' ∷ [])
IsLexed source from out_of_fuel = ⊥

scan_while-more :
    (class : ℕ → Bool) (c : ℕ) (rest : List ℕ) (p : Place)
    → class c ≡ true
    → scan_while class (c ∷ rest) p ≡ scan_while class rest (advance c p)
unfolding scan_while
scan_while-more class c rest p e = rw e

match_symbol-pos :
    (known : List (List ℕ)) (source : List ℕ)
    → All (λ (s : List ℕ). 0 < length s) known
    → 0 < match_symbol known source
unfolding match_symbol
match_symbol-pos [] source h = omega arith
match_symbol-pos (s ∷ known) source h = ground (arith, match_symbol-pos known source h.1)

symbol_length-pos : (source : List ℕ) → 0 < symbol_length source
unfolding symbol_length
symbol_length-pos source = match_symbol-pos symbols source (omega arith)

cc_cons : (c : ℕ) (rest : List ℕ) → c ≡ b'/' → rest ≡ b'*' ∷ [] → c ∷ rest ≡ b'/' ∷ b'*' ∷ []
cc_cons c rest e f = cc

block_comment-past_end : (rest : List ℕ) (p : Place) → block_comment rest p ≡ past_end → rest ≡ []
unfolding block_comment
block_comment-past_end [] p e = refl
block_comment-past_end (a ∷ []) p e = absurd (apart e)
  where
    apart : unterminated ≡ past_end → ⊥
    apart q = cc
block_comment-past_end (a ∷ b ∷ rest) p e = elim (Bool-cases (a == b'*' && b == b'/')) [
  | inl end ↦ absurd (apart (rw end at e))
  | inr inside ↦ absurd (more (block_comment-past_end (b ∷ rest) (advance a p) (rw inside at e)))
]
  where
    apart : closed rest (advance b (advance a p)) ≡ past_end → ⊥
    apart q = cc

    more : b ∷ rest ≡ [] → ⊥
    more q = cc

-- The comment's inside is behind the text only if the text ends with its opening.
open_comment :
    (c : ℕ) (rest : List ℕ) (p : Place)
    → (c == b'/' && starts_with b'*' rest) ≡ true
    → block_comment (scan_count 2 (c ∷ rest) p).0 (scan_count 2 (c ∷ rest) p).1 ≡ past_end
    → rest ≡ b'*' ∷ []
unfolding scan_count
open_comment c [] p e f = ground arith
open_comment c (d ∷ more) p e f = cc (block_comment-past_end more (advance d (advance c p)) f, star)
  where
    star : d ≡ b'*'
    star = ground arith

start_placed : (source : List ℕ) → diagnostic_place source 0 1 1 ≡ record { line = 1; column = 1 }
unfolding diagnostic_place
start_placed source = refl

module _ (source : List ℕ) where
  AreTokens-le : (a b : ℕ) (ts : List Token) → a ≤ b → AreTokens source b ts → AreTokens source a ts
  AreTokens-le a b [] l h = h
  AreTokens-le a b (t ∷ []) l h = h
  AreTokens-le a b (t ∷ u ∷ ts) l h = (h.0, omega (arith, h.1), h.2, h.3, h.4, h.5)

  IsLexed-le : (a b : ℕ) (r : Lexed) → a ≤ b → IsLexed source b r → IsLexed source a r
  IsLexed-le a b (lexed ts) l h = AreTokens-le a b ts l h
  IsLexed-le a b failed l h = tt
  IsLexed-le a b overrun l h = h
  IsLexed-le a b out_of_fuel l h = h

  -- A token from `p` to `end`, and what was lexed behind it.
  add_token-IsLexed :
      (kind : TokenKind) (rest : List ℕ) (p : Place) (end : ℕ) (r : Lexed)
      → kind ≢ end_of_file
      → IsAt source rest p
      → p.cursor < end
      → end ≤ length source
      → IsLexed source end r
      → IsLexed source p.cursor (add_token kind p end r)
  add_token-IsLexed kind rest p end (lexed []) k a l m h = absurd h
  add_token-IsLexed kind rest p end (lexed (t ∷ ts)) k a l m h = (k, omega arith, l, m, a.placed, h)
  add_token-IsLexed kind rest p end failed k a l m h = tt
  add_token-IsLexed kind rest p end overrun k a l m h = h
  add_token-IsLexed kind rest p end out_of_fuel k a l m h = h

  -- The round at the byte `c`, where the rounds behind it are right.
  module _ (c : ℕ) (rest : List ℕ) (p : Place) (a : IsAt source (c ∷ rest) p)
      (next : List ℕ → Place → Lexed)
      (later : (more : List ℕ) (q : Place)
        → IsAt source more q
        → p.cursor < q.cursor
        → IsLexed source q.cursor (next more q)) where
    behind : IsAt source rest (advance c p)
    behind = advance-IsAt source c rest p a

    -- A scan that went on from the next byte.
    go_on : (s : Scan) → IsScan source (advance c p) s → IsLexed source p.cursor (next s.0 s.1)
    go_on s i =
        let l : p.cursor < s.1.cursor = omega (arith, i.forward, cursor-advance c p) in
        IsLexed-le p.cursor s.1.cursor _ (omega arith) (later s.0 s.1 i.at l)

    scanned-IsLexed :
        (kind : TokenKind) (s : Scan)
        → kind ≢ end_of_file
        → IsScan source (advance c p) s
        → IsLexed source p.cursor (scanned kind p s next)
    scanned-IsLexed kind s k i =
        let l : p.cursor < s.1.cursor = omega (arith, i.forward, cursor-advance c p) in
        add_token-IsLexed kind (c ∷ rest) p s.1.cursor (next s.0 s.1) k a l
          (omega (arith, i.at.whole)) (later s.0 s.1 i.at l)

    scanned_string-IsLexed :
        (s : Option Scan)
        → IsString source (advance c p) s
        → IsLexed source p.cursor (scanned_string p s next)
    scanned_string-IsLexed none i = tt
    scanned_string-IsLexed (some s) i = scanned-IsLexed string s (λ q. cc) i

    after_comment-IsLexed :
        (r : Comment)
        → IsComment source (advance c p) r
        → (r ≡ past_end → rest ≡ b'*' ∷ [])
        → c ≡ b'/'
        → IsLexed source p.cursor (after_comment r next)
    after_comment-IsLexed (closed more q) i e s = go_on (more, q) i
    after_comment-IsLexed unterminated i e s = tt
    after_comment-IsLexed past_end i e s = (p.cursor, a.behind ∙ cc_cons c rest s (e refl))

    class-IsScan :
        (class : ℕ → Bool)
        → class c ≡ true
        → IsScan source (advance c p) (scan_while class (c ∷ rest) p)
    class-IsScan class e =
        rw (scan_while-more class c rest p e)
          (scan_while-IsScan source class rest (advance c p) behind)

    count-IsScan : (n : ℕ) → 0 < n → IsScan source (advance c p) (scan_count n (c ∷ rest) p)
    unfolding scan_count
    count-IsScan zero l = absurd (omega arith)
    count-IsScan (suc n) l = scan_count-IsScan source n rest (advance c p) behind

    digit-is_number_char : is_digit c ≡ true → is_number_char c ≡ true
    digit-is_number_char e = rw e refl

    slash-is_line_char : (c == b'/' && starts_with b'/' rest) ≡ true → is_line_char c ≡ true
    slash-is_line_char e = ground arith

    lex_token-IsLexed : IsLexed source p.cursor (lex_token c rest p next)
    lex_token-IsLexed =
        if_cases (IsLexed source p.cursor) (is_digit c)
          (λ digit.
            scanned-IsLexed number _ (λ q. cc)
              (class-IsScan is_number_char (digit-is_number_char digit)))
          (λ other.
            if_cases (IsLexed source p.cursor) (pigen_is_identifier_char c)
              (λ letter.
                scanned-IsLexed identifier _ (λ q. cc)
                  (class-IsScan pigen_is_identifier_char letter))
              (λ other.
                if_cases (IsLexed source p.cursor) (c == b'"')
                  (λ quote.
                    scanned_string-IsLexed _
                      (string_body-IsString source rest (advance c p) behind))
                  (λ other.
                    scanned-IsLexed symbol _ (λ q. cc)
                      (count-IsScan (symbol_length (c ∷ rest)) (symbol_length-pos (c ∷ rest))))))

    lex_round-IsLexed : IsLexed source p.cursor (lex_round c rest p next)
    lex_round-IsLexed =
        if_cases (IsLexed source p.cursor) (is_space c)
          (λ space. go_on (rest, advance c p) (record { at = behind; forward = omega arith }))
          (λ other.
            if_cases (IsLexed source p.cursor) (c == b'/' && starts_with b'/' rest)
              (λ line. go_on _ (class-IsScan is_line_char (slash-is_line_char line)))
              (λ other.
                if_cases (IsLexed source p.cursor) (c == b'/' && starts_with b'*' rest)
                  (λ block.
                    let i = count-IsScan 2 (omega arith) in
                    after_comment-IsLexed _
                      (IsComment-IsScan source (advance c p) _ _ i
                        (block_comment-IsComment source _ _ i.at))
                      (open_comment c rest p block) (ground arith))
                  (λ other. lex_token-IsLexed)))

  lex_loop-IsLexed :
      (fuel : ℕ) (rest : List ℕ) (p : Place)
      → IsAt source rest p
      → length rest < fuel
      → IsLexed source p.cursor (lex_loop fuel rest p)
  unfolding lex_loop
  lex_loop-IsLexed zero rest p a l = absurd (omega (arith, l))
  lex_loop-IsLexed (suc fuel) [] p a l =
      (refl, omega (arith, a.whole), omega (arith, a.whole), a.placed)
  lex_loop-IsLexed (suc fuel) (c ∷ rest) p a l =
      lex_round-IsLexed c rest p a (lex_loop fuel)
        (λ more q b m. lex_loop-IsLexed fuel more q b (omega (arith, l, m, a.whole, b.whole)))

-- For every text, the lexer ends, within the fuel given. It refuses the text, or it returns tokens
-- that are in order, do not overlap and have at least one byte of the text each, with the line and
-- the column that `pigen_fail` counts for the token's start, and last the end of the file, behind the
-- text. It reads behind the text only if that ends with the opening of a block comment.
pub pigen_lex_source-IsLexed : (source : List ℕ) → IsLexed source 0 (pigen_lex_source source)
unfolding pigen_lex_source
pigen_lex_source-IsLexed source =
    lex_loop-IsLexed source (suc (length source)) source text_start
      (record { behind = refl; whole = omega arith; placed = start_placed source }) (omega arith)
