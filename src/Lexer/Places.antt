-- ===== src/Lexer/Places.antt =====
-- src/lexer.c: the places of the scans.
use pigen.Common.{
  ℕ, zero, suc, ◌+◌, ◌≤◌, ◌≡◌, ap, ◌∙◌, inl, inr, Bool, ◌&&◌, Option, none, some, List, [], ◌∷◌,
  arith, ◌==◌, if◌then◌else◌, length, drop, Bool-cases,
}
use pigen.Source.{SourceLocation, diagnostic_place}
use pigen.Lexer.{
  Place, advance, Scan, scan_while, scan_count, Comment, closed, unterminated, past_end,
  block_comment, string_body,
}

abbrev location : ℕ → ℕ → SourceLocation
location line column = record { line = line; column = column }

abbrev next_place : ℕ → SourceLocation → SourceLocation
next_place c l = if c == b'\n' then location (l.line + 1) 1 else location l.line (l.column + 1)

diagnostic_place-suc :
    (source : List ℕ) (n line column c : ℕ) (rest : List ℕ)
    → drop n source ≡ c ∷ rest
    → diagnostic_place source (suc n) line column
      ≡ next_place c (diagnostic_place source n line column)
unfolding diagnostic_place
diagnostic_place-suc [] zero line column c rest e = cc
diagnostic_place-suc [] (suc n) line column c rest e = cc
diagnostic_place-suc (d ∷ source) zero line column c rest e = ground arith
diagnostic_place-suc (d ∷ source) (suc n) line column c rest e = elim (Bool-cases (d == b'\n')) [
  | inl newline ↦ rw newline (diagnostic_place-suc source n (line + 1) 1 c rest e)
  | inr other ↦ rw other (diagnostic_place-suc source n line (column + 1) c rest e)
]

drop-suc :
    (source : List ℕ) (n c : ℕ) (rest : List ℕ)
    → drop n source ≡ c ∷ rest
    → drop (suc n) source ≡ rest
drop-suc [] zero c rest e = cc
drop-suc [] (suc n) c rest e = cc
drop-suc (d ∷ source) zero c rest e = cc
drop-suc (d ∷ source) (suc n) c rest e = drop-suc source n c rest e

-- `rest` is what the source has behind the cursor, whose line and column are right.
pub record IsAt (source rest : List ℕ) (p : Place) : Type 0 where
  pub behind : drop p.cursor source ≡ rest
  pub whole : p.cursor + length rest ≡ length source
  pub placed : diagnostic_place source p.cursor 1 1 ≡ location p.line p.column

pub cursor-advance : (c : ℕ) (p : Place) → (advance c p).cursor ≡ suc p.cursor
cursor-advance c p = ground arith

module _ (source : List ℕ) where
  pub advance-IsAt :
      (c : ℕ) (rest : List ℕ) (p : Place)
      → IsAt source (c ∷ rest) p
      → IsAt source rest (advance c p)
  advance-IsAt c rest p a = record {
    behind =
        ap (λ (n : ℕ). drop n source) (cursor-advance c p)
        ∙ drop-suc source p.cursor c rest a.behind;
    whole = omega (arith, cursor-advance c p, a.whole);
    placed =
        ap (λ (n : ℕ). diagnostic_place source n 1 1) (cursor-advance c p)
        ∙ diagnostic_place-suc source p.cursor 1 1 c rest a.behind
        ∙ ap (next_place c) a.placed
        ∙ ground arith;
  }

  -- A scan from `p` ends at a place of the source.
  pub record IsScan (p : Place) (s : Scan) : Type 0 where
    pub at : IsAt source s.0 s.1
    pub forward : p.cursor ≤ s.1.cursor

  IsScan-advance : (c : ℕ) (p : Place) (s : Scan) → IsScan (advance c p) s → IsScan p s
  IsScan-advance c p s h = record {
    at = h.at;
    forward = omega (arith, h.forward, cursor-advance c p);
  }

  pub scan_while-IsScan :
      (class : ℕ → Bool) (rest : List ℕ) (p : Place)
      → IsAt source rest p
      → IsScan p (scan_while class rest p)
  unfolding scan_while
  scan_while-IsScan class [] p a = record { at = a; forward = omega arith }
  scan_while-IsScan class (c ∷ rest) p a = elim (Bool-cases (class c)) [
    | inl more ↦ rw more (
        IsScan-advance c p _ (scan_while-IsScan class rest (advance c p) (advance-IsAt c rest p a)))
    | inr stop ↦ rw stop (record { at = a; forward = omega arith })
  ]

  pub scan_count-IsScan :
      (n : ℕ) (rest : List ℕ) (p : Place) → IsAt source rest p → IsScan p (scan_count n rest p)
  unfolding scan_count
  scan_count-IsScan zero rest p a = record { at = a; forward = omega arith }
  scan_count-IsScan (suc n) [] p a = record { at = a; forward = omega arith }
  scan_count-IsScan (suc n) (c ∷ rest) p a =
      IsScan-advance c p _ (scan_count-IsScan n rest (advance c p) (advance-IsAt c rest p a))

  abbrev pub IsComment : Place → Comment → Type 0
  IsComment p (closed rest q) = IsScan p (rest, q)
  IsComment p unterminated = Unit
  IsComment p past_end = Unit

  IsComment-advance : (c : ℕ) (p : Place) (r : Comment) → IsComment (advance c p) r → IsComment p r
  IsComment-advance c p (closed rest q) h = IsScan-advance c p (rest, q) h
  IsComment-advance c p unterminated h = tt
  IsComment-advance c p past_end h = tt

  pub IsComment-IsScan :
      (p : Place) (s : Scan) (r : Comment) → IsScan p s → IsComment s.1 r → IsComment p r
  IsComment-IsScan p s (closed rest q) i h = record {
    at = h.at;
    forward = omega (arith, i.forward, h.forward);
  }
  IsComment-IsScan p s unterminated i h = tt
  IsComment-IsScan p s past_end i h = tt

  pub block_comment-IsComment :
      (rest : List ℕ) (p : Place) → IsAt source rest p → IsComment p (block_comment rest p)
  unfolding block_comment
  block_comment-IsComment [] p a = tt
  block_comment-IsComment (c ∷ []) p a = tt
  block_comment-IsComment (c ∷ d ∷ rest) p a =
      let b = advance-IsAt c (d ∷ rest) p a in
      elim (Bool-cases (c == b'*' && d == b'/')) [
        | inl end ↦ rw end (record {
          at = advance-IsAt d rest (advance c p) b;
          forward = omega (arith, cursor-advance c p, cursor-advance d (advance c p));
        })
        | inr inside ↦
            rw inside (IsComment-advance c p _ (block_comment-IsComment (d ∷ rest) (advance c p) b))
      ]

  abbrev pub IsString : Place → Option Scan → Type 0
  IsString p none = Unit
  IsString p (some s) = IsScan p s

  IsString-advance : (c : ℕ) (p : Place) (r : Option Scan) → IsString (advance c p) r → IsString p r
  IsString-advance c p none h = tt
  IsString-advance c p (some s) h = IsScan-advance c p s h

  behind-IsScan :
      (c : ℕ) (rest : List ℕ) (p : Place) → IsAt source (c ∷ rest) p → IsScan p (rest, advance c p)
  behind-IsScan c rest p a = record {
    at = advance-IsAt c rest p a;
    forward = omega (arith, cursor-advance c p);
  }

  pub string_body-IsString :
      (rest : List ℕ) (p : Place) → IsAt source rest p → IsString p (string_body rest p)
  unfolding string_body
  string_body-IsString [] p a = tt
  string_body-IsString (c ∷ []) p a = elim (Bool-cases (c == b'"')) [
    | inl quote ↦ rw quote (behind-IsScan c [] p a)
    | inr other ↦ rw other tt
  ]
  string_body-IsString (c ∷ d ∷ rest) p a =
      let b = advance-IsAt c (d ∷ rest) p a in
      elim (Bool-cases (c == b'"')) [
        | inl quote ↦ rw quote (behind-IsScan c (d ∷ rest) p a)
        | inr other ↦ elim (Bool-cases (c == b'\\')) [
          | inl escape ↦
              rw (other, escape)
                (IsString-advance c p _ (
                  IsString-advance d (advance c p) _ (
                    string_body-IsString rest (advance d (advance c p))
                      (advance-IsAt d rest (advance c p) b))))
          | inr plain ↦
              rw (other, plain)
                (IsString-advance c p _ (string_body-IsString (d ∷ rest) (advance c p) b))
        ]
      ]
