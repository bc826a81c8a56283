-- ===== src/Lexer/Munch.antt =====
-- src/lexer.c: the symbol at the cursor, and the comment that is never closed.
use pigen.Common.{
  ℕ, zero, suc, ◌≤◌, ◌<◌, ◌≡◌, refl, sym, subst, ◌∙◌, ◌⊎◌, inl, inr, true, false, some, List, [],
  ◌∷◌, ◌++◌, arith, length, length-append, take, get_elem?, All, Bool-cases,
}
use pigen.TransferType.Laws.{bytes_same_iff}
use pigen.Lexer.{
  Place, is_space, advance, scan_count, block_comment, is_prefix, match_symbol, symbols,
  symbol_length, overrun, lex_loop, pigen_lex_source, text_start,
}

abbrev StartsWith : List ℕ → List ℕ → Type 0
StartsWith source s = (length s ≤ length source) × (take (length s) source ≡ s)

is_prefix-StartsWith : (s source : List ℕ) → is_prefix s source ≡ true → StartsWith source s
is_prefix-StartsWith s source e =
    (ground arith, sym ((bytes_same_iff s (take (length s) source)).0 (ground arith)))

StartsWith-is_prefix : (s source : List ℕ) → StartsWith source s → is_prefix s source ≡ true
StartsWith-is_prefix s source h =
    let same = (bytes_same_iff s (take (length s) source)).1 (sym h.1) in ground (arith, same, h.0)

-- No symbol is longer than one before it.
abbrev IsDescending : ℕ → List (List ℕ) → Type 0
IsDescending n [] = 1 ≤ n
IsDescending n (s ∷ known) = (length s ≤ n) × IsDescending (length s) known

-- `n` is the length of the longest symbol of `known` that the text starts with, or 1.
pub record IsLongest (known : List (List ℕ)) (source : List ℕ) (n : ℕ) : Type 0 where
  pub longest :
      (i : ℕ) (s : List ℕ) → get_elem? known i ≡ some s → StartsWith source s → length s ≤ n
  pub reached :
      ((n ≡ 1) × ((i : ℕ) (s : List ℕ) → get_elem? known i ≡ some s → StartsWith source s → ⊥))
      ⊎ ((i : ℕ) × (s : List ℕ) × (get_elem? known i ≡ some s)
          × StartsWith source s
          × (length s ≡ n))

match_symbol-le :
    (n : ℕ) (known : List (List ℕ)) (source : List ℕ)
    → IsDescending n known
    → match_symbol known source ≤ n
unfolding match_symbol
match_symbol-le n [] source d = d
match_symbol-le n (s ∷ known) source d =
    ground (arith, d.0, match_symbol-le (length s) known source d.1)

IsDescending-le :
    (n : ℕ) (known : List (List ℕ))
    → IsDescending n known
    → (i : ℕ) (s : List ℕ) → get_elem? known i ≡ some s
    → length s ≤ n
IsDescending-le n [] d i s e = cc
IsDescending-le n (t ∷ known) d zero s e = subst (λ (x : List ℕ). length x ≤ n) (cc) d.0
IsDescending-le n (t ∷ known) d (suc i) s e =
    omega (arith, d.0, IsDescending-le (length t) known d.1 i s e)

module _ (s : List ℕ) (known : List (List ℕ)) (source : List ℕ) (n : ℕ)
    (other : is_prefix s source ≡ false) where
  differs : (t : List ℕ) → some s ≡ some t → StartsWith source t → ⊥
  differs t e h = cc (StartsWith-is_prefix t source h, other, e)

  cons_longest :
      IsLongest known source n
      → (i : ℕ) (t : List ℕ) → get_elem? (s ∷ known) i ≡ some t
      → StartsWith source t
      → length t ≤ n
  cons_longest l zero t e h = absurd (differs t e h)
  cons_longest l (suc i) t e h = l.longest i t e h

  cons_none :
      ((i : ℕ) (t : List ℕ) → get_elem? known i ≡ some t → StartsWith source t → ⊥)
      → (i : ℕ) (t : List ℕ) → get_elem? (s ∷ known) i ≡ some t
      → StartsWith source t
      → ⊥
  cons_none f zero t e h = differs t e h
  cons_none f (suc i) t e h = f i t e h

  IsLongest-cons : IsLongest known source n → IsLongest (s ∷ known) source n
  IsLongest-cons l = record {
    longest = cons_longest l;
    reached = elim l.reached [
      | inl h ↦ inl (h.0, cons_none h.1)
      | inr (i, t, e, h, q) ↦ inr (suc i, t, e, h, q)
    ];
  }

match_symbol-IsLongest :
    (n : ℕ) (known : List (List ℕ)) (source : List ℕ)
    → IsDescending n known
    → IsLongest known source (match_symbol known source)
unfolding match_symbol
match_symbol-IsLongest n [] source d = record {
  longest = λ i s e h. cc;
  reached = inl (refl, λ i s e h. cc);
}
match_symbol-IsLongest n (s ∷ known) source d = elim (Bool-cases (is_prefix s source)) [
  | inl found ↦ rw found (record {
    longest = λ i t e h. within i t e;
    reached = inr (0, s, refl, is_prefix-StartsWith s source found, refl);
  })
  | inr other ↦
      rw other
        (IsLongest-cons s known source _ other (match_symbol-IsLongest (length s) known source d.1))
]
  where
    within : (i : ℕ) (t : List ℕ) → get_elem? (s ∷ known) i ≡ some t → length t ≤ length s
    within i t e = IsDescending-le (length s) (s ∷ known) (omega arith, d.1) i t e

-- The symbol at the cursor is the longest of `symbols` that the text starts with there, and one byte
-- where it starts with none.
pub symbol_length-IsLongest : (source : List ℕ) → IsLongest symbols source (symbol_length source)
unfolding symbol_length
symbol_length-IsLongest source = match_symbol-IsLongest 4 symbols source (omega arith)

space_round :
    (fuel c : ℕ) (rest : List ℕ) (p : Place)
    → is_space c ≡ true
    → lex_loop (suc fuel) (c ∷ rest) p ≡ lex_loop fuel rest (advance c p)
unfolding lex_loop
space_round fuel c rest p e = rw e refl

open_round : (fuel : ℕ) (p : Place) → lex_loop (suc fuel) (b'/' ∷ b'*' ∷ []) p ≡ overrun
unfolding lex_loop scan_count block_comment
open_round fuel p = refl

lex_loop-open :
    (spaces : List ℕ) (fuel : ℕ) (p : Place)
    → All (λ (c : ℕ). is_space c ≡ true) spaces
    → length spaces < fuel
    → lex_loop fuel (spaces ++ b'/' ∷ b'*' ∷ []) p ≡ overrun
lex_loop-open [] zero p h l = absurd (omega arith)
lex_loop-open [] (suc fuel) p h l = open_round fuel p
lex_loop-open (c ∷ spaces) zero p h l = absurd (omega arith)
lex_loop-open (c ∷ spaces) (suc fuel) p h l =
    space_round fuel c (spaces ++ b'/' ∷ b'*' ∷ []) p h.0
    ∙ lex_loop-open spaces fuel (advance c p) h.1 (omega arith)

-- A text of spaces that ends with the opening of a block comment is read past its end.
pub pigen_lex_source-overrun :
    (spaces : List ℕ)
    → All (λ (c : ℕ). is_space c ≡ true) spaces
    → pigen_lex_source (spaces ++ b'/' ∷ b'*' ∷ []) ≡ overrun
unfolding pigen_lex_source
pigen_lex_source-overrun spaces h =
    lex_loop-open spaces _ text_start h (omega (arith, length-append spaces (b'/' ∷ b'*' ∷ [])))
