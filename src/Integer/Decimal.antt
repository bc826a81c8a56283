-- ===== src/Integer/Decimal.antt =====
-- src/integer.c: `pigen_integer_intern_decimal` reads a decimal numeral, in which `_` only groups
-- the digits, and `pigen_integer_intern_u64`.
use pigen.Common.{
  ℕ, ◌+◌, ◌-◌, ◌*◌, ◌/◌, ◌^◌, ◌≤◌, ◌<◌, ◌≡◌, refl, ◌∙◌, subst, inl, inr, Bool, true, false, ◌||◌,
  ◌&&◌, none, some, List, [], ◌∷◌, arith, length, ◌==◌, leb, if◌then◌else◌, u32, Bool-cases,
}
use pigen.Common.Int.{pos}
use pigen.Magnitude.{magnitude_multiply_small, magnitude_add_small}
use pigen.Magnitude.Value.{value, IsLimbs}
use pigen.Magnitude.Small.{
  value-magnitude_multiply_small, magnitude_multiply_small-IsLimbs, value-magnitude_add_small,
  magnitude_add_small-IsLimbs,
}
use pigen.Integer.{
  IntegerTable, invalid_id, integer_intern, decimal_loop, intern_decimal_result,
  pigen_integer_intern_decimal, u64_limbs, pigen_integer_intern_u64,
}
use pigen.Integer.Table.{IsTable, Yields, IsFull}
use pigen.Integer.Intern.{integer_intern-Yields}

abbrev is_digit : ℕ → Bool
is_digit c = leb b'0' c && leb c b'9'

-- The number that the digits write, read from the left.
abbrev pub decimal : ℕ → List ℕ → ℕ
decimal n [] = n
decimal n (c ∷ cs) = decimal (if is_digit c then n * 10 + (c - b'0') else n) cs

abbrev has_digit : List ℕ → Bool
has_digit [] = false
has_digit (c ∷ cs) = is_digit c || has_digit cs

-- Digits and underscores, at least one digit.
abbrev is_numeral_text : List ℕ → Bool
is_numeral_text [] = true
is_numeral_text (c ∷ cs) = (is_digit c || c == b'_') && is_numeral_text cs

abbrev is_numeral : List ℕ → Bool
is_numeral cs = is_numeral_text cs && has_digit cs

-- What the loop has read: nothing past a wrong byte, and else the number.
record Reads (cs limbs : List ℕ) (any : Bool) : Type 0 where
  out : List ℕ
  returns : decimal_loop cs limbs any ≡ some (out, any || has_digit cs)
  out32 : IsLimbs out
  reads : value out ≡ decimal (value limbs) cs

digit_step : List ℕ → ℕ → List ℕ
digit_step limbs c = magnitude_add_small (magnitude_multiply_small limbs 10) (u32 (c - b'0'))

digit_step-value :
    (limbs : List ℕ) (c : ℕ)
    → IsLimbs limbs
    → is_digit c ≡ true
    → value (digit_step limbs c) ≡ value limbs * 10 + (c - b'0')
unfolding digit_step
digit_step-value limbs c h d =
    let small : c ≤ b'9' = ground arith in
    omega (
      arith,
      value-magnitude_add_small (magnitude_multiply_small limbs 10) (u32 (c - b'0'))
          (magnitude_multiply_small-IsLimbs limbs 10) (omega arith),
      value-magnitude_multiply_small limbs 10 h (omega arith),
    )

digit_step-IsLimbs : (limbs : List ℕ) (c : ℕ) → IsLimbs (digit_step limbs c)
unfolding digit_step
digit_step-IsLimbs limbs c =
    magnitude_add_small-IsLimbs (magnitude_multiply_small limbs 10) (u32 (c - b'0'))
      (magnitude_multiply_small-IsLimbs limbs 10)

decimal_loop-digit :
    (cs limbs : List ℕ) (any : Bool) (c : ℕ)
    → is_digit c ≡ true
    → decimal_loop (c ∷ cs) limbs any ≡ decimal_loop cs (digit_step limbs c) true
unfolding decimal_loop digit_step
decimal_loop-digit cs limbs any c d = ground arith

decimal_loop-underscore :
    (cs limbs : List ℕ) (any : Bool) (c : ℕ)
    → (c == b'_') ≡ true
    → decimal_loop (c ∷ cs) limbs any ≡ decimal_loop cs limbs any
unfolding decimal_loop
decimal_loop-underscore cs limbs any c d = rw d

decimal_loop-Reads :
    (cs limbs : List ℕ) (any : Bool)
    → IsLimbs limbs
    → is_numeral_text cs ≡ true
    → Reads cs limbs any
decimal_loop-Reads [] limbs any h t = record {
  out = limbs;
  returns = unfold decimal_loop in ground arith;
  out32 = h;
  reads = refl;
}
decimal_loop-Reads (c ∷ cs) limbs any h t = elim (Bool-cases (is_digit c)) [
  | inl d ↦
      let r =
        decimal_loop-Reads cs (digit_step limbs c) true (digit_step-IsLimbs limbs c)
          (ground arith) in
      record {
        out = r.out;
        returns = decimal_loop-digit cs limbs any c d ∙ r.returns ∙ ground arith;
        out32 = r.out32;
        reads = r.reads ∙ rw (d, digit_step-value limbs c h d);
      }
  | inr u ↦
      let r = decimal_loop-Reads cs limbs any h (ground arith) in
      record {
        out = r.out;
        returns = decimal_loop-underscore cs limbs any c (ground arith) ∙ r.returns ∙ ground arith;
        out32 = r.out32;
        reads = rw u r.reads;
      }
]

-- Any other text is refused, and the table is left alone.
decimal_loop-refuses :
    (cs limbs : List ℕ) (any : Bool) → is_numeral_text cs ≡ false → decimal_loop cs limbs any ≡ none
unfolding decimal_loop
decimal_loop-refuses [] limbs any e = cc
decimal_loop-refuses (c ∷ cs) limbs any e = ground (
  arith,
  decimal_loop-refuses cs limbs any,
  decimal_loop-refuses cs (magnitude_add_small (magnitude_multiply_small limbs 10) (u32 (c - b'0')))
      true,
)

numeral_not_empty : (cs : List ℕ) → has_digit cs ≡ true → (length cs == 0) ≡ false
numeral_not_empty [] e = cc
numeral_not_empty (c ∷ cs) e = ground arith

-- In a canonical table, the text of a numeral of any length, with underscores, keeps the table
-- canonical and its ids, and becomes the id of the number that its digits write, or the invalid id
-- where the table has no room.
pub pigen_integer_intern_decimal-Yields :
    (t : IntegerTable) (digits : List ℕ)
    → IsTable t
    → is_numeral digits ≡ true
    → Yields t
        (IsFull t (pos (decimal 0 digits)))
        (pos (decimal 0 digits))
        (pigen_integer_intern_decimal t digits)
unfolding pigen_integer_intern_decimal intern_decimal_result
pigen_integer_intern_decimal-Yields t digits v n =
    let text : is_numeral_text digits ≡ true = ground arith in
    let some_digit : has_digit digits ≡ true = ground arith in
    let r = decimal_loop-Reads digits [] false tt text in
    let read : decimal_loop digits [] false ≡ some (r.out, true) = r.returns ∙ rw some_digit in
    rw (numeral_not_empty digits some_digit, read)
      (subst (λ (m : ℕ). Yields t (IsFull t (pos m)) (pos m) (integer_intern t false r.out)) r.reads
        (integer_intern-Yields t false r.out v r.out32))

-- A text that has another byte than digits and underscores, or no digit, is refused and leaves the
-- table as it is.
pub pigen_integer_intern_decimal_refuses :
    (t : IntegerTable) (digits : List ℕ)
    → is_numeral digits ≡ false
    → pigen_integer_intern_decimal t digits ≡ (t, invalid_id)
unfolding pigen_integer_intern_decimal intern_decimal_result
pigen_integer_intern_decimal_refuses t digits n = elim (Bool-cases (length digits == 0)) [
  | inl e ↦ rw e
  | inr e ↦ rw e (elim (Bool-cases (is_numeral_text digits)) [
    | inl text ↦
        let r = decimal_loop-Reads digits [] false tt text in
        let none_read : has_digit digits ≡ false = ground arith in
        let read : decimal_loop digits [] false ≡ some (r.out, false) = r.returns ∙ rw none_read in
        rw read
    | inr other ↦ rw (decimal_loop-refuses digits [] false other)
  ])
]

u64_limbs-IsLimbs : (n : ℕ) → n < 2 ^ 64 → IsLimbs (u64_limbs n)
u64_limbs-IsLimbs n h = elim (Bool-cases (n / 2 ^ 32 == 0)) [
  | inl e ↦ rw e (elim (Bool-cases (n == 0)) [ inl z ↦ rw z tt | inr p ↦ rw p (omega arith) ])
  | inr e ↦ rw e (omega arith)
]

value-u64_limbs : (n : ℕ) → n < 2 ^ 64 → value (u64_limbs n) ≡ n
value-u64_limbs n h = ground arith

-- Every `uint64_t` has its id.
pub pigen_integer_intern_u64-Yields :
    (t : IntegerTable) (n : ℕ)
    → IsTable t
    → n < 2 ^ 64
    → Yields t (IsFull t (pos n)) (pos n) (pigen_integer_intern_u64 t n)
unfolding pigen_integer_intern_u64
pigen_integer_intern_u64-Yields t n v h =
    subst (λ (m : ℕ). Yields t (IsFull t (pos m)) (pos m) (integer_intern t false (u64_limbs n)))
      (value-u64_limbs n h) (integer_intern-Yields t false (u64_limbs n) v (u64_limbs-IsLimbs n h))
