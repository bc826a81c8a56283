-- ===== src/Integer/Tests.antt =====
-- Runs of the code of src/integer.c, and its theorems at concrete inputs.
use pigen.Common.{
  ℕ, ◌^◌, ◌≡◌, refl, subst, Bool, true, false, some, List, [], ◌∷◌, arith, ◌⊎◌, Ordering,
}
use pigen.Common.Int.{pos, negsuc, negate, ◌+ℤ◌, ◌-ℤ◌, ◌*ℤ◌, ◌^ℤ◌, magnitude}
use pigen.Magnitude.{normalized_count, magnitude_multiply_small, magnitude_add_small}
use pigen.Integer.{
  Integer, IntegerTable, invalid_id, integer_get, integer_limbs, limbs_same, known_same,
  limbs_equal, find_integer, append_integer, find_or_append, integer_intern, decimal_loop,
  intern_decimal_result, pigen_integer_intern_decimal, pigen_integer_intern_u64,
}
use pigen.Integer.Table.{IsTable, Denotes, Yields, IsFull}
use pigen.Integer.Intern.{integer_intern-Yields}
use pigen.Integer.Decimal.{
  pigen_integer_intern_u64-Yields, pigen_integer_intern_decimal-Yields,
  pigen_integer_intern_decimal_refuses,
}
use pigen.Integer.Arith.{
  pigen_integer_negate, pigen_integer_compare, pigen_integer_add, pigen_integer_subtract,
  integer_multiply_bounded,
}
use pigen.Integer.Arith.Order.{pigen_integer_compare-compare}
use pigen.Integer.Arith.Sum.{
  pigen_integer_negate-Yields, pigen_integer_add-Yields, pigen_integer_subtract-Yields,
}
use pigen.Integer.Arith.Product.{
  IsRefused, integer_multiply_bounded-Yields, integer_multiply_bounded_wide,
}
use pigen.Integer.Arith.Shift.{
  IsShiftRefused, pigen_integer_shift_left, pigen_integer_shift_left-Yields,
}
use pigen.Integer.Arith.Power.{IsPower}
use pigen.Integer.Power.{pigen_integer_power}
use pigen.Integer.Power.Cases.{pigen_integer_power-Yields}
use pigen.Integer.Read.{
  pigen_integer_is_zero, pigen_integer_is_negative, pigen_integer_is_odd, pigen_integer_to_size,
  pigen_integer_to_u64, pigen_integer_unsigned_width, pigen_integer_signed_width,
}
use pigen.Integer.Read.Words.{conversions-as_word, tests_lem}
use pigen.Integer.Read.Widths.{
  IsSignedWidth, IsUnsignedWidth, pigen_integer_signed_width-IsSignedWidth,
  pigen_integer_unsigned_width-IsUnsignedWidth,
}

-- What a run reads: the whole of interning.
run_intern : IntegerTable → Bool → List ℕ → IntegerTable × ℕ
unfolding integer_intern find_or_append find_integer append_integer limbs_equal known_same
    limbs_same integer_limbs normalized_count
run_intern t negative limbs = integer_intern t negative limbs

abbrev empty : IntegerTable
empty = record { integers = []; limbs = [] }

abbrev seven : Integer
seven = record { negative = false; first_limb = 0; limb_count = 1 }

-- The table after 7 and -(2 ^ 32 + 1) have been interned.
abbrev large : Integer
large = record { negative = true; first_limb = 1; limb_count = 2 }

abbrev sevens : IntegerTable
sevens = record { integers = seven ∷ []; limbs = 7 ∷ [] }

abbrev both : IntegerTable
both = record { integers = seven ∷ large ∷ []; limbs = 7 ∷ 1 ∷ 1 ∷ [] }

empty-IsTable : IsTable empty
empty-IsTable = record {
  stored = tt;
  distinct = λ i j k l e. cc;
  countable = omega arith;
  addressable = omega arith;
}

sevens-run : pigen_integer_intern_u64 empty 7 ≡ (sevens, 0)
unfolding run_intern pigen_integer_intern_u64
sevens-run = refl

sevens-IsTable : IsTable sevens
sevens-IsTable =
    subst (λ (r : IntegerTable × ℕ). IsTable r.0) sevens-run
      (pigen_integer_intern_u64-Yields empty 7 empty-IsTable (omega arith)).table

both-run : integer_intern sevens true (1 ∷ 1 ∷ 0 ∷ []) ≡ (both, 1)
unfolding run_intern
both-run = refl

integer_intern-Yields_example :
    Yields sevens
      (IsFull sevens (negsuc (2 ^ 32)))
      (negsuc (2 ^ 32))
      (integer_intern sevens true (1 ∷ 1 ∷ 0 ∷ []))
integer_intern-Yields_example =
    integer_intern-Yields sevens true (1 ∷ 1 ∷ 0 ∷ []) sevens-IsTable (omega arith)

both-IsTable : IsTable both
both-IsTable =
    subst (λ (r : IntegerTable × ℕ). IsTable r.0) both-run integer_intern-Yields_example.table

both-seven : Denotes both 0 (pos 7)
unfolding integer_get
both-seven = record { entry = seven; found = refl; means = refl }

both-large : Denotes both 1 (negsuc (2 ^ 32))
unfolding integer_get
both-large = record { entry = large; found = refl; means = refl }

abbrev grouped : List ℕ
grouped = b'4' ∷ b'_' ∷ b'2' ∷ []

decimal-run : (pigen_integer_intern_decimal empty grouped).1 ≡ 0
unfolding run_intern pigen_integer_intern_decimal decimal_loop intern_decimal_result
    magnitude_multiply_small magnitude_add_small
decimal-run = refl

pigen_integer_intern_decimal-Yields_example :
    Yields both (IsFull both (pos 42)) (pos 42) (pigen_integer_intern_decimal both grouped)
pigen_integer_intern_decimal-Yields_example =
    pigen_integer_intern_decimal-Yields both grouped both-IsTable refl

pigen_integer_intern_decimal_refuses_example :
    pigen_integer_intern_decimal both (b'4' ∷ b'x' ∷ []) ≡ (both, invalid_id)
pigen_integer_intern_decimal_refuses_example =
    pigen_integer_intern_decimal_refuses both (b'4' ∷ b'x' ∷ []) refl

pigen_integer_compare-compare_example : pigen_integer_compare both 0 1 ≡ Ordering.gt
pigen_integer_compare-compare_example =
    pigen_integer_compare-compare both 0 1 (pos 7) (negsuc (2 ^ 32)) both-IsTable both-seven
      both-large

pigen_integer_negate-Yields_example :
    Yields both (IsFull both (negsuc 6)) (negsuc 6) (pigen_integer_negate both 0)
unfolding negate
pigen_integer_negate-Yields_example =
    pigen_integer_negate-Yields both 0 (pos 7) both-IsTable both-seven

pigen_integer_add-Yields_example :
    Yields both
      (IsFull both (pos 7 +ℤ negsuc (2 ^ 32)))
      (pos 7 +ℤ negsuc (2 ^ 32))
      (pigen_integer_add both 0 1)
pigen_integer_add-Yields_example =
    pigen_integer_add-Yields both 0 1 (pos 7) (negsuc (2 ^ 32)) both-IsTable both-seven both-large

pigen_integer_subtract-Yields_example :
    Yields both
      (IsFull both (negate (negsuc (2 ^ 32)))
        ⊎ IsFull (pigen_integer_negate both 1).0 (pos 7 -ℤ negsuc (2 ^ 32)))
      (pos 7 -ℤ negsuc (2 ^ 32))
      (pigen_integer_subtract both 0 1)
pigen_integer_subtract-Yields_example =
    pigen_integer_subtract-Yields both 0 1 (pos 7) (negsuc (2 ^ 32)) both-IsTable both-seven
      both-large

integer_multiply_bounded-Yields_example :
    Yields both
      (IsRefused both (pos 7) (negsuc (2 ^ 32)) 40)
      (pos 7 *ℤ negsuc (2 ^ 32))
      (integer_multiply_bounded both 0 1 40)
integer_multiply_bounded-Yields_example =
    integer_multiply_bounded-Yields both 0 1 (pos 7) (negsuc (2 ^ 32)) 40 both-IsTable both-seven
      both-large

integer_multiply_bounded_wide_example : integer_multiply_bounded both 0 1 34 ≡ (both, invalid_id)
unfolding magnitude ◌*ℤ◌
integer_multiply_bounded_wide_example =
    integer_multiply_bounded_wide both 0 1 (pos 7) (negsuc (2 ^ 32)) 34 both-IsTable both-seven
      both-large (omega arith) (omega arith)

pigen_integer_shift_left-Yields_example :
    Yields both
      (IsShiftRefused both (negsuc (2 ^ 32) *ℤ pos (2 ^ 33)) 70)
      (negsuc (2 ^ 32) *ℤ pos (2 ^ 33))
      (pigen_integer_shift_left both 1 33 70)
pigen_integer_shift_left-Yields_example =
    pigen_integer_shift_left-Yields both 1 (negsuc (2 ^ 32)) 33 70 both-IsTable both-large
      (omega arith) (omega arith)

pigen_integer_power-Yields_example :
    IsPower both (negsuc (2 ^ 32) ^ℤ 7) 240 (pigen_integer_power both 1 0 240)
pigen_integer_power-Yields_example =
    pigen_integer_power-Yields both 1 0 (negsuc (2 ^ 32)) 7 240 both-IsTable both-large both-seven
      (omega arith)

conversions-as_word_example :
    (pigen_integer_to_size both 0 ≡ some 7) × (pigen_integer_to_u64 both 0 ≡ some 7)
conversions-as_word_example = conversions-as_word both 0 (pos 7) both-IsTable both-seven

tests_lem_example :
    (pigen_integer_is_zero both 1 ≡ false)
    × (pigen_integer_is_negative both 1 ≡ true)
    × (pigen_integer_is_odd both 1 ≡ true)
unfolding magnitude
tests_lem_example = tests_lem both 1 (negsuc (2 ^ 32)) both-IsTable both-large

pigen_integer_signed_width-IsSignedWidth_example :
    IsSignedWidth (pigen_integer_signed_width both 1) (negsuc (2 ^ 32))
pigen_integer_signed_width-IsSignedWidth_example =
    pigen_integer_signed_width-IsSignedWidth both 1 (negsuc (2 ^ 32)) both-IsTable both-large
      (omega arith)

pigen_integer_unsigned_width-IsUnsignedWidth_example :
    IsUnsignedWidth (pigen_integer_unsigned_width both 0) (pos 7)
pigen_integer_unsigned_width-IsUnsignedWidth_example =
    pigen_integer_unsigned_width-IsUnsignedWidth both 0 (pos 7) both-IsTable both-seven
      (omega arith)
