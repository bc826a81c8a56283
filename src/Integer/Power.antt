-- ===== src/Integer/Power.antt =====
-- src/integer.c: `pigen_integer_power`, with the cases before its loop. The exponent's lowest limb is
-- read through `is_odd_known`; a null pointer there is no case of a canonical table.
pub mod Cases
use pigen.Common.{
  ℕ, zero, suc, ◌%◌, ◌^◌, ◌≤◌, ◌≡◌, ◌≢◌, refl, sym, ap, subst, ◌∙◌, Bool, true, false, Option, none,
  some, arith, inl, inr, ◌==◌, ==_iff, if◌then◌else◌, if_cases, ltb, size_max, Ordering,
}
use pigen.Common.Int.{ℤ, pos, negsuc, magnitude, ◌^ℤ◌, negate, compare_ℤ}
use pigen.Common.Powers.{two_pow_mono}
use pigen.Common.IntPower.{one_mul, one_power, zero_power, minus_power, two_power-le}
use pigen.Integer.{Integer, IntegerTable, invalid_id, integer_get, pigen_integer_intern_u64}
use pigen.Integer.Table.{
  IsTable, Denotes, Extends, Extends-refl, Extends-trans, Extends-Denotes, Yields, IsFull,
}
use pigen.Integer.Decimal.{pigen_integer_intern_u64-Yields}
use pigen.Integer.Arith.{pigen_integer_negate, pigen_integer_compare}
use pigen.Integer.Arith.Operand.{operand}
use pigen.Integer.Arith.Order.{pigen_integer_compare-compare}
use pigen.Integer.Arith.Sum.{pigen_integer_negate-Yields}
use pigen.Integer.Arith.Power.{
  power_loop, full, wide, no_bits, IsPower, stop, done, valid_id, power_loop-IsPower,
}
use pigen.Integer.Read.{
  is_zero_known, is_negative_known, is_odd_known, pigen_integer_is_zero, pigen_integer_is_negative,
  pigen_integer_is_odd, pigen_integer_to_size,
}
use pigen.Integer.Read.Words.{conversions-as_word, tests_lem}

abbrev pub is_equal : Ordering → Bool
is_equal Ordering.eq = true
is_equal Ordering.lt = false
is_equal Ordering.gt = false

-- 64 rounds are enough for an exponent of 64 bits; one more tests its end.
abbrev pub power_counted : ℕ → ℕ → ℕ → IntegerTable → Option ℕ → IntegerTable × ℕ
power_counted base m one t none = (t, invalid_id)
power_counted base m one t (some power) = power_loop 65 m power one base t

abbrev pub power_with_negative : ℕ → ℕ → ℕ → Bool → ℕ → IntegerTable × ℕ → IntegerTable × ℕ
power_with_negative base exponent m odd one (t, negative_one) =
    let counted = power_counted base m one t (pigen_integer_to_size t exponent) in
    if negative_one == invalid_id
    then (t, invalid_id)
    else if is_equal (pigen_integer_compare t base negative_one)
    then (t, if odd then negative_one else one)
    else counted

abbrev pub power_with_one : ℕ → ℕ → ℕ → Bool → Bool → Bool → IntegerTable × ℕ → IntegerTable × ℕ
power_with_one base exponent m base_zero exponent_zero odd (t, one) =
    if one == invalid_id
    then (t, invalid_id)
    else if exponent_zero
    then (t, one)
    else if base_zero
    then pigen_integer_intern_u64 t 0
    else if is_equal (pigen_integer_compare t base one)
    then (t, one)
    else power_with_negative base exponent m odd one (pigen_integer_negate t one)

abbrev power_known : IntegerTable → ℕ → ℕ → Option Integer → Option Integer → ℕ → IntegerTable × ℕ
power_known t base exponent none l m = (t, invalid_id)
power_known t base exponent (some k) none m = (t, invalid_id)
power_known t base exponent (some k) (some l) m =
    if m == 0
    then (t, invalid_id)
    else if l.negative
    then (t, invalid_id)
    else power_with_one base exponent m (k.limb_count == 0) (l.limb_count == 0)
        (is_odd_known t (some l)) (pigen_integer_intern_u64 t 1)

unfoldable pub pigen_integer_power : IntegerTable → ℕ → ℕ → ℕ → IntegerTable × ℕ
pigen_integer_power t base exponent m =
    power_known t base exponent (integer_get t base) (integer_get t exponent) m
