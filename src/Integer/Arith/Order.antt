-- ===== src/Integer/Arith/Order.antt =====
-- src/integer.c: `pigen_integer_compare` orders the integers.
use pigen.Common.{ℕ, ◌≡◌, Bool, true, false, arith, compare, Ordering, same, if◌then◌else◌}
use pigen.Common.Int.{ℤ, signed, compare_ℤ}
use pigen.Magnitude.Value.{value}
use pigen.Magnitude.Order.{magnitude_compare-compare}
use pigen.Integer.{IntegerTable}
use pigen.Integer.Table.{IsTable, Denotes}
use pigen.Integer.Arith.{compare_limbs, compare_known, pigen_integer_compare, opposite}
use pigen.Integer.Arith.Operand.{operand}

-- Signs decide, and under one sign the magnitudes.
signs_first :
    (r s : Bool) (m n : ℕ)
    → (m ≡ 0 → r ≡ false)
    → (n ≡ 0 → s ≡ false)
    → (if same r s
        then (if r then opposite (compare m n) else compare m n)
        else (if r then Ordering.lt else Ordering.gt))
      ≡ compare_ℤ (signed r m) (signed s n)
signs_first true true m n h k = ground arith
signs_first true false m n h k = ground arith
signs_first false true m n h k = ground arith
signs_first false false m n h k = ground arith

-- In a canonical table, pigen_integer_compare of two ids is the order of the integers that they
-- stand for.
pub pigen_integer_compare-compare :
    (t : IntegerTable) (a b : ℕ) (x y : ℤ)
    → IsTable t
    → Denotes t a x
    → Denotes t b y
    → pigen_integer_compare t a b ≡ compare_ℤ x y
unfolding pigen_integer_compare compare_known compare_limbs
pigen_integer_compare-compare t a b x y v d e =
    let p = operand t a x v d in
    let q = operand t b y v e in
    rw (p.found, q.found, ← p.means, ← q.means)
      (rw
        (
          p.whole,
          q.whole,
          p.reads,
          q.reads,
          magnitude_compare-compare p.limbs q.limbs p.limbs32 q.limbs32 p.normal q.normal,
        )
        (signs_first p.entry.negative q.entry.negative (value p.limbs) (value q.limbs) p.unsigned
          q.unsigned))
