-- ===== src/Integer/Arith/Sum.antt =====
-- src/integer.c: negation, addition and subtraction of ids are those of ℤ.
use pigen.Common.{
  ℕ, ◌≡◌, refl, sym, ap, ap₂, ◌∙◌, subst, Bool, true, false, List, arith, compare, Ordering, same,
  same→eq, not, Bool-cases, inl, inr, ◌⊎◌, ◌==◌, ==_iff,
}
use pigen.Common.Int.{
  ℤ, pos, signed, negate, ◌+ℤ◌, ◌-ℤ◌, signed-not, signed-add, signed-add_opposite,
  signed-add_opposite_larger, signed_zero-negate, add-negate,
}
use pigen.Magnitude.{magnitude_compare, magnitude_add, magnitude_subtract}
use pigen.Magnitude.Value.{value, IsLimbs, no_limbs-value}
use pigen.Magnitude.Order.{magnitude_compare-compare}
use pigen.Magnitude.Sum.{value-magnitude_add, magnitude_add-IsLimbs}
use pigen.Magnitude.Difference.{value-magnitude_subtract, magnitude_subtract-IsLimbs}
use pigen.Integer.{IntegerTable, invalid_id, integer_get, integer_limbs}
use pigen.Integer.Table.{
  IsTable, Denotes, Extends-refl, Extends-trans, Extends-Denotes, Yields, IsFull,
}
use pigen.Integer.Intern.{integer_intern-Yields}
use pigen.Integer.Decimal.{pigen_integer_intern_u64-Yields}
use pigen.Integer.Arith.{
  negate_known, pigen_integer_negate, add_opposite, add_limbs, add_known, pigen_integer_add,
  subtract_negated, pigen_integer_subtract,
}
use pigen.Integer.Arith.Operand.{Operand, operand}

-- The contract at an integer that is written in another way.
pub Yields-at :
    (t : IntegerTable) (x y : ℤ) (r : IntegerTable × ℕ)
    → x ≡ y
    → Yields t (IsFull t x) x r
    → Yields t (IsFull t y) y r
Yields-at t x y r e h = subst (λ (z : ℤ). Yields t (IsFull t z) z r) e h

-- In a canonical table, pigen_integer_negate of an id that stands for an integer keeps the table
-- canonical and its ids, and gives the id of the opposite, or the invalid id where the table has
-- no room for it.
pub pigen_integer_negate-Yields :
    (t : IntegerTable) (id : ℕ) (x : ℤ)
    → IsTable t
    → Denotes t id x
    → Yields t (IsFull t (negate x)) (negate x) (pigen_integer_negate t id)
unfolding pigen_integer_negate negate_known
pigen_integer_negate-Yields t id x v d =
    let p = operand t id x v d in
    rw p.found (elim (Bool-cases (p.entry.limb_count == 0)) [
      | inl z ↦ rw z (record {
        table = v;
        extends = Extends-refl t;
        result = inl (subst (Denotes t id) (zero_case p ((==_iff _ _).0 z)) d);
      })
      | inr nz ↦
          rw (nz, p.pointer (ground arith))
            (Yields-at t (signed (not p.entry.negative) (value p.limbs)) (negate x) _
              (signed-not p.entry.negative (value p.limbs) ∙ ap negate p.means)
              (integer_intern-Yields t (not p.entry.negative) p.limbs v p.limbs32))
    ])
  where
    zero_case : (p : Operand t id x) → p.entry.limb_count ≡ 0 → x ≡ negate x
    zero_case p z =
        subst (λ (y : ℤ). y ≡ negate y) p.means
          (signed_zero-negate p.entry.negative (value p.limbs)
            (no_limbs-value p.limbs (p.count ∙ z)))

pub signed_zero : (s : Bool) → pos 0 ≡ signed s 0
signed_zero true = refl
signed_zero false = refl

-- Opposite signs: the smaller magnitude is taken from the larger.
add_opposite-Yields :
    (t : IntegerTable) (s : Bool) (left right : List ℕ) (o : Ordering)
    → IsTable t
    → IsLimbs left
    → IsLimbs right
    → o ≡ compare (value left) (value right)
    → Yields t
        (IsFull t (signed s (value left) +ℤ signed (not s) (value right)))
        (signed s (value left) +ℤ signed (not s) (value right))
        (add_opposite t s left (not s) right o)
unfolding add_opposite
add_opposite-Yields t s left right Ordering.eq v h k e =
    Yields-at t (pos 0) _ _
      (signed_zero s ∙ sym (signed-add_opposite s (value left) (value right) 0 (ground arith)))
      (pigen_integer_intern_u64-Yields t 0 v (omega arith))
add_opposite-Yields t s left right Ordering.gt v h k e =
    Yields-at t (signed s (value (magnitude_subtract left right))) _ _
      (sym (
        signed-add_opposite s (value left) (value right) (value (magnitude_subtract left right))
          (value-magnitude_subtract left right h k (ground arith))))
      (integer_intern-Yields t s (magnitude_subtract left right) v
        (magnitude_subtract-IsLimbs left right))
add_opposite-Yields t s left right Ordering.lt v h k e =
    Yields-at t (signed (not s) (value (magnitude_subtract right left))) _ _
      (sym (
        signed-add_opposite_larger s (value left) (value right)
          (value (magnitude_subtract right left))
          (value-magnitude_subtract right left k h (ground arith))))
      (integer_intern-Yields t (not s) (magnitude_subtract right left) v
        (magnitude_subtract-IsLimbs right left))

add_limbs-Yields :
    (t : IntegerTable) (a b : ℕ) (x y : ℤ) (p : Operand t a x) (q : Operand t b y)
    → IsTable t
    → Yields t
        (IsFull t (x +ℤ y))
        (x +ℤ y)
        (add_limbs t p.entry q.entry (integer_limbs t p.entry) (integer_limbs t q.entry))
unfolding add_limbs
add_limbs-Yields t a b x y p q v =
    rw (p.whole, q.whole, p.reads, q.reads)
      (elim (Bool-cases (same p.entry.negative q.entry.negative)) [
        | inl e ↦ rw e (
            Yields-at t (signed p.entry.negative (value (magnitude_add p.limbs q.limbs))) (x +ℤ y) _
              (one_sign (same→eq p.entry.negative q.entry.negative e))
              (integer_intern-Yields t p.entry.negative (magnitude_add p.limbs q.limbs) v
                (magnitude_add-IsLimbs p.limbs q.limbs)))
        | inr e ↦ rw e (two_signs (same_false p.entry.negative q.entry.negative e))
      ])
  where
    same_false : (r s : Bool) → same r s ≡ false → s ≡ not r
    same_false r s e = ground arith

    one_sign :
        p.entry.negative ≡ q.entry.negative
        → signed p.entry.negative (value (magnitude_add p.limbs q.limbs)) ≡ x +ℤ y
    one_sign e =
        ap (signed p.entry.negative) (value-magnitude_add p.limbs q.limbs p.limbs32 q.limbs32)
        ∙ sym (signed-add p.entry.negative (value p.limbs) (value q.limbs))
        ∙ ap₂ ◌+ℤ◌ p.means (ap (λ (s : Bool). signed s (value q.limbs)) e ∙ q.means)

    two_signs :
        q.entry.negative ≡ not p.entry.negative
        → Yields t (IsFull t (x +ℤ y)) (x +ℤ y) (
            add_opposite t p.entry.negative p.limbs q.entry.negative q.limbs
              (magnitude_compare p.limbs q.limbs))
    two_signs e = rw e (
        Yields-at t
          (signed p.entry.negative (value p.limbs) +ℤ signed (not p.entry.negative) (value q.limbs))
          (x +ℤ y) _
          (ap₂ ◌+ℤ◌ p.means (ap (λ (s : Bool). signed s (value q.limbs)) (sym e) ∙ q.means))
          (add_opposite-Yields t p.entry.negative p.limbs q.limbs
            (magnitude_compare p.limbs q.limbs) v p.limbs32 q.limbs32
            (magnitude_compare-compare p.limbs q.limbs p.limbs32 q.limbs32 p.normal q.normal)))

-- In a canonical table, pigen_integer_add of two ids that stand for integers keeps the table
-- canonical and its ids, and gives the id of the sum, or the invalid id where the table has no
-- room for it.
pub pigen_integer_add-Yields :
    (t : IntegerTable) (a b : ℕ) (x y : ℤ)
    → IsTable t
    → Denotes t a x
    → Denotes t b y
    → Yields t (IsFull t (x +ℤ y)) (x +ℤ y) (pigen_integer_add t a b)
unfolding pigen_integer_add add_known
pigen_integer_add-Yields t a b x y v d e =
    let p = operand t a x v d in
    let q = operand t b y v e in rw (p.found, q.found) (add_limbs-Yields t a b x y p q v)

Denotes-valid : (t : IntegerTable) (id : ℕ) (x : ℤ) → Denotes t id x → (id == invalid_id) ≡ false
unfolding integer_get
Denotes-valid t id x d = ground (arith, d.found)

-- In a canonical table, pigen_integer_subtract of two ids that stand for integers keeps the table
-- canonical and its ids, and gives the id of the difference, or the invalid id where there is no
-- room for the opposite of the second or for the difference.
pub pigen_integer_subtract-Yields :
    (t : IntegerTable) (a b : ℕ) (x y : ℤ)
    → IsTable t
    → Denotes t a x
    → Denotes t b y
    → Yields t
        (IsFull t (negate y) ⊎ IsFull (pigen_integer_negate t b).0 (x -ℤ y))
        (x -ℤ y)
        (pigen_integer_subtract t a b)
unfolding pigen_integer_subtract subtract_negated
pigen_integer_subtract-Yields t a b x y v d e = elim n.result [
  | inl neg ↦ rw (Denotes-valid r.0 r.1 (negate y) neg) (sum neg)
  | inr refused ↦
      rw (refused.0)
        (record { table = n.table; extends = n.extends; result = inr (refl, inl refused.1) })
]
  where
    r : IntegerTable × ℕ
    r = pigen_integer_negate t b

    n : Yields t (IsFull t (negate y)) (negate y) r
    n = pigen_integer_negate-Yields t b y v e

    sum :
        Denotes r.0 r.1 (negate y)
        → Yields t
            (IsFull t (negate y) ⊎ IsFull r.0 (x -ℤ y))
            (x -ℤ y)
            (pigen_integer_add r.0 a r.1)
    sum neg =
        let s = Yields-at r.0 (x +ℤ negate y) (x -ℤ y) _ (add-negate x y) (
          pigen_integer_add-Yields r.0 a r.1 x (negate y) n.table (Extends-Denotes n.extends d)
            neg) in
        record {
          table = s.table;
          extends = Extends-trans n.extends s.extends;
          result = ground (arith, s.result);
        }
