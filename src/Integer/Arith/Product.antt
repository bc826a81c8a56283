-- ===== src/Integer/Arith/Product.antt =====
-- src/integer.c: products of ids are those of ℤ, up to a bound on their width.
use pigen.Common.{
  ℕ, ◌+◌, ◌-◌, ◌/◌, ◌^◌, ◌≤◌, ◌<◌, ◌≡◌, ◌≢◌, refl, sym, ap, ap₂, ◌∙◌, Bool, true, false, ◌||◌, some,
  List, arith, same, not, Bool-cases, inl, inr, ◌==◌, ==_iff, length, ltb, size_max,
}
use pigen.Common.Int.{ℤ, pos, signed, magnitude, ◌*ℤ◌, signed-mul, magnitude-signed}
use pigen.Common.Powers.{IsWidth-iff, two_pow-pos}
use pigen.Magnitude.{magnitude_multiply}
use pigen.Magnitude.Value.{value, IsNormal, no_limbs-value}
use pigen.Magnitude.Product.{
  value-magnitude_multiply, magnitude_multiply-IsLimbs, magnitude_multiply-IsNormal,
}
use pigen.Integer.{IntegerTable, invalid_id}
use pigen.Integer.Table.{IsTable, Denotes, Extends-refl, Yields, IsFull}
use pigen.Integer.Intern.{integer_intern-Yields}
use pigen.Integer.Decimal.{pigen_integer_intern_u64-Yields}
use pigen.Integer.Arith.{is_too_wide, multiply_limbs, multiply_known, integer_multiply_bounded}
use pigen.Integer.Arith.Operand.{Operand, operand}
use pigen.Integer.Arith.Sum.{Yields-at, signed_zero}
use pigen.Integer.Arith.Width.{top_width, top_width-IsWidth, too_wide, not_too_wide}

-- Why a product has no id.
pub data IsRefused (t : IntegerTable) (x y : ℤ) (maximum_bits : ℕ) : Type 0 where
  no_bits : maximum_bits ≡ 0 → IsRefused t x y maximum_bits
  too_many_limbs :
      (left right : List ℕ)
      → value left ≡ magnitude x
      → value right ≡ magnitude y
      → IsNormal left
      → IsNormal right
      → size_max / 4 < length left + length right
      → IsRefused t x y maximum_bits
  wide : 2 ^ maximum_bits ≤ magnitude (x *ℤ y) → IsRefused t x y maximum_bits
  full : IsFull t (x *ℤ y) → IsRefused t x y maximum_bits

module _ (t : IntegerTable) (a b : ℕ) (x y : ℤ) (v : IsTable t) (p : Operand t a x)
    (q : Operand t b y) where
  abbrev product_sign : Bool
  product_sign = not (same p.entry.negative q.entry.negative)

  product : signed product_sign (value (magnitude_multiply p.limbs q.limbs)) ≡ x *ℤ y
  product =
      ap (signed product_sign) (value-magnitude_multiply p.limbs q.limbs p.limbs32 q.limbs32)
      ∙ sym (signed-mul p.entry.negative q.entry.negative (value p.limbs) (value q.limbs))
      ∙ ap₂ ◌*ℤ◌ p.means q.means

  product-magnitude : value (magnitude_multiply p.limbs q.limbs) ≡ magnitude (x *ℤ y)
  product-magnitude =
      sym (magnitude-signed product_sign (value (magnitude_multiply p.limbs q.limbs)))
      ∙ ap magnitude product

  left_magnitude : value p.limbs ≡ magnitude x
  left_magnitude = sym (magnitude-signed p.entry.negative (value p.limbs)) ∙ ap magnitude p.means

  right_magnitude : value q.limbs ≡ magnitude y
  right_magnitude = sym (magnitude-signed q.entry.negative (value q.limbs)) ∙ ap magnitude q.means

  refuse : (m : ℕ) → IsRefused t x y m → Yields t (IsRefused t x y m) (x *ℤ y) (t, invalid_id)
  refuse m why = record { table = v; extends = Extends-refl t; result = inr (refl, why) }

  product_wide :
      (m : ℕ)
      → m ≢ 0
      → is_too_wide (magnitude_multiply p.limbs q.limbs) m ≡ true
      → 2 ^ m ≤ magnitude (x *ℤ y)
  product_wide m ne e =
      let xs = magnitude_multiply p.limbs q.limbs in
      let h = magnitude_multiply-IsLimbs p.limbs q.limbs in
      let n = magnitude_multiply-IsNormal p.limbs q.limbs in
      ground (
        arith,
        product-magnitude,
        (IsWidth-iff (top_width xs) m (value xs) (top_width-IsWidth xs h n)).1,
        too_wide xs m ne h n e,
      )

  refusal-weaken :
      (m : ℕ) (r : IntegerTable × ℕ)
      → Yields t (IsFull t (x *ℤ y)) (x *ℤ y) r
      → Yields t (IsRefused t x y m) (x *ℤ y) r
  refusal-weaken m r z = record {
    table = z.table;
    extends = z.extends;
    result = elim z.result [ inl d ↦ inl d | inr e ↦ inr (e.0, full e.1) ];
  }

  multiply_limbs-Yields :
      (m : ℕ)
      → m ≢ 0
      → Yields t
          (IsRefused t x y m)
          (x *ℤ y)
          (multiply_limbs t product_sign (some p.limbs) (some q.limbs) m)
  unfolding multiply_limbs
  multiply_limbs-Yields m ne =
      elim (Bool-cases (
        ltb (size_max - length q.limbs) (length p.limbs)
        || ltb (size_max / 4) (length p.limbs + length q.limbs))) [
          | inl long ↦ rw long (
              refuse m (
                too_many_limbs p.limbs q.limbs left_magnitude right_magnitude p.normal q.normal
                  (ground arith)))
          | inr short ↦
              rw short (elim (Bool-cases (is_too_wide (magnitude_multiply p.limbs q.limbs) m)) [
                | inl big ↦ rw big (refuse m (wide (product_wide m ne big)))
                | inr fits ↦ rw fits (
                    refusal-weaken m _ (
                      Yields-at t (signed product_sign (value (magnitude_multiply p.limbs q.limbs)))
                        (x *ℤ y) _ product
                        (integer_intern-Yields t product_sign (magnitude_multiply p.limbs q.limbs) v
                          (magnitude_multiply-IsLimbs p.limbs q.limbs))))
              ])
        ]

  zero_product : (p.entry.limb_count == 0 || q.entry.limb_count == 0) ≡ true → pos 0 ≡ x *ℤ y
  zero_product e =
      signed_zero product_sign ∙ ap (signed product_sign) (sym (no_product e)) ∙ product
    where
      no_product :
          (p.entry.limb_count == 0 || q.entry.limb_count == 0) ≡ true
          → value (magnitude_multiply p.limbs q.limbs) ≡ 0
      no_product e = ground (
        arith,
        value-magnitude_multiply p.limbs q.limbs p.limbs32 q.limbs32,
        p.count,
        q.count,
        no_limbs-value p.limbs,
        no_limbs-value q.limbs,
      )

  multiply_known-Yields :
      (m : ℕ)
      → Yields t (IsRefused t x y m) (x *ℤ y) (multiply_known t (some p.entry) (some q.entry) m)
  unfolding multiply_known
  multiply_known-Yields m = elim (Bool-cases (m == 0)) [
    | inl z ↦ rw z (refuse m (no_bits ((==_iff m 0).0 z)))
    | inr nz ↦ rw nz (elim (Bool-cases (p.entry.limb_count == 0 || q.entry.limb_count == 0)) [
      | inl z ↦ rw z (
          refusal-weaken m _ (
            Yields-at t (pos 0) (x *ℤ y) _ (zero_product z)
              (pigen_integer_intern_u64-Yields t 0 v (omega arith))))
      | inr some_limbs ↦
          rw some_limbs
            (elim (Bool-cases (ltb (size_max - q.entry.limb_count) p.entry.limb_count)) [
              | inl long ↦ rw long (
                  refuse m (
                    too_many_limbs p.limbs q.limbs left_magnitude right_magnitude p.normal q.normal
                      (ground (arith, p.count, q.count))))
              | inr short ↦
                  rw (short, p.pointer (ground arith), q.pointer (ground arith))
                    (multiply_limbs-Yields m (ground arith))
            ])
    ])
  ]

  product_fits :
      (m : ℕ)
      → m ≢ 0
      → m + 32 ≤ 2 ^ 64
      → 2 ^ m ≤ magnitude (x *ℤ y)
      → is_too_wide (magnitude_multiply p.limbs q.limbs) m ≡ true
  product_fits m ne bits big =
      elim (Bool-cases (is_too_wide (magnitude_multiply p.limbs q.limbs) m)) [
        | inl e ↦ e
        | inr e ↦
            let xs = magnitude_multiply p.limbs q.limbs in
            let h = magnitude_multiply-IsLimbs p.limbs q.limbs in
            let n = magnitude_multiply-IsNormal p.limbs q.limbs in
            absurd (
              ground (
                arith,
                product-magnitude,
                (IsWidth-iff (top_width xs) m (value xs) (top_width-IsWidth xs h n)).0,
                not_too_wide xs m ne bits e,
              ))
      ]

  not_zero_product :
      (m : ℕ)
      → 2 ^ m ≤ magnitude (x *ℤ y)
      → (p.entry.limb_count == 0 || q.entry.limb_count == 0) ≡ false
  not_zero_product m big = elim (Bool-cases (p.entry.limb_count == 0 || q.entry.limb_count == 0)) [
    | inl e ↦
        let none_at_all : magnitude (x *ℤ y) ≡ 0 =
          ap magnitude (sym (zero_product e)) ∙ magnitude-signed false 0 in
        absurd (omega (arith, two_pow-pos m))
    | inr e ↦ e
  ]

  multiply_known_wide :
      (m : ℕ)
      → m + 32 ≤ 2 ^ 64
      → 2 ^ m ≤ magnitude (x *ℤ y)
      → multiply_known t (some p.entry) (some q.entry) m ≡ (t, invalid_id)
  unfolding multiply_known multiply_limbs
  multiply_known_wide m bits big =
      let nz = not_zero_product m big in
      rw (nz, p.pointer (ground arith), q.pointer (ground arith)) (ground (arith, product_fits m))

-- In a canonical table, integer_multiply_bounded of two ids that stand for integers keeps the
-- table canonical and its ids, and gives the id of the product, or the invalid id for one of the
-- reasons of IsRefused.
pub integer_multiply_bounded-Yields :
    (t : IntegerTable) (a b : ℕ) (x y : ℤ) (maximum_bits : ℕ)
    → IsTable t
    → Denotes t a x
    → Denotes t b y
    → Yields t (IsRefused t x y maximum_bits) (x *ℤ y) (integer_multiply_bounded t a b maximum_bits)
unfolding integer_multiply_bounded
integer_multiply_bounded-Yields t a b x y m v d e =
    let p = operand t a x v d in
    let q = operand t b y v e in rw (p.found, q.found) (multiply_known-Yields t a b x y v p q m)

-- In a canonical table, a product of two known integers that needs more than maximum_bits bits is
-- refused and leaves the table as it is; maximum_bits + 32 is at most 2 ^ 64.
pub integer_multiply_bounded_wide :
    (t : IntegerTable) (a b : ℕ) (x y : ℤ) (maximum_bits : ℕ)
    → IsTable t
    → Denotes t a x
    → Denotes t b y
    → maximum_bits + 32 ≤ 2 ^ 64
    → 2 ^ maximum_bits ≤ magnitude (x *ℤ y)
    → integer_multiply_bounded t a b maximum_bits ≡ (t, invalid_id)
unfolding integer_multiply_bounded
integer_multiply_bounded_wide t a b x y m v d e bits big =
    let p = operand t a x v d in
    let q = operand t b y v e in
    rw (p.found, q.found) (multiply_known_wide t a b x y v p q m bits big)
