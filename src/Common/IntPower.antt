-- ===== src/Common/IntPower.antt =====
-- Powers of signed integers, as repeated squaring takes them.
use native.Mathlib.Nat.{mul-le-mul_left, mul-le-mul_right}
use Prim.Native.Nat.{ℕ, zero, suc, ◌+◌, ◌*◌, ◌%◌, ◌^◌, ◌≤◌}
use mathlib.Core.Path.{◌≡◌, refl, sym, ap, ap₂, ◌∙◌}
use mathlib.Core.Logic.{◌⊎◌, inl, inr}
use mathlib.Core.Bool.{Bool, true, false, not}
use native.Mathlib.Omega.{arith}
use pigen.Common.Tests.{same}
use pigen.Common.Powers.{two_pow-suc}
use pigen.Common.Int.{ℤ, pos, negsuc, signed, magnitude, ◌*ℤ◌, ◌^ℤ◌, signed-mul, magnitude-mul}

-- Every integer has a sign and a magnitude.
signed_form : (a : ℤ) → (s : Bool) × (m : ℕ) × (signed s m ≡ a)
signed_form (pos n) = (false, n, refl)
signed_form (negsuc n) = (true, suc n, ground arith)

mul_signed_comm : (r s : Bool) (m n : ℕ) → signed r m *ℤ signed s n ≡ signed s n *ℤ signed r m
mul_signed_comm r s m n =
    signed-mul r s m n ∙ ap₂ signed (sign r s) (omega arith) ∙ sym (signed-mul s r n m)
  where
    sign : (p q : Bool) → not (same p q) ≡ not (same q p)
    sign p q = ground arith

*ℤ_comm : (a b : ℤ) → a *ℤ b ≡ b *ℤ a
*ℤ_comm a b =
    let f = signed_form a in
    let g = signed_form b in
    sym (ap₂ ◌*ℤ◌ f.2 g.2) ∙ mul_signed_comm f.0 g.0 f.1 g.1 ∙ ap₂ ◌*ℤ◌ g.2 f.2

mul_signed_assoc :
    (r s t : Bool) (l m n : ℕ)
    → signed r l *ℤ signed s m *ℤ signed t n ≡ signed r l *ℤ (signed s m *ℤ signed t n)
mul_signed_assoc r s t l m n =
    ap (λ (z : ℤ). z *ℤ signed t n) (signed-mul r s l m)
    ∙ signed-mul (not (same r s)) t (l * m) n
    ∙ ap₂ signed (sign r s t) (omega arith)
    ∙ sym (signed-mul r (not (same s t)) l (m * n))
    ∙ ap (λ (z : ℤ). signed r l *ℤ z) (sym (signed-mul s t m n))
  where
    sign : (p q u : Bool) → not (same (not (same p q)) u) ≡ not (same p (not (same q u)))
    sign p q u = ground arith

*ℤ_assoc : (a b c : ℤ) → a *ℤ b *ℤ c ≡ a *ℤ (b *ℤ c)
*ℤ_assoc a b c =
    let f = signed_form a in
    let g = signed_form b in
    let h = signed_form c in
    sym (ap₂ ◌*ℤ◌ (ap₂ ◌*ℤ◌ f.2 g.2) h.2)
    ∙ mul_signed_assoc f.0 g.0 h.0 f.1 g.1 h.1
    ∙ ap₂ ◌*ℤ◌ f.2 (ap₂ ◌*ℤ◌ g.2 h.2)

power-square : (b : ℤ) (q : ℕ) → (b *ℤ b) ^ℤ q ≡ b ^ℤ (q + q)
unfolding ◌^ℤ◌
power-square b zero = let e : zero ≡ zero + zero = omega arith in ap (λ (n : ℕ). b ^ℤ n) e
power-square b (suc q) =
    ap (λ (z : ℤ). z *ℤ (b *ℤ b)) (power-square b q)
    ∙ sym (*ℤ_assoc (b ^ℤ (q + q)) b b)
    ∙ let e : suc (suc (q + q)) ≡ suc q + suc q = omega arith in ap (λ (n : ℕ). b ^ℤ n) e

-- What a round of squaring leaves as it is.
pub power_even : (a b : ℤ) (q : ℕ) → a *ℤ (b *ℤ b) ^ℤ q ≡ a *ℤ b ^ℤ (q + q)
power_even a b q = ap (λ (z : ℤ). a *ℤ z) (power-square b q)

pub power_odd : (a b : ℤ) (q : ℕ) → a *ℤ b *ℤ (b *ℤ b) ^ℤ q ≡ a *ℤ b ^ℤ suc (q + q)
unfolding ◌^ℤ◌
power_odd a b q =
    ap (λ (z : ℤ). a *ℤ b *ℤ z) (power-square b q)
    ∙ *ℤ_assoc a b (b ^ℤ (q + q))
    ∙ ap (λ (z : ℤ). a *ℤ z) (*ℤ_comm b (b ^ℤ (q + q)))

pub one_mul : (a : ℤ) → pos 1 *ℤ a ≡ a
one_mul a =
    let f = signed_form a in
    sym (ap (λ (z : ℤ). pos 1 *ℤ z) f.2)
    ∙ signed-mul false f.0 1 f.1
    ∙ ap₂ signed (sign f.0) (omega arith)
    ∙ f.2
  where
    sign : (p : Bool) → not (same false p) ≡ p
    sign p = ground arith

pos_product : (m n : ℕ) → 1 ≤ m → 1 ≤ n → 1 ≤ m * n
pos_product m n k l = omega (arith, mul-le-mul_left m l)

power-pos : (b : ℤ) (n : ℕ) → 1 ≤ magnitude b → 1 ≤ magnitude (b ^ℤ n)
unfolding ◌^ℤ◌
power-pos b zero l = unfold magnitude in omega arith
power-pos b (suc n) l =
    let h = pos_product (magnitude (b ^ℤ n)) (magnitude b) (power-pos b n l) l in
    omega (arith, h, magnitude-mul (b ^ℤ n) b)

-- A factor of a product that is not zero is no larger.
magnitude-mul_le : (a b : ℤ) → 1 ≤ magnitude b → magnitude a ≤ magnitude (a *ℤ b)
magnitude-mul_le a b l = omega (arith, magnitude-mul a b, mul-le-mul_left (magnitude a) l)

-- The products of a round are no larger than what the round leaves as it is.
pub round_product-le :
    (a b : ℤ) (q : ℕ) → 1 ≤ magnitude b → magnitude (a *ℤ b) ≤ magnitude (a *ℤ b ^ℤ suc (q + q))
round_product-le a b q l =
    let s =
      power-pos (b *ℤ b) q
        (omega (arith, magnitude-mul b b, pos_product (magnitude b) (magnitude b) l l)) in
    let h = magnitude-mul_le (a *ℤ b) ((b *ℤ b) ^ℤ q) s in
    omega (arith, h, ap magnitude (power_odd a b q))

pub square-le :
    (a b : ℤ) (q : ℕ)
    → 1 ≤ magnitude a
    → 1 ≤ magnitude b
    → magnitude (b *ℤ b) ≤ magnitude (a *ℤ (b *ℤ b) ^ℤ suc q)
unfolding ◌^ℤ◌
square-le a b q k l =
    let s =
      power-pos (b *ℤ b) q
        (omega (arith, magnitude-mul b b, pos_product (magnitude b) (magnitude b) l l)) in
    let c = pos_product (magnitude a) (magnitude ((b *ℤ b) ^ℤ q)) k s in
    omega (
      arith,
      ap magnitude (*ℤ_assoc a ((b *ℤ b) ^ℤ q) (b *ℤ b)),
      magnitude-mul (a *ℤ (b *ℤ b) ^ℤ q) (b *ℤ b),
      magnitude-mul a ((b *ℤ b) ^ℤ q),
      mul-le-mul_right (magnitude (b *ℤ b)) c,
      ap (λ (n : ℕ). n * magnitude (b *ℤ b)) (magnitude-mul a ((b *ℤ b) ^ℤ q)),
    )

pub magnitude-mul_pos : (a b : ℤ) → 1 ≤ magnitude a → 1 ≤ magnitude b → 1 ≤ magnitude (a *ℤ b)
magnitude-mul_pos a b k l =
    omega (arith, magnitude-mul a b, pos_product (magnitude a) (magnitude b) k l)

pub mul_one : (a : ℤ) → a *ℤ pos 1 ≡ a
mul_one a = *ℤ_comm a (pos 1) ∙ one_mul a

pub one_power : (n : ℕ) → pos 1 ^ℤ n ≡ pos 1
unfolding ◌^ℤ◌
one_power zero = refl
one_power (suc n) = ap (λ (z : ℤ). z *ℤ pos 1) (one_power n) ∙ mul_one (pos 1)

pub zero_power : (n : ℕ) → 1 ≤ n → pos 0 ^ℤ n ≡ pos 0
unfolding ◌^ℤ◌
zero_power zero l = absurd (omega arith)
zero_power (suc n) l =
    let f = signed_form (pos 0 ^ℤ n) in
    sym (ap (λ (z : ℤ). z *ℤ pos 0) f.2)
    ∙ signed-mul f.0 false f.1 0
    ∙ zero_form (not (same f.0 false)) (f.1 * 0) (omega arith)
  where
    zero_form : (s : Bool) (m : ℕ) → m ≡ 0 → signed s m ≡ pos 0
    zero_form s m e = ground arith

-- The powers of -1.
pub minus_power :
    (n : ℕ) → ((n % 2 ≡ 1) × (negsuc 0 ^ℤ n ≡ negsuc 0)) ⊎ ((n % 2 ≡ 0) × (negsuc 0 ^ℤ n ≡ pos 1))
unfolding ◌^ℤ◌ ◌*ℤ◌
minus_power zero = inr (omega arith, refl)
minus_power (suc n) = elim (minus_power n) [
  | inl h ↦ inr (omega (arith, h.0), ap (λ (z : ℤ). z *ℤ negsuc 0) h.1 ∙ refl)
  | inr h ↦ inl (omega (arith, h.0), ap (λ (z : ℤ). z *ℤ negsuc 0) h.1 ∙ refl)
]

pub two_power-le : (a : ℤ) (n : ℕ) → 2 ≤ magnitude a → 2 ^ n ≤ magnitude (a ^ℤ n)
unfolding ◌^ℤ◌
two_power-le a zero l = unfold magnitude in omega arith
two_power-le a (suc n) l = omega (
  arith,
  two_pow-suc n,
  magnitude-mul (a ^ℤ n) a,
  mul-le-mul_left (magnitude (a ^ℤ n)) l,
  two_power-le a n l,
)
