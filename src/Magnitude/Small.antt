-- ===== src/Magnitude/Small.antt =====
-- src/integer.c: `magnitude_multiply_small` and `magnitude_add_small` on the number of the limbs.
use pigen.Common.{
  ℕ, ◌+◌, ◌-◌, ◌*◌, ◌/◌, ◌^◌, ◌≤◌, ◌<◌, ◌≡◌, List, [], ◌∷◌, arith, ◌==◌, Bool-cases, inl, inr, u32,
  u64, length,
}
use pigen.Magnitude.{
  push_carry, multiply_small_loop, magnitude_multiply_small, add_small_loop, magnitude_add_small,
}
use pigen.Magnitude.Value.{value, IsLimbs}
use native.Mathlib.Nat.{mul-le-mul}

-- A product of two limbs with two carries fits 64 bits.
pub limb_product-le : (x y : ℕ) → x < 2 ^ 32 → y < 2 ^ 32 → x * y ≤ (2 ^ 32 - 1) * (2 ^ 32 - 1)
limb_product-le x y h k = mul-le-mul {n₂ = 2 ^ 32 - 1} {m₂ = 2 ^ 32 - 1} (omega arith) (omega arith)

pub value-push_carry : (c : ℕ) → c < 2 ^ 32 → value (push_carry c) ≡ c
unfolding push_carry
value-push_carry c h = ground arith

pub push_carry-IsLimbs : (c : ℕ) → IsLimbs (push_carry c)
unfolding push_carry
push_carry-IsLimbs c = elim (Bool-cases (c == 0)) [ inl e ↦ rw e tt | inr e ↦ rw e (omega arith) ]

pub push_carry-short : (c : ℕ) → length (push_carry c) ≤ 1
unfolding push_carry
push_carry-short c = ground arith

-- One round: the product splits into the limb that is stored and the carry, and nothing is lost.
multiply_round :
    (x m c : ℕ)
    → x < 2 ^ 32
    → m < 2 ^ 32
    → c < 2 ^ 32
    → (u32 (u64 (u64 (x * m) + c)) + 2 ^ 32 * (u64 (u64 (x * m) + c) / 2 ^ 32) ≡ x * m + c)
      × (u64 (u64 (x * m) + c) / 2 ^ 32 < 2 ^ 32)
multiply_round x m c hx hm hc = omega (arith, limb_product-le x m hx hm)

multiply_small_loop-value :
    (limbs : List ℕ) (m c : ℕ)
    → IsLimbs limbs
    → m < 2 ^ 32
    → c < 2 ^ 32
    → value (multiply_small_loop limbs m c) ≡ value limbs * m + c
unfolding multiply_small_loop
multiply_small_loop-value [] m c h hm hc = omega (arith, value-push_carry c hc)
multiply_small_loop-value (x ∷ xs) m c h hm hc =
    let r = multiply_round x m c h.0 hm hc in
    omega (arith, r, multiply_small_loop-value xs m (u64 (u64 (x * m) + c) / 2 ^ 32) h.1 hm r.1)

multiply_small_loop-IsLimbs : (limbs : List ℕ) (m c : ℕ) → IsLimbs (multiply_small_loop limbs m c)
unfolding multiply_small_loop
multiply_small_loop-IsLimbs [] m c = push_carry-IsLimbs c
multiply_small_loop-IsLimbs (x ∷ xs) m c =
    (omega arith, multiply_small_loop-IsLimbs xs m (u64 (u64 (x * m) + c) / 2 ^ 32))

pub value-magnitude_multiply_small :
    (limbs : List ℕ) (m : ℕ)
    → IsLimbs limbs
    → m < 2 ^ 32
    → value (magnitude_multiply_small limbs m) ≡ value limbs * m
unfolding magnitude_multiply_small
value-magnitude_multiply_small limbs m h hm =
    omega (arith, multiply_small_loop-value limbs m 0 h hm (omega arith))

pub magnitude_multiply_small-IsLimbs :
    (limbs : List ℕ) (m : ℕ) → IsLimbs (magnitude_multiply_small limbs m)
unfolding magnitude_multiply_small
magnitude_multiply_small-IsLimbs limbs m = multiply_small_loop-IsLimbs limbs m 0

add_small_loop-value :
    (limbs : List ℕ) (c : ℕ)
    → IsLimbs limbs
    → c < 2 ^ 32
    → value (add_small_loop limbs c) ≡ value limbs + c
unfolding add_small_loop
add_small_loop-value [] c h hc = omega (arith, value-push_carry c hc)
add_small_loop-value (x ∷ xs) c h hc =
    ground (arith, add_small_loop-value xs (u64 (x + c) / 2 ^ 32) h.1 (omega arith))

add_small_loop-IsLimbs : (limbs : List ℕ) (c : ℕ) → IsLimbs limbs → IsLimbs (add_small_loop limbs c)
unfolding add_small_loop
add_small_loop-IsLimbs [] c h = push_carry-IsLimbs c
add_small_loop-IsLimbs (x ∷ xs) c h = elim (Bool-cases (c == 0)) [
  | inl e ↦ rw e h
  | inr e ↦ rw e (omega arith, add_small_loop-IsLimbs xs (u64 (x + c) / 2 ^ 32) h.1)
]

pub value-magnitude_add_small :
    (limbs : List ℕ) (addend : ℕ)
    → IsLimbs limbs
    → addend < 2 ^ 32
    → value (magnitude_add_small limbs addend) ≡ value limbs + addend
unfolding magnitude_add_small
value-magnitude_add_small limbs addend h k = add_small_loop-value limbs addend h k

pub magnitude_add_small-IsLimbs :
    (limbs : List ℕ) (addend : ℕ) → IsLimbs limbs → IsLimbs (magnitude_add_small limbs addend)
unfolding magnitude_add_small
magnitude_add_small-IsLimbs limbs addend h = add_small_loop-IsLimbs limbs addend h
