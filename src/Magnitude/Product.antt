-- ===== src/Magnitude/Product.antt =====
-- src/integer.c: `magnitude_multiply`, the schoolbook product, multiplies the numbers.
use native.Mathlib.Nat.{mul-le-mul_left, mul-le-mul_right}
use pigen.Common.{
  ℕ, zero, suc, ◌+◌, ◌-◌, ◌*◌, ◌/◌, ◌^◌, ◌≤◌, ◌<◌, ◌≡◌, refl, List, [], ◌∷◌, arith, length, u32,
  u64, get_or, ◌==◌, ◌||◌, replicate, length-replicate, Bool-cases, inl, inr, ◌⊎◌, true,
}
use pigen.Magnitude.{multiply_row, next_row, multiply_loop, magnitude_multiply, normalized}
use pigen.Magnitude.Value.{
  value, IsLimbs, IsNormal, radix, radix-pos, value-lt-radix, value-normalized, normalized-IsNormal,
  normalized-IsLimbs, value-replicate_zero, no_limbs-value,
}
use pigen.Magnitude.Small.{limb_product-le}

product_round :
    (x y r c : ℕ)
    → x < 2 ^ 32
    → y < 2 ^ 32
    → r < 2 ^ 32
    → c < 2 ^ 32
    → let p = u64 (u64 (u64 (x * y) + r) + c) in
      (u32 p + 2 ^ 32 * (p / 2 ^ 32) ≡ x * y + r + c) × (p / 2 ^ 32 < 2 ^ 32)
product_round x y r c hx hy hr hc = omega (arith, limb_product-le x y hx hy)

-- A row adds `x * right`; the limb that takes the last carry is lost.
multiply_row-value :
    (x : ℕ) (right result : List ℕ) (c : ℕ)
    → x < 2 ^ 32
    → IsLimbs right
    → IsLimbs result
    → c < 2 ^ 32
    → length right < length result
    → value (multiply_row x right result c) + radix (length right) * get_or result (length right) 0
      ≡ value result + x * value right + c
unfolding multiply_row
multiply_row-value x right [] c hx h k hc lt = absurd (omega arith)
multiply_row-value x [] (r ∷ result) c hx h k hc lt = omega arith
multiply_row-value x (y ∷ right) (r ∷ result) c hx h k hc lt =
    let p = product_round x y r c hx h.0 k.0 hc in
    omega (
      arith,
      p,
      multiply_row-value x right result (u64 (u64 (u64 (x * y) + r) + c) / 2 ^ 32) hx h.1 k.1 p.1
          (omega arith),
    )

multiply_row-IsLimbs :
    (x : ℕ) (right result : List ℕ) (c : ℕ)
    → IsLimbs result
    → IsLimbs (multiply_row x right result c)
unfolding multiply_row
multiply_row-IsLimbs x right [] c h = tt
multiply_row-IsLimbs x [] (r ∷ result) c h = (omega arith, h.1)
multiply_row-IsLimbs x (y ∷ right) (r ∷ result) c h = (
  omega arith,
  multiply_row-IsLimbs x right result (u64 (u64 (u64 (x * y) + r) + c) / 2 ^ 32) h.1,
)

length-multiply_row :
    (x : ℕ) (right result : List ℕ) (c : ℕ) → length (multiply_row x right result c) ≡ length result
unfolding multiply_row
length-multiply_row x right [] c = refl
length-multiply_row x [] (r ∷ result) c = refl
length-multiply_row x (y ∷ right) (r ∷ result) c =
    omega (arith, length-multiply_row x right result (u64 (u64 (u64 (x * y) + r) + c) / 2 ^ 32))

limb_counts : (xs : List ℕ) (n : ℕ) → radix n * get_or xs n 0 ≤ value xs
limb_counts [] n = omega arith
limb_counts (x ∷ xs) zero = omega arith
limb_counts (x ∷ xs) (suc n) = omega (arith, limb_counts xs n)

-- What lies above the limbs that the rows before have filled is still 0.
unused_limb : (xs : List ℕ) (n : ℕ) → value xs < radix n → radix n * get_or xs n 0 ≡ 0
unused_limb xs n h = below (radix n) (get_or xs n 0) (value xs) (limb_counts xs n) h
  where
    below : (r g v : ℕ) → r * g ≤ v → v < r → r * g ≡ 0
    below r zero v le lt = omega arith
    below r (suc g) v le lt = absurd (omega arith)

row_bound : (x v b : ℕ) → x < 2 ^ 32 → v < b → x * v + b ≤ 2 ^ 32 * b
row_bound x v b h k = omega (
  arith,
  mul-le-mul_left {m = v + 1} {n = b} x (omega arith),
  mul-le-mul_right {m = x + 1} {n = 2 ^ 32} b (omega arith),
  mul-le-mul_right {m = x} {n = 2 ^ 32 - 1} b (omega arith),
)

-- The limb of a finished row stays, and the rows that follow work above it.
next_row-value :
    (x : ℕ) (new left right : List ℕ) (before : ℕ)
    → x < 2 ^ 32
    → value new ≡ before + x * value right
    → value right < radix (length right)
    → before < radix (length right)
    → IsLimbs new
    → length new ≡ suc (length left) + length right
    → ((rest : List ℕ)
        → IsLimbs rest
        → length rest ≡ length left + length right
        → value rest < radix (length right)
        → value (multiply_loop left right rest) ≡ value rest + value left * value right)
    → value (next_row new (multiply_loop left right)) ≡ before + value (x ∷ left) * value right
unfolding next_row
next_row-value x [] left right before hx e vr vb m el rows = absurd (omega arith)
next_row-value x (limb ∷ rest) left right before hx e vr vb m el rows =
    let below : value rest < radix (length right) =
      omega (arith, row_bound x (value right) (radix (length right)) hx vr) in
    omega (arith, rows rest m.1 (omega arith) below)

multiply_loop-value :
    (left right result : List ℕ)
    → IsLimbs left
    → IsLimbs right
    → IsLimbs result
    → length result ≡ length left + length right
    → value result < radix (length right)
    → value (multiply_loop left right result) ≡ value result + value left * value right
unfolding multiply_loop
multiply_loop-value [] right result h k l e lt = omega arith
multiply_loop-value (x ∷ left) right result h k l e lt =
    next_row-value x (multiply_row x right result 0) left right (value result) h.0 row
      (value-lt-radix right k) lt (multiply_row-IsLimbs x right result 0 l)
      (omega (arith, length-multiply_row x right result 0))
      (λ rest m el below. multiply_loop-value left right rest h.1 k m el below)
  where
    row : value (multiply_row x right result 0) ≡ value result + x * value right
    row = omega (
      arith,
      unused_limb result (length right) lt,
      multiply_row-value x right result 0 h.0 k l (omega arith) (omega arith),
    )

replicate_zero-IsLimbs : (n : ℕ) → IsLimbs (replicate n 0)
replicate_zero-IsLimbs zero = tt
replicate_zero-IsLimbs (suc n) = (omega arith, replicate_zero-IsLimbs n)

pub value-magnitude_multiply :
    (left right : List ℕ)
    → IsLimbs left
    → IsLimbs right
    → value (magnitude_multiply left right) ≡ value left * value right
unfolding magnitude_multiply
value-magnitude_multiply left right h k =
    elim (Bool-cases (length left == 0 || length right == 0)) [
      | inl e ↦ rw e (none_left ((∨_cases e)))
      | inr e ↦ rw e product
    ]
  where
    ∨_cases :
        (length left == 0 || length right == 0) ≡ true → (length left ≡ 0) ⊎ (length right ≡ 0)
    ∨_cases e = ground arith

    none_left : (length left ≡ 0) ⊎ (length right ≡ 0) → 0 ≡ value left * value right
    none_left (inl e) = rw (no_limbs-value left e) (omega arith)
    none_left (inr e) = rw (no_limbs-value right e) (omega arith)

    n : ℕ
    n = length left + length right

    product :
        value (normalized (multiply_loop left right (replicate n 0))) ≡ value left * value right
    product = omega (
      arith,
      value-normalized (multiply_loop left right (replicate n 0)),
      value-replicate_zero n,
      multiply_loop-value left right (replicate n 0) h k (replicate_zero-IsLimbs n)
          (length-replicate n 0) (rw (value-replicate_zero n) (radix-pos (length right))),
    )

next_row-IsLimbs :
    (new left right : List ℕ)
    → IsLimbs new
    → ((rest : List ℕ) → IsLimbs rest → IsLimbs (multiply_loop left right rest))
    → IsLimbs (next_row new (multiply_loop left right))
unfolding next_row
next_row-IsLimbs [] left right m rows = tt
next_row-IsLimbs (limb ∷ rest) left right m rows = (m.0, rows rest m.1)

multiply_loop-IsLimbs :
    (left right result : List ℕ) → IsLimbs result → IsLimbs (multiply_loop left right result)
unfolding multiply_loop
multiply_loop-IsLimbs [] right result m = m
multiply_loop-IsLimbs (x ∷ left) right result m =
    next_row-IsLimbs (multiply_row x right result 0) left right
      (multiply_row-IsLimbs x right result 0 m) (λ rest h. multiply_loop-IsLimbs left right rest h)

pub magnitude_multiply-IsLimbs : (left right : List ℕ) → IsLimbs (magnitude_multiply left right)
unfolding magnitude_multiply
magnitude_multiply-IsLimbs left right = elim (Bool-cases (length left == 0 || length right == 0)) [
  | inl e ↦ rw e tt
  | inr e ↦ rw e (
      normalized-IsLimbs (multiply_loop left right zeros) (
        multiply_loop-IsLimbs left right zeros
          (replicate_zero-IsLimbs (length left + length right))))
]
  where
    zeros : List ℕ
    zeros = replicate (length left + length right) 0

pub magnitude_multiply-IsNormal : (left right : List ℕ) → IsNormal (magnitude_multiply left right)
unfolding magnitude_multiply
magnitude_multiply-IsNormal left right = elim (Bool-cases (length left == 0 || length right == 0)) [
  | inl e ↦ rw e tt
  | inr e ↦
      rw e
        (normalized-IsNormal (multiply_loop left right (replicate (length left + length right) 0)))
]
