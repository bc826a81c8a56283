-- ===== src/Magnitude/Order.antt =====
-- src/integer.c: `magnitude_compare` orders normalized magnitudes as numbers.
use pigen.Common.{
  ℕ, zero, suc, ◌+◌, ◌*◌, ◌≤◌, ◌<◌, ◌≡◌, refl, List, [], ◌∷◌, arith, length, get_or, ◌==◌, ==_iff,
  compare, Bool-cases, inl, inr, take, take-length, ap₂, ◌∙◌,
}
use native.Mathlib.Nat.{mul-le-mul_left}
use pigen.Magnitude.{compare_from, magnitude_compare}
use pigen.Magnitude.Value.{
  value, IsLimbs, IsNormal, radix, radix-pos, value-lt-radix, radix-le-value,
}

pub value-take :
    (xs : List ℕ) (n : ℕ) → value (take (suc n) xs) ≡ value (take n xs) + radix n * get_or xs n 0
value-take [] zero = refl
value-take [] (suc n) = omega arith
value-take (x ∷ xs) zero = omega arith
value-take (x ∷ xs) (suc n) = omega (arith, value-take xs n)

pub value-take-lt : (xs : List ℕ) (n : ℕ) → IsLimbs xs → value (take n xs) < radix n
value-take-lt xs zero h = omega arith
value-take-lt [] (suc n) h = omega (arith, radix-pos n)
value-take-lt (x ∷ xs) (suc n) h = omega (arith, value-take-lt xs n h.1)

-- A higher limb outweighs all those below it.
higher_limb : (a b r x y : ℕ) → a < r → x < y → a + r * x < b + r * y
higher_limb a b r x y h k = omega (arith, mul-le-mul_left {m = x + 1} {n = y} r (omega arith))

compare_from-compare :
    (left right : List ℕ) (n : ℕ)
    → IsLimbs left
    → IsLimbs right
    → compare_from left right n ≡ compare (value (take n left)) (value (take n right))
unfolding compare_from
compare_from-compare left right zero h k = refl
compare_from-compare left right (suc n) h k =
    rw (value-take left n, value-take right n)
      (ground (
        arith,
        compare_from-compare left right n h k,
        value-take-lt left n h,
        value-take-lt right n k,
        higher_limb (value (take n left)) (value (take n right)) (radix n) (get_or left n 0)
            (get_or right n 0),
        higher_limb (value (take n right)) (value (take n left)) (radix n) (get_or right n 0)
            (get_or left n 0),
      ))

radix_mono : (m n : ℕ) → m ≤ n → radix m ≤ radix n
radix_mono zero n h = omega (arith, radix-pos n)
radix_mono (suc m) zero h = absurd (omega arith)
radix_mono (suc m) (suc n) h = omega (arith, radix_mono m n (omega arith))

-- Of two normalized magnitudes the longer is the larger number.
value-lt-longer :
    (xs ys : List ℕ) → IsLimbs xs → IsNormal ys → length xs < length ys → value xs < value ys
value-lt-longer xs [] h n lt = absurd (omega arith)
value-lt-longer xs (y ∷ ys) h n lt = omega (
  arith,
  value-lt-radix xs h,
  radix_mono (length xs) (length ys) (omega arith),
  radix-le-value y ys n,
)

pub magnitude_compare-compare :
    (left right : List ℕ)
    → IsLimbs left
    → IsLimbs right
    → IsNormal left
    → IsNormal right
    → magnitude_compare left right ≡ compare (value left) (value right)
unfolding magnitude_compare
magnitude_compare-compare left right h k m n = elim (Bool-cases (length left == length right)) [
  | inl e ↦ rw e (same_length ((==_iff (length left) (length right)).0 e))
  | inr e ↦ rw e (ground (arith, value-lt-longer left right h n, value-lt-longer right left k m))
]
  where
    same_length :
        length left ≡ length right
        → compare_from left right (length left) ≡ compare (value left) (value right)
    same_length e =
        compare_from-compare left right (length left) h k
        ∙ ap₂ (λ (a b : List ℕ). compare (value a) (value b)) (take-length left)
            (rw e (take-length right))
