-- ===== src/Magnitude/Difference.antt =====
-- src/integer.c: `magnitude_subtract` gives the difference when the first number is the larger.
use pigen.Common.{
  ℕ, ◌+◌, ◌-◌, ◌*◌, ◌^◌, ◌≤◌, ◌<◌, ◌≡◌, List, [], ◌∷◌, arith, u32, u64, ltb, if◌then◌else◌,
}
use pigen.Magnitude.{subtract_loop, magnitude_subtract}
use pigen.Magnitude.Value.{value, IsLimbs, value-normalized, normalized-IsLimbs}

-- One round, with no overflow of the subtrahend: the limb and the borrow that it leaves.
abbrev borrow_after : ℕ → ℕ → ℕ
borrow_after x s = if ltb x s then 1 else 0

subtract_round :
    (x s : ℕ)
    → x < 2 ^ 32
    → s ≤ 2 ^ 32
    → (u32 (u64 (x + 2 ^ 64 - s)) + s ≡ x + 2 ^ 32 * borrow_after x s) × (borrow_after x s < 2)
subtract_round x s h k = ground arith

-- What is subtracted fits below what is left of the larger number.
subtract_loop-value :
    (larger smaller : List ℕ) (b : ℕ)
    → IsLimbs larger
    → IsLimbs smaller
    → b < 2
    → value smaller + b ≤ value larger
    → value (subtract_loop larger smaller b) + value smaller + b ≡ value larger
unfolding subtract_loop
subtract_loop-value [] [] b h k hb le = omega arith
subtract_loop-value [] (y ∷ ys) b h k hb le = omega arith
subtract_loop-value (x ∷ xs) [] b h k hb le =
    let r = subtract_round x b h.0 (omega arith) in
    omega (arith, r, subtract_loop-value xs [] (borrow_after x b) h.1 tt r.1 (omega (arith, r)))
subtract_loop-value (x ∷ xs) (y ∷ ys) b h k hb le =
    let e : u64 (y + b) ≡ y + b = omega arith in
    rw e (
      let r = subtract_round x (y + b) h.0 (omega arith) in
      omega (
        arith,
        r,
        subtract_loop-value xs ys (borrow_after x (y + b)) h.1 k.1 r.1 (omega (arith, r)),
      ))

subtract_loop-IsLimbs : (larger smaller : List ℕ) (b : ℕ) → IsLimbs (subtract_loop larger smaller b)
unfolding subtract_loop
subtract_loop-IsLimbs [] smaller b = tt
subtract_loop-IsLimbs (x ∷ xs) [] b = (omega arith, subtract_loop-IsLimbs xs [] (borrow_after x b))
subtract_loop-IsLimbs (x ∷ xs) (y ∷ ys) b =
    (omega arith, subtract_loop-IsLimbs xs ys (borrow_after x (u64 (y + b))))

pub value-magnitude_subtract :
    (larger smaller : List ℕ)
    → IsLimbs larger
    → IsLimbs smaller
    → value smaller ≤ value larger
    → value (magnitude_subtract larger smaller) + value smaller ≡ value larger
unfolding magnitude_subtract
value-magnitude_subtract larger smaller h k le = omega (
  arith,
  value-normalized (subtract_loop larger smaller 0),
  subtract_loop-value larger smaller 0 h k (omega arith) (omega arith),
)

pub magnitude_subtract-IsLimbs :
    (larger smaller : List ℕ) → IsLimbs (magnitude_subtract larger smaller)
unfolding magnitude_subtract
magnitude_subtract-IsLimbs larger smaller =
    normalized-IsLimbs (subtract_loop larger smaller 0) (subtract_loop-IsLimbs larger smaller 0)
