-- ===== src/Magnitude/Sum.antt =====
-- src/integer.c: `magnitude_add` adds the numbers.
use pigen.Common.{ℕ, ◌+◌, ◌/◌, ◌^◌, ◌≤◌, ◌<◌, ◌≡◌, max, List, [], ◌∷◌, arith, length, u64}
use pigen.Magnitude.{add_loop, magnitude_add}
use pigen.Magnitude.Value.{value, IsLimbs}
use pigen.Magnitude.Small.{value-push_carry, push_carry-IsLimbs, push_carry-short}

-- The carry stays 0 or 1.
add_loop-value :
    (left right : List ℕ) (c : ℕ)
    → IsLimbs left
    → IsLimbs right
    → c < 2
    → value (add_loop left right c) ≡ value left + value right + c
unfolding add_loop
add_loop-value [] [] c h k hc = omega (arith, value-push_carry c (omega arith))
add_loop-value [] (y ∷ ys) c h k hc =
    omega (arith, add_loop-value [] ys (u64 (c + y) / 2 ^ 32) tt k.1 (omega arith))
add_loop-value (x ∷ xs) [] c h k hc =
    omega (arith, add_loop-value xs [] (u64 (c + x) / 2 ^ 32) h.1 tt (omega arith))
add_loop-value (x ∷ xs) (y ∷ ys) c h k hc =
    omega (arith, add_loop-value xs ys (u64 (u64 (c + x) + y) / 2 ^ 32) h.1 k.1 (omega arith))

add_loop-IsLimbs : (left right : List ℕ) (c : ℕ) → IsLimbs (add_loop left right c)
unfolding add_loop
add_loop-IsLimbs [] [] c = push_carry-IsLimbs c
add_loop-IsLimbs [] (y ∷ ys) c = (omega arith, add_loop-IsLimbs [] ys (u64 (c + y) / 2 ^ 32))
add_loop-IsLimbs (x ∷ xs) [] c = (omega arith, add_loop-IsLimbs xs [] (u64 (c + x) / 2 ^ 32))
add_loop-IsLimbs (x ∷ xs) (y ∷ ys) c =
    (omega arith, add_loop-IsLimbs xs ys (u64 (u64 (c + x) + y) / 2 ^ 32))

-- The array of `count + 1` limbs that the code allocates holds the result.
add_loop-short :
    (left right : List ℕ) (c : ℕ)
    → length (add_loop left right c) ≤ max (length left) (length right) + 1
unfolding add_loop
add_loop-short [] [] c = omega (arith, push_carry-short c)
add_loop-short [] (y ∷ ys) c = omega (arith, add_loop-short [] ys (u64 (c + y) / 2 ^ 32))
add_loop-short (x ∷ xs) [] c = omega (arith, add_loop-short xs [] (u64 (c + x) / 2 ^ 32))
add_loop-short (x ∷ xs) (y ∷ ys) c =
    omega (arith, add_loop-short xs ys (u64 (u64 (c + x) + y) / 2 ^ 32))

pub value-magnitude_add :
    (left right : List ℕ)
    → IsLimbs left
    → IsLimbs right
    → value (magnitude_add left right) ≡ value left + value right
unfolding magnitude_add
value-magnitude_add left right h k = omega (arith, add_loop-value left right 0 h k (omega arith))

pub magnitude_add-IsLimbs : (left right : List ℕ) → IsLimbs (magnitude_add left right)
unfolding magnitude_add
magnitude_add-IsLimbs left right = add_loop-IsLimbs left right 0

magnitude_add-short :
    (left right : List ℕ) → length (magnitude_add left right) ≤ max (length left) (length right) + 1
unfolding magnitude_add
magnitude_add-short left right = add_loop-short left right 0
