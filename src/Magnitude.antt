-- ===== src/Magnitude.antt =====
-- src/integer.c, the static routines on magnitudes: arrays of 32-bit limbs, the least significant
-- first. A loop over an array is a recursion on the list; each `uint64_t` sum and product wraps
-- (`u64`), each cast to `uint32_t` cuts (`u32`), and `carry = x >> LIMB_BITS` is `/ 2 ^ 32`.
pub mod Value
pub mod Small
pub mod Sum
pub mod Difference
pub mod Product
pub mod Order
pub mod Width
pub mod Shift
pub mod PowerOfTwo
use pigen.Common.{
  ℕ, zero, suc, ◌+◌, ◌-◌, ◌*◌, ◌/◌, ◌%◌, ◌^◌, max, Ordering, Bool, true, false, ◌||◌, not, List, [],
  ◌∷◌, ◌++◌, ltb, leb, ◌==◌, if◌then◌else◌, u32, u64, size_max, length, get_or, take, replicate,
}

abbrev pub limb_bits : ℕ
limb_bits = 32

-- `while (count && !limbs[count - 1]) count--`.
unfoldable pub normalized_count : List ℕ → ℕ → ℕ
normalized_count limbs zero = 0
normalized_count limbs (suc count) =
    if get_or limbs count 0 == 0 then normalized_count limbs count else suc count

abbrev pub normalized : List ℕ → List ℕ
normalized limbs = take (normalized_count limbs (length limbs)) limbs

-- A carry that is left after the last limb becomes a limb.
pub push_carry : ℕ → List ℕ
push_carry carry = if carry == 0 then [] else u32 carry ∷ []

multiply_small_loop : List ℕ → ℕ → ℕ → List ℕ
multiply_small_loop [] multiplier carry = push_carry carry
multiply_small_loop (limb ∷ limbs) multiplier carry =
    let product = u64 (u64 (limb * multiplier) + carry) in
    u32 product ∷ multiply_small_loop limbs multiplier (product / 2 ^ 32)

unfoldable pub magnitude_multiply_small : List ℕ → ℕ → List ℕ
unfolding multiply_small_loop push_carry
magnitude_multiply_small limbs multiplier = multiply_small_loop limbs multiplier 0

-- The loop stops at the first limb that takes the carry in; the limbs behind it stay.
add_small_loop : List ℕ → ℕ → List ℕ
add_small_loop [] carry = push_carry carry
add_small_loop (limb ∷ limbs) carry =
    let sum = u64 (limb + carry) in
    let rest = add_small_loop limbs (sum / 2 ^ 32) in
    if carry == 0 then limb ∷ limbs else u32 sum ∷ rest

unfoldable pub magnitude_add_small : List ℕ → ℕ → List ℕ
unfolding add_small_loop push_carry
magnitude_add_small limbs addend = add_small_loop limbs addend

-- -1, 0 and 1 are `lt`, `eq` and `gt`.
compare_from : List ℕ → List ℕ → ℕ → Ordering
compare_from left right zero = Ordering.eq
compare_from left right (suc n) =
    if get_or left n 0 == get_or right n 0
    then compare_from left right n
    else if ltb (get_or left n 0) (get_or right n 0)
    then Ordering.lt
    else Ordering.gt

unfoldable pub magnitude_compare : List ℕ → List ℕ → Ordering
unfolding compare_from
magnitude_compare left right =
    if length left == length right
    then compare_from left right (length left)
    else if ltb (length left) (length right)
    then Ordering.lt
    else Ordering.gt

-- A limb past the end of the shorter operand is not added.
add_loop : List ℕ → List ℕ → ℕ → List ℕ
add_loop [] [] carry = push_carry carry
add_loop [] (y ∷ right) carry =
    let sum = u64 (carry + y) in u32 sum ∷ add_loop [] right (sum / 2 ^ 32)
add_loop (x ∷ left) [] carry =
    let sum = u64 (carry + x) in u32 sum ∷ add_loop left [] (sum / 2 ^ 32)
add_loop (x ∷ left) (y ∷ right) carry =
    let sum = u64 (u64 (carry + x) + y) in u32 sum ∷ add_loop left right (sum / 2 ^ 32)

unfoldable pub magnitude_add : List ℕ → List ℕ → List ℕ
unfolding add_loop push_carry
magnitude_add left right = add_loop left right 0

subtract_loop : List ℕ → List ℕ → ℕ → List ℕ
subtract_loop [] smaller borrow = []
subtract_loop (x ∷ larger) [] borrow =
    u32 (u64 (x + 2 ^ 64 - borrow)) ∷ subtract_loop larger [] (if ltb x borrow then 1 else 0)
subtract_loop (x ∷ larger) (y ∷ smaller) borrow =
    let subtrahend = u64 (y + borrow) in
    u32 (u64 (x + 2 ^ 64 - subtrahend))
    ∷ subtract_loop larger smaller (if ltb x subtrahend then 1 else 0)

unfoldable pub magnitude_subtract : List ℕ → List ℕ → List ℕ
unfolding subtract_loop normalized_count
magnitude_subtract larger smaller = normalized (subtract_loop larger smaller 0)

-- The inner loop of the product, for the limb `x` of the left operand at index `i`, on the part
-- `result[i ...]` of the array. The last carry is stored, not added, into `result[i + right_count]`.
multiply_row : ℕ → List ℕ → List ℕ → ℕ → List ℕ
multiply_row x right [] carry = []
multiply_row x [] (r ∷ result) carry = u32 carry ∷ result
multiply_row x (y ∷ right) (r ∷ result) carry =
    let product = u64 (u64 (u64 (x * y) + r) + carry) in
    u32 product ∷ multiply_row x right result (product / 2 ^ 32)

-- The outer loop. After round `i` the limb `result[i]` is final.
next_row : List ℕ → (List ℕ → List ℕ) → List ℕ
next_row [] rows = []
next_row (limb ∷ result) rows = limb ∷ rows result

multiply_loop : List ℕ → List ℕ → List ℕ → List ℕ
multiply_loop [] right result = result
multiply_loop (x ∷ left) right result =
    next_row (multiply_row x right result 0) (multiply_loop left right)

-- The caller has checked that the count of limbs does not overflow; for a count of 0 no array is
-- made.
unfoldable pub magnitude_multiply : List ℕ → List ℕ → List ℕ
unfolding multiply_loop multiply_row next_row normalized_count
magnitude_multiply left right =
    if length left == 0 || length right == 0
    then []
    else normalized (multiply_loop left right (replicate (length left + length right) 0))

-- `__builtin_clz` of a `uint32_t` that is not 0: the zeros above the highest one, among the lowest
-- `n` bits.
leading_zeros : ℕ → ℕ → ℕ
leading_zeros zero x = 0
leading_zeros (suc n) x = let rest = suc (leading_zeros n x) in if leb (2 ^ n) x then 0 else rest

unfoldable pub clz : ℕ → ℕ
unfolding leading_zeros
clz x = leading_zeros 32 x

unfoldable pub magnitude_width : List ℕ → ℕ → ℕ
unfolding clz
magnitude_width limbs zero = 0
magnitude_width limbs (suc count) =
    if ltb ((size_max - limb_bits) / limb_bits) count
    then size_max
    else count * limb_bits + (limb_bits - clz (get_or limbs count 0))
