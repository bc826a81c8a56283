-- ===== src/Integer/Arith.antt =====
-- src/integer.c: the arithmetic on ids. `maximum_bits` bounds the products.
pub mod Operand
pub mod Order
pub mod Sum
pub mod Product
pub mod Shift
pub mod Power
pub mod Width
use pigen.Common.{
  ℕ, zero, suc, ◌+◌, ◌-◌, ◌*◌, ◌/◌, ◌^◌, Bool, true, false, ◌&&◌, ◌||◌, not, Option, none, some,
  List, [], ◌∷◌, ltb, ◌==◌, same, if◌then◌else◌, u64, size_max, length, get_or, Ordering,
}
use pigen.Magnitude.{
  magnitude_compare, magnitude_add, magnitude_subtract, magnitude_multiply, clz, limb_bits,
}
use pigen.Integer.{
  Integer, IntegerTable, invalid_id, integer_get, integer_limbs, integer_intern,
  pigen_integer_intern_u64,
}

-- The limbs that the loops read through the pointer `integer_limbs`: none for a null pointer, which
-- goes with a count of 0.
abbrev pub read_limbs : Option (List ℕ) → List ℕ
read_limbs none = []
read_limbs (some limbs) = limbs

-- The test `limb_count && !limbs`.
abbrev pub is_broken : Integer → Option (List ℕ) → Bool
is_broken k none = not (k.limb_count == 0)
is_broken k (some limbs) = false

pub negate_known : IntegerTable → ℕ → Option Integer → IntegerTable × ℕ
negate_known t id none = (t, invalid_id)
negate_known t id (some k) = if k.limb_count == 0 then (t, id) else elim (integer_limbs t k) [
  | none ↦ (t, invalid_id)
  | some limbs ↦ integer_intern t (not k.negative) limbs
]

pub pigen_integer_negate : IntegerTable → ℕ → IntegerTable × ℕ
pigen_integer_negate t id = negate_known t id (integer_get t id)

-- `-comparison` of -1, 0 and 1.
abbrev pub opposite : Ordering → Ordering
opposite Ordering.lt = Ordering.gt
opposite Ordering.eq = Ordering.eq
opposite Ordering.gt = Ordering.lt

pub compare_limbs : Integer → Integer → Option (List ℕ) → Option (List ℕ) → Ordering
compare_limbs k l left right =
    if is_broken k left || is_broken l right
    then Ordering.eq
    else let comparison = magnitude_compare (read_limbs left) (read_limbs right) in
      if k.negative then opposite comparison else comparison

pub compare_known : IntegerTable → Option Integer → Option Integer → Ordering
compare_known t none right = Ordering.eq
compare_known t (some k) none = Ordering.eq
compare_known t (some k) (some l) =
    if same k.negative l.negative
    then compare_limbs k l (integer_limbs t k) (integer_limbs t l)
    else if k.negative
    then Ordering.lt
    else Ordering.gt

-- An id that is unknown compares equal to any other.
pub pigen_integer_compare : IntegerTable → ℕ → ℕ → Ordering
pigen_integer_compare t left right = compare_known t (integer_get t left) (integer_get t right)

-- The sum of two integers of opposite signs, by the order of their magnitudes.
pub add_opposite : IntegerTable → Bool → List ℕ → Bool → List ℕ → Ordering → IntegerTable × ℕ
add_opposite t ln left rn right Ordering.eq = pigen_integer_intern_u64 t 0
add_opposite t ln left rn right Ordering.gt = integer_intern t ln (magnitude_subtract left right)
add_opposite t ln left rn right Ordering.lt = integer_intern t rn (magnitude_subtract right left)

pub add_limbs :
    IntegerTable → Integer → Integer → Option (List ℕ) → Option (List ℕ) → IntegerTable × ℕ
add_limbs t k l left right =
    if is_broken k left || is_broken l right
    then (t, invalid_id)
    else if same k.negative l.negative
    then integer_intern t k.negative (magnitude_add (read_limbs left) (read_limbs right))
    else add_opposite t k.negative (read_limbs left) l.negative (read_limbs right)
        (magnitude_compare (read_limbs left) (read_limbs right))

pub add_known : IntegerTable → Option Integer → Option Integer → IntegerTable × ℕ
add_known t none right = (t, invalid_id)
add_known t (some k) none = (t, invalid_id)
add_known t (some k) (some l) = add_limbs t k l (integer_limbs t k) (integer_limbs t l)

pub pigen_integer_add : IntegerTable → ℕ → ℕ → IntegerTable × ℕ
pigen_integer_add t left right = add_known t (integer_get t left) (integer_get t right)

pub subtract_negated : ℕ → IntegerTable × ℕ → IntegerTable × ℕ
subtract_negated left (t, negative_right) =
    if negative_right == invalid_id
    then (t, invalid_id)
    else pigen_integer_add t left negative_right

pub pigen_integer_subtract : IntegerTable → ℕ → ℕ → IntegerTable × ℕ
pigen_integer_subtract t left right = subtract_negated left (pigen_integer_negate t right)

-- The check of the product's width, with the sum of `size_t` that it makes.
pub is_too_wide : List ℕ → ℕ → Bool
is_too_wide limbs maximum_bits =
    let count = length limbs in
    not (count == 0)
    && (ltb ((maximum_bits - 1) / limb_bits) (count - 1)
        || ltb maximum_bits
            (u64 (u64 ((count - 1) * limb_bits) + (limb_bits - clz (get_or limbs (count - 1) 0)))))

-- `magnitude_multiply` gives a null pointer when the product's bytes do not fit `size_t`.
pub multiply_limbs : IntegerTable → Bool → Option (List ℕ) → Option (List ℕ) → ℕ → IntegerTable × ℕ
multiply_limbs t negative none right maximum_bits = (t, invalid_id)
multiply_limbs t negative (some left) none maximum_bits = (t, invalid_id)
multiply_limbs t negative (some left) (some right) maximum_bits =
    if ltb (size_max - length right) (length left)
      || ltb (size_max / 4) (length left + length right)
    then (t, invalid_id)
    else let product = magnitude_multiply left right in
      if is_too_wide product maximum_bits
      then (t, invalid_id)
      else integer_intern t negative product

pub multiply_known : IntegerTable → Option Integer → Option Integer → ℕ → IntegerTable × ℕ
multiply_known t none right maximum_bits = (t, invalid_id)
multiply_known t (some k) none maximum_bits = (t, invalid_id)
multiply_known t (some k) (some l) maximum_bits =
    if maximum_bits == 0
    then (t, invalid_id)
    else if k.limb_count == 0 || l.limb_count == 0
    then pigen_integer_intern_u64 t 0
    else if ltb (size_max - l.limb_count) k.limb_count
    then (t, invalid_id)
    else multiply_limbs t (not (same k.negative l.negative)) (integer_limbs t k) (integer_limbs t l)
        maximum_bits

pub integer_multiply_bounded : IntegerTable → ℕ → ℕ → ℕ → IntegerTable × ℕ
integer_multiply_bounded t left right maximum_bits =
    multiply_known t (integer_get t left) (integer_get t right) maximum_bits

pigen_integer_multiply : IntegerTable → ℕ → ℕ → IntegerTable × ℕ
pigen_integer_multiply t left right = integer_multiply_bounded t left right size_max
