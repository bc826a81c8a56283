-- ===== src/Integer.antt =====
-- src/integer.c and the fields of `pigen_semantic_model` (include/pigen/semantic.h) that it keeps:
-- the table of integers and the array of their limbs. The counts are the lengths of the lists; the
-- growth of the arrays is left out. An id is its `uint32_t`, and `PIGEN_INVALID_ID` a number too.
pub mod Table
pub mod Intern
pub mod Decimal
pub mod Arith
pub mod Read
pub mod Power
mod Tests
use pigen.Common.{
  ℕ, zero, suc, ◌+◌, ◌-◌, ◌/◌, ◌^◌, Bool, true, false, ◌&&◌, ◌||◌, not, Option, none, some, List,
  [], ◌∷◌, ◌++◌, ltb, leb, ◌==◌, same, if◌then◌else◌, u32, u64, size_max, length, get_elem?, take,
  drop,
}
use pigen.Magnitude.{normalized_count, normalized, magnitude_multiply_small, magnitude_add_small}

abbrev pub invalid_id : ℕ
invalid_id = 2 ^ 32 - 1

pub record Integer : Type 0 where
  pub negative : Bool
  pub first_limb : ℕ
  pub limb_count : ℕ

pub record IntegerTable : Type 0 where
  pub integers : List Integer
  pub limbs : List ℕ

-- `none` is the null pointer.
pub integer_get : IntegerTable → ℕ → Option Integer
integer_get t id = if id == invalid_id then none else get_elem? t.integers id

-- The `limb_count` limbs at `first_limb`.
abbrev pub slice : List ℕ → Integer → List ℕ
slice limbs k = take k.limb_count (drop k.first_limb limbs)

pub integer_limbs : IntegerTable → Integer → Option (List ℕ)
integer_limbs t k =
    if k.limb_count == 0
    then none
    else if ltb (length t.limbs) k.first_limb || ltb (length t.limbs - k.first_limb) k.limb_count
    then none
    else some (slice t.limbs k)

-- `memcmp` of two arrays of one length.
pub limbs_same : List ℕ → List ℕ → Bool
limbs_same [] [] = true
limbs_same [] (y ∷ ys) = false
limbs_same (x ∷ xs) [] = false
limbs_same (x ∷ xs) (y ∷ ys) = x == y && limbs_same xs ys

pub known_same : Option (List ℕ) → List ℕ → Bool
known_same none limbs = false
known_same (some known) limbs = limbs_same known limbs

pub limbs_equal : IntegerTable → Integer → List ℕ → Bool
limbs_equal t k limbs =
    k.limb_count == length limbs && (length limbs == 0 || known_same (integer_limbs t k) limbs)

-- The search of `integer_intern`, from index `i` on.
pub find_integer : IntegerTable → List Integer → ℕ → Bool → List ℕ → Option ℕ
find_integer t [] i negative limbs = none
find_integer t (k ∷ rest) i negative limbs =
    let later = find_integer t rest (i + 1) negative limbs in
    if same k.negative negative && limbs_equal t k limbs then some (u32 i) else later

pub append_integer : IntegerTable → Bool → List ℕ → IntegerTable × ℕ
append_integer t negative limbs =
    if leb invalid_id (length t.integers) || ltb (size_max - length t.limbs) (length limbs)
    then (t, invalid_id)
    else (
      record {
        integers =
            t.integers
            ++ record {
              negative = negative;
              first_limb = length t.limbs;
              limb_count = length limbs;
            }
              ∷ [];
        limbs = t.limbs ++ limbs;
      },
      u32 (length t.integers),
    )

-- The sign of a normalized magnitude: 0 is not negative.
abbrev pub sign_of : Bool → List ℕ → Bool
sign_of negative [] = false
sign_of negative (x ∷ limbs) = negative

pub find_or_append : IntegerTable → Bool → List ℕ → IntegerTable × ℕ
find_or_append t negative limbs = elim (find_integer t t.integers 0 negative limbs) [
  | some id ↦ (t, id)
  | none ↦ append_integer t negative limbs
]

pub integer_intern : IntegerTable → Bool → List ℕ → IntegerTable × ℕ
integer_intern t negative limbs =
    let limbs' = normalized limbs in find_or_append t (sign_of negative limbs') limbs'

-- The loop of `pigen_integer_intern_decimal` over the text's bytes: the limbs, and `any`.
pub decimal_loop : List ℕ → List ℕ → Bool → Option (List ℕ × Bool)
decimal_loop [] limbs any = some (limbs, any)
decimal_loop (c ∷ digits) limbs any =
    let skip = decimal_loop digits limbs any in
    let digit =
      decimal_loop digits (magnitude_add_small (magnitude_multiply_small limbs 10) (u32 (c - b'0')))
        true in
    if c == b'_' then skip else if ltb c b'0' || ltb b'9' c then none else digit

pub intern_decimal_result : IntegerTable → Option (List ℕ × Bool) → IntegerTable × ℕ
intern_decimal_result t none = (t, invalid_id)
intern_decimal_result t (some (limbs, false)) = (t, invalid_id)
intern_decimal_result t (some (limbs, true)) = integer_intern t false limbs

pub pigen_integer_intern_decimal : IntegerTable → List ℕ → IntegerTable × ℕ
pigen_integer_intern_decimal t digits =
    if length digits == 0
    then (t, invalid_id)
    else intern_decimal_result t (decimal_loop digits [] false)

-- Two limbs if the high word is not 0, one if only the low word is not.
abbrev pub u64_limbs : ℕ → List ℕ
u64_limbs v =
    if v / 2 ^ 32 == 0 then (if v == 0 then [] else u32 v ∷ []) else u32 v ∷ u32 (v / 2 ^ 32) ∷ []

pub pigen_integer_intern_u64 : IntegerTable → ℕ → IntegerTable × ℕ
pigen_integer_intern_u64 t v = integer_intern t false (u64_limbs v)
