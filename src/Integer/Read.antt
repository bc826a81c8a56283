-- ===== src/Integer/Read.antt =====
-- src/integer.c: what can be read off an id: tests, conversions to machine words, widths in bits.
pub mod Words
pub mod Widths
use Prim.Native.Nat.{bit_and, bit_or}
use pigen.Common.{
  ℕ, zero, suc, ◌+◌, ◌-◌, ◌*◌, ◌/◌, ◌^◌, Bool, true, false, ◌&&◌, ◌||◌, not, Option, none, some,
  List, [], ◌∷◌, ltb, ◌==◌, if◌then◌else◌, u64, size_max, length, get_or,
}
use pigen.Magnitude.{magnitude_width}
use pigen.Magnitude.PowerOfTwo.{magnitude_is_power_of_two}
use pigen.Integer.{Integer, IntegerTable, integer_get, integer_limbs}
use pigen.Integer.Arith.{is_broken, read_limbs}

unfoldable pub is_zero_known : Option Integer → Bool
is_zero_known none = false
is_zero_known (some k) = k.limb_count == 0

unfoldable pub pigen_integer_is_zero : IntegerTable → ℕ → Bool
pigen_integer_is_zero t id = is_zero_known (integer_get t id)

unfoldable pub is_negative_known : Option Integer → Bool
is_negative_known none = false
is_negative_known (some k) = k.negative

unfoldable pub pigen_integer_is_negative : IntegerTable → ℕ → Bool
pigen_integer_is_negative t id = is_negative_known (integer_get t id)

pub is_odd_known : IntegerTable → Option Integer → Bool
is_odd_known t none = false
is_odd_known t (some k) = not (k.limb_count == 0) && (elim (integer_limbs t k) [
  | none ↦ false
  | some limbs ↦ not (bit_and (get_or limbs 0 0) 1 == 0)
])

unfoldable pub pigen_integer_is_odd : IntegerTable → ℕ → Bool
pigen_integer_is_odd t id = is_odd_known t (integer_get t id)

-- `(result << LIMB_BITS) | limbs[i]` from the highest limb down; the shift cuts at 64 bits.
pub join_limb : ℕ → ℕ → ℕ
join_limb result limb = bit_or (u64 (result * 2 ^ 32)) limb

pub to_size_loop : List ℕ → ℕ → ℕ → Option ℕ
to_size_loop limbs zero result = some result
to_size_loop limbs (suc i) result =
    let next = to_size_loop limbs i (join_limb result (get_or limbs i 0)) in
    if ltb (size_max / 2 ^ 32) result then none else next

-- `none` is the result 0 of the C function, which leaves the output alone.
pub to_size_limbs : Integer → Option (List ℕ) → Option ℕ
to_size_limbs k limbs =
    if k.negative
    then none
    else if is_broken k limbs
    then none
    else if ltb ((8 * 8 + 32 - 1) / 32) k.limb_count
    then none
    else to_size_loop (read_limbs limbs) k.limb_count 0

pub to_size_known : IntegerTable → Option Integer → Option ℕ
to_size_known t none = none
to_size_known t (some k) = to_size_limbs k (integer_limbs t k)

pub pigen_integer_to_size : IntegerTable → ℕ → Option ℕ
pigen_integer_to_size t id = to_size_known t (integer_get t id)

pub to_u64_loop : List ℕ → ℕ → ℕ → ℕ
to_u64_loop limbs zero result = result
to_u64_loop limbs (suc i) result = to_u64_loop limbs i (join_limb result (get_or limbs i 0))

pub to_u64_limbs : Integer → Option (List ℕ) → Option ℕ
to_u64_limbs k limbs =
    if k.negative
    then none
    else if is_broken k limbs
    then none
    else if ltb 2 k.limb_count
    then none
    else some (to_u64_loop (read_limbs limbs) k.limb_count 0)

pub to_u64_known : IntegerTable → Option Integer → Option ℕ
to_u64_known t none = none
to_u64_known t (some k) = to_u64_limbs k (integer_limbs t k)

pub pigen_integer_to_u64 : IntegerTable → ℕ → Option ℕ
pigen_integer_to_u64 t id = to_u64_known t (integer_get t id)

pub width_of_limbs : Option (List ℕ) → ℕ → ℕ
width_of_limbs none count = 0
width_of_limbs (some limbs) count = magnitude_width limbs count

pub unsigned_width_known : IntegerTable → Option Integer → ℕ
unsigned_width_known t none = 0
unsigned_width_known t (some k) =
    if k.negative
    then 0
    else if k.limb_count == 0
    then 1
    else width_of_limbs (integer_limbs t k) k.limb_count

pub pigen_integer_unsigned_width : IntegerTable → ℕ → ℕ
pigen_integer_unsigned_width t id = unsigned_width_known t (integer_get t id)

-- One more bit for the sign, but for the negative powers of two.
pub signed_width_limbs : Integer → Option (List ℕ) → ℕ
signed_width_limbs k none = 0
signed_width_limbs k (some limbs) =
    let width = magnitude_width limbs k.limb_count in
    if width == size_max
    then 0
    else if k.negative && magnitude_is_power_of_two limbs
    then width
    else width + 1

pub signed_width_known : IntegerTable → Option Integer → ℕ
signed_width_known t none = 0
signed_width_known t (some k) =
    if k.limb_count == 0 then 1 else signed_width_limbs k (integer_limbs t k)

pub pigen_integer_signed_width : IntegerTable → ℕ → ℕ
pigen_integer_signed_width t id = signed_width_known t (integer_get t id)
