-- ===== src/Integer/Read/Words.antt =====
-- src/integer.c: the tests, and the conversions to `size_t` and `uint64_t`, say what the integer is.
use Prim.Native.Nat.{bit_and}
use pigen.Common.{
  ℕ, ◌+◌, ◌*◌, ◌%◌, ◌^◌, ◌≤◌, ◌<◌, ◌≡◌, ◌≢◌, refl, Bool, true, false, not, ◌&&◌, Option, none, some,
  List, [], ◌∷◌, arith, ltb, ◌==◌, if◌then◌else◌, u64, length, get_or, Bool-cases, inl, inr,
}
use pigen.Common.Int.{ℤ, pos, negsuc, signed, magnitude, magnitude-signed}
use pigen.Common.Bits.{bit_or_fields, bit_and-one}
use pigen.Magnitude.Value.{value, IsLimbs, IsNormal, radix-pos, radix-le-value, value-pos}
use pigen.Integer.{Integer, IntegerTable, integer_limbs}
use pigen.Integer.Table.{IsTable, Denotes}
use pigen.Integer.Arith.Operand.{operand}
use pigen.Integer.Read.{
  is_zero_known, pigen_integer_is_zero, is_negative_known, pigen_integer_is_negative, is_odd_known,
  pigen_integer_is_odd, join_limb, to_size_loop, to_size_limbs, to_size_known,
  pigen_integer_to_size, to_u64_loop, to_u64_limbs, to_u64_known, pigen_integer_to_u64,
}

join_limb-fields : (r x : ℕ) → r < 2 ^ 32 → x < 2 ^ 32 → join_limb r x ≡ r * 2 ^ 32 + x
unfolding join_limb
join_limb-fields r x h k =
    let e : u64 (r * 2 ^ 32) ≡ r * 2 ^ 32 = omega arith in rw e (bit_or_fields 32 r x k)

-- The integer as a 64-bit word, where it is one.
abbrev as_word : ℤ → Option ℕ
as_word (pos n) = if ltb n (2 ^ 64) then some n else none
as_word (negsuc n) = none

negative_is_no_word : (m : ℕ) → m ≢ 0 → none ≡ as_word (signed true m)
negative_is_no_word m ne = ground arith

many_limbs : (x y z : ℕ) (xs : List ℕ) → IsNormal (x ∷ y ∷ z ∷ xs) → 2 ^ 64 ≤ value (x ∷ y ∷ z ∷ xs)
many_limbs x y z xs n = omega (arith, radix-le-value x (y ∷ z ∷ xs) n, radix-pos (length xs))

to_u64_loop-value :
    (xs : List ℕ)
    → IsLimbs xs
    → IsNormal xs
    → (if ltb 2 (length xs) then none else some (to_u64_loop xs (length xs) 0))
      ≡ as_word (pos (value xs))
unfolding to_u64_loop
to_u64_loop-value [] h n = ground arith
to_u64_loop-value (x ∷ []) h n = ground (arith, join_limb-fields 0 x)
to_u64_loop-value (x ∷ y ∷ []) h n = ground (arith, join_limb-fields 0 y, join_limb-fields y x)
to_u64_loop-value (x ∷ y ∷ z ∷ xs) h n = ground (arith, many_limbs x y z xs n)

to_size_loop-value :
    (xs : List ℕ)
    → IsLimbs xs
    → IsNormal xs
    → (if ltb 2 (length xs) then none else to_size_loop xs (length xs) 0) ≡ as_word (pos (value xs))
unfolding to_size_loop
to_size_loop-value [] h n = ground arith
to_size_loop-value (x ∷ []) h n = ground (arith, join_limb-fields 0 x)
to_size_loop-value (x ∷ y ∷ []) h n = ground (arith, join_limb-fields 0 y, join_limb-fields y x)
to_size_loop-value (x ∷ y ∷ z ∷ xs) h n = ground (arith, many_limbs x y z xs n)

module _ (t : IntegerTable) (id : ℕ) (x : ℤ) (v : IsTable t) (d : Denotes t id x) where
  -- In a canonical table, pigen_integer_to_size and pigen_integer_to_u64 give the number of an
  -- id's integer, and fail where it is negative or needs more than 64 bits.
  pub conversions-as_word :
      (pigen_integer_to_size t id ≡ as_word x) × (pigen_integer_to_u64 t id ≡ as_word x)
  unfolding pigen_integer_to_size to_size_known to_size_limbs pigen_integer_to_u64 to_u64_known
      to_u64_limbs
  conversions-as_word =
      let p = operand t id x v d in
      rw (p.found, p.whole, p.reads, ← p.count, ← p.means)
        (elim (Bool-cases p.entry.negative) [
          | inl neg ↦
              let e = negative_is_no_word (value p.limbs) (λ z. cc (p.unsigned z)) in rw neg (e, e)
          | inr nonneg ↦ rw nonneg (
            to_size_loop-value p.limbs p.limbs32 p.normal,
            to_u64_loop-value p.limbs p.limbs32 p.normal,
          )
        ])

abbrev is_negative : ℤ → Bool
is_negative (pos n) = false
is_negative (negsuc n) = true

sign_bit : (s : Bool) (m : ℕ) → (m ≡ 0 → s ≡ false) → s ≡ is_negative (signed s m)
sign_bit s m z = ground arith

-- The lowest bit of the lowest limb, and the count of limbs.
low_bit :
    (xs : List ℕ)
    → IsNormal xs
    → (not (length xs == 0) && not (bit_and (get_or xs 0 0) 1 == 0) ≡ (value xs % 2 == 1))
      × ((length xs == 0) ≡ (value xs == 0))
low_bit [] n = (refl, refl)
low_bit (x ∷ xs) n = let p = value-pos x xs n in (ground (arith, bit_and-one x), ground arith)

is_odd_read :
    (t : IntegerTable) (k : Integer) (limbs : List ℕ)
    → (k.limb_count ≢ 0 → integer_limbs t k ≡ some limbs)
    → is_odd_known t (some k) ≡ not (k.limb_count == 0) && not (bit_and (get_or limbs 0 0) 1 == 0)
unfolding is_odd_known
is_odd_read t k limbs e = elim (Bool-cases (k.limb_count == 0)) [
  | inl z ↦ rw z
  | inr nz ↦ rw (nz, e (ground arith))
]

-- In a canonical table, pigen_integer_is_zero, pigen_integer_is_negative and pigen_integer_is_odd
-- say whether the integer of an id is 0, negative and odd.
pub tests_lem :
    (t : IntegerTable) (id : ℕ) (x : ℤ)
    → IsTable t
    → Denotes t id x
    → (pigen_integer_is_zero t id ≡ (magnitude x == 0))
      × (pigen_integer_is_negative t id ≡ is_negative x)
      × (pigen_integer_is_odd t id ≡ (magnitude x % 2 == 1))
unfolding pigen_integer_is_zero is_zero_known pigen_integer_is_negative is_negative_known
    pigen_integer_is_odd
tests_lem t id x v d =
    let p = operand t id x v d in
    let b = low_bit p.limbs p.normal in
    rw
      (
        p.found,
        is_odd_read t p.entry p.limbs p.pointer,
        ← p.count,
        ← p.means,
        magnitude-signed p.entry.negative (value p.limbs),
      )
      (b.1, sign_bit p.entry.negative (value p.limbs) p.unsigned, b.0)
