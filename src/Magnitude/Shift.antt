-- ===== src/Magnitude/Shift.antt =====
-- src/integer.c: the limbs of `pigen_integer_shift_left`, which shifts by whole words and by bits.
use native.Mathlib.Nat.{mul-le-mul_right, mod-lt, mod-add-div}
use pigen.Common.{
  ℕ, zero, suc, ◌+◌, ◌-◌, ◌*◌, ◌/◌, ◌%◌, ◌^◌, ◌≤◌, ◌<◌, ◌≡◌, sym, ap, ◌∙◌, inl, inr, List, [], ◌∷◌,
  ◌++◌, arith, u32, ◌==◌, if◌then◌else◌, replicate, length-replicate, Bool-cases, All-append,
}
use pigen.Common.Powers.{two_pow-pos, two_pow-add, two_pow_mono}
use pigen.Common.Bits.{bit_or_comm, bit_or_fields}
use pigen.Magnitude.{limb_bits}
use pigen.Magnitude.Value.{value, IsLimbs, radix, value-append, value-replicate_zero}
use pigen.Magnitude.Width.{radix-two_pow}
use Prim.Native.Nat.{bit_or}

-- The loop over the source: each limb is joined with the bits that the one before it hands on.
unfoldable pub shift_loop : ℕ → List ℕ → ℕ → List ℕ
shift_loop bit_shift [] carry = if bit_shift == 0 then [] else carry ∷ []
shift_loop bit_shift (x ∷ source) carry =
    bit_or carry (u32 (x * 2 ^ bit_shift))
    ∷ shift_loop bit_shift source (x * 2 ^ bit_shift / 2 ^ limb_bits)

unfoldable pub shift_limbs : List ℕ → ℕ → List ℕ
shift_limbs source amount =
    replicate (amount / limb_bits) 0 ++ shift_loop (amount % limb_bits) source 0

split_power : (b : ℕ) → b < 32 → 2 ^ (32 - b) * 2 ^ b ≡ 2 ^ 32
split_power b l =
    sym (two_pow-add (32 - b) b) ∙ let e : 32 - b + b ≡ 32 = omega arith in ap (λ (n : ℕ). 2 ^ n) e

-- A shifted limb: its low field, and what is above 32 bits.
shifted_fields :
    (x b : ℕ) → b < 32 → x * 2 ^ b ≡ x % 2 ^ (32 - b) * 2 ^ b + 2 ^ 32 * (x / 2 ^ (32 - b))
shifted_fields x b l =
    ap (λ (n : ℕ). n * 2 ^ b) (whole (2 ^ (32 - b)))
    ∙ distribute (x % 2 ^ (32 - b)) (x / 2 ^ (32 - b)) (2 ^ (32 - b)) (2 ^ b)
    ∙ ap (λ (n : ℕ). x % 2 ^ (32 - b) * 2 ^ b + n * (x / 2 ^ (32 - b))) (split_power b l)
  where
    whole : (p : ℕ) → x ≡ x % p + p * (x / p)
    whole p = sym (mod-add-div x p)

    distribute : (r a p q : ℕ) → (r + p * a) * q ≡ r * q + p * q * a
    distribute r a p q = omega arith

field-lt : (x b : ℕ) → b < 32 → x % 2 ^ (32 - b) * 2 ^ b + 2 ^ b ≤ 2 ^ 32
field-lt x b l =
    let r : suc (x % 2 ^ (32 - b)) ≤ 2 ^ (32 - b) = mod-lt x (two_pow-pos (32 - b)) in
    omega (arith, mul-le-mul_right (2 ^ b) r, split_power b l)

-- The low word of a shifted limb is a field above `b` bits.
low_word : (x b : ℕ) → b < 32 → u32 (x * 2 ^ b) ≡ x % 2 ^ (32 - b) * 2 ^ b
low_word x b l = omega (arith, shifted_fields x b l, field-lt x b l, two_pow-pos b)

shifted_high : (x b : ℕ) → x < 2 ^ 32 → x * 2 ^ b / 2 ^ 32 < 2 ^ b
shifted_high x b l =
    let m : suc x ≤ 2 ^ 32 = l in omega (arith, mul-le-mul_right (2 ^ b) m, two_pow-pos b)

joined : (x b c : ℕ) → b < 32 → c < 2 ^ b → bit_or c (u32 (x * 2 ^ b)) ≡ u32 (x * 2 ^ b) + c
joined x b c l h =
    bit_or_comm c (u32 (x * 2 ^ b))
    ∙ ap (λ (n : ℕ). bit_or n c) (low_word x b l)
    ∙ bit_or_fields b (x % 2 ^ (32 - b)) c h
    ∙ ap (λ (n : ℕ). n + c) (sym (low_word x b l))

joined-lt : (x b c : ℕ) → b < 32 → c < 2 ^ b → bit_or c (u32 (x * 2 ^ b)) < 2 ^ 32
joined-lt x b c l h = omega (arith, joined x b c l h, low_word x b l, field-lt x b l)

shift_loop-value :
    (b : ℕ) (xs : List ℕ) (c : ℕ)
    → b < 32
    → IsLimbs xs
    → c < 2 ^ b
    → value (shift_loop b xs c) ≡ value xs * 2 ^ b + c
unfolding shift_loop
shift_loop-value b [] c l h k = elim (Bool-cases (b == 0)) [
  | inl z ↦ rw z (let e : b ≡ 0 = ground arith in omega (arith, rw e at k))
  | inr nz ↦ rw nz (omega arith)
]
shift_loop-value b (x ∷ xs) c l h k =
    let high = shifted_high x b h.0 in
    omega (
      arith,
      joined x b c l k,
      shift_loop-value b xs (x * 2 ^ b / 2 ^ 32) l h.1 high,
      distribute x (value xs) (2 ^ b),
    )
  where
    distribute : (a v p : ℕ) → (a + 2 ^ 32 * v) * p ≡ a * p + 2 ^ 32 * (v * p)
    distribute a v p = omega arith

shift_loop-IsLimbs :
    (b : ℕ) (xs : List ℕ) (c : ℕ) → b < 32 → IsLimbs xs → c < 2 ^ b → IsLimbs (shift_loop b xs c)
unfolding shift_loop
shift_loop-IsLimbs b [] c l h k = elim (Bool-cases (b == 0)) [
  | inl z ↦ rw z tt
  | inr nz ↦ rw nz (omega (arith, two_pow_mono {m = b} {n = 32}), tt)
]
shift_loop-IsLimbs b (x ∷ xs) c l h k =
    (joined-lt x b c l k, shift_loop-IsLimbs b xs (x * 2 ^ b / 2 ^ 32) l h.1 (shifted_high x b h.0))

pub value-shift_limbs :
    (xs : List ℕ) (amount : ℕ) → IsLimbs xs → value (shift_limbs xs amount) ≡ value xs * 2 ^ amount
unfolding shift_limbs
value-shift_limbs xs amount h =
    let words = amount / 32 in
    let bits = amount % 32 in
    let whole : amount / 32 * 32 + amount % 32 ≡ amount = omega arith in
    value-append (replicate words 0) (shift_loop bits xs 0)
    ∙ omega (
      arith,
      value-replicate_zero words,
      ap (λ (n : ℕ). n * value (shift_loop bits xs 0))
          (ap radix (length-replicate {A = ℕ} words 0) ∙ radix-two_pow words),
      ap (λ (n : ℕ). 2 ^ (words * 32) * n)
          (shift_loop-value bits xs 0 (omega arith) h (two_pow-pos bits)),
      ap (λ (n : ℕ). value xs * n)
          (sym (two_pow-add (words * 32) bits) ∙ ap (λ (n : ℕ). 2 ^ n) whole),
    )

replicate_zero-IsLimbs : (n : ℕ) → IsLimbs (replicate n 0)
replicate_zero-IsLimbs zero = tt
replicate_zero-IsLimbs (suc n) = (omega arith, replicate_zero-IsLimbs n)

pub shift_limbs-IsLimbs : (xs : List ℕ) (amount : ℕ) → IsLimbs xs → IsLimbs (shift_limbs xs amount)
unfolding shift_limbs
shift_limbs-IsLimbs xs amount h =
    All-append (λ (x : ℕ). x < 2 ^ 32) (replicate (amount / 32) 0) (shift_loop (amount % 32) xs 0)
      (replicate_zero-IsLimbs (amount / 32))
      (shift_loop-IsLimbs (amount % 32) xs 0 (omega arith) h (two_pow-pos (amount % 32)))
