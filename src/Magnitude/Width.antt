-- ===== src/Magnitude/Width.antt =====
-- src/integer.c: `magnitude_width` is the number of bits of the number.
use native.Mathlib.Nat.{mul-le-mul_left}
use pigen.Common.{
  ℕ, zero, suc, ◌+◌, ◌-◌, ◌*◌, ◌/◌, ◌^◌, ◌≤◌, ◌<◌, ◌≡◌, refl, List, [], ◌∷◌, arith, length, ltb,
  leb, get_or, Bool-cases, inl, inr, ap, ◌∙◌, sym, subst, take, take-length, ◌⊎◌, false,
}
use pigen.Common.Powers.{IsWidth, two_pow-suc, two_pow-add}
use pigen.Magnitude.{leading_zeros, clz, magnitude_width}
use pigen.Magnitude.Value.{value, IsLimbs, IsNormal, radix}
use pigen.Magnitude.Order.{value-take, value-take-lt}

leading_zeros-IsWidth :
    (n x : ℕ) → x < 2 ^ n → (leading_zeros n x ≤ n) × IsWidth (n - leading_zeros n x) x
unfolding leading_zeros
leading_zeros-IsWidth zero x h = omega arith
leading_zeros-IsWidth (suc n) x h = elim (Bool-cases (leb (2 ^ n) x)) [
  | inl e ↦ rw e (
      let z : suc n - 0 ≡ suc n = omega arith in
      rw z (omega arith, (h, inr (ground (arith, two_pow-suc n)))))
  | inr e ↦ rw e (below (leading_zeros n x) (leading_zeros-IsWidth n x (ground arith)))
]
  where
    below : (z : ℕ) → (z ≤ n) × IsWidth (n - z) x → (suc z ≤ suc n) × IsWidth (suc n - suc z) x
    below z h = let e : suc n - suc z ≡ n - z = omega arith in rw e (omega arith, h.1)

clz-IsWidth : (x : ℕ) → x < 2 ^ 32 → (clz x ≤ 32) × IsWidth (32 - clz x) x
unfolding clz
clz-IsWidth x h = leading_zeros-IsWidth 32 x h

pub radix-two_pow : (n : ℕ) → radix n ≡ 2 ^ (n * 32)
radix-two_pow zero = refl
radix-two_pow (suc n) =
    let e : suc n * 32 ≡ 32 + n * 32 = omega arith in
    rw (e, two_pow-add 32 (n * 32)) (omega (arith, radix-two_pow n))

-- Low bits below a number that is not 0 add to its width.
pub shifted-IsWidth :
    (k w x low : ℕ) → 0 < x → IsWidth w x → low < 2 ^ k → IsWidth (k + w) (low + 2 ^ k * x)
shifted-IsWidth k w x low p h l = rw (two_pow-add k w) (
  omega (arith, mul-le-mul_left {m = x + 1} {n = 2 ^ w} (2 ^ k) (omega arith)),
  inr (omega (arith, mul-le-mul_left {m = 2 ^ w} {n = 2 * x} (2 ^ k) (omega (arith, one_bit h.1)))),
)
  where
    one_bit : (w ≡ 0) ⊎ (2 ^ w ≤ 2 * x) → 2 ^ w ≤ 2 * x
    one_bit (inl e) = rw e (omega arith)
    one_bit (inr e) = e

pub last_limb : (x : ℕ) (xs : List ℕ) → IsNormal (x ∷ xs) → 0 < get_or (x ∷ xs) (length xs) 0
last_limb x [] h = h
last_limb x (y ∷ xs) h = last_limb y xs h

get_or-lt : (xs : List ℕ) (n : ℕ) → IsLimbs xs → get_or xs n 0 < 2 ^ 32
get_or-lt [] n h = omega arith
get_or-lt (x ∷ xs) zero h = h.0
get_or-lt (x ∷ xs) (suc n) h = get_or-lt xs n h.1

-- The width of as many limbs as `size_t` can count the bits of.
abbrev pub limb_max : ℕ
limb_max = (2 ^ 64 - 1 - 32) / 32 + 1

pub top_limb-IsWidth :
    (xs : List ℕ) (n : ℕ)
    → IsLimbs xs
    → length xs ≡ suc n
    → 0 < get_or xs n 0
    → IsWidth (n * 32 + (32 - clz (get_or xs n 0))) (value xs)
top_limb-IsWidth xs n h e p =
    let eq : value xs ≡ value (take n xs) + 2 ^ (n * 32) * get_or xs n 0 =
      whole ∙ ap (λ (r : ℕ). value (take n xs) + r * get_or xs n 0) (radix-two_pow n) in
    rw eq (
      shifted-IsWidth (n * 32) (32 - clz (get_or xs n 0)) (get_or xs n 0) (value (take n xs)) p
        (clz-IsWidth (get_or xs n 0) (get_or-lt xs n h)).1
        (rw (← radix-two_pow n) (value-take-lt xs n h)))
  where
    whole : value xs ≡ value (take n xs) + radix n * get_or xs n 0
    whole = ap value (sym (subst (λ (k : ℕ). take k xs ≡ xs) e (take-length xs))) ∙ value-take xs n

pub magnitude_width-IsWidth :
    (xs : List ℕ)
    → IsLimbs xs
    → IsNormal xs
    → length xs ≤ limb_max
    → IsWidth (magnitude_width xs (length xs)) (value xs)
unfolding magnitude_width
magnitude_width-IsWidth [] h n le = omega arith
magnitude_width-IsWidth (x ∷ xs) h n le =
    let e : ltb ((2 ^ 64 - 1 - 32) / 32) (length xs) ≡ false = ground arith in
    rw e (top_limb-IsWidth (x ∷ xs) (length xs) h refl (last_limb x xs n))

-- Past that the width is reported as SIZE_MAX.
magnitude_width_saturates :
    (xs : List ℕ) → limb_max < length xs → magnitude_width xs (length xs) ≡ 2 ^ 64 - 1
unfolding magnitude_width
magnitude_width_saturates [] h = absurd (omega arith)
magnitude_width_saturates (x ∷ xs) h = ground arith

-- With one limb fewer the width is not SIZE_MAX, which stands for an overflow.
pub magnitude_width-lt-size_max :
    (xs : List ℕ) → length xs < limb_max → magnitude_width xs (length xs) < 2 ^ 64 - 1
unfolding magnitude_width
magnitude_width-lt-size_max [] h = omega arith
magnitude_width-lt-size_max (x ∷ xs) h = ground arith
