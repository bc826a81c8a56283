-- ===== src/Integer/Arith/Width.antt =====
-- src/integer.c: the check of `integer_multiply_bounded` on the width of a product.
use pigen.Common.{
  ℕ, suc, ◌+◌, ◌-◌, ◌*◌, ◌/◌, ◌^◌, ◌≤◌, ◌<◌, ◌≡◌, ◌≢◌, refl, true, false, ◌||◌, List, [], ◌∷◌,
  arith, length, get_or, ltb, u64,
}
use pigen.Common.Powers.{IsWidth, two_pow_mono}
use pigen.Magnitude.{clz}
use pigen.Magnitude.Value.{value, IsLimbs, IsNormal, radix-le-value}
use pigen.Magnitude.Width.{radix-two_pow, last_limb, top_limb-IsWidth}
use pigen.Integer.Arith.{is_too_wide}

-- The width of a normalized magnitude, as the check computes it without wrap-around.
abbrev pub top_width : List ℕ → ℕ
top_width [] = 0
top_width (x ∷ xs) = length xs * 32 + (32 - clz (get_or (x ∷ xs) (length xs) 0))

pub top_width-IsWidth : (xs : List ℕ) → IsLimbs xs → IsNormal xs → IsWidth (top_width xs) (value xs)
top_width-IsWidth [] h n = omega arith
top_width-IsWidth (x ∷ xs) h n = top_limb-IsWidth (x ∷ xs) (length xs) h refl (last_limb x xs n)

-- `none` of the bits of a limb that is not 0 is past the 32nd.
top_width-above :
    (x : ℕ) (xs : List ℕ)
    → IsLimbs (x ∷ xs)
    → IsNormal (x ∷ xs)
    → length xs * 32 < top_width (x ∷ xs)
top_width-above x xs h n = ground (
  arith,
  top_width-IsWidth (x ∷ xs) h n,
  radix-le-value x xs n,
  radix-two_pow (length xs),
  two_pow_mono {m = top_width (x ∷ xs)} {n = length xs * 32},
)

-- The check, with `count - 1` for the limbs below the highest.
is_too_wide-cons :
    (x : ℕ) (xs : List ℕ) (m : ℕ)
    → is_too_wide (x ∷ xs) m ≡ (
        ltb ((m - 1) / 32) (length xs)
        || ltb m (u64 (u64 (length xs * 32) + (32 - clz (get_or (x ∷ xs) (length xs) 0)))))
unfolding is_too_wide
is_too_wide-cons x xs m =
    let e : suc (length xs) - 1 ≡ length xs = omega arith in rw e (ground arith)

-- A refused product is too wide.
pub too_wide :
    (xs : List ℕ) (m : ℕ)
    → m ≢ 0
    → IsLimbs xs
    → IsNormal xs
    → is_too_wide xs m ≡ true
    → m < top_width xs
too_wide [] m p h n e = unfold is_too_wide in cc
too_wide (x ∷ xs) m p h n e = ground (arith, is_too_wide-cons x xs m, top_width-above x xs h n)

pub not_too_wide :
    (xs : List ℕ) (m : ℕ) → m ≢ 0 → m + 32 ≤ 2 ^ 64 → is_too_wide xs m ≡ false → top_width xs ≤ m
not_too_wide [] m p h e = omega arith
not_too_wide (x ∷ xs) m p h e = ground (arith, is_too_wide-cons x xs m)
