-- ===== src/Common/Bits.antt =====
-- Laws of `|` and `&` on numbers of any width: disjoint fields, low masks, powers of two. They come
-- from one equation for the lowest digit.
use Prim.Native.Nat.{
  ℕ, zero, suc, ◌+◌, ◌-◌, ◌*◌, ◌/◌, ◌%◌, ◌^◌, ◌≤◌, ◌<◌, min, max, bit_and, bit_or, digits, bitwise,
  bit_and-bitwise, bit_or-bitwise,
}
use mathlib.Core.Path.{◌≡◌, refl, sym, ap, ap₂, subst, ◌∙◌}
use mathlib.Core.Logic.{◌⊎◌, inl, inr, ◌↔◌}
use native.Mathlib.Omega.{arith}
use pigen.Common.Powers.{two_pow-suc, two_pow-pos}

-- More fuel than the first number changes nothing.
module _ (z : ℕ → ℕ) (f : ℕ → ℕ → ℕ) where
  fuel_enough : (m k a b : ℕ) → a ≤ m → digits z f (m + k) a b ≡ digits z f m a b
  fuel_enough zero k zero b h = no_digits (zero + k) b
    where
      no_digits : (j c : ℕ) → digits z f j 0 c ≡ z c
      no_digits zero c = refl
      no_digits (suc j) c = refl
  fuel_enough zero k (suc a) b h = absurd (omega arith)
  fuel_enough (suc m) k zero b h = let e : suc m + k ≡ suc (m + k) = omega arith in rw e refl
  fuel_enough (suc m) k (suc a) b h =
      let e : suc m + k ≡ suc (m + k) = omega arith in
      rw e (rw (fuel_enough m k (suc a / 2) (b / 2) (omega arith)))

  lowest_digit :
      (a b : ℕ)
      → bitwise z f (suc a) b ≡ bitwise z f (suc a / 2) (b / 2) * 2 + f (suc a % 2) (b % 2)
  lowest_digit a b =
      let e : suc a / 2 + (a - suc a / 2) ≡ a = omega arith in
      ap (λ (t : ℕ). t * 2 + f (suc a % 2) (b % 2))
        (subst (λ (n : ℕ). digits z f n (suc a / 2) (b / 2) ≡ bitwise z f (suc a / 2) (b / 2)) e
          (fuel_enough (suc a / 2) (a - suc a / 2) (suc a / 2) (b / 2) (omega arith)))

bit_or-digit : (a b : ℕ) → bit_or a b ≡ bit_or (a / 2) (b / 2) * 2 + max (a % 2) (b % 2)
bit_or-digit zero b = omega (arith, bit_or-bitwise 0 b, bit_or-bitwise 0 (b / 2))
bit_or-digit (suc a) b = omega (
  arith,
  bit_or-bitwise (suc a) b,
  bit_or-bitwise (suc a / 2) (b / 2),
  lowest_digit (λ y. y) max a b,
)

bit_and-digit : (a b : ℕ) → bit_and a b ≡ bit_and (a / 2) (b / 2) * 2 + min (a % 2) (b % 2)
bit_and-digit zero b = omega (arith, bit_and-bitwise 0 b, bit_and-bitwise 0 (b / 2))
bit_and-digit (suc a) b = omega (
  arith,
  bit_and-bitwise (suc a) b,
  bit_and-bitwise (suc a / 2) (b / 2),
  lowest_digit (λ y. 0) min a b,
)

or_comm_below : (n a b : ℕ) → a ≤ n → b ≤ n → bit_or a b ≡ bit_or b a
or_comm_below zero zero zero h k = refl
or_comm_below zero zero (suc b) h k = absurd (omega arith)
or_comm_below zero (suc a) b h k = absurd (omega arith)
or_comm_below (suc n) a b h k = omega (
  arith,
  bit_or-digit a b,
  bit_or-digit b a,
  or_comm_below n (a / 2) (b / 2) (omega arith) (omega arith),
)

pub bit_or_comm : (a b : ℕ) → bit_or a b ≡ bit_or b a
bit_or_comm a b = or_comm_below (a + b) a b (omega arith) (omega arith)

zero-bit_or : (b : ℕ) → bit_or 0 b ≡ b
zero-bit_or b = bit_or-bitwise 0 b

-- A field above and a field below do not meet: `|` adds them.
pub bit_or_fields : (k high low : ℕ) → low < 2 ^ k → bit_or (high * 2 ^ k) low ≡ high * 2 ^ k + low
bit_or_fields zero high low h =
    let e : low ≡ 0 = omega arith in
    rw e (omega (arith, bit_or_comm (high * 2 ^ 0) 0, zero-bit_or (high * 2 ^ 0)))
bit_or_fields (suc k) high low h =
    let double : high * 2 ^ suc k ≡ 2 * (high * 2 ^ k) =
      ap (λ (t : ℕ). high * t) (two_pow-suc k) ∙ omega arith in
    omega (
      arith,
      double,
      two_pow-suc k,
      ap (λ (t : ℕ). bit_or (t / 2) (low / 2)) double,
      ap {B = ℕ} (λ (t : ℕ). bit_or t (low / 2)) (half (high * 2 ^ k)),
      bit_or-digit (high * 2 ^ suc k) low,
      bit_or_fields k high (low / 2) (omega (arith, two_pow-suc k)),
    )
  where
    half : (n : ℕ) → 2 * n / 2 ≡ n
    half n = omega arith

and_self_below : (n a : ℕ) → a ≤ n → bit_and a a ≡ a
and_self_below n zero h = refl
and_self_below zero (suc a) h = absurd (omega arith)
and_self_below (suc n) (suc a) h =
    omega (arith, bit_and-digit (suc a) (suc a), and_self_below n (suc a / 2) (omega arith))

bit_and_self : (a : ℕ) → bit_and a a ≡ a
bit_and_self a = and_self_below a a (omega arith)

and_zero_below : (n a : ℕ) → a ≤ n → bit_and a 0 ≡ 0
and_zero_below n zero h = refl
and_zero_below zero (suc a) h = absurd (omega arith)
and_zero_below (suc n) (suc a) h =
    omega (arith, bit_and-digit (suc a) 0, and_zero_below n (suc a / 2) (omega arith))

pub bit_and-one : (a : ℕ) → bit_and a 1 ≡ a % 2
bit_and-one a = omega (arith, bit_and-digit a 1, and_zero_below (a / 2) (a / 2) (omega arith))

-- `x & (x - 1)` takes the lowest bit away.
lower_even : (q : ℕ) → bit_and (2 * suc q) (2 * suc q - 1) ≡ 2 * bit_and (suc q) q
lower_even q =
    ground
      (arith, bit_and-digit (2 * suc q) (2 * suc q - 1), ap₂ bit_and (half (suc q)) (half_below q))
  where
    half : (n : ℕ) → 2 * n / 2 ≡ n
    half n = omega arith

    half_below : (n : ℕ) → (2 * suc n - 1) / 2 ≡ n
    half_below n = omega arith

lower_odd : (q : ℕ) → bit_and (2 * q + 1) (2 * q) ≡ 2 * q
lower_odd q =
    ground
      (arith, bit_and-digit (2 * q + 1) (2 * q), ap₂ bit_and (half q) (half_odd q), bit_and_self q)
  where
    half : (n : ℕ) → (2 * n + 1) / 2 ≡ n
    half n = omega arith

    half_odd : (n : ℕ) → 2 * n / 2 ≡ n
    half_odd n = omega arith

abbrev pub IsPowerOfTwo : ℕ → Type 0
IsPowerOfTwo x = (k : ℕ) × (x ≡ 2 ^ k)

parity : (x : ℕ) → (q : ℕ) × ((x ≡ 2 * q) ⊎ (x ≡ 2 * q + 1)) × (q ≤ x / 2)
parity x = (x / 2, omega arith, omega arith)

lowered : (x y : ℕ) → x ≡ y → bit_and x (x - 1) ≡ 0 → bit_and y (y - 1) ≡ 0
lowered x y e h = subst (λ (t : ℕ). bit_and t (t - 1) ≡ 0) e h

power_step :
    (x q : ℕ)
    → 0 < x
    → bit_and x (x - 1) ≡ 0
    → (x ≡ 2 * q) ⊎ (x ≡ 2 * q + 1)
    → (0 < q → bit_and q (q - 1) ≡ 0 → IsPowerOfTwo q)
    → IsPowerOfTwo x
power_step x zero p e (inl even) half = absurd (omega arith)
power_step x (suc q) p e (inl even) half =
    let drop : suc q - 1 ≡ q = omega arith in
    let r =
      half (omega arith) (rw drop (omega (arith, lower_even q, lowered x (2 * suc q) even e))) in
    (suc r.0, omega (arith, r.1, two_pow-suc r.0))
power_step x q p e (inr odd) half =
    let drop : 2 * q + 1 - 1 ≡ 2 * q = omega arith in
    (0, omega (arith, lower_odd q, rw drop at (lowered x (2 * q + 1) odd e)))

-- With its lowest bit taken away a power of two is 0, and no other number is.
power_below : (n x : ℕ) → x ≤ n → 0 < x → bit_and x (x - 1) ≡ 0 → IsPowerOfTwo x
power_below zero x h p e = absurd (omega arith)
power_below (suc n) x h p e =
    let q = parity x in
    power_step x q.0 p e q.1
      (λ pos zero_below. power_below n q.0 (omega (arith, q.2)) pos zero_below)

power_lowered : (k : ℕ) → bit_and (2 ^ k) (2 ^ k - 1) ≡ 0
power_lowered zero = refl
power_lowered (suc k) =
    subst (λ (t : ℕ). bit_and t (t - 1) ≡ 0) (twice k)
      (even_case (2 ^ k) (two_pow-pos k) (power_lowered k))
  where
    twice : (j : ℕ) → 2 * 2 ^ j ≡ 2 ^ suc j
    twice j = omega (arith, two_pow-suc j)

    even_case : (y : ℕ) → 1 ≤ y → bit_and y (y - 1) ≡ 0 → bit_and (2 * y) (2 * y - 1) ≡ 0
    even_case zero h e = absurd (omega arith)
    even_case (suc y) h e =
        let drop : suc y - 1 ≡ y = omega arith in omega (arith, lower_even y, rw drop at e)

pub IsPowerOfTwo-iff : (x : ℕ) → 0 < x → (bit_and x (x - 1) ≡ 0) ↔ IsPowerOfTwo x
IsPowerOfTwo-iff x p = (
  power_below x x (omega arith) p,
  λ k. subst (λ (t : ℕ). bit_and t (t - 1) ≡ 0) (sym k.1) (power_lowered k.0),
)
