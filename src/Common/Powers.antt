-- ===== src/Common/Powers.antt =====
-- Powers of two, and the width of a number in bits.
use Prim.Native.Nat.{ℕ, zero, suc, ◌+◌, ◌*◌, ◌^◌, ◌≤◌, ◌<◌}
use mathlib.Core.Path.{◌≡◌, ap}
use mathlib.Core.Logic.{◌⊎◌, ◌↔◌}
use native.Mathlib.Omega.{arith}
use native.Mathlib.Nat.{pow-suc, one-le-pow, pow-le-pow_right}

pub two_pow-suc : (n : ℕ) → 2 ^ suc n ≡ 2 * 2 ^ n
two_pow-suc n = omega (arith, pow-suc 2 n)

pub two_pow-pos : (n : ℕ) → 1 ≤ 2 ^ n
two_pow-pos n = one-le-pow n 2 (omega arith)

pub two_pow_mono : {m n : ℕ} → m ≤ n → 2 ^ m ≤ 2 ^ n
two_pow_mono h = pow-le-pow_right (omega arith) h

pub two_pow-add : (a b : ℕ) → 2 ^ (a + b) ≡ 2 ^ a * 2 ^ b
two_pow-add zero b = let e : zero + b ≡ b = omega arith in rw e (omega arith)
two_pow-add (suc a) b =
    let e : suc a + b ≡ suc (a + b) = omega arith in
    rw e (
      omega
        (arith, two_pow-suc (a + b), two_pow-add a b, ap (λ (t : ℕ). t * 2 ^ b) (two_pow-suc a)))

-- `w` bits are needed, and enough, to write `v`; none are for 0.
abbrev pub IsWidth : ℕ → ℕ → Type 0
IsWidth w v = (v < 2 ^ w) × ((w ≡ 0) ⊎ (2 ^ w ≤ 2 * v))

pub IsWidth-le : (w k v : ℕ) → IsWidth w v → v < 2 ^ k → w ≤ k
IsWidth-le w k v h lt = ground (arith, two_pow_mono {m = suc k} {n = w}, two_pow-suc k)

-- Only one width fits a number.
IsWidth-unique : (w k v : ℕ) → IsWidth w v → IsWidth k v → w ≡ k
IsWidth-unique w k v h l = omega (arith, IsWidth-le w k v h l.0, IsWidth-le k w v l h.0)

-- The width bounds the number from both sides: `v < 2 ^ k` exactly when `v` fits `k` bits.
pub IsWidth-iff : (w k v : ℕ) → IsWidth w v → (w ≤ k) ↔ (v < 2 ^ k)
IsWidth-iff w k v h = ground (arith, IsWidth-le w k v h, two_pow_mono {m = w} {n = k})
