-- ===== src/Common/Int.antt =====
-- Signed integers over the native numbers, under the library's names (its ℤ stands on the unary ℕ).
use pigen.Common.Tests.{leb, same, if◌then◌else◌}
use Prim.Native.Nat.{ℕ, zero, suc, ◌+◌, ◌-◌, ◌*◌, compare, Ordering}
use mathlib.Core.Path.{◌≡◌}
use mathlib.Core.Bool.{Bool, true, false, not}
use native.Mathlib.Omega.{arith}

-- `negsuc n` is -(n + 1).
pub data ℤ : Type 0 where
  pos : ℕ → ℤ
  negsuc : ℕ → ℤ

abbrev pos_part : ℤ → ℕ
pos_part (pos n) = n
pos_part (negsuc n) = 0

abbrev neg_part : ℤ → ℕ
neg_part (pos n) = 0
neg_part (negsuc n) = suc n

-- a - b, as an integer.
abbrev sub_ℕ : ℕ → ℕ → ℤ
sub_ℕ a b = if leb b a then pos (a - b) else negsuc (b - a - 1)

infixl 65 ◌+ℤ◌ ◌-ℤ◌
infixl 70 ◌*ℤ◌
unfoldable pub ◌+ℤ◌ : ℤ → ℤ → ℤ
a +ℤ b = sub_ℕ (pos_part a + pos_part b) (neg_part a + neg_part b)

unfoldable pub ◌-ℤ◌ : ℤ → ℤ → ℤ
a -ℤ b = sub_ℕ (pos_part a + neg_part b) (neg_part a + pos_part b)

unfoldable pub ◌*ℤ◌ : ℤ → ℤ → ℤ
a *ℤ b =
    sub_ℕ (pos_part a * pos_part b + neg_part a * neg_part b)
      (pos_part a * neg_part b + neg_part a * pos_part b)

unfoldable pub negate : ℤ → ℤ
negate a = sub_ℕ (neg_part a) (pos_part a)

infix 75 ◌^ℤ◌
unfoldable pub ◌^ℤ◌ : ℤ → ℕ → ℤ
a ^ℤ zero = pos 1
a ^ℤ suc n = (a ^ℤ n) *ℤ a

-- The integer of a sign and a magnitude; zero has no sign.
abbrev pub signed : Bool → ℕ → ℤ
signed true m = sub_ℕ 0 m
signed false m = pos m

unfoldable pub magnitude : ℤ → ℕ
magnitude a = pos_part a + neg_part a

pub magnitude-signed : (s : Bool) (m : ℕ) → magnitude (signed s m) ≡ m
unfolding magnitude
magnitude-signed true m = ground arith
magnitude-signed false m = omega arith

pub signed-not : (s : Bool) (m : ℕ) → signed (not s) m ≡ negate (signed s m)
unfolding negate
signed-not true m = ground arith
signed-not false m = ground arith

pub signed-add : (s : Bool) (m n : ℕ) → signed s m +ℤ signed s n ≡ signed s (m + n)
unfolding ◌+ℤ◌
signed-add true m n = ground arith
signed-add false m n = ground arith

-- The sum of opposite signs is the difference of the magnitudes, under the sign of the larger.
pub signed-add_opposite :
    (s : Bool) (m n d : ℕ) → d + n ≡ m → signed s m +ℤ signed (not s) n ≡ signed s d
unfolding ◌+ℤ◌
signed-add_opposite true m n d e = ground arith
signed-add_opposite false m n d e = ground arith

+ℤ_comm : (a b : ℤ) → a +ℤ b ≡ b +ℤ a
unfolding ◌+ℤ◌
+ℤ_comm a b = ground arith

pub add-negate : (a b : ℤ) → a +ℤ negate b ≡ a -ℤ b
unfolding ◌+ℤ◌ ◌-ℤ◌ negate
add-negate a b = ground arith

abbrev pub compare_ℤ : ℤ → ℤ → Ordering
compare_ℤ a b = compare (pos_part a + neg_part b) (pos_part b + neg_part a)

pub signed-add_opposite_larger :
    (s : Bool) (m n d : ℕ) → d + m ≡ n → signed s m +ℤ signed (not s) n ≡ signed (not s) d
unfolding ◌+ℤ◌
signed-add_opposite_larger true m n d e = ground arith
signed-add_opposite_larger false m n d e = ground arith

pub signed_zero-negate : (s : Bool) (m : ℕ) → m ≡ 0 → signed s m ≡ negate (signed s m)
unfolding negate
signed_zero-negate true m e = ground arith
signed_zero-negate false m e = ground arith

pub signed-mul : (r s : Bool) (m n : ℕ) → signed r m *ℤ signed s n ≡ signed (not (same r s)) (m * n)
unfolding ◌*ℤ◌
signed-mul true true zero n = ground arith
signed-mul true true (suc m) zero = ground arith
signed-mul true true (suc m) (suc n) = ground arith
signed-mul true false zero n = ground arith
signed-mul true false (suc m) n = ground arith
signed-mul false true m zero = ground arith
signed-mul false true m (suc n) = ground arith
signed-mul false false m n = ground arith

pub magnitude-mul : (a b : ℤ) → magnitude (a *ℤ b) ≡ magnitude a * magnitude b
unfolding magnitude ◌*ℤ◌
magnitude-mul (pos m) (pos n) = ground arith
magnitude-mul (pos m) (negsuc n) = ground arith
magnitude-mul (negsuc m) (pos n) = ground arith
magnitude-mul (negsuc m) (negsuc n) = ground arith
