-- ===== src/Integer/Read/Widths.antt =====
-- src/integer.c: the widths in bits. A table of fewer than 2 ^ 59 limbs has none that overflow.
use pigen.Common.{
  ℕ, zero, suc, ◌+◌, ◌-◌, ◌*◌, ◌^◌, ◌≤◌, ◌<◌, ◌≡◌, ◌≢◌, refl, ◌∙◌, Bool, true, false, ◌&&◌, List,
  Option, none, some, arith, ◌==◌, ==_iff, if◌then◌else◌, size_max, length, Bool-cases, inl, inr,
  ◌↔◌,
}
use pigen.Common.Int.{ℤ, pos, negsuc, signed}
use pigen.Common.Powers.{IsWidth, IsWidth-le, two_pow-suc, two_pow_mono}
use pigen.Common.Bits.{IsPowerOfTwo}
use pigen.Magnitude.{magnitude_width}
use pigen.Magnitude.PowerOfTwo.{magnitude_is_power_of_two, magnitude_is_power_of_two_iff}
use pigen.Magnitude.Value.{value, some_limbs-value, no_limbs-value}
use pigen.Magnitude.Width.{limb_max, magnitude_width-IsWidth, magnitude_width-lt-size_max}
use pigen.Integer.{Integer, IntegerTable, integer_get, integer_limbs}
use pigen.Integer.Table.{IsTable, Denotes}
use pigen.Integer.Arith.Operand.{operand}
use pigen.Integer.Read.{
  width_of_limbs, unsigned_width_known, pigen_integer_unsigned_width, signed_width_limbs,
  signed_width_known, pigen_integer_signed_width,
}

-- `w` bits of two's complement hold the integer.
abbrev FitsSigned : ℕ → ℤ → Type 0
FitsSigned w (pos n) = 2 * n < 2 ^ w
FitsSigned w (negsuc n) = 2 * suc n ≤ 2 ^ w

-- A width of at least one bit for which the integer fits, and no smaller one of at least one bit
-- does.
abbrev pub IsSignedWidth : ℕ → ℤ → Type 0
IsSignedWidth w x = (1 ≤ w) × FitsSigned w x × ((k : ℕ) → 1 ≤ k → FitsSigned k x → w ≤ k)

-- `w + 1` bits are enough below `2 ^ w`.
doubled : (w n : ℕ) → n < 2 ^ w → 2 * n < 2 ^ (w + 1)
doubled w n h = let e : w + 1 ≡ suc w = omega arith in rw e (omega (arith, two_pow-suc w))

nonneg_least : (w n k : ℕ) → IsWidth w n → 1 ≤ k → 2 * n < 2 ^ k → w + 1 ≤ k
nonneg_least w n zero h p f = absurd (omega arith)
nonneg_least w n (suc k) h p f = omega (arith, IsWidth-le w k n h (omega (arith, two_pow-suc k)))

width_nonneg : (w n : ℕ) → IsWidth w n → IsSignedWidth (w + 1) (pos n)
width_nonneg w n h = (omega arith, doubled w n h.0, λ k p f. nonneg_least w n k h p f)

negative_least : (w n k : ℕ) → IsWidth w n → n ≢ 2 ^ (k - 1) → 1 ≤ k → 2 * n ≤ 2 ^ k → w + 1 ≤ k
negative_least w n zero h ne p f = absurd (omega arith)
negative_least w n (suc k) h ne p f =
    let e : suc k - 1 ≡ k = omega arith in
    omega (arith, IsWidth-le w k n h (omega (arith, rw e at ne, two_pow-suc k)))

width_negative :
    (w n : ℕ) → IsWidth w (suc n) → ¬ IsPowerOfTwo (suc n) → IsSignedWidth (w + 1) (negsuc n)
width_negative w n h np = (
  omega arith,
  omega (arith, doubled w (suc n) h.0),
  λ k p f. negative_least w (suc n) k h (λ e. np (k - 1, e)) p f,
)

power_least : (w n k : ℕ) → IsWidth w n → 0 < n → 1 ≤ k → 2 * n ≤ 2 ^ k → w ≤ k
power_least w n zero h z p f = absurd (omega arith)
power_least w n (suc k) h z p f = IsWidth-le w (suc k) n h (omega arith)

-- A number that is not 0 needs a bit.
some_bit : (w n : ℕ) → IsWidth w (suc n) → 1 ≤ w
some_bit zero n h = absurd (omega (arith, h.0))
some_bit (suc w) n h = omega arith

width_power : (w n : ℕ) → IsWidth w (suc n) → IsPowerOfTwo (suc n) → IsSignedWidth w (negsuc n)
width_power w n h p = (
  some_bit w n h,
  ground (
    arith,
    p.1,
    two_pow-suc p.0,
    two_pow_mono {m = suc p.0} {n = w},
    two_pow_mono {m = w} {n = p.0},
  ),
  λ k q f. power_least w (suc n) k h (omega arith) q f,
)

-- The width that the code adds a bit to, or not.
width_by_sign :
    (s b : Bool) (w m : ℕ)
    → IsWidth w m
    → 0 < m
    → ((b ≡ true) ↔ IsPowerOfTwo m)
    → IsSignedWidth (if s && b then w else w + 1) (signed s m)
width_by_sign s b w zero h p i = absurd (omega arith)
width_by_sign false b w (suc m) h p i = width_nonneg w (suc m) h
width_by_sign true true w (suc m) h p i =
    let e : signed true (suc m) ≡ negsuc m = ground arith in rw e (width_power w m h (i.0 refl))
width_by_sign true false w (suc m) h p i =
    let e : signed true (suc m) ≡ negsuc m = ground arith in
    rw e (width_negative w m h (λ q. cc (i.1 q)))

-- Fewer limbs than would make a width of SIZE_MAX.
width-ne-size_max :
    (xs : List ℕ) → length xs < limb_max → (magnitude_width xs (length xs) == size_max) ≡ false
width-ne-size_max xs h = ground (arith, magnitude_width-lt-size_max xs h)

zero-IsSignedWidth : IsSignedWidth 1 (pos 0)
zero-IsSignedWidth = (omega arith, omega arith, λ k p f. p)

abbrev pub IsUnsignedWidth : ℕ → ℤ → Type 0
IsUnsignedWidth w (pos zero) = w ≡ 1
IsUnsignedWidth w (pos (suc n)) = IsWidth w (suc n)
IsUnsignedWidth w (negsuc n) = w ≡ 0

no_width : (m : ℕ) → m ≢ 0 → IsUnsignedWidth 0 (signed true m)
no_width zero ne = absurd (ne refl)
no_width (suc m) ne = let e : signed true (suc m) ≡ negsuc m = ground arith in rw e refl

some_width : (w m : ℕ) → 0 < m → IsWidth w m → IsUnsignedWidth w (pos m)
some_width w zero p h = absurd (omega arith)
some_width w (suc m) p h = h

width_of_limbs-le : (limbs : Option (List ℕ)) (count : ℕ) → width_of_limbs limbs count ≤ size_max
unfolding width_of_limbs magnitude_width
width_of_limbs-le none count = omega arith
width_of_limbs-le (some limbs) zero = omega arith
width_of_limbs-le (some limbs) (suc count) = ground arith

unsigned_width_known-le :
    (t : IntegerTable) (k : Option Integer) → unsigned_width_known t k ≤ size_max
unfolding unsigned_width_known
unsigned_width_known-le t none = omega arith
unsigned_width_known-le t (some k) =
    ground (arith, width_of_limbs-le (integer_limbs t k) k.limb_count)

-- The unsigned width is one of 64 bits, in every table.
pub unsigned_width-le : (t : IntegerTable) (id : ℕ) → pigen_integer_unsigned_width t id ≤ size_max
unfolding pigen_integer_unsigned_width
unsigned_width-le t id = unsigned_width_known-le t (integer_get t id)

module _ (t : IntegerTable) (id : ℕ) (x : ℤ) (v : IsTable t) (d : Denotes t id x)
    (few : length t.limbs < limb_max) where
  -- In a canonical table of fewer than limb_max limbs, the signed width of an id is at least
  -- one, and is the least such number of bits of two's complement that holds its integer.
  pub pigen_integer_signed_width-IsSignedWidth : IsSignedWidth (pigen_integer_signed_width t id) x
  unfolding pigen_integer_signed_width signed_width_known signed_width_limbs
  pigen_integer_signed_width-IsSignedWidth =
      let p = operand t id x v d in
      rw (p.found, ← p.means)
        (elim (Bool-cases (p.entry.limb_count == 0)) [
          | inl z ↦ rw z (
              let zero_value : value p.limbs ≡ 0 =
                no_limbs-value p.limbs (p.count ∙ (==_iff _ _).0 z) in
              rw (p.unsigned zero_value, zero_value) zero-IsSignedWidth)
          | inr nz ↦
              rw (nz, p.pointer (ground arith), ← p.count)
                (rw (width-ne-size_max p.limbs (omega (arith, p.few))) (
                  width_by_sign p.entry.negative (magnitude_is_power_of_two p.limbs)
                    (magnitude_width p.limbs (length p.limbs)) (value p.limbs)
                    (magnitude_width-IsWidth p.limbs p.limbs32 p.normal (omega (arith, p.few)))
                    (some_limbs-value p.limbs (ground (arith, p.count)) p.normal)
                    (magnitude_is_power_of_two_iff p.limbs p.limbs32)))
        ])

  -- In a canonical table of fewer than limb_max limbs, the unsigned width of an id is the number
  -- of bits of its integer, 1 for 0, and 0 for a negative integer.
  pub pigen_integer_unsigned_width-IsUnsignedWidth :
      IsUnsignedWidth (pigen_integer_unsigned_width t id) x
  unfolding pigen_integer_unsigned_width unsigned_width_known width_of_limbs
  pigen_integer_unsigned_width-IsUnsignedWidth =
      let p = operand t id x v d in
      rw (p.found, ← p.means)
        (elim (Bool-cases p.entry.negative) [
          | inl neg ↦ rw neg (no_width (value p.limbs) (λ z. cc (p.unsigned z)))
          | inr nonneg ↦ rw nonneg (elim (Bool-cases (p.entry.limb_count == 0)) [
            | inl z ↦
                let zero_value : value p.limbs ≡ 0 =
                  no_limbs-value p.limbs (p.count ∙ (==_iff _ _).0 z) in
                rw (z, zero_value) refl
            | inr nz ↦
                rw (nz, p.pointer (ground arith), ← p.count)
                  (some_width (magnitude_width p.limbs (length p.limbs)) (value p.limbs)
                    (some_limbs-value p.limbs (ground (arith, p.count)) p.normal)
                    (magnitude_width-IsWidth p.limbs p.limbs32 p.normal (omega (arith, p.few))))
          ])
        ])
