-- ===== src/Magnitude/Value.antt =====
-- src/integer.c: the number that an array of limbs stands for, and arrays with no leading zero.
use pigen.Common.{
  ℕ, zero, suc, ◌+◌, ◌*◌, ◌^◌, ◌≤◌, ◌<◌, ◌≡◌, refl, ap, ◌∙◌, ◌≢◌, List, [], ◌∷◌, ◌++◌, arith, ◌==◌,
  if◌then◌else◌, length, take, replicate, All, Bool-cases, inl, inr,
}
use pigen.Magnitude.{normalized_count, normalized}

abbrev pub value : List ℕ → ℕ
value [] = 0
value (x ∷ xs) = x + 2 ^ 32 * value xs

abbrev pub IsLimbs : List ℕ → Type 0
IsLimbs = All (λ x. x < 2 ^ 32)

-- The last limb is not 0.
abbrev pub IsNormal : List ℕ → Type 0
IsNormal [] = Unit
IsNormal (x ∷ []) = 0 < x
IsNormal (x ∷ y ∷ xs) = IsNormal (y ∷ xs)

-- 2 ^ (32 * n).
abbrev pub radix : ℕ → ℕ
radix zero = 1
radix (suc n) = 2 ^ 32 * radix n

pub radix-pos : (n : ℕ) → 0 < radix n
radix-pos zero = omega arith
radix-pos (suc n) = omega (arith, radix-pos n)

pub value-lt-radix : (xs : List ℕ) → IsLimbs xs → value xs < radix (length xs)
value-lt-radix [] h = omega arith
value-lt-radix (x ∷ xs) h = omega (arith, value-lt-radix xs h.1)

pub value-append : (xs ys : List ℕ) → value (xs ++ ys) ≡ value xs + radix (length xs) * value ys
value-append [] ys = omega arith
value-append (x ∷ xs) ys = omega (arith, value-append xs ys)

pub value-replicate_zero : (n : ℕ) → value (replicate n 0) ≡ 0
value-replicate_zero zero = refl
value-replicate_zero (suc n) = omega (arith, value-replicate_zero n)

IsNormal-tail : (x : ℕ) (xs : List ℕ) → IsNormal (x ∷ xs) → IsNormal xs
IsNormal-tail x [] h = tt
IsNormal-tail x (y ∷ xs) h = h

-- With no leading zero the highest limb counts.
pub radix-le-value : (x : ℕ) (xs : List ℕ) → IsNormal (x ∷ xs) → radix (length xs) ≤ value (x ∷ xs)
radix-le-value x [] h = omega arith
radix-le-value x (y ∷ xs) h = omega (arith, radix-le-value y xs h)

pub value-pos : (x : ℕ) (xs : List ℕ) → IsNormal (x ∷ xs) → 0 < value (x ∷ xs)
value-pos x xs h = omega (arith, radix-le-value x xs h, radix-pos (length xs))

pub some_limbs-value : (xs : List ℕ) → length xs ≢ 0 → IsNormal xs → 0 < value xs
some_limbs-value [] ne n = absurd (ne refl)
some_limbs-value (x ∷ xs) ne n = value-pos x xs n

pub no_limbs-value : (xs : List ℕ) → length xs ≡ 0 → value xs ≡ 0
no_limbs-value [] e = refl
no_limbs-value (x ∷ xs) e = absurd (omega arith)

pub length-eq_zero : (xs : List ℕ) → IsNormal xs → value xs ≡ 0 → length xs ≡ 0
length-eq_zero [] n z = refl
length-eq_zero (x ∷ xs) n z = absurd (omega (arith, value-pos x xs n))

-- A number has one array of limbs without leading zeros.
pub value-injective :
    (xs ys : List ℕ)
    → IsLimbs xs
    → IsLimbs ys
    → IsNormal xs
    → IsNormal ys
    → value xs ≡ value ys
    → xs ≡ ys
value-injective [] [] _ _ m n e = refl
value-injective [] (y ∷ ys) _ _ m n e = absurd (omega (arith, value-pos y ys n))
value-injective (x ∷ xs) [] _ _ m n e = absurd (omega (arith, value-pos x xs m))
value-injective (x ∷ xs) (y ∷ ys) h k m n e =
    ground (arith, value-injective xs ys h.1 k.1 (IsNormal-tail x xs m) (IsNormal-tail y ys n))

-- `normalized` as a recursion from the lowest limb.
abbrev trim_cons : ℕ → List ℕ → List ℕ
trim_cons x [] = if x == 0 then [] else x ∷ []
trim_cons x (y ∷ ys) = x ∷ y ∷ ys

abbrev trim : List ℕ → List ℕ
trim [] = []
trim (x ∷ xs) = trim_cons x (trim xs)

normalized_count-cons :
    (x : ℕ) (xs : List ℕ) (n : ℕ)
    → normalized_count (x ∷ xs) (suc n) ≡ (
        if normalized_count xs n == 0
        then (if x == 0 then 0 else 1)
        else suc (normalized_count xs n))
unfolding normalized_count
normalized_count-cons x xs zero = ground arith
normalized_count-cons x xs (suc n) = ground (arith, normalized_count-cons x xs n)

normalized_count-le : (xs : List ℕ) (n : ℕ) → normalized_count xs n ≤ n
unfolding normalized_count
normalized_count-le xs zero = omega arith
normalized_count-le xs (suc n) = ground (arith, normalized_count-le xs n)

take_cases :
    (x n : ℕ) (xs : List ℕ)
    → n ≤ length xs
    → take (if n == 0 then (if x == 0 then 0 else 1) else suc n) (x ∷ xs) ≡ trim_cons x (take n xs)
take_cases x zero xs h = ground arith
take_cases x (suc n) [] h = absurd (omega arith)
take_cases x (suc n) (y ∷ xs) h = ground arith

normalized-eq-trim : (xs : List ℕ) → normalized xs ≡ trim xs
unfolding normalized_count
normalized-eq-trim [] = refl
normalized-eq-trim (x ∷ xs) = rw (normalized_count-cons x xs (length xs)) (
    take_cases x (normalized_count xs (length xs)) xs (normalized_count-le xs (length xs))
    ∙ ap (trim_cons x) (normalized-eq-trim xs))

trim_cons-value : (x : ℕ) (xs : List ℕ) → value (trim_cons x xs) ≡ x + 2 ^ 32 * value xs
trim_cons-value x [] = ground arith
trim_cons-value x (y ∷ ys) = refl

value-trim : (xs : List ℕ) → value (trim xs) ≡ value xs
value-trim [] = refl
value-trim (x ∷ xs) = omega (arith, trim_cons-value x (trim xs), value-trim xs)

trim_cons-IsNormal : (x : ℕ) (xs : List ℕ) → IsNormal xs → IsNormal (trim_cons x xs)
trim_cons-IsNormal x [] h = elim (Bool-cases (x == 0)) [
  | inl e ↦ rw e tt
  | inr e ↦ rw e (ground arith)
]
trim_cons-IsNormal x (y ∷ ys) h = h

trim-IsNormal : (xs : List ℕ) → IsNormal (trim xs)
trim-IsNormal [] = tt
trim-IsNormal (x ∷ xs) = trim_cons-IsNormal x (trim xs) (trim-IsNormal xs)

trim_cons-IsLimbs : (x : ℕ) (xs : List ℕ) → x < 2 ^ 32 → IsLimbs xs → IsLimbs (trim_cons x xs)
trim_cons-IsLimbs x [] h k = elim (Bool-cases (x == 0)) [ inl e ↦ rw e tt | inr e ↦ rw e (h, tt) ]
trim_cons-IsLimbs x (y ∷ ys) h k = (h, k)

trim-IsLimbs : (xs : List ℕ) → IsLimbs xs → IsLimbs (trim xs)
trim-IsLimbs [] h = tt
trim-IsLimbs (x ∷ xs) h = trim_cons-IsLimbs x (trim xs) h.0 (trim-IsLimbs xs h.1)

trim_cons_normal : (x : ℕ) (xs : List ℕ) → IsNormal (x ∷ xs) → trim_cons x xs ≡ x ∷ xs
trim_cons_normal x [] h = ground arith
trim_cons_normal x (y ∷ ys) h = refl

trim_normal : (xs : List ℕ) → IsNormal xs → trim xs ≡ xs
trim_normal [] h = refl
trim_normal (x ∷ xs) h =
    ap (trim_cons x) (trim_normal xs (IsNormal-tail x xs h)) ∙ trim_cons_normal x xs h

-- Taking leading zeros off keeps the number, and leaves none.
pub value-normalized : (xs : List ℕ) → value (normalized xs) ≡ value xs
value-normalized xs = ap value (normalized-eq-trim xs) ∙ value-trim xs

pub normalized-IsNormal : (xs : List ℕ) → IsNormal (normalized xs)
normalized-IsNormal xs = rw (normalized-eq-trim xs) (trim-IsNormal xs)

pub normalized-IsLimbs : (xs : List ℕ) → IsLimbs xs → IsLimbs (normalized xs)
normalized-IsLimbs xs h = rw (normalized-eq-trim xs) (trim-IsLimbs xs h)

normalized_normal : (xs : List ℕ) → IsNormal xs → normalized xs ≡ xs
normalized_normal xs h = normalized-eq-trim xs ∙ trim_normal xs h
