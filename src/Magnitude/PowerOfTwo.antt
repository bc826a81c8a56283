-- ===== src/Magnitude/PowerOfTwo.antt =====
-- src/integer.c: `magnitude_is_power_of_two`.
use Prim.Native.Nat.{bit_and}
use pigen.Common.{
  ℕ, ◌+◌, ◌-◌, ◌*◌, ◌^◌, ◌≤◌, ◌<◌, ◌≡◌, refl, ap, ◌∙◌, ◌⊎◌, inl, inr, ◌↔◌, Bool, true, false, ◌||◌,
  not, List, [], ◌∷◌, arith, ◌==◌, ltb, if◌then◌else◌, Bool-cases,
}
use pigen.Common.Powers.{two_pow-add, two_pow-pos, two_pow_mono}
use pigen.Common.Bits.{IsPowerOfTwo, IsPowerOfTwo-iff}
use pigen.Magnitude.Value.{value, IsLimbs}

-- The loop, with the flag `found`.
one_bit_loop : List ℕ → Bool → Bool
one_bit_loop [] found = found
one_bit_loop (x ∷ limbs) found =
    let skip = one_bit_loop limbs found in
    let next = one_bit_loop limbs true in
    if x == 0 then skip else if found || not (bit_and x (x - 1) == 0) then false else next

pub magnitude_is_power_of_two : List ℕ → Bool
magnitude_is_power_of_two limbs = one_bit_loop limbs false

-- After a bit has been found the rest must be 0.
rest_zero : (limbs : List ℕ) → (one_bit_loop limbs true ≡ true) ↔ (value limbs ≡ 0)
unfolding one_bit_loop
rest_zero [] = (λ e. refl, λ e. refl)
rest_zero (x ∷ limbs) = ground (arith, rest_zero limbs)

found_one :
    (limbs : List ℕ) → IsLimbs limbs → one_bit_loop limbs false ≡ true → IsPowerOfTwo (value limbs)
unfolding one_bit_loop
found_one [] h e = cc
found_one (x ∷ limbs) h e = elim (Bool-cases (x == 0)) [
  | inl z ↦
      let r = found_one limbs h.1 (rw z at e) in (32 + r.0, ground (arith, r.1, two_pow-add 32 r.0))
  | inr nz ↦
      let k = (IsPowerOfTwo-iff x (ground arith)).0 (ground arith) in
      (k.0, ground (arith, k.1, rest_zero limbs))
]

-- A power of two fills one limb, or is one of the limbs above.
one_limb : (x v k : ℕ) → x < 2 ^ 32 → x + 2 ^ 32 * v ≡ 2 ^ k → (v ≡ 0) ⊎ ((x ≡ 0) × IsPowerOfTwo v)
one_limb x v k h e = elim (Bool-cases (ltb k 32)) [
  | inl low ↦ inl (small (ground arith))
  | inr high ↦ inr (large (ground arith))
]
  where
    small : k ≤ 31 → v ≡ 0
    small le = omega (arith, two_pow_mono {m = k} {n = 31} le)

    large : 32 ≤ k → (x ≡ 0) × IsPowerOfTwo v
    large le =
        let split : 2 ^ k ≡ 2 ^ 32 * 2 ^ (k - 32) =
          ap (λ (t : ℕ). 2 ^ t) (omega arith) ∙ two_pow-add 32 (k - 32) in
        (omega (arith, split), (k - 32, omega (arith, split)))

lowest_limb : (x v k : ℕ) → v ≡ 0 → x + 2 ^ 32 * v ≡ 2 ^ k → (0 < x) × (bit_and x (x - 1) ≡ 0)
lowest_limb x v k z e =
    let p : 0 < x = omega (arith, two_pow-pos k) in (p, (IsPowerOfTwo-iff x p).1 (k, omega arith))

finds_one :
    (limbs : List ℕ) → IsLimbs limbs → IsPowerOfTwo (value limbs) → one_bit_loop limbs false ≡ true
unfolding one_bit_loop
finds_one [] h k = absurd (omega (arith, k.1, two_pow-pos k.0))
finds_one (x ∷ limbs) h k = elim (one_limb x (value limbs) k.0 h.0 k.1) [
  | inl low ↦
      let b = lowest_limb x (value limbs) k.0 low k.1 in ground (arith, b, (rest_zero limbs).1 low)
  | inr high ↦ ground (arith, high.0, finds_one limbs h.1 high.1)
]

pub magnitude_is_power_of_two_iff :
    (limbs : List ℕ)
    → IsLimbs limbs
    → (magnitude_is_power_of_two limbs ≡ true) ↔ IsPowerOfTwo (value limbs)
unfolding magnitude_is_power_of_two
magnitude_is_power_of_two_iff limbs h = (found_one limbs h, finds_one limbs h)
