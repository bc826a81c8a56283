-- ===== src/Integer/Arith/Power.antt =====
-- src/integer.c: `pigen_integer_power`, which squares and multiplies.
use pigen.Common.{
  ◌⊎◌, [], ◌∷◌, ℕ, zero, suc, ◌+◌, ◌*◌, ◌/◌, ◌%◌, ◌^◌, ◌≤◌, ◌<◌, ◌≡◌, ◌≢◌, refl, sym, ap, ap₂,
  subst, ◌∙◌, false, List, arith, Bool-cases, inl, inr, ◌==◌, ==_iff, if◌then◌else◌, if_cases,
  length, size_max,
}
use pigen.Common.Int.{ℤ, magnitude, ◌*ℤ◌, ◌^ℤ◌, magnitude-mul}
use native.Mathlib.Nat.{mul-le-mul_left, mul-le-mul_right}
use pigen.Common.Powers.{two_pow-suc, two_pow-add, two_pow_mono}
use pigen.Common.IntPower.{
  power_even, power_odd, round_product-le, square-le, mul_one, magnitude-mul_pos,
}
use pigen.Magnitude.Value.{value, radix, radix-le-value, IsNormal}
use pigen.Magnitude.Width.{radix-two_pow}
use pigen.Integer.{IntegerTable, invalid_id, integer_get}
use pigen.Integer.Table.{
  IsTable, Denotes, Extends, Extends-trans, Extends-Denotes, Yields, IsFull, Extends-IsFull,
}
use pigen.Integer.Arith.{integer_multiply_bounded}
use pigen.Integer.Arith.Product.{IsRefused, integer_multiply_bounded-Yields}

abbrev power_squared : (ℕ → IntegerTable → IntegerTable × ℕ) → IntegerTable × ℕ → IntegerTable × ℕ
power_squared next (t, factor) = if factor == invalid_id then (t, invalid_id) else next factor t

-- The second half of a round; `next` is the next one.
abbrev power_product :
    (ℕ → ℕ → IntegerTable → IntegerTable × ℕ) → ℕ → ℕ → ℕ → IntegerTable × ℕ → IntegerTable × ℕ
power_product next m power factor (t, result) =
    let squared = power_squared (next result) (integer_multiply_bounded t factor factor m) in
    if result == invalid_id
    then (t, invalid_id)
    else if power / 2 == 0
    then (t, result)
    else squared

-- The loop; `fuel` bounds its rounds, and ends them with the invalid id.
unfoldable pub power_loop : ℕ → ℕ → ℕ → ℕ → ℕ → IntegerTable → IntegerTable × ℕ
power_loop zero m power result factor t = (t, invalid_id)
power_loop (suc fuel) m power result factor t =
    if power == 0
    then (t, result)
    else power_product (λ (r f : ℕ) (u : IntegerTable). power_loop fuel m (power / 2) r f u) m power
        factor (if power % 2 == 1 then integer_multiply_bounded t result factor m else (t, result))

-- Why a power `z` has no id, where the code has got to the table `u`: a table without room for the
-- power, for 0, 1 or -1, or for a factor no larger than the power.
pub data IsPowerRefused (u : IntegerTable) (z : ℤ) (m : ℕ) : Type 0 where
  no_bits : m ≡ 0 → IsPowerRefused u z m
  wide : 2 ^ m ≤ magnitude z → IsPowerRefused u z m
  full :
      (y : ℤ) → (magnitude y ≤ 1) ⊎ (magnitude y ≤ magnitude z) → IsFull u y → IsPowerRefused u z m

-- The magnitude of as many limbs as there are bits to count is a wide one.
limbs_wide :
    (xs ys : List ℕ) (m : ℕ)
    → IsNormal xs
    → IsNormal ys
    → 1 ≤ value xs
    → 1 ≤ value ys
    → m + 64 ≤ (length xs + length ys) * 32
    → 2 ^ m ≤ value xs * value ys
limbs_wide [] ys m n k l p h = absurd (omega arith)
limbs_wide (x ∷ xs) [] m n k l p h = absurd (omega arith)
limbs_wide (x ∷ xs) (y ∷ ys) m n k l p h = omega (
  arith,
  two_pow_mono {m = m} {n = length xs * 32 + length ys * 32} (omega (arith, h)),
  two_pow-add (length xs * 32) (length ys * 32),
  ap₂ ◌*◌ (radix-two_pow (length xs)) (radix-two_pow (length ys)),
  mul-le-mul_left (radix (length xs)) (radix-le-value y ys k),
  mul-le-mul_right (value (y ∷ ys)) (radix-le-value x xs n),
)

pub valid_id : (t : IntegerTable) (id : ℕ) (x : ℤ) → Denotes t id x → (id == invalid_id) ≡ false
unfolding integer_get
valid_id t id x d = elim (Bool-cases (id == invalid_id)) [
  | inl e ↦ cc (rw e at d.found)
  | inr e ↦ e
]

module _ (t : IntegerTable) (z : ℤ) (m : ℕ) where
  abbrev pub IsPower : IntegerTable × ℕ → Type 0
  IsPower r = Yields t (IsPowerRefused r.0 z m) z r

  pub stop :
      (w : IntegerTable) → IsTable w → Extends t w → IsPowerRefused w z m → IsPower (w, invalid_id)
  stop w v e why = record { table = v; extends = e; result = inr (refl, why) }

  pub done :
      (w : IntegerTable) (id : ℕ) → IsTable w → Extends t w → Denotes w id z → IsPower (w, id)
  done w id v e d = record { table = v; extends = e; result = inl d }

  -- The loop for a bound of 64 bits.
  module _ (size : m ≤ size_max) where
    refused :
        (w u : IntegerTable) (a b : ℤ)
        → Extends w u
        → 1 ≤ magnitude a
        → 1 ≤ magnitude b
        → magnitude (a *ℤ b) ≤ magnitude z
        → IsRefused w a b m
        → IsPowerRefused u z m
    refused w u a b f p q l (IsRefused.no_bits h) = no_bits h
    refused w u a b f p q l (IsRefused.too_many_limbs left right i j n k h) = wide (
        omega (
          arith,
          l,
          magnitude-mul a b,
          ap₂ ◌*◌ i j,
          limbs_wide left right m n k (omega (arith, i, p)) (omega (arith, j, q))
              (omega (arith, h, size)),
        ))
    refused w u a b f p q l (IsRefused.wide h) = wide (omega (arith, h, l))
    refused w u a b f p q l (IsRefused.full h) = full (a *ℤ b) (inr l) (Extends-IsFull (a *ℤ b) f h)

    -- A product that the loop goes on with, or stops at.
    product-IsPower :
        (w : IntegerTable) (i j : ℕ) (a b : ℤ) (next : IntegerTable × ℕ → IntegerTable × ℕ)
        → Extends t w
        → IsTable w
        → Denotes w i a
        → Denotes w j b
        → 1 ≤ magnitude a
        → 1 ≤ magnitude b
        → magnitude (a *ℤ b) ≤ magnitude z
        → ((u : IntegerTable) → next (u, invalid_id) ≡ (u, invalid_id))
        → ((r : IntegerTable × ℕ)
            → IsTable r.0
            → Extends t r.0
            → Extends w r.0
            → Denotes r.0 r.1 (a *ℤ b)
            → IsPower (next r))
        → IsPower (next (integer_multiply_bounded w i j m))
    product-IsPower w i j a b next e v d f p q l g h =
        let r = integer_multiply_bounded w i j m in
        let y = integer_multiply_bounded-Yields w i j a b m v d f in
        elim y.result [
          | inl k ↦ h r y.table (Extends-trans e y.extends) y.extends k
          | inr k ↦
              subst IsPower (sym (ap (λ (id : ℕ). next (r.0, id)) k.0 ∙ g r.0)) (
                stop r.0 y.table (Extends-trans e y.extends)
                  (refused w r.0 a b y.extends p q l k.1))
        ]

    -- The second half of a round: `q` is what is left of the exponent.
    square-IsPower :
        (next : ℕ → ℕ → IntegerTable → IntegerTable × ℕ) (w : IntegerTable)
        (power factor result : ℕ) (a b : ℤ)
        → Extends t w
        → IsTable w
        → Denotes w result a
        → Denotes w factor b
        → 1 ≤ magnitude a
        → 1 ≤ magnitude b
        → a *ℤ (b *ℤ b) ^ℤ (power / 2) ≡ z
        → ((r : IntegerTable × ℕ)
            → IsTable r.0
            → Extends t r.0
            → Denotes r.0 result a
            → Denotes r.0 r.1 (b *ℤ b)
            → IsPower (next result r.1 r.0))
        → IsPower (power_product next m power factor (w, result))
    unfolding ◌^ℤ◌
    square-IsPower next w power factor result a b e v d f k l q h =
        if_cases IsPower (result == invalid_id) (λ c. cc (c, valid_id w result a d))
          (λ c.
            if_cases IsPower (power / 2 == 0)
              (λ g. done w result v e (
                subst (Denotes w result)
                  (sym (mul_one a)
                    ∙ ap (λ (n : ℕ). a *ℤ (b *ℤ b) ^ℤ n) (sym ((==_iff (power / 2) 0).0 g))
                    ∙ q)
                  d))
              (λ g.
                product-IsPower w factor factor b b (power_squared (next result)) e v f f l l
                  (less (power / 2) (ground arith) q) (λ u. refl)
                  (λ r y x o n.
                    if_cases IsPower (r.1 == invalid_id) (λ i. cc (i, valid_id r.0 r.1 (b *ℤ b) n))
                      (λ i. h r y x (Extends-Denotes o d) n))))
      where
        less : (n : ℕ) → n ≢ 0 → a *ℤ (b *ℤ b) ^ℤ n ≡ z → magnitude (b *ℤ b) ≤ magnitude z
        less zero ne s = absurd (ne refl)
        less (suc n) ne s = omega (arith, square-le a b n k l, ap magnitude s)

    -- A round, before which `a` times the power of `b` is the power that is wanted.
    round-IsPower :
        (next : ℕ → ℕ → IntegerTable → IntegerTable × ℕ) (w : IntegerTable)
        (power factor result : ℕ) (a b : ℤ)
        → Extends t w
        → IsTable w
        → Denotes w result a
        → Denotes w factor b
        → 1 ≤ magnitude a
        → 1 ≤ magnitude b
        → a *ℤ b ^ℤ power ≡ z
        → ((i : ℕ) (c : ℤ) (r : IntegerTable × ℕ)
            → IsTable r.0
            → Extends t r.0
            → Denotes r.0 i c
            → Denotes r.0 r.1 (b *ℤ b)
            → 1 ≤ magnitude c
            → c *ℤ (b *ℤ b) ^ℤ (power / 2) ≡ z
            → IsPower (next i r.1 r.0))
        → IsPower (
            power_product next m power factor
              (if power % 2 == 1 then integer_multiply_bounded w result factor m else (w, result)))
    round-IsPower next w power factor result a b e v d f k l q h =
        if_cases (λ (r : IntegerTable × ℕ). IsPower (power_product next m power factor r))
          (power % 2 == 1)
          (λ odd.
            let n = odd_power (ground arith) in
            product-IsPower w result factor a b (power_product next m power factor) e v d f k l
              (odd_le (ground arith)) (λ u. refl)
              (λ r y x o p.
                square-IsPower next r.0 power factor r.1 (a *ℤ b) b x y p (Extends-Denotes o f)
                  (magnitude-mul_pos a b k l) l n
                  (λ s g i j c. h r.1 (a *ℤ b) s g i j c (magnitude-mul_pos a b k l) n)))
          (λ even.
            let n = even_power (ground arith) in
            square-IsPower next w power factor result a b e v d f k l n
              (λ s g i j c. h result a s g i j c k n))
      where
        odd_power : power % 2 ≡ 1 → a *ℤ b *ℤ (b *ℤ b) ^ℤ (power / 2) ≡ z
        odd_power o =
            let half : suc (power / 2 + power / 2) ≡ power = omega arith in
            power_odd a b (power / 2) ∙ ap (λ (n : ℕ). a *ℤ b ^ℤ n) half ∙ q

        even_power : power % 2 ≢ 1 → a *ℤ (b *ℤ b) ^ℤ (power / 2) ≡ z
        even_power o =
            let half : power / 2 + power / 2 ≡ power = omega arith in
            power_even a b (power / 2) ∙ ap (λ (n : ℕ). a *ℤ b ^ℤ n) half ∙ q

        odd_le : power % 2 ≡ 1 → magnitude (a *ℤ b) ≤ magnitude z
        odd_le o =
            let half : suc (power / 2 + power / 2) ≡ power = omega arith in
            omega (
              arith,
              round_product-le a b (power / 2) l,
              ap (λ (n : ℕ). magnitude (a *ℤ b ^ℤ n)) half,
              ap magnitude q,
            )

    pub power_loop-IsPower :
        (fuel power result factor : ℕ) (a b : ℤ) (w : IntegerTable)
        → Extends t w
        → IsTable w
        → Denotes w result a
        → Denotes w factor b
        → 1 ≤ magnitude a
        → 1 ≤ magnitude b
        → a *ℤ b ^ℤ power ≡ z
        → power < 2 ^ fuel
        → IsPower (power_loop (suc fuel) m power result factor w)
    unfolding power_loop ◌^ℤ◌
    power_loop-IsPower zero power result factor a b w e v d f k l q bits =
        let c : power ≡ 0 = omega arith in
        rw c (done w result v e (subst (Denotes w result) (sym (mul_one a) ∙ rw c at q) d))
    power_loop-IsPower (suc fuel) power result factor a b w e v d f k l q bits =
        if_cases IsPower (power == 0)
          (λ c. done w result v e (
            subst (Denotes w result)
              (sym (mul_one a) ∙ ap (λ (n : ℕ). a *ℤ b ^ℤ n) (sym ((==_iff power 0).0 c)) ∙ q) d))
          (λ c.
            round-IsPower (power_loop (suc fuel) m (power / 2)) w power factor result a b e v d f k
              l q
              (λ i x r y g n o s u.
                power_loop-IsPower fuel (power / 2) i r.1 x (b *ℤ b) r.0 g y n o s
                  (magnitude-mul_pos b b l l) u (omega (arith, two_pow-suc fuel))))
