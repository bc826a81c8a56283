-- ===== src/Integer/Arith/Shift.antt =====
-- src/integer.c: `pigen_integer_shift_left`, a product with a power of 2.
use pigen.Common.{
  ℕ, ◌+◌, ◌-◌, ◌*◌, ◌/◌, ◌^◌, ◌≤◌, ◌<◌, ◌≡◌, ◌≢◌, refl, sym, ap, subst, ◌∙◌, Bool, true, false,
  ◌||◌, not, Option, none, some, List, arith, same, inl, inr, ◌==◌, ==_iff, if◌then◌else◌, if_cases,
  length, ltb, size_max,
}
use pigen.Common.Int.{ℤ, pos, signed, magnitude, ◌*ℤ◌, signed-mul, magnitude-signed}
use pigen.Common.Powers.{IsWidth-iff, two_pow-pos}
use pigen.Magnitude.{magnitude_width, limb_bits}
use pigen.Magnitude.Value.{value, some_limbs-value, no_limbs-value}
use pigen.Magnitude.Width.{limb_max, magnitude_width-IsWidth, shifted-IsWidth}
use pigen.Magnitude.Shift.{shift_limbs, value-shift_limbs, shift_limbs-IsLimbs}
use pigen.Integer.{Integer, IntegerTable, invalid_id, integer_get, integer_limbs, integer_intern}
use pigen.Integer.Table.{IsTable, Denotes, Extends-refl, Yields, IsFull}
use pigen.Integer.Intern.{integer_intern-Yields}
use pigen.Integer.Arith.Operand.{Operand, operand}
use pigen.Integer.Arith.Sum.{Yields-at}

-- `amount` and `maximum_bits` are of type `size_t`.
unfoldable pub shift_source : IntegerTable → Integer → Option (List ℕ) → ℕ → ℕ → IntegerTable × ℕ
shift_source t k none amount maximum_bits = (t, invalid_id)
shift_source t k (some source) amount maximum_bits =
    let source_width = magnitude_width source k.limb_count in
    if ltb maximum_bits source_width || ltb (maximum_bits - source_width) amount
    then (t, invalid_id)
    else if ltb (size_max - amount / limb_bits - 1) k.limb_count
    then (t, invalid_id)
    else integer_intern t k.negative (shift_limbs source amount)

unfoldable pub shift_known : IntegerTable → ℕ → Option Integer → ℕ → ℕ → IntegerTable × ℕ
shift_known t id none amount maximum_bits = (t, invalid_id)
shift_known t id (some k) amount maximum_bits =
    if maximum_bits == 0
    then (t, invalid_id)
    else if k.limb_count == 0
    then (t, id)
    else shift_source t k (integer_limbs t k) amount maximum_bits

unfoldable pub pigen_integer_shift_left : IntegerTable → ℕ → ℕ → ℕ → IntegerTable × ℕ
pigen_integer_shift_left t id amount maximum_bits =
    shift_known t id (integer_get t id) amount maximum_bits

-- Why a shifted integer has no id.
pub data IsShiftRefused (t : IntegerTable) (x : ℤ) (maximum_bits : ℕ) : Type 0 where
  no_bits : maximum_bits ≡ 0 → IsShiftRefused t x maximum_bits
  wide : 2 ^ maximum_bits ≤ magnitude x → IsShiftRefused t x maximum_bits
  full : IsFull t x → IsShiftRefused t x maximum_bits

module _ (t : IntegerTable) (id : ℕ) (x : ℤ) (amount m : ℕ) (v : IsTable t) (d : Denotes t id x)
    (p : Operand t id x) (few : length t.limbs < limb_max) (word : amount ≤ size_max) where
  abbrev shifted : ℤ
  shifted = x *ℤ pos (2 ^ amount)

  sign : (b : Bool) → not (same b false) ≡ b
  sign b = ground arith

  product : signed p.entry.negative (value p.limbs * 2 ^ amount) ≡ shifted
  product =
      ap (λ (s : Bool). signed s (value p.limbs * 2 ^ amount)) (sym (sign p.entry.negative))
      ∙ sym (signed-mul p.entry.negative false (value p.limbs) (2 ^ amount))
      ∙ ap (λ (y : ℤ). y *ℤ pos (2 ^ amount)) p.means

  refuse :
      IsShiftRefused t shifted m → Yields t (IsShiftRefused t shifted m) shifted (t, invalid_id)
  refuse why = record { table = v; extends = Extends-refl t; result = inr (refl, why) }

  shifted_wide :
      p.entry.limb_count ≢ 0
      → (ltb m (magnitude_width p.limbs (length p.limbs))
          || ltb (m - magnitude_width p.limbs (length p.limbs)) amount)
        ≡ true
      → 2 ^ m ≤ magnitude shifted
  shifted_wide ne e =
      let w = magnitude_width p.limbs (length p.limbs) in
      let h = magnitude_width-IsWidth p.limbs p.limbs32 p.normal (omega (arith, p.few)) in
      let s =
        shifted-IsWidth amount w (value p.limbs) 0
          (some_limbs-value p.limbs (ground (arith, p.count)) p.normal) h (two_pow-pos amount) in
      ground (
        arith,
        (IsWidth-iff (amount + w) m (0 + 2 ^ amount * value p.limbs) s).1,
        ap magnitude product,
        magnitude-signed p.entry.negative (value p.limbs * 2 ^ amount),
      )

  weaken :
      (r : IntegerTable × ℕ)
      → Yields t (IsFull t shifted) shifted r
      → Yields t (IsShiftRefused t shifted m) shifted r
  weaken r z = record {
    table = z.table;
    extends = z.extends;
    result = elim z.result [ inl e ↦ inl e | inr e ↦ inr (e.0, full e.1) ];
  }

  shift_source-Yields :
      p.entry.limb_count ≢ 0
      → Yields t
          (IsShiftRefused t shifted m)
          shifted
          (shift_source t p.entry (some p.limbs) amount m)
  unfolding shift_source
  shift_source-Yields ne =
      let w = magnitude_width p.limbs (length p.limbs) in
      rw (sym p.count) (
        if_cases (Yields t (IsShiftRefused t shifted m) shifted) (ltb m w || ltb (m - w) amount)
          (λ e. refuse (wide (shifted_wide ne e)))
          (λ e.
            if_cases (Yields t (IsShiftRefused t shifted m) shifted)
              (ltb (size_max - amount / limb_bits - 1) (length p.limbs))
              (λ f. absurd (ground (arith, few, word, p.few)))
              (λ f. weaken _ (
                Yields-at t (signed p.entry.negative (value (shift_limbs p.limbs amount))) shifted _
                  (ap (signed p.entry.negative) (value-shift_limbs p.limbs amount p.limbs32)
                    ∙ product)
                  (integer_intern-Yields t p.entry.negative (shift_limbs p.limbs amount) v
                    (shift_limbs-IsLimbs p.limbs amount p.limbs32))))))

  -- Zero stays what it is.
  zero_shifted : p.entry.limb_count ≡ 0 → x ≡ shifted
  zero_shifted e =
      let z = no_limbs-value p.limbs (p.count ∙ e) in
      sym p.means
      ∙ ap (signed p.entry.negative) (omega (arith, z, ap (λ (n : ℕ). n * 2 ^ amount) z))
      ∙ product

  shift_known-Yields :
      Yields t (IsShiftRefused t shifted m) shifted (shift_known t id (some p.entry) amount m)
  unfolding shift_known
  shift_known-Yields =
      if_cases (Yields t (IsShiftRefused t shifted m) shifted) (m == 0)
        (λ z. refuse (no_bits ((==_iff m 0).0 z)))
        (λ nz.
          if_cases (Yields t (IsShiftRefused t shifted m) shifted) (p.entry.limb_count == 0)
            (λ z. record {
              table = v;
              extends = Extends-refl t;
              result =
                  inl (subst (Denotes t id) (zero_shifted ((==_iff p.entry.limb_count 0).0 z)) d);
            })
            (λ some_limbs.
              let ne : p.entry.limb_count ≢ 0 = ground arith in
              subst
                (λ (source : Option (List ℕ)).
                  Yields t (IsShiftRefused t shifted m) shifted
                    (shift_source t p.entry source amount m))
                (sym (p.pointer ne)) (shift_source-Yields ne)))

-- In a canonical table of fewer than limb_max limbs, pigen_integer_shift_left of an id that stands
-- for an integer, by an amount of 64 bits, keeps the table canonical and its ids, and gives the id of
-- the integer times 2 ^ amount, or the invalid id where no bits are allowed, where that needs more
-- bits than are allowed, or where the table has no room for it.
pub pigen_integer_shift_left-Yields :
    (t : IntegerTable) (id : ℕ) (x : ℤ) (amount maximum_bits : ℕ)
    → IsTable t
    → Denotes t id x
    → length t.limbs < limb_max
    → amount ≤ size_max
    → Yields t
        (IsShiftRefused t (x *ℤ pos (2 ^ amount)) maximum_bits)
        (x *ℤ pos (2 ^ amount))
        (pigen_integer_shift_left t id amount maximum_bits)
unfolding pigen_integer_shift_left
pigen_integer_shift_left-Yields t id x amount m v d few word =
    let p = operand t id x v d in rw p.found (shift_known-Yields t id x amount m v d p few word)
