-- ===== src/Integer/Power/Cases.antt =====
-- src/integer.c, `pigen_integer_power`: the cases before its loop, and the power.
use pigen.Common.{
  ℕ, zero, suc, ◌%◌, ◌^◌, ◌≤◌, ◌≡◌, ◌≢◌, refl, sym, ap, subst, ◌∙◌, Bool, true, false, Option, some,
  arith, inl, inr, ◌==◌, ==_iff, if◌then◌else◌, if_cases, ltb, size_max,
}
use pigen.Common.Int.{ℤ, pos, negsuc, magnitude, ◌^ℤ◌, negate, compare_ℤ}
use pigen.Common.Powers.{two_pow_mono}
use pigen.Common.IntPower.{one_mul, one_power, zero_power, minus_power, two_power-le}
use pigen.Integer.{IntegerTable, invalid_id, pigen_integer_intern_u64}
use pigen.Integer.Table.{
  IsTable, Denotes, Extends, Extends-refl, Extends-trans, Extends-Denotes, Yields, IsFull,
  Extends-IsFull,
}
use pigen.Integer.Decimal.{pigen_integer_intern_u64-Yields}
use pigen.Integer.Arith.{pigen_integer_negate, pigen_integer_compare}
use pigen.Integer.Arith.Operand.{operand}
use pigen.Integer.Arith.Order.{pigen_integer_compare-compare}
use pigen.Integer.Arith.Sum.{pigen_integer_negate-Yields}
use pigen.Integer.Arith.Power.{
  full, wide, no_bits, IsPower, stop, done, valid_id, power_loop-IsPower,
}
use pigen.Integer.Read.{
  is_zero_known, is_negative_known, is_odd_known, pigen_integer_is_zero, pigen_integer_is_negative,
  pigen_integer_is_odd, pigen_integer_to_size,
}
use pigen.Integer.Read.Words.{conversions-as_word, tests_lem}
use pigen.Integer.Power.{
  is_equal, power_counted, power_with_negative, power_with_one, pigen_integer_power,
}

is_equal_lem : (a b : ℤ) → is_equal (compare_ℤ a b) ≡ true → a ≡ b
is_equal_lem (pos a) (pos b) e = ap pos (ground arith)
is_equal_lem (pos a) (negsuc b) e = ground arith
is_equal_lem (negsuc a) (pos b) e = ground arith
is_equal_lem (negsuc a) (negsuc b) e = ap negsuc (ground arith)

same_lem : (a : ℤ) → a ≡ pos 1 → is_equal (compare_ℤ a (pos 1)) ≡ true
same_lem a e = rw e refl

magnitude_none : (a : ℤ) → a ≡ pos 0 → (magnitude a == 0) ≡ true
unfolding magnitude
magnitude_none a e = rw e refl

magnitude_pos : (n : ℕ) → magnitude (pos n) ≡ n
unfolding magnitude
magnitude_pos n = omega arith

magnitude_zero : (a : ℤ) → magnitude a ≡ 0 → a ≡ pos 0
unfolding magnitude
magnitude_zero (pos a) e = ap pos (omega arith)
magnitude_zero (negsuc a) e = absurd (omega arith)

equal_minus : {a : ℤ} → a ≡ negate (pos 1) → a ≡ negsuc 0
unfolding negate
equal_minus e = e

unequal_lem : (a : ℤ) → a ≡ negsuc 0 → is_equal (compare_ℤ a (negate (pos 1))) ≡ true
unfolding negate
unequal_lem a e = rw e refl

two-le : (a : ℤ) → a ≢ pos 0 → a ≢ pos 1 → a ≢ negsuc 0 → 2 ≤ magnitude a
unfolding magnitude
two-le (pos zero) e f g = absurd (e refl)
two-le (pos (suc zero)) e f g = absurd (f refl)
two-le (pos (suc (suc a))) e f g = omega arith
two-le (negsuc zero) e f g = absurd (g refl)
two-le (negsuc (suc a)) e f g = omega arith

module _ (t : IntegerTable) (x : ℤ) (n m : ℕ) where
  -- A step that may find no room.
  step-IsPower :
      (w : IntegerTable) (y : ℤ) (r : IntegerTable × ℕ) (next : IntegerTable × ℕ → IntegerTable × ℕ)
      → Extends t w
      → magnitude y ≤ 1
      → Yields w (IsFull w y) y r
      → ((u : IntegerTable) → next (u, invalid_id) ≡ (u, invalid_id))
      → (IsTable r.0
          → Extends t r.0
          → Extends w r.0
          → Denotes r.0 r.1 y
          → IsPower t (x ^ℤ n) m (next r))
      → IsPower t (x ^ℤ n) m (next r)
  step-IsPower w y r next e b z g h = elim z.result [
    | inl d ↦ h z.table (Extends-trans e z.extends) z.extends d
    | inr k ↦ subst (IsPower t (x ^ℤ n) m) (sym (ap (λ (id : ℕ). next (r.0, id)) k.0 ∙ g r.0)) (
        stop t (x ^ℤ n) m r.0 z.table (Extends-trans e z.extends)
          (full y (inl b) (Extends-IsFull y z.extends k.1)))
  ]

  -- -1 and 1, by the exponent's lowest bit.
  minus-IsPower :
      (w : IntegerTable) (minus one : ℕ) (odd : Bool)
      → Extends t w
      → IsTable w
      → Denotes w minus (negate (pos 1))
      → Denotes w one (pos 1)
      → x ≡ negsuc 0
      → odd ≡ (n % 2 == 1)
      → IsPower t (x ^ℤ n) m (w, if odd then minus else one)
  unfolding negate
  minus-IsPower w minus one odd e v d o q parity = elim (minus_power n) [
    | inl h ↦
        let b : odd ≡ true = parity ∙ ground arith in
        rw b (
          done t (x ^ℤ n) m w minus v e
            (subst (Denotes w minus) (sym (ap (λ (a : ℤ). a ^ℤ n) q ∙ h.1)) d))
    | inr h ↦
        let b : odd ≡ false = parity ∙ ground arith in
        rw b (
          done t (x ^ℤ n) m w one v e
            (subst (Denotes w one) (sym (ap (λ (a : ℤ). a ^ℤ n) q ∙ h.1)) o))
  ]

  module _ (base exponent : ℕ) (size : m ≤ size_max) where
    -- The rest of a call, from a table `w` on that has 1 and -1.
    counted-IsPower :
        (w : IntegerTable) (one : ℕ)
        → Extends t w
        → IsTable w
        → Denotes w base x
        → Denotes w exponent (pos n)
        → Denotes w one (pos 1)
        → 2 ≤ magnitude x
        → IsPower t (x ^ℤ n) m (power_counted base m one w (pigen_integer_to_size w exponent))
    counted-IsPower w one e v d f o big =
        let c = (conversions-as_word w exponent (pos n) v f).0 in
        rw c (
          if_cases (λ (r : Option ℕ). IsPower t (x ^ℤ n) m (power_counted base m one w r))
            (ltb n (2 ^ 64))
            (λ fits.
              power_loop-IsPower t (x ^ℤ n) m size 64 n one base (pos 1) x w e v o d
                (unfold magnitude in omega arith) (omega (arith, big)) (one_mul (x ^ℤ n))
                (ground arith))
            (λ long. stop t (x ^ℤ n) m w v e (wide (huge (ground arith)))))
      where
        huge : 2 ^ 64 ≤ n → 2 ^ m ≤ magnitude (x ^ℤ n)
        huge l =
            omega
              (arith, two_power-le x n big, two_pow_mono {m = m} {n = n} (omega (arith, size, l)))

    negative-IsPower :
        (w : IntegerTable) (one : ℕ) (odd : Bool)
        → Extends t w
        → IsTable w
        → Denotes w base x
        → Denotes w exponent (pos n)
        → Denotes w one (pos 1)
        → x ≢ pos 0
        → x ≢ pos 1
        → odd ≡ (n % 2 == 1)
        → IsPower t
            (x ^ℤ n)
            m
            (power_with_negative base exponent m odd one (pigen_integer_negate w one))
    negative-IsPower w one odd e v d f o nz nu parity =
        step-IsPower w (negate (pos 1)) (pigen_integer_negate w one)
          (power_with_negative base exponent m odd one) e (unfold magnitude negate in omega arith)
          (pigen_integer_negate-Yields w one (pos 1) v o) (λ u. refl)
          (λ y g h k.
            let r = pigen_integer_negate w one in
            let c =
              pigen_integer_compare-compare r.0 base r.1 x (negate (pos 1)) y (Extends-Denotes h d)
                k in
            if_cases (IsPower t (x ^ℤ n) m) (r.1 == invalid_id)
              (λ i. cc (i, valid_id r.0 r.1 (negate (pos 1)) k))
              (λ i.
                if_cases (IsPower t (x ^ℤ n) m) (is_equal (pigen_integer_compare r.0 base r.1))
                  (λ q.
                    minus-IsPower r.0 r.1 one odd g y k (Extends-Denotes h o)
                      (equal_minus (is_equal_lem x (negate (pos 1)) (ap is_equal (sym c) ∙ q)))
                      parity)
                  (λ q.
                    counted-IsPower r.0 one g y (Extends-Denotes h d) (Extends-Denotes h f)
                      (Extends-Denotes h o)
                      (two-le x nz nu (λ i. cc (ap is_equal c, q, unequal_lem x i))))))

    one-IsPower :
        (base_zero exponent_zero odd : Bool)
        → IsTable t
        → Denotes t base x
        → Denotes t exponent (pos n)
        → base_zero ≡ (magnitude x == 0)
        → exponent_zero ≡ (n == 0)
        → odd ≡ (n % 2 == 1)
        → IsPower t (x ^ℤ n) m (
            power_with_one base exponent m base_zero exponent_zero odd
              (pigen_integer_intern_u64 t 1))
    unfolding ◌^ℤ◌
    one-IsPower base_zero exponent_zero odd v d f zx zn parity =
        let r = pigen_integer_intern_u64 t 1 in
        step-IsPower t (pos 1) r (power_with_one base exponent m base_zero exponent_zero odd)
          (Extends-refl t) (unfold magnitude in omega arith)
          (pigen_integer_intern_u64-Yields t 1 v (omega arith)) (λ u. refl)
          (λ y g h k.
            let c =
              pigen_integer_compare-compare r.0 base r.1 x (pos 1) y (Extends-Denotes g d) k in
            if_cases (IsPower t (x ^ℤ n) m) (r.1 == invalid_id)
              (λ i. cc (i, valid_id r.0 r.1 (pos 1) k))
              (λ i.
                if_cases (IsPower t (x ^ℤ n) m) exponent_zero
                  (λ z. done t (x ^ℤ n) m r.0 r.1 y g (
                    subst (λ (j : ℕ). Denotes r.0 r.1 (x ^ℤ j)) (sym ((==_iff n 0).0 (sym zn ∙ z)))
                      k))
                  (λ nz.
                    if_cases (IsPower t (x ^ℤ n) m) base_zero
                      (λ z.
                        step-IsPower r.0 (pos 0) (pigen_integer_intern_u64 r.0 0)
                          (λ (s : IntegerTable × ℕ). s) g (unfold magnitude in omega arith)
                          (pigen_integer_intern_u64-Yields r.0 0 y (omega arith)) (λ u. refl)
                          (λ yy gg hh kk. done t (x ^ℤ n) m _ _ yy gg (
                            subst (Denotes _ _)
                              (zero_case ((==_iff (magnitude x) 0).0 (sym zx ∙ z))
                                (positive (sym zn ∙ nz)))
                              kk)))
                      (λ nzx.
                        if_cases (IsPower t (x ^ℤ n) m)
                          (is_equal (pigen_integer_compare r.0 base r.1))
                          (λ q. done t (x ^ℤ n) m r.0 r.1 y g (
                            subst (Denotes r.0 r.1)
                              (sym (
                                ap (λ (a : ℤ). a ^ℤ n)
                                  (is_equal_lem x (pos 1) (ap is_equal (sym c) ∙ q))
                                ∙ one_power n))
                              k))
                          (λ q.
                            negative-IsPower r.0 r.1 odd g y (Extends-Denotes g d)
                              (Extends-Denotes g f) k (not_zero (sym zx ∙ nzx))
                              (λ e. cc (ap is_equal c, q, same_lem x e)) parity)))))
      where
        positive : (n == 0) ≡ false → 1 ≤ n
        positive e = ground arith

        not_zero : (magnitude x == 0) ≡ false → x ≢ pos 0
        not_zero e q = cc (e, magnitude_none x q)

        zero_case : magnitude x ≡ 0 → 1 ≤ n → pos 0 ≡ x ^ℤ n
        zero_case e l = sym (ap (λ (a : ℤ). a ^ℤ n) (magnitude_zero x e) ∙ zero_power n l)

-- In a canonical table, pigen_integer_power of an id that stands for an integer and of one that stands
-- for a number, with maximum_bits of 64 bits, keeps the table canonical and its ids, and gives the id
-- of the power, or the invalid id for one of the reasons of IsPowerRefused: no bits are allowed, the
-- power needs more than are allowed, or the table that the call leaves has no room for an integer that
-- the code stores on the way, which is 0, 1, -1 or no larger than the power.
pub pigen_integer_power-Yields :
    (t : IntegerTable) (base exponent : ℕ) (x : ℤ) (n maximum_bits : ℕ)
    → IsTable t
    → Denotes t base x
    → Denotes t exponent (pos n)
    → maximum_bits ≤ size_max
    → IsPower t (x ^ℤ n) maximum_bits (pigen_integer_power t base exponent maximum_bits)
unfolding pigen_integer_power pigen_integer_is_zero pigen_integer_is_negative pigen_integer_is_odd
    is_zero_known is_negative_known
pigen_integer_power-Yields t base exponent x n m v d f size =
    let p = operand t base x v d in
    let q = operand t exponent (pos n) v f in
    let b = tests_lem t base x v d in
    let e = tests_lem t exponent (pos n) v f in
    let known = rw q.found at e.0 in
    let sign = rw q.found at e.1 in
    let parity = rw q.found at e.2 in
    rw (p.found, q.found)
      (if_cases (IsPower t (x ^ℤ n) m) (m == 0)
        (λ z. stop t (x ^ℤ n) m t v (Extends-refl t) (no_bits ((==_iff m 0).0 z)))
        (λ nz.
          if_cases (IsPower t (x ^ℤ n) m) q.entry.negative (λ s. cc (s, sign))
            (λ s.
              one-IsPower t x n m base exponent size (p.entry.limb_count == 0)
                (q.entry.limb_count == 0) (is_odd_known t (some q.entry)) v d f (rw p.found at b.0)
                (known ∙ ap (λ (k : ℕ). k == 0) (magnitude_pos n))
                (parity ∙ ap (λ (k : ℕ). k % 2 == 1) (magnitude_pos n)))))
