-- ===== src/Route/Width/Measured.antt =====
-- src/route.c: what it means that a width was measured, and the sum of the children's widths.
use pigen.Common.{
  ℕ, ◌+◌, ◌-◌, ◌^◌, ◌<◌, ◌≤◌, ◌≡◌, ◌≢◌, refl, sym, ap, ap₂, subst, ◌∙◌, ◌↔◌, Bool, true, false,
  ◌&&◌, not, Option, none, some, List, [], ◌∷◌, arith, ltb, ◌==◌, if_cases, All,
}
use pigen.Route.Width.{
  Width, sized, unsized, null_expression, out_of_fuel, measured, add_child, sum_widths,
  sum_children,
}

-- The code returns, and it finds exactly the widths and signs of `P`.
pub record IsMeasured (r : Width) (P : ℕ → ℕ → Type 0) : Type 0 where
  pub ends : (r ≢ null_expression) × (r ≢ out_of_fuel)
  pub means : (w s : ℕ) → (r ≡ sized w s) ↔ P w s

abbrev width_of : Width → ℕ
width_of (sized w s) = w
width_of unsized = 0
width_of null_expression = 0
width_of out_of_fuel = 0

abbrev sign_of : Width → ℕ
sign_of (sized w s) = s
sign_of unsized = 0
sign_of null_expression = 0
sign_of out_of_fuel = 0

pub refused-IsMeasured : (P : ℕ → ℕ → Type 0) → ((w s : ℕ) → ¬ P w s) → IsMeasured unsized P
refused-IsMeasured P h = record {
  ends = (λ q. cc, λ q. cc);
  means = λ w s. (λ q. cc, λ p. absurd (h w s p));
}

pub IsMeasured-iff :
    (r : Width) (P Q : ℕ → ℕ → Type 0)
    → ((w s : ℕ) → P w s → Q w s)
    → ((w s : ℕ) → Q w s → P w s)
    → IsMeasured r P
    → IsMeasured r Q
IsMeasured-iff r P Q f g h = record {
  ends = h.ends;
  means = λ w s. (λ q. f w s ((h.means w s).0 q), λ q. (h.means w s).1 (g w s q));
}

pub measured-IsMeasured : (o : Option (ℕ × ℕ)) → IsMeasured (measured o) (λ w s. o ≡ some (w, s))
measured-IsMeasured none = refused-IsMeasured _ (λ w s q. cc)
measured-IsMeasured (some (a, b)) = record {
  ends = (λ q. cc, λ q. cc);
  means = λ w s. (λ q. cc, λ q. cc);
}

-- The widths of the children add up, and their signs are the same.
abbrev pub SumsTo : (ℕ → ℕ → ℕ → Type 0) → List ℕ → ℕ → ℕ → Type 0
SumsTo P [] w s = w ≡ 0
SumsTo P (c ∷ cs) w s = (a b : ℕ) × (w ≡ a + b) × P c a s × SumsTo P cs b s

-- Of each child, where there is a list of them.
abbrev pub AllOf : (ℕ → Type 0) → Option (List ℕ) → Type 0
AllOf P none = Unit
AllOf P (some cs) = All P cs

-- At least one child, and a sum of 64 bits.
abbrev pub SumsOf : (ℕ → ℕ → ℕ → Type 0) → Option (List ℕ) → ℕ → ℕ → Type 0
SumsOf P none w s = ⊥
SumsOf P (some []) w s = ⊥
SumsOf P (some (c ∷ cs)) w s = (w < 2 ^ 64) × SumsTo P (c ∷ cs) w s

-- The sums that the loop can still find: it has added up `total`, and the sign is `sign`, unless
-- there was no child yet.
abbrev SameSign : Bool → ℕ → ℕ → Type 0
SameSign true s sign = Unit
SameSign false s sign = s ≡ sign

abbrev Sum : (ℕ → ℕ → ℕ → Type 0) → Bool → ℕ → ℕ → List ℕ → ℕ → ℕ → Type 0
Sum P first total sign cs w s =
    SameSign first s sign × (w < 2 ^ 64) × (r : ℕ) × (w ≡ total + r) × SumsTo P cs r s

other_sign :
    (first : Bool) (b sign s : ℕ)
    → (not first && not (b == sign)) ≡ true
    → SameSign first s sign
    → b ≢ s
other_sign true b sign s h k q = cc
other_sign false b sign s h k q = ground arith

same_sign :
    (first : Bool) (b sign : ℕ) → (not first && not (b == sign)) ≡ false → SameSign first b sign
same_sign true b sign h = tt
same_sign false b sign h = ground arith

module _ (measure : ℕ → Width) (P : ℕ → ℕ → ℕ → Type 0)
    (words : (c w s : ℕ) → P c w s → w < 2 ^ 64) where
  add_child-IsMeasured :
      (first : Bool) (total sign c : ℕ) (cs : List ℕ) (r : Width) (rest : ℕ → ℕ → Width)
      → IsMeasured r (P c)
      → total < 2 ^ 64
      → ((t s : ℕ) → t < 2 ^ 64 → IsMeasured (rest t s) (Sum P false t s cs))
      → IsMeasured (add_child total sign first r rest) (Sum P first total sign (c ∷ cs))
  add_child-IsMeasured first total sign c cs unsized rest p l h =
      refused-IsMeasured _ (λ w s (_, _, _, _, (x, y, _, q, _)). no_size ((p.means x s).1 q))
    where
      no_size : {x s : ℕ} → unsized ≢ sized x s
      no_size q = cc
  add_child-IsMeasured first total sign c cs null_expression rest p l h = absurd (p.ends.0 refl)
  add_child-IsMeasured first total sign c cs out_of_fuel rest p l h = absurd (p.ends.1 refl)
  add_child-IsMeasured first total sign c cs (sized a b) rest p l h =
      let here : P c a b = (p.means a b).0 refl in
      let few : a < 2 ^ 64 = words c a b here in
      if_cases (λ r. IsMeasured r (Sum P first total sign (c ∷ cs))) (not first && not (b == sign))
        (λ e. refused-IsMeasured _ (λ w s t. other_sign first b sign s e t.0 (child t).1))
        (λ e.
          if_cases (λ r. IsMeasured r (Sum P first total sign (c ∷ cs)))
            (ltb (2 ^ 64 - 1 - a) total)
            (λ f.
              refused-IsMeasured _ (λ w s t.
                too_long w t.2 (ground arith) (omega (arith, t.4.2, (child t).0)) t.1 t.3))
            (λ f.
              IsMeasured-iff (rest (total + a) b) (Sum P false (total + a) b cs) _
                (λ w s (same, bound, r, sum, later). (
                  subst (λ (x : ℕ). SameSign first x sign) (sym same) (same_sign first b sign e),
                  bound,
                  a + r,
                  omega (arith, sum),
                  (a, r, refl, subst (P c a) (sym same) here, later),
                ))
                (λ w s t.
                  (sym (child t).1, t.1, t.4.1, omega (arith, t.3, t.4.2, (child t).0), t.4.4))
                (h (total + a) b (ground arith))))
    where
      child : {w s : ℕ} → (t : Sum P first total sign (c ∷ cs) w s) → (a ≡ t.4.0) × (b ≡ s)
      child {s} t = let same = (p.means t.4.0 s).1 t.4.3 in (ap width_of same, ap sign_of same)

      too_long : (w r : ℕ) → 2 ^ 64 - 1 - a < total → a ≤ r → w < 2 ^ 64 → w ≡ total + r → ⊥
      too_long w r f e l q = omega arith

  sum_widths-IsMeasured :
      (cs : List ℕ) (total sign : ℕ)
      → total < 2 ^ 64
      → All (λ (c : ℕ). IsMeasured (measure c) (P c)) cs
      → IsMeasured (sum_widths measure cs total sign false) (Sum P false total sign cs)
  unfolding sum_widths
  sum_widths-IsMeasured [] total sign l h = record {
    ends = (λ q. cc, λ q. cc);
    means = λ w s. (
      (λ q. (
        sym (ap sign_of q),
        subst (λ (x : ℕ). x < 2 ^ 64) (ap width_of q) l,
        0,
        sym (ap width_of q) ∙ omega arith,
        refl,
      )),
      (λ (same, bound, r, sum, none_left). ap₂ sized (omega (arith, sum, none_left)) (sym same)),
    );
  }
  sum_widths-IsMeasured (c ∷ cs) total sign l h =
      add_child-IsMeasured false total sign c cs (measure c)
        (λ (t : ℕ) (s : ℕ). sum_widths measure cs t s false) h.0 l
        (λ t s k. sum_widths-IsMeasured cs t s k h.1)

  -- The children's widths are summed from 0 and from PIGEN_SIGN_IMPLICIT, which the first replaces.
  pub sum_children-IsMeasured :
      (cs : Option (List ℕ))
      → AllOf (λ (c : ℕ). IsMeasured (measure c) (P c)) cs
      → IsMeasured (sum_children measure cs) (SumsOf P cs)
  unfolding sum_widths
  sum_children-IsMeasured none h = refused-IsMeasured _ (λ w s t. t)
  sum_children-IsMeasured (some []) h = refused-IsMeasured _ (λ w s t. t)
  sum_children-IsMeasured (some (c ∷ cs)) h =
      IsMeasured-iff _ (Sum P true 0 1 (c ∷ cs)) (SumsOf P (some (c ∷ cs)))
        (λ w s t. (t.1, subst (λ (x : ℕ). SumsTo P (c ∷ cs) x s) (omega (arith, t.3)) t.4))
        (λ w s t. (tt, t.0, w, omega arith, t.1))
        (add_child-IsMeasured true 0 1 c cs (measure c)
          (λ (t : ℕ) (s : ℕ). sum_widths measure cs t s false) h.0 (omega arith)
          (λ t s k. sum_widths-IsMeasured cs t s k h.1))
