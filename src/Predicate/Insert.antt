-- ===== src/Predicate/Insert.antt =====
-- src/predicate.c, `pigen_predicate_and_condition`: the place of a new atom.
use pigen.Common.{
  ℕ, suc, ◌<◌, ◌≤◌, ◌≡◌, refl, ap, inl, inr, Bool, true, false, ◌&&◌, List, [], ◌∷◌, arith, ltb,
  ltb→lt, ◌==◌, length, All, Bool-cases,
}
use pigen.Predicate.{PredicateAtom, Insertion, present, inserted, keep_atom, insert_atom}
use pigen.Predicate.Merge.{bit, holds, conjunction, IsAtoms, above}

abbrev pub atom : ℕ → ℕ → PredicateAtom
atom condition expected = record { condition = condition; expected = expected }

-- What the loop promises of the atoms and the new one.
abbrev pub IsInsertion : List PredicateAtom → ℕ → ℕ → Insertion → Type 0
IsInsertion atoms c e (present known) =
    (known ≤ 1) × ((values : ℕ → Bool) → conjunction values atoms ≡ true → bit (values c) ≡ known)
IsInsertion atoms c e (inserted new) =
    IsAtoms new
    × (length new ≡ suc (length atoms))
    × ((values : ℕ → Bool)
        → conjunction values new ≡ (holds values (atom c e) && conjunction values atoms))
    × ((n : ℕ)
        → n < c
        → All (λ (b : PredicateAtom). n < b.condition) atoms
        → All (λ (b : PredicateAtom). n < b.condition) new)

kept :
    (a : PredicateAtom) (atoms : List PredicateAtom) (c e : ℕ) (r : Insertion)
    → IsAtoms (a ∷ atoms)
    → a.condition < c
    → IsInsertion atoms c e r
    → IsInsertion (a ∷ atoms) c e (keep_atom a r)
kept a atoms c e (present known) h l i = (i.0, λ values q. i.1 values (ground arith))
kept a atoms c e (inserted new) h l i = (
  (i.3 a.condition l h.0, h.1, i.0),
  omega (arith, i.1),
  (λ values.
      rearrange (holds values a) (holds values (atom c e)) (conjunction values atoms)
        (conjunction values new) (i.2 values)),
  (λ n m g. (g.0, i.3 n m g.1)),
)
  where
    rearrange : (x y z w : Bool) → w ≡ (y && z) → (x && w) ≡ (y && (x && z))
    rearrange true true z w q = ground arith
    rearrange true false z w q = ground arith
    rearrange false true z w q = ground arith
    rearrange false false z w q = ground arith

pub insert_atom-IsInsertion :
    (atoms : List PredicateAtom) (c e : ℕ)
    → IsAtoms atoms
    → e ≤ 1
    → IsInsertion atoms c e (insert_atom atoms c e)
unfolding insert_atom
insert_atom-IsInsertion [] c e h le = ((tt, le, tt), refl, (λ values. refl), (λ n m g. (m, tt)))
insert_atom-IsInsertion (a ∷ atoms) c e h le = elim (Bool-cases (a.condition == c)) [
  | inl same ↦ rw same (
    h.1,
    λ values q. ground (
      arith,
      ap values {x = a.condition} {y = c},
      ap bit {x = values a.condition} {y = values c},
    ),
  )
  | inr other ↦ elim (Bool-cases (ltb c a.condition)) [
    | inl less ↦
        let lt = (ltb→lt c a.condition) less in
        rw (other, less)
          (
            ((lt, above c a.condition atoms lt h.0), le, h),
            refl,
            (λ values. refl),
            (λ n m g. (m, g)),
          )
    | inr more ↦
        rw (other, more)
          (kept a atoms c e (insert_atom atoms c e) h (ground arith)
            (insert_atom-IsInsertion atoms c e h.2 le))
  ]
]
