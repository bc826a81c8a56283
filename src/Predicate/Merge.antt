-- ===== src/Predicate/Merge.antt =====
-- src/predicate.c: the loop of `pigen_predicates_mutually_exclusive`, over two lists of atoms.
use pigen.Common.{
  ℕ, zero, suc, ◌+◌, ◌<◌, ◌≤◌, ◌≡◌, ◌≢◌, refl, sym, subst, ap, inl, inr, Bool, true, false, ◌&&◌,
  List, [], ◌∷◌, arith, ltb, ltb→lt, ◌==◌, if◌then◌else◌, length, All, Bool-cases,
}
use pigen.Predicate.{PredicateAtom, exclusive_loop}

-- A condition is true or false; an atom holds where it is what the atom expects.
abbrev pub bit : Bool → ℕ
bit false = 0
bit true = 1

abbrev pub holds : (ℕ → Bool) → PredicateAtom → Bool
holds values a = bit (values a.condition) == a.expected

-- The value of a conjunction of atoms.
abbrev pub conjunction : (ℕ → Bool) → List PredicateAtom → Bool
conjunction values [] = true
conjunction values (a ∷ as') = holds values a && conjunction values as'

-- The conditions increase, and each is expected to be 0 or 1.
abbrev pub IsAtoms : List PredicateAtom → Type 0
IsAtoms [] = Unit
IsAtoms (a ∷ rest) =
    All (λ (b : PredicateAtom). a.condition < b.condition) rest × (a.expected ≤ 1) × IsAtoms rest

-- Two lists that the loop takes to exclude each other do not hold at once.
pub exclusive_loop_sound :
    (fuel : ℕ) (left right : List PredicateAtom) (values : ℕ → Bool)
    → exclusive_loop fuel left right ≡ true
    → conjunction values left ≡ true
    → conjunction values right ≡ true
    → ⊥
unfolding exclusive_loop
exclusive_loop_sound zero left right values e l r = cc
exclusive_loop_sound (suc fuel) [] right values e l r = cc
exclusive_loop_sound (suc fuel) (a ∷ left) [] values e l r = cc
exclusive_loop_sound (suc fuel) (a ∷ left) (b ∷ right) values e l r = ground (
  arith,
  exclusive_loop_sound fuel left (b ∷ right) values,
  exclusive_loop_sound fuel (a ∷ left) right values,
  exclusive_loop_sound fuel left right values,
  ap values {x = a.condition} {y = b.condition},
  ap bit {x = values a.condition} {y = values b.condition},
)

-- The values, but for the condition of the atom, which gets what the atom expects.
abbrev update : PredicateAtom → (ℕ → Bool) → ℕ → Bool
update a values c = if c == a.condition then a.expected == 1 else values c

update-apart :
    (a : PredicateAtom) (values : ℕ → Bool) (atoms : List PredicateAtom)
    → All (λ (b : PredicateAtom). a.condition < b.condition) atoms
    → conjunction values atoms ≡ true
    → conjunction (update a values) atoms ≡ true
update-apart a values [] h e = refl
update-apart a values (b ∷ atoms) h e = ground (arith, update-apart a values atoms h.1, h.0)

update-holds :
    (a : PredicateAtom) (values : ℕ → Bool) → a.expected ≤ 1 → holds (update a values) a ≡ true
update-holds a values h = ground arith

update-conjunction :
    (a : PredicateAtom) (values : ℕ → Bool) (atoms : List PredicateAtom)
    → IsAtoms (a ∷ atoms)
    → conjunction values atoms ≡ true
    → conjunction (update a values) (a ∷ atoms) ≡ true
update-conjunction a values atoms h e =
    let here = update-holds a values h.1 in
    let rest = update-apart a values atoms h.0 e in ground arith

abbrev AreCompatible : List PredicateAtom → List PredicateAtom → Type 0
AreCompatible left right =
    (values : ℕ → Bool) × (conjunction values left ≡ true) × (conjunction values right ≡ true)

satisfiable :
    (atoms : List PredicateAtom)
    → IsAtoms atoms
    → (values : ℕ → Bool) × (conjunction values atoms ≡ true)
satisfiable [] h = ((λ c. false), refl)
satisfiable (a ∷ atoms) h =
    let r = satisfiable atoms h.2 in (update a r.0, update-conjunction a r.0 atoms h r.1)

compatible_left :
    (a : PredicateAtom) (left right : List PredicateAtom)
    → IsAtoms (a ∷ left)
    → All (λ (b : PredicateAtom). a.condition < b.condition) right
    → AreCompatible left right
    → AreCompatible (a ∷ left) right
compatible_left a left right h o r =
    (update a r.0, update-conjunction a r.0 left h r.1, update-apart a r.0 right o r.2)

pub above :
    (m n : ℕ) (atoms : List PredicateAtom)
    → m < n
    → All (λ (b : PredicateAtom). n < b.condition) atoms
    → All (λ (b : PredicateAtom). m < b.condition) atoms
above m n [] l h = tt
above m n (b ∷ atoms) l h = (omega (arith, h.0), above m n atoms l h.1)

compatible_both :
    (a b : PredicateAtom) (left right : List PredicateAtom)
    → a.condition ≡ b.condition
    → a.expected ≡ b.expected
    → IsAtoms (a ∷ left)
    → IsAtoms (b ∷ right)
    → AreCompatible left right
    → AreCompatible (a ∷ left) (b ∷ right)
compatible_both a b left right c x h k r =
    let same : a ≡ b = cc in
    (
      update a r.0,
      update-conjunction a r.0 left h r.1,
      subst (λ (x : PredicateAtom). conjunction (update x r.0) (b ∷ right) ≡ true) (sym same)
          (update-conjunction b r.0 right k r.2),
    )

-- Two lists that the loop does not take to exclude each other hold at once for some values.
pub exclusive_loop_complete :
    (fuel : ℕ) (left right : List PredicateAtom)
    → length left + length right ≤ fuel
    → IsAtoms left
    → IsAtoms right
    → exclusive_loop fuel left right ≡ false
    → AreCompatible left right
unfolding exclusive_loop
exclusive_loop_complete fuel [] right f h k e = let r = satisfiable right k in (r.0, refl, r.1)
exclusive_loop_complete fuel (a ∷ left) [] f h k e =
    let r = satisfiable (a ∷ left) h in (r.0, r.1, refl)
exclusive_loop_complete zero (a ∷ left) (b ∷ right) f h k e = absurd (omega arith)
exclusive_loop_complete (suc fuel) (a ∷ left) (b ∷ right) f h k e =
    elim (Bool-cases (ltb a.condition b.condition)) [
      | inl less ↦
          let lt = (ltb→lt a.condition b.condition) less in
          compatible_left a left (b ∷ right) h (lt, above a.condition b.condition right lt k.0)
            (exclusive_loop_complete fuel left (b ∷ right) (omega arith) h.2 k (rw less at e))
      | inr notless ↦ elim (Bool-cases (ltb b.condition a.condition)) [
        | inl more ↦
            let lt = (ltb→lt b.condition a.condition) more in
            let r =
              exclusive_loop_complete fuel (a ∷ left) right (omega arith) h k.2
                (rw more at (rw notless at e)) in
            let s =
              compatible_left b right (a ∷ left) k (lt, above b.condition a.condition left lt h.0)
                (r.0, r.2, r.1) in
            (s.0, s.2, s.1)
        | inr notmore ↦ elim (Bool-cases (a.expected == b.expected)) [
          | inl agree ↦ compatible_both a b left right (ground arith) (ground arith) h k (
              exclusive_loop_complete fuel left right (omega arith) h.2 k.2
                (rw agree at (rw notmore at (rw notless at e))))
          | inr differ ↦ absurd (clash (rw differ at (rw notmore at (rw notless at e))))
        ]
      ]
    ]
  where
    clash : true ≢ false
    clash q = cc
