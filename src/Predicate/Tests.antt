-- ===== src/Predicate/Tests.antt =====
-- Runs of the code of src/predicate.c, and its theorems at concrete inputs.
use pigen.Common.{ℕ, inl, ◌&&◌, ◌≡◌, refl, ◌↔◌, Bool, true, false, some, [], ◌∷◌, arith}
use pigen.Integer.{invalid_id}
use pigen.Predicate.{
  PredicateAtom, Predicate, PredicateTable, atoms_same, same_atoms, find_predicate,
  intern_predicate, pigen_predicate_true, pigen_predicate_get, pigen_predicate_atoms, insert_atom,
  pigen_predicate_and_condition, pigen_predicates_mutually_exclusive,
}
use pigen.Predicate.Merge.{holds}
use pigen.Predicate.Table.{IsPredicates, HasNoRoom, Interns}
use pigen.Predicate.Conjunction.{pigen_predicate_and_condition-Interns}
use pigen.Predicate.Exclusion.{predicate_value, mutually_exclusive_iff}

abbrev unset : PredicateTable
unset = record {
  predicates = [];
  predicate_atoms = [];
  true_predicate = invalid_id;
  false_predicate = invalid_id;
}

abbrev entry : ℕ → ℕ → Predicate
entry first count = record { first_atom = first; atom_count = count; impossible = false }

abbrev expect : ℕ → ℕ → PredicateAtom
expect condition value = record { condition = condition; expected = value }

-- The table after `true`, `3 = 1`, `3 = 1 and 1 = 0`, and `3 = 0` have been interned.
abbrev guards : PredicateTable
guards = record {
  predicates = entry 0 0 ∷ entry 0 1 ∷ entry 1 2 ∷ entry 3 1 ∷ [];
  predicate_atoms = expect 3 1 ∷ expect 1 0 ∷ expect 3 1 ∷ expect 3 0 ∷ [];
  true_predicate = 0;
  false_predicate = invalid_id;
}

abbrev and_next : PredicateTable × ℕ → ℕ → ℕ → ℕ → PredicateTable × ℕ
and_next r id condition value = pigen_predicate_and_condition (λ c. true) r.0 id condition value

guards-run :
    and_next (and_next (and_next (pigen_predicate_true unset) 0 3 1) 1 1 0) 0 3 0 ≡ (guards, 3)
unfolding pigen_predicate_and_condition pigen_predicate_true pigen_predicate_get
    pigen_predicate_atoms insert_atom intern_predicate find_predicate same_atoms atoms_same
guards-run = refl

second-run : pigen_predicate_get guards 2 ≡ some (entry 1 2)
unfolding pigen_predicate_get
second-run = refl

third-run : pigen_predicate_get guards 3 ≡ some (entry 3 1)
unfolding pigen_predicate_get
third-run = refl

mutually_exclusive_iff_example : (pigen_predicates_mutually_exclusive guards 2 3 ≡ true) ↔ (
    (values : ℕ → Bool)
    → predicate_value guards (entry 1 2) values ≡ true
    → predicate_value guards (entry 3 1) values ≡ true
    → ⊥)
mutually_exclusive_iff_example =
    mutually_exclusive_iff guards 2 3 (entry 1 2) (entry 3 1) second-run third-run
      (record {
        within = omega arith;
        ordered = ((omega arith, tt), omega arith, (tt, omega arith, tt));
      })
      (record { within = omega arith; ordered = (tt, omega arith, tt) })

guards-IsPredicates : IsPredicates guards
guards-IsPredicates = record {
  stored = (
    record { within = omega arith; ordered = tt },
    (
      record { within = omega arith; ordered = (tt, omega arith, tt) },
      (
        record {
          within = omega arith;
          ordered = ((omega arith, tt), omega arith, (tt, omega arith, tt));
        },
        (record { within = omega arith; ordered = (tt, omega arith, tt) }, tt),
      ),
    ),
  );
  countable = omega arith;
  falsity = inl refl;
}

pigen_predicate_and_condition-Interns_example :
    Interns
      (HasNoRoom guards 3)
      (λ values. predicate_value guards (entry 1 2) values && holds values (expect 2 1))
      (pigen_predicate_and_condition (λ c. true) guards 2 2 1)
pigen_predicate_and_condition-Interns_example =
    pigen_predicate_and_condition-Interns guards 2 2 1 (entry 1 2) guards-IsPredicates second-run
      (omega arith) (λ c. true) refl
