-- ===== src/Predicate/Exclusion.antt =====
-- src/predicate.c, `pigen_predicates_mutually_exclusive`: when two predicates exclude each other.
use pigen.Common.{
  ℕ, ◌+◌, ◌-◌, ◌≤◌, ◌≡◌, ◌≢◌, refl, sym, ap, inl, inr, ◌↔◌, Bool, true, false, ◌&&◌, ◌||◌, not,
  none, some, List, [], arith, ltb, ◌==◌, ==_iff, if◌then◌else◌, length, take, drop, length-take,
  length-drop, Bool-cases,
}
use pigen.Predicate.{
  PredicateAtom, Predicate, PredicateTable, stored_atoms, pigen_predicate_get, known_atoms,
  pigen_predicate_atoms, read_atoms, exclusive_loop, exclusive_known,
  pigen_predicates_mutually_exclusive,
}
use pigen.Predicate.Merge.{conjunction, IsAtoms, exclusive_loop_sound, exclusive_loop_complete}

-- A predicate within the array of atoms, whose own are in order.
pub record IsPredicate (t : PredicateTable) (k : Predicate) : Type 0 where
  pub within : k.first_atom + k.atom_count ≤ length t.predicate_atoms
  pub ordered : IsAtoms (stored_atoms t k)

-- What a stored predicate says of the values of the conditions.
abbrev pub predicate_value : PredicateTable → Predicate → (ℕ → Bool) → Bool
predicate_value t k values = not k.impossible && conjunction values (stored_atoms t k)

read_choice :
    (bad empty : Bool) (atoms : List PredicateAtom)
    → bad ≡ false
    → (empty ≡ true → atoms ≡ [])
    → read_atoms (if bad then none else if empty then none else some atoms) ≡ atoms
read_choice true empty atoms b e = cc
read_choice false true atoms b e = sym (e refl)
read_choice false false atoms b e = refl

pub read_stored :
    (t : PredicateTable) (id : ℕ) (k : Predicate)
    → pigen_predicate_get t id ≡ some k
    → k.first_atom + k.atom_count ≤ length t.predicate_atoms
    → read_atoms (pigen_predicate_atoms t id) ≡ stored_atoms t k
unfolding pigen_predicate_atoms
read_stored t id k e h =
    rw (e, known_atoms)
      (read_choice
        (ltb (length t.predicate_atoms) k.first_atom
          || ltb (length t.predicate_atoms - k.first_atom) k.atom_count)
        (k.atom_count == 0) (stored_atoms t k) (ground arith)
        (λ z.
          ap (λ (n : ℕ). take n (drop k.first_atom t.predicate_atoms))
            ((==_iff k.atom_count 0).0 z)))

pub length-stored :
    (t : PredicateTable) (k : Predicate)
    → k.first_atom + k.atom_count ≤ length t.predicate_atoms
    → length (stored_atoms t k) ≡ k.atom_count
length-stored t k h = omega (
  arith,
  length-take k.atom_count (drop k.first_atom t.predicate_atoms),
  length-drop k.first_atom t.predicate_atoms,
)

exclusive_atoms_iff :
    (fuel : ℕ) (left right : List PredicateAtom)
    → length left + length right ≤ fuel
    → IsAtoms left
    → IsAtoms right
    → (exclusive_loop fuel left right ≡ true)
      ↔ ((values : ℕ → Bool) → conjunction values left ≡ true → conjunction values right ≡ true → ⊥)
exclusive_atoms_iff fuel left right f h k = (
  (λ e values. exclusive_loop_sound fuel left right values e),
  (λ c. elim (Bool-cases (exclusive_loop fuel left right)) [
    | inl found ↦ found
    | inr missed ↦
        let r = exclusive_loop_complete fuel left right f h k missed in absurd (c r.0 r.1 r.2)
  ]),
)

exclusive_choice :
    (i j loop : Bool) (A B : (ℕ → Bool) → Bool)
    → (loop ≡ true) ↔ ((values : ℕ → Bool) → A values ≡ true → B values ≡ true → ⊥)
    → ((if i || j then true else loop) ≡ true)
      ↔ ((values : ℕ → Bool) → (not i && A values) ≡ true → (not j && B values) ≡ true → ⊥)
exclusive_choice false false loop A B h = h
exclusive_choice true j loop A B h = ((λ e values x y. clash x), (λ c. refl))
  where
    clash : false ≢ true
    clash q = cc
exclusive_choice false true loop A B h = ((λ e values x y. clash y), (λ c. refl))
  where
    clash : false ≢ true
    clash q = cc

-- Two stored predicates, within the array of atoms and with atoms in order, are found to exclude
-- each other exactly when no values of the conditions satisfy both.
pub mutually_exclusive_iff :
    (t : PredicateTable) (l r : ℕ) (left right : Predicate)
    → pigen_predicate_get t l ≡ some left
    → pigen_predicate_get t r ≡ some right
    → IsPredicate t left
    → IsPredicate t right
    → (pigen_predicates_mutually_exclusive t l r ≡ true) ↔ (
        (values : ℕ → Bool)
        → predicate_value t left values ≡ true
        → predicate_value t right values ≡ true
        → ⊥)
unfolding pigen_predicates_mutually_exclusive
mutually_exclusive_iff t l r left right e f h k =
    rw (e, f, exclusive_known, read_stored t l left e h.within, read_stored t r right f k.within)
      (exclusive_choice left.impossible right.impossible
        (exclusive_loop (left.atom_count + right.atom_count) (stored_atoms t left)
          (stored_atoms t right))
        (λ values. conjunction values (stored_atoms t left))
        (λ values. conjunction values (stored_atoms t right))
        (exclusive_atoms_iff (left.atom_count + right.atom_count) (stored_atoms t left)
          (stored_atoms t right)
          (omega (arith, length-stored t left h.within, length-stored t right k.within)) h.ordered
          k.ordered))
