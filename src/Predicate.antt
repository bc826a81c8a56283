-- ===== src/Predicate.antt =====
-- src/predicate.c and the fields of `pigen_semantic_model` (include/pigen/semantic.h) that it keeps:
-- the table of predicates, the array of their atoms, and the ids of the true and the false
-- predicate. The counts are the lengths of the lists; the growth of the arrays is left out. A
-- condition that may not be 0 or 1 is a number, and whether an expression has an integral data type
-- is a function of its id, `is_integral`.
pub mod Exclusion
mod Tests
pub mod Merge
pub mod Table
pub mod Insert
pub mod Conjunction
use pigen.Common.{
  ℕ, zero, suc, ◌+◌, ◌-◌, Bool, true, false, ◌&&◌, ◌||◌, not, Option, none, some, List, [], ◌∷◌,
  ◌++◌, ltb, leb, ◌==◌, same, if◌then◌else◌, u32, size_max, length, get_elem?, take, drop,
}
use pigen.Integer.{invalid_id}

pub record PredicateAtom : Type 0 where
  pub condition : ℕ
  pub expected : ℕ

pub record Predicate : Type 0 where
  pub first_atom : ℕ
  pub atom_count : ℕ
  pub impossible : Bool

pub record PredicateTable : Type 0 where
  pub predicates : List Predicate
  pub predicate_atoms : List PredicateAtom
  pub true_predicate : ℕ
  pub false_predicate : ℕ

abbrev pub stored_atoms : PredicateTable → Predicate → List PredicateAtom
stored_atoms t k = take k.atom_count (drop k.first_atom t.predicate_atoms)

unfoldable pub atoms_same : List PredicateAtom → List PredicateAtom → Bool
atoms_same [] [] = true
atoms_same [] (b ∷ right) = false
atoms_same (a ∷ left) [] = false
atoms_same (a ∷ left) (b ∷ right) =
    a.condition == b.condition && a.expected == b.expected && atoms_same left right

unfoldable pub same_atoms : PredicateTable → Predicate → List PredicateAtom → Bool
same_atoms t known atoms =
    known.atom_count == length atoms && atoms_same (stored_atoms t known) atoms

-- The search of `intern_predicate`, from index `i` on.
unfoldable pub find_predicate :
    PredicateTable → List Predicate → ℕ → Bool → List PredicateAtom → Option ℕ
find_predicate t [] i impossible atoms = none
find_predicate t (k ∷ rest) i impossible atoms =
    let later = find_predicate t rest (suc i) impossible atoms in
    if same k.impossible impossible && same_atoms t k atoms then some (u32 i) else later

abbrev append_predicate : PredicateTable → Bool → List PredicateAtom → PredicateTable × ℕ
append_predicate t impossible atoms = (
  record {
    predicates =
        t.predicates
        ++ record {
          first_atom = length t.predicate_atoms;
          atom_count = length atoms;
          impossible = impossible;
        }
          ∷ [];
    predicate_atoms = t.predicate_atoms ++ atoms;
    true_predicate = t.true_predicate;
    false_predicate = t.false_predicate;
  },
  u32 (length t.predicates),
)

unfoldable pub intern_predicate : PredicateTable → Bool → List PredicateAtom → PredicateTable × ℕ
intern_predicate t impossible atoms =
    if impossible && not (length atoms == 0)
      || leb invalid_id (length t.predicates)
      || ltb (size_max - length t.predicate_atoms) (length atoms)
    then (t, invalid_id)
    else elim (find_predicate t t.predicates 0 impossible atoms) [
      | some id ↦ (t, id)
      | none ↦ append_predicate t impossible atoms
    ]

abbrev set_true : PredicateTable × ℕ → PredicateTable × ℕ
set_true (t, id) = (
  record {
    predicates = t.predicates;
    predicate_atoms = t.predicate_atoms;
    true_predicate = id;
    false_predicate = t.false_predicate;
  },
  id,
)

abbrev set_false : PredicateTable × ℕ → PredicateTable × ℕ
set_false (t, id) = (
  record {
    predicates = t.predicates;
    predicate_atoms = t.predicate_atoms;
    true_predicate = t.true_predicate;
    false_predicate = id;
  },
  id,
)

unfoldable pub pigen_predicate_true : PredicateTable → PredicateTable × ℕ
pigen_predicate_true t =
    if t.true_predicate == invalid_id
    then set_true (intern_predicate t false [])
    else (t, t.true_predicate)

unfoldable pub pigen_predicate_false : PredicateTable → PredicateTable × ℕ
pigen_predicate_false t =
    if t.false_predicate == invalid_id
    then set_false (intern_predicate t true [])
    else (t, t.false_predicate)

-- `none` is the null pointer.
unfoldable pub pigen_predicate_get : PredicateTable → ℕ → Option Predicate
pigen_predicate_get t id = if id == invalid_id then none else get_elem? t.predicates id

abbrev pub known_atoms : PredicateTable → Option Predicate → Option (List PredicateAtom)
known_atoms t none = none
known_atoms t (some k) =
    if ltb (length t.predicate_atoms) k.first_atom
      || ltb (length t.predicate_atoms - k.first_atom) k.atom_count
    then none
    else if k.atom_count == 0
    then none
    else some (stored_atoms t k)

unfoldable pub pigen_predicate_atoms : PredicateTable → ℕ → Option (List PredicateAtom)
pigen_predicate_atoms t id = known_atoms t (pigen_predicate_get t id)

-- The array that the loops read: they read nothing through a null pointer, since it is returned for
-- a stored predicate without atoms only.
abbrev pub read_atoms : Option (List PredicateAtom) → List PredicateAtom
read_atoms none = []
read_atoms (some atoms) = atoms

-- What the loop of `pigen_predicate_and_condition` finds: the condition with a value, or the atoms
-- with the new one in its place.
pub data Insertion : Type 0 where
  present : ℕ → Insertion
  inserted : List PredicateAtom → Insertion

abbrev keep_atom : PredicateAtom → Insertion → Insertion
keep_atom a (present expected) = present expected
keep_atom a (inserted atoms) = inserted (a ∷ atoms)

unfoldable pub insert_atom : List PredicateAtom → ℕ → ℕ → Insertion
insert_atom [] condition expected =
    inserted (record { condition = condition; expected = expected } ∷ [])
insert_atom (a ∷ rest) condition expected =
    let later = insert_atom rest condition expected in
    if a.condition == condition
    then present a.expected
    else if ltb condition a.condition
    then inserted (record { condition = condition; expected = expected } ∷ a ∷ rest)
    else keep_atom a later

abbrev and_insertion : PredicateTable → ℕ → ℕ → Insertion → PredicateTable × ℕ
and_insertion t id expected (present known) =
    if known == expected then (t, id) else pigen_predicate_false t
and_insertion t id expected (inserted atoms) = intern_predicate t false atoms

abbrev and_known : (ℕ → Bool) → PredicateTable → ℕ → ℕ → ℕ → Option Predicate → PredicateTable × ℕ
and_known is_integral t id condition expected none = (t, invalid_id)
and_known is_integral t id condition expected (some base) =
    if not (expected == 0) && not (expected == 1) || not (is_integral condition)
    then (t, invalid_id)
    else if base.impossible
    then (t, id)
    else and_insertion t id expected
        (insert_atom (read_atoms (pigen_predicate_atoms t id)) condition expected)

unfoldable pub pigen_predicate_and_condition :
    (ℕ → Bool) → PredicateTable → ℕ → ℕ → ℕ → PredicateTable × ℕ
pigen_predicate_and_condition is_integral t id condition expected =
    and_known is_integral t id condition expected (pigen_predicate_get t id)

-- The loop of `pigen_predicates_mutually_exclusive`: `fuel` bounds its steps, of which each takes an
-- atom from one of the lists.
unfoldable pub exclusive_loop : ℕ → List PredicateAtom → List PredicateAtom → Bool
exclusive_loop zero left right = false
exclusive_loop (suc fuel) [] right = false
exclusive_loop (suc fuel) (a ∷ left) [] = false
exclusive_loop (suc fuel) (a ∷ left) (b ∷ right) =
    let skip_left = exclusive_loop fuel left (b ∷ right) in
    let skip_right = exclusive_loop fuel (a ∷ left) right in
    let skip_both = exclusive_loop fuel left right in
    if ltb a.condition b.condition
    then skip_left
    else if ltb b.condition a.condition
    then skip_right
    else if not (a.expected == b.expected)
    then true
    else skip_both

abbrev pub exclusive_known : PredicateTable → ℕ → ℕ → Option Predicate → Option Predicate → Bool
exclusive_known t l r none right = false
exclusive_known t l r (some left) none = false
exclusive_known t l r (some left) (some right) =
    if left.impossible || right.impossible
    then true
    else exclusive_loop (left.atom_count + right.atom_count)
        (read_atoms (pigen_predicate_atoms t l)) (read_atoms (pigen_predicate_atoms t r))

unfoldable pub pigen_predicates_mutually_exclusive : PredicateTable → ℕ → ℕ → Bool
pigen_predicates_mutually_exclusive t l r =
    exclusive_known t l r (pigen_predicate_get t l) (pigen_predicate_get t r)
