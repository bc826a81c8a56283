-- ===== src/Predicate/Table.antt =====
-- src/predicate.c, `intern_predicate`: what a table of predicates means, and that it grows in order.
use pigen.Common.{
  ℕ, suc, ◌+◌, ◌-◌, ◌^◌, ◌<◌, ◌≤◌, ◌≡◌, refl, ap, ◌∙◌, ◌⊎◌, inl, inr, Bool, true, false, ◌&&◌, ◌||◌,
  not, some, List, [], ◌∷◌, arith, ltb, leb, ◌==◌, same, same→eq, u32, size_max, length, take,
  get_elem?, get_elem?-lt, All, All-mono, All-append, All-get_elem?, get_elem?-append_left,
  get_elem?-append_self, take-drop-append_left, drop-append_self, take-length, length-append,
  Bool-cases, Option-cases,
}
use pigen.Integer.{invalid_id}
use pigen.Predicate.{
  PredicateAtom, Predicate, PredicateTable, stored_atoms, atoms_same, same_atoms, find_predicate,
  append_predicate, intern_predicate, pigen_predicate_get,
}
use pigen.Predicate.Merge.{conjunction, IsAtoms}
use pigen.Predicate.Exclusion.{IsPredicate, predicate_value}

-- The predicate of the id has these values.
pub record Means (t : PredicateTable) (id : ℕ) (f : (ℕ → Bool) → Bool) : Type 0 where
  pub entry : Predicate
  pub found : pigen_predicate_get t id ≡ some entry
  pub value : (values : ℕ → Bool) → predicate_value t entry values ≡ f values

abbrev pub never : (ℕ → Bool) → Bool
never values = false

pub record IsPredicates (t : PredicateTable) : Type 0 where
  pub stored : All (IsPredicate t) t.predicates
  pub countable : length t.predicates ≤ invalid_id
  pub falsity : (t.false_predicate ≡ invalid_id) ⊎ Means t t.false_predicate never

pub get-get_elem? :
    (t : PredicateTable) (id : ℕ) (k : Predicate)
    → pigen_predicate_get t id ≡ some k
    → get_elem? t.predicates id ≡ some k
unfolding pigen_predicate_get
get-get_elem? t id k e = ground arith

get_elem?-get :
    (t : PredicateTable) (id : ℕ) (k : Predicate)
    → length t.predicates ≤ invalid_id
    → get_elem? t.predicates id ≡ some k
    → pigen_predicate_get t id ≡ some k
unfolding pigen_predicate_get
get_elem?-get t id k c e = ground (arith, get_elem?-lt t.predicates id e)

atoms_same-eq : (xs ys : List PredicateAtom) → atoms_same xs ys ≡ true → xs ≡ ys
unfolding atoms_same
atoms_same-eq [] [] e = refl
atoms_same-eq [] (y ∷ ys) e = cc
atoms_same-eq (x ∷ xs) [] e = cc
atoms_same-eq (x ∷ xs) (y ∷ ys) e =
    let c : x.condition ≡ y.condition = ground arith in
    let v : x.expected ≡ y.expected = ground arith in
    let here : x ≡ y = cc in let rest : xs ≡ ys = atoms_same-eq xs ys (ground arith) in cc

find_predicate-found :
    (t : PredicateTable) (ks : List Predicate) (i : ℕ) (impossible : Bool)
    (atoms : List PredicateAtom) (id : ℕ)
    → i + length ks ≤ 2 ^ 32
    → find_predicate t ks i impossible atoms ≡ some id
    → (j : ℕ) × (k : Predicate) × (id ≡ i + j)
      × (get_elem? ks j ≡ some k)
      × (k.impossible ≡ impossible)
      × (stored_atoms t k ≡ atoms)
unfolding find_predicate same_atoms
find_predicate-found t [] i impossible atoms id l e = cc
find_predicate-found t (k ∷ ks) i impossible atoms id l e =
    elim (Bool-cases (same k.impossible impossible && same_atoms t k atoms)) [
      | inl hit ↦ (
        0,
        k,
        here (rw hit at e),
        refl,
        ground (arith, same→eq k.impossible impossible),
        atoms_same-eq (stored_atoms t k) atoms (ground arith),
      )
      | inr miss ↦
          let r =
            find_predicate-found t ks (suc i) impossible atoms id (omega arith) (rw miss at e) in
          (suc r.0, r.1, omega (arith, r.2), r.3, r.4, r.5)
    ]
  where
    here : some (u32 i) ≡ some id → id ≡ i + 0
    here p = ground arith

module _ (t : PredicateTable) (impossible : Bool) (atoms : List PredicateAtom) where
  abbrev grown : PredicateTable
  grown = (append_predicate t impossible atoms).0

  abbrev grown_entry : Predicate
  grown_entry = record {
    first_atom = length t.predicate_atoms;
    atom_count = length atoms;
    impossible = impossible;
  }

  old_atoms : (k : Predicate) → IsPredicate t k → stored_atoms grown k ≡ stored_atoms t k
  old_atoms k s = take-drop-append_left k.first_atom k.atom_count t.predicate_atoms atoms s.within

  new_atoms : stored_atoms grown grown_entry ≡ atoms
  new_atoms =
      ap (take (length atoms)) (drop-append_self t.predicate_atoms atoms) ∙ take-length atoms

  grown-IsPredicate : (k : Predicate) → IsPredicate t k → IsPredicate grown k
  grown-IsPredicate k s = record {
    within = omega (arith, s.within, length-append t.predicate_atoms atoms);
    ordered = rw (old_atoms k s) s.ordered;
  }

  module _ (v : IsPredicates t) (o : IsAtoms atoms) (room : length t.predicates < invalid_id) where
    grown_count : length grown.predicates ≤ invalid_id
    grown_count = omega (arith, length-append t.predicates (grown_entry ∷ []))

    grown-Means : (id : ℕ) (f : (ℕ → Bool) → Bool) → Means t id f → Means grown id f
    grown-Means id f m =
        let at = get-get_elem? t id m.entry m.found in
        record {
          entry = m.entry;
          found = get_elem?-get grown id m.entry grown_count (
              get_elem?-append_left t.predicates (grown_entry ∷ []) id
                (get_elem?-lt t.predicates id at)
              ∙ at);
          value = λ values.
              ap (λ (l : List PredicateAtom). not m.entry.impossible && conjunction values l)
                (old_atoms m.entry (All-get_elem? (IsPredicate t) t.predicates id v.stored at))
              ∙ m.value values;
        }

    grown-IsPredicates : IsPredicates grown
    grown-IsPredicates = record {
      stored =
          All-append (IsPredicate grown) t.predicates (grown_entry ∷ [])
            (All-mono (IsPredicate t) (IsPredicate grown) t.predicates grown-IsPredicate v.stored)
            (
              record {
                within = omega (arith, length-append t.predicate_atoms atoms);
                ordered = rw new_atoms o;
              },
              tt,
            );
      countable = grown_count;
      falsity = elim v.falsity [
        | inl unset ↦ inl unset
        | inr m ↦ inr (grown-Means t.false_predicate never m)
      ];
    }

    new-Means :
        Means grown (length t.predicates) (λ values. not impossible && conjunction values atoms)
    new-Means = record {
      entry = grown_entry;
      found =
          get_elem?-get grown (length t.predicates) grown_entry grown_count
            (get_elem?-append_self t.predicates grown_entry);
      value = λ values.
          ap (λ (l : List PredicateAtom). not impossible && conjunction values l) new_atoms;
    }

-- The table has no room for a predicate of `n` atoms.
abbrev pub HasNoRoom : PredicateTable → ℕ → Type 0
HasNoRoom t n = (invalid_id ≤ length t.predicates) ⊎ (size_max < length t.predicate_atoms + n)

-- What interning promises: the table stays in order, and the id has the values, or is invalid since
-- there is no room.
pub record Interns (NoRoom : Type 0) (f : (ℕ → Bool) → Bool) (r : PredicateTable × ℕ) : Type 0 where
  pub table : IsPredicates r.0
  pub result : Means r.0 r.1 f ⊎ ((r.1 ≡ invalid_id) × NoRoom)

pub intern_predicate-Interns :
    (t : PredicateTable) (impossible : Bool) (atoms : List PredicateAtom)
    → IsPredicates t
    → IsAtoms atoms
    → (impossible && not (length atoms == 0)) ≡ false
    → Interns
        (HasNoRoom t (length atoms))
        (λ values. not impossible && conjunction values atoms)
        (intern_predicate t impossible atoms)
unfolding intern_predicate
intern_predicate-Interns t impossible atoms v o p =
    elim (Bool-cases (
      impossible && not (length atoms == 0)
      || leb invalid_id (length t.predicates)
      || ltb (size_max - length t.predicate_atoms) (length atoms))) [
        | inl full ↦ rw full (record { table = v; result = inr (refl, no_room full) })
        | inr free ↦
            rw free (elim (Option-cases (find_predicate t t.predicates 0 impossible atoms)) [
              | inl missing ↦ rw missing (
                  let room : length t.predicates < invalid_id = ground arith in
                  let w : u32 (length t.predicates) ≡ length t.predicates = omega arith in
                  record {
                    table = grown-IsPredicates t impossible atoms v o room;
                    result = inl (rw w (new-Means t impossible atoms v o room));
                  })
              | inr (id, hit) ↦ rw hit (record { table = v; result = inl (known id hit) })
            ])
      ]
  where
    no_room :
        (impossible && not (length atoms == 0)
            || leb invalid_id (length t.predicates)
            || ltb (size_max - length t.predicate_atoms) (length atoms))
          ≡ true
        → HasNoRoom t (length atoms)
    no_room e = ground arith

    known :
        (id : ℕ)
        → find_predicate t t.predicates 0 impossible atoms ≡ some id
        → Means t id (λ values. not impossible && conjunction values atoms)
    known id hit =
        let f =
          find_predicate-found t t.predicates 0 impossible atoms id (omega (arith, v.countable))
            hit in
        let e : id ≡ f.0 = omega (arith, f.2) in
        record {
          entry = f.1;
          found = get_elem?-get t id f.1 v.countable (rw e f.3);
          value = λ values. rw (f.4, f.5) refl;
        }
