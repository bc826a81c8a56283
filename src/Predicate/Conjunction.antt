-- ===== src/Predicate/Conjunction.antt =====
-- src/predicate.c, `pigen_predicate_and_condition`: it is conjunction.
use pigen.Common.{
  ℕ, suc, length, ◌≤◌, ◌≡◌, refl, ap, ◌∙◌, inl, inr, Bool, true, false, ◌&&◌, not, some, [], arith,
  ◌==◌, ==_iff, if◌then◌else◌, All-mono, All-get_elem?, Bool-cases,
}
use pigen.Integer.{invalid_id}
use pigen.Predicate.{
  Predicate, PredicateTable, stored_atoms, pigen_predicate_get, intern_predicate, set_false,
  pigen_predicate_false, pigen_predicate_atoms, read_atoms, Insertion, present, inserted,
  insert_atom, and_insertion, and_known, pigen_predicate_and_condition,
}
use pigen.Predicate.Merge.{bit, holds, conjunction}
use pigen.Predicate.Exclusion.{IsPredicate, predicate_value, read_stored, length-stored}
use pigen.Predicate.Insert.{atom, IsInsertion, insert_atom-IsInsertion}
use pigen.Predicate.Table.{
  Means, never, IsPredicates, get-get_elem?, HasNoRoom, Interns, intern_predicate-Interns,
}

-- Only the id of the false predicate is new.
module _ (t : PredicateTable) (id : ℕ) where
  set_false-IsPredicate : (k : Predicate) → IsPredicate t k → IsPredicate (set_false (t, id)).0 k
  set_false-IsPredicate k s = record { within = s.within; ordered = s.ordered }

  set_false-Means : (i : ℕ) (f : (ℕ → Bool) → Bool) → Means t i f → Means (set_false (t, id)).0 i f
  unfolding pigen_predicate_get
  set_false-Means i f m = record { entry = m.entry; found = m.found; value = m.value }

  set_false-Interns : (N : Type 0) → Interns N never (t, id) → Interns N never (set_false (t, id))
  set_false-Interns N r = record {
    table = record {
      stored =
          All-mono (IsPredicate t) (IsPredicate (set_false (t, id)).0) t.predicates
            set_false-IsPredicate r.table.stored;
      countable = r.table.countable;
      falsity = elim r.result [
        | inl m ↦ inr (set_false-Means id never m)
        | inr refused ↦ inl refused.0
      ];
    };
    result = elim r.result [ inl m ↦ inl (set_false-Means id never m) | inr refused ↦ inr refused ];
  }

predicate_false-Interns :
    (t : PredicateTable) → IsPredicates t → Interns (HasNoRoom t 0) never (pigen_predicate_false t)
unfolding pigen_predicate_false
predicate_false-Interns t v = elim (Bool-cases (t.false_predicate == invalid_id)) [
  | inl unset ↦
      let r = intern_predicate t true [] in
      rw unset
        (set_false-Interns r.0 r.1 (HasNoRoom t 0) (intern_predicate-Interns t true [] v tt refl))
  | inr known ↦ rw known (record {
    table = v;
    result = elim v.falsity [ inl unset ↦ absurd (ground arith) | inr m ↦ inl m ];
  })
]

Interns-at :
    (M N : Type 0) (f g : (ℕ → Bool) → Bool) (r : PredicateTable × ℕ)
    → ((values : ℕ → Bool) → f values ≡ g values)
    → (M → N)
    → Interns M f r
    → Interns N g r
Interns-at M N f g r h n i = record {
  table = i.table;
  result = elim i.result [
    | inl m ↦
        inl
          (record { entry = m.entry; found = m.found; value = λ values. m.value values ∙ h values })
    | inr refused ↦ inr (refused.0, n refused.1)
  ];
}

module _ (t : PredicateTable) (id c e : ℕ) (base : Predicate) (v : IsPredicates t)
    (found : pigen_predicate_get t id ≡ some base) (expects : e ≤ 1) where
  abbrev joined : (ℕ → Bool) → Bool
  joined values = predicate_value t base values && holds values (atom c e)

  -- The table has no room for a predicate of one atom more.
  abbrev NoRoom : Type 0
  NoRoom = HasNoRoom t (suc base.atom_count)

  wider : (n : ℕ) → n ≤ suc base.atom_count → HasNoRoom t n → NoRoom
  wider n le (inl ids) = inl ids
  wider n le (inr atoms) = inr (omega arith)

  base-IsPredicate : IsPredicate t base
  base-IsPredicate =
      All-get_elem? (IsPredicate t) t.predicates id v.stored (get-get_elem? t id base found)

  -- The predicate that the condition is added to.
  unchanged :
      ((values : ℕ → Bool) → predicate_value t base values ≡ joined values)
      → Interns NoRoom joined (t, id)
  unchanged h = record {
    table = v;
    result = inl (record { entry = base; found = found; value = h });
  }

  and_insertion-Interns :
      (r : Insertion)
      → base.impossible ≡ false
      → IsInsertion (stored_atoms t base) c e r
      → Interns NoRoom joined (and_insertion t id e r)
  and_insertion-Interns (present known) p i = elim (Bool-cases (known == e)) [
    | inl agree ↦ rw agree (
        unchanged (λ values.
          kept (conjunction values (stored_atoms t base)) (holds values (atom c e))
            (agrees values ((==_iff known e).0 agree))))
    | inr differ ↦ rw differ (
        Interns-at (HasNoRoom t 0) NoRoom never joined (pigen_predicate_false t)
          (λ values.
            lost (conjunction values (stored_atoms t base)) (holds values (atom c e))
              (differs values differ))
          (wider 0 (omega arith)) (predicate_false-Interns t v))
  ]
    where
      agrees :
          (values : ℕ → Bool)
          → known ≡ e
          → conjunction values (stored_atoms t base) ≡ true
          → holds values (atom c e) ≡ true
      agrees values q h = (==_iff (bit (values c)) e).1 (i.1 values h ∙ q)

      differs :
          (values : ℕ → Bool)
          → (known == e) ≡ false
          → conjunction values (stored_atoms t base) ≡ true
          → holds values (atom c e) ≡ false
      differs values q h = ap (λ (n : ℕ). n == e) (i.1 values h) ∙ q

      kept :
          (x y : Bool)
          → (x ≡ true → y ≡ true)
          → (not base.impossible && x) ≡ ((not base.impossible && x) && y)
      kept true y h = rw (p, h refl) refl
      kept false y h = rw p refl

      lost : (x y : Bool) → (x ≡ true → y ≡ false) → false ≡ ((not base.impossible && x) && y)
      lost true y h = rw (p, h refl) refl
      lost false y h = rw p refl
  and_insertion-Interns (inserted new) p i =
      Interns-at (HasNoRoom t (length new)) NoRoom (λ values. conjunction values new) joined
        (intern_predicate t false new)
        (λ values.
          i.2 values ∙ swapped (holds values (atom c e)) (conjunction values (stored_atoms t base)))
        (wider (length new) (omega (arith, i.1, length-stored t base base-IsPredicate.within)))
        (intern_predicate-Interns t false new v i.0 refl)
    where
      swapped : (x y : Bool) → (x && y) ≡ ((not base.impossible && y) && x)
      swapped true true = rw p refl
      swapped true false = rw p refl
      swapped false true = rw p refl
      swapped false false = rw p refl

  new_atom :
      base.impossible ≡ false
      → Interns NoRoom joined
          (and_insertion t id e (insert_atom (read_atoms (pigen_predicate_atoms t id)) c e))
  new_atom possible = rw (read_stored t id base found base-IsPredicate.within) (
      and_insertion-Interns (insert_atom (stored_atoms t base) c e) possible
        (insert_atom-IsInsertion (stored_atoms t base) c e base-IsPredicate.ordered expects))

  chosen :
      (b : Bool) (r s : PredicateTable × ℕ)
      → (b ≡ true → Interns NoRoom joined r)
      → (b ≡ false → Interns NoRoom joined s)
      → Interns NoRoom joined (if b then r else s)
  chosen true r s h k = h refl
  chosen false r s h k = k refl

  absorbed : (b x y : Bool) → b ≡ true → (not b && x) ≡ ((not b && x) && y)
  absorbed true x y q = refl
  absorbed false x y q = cc

  -- In a table in order, adding to a stored predicate a condition of integral type, expected to be
  -- 0 or 1, keeps the table in order, and gives the id of the predicate that holds where both
  -- hold, or the invalid id where the table has no room for another predicate with one atom more.
  pub pigen_predicate_and_condition-Interns :
      (is_integral : ℕ → Bool)
      → is_integral c ≡ true
      → Interns NoRoom joined (pigen_predicate_and_condition is_integral t id c e)
  unfolding pigen_predicate_and_condition
  pigen_predicate_and_condition-Interns is_integral integral =
      rw (found, and_known, integral)
        (rw accepted (
          chosen base.impossible _ _
            (λ q. unchanged (λ values.
              absorbed base.impossible (conjunction values (stored_atoms t base))
                (holds values (atom c e)) q))
            new_atom))
    where
      accepted : (not (e == 0) && not (e == 1)) ≡ false
      accepted = ground arith
