-- ===== src/Integer/Intern/Append.antt =====
-- src/integer.c: the end of `integer_intern`, which appends an integer to the table.
use pigen.Common.{
  ℕ, ◌+◌, ◌-◌, ◌≤◌, ◌<◌, ◌≡◌, ◌≢◌, refl, sym, ap, ◌∙◌, ◌⊎◌, inl, inr, Bool, true, false, some, List,
  [], ◌∷◌, ◌++◌, arith, length, size_max, get_elem?, take-drop-append_left, drop-append_self,
  take-length, take, length-append, All-append, All-mono, get_elem?-append_left,
  get_elem?-append_self, get_elem?-append_cases, get_elem?-lt, ltb, leb, ◌||◌, Bool-cases,
  All-get_elem?, u32,
}
use pigen.Common.Int.{signed, magnitude-signed}
use pigen.Magnitude.Value.{value, IsLimbs, IsNormal}
use pigen.Integer.{Integer, IntegerTable, invalid_id, slice, append_integer}
use pigen.Integer.Table.{
  IsStored, IsDistinct, IsTable, Denotes, Extends, Extends-refl, integer_get-get_elem?,
  get_elem?-integer_get, IsFull, Yields,
}

slice-append :
    (limbs more : List ℕ) (k : Integer) → IsStored limbs k → slice (limbs ++ more) k ≡ slice limbs k
slice-append limbs more k s = take-drop-append_left k.first_limb k.limb_count limbs more s.within

IsStored-append :
    (limbs more : List ℕ) (k : Integer) → IsStored limbs k → IsStored (limbs ++ more) k
IsStored-append limbs more k s = record {
  within = omega (arith, s.within, length-append limbs more);
  limbs32 = rw (slice-append limbs more k s) s.limbs32;
  normal = rw (slice-append limbs more k s) s.normal;
  zero_unsigned = s.zero_unsigned;
}

-- The entry that is appended to the table, and the table that has it.
module _ (t : IntegerTable) (negative : Bool) (limbs : List ℕ) where
  abbrev new_entry : Integer
  new_entry = record { negative = negative; first_limb = length t.limbs; limb_count = length limbs }

  abbrev new_table : IntegerTable
  new_table = record { integers = t.integers ++ new_entry ∷ []; limbs = t.limbs ++ limbs }

  new_slice : slice (t.limbs ++ limbs) new_entry ≡ limbs
  new_slice = ap (take (length limbs)) (drop-append_self t.limbs limbs) ∙ take-length limbs

  module _ (v : IsTable t) (h : IsLimbs limbs) (n : IsNormal limbs)
      (z : length limbs ≡ 0 → negative ≡ false)
      (absent : (j : ℕ) (k : Integer)
        → get_elem? t.integers j ≡ some k
        → k.negative ≡ negative
        → slice t.limbs k ≢ limbs)
      (room : length t.integers < invalid_id)
      (fits : length t.limbs + length limbs ≤ size_max) where
    new_entry-IsStored : IsStored (t.limbs ++ limbs) new_entry
    new_entry-IsStored = record {
      within = omega (arith, length-append t.limbs limbs);
      limbs32 = rw new_slice h;
      normal = rw new_slice n;
      zero_unsigned = z;
    }

    old_slice :
        (j : ℕ) (k : Integer)
        → get_elem? t.integers j ≡ some k
        → slice (t.limbs ++ limbs) k ≡ slice t.limbs k
    old_slice j k e =
        slice-append t.limbs limbs k (All-get_elem? (IsStored t.limbs) t.integers j v.stored e)

    new_is_new :
        (j : ℕ) (k : Integer)
        → get_elem? t.integers j ≡ some k
        → k.negative ≡ negative
        → slice (t.limbs ++ limbs) k ≢ slice (t.limbs ++ limbs) new_entry
    new_is_new j k e s q = absent j k e s (sym (old_slice j k e) ∙ q ∙ new_slice)

    new_table-IsDistinct : IsDistinct new_table
    new_table-IsDistinct i j k l ei ej s q =
        elim (get_elem?-append_cases t.integers new_entry k i ei) [
          | inl oi ↦ elim (get_elem?-append_cases t.integers new_entry l j ej) [
            | inl oj ↦ v.distinct i j k l oi oj s (sym (old_slice i k oi) ∙ q ∙ old_slice j l oj)
            | inr nj ↦ absurd (
                new_is_new i k oi (s ∙ sym (ap (λ (m : Integer). m.negative) nj.1))
                  (q ∙ ap (slice (t.limbs ++ limbs)) (sym nj.1)))
          ]
          | inr ni ↦ elim (get_elem?-append_cases t.integers new_entry l j ej) [
            | inl oj ↦ absurd (
                new_is_new j l oj (sym s ∙ sym (ap (λ (m : Integer). m.negative) ni.1))
                  (sym q ∙ ap (slice (t.limbs ++ limbs)) (sym ni.1)))
            | inr nj ↦ ni.0 ∙ sym nj.0
          ]
        ]

    new_table-IsTable : IsTable new_table
    new_table-IsTable = record {
      stored =
          All-append (IsStored (t.limbs ++ limbs)) t.integers (new_entry ∷ [])
            (All-mono (IsStored t.limbs) (IsStored (t.limbs ++ limbs)) t.integers
              (IsStored-append t.limbs limbs) v.stored)
            (new_entry-IsStored, tt);
      distinct = new_table-IsDistinct;
      countable = omega (arith, length-append t.integers (new_entry ∷ []));
      addressable = omega (arith, length-append t.limbs limbs);
    }

    new_table-Extends : Extends t new_table
    new_table-Extends = record {
      keeps = λ id k e. get_elem?-integer_get new_table id k new_table-IsTable.countable (
          get_elem?-append_left t.integers (new_entry ∷ []) id
            (get_elem?-lt t.integers id (integer_get-get_elem? t id k e))
          ∙ integer_get-get_elem? t id k e);
      same_limbs = λ id k e. old_slice id k (integer_get-get_elem? t id k e);
      more_integers = omega (arith, length-append t.integers (new_entry ∷ []));
      more_limbs = omega (arith, length-append t.limbs limbs);
    }

    new_table-Denotes : Denotes new_table (length t.integers) (signed negative (value limbs))
    new_table-Denotes = record {
      entry = new_entry;
      found =
          get_elem?-integer_get new_table (length t.integers) new_entry new_table-IsTable.countable
            (get_elem?-append_self t.integers new_entry);
      means = rw new_slice refl;
    }

-- Without room the table stays as it is; with room it has the integer.
pub append_integer-Yields :
    (t : IntegerTable) (negative : Bool) (limbs : List ℕ)
    → IsTable t
    → IsLimbs limbs
    → IsNormal limbs
    → (length limbs ≡ 0 → negative ≡ false)
    → ((j : ℕ) (k : Integer)
        → get_elem? t.integers j ≡ some k
        → k.negative ≡ negative
        → slice t.limbs k ≢ limbs)
    → Yields t
        (IsFull t (signed negative (value limbs)))
        (signed negative (value limbs))
        (append_integer t negative limbs)
unfolding append_integer
append_integer-Yields t negative limbs v h n z absent =
    elim (Bool-cases
      (leb invalid_id (length t.integers) || ltb (size_max - length t.limbs) (length limbs))) [
        | inl full ↦
            rw full
              (record { table = v; extends = Extends-refl t; result = inr (refl, no_room full) })
        | inr free ↦ rw free (
            let room : length t.integers < invalid_id = ground arith in
            let fits : length t.limbs + length limbs ≤ size_max = ground (arith, v.addressable) in
            let w : u32 (length t.integers) ≡ length t.integers = omega arith in
            record {
              table = new_table-IsTable t negative limbs v h n z absent room fits;
              extends = new_table-Extends t negative limbs v h n z absent room fits;
              result = inl (rw w (new_table-Denotes t negative limbs v h n z absent room fits));
            })
      ]
  where
    split :
        (leb invalid_id (length t.integers) || ltb (size_max - length t.limbs) (length limbs))
          ≡ true
        → (invalid_id ≤ length t.integers) ⊎ (size_max < length t.limbs + length limbs)
    split e = ground arith

    no_room :
        (leb invalid_id (length t.integers) || ltb (size_max - length t.limbs) (length limbs))
          ≡ true
        → IsFull t (signed negative (value limbs))
    no_room e = elim (split e) [
      | inl all_ids ↦ inl all_ids
      | inr long ↦ inr (limbs, h, n, sym (magnitude-signed negative (value limbs)), long)
    ]
