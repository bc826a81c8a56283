-- ===== src/Integer/Arith/Operand.antt =====
-- src/integer.c: an operand as the operations read it from the table.
use pigen.Common.{
  ℕ, ◌≤◌, ◌≡◌, ◌≢◌, refl, sym, ◌∙◌, false, none, some, List, [], ◌∷◌, arith, length, ◌==◌, ==_iff,
  Bool-cases, inl, inr,
}
use pigen.Common.Int.{ℤ, signed}
use pigen.Magnitude.Value.{value, IsLimbs, IsNormal, length-eq_zero}
use pigen.Integer.{Integer, IntegerTable, integer_get, slice, integer_limbs}
use pigen.Integer.Table.{
  IsStored, IsTable, Denotes, entry-IsStored, integer_limbs-slice, length-slice,
}
use pigen.Integer.Arith.{read_limbs, is_broken}

no_limbs : (xs : List ℕ) → length xs ≡ 0 → [] ≡ xs
no_limbs [] e = refl
no_limbs (x ∷ xs) e = absurd (omega arith)

null_limbs : (t : IntegerTable) (k : Integer) → k.limb_count ≡ 0 → integer_limbs t k ≡ none
unfolding integer_limbs
null_limbs t k e = ground arith

-- The operand's record, its limbs as the loops read them, and the integer that they make.
pub record Operand (t : IntegerTable) (id : ℕ) (x : ℤ) : Type 0 where
  pub entry : Integer
  pub found : integer_get t id ≡ some entry
  pub limbs : List ℕ
  pub limbs32 : IsLimbs limbs
  pub normal : IsNormal limbs
  pub count : length limbs ≡ entry.limb_count
  pub few : length limbs ≤ length t.limbs
  pub reads : read_limbs (integer_limbs t entry) ≡ limbs
  pub whole : is_broken entry (integer_limbs t entry) ≡ false
  pub pointer : entry.limb_count ≢ 0 → integer_limbs t entry ≡ some limbs
  pub unsigned : value limbs ≡ 0 → entry.negative ≡ false
  pub means : signed entry.negative (value limbs) ≡ x

pub operand : (t : IntegerTable) (id : ℕ) (x : ℤ) → IsTable t → Denotes t id x → Operand t id x
operand t id x v d = record {
  entry = d.entry;
  found = d.found;
  limbs = slice t.limbs d.entry;
  limbs32 = s.limbs32;
  normal = s.normal;
  count = length-slice t.limbs d.entry s.within;
  few = omega (arith, s.within, length-slice t.limbs d.entry s.within);
  reads = elim (Bool-cases (d.entry.limb_count == 0)) [
    | inl z ↦
        let e : d.entry.limb_count ≡ 0 = (==_iff _ _).0 z in
        rw (null_limbs t d.entry e)
          (no_limbs (slice t.limbs d.entry) (length-slice t.limbs d.entry s.within ∙ e))
    | inr p ↦ rw (integer_limbs-slice t d.entry s (ground arith)) refl
  ];
  whole = elim (Bool-cases (d.entry.limb_count == 0)) [
    | inl z ↦ rw (null_limbs t d.entry ((==_iff _ _).0 z)) (rw z)
    | inr p ↦ rw (integer_limbs-slice t d.entry s (ground arith)) refl
  ];
  pointer = integer_limbs-slice t d.entry s;
  unsigned = λ z. s.zero_unsigned (
      sym (length-slice t.limbs d.entry s.within)
      ∙ length-eq_zero (slice t.limbs d.entry) s.normal z);
  means = d.means;
}
  where
    s : IsStored t.limbs d.entry
    s = entry-IsStored id d.entry v d.found
