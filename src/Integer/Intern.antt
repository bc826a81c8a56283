-- ===== src/Integer/Intern.antt =====
-- src/integer.c, `integer_intern`: the id of an integer, old or new.
mod Search
mod Append
use pigen.Common.{
  ℕ, zero, suc, ◌+◌, ◌-◌, ◌*◌, ◌^◌, ◌≤◌, ◌<◌, ◌≡◌, ◌≢◌, refl, sym, ap, ap₂, subst, ◌∙◌, ◌⊎◌, inl,
  inr, Bool, true, false, Option, none, some, List, [], ◌∷◌, ◌++◌, arith, length, size_max,
  Option-cases,
}
use pigen.Common.Int.{ℤ, pos, negsuc, signed, magnitude}
use pigen.Magnitude.{normalized}
use pigen.Magnitude.Value.{
  value, IsLimbs, IsNormal, value-injective, length-eq_zero, value-normalized, normalized-IsNormal,
  normalized-IsLimbs,
}
use pigen.Integer.{
  Integer, IntegerTable, invalid_id, integer_get, slice, find_integer, append_integer, sign_of,
  find_or_append, integer_intern,
}
use pigen.Integer.Table.{
  IsStored, IsTable, Denotes, Extends, Extends-refl, entry-IsStored, signed-injective,
  integer_get-get_elem?, length-slice, get_elem?-integer_get, IsFull, Yields,
}
use Search.{find_integer-found, find_integer-missing}
use Append.{append_integer-Yields}

find_or_append-Yields :
    (t : IntegerTable) (negative : Bool) (limbs : List ℕ)
    → IsTable t
    → IsLimbs limbs
    → IsNormal limbs
    → (length limbs ≡ 0 → negative ≡ false)
    → Yields t
        (IsFull t (signed negative (value limbs)))
        (signed negative (value limbs))
        (find_or_append t negative limbs)
unfolding find_or_append
find_or_append-Yields t negative limbs v h n z =
    elim (Option-cases (find_integer t t.integers 0 negative limbs)) [
      | inl missing ↦
          rw (missing, find_or_append)
            (append_integer-Yields t negative limbs v h n z
              (find_integer-missing t t.integers 0 negative limbs v.stored missing))
      | inr (id, hit) ↦
          rw (hit, find_or_append)
            (record { table = v; extends = Extends-refl t; result = inl (known id hit) })
    ]
  where
    known :
        (id : ℕ)
        → find_integer t t.integers 0 negative limbs ≡ some id
        → Denotes t id (signed negative (value limbs))
    known id hit =
        let f =
          find_integer-found t t.integers 0 negative limbs id v.stored (omega (arith, v.countable))
            hit in
        let e : id ≡ f.0 = omega (arith, f.2) in
        record {
          entry = f.1;
          found = get_elem?-integer_get t id f.1 v.countable (rw e f.3);
          means = ap₂ (λ (s : Bool) (l : List ℕ). signed s (value l)) f.4 f.5;
        }

signed-sign_of :
    (negative : Bool) (limbs : List ℕ)
    → signed (sign_of negative limbs) (value limbs) ≡ signed negative (value limbs)
signed-sign_of true [] = refl
signed-sign_of false [] = refl
signed-sign_of negative (x ∷ limbs) = refl

sign_of-zero :
    (negative : Bool) (limbs : List ℕ) → length limbs ≡ 0 → sign_of negative limbs ≡ false
sign_of-zero negative [] e = refl
sign_of-zero negative (x ∷ limbs) e = absurd (omega arith)

-- In a canonical table and for 32-bit limbs, integer_intern keeps the table canonical and what its
-- ids stand for, and gives the id of the integer with this sign and magnitude, or the invalid id
-- where the table has no room.
pub integer_intern-Yields :
    (t : IntegerTable) (negative : Bool) (limbs : List ℕ)
    → IsTable t
    → IsLimbs limbs
    → Yields t
        (IsFull t (signed negative (value limbs)))
        (signed negative (value limbs))
        (integer_intern t negative limbs)
unfolding integer_intern
integer_intern-Yields t negative limbs v h =
    subst
      (λ (x : ℤ).
        Yields t (IsFull t x) x
          (find_or_append t (sign_of negative (normalized limbs)) (normalized limbs)))
      (signed-sign_of negative (normalized limbs) ∙ ap (signed negative) (value-normalized limbs))
      (find_or_append-Yields t (sign_of negative (normalized limbs)) (normalized limbs) v
        (normalized-IsLimbs limbs h) (normalized-IsNormal limbs)
        (sign_of-zero negative (normalized limbs)))
