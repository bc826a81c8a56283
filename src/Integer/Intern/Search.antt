-- ===== src/Integer/Intern/Search.antt =====
-- src/integer.c: the search of `integer_intern` through the table.
use pigen.Common.{
  ℕ, zero, suc, ◌+◌, ◌^◌, ◌≤◌, ◌≡◌, ◌≢◌, refl, ap, inl, inr, Bool, true, none, some, List, [], ◌∷◌,
  arith, length, ◌&&◌, ◌↔◌, same, same→eq, same_refl, get_elem?, All, u32, Bool-cases,
}
use pigen.Integer.{Integer, IntegerTable, slice, limbs_same, known_same, limbs_equal, find_integer}
use pigen.Integer.Table.{IsStored, integer_limbs-slice, length-slice}

limbs_same_iff : (xs ys : List ℕ) → (limbs_same xs ys ≡ true) ↔ (xs ≡ ys)
unfolding limbs_same
limbs_same_iff [] [] = ground arith
limbs_same_iff [] (y ∷ ys) = ground arith
limbs_same_iff (x ∷ xs) [] = ground arith
limbs_same_iff (x ∷ xs) (y ∷ ys) = ground (arith, limbs_same_iff xs ys)

no_limbs : (xs : List ℕ) → length xs ≡ 0 → xs ≡ []
no_limbs [] e = refl
no_limbs (x ∷ xs) e = absurd (omega arith)

-- The comparison of the code is equality of the stored magnitude.
limbs_equal_iff :
    (t : IntegerTable) (k : Integer) (limbs : List ℕ)
    → IsStored t.limbs k
    → (limbs_equal t k limbs ≡ true) ↔ (slice t.limbs k ≡ limbs)
unfolding limbs_equal known_same
limbs_equal_iff t k limbs s = ground (
  arith,
  length-slice t.limbs k s.within,
  integer_limbs-slice t k s,
  limbs_same_iff (slice t.limbs k) limbs,
  no_limbs limbs,
  no_limbs (slice t.limbs k),
  ap {B = ℕ} (length {A = ℕ}) {x = slice t.limbs k} {y = limbs},
)

found_here :
    (t : IntegerTable) (k : Integer) (negative : Bool) (limbs : List ℕ)
    → IsStored t.limbs k
    → (same k.negative negative && limbs_equal t k limbs) ≡ true
    → (k.negative ≡ negative) × (slice t.limbs k ≡ limbs)
found_here t k negative limbs s e =
    ground (arith, same→eq k.negative negative, limbs_equal_iff t k limbs s)

-- What the search finds is the integer that it looks for.
pub find_integer-found :
    (t : IntegerTable) (xs : List Integer) (i : ℕ) (negative : Bool) (limbs : List ℕ) (id : ℕ)
    → All (IsStored t.limbs) xs
    → i + length xs ≤ 2 ^ 32
    → find_integer t xs i negative limbs ≡ some id
    → (j : ℕ) × (k : Integer) × (id ≡ i + j)
      × (get_elem? xs j ≡ some k)
      × (k.negative ≡ negative)
      × (slice t.limbs k ≡ limbs)
unfolding find_integer
find_integer-found t [] i negative limbs id s le e = cc
find_integer-found t (k ∷ xs) i negative limbs id s le e =
    elim (Bool-cases (same k.negative negative && limbs_equal t k limbs)) [
      | inl hit ↦
          let f = found_here t k negative limbs s.0 hit in
          (0, k, here (rw hit at e), refl, f.0, f.1)
      | inr miss ↦
          let r =
            find_integer-found t xs (i + 1) negative limbs id s.1 (omega arith) (rw miss at e) in
          (suc r.0, r.1, omega (arith, r.2), r.3, r.4, r.5)
    ]
  where
    here : some (u32 i) ≡ some id → id ≡ i + 0
    here p = ground arith

-- It finds what is there.
pub find_integer-missing :
    (t : IntegerTable) (xs : List Integer) (i : ℕ) (negative : Bool) (limbs : List ℕ)
    → All (IsStored t.limbs) xs
    → find_integer t xs i negative limbs ≡ none
    → (j : ℕ) (k : Integer) → get_elem? xs j ≡ some k
    → k.negative ≡ negative
    → slice t.limbs k ≢ limbs
unfolding find_integer
find_integer-missing t [] i negative limbs s e j k g n = cc
find_integer-missing t (x ∷ xs) i negative limbs s e zero k g n =
    ground (arith, limbs_equal_iff t x limbs s.0, same_refl negative)
find_integer-missing t (x ∷ xs) i negative limbs s e (suc j) k g n =
    find_integer-missing t xs (i + 1) negative limbs s.1 (ground arith) j k g n
