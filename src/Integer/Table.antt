-- ===== src/Integer/Table.antt =====
-- src/integer.c: what a table of integers means, and when it is canonical.
use pigen.Common.{
  ℕ, ◌+◌, ◌≤◌, ◌<◌, ◌≡◌, ◌≢◌, refl, ap, ◌∙◌, ◌⊎◌, Bool, true, false, some, List, arith, length,
  get_elem?, drop, length-take, length-drop, All, All-get_elem?, size_max, get_elem?-lt, inl, inr,
}
use pigen.Common.Int.{ℤ, signed, magnitude}
use pigen.Magnitude.Value.{value, IsLimbs, IsNormal}
use pigen.Integer.{Integer, IntegerTable, invalid_id, integer_get, slice, integer_limbs}

-- An entry holds a normalized magnitude within the array, and 0 has no sign.
pub record IsStored (limbs : List ℕ) (k : Integer) : Type 0 where
  pub within : k.first_limb + k.limb_count ≤ length limbs
  pub limbs32 : IsLimbs (slice limbs k)
  pub normal : IsNormal (slice limbs k)
  pub zero_unsigned : k.limb_count ≡ 0 → k.negative ≡ false

-- No integer is stored twice.
abbrev pub IsDistinct : IntegerTable → Type 0
IsDistinct t =
    (i j : ℕ) (k l : Integer)
    → get_elem? t.integers i ≡ some k
    → get_elem? t.integers j ≡ some l
    → k.negative ≡ l.negative
    → slice t.limbs k ≡ slice t.limbs l
    → i ≡ j

pub record IsTable (t : IntegerTable) : Type 0 where
  pub stored : All (IsStored t.limbs) t.integers
  pub distinct : IsDistinct t
  pub countable : length t.integers ≤ invalid_id
  pub addressable : length t.limbs ≤ size_max

abbrev integer_value : IntegerTable → Integer → ℤ
integer_value t k = signed k.negative (value (slice t.limbs k))

-- The id stands for the integer `x`.
pub record Denotes (t : IntegerTable) (id : ℕ) (x : ℤ) : Type 0 where
  pub entry : Integer
  pub found : integer_get t id ≡ some entry
  pub means : integer_value t entry ≡ x

-- Ids keep their entries and these their limbs; nothing is taken out of the arrays.
pub record Extends (t u : IntegerTable) : Type 0 where
  pub keeps : (id : ℕ) (k : Integer) → integer_get t id ≡ some k → integer_get u id ≡ some k
  pub same_limbs :
      (id : ℕ) (k : Integer) → integer_get t id ≡ some k → slice u.limbs k ≡ slice t.limbs k
  pub more_integers : length t.integers ≤ length u.integers
  pub more_limbs : length t.limbs ≤ length u.limbs

pub Extends-refl : (t : IntegerTable) → Extends t t
Extends-refl t = record {
  keeps = λ id k e. e;
  same_limbs = λ id k e. refl;
  more_integers = omega arith;
  more_limbs = omega arith;
}

pub Extends-trans : {t u v : IntegerTable} → Extends t u → Extends u v → Extends t v
Extends-trans e f = record {
  keeps = λ id k g. f.keeps id k (e.keeps id k g);
  same_limbs = λ id k g. f.same_limbs id k (e.keeps id k g) ∙ e.same_limbs id k g;
  more_integers = omega (arith, e.more_integers, f.more_integers);
  more_limbs = omega (arith, e.more_limbs, f.more_limbs);
}

-- What an id stands for stays.
pub Extends-Denotes :
    {t u : IntegerTable} {id : ℕ} {x : ℤ} → Extends t u → Denotes t id x → Denotes u id x
Extends-Denotes {id} e d = record {
  entry = d.entry;
  found = e.keeps id d.entry d.found;
  means =
      ap (λ (l : List ℕ). signed d.entry.negative (value l)) (e.same_limbs id d.entry d.found)
      ∙ d.means;
}

pub integer_get-get_elem? :
    (t : IntegerTable) (id : ℕ) (k : Integer)
    → integer_get t id ≡ some k
    → get_elem? t.integers id ≡ some k
unfolding integer_get
integer_get-get_elem? t id k e = ground arith

pub get_elem?-integer_get :
    (t : IntegerTable) (id : ℕ) (k : Integer)
    → length t.integers ≤ invalid_id
    → get_elem? t.integers id ≡ some k
    → integer_get t id ≡ some k
unfolding integer_get
get_elem?-integer_get t id k c e = ground (arith, get_elem?-lt t.integers id e)

pub entry-IsStored :
    {t : IntegerTable} (id : ℕ) (k : Integer)
    → IsTable t
    → integer_get t id ≡ some k
    → IsStored t.limbs k
entry-IsStored {t} id k v e =
    All-get_elem? (IsStored t.limbs) t.integers id v.stored (integer_get-get_elem? t id k e)

pub length-slice :
    (limbs : List ℕ) (k : Integer)
    → k.first_limb + k.limb_count ≤ length limbs
    → length (slice limbs k) ≡ k.limb_count
length-slice limbs k h =
    omega
      (arith, length-take k.limb_count (drop k.first_limb limbs), length-drop k.first_limb limbs)

-- The pointer that the code reads is null for 0 only.
pub integer_limbs-slice :
    (t : IntegerTable) (k : Integer)
    → IsStored t.limbs k
    → k.limb_count ≢ 0
    → integer_limbs t k ≡ some (slice t.limbs k)
unfolding integer_limbs
integer_limbs-slice t k s ne = ground (arith, s.within)

pub signed-injective :
    (a b : Bool) (m n : ℕ)
    → (m ≡ 0 → a ≡ false)
    → (n ≡ 0 → b ≡ false)
    → signed a m ≡ signed b n
    → (a ≡ b) × (m ≡ n)
signed-injective true true m n h k e = ground (arith)
signed-injective true false m n h k e = ground (arith)
signed-injective false true m n h k e = ground (arith)
signed-injective false false m n h k e = ground (arith)

-- The table has no room for `x`: all the ids are given out, or its limbs would pass SIZE_MAX.
abbrev pub IsFull : IntegerTable → ℤ → Type 0
IsFull t x =
    (invalid_id ≤ length t.integers)
    ⊎ ((xs : List ℕ) × IsLimbs xs
        × IsNormal xs
        × (value xs ≡ magnitude x)
        × (size_max < length t.limbs + length xs))

-- A table without room stays one when it grows.
pub Extends-IsFull : {t u : IntegerTable} (x : ℤ) → Extends t u → IsFull t x → IsFull u x
Extends-IsFull x e (inl all_ids) = inl (omega (arith, e.more_integers, all_ids))
Extends-IsFull x e (inr (xs, h, n, q, long)) = inr (xs, h, n, q, omega (arith, e.more_limbs, long))

-- What an operation on the table promises: the table stays canonical, the ids that were given out
-- keep their meaning, and the result stands for `x`, or is invalid for the reason `Refused`.
pub record Yields (t : IntegerTable) (Refused : Type 0) (x : ℤ) (r : IntegerTable × ℕ)
    : Type 0 where
  pub table : IsTable r.0
  pub extends : Extends t r.0
  pub result : Denotes r.0 r.1 x ⊎ ((r.1 ≡ invalid_id) × Refused)
