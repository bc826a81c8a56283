-- ===== src/RtlName/Pigeonhole.antt =====
-- src/rtl_name.c, `unique_name`: its candidates, and lists of texts.
use pigen.Common.{
  ℕ, zero, suc, ◌+◌, ◌-◌, ◌*◌, ◌/◌, ◌%◌, ◌≤◌, ◌<◌, ◌≡◌, refl, sym, ap, ◌∙◌, inl, inr, Bool, true,
  false, List, [], ◌∷◌, ◌++◌, arith, ltb, if◌then◌else◌, length, Bool-cases,
}
use pigen.TransferType.{bytes_same}
use pigen.TransferType.Laws.{bytes_same_iff}
use pigen.RtlName.{decimal, suffixed_name}

abbrev pub member : List (List ℕ) → List ℕ → Bool
member [] x = false
member (y ∷ texts) x = let later = member texts x in if bytes_same y x then true else later

abbrev remove : List ℕ → List (List ℕ) → List (List ℕ)
remove x [] = []
remove x (y ∷ texts) = let later = remove x texts in if bytes_same y x then texts else y ∷ later

length-remove :
    (x : List ℕ) (texts : List (List ℕ))
    → member texts x ≡ true
    → suc (length (remove x texts)) ≡ length texts
length-remove x [] m = cc
length-remove x (y ∷ texts) m = elim (Bool-cases (bytes_same y x)) [
  | inl e ↦ rw e refl
  | inr e ↦ rw e (ap suc (length-remove x texts (rw e at m)))
]

member-remove :
    (x z : List ℕ) (texts : List (List ℕ))
    → (x ≡ z → ⊥)
    → member texts z ≡ true
    → member (remove x texts) z ≡ true
member-remove x z [] d m = m
member-remove x z (y ∷ texts) d m = elim (Bool-cases (bytes_same y x)) [
  | inl e ↦ rw e (elim (Bool-cases (bytes_same y z)) [
    | inl f ↦ absurd (d (sym ((bytes_same_iff y x).0 e) ∙ (bytes_same_iff y z).0 f))
    | inr f ↦ rw f at m
  ])
  | inr e ↦ rw e (elim (Bool-cases (bytes_same y z)) [
    | inl f ↦ rw f refl
    | inr f ↦ rw f (member-remove x z texts d (rw f at m))
  ])
]

-- So many different texts do not stand in a list of fewer.
pub pigeonhole :
    (f : ℕ → List ℕ) (n c : ℕ) (texts : List (List ℕ))
    → ((a b : ℕ) → f a ≡ f b → a ≡ b)
    → ((k : ℕ) → c ≤ k → k < c + n → member texts (f k) ≡ true)
    → n ≤ length texts
pigeonhole f zero c texts i m = omega arith
pigeonhole f (suc n) c texts i m =
    let l = length-remove (f c) texts (m c (omega arith) (omega arith)) in
    let h = pigeonhole f n (suc c) (remove (f c) texts) i (λ k a b.
      member-remove (f c) (f k) texts (λ q. apart k a (i c k q))
        (m k (omega arith) (omega arith))) in
    omega (arith, l, h)
  where
    apart : (k : ℕ) → suc c ≤ k → c ≡ k → ⊥
    apart k a q = omega arith

-- The number that digits write.
abbrev value : List ℕ → ℕ → ℕ
value [] n = n
value (d ∷ digits) n = value digits (n * 10 + (d - b'0'))

value-append :
    (digits : List ℕ) (d n : ℕ) → value (digits ++ d ∷ []) n ≡ value digits n * 10 + (d - b'0')
value-append [] d n = refl
value-append (e ∷ digits) d n = value-append digits d (n * 10 + (e - b'0'))

value-decimal : (fuel n : ℕ) → n < fuel → value (decimal fuel n) 0 ≡ n
value-decimal zero n l = absurd (omega arith)
value-decimal (suc fuel) n l = elim (Bool-cases (ltb n 10)) [
  | inl e ↦ rw e (omega arith)
  | inr e ↦ rw e (
      value-append (decimal fuel (n / 10)) (b'0' + n % 10) 0
      ∙ ap (λ (v : ℕ). v * 10 + (b'0' + n % 10 - b'0')) (value-decimal fuel (n / 10) (less e))
      ∙ omega arith)
]
  where
    less : ltb n 10 ≡ false → n / 10 < fuel
    less e = ground arith

append-cancel : (xs ys zs : List ℕ) → xs ++ ys ≡ xs ++ zs → ys ≡ zs
append-cancel [] ys zs e = e
append-cancel (x ∷ xs) ys zs e = append-cancel xs ys zs (cc)

pub suffixed_name_injective :
    (stem : List ℕ) (a b : ℕ) → suffixed_name stem a ≡ suffixed_name stem b → a ≡ b
suffixed_name_injective stem a b e =
    sym (value-decimal (suc a) a (omega arith))
    ∙ ap (λ (s : List ℕ). value s 0) digits
    ∙ value-decimal (suc b) b (omega arith)
  where
    digits : decimal (suc a) a ≡ decimal (suc b) b
    digits = cc (append-cancel stem (b'_' ∷ decimal (suc a) a) (b'_' ∷ decimal (suc b) b) e)
