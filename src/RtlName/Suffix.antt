-- ===== src/RtlName/Suffix.antt =====
-- src/rtl_name.c, `unique_name`: the search for a suffix.
use pigen.Common.{
  ℕ, zero, suc, ◌+◌, ◌≤◌, ◌<◌, ◌≡◌, ◌≢◌, refl, subst, ◌⊎◌, inl, inr, true, List, [], ◌∷◌, arith,
  ◌==◌, ==_iff, if_cases, length, All, Bool-cases,
}
use pigen.TransferType.{bytes_same}
use pigen.TransferType.Laws.{bytes_same_iff}
use pigen.RtlName.{
  RtlName, Staged, unset, staged, Taken, taken, unused, unreadable, staged_taken, name_taken,
  suffixed_name, NameText, found, indeterminate_text, no_candidate, taken_text, suffix_loop,
  unique_name,
}
use pigen.RtlName.Pigeonhole.{member, pigeonhole, suffixed_name_injective}

-- The texts that `name_taken` compares.
abbrev staged_texts : List Staged → List (List ℕ)
staged_texts [] = []
staged_texts (unset ∷ stage) = []
staged_texts (staged text ∷ stage) = text ∷ staged_texts stage

abbrev texts : List RtlName → List Staged → List (List ℕ)
texts [] stage = staged_texts stage
texts (known ∷ names) stage = known.text ∷ texts names stage

length-staged_texts : (stage : List Staged) → length (staged_texts stage) ≤ length stage
length-staged_texts [] = omega arith
length-staged_texts (unset ∷ stage) = omega arith
length-staged_texts (staged text ∷ stage) = omega (arith, length-staged_texts stage)

length-texts :
    (names : List RtlName) (stage : List Staged)
    → length (texts names stage) ≤ length names + length stage
length-texts [] stage = omega (arith, length-staged_texts stage)
length-texts (known ∷ names) stage = omega (arith, length-texts names stage)

staged_taken-member :
    (stage : List Staged) (name : List ℕ)
    → staged_taken stage name ≡ taken
    → member (staged_texts stage) name ≡ true
staged_taken-member [] name e = cc
staged_taken-member (unset ∷ stage) name e = cc
staged_taken-member (staged text ∷ stage) name e = elim (Bool-cases (bytes_same text name)) [
  | inl f ↦ rw f refl
  | inr f ↦ rw f (staged_taken-member stage name (rw f at e))
]

name_taken-member :
    (names : List RtlName) (stage : List Staged) (name : List ℕ)
    → name_taken names stage name ≡ taken
    → member (texts names stage) name ≡ true
name_taken-member [] stage name e = staged_taken-member stage name e
name_taken-member (known ∷ names) stage name e = elim (Bool-cases (bytes_same known.text name)) [
  | inl f ↦ rw f refl
  | inr f ↦ rw f (name_taken-member names stage name (rw f at e))
]

taken_text-no_candidate :
    (t : Taken) (name : List ℕ) (later : NameText)
    → taken_text t name later ≡ no_candidate
    → (t ≡ taken) × (later ≡ no_candidate)
taken_text-no_candidate taken name later e = (refl, e)
taken_text-no_candidate unused name later e = absurd (apart e)
  where
    apart : found name ≡ no_candidate → ⊥
    apart q = cc
taken_text-no_candidate unreadable name later e = absurd (apart e)
  where
    apart : indeterminate_text ≡ no_candidate → ⊥
    apart q = cc

suffix_loop-taken :
    (fuel : ℕ) (names : List RtlName) (stage : List Staged) (stem : List ℕ) (c : ℕ)
    → suffix_loop fuel names stage stem c ≡ no_candidate
    → (k : ℕ) → c ≤ k
    → k < c + fuel
    → name_taken names stage (suffixed_name stem k) ≡ taken
unfolding suffix_loop
suffix_loop-taken zero names stage stem c e k a b = absurd (omega arith)
suffix_loop-taken (suc fuel) names stage stem c e k a b =
    let h = taken_text-no_candidate (name_taken names stage (suffixed_name stem c)) _ _ e in
    elim (Bool-cases (c == k)) [
      | inl q ↦
          subst (λ (j : ℕ). name_taken names stage (suffixed_name stem j) ≡ taken)
            ((==_iff c k).0 q) h.0
      | inr q ↦ suffix_loop-taken fuel names stage stem (suc c) h.1 k (ground arith) (omega arith)
    ]

taken_text-found :
    (t : Taken) (name : List ℕ) (later : NameText) (text : List ℕ)
    → taken_text t name later ≡ found text
    → ((t ≡ unused) × (name ≡ text)) ⊎ (later ≡ found text)
taken_text-found taken name later text e = inr e
taken_text-found unused name later text e = inl (refl, cc)
taken_text-found unreadable name later text e = cc

suffix_loop-unused :
    (fuel : ℕ) (names : List RtlName) (stage : List Staged) (stem : List ℕ) (c : ℕ) (text : List ℕ)
    → suffix_loop fuel names stage stem c ≡ found text
    → name_taken names stage text ≡ unused
unfolding suffix_loop
suffix_loop-unused zero names stage stem c text e = cc
suffix_loop-unused (suc fuel) names stage stem c text e =
    elim (taken_text-found (name_taken names stage (suffixed_name stem c)) (suffixed_name stem c)
      (suffix_loop fuel names stage stem (suc c)) text e) [
        | inl h ↦ subst (λ (s : List ℕ). name_taken names stage s ≡ unused) h.1 h.0
        | inr h ↦ suffix_loop-unused fuel names stage stem (suc c) text h
      ]

-- Some candidate is free, so the search ends.
pub unique_name-ends :
    (names : List RtlName) (stage : List Staged) (stem : List ℕ)
    → unique_name names stage stem ≡ no_candidate
    → ⊥
unfolding unique_name
unique_name-ends names stage stem e =
    let fuel = suc (length names + length stage) in
    let h = taken_text-no_candidate (name_taken names stage stem) stem _ e in
    let all = suffix_loop-taken fuel names stage stem 1 h.1 in
    let few =
      pigeonhole (suffixed_name stem) fuel 1 (texts names stage) (suffixed_name_injective stem)
        (λ k a b. name_taken-member names stage (suffixed_name stem k) (all k a b)) in
    omega (arith, few, length-texts names stage)

pub unique_name-unused :
    (names : List RtlName) (stage : List Staged) (stem text : List ℕ)
    → unique_name names stage stem ≡ found text
    → name_taken names stage text ≡ unused
unfolding unique_name
unique_name-unused names stage stem text e =
    elim (taken_text-found (name_taken names stage stem) stem _ text e) [
      | inl h ↦ subst (λ (s : List ℕ). name_taken names stage s ≡ unused) h.1 h.0
      | inr h ↦ suffix_loop-unused _ names stage stem 1 text h
    ]

-- An unused name differs from all the names of the arena.
pub name_taken-differs :
    (names : List RtlName) (stage : List Staged) (name : List ℕ)
    → name_taken names stage name ≡ unused
    → All (λ (known : RtlName). known.text ≡ name → ⊥) names
name_taken-differs [] stage name e = tt
name_taken-differs (known ∷ names) stage name e = elim (Bool-cases (bytes_same known.text name)) [
  | inl f ↦ absurd (apart (rw f at e))
  | inr f ↦ (
    λ q. cc ((bytes_same_iff known.text name).1 q, f),
    name_taken-differs names stage name (rw f at e),
  )
]
  where
    apart : taken ≡ unused → ⊥
    apart q = cc

abbrev pub AllStaged : List Staged → Type 0
AllStaged [] = Unit
AllStaged (unset ∷ stage) = ⊥
AllStaged (staged text ∷ stage) = AllStaged stage

name_taken-AllStaged :
    (names : List RtlName) (stage : List Staged) (name : List ℕ)
    → AllStaged stage
    → name_taken names stage name ≢ unreadable
name_taken-AllStaged [] [] name h = λ q. cc
name_taken-AllStaged [] (unset ∷ stage) name h = absurd h
name_taken-AllStaged [] (staged text ∷ stage) name h =
    if_cases (λ (t : Taken). t ≢ unreadable) (bytes_same text name) (λ e q. cc)
      (λ e. name_taken-AllStaged [] stage name h)
name_taken-AllStaged (known ∷ names) stage name h =
    if_cases (λ (t : Taken). t ≢ unreadable) (bytes_same known.text name) (λ e q. cc)
      (λ e. name_taken-AllStaged names stage name h)

taken_text-readable :
    (t : Taken) (name : List ℕ) (later : NameText)
    → t ≢ unreadable
    → later ≢ indeterminate_text
    → taken_text t name later ≢ indeterminate_text
taken_text-readable taken name later d e = e
taken_text-readable unused name later d e = λ q. cc
taken_text-readable unreadable name later d e = absurd (d refl)

suffix_loop-readable :
    (fuel : ℕ) (names : List RtlName) (stage : List Staged) (stem : List ℕ) (c : ℕ)
    → AllStaged stage
    → suffix_loop fuel names stage stem c ≢ indeterminate_text
unfolding suffix_loop
suffix_loop-readable zero names stage stem c h = λ q. cc
suffix_loop-readable (suc fuel) names stage stem c h =
    taken_text-readable (name_taken names stage (suffixed_name stem c)) _ _
      (name_taken-AllStaged names stage _ h) (suffix_loop-readable fuel names stage stem (suc c) h)

pub unique_name-readable :
    (names : List RtlName) (stage : List Staged) (stem : List ℕ)
    → AllStaged stage
    → unique_name names stage stem ≢ indeterminate_text
unfolding unique_name
unique_name-readable names stage stem h =
    taken_text-readable (name_taken names stage stem) stem _
      (name_taken-AllStaged names stage stem h) (suffix_loop-readable _ names stage stem 1 h)
