-- ===== src/RtlName/Assign.antt =====
-- src/rtl_name.c, `pigen_rtl_assign_names`: what a call does.
use pigen.Common.{
  ℕ, suc, ◌+◌, ◌<◌, ◌≡◌, ◌≢◌, refl, sym, ap, subst, ◌∙◌, ◌⊎◌, inl, inr, true, false, not, some,
  List, [], ◌∷◌, ◌++◌, arith, ltb, ◌==◌, ==_iff, if_cases, u32, length, get_elem?, get_elem?-lt,
  All, Bool-cases,
}
use pigen.Integer.{invalid_id}
use pigen.Source.{
  SourceSpan, SourceFile, invalid_span, pigen_source_span_valid, pigen_source_span_text,
}
use pigen.TransferType.{bytes_same}
use pigen.TransferType.Laws.{bytes_same_iff}
use pigen.RtlName.{
  RtlName, NameRequest, source_kind, request_valid, unset, Taken, unreadable, name_taken,
  requests_match, match_name, match_request, resolve_loop, Assigned, refused, assigned,
  indeterminate, out_of_fuel, c_string, role_stem, unique_name, publish_loop, all_valid,
  pigen_rtl_assign_names,
}
use pigen.RtlName.Publish.{NamedAt, IsUnnamed, Publishes, match_name-cases, requests_match_iff}
use pigen.RtlName.Resolve.{firsts, IsFresh, resolve_tail, resolve_loop-resolve_tail}
use pigen.RtlName.Phases.{Outcome, phases}

-- What a call does on each of its outcomes.
abbrev pub Assigns : List SourceFile → List NameRequest → List RtlName → Assigned → Type 0
Assigns files requests names refused =
    (requests ≡ [])
    ⊎ ((i : ℕ) × (r : NameRequest) × (get_elem? requests i ≡ some r)
        × (request_valid files r ≡ false))
Assigns files requests names (assigned more) =
    (pairs : List (NameRequest × ℕ)) × (firsts pairs ≡ requests) × Publishes files names pairs more
Assigns files requests names indeterminate = IsFresh names [] requests → ⊥
Assigns files requests names out_of_fuel = ⊥

firsts-resolve_tail :
    (names : List RtlName) (earlier : List (NameRequest × ℕ)) (additions : ℕ)
    (requests : List NameRequest)
    → firsts (resolve_tail names earlier additions requests) ≡ requests
firsts-resolve_tail names earlier additions [] = refl
firsts-resolve_tail names earlier additions (request ∷ requests) =
    if_cases (λ (tail : List (NameRequest × ℕ)). firsts tail ≡ request ∷ requests)
      (not (match_name names 0 request == invalid_id))
      (λ e. ap (◌∷◌ request) (
        firsts-resolve_tail names (earlier ++ (request, match_name names 0 request) ∷ []) additions
          requests))
      (λ e.
        if_cases (λ (tail : List (NameRequest × ℕ)). firsts tail ≡ request ∷ requests)
          (not (match_request earlier request == invalid_id))
          (λ f. ap (◌∷◌ request) (
            firsts-resolve_tail names (earlier ++ (request, match_request earlier request) ∷ [])
              additions requests))
          (λ f. ap (◌∷◌ request) (
            firsts-resolve_tail names (earlier ++ (request, u32 (length names + additions)) ∷ [])
              (suc additions) requests)))

all_valid-invalid :
    (files : List SourceFile) (requests : List NameRequest)
    → all_valid files requests ≡ false
    → (i : ℕ) × (r : NameRequest) × (get_elem? requests i ≡ some r)
      × (request_valid files r ≡ false)
all_valid-invalid files [] e = cc
all_valid-invalid files (request ∷ requests) e = elim (Bool-cases (request_valid files request)) [
  | inl v ↦ let h = all_valid-invalid files requests (rw v at e) in (suc h.0, h.1, h.2, h.3)
  | inr v ↦ (0, request, refl, v)
]

Outcome-Assigns :
    (files : List SourceFile) (requests : List NameRequest) (names : List RtlName) (r : Assigned)
    (pairs : List (NameRequest × ℕ))
    → firsts pairs ≡ requests
    → Outcome files names (IsFresh names [] requests) pairs r
    → Assigns files requests names r
Outcome-Assigns files requests names refused pairs e o = absurd o
Outcome-Assigns files requests names (assigned more) pairs e o = (pairs, e, o)
Outcome-Assigns files requests names indeterminate pairs e o = o
Outcome-Assigns files requests names out_of_fuel pairs e o = o

Publishes-none : (files : List SourceFile) (names : List RtlName) → Publishes files names [] names
Publishes-none files names = record {
  keeps = λ i n e. e;
  resolved = tt;
  requested = λ i n e. inl e;
  distinct = λ d. d;
  copied = λ i n e l k. absurd (omega (arith, get_elem?-lt names i e, l));
  unshared = λ i j n m e l k f s. absurd (omega (arith, get_elem?-lt names i e, l));
}

-- With room for the ids: a call is refused only if no name or an invalid one is requested; it reads a
-- name that it did not set only if two requests, or a request and a name of the arena, have one
-- identity; and else it publishes. The arena keeps its names with their ids, each request has a name
-- of its identity, only requested names are added, no two have one identity if none had, a name of a
-- source is its text, and a new internal name differs from all names before it.
pub pigen_rtl_assign_names-Assigns :
    (files : List SourceFile) (requests : List NameRequest) (names : List RtlName)
    → length names + length requests < invalid_id
    → Assigns files requests names (pigen_rtl_assign_names files requests names)
unfolding pigen_rtl_assign_names
pigen_rtl_assign_names-Assigns files requests names b =
    if_cases (Assigns files requests names) (length requests == 0)
      (λ e. inl (empty requests ((==_iff (length requests) 0).0 e)))
      (λ e.
        if_cases (Assigns files requests names) (all_valid files requests)
          (λ v.
            subst
              (λ (tail : List (NameRequest × ℕ)).
                Assigns files requests names (publish_loop files tail names []))
              (sym (resolve_loop-resolve_tail names [] 0 requests))
              (Outcome-Assigns files requests names _ (resolve_tail names [] 0 requests)
                (firsts-resolve_tail names [] 0 requests)
                (phases files names (IsFresh names [] requests) requests [] 0 names []
                  (Publishes-none files names) (omega arith) (omega (arith, b)) v (λ h. (tt, h)))))
          (λ v. inr (all_valid-invalid files requests v)))
  where
    empty : (rs : List NameRequest) → length rs ≡ 0 → rs ≡ []
    empty [] e = refl
    empty (r ∷ rs) e = absurd (omega (arith, e))

-- The name of a source whose text is "payload" is not kept apart from a payload's that is requested
-- before it: both get that text.
pub pigen_rtl_assign_names-collision :
    (files : List SourceFile) (span : SourceSpan) (text : List ℕ)
    → pigen_source_span_valid files span ≡ true
    → pigen_source_span_text files span ≡ some text
    → c_string text ≡ role_stem 2
    → pigen_rtl_assign_names files
        (record { kind = 2; origin = invalid_span }
          ∷ record { kind = source_kind; origin = span }
          ∷ [])
        []
      ≡ assigned (
          record { origin = invalid_span; kind = 2; text = role_stem 2 }
          ∷ record { origin = span; kind = source_kind; text = role_stem 2 }
          ∷ [])
unfolding resolve_loop unique_name publish_loop pigen_rtl_assign_names
pigen_rtl_assign_names-collision files span text v t c = rw (v, t, c) refl

unknown_name :
    (names : List RtlName) (b : NameRequest)
    → length names < invalid_id
    → IsUnnamed names b
    → match_name names 0 b ≡ invalid_id
unknown_name names b l u = elim (match_name-cases names 0 b (omega (arith, l))) [
  | inl h ↦ h.0
  | inr (i, q, n) ↦ absurd (u i n.0 n.1 n.2)
]

resolved_pair :
    (names : List RtlName) (a b : NameRequest) (j : ℕ)
    → suc (length names) < invalid_id
    → j < length names
    → match_name names 0 a ≡ j
    → match_name names 0 b ≡ invalid_id
    → a ≢ b
    → resolve_loop names [] 0 (a ∷ b ∷ []) ≡ (a, j) ∷ (b, length names) ∷ []
unfolding resolve_loop
resolved_pair names a b j l s q u d =
    rw (q, u, other, known) (ap (λ (k : ℕ). (a, j) ∷ (b, k) ∷ []) room)
  where
    other : requests_match a b ≡ false
    other = elim (Bool-cases (requests_match a b)) [
      | inl e ↦ absurd (d ((requests_match_iff a b).0 e))
      | inr e ↦ e
    ]

    known : (j == invalid_id) ≡ false
    known = ground arith

    room : u32 (length names + 0) ≡ length names
    room = omega (arith, l)

name_taken-unset :
    (names : List RtlName) (name : List ℕ)
    → All (λ (known : RtlName). known.text ≢ name) names
    → name_taken names (unset ∷ []) name ≡ unreadable
name_taken-unset [] name h = refl
name_taken-unset (known ∷ names) name h =
    if_cases (λ (t : Taken). t ≡ unreadable) (bytes_same known.text name)
      (λ e. absurd (h.0 ((bytes_same_iff known.text name).0 e)))
      (λ e. name_taken-unset names name h.1)

published_pair :
    (files : List SourceFile) (names : List RtlName) (a b : NameRequest) (j : ℕ)
    → j < length names
    → b.kind ≢ source_kind
    → All (λ (known : RtlName). known.text ≢ role_stem b.kind) names
    → publish_loop files ((a, j) ∷ (b, length names) ∷ []) names [] ≡ indeterminate
unfolding publish_loop unique_name
published_pair files names a b j s k d =
    rw (known, new, internal, name_taken-unset names (role_stem b.kind) d) refl
  where
    known : ltb j (length names) ≡ true
    known = ground arith

    new : ltb (length names) (length names) ≡ false
    new = ground arith

    internal : (b.kind == source_kind) ≡ false
    internal = ground arith

-- A name that has been assigned, requested again before an internal name whose identity and stem are
-- new, makes the call read a staged name that it did not set.
pub pigen_rtl_assign_names-indeterminate :
    (files : List SourceFile) (names : List RtlName) (i : ℕ) (a b : NameRequest)
    → suc (length names) < invalid_id
    → request_valid files a ≡ true
    → request_valid files b ≡ true
    → NamedAt names i a
    → IsUnnamed names b
    → b.kind ≢ source_kind
    → All (λ (known : RtlName). known.text ≢ role_stem b.kind) names
    → pigen_rtl_assign_names files (a ∷ b ∷ []) names ≡ indeterminate
unfolding resolve_loop publish_loop pigen_rtl_assign_names
pigen_rtl_assign_names-indeterminate files names i a b l v w n u k d =
    elim (match_name-cases names 0 a (omega (arith, l))) [
      | inl h ↦ absurd (h.1 i n.0 n.1 n.2)
      | inr (j, q, m) ↦
          let s = get_elem?-lt names j m.1 in
          let r =
            resolved_pair names a b j (omega (arith, l)) s (q ∙ omega arith)
              (unknown_name names b (omega (arith, l)) u) (λ e. u i n.0 n.1 (n.2 ∙ e)) in
          rw (v, w)
            (ap (λ (pairs : List (NameRequest × ℕ)). publish_loop files pairs names []) r
              ∙ published_pair files names a b j s k d)
    ]
