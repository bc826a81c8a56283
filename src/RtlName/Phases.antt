-- ===== src/RtlName/Phases.antt =====
-- src/rtl_name.c, `pigen_rtl_assign_names`: its phases, side by side.
use pigen.Common.{
  ℕ, suc, ◌+◌, ◌<◌, ◌≡◌, ◌≢◌, refl, sym, subst, ◌∙◌, inl, inr, true, false, not, Option, none, some,
  List, [], ◌∷◌, ◌++◌, arith, ltb, ◌==◌, ==_iff, if_cases, u32, length, length-append, get_elem?-lt,
  All, All-get_elem?, append-cons, Bool-cases,
}
use pigen.Integer.{invalid_id}
use pigen.Source.{SourceFile, pigen_source_span_valid, pigen_source_span_text}
use pigen.Source.Text.{pigen_source_span_text-found}
use pigen.RtlName.{
  RtlName, NameRequest, source_kind, request_valid, Staged, unset, staged, NameText, found,
  indeterminate_text, no_candidate, unique_name, match_name, match_request, Assigned, refused,
  assigned, indeterminate, out_of_fuel, new_name, copied_text, request_text, role_stem,
  publish_text, publish_loop, all_valid,
}
use pigen.RtlName.Suffix.{
  AllStaged, unique_name-ends, unique_name-unused, unique_name-readable, name_taken-differs,
}
use pigen.RtlName.Publish.{
  NamedAt, IsUnnamed, match_name-cases, match_request-cases, Publishes, Publishes-skip,
  Publishes-new,
}
use pigen.RtlName.Resolve.{firsts, firsts-append, All-firsts, IsFresh, resolve_tail, append-nil}

-- What a call does on each of its outcomes.
abbrev pub Outcome :
    List SourceFile → List RtlName → Type 0 → List (NameRequest × ℕ) → Assigned → Type 0
Outcome files names fresh pairs refused = ⊥
Outcome files names fresh pairs (assigned more) = Publishes files names pairs more
Outcome files names fresh pairs indeterminate = fresh → ⊥
Outcome files names fresh pairs out_of_fuel = ⊥

valid_source :
    (files : List SourceFile) (request : NameRequest)
    → request_valid files request ≡ true
    → (request.kind == source_kind) ≡ true
    → pigen_source_span_valid files request.origin ≡ true
valid_source files request v e = ground arith

copied-no_candidate : (o : Option (List ℕ)) → copied_text o ≢ no_candidate
copied-no_candidate none = λ q. cc
copied-no_candidate (some text) = λ q. cc

copied-readable : (o : Option (List ℕ)) → o ≢ none → copied_text o ≢ indeterminate_text
copied-readable none d = absurd (d refl)
copied-readable (some text) d = λ q. cc

AllStaged-append :
    (stage : List Staged) (text : List ℕ) → AllStaged stage → AllStaged (stage ++ staged text ∷ [])
AllStaged-append [] text h = tt
AllStaged-append (unset ∷ stage) text h = h
AllStaged-append (staged known ∷ stage) text h = AllStaged-append stage text h

all_valid-cons :
    (files : List SourceFile) (request : NameRequest) (requests : List NameRequest)
    → all_valid files (request ∷ requests) ≡ true
    → (request_valid files request ≡ true) × (all_valid files requests ≡ true)
all_valid-cons files request requests v = elim (Bool-cases (request_valid files request)) [
  | inl e ↦ (e, rw e at v)
  | inr e ↦ cc (rw e at v)
]

module _ (files : List SourceFile) (names : List RtlName) (fresh : Type 0) where
  publish_text-Outcome :
      (t : NameText) (request : NameRequest) (more : List RtlName) (stage : List Staged)
      (next : List RtlName → List Staged → Assigned) (pairs : List (NameRequest × ℕ))
      → t ≢ no_candidate
      → (t ≡ indeterminate_text → fresh → ⊥)
      → ((text : List ℕ)
          → t ≡ found text
          → Outcome files names fresh pairs
              (next (more ++ new_name request text ∷ []) (stage ++ staged text ∷ [])))
      → Outcome files names fresh pairs (publish_text t request more stage next)
  publish_text-Outcome (found text) request more stage next pairs e i f = f text refl
  publish_text-Outcome indeterminate_text request more stage next pairs e i f = i refl
  publish_text-Outcome no_candidate request more stage next pairs e i f = absurd (e refl)

  request_text-Outcome :
      (request : NameRequest) (more : List RtlName) (stage : List Staged)
      (next : List RtlName → List Staged → Assigned) (pairs : List (NameRequest × ℕ))
      → request_valid files request ≡ true
      → (fresh → AllStaged stage)
      → ((text : List ℕ)
          → (request.kind ≡ source_kind
              → copied_text (pigen_source_span_text files request.origin) ≡ found text)
          → (request.kind ≢ source_kind → All (λ (known : RtlName). known.text ≢ text) more)
          → Outcome files names fresh pairs
              (next (more ++ new_name request text ∷ []) (stage ++ staged text ∷ [])))
      → Outcome files names fresh pairs
          (publish_text (request_text files more stage request) request more stage next)
  request_text-Outcome request more stage next pairs v c f =
      if_cases
        (λ (t : NameText). Outcome files names fresh pairs (publish_text t request more stage next))
        (request.kind == source_kind)
        (λ source.
          publish_text-Outcome (copied_text (pigen_source_span_text files request.origin)) request
            more stage next pairs
            (copied-no_candidate (pigen_source_span_text files request.origin))
            (λ e. absurd (
              copied-readable (pigen_source_span_text files request.origin)
                (pigen_source_span_text-found files request.origin
                  (valid_source files request v source))
                e))
            (λ text e.
              f text (λ k. e) (λ k. absurd (k ((==_iff request.kind source_kind).0 source)))))
        (λ internal.
          publish_text-Outcome (unique_name more stage (role_stem request.kind)) request more stage
            next pairs (unique_name-ends more stage (role_stem request.kind))
            (λ e h. unique_name-readable more stage (role_stem request.kind) (c h) e)
            (λ text e.
              f text (λ k. absurd (apart internal k))
                (λ k.
                  name_taken-differs more stage text
                    (unique_name-unused more stage (role_stem request.kind) text e))))
    where
      apart : (request.kind == source_kind) ≡ false → request.kind ≡ source_kind → ⊥
      apart e k = ground arith

  abbrev Goal :
      List (NameRequest × ℕ) → List RtlName → List Staged → List (NameRequest × ℕ) → Type 0
  Goal earlier more stage tail =
      Outcome files names fresh (earlier ++ tail) (publish_loop files tail more stage)

  skip-Outcome :
      (request : NameRequest) (id : ℕ) (rest earlier : List (NameRequest × ℕ)) (more : List RtlName)
      (stage : List Staged)
      → NamedAt more id request
      → Goal (earlier ++ (request, id) ∷ []) more (stage ++ unset ∷ []) rest
      → Goal earlier more stage ((request, id) ∷ rest)
  unfolding publish_loop
  skip-Outcome request id rest earlier more stage n h =
      if_cases (Outcome files names fresh (earlier ++ (request, id) ∷ rest)) (ltb id (length more))
        (λ e.
          subst
            (λ (pairs : List (NameRequest × ℕ)).
              Outcome files names fresh pairs (publish_loop files rest more (stage ++ unset ∷ [])))
            (append-cons earlier (request, id) rest) h)
        (λ e. absurd (ground (arith, get_elem?-lt more id n.1)))

  publish-Outcome :
      (request : NameRequest) (rest earlier : List (NameRequest × ℕ)) (more : List RtlName)
      (stage : List Staged)
      → request_valid files request ≡ true
      → (fresh → AllStaged stage)
      → ((text : List ℕ)
          → (request.kind ≡ source_kind
              → copied_text (pigen_source_span_text files request.origin) ≡ found text)
          → (request.kind ≢ source_kind → All (λ (known : RtlName). known.text ≢ text) more)
          → Goal
              (earlier ++ (request, length more) ∷ [])
              (more ++ new_name request text ∷ [])
              (stage ++ staged text ∷ [])
              rest)
      → Goal earlier more stage ((request, length more) ∷ rest)
  unfolding publish_loop
  publish-Outcome request rest earlier more stage v c f =
      if_cases (Outcome files names fresh (earlier ++ (request, length more) ∷ rest))
        (ltb (length more) (length more)) (λ e. absurd (ground arith))
        (λ e. request_text-Outcome request more stage _ _ v c (λ text s t.
          subst
            (λ (pairs : List (NameRequest × ℕ)). Outcome files names fresh pairs (
              publish_loop files rest (more ++ new_name request text ∷ [])
                (stage ++ staged text ∷ [])))
            (append-cons earlier (request, length more) rest) (f text s t)))

  known_name :
      (request : NameRequest)
      → length names < invalid_id
      → match_name names 0 request ≢ invalid_id
      → NamedAt names (match_name names 0 request) request × (IsUnnamed names request → ⊥)
  known_name request b d = elim (match_name-cases names 0 request (omega (arith, b))) [
    | inl h ↦ absurd (d h.0)
    | inr (i, q, n) ↦
        (subst (λ (k : ℕ). NamedAt names k request) (omega (arith, q)) n, λ u. u i n.0 n.1 n.2)
  ]

  pub unknown_name :
      (request : NameRequest)
      → length names < invalid_id
      → match_name names 0 request ≡ invalid_id
      → IsUnnamed names request
  unknown_name request b d = elim (match_name-cases names 0 request (omega (arith, b))) [
    | inl h ↦ h.1
    | inr (i, q, n) ↦ absurd (omega (arith, b, q, d, get_elem?-lt names i n.1))
  ]

  module _ (earlier : List (NameRequest × ℕ)) (request : NameRequest) (more : List RtlName)
      (p : Publishes files names earlier more) where
    repeated_name :
        match_request earlier request ≢ invalid_id
        → NamedAt more (match_request earlier request) request
    repeated_name d = elim (match_request-cases more earlier request p.resolved) [
      | inl h ↦ absurd (d h.0)
      | inr n ↦ n
    ]

    -- A name of the identity that is requested is new with this call, for an earlier request.
    new-IsUnnamed :
        IsUnnamed names request
        → All (λ (e : NameRequest × ℕ). e.0 ≢ request) earlier
        → IsUnnamed more request
    new-IsUnnamed n h i m e q = elim (p.requested i m e) [
      | inl g ↦ n i m g q
      | inr (k, r, g, s) ↦
          All-get_elem? (λ (e : NameRequest × ℕ). e.0 ≢ request) earlier k h g (s ∙ q)
    ]

    repeated-IsFresh :
        IsUnnamed names request
        → (id : ℕ) → NamedAt more id request
        → All (λ (b : NameRequest). b ≢ request) (firsts earlier)
        → ⊥
    repeated-IsFresh n id m h =
        new-IsUnnamed n (All-firsts (λ (b : NameRequest). b ≢ request) earlier h) id m.0 m.1 m.2

    unrepeated :
        length more < invalid_id
        → match_request earlier request ≡ invalid_id
        → All (λ (e : NameRequest × ℕ). e.0 ≢ request) earlier
    unrepeated b d = elim (match_request-cases more earlier request p.resolved) [
      | inl h ↦ h.1
      | inr n ↦ absurd (omega (arith, b, d, get_elem?-lt more (match_request earlier request) n.1))
    ]

  Publishes-named :
      {earlier : List (NameRequest × ℕ)} (request : NameRequest) (more : List RtlName)
      → Publishes files names earlier more
      → (id : ℕ) → NamedAt names id request
      → NamedAt more id request
  Publishes-named request more p id n = (n.0, p.keeps id n.0 n.1, n.2)

  -- The requests from `earlier` on, where the arena has become `more`.
  pub phases :
      (requests : List NameRequest) (earlier : List (NameRequest × ℕ)) (additions : ℕ)
      (more : List RtlName) (stage : List Staged)
      → Publishes files names earlier more
      → length more ≡ length names + additions
      → length names + additions + length requests < invalid_id
      → all_valid files requests ≡ true
      → (fresh → AllStaged stage × IsFresh names (firsts earlier) requests)
      → Outcome files names fresh
          (earlier ++ resolve_tail names earlier additions requests)
          (publish_loop files (resolve_tail names earlier additions requests) more stage)
  unfolding publish_loop
  phases [] earlier additions more stage p l b v c =
      subst (λ (pairs : List (NameRequest × ℕ)). Publishes files names pairs more)
        (append-nil earlier) p
  phases (request ∷ requests) earlier additions more stage p l b v c =
      let ok = all_valid-cons files request requests v in
      if_cases (Goal earlier more stage) (not (match_name names 0 request == invalid_id))
        (λ e.
          let n = known_name request (omega (arith, b)) (ground arith) in
          let m = Publishes-named request more p _ n.0 in
          skip-Outcome request _ _ earlier more stage m (
            phases requests _ additions more _
              (Publishes-skip files names earlier more p request _ m) l (omega (arith, b)) ok.1
              (λ h. absurd (n.1 (c h).1.0))))
        (λ e.
          let n = unknown_name request (omega (arith, b)) (ground arith) in
          if_cases (Goal earlier more stage) (not (match_request earlier request == invalid_id))
            (λ f.
              let m = repeated_name earlier request more p (ground arith) in
              skip-Outcome request _ _ earlier more stage m (
                phases requests _ additions more _
                  (Publishes-skip files names earlier more p request _ m) l (omega (arith, b)) ok.1
                  (λ h. absurd (repeated-IsFresh earlier request more p n _ m (c h).1.1))))
            (λ f.
              let id : length more ≡ u32 (length names + additions) = omega (arith, l, b) in
              let u =
                new-IsUnnamed earlier request more p n
                  (unrepeated earlier request more p (omega (arith, l, b)) (ground arith)) in
              subst
                (λ (i : ℕ). Goal earlier more stage (
                  (request, i)
                  ∷ resolve_tail names (earlier ++ (request, i) ∷ []) (suc additions) requests))
                id
                (publish-Outcome request _ earlier more stage ok.0 (λ h. (c h).0)
                  (λ text s t.
                    phases requests _ (suc additions) _ _
                      (Publishes-new files names earlier more p request text (omega (arith, l)) u s
                        t)
                      (omega (arith, l, length-append more (new_name request text ∷ [])))
                      (omega (arith, b)) ok.1
                      (λ h. (
                        AllStaged-append stage text (c h).0,
                        subst (λ (before : List NameRequest). IsFresh names before requests)
                            (sym (firsts-append earlier (request, length more))) (c h).1.2,
                      ))))))
