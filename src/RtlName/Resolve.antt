-- ===== src/RtlName/Resolve.antt =====
-- src/rtl_name.c, `pigen_rtl_assign_names`: the second phase, request by request.
use pigen.Common.{
  ℕ, suc, ◌+◌, ◌≡◌, ◌≢◌, refl, ap, ◌∙◌, inl, inr, not, List, [], ◌∷◌, ◌++◌, ◌==◌, if◌then◌else◌,
  u32, length, All, append-cons, Bool-cases,
}
use pigen.Integer.{invalid_id}
use pigen.RtlName.{RtlName, NameRequest, match_name, match_request, resolve_loop}
use pigen.RtlName.Publish.{IsUnnamed}

abbrev pub firsts : List (NameRequest × ℕ) → List NameRequest
firsts [] = []
firsts (r ∷ rest) = r.0 ∷ firsts rest

pub firsts-append :
    (xs : List (NameRequest × ℕ)) (x : NameRequest × ℕ)
    → firsts (xs ++ x ∷ []) ≡ firsts xs ++ x.0 ∷ []
firsts-append [] x = refl
firsts-append (y ∷ xs) x = ap (◌∷◌ y.0) (firsts-append xs x)

-- The requests have identities that neither the arena nor a request before them has.
abbrev pub IsFresh : List RtlName → List NameRequest → List NameRequest → Type 0
IsFresh names before [] = Unit
IsFresh names before (request ∷ requests) =
    IsUnnamed names request
    × All (λ (b : NameRequest). b ≢ request) before
    × IsFresh names (before ++ request ∷ []) requests

-- What the second phase appends.
abbrev pub resolve_tail :
    List RtlName → List (NameRequest × ℕ) → ℕ → List NameRequest → List (NameRequest × ℕ)
resolve_tail names earlier additions [] = []
resolve_tail names earlier additions (request ∷ requests) =
    let known = match_name names 0 request in
    let repeated = match_request earlier request in
    let fresh = u32 (length names + additions) in
    let on_known = resolve_tail names (earlier ++ (request, known) ∷ []) additions requests in
    let on_repeated = resolve_tail names (earlier ++ (request, repeated) ∷ []) additions requests in
    let on_fresh = resolve_tail names (earlier ++ (request, fresh) ∷ []) (suc additions) requests in
    if not (known == invalid_id)
    then (request, known) ∷ on_known
    else if not (repeated == invalid_id)
    then (request, repeated) ∷ on_repeated
    else (request, fresh) ∷ on_fresh

pub append-nil : (xs : List (NameRequest × ℕ)) → xs ≡ xs ++ []
append-nil [] = refl
append-nil (x ∷ xs) = ap (◌∷◌ x) (append-nil xs)

pub resolve_loop-resolve_tail :
    (names : List RtlName) (earlier : List (NameRequest × ℕ)) (additions : ℕ)
    (requests : List NameRequest)
    → resolve_loop names earlier additions requests
      ≡ earlier ++ resolve_tail names earlier additions requests
unfolding resolve_loop
resolve_loop-resolve_tail names earlier additions [] = append-nil earlier
resolve_loop-resolve_tail names earlier additions (request ∷ requests) =
    elim (Bool-cases (match_name names 0 request == invalid_id)) [
      | inr known ↦ rw known (
          resolve_loop-resolve_tail names (earlier ++ (request, match_name names 0 request) ∷ [])
            additions requests
          ∙ append-cons earlier (request, match_name names 0 request) _)
      | inl unknown ↦ elim (Bool-cases (match_request earlier request == invalid_id)) [
        | inr repeated ↦
            rw (unknown, repeated)
              (resolve_loop-resolve_tail names
                  (earlier ++ (request, match_request earlier request) ∷ []) additions requests
                ∙ append-cons earlier (request, match_request earlier request) _)
        | inl new ↦
            rw (unknown, new)
              (resolve_loop-resolve_tail names
                  (earlier ++ (request, u32 (length names + additions)) ∷ []) (suc additions)
                  requests
                ∙ append-cons earlier (request, u32 (length names + additions)) _)
      ]
    ]

pub All-firsts :
    (P : NameRequest → Type 0) (xs : List (NameRequest × ℕ))
    → All P (firsts xs)
    → All (λ (e : NameRequest × ℕ). P e.0) xs
All-firsts P [] h = tt
All-firsts P (x ∷ xs) h = (h.0, All-firsts P xs h.1)
