-- ===== src/Route/Domain/Bindings.antt =====
-- src/route.c, `route_domain_multi_edge`: the bindings of signals to edges.
use pigen.Common.{
  ℕ, ◌≡◌, refl, ap, subst, ◌∙◌, Bool, true, Option, none, some, List, [], ◌∷◌, ◌++◌, arith, ◌⊎◌,
  inl, inr,
}
use pigen.Semantic.{Edge, posedge, negedge}
use pigen.Route.Domain.{DomainBinding, same_edge, bound_edge, bind_edge}

-- No signal loses its edge.
abbrev pub Keeps : List DomainBinding → List DomainBinding → Type 0
Keeps bs cs = (s : ℕ) (e : Edge) → bound_edge bs s ≡ some e → bound_edge cs s ≡ some e

bound_edge-append : (bs cs : List DomainBinding) → Keeps bs (bs ++ cs)
unfolding bound_edge
bound_edge-append [] cs s e h = cc
bound_edge-append (b ∷ bs) cs s e h = ground (arith, bound_edge-append bs cs s e)

bound_edge-new :
    (bs : List DomainBinding) (s : ℕ) (e : Edge)
    → bound_edge bs s ≡ none
    → bound_edge (bs ++ record { signal = s; edge = e } ∷ []) s ≡ some e
unfolding bound_edge
bound_edge-new [] s e h = ground arith
bound_edge-new (b ∷ bs) s e h = ground (arith, bound_edge-new bs s e)

same_edge-eq : (e f : Edge) → same_edge e f ≡ true → e ≡ f
same_edge-eq posedge posedge h = refl
same_edge-eq posedge negedge h = cc
same_edge-eq negedge posedge h = cc
same_edge-eq negedge negedge h = refl

pub bind_edge-lem :
    (bs : List DomainBinding) (ok : Bool) (s : ℕ) (e : Edge) (known : Option Edge)
    → bound_edge bs s ≡ known
    → (bind_edge bs ok s e known).1 ≡ true
    → (ok ≡ true)
      × Keeps bs (bind_edge bs ok s e known).0
      × (bound_edge (bind_edge bs ok s e known).0 s ≡ some e)
bind_edge-lem bs ok s e none k h = (h, bound_edge-append bs _, bound_edge-new bs s e k)
bind_edge-lem bs ok s e (some old) k h =
    let both : (ok ≡ true) × (same_edge old e ≡ true) = ground arith in
    (both.0, λ t f b. b, k ∙ ap some (same_edge-eq old e both.1))

-- What the sweep has for the uses that it has passed.
pub record IsSwept (bs : List DomainBinding) (ok : Bool) (Passed : ℕ → Edge → Type 0)
    (cs : List DomainBinding) : Type 0 where
  pub good : ok ≡ true
  pub keeps : Keeps bs cs
  pub passed : (s : ℕ) (e : Edge) → Passed s e → bound_edge cs s ≡ some e

pub IsSwept-at :
    (bs : List DomainBinding) (ok : Bool) (P : ℕ → Edge → Type 0) (p r : List DomainBinding × Bool)
    → some p ≡ some r
    → r.1 ≡ true
    → (p.1 ≡ true → IsSwept bs ok P p.0)
    → IsSwept bs ok P r.0
IsSwept-at bs ok P p r q h f =
    let e : p ≡ r = cc in
    subst (λ (x : List DomainBinding × Bool). IsSwept bs ok P x.0) e
      (f (ap (λ (x : List DomainBinding × Bool). x.1) e ∙ h))

-- What is passed in two steps.
pub IsSwept-then :
    {bs cs ds : List DomainBinding} {ok mid : Bool} {P Q : ℕ → Edge → Type 0}
    (R : ℕ → Edge → Type 0)
    → IsSwept bs ok P cs
    → IsSwept cs mid Q ds
    → ((s : ℕ) (e : Edge) → R s e → P s e ⊎ Q s e)
    → IsSwept bs ok R ds
IsSwept-then {ds} {P} {Q} R first later split = record {
  good = first.good;
  keeps = λ s e b. later.keeps s e (first.keeps s e b);
  passed = λ s e p. join s e (split s e p);
}
  where
    join : (s : ℕ) (e : Edge) → P s e ⊎ Q s e → bound_edge ds s ≡ some e
    join s e (inl p) = later.keeps s e (first.passed s e p)
    join s e (inr q) = later.passed s e q
