-- ===== src/Route/Build/Success.antt =====
-- src/route.c, `pigen_route_build`: what a route that was built has.
use pigen.Common.{
  ℕ, ◌≡◌, ◌≢◌, refl, sym, ap, ap₂, ◌∙◌, inl, inr, Bool, true, Option, none, some, List, [], ◌∷◌,
  ◌==◌, length, All, Bool-cases, Option-cases,
}
use pigen.Integer.{invalid_id}
use pigen.Source.{SourceSpan, invalid_span}
use pigen.Semantic.{SemanticModel, pigen_module_processes}
use pigen.Route.{RouteReadyNode, Route, DataTypes, Status, success, failure, unreturned}
use pigen.Route.Domain.{route_domain_multi_edge}
use pigen.Route.Ready.{route_graph_acyclic, checked, check_result, check_nodes, pigen_route_check}
use pigen.Route.Build.{
  process_list_transfers, Built, lost, stopped, built, build_nodes, link_nodes, built_route,
  publish, publish_built, build_transfers, pigen_route_build,
}
use pigen.Route.Build.Nodes.{build_nodes-built, node_transfers, IsLawful, IsNode}

-- What the code has tested where it succeeds, for the transfers `xs` of the module.
pub record IsBuilt (m : SemanticModel) (types : DataTypes) (id : ℕ) (xs : List ℕ) (r : Route)
    : Type 0 where
  pub unit : r.unit ≡ id
  pub one_node_each : node_transfers r.nodes ≡ xs
  pub made : All (IsNode m id) r.nodes
  pub counted : r.transfer_count ≡ length xs
  pub lawful : All (IsLawful m types id) xs
  pub one_edge : route_domain_multi_edge m xs ≡ true
  pub acyclic : route_graph_acyclic r.nodes ≡ true
  pub valid : r.check_valid ≡ true
  pub unanchored : r.check_span ≡ invalid_span

not_success : failure ≢ success
not_success q = cc

unreturned_apart : unreturned ≢ success
unreturned_apart q = cc

publish-success :
    (m : SemanticModel) (id total : ℕ) (nodes : List RouteReadyNode) (r : Route)
    → publish m id total nodes ≡ (r, success)
    → (route_graph_acyclic nodes ≡ true) × (r ≡ built_route id total nodes true invalid_span)
publish-success m id total nodes r e = elim (Bool-cases (route_graph_acyclic nodes)) [
  | inl good ↦ (good, ap (λ (p : Route × Status). p.0) (sym (rw good at e)))
  | inr bad ↦ absurd (not_success (ap (λ (p : Route × Status). p.1) (rw bad at e)))
]

-- The transfers of a module, in order.
abbrev pub listed_transfers : SemanticModel → Option (List ℕ) → Option (List ℕ)
listed_transfers m none = none
listed_transfers m (some ps) = process_list_transfers m ps

abbrev pub module_transfers : SemanticModel → ℕ → Option (List ℕ)
module_transfers m id = listed_transfers m (pigen_module_processes m id)

publish_built-success :
    (m : SemanticModel) (types : DataTypes) (id total : ℕ) (xs : List ℕ) (b : Built) (r : Route)
    → build_nodes m types id xs ≡ b
    → total ≡ length xs
    → route_domain_multi_edge m xs ≡ true
    → publish_built m id total b ≡ (r, success)
    → IsBuilt m types id xs r
publish_built-success m types id total xs lost r h t d e =
    absurd (unreturned_apart (ap (λ (p : Route × Status). p.1) e))
publish_built-success m types id total xs (stopped span) r h t d e =
    absurd (not_success (ap (λ (p : Route × Status). p.1) e))
publish_built-success m types id total xs (built nodes) r h t d e =
    let p = publish-success m id total (link_nodes m id nodes) r e in
    let n = build_nodes-built m types id xs nodes h in
    rw p.1 (record {
      unit = refl;
      one_node_each = n.2;
      made = n.1;
      counted = t;
      lawful = n.0;
      one_edge = d;
      acyclic = p.0;
      valid = refl;
      unanchored = refl;
    })

build_transfers-success :
    (m : SemanticModel) (types : DataTypes) (id : ℕ) (route r : Route) (xs : List ℕ)
    → build_transfers route m types id (some xs) ≡ (r, success)
    → IsBuilt m types id xs r × (xs ≢ [])
build_transfers-success m types id route r [] e =
    absurd (not_success (ap (λ (p : Route × Status). p.1) e))
build_transfers-success m types id route r (x ∷ xs) e =
    elim (Bool-cases (route_domain_multi_edge m (x ∷ xs))) [
      | inl good ↦ (
        publish_built-success m types id (length (x ∷ xs)) (x ∷ xs)
            (build_nodes m types id (x ∷ xs)) r refl refl good (rw good at e),
        (λ q. cc),
      )
      | inr bad ↦ absurd (not_success (ap (λ (p : Route × Status). p.1) (rw bad at e)))
    ]

-- A build that succeeds passed the guards of the code.
pub pigen_route_build-IsBuilt :
    (m : SemanticModel) (types : DataTypes) (id : ℕ) (route r : Route)
    → pigen_route_build route m types id ≡ (r, success)
    → (xs : List ℕ) × (module_transfers m id ≡ some xs) × (xs ≢ []) × IsBuilt m types id xs r
unfolding pigen_route_build
pigen_route_build-IsBuilt m types id route r e = elim (Bool-cases (id == invalid_id)) [
  | inl bad ↦ absurd (failed route (rw bad at e))
  | inr good ↦ elim (Option-cases (pigen_module_processes m id)) [
    | inl empty ↦ absurd (failed route (rw empty at (rw good at e)))
    | inr (ps, listed) ↦ elim (Option-cases (process_list_transfers m ps)) [
      | inl missing ↦ absurd (failed route (rw missing at (rw listed at (rw good at e))))
      | inr (xs, hit) ↦
          let p =
            build_transfers-success m types id route r xs
              (rw hit at (rw listed at (rw good at e))) in
          (xs, rw listed hit, p.1, p.0)
    ]
  ]
]
  where
    failed : (s : Route) → ◌≡◌ {A = Route × Status} (s, failure) (r, success) → ⊥
    failed s q = not_success (ap (λ (p : Route × Status). p.1) q)

check_nodes-success :
    (r : Route) (nodes : List RouteReadyNode)
    → nodes ≢ []
    → route_graph_acyclic nodes ≡ true
    → check_nodes r nodes ≡ (checked r true, success)
check_nodes-success r [] v e = absurd (v refl)
check_nodes-success r (n ∷ ns) v e = ap (check_result r) e

checked_valid :
    (r : Route) → r.check_valid ≡ true → r.check_span ≡ invalid_span → checked r true ≡ r
checked_valid r v s =
    ap₂
      (λ (valid : Bool) (span : SourceSpan). built_route r.unit r.transfer_count r.nodes valid span)
      (sym v) (sym s)

-- A route that was built passes pigen_route_check, which leaves it as it is.
pub pigen_route_build-check :
    (m : SemanticModel) (types : DataTypes) (id : ℕ) (route r : Route)
    → pigen_route_build route m types id ≡ (r, success)
    → pigen_route_check r ≡ (r, success)
unfolding pigen_route_check
pigen_route_build-check m types id route r e =
    let (xs, listed, nonempty, h) = pigen_route_build-IsBuilt m types id route r e in
    check_nodes-success r r.nodes (λ q. nonempty (sym h.one_node_each ∙ ap node_transfers q))
      h.acyclic
    ∙ ap (λ (k : Route). (k, success)) (checked_valid r h.valid h.unanchored)
