-- ===== src/Route/Build/Nodes.antt =====
-- src/route.c: the nodes that the loop of `pigen_route_build` makes.
use pigen.Common.{
  ℕ, ◌≡◌, ◌≢◌, refl, sym, subst, ap, ap₂, ◌∙◌, inl, inr, true, none, some, List, [], ◌∷◌, arith,
  ◌==◌, ==_iff, All, Bool-cases, Option-cases,
}
use pigen.Source.{invalid_span}
use pigen.Semantic.{SemanticModel, SemanticSignal, Transfer, pigen_transfer_get}
use pigen.Route.{RouteReadyNode, DataTypes}
use pigen.Route.Laws.{
  Law, holds, fails, unreturned, route_dest_signal, route_transfer_laws, route_vdo_laws,
}
use pigen.Route.Build.{
  Built, stopped, built, push_node, with_dest, with_laws, lost, build_node, build_nodes, link_node,
  link_nodes, new_node,
}

-- The transfer is one of the module, and satisfies the laws.
pub record IsLawful (m : SemanticModel) (types : DataTypes) (id x : ℕ) : Type 0 where
  pub transfer : Transfer
  pub found : pigen_transfer_get m x ≡ some transfer
  pub isolated : transfer.owner ≡ id
  pub sized : route_transfer_laws m types transfer ≡ holds
  pub owned : route_vdo_laws m transfer x ≡ true
  pub written : route_dest_signal m transfer ≢ none

-- The transfers that the nodes stand for.
abbrev pub node_transfers : List RouteReadyNode → List ℕ
node_transfers [] = []
node_transfers (n ∷ ns) = n.transfer ∷ node_transfers ns

link_node-transfer :
    (m : SemanticModel) (id : ℕ) (n : RouteReadyNode) (s : ℕ)
    → (link_node m id (n, s)).transfer ≡ n.transfer
link_node-transfer m id n s = ground arith

abbrev nodes_of : Built → List (RouteReadyNode × ℕ)
nodes_of lost = []
nodes_of (stopped span) = []
nodes_of (built nodes) = nodes

push_node-built :
    (n : RouteReadyNode × ℕ) (rest : Built) (nodes : List (RouteReadyNode × ℕ))
    → push_node n rest ≡ built nodes
    → (later : List (RouteReadyNode × ℕ)) × (rest ≡ built later) × (nodes ≡ n ∷ later)
push_node-built n lost nodes e = cc
push_node-built n (stopped span) nodes e = cc
push_node-built n (built later) nodes e = (later, refl, sym (ap nodes_of e))

module _ (m : SemanticModel) (types : DataTypes) (id x : ℕ) where
  dest-built :
      (tr : Transfer) (rest : Built) (nodes : List (RouteReadyNode × ℕ))
      → with_dest m x tr (route_dest_signal m tr) rest ≡ built nodes
      → (dest : SemanticSignal) × (route_dest_signal m tr ≡ some dest)
        × (later : List (RouteReadyNode × ℕ)) × (rest ≡ built later)
        × (nodes ≡ new_node m x tr dest ∷ later)
  dest-built tr rest nodes e = elim (Option-cases (route_dest_signal m tr)) [
    | inl missing ↦ absurd (apart (rw missing at e))
    | inr (dest, hit) ↦
        let r = push_node-built (new_node m x tr dest) rest nodes (rw hit at e) in
        (dest, hit, r.0, r.1, r.2)
  ]
    where
      apart : stopped tr.span ≢ built nodes
      apart q = cc

  laws-pass :
      (tr : Transfer) (law : Law) (rest : Built) (nodes : List (RouteReadyNode × ℕ))
      → with_laws m x tr law rest ≡ built nodes
      → (law ≡ holds)
        × (route_vdo_laws m tr x ≡ true)
        × (with_dest m x tr (route_dest_signal m tr) rest ≡ built nodes)
  laws-pass tr unreturned rest nodes e = cc
  laws-pass tr fails rest nodes e = cc
  laws-pass tr holds rest nodes e = elim (Bool-cases (route_vdo_laws m tr x)) [
    | inl good ↦ (refl, good, rw good at e)
    | inr bad ↦ absurd (apart (rw bad at e))
  ]
    where
      apart : stopped tr.span ≢ built nodes
      apart q = cc

  guards-pass :
      (tr : Transfer) (rest : Built) (nodes : List (RouteReadyNode × ℕ))
      → build_node m types id x (some tr) rest ≡ built nodes
      → (tr.owner ≡ id)
        × (route_transfer_laws m types tr ≡ holds)
        × (route_vdo_laws m tr x ≡ true)
        × (with_dest m x tr (route_dest_signal m tr) rest ≡ built nodes)
  guards-pass tr rest nodes e = elim (Bool-cases (tr.owner == id)) [
    | inl mine ↦
        let p = laws-pass tr (route_transfer_laws m types tr) rest nodes (rw mine at e) in
        ((==_iff tr.owner id).0 mine, p.0, p.1, p.2)
    | inr foreign ↦ absurd (apart (rw foreign at e))
  ]
    where
      apart : stopped tr.span ≢ built nodes
      apart q = cc

  build_node-built :
      (rest : Built) (nodes : List (RouteReadyNode × ℕ))
      → build_node m types id x (pigen_transfer_get m x) rest ≡ built nodes
      → IsLawful m types id x
        × (tr : Transfer) × (pigen_transfer_get m x ≡ some tr)
        × (dest : SemanticSignal) × (route_dest_signal m tr ≡ some dest)
        × (later : List (RouteReadyNode × ℕ)) × (rest ≡ built later)
        × (nodes ≡ new_node m x tr dest ∷ later)
  build_node-built rest nodes e = elim (Option-cases (pigen_transfer_get m x)) [
    | inl missing ↦ absurd (apart (rw missing at e))
    | inr (tr, hit) ↦
        let p = guards-pass tr rest nodes (rw hit at e) in
        let d = dest-built tr rest nodes p.3 in
        (
          record {
            transfer = tr;
            found = hit;
            isolated = p.0;
            sized = p.1;
            owned = p.2;
            written = λ q. here d.0 (sym d.1 ∙ q);
          },
          tr,
          hit,
          d.0,
          d.1,
          d.2,
          d.3,
          d.4,
        )
  ]
    where
      apart : stopped invalid_span ≢ built nodes
      apart q = cc

      here : (dest : SemanticSignal) → some dest ≢ none
      here dest q = cc

-- The node that the code makes for a transfer `x`, from the signal that `x` writes.
pub record IsNode (m : SemanticModel) (id : ℕ) (n : RouteReadyNode) : Type 0 where
  pub transfer : Transfer
  pub found : pigen_transfer_get m n.transfer ≡ some transfer
  pub dest : SemanticSignal
  pub written : route_dest_signal m transfer ≡ some dest
  pub made : n ≡ link_node m id (new_node m n.transfer transfer dest)

link_node-IsNode :
    (m : SemanticModel) (id x : ℕ) (tr : Transfer) (dest : SemanticSignal)
    → pigen_transfer_get m x ≡ some tr
    → route_dest_signal m tr ≡ some dest
    → IsNode m id (link_node m id (new_node m x tr dest))
link_node-IsNode m id x tr dest found written =
    let n = link_node m id (new_node m x tr dest) in
    let same : n.transfer ≡ x =
      link_node-transfer m id (new_node m x tr dest).0 (new_node m x tr dest).1 in
    record {
      transfer = tr;
      found = ap (pigen_transfer_get m) same ∙ found;
      dest = dest;
      written = written;
      made = ap (λ (y : ℕ). link_node m id (new_node m y tr dest)) (sym same);
    }

pub build_nodes-built :
    (m : SemanticModel) (types : DataTypes) (id : ℕ) (xs : List ℕ)
    (nodes : List (RouteReadyNode × ℕ))
    → build_nodes m types id xs ≡ built nodes
    → All (IsLawful m types id) xs
      × All (IsNode m id) (link_nodes m id nodes)
      × (node_transfers (link_nodes m id nodes) ≡ xs)
unfolding build_nodes link_nodes
build_nodes-built m types id [] nodes e =
    let empty : [] ≡ nodes = ap nodes_of e in
    (
      tt,
      subst (λ (l : List (RouteReadyNode × ℕ)). All (IsNode m id) (link_nodes m id l)) empty tt,
      ap (λ (l : List (RouteReadyNode × ℕ)). node_transfers (link_nodes m id l)) (sym empty),
    )
build_nodes-built m types id (x ∷ xs) nodes e =
    let (lawful, tr, found, dest, written, later, rest, all) =
      build_node-built m types id x (build_nodes m types id xs) nodes e in
    let tail = build_nodes-built m types id xs later rest in
    let node = new_node m x tr dest in
    (
      (lawful, tail.0),
      subst (λ (l : List (RouteReadyNode × ℕ)). All (IsNode m id) (link_nodes m id l)) (sym all)
          (link_node-IsNode m id x tr dest found written, tail.1),
      ap (λ (l : List (RouteReadyNode × ℕ)). node_transfers (link_nodes m id l)) all
          ∙ ap₂ (λ (a : ℕ) (l : List ℕ). a ∷ l) (link_node-transfer m id node.0 node.1) tail.2,
    )
