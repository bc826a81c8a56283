-- ===== src/Route/Build/Graph.antt =====
-- src/route.c, `pigen_route_build`: the nodes of a route that was built, and its ready graph.
use pigen.Common.{
  ℕ, ◌≡◌, ◌≢◌, refl, sym, ap, subst, ◌∙◌, ◌⊎◌, inl, inr, true, false, ◌||◌, not, Option, none, some,
  List, arith, ◌==◌, All, All-get_elem?, if_cases,
}
use pigen.Integer.{invalid_id}
use pigen.Semantic.{
  SemanticModel, SemanticSignal, Transfer, pigen_transfer_get, pigen_module_processes,
  pigen_signal_get,
}
use pigen.Route.{RouteReadyNode}
use pigen.Route.Laws.{route_dest_signal_id, route_dest_signal, descriptor_of, signal_of}
use pigen.Route.Ready.{is_downstream}
use pigen.Route.Ready.Cycle.{IsGraph}
use pigen.Route.Build.{type_ready, new_node, link_node}
use pigen.Route.Build.Consumer.{IsConsumer, route_downstream_consumer-IsConsumer}
use pigen.Route.Build.Nodes.{IsNode}

-- Only a node whose readiness is that of its consumer has one: a transfer of the module whose value
-- is the signal `s` that the node's transfer writes, where there is such a transfer.
abbrev HasDownstream : SemanticModel → List ℕ → RouteReadyNode → ℕ → Type 0
HasDownstream m ps n s =
    ((is_downstream n.ready_dependency ≡ false) × (n.downstream ≡ invalid_id))
    ⊎ ((is_downstream n.ready_dependency ≡ true)
        × (IsConsumer m ps s n.downstream
            ⊎ ((n.downstream ≡ invalid_id) × ((y : ℕ) → ¬ IsConsumer m ps s y))))

pub record IsReadyNode (m : SemanticModel) (ps : List ℕ) (n : RouteReadyNode) : Type 0 where
  transfer : Transfer
  found : pigen_transfer_get m n.transfer ≡ some transfer
  writes : ℕ
  written : route_dest_signal_id m transfer ≡ some writes
  signal : SemanticSignal
  known : pigen_signal_get m writes ≡ some signal
  ready : n.ready_dependency ≡ type_ready (descriptor_of (some signal))
  downstream : HasDownstream m ps n writes

-- The nodes of a module with the processes `ps`.
module _ (m : SemanticModel) (id : ℕ) (ps : List ℕ)
    (listed : pigen_module_processes m id ≡ some ps) where
  link_node-HasDownstream :
      (node : RouteReadyNode) (s : ℕ)
      → node.downstream ≡ invalid_id
      → s ≢ invalid_id
      → HasDownstream m ps (link_node m id (node, s)) s
  link_node-HasDownstream node s idle known =
      if_cases (λ (n : RouteReadyNode). HasDownstream m ps n s)
        (not (is_downstream node.ready_dependency) || s == invalid_id)
        (λ stop. inl (ground arith, idle))
        (λ go. inr (ground arith, route_downstream_consumer-IsConsumer m id ps s _ listed refl))

  link_node-ready :
      (node : RouteReadyNode) (s : ℕ)
      → (link_node m id (node, s)).ready_dependency ≡ node.ready_dependency
  link_node-ready node s = ground arith

  signal_of-known :
      (s : Option ℕ) (dest : SemanticSignal)
      → signal_of m s ≡ some dest
      → (k : ℕ) × (s ≡ some k) × (pigen_signal_get m k ≡ some dest) × (k ≢ invalid_id)
  signal_of-known none dest e = cc
  signal_of-known (some k) dest e = (k, refl, e, λ q. ground arith)

  new_node-signal :
      (x s : ℕ) (tr : Transfer) (dest : SemanticSignal)
      → route_dest_signal_id m tr ≡ some s
      → (new_node m x tr dest).1 ≡ s
  new_node-signal x s tr dest e = rw (e, new_node) refl

  pub IsNode-IsReadyNode : (n : RouteReadyNode) → IsNode m id n → IsReadyNode m ps n
  unfolding route_dest_signal
  IsNode-IsReadyNode n h =
      let (s, named, known, valid) =
        signal_of-known (route_dest_signal_id m h.transfer) h.dest h.written in
      let node = (new_node m n.transfer h.transfer h.dest).0 in
      let made : n ≡ link_node m id (node, s) =
        h.made
        ∙ ap (λ (k : ℕ). link_node m id (node, k))
            (new_node-signal n.transfer s h.transfer h.dest named) in
      record {
        transfer = h.transfer;
        found = h.found;
        writes = s;
        written = named;
        signal = h.dest;
        known = known;
        ready = ap (λ (k : RouteReadyNode). k.ready_dependency) made ∙ link_node-ready node s;
        downstream =
            subst (λ (k : RouteReadyNode). HasDownstream m ps k s) (sym made)
              (link_node-HasDownstream node s refl valid);
      }

  IsNode-unique :
      (n k : RouteReadyNode) → IsNode m id n → IsNode m id k → n.transfer ≡ k.transfer → n ≡ k
  IsNode-unique n k a b t =
      let same : a.transfer ≡ b.transfer =
        transfer_eq a.transfer b.transfer (sym a.found ∙ ap (pigen_transfer_get m) t ∙ b.found) in
      let dest : a.dest ≡ b.dest =
        signal_eq a.dest b.dest (sym a.written ∙ ap (route_dest_signal m) same ∙ b.written) in
      a.made
      ∙ ap (λ (x : ℕ). link_node m id (new_node m x a.transfer a.dest)) t
      ∙ ap (λ (x : Transfer). link_node m id (new_node m k.transfer x a.dest)) same
      ∙ ap (λ (x : SemanticSignal). link_node m id (new_node m k.transfer b.transfer x)) dest
      ∙ sym b.made
    where
      transfer_eq : (x y : Transfer) → some x ≡ some y → x ≡ y
      transfer_eq x y e = cc

      signal_eq : (x y : SemanticSignal) → some x ≡ some y → x ≡ y
      signal_eq x y e = cc

  IsNode-valid : (n : RouteReadyNode) → IsNode m id n → n.transfer ≢ invalid_id
  IsNode-valid n a q = ground (arith, a.found)

  pub nodes-IsGraph : (nodes : List RouteReadyNode) → All (IsNode m id) nodes → IsGraph nodes
  nodes-IsGraph nodes h = record {
    unique = λ i j n k e f t.
        IsNode-unique n k (All-get_elem? (IsNode m id) nodes i h e)
          (All-get_elem? (IsNode m id) nodes j h f) t;
    valid = λ i n e. IsNode-valid n (All-get_elem? (IsNode m id) nodes i h e);
  }
