-- ===== src/Route/Ready/Cycle.antt =====
-- src/route.c, `route_graph_acyclic`: which graphs the check accepts.
use pigen.Common.{
  ℕ, zero, suc, ◌≡◌, ◌≢◌, refl, sym, ap, ◌∙◌, ◌↔◌, inl, inr, Bool, true, false, not, Option, none,
  some, List, [], ◌∷◌, arith, ◌==◌, ==_iff, if◌then◌else◌, get_elem?, Bool-cases, Option-cases,
}
use pigen.TransferType.{ready_downstream}
use pigen.Integer.{invalid_id}
use pigen.Route.{RouteReadyNode}
use pigen.Route.Ready.{
  route_downstream, find_node, returns_to, node_acyclic, acyclic_loop, route_graph_acyclic,
}

-- No transfer has two nodes.
abbrev IsUnique : List RouteReadyNode → Type 0
IsUnique nodes =
    (i j : ℕ) (n k : RouteReadyNode)
    → get_elem? nodes i ≡ some n
    → get_elem? nodes j ≡ some k
    → n.transfer ≡ k.transfer
    → n ≡ k

pub record IsGraph (nodes : List RouteReadyNode) : Type 0 where
  pub unique : IsUnique nodes
  pub valid : (i : ℕ) (n : RouteReadyNode) → get_elem? nodes i ≡ some n → n.transfer ≢ invalid_id

-- The readiness of transfer `a` depends on that of `b`.
pub record HasEdge (nodes : List RouteReadyNode) (a b : ℕ) : Type 0 where
  pub at : ℕ
  pub node : RouteReadyNode
  pub found : get_elem? nodes at ≡ some node
  pub from : node.transfer ≡ a
  pub to : route_downstream node ≡ b
  pub valid : b ≢ invalid_id

find_node-found :
    (nodes : List RouteReadyNode) (id : ℕ) (n : RouteReadyNode)
    → find_node nodes id ≡ some n
    → (i : ℕ) × (get_elem? nodes i ≡ some n) × (n.transfer ≡ id)
unfolding find_node
find_node-found [] id n e = cc
find_node-found (k ∷ nodes) id n e = elim (Bool-cases (k.transfer == id)) [
  | inl hit ↦
      let same : k ≡ n = ground arith in
      (
        0,
        ap some same,
        sym (ap (λ (x : RouteReadyNode). x.transfer) same) ∙ (==_iff k.transfer id).0 hit,
      )
  | inr miss ↦ let r = find_node-found nodes id n (rw miss at e) in (suc r.0, r.1, r.2)
]

find_node-missing :
    (nodes : List RouteReadyNode) (id i : ℕ) (n : RouteReadyNode)
    → get_elem? nodes i ≡ some n
    → n.transfer ≡ id
    → find_node nodes id ≢ none
unfolding find_node
find_node-missing [] id i n e t = cc
find_node-missing (k ∷ nodes) id zero n e t =
    ground (arith, ap {A = RouteReadyNode} (λ (x : RouteReadyNode). x.transfer) {x = k} {y = n})
find_node-missing (k ∷ nodes) id (suc i) n e t = ground (arith, find_node-missing nodes id i n e t)

acyclic_loop-holds :
    (all nodes : List RouteReadyNode) (i : ℕ) (n : RouteReadyNode)
    → acyclic_loop all nodes ≡ true
    → get_elem? nodes i ≡ some n
    → node_acyclic all n ≡ true
unfolding acyclic_loop
acyclic_loop-holds all [] i n e g = cc
acyclic_loop-holds all (k ∷ nodes) zero n e g =
    ground (arith, ap {A = RouteReadyNode} (node_acyclic all) {x = k} {y = n})
acyclic_loop-holds all (k ∷ nodes) (suc i) n e g = acyclic_loop-holds all nodes i n (ground arith) g

acyclic_loop-all :
    (all nodes : List RouteReadyNode)
    → ((i : ℕ) (n : RouteReadyNode) → get_elem? nodes i ≡ some n → node_acyclic all n ≡ true)
    → acyclic_loop all nodes ≡ true
unfolding acyclic_loop
acyclic_loop-all all [] h = refl
acyclic_loop-all all (k ∷ nodes) h =
    let here : node_acyclic all k ≡ true = h 0 k refl in
    let rest : acyclic_loop all nodes ≡ true = acyclic_loop-all all nodes (λ i. h (suc i)) in
    ground arith

node_test_iff :
    (d t : ℕ) (back : Bool)
    → ((if d == invalid_id then true else if d == t then false else not back) ≡ true)
      ↔ (d ≢ invalid_id → (d ≢ t) × (back ≡ false))
node_test_iff d t true = ground arith
node_test_iff d t false = ground arith

module _ (nodes : List RouteReadyNode) (g : IsGraph nodes) where
  -- The node that the check looks up is the one the edge leads to.
  looked_up :
      (i : ℕ) (k : RouteReadyNode)
      → get_elem? nodes i ≡ some k
      → find_node nodes k.transfer ≡ some k
  looked_up i k e = elim (Option-cases (find_node nodes k.transfer)) [
    | inl missing ↦ absurd (find_node-missing nodes k.transfer i k e refl missing)
    | inr (l, hit) ↦
        let r = find_node-found nodes k.transfer l hit in
        hit ∙ ap some (g.unique r.0 i l k r.1 e r.2)
  ]

  accepted-no_pair :
      (a b : ℕ) → route_graph_acyclic nodes ≡ true → HasEdge nodes a b → HasEdge nodes b a → ⊥
  unfolding route_graph_acyclic
  accepted-no_pair a b e h k =
      let apart =
        ((node_test_iff (route_downstream h.node) h.node.transfer
            (returns_to (find_node nodes (route_downstream h.node)) h.node.transfer)).0
          (acyclic_loop-holds nodes nodes h.at h.node e h.found) (λ q. h.valid (sym h.to ∙ q))).1 in
      let at : find_node nodes (route_downstream h.node) ≡ some k.node =
        ap (find_node nodes) (h.to ∙ sym k.from) ∙ looked_up k.at k.node k.found in
      let back : (route_downstream k.node == h.node.transfer) ≡ false =
        ap (λ (o : Option RouteReadyNode). returns_to o h.node.transfer) (sym at) ∙ apart in
      let same : (route_downstream k.node == h.node.transfer) ≡ true =
        (==_iff (route_downstream k.node) h.node.transfer).1 (k.to ∙ sym h.from) in
      ground arith

  node_acyclic-back :
      (i : ℕ) (n : RouteReadyNode)
      → get_elem? nodes i ≡ some n
      → ((a b : ℕ) → HasEdge nodes a b → HasEdge nodes b a → ⊥)
      → route_downstream n ≢ invalid_id
      → returns_to (find_node nodes (route_downstream n)) n.transfer ≡ false
  node_acyclic-back i n e h v = elim (Option-cases (find_node nodes (route_downstream n))) [
    | inl missing ↦ ap (λ (o : Option RouteReadyNode). returns_to o n.transfer) missing
    | inr (k, hit) ↦
        ap (λ (o : Option RouteReadyNode). returns_to o n.transfer) hit
        ∙ apart k (find_node-found nodes (route_downstream n) k hit)
  ]
    where
      apart :
          (k : RouteReadyNode)
          → (j : ℕ) × (get_elem? nodes j ≡ some k) × (k.transfer ≡ route_downstream n)
          → (route_downstream k == n.transfer) ≡ false
      apart k (j, at, t) = elim (Bool-cases (route_downstream k == n.transfer)) [
        | inl same ↦ absurd (
            h n.transfer (route_downstream n)
              (record { at = i; node = n; found = e; from = refl; to = refl; valid = v })
              (record {
                at = j;
                node = k;
                found = at;
                from = t;
                to = (==_iff (route_downstream k) n.transfer).0 same;
                valid = g.valid i n e;
              }))
        | inr differ ↦ differ
      ]

  -- For nodes of which no two have one transfer, and whose transfers have valid ids, the check
  -- accepts the graph exactly when no transfer depends on itself and no two depend on each other.
  pub route_graph_acyclic_iff :
      (route_graph_acyclic nodes ≡ true) ↔ ((a b : ℕ) → HasEdge nodes a b → HasEdge nodes b a → ⊥)
  unfolding route_graph_acyclic
  route_graph_acyclic_iff = (accepted-no_pair', from)
    where
      accepted-no_pair' :
          route_graph_acyclic nodes ≡ true → (a b : ℕ) → HasEdge nodes a b → HasEdge nodes b a → ⊥
      accepted-no_pair' e a b = accepted-no_pair a b e

      from :
          ((a b : ℕ) → HasEdge nodes a b → HasEdge nodes b a → ⊥) → acyclic_loop nodes nodes ≡ true
      from h = acyclic_loop-all nodes nodes (λ i n e.
          (node_test_iff (route_downstream n) n.transfer
              (returns_to (find_node nodes (route_downstream n)) n.transfer)).1
            (λ v. (
              (λ q.
                  h n.transfer n.transfer
                    (record {
                      at = i;
                      node = n;
                      found = e;
                      from = refl;
                      to = q;
                      valid = g.valid i n e;
                    })
                    (record {
                      at = i;
                      node = n;
                      found = e;
                      from = refl;
                      to = q;
                      valid = g.valid i n e;
                    })),
              node_acyclic-back i n e h v,
            )))

-- The node of an elastic slot whose readiness depends on that of transfer `to`.
abbrev pub slot_node : ℕ → ℕ → RouteReadyNode
slot_node from to = record { transfer = from; ready_dependency = ready_downstream; downstream = to }

-- A cycle of three different transfers, each of which depends on the next, is accepted.
pub ring-accepted :
    (a b c : ℕ)
    → a ≢ b
    → b ≢ c
    → c ≢ a
    → route_graph_acyclic (slot_node a b ∷ slot_node b c ∷ slot_node c a ∷ []) ≡ true
unfolding route_graph_acyclic acyclic_loop find_node
ring-accepted a b c x y z = ground arith
