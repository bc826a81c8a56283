-- ===== src/Route/Ready.antt =====
-- src/route.c: the ready graph, and the check of it.
pub mod Cycle
use pigen.Common.{
  ℕ, Bool, true, false, ◌&&◌, not, Option, none, some, List, [], ◌∷◌, ◌==◌, if◌then◌else◌,
}
use pigen.TransferType.{
  ReadyDependency, ready_invalid, ready_external, ready_constant, ready_downstream, ready_occupancy,
}
use pigen.Integer.{invalid_id}
use pigen.Source.{invalid_span}
use pigen.Route.{RouteReadyNode, Route, Status, success, failure}

abbrev pub is_downstream : ReadyDependency → Bool
is_downstream ready_downstream = true
is_downstream ready_invalid = false
is_downstream ready_external = false
is_downstream ready_constant = false
is_downstream ready_occupancy = false

abbrev pub route_downstream : RouteReadyNode → ℕ
route_downstream node =
    if is_downstream node.ready_dependency && not (node.downstream == invalid_id)
    then node.downstream
    else invalid_id

-- The first node of a transfer.
unfoldable pub find_node : List RouteReadyNode → ℕ → Option RouteReadyNode
find_node [] id = none
find_node (n ∷ ns) id = let later = find_node ns id in if n.transfer == id then some n else later

abbrev pub returns_to : Option RouteReadyNode → ℕ → Bool
returns_to none id = false
returns_to (some next) id = route_downstream next == id

abbrev pub node_acyclic : List RouteReadyNode → RouteReadyNode → Bool
node_acyclic nodes node =
    let downstream = route_downstream node in
    if downstream == invalid_id
    then true
    else if downstream == node.transfer
    then false
    else not (returns_to (find_node nodes downstream) node.transfer)

unfoldable pub acyclic_loop : List RouteReadyNode → List RouteReadyNode → Bool
acyclic_loop nodes [] = true
acyclic_loop nodes (n ∷ ns) = node_acyclic nodes n && acyclic_loop nodes ns

unfoldable pub route_graph_acyclic : List RouteReadyNode → Bool
route_graph_acyclic nodes = acyclic_loop nodes nodes

abbrev pub checked : Route → Bool → Route
checked route valid = record {
  unit = route.unit;
  transfer_count = route.transfer_count;
  nodes = route.nodes;
  check_valid = valid;
  check_span = invalid_span;
}

abbrev pub check_result : Route → Bool → Route × Status
check_result route true = (checked route true, success)
check_result route false = (checked route false, failure)

abbrev pub check_nodes : Route → List RouteReadyNode → Route × Status
check_nodes route [] = (route, failure)
check_nodes route (n ∷ ns) = check_result route (route_graph_acyclic (n ∷ ns))

unfoldable pub pigen_route_check : Route → Route × Status
pigen_route_check route = check_nodes route route.nodes
