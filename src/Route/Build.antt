-- ===== src/Route/Build.antt =====
-- src/route.c, `pigen_route_build`. The transfers are those of all the module's processes, in order,
-- since each loop of the code over the processes goes through them in this order. A route that the
-- code leaves half built is `reset`, with the span that anchors the failure.
pub mod Success
pub mod Consumer
pub mod Nodes
pub mod Owned
pub mod Graph
pub mod Lawful
use pigen.Common.{
  ℕ, suc, Bool, true, false, ◌||◌, not, Option, none, some, List, [], ◌∷◌, ◌++◌, ◌==◌, map,
  if◌then◌else◌, length,
}
use pigen.TransferType.{
  RealizationDescriptor, TypeDescriptor, ReadyDependency, ready_invalid,
  pigen_transfer_realization_descriptor_get,
}
use pigen.Integer.{invalid_id}
use pigen.Source.{SourceSpan, invalid_span}
use pigen.Semantic.{
  SemanticExpr, SemanticModel, SemanticSignal, Transfer, pigen_expr_get, pigen_transfer_get,
  pigen_module_processes, pigen_process_transfers,
}
use pigen.Route.{RouteReadyNode, Route, DataTypes, Status, success, failure}
use pigen.Route.Laws.{
  Law, holds, fails, unreturned, value_signal, is_signal, route_dest_signal_id, route_dest_signal,
  route_transfer_laws, route_vdo_laws, descriptor_of,
}
use pigen.Route.Domain.{route_domain_multi_edge}
use pigen.Route.Ready.{is_downstream, route_graph_acyclic}

abbrev append_transfers : Option (List ℕ) → Option (List ℕ) → Option (List ℕ)
append_transfers none rest = none
append_transfers (some xs) none = none
append_transfers (some xs) (some rest) = some (xs ++ rest)

-- The transfers of the processes, none where a process has none.
unfoldable pub process_list_transfers : SemanticModel → List ℕ → Option (List ℕ)
process_list_transfers m [] = some []
process_list_transfers m (p ∷ ps) =
    append_transfers (pigen_process_transfers m p) (process_list_transfers m ps)

-- The search of `route_downstream_consumer` through the transfers of a process.
abbrev pub consumes : SemanticModel → Option Transfer → ℕ → Bool
consumes m none s = false
consumes m (some tr) s = is_signal s (value_signal m tr)

unfoldable pub find_consumer : SemanticModel → List ℕ → ℕ → Option ℕ
find_consumer m [] s = none
find_consumer m (x ∷ xs) s =
    let later = find_consumer m xs s in
    if consumes m (pigen_transfer_get m x) s then some x else later

abbrev pub consumer_among : SemanticModel → Option (List ℕ) → ℕ → Option ℕ
consumer_among m none s = none
consumer_among m (some xs) s = find_consumer m xs s

abbrev pub or_else : Option ℕ → Option ℕ → Option ℕ
or_else none later = later
or_else (some x) later = some x

-- A process without transfers is passed over.
unfoldable pub find_process_consumer : SemanticModel → List ℕ → ℕ → Option ℕ
find_process_consumer m [] s = none
find_process_consumer m (p ∷ ps) s =
    or_else (consumer_among m (pigen_process_transfers m p) s) (find_process_consumer m ps s)

abbrev pub consumer_of : SemanticModel → Option (List ℕ) → ℕ → ℕ
consumer_of m none s = invalid_id
consumer_of m (some ps) s = elim (find_process_consumer m ps s) [ none ↦ invalid_id | some x ↦ x ]

unfoldable pub route_downstream_consumer : SemanticModel → ℕ → ℕ → ℕ
route_downstream_consumer m id s = consumer_of m (pigen_module_processes m id) s

abbrev realization_ready : Option RealizationDescriptor → ReadyDependency
realization_ready none = ready_invalid
realization_ready (some r) = r.ready_dependency

abbrev pub type_ready : Option TypeDescriptor → ReadyDependency
type_ready none = ready_invalid
type_ready (some d) = realization_ready (pigen_transfer_realization_descriptor_get d.realization)

-- A node, with the signal that its transfer writes.
abbrev pub new_node : SemanticModel → ℕ → Transfer → SemanticSignal → RouteReadyNode × ℕ
new_node m x tr dest = (
  record {
    transfer = x;
    ready_dependency = type_ready (descriptor_of (some dest));
    downstream = invalid_id;
  },
  elim (route_dest_signal_id m tr) [ none ↦ invalid_id | some s ↦ s ],
)

-- A failure carries the span of its transfer; `lost` is a law that does not return.
pub data Built : Type 0 where
  lost : Built
  stopped : SourceSpan → Built
  built : List (RouteReadyNode × ℕ) → Built

abbrev pub push_node : RouteReadyNode × ℕ → Built → Built
push_node node lost = lost
push_node node (stopped span) = stopped span
push_node node (built nodes) = built (node ∷ nodes)

abbrev pub with_dest : SemanticModel → ℕ → Transfer → Option SemanticSignal → Built → Built
with_dest m x tr none rest = stopped tr.span
with_dest m x tr (some dest) rest = push_node (new_node m x tr dest) rest

-- The laws, in the code's order, and the destination.
abbrev pub with_laws : SemanticModel → ℕ → Transfer → Law → Built → Built
with_laws m x tr unreturned rest = lost
with_laws m x tr fails rest = stopped tr.span
with_laws m x tr holds rest =
    if not (route_vdo_laws m tr x)
    then stopped tr.span
    else with_dest m x tr (route_dest_signal m tr) rest

abbrev pub build_node : SemanticModel → DataTypes → ℕ → ℕ → Option Transfer → Built → Built
build_node m types id x none rest = stopped invalid_span
build_node m types id x (some tr) rest =
    if not (tr.owner == id)
    then stopped tr.span
    else with_laws m x tr (route_transfer_laws m types tr) rest

unfoldable pub build_nodes : SemanticModel → DataTypes → ℕ → List ℕ → Built
build_nodes m types id [] = built []
build_nodes m types id (x ∷ xs) =
    build_node m types id x (pigen_transfer_get m x) (build_nodes m types id xs)

-- The ready-edge law.
abbrev pub link_node : SemanticModel → ℕ → RouteReadyNode × ℕ → RouteReadyNode
link_node m id (node, s) =
    if not (is_downstream node.ready_dependency) || s == invalid_id then node else record {
      transfer = node.transfer;
      ready_dependency = node.ready_dependency;
      downstream = route_downstream_consumer m id s;
    }

unfoldable pub link_nodes : SemanticModel → ℕ → List (RouteReadyNode × ℕ) → List RouteReadyNode
link_nodes m id [] = []
link_nodes m id (n ∷ ns) = link_node m id n ∷ link_nodes m id ns

abbrev pub built_route : ℕ → ℕ → List RouteReadyNode → Bool → SourceSpan → Route
built_route id total nodes valid span = record {
  unit = id;
  transfer_count = total;
  nodes = nodes;
  check_valid = valid;
  check_span = span;
}

abbrev span_of : Option Transfer → SourceSpan
span_of none = invalid_span
span_of (some tr) = tr.span

abbrev first_span : SemanticModel → List RouteReadyNode → SourceSpan
first_span m [] = invalid_span
first_span m (n ∷ ns) = span_of (pigen_transfer_get m n.transfer)

abbrev pub publish : SemanticModel → ℕ → ℕ → List RouteReadyNode → Route × Status
publish m id total nodes =
    if route_graph_acyclic nodes
    then (built_route id total nodes true invalid_span, success)
    else (built_route id total nodes false (first_span m nodes), failure)

abbrev pub publish_built : SemanticModel → ℕ → ℕ → Built → Route × Status
publish_built m id total lost = (built_route id total [] false invalid_span, Status.unreturned)
publish_built m id total (stopped span) = (built_route id total [] false span, failure)
publish_built m id total (built nodes) = publish m id total (link_nodes m id nodes)

abbrev pub build_transfers :
    Route → SemanticModel → DataTypes → ℕ → Option (List ℕ) → Route × Status
build_transfers route m types id none = (route, failure)
build_transfers route m types id (some []) = (route, failure)
build_transfers route m types id (some (x ∷ xs)) =
    if route_domain_multi_edge m (x ∷ xs)
    then publish_built m id (length (x ∷ xs)) (build_nodes m types id (x ∷ xs))
    else (built_route id (length (x ∷ xs)) [] false invalid_span, failure)

abbrev build_processes : Route → SemanticModel → DataTypes → ℕ → Option (List ℕ) → Route × Status
build_processes route m types id none = (route, failure)
build_processes route m types id (some ps) =
    build_transfers route m types id (process_list_transfers m ps)

unfoldable pub pigen_route_build : Route → SemanticModel → DataTypes → ℕ → Route × Status
pigen_route_build route m types id =
    if id == invalid_id
    then (route, failure)
    else build_processes route m types id (pigen_module_processes m id)
