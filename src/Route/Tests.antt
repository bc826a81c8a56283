-- ===== src/Route/Tests.antt =====
-- Runs of the code of src/route.c, and its theorems at concrete inputs.
use pigen.Common.{
  ℕ, zero, suc, ◌≡◌, ◌≢◌, refl, sym, ap, ◌∙◌, ◌⊎◌, ◌↔◌, true, Option, none, some, List, [], ◌∷◌,
  arith, get_elem?,
}
use pigen.Integer.{invalid_id}
use pigen.TransferType.{pigen_transfer_type_descriptor_get, ready_downstream}
use pigen.Source.{invalid_span}
use pigen.Semantic.{
  SemanticModel, SemanticExpr, symbol_expr, concatenation_expr, signal_object, projection, posedge,
  owned_by, pigen_module_processes, pigen_process_transfers,
}
use pigen.Route.{RouteReadyNode, Route, DataTypes, success, pigen_route_init}
use pigen.Route.Width.{route_type_width, route_value_width, route_dest_width}
use pigen.Route.Width.Relation.{HasWidth, HasWords}
use pigen.Route.Width.Fuel.{IsOrdered, route_value_width-IsMeasured}
use pigen.Route.Width.Measured.{IsMeasured}
use pigen.Route.Laws.{
  route_dest_signal_id, route_dest_signal, route_transfer_laws, child_names, use_laws, has_consumer,
  route_vdo_laws,
}
use pigen.Route.Domain.{bound_edge, sweep_uses, sweep_transfers, route_domain_multi_edge}
use pigen.Route.Ready.{find_node, acyclic_loop, route_graph_acyclic, pigen_route_check}
use pigen.Route.Ready.Cycle.{IsGraph, HasEdge, slot_node, route_graph_acyclic_iff, ring-accepted}
use pigen.Route.Build.{
  process_list_transfers, find_consumer, find_process_consumer, route_downstream_consumer,
  build_nodes, link_nodes, pigen_route_build,
}
use pigen.Route.Build.Consumer.{IsConsumer, route_downstream_consumer-IsConsumer}
use pigen.Route.Build.Success.{pigen_route_build-check}

-- Two transfers in one process: signal 1 into signal 0, and signal 0 into signal 2; all are `buf`.
abbrev chain : SemanticModel
chain = record {
  integers = record { integers = []; limbs = [] };
  symbols = signal_object 1 ∷ signal_object 0 ∷ [];
  expressions =
      record { form = symbol_expr 0; data_type = 0 }
      ∷ record { form = symbol_expr 1; data_type = 0 }
      ∷ record { form = concatenation_expr 0 2; data_type = 0 }
      ∷ [];
  expression_children = 0 ∷ 1 ∷ [];
  lvalues = projection 0 ∷ projection 2 ∷ [];
  lvalue_children = [];
  module_count = 1;
  signals =
      record { data_type = 0; transfer_type = 4 }
      ∷ record { data_type = 0; transfer_type = 4 }
      ∷ record { data_type = 0; transfer_type = 4 }
      ∷ [];
  clock_domains = posedge ∷ [];
  processes = 0 ∷ [];
  transfers =
      record {
        owner = 0;
        process = 0;
        destination = 0;
        value = 0;
        domain = 0;
        first_signal_use = 0;
        signal_use_count = 2;
        span = invalid_span;
      }
      ∷ record {
        owner = 0;
        process = 0;
        destination = 1;
        value = 1;
        domain = 0;
        first_signal_use = 2;
        signal_use_count = 2;
        span = invalid_span;
      }
      ∷ [];
  transfer_signal_uses =
      record { signal = 0; roles = 10 }
      ∷ record { signal = 1; roles = 5 }
      ∷ record { signal = 2; roles = 10 }
      ∷ record { signal = 0; roles = 5 }
      ∷ [];
}

abbrev bytes : DataTypes
bytes = record {
  signedness = λ ty. 2;
  state_domain = λ ty. 2;
  numerical_interpretation = λ ty. 5;
  exact_value = λ ty. 0;
  packed_width = λ ty. some 8;
}

abbrev end_node : RouteReadyNode
end_node = record { transfer = 1; ready_dependency = ready_downstream; downstream = invalid_id }

abbrev chain_route : Route
chain_route = record {
  unit = 0;
  transfer_count = 2;
  nodes = slot_node 0 1 ∷ end_node ∷ [];
  check_valid = true;
  check_span = invalid_span;
}

chain-run : pigen_route_build (pigen_route_init 0) chain bytes 0 ≡ (chain_route, success)
unfolding pigen_route_build pigen_module_processes pigen_process_transfers owned_by
    process_list_transfers route_domain_multi_edge sweep_transfers sweep_uses bound_edge build_nodes
    link_nodes route_transfer_laws route_value_width route_dest_width route_type_width
    route_vdo_laws use_laws has_consumer child_names route_dest_signal route_dest_signal_id
    route_downstream_consumer find_process_consumer find_consumer route_graph_acyclic acyclic_loop
    find_node pigen_transfer_type_descriptor_get
chain-run = refl

pigen_route_build-check_example : pigen_route_check chain_route ≡ (chain_route, success)
pigen_route_build-check_example =
    pigen_route_build-check chain bytes 0 (pigen_route_init 0) chain_route chain-run

processes-run : pigen_module_processes chain 0 ≡ some (0 ∷ [])
unfolding pigen_module_processes owned_by
processes-run = refl

consumer-run : route_downstream_consumer chain 0 0 ≡ 1
unfolding route_downstream_consumer find_process_consumer find_consumer pigen_module_processes
    pigen_process_transfers owned_by
consumer-run = refl

route_downstream_consumer-IsConsumer_example :
    IsConsumer chain (0 ∷ []) 0 1 ⊎ ((1 ≡ invalid_id) × ((y : ℕ) → ¬ IsConsumer chain (0 ∷ []) 0 y))
route_downstream_consumer-IsConsumer_example =
    route_downstream_consumer-IsConsumer chain 0 (0 ∷ []) 0 1 processes-run consumer-run

-- A pair of transfers that depend on each other.
abbrev pair : List RouteReadyNode
pair = slot_node 0 1 ∷ slot_node 1 0 ∷ []

abbrev transfer_of : ℕ → Option RouteReadyNode → ℕ
transfer_of d none = d
transfer_of d (some n) = n.transfer

pair-IsGraph : IsGraph pair
pair-IsGraph = record { unique = unique; valid = valid }
  where
    owner :
        (from to : ℕ) (n : RouteReadyNode) → some (slot_node from to) ≡ some n → from ≡ n.transfer
    owner from to n e = ap (λ (o : Option RouteReadyNode). transfer_of from o) e

    apart :
        (n k : RouteReadyNode) (a b : ℕ)
        → a ≡ n.transfer
        → b ≡ k.transfer
        → n.transfer ≡ k.transfer
        → a ≢ b
        → ⊥
    apart n k a b x y q d = d (x ∙ q ∙ sym y)

    unique :
        (i j : ℕ) (n k : RouteReadyNode)
        → get_elem? pair i ≡ some n
        → get_elem? pair j ≡ some k
        → n.transfer ≡ k.transfer
        → n ≡ k
    unique zero zero n k e f q = cc
    unique zero (suc zero) n k e f q =
        absurd (apart n k 0 1 (owner 0 1 n e) (owner 1 0 k f) q (λ z. omega arith))
    unique (suc zero) zero n k e f q =
        absurd (apart n k 1 0 (owner 1 0 n e) (owner 0 1 k f) q (λ z. omega arith))
    unique (suc zero) (suc zero) n k e f q = cc
    unique (suc (suc i)) j n k e f q = cc
    unique zero (suc (suc j)) n k e f q = cc
    unique (suc zero) (suc (suc j)) n k e f q = cc

    valid : (i : ℕ) (n : RouteReadyNode) → get_elem? pair i ≡ some n → n.transfer ≢ invalid_id
    valid zero n e z = absurd (omega (arith, owner 0 1 n e))
    valid (suc zero) n e z = absurd (omega (arith, owner 1 0 n e))
    valid (suc (suc i)) n e z = cc

route_graph_acyclic_iff_example :
    (route_graph_acyclic pair ≡ true) ↔ ((a b : ℕ) → HasEdge pair a b → HasEdge pair b a → ⊥)
route_graph_acyclic_iff_example = route_graph_acyclic_iff pair pair-IsGraph

ring-accepted_example :
    route_graph_acyclic (slot_node 0 1 ∷ slot_node 1 2 ∷ slot_node 2 0 ∷ []) ≡ true
ring-accepted_example = ring-accepted 0 1 2 (omega arith) (omega arith) (omega arith)

chain-IsOrdered : IsOrdered chain
chain-IsOrdered = (tt, (tt, ((omega arith, (omega arith, tt)), tt)))

bytes-HasWords : HasWords bytes
bytes-HasWords ty w e = omega (arith, eight)
  where
    eight : 8 ≡ w
    eight = cc

abbrev both_symbols : SemanticExpr
both_symbols = record { form = concatenation_expr 0 2; data_type = 0 }

route_value_width-IsMeasured_example :
    IsMeasured
      (route_value_width 3 chain bytes (some both_symbols))
      (HasWidth chain bytes both_symbols)
route_value_width-IsMeasured_example =
    route_value_width-IsMeasured chain bytes bytes-HasWords chain-IsOrdered (omega arith) 3 2
      both_symbols refl (omega arith)
