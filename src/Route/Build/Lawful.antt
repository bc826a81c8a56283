-- ===== src/Route/Build/Lawful.antt =====
-- src/route.c, `pigen_route_build`: what the laws promise of a route that was built.
use pigen.Common.{ℕ, ◌≡◌, ◌⊎◌, true, some, List, length, All}
use pigen.Source.{invalid_span}
use pigen.Semantic.{
  SemanticModel, SemanticExpr, Lvalue, Transfer, SignalUse, pigen_expr_get, pigen_lvalue_get,
  pigen_transfer_get, pigen_transfer_signal_uses,
}
use pigen.Route.{Route, DataTypes}
use pigen.Route.Width.{Width}
use pigen.Route.Width.Relation.{HasWidth}
use pigen.Route.Width.Dest.{HasDestWidth}
use pigen.Route.Domain.Sound.{IsOneEdge}
use pigen.Route.Ready.Cycle.{HasEdge}
use pigen.Route.Build.Nodes.{node_transfers}
use pigen.Route.Build.Graph.{IsReadyNode}
use pigen.Route.Build.Owned.{IsOwned}

-- The transfer `x` belongs to the module; its destination and its value have one width and one sign;
-- its uses are owned.
pub record IsSound (m : SemanticModel) (types : DataTypes) (id x : ℕ) : Type 0 where
  transfer : Transfer
  found : pigen_transfer_get m x ≡ some transfer
  isolated : transfer.owner ≡ id
  dest : Lvalue
  dest_found : pigen_lvalue_get m transfer.destination ≡ some dest
  value : SemanticExpr
  value_found : pigen_expr_get m transfer.value ≡ some value
  width : ℕ
  sign : ℕ
  dest_width : HasDestWidth m types dest width sign
  value_width : HasWidth m types value width sign
  owned :
      (transfer.signal_use_count ≡ 0)
      ⊎ ((us : List SignalUse) × (pigen_transfer_signal_uses m x ≡ some us) × IsOwned m transfer us)

-- The route of the module `id`, whose processes are `ps` and whose transfers are `xs`.
pub record IsRoute (m : SemanticModel) (types : DataTypes) (id : ℕ) (ps xs : List ℕ) (r : Route)
    : Type 0 where
  unit : r.unit ≡ id
  one_node_each : node_transfers r.nodes ≡ xs
  counted : r.transfer_count ≡ length xs
  lawful : All (IsSound m types id) xs
  one_edge : IsOneEdge m xs
  nodes : All (IsReadyNode m ps) r.nodes
  no_pair : (a b : ℕ) → HasEdge r.nodes a b → HasEdge r.nodes b a → ⊥
  valid : r.check_valid ≡ true
  unanchored : r.check_span ≡ invalid_span
