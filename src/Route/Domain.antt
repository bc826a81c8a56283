-- ===== src/Route/Domain.antt =====
-- src/route.c, `route_domain_multi_edge`: each signal is bound to one clock edge.
pub mod Bindings
pub mod Sound
use pigen.Common.{
  ℕ, Bool, true, false, ◌&&◌, ◌||◌, not, Option, none, some, List, [], ◌∷◌, ◌++◌, ◌==◌,
  if◌then◌else◌,
}
use pigen.TransferType.{TypeDescriptor}
use pigen.Semantic.{
  SemanticSignal, SemanticModel, Edge, posedge, negedge, Transfer, SignalUse, pigen_signal_get,
  pigen_clock_domain_get, pigen_transfer_get, pigen_transfer_signal_uses,
}
use pigen.Route.{is_consumer, is_producer, is_set}
use pigen.Route.Laws.{descriptor_of}

pub record DomainBinding : Type 0 where
  pub signal : ℕ
  pub edge : Edge

abbrev pub same_edge : Edge → Edge → Bool
same_edge posedge posedge = true
same_edge posedge negedge = false
same_edge negedge posedge = false
same_edge negedge negedge = true

-- The edge that a signal is bound to.
unfoldable pub bound_edge : List DomainBinding → ℕ → Option Edge
bound_edge [] s = none
bound_edge (b ∷ bs) s = let later = bound_edge bs s in if b.signal == s then some b.edge else later

-- The bindings, and whether no signal was on two edges yet.
abbrev pub bind_edge :
    List DomainBinding → Bool → ℕ → Edge → Option Edge → List DomainBinding × Bool
bind_edge bs ok s edge none = (bs ++ record { signal = s; edge = edge } ∷ [], ok)
bind_edge bs ok s edge (some known) = (bs, ok && same_edge known edge)

abbrev pub binds : Option TypeDescriptor → Bool
binds none = false
binds (some desc) = is_set desc.binds_domain

-- One use, where `none` is the return of 0.
abbrev pub sweep_use :
    SemanticModel
    → Option Edge
    → SignalUse
    → Option SemanticSignal
    → List DomainBinding
    → Bool
    → Option (List DomainBinding × Bool)
sweep_use m edge u none bs ok = none
sweep_use m none u (some sig) bs ok = none
sweep_use m (some edge) u (some sig) bs ok =
    if not (binds (descriptor_of (some sig))) || not (is_consumer u.roles || is_producer u.roles)
    then some (bs, ok)
    else some (bind_edge bs ok u.signal edge (bound_edge bs u.signal))

unfoldable pub sweep_uses :
    SemanticModel
    → Option Edge
    → List SignalUse
    → List DomainBinding
    → Bool
    → Option (List DomainBinding × Bool)
sweep_uses m edge [] bs ok = some (bs, ok)
sweep_uses m edge (u ∷ us) bs ok = elim (sweep_use m edge u (pigen_signal_get m u.signal) bs ok) [
  | none ↦ none
  | some r ↦ sweep_uses m edge us r.0 r.1
]

abbrev pub sweep_transfer :
    SemanticModel
    → Option Transfer
    → Option (List SignalUse)
    → List DomainBinding
    → Bool
    → Option (List DomainBinding × Bool)
sweep_transfer m none uses bs ok = none
sweep_transfer m (some tr) none bs ok = if tr.signal_use_count == 0 then some (bs, ok) else none
sweep_transfer m (some tr) (some us) bs ok =
    sweep_uses m (pigen_clock_domain_get m tr.domain) us bs ok

unfoldable pub sweep_transfers : SemanticModel → List ℕ → List DomainBinding → Bool → Bool
sweep_transfers m [] bs ok = ok
sweep_transfers m (x ∷ xs) bs ok =
    elim (sweep_transfer m (pigen_transfer_get m x) (pigen_transfer_signal_uses m x) bs ok) [
      | none ↦ false
      | some r ↦ sweep_transfers m xs r.0 r.1
    ]

-- The transfers are those of all the processes, in order.
unfoldable pub route_domain_multi_edge : SemanticModel → List ℕ → Bool
route_domain_multi_edge m xfers = sweep_transfers m xfers [] true
