-- ===== src/Route/Laws.antt =====
-- src/route.c: the laws that the build checks for each transfer.
use pigen.Common.{
  ℕ, suc, Bool, true, false, ◌&&◌, ◌||◌, not, Option, none, some, List, [], ◌∷◌, ◌==◌,
  if◌then◌else◌, length,
}
use pigen.TransferType.{TypeDescriptor, pigen_transfer_type_descriptor_get}
use pigen.Semantic.{
  SemanticExpr, SemanticSignal, SymbolObject, signal_object, other_object, Lvalue, projection,
  concatenation, SemanticModel, symbol_expr, concatenation_expr, other_expr, Transfer, SignalUse,
  pigen_expr_get, pigen_symbol_get, pigen_lvalue_get, pigen_signal_get, pigen_lvalue_children,
  pigen_transfer_signal_uses,
}
use pigen.Route.{DataTypes, is_consumer, is_producer, is_set}
use pigen.Route.Width.{
  Width, sized, unsized, null_expression, out_of_fuel, route_value_width, route_dest_width,
}

abbrev object_signal : Option SymbolObject → Option ℕ
object_signal none = none
object_signal (some (signal_object s)) = some s
object_signal (some other_object) = none

abbrev expr_signal : SemanticModel → Option SemanticExpr → Option ℕ
expr_signal m none = none
expr_signal m (some expr) = elim expr.form [
  | symbol_expr s ↦ object_signal (pigen_symbol_get m s)
  | concatenation_expr first count ↦ none
  | other_expr ↦ none
]

-- The signal that the value of a transfer names.
abbrev pub value_signal : SemanticModel → Transfer → Option ℕ
value_signal m tr = expr_signal m (pigen_expr_get m tr.value)

abbrev pub is_signal : ℕ → Option ℕ → Bool
is_signal s none = false
is_signal s (some v) = v == s

-- The first child of a destination, where it is a projection.
abbrev projected_signal : Option Lvalue → Option ℕ
projected_signal none = none
projected_signal (some (projection s)) = some s
projected_signal (some (concatenation first count)) = none

abbrev first_signal : SemanticModel → Option (List ℕ) → Option ℕ
first_signal m none = none
first_signal m (some []) = none
first_signal m (some (c ∷ cs)) = projected_signal (pigen_lvalue_get m c)

abbrev dest_signal_of : SemanticModel → Option Lvalue → Option ℕ
dest_signal_of m none = none
dest_signal_of m (some (projection s)) = some s
dest_signal_of m (some (concatenation first count)) =
    first_signal m (pigen_lvalue_children m first count)

-- `none` is the invalid id.
unfoldable pub route_dest_signal_id : SemanticModel → Transfer → Option ℕ
route_dest_signal_id m tr = dest_signal_of m (pigen_lvalue_get m tr.destination)

abbrev pub signal_of : SemanticModel → Option ℕ → Option SemanticSignal
signal_of m none = none
signal_of m (some s) = pigen_signal_get m s

unfoldable pub route_dest_signal : SemanticModel → Transfer → Option SemanticSignal
route_dest_signal m tr = signal_of m (route_dest_signal_id m tr)

-- What the code returns, 1 or 0; it returns nothing where it reads a null expression or where its
-- recursion does not end.
pub data Law : Type 0 where
  holds fails unreturned : Law

abbrev pub law_of : Bool → Law
law_of true = holds
law_of false = fails

abbrev pub same_value_width : ℕ → ℕ → Width → Law
same_value_width w s (sized v t) = law_of (w == v && s == t)
same_value_width w s unsized = fails
same_value_width w s null_expression = unreturned
same_value_width w s out_of_fuel = unreturned

-- The value's width is measured where the destination has one.
abbrev pub same_width : Width → Width → Law
same_width (sized w s) value = same_value_width w s value
same_width unsized value = fails
same_width null_expression value = unreturned
same_width out_of_fuel value = unreturned

abbrev pub transfer_laws_of : SemanticModel → DataTypes → Option Lvalue → Option SemanticExpr → Law
transfer_laws_of m types none value = fails
transfer_laws_of m types (some dest) none = fails
transfer_laws_of m types (some dest) (some value) =
    same_width (route_dest_width m types dest)
      (route_value_width (suc (length m.expressions)) m types (some value))

unfoldable pub route_transfer_laws : SemanticModel → DataTypes → Transfer → Law
route_transfer_laws m types tr =
    transfer_laws_of m types (pigen_lvalue_get m tr.destination) (pigen_expr_get m tr.value)

-- The search for a signal among the children of a destination.
unfoldable pub child_names : SemanticModel → List ℕ → ℕ → Bool
child_names m [] s = false
child_names m (c ∷ cs) s =
    is_signal s (projected_signal (pigen_lvalue_get m c)) || child_names m cs s

abbrev children_name : SemanticModel → Option (List ℕ) → ℕ → Bool
children_name m none s = false
children_name m (some cs) s = child_names m cs s

abbrev pub dest_names : SemanticModel → Option Lvalue → ℕ → Bool
dest_names m none s = false
dest_names m (some (projection p)) s = p == s
dest_names m (some (concatenation first count)) s =
    children_name m (pigen_lvalue_children m first count) s

-- A signal that requires ownership has the role of each way in which the transfer uses it.
abbrev pub owned_roles : Bool → Bool → ℕ → Bool
owned_roles is_dest is_src roles =
    if is_dest && not (is_producer roles)
    then false
    else if is_src && not (is_consumer roles)
    then false
    else true

abbrev pub use_law_of : SemanticModel → Transfer → SignalUse → Option TypeDescriptor → Bool
use_law_of m tr use_ none = false
use_law_of m tr use_ (some desc) =
    if is_producer use_.roles && is_consumer use_.roles
    then false
    else if is_set desc.requires_ownership
    then owned_roles (dest_names m (pigen_lvalue_get m tr.destination) use_.signal)
        (is_signal use_.signal (value_signal m tr)) use_.roles
    else true

abbrev pub descriptor_of : Option SemanticSignal → Option TypeDescriptor
descriptor_of none = none
descriptor_of (some sig) = pigen_transfer_type_descriptor_get sig.transfer_type

unfoldable pub use_laws : SemanticModel → Transfer → List SignalUse → Bool
use_laws m tr [] = true
use_laws m tr (u ∷ us) =
    use_law_of m tr u (descriptor_of (pigen_signal_get m u.signal)) && use_laws m tr us

-- The search for a use of the signal as a consumer.
unfoldable pub has_consumer : ℕ → List SignalUse → Bool
has_consumer s [] = false
has_consumer s (u ∷ us) = (u.signal == s && is_consumer u.roles) || has_consumer s us

abbrev pub owned_value : Option TypeDescriptor → ℕ → List SignalUse → Bool
owned_value none s us = true
owned_value (some desc) s us = if is_set desc.requires_ownership then has_consumer s us else true

abbrev pub value_law : SemanticModel → Option ℕ → List SignalUse → Bool
value_law m none us = true
value_law m (some s) us = owned_value (descriptor_of (pigen_signal_get m s)) s us

abbrev pub vdo_laws_of : SemanticModel → Transfer → Option (List SignalUse) → Bool
vdo_laws_of m tr none = false
vdo_laws_of m tr (some us) = use_laws m tr us && value_law m (value_signal m tr) us

unfoldable pub route_vdo_laws : SemanticModel → Transfer → ℕ → Bool
route_vdo_laws m tr id =
    if tr.signal_use_count == 0 then true else vdo_laws_of m tr (pigen_transfer_signal_uses m id)
