-- ===== src/Route/Width.antt =====
-- src/route.c: the width and the signedness of a value and of a destination, as a pair.
pub mod Measured
pub mod Relation
pub mod Fuel
pub mod Dest
use pigen.Common.{
  ℕ, zero, suc, ◌+◌, ◌-◌, ◌^◌, Bool, true, false, ◌&&◌, ◌||◌, not, Option, none, some, List, [],
  ◌∷◌, ltb, ◌==◌, if◌then◌else◌, length,
}
use pigen.Integer.Read.{pigen_integer_unsigned_width}
use pigen.Semantic.{
  SemanticExpr, SemanticSignal, Lvalue, projection, concatenation, SemanticModel, ExprForm,
  symbol_expr, concatenation_expr, other_expr, pigen_expr_get, pigen_lvalue_get, pigen_signal_get,
  pigen_expr_children, pigen_lvalue_children,
}
use pigen.Route.{DataTypes}

abbrev pub with_sign : ℕ → Option ℕ → Option (ℕ × ℕ)
with_sign sign none = none
with_sign sign (some width) = some (width, sign)

-- An exact integer's type has the width of its value; 2 is PIGEN_NUMERICAL_EXACT_INTEGER.
abbrev pub sized_width : SemanticModel → DataTypes → ℕ → Option ℕ
sized_width m types ty =
    if types.numerical_interpretation ty == 2
    then some (pigen_integer_unsigned_width m.integers (types.exact_value ty))
    else types.packed_width ty

-- The signedness is 1 to 3 and the state domain 1 or 2 where the type has them.
unfoldable pub route_type_width : SemanticModel → DataTypes → ℕ → Option (ℕ × ℕ)
route_type_width m types ty =
    let sign = types.signedness ty in
    let state = types.state_domain ty in
    if ltb sign 1 || ltb 3 sign || (not (state == 1) && not (state == 2))
    then none
    else with_sign sign (sized_width m types ty)

-- What the code finds: a width and a sign, or its return of 0. `null_expression` is a read through
-- a null pointer, and `out_of_fuel` is a recursion that the fuel does not cover.
pub data Width : Type 0 where
  sized : ℕ → ℕ → Width
  unsized null_expression out_of_fuel : Width

abbrev pub measured : Option (ℕ × ℕ) → Width
measured none = unsized
measured (some (w, s)) = sized w s

-- The loop over the children of a concatenation.
abbrev pub add_child : ℕ → ℕ → Bool → Width → (ℕ → ℕ → Width) → Width
add_child total sign first (sized w s) rest =
    if not first && not (s == sign)
    then unsized
    else if ltb (2 ^ 64 - 1 - w) total
    then unsized
    else rest (total + w) s
add_child total sign first unsized rest = unsized
add_child total sign first null_expression rest = null_expression
add_child total sign first out_of_fuel rest = out_of_fuel

unfoldable pub sum_widths : (ℕ → Width) → List ℕ → ℕ → ℕ → Bool → Width
sum_widths measure [] total sign first = sized total sign
sum_widths measure (c ∷ cs) total sign first =
    add_child total sign first (measure c) (λ (t : ℕ) (s : ℕ). sum_widths measure cs t s false)

abbrev pub sum_children : (ℕ → Width) → Option (List ℕ) → Width
sum_children measure none = unsized
sum_children measure (some []) = unsized
sum_children measure (some (c ∷ cs)) = sum_widths measure (c ∷ cs) 0 1 true

-- `fuel` bounds the depth of the concatenations; `none` is a null pointer, which the code reads.
unfoldable pub route_value_width : ℕ → SemanticModel → DataTypes → Option SemanticExpr → Width
route_value_width zero m types expr = out_of_fuel
route_value_width (suc fuel) m types none = null_expression
route_value_width (suc fuel) m types (some expr) = elim expr.form [
  | concatenation_expr first count ↦
      sum_children (λ (c : ℕ). route_value_width fuel m types (pigen_expr_get m c))
        (pigen_expr_children m first count)
  | symbol_expr s ↦ measured (route_type_width m types expr.data_type)
  | other_expr ↦ measured (route_type_width m types expr.data_type)
]

abbrev pub signal_width : SemanticModel → DataTypes → Option SemanticSignal → Option (ℕ × ℕ)
signal_width m types none = none
signal_width m types (some sig) = route_type_width m types sig.data_type

-- A child of a destination is a projection.
abbrev pub child_width : SemanticModel → DataTypes → Option Lvalue → Width
child_width m types none = unsized
child_width m types (some (projection s)) = measured (signal_width m types (pigen_signal_get m s))
child_width m types (some (concatenation first count)) = unsized

-- The number of signals is 1 for a projection, and at least 1 for a concatenation that has a width:
-- that of its children.
unfoldable pub route_dest_width : SemanticModel → DataTypes → Lvalue → Width
route_dest_width m types (projection s) = child_width m types (some (projection s))
route_dest_width m types (concatenation first count) =
    sum_children (λ (c : ℕ). child_width m types (pigen_lvalue_get m c))
      (pigen_lvalue_children m first count)
