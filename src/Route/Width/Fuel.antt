-- ===== src/Route/Width/Fuel.antt =====
-- src/route.c, `route_value_width`: its recursion ends, and finds the width of the expression.
use pigen.Common.{
  ℕ, zero, suc, ◌+◌, ◌<◌, ◌≤◌, ◌≡◌, refl, sym, subst, ◌∙◌, get_elem?-lt, get_elem?-inside, Option,
  none, some, List, [], ◌∷◌, arith, get_elem?, length, All-mono,
}
use pigen.Integer.{invalid_id}
use pigen.Semantic.{
  SemanticModel, SemanticExpr, ExprForm, symbol_expr, concatenation_expr, other_expr,
  pigen_expr_get, pigen_expr_children,
}
use pigen.Route.{DataTypes}
use pigen.Route.Width.{route_type_width, route_value_width}
use pigen.Route.Width.Measured.{
  IsMeasured, IsMeasured-iff, measured-IsMeasured, AllOf, sum_children-IsMeasured,
}
use pigen.Route.Width.Relation.{
  HasWords, HasWidth, ChildWidth, FormWidth, HasWidth-FormWidth, FormWidth-HasWidth, HasWidth-lt,
}

-- The children of an expression were made before it.
abbrev IsOlder : SemanticModel → ℕ → ExprForm → Type 0
IsOlder m id (symbol_expr s) = Unit
IsOlder m id (concatenation_expr first count) =
    AllOf (λ (c : ℕ). c < id) (pigen_expr_children m first count)
IsOlder m id other_expr = Unit

-- The children of each expression, from id `id` on.
abbrev AreOrdered : SemanticModel → ℕ → List SemanticExpr → Type 0
AreOrdered m id [] = Unit
AreOrdered m id (e ∷ es) = IsOlder m id e.form × AreOrdered m (suc id) es

abbrev pub IsOrdered : SemanticModel → Type 0
IsOrdered m = AreOrdered m 0 m.expressions

AreOrdered-get_elem? :
    (m : SemanticModel) (es : List SemanticExpr) (i j n : ℕ) (e : SemanticExpr)
    → AreOrdered m i es
    → get_elem? es j ≡ some e
    → n ≡ i + j
    → IsOlder m n e.form
AreOrdered-get_elem? m [] i j n e o g q = cc
AreOrdered-get_elem? m (k ∷ es) i zero n e o g q =
    subst (λ (x : SemanticExpr). IsOlder m n x.form) same
      (subst (λ (l : ℕ). IsOlder m l k.form) (omega arith) o.0)
  where
    same : k ≡ e
    same = cc
AreOrdered-get_elem? m (k ∷ es) i (suc j) n e o g q =
    AreOrdered-get_elem? m es (suc i) j n e o.1 g (omega arith)

-- Ids above the children's, none of them the invalid id.
module _ (m : SemanticModel) (types : DataTypes) (words : HasWords types) (o : IsOrdered m)
    (few : length m.expressions ≤ invalid_id) where
  older_child :
      (c id : ℕ) (e : SemanticExpr)
      → c < id
      → get_elem? m.expressions id ≡ some e
      → (k : SemanticExpr) × (pigen_expr_get m c ≡ some k)
  older_child c id e l g =
      let below : id < length m.expressions = get_elem?-lt m.expressions id g in
      let (k, found) = get_elem?-inside m.expressions c (omega arith) in (k, ground (arith, found))

  child-IsMeasured :
      (f c : ℕ) (k : SemanticExpr)
      → pigen_expr_get m c ≡ some k
      → IsMeasured (route_value_width f m types (some k)) (HasWidth m types k)
      → IsMeasured (route_value_width f m types (pigen_expr_get m c)) (ChildWidth m types c)
  child-IsMeasured f c k found h =
      subst
        (λ (x : Option SemanticExpr).
          IsMeasured (route_value_width f m types x) (ChildWidth m types c))
        (sym found)
        (IsMeasured-iff _ (HasWidth m types k) (ChildWidth m types c) (λ w s t. (k, found, t))
          (λ w s (j, hit, t). subst (λ x. HasWidth m types x w s) (same j (sym hit ∙ found)) t) h)
    where
      same : (j : SemanticExpr) → some j ≡ some k → j ≡ k
      same j q = cc

  form-IsMeasured :
      (f id : ℕ) (e : SemanticExpr) (form : ExprForm)
      → get_elem? m.expressions id ≡ some e
      → ((c : ℕ) (k : SemanticExpr)
          → c < id
          → pigen_expr_get m c ≡ some k
          → IsMeasured (route_value_width f m types (some k)) (HasWidth m types k))
      → IsOlder m id form
      → e.form ≡ form
      → IsMeasured (route_value_width (suc f) m types (some e)) (FormWidth m types e.data_type form)
  unfolding route_value_width
  form-IsMeasured f id e (symbol_expr x) g h older q =
      rw q (measured-IsMeasured (route_type_width m types e.data_type))
  form-IsMeasured f id e other_expr g h older q =
      rw q (measured-IsMeasured (route_type_width m types e.data_type))
  form-IsMeasured f id e (concatenation_expr first count) g h older q = rw q (
      sum_children-IsMeasured (λ (c : ℕ). route_value_width f m types (pigen_expr_get m c))
        (ChildWidth m types) (λ c w s (k, found, t). HasWidth-lt m types words t)
        (pigen_expr_children m first count) (all (pigen_expr_children m first count) older))
    where
      one :
          (c : ℕ)
          → c < id
          → IsMeasured (route_value_width f m types (pigen_expr_get m c)) (ChildWidth m types c)
      one c l =
          let (k, found) = older_child c id e l g in child-IsMeasured f c k found (h c k l found)

      all :
          (cs : Option (List ℕ))
          → AllOf (λ (c : ℕ). c < id) cs
          → AllOf
              (λ (c : ℕ).
                IsMeasured
                  (route_value_width f m types (pigen_expr_get m c))
                  (ChildWidth m types c))
              cs
      all none l = tt
      all (some cs) l = All-mono _ _ cs one l

  -- Where the children of each expression have lower ids, all below the invalid id, and packed
  -- widths are of 64 bits, fuel above the id of an expression is enough: route_value_width
  -- neither runs out of it nor reads a null expression, and it finds exactly the width and the
  -- sign that the expression has by HasWidth.
  pub route_value_width-IsMeasured :
      (fuel id : ℕ) (e : SemanticExpr)
      → pigen_expr_get m id ≡ some e
      → id < fuel
      → IsMeasured (route_value_width fuel m types (some e)) (HasWidth m types e)
  route_value_width-IsMeasured zero id e found l = absurd (omega arith)
  route_value_width-IsMeasured (suc fuel) id e found l =
      let g : get_elem? m.expressions id ≡ some e = ground (arith, found) in
      IsMeasured-iff _ (FormWidth m types e.data_type e.form) (HasWidth m types e)
        (λ w s h. FormWidth-HasWidth m types e e.form w s refl h)
        (λ w s h. HasWidth-FormWidth m types h)
        (form-IsMeasured fuel id e e.form g
          (λ c k b k_found. route_value_width-IsMeasured fuel c k k_found (omega arith))
          (AreOrdered-get_elem? m m.expressions 0 id id e o g (omega arith)) refl)
