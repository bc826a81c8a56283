-- ===== src/Route/Width/Relation.antt =====
-- src/route.c, `route_value_width`: the width that an expression has.
use pigen.Common.{
  ℕ, ◌+◌, ◌^◌, ◌<◌, ◌≡◌, ◌≢◌, refl, sym, subst, ltb, ◌||◌, ◌&&◌, not, Bool-cases, Option, none,
  some, List, [], ◌∷◌, arith, ◌==◌, inl, inr,
}
use pigen.Integer.Read.{pigen_integer_unsigned_width}
use pigen.Integer.Read.Widths.{unsigned_width-le}
use pigen.Semantic.{
  SemanticModel, SemanticExpr, ExprForm, symbol_expr, concatenation_expr, other_expr,
  pigen_expr_get, pigen_expr_children,
}
use pigen.Route.{DataTypes}
use pigen.Route.Width.{with_sign, sized_width, route_type_width}
use pigen.Route.Width.Measured.{SumsTo, SumsOf}

-- The width in bits and the sign of an expression: that of its type, and for a concatenation the sum
-- of its children's widths and the sign that they all have. At least one child is needed, and a sum
-- of 64 bits.
mutual
  pub data HasWidth (m : SemanticModel) (types : DataTypes) : SemanticExpr → ℕ → ℕ → Type 0 where
    by_symbol :
        (e : SemanticExpr) (symbol w s : ℕ)
        → e.form ≡ symbol_expr symbol
        → route_type_width m types e.data_type ≡ some (w, s)
        → HasWidth m types e w s
    by_type :
        (e : SemanticExpr) (w s : ℕ)
        → e.form ≡ other_expr
        → route_type_width m types e.data_type ≡ some (w, s)
        → HasWidth m types e w s
    by_children :
        (e : SemanticExpr) (first count c : ℕ) (cs : List ℕ) (w s : ℕ)
        → e.form ≡ concatenation_expr first count
        → pigen_expr_children m first count ≡ some (c ∷ cs)
        → w < 2 ^ 64
        → HaveWidths m types (c ∷ cs) w s
        → HasWidth m types e w s

  pub data HaveWidths (m : SemanticModel) (types : DataTypes) : List ℕ → ℕ → ℕ → Type 0 where
    no_child : (s : ℕ) → HaveWidths m types [] 0 s
    child :
        (c : ℕ) (cs : List ℕ) (e : SemanticExpr) (v w s : ℕ)
        → pigen_expr_get m c ≡ some e
        → HasWidth m types e v s
        → HaveWidths m types cs w s
        → HaveWidths m types (c ∷ cs) (v + w) s

-- What src/data_type.c and src/const_expr.c promise of a packed width, which is a `uint64_t`.
abbrev pub HasWords : DataTypes → Type 0
HasWords types = (ty w : ℕ) → types.packed_width ty ≡ some w → w < 2 ^ 64

module _ (m : SemanticModel) (types : DataTypes) where
  -- The width of the expression with an id.
  abbrev pub ChildWidth : ℕ → ℕ → ℕ → Type 0
  ChildWidth c w s = (e : SemanticExpr) × (pigen_expr_get m c ≡ some e) × HasWidth m types e w s

  HaveWidths-SumsTo : {cs : List ℕ} {w s : ℕ} → HaveWidths m types cs w s → SumsTo ChildWidth cs w s
  HaveWidths-SumsTo (no_child s) = refl
  HaveWidths-SumsTo (child c cs e v w s found h later) =
      (v, w, refl, (e, found, h), HaveWidths-SumsTo later)

  SumsTo-HaveWidths : (cs : List ℕ) (w s : ℕ) → SumsTo ChildWidth cs w s → HaveWidths m types cs w s
  SumsTo-HaveWidths [] w s h = subst (λ (x : ℕ). HaveWidths m types [] x s) (sym h) (no_child s)
  SumsTo-HaveWidths (c ∷ cs) w s (a, b, sum, (e, found, h), later) =
      subst (λ (x : ℕ). HaveWidths m types (c ∷ cs) x s) (sym sum)
        (child c cs e a b s found h (SumsTo-HaveWidths cs b s later))

  -- What the width is for each form of an expression with the type `ty`.
  abbrev pub FormWidth : ℕ → ExprForm → ℕ → ℕ → Type 0
  FormWidth ty (symbol_expr x) w s = route_type_width m types ty ≡ some (w, s)
  FormWidth ty other_expr w s = route_type_width m types ty ≡ some (w, s)
  FormWidth ty (concatenation_expr first count) w s =
      SumsOf ChildWidth (pigen_expr_children m first count) w s

  pub HasWidth-FormWidth :
      {e : SemanticExpr} {w s : ℕ} → HasWidth m types e w s → FormWidth e.data_type e.form w s
  HasWidth-FormWidth (by_symbol e x w s q h) = rw q h
  HasWidth-FormWidth (by_type e w s q h) = rw q h
  HasWidth-FormWidth (by_children e first count c cs w s q listed few h) =
      rw (q, listed) (few, HaveWidths-SumsTo h)

  pub FormWidth-HasWidth :
      (e : SemanticExpr) (form : ExprForm) (w s : ℕ)
      → e.form ≡ form
      → FormWidth e.data_type form w s
      → HasWidth m types e w s
  FormWidth-HasWidth e (symbol_expr x) w s q h = by_symbol e x w s q h
  FormWidth-HasWidth e other_expr w s q h = by_type e w s q h
  FormWidth-HasWidth e (concatenation_expr first count) w s q h =
      sum (pigen_expr_children m first count) refl h
    where
      sum :
          (cs : Option (List ℕ))
          → pigen_expr_children m first count ≡ cs
          → SumsOf ChildWidth cs w s
          → HasWidth m types e w s
      sum none listed h = absurd h
      sum (some []) listed h = absurd h
      sum (some (c ∷ cs)) listed (few, h) =
          by_children e first count c cs w s q listed few (SumsTo-HaveWidths (c ∷ cs) w s h)

  module _ (words : HasWords types) where
    with_sign-some :
        (sign : ℕ) (width : Option ℕ) (w s : ℕ)
        → with_sign sign width ≡ some (w, s)
        → width ≡ some w
    with_sign-some sign none w s e = cc
    with_sign-some sign (some width) w s e = cc

    sized_width-lt : (ty w : ℕ) → sized_width m types ty ≡ some w → w < 2 ^ 64
    sized_width-lt ty w e = elim (Bool-cases (types.numerical_interpretation ty == 2)) [
      | inl exact ↦
          let same = exact_width (rw exact at e) in
          omega (arith, unsigned_width-le m.integers (types.exact_value ty), same)
      | inr packed ↦ words ty w (rw packed at e)
    ]
      where
        exact_width :
            some (pigen_integer_unsigned_width m.integers (types.exact_value ty)) ≡ some w
            → pigen_integer_unsigned_width m.integers (types.exact_value ty) ≡ w
        exact_width q = cc

    pub type_width-lt : (ty w s : ℕ) → route_type_width m types ty ≡ some (w, s) → w < 2 ^ 64
    unfolding route_type_width
    type_width-lt ty w s e =
        elim (Bool-cases (
          ltb (types.signedness ty) 1
          || ltb 3 (types.signedness ty)
          || (not (types.state_domain ty == 1) && not (types.state_domain ty == 2)))) [
            | inl bad ↦ absurd (none_apart (rw bad at e))
            | inr good ↦
                sized_width-lt ty w
                  (with_sign-some (types.signedness ty) (sized_width m types ty) w s (rw good at e))
          ]
      where
        none_apart : ◌≢◌ {A = Option (ℕ × ℕ)} none (some (w, s))
        none_apart q = cc

    pub HasWidth-lt : {e : SemanticExpr} {w s : ℕ} → HasWidth m types e w s → w < 2 ^ 64
    HasWidth-lt (by_symbol e x w s q h) = type_width-lt e.data_type w s h
    HasWidth-lt (by_type e w s q h) = type_width-lt e.data_type w s h
    HasWidth-lt (by_children e first count c cs w s q listed few h) = few
