-- ===== src/Route/Width/Dest.antt =====
-- src/route.c, `route_dest_width`: it finds the width of the destination.
use pigen.Common.{
  ℕ, ◌^◌, ◌<◌, ◌≡◌, ◌≢◌, refl, sym, subst, ◌∙◌, Option, none, some, List, [], ◌∷◌, All,
}
use pigen.Semantic.{
  SemanticModel, SemanticSignal, Lvalue, projection, concatenation, pigen_signal_get,
  pigen_lvalue_get, pigen_lvalue_children,
}
use pigen.Route.{DataTypes}
use pigen.Route.Width.{measured, route_type_width, signal_width, child_width, route_dest_width}
use pigen.Route.Width.Measured.{
  IsMeasured, IsMeasured-iff, measured-IsMeasured, refused-IsMeasured, SumsOf, AllOf,
  sum_children-IsMeasured,
}
use pigen.Route.Width.Relation.{HasWords, type_width-lt}

module _ (m : SemanticModel) (types : DataTypes) where
  -- The width of a signal is that of its type.
  abbrev HasSignalWidth : ℕ → ℕ → ℕ → Type 0
  HasSignalWidth s w sign =
      (signal : SemanticSignal) × (pigen_signal_get m s ≡ some signal)
      × (route_type_width m types signal.data_type ≡ some (w, sign))

  -- A child of a destination names a signal.
  abbrev HasChildWidth : ℕ → ℕ → ℕ → Type 0
  HasChildWidth c w sign =
      (s : ℕ) × (pigen_lvalue_get m c ≡ some (projection s)) × HasSignalWidth s w sign

  -- The width in bits and the sign of a destination: those of the signal that it names, or the sum
  -- and the common sign of its children.
  abbrev pub HasDestWidth : Lvalue → ℕ → ℕ → Type 0
  HasDestWidth (projection s) w sign = HasSignalWidth s w sign
  HasDestWidth (concatenation first count) w sign =
      SumsOf HasChildWidth (pigen_lvalue_children m first count) w sign

  signal_width-IsMeasured :
      (s : ℕ) (found : Option SemanticSignal)
      → pigen_signal_get m s ≡ found
      → IsMeasured (measured (signal_width m types found)) (HasSignalWidth s)
  signal_width-IsMeasured s none missing =
      refused-IsMeasured _ (λ w sign (signal, hit, h). absent signal (sym missing ∙ hit))
    where
      absent : (signal : SemanticSignal) → none ≢ some signal
      absent signal q = cc
  signal_width-IsMeasured s (some signal) hit =
      IsMeasured-iff _ (λ w sign. route_type_width m types signal.data_type ≡ some (w, sign))
        (HasSignalWidth s) (λ w sign h. (signal, hit, h))
        (λ w sign (other, found, h).
          subst (λ (x : SemanticSignal). route_type_width m types x.data_type ≡ some (w, sign))
            (same other (sym found ∙ hit)) h)
        (measured-IsMeasured (route_type_width m types signal.data_type))
    where
      same : (other : SemanticSignal) → some other ≡ some signal → other ≡ signal
      same other q = cc

  child_width-IsMeasured :
      (c : ℕ) (found : Option Lvalue)
      → pigen_lvalue_get m c ≡ found
      → IsMeasured (child_width m types found) (HasChildWidth c)
  child_width-IsMeasured c none missing =
      refused-IsMeasured _ (λ w sign (s, hit, h). absent s (sym missing ∙ hit))
    where
      absent : (s : ℕ) → none ≢ some (projection s)
      absent s q = cc
  child_width-IsMeasured c (some (concatenation first count)) found =
      refused-IsMeasured _ (λ w sign (s, hit, h). apart s (sym found ∙ hit))
    where
      apart : (s : ℕ) → some (concatenation first count) ≢ some (projection s)
      apart s q = cc
  child_width-IsMeasured c (some (projection s)) found =
      IsMeasured-iff _ (HasSignalWidth s) (HasChildWidth c) (λ w sign h. (s, found, h))
        (λ w sign (other, hit, h).
          subst (λ (x : ℕ). HasSignalWidth x w sign) (same other (sym hit ∙ found)) h)
        (signal_width-IsMeasured s (pigen_signal_get m s) refl)
    where
      same : (other : ℕ) → some (projection other) ≡ some (projection s) → other ≡ s
      same other q = cc

  HasChildWidth-lt : HasWords types → (c w sign : ℕ) → HasChildWidth c w sign → w < 2 ^ 64
  HasChildWidth-lt words c w sign (s, found, (signal, hit, h)) =
      type_width-lt m types words signal.data_type w sign h

  pub route_dest_width-IsMeasured :
      HasWords types
      → (dest : Lvalue) → IsMeasured (route_dest_width m types dest) (HasDestWidth dest)
  unfolding route_dest_width
  route_dest_width-IsMeasured words (projection s) =
      signal_width-IsMeasured s (pigen_signal_get m s) refl
  route_dest_width-IsMeasured words (concatenation first count) =
      sum_children-IsMeasured (λ (c : ℕ). child_width m types (pigen_lvalue_get m c)) HasChildWidth
        (HasChildWidth-lt words) (pigen_lvalue_children m first count)
        (all (pigen_lvalue_children m first count))
    where
      each :
          (cs : List ℕ)
          → All
              (λ (c : ℕ). IsMeasured (child_width m types (pigen_lvalue_get m c)) (HasChildWidth c))
              cs
      each [] = tt
      each (c ∷ cs) = (child_width-IsMeasured c (pigen_lvalue_get m c) refl, each cs)

      all :
          (cs : Option (List ℕ))
          → AllOf
              (λ (c : ℕ). IsMeasured (child_width m types (pigen_lvalue_get m c)) (HasChildWidth c))
              cs
      all none = tt
      all (some cs) = each cs
