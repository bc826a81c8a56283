-- ===== src/TransferType/Laws.antt =====
-- src/transfer_type.c: the laws of the catalogue.
use pigen.Common.{
  ℕ, zero, suc, ◌+◌, ◌<◌, ◌≤◌, ◌≡◌, ◌≢◌, refl, subst, ap, ◌⊎◌, inl, inr, ◌↔◌, true, ◌&&◌, Option,
  none, some, List, [], ◌∷◌, arith, ltb, get_elem?, Bool-cases,
}
use pigen.TransferType.{
  depth, capacity_none, capacity_argument, ready_constant, ready_downstream, ready_occupancy,
  RealizationDescriptor, TypeDescriptor, raised, contextual, transfer_types,
  pigen_transfer_realization_descriptor_get, pigen_transfer_type_is_valid,
  pigen_transfer_type_descriptor_get, bytes_same, is_spelled, spelling_loop,
  pigen_transfer_type_from_spelling,
}

-- Each number below 8 is a transfer type, and each from 1 to 7 a realization.
transfer_type_valid-lt : (ty : ℕ) → pigen_transfer_type_is_valid ty ≡ ltb ty 8
unfolding pigen_transfer_type_is_valid
transfer_type_valid-lt zero = refl
transfer_type_valid-lt (suc zero) = refl
transfer_type_valid-lt (suc (suc zero)) = refl
transfer_type_valid-lt (suc (suc (suc zero))) = refl
transfer_type_valid-lt (suc (suc (suc (suc zero)))) = refl
transfer_type_valid-lt (suc (suc (suc (suc (suc zero))))) = refl
transfer_type_valid-lt (suc (suc (suc (suc (suc (suc zero)))))) = refl
transfer_type_valid-lt (suc (suc (suc (suc (suc (suc (suc zero))))))) = refl
transfer_type_valid-lt (suc (suc (suc (suc (suc (suc (suc (suc ty)))))))) = ground arith

abbrev known_or : {A : Type 0} → A → Option A → A
known_or a none = a
known_or a (some b) = b

some_injective : {A : Type 0} (a b : A) → some a ≡ some b → a ≡ b
some_injective a b e = ap (known_or a) e

pub bytes_same_iff : (xs ys : List ℕ) → (bytes_same xs ys ≡ true) ↔ (xs ≡ ys)
bytes_same_iff [] [] = ground arith
bytes_same_iff [] (y ∷ ys) = ground arith
bytes_same_iff (x ∷ xs) [] = ground arith
bytes_same_iff (x ∷ xs) (y ∷ ys) = ground (arith, bytes_same_iff xs ys)

spelled :
    (known : Option (List ℕ)) (text : List ℕ) → is_spelled known text ≡ true → known ≡ some text
spelled none text e = cc
spelled (some known) text e = ap some ((bytes_same_iff known text).0 e)

spelling_loop-found :
    (rows : List TypeDescriptor) (i : ℕ) (text : List ℕ) (ty : ℕ)
    → spelling_loop rows i text ≡ some ty
    → (j : ℕ) × (d : TypeDescriptor) × (ty ≡ i + j)
      × (get_elem? rows j ≡ some d)
      × (d.spelling ≡ some text)
      × (pigen_transfer_type_is_valid ty ≡ true)
unfolding spelling_loop
spelling_loop-found [] i text ty e = cc
spelling_loop-found (d ∷ rows) i text ty e =
    elim (Bool-cases (pigen_transfer_type_is_valid i && is_spelled d.spelling text)) [
      | inl hit ↦ here (rw hit at e) hit
      | inr miss ↦
          let r = spelling_loop-found rows (suc i) text ty (rw miss at e) in
          (suc r.0, r.1, omega (arith, r.2), r.3, r.4, r.5)
    ]
  where
    here :
        some i ≡ some ty
        → (pigen_transfer_type_is_valid i && is_spelled d.spelling text) ≡ true
        → (j : ℕ) × (k : TypeDescriptor) × (ty ≡ i + j)
          × (get_elem? (d ∷ rows) j ≡ some k)
          × (k.spelling ≡ some text)
          × (pigen_transfer_type_is_valid ty ≡ true)
    here p hit =
        let same : i ≡ ty = ground arith in
        (
          0,
          d,
          omega arith,
          refl,
          spelled d.spelling text (ground arith),
          rw (← same) (ground arith),
        )

-- The spelling of a transfer type, where it has one.
abbrev pub spelling_of : ℕ → Option (List ℕ)
spelling_of ty = elim (pigen_transfer_type_descriptor_get ty) [ none ↦ none | some d ↦ d.spelling ]

found_spelling :
    (text : List ℕ) (ty : ℕ)
    → pigen_transfer_type_from_spelling text ≡ some ty
    → spelling_of ty ≡ some text
unfolding pigen_transfer_type_from_spelling pigen_transfer_type_descriptor_get
found_spelling text ty e =
    let r = spelling_loop-found transfer_types 0 text ty e in
    let same : ty ≡ r.0 = omega (arith, r.2) in rw (r.5) (rw same (rw r.3 r.4))

respell :
    (ty : ℕ) (known text : List ℕ)
    → some known ≡ some text
    → pigen_transfer_type_from_spelling known ≡ some ty
    → pigen_transfer_type_from_spelling text ≡ some ty
respell ty known text e h =
    subst (λ (s : List ℕ). pigen_transfer_type_from_spelling s ≡ some ty)
      (some_injective known text e) h

known_spelling :
    (ty : ℕ) (text : List ℕ)
    → spelling_of ty ≡ some text
    → pigen_transfer_type_from_spelling text ≡ some ty
unfolding pigen_transfer_type_from_spelling pigen_transfer_type_descriptor_get
known_spelling zero text e = cc
known_spelling (suc zero) text e = respell 1 _ text e refl
known_spelling (suc (suc zero)) text e = respell 2 _ text e refl
known_spelling (suc (suc (suc zero))) text e = respell 3 _ text e refl
known_spelling (suc (suc (suc (suc zero)))) text e = respell 4 _ text e refl
known_spelling (suc (suc (suc (suc (suc zero))))) text e = respell 5 _ text e refl
known_spelling (suc (suc (suc (suc (suc (suc zero)))))) text e = respell 6 _ text e refl
known_spelling (suc (suc (suc (suc (suc (suc (suc zero))))))) text e = respell 7 _ text e refl
known_spelling (suc (suc (suc (suc (suc (suc (suc (suc ty)))))))) text e = cc

-- A text names a transfer type exactly when the type has that text as its spelling.
pub from_spelling_iff :
    (text : List ℕ) (ty : ℕ)
    → (pigen_transfer_type_from_spelling text ≡ some ty) ↔ (spelling_of ty ≡ some text)
from_spelling_iff text ty = (found_spelling text ty, known_spelling ty text)

-- What a type's row says of its realization's row.
pub record IsCoherent (d : TypeDescriptor) (r : RealizationDescriptor) : Type 0 where
  constant_ready : (d.ready_constant ≢ contextual) ↔ (r.ready_dependency ≡ ready_constant)
  occupied :
      (r.has_occupancy ≡ true)
      ↔ ((r.ready_dependency ≡ ready_downstream) ⊎ (r.ready_dependency ≡ ready_occupancy))
  depth_argument : (d.parameter ≡ depth) ↔ (r.capacity_source ≡ capacity_argument)
  static_no_capacity :
      (d.is_static ≡ true) ↔ ((d.is_concrete ≡ true) × (r.capacity_source ≡ capacity_none))
  owned_consumes : d.requires_ownership ≡ d.consumes_on_read
  owned_binds : d.requires_ownership ≡ d.binds_domain
  static_valid : d.is_static ≡ true → d.valid_constant ≡ raised

abbrev pub HasCoherentRow : TypeDescriptor → Type 0
HasCoherentRow d =
    (r : RealizationDescriptor) × (pigen_transfer_realization_descriptor_get d.realization ≡ some r)
    × IsCoherent d r

-- Each number below 8, and no other, is a transfer type with a row; its realization has a row too,
-- and the two rows agree in the ways of IsCoherent.
pub catalogue-IsCoherent :
    (ty : ℕ)
    → ((ty < 8)
        × (d : TypeDescriptor) × (pigen_transfer_type_descriptor_get ty ≡ some d)
        × HasCoherentRow d)
      ⊎ ((8 ≤ ty) × (pigen_transfer_type_descriptor_get ty ≡ none))
unfolding pigen_transfer_type_descriptor_get pigen_transfer_realization_descriptor_get
catalogue-IsCoherent zero = inl (omega arith, _, refl, (_, refl, ground arith))
catalogue-IsCoherent (suc zero) = inl (omega arith, _, refl, (_, refl, ground arith))
catalogue-IsCoherent (suc (suc zero)) = inl (omega arith, _, refl, (_, refl, ground arith))
catalogue-IsCoherent (suc (suc (suc zero))) = inl (omega arith, _, refl, (_, refl, ground arith))
catalogue-IsCoherent (suc (suc (suc (suc zero)))) =
    inl (omega arith, _, refl, (_, refl, ground arith))
catalogue-IsCoherent (suc (suc (suc (suc (suc zero))))) =
    inl (omega arith, _, refl, (_, refl, ground arith))
catalogue-IsCoherent (suc (suc (suc (suc (suc (suc zero)))))) =
    inl (omega arith, _, refl, (_, refl, ground arith))
catalogue-IsCoherent (suc (suc (suc (suc (suc (suc (suc zero))))))) =
    inl (omega arith, _, refl, (_, refl, ground arith))
catalogue-IsCoherent (suc (suc (suc (suc (suc (suc (suc (suc ty)))))))) = inr (omega arith, refl)
