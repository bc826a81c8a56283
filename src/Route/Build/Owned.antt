-- ===== src/Route/Build/Owned.antt =====
-- src/route.c, `route_vdo_laws`: what the laws of ownership ask of a transfer.
use pigen.Common.{
  ℕ, zero, suc, ◌≡◌, refl, subst, ◌⊎◌, inl, inr, Bool, true, false, ◌&&◌, not, Option, none, some,
  List, [], ◌∷◌, arith, ◌==◌, ==_iff, if◌then◌else◌, get_elem?, All, Bool-cases,
}
use pigen.TransferType.{TypeDescriptor}
use pigen.Semantic.{
  SemanticModel, Transfer, SignalUse, Lvalue, projection, concatenation, pigen_signal_get,
  pigen_lvalue_get, pigen_lvalue_children, pigen_transfer_signal_uses,
}
use pigen.Route.{is_consumer, is_producer, is_set}
use pigen.Route.Laws.{
  value_signal, is_signal, child_names, dest_names, owned_roles, use_law_of, descriptor_of,
  use_laws, has_consumer, owned_value, value_law, vdo_laws_of, route_vdo_laws,
}

-- The destination is the signal, or a concatenation with a child that is.
abbrev IsWritten : SemanticModel → Option Lvalue → ℕ → Type 0
IsWritten m none s = ⊥
IsWritten m (some (projection p)) s = p ≡ s
IsWritten m (some (concatenation first count)) s =
    (cs : List ℕ) × (i c : ℕ) × (pigen_lvalue_children m first count ≡ some cs)
    × (get_elem? cs i ≡ some c)
    × (pigen_lvalue_get m c ≡ some (projection s))

-- The type of the used signal is known. The use does not consume and produce at once, and where the
-- type requires ownership, it produces what the transfer writes and consumes what it reads.
pub record IsOwnedUse (m : SemanticModel) (tr : Transfer) (u : SignalUse) : Type 0 where
  descriptor : TypeDescriptor
  typed : descriptor_of (pigen_signal_get m u.signal) ≡ some descriptor
  one_role : ¬ ((is_producer u.roles ≡ true) × (is_consumer u.roles ≡ true))
  produces :
      is_set descriptor.requires_ownership ≡ true
      → IsWritten m (pigen_lvalue_get m tr.destination) u.signal
      → is_producer u.roles ≡ true
  consumes :
      is_set descriptor.requires_ownership ≡ true
      → value_signal m tr ≡ some u.signal
      → is_consumer u.roles ≡ true

-- A transfer with uses has an owned one for each signal, and one that consumes the signal that is its
-- value, where the type of that requires ownership.
pub record IsOwned (m : SemanticModel) (tr : Transfer) (us : List SignalUse) : Type 0 where
  owned : All (IsOwnedUse m tr) us
  value_consumed :
      (s : ℕ) (d : TypeDescriptor)
      → value_signal m tr ≡ some s
      → descriptor_of (pigen_signal_get m s) ≡ some d
      → is_set d.requires_ownership ≡ true
      → (i : ℕ) × (u : SignalUse) × (get_elem? us i ≡ some u)
        × (u.signal ≡ s)
        × (is_consumer u.roles ≡ true)

child_names-written :
    (m : SemanticModel) (cs : List ℕ) (i c s : ℕ)
    → get_elem? cs i ≡ some c
    → pigen_lvalue_get m c ≡ some (projection s)
    → child_names m cs s ≡ true
unfolding child_names
child_names-written m [] i c s g h = cc
child_names-written m (d ∷ cs) zero c s g h = let same : d ≡ c = cc in rw (same, h) (ground arith)
child_names-written m (d ∷ cs) (suc i) c s g h = ground (arith, child_names-written m cs i c s g h)

dest_names-written :
    (m : SemanticModel) (dest : Option Lvalue) (s : ℕ)
    → IsWritten m dest s
    → dest_names m dest s ≡ true
dest_names-written m none s h = absurd h
dest_names-written m (some (projection p)) s h = (==_iff p s).1 h
dest_names-written m (some (concatenation first count)) s (cs, i, c, listed, g, h) =
    rw listed (child_names-written m cs i c s g h)

is_signal-some : (s : ℕ) (v : Option ℕ) → v ≡ some s → is_signal s v ≡ true
is_signal-some s none e = cc
is_signal-some s (some v) e = ground arith

and_true : (a b : Bool) → (a && b) ≡ true → (a ≡ true) × (b ≡ true)
and_true true b h = (refl, h)
and_true false b h = cc

-- The guards of the laws, for any Booleans that they test.
role_guards :
    (is_dest is_src p c : Bool)
    → (if is_dest && not p then false else if is_src && not c then false else true) ≡ true
    → (is_dest ≡ true → p ≡ true) × (is_src ≡ true → c ≡ true)
role_guards is_dest is_src true true h = (λ q. refl, λ q. refl)
role_guards true true true false h = cc
role_guards false true true false h = cc
role_guards is_dest false true false h = (λ q. refl, λ q. cc)
role_guards true is_src false c h = cc
role_guards false is_src false true h = (λ q. cc, λ q. refl)
role_guards false true false false h = cc
role_guards false false false false h = (λ q. cc, λ q. cc)

use_guards :
    (p c owned roles : Bool)
    → (if p && c then false else if owned then roles else true) ≡ true
    → (¬ ((p ≡ true) × (c ≡ true))) × (owned ≡ true → roles ≡ true)
use_guards true true owned roles h = cc
use_guards true false true roles h = (λ (p, c). cc, λ q. h)
use_guards true false false roles h = (λ (p, c). cc, λ q. cc)
use_guards false c true roles h = (λ (p, d). cc, λ q. h)
use_guards false c false roles h = (λ (p, d). cc, λ q. cc)

has_consumer-found :
    (s : ℕ) (us : List SignalUse)
    → has_consumer s us ≡ true
    → (i : ℕ) × (u : SignalUse) × (get_elem? us i ≡ some u)
      × (u.signal ≡ s)
      × (is_consumer u.roles ≡ true)
unfolding has_consumer
has_consumer-found s [] h = cc
has_consumer-found s (u ∷ us) h = elim (Bool-cases (u.signal == s && is_consumer u.roles)) [
  | inl hit ↦ (0, u, refl, (==_iff u.signal s).0 (ground arith), ground arith)
  | inr miss ↦ let r = has_consumer-found s us (ground arith) in (suc r.0, r.1, r.2, r.3, r.4)
]

use_law-IsOwnedUse :
    (m : SemanticModel) (tr : Transfer) (u : SignalUse) (desc : Option TypeDescriptor)
    → descriptor_of (pigen_signal_get m u.signal) ≡ desc
    → use_law_of m tr u desc ≡ true
    → IsOwnedUse m tr u
use_law-IsOwnedUse m tr u none t h = cc
use_law-IsOwnedUse m tr u (some d) t h =
    let written = dest_names m (pigen_lvalue_get m tr.destination) u.signal in
    let read = is_signal u.signal (value_signal m tr) in
    let guards =
      use_guards (is_producer u.roles) (is_consumer u.roles) (is_set d.requires_ownership)
        (owned_roles written read u.roles) h in
    record {
      descriptor = d;
      typed = t;
      one_role = guards.0;
      produces = λ o w.
          (role_guards written read (is_producer u.roles) (is_consumer u.roles) (guards.1 o)).0
            (dest_names-written m (pigen_lvalue_get m tr.destination) u.signal w);
      consumes = λ o v.
          (role_guards written read (is_producer u.roles) (is_consumer u.roles) (guards.1 o)).1
            (is_signal-some u.signal (value_signal m tr) v);
    }

use_laws-IsOwnedUse :
    (m : SemanticModel) (tr : Transfer) (us : List SignalUse)
    → use_laws m tr us ≡ true
    → All (IsOwnedUse m tr) us
unfolding use_laws
use_laws-IsOwnedUse m tr [] h = tt
use_laws-IsOwnedUse m tr (u ∷ us) h =
    let both = and_true _ (use_laws m tr us) h in
    (
      use_law-IsOwnedUse m tr u (descriptor_of (pigen_signal_get m u.signal)) refl both.0,
      use_laws-IsOwnedUse m tr us both.1,
    )

value_law-consumed :
    (m : SemanticModel) (us : List SignalUse) (s : ℕ) (d : TypeDescriptor) (v : Option ℕ)
    → value_law m v us ≡ true
    → v ≡ some s
    → descriptor_of (pigen_signal_get m s) ≡ some d
    → is_set d.requires_ownership ≡ true
    → has_consumer s us ≡ true
value_law-consumed m us s d none h e t o = cc
value_law-consumed m us s d (some w) h e t o =
    let same : w ≡ s = cc in
    let law = subst (λ (x : ℕ). value_law m (some x) us ≡ true) same h in needed (rw t at law)
  where
    needed : owned_value (some d) s us ≡ true → has_consumer s us ≡ true
    needed l = rw o at l

vdo_laws-IsOwned :
    (m : SemanticModel) (tr : Transfer) (uses : Option (List SignalUse))
    → vdo_laws_of m tr uses ≡ true
    → (us : List SignalUse) × (uses ≡ some us) × IsOwned m tr us
vdo_laws-IsOwned m tr none h = cc
vdo_laws-IsOwned m tr (some us) h =
    let both = and_true (use_laws m tr us) (value_law m (value_signal m tr) us) h in
    (
      us,
      refl,
      record {
        owned = use_laws-IsOwnedUse m tr us both.0;
        value_consumed = λ s d e t o.
            has_consumer-found s us (value_law-consumed m us s d (value_signal m tr) both.1 e t o);
      },
    )

-- A transfer that passes the laws has no uses, or its uses are owned.
pub route_vdo_laws-IsOwned :
    (m : SemanticModel) (tr : Transfer) (x : ℕ)
    → route_vdo_laws m tr x ≡ true
    → (tr.signal_use_count ≡ 0)
      ⊎ ((us : List SignalUse) × (pigen_transfer_signal_uses m x ≡ some us) × IsOwned m tr us)
unfolding route_vdo_laws
route_vdo_laws-IsOwned m tr x h = elim (Bool-cases (tr.signal_use_count == 0)) [
  | inl empty ↦ inl ((==_iff tr.signal_use_count 0).0 empty)
  | inr more ↦ inr (vdo_laws-IsOwned m tr (pigen_transfer_signal_uses m x) (rw more at h))
]
