-- ===== src/Route/Domain/Sound.antt =====
-- src/route.c, `route_domain_multi_edge`: what the sweep of the clock edges finds.
use pigen.Common.{
  ℕ, zero, suc, ◌≡◌, ◌≢◌, refl, sym, subst, ◌∙◌, Bool, true, false, ◌||◌, not, Option, none, some,
  List, [], ◌∷◌, ◌==◌, get_elem?, Bool-cases, Option-cases, ◌⊎◌, inl, inr,
}
use pigen.Semantic.{
  SemanticSignal, SemanticModel, Edge, Transfer, SignalUse, pigen_signal_get,
  pigen_clock_domain_get, pigen_transfer_get, pigen_transfer_signal_uses,
}
use pigen.Route.{is_consumer, is_producer}
use pigen.Route.Laws.{descriptor_of}
use pigen.Route.Domain.{
  DomainBinding, bound_edge, bind_edge, binds, sweep_use, sweep_uses, sweep_transfer,
  sweep_transfers, route_domain_multi_edge,
}
use pigen.Route.Domain.Bindings.{IsSwept, IsSwept-at, IsSwept-then, bind_edge-lem}

-- A use on the clock edge `e` that binds its signal: as a consumer or a producer, where the signal's
-- transfer type binds a domain.
pub record IsBound (m : SemanticModel) (domain : Option Edge) (u : SignalUse) (e : Edge)
    : Type 0 where
  pub signal : SemanticSignal
  pub known : pigen_signal_get m u.signal ≡ some signal
  pub binding : binds (descriptor_of (some signal)) ≡ true
  pub role : (is_consumer u.roles || is_producer u.roles) ≡ true
  pub on : domain ≡ some e

-- The transfer `x` has such a use of the signal `s` on the edge of its clock domain.
pub record IsUsedOn (m : SemanticModel) (x s : ℕ) (e : Edge) : Type 0 where
  pub transfer : Transfer
  pub uses : List SignalUse
  pub at : ℕ
  pub use_ : SignalUse
  pub found : pigen_transfer_get m x ≡ some transfer
  pub listed : pigen_transfer_signal_uses m x ≡ some uses
  pub used : get_elem? uses at ≡ some use_
  pub names : use_.signal ≡ s
  pub bound : IsBound m (pigen_clock_domain_get m transfer.domain) use_ e

-- All the transfers that use a signal so do it on one edge.
abbrev pub IsOneEdge : SemanticModel → List ℕ → Type 0
IsOneEdge m xs =
    (i j x y s : ℕ) (e f : Edge)
    → get_elem? xs i ≡ some x
    → get_elem? xs j ≡ some y
    → IsUsedOn m x s e
    → IsUsedOn m y s f
    → e ≡ f

module _ (m : SemanticModel) where
  abbrev UseOn : Option Edge → SignalUse → ℕ → Edge → Type 0
  UseOn domain u s e = (u.signal ≡ s) × IsBound m domain u e

  sweep_use-IsSwept :
      (domain : Option Edge) (u : SignalUse) (sig : Option SemanticSignal) (bs : List DomainBinding)
      (ok : Bool) (r : List DomainBinding × Bool)
      → pigen_signal_get m u.signal ≡ sig
      → sweep_use m domain u sig bs ok ≡ some r
      → r.1 ≡ true
      → IsSwept bs ok (UseOn domain u) r.0
  sweep_use-IsSwept domain u none bs ok r k q h = cc
  sweep_use-IsSwept none u (some sig) bs ok r k q h = cc
  sweep_use-IsSwept (some e) u (some sig) bs ok r k q h =
      elim (Bool-cases (
        not (binds (descriptor_of (some sig)))
        || not (is_consumer u.roles || is_producer u.roles))) [
          | inl skip ↦
              IsSwept-at bs ok _ (bs, ok) r (rw skip at q) h
                (λ g. record {
                  good = g;
                  keeps = λ s f b. b;
                  passed = λ s f (n, b). absurd (not_skipped f b skip);
                })
          | inr use_it ↦
              IsSwept-at bs ok _ (bind_edge bs ok u.signal e (bound_edge bs u.signal)) r
                (rw use_it at q) h
                (λ g.
                  let b = bind_edge-lem bs ok u.signal e (bound_edge bs u.signal) refl g in
                  record {
                    good = b.0;
                    keeps = b.1;
                    passed = λ s f (n, u_on).
                        subst
                          (λ (x : ℕ).
                            bound_edge (bind_edge bs ok u.signal e (bound_edge bs u.signal)).0 x
                            ≡ some f)
                          n (b.2 ∙ u_on.on);
                  })
        ]
    where
      not_skipped :
          (f : Edge)
          → IsBound m (some e) u f
          → (not (binds (descriptor_of (some sig)))
              || not (is_consumer u.roles || is_producer u.roles))
            ≢ true
      not_skipped f b skip =
          let bound : binds (descriptor_of (some sig)) ≡ true =
            subst (λ (o : Option SemanticSignal). binds (descriptor_of o) ≡ true) (sym b.known ∙ k)
              b.binding in
          cc (bound, b.role, skip)

  abbrev SomeUseOn : Option Edge → List SignalUse → ℕ → Edge → Type 0
  SomeUseOn domain us s e =
      (at : ℕ) × (u : SignalUse) × (get_elem? us at ≡ some u) × UseOn domain u s e

  split_uses :
      (domain : Option Edge) (u : SignalUse) (us : List SignalUse) (s : ℕ) (e : Edge)
      → SomeUseOn domain (u ∷ us) s e
      → UseOn domain u s e ⊎ SomeUseOn domain us s e
  split_uses domain u us s e (zero, v, found, h) = inl (subst (λ x. UseOn domain x s e) same h)
    where
      same : v ≡ u
      same = cc
  split_uses domain u us s e (suc at, v, found, h) = inr (at, v, found, h)

  sweep_uses-IsSwept :
      (domain : Option Edge) (us : List SignalUse) (bs : List DomainBinding) (ok : Bool)
      (r : List DomainBinding × Bool)
      → sweep_uses m domain us bs ok ≡ some r
      → r.1 ≡ true
      → IsSwept bs ok (SomeUseOn domain us) r.0
  unfolding sweep_uses
  sweep_uses-IsSwept domain [] bs ok r q h =
      IsSwept-at bs ok _ (bs, ok) r q h
        (λ g. record { good = g; keeps = λ s e b. b; passed = λ s e (at, u, found, k). cc })
  sweep_uses-IsSwept domain (u ∷ us) bs ok r q h =
      elim (Option-cases (sweep_use m domain u (pigen_signal_get m u.signal) bs ok)) [
        | inl stop ↦ absurd (stopped (rw (stop, sweep_uses) at q))
        | inr (mid, go) ↦
            let later = sweep_uses-IsSwept domain us mid.0 mid.1 r (rw (go, sweep_uses) at q) h in
            IsSwept-then (SomeUseOn domain (u ∷ us))
              (sweep_use-IsSwept domain u (pigen_signal_get m u.signal) bs ok mid refl go
                later.good)
              later (split_uses domain u us)
      ]
    where
      stopped : none ≢ some r
      stopped e = cc

  sweep_transfer-IsSwept :
      (x : ℕ) (tr : Option Transfer) (uses : Option (List SignalUse)) (bs : List DomainBinding)
      (ok : Bool) (r : List DomainBinding × Bool)
      → pigen_transfer_get m x ≡ tr
      → pigen_transfer_signal_uses m x ≡ uses
      → sweep_transfer m tr uses bs ok ≡ some r
      → r.1 ≡ true
      → IsSwept bs ok (IsUsedOn m x) r.0
  sweep_transfer-IsSwept x none uses bs ok r t u q h = cc
  sweep_transfer-IsSwept x (some tr) none bs ok r t u q h =
      elim (Bool-cases (tr.signal_use_count == 0)) [
        | inl empty ↦
            IsSwept-at bs ok _ (bs, ok) r (rw empty at q) h
              (λ g. record {
                good = g;
                keeps = λ s e b. b;
                passed = λ s e p. absurd (unlisted p.uses (sym u ∙ p.listed));
              })
        | inr more ↦ absurd (stopped (rw more at q))
      ]
    where
      stopped : ◌≢◌ {A = Option (List DomainBinding × Bool)} none (some r)
      stopped e = cc

      unlisted : (us : List SignalUse) → none ≢ some us
      unlisted us e = cc
  sweep_transfer-IsSwept x (some tr) (some us) bs ok r t u q h =
      let all = sweep_uses-IsSwept (pigen_clock_domain_get m tr.domain) us bs ok r q h in
      record { good = all.good; keeps = all.keeps; passed = λ s e p. all.passed s e (use_of s e p) }
    where
      same_transfer : (k : Transfer) → some k ≡ some tr → k ≡ tr
      same_transfer k e = cc

      same_uses : (k : List SignalUse) → some k ≡ some us → k ≡ us
      same_uses k e = cc

      use_of :
          (s : ℕ) (e : Edge)
          → IsUsedOn m x s e
          → SomeUseOn (pigen_clock_domain_get m tr.domain) us s e
      use_of s e p = (
        p.at,
        p.use_,
        subst (λ (l : List SignalUse). get_elem? l p.at ≡ some p.use_)
            (same_uses p.uses (sym p.listed ∙ u)) p.used,
        (
          p.names,
          subst (λ (k : Transfer). IsBound m (pigen_clock_domain_get m k.domain) p.use_ e)
              (same_transfer p.transfer (sym p.found ∙ t)) p.bound,
        ),
      )

  sweep_transfers-bound :
      (xs : List ℕ) (bs : List DomainBinding) (ok : Bool)
      → sweep_transfers m xs bs ok ≡ true
      → (cs : List DomainBinding) × IsSwept bs ok
          (λ s e. (i : ℕ) × (x : ℕ) × (get_elem? xs i ≡ some x) × IsUsedOn m x s e)
          cs
  unfolding sweep_transfers
  sweep_transfers-bound [] bs ok h =
      (bs, record { good = h; keeps = λ s e b. b; passed = λ s e (i, x, found, p). cc })
  sweep_transfers-bound (x ∷ xs) bs ok h =
      elim (Option-cases
        (sweep_transfer m (pigen_transfer_get m x) (pigen_transfer_signal_uses m x) bs ok)) [
          | inl stop ↦ absurd (stopped (rw (stop, sweep_transfers) at h))
          | inr (mid, go) ↦
              let (cs, later) =
                sweep_transfers-bound xs mid.0 mid.1 (rw (go, sweep_transfers) at h) in
              (
                cs,
                IsSwept-then
                    (λ s e. (i : ℕ) × (y : ℕ) × (get_elem? (x ∷ xs) i ≡ some y) × IsUsedOn m y s e)
                    (sweep_transfer-IsSwept x (pigen_transfer_get m x)
                      (pigen_transfer_signal_uses m x) bs ok mid refl refl go later.good)
                    later split,
              )
        ]
    where
      stopped : false ≢ true
      stopped e = cc

      split :
          (s : ℕ) (e : Edge)
          → (i : ℕ) × (y : ℕ) × (get_elem? (x ∷ xs) i ≡ some y) × IsUsedOn m y s e
          → IsUsedOn m x s e ⊎ ((i : ℕ) × (y : ℕ) × (get_elem? xs i ≡ some y) × IsUsedOn m y s e)
      split s e (zero, y, found, p) = inl (subst (λ (z : ℕ). IsUsedOn m z s e) same p)
        where
          same : y ≡ x
          same = cc
      split s e (suc i, y, found, p) = inr (i, y, found, p)

-- Where the sweep accepts the transfers, each signal is used on one edge.
pub route_domain_multi_edge-IsOneEdge :
    (m : SemanticModel) (xs : List ℕ) → route_domain_multi_edge m xs ≡ true → IsOneEdge m xs
unfolding route_domain_multi_edge
route_domain_multi_edge-IsOneEdge m xs h i j x y s e f at_i at_j p q =
    let (cs, swept) = sweep_transfers-bound m xs [] true h in
    let same = sym (swept.passed s e (i, x, at_i, p)) ∙ swept.passed s f (j, y, at_j, q) in
    known e f same
  where
    known : (a b : Edge) → some a ≡ some b → a ≡ b
    known a b e = cc
