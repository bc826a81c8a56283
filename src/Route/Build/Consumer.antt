-- ===== src/Route/Build/Consumer.antt =====
-- src/route.c, `route_downstream_consumer`: what it finds.
use pigen.Common.{
  ℕ, zero, suc, ◌≡◌, ◌≢◌, refl, sym, ap, ◌∙◌, ◌⊎◌, inl, inr, true, false, Option, none, some, List,
  [], ◌∷◌, arith, get_elem?, Bool-cases, Option-cases,
}
use pigen.Integer.{invalid_id}
use pigen.Semantic.{
  SemanticModel, pigen_transfer_get, pigen_module_processes, pigen_process_transfers,
}
use pigen.Route.Build.{
  consumes, find_consumer, consumer_among, or_else, find_process_consumer, consumer_of,
  route_downstream_consumer,
}

-- The transfer `x` is one of the processes `ps`, and its value is the signal `s`.
pub record IsConsumer (m : SemanticModel) (ps : List ℕ) (s x : ℕ) : Type 0 where
  process_index : ℕ
  pub process : ℕ
  pub listed : get_elem? ps process_index ≡ some process
  pub transfers : List ℕ
  pub owned : pigen_process_transfers m process ≡ some transfers
  transfer_index : ℕ
  pub found : get_elem? transfers transfer_index ≡ some x
  pub reads : consumes m (pigen_transfer_get m x) s ≡ true

find_consumer-found :
    (m : SemanticModel) (xs : List ℕ) (s x : ℕ)
    → find_consumer m xs s ≡ some x
    → (i : ℕ) × (get_elem? xs i ≡ some x) × (consumes m (pigen_transfer_get m x) s ≡ true)
unfolding find_consumer
find_consumer-found m [] s x e = cc
find_consumer-found m (y ∷ xs) s x e = elim (Bool-cases (consumes m (pigen_transfer_get m y) s)) [
  | inl hit ↦
      let same : some y ≡ some x = rw hit at e in
      let eq : y ≡ x = ground arith in (0, same, rw (← eq) hit)
  | inr miss ↦ let r = find_consumer-found m xs s x (rw miss at e) in (suc r.0, r.1, r.2)
]

find_consumer-missing :
    (m : SemanticModel) (xs : List ℕ) (s i x : ℕ)
    → find_consumer m xs s ≡ none
    → get_elem? xs i ≡ some x
    → consumes m (pigen_transfer_get m x) s ≡ false
unfolding find_consumer
find_consumer-missing m [] s i x e g = cc
find_consumer-missing m (y ∷ xs) s zero x e g =
    elim (Bool-cases (consumes m (pigen_transfer_get m y) s)) [
      | inl hit ↦ absurd (taken y (rw hit at e))
      | inr miss ↦ rw (← same) miss
    ]
  where
    same : y ≡ x
    same = ground arith

    taken : (z : ℕ) → some z ≢ none
    taken z q = cc
find_consumer-missing m (y ∷ xs) s (suc i) x e g = find_consumer-missing m xs s i x (ground arith) g

find_process_consumer-found :
    (m : SemanticModel) (ps : List ℕ) (s x : ℕ)
    → find_process_consumer m ps s ≡ some x
    → IsConsumer m ps s x
unfolding find_process_consumer
find_process_consumer-found m [] s x e = cc
find_process_consumer-found m (p ∷ ps) s x e = elim (Option-cases (pigen_process_transfers m p)) [
  | inl empty ↦ later (find_process_consumer-found m ps s x (rw empty at e))
  | inr (xs, owned) ↦ elim (Option-cases (find_consumer m xs s)) [
    | inl missing ↦ later (find_process_consumer-found m ps s x (rw missing at (rw owned at e)))
    | inr (y, hit) ↦
        let same : some y ≡ some x = rw hit at (rw owned at e) in
        let r = find_consumer-found m xs s x (hit ∙ same) in
        record {
          process_index = 0;
          process = p;
          listed = refl;
          transfers = xs;
          owned = owned;
          transfer_index = r.0;
          found = r.1;
          reads = r.2;
        }
  ]
]
  where
    later : IsConsumer m ps s x → IsConsumer m (p ∷ ps) s x
    later c = record {
      process_index = suc c.process_index;
      process = c.process;
      listed = c.listed;
      transfers = c.transfers;
      owned = c.owned;
      transfer_index = c.transfer_index;
      found = c.found;
      reads = c.reads;
    }

or_else-none : (a b : Option ℕ) → or_else a b ≡ none → (a ≡ none) × (b ≡ none)
or_else-none none b e = (refl, e)
or_else-none (some x) b e = cc

consumer_among-missing :
    (m : SemanticModel) (xs : Option (List ℕ)) (ys : List ℕ) (s i x : ℕ)
    → consumer_among m xs s ≡ none
    → xs ≡ some ys
    → get_elem? ys i ≡ some x
    → consumes m (pigen_transfer_get m x) s ≡ false
consumer_among-missing m xs ys s i x e q g = find_consumer-missing m ys s i x (rw q at e) g

find_process_consumer-missing :
    (m : SemanticModel) (ps : List ℕ) (s i p : ℕ)
    → find_process_consumer m ps s ≡ none
    → get_elem? ps i ≡ some p
    → consumer_among m (pigen_process_transfers m p) s ≡ none
unfolding find_process_consumer
find_process_consumer-missing m [] s i p e g = cc
find_process_consumer-missing m (q ∷ ps) s zero p e g =
    rw (← same)
      (or_else-none (consumer_among m (pigen_process_transfers m q) s)
        (find_process_consumer m ps s) e).0
  where
    same : q ≡ p
    same = ground arith
find_process_consumer-missing m (q ∷ ps) s (suc i) p e g =
    find_process_consumer-missing m ps s i p
      (or_else-none (consumer_among m (pigen_process_transfers m q) s)
        (find_process_consumer m ps s) e).1
      g

no-IsConsumer :
    (m : SemanticModel) (ps : List ℕ) (s x : ℕ)
    → find_process_consumer m ps s ≡ none
    → ¬ IsConsumer m ps s x
no-IsConsumer m ps s x e c =
    let missed : consumes m (pigen_transfer_get m x) s ≡ false =
      consumer_among-missing m (pigen_process_transfers m c.process) c.transfers s c.transfer_index
        x (find_process_consumer-missing m ps s c.process_index c.process e c.listed) c.owned
        c.found in
    let reads = c.reads in ground arith

-- Where a module has processes, route_downstream_consumer gives a transfer of one of them whose
-- value is the signal, or the invalid id where no transfer of them has that value.
pub route_downstream_consumer-IsConsumer :
    (m : SemanticModel) (id : ℕ) (ps : List ℕ) (s x : ℕ)
    → pigen_module_processes m id ≡ some ps
    → route_downstream_consumer m id s ≡ x
    → IsConsumer m ps s x ⊎ ((x ≡ invalid_id) × ((y : ℕ) → ¬ IsConsumer m ps s y))
unfolding route_downstream_consumer
route_downstream_consumer-IsConsumer m id ps s x l e =
    elim (Option-cases (find_process_consumer m ps s)) [
      | inl missing ↦
          inr
            (sym (rw (missing, consumer_of) at (rw l at e)), (λ y. no-IsConsumer m ps s y missing))
      | inr (y, hit) ↦
          let same : y ≡ x = rw (hit, consumer_of) at (rw l at e) in
          inl (find_process_consumer-found m ps s x (hit ∙ ap some same))
    ]
