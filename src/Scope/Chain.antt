-- ===== src/Scope/Chain.antt =====
-- src/semantic.c, `lookup_local`: the chain of a scope's symbols, from the latest on.
use pigen.Common.{
  ℕ, zero, suc, ◌≤◌, ◌<◌, ◌≡◌, ◌≢◌, refl, sym, ap, subst, ◌∙◌, ◌⊎◌, inl, inr, true, false, some,
  arith, ltb, ◌==◌, ==_iff, length, get_elem?, get_elem?-inside, Bool-cases,
}
use pigen.Integer.{invalid_id}
use pigen.Source.{SourceSpan}
use pigen.Scope.{Scope, Symbol, SymbolTable, same_name, local_loop, lookup_local}

-- The latest symbol of the scope before `bound`, or the invalid id where it has none.
abbrev pub IsLatest : SymbolTable → ℕ → ℕ → ℕ → Type 0
IsLatest t scope bound r =
    ((r ≡ invalid_id)
      × ((k : ℕ) (y : Symbol) → k < bound → get_elem? t.symbols k ≡ some y → y.scope ≢ scope))
    ⊎ ((y : Symbol) × (get_elem? t.symbols r ≡ some y)
        × (y.scope ≡ scope)
        × (r < bound)
        × ((k : ℕ) (z : Symbol)
            → r < k
            → k < bound
            → get_elem? t.symbols k ≡ some z
            → z.scope ≢ scope))

-- A table in order: a scope is behind its parent, its symbols are chained, and no two of them have
-- one name.
pub record IsTable (t : SymbolTable) : Type 0 where
  pub scopes_countable : length t.scopes ≤ invalid_id
  pub symbols_countable : length t.symbols ≤ invalid_id
  pub parents :
      (i : ℕ) (s : Scope) → get_elem? t.scopes i ≡ some s → (s.parent ≡ invalid_id) ⊎ (s.parent < i)
  pub lasts :
      (i : ℕ) (s : Scope)
      → get_elem? t.scopes i ≡ some s
      → IsLatest t i (length t.symbols) s.last_symbol
  pub chained :
      (i : ℕ) (y : Symbol)
      → get_elem? t.symbols i ≡ some y
      → IsLatest t y.scope i y.previous_in_scope
  pub owned : (i : ℕ) (y : Symbol) → get_elem? t.symbols i ≡ some y → y.scope < length t.scopes
  pub different :
      (i j : ℕ) (y z : Symbol)
      → get_elem? t.symbols i ≡ some y
      → get_elem? t.symbols j ≡ some z
      → y.scope ≡ z.scope
      → i < j
      → same_name t y.name z.name ≡ false

-- The symbol of the scope with that name, or the invalid id where there is none before `bound`.
abbrev IsLocal : SymbolTable → ℕ → ℕ → SourceSpan → ℕ → Type 0
IsLocal t scope bound name r =
    ((r ≡ invalid_id)
      × ((k : ℕ) (y : Symbol)
          → k < bound
          → get_elem? t.symbols k ≡ some y
          → y.scope ≡ scope
          → same_name t y.name name ≡ false))
    ⊎ ((y : Symbol) × (get_elem? t.symbols r ≡ some y)
        × (y.scope ≡ scope)
        × (same_name t y.name name ≡ true))

IsLocal-extend :
    (t : SymbolTable) (scope bound at : ℕ) (name : SourceSpan) (y : Symbol) (r : ℕ)
    → get_elem? t.symbols at ≡ some y
    → same_name t y.name name ≡ false
    → ((k : ℕ) (z : Symbol) → at < k → k < bound → get_elem? t.symbols k ≡ some z → z.scope ≢ scope)
    → IsLocal t scope at name r
    → IsLocal t scope bound name r
IsLocal-extend t scope bound at name y r e d above (inr h) = inr h
IsLocal-extend t scope bound at name y r e d above (inl h) = inl (h.0, none_of)
  where
    some_same : (z : Symbol) → some y ≡ some z → same_name t z.name name ≡ false
    some_same z q =
        let same : y ≡ z = cc in subst (λ (x : Symbol). same_name t x.name name ≡ false) same d

    none_of :
        (k : ℕ) (z : Symbol)
        → k < bound
        → get_elem? t.symbols k ≡ some z
        → z.scope ≡ scope
        → same_name t z.name name ≡ false
    none_of k z l f s = elim (Bool-cases (ltb k at)) [
      | inl below ↦ h.1 k z (ground arith) f s
      | inr over ↦ elim (Bool-cases (k == at)) [
        | inl same ↦
            some_same z
              (sym e ∙ ap (λ (i : ℕ). get_elem? t.symbols i) (sym ((==_iff k at).0 same)) ∙ f)
        | inr other ↦ absurd (above k z (ground arith) l f s)
      ]
    ]

module _ (t : SymbolTable) (v : IsTable t) (scope : ℕ) (name : SourceSpan) where
  local_loop-IsLocal :
      (fuel bound at : ℕ)
      → bound < fuel
      → bound ≤ invalid_id
      → IsLatest t scope bound at
      → (r : ℕ) × (local_loop fuel t name at ≡ some r) × IsLocal t scope bound name r
  unfolding local_loop
  local_loop-IsLocal zero bound at l b h = absurd (omega (arith, l))
  local_loop-IsLocal (suc fuel) bound at l b (inl h) =
      (invalid_id, rw h.0 refl, inl (refl, λ k y m e s. absurd (h.1 k y m e s)))
  local_loop-IsLocal (suc fuel) bound at l b (inr (y, e, s, m, above)) =
      elim (Bool-cases (same_name t y.name name)) [
        | inl same ↦ (at, rw (valid, e, same) refl, inr (y, e, s, same))
        | inr other ↦
            let chain =
              subst (λ (n : ℕ). IsLatest t n at y.previous_in_scope) s (v.chained at y e) in
            let h =
              local_loop-IsLocal fuel at y.previous_in_scope (omega (arith, l, m))
                (omega (arith, m, b)) chain in
            (
              h.0,
              rw (valid, e, other) h.1,
              IsLocal-extend t scope bound at name y h.0 e other above h.2,
            )
      ]
    where
      valid : (at == invalid_id) ≡ false
      valid = ground arith

-- In a table in order, the chain of a scope ends, and its search gives the symbol of the scope with
-- that name, or the invalid id where the scope has none.
pub lookup_local-IsLocal :
    (t : SymbolTable) (scope : ℕ) (name : SourceSpan)
    → IsTable t
    → scope < length t.scopes
    → (r : ℕ) × (lookup_local t scope name ≡ some r) × IsLocal t scope (length t.symbols) name r
unfolding lookup_local
lookup_local-IsLocal t scope name v l =
    let s = get_elem?-inside t.scopes scope l in
    let h =
      local_loop-IsLocal t v scope name (suc (length t.symbols)) (length t.symbols) s.0.last_symbol
        (omega arith) v.symbols_countable (v.lasts scope s.0 s.1) in
    (h.0, rw s.1 h.1, h.2)
