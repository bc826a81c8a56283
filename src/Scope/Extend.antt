-- ===== src/Scope/Extend.antt =====
-- src/semantic.c, `pigen_scope_add`: what it does to a table in order.
use pigen.Common.{
  ℕ, ◌<◌, ◌≡◌, ◌≢◌, refl, sym, ap, subst, ◌∙◌, ◌⊎◌, inl, inr, false, some, [], ◌∷◌, ◌++◌, arith,
  ◌==◌, u32, length, length-append, get_elem?, get_elem?-lt, get_elem?-append_left,
  get_elem?-append_self, get_elem?-append_cases, Bool-cases,
}
use pigen.Integer.{invalid_id}
use pigen.Source.{SourceSpan}
use pigen.Scope.{
  Scope, Symbol, SymbolTable, same_name, new_scope, scope_refused, pigen_scope_add, pigen_scope_get,
}
use pigen.Scope.Chain.{IsLatest, IsTable}
use pigen.Scope.Lookup.{HasNone}
use pigen.Scope.Build.{get_elem?-pigen_scope_get}

-- What the addition of a scope has done.
pub record AddsScope (t : SymbolTable) (parent : ℕ) (span : SourceSpan) (r : SymbolTable × ℕ)
    : Type 0 where
  pub table : IsTable r.0
  pub added : pigen_scope_get r.0 r.1 ≡ some (new_scope parent span)
  pub empty : (name : SourceSpan) → HasNone r.0 name r.1
  pub keeps : (i : ℕ) (s : Scope) → get_elem? t.scopes i ≡ some s → get_elem? r.0.scopes i ≡ some s

module _ (t : SymbolTable) (v : IsTable t) (parent : ℕ) (span : SourceSpan)
    (inside : (parent ≡ invalid_id) ⊎ (parent < length t.scopes))
    (room : length t.scopes < invalid_id) where
  abbrev new_table : SymbolTable
  new_table = record {
    files = t.files;
    data_type_count = t.data_type_count;
    scopes = t.scopes ++ new_scope parent span ∷ [];
    symbols = t.symbols;
  }

  new_scope_empty :
      (k : ℕ) (y : Symbol) → get_elem? t.symbols k ≡ some y → y.scope ≢ length t.scopes
  new_scope_empty k y e q = omega (arith, v.owned k y e, q)

  new_table-IsTable : IsTable new_table
  unfolding same_name
  new_table-IsTable = record {
    scopes_countable = omega (arith, room, length-append t.scopes (new_scope parent span ∷ []));
    symbols_countable = v.symbols_countable;
    parents = λ i s e. elim (get_elem?-append_cases t.scopes (new_scope parent span) s i e) [
      | inl f ↦ v.parents i s f
      | inr f ↦
          subst (λ (r : Scope). (r.parent ≡ invalid_id) ⊎ (r.parent < i)) f.1
            (subst (λ (j : ℕ). (parent ≡ invalid_id) ⊎ (parent < j)) (sym f.0) inside)
    ];
    lasts = λ i s e. elim (get_elem?-append_cases t.scopes (new_scope parent span) s i e) [
      | inl f ↦ v.lasts i s f
      | inr f ↦
          subst (λ (r : Scope). IsLatest new_table i (length t.symbols) r.last_symbol) f.1
            (inl (refl, λ k y l g q. new_scope_empty k y g (q ∙ f.0)))
    ];
    chained = v.chained;
    owned =
        λ i y e. omega (arith, v.owned i y e, length-append t.scopes (new_scope parent span ∷ []));
    different = v.different;
  }

  new_table-AddsScope : AddsScope t parent span (new_table, u32 (length t.scopes))
  new_table-AddsScope = record {
    table = new_table-IsTable;
    added =
        get_elem?-pigen_scope_get new_table (u32 (length t.scopes)) (new_scope parent span)
          (ground (arith, room))
          (ap (get_elem? (t.scopes ++ new_scope parent span ∷ [])) index
            ∙ get_elem?-append_self t.scopes (new_scope parent span));
    empty = λ name k y e q. absurd (new_scope_empty k y e (q ∙ index));
    keeps = λ i s e.
        get_elem?-append_left t.scopes (new_scope parent span ∷ []) i (get_elem?-lt t.scopes i e)
        ∙ e;
  }
    where
      index : u32 (length t.scopes) ≡ length t.scopes
      index = omega (arith, room)

-- In a table in order, a scope is refused, which leaves the table as it is, or added: the table stays
-- in order and keeps its scopes, and the new scope has its parent and its span, and no symbols.
pub pigen_scope_add-AddsScope :
    (t : SymbolTable) (parent : ℕ) (span : SourceSpan)
    → IsTable t
    → (pigen_scope_add t parent span ≡ (t, invalid_id))
      ⊎ AddsScope t parent span (pigen_scope_add t parent span)
unfolding pigen_scope_add
pigen_scope_add-AddsScope t parent span v = elim (Bool-cases (scope_refused t parent span)) [
  | inl refused ↦ rw refused (inl refl)
  | inr fine ↦
      rw fine (inr (new_table-AddsScope t v parent span (fine_parent fine) (fine_room fine)))
]
  where
    fine_parent :
        scope_refused t parent span ≡ false → (parent ≡ invalid_id) ⊎ (parent < length t.scopes)
    fine_parent e = elim (Bool-cases (parent == invalid_id)) [
      | inl q ↦ inl (ground arith)
      | inr q ↦ inr (ground arith)
    ]

    fine_room : scope_refused t parent span ≡ false → length t.scopes < invalid_id
    fine_room e = ground arith
