-- ===== src/Scope/Tests.antt =====
-- Scopes and symbols at concrete inputs.
use pigen.Common.{
  ℕ, zero, suc, ◌<◌, ◌≡◌, ◌↔◌, refl, ap, ◌⊎◌, inl, inr, some, [], ◌∷◌, get_elem?, arith,
}
use pigen.Integer.{invalid_id}
use pigen.Source.{
  SourceSpan, invalid_span, new_file, pigen_source_get, pigen_source_span_valid,
  pigen_source_span_text,
}
use pigen.Scope.{
  Scope, Symbol, SymbolTable, same_name, new_scope, pigen_scope_add, pigen_scope_get, local_loop,
  lookup_local, lookup_loop, pigen_symbol_lookup, Declared, declare_ok, declaration_valid,
  new_symbol, with_symbol, pigen_symbol_declare,
}
use pigen.Scope.Chain.{IsLatest, IsTable}
use pigen.Scope.Lookup.{Resolves, pigen_symbol_lookup_iff}
use pigen.Scope.Declare.{with_symbol-IsTable}
use pigen.Scope.Build.{Declares, pigen_symbol_declare-Declares}
use pigen.Scope.Extend.{AddsScope, pigen_scope_add-AddsScope}

-- The text `x x y`.
abbrev first : SourceSpan
first = record { source = 0; start = 0; end = 1 }

abbrev second : SourceSpan
second = record { source = 0; start = 2; end = 3 }

abbrev third : SourceSpan
third = record { source = 0; start = 4; end = 5 }

abbrev root : Scope
root = new_scope invalid_id invalid_span

abbrev scopes : SymbolTable
scopes = record {
  files = new_file [] (b'x' ∷ b' ' ∷ b'x' ∷ b' ' ∷ b'y' ∷ []) ∷ [];
  data_type_count = 1;
  scopes = root ∷ new_scope 0 first ∷ [];
  symbols = [];
}

abbrev x_symbol : Symbol
x_symbol = new_symbol 0 0 root 0 first first

abbrev one_symbol : SymbolTable
one_symbol = with_symbol scopes 0 root x_symbol

-- The second `x` stands in the inner scope.
hidden :
    pigen_symbol_declare one_symbol 1 0 0 second second
    ≡ some (record {
      table =
          with_symbol one_symbol 1
            (new_scope 0 first)
            (new_symbol 0 1 (new_scope 0 first) 0 second second);
      result = declare_ok;
      declared = 1;
      shadowed = 0;
    })
unfolding same_name pigen_source_get pigen_source_span_valid pigen_source_span_text pigen_scope_get
    local_loop lookup_local lookup_loop pigen_symbol_lookup declaration_valid pigen_symbol_declare
hidden = refl

scopes-IsTable : IsTable scopes
scopes-IsTable = record {
  scopes_countable = omega arith;
  symbols_countable = omega arith;
  parents = parents;
  lasts = lasts;
  chained = λ i y e. cc;
  owned = λ i y e. cc;
  different = λ i j y z e f q l. cc;
}
  where
    parents :
        (i : ℕ) (s : Scope)
        → get_elem? scopes.scopes i ≡ some s
        → (s.parent ≡ invalid_id) ⊎ (s.parent < i)
    parents zero s e = inl (cc)
    parents (suc zero) s e =
        (let same : new_scope 0 first ≡ s = cc in
          inr (omega (arith, ap (λ (x : Scope). x.parent) same)))
    parents (suc (suc i)) s e = cc

    lasts :
        (i : ℕ) (s : Scope) → get_elem? scopes.scopes i ≡ some s → IsLatest scopes i 0 s.last_symbol
    lasts zero s e = inl (cc, λ k y l f. cc)
    lasts (suc zero) s e = inl (cc, λ k y l f. cc)
    lasts (suc (suc i)) s e = cc

one_symbol-IsTable : IsTable one_symbol
one_symbol-IsTable =
    with_symbol-IsTable scopes scopes-IsTable 0 root x_symbol refl (omega arith) refl refl
      (λ k y e q. cc)

pigen_symbol_lookup_iff_example :
    (pigen_symbol_lookup one_symbol 1 second ≡ some 0) ↔ Resolves one_symbol second 1 0
pigen_symbol_lookup_iff_example = pigen_symbol_lookup_iff one_symbol second 1 0 one_symbol-IsTable

pigen_symbol_declare-Declares_example :
    (d : Declared) × (pigen_symbol_declare one_symbol 1 0 0 third third ≡ some d)
    × Declares one_symbol 1 third d d.result
pigen_symbol_declare-Declares_example =
    pigen_symbol_declare-Declares one_symbol 1 0 0 third third one_symbol-IsTable

pigen_scope_add-AddsScope_example :
    (pigen_scope_add one_symbol 1 second ≡ (one_symbol, invalid_id))
    ⊎ AddsScope one_symbol 1 second (pigen_scope_add one_symbol 1 second)
pigen_scope_add-AddsScope_example = pigen_scope_add-AddsScope one_symbol 1 second one_symbol-IsTable
