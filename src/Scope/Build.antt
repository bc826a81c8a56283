-- ===== src/Scope/Build.antt =====
-- src/semantic.c, `pigen_symbol_declare`: what it does to a table in order.
use pigen.Common.{
  ℕ, ◌<◌, ◌≡◌, ◌≢◌, refl, ap, subst, ◌∙◌, inl, inr, Bool, true, false, ◌||◌, not, Option, none,
  some, List, [], ◌∷◌, ◌++◌, arith, ltb, ◌==◌, ==_iff, if◌then◌else◌, u32, length, get_elem?,
  get_elem?-set_elem_same, get_elem?-lt, get_elem?-append_left, get_elem?-append_self, Bool-cases,
  Option-cases,
}
use pigen.Integer.{invalid_id}
use pigen.TransferType.Laws.{bytes_same_iff}
use pigen.Source.{SourceSpan, pigen_source_span_valid, pigen_source_span_text}
use pigen.Source.Text.{pigen_source_span_text-found}
use pigen.Scope.{
  Scope, Symbol, SymbolTable, same_text, same_name, id_capacity_available, pigen_scope_get,
  pigen_symbol_lookup, untyped_value, typed_block, fabric_kind, span_contains, DeclareResult,
  declare_invalid, declare_ok, declare_duplicate, Declared, declaration_valid, refused_declaration,
  with_last, new_symbol, with_symbol, declare_new, pigen_symbol_declare,
}
use pigen.Scope.Chain.{IsTable, lookup_local-IsLocal}
use pigen.Scope.Lookup.{
  HasNone, Resolves, nowhere, here, pigen_symbol_lookup_iff, pigen_symbol_lookup-found,
  pigen_scope_get-get_elem?, invalid_scope,
}
use pigen.Scope.Declare.{with_symbol-IsTable}

-- What a declaration has done.
pub record Adds (t : SymbolTable) (scope : ℕ) (name : SourceSpan) (d : Declared) : Type 0 where
  pub table : IsTable d.table
  pub undeclared : HasNone t name scope
  pub keeps :
      (k : ℕ) (y : Symbol) → get_elem? t.symbols k ≡ some y → get_elem? d.table.symbols k ≡ some y
  pub found : pigen_symbol_lookup d.table scope name ≡ some d.declared
  pub shadows : (s : Scope) → pigen_scope_get t scope ≡ some s → Resolves t name s.parent d.shadowed

abbrev pub Declares : SymbolTable → ℕ → SourceSpan → Declared → DeclareResult → Type 0
Declares t scope name d declare_invalid = (d.table ≡ t) × (d.declared ≡ invalid_id)
Declares t scope name d declare_duplicate =
    (d.table ≡ t)
    × (y : Symbol) × (get_elem? t.symbols d.declared ≡ some y)
    × (y.scope ≡ scope)
    × (same_name t y.name name ≡ true)
Declares t scope name d declare_ok = Adds t scope name d

no_fault :
    (a b c d e f g h : Bool)
    → not (a || b || c || not d || e || not f || not g || not h) ≡ true
    → (d ≡ true) × (h ≡ true)
no_fault a b c d e f g h v = (ground arith, ground arith)

same_text_refl : (o : Option (List ℕ)) → o ≢ none → same_text o o ≡ true
same_text_refl none d = absurd (d refl)
same_text_refl (some text) d = (bytes_same_iff text text).1 refl

valid_declaration :
    (t : SymbolTable) (kind data_type : ℕ) (name declaration : SourceSpan)
    → declaration_valid t kind data_type name declaration ≡ true
    → (pigen_source_span_valid t.files name ≡ true)
      × (id_capacity_available (length t.symbols) ≡ true)
unfolding declaration_valid
valid_declaration t kind data_type name declaration v =
    no_fault (untyped_value t kind data_type) (typed_block kind data_type) (ltb fabric_kind kind)
      (pigen_source_span_valid t.files name) (name.start == name.end)
      (pigen_source_span_valid t.files declaration) (span_contains declaration name)
      (id_capacity_available (length t.symbols)) v

same_name_refl :
    (t : SymbolTable) (name : SourceSpan)
    → pigen_source_span_valid t.files name ≡ true
    → same_name t name name ≡ true
unfolding same_name
same_name_refl t name v =
    same_text_refl (pigen_source_span_text t.files name)
      (pigen_source_span_text-found t.files name v)

pub get_elem?-pigen_scope_get :
    (t : SymbolTable) (scope : ℕ) (s : Scope)
    → (scope == invalid_id) ≡ false
    → get_elem? t.scopes scope ≡ some s
    → pigen_scope_get t scope ≡ some s
unfolding pigen_scope_get
get_elem?-pigen_scope_get t scope s e f = rw e f

same_name-with_symbol :
    (t : SymbolTable) (scope : ℕ) (owner : Scope) (new : Symbol) (a b : SourceSpan)
    → same_name t a b ≡ true
    → same_name (with_symbol t scope owner new) a b ≡ true
unfolding same_name
same_name-with_symbol t scope owner new a b e = e

module _ (t : SymbolTable) (v : IsTable t) (scope : ℕ) (owner : Scope) (new : Symbol)
    (e : pigen_scope_get t scope ≡ some owner) (room : length t.symbols < invalid_id)
    (named : same_name t new.name new.name ≡ true) (placed : new.scope ≡ scope)
    (previous : new.previous_in_scope ≡ owner.last_symbol) where
  known : get_elem? t.scopes scope ≡ some owner
  known = (pigen_scope_get-get_elem? t scope owner e).1

  -- The name that the declaration hides.
  shadowed-Resolves :
      (r : ℕ) × ((if not (owner.parent == invalid_id)
          then pigen_symbol_lookup t owner.parent new.name
          else some invalid_id)
        ≡ some r)
      × Resolves t new.name owner.parent r
  shadowed-Resolves = elim (Bool-cases (owner.parent == invalid_id)) [
    | inl q ↦ (
      invalid_id,
      rw q refl,
      nowhere owner.parent
          (ap (pigen_scope_get t) ((==_iff owner.parent invalid_id).0 q) ∙ invalid_scope t),
    )
    | inr q ↦ let h = pigen_symbol_lookup-found t new.name owner.parent v in (h.0, rw q h.1, h.2)
  ]

  declared-Adds :
      (shadowed : ℕ)
      → Resolves t new.name owner.parent shadowed
      → HasNone t new.name scope
      → Adds t scope new.name (record {
        table = with_symbol t scope owner new;
        result = declare_ok;
        declared = u32 (length t.symbols);
        shadowed = shadowed;
      })
  declared-Adds shadowed h n =
      let after = with_symbol-IsTable t v scope owner new known room placed previous n in
      record {
        table = after;
        undeclared = n;
        keeps =
            λ k y f. get_elem?-append_left t.symbols (new ∷ []) k (get_elem?-lt t.symbols k f) ∙ f;
        found =
            (pigen_symbol_lookup_iff (with_symbol t scope owner new) new.name scope
                (u32 (length t.symbols)) after).1
              (here scope (u32 (length t.symbols)) (with_last owner (u32 (length t.symbols))) new
                new_owner
                (ap (get_elem? (t.symbols ++ new ∷ [])) index ∙ get_elem?-append_self t.symbols new)
                placed new_named);
        shadows = λ s f.
            let same : owner ≡ s = cc in
            subst (λ (x : Scope). Resolves t new.name x.parent shadowed) same h;
      }
    where
      index : u32 (length t.symbols) ≡ length t.symbols
      index = omega (arith, room)

      new_owner :
          pigen_scope_get (with_symbol t scope owner new) scope
          ≡ some (with_last owner (u32 (length t.symbols)))
      new_owner =
          get_elem?-pigen_scope_get (with_symbol t scope owner new) scope _
            (pigen_scope_get-get_elem? t scope owner e).0
            (get_elem?-set_elem_same t.scopes scope (with_last owner (u32 (length t.symbols)))
              (get_elem?-lt t.scopes scope known))

      new_named : same_name (with_symbol t scope owner new) new.name new.name ≡ true
      new_named = same_name-with_symbol t scope owner new new.name new.name named

-- In a table in order, a declaration ends. A refused one leaves the table as it is, a duplicate too,
-- and gives the scope's symbol of that name. Else the scope had no symbol of that name: the table stays
-- in order and keeps its symbols, the name is looked up to the new symbol, and the id that is shadowed
-- is what the name was in the scope's parent.
pub pigen_symbol_declare-Declares :
    (t : SymbolTable) (scope kind data_type : ℕ) (name declaration : SourceSpan)
    → IsTable t
    → (d : Declared) × (pigen_symbol_declare t scope kind data_type name declaration ≡ some d)
      × Declares t scope name d d.result
unfolding pigen_symbol_declare
pigen_symbol_declare-Declares t scope kind data_type name declaration v =
    elim (Option-cases (pigen_scope_get t scope)) [
      | inl e ↦ (refused_declaration t, rw e refl, (refl, refl))
      | inr (owner, e) ↦ elim (Bool-cases (declaration_valid t kind data_type name declaration)) [
        | inr refused ↦ (refused_declaration t, rw (e, refused) refl, (refl, refl))
        | inl valid ↦
            let c = valid_declaration t kind data_type name declaration valid in
            let g = (pigen_scope_get-get_elem? t scope owner e).1 in
            let h = lookup_local-IsLocal t scope name v (get_elem?-lt t.scopes scope g) in
            elim h.2 [
              | inr (y, f, q, m) ↦ (
                record {
                  table = t;
                  result = declare_duplicate;
                  declared = h.0;
                  shadowed = invalid_id;
                },
                rw (e, valid, h.1, valid_id t v h.0 y f) refl,
                (refl, y, f, q, m),
              )
              | inl n ↦
                  let new = new_symbol kind scope owner data_type name declaration in
                  let s =
                    shadowed-Resolves t v scope owner new e (ground (arith, c.1))
                      (same_name_refl t name c.0) refl refl in
                  (
                    record {
                      table = with_symbol t scope owner new;
                      result = declare_ok;
                      declared = u32 (length t.symbols);
                      shadowed = s.0;
                    },
                    rw (e, valid, h.1, n.0) (ap (declare_new t scope owner new) s.1),
                    declared-Adds t v scope owner new e (ground (arith, c.1))
                        (same_name_refl t name c.0) refl refl s.0 s.2
                        (λ k y f q. n.1 k y (get_elem?-lt t.symbols k f) f q),
                  )
            ]
      ]
    ]
  where
    valid_id :
        (u : SymbolTable)
        → IsTable u
        → (r : ℕ) (y : Symbol) → get_elem? u.symbols r ≡ some y
        → (r == invalid_id) ≡ false
    valid_id u w r y f =
        let l = get_elem?-lt u.symbols r f in ground (arith, l, w.symbols_countable)
