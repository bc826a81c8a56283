-- ===== src/Scope.antt =====
-- src/semantic.c: the scopes and the symbols of a semantic model, and the tests on spans. Of the data
-- types only their number is kept. A pointer of a result that is not asked for is left out: a
-- declaration always gives both ids. `none` is a read out of an array's bounds, or a chain of symbols
-- or scopes that does not end.
pub mod Chain
pub mod Lookup
pub mod Declare
pub mod Build
pub mod Extend
mod Tests
use pigen.Common.{
  ℕ, zero, suc, ◌+◌, Bool, true, false, ◌&&◌, ◌||◌, not, Option, none, some, List, [], ◌∷◌, ◌++◌,
  ltb, leb, ◌==◌, if◌then◌else◌, u32, length, get_elem?, set_elem,
}
use pigen.Integer.{invalid_id}
use pigen.TransferType.{bytes_same}
use pigen.Source.{
  SourceSpan, SourceFile, invalid_span, pigen_source_span_valid, pigen_source_span_text,
}

pub record Scope : Type 0 where
  pub parent : ℕ
  pub last_symbol : ℕ
  pub span : SourceSpan

-- The kinds of `pigen_symbol_kind`, by their numbers.
abbrev signal_kind : ℕ
signal_kind = 0

abbrev pub module_kind : ℕ
module_kind = 1

abbrev parameter_kind : ℕ
parameter_kind = 2

abbrev typedef_kind : ℕ
typedef_kind = 3

abbrev pub fabric_kind : ℕ
fabric_kind = 7

-- `object` is the id of the module, parameter, signal or other object, after its kind.
pub record Symbol : Type 0 where
  pub kind : ℕ
  pub scope : ℕ
  pub previous_in_scope : ℕ
  pub data_type : ℕ
  pub name : SourceSpan
  pub declaration : SourceSpan
  pub object : ℕ

pub record SymbolTable : Type 0 where
  pub files : List SourceFile
  pub data_type_count : ℕ
  pub scopes : List Scope
  pub symbols : List Symbol

abbrev pub id_capacity_available : ℕ → Bool
id_capacity_available count = ltb count invalid_id

abbrev pub span_contains : SourceSpan → SourceSpan → Bool
span_contains outer inner =
    outer.source == inner.source && leb outer.start inner.start && leb inner.end outer.end

abbrev spans_equal : SourceSpan → SourceSpan → Bool
spans_equal left right =
    left.source == right.source && left.start == right.start && left.end == right.end

abbrev pub same_text : Option (List ℕ) → Option (List ℕ) → Bool
same_text none right = false
same_text (some left) none = false
same_text (some left) (some right) = bytes_same left right

unfoldable pub same_name : SymbolTable → SourceSpan → SourceSpan → Bool
same_name t left right =
    same_text (pigen_source_span_text t.files left) (pigen_source_span_text t.files right)

abbrev scope_span_valid : SymbolTable → SourceSpan → Bool
scope_span_valid t span =
    if span.source == invalid_id
    then span.start == 0 && span.end == 0
    else pigen_source_span_valid t.files span

abbrev pub new_scope : ℕ → SourceSpan → Scope
new_scope parent span = record { parent = parent; last_symbol = invalid_id; span = span }

abbrev pub scope_refused : SymbolTable → ℕ → SourceSpan → Bool
scope_refused t parent span =
    not (scope_span_valid t span)
    || (not (parent == invalid_id) && leb (length t.scopes) parent)
    || not (id_capacity_available (length t.scopes))

unfoldable pub pigen_scope_add : SymbolTable → ℕ → SourceSpan → SymbolTable × ℕ
pigen_scope_add t parent span = if scope_refused t parent span then (t, invalid_id) else (
  record {
    files = t.files;
    data_type_count = t.data_type_count;
    scopes = t.scopes ++ new_scope parent span ∷ [];
    symbols = t.symbols;
  },
  u32 (length t.scopes),
)

unfoldable pub pigen_scope_get : SymbolTable → ℕ → Option Scope
pigen_scope_get t scope = if scope == invalid_id then none else get_elem? t.scopes scope

unfoldable pub pigen_symbol_get : SymbolTable → ℕ → Option Symbol
pigen_symbol_get t symbol = if symbol == invalid_id then none else get_elem? t.symbols symbol

-- One symbol of the chain; `next` goes on with the one before it in the scope.
abbrev lookup_symbol : SymbolTable → SourceSpan → ℕ → Option Symbol → (ℕ → Option ℕ) → Option ℕ
lookup_symbol t name at none next = none
lookup_symbol t name at (some symbol) next =
    if same_name t symbol.name name then some at else next symbol.previous_in_scope

unfoldable pub local_loop : ℕ → SymbolTable → SourceSpan → ℕ → Option ℕ
local_loop zero t name at = none
local_loop (suc fuel) t name at =
    if at == invalid_id
    then some invalid_id
    else lookup_symbol t name at (get_elem? t.symbols at) (λ (p : ℕ). local_loop fuel t name p)

abbrev lookup_in : SymbolTable → Option Scope → SourceSpan → Option ℕ
lookup_in t none name = none
lookup_in t (some scope) name = local_loop (suc (length t.symbols)) t name scope.last_symbol

unfoldable pub lookup_local : SymbolTable → ℕ → SourceSpan → Option ℕ
lookup_local t scope name = lookup_in t (get_elem? t.scopes scope) name

abbrev or_outer : Option ℕ → Option ℕ → Option ℕ
or_outer none outer = none
or_outer (some result) outer = if not (result == invalid_id) then some result else outer

-- One scope; `next` goes on with its parent.
abbrev lookup_scope : SymbolTable → SourceSpan → ℕ → Option Scope → (ℕ → Option ℕ) → Option ℕ
lookup_scope t name at none next = some invalid_id
lookup_scope t name at (some scope) next = or_outer (lookup_local t at name) (next scope.parent)

unfoldable pub lookup_loop : ℕ → SymbolTable → SourceSpan → ℕ → Option ℕ
lookup_loop zero t name at = none
lookup_loop (suc fuel) t name at =
    lookup_scope t name at (pigen_scope_get t at) (λ (p : ℕ). lookup_loop fuel t name p)

unfoldable pub pigen_symbol_lookup : SymbolTable → ℕ → SourceSpan → Option ℕ
pigen_symbol_lookup t scope name = lookup_loop (suc (length t.scopes)) t name scope

pub data DeclareResult : Type 0 where
  declare_invalid declare_ok declare_duplicate : DeclareResult

pub record Declared : Type 0 where
  pub table : SymbolTable
  pub result : DeclareResult
  pub declared : ℕ
  pub shadowed : ℕ

abbrev pigen_data_type_exists : SymbolTable → ℕ → Bool
pigen_data_type_exists t data_type =
    not (data_type == invalid_id) && ltb data_type t.data_type_count

abbrev pub untyped_value : SymbolTable → ℕ → ℕ → Bool
untyped_value t kind data_type =
    (kind == signal_kind || kind == parameter_kind || kind == typedef_kind)
    && not (pigen_data_type_exists t data_type)

abbrev pub typed_block : ℕ → ℕ → Bool
typed_block kind data_type =
    (kind == module_kind || (ltb typedef_kind kind && leb kind fabric_kind))
    && not (data_type == invalid_id)

-- The checks of a declaration but that on its scope.
unfoldable pub declaration_valid : SymbolTable → ℕ → ℕ → SourceSpan → SourceSpan → Bool
declaration_valid t kind data_type name declaration = not (
    untyped_value t kind data_type
    || typed_block kind data_type
    || ltb fabric_kind kind
    || not (pigen_source_span_valid t.files name)
    || name.start == name.end
    || not (pigen_source_span_valid t.files declaration)
    || not (span_contains declaration name)
    || not (id_capacity_available (length t.symbols)))

abbrev pub refused_declaration : SymbolTable → Declared
refused_declaration t = record {
  table = t;
  result = declare_invalid;
  declared = invalid_id;
  shadowed = invalid_id;
}

abbrev pub with_last : Scope → ℕ → Scope
with_last scope last = record { parent = scope.parent; last_symbol = last; span = scope.span }

abbrev pub new_symbol : ℕ → ℕ → Scope → ℕ → SourceSpan → SourceSpan → Symbol
new_symbol kind scope owner data_type name declaration = record {
  kind = kind;
  scope = scope;
  previous_in_scope = owner.last_symbol;
  data_type = data_type;
  name = name;
  declaration = declaration;
  object = invalid_id;
}

-- The table with a symbol more, which is the last of its scope.
abbrev pub with_symbol : SymbolTable → ℕ → Scope → Symbol → SymbolTable
with_symbol t scope owner symbol = record {
  files = t.files;
  data_type_count = t.data_type_count;
  scopes = set_elem t.scopes scope (with_last owner (u32 (length t.symbols)));
  symbols = t.symbols ++ symbol ∷ [];
}

abbrev pub declare_new : SymbolTable → ℕ → Scope → Symbol → Option ℕ → Option Declared
declare_new t scope owner symbol none = none
declare_new t scope owner symbol (some shadowed) = some (record {
  table = with_symbol t scope owner symbol;
  result = declare_ok;
  declared = u32 (length t.symbols);
  shadowed = shadowed;
})

abbrev declare_checked : SymbolTable → ℕ → Scope → Symbol → Option ℕ → Option Declared
declare_checked t scope owner symbol none = none
declare_checked t scope owner symbol (some existing) =
    if not (existing == invalid_id)
    then some (record {
      table = t;
      result = declare_duplicate;
      declared = existing;
      shadowed = invalid_id;
    })
    else declare_new t scope owner symbol (
        if not (owner.parent == invalid_id)
        then pigen_symbol_lookup t owner.parent symbol.name
        else some invalid_id)

abbrev declare_in :
    SymbolTable → ℕ → Option Scope → ℕ → ℕ → SourceSpan → SourceSpan → Option Declared
declare_in t scope none kind data_type name declaration = some (refused_declaration t)
declare_in t scope (some owner) kind data_type name declaration =
    if declaration_valid t kind data_type name declaration
    then declare_checked t scope owner (new_symbol kind scope owner data_type name declaration)
        (lookup_local t scope name)
    else some (refused_declaration t)

unfoldable pub pigen_symbol_declare :
    SymbolTable → ℕ → ℕ → ℕ → SourceSpan → SourceSpan → Option Declared
pigen_symbol_declare t scope kind data_type name declaration =
    declare_in t scope (pigen_scope_get t scope) kind data_type name declaration
