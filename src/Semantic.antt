-- ===== src/Semantic.antt =====
-- The part of `pigen_semantic_model` (include/pigen/semantic.h) that routing reads, and the
-- accessors of src/semantic.c. The counts are the lengths of the lists. Of an expression's and of a
-- symbol's kinds those are told apart that routing tells apart.
use pigen.Common.{
  ℕ, suc, ◌+◌, ◌-◌, ◌||◌, Option, none, some, List, [], ◌∷◌, ltb, leb, ◌==◌, if◌then◌else◌, u32,
  u64, length, get_elem?, take, drop,
}
use pigen.Integer.{invalid_id, IntegerTable}
use pigen.Source.{SourceSpan}

pub data ExprForm : Type 0 where
  symbol_expr : ℕ → ExprForm
  concatenation_expr : ℕ → ℕ → ExprForm
  other_expr : ExprForm

pub record SemanticExpr : Type 0 where
  pub form : ExprForm
  pub data_type : ℕ

pub data SymbolObject : Type 0 where
  signal_object : ℕ → SymbolObject
  other_object : SymbolObject

pub data Lvalue : Type 0 where
  projection : ℕ → Lvalue
  concatenation : ℕ → ℕ → Lvalue

pub record SemanticSignal : Type 0 where
  pub data_type : ℕ
  pub transfer_type : ℕ

pub data Edge : Type 0 where
  posedge negedge : Edge

pub record SignalUse : Type 0 where
  pub signal : ℕ
  pub roles : ℕ

pub record Transfer : Type 0 where
  pub owner : ℕ
  pub process : ℕ
  pub destination : ℕ
  pub value : ℕ
  pub domain : ℕ
  pub first_signal_use : ℕ
  pub signal_use_count : ℕ
  pub span : SourceSpan

-- `processes` holds the module of each process, `clock_domains` the edge of each domain.
pub record SemanticModel : Type 0 where
  pub integers : IntegerTable
  pub symbols : List SymbolObject
  pub expressions : List SemanticExpr
  pub expression_children : List ℕ
  pub lvalues : List Lvalue
  pub lvalue_children : List ℕ
  pub module_count : ℕ
  pub signals : List SemanticSignal
  pub clock_domains : List Edge
  pub processes : List ℕ
  pub transfers : List Transfer
  pub transfer_signal_uses : List SignalUse

-- `none` is the null pointer.
abbrev entry_get {ℓ} : {A : Type ℓ} → List A → ℕ → Option A
entry_get xs id = if id == invalid_id then none else get_elem? xs id

abbrev pub pigen_symbol_get : SemanticModel → ℕ → Option SymbolObject
pigen_symbol_get m id = entry_get m.symbols id

abbrev pub pigen_expr_get : SemanticModel → ℕ → Option SemanticExpr
pigen_expr_get m id = entry_get m.expressions id

abbrev pub pigen_lvalue_get : SemanticModel → ℕ → Option Lvalue
pigen_lvalue_get m id = entry_get m.lvalues id

abbrev pub pigen_signal_get : SemanticModel → ℕ → Option SemanticSignal
pigen_signal_get m id = entry_get m.signals id

abbrev pub pigen_clock_domain_get : SemanticModel → ℕ → Option Edge
pigen_clock_domain_get m id = entry_get m.clock_domains id

abbrev pub pigen_transfer_get : SemanticModel → ℕ → Option Transfer
pigen_transfer_get m id = entry_get m.transfers id

-- The `count` children at `first`.
abbrev children_at : List ℕ → ℕ → ℕ → Option (List ℕ)
children_at xs first count =
    if ltb (length xs) first || ltb (length xs - first) count
    then none
    else some (take count (drop first xs))

abbrev pub pigen_expr_children : SemanticModel → ℕ → ℕ → Option (List ℕ)
pigen_expr_children m first count = children_at m.expression_children first count

abbrev pub pigen_lvalue_children : SemanticModel → ℕ → ℕ → Option (List ℕ)
pigen_lvalue_children m first count = children_at m.lvalue_children first count

-- The uses of a transfer that was found.
abbrev pub uses_of : SemanticModel → Option Transfer → Option (List SignalUse)
uses_of m none = none
uses_of m (some tr) =
    if tr.signal_use_count == 0
      || ltb (length m.transfer_signal_uses) (u64 (tr.first_signal_use + tr.signal_use_count))
    then none
    else some (take tr.signal_use_count (drop tr.first_signal_use m.transfer_signal_uses))

abbrev pub pigen_transfer_signal_uses : SemanticModel → ℕ → Option (List SignalUse)
pigen_transfer_signal_uses m id = uses_of m (pigen_transfer_get m id)

-- The scan of an arena from index `i` on, for the records with this owner.
unfoldable pub owned_by : ℕ → List ℕ → ℕ → List ℕ
owned_by owner [] i = []
owned_by owner (o ∷ os) i =
    let later = owned_by owner os (suc i) in if o == owner then u32 i ∷ later else later

-- An empty buffer is the null pointer.
abbrev buffer_of : List ℕ → Option (List ℕ)
buffer_of [] = none
buffer_of (x ∷ xs) = some (x ∷ xs)

abbrev owners : List Transfer → List ℕ
owners [] = []
owners (tr ∷ trs) = tr.process ∷ owners trs

unfoldable pub pigen_module_processes : SemanticModel → ℕ → Option (List ℕ)
pigen_module_processes m id =
    if id == invalid_id || leb m.module_count id
    then none
    else buffer_of (owned_by id m.processes 0)

unfoldable pub pigen_process_transfers : SemanticModel → ℕ → Option (List ℕ)
pigen_process_transfers m id =
    if id == invalid_id || leb (length m.processes) id
    then none
    else buffer_of (owned_by id (owners m.transfers) 0)
