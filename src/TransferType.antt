-- ===== src/TransferType.antt =====
-- src/transfer_type.c and include/pigen/transfer_type.h: the catalogue of transfer types and of
-- their realizations. An enum is its number, since the accessors take numbers out of range; a flag
-- of the tables that may be -1, "depends on the context", is a `Flag`.
pub mod Laws
mod Tests
use pigen.Common.{
  ℕ, zero, suc, ◌<◌, Bool, true, false, ◌&&◌, ◌||◌, not, Option, none, some, List, [], ◌∷◌, ltb,
  ◌==◌, same, if◌then◌else◌, length, get_elem?,
}

-- pigen_transfer_parameter.
pub data TransferParameter : Type 0 where
  no_parameter depth : TransferParameter

-- pigen_transfer_realization; 0 is PIGEN_TRANSFER_REALIZATION_INVALID.
abbrev boundary : ℕ
boundary = 1

abbrev combinational_net : ℕ
combinational_net = 2

abbrev procedural_variable : ℕ
procedural_variable = 3

abbrev elastic_slot : ℕ
elastic_slot = 4

abbrev pulse_register : ℕ
pulse_register = 5

abbrev pub parameterized_queue : ℕ
parameterized_queue = 6

abbrev skid_queue : ℕ
skid_queue = 7

pub data CapacitySource : Type 0 where
  capacity_invalid capacity_none capacity_fixed capacity_argument : CapacitySource

pub data ReadyDependency : Type 0 where
  ready_invalid ready_external ready_constant ready_downstream ready_occupancy : ReadyDependency

pub data Reset : Type 0 where
  reset_invalid reset_none reset_procedural reset_empty : Reset

pub record RealizationDescriptor : Type 0 where
  pub capacity_source : CapacitySource
  fixed_capacity : ℕ
  pub ready_dependency : ReadyDependency
  pub has_occupancy : Bool
  reset : Reset

-- 0, 1, or -1 for what depends on the context.
pub data Flag : Type 0 where
  clear raised contextual : Flag

pub record TypeDescriptor : Type 0 where
  pub spelling : Option (List ℕ)
  pub is_concrete : Bool
  pub is_static : Bool
  is_systemverilog_prefix : Bool
  accepts_write : Bool
  pub parameter : TransferParameter
  pub realization : ℕ
  pub valid_constant : Flag
  pub ready_constant : Flag
  pub consumes_on_read : Flag
  produces_on_write : Flag
  pub requires_ownership : Flag
  pub binds_domain : Flag

abbrev realization_row : CapacitySource → ℕ → ReadyDependency → Bool → Reset → RealizationDescriptor
realization_row source capacity ready occupancy reset = record {
  capacity_source = source;
  fixed_capacity = capacity;
  ready_dependency = ready;
  has_occupancy = occupancy;
  reset = reset;
}

-- The row at index 0 is not initialised in the source: all its fields are 0.
abbrev realizations : List RealizationDescriptor
realizations =
    realization_row capacity_invalid 0 ready_invalid false reset_invalid
    ∷ realization_row capacity_none 0 ready_external false reset_none
    ∷ realization_row capacity_none 0 ready_constant false reset_none
    ∷ realization_row capacity_none 0 ready_constant false reset_procedural
    ∷ realization_row capacity_fixed 1 ready_downstream true reset_empty
    ∷ realization_row capacity_fixed 1 ready_constant false reset_empty
    ∷ realization_row capacity_argument 0 ready_occupancy true reset_empty
    ∷ realization_row capacity_fixed 2 ready_occupancy true reset_empty
    ∷ []

-- The flags that `wire`, `reg` and `logic` leave out are 0.
abbrev static_row : List ℕ → Bool → Bool → ℕ → Flag → TypeDescriptor
static_row spelling prefix writes realization ready = record {
  spelling = some spelling;
  is_concrete = true;
  is_static = true;
  is_systemverilog_prefix = prefix;
  accepts_write = writes;
  parameter = no_parameter;
  realization = realization;
  valid_constant = raised;
  ready_constant = ready;
  consumes_on_read = clear;
  produces_on_write = clear;
  requires_ownership = clear;
  binds_domain = clear;
}

abbrev pub buffered_row : List ℕ → TransferParameter → ℕ → Flag → TypeDescriptor
buffered_row spelling parameter realization ready = record {
  spelling = some spelling;
  is_concrete = true;
  is_static = false;
  is_systemverilog_prefix = false;
  accepts_write = true;
  parameter = parameter;
  realization = realization;
  valid_constant = contextual;
  ready_constant = ready;
  consumes_on_read = raised;
  produces_on_write = raised;
  requires_ownership = raised;
  binds_domain = raised;
}

abbrev abstract_row : TypeDescriptor
abstract_row = record {
  spelling = none;
  is_concrete = false;
  is_static = false;
  is_systemverilog_prefix = false;
  accepts_write = false;
  parameter = no_parameter;
  realization = boundary;
  valid_constant = contextual;
  ready_constant = contextual;
  consumes_on_read = contextual;
  produces_on_write = contextual;
  requires_ownership = contextual;
  binds_domain = contextual;
}

abbrev pub transfer_types : List TypeDescriptor
transfer_types =
    abstract_row
    ∷ static_row (b'w' ∷ b'i' ∷ b'r' ∷ b'e' ∷ []) true false combinational_net clear
    ∷ static_row (b'r' ∷ b'e' ∷ b'g' ∷ []) true true procedural_variable raised
    ∷ static_row (b'l' ∷ b'o' ∷ b'g' ∷ b'i' ∷ b'c' ∷ []) false true procedural_variable raised
    ∷ buffered_row (b'b' ∷ b'u' ∷ b'f' ∷ []) no_parameter elastic_slot contextual
    ∷ buffered_row (b'p' ∷ b'o' ∷ b'r' ∷ b't' ∷ []) no_parameter pulse_register raised
    ∷ buffered_row (b'f' ∷ b'i' ∷ b'f' ∷ b'o' ∷ []) depth parameterized_queue contextual
    ∷ buffered_row (b's' ∷ b'k' ∷ b'i' ∷ b'd' ∷ []) no_parameter skid_queue contextual
    ∷ []

abbrev is_fixed : CapacitySource → Bool
is_fixed capacity_fixed = true
is_fixed capacity_invalid = false
is_fixed capacity_none = false
is_fixed capacity_argument = false

abbrev has_invalid_field : RealizationDescriptor → Bool
has_invalid_field d =
    (elim d.capacity_source [ capacity_invalid ↦ true | _ ↦ false ])
    || (elim d.ready_dependency [ ready_invalid ↦ true | _ ↦ false ])
    || (elim d.reset [ reset_invalid ↦ true | _ ↦ false ])

-- The checks on a row of the table.
checked_descriptor : RealizationDescriptor → Option RealizationDescriptor
checked_descriptor d =
    if has_invalid_field d
    then none
    else if not (same (is_fixed d.capacity_source) (not (d.fixed_capacity == 0)))
    then none
    else some d

checked_row : Option RealizationDescriptor → Option RealizationDescriptor
checked_row none = none
checked_row (some d) = checked_descriptor d

unfoldable pub pigen_transfer_realization_descriptor_get : ℕ → Option RealizationDescriptor
unfolding checked_row checked_descriptor
pigen_transfer_realization_descriptor_get r = checked_row (get_elem? realizations r)

abbrev is_known {ℓ} : {A : Type ℓ} → Option A → Bool
is_known none = false
is_known (some a) = true

unfoldable pigen_transfer_realization_is_valid : ℕ → Bool
unfolding pigen_transfer_realization_descriptor_get
pigen_transfer_realization_is_valid r = is_known (pigen_transfer_realization_descriptor_get r)

abbrev row_is_valid : Option TypeDescriptor → (ℕ → Bool) → Bool
row_is_valid none valid = false
row_is_valid (some d) valid = valid d.realization

unfoldable pub pigen_transfer_type_is_valid : ℕ → Bool
unfolding pigen_transfer_realization_is_valid
pigen_transfer_type_is_valid ty =
    row_is_valid (get_elem? transfer_types ty) pigen_transfer_realization_is_valid

unfoldable pub pigen_transfer_type_descriptor_get : ℕ → Option TypeDescriptor
unfolding pigen_transfer_type_is_valid
pigen_transfer_type_descriptor_get ty =
    if pigen_transfer_type_is_valid ty then get_elem? transfer_types ty else none

-- `strlen(row) == length && !memcmp`, of a text without a zero byte.
abbrev pub bytes_same : List ℕ → List ℕ → Bool
bytes_same [] [] = true
bytes_same [] (y ∷ ys) = false
bytes_same (x ∷ xs) [] = false
bytes_same (x ∷ xs) (y ∷ ys) = x == y && bytes_same xs ys

abbrev pub is_spelled : Option (List ℕ) → List ℕ → Bool
is_spelled none text = false
is_spelled (some known) text = bytes_same known text

-- The search from index `i` on.
pub spelling_loop : List TypeDescriptor → ℕ → List ℕ → Option ℕ
spelling_loop [] i text = none
spelling_loop (d ∷ rest) i text =
    let later = spelling_loop rest (suc i) text in
    if pigen_transfer_type_is_valid i && is_spelled d.spelling text then some i else later

unfoldable pub pigen_transfer_type_from_spelling : List ℕ → Option ℕ
unfolding spelling_loop pigen_transfer_type_is_valid
pigen_transfer_type_from_spelling text = spelling_loop transfer_types 0 text
