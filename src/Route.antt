-- ===== src/Route.antt =====
-- src/route.c and include/pigen/route.h: the route of a module, whose ready graph has one node for
-- each of its transfers. `nodes` holds the published nodes, so `node_count` is its length and 0 while
-- a build fails before it publishes them.
pub mod Width
pub mod Laws
pub mod Domain
pub mod Ready
pub mod Build
mod Tests
use pigen.Common.{ℕ, ◌+◌, ◌/◌, ◌%◌, Bool, true, false, not, Option, none, some, List, [], ◌∷◌, ◌==◌}
use pigen.TransferType.{ReadyDependency, Flag, clear, raised, contextual}
use pigen.Integer.{invalid_id}
use pigen.Source.{SourceSpan, invalid_span}

pub record RouteReadyNode : Type 0 where
  pub transfer : ℕ
  pub ready_dependency : ReadyDependency
  pub downstream : ℕ

pub record Route : Type 0 where
  pub unit : ℕ
  pub transfer_count : ℕ
  pub nodes : List RouteReadyNode
  pub check_valid : Bool
  pub check_span : SourceSpan

abbrev pub pigen_route_init : ℕ → Route
pigen_route_init id = record {
  unit = id;
  transfer_count = 0;
  nodes = [];
  check_valid = false;
  check_span = invalid_span;
}

abbrev pigen_route_free : Route → Route
pigen_route_free route = pigen_route_init invalid_id

-- The operations of src/data_type.c that routing calls: each takes the id of a type. An enum is its
-- number. `packed_width` is the packed width evaluated to 64 bits, `none` where it has no such value.
pub record DataTypes : Type 0 where
  pub signedness : ℕ → ℕ
  pub state_domain : ℕ → ℕ
  pub numerical_interpretation : ℕ → ℕ
  pub exact_value : ℕ → ℕ
  pub packed_width : ℕ → Option ℕ

-- PIGEN_TRANSFER_CONSUMER and PIGEN_TRANSFER_PRODUCER in the roles.
abbrev pub is_consumer : ℕ → Bool
is_consumer roles = roles / 4 % 2 == 1

abbrev pub is_producer : ℕ → Bool
is_producer roles = roles / 8 % 2 == 1

-- A flag as a condition: -1 counts.
abbrev pub is_set : Flag → Bool
is_set clear = false
is_set raised = true
is_set contextual = true

-- 0 or -1; `unreturned` is a call that does not return.
pub data Status : Type 0 where
  success failure unreturned : Status
