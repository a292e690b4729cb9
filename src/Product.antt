-- ===== src/Product.antt =====
-- The tables that describe a product: core/common/include/DomainDefinition.hpp,
-- RouteDefinition.hpp, DataItemDefinition.hpp, CapabilityItemDefinition.hpp,
-- FacadeItemDefinition.hpp and ProductDefinition.hpp. A pointer with its count is a list.
pub mod Lookup
pub mod Validate
pub mod Domains
pub mod Context
use Prim.Native.String.{String}
use printer_fw.Base.{ℕ, Bool, Option, List}
use printer_fw.Notification.{CompressionPolicy}
use printer_fw.Queue.{QueuePolicy}
use printer_fw.Value.{ValueType, RimValue, RimDataItem, Memory}

-- `address` is that of the definition, `pointer` that of its name.
pub record DomainDefinition : Type 0 where
  pub address : ℕ
  pub pointer : ℕ
  pub name : String

pub record RouteDefinition : Type 0 where
  pub id : ℕ
  pub name : String
  pub store_policy : QueuePolicy
  pub capability_policy : QueuePolicy
  pub compression_policy : CompressionPolicy
  pub minimum_notify_interval_ms : ℕ

abbrev pub NormalizeCallback : Type 0
NormalizeCallback = RimValue → Option RimValue

abbrev pub StoreCallback : Type 0
StoreCallback = RimValue → RimValue → Option RimValue

abbrev pub DiffCallback : Type 0
DiffCallback = Memory → RimValue → RimValue → Option Bool

-- `none` is a null pointer.
pub record DataItemDefinition : Type 0 where
  pub id : ℕ
  pub name : String
  pub domain : Option DomainDefinition
  pub route_id : ℕ
  pub raw_value_type : ValueType
  pub set_value_type : ValueType
  pub store_value_type : ValueType
  pub get_value_type : ValueType
  pub initial_value : RimValue
  pub normalize : NormalizeCallback
  pub store : StoreCallback
  pub diff : Option DiffCallback

-- core/storage/snapshot/include/RIMSnapshot.hpp. No code fills its `binaries_`.
pub record RimSnapshot : Type 0 where
  pub items : List RimDataItem

abbrev pub BuildCallback : Type 0
BuildCallback = Memory → RimSnapshot → Option RimValue

pub record CapabilityItemDefinition : Type 0 where
  pub id : ℕ
  pub name : String
  pub value_type : ValueType
  pub initial_value : RimValue
  pub build : BuildCallback
  pub diff : DiffCallback
  pub required_data_ids : List ℕ
  pub route_id : ℕ

pub record FacadeItemDefinition : Type 0 where
  pub id : ℕ
  pub name : String
  pub value_type : ValueType
  pub initial_value : RimValue
  pub build : BuildCallback
  pub diff : DiffCallback
  pub required_capability_ids : List ℕ
  pub route_id : ℕ

pub record ProductDefinition : Type 0 where
  pub domains : List DomainDefinition
  pub routes : List RouteDefinition
  pub data_items : List DataItemDefinition
  pub capabilities : List CapabilityItemDefinition
  pub facades : List FacadeItemDefinition
