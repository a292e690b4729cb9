-- ===== src/Typed.antt =====
-- The types of values on their way through the program. Every value that is stored or waits to be
-- stored has the union member that its tag names, provided that the callbacks of the product
-- (core/common/include/DataItemDefinition.hpp, CapabilityItemDefinition.hpp and
-- FacadeItemDefinition.hpp) answer with such values.
pub mod Stored
pub mod Evaluated
pub mod Tables
pub mod Queued
pub mod Routes
pub mod Passes
pub mod Defined
pub mod Handled
use printer_fw.Base.{ℕ, ◌≡◌, Option, none, some, List, All}
use printer_fw.Value.{Memory, RimValue, RimDataItem}
use printer_fw.Value.Reads.{Matches, IsWellTyped}
use printer_fw.Base.Maps.{AllValues}
use printer_fw.Storage.{Registry, PartitionStorage}
use printer_fw.Product.{
  DataItemDefinition, BuildCallback, CapabilityItemDefinition, FacadeItemDefinition, RimSnapshot,
  ProductDefinition,
}
use printer_fw.Product.Context.{ProductContext, find_data_item}

-- From a value of the raw type `normalize` makes one of the set type, and from that `store` makes
-- the content of one of the store type.
pub record ItemIsTyped (x : DataItemDefinition) : Type 0 where
  pub normalized :
      (v r : RimValue)
      → IsWellTyped v
      → v.type ≡ x.raw_value_type
      → x.normalize v ≡ some r
      → IsWellTyped r × (r.type ≡ x.set_value_type)
  pub stored :
      (c v r : RimValue)
      → IsWellTyped v
      → v.type ≡ x.set_value_type
      → x.store c v ≡ some r
      → Matches x.store_value_type r.value

abbrev pub BuildIsTyped : BuildCallback → Type 0
BuildIsTyped build =
    (memory : Memory) (snapshot : RimSnapshot) (v : RimValue)
    → build memory snapshot ≡ some v
    → IsWellTyped v

pub record ProductIsTyped (p : ProductDefinition) : Type 0 where
  pub items : All ItemIsTyped p.data_items
  pub capabilities : All (λ c. BuildIsTyped c.build) p.capabilities
  pub facades : All (λ f. BuildIsTyped f.build) p.facades

abbrev pub StorageIsTyped : PartitionStorage → Type 0
StorageIsTyped s = AllValues (λ item. IsWellTyped item.value) s.items

abbrev pub RegistryIsTyped : Registry → Type 0
RegistryIsTyped r = AllValues StorageIsTyped r

-- An item that waits in a queue: the product knows it, and its value has the set type.
pub record Waits (context : ProductContext) (item : RimDataItem) : Type 0 where
  pub definition : DataItemDefinition
  pub known : find_data_item context item.id ≡ some definition
  pub typed : IsWellTyped item.value
  pub set_type : item.value.type ≡ definition.set_value_type
