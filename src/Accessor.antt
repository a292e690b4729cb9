-- ===== src/Accessor.antt =====
-- core/storage/accessor: CapabilityAccessor.hpp, FacadeAccessor.hpp and DataAccessor.cpp. They
-- read the storages through the product context.
use printer_fw.Base.{ℕ, Option, none, some, ◌==◌, if◌then◌else◌}
use printer_fw.Base.Maps
use printer_fw.Value.{RimValue, RimDataItem}
use printer_fw.Storage.{
  Registry, PartitionStorage, BinaryInfo, find_data, get_binary_hash, get_binary_info,
}
use printer_fw.Product.Domains.{invalid_domain_id}
use printer_fw.Product.Context.{
  ProductContext, find_data_domain_id, find_capability_domain_id, find_facade_domain_id,
}

-- The item with this id in the storage of the domain, unless the domain id is invalid.
unfoldable pub find_in_domain : Registry → ℕ → ℕ → Option RimDataItem
unfolding find_data
find_in_domain r domain id = if domain == invalid_domain_id then none else find_data r domain id

abbrev pub value_of : Option RimDataItem → Option RimValue
value_of none = none
value_of (some item) = some item.value

-- `CapabilityAccessor::TryGet`
unfoldable pub try_get_capability : ProductContext → Registry → ℕ → Option RimValue
unfolding find_in_domain
try_get_capability context r id =
    value_of (find_in_domain r (find_capability_domain_id context id) id)

-- `FacadeAccessor::TryGet`
unfoldable pub try_get_facade : ProductContext → Registry → ℕ → Option RimValue
unfolding find_in_domain
try_get_facade context r id = value_of (find_in_domain r (find_facade_domain_id context id) id)

-- `DataAccessor`
unfoldable pub try_get_data : ProductContext → Registry → ℕ → Option RimDataItem
unfolding find_in_domain
try_get_data context r id = find_in_domain r (find_data_domain_id context id) id

-- Through the storage of a domain, unless there is none.
abbrev in_storage : {A : Type 0} → Registry → ℕ → (PartitionStorage → Option A) → Option A
in_storage r domain read =
    if domain == invalid_domain_id
    then none
    else elim (Maps.find domain r) [ none ↦ none | some storage ↦ read storage ]

unfoldable pub get_data_hash : ProductContext → Registry → ℕ → Option ℕ
get_data_hash context r id =
    in_storage r (find_data_domain_id context id) (λ storage. get_binary_hash storage id)

unfoldable pub get_data_info : ProductContext → Registry → ℕ → Option BinaryInfo
get_data_info context r id =
    in_storage r (find_data_domain_id context id) (λ storage. get_binary_info storage id)
