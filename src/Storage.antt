-- ===== src/Storage.antt =====
-- core/storage/include/PartitionStorage.hpp and PartitionStorageRegistry.hpp, with BinaryEntry.hpp
-- and BinaryInfo.hpp. A call runs under the lock of its object, so it is one step on the state.
-- Two storages never share an address, and a storage stays where it is: the registry creates one
-- for each domain and frees none, so the domain's id serves as the address of its storage.
pub mod Consistency
pub mod Registry
use printer_fw.Base.{
  ℕ, ◌≡◌, ite, Bool, true, false, Option, none, some, List, [], ◌∷◌, ◌++◌, length, if◌then◌else◌,
  ◌==◌, ◌&&◌,
}
use printer_fw.Base.Maps
use printer_fw.Value.{
  ValueType, k_binary, ValueType-discrete, BytesPointer, null, client, buffer, Memory,
  RimValueStorage, b, i32, u32, i64, u64, d, str, bytes, RimValue, RimDataItem,
  calculate_binary_hash, read_bytes, hash_from,
}
use printer_fw.Value.Reads.{member_bytes}

pub record BinaryEntry : Type 0 where
  pub contents : List ℕ
  pub hash : ℕ

pub record BinaryInfo : Type 0 where
  pub pointer : BytesPointer
  pub size : ℕ
  pub hash : ℕ

pub record PartitionStorage : Type 0 where
  pub address : ℕ
  pub items : List (ℕ × RimDataItem)
  pub binaries : List (ℕ × BinaryEntry)

abbrev pub empty_storage : ℕ → PartitionStorage
empty_storage address = record { address = address; items = []; binaries = [] }

-- `BinaryEntry::Set`: the bytes are copied. They are not the entry's own (`is_own`).
unfoldable pub set_entry : Memory → BytesPointer → ℕ → Option BinaryEntry
unfolding read_bytes
set_entry memory p size = elim (read_bytes memory p size) [
  | none ↦ none
  | some contents ↦ some (record { contents = contents; hash = calculate_binary_hash contents })
]

-- The item as it is kept, with its pointer led to the storage's own buffer. An empty vector's
-- `data()` may be null or not, as the standard leaves open; `buffer` stands for it too. RIM_SetBinary
-- rejects a size of zero, so that an empty buffer comes from the callbacks of a product only.
abbrev pub stored_binary : ℕ → RimDataItem → BinaryEntry → RimDataItem
stored_binary address item entry = record item {
  value = record {
    type = item.value.type;
    value = bytes (buffer address item.id);
    size = length entry.contents;
  };
}

-- The pointer leads into the buffer that is to be assigned: `assign` from a vector's own range is
-- undefined.
abbrev pub is_own : ℕ → ℕ → BytesPointer → Bool
is_own address id (buffer a i) = a == address && i == id
is_own address id _ = false

unfoldable pub store_binary :
    Memory → PartitionStorage → RimDataItem → Option BytesPointer → Option PartitionStorage
unfolding set_entry
store_binary memory s item none = none
store_binary memory s item (some p) =
    if is_own s.address item.id p then none else elim (set_entry memory p item.value.size) [
      | none ↦ none
      | some entry ↦ some (record s {
        binaries = Maps.put item.id entry s.binaries;
        items = Maps.put item.id (stored_binary s.address item entry) s.items;
      })
    ]

-- Store
unfoldable pub store : Memory → PartitionStorage → RimDataItem → Option PartitionStorage
unfolding store_binary ValueType-discrete
store memory s item =
    ite (ValueType-discrete item.value.type k_binary)
      (store_binary memory s item (member_bytes item.value.value))
      (some (record s {
        binaries = Maps.erase item.id s.binaries;
        items = Maps.put item.id item s.items;
      }))

-- Find
abbrev pub find_item : PartitionStorage → ℕ → Option RimDataItem
find_item s id = Maps.find id s.items

-- GetAll
unfoldable pub get_all : PartitionStorage → List RimDataItem
unfolding Maps.values
get_all s = Maps.values s.items

unfoldable pub get_binary_hash : PartitionStorage → ℕ → Option ℕ
get_binary_hash s id = elim (Maps.find id s.binaries) [ none ↦ none | some e ↦ some e.hash ]

unfoldable pub get_binary_info : PartitionStorage → ℕ → Option BinaryInfo
get_binary_info s id = elim (Maps.find id s.binaries) [
  | none ↦ none
  | some e ↦
      some (record { pointer = buffer s.address id; size = length e.contents; hash = e.hash })
]

abbrev pub Registry : Type 0
Registry = List (ℕ × PartitionStorage)

-- GetOrCreate
unfoldable pub get_or_create : ℕ → Registry → PartitionStorage × Registry
get_or_create id r = elim (Maps.find id r) [
  | none ↦ (empty_storage id, Maps.put id (empty_storage id) r)
  | some s ↦ (s, r)
]

-- `GetOrCreate(id).Store(item)`
unfoldable pub store_in : Memory → ℕ → RimDataItem → Registry → Option Registry
unfolding get_or_create
store_in memory id item r =
    let (s, r') = get_or_create id r in
    elim (store memory s item) [ none ↦ none | some s' ↦ some (Maps.put id s' r') ]

-- GetDomainIds
unfoldable pub get_domain_ids : Registry → List ℕ
unfolding Maps.keys
get_domain_ids r = Maps.keys r

-- FindData
unfoldable pub find_data : Registry → ℕ → ℕ → Option RimDataItem
find_data r domain id = elim (Maps.find domain r) [ none ↦ none | some s ↦ find_item s id ]

-- `GetAll` of the registry.
unfoldable pub get_all_domains : Registry → List RimDataItem
unfolding get_all
get_all_domains [] = []
get_all_domains ((id, s) ∷ r) = get_all s ++ get_all_domains r

-- What a pointer leads to, given the caller's memory.
unfoldable pub memory_of : (ℕ → List ℕ) → Registry → Memory
memory_of caller r null = []
memory_of caller r (client a) = caller a
memory_of caller r (buffer address id) = elim (Maps.find address r) [
  | none ↦ []
  | some s ↦ elim (Maps.find id s.binaries) [ none ↦ [] | some e ↦ e.contents ]
]
