-- ===== src/Store.antt =====
-- core/store/src/DataStoreWorker.cpp. `none` as a result is undefined behaviour of the C++ code.
pub mod Process
pub mod Hash
pub mod Settle
pub mod Binary
pub mod Table
use printer_fw.Base.{
  ℕ, zero, suc, ite, Bool, true, false, Option, none, some, List, [], ◌∷◌, ◌==◌, if◌then◌else◌,
  ◌>>=◌,
}
use printer_fw.Queue.{EventQueue, push, try_pop, wait_and_pop, Wait, blocked, woken}
use printer_fw.Value.{
  ValueType, k_binary, ValueType-discrete, BytesPointer, Memory, RimValue, RimDataItem,
  default_value, calculate_binary_hash, read_bytes,
}
use printer_fw.Value.Reads.{Read, mismatch, inactive, found, get_binary}
use printer_fw.Base.Maps
use printer_fw.Storage.{
  Registry, PartitionStorage, BinaryInfo, find_item, get_binary_info, find_data, store_in,
  memory_of,
}
use printer_fw.Product.{DataItemDefinition, DiffCallback}
use printer_fw.Product.Domains.{invalid_domain_id, find_domain_id}
use printer_fw.Product.Context.{ProductContext, find_data_item, find_data_domain_id}

-- What the worker reads and writes: the queue of items, the storages, and the queue of the ids
-- whose data changed (`CapabilityInput`).
pub record StoreState : Type 0 where
  pub queue : EventQueue RimDataItem
  pub domain_store : Registry
  pub capability_queue : EventQueue ℕ

-- The comparison by size and hash in front of the item's own comparison.
unfoldable pub diff_hashed :
    Memory → DiffCallback → BinaryInfo → RimValue → RimValue → BytesPointer × ℕ → Option Bool
diff_hashed memory diff info current new (pointer, size) =
    if info.size == size
    then (do
      contents ← read_bytes memory pointer size
      if info.hash == calculate_binary_hash contents then diff memory current new else some true)
    else some true

unfoldable pub diff_binary :
    Memory → DiffCallback → Option BinaryInfo → RimValue → RimValue → Option Bool
unfolding diff_hashed
diff_binary memory diff none current new = diff memory current new
diff_binary memory diff (some info) current new = elim (get_binary new) [
  | mismatch ↦ diff memory current new
  | inactive ↦ none
  | found bytes ↦ diff_hashed memory diff info current new bytes
]

-- `changed`, for an item that exists and has a comparison.
unfoldable pub diff_values :
    Memory → DiffCallback → Option BinaryInfo → RimValue → RimValue → Option Bool
unfolding diff_binary
diff_values memory diff info current new =
    ite (ValueType-discrete current.type k_binary)
      (ite (ValueType-discrete new.type k_binary) (diff_binary memory diff info current new)
        (diff memory current new))
      (diff memory current new)

-- `storage->GetBinaryInfo`, through the storage of the domain.
abbrev pub binary_info : Registry → ℕ → ℕ → Option BinaryInfo
binary_info r domain id = elim (Maps.find domain r) [ none ↦ none | some s ↦ get_binary_info s id ]

unfoldable pub is_changed :
    Memory → DataItemDefinition → Option BinaryInfo → Option RimDataItem → RimValue → Option Bool
unfolding diff_values
is_changed memory definition info none new = some true
is_changed memory definition info (some current) new = elim definition.diff [
  | none ↦ some true
  | some diff ↦ diff_values memory diff info current.value new
]

abbrev pub current_value : Option RimDataItem → RimValue
current_value none = default_value
current_value (some current) = current.value

-- `domainStore_.GetOrCreate(domainId).Store(item)` and the push that follows it.
unfoldable pub store_and_announce :
    Memory → (List ℕ → ℕ → List ℕ) → ℕ → StoreState → RimDataItem → Option StoreState
store_and_announce memory insert domain s item = do
  domain_store ← store_in memory domain item s.domain_store
  some (record s {
    domain_store = domain_store;
    capability_queue = (push insert s.capability_queue item.id).0;
  })

-- From the comparison on: `new` is the value to be stored.
unfoldable pub process_value :
    Memory
    → (List ℕ → ℕ → List ℕ)
    → DataItemDefinition
    → ℕ
    → StoreState
    → RimDataItem
    → RimValue
    → Option StoreState
process_value memory insert definition domain s item new = do
  changed ←
      is_changed memory definition (binary_info s.domain_store domain item.id)
        (find_data s.domain_store domain item.id) new
  if changed
      then store_and_announce memory insert domain s (record item { value = new })
      else some s

-- The part of `Process` behind its two early returns. `insert` is the policy of the capability
-- queue, `caller` the memory of the callers.
unfoldable pub process_known :
    (ℕ → List ℕ)
    → (List ℕ → ℕ → List ℕ)
    → DataItemDefinition
    → ℕ
    → StoreState
    → RimDataItem
    → Option StoreState
process_known caller insert definition domain s item = do
  stored ← definition.store (current_value (find_data s.domain_store domain item.id)) item.value
  process_value (memory_of caller s.domain_store) insert definition domain s item
      (record stored { type = definition.store_value_type })

-- Process
unfoldable pub process :
    (ℕ → List ℕ)
    → (List ℕ → ℕ → List ℕ)
    → ProductContext
    → StoreState
    → RimDataItem
    → Option StoreState
process caller insert context s item = elim (find_data_item context item.id) [
  | none ↦ some s
  | some definition ↦
      if find_data_domain_id context item.id == invalid_domain_id
      then some s
      else process_known caller insert definition (find_data_domain_id context item.id) s item
]

-- ExecuteOnce
unfoldable pub execute_once :
    (ℕ → List ℕ) → (List ℕ → ℕ → List ℕ) → ProductContext → StoreState → Option (StoreState × Bool)
execute_once caller insert context s = elim (try_pop s.queue).1 [
  | none ↦ some (s, false)
  | some item ↦ do
    s' ← process caller insert context (record s { queue = (try_pop s.queue).0 }) item
    some (s', true)
]

-- A round of WorkerLoop while the worker runs, by what the wait brings: without an item the thread
-- waits on, or leaves the loop.
unfoldable pub round :
    (ℕ → List ℕ)
    → (List ℕ → ℕ → List ℕ)
    → ProductContext
    → StoreState
    → Wait RimDataItem
    → Option StoreState
unfolding process
round caller insert context s blocked = some s
round caller insert context s (woken q none) = some (record s { queue = q })
round caller insert context s (woken q (some item)) =
    process caller insert context (record s { queue = q }) item

-- WorkerLoop, for a number of rounds; `stop` and the threads that push are in module Worker.
unfoldable pub worker_loop :
    (ℕ → List ℕ) → (List ℕ → ℕ → List ℕ) → ProductContext → ℕ → StoreState → Option StoreState
unfolding round wait_and_pop
worker_loop caller insert context zero s = some s
worker_loop caller insert context (suc n) s =
    round caller insert context s (wait_and_pop s.queue) >>= worker_loop caller insert context n
