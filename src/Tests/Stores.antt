-- ===== src/Tests/Stores.antt =====
-- One data item goes through the worker.
use printer_fw.Base.{ℕ, ◌≡◌, ◌≢◌, ◌⊎◌, refl, false, some, List, [], ◌∷◌, ◌==◌}
use printer_fw.Base.Maps
use printer_fw.Queue.{empty, push}
use printer_fw.Queue.Policies.{fifo_insert}
use printer_fw.Value.{
  Memory, client, RimDataItem, create_uint32, create_binary, k_uint32, read_bytes,
  calculate_binary_hash, identity_store,
}
use printer_fw.Value.Diff.{identity_diff}
use printer_fw.Storage.{BinaryInfo, find_data, store, store_in}
use printer_fw.Storage.Registry.{IsSound, empty-IsSound}
use printer_fw.Product.Domains.{invalid_domain_id, find_domain_id, data_domain_map}
use printer_fw.Product.Context.{
  ProductContext, create, index_by, find_data_item, find_data_domain_id,
}
use printer_fw.Store.{
  StoreState, process, process_known, process_value, is_changed, store_and_announce, diff_values,
}
use printer_fw.Store.Process.{process-IsSound}
use printer_fw.Store.{worker_loop}
use printer_fw.Store.Table.{IsWritable, AllTyped, table_of, write_all, worker_loop-write_all}
use printer_fw.Store.Hash.{diff_values-hashed}
use printer_fw.Store.Settle.{
  IsPlain, Settles, stored_item, CurrentIsWellTyped, process-Settles, process-process,
}
use printer_fw.Tests.Products.{product, sheets}

abbrev caller : ℕ → List ℕ
caller a = []

abbrev context : ProductContext
context = create product

abbrev item : RimDataItem
item = record { id = 11; value = create_uint32 250 }

abbrev start : StoreState
start = record { queue = empty; domain_store = []; capability_queue = empty }

item_known : find_data_item context 11 ≡ some sheets
unfolding create index_by Maps.find Maps.emplace
item_known = refl

item_valid : (find_data_domain_id context 11 == invalid_domain_id) ≡ false
unfolding create find_domain_id data_domain_map Maps.find Maps.emplace Maps.put
item_valid = refl

sheets_plain : IsPlain sheets k_uint32
sheets_plain = record { word = tt; stored_as = refl; keeps = refl; compares = refl }

nothing_stored : CurrentIsWellTyped (stored_item context item start)
unfolding find_data Maps.find
nothing_stored = tt

process-Settles_example : Settles caller fifo_insert context item start
process-Settles_example =
    process-Settles caller fifo_insert context sheets item item_known item_valid sheets_plain
      (250, refl) start nothing_stored

-- The state after the pass.
abbrev settled_state : StoreState
settled_state = record {
  queue = empty;
  domain_store = (1, record { address = 1; items = (11, item) ∷ []; binaries = [] }) ∷ [];
  capability_queue = record { shutdown = false; events = 11 ∷ [] };
}

item_settles : process caller fifo_insert context start item ≡ some settled_state
unfolding process process_known process_value is_changed store_and_announce create index_by
    find_domain_id data_domain_map identity_store find_data store_in store push fifo_insert
    Maps.find Maps.emplace Maps.put Maps.erase
item_settles = refl

process-process_example : process caller fifo_insert context settled_state item ≡ some settled_state
process-process_example =
    process-process caller fifo_insert context sheets item item_known item_valid sheets_plain
      (250, refl) start settled_state nothing_stored item_settles

process-IsSound_example :
    IsSound settled_state.domain_store
    × ((domain : ℕ)
        → find_data_domain_id context 11 ≢ domain
        → Maps.find domain settled_state.domain_store ≡ Maps.find domain [])
    × ((settled_state ≡ start)
        ⊎ (settled_state.capability_queue ≡ (push fifo_insert start.capability_queue 11).0))
process-IsSound_example =
    process-IsSound caller fifo_insert context start settled_state item item_settles empty-IsSound

abbrev memory : Memory
memory p = 1 ∷ 2 ∷ 3 ∷ []

abbrev two_bytes : List ℕ
two_bytes = 1 ∷ 2 ∷ []

abbrev info : BinaryInfo
info = record { pointer = client 0; size = 2; hash = calculate_binary_hash two_bytes }

readable : read_bytes memory (client 0) 2 ≡ some two_bytes
unfolding read_bytes
readable = refl

diff_values-hashed_example :
    diff_values memory identity_diff
      (some info)
      (create_binary (client 0) 2)
      (create_binary (client 0) 2)
    ≡ identity_diff memory (create_binary (client 0) 2) (create_binary (client 0) 2)
diff_values-hashed_example =
    diff_values-hashed memory info (client 0) (client 0) 2 2 two_bytes two_bytes readable readable
      refl refl

-- Two writes to one item.
abbrev writes : List RimDataItem
writes = item ∷ record { id = 11; value = create_uint32 249 } ∷ []

item-IsWritable : (n : ℕ) → IsWritable context (record { id = 11; value = create_uint32 n })
item-IsWritable n = record {
  definition = sheets;
  known = item_known;
  valid = item_valid;
  plain = sheets_plain;
  typed = (n, refl);
}

nothing_typed : AllTyped context []
unfolding find_data Maps.find
nothing_typed j = tt

abbrev with_writes : StoreState
with_writes = record start { queue = record { shutdown = false; events = writes } }

worker_loop-write_all_example :
    (t : StoreState) × (worker_loop caller fifo_insert context 2 with_writes ≡ some t)
    × (t.queue ≡ record { shutdown = false; events = [] })
    × (table_of context t.domain_store ≡ write_all writes (table_of context []))
worker_loop-write_all_example =
    worker_loop-write_all caller fifo_insert context with_writes
      (item-IsWritable 250, (item-IsWritable 249, tt)) empty-IsSound nothing_typed
