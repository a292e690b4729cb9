-- ===== src/Tests/Capabilities.antt =====
-- A change of one data item goes through a capability and a facade.
use printer_fw.Base.{ℕ, ◌≡◌, ◌≢◌, refl, false, some, List, [], ◌∷◌}
use printer_fw.Base.Maps
use printer_fw.Notification.{
  data_item, capability, facade, NotificationTarget, PublisherInput, low, keep_latest,
}
use printer_fw.Queue.{empty, push}
use printer_fw.Queue.Policies.{priority_insert, compress, erase_first, priority_compression_insert}
use printer_fw.Value.{create_uint32}
use printer_fw.Storage.{PartitionStorage, store, store_in, get_or_create}
use printer_fw.Product.Domains.{find_domain_id, entry_at}
use printer_fw.Product.Context
use printer_fw.Product.Context.{ProductContext, create}
use printer_fw.Capability
use printer_fw.Capability.{CapabilityState, process}
use printer_fw.Capability.Progress.{Extends, Waits, process-Extends}
use printer_fw.Tests.Products.{product}

abbrev caller : ℕ → List ℕ
caller a = []

abbrev start : CapabilityState
start = record { queue = empty; store = []; publisher_queue = empty }

abbrev event : NotificationTarget → PublisherInput
event target = record { target = target; priority = low; compression_policy = keep_latest }

abbrev one_item : ℕ → ℕ → PartitionStorage
one_item domain id = record {
  address = domain;
  items = (id, record { id = id; value = create_uint32 1 }) ∷ [];
  binaries = [];
}

abbrev after : CapabilityState
after = record {
  queue = empty;
  store = (2, one_item 2 20) ∷ (3, one_item 3 30) ∷ [];
  publisher_queue = record {
    shutdown = false;
    events =
        event (record { type = data_item; id = 10 })
        ∷ event (record { type = capability; id = 20 })
        ∷ event (record { type = facade; id = 30 })
        ∷ [];
  };
}

item_processed : process caller (create product) start 10 ≡ some after
unfolding process Capability.announce Capability.publish_capability_changes
    Capability.publish_capability Capability.publish_facade_changes Capability.publish_facade
    Capability.evaluate_capability Capability.evaluate_facade Capability.evaluate
    Capability.evaluate_in Capability.store_changed create Context.index_by Context.depend_on
    Context.dependency_map Context.number_from Context.resolve_route Context.resolve_route_by_type
    find_domain_id entry_at push priority_compression_insert compress erase_first priority_insert
    store_in store get_or_create Maps.find Maps.put Maps.erase Maps.emplace
item_processed = refl

process-Extends_example :
    Extends start after
    × (◌≢◌ {A = ℕ} 10 4294967295
        → false ≡ false
        → Waits (record { type = data_item; id = 10 }) after.publisher_queue)
process-Extends_example = process-Extends caller (create product) start after 10 item_processed
