-- ===== src/RouteExecutor.antt =====
-- core/common/src/RouteExecutor.cpp: the two workers of one route, over the storages that all
-- routes share.
pub mod Pass
use Prim.Native.String.{String}
use printer_fw.Base.{ℕ, Bool, true, false, Option, none, some, List, ◌>>=◌, if◌then◌else◌}
use printer_fw.Notification.{PublisherInput}
use printer_fw.Queue.{EventQueue, create, shut}
use printer_fw.Value.{RimDataItem}
use printer_fw.Storage.{Registry}
use printer_fw.Product.Context.{ProductContext}
use printer_fw.Store
use printer_fw.Store.{StoreState}
use printer_fw.Capability
use printer_fw.Capability.{CapabilityState}
use printer_fw.Adapter.{RouteQueues}

-- `CapabilityInput` is an id.
abbrev pub capability_key : ℕ → ℕ
capability_key id = id

-- The queues of the route, and what its workers share with those of the other routes.
pub record RouteState : Type 0 where
  pub queues : RouteQueues
  pub domain_store : Registry
  pub publisher_queue : EventQueue PublisherInput

abbrev pub capability_insert : RouteQueues → List ℕ → ℕ → List ℕ
capability_insert queues = create capability_key queues.capability_policy

abbrev pub store_view : RouteState → StoreState
store_view s = record {
  queue = s.queues.store_queue;
  domain_store = s.domain_store;
  capability_queue = s.queues.capability_queue;
}

abbrev pub with_store : RouteState → StoreState → RouteState
with_store s t = record s {
  queues = record s.queues { store_queue = t.queue; capability_queue = t.capability_queue };
  domain_store = t.domain_store;
}

abbrev pub capability_view : RouteState → CapabilityState
capability_view s = record {
  queue = s.queues.capability_queue;
  store = s.domain_store;
  publisher_queue = s.publisher_queue;
}

abbrev pub with_capability : RouteState → CapabilityState → RouteState
with_capability s t = record s {
  queues = record s.queues { capability_queue = t.queue };
  domain_store = t.store;
  publisher_queue = t.publisher_queue;
}

module _ (caller : ℕ → List ℕ) (context : ProductContext) where
  -- `dataStoreWorker_->ExecuteOnce()` and `capabilityWorker_->ExecuteOnce()`
  unfoldable pub execute_store : RouteState → Option (RouteState × Bool)
  execute_store s =
      Store.execute_once caller (capability_insert s.queues) context (store_view s) >>= λ answer.
      some (with_store s answer.0, answer.1)

  unfoldable pub execute_capability : RouteState → Option (RouteState × Bool)
  execute_capability s = Capability.execute_once caller context (capability_view s) >>= λ answer.
      some (with_capability s answer.0, answer.1)

  -- The early return of ExecuteOnce.
  unfoldable pub execute_rest : RouteState × Bool → Option (RouteState × Bool)
  unfolding execute_capability
  execute_rest (s, false) = some (s, false)
  execute_rest (s, true) = execute_capability s

  -- ExecuteOnce
  unfoldable pub execute_once : RouteState → Option (RouteState × Bool)
  unfolding execute_store execute_rest
  execute_once s = execute_store s >>= execute_rest

-- The flags of the executor and of its workers.
pub record RouteExecutor : Type 0 where
  pub name : String
  pub stopped : Bool
  pub store_running : Bool
  pub capability_running : Bool

abbrev pub new_executor : RouteQueues → RouteExecutor
new_executor queues = record {
  name = queues.name;
  stopped = false;
  store_running = false;
  capability_running = false;
}

unfoldable pub start : RouteExecutor → RouteExecutor
start e = record e { store_running = true; capability_running = true }

-- The queues of workers that run are shut.
unfoldable pub stop_queues : RouteExecutor → RouteQueues → RouteQueues
stop_queues e q = if e.stopped then q else record q {
  store_queue = if e.store_running then shut q.store_queue else q.store_queue;
  capability_queue = if e.capability_running then shut q.capability_queue else q.capability_queue;
}

unfoldable pub stop : RouteExecutor → RouteExecutor
stop e =
    if e.stopped
    then e
    else record e { stopped = true; store_running = false; capability_running = false }
