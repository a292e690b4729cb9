-- ===== src/Adapter.antt =====
-- core/common/src/RouteProvider.cpp and core/adapter/src/AdapterDispatcher.cpp. `none` is a failed
-- assertion, or undefined behaviour of a callback.
pub mod Routing
use Prim.Native.String.{String}
use text.Mathlib.Text.{◌==◌ as str_eq}
use printer_fw.Base.{
  ℕ, ite, Bool, true, false, Option, none, some, List, [], ◌∷◌, ◌++◌, ◌>>=◌, if◌then◌else◌,
}
use printer_fw.Base.Maps
use printer_fw.Queue
use printer_fw.Queue.{EventQueue, QueuePolicy, empty}
use printer_fw.Value.{ValueType-discrete, RimValue, RimDataItem, compression_key}
use printer_fw.Product.{RouteDefinition, DataItemDefinition}
use printer_fw.Product.Lookup.{first}
use printer_fw.Product.Validate.{is_found}
use printer_fw.Product.Context.{ProductContext, find_data_item, find_route}

-- The queues of one route name, with the policies of the objects behind the `IQueue`s.
pub record RouteQueues : Type 0 where
  pub name : String
  pub store_policy : QueuePolicy
  pub capability_policy : QueuePolicy
  pub store_queue : EventQueue RimDataItem
  pub capability_queue : EventQueue ℕ

-- A pointer into `queues_` is the name of the entry.
pub record RouteProvider : Type 0 where
  pub queues : List RouteQueues
  pub routing_table : List (ℕ × String)

abbrev pub new_queues : RouteDefinition → RouteQueues
new_queues route = record {
  name = route.name;
  store_policy = route.store_policy;
  capability_policy = route.capability_policy;
  store_queue = empty;
  capability_queue = empty;
}

abbrev pub find_named : List RouteQueues → String → Option RouteQueues
find_named queues name = first (λ q. str_eq q.name name) queues

-- `queues_.emplace(route.name, …)`: an entry that is there stays.
unfoldable pub emplace_queues : List RouteQueues → RouteDefinition → List RouteQueues
unfolding first
emplace_queues queues route =
    if is_found (find_named queues route.name) then queues else queues ++ new_queues route ∷ []

unfoldable pub add_routes : List RouteQueues → List RouteDefinition → List RouteQueues
unfolding emplace_queues
add_routes queues [] = queues
add_routes queues (route ∷ routes) = add_routes (emplace_queues queues route) routes

-- The second loop.
unfoldable pub add_items :
    ProductContext
    → List RouteQueues
    → List (ℕ × String)
    → List DataItemDefinition
    → Option (List (ℕ × String))
unfolding first
add_items context queues table [] = some table
add_items context queues table (item ∷ items) = find_route context item.route_id >>= λ route.
    find_named queues route.name >>= λ q.
    add_items context queues (Maps.emplace item.id q.name table) items

-- Initialize
unfoldable pub initialize : ProductContext → Option RouteProvider
unfolding add_routes add_items
initialize context =
    let queues = add_routes [] context.product.routes in
    add_items context queues [] context.product.data_items >>= λ table.
    some (record { queues = queues; routing_table = table })

-- Find
unfoldable pub find_queues : RouteProvider → ℕ → Option RouteQueues
unfolding first
find_queues provider id = Maps.find id provider.routing_table >>= find_named provider.queues

-- `queue->storeQueue->Push(item)`, for the queues with this name.
unfoldable pub push_store : String → RimDataItem → List RouteQueues → List RouteQueues
push_store name item [] = []
push_store name item (q ∷ queues) =
    let rest = push_store name item queues in
    if str_eq q.name name
    then record q {
      store_queue = (Queue.push (Queue.create compression_key q.store_policy) q.store_queue item).0;
    }
      ∷ queues
    else q ∷ rest

unfoldable pub dispatch_to : RouteProvider → RimDataItem → Option RouteQueues → RouteProvider × Bool
unfolding push_store
dispatch_to provider item none = (provider, false)
dispatch_to provider item (some q) =
    (record provider { queues = push_store q.name item provider.queues }, true)

-- Dispatch
unfoldable pub dispatch :
    ProductContext → RouteProvider → RimDataItem → Option (RouteProvider × Bool)
unfolding dispatch_to find_queues ValueType-discrete
dispatch context provider item = elim (find_data_item context item.id) [
  | none ↦ some (provider, false)
  | some definition ↦
      ite (ValueType-discrete item.value.type definition.raw_value_type)
        (do
          set_value ← definition.normalize item.value
          some (
              dispatch_to provider (record { id = item.id; value = set_value })
                (find_queues provider item.id)))
        (some (provider, false))
]
