-- ===== src/PrinterA/Doors.antt =====
-- From the doors of products/printer_a, through the workers of their route, to the print-ready
-- capability.
use printer_fw.Base.{
  ℕ, ◌≡◌, refl, Bool, true, false, not, ◌&&◌, Option, none, some, List, [], ◌∷◌, ◌>>=◌, ◌==◌,
}
use printer_fw.Base.Maps
use printer_fw.Value.{create_bool, RimValue}
use printer_fw.Adapter.{RouteProvider, new_queues}
use printer_fw.Api.{
  RiManagerContext, Global, RiStatus, success, Response, written, set_value, set_item, get_with,
  get_found, set_bool, get_capability_bool, int_of,
}
use printer_fw.Queue
use printer_fw.Queue.{try_pop}
use printer_fw.Queue.Policies.{
  fifo_insert, coalescing_insert, priority_compression_insert, priority_insert, compress,
  erase_first,
}
use printer_fw.Value.{identity_store, ValueType-discrete}
use printer_fw.Value.Diff.{identity_diff}
use printer_fw.Value.Reads
use printer_fw.Storage.{store_in, store, get_or_create, find_data, get_all}
use printer_fw.Product.Lookup.{first}
use printer_fw.Product.Domains.{
  find_domain_id, entry_at, data_domain_map, capability_required_domain_map, add_capabilities,
  add_required, contains_id,
}
use printer_fw.Product.Context.{
  create, index_by, depend_on, dependency_map, number_from, resolve_route, resolve_route_by_type,
}
use printer_fw.Adapter.{
  dispatch, initialize, add_routes, add_items, emplace_queues, dispatch_to, find_queues, push_store,
}
use printer_fw.Store
use printer_fw.Store.{process_known, process_value, is_changed, store_and_announce}
use printer_fw.Capability
use printer_fw.Capability.{
  announce, publish_capability_changes, publish_capability, publish_facade_changes, publish_facade,
  evaluate_capability, evaluate_facade, evaluate, evaluate_in, store_changed, capability_snapshot,
  build_items, facade_snapshot, facade_items,
}
use printer_fw.RouteExecutor.{execute_store, execute_capability}
use printer_fw.Snapshot
use printer_fw.Snapshot.{find_current, try_get, try_get_bool, try_get_int32, try_get_double}
use printer_fw.Accessor.{try_get_capability, try_get_facade, find_in_domain}
use printer_fw.Api.Lifecycle.{new_context, rim_create}
use printer_fw.Api.Workers.{run_store, run_capability, run_pass, replace_queues}
use printer_fw.PrinterA.{
  upper_door_open, right_door_open, left_door_open, print_ready, operation_ready,
  identity_normalize, build_print_ready_capability, build_environment_capability,
  build_environment_ready_facade, build_operation_ready_facade, environment_level,
}
use printer_fw.PrinterA.Tables.{printer_a, value_route, data_route, error_route, facade_route}

-- What RIM_Create makes of the tables.
abbrev pub all_routes : RouteProvider
all_routes = record {
  queues =
      new_queues value_route
      ∷ new_queues data_route
      ∷ new_queues error_route
      ∷ new_queues facade_route
      ∷ [];
  routing_table =
      (1, "ValueRoute")
      ∷ (2, "ValueRoute")
      ∷ (3, "ValueRoute")
      ∷ (4, "ValueRoute")
      ∷ (5, "ValueRoute")
      ∷ (6, "ValueRoute")
      ∷ (7, "DataRoute")
      ∷ (8, "DataRoute")
      ∷ (9, "DataRoute")
      ∷ (10, "DataRoute")
      ∷ (11, "ErrorRoute")
      ∷ [];
}

abbrev pub created : (ℕ → ℕ → ℕ) → RiManagerContext
created add = new_context (printer_a add) all_routes

abbrev context_after : Option (Global × RiStatus) → Option RiManagerContext
context_after none = none
context_after (some (g, status)) = g

abbrev set_door : ℕ → ℕ → RiManagerContext → Option RiManagerContext
set_door id x g = context_after (set_bool (some g) id x)

abbrev passes : (ℕ → List ℕ) → RiManagerContext → Option RiManagerContext
passes caller g = run_store caller "ValueRoute" g >>= run_capability caller "ValueRoute"

-- The capability by its getter, and the facade by its accessor.
abbrev answers : RiManagerContext → Option (Response ℕ × Option RimValue)
answers g = some (
  get_capability_bool (some g) print_ready true,
  try_get_facade g.product_context g.domain_store operation_ready,
)

-- The three doors are set, the workers of their route make three passes each, and the capability
-- and the facade are read.
unfoldable pub answers_after :
    (ℕ → List ℕ) → RiManagerContext → ℕ → ℕ → ℕ → Option (Response ℕ × Option RimValue)
unfolding set_bool run_store run_capability get_capability_bool try_get_facade
answers_after caller g upper right left =
    set_door upper_door_open upper g
    >>= set_door right_door_open right
    >>= set_door left_door_open left
    >>= passes caller
    >>= passes caller
    >>= passes caller
    >>= answers

abbrev set_known : ℕ → Bool → RiManagerContext → Option RiManagerContext
set_known id x g = context_after (set_value (some g) id (create_bool x))

abbrev answers_known :
    (ℕ → List ℕ) → RiManagerContext → Bool → Bool → Bool → Option (Response ℕ × Option RimValue)
answers_known caller g upper right left =
    set_known upper_door_open (not upper) g
    >>= set_known right_door_open (not right)
    >>= set_known left_door_open (not left)
    >>= passes caller
    >>= passes caller
    >>= passes caller
    >>= answers

abbrev expected : Bool → Option (Response ℕ × Option RimValue)
expected ready = some (written (int_of ready), some (create_bool ready))

-- The eight cases, by which doors are closed.
known_doors :
    (add : ℕ → ℕ → ℕ) (caller : ℕ → List ℕ) (upper right left : Bool)
    → answers_known caller (created add) upper right left ≡ expected (upper && right && left)
unfolding set_value run_store run_capability get_capability_bool try_get_facade set_item dispatch
    dispatch_to find_queues push_store first Queue.push Queue.create fifo_insert coalescing_insert
    run_pass execute_store execute_capability replace_queues Store.execute_once
    Capability.execute_once try_pop Store.process process_known process_value is_changed
    store_and_announce store_in store get_or_create find_data Capability.process announce
    publish_capability_changes publish_capability publish_facade_changes publish_facade
    evaluate_capability evaluate_facade evaluate evaluate_in store_changed capability_snapshot
    build_items facade_snapshot facade_items get_all priority_compression_insert priority_insert
    compress erase_first create index_by depend_on dependency_map number_from resolve_route
    resolve_route_by_type find_domain_id entry_at data_domain_map capability_required_domain_map
    add_capabilities add_required contains_id Maps.find Maps.put Maps.erase Maps.emplace Maps.values
    identity_normalize identity_store identity_diff build_print_ready_capability
    build_environment_capability build_environment_ready_facade build_operation_ready_facade
    Snapshot.find find_current try_get try_get_bool try_get_int32 try_get_double environment_level
    get_with get_found try_get_capability find_in_domain Reads.get_bool Reads.get_int32
    Reads.get_value ValueType-discrete
known_doors add caller true true true = refl
known_doors add caller true true false = refl
known_doors add caller true false true = refl
known_doors add caller true false false = refl
known_doors add caller false true true = refl
known_doors add caller false true false = refl
known_doors add caller false false true = refl
known_doors add caller false false false = refl

-- RIM_Create succeeds on the tables of printer_a. From the context that it makes, whatever the
-- three values are that RIM_SetBool gives to the doors: after three passes of each of the two
-- workers of their route, RIM_GetCapabilityBool answers that printing is ready exactly when all
-- three were 0, and the facade that tells whether the operation is ready holds the same.
pub answers_after-created :
    (add : ℕ → ℕ → ℕ) (caller : ℕ → List ℕ) (upper right left : ℕ)
    → (rim_create (printer_a add) none ≡ some (some (created add), success))
      × (answers_after caller (created add) upper right left
          ≡ some (
            written (int_of ((upper == 0) && (right == 0) && (left == 0))),
            some (create_bool ((upper == 0) && (right == 0) && (left == 0))),
          ))
unfolding answers_after set_bool rim_create initialize add_routes add_items emplace_queues create
    index_by Maps.find Maps.emplace first
answers_after-created add caller upper right left =
    (refl, known_doors add caller (upper == 0) (right == 0) (left == 0))
