-- ===== src/Tests/Runs.antt =====
-- Runs of the program on the tables of products/printer_a.
use printer_fw.Base.{ℕ, ◌≡◌, refl, true, Option, none, some, List, []}
use printer_fw.Base.Maps
use printer_fw.Value.{create_bool}
use printer_fw.Api.{
  RiManagerContext, Global, RiStatus, success, written, set_value, set_item, get_with, get_found,
  get_capability_bool, int_of,
}
use printer_fw.Queue
use printer_fw.Queue.{try_pop}
use printer_fw.Queue.Policies.{
  fifo_insert, coalescing_insert, priority_compression_insert, priority_insert, compress,
  erase_first,
}
use printer_fw.Value.{identity_store, ValueType-discrete}
use printer_fw.Value.Diff.{identity_diff}
use printer_fw.Value.Reads
use printer_fw.Storage.{store_in, store, get_or_create, find_data, get_all}
use printer_fw.Product.Lookup.{first}
use printer_fw.Product.Domains.{
  find_domain_id, entry_at, data_domain_map, capability_required_domain_map, add_capabilities,
  add_required, contains_id,
}
use printer_fw.Product.Context.{
  create, index_by, depend_on, dependency_map, number_from, resolve_route, resolve_route_by_type,
}
use printer_fw.Adapter.{dispatch, dispatch_to, find_queues, push_store}
use printer_fw.Store
use printer_fw.Store.{process_known, process_value, is_changed, store_and_announce}
use printer_fw.Capability
use printer_fw.Capability.{
  announce, publish_capability_changes, publish_capability, publish_facade_changes, publish_facade,
  evaluate_capability, evaluate_facade, evaluate, evaluate_in, store_changed, capability_snapshot,
  build_items, facade_snapshot, facade_items,
}
use printer_fw.RouteExecutor.{execute_store, execute_capability}
use printer_fw.Snapshot
use printer_fw.Snapshot.{find_current, try_get, try_get_bool, try_get_int32, try_get_double}
use printer_fw.Accessor.{try_get_capability, try_get_facade, find_in_domain}
use printer_fw.Api.Workers.{run_store, run_capability, run_pass, replace_queues}
use printer_fw.PrinterA.{
  upper_door_open, print_ready, identity_normalize, build_print_ready_capability,
  build_environment_capability, build_environment_ready_facade, build_operation_ready_facade,
  environment_level,
}
use printer_fw.PrinterA.Tables.{printer_a}
use printer_fw.Base.{◌+◌}
use printer_fw.Value.{k_bool, k_int32, k_double, b, i32, d}
use printer_fw.Api.{
  data_value, capability_value, get_bool, get_int32, get_double, get_binary, get_capability_int32,
  get_capability_double,
}
use printer_fw.Api.Getters.{as_is, AnswersFor, AnswersBytesFor}
use printer_fw.Api.System.{Reach, here, next, creates, sets, stores, evaluates}
use printer_fw.Api.System.Answers.{Reach-AnswersFor}
use printer_fw.PrinterA.Typed.{printer_a-ProductIsTyped}
use printer_fw.PrinterA.Doors.{created, answers_after-created}
use printer_fw.Value.{create_double}
use printer_fw.PrinterA.Defined.{printer_a-ProductIsDefined}
use printer_fw.Typed.Defined.{ProductIsDefined}
use printer_fw.Api.System.Defined.{Reach-run_capability, Reach-run_store, NextIsPlain}

abbrev add : ℕ → ℕ → ℕ
add x y = x + y

abbrev caller : ℕ → List ℕ
caller a = []

printer_a-ProductIsDefined_example : ProductIsDefined (printer_a add)
printer_a-ProductIsDefined_example = printer_a-ProductIsDefined add

-- A door is opened, and the two workers of its route run.
abbrev or_created : Option RiManagerContext → RiManagerContext
or_created none = created add
or_created (some g) = g

abbrev after_set : Option (Global × RiStatus) → RiManagerContext
after_set (some (some g, status)) = g
after_set _ = created add

abbrev door_set : RiManagerContext
door_set = after_set (set_value (some (created add)) upper_door_open (create_bool true))

abbrev door_stored : RiManagerContext
door_stored = or_created (run_store caller "ValueRoute" door_set)

abbrev door_evaluated : RiManagerContext
door_evaluated = or_created (run_capability caller "ValueRoute" door_stored)

door_made :
    (set_value (some (created add)) upper_door_open (create_bool true)
      ≡ some (some door_set, success))
    × (run_store caller "ValueRoute" door_set ≡ some door_stored)
    × (run_capability caller "ValueRoute" door_stored ≡ some door_evaluated)
unfolding set_value run_store run_capability get_capability_bool try_get_facade set_item dispatch
    dispatch_to find_queues push_store first Queue.push Queue.create fifo_insert coalescing_insert
    run_pass execute_store execute_capability replace_queues Store.execute_once
    Capability.execute_once try_pop Store.process process_known process_value is_changed
    store_and_announce store_in store get_or_create find_data Capability.process announce
    publish_capability_changes publish_capability publish_facade_changes publish_facade
    evaluate_capability evaluate_facade evaluate evaluate_in store_changed capability_snapshot
    build_items facade_snapshot facade_items get_all priority_compression_insert priority_insert
    compress erase_first create index_by depend_on dependency_map number_from resolve_route
    resolve_route_by_type find_domain_id entry_at data_domain_map capability_required_domain_map
    add_capabilities add_required contains_id Maps.find Maps.put Maps.erase Maps.emplace Maps.values
    identity_normalize identity_store identity_diff build_print_ready_capability
    build_environment_capability build_environment_ready_facade build_operation_ready_facade
    Snapshot.find find_current try_get try_get_bool try_get_int32 try_get_double environment_level
    get_with get_found try_get_capability find_in_domain Reads.get_bool Reads.get_int32
    Reads.get_value ValueType-discrete
door_made = (refl, refl, refl)

set_run : Reach (printer_a add) (some door_set)
set_run =
    next (next here (creates ((answers_after-created add caller 0 0 0).0)))
      (sets upper_door_open (create_bool true) (true, refl) door_made.0)

stored_run : Reach (printer_a add) (some door_stored)
stored_run = next set_run (stores caller "ValueRoute" door_made.1)

door_run : Reach (printer_a add) (some door_evaluated)
door_run = next stored_run (evaluates caller "ValueRoute" door_made.2)

-- So the getter of the capability has something to read.
door_evaluated-written : get_capability_bool (some door_evaluated) print_ready true ≡ written 0
unfolding set_value run_store run_capability get_capability_bool try_get_facade set_item dispatch
    dispatch_to find_queues push_store first Queue.push Queue.create fifo_insert coalescing_insert
    run_pass execute_store execute_capability replace_queues Store.execute_once
    Capability.execute_once try_pop Store.process process_known process_value is_changed
    store_and_announce store_in store get_or_create find_data Capability.process announce
    publish_capability_changes publish_capability publish_facade_changes publish_facade
    evaluate_capability evaluate_facade evaluate evaluate_in store_changed capability_snapshot
    build_items facade_snapshot facade_items get_all priority_compression_insert priority_insert
    compress erase_first create index_by depend_on dependency_map number_from resolve_route
    resolve_route_by_type find_domain_id entry_at data_domain_map capability_required_domain_map
    add_capabilities add_required contains_id Maps.find Maps.put Maps.erase Maps.emplace Maps.values
    identity_normalize identity_store identity_diff build_print_ready_capability
    build_environment_capability build_environment_ready_facade build_operation_ready_facade
    Snapshot.find find_current try_get try_get_bool try_get_int32 try_get_double environment_level
    get_with get_found try_get_capability find_in_domain Reads.get_bool Reads.get_int32
    Reads.get_value ValueType-discrete
door_evaluated-written = refl

Reach-AnswersFor_example :
    AnswersFor k_bool b int_of (data_value 4 door_evaluated) (get_bool (some door_evaluated) 4 true)
    × AnswersFor k_int32 i32 as_is
        (data_value 4 door_evaluated)
        (get_int32 (some door_evaluated) 4 true)
    × AnswersFor k_double d as_is
        (data_value 4 door_evaluated)
        (get_double (some door_evaluated) 4 true)
    × AnswersBytesFor (data_value 4 door_evaluated) (get_binary (some door_evaluated) 4 true)
    × AnswersFor k_bool b int_of
        (capability_value 4 door_evaluated)
        (get_capability_bool (some door_evaluated) 4 true)
    × AnswersFor k_int32 i32 as_is
        (capability_value 4 door_evaluated)
        (get_capability_int32 (some door_evaluated) 4 true)
    × AnswersFor k_double d as_is
        (capability_value 4 door_evaluated)
        (get_capability_double (some door_evaluated) 4 true)
Reach-AnswersFor_example =
    Reach-AnswersFor (printer_a add) door_evaluated 4 (printer_a-ProductIsTyped add) door_run

Reach-run_capability_example :
    ((answer : Global × RiStatus) × (set_value (some door_stored) 1 (create_double 0)
        ≡ some answer))
    × (h : RiManagerContext) × (run_capability caller "ValueRoute" door_stored ≡ some h)
Reach-run_capability_example =
    Reach-run_capability (printer_a add) door_stored 1 (create_double 0) caller "ValueRoute"
      (printer_a-ProductIsDefined add) stored_run (0, refl)

-- The door waits, and it is no binary item.
door_set-NextIsPlain : NextIsPlain door_set.product_context door_set "ValueRoute"
unfolding set_value run_store run_capability get_capability_bool try_get_facade set_item dispatch
    dispatch_to find_queues push_store first Queue.push Queue.create fifo_insert coalescing_insert
    run_pass execute_store execute_capability replace_queues Store.execute_once
    Capability.execute_once try_pop Store.process process_known process_value is_changed
    store_and_announce store_in store get_or_create find_data Capability.process announce
    publish_capability_changes publish_capability publish_facade_changes publish_facade
    evaluate_capability evaluate_facade evaluate evaluate_in store_changed capability_snapshot
    build_items facade_snapshot facade_items get_all priority_compression_insert priority_insert
    compress erase_first create index_by depend_on dependency_map number_from resolve_route
    resolve_route_by_type find_domain_id entry_at data_domain_map capability_required_domain_map
    add_capabilities add_required contains_id Maps.find Maps.put Maps.erase Maps.emplace Maps.values
    identity_normalize identity_store identity_diff build_print_ready_capability
    build_environment_capability build_environment_ready_facade build_operation_ready_facade
    Snapshot.find find_current try_get try_get_bool try_get_int32 try_get_double environment_level
    get_with get_found try_get_capability find_in_domain Reads.get_bool Reads.get_int32
    Reads.get_value ValueType-discrete
door_set-NextIsPlain = λ e. cc

Reach-run_store_example : (h : RiManagerContext) × (run_store caller "ValueRoute" door_set ≡ some h)
Reach-run_store_example =
    Reach-run_store (printer_a add) door_set caller "ValueRoute" (printer_a-ProductIsDefined add)
      set_run door_set-NextIsPlain
