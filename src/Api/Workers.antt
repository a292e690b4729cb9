-- ===== src/Api/Workers.antt =====
-- What the worker threads of core/common/src/RouteExecutor.cpp, core/publisher/src/
-- PublisherWorker.cpp and CallbackWorker.cpp do to the state behind the C functions, one pass at a
-- time.
use Prim.Native.String.{String}
use text.Mathlib.Text.{◌==◌ as str_eq}
use printer_fw.Base.{ℕ, Bool, Option, none, some, List, [], ◌∷◌, ◌>>=◌, if◌then◌else◌}
use printer_fw.Notification.{CallbackNotification}
use printer_fw.Queue.{EventQueue, wait_and_pop, blocked, woken}
use printer_fw.Adapter.{RouteQueues, find_named}
use printer_fw.Publisher.Subscriptions
use printer_fw.Publisher.Subscriptions.{CallbackRegistry, Invocation}
use printer_fw.Publisher.Publish
use printer_fw.RouteExecutor.{RouteState, execute_store, execute_capability}
use printer_fw.Api.{RiManagerContext}

-- The queues of this name are those of `q`.
unfoldable pub replace_queues : String → RouteQueues → List RouteQueues → List RouteQueues
replace_queues name q [] = []
replace_queues name q (x ∷ xs) =
    let rest = replace_queues name q xs in if str_eq x.name name then q ∷ xs else x ∷ rest

abbrev pub route_state : RiManagerContext → RouteQueues → RouteState
route_state g q = record {
  queues = q;
  domain_store = g.domain_store;
  publisher_queue = g.publish.input_queue;
}

abbrev pub with_route : RiManagerContext → String → RouteState → RiManagerContext
with_route g name s = record g {
  route_provider = record g.route_provider {
    queues = replace_queues name s.queues g.route_provider.queues;
  };
  domain_store = s.domain_store;
  publish = record g.publish { input_queue = s.publisher_queue };
}

unfoldable pub run_pass :
    (RouteState → Option (RouteState × Bool)) → String → RiManagerContext → Option RiManagerContext
unfolding replace_queues
run_pass pass name g = elim (find_named g.route_provider.queues name) [
  | none ↦ some g
  | some q ↦ pass (route_state g q) >>= λ answer. some (with_route g name answer.0)
]

-- A pass of the store worker, and one of the capability worker, of the route with this name.
unfoldable pub run_store : (ℕ → List ℕ) → String → RiManagerContext → Option RiManagerContext
unfolding run_pass
run_store caller name g = run_pass (execute_store caller g.product_context) name g

unfoldable pub run_capability : (ℕ → List ℕ) → String → RiManagerContext → Option RiManagerContext
unfolding run_pass
run_capability caller name g = run_pass (execute_capability caller g.product_context) name g

-- A round of the publisher worker. No code gives the manager a custom delivery handler.
unfoldable pub run_publisher : ℕ → ℕ → RiManagerContext → RiManagerContext
run_publisher now later g = record g {
  publish = Publish.run_once none g.product_context now later g.publish;
}

-- A round of the callback worker, with the callbacks that it calls: `none` while it is blocked.
abbrev pub called : CallbackRegistry → Option CallbackNotification → List Invocation
called r none = []
called r (some n) =
    Subscriptions.notify r n.subscription_id (record { target = n.target; trigger = n.trigger })

abbrev pub with_callbacks : RiManagerContext → EventQueue CallbackNotification → RiManagerContext
with_callbacks g q = record g {
  publish = record g.publish { notify = record g.publish.notify { callback_queue = q } };
}

unfoldable pub run_callback : RiManagerContext → Option (RiManagerContext × List Invocation)
run_callback g = elim (wait_and_pop g.publish.notify.callback_queue) [
  | blocked ↦ none
  | woken q event ↦ some (with_callbacks g q, called g.callback_registry event)
]
