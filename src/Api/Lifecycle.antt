-- ===== src/Api/Lifecycle.antt =====
-- RIM_Create, RIM_Destroy, RIM_Start and RIM_Stop of products/common/rim_api.cpp. A call that stops
-- a worker clears its flag and shuts its queue; what the worker's thread still does until it is
-- joined is steps of that thread (module Worker), which come in between.
use printer_fw.Base.{true, false, Option, none, some, List, [], ◌∷◌, map, ◌>>=◌}
use printer_fw.Queue.{empty, shut}
use printer_fw.Product.{ProductDefinition}
use printer_fw.Product.Context
use printer_fw.Adapter.{RouteQueues, RouteProvider, initialize}
use printer_fw.Publisher.Subscriptions.{empty_store}
use printer_fw.Publisher.Notify.{NotifyState}
use printer_fw.Publisher.Publish.{PublishState}
use printer_fw.RouteExecutor.{RouteExecutor, new_executor, start, stop, stop_queues}
use printer_fw.Api.{RiManagerContext, Global, RiStatus, success, not_initialized}

abbrev pub new_notify : NotifyState
new_notify = record {
  mailboxes = [];
  callback_queue = empty;
  mailbox_overflow_count = 0;
  custom_delivery_failure_count = 0;
  custom_deliveries = [];
}

abbrev pub new_publish : PublishState
new_publish = record {
  input_queue = empty;
  subscriptions = empty_store;
  rate_limiter = [];
  periodic = [];
  notify = new_notify;
}

-- Initialize
abbrev pub new_context : ProductDefinition → RouteProvider → RiManagerContext
new_context product provider = record {
  product_context = Context.create product;
  route_executor = map new_executor provider.queues;
  route_provider = provider;
  domain_store = [];
  callback_registry = [];
  publish = new_publish;
  callback_running = false;
  publisher_running = false;
}

-- RIM_Create, with the product's definition: `none` is a failed assertion of `Initialize`.
unfoldable pub rim_create : ProductDefinition → Global → Option (Global × RiStatus)
unfolding initialize
rim_create product (some g) = some (some g, success)
rim_create product none = initialize (Context.create product) >>= λ provider.
    some (some (new_context product provider), success)

unfoldable pub start_context : RiManagerContext → RiManagerContext
unfolding start
start_context g = record g {
  route_executor = map start g.route_executor;
  callback_running = true;
  publisher_running = true;
}

unfoldable pub rim_start : Global → Global × RiStatus
unfolding start_context
rim_start none = (none, not_initialized)
rim_start (some g) = (some (start_context g), success)

-- The loop over the executors, on their queues.
unfoldable pub stop_all_queues : List RouteExecutor → List RouteQueues → List RouteQueues
unfolding stop_queues
stop_all_queues (e ∷ es) (q ∷ qs) = stop_queues e q ∷ stop_all_queues es qs
stop_all_queues _ qs = qs

abbrev pub stop_publish : PublishState → PublishState
stop_publish p = record p {
  input_queue = shut p.input_queue;
  notify = record p.notify { callback_queue = shut p.notify.callback_queue };
}

unfoldable pub stop_context : RiManagerContext → RiManagerContext
unfolding stop stop_all_queues shut
stop_context g = record g {
  route_executor = map stop g.route_executor;
  route_provider = record g.route_provider {
    queues = stop_all_queues g.route_executor g.route_provider.queues;
  };
  publish = stop_publish g.publish;
  callback_running = false;
  publisher_running = false;
}

unfoldable pub rim_stop : Global → Global × RiStatus
unfolding stop_context
rim_stop none = (none, not_initialized)
rim_stop (some g) = (some (stop_context g), success)

-- The workers are stopped as by RIM_Stop, and then all is freed.
unfoldable pub rim_destroy : Global → Global × RiStatus
rim_destroy none = (none, not_initialized)
rim_destroy (some g) = (none, success)
