-- ===== src/Tests/Apis.antt =====
-- The C functions on the tables of products/printer_a.
use printer_fw.Base.{
  ℕ, zero, suc, ◌+◌, ◌≡◌, refl, false, arith, true, none, some, List, [], ◌∷◌, take, All, ◌&&◌,
  if◌then◌else◌,
}
use printer_fw.Base.Maps
use printer_fw.Notification.{data_item, on_change, mailbox, NotificationTarget, same_target}
use printer_fw.Value.{k_int32, k_binary, client, create_int32, create_bool}
use printer_fw.Product.Domains.{find_domain_id, data_domain_map}
use printer_fw.Product.Context.{create, index_by}
use printer_fw.Product.Lookup.{first}
use printer_fw.Storage.{find_data}
use printer_fw.Storage.Registry.{empty-IsSound}
use printer_fw.Adapter.{RouteProvider, new_queues, find_queues}
use printer_fw.Adapter.Routing.{IsRouted}
use printer_fw.Api.{
  RiManagerContext, success, set_value, failed, no_data, set_int32, get_int32, written,
  try_read_data_item,
}
use printer_fw.Publisher.Mailbox.{get_mailbox, new_mailbox}
use printer_fw.Publisher.Subscriptions.Ids
use printer_fw.Publisher.Publish.Laws.{is_announced}
use printer_fw.Api.Subscribe.{
  SubscriptionRequest, subscribe_request, rim_subscribe, rim_get_notification,
}
use printer_fw.Api.Delivery.{published, rim_get_notification-published}
use printer_fw.Api.Restart.{IsFresh, restarted, rim_create-IsFresh, set_value-restarted}
use printer_fw.Api.System.{Reach, here, next, creates, starts, subscribes}
use printer_fw.Api.System.Invariant.{GlobalIsValid, Reach-IsValid}
use printer_fw.PrinterA.Doors.{created, answers_after, answers_after-created}
use printer_fw.PrinterA.ErrorList.{set_error_list, get_error_list, set_error_list-get_error_list}
use printer_fw.Api.Lifecycle.{new_context, rim_start, rim_stop, rim_create, start_context}
use printer_fw.Product.Validate
use printer_fw.Api.Workers.{run_store}
use printer_fw.Api.Passes.{Accepts}
use printer_fw.Api.RoundTrip.{IsReady, set_int32-get_int32}
use printer_fw.PrinterA.{
  toner_level, upper_door_open, error_list, identity_normalize, normalize_binary,
}
use printer_fw.PrinterA.Tables.{
  printer_a, toner_level_item, error_list_item, data_route, value_route, error_route,
}

abbrev add : ℕ → ℕ → ℕ
add x y = x + y

abbrev caller : ℕ → List ℕ
caller a = []

-- Three routes, each with one of the items.
abbrev provider : RouteProvider
provider = record {
  queues = new_queues value_route ∷ new_queues data_route ∷ new_queues error_route ∷ [];
  routing_table =
      (upper_door_open, "ValueRoute")
      ∷ (toner_level, "DataRoute")
      ∷ (error_list, "ErrorRoute")
      ∷ [];
}

abbrev started : RiManagerContext
started = new_context (printer_a add) provider

toner_accepts : Accepts k_int32 started toner_level
unfolding create index_by find_domain_id data_domain_map Maps.find Maps.emplace Maps.put find_queues
    first identity_normalize
toner_accepts = record {
  definition = toner_level_item;
  queues = new_queues data_route;
  known = refl;
  valid = refl;
  raw = refl;
  normalized = λ v. refl;
  found = refl;
  idle = refl;
}

toner_ready : IsReady k_int32 started toner_level
unfolding toner_accepts try_read_data_item find_data Maps.find
toner_ready = record {
  accepts = toner_accepts;
  plain = record { word = tt; stored_as = refl; keeps = refl; compares = refl };
  typed = tt;
}

set_int32-get_int32_example :
    (g' : RiManagerContext) × (set_int32 (some started) toner_level 70 ≡ some (some g', success))
    × (g'' : RiManagerContext) × (run_store caller "DataRoute" g' ≡ some g'')
    × (get_int32 (some g'') toner_level true ≡ written 70)
unfolding toner_ready toner_accepts
set_int32-get_int32_example = set_int32-get_int32 caller started toner_level 70 toner_ready

-- The client's memory has a list of errors.
abbrev zeros : ℕ → List ℕ
zeros zero = []
zeros (suc n) = 0 ∷ zeros n

abbrev with_list : ℕ → List ℕ
with_list a = zeros 164

errors_accepted : Accepts k_binary started error_list
unfolding create index_by find_domain_id data_domain_map Maps.find Maps.emplace Maps.put find_queues
    first normalize_binary
errors_accepted = record {
  definition = error_list_item;
  queues = new_queues error_route;
  known = refl;
  valid = refl;
  raw = refl;
  normalized = λ v. refl;
  found = refl;
  idle = refl;
}

nothing_stored : try_read_data_item started error_list ≡ none
unfolding try_read_data_item find_data Maps.find
nothing_stored = refl

set_error_list-get_error_list_example :
    (g' : RiManagerContext) × (set_error_list (some started) (client 0) ≡ some (some g', success))
    × (g'' : RiManagerContext) × (run_store with_list "ErrorRoute" g' ≡ some g'')
    × (get_error_list with_list (some g'') true ≡ written (take 164 (zeros 164)))
unfolding errors_accepted
set_error_list-get_error_list_example =
    set_error_list-get_error_list with_list started 0 errors_accepted refl refl empty-IsSound
      nothing_stored (omega arith)

-- The door is subscribed to, and then changes.
abbrev door_request : SubscriptionRequest
door_request = record {
  target_type = data_item;
  target_id = upper_door_open;
  trigger = on_change;
  method = mailbox;
  interval_ms = 0;
  callback = 0;
}

abbrev door_target : NotificationTarget
door_target = record { type = data_item; id = upper_door_open }

no_subscriptions : Ids.IsValid started.publish.subscriptions
no_subscriptions = record { below = tt; distinct = tt }

no_mailbox : get_mailbox 1 started.publish.notify.mailboxes ≡ new_mailbox 1000
unfolding get_mailbox Maps.find
no_mailbox = refl

rim_get_notification-published_example :
    (rim_subscribe 0 (some started) (some door_request) true
      ≡ (some (subscribe_request 0 started door_request).0, written 1))
    × ((rim_get_notification
          (some (published 7 door_target (subscribe_request 0 started door_request).0))
          1
          true).1
        ≡ (if is_announced started.product_context 7 door_target
                (subscribe_request 0 started door_request).0.publish
              && same_target door_target door_target
            then written (record { target = door_target; trigger = on_change })
            else failed no_data))
rim_get_notification-published_example =
    rim_get_notification-published 0 7 started door_request door_target no_subscriptions
      (omega arith) no_mailbox refl refl

started-IsFresh : IsFresh started
started-IsFresh = record { paired = refl; unstopped = (refl, (refl, (refl, tt))) }

set_value-restarted_example :
    (rim_start (rim_stop (rim_start (some started)).0).0 ≡ (some (restarted started), success))
    × (set_value (some (restarted started)) toner_level (create_int32 70)
        ≡ some (some (restarted started), success))
unfolding toner_accepts
set_value-restarted_example =
    set_value-restarted started toner_level (create_int32 70) toner_level_item
      (new_queues data_route) started-IsFresh toner_accepts.known refl refl toner_accepts.found

answers_after-created_example :
    (rim_create (printer_a add) none ≡ some (some (created add), success))
    × (answers_after caller (created add) 0 1 0 ≡ some (written 0, some (create_bool false)))
answers_after-created_example = answers_after-created add caller 0 1 0

created_by : rim_create (printer_a add) none ≡ some (some (created add), success)
created_by = (answers_after-created add caller 0 0 0).0

-- A run: RIM_Create, RIM_Start and RIM_Subscribe.
subscribed_run :
    Reach
      (printer_a add)
      (rim_subscribe 0 (rim_start (some (created add))).0 (some door_request) true).0
unfolding rim_start start_context
subscribed_run =
    next (next (next here (creates created_by)) (starts (some (created add))))
      (subscribes (rim_start (some (created add))).0 0 (some door_request) true (omega arith))

Reach-IsValid_example :
    GlobalIsValid (rim_subscribe 0 (rim_start (some (created add))).0 (some door_request) true).0
Reach-IsValid_example = Reach-IsValid (printer_a add) subscribed_run

printer_a-accepted : Validate.validate_product_definition (printer_a add) ≡ true
unfolding Validate.validate_product_definition
printer_a-accepted = refl

printer_a-IsValid : Validate.IsValid (printer_a add)
printer_a-IsValid = (Validate.validate_product_definition_iff (printer_a add)).0 printer_a-accepted

rim_create-IsFresh_example :
    (g : RiManagerContext) × (rim_create (printer_a add) none ≡ some (some g, success))
    × IsFresh g
    × All (λ item. IsRouted g.route_provider item.id) (printer_a add).data_items
rim_create-IsFresh_example = rim_create-IsFresh (printer_a add) printer_a-IsValid
