-- ===== src/Api/Subscribe.antt =====
-- RIM_Subscribe, RIM_SubscribeCapability, RIM_GetNotification and RIM_GetMailboxCount of
-- products/common/rim_api.cpp.
use printer_fw.Base.{
  ℕ, ◌+◌, ◌*◌, Bool, true, false, ◌||◌, not, Option, none, some, ◌==◌, if◌then◌else◌,
}
use printer_fw.Notification.{
  NotificationTargetType, capability, NotificationTrigger, on_change, periodic, DeliveryMethod,
  mailbox, callback, custom, NotificationMessage, SubscriptionInfo,
}
use printer_fw.Publisher.Mailbox.{MailboxManager, try_get_notification, get_mailbox_count}
use printer_fw.Publisher.Subscriptions
use printer_fw.Publisher.Subscriptions.{create_subscription_id, CallbackRegistry}
use printer_fw.Publisher.Periodic
use printer_fw.Publisher.Periodic.{PeriodicNotifyManager}
use printer_fw.Api.{
  RiManagerContext, Global, invalid_parameter, not_initialized, no_data, Response, failed, written,
  undefined,
}

-- The enumerations of the request have the values of those they are cast to. A callback is named
-- by a number, and 0 is the null pointer.
pub record SubscriptionRequest : Type 0 where
  pub target_type : NotificationTargetType
  pub target_id : ℕ
  pub trigger : NotificationTrigger
  pub method : DeliveryMethod
  pub interval_ms : ℕ
  pub callback : ℕ

abbrev pub info_of : SubscriptionRequest → ℕ → SubscriptionInfo
info_of request id = record {
  id = id;
  target = record { type = request.target_type; id = request.target_id };
  method = request.method;
  trigger = request.trigger;
}

-- The registration of a periodic subscription, in nanoseconds.
unfoldable pub register_periodic :
    ℕ → SubscriptionRequest → ℕ → PeriodicNotifyManager → PeriodicNotifyManager
unfolding Periodic.register
register_periodic now request id m = elim request.trigger [
  | on_change ↦ m
  | periodic ↦ Periodic.register m (record {
    subscription_id = id;
    interval = request.interval_ms * 1000000;
    next_notify_time = now + request.interval_ms * 1000000;
  })
]

unfoldable pub register_callback : SubscriptionRequest → ℕ → CallbackRegistry → CallbackRegistry
register_callback request id r = elim request.method [
  | mailbox ↦ r
  | callback ↦ Subscriptions.subscribe r id request.callback
  | custom ↦ r
]

-- The part of RIM_Subscribe behind its early returns.
unfoldable pub subscribe_request : ℕ → RiManagerContext → SubscriptionRequest → RiManagerContext × ℕ
unfolding create_subscription_id Subscriptions.register register_periodic register_callback
subscribe_request now g request =
    let (store, id) = create_subscription_id g.publish.subscriptions in
    (
      record g {
        callback_registry = register_callback request id g.callback_registry;
        publish = record g.publish {
          subscriptions = Subscriptions.register store (info_of request id);
          periodic = register_periodic now request id g.publish.periodic;
        };
      },
      id,
    )

abbrev pub answer_id : RiManagerContext × ℕ → Global × Response ℕ
answer_id (g, id) = (some g, written id)

-- RIM_Subscribe: `none` as a request is a null pointer, and `given` is of the pointer to the id.
unfoldable pub rim_subscribe : ℕ → Global → Option SubscriptionRequest → Bool → Global × Response ℕ
unfolding subscribe_request
rim_subscribe now none request given = (none, failed not_initialized)
rim_subscribe now (some g) none given = (some g, failed invalid_parameter)
rim_subscribe now (some g) (some request) false = (some g, failed invalid_parameter)
rim_subscribe now (some g) (some request) true = answer_id (subscribe_request now g request)

abbrev pub capability_request : ℕ → ℕ → SubscriptionRequest
capability_request id f = record {
  target_type = capability;
  target_id = id;
  trigger = on_change;
  method = DeliveryMethod.callback;
  interval_ms = 0;
  callback = f;
}

-- RIM_SubscribeCapability
unfoldable pub rim_subscribe_capability : ℕ → Global → ℕ → ℕ → Bool → Global × Response ℕ
unfolding rim_subscribe
rim_subscribe_capability now none id f given = (none, failed not_initialized)
rim_subscribe_capability now (some g) id f given =
    if (f == 0) || not given
    then (some g, failed invalid_parameter)
    else rim_subscribe now (some g) (some (capability_request id f)) given

abbrev pub message_response : Option NotificationMessage → Response NotificationMessage
message_response none = failed no_data
message_response (some message) = written message

abbrev pub with_mailboxes : RiManagerContext → MailboxManager → RiManagerContext
with_mailboxes g m = record g {
  publish = record g.publish { notify = record g.publish.notify { mailboxes = m } };
}

-- RIM_GetNotification, which has no test of the context: without one its behaviour is undefined.
unfoldable pub rim_get_notification : Global → ℕ → Bool → Global × Response NotificationMessage
unfolding try_get_notification
rim_get_notification g id false = (g, failed invalid_parameter)
rim_get_notification none id true = (none, undefined)
rim_get_notification (some g) id true =
    let (m, message) = try_get_notification id g.publish.notify.mailboxes in
    (some (with_mailboxes g m), message_response message)

unfoldable pub rim_get_mailbox_count : Global → ℕ → Global × ℕ
unfolding get_mailbox_count
rim_get_mailbox_count none id = (none, 0)
rim_get_mailbox_count (some g) id =
    let (m, n) = get_mailbox_count id g.publish.notify.mailboxes in (some (with_mailboxes g m), n)
