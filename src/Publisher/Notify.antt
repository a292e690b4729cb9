-- ===== src/Publisher/Notify.antt =====
-- core/publisher/include/ChangeNotifyManager.hpp.
pub mod Delivery
use printer_fw.Base.{
  ℕ, Bool, true, false, Option, none, some, List, [], ◌∷◌, ◌++◌, if◌then◌else◌, inc64,
}
use printer_fw.Notification.{
  NotificationTarget, NotificationTrigger, NotificationMessage, SubscriptionInfo, DeliveryMethod,
  mailbox, callback, custom, CallbackNotification,
}
use printer_fw.Queue.{EventQueue}
use printer_fw.Queue
use printer_fw.Queue.Policies.{fifo_insert}
use printer_fw.Publisher.Mailbox.{MailboxManager, push_to}
use printer_fw.Publisher.Subscriptions.{SubscriptionStore, get_subscriptions}

-- The handler of custom deliveries is code of the client's: its answer may depend on the
-- deliveries before, oldest first. `none` is a null pointer.
abbrev pub CustomDelivery : Type 0
CustomDelivery = SubscriptionInfo × NotificationMessage

abbrev pub CustomHandler : Type 0
CustomHandler = Option (List CustomDelivery → CustomDelivery → Bool)

-- What `Notify` writes, with the calls of the custom handler so far.
pub record NotifyState : Type 0 where
  pub mailboxes : MailboxManager
  pub callback_queue : EventQueue CallbackNotification
  pub mailbox_overflow_count : ℕ
  pub custom_delivery_failure_count : ℕ
  pub custom_deliveries : List CustomDelivery

unfoldable pub deliver_mailbox : ℕ → NotificationMessage → NotifyState → NotifyState
deliver_mailbox id message s =
    let (mailboxes, delivered) = push_to id s.mailboxes message in
    if delivered
    then record s { mailboxes = mailboxes }
    else record s { mailboxes = mailboxes; mailbox_overflow_count = inc64 s.mailbox_overflow_count }

unfoldable pub deliver_callback : ℕ → NotificationMessage → NotifyState → NotifyState
deliver_callback id message s = record s {
  callback_queue =
      (Queue.push fifo_insert s.callback_queue
        (record { subscription_id = id; target = message.target; trigger = message.trigger })).0;
}

unfoldable pub deliver_custom :
    CustomHandler → SubscriptionInfo → NotificationMessage → NotifyState → NotifyState
deliver_custom none info message s = s
deliver_custom (some handler) info message s =
    let s' = record s { custom_deliveries = s.custom_deliveries ++ (info, message) ∷ [] } in
    if handler s.custom_deliveries (info, message)
    then s'
    else record s' { custom_delivery_failure_count = inc64 s.custom_delivery_failure_count }

-- The body of the loop.
unfoldable pub deliver :
    CustomHandler → NotificationMessage → NotifyState → SubscriptionInfo → NotifyState
deliver handler message s info = elim info.method [
  | mailbox ↦ deliver_mailbox info.id message s
  | callback ↦ deliver_callback info.id message s
  | custom ↦ deliver_custom handler info message s
]

unfoldable pub deliver_all :
    CustomHandler → NotificationMessage → NotifyState → List SubscriptionInfo → NotifyState
deliver_all handler message s [] = s
deliver_all handler message s (info ∷ infos) =
    deliver_all handler message (deliver handler message s info) infos

-- Notify
unfoldable pub notify :
    CustomHandler
    → SubscriptionStore
    → NotificationTarget
    → NotificationTrigger
    → NotifyState
    → NotifyState
notify handler store target trigger s =
    deliver_all handler (record { target = target; trigger = trigger }) s
      (get_subscriptions store target trigger)
