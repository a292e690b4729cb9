-- ===== src/Tests/Publishers.antt =====
-- Mailboxes, subscriptions and publications on a few messages.
use printer_fw.Base.{ℕ, ◌≡◌, ◌&&◌, refl, arith, none, List, [], ◌∷◌, if◌then◌else◌}
use printer_fw.Base.Maps
use printer_fw.Notification.{
  NotificationTarget, data_item, NotificationMessage, on_change, SubscriptionInfo, mailbox,
  callback, make_notification_target_key,
}
use printer_fw.Queue.{empty}
use printer_fw.Product.Context.{create}
use printer_fw.Publisher.Mailbox.{get_mailbox}
use printer_fw.Publisher.Mailbox.Bounds.{pushes, pops, run, Conserves, run-Conserves}
use printer_fw.Publisher.Subscriptions.{empty_store, get_subscriptions}
use printer_fw.Publisher.Subscriptions.Ids.{IsValid, add, add-IsValid}
use printer_fw.Publisher.RateLimiter.Spacing.{Call, passed, IsSpaced, passed-IsSpaced}
use printer_fw.Publisher.Periodic.{PeriodicNotifyManager}
use printer_fw.Publisher.Notify.{NotifyState, deliver_all}
use printer_fw.Publisher.Notify.Delivery.{
  has_mailbox, after_push, get_mailbox-deliver_all, joined, callback_queue-deliver_all,
}
use printer_fw.Publisher.Publish.{PublishState, publish}
use printer_fw.Publisher.Publish.Laws.{is_announced, get_mailbox-publish}
use printer_fw.Tests.Products.{product}

abbrev sheets_target : NotificationTarget
sheets_target = record { type = data_item; id = 11 }

abbrev changed : NotificationMessage
changed = record { target = sheets_target; trigger = on_change }

run-Conserves_example : Conserves 0 (changed ∷ []) (
    run
      (record { max_size = 1; overflow_count = 0; notifications = changed ∷ [] })
      (pushes changed ∷ pops ∷ pushes changed ∷ []))
run-Conserves_example =
    run-Conserves 1 0 (changed ∷ []) (pushes changed ∷ pops ∷ pushes changed ∷ []) (omega arith)
      (omega arith)

abbrev by_mailbox : ℕ → SubscriptionInfo
by_mailbox id = record { id = id; target = sheets_target; method = mailbox; trigger = on_change }

abbrev by_callback : ℕ → SubscriptionInfo
by_callback id = record (by_mailbox id) { method = callback }

empty_store-IsValid : IsValid empty_store
empty_store-IsValid = record { below = tt; distinct = tt }

abbrev calls : List Call
calls =
    record { now = 0; target = sheets_target; interval = 1 }
    ∷ record { now = 500000; target = sheets_target; interval = 1 }
    ∷ record { now = 1000000; target = sheets_target; interval = 1 }
    ∷ []

abbrev sheets_key : ℕ
sheets_key = make_notification_target_key sheets_target

passed-IsSpaced_example : IsSpaced 1000000 none (passed sheets_key [] calls)
unfolding Maps.find
passed-IsSpaced_example =
    passed-IsSpaced sheets_key 1 [] calls ((λ h. refl), ((λ h. refl), ((λ h. refl), tt)))

abbrev schedule : PeriodicNotifyManager
schedule = (1, record { subscription_id = 1; interval = 10; next_notify_time = 5 }) ∷ []

abbrev quiet : NotifyState
quiet = record {
  mailboxes = [];
  callback_queue = empty;
  mailbox_overflow_count = 0;
  custom_delivery_failure_count = 0;
  custom_deliveries = [];
}

get_mailbox-deliver_all_example :
    get_mailbox 1 (deliver_all none changed quiet (by_mailbox 1 ∷ by_callback 2 ∷ [])).mailboxes ≡ (
      if has_mailbox 1 (by_mailbox 1 ∷ by_callback 2 ∷ [])
      then after_push changed (get_mailbox 1 [])
      else get_mailbox 1 [])
get_mailbox-deliver_all_example =
    get_mailbox-deliver_all none changed quiet (by_mailbox 1 ∷ by_callback 2 ∷ []) 1
      ((omega arith, tt), (tt, tt))

callback_queue-deliver_all_example :
    (deliver_all none changed quiet (by_mailbox 1 ∷ by_callback 2 ∷ [])).callback_queue
    ≡ joined changed empty (by_mailbox 1 ∷ by_callback 2 ∷ [])
callback_queue-deliver_all_example =
    callback_queue-deliver_all none changed quiet (by_mailbox 1 ∷ by_callback 2 ∷ [])

abbrev publisher : PublishState
publisher = record {
  input_queue = empty;
  subscriptions = add empty_store by_mailbox;
  rate_limiter = [];
  periodic = [];
  notify = quiet;
}

get_mailbox-publish_example :
    get_mailbox 1
      (publish none (create product) 7 sheets_target on_change publisher).notify.mailboxes
    ≡ (if is_announced (create product) 7 sheets_target publisher
          && has_mailbox 1 (get_subscriptions (add empty_store by_mailbox) sheets_target on_change)
        then after_push changed (get_mailbox 1 [])
        else get_mailbox 1 [])
get_mailbox-publish_example =
    get_mailbox-publish none (create product) 7 sheets_target publisher 1 add-IsValid_now
  where
    add-IsValid_now : IsValid (add empty_store by_mailbox)
    add-IsValid_now =
        (add-IsValid empty_store by_mailbox (λ id. refl) (omega arith) empty_store-IsValid).0
