-- ===== src/Publisher/Publish/Bounds.antt =====
-- Rounds of the publisher worker (core/publisher/src/PublisherWorker.cpp) and the sizes of the
-- mailboxes.
use printer_fw.Base.{
  ℕ, ◌≡◌, refl, ◌∙◌, sym, subst, Bool, true, false, ◌&&◌, Option, none, some, List, [], ◌∷◌, inl,
  inr, Option-cases, ◌==◌, if◌then◌else◌,
}
use printer_fw.Notification.{
  NotificationTarget, NotificationTrigger, on_change, periodic, NotificationMessage,
  SubscriptionInfo,
}
use printer_fw.Queue.{Wait, blocked, woken, wait_and_pop_for}
use printer_fw.Base.{true}
use printer_fw.Notification.{PublisherInput}
use printer_fw.Publisher.Publish.{serve}
use printer_fw.Product.{RouteDefinition}
use printer_fw.Product.Context.{ProductContext, resolve_route}
use printer_fw.Publisher.Mailbox.{MailboxManager, SubscriberMailbox, get_mailbox}
use printer_fw.Publisher.Mailbox.Bounds.{IsBounded, push-IsBounded}
use printer_fw.Publisher.Subscriptions.{find}
use printer_fw.Publisher.RateLimiter.{RateLimiter, should_notify}
use printer_fw.Publisher.Periodic.{PeriodicCondition, get_due_conditions}
use printer_fw.Publisher.Notify.{CustomHandler, NotifyState, deliver, deliver_all, notify}
use printer_fw.Publisher.Notify.Delivery.{after_push, is_mailbox, get_mailbox-deliver}
use printer_fw.Publisher.Publish.{
  PublishState, notify_all, publish_limited, publish_changed, publish, notify_due, notify_due_all,
  process_periodic_notifications, run_once,
}

-- Every mailbox is within its size, those that are yet to be made too.
abbrev pub AllBounded : MailboxManager → Type 0
AllBounded m = (j : ℕ) → IsBounded (get_mailbox j m)

-- The subscriptions stay, and so do the bounds of the mailboxes.
pub record Keeps (s t : PublishState) : Type 0 where
  pub subscribed : t.subscriptions ≡ s.subscriptions
  pub bounded : AllBounded s.notify.mailboxes → AllBounded t.notify.mailboxes

Keeps-refl : (s : PublishState) → Keeps s s
Keeps-refl s = record { subscribed = refl; bounded = λ h. h }

Keeps-trans : (s t u : PublishState) → Keeps s t → Keeps t u → Keeps s u
Keeps-trans s t u h k = record {
  subscribed = k.subscribed ∙ h.subscribed;
  bounded = λ x. k.bounded (h.bounded x);
}

after_push-IsBounded :
    (b : Bool) (message : NotificationMessage) (m : SubscriberMailbox)
    → IsBounded m
    → IsBounded (if b then after_push message m else m)
after_push-IsBounded true message m h = push-IsBounded m message h
after_push-IsBounded false message m h = h

deliver_all-AllBounded :
    (handler : CustomHandler) (message : NotificationMessage) (s : NotifyState)
    (infos : List SubscriptionInfo)
    → AllBounded s.mailboxes
    → AllBounded (deliver_all handler message s infos).mailboxes
unfolding deliver_all
deliver_all-AllBounded handler message s [] h = h
deliver_all-AllBounded handler message s (info ∷ infos) h =
    deliver_all-AllBounded handler message (deliver handler message s info) infos (λ j.
      subst IsBounded (sym (get_mailbox-deliver handler message s info j)) (
        after_push-IsBounded ((info.id == j) && is_mailbox info.method) message
          (get_mailbox j s.mailboxes) (h j)))

module _ (handler : CustomHandler) (context : ProductContext) where
  notify_all-Keeps :
      (target : NotificationTarget) (trigger : NotificationTrigger) (s : PublishState)
      → Keeps s (notify_all handler context target trigger s)
  unfolding notify
  notify_all-Keeps target trigger s = record {
    subscribed = refl;
    bounded = deliver_all-AllBounded handler _ s.notify _;
  }

  publish_limited-Keeps :
      (target : NotificationTarget) (s : PublishState) (answer : RateLimiter × Bool)
      → Keeps s (publish_limited handler context target s answer)
  unfolding publish_limited
  publish_limited-Keeps target s (limiter, true) =
      let t : PublishState = record s { rate_limiter = limiter } in
      let k = notify_all-Keeps target on_change t in
      record { subscribed = k.subscribed; bounded = k.bounded }
  publish_limited-Keeps target s (limiter, false) = record { subscribed = refl; bounded = λ h. h }

  publish_changed-Keeps :
      (now : ℕ) (target : NotificationTarget) (s : PublishState) (route : Option RouteDefinition)
      → Keeps s (publish_changed handler context now target s route)
  unfolding publish_changed
  publish_changed-Keeps now target s none = Keeps-refl s
  publish_changed-Keeps now target s (some route) =
      publish_limited-Keeps target s
        (should_notify now target route.minimum_notify_interval_ms s.rate_limiter)

  pub publish-Keeps :
      (now : ℕ) (target : NotificationTarget) (trigger : NotificationTrigger) (s : PublishState)
      → Keeps s (publish handler context now target trigger s)
  unfolding publish
  publish-Keeps now target periodic s = notify_all-Keeps target periodic s
  publish-Keeps now target on_change s =
      publish_changed-Keeps now target s (resolve_route context target)

  notify_due-Keeps :
      (now : ℕ) (s : PublishState) (condition : PeriodicCondition)
      → Keeps s (notify_due handler context now s condition)
  unfolding notify_due
  notify_due-Keeps now s condition =
      elim (Option-cases (find s.subscriptions condition.subscription_id)) [
        | inl e ↦ rw (e, notify_due) (Keeps-refl s)
        | inr (info, e) ↦
            let k = publish-Keeps now info.target periodic s in
            rw (e, notify_due) (record { subscribed = k.subscribed; bounded = k.bounded })
      ]

  notify_due_all-Keeps :
      (now : ℕ) (s : PublishState) (conditions : List PeriodicCondition)
      → Keeps s (notify_due_all handler context now s conditions)
  unfolding notify_due_all
  notify_due_all-Keeps now s [] = Keeps-refl s
  notify_due_all-Keeps now s (condition ∷ conditions) =
      let t = notify_due handler context now s condition in
      Keeps-trans s t _ (notify_due-Keeps now s condition) (notify_due_all-Keeps now t conditions)

  periodic-Keeps :
      (now : ℕ) (s : PublishState) → Keeps s (process_periodic_notifications handler context now s)
  unfolding process_periodic_notifications
  periodic-Keeps now s = notify_due_all-Keeps now s (get_due_conditions now s.periodic)

  serve-Keeps :
      (now later : ℕ) (s : PublishState) (waited : Wait PublisherInput)
      → Keeps s (serve handler context now later s waited)
  unfolding serve
  serve-Keeps now later s blocked = Keeps-refl s
  serve-Keeps now later s (woken q none) =
      let s' : PublishState = record s { input_queue = q } in
      let k = periodic-Keeps later s' in record { subscribed = k.subscribed; bounded = k.bounded }
  serve-Keeps now later s (woken q (some input)) =
      let s' : PublishState = record s { input_queue = q } in
      let t = publish handler context now input.target on_change s' in
      let k = publish-Keeps now input.target on_change s' in
      Keeps-trans s t _ (record { subscribed = k.subscribed; bounded = k.bounded })
        (periodic-Keeps later t)

  pub run_once-Keeps :
      (now later : ℕ) (s : PublishState) → Keeps s (run_once handler context now later s)
  unfolding run_once
  run_once-Keeps now later s = serve-Keeps now later s (wait_and_pop_for true s.input_queue)
