-- ===== src/Publisher/Publish.antt =====
-- core/publisher/src/PublishManager.cpp and PublisherWorker.cpp. The times of the steady clock are
-- arguments.
pub mod Laws
pub mod Bounds
use printer_fw.Base.{ℕ, Bool, true, false, Option, none, some, List, [], ◌∷◌, if◌then◌else◌}
use printer_fw.Notification.{
  NotificationTarget, NotificationTrigger, on_change, periodic, SubscriptionInfo, PublisherInput,
}
use printer_fw.Queue.{EventQueue, try_pop, Wait, blocked, woken, wait_and_pop_for}
use printer_fw.Product.{RouteDefinition}
use printer_fw.Product.Context.{ProductContext, resolve_route}
use printer_fw.Publisher.Subscriptions.{SubscriptionStore, find}
use printer_fw.Publisher.RateLimiter.{RateLimiter, should_notify}
use printer_fw.Publisher.Periodic.{
  PeriodicCondition, PeriodicNotifyManager, get_due_conditions, update_next_time,
}
use printer_fw.Publisher.Notify.{CustomHandler, NotifyState, notify}

pub record PublishState : Type 0 where
  pub input_queue : EventQueue PublisherInput
  pub subscriptions : SubscriptionStore
  pub rate_limiter : RateLimiter
  pub periodic : PeriodicNotifyManager
  pub notify : NotifyState

module _ (handler : CustomHandler) (context : ProductContext) where
  abbrev pub notify_all : NotificationTarget → NotificationTrigger → PublishState → PublishState
  notify_all target trigger s = record s {
    notify = notify handler s.subscriptions target trigger s.notify;
  }

  -- What follows the limiter's answer.
  unfoldable pub publish_limited :
      NotificationTarget → PublishState → RateLimiter × Bool → PublishState
  publish_limited target s (limiter, passes) =
      if passes
      then notify_all target on_change (record s { rate_limiter = limiter })
      else record s { rate_limiter = limiter }

  -- The branch for a change, by the route that was found.
  unfoldable pub publish_changed :
      ℕ → NotificationTarget → PublishState → Option RouteDefinition → PublishState
  unfolding publish_limited
  publish_changed now target s none = s
  publish_changed now target s (some route) =
      publish_limited target s
        (should_notify now target route.minimum_notify_interval_ms s.rate_limiter)

  -- Publish
  unfoldable pub publish :
      ℕ → NotificationTarget → NotificationTrigger → PublishState → PublishState
  unfolding publish_changed
  publish now target periodic s = notify_all target periodic s
  publish now target on_change s = publish_changed now target s (resolve_route context target)

  -- The body of the loop over the conditions that are due.
  unfoldable pub notify_due : ℕ → PublishState → PeriodicCondition → PublishState
  unfolding publish
  notify_due now s condition = elim (find s.subscriptions condition.subscription_id) [
    | none ↦ s
    | some info ↦
        let s' = publish now info.target periodic s in
        record s' { periodic = update_next_time condition.subscription_id s'.periodic }
  ]

  unfoldable pub notify_due_all : ℕ → PublishState → List PeriodicCondition → PublishState
  unfolding notify_due
  notify_due_all now s [] = s
  notify_due_all now s (condition ∷ conditions) =
      notify_due_all now (notify_due now s condition) conditions

  -- ProcessPeriodicNotifications
  unfoldable pub process_periodic_notifications : ℕ → PublishState → PublishState
  unfolding notify_due_all
  process_periodic_notifications now s = notify_due_all now s (get_due_conditions now s.periodic)

  -- ExecuteOnce: the clock is read for the notification and again for the periodic ones.
  unfoldable pub execute_once : ℕ → ℕ → PublishState → PublishState × Bool
  unfolding publish process_periodic_notifications
  execute_once now later s = elim (try_pop s.input_queue).1 [
    | none ↦ (s, false)
    | some input ↦
        let s' =
          publish now input.target on_change
            (record s { input_queue = (try_pop s.input_queue).0 }) in
        (process_periodic_notifications later s', true)
  ]

  -- The body of the loop that `Run` starts, by what the wait brought.
  unfoldable pub serve : ℕ → ℕ → PublishState → Wait PublisherInput → PublishState
  unfolding publish process_periodic_notifications
  serve now later s blocked = s
  serve now later s (woken q none) =
      process_periodic_notifications later (record s { input_queue = q })
  serve now later s (woken q (some input)) =
      process_periodic_notifications later
        (publish now input.target on_change (record s { input_queue = q }))

  -- One round of the loop; the wait ends in this state, at the latest because its time is out.
  unfoldable pub run_once : ℕ → ℕ → PublishState → PublishState
  unfolding serve wait_and_pop_for
  run_once now later s = serve now later s (wait_and_pop_for true s.input_queue)
