-- ===== src/Publisher/Publish/Laws.antt =====
-- PublishManager::Publish (core/publisher/src/PublishManager.cpp) and the subscribers' mailboxes.
use printer_fw.Base.{
  ℕ, ◌≡◌, ◌≢◌, refl, Option, none, some, List, [], ◌∷◌, ◌&&◌, Bool, true, false, if◌then◌else◌,
  arith, select, All,
}
use printer_fw.Notification.{NotificationTarget, NotificationMessage, on_change, SubscriptionInfo}
use printer_fw.Product.{RouteDefinition}
use printer_fw.Product.Context.{ProductContext, resolve_route}
use printer_fw.Publisher.Mailbox.{get_mailbox}
use printer_fw.Publisher.Subscriptions.{get_subscriptions, is_for}
use printer_fw.Publisher.Subscriptions.Ids.{IsValid, Distinct}
use printer_fw.Publisher.RateLimiter.{RateLimiter, should_notify}
use printer_fw.Publisher.Notify.{CustomHandler, notify}
use printer_fw.Publisher.Notify.Delivery.{has_mailbox, after_push, get_mailbox-deliver_all}
use printer_fw.Publisher.Publish.{PublishState, publish, publish_changed, publish_limited}

All-select :
    (P : SubscriptionInfo → Type 0) (p : SubscriptionInfo → Bool) (infos : List SubscriptionInfo)
    → All P infos
    → All P (select p infos)
unfolding select
All-select P p [] h = tt
All-select P p (info ∷ infos) h = ground (arith, All-select P p infos h.1)

Distinct-select :
    (p : SubscriptionInfo → Bool) (infos : List SubscriptionInfo)
    → Distinct infos
    → Distinct (select p infos)
unfolding select
Distinct-select p [] d = tt
Distinct-select p (info ∷ infos) d =
    ground (arith, All-select (λ y. y.id ≢ info.id) p infos d.0, Distinct-select p infos d.1)

abbrev pub passes : ℕ → NotificationTarget → PublishState → Option RouteDefinition → Bool
passes now target s none = false
passes now target s (some route) =
    (should_notify now target route.minimum_notify_interval_ms s.rate_limiter).1

-- Whether a change of `target` at `now` is announced: its route is found, and the rate limiter
-- lets it through.
unfoldable pub is_announced : ProductContext → ℕ → NotificationTarget → PublishState → Bool
is_announced context now target s = passes now target s (resolve_route context target)

module _ (handler : CustomHandler) (context : ProductContext) (now : ℕ)
    (target : NotificationTarget) (s : PublishState) (j : ℕ) (v : IsValid s.subscriptions) where
  abbrev message : NotificationMessage
  message = record { target = target; trigger = on_change }

  abbrev infos : List SubscriptionInfo
  infos = get_subscriptions s.subscriptions target on_change

  infos-Distinct : Distinct infos
  unfolding get_subscriptions
  infos-Distinct =
      Distinct-select (is_for target on_change) s.subscriptions.subscriptions v.distinct

  get_mailbox-publish_limited :
      (answer : RateLimiter × Bool)
      → get_mailbox j (publish_limited handler context target s answer).notify.mailboxes ≡ (
          if answer.1 && has_mailbox j infos
          then after_push message (get_mailbox j s.notify.mailboxes)
          else get_mailbox j s.notify.mailboxes)
  unfolding publish_limited notify
  get_mailbox-publish_limited (limiter, true) =
      get_mailbox-deliver_all handler message s.notify infos j infos-Distinct
  get_mailbox-publish_limited (limiter, false) = refl

  get_mailbox-publish_changed :
      (route : Option RouteDefinition)
      → get_mailbox j (publish_changed handler context now target s route).notify.mailboxes ≡ (
          if passes now target s route && has_mailbox j infos
          then after_push message (get_mailbox j s.notify.mailboxes)
          else get_mailbox j s.notify.mailboxes)
  unfolding publish_changed
  get_mailbox-publish_changed none = refl
  get_mailbox-publish_changed (some route) =
      get_mailbox-publish_limited
        (should_notify now target route.minimum_notify_interval_ms s.rate_limiter)

-- A change is pushed once into the mailbox of each mailbox subscription to it if its route is found
-- and the rate limiter lets it through, and otherwise into none; no other mailbox changes. The
-- subscriptions have different ids, below the next one.
pub get_mailbox-publish :
    (handler : CustomHandler) (context : ProductContext) (now : ℕ) (target : NotificationTarget)
    (s : PublishState) (j : ℕ)
    → IsValid s.subscriptions
    → get_mailbox j (publish handler context now target on_change s).notify.mailboxes ≡ (
        if is_announced context now target s
          && has_mailbox j (get_subscriptions s.subscriptions target on_change)
        then after_push
            (record { target = target; trigger = on_change })
            (get_mailbox j s.notify.mailboxes)
        else get_mailbox j s.notify.mailboxes)
unfolding publish is_announced
get_mailbox-publish handler context now target s j v =
    get_mailbox-publish_changed handler context now target s j v (resolve_route context target)
