-- ===== src/Api/Delivery.antt =====
-- From RIM_Subscribe of products/common/rim_api.cpp through PublishManager::Publish to
-- RIM_GetNotification.
use printer_fw.Base.{
  ℕ, ◌+◌, ◌<◌, ◌≡◌, refl, ap, ◌∙◌, Bool, true, false, ◌&&◌, none, some, List, [], ◌∷◌, ◌++◌, arith,
  select, if◌then◌else◌,
}
use printer_fw.Notification.{
  NotificationTarget, on_change, mailbox, NotificationMessage, SubscriptionInfo, same_target,
}
use printer_fw.Publisher.Mailbox.{
  SubscriberMailbox, new_mailbox, get_mailbox, push, pop, try_get_notification,
}
use printer_fw.Publisher.Subscriptions.{get_subscriptions, is_for, create_subscription_id, register}
use printer_fw.Publisher.Subscriptions.Ids.{IsValid, Below, add-IsValid}
use printer_fw.Publisher.Notify.Delivery.{has_mailbox, after_push}
use printer_fw.Publisher.Publish.{publish}
use printer_fw.Publisher.Publish.Laws.{is_announced, get_mailbox-publish}
use printer_fw.Api.{RiManagerContext, failed, written, no_data}
use printer_fw.Api.Subscribe.{
  SubscriptionRequest, info_of, subscribe_request, rim_subscribe, rim_get_notification,
  message_response,
}

-- The last of the subscriptions is the only one with its id.
has_mailbox-last :
    (p : SubscriptionInfo → Bool) (infos : List SubscriptionInfo) (info : SubscriptionInfo)
    → Below info.id infos
    → info.method ≡ mailbox
    → has_mailbox info.id (select p (infos ++ info ∷ [])) ≡ p info
unfolding has_mailbox select
has_mailbox-last p [] info b m = ground arith
has_mailbox-last p (x ∷ xs) info b m = ground (arith, has_mailbox-last p xs info b.1 m)

-- PublishManager::Publish for a change, in the manager of this context.
abbrev pub published : ℕ → NotificationTarget → RiManagerContext → RiManagerContext
published now target g = record g {
  publish = publish none g.product_context now target on_change g.publish;
}

abbrev pub target_of : SubscriptionRequest → NotificationTarget
target_of request = record { type = request.target_type; id = request.target_id }

-- What RIM_GetNotification takes out of a mailbox.
rim_get_notification-mailbox :
    (g : RiManagerContext) (id : ℕ) (m : SubscriberMailbox)
    → get_mailbox id g.publish.notify.mailboxes ≡ m
    → (rim_get_notification (some g) id true).1 ≡ message_response (pop m).1
unfolding rim_get_notification try_get_notification
rim_get_notification-mailbox g id m e = ap (λ x. message_response (pop x).1) e

-- A mailbox that was new before the message, or got none.
taken :
    (message : NotificationMessage) (b : Bool)
    → message_response
        (pop (if b then after_push message (new_mailbox 1000) else new_mailbox 1000)).1
      ≡ (if b then written message else failed no_data)
unfolding pop push
taken message true = refl
taken message false = refl

&&-true : (b : Bool) → (b && true) ≡ b
&&-true true = refl
&&-true false = refl

module _ (now later : ℕ) (g : RiManagerContext) (request : SubscriptionRequest)
    (target : NotificationTarget) (valid : IsValid g.publish.subscriptions)
    (small : g.publish.subscriptions.next_id + 1 < 18446744073709551616)
    (fresh : get_mailbox g.publish.subscriptions.next_id g.publish.notify.mailboxes
      ≡ new_mailbox 1000)
    (by_mailbox : request.method ≡ mailbox) (of_changes : request.trigger ≡ on_change) where
  abbrev id : ℕ
  id = g.publish.subscriptions.next_id

  abbrev subscribed : RiManagerContext
  subscribed = (subscribe_request now g request).0

  subscribed-IsValid : IsValid subscribed.publish.subscriptions
  unfolding subscribe_request
  subscribed-IsValid =
      (add-IsValid g.publish.subscriptions (info_of request) (λ i. refl) small valid).0

  subscribed-served :
      has_mailbox id (get_subscriptions subscribed.publish.subscriptions target on_change)
      ≡ same_target (target_of request) target
  unfolding subscribe_request get_subscriptions create_subscription_id register
  subscribed-served =
      has_mailbox-last (is_for target on_change) g.publish.subscriptions.subscriptions
        (info_of request id) valid.below by_mailbox
      ∙ rw of_changes (&&-true (same_target (target_of request) target))

  -- With valid subscriptions, ids left, and no mailbox yet for the next id: RIM_Subscribe for the
  -- changes of a target, by mailbox, hands out that id; and after a later change of any target,
  -- RIM_GetNotification for the id writes that change if it is announced and is of the subscribed
  -- target, and reports no data otherwise.
  pub rim_get_notification-published :
      (rim_subscribe now (some g) (some request) true ≡ (some subscribed, written id))
      × ((rim_get_notification (some (published later target subscribed)) id true).1 ≡ (
          if is_announced g.product_context later target subscribed.publish
            && same_target (target_of request) target
          then written (record { target = target; trigger = on_change })
          else failed no_data))
  unfolding rim_subscribe subscribe_request
  rim_get_notification-published = (
    refl,
    rim_get_notification-mailbox (published later target subscribed) id _ (
          get_mailbox-publish none g.product_context later target subscribed.publish id
            subscribed-IsValid)
        ∙ ap
            (λ m.
              message_response
                (pop (
                  if is_announced g.product_context later target subscribed.publish
                    && has_mailbox id
                        (get_subscriptions subscribed.publish.subscriptions target on_change)
                  then after_push (record { target = target; trigger = on_change }) m
                  else m)).1)
            fresh
        ∙ taken (record { target = target; trigger = on_change })
            (is_announced g.product_context later target subscribed.publish
              && has_mailbox id
                  (get_subscriptions subscribed.publish.subscriptions target on_change))
        ∙ ap
            (λ b.
              if is_announced g.product_context later target subscribed.publish && b
              then written (record { target = target; trigger = on_change })
              else failed no_data)
            subscribed-served,
  )
