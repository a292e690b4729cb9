-- ===== src/Publisher/Subscriptions.antt =====
-- core/publisher/src/SubscriptionStore.cpp, and CallbackSubscriptionRegistry.hpp.
pub mod Ids
use printer_fw.Base.{
  ℕ, Bool, true, false, ◌&&◌, Option, none, some, List, [], ◌∷◌, ◌++◌, ◌==◌, if◌then◌else◌, inc64,
  select,
}
use printer_fw.Base.Maps
use printer_fw.Notification.{
  NotificationTarget, NotificationTrigger, SubscriptionInfo, same_target, same_trigger,
  NotificationMessage, CallbackNotification,
}

pub record SubscriptionStore : Type 0 where
  pub next_id : ℕ
  pub subscriptions : List SubscriptionInfo

abbrev pub empty_store : SubscriptionStore
empty_store = record { next_id = 1; subscriptions = [] }

unfoldable pub create_subscription_id : SubscriptionStore → SubscriptionStore × ℕ
create_subscription_id s = (record s { next_id = inc64 s.next_id }, s.next_id)

unfoldable pub register : SubscriptionStore → SubscriptionInfo → SubscriptionStore
register s info = record s { subscriptions = s.subscriptions ++ info ∷ [] }

unfoldable pub find_in : ℕ → List SubscriptionInfo → Option SubscriptionInfo
find_in id [] = none
find_in id (info ∷ infos) = let rest = find_in id infos in if info.id == id then some info else rest

unfoldable pub find : SubscriptionStore → ℕ → Option SubscriptionInfo
unfolding find_in
find s id = find_in id s.subscriptions

-- What the three `continue`s let through.
abbrev pub is_for : NotificationTarget → NotificationTrigger → SubscriptionInfo → Bool
is_for target trigger info = same_target info.target target && same_trigger info.trigger trigger

unfoldable pub get_subscriptions :
    SubscriptionStore → NotificationTarget → NotificationTrigger → List SubscriptionInfo
unfolding select
get_subscriptions s target trigger = select (is_for target trigger) s.subscriptions

-- The callbacks by subscription id; a callback is named by a number.
abbrev pub CallbackRegistry : Type 0
CallbackRegistry = List (ℕ × ℕ)

abbrev pub subscribe : CallbackRegistry → ℕ → ℕ → CallbackRegistry
subscribe r id callback = Maps.put id callback r

-- One call of a callback with its arguments.
pub record Invocation : Type 0 where
  pub callback : ℕ
  pub subscription_id : ℕ
  pub message : NotificationMessage

-- `Notify`: the callback of the id is called, if there is one.
unfoldable pub notify : CallbackRegistry → ℕ → NotificationMessage → List Invocation
notify r id message = elim (Maps.find id r) [
  | none ↦ []
  | some callback ↦ record { callback = callback; subscription_id = id; message = message } ∷ []
]
