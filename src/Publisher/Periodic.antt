-- ===== src/Publisher/Periodic.antt =====
-- core/publisher/src/PeriodicNotifyManager.cpp. Times are nanoseconds of the steady clock.
pub mod Due
use printer_fw.Base.{ℕ, ◌+◌, Bool, true, Option, none, some, List, leb, select}
use printer_fw.Base.Maps

pub record PeriodicCondition : Type 0 where
  pub subscription_id : ℕ
  pub interval : ℕ
  pub next_notify_time : ℕ

-- `conditions_`
abbrev pub PeriodicNotifyManager : Type 0
PeriodicNotifyManager = List (ℕ × PeriodicCondition)

unfoldable pub register : PeriodicNotifyManager → PeriodicCondition → PeriodicNotifyManager
register m condition = Maps.put condition.subscription_id condition m

abbrev pub is_due : ℕ → PeriodicCondition → Bool
is_due now condition = leb condition.next_notify_time now

unfoldable pub get_due_conditions : ℕ → PeriodicNotifyManager → List PeriodicCondition
unfolding select
get_due_conditions now m = select (is_due now) (Maps.values m)

unfoldable pub update_next_time : ℕ → PeriodicNotifyManager → PeriodicNotifyManager
update_next_time id m = elim (Maps.find id m) [
  | none ↦ m
  | some condition ↦
      Maps.put id
        (record condition { next_notify_time = condition.next_notify_time + condition.interval }) m
]
