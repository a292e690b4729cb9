-- ===== src/Publisher/RateLimiter.antt =====
-- core/publisher/include/NotificationRateLimiter.hpp. Times are nanoseconds of the steady clock,
-- which the caller of the model passes in.
pub mod Spacing
use printer_fw.Base.{ℕ, ◌+◌, ◌*◌, Bool, true, false, Option, none, some, List, ltb, if◌then◌else◌}
use printer_fw.Base.Maps
use printer_fw.Notification.{NotificationTarget, make_notification_target_key}

-- `lastNotifyTimes_`
abbrev pub RateLimiter : Type 0
RateLimiter = List (ℕ × ℕ)

-- now - last < minimumInterval
unfoldable pub is_early : ℕ → ℕ → ℕ → Bool
is_early interval now last = ltb now (last + interval * 1000000)

unfoldable pub should_notify : ℕ → NotificationTarget → ℕ → RateLimiter → RateLimiter × Bool
unfolding make_notification_target_key is_early
should_notify now target interval r = elim (Maps.find (make_notification_target_key target) r) [
  | none ↦ (Maps.put (make_notification_target_key target) now r, true)
  | some last ↦
      if is_early interval now last
      then (r, false)
      else (Maps.put (make_notification_target_key target) now r, true)
]
