-- ===== src/Publisher/Periodic/Due.antt =====
-- The schedule of PeriodicNotifyManager (core/publisher/src/PeriodicNotifyManager.cpp).
use printer_fw.Base.{
  ℕ, ◌+◌, ◌≡◌, refl, Option, none, some, ◌==◌, if◌then◌else◌, Bool-cases, inl, inr, ==_iff,
}
use printer_fw.Base.Maps
use printer_fw.Publisher.Periodic.{PeriodicCondition, PeriodicNotifyManager, update_next_time}

-- A condition with its next time one interval later.
abbrev pub advance : Option PeriodicCondition → Option PeriodicCondition
advance none = none
advance (some condition) =
    some (record condition { next_notify_time = condition.next_notify_time + condition.interval })

-- An update moves the next time of the condition of its id, if there is one, by one interval, and
-- no other.
find-update_next_time :
    (id j : ℕ) (m : PeriodicNotifyManager)
    → Maps.find j (update_next_time id m)
      ≡ (if id == j then advance (Maps.find j m) else Maps.find j m)
unfolding update_next_time
find-update_next_time id j m = by_found (Maps.find id m) refl
  where
    updated : Option PeriodicCondition → PeriodicNotifyManager
    updated none = m
    updated (some condition) =
        Maps.put id
          (record condition { next_notify_time = condition.next_notify_time + condition.interval })
          m

    by_found :
        (o : Option PeriodicCondition)
        → Maps.find id m ≡ o
        → Maps.find j (updated o) ≡ (if id == j then advance (Maps.find j m) else Maps.find j m)
    by_found none e = elim (Bool-cases (id == j)) [
      | inl hit ↦ rw (hit, ← (==_iff id j).0 hit, e) refl
      | inr miss ↦ rw miss refl
    ]
    by_found (some c) e = rw (Maps.find-put id j _ m) (elim (Bool-cases (id == j)) [
      | inl hit ↦ rw (hit, ← (==_iff id j).0 hit, e) refl
      | inr miss ↦ rw miss refl
    ])
