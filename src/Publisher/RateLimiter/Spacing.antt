-- ===== src/Publisher/RateLimiter/Spacing.antt =====
-- Series of calls of NotificationRateLimiter::ShouldNotify (core/publisher/include).
use printer_fw.Base.{
  ℕ, ◌+◌, ◌*◌, ◌≤◌, ◌≡◌, refl, Bool, true, false, Option, none, some, List, [], ◌∷◌, ◌==◌,
  if◌then◌else◌, arith, Bool-cases, inl, inr, subst, ◌⊎◌, ==_iff, ◌∙◌,
}
use printer_fw.Base.Maps
use printer_fw.Notification.{NotificationTarget, make_notification_target_key}
use printer_fw.Publisher.RateLimiter.{RateLimiter, should_notify, is_early}

-- One call: its time, its target and its minimum interval.
pub record Call : Type 0 where
  pub now : ℕ
  pub target : NotificationTarget
  pub interval : ℕ

-- The times at which a series of calls lets the targets of one key through.
unfoldable pub passed : ℕ → RateLimiter → List Call → List ℕ
passed key r [] = []
passed key r (c ∷ cs) =
    let rest = passed key (should_notify c.now c.target c.interval r).0 cs in
    if make_notification_target_key c.target == key
    then (if (should_notify c.now c.target c.interval r).1 then c.now ∷ rest else rest)
    else rest

-- From the time before, if there is one, each time is `gap` nanoseconds after the one before it.
abbrev pub IsAfter : ℕ → Option ℕ → ℕ → Type 0
IsAfter gap none now = Unit
IsAfter gap (some last) now = last + gap ≤ now

abbrev pub IsSpaced : ℕ → Option ℕ → List ℕ → Type 0
IsSpaced gap last [] = Unit
IsSpaced gap last (t ∷ ts) = IsAfter gap last t × IsSpaced gap (some t) ts

-- Every call with this key has this interval.
abbrev pub HasInterval : ℕ → ℕ → List Call → Type 0
HasInterval key interval [] = Unit
HasInterval key interval (c ∷ cs) =
    (make_notification_target_key c.target ≡ key → c.interval ≡ interval)
    × HasInterval key interval cs

-- `should_notify`, by what `find` answers.
abbrev answer : ℕ → NotificationTarget → ℕ → RateLimiter → Option ℕ → RateLimiter × Bool
answer now target interval r none = (Maps.put (make_notification_target_key target) now r, true)
answer now target interval r (some last) =
    if is_early interval now last
    then (r, false)
    else (Maps.put (make_notification_target_key target) now r, true)

late_enough :
    (now interval last : ℕ) → is_early interval now last ≡ false → last + interval * 1000000 ≤ now
unfolding is_early
late_enough now interval last late = ground (arith, late)

answer_cases :
    (now : ℕ) (target : NotificationTarget) (interval : ℕ) (r : RateLimiter) (o : Option ℕ)
    → ((answer now target interval r o
          ≡ (Maps.put (make_notification_target_key target) now r, true))
        × IsAfter (interval * 1000000) o now)
      ⊎ (answer now target interval r o ≡ (r, false))
answer_cases now target interval r none = inl (refl, tt)
answer_cases now target interval r (some last) = elim (Bool-cases (is_early interval now last)) [
  | inl early ↦ inr (rw early refl)
  | inr late ↦ inl (rw late refl, late_enough now interval last late)
]

-- A call is either recorded and passes, after the gap, or changes nothing and does not pass.
should_notify_cases :
    (now : ℕ) (target : NotificationTarget) (interval : ℕ) (r : RateLimiter)
    → ((should_notify now target interval r
          ≡ (Maps.put (make_notification_target_key target) now r, true))
        × IsAfter (interval * 1000000) (Maps.find (make_notification_target_key target) r) now)
      ⊎ (should_notify now target interval r ≡ (r, false))
unfolding should_notify
should_notify_cases now target interval r =
    answer_cases now target interval r (Maps.find (make_notification_target_key target) r)

abbrev recorded_in : RateLimiter → Call → RateLimiter
recorded_in r c = Maps.put (make_notification_target_key c.target) c.now r

IsAfter-of-key :
    (r : RateLimiter) (c : Call) (key interval : ℕ)
    → make_notification_target_key c.target ≡ key
    → (make_notification_target_key c.target ≡ key → c.interval ≡ interval)
    → IsAfter (c.interval * 1000000) (Maps.find (make_notification_target_key c.target) r) c.now
    → IsAfter (interval * 1000000) (Maps.find key r) c.now
IsAfter-of-key r c key interval same given after =
    subst (λ k. IsAfter (interval * 1000000) (Maps.find k r) c.now) same
      (subst
        (λ i. IsAfter (i * 1000000) (Maps.find (make_notification_target_key c.target) r) c.now)
        (given same) after)

-- Whatever the times of the calls and whatever other targets do: if all calls with one key have one
-- interval, the notifications of that key that pass are at least that interval apart, and the first
-- of them is as far from the time recorded before, if there is one.
pub passed-IsSpaced :
    (key interval : ℕ) (r : RateLimiter) (calls : List Call)
    → HasInterval key interval calls
    → IsSpaced (interval * 1000000) (Maps.find key r) (passed key r calls)
unfolding passed
passed-IsSpaced key interval r [] h = tt
passed-IsSpaced key interval r (c ∷ cs) h = elim (should_notify_cases c.now c.target c.interval r) [
  | inr kept ↦ rw kept ground (arith, passed-IsSpaced key interval r cs h.1)
  | inl (recorded, after) ↦ elim (Bool-cases (make_notification_target_key c.target == key)) [
    | inl hit ↦
        rw (recorded, hit)
          (
            IsAfter-of-key r c key interval ((==_iff _ _).0 hit) h.0 after,
            subst (λ o. IsSpaced (interval * 1000000) o (passed key (recorded_in r c) cs))
                (Maps.find-put (make_notification_target_key c.target) key c.now r ∙ rw hit refl)
                (passed-IsSpaced key interval (recorded_in r c) cs h.1),
          )
    | inr miss ↦
        rw (recorded, miss)
          (subst (λ o. IsSpaced (interval * 1000000) o (passed key (recorded_in r c) cs))
            (Maps.find-put (make_notification_target_key c.target) key c.now r ∙ rw miss refl)
            (passed-IsSpaced key interval (recorded_in r c) cs h.1))
  ]
]
