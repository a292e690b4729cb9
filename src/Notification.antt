-- ===== src/Notification.antt =====
-- The plain data of the publisher: core/publisher/include/NotificationTargetType.hpp,
-- NotificationTarget.hpp, NotificationTrigger.hpp, DeliveryMethod.hpp, NotificationMessage.hpp,
-- SubscriptionInfo.hpp, CallbackNotification.hpp and PublisherInput.hpp, and, of core/common,
-- EventPriority.hpp, CompressionPolicy.hpp and NotificationTargetKey.hpp.
-- An `enum class` is compared by its underlying value, `ordinal`.
use printer_fw.Base.{ℕ, ◌*◌, ◌^◌, ◌≡◌, ◌↔◌, Bool, true, ◌&&◌, arith, ◌==◌, bit_or}

pub data NotificationTargetType : Type 0 where
  capability data_item facade : NotificationTargetType

abbrev pub ordinal : NotificationTargetType → ℕ
ordinal capability = 0
ordinal data_item = 1
ordinal facade = 2

pub record NotificationTarget : Type 0 where
  pub type : NotificationTargetType
  pub id : ℕ

pub data NotificationTrigger : Type 0 where
  on_change periodic : NotificationTrigger

abbrev pub trigger_ordinal : NotificationTrigger → ℕ
trigger_ordinal on_change = 0
trigger_ordinal periodic = 1

pub data DeliveryMethod : Type 0 where
  mailbox callback custom : DeliveryMethod

pub record NotificationMessage : Type 0 where
  pub target : NotificationTarget
  pub trigger : NotificationTrigger

pub record SubscriptionInfo : Type 0 where
  pub id : ℕ
  pub target : NotificationTarget
  pub method : DeliveryMethod
  pub trigger : NotificationTrigger

pub record CallbackNotification : Type 0 where
  pub subscription_id : ℕ
  pub target : NotificationTarget
  pub trigger : NotificationTrigger

pub data EventPriority : Type 0 where
  low normal high : EventPriority

abbrev pub priority_ordinal : EventPriority → ℕ
priority_ordinal low = 0
priority_ordinal normal = 1
priority_ordinal high = 2

pub data CompressionPolicy : Type 0 where
  uncompressed keep_oldest keep_latest : CompressionPolicy

pub record PublisherInput : Type 0 where
  pub target : NotificationTarget
  pub priority : EventPriority
  pub compression_policy : CompressionPolicy

-- a.type == b.type && a.id == b.id
abbrev pub same_target : NotificationTarget → NotificationTarget → Bool
same_target a b = (ordinal a.type == ordinal b.type) && (a.id == b.id)

abbrev pub same_trigger : NotificationTrigger → NotificationTrigger → Bool
same_trigger a b = trigger_ordinal a == trigger_ordinal b

-- The key of the rate limiter's map: (type << 32) | id.
unfoldable pub make_notification_target_key : NotificationTarget → ℕ
make_notification_target_key t = bit_or (ordinal t.type * 2 ^ 32) t.id

pub ordinal-injective : (a b : NotificationTargetType) → ordinal a ≡ ordinal b → a ≡ b
ordinal-injective a b h = ground arith

pub same_target_iff : (a b : NotificationTarget) → (same_target a b ≡ true) ↔ (a ≡ b)
same_target_iff a b = ground (arith, ordinal-injective a.type b.type)

pub same_trigger_iff : (a b : NotificationTrigger) → (same_trigger a b ≡ true) ↔ (a ≡ b)
same_trigger_iff a b = ground arith
