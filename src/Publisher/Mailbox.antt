-- ===== src/Publisher/Mailbox.antt =====
-- core/publisher/include/SubscriberMailbox.hpp, NotificationReceiver.hpp and
-- SubscriberMailboxManager.hpp with its source file.
pub mod Bounds
use printer_fw.Base.{
  ℕ, ◌%◌, Bool, true, false, Option, none, some, List, [], ◌∷◌, ◌++◌, leb, if◌then◌else◌, length,
  inc64,
}
use printer_fw.Base.Maps
use printer_fw.Notification.{NotificationMessage}

-- `notifications` is the queue, oldest first.
pub record SubscriberMailbox : Type 0 where
  pub max_size : ℕ
  pub overflow_count : ℕ
  pub notifications : List NotificationMessage

abbrev pub new_mailbox : ℕ → SubscriberMailbox
new_mailbox max_size = record { max_size = max_size; overflow_count = 0; notifications = [] }

unfoldable pub push : SubscriberMailbox → NotificationMessage → SubscriberMailbox × Bool
push m message =
    if leb m.max_size (length m.notifications)
    then (record m { overflow_count = inc64 m.overflow_count }, false)
    else (record m { notifications = m.notifications ++ message ∷ [] }, true)

unfoldable pub pop : SubscriberMailbox → SubscriberMailbox × Option NotificationMessage
pop m = elim m.notifications [
  | [] ↦ (m, none)
  | message ∷ rest ↦ (record m { notifications = rest }, some message)
]

-- The count is cut to 32 bits.
unfoldable pub count : SubscriberMailbox → ℕ
count m = length m.notifications % 4294967296

abbrev pub MailboxManager : Type 0
MailboxManager = List (ℕ × SubscriberMailbox)

-- `mailboxes_[id]`, which makes a mailbox of the default size.
unfoldable pub get_mailbox : ℕ → MailboxManager → SubscriberMailbox
get_mailbox id m = elim (Maps.find id m) [ none ↦ new_mailbox 1000 | some mailbox ↦ mailbox ]

-- `GetMailbox(id).Push(message)`
unfoldable pub push_to : ℕ → MailboxManager → NotificationMessage → MailboxManager × Bool
unfolding push get_mailbox
push_to id m message =
    let (mailbox, delivered) = push (get_mailbox id m) message in (Maps.put id mailbox m, delivered)

-- `GetMailbox(id).Pop(message)`, the receiver's `TryGetNotification`.
unfoldable pub try_get_notification :
    ℕ → MailboxManager → MailboxManager × Option NotificationMessage
unfolding pop get_mailbox
try_get_notification id m =
    let (mailbox, message) = pop (get_mailbox id m) in (Maps.put id mailbox m, message)

-- `GetMailbox(id).Count()`: the mailbox is made here too.
unfoldable pub get_mailbox_count : ℕ → MailboxManager → MailboxManager × ℕ
unfolding count get_mailbox
get_mailbox_count id m = (Maps.put id (get_mailbox id m) m, count (get_mailbox id m))

unfoldable pub get_overflow_count : ℕ → MailboxManager → ℕ
get_overflow_count id m = elim (Maps.find id m) [ none ↦ 0 | some mailbox ↦ mailbox.overflow_count ]
