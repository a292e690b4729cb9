-- ===== src/Publisher/Mailbox/Bounds.antt =====
-- Histories of one mailbox (core/publisher/include/SubscriberMailbox.hpp), and of several.
use printer_fw.Base.{
  ℕ, ◌+◌, ◌≤◌, ◌<◌, ◌%◌, ◌≡◌, refl, ap, ◌∙◌, sym, Option, none, some, List, [], ◌∷◌, ◌++◌,
  append_assoc, append-nil, leb, if◌then◌else◌, arith, length, length-append, inc64, ◌≢◌,
  Bool-cases, inl, inr,
}
use printer_fw.Base.Maps
use printer_fw.Notification.{NotificationMessage}
use printer_fw.Publisher.Mailbox.{
  SubscriberMailbox, push, pop, MailboxManager, get_mailbox, push_to, get_overflow_count,
}

pub data Op : Type 0 where
  pushes : NotificationMessage → Op
  pops : Op

-- The mailbox at the end; what was delivered, what was accepted, and how many were turned away.
pub record Trace : Type 0 where
  pub final : SubscriberMailbox
  pub delivered : List NotificationMessage
  pub accepted : List NotificationMessage
  pub refused : ℕ

abbrev pub to_list : Option NotificationMessage → List NotificationMessage
to_list none = []
to_list (some x) = x ∷ []

pub run : SubscriberMailbox → List Op → Trace
run m [] = record { final = m; delivered = []; accepted = []; refused = 0 }
run m (pushes x ∷ ops) =
    let (m', ok) = push m x in
    let t = run m' ops in
    if ok then record t { accepted = x ∷ t.accepted } else record t { refused = t.refused + 1 }
run m (pops ∷ ops) =
    let (m', out) = pop m in
    let t = run m' ops in record t { delivered = to_list out ++ t.delivered }

abbrev pub IsBounded : SubscriberMailbox → Type 0
IsBounded m = length m.notifications ≤ m.max_size

pub push-IsBounded :
    (m : SubscriberMailbox) (x : NotificationMessage) → IsBounded m → IsBounded (push m x).0
unfolding push
push-IsBounded m x h = ground (arith, length-append m.notifications (x ∷ []))

pop-IsBounded : (m : SubscriberMailbox) → IsBounded m → IsBounded (pop m).0
unfolding pop
pop-IsBounded m h = ground arith

-- What a run from the mailbox with these fields promises.
abbrev pub Conserves : ℕ → List NotificationMessage → Trace → Type 0
Conserves overflow l t =
    (t.delivered ++ t.final.notifications ≡ l ++ t.accepted)
    × IsBounded t.final
    × (t.final.overflow_count ≡ (overflow + t.refused) % 18446744073709551616)

-- Over any history of pushes and pops of a mailbox that is within its size, what was delivered
-- followed by what is left is what was there followed by what was accepted, in order; the mailbox
-- stays within its size; and its overflow count grows by one for each message that was turned away,
-- modulo 2 ^ 64.
pub run-Conserves :
    (max_size overflow : ℕ) (l : List NotificationMessage) (ops : List Op)
    → length l ≤ max_size
    → overflow < 18446744073709551616
    → Conserves overflow l
        (run (record { max_size = max_size; overflow_count = overflow; notifications = l }) ops)
unfolding run push pop
run-Conserves max_size overflow l [] h small = (sym (append-nil l), h, omega arith)
run-Conserves max_size overflow l (pushes x ∷ ops) h small =
    elim (Bool-cases (leb max_size (length l))) [
      | inl e ↦
          let (order, bounded, counted) =
            run-Conserves max_size (inc64 overflow) l ops h (omega arith) in
          rw e (order, bounded, omega (arith, counted))
      | inr e ↦
          let (order, bounded, counted) =
            run-Conserves max_size overflow (l ++ x ∷ []) ops
              (ground (arith, length-append l (x ∷ []))) small in
          rw e (order ∙ append_assoc l (x ∷ []) _, bounded, counted)
    ]
run-Conserves max_size overflow [] (pops ∷ ops) h small =
    run-Conserves max_size overflow [] ops h small
run-Conserves max_size overflow (y ∷ l) (pops ∷ ops) h small =
    let (order, bounded, counted) = run-Conserves max_size overflow l ops (omega arith) small in
    (ap (◌∷◌ y) order, bounded, counted)

-- A push to one subscriber leaves the mailboxes and the overflow counts of all others alone.
push_to-others :
    (id j : ℕ) (m : MailboxManager) (x : NotificationMessage)
    → id ≢ j
    → (get_mailbox j (push_to id m x).0 ≡ get_mailbox j m)
      × (get_overflow_count j (push_to id m x).0 ≡ get_overflow_count j m)
unfolding push_to get_mailbox get_overflow_count
push_to-others id j m x ne =
    let same = Maps.find-put_ne id j (push (get_mailbox id m) x).0 m ne in
    (rw (same, get_mailbox) refl, rw (same, get_overflow_count) refl)
