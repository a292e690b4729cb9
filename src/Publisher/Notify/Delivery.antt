-- ===== src/Publisher/Notify/Delivery.antt =====
-- Who gets a message of ChangeNotifyManager::Notify (core/publisher/include).
use printer_fw.Base.{
  ℕ, ◌≡◌, ◌≢◌, refl, ◌∙◌, ap, subst, Bool, true, false, ◌&&◌, List, [], ◌∷◌, ◌++◌, append_assoc,
  append-nil, ◌==◌, if◌then◌else◌, arith, All, Bool-cases, inl, inr, ==_iff, map, select, none,
  some,
}
use printer_fw.Base.Maps
use printer_fw.Notification.{
  NotificationMessage, SubscriptionInfo, DeliveryMethod, mailbox, callback, custom,
  CallbackNotification,
}
use printer_fw.Queue
use printer_fw.Queue.Policies.{fifo_insert}
use printer_fw.Publisher.Mailbox.{MailboxManager, get_mailbox, push_to, SubscriberMailbox}
use printer_fw.Publisher.Mailbox
use printer_fw.Publisher.Notify.{
  CustomHandler, NotifyState, deliver_mailbox, deliver_callback, deliver_custom, deliver,
  deliver_all,
}
use printer_fw.Publisher.Subscriptions.Ids.{Distinct}

abbrev pub is_mailbox : DeliveryMethod → Bool
is_mailbox mailbox = true
is_mailbox callback = false
is_mailbox custom = false

abbrev pub is_callback : DeliveryMethod → Bool
is_callback mailbox = false
is_callback callback = true
is_callback custom = false

-- Whether one of the subscriptions is that of the mailbox `id`.
unfoldable pub has_mailbox : ℕ → List SubscriptionInfo → Bool
has_mailbox id [] = false
has_mailbox id (info ∷ infos) =
    let rest = has_mailbox id infos in
    if (info.id == id) && is_mailbox info.method then true else rest

abbrev pub after_push : NotificationMessage → SubscriberMailbox → SubscriberMailbox
after_push message m = (Mailbox.push m message).0

pub get_mailbox-push_to :
    (id j : ℕ) (m : MailboxManager) (message : NotificationMessage)
    → get_mailbox j (push_to id m message).0
      ≡ (if id == j then after_push message (get_mailbox j m) else get_mailbox j m)
unfolding push_to get_mailbox
get_mailbox-push_to id j m message =
    rw (Maps.find-put id j (after_push message (get_mailbox id m)) m, get_mailbox)
      (elim (Bool-cases (id == j)) [
        | inl hit ↦ rw hit (ap (λ k. after_push message (get_mailbox k m)) ((==_iff id j).0 hit))
        | inr miss ↦ rw miss refl
      ])

pub deliver_mailbox-mailboxes :
    (id : ℕ) (message : NotificationMessage) (s : NotifyState)
    → (deliver_mailbox id message s).mailboxes ≡ (push_to id s.mailboxes message).0
unfolding deliver_mailbox
deliver_mailbox-mailboxes id message s = elim (Bool-cases (push_to id s.mailboxes message).1) [
  | inl e ↦ rw e refl
  | inr e ↦ rw e refl
]

pub deliver_custom-mailboxes :
    (handler : CustomHandler) (info : SubscriptionInfo) (message : NotificationMessage)
    (s : NotifyState)
    → (deliver_custom handler info message s).mailboxes ≡ s.mailboxes
unfolding deliver_custom
deliver_custom-mailboxes none info message s = refl
deliver_custom-mailboxes (some handler) info message s =
    elim (Bool-cases (handler s.custom_deliveries (info, message))) [
      | inl e ↦ rw e refl
      | inr e ↦ rw e refl
    ]

&&-false : (b : Bool) → (b && false) ≡ false
&&-false true = refl
&&-false false = refl

&&-true : (b : Bool) → (b && true) ≡ b
&&-true true = refl
&&-true false = refl

pub get_mailbox-deliver :
    (handler : CustomHandler) (message : NotificationMessage) (s : NotifyState)
    (info : SubscriptionInfo) (j : ℕ)
    → get_mailbox j (deliver handler message s info).mailboxes ≡ (
        if (info.id == j) && is_mailbox info.method
        then after_push message (get_mailbox j s.mailboxes)
        else get_mailbox j s.mailboxes)
unfolding deliver deliver_callback
get_mailbox-deliver handler message s info j = by_method info.method refl
  where
    by_method :
        (method : DeliveryMethod)
        → info.method ≡ method
        → get_mailbox j (deliver handler message s info).mailboxes ≡ (
            if (info.id == j) && is_mailbox info.method
            then after_push message (get_mailbox j s.mailboxes)
            else get_mailbox j s.mailboxes)
    by_method mailbox e =
        rw (e, &&-true (info.id == j), deliver_mailbox-mailboxes info.id message s)
          (get_mailbox-push_to info.id j s.mailboxes message)
    by_method callback e = rw (e, &&-false (info.id == j)) refl
    by_method custom e =
        rw
          (
            e,
            &&-false (info.id == j),
            deliver_custom-mailboxes handler (record info { method = custom }) message s,
          )
          refl

id-of-own : (a j : ℕ) (b : Bool) → ((a == j) && b) ≡ true → a ≡ j
id-of-own a j b h = ground arith

has_mailbox-absent :
    (j : ℕ) (infos : List SubscriptionInfo)
    → All (λ info. info.id ≢ j) infos
    → has_mailbox j infos ≡ false
unfolding has_mailbox
has_mailbox-absent j [] h = refl
has_mailbox-absent j (info ∷ infos) h = ground (arith, has_mailbox-absent j infos h.1)

-- Among subscriptions with different ids, each mailbox subscription gets the message once, in its
-- own mailbox, and every other mailbox stays as it is.
pub get_mailbox-deliver_all :
    (handler : CustomHandler) (message : NotificationMessage) (s : NotifyState)
    (infos : List SubscriptionInfo) (j : ℕ)
    → Distinct infos
    → get_mailbox j (deliver_all handler message s infos).mailboxes ≡ (
        if has_mailbox j infos
        then after_push message (get_mailbox j s.mailboxes)
        else get_mailbox j s.mailboxes)
unfolding deliver_all has_mailbox
get_mailbox-deliver_all handler message s [] j d = refl
get_mailbox-deliver_all handler message s (info ∷ infos) j d =
    rw
      (
        get_mailbox-deliver_all handler message (deliver handler message s info) infos j d.1,
        get_mailbox-deliver handler message s info j,
      )
      (elim (Bool-cases ((info.id == j) && is_mailbox info.method)) [
        | inl own ↦
            rw
              (
                own,
                has_mailbox-absent j infos
                    (subst (λ k. All (λ y. y.id ≢ k) infos) (id-of-own info.id j _ own) d.0),
              )
              refl
        | inr other ↦ rw other refl
      ])

abbrev pub to_callback : NotificationMessage → SubscriptionInfo → CallbackNotification
to_callback message info = record {
  subscription_id = info.id;
  target = message.target;
  trigger = message.trigger;
}

abbrev pub callbacks_of : NotificationMessage → List SubscriptionInfo → List CallbackNotification
callbacks_of message infos =
    map (to_callback message) (select (λ info. is_callback info.method) infos)

deliver_mailbox-callback_queue :
    (id : ℕ) (message : NotificationMessage) (s : NotifyState)
    → (deliver_mailbox id message s).callback_queue ≡ s.callback_queue
unfolding deliver_mailbox
deliver_mailbox-callback_queue id message s = elim (Bool-cases (push_to id s.mailboxes message).1) [
  | inl e ↦ rw e refl
  | inr e ↦ rw e refl
]

deliver_custom-callback_queue :
    (handler : CustomHandler) (info : SubscriptionInfo) (message : NotificationMessage)
    (s : NotifyState)
    → (deliver_custom handler info message s).callback_queue ≡ s.callback_queue
unfolding deliver_custom
deliver_custom-callback_queue none info message s = refl
deliver_custom-callback_queue (some handler) info message s =
    elim (Bool-cases (handler s.custom_deliveries (info, message))) [
      | inl e ↦ rw e refl
      | inr e ↦ rw e refl
    ]

-- The queue after the callback subscriptions among `infos` have joined it.
abbrev pub joined :
    NotificationMessage
    → Queue.EventQueue CallbackNotification
    → List SubscriptionInfo
    → Queue.EventQueue CallbackNotification
joined message q infos =
    if q.shutdown then q else record q { events = q.events ++ callbacks_of message infos }

callbacks_of-cons :
    (message : NotificationMessage) (info : SubscriptionInfo) (infos : List SubscriptionInfo)
    → callbacks_of message (info ∷ []) ++ callbacks_of message infos
      ≡ callbacks_of message (info ∷ infos)
unfolding select
callbacks_of-cons message info infos = elim (Bool-cases (is_callback info.method)) [
  | inl e ↦ rw e refl
  | inr e ↦ rw e refl
]

callback_queue-deliver :
    (handler : CustomHandler) (message : NotificationMessage) (s : NotifyState)
    (info : SubscriptionInfo)
    → (deliver handler message s info).callback_queue ≡ joined message s.callback_queue (info ∷ [])
unfolding deliver deliver_callback Queue.push fifo_insert select
callback_queue-deliver handler message s info =
    by_method (record info { method = mailbox }) info.method
  where
    by_method :
        (base : SubscriptionInfo) (method : DeliveryMethod)
        → (deliver handler message s (record base { method = method })).callback_queue
          ≡ joined message s.callback_queue (record base { method = method } ∷ [])
    by_method base mailbox =
        rw (deliver_mailbox-callback_queue base.id message s)
          (elim (Bool-cases s.callback_queue.shutdown) [
            | inl e ↦ rw e refl
            | inr e ↦ rw (e, append-nil s.callback_queue.events) refl
          ])
    by_method base callback = elim (Bool-cases s.callback_queue.shutdown) [
      | inl e ↦ rw e refl
      | inr e ↦ rw e refl
    ]
    by_method base custom =
        rw (deliver_custom-callback_queue handler (record base { method = custom }) message s)
          (elim (Bool-cases s.callback_queue.shutdown) [
            | inl e ↦ rw e refl
            | inr e ↦ rw (e, append-nil s.callback_queue.events) refl
          ])

-- Unless the callback queue is shut down, the callback subscriptions among those served, and no
-- others, join it in their order; a queue that is shut down stays as it is.
pub callback_queue-deliver_all :
    (handler : CustomHandler) (message : NotificationMessage) (s : NotifyState)
    (infos : List SubscriptionInfo)
    → (deliver_all handler message s infos).callback_queue ≡ joined message s.callback_queue infos
unfolding deliver_all select
callback_queue-deliver_all handler message s [] = elim (Bool-cases s.callback_queue.shutdown) [
  | inl e ↦ rw e refl
  | inr e ↦ rw (e, append-nil s.callback_queue.events) refl
]
callback_queue-deliver_all handler message s (info ∷ infos) =
    rw
      (
        callback_queue-deliver_all handler message (deliver handler message s info) infos,
        callback_queue-deliver handler message s info,
      )
      (elim (Bool-cases s.callback_queue.shutdown) [
        | inl e ↦ rw e refl
        | inr e ↦ rw e (
            ap (λ l. record { shutdown = false; events = l })
              (append_assoc s.callback_queue.events _ _
                ∙ ap (λ l. s.callback_queue.events ++ l) (callbacks_of-cons message info infos)))
      ])
