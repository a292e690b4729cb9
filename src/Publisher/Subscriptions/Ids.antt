-- ===== src/Publisher/Subscriptions/Ids.antt =====
-- The ids and the searches of SubscriptionStore (core/publisher/src/SubscriptionStore.cpp).
use printer_fw.Base.{
  ℕ, ◌+◌, ◌≤◌, ◌<◌, ◌≡◌, ◌≢◌, subst, append-nil, ◌∙◌, sym, some, List, [], ◌∷◌, ◌++◌, arith, inc64,
  select, select-append, All, All-append,
}
use printer_fw.Notification.{
  NotificationTarget, NotificationTrigger, SubscriptionInfo, same_target_iff, same_trigger_iff,
}
use printer_fw.Publisher.Subscriptions.{
  SubscriptionStore, create_subscription_id, register, find_in, find, is_for, get_subscriptions,
}

-- The registered ids differ, and are below the next one.
abbrev pub Below : ℕ → List SubscriptionInfo → Type 0
Below n = All (λ info. info.id < n)

abbrev pub Distinct : List SubscriptionInfo → Type 0
Distinct [] = Unit
Distinct (x ∷ xs) = All (λ y. y.id ≢ x.id) xs × Distinct xs

pub record IsValid (s : SubscriptionStore) : Type 0 where
  pub below : Below s.next_id s.subscriptions
  pub distinct : Distinct s.subscriptions

-- `RIM_Subscribe` takes an id and registers under it.
abbrev pub add : SubscriptionStore → (ℕ → SubscriptionInfo) → SubscriptionStore
add s make = register (create_subscription_id s).0 (make (create_subscription_id s).1)

Below-mono : (n m : ℕ) (xs : List SubscriptionInfo) → n ≤ m → Below n xs → Below m xs
Below-mono n m [] le h = tt
Below-mono n m (x ∷ xs) le h = (omega arith, Below-mono n m xs le h.1)

Distinct-snoc :
    (xs : List SubscriptionInfo) (e : SubscriptionInfo)
    → Distinct xs
    → Below e.id xs
    → Distinct (xs ++ e ∷ [])
Distinct-snoc [] e d b = (tt, tt)
Distinct-snoc (x ∷ xs) e d b =
    (All-append (λ y. y.id ≢ x.id) xs (e ∷ []) d.0 (omega arith, tt), Distinct-snoc xs e d.1 b.1)

find_in-snoc :
    (xs : List SubscriptionInfo) (e : SubscriptionInfo)
    → Below e.id xs
    → (find_in e.id (xs ++ e ∷ []) ≡ some e)
      × ((j : ℕ) → j ≢ e.id → find_in j (xs ++ e ∷ []) ≡ find_in j xs)
unfolding find_in
find_in-snoc [] e b = (ground arith, λ j ne. ground arith)
find_in-snoc (x ∷ xs) e b =
    let (found, others) = find_in-snoc xs e b.1 in
    (ground arith, λ j ne. ground (arith, others j ne))

-- In a valid store, and until the 64 bits are used up, a subscription registered under a new id
-- keeps the store valid (the ids differ and are below the next one), is found under its id, and
-- changes no other search.
pub add-IsValid :
    (s : SubscriptionStore) (make : ℕ → SubscriptionInfo)
    → ((id : ℕ) → (make id).id ≡ id)
    → s.next_id + 1 < 18446744073709551616
    → IsValid s
    → IsValid (add s make)
      × (find (add s make) s.next_id ≡ some (make s.next_id))
      × ((j : ℕ) → j ≢ s.next_id → find (add s make) j ≡ find s j)
unfolding create_subscription_id register find
add-IsValid s make named small v =
    let named_now = named s.next_id in
    let below_new = subst (λ n. Below n s.subscriptions) (sym named_now) v.below in
    let (found, others) = find_in-snoc s.subscriptions (make s.next_id) below_new in
    (
      record {
        below =
            All-append (λ info. info.id < inc64 s.next_id) s.subscriptions (make s.next_id ∷ [])
              (Below-mono s.next_id (inc64 s.next_id) s.subscriptions (omega arith) v.below)
              (omega arith, tt);
        distinct = Distinct-snoc s.subscriptions (make s.next_id) v.distinct below_new;
      },
      subst (λ n. find_in n (s.subscriptions ++ make s.next_id ∷ []) ≡ some (make s.next_id))
          named_now found,
      λ j ne. others j (λ e. ne (e ∙ named_now)),
    )

-- A registered subscription is added at the end of those served for its own target and trigger, and
-- to those of no other target or trigger.
get_subscriptions-register :
    (s : SubscriptionStore) (info : SubscriptionInfo) (target : NotificationTarget)
    (trigger : NotificationTrigger)
    → (((info.target ≡ target) × (info.trigger ≡ trigger))
        → get_subscriptions (register s info) target trigger
          ≡ get_subscriptions s target trigger ++ info ∷ [])
      × ((¬ ((info.target ≡ target) × (info.trigger ≡ trigger)))
          → get_subscriptions (register s info) target trigger ≡ get_subscriptions s target trigger)
unfolding get_subscriptions register
get_subscriptions-register s info target trigger =
    rw (select-append (is_for target trigger) s.subscriptions (info ∷ [])) ground (
      arith,
      append-nil (select (is_for target trigger) s.subscriptions),
      same_target_iff info.target target,
      same_trigger_iff info.trigger trigger,
    )
