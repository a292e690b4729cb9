-- ===== src/Api/System/Invariant.antt =====
-- What holds of the state behind the C functions in every run.
use Prim.Native.String.{String}
use printer_fw.Base.{
  ℕ, ◌≡◌, refl, ap, sym, subst, Bool, true, false, Option, none, some, List, [], arith, >>=-eq-some,
  some_inv, Bool-cases, Option-cases, inl, inr, ◌==◌,
}
use printer_fw.Base.Maps
use printer_fw.Value.{RimValue}
use printer_fw.Storage.Registry.{IsSound, empty-IsSound}
use printer_fw.Product.{ProductDefinition}
use printer_fw.Product.Context.{ProductContext}
use printer_fw.Product.Context
use printer_fw.Adapter.{RouteProvider, initialize, dispatch, find_named}
use printer_fw.Publisher.Mailbox.{
  MailboxManager, SubscriberMailbox, get_mailbox, pop, try_get_notification, get_mailbox_count,
}
use printer_fw.Publisher.Mailbox.Bounds.{IsBounded}
use printer_fw.Publisher.Subscriptions.{Invocation}
use printer_fw.Publisher.Subscriptions.Ids
use printer_fw.Publisher.Publish.Bounds.{AllBounded, run_once-Keeps}
use printer_fw.RouteExecutor.{RouteState, execute_store, execute_capability}
use printer_fw.RouteExecutor.Pass.{execute_store-IsSound, execute_capability-IsSound}
use printer_fw.Api.{RiManagerContext, Global, RiStatus, success, status_of, set_item, set_value}
use printer_fw.Api.Lifecycle.{
  rim_create, rim_start, rim_stop, rim_destroy, start_context, stop_context, new_context,
}
use printer_fw.Api.Subscribe.{
  SubscriptionRequest, info_of, subscribe_request, rim_subscribe, rim_get_notification,
  rim_get_mailbox_count,
}
use printer_fw.Api.Workers.{
  run_pass, route_state, with_route, run_store, run_capability, run_publisher, run_callback,
}
use printer_fw.Api.System.{
  HasIds, Step, creates, starts, stops, destroys, sets, subscribes, receives, counts, stores,
  evaluates, publishes, calls, Reach, here, next,
}

-- The storages are sound, the ids of the subscriptions differ and are below the next one, and the
-- mailboxes are within their sizes.
pub record IsValid (g : RiManagerContext) : Type 0 where
  pub sound : IsSound g.domain_store
  pub subscribed : Ids.IsValid g.publish.subscriptions
  pub bounded : AllBounded g.publish.notify.mailboxes

abbrev pub GlobalIsValid : Global → Type 0
GlobalIsValid none = Unit
GlobalIsValid (some g) = IsValid g

-- A step that leaves those parts of the state alone.
abbrev SameParts : RiManagerContext → RiManagerContext → Type 0
SameParts g h =
    (h.domain_store ≡ g.domain_store)
    × (h.publish.subscriptions ≡ g.publish.subscriptions)
    × (h.publish.notify.mailboxes ≡ g.publish.notify.mailboxes)

SameParts-IsValid : (g h : RiManagerContext) → SameParts g h → IsValid g → IsValid h
SameParts-IsValid g h (storages, subscriptions, mailboxes) v = record {
  sound = subst IsSound (sym storages) v.sound;
  subscribed = subst Ids.IsValid (sym subscriptions) v.subscribed;
  bounded = subst AllBounded (sym mailboxes) v.bounded;
}

empty-AllBounded : AllBounded []
unfolding get_mailbox Maps.find
empty-AllBounded j = omega arith

new_context-IsValid :
    (product : ProductDefinition) (provider : RouteProvider)
    → IsValid (new_context product provider)
new_context-IsValid product provider = record {
  sound = empty-IsSound;
  subscribed = record { below = tt; distinct = tt };
  bounded = empty-AllBounded;
}

create-IsValid :
    (product : ProductDefinition) (g h : Global) (status : RiStatus)
    → rim_create product g ≡ some (h, status)
    → GlobalIsValid g
    → GlobalIsValid h
unfolding rim_create
create-IsValid product (some g) h status e v =
    subst GlobalIsValid (sym (ap (λ x. x.0) (some_inv e))) v
create-IsValid product none h status e v =
    let (provider, _, out) =
      >>=-eq-some (initialize (Context.create product))
        (λ provider. some (some (new_context product provider), success)) e in
    subst GlobalIsValid (sym (ap (λ x. x.0) (some_inv out))) (new_context-IsValid product provider)

start-IsValid : (g : Global) → GlobalIsValid g → GlobalIsValid (rim_start g).0
unfolding rim_start start_context
start-IsValid none v = tt
start-IsValid (some g) v = SameParts-IsValid g (start_context g) (refl, refl, refl) v

stop-IsValid : (g : Global) → GlobalIsValid g → GlobalIsValid (rim_stop g).0
unfolding rim_stop stop_context
stop-IsValid none v = tt
stop-IsValid (some g) v = SameParts-IsValid g (stop_context g) (refl, refl, refl) v

destroy-IsValid : (g : Global) → GlobalIsValid g → GlobalIsValid (rim_destroy g).0
unfolding rim_destroy
destroy-IsValid none v = tt
destroy-IsValid (some g) v = tt

set_value-IsValid :
    (g h : Global) (status : RiStatus) (id : ℕ) (value : RimValue)
    → set_value g id value ≡ some (h, status)
    → GlobalIsValid g
    → GlobalIsValid h
unfolding set_value set_item
set_value-IsValid none h status id value e v =
    subst GlobalIsValid (sym (ap (λ x. x.0) (some_inv e))) tt
set_value-IsValid (some g) h status id value e v =
    let ((provider, done), _, out) =
      >>=-eq-some (dispatch g.product_context g.route_provider (record { id = id; value = value }))
        (λ answer. some (some (record g { route_provider = answer.0 }), status_of answer.1)) e in
    subst GlobalIsValid (sym (ap (λ x. x.0) (some_inv out)))
      (SameParts-IsValid g (record g { route_provider = provider }) (refl, refl, refl) v)

subscribe-IsValid :
    (g : Global) (now : ℕ) (request : Option SubscriptionRequest) (given : Bool)
    → HasIds g
    → GlobalIsValid g
    → GlobalIsValid (rim_subscribe now g request given).0
unfolding rim_subscribe subscribe_request
subscribe-IsValid none now request given ids v = tt
subscribe-IsValid (some g) now none given ids v = v
subscribe-IsValid (some g) now (some request) false ids v = v
subscribe-IsValid (some g) now (some request) true ids v = record {
  sound = v.sound;
  subscribed =
      (Ids.add-IsValid g.publish.subscriptions (info_of request) (λ i. refl) ids v.subscribed).0;
  bounded = v.bounded;
}

put-AllBounded :
    (id : ℕ) (b : SubscriberMailbox) (m : MailboxManager)
    → IsBounded b
    → AllBounded m
    → AllBounded (Maps.put id b m)
unfolding get_mailbox
put-AllBounded id b m h k j = elim (Bool-cases (id == j)) [
  | inl hit ↦ rw (Maps.find-put id j b m, get_mailbox, hit) h
  | inr miss ↦ rw (Maps.find-put id j b m, get_mailbox, miss) (k j)
]

pop-IsBounded : (m : SubscriberMailbox) → IsBounded m → IsBounded (pop m).0
unfolding pop
pop-IsBounded m h = ground arith

receive-IsValid :
    (g : Global) (id : ℕ) (given : Bool)
    → GlobalIsValid g
    → GlobalIsValid (rim_get_notification g id given).0
unfolding rim_get_notification try_get_notification
receive-IsValid none id true v = tt
receive-IsValid none id false v = tt
receive-IsValid (some g) id false v = v
receive-IsValid (some g) id true v = record {
  sound = v.sound;
  subscribed = v.subscribed;
  bounded =
      put-AllBounded id _ g.publish.notify.mailboxes (pop-IsBounded _ (v.bounded id)) v.bounded;
}

count-IsValid :
    (g : Global) (id : ℕ) → GlobalIsValid g → GlobalIsValid (rim_get_mailbox_count g id).0
unfolding rim_get_mailbox_count get_mailbox_count
count-IsValid none id v = tt
count-IsValid (some g) id v = record {
  sound = v.sound;
  subscribed = v.subscribed;
  bounded = put-AllBounded id _ g.publish.notify.mailboxes (v.bounded id) v.bounded;
}

-- A pass of a worker of a route, which keeps the storages sound.
run_pass-IsValid :
    (pass : RouteState → Option (RouteState × Bool)) (name : String) (g h : RiManagerContext)
    → ((s : RouteState) (answer : RouteState × Bool)
        → pass s ≡ some answer
        → IsSound s.domain_store
        → IsSound answer.0.domain_store)
    → run_pass pass name g ≡ some h
    → IsValid g
    → IsValid h
unfolding run_pass
run_pass-IsValid pass name g h keeps e v =
    elim (Option-cases (find_named g.route_provider.queues name)) [
      | inl missing ↦ subst IsValid (sym (some_inv (rw (missing, run_pass) at e))) v
      | inr (q, found) ↦
          let (answer, done, out) =
            >>=-eq-some (pass (route_state g q)) (λ answer. some (with_route g name answer.0))
              (rw (found, run_pass) at e) in
          subst IsValid (sym (some_inv out)) (record {
            sound = keeps (route_state g q) answer done v.sound;
            subscribed = v.subscribed;
            bounded = v.bounded;
          })
    ]

publisher-IsValid :
    (g : RiManagerContext) (now later : ℕ) → IsValid g → IsValid (run_publisher now later g)
unfolding run_publisher
publisher-IsValid g now later v =
    let k = run_once-Keeps none g.product_context now later g.publish in
    record {
      sound = v.sound;
      subscribed = subst Ids.IsValid (sym k.subscribed) v.subscribed;
      bounded = k.bounded v.bounded;
    }

callback-IsValid :
    (g h : RiManagerContext) (invocations : List Invocation)
    → run_callback g ≡ some (h, invocations)
    → IsValid g
    → IsValid h
unfolding run_callback
callback-IsValid g h invocations e v = SameParts-IsValid g h (ground arith) v

Step-IsValid :
    (product : ProductDefinition) {g h : Global}
    → Step product g h
    → GlobalIsValid g
    → GlobalIsValid h
unfolding run_store run_capability
Step-IsValid product (creates {g} {h} {status} e) v = create-IsValid product g h status e v
Step-IsValid product (starts g) v = start-IsValid g v
Step-IsValid product (stops g) v = stop-IsValid g v
Step-IsValid product (destroys g) v = destroy-IsValid g v
Step-IsValid product (sets {g} {h} {status} id value w e) v =
    set_value-IsValid g h status id value e v
Step-IsValid product (subscribes g now request given ids) v =
    subscribe-IsValid g now request given ids v
Step-IsValid product (receives g id given) v = receive-IsValid g id given v
Step-IsValid product (counts g id) v = count-IsValid g id v
Step-IsValid product (stores {g} {h} caller name e) v =
    run_pass-IsValid (execute_store caller g.product_context) name g h
      (execute_store-IsSound caller g.product_context) e v
Step-IsValid product (evaluates {g} {h} caller name e) v =
    run_pass-IsValid (execute_capability caller g.product_context) name g h
      (execute_capability-IsSound caller g.product_context) e v
Step-IsValid product (publishes g now later) v = publisher-IsValid g now later v
Step-IsValid product (calls {g} {h} {invocations} e) v = callback-IsValid g h invocations e v

-- In every state that calls of the client's and passes of the workers reach, in any order, from the
-- start of the program, and as long as the ids of subscriptions are not used up: the storages are
-- sound, the ids of the subscriptions differ and are below the next one, and every mailbox is
-- within its size.
pub Reach-IsValid : (product : ProductDefinition) {g : Global} → Reach product g → GlobalIsValid g
Reach-IsValid product here = tt
Reach-IsValid product (next r step) = Step-IsValid product step (Reach-IsValid product r)
