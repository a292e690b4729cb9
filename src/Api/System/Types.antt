-- ===== src/Api/System/Types.antt =====
-- The types of what is stored and of what waits, in the state behind the C functions of
-- products/common/rim_api.cpp.
use Prim.Native.String.{String}
use printer_fw.Base.{
  arith, ℕ, ◌≡◌, ◌∙◌, refl, ap, sym, subst, Bool, true, false, Option, none, some, List, [], All,
  >>=-eq-some, some_inv, Option-cases, inl, inr,
}
use printer_fw.Value.{RimValue, RimDataItem}
use printer_fw.Value.Reads.{IsWellTyped}
use printer_fw.Storage.Registry.{empty-IsSound}
use printer_fw.Product.{DataItemDefinition, ProductDefinition}
use printer_fw.Product.Context
use printer_fw.Product.Context.{
  ProductContext, find_data_item, find_data_domain_id, find_capability_domain_id,
}
use printer_fw.Adapter.{RouteQueues, add_routes, add_items, initialize, dispatch, find_named}
use printer_fw.RouteExecutor.{RouteState, execute_store, execute_capability}
use printer_fw.Typed.{ProductIsTyped, ItemIsTyped, Waits}
use printer_fw.Typed.Routes.{stop_all_queues-Has, replace_queues-Has}
use printer_fw.Typed.Queued.{RouteHas, add_routes-Has, find_named-Has}
use printer_fw.Typed.Tables.{find_data_item-typed, dependents_typed}
use printer_fw.Typed.Evaluated.{IsGood}
use printer_fw.Typed.Passes.{
  RouteIsGood, dispatch-Has, execute_store-IsGood, execute_capability-IsGood,
}
use printer_fw.Api.{RiManagerContext, Global, RiStatus, success, status_of, set_item, set_value}
use printer_fw.Api.Lifecycle.{
  rim_create, rim_start, rim_stop, rim_destroy, start_context, stop_context, new_context,
}
use printer_fw.Api.Subscribe.{
  SubscriptionRequest, subscribe_request, rim_subscribe, rim_get_notification,
  rim_get_mailbox_count,
}
use printer_fw.Api.Workers.{
  run_pass, route_state, with_route, run_store, run_capability, run_publisher, run_callback,
}
use printer_fw.Api.System.{
  Step, creates, starts, stops, destroys, sets, subscribes, receives, counts, stores, evaluates,
  publishes, calls, Reach, here, next,
}

abbrev AllWait : ProductContext → List RouteQueues → Type 0
AllWait context qs = All (RouteHas (Waits context)) qs

-- The tables are those of the product, the storages are good, and so is what waits.
record IsTyped (p : ProductDefinition) (g : RiManagerContext) : Type 0 where
  same : g.product_context ≡ Context.create p
  good : IsGood g.domain_store
  queued : AllWait (Context.create p) g.route_provider.queues

abbrev GlobalIsTyped : ProductDefinition → Global → Type 0
GlobalIsTyped p none = Unit
GlobalIsTyped p (some g) = IsTyped p g

abbrev SameTyped : RiManagerContext → RiManagerContext → Type 0
SameTyped g h =
    (h.product_context ≡ g.product_context)
    × (h.domain_store ≡ g.domain_store)
    × (h.route_provider.queues ≡ g.route_provider.queues)

module _ (p : ProductDefinition) where
  SameTyped-IsTyped : (g h : RiManagerContext) → SameTyped g h → IsTyped p g → IsTyped p h
  SameTyped-IsTyped g h (context, storages, queues) v = record {
    same = context ∙ v.same;
    good = subst IsGood (sym storages) v.good;
    queued = subst (AllWait (Context.create p)) (sym queues) v.queued;
  }

  create-IsTyped :
      (g h : Global) (status : RiStatus)
      → rim_create p g ≡ some (h, status)
      → GlobalIsTyped p g
      → GlobalIsTyped p h
  unfolding rim_create initialize
  create-IsTyped (some g) h status e v =
      subst (GlobalIsTyped p) (sym (ap (λ x. x.0) (some_inv e))) v
  create-IsTyped none h status e v =
      let context = Context.create p in
      let queues = add_routes [] context.product.routes in
      let (provider, made, out) =
        >>=-eq-some (initialize context) (λ provider. some (some (new_context p provider), success))
          e in
      let (table, _, routes) =
        >>=-eq-some (add_items context queues [] context.product.data_items)
          (λ table. some (record { queues = queues; routing_table = table })) made in
      subst (GlobalIsTyped p) (sym (ap (λ x. x.0) (some_inv out))) (record {
        same = refl;
        good = (empty-IsSound, tt);
        queued =
            subst (λ x. AllWait context x.queues) (sym (some_inv routes))
              (add_routes-Has (Waits context) [] context.product.routes tt);
      })

  stop-IsTyped : (g : Global) → GlobalIsTyped p g → GlobalIsTyped p (rim_stop g).0
  unfolding rim_stop stop_context
  stop-IsTyped none v = tt
  stop-IsTyped (some g) v = record {
    same = v.same;
    good = v.good;
    queued = stop_all_queues-Has _ g.route_executor g.route_provider.queues v.queued;
  }

  start-IsTyped : (g : Global) → GlobalIsTyped p g → GlobalIsTyped p (rim_start g).0
  unfolding rim_start start_context
  start-IsTyped none v = tt
  start-IsTyped (some g) v = SameTyped-IsTyped g (start_context g) (refl, refl, refl) v

  destroy-IsTyped : (g : Global) → GlobalIsTyped p (rim_destroy g).0
  unfolding rim_destroy
  destroy-IsTyped none = tt
  destroy-IsTyped (some g) = tt

  subscribe-IsTyped :
      (g : Global) (now : ℕ) (request : Option SubscriptionRequest) (given : Bool)
      → GlobalIsTyped p g
      → GlobalIsTyped p (rim_subscribe now g request given).0
  unfolding rim_subscribe subscribe_request
  subscribe-IsTyped none now request given v = tt
  subscribe-IsTyped (some g) now none given v = v
  subscribe-IsTyped (some g) now (some request) false v = v
  subscribe-IsTyped (some g) now (some request) true v = record {
    same = v.same;
    good = v.good;
    queued = v.queued;
  }

  receive-IsTyped :
      (g : Global) (id : ℕ) (given : Bool)
      → GlobalIsTyped p g
      → GlobalIsTyped p (rim_get_notification g id given).0
  unfolding rim_get_notification
  receive-IsTyped none id true v = tt
  receive-IsTyped none id false v = tt
  receive-IsTyped (some g) id false v = v
  receive-IsTyped (some g) id true v = record { same = v.same; good = v.good; queued = v.queued }

  count-IsTyped :
      (g : Global) (id : ℕ) → GlobalIsTyped p g → GlobalIsTyped p (rim_get_mailbox_count g id).0
  unfolding rim_get_mailbox_count
  count-IsTyped none id v = tt
  count-IsTyped (some g) id v = record { same = v.same; good = v.good; queued = v.queued }

  run_pass-IsTyped :
      (pass : RouteState → Option (RouteState × Bool)) (name : String) (g h : RiManagerContext)
      → ((s : RouteState) (answer : RouteState × Bool)
          → pass s ≡ some answer
          → RouteIsGood (Context.create p) s
          → RouteIsGood (Context.create p) answer.0)
      → run_pass pass name g ≡ some h
      → IsTyped p g
      → IsTyped p h
  unfolding run_pass
  run_pass-IsTyped pass name g h keeps e v =
      elim (Option-cases (find_named g.route_provider.queues name)) [
        | inl missing ↦ subst (IsTyped p) (sym (some_inv (rw (missing, run_pass) at e))) v
        | inr (q, found) ↦
            let (answer, done, out) =
              >>=-eq-some (pass (route_state g q)) (λ answer. some (with_route g name answer.0))
                (rw (found, run_pass) at e) in
            let (good, has) =
              keeps (route_state g q) answer done
                (v.good, find_named-Has _ g.route_provider.queues name q v.queued found) in
            subst (IsTyped p) (sym (some_inv out)) (record {
              same = v.same;
              good = good;
              queued =
                  replace_queues-Has _ name answer.0.queues g.route_provider.queues has v.queued;
            })
      ]

  module _ (typed : ProductIsTyped p) where
    items :
        (id : ℕ) (x : DataItemDefinition)
        → find_data_item (Context.create p) id ≡ some x
        → ItemIsTyped x
    items id x e = find_data_item-typed p id x typed e

    set_value-IsTyped :
        (g h : Global) (status : RiStatus) (id : ℕ) (value : RimValue)
        → IsWellTyped value
        → set_value g id value ≡ some (h, status)
        → GlobalIsTyped p g
        → GlobalIsTyped p h
    unfolding set_value set_item
    set_value-IsTyped none h status id value w e v =
        subst (GlobalIsTyped p) (sym (ap (λ x. x.0) (some_inv e))) tt
    set_value-IsTyped (some g) h status id value w e v =
        let item : RimDataItem = record { id = id; value = value } in
        let (answer, done, out) =
          >>=-eq-some (dispatch g.product_context g.route_provider item)
            (λ answer. some (some (record g { route_provider = answer.0 }), status_of answer.1))
            e in
        subst (GlobalIsTyped p) (sym (ap (λ x. x.0) (some_inv out))) (record {
          same = v.same;
          good = v.good;
          queued =
              dispatch-Has (Context.create p) items g.route_provider item answer
                (subst (λ c. dispatch c g.route_provider item ≡ some answer) v.same done) w
                v.queued;
        })

    store-IsTyped :
        (caller : ℕ → List ℕ) (name : String) (g h : RiManagerContext)
        → run_store caller name g ≡ some h
        → IsTyped p g
        → IsTyped p h
    unfolding run_store
    store-IsTyped caller name g h e v =
        run_pass-IsTyped (execute_store caller (Context.create p)) name g h
          (execute_store-IsGood caller (Context.create p) items)
          (subst (λ c. run_pass (execute_store caller c) name g ≡ some h) v.same e) v

    capability-IsTyped :
        (caller : ℕ → List ℕ) (name : String) (g h : RiManagerContext)
        → run_capability caller name g ≡ some h
        → IsTyped p g
        → IsTyped p h
    unfolding run_capability
    capability-IsTyped caller name g h e v =
        run_pass-IsTyped (execute_capability caller (Context.create p)) name g h
          (execute_capability-IsGood caller (Context.create p)
            (λ id. (dependents_typed p id typed).0) (λ id. (dependents_typed p id typed).1))
          (subst (λ c. run_pass (execute_capability caller c) name g ≡ some h) v.same e) v

    Step-IsTyped : {g h : Global} → Step p g h → GlobalIsTyped p g → GlobalIsTyped p h
    unfolding run_publisher run_callback
    Step-IsTyped (creates {g} {h} {status} e) v = create-IsTyped g h status e v
    Step-IsTyped (starts g) v = start-IsTyped g v
    Step-IsTyped (stops g) v = stop-IsTyped g v
    Step-IsTyped (destroys g) v = destroy-IsTyped g
    Step-IsTyped (sets {g} {h} {status} id value w e) v =
        set_value-IsTyped g h status id value w e v
    Step-IsTyped (subscribes g now request given ids) v = subscribe-IsTyped g now request given v
    Step-IsTyped (receives g id given) v = receive-IsTyped g id given v
    Step-IsTyped (counts g id) v = count-IsTyped g id v
    Step-IsTyped (stores {g} {h} caller name e) v = store-IsTyped caller name g h e v
    Step-IsTyped (evaluates {g} {h} caller name e) v = capability-IsTyped caller name g h e v
    Step-IsTyped (publishes g now later) v = SameTyped-IsTyped g _ (refl, refl, refl) v
    Step-IsTyped (calls {g} {h} {invocations} e) v = SameTyped-IsTyped g h (ground arith) v

    Reach-IsTyped : {g : Global} → Reach p g → GlobalIsTyped p g
    Reach-IsTyped here = tt
    Reach-IsTyped (next r step) = Step-IsTyped step (Reach-IsTyped r)

pub Reach-IsGood :
    (p : ProductDefinition) (g : RiManagerContext)
    → ProductIsTyped p
    → Reach p (some g)
    → (g.product_context ≡ Context.create p) × IsGood g.domain_store
Reach-IsGood p g typed reach = let v = Reach-IsTyped p typed reach in (v.same, v.good)

pub Reach-RouteHas :
    (p : ProductDefinition) (g : RiManagerContext)
    → ProductIsTyped p
    → Reach p (some g)
    → All (RouteHas (Waits (Context.create p))) g.route_provider.queues
Reach-RouteHas p g typed reach = (Reach-IsTyped p typed reach).queued
