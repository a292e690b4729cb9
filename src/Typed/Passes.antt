-- ===== src/Typed/Passes.antt =====
-- Dispatch (core/adapter/src/AdapterDispatcher.cpp) and the passes of the workers of a route
-- (core/common/src/RouteExecutor.cpp).
use printer_fw.Base.{
  ℕ, ◌≡◌, sym, subst, Bool, true, Option, none, some, List, [], ◌∷◌, All, Option-cases, inl, inr,
  >>=-eq-some, some_inv, if_pos, if_neg,
}
use printer_fw.Queue.{EventQueue, try_pop}
use printer_fw.Value.{RimDataItem, ValueType-discrete}
use printer_fw.Value.Reads.{IsWellTyped}
use printer_fw.Product.{DataItemDefinition}
use printer_fw.Product.Context.{ProductContext, find_data_item, capabilities_on, facades_on}
use printer_fw.Adapter.{RouteQueues, RouteProvider, find_queues, dispatch_to, dispatch}
use printer_fw.Store
use printer_fw.Store.{StoreState}
use printer_fw.Store.Process.{process-queue, process-IsSound}
use printer_fw.Capability
use printer_fw.Capability.{CapabilityState}
use printer_fw.RouteExecutor.{
  RouteState, capability_insert, store_view, with_store, capability_view, with_capability,
  execute_store, execute_capability,
}
use printer_fw.Typed.{ItemIsTyped, Waits}
use printer_fw.Typed.Stored.{process-typed}
use printer_fw.Typed.Evaluated.{IsGood, CapabilitiesAreTyped, FacadesAreTyped, process-IsGood}
use printer_fw.Typed.Queued.{QueueHas, RouteHas, push_store-Has}

popped-from :
    (P : RimDataItem → Type 0) (events : List RimDataItem) (shutdown : Bool) (x : RimDataItem)
    → (try_pop (record { events = events; shutdown = shutdown })).1 ≡ some x
    → All P events
    → P x × QueueHas P (try_pop (record { events = events; shutdown = shutdown })).0
unfolding try_pop
popped-from P [] shutdown x e h = cc
popped-from P (y ∷ events) shutdown x e h = (subst P (sym (some_inv e)) h.0, h.1)

pub popped-Has :
    (P : RimDataItem → Type 0) (q : EventQueue RimDataItem) (x : RimDataItem)
    → (try_pop q).1 ≡ some x
    → QueueHas P q
    → P x × QueueHas P (try_pop q).0
popped-Has P q x e h = popped-from P q.events q.shutdown x e h

module _ (context : ProductContext)
    (items : (id : ℕ) (x : DataItemDefinition)
      → find_data_item context id ≡ some x
      → ItemIsTyped x) where
  dispatch_to-Has :
      (provider : RouteProvider) (item : RimDataItem) (o : Option RouteQueues)
      → Waits context item
      → All (RouteHas (Waits context)) provider.queues
      → All (RouteHas (Waits context)) (dispatch_to provider item o).0.queues
  unfolding dispatch_to
  dispatch_to-Has provider item none w h = h
  dispatch_to-Has provider item (some q) w h =
      push_store-Has (Waits context) q.name item provider.queues w h

  pub dispatch-Has :
      (provider : RouteProvider) (item : RimDataItem) (answer : RouteProvider × Bool)
      → dispatch context provider item ≡ some answer
      → IsWellTyped item.value
      → All (RouteHas (Waits context)) provider.queues
      → All (RouteHas (Waits context)) answer.0.queues
  unfolding dispatch
  dispatch-Has provider item answer e w h = elim (Option-cases (find_data_item context item.id)) [
    | inl missing ↦
        subst (λ a. All (RouteHas (Waits context)) a.0.queues)
          (sym (some_inv (rw (missing, dispatch) at e))) h
    | inr (x, known) ↦ elim (ValueType-discrete item.value.type x.raw_value_type) [
      | no n ↦
          subst (λ a. All (RouteHas (Waits context)) a.0.queues)
            (sym (some_inv (rw (known, dispatch, if_neg _ n) at e))) h
      | yes raw ↦
          let (set_value, made, out) =
            >>=-eq-some (x.normalize item.value)
              (λ set_value. some (
                dispatch_to provider (record { id = item.id; value = set_value })
                  (find_queues provider item.id)))
              (rw (known, dispatch, if_pos _ raw) at e) in
          let (typed, set_type) =
            (items item.id x known).normalized item.value set_value w raw made in
          subst (λ a. All (RouteHas (Waits context)) a.0.queues) (sym (some_inv out))
            (dispatch_to-Has provider (record { id = item.id; value = set_value })
              (find_queues provider item.id)
              (record { definition = x; known = known; typed = typed; set_type = set_type }) h)
    ]
  ]

-- The storages of a route are good, and so is what waits in its store queue.
abbrev pub RouteIsGood : ProductContext → RouteState → Type 0
RouteIsGood context s = IsGood s.domain_store × RouteHas (Waits context) s.queues

module _ (caller : ℕ → List ℕ) (context : ProductContext) where
  module _
      (items : (id : ℕ) (x : DataItemDefinition)
        → find_data_item context id ≡ some x
        → ItemIsTyped x) where
    store_once-Has :
        (insert : List ℕ → ℕ → List ℕ) (s : StoreState) (answer : StoreState × Bool)
        → Store.execute_once caller insert context s ≡ some answer
        → IsGood s.domain_store
        → QueueHas (Waits context) s.queue
        → IsGood answer.0.domain_store × QueueHas (Waits context) answer.0.queue
    unfolding Store.execute_once
    store_once-Has insert s answer h good has = elim (Option-cases (try_pop s.queue).1) [
      | inl e ↦
          subst (λ a. IsGood a.0.domain_store × QueueHas (Waits context) a.0.queue)
            (sym (some_inv (rw (e, Store.execute_once) at h))) (good, has)
      | inr (item, e) ↦
          let (t, done, out) =
            >>=-eq-some
              (Store.process caller insert context (record s { queue = (try_pop s.queue).0 }) item)
              (λ t. some (t, true)) (rw (e, Store.execute_once) at h) in
          let (waits, rest) = popped-Has (Waits context) s.queue item e has in
          subst (λ a. IsGood a.0.domain_store × QueueHas (Waits context) a.0.queue)
            (sym (some_inv out))
            (
              (
                (process-IsSound caller insert context _ t item done good.0).0,
                process-typed caller insert context _ t item waits done
                    (items item.id waits.definition waits.known) good.1,
              ),
              subst (QueueHas (Waits context))
                  (sym (process-queue caller insert context _ t item done)) rest,
            )
    ]

    pub execute_store-IsGood :
        (s : RouteState) (answer : RouteState × Bool)
        → execute_store caller context s ≡ some answer
        → RouteIsGood context s
        → RouteIsGood context answer.0
    unfolding execute_store
    execute_store-IsGood s answer h (good, has) =
        let (t, done, out) =
          >>=-eq-some
            (Store.execute_once caller (capability_insert s.queues) context (store_view s))
            (λ t. some (with_store s t.0, t.1)) h in
        subst (λ a. RouteIsGood context a.0) (sym (some_inv out))
          (store_once-Has (capability_insert s.queues) (store_view s) t done good has)

  module _ (capabilities : (id : ℕ) → CapabilitiesAreTyped (capabilities_on context id))
      (facades : (id : ℕ) → FacadesAreTyped (facades_on context id)) where
    capability_once-IsGood :
        (s : CapabilityState) (answer : CapabilityState × Bool)
        → Capability.execute_once caller context s ≡ some answer
        → IsGood s.store
        → IsGood answer.0.store
    unfolding Capability.execute_once
    capability_once-IsGood s answer h good = elim (Option-cases (try_pop s.queue).1) [
      | inl e ↦
          subst (λ a. IsGood a.0.store) (sym (some_inv (rw (e, Capability.execute_once) at h))) good
      | inr (id, e) ↦
          let (t, done, out) =
            >>=-eq-some
              (Capability.process caller context (record s { queue = (try_pop s.queue).0 }) id)
              (λ t. some (t, true)) (rw (e, Capability.execute_once) at h) in
          subst (λ a. IsGood a.0.store) (sym (some_inv out))
            (process-IsGood caller context facades _ t id done (capabilities id) good)
    ]

    pub execute_capability-IsGood :
        (s : RouteState) (answer : RouteState × Bool)
        → execute_capability caller context s ≡ some answer
        → RouteIsGood context s
        → RouteIsGood context answer.0
    unfolding execute_capability
    execute_capability-IsGood s answer h (good, has) =
        let (t, done, out) =
          >>=-eq-some (Capability.execute_once caller context (capability_view s))
            (λ t. some (with_capability s t.0, t.1)) h in
        subst (λ a. RouteIsGood context a.0) (sym (some_inv out))
          (capability_once-IsGood (capability_view s) t done good, has)
