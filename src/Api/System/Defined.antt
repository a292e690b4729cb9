-- ===== src/Api/System/Defined.antt =====
-- The setters of products/common/rim_api.cpp and the passes of the workers are defined.
use Prim.Native.String.{String}
use printer_fw.Base.{◌>>=◌}
use printer_fw.Base.{Option, ◌≢◌, All, ◌∙◌, ap}
use printer_fw.Base.{
  ℕ, ◌≡◌, refl, sym, subst, ◌∙◌, false, Bool, some, List, Option-cases, inl, inr, if_pos, if_neg,
  ◌==◌,
}
use printer_fw.Value.{RimValue, RimDataItem, ValueType-discrete}
use printer_fw.Value.Reads.{IsWellTyped}
use printer_fw.Product.{ProductDefinition, DataItemDefinition}
use printer_fw.Product.Lookup
use printer_fw.Product.Context
use printer_fw.Product.Context.{ProductContext, find_data_item, capabilities_on, facades_on}
use printer_fw.Product.Context.Index.{dependents-create, find-create}
use printer_fw.Adapter.{RouteProvider, dispatch, dispatch_to, find_queues, find_named}
use printer_fw.Adapter.Routing.{first-All}
use printer_fw.RouteExecutor.{execute_capability, capability_view, with_capability}
use printer_fw.Typed.Tables.{dependents-All}
use printer_fw.Typed.Evaluated.{IsGood}
use printer_fw.Typed.Defined.{
  ProductIsDefined, CapabilitiesAreDefined, FacadesAreDefined, execute_once-defined,
}
use printer_fw.Api.{RiManagerContext, Global, RiStatus, set_item, set_value, status_of}
use printer_fw.Api.Workers.{run_pass, route_state, with_route, run_capability}
use printer_fw.Api.System.{Reach}
use printer_fw.Api.System.Types.{Reach-IsGood, Reach-RouteHas}
use printer_fw.Typed.{ItemIsTyped, Waits}
use printer_fw.Typed.Handled
use printer_fw.Typed.Queued.{RouteHas, find_named-Has}
use printer_fw.Typed.Tables.{find_data_item-typed}
use printer_fw.Typed.Defined.{ItemIsDefined}
use printer_fw.Api.Workers.{run_store}
use printer_fw.Queue.{try_pop}
use printer_fw.Value.{ValueType, k_binary}
use printer_fw.Adapter.{RouteQueues}
use printer_fw.RouteExecutor.{execute_store, store_view, with_store, capability_insert}

-- The type as which the item that waits first in the route's store queue is to be stored.
abbrev pub next_type : ProductContext → RiManagerContext → String → Option ValueType
next_type context g name = find_named g.route_provider.queues name >>= λ q.
    (try_pop q.store_queue).1 >>= λ item.
    find_data_item context item.id >>= λ x. some x.store_value_type

abbrev pub NextIsPlain : ProductContext → RiManagerContext → String → Type 0
NextIsPlain context g name = next_type context g name ≢ some k_binary

next_type-some :
    (context : ProductContext) (g : RiManagerContext) (name : String) (q : RouteQueues)
    (item : RimDataItem) (x : DataItemDefinition)
    → find_named g.route_provider.queues name ≡ some q
    → (try_pop q.store_queue).1 ≡ some item
    → find_data_item context item.id ≡ some x
    → next_type context g name ≡ some x.store_value_type
next_type-some context g name q item x found popped known = rw (found, popped, known) refl

module _ (p : ProductDefinition) (d : ProductIsDefined p) where
  capabilities_on-defined :
      (id : ℕ) → CapabilitiesAreDefined (capabilities_on (Context.create p) id)
  capabilities_on-defined id =
      subst CapabilitiesAreDefined (sym (dependents-create p id).0)
        (dependents-All _ (λ c. c.required_data_ids) id p.capabilities d.capabilities)

  facades_on-defined : (id : ℕ) → FacadesAreDefined (facades_on (Context.create p) id)
  facades_on-defined id =
      subst FacadesAreDefined (sym (dependents-create p id).1)
        (dependents-All _ (λ f. f.required_capability_ids) id p.facades d.facades)

  normalize-defined :
      (id : ℕ) (x : DataItemDefinition) (v : RimValue)
      → find_data_item (Context.create p) id ≡ some x
      → IsWellTyped v
      → v.type ≡ x.raw_value_type
      → (r : RimValue) × (x.normalize v ≡ some r)
  unfolding Lookup.find_data_item
  normalize-defined id x v known w raw =
      first-All _ (λ y. y.id == id) p.data_items x d.items (sym (find-create p id).0 ∙ known) v w
        raw

  items-defined :
      (id : ℕ) (x : DataItemDefinition)
      → find_data_item (Context.create p) id ≡ some x
      → ItemIsTyped x × ItemIsDefined x
  unfolding Lookup.find_data_item
  items-defined id x known = (
    find_data_item-typed p id x d.typed known,
    first-All ItemIsDefined (λ y. y.id == id) p.data_items x d.kept
        (sym (find-create p id).0 ∙ known),
  )

  store_pass-defined :
      (caller : ℕ → List ℕ) (name : String) (g : RiManagerContext)
      → NextIsPlain (Context.create p) g name
      → IsGood g.domain_store
      → All (RouteHas (Waits (Context.create p))) g.route_provider.queues
      → (h : RiManagerContext) × (run_pass (execute_store caller (Context.create p)) name g
          ≡ some h)
  unfolding run_pass execute_store
  store_pass-defined caller name g plain good queued =
      elim (Option-cases (find_named g.route_provider.queues name)) [
        | inl missing ↦ (g, rw (missing, run_pass) refl)
        | inr (q, found) ↦
            let s = route_state g q in
            let (answer, done) =
              Handled.execute_once-defined caller (capability_insert q) (Context.create p)
                (store_view s) items-defined
                (λ item x popped known binary. plain (
                  next_type-some (Context.create p) g name q item x found popped known
                  ∙ ap some binary))
                good.1 (find_named-Has _ g.route_provider.queues name q queued found) in
            (with_route g name (with_store s answer.0), rw (found, run_pass, done) refl)
      ]

  dispatch-defined :
      (provider : RouteProvider) (item : RimDataItem)
      → IsWellTyped item.value
      → (answer : RouteProvider × Bool) × (dispatch (Context.create p) provider item ≡ some answer)
  unfolding dispatch
  dispatch-defined provider item w =
      let context = Context.create p in
      elim (Option-cases (find_data_item context item.id)) [
        | inl missing ↦ ((provider, false), rw (missing, dispatch) refl)
        | inr (x, known) ↦ elim (ValueType-discrete item.value.type x.raw_value_type) [
          | no n ↦ ((provider, false), rw (known, dispatch, if_neg _ n) refl)
          | yes raw ↦
              let (r, made) = normalize-defined item.id x item.value known w raw in
              (
                dispatch_to provider (record { id = item.id; value = r })
                    (find_queues provider item.id),
                rw (known, dispatch, if_pos _ raw, made) refl,
              )
        ]
      ]

  run_pass-defined :
      (caller : ℕ → List ℕ) (name : String) (g : RiManagerContext)
      → IsGood g.domain_store
      → (h : RiManagerContext) × (run_pass (execute_capability caller (Context.create p)) name g
          ≡ some h)
  unfolding run_pass execute_capability
  run_pass-defined caller name g good =
      elim (Option-cases (find_named g.route_provider.queues name)) [
        | inl missing ↦ (g, rw (missing, run_pass) refl)
        | inr (q, found) ↦
            let s = route_state g q in
            let (answer, done) =
              execute_once-defined caller (Context.create p) facades_on-defined
                capabilities_on-defined (capability_view s) good in
            (with_route g name (with_capability s answer.0), rw (found, run_pass, done) refl)
      ]

-- Let the callbacks of a product make well-typed values of the types that its tables name, and be
-- defined as follows: normalize on every well-typed value of an item's raw type, store on every one
-- of its set type, the comparison on every one of its store type that is not binary, against any
-- well-typed one, and a builder on every snapshot of well-typed values, with a value that is not
-- binary and is compared with any well-typed one. Then in every state that calls of the client's
-- and passes of the workers reach from the start of the program, as long as the ids of
-- subscriptions are not used up, a set of a well-typed value returns, and the next pass of the
-- capability worker of any route is defined, whatever the client's memory holds: no member of a
-- union is read that is not the active one.
pub Reach-run_capability :
    (p : ProductDefinition) (g : RiManagerContext) (id : ℕ) (v : RimValue) (caller : ℕ → List ℕ)
    (name : String)
    → ProductIsDefined p
    → Reach p (some g)
    → IsWellTyped v
    → ((answer : Global × RiStatus) × (set_value (some g) id v ≡ some answer))
      × (h : RiManagerContext) × (run_capability caller name g ≡ some h)
unfolding set_value set_item run_capability
Reach-run_capability p g id v caller name d reach w =
    let (same, good) = Reach-IsGood p g d.typed reach in
    let item : RimDataItem = record { id = id; value = v } in
    let (answer, dispatched) = dispatch-defined p d g.route_provider item w in
    let (h, ran) = run_pass-defined p d caller name g good in
    (
      (
        (some (record g { route_provider = answer.0 }), status_of answer.1),
        rw (subst (λ c. dispatch c g.route_provider item ≡ some answer) (sym same) dispatched) refl,
      ),
      h,
      subst (λ c. run_pass (execute_capability caller c) name g ≡ some h) (sym same) ran,
    )

-- Let the callbacks of a product make well-typed values of the types that its tables name, and be
-- defined as follows: normalize on every well-typed value of an item's raw type, store on every one
-- of its set type, the comparison on every one of its store type that is not binary, against any
-- well-typed one, and a builder on every snapshot of well-typed values, with a value that is not
-- binary and is compared with any well-typed one. Then in every state that calls of the client's
-- and passes of the workers reach from the start of the program, as long as the ids of
-- subscriptions are not used up, the next pass of the store worker of any route is defined,
-- whatever the client's memory holds, unless the item that waits first there is to be stored as
-- binary.
pub Reach-run_store :
    (p : ProductDefinition) (g : RiManagerContext) (caller : ℕ → List ℕ) (name : String)
    → ProductIsDefined p
    → Reach p (some g)
    → NextIsPlain g.product_context g name
    → (h : RiManagerContext) × (run_store caller name g ≡ some h)
unfolding run_store
Reach-run_store p g caller name d reach plain =
    let (same, good) = Reach-IsGood p g d.typed reach in
    let (h, ran) =
      store_pass-defined p d caller name g (subst (λ c. NextIsPlain c g name) same plain) good
        (Reach-RouteHas p g d.typed reach) in
    (h, subst (λ c. run_pass (execute_store caller c) name g ≡ some h) (sym same) ran)
