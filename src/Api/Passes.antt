-- ===== src/Api/Passes.antt =====
-- A setter of products/common/rim_api.cpp, and the pass of the worker that takes the value.
use Prim.Native.String.{String}
use text.Mathlib.Text.{◌==◌ as str_eq}
use text.Mathlib.TextEquality.{eq_iff}
use printer_fw.Base.{
  ℕ, ◌≡◌, refl, ap, ◌∙◌, sym, subst, Bool, true, false, Option, some, List, [], ◌∷◌, ◌==◌, if_pos,
  some_inv, >>=-eq-some, Bool-cases, inl, inr, arith,
}
use printer_fw.Base.Maps
use printer_fw.Queue
use printer_fw.Queue.{EventQueue, empty, try_pop}
use printer_fw.Queue.Policies.{fifo_insert, coalescing_insert}
use printer_fw.Store.{StoreState, process, execute_once}
use printer_fw.RouteExecutor.{RouteState, capability_insert, with_store, execute_store}
use printer_fw.Value.{ValueType, RimValue, RimDataItem, compression_key}
use printer_fw.Product.{DataItemDefinition}
use printer_fw.Product.Lookup.{first}
use printer_fw.Product.Context.{ProductContext, find_data_item, find_data_domain_id}
use printer_fw.Product.Domains.{invalid_domain_id}
use printer_fw.Adapter.{
  RouteQueues, RouteProvider, find_named, find_queues, push_store, dispatch_to, dispatch,
}
use printer_fw.Adapter.Routing.{first-test}
use printer_fw.Api.{RiManagerContext, success, set_item, set_value}
use printer_fw.Api.Workers.{run_pass, run_store, route_state, with_route}

-- The queues after the push.
abbrev pushed : RimDataItem → RouteQueues → RouteQueues
pushed item q = record q {
  store_queue = (Queue.push (Queue.create compression_key q.store_policy) q.store_queue item).0;
}

find_named-push_store :
    (name : String) (item : RimDataItem) (queues : List RouteQueues) (q : RouteQueues)
    → find_named queues name ≡ some q
    → find_named (push_store name item queues) name ≡ some (pushed item q)
unfolding push_store first
find_named-push_store name item [] q h = cc
find_named-push_store name item (x ∷ xs) q h = elim (Bool-cases (str_eq x.name name)) [
  | inl e ↦ rw (e, e, some_inv (rw e at h)) refl
  | inr e ↦ rw (e, e) (find_named-push_store name item xs q (rw e at h))
]

-- The queues that are found stand under the name they carry.
find_queues-named :
    (provider : RouteProvider) (id : ℕ) (q : RouteQueues)
    → find_queues provider id ≡ some q
    → find_named provider.queues q.name ≡ some q
unfolding find_queues
find_queues-named provider id q h =
    let (name, at_id, named) =
      >>=-eq-some (Maps.find id provider.routing_table) (find_named provider.queues) h in
    let same : q.name ≡ name =
      (eq_iff q.name name).0 (first-test (λ x. str_eq x.name name) provider.queues q named) in
    subst (λ n. find_named provider.queues n ≡ some q) (sym same) named

pub dispatch-known :
    (g : RiManagerContext) (item : RimDataItem) (definition : DataItemDefinition) (q : RouteQueues)
    → find_data_item g.product_context item.id ≡ some definition
    → item.value.type ≡ definition.raw_value_type
    → definition.normalize item.value ≡ some item.value
    → find_queues g.route_provider item.id ≡ some q
    → dispatch g.product_context g.route_provider item
      ≡ some (
        record g.route_provider { queues = push_store q.name item g.route_provider.queues },
        true,
      )
unfolding dispatch dispatch_to
dispatch-known g item definition q known type same found =
    rw (known, dispatch, if_pos _ type, same, found) refl

-- The state of the route after the push.
abbrev waiting : RouteQueues → RimDataItem → RouteQueues
waiting q item = record q { store_queue = record { shutdown = false; events = item ∷ [] } }

-- What the store worker works on once it has taken the item.
abbrev pub start_state : RiManagerContext → RouteQueues → StoreState
start_state g q = record {
  queue = empty;
  domain_store = g.domain_store;
  capability_queue = q.capability_queue;
}

pushed-empty :
    (item : RimDataItem) (q : RouteQueues) → q.store_queue ≡ empty → pushed item q ≡ waiting q item
unfolding Queue.push Queue.create fifo_insert coalescing_insert
pushed-empty item q e = ground arith

-- A pass over the one item that waits is a pass of `Process`.
execute_store-waiting :
    (caller : ℕ → List ℕ) (context : ProductContext) (g : RiManagerContext) (q : RouteQueues)
    (item : RimDataItem) (t : StoreState)
    → process caller (capability_insert q) context (start_state g q) item ≡ some t
    → execute_store caller context (route_state g (waiting q item))
      ≡ some (with_store (route_state g (waiting q item)) t, true)
unfolding execute_store execute_once try_pop
execute_store-waiting caller context g q item t done = rw done refl

-- Values of `type` are accepted for the item `id`, which has an empty queue.
pub record Accepts (type : ValueType) (g : RiManagerContext) (id : ℕ) : Type 0 where
  pub definition : DataItemDefinition
  pub queues : RouteQueues
  pub known : find_data_item g.product_context id ≡ some definition
  pub valid : (find_data_domain_id g.product_context id == invalid_domain_id) ≡ false
  pub raw : type ≡ definition.raw_value_type
  pub normalized : (v : RimValue) → definition.normalize v ≡ some v
  pub found : find_queues g.route_provider id ≡ some queues
  pub idle : queues.store_queue ≡ empty

pub run_pass-found :
    (pass : RouteState → Option (RouteState × Bool)) (name : String) (g : RiManagerContext)
    (q : RouteQueues) (answer : RouteState × Bool)
    → find_named g.route_provider.queues name ≡ some q
    → pass (route_state g q) ≡ some answer
    → run_pass pass name g ≡ some (with_route g name answer.0)
unfolding run_pass
run_pass-found pass name g q answer found done = rw (found, run_pass, done) refl

-- The state after the set of `item`, and the one after the pass that left `t`.
abbrev pub queued : RiManagerContext → RouteQueues → RimDataItem → RiManagerContext
queued g q item = record g {
  route_provider = record g.route_provider {
    queues = push_store q.name item g.route_provider.queues;
  };
}

abbrev pub processed : RiManagerContext → RouteQueues → RimDataItem → StoreState → RiManagerContext
processed g q item t =
    with_route (queued g q item) q.name
      (with_store (route_state (queued g q item) (waiting q item)) t)

-- A set, and the pass of the store worker of the item's route.
pub set_value-processed :
    (caller : ℕ → List ℕ) (g : RiManagerContext) (id : ℕ) (v : RimValue) (a : Accepts v.type g id)
    (t : StoreState)
    → process caller
        (capability_insert a.queues)
        g.product_context
        (start_state g a.queues)
        (record { id = id; value = v })
      ≡ some t
    → (set_value (some g) id v
        ≡ some (some (queued g a.queues (record { id = id; value = v })), success))
      × (run_store caller a.queues.name (queued g a.queues (record { id = id; value = v }))
          ≡ some (processed g a.queues (record { id = id; value = v }) t))
unfolding set_value set_item run_store
set_value-processed caller g id v a t done =
    let q = a.queues in
    let item : RimDataItem = record { id = id; value = v } in
    let named =
      find_named-push_store q.name item g.route_provider.queues q
        (find_queues-named g.route_provider id q a.found) in
    (
      rw (dispatch-known g item a.definition q a.known a.raw (a.normalized v) a.found) refl,
      run_pass-found (execute_store caller g.product_context) q.name (queued g q item)
          (waiting q item) _ (named ∙ ap some (pushed-empty item q a.idle))
          (execute_store-waiting caller g.product_context (queued g q item) q item t done),
    )
