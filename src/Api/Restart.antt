-- ===== src/Api/Restart.antt =====
-- What RIM_Stop leaves behind for a later RIM_Start (products/common/rim_api.cpp).
use Prim.Native.String.{String}
use text.Mathlib.Text.{◌==◌ as str_eq}
use printer_fw.Base.{
  ℕ, ◌≡◌, refl, ap, true, false, none, some, List, [], ◌∷◌, map, arith, length, All, Bool-cases,
  inl, inr, >>=-eq-some, suc,
}
use printer_fw.Base.Maps
use printer_fw.Queue
use printer_fw.Queue.{shut}
use printer_fw.Value.{RimValue, RimDataItem}
use printer_fw.Product.{DataItemDefinition, ProductDefinition}
use printer_fw.Product.Validate
use printer_fw.Product.Lookup.{first}
use printer_fw.Product.Context.{find_data_item, create}
use printer_fw.Adapter.Routing.{IsRouted, initialize-routes}
use printer_fw.Adapter.{RouteQueues, RouteProvider, find_named, find_queues, push_store, initialize}
use printer_fw.RouteExecutor.{RouteExecutor, new_executor, start, stop_queues}
use printer_fw.Api.{RiManagerContext, success, set_item, set_value}
use printer_fw.Api.Passes.{dispatch-known}
use printer_fw.Api.Lifecycle.{
  start_context, stop_context, stop_all_queues, rim_start, rim_stop, rim_create, new_context,
}

-- Both queues of a route are shut.
abbrev pub AreShut : RouteQueues → Type 0
AreShut q = (q.store_queue.shutdown ≡ true) × (q.capability_queue.shutdown ≡ true)

-- There is an executor for each entry of the provider, and none was stopped.
pub record IsFresh (g : RiManagerContext) : Type 0 where
  pub paired : length g.route_executor ≡ length g.route_provider.queues
  pub unstopped : All (λ e. e.stopped ≡ false) g.route_executor

stop_queues-started :
    (e : RouteExecutor) (q : RouteQueues) → e.stopped ≡ false → AreShut (stop_queues (start e) q)
unfolding stop_queues start shut
stop_queues-started e q h = ground arith

stop_all_queues-started :
    (es : List RouteExecutor) (qs : List RouteQueues)
    → length es ≡ length qs
    → All (λ e. e.stopped ≡ false) es
    → All AreShut (stop_all_queues (map start es) qs)
unfolding stop_all_queues
stop_all_queues-started [] [] l h = tt
stop_all_queues-started [] (q ∷ qs) l h = absurd (omega arith)
stop_all_queues-started (e ∷ es) [] l h = tt
stop_all_queues-started (e ∷ es) (q ∷ qs) l h =
    (stop_queues-started e q h.0, stop_all_queues-started es qs (omega arith) h.1)

stop_queues-name : (e : RouteExecutor) (q : RouteQueues) → (stop_queues e q).name ≡ q.name
unfolding stop_queues
stop_queues-name e q = ground arith

-- The names stay, and with them what is found.
find_named-stop_all_queues :
    (es : List RouteExecutor) (qs : List RouteQueues) (name : String) (q : RouteQueues)
    → find_named qs name ≡ some q
    → (q' : RouteQueues) × (find_named (stop_all_queues es qs) name ≡ some q')
unfolding stop_all_queues first
find_named-stop_all_queues [] qs name q h = (q, h)
find_named-stop_all_queues (e ∷ es) [] name q h = (q, h)
find_named-stop_all_queues (e ∷ es) (x ∷ qs) name q h = elim (Bool-cases (str_eq x.name name)) [
  | inl hit ↦ (stop_queues e x, rw (stop_queues-name e x, hit) refl)
  | inr miss ↦
      let (q', found) = find_named-stop_all_queues es qs name q (rw miss at h) in
      (q', rw (stop_queues-name e x, miss) found)
]

push_store-AreShut :
    (name : String) (item : RimDataItem) (qs : List RouteQueues)
    → All AreShut qs
    → push_store name item qs ≡ qs
unfolding push_store Queue.push
push_store-AreShut name item [] h = refl
push_store-AreShut name item (q ∷ qs) h = elim (Bool-cases (str_eq q.name name)) [
  | inl hit ↦ rw (hit, h.0.0) refl
  | inr miss ↦ rw (miss, push_store-AreShut name item qs h.1) refl
]

-- RIM_Start, RIM_Stop and RIM_Start.
abbrev pub restarted : RiManagerContext → RiManagerContext
restarted g = start_context (stop_context (start_context g))

-- In a context whose executors were never stopped, after RIM_Start, RIM_Stop and RIM_Start a set of
-- a known item with a value of its raw type, that normalize leaves as it is and whose queues are
-- found, reports success and changes nothing: the value is lost.
pub set_value-restarted :
    (g : RiManagerContext) (id : ℕ) (v : RimValue) (definition : DataItemDefinition)
    (q : RouteQueues)
    → IsFresh g
    → find_data_item g.product_context id ≡ some definition
    → v.type ≡ definition.raw_value_type
    → definition.normalize v ≡ some v
    → find_queues g.route_provider id ≡ some q
    → (rim_start (rim_stop (rim_start (some g)).0).0 ≡ (some (restarted g), success))
      × (set_value (some (restarted g)) id v ≡ some (some (restarted g), success))
unfolding set_value set_item start_context stop_context rim_start rim_stop find_queues
set_value-restarted g id v definition q fresh known raw normalized found =
    let item : RimDataItem = record { id = id; value = v } in
    let (name, at_id, named) =
      >>=-eq-some (Maps.find id g.route_provider.routing_table) (find_named g.route_provider.queues)
        found in
    let (q', named') =
      find_named-stop_all_queues (map start g.route_executor) g.route_provider.queues name q
        named in
    let shut =
      stop_all_queues-started g.route_executor g.route_provider.queues fresh.paired
        fresh.unstopped in
    (
      refl,
      rw
          (
            dispatch-known (restarted g) item definition q' known raw normalized (rw at_id named'),
            push_store-AreShut q'.name item _ shut,
          )
          refl,
    )

map-unstopped : (qs : List RouteQueues) → All (λ e. e.stopped ≡ false) (map new_executor qs)
map-unstopped [] = tt
map-unstopped (q ∷ qs) = (refl, map-unstopped qs)

length-map_executors : (qs : List RouteQueues) → length (map new_executor qs) ≡ length qs
length-map_executors [] = refl
length-map_executors (q ∷ qs) = ap suc (length-map_executors qs)

rim_create-initialized :
    (p : ProductDefinition) (provider : RouteProvider)
    → initialize (create p) ≡ some provider
    → rim_create p none ≡ some (some (new_context p provider), success)
unfolding rim_create
rim_create-initialized p provider e = rw e refl

-- For a valid product RIM_Create succeeds, none of the assertions of the route provider fails;
-- there is an executor for each route's queues, none of them stopped; and queues are found for each
-- data item of the product.
pub rim_create-IsFresh :
    (p : ProductDefinition)
    → Validate.IsValid p
    → (g : RiManagerContext) × (rim_create p none ≡ some (some g, success))
      × IsFresh g
      × All (λ item. IsRouted g.route_provider item.id) p.data_items
rim_create-IsFresh p v =
    let (provider, initialized, routed) = initialize-routes p v in
    (
      new_context p provider,
      rim_create-initialized p provider initialized,
      record {
        paired = length-map_executors provider.queues;
        unstopped = map-unstopped provider.queues;
      },
      routed,
    )
