-- ===== src/Typed/Queued.antt =====
-- The items that wait in the store queues of the routes (core/common/src/RouteProvider.cpp).
use Prim.Native.String.{String}
use text.Mathlib.Text.{◌==◌ as str_eq}
use printer_fw.Base.{◌≡◌, Bool, some, List, [], ◌∷◌, All, All-append, Bool-cases, inl, inr, ◌==◌}
use printer_fw.Queue
use printer_fw.Queue.{EventQueue, QueuePolicy, buffered, coalescing, push}
use printer_fw.Queue.Policies.{fifo_insert, coalescing_insert, erase_first}
use printer_fw.Value.{RimDataItem, compression_key}
use printer_fw.Adapter.{RouteQueues, push_store, new_queues, emplace_queues, add_routes, find_named}
use printer_fw.Adapter.Routing.{first-All}
use printer_fw.Product.{RouteDefinition}
use printer_fw.Product.Validate.{is_found}

module _ (P : RimDataItem → Type 0) where
  abbrev pub QueueHas : EventQueue RimDataItem → Type 0
  QueueHas q = All P q.events

  abbrev pub RouteHas : RouteQueues → Type 0
  RouteHas q = QueueHas q.store_queue

  erase_first-All :
      (p : RimDataItem → Bool) (xs : List RimDataItem) → All P xs → All P (erase_first p xs)
  unfolding erase_first
  erase_first-All p [] h = tt
  erase_first-All p (x ∷ xs) h = elim (Bool-cases (p x)) [
    | inl e ↦ rw e h.1
    | inr e ↦ rw e (h.0, erase_first-All p xs h.1)
  ]

  create-All :
      (policy : QueuePolicy) (xs : List RimDataItem) (x : RimDataItem)
      → All P xs
      → P x
      → All P (Queue.create compression_key policy xs x)
  unfolding Queue.create fifo_insert coalescing_insert
  create-All buffered xs x h p = All-append P xs (x ∷ []) h (p, tt)
  create-All coalescing xs x h p =
      All-append P _ (x ∷ []) (erase_first-All (λ e. e.id == x.id) xs h) (p, tt)

  push-Has :
      (policy : QueuePolicy) (q : EventQueue RimDataItem) (x : RimDataItem)
      → QueueHas q
      → P x
      → QueueHas (push (Queue.create compression_key policy) q x).0
  unfolding push
  push-Has policy q x h p = elim (Bool-cases q.shutdown) [
    | inl e ↦ rw e h
    | inr e ↦ rw e (create-All policy q.events x h p)
  ]

  pub push_store-Has :
      (name : String) (x : RimDataItem) (qs : List RouteQueues)
      → P x
      → All RouteHas qs
      → All RouteHas (push_store name x qs)
  unfolding push_store
  push_store-Has name x [] p h = tt
  push_store-Has name x (q ∷ qs) p h = elim (Bool-cases (str_eq q.name name)) [
    | inl e ↦ rw e (push-Has q.store_policy q.store_queue x h.0 p, h.1)
    | inr e ↦ rw e (h.0, push_store-Has name x qs p h.1)
  ]

  emplace_queues-Has :
      (qs : List RouteQueues) (route : RouteDefinition)
      → All RouteHas qs
      → All RouteHas (emplace_queues qs route)
  unfolding emplace_queues
  emplace_queues-Has qs route h = elim (Bool-cases (is_found (find_named qs route.name))) [
    | inl e ↦ rw e h
    | inr e ↦ rw e (All-append RouteHas qs (new_queues route ∷ []) h (tt, tt))
  ]

  pub add_routes-Has :
      (qs : List RouteQueues) (routes : List RouteDefinition)
      → All RouteHas qs
      → All RouteHas (add_routes qs routes)
  unfolding add_routes
  add_routes-Has qs [] h = h
  add_routes-Has qs (route ∷ routes) h =
      add_routes-Has (emplace_queues qs route) routes (emplace_queues-Has qs route h)

  pub find_named-Has :
      (qs : List RouteQueues) (name : String) (q : RouteQueues)
      → All RouteHas qs
      → find_named qs name ≡ some q
      → RouteHas q
  find_named-Has qs name q h e = first-All RouteHas (λ x. str_eq x.name name) qs q h e
