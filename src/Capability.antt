-- ===== src/Capability.antt =====
-- core/capability/src/CapabilityManager.cpp, FacadeManager.cpp, CapabilityWorker.cpp and
-- CapabilitySnapshotResolver.cpp, core/capability/include/FacadeSnapshotProvider.hpp and
-- core/storage/snapshot/src/SnapshotBuilder.cpp. `none` is undefined behaviour of a callback or of
-- a store.
pub mod Progress
use printer_fw.Base.{
  ℕ, Bool, true, false, Option, none, some, List, [], ◌∷◌, ◌++◌, ◌==◌, if◌then◌else◌, ◌>>=◌,
}
use printer_fw.Base.Maps
use printer_fw.Notification.{
  NotificationTarget, capability, data_item, facade, low, uncompressed, CompressionPolicy,
  PublisherInput,
}
use printer_fw.Queue.{EventQueue, push, try_pop}
use printer_fw.Queue.Policies.{priority_compression_insert}
use printer_fw.Value.{Memory, RimValue, RimDataItem}
use printer_fw.Storage.{Registry, get_all, find_data, get_or_create, find_item, store_in, memory_of}
use printer_fw.Product.{
  RouteDefinition, RimSnapshot, BuildCallback, DiffCallback, CapabilityItemDefinition,
  FacadeItemDefinition,
}
use printer_fw.Product.Domains.{invalid_domain_id}
use printer_fw.Product.Context.{
  ProductContext, find_facade, find_capability_domain_id, find_facade_domain_id, capabilities_on,
  facades_on, required_domains, resolve_route,
}

-- RI_INVALID_DATA_ID
abbrev pub invalid_data_id : ℕ
invalid_data_id = 4294967295

-- `SnapshotBuilder::Build`: the items of the domains, one domain after the other.
unfoldable pub build_items : Registry → List ℕ → List RimDataItem
build_items r [] = []
build_items r (domain ∷ domains) =
    let rest = build_items r domains in
    elim (Maps.find domain r) [ none ↦ rest | some storage ↦ get_all storage ++ rest ]

-- `Create` of CapabilitySnapshotProvider, with the domains that the resolver looks up.
unfoldable pub capability_snapshot : ProductContext → Registry → ℕ → RimSnapshot
unfolding build_items
capability_snapshot context r id = record { items = build_items r (required_domains context id) }

-- The loop of FacadeSnapshotProvider over the required capabilities.
unfoldable pub facade_items : ProductContext → Registry → List ℕ → List RimDataItem
unfolding find_data
facade_items context r [] = []
facade_items context r (id ∷ ids) =
    let rest = facade_items context r ids in
    if find_capability_domain_id context id == invalid_domain_id
    then rest
    else elim (find_data r (find_capability_domain_id context id) id) [
      | none ↦ rest
      | some item ↦ item ∷ rest
    ]

-- `Create` of FacadeSnapshotProvider.
unfoldable pub facade_snapshot : ProductContext → Registry → ℕ → RimSnapshot
unfolding facade_items
facade_snapshot context r id = elim (find_facade context id) [
  | none ↦ record { items = [] }
  | some definition ↦ record { items = facade_items context r definition.required_capability_ids }
]

-- `changed`, by the item that is stored.
abbrev pub is_changed_item : Memory → DiffCallback → Option RimDataItem → RimValue → Option Bool
is_changed_item memory diff none new = some true
is_changed_item memory diff (some old) new = diff memory old.value new

-- The end of `Evaluate`: the item is stored if its value changed.
unfoldable pub store_changed : Memory → ℕ → Registry → RimDataItem → Bool → Option (Registry × Bool)
store_changed memory domain r item false = some (r, false)
store_changed memory domain r item true = do r' ← store_in memory domain item r; some (r', true)

-- `Evaluate` behind the check of the domain, which makes the storage if there is none.
unfoldable pub evaluate_in :
    (ℕ → List ℕ) → DiffCallback → ℕ → Registry → RimDataItem → Option (Registry × Bool)
unfolding store_changed get_or_create
evaluate_in caller diff domain r item =
    let (storage, r') = get_or_create domain r in
    (is_changed_item (memory_of caller r') diff (find_item storage item.id) item.value
      >>= store_changed (memory_of caller r') domain r' item)

-- `Evaluate` of CapabilityManager and of FacadeManager, which are alike.
unfoldable pub evaluate :
    (ℕ → List ℕ)
    → BuildCallback
    → DiffCallback
    → ℕ
    → ℕ
    → Registry
    → RimSnapshot
    → Option (Registry × Bool)
unfolding evaluate_in
evaluate caller build diff domain id r snapshot = do
  new ← build (memory_of caller r) snapshot
  if domain == invalid_domain_id
      then some (r, false)
      else evaluate_in caller diff domain r (record { id = id; value = new })

unfoldable pub evaluate_capability :
    (ℕ → List ℕ) → ProductContext → Registry → CapabilityItemDefinition → Option (Registry × Bool)
unfolding evaluate capability_snapshot
evaluate_capability caller context r c =
    evaluate caller c.build c.diff (find_capability_domain_id context c.id) c.id r
      (capability_snapshot context r c.id)

unfoldable pub evaluate_facade :
    (ℕ → List ℕ) → ProductContext → Registry → FacadeItemDefinition → Option (Registry × Bool)
unfolding evaluate facade_snapshot
evaluate_facade caller context r f =
    evaluate caller f.build f.diff (find_facade_domain_id context f.id) f.id r
      (facade_snapshot context r f.id)

-- What the worker reads and writes.
pub record CapabilityState : Type 0 where
  pub queue : EventQueue ℕ
  pub store : Registry
  pub publisher_queue : EventQueue PublisherInput

abbrev pub compression_of : Option RouteDefinition → CompressionPolicy
compression_of none = uncompressed
compression_of (some route) = route.compression_policy

-- `PublisherInput input{}` with its target, and the policy of its route if there is one.
unfoldable pub announce : ProductContext → NotificationTarget → CapabilityState → CapabilityState
announce context target s = record s {
  publisher_queue =
      (push priority_compression_insert s.publisher_queue (record {
        target = target;
        priority = low;
        compression_policy = compression_of (resolve_route context target);
      })).0;
}

module _ (caller : ℕ → List ℕ) (context : ProductContext) where
  -- A facade that was evaluated is announced if it changed.
  unfoldable pub publish_facade : CapabilityState → ℕ → Registry × Bool → CapabilityState
  unfolding announce
  publish_facade s id (r, false) = record s { store = r }
  publish_facade s id (r, true) =
      announce context (record { type = facade; id = id }) (record s { store = r })

  -- PublishFacadeChanges
  unfoldable pub publish_facade_changes :
      CapabilityState → List FacadeItemDefinition → Option CapabilityState
  unfolding publish_facade evaluate_facade
  publish_facade_changes s [] = some s
  publish_facade_changes s (f ∷ fs) = evaluate_facade caller context s.store f >>= λ answer.
      publish_facade_changes (publish_facade s f.id answer) fs

  -- A capability that was evaluated is announced if it changed, and then its facades are evaluated.
  unfoldable pub publish_capability : CapabilityState → ℕ → Registry × Bool → Option CapabilityState
  unfolding announce publish_facade_changes
  publish_capability s id (r, false) = some (record s { store = r })
  publish_capability s id (r, true) =
      publish_facade_changes
        (announce context (record { type = capability; id = id }) (record s { store = r }))
        (facades_on context id)

  -- PublishCapabilityChanges
  unfoldable pub publish_capability_changes :
      CapabilityState → List CapabilityItemDefinition → Option CapabilityState
  unfolding publish_capability evaluate_capability
  publish_capability_changes s [] = some s
  publish_capability_changes s (c ∷ cs) = evaluate_capability caller context s.store c >>= λ answer.
      publish_capability s c.id answer >>= λ s'. publish_capability_changes s' cs

  -- Process, with PublishDataChanges
  unfoldable pub process : CapabilityState → ℕ → Option CapabilityState
  unfolding announce publish_capability_changes
  process s id =
      if id == invalid_data_id
      then some s
      else publish_capability_changes (announce context (record { type = data_item; id = id }) s)
          (capabilities_on context id)

  -- ExecuteOnce
  unfoldable pub execute_once : CapabilityState → Option (CapabilityState × Bool)
  unfolding process
  execute_once s = elim (try_pop s.queue).1 [
    | none ↦ some (s, false)
    | some id ↦ do s' ← process (record s { queue = (try_pop s.queue).0 }) id; some (s', true)
  ]
