-- ===== src/Typed/Defined.antt =====
-- Passes of CapabilityWorker::Process (core/capability/src/CapabilityWorker.cpp) are defined.
use printer_fw.Base.{
  ℕ, ◌≡◌, ◌≢◌, refl, subst, Bool, true, false, Option, none, some, List, [], ◌∷◌, ◌==◌, inl, inr,
  Option-cases, Bool-cases, All, All-append,
}
use printer_fw.Base.Maps
use printer_fw.Base.Maps.{AllValues-find, All-values}
use printer_fw.Notification.{capability, data_item}
use printer_fw.Queue.{try_pop}
use printer_fw.Value.{k_binary, Memory, RimValue, RimDataItem}
use printer_fw.Value.Reads.{IsWellTyped}
use printer_fw.Storage.{Registry, find_item, find_data, get_all, get_or_create, store_in, memory_of}
use printer_fw.Storage.Consistency.{with_plain, store-with_plain}
use printer_fw.Product.{
  DataItemDefinition, BuildCallback, DiffCallback, CapabilityItemDefinition, FacadeItemDefinition,
  RimSnapshot, ProductDefinition,
}
use printer_fw.Product.Context.{
  ProductContext, capabilities_on, facades_on, find_facade, find_facade_domain_id,
  find_capability_domain_id, required_domains,
}
use printer_fw.Store.Settle.{CurrentIsWellTyped}
use printer_fw.Capability.{
  is_changed_item, store_changed, evaluate_in, evaluate, evaluate_capability, evaluate_facade,
  CapabilityState, announce, publish_facade, publish_facade_changes, publish_capability,
  publish_capability_changes, process, execute_once, capability_snapshot, facade_snapshot,
  build_items, facade_items,
}
use printer_fw.Typed.{ProductIsTyped, BuildIsTyped, RegistryIsTyped}
use printer_fw.Typed.Stored.{get_or_create-typed, find_item-typed, find_data-typed}
use printer_fw.Typed.Evaluated.{FacadesAreTyped, IsGood, evaluate-IsGood, publish_facade-IsGood}

abbrev ItemsAreTyped : List RimDataItem → Type 0
ItemsAreTyped = All (λ item. IsWellTyped item.value)

abbrev pub SnapshotIsTyped : RimSnapshot → Type 0
SnapshotIsTyped snapshot = ItemsAreTyped snapshot.items

-- The value is compared with every well-typed one.
abbrev pub IsCompared : DiffCallback → RimValue → Type 0
IsCompared diff v =
    (memory : Memory) (old : RimValue)
    → IsWellTyped old
    → (changed : Bool) × (diff memory old v ≡ some changed)

-- From a typed snapshot `build` makes a value that is not binary and that `diff` compares.
pub record BuilderIsDefined (build : BuildCallback) (diff : DiffCallback) : Type 0 where
  pub typed : BuildIsTyped build
  pub defined :
      (memory : Memory) (snapshot : RimSnapshot)
      → SnapshotIsTyped snapshot
      → (v : RimValue) × (build memory snapshot ≡ some v) × (v.type ≢ k_binary) × IsCompared diff v

abbrev pub FacadesAreDefined : List FacadeItemDefinition → Type 0
FacadesAreDefined = All (λ f. BuilderIsDefined f.build f.diff)

abbrev pub CapabilitiesAreDefined : List CapabilityItemDefinition → Type 0
CapabilitiesAreDefined = All (λ c. BuilderIsDefined c.build c.diff)

-- A value of the set type is stored, and one of the store type that is not binary is compared.
pub record ItemIsDefined (x : DataItemDefinition) : Type 0 where
  pub kept :
      (c v : RimValue)
      → IsWellTyped v
      → v.type ≡ x.set_value_type
      → (r : RimValue) × (x.store c v ≡ some r)
  pub compared :
      (diff : DiffCallback) (v : RimValue)
      → x.diff ≡ some diff
      → v.type ≡ x.store_value_type
      → IsWellTyped v
      → v.type ≢ k_binary
      → IsCompared diff v

-- Moreover every value of an item's raw type can be normalized.
pub record ProductIsDefined (p : ProductDefinition) : Type 0 where
  pub typed : ProductIsTyped p
  pub items :
      All
        (λ x.
          (v : RimValue)
          → IsWellTyped v
          → v.type ≡ x.raw_value_type
          → (r : RimValue) × (x.normalize v ≡ some r))
        p.data_items
  pub kept : All ItemIsDefined p.data_items
  pub capabilities : CapabilitiesAreDefined p.capabilities
  pub facades : FacadesAreDefined p.facades

build_items-typed :
    (r : Registry) (domains : List ℕ) → RegistryIsTyped r → ItemsAreTyped (build_items r domains)
unfolding build_items get_all
build_items-typed r [] typed = tt
build_items-typed r (domain ∷ domains) typed =
    let rest = build_items-typed r domains typed in
    elim (Option-cases (Maps.find domain r)) [
      | inl e ↦ rw (e, build_items) rest
      | inr (s, e) ↦
          rw (e, build_items)
            (All-append _ (Maps.values s.items) (build_items r domains)
              (All-values _ s.items (AllValues-find _ domain s r e typed)) rest)
    ]

facade_items-typed :
    (context : ProductContext) (r : Registry) (ids : List ℕ)
    → RegistryIsTyped r
    → ItemsAreTyped (facade_items context r ids)
unfolding facade_items
facade_items-typed context r [] typed = tt
facade_items-typed context r (id ∷ ids) typed =
    let rest = facade_items-typed context r ids typed in
    let domain = find_capability_domain_id context id in
    elim (Bool-cases (domain == 0)) [
      | inl invalid ↦ rw invalid rest
      | inr valid ↦ elim (Option-cases (find_data r domain id)) [
        | inl e ↦ rw (valid, e) rest
        | inr (item, e) ↦
            rw (valid, e) (subst CurrentIsWellTyped e (find_data-typed r domain id typed), rest)
      ]
    ]

facade_snapshot-typed :
    (context : ProductContext) (r : Registry) (id : ℕ)
    → RegistryIsTyped r
    → SnapshotIsTyped (facade_snapshot context r id)
unfolding facade_snapshot
facade_snapshot-typed context r id typed = elim (Option-cases (find_facade context id)) [
  | inl e ↦ rw (e, facade_snapshot) tt
  | inr (f, e) ↦
      rw (e, facade_snapshot) (facade_items-typed context r f.required_capability_ids typed)
]

is_changed_item-defined :
    (diff : DiffCallback) (memory : Memory) (o : Option RimDataItem) (v : RimValue)
    → IsCompared diff v
    → CurrentIsWellTyped o
    → (changed : Bool) × (is_changed_item memory diff o v ≡ some changed)
is_changed_item-defined diff memory none v compared w = (true, refl)
is_changed_item-defined diff memory (some old) v compared w = compared memory old.value w

pub store_in-defined :
    (memory : Memory) (domain : ℕ) (r : Registry) (item : RimDataItem)
    → item.value.type ≢ k_binary
    → (r' : Registry) × (store_in memory domain item r ≡ some r')
unfolding store_in
store_in-defined memory domain r item plain = (
  Maps.put domain (with_plain (get_or_create domain r).0 item) (get_or_create domain r).1,
  rw (store-with_plain memory (get_or_create domain r).0 item plain, store_in) refl,
)

store_changed-defined :
    (memory : Memory) (domain : ℕ) (r : Registry) (item : RimDataItem) (changed : Bool)
    → item.value.type ≢ k_binary
    → (answer : Registry × Bool) × (store_changed memory domain r item changed ≡ some answer)
unfolding store_changed
store_changed-defined memory domain r item false plain = ((r, false), refl)
store_changed-defined memory domain r item true plain =
    let (r', stored) = store_in-defined memory domain r item plain in
    ((r', true), rw (stored, store_changed) refl)

module _ (caller : ℕ → List ℕ) where
  evaluate-defined :
      (build : BuildCallback) (diff : DiffCallback) (domain id : ℕ) (r : Registry)
      (snapshot : RimSnapshot)
      → BuilderIsDefined build diff
      → RegistryIsTyped r
      → SnapshotIsTyped snapshot
      → (answer : Registry × Bool) × (evaluate caller build diff domain id r snapshot ≡ some answer)
  unfolding evaluate evaluate_in
  evaluate-defined build diff domain id r snapshot b typed given =
      let (v, built, plain, compares) = b.defined (memory_of caller r) snapshot given in
      elim (Bool-cases (domain == 0)) [
        | inl invalid ↦ ((r, false), rw (built, invalid) refl)
        | inr valid ↦
            let storage = (get_or_create domain r).0 in
            let r' = (get_or_create domain r).1 in
            let (changed, compared) =
              is_changed_item-defined diff (memory_of caller r') (find_item storage id) v compares
                (find_item-typed storage id (get_or_create-typed domain r typed).0) in
            let (answer, stored) =
              store_changed-defined (memory_of caller r') domain r' (record { id = id; value = v })
                changed plain in
            (answer, rw (built, valid, compared) stored)
      ]

typed_of : (fs : List FacadeItemDefinition) → FacadesAreDefined fs → FacadesAreTyped fs
typed_of [] h = tt
typed_of (f ∷ fs) h = (h.0.typed, typed_of fs h.1)

module _ (caller : ℕ → List ℕ) (context : ProductContext)
    (facades : (id : ℕ) → FacadesAreDefined (facades_on context id)) where
  typed_facades : (id : ℕ) → FacadesAreTyped (facades_on context id)
  typed_facades id = typed_of (facades_on context id) (facades id)

  publish_facade_changes-defined :
      (s : CapabilityState) (fs : List FacadeItemDefinition)
      → FacadesAreDefined fs
      → IsGood s.store
      → (t : CapabilityState) × (publish_facade_changes caller context s fs ≡ some t)
        × IsGood t.store
  unfolding publish_facade_changes evaluate_facade
  publish_facade_changes-defined s [] b good = (s, refl, good)
  publish_facade_changes-defined s (f ∷ fs) b good =
      let domain = find_facade_domain_id context f.id in
      let snapshot = facade_snapshot context s.store f.id in
      let (answer, evaluated) =
        evaluate-defined caller f.build f.diff domain f.id s.store snapshot b.0 good.1
          (facade_snapshot-typed context s.store f.id good.1) in
      let (t, done, kept) =
        publish_facade_changes-defined (publish_facade caller context s f.id answer) fs b.1 (
          publish_facade-IsGood caller context typed_facades s f.id answer (
            evaluate-IsGood caller f.build f.diff domain f.id s.store snapshot answer evaluated
              b.0.typed good)) in
      (t, rw evaluated done, kept)

  publish_capability-defined :
      (s : CapabilityState) (id : ℕ) (answer : Registry × Bool)
      → IsGood answer.0
      → (t : CapabilityState) × (publish_capability caller context s id answer ≡ some t)
        × IsGood t.store
  unfolding publish_capability announce
  publish_capability-defined s id (r, false) good = (record s { store = r }, refl, good)
  publish_capability-defined s id (r, true) good =
      publish_facade_changes-defined
        (announce context (record { type = capability; id = id }) (record s { store = r }))
        (facades_on context id) (facades id) good

  publish_capability_changes-defined :
      (s : CapabilityState) (cs : List CapabilityItemDefinition)
      → CapabilitiesAreDefined cs
      → IsGood s.store
      → (t : CapabilityState) × (publish_capability_changes caller context s cs ≡ some t)
  unfolding publish_capability_changes evaluate_capability capability_snapshot
  publish_capability_changes-defined s [] b good = (s, refl)
  publish_capability_changes-defined s (c ∷ cs) b good =
      let domain = find_capability_domain_id context c.id in
      let snapshot = capability_snapshot context s.store c.id in
      let (answer, evaluated) =
        evaluate-defined caller c.build c.diff domain c.id s.store snapshot b.0 good.1
          (build_items-typed s.store (required_domains context c.id) good.1) in
      let (t, published, kept) = publish_capability-defined s c.id answer (
        evaluate-IsGood caller c.build c.diff domain c.id s.store snapshot answer evaluated
          b.0.typed good) in
      let (u, done) = publish_capability_changes-defined t cs b.1 kept in
      (u, rw (evaluated, published) done)

  module _ (capabilities : (id : ℕ) → CapabilitiesAreDefined (capabilities_on context id)) where
    process-defined :
        (s : CapabilityState) (id : ℕ)
        → IsGood s.store
        → (t : CapabilityState) × (process caller context s id ≡ some t)
    unfolding process announce
    process-defined s id good = elim (Bool-cases (id == 4294967295)) [
      | inl e ↦ (s, rw e refl)
      | inr e ↦
          let (t, done) =
            publish_capability_changes-defined
              (announce context (record { type = data_item; id = id }) s)
              (capabilities_on context id) (capabilities id) good in
          (t, rw e done)
    ]

    pub execute_once-defined :
        (s : CapabilityState)
        → IsGood s.store
        → (answer : CapabilityState × Bool) × (execute_once caller context s ≡ some answer)
    unfolding execute_once
    execute_once-defined s good = elim (Option-cases (try_pop s.queue).1) [
      | inl e ↦ ((s, false), rw (e, execute_once) refl)
      | inr (id, e) ↦
          let (t, done) = process-defined (record s { queue = (try_pop s.queue).0 }) id good in
          ((t, true), rw (e, execute_once, done) refl)
    ]
