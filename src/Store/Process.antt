-- ===== src/Store/Process.antt =====
-- DataStoreWorker::Process (core/store/src/DataStoreWorker.cpp), the storages and the capability
-- queue.
use printer_fw.Base.{
  ℕ, ◌≡◌, ◌≢◌, refl, ap, ◌∙◌, sym, Bool, true, false, Option, none, some, List, ◌==◌, if◌then◌else◌,
  ◌>>=◌, Bool-cases, Option-cases, inl, inr, ◌⊎◌, subst, some_inv,
}
use printer_fw.Base.Maps
use printer_fw.Queue.{push}
use printer_fw.Value.{Memory, RimValue, RimDataItem}
use printer_fw.Storage.{Registry, store_in, memory_of, find_data}
use printer_fw.Storage.Registry.{IsSound, store_in-IsSound}
use printer_fw.Product.{DataItemDefinition}
use printer_fw.Product.Domains.{invalid_domain_id}
use printer_fw.Product.Context.{ProductContext, find_data_item, find_data_domain_id}
use printer_fw.Store.{
  StoreState, process, process_known, process_value, store_and_announce, is_changed, current_value,
  binary_info,
}

-- A value was stored into a domain, and its id announced.
abbrev pub Stores : Memory → (List ℕ → ℕ → List ℕ) → ℕ → StoreState → StoreState → ℕ → Type 0
Stores memory insert domain s t id =
    (new : RimValue) × (r : Registry) × (store_in memory domain (record { id = id; value = new })
        s.domain_store
      ≡ some r)
    × (t ≡ record s { domain_store = r; capability_queue = (push insert s.capability_queue id).0 })

module _ (memory : Memory) (insert : List ℕ → ℕ → List ℕ) (domain : ℕ) (s t : StoreState)
    (item : RimDataItem) where
  store_and_announce_inv :
      store_and_announce memory insert domain s item ≡ some t
      → Stores memory insert domain s t item.id
  unfolding store_and_announce
  store_and_announce_inv h = elim (Option-cases (store_in memory domain item s.domain_store)) [
    | inl e ↦ cc (rw (e, store_and_announce) at h)
    | inr (r, e) ↦ (item.value, r, e, some_inv (rw (e, store_and_announce) at h))
  ]

module _ (memory : Memory) (insert : List ℕ → ℕ → List ℕ) (definition : DataItemDefinition)
    (domain : ℕ) (s t : StoreState) (item : RimDataItem) where
  process_value_inv :
      (new : RimValue)
      → process_value memory insert definition domain s item new ≡ some t
      → (t ≡ s) ⊎ Stores memory insert domain s t item.id
  unfolding process_value
  process_value_inv new h =
      branch
        (is_changed memory definition (binary_info s.domain_store domain item.id)
          (find_data s.domain_store domain item.id) new)
        h
    where
      branch :
          (o : Option Bool)
          → (o >>= λ changed.
              if changed
              then store_and_announce memory insert domain s (record item { value = new })
              else some s)
            ≡ some t
          → (t ≡ s) ⊎ Stores memory insert domain s t item.id
      branch none k = cc
      branch (some false) k = inl (some_inv k)
      branch (some true) k =
          inr (store_and_announce_inv memory insert domain s t (record item { value = new }) k)

module _ (caller : ℕ → List ℕ) (insert : List ℕ → ℕ → List ℕ) where
  process_known_inv :
      (definition : DataItemDefinition) (domain : ℕ) (s t : StoreState) (item : RimDataItem)
      → process_known caller insert definition domain s item ≡ some t
      → (t ≡ s) ⊎ Stores (memory_of caller s.domain_store) insert domain s t item.id
  unfolding process_known
  process_known_inv definition domain s t item h =
      branch (definition.store (current_value (find_data s.domain_store domain item.id)) item.value)
        h
    where
      branch :
          (o : Option RimValue)
          → (o >>= λ stored.
              process_value
                (memory_of caller s.domain_store)
                insert
                definition
                domain
                s
                item
                (record stored { type = definition.store_value_type }))
            ≡ some t
          → (t ≡ s) ⊎ Stores (memory_of caller s.domain_store) insert domain s t item.id
      branch none k = cc
      branch (some stored) k = process_value_inv _ insert definition domain s t item _ k

  process-unknown :
      (context : ProductContext) (s : StoreState) (item : RimDataItem)
      → find_data_item context item.id ≡ none
      → process caller insert context s item ≡ some s
  unfolding process
  process-unknown context s item e = rw (e, process)

  pub process-invalid :
      (context : ProductContext) (s : StoreState) (item : RimDataItem)
      (definition : DataItemDefinition)
      → find_data_item context item.id ≡ some definition
      → (find_data_domain_id context item.id == invalid_domain_id) ≡ true
      → process caller insert context s item ≡ some s
  unfolding process
  process-invalid context s item definition e invalid = rw (e, process, invalid) refl

  pub process-valid :
      (context : ProductContext) (s : StoreState) (item : RimDataItem)
      (definition : DataItemDefinition)
      → find_data_item context item.id ≡ some definition
      → (find_data_domain_id context item.id == invalid_domain_id) ≡ false
      → process caller insert context s item
        ≡ process_known caller insert definition (find_data_domain_id context item.id) s item
  unfolding process
  process-valid context s item definition e valid = rw (e, process, valid) refl

  pub process_inv :
      (context : ProductContext) (s t : StoreState) (item : RimDataItem)
      → process caller insert context s item ≡ some t
      → (t ≡ s)
        ⊎ Stores
            (memory_of caller s.domain_store)
            insert
            (find_data_domain_id context item.id)
            s
            t
            item.id
  process_inv context s t item h = elim (Option-cases (find_data_item context item.id)) [
    | inl e ↦ inl (some_inv (sym (process-unknown context s item e) ∙ h))
    | inr (definition, e) ↦
        elim (Bool-cases (find_data_domain_id context item.id == invalid_domain_id)) [
          | inl invalid ↦
              inl (some_inv (sym (process-invalid context s item definition e invalid) ∙ h))
          | inr valid ↦
              process_known_inv definition (find_data_domain_id context item.id) s t item
                (sym (process-valid context s item definition e valid) ∙ h)
        ]
  ]

  pub process-queue :
      (context : ProductContext) (s t : StoreState) (item : RimDataItem)
      → process caller insert context s item ≡ some t
      → t.queue ≡ s.queue
  process-queue context s t item h = elim (process_inv context s t item h) [
    | inl same ↦ ap (λ u. u.queue) same
    | inr (new, r, stored, e) ↦ ap (λ u. u.queue) e
  ]

  -- Whatever the callbacks are, a pass of `Process` that is defined keeps the storages sound and
  -- the storages of all other domains as they are, and it pushes the item's id to the capability
  -- queue if it changes anything.
  pub process-IsSound :
      (context : ProductContext) (s t : StoreState) (item : RimDataItem)
      → process caller insert context s item ≡ some t
      → IsSound s.domain_store
      → IsSound t.domain_store
        × ((domain : ℕ)
            → find_data_domain_id context item.id ≢ domain
            → Maps.find domain t.domain_store ≡ Maps.find domain s.domain_store)
        × ((t ≡ s) ⊎ (t.capability_queue ≡ (push insert s.capability_queue item.id).0))
  process-IsSound context s t item h sound = elim (process_inv context s t item h) [
    | inl same ↦ rw same (sound, λ domain ne. refl, inl refl)
    | inr (new, r, stored, e) ↦
        let (kept, others) = store_in-IsSound _ _ _ s.domain_store r stored sound in
        (
          subst (λ u. IsSound u.domain_store) (sym e) kept,
          λ domain ne. ap (λ u. Maps.find domain u.domain_store) e ∙ others domain ne,
          inr (ap (λ u. u.capability_queue) e),
        )
  ]
