-- ===== src/Typed/Stored.antt =====
-- Stores, and passes of DataStoreWorker::Process (core/store/src/DataStoreWorker.cpp).
use printer_fw.Base.{
  ℕ, ◌≡◌, refl, ◌∙◌, sym, subst, none, some, List, ◌==◌, if◌then◌else◌, >>=-eq-some, some_inv, inl,
  inr, Bool-cases, Option-cases,
}
use printer_fw.Base.Maps
use printer_fw.Base.Maps.{AllValues-put, AllValues-find}
use printer_fw.Value.{Memory, RimValue, RimDataItem, buffer}
use printer_fw.Value.Reads.{Matches, IsWellTyped}
use printer_fw.Storage.{
  Registry, PartitionStorage, find_item, find_data, get_or_create, store, store_in, memory_of,
  stored_binary, empty_storage,
}
use printer_fw.Storage.Consistency.{store_inv, entry_of}
use printer_fw.Storage.Registry.{store_in_inv, find_data-found}
use printer_fw.Product.{DataItemDefinition}
use printer_fw.Product.Context.{ProductContext, find_data_domain_id}
use printer_fw.Store.Settle.{CurrentIsWellTyped}
use printer_fw.Store.{
  StoreState, process, process_known, process_value, store_and_announce, is_changed, current_value,
  binary_info,
}
use printer_fw.Store.Process.{process-valid, process-invalid}
use printer_fw.Queue.{push}
use printer_fw.Product.Domains.{invalid_domain_id}
use printer_fw.Typed.{ItemIsTyped, StorageIsTyped, RegistryIsTyped, Waits}

store-typed :
    (memory : Memory) (s t : PartitionStorage) (item : RimDataItem)
    → store memory s item ≡ some t
    → IsWellTyped item.value
    → StorageIsTyped s
    → StorageIsTyped t
store-typed memory s t item done w typed = elim (store_inv memory s t item done) [
  | inl (n, e) ↦ subst StorageIsTyped (sym e) (AllValues-put _ item.id item s.items w typed)
  | inr (p, x, binary, v, read, e) ↦
      let kept = stored_binary s.address item (entry_of x) in
      subst StorageIsTyped (sym e) (
        AllValues-put _ item.id kept s.items
          (subst (λ t. Matches t kept.value.value) (sym binary) (buffer s.address item.id, refl))
          typed)
]

pub get_or_create-typed :
    (domain : ℕ) (r : Registry)
    → RegistryIsTyped r
    → StorageIsTyped (get_or_create domain r).0 × RegistryIsTyped (get_or_create domain r).1
unfolding get_or_create
get_or_create-typed domain r typed = elim (Option-cases (Maps.find domain r)) [
  | inl e ↦ rw (e, get_or_create) (tt, AllValues-put _ domain (empty_storage domain) r tt typed)
  | inr (s, e) ↦ rw (e, get_or_create) (AllValues-find _ domain s r e typed, typed)
]

pub store_in-typed :
    (memory : Memory) (domain : ℕ) (item : RimDataItem) (r r' : Registry)
    → store_in memory domain item r ≡ some r'
    → IsWellTyped item.value
    → RegistryIsTyped r
    → RegistryIsTyped r'
store_in-typed memory domain item r r' done w typed =
    let (t, stored, out) = store_in_inv memory domain item r r' done in
    let (storage, others) = get_or_create-typed domain r typed in
    subst RegistryIsTyped (sym out) (
      AllValues-put _ domain t (get_or_create domain r).1
        (store-typed memory (get_or_create domain r).0 t item stored w storage) others)

pub find_item-typed :
    (s : PartitionStorage) (id : ℕ) → StorageIsTyped s → CurrentIsWellTyped (find_item s id)
find_item-typed s id typed = elim (Option-cases (find_item s id)) [
  | inl e ↦ rw e tt
  | inr (item, e) ↦ rw e (AllValues-find _ id item s.items e typed)
]

pub find_data-typed :
    (r : Registry) (domain id : ℕ) → RegistryIsTyped r → CurrentIsWellTyped (find_data r domain id)
unfolding find_data
find_data-typed r domain id typed = elim (Option-cases (Maps.find domain r)) [
  | inl e ↦
      let nothing : find_data r domain id ≡ none = rw (e, find_data) refl in
      subst CurrentIsWellTyped (sym nothing) tt
  | inr (s, e) ↦
      subst CurrentIsWellTyped (sym (find_data-found r domain id s e))
        (find_item-typed s id (AllValues-find _ domain s r e typed))
]

module _ (memory : Memory) (insert : List ℕ → ℕ → List ℕ) (domain : ℕ) (s t : StoreState) where
  store_and_announce-typed :
      (item : RimDataItem)
      → store_and_announce memory insert domain s item ≡ some t
      → IsWellTyped item.value
      → RegistryIsTyped s.domain_store
      → RegistryIsTyped t.domain_store
  unfolding store_and_announce
  store_and_announce-typed item h w typed =
      let (r, stored, out) =
        >>=-eq-some (store_in memory domain item s.domain_store)
          (λ r. some (record s {
            domain_store = r;
            capability_queue = (push insert s.capability_queue item.id).0;
          }))
          h in
      subst (λ u. RegistryIsTyped u.domain_store) (sym (some_inv out))
        (store_in-typed memory domain item s.domain_store r stored w typed)

  process_value-typed :
      (definition : DataItemDefinition) (item : RimDataItem) (new : RimValue)
      → process_value memory insert definition domain s item new ≡ some t
      → IsWellTyped new
      → RegistryIsTyped s.domain_store
      → RegistryIsTyped t.domain_store
  unfolding process_value
  process_value-typed definition item new h w typed =
      let (changed, _, out) =
        >>=-eq-some
          (is_changed memory definition (binary_info s.domain_store domain item.id)
            (find_data s.domain_store domain item.id) new)
          (λ changed.
            if changed
            then store_and_announce memory insert domain s (record item { value = new })
            else some s)
          h in
      elim (Bool-cases changed) [
        | inl e ↦ store_and_announce-typed (record item { value = new }) (rw e at out) w typed
        | inr e ↦ subst (λ u. RegistryIsTyped u.domain_store) (sym (some_inv (rw e at out))) typed
      ]

-- A pass over an item that may wait keeps what is stored typed.
pub process-typed :
    (caller : ℕ → List ℕ) (insert : List ℕ → ℕ → List ℕ) (context : ProductContext)
    (s t : StoreState) (item : RimDataItem) (waits : Waits context item)
    → process caller insert context s item ≡ some t
    → ItemIsTyped waits.definition
    → RegistryIsTyped s.domain_store
    → RegistryIsTyped t.domain_store
unfolding process_known
process-typed caller insert context s t item waits done typed_item typed =
    elim (Bool-cases (find_data_domain_id context item.id == invalid_domain_id)) [
      | inl invalid ↦
          subst (λ u. RegistryIsTyped u.domain_store)
            (sym (
              some_inv (
                sym (
                  process-invalid caller insert context s item waits.definition waits.known invalid)
                ∙ done)))
            typed
      | inr valid ↦
          let domain = find_data_domain_id context item.id in
          let (stored, kept, out) =
            >>=-eq-some
              (waits.definition.store (current_value (find_data s.domain_store domain item.id))
                item.value)
              (λ stored.
                process_value (memory_of caller s.domain_store) insert waits.definition domain s
                  item (record stored { type = waits.definition.store_value_type }))
              (sym (process-valid caller insert context s item waits.definition waits.known valid)
                ∙ done) in
          process_value-typed (memory_of caller s.domain_store) insert domain s t waits.definition
            item (record stored { type = waits.definition.store_value_type }) out
            (typed_item.stored _ item.value stored waits.typed waits.set_type kept) typed
    ]
