-- ===== src/Typed/Handled.antt =====
-- Passes of DataStoreWorker::Process (core/store/src/DataStoreWorker.cpp) are defined on values that
-- are not binary.
use printer_fw.Base.{
  ℕ, ◌≡◌, ◌≢◌, refl, ◌∙◌, Bool, true, false, Option, none, some, List, ◌==◌, inl, inr, Option-cases,
  Bool-cases, if_pos, if_neg,
}
use printer_fw.Queue.{try_pop, push}
use printer_fw.Value.{k_binary, Memory, RimValue, RimDataItem, ValueType-discrete}
use printer_fw.Value.Reads.{IsWellTyped}
use printer_fw.Storage.{BinaryInfo, find_data, memory_of}
use printer_fw.Product.{DataItemDefinition, DiffCallback}
use printer_fw.Product.Domains.{invalid_domain_id}
use printer_fw.Product.Context.{ProductContext, find_data_item, find_data_domain_id}
use printer_fw.Store.Settle.{CurrentIsWellTyped}
use printer_fw.Store.Process.{process-valid, process-invalid}
use printer_fw.Store.{
  StoreState, process, process_known, process_value, store_and_announce, is_changed, diff_values,
  current_value, binary_info, execute_once,
}
use printer_fw.Typed.{ItemIsTyped, RegistryIsTyped, Waits}
use printer_fw.Typed.Stored.{find_data-typed}
use printer_fw.Typed.Queued.{QueueHas}
use printer_fw.Typed.Passes.{popped-Has}
use printer_fw.Typed.Defined.{ItemIsDefined, store_in-defined}

diff_values-plain :
    (memory : Memory) (diff : DiffCallback) (info : Option BinaryInfo) (current new : RimValue)
    → new.type ≢ k_binary
    → diff_values memory diff info current new ≡ diff memory current new
unfolding diff_values
diff_values-plain memory diff info current new plain =
    elim (ValueType-discrete current.type k_binary) [
      | yes e ↦ rw (if_pos _ e, if_neg _ plain) refl
      | no n ↦ rw (if_neg _ n) refl
    ]

is_changed-defined :
    (memory : Memory) (x : DataItemDefinition) (info : Option BinaryInfo) (o : Option RimDataItem)
    (new : RimValue)
    → ItemIsDefined x
    → new.type ≡ x.store_value_type
    → IsWellTyped new
    → new.type ≢ k_binary
    → CurrentIsWellTyped o
    → (changed : Bool) × (is_changed memory x info o new ≡ some changed)
unfolding is_changed
is_changed-defined memory x info none new d t w plain c = (true, refl)
is_changed-defined memory x info (some current) new d t w plain c = elim (Option-cases x.diff) [
  | inl e ↦ (true, rw (e, is_changed) refl)
  | inr (diff, e) ↦
      let (changed, compared) = d.compared diff new e t w plain memory current.value c in
      (
        changed,
        rw (e, is_changed) (diff_values-plain memory diff info current.value new plain ∙ compared),
      )
]

module _ (memory : Memory) (insert : List ℕ → ℕ → List ℕ) (x : DataItemDefinition)
    (d : ItemIsDefined x) (domain : ℕ) (s : StoreState) (item : RimDataItem) where
  store_and_announce-defined :
      (new : RimDataItem)
      → new.value.type ≢ k_binary
      → (t : StoreState) × (store_and_announce memory insert domain s new ≡ some t)
  unfolding store_and_announce
  store_and_announce-defined new plain =
      let (r, stored) = store_in-defined memory domain s.domain_store new plain in
      (
        record s { domain_store = r; capability_queue = (push insert s.capability_queue new.id).0 },
        rw (stored, store_and_announce) refl,
      )

  process_value-defined :
      (new : RimValue)
      → new.type ≡ x.store_value_type
      → IsWellTyped new
      → new.type ≢ k_binary
      → RegistryIsTyped s.domain_store
      → (t : StoreState) × (process_value memory insert x domain s item new ≡ some t)
  unfolding process_value
  process_value-defined new t w plain typed =
      let info = binary_info s.domain_store domain item.id in
      let current = find_data s.domain_store domain item.id in
      let (changed, compared) =
        is_changed-defined memory x info current new d t w plain
          (find_data-typed s.domain_store domain item.id typed) in
      elim (Bool-cases changed) [
        | inl e ↦
            let (u, stored) = store_and_announce-defined (record item { value = new }) plain in
            (u, rw (compared, process_value, e) stored)
        | inr e ↦ (s, rw (compared, process_value, e) refl)
      ]

process-defined :
    (caller : ℕ → List ℕ) (insert : List ℕ → ℕ → List ℕ) (context : ProductContext) (s : StoreState)
    (item : RimDataItem) (waits : Waits context item)
    → ItemIsTyped waits.definition
    → ItemIsDefined waits.definition
    → waits.definition.store_value_type ≢ k_binary
    → RegistryIsTyped s.domain_store
    → (t : StoreState) × (process caller insert context s item ≡ some t)
unfolding process_known
process-defined caller insert context s item waits typed d plain stored_typed =
    let x = waits.definition in
    let domain = find_data_domain_id context item.id in
    elim (Bool-cases (domain == invalid_domain_id)) [
      | inl invalid ↦ (s, process-invalid caller insert context s item x waits.known invalid)
      | inr valid ↦
          let current = current_value (find_data s.domain_store domain item.id) in
          let (r, kept) = d.kept current item.value waits.typed waits.set_type in
          let (t, done) =
            process_value-defined (memory_of caller s.domain_store) insert x d domain s item
              (record r { type = x.store_value_type }) refl
              (typed.stored current item.value r waits.typed waits.set_type kept) plain
              stored_typed in
          (t, process-valid caller insert context s item x waits.known valid ∙ rw kept done)
    ]

pub execute_once-defined :
    (caller : ℕ → List ℕ) (insert : List ℕ → ℕ → List ℕ) (context : ProductContext) (s : StoreState)
    → ((id : ℕ) (x : DataItemDefinition)
        → find_data_item context id ≡ some x
        → ItemIsTyped x × ItemIsDefined x)
    → ((item : RimDataItem) (x : DataItemDefinition)
        → (try_pop s.queue).1 ≡ some item
        → find_data_item context item.id ≡ some x
        → x.store_value_type ≢ k_binary)
    → RegistryIsTyped s.domain_store
    → QueueHas (Waits context) s.queue
    → (answer : StoreState × Bool) × (execute_once caller insert context s ≡ some answer)
unfolding execute_once
execute_once-defined caller insert context s items plain typed has =
    elim (Option-cases (try_pop s.queue).1) [
      | inl e ↦ ((s, false), rw (e, execute_once) refl)
      | inr (item, e) ↦
          let waits = (popped-Has (Waits context) s.queue item e has).0 in
          let (item_typed, d) = items item.id waits.definition waits.known in
          let (t, done) =
            process-defined caller insert context (record s { queue = (try_pop s.queue).0 }) item
              waits item_typed d (plain item waits.definition e waits.known) typed in
          ((t, true), rw (e, execute_once, done) refl)
    ]
