-- ===== src/Store/Binary.antt =====
-- The first value of a binary item under DataStoreWorker::Process
-- (core/store/src/DataStoreWorker.cpp), with `IdentityStore` of products/common.
use printer_fw.Base.{ℕ, ◌≡◌, refl, ◌∙◌, true, false, Option, none, some, List, ◌==◌, length}
use printer_fw.Queue.{push}
use printer_fw.Value.{
  k_binary, BytesPointer, buffer, Memory, bytes, RimValue, RimDataItem, read_bytes, identity_store,
}
use printer_fw.Storage.{is_own, BinaryInfo, find_data, memory_of}
use printer_fw.Storage.Registry.{IsSound, store_in-binary}
use printer_fw.Product.{DataItemDefinition}
use printer_fw.Product.Domains.{invalid_domain_id}
use printer_fw.Product.Context.{ProductContext, find_data_item, find_data_domain_id}
use printer_fw.Store.{StoreState, process, process_known, process_value, is_changed, binary_info}
use printer_fw.Store.Process.{process-valid}
use printer_fw.Store.Settle.{process_value-same, store_and_announce-stored}

process_known-binary :
    (caller : ℕ → List ℕ) (insert : List ℕ → ℕ → List ℕ) (definition : DataItemDefinition)
    (domain : ℕ) (s : StoreState) (item : RimDataItem)
    → definition.store ≡ identity_store
    → definition.store_value_type ≡ item.value.type
    → process_known caller insert definition domain s item
      ≡ process_value (memory_of caller s.domain_store) insert definition domain s item item.value
unfolding process_known identity_store
process_known-binary caller insert definition domain s item keeps kept_as = rw (keeps, kept_as) refl

is_changed-first :
    (memory : Memory) (definition : DataItemDefinition) (info : Option BinaryInfo)
    (o : Option RimDataItem) (new : RimValue)
    → o ≡ none
    → is_changed memory definition info o new ≡ some true
unfolding is_changed
is_changed-first memory definition info o new e = rw e refl

-- A pass over a binary item that the product knows, whose domain id is valid and which is kept as it
-- is, with bytes that can be read and nothing stored for it yet in a sound registry, is defined. The
-- item is then found with a pointer that leads to a copy of those bytes, with their number.
pub process-first_binary :
    (caller : ℕ → List ℕ) (insert : List ℕ → ℕ → List ℕ) (context : ProductContext) (s : StoreState)
    (item : RimDataItem) (definition : DataItemDefinition) (p : BytesPointer) (x : List ℕ)
    → find_data_item context item.id ≡ some definition
    → (find_data_domain_id context item.id == invalid_domain_id) ≡ false
    → definition.store ≡ identity_store
    → definition.store_value_type ≡ item.value.type
    → find_data s.domain_store (find_data_domain_id context item.id) item.id ≡ none
    → IsSound s.domain_store
    → item.value.type ≡ k_binary
    → item.value.value ≡ bytes p
    → is_own (find_data_domain_id context item.id) item.id p ≡ false
    → read_bytes (memory_of caller s.domain_store) p item.value.size ≡ some x
    → (t : StoreState) × (process caller insert context s item ≡ some t)
      × (find_data t.domain_store (find_data_domain_id context item.id) item.id
          ≡ some (record item {
            value = record {
              type = item.value.type;
              value = bytes (buffer (find_data_domain_id context item.id) item.id);
              size = length x;
            };
          }))
      × (memory_of caller t.domain_store (buffer (find_data_domain_id context item.id) item.id) ≡ x)
process-first_binary caller insert context s item definition p x known valid keeps kept_as absent
      sound binary at_p other readable =
    let domain = find_data_domain_id context item.id in
    let memory = memory_of caller s.domain_store in
    let (r, stored, found, copied) =
      store_in-binary caller domain item s.domain_store p x sound binary at_p other readable in
    (
      record s { domain_store = r; capability_queue = (push insert s.capability_queue item.id).0 },
      process-valid caller insert context s item definition known valid
          ∙ process_known-binary caller insert definition domain s item keeps kept_as
          ∙ process_value-same memory insert definition domain s item item.value true (
              is_changed-first memory definition (binary_info s.domain_store domain item.id) _
                item.value absent)
          ∙ store_and_announce-stored memory insert domain s item r stored,
      found,
      copied,
    )
