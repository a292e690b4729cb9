-- ===== src/Storage/Registry.antt =====
-- All storages (core/storage/include/PartitionStorageRegistry.hpp), and the memory behind their
-- pointers.
use printer_fw.Base.{false}
use printer_fw.Base.{
  ℕ, ◌≡◌, ◌≢◌, refl, ap, ◌∙◌, Option, none, some, List, [], length, arith, inl, inr, Option-cases,
  ℕ_discrete, subst,
}
use printer_fw.Base.Maps
use printer_fw.Value.{k_binary, BytesPointer, buffer, Memory, bytes, RimDataItem, read_bytes}
use printer_fw.Storage.{is_own}
use printer_fw.Storage.{
  PartitionStorage, BinaryEntry, Registry, store, find_item, get_or_create, store_in, find_data,
  memory_of, stored_binary,
}
use printer_fw.Storage.Consistency.{
  IsConsistent, empty_storage-IsConsistent, store-IsConsistent, store-address, store-with_binary,
  store-with_plain, with_binary, with_plain, entry_of,
}

abbrev pub SlotIsSound : ℕ → Option PartitionStorage → Type 0
SlotIsSound id none = Unit
SlotIsSound id (some s) = (s.address ≡ id) × IsConsistent s

abbrev pub IsSound : Registry → Type 0
IsSound r = (id : ℕ) → SlotIsSound id (Maps.find id r)

pub empty-IsSound : IsSound []
unfolding Maps.find
empty-IsSound id = tt

-- The storage that `get_or_create` hands out is sound, and it is what the registry then finds.
pub get_or_create-IsSound :
    (id : ℕ) (r : Registry)
    → IsSound r
    → SlotIsSound id (some (get_or_create id r).0)
      × (Maps.find id (get_or_create id r).1 ≡ some (get_or_create id r).0)
      × ((j : ℕ) → id ≢ j → Maps.find j (get_or_create id r).1 ≡ Maps.find j r)
unfolding get_or_create
get_or_create-IsSound id r h = elim (Option-cases (Maps.find id r)) [
  | inl e ↦
      rw (e, get_or_create)
        (
          (refl, empty_storage-IsConsistent id),
          Maps.find-put_self id _ r,
          λ j ne. Maps.find-put_ne id j _ r ne,
        )
  | inr (s, e) ↦ rw (e, get_or_create) (subst (SlotIsSound id) e (h id), e, λ j ne. refl)
]

pub store_in_inv :
    (memory : Memory) (id : ℕ) (item : RimDataItem) (r r' : Registry)
    → store_in memory id item r ≡ some r'
    → (t : PartitionStorage) × (store memory (get_or_create id r).0 item ≡ some t)
      × (r' ≡ Maps.put id t (get_or_create id r).1)
unfolding store_in
store_in_inv memory id item r r' h =
    elim (Option-cases (store memory (get_or_create id r).0 item)) [
      | inl e ↦ cc (rw (e, store_in) at h)
      | inr (t, e) ↦ (t, e, ground arith)
    ]

-- A store that is defined keeps the registry sound (every storage is consistent and at its domain's
-- address), and leaves the other domains alone.
pub store_in-IsSound :
    (memory : Memory) (id : ℕ) (item : RimDataItem) (r r' : Registry)
    → store_in memory id item r ≡ some r'
    → IsSound r
    → IsSound r' × ((j : ℕ) → id ≢ j → Maps.find j r' ≡ Maps.find j r)
store_in-IsSound memory id item r r' done h =
    let (t, stored, e) = store_in_inv memory id item r r' done in
    let (sound, at_id, others) = get_or_create-IsSound id r h in
    let address = store-address memory _ t item stored ∙ sound.0 in
    let consistent = store-IsConsistent memory _ t item stored sound.1 in
    let elsewhere = λ (j : ℕ) (ne : id ≢ j).
      ap (Maps.find j) e ∙ Maps.find-put_ne id j t (get_or_create id r).1 ne ∙ others j ne in
    (λ j. slot t address consistent e elsewhere j (ℕ_discrete id j), elsewhere)
  where
    slot :
        (t : PartitionStorage)
        → t.address ≡ id
        → IsConsistent t
        → r' ≡ Maps.put id t (get_or_create id r).1
        → ((j : ℕ) → id ≢ j → Maps.find j r' ≡ Maps.find j r)
        → (j : ℕ) → Dec (id ≡ j)
        → SlotIsSound j (Maps.find j r')
    slot t address consistent e elsewhere j (yes same) =
        rw (← same, e, Maps.find-put_self id t _) (address, consistent)
    slot t address consistent e elsewhere j (no ne) = rw (elsewhere j ne) (h j)

pub find_data-found :
    (r : Registry) (domain id : ℕ) (s : PartitionStorage)
    → Maps.find domain r ≡ some s
    → find_data r domain id ≡ find_item s id
unfolding find_data
find_data-found r domain id s e = rw (e, find_data)

memory_of-buffer :
    (caller : ℕ → List ℕ) (r : Registry) (domain id : ℕ) (s : PartitionStorage) (e : BinaryEntry)
    → Maps.find domain r ≡ some s
    → Maps.find id s.binaries ≡ some e
    → memory_of caller r (buffer domain id) ≡ e.contents
unfolding memory_of
memory_of-buffer caller r domain id s e found kept = ground arith

store_in-stored :
    (memory : Memory) (id : ℕ) (item : RimDataItem) (r : Registry) (t : PartitionStorage)
    → store memory (get_or_create id r).0 item ≡ some t
    → store_in memory id item r ≡ some (Maps.put id t (get_or_create id r).1)
unfolding store_in
store_in-stored memory id item r t e = rw (e, store_in)

-- A store of `item` into the domain `id` is defined; the item is then found with a pointer into the
-- domain's storage, and the pointer leads to `x`.
abbrev pub StoresBytes : (ℕ → List ℕ) → ℕ → RimDataItem → Registry → List ℕ → Type 0
StoresBytes caller id item r x =
    (r' : Registry) × (store_in (memory_of caller r) id item r ≡ some r')
    × (find_data r' id item.id
        ≡ some (record item {
          value = record {
            type = item.value.type;
            value = bytes (buffer id item.id);
            size = length x;
          };
        }))
    × (memory_of caller r' (buffer id item.id) ≡ x)

-- In a sound registry, a binary item whose bytes can be read, and whose pointer is not to the
-- buffer that the item itself has in the domain's storage, is stored, and is then found with a
-- pointer that leads to a copy of those bytes, with their number.
pub store_in-binary :
    (caller : ℕ → List ℕ) (id : ℕ) (item : RimDataItem) (r : Registry) (p : BytesPointer)
    (x : List ℕ)
    → IsSound r
    → item.value.type ≡ k_binary
    → item.value.value ≡ bytes p
    → is_own id item.id p ≡ false
    → read_bytes (memory_of caller r) p item.value.size ≡ some x
    → StoresBytes caller id item r x
store_in-binary caller id item r p x h b v other read =
    let s = (get_or_create id r).0 in
    let t = with_binary s item x in
    let r' = Maps.put id t (get_or_create id r).1 in
    let there = Maps.find-put_self id t (get_or_create id r).1 in
    (
      r',
      store_in-stored _ id item r t (
          store-with_binary _ s item p x b v
            (ap (λ a. is_own a item.id p) (get_or_create-IsSound id r h).0.0 ∙ other) read),
      find_data-found r' id item.id t there
          ∙ Maps.find-put_self item.id _ s.items
          ∙ ap (λ a. some (stored_binary a item (entry_of x))) (get_or_create-IsSound id r h).0.0,
      memory_of-buffer caller r' id item.id t (entry_of x) there
          (Maps.find-put_self item.id (entry_of x) s.binaries),
    )

-- An item of another type than binary is stored, and is then found as it was given.
pub store_in-plain :
    (memory : Memory) (id : ℕ) (item : RimDataItem) (r : Registry)
    → item.value.type ≢ k_binary
    → (r' : Registry) × (store_in memory id item r ≡ some r')
      × (find_data r' id item.id ≡ some item)
store_in-plain memory id item r n =
    let s = (get_or_create id r).0 in
    let t = with_plain s item in
    let r' = Maps.put id t (get_or_create id r).1 in
    (
      r',
      store_in-stored memory id item r t (store-with_plain memory s item n),
      find_data-found r' id item.id t (Maps.find-put_self id t (get_or_create id r).1)
          ∙ Maps.find-put_self item.id item s.items,
    )
