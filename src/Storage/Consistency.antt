-- ===== src/Storage/Consistency.antt =====
-- One storage (core/storage/include/PartitionStorage.hpp): its two maps, and what a store does.
use printer_fw.Base.{some_inv, false, Bool-cases}
use printer_fw.Base.{
  ℕ, ◌≡◌, ◌≢◌, refl, ap, if_pos, if_neg, Option, none, some, List, length, arith, ◌⊎◌, inl, inr,
  Option-cases, ==_refl, ℕ_discrete, ◌∙◌,
}
use printer_fw.Base.Maps
use printer_fw.Value.{
  k_binary, ValueType-discrete, BytesPointer, buffer, Memory, RimValueStorage, bytes, RimDataItem,
  calculate_binary_hash, read_bytes,
}
use printer_fw.Value.Reads.{member_bytes}
use printer_fw.Storage.{
  PartitionStorage, BinaryEntry, store, store_binary, is_own, stored_binary, find_item,
  get_binary_info, empty_storage,
}

-- What the item and the buffer of one id owe each other.
abbrev pub Agrees : ℕ → ℕ → Option RimDataItem → Option BinaryEntry → Type 0
Agrees address id none none = Unit
Agrees address id none (some e) = ⊥
Agrees address id (some item) none = (item.id ≡ id) × (item.value.type ≢ k_binary)
Agrees address id (some item) (some e) =
    (item.id ≡ id)
    × (item.value.type ≡ k_binary)
    × (item.value.value ≡ bytes (buffer address id))
    × (item.value.size ≡ length e.contents)
    × (e.hash ≡ calculate_binary_hash e.contents)

-- A binary item points to its own buffer, whose size and hash are up to date; no other item has
-- a buffer.
abbrev pub IsConsistent : PartitionStorage → Type 0
IsConsistent s = (id : ℕ) → Agrees s.address id (Maps.find id s.items) (Maps.find id s.binaries)

pub empty_storage-IsConsistent : (address : ℕ) → IsConsistent (empty_storage address)
unfolding Maps.find
empty_storage-IsConsistent address id = tt

member_bytes_inv : (v : RimValueStorage) {p : BytesPointer} → member_bytes v ≡ some p → v ≡ bytes p
member_bytes_inv (bytes q) h = ground arith
member_bytes_inv _ h = cc

abbrev pub entry_of : List ℕ → BinaryEntry
entry_of x = record { contents = x; hash = calculate_binary_hash x }

-- The storage after a store of an item with the bytes `x`, and of an item of another type.
abbrev pub with_binary : PartitionStorage → RimDataItem → List ℕ → PartitionStorage
with_binary s item x = record s {
  binaries = Maps.put item.id (entry_of x) s.binaries;
  items = Maps.put item.id (stored_binary s.address item (entry_of x)) s.items;
}

abbrev pub with_plain : PartitionStorage → RimDataItem → PartitionStorage
with_plain s item = record s {
  binaries = Maps.erase item.id s.binaries;
  items = Maps.put item.id item s.items;
}

store_binary_inv :
    (memory : Memory) (s t : PartitionStorage) (item : RimDataItem) (o : Option BytesPointer)
    → store_binary memory s item o ≡ some t
    → (p : BytesPointer) × (x : List ℕ) × (o ≡ some p)
      × (read_bytes memory p item.value.size ≡ some x)
      × (t ≡ with_binary s item x)
unfolding store_binary
store_binary_inv memory s t item none h = cc
store_binary_inv memory s t item (some p) h = elim (Bool-cases (is_own s.address item.id p)) [
  | inl own ↦ cc (rw (own, store_binary) at h)
  | inr other ↦ elim (Option-cases (read_bytes memory p item.value.size)) [
    | inl e ↦ cc (rw (other, store_binary, e) at h)
    | inr (x, e) ↦ (p, x, refl, e, some_inv (rw (other, store_binary, e) at h))
  ]
]

module _ (memory : Memory) (s t : PartitionStorage) (item : RimDataItem) where
  -- Both ways to store, told apart by the type of the item.
  pub store_inv :
      store memory s item ≡ some t
      → ((item.value.type ≢ k_binary) × (t ≡ with_plain s item))
        ⊎ ((p : BytesPointer) × (x : List ℕ) × (item.value.type ≡ k_binary)
            × (item.value.value ≡ bytes p)
            × (read_bytes memory p item.value.size ≡ some x)
            × (t ≡ with_binary s item x))
  unfolding store
  store_inv done = elim (ValueType-discrete item.value.type k_binary) [
    | yes e ↦
        let (p, x, q, read, result) =
          store_binary_inv memory s t item (member_bytes item.value.value)
            (rw (if_pos _ e) at done) in
        inr (p, x, e, member_bytes_inv item.value.value q, read, result)
    | no n ↦ inl (n, some_inv (rw (if_neg _ n) at done))
  ]

store_binary-read :
    (memory : Memory) (s : PartitionStorage) (item : RimDataItem) (p : BytesPointer) (x : List ℕ)
    → is_own s.address item.id p ≡ false
    → read_bytes memory p item.value.size ≡ some x
    → store_binary memory s item (some p) ≡ some (with_binary s item x)
unfolding store_binary
store_binary-read memory s item p x other read = rw (other, store_binary, read) refl

-- A store of bytes that can be read and are not its own, and of an item of another type, is defined.
pub store-with_binary :
    (memory : Memory) (s : PartitionStorage) (item : RimDataItem) (p : BytesPointer) (x : List ℕ)
    → item.value.type ≡ k_binary
    → item.value.value ≡ bytes p
    → is_own s.address item.id p ≡ false
    → read_bytes memory p item.value.size ≡ some x
    → store memory s item ≡ some (with_binary s item x)
unfolding store
store-with_binary memory s item p x b v other read = rw (if_pos _ b) (
    ap (λ o. store_binary memory s item (member_bytes o)) v
    ∙ store_binary-read memory s item p x other read)

pub store-with_plain :
    (memory : Memory) (s : PartitionStorage) (item : RimDataItem)
    → item.value.type ≢ k_binary
    → store memory s item ≡ some (with_plain s item)
unfolding store
store-with_plain memory s item n = rw (if_neg _ n)

Agrees-with_plain :
    (s : PartitionStorage) (item : RimDataItem)
    → item.value.type ≢ k_binary
    → IsConsistent s
    → IsConsistent (with_plain s item)
Agrees-with_plain s item n c id = elim (ℕ_discrete item.id id) [
  | yes e ↦ rw (← e, Maps.find-put_self, Maps.find-erase, ==_refl item.id) (refl, n)
  | no ne ↦
      rw (Maps.find-put_ne item.id id item s.items ne, Maps.find-erase_ne item.id id s.binaries ne)
        (c id)
]

Agrees-with_binary :
    (s : PartitionStorage) (item : RimDataItem) (x : List ℕ)
    → item.value.type ≡ k_binary
    → IsConsistent s
    → IsConsistent (with_binary s item x)
Agrees-with_binary s item x b c id = elim (ℕ_discrete item.id id) [
  | yes e ↦
      rw
        (
          ← e,
          Maps.find-put_self item.id (stored_binary s.address item (entry_of x)) s.items,
          Maps.find-put_self item.id (entry_of x) s.binaries,
        )
        (refl, b, refl, refl, refl)
  | no ne ↦
      rw (Maps.find-put_ne item.id id _ s.items ne, Maps.find-put_ne item.id id _ s.binaries ne)
        (c id)
]

-- A store that is defined keeps a consistent storage consistent: binary items point to their own
-- buffers, whose sizes and hashes are up to date, and no other item has a buffer.
pub store-IsConsistent :
    (memory : Memory) (s t : PartitionStorage) (item : RimDataItem)
    → store memory s item ≡ some t
    → IsConsistent s
    → IsConsistent t
store-IsConsistent memory s t item done c = elim (store_inv memory s t item done) [
  | inl (n, e) ↦ rw e (Agrees-with_plain s item n c)
  | inr (p, x, b, v, read, e) ↦ rw e (Agrees-with_binary s item x b c)
]

pub get_binary_info-found :
    (s : PartitionStorage) (id : ℕ) (o : Option BinaryEntry)
    → Maps.find id s.binaries ≡ o
    → get_binary_info s id ≡ (elim o [
      | none ↦ none
      | some e ↦
          some (record { pointer = buffer s.address id; size = length e.contents; hash = e.hash })
    ])
unfolding get_binary_info
get_binary_info-found s id o e = rw (e, get_binary_info)

-- What `Find` and `GetBinaryInfo` of the storage `t` answer for an item just stored into `s`: an
-- item of another type than binary as it is and without a buffer; a binary item with a pointer to
-- its buffer, and the number and the hash of the bytes that its own pointer led to.
abbrev pub ReadsBack : Memory → PartitionStorage → PartitionStorage → RimDataItem → Type 0
ReadsBack memory s t item =
    ((item.value.type ≢ k_binary)
      × (find_item t item.id ≡ some item)
      × (get_binary_info t item.id ≡ none))
    ⊎ ((p : BytesPointer) × (x : List ℕ) × (item.value.value ≡ bytes p)
        × (read_bytes memory p item.value.size ≡ some x)
        × (find_item t item.id ≡ some (stored_binary s.address item (entry_of x)))
        × (get_binary_info t item.id
            ≡ some (record {
              pointer = buffer s.address item.id;
              size = length x;
              hash = calculate_binary_hash x;
            })))

-- After a store that is defined, an item of another type than binary is found as it is and without
-- a buffer, and a binary item with a pointer to its buffer and the number and the hash of the bytes
-- that its own pointer led to.
find_item-store :
    (memory : Memory) (s t : PartitionStorage) (item : RimDataItem)
    → store memory s item ≡ some t
    → ReadsBack memory s t item
find_item-store memory s t item done = elim (store_inv memory s t item done) [
  | inl (n, e) ↦ inl (
    n,
    rw (e, Maps.find-put_self) refl,
    rw e (
        get_binary_info-found (with_plain s item) item.id none
          (rw (Maps.find-erase, ==_refl item.id) refl)),
  )
  | inr (p, x, b, v, read, e) ↦ inr (
    p,
    x,
    v,
    read,
    rw (e, Maps.find-put_self) refl,
    rw e (
        get_binary_info-found (with_binary s item x) item.id (some (entry_of x))
          (Maps.find-put_self item.id (entry_of x) s.binaries)),
  )
]

-- A store that is defined leaves the items and the buffers of all other ids as they are.
pub find_item-store_ne :
    (memory : Memory) (s t : PartitionStorage) (item : RimDataItem) (id : ℕ)
    → store memory s item ≡ some t
    → item.id ≢ id
    → (find_item t id ≡ find_item s id) × (Maps.find id t.binaries ≡ Maps.find id s.binaries)
find_item-store_ne memory s t item id done ne = elim (store_inv memory s t item done) [
  | inl (n, e) ↦
      rw e
        (Maps.find-put_ne item.id id item s.items ne, Maps.find-erase_ne item.id id s.binaries ne)
  | inr (p, x, b, v, read, e) ↦
      rw e (Maps.find-put_ne item.id id _ s.items ne, Maps.find-put_ne item.id id _ s.binaries ne)
]

pub store-address :
    (memory : Memory) (s t : PartitionStorage) (item : RimDataItem)
    → store memory s item ≡ some t
    → t.address ≡ s.address
store-address memory s t item done = elim (store_inv memory s t item done) [
  | inl (n, e) ↦ ap (λ u. u.address) e
  | inr (p, x, b, v, read, e) ↦ ap (λ u. u.address) e
]
