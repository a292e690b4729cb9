-- ===== src/Store/Settle.antt =====
-- The life of one value under DataStoreWorker::Process (core/store/src/DataStoreWorker.cpp), with
-- `IdentityStore` and `IdentityDiff` of products/common.
use printer_fw.Base.{
  ℕ, ◌≡◌, ◌≢◌, refl, ap, ◌∙◌, sym, Bool, true, false, Option, none, some, List, ◌==◌, if◌then◌else◌,
  inl, inr, if_pos, if_neg, ◌⊎◌, subst, some_inv,
}
use printer_fw.Queue.{push}
use printer_fw.Value.{
  ValueType, k_binary, ValueType-discrete, Memory, RimValue, RimDataItem, identity_store,
}
use printer_fw.Value.Reads.{Matches, IsWellTyped}
use printer_fw.Value.Diff.{identity_diff, IsWord, SameContent, identity_diff_cases}
use printer_fw.Storage.{Registry, BinaryInfo, store_in, memory_of, find_data}
use printer_fw.Storage.Registry.{store_in-plain}
use printer_fw.Product.{DataItemDefinition, DiffCallback}
use printer_fw.Product.Domains.{invalid_domain_id}
use printer_fw.Product.Context.{ProductContext, find_data_item, find_data_domain_id}
use printer_fw.Store.{
  StoreState, process, process_known, process_value, store_and_announce, is_changed, binary_info,
  diff_values,
}
use printer_fw.Store.Process.{process-valid}

-- A data item whose values are kept and compared as they are.
pub record IsPlain (definition : DataItemDefinition) (type : ValueType) : Type 0 where
  pub word : IsWord type
  pub stored_as : definition.store_value_type ≡ type
  pub keeps : definition.store ≡ identity_store
  pub compares : definition.diff ≡ some identity_diff

-- The stored item, if any, is well typed.
abbrev pub CurrentIsWellTyped : Option RimDataItem → Type 0
CurrentIsWellTyped none = Unit
CurrentIsWellTyped (some current) = IsWellTyped current.value

abbrev pub Holds : RimValue → Option RimDataItem → Type 0
Holds v none = ⊥
Holds v (some current) = SameContent current.value v

pub Holds-typed :
    (v : RimValue) (o : Option RimDataItem) → IsWellTyped v → Holds v o → CurrentIsWellTyped o
Holds-typed v none w h = tt
Holds-typed v (some current) w h =
    subst (λ x. Matches current.value.type x) (sym h.1) (subst (λ t. Matches t v.value) (sym h.0) w)

diff_values-plain :
    (memory : Memory) (diff : DiffCallback) (info : Option BinaryInfo) (current new : RimValue)
    → new.type ≢ k_binary
    → diff_values memory diff info current new ≡ diff memory current new
unfolding diff_values
diff_values-plain memory diff info current new n = elim (ValueType-discrete current.type k_binary) [
  | yes e ↦ rw (if_pos _ e, if_neg _ n) refl
  | no m ↦ rw (if_neg _ m) refl
]

not_binary : (t : ValueType) → IsWord t → t ≢ k_binary
not_binary t w e = subst IsWord e w

is_changed_cases :
    (memory : Memory) (definition : DataItemDefinition) (info : Option BinaryInfo)
    (o : Option RimDataItem) (new : RimValue)
    → IsPlain definition new.type
    → IsWellTyped new
    → CurrentIsWellTyped o
    → ((is_changed memory definition info o new ≡ some false) × Holds new o)
      ⊎ ((is_changed memory definition info o new ≡ some true) × (¬ Holds new o))
unfolding is_changed
is_changed_cases memory definition info none new p w c = inr (refl, λ h. h)
is_changed_cases memory definition info (some current) new p w c =
    rw
      (
        p.compares,
        diff_values-plain memory identity_diff info current.value new (not_binary _ p.word),
      )
      (identity_diff_cases memory current.value new p.word c w)

pub process_value-same :
    (memory : Memory) (insert : List ℕ → ℕ → List ℕ) (definition : DataItemDefinition) (domain : ℕ)
    (s : StoreState) (item : RimDataItem) (new : RimValue) (changed : Bool)
    → is_changed memory definition
        (binary_info s.domain_store domain item.id)
        (find_data s.domain_store domain item.id)
        new
      ≡ some changed
    → process_value memory insert definition domain s item new ≡ (
        if changed
        then store_and_announce memory insert domain s (record item { value = new })
        else some s)
unfolding process_value
process_value-same memory insert definition domain s item new changed e = rw (e, process_value)

process_known-value :
    (caller : ℕ → List ℕ) (insert : List ℕ → ℕ → List ℕ) (definition : DataItemDefinition)
    (domain : ℕ) (s : StoreState) (item : RimDataItem)
    → IsPlain definition item.value.type
    → process_known caller insert definition domain s item
      ≡ process_value (memory_of caller s.domain_store) insert definition domain s item item.value
unfolding process_known identity_store
process_known-value caller insert definition domain s item p = rw (p.keeps, p.stored_as) refl

pub store_and_announce-stored :
    (memory : Memory) (insert : List ℕ → ℕ → List ℕ) (domain : ℕ) (s : StoreState)
    (item : RimDataItem) (r : Registry)
    → store_in memory domain item s.domain_store ≡ some r
    → store_and_announce memory insert domain s item
      ≡ some (record s {
        domain_store = r;
        capability_queue = (push insert s.capability_queue item.id).0;
      })
unfolding store_and_announce
store_and_announce-stored memory insert domain s item r e = rw (e, store_and_announce)

-- The item that is stored for the id of `item`.
abbrev pub stored_item : ProductContext → RimDataItem → StoreState → Option RimDataItem
stored_item context item s = find_data s.domain_store (find_data_domain_id context item.id) item.id

-- A pass over `item` from `s` is defined. Either the value was there already, and nothing changes;
-- or it was not, and then the item is found afterwards and its id has been announced.
abbrev pub Settles :
    (ℕ → List ℕ) → (List ℕ → ℕ → List ℕ) → ProductContext → RimDataItem → StoreState → Type 0
Settles caller insert context item s =
    (t : StoreState) × (process caller insert context s item ≡ some t)
    × (Holds item.value (stored_item context item t))
    × (((t ≡ s) × Holds item.value (stored_item context item s))
        ⊎ ((¬ Holds item.value (stored_item context item s))
            × (stored_item context item t ≡ some item)
            × (t.capability_queue ≡ (push insert s.capability_queue item.id).0)))

module _ (caller : ℕ → List ℕ) (insert : List ℕ → ℕ → List ℕ) (context : ProductContext)
    (definition : DataItemDefinition) (item : RimDataItem)
    (known : find_data_item context item.id ≡ some definition)
    (valid : (find_data_domain_id context item.id == invalid_domain_id) ≡ false)
    (plain : IsPlain definition item.value.type) (typed : IsWellTyped item.value) where
  -- A pass of `Process` over an item that the product knows, whose domain id is valid, which is
  -- kept and compared as it is, of a type other than double, binary and compound (`IsPlain`), and
  -- whose value and stored value are well typed, is defined. Afterwards the stored value is the
  -- item's. Either it was before, and nothing changes; or it was not, and then the item is what is
  -- found, and its id has been pushed to the capability queue.
  pub process-Settles :
      (s : StoreState)
      → CurrentIsWellTyped (stored_item context item s)
      → Settles caller insert context item s
  process-Settles s current =
      let domain = find_data_domain_id context item.id in
      let memory = memory_of caller s.domain_store in
      let start =
        process-valid caller insert context s item definition known valid
        ∙ process_known-value caller insert definition domain s item plain in
      elim (is_changed_cases memory definition (binary_info s.domain_store domain item.id)
        (stored_item context item s) item.value plain typed current) [
          | inl (e, holds) ↦ (
            s,
            start ∙ process_value-same memory insert definition domain s item item.value false e,
            holds,
            inl (refl, holds),
          )
          | inr (e, differs) ↦
              let (r, stored, found) =
                store_in-plain memory domain item s.domain_store (not_binary _ plain.word) in
              (
                record s {
                  domain_store = r;
                  capability_queue = (push insert s.capability_queue item.id).0;
                },
                start
                    ∙ process_value-same memory insert definition domain s item item.value true e
                    ∙ store_and_announce-stored memory insert domain s item r stored,
                subst (Holds item.value) (sym found) (refl, refl),
                inr (differs, found, refl),
              )
        ]

  settled :
      (t : StoreState)
      → Holds item.value (stored_item context item t)
      → Settles caller insert context item t
      → process caller insert context t item ≡ some t
  settled t holds (u, e, _, inl (same, _)) = e ∙ ap some same
  settled t holds (u, e, _, inr (differs, _, _)) = absurd (differs holds)

  -- After a pass of `Process` over an item that the product knows, whose domain id is valid, which
  -- is kept and compared as it is, of a type other than double, binary and compound (`IsPlain`),
  -- and whose value and stored value are well typed, a second pass over the same item changes
  -- nothing and announces nothing.
  pub process-process :
      (s t : StoreState)
      → CurrentIsWellTyped (stored_item context item s)
      → process caller insert context s item ≡ some t
      → process caller insert context t item ≡ some t
  process-process s t current done =
      let (t', e, holds, _) = process-Settles s current in
      let same = some_inv (sym done ∙ e) in
      let holds' = subst (λ u. Holds item.value (stored_item context item u)) same holds in
      settled t holds'
        (process-Settles t (Holds-typed item.value (stored_item context item t) typed holds'))
