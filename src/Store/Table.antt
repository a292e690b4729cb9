-- ===== src/Store/Table.antt =====
-- DataStoreWorker::Process (core/store/src/DataStoreWorker.cpp) against a table of values: what is
-- promised to a client is one cell for each datum, and a write changes its own cell.
use printer_fw.Base.{
  ℕ, ◌≡◌, ◌≢◌, refl, ap, ◌∙◌, sym, subst, true, false, Option, none, some, List, [], ◌∷◌, ◌==◌,
  if◌then◌else◌, inl, inr, Option-cases, ℕ_discrete, All, arith, fun_ext, Bool-cases, ==_iff, ◌⊎◌,
}
use printer_fw.Base.Maps
use printer_fw.Value.{ValueType, Memory, RimValue, RimValueStorage, RimDataItem}
use printer_fw.Value.Reads.{IsWellTyped}
use printer_fw.Storage.{Registry, find_item, find_data, get_or_create, store_in}
use printer_fw.Storage.Registry.{IsSound, store_in-IsSound, store_in_inv, find_data-found}
use printer_fw.Storage.Consistency.{find_item-store_ne}
use printer_fw.Product.{DataItemDefinition}
use printer_fw.Product.Domains.{invalid_domain_id}
use printer_fw.Product.Context.{ProductContext, find_data_item, find_data_domain_id}
use printer_fw.Store.{StoreState, process, round, worker_loop}
use printer_fw.Base.{Bool, length}
use printer_fw.Queue.{wait_and_pop, woken}
use printer_fw.Store.Process.{process_inv, process-IsSound, process-queue}
use printer_fw.Store.Settle.{
  IsPlain, CurrentIsWellTyped, Holds, Holds-typed, stored_item, process-Settles,
}

-- The type and the content of a value.
abbrev pub Content : Type 0
Content = ValueType × RimValueStorage

abbrev pub content : RimValue → Content
content v = (v.type, v.value)

abbrev pub Table : Type 0
Table = ℕ → Option Content

abbrev pub write : ℕ → RimValue → Table → Table
write id v table j = if id == j then some (content v) else table j

abbrev pub write_all : List RimDataItem → Table → Table
write_all [] table = table
write_all (item ∷ items) table = write_all items (write item.id item.value table)

abbrev pub content_of : Option RimDataItem → Option Content
content_of none = none
content_of (some item) = some (content item.value)

-- The table that the storages stand for.
abbrev pub table_of : ProductContext → Registry → Table
table_of context r id = content_of (find_data r (find_data_domain_id context id) id)

pub find_data-get_or_create :
    (r : Registry) (domain j : ℕ) → find_item (get_or_create domain r).0 j ≡ find_data r domain j
unfolding get_or_create find_data Maps.find
find_data-get_or_create r domain j = elim (Option-cases (Maps.find domain r)) [
  | inl e ↦ rw (e, get_or_create, find_data) refl
  | inr (s, e) ↦ rw (e, get_or_create, find_data) refl
]

-- A store leaves the other items of its domain alone.
pub store_in-others :
    (memory : Memory) (domain j : ℕ) (item : RimDataItem) (r r' : Registry)
    → store_in memory domain item r ≡ some r'
    → item.id ≢ j
    → find_data r' domain j ≡ find_data r domain j
store_in-others memory domain j item r r' done ne =
    let (t, stored, e) = store_in_inv memory domain item r r' done in
    ap (λ x. find_data x domain j) e
    ∙ find_data-found (Maps.put domain t (get_or_create domain r).1) domain j t
        (Maps.find-put_self domain t (get_or_create domain r).1)
    ∙ (find_item-store_ne memory (get_or_create domain r).0 t item j stored ne).0
    ∙ find_data-get_or_create r domain j

pub find_data-same :
    (r r' : Registry) (domain j : ℕ)
    → Maps.find domain r' ≡ Maps.find domain r
    → find_data r' domain j ≡ find_data r domain j
unfolding find_data
find_data-same r r' domain j e = rw (e, find_data) refl

-- A datum of a known, plain item with a value of its type.
pub record IsWritable (context : ProductContext) (item : RimDataItem) : Type 0 where
  pub definition : DataItemDefinition
  pub known : find_data_item context item.id ≡ some definition
  pub valid : (find_data_domain_id context item.id == invalid_domain_id) ≡ false
  pub plain : IsPlain definition item.value.type
  pub typed : IsWellTyped item.value

abbrev pub AllTyped : ProductContext → Registry → Type 0
AllTyped context r = (j : ℕ) → CurrentIsWellTyped (find_data r (find_data_domain_id context j) j)

content_of-Holds :
    (v : RimValue) (o : Option RimDataItem) → Holds v o → content_of o ≡ some (content v)
content_of-Holds v none h = absurd h
content_of-Holds v (some item) (type, value) = ground (arith, type, value)

module _ (caller : ℕ → List ℕ) (insert : List ℕ → ℕ → List ℕ) (context : ProductContext) where
  process-others :
      (s t : StoreState) (item : RimDataItem) (j : ℕ)
      → process caller insert context s item ≡ some t
      → IsSound s.domain_store
      → item.id ≢ j
      → find_data t.domain_store (find_data_domain_id context j) j
        ≡ find_data s.domain_store (find_data_domain_id context j) j
  process-others s t item j done sound ne = elim (process_inv caller insert context s t item done) [
    | inl same ↦ ap (λ u. find_data u.domain_store (find_data_domain_id context j) j) same
    | inr (new, r, stored, e) ↦
        ap (λ u. find_data u.domain_store (find_data_domain_id context j) j) e
        ∙ elim (ℕ_discrete (find_data_domain_id context item.id) (find_data_domain_id context j)) [
          | yes same ↦
              subst (λ d. find_data r d j ≡ find_data s.domain_store d j) same
                (store_in-others _ (find_data_domain_id context item.id) j
                  (record { id = item.id; value = new }) s.domain_store r stored ne)
          | no other ↦ find_data-same s.domain_store r (find_data_domain_id context j) j (
              (store_in-IsSound _ _ _ s.domain_store r stored sound).1
                (find_data_domain_id context j) other)
        ]
  ]

  -- One pass writes one cell.
  process-write :
      (s : StoreState) (item : RimDataItem)
      → IsWritable context item
      → IsSound s.domain_store
      → AllTyped context s.domain_store
      → (t : StoreState) × (process caller insert context s item ≡ some t)
        × IsSound t.domain_store
        × AllTyped context t.domain_store
        × (table_of context t.domain_store
            ≡ write item.id item.value (table_of context s.domain_store))
  process-write s item w sound typed =
      let (t, done, holds, _) =
        process-Settles caller insert context w.definition item w.known w.valid w.plain w.typed s
          (typed item.id) in
      let others = λ (j : ℕ) (ne : item.id ≢ j). process-others s t item j done sound ne in
      (
        t,
        done,
        (process-IsSound caller insert context s t item done sound).0,
        (λ j. elim (ℕ_discrete item.id j) [
          | yes e ↦
              subst
                (λ k.
                  CurrentIsWellTyped (find_data t.domain_store (find_data_domain_id context k) k))
                e (Holds-typed item.value (stored_item context item t) w.typed holds)
          | no ne ↦ subst CurrentIsWellTyped (sym (others j ne)) (typed j)
        ]),
        fun_ext (λ j. cell s t item j holds others (Bool-cases (item.id == j))),
      )
    where
      cell :
          (s t : StoreState) (item : RimDataItem) (j : ℕ)
          → Holds item.value (stored_item context item t)
          → ((k : ℕ)
              → item.id ≢ k
              → find_data t.domain_store (find_data_domain_id context k) k
                ≡ find_data s.domain_store (find_data_domain_id context k) k)
          → ((item.id == j) ≡ true) ⊎ ((item.id == j) ≡ false)
          → table_of context t.domain_store j
            ≡ write item.id item.value (table_of context s.domain_store) j
      cell s t item j holds others (inl hit) = rw hit (
          subst (λ k. table_of context t.domain_store k ≡ some (content item.value))
            ((==_iff item.id j).0 hit)
            (content_of-Holds item.value (stored_item context item t) holds))
      cell s t item j holds others (inr miss) =
          rw miss (ap content_of (others j (ground (arith, miss))))

  -- The state with this queue.
  abbrev waiting : StoreState → Bool → List RimDataItem → StoreState
  waiting s shutdown events = record s { queue = record { shutdown = shutdown; events = events } }

  wait_and_pop-item :
      (shutdown : Bool) (item : RimDataItem) (items : List RimDataItem)
      → wait_and_pop (record { shutdown = shutdown; events = item ∷ items })
        ≡ woken (record { shutdown = shutdown; events = items }) (some item)
  unfolding wait_and_pop
  wait_and_pop-item true item items = refl
  wait_and_pop-item false item items = refl

  -- From this state the loop empties the queue and writes what waits in it.
  abbrev Writes : StoreState → List RimDataItem → Bool → Type 0
  Writes s items shutdown =
      (t : StoreState) × (worker_loop caller insert context (length items)
          (waiting s shutdown items)
        ≡ some t)
      × (t.queue ≡ record { shutdown = shutdown; events = [] })
      × (table_of context t.domain_store ≡ write_all items (table_of context s.domain_store))

  loop-Writes :
      (shutdown : Bool) (s : StoreState) (items : List RimDataItem)
      → All (IsWritable context) items
      → IsSound s.domain_store
      → AllTyped context s.domain_store
      → Writes s items shutdown
  unfolding worker_loop round
  loop-Writes shutdown s [] w sound typed = (waiting s shutdown [], refl, refl, refl)
  loop-Writes shutdown s (item ∷ items) w sound typed =
      let s' = waiting s shutdown items in
      let (t, done, sound', typed', wrote) = process-write s' item w.0 sound typed in
      let (u, rest, empty, all) = loop-Writes shutdown t items w.1 sound' typed' in
      let there : t ≡ waiting t shutdown items =
        ap (λ q. record t { queue = q }) (process-queue caller insert context s' t item done) in
      (
        u,
        rw (wait_and_pop-item shutdown item items, worker_loop, round, done)
            (ap (worker_loop caller insert context (length items)) there ∙ rest),
        empty,
        all ∙ ap (write_all items) wrote,
      )

  -- Let every item that waits in the queue of the store worker be one that the product knows, with
  -- a valid domain id, kept and compared as it is, and let its value be well typed and of a type
  -- other than double, binary and compound (`IsWritable`); and let the storages be sound and their
  -- data well typed. Then as many rounds of the worker's loop as items wait are defined and empty
  -- the queue; and the table of values by id that the storages stand for, a type and a content in
  -- each cell, is then the one that writing the items in turn makes of the table before.
  pub worker_loop-write_all :
      (s : StoreState)
      → All (IsWritable context) s.queue.events
      → IsSound s.domain_store
      → AllTyped context s.domain_store
      → (t : StoreState) × (worker_loop caller insert context (length s.queue.events) s ≡ some t)
        × (t.queue ≡ record s.queue { events = [] })
        × (table_of context t.domain_store
            ≡ write_all s.queue.events (table_of context s.domain_store))
  worker_loop-write_all s w sound typed =
      loop-Writes s.queue.shutdown s s.queue.events w sound typed
