-- ===== src/Product/Context/Index.antt =====
-- The maps of ProductContext (core/common/src/ProductContext.cpp) against the product's tables.
use printer_fw.Base.{
  ℕ, ◌≡◌, refl, ap, ◌∙◌, sym, Option, none, some, List, [], ◌∷◌, ◌++◌, append_assoc, append-nil,
  ◌==◌, if◌then◌else◌, arith, Option-cases, inl, inr,
}
use printer_fw.Base.Maps
use printer_fw.Product.{ProductDefinition}
use printer_fw.Product.Lookup.{first}
use printer_fw.Product.Lookup
use printer_fw.Product.Domains.{entry_at}
use printer_fw.Product.Context.{
  index_by, depend_on, dependency_map, create, find_data_item, find_capability, find_facade,
  find_route, capabilities_on, facades_on,
}

abbrev or_else : {A : Type 0} → Option A → Option A → Option A
or_else none o = o
or_else (some x) o = some x

or_else-none : {A : Type 0} (o : Option A) → or_else o none ≡ o
or_else-none none = refl
or_else-none (some x) = refl

find_emplaced :
    {A : Type 0} (key : A → ℕ) (id : ℕ) (m : List (ℕ × A)) (x : A) (xs : List A)
    → or_else (Maps.find id (Maps.emplace (key x) x m)) (first (λ y. key y == id) xs)
      ≡ or_else (Maps.find id m) (first (λ y. key y == id) (x ∷ xs))
unfolding first
find_emplaced key id m x xs = elim (Option-cases (Maps.find (key x) m)) [
  | inl e ↦
      ground (arith, e, Maps.find-emplace_new (key x) x m, Maps.find-emplace_ne (key x) id x m)
  | inr (y, e) ↦
      ground (arith, e, Maps.find-emplace_old (key x) x y m, Maps.find-emplace_ne (key x) id x m)
]

find-index_by :
    {A : Type 0} (key : A → ℕ) (id : ℕ) (m : List (ℕ × A)) (xs : List A)
    → Maps.find id (index_by key m xs) ≡ or_else (Maps.find id m) (first (λ x. key x == id) xs)
unfolding index_by first
find-index_by key id m [] = sym (or_else-none (Maps.find id m))
find-index_by key id m (x ∷ xs) =
    find-index_by key id (Maps.emplace (key x) x m) xs ∙ find_emplaced key id m x xs

-- The searches of the context by id find what the linear searches of the product's tables find.
pub find-create :
    (p : ProductDefinition) (id : ℕ)
    → (find_data_item (create p) id ≡ Lookup.find_data_item p id)
      × (find_capability (create p) id ≡ Lookup.find_capability p id)
      × (find_facade (create p) id ≡ Lookup.find_facade p id)
      × (find_route (create p) id ≡ Lookup.find_route p id)
unfolding create Lookup.find_data_item Lookup.find_capability Lookup.find_facade Lookup.find_route
    Maps.find
find-create p id = (
  find-index_by _ id [] p.data_items,
  find-index_by _ id [] p.capabilities,
  find-index_by _ id [] p.facades,
  find-index_by _ id [] p.routes,
)

-- `x`, once for each time that `id` is among `ids`.
unfoldable pub occurrences : {A : Type 0} → ℕ → A → List ℕ → List A
occurrences id x [] = []
occurrences id x (j ∷ ids) = let rest = occurrences id x ids in if j == id then x ∷ rest else rest

-- The entries that require `id`, in the order of the table.
unfoldable pub dependents : {A : Type 0} → (A → List ℕ) → ℕ → List A → List A
unfolding occurrences
dependents required id [] = []
dependents required id (x ∷ xs) = occurrences id x (required x) ++ dependents required id xs

entry_at-put :
    {A : Type 0} (k id : ℕ) (v : List A) (m : List (ℕ × List A))
    → entry_at id (Maps.put k v m) ≡ (if k == id then v else entry_at id m)
unfolding entry_at
entry_at-put k id v m = ground (arith, Maps.find-put k id v m)

entry_at-depend_on :
    {A : Type 0} (id : ℕ) (x : A) (m : List (ℕ × List A)) (ids : List ℕ)
    → entry_at id (depend_on x m ids) ≡ entry_at id m ++ occurrences id x ids
unfolding depend_on occurrences
entry_at-depend_on id x m [] = sym (append-nil _)
entry_at-depend_on id x m (j ∷ ids) = ground (
  arith,
  entry_at-depend_on id x (Maps.put j (entry_at j m ++ x ∷ []) m) ids,
  entry_at-put j id (entry_at j m ++ x ∷ []) m,
  append_assoc (entry_at id m) (x ∷ []) (occurrences id x ids),
)

entry_at-dependency_map :
    {A : Type 0} (required : A → List ℕ) (id : ℕ) (m : List (ℕ × List A)) (xs : List A)
    → entry_at id (dependency_map required m xs) ≡ entry_at id m ++ dependents required id xs
unfolding dependency_map dependents
entry_at-dependency_map required id m [] = sym (append-nil _)
entry_at-dependency_map required id m (x ∷ xs) =
    entry_at-dependency_map required id (depend_on x m (required x)) xs
    ∙ ap (λ l. l ++ dependents required id xs) (entry_at-depend_on id x m (required x))
    ∙ append_assoc (entry_at id m) _ _

entry_at-nil : {A : Type 0} (id : ℕ) → entry_at {A = A} id [] ≡ []
unfolding entry_at Maps.find
entry_at-nil id = refl

entry_at-dependency_map_nil :
    {A : Type 0} (required : A → List ℕ) (id : ℕ) (xs : List A)
    → entry_at id (dependency_map required [] xs) ≡ dependents required id xs
entry_at-dependency_map_nil required id xs =
    entry_at-dependency_map required id [] xs
    ∙ ap (λ l. l ++ dependents required id xs) (entry_at-nil id)

-- The dependency maps lead from a datum to the capabilities that require it, and from a capability
-- to the facades that require it, in the order of the tables, once for each mention.
pub dependents-create :
    (p : ProductDefinition) (id : ℕ)
    → (capabilities_on (create p) id ≡ dependents (λ c. c.required_data_ids) id p.capabilities)
      × (facades_on (create p) id ≡ dependents (λ f. f.required_capability_ids) id p.facades)
unfolding create
dependents-create p id = (
  entry_at-dependency_map_nil (λ c. c.required_data_ids) id p.capabilities,
  entry_at-dependency_map_nil (λ f. f.required_capability_ids) id p.facades,
)
