-- ===== src/Product/Context.antt =====
-- core/common/src/ProductContext.cpp, with core/capability/src/CapabilityDependencyMap.cpp and
-- FacadeDependencyMap.cpp and core/storage/src/FacadeRequiredCapabilityMap.cpp.
pub mod Index
use Prim.Native.String.{String}
use printer_fw.Base.{ℕ, ◌+◌, ◌%◌, Option, none, some, List, [], ◌∷◌, ◌++◌, inc32, length, map}
use printer_fw.Base.Maps
use printer_fw.Notification.{
  NotificationTarget, NotificationTargetType, capability, data_item, facade,
}
use printer_fw.Product.{
  DomainDefinition, RouteDefinition, DataItemDefinition, CapabilityItemDefinition,
  FacadeItemDefinition, ProductDefinition,
}
use printer_fw.Product.Domains.{
  data_domain_map, capability_required_domain_map, find_domain_id, entry_at,
}

-- A loop of `emplace(x.id, &x)`.
unfoldable pub index_by : {A : Type 0} → (A → ℕ) → List (ℕ × A) → List A → List (ℕ × A)
index_by key m [] = m
index_by key m (x ∷ xs) = index_by key (Maps.emplace (key x) x m) xs

-- The inner loop of the two dependency maps: `map_[id].push_back(&x)` for each required id.
unfoldable pub depend_on : {A : Type 0} → A → List (ℕ × List A) → List ℕ → List (ℕ × List A)
depend_on x m [] = m
depend_on x m (id ∷ ids) = depend_on x (Maps.put id (entry_at id m ++ x ∷ []) m) ids

unfoldable pub dependency_map :
    {A : Type 0} → (A → List ℕ) → List (ℕ × List A) → List A → List (ℕ × List A)
dependency_map required m [] = m
dependency_map required m (x ∷ xs) = dependency_map required (depend_on x m (required x)) xs

-- `push_back` of each id in turn is the list itself, after what the entry held.
unfoldable pub facade_required_capability_map :
    List (ℕ × List ℕ) → List FacadeItemDefinition → List (ℕ × List ℕ)
facade_required_capability_map m [] = m
facade_required_capability_map m (f ∷ fs) =
    facade_required_capability_map (Maps.put f.id (entry_at f.id m ++ f.required_capability_ids) m)
      fs

-- The loops `emplace(x.id, nextDomainId++)`: the map and the next id.
unfoldable pub number_from : {A : Type 0} → (A → ℕ) → ℕ → List (ℕ × ℕ) → List A → List (ℕ × ℕ) × ℕ
number_from key next m [] = (m, next)
number_from key next m (x ∷ xs) = number_from key (inc32 next) (Maps.emplace (key x) next m) xs

pub record ProductContext : Type 0 where
  pub product : ProductDefinition
  pub data_domains : List (ℕ × ℕ)
  pub capability_required_domains : List (ℕ × List ℕ)
  pub facade_required_capabilities : List (ℕ × List ℕ)
  pub capability_dependencies : List (ℕ × List CapabilityItemDefinition)
  pub facade_dependencies : List (ℕ × List FacadeItemDefinition)
  pub routes_by_id : List (ℕ × RouteDefinition)
  pub data_items_by_id : List (ℕ × DataItemDefinition)
  pub capabilities_by_id : List (ℕ × CapabilityItemDefinition)
  pub facades_by_id : List (ℕ × FacadeItemDefinition)
  pub domains : List String
  pub capability_domains : List (ℕ × ℕ)
  pub facade_domains : List (ℕ × ℕ)

unfoldable pub create : ProductDefinition → ProductContext
create p =
    let (capability_domains, next) =
      number_from (λ (c : CapabilityItemDefinition). c.id) ((length p.domains + 1) % 4294967296) []
        p.capabilities in
    let (facade_domains, _) = number_from (λ (f : FacadeItemDefinition). f.id) next [] p.facades in
    record {
      product = p;
      data_domains = data_domain_map p;
      capability_required_domains = capability_required_domain_map p;
      facade_required_capabilities = facade_required_capability_map [] p.facades;
      capability_dependencies = dependency_map (λ c. c.required_data_ids) [] p.capabilities;
      facade_dependencies = dependency_map (λ f. f.required_capability_ids) [] p.facades;
      routes_by_id = index_by (λ r. r.id) [] p.routes;
      data_items_by_id = index_by (λ x. x.id) [] p.data_items;
      capabilities_by_id = index_by (λ c. c.id) [] p.capabilities;
      facades_by_id = index_by (λ f. f.id) [] p.facades;
      domains = map (λ d. d.name) p.domains;
      capability_domains = capability_domains;
      facade_domains = facade_domains;
    }

abbrev pub find_data_item : ProductContext → ℕ → Option DataItemDefinition
find_data_item c id = Maps.find id c.data_items_by_id

abbrev pub find_capability : ProductContext → ℕ → Option CapabilityItemDefinition
find_capability c id = Maps.find id c.capabilities_by_id

abbrev pub find_facade : ProductContext → ℕ → Option FacadeItemDefinition
find_facade c id = Maps.find id c.facades_by_id

abbrev pub find_route : ProductContext → ℕ → Option RouteDefinition
find_route c id = Maps.find id c.routes_by_id

abbrev pub find_data_domain_id : ProductContext → ℕ → ℕ
find_data_domain_id c id = find_domain_id id c.data_domains

abbrev pub find_capability_domain_id : ProductContext → ℕ → ℕ
find_capability_domain_id c id = find_domain_id id c.capability_domains

abbrev pub find_facade_domain_id : ProductContext → ℕ → ℕ
find_facade_domain_id c id = find_domain_id id c.facade_domains

-- `Find` of the two dependency maps.
abbrev pub capabilities_on : ProductContext → ℕ → List CapabilityItemDefinition
capabilities_on c id = entry_at id c.capability_dependencies

abbrev pub facades_on : ProductContext → ℕ → List FacadeItemDefinition
facades_on c id = entry_at id c.facade_dependencies

-- `Find` of `CapabilityRequiredDomainMap`.
abbrev pub required_domains : ProductContext → ℕ → List ℕ
required_domains c id = entry_at id c.capability_required_domains

-- ResolveRoute
unfoldable pub resolve_route_by_type :
    ProductContext → NotificationTargetType → ℕ → Option RouteDefinition
resolve_route_by_type c data_item id = elim (find_data_item c id) [
  | none ↦ none
  | some x ↦ find_route c x.route_id
]
resolve_route_by_type c capability id = elim (find_capability c id) [
  | none ↦ none
  | some x ↦ find_route c x.route_id
]
resolve_route_by_type c facade id = elim (find_facade c id) [
  | none ↦ none
  | some x ↦ find_route c x.route_id
]

unfoldable pub resolve_route : ProductContext → NotificationTarget → Option RouteDefinition
unfolding resolve_route_by_type
resolve_route c target = resolve_route_by_type c target.type target.id
