-- ===== src/Product/Domains.antt =====
-- core/storage/src/DataDomainMap.cpp and CapabilityRequiredDomainMap.cpp.
use printer_fw.Base.{
  ℕ, Bool, true, false, Option, none, some, List, [], ◌∷◌, ◌++◌, ◌==◌, if◌then◌else◌, inc32,
}
use printer_fw.Base.Maps
use printer_fw.Product.{
  DomainDefinition, DataItemDefinition, CapabilityItemDefinition, ProductDefinition,
}

-- kInvalidDomainId
abbrev pub invalid_domain_id : ℕ
invalid_domain_id = 0

-- The key of a domain pointer.
abbrev pub address_of : Option DomainDefinition → ℕ
address_of none = 0
address_of (some domain) = domain.address

-- The locals of the constructor of `DataDomainMap`, and its map from data to domains.
pub record DomainTable : Type 0 where
  pub domains : List (ℕ × ℕ)
  pub next_id : ℕ
  pub map : List (ℕ × ℕ)

-- One round of its loop.
unfoldable pub add_item : DomainTable → DataItemDefinition → DomainTable
add_item t item = elim (Maps.find (address_of item.domain) t.domains) [
  | none ↦ record t {
    domains = Maps.emplace (address_of item.domain) t.next_id t.domains;
    next_id = inc32 t.next_id;
    map = Maps.put item.id t.next_id t.map;
  }
  | some id ↦ record t { map = Maps.put item.id id t.map }
]

unfoldable pub add_items : DomainTable → List DataItemDefinition → DomainTable
unfolding add_item
add_items t [] = t
add_items t (item ∷ items) = add_items (add_item t item) items

abbrev pub no_domains : DomainTable
no_domains = record { domains = []; next_id = 1; map = [] }

unfoldable pub data_domain_map : ProductDefinition → List (ℕ × ℕ)
unfolding add_items
data_domain_map product = (add_items no_domains product.data_items).map

-- `DataDomainMap::Find`, and every other search that answers with `kInvalidDomainId`.
unfoldable pub find_domain_id : ℕ → List (ℕ × ℕ) → ℕ
find_domain_id id m = elim (Maps.find id m) [ none ↦ invalid_domain_id | some domain ↦ domain ]

-- std::find(begin, end, x) != end
unfoldable pub contains_id : ℕ → List ℕ → Bool
contains_id x [] = false
contains_id x (y ∷ ys) = let rest = contains_id x ys in if y == x then true else rest

-- The inner loop of the constructor of `CapabilityRequiredDomainMap`.
unfoldable pub add_required : List (ℕ × ℕ) → List ℕ → List ℕ → List ℕ
unfolding find_domain_id contains_id
add_required data_domains domains [] = domains
add_required data_domains domains (id ∷ ids) =
    let domain = find_domain_id id data_domains in
    add_required data_domains
      (if domain == invalid_domain_id
        then domains
        else if contains_id domain domains
        then domains
        else domains ++ domain ∷ [])
      ids

-- map_[k], which makes an empty entry.
unfoldable pub entry_at : {A : Type 0} → ℕ → List (ℕ × List A) → List A
entry_at k m = elim (Maps.find k m) [ none ↦ [] | some xs ↦ xs ]

unfoldable pub add_capabilities :
    List (ℕ × ℕ) → List (ℕ × List ℕ) → List CapabilityItemDefinition → List (ℕ × List ℕ)
unfolding add_required entry_at
add_capabilities data_domains m [] = m
add_capabilities data_domains m (c ∷ cs) =
    add_capabilities data_domains
      (Maps.put c.id (add_required data_domains (entry_at c.id m) c.required_data_ids) m) cs

unfoldable pub capability_required_domain_map : ProductDefinition → List (ℕ × List ℕ)
unfolding add_capabilities data_domain_map
capability_required_domain_map product =
    add_capabilities (data_domain_map product) [] product.capabilities
