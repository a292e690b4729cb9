-- ===== src/Product/Lookup.antt =====
-- The searches of products/common/ProductDefinition.cpp.
use Prim.Native.String.{String}
use text.Mathlib.Text.{◌==◌ as str_eq}
use printer_fw.Base.{ℕ, Bool, true, false, Option, none, some, List, [], ◌∷◌, ◌==◌, if◌then◌else◌}
use printer_fw.Product.{
  DomainDefinition, RouteDefinition, DataItemDefinition, CapabilityItemDefinition,
  FacadeItemDefinition, ProductDefinition,
}

-- The loop that returns the first match.
unfoldable pub first : {A : Type 0} → (A → Bool) → List A → Option A
first p [] = none
first p (x ∷ xs) = let rest = first p xs in if p x then some x else rest

unfoldable pub find_domain : ProductDefinition → String → Option DomainDefinition
unfolding first
find_domain product name = first (λ x. str_eq x.name name) product.domains

unfoldable pub find_route_by_name : ProductDefinition → String → Option RouteDefinition
unfolding first
find_route_by_name product name = first (λ x. str_eq x.name name) product.routes

unfoldable pub find_route : ProductDefinition → ℕ → Option RouteDefinition
unfolding first
find_route product id = first (λ x. x.id == id) product.routes

unfoldable pub find_data_item_by_name : ProductDefinition → String → Option DataItemDefinition
unfolding first
find_data_item_by_name product name = first (λ x. str_eq x.name name) product.data_items

unfoldable pub find_data_item : ProductDefinition → ℕ → Option DataItemDefinition
unfolding first
find_data_item product id = first (λ x. x.id == id) product.data_items

unfoldable pub find_capability_by_name :
    ProductDefinition → String → Option CapabilityItemDefinition
unfolding first
find_capability_by_name product name = first (λ x. str_eq x.name name) product.capabilities

unfoldable pub find_capability : ProductDefinition → ℕ → Option CapabilityItemDefinition
unfolding first
find_capability product id = first (λ x. x.id == id) product.capabilities

unfoldable pub find_facade_by_name : ProductDefinition → String → Option FacadeItemDefinition
unfolding first
find_facade_by_name product name = first (λ x. str_eq x.name name) product.facades

unfoldable pub find_facade : ProductDefinition → ℕ → Option FacadeItemDefinition
unfolding first
find_facade product id = first (λ x. x.id == id) product.facades

-- Whether a later entry has the key of an earlier one, by the test `eq`.
unfoldable pub any : {A : Type 0} → (A → Bool) → List A → Bool
any p [] = false
any p (x ∷ xs) = let rest = any p xs in if p x then true else rest

unfoldable pub has_duplicate : {A K : Type 0} → (K → K → Bool) → (A → K) → List A → Bool
unfolding any
has_duplicate eq getter [] = false
has_duplicate eq getter (x ∷ xs) =
    let rest = has_duplicate eq getter xs in
    if any (λ y. eq (getter x) (getter y)) xs then true else rest
