-- ===== src/Product/Validate.antt =====
-- `ValidateProductDefinition` of products/common/ProductDefinition.cpp.
use text.Mathlib.Text.{◌==◌ as str_eq}
use text.Mathlib.TextEquality.{eq_iff}
use printer_fw.Base.{
  ℕ, ◌≡◌, ◌≢◌, ◌↔◌, refl, Bool, true, false, not, ◌&&◌, Option, none, some, List, [], ◌∷◌, ◌==◌,
  ==_iff, if◌then◌else◌, All, Any, inl, inr, Bool-cases, ◌⊎◌,
}
use printer_fw.Product.{DomainDefinition, ProductDefinition}
use printer_fw.Product.Lookup.{
  first, any, has_duplicate, find_domain, find_route, find_data_item, find_capability,
}

abbrev pub nat_eq : ℕ → ℕ → Bool
nat_eq a b = a == b

abbrev pub is_found : {A : Type 0} → Option A → Bool
is_found none = false
is_found (some x) = true

-- A loop that returns `false` at the first entry that fails.
unfoldable pub every : {A : Type 0} → (A → Bool) → List A → Bool
every p [] = true
every p (x ∷ xs) = let rest = every p xs in if p x then rest else false

abbrev pub domain_is_found : ProductDefinition → Option DomainDefinition → Bool
domain_is_found product none = false
domain_is_found product (some domain) = is_found (find_domain product domain.name)

-- The names of the domains are compared by their addresses.
unfoldable pub validate_product_definition : ProductDefinition → Bool
unfolding has_duplicate every find_domain find_route find_data_item find_capability
validate_product_definition p =
    not (has_duplicate nat_eq (λ x. x.pointer) p.domains)
    && (every (λ item. domain_is_found p item.domain) p.data_items
        && (not (has_duplicate str_eq (λ x. x.name) p.data_items)
            && (not (has_duplicate nat_eq (λ x. x.id) p.data_items)
                && (not (has_duplicate str_eq (λ x. x.name) p.routes)
                    && (every (λ item. is_found (find_route p item.route_id)) p.data_items
                        && (not (has_duplicate str_eq (λ x. x.name) p.capabilities)
                            && (not (has_duplicate nat_eq (λ x. x.id) p.capabilities)
                                && (every
                                      (λ c.
                                        every (λ id. is_found (find_data_item p id))
                                          c.required_data_ids)
                                      p.capabilities
                                    && (not (has_duplicate str_eq (λ x. x.name) p.facades)
                                        && (not (has_duplicate nat_eq (λ x. x.id) p.facades)
                                            && every
                                                (λ f.
                                                  every (λ id. is_found (find_capability p id))
                                                    f.required_capability_ids)
                                                p.facades))))))))))

-- No two entries have one key.
abbrev pub Unique : {A K : Type 0} → (A → K) → List A → Type 0
Unique key [] = Unit
Unique key (x ∷ xs) = All (λ y. key x ≢ key y) xs × Unique key xs

-- The domain of an item is set and has the name of an entry of the table.
abbrev pub DomainIsListed : List DomainDefinition → Option DomainDefinition → Type 0
DomainIsListed table none = ⊥
DomainIsListed table (some domain) = Any (λ x. x.name ≡ domain.name) table

-- What a valid product is.
pub record IsValid (p : ProductDefinition) : Type 0 where
  pub domain_names : Unique (λ x. x.pointer) p.domains
  pub item_domains : All (λ item. DomainIsListed p.domains item.domain) p.data_items
  pub item_names : Unique (λ x. x.name) p.data_items
  pub item_ids : Unique (λ x. x.id) p.data_items
  pub route_names : Unique (λ x. x.name) p.routes
  pub item_routes : All (λ item. Any (λ r. r.id ≡ item.route_id) p.routes) p.data_items
  pub capability_names : Unique (λ x. x.name) p.capabilities
  pub capability_ids : Unique (λ x. x.id) p.capabilities
  pub capability_data :
      All (λ c. All (λ id. Any (λ x. x.id ≡ id) p.data_items) c.required_data_ids) p.capabilities
  pub facade_names : Unique (λ x. x.name) p.facades
  pub facade_ids : Unique (λ x. x.id) p.facades
  pub facade_capabilities :
      All (λ f. All (λ id. Any (λ x. x.id ≡ id) p.capabilities) f.required_capability_ids) p.facades

module _ {A : Type 0} (p : A → Bool) (P : A → Type 0) (spec : (x : A) → (p x ≡ true) ↔ P x) where
  every_iff : (xs : List A) → (every p xs ≡ true) ↔ All P xs
  unfolding every
  every_iff [] = (λ h. tt, λ h. refl)
  every_iff (x ∷ xs) = elim (Bool-cases (p x)) [
    | inl e ↦ rw e (λ h. ((spec x).0 e, (every_iff xs).0 h), λ h. (every_iff xs).1 h.1)
    | inr e ↦ rw e (λ h. cc, λ h. cc ((spec x).1 h.0))
  ]

  later :
      (x : A) (xs : List A)
      → p x ≡ false
      → (Any P xs → is_found (first p xs) ≡ true)
      → P x ⊎ Any P xs
      → is_found (first p xs) ≡ true
  later x xs e f (inl h) = cc ((spec x).1 h)
  later x xs e f (inr h) = f h

  pub first_iff : (xs : List A) → (is_found (first p xs) ≡ true) ↔ Any P xs
  unfolding first
  first_iff [] = (λ h. cc, λ h. absurd h)
  first_iff (x ∷ xs) = elim (Bool-cases (p x)) [
    | inl e ↦ rw e (λ h. inl ((spec x).0 e), λ h. refl)
    | inr e ↦ rw e (λ h. inr ((first_iff xs).0 h), later x xs e ((first_iff xs).1))
  ]

  any_iff : (xs : List A) → (any p xs ≡ false) ↔ All (λ x. ¬ P x) xs
  unfolding any
  any_iff [] = (λ h. tt, λ h. refl)
  any_iff (x ∷ xs) = elim (Bool-cases (p x)) [
    | inl e ↦ rw e (λ h. cc, λ h. absurd (h.0 ((spec x).0 e)))
    | inr e ↦ rw e (λ h. (λ q. cc ((spec x).1 q), (any_iff xs).0 h), λ h. (any_iff xs).1 h.1)
  ]

module _ {A K : Type 0} (eq : K → K → Bool) (spec : (a b : K) → (eq a b ≡ true) ↔ (a ≡ b)) where
  has_duplicate_iff :
      (key : A → K) (xs : List A) → (not (has_duplicate eq key xs) ≡ true) ↔ Unique key xs
  unfolding has_duplicate
  has_duplicate_iff key [] = (λ h. tt, λ h. refl)
  has_duplicate_iff key (x ∷ xs) =
      let fresh =
        any_iff (λ y. eq (key x) (key y)) (λ y. key x ≡ key y) (λ y. spec (key x) (key y)) xs in
      elim (Bool-cases (any (λ y. eq (key x) (key y)) xs)) [
        | inl e ↦ rw e (λ h. cc, λ h. cc (fresh.1 h.0))
        | inr e ↦ rw e (
          λ h. (fresh.0 e, (has_duplicate_iff key xs).0 h),
          λ h. (has_duplicate_iff key xs).1 h.1,
        )
      ]

and_iff : {P Q : Type 0} (a b : Bool) → (a ≡ true) ↔ P → (b ≡ true) ↔ Q → (a && b ≡ true) ↔ (P × Q)
and_iff true b p q = (λ h. (p.0 refl, q.0 h), λ h. q.1 h.1)
and_iff false b p q = (λ h. cc, λ h. cc (p.1 h.0))

nat_eq_iff : (a b : ℕ) → (nat_eq a b ≡ true) ↔ (a ≡ b)
nat_eq_iff a b = ==_iff a b

domain_is_found_iff :
    (p : ProductDefinition) (o : Option DomainDefinition)
    → (domain_is_found p o ≡ true) ↔ DomainIsListed p.domains o
unfolding find_domain
domain_is_found_iff p none = (λ h. cc, λ h. absurd h)
domain_is_found_iff p (some domain) =
    first_iff (λ x. str_eq x.name domain.name) (λ x. x.name ≡ domain.name)
      (λ x. eq_iff x.name domain.name) p.domains

pub find_id_iff :
    {A : Type 0} (id_of : A → ℕ) (id : ℕ) (xs : List A)
    → (is_found (first (λ x. id_of x == id) xs) ≡ true) ↔ Any (λ x. id_of x ≡ id) xs
find_id_iff id_of id xs =
    first_iff (λ x. id_of x == id) (λ x. id_of x ≡ id) (λ x. ==_iff (id_of x) id) xs

-- The validation accepts exactly the products in which the names and ids are unique where the code
-- asks for it (domain names by their addresses), and each item's domain and route, each
-- capability's data and each facade's capabilities are in the tables.
pub validate_product_definition_iff :
    (p : ProductDefinition) → (validate_product_definition p ≡ true) ↔ IsValid p
unfolding validate_product_definition
validate_product_definition_iff p =
    let parts = and_iff _ _ (has_duplicate_iff nat_eq nat_eq_iff (λ x. x.pointer) p.domains) (
      and_iff _ _ (every_iff _ _ (λ item. domain_is_found_iff p item.domain) p.data_items) (
        and_iff _ _ (has_duplicate_iff str_eq eq_iff (λ x. x.name) p.data_items) (
          and_iff _ _ (has_duplicate_iff nat_eq nat_eq_iff (λ x. x.id) p.data_items) (
            and_iff _ _ (has_duplicate_iff str_eq eq_iff (λ x. x.name) p.routes) (
              and_iff _ _
                (every_iff _ _ (λ item. find_id_iff (λ x. x.id) item.route_id p.routes)
                  p.data_items)
                (and_iff _ _ (has_duplicate_iff str_eq eq_iff (λ x. x.name) p.capabilities) (
                  and_iff _ _ (has_duplicate_iff nat_eq nat_eq_iff (λ x. x.id) p.capabilities) (
                    and_iff _ _
                      (every_iff _ _
                        (λ c.
                          every_iff _ _ (λ id. find_id_iff (λ x. x.id) id p.data_items)
                            c.required_data_ids)
                        p.capabilities)
                      (and_iff _ _ (has_duplicate_iff str_eq eq_iff (λ x. x.name) p.facades) (
                        and_iff _ _ (has_duplicate_iff nat_eq nat_eq_iff (λ x. x.id) p.facades) (
                          every_iff _ _
                            (λ f.
                              every_iff _ _ (λ id. find_id_iff (λ x. x.id) id p.capabilities)
                                f.required_capability_ids)
                            p.facades))))))))))) in
    (
      λ h.
          let t = parts.0 h in
          record {
            domain_names = t.0;
            item_domains = t.1.0;
            item_names = t.1.1.0;
            item_ids = t.1.1.1.0;
            route_names = t.1.1.1.1.0;
            item_routes = t.1.1.1.1.1.0;
            capability_names = t.1.1.1.1.1.1.0;
            capability_ids = t.1.1.1.1.1.1.1.0;
            capability_data = t.1.1.1.1.1.1.1.1.0;
            facade_names = t.1.1.1.1.1.1.1.1.1.0;
            facade_ids = t.1.1.1.1.1.1.1.1.1.1.0;
            facade_capabilities = t.1.1.1.1.1.1.1.1.1.1.1;
          },
      λ v. parts.1 (
        v.domain_names,
        (
          v.item_domains,
          (
            v.item_names,
            (
              v.item_ids,
              (
                v.route_names,
                (
                  v.item_routes,
                  (
                    v.capability_names,
                    (
                      v.capability_ids,
                      (v.capability_data, (v.facade_names, (v.facade_ids, v.facade_capabilities))),
                    ),
                  ),
                ),
              ),
            ),
          ),
        ),
      ),
    )
