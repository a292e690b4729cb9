-- ===== src/Typed/Tables.antt =====
-- What a typed product gives the indexes of core/common/src/ProductContext.cpp.
use printer_fw.Base.{
  ℕ, ◌≡◌, ◌∙◌, sym, subst, some, List, [], ◌∷◌, All, All-append, ◌==◌, Bool-cases, inl, inr,
}
use printer_fw.Product.{DataItemDefinition, ProductDefinition}
use printer_fw.Product.Lookup
use printer_fw.Product.Lookup.{first}
use printer_fw.Product.Context.{create, find_data_item, capabilities_on, facades_on}
use printer_fw.Product.Context.Index.{occurrences, dependents, dependents-create, find-create}
use printer_fw.Adapter.Routing.{first-All}
use printer_fw.Typed.{ItemIsTyped, ProductIsTyped}
use printer_fw.Typed.Evaluated.{CapabilitiesAreTyped, FacadesAreTyped}

module _ {A : Type 0} (P : A → Type 0) where
  occurrences-All : (id : ℕ) (x : A) (ids : List ℕ) → P x → All P (occurrences id x ids)
  unfolding occurrences
  occurrences-All id x [] h = tt
  occurrences-All id x (j ∷ ids) h = elim (Bool-cases (j == id)) [
    | inl e ↦ rw e (h, occurrences-All id x ids h)
    | inr e ↦ rw e (occurrences-All id x ids h)
  ]

  pub dependents-All :
      (required : A → List ℕ) (id : ℕ) (xs : List A) → All P xs → All P (dependents required id xs)
  unfolding dependents
  dependents-All required id [] h = tt
  dependents-All required id (x ∷ xs) h =
      All-append P (occurrences id x (required x)) (dependents required id xs)
        (occurrences-All id x (required x) h.0) (dependents-All required id xs h.1)

pub find_data_item-typed :
    (p : ProductDefinition) (id : ℕ) (x : DataItemDefinition)
    → ProductIsTyped p
    → find_data_item (create p) id ≡ some x
    → ItemIsTyped x
unfolding Lookup.find_data_item
find_data_item-typed p id x typed e =
    first-All ItemIsTyped (λ y. y.id == id) p.data_items x typed.items
      (sym (find-create p id).0 ∙ e)

pub dependents_typed :
    (p : ProductDefinition) (id : ℕ)
    → ProductIsTyped p
    → CapabilitiesAreTyped (capabilities_on (create p) id)
      × FacadesAreTyped (facades_on (create p) id)
dependents_typed p id typed =
    let (capabilities, facades) = dependents-create p id in
    (
      subst CapabilitiesAreTyped (sym capabilities)
          (dependents-All _ (λ c. c.required_data_ids) id p.capabilities typed.capabilities),
      subst FacadesAreTyped (sym facades)
          (dependents-All _ (λ f. f.required_capability_ids) id p.facades typed.facades),
    )
