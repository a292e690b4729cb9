-- ===== src/PrinterA/Facades.antt =====
-- From the stored capabilities of products/printer_a to its facades.
use printer_fw.Base.{ℕ, ◌≡◌, refl, ap, ◌∙◌, Bool, false, not, ◌&&◌, some, List, [], ◌∷◌, ◌==◌}
use printer_fw.Base.Maps
use printer_fw.Value.{Memory, RimDataItem, create_bool, create_int32, ValueType-discrete}
use printer_fw.Value.Reads
use printer_fw.Storage.{Registry, find_data}
use printer_fw.Product.{FacadeItemDefinition}
use printer_fw.Product.Domains.{invalid_domain_id, find_domain_id}
use printer_fw.Product.Context
use printer_fw.Product.Context.{ProductContext, create, find_capability_domain_id, find_facade}
use printer_fw.Capability.{facade_items, facade_snapshot}
use printer_fw.Snapshot.{find_current, find, try_get, try_get_bool, try_get_int32}
use printer_fw.PrinterA.{
  environment, print_ready, environment_ready, operation_ready, build_environment_ready_facade,
  build_operation_ready_facade,
}
use printer_fw.PrinterA.Tables.{printer_a, environment_ready_facade, operation_ready_facade}

facade_items-found :
    (context : ProductContext) (r : Registry) (id domain : ℕ) (ids : List ℕ) (item : RimDataItem)
    → find_capability_domain_id context id ≡ domain
    → (domain == invalid_domain_id) ≡ false
    → find_data r domain id ≡ some item
    → facade_items context r (id ∷ ids) ≡ item ∷ facade_items context r ids
unfolding facade_items
facade_items-found context r id domain ids item e valid found = rw (e, valid, found) refl

facade_snapshot-found :
    (context : ProductContext) (r : Registry) (id : ℕ) (definition : FacadeItemDefinition)
    → find_facade context id ≡ some definition
    → facade_snapshot context r id
      ≡ record { items = facade_items context r definition.required_capability_ids }
unfolding facade_snapshot
facade_snapshot-found context r id definition e = rw (e, facade_snapshot) refl

module _ (add : ℕ → ℕ → ℕ) where
  abbrev pub context : ProductContext
  context = create (printer_a add)

  -- The storages of the two capabilities.
  capability_domains :
      (find_capability_domain_id context environment ≡ 6)
      × (find_capability_domain_id context print_ready ≡ 7)
  unfolding create Context.number_from find_domain_id Maps.find Maps.emplace
  capability_domains = (refl, refl)

  facades_found :
      (find_facade context environment_ready ≡ some environment_ready_facade)
      × (find_facade context operation_ready ≡ some operation_ready_facade)
  unfolding create Context.index_by Maps.find Maps.emplace
  facades_found = (refl, refl)

  abbrev stored_level : ℕ → RimDataItem
  stored_level level = record { id = environment; value = create_int32 level }

  abbrev stored_ready : Bool → RimDataItem
  stored_ready ready = record { id = print_ready; value = create_bool ready }

  module _ (memory : Memory) (r : Registry) (level : ℕ) (ready : Bool)
      (has_level : find_data r 6 environment ≡ some (stored_level level))
      (has_ready : find_data r 7 print_ready ≡ some (stored_ready ready)) where
    snapshots :
        (facade_snapshot context r environment_ready ≡ record { items = stored_level level ∷ [] })
        × (facade_snapshot context r operation_ready
            ≡ record { items = stored_level level ∷ stored_ready ready ∷ [] })
    unfolding facade_snapshot facade_items
    snapshots =
        let ready_items =
          facade_items-found context r print_ready 7 [] (stored_ready ready) capability_domains.1
            refl has_ready in
        (
          facade_snapshot-found context r environment_ready environment_ready_facade facades_found.0
              ∙ ap (λ items. record { items = items })
                  (facade_items-found context r environment 6 [] (stored_level level)
                    capability_domains.0 refl has_level),
          facade_snapshot-found context r operation_ready operation_ready_facade facades_found.1
              ∙ ap (λ items. record { items = items })
                  (facade_items-found context r environment 6 (print_ready ∷ [])
                      (stored_level level) capability_domains.0 refl has_level
                    ∙ ap (λ items. stored_level level ∷ items) ready_items),
        )

    -- If the storages of the environment and print-ready capabilities hold a level and a Boolean,
    -- then the facades are built from their own snapshots as follows: the environment is ready if
    -- the level is not 2, and the operation is ready if moreover printing is.
    pub facades_built :
        (build_environment_ready_facade memory (facade_snapshot context r environment_ready)
          ≡ some (create_bool (not (level == 2))))
        × (build_operation_ready_facade memory (facade_snapshot context r operation_ready)
            ≡ some (create_bool (not (level == 2) && ready)))
    unfolding build_environment_ready_facade build_operation_ready_facade try_get_int32 try_get_bool
        try_get find find_current Reads.get_int32 Reads.get_bool Reads.get_value ValueType-discrete
    facades_built = (
      ap (build_environment_ready_facade memory) snapshots.0 ∙ refl,
      ap (build_operation_ready_facade memory) snapshots.1 ∙ refl,
    )
