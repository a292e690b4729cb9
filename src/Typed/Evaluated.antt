-- ===== src/Typed/Evaluated.antt =====
-- Passes of CapabilityWorker::Process (core/capability/src/CapabilityWorker.cpp).
use printer_fw.Base.{
  ℕ, ◌≡◌, sym, subst, Bool, true, false, some, List, [], ◌∷◌, ◌==◌, if◌then◌else◌, ◌>>=◌,
  >>=-eq-some, some_inv, inl, inr, Bool-cases, All,
}
use printer_fw.Notification.{data_item}
use printer_fw.Value.{Memory, RimDataItem}
use printer_fw.Value.Reads.{IsWellTyped}
use printer_fw.Storage.{Registry, find_item, get_or_create, store_in, memory_of}
use printer_fw.Storage.Registry.{IsSound}
use printer_fw.Product.{
  BuildCallback, DiffCallback, CapabilityItemDefinition, FacadeItemDefinition, RimSnapshot,
}
use printer_fw.Product.Context.{
  ProductContext, capabilities_on, facades_on, find_facade_domain_id, find_capability_domain_id,
}
use printer_fw.Capability.{
  is_changed_item, store_changed, evaluate_in, evaluate, evaluate_capability, evaluate_facade,
  CapabilityState, announce, publish_facade, publish_facade_changes, publish_capability,
  publish_capability_changes, process, capability_snapshot, facade_snapshot,
}
use printer_fw.Capability.Progress.{evaluate-IsSound}
use printer_fw.Typed.{BuildIsTyped, RegistryIsTyped}
use printer_fw.Typed.Stored.{store_in-typed, get_or_create-typed}

-- The storages are sound, and what they hold is typed.
abbrev pub IsGood : Registry → Type 0
IsGood r = IsSound r × RegistryIsTyped r

store_changed-typed :
    (memory : Memory) (domain : ℕ) (r : Registry) (item : RimDataItem) (changed : Bool)
    (answer : Registry × Bool)
    → store_changed memory domain r item changed ≡ some answer
    → IsWellTyped item.value
    → RegistryIsTyped r
    → RegistryIsTyped answer.0
unfolding store_changed
store_changed-typed memory domain r item false answer h w typed =
    subst (λ a. RegistryIsTyped a.0) (sym (some_inv h)) typed
store_changed-typed memory domain r item true answer h w typed =
    let (r', stored, out) = >>=-eq-some (store_in memory domain item r) (λ r'. some (r', true)) h in
    subst (λ a. RegistryIsTyped a.0) (sym (some_inv out))
      (store_in-typed memory domain item r r' stored w typed)

module _ (caller : ℕ → List ℕ) where
  evaluate_in-typed :
      (diff : DiffCallback) (domain : ℕ) (r : Registry) (item : RimDataItem)
      (answer : Registry × Bool)
      → evaluate_in caller diff domain r item ≡ some answer
      → IsWellTyped item.value
      → RegistryIsTyped r
      → RegistryIsTyped answer.0
  unfolding evaluate_in
  evaluate_in-typed diff domain r item answer h w typed =
      let r' = (get_or_create domain r).1 in
      let (changed, _, out) =
        >>=-eq-some
          (is_changed_item (memory_of caller r') diff (find_item (get_or_create domain r).0 item.id)
            item.value)
          (store_changed (memory_of caller r') domain r' item) h in
      store_changed-typed (memory_of caller r') domain r' item changed answer out w
        ((get_or_create-typed domain r typed).1)

  pub evaluate-IsGood :
      (build : BuildCallback) (diff : DiffCallback) (domain id : ℕ) (r : Registry)
      (snapshot : RimSnapshot) (answer : Registry × Bool)
      → evaluate caller build diff domain id r snapshot ≡ some answer
      → BuildIsTyped build
      → IsGood r
      → IsGood answer.0
  unfolding evaluate
  evaluate-IsGood build diff domain id r snapshot answer h b (sound, typed) =
      let (new, built, out) =
        >>=-eq-some (build (memory_of caller r) snapshot)
          (λ new.
            if domain == 0
            then some (r, false)
            else evaluate_in caller diff domain r (record { id = id; value = new }))
          h in
      (
        evaluate-IsSound caller build diff domain id r snapshot answer h sound,
        elim (Bool-cases (domain == 0)) [
          | inl e ↦ subst (λ a. RegistryIsTyped a.0) (sym (some_inv (rw e at out))) typed
          | inr e ↦
              evaluate_in-typed diff domain r (record { id = id; value = new }) answer (rw e at out)
                (b (memory_of caller r) snapshot new built) typed
        ],
      )

abbrev pub FacadesAreTyped : List FacadeItemDefinition → Type 0
FacadesAreTyped = All (λ f. BuildIsTyped f.build)

abbrev pub CapabilitiesAreTyped : List CapabilityItemDefinition → Type 0
CapabilitiesAreTyped = All (λ c. BuildIsTyped c.build)

module _ (caller : ℕ → List ℕ) (context : ProductContext)
    (all_facades : (id : ℕ) → FacadesAreTyped (facades_on context id)) where
  pub publish_facade-IsGood :
      (s : CapabilityState) (id : ℕ) (answer : Registry × Bool)
      → IsGood answer.0
      → IsGood (publish_facade caller context s id answer).store
  unfolding publish_facade announce
  publish_facade-IsGood s id (r, false) h = h
  publish_facade-IsGood s id (r, true) h = h

  publish_facade_changes-IsGood :
      (s t : CapabilityState) (fs : List FacadeItemDefinition)
      → publish_facade_changes caller context s fs ≡ some t
      → FacadesAreTyped fs
      → IsGood s.store
      → IsGood t.store
  unfolding publish_facade_changes evaluate_facade
  publish_facade_changes-IsGood s t [] h b good =
      subst (λ u. IsGood u.store) (sym (some_inv h)) good
  publish_facade_changes-IsGood s t (f ∷ fs) h b good =
      let (answer, evaluated, rest) =
        >>=-eq-some (evaluate_facade caller context s.store f)
          (λ answer.
            publish_facade_changes caller context (publish_facade caller context s f.id answer) fs)
          h in
      publish_facade_changes-IsGood (publish_facade caller context s f.id answer) t fs rest b.1 (
        publish_facade-IsGood s f.id answer (
          evaluate-IsGood caller f.build f.diff (find_facade_domain_id context f.id) f.id s.store
            (facade_snapshot context s.store f.id) answer evaluated b.0 good))

  pub publish_capability-IsGood :
      (s t : CapabilityState) (id : ℕ) (answer : Registry × Bool)
      → publish_capability caller context s id answer ≡ some t
      → IsGood answer.0
      → IsGood t.store
  unfolding publish_capability announce
  publish_capability-IsGood s t id (r, false) h good =
      subst (λ u. IsGood u.store) (sym (some_inv h)) good
  publish_capability-IsGood s t id (r, true) h good =
      publish_facade_changes-IsGood _ t (facades_on context id) h (all_facades id) good

  publish_capability_changes-IsGood :
      (s t : CapabilityState) (cs : List CapabilityItemDefinition)
      → publish_capability_changes caller context s cs ≡ some t
      → CapabilitiesAreTyped cs
      → IsGood s.store
      → IsGood t.store
  unfolding publish_capability_changes evaluate_capability
  publish_capability_changes-IsGood s t [] h b good =
      subst (λ u. IsGood u.store) (sym (some_inv h)) good
  publish_capability_changes-IsGood s t (c ∷ cs) h b good =
      let (answer, evaluated, more) =
        >>=-eq-some (evaluate_capability caller context s.store c)
          (λ answer. publish_capability caller context s c.id answer >>= λ s'.
            publish_capability_changes caller context s' cs)
          h in
      let (s', published, rest) =
        >>=-eq-some (publish_capability caller context s c.id answer)
          (λ s'. publish_capability_changes caller context s' cs) more in
      publish_capability_changes-IsGood s' t cs rest b.1 (
        publish_capability-IsGood s s' c.id answer published (
          evaluate-IsGood caller c.build c.diff (find_capability_domain_id context c.id) c.id
            s.store (capability_snapshot context s.store c.id) answer evaluated b.0 good))

  -- A pass keeps what is stored typed, if the builders of the product are.
  pub process-IsGood :
      (s t : CapabilityState) (id : ℕ)
      → process caller context s id ≡ some t
      → CapabilitiesAreTyped (capabilities_on context id)
      → IsGood s.store
      → IsGood t.store
  unfolding process announce
  process-IsGood s t id h b good = elim (Bool-cases (id == 4294967295)) [
    | inl e ↦ subst (λ u. IsGood u.store) (sym (some_inv (rw e at h))) good
    | inr e ↦
        publish_capability_changes-IsGood
          (announce context (record { type = data_item; id = id }) s) t (capabilities_on context id)
          (rw e at h) b good
  ]
