-- ===== src/RouteExecutor/Pass.antt =====
-- The passes of the two workers of a route, over the storages (core/common/src/RouteExecutor.cpp).
use printer_fw.Base.{
  ℕ, ◌≡◌, sym, subst, Bool, true, some, List, some_inv, >>=-eq-some, Option-cases, inl, inr,
}
use printer_fw.Queue.{try_pop}
use printer_fw.Storage.Registry.{IsSound}
use printer_fw.Product.Context.{ProductContext}
use printer_fw.Store
use printer_fw.Store.{StoreState}
use printer_fw.Store.Process.{process-IsSound}
use printer_fw.Capability
use printer_fw.Capability.{CapabilityState}
use printer_fw.Capability.Progress.{process-Extends}
use printer_fw.RouteExecutor.{
  RouteState, capability_insert, store_view, with_store, capability_view, with_capability,
  execute_store, execute_capability,
}

module _ (caller : ℕ → List ℕ) (context : ProductContext) where
  store_once-IsSound :
      (insert : List ℕ → ℕ → List ℕ) (s : StoreState) (answer : StoreState × Bool)
      → Store.execute_once caller insert context s ≡ some answer
      → IsSound s.domain_store
      → IsSound answer.0.domain_store
  unfolding Store.execute_once
  store_once-IsSound insert s answer h sound = elim (Option-cases (try_pop s.queue).1) [
    | inl e ↦
        subst (λ a. IsSound a.0.domain_store) (sym (some_inv (rw (e, Store.execute_once) at h)))
          sound
    | inr (item, e) ↦
        let (t, done, out) =
          >>=-eq-some
            (Store.process caller insert context (record s { queue = (try_pop s.queue).0 }) item)
            (λ t. some (t, true)) (rw (e, Store.execute_once) at h) in
        subst (λ a. IsSound a.0.domain_store) (sym (some_inv out))
          ((process-IsSound caller insert context _ t item done sound).0)
  ]

  capability_once-IsSound :
      (s : CapabilityState) (answer : CapabilityState × Bool)
      → Capability.execute_once caller context s ≡ some answer
      → IsSound s.store
      → IsSound answer.0.store
  unfolding Capability.execute_once
  capability_once-IsSound s answer h sound = elim (Option-cases (try_pop s.queue).1) [
    | inl e ↦
        subst (λ a. IsSound a.0.store) (sym (some_inv (rw (e, Capability.execute_once) at h))) sound
    | inr (id, e) ↦
        let (t, done, out) =
          >>=-eq-some
            (Capability.process caller context (record s { queue = (try_pop s.queue).0 }) id)
            (λ t. some (t, true)) (rw (e, Capability.execute_once) at h) in
        subst (λ a. IsSound a.0.store) (sym (some_inv out))
          ((process-Extends caller context _ t id done).0.sound sound)
  ]

  -- A pass of either worker keeps the storages sound.
  pub execute_store-IsSound :
      (s : RouteState) (answer : RouteState × Bool)
      → execute_store caller context s ≡ some answer
      → IsSound s.domain_store
      → IsSound answer.0.domain_store
  unfolding execute_store
  execute_store-IsSound s answer h sound =
      let (t, done, out) =
        >>=-eq-some (Store.execute_once caller (capability_insert s.queues) context (store_view s))
          (λ t. some (with_store s t.0, t.1)) h in
      subst (λ a. IsSound a.0.domain_store) (sym (some_inv out))
        (store_once-IsSound (capability_insert s.queues) (store_view s) t done sound)

  pub execute_capability-IsSound :
      (s : RouteState) (answer : RouteState × Bool)
      → execute_capability caller context s ≡ some answer
      → IsSound s.domain_store
      → IsSound answer.0.domain_store
  unfolding execute_capability
  execute_capability-IsSound s answer h sound =
      let (t, done, out) =
        >>=-eq-some (Capability.execute_once caller context (capability_view s))
          (λ t. some (with_capability s t.0, t.1)) h in
      subst (λ a. IsSound a.0.domain_store) (sym (some_inv out))
        (capability_once-IsSound (capability_view s) t done sound)
