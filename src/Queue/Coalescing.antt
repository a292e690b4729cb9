-- ===== src/Queue/Coalescing.antt =====
-- `CoalescingPolicy` of core/common/include/QueuePolicy.hpp, by the keys of the events.
use printer_fw.Base.{
  ℕ, ◌≡◌, refl, sym, ◌≢◌, Bool, not, List, [], ◌∷◌, ◌++◌, ◌==◌, arith, All, select, All-append,
  select-append, append-nil,
}
use printer_fw.Queue.Policies.{coalescing_insert, erase_first}

module _ {A : Type 0} (key : A → ℕ) where
  abbrev pub Fresh : ℕ → List A → Type 0
  Fresh k = All (λ x. key x ≢ k)

  -- No two events have one key.
  abbrev pub Distinct : List A → Type 0
  Distinct [] = Unit
  Distinct (x ∷ xs) = Fresh (key x) xs × Distinct xs

  erase_first-All :
      (P : A → Type 0) (p : A → Bool) (xs : List A) → All P xs → All P (erase_first p xs)
  unfolding erase_first
  erase_first-All P p [] h = tt
  erase_first-All P p (x ∷ xs) h = ground (arith, erase_first-All P p xs h.1)

  erase_first-Distinct : (p : A → Bool) (xs : List A) → Distinct xs → Distinct (erase_first p xs)
  unfolding erase_first
  erase_first-Distinct p [] d = tt
  erase_first-Distinct p (x ∷ xs) d =
      ground (arith, erase_first-Distinct p xs d.1, erase_first-All (λ y. key y ≢ key x) p xs d.0)

  erase_first-Fresh :
      (k : ℕ) (xs : List A) → Distinct xs → Fresh k (erase_first (λ e. key e == k) xs)
  unfolding erase_first
  erase_first-Fresh k [] d = tt
  erase_first-Fresh k (x ∷ xs) d = ground (arith, erase_first-Fresh k xs d.1)

  Distinct-snoc : (xs : List A) (e : A) → Distinct xs → Fresh (key e) xs → Distinct (xs ++ e ∷ [])
  Distinct-snoc [] e d f = (tt, tt)
  Distinct-snoc (x ∷ xs) e d f = (
    All-append (λ y. key y ≢ key x) xs (e ∷ []) d.0 ((λ h. f.0 (sym h)), tt),
    Distinct-snoc xs e d.1 f.1,
  )

  -- If no two events of the queue have one key, none have after an insertion.
  coalescing_insert-Distinct :
      (events : List A) (event : A)
      → Distinct events
      → Distinct (coalescing_insert key events event)
  unfolding coalescing_insert
  coalescing_insert-Distinct events event d =
      Distinct-snoc _ event (erase_first-Distinct _ events d)
        (erase_first-Fresh (key event) events d)

  select_erased :
      (k : ℕ) (xs : List A)
      → select (λ e. not (key e == k)) (erase_first (λ e. key e == k) xs)
        ≡ select (λ e. not (key e == k)) xs
  unfolding select erase_first
  select_erased k [] = refl
  select_erased k (x ∷ xs) = ground (arith, select_erased k xs)

  select-Fresh : (k : ℕ) (xs : List A) → Fresh k xs → select (λ e. key e == k) xs ≡ []
  unfolding select
  select-Fresh k [] f = refl
  select-Fresh k (x ∷ xs) f = ground (arith, select-Fresh k xs f.1)

  -- If no two events of the queue have one key, the new event is afterwards the only one of its
  -- key, and the events of the other keys are as before, in their order.
  pub select-coalescing_insert :
      (events : List A) (event : A)
      → Distinct events
      → (select (λ e. key e == key event) (coalescing_insert key events event) ≡ event ∷ [])
        × (select (λ e. not (key e == key event)) (coalescing_insert key events event)
            ≡ select (λ e. not (key e == key event)) events)
  unfolding coalescing_insert select
  select-coalescing_insert events event d =
      let kept = erase_first (λ e. key e == key event) events in
      (
        rw
            (
              select-append (λ e. key e == key event) kept (event ∷ []),
              select-Fresh (key event) kept (erase_first-Fresh (key event) events d),
            )
            (ground arith),
        rw
            (
              select-append (λ e. not (key e == key event)) kept (event ∷ []),
              select_erased (key event) events,
            )
            (ground (arith, append-nil (select (λ e. not (key e == key event)) events))),
      )
