-- ===== src/Queue/Priority.antt =====
-- `PriorityPolicy` of core/common/include/QueuePolicy.hpp, by the priorities of the events.
use printer_fw.Base.{
  ℕ, ◌≤◌, ◌≡◌, refl, Bool, false, List, [], ◌∷◌, ◌++◌, ◌==◌, arith, All, select, suc, length,
}
use printer_fw.Queue.Policies.{priority_insert, erase_first}

module _ {A : Type 0} (priority : A → ℕ) where
  abbrev pub Sorted : List A → Type 0
  Sorted [] = Unit
  Sorted (x ∷ xs) = All (λ y. priority y ≤ priority x) xs × Sorted xs

  pub priority_insert-All :
      (P : A → Type 0) (xs : List A) (e : A)
      → All P xs
      → P e
      → All P (priority_insert priority xs e)
  unfolding priority_insert
  priority_insert-All P [] e h p = (p, tt)
  priority_insert-All P (x ∷ xs) e h p = ground (arith, priority_insert-All P xs e h.1 p)

  All-below :
      (n m : ℕ) (xs : List A) → All (λ y. priority y ≤ n) xs → n ≤ m → All (λ y. priority y ≤ m) xs
  All-below n m [] h le = tt
  All-below n m (x ∷ xs) h le = (omega arith, All-below n m xs h.1 le)

  -- A queue in falling order of priority is so after an insertion.
  pub priority_insert-Sorted :
      (xs : List A) (e : A) → Sorted xs → Sorted (priority_insert priority xs e)
  unfolding priority_insert
  priority_insert-Sorted [] e s = (tt, tt)
  priority_insert-Sorted (x ∷ xs) e s = ground (
    arith,
    priority_insert-Sorted xs e s.1,
    All-below (priority x) (priority e) xs s.0,
    priority_insert-All (λ y. priority y ≤ priority x) xs e s.0,
  )

  select_lower :
      (n m : ℕ) (xs : List A)
      → All (λ y. priority y ≤ n) xs
      → suc n ≤ m
      → select (λ y. priority y == m) xs ≡ []
  unfolding select
  select_lower n m [] h lt = refl
  select_lower n m (x ∷ xs) h lt = ground (arith, select_lower n m xs h.1 lt)

  -- In a queue in falling order of priority, the events of the new event's priority are afterwards
  -- those that were there, in their order, and then the new one.
  select-priority_insert_self :
      (xs : List A) (e : A)
      → Sorted xs
      → select (λ y. priority y == priority e) (priority_insert priority xs e)
        ≡ select (λ y. priority y == priority e) xs ++ e ∷ []
  unfolding priority_insert select
  select-priority_insert_self [] e s = ground arith
  select-priority_insert_self (x ∷ xs) e s =
      ground
        (arith, select-priority_insert_self xs e s.1, select_lower (priority x) (priority e) xs s.0)

  -- The events of any other priority than the new event's are as before, in their order.
  select-priority_insert_ne :
      (p : ℕ) (xs : List A) (e : A)
      → (priority e == p) ≡ false
      → select (λ y. priority y == p) (priority_insert priority xs e)
        ≡ select (λ y. priority y == p) xs
  unfolding priority_insert select
  select-priority_insert_ne p [] e h = ground arith
  select-priority_insert_ne p (x ∷ xs) e h = ground (arith, select-priority_insert_ne p xs e h)

  pub erase_first-Sorted : (p : A → Bool) (xs : List A) → Sorted xs → Sorted (erase_first p xs)
  unfolding erase_first
  erase_first-Sorted p [] s = tt
  erase_first-Sorted p (x ∷ xs) s =
      ground (arith, erase_first-Sorted p xs s.1, erase_first_lower p (priority x) xs s.0)
    where
      erase_first_lower :
          (p : A → Bool) (n : ℕ) (xs : List A)
          → All (λ y. priority y ≤ n) xs
          → All (λ y. priority y ≤ n) (erase_first p xs)
      erase_first_lower p n [] h = tt
      erase_first_lower p n (y ∷ ys) h = ground (arith, erase_first_lower p n ys h.1)

  pub length-priority_insert :
      (xs : List A) (e : A) → length (priority_insert priority xs e) ≡ suc (length xs)
  unfolding priority_insert
  length-priority_insert [] e = refl
  length-priority_insert (x ∷ xs) e = ground (arith, length-priority_insert xs e)
