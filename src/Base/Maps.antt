-- ===== src/Base/Maps.antt =====
-- `std::unordered_map` as an association list. The order of the entries stands for the order of
-- iteration, which the C++ standard leaves open.
use Prim.Native.Nat.{ℕ, ◌+◌, ◌≤◌}
use mathlib.Core.Path.{◌≡◌, refl, subst, sym}
use mathlib.Core.Logic.{◌≢◌, inl, inr}
use mathlib.Core.List.{List, [], ◌∷◌}
use mathlib.Core.Option.{Option, none, some}
use native.Mathlib.Omega.{arith}
use printer_fw.Base.Tests.{◌==◌, if◌then◌else◌, Bool-cases, some_inv}
use printer_fw.Base.Lists.{length, All}

module _ {ℓ} {V : Type ℓ} where
  -- m.find(k)
  unfoldable pub find : ℕ → List (ℕ × V) → Option V
  find k [] = none
  find k ((j, v) ∷ m) = if j == k then some v else find k m

  -- m[k] = v
  unfoldable pub put : ℕ → V → List (ℕ × V) → List (ℕ × V)
  put k v [] = (k, v) ∷ []
  put k v ((j, w) ∷ m) = if j == k then (j, v) ∷ m else (j, w) ∷ put k v m

  -- m.emplace(k, v): an entry that is there stays.
  unfoldable pub emplace : ℕ → V → List (ℕ × V) → List (ℕ × V)
  emplace k v [] = (k, v) ∷ []
  emplace k v ((j, w) ∷ m) = if j == k then (j, w) ∷ m else (j, w) ∷ emplace k v m

  -- m.erase(k)
  unfoldable pub erase : ℕ → List (ℕ × V) → List (ℕ × V)
  erase k [] = []
  erase k ((j, w) ∷ m) = let rest = erase k m in if j == k then rest else (j, w) ∷ rest

  unfoldable pub values : List (ℕ × V) → List V
  values [] = []
  values ((j, v) ∷ m) = v ∷ values m

  unfoldable pub keys : List (ℕ × V) → List ℕ
  keys [] = []
  keys ((j, v) ∷ m) = j ∷ keys m

  pub find-put :
      (k j : ℕ) (v : V) (m : List (ℕ × V))
      → find j (put k v m) ≡ (if k == j then some v else find j m)
  unfolding find put
  find-put k j v [] = refl
  find-put k j v ((i, w) ∷ m) = ground (arith, find-put k j v m)

  pub find-put_self : (k : ℕ) (v : V) (m : List (ℕ × V)) → find k (put k v m) ≡ some v
  find-put_self k v m = ground (arith, find-put k k v m)

  pub find-put_ne : (k j : ℕ) (v : V) (m : List (ℕ × V)) → k ≢ j → find j (put k v m) ≡ find j m
  find-put_ne k j v m h = ground (arith, find-put k j v m)

  pub find-erase :
      (k j : ℕ) (m : List (ℕ × V)) → find j (erase k m) ≡ (if k == j then none else find j m)
  unfolding find erase
  find-erase k j [] = ground arith
  find-erase k j ((i, w) ∷ m) = ground (arith, find-erase k j m)

  pub find-erase_ne : (k j : ℕ) (m : List (ℕ × V)) → k ≢ j → find j (erase k m) ≡ find j m
  find-erase_ne k j m h = ground (arith, find-erase k j m)

  pub find-emplace_ne :
      (k j : ℕ) (v : V) (m : List (ℕ × V)) → k ≢ j → find j (emplace k v m) ≡ find j m
  unfolding find emplace
  find-emplace_ne k j v [] h = ground arith
  find-emplace_ne k j v ((i, w) ∷ m) h = ground (arith, find-emplace_ne k j v m)

  pub find-emplace_new :
      (k : ℕ) (v : V) (m : List (ℕ × V)) → find k m ≡ none → find k (emplace k v m) ≡ some v
  unfolding find emplace
  find-emplace_new k v [] h = ground arith
  find-emplace_new k v ((i, w) ∷ m) h = ground (arith, find-emplace_new k v m)

  pub find-emplace_old :
      (k : ℕ) (v w : V) (m : List (ℕ × V)) → find k m ≡ some w → find k (emplace k v m) ≡ some w
  unfolding find emplace
  find-emplace_old k v w [] h = ground arith
  find-emplace_old k v w ((i, u) ∷ m) h = ground (arith, find-emplace_old k v w m)

  -- An update adds one entry at most.
  pub length-put-le : (k : ℕ) (v : V) (m : List (ℕ × V)) → length (put k v m) ≤ length m + 1
  unfolding put
  length-put-le k v [] = omega arith
  length-put-le k v ((i, w) ∷ m) = ground (arith, length-put-le k v m)

  pub values-put-All :
      (P : V → Type 0) (k : ℕ) (v : V) (m : List (ℕ × V))
      → P v
      → All P (values m)
      → All P (values (put k v m))
  unfolding put values
  values-put-All P k v [] p h = (p, tt)
  values-put-All P k v ((i, w) ∷ m) p h = ground (arith, values-put-All P k v m p h.1)

  pub values-erase-All :
      (P : V → Type 0) (k : ℕ) (m : List (ℕ × V)) → All P (values m) → All P (values (erase k m))
  unfolding erase values
  values-erase-All P k [] h = h
  values-erase-All P k ((i, w) ∷ m) h = ground (arith, values-erase-All P k m h.1)

  pub find-All :
      (P : V → Type 0) (k : ℕ) (m : List (ℕ × V)) {v : V}
      → All P (values m)
      → find k m ≡ some v
      → P v
  unfolding find values
  find-All P k [] h e = cc
  find-All P k ((i, w) ∷ m) {v} h e = elim (Bool-cases (i == k)) [
    | inl hit ↦ subst P (ground arith) h.0
    | inr miss ↦ find-All P k m h.1 (ground arith)
  ]

module _ {V : Type 0} (P : V → Type 0) where
  abbrev pub AllValues : List (ℕ × V) → Type 0
  AllValues m = All (λ e. P e.1) m

  pub AllValues-put : (k : ℕ) (v : V) (m : List (ℕ × V)) → P v → AllValues m → AllValues (put k v m)
  unfolding put
  AllValues-put k v [] p h = (p, tt)
  AllValues-put k v ((j, w) ∷ m) p h = elim (Bool-cases (j == k)) [
    | inl e ↦ rw e (p, h.1)
    | inr e ↦ rw e (h.0, AllValues-put k v m p h.1)
  ]

  pub AllValues-find : (k : ℕ) (v : V) (m : List (ℕ × V)) → find k m ≡ some v → AllValues m → P v
  unfolding find
  AllValues-find k v [] e h = cc
  AllValues-find k v ((j, w) ∷ m) e h = elim (Bool-cases (j == k)) [
    | inl hit ↦ subst P (sym (some_inv (rw hit at e))) h.0
    | inr miss ↦ AllValues-find k v m (rw miss at e) h.1
  ]

  pub All-values : (m : List (ℕ × V)) → AllValues m → All P (values m)
  unfolding values
  All-values [] h = tt
  All-values ((j, v) ∷ m) h = (h.0, All-values m h.1)
