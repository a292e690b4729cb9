-- ===== src/Value/Diff.antt =====
-- `IdentityDiff` of products/common/CommonDiffFunctions.hpp.
use printer_fw.Base.{
  ℕ, zero, suc, ◌≡◌, ◌↔◌, ◌≢◌, ite, Bool, true, false, not, ◌&&◌, Option, none, some, List, [], ◌∷◌,
  arith, refl, ◌==◌, if◌then◌else◌, length, take, ◌≤◌, ap, inl, inr, Bool-cases, if_pos, if_neg,
  ==_iff, ℕ_discrete, subst, sym, ◌⊎◌,
}
use printer_fw.Value.{
  ValueType, k_bool, k_int32, k_uint32, k_int64, k_uint64, k_double, k_string, k_binary, k_struct,
  k_array, k_object, ValueType-discrete, BytesPointer, Memory, RimValue, create_binary, read_bytes,
}
use printer_fw.Value.Double.{double_ne}
use printer_fw.Value.Reads.{
  member_b, member_i32, member_u32, member_i64, member_u64, member_d, member_str, member_bytes,
  Matches, IsWellTyped,
}

abbrev pub bool_ne : Bool → Bool → Bool
bool_ne true y = not y
bool_ne false y = y

abbrev pub nat_ne : ℕ → ℕ → Bool
nat_ne x y = not (x == y)

unfoldable pub bytes_eq : List ℕ → List ℕ → Bool
bytes_eq [] [] = true
bytes_eq (x ∷ xs) (y ∷ ys) = x == y && bytes_eq xs ys
bytes_eq _ _ = false

-- A comparison of two values that may be undefined.
abbrev pub both : {A : Type 0} → (A → A → Bool) → Option A → Option A → Option Bool
both ne (some x) (some y) = some (ne x y)
both ne _ _ = none

-- memcmp(p, q, n) != 0
unfoldable pub memory_ne : Memory → BytesPointer → BytesPointer → ℕ → Option Bool
unfolding bytes_eq read_bytes
memory_ne memory p q n =
    both (λ x y. not (bytes_eq x y)) (read_bytes memory p n) (read_bytes memory q n)

unfoldable pub binary_diff :
    Memory → RimValue → RimValue → Option BytesPointer → Option BytesPointer → Option Bool
unfolding memory_ne
binary_diff memory lhs rhs (some p) (some q) =
    if lhs.size == rhs.size then memory_ne memory p q lhs.size else some true
binary_diff memory lhs rhs _ _ = if lhs.size == rhs.size then none else some true

-- The `switch`. Strings are compared by their addresses.
unfoldable pub diff_by_type : Memory → ValueType → RimValue → RimValue → Option Bool
unfolding double_ne binary_diff
diff_by_type memory k_bool l r = both bool_ne (member_b l.value) (member_b r.value)
diff_by_type memory k_int32 l r = both nat_ne (member_i32 l.value) (member_i32 r.value)
diff_by_type memory k_uint32 l r = both nat_ne (member_u32 l.value) (member_u32 r.value)
diff_by_type memory k_int64 l r = both nat_ne (member_i64 l.value) (member_i64 r.value)
diff_by_type memory k_uint64 l r = both nat_ne (member_u64 l.value) (member_u64 r.value)
diff_by_type memory k_double l r = both double_ne (member_d l.value) (member_d r.value)
diff_by_type memory k_string l r = both nat_ne (member_str l.value) (member_str r.value)
diff_by_type memory k_binary l r =
    binary_diff memory l r (member_bytes l.value) (member_bytes r.value)
diff_by_type memory k_struct l r = some true
diff_by_type memory k_array l r = some true
diff_by_type memory k_object l r = some true

unfoldable pub identity_diff : Memory → RimValue → RimValue → Option Bool
unfolding diff_by_type ValueType-discrete
identity_diff memory lhs rhs =
    ite (ValueType-discrete lhs.type rhs.type) (diff_by_type memory lhs.type lhs rhs) (some true)

ne_false : (n k : ℕ) → n ≢ k → (n == k) ≡ false
ne_false n k h = ground arith

pub bytes_eq_iff : (xs ys : List ℕ) → (bytes_eq xs ys ≡ true) ↔ (xs ≡ ys)
unfolding bytes_eq
bytes_eq_iff [] [] = (λ h. refl, λ h. refl)
bytes_eq_iff [] (y ∷ ys) = (λ h. cc, λ h. cc)
bytes_eq_iff (x ∷ xs) [] = (λ h. cc, λ h. cc)
bytes_eq_iff (x ∷ xs) (y ∷ ys) = ground (arith, bytes_eq_iff xs ys)

length-take : (n : ℕ) (xs : List ℕ) → n ≤ length xs → length (take n xs) ≡ n
length-take zero xs h = refl
length-take (suc n) [] h = absurd (omega arith)
length-take (suc n) (x ∷ xs) h = omega (arith, length-take n xs (omega arith))

pub length-read_bytes :
    (memory : Memory) (p : BytesPointer) (n : ℕ) {x : List ℕ}
    → read_bytes memory p n ≡ some x
    → length x ≡ n
unfolding read_bytes
length-read_bytes memory p n {x} h = ground (arith, length-take n (memory p))

memory_ne-found :
    (memory : Memory) (p q : BytesPointer) (n : ℕ) {x y : List ℕ}
    → read_bytes memory p n ≡ some x
    → read_bytes memory q n ≡ some y
    → memory_ne memory p q n ≡ some (not (bytes_eq x y))
unfolding memory_ne
memory_ne-found memory p q n hp hq = rw (hp, hq)

-- What the comparison of two binary values comes to, where both can be read.
pub identity_diff-create_binary :
    (memory : Memory) (p q : BytesPointer) (n k : ℕ) {x y : List ℕ}
    → read_bytes memory p n ≡ some x
    → read_bytes memory q k ≡ some y
    → identity_diff memory (create_binary p n) (create_binary q k)
      ≡ (if n == k then some (not (bytes_eq x y)) else some true)
unfolding identity_diff
identity_diff-create_binary memory p q n k {x} {y} hp hq = elim (ℕ_discrete n k) [
  | yes e ↦ rw ((==_iff n k).1 e) (memory_ne-found memory p q n hp (rw (← e) at hq))
  | no n≢k ↦ rw (ne_false n k n≢k) refl
]

not_eq_iff : (x y : List ℕ) → (some (not (bytes_eq x y)) ≡ some false) ↔ (x ≡ y)
not_eq_iff x y = elim (Bool-cases (bytes_eq x y)) [
  | inl e ↦ rw e (λ h. (bytes_eq_iff x y).0 e, λ h. refl)
  | inr e ↦ rw e (λ h. cc, λ h. cc ((bytes_eq_iff x y).1 h))
]

-- For binary values that can be read, no change is reported exactly when the two hold the same
-- bytes.
identity_diff-binary :
    (memory : Memory) (p q : BytesPointer) (n k : ℕ) (x y : List ℕ)
    → read_bytes memory p n ≡ some x
    → read_bytes memory q k ≡ some y
    → (identity_diff memory (create_binary p n) (create_binary q k) ≡ some false) ↔ (x ≡ y)
identity_diff-binary memory p q n k x y hp hq =
    rw (identity_diff-create_binary memory p q n k hp hq) (elim (ℕ_discrete n k) [
      | yes e ↦ rw ((==_iff n k).1 e) (not_eq_iff x y)
      | no n≢k ↦ rw (ne_false n k n≢k) (λ h. cc, λ h. absurd (n≢k (same_length h)))
    ])
  where
    same_length : x ≡ y → n ≡ k
    same_length h =
        omega (arith, length-read_bytes memory p n hp, length-read_bytes memory q k hq, ap length h)

-- The types that `IdentityDiff` compares by `!=`, with doubles left out.
abbrev pub IsWord : ValueType → Type 0
IsWord k_double = ⊥
IsWord k_binary = ⊥
IsWord k_struct = ⊥
IsWord k_array = ⊥
IsWord k_object = ⊥
IsWord _ = Unit

diff_by_type-word :
    (memory : Memory) (t : ValueType) (v w : RimValue)
    → IsWord t
    → Matches t v.value
    → Matches t w.value
    → (diff_by_type memory t v w ≡ some false) ↔ (v.value ≡ w.value)
unfolding diff_by_type
diff_by_type-word memory k_bool v w _ h k = ground arith
diff_by_type-word memory _ v w c h k = ground arith

halves : {A B C : Type 0} → A ↔ B → C → A ↔ (C × B)
halves f c = (λ a. (c, f.0 a), λ h. f.1 h.1)

-- Two well-typed values of such types are reported as unchanged exactly when they have the same
-- type and the same content.
pub identity_diff-word :
    (memory : Memory) (v w : RimValue)
    → IsWord v.type
    → IsWellTyped v
    → IsWellTyped w
    → (identity_diff memory v w ≡ some false) ↔ ((v.type ≡ w.type) × (v.value ≡ w.value))
unfolding identity_diff
identity_diff-word memory v w c h k = elim (ValueType-discrete v.type w.type) [
  | yes e ↦ rw (if_pos _ e) (halves (diff_by_type-word memory v.type v w c h (rw (← e) at k)) e)
  | no n ↦ rw (if_neg _ n) (λ h. cc, λ h. absurd (n h.0))
]

both_defined :
    {A : Type 0} (ne : A → A → Bool) (o q : Option A) {x y : A}
    → o ≡ some x
    → q ≡ some y
    → (both ne o q ≡ some true) ⊎ (both ne o q ≡ some false)
both_defined ne o q {x} {y} e f =
    rw (e, f) (elim (Bool-cases (ne x y)) [ inl t ↦ inl (ap some t) | inr t ↦ inr (ap some t) ])

diff_by_type-defined :
    (memory : Memory) (t : ValueType) (v w : RimValue)
    → IsWord t
    → Matches t v.value
    → Matches t w.value
    → (diff_by_type memory t v w ≡ some true) ⊎ (diff_by_type memory t v w ≡ some false)
unfolding diff_by_type
diff_by_type-defined memory k_bool v w _ h k =
    both_defined bool_ne (member_b v.value) (member_b w.value) (ap member_b h.1) (ap member_b k.1)
diff_by_type-defined memory k_int32 v w _ h k =
    both_defined nat_ne _ _ (ap member_i32 h.1) (ap member_i32 k.1)
diff_by_type-defined memory k_uint32 v w _ h k =
    both_defined nat_ne _ _ (ap member_u32 h.1) (ap member_u32 k.1)
diff_by_type-defined memory k_int64 v w _ h k =
    both_defined nat_ne _ _ (ap member_i64 h.1) (ap member_i64 k.1)
diff_by_type-defined memory k_uint64 v w _ h k =
    both_defined nat_ne _ _ (ap member_u64 h.1) (ap member_u64 k.1)
diff_by_type-defined memory k_string v w _ h k =
    both_defined nat_ne _ _ (ap member_str h.1) (ap member_str k.1)
diff_by_type-defined memory k_double v w c h k = absurd c
diff_by_type-defined memory k_binary v w c h k = absurd c
diff_by_type-defined memory k_struct v w c h k = absurd c
diff_by_type-defined memory k_array v w c h k = absurd c
diff_by_type-defined memory k_object v w c h k = absurd c

-- One type and one content.
abbrev pub SameContent : RimValue → RimValue → Type 0
SameContent v w = (v.type ≡ w.type) × (v.value ≡ w.value)

-- The comparison of a well-typed value with a well-typed one that is no double, binary or compound
-- is defined, and reports no change exactly when the type and the content are the same.
pub identity_diff_cases :
    (memory : Memory) (v w : RimValue)
    → IsWord w.type
    → IsWellTyped v
    → IsWellTyped w
    → ((identity_diff memory v w ≡ some false) × SameContent v w)
      ⊎ ((identity_diff memory v w ≡ some true) × (¬ SameContent v w))
unfolding identity_diff
identity_diff_cases memory v w c h k = elim (ValueType-discrete v.type w.type) [
  | yes e ↦
      let c' = subst IsWord (sym e) c in
      let k' = subst (λ t. Matches t w.value) (sym e) k in
      let spec = diff_by_type-word memory v.type v w c' h k' in
      elim (diff_by_type-defined memory v.type v w c' h k') [
        | inl changed ↦ rw (if_pos _ e) (inr (changed, λ same. cc (spec.1 same.1)))
        | inr same ↦ rw (if_pos _ e) (inl (same, (e, spec.0 same)))
      ]
  | no n ↦ rw (if_neg _ n) (inr (refl, λ h. n h.0))
]
