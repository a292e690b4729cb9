-- ===== src/PrinterA/Rows.antt =====
-- The store and the comparison of the rows of products/printer_a (DataItem/PrinterADataItems.hpp).
use Prim.Native.String.{String}
use printer_fw.Base.{
  ℕ, ◌≡◌, ◌≢◌, ◌∙◌, refl, sym, subst, Bool, true, false, some, All, some_inv, if_pos, if_neg, inl,
  inr, ◌⊎◌,
}
use printer_fw.Value.{
  Memory, ValueType, k_double, k_binary, ValueType-discrete, RimValue, identity_store,
}
use printer_fw.Value.Double.{double_ne}
use printer_fw.Value.Diff.{identity_diff, diff_by_type, identity_diff_cases, IsWord}
use printer_fw.Value.Reads.{Matches, IsWellTyped}
use printer_fw.Product.{DomainDefinition, NormalizeCallback}
use printer_fw.PrinterA.Tables.{row, data_items}
use printer_fw.Typed.Defined.{ItemIsDefined}

-- A value of a word type is compared with any well-typed one.
pub identity_diff-defined :
    (memory : Memory) (old v : RimValue)
    → IsWord v.type
    → IsWellTyped old
    → IsWellTyped v
    → (changed : Bool) × (identity_diff memory old v ≡ some changed)
identity_diff-defined memory old v word o w = elim (identity_diff_cases memory old v word o w) [
  | inl h ↦ (false, h.0)
  | inr h ↦ (true, h.0)
]

identity_diff-double :
    (memory : Memory) (old v : RimValue)
    → v.type ≡ k_double
    → IsWellTyped old
    → IsWellTyped v
    → (changed : Bool) × (identity_diff memory old v ≡ some changed)
unfolding identity_diff diff_by_type
identity_diff-double memory old v t o w = elim (ValueType-discrete old.type v.type) [
  | no n ↦ (true, rw (if_neg _ n) refl)
  | yes e ↦
      let (x, at_x) = subst (λ u. Matches u old.value) (e ∙ t) o in
      let (y, at_y) = subst (λ u. Matches u v.value) t w in
      (double_ne x y, rw (if_pos _ e, e ∙ t, at_x, at_y) refl)
]

identity_diff-plain :
    (memory : Memory) (old v : RimValue) (type : ValueType)
    → IsWord type ⊎ (type ≡ k_double) ⊎ (type ≡ k_binary)
    → v.type ≡ type
    → v.type ≢ k_binary
    → IsWellTyped old
    → IsWellTyped v
    → (changed : Bool) × (identity_diff memory old v ≡ some changed)
identity_diff-plain memory old v type (inl word) t plain o w =
    identity_diff-defined memory old v (subst IsWord (sym t) word) o w
identity_diff-plain memory old v type (inr (inl e)) t plain o w =
    identity_diff-double memory old v (t ∙ e) o w
identity_diff-plain memory old v type (inr (inr e)) t plain o w = absurd (plain (t ∙ e))

row-ItemIsDefined :
    (id : ℕ) (name : String) (domain : DomainDefinition) (route : ℕ) (type : ValueType)
    (initial : RimValue) (normalize : NormalizeCallback)
    → IsWord type ⊎ (type ≡ k_double) ⊎ (type ≡ k_binary)
    → ItemIsDefined (row id name domain route type initial normalize)
unfolding identity_store
row-ItemIsDefined id name domain route type initial normalize kind = record {
  kept = λ c v w t. (v, refl);
  compared = λ diff v e t w plain memory old o.
      let (changed, compared) = identity_diff-plain memory old v type kind t plain o w in
      (changed, subst (λ f. f memory old v ≡ some changed) (sym (some_inv e)) compared);
}

pub data_items-ItemIsDefined : (add : ℕ → ℕ → ℕ) → All ItemIsDefined (data_items add)
data_items-ItemIsDefined add = (
  row-ItemIsDefined _ _ _ _ _ _ _ (inr (inl refl)),
  (
    row-ItemIsDefined _ _ _ _ _ _ _ (inr (inl refl)),
    (
      row-ItemIsDefined _ _ _ _ _ _ _ (inr (inl refl)),
      (
        row-ItemIsDefined _ _ _ _ _ _ _ (inl tt),
        (
          row-ItemIsDefined _ _ _ _ _ _ _ (inl tt),
          (
            row-ItemIsDefined _ _ _ _ _ _ _ (inl tt),
            (
              row-ItemIsDefined _ _ _ _ _ _ _ (inl tt),
              (
                row-ItemIsDefined _ _ _ _ _ _ _ (inl tt),
                (
                  row-ItemIsDefined _ _ _ _ _ _ _ (inl tt),
                  (
                    row-ItemIsDefined _ _ _ _ _ _ _ (inl tt),
                    (row-ItemIsDefined _ _ _ _ _ _ _ (inr (inr refl)), tt),
                  ),
                ),
              ),
            ),
          ),
        ),
      ),
    ),
  ),
)
