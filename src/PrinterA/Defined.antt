-- ===== src/PrinterA/Defined.antt =====
-- The callbacks of products/printer_a are defined on well-typed values:
-- PrinterANormalizationFunctions.cpp, PrinterACapabilityBuilders.cpp, PrinterAFacadeBuilders.cpp.
use printer_fw.Base.{
  ℕ, ◌≡◌, refl, subst, Bool, false, Option, none, some, List, [], ◌∷◌, All, if_pos, if_neg, not,
  ◌&&◌, ◌==◌, Bool-cases, inl, inr,
}
use printer_fw.Value.{
  Memory, ValueType, k_bool, k_int32, k_double, ValueType-discrete, RimValue, RimDataItem,
  RimValueStorage, create_bool, create_int32, create_double, b, i32, d,
}
use printer_fw.Value.Diff.{identity_diff}
use printer_fw.Value.Reads
use printer_fw.Value.Reads.{Matches, IsWellTyped, get_value}
use printer_fw.Snapshot
use printer_fw.Snapshot.{find_current, try_get, try_get_bool, try_get_int32, try_get_double}
use printer_fw.Store.Settle.{CurrentIsWellTyped}
use printer_fw.Product.{RimSnapshot, BuildCallback}
use printer_fw.PrinterA.{
  temperature_sensor_a, humidity_sensor, upper_door_open, right_door_open, left_door_open,
  environment, print_ready, kelvin_offset, environment_level, identity_normalize, normalize_binary,
  normalize_temperature_sensor_a, build_environment_capability, build_print_ready_capability,
  build_environment_ready_facade, build_operation_ready_facade,
}
use printer_fw.PrinterA.Tables.{printer_a}
use printer_fw.PrinterA.Rows.{identity_diff-defined, data_items-ItemIsDefined}
use printer_fw.PrinterA.Typed.{printer_a-ProductIsTyped, get_double-found}
use printer_fw.Typed.Defined.{SnapshotIsTyped, BuilderIsDefined, ProductIsDefined, IsCompared}
use printer_fw.Typed.{BuildIsTyped}

find_current-typed :
    (id : ℕ) (items : List RimDataItem)
    → All (λ item. IsWellTyped item.value) items
    → CurrentIsWellTyped (find_current id items)
unfolding find_current
find_current-typed id [] h = tt
find_current-typed id (item ∷ items) h = elim (Bool-cases (item.id == id)) [
  | inl e ↦ rw (e, find_current) h.0
  | inr e ↦ rw (e, find_current) (find_current-typed id items h.1)
]

-- A read of one member, if what is there is well typed.
read-defined :
    {A : Type 0} (expected : ValueType) (member : A → RimValueStorage)
    (get : RimValueStorage → Option A) (o : Option RimDataItem) (value : A)
    → ((v : RimValue) → Matches expected v.value → (x : A) × (v.value ≡ member x))
    → ((x : A) → get (member x) ≡ some x)
    → CurrentIsWellTyped o
    → (x : A) × (try_get (λ v. get_value expected v get) o value ≡ some x)
unfolding try_get get_value
read-defined expected member get none value typed reads w = (value, refl)
read-defined expected member get (some item) value typed reads w =
    elim (ValueType-discrete item.value.type expected) [
      | yes e ↦
          let (x, at_x) = typed item.value (subst (λ t. Matches t item.value.value) e w) in
          (x, rw (if_pos _ e, at_x, reads x) refl)
      | no n ↦ (value, rw (if_neg _ n) refl)
    ]

module _ (snapshot : RimSnapshot) (typed : SnapshotIsTyped snapshot) where
  found-typed : (id : ℕ) → CurrentIsWellTyped (Snapshot.find snapshot id)
  unfolding Snapshot.find
  found-typed id = find_current-typed id snapshot.items typed

  try_get_bool-defined :
      (id : ℕ) (value : Bool) → (x : Bool) × (try_get_bool snapshot id value ≡ some x)
  unfolding try_get_bool Reads.get_bool
  try_get_bool-defined id value =
      read-defined k_bool b Reads.member_b (Snapshot.find snapshot id) value (λ v h. h) (λ x. refl)
        (found-typed id)

  try_get_int32-defined :
      (id : ℕ) (value : ℕ) → (x : ℕ) × (try_get_int32 snapshot id value ≡ some x)
  unfolding try_get_int32 Reads.get_int32
  try_get_int32-defined id value =
      read-defined k_int32 i32 Reads.member_i32 (Snapshot.find snapshot id) value (λ v h. h)
        (λ x. refl) (found-typed id)

  try_get_double-defined :
      (id : ℕ) (value : ℕ) → (x : ℕ) × (try_get_double snapshot id value ≡ some x)
  unfolding try_get_double Reads.get_double
  try_get_double-defined id value =
      read-defined k_double d Reads.member_d (Snapshot.find snapshot id) value (λ v h. h)
        (λ x. refl) (found-typed id)

  module _ (memory : Memory) where
    environment-defined :
        (x : ℕ) × (build_environment_capability memory snapshot ≡ some (create_int32 x))
    unfolding build_environment_capability
    environment-defined =
        let (temperature, t) = try_get_double-defined temperature_sensor_a 0 in
        let (humidity, h) = try_get_double-defined humidity_sensor 0 in
        (environment_level temperature humidity, rw (t, h) refl)

    print_ready-defined :
        (x : Bool) × (build_print_ready_capability memory snapshot ≡ some (create_bool x))
    unfolding build_print_ready_capability
    print_ready-defined =
        let (upper, u) = try_get_bool-defined upper_door_open false in
        let (right, r) = try_get_bool-defined right_door_open false in
        let (left, l) = try_get_bool-defined left_door_open false in
        (not upper && not right && not left, rw (u, r, l) refl)

    environment_ready-defined :
        (x : Bool) × (build_environment_ready_facade memory snapshot ≡ some (create_bool x))
    unfolding build_environment_ready_facade
    environment_ready-defined =
        let (level, e) = try_get_int32-defined environment 0 in (not (level == 2), rw e refl)

    operation_ready-defined :
        (x : Bool) × (build_operation_ready_facade memory snapshot ≡ some (create_bool x))
    unfolding build_operation_ready_facade
    operation_ready-defined =
        let (level, e) = try_get_int32-defined environment 0 in
        let (ready, r) = try_get_bool-defined print_ready false in
        (not (level == 2) && ready, rw (e, r) refl)

int32-IsCompared : (x : ℕ) → IsCompared identity_diff (create_int32 x)
int32-IsCompared x memory old w = identity_diff-defined memory old (create_int32 x) tt w (x, refl)

bool-IsCompared : (x : Bool) → IsCompared identity_diff (create_bool x)
bool-IsCompared x memory old w = identity_diff-defined memory old (create_bool x) tt w (x, refl)

int32-BuilderIsDefined :
    (build : BuildCallback)
    → BuildIsTyped build
    → ((snapshot : RimSnapshot)
        → SnapshotIsTyped snapshot
        → (memory : Memory) → (x : ℕ) × (build memory snapshot ≡ some (create_int32 x)))
    → BuilderIsDefined build identity_diff
int32-BuilderIsDefined build typed builds = record {
  typed = typed;
  defined = λ memory snapshot given.
      let (x, built) = builds snapshot given memory in
      (create_int32 x, built, (λ e. cc), int32-IsCompared x);
}

bool-BuilderIsDefined :
    (build : BuildCallback)
    → BuildIsTyped build
    → ((snapshot : RimSnapshot)
        → SnapshotIsTyped snapshot
        → (memory : Memory) → (x : Bool) × (build memory snapshot ≡ some (create_bool x)))
    → BuilderIsDefined build identity_diff
bool-BuilderIsDefined build typed builds = record {
  typed = typed;
  defined = λ memory snapshot given.
      let (x, built) = builds snapshot given memory in
      (create_bool x, built, (λ e. cc), bool-IsCompared x);
}

normalize_temperature_sensor_a-defined :
    (add : ℕ → ℕ → ℕ) (v : RimValue)
    → IsWellTyped v
    → v.type ≡ k_double
    → (r : RimValue) × (normalize_temperature_sensor_a add v ≡ some r)
unfolding normalize_temperature_sensor_a
normalize_temperature_sensor_a-defined add v w t =
    let (x, at_x) = subst (λ u. Matches u v.value) t w in
    (
      create_double (add x kelvin_offset),
      rw (get_double-found v x t at_x, normalize_temperature_sensor_a) refl,
    )

-- Whatever the addition of doubles is: the callbacks of printer_a normalize every well-typed value
-- of an item's raw type to one of the set type, store such a value as one of the store type, and
-- compare one of those with every well-typed one unless it is binary; and whatever its builders
-- make is well typed, and from a snapshot of well-typed values each of them makes a value, which is
-- not binary and which is compared with every well-typed one.
pub printer_a-ProductIsDefined : (add : ℕ → ℕ → ℕ) → ProductIsDefined (printer_a add)
unfolding identity_normalize normalize_binary
printer_a-ProductIsDefined add =
    let typed = printer_a-ProductIsTyped add in
    record {
      typed = typed;
      items = (
        normalize_temperature_sensor_a-defined add,
        (
          (λ v w t. (v, refl)),
          (
            (λ v w t. (v, refl)),
            (
              (λ v w t. (v, refl)),
              (
                (λ v w t. (v, refl)),
                (
                  (λ v w t. (v, refl)),
                  (
                    (λ v w t. (v, refl)),
                    (
                      (λ v w t. (v, refl)),
                      ((λ v w t. (v, refl)), ((λ v w t. (v, refl)), ((λ v w t. (v, refl)), tt))),
                    ),
                  ),
                ),
              ),
            ),
          ),
        ),
      );
      kept = data_items-ItemIsDefined add;
      capabilities = (
        int32-BuilderIsDefined build_environment_capability typed.capabilities.0
            environment-defined,
        (
          bool-BuilderIsDefined build_print_ready_capability typed.capabilities.1.0
              print_ready-defined,
          tt,
        ),
      );
      facades = (
        bool-BuilderIsDefined build_environment_ready_facade typed.facades.0
            environment_ready-defined,
        (
          bool-BuilderIsDefined build_operation_ready_facade typed.facades.1.0
              operation_ready-defined,
          tt,
        ),
      );
    }
