-- ===== src/PrinterA/Typed.antt =====
-- The callbacks of products/printer_a: PrinterANormalizationFunctions.cpp,
-- PrinterACapabilityBuilders.cpp and PrinterAFacadeBuilders.cpp.
use Prim.Native.String.{String}
use printer_fw.Base.{
  ℕ, ◌≡◌, ◌∙◌, refl, ap, sym, subst, Bool, false, some, >>=-eq-some, some_inv, if_pos, not, ◌&&◌,
  ◌==◌,
}
use printer_fw.Value.{
  Memory, ValueType, k_double, RimValue, create_bool, create_int32, identity_store, d,
}
use printer_fw.Value.Reads.{Matches, IsWellTyped, get_double, get_value, found}
use printer_fw.Snapshot.{try_get_bool, try_get_int32, try_get_double}
use printer_fw.Product.{DomainDefinition, NormalizeCallback, RimSnapshot}
use printer_fw.PrinterA.{
  temperature_sensor_a, humidity_sensor, upper_door_open, right_door_open, left_door_open,
  environment, print_ready, kelvin_offset, environment_level, identity_normalize, normalize_binary,
  normalize_temperature_sensor_a, build_environment_capability, build_print_ready_capability,
  build_environment_ready_facade, build_operation_ready_facade,
}
use printer_fw.PrinterA.Tables.{row, printer_a}
use printer_fw.Typed.{ItemIsTyped, ProductIsTyped}

-- A builder's answer is one of these values.
bool_typed : (x : Bool) (v : RimValue) → some (create_bool x) ≡ some v → IsWellTyped v
bool_typed x v e = subst IsWellTyped (sym (some_inv e)) (x, refl)

int32_typed : (x : ℕ) (v : RimValue) → some (create_int32 x) ≡ some v → IsWellTyped v
int32_typed x v e = subst IsWellTyped (sym (some_inv e)) (x, refl)

identity_store-stored :
    (c v r : RimValue) (t : ValueType)
    → IsWellTyped v
    → v.type ≡ t
    → identity_store c v ≡ some r
    → Matches t r.value
unfolding identity_store
identity_store-stored c v r t w same e =
    subst (λ x. Matches t x.value) (sym (some_inv e)) (subst (λ u. Matches u v.value) same w)

-- A row whose values are taken as they are.
row-ItemIsTyped :
    (id : ℕ) (name : String) (domain : DomainDefinition) (route : ℕ) (type : ValueType)
    (initial : RimValue) (normalize : NormalizeCallback)
    → ((v : RimValue) → normalize v ≡ some v)
    → ItemIsTyped (row id name domain route type initial normalize)
row-ItemIsTyped id name domain route type initial normalize same = record {
  normalized = λ v r w t e.
      let made = some_inv (sym (same v) ∙ e) in
      (subst IsWellTyped (sym made) w, ap (λ x. x.type) made ∙ t);
  stored = λ c v r w t e. identity_store-stored c v r type w t e;
}

pub get_double-found :
    (v : RimValue) (x : ℕ) → v.type ≡ k_double → v.value ≡ d x → get_double v ≡ found x
unfolding get_double get_value
get_double-found v x t at_x = rw (if_pos _ t, at_x) refl

normalize_temperature_sensor_a-typed :
    (add : ℕ → ℕ → ℕ) (v r : RimValue)
    → IsWellTyped v
    → v.type ≡ k_double
    → normalize_temperature_sensor_a add v ≡ some r
    → IsWellTyped r × (r.type ≡ k_double)
unfolding normalize_temperature_sensor_a
normalize_temperature_sensor_a-typed add v r w t e =
    let (x, at_x) = subst (λ u. Matches u v.value) t w in
    let made = some_inv (rw (get_double-found v x t at_x, normalize_temperature_sensor_a) at e) in
    (subst IsWellTyped (sym made) (add x kelvin_offset, refl), ap (λ y. y.type) made)

module _ (memory : Memory) (snapshot : RimSnapshot) (v : RimValue) where
  environment-typed : build_environment_capability memory snapshot ≡ some v → IsWellTyped v
  unfolding build_environment_capability
  environment-typed e =
      let (temperature, _, rest) =
        >>=-eq-some (try_get_double snapshot temperature_sensor_a 0) _ e in
      let (humidity, _, out) = >>=-eq-some (try_get_double snapshot humidity_sensor 0) _ rest in
      int32_typed (environment_level temperature humidity) v out

  print_ready-typed : build_print_ready_capability memory snapshot ≡ some v → IsWellTyped v
  unfolding build_print_ready_capability
  print_ready-typed e =
      let (upper, _, first) = >>=-eq-some (try_get_bool snapshot upper_door_open false) _ e in
      let (right, _, second) = >>=-eq-some (try_get_bool snapshot right_door_open false) _ first in
      let (left, _, out) = >>=-eq-some (try_get_bool snapshot left_door_open false) _ second in
      bool_typed (not upper && not right && not left) v out

  environment_ready-typed : build_environment_ready_facade memory snapshot ≡ some v → IsWellTyped v
  unfolding build_environment_ready_facade
  environment_ready-typed e =
      let (level, _, out) = >>=-eq-some (try_get_int32 snapshot environment 0) _ e in
      bool_typed (not (level == 2)) v out

  operation_ready-typed : build_operation_ready_facade memory snapshot ≡ some v → IsWellTyped v
  unfolding build_operation_ready_facade
  operation_ready-typed e =
      let (level, _, rest) = >>=-eq-some (try_get_int32 snapshot environment 0) _ e in
      let (ready, _, out) = >>=-eq-some (try_get_bool snapshot print_ready false) _ rest in
      bool_typed (not (level == 2) && ready) v out

-- Whatever the addition of doubles is: the callbacks of printer_a make well-typed values of the
-- types that its tables name. Normalizing a well-typed value of an item's raw type gives one of the
-- set type, storing one of the set type gives the content of one of the store type, and what a
-- builder of a capability or of a facade answers is well typed, whatever the snapshot holds.
pub printer_a-ProductIsTyped : (add : ℕ → ℕ → ℕ) → ProductIsTyped (printer_a add)
unfolding identity_normalize normalize_binary
printer_a-ProductIsTyped add = record {
  items = (
    record {
      normalized = normalize_temperature_sensor_a-typed add;
      stored = λ c v r w t e. identity_store-stored c v r k_double w t e;
    },
    (
      row-ItemIsTyped _ _ _ _ _ _ _ (λ v. refl),
      (
        row-ItemIsTyped _ _ _ _ _ _ _ (λ v. refl),
        (
          row-ItemIsTyped _ _ _ _ _ _ _ (λ v. refl),
          (
            row-ItemIsTyped _ _ _ _ _ _ _ (λ v. refl),
            (
              row-ItemIsTyped _ _ _ _ _ _ _ (λ v. refl),
              (
                row-ItemIsTyped _ _ _ _ _ _ _ (λ v. refl),
                (
                  row-ItemIsTyped _ _ _ _ _ _ _ (λ v. refl),
                  (
                    row-ItemIsTyped _ _ _ _ _ _ _ (λ v. refl),
                    (
                      row-ItemIsTyped _ _ _ _ _ _ _ (λ v. refl),
                      (row-ItemIsTyped _ _ _ _ _ _ _ (λ v. refl), tt),
                    ),
                  ),
                ),
              ),
            ),
          ),
        ),
      ),
    ),
  );
  capabilities = (environment-typed, (print_ready-typed, tt));
  facades = (environment_ready-typed, (operation_ready-typed, tt));
}
