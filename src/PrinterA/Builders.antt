-- ===== src/PrinterA/Builders.antt =====
-- What the builders of products/printer_a/CapabilityItem compute.
use printer_fw.Base.{
  ℕ, ◌≤◌, ◌≡◌, ◌↔◌, refl, subst, Bool, true, false, not, ◌&&◌, Option, none, some, arith,
}
use printer_fw.Value.{
  k_double, d, create_int32, k_bool, b, ValueType-discrete, Memory, RimDataItem, create_bool,
}
use printer_fw.Value.Double.{double_ge, is_nan, order_key}
use printer_fw.Base.{sym, ◌∙◌}
use printer_fw.Snapshot.{try_get_double}
use printer_fw.PrinterA.{temperature_sensor_a, humidity_sensor, build_environment_capability}
use printer_fw.Value.Reads
use printer_fw.Value.Reads.{Matches, IsWellTyped}
use printer_fw.Product.{RimSnapshot}
use printer_fw.Snapshot.{find, try_get, try_get_bool}
use printer_fw.PrinterA.{
  upper_door_open, right_door_open, left_door_open, environment_level, sixty, sixty_celsius,
  twenty_five, twenty_five_celsius, build_print_ready_capability,
}

-- The order of doubles.
double_ge_trans : (x y z : ℕ) → double_ge x y ≡ true → double_ge y z ≡ true → double_ge x z ≡ true
unfolding double_ge
double_ge_trans x y z h k = ground arith

abbrev pub ItemIsTyped : Option RimDataItem → Type 0
ItemIsTyped none = Unit
ItemIsTyped (some item) = IsWellTyped item.value

-- The item is there, and says that the door is open.
abbrev pub SaysOpen : Option RimDataItem → Type 0
SaysOpen none = ⊥
SaysOpen (some item) = (item.value.type ≡ k_bool) × (item.value.value ≡ b true)

-- What the variable of a builder holds after the read.
door_read :
    (o : Option RimDataItem)
    → ItemIsTyped o
    → (x : Bool) × (try_get Reads.get_bool o false ≡ some x) × ((x ≡ true) ↔ SaysOpen o)
unfolding try_get Reads.get_bool Reads.get_value
door_read none w = (false, refl, ground arith)
door_read (some item) w = elim (ValueType-discrete item.value.type k_bool) [
  | yes e ↦
      let (x, v) : Matches k_bool item.value.value = subst (λ t. Matches t item.value.value) e w in
      (x, ground arith, ground arith)
  | no n ↦ (false, ground arith, ground arith)
]

-- If the values of the three doors in the snapshot, where there are any, are well typed, then the
-- print-ready capability is built as a Boolean, which is true exactly when no door is there that
-- says it is open.
pub build_print_ready_capability_iff :
    (memory : Memory) (snapshot : RimSnapshot)
    → ItemIsTyped (find snapshot upper_door_open)
    → ItemIsTyped (find snapshot right_door_open)
    → ItemIsTyped (find snapshot left_door_open)
    → (ready : Bool) × (build_print_ready_capability memory snapshot ≡ some (create_bool ready))
      × ((ready ≡ true) ↔ (
          (¬ SaysOpen (find snapshot upper_door_open))
          × (¬ SaysOpen (find snapshot right_door_open))
          × (¬ SaysOpen (find snapshot left_door_open))))
unfolding build_print_ready_capability try_get_bool
build_print_ready_capability_iff memory snapshot upper right left =
    let (u, u_read, u_open) = door_read (find snapshot upper_door_open) upper in
    let (r, r_read, r_open) = door_read (find snapshot right_door_open) right in
    let (l, l_read, l_open) = door_read (find snapshot left_door_open) left in
    (not u && not r && not l, rw (u_read, r_read, l_read) refl, ground arith)

-- The item is there, and is a double that is at least the limit.
abbrev pub IsAtLeast : ℕ → Option RimDataItem → Type 0
IsAtLeast limit none = ⊥
IsAtLeast limit (some item) =
    (item.value.type ≡ k_double) × (x : ℕ) × (item.value.value ≡ d x) × (double_ge x limit ≡ true)

d_inv : {x y : ℕ} → d x ≡ d y → x ≡ y
d_inv e = cc

both_iff : {X P P' Q Q' : Type 0} → X ↔ (P × Q) → P ↔ P' → Q ↔ Q' → X ↔ (P' × Q')
both_iff x p q = (λ h. (p.0 (x.0 h).0, q.0 (x.0 h).1), λ h. x.1 (p.1 h.0, q.1 h.1))

sensor_read :
    (o : Option RimDataItem)
    → ItemIsTyped o
    → (x : ℕ) × (try_get Reads.get_double o 0 ≡ some x)
      × ((limit : ℕ) → double_ge 0 limit ≡ false → (double_ge x limit ≡ true) ↔ IsAtLeast limit o)
unfolding try_get Reads.get_double Reads.get_value
sensor_read none w = (0, refl, λ limit e. ground (arith, e))
sensor_read (some item) w = elim (ValueType-discrete item.value.type k_double) [
  | yes t ↦
      let (x, v) : Matches k_double item.value.value =
        subst (λ u. Matches u item.value.value) t w in
      (
        x,
        ground arith,
        λ limit e. (
          λ h. (t, x, v, h),
          λ h. subst (λ y. double_ge y limit ≡ true) (d_inv (sym h.2 ∙ v)) h.3,
        ),
      )
  | no n ↦ (0, ground arith, λ limit e. (λ h. cc (sym e ∙ h), λ h. absurd (n h.0)))
]

levels :
    (t h : ℕ)
    → ((1 ≤ environment_level t h)
        ↔ ((double_ge t twenty_five_celsius ≡ true) × (double_ge h twenty_five ≡ true)))
      × ((2 ≤ environment_level t h)
          ↔ ((double_ge t sixty_celsius ≡ true) × (double_ge h sixty ≡ true)))
      × (environment_level t h ≤ 2)
unfolding environment_level
levels t h = ground (
  arith,
  double_ge_trans t sixty_celsius twenty_five_celsius,
  double_ge_trans h sixty twenty_five,
)

-- If the values of temperature sensor A and of the humidity sensor in the snapshot, where there are
-- any, are well typed, then the environment capability is built as a 32-bit integer of at most 2;
-- it is 1 or more exactly when both are there as doubles, the temperature at least 25 + 273.15 and
-- the humidity at least 25, and 2 exactly when the temperature is at least 60 + 273.15 and the
-- humidity at least 60, by the comparison of doubles, which a NaN fails.
pub build_environment_capability_iff :
    (memory : Memory) (snapshot : RimSnapshot)
    → ItemIsTyped (find snapshot temperature_sensor_a)
    → ItemIsTyped (find snapshot humidity_sensor)
    → (level : ℕ) × (build_environment_capability memory snapshot ≡ some (create_int32 level))
      × ((1 ≤ level) ↔ (
          IsAtLeast twenty_five_celsius (find snapshot temperature_sensor_a)
          × IsAtLeast twenty_five (find snapshot humidity_sensor)))
      × ((2 ≤ level) ↔ (
          IsAtLeast sixty_celsius (find snapshot temperature_sensor_a)
          × IsAtLeast sixty (find snapshot humidity_sensor)))
      × (level ≤ 2)
unfolding build_environment_capability try_get_double double_ge is_nan order_key
build_environment_capability_iff memory snapshot temperature humidity =
    let (t, t_read, t_least) = sensor_read (find snapshot temperature_sensor_a) temperature in
    let (h, h_read, h_least) = sensor_read (find snapshot humidity_sensor) humidity in
    let (mild, hot, bound) = levels t h in
    (
      environment_level t h,
      rw (t_read, h_read) refl,
      both_iff mild (t_least twenty_five_celsius refl) (h_least twenty_five refl),
      both_iff hot (t_least sixty_celsius refl) (h_least sixty refl),
      bound,
    )
