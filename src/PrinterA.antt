-- ===== src/PrinterA.antt =====
-- products/printer_a: the tables of the product, the functions they name, and the C functions for
-- its list of errors. The addition of doubles is a parameter, on bit patterns.
pub mod Tables
pub mod Builders
pub mod Facades
pub mod Typed
pub mod Rows
pub mod Defined
pub mod ErrorList
pub mod Doors
use Prim.Native.String.{String}
use printer_fw.Base.{
  ℕ, Bool, true, false, ◌&&◌, not, Option, none, some, List, [], ◌∷◌, ◌==◌, if◌then◌else◌, ◌>>=◌,
}
use printer_fw.Notification.{uncompressed, keep_oldest, keep_latest}
use printer_fw.Queue.{buffered, coalescing}
use printer_fw.Value.{
  ValueType, k_bool, k_int32, k_uint32, k_double, k_binary, null, RimValue, default_value,
  create_bool, create_int32, create_uint32, create_double, create_binary, identity_store, Memory,
}
use printer_fw.Value.Double.{double_ge}
use printer_fw.Value.Diff.{identity_diff}
use printer_fw.Value.Reads.{Read, mismatch, inactive, found, get_double}
use printer_fw.Product.{
  DomainDefinition, RouteDefinition, NormalizeCallback, DataItemDefinition, RimSnapshot,
  CapabilityItemDefinition, FacadeItemDefinition, ProductDefinition,
}
use printer_fw.Snapshot.{try_get_bool, try_get_int32, try_get_double}

-- printer_a_data_id.h
abbrev pub temperature_sensor_a : ℕ
temperature_sensor_a = 1

abbrev pub temperature_sensor_b : ℕ
temperature_sensor_b = 2

abbrev pub humidity_sensor : ℕ
humidity_sensor = 3

abbrev pub upper_door_open : ℕ
upper_door_open = 4

abbrev pub right_door_open : ℕ
right_door_open = 5

abbrev pub left_door_open : ℕ
left_door_open = 6

abbrev pub staple_level : ℕ
staple_level = 7

abbrev pub toner_level : ℕ
toner_level = 8

abbrev pub job_active : ℕ
job_active = 9

abbrev pub job_id : ℕ
job_id = 10

abbrev pub error_list : ℕ
error_list = 11

-- printer_a_capability_id.h and printer_a_facade_id.h
abbrev pub environment : ℕ
environment = 0

abbrev pub print_ready : ℕ
print_ready = 1

abbrev pub environment_ready : ℕ
environment_ready = 0

abbrev pub operation_ready : ℕ
operation_ready = 1

-- 273.15, 60.0, 60.0 + 273.15, 25.0 and 25.0 + 273.15
abbrev pub kelvin_offset : ℕ
kelvin_offset = 4643512921809643110

abbrev pub sixty : ℕ
sixty = 4633641066610819072

abbrev pub sixty_celsius : ℕ
sixty_celsius = 4644568452972308070

abbrev pub twenty_five : ℕ
twenty_five = 4627730092099895296

abbrev pub twenty_five_celsius : ℕ
twenty_five_celsius = 4643952726460753510

-- PrinterANormalizationFunctions.cpp
unfoldable pub identity_normalize : NormalizeCallback
identity_normalize value = some value

unfoldable pub normalize_binary : NormalizeCallback
normalize_binary value = some value

unfoldable pub normalize_temperature_sensor_a : (ℕ → ℕ → ℕ) → NormalizeCallback
normalize_temperature_sensor_a add value = elim (get_double value) [
  | mismatch ↦ some default_value
  | inactive ↦ none
  | found celsius ↦ some (create_double (add celsius kelvin_offset))
]

-- PrinterACapabilityBuilders.cpp
unfoldable pub environment_level : ℕ → ℕ → ℕ
unfolding double_ge
environment_level temperature humidity =
    if double_ge temperature sixty_celsius && double_ge humidity sixty
    then 2
    else if double_ge temperature twenty_five_celsius && double_ge humidity twenty_five
    then 1
    else 0

unfoldable pub build_environment_capability : Memory → RimSnapshot → Option RimValue
unfolding environment_level try_get_double
build_environment_capability memory snapshot = do
  temperature ← try_get_double snapshot temperature_sensor_a 0
  humidity ← try_get_double snapshot humidity_sensor 0
  some (create_int32 (environment_level temperature humidity))

unfoldable pub build_print_ready_capability : Memory → RimSnapshot → Option RimValue
unfolding try_get_bool
build_print_ready_capability memory snapshot = do
  upper ← try_get_bool snapshot upper_door_open false
  right ← try_get_bool snapshot right_door_open false
  left ← try_get_bool snapshot left_door_open false
  some (create_bool (not upper && not right && not left))

-- PrinterAFacadeBuilders.cpp
unfoldable pub build_environment_ready_facade : Memory → RimSnapshot → Option RimValue
unfolding try_get_int32
build_environment_ready_facade memory snapshot = do
  level ← try_get_int32 snapshot environment 0
  some (create_bool (not (level == 2)))

unfoldable pub build_operation_ready_facade : Memory → RimSnapshot → Option RimValue
unfolding try_get_int32 try_get_bool
build_operation_ready_facade memory snapshot = do
  level ← try_get_int32 snapshot environment 0
  ready ← try_get_bool snapshot print_ready false
  some (create_bool (not (level == 2) && ready))

-- PrinterADomains.hpp. The pointer of a name is told apart by the definition's own address.
abbrev pub domain_named : ℕ → String → DomainDefinition
domain_named address name = record { address = address; pointer = address; name = name }

abbrev pub environment_domain : DomainDefinition
environment_domain = domain_named 1 "Environment"

abbrev pub door_domain : DomainDefinition
door_domain = domain_named 2 "Door"

abbrev pub consumable_domain : DomainDefinition
consumable_domain = domain_named 3 "Consumable"

abbrev pub job_domain : DomainDefinition
job_domain = domain_named 4 "Job"

abbrev pub error_domain : DomainDefinition
error_domain = domain_named 5 "Error"
