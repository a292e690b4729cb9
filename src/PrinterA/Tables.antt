-- ===== src/PrinterA/Tables.antt =====
-- The tables of products/printer_a: Route/PrinterARoute.hpp, DataItem/PrinterADataItems.hpp,
-- CapabilityItem/PrinterACapabilities.hpp and PrinterAFacades.hpp, and PrinterAProductDefinition.hpp.
use Prim.Native.String.{String}
use printer_fw.Base.{ℕ, false, some, List, [], ◌∷◌}
use printer_fw.Notification.{uncompressed, keep_oldest, keep_latest}
use printer_fw.Queue.{buffered, coalescing}
use printer_fw.Value.{
  ValueType, k_bool, k_int32, k_uint32, k_double, k_binary, null, RimValue, create_bool,
  create_int32, create_uint32, create_double, create_binary, identity_store,
}
use printer_fw.Value.Diff.{identity_diff}
use printer_fw.Product.{
  DomainDefinition, RouteDefinition, NormalizeCallback, DataItemDefinition,
  CapabilityItemDefinition, FacadeItemDefinition, ProductDefinition,
}
use printer_fw.PrinterA.{
  temperature_sensor_a, temperature_sensor_b, humidity_sensor, upper_door_open, right_door_open,
  left_door_open, staple_level, toner_level, job_active, job_id, error_list, environment,
  print_ready, environment_ready, operation_ready, identity_normalize, normalize_binary,
  normalize_temperature_sensor_a, build_environment_capability, build_print_ready_capability,
  build_environment_ready_facade, build_operation_ready_facade, environment_domain, door_domain,
  consumable_domain, job_domain, error_domain,
}

-- PrinterARouteId.hpp
abbrev pub route_value : ℕ
route_value = 1

abbrev pub route_data : ℕ
route_data = 2

abbrev pub route_error : ℕ
route_error = 3

abbrev pub route_facade : ℕ
route_facade = 4

abbrev pub value_route : RouteDefinition
value_route = record {
  id = route_value;
  name = "ValueRoute";
  store_policy = buffered;
  capability_policy = buffered;
  compression_policy = keep_latest;
  minimum_notify_interval_ms = 100;
}

abbrev pub data_route : RouteDefinition
data_route = record {
  id = route_data;
  name = "DataRoute";
  store_policy = buffered;
  capability_policy = buffered;
  compression_policy = keep_oldest;
  minimum_notify_interval_ms = 100;
}

abbrev pub error_route : RouteDefinition
error_route = record {
  id = route_error;
  name = "ErrorRoute";
  store_policy = coalescing;
  capability_policy = buffered;
  compression_policy = uncompressed;
  minimum_notify_interval_ms = 0;
}

abbrev pub facade_route : RouteDefinition
facade_route = record {
  id = route_facade;
  name = "FacadeRoute";
  store_policy = coalescing;
  capability_policy = buffered;
  compression_policy = keep_oldest;
  minimum_notify_interval_ms = 100;
}

-- One row of the table: the four types of each item are the same.
abbrev pub row :
    ℕ
    → String
    → DomainDefinition
    → ℕ
    → ValueType
    → RimValue
    → NormalizeCallback
    → DataItemDefinition
row id name domain route type initial normalize = record {
  id = id;
  name = name;
  domain = some domain;
  route_id = route;
  raw_value_type = type;
  set_value_type = type;
  store_value_type = type;
  get_value_type = type;
  initial_value = initial;
  normalize = normalize;
  store = identity_store;
  diff = some identity_diff;
}

abbrev pub double_row : ℕ → String → NormalizeCallback → DataItemDefinition
double_row id name normalize =
    row id name environment_domain route_value k_double (create_double 0) normalize

abbrev pub door_row : ℕ → String → DataItemDefinition
door_row id name = row id name door_domain route_value k_bool (create_bool false) identity_normalize

abbrev pub temperature_sensor_a_item : (ℕ → ℕ → ℕ) → DataItemDefinition
temperature_sensor_a_item add =
    double_row temperature_sensor_a "TemperatureSensorA" (normalize_temperature_sensor_a add)

abbrev pub temperature_sensor_b_item : DataItemDefinition
temperature_sensor_b_item = double_row temperature_sensor_b "TemperatureSensorB" identity_normalize

abbrev pub humidity_sensor_item : DataItemDefinition
humidity_sensor_item = double_row humidity_sensor "HumiditySensor" identity_normalize

abbrev pub upper_door_item : DataItemDefinition
upper_door_item = door_row upper_door_open "UpperDoorOpen"

abbrev pub right_door_item : DataItemDefinition
right_door_item = door_row right_door_open "RightDoorOpen"

abbrev pub left_door_item : DataItemDefinition
left_door_item = door_row left_door_open "LeftDoorOpen"

abbrev pub staple_level_item : DataItemDefinition
staple_level_item =
    row staple_level "StapleLevel" consumable_domain route_data k_uint32 (create_uint32 0)
      identity_normalize

abbrev pub toner_level_item : DataItemDefinition
toner_level_item =
    row toner_level "TonerLevel" consumable_domain route_data k_int32 (create_int32 0)
      identity_normalize

abbrev pub job_active_item : DataItemDefinition
job_active_item =
    row job_active "JobActive" job_domain route_data k_bool (create_bool false) identity_normalize

abbrev pub job_id_item : DataItemDefinition
job_id_item = row job_id "JobId" job_domain route_data k_int32 (create_int32 0) identity_normalize

abbrev pub error_list_item : DataItemDefinition
error_list_item =
    row error_list "ErrorList" error_domain route_error k_binary (create_binary null 10)
      normalize_binary

-- kDataItems
abbrev pub data_items : (ℕ → ℕ → ℕ) → List DataItemDefinition
data_items add =
    temperature_sensor_a_item add
    ∷ temperature_sensor_b_item
    ∷ humidity_sensor_item
    ∷ upper_door_item
    ∷ right_door_item
    ∷ left_door_item
    ∷ staple_level_item
    ∷ toner_level_item
    ∷ job_active_item
    ∷ job_id_item
    ∷ error_list_item
    ∷ []

abbrev pub environment_capability : CapabilityItemDefinition
environment_capability = record {
  id = environment;
  name = "Environment";
  value_type = k_int32;
  initial_value = create_int32 0;
  build = build_environment_capability;
  diff = identity_diff;
  required_data_ids = temperature_sensor_a ∷ temperature_sensor_b ∷ humidity_sensor ∷ [];
  route_id = route_value;
}

abbrev pub print_ready_capability : CapabilityItemDefinition
print_ready_capability = record {
  id = print_ready;
  name = "PrintReady";
  value_type = k_bool;
  initial_value = create_bool false;
  build = build_print_ready_capability;
  diff = identity_diff;
  required_data_ids = upper_door_open ∷ right_door_open ∷ left_door_open ∷ [];
  route_id = route_data;
}

abbrev pub environment_ready_facade : FacadeItemDefinition
environment_ready_facade = record {
  id = environment_ready;
  name = "EnvironmentReady";
  value_type = k_bool;
  initial_value = create_bool false;
  build = build_environment_ready_facade;
  diff = identity_diff;
  required_capability_ids = environment ∷ [];
  route_id = route_facade;
}

abbrev pub operation_ready_facade : FacadeItemDefinition
operation_ready_facade = record {
  id = operation_ready;
  name = "OperationReady";
  value_type = k_bool;
  initial_value = create_bool false;
  build = build_operation_ready_facade;
  diff = identity_diff;
  required_capability_ids = environment ∷ print_ready ∷ [];
  route_id = route_facade;
}

-- kPrinterAProductDefinition
abbrev pub printer_a : (ℕ → ℕ → ℕ) → ProductDefinition
printer_a add = record {
  domains = environment_domain ∷ door_domain ∷ consumable_domain ∷ job_domain ∷ error_domain ∷ [];
  routes = value_route ∷ data_route ∷ error_route ∷ facade_route ∷ [];
  data_items = data_items add;
  capabilities = environment_capability ∷ print_ready_capability ∷ [];
  facades = environment_ready_facade ∷ operation_ready_facade ∷ [];
}
