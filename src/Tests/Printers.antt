-- ===== src/Tests/Printers.antt =====
-- The builders of products/printer_a on a few snapshots.
use printer_fw.Base.{ℕ, ◌+◌, ◌≤◌, ◌≡◌, ◌↔◌, refl, Bool, true, false, not, ◌&&◌, some, [], ◌∷◌, ◌==◌}
use printer_fw.Base.Maps
use printer_fw.Value.{Memory, RimValue, create_double, create_bool, create_int32}
use printer_fw.Storage.{Registry, find_data, PartitionStorage}
use printer_fw.Product.{RimSnapshot}
use printer_fw.Product.Context.{create}
use printer_fw.Capability.{facade_snapshot}
use printer_fw.Snapshot.{find, find_current}
use printer_fw.PrinterA.{
  upper_door_open, right_door_open, left_door_open, environment, print_ready, environment_ready,
  temperature_sensor_a, humidity_sensor, build_environment_capability, operation_ready, sixty,
  sixty_celsius, twenty_five, twenty_five_celsius, build_print_ready_capability,
  build_environment_ready_facade, build_operation_ready_facade,
}
use printer_fw.PrinterA.Tables.{printer_a}
use printer_fw.PrinterA.Builders.{
  SaysOpen, IsAtLeast, build_environment_capability_iff, build_print_ready_capability_iff,
}
use printer_fw.PrinterA.Facades.{facades_built}

abbrev add : ℕ → ℕ → ℕ
add x y = x + y

abbrev memory : Memory
memory p = []

-- As warm and damp as the upper limit of the temperature and the lower one of the humidity.
abbrev sensors : RimSnapshot
sensors = record {
  items =
      record { id = 1; value = create_double sixty_celsius }
      ∷ record { id = 3; value = create_double twenty_five }
      ∷ [];
}

build_environment_capability_iff_example :
    (level : ℕ) × (build_environment_capability memory sensors ≡ some (create_int32 level))
    × ((1 ≤ level) ↔ (
        IsAtLeast twenty_five_celsius (find sensors temperature_sensor_a)
        × IsAtLeast twenty_five (find sensors humidity_sensor)))
    × ((2 ≤ level) ↔ (
        IsAtLeast sixty_celsius (find sensors temperature_sensor_a)
        × IsAtLeast sixty (find sensors humidity_sensor)))
    × (level ≤ 2)
unfolding find find_current
build_environment_capability_iff_example =
    build_environment_capability_iff memory sensors (sixty_celsius, refl) (twenty_five, refl)

-- The upper door is closed, the right one open, and the left one unknown.
abbrev doors : RimSnapshot
doors = record {
  items =
      record { id = 4; value = create_bool false }
      ∷ record { id = 5; value = create_bool true }
      ∷ [];
}

build_print_ready_capability_iff_example :
    (ready : Bool) × (build_print_ready_capability memory doors ≡ some (create_bool ready))
    × ((ready ≡ true) ↔ (
        (¬ SaysOpen (find doors upper_door_open))
        × (¬ SaysOpen (find doors right_door_open))
        × (¬ SaysOpen (find doors left_door_open))))
unfolding find find_current
build_print_ready_capability_iff_example =
    build_print_ready_capability_iff memory doors (false, refl) (true, refl) tt

abbrev one_item : ℕ → ℕ → RimValue → PartitionStorage
one_item domain id v = record {
  address = domain;
  items = (id, record { id = id; value = v }) ∷ [];
  binaries = [];
}

abbrev evaluated : Registry
evaluated =
    (6, one_item 6 environment (create_int32 1))
    ∷ (7, one_item 7 print_ready (create_bool true))
    ∷ []

level_found :
    find_data evaluated 6 environment ≡ some (record { id = environment; value = create_int32 1 })
unfolding find_data Maps.find
level_found = refl

ready_found :
    find_data evaluated 7 print_ready ≡ some (record { id = print_ready; value = create_bool true })
unfolding find_data Maps.find
ready_found = refl

facades_built_example :
    (build_environment_ready_facade memory
        (facade_snapshot (create (printer_a add)) evaluated environment_ready)
      ≡ some (create_bool (not (1 == 2))))
    × (build_operation_ready_facade memory
          (facade_snapshot (create (printer_a add)) evaluated operation_ready)
        ≡ some (create_bool (not (1 == 2) && true)))
facades_built_example = facades_built add memory evaluated 1 true level_found ready_found
