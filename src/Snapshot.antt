-- ===== src/Snapshot.antt =====
-- The typed reads of core/storage/snapshot/include/RIMSnapshot.hpp, as the builders use them: the
-- variable keeps the value it had if the read fails. `none` is undefined behaviour.
use printer_fw.Base.{ℕ, Bool, Option, none, some, List, [], ◌∷◌, ◌==◌, if◌then◌else◌}
use printer_fw.Value.{RimValue, RimDataItem}
use printer_fw.Value.Reads.{Read, mismatch, inactive, found, get_bool, get_int32, get_double}
use printer_fw.Product.{RimSnapshot}

unfoldable pub find_current : ℕ → List RimDataItem → Option RimDataItem
find_current id [] = none
find_current id (current ∷ items) =
    let rest = find_current id items in if current.id == id then some current else rest

-- Find
unfoldable pub find : RimSnapshot → ℕ → Option RimDataItem
unfolding find_current
find snapshot id = find_current id snapshot.items

abbrev pub read_or : {A : Type 0} → A → Read A → Option A
read_or value mismatch = some value
read_or value inactive = none
read_or value (found x) = some x

unfoldable pub try_get : {A : Type 0} → (RimValue → Read A) → Option RimDataItem → A → Option A
try_get read none value = some value
try_get read (some item) value = read_or value (read item.value)

unfoldable pub try_get_bool : RimSnapshot → ℕ → Bool → Option Bool
unfolding try_get find
try_get_bool snapshot id value = try_get get_bool (find snapshot id) value

unfoldable pub try_get_int32 : RimSnapshot → ℕ → ℕ → Option ℕ
unfolding try_get find
try_get_int32 snapshot id value = try_get get_int32 (find snapshot id) value

unfoldable pub try_get_double : RimSnapshot → ℕ → ℕ → Option ℕ
unfolding try_get find
try_get_double snapshot id value = try_get get_double (find snapshot id) value
