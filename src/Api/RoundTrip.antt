-- ===== src/Api/RoundTrip.antt =====
-- From a setter of products/common/rim_api.cpp through a worker's pass to a getter.
use Prim.Native.String.{String}
use printer_fw.Base.{ℕ, ◌≡◌, refl, ap, Bool, true, Option, none, some, List, ◌==◌, not}
use printer_fw.RouteExecutor.{capability_insert}
use printer_fw.Value.{ValueType, k_int32, k_bool, RimValue, RimDataItem, create_int32, create_bool}
use printer_fw.Store.Settle.{IsPlain, CurrentIsWellTyped, Holds, process-Settles}
use printer_fw.Value.Reads
use printer_fw.Value.Reads.{IsWellTyped, get_value-found, member_i32, member_b}
use printer_fw.Api.{
  RiManagerContext, success, set_value, int_of, value_of, set_int32, set_bool, written, get_bool,
  get_int32, get_with, get_found, try_read_data_item,
}
use printer_fw.Api.Passes.{Accepts, start_state, queued, processed, set_value-processed}
use printer_fw.Api.Workers.{run_store}

-- The item is moreover kept and compared as it is.
pub record IsReady (type : ValueType) (g : RiManagerContext) (id : ℕ) : Type 0 where
  pub accepts : Accepts type g id
  pub open accepts use *
  pub plain : IsPlain definition type
  pub typed : CurrentIsWellTyped (try_read_data_item g id)

-- A set of `v` succeeds, the next pass of the store worker of the item's route is defined, and
-- then the item has the content of `v`.
abbrev pub Answered : (ℕ → List ℕ) → RiManagerContext → ℕ → String → RimValue → Type 0
Answered caller g id name v =
    (g' : RiManagerContext) × (set_value (some g) id v ≡ some (some g', success))
    × (g'' : RiManagerContext) × (run_store caller name g' ≡ some g'')
    × Holds v (try_read_data_item g'' id)

set_value-Answered :
    (caller : ℕ → List ℕ) (g : RiManagerContext) (id : ℕ) (v : RimValue)
    (ready : IsReady v.type g id)
    → IsWellTyped v
    → Answered caller g id ready.queues.name v
unfolding try_read_data_item
set_value-Answered caller g id v ready w =
    let q = ready.queues in
    let item : RimDataItem = record { id = id; value = v } in
    let (t, done, holds, _) =
      process-Settles caller (capability_insert q) g.product_context ready.definition item
        ready.known ready.valid ready.plain w (start_state g q) ready.typed in
    let (set, ran) = set_value-processed caller g id v ready.accepts t done in
    (queued g q item, set, processed g q item t, ran, holds)

-- The answers of the typed getters, by the stored content.
get_found-int32 :
    (x : ℕ) (o : Option RimDataItem)
    → Holds (create_int32 x) o
    → get_found Reads.get_int32 (λ y. written y) (value_of o) ≡ written x
unfolding get_found Reads.get_int32
get_found-int32 x none h = absurd h
get_found-int32 x (some item) (type, value) =
    rw (get_value-found k_int32 item.value member_i32 x type (ap member_i32 value)) refl

get_found-bool :
    (x : Bool) (o : Option RimDataItem)
    → Holds (create_bool x) o
    → get_found Reads.get_bool (λ y. written (int_of y)) (value_of o) ≡ written (int_of x)
unfolding get_found Reads.get_bool
get_found-bool x none h = absurd h
get_found-bool x (some item) (type, value) =
    rw (get_value-found k_bool item.value member_b x type (ap member_b value)) refl

-- For an item of 32-bit integers that is kept and compared as it is, that has an empty queue and
-- whose stored value, if any, is well typed: RIM_SetInt32 succeeds, the next pass of the store
-- worker of the item's route is defined, and RIM_GetInt32 then answers with the value that was set.
pub set_int32-get_int32 :
    (caller : ℕ → List ℕ) (g : RiManagerContext) (id x : ℕ) (ready : IsReady k_int32 g id)
    → (g' : RiManagerContext) × (set_int32 (some g) id x ≡ some (some g', success))
      × (g'' : RiManagerContext) × (run_store caller ready.queues.name g' ≡ some g'')
      × (get_int32 (some g'') id true ≡ written x)
unfolding set_int32 get_int32 get_with
set_int32-get_int32 caller g id x ready =
    let (g', set, g'', ran, holds) =
      set_value-Answered caller g id (create_int32 x) ready (x, refl) in
    (g', set, g'', ran, get_found-int32 x (try_read_data_item g'' id) holds)

-- For an item of Booleans that is kept and compared as it is, that has an empty queue and whose
-- stored value, if any, is well typed: RIM_SetBool succeeds, the next pass of the store worker of
-- the item's route is defined, and RIM_GetBool then answers 0 if 0 was set, and 1 otherwise.
set_bool-get_bool :
    (caller : ℕ → List ℕ) (g : RiManagerContext) (id x : ℕ) (ready : IsReady k_bool g id)
    → (g' : RiManagerContext) × (set_bool (some g) id x ≡ some (some g', success))
      × (g'' : RiManagerContext) × (run_store caller ready.queues.name g' ≡ some g'')
      × (get_bool (some g'') id true ≡ written (int_of (not (x == 0))))
unfolding set_bool get_bool get_with
set_bool-get_bool caller g id x ready =
    let (g', set, g'', ran, holds) =
      set_value-Answered caller g id (create_bool (not (x == 0))) ready (not (x == 0), refl) in
    (g', set, g'', ran, get_found-bool (not (x == 0)) (try_read_data_item g'' id) holds)
