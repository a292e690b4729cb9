-- ===== src/Api.antt =====
-- products/common/rim_api.cpp with include/rim_api.h: the state behind the C functions, and what
-- reads and writes values. A pointer argument that may be null is a Boolean that says whether it
-- is given, where nothing is read through it.
pub mod Lifecycle
pub mod Subscribe
pub mod Workers
pub mod Passes
pub mod RoundTrip
pub mod Delivery
pub mod Restart
pub mod System
pub mod Getters
use printer_fw.Base.{
  ℕ, ◌%◌, Bool, true, false, ◌||◌, Option, none, some, List, ◌==◌, ◌>>=◌, if◌then◌else◌, not,
}
use printer_fw.Value.{
  BytesPointer, null, RimValue, RimDataItem, create_bool, create_int32, create_double,
  create_binary,
}
use printer_fw.Value.Reads
use printer_fw.Value.Reads.{Read, mismatch, inactive, found}
use printer_fw.Storage.{Registry, find_data}
use printer_fw.Product.Context.{ProductContext, find_data_domain_id}
use printer_fw.Adapter.{RouteProvider, dispatch}
use printer_fw.Accessor.{try_get_capability}
use printer_fw.Publisher.Subscriptions.{CallbackRegistry}
use printer_fw.Publisher.Publish.{PublishState}
use printer_fw.RouteExecutor.{RouteExecutor}

-- RIStatus
pub data RiStatus : Type 0 where
  success invalid_parameter invalid_handle not_initialized no_data internal_error : RiStatus

-- A status other than success, with nothing written; success, with what is written through the
-- pointer; or undefined behaviour.
pub data Response (A : Type 0) : Type 0 where
  failed : RiStatus → Response A
  written : A → Response A
  undefined : Response A

-- The executors are those of the provider's queues, in their order. `publish` has the publisher's
-- queue, the subscriptions, the managers of publication and the mailboxes.
pub record RiManagerContext : Type 0 where
  pub product_context : ProductContext
  pub route_executor : List RouteExecutor
  pub route_provider : RouteProvider
  pub domain_store : Registry
  pub callback_registry : CallbackRegistry
  pub publish : PublishState
  pub callback_running : Bool
  pub publisher_running : Bool

-- `g_context`
abbrev pub Global : Type 0
Global = Option RiManagerContext

unfoldable pub try_read_data_item : RiManagerContext → ℕ → Option RimDataItem
unfolding find_data
try_read_data_item g id = find_data g.domain_store (find_data_domain_id g.product_context id) id

abbrev pub value_of : Option RimDataItem → Option RimValue
value_of none = none
value_of (some item) = some item.value

-- The end of a getter, from the value that was found.
abbrev pub respond : {A B : Type 0} → Read A → (A → Response B) → Response B
respond mismatch answer = failed internal_error
respond inactive answer = undefined
respond (found x) answer = answer x

unfoldable pub get_found :
    {A B : Type 0} → (RimValue → Read A) → (A → Response B) → Option RimValue → Response B
get_found read answer none = failed no_data
get_found read answer (some value) = respond (read value) answer

-- The steps that the getters share, by what looks the value up.
unfoldable pub get_with :
    {A B : Type 0}
    → (RiManagerContext → Option RimValue)
    → (RimValue → Read A)
    → (A → Response B)
    → Bool
    → Global
    → Response B
unfolding get_found
get_with lookup read answer false g = failed invalid_parameter
get_with lookup read answer true none = failed not_initialized
get_with lookup read answer true (some g) = get_found read answer (lookup g)

abbrev pub data_value : ℕ → RiManagerContext → Option RimValue
data_value id g = value_of (try_read_data_item g id)

abbrev pub int_of : Bool → ℕ
int_of true = 1
int_of false = 0

abbrev pub written_binary : BytesPointer × ℕ → Response (BytesPointer × ℕ)
written_binary (null, size) = failed no_data
written_binary (p, size) = written (p, size % 4294967296)

unfoldable pub get_bool : Global → ℕ → Bool → Response ℕ
unfolding get_with
get_bool g id given = get_with (data_value id) Reads.get_bool (λ x. written (int_of x)) given g

unfoldable pub get_int32 : Global → ℕ → Bool → Response ℕ
unfolding get_with
get_int32 g id given = get_with (data_value id) Reads.get_int32 written given g

unfoldable pub get_double : Global → ℕ → Bool → Response ℕ
unfolding get_with
get_double g id given = get_with (data_value id) Reads.get_double written given g

unfoldable pub get_binary : Global → ℕ → Bool → Response (BytesPointer × ℕ)
unfolding get_with
get_binary g id given = get_with (data_value id) Reads.get_binary written_binary given g

abbrev pub capability_value : ℕ → RiManagerContext → Option RimValue
capability_value id g = try_get_capability g.product_context g.domain_store id

unfoldable pub get_capability_bool : Global → ℕ → Bool → Response ℕ
unfolding get_with
get_capability_bool g id given =
    get_with (capability_value id) Reads.get_bool (λ x. written (int_of x)) given g

unfoldable pub get_capability_int32 : Global → ℕ → Bool → Response ℕ
unfolding get_with
get_capability_int32 g id given = get_with (capability_value id) Reads.get_int32 written given g

unfoldable pub get_capability_double : Global → ℕ → Bool → Response ℕ
unfolding get_with
get_capability_double g id given = get_with (capability_value id) Reads.get_double written given g

abbrev pub status_of : Bool → RiStatus
status_of true = success
status_of false = invalid_parameter

-- The end of a setter: `none` is undefined behaviour of a callback.
unfoldable pub set_item : RiManagerContext → RimDataItem → Option (Global × RiStatus)
unfolding dispatch
set_item g item = dispatch g.product_context g.route_provider item >>= λ answer.
    some (some (record g { route_provider = answer.0 }), status_of answer.1)

unfoldable pub set_value : Global → ℕ → RimValue → Option (Global × RiStatus)
unfolding set_item
set_value none id value = some (none, not_initialized)
set_value (some g) id value = set_item g (record { id = id; value = value })

-- An `int` is false when it is 0.
unfoldable pub set_bool : Global → ℕ → ℕ → Option (Global × RiStatus)
unfolding set_value
set_bool g id x = set_value g id (create_bool (not (x == 0)))

unfoldable pub set_int32 : Global → ℕ → ℕ → Option (Global × RiStatus)
unfolding set_value
set_int32 g id x = set_value g id (create_int32 x)

unfoldable pub set_double : Global → ℕ → ℕ → Option (Global × RiStatus)
unfolding set_value
set_double g id x = set_value g id (create_double x)

abbrev pub is_null : BytesPointer → Bool
is_null null = true
is_null _ = false

unfoldable pub set_binary : Global → ℕ → BytesPointer → ℕ → Option (Global × RiStatus)
unfolding set_value
set_binary g id p size =
    if is_null p || (size == 0)
    then some (g, invalid_parameter)
    else set_value g id (create_binary p size)
