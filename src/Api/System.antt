-- ===== src/Api/System.antt =====
-- All that can happen to the state behind the C functions of products/common/rim_api.cpp: a call
-- of the client's, or a pass of a worker thread, one at a time.
pub mod Invariant
pub mod Types
pub mod Answers
pub mod Defined
use Prim.Native.String.{String}
use printer_fw.Base.{ℕ, ◌+◌, ◌<◌, ◌≡◌, Bool, true, false, Option, none, some, List}
use printer_fw.Value.{RimValue}
use printer_fw.Value.Reads.{IsWellTyped}
use printer_fw.Product.{ProductDefinition}
use printer_fw.Publisher.Subscriptions.{Invocation}
use printer_fw.Api.{RiManagerContext, Global, RiStatus, set_value}
use printer_fw.Api.Lifecycle.{rim_create, rim_start, rim_stop, rim_destroy}
use printer_fw.Api.Subscribe.{
  SubscriptionRequest, rim_subscribe, rim_get_notification, rim_get_mailbox_count,
}
use printer_fw.Api.Workers.{run_store, run_capability, run_publisher, run_callback}

-- The ids of subscriptions are not used up.
abbrev pub HasIds : Global → Type 0
HasIds none = Unit
HasIds (some g) = g.publish.subscriptions.next_id + 1 < 18446744073709551616

-- `caller` is the memory of the client's at the time of the step. The setters are one, by the
-- well-typed value that they make.
pub data Step (product : ProductDefinition) : Global → Global → Type 0 where
  creates :
      {g h : Global} {status : RiStatus}
      → rim_create product g ≡ some (h, status)
      → Step product g h
  starts : (g : Global) → Step product g (rim_start g).0
  stops : (g : Global) → Step product g (rim_stop g).0
  destroys : (g : Global) → Step product g (rim_destroy g).0
  sets :
      {g h : Global} {status : RiStatus} (id : ℕ) (value : RimValue)
      → IsWellTyped value
      → set_value g id value ≡ some (h, status)
      → Step product g h
  subscribes :
      (g : Global) (now : ℕ) (request : Option SubscriptionRequest) (given : Bool)
      → HasIds g
      → Step product g (rim_subscribe now g request given).0
  receives :
      (g : Global) (id : ℕ) (given : Bool) → Step product g (rim_get_notification g id given).0
  counts : (g : Global) (id : ℕ) → Step product g (rim_get_mailbox_count g id).0
  stores :
      {g h : RiManagerContext} (caller : ℕ → List ℕ) (name : String)
      → run_store caller name g ≡ some h
      → Step product (some g) (some h)
  evaluates :
      {g h : RiManagerContext} (caller : ℕ → List ℕ) (name : String)
      → run_capability caller name g ≡ some h
      → Step product (some g) (some h)
  publishes :
      (g : RiManagerContext) (now later : ℕ)
      → Step product (some g) (some (run_publisher now later g))
  calls :
      {g h : RiManagerContext} {invocations : List Invocation}
      → run_callback g ≡ some (h, invocations)
      → Step product (some g) (some h)

-- From the start of the program.
pub data Reach (product : ProductDefinition) : Global → Type 0 where
  here : Reach product none
  next : {g h : Global} → Reach product g → Step product g h → Reach product h
