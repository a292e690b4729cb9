-- ===== src/Queue.antt =====
-- core/common/include/EventQueue.hpp, QueuePolicy.hpp and QueueFactory.hpp. A call runs under the
-- queue's mutex, so it is one step on the state; a wait on the condition variable that finds the
-- queue neither shut down nor filled leaves its thread blocked.
pub mod Policies
pub mod Fifo
pub mod Waits
pub mod Coalescing
pub mod Priority
pub mod Compression
use printer_fw.Base.{
  ℕ, Bool, true, false, ◌||◌, not, List, [], ◌∷◌, Option, none, some, if◌then◌else◌,
}
use Policies.{fifo_insert, coalescing_insert}

pub record EventQueue (A : Type 0) : Type 0 where
  pub shutdown : Bool
  pub events : List A

-- `bool Wait…(T& event)`: `none` is `false`.
pub data Wait (A : Type 0) : Type 0 where
  blocked : Wait A
  woken : EventQueue A → Option A → Wait A

pub data QueuePolicy : Type 0 where
  buffered coalescing : QueuePolicy

module _ {A : Type 0} where
  -- events_.empty()
  abbrev pub is_empty : List A → Bool
  is_empty [] = true
  is_empty (event ∷ rest) = false

  abbrev pub empty : EventQueue A
  empty = record { shutdown = false; events = [] }

  unfoldable pub push : (List A → A → List A) → EventQueue A → A → EventQueue A × Bool
  push insert q event =
      if q.shutdown then (q, false) else (record q { events = insert q.events event }, true)

  unfoldable pub try_pop : EventQueue A → EventQueue A × Option A
  try_pop q = elim q.events [
    | [] ↦ (q, none)
    | event ∷ rest ↦ (record q { events = rest }, some event)
  ]

  -- The predicate of the condition variable.
  abbrev pub is_ready : EventQueue A → Bool
  is_ready q = q.shutdown || not (is_empty q.events)

  -- The end of a wait for which the predicate holds: without an event, the queue is shut down.
  abbrev pub popped : EventQueue A → Wait A
  popped q = elim q.events [
    | [] ↦ woken q none
    | event ∷ rest ↦ woken (record q { events = rest }) (some event)
  ]

  unfoldable pub wait_and_pop : EventQueue A → Wait A
  wait_and_pop q = if is_ready q then popped q else blocked

  -- A wait that is not ready ends when its time is out, without an event, and not before.
  unfoldable pub wait_and_pop_for : Bool → EventQueue A → Wait A
  wait_and_pop_for timed_out q =
      if is_ready q then popped q else (if timed_out then woken q none else blocked)

  unfoldable pub shut : EventQueue A → EventQueue A
  shut q = record q { shutdown = true }

  -- `QueueFactory::Create` picks the policy of the queue that it makes.
  unfoldable pub create : (A → ℕ) → QueuePolicy → List A → A → List A
  unfolding fifo_insert coalescing_insert
  create key buffered = fifo_insert
  create key coalescing = coalescing_insert key
