-- ===== src/Worker.antt =====
-- The threads of core/store/src/DataStoreWorker.cpp, core/capability/src/CapabilityWorker.cpp,
-- core/publisher/src/CallbackWorker.cpp and PublisherWorker.cpp: how a worker is started, what its
-- loop does between two accesses of shared state, and how it is stopped, in any interleaving with
-- the threads that push into its queue. `running_` is atomic, and a call of the queue runs under
-- the queue's mutex, so each access is one step. One thread at a time calls `start` and `stop`.
pub mod Shutdown
pub mod Restart
use printer_fw.Base.{
  ℕ, zero, suc, ◌≡◌, Bool, true, false, Option, none, some, List, ◌>>=◌, if◌then◌else◌,
}
use printer_fw.Queue.{
  EventQueue, empty, push, shut, wait_and_pop, wait_and_pop_for, Wait, blocked, woken,
}

-- What the loop does when a wait brings no event: the workers of the routes leave it, the callback
-- worker tests `running_` again, and the publisher worker goes on to its periodic notifications.
pub data LoopKind : Type 0 where
  breaks continues polls : LoopKind

-- Where the thread stands: not there (never started, or joined), at the test of `running_`, in the
-- wait, at work on what the wait brought, or returned and not yet joined.
pub data Thread (A : Type 0) : Type 0 where
  absent at_test at_wait returned : Thread A
  at_work : Option A → Thread A

-- Where the call of `stop` stands: no call, `running_` cleared, or the queue shut too.
pub data Caller : Type 0 where
  outside cleared joining : Caller

pub record Worker (A : Type 0) : Type 0 where
  pub running : Bool
  pub queue : EventQueue A
  pub thread : Thread A
  pub caller : Caller

module _ {A : Type 0} where
  abbrev pub new_worker : Worker A
  new_worker = record { running = false; queue = empty; thread = absent; caller = outside }

  -- The assignment to `workerThread_`: `none` is std::terminate, of a thread that is not joined.
  abbrev pub spawn : Thread A → Option (Thread A)
  spawn absent = some at_test
  spawn _ = none

  -- start, and `Run`
  unfoldable pub start : Worker A → Option (Worker A)
  start w =
      if w.running
      then some w
      else (spawn w.thread >>= λ thread. some (record w { running = true; thread = thread }))

  -- What the loop does with what the wait brought.
  abbrev pub after_wait : LoopKind → Option A → Thread A
  after_wait breaks none = returned
  after_wait continues none = at_test
  after_wait polls none = at_work none
  after_wait _ (some event) = at_work (some event)

  abbrev pub tested : Bool → Thread A
  tested true = at_wait
  tested false = returned

  -- A step of a thread with a timeout is the end of its wait, by then at the latest.
  unfoldable pub waited : LoopKind → EventQueue A → Wait A
  unfolding wait_and_pop wait_and_pop_for
  waited polls q = wait_and_pop_for true q
  waited _ q = wait_and_pop q

  unfoldable pub wait : LoopKind → Worker A → Option (Worker A)
  unfolding waited
  wait kind w = elim (waited kind w.queue) [
    | blocked ↦ none
    | woken q event ↦ some (record w { queue = q; thread = after_wait kind event })
  ]

  -- The next step of WorkerLoop: `none` if the thread is blocked, or not there to step.
  unfoldable pub loop_step : LoopKind → Worker A → Option (Worker A)
  unfolding wait
  loop_step kind w = elim w.thread [
    | absent ↦ none
    | at_test ↦ some (record w { thread = tested w.running })
    | at_wait ↦ wait kind w
    | at_work event ↦ some (record w { thread = at_test })
    | returned ↦ none
  ]

  -- The first line of `stop`, behind the guard that only the workers of the routes have.
  unfoldable pub stop_running : LoopKind → Worker A → Worker A
  stop_running breaks w = if w.running then record w { running = false; caller = cleared } else w
  stop_running _ w = record w { running = false; caller = cleared }

  unfoldable pub stop_queue : Worker A → Worker A
  stop_queue w = record w { queue = shut w.queue; caller = joining }

  -- `join`, if the thread is joinable: `none` while it runs.
  unfoldable pub stop_join : Worker A → Option (Worker A)
  stop_join w = elim w.thread [
    | absent ↦ some (record w { caller = outside })
    | returned ↦ some (record w { thread = absent; caller = outside })
    | _ ↦ none
  ]

  -- A step of the worker's thread, of the thread that starts and stops it, or of one that pushes.
  pub data Step (kind : LoopKind) (insert : List A → A → List A) (w : Worker A)
      : Worker A → Type 0 where
    starts : {v : Worker A} → w.caller ≡ outside → start w ≡ some v → Step kind insert w v
    loops : {v : Worker A} → loop_step kind w ≡ some v → Step kind insert w v
    clears : w.caller ≡ outside → Step kind insert w (stop_running kind w)
    shuts : w.caller ≡ cleared → Step kind insert w (stop_queue w)
    joins : {v : Worker A} → w.caller ≡ joining → stop_join w ≡ some v → Step kind insert w v
    pushes : (event : A) → Step kind insert w (record w { queue = (push insert w.queue event).0 })

  pub data Reach (kind : LoopKind) (insert : List A → A → List A) (w : Worker A)
      : Worker A → Type 0 where
    here : Reach kind insert w w
    next : {u v : Worker A} → Reach kind insert w u → Step kind insert u v → Reach kind insert w v

  -- `n` steps of the thread, or as many as it takes.
  unfoldable pub run_loop : LoopKind → ℕ → Worker A → Worker A
  unfolding loop_step
  run_loop kind zero w = w
  run_loop kind (suc n) w = elim (loop_step kind w) [ none ↦ w | some v ↦ run_loop kind n v ]
