-- ===== src/Worker/Restart.antt =====
-- Starting a worker again after it was stopped: nothing opens its queue again.
use printer_fw.Base.{
  ℕ, zero, suc, ◌≡◌, ◌≤◌, refl, ◌∙◌, true, false, some, List, [], ◌∷◌, arith, length,
}
use printer_fw.Queue.{push, shut, wait_and_pop, wait_and_pop_for}
use printer_fw.Worker.{
  LoopKind, breaks, continues, polls, at_test, returned, outside, Worker, start, wait, waited,
  loop_step, stop_running, stop_queue, stop_join, Step, starts, loops, clears, shuts, joins, pushes,
  Reach, here, next, run_loop,
}

abbrev pub double : ℕ → ℕ
double zero = zero
double (suc n) = suc (suc (double n))

module _ {A : Type 0} where
  -- The queue is shut, and holds `n` events at most.
  abbrev IsShut : ℕ → Worker A → Type 0
  IsShut n w = (w.queue.shutdown ≡ true) × (length w.queue.events ≤ n)

  wait-IsShut :
      (kind : LoopKind) (n : ℕ) (w v : Worker A) → wait kind w ≡ some v → IsShut n w → IsShut n v
  unfolding wait waited wait_and_pop wait_and_pop_for
  wait-IsShut kind n w v h k = ground arith

  Step-IsShut :
      (kind : LoopKind) (insert : List A → A → List A) (n : ℕ) (w v : Worker A)
      → Step kind insert w v
      → IsShut n w
      → IsShut n v
  unfolding start loop_step stop_running stop_queue stop_join shut push
  Step-IsShut kind insert n w v (starts e h) k = ground arith
  Step-IsShut kind insert n w v (loops h) k = ground (arith, wait-IsShut kind n w v)
  Step-IsShut kind insert n w _ (clears e) k = ground arith
  Step-IsShut kind insert n w _ (shuts e) k = (refl, k.1)
  Step-IsShut kind insert n w v (joins e h) k = ground arith
  Step-IsShut kind insert n w _ (pushes event) k = ground arith

  -- Once the queue of a worker is shut it stays shut, whatever is started, stopped and pushed: it
  -- never holds more events than at that time, and every push is refused.
  pub Reach-IsShut :
      (kind : LoopKind) (insert : List A → A → List A) {w v : Worker A}
      → w.queue.shutdown ≡ true
      → Reach kind insert w v
      → (v.queue.shutdown ≡ true)
        × (length v.queue.events ≤ length w.queue.events)
        × ((event : A) → push insert v.queue event ≡ (v.queue, false))
  unfolding push
  Reach-IsShut kind insert {w} {v} e r =
      let k = kept e r in (k.0, k.1, λ event. ground (arith, k.0))
    where
      kept :
          {w v : Worker A}
          → w.queue.shutdown ≡ true
          → Reach kind insert w v
          → IsShut (length w.queue.events) v
      kept e here = (e, omega arith)
      kept {w} e (next {u} {v} r step) =
          Step-IsShut kind insert (length w.queue.events) u v step (kept e r)

  -- A worker that was stopped with `events` in its queue, and started again.
  abbrev pub restarted : List A → Worker A
  restarted events = record {
    running = true;
    queue = record { shutdown = true; events = events };
    thread = at_test;
    caller = outside;
  }

  -- Three steps for each event, and `n` more.
  abbrev pub steps : List A → ℕ → ℕ
  steps [] n = n
  steps (event ∷ events) n = suc (suc (suc (steps events n)))

  run_loop-drains :
      (kind : LoopKind) (n : ℕ) (events : List A)
      → run_loop kind (steps events n) (restarted events) ≡ run_loop kind n (restarted [])
  unfolding run_loop loop_step wait waited wait_and_pop wait_and_pop_for
  run_loop-drains kind n [] = refl
  run_loop-drains breaks n (event ∷ events) = run_loop-drains breaks n events
  run_loop-drains continues n (event ∷ events) = run_loop-drains continues n events
  run_loop-drains polls n (event ∷ events) = run_loop-drains polls n events

  run_loop-spins : (n : ℕ) → run_loop continues (double n) (restarted []) ≡ restarted []
  unfolding run_loop loop_step wait waited wait_and_pop wait_and_pop_for
  run_loop-spins zero = refl
  run_loop-spins (suc n) = run_loop-spins n

  -- A worker that is started again after its queue was shut takes the events that are left. Then
  -- the thread of a worker of a route returns while the worker counts as running, so that a further
  -- `start` does nothing; and the thread of the callback worker goes round its loop without ever
  -- blocking: two steps lead back to where it was, any number of times.
  pub run_loop-restarted :
      (events : List A) (n : ℕ)
      → (run_loop breaks (steps events 2) (restarted events)
          ≡ record (restarted []) { thread = returned })
        × (start (record (restarted []) { thread = returned })
            ≡ some (record (restarted []) { thread = returned }))
        × (run_loop continues (steps events (double n)) (restarted events) ≡ restarted [])
  unfolding run_loop loop_step wait waited wait_and_pop wait_and_pop_for start
  run_loop-restarted events n = (
    run_loop-drains breaks 2 events,
    refl,
    run_loop-drains continues (double n) events ∙ run_loop-spins n,
  )
