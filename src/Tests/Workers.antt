-- ===== src/Tests/Workers.antt =====
-- The life of a worker that takes numbers.
use printer_fw.Base.{ℕ, ◌+◌, ◌≤◌, ◌≡◌, ◌≢◌, refl, true, false, some, List, [], ◌∷◌, length}
use printer_fw.Queue.{push, shut}
use printer_fw.Queue.Policies.{fifo_insert}
use printer_fw.Worker.{
  breaks, continues, absent, at_wait, returned, outside, joining, Worker, new_worker, start,
  loop_step, stop_running, stop_queue, stop_join, Reach, here, next, starts, loops, clears, shuts,
  pushes, run_loop,
}
use printer_fw.Worker.Shutdown.{start-Reach, stop-Reach}
use printer_fw.Worker.Restart.{restarted, steps, double, Reach-IsShut, run_loop-restarted}

abbrev fresh : Worker ℕ
fresh = new_worker

-- Started, in the wait, with two events in the queue.
abbrev waiting : Worker ℕ
waiting = record {
  running = true;
  queue = record { shutdown = false; events = 5 ∷ 6 ∷ [] };
  thread = at_wait;
  caller = outside;
}

waiting_reached : Reach breaks fifo_insert fresh waiting
unfolding start loop_step push fifo_insert
waiting_reached =
    next (next (next (next here (starts refl refl)) (pushes 5)) (pushes 6)) (loops refl)

-- Then stopped, up to the join.
abbrev stopping : Worker ℕ
stopping = record {
  running = false;
  queue = record { shutdown = true; events = 5 ∷ 6 ∷ [] };
  thread = at_wait;
  caller = joining;
}

stopping_reached : Reach breaks fifo_insert fresh stopping
unfolding stop_running stop_queue shut
stopping_reached = next (next waiting_reached (clears refl)) (shuts refl)

start-Reach_example :
    (v : Worker ℕ) × (start waiting ≡ some v) × (v.running ≡ true) × (v.thread ≢ absent)
start-Reach_example = start-Reach breaks fifo_insert waiting waiting_reached refl

stop-Reach_example :
    (v : Worker ℕ) × (stop_join (run_loop breaks 3 stopping) ≡ some v)
    × (v.running ≡ false)
    × (v.thread ≡ absent)
    × (v.caller ≡ outside)
    × (2 ≤ length v.queue.events + 1)
    × ((event : ℕ) → push fifo_insert stopping.queue event ≡ (stopping.queue, false))
stop-Reach_example = stop-Reach breaks fifo_insert stopping stopping_reached refl

after_push : Reach breaks fifo_insert stopping stopping
unfolding push
after_push = next here (pushes 7)

Reach-IsShut_example :
    (stopping.queue.shutdown ≡ true)
    × (length stopping.queue.events ≤ length stopping.queue.events)
    × ((event : ℕ) → push fifo_insert stopping.queue event ≡ (stopping.queue, false))
Reach-IsShut_example = Reach-IsShut breaks fifo_insert refl after_push

abbrev two_events : List ℕ
two_events = 5 ∷ 6 ∷ []

run_loop-restarted_example :
    (run_loop breaks (steps two_events 2) (restarted two_events)
      ≡ record (restarted []) { thread = returned })
    × (start (record (restarted {A = ℕ} []) { thread = returned })
        ≡ some (record (restarted []) { thread = returned }))
    × (run_loop continues (steps two_events (double 4)) (restarted two_events) ≡ restarted [])
run_loop-restarted_example = run_loop-restarted two_events 4
