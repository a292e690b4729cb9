-- ===== src/Worker/Shutdown.antt =====
-- Starting and stopping a worker.
use printer_fw.Base.{
  ◌≡◌, ◌≢◌, ◌+◌, ◌≤◌, refl, true, false, some, List, [], ◌∷◌, arith, length, ◌∙◌, Bool-cases, inl,
  inr, ap,
}
use printer_fw.Queue.{EventQueue, push, shut, wait_and_pop, wait_and_pop_for}
use printer_fw.Worker.{
  LoopKind, breaks, continues, polls, Thread, absent, at_test, at_wait, returned, at_work, outside,
  joining, Worker, new_worker, start, wait, waited, loop_step, stop_running, stop_queue, stop_join,
  Step, starts, loops, clears, shuts, joins, pushes, Reach, here, next, run_loop,
}

-- What holds at each place of the call of `stop`.
pub record IsValid {A : Type 0} (w : Worker A) : Type 0 where
  pub idle : w.caller ≡ outside → w.running ≡ false → w.thread ≡ absent
  pub live : w.running ≡ true → w.thread ≢ absent
  pub clear : w.caller ≢ outside → w.running ≡ false
  pub shut : w.caller ≡ joining → w.queue.shutdown ≡ true

module _ {A : Type 0} where
  new_worker-IsValid : IsValid (new_worker {A = A})
  new_worker-IsValid = record {
    idle = λ e f. refl;
    live = λ e. cc;
    clear = λ n. refl;
    shut = λ e. cc;
  }

  start-IsValid : (w v : Worker A) → w.caller ≡ outside → start w ≡ some v → IsValid w → IsValid v
  unfolding start
  start-IsValid w v e h k = ground arith

  wait_keeps :
      (kind : LoopKind) (w v : Worker A)
      → wait kind w ≡ some v
      → (v.running ≡ w.running)
        × (v.caller ≡ w.caller)
        × (v.queue.shutdown ≡ w.queue.shutdown)
        × (v.thread ≢ absent)
  unfolding wait waited wait_and_pop wait_and_pop_for
  wait_keeps kind w v h = ground arith

  loop_step-IsValid :
      (kind : LoopKind) (w v : Worker A) → loop_step kind w ≡ some v → IsValid w → IsValid v
  unfolding loop_step
  loop_step-IsValid kind w v h k = ground (arith, wait_keeps kind w v)

  push_shutdown :
      (insert : List A → A → List A) (q : EventQueue A) (event : A)
      → (push insert q event).0.shutdown ≡ q.shutdown
  unfolding push
  push_shutdown insert q event = ground arith

  Step-IsValid :
      (kind : LoopKind) (insert : List A → A → List A) (w v : Worker A)
      → Step kind insert w v
      → IsValid w
      → IsValid v
  unfolding stop_running stop_queue stop_join shut
  Step-IsValid kind insert w v (starts e h) k = start-IsValid w v e h k
  Step-IsValid kind insert w v (loops h) k = loop_step-IsValid kind w v h k
  Step-IsValid kind insert w _ (clears e) k = ground arith
  Step-IsValid kind insert w _ (shuts e) k = ground arith
  Step-IsValid kind insert w v (joins e h) k = ground arith
  Step-IsValid kind insert w _ (pushes event) k = record {
    idle = k.idle;
    live = k.live;
    clear = k.clear;
    shut = λ e. push_shutdown insert w.queue event ∙ k.shut e;
  }

  Reach-IsValid :
      (kind : LoopKind) (insert : List A → A → List A) {w v : Worker A}
      → IsValid w
      → Reach kind insert w v
      → IsValid v
  Reach-IsValid kind insert k here = k
  Reach-IsValid kind insert k (next {u} {v} r step) =
      Step-IsValid kind insert u v step (Reach-IsValid kind insert k r)

  -- In every run of a worker, when no call of `stop` is under way, `start` is defined, so it never
  -- assigns to a thread that was not joined, and the worker then runs and has a thread.
  pub start-Reach :
      (kind : LoopKind) (insert : List A → A → List A) (w : Worker A)
      → Reach kind insert new_worker w
      → w.caller ≡ outside
      → (v : Worker A) × (start w ≡ some v) × (v.running ≡ true) × (v.thread ≢ absent)
  unfolding start
  start-Reach kind insert w r e =
      let k = Reach-IsValid kind insert new_worker-IsValid r in
      elim (Bool-cases w.running) [
        | inl run ↦ (w, ground arith, run, k.live run)
        | inr stop ↦
            let free = k.idle e stop in
            (record w { running = true; thread = at_test }, ground arith, refl, λ h. cc)
      ]

  -- The worker when `join` is called, and when it has returned.
  abbrev at_join : List A → Thread A → Worker A
  at_join events thread = record {
    running = false;
    queue = record { shutdown = true; events = events };
    thread = thread;
    caller = joining;
  }

  abbrev at_end : List A → Worker A
  at_end events = record (at_join events absent) { caller = outside }

  -- Within three steps of its own the thread returns, and it takes one event at most.
  join_ends :
      (kind : LoopKind) (events : List A) (thread : Thread A)
      → (rest : List A) × (stop_join (run_loop kind 3 (at_join events thread)) ≡ some (at_end rest))
        × (length events ≤ length rest + 1)
  unfolding run_loop loop_step wait waited wait_and_pop wait_and_pop_for stop_join
  join_ends kind events absent = (events, refl, omega arith)
  join_ends kind events at_test = (events, refl, omega arith)
  join_ends kind events returned = (events, refl, omega arith)
  join_ends kind events (at_work event) = (events, refl, omega arith)
  join_ends breaks [] at_wait = ([], refl, omega arith)
  join_ends breaks (event ∷ events) at_wait = (events, refl, omega arith)
  join_ends continues [] at_wait = ([], refl, omega arith)
  join_ends continues (event ∷ events) at_wait = (events, refl, omega arith)
  join_ends polls [] at_wait = ([], refl, omega arith)
  join_ends polls (event ∷ events) at_wait = (events, refl, omega arith)

  -- In every run of a worker, of the workers of the routes, the callback worker or the publisher
  -- worker: when `stop` gets to its join, the worker's thread returns within three more steps of
  -- its own and takes one event at most from the queue, pushes are refused meanwhile, and the join
  -- leaves a worker that does not run and has no thread.
  pub stop-Reach :
      (kind : LoopKind) (insert : List A → A → List A) (w : Worker A)
      → Reach kind insert new_worker w
      → w.caller ≡ joining
      → (v : Worker A) × (stop_join (run_loop kind 3 w) ≡ some v)
        × (v.running ≡ false)
        × (v.thread ≡ absent)
        × (v.caller ≡ outside)
        × (length w.queue.events ≤ length v.queue.events + 1)
        × ((event : A) → push insert w.queue event ≡ (w.queue, false))
  unfolding push
  stop-Reach kind insert w r e =
      let k = Reach-IsValid kind insert new_worker-IsValid r in
      let (rest, ends, bound) = join_ends kind w.queue.events w.thread in
      let same : w ≡ at_join w.queue.events w.thread = ground (arith, k.clear, k.shut e) in
      (
        at_end rest,
        ap (λ u. stop_join (run_loop kind 3 u)) same ∙ ends,
        refl,
        refl,
        refl,
        bound,
        λ event. ground (arith, k.shut e),
      )
