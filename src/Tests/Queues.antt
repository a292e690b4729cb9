-- ===== src/Tests/Queues.antt =====
-- The queue policies on a few events.
use printer_fw.Base.{
  ℕ, ◌≡◌, refl, true, false, ◌↔◌, ◌||◌, not, List, [], ◌∷◌, ◌++◌, ◌==◌, select, arith,
}
use printer_fw.Notification.{
  NotificationTarget, data_item, low, high, keep_oldest, keep_latest, PublisherInput, same_target,
}
use printer_fw.Queue.{EventQueue, blocked, wait_and_pop, wait_and_pop_for}
use printer_fw.Queue.Policies.{
  fifo_insert, coalescing_insert, contains, input_priority, priority_compression_insert,
}
use printer_fw.Queue.Fifo.{Op, pushes, pops, shuts, run, accepted, is_shut, run-fifo_insert}
use printer_fw.Queue.Waits.{wait_and_pop-run, after, taken, Brings}
use printer_fw.Queue.Coalescing
use printer_fw.Queue.Priority.{Sorted}
use printer_fw.Queue.Compression.{
  waits_for, OnePerTarget, priority_compression_insert-Sorted, priority_compression_insert-contains,
  priority_compression_insert-OnePerTarget,
}

abbrev history : List (Op ℕ)
history = pushes 2 ∷ pops ∷ shuts ∷ pushes 3 ∷ pops ∷ []

abbrev one_event : EventQueue ℕ
one_event = record { shutdown = false; events = 1 ∷ [] }

run-fifo_insert_example :
    (run fifo_insert one_event history).1 ++ (run fifo_insert one_event history).0.events
    ≡ 1 ∷ [] ++ accepted false history
run-fifo_insert_example = run-fifo_insert false (1 ∷ []) history

-- Of two events another thread takes the first.
abbrev two_pushes : List (Op ℕ)
two_pushes = pushes 2 ∷ pushes 3 ∷ pops ∷ []

wait_and_pop-run_example :
    ((wait_and_pop (after two_pushes) ≡ blocked)
      ↔ ((is_shut two_pushes ≡ false) × (taken two_pushes ≡ accepted false two_pushes)))
    × ((wait_and_pop_for true (after two_pushes) ≡ blocked) ↔ (
        (true ≡ false)
        × (is_shut two_pushes ≡ false)
        × (taken two_pushes ≡ accepted false two_pushes)))
    × (Brings (after two_pushes) 3 [] (wait_and_pop (after two_pushes))
        ↔ (taken two_pushes ++ 3 ∷ [] ≡ accepted false two_pushes))
    × (Brings (after two_pushes) 3 [] (wait_and_pop_for true (after two_pushes))
        ↔ (taken two_pushes ++ 3 ∷ [] ≡ accepted false two_pushes))
wait_and_pop-run_example = wait_and_pop-run true two_pushes 3 []

abbrev key_of : ℕ → ℕ
key_of n = n

select-coalescing_insert_example :
    (select (λ e. e == 1) (coalescing_insert key_of (1 ∷ 2 ∷ []) 1) ≡ 1 ∷ [])
    × (select (λ e. not (e == 1)) (coalescing_insert key_of (1 ∷ 2 ∷ []) 1)
        ≡ select (λ e. not (e == 1)) (1 ∷ 2 ∷ []))
select-coalescing_insert_example =
    Coalescing.select-coalescing_insert key_of (1 ∷ 2 ∷ []) 1 ((omega arith, tt), (tt, tt))

abbrev item_1 : NotificationTarget
item_1 = record { type = data_item; id = 1 }

abbrev waiting : PublisherInput
waiting = record { target = item_1; priority = low; compression_policy = keep_oldest }

abbrev urgent : PublisherInput
urgent = record { target = item_1; priority = high; compression_policy = keep_latest }

priority_compression_insert-Sorted_example :
    Sorted input_priority (priority_compression_insert (waiting ∷ []) urgent)
priority_compression_insert-Sorted_example =
    priority_compression_insert-Sorted (waiting ∷ []) urgent (tt, tt)

priority_compression_insert-contains_example :
    contains (waits_for item_1) (priority_compression_insert (waiting ∷ []) urgent)
    ≡ contains (waits_for item_1) (waiting ∷ []) || same_target item_1 item_1
priority_compression_insert-contains_example =
    priority_compression_insert-contains item_1 (waiting ∷ []) urgent

priority_compression_insert-OnePerTarget_example :
    OnePerTarget (priority_compression_insert (waiting ∷ []) urgent)
unfolding contains
priority_compression_insert-OnePerTarget_example =
    priority_compression_insert-OnePerTarget (waiting ∷ []) urgent (λ h. cc) (refl, tt)

urgent_replaces : priority_compression_insert (waiting ∷ []) urgent ≡ urgent ∷ []
unfolding priority_compression_insert
urgent_replaces = refl
