-- ===== src/Queue/Fifo.antt =====
-- Histories of one EventQueue (core/common/include/EventQueue.hpp) under `FifoPolicy`, against the
-- sequence of the events that it accepted.
use printer_fw.Base.{
  ◌≡◌, refl, ap, ◌∙◌, sym, Bool, true, false, List, [], ◌∷◌, ◌++◌, append-nil, append_assoc, Option,
  none, some, arith, ◌||◌,
}
use printer_fw.Queue.Policies.{fifo_insert}
use printer_fw.Queue.{EventQueue, push, try_pop, shut}

pub data Op (A : Type 0) : Type 0 where
  pushes : A → Op A
  pops : Op A
  shuts : Op A

module _ {A : Type 0} where
  abbrev pub to_list : Option A → List A
  to_list none = []
  to_list (some a) = a ∷ []

  pub step : (List A → A → List A) → EventQueue A → Op A → EventQueue A × List A
  step insert q (pushes a) = ((push insert q a).0, [])
  step insert q pops = let (q', out) = try_pop q in (q', to_list out)
  step insert q shuts = (shut q, [])

  -- The queue at the end, and what was popped, oldest first.
  pub run : (List A → A → List A) → EventQueue A → List (Op A) → EventQueue A × List A
  run insert q [] = (q, [])
  run insert q (op ∷ ops) =
      let (q', out) = step insert q op in let (q'', rest) = run insert q' ops in (q'', out ++ rest)

  -- The events that a history pushes before it first shuts the queue down.
  pub accepted : Bool → List (Op A) → List A
  accepted down [] = []
  accepted true (op ∷ ops) = []
  accepted false (pushes a ∷ ops) = a ∷ accepted false ops
  accepted false (pops ∷ ops) = accepted false ops
  accepted false (shuts ∷ ops) = []

  accepted-true : (ops : List (Op A)) → accepted true ops ≡ []
  unfolding accepted
  accepted-true [] = refl
  accepted-true (op ∷ ops) = refl

  -- Whatever the history of pushes, pops and shutdowns of a FIFO queue, what was popped followed by
  -- what is left is what was there at the start followed by what was pushed before the shutdown:
  -- nothing is lost, made up or reordered.
  pub run-fifo_insert :
      (down : Bool) (events : List A) (ops : List (Op A))
      → (run fifo_insert (record { shutdown = down; events = events }) ops).1
          ++ (run fifo_insert (record { shutdown = down; events = events }) ops).0.events
        ≡ events ++ accepted down ops
  unfolding run step accepted push try_pop shut fifo_insert
  run-fifo_insert true events [] = sym (append-nil events)
  run-fifo_insert false events [] = sym (append-nil events)
  run-fifo_insert true events (pushes a ∷ ops) =
      run-fifo_insert true events ops ∙ ap (◌++◌ events) (accepted-true ops)
  run-fifo_insert false events (pushes a ∷ ops) =
      run-fifo_insert false (events ++ a ∷ []) ops ∙ append_assoc events (a ∷ []) _
  run-fifo_insert true [] (pops ∷ ops) = run-fifo_insert true [] ops ∙ accepted-true ops
  run-fifo_insert false [] (pops ∷ ops) = run-fifo_insert false [] ops
  run-fifo_insert true (x ∷ events) (pops ∷ ops) =
      ap (◌∷◌ x) (run-fifo_insert true events ops ∙ ap (◌++◌ events) (accepted-true ops))
  run-fifo_insert false (x ∷ events) (pops ∷ ops) = ap (◌∷◌ x) (run-fifo_insert false events ops)
  run-fifo_insert true events (shuts ∷ ops) =
      run-fifo_insert true events ops ∙ ap (◌++◌ events) (accepted-true ops)
  run-fifo_insert false events (shuts ∷ ops) =
      run-fifo_insert true events ops ∙ ap (◌++◌ events) (accepted-true ops)

  -- The history shuts the queue down.
  pub is_shut : List (Op A) → Bool
  is_shut [] = false
  is_shut (shuts ∷ ops) = true
  is_shut (pushes a ∷ ops) = is_shut ops
  is_shut (pops ∷ ops) = is_shut ops

  pub shutdown-run :
      (insert : List A → A → List A) (q : EventQueue A) (ops : List (Op A))
      → (run insert q ops).0.shutdown ≡ q.shutdown || is_shut ops
  unfolding run step push try_pop shut is_shut
  shutdown-run insert q [] = ground arith
  shutdown-run insert q (pushes a ∷ ops) =
      shutdown-run insert (push insert q a).0 ops ∙ ground arith
  shutdown-run insert q (pops ∷ ops) = shutdown-run insert (try_pop q).0 ops ∙ ground arith
  shutdown-run insert q (shuts ∷ ops) = shutdown-run insert (shut q) ops ∙ ground arith
