-- ===== src/Queue/Waits.antt =====
-- The waits of EventQueue (core/common/include/EventQueue.hpp) after a history under `FifoPolicy`.
use printer_fw.Base.{
  ◌≡◌, ◌∙◌, sym, Bool, true, false, List, [], ◌∷◌, ◌++◌, append-nil, some, arith, subst, ◌↔◌,
}
use printer_fw.Queue.Policies.{fifo_insert}
use printer_fw.Queue.{EventQueue, Wait, blocked, woken, empty, wait_and_pop, wait_and_pop_for}
use printer_fw.Queue.Fifo.{is_shut, shutdown-run, Op, run, accepted, run-fifo_insert}

module _ {A : Type 0} where
  append_cancel : (xs ys zs : List A) → xs ++ ys ≡ xs ++ zs → ys ≡ zs
  append_cancel [] ys zs h = h
  append_cancel (x ∷ xs) ys zs h = append_cancel xs ys zs (cc h)

  wait_blocked :
      (timed_out : Bool) (q : EventQueue A)
      → ((wait_and_pop q ≡ blocked) ↔ ((q.shutdown ≡ false) × (q.events ≡ [])))
        × ((wait_and_pop_for timed_out q ≡ blocked)
            ↔ ((timed_out ≡ false) × (q.shutdown ≡ false) × (q.events ≡ [])))
  unfolding wait_and_pop wait_and_pop_for
  wait_blocked timed_out q = ground arith

  -- The wait brings the event and leaves the others.
  abbrev pub Brings : EventQueue A → A → List A → Wait A → Type 0
  Brings q event rest w = w ≡ woken (record q { events = rest }) (some event)

  wait-Brings_parts :
      (timed_out shutdown : Bool) (events : List A) (event : A) (rest : List A)
      → (Brings
            (record { shutdown = shutdown; events = events })
            event
            rest
            (wait_and_pop (record { shutdown = shutdown; events = events }))
          ↔ (events ≡ event ∷ rest))
        × (Brings
              (record { shutdown = shutdown; events = events })
              event
              rest
              (wait_and_pop_for timed_out (record { shutdown = shutdown; events = events }))
            ↔ (events ≡ event ∷ rest))
  unfolding wait_and_pop wait_and_pop_for
  wait-Brings_parts timed_out true [] event rest = ((λ h. cc, λ h. cc), (λ h. cc, λ h. cc))
  wait-Brings_parts timed_out true (x ∷ events) event rest =
      ((λ h. cc, λ h. cc), (λ h. cc, λ h. cc))
  wait-Brings_parts timed_out false (x ∷ events) event rest =
      ((λ h. cc, λ h. cc), (λ h. cc, λ h. cc))
  wait-Brings_parts true false [] event rest = ((λ h. cc, λ h. cc), (λ h. cc, λ h. cc))
  wait-Brings_parts false false [] event rest = ((λ h. cc, λ h. cc), (λ h. cc, λ h. cc))

  -- The queue after a history, and what the history popped.
  abbrev pub after : List (Op A) → EventQueue A
  after ops = (run fifo_insert empty ops).0

  abbrev pub taken : List (Op A) → List A
  taken ops = (run fifo_insert empty ops).1

  events-run :
      (ops : List (Op A)) (left : List A)
      → ((after ops).events ≡ left) ↔ (taken ops ++ left ≡ accepted false ops)
  events-run ops left =
      let whole = run-fifo_insert false [] ops in
      (
        λ e. subst (λ x. taken ops ++ x ≡ accepted false ops) e whole,
        λ e. append_cancel (taken ops) (after ops).events left (whole ∙ sym e),
      )

  -- Whatever pushes, pops and shutdowns a new FIFO queue has seen, in any order: a wait without a
  -- timeout blocks exactly when the queue was not shut down and all that it accepted has been
  -- popped, and a wait with a timeout blocks exactly when moreover its time is not out; and either
  -- wait brings an event and leaves the others exactly when what was popped, the event and the
  -- others, in this order, are what the queue accepted before its shutdown.
  pub wait_and_pop-run :
      (timed_out : Bool) (ops : List (Op A)) (event : A) (rest : List A)
      → ((wait_and_pop (after ops) ≡ blocked)
          ↔ ((is_shut ops ≡ false) × (taken ops ≡ accepted false ops)))
        × ((wait_and_pop_for timed_out (after ops) ≡ blocked)
            ↔ ((timed_out ≡ false) × (is_shut ops ≡ false) × (taken ops ≡ accepted false ops)))
        × (Brings (after ops) event rest (wait_and_pop (after ops))
            ↔ (taken ops ++ event ∷ rest ≡ accepted false ops))
        × (Brings (after ops) event rest (wait_and_pop_for timed_out (after ops))
            ↔ (taken ops ++ event ∷ rest ≡ accepted false ops))
  wait_and_pop-run timed_out ops event rest =
      let down = shutdown-run fifo_insert empty ops in
      let all = events-run ops [] in
      let same = append-nil (taken ops) in
      let (plain, timed) = wait_blocked timed_out (after ops) in
      let (brings, timed_brings) =
        wait-Brings_parts timed_out (after ops).shutdown (after ops).events event rest in
      let left = events-run ops (event ∷ rest) in
      (
        (
          λ h. let (up, none_left) = plain.0 h in (sym down ∙ up, sym same ∙ all.0 none_left),
          λ (up, gone). plain.1 (down ∙ up, all.1 (same ∙ gone)),
        ),
        (
          λ h.
              let (early, up, none_left) = timed.0 h in
              (early, sym down ∙ up, sym same ∙ all.0 none_left),
          λ (early, up, gone). timed.1 (early, down ∙ up, all.1 (same ∙ gone)),
        ),
        (λ h. left.0 (brings.0 h), λ e. brings.1 (left.1 e)),
        (λ h. left.0 (timed_brings.0 h), λ e. timed_brings.1 (left.1 e)),
      )
