-- ===== src/Queue/Policies.antt =====
-- core/common/include/QueuePolicy.hpp: what `Insert` of each policy makes of the list of events,
-- oldest first.
use printer_fw.Base.{ℕ, Bool, true, false, List, [], ◌∷◌, ◌++◌, ltb, ◌==◌, if◌then◌else◌}
use printer_fw.Notification.{
  PublisherInput, CompressionPolicy, uncompressed, keep_oldest, keep_latest, priority_ordinal,
  same_target,
}

module _ {A : Type 0} where
  unfoldable pub fifo_insert : List A → A → List A
  fifo_insert events event = events ++ event ∷ []

  -- `events.erase(it); break;`: the first event that passes the test goes.
  unfoldable pub erase_first : (A → Bool) → List A → List A
  erase_first p [] = []
  erase_first p (x ∷ xs) = let rest = erase_first p xs in if p x then xs else x ∷ rest

  unfoldable pub coalescing_insert : (A → ℕ) → List A → A → List A
  unfolding erase_first
  coalescing_insert key events event = erase_first (λ e. key e == key event) events ++ event ∷ []

  -- The new event goes before the first of a lower priority.
  unfoldable pub priority_insert : (A → ℕ) → List A → A → List A
  priority_insert priority [] event = event ∷ []
  priority_insert priority (x ∷ xs) event =
      let rest = priority_insert priority xs event in
      if ltb (priority x) (priority event) then event ∷ x ∷ xs else x ∷ rest

  unfoldable pub contains : (A → Bool) → List A → Bool
  contains p [] = false
  contains p (x ∷ xs) = let rest = contains p xs in if p x then true else rest

abbrev pub input_priority : PublisherInput → ℕ
input_priority e = priority_ordinal e.priority

-- An event that waits for the same target.
abbrev pub rivals : PublisherInput → PublisherInput → Bool
rivals event e = same_target e.target event.target

-- The events that stay when one comes in, or nothing where the new one is dropped.
unfoldable pub compress :
    CompressionPolicy → List PublisherInput → PublisherInput → Bool × List PublisherInput
unfolding contains erase_first
compress uncompressed events event = (true, events)
compress keep_oldest events event =
    if contains (rivals event) events then (false, events) else (true, events)
compress keep_latest events event = (true, erase_first (rivals event) events)

unfoldable pub priority_compression_insert :
    List PublisherInput → PublisherInput → List PublisherInput
unfolding compress priority_insert
priority_compression_insert events event =
    let (accepted, rest) = compress event.compression_policy events event in
    if accepted then priority_insert input_priority rest event else rest
