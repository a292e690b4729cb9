-- ===== src/Queue/Compression.antt =====
-- `PriorityCompressionPolicy` of core/common/include/QueuePolicy.hpp, the policy of the publisher's
-- queue, by the targets of the events.
use printer_fw.Base.{
  ◌≡◌, ◌≢◌, refl, ap, Bool, true, false, ◌||◌, List, [], ◌∷◌, ltb, if◌then◌else◌, arith, inl, inr,
  Bool-cases, ◌∙◌, subst,
}
use printer_fw.Notification.{
  PublisherInput, NotificationTarget, CompressionPolicy, uncompressed, keep_oldest, keep_latest,
  same_target, same_target_iff,
}
use printer_fw.Queue.Policies.{
  priority_insert, erase_first, contains, compress, rivals, input_priority,
  priority_compression_insert,
}
use printer_fw.Queue.Priority.{Sorted, priority_insert-Sorted, erase_first-Sorted}

compress-Sorted :
    (policy : CompressionPolicy) (events : List PublisherInput) (event : PublisherInput)
    → Sorted input_priority events
    → Sorted input_priority (compress policy events event).1
unfolding compress
compress-Sorted uncompressed events event s = s
compress-Sorted keep_oldest events event s = elim (Bool-cases (contains (rivals event) events)) [
  | inl e ↦ rw e s
  | inr e ↦ rw e s
]
compress-Sorted keep_latest events event s =
    erase_first-Sorted input_priority (rivals event) events s

-- A queue in falling order of priority is so after an insertion, whatever the compression.
pub priority_compression_insert-Sorted :
    (events : List PublisherInput) (event : PublisherInput)
    → Sorted input_priority events
    → Sorted input_priority (priority_compression_insert events event)
unfolding priority_compression_insert
priority_compression_insert-Sorted events event s =
    let (accepted, rest) = compress event.compression_policy events event in
    let kept = compress-Sorted event.compression_policy events event s in
    elim (Bool-cases (compress event.compression_policy events event).0) [
      | inl e ↦ rw e (priority_insert-Sorted input_priority rest event kept)
      | inr e ↦ rw e kept
    ]

-- The test for an event that waits for `t`.
abbrev pub waits_for : NotificationTarget → PublisherInput → Bool
waits_for t e = same_target e.target t

contains-priority_insert :
    (p : PublisherInput → Bool) (events : List PublisherInput) (event : PublisherInput)
    → contains p (priority_insert input_priority events event) ≡ contains p events || p event
unfolding contains priority_insert
contains-priority_insert p [] event = ground arith
contains-priority_insert p (x ∷ xs) event = ground (arith, contains-priority_insert p xs event)

same_target_trans :
    (a b t : NotificationTarget) → same_target a b ≡ true → same_target a t ≡ same_target b t
same_target_trans a b t h = ap (λ x. same_target x t) ((same_target_iff a b).0 h)

or_if : (a b : Bool) → b || a ≡ (if a then true else b) || a
or_if true true = refl
or_if true false = refl
or_if false b = refl

if_or : (a b : Bool) → (if a then true else b) ≡ (if a then true else b) || a
if_or true b = refl
if_or false true = refl
if_or false false = refl

or_branch :
    (w p q s : Bool) → p || s ≡ q || s → (if w then true else p) || s ≡ (if w then true else q) || s
or_branch true p q s h = refl
or_branch false p q s h = h

or_keep : (w p s : Bool) → p ≡ p || s → (if w then true else p) ≡ (if w then true else p) || s
or_keep true p s h = refl
or_keep false p s h = h

contains-erase_first :
    (t : NotificationTarget) (events : List PublisherInput) (event : PublisherInput)
    → contains (waits_for t) (erase_first (rivals event) events) || same_target event.target t
      ≡ contains (waits_for t) events || same_target event.target t
unfolding contains erase_first
contains-erase_first t [] event = refl
contains-erase_first t (x ∷ xs) event = elim (Bool-cases (rivals event x)) [
  | inl e ↦
      rw (e, same_target_trans x.target event.target t e)
        (or_if (same_target event.target t) (contains (waits_for t) xs))
  | inr e ↦ rw e (or_branch (waits_for t x) _ _ _ (contains-erase_first t xs event))
]

contains_rival :
    (t : NotificationTarget) (events : List PublisherInput) (event : PublisherInput)
    → contains (rivals event) events ≡ true
    → contains (waits_for t) events ≡ contains (waits_for t) events || same_target event.target t
unfolding contains
contains_rival t [] event h = cc
contains_rival t (x ∷ xs) event h = elim (Bool-cases (rivals event x)) [
  | inl e ↦
      rw (same_target_trans x.target event.target t e)
        (if_or (same_target event.target t) (contains (waits_for t) xs))
  | inr e ↦ or_keep (waits_for t x) _ _ (contains_rival t xs event (rw e at h))
]

compress-contains :
    (policy : CompressionPolicy) (t : NotificationTarget) (events : List PublisherInput)
    (event : PublisherInput)
    → (if (compress policy events event).0
        then contains (waits_for t) (compress policy events event).1 || same_target event.target t
        else contains (waits_for t) (compress policy events event).1)
      ≡ contains (waits_for t) events || same_target event.target t
unfolding compress
compress-contains uncompressed t events event = refl
compress-contains keep_oldest t events event = elim (Bool-cases (contains (rivals event) events)) [
  | inl e ↦ rw e (contains_rival t events event e)
  | inr e ↦ rw e refl
]
compress-contains keep_latest t events event = contains-erase_first t events event

-- Compression loses no target: after an insertion the queue has an event for `t` exactly when it
-- had one before or the new event is one.
pub priority_compression_insert-contains :
    (t : NotificationTarget) (events : List PublisherInput) (event : PublisherInput)
    → contains (waits_for t) (priority_compression_insert events event)
      ≡ contains (waits_for t) events || same_target event.target t
unfolding priority_compression_insert
priority_compression_insert-contains t events event =
    let (accepted, rest) = compress event.compression_policy events event in
    let counted = compress-contains event.compression_policy t events event in
    elim (Bool-cases (compress event.compression_policy events event).0) [
      | inl e ↦ rw e (contains-priority_insert (waits_for t) rest event ∙ (rw e at counted))
      | inr e ↦ rw e (rw e at counted)
    ]

-- No two events wait for one target.
abbrev pub OnePerTarget : List PublisherInput → Type 0
OnePerTarget [] = Unit
OnePerTarget (x ∷ xs) = (contains (waits_for x.target) xs ≡ false) × OnePerTarget xs

erase_first-free :
    (p q : PublisherInput → Bool) (xs : List PublisherInput)
    → contains p xs ≡ false
    → contains p (erase_first q xs) ≡ false
unfolding contains erase_first
erase_first-free p q [] h = h
erase_first-free p q (x ∷ xs) h = ground (arith, erase_first-free p q xs)

erase_first-OnePerTarget :
    (q : PublisherInput → Bool) (xs : List PublisherInput)
    → OnePerTarget xs
    → OnePerTarget (erase_first q xs)
unfolding erase_first
erase_first-OnePerTarget q [] h = tt
erase_first-OnePerTarget q (x ∷ xs) h =
    ground
      (arith, erase_first-OnePerTarget q xs h.1, erase_first-free (waits_for x.target) q xs h.0)

if_false : (a b : Bool) → (if a then true else b) ≡ false → (a ≡ false) × (b ≡ false)
if_false true b h = cc
if_false false b h = (refl, h)

or_false : (a b : Bool) → a ≡ false → b ≡ false → a || b ≡ false
or_false a b h k = rw (h, k)

same_target_comm : (a b : NotificationTarget) → same_target a b ≡ same_target b a
same_target_comm a b = ground arith

priority_insert-OnePerTarget :
    (xs : List PublisherInput) (event : PublisherInput)
    → OnePerTarget xs
    → contains (rivals event) xs ≡ false
    → OnePerTarget (priority_insert input_priority xs event)
unfolding priority_insert contains
priority_insert-OnePerTarget [] event h free = (refl, tt)
priority_insert-OnePerTarget (x ∷ xs) event h free =
    elim (Bool-cases (ltb (input_priority x) (input_priority event))) [
      | inl e ↦ rw e (free, h)
      | inr e ↦ rw e (
        contains-priority_insert (waits_for x.target) xs event
            ∙ or_false _ _ h.0 (same_target_comm event.target x.target ∙ (if_false _ _ free).0),
        priority_insert-OnePerTarget xs event h.1 (if_false _ _ free).1,
      )
    ]

erase_first-rivals :
    (event : PublisherInput) (xs : List PublisherInput)
    → OnePerTarget xs
    → contains (rivals event) (erase_first (rivals event) xs) ≡ false
unfolding contains erase_first
erase_first-rivals event [] h = refl
erase_first-rivals event (x ∷ xs) h = elim (Bool-cases (rivals event x)) [
  | inl e ↦ rw e (subst (λ t. contains (waits_for t) xs ≡ false) ((same_target_iff _ _).0 e) h.0)
  | inr e ↦ rw (e, e) (erase_first-rivals event xs h.1)
]

compress-OnePerTarget :
    (policy : CompressionPolicy) (events : List PublisherInput) (event : PublisherInput)
    → policy ≢ uncompressed
    → OnePerTarget events
    → OnePerTarget (compress policy events event).1
      × ((compress policy events event).0 ≡ true
          → contains (rivals event) (compress policy events event).1 ≡ false)
unfolding compress
compress-OnePerTarget uncompressed events event policy h = absurd (policy refl)
compress-OnePerTarget keep_oldest events event policy h =
    elim (Bool-cases (contains (rivals event) events)) [
      | inl e ↦ rw e (h, λ c. cc)
      | inr e ↦ rw e (h, λ c. e)
    ]
compress-OnePerTarget keep_latest events event policy h =
    (erase_first-OnePerTarget (rivals event) events h, λ _. erase_first-rivals event events h)

-- If an event asks for a compression and the queue holds one event at most for each target, it does
-- so after the insertion.
pub priority_compression_insert-OnePerTarget :
    (events : List PublisherInput) (event : PublisherInput)
    → event.compression_policy ≢ uncompressed
    → OnePerTarget events
    → OnePerTarget (priority_compression_insert events event)
unfolding priority_compression_insert
priority_compression_insert-OnePerTarget events event policy h =
    let (accepted, rest) = compress event.compression_policy events event in
    let kept = compress-OnePerTarget event.compression_policy events event policy h in
    elim (Bool-cases (compress event.compression_policy events event).0) [
      | inl e ↦ rw e (priority_insert-OnePerTarget rest event kept.0 (kept.1 e))
      | inr e ↦ rw e kept.0
    ]
