-- ===== src/Capability/Progress.antt =====
-- Passes of CapabilityWorker::Process (core/capability/src/CapabilityWorker.cpp).
use printer_fw.Base.{
  ℕ, ◌≡◌, ◌≢◌, ℕ_discrete, ==_iff, ◌∙◌, refl, sym, subst, Bool, true, false, ◌||◌, Option, none,
  some, List, [], ◌∷◌, ◌==◌, if◌then◌else◌, ◌>>=◌, some_inv, >>=-eq-some, Bool-cases, inl, inr,
}
use printer_fw.Base.Maps
use printer_fw.Notification.{
  NotificationTarget, capability, data_item, PublisherInput, same_target_iff,
}
use printer_fw.Queue.{EventQueue, push}
use printer_fw.Queue.Policies.{priority_compression_insert, contains}
use printer_fw.Queue.Compression.{waits_for, priority_compression_insert-contains}
use printer_fw.Value.{Memory, RimValue, RimDataItem}
use printer_fw.Storage.{Registry, get_or_create, find_item, store_in, memory_of}
use printer_fw.Storage.Registry.{IsSound, SlotIsSound, get_or_create-IsSound, store_in-IsSound}
use printer_fw.Product.{
  BuildCallback, DiffCallback, CapabilityItemDefinition, FacadeItemDefinition, RimSnapshot,
}
use printer_fw.Product.Context.{
  ProductContext, capabilities_on, facades_on, find_facade_domain_id, find_capability_domain_id,
}
use printer_fw.Capability.{
  invalid_data_id, is_changed_item, store_changed, evaluate_in, evaluate, evaluate_capability,
  evaluate_facade, CapabilityState, announce, publish_facade, publish_facade_changes,
  publish_capability, publish_capability_changes, process, capability_snapshot, facade_snapshot,
}

-- An event for `target` waits in the publisher's queue.
abbrev pub Waits : NotificationTarget → EventQueue PublisherInput → Type 0
Waits target q = contains (waits_for target) q.events ≡ true

-- From `s` to `t` the storages stay sound, and no target that waits is lost.
pub record Extends (s t : CapabilityState) : Type 0 where
  pub sound : IsSound s.store → IsSound t.store
  pub flag_kept : t.publisher_queue.shutdown ≡ s.publisher_queue.shutdown
  pub waiting :
      (target : NotificationTarget)
      → Waits target s.publisher_queue
      → Waits target t.publisher_queue

Extends-refl : (s : CapabilityState) → Extends s s
Extends-refl s = record { sound = λ h. h; flag_kept = refl; waiting = λ target h. h }

Extends-trans : (s t u : CapabilityState) → Extends s t → Extends t u → Extends s u
Extends-trans s t u h k = record {
  sound = λ x. k.sound (h.sound x);
  flag_kept = k.flag_kept ∙ h.flag_kept;
  waiting = λ target x. k.waiting target (h.waiting target x);
}

Extends-store :
    (s : CapabilityState) (r : Registry)
    → (IsSound s.store → IsSound r)
    → Extends s (record s { store = r })
Extends-store s r h = record { sound = h; flag_kept = refl; waiting = λ target x. x }

or_true : (a b : Bool) → a ≡ true → a || b ≡ true
or_true a b h = rw h refl

push_waits :
    (q : EventQueue PublisherInput) (event : PublisherInput) (target : NotificationTarget)
    → Waits target q
    → Waits target (push priority_compression_insert q event).0
unfolding push
push_waits q event target h = elim (Bool-cases q.shutdown) [
  | inl e ↦ rw e h
  | inr e ↦ rw e (priority_compression_insert-contains target q.events event ∙ or_true _ _ h)
]

push_shutdown :
    (q : EventQueue PublisherInput) (event : PublisherInput)
    → (push priority_compression_insert q event).0.shutdown ≡ q.shutdown
unfolding push
push_shutdown q event = elim (Bool-cases q.shutdown) [ inl e ↦ rw e refl | inr e ↦ rw e refl ]

or_true_right : (a b : Bool) → b ≡ true → a || b ≡ true
or_true_right true b h = refl
or_true_right false b h = h

push_announces :
    (q : EventQueue PublisherInput) (event : PublisherInput)
    → q.shutdown ≡ false
    → Waits event.target (push priority_compression_insert q event).0
unfolding push
push_announces q event e = rw e (
    priority_compression_insert-contains event.target q.events event
    ∙ or_true_right _ _ ((same_target_iff event.target event.target).1 refl))

announce-Extends :
    (context : ProductContext) (target : NotificationTarget) (s : CapabilityState)
    → Extends s (announce context target s)
unfolding announce
announce-Extends context target s = record {
  sound = λ h. h;
  flag_kept = push_shutdown s.publisher_queue _;
  waiting = λ other h. push_waits s.publisher_queue _ other h;
}

pub store_changed-IsSound :
    (memory : Memory) (domain : ℕ) (r : Registry) (item : RimDataItem) (changed : Bool)
    (answer : Registry × Bool)
    → store_changed memory domain r item changed ≡ some answer
    → IsSound r
    → IsSound answer.0
unfolding store_changed
store_changed-IsSound memory domain r item false answer h sound =
    subst (λ a. IsSound a.0) (sym (some_inv h)) sound
store_changed-IsSound memory domain r item true answer h sound =
    branch (store_in memory domain item r) refl h
  where
    branch :
        (o : Option Registry)
        → store_in memory domain item r ≡ o
        → (o >>= λ r'. some (r', true)) ≡ some answer
        → IsSound answer.0
    branch none e k = cc
    branch (some r') e k =
        subst (λ a. IsSound a.0) (sym (some_inv k))
          ((store_in-IsSound memory domain item r r' e sound).0)

pub get_or_create-registry :
    (domain : ℕ) (r : Registry) → IsSound r → IsSound (get_or_create domain r).1
get_or_create-registry domain r sound j =
    let (slot, found, others) = get_or_create-IsSound domain r sound in
    elim (ℕ_discrete domain j) [
      | yes e ↦
          subst (λ k. SlotIsSound k (Maps.find k (get_or_create domain r).1)) e
            (subst (SlotIsSound domain) (sym found) slot)
      | no ne ↦ subst (SlotIsSound j) (sym (others j ne)) (sound j)
    ]

module _ (context : ProductContext) where
  announced_waits :
      (s : CapabilityState) (id : ℕ)
      → s.publisher_queue.shutdown ≡ false
      → Waits
          (record { type = data_item; id = id })
          (announce context (record { type = data_item; id = id }) s).publisher_queue
  unfolding announce
  announced_waits s id up = push_announces s.publisher_queue _ up

module _ (caller : ℕ → List ℕ) where
  evaluate_in-IsSound :
      (diff : DiffCallback) (domain : ℕ) (r : Registry) (item : RimDataItem)
      (answer : Registry × Bool)
      → evaluate_in caller diff domain r item ≡ some answer
      → IsSound r
      → IsSound answer.0
  unfolding evaluate_in
  evaluate_in-IsSound diff domain r item answer h sound =
      branch
        (is_changed_item (memory_of caller r') diff (find_item (get_or_create domain r).0 item.id)
          item.value)
        h
    where
      r' : Registry
      r' = (get_or_create domain r).1

      branch :
          (o : Option Bool)
          → (o >>= store_changed (memory_of caller r') domain r' item) ≡ some answer
          → IsSound answer.0
      branch none k = cc
      branch (some changed) k =
          store_changed-IsSound (memory_of caller r') domain r' item changed answer k
            (get_or_create-registry domain r sound)

  pub evaluate-IsSound :
      (build : BuildCallback) (diff : DiffCallback) (domain id : ℕ) (r : Registry)
      (snapshot : RimSnapshot) (answer : Registry × Bool)
      → evaluate caller build diff domain id r snapshot ≡ some answer
      → IsSound r
      → IsSound answer.0
  unfolding evaluate
  evaluate-IsSound build diff domain id r snapshot answer h sound =
      branch (build (memory_of caller r) snapshot) h
    where
      branch :
          (o : Option RimValue)
          → (o >>= λ new.
              if domain == 0
              then some (r, false)
              else evaluate_in caller diff domain r (record { id = id; value = new }))
            ≡ some answer
          → IsSound answer.0
      branch none k = cc
      branch (some new) k = elim (Bool-cases (domain == 0)) [
        | inl e ↦ subst (λ a. IsSound a.0) (sym (some_inv (rw e at k))) sound
        | inr e ↦
            evaluate_in-IsSound diff domain r (record { id = id; value = new }) answer (rw e at k)
              sound
      ]

module _ (caller : ℕ → List ℕ) (context : ProductContext) where
  publish_facade-Extends :
      (s : CapabilityState) (id : ℕ) (answer : Registry × Bool)
      → (IsSound s.store → IsSound answer.0)
      → Extends s (publish_facade caller context s id answer)
  unfolding publish_facade
  publish_facade-Extends s id (r, false) h = Extends-store s r h
  publish_facade-Extends s id (r, true) h =
      Extends-trans s (record s { store = r }) _ (Extends-store s r h)
        (announce-Extends context _ _)

  publish_facade_changes-Extends :
      (s t : CapabilityState) (fs : List FacadeItemDefinition)
      → publish_facade_changes caller context s fs ≡ some t
      → Extends s t
  unfolding publish_facade_changes evaluate_facade
  publish_facade_changes-Extends s t [] h = subst (Extends s) (some_inv (sym h)) (Extends-refl s)
  publish_facade_changes-Extends s t (f ∷ fs) h =
      let (answer, evaluated, rest) =
        >>=-eq-some (evaluate_facade caller context s.store f)
          (λ answer.
            publish_facade_changes caller context (publish_facade caller context s f.id answer) fs)
          h in
      Extends-trans s (publish_facade caller context s f.id answer) t
        (publish_facade-Extends s f.id answer (
          evaluate-IsSound caller f.build f.diff (find_facade_domain_id context f.id) f.id s.store
            (facade_snapshot context s.store f.id) answer evaluated))
        (publish_facade_changes-Extends (publish_facade caller context s f.id answer) t fs rest)

  publish_capability-Extends :
      (s t : CapabilityState) (id : ℕ) (answer : Registry × Bool)
      → publish_capability caller context s id answer ≡ some t
      → (IsSound s.store → IsSound answer.0)
      → Extends s t
  unfolding publish_capability
  publish_capability-Extends s t id (r, false) h sound =
      subst (Extends s) (some_inv (sym h)) (Extends-store s r sound)
  publish_capability-Extends s t id (r, true) h sound =
      let stored : CapabilityState = record s { store = r } in
      let announced = announce context (record { type = capability; id = id }) stored in
      Extends-trans s stored t (Extends-store s r sound) (
        Extends-trans stored announced t (announce-Extends context _ stored)
          (publish_facade_changes-Extends announced t (facades_on context id) h))

  publish_capability_changes-Extends :
      (s t : CapabilityState) (cs : List CapabilityItemDefinition)
      → publish_capability_changes caller context s cs ≡ some t
      → Extends s t
  unfolding publish_capability_changes evaluate_capability
  publish_capability_changes-Extends s t [] h =
      subst (Extends s) (some_inv (sym h)) (Extends-refl s)
  publish_capability_changes-Extends s t (c ∷ cs) h =
      let (answer, evaluated, more) =
        >>=-eq-some (evaluate_capability caller context s.store c)
          (λ answer. publish_capability caller context s c.id answer >>= λ s'.
            publish_capability_changes caller context s' cs)
          h in
      let (s', published, rest) =
        >>=-eq-some (publish_capability caller context s c.id answer)
          (λ s'. publish_capability_changes caller context s' cs) more in
      let sound =
        evaluate-IsSound caller c.build c.diff (find_capability_domain_id context c.id) c.id s.store
          (capability_snapshot context s.store c.id) answer evaluated in
      Extends-trans s s' t (publish_capability-Extends s s' c.id answer published sound)
        (publish_capability_changes-Extends s' t cs rest)

  -- A pass of the capability worker that is defined, whatever the callbacks are, keeps sound
  -- storages sound, keeps the publisher's queue open if it is, and loses no target that waits in
  -- it; and if the queue is not shut down and the id is valid, an event for the datum waits in it
  -- afterwards.
  pub process-Extends :
      (s t : CapabilityState) (id : ℕ)
      → process caller context s id ≡ some t
      → Extends s t
        × (id ≢ invalid_data_id
            → s.publisher_queue.shutdown ≡ false
            → Waits (record { type = data_item; id = id }) t.publisher_queue)
  unfolding process
  process-Extends s t id h = elim (Bool-cases (id == 4294967295)) [
    | inl e ↦ (
      subst (Extends s) (some_inv (sym (rw e at h))) (Extends-refl s),
      λ valid up. absurd (valid ((==_iff id 4294967295).0 e)),
    )
    | inr e ↦
        let announced = announce context (record { type = data_item; id = id }) s in
        let later =
          publish_capability_changes-Extends announced t (capabilities_on context id) (rw e at h) in
        (
          Extends-trans s announced t (announce-Extends context _ s) later,
          λ valid up.
              later.waiting (record { type = data_item; id = id })
                (announced_waits context s id up),
        )
  ]
