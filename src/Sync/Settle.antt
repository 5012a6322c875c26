-- ===== src/Sync/Settle.antt =====
-- What the two halves of a change of activation do together: the call that queues it and the
-- processing of the queue.
use showtime_cpp.Common.{
  ℕ, ◌≡◌, ◌≢◌, ◌⊎◌, inl, inr, refl, ap, ◌∙◌, List, [], ◌∷◌, ◌++◌, map, append_assoc, keep, ℕ, Bool,
  false,
}
use showtime_cpp.Dispatcher
use showtime_cpp.Dispatcher.{Dispatcher}
use showtime_cpp.Dispatcher.Process
use showtime_cpp.Dispatcher.Process.{handle_all, for_each, process_events_in_order}
use showtime_cpp.Sync.{
  Sync, Core, Note, told_activated, told_deactivated, told_destroyed, told_has_event, on_activation,
  on_deactivation, SyncStatus, activating, activated, deactivating, deactivated, on_activated,
  on_deactivated, on_destroyed, activation_from, deactivation_from, show, complete, process_events,
  enqueue_activation, enqueue_deactivation, is_activated, status_is_activated,
}
use showtime_cpp.Sync.Told.{
  live, process_known, handle_activated, handle_deactivated, handle_destroyed,
  enqueue_activation_lem, enqueue_deactivation_lem,
}

pub deactivated_lem : (s : Sync) → s.core.status ≡ deactivated → is_activated s ≡ false
unfolding is_activated status_is_activated
deactivated_lem s e = ap status_is_activated e

module _ (alive : ℕ → Bool) where
  -- An activation that is queued while no event is waiting, and then processed: the status ends as
  -- activated, the queue is empty, and the calls are, in this order, one notice of an event to each
  -- live adaptor, one notice of the activation to each, and the hook `on_activation` once.
  pub activation_settles :
      (s : Sync) (a : ℕ) (rest : List ℕ)
      → s.core.status ≡ activating
      → s.events.events ≡ []
      → live alive s ≡ a ∷ rest
      → let t = process_events alive (enqueue_activation alive s) in
        (t.core.status ≡ activated)
        × (t.core.told
            ≡ s.core.told
              ++ (map told_has_event (a ∷ rest)
                  ++ (map told_activated (a ∷ rest) ++ on_activation ∷ [])))
        × (t.events.events ≡ [])
  activation_settles s a rest st quiet_before lives =
      let q = enqueue_activation alive s in
      let eq = enqueue_activation_lem alive s st in
      let deferred = Process.defer_lem on_activated s.events in
      let known =
        process_known alive q s.events.adaptors (on_activated ∷ [])
          (ap (λ t. t.events.adaptors) eq ∙ deferred.0)
          (ap (λ t. t.events.events) eq
            ∙ (deferred.1 ∙ ap (λ l. l ++ on_activated ∷ []) quiet_before)) in
      let core = known.0 ∙ handle_activated alive s.events.adaptors a rest q.core lives in
      (
        ap (λ c. c.status) core,
        ap (λ c. c.told) core
            ∙ (ap (λ t. (t.core.told ++ map told_activated (a ∷ rest)) ++ on_activation ∷ []) eq
                ∙ rw lives (simp append_assoc)),
        known.1,
      )

  finished : List Note → Core → Core
  finished told c = record c { status = deactivated; told = told }

  pub deactivation_core :
      (s : Sync) (a : ℕ) (rest : List ℕ)
      → (s.core.status ≡ activated) ⊎ (s.core.status ≡ deactivating)
      → s.events.events ≡ []
      → live alive s ≡ a ∷ rest
      → let t = process_events alive (enqueue_deactivation alive s) in
        (t.core ≡ record (s.core) {
          status = deactivated;
          told =
              s.core.told
              ++ (map told_has_event (a ∷ rest)
                  ++ (map told_deactivated (a ∷ rest)
                      ++ on_deactivation ∷ map told_destroyed (a ∷ rest)));
        })
        × (t.events.events ≡ [])
  unfolding finished
  deactivation_core s a rest st quiet_before lives =
      let q = enqueue_deactivation alive s in
      let eq = enqueue_deactivation_lem alive s st in
      let first = Process.defer_lem on_deactivated s.events in
      let second = Process.defer_lem on_destroyed (Dispatcher.defer on_deactivated s.events) in
      let known =
        process_known alive q s.events.adaptors (on_deactivated ∷ on_destroyed ∷ [])
          (ap (λ t. t.events.adaptors) eq ∙ (second.0 ∙ first.0))
          (ap (λ t. t.events.events) eq
            ∙ (second.1
                ∙ (ap (λ l. l ++ on_destroyed ∷ []) first.1
                    ∙ ap (λ l. (l ++ on_deactivated ∷ []) ++ on_destroyed ∷ []) quiet_before))) in
      let core =
        known.0
        ∙ (ap
              (λ c.
                Process.handle alive (show alive) (complete alive) s.events.adaptors on_destroyed c)
              (handle_deactivated alive s.events.adaptors a rest q.core lives)
            ∙ handle_destroyed alive s.events.adaptors _) in
      (
        core
            ∙ (ap
                  (λ t.
                    finished
                      (((t.core.told ++ map told_deactivated (a ∷ rest)) ++ on_deactivation ∷ [])
                        ++ map told_destroyed (keep alive s.events.adaptors))
                      t.core)
                  eq
                ∙ ap (λ l. finished l s.core) (rw lives (simp append_assoc))),
        known.1,
      )

  -- A deactivation, of a synchronisable that is activated or deactivating, with no event waiting and
  -- a live adaptor at least: the status ends as
  -- deactivated, and after the notices of an event each live adaptor is told of the deactivation,
  -- then the hook `on_deactivation` is called, then each is told that it is destroyed.
  pub deactivation_settles :
      (s : Sync) (a : ℕ) (rest : List ℕ)
      → (s.core.status ≡ activated) ⊎ (s.core.status ≡ deactivating)
      → s.events.events ≡ []
      → live alive s ≡ a ∷ rest
      → let t = process_events alive (enqueue_deactivation alive s) in
        (t.core.status ≡ deactivated)
        × (t.core.told
            ≡ s.core.told
              ++ (map told_has_event (a ∷ rest)
                  ++ (map told_deactivated (a ∷ rest)
                      ++ on_deactivation ∷ map told_destroyed (a ∷ rest))))
        × (t.events.events ≡ [])
  deactivation_settles s a rest st quiet_before lives =
      let (core, events) = deactivation_core s a rest st quiet_before lives in
      (ap (λ c. c.status) core, ap (λ c. c.told) core, events)

  activation_ignored :
      (st : SyncStatus) (s : Sync) → st ≢ activating → activation_from alive st s ≡ s
  unfolding activation_from
  activation_ignored activating s h = absurd (h refl)
  activation_ignored _ s h = refl

  deactivation_ignored :
      (st : SyncStatus) (s : Sync)
      → st ≢ activated
      → st ≢ deactivating
      → deactivation_from alive st s ≡ s
  unfolding deactivation_from
  deactivation_ignored activated s h k = absurd (h refl)
  deactivation_ignored deactivating s h k = absurd (k refl)
  deactivation_ignored _ s h k = refl

  once : (s : Sync) → s.core.status ≢ activating → enqueue_activation alive s ≡ s
  once s h = unfold enqueue_activation in activation_ignored s.core.status s h

  again :
      (s : Sync)
      → s.core.status ≢ activated
      → s.core.status ≢ deactivating
      → enqueue_deactivation alive s ≡ s
  again s h k = unfold enqueue_deactivation in deactivation_ignored s.core.status s h k

  is_activating : (st : SyncStatus) → (st ≡ activating) ⊎ (st ≢ activating)
  is_activating activating = inl refl
  is_activating _ = inr (λ e. cc e)

  is_active :
      (st : SyncStatus)
      → ((st ≡ activated) ⊎ (st ≡ deactivating)) ⊎ ((st ≢ activated) × (st ≢ deactivating))
  is_active activated = inl (inl refl)
  is_active deactivating = inl (inr refl)
  is_active _ = inr ((λ e. cc e), (λ e. cc e))

  -- Queueing an activation changes nothing unless the status is activating, queueing a deactivation
  -- nothing unless it is activated or deactivating, and a second call of either in a row changes
  -- nothing at all.
  pub enqueue_guards :
      (s : Sync)
      → ((s.core.status ≡ activating) ⊎ (enqueue_activation alive s ≡ s))
        × (((s.core.status ≡ activated) ⊎ (s.core.status ≡ deactivating))
            ⊎ (enqueue_deactivation alive s ≡ s))
        × (enqueue_activation alive (enqueue_activation alive s) ≡ enqueue_activation alive s)
        × (enqueue_deactivation alive (enqueue_deactivation alive s) ≡ enqueue_deactivation alive s)
  enqueue_guards s = (first.0, second.0, first.1, second.1)
    where
      first :
          ((s.core.status ≡ activating) ⊎ (enqueue_activation alive s ≡ s))
          × (enqueue_activation alive (enqueue_activation alive s) ≡ enqueue_activation alive s)
      first = elim (is_activating s.core.status) [
        | inl e ↦ (
          inl e,
          once (enqueue_activation alive s)
              (λ h. cc (ap (λ t. t.core.status) (enqueue_activation_lem alive s e), h)),
        )
        | inr n ↦ (inr (once s n), ap (enqueue_activation alive) (once s n))
      ]

      second :
          (((s.core.status ≡ activated) ⊎ (s.core.status ≡ deactivating))
            ⊎ (enqueue_deactivation alive s ≡ s))
          × (enqueue_deactivation alive (enqueue_deactivation alive s)
              ≡ enqueue_deactivation alive s)
      second = elim (is_active s.core.status) [
        | inl e ↦ (
          inl e,
          again (enqueue_deactivation alive s)
              (λ h. cc (ap (λ t. t.core.status) (enqueue_deactivation_lem alive s e), h))
              (λ h. cc (ap (λ t. t.core.status) (enqueue_deactivation_lem alive s e), h)),
        )
        | inr n ↦ (inr (again s n.0 n.1), ap (enqueue_deactivation alive) (again s n.0 n.1))
      ]
