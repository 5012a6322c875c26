-- ===== src/Sync/Told.antt =====
-- What each event of a synchronisable does when it is shown, and what the calls that queue one do.
use showtime_cpp.Common.{
  ℕ, ◌≡◌, ◌⊎◌, inl, inr, refl, ap, ◌∙◌, false, List, [], ◌∷◌, ◌++◌, map, append-nil, append_assoc,
  keep, ℕ, Bool,
}
use showtime_cpp.Dispatcher
use showtime_cpp.Dispatcher.{Dispatcher}
use showtime_cpp.Dispatcher.Process
use showtime_cpp.Dispatcher.Process.{handle_all, for_each, process_events_in_order}
use showtime_cpp.Sync.{
  Sync, Core, Note, told_activated, told_deactivated, told_destroyed, told_has_event, on_activation,
  on_deactivation, activating, activated, activation_queued, deactivating, deactivated,
  deactivation_queued, SyncEvent, on_activated, on_deactivated, on_destroyed, on_updated, tell,
  set_status, notify_all, set_activation_status, defer, activation_from, deactivation_from, show,
  complete, process_events, enqueue_activation, enqueue_deactivation,
}

-- The live adaptors, in the order in which they are called.
abbrev pub live : (ℕ → Bool) → Sync → List ℕ
live alive s = keep alive s.events.adaptors

for_each-tell :
    (note : ℕ → Note) (as' : List ℕ) (c : Core)
    → for_each (λ a c. tell (note a) c) as' c ≡ record c { told = c.told ++ map note as' }
unfolding tell
for_each-tell note [] c = simp append-nil
for_each-tell note (a ∷ as') c =
    for_each-tell note as' (record c { told = c.told ++ note a ∷ [] }) ∙ simp append_assoc

module _ (alive : ℕ → Bool) where
  pub notify_all_lem :
      (note : ℕ → Note) (s : Sync)
      → notify_all alive note s
        ≡ record s { core = record (s.core) { told = s.core.told ++ map note (live alive s) } }
  unfolding notify_all
  notify_all_lem note s = rw (
    Process.invoke_lem alive (λ a c. tell (note a) c) s.events s.core,
    for_each-tell note (live alive s) s.core,
  )

  -- Showing an event to one or more adaptors.
  pub told_all_activated :
      (a : ℕ) (as' : List ℕ) (c : Core)
      → Process.tell (show alive) on_activated (a ∷ as') c
        ≡ record c { status = activated; told = c.told ++ map told_activated (a ∷ as') }
  unfolding show set_status tell
  told_all_activated a [] c = refl
  told_all_activated a (b ∷ as') c =
      told_all_activated b as'
        (record c { status = activated; told = c.told ++ told_activated a ∷ [] })
      ∙ simp append_assoc

  pub told_all_deactivated :
      (a : ℕ) (as' : List ℕ) (c : Core)
      → Process.tell (show alive) on_deactivated (a ∷ as') c
        ≡ record c { status = deactivated; told = c.told ++ map told_deactivated (a ∷ as') }
  unfolding show set_status tell
  told_all_deactivated a [] c = refl
  told_all_deactivated a (b ∷ as') c =
      told_all_deactivated b as'
        (record c { status = deactivated; told = c.told ++ told_deactivated a ∷ [] })
      ∙ simp append_assoc

  pub told_all_destroyed :
      (as' : List ℕ) (c : Core)
      → Process.tell (show alive) on_destroyed as' c
        ≡ record c { told = c.told ++ map told_destroyed as' }
  unfolding show tell
  told_all_destroyed [] c = simp append-nil
  told_all_destroyed (a ∷ as') c =
      told_all_destroyed as' (record c { told = c.told ++ told_destroyed a ∷ [] })
      ∙ simp append_assoc

  quiet : (a : ℕ) (e : SyncEvent) (c : Core) → (show alive a e c).deferred ≡ []
  unfolding show
  quiet a on_activated c = refl
  quiet a on_deactivated c = refl
  quiet a on_destroyed c = refl
  quiet a on_updated c = refl

  -- The state after `process_events`: the queue is empty, and each event has been handled.
  pub process_events_lem :
      (s : Sync)
      → process_events alive s ≡ record s {
        core =
            handle_all alive (show alive) (complete alive) s.events.adaptors s.events.events s.core;
        events = record (s.events) { events = []; has_event = false };
      }
  unfolding process_events
  process_events_lem s = rw (
    process_events_in_order alive (show alive) (complete alive) quiet s.events s.core,
    process_events,
  )

  pub enqueue_activation_lem :
      (s : Sync)
      → s.core.status ≡ activating
      → enqueue_activation alive s ≡ record s {
        core = record (s.core) {
          status = activation_queued;
          told = s.core.told ++ map told_has_event (live alive s);
        };
        events = Dispatcher.defer on_activated s.events;
      }
  unfolding enqueue_activation
  enqueue_activation_lem s e =
      rw (e, activation_from)
        (notify_all_lem told_has_event
          (defer alive on_activated (set_activation_status activation_queued s)))

  pub enqueue_deactivation_lem :
      (s : Sync)
      → (s.core.status ≡ activated) ⊎ (s.core.status ≡ deactivating)
      → enqueue_deactivation alive s ≡ record s {
        core = record (s.core) {
          status = deactivation_queued;
          told = s.core.told ++ map told_has_event (live alive s);
        };
        events = Dispatcher.defer on_destroyed (Dispatcher.defer on_deactivated s.events);
      }
  unfolding enqueue_deactivation
  enqueue_deactivation_lem s (inl e) =
      rw (e, deactivation_from)
        (notify_all_lem told_has_event (
          defer alive on_destroyed
            (defer alive on_deactivated (set_activation_status deactivation_queued s))))
  enqueue_deactivation_lem s (inr e) =
      rw (e, deactivation_from)
        (notify_all_lem told_has_event (
          defer alive on_destroyed
            (defer alive on_deactivated (set_activation_status deactivation_queued s))))

  pub handle_activated :
      (as' : List ℕ) (a : ℕ) (rest : List ℕ) (c : Core)
      → keep alive as' ≡ a ∷ rest
      → Process.handle alive (show alive) (complete alive) as' on_activated c ≡ record c {
        status = activated;
        told = (c.told ++ map told_activated (a ∷ rest)) ++ on_activation ∷ [];
      }
  unfolding complete tell
  handle_activated as' a rest c e = rw (e, told_all_activated a rest c)

  pub handle_deactivated :
      (as' : List ℕ) (a : ℕ) (rest : List ℕ) (c : Core)
      → keep alive as' ≡ a ∷ rest
      → Process.handle alive (show alive) (complete alive) as' on_deactivated c ≡ record c {
        status = deactivated;
        told = (c.told ++ map told_deactivated (a ∷ rest)) ++ on_deactivation ∷ [];
      }
  unfolding complete tell
  handle_deactivated as' a rest c e = rw (e, told_all_deactivated a rest c)

  pub handle_destroyed :
      (as' : List ℕ) (c : Core)
      → Process.handle alive (show alive) (complete alive) as' on_destroyed c
        ≡ record c { told = c.told ++ map told_destroyed (keep alive as') }
  unfolding complete
  handle_destroyed as' c = told_all_destroyed (keep alive as') c

  -- `process_events` on a queue that is known.
  pub process_known :
      (s : Sync) (as' : List ℕ) (es : List SyncEvent)
      → s.events.adaptors ≡ as'
      → s.events.events ≡ es
      → ((process_events alive s).core
          ≡ handle_all alive (show alive) (complete alive) as' es s.core)
        × ((process_events alive s).events.events ≡ [])
  process_known s as' es ea ee = (
    ap (λ t. t.core) (process_events_lem s) ∙ cc,
    ap (λ t. t.events.events) (process_events_lem s),
  )
