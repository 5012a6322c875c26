-- ===== src/Sync/Pending.antt =====
-- A queued change of activation is never lost: its event waits in the queue until it is processed.
use showtime_cpp.Common.{
  ℕ, ◌≡◌, ◌≢◌, refl, sym, ap, ◌∙◌, true, false, Bool, List, [], ◌∷◌, ◌++◌, keep, All, inl, inr,
  arith, ◌||◌, Bool-cases, subst,
}
use showtime_cpp.Dispatcher
use showtime_cpp.Dispatcher.{contains_adaptor, Dispatcher}
use showtime_cpp.Dispatcher.Process
use showtime_cpp.Dispatcher.Process.{handle_all}
use showtime_cpp.Dispatcher.Adaptors.{
  IsRising, adaptors-IsRising, contains_adaptor_lem, live-ne-nil,
}
use showtime_cpp.Sync.{
  Sync, Core, SyncStatus, activating, activated, activation_queued, deactivating, deactivated,
  deactivation_queued, destroyed, SyncEvent, on_activated, on_deactivated, on_destroyed, on_updated,
  Note, told_has_event, told_activated, show, complete, Call, enqueues_activation,
  enqueues_deactivation, processes, announces_update, sets_proxy, sets_activated, sets_activating,
  sets_deactivated, sets_deactivating, sets_destroyed, sets_error, adds_adaptor, removes_adaptor,
  construct, step, run, process_events, set_activation_status, set_error, set_proxy,
  enqueue_activation, enqueue_deactivation, announce_update, add_adaptor, remove_adaptor,
  activation_from, deactivation_from, queue_deactivation, notify_all, is_activated, defer,
}
use showtime_cpp.Sync.Told.{
  process_events_lem, handle_activated, handle_deactivated, handle_destroyed, notify_all_lem,
}

-- Whether an event that ends a queued activation, or deactivation, is in a queue.
abbrev pub activates : List SyncEvent → Bool
activates [] = false
activates (e ∷ es) = elim e [ on_activated ↦ true | _ ↦ activates es ]

abbrev pub deactivates : List SyncEvent → Bool
deactivates [] = false
deactivates (e ∷ es) = elim e [ on_deactivated ↦ true | _ ↦ deactivates es ]

-- A queued status has its event in the queue.
abbrev pub Waits : SyncStatus → List SyncEvent → Type 0
Waits activation_queued es = activates es ≡ true
Waits deactivation_queued es = deactivates es ≡ true
Waits _ es = Unit {0}

-- The statuses that no event has to end.
abbrev pub IsSettled : SyncStatus → Type 0
IsSettled activation_queued = ⊥
IsSettled deactivation_queued = ⊥
IsSettled _ = Unit {0}

pub record IsPending (default : ℕ) (s : Sync) : Type 0 where
  pub waits : Waits s.core.status s.events.events
  pub rising : IsRising s.events.adaptors
  pub has_default : contains_adaptor default s.events ≡ true

activates-append : (es fs : List SyncEvent) → activates (es ++ fs) ≡ (activates es || activates fs)
activates-append [] fs = refl
activates-append (on_activated ∷ es) fs = refl
activates-append (on_deactivated ∷ es) fs = activates-append es fs
activates-append (on_destroyed ∷ es) fs = activates-append es fs
activates-append (on_updated ∷ es) fs = activates-append es fs

deactivates-append :
    (es fs : List SyncEvent) → deactivates (es ++ fs) ≡ (deactivates es || deactivates fs)
deactivates-append [] fs = refl
deactivates-append (on_activated ∷ es) fs = deactivates-append es fs
deactivates-append (on_deactivated ∷ es) fs = refl
deactivates-append (on_destroyed ∷ es) fs = deactivates-append es fs
deactivates-append (on_updated ∷ es) fs = deactivates-append es fs

-- More events do no harm.
Waits-append : (st : SyncStatus) (es fs : List SyncEvent) → Waits st es → Waits st (es ++ fs)
Waits-append activation_queued es fs h = ground (arith, activates-append es fs)
Waits-append deactivation_queued es fs h = ground (arith, deactivates-append es fs)
Waits-append _ es fs h = tt

IsSettled-Waits : (st : SyncStatus) (es : List SyncEvent) → IsSettled st → Waits st es
IsSettled-Waits activation_queued es h = absurd h
IsSettled-Waits deactivation_queued es h = absurd h
IsSettled-Waits _ es h = tt

-- The status after some events.
status_after : List SyncEvent → SyncStatus → SyncStatus
status_after [] st = st
status_after (on_activated ∷ es) st = status_after es activated
status_after (on_deactivated ∷ es) st = status_after es deactivated
status_after (on_destroyed ∷ es) st = status_after es st
status_after (on_updated ∷ es) st = status_after es st

status_after-settles :
    (es : List SyncEvent) (st : SyncStatus) → Waits st es → IsSettled (status_after es st)
unfolding status_after
status_after-settles [] activation_queued h = cc
status_after-settles [] deactivation_queued h = cc
status_after-settles [] _ h = tt
status_after-settles (on_activated ∷ es) st h = status_after-settles es activated tt
status_after-settles (on_deactivated ∷ es) st h = status_after-settles es deactivated tt
status_after-settles (on_destroyed ∷ es) st h = status_after-settles es st (rest st h)
  where
    rest : (st : SyncStatus) → Waits st (on_destroyed ∷ es) → Waits st es
    rest activation_queued h = h
    rest deactivation_queued h = h
    rest _ h = tt
status_after-settles (on_updated ∷ es) st h = status_after-settles es st (rest st h)
  where
    rest : (st : SyncStatus) → Waits st (on_updated ∷ es) → Waits st es
    rest activation_queued h = h
    rest deactivation_queued h = h
    rest _ h = tt

module _ (alive : ℕ → Bool) (default : ℕ) (lives : alive default ≡ true) where
  handle_updated :
      (as' : List ℕ) (c : Core) → (Process.tell (show alive) on_updated as' c).status ≡ c.status
  unfolding show
  handle_updated [] c = refl
  handle_updated (a ∷ as') c = handle_updated as' _

  handle_all-status :
      (as' : List ℕ) (a : ℕ) (rest : List ℕ) (es : List SyncEvent) (c : Core)
      → keep alive as' ≡ a ∷ rest
      → (handle_all alive (show alive) (complete alive) as' es c).status ≡ status_after es c.status
  unfolding status_after
  handle_all-status as' a rest [] c e = refl
  handle_all-status as' a rest (on_activated ∷ es) c e =
      handle_all-status as' a rest es _ e
      ∙ ap (λ k. status_after es k.status) (handle_activated alive as' a rest c e)
  handle_all-status as' a rest (on_deactivated ∷ es) c e =
      handle_all-status as' a rest es _ e
      ∙ ap (λ k. status_after es k.status) (handle_deactivated alive as' a rest c e)
  handle_all-status as' a rest (on_destroyed ∷ es) c e =
      handle_all-status as' a rest es _ e
      ∙ ap (λ k. status_after es k.status) (handle_destroyed alive as' c)
  handle_all-status as' a rest (on_updated ∷ es) c e =
      handle_all-status as' a rest es _ e
      ∙ ap (status_after es) (unfold complete in handle_updated (keep alive as') c)

  process-IsSettled :
      (s : Sync) → IsPending default s → IsSettled (process_events alive s).core.status
  process-IsSettled s p =
      let (a, rest, e) = live-ne-nil alive default s.events lives p.has_default in
      subst IsSettled
        (sym (
          ap (λ t. t.core.status) (process_events_lem alive s)
          ∙ handle_all-status s.events.adaptors a rest s.events.events s.core e))
        (status_after-settles s.events.events s.core.status p.waits)

  process-IsPending : (s : Sync) → IsPending default s → IsPending default (process_events alive s)
  process-IsPending s p = record {
    waits = IsSettled-Waits _ _ (process-IsSettled s p);
    rising = rw (process_events_lem alive s) p.rising;
    has_default = rw (process_events_lem alive s) (unfold contains_adaptor in p.has_default);
  }

  -- A record that differs in neither status nor events nor adaptors.
  same_queue :
      (s t : Sync)
      → t.core.status ≡ s.core.status
      → t.events ≡ s.events
      → IsPending default s
      → IsPending default t
  same_queue s t est ee p = record {
    waits = rw (est, ee) p.waits;
    rising = rw ee p.rising;
    has_default = rw ee p.has_default;
  }

  notify_all-IsPending :
      (note : ℕ → Note) (s : Sync)
      → IsPending default s
      → IsPending default (notify_all alive note s)
  notify_all-IsPending note s p =
      same_queue s (notify_all alive note s) (ap (λ t. t.core.status) (notify_all_lem alive note s))
        (ap (λ t. t.events) (notify_all_lem alive note s)) p

  -- Deferring an event keeps what waits, and makes a status wait that the event ends.
  defer-IsPending :
      (e : SyncEvent) (s : Sync)
      → Waits s.core.status (s.events.events ++ e ∷ [])
      → IsRising s.events.adaptors
      → contains_adaptor default s.events ≡ true
      → IsPending default (defer alive e s)
  unfolding defer contains_adaptor
  defer-IsPending e s w r m = record { waits = w; rising = r; has_default = m }

  settled-IsPending :
      (st : SyncStatus) (s : Sync)
      → IsSettled st
      → IsPending default s
      → IsPending default (set_activation_status st s)
  unfolding set_activation_status
  settled-IsPending st s h p = record {
    waits = IsSettled-Waits st s.events.events h;
    rising = p.rising;
    has_default = p.has_default;
  }

  activation-IsPending :
      (st : SyncStatus) (s : Sync)
      → IsPending default s
      → IsPending default (activation_from alive st s)
  unfolding activation_from
  activation-IsPending activating s p = notify_all-IsPending told_has_event _ (
      defer-IsPending on_activated (set_activation_status activation_queued s)
        (unfold set_activation_status in waits) (unfold set_activation_status in p.rising)
        (unfold set_activation_status in p.has_default))
    where
      waits : activates (s.events.events ++ on_activated ∷ []) ≡ true
      waits = ground (arith, activates-append s.events.events (on_activated ∷ []))
  activation-IsPending _ s p = p

  queue_deactivation-IsPending :
      (s : Sync) → IsPending default s → IsPending default (queue_deactivation alive s)
  unfolding queue_deactivation
  queue_deactivation-IsPending s p = notify_all-IsPending told_has_event _ (
      defer-IsPending on_destroyed once (unfold defer set_activation_status in waits)
        (unfold defer set_activation_status in p.rising)
        (unfold defer set_activation_status contains_adaptor in p.has_default))
    where
      once : Sync
      once = defer alive on_deactivated (set_activation_status deactivation_queued s)

      waits : deactivates ((s.events.events ++ on_deactivated ∷ []) ++ on_destroyed ∷ []) ≡ true
      waits = ground (
        arith,
        deactivates-append (s.events.events ++ on_deactivated ∷ []) (on_destroyed ∷ []),
        deactivates-append s.events.events (on_deactivated ∷ []),
      )

  deactivation-IsPending :
      (st : SyncStatus) (s : Sync)
      → IsPending default s
      → IsPending default (deactivation_from alive st s)
  unfolding deactivation_from
  deactivation-IsPending activated s p = queue_deactivation-IsPending s p
  deactivation-IsPending deactivating s p = queue_deactivation-IsPending s p
  deactivation-IsPending _ s p = p

  update-IsPending : (s : Sync) → IsPending default s → IsPending default (announce_update alive s)
  unfolding announce_update
  update-IsPending s p = notify_all-IsPending told_has_event _ (
      defer-IsPending on_updated s (Waits-append s.core.status s.events.events _ p.waits) p.rising
        p.has_default)

  added-IsPending :
      (a : ℕ) (s : Sync)
      → IsPending default s
      → IsPending default (record s { events = Dispatcher.add_adaptor a s.events })
  added-IsPending a s p = record {
    waits = unfold Dispatcher.add_adaptor in p.waits;
    rising = (adaptors-IsRising s.events a alive p.rising).0;
    has_default =
        ground (arith, (contains_adaptor_lem s.events a default alive p.rising).0, p.has_default);
  }

  add_adaptor-IsPending :
      (a : ℕ) (s : Sync) → IsPending default s → IsPending default (add_adaptor alive a s)
  unfolding add_adaptor
  add_adaptor-IsPending a s p = elim (Bool-cases (is_activated s)) [
    | inl e ↦ rw e (notify_all-IsPending told_activated _ (added-IsPending a s p))
    | inr e ↦ rw e (added-IsPending a s p)
  ]

  remove_adaptor-IsPending :
      (a : ℕ) (s : Sync)
      → a ≢ default
      → IsPending default s
      → IsPending default (remove_adaptor alive a s)
  unfolding remove_adaptor
  remove_adaptor-IsPending a s h p = record {
    waits = unfold Dispatcher.remove_adaptor in p.waits;
    rising = (adaptors-IsRising s.events a alive p.rising).1;
    has_default =
        ground (arith, (contains_adaptor_lem s.events a default alive p.rising).1, p.has_default);
  }

  step-IsPending :
      (c : Call) (s : Sync)
      → c ≢ removes_adaptor default
      → IsPending default s
      → IsPending default (step alive c s)
  unfolding step
  step-IsPending enqueues_activation s h p =
      unfold enqueue_activation in activation-IsPending s.core.status s p
  step-IsPending enqueues_deactivation s h p =
      unfold enqueue_deactivation in deactivation-IsPending s.core.status s p
  step-IsPending processes s h p = process-IsPending s p
  step-IsPending announces_update s h p = update-IsPending s p
  step-IsPending sets_proxy s h p =
      same_queue s (set_proxy s) (unfold set_proxy in refl) (unfold set_proxy in refl) p
  step-IsPending sets_activated s h p = settled-IsPending activated s tt p
  step-IsPending sets_activating s h p = settled-IsPending activating s tt p
  step-IsPending sets_deactivated s h p = settled-IsPending deactivated s tt p
  step-IsPending sets_deactivating s h p = settled-IsPending deactivating s tt p
  step-IsPending sets_destroyed s h p = settled-IsPending destroyed s tt p
  step-IsPending (sets_error e) s h p = record {
    waits = unfold set_error in tt;
    rising = unfold set_error in p.rising;
    has_default = unfold set_error contains_adaptor in p.has_default;
  }
  step-IsPending (adds_adaptor a) s h p = add_adaptor-IsPending a s p
  step-IsPending (removes_adaptor a) s h p =
      remove_adaptor-IsPending a s (λ e. h (ap removes_adaptor e)) p

  run-IsPending :
      (cs : List Call) (s : Sync)
      → All (λ c. c ≢ removes_adaptor default) cs
      → IsPending default s
      → IsPending default (run alive cs s)
  unfolding run
  run-IsPending [] s h p = p
  run-IsPending (c ∷ cs) s (h, hs) p = run-IsPending cs (step alive c s) hs (step-IsPending c s h p)

  construct-IsPending : (counter : ℕ) → IsPending default (construct default counter).0
  unfolding construct contains_adaptor
  construct-IsPending counter = record { waits = tt; rising = tt; has_default = ground arith }

  -- After any calls that do not remove the default adaptor, while that is alive: a status that says
  -- that a change is queued has the event that ends it in the queue, and processing the queue ends
  -- it, so that no activation or deactivation stays queued.
  pub queued-processed :
      (counter : ℕ) (cs : List Call)
      → All (λ c. c ≢ removes_adaptor default) cs
      → let s = run alive cs (construct default counter).0 in
        Waits s.core.status s.events.events × IsSettled (process_events alive s).core.status
  queued-processed counter cs h =
      let p = run-IsPending cs (construct default counter).0 h (construct-IsPending counter) in
      (p.waits, process-IsSettled (run alive cs (construct default counter).0) p)
