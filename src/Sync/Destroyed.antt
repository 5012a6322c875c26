-- ===== src/Sync/Destroyed.antt =====
-- `is_destroyed` reads a flag that no call sets.
use showtime_cpp.Common.{
  ℕ, ◌≡◌, refl, ap, ◌∙◌, false, Bool, List, [], ◌∷◌, keep, inl, inr, Bool-cases,
}
use showtime_cpp.Dispatcher.{EventStatus}
use showtime_cpp.Dispatcher.Process
use showtime_cpp.Dispatcher.Process.{handle_all}
use showtime_cpp.Sync.{
  Sync, Core, SyncStatus, activating, activated, deactivating, SyncEvent, on_activated,
  on_deactivated, on_destroyed, on_updated, show, complete, Call, enqueues_activation,
  enqueues_deactivation, processes, announces_update, sets_proxy, sets_activated, sets_activating,
  sets_deactivated, sets_deactivating, sets_destroyed, sets_error, adds_adaptor, removes_adaptor,
  construct, step, run, is_destroyed, destroyed, Note, told_has_event, told_activated,
  activation_from, deactivation_from, notify_all, add_adaptor, is_activated,
}
use showtime_cpp.Sync.Told.{process_events_lem, notify_all_lem}

-- The flag of a synchronisable, which is all that this file looks at.
flag : Sync → Bool
flag s = s.core.destroyed_flag

module _ (alive : ℕ → Bool) where
  flag_told :
      (e : SyncEvent) (as' : List ℕ) (c : Core)
      → (Process.tell (show alive) e as' c).destroyed_flag ≡ c.destroyed_flag
  unfolding show
  flag_told e [] c = refl
  flag_told on_activated (a ∷ as') c =
      flag_told on_activated as' (show alive a on_activated c).state
  flag_told on_deactivated (a ∷ as') c =
      flag_told on_deactivated as' (show alive a on_deactivated c).state
  flag_told on_destroyed (a ∷ as') c =
      flag_told on_destroyed as' (show alive a on_destroyed c).state
  flag_told on_updated (a ∷ as') c = flag_told on_updated as' (show alive a on_updated c).state

  flag_completed :
      (e : SyncEvent) (st : EventStatus) (c : Core)
      → (complete alive e st c).destroyed_flag ≡ c.destroyed_flag
  unfolding complete
  flag_completed on_activated st c = refl
  flag_completed on_deactivated st c = refl
  flag_completed on_destroyed st c = refl
  flag_completed on_updated st c = refl

  flag_handled :
      (as' : List ℕ) (es : List SyncEvent) (c : Core)
      → (handle_all alive (show alive) (complete alive) as' es c).destroyed_flag ≡ c.destroyed_flag
  flag_handled as' [] c = refl
  flag_handled as' (e ∷ es) c =
      flag_handled as' es _
      ∙ (flag_completed e _ (Process.tell (show alive) e (keep alive as') c)
          ∙ flag_told e (keep alive as') c)

  flag_notified : (note : ℕ → Note) (s : Sync) → flag (notify_all alive note s) ≡ flag s
  unfolding flag
  flag_notified note s = ap (λ t. t.core.destroyed_flag) (notify_all_lem alive note s)

  flag_activation : (st : SyncStatus) (s : Sync) → flag (activation_from alive st s) ≡ flag s
  unfolding activation_from
  flag_activation activating s = flag_notified told_has_event _ ∙ unfold flag in refl
  flag_activation _ s = refl

  flag_deactivation : (st : SyncStatus) (s : Sync) → flag (deactivation_from alive st s) ≡ flag s
  unfolding deactivation_from
  flag_deactivation activated s = flag_notified told_has_event _ ∙ unfold flag in refl
  flag_deactivation deactivating s = flag_notified told_has_event _ ∙ unfold flag in refl
  flag_deactivation _ s = refl

  flag_added : (a : ℕ) (s : Sync) → flag (add_adaptor alive a s) ≡ flag s
  unfolding add_adaptor
  flag_added a s = elim (Bool-cases (is_activated s)) [
    | inl e ↦ rw e (flag_notified told_activated _ ∙ unfold flag in refl)
    | inr e ↦ rw e (unfold flag in refl)
  ]

  flag-step : (c : Call) (s : Sync) → flag (step alive c s) ≡ flag s
  unfolding step
  flag-step enqueues_activation s = flag_activation s.core.status s
  flag-step enqueues_deactivation s = flag_deactivation s.core.status s
  flag-step processes s =
      ap flag (process_events_lem alive s)
      ∙ unfold flag in flag_handled s.events.adaptors s.events.events s.core
  flag-step announces_update s = flag_notified told_has_event _ ∙ unfold flag in refl
  flag-step sets_proxy s = unfold flag in refl
  flag-step sets_activated s = unfold flag in refl
  flag-step sets_activating s = unfold flag in refl
  flag-step sets_deactivated s = unfold flag in refl
  flag-step sets_deactivating s = unfold flag in refl
  flag-step sets_destroyed s = unfold flag in refl
  flag-step (sets_error e) s = unfold flag in refl
  flag-step (adds_adaptor a) s = flag_added a s
  flag-step (removes_adaptor a) s = unfold flag in refl

  flag-run : (cs : List Call) (s : Sync) → flag (run alive cs s) ≡ flag s
  unfolding run
  flag-run [] s = refl
  flag-run (c ∷ cs) s = flag-run cs (step alive c s) ∙ flag-step c s

  -- Whatever is called on a new synchronisable, `set_destroyed` included, `is_destroyed` stays
  -- false, while the status after a last `set_destroyed` is the destroyed one.
  pub is_destroyed_never :
      (default counter : ℕ) (cs : List Call)
      → let s = run alive cs (construct default counter).0 in
        (is_destroyed s ≡ false)
        × (is_destroyed (step alive sets_destroyed s) ≡ false)
        × ((step alive sets_destroyed s).core.status ≡ destroyed)
  unfolding is_destroyed step
  is_destroyed_never default counter cs =
      let h = flag-run cs (construct default counter).0 in
      (unfold flag construct in h, unfold flag construct in h, refl)
