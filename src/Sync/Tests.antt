-- ===== src/Sync/Tests.antt =====
-- A synchronisable with its default adaptor and one more, and instances of the theorems.
use showtime_cpp.Common.{ℕ, ◌≡◌, refl, true, false, Bool, List, [], ◌∷◌, none, inl}
use showtime_cpp.Sync.{
  Sync, SyncStatus, activating, activated, deactivated, destroyed, no_err, Call, told_has_event,
  told_activated, told_deactivated, told_destroyed, on_activation, on_deactivation,
  enqueues_activation, sets_activating, sets_destroyed, adds_adaptor, construct, enqueue_activation,
  enqueue_deactivation, process_events, is_activated, is_destroyed, step, run,
}
use showtime_cpp.Sync.Settle.{activation_settles, deactivation_settles}
use showtime_cpp.Sync.Pending.{Waits, IsSettled, queued-processed}
use showtime_cpp.Sync.Destroyed.{is_destroyed_never}

abbrev all_alive : ℕ → Bool
all_alive a = true

abbrev with_status : SyncStatus → Sync
with_status st = record {
  core = record {
    destroyed_flag = false;
    status = st;
    last_error = no_err;
    proxy = false;
    instance_id = 1;
    told = [];
  };
  events = record { adaptors = 0 ∷ 5 ∷ []; events = []; has_event = false; wake = none };
}

abbrev calls : List Call
calls = adds_adaptor 5 ∷ sets_activating ∷ enqueues_activation ∷ []

activated_after :
    is_activated (process_events all_alive (run all_alive calls (construct 0 0).0)) ≡ true
unfolding is_activated process_events run construct
activated_after = refl

activation_settles_example :
    let t = process_events all_alive (enqueue_activation all_alive (with_status activating)) in
    (t.core.status ≡ activated)
    × (t.core.told
        ≡ told_has_event 0
          ∷ told_has_event 5
          ∷ told_activated 0
          ∷ told_activated 5
          ∷ on_activation
          ∷ [])
    × (t.events.events ≡ [])
activation_settles_example =
    activation_settles all_alive (with_status activating) 0 (5 ∷ []) refl refl refl

deactivation_settles_example :
    let t = process_events all_alive (enqueue_deactivation all_alive (with_status activated)) in
    (t.core.status ≡ deactivated)
    × (t.core.told
        ≡ told_has_event 0
          ∷ told_has_event 5
          ∷ told_deactivated 0
          ∷ told_deactivated 5
          ∷ on_deactivation
          ∷ told_destroyed 0
          ∷ told_destroyed 5
          ∷ [])
    × (t.events.events ≡ [])
deactivation_settles_example =
    deactivation_settles all_alive (with_status activated) 0 (5 ∷ []) (inl refl) refl refl

queued-processed_example :
    let s = run all_alive calls (construct 0 0).0 in
    Waits s.core.status s.events.events × IsSettled (process_events all_alive s).core.status
queued-processed_example =
    queued-processed all_alive 0 refl 0 calls ((λ e. cc), ((λ e. cc), ((λ e. cc), tt)))

is_destroyed_never_example :
    let s = run all_alive calls (construct 0 0).0 in
    (is_destroyed s ≡ false)
    × (is_destroyed (step all_alive sets_destroyed s) ≡ false)
    × ((step all_alive sets_destroyed s).core.status ≡ destroyed)
is_destroyed_never_example = is_destroyed_never all_alive 0 0 calls
