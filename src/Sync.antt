-- ===== src/Sync.antt =====
-- src/core/ZstSynchronisable.cpp: the activation state machine that entities and cables share, on
-- top of the event dispatcher. What an adaptor is told is kept in the list `told`; the adaptors'
-- own code neither throws nor defers events here. The lock makes each access one step.
pub mod Told
pub mod Settle
pub mod Pending
pub mod Destroyed
pub mod Tests
use showtime_cpp.Common.{
  ℕ, suc, ◌+◌, ◌%◌, ◌^◌, Bool, true, false, List, [], ◌∷◌, ◌++◌, Option, none, some, length,
  if◌then◌else◌,
}
use showtime_cpp.Dispatcher
use showtime_cpp.Dispatcher.{Dispatcher, Shown, EventStatus}

-- `ZstSyncStatus` and `ZstSyncError` of include/showtime/ZstConstants.h.
pub data SyncStatus : Type 0 where
  deactivated activating activation_queued activated deactivating deactivation_queued destroyed
        error :
      SyncStatus

pub data SyncError : Type 0 where
  no_err performer_not_found parent_not_found entity_already_exists : SyncError

-- The events that a synchronisable defers to its adaptors.
pub data SyncEvent : Type 0 where
  on_activated on_deactivated on_destroyed on_updated : SyncEvent

-- What was called: a method of an adaptor, or one of the virtual hooks.
pub data Note : Type 0 where
  told_activated told_deactivated told_destroyed told_updated told_has_event : ℕ → Note
  on_activation on_deactivation : Note

pub record Core : Type 0 where
  pub destroyed_flag : Bool
  pub status : SyncStatus
  pub last_error : SyncError
  pub proxy : Bool
  pub instance_id : ℕ
  pub told : List Note

pub record Sync : Type 0 where
  pub core : Core
  pub events : Dispatcher SyncEvent

-- `++s_instance_id_counter`, an `unsigned int`; both constructors return the new counter too.
unfoldable pub next_id : ℕ → ℕ
next_id counter = (counter + 1) % 2 ^ 32

-- `default` is the dispatcher's default adaptor.
unfoldable pub construct : ℕ → ℕ → Sync × ℕ
unfolding next_id Dispatcher.new
construct default counter = (
  record {
    core = record {
      destroyed_flag = false;
      status = deactivated;
      last_error = no_err;
      proxy = false;
      instance_id = next_id counter;
      told = [];
    };
    events = Dispatcher.new default;
  },
  next_id counter,
)

-- The copy constructor initialises every field but `m_sync_error`, which keeps what its memory held.
unfoldable pub copy : ℕ → ℕ → SyncError → Sync → Sync × ℕ
unfolding next_id Dispatcher.new
copy default counter garbage other = (
  record {
    core = record {
      destroyed_flag = other.core.destroyed_flag;
      status = other.core.status;
      last_error = garbage;
      proxy = other.core.proxy;
      instance_id = next_id counter;
      told = [];
    };
    events = Dispatcher.new default;
  },
  next_id counter,
)

tell : Note → Core → Core
tell n c = record c { told = c.told ++ n ∷ [] }

set_status : SyncStatus → Core → Core
set_status s c = record c { status = s }

-- `set_activation_status`, and the setters that call it.
unfoldable pub set_activation_status : SyncStatus → Sync → Sync
unfolding set_status
set_activation_status st s = record s { core = set_status st s.core }

unfoldable pub set_error : SyncError → Sync → Sync
set_error e s = record s { core = record (s.core) { status = error; last_error = e } }

unfoldable pub set_proxy : Sync → Sync
set_proxy s = record s { core = record (s.core) { proxy = true } }

-- `activation_status() == ACTIVATED`, `== DEACTIVATED` and `== DESTROYED`.
status_is_activated : SyncStatus → Bool
status_is_activated activated = true
status_is_activated _ = false

unfoldable pub is_activated : Sync → Bool
unfolding status_is_activated
is_activated s = status_is_activated s.core.status

status_is_deactivated : SyncStatus → Bool
status_is_deactivated deactivated = true
status_is_deactivated _ = false

unfoldable pub is_deactivated : Sync → Bool
unfolding status_is_deactivated
is_deactivated s = status_is_deactivated s.core.status

unfoldable pub is_destroyed : Sync → Bool
is_destroyed s = s.core.destroyed_flag

-- A call on a synchronisable. The setters are those that other classes reach.
pub data Call : Type 0 where
  enqueues_activation enqueues_deactivation processes announces_update sets_proxy : Call
  sets_activated sets_activating sets_deactivated sets_deactivating sets_destroyed : Call
  sets_error : SyncError → Call
  adds_adaptor removes_adaptor : ℕ → Call

module _ (alive : ℕ → Bool) where
  -- `m_synchronisable_events->invoke`, with the method that it calls.
  pub notify_all : (ℕ → Note) → Sync → Sync
  unfolding tell Dispatcher.invoke
  notify_all note s = record s {
    core = Dispatcher.invoke alive (λ a c. tell (note a) c) s.events s.core;
  }

  unfoldable pub add_adaptor : ℕ → Sync → Sync
  unfolding Dispatcher.add_adaptor notify_all is_activated
  add_adaptor a s =
      let added = record s { events = Dispatcher.add_adaptor a s.events } in
      if is_activated s then notify_all told_activated added else added

  unfoldable pub remove_adaptor : ℕ → Sync → Sync
  unfolding Dispatcher.remove_adaptor
  remove_adaptor a s = record s { events = Dispatcher.remove_adaptor a s.events }

  defer : SyncEvent → Sync → Sync
  unfolding Dispatcher.defer
  defer e s = record s { events = Dispatcher.defer e s.events }

  activation_from : SyncStatus → Sync → Sync
  unfolding set_activation_status defer notify_all
  activation_from activating s =
      notify_all told_has_event (defer on_activated (set_activation_status activation_queued s))
  activation_from _ s = s

  unfoldable pub enqueue_activation : Sync → Sync
  unfolding activation_from
  enqueue_activation s = activation_from s.core.status s

  queue_deactivation : Sync → Sync
  unfolding set_activation_status defer notify_all
  queue_deactivation s =
      notify_all told_has_event
        (defer on_destroyed (defer on_deactivated (set_activation_status deactivation_queued s)))

  deactivation_from : SyncStatus → Sync → Sync
  unfolding queue_deactivation
  deactivation_from activated s = queue_deactivation s
  deactivation_from deactivating s = queue_deactivation s
  deactivation_from _ s = s

  unfoldable pub enqueue_deactivation : Sync → Sync
  unfolding deactivation_from
  enqueue_deactivation s = deactivation_from s.core.status s

  unfoldable pub announce_update : Sync → Sync
  unfolding defer notify_all
  announce_update s = notify_all told_has_event (defer on_updated s)

  -- The deferred functions, and the completion callbacks behind the first two.
  pub show : ℕ → SyncEvent → Core → Shown SyncEvent Core
  unfolding tell set_status
  show a on_activated c = record {
    state = tell (told_activated a) (set_status activated c);
    deferred = [];
    threw = false;
  }
  show a on_deactivated c = record {
    state = tell (told_deactivated a) (set_status deactivated c);
    deferred = [];
    threw = false;
  }
  show a on_destroyed c = record { state = tell (told_destroyed a) c; deferred = []; threw = false }
  show a on_updated c = record { state = tell (told_updated a) c; deferred = []; threw = false }

  pub complete : SyncEvent → EventStatus → Core → Core
  unfolding tell
  complete on_activated st c = tell on_activation c
  complete on_deactivated st c = tell on_deactivation c
  complete on_destroyed st c = c
  complete on_updated st c = c

  -- No event defers another, so one round for each, and one to find the queue empty, is enough.
  unfoldable pub process_events : Sync → Sync
  unfolding show complete Dispatcher.process_events
  process_events s =
      elim (Dispatcher.process_events alive show complete (suc (length s.events.events)) s.events
        s.core) [ none ↦ s | some (d, c) ↦ record s { core = c; events = d } ]

  unfoldable pub step : Call → Sync → Sync
  unfolding enqueue_activation enqueue_deactivation process_events announce_update set_proxy
      set_activation_status set_error add_adaptor remove_adaptor
  step enqueues_activation s = enqueue_activation s
  step enqueues_deactivation s = enqueue_deactivation s
  step processes s = process_events s
  step announces_update s = announce_update s
  step sets_proxy s = set_proxy s
  step sets_activated s = set_activation_status activated s
  step sets_activating s = set_activation_status activating s
  step sets_deactivated s = set_activation_status deactivated s
  step sets_deactivating s = set_activation_status deactivating s
  step sets_destroyed s = set_activation_status destroyed s
  step (sets_error e) s = set_error e s
  step (adds_adaptor a) s = add_adaptor a s
  step (removes_adaptor a) s = remove_adaptor a s

  unfoldable pub run : List Call → Sync → Sync
  unfolding step
  run [] s = s
  run (c ∷ cs) s = run cs (step c s)
