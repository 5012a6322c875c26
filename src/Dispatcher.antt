-- ===== src/Dispatcher.antt =====
-- src/core/ZstEventDispatcher.hpp: listeners, and a queue of events that are shown to each of them.
-- An adaptor is a number, the set of weak pointers a rising list of them, and `alive` says which
-- pointers still lock. An event is a value of a type of the dispatcher's user, who gives as `run`
-- what showing it to an adaptor does to the state, which events that defers to the same dispatcher
-- and whether it throws, and as `complete` what the completion callback does. The mutexes are left
-- out: a call is one step.
pub mod Adaptors
pub mod Process
pub mod Tests
use showtime_cpp.Common.{
  ℕ, zero, suc, ◌+◌, Bool, true, false, not, ◌&&◌, List, [], ◌∷◌, ◌++◌, Option, none, some, length,
  keep, ltb, ◌==◌, if◌then◌else◌,
}

pub record Dispatcher {ℓ} (E : Type ℓ) : Type ℓ where
  pub adaptors : List ℕ
  pub events : List E
  pub has_event : Bool
  -- The count of the semaphore that `m_condition_wake` points to, if it is set.
  pub wake : Option ℕ

-- `ZstEventStatus`.
pub data EventStatus : Type 0 where
  failed success : EventStatus

-- What showing an event to one adaptor gives.
pub record Shown {ℓ κ} (E : Type ℓ) (S : Type κ) : Type (ℓ ⊔ κ) where
  pub state : S
  pub deferred : List E
  pub threw : Bool

-- `std::set::insert` and `erase`.
insert : ℕ → List ℕ → List ℕ
insert a [] = a ∷ []
insert a (b ∷ bs) = if ltb a b then a ∷ b ∷ bs else if a == b then b ∷ bs else b ∷ insert a bs

erase : ℕ → List ℕ → List ℕ
erase a [] = []
erase a (b ∷ bs) = if a == b then bs else b ∷ erase a bs

member : ℕ → List ℕ → Bool
member a [] = false
member a (b ∷ bs) = if a == b then true else member a bs

prune_each : (ℕ → Bool) → List ℕ → List ℕ → List ℕ
unfolding erase
prune_each alive [] left = left
prune_each alive (a ∷ as') left = prune_each alive as' (if alive a then left else erase a left)

module _ {ℓ} {E : Type ℓ} where
  -- The default adaptor is in the set from the start.
  unfoldable pub new : ℕ → Dispatcher E
  new default = record { adaptors = default ∷ []; events = []; has_event = false; wake = none }

  unfoldable pub add_adaptor : ℕ → Dispatcher E → Dispatcher E
  unfolding insert
  add_adaptor a d = record d { adaptors = insert a d.adaptors }

  unfoldable pub remove_adaptor : ℕ → Dispatcher E → Dispatcher E
  unfolding erase
  remove_adaptor a d = record d { adaptors = erase a d.adaptors }

  unfoldable pub contains_adaptor : ℕ → Dispatcher E → Bool
  unfolding member
  contains_adaptor a d = member a d.adaptors

  unfoldable pub num_adaptors : Dispatcher E → ℕ
  num_adaptors d = length d.adaptors

  -- The loop runs over a copy of the set.
  remove_each : List ℕ → Dispatcher E → Dispatcher E
  unfolding remove_adaptor
  remove_each [] d = d
  remove_each (a ∷ as') d = remove_each as' (remove_adaptor a d)

  unfoldable pub remove_all_adaptors : Dispatcher E → Dispatcher E
  unfolding remove_each
  remove_all_adaptors d = record (remove_each d.adaptors d) { adaptors = [] }

  unfoldable pub prune_missing_adaptors : (ℕ → Bool) → Dispatcher E → Dispatcher E
  unfolding prune_each
  prune_missing_adaptors alive d = record d { adaptors = prune_each alive d.adaptors d.adaptors }

  unfoldable pub set_wake_condition : ℕ → Dispatcher E → Dispatcher E
  set_wake_condition count d = record d { wake = some count }

  notify : Dispatcher E → Dispatcher E
  notify d = record d { wake = elim d.wake [ none ↦ none | some count ↦ some (count + 1) ] }

  -- `ZstEventDispatcher::defer`.
  unfoldable pub defer : E → Dispatcher E → Dispatcher E
  unfolding notify
  defer e d = notify (record d { events = d.events ++ e ∷ []; has_event = true })

  -- `ZstBlockingEventDispatcher::defer` wakes nobody.
  unfoldable pub defer_blocking : E → Dispatcher E → Dispatcher E
  defer_blocking e d = record d { events = d.events ++ e ∷ []; has_event = true }

  unfoldable pub flush_events : Dispatcher E → Dispatcher E
  flush_events d = record d { events = []; has_event = false }

-- The adaptors that an event reaches, in the order of the set.
module _ (alive : ℕ → Bool) where
  invoke_each {κ} : {S : Type κ} → (ℕ → S → S) → List ℕ → S → S
  invoke_each event [] s = s
  invoke_each event (a ∷ as') s = invoke_each event as' (if alive a then event a s else s)

  unfoldable pub invoke {ℓ κ} : {E : Type ℓ} {S : Type κ} → (ℕ → S → S) → Dispatcher E → S → S
  unfolding invoke_each
  invoke event d s = invoke_each event d.adaptors s

-- What one adaptor did, after what those before it did.
merge {ℓ κ} : {E : Type ℓ} {S : Type κ} → Shown E S → Shown E S → Shown E S
merge r n = record {
  state = n.state;
  deferred = r.deferred ++ n.deferred;
  threw = if r.threw then true else n.threw;
}

module _ {ℓ κ} {E : Type ℓ} {S : Type κ} (alive : ℕ → Bool) (run : ℕ → E → S → Shown E S)
    (complete : E → EventStatus → S → S) where
  -- The loop of `process` over the adaptors. An exception is caught, and the loop goes on.
  show_each : E → List ℕ → Shown E S → Shown E S
  unfolding merge
  show_each e [] r = r
  show_each e (a ∷ as') r = show_each e as' (if alive a then merge r (run a e r.state) else r)

  finish : E → Shown E S → Shown E S
  finish e r = record r { state = complete e (if r.threw then failed else success) r.state }

  unfoldable pub process : List ℕ → E → S → Shown E S
  unfolding show_each finish
  process adaptors e s =
      finish e (show_each e adaptors (record { state = s; deferred = []; threw = false }))

  -- `while (try_dequeue(event)) process(event)`: what an event defers is dequeued by the same loop.
  -- `none` means that the fuel ran out.
  drain : ℕ → List ℕ → List E → S → Option S
  drain zero adaptors events s = none
  drain (suc fuel) adaptors [] s = some s
  drain (suc fuel) adaptors (e ∷ events) s =
      drain fuel adaptors (events ++ (process adaptors e s).deferred) (process adaptors e s).state

  unfoldable pub process_events : ℕ → Dispatcher E → S → Option (Dispatcher E × S)
  unfolding drain process
  process_events fuel d s = elim (drain fuel d.adaptors d.events s) [
    | none ↦ none
    | some s' ↦ some (record d { events = []; has_event = false }, s')
  ]

  -- `ZstBlockingEventDispatcher::process_events`: one event, if one is there before the time is up.
  -- `has_event` stays as it was.
  process_one : List E → Dispatcher E → S → Dispatcher E × S
  unfolding process
  process_one [] d s = (d, s)
  process_one (e ∷ rest) d s = (
    record d { events = rest ++ (process d.adaptors e s).deferred },
    (process d.adaptors e s).state,
  )

  unfoldable pub process_blocking : Dispatcher E → S → Dispatcher E × S
  unfolding process_one
  process_blocking d s = process_one d.events d s
