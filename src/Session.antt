-- ===== src/Session.antt =====
-- src/core/ZstSession.cpp: the cables between plugs, from their creation to the reaper, and the
-- performers that the session listens to. A cable is named by its address, which never changes and
-- which no other cable of the session has. `alive` says which adaptors still exist, and `self` is
-- the session's own adaptor for synchronisables.
pub mod Cables
pub mod Stored
pub mod Create
pub mod Connect
pub mod Live
pub mod Heard
pub mod Destroy
pub mod Performers
pub mod Tests
use showtime_cpp.Common.{
  ℕ, ◌+◌, ◌==◌, Bool, true, false, not, ◌&&◌, ◌||◌, List, [], ◌∷◌, ◌++◌, Option, none, some, length,
  drop, Result, ok, ◌>>=◌, if◌then◌else◌,
}
use showtime_cpp.Uri
use showtime_cpp.Uri.{Uri}
use showtime_cpp.CableAddress.{CableAddress, address_less, address_eq}
use showtime_cpp.Sync
use showtime_cpp.Sync.{Sync, Note, told_has_event, told_destroyed, activated, activating}
use showtime_cpp.Cable
use showtime_cpp.Cable.{Cable}
use showtime_cpp.OrderedSet
use showtime_cpp.World
use showtime_cpp.World.{World, Entity, in_jack, out_jack, PlugDirection}
use showtime_cpp.World.Plug

-- The events that the session defers to its adaptors.
pub data SessionEvent : Type 0 where
  on_cable_created on_cable_destroyed : CableAddress → SessionEvent

pub record Session : Type 0 where
  pub world : World
  pub cables : List Cable
  pub connected_performers : List Uri
  pub events : List SessionEvent
  -- The cables that `synchronisable_has_event` was called for, and the clean-up operations of the
  -- reaper, each in the order of its queue.
  pub woken : List CableAddress
  pub cleanups : List CableAddress
  pub id_counter : ℕ

unfoldable pub address_of : Cable → CableAddress
address_of c = c.address

-- The search of `find_cable`.
pub find_if : CableAddress → List Cable → Option Cable
find_if a [] = none
find_if a (c ∷ cs) = if address_eq c.address a then some c else find_if a cs

unfoldable pub find_cable : CableAddress → Session → Option Cable
unfolding find_if
find_cable a s = find_if a s.cables

-- `cable->f(...)` for the cable of the set that has this address.
pub change : CableAddress → (Cable → Cable) → List Cable → List Cable
change a f [] = []
change a f (c ∷ cs) = if address_eq c.address a then f c ∷ cs else c ∷ change a f cs

-- Whether a call told something new, which `is` recognises.
unfoldable pub any_note : (Note → Bool) → List Note → Bool
any_note is [] = false
any_note is (n ∷ ns) = if is n then true else any_note is ns

unfoldable pub heard : (Note → Bool) → Sync → Sync → Bool
unfolding any_note
heard is before after = any_note is (drop (length before.core.told) after.core.told)

unfoldable pub is_event_for : ℕ → Note → Bool
is_event_for self (told_has_event a) = a == self
is_event_for self _ = false

unfoldable pub is_destruction_for : ℕ → Note → Bool
is_destruction_for self (told_destroyed a) = a == self
is_destruction_for self _ = false

-- A clean-up operation: the cable is searched, and erased from the set by its address.
clean_up : List CableAddress → List Cable → List Cable
unfolding find_if address_of
clean_up [] cs = cs
clean_up (a ∷ as') cs = clean_up as' (elim (find_if a cs) [
  | none ↦ cs
  | some c ↦ OrderedSet.erase address_of address_less c.address cs
])

-- `plug_remove_cable` of a plug that may be missing.
unplug : Option ℕ → CableAddress → World → World
unfolding World.modify Plug.remove_cable
unplug none a w = w
unplug (some p) a w = World.modify p (Plug.remove_cable a) w

-- The calls on the plugs of the cable.
unplug_both : CableAddress → World → World
unfolding unplug World.find_input_plug World.find_output_plug
unplug_both a w =
    let input = World.find_input_plug a.input_uri w in
    let output = World.find_output_plug a.output_uri w in unplug output a (unplug input a w)

-- `direction()` of both plugs.
pub in_order : PlugDirection → PlugDirection → Bool
in_order in_jack out_jack = true
in_order _ _ = false

-- The guards of `connect_cable`, for plugs that are there.
connectable : Entity → Entity → Bool
unfolding in_order Sync.is_activated
connectable i o =
    Sync.is_activated i.sync && Sync.is_activated o.sync && in_order i.direction o.direction

store_cable : ℕ → ℕ → Cable → Session → Session
unfolding Plug.add_cable World.modify address_of Sync.next_id
store_cable input output c s = record s {
  cables = OrderedSet.insert address_of address_less c s.cables;
  world =
      World.modify output (Plug.add_cable c.address)
        (World.modify input (Plug.add_cable c.address) s.world);
  events = s.events ++ on_cable_created c.address ∷ [];
  id_counter = Sync.next_id s.id_counter;
}

module _ (alive : ℕ → Bool) (self : ℕ) where
  -- A call on the activation state of the cable with this address. When the session is told that
  -- there is an event, `ZstSynchronisableModule::synchronisable_has_event` defers its processing.
  with_found : CableAddress → (Sync → Sync) → Session → Option Cable → Session
  unfolding change heard is_event_for
  with_found a f s none = s
  with_found a f s (some c) = record s {
    cables = change a (λ c. record c { sync = f c.sync }) s.cables;
    woken = if heard (is_event_for self) c.sync (f c.sync) then s.woken ++ a ∷ [] else s.woken;
  }

  unfoldable pub with_cable : CableAddress → (Sync → Sync) → Session → Session
  unfolding with_found find_cable
  with_cable a f s = with_found a f s (find_cable a s)

  -- The part of `create_cable` behind the search. `default` is the default adaptor of the cable.
  new_cable : ℕ → ℕ → Uri → ℕ → Uri → Session → Cable
  unfolding Cable.cable_between Cable.set_input Cable.set_output Sync.add_adaptor Sync.set_proxy
      Sync.set_activation_status
  new_cable default input input_path output output_path s =
      let c = Cable.cable_between default s.id_counter input input_path output output_path in
      let c = Cable.set_output output (Cable.set_input input c) in
      record c {
        sync =
            Sync.set_activation_status activated
              (Sync.set_proxy (Sync.add_adaptor alive self c.sync));
      }

  -- The search found a cable, or not.
  pub create_found :
      ℕ → ℕ → Entity → ℕ → Entity → Session → Option Cable → Session × Option CableAddress
  unfolding with_cable new_cable store_cable Sync.is_activated Sync.enqueue_activation
  create_found default input i output o s (some c) = (
    if Sync.is_activated c.sync then s else with_cable c.address (Sync.enqueue_activation alive) s,
    some c.address,
  )
  create_found default input i output o s none =
      let c = new_cable default input i.uri output o.uri s in
      (store_cable input output c s, some c.address)

  pub create_between : ℕ → ℕ → Entity → ℕ → Entity → Session → Session × Option CableAddress
  unfolding create_found find_cable
  create_between default input i output o s =
      create_found default input i output o s
        (find_cable (record { input_uri = i.uri; output_uri = o.uri }) s)

  -- `create_cable`, with pointers that may be null; a pointer that dangles counts as null.
  unfoldable pub create_cable : ℕ → Option ℕ → Option ℕ → Session → Session × Option CableAddress
  unfolding create_between
  create_cable default none output s = (s, none)
  create_cable default (some input) none s = (s, none)
  create_cable default (some input) (some output) s = elim (s.world.heap input) [
    | none ↦ (s, none)
    | some i ↦ elim (s.world.heap output) [
      | none ↦ (s, none)
      | some o ↦ create_between default input i output o s
    ]
  ]

  -- `cable_set_local` calls `set_proxy`.
  pub finish_connection :
      Entity → Entity → Session × Option CableAddress → Session × Option CableAddress
  unfolding with_cable Sync.set_activation_status Sync.set_proxy
  finish_connection i o (s, none) = (s, none)
  finish_connection i o (s, some a) =
      let t = with_cable a (Sync.set_activation_status activating) s in
      (
        if not i.sync.core.proxy || not o.sync.core.proxy then with_cable a Sync.set_proxy t else t,
        some a,
      )

  pub connect_between : ℕ → ℕ → Entity → ℕ → Entity → Session → Session × Option CableAddress
  unfolding connectable create_between finish_connection
  connect_between default input i output o s =
      if connectable i o
      then finish_connection i o (create_between default input i output o s)
      else (s, none)

  unfoldable pub connect_cable : ℕ → Option ℕ → Option ℕ → Session → Session × Option CableAddress
  unfolding connect_between
  connect_cable default none output s = (s, none)
  connect_cable default (some input) none s = (s, none)
  connect_cable default (some input) (some output) s = elim (s.world.heap input) [
    | none ↦ (s, none)
    | some i ↦ elim (s.world.heap output) [
      | none ↦ (s, none)
      | some o ↦ connect_between default input i output o s
    ]
  ]

  unfoldable pub destroy_cable_complete : Option CableAddress → Session → Session
  unfolding unplug_both with_cable Sync.enqueue_deactivation
  destroy_cable_complete none s = s
  destroy_cable_complete (some a) s =
      with_cable a (Sync.enqueue_deactivation alive)
        (record s { world = unplug_both a s.world; events = s.events ++ on_cable_destroyed a ∷ [] })

  -- `on_synchronisable_destroyed` of a cable, which `process_events` of the cable calls.
  process_found : CableAddress → Session → Option Cable → Session
  unfolding with_cable heard is_destruction_for Sync.process_events
  process_found a s none = s
  process_found a s (some c) =
      let t = with_cable a (Sync.process_events alive) s in
      if heard (is_destruction_for self) c.sync (Sync.process_events alive c.sync)
      then record t { cleanups = t.cleanups ++ a ∷ [] }
      else t

  process_cable : CableAddress → Session → Session
  unfolding process_found find_cable
  process_cable a s = process_found a s (find_cable a s)

  process_woken : List CableAddress → Session → Session
  unfolding process_cable
  process_woken [] s = s
  process_woken (a ∷ as') s = process_woken as' (process_cable a s)

  -- `ZstSynchronisableModule::process_events`: the events, then the reaper.
  unfoldable pub process_synchronisables : Session → Session
  unfolding process_woken clean_up
  process_synchronisables s =
      let t = process_woken s.woken (record s { woken = [] }) in
      record t { cables = clean_up t.cleanups t.cables; cleanups = [] }

-- The set of performers.
pub self_key : Uri → Uri
self_key u = u

unfoldable pub add_connected_performer : Uri → Session → Session
unfolding self_key
add_connected_performer u s = if Uri.is_empty u then s else record s {
  connected_performers = OrderedSet.insert self_key Uri.less u s.connected_performers;
}

unfoldable pub remove_connected_performer : Uri → Session → Session
unfolding self_key
remove_connected_performer u s = if Uri.is_empty u then s else record s {
  connected_performers = OrderedSet.erase self_key Uri.less u s.connected_performers;
}

unfoldable pub listening_to_performer : Uri → Session → Bool
unfolding self_key
listening_to_performer u s = elim (OrderedSet.lookup self_key Uri.less u s.connected_performers) [
  | none ↦ false
  | some p ↦ true
]

-- `ZstSession::observe_entity`.
unfoldable pub observe_entity : Entity → Session → Result Bool
unfolding listening_to_performer
observe_entity e s =
    if not e.sync.core.proxy
    then ok false
    else (Uri.first e.uri >>= λ performer_path. ok (not (listening_to_performer performer_path s)))
