-- ===== src/Hierarchy/Removal.antt =====
-- src/core/ZstHierarchy.cpp, src/core/ZstSynchronisableModule.cpp and src/core/ZstReaper.cpp: an
-- entity leaves the tree, its events tell the hierarchy that it is destroyed, and the reaper frees it.
-- The hierarchy acts on the destruction when the entity has processed all its events.
pub mod Kept
pub mod Freed
pub mod Detached
use showtime_cpp.Common.{
  ℕ, ◌==◌, Bool, true, false, not, ◌&&◌, ◌||◌, List, [], ◌∷◌, ◌++◌, Option, none, some, Result, ok,
  thrown, Error, ◌>>=◌, if◌then◌else◌, drop, length,
}
use showtime_cpp.Uri.{Uri}
use showtime_cpp.Sync
use showtime_cpp.Sync.{
  Sync, SyncStatus, activated, deactivating, destroyed, Note, on_activation, on_deactivation,
}
use showtime_cpp.Session.{heard, is_destruction_for}
use showtime_cpp.World
use showtime_cpp.World.{Entity, EntityKind, input_plug, output_plug}
use showtime_cpp.Tree
use showtime_cpp.Tree.{
  Hierarchy, HierarchyEvent, entity_leaving, factory_leaving, performer_leaving, EntityType,
  none_type, component_type, performer_type, plug_type, factory_type, type_of, entity_at, put,
  in_world, is_component, parent_of, remove_child,
}
use showtime_cpp.Hierarchy.{get_child_entities, with_sync, for_each}

-- The event of a proxy that leaves: none for a plug.
unfoldable pub leaving_event : EntityType → Uri → List HierarchyEvent
leaving_event performer_type u = performer_leaving u ∷ []
leaving_event factory_type u = factory_leaving u ∷ []
leaving_event component_type u = entity_leaving u ∷ []
leaving_event _ u = []

announce_leaving : ℕ → Hierarchy → Result Hierarchy
unfolding entity_at leaving_event type_of
announce_leaving p h = entity_at p h >>= λ e. ok (
    if e.sync.core.proxy
    then record h { events = h.events ++ leaving_event (type_of e.kind) e.uri }
    else h)

pub status_is_destroyed : SyncStatus → Bool
status_is_destroyed destroyed = true
status_is_destroyed _ = false

-- `ZstHierarchy::deactivate_entity`.
unfoldable pub deactivate_entity : ℕ → Hierarchy → Result Hierarchy
unfolding entity_at status_is_destroyed put Sync.set_activation_status
deactivate_entity p h = entity_at p h >>= λ e. ok (
    if status_is_destroyed e.sync.core.status
    then h
    else put p (record e { sync = Sync.set_activation_status deactivating e.sync }) h)

-- `ZstEntityBase::deactivate`.
unfoldable pub deactivate : ℕ → Hierarchy → Result Hierarchy
unfolding entity_at Sync.is_destroyed Sync.is_activated deactivate_entity
deactivate p h = entity_at p h >>= λ e.
    if Sync.is_destroyed e.sync
    then ok h
    else if not e.registered || not (Sync.is_activated e.sync)
    then ok h
    else deactivate_entity p h

-- `on_activation` and `on_deactivation` of the plugs; those of other entities have no effect.
is_plug : EntityKind → Bool
is_plug input_plug = true
is_plug output_plug = true
is_plug _ = false

is_output : EntityKind → Bool
is_output output_plug = true
is_output _ = false

run_hook : Note → Entity → Entity
unfolding is_plug is_output
run_hook on_activation e =
    if is_output e.kind && not e.sync.core.proxy then record e { can_fire = true } else e
run_hook on_deactivation e = if is_plug e.kind then record e { cables = [] } else e
run_hook _ e = e

run_hooks : List Note → Entity → Entity
unfolding run_hook
run_hooks [] e = e
run_hooks (n ∷ ns) e = run_hooks ns (run_hook n e)

-- What was called since.
new_notes : Sync → Sync → List Note
new_notes before after = drop (length before.core.told) after.core.told

unfoldable pub member : ℕ → List ℕ → Bool
member n [] = false
member n (m ∷ ms) = if m == n then true else member n ms

unfoldable pub remove : ℕ → List ℕ → List ℕ
remove n [] = []
remove n (m ∷ ms) = if m == n then ms else m ∷ remove n ms

-- `reaper_cleanup_entity`.
unfoldable pub reaper_cleanup_entity : ℕ → Hierarchy → Result Hierarchy
unfolding entity_at in_world World.remove_entity_from_lookup
reaper_cleanup_entity p h =
    entity_at p h >>= λ e. ok (in_world (World.remove_entity_from_lookup e.uri) h)

-- The test at the head of `on_synchronisable_destroyed`.
leave_activation : ℕ → Hierarchy → Result Hierarchy
unfolding entity_at Sync.is_activated status_is_destroyed deactivate_entity
leave_activation p h = entity_at p h >>= λ e.
    if Sync.is_activated e.sync || status_is_destroyed e.sync.core.status
    then deactivate_entity p h
    else ok h

-- `already_removed` is true when the destructor calls.
queue_cleanup : Bool → ℕ → Hierarchy → Result Hierarchy
unfolding entity_at reaper_cleanup_entity put Sync.set_activation_status
queue_cleanup true p h = entity_at p h >>= λ e.
    reaper_cleanup_entity p (record h { dead = h.dead ++ e.sync.core.instance_id ∷ [] })
queue_cleanup false p h = entity_at p h >>= λ e.
    let set = put p (record e { sync = Sync.set_activation_status destroyed e.sync }) h in
    ok (record set { cleanups = h.cleanups ++ (p, e.sync.core.instance_id) ∷ [] })

unfoldable pub on_synchronisable_destroyed : Bool → ℕ → Hierarchy → Result Hierarchy
unfolding leave_activation queue_cleanup
on_synchronisable_destroyed already_removed p h =
    leave_activation p h >>= λ h. queue_cleanup already_removed p h

module _ (alive : ℕ → Bool) (self : ℕ) (stack : ℕ) where
  leave_parent : Option ℕ → ℕ → Hierarchy → Result Hierarchy
  unfolding remove_child
  leave_parent none p h = ok h
  leave_parent (some parent) p h = remove_child alive self stack parent p h

  deactivate_below : ℕ → Hierarchy → Result Hierarchy
  unfolding get_child_entities for_each with_sync Sync.enqueue_deactivation
  deactivate_below p h = get_child_entities stack true true none_type h p >>= λ bundle.
      for_each alive self (with_sync alive self (Sync.enqueue_deactivation alive)) bundle h

  unfoldable pub destroy_entity_complete : Option ℕ → Hierarchy → Result Hierarchy
  unfolding entity_at parent_of leave_parent announce_leaving deactivate_below
  destroy_entity_complete none h = ok h
  destroy_entity_complete (some p) h = entity_at p h >>= λ e.
      leave_parent (parent_of e h) p h >>= λ h. announce_leaving p h >>= λ h. deactivate_below p h

  unfoldable pub remove_proxy_entity : Option ℕ → Hierarchy → Result Hierarchy
  unfolding entity_at destroy_entity_complete
  remove_proxy_entity none h = ok h
  remove_proxy_entity (some p) h =
      entity_at p h >>= λ e. if e.sync.core.proxy then destroy_entity_complete (some p) h else ok h

  -- `process_events` of one entity, for the hierarchy and its `on_synchronisable_destroyed`.
  finish_processing : Bool → ℕ → Hierarchy → Result Hierarchy
  unfolding on_synchronisable_destroyed
  finish_processing told p h = if told then on_synchronisable_destroyed false p h else ok h

  process_entity : ℕ → Hierarchy → Result Hierarchy
  unfolding entity_at put run_hooks heard is_destruction_for Sync.process_events finish_processing
      new_notes
  process_entity p h = entity_at p h >>= λ e.
      let after = Sync.process_events alive e.sync in
      finish_processing (heard (is_destruction_for self) e.sync after) p
        (put p (run_hooks (new_notes e.sync after) (record e { sync = after })) h)

  -- The deferred function of `synchronisable_has_event`, for each of the queue.
  process_woken : List (ℕ × ℕ) → Hierarchy → Result Hierarchy
  unfolding member process_entity
  process_woken [] h = ok h
  process_woken ((p, id) ∷ rest) h =
      (if member id h.dead then ok h else process_entity p h) >>= λ h. process_woken rest h

  -- `~ZstComponent`.
  pub deactivate_children : Entity → ℕ → Hierarchy → Result Hierarchy
  unfolding is_component get_child_entities for_each deactivate
  deactivate_children e p h =
      if is_component e.kind
      then (get_child_entities stack false true none_type h p >>= λ bundle.
          for_each alive self deactivate bundle h)
      else ok h

  -- `dispatch_destroyed` of `~ZstEntityBase`, which the hierarchy hears: it adopted every entity that
  -- is registered. Then the memory is given back.
  set_destroyed : ℕ → Hierarchy → Result Hierarchy
  unfolding with_sync Sync.set_activation_status
  set_destroyed = with_sync alive self (Sync.set_activation_status destroyed)

  dispatch_destroyed : ℕ → Hierarchy → Result Hierarchy
  unfolding entity_at status_is_destroyed get_child_entities for_each set_destroyed
      on_synchronisable_destroyed
  dispatch_destroyed p h = entity_at p h >>= λ e.
      if status_is_destroyed e.sync.core.status || not e.registered
      then ok h
      else (get_child_entities stack false false none_type h p >>= λ bundle.
          for_each alive self set_destroyed bundle h >>= λ h. on_synchronisable_destroyed true p h)

  pub base_destructor : ℕ → Hierarchy → Result Hierarchy
  unfolding dispatch_destroyed in_world World.release
  base_destructor p h = dispatch_destroyed p h >>= λ h. ok (in_world (World.release p) h)

  free : ℕ → Hierarchy → Result Hierarchy
  unfolding entity_at deactivate_children base_destructor
  free p h = entity_at p h >>= λ e. deactivate_children e p h >>= λ h. base_destructor p h

  erase_proxy : Bool → ℕ → Hierarchy → Result Hierarchy
  unfolding member remove free
  erase_proxy proxy p h =
      if proxy && member p h.proxies
      then free p (record h { proxies = remove p h.proxies })
      else ok h

  -- A clean-up operation of the reaper.
  clean_up : ℕ → ℕ → Hierarchy → Result Hierarchy
  unfolding member entity_at reaper_cleanup_entity erase_proxy
  clean_up p id h =
      if member id h.dead
      then ok h
      else (entity_at p h >>= λ e.
          reaper_cleanup_entity p h >>= λ h. erase_proxy e.sync.core.proxy p h)

  reap_each : List (ℕ × ℕ) → Hierarchy → Result Hierarchy
  unfolding clean_up
  reap_each [] h = ok h
  reap_each ((p, id) ∷ rest) h = clean_up p id h >>= λ h. reap_each rest h

  -- `reap_all`, then the dead identifiers are forgotten.
  reap_all : Hierarchy → Result Hierarchy
  unfolding reap_each
  reap_all h =
      reap_each h.cleanups (record h { cleanups = [] }) >>= λ h. ok (record h { dead = [] })

  -- `ZstSynchronisableModule::process_events`.
  unfoldable pub process_synchronisables : Hierarchy → Result Hierarchy
  unfolding process_woken reap_all
  process_synchronisables h = process_woken h.woken (record h { woken = [] }) >>= λ h. reap_all h
