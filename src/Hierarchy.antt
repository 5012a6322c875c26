-- ===== src/Hierarchy.antt =====
-- src/core/ZstHierarchy.cpp, with the recursive queries of src/core/entities/ZstComponent.cpp: the
-- search of a path, the entities below one, and the calls on their activation state. `stack` bounds
-- the recursion through the children.
pub mod Proxies
pub mod Removal
pub mod Sound
pub mod Reach
pub mod Tests
use showtime_cpp.Common.{
  ℕ, suc, zero, ◌-◌, Bool, true, false, not, ◌&&◌, ◌||◌, List, [], ◌∷◌, ◌++◌, Option, none, some,
  Result, ok, thrown, Error, ◌>>=◌, if◌then◌else◌, length, leb,
}
use showtime_cpp.Uri
use showtime_cpp.Uri.{Uri, equal}
use showtime_cpp.Sync
use showtime_cpp.Sync.{Sync, activating}
use showtime_cpp.Session.{heard, is_event_for}
use showtime_cpp.World
use showtime_cpp.World.{Entity, EntityKind, performer, stage_proxy}
use showtime_cpp.Tree
use showtime_cpp.Tree.{
  Hierarchy, EntityType, none_type, plug_type, entity_at, put, in_world, find_entity, passes,
  is_component, get_child_by_uri,
}

-- `get_child_entities`. A child is visited through its pointer, found when its turn comes.
visit_found : (ℕ → Result (List ℕ)) → Option ℕ → Result (List ℕ)
visit_found visit none = ok []
visit_found visit (some c) = visit c

visit_each : (ℕ → Result (List ℕ)) → Entity → List Uri → Hierarchy → Result (List ℕ)
unfolding visit_found get_child_by_uri
visit_each visit e [] h = ok []
visit_each visit e (u ∷ us) h = visit_found visit (get_child_by_uri e u h) >>= λ front.
    visit_each visit e us h >>= λ rest. ok (front ++ rest)

-- `ZstEntityBase::get_child_entities`.
pub only_self : Bool → EntityType → ℕ → Entity → List ℕ
unfolding passes
only_self include_parent filter p e = if include_parent && passes filter e then p ∷ [] else []

pub base_child_entities : Bool → EntityType → Hierarchy → ℕ → Result (List ℕ)
unfolding entity_at only_self
base_child_entities include_parent filter h p =
    entity_at p h >>= λ e. ok (only_self include_parent filter p e)

unfoldable pub get_child_entities : ℕ → Bool → Bool → EntityType → Hierarchy → ℕ → Result (List ℕ)
unfolding entity_at is_component only_self visit_each base_child_entities
get_child_entities zero include_parent recursive filter h p = thrown Error.out_of_fuel
get_child_entities (suc stack) include_parent recursive filter h p = entity_at p h >>= λ e.
    let own = only_self include_parent filter p e in
    if is_component e.kind
    then (visit_each
          (if recursive
            then get_child_entities stack true true filter h
            else base_child_entities true filter h)
          e e.children h
        >>= λ below. ok (own ++ below))
    else ok own

-- `ZstComponent::get_plugs`.
unfoldable pub get_plugs : ℕ → Hierarchy → ℕ → Result (List ℕ)
unfolding get_child_entities
get_plugs stack h p = get_child_entities stack false false plug_type h p

-- The loop of `walk_child_by_uri`, while `distance > 0`; each round takes one of `rounds`. An entity
-- that is not a component has no child to look for.
pub child_of : Entity → Uri → Hierarchy → Option ℕ
unfolding is_component get_child_by_uri
child_of previous next h =
    if is_component previous.kind then get_child_by_uri previous next h else none

unfoldable pub walk_from : ℕ → Uri → ℕ → Entity → Option ℕ → Hierarchy → Result (Option ℕ)
unfolding Uri.range Uri.size child_of entity_at
walk_from rounds path zero previous result h = ok result
walk_from zero path (suc distance) previous result h = thrown Error.out_of_fuel
walk_from (suc rounds) path (suc distance) previous result h =
    Uri.range path 0 (Uri.size path - suc distance) >>= λ next. elim (child_of previous next h) [
      | none ↦ ok none
      | some c ↦ entity_at c h >>= λ found.
          walk_from rounds path (Uri.size path - Uri.size found.uri) found (some c) h
    ]

-- As many rounds as the path has segments.
unfoldable pub walk_child_by_uri : Entity → Uri → Hierarchy → Result (Option ℕ)
unfolding Uri.size Uri.contains walk_from
walk_child_by_uri e path h =
    if leb (Uri.size path) (Uri.size e.uri) || not (Uri.contains path e.uri)
    then ok none
    else walk_from (Uri.size path) path (Uri.size path - Uri.size e.uri) e none h

-- `dynamic_cast<ZstPerformer*>`.
pub is_performer : EntityKind → Bool
is_performer performer = true
is_performer stage_proxy = true
is_performer _ = false

walk_from_root : Uri → Hierarchy → Option ℕ → Result (Option ℕ)
unfolding entity_at equal walk_child_by_uri
walk_from_root path h none = ok none
walk_from_root path h (some root) = entity_at root h >>= λ e.
    if equal e.uri path then ok (some root) else walk_child_by_uri e path h

unfoldable pub walk_to_entity : Uri → Hierarchy → Result (Option ℕ)
unfolding Uri.first find_entity World.cast is_performer walk_from_root
walk_to_entity path h = Uri.first path >>= λ name.
    walk_from_root path h (World.cast is_performer h.world (find_entity name h))

-- `get_performers`, where `local` is the performer of this program, if it has one.
performers_of : List ℕ → Hierarchy → List ℕ
unfolding World.cast is_performer
performers_of [] h = []
performers_of (p ∷ ps) h = elim (World.cast is_performer h.world (some p)) [
  | none ↦ performers_of ps h
  | some q ↦ q ∷ performers_of ps h
]

unfoldable pub get_performers : Option ℕ → Hierarchy → List ℕ
unfolding performers_of
get_performers none h = performers_of h.proxies h
get_performers (some local) h = local ∷ performers_of h.proxies h

module _ (alive : ℕ → Bool) (self : ℕ) where
  -- A call on the activation state of an entity. When the hierarchy is told that there is an event,
  -- `synchronisable_has_event` defers its processing.
  unfoldable pub with_sync : (Sync → Sync) → ℕ → Hierarchy → Result Hierarchy
  unfolding entity_at put heard is_event_for
  with_sync f p h = entity_at p h >>= λ e.
      let after = f e.sync in
      let changed = put p (record e { sync = after }) h in
      ok (record changed {
        woken =
            if heard (is_event_for self) e.sync after
            then h.woken ++ (p, e.sync.core.instance_id) ∷ []
            else h.woken;
      })

  -- A loop over the entities of a bundle.
  pub for_each : (ℕ → Hierarchy → Result Hierarchy) → List ℕ → Hierarchy → Result Hierarchy
  for_each f [] h = ok h
  for_each f (p ∷ ps) h = f p h >>= λ h. for_each f ps h

  -- `activate_entity_complete`.
  activate_one : ℕ → Hierarchy → Result Hierarchy
  unfolding entity_at in_world World.add_entity_to_lookup with_sync Sync.set_activation_status
      Sync.enqueue_activation
  activate_one p h = entity_at p h >>= λ e.
      with_sync (Sync.set_activation_status activating) p
        (in_world (World.add_entity_to_lookup e.uri p) h)
      >>= λ h. with_sync (Sync.enqueue_activation alive) p h

  unfoldable pub activate_entity_complete : ℕ → Option ℕ → Hierarchy → Result Hierarchy
  unfolding get_child_entities for_each activate_one
  activate_entity_complete stack none h = ok h
  activate_entity_complete stack (some p) h =
      get_child_entities stack true true none_type h p >>= λ bundle. for_each activate_one bundle h
