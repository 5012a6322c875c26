-- ===== src/Hierarchy/Proxies.antt =====
-- src/core/ZstHierarchy.cpp: the entities that a message describes, from `unpack_entity` to the event
-- of their arrival, and their updates. The payload of a message is a record of the fields that the
-- constructors read; the value of a plug is left out. `fresh` is the address of the new object, and
-- `default` the default adaptor of its dispatcher.
pub mod Kept
pub mod Taken
use showtime_cpp.Common.{
  ℕ, ◌%◌, ◌^◌, Bool, true, false, not, ◌&&◌, ◌||◌, List, [], ◌∷◌, ◌++◌, Option, none, some, Result,
  ok, thrown, Error, ◌>>=◌, if◌then◌else◌, ltb, length, Bytes,
}
use showtime_cpp.OrderedSet
use showtime_cpp.Uri
use showtime_cpp.Uri.{Uri, equal, not_equal}
use showtime_cpp.Sync
use showtime_cpp.Sync.{Sync, activated}
use showtime_cpp.World.{
  Entity, EntityKind, component, performer, input_plug, output_plug, factory, stage_proxy,
  PlugDirection, no_jack, in_jack, out_jack,
}
use showtime_cpp.Tree
use showtime_cpp.Tree.{
  Hierarchy, HierarchyEvent, entity_arriving, factory_arriving, performer_arriving, entity_updated,
  EntityType, none_type, component_type, performer_type, plug_type, factory_type, type_of,
  creatables_updated, published_update, entity_at, put, note, find_entity, is_component, is_factory,
  add_creatable, update_creatable_uris, register_entity, add_child, set_name,
}
use showtime_cpp.Hierarchy.{get_child_entities, with_sync, for_each}

-- `EntityTypes` of the messages.
pub data EntityTypes : Type 0 where
  no_entity performer_entity component_entity plug_entity factory_entity : EntityTypes

pub record Payload : Type 0 where
  pub entity_types : EntityTypes
  pub uri : Bytes
  pub owner : Option Bytes
  pub plug_direction : PlugDirection
  -- `max_cables`, an `int`, read as the model's `max_cables`.
  pub max_cables : ℕ
  pub creatables : List Bytes

-- `ZstURI(s->c_str(), s->size())`.
unfoldable pub uri_of : Bytes → Uri
unfolding Uri.from_buffer
uri_of s = Uri.from_buffer s (length s)

unfoldable pub owner_of : Option Bytes → Uri
unfolding uri_of Uri.empty
owner_of none = Uri.empty
owner_of (some s) = uri_of s

pub add_each_creatable : List Bytes → List Uri → List Uri
unfolding uri_of add_creatable
add_each_creatable [] done = done
add_each_creatable (s ∷ ss) done = add_each_creatable ss (add_creatable (uri_of s) done)

-- An object whose constructors have run: `ZstEntityBase` and `deserialize_partial`.
unfoldable pub construct : EntityKind → Sync → Payload → Entity
unfolding uri_of owner_of Uri.empty
construct kind sync d = record {
  kind = kind;
  uri = uri_of d.uri;
  parent = Uri.empty;
  current_owner = owner_of d.owner;
  registered = false;
  sync = sync;
  children = [];
  direction = no_jack;
  max_cables = 0;
  cables = [];
  can_fire = false;
  subscribers = [];
  creatables = [];
}

-- `ZstPlug::deserialize_partial`.
pub construct_plug : EntityKind → Sync → Payload → Entity
unfolding construct
construct_plug kind sync d = record (construct kind sync d) {
  direction = d.plug_direction;
  max_cables = d.max_cables;
}

pub plug_kind : PlugDirection → EntityKind
plug_kind in_jack = input_plug
plug_kind _ = output_plug

unfoldable pub unpack_entity : Sync → EntityTypes → Payload → Result Entity
unfolding construct construct_plug plug_kind add_each_creatable
unpack_entity sync no_entity d = thrown Error.runtime_error
unpack_entity sync performer_entity d = ok (construct performer sync d)
unpack_entity sync component_entity d = ok (construct component sync d)
unpack_entity sync plug_entity d = ok (construct_plug (plug_kind d.plug_direction) sync d)
unpack_entity sync factory_entity d =
    ok (record (construct factory sync d) { creatables = add_each_creatable d.creatables [] })

pub is_performer_entity : EntityTypes → Bool
is_performer_entity performer_entity = true
is_performer_entity _ = false

pub is_factory_entity : EntityTypes → Bool
is_factory_entity factory_entity = true
is_factory_entity _ = false

-- The path is free, or not.
create_if_free : Option ℕ → Sync → Payload → Result (Option Entity)
unfolding Uri.parent uri_of Uri.is_empty is_performer_entity unpack_entity
create_if_free (some p) sync d = ok none
create_if_free none sync d = Uri.parent (uri_of d.uri) >>= λ parent_path.
    if not (is_performer_entity d.entity_types) && Uri.is_empty parent_path
    then ok none
    else (unpack_entity sync d.entity_types d >>= λ e. ok (some e))

unfoldable pub create_proxy_entity : Sync → Payload → Hierarchy → Result (Option Entity)
unfolding find_entity uri_of create_if_free
create_proxy_entity sync d h = create_if_free (find_entity (uri_of d.uri) h) sync d

defer : HierarchyEvent → Hierarchy → Hierarchy
defer event h = record h { events = h.events ++ event ∷ [] }

arrived : EntityType → ℕ → Hierarchy → Hierarchy
unfolding defer
arrived component_type p h = defer (entity_arriving p) h
arrived plug_type p h = defer (entity_arriving p) h
arrived factory_type p h = defer (factory_arriving p) h
arrived performer_type p h = defer (performer_arriving p) h
arrived none_type p h = h

unfoldable pub dispatch_entity_arrived_event : ℕ → Hierarchy → Result Hierarchy
unfolding entity_at type_of arrived
dispatch_entity_arrived_event p h = entity_at p h >>= λ e. ok (arrived (type_of e.kind) p h)

module _ (alive : ℕ → Bool) (self : ℕ) (stack : ℕ) where
  -- `dynamic_cast<ZstComponent*>(parent)->add_child(entity)`: a cast that fails is dereferenced.
  add_to_parent : Option ℕ → ℕ → Hierarchy → Result Hierarchy
  unfolding entity_at is_component add_child
  add_to_parent none p h = ok h
  add_to_parent (some parent) p h = entity_at parent h >>= λ q.
      if is_component q.kind
      then add_child alive self stack true parent p h
      else thrown Error.invalid_read

  -- The loop over the children of the new proxy, which are proxies too, and active.
  adopt : ℕ → Hierarchy → Result Hierarchy
  unfolding with_sync Sync.set_proxy Sync.set_activation_status
  adopt p h = with_sync alive self Sync.set_proxy p h >>= λ h.
      with_sync alive self (Sync.set_activation_status activated) p h

  adopt_below : ℕ → Hierarchy → Result Hierarchy
  unfolding get_child_entities for_each adopt
  adopt_below p h = get_child_entities stack true true none_type h p >>= λ bundle.
      for_each alive self adopt bundle h

  -- The object that `m_proxies`, a set ordered by address, now owns.
  keep_proxy : ℕ → Hierarchy → Hierarchy
  keep_proxy p h = record h { proxies = OrderedSet.insert (λ a. a) ltb p h.proxies }

  add_new_proxy : ℕ → Entity → Hierarchy → Result Hierarchy
  unfolding put Uri.parent find_entity Sync.set_proxy add_to_parent register_entity adopt_below
      keep_proxy dispatch_entity_arrived_event
  add_new_proxy fresh e h = Uri.parent e.uri >>= λ parent_path.
      add_to_parent (find_entity parent_path h) fresh
        (put fresh (record e { sync = Sync.set_proxy e.sync }) h)
      >>= λ h. register_entity alive self fresh h >>= λ h.
          adopt_below fresh h >>= λ h. dispatch_entity_arrived_event fresh (keep_proxy fresh h)

  unfoldable pub add_proxy_entity : ℕ → Option Entity → Hierarchy → Result Hierarchy
  unfolding add_new_proxy
  add_proxy_entity fresh none h = ok h
  add_proxy_entity fresh (some e) h = add_new_proxy fresh e h

  -- `ZstEntityFactory::update_creatables` of src/core/entities/ZstEntityFactory.cpp. The factory has
  -- events of its own, for which the hierarchy is told that there is one.
  alert_stage : ℕ → Entity → Hierarchy → Result Hierarchy
  unfolding put note update_creatable_uris
  alert_stage p e h =
      if e.sync.core.proxy
      then ok h
      else (update_creatable_uris e.uri e.creatables [] >>= λ cs.
          let changed = put p (record e { creatables = cs }) h in
          ok (if e.registered then note (published_update p e.uri) changed else changed))

  wake_for : ℕ → Entity → Hierarchy → Hierarchy
  wake_for p e h =
      if e.registered then record h { woken = h.woken ++ (p, e.sync.core.instance_id) ∷ [] } else h

  unfoldable pub update_creatables : ℕ → Hierarchy → Result Hierarchy
  unfolding entity_at alert_stage wake_for note
  update_creatables p h = entity_at p h >>= λ e.
      alert_stage p e h >>= λ h. ok (wake_for p e (note (creatables_updated p) h))

  -- The first part of `update_proxy_entity`, where it does not return: the creatables of a factory.
  update_factory : ℕ → Entity → Payload → Hierarchy → Result Hierarchy
  unfolding put add_each_creatable update_creatables
  update_factory p e d h =
      update_creatables p (put p (record e { creatables = add_each_creatable d.creatables [] }) h)

  -- The second part: the name.
  rename : ℕ → Payload → Hierarchy → Result Hierarchy
  unfolding entity_at uri_of not_equal Uri.parent Uri.last Uri.path set_name defer
  rename p d h = entity_at p h >>= λ e.
      let path = uri_of d.uri in
      if not_equal e.uri path
      then (Uri.parent path >>= λ above.
          if not_equal e.parent above
          then ok h
          else (Uri.last path >>= λ name. set_name alive self stack (Uri.path name) p h >>= λ h.
              ok (defer (entity_updated p) h)))
      else ok h

  update_original : ℕ → Entity → Payload → Hierarchy → Result Hierarchy
  unfolding is_factory_entity is_factory update_factory rename
  update_original p e d h =
      if is_factory_entity d.entity_types
      then (if is_factory e.kind then (update_factory p e d h >>= λ h. rename p d h) else ok h)
      else rename p d h

  unfoldable pub update_proxy_entity : Option ℕ → Payload → Hierarchy → Result Hierarchy
  unfolding entity_at update_original
  update_proxy_entity none d h = ok h
  update_proxy_entity (some p) d h = entity_at p h >>= λ e. update_original p e d h
