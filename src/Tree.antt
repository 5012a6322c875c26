-- ===== src/Tree.antt =====
-- src/core/entities/ZstEntityBase.cpp, ZstComponent.cpp and ZstPerformer.cpp: the tree of entities,
-- over the hierarchy of src/core/ZstHierarchy.cpp, which a registered entity has as its adaptor. Its
-- children are the paths that a component keeps, which the hierarchy's lookup map turns into pointers.
-- `set_parent` calls itself through the children, as deep as `stack`. A null pointer is `none`, where
-- a caller passes one.
pub mod Sound
pub mod Leaf
use showtime_cpp.Common.{
  ℕ, suc, zero, ◌==◌, Bool, true, false, not, ◌&&◌, ◌||◌, List, [], ◌∷◌, ◌++◌, Option, none, some,
  Result, ok, thrown, Error, ◌>>=◌, if◌then◌else◌, Bytes,
}
use showtime_cpp.Uri
use showtime_cpp.Uri.{Uri, equal}
use showtime_cpp.Sync
use showtime_cpp.OrderedSet
use showtime_cpp.World
use showtime_cpp.World.{
  World, Entity, EntityKind, component, performer, stage_proxy, input_plug, output_plug, factory,
}

-- What the adaptors of the application, of the client or of the session are told of an entity.
pub data EntityNote : Type 0 where
  told_registered asked_activation told_deactivating creatables_updated : ℕ → EntityNote
  published_update : ℕ → Uri → EntityNote

-- The events that the hierarchy defers to its adaptors.
pub data HierarchyEvent : Type 0 where
  entity_arriving factory_arriving performer_arriving entity_updated : ℕ → HierarchyEvent
  entity_leaving factory_leaving performer_leaving : Uri → HierarchyEvent

pub record Hierarchy : Type 0 where
  pub world : World
  -- `m_proxies`, the objects that the hierarchy owns.
  pub proxies : List ℕ
  pub events : List HierarchyEvent
  pub notes : List EntityNote
  -- The pointers, with the identifier of the object, that `synchronisable_has_event` was called for.
  pub woken : List (ℕ × ℕ)
  -- The clean-up operations of the reaper, and the identifiers of the objects that are gone already.
  pub cleanups : List (ℕ × ℕ)
  pub dead : List ℕ

-- `ZstEntityType`.
pub data EntityType : Type 0 where
  none_type component_type performer_type plug_type factory_type : EntityType

unfoldable pub type_of : EntityKind → EntityType
type_of component = component_type
type_of performer = performer_type
type_of stage_proxy = performer_type
type_of input_plug = plug_type
type_of output_plug = plug_type
type_of factory = factory_type

unfoldable pub same_type : EntityType → EntityType → Bool
same_type none_type none_type = true
same_type component_type component_type = true
same_type performer_type performer_type = true
same_type plug_type plug_type = true
same_type factory_type factory_type = true
same_type _ _ = false

-- `filter == ZstEntityType::NONE || this->entity_type() == filter`.
unfoldable pub passes : EntityType → Entity → Bool
unfolding type_of same_type
passes filter e = same_type filter none_type || same_type (type_of e.kind) filter

-- `dynamic_cast<ZstComponent*>`.
unfoldable pub is_component : EntityKind → Bool
is_component component = true
is_component performer = true
is_component stage_proxy = true
is_component _ = false

unfoldable pub is_factory : EntityKind → Bool
is_factory factory = true
is_factory _ = false

-- A pointer is dereferenced.
unfoldable pub entity_at : ℕ → Hierarchy → Result Entity
entity_at p h = elim (h.world.heap p) [ none ↦ thrown Error.invalid_read | some e ↦ ok e ]

unfoldable pub in_world : (World → World) → Hierarchy → Hierarchy
in_world f h = record h { world = f h.world }

unfoldable pub put : ℕ → Entity → Hierarchy → Hierarchy
unfolding World.put in_world
put p e h = in_world (World.put p e) h

unfoldable pub find_entity : Uri → Hierarchy → Option ℕ
unfolding World.find_entity
find_entity path h = World.find_entity path h.world

unfoldable pub note : EntityNote → Hierarchy → Hierarchy
note n h = record h { notes = h.notes ++ n ∷ [] }

-- `parent()`: only a registered entity has an adaptor to ask.
unfoldable pub parent_of : Entity → Hierarchy → Option ℕ
unfolding find_entity Uri.is_empty
parent_of e h =
    if Uri.is_empty e.parent
    then none
    else if not e.registered
    then none
    else find_entity e.parent h

unfoldable pub get_child_by_uri : Entity → Uri → Hierarchy → Option ℕ
unfolding find_entity
get_child_by_uri e path h = if e.registered then find_entity path h else none

-- `emplace` on the creatables, which are a map.
unfoldable pub add_creatable : Uri → List Uri → List Uri
add_creatable u [] = u ∷ []
add_creatable u (v ∷ vs) = if equal v u then v ∷ vs else v ∷ add_creatable u vs

-- `ZstEntityFactory::update_createable_URIs`: `done` is the map that is filled anew.
pub creatable_under : Uri → Uri → Result Uri
unfolding Uri.contains Uri.last Uri.concat
creatable_under uri c =
    if Uri.contains c uri then ok c else (Uri.last c >>= λ name. ok (Uri.concat uri name))

unfoldable pub update_creatable_uris : Uri → List Uri → List Uri → Result (List Uri)
unfolding creatable_under add_creatable
update_creatable_uris uri [] done = ok done
update_creatable_uris uri (c ∷ cs) done =
    creatable_under uri c >>= λ u. update_creatable_uris uri cs (add_creatable u done)

-- `update_uri`, with the override of a factory.
pub refresh_creatables : ℕ → Entity → Hierarchy → Result Hierarchy
unfolding is_factory update_creatable_uris put
refresh_creatables p e h =
    if is_factory e.kind
    then (update_creatable_uris e.uri e.creatables [] >>= λ cs.
        ok (put p (record e { creatables = cs }) h))
    else ok h

pub update_uri : Uri → ℕ → Entity → Hierarchy → Result Hierarchy
unfolding World.update_entity_in_lookup in_world refresh_creatables
update_uri original p e h =
    refresh_creatables p e
      (if e.registered then in_world (World.update_entity_in_lookup e.uri p original) h else h)

-- What `set_parent` makes of the path `uri`, below the path `parent`.
pub moved_uri : Uri → Uri → Result Uri
unfolding Uri.is_empty Uri.last Uri.contains Uri.concat
moved_uri parent uri =
    if Uri.is_empty parent
    then Uri.last uri
    else if Uri.contains uri parent
    then ok uri
    else (Uri.last uri >>= λ name. ok (Uri.concat parent name))

pub parent_address : Option ℕ → Hierarchy → Result Uri
unfolding entity_at Uri.empty
parent_address none h = ok Uri.empty
parent_address (some q) h = entity_at q h >>= λ e. ok e.uri

-- The fields of an entity change, then the lookup.
unfoldable pub move_to : ℕ → Entity → Uri → Uri → Hierarchy → Result Hierarchy
unfolding put update_uri
move_to p e parent uri h =
    let moved = record e { parent = parent; uri = uri } in update_uri e.uri p moved (put p moved h)

-- `ZstEntityBase::set_parent`.
unfoldable pub base_set_parent : Option ℕ → ℕ → Hierarchy → Result Hierarchy
unfolding parent_address entity_at moved_uri move_to
base_set_parent parent p h = parent_address parent h >>= λ u.
    entity_at p h >>= λ e. moved_uri u e.uri >>= λ v. move_to p e u v h

-- The loop of `get_child_entities` that is not recursive, with no filter.
unfoldable pub direct_children : Entity → List Uri → Hierarchy → List ℕ
unfolding get_child_by_uri
direct_children e [] h = []
direct_children e (u ∷ us) h = elim (get_child_by_uri e u h) [
  | none ↦ direct_children e us h
  | some c ↦ c ∷ direct_children e us h
]

pub self_key : Uri → Uri
self_key u = u

pub add_child_path : Uri → Entity → Entity
unfolding self_key
add_child_path u e = record e { children = OrderedSet.insert self_key Uri.less u e.children }

pub remove_child_path : Uri → Entity → Entity
unfolding self_key
remove_child_path u e = record e { children = OrderedSet.erase self_key Uri.less u e.children }

pub has_child_path : Uri → Entity → Bool
unfolding self_key
has_child_path u e = elim (OrderedSet.lookup self_key Uri.less u e.children) [
  | none ↦ false
  | some v ↦ true
]

module _ (alive : ℕ → Bool) (self : ℕ) where
  -- `ZstHierarchy::register_entity`; `self` is the hierarchy as an adaptor for synchronisables. The
  -- two other adaptors that it adds are there if the entity is registered.
  unfoldable pub register_entity : ℕ → Hierarchy → Result Hierarchy
  unfolding entity_at put in_world World.add_entity_to_lookup note Sync.add_adaptor
  register_entity p h = entity_at p h >>= λ e.
      let e' = record e { sync = Sync.add_adaptor alive self e.sync; registered = true } in
      let stored = in_world (World.add_entity_to_lookup e.uri p) (put p e' h) in
      ok (if e.registered then stored else note (told_registered p) stored)

  -- `remove_child`, where `set_parent` is what the child does. An entity that is no component has
  -- `ZstEntityBase::remove_child`.
  pub remove_child_by :
      (Option ℕ → ℕ → Hierarchy → Result Hierarchy) → ℕ → ℕ → Hierarchy → Result Hierarchy
  unfolding entity_at is_component Sync.is_destroyed put remove_child_path
  remove_child_by set_parent this child h = entity_at this h >>= λ t.
      if is_component t.kind
      then (if Sync.is_destroyed t.sync
          then ok h
          else (entity_at child h >>= λ c.
              set_parent none child (put this (remove_child_path c.uri t) h)))
      else set_parent none child h

  -- The end of `ZstComponent::add_child`.
  pub request_activation : Bool → ℕ → ℕ → Hierarchy → Result Hierarchy
  unfolding entity_at Sync.is_activated note
  request_activation auto_activate this child h = entity_at this h >>= λ t.
      entity_at child h >>= λ c. ok (
        if Sync.is_activated t.sync && not c.sync.core.proxy && auto_activate && t.registered
        then note (asked_activation child) h
        else h)

  pub request_registration : Entity → Entity → ℕ → Hierarchy → Result Hierarchy
  unfolding register_entity
  request_registration t c child h =
      if t.registered && not c.registered then register_entity child h else ok h

  pub store_child : Bool → ℕ → ℕ → Hierarchy → Result Hierarchy
  unfolding entity_at put add_child_path request_registration request_activation
  store_child auto_activate this child h = entity_at this h >>= λ t. entity_at child h >>= λ c.
      request_registration t c child (put this (add_child_path c.uri t) h) >>= λ h.
      request_activation auto_activate this child h

  pub add_child_by :
      (Option ℕ → ℕ → Hierarchy → Result Hierarchy) → Bool → ℕ → ℕ → Hierarchy → Result Hierarchy
  unfolding entity_at is_component Sync.is_destroyed has_child_path store_child
  add_child_by set_parent auto_activate this child h = entity_at this h >>= λ t.
      if Sync.is_destroyed t.sync
      then ok h
      else if is_component t.kind
      then (entity_at child h >>= λ c.
          if has_child_path c.uri t
          then ok h
          else (set_parent (some this) child h >>= λ h. store_child auto_activate this child h))
      else set_parent (some this) child h

  -- The loop over the children that were found before.
  pub reparent_each :
      (Option ℕ → ℕ → Hierarchy → Result Hierarchy) → ℕ → List ℕ → Hierarchy → Result Hierarchy
  unfolding remove_child_by add_child_by
  reparent_each set_parent this [] h = ok h
  reparent_each set_parent this (c ∷ cs) h = remove_child_by set_parent this c h >>= λ h.
      add_child_by set_parent true this c h >>= λ h. reparent_each set_parent this cs h

  pub reparent_children :
      (Option ℕ → ℕ → Hierarchy → Result Hierarchy) → ℕ → Hierarchy → Result Hierarchy
  unfolding entity_at reparent_each direct_children
  reparent_children set_parent this h =
      entity_at this h >>= λ e. reparent_each set_parent this (direct_children e e.children h) h

  unfoldable pub set_parent : ℕ → Option ℕ → ℕ → Hierarchy → Result Hierarchy
  unfolding entity_at is_component Sync.is_destroyed base_set_parent reparent_children
  set_parent zero parent p h = thrown Error.out_of_fuel
  set_parent (suc stack) parent p h = entity_at p h >>= λ e.
      if is_component e.kind
      then (if Sync.is_destroyed e.sync
          then ok h
          else (base_set_parent parent p h >>= λ h. reparent_children (set_parent stack) p h))
      else base_set_parent parent p h

  unfoldable pub remove_child : ℕ → ℕ → ℕ → Hierarchy → Result Hierarchy
  unfolding remove_child_by set_parent
  remove_child stack this child h = remove_child_by (set_parent stack) this child h

  unfoldable pub add_child : ℕ → Bool → ℕ → ℕ → Hierarchy → Result Hierarchy
  unfolding add_child_by set_parent
  add_child stack auto_activate this child h =
      add_child_by (set_parent stack) auto_activate this child h

  -- `ZstEntityBase::set_name`.
  pub renamed_uri : Option ℕ → Bytes → Uri → Result Uri
  unfolding Uri.parent Uri.concat Uri.from_c_str
  renamed_uri none name uri = ok (Uri.from_c_str name)
  renamed_uri (some q) name uri =
      Uri.parent uri >>= λ above. ok (Uri.concat above (Uri.from_c_str name))

  pub refresh_in_parent : ℕ → Option ℕ → ℕ → Hierarchy → Result Hierarchy
  unfolding remove_child add_child
  refresh_in_parent stack none p h = ok h
  refresh_in_parent stack (some q) p h =
      remove_child stack q p h >>= λ h. add_child stack true q p h

  pub base_set_name : ℕ → Bytes → ℕ → Hierarchy → Result Hierarchy
  unfolding entity_at parent_of renamed_uri move_to refresh_in_parent note
  base_set_name stack name p h = entity_at p h >>= λ e.
      renamed_uri (parent_of e h) name e.uri >>= λ v. move_to p e e.parent v h >>= λ h.
      entity_at p h >>= λ renamed. refresh_in_parent stack (parent_of renamed h) p h >>= λ h.
      ok (if renamed.registered then note (published_update p e.uri) h else h)

  unfoldable pub set_name : ℕ → Bytes → ℕ → Hierarchy → Result Hierarchy
  unfolding entity_at is_component Sync.is_destroyed direct_children base_set_name reparent_each
      set_parent
  set_name stack name p h = entity_at p h >>= λ e.
      if is_component e.kind
      then (if Sync.is_destroyed e.sync
          then ok h
          else (let children = direct_children e e.children h in
              base_set_name stack name p h >>= λ h. reparent_each (set_parent stack) p children h))
      else base_set_name stack name p h
