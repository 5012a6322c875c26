-- ===== src/World.antt =====
-- The objects of src/core/entities and the map by which src/core/ZstHierarchy.cpp finds them. A
-- pointer is a number and the heap gives the object behind it; one record has the fields of all the
-- classes, of which an object uses those of its own. `m_entity_lookup` is a list of pairs.
pub mod Lookup
pub mod Plug
pub mod PlugCables
pub mod Sound
pub mod Tests
use showtime_cpp.Common.{
  ℕ, Bool, true, false, List, [], ◌∷◌, Option, none, some, ◌==◌, if◌then◌else◌,
}
use showtime_cpp.Uri.{Uri, equal, is_empty}
use showtime_cpp.CableAddress.{CableAddress}
use showtime_cpp.Sync.{Sync}

-- The class of an object, for `dynamic_cast`. `stage_proxy` is `ZstPerformerStageProxy`.
pub data EntityKind : Type 0 where
  component performer stage_proxy input_plug output_plug factory : EntityKind

-- `ZstPlugDirection`.
pub data PlugDirection : Type 0 where
  no_jack in_jack out_jack : PlugDirection

pub record Entity : Type 0 where
  pub kind : EntityKind
  pub uri : Uri
  pub parent : Uri
  pub current_owner : Uri
  -- `m_registered`, which `register_entity` sets together with the adaptors of the hierarchy.
  pub registered : Bool
  pub sync : Sync
  -- `m_children` of a component.
  pub children : List Uri
  -- Of a plug: `m_direction`, `m_max_connected_cables` read as a `size_t`, `m_cables`, `m_can_fire`.
  pub direction : PlugDirection
  pub max_cables : ℕ
  pub cables : List CableAddress
  pub can_fire : Bool
  -- `m_connected_subscriber_peers` of a stage proxy.
  pub subscribers : List Uri
  -- The keys of `m_creatables` of a factory.
  pub creatables : List Uri

pub record World : Type 0 where
  pub heap : ℕ → Option Entity
  pub lookup : List (Uri × ℕ)

-- The object at a pointer is replaced.
unfoldable pub put : ℕ → Entity → World → World
put p e w = record w { heap = λ q. if q == p then some e else w.heap q }

-- The memory of the object is given back.
unfoldable pub release : ℕ → World → World
release p w = record w { heap = λ q. if q == p then none else w.heap q }

-- `entity->f(...)`, where the pointer is live.
unfoldable pub modify : ℕ → (Entity → Entity) → World → World
unfolding put
modify p f w = elim (w.heap p) [ none ↦ w | some e ↦ put p (f e) w ]

-- `at`, `operator[] =` and `erase` of the map.
pub find_in : Uri → List (Uri × ℕ) → Option ℕ
find_in path [] = none
find_in path ((k, p) ∷ rest) = if equal k path then some p else find_in path rest

pub assign_in : Uri → ℕ → List (Uri × ℕ) → List (Uri × ℕ)
assign_in path p [] = (path, p) ∷ []
assign_in path p ((k, q) ∷ rest) =
    if equal k path then (k, p) ∷ rest else (k, q) ∷ assign_in path p rest

pub erase_in : Uri → List (Uri × ℕ) → List (Uri × ℕ)
erase_in path [] = []
erase_in path ((k, q) ∷ rest) = if equal k path then rest else (k, q) ∷ erase_in path rest

unfoldable pub find_entity : Uri → World → Option ℕ
unfolding find_in
find_entity path w = find_in path w.lookup

unfoldable pub add_entity_to_lookup : Uri → ℕ → World → World
unfolding assign_in
add_entity_to_lookup uri p w = record w { lookup = assign_in uri p w.lookup }

unfoldable pub remove_entity_from_lookup : Uri → World → World
unfolding erase_in
remove_entity_from_lookup uri w = record w { lookup = erase_in uri w.lookup }

-- The branch for an entity with no parent has an empty body.
unfoldable pub update_entity_in_lookup : Uri → ℕ → Uri → World → World
unfolding remove_entity_from_lookup add_entity_to_lookup
update_entity_in_lookup uri p original_path w =
    add_entity_to_lookup uri p (remove_entity_from_lookup original_path w)

-- `dynamic_cast` of the object that a path leads to; a null pointer stays null.
unfoldable pub is_kind_input : EntityKind → Bool
is_kind_input input_plug = true
is_kind_input _ = false

unfoldable pub is_kind_output : EntityKind → Bool
is_kind_output output_plug = true
is_kind_output _ = false

unfoldable pub is_kind_stage_proxy : EntityKind → Bool
is_kind_stage_proxy stage_proxy = true
is_kind_stage_proxy _ = false

unfoldable pub cast : (EntityKind → Bool) → World → Option ℕ → Option ℕ
cast is w none = none
cast is w (some p) = elim (w.heap p) [ none ↦ none | some e ↦ if is e.kind then some p else none ]

unfoldable pub find_input_plug : Uri → World → Option ℕ
unfolding cast is_kind_input find_entity
find_input_plug path w = cast is_kind_input w (find_entity path w)

unfoldable pub find_output_plug : Uri → World → Option ℕ
unfolding cast is_kind_output find_entity
find_output_plug path w = cast is_kind_output w (find_entity path w)

unfoldable pub find_stage_proxy : Uri → World → Option ℕ
unfolding cast is_kind_stage_proxy find_entity
find_stage_proxy path w = cast is_kind_stage_proxy w (find_entity path w)
