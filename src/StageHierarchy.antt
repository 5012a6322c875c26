-- ===== src/StageHierarchy.antt =====
-- src/server/ZstStageHierarchy.cpp: what the server keeps of its clients beside the tree of entities,
-- what it sends, and the entities that arrive. A message goes to an endpoint, a number in place of
-- its UUID; `reaches` says to which of them a transport still exists.
pub mod Handlers
pub mod Kept
pub mod Reach
pub mod Sent
pub mod Timer
pub mod Tests
use showtime_cpp.Common.{
  ℕ, ◌==◌, Bool, true, false, not, ◌&&◌, ◌||◌, List, [], ◌∷◌, ◌++◌, Option, none, some, Result, ok,
  thrown, Error, ◌>>=◌, if◌then◌else◌, Bytes, take, length,
}
use showtime_cpp.Uri
use showtime_cpp.Uri.{Uri}
use showtime_cpp.World
use showtime_cpp.World.{
  Entity, EntityKind, component, performer, input_plug, output_plug, factory, stage_proxy,
  PlugDirection, is_kind_stage_proxy,
}
use showtime_cpp.Heartbeat.{Pulse}
use showtime_cpp.StageSession.{Signal}
use showtime_cpp.Tree.{
  Hierarchy, HierarchyEvent, entity_arriving, factory_arriving, performer_arriving, entity_updated,
  entity_leaving, factory_leaving, performer_leaving, entity_at, find_entity,
}
use showtime_cpp.Hierarchy.{get_performers}
use showtime_cpp.Hierarchy.Removal.{process_synchronisables}
use showtime_cpp.Hierarchy.Proxies.{
  EntityTypes, no_entity, performer_entity, component_entity, plug_entity, factory_entity, Payload,
}

-- The messages of this part of the server. An entity is sent as the payload that is read from it.
pub data Content : Type 0 where
  entity_create_request : Payload → Content
  entity_update_request : Payload → Bytes → Content
  entity_destroy_request : Bytes → Content
  client_leave_request : Bytes → ℕ → Content
  factory_create_entity_request : Bytes → Bytes → Content
  factory_create_entity_ack : Bytes → ℕ → Content
  signal_message : Signal → ℕ → Content

-- What a stage proxy has beside its entity: `m_origin_endpoint_UUID` and the heartbeat.
pub record Client : Type 0 where
  pub pointer : ℕ
  pub endpoint : ℕ
  pub pulse : Pulse

-- A request to a factory whose response is awaited.
pub record FactoryRequest : Type 0 where
  pub sender : ℕ
  pub factory_path : Uri
  pub response_id : ℕ

pub record Stage : Type 0 where
  pub tree : Hierarchy
  pub clients : List Client
  pub sent : List (ℕ × Content)
  pub waiting : List FactoryRequest

-- `serialized_entity_type`.
pub serialized_entity_type : EntityKind → EntityTypes
serialized_entity_type component = component_entity
serialized_entity_type performer = performer_entity
serialized_entity_type stage_proxy = performer_entity
serialized_entity_type input_plug = plug_entity
serialized_entity_type output_plug = plug_entity
serialized_entity_type factory = factory_entity

pub paths_of : List Uri → List Bytes
unfolding Uri.path
paths_of [] = []
paths_of (u ∷ us) = Uri.path u ∷ paths_of us

-- `serialize`: the path with its length, and the owner with the number of its segments.
unfoldable pub serialize : Entity → Payload
unfolding serialized_entity_type Uri.path Uri.full_size Uri.size paths_of
serialize e = record {
  entity_types = serialized_entity_type e.kind;
  uri = take (Uri.full_size e.uri) (Uri.path e.uri);
  owner = some (take (Uri.size e.current_owner) (Uri.path e.current_owner));
  plug_direction = e.direction;
  max_cables = e.max_cables;
  creatables = paths_of e.creatables;
}

-- The client whose proxy is at a pointer, and whose messages come from an endpoint.
pub client_at : ℕ → List Client → Option Client
client_at p [] = none
client_at p (c ∷ cs) = if c.pointer == p then some c else client_at p cs

pub has_endpoint : ℕ → Option Client → Bool
has_endpoint uuid none = false
has_endpoint uuid (some c) = c.endpoint == uuid

-- The stage proxies among the performers, in their order.
pub stage_proxies : List ℕ → Hierarchy → List ℕ
unfolding World.cast is_kind_stage_proxy
stage_proxies [] h = []
stage_proxies (p ∷ ps) h = elim (World.cast is_kind_stage_proxy h.world (some p)) [
  | none ↦ stage_proxies ps h
  | some q ↦ q ∷ stage_proxies ps h
]

pub first_with_endpoint : ℕ → List ℕ → List Client → Option ℕ
unfolding has_endpoint client_at
first_with_endpoint uuid [] cs = none
first_with_endpoint uuid (p ∷ ps) cs =
    if has_endpoint uuid (client_at p cs) then some p else first_with_endpoint uuid ps cs

unfoldable pub get_client_from_endpoint_uuid : ℕ → Stage → Option ℕ
unfolding first_with_endpoint stage_proxies get_performers
get_client_from_endpoint_uuid uuid st =
    first_with_endpoint uuid (stage_proxies (get_performers none st.tree) st.tree) st.clients

-- `std::find(excluded.begin(), excluded.end(), performer)`, where a null pointer is no client.
pub is_excluded : ℕ → List (Option ℕ) → Bool
is_excluded p [] = false
is_excluded p (none ∷ qs) = is_excluded p qs
is_excluded p (some q ∷ qs) = if q == p then true else is_excluded p qs

-- The `catch` of `process` in src/core/ZstEventDispatcher.hpp, which puts `before` in place of what was
-- thrown.
pub caught : Stage → Result Stage → Result Stage
caught before (ok st) = ok st
caught before (thrown Error.invalid_read) = thrown Error.invalid_read
caught before (thrown Error.out_of_fuel) = thrown Error.out_of_fuel
caught before (thrown _) = ok before

module _ (reaches : ℕ → Bool) where
  pub send_to : ℕ → Content → Stage → Stage
  send_to endpoint m st =
      if reaches endpoint then record st { sent = st.sent ++ (endpoint, m) ∷ [] } else st

  pub whisper_client : Option Client → Content → Stage → Stage
  unfolding send_to
  whisper_client none m st = st
  whisper_client (some c) m st = send_to c.endpoint m st

  unfoldable pub whisper : ℕ → Content → Stage → Stage
  unfolding whisper_client client_at
  whisper p m st = whisper_client (client_at p st.clients) m st

  pub whisper_each : List ℕ → List (Option ℕ) → Content → Stage → Stage
  unfolding is_excluded whisper
  whisper_each [] excluded m st = st
  whisper_each (p ∷ ps) excluded m st =
      if is_excluded p excluded
      then whisper_each ps excluded m st
      else whisper_each ps excluded m (whisper p m st)

  unfoldable pub broadcast : Content → List (Option ℕ) → Stage → Stage
  unfolding whisper_each stage_proxies get_performers
  broadcast m excluded st =
      whisper_each (stage_proxies (get_performers none st.tree) st.tree) excluded m st

  unfoldable pub reply_with_signal : ℕ → Signal → ℕ → Stage → Stage
  unfolding whisper
  reply_with_signal p sg request_id st = whisper p (signal_message sg request_id) st

  -- `on_entity_arriving`: the client of the entity is found by the first segment of its path.
  unfoldable pub on_entity_arriving : ℕ → Stage → Result Stage
  unfolding entity_at Uri.first World.find_stage_proxy serialize broadcast
  on_entity_arriving p st = entity_at p st.tree >>= λ e. Uri.first e.uri >>= λ name. ok (
      broadcast (entity_create_request (serialize e))
        (World.find_stage_proxy name st.tree.world ∷ []) st)

  -- The events of the hierarchy, of which the server's hierarchy acts on the arrivals.
  pub show_event : HierarchyEvent → Stage → Result Stage
  unfolding on_entity_arriving
  show_event (entity_arriving p) st = on_entity_arriving p st
  show_event (factory_arriving p) st = on_entity_arriving p st
  show_event (performer_arriving p) st = on_entity_arriving p st
  show_event (entity_updated p) st = ok st
  show_event (entity_leaving u) st = ok st
  show_event (factory_leaving u) st = ok st
  show_event (performer_leaving u) st = ok st

  -- The dispatcher catches what a handler throws, and goes on with the next event: these handlers
  -- throw before they change anything. What the language leaves undefined is not an exception.
  pub show_each : List HierarchyEvent → Stage → Result Stage
  unfolding show_event caught
  show_each [] st = ok st
  show_each (event ∷ events) st = caught st (show_event event st) >>= λ st. show_each events st

  -- `ZstHierarchy::process_events`.
  unfoldable pub process_events : (ℕ → Bool) → ℕ → ℕ → Stage → Result Stage
  unfolding show_each process_synchronisables
  process_events alive self stack st =
      show_each st.tree.events (record st { tree = record (st.tree) { events = [] } }) >>= λ st.
      process_synchronisables alive self stack st.tree >>= λ h. ok (record st { tree = h })
