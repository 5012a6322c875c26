-- ===== src/StageHierarchy/Handlers.antt =====
-- The message handlers of src/server/ZstStageHierarchy.cpp, and `on_receive_msg`, which chooses among
-- them. A new object is at the address `fresh`, with a dispatcher whose default adaptor is `default`.
pub mod Kept
pub mod Taken
use showtime_cpp.Common.{
  ℕ, ◌==◌, Bool, true, false, not, ◌&&◌, ◌||◌, List, [], ◌∷◌, ◌++◌, Option, none, some, Result, ok,
  thrown, Error, ◌>>=◌, if◌then◌else◌, Bytes, length,
}
use showtime_cpp.Uri
use showtime_cpp.Uri.{Uri, not_equal}
use showtime_cpp.Sync
use showtime_cpp.Sync.{Sync, activated}
use showtime_cpp.World
use showtime_cpp.World.{Entity, EntityKind, factory, stage_proxy, is_kind_stage_proxy}
use showtime_cpp.Heartbeat
use showtime_cpp.Heartbeat.{Pulse}
use showtime_cpp.StageSession.{
  Signal, signal_empty, signal_ok, performer_not_found, performer_already_exists, entity_not_found,
  is_ok,
}
use showtime_cpp.Tree.{Hierarchy, entity_at, find_entity, is_factory}
use showtime_cpp.Hierarchy.Proxies.{
  Payload, EntityTypes, no_entity, uri_of, construct, create_proxy_entity, add_proxy_entity,
  update_proxy_entity,
}
use showtime_cpp.Hierarchy.Removal.{remove_proxy_entity}
use showtime_cpp.StageHierarchy.{
  Content, entity_update_request, entity_destroy_request, client_leave_request,
  factory_create_entity_request, factory_create_entity_ack, signal_message, Client, FactoryRequest,
  Stage, serialize, get_client_from_endpoint_uuid, send_to, whisper, broadcast, reply_with_signal,
  client_at,
}

-- The content of a message, and its envelope. `owned` tells whether the transport that it came by
-- is a stage transport.
pub data Request : Type 0 where
  signal_request : Signal → Request
  client_heartbeat other_message : Request
  client_join_request : Payload → Request
  client_leave : ℕ → Request
  entity_create : Payload → Request
  factory_create_entity : Bytes → Bytes → Request
  entity_update : Payload → Bytes → Request
  entity_destroy : Bytes → Request

pub record Message : Type 0 where
  pub content : Request
  pub origin_endpoint : ℕ
  pub id : ℕ
  pub owned : Bool

unfoldable pub with_tree : Hierarchy → Stage → Stage
with_tree h st = record st { tree = h }

-- `sender->...`.
pub deref_sender : Option ℕ → Stage → Result (ℕ × Entity)
unfolding entity_at
deref_sender none st = thrown Error.invalid_read
deref_sender (some p) st = entity_at p st.tree >>= λ e. ok (p, e)

-- `set_heartbeat_active` of the client.
pub beat : ℕ → List Client → List Client
unfolding Heartbeat.set_heartbeat_active
beat p [] = []
beat p (c ∷ cs) =
    if c.pointer == p
    then record c { pulse = Heartbeat.set_heartbeat_active c.pulse } ∷ cs
    else c ∷ beat p cs

unfoldable pub signal_handler : Bool → Option ℕ → Stage → Stage × Signal
unfolding beat
signal_handler is_heartbeat none st = (st, performer_not_found)
signal_handler true (some p) st = (record st { clients = beat p st.clients }, signal_ok)
signal_handler false (some p) st = (st, signal_empty)

-- `get_signal` of a response, which is null when the request timed out.
unfoldable pub signal_of : Option Signal → Signal
signal_of none = signal_empty
signal_of (some sg) = sg

-- `ZstPerformerStageProxy`, which is active and a proxy from the start.
pub stage_proxy_of : Sync → Payload → Entity
unfolding construct Sync.set_proxy Sync.set_activation_status
stage_proxy_of sync d =
    construct stage_proxy (Sync.set_proxy (Sync.set_activation_status activated sync)) d

found_or_not : Option ℕ → Stage → Stage × Signal
found_or_not none st = (st, entity_not_found)
found_or_not (some p) st = (st, signal_ok)

-- `get_entity_field` throws for a message without an entity.
with_entity_field : EntityTypes → Stage → Result Stage
with_entity_field no_entity st = thrown Error.runtime_error
with_entity_field _ st = ok st

is_empty_signal : Signal → Bool
is_empty_signal signal_empty = true
is_empty_signal _ = false

module _ (alive : ℕ → Bool) (self : ℕ) (stack : ℕ) (reaches : ℕ → Bool) where
  join_if_new : Option ℕ → ℕ → Sync → Message → Payload → Stage → Result (Stage × Signal)
  unfolding stage_proxy_of add_proxy_entity with_tree Heartbeat.joined
  join_if_new (some p) fresh sync msg d st = ok (st, performer_already_exists)
  join_if_new none fresh sync msg d st =
      if msg.owned
      then (add_proxy_entity alive self stack fresh (some (stage_proxy_of sync d)) st.tree >>= λ h.
          let client : Client = record {
            pointer = fresh;
            endpoint = msg.origin_endpoint;
            pulse = Heartbeat.joined;
          } in
          ok (record (with_tree h st) { clients = st.clients ++ client ∷ [] }, signal_ok))
      else ok (st, signal_ok)

  unfoldable pub create_client_handler :
      ℕ → Sync → Message → Payload → Stage → Result (Stage × Signal)
  unfolding join_if_new find_entity uri_of
  create_client_handler fresh sync msg d st =
      join_if_new (find_entity (uri_of d.uri) st.tree) fresh sync msg d st

  -- The client that leaves is not excluded from the broadcast.
  unfoldable pub client_leaving_handler : ℕ → Option ℕ → Stage → Result (Stage × Signal)
  unfolding deref_sender remove_proxy_entity with_tree entity_at broadcast Uri.path
  client_leaving_handler reason sender st = deref_sender sender st >>= λ s.
      remove_proxy_entity alive self stack sender st.tree >>= λ h. entity_at s.0 h >>= λ e. ok (
        broadcast reaches (client_leave_request (Uri.path e.uri) reason) [] (with_tree h st),
        signal_ok,
      )

  create_for_owner : ℕ → Sync → Payload → Stage → Result (Stage × Signal)
  unfolding create_proxy_entity add_proxy_entity with_tree found_or_not find_entity uri_of
  create_for_owner fresh sync d st = create_proxy_entity sync d st.tree >>= λ created.
      add_proxy_entity alive self stack fresh created st.tree >>= λ h.
      ok (found_or_not (find_entity (uri_of d.uri) h) (with_tree h st))

  unfoldable pub create_entity_handler :
      ℕ → Sync → Payload → Option ℕ → Stage → Result (Stage × Signal)
  unfolding with_entity_field deref_sender Uri.first uri_of not_equal create_for_owner
  create_entity_handler fresh sync d sender st = with_entity_field d.entity_types st >>= λ st.
      deref_sender sender st >>= λ s. Uri.first (s.1.uri) >>= λ owner.
      Uri.first (uri_of d.uri) >>= λ root.
      if not_equal owner root then ok (st, entity_not_found) else create_for_owner fresh sync d st

  -- The response to a request to a factory, `none` when it timed out: a failure is passed on, and
  -- the acknowledgement follows whatever the response was. The pointer to the client that asked was
  -- kept since the request.
  unfoldable pub answer_factory : FactoryRequest → Option Signal → Stage → Result Stage
  unfolding entity_at signal_of is_ok reply_with_signal whisper Uri.path
  answer_factory r response st = entity_at r.sender st.tree >>= λ sender.
      let sg = signal_of response in
      let replied =
        if is_ok sg then st else reply_with_signal reaches r.sender sg r.response_id st in
      ok (
        whisper reaches r.sender (factory_create_entity_ack (Uri.path r.factory_path) r.response_id)
          replied)

  -- Without a transport the request is not sent and has no response. A null sender would be
  -- dereferenced by the response.
  ask_factory : ℕ → FactoryRequest → Bytes → Bytes → Stage → Stage
  unfolding whisper
  ask_factory to r creatable name st =
      let asked = whisper reaches to (factory_create_entity_request creatable name) st in
      record asked { waiting = st.waiting ++ r ∷ [] }

  with_factory_client :
      Option ℕ → Option ℕ → Uri → Bytes → Bytes → ℕ → Stage → Result (Stage × Signal)
  unfolding ask_factory
  with_factory_client none sender factory_path creatable name id st = ok (st, performer_not_found)
  with_factory_client (some to) none factory_path creatable name id st = thrown Error.invalid_read
  with_factory_client (some to) (some sender) factory_path creatable name id st =
      let r : FactoryRequest = record {
        sender = sender;
        factory_path = factory_path;
        response_id = id;
      } in
      ok (ask_factory to r creatable name st, signal_empty)

  with_factory : Option ℕ → Option ℕ → Uri → Bytes → Bytes → ℕ → Stage → Result (Stage × Signal)
  unfolding Uri.first World.find_stage_proxy with_factory_client
  with_factory none sender factory_path creatable name id st = ok (st, entity_not_found)
  with_factory (some p) sender factory_path creatable name id st =
      Uri.first factory_path >>= λ root.
      with_factory_client (World.find_stage_proxy root st.tree.world) sender factory_path creatable
        name id st

  unfoldable pub factory_create_entity_handler :
      Bytes → Bytes → ℕ → Option ℕ → Stage → Result (Stage × Signal)
  unfolding uri_of Uri.parent World.cast is_factory find_entity with_factory
  factory_create_entity_handler creatable name id sender st =
      Uri.parent (uri_of creatable) >>= λ factory_path.
      with_factory (World.cast is_factory st.tree.world (find_entity factory_path st.tree)) sender
        factory_path creatable name id st

  update_found : Option ℕ → Payload → Bytes → Option ℕ → Stage → Result (Stage × Signal)
  unfolding update_proxy_entity entity_at broadcast serialize with_tree
  update_found none d original sender st = ok (st, signal_ok)
  update_found (some p) d original sender st =
      update_proxy_entity alive self stack (some p) d st.tree >>= λ h. entity_at p h >>= λ e. ok (
        broadcast reaches
            (entity_update_request (record (serialize e) { entity_types = d.entity_types })
              original)
            (sender ∷ []) (with_tree h st),
        signal_ok,
      )

  unfoldable pub update_entity_handler :
      Payload → Bytes → Option ℕ → Stage → Result (Stage × Signal)
  unfolding with_entity_field update_found find_entity uri_of
  update_entity_handler d original sender st = with_entity_field d.entity_types st >>= λ st.
      update_found (find_entity (uri_of original) st.tree) d original sender st

  destroy_found : Option ℕ → Bytes → Option ℕ → Stage → Result (Stage × Signal)
  unfolding remove_proxy_entity broadcast with_tree
  destroy_found none path sender st = ok (st, entity_not_found)
  destroy_found (some p) path sender st =
      remove_proxy_entity alive self stack (some p) st.tree >>= λ h.
      ok (broadcast reaches (entity_destroy_request path) (sender ∷ []) (with_tree h st), signal_ok)

  unfoldable pub destroy_entity_handler : Bytes → Option ℕ → Stage → Result (Stage × Signal)
  unfolding destroy_found find_entity uri_of
  destroy_entity_handler path sender st =
      destroy_found (find_entity (uri_of path) st.tree) path sender st

  -- The `switch` of `on_receive_msg`.
  handle : ℕ → Sync → Message → Request → Option ℕ → Stage → Result (Stage × Signal)
  unfolding signal_handler create_client_handler client_leaving_handler create_entity_handler
      factory_create_entity_handler update_entity_handler destroy_entity_handler
  handle fresh sync msg (signal_request sg) sender st = ok (signal_handler false sender st)
  handle fresh sync msg client_heartbeat sender st = ok (signal_handler true sender st)
  handle fresh sync msg other_message sender st = ok (st, signal_empty)
  handle fresh sync msg (client_join_request d) sender st =
      create_client_handler fresh sync msg d st
  handle fresh sync msg (client_leave reason) sender st = client_leaving_handler reason sender st
  handle fresh sync msg (entity_create d) sender st = create_entity_handler fresh sync d sender st
  handle fresh sync msg (factory_create_entity creatable name) sender st =
      factory_create_entity_handler creatable name msg.id sender st
  handle fresh sync msg (entity_update d original) sender st =
      update_entity_handler d original sender st
  handle fresh sync msg (entity_destroy path) sender st = destroy_entity_handler path sender st

  respond : Message → Stage × Signal → Stage
  unfolding is_empty_signal send_to
  respond msg (st, sg) =
      if is_empty_signal sg || not msg.owned
      then st
      else send_to reaches msg.origin_endpoint (signal_message sg msg.id) st

  unfoldable pub on_receive_msg : ℕ → Sync → Message → Stage → Result Stage
  unfolding get_client_from_endpoint_uuid handle respond
  on_receive_msg fresh sync msg st =
      handle fresh sync msg msg.content (get_client_from_endpoint_uuid msg.origin_endpoint st) st
      >>= λ r. ok (respond msg r)
