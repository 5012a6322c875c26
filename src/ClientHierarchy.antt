-- ===== src/ClientHierarchy.antt =====
-- src/client/ZstClientHierarchy.cpp: the client's own performer, and the messages about the entities
-- of others. `root` is the address of the performer. The functions of the hierarchy that are called
-- for paths outside the performer find no path that `find_entity` would answer with the performer.
pub mod Reach
pub mod Own
pub mod Tests
use showtime_cpp.Common.{
  ℕ, Bool, Option, none, some, Result, ok, thrown, Error, ◌>>=◌, if◌then◌else◌, Bytes,
}
use showtime_cpp.Uri
use showtime_cpp.Uri.{Uri, equal}
use showtime_cpp.Sync.{Sync}
use showtime_cpp.World.{Entity}
use showtime_cpp.Tree
use showtime_cpp.Tree.{Hierarchy, entity_at}
use showtime_cpp.Hierarchy.Proxies
use showtime_cpp.Hierarchy.Proxies.{Payload, EntityTypes, no_entity, uri_of, add_proxy_entity}
use showtime_cpp.Hierarchy.Removal

-- The messages of which the handlers are here. A path is sent as its text.
pub data Notice : Type 0 where
  client_leave_request : Bytes → ℕ → Notice
  entity_create_request : Payload → Notice
  entity_update_request : Payload → Bytes → Notice
  entity_destroy_request : Bytes → Notice

-- `get_entity_field` throws for a message without an entity.
pub get_entity_field : EntityTypes → Payload → Result Payload
get_entity_field no_entity d = thrown Error.runtime_error
get_entity_field _ d = ok d

module _ (root : ℕ) where
  unfoldable pub find_entity : Uri → Hierarchy → Result (Option ℕ)
  unfolding entity_at Tree.find_entity
  find_entity path h =
      entity_at root h >>= λ r. ok (if equal r.uri path then some root else Tree.find_entity path h)

  unfoldable pub path_is_local : Uri → Hierarchy → Result Bool
  unfolding entity_at Uri.contains
  path_is_local path h = entity_at root h >>= λ r. ok (Uri.contains path r.uri)

  pub create_proxy_entity : Sync → Payload → Hierarchy → Result (Option Entity)
  unfolding path_is_local uri_of Proxies.create_proxy_entity
  create_proxy_entity sync d h = path_is_local (uri_of d.uri) h >>= λ local.
      if local then ok none else Proxies.create_proxy_entity sync d h

  module _ (alive : ℕ → Bool) (self : ℕ) (stack : ℕ) where
    pub update_proxy_entity : Option ℕ → Payload → Hierarchy → Result Hierarchy
    unfolding path_is_local uri_of Proxies.update_proxy_entity
    update_proxy_entity original d h = path_is_local (uri_of d.uri) h >>= λ local.
        if local then ok h else Proxies.update_proxy_entity alive self stack original d h

    pub destroy_entity_complete : Option ℕ → Hierarchy → Result Hierarchy
    unfolding entity_at Removal.destroy_entity_complete
    destroy_entity_complete none h = ok h
    destroy_entity_complete (some p) h = entity_at p h >>= λ e. entity_at root h >>= λ r.
        if equal e.uri r.uri
        then ok h
        else Removal.destroy_entity_complete alive self stack (some p) h

    pub client_leaving_handler : Bytes → ℕ → Hierarchy → Result Hierarchy
    unfolding find_entity uri_of destroy_entity_complete
    client_leaving_handler path reason h =
        find_entity (uri_of path) h >>= λ p. destroy_entity_complete p h

    pub create_proxy_entity_handler : ℕ → Sync → Payload → Hierarchy → Result Hierarchy
    unfolding get_entity_field create_proxy_entity add_proxy_entity
    create_proxy_entity_handler fresh sync d h = get_entity_field d.entity_types d >>= λ d.
        create_proxy_entity sync d h >>= λ created.
        add_proxy_entity alive self stack fresh created h

    pub update_proxy_entity_handler : Payload → Bytes → Hierarchy → Result Hierarchy
    unfolding find_entity uri_of get_entity_field update_proxy_entity
    update_proxy_entity_handler d original h = find_entity (uri_of original) h >>= λ proxy.
        get_entity_field d.entity_types d >>= λ d. update_proxy_entity proxy d h

    pub destroy_entity_handler : Bytes → Hierarchy → Result Hierarchy
    unfolding find_entity uri_of destroy_entity_complete
    destroy_entity_handler path h = find_entity (uri_of path) h >>= λ p. destroy_entity_complete p h

    -- `on_receive_msg`. A new object is at the address `fresh`.
    unfoldable pub on_receive_msg : ℕ → Sync → Notice → Hierarchy → Result Hierarchy
    unfolding client_leaving_handler create_proxy_entity_handler update_proxy_entity_handler
        destroy_entity_handler
    on_receive_msg fresh sync (client_leave_request path reason) h =
        client_leaving_handler path reason h
    on_receive_msg fresh sync (entity_create_request d) h =
        create_proxy_entity_handler fresh sync d h
    on_receive_msg fresh sync (entity_update_request d original) h =
        update_proxy_entity_handler d original h
    on_receive_msg fresh sync (entity_destroy_request path) h = destroy_entity_handler path h
