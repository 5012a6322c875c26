-- ===== src/ClientHierarchy/Own.antt =====
-- src/client/ZstClientHierarchy.cpp: the messages that a client gets about its own entities.
use showtime_cpp.Common.{ℕ, ◌≡◌, refl, Bool, true, false, Option, some, ok, ◌>>=◌, ◌&&◌, &&_true}
use showtime_cpp.Uri
use showtime_cpp.Uri.{Uri, equal}
use showtime_cpp.Sync.{Sync}
use showtime_cpp.World.{Entity}
use showtime_cpp.Uri.Order.{equal_refl}
use showtime_cpp.Tree.Sound.{At}
use showtime_cpp.Tree.Leaf.{entity_at_lem}
use showtime_cpp.Tree.{Hierarchy}
use showtime_cpp.Hierarchy.Proxies.{Payload, EntityTypes, no_entity, uri_of, add_proxy_entity}
use showtime_cpp.ClientHierarchy.{
  Notice, client_leave_request, entity_create_request, entity_update_request,
  entity_destroy_request, get_entity_field, find_entity, path_is_local, create_proxy_entity,
  update_proxy_entity, destroy_entity_complete, client_leaving_handler, create_proxy_entity_handler,
  update_proxy_entity_handler, destroy_entity_handler, on_receive_msg,
}

-- The message has an entity field.
unfoldable pub has_entity : EntityTypes → Bool
has_entity no_entity = false
has_entity _ = true

-- The message is about the performer `r` itself, or creates or updates an entity under its path.
unfoldable pub is_about_own : Entity → Notice → Bool
unfolding has_entity Uri.contains uri_of equal
is_about_own r (client_leave_request path reason) = equal r.uri (uri_of path)
is_about_own r (entity_create_request d) =
    has_entity d.entity_types && Uri.contains (uri_of d.uri) r.uri
is_about_own r (entity_update_request d original) =
    has_entity d.entity_types && Uri.contains (uri_of d.uri) r.uri
is_about_own r (entity_destroy_request path) = equal r.uri (uri_of path)

-- A message with an entity field is read.
field_lem : (t : EntityTypes) (d : Payload) → has_entity t ≡ true → get_entity_field t d ≡ ok d
unfolding has_entity get_entity_field
field_lem no_entity d e = cc
field_lem EntityTypes.performer_entity d e = refl
field_lem EntityTypes.component_entity d e = refl
field_lem EntityTypes.plug_entity d e = refl
field_lem EntityTypes.factory_entity d e = refl

module _ (root : ℕ) (alive : ℕ → Bool) (self : ℕ) (stack : ℕ) where
  -- Its own path finds the performer, and the performer is not destroyed.
  find_own :
      (r : Entity) (path : Uri) (h : Hierarchy)
      → At h root r
      → equal r.uri path ≡ true
      → find_entity root path h ≡ ok (some root)
  unfolding find_entity
  find_own r path h live same = rw (entity_at_lem root r h live, same) refl

  spared :
      (r : Entity) (h : Hierarchy)
      → At h root r
      → destroy_entity_complete root alive self stack (some root) h ≡ ok h
  unfolding destroy_entity_complete
  spared r h live = rw (entity_at_lem root r h live, equal_refl r.uri) refl

  not_destroyed :
      (r : Entity) (path : Uri) (h : Hierarchy)
      → At h root r
      → equal r.uri path ≡ true
      → (find_entity root path h >>= λ p. destroy_entity_complete root alive self stack p h) ≡ ok h
  not_destroyed r path h live same = rw (find_own r path h live same) (spared r h live)

  is_local :
      (r : Entity) (path : Uri) (h : Hierarchy)
      → At h root r
      → Uri.contains path r.uri ≡ true
      → path_is_local root path h ≡ ok true
  unfolding path_is_local
  is_local r path h live inside = rw (entity_at_lem root r h live, inside) refl

  -- A path that finds something finds it whatever it is.
  finds_some :
      (r : Entity) (path : Uri) (h : Hierarchy)
      → At h root r
      → (p : Option ℕ) × (find_entity root path h ≡ ok p)
  unfolding find_entity
  finds_some r path h live = rw (entity_at_lem root r h live) (_, refl)

  -- A message about the client's own performer, or one that creates or updates an entity under its
  -- path, changes nothing.
  pub own_message_lem :
      (r : Entity) (m : Notice) (fresh : ℕ) (sync : Sync) (h : Hierarchy)
      → At h root r
      → is_about_own r m ≡ true
      → on_receive_msg root alive self stack fresh sync m h ≡ ok h
  unfolding on_receive_msg client_leaving_handler destroy_entity_handler is_about_own
      create_proxy_entity_handler create_proxy_entity update_proxy_entity add_proxy_entity
      update_proxy_entity_handler
  own_message_lem r (client_leave_request path reason) fresh sync h live own =
      not_destroyed r (uri_of path) h live own
  own_message_lem r (entity_destroy_request path) fresh sync h live own =
      not_destroyed r (uri_of path) h live own
  own_message_lem r (entity_create_request d) fresh sync h live own =
      let (field, inside) = &&_true _ _ own in
      rw (field_lem d.entity_types d field, is_local r (uri_of d.uri) h live inside) refl
  own_message_lem r (entity_update_request d original) fresh sync h live own =
      let (field, inside) = &&_true _ _ own in
      let (p, found) = finds_some r (uri_of original) h live in
      rw (found, field_lem d.entity_types d field, is_local r (uri_of d.uri) h live inside) refl
