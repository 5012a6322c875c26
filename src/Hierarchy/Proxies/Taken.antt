-- ===== src/Hierarchy/Proxies/Taken.antt =====
-- No proxy is made for a path that leads to an entity already.
use showtime_cpp.Common.{ℕ, ◌≡◌, ap, none, some, ok}
use showtime_cpp.Sync.{Sync}
use showtime_cpp.Tree.{Hierarchy, find_entity}
use showtime_cpp.Hierarchy.Proxies.{Payload, uri_of, create_if_free, create_proxy_entity}

pub create_proxy_entity_taken :
    (sync : Sync) (d : Payload) (h : Hierarchy) (p : ℕ)
    → find_entity (uri_of d.uri) h ≡ some p
    → create_proxy_entity sync d h ≡ ok none
unfolding create_proxy_entity create_if_free
create_proxy_entity_taken sync d h p t = ap (λ o. create_if_free o sync d) t
