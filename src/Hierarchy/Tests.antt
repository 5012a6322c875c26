-- ===== src/Hierarchy/Tests.antt =====
-- A client with a child, and instances of the theorems.
use showtime_cpp.Common.{
  ℕ, ◌==◌, ◌≡◌, refl, false, [], ◌∷◌, none, some, ok, ◌>>=◌, if◌then◌else◌, codes, inl,
}
use showtime_cpp.Uri.{Uri, init, equal, last, is_empty}
use showtime_cpp.Sync.{is_destroyed}
use showtime_cpp.World.{Entity, component, no_jack}
use showtime_cpp.Samples.{all_alive, sending_client, plug_at}
use showtime_cpp.Tree.{
  Hierarchy, put, type_of, find_entity, register_entity, parent_of, is_component, is_factory,
  performer_leaving, entity_leaving,
}
use showtime_cpp.Hierarchy.Reach.{new_hierarchy}
use showtime_cpp.Hierarchy.Removal.{
  remove_proxy_entity, process_synchronisables, destroy_entity_complete, leaving_event, member,
  remove,
}
use showtime_cpp.Hierarchy.Removal.Freed.{removed_is_freed}
use showtime_cpp.Hierarchy.Removal.Detached.{destroyed_child_lem}

abbrev with_client : Hierarchy
unfolding new_hierarchy init
with_client = record new_hierarchy {
  world = record {
    heap = λ p. if p == 4 then some sending_client else none;
    lookup = (init (codes "a"), 4) ∷ [];
  };
  proxies = 4 ∷ [];
}

removed_is_freed_example :
    (g : Hierarchy) × ((remove_proxy_entity all_alive 1 2 (some 4) with_client
        >>= process_synchronisables all_alive 1 2)
      ≡ ok g)
    × (((q : ℕ) → g.world.heap q ≡ (if q == 4 then none else with_client.world.heap q))
        × ((u : Uri)
            → find_entity u g
              ≡ (if equal sending_client.uri u then none else find_entity u with_client))
        × (g.proxies ≡ [])
        × (g.events ≡ performer_leaving (init (codes "a")) ∷ [])
        × (g.woken ≡ [])
        × (g.cleanups ≡ []))
unfolding new_hierarchy init parent_of is_empty leaving_event member remove type_of
removed_is_freed_example =
    removed_is_freed all_alive 1 1 4 sending_client with_client refl refl refl refl (inl refl) refl
      1 [] refl refl refl refl refl refl (tt, tt)

abbrev child : Entity
unfolding init
child = record (plug_at component no_jack (init (codes "a/x"))) { parent = init (codes "a") }

abbrev family : Hierarchy
unfolding new_hierarchy init
family = record with_client {
  world = record {
    heap = λ p. if p == 4 then some sending_client else if p == 6 then some child else none;
    lookup = (init (codes "a"), 4) ∷ (init (codes "a/x"), 6) ∷ [];
  };
}

destroyed_child_lem_example :
    (g : Hierarchy) × (destroy_entity_complete all_alive 1 2 (some 6) family ≡ ok g)
    × (g.events ≡ entity_leaving (init (codes "x")) ∷ [])
    × ((u : Uri)
        → find_entity u g ≡ (
            if equal (init (codes "x")) u
            then some 6
            else if equal child.uri u
            then none
            else find_entity u family))
unfolding new_hierarchy init parent_of is_empty find_entity leaving_event is_component is_factory
    is_destroyed last equal type_of
destroyed_child_lem_example =
    destroyed_child_lem all_alive 1 1 6 4 child sending_client (init (codes "x")) family refl refl
      refl refl refl refl refl refl refl refl refl refl ((refl, tt), (tt, tt))

abbrev registered_client : Entity
registered_client = record sending_client { registered = false }

abbrev arrived : Hierarchy
unfolding register_entity new_hierarchy
arrived = elim (register_entity all_alive 1 4 (put 4 registered_client new_hierarchy)) [
  | ok h ↦ h
  | _ ↦ new_hierarchy
]
