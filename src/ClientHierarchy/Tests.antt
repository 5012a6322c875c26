-- ===== src/ClientHierarchy/Tests.antt =====
-- A client whose performer was registered, and instances of the theorems.
use showtime_cpp.Common.{◌==◌, if◌then◌else◌, ◌≡◌, refl, false, [], ◌∷◌, none, some, ok, codes}
use showtime_cpp.Uri.{init, contains}
use showtime_cpp.World.{Entity, no_jack, performer}
use showtime_cpp.Samples.{all_alive, plug_at}
use showtime_cpp.Tree.{Hierarchy, put, register_entity}
use showtime_cpp.Hierarchy.Proxies.{Payload, component_entity, uri_of}
use showtime_cpp.Hierarchy.Reach.{new_hierarchy}
use showtime_cpp.ClientHierarchy.{entity_create_request, on_receive_msg}
use showtime_cpp.ClientHierarchy.Own.{is_about_own, has_entity, own_message_lem}

abbrev own_performer : Entity
unfolding init
own_performer = record (plug_at performer no_jack (init (codes "a"))) { registered = false }

abbrev own_tree : Hierarchy
unfolding register_entity new_hierarchy
own_tree = elim (register_entity all_alive 1 4 (put 4 own_performer new_hierarchy)) [
  | ok h ↦ h
  | _ ↦ new_hierarchy
]

abbrev below_own : Payload
below_own = record {
  entity_types = component_entity;
  uri = codes "a/x";
  owner = none;
  plug_direction = no_jack;
  max_cables = 0;
  creatables = [];
}

abbrev with_performer : Hierarchy
unfolding new_hierarchy init
with_performer = record new_hierarchy {
  world = record {
    heap = λ p. if p == 4 then some own_performer else none;
    lookup = (init (codes "a"), 4) ∷ [];
  };
}

own_message_lem_example :
    on_receive_msg 4 all_alive 1 2 6 own_performer.sync
      (entity_create_request below_own)
      with_performer
    ≡ ok with_performer
unfolding new_hierarchy is_about_own has_entity contains uri_of init
own_message_lem_example =
    own_message_lem 4 all_alive 1 2 own_performer (entity_create_request below_own) 6
      own_performer.sync with_performer refl refl
