-- ===== src/StageHierarchy/Tests.antt =====
-- A client joins the server and leaves it, and instances of the theorems.
use showtime_cpp.Common.{
  ◌≤◌, ◌≡◌, ◌≢◌, ◌⊎◌, refl, true, false, [], ◌∷◌, ◌++◌, none, some, Result, ok, ◌>>=◌, codes, arith,
  length,
}
use showtime_cpp.Uri.{init, path, first, not_equal}
use showtime_cpp.World.{Entity, no_jack}
use showtime_cpp.Samples.{all_alive, sync_with, sending_client}
use showtime_cpp.StageSession.{signal_ok, signal_empty, performer_already_exists, is_ok}
use showtime_cpp.Tree.{find_entity}
use showtime_cpp.Hierarchy.Proxies.{Payload, performer_entity, uri_of, owner_of}
use showtime_cpp.StageHierarchy.{
  Stage, Client, FactoryRequest, signal_message, client_leave_request, factory_create_entity_ack,
  serialize, process_events,
}
use showtime_cpp.StageHierarchy.Handlers.{
  Message, client_join_request, client_leave, signal_of, create_client_handler,
  create_entity_handler, answer_factory, on_receive_msg,
}
use showtime_cpp.StageHierarchy.Handlers.Taken.{taken_path_lem}
use showtime_cpp.StageHierarchy.Reach.{new_stage}
use showtime_cpp.StageHierarchy.Sent.{answer_factory_lem, serialized_paths_lem}

abbrev client_payload : Payload
client_payload = record {
  entity_types = performer_entity;
  uri = codes "a";
  owner = none;
  plug_direction = no_jack;
  max_cables = 0;
  creatables = [];
}

abbrev join : Message
join = record {
  content = client_join_request client_payload;
  origin_endpoint = 9;
  id = 5;
  owned = true;
}

abbrev joined : Stage
unfolding on_receive_msg new_stage
joined = elim (on_receive_msg all_alive 1 3 all_alive 7 (sync_with []) join new_stage) [
  | ok st ↦ st
  | _ ↦ new_stage
]

abbrev leave : Message
leave = record { content = client_leave 0; origin_endpoint = 9; id = 6; owned = true }

-- The client that leaves is told so too, then it is answered; the next round of events frees it.
abbrev leaves : Result Stage
unfolding on_receive_msg new_stage process_events
leaves =
    on_receive_msg all_alive 1 3 all_alive 8 (sync_with []) leave joined
    >>= process_events all_alive all_alive 1 3

leaves-sent :
    (leaves >>= λ st. ok st.sent)
    ≡ ok (
        (9, signal_message signal_ok 5)
        ∷ (9, client_leave_request (codes "a") 0)
        ∷ (9, signal_message signal_ok 6)
        ∷ [])
unfolding on_receive_msg new_stage process_events showtime_cpp.OrderedSet.insert
leaves-sent = refl

leaves-find : (leaves >>= λ st. ok (find_entity (init (codes "a")) st.tree)) ≡ ok none
unfolding on_receive_msg new_stage process_events find_entity init showtime_cpp.OrderedSet.insert
leaves-find = refl

abbrev asked : FactoryRequest
unfolding init
asked = record { sender = 7; factory_path = init (codes "b/f"); response_id = 4 }

abbrev the_client : Client
the_client = record {
  pointer = 7;
  endpoint = 9;
  pulse = record { heartbeat_active = false; missed_heartbeats = 0 };
}

abbrev the_proxy : Entity
unfolding on_receive_msg new_stage
the_proxy = elim (joined.tree.world.heap 7) [ none ↦ sending_client | some e ↦ e ]

answer_factory_lem_example :
    answer_factory all_alive 1 3 all_alive asked none joined
    ≡ ok (record joined {
      sent =
          joined.sent
          ++ (9, signal_message signal_empty 4)
            ∷ (9, factory_create_entity_ack (codes "b/f") 4)
            ∷ [];
    })
unfolding on_receive_msg new_stage init path signal_of is_ok
answer_factory_lem_example =
    answer_factory_lem all_alive 1 3 all_alive asked none joined the_proxy the_client refl refl refl

taken_path_lem_example :
    (create_client_handler all_alive 1 3 all_alive 8 (sync_with []) join client_payload joined
      ≡ ok (joined, performer_already_exists))
    × (create_entity_handler all_alive 1 3 all_alive 8 (sync_with []) client_payload (some 7) joined
        ≡ ok (joined, signal_ok))
unfolding on_receive_msg new_stage find_entity uri_of first not_equal init
taken_path_lem_example =
    taken_path_lem all_alive 1 3 all_alive 8 (sync_with []) join client_payload joined 7 7 the_proxy
      (init (codes "a")) (init (codes "a")) refl (λ h. cc h) refl refl refl

abbrev owned_entity : Entity
unfolding init
owned_entity = record sending_client { current_owner = init (codes "bc") }

serialized_paths_lem_example :
    (uri_of (serialize owned_entity).uri ≡ owned_entity.uri)
    × (owner_of (serialize owned_entity).owner ≡ init (codes "b"))
    × ((length (codes "bc") ≤ 1) ⊎ (owner_of (serialize owned_entity).owner ≢ init (codes "bc")))
unfolding init
serialized_paths_lem_example =
    serialized_paths_lem owned_entity (record { cut = refl; nul_free = omega arith })
      (record { cut = refl; nul_free = omega arith })

-- A client with an empty path: the server cannot say whose entity it is, and goes on.
abbrev nameless : Result Stage
unfolding on_receive_msg new_stage process_events
nameless =
    on_receive_msg all_alive 1 3 all_alive 7 (sync_with [])
      (record join { content = client_join_request (record client_payload { uri = [] }) }) new_stage
    >>= λ r. process_events all_alive all_alive 1 3 r

goes_on : (nameless >>= λ st. ok st.tree.events) ≡ ok []
unfolding on_receive_msg new_stage process_events showtime_cpp.OrderedSet.insert
goes_on = refl
