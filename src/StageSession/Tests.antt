-- ===== src/StageSession/Tests.antt =====
-- A stage with two clients, and instances of the theorems.
use showtime_cpp.Common.{
  codes, ◌≡◌, ◌≢◌, ◌⊎◌, refl, true, false, List, [], ◌∷◌, ◌++◌, map, some, ok, ◌>>=◌,
}
use showtime_cpp.Uri
use showtime_cpp.Uri.{Uri, init, equal}
use showtime_cpp.CableAddress.{address_eq}
use showtime_cpp.Cable.{Cable}
use showtime_cpp.World
use showtime_cpp.World.{World, Entity}
use showtime_cpp.World.Plug
use showtime_cpp.Session
use showtime_cpp.Session.{Session}
use showtime_cpp.Session.Create.{between}
use showtime_cpp.Samples.{
  all_alive, sync_with, sender, receiver, objects, paths, sending_client, receiving_client,
}
use showtime_cpp.StageSession.Ownership.{aquire_entity_ownership_handler}
use showtime_cpp.StageSession.{
  is_ok, take_ownership, Stage, signal_ok, signal_empty, bad_cable_connect_request, cable_create,
  handshake_listen, handshake_start, handshake_stop, signal_message, Handshake, finish_cable,
  has_connected_subscriber, answer, start_connection, performer_of, create_cable_handler,
}
use showtime_cpp.StageSession.Connected.{answer_lem, start_connection_lem}
use showtime_cpp.StageSession.Refused.{refused_unchanged}

abbrev wire : Cable
unfolding init
wire = record {
  address = between receiver sender;
  input = some 2;
  output = some 1;
  sync = sync_with (7 ∷ []);
}

abbrev stage_with : List Cable → Stage
unfolding init
stage_with cables = record {
  session = record {
    world = record { heap = objects; lookup = paths };
    cables = cables;
    connected_performers = [];
    events = [];
    woken = [];
    cleanups = [];
    id_counter = 5;
  };
  clients = 4 ∷ 5 ∷ [];
  sent = [];
  handshakes = [];
}

abbrev waiting : Handshake
unfolding init
waiting = record {
  output_client = 4;
  input_client = 5;
  on_connected = finish_cable (between receiver sender) 5 77;
}

-- The request for a cable, the response of the input client, and what was sent by then.
whole_request :
    (create_cable_handler all_alive 9 all_alive 7 (between receiver sender) 5 77 (stage_with [])
      >>= λ r. answer all_alive 9 all_alive waiting signal_ok r.0 >>= λ t. ok t.sent)
    ≡ ok (
        (5, handshake_listen sending_client.uri)
        ∷ (4, handshake_start receiving_client.uri)
        ∷ (4, handshake_stop receiving_client.uri)
        ∷ (4, cable_create (between receiver sender))
        ∷ (5, cable_create (between receiver sender))
        ∷ (5, signal_message signal_ok 77)
        ∷ [])
unfolding init create_cable_handler answer Session.find_cable World.find_input_plug equal
    World.find_output_plug Session.create_cable Plug.max_connected_cables Plug.num_cables Uri.first
    World.find_stage_proxy showtime_cpp.OrderedSet.insert address_eq
whole_request = refl

answer_lem_example :
    ((signal_ok ≡ signal_ok)
      × ((t : Stage) × (answer all_alive 9 all_alive waiting signal_ok (stage_with (wire ∷ []))
            ≡ ok t)
          × (t.sent
              ≡ (4, handshake_stop receiving_client.uri)
                ∷ (4, cable_create (between receiver sender))
                ∷ (5, cable_create (between receiver sender))
                ∷ (5, signal_message signal_ok 77)
                ∷ [])
          × ((o : Entity) × (t.session.world.heap 4 ≡ some o)
              × (has_connected_subscriber o receiving_client ≡ true))))
    ⊎ ((signal_ok ≢ signal_ok)
        × (answer all_alive 9 all_alive waiting signal_ok (stage_with (wire ∷ []))
            ≡ ok (stage_with (wire ∷ []))))
unfolding init Session.find_cable address_eq equal
answer_lem_example =
    answer_lem all_alive 9 all_alive (λ p. refl) signal_ok (between receiver sender) wire 4 5 5 77
      sending_client receiving_client receiving_client (stage_with (wire ∷ [])) refl refl refl refl

start_connection_lem_example :
    let st = stage_with (wire ∷ []) in
    (t : Stage) × (start_connection all_alive 9 all_alive
        (between receiver sender)
        receiver.uri
        sender.uri
        5
        77
        st
      ≡ ok (t, signal_empty))
    × (t.session ≡ st.session)
    × (((equal sending_client.uri receiving_client.uri ≡ true)
          × (t.sent
              ≡ st.sent
                ++ (map (λ p. (p, cable_create (between receiver sender))) st.clients
                    ++ (5, signal_message signal_ok 77) ∷ []))
          × (t.handshakes ≡ st.handshakes))
        ⊎ ((equal sending_client.uri receiving_client.uri ≡ false)
            × (has_connected_subscriber sending_client receiving_client ≡ true)
            × (t ≡ st))
        ⊎ ((equal sending_client.uri receiving_client.uri ≡ false)
            × (has_connected_subscriber sending_client receiving_client ≡ false)
            × (t.sent
                ≡ (5, handshake_listen sending_client.uri)
                  ∷ (4, handshake_start receiving_client.uri)
                  ∷ [])
            × (t.handshakes ≡ waiting ∷ [])))
unfolding init performer_of Uri.first World.find_stage_proxy equal Session.find_cable address_eq
start_connection_lem_example =
    start_connection_lem all_alive 9 all_alive (λ p. refl) (between receiver sender) wire
      receiver.uri sender.uri 5 77 5 4 receiving_client sending_client receiving_client
      (stage_with (wire ∷ [])) refl refl refl refl

refused_unchanged_example :
    (stage_with (wire ∷ []) ≡ stage_with (wire ∷ [])) × (is_ok bad_cable_connect_request ≡ false)
unfolding init create_cable_handler Session.find_cable address_eq equal
refused_unchanged_example =
    refused_unchanged all_alive 9 all_alive 7 (between receiver sender) 5 77
      (stage_with (wire ∷ [])) (stage_with (wire ∷ [])) bad_cable_connect_request refl (λ e. cc e)

-- The client `a` takes the plug that feeds a plug of `b`: `a`, which will send, is asked to listen to
-- `b`, and `b` to start.
ownership_run :
    (aquire_entity_ownership_handler all_alive 9 all_alive sender.uri
        (codes "a")
        (stage_with (wire ∷ []))
      >>= λ r. ok r.0.sent)
    ≡ ok (
        (4, handshake_listen receiving_client.uri)
        ∷ (5, handshake_start sending_client.uri)
        ∷ (4, take_ownership sender.uri sending_client.uri)
        ∷ (5, take_ownership sender.uri sending_client.uri)
        ∷ [])
unfolding aquire_entity_ownership_handler init World.find_entity equal World.find_stage_proxy
    Uri.from_buffer Uri.first Uri.is_empty
ownership_run = refl
