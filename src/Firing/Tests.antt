-- ===== src/Firing/Tests.antt =====
-- An output whose one cable leads to an input of the same client, and an instance of the theorem.
use showtime_cpp.Common.{
  ℕ, ◌==◌, ◌≡◌, refl, true, [], ◌∷◌, ◌++◌, none, some, ok, codes, if◌then◌else◌,
}
use showtime_cpp.Uri
use showtime_cpp.Uri.{init, equal}
use showtime_cpp.CableAddress.{address_eq}
use showtime_cpp.Cable.{Cable}
use showtime_cpp.World.{Entity, output_plug, input_plug, out_jack, in_jack}
use showtime_cpp.Samples.{sync_with, plug_at}
use showtime_cpp.Session
use showtime_cpp.Session.{Session}
use showtime_cpp.StageSession.{child_cables}
use showtime_cpp.Value
use showtime_cpp.Value.{Value, PlugValue, int_values, int_list, of_int}
use showtime_cpp.Value.Samples.{one_byte, two_ints}
use showtime_cpp.Firing.{Graph, send_local, fire}
use showtime_cpp.Firing.Published.{messages, fire_lem}

abbrev output : Entity
unfolding init
output = record (plug_at output_plug out_jack (init (codes "a/out"))) {
  can_fire = true;
  cables = record { input_uri = init (codes "a/in"); output_uri = init (codes "a/out") } ∷ [];
}

abbrev input : Entity
unfolding init
input = plug_at input_plug in_jack (init (codes "a/in"))

abbrev wire : Cable
unfolding init
wire = record {
  address = record { input_uri = input.uri; output_uri = output.uri };
  input = some 2;
  output = some 1;
  sync = sync_with [];
}

abbrev graph : Graph ℕ ℕ
unfolding init
graph = record {
  session = record {
    world = record {
      heap = λ p. if p == 1 then some output else if p == 2 then some input else none;
      lookup = [];
    };
    cables = wire ∷ [];
    connected_performers = [];
    events = [];
    woken = [];
    cleanups = [];
    id_counter = 5;
  };
  value_of = λ p. if p == 1 then two_ints else record { values = []; default_type = int_list };
  received = [];
  publishers = 9 ∷ [];
  published = [];
}

-- The graph after the loop.
abbrev after_loop : Graph ℕ ℕ
unfolding init
after_loop = record graph {
  value_of = λ p. if p == 2 then two_ints else graph.value_of p;
  received = 2 ∷ [];
}

-- The cable is local, and the value is sent to the transport too.
fire_lem_example :
    (h : Graph ℕ ℕ) × (fire ℕ ℕ one_byte 1 graph ≡ ok h)
    × (h.published
        ≡ []
          ++ messages ℕ ℕ one_byte (Uri.path output.uri) (some (int_values (5 ∷ 7 ∷ []))) (9 ∷ []))
    × ((h.value_of 1).values ≡ [])
    × (h.received ≡ 2 ∷ [])
unfolding init child_cables send_local Session.find_cable Uri.first Value.serialize Value.copy equal
    address_eq
fire_lem_example =
    fire_lem ℕ ℕ one_byte 1 output graph (after_loop, 1) (some (int_values (5 ∷ 7 ∷ []))) refl refl
      refl refl
