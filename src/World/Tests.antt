-- ===== src/World/Tests.antt =====
-- A plug and a map of two paths, and instances of the theorems.
use showtime_cpp.Common.{true, false, [], ◌∷◌, none, codes, arith}
use showtime_cpp.Uri.{Uri, init}
use showtime_cpp.CableAddress.{CableAddress}
use showtime_cpp.CableAddress.Order.{IsAddress}
use showtime_cpp.Sync.{activated, no_err}
use showtime_cpp.World.{Entity, World, input_plug, in_jack}

abbrev first_path : Uri
unfolding init
first_path = init (codes "a/out")

abbrev second_path : Uri
unfolding init
second_path = init (codes "b/in")

abbrev third_path : Uri
unfolding init
third_path = init (codes "b/new")

abbrev wire : CableAddress
unfolding init
wire = record { input_uri = second_path; output_uri = first_path }

wire-IsAddress : IsAddress wire
unfolding init
wire-IsAddress = record {
  input_key = record { bytes = omega arith; nul_free = omega arith };
  output_key = record { bytes = omega arith; nul_free = omega arith };
}

abbrev receiver : Entity
unfolding init
receiver = record {
  kind = input_plug;
  uri = second_path;
  parent = first_path;
  current_owner = first_path;
  registered = true;
  sync = record {
    core = record {
      destroyed_flag = false;
      status = activated;
      last_error = no_err;
      proxy = true;
      instance_id = 1;
      told = [];
    };
    events = record { adaptors = 1 ∷ []; events = []; has_event = false; wake = none };
  };
  children = [];
  direction = in_jack;
  max_cables = 1;
  cables = [];
  can_fire = false;
  subscribers = [];
  creatables = [];
}

abbrev two_entities : World
unfolding init
two_entities = record { heap = λ p. none; lookup = (first_path, 1) ∷ (second_path, 2) ∷ [] }
