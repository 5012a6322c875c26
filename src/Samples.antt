-- ===== src/Samples.antt =====
-- Objects for the tests of several modules: an output plug, two input plugs and the performers of two
-- of them, as src/server keeps them.
use showtime_cpp.Common.{
  ℕ, ◌==◌, Bool, true, false, List, [], ◌∷◌, Option, none, some, codes, if◌then◌else◌,
}
use showtime_cpp.Uri.{Uri, init}
use showtime_cpp.Sync.{Sync, activated, no_err}
use showtime_cpp.World.{
  Entity, EntityKind, input_plug, output_plug, stage_proxy, PlugDirection, in_jack, out_jack,
  no_jack,
}

abbrev pub all_alive : ℕ → Bool
all_alive a = true

abbrev pub sync_with : List ℕ → Sync
sync_with adaptors = record {
  core = record {
    destroyed_flag = false;
    status = activated;
    last_error = no_err;
    proxy = true;
    instance_id = 1;
    told = [];
  };
  events = record { adaptors = adaptors; events = []; has_event = false; wake = none };
}

abbrev pub empty_path : Uri
empty_path = record { original_path = []; components = [] }

abbrev pub plug_at : EntityKind → PlugDirection → Uri → Entity
plug_at kind direction uri = record {
  kind = kind;
  uri = uri;
  parent = empty_path;
  current_owner = empty_path;
  registered = true;
  sync = sync_with (1 ∷ []);
  children = [];
  direction = direction;
  max_cables = 1;
  cables = [];
  can_fire = false;
  subscribers = [];
  creatables = [];
}

abbrev pub sender : Entity
unfolding init
sender = plug_at output_plug out_jack (init (codes "a/out"))

abbrev pub receiver : Entity
unfolding init
receiver = plug_at input_plug in_jack (init (codes "b/in"))

abbrev pub spare : Entity
unfolding init
spare = plug_at input_plug in_jack (init (codes "c/in"))

abbrev pub sending_client : Entity
unfolding init
sending_client = plug_at stage_proxy no_jack (init (codes "a"))

abbrev pub receiving_client : Entity
unfolding init
receiving_client = plug_at stage_proxy no_jack (init (codes "b"))

abbrev pub objects : ℕ → Option Entity
unfolding init
objects p =
    if p == 1
    then some sender
    else if p == 2
    then some receiver
    else if p == 3
    then some spare
    else if p == 4
    then some sending_client
    else if p == 5
    then some receiving_client
    else none

abbrev pub paths : List (Uri × ℕ)
unfolding init
paths =
    (init (codes "a/out"), 1)
    ∷ (init (codes "b/in"), 2)
    ∷ (init (codes "c/in"), 3)
    ∷ (init (codes "a"), 4)
    ∷ (init (codes "b"), 5)
    ∷ []
