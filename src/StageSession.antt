-- ===== src/StageSession.antt =====
-- src/server/ZstStageSession.cpp: the server's requests for cables, observation and ownership, and
-- the connections between clients that they need. A client is the pointer to its stage proxy. What
-- is sent is a list of messages, each with its receiver; `reaches` says whose transport still
-- exists. The response to a request that the server sends comes in a later step, `answer`.
pub mod Refused
pub mod Connected
pub mod Ownership
pub mod Tests
use showtime_cpp.Common.{
  ℕ, Bool, true, false, not, List, [], ◌∷◌, ◌++◌, Option, none, some, length, leb, ◌==◌,
  if◌then◌else◌, Result, ok, thrown, Error, ◌>>=◌,
}
use showtime_cpp.Uri
use showtime_cpp.Uri.{Uri, equal}
use showtime_cpp.CableAddress.{CableAddress, address_eq}
use showtime_cpp.Cable.{Cable}
use showtime_cpp.World
use showtime_cpp.World.{World, Entity}
use showtime_cpp.World.Plug
use showtime_cpp.Session
use showtime_cpp.Session.{Session}

pub data Signal : Type 0 where
  signal_empty signal_ok performer_not_found performer_already_exists performer_already_connected
        bad_cable_connect_request cable_plugs_not_found entity_not_found :
      Signal

-- The messages that this part of the server sends.
pub data Content : Type 0 where
  cable_create cable_destroy : CableAddress → Content
  handshake_listen handshake_start handshake_stop : Uri → Content
  take_ownership : Uri → Uri → Content
  signal_message : Signal → ℕ → Content

-- What is done when two clients are connected: nothing, a reply to the observer, or the end of
-- `create_cable_handler`; the client and the identifier of its request are kept.
pub data OnConnected : Type 0 where
  do_nothing : OnConnected
  reply_to_observer : ℕ → ℕ → OnConnected
  finish_cable : CableAddress → ℕ → ℕ → OnConnected

pub record Handshake : Type 0 where
  pub output_client : ℕ
  pub input_client : ℕ
  pub on_connected : OnConnected

pub record Stage : Type 0 where
  pub session : Session
  -- `get_performers`, of which the stage proxies count.
  pub clients : List ℕ
  pub sent : List (ℕ × Content)
  -- The requests that were sent with a callback.
  pub handshakes : List Handshake

unfoldable pub is_ok : Signal → Bool
is_ok signal_ok = true
is_ok _ = false

pub with_world : (World → World) → Stage → Stage
with_world f st = record st { session = record (st.session) { world = f st.session.world } }

-- `has_connected_subscriber` and `add_subscriber` of src/server/ZstPerformerStageProxy.cpp.
pub any_equal : Uri → List Uri → Bool
any_equal u [] = false
any_equal u (v ∷ vs) = if equal v u then true else any_equal u vs

unfoldable pub has_connected_subscriber : Entity → Entity → Bool
unfolding any_equal
has_connected_subscriber this client = any_equal client.uri this.subscribers

unfoldable pub add_subscriber : Uri → Entity → Entity
unfolding any_equal
add_subscriber client this =
    if any_equal client this.subscribers
    then this
    else record this { subscribers = this.subscribers ++ client ∷ [] }

-- A pointer that the code dereferences.
pub deref : Option ℕ → World → Result (ℕ × Entity)
deref none w = thrown Error.invalid_read
deref (some p) w = elim (w.heap p) [ none ↦ thrown Error.invalid_read | some e ↦ ok (p, e) ]

-- `ZstPlug::get_child_cables`: the cables that the session finds, each once.
any_address : CableAddress → List CableAddress → Bool
any_address a [] = false
any_address a (b ∷ bs) = if address_eq b a then true else any_address a bs

add_found : CableAddress → Option Cable → List CableAddress → List CableAddress
unfolding any_address
add_found a none bundle = bundle
add_found a (some c) bundle = if any_address a bundle then bundle else bundle ++ c.address ∷ []

unfoldable pub child_cables : List CableAddress → Session → List CableAddress → List CableAddress
unfolding add_found
child_cables [] s bundle = bundle
child_cables (a ∷ as') s bundle = child_cables as' s (add_found a (Session.find_cable a s) bundle)

module _ (alive : ℕ → Bool) (self : ℕ) (reaches : ℕ → Bool) where
  unfoldable pub whisper : ℕ → Content → Stage → Stage
  whisper to m st = if reaches to then record st { sent = st.sent ++ (to, m) ∷ [] } else st

  whisper_all : List ℕ → Content → Stage → Stage
  unfolding whisper
  whisper_all [] m st = st
  whisper_all (p ∷ ps) m st = whisper_all ps m (whisper p m st)

  unfoldable pub broadcast : Content → Stage → Stage
  unfolding whisper_all
  broadcast m st = whisper_all st.clients m st

  unfoldable pub reply_with_signal : ℕ → Signal → ℕ → Stage → Stage
  unfolding whisper
  reply_with_signal client sg request_id st = whisper client (signal_message sg request_id) st

  -- The request with a callback: no transport, no response.
  request : Handshake → Content → Stage → Stage
  unfolding whisper
  request h m st =
      if reaches h.input_client
      then whisper h.input_client m (record st { handshakes = st.handshakes ++ h ∷ [] })
      else st

  -- `connect_clients`, for clients that are there.
  pub connect_entities : ℕ → Entity → ℕ → Entity → OnConnected → Stage → Stage
  unfolding has_connected_subscriber request whisper
  connect_entities output o input i on_connected st =
      if has_connected_subscriber o i
      then st
      else if equal o.uri i.uri
      then st
      else (let h : Handshake = record {
        output_client = output;
        input_client = input;
        on_connected = on_connected;
      } in
          whisper output (handshake_start i.uri) (request h (handshake_listen o.uri) st))

  unfoldable pub connect_clients : Option ℕ → Option ℕ → OnConnected → Stage → Result Stage
  unfolding deref connect_entities
  connect_clients output input on_connected st = deref output st.session.world >>= λ o.
      deref input st.session.world >>= λ i. ok (connect_entities o.0 o.1 i.0 i.1 on_connected st)

  -- `connect_finished_cb`. The pointers to the cable, of this address, and to the client that asked
  -- were kept since the request: they are dereferenced, be there an object or not.
  publish_found : Option Cable → Stage → Result Stage
  unfolding broadcast
  publish_found none st = thrown Error.invalid_read
  publish_found (some c) st = ok (broadcast (cable_create c.address) st)

  publish_cable : CableAddress → Signal → Stage → Result Stage
  unfolding is_ok publish_found Session.find_cable
  publish_cable a sg st =
      if is_ok sg then publish_found (Session.find_cable a st.session) st else ok st

  reply_to : ℕ → Signal → ℕ → Stage → Result Stage
  unfolding deref reply_with_signal
  reply_to sender sg id st =
      deref (some sender) st.session.world >>= λ s. ok (reply_with_signal s.0 sg id st)

  connect_finished : CableAddress → ℕ → ℕ → Signal → Stage → Result Stage
  unfolding publish_cable reply_to
  connect_finished a sender id sg st = publish_cable a sg st >>= λ st. reply_to sender sg id st

  unfoldable pub complete_client_connection : ℕ → Uri → Stage → Stage
  unfolding with_world add_subscriber whisper World.modify
  complete_client_connection output input_path st =
      whisper output (handshake_stop input_path)
        (with_world (World.modify output (add_subscriber input_path)) st)

  run_callback : OnConnected → Signal → Stage → Result Stage
  unfolding reply_to connect_finished
  run_callback do_nothing sg st = ok st
  run_callback (reply_to_observer sender id) sg st = reply_to sender sg id st
  run_callback (finish_cable a sender id) sg st = connect_finished a sender id sg st

  -- `on_recv_response`: anything but an OK is dropped, a time-out included. The two pointers to
  -- clients were kept since the request, and are dereferenced when the response comes.
  unfoldable pub answer : Handshake → Signal → Stage → Result Stage
  unfolding is_ok deref complete_client_connection run_callback
  answer h sg st =
      if is_ok sg
      then (deref (some h.output_client) st.session.world >>= λ o.
          deref (some h.input_client) st.session.world >>= λ i.
          run_callback h.on_connected sg (complete_client_connection o.0 i.1.uri st))
      else ok st

  -- `ZstStageSession::destroy_cable`.
  unfoldable pub destroy_cable : Option CableAddress → Stage → Stage
  unfolding broadcast
  destroy_cable none st = st
  destroy_cable (some a) st =
      let t = broadcast (cable_destroy a) st in
      record t { session = Session.destroy_cable_complete alive self (some a) t.session }

  destroy_each : List CableAddress → Stage → Stage
  unfolding destroy_cable
  destroy_each [] st = st
  destroy_each (a ∷ as') st = destroy_each as' (destroy_cable (some a) st)

  -- The cables of a full input plug are destroyed.
  make_room : Entity → Stage → Stage
  unfolding destroy_each child_cables
  make_room input st =
      if leb (Plug.max_connected_cables input) (Plug.num_cables input)
      then destroy_each (child_cables input.cables st.session []) st
      else st

  -- The performers of both plugs, found by the first segments of the paths.
  pub performer_of : Uri → Stage → Result (ℕ × Entity)
  unfolding deref
  performer_of path st = Uri.first path >>= λ performer_path.
      deref (World.find_stage_proxy performer_path st.session.world) st.session.world

  pub start_connection : CableAddress → Uri → Uri → ℕ → ℕ → Stage → Result (Stage × Signal)
  unfolding performer_of connect_finished connect_entities
  start_connection a input_path output_path sender id st = performer_of input_path st >>= λ i.
      performer_of output_path st >>= λ o.
      (if equal o.1.uri i.1.uri
        then connect_finished a sender id signal_ok st
        else ok (connect_entities o.0 o.1 i.0 i.1 (finish_cable a sender id) st))
      >>= λ st. ok (st, signal_empty)

  -- The rest of the handler, once both plugs are found.
  connect_plugs : ℕ → ℕ → Entity → ℕ → Entity → ℕ → ℕ → Stage → Result (Stage × Signal)
  unfolding make_room start_connection
  connect_plugs default input i output o sender id st =
      let t = make_room i st in
      let created = Session.create_cable alive self default (some input) (some output) t.session in
      let made : Stage = record t { session = created.0 } in
      elim created.1 [
        | none ↦ ok (made, bad_cable_connect_request)
        | some a ↦ start_connection a i.uri o.uri sender id made
      ]

  with_plugs : ℕ → Option ℕ → Option ℕ → ℕ → ℕ → Stage → Result (Stage × Signal)
  unfolding deref connect_plugs
  with_plugs default none output sender id st = ok (st, cable_plugs_not_found)
  with_plugs default (some input) none sender id st = ok (st, cable_plugs_not_found)
  with_plugs default (some input) (some output) sender id st =
      deref (some input) st.session.world >>= λ i. deref (some output) st.session.world >>= λ o.
      connect_plugs default i.0 i.1 o.0 o.1 sender id st

  create_if_new : ℕ → CableAddress → Option Cable → ℕ → ℕ → Stage → Result (Stage × Signal)
  unfolding with_plugs
  create_if_new default a (some c) sender id st = ok (st, bad_cable_connect_request)
  create_if_new default a none sender id st =
      with_plugs default (World.find_input_plug a.input_uri st.session.world)
        (World.find_output_plug a.output_uri st.session.world) sender id st

  -- `default` is the default adaptor of the cable that may be made.
  unfoldable pub create_cable_handler : ℕ → CableAddress → ℕ → ℕ → Stage → Result (Stage × Signal)
  unfolding create_if_new
  create_cable_handler default a sender id st =
      create_if_new default a (Session.find_cable a st.session) sender id st

  unfoldable pub destroy_cable_handler : CableAddress → Stage → Stage × Signal
  unfolding destroy_cable
  destroy_cable_handler a st = elim (Session.find_cable a st.session) [
    | none ↦ (st, signal_ok)
    | some c ↦ (destroy_cable (some c.address) st, signal_ok)
  ]

  -- `observe_entity_handler`, for a performer that was found; `sender` is the requesting client.
  observe_found : ℕ × Entity → ℕ × Entity → ℕ → Stage → Stage × Signal
  unfolding has_connected_subscriber connect_entities
  observe_found sender observed id st =
      if sender.0 == observed.0
      then (st, performer_already_connected)
      else if has_connected_subscriber observed.1 sender.1
      then (st, performer_already_connected)
      else (
        connect_entities observed.0 observed.1 sender.0 sender.1 (reply_to_observer sender.0 id) st,
        signal_empty,
      )

  observe_target : ℕ → Option ℕ → ℕ → Stage → Result (Stage × Signal)
  unfolding deref observe_found
  observe_target sender none id st = ok (st, performer_not_found)
  observe_target sender (some p) id st = deref (some p) st.session.world >>= λ observed.
      deref (some sender) st.session.world >>= λ client. ok (observe_found client observed id st)

  unfoldable pub observe_entity_handler : Uri → ℕ → ℕ → Stage → Result (Stage × Signal)
  unfolding observe_target
  observe_entity_handler path sender id st = Uri.first path >>= λ performer_path.
      observe_target sender (World.find_stage_proxy performer_path st.session.world) id st
