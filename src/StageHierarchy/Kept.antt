-- ===== src/StageHierarchy/Kept.antt =====
-- What the server sends leaves the tree of entities alone, and the arrivals do.
use showtime_cpp.Common.{
  ℕ, Bool, List, [], ◌∷◌, Option, none, some, Result, ok, thrown, Error, AllOk, bind-AllOk,
  if-holds,
}
use showtime_cpp.Uri
use showtime_cpp.Uri.{Uri, equal, not_equal}
use showtime_cpp.Tree.{
  HierarchyEvent, entity_arriving, factory_arriving, performer_arriving, entity_updated,
  entity_leaving, factory_leaving, performer_leaving,
}
use showtime_cpp.Tree.Sound.{SoundTree, read-AllOk, pure-AllOk}
use showtime_cpp.Hierarchy.Removal.Kept.{process_synchronisables-Sound}
use showtime_cpp.StageHierarchy.{
  Content, Client, Stage, client_at, is_excluded, send_to, whisper_client, whisper, whisper_each,
  broadcast, caught, on_entity_arriving, show_event, show_each, process_events,
}

-- The map of the server's tree is right.
abbrev pub SoundStage : Stage → Type 0
SoundStage st = SoundTree st.tree

module _ (reaches : ℕ → Bool) where
  pub send_to-Sound :
      (endpoint : ℕ) (m : Content) (st : Stage)
      → SoundStage st
      → SoundStage (send_to reaches endpoint m st)
  unfolding send_to
  send_to-Sound endpoint m st s = if-holds SoundStage (reaches endpoint) _ _ (λ r. s) (λ r. s)

  whisper_client-Sound :
      (c : Option Client) (m : Content) (st : Stage)
      → SoundStage st
      → SoundStage (whisper_client reaches c m st)
  unfolding whisper_client
  whisper_client-Sound none m st s = s
  whisper_client-Sound (some c) m st s = send_to-Sound c.endpoint m st s

  pub whisper-Sound :
      (p : ℕ) (m : Content) (st : Stage) → SoundStage st → SoundStage (whisper reaches p m st)
  unfolding whisper
  whisper-Sound p m st s = whisper_client-Sound (client_at p st.clients) m st s

  whisper_each-Sound :
      (ps : List ℕ) (excluded : List (Option ℕ)) (m : Content) (st : Stage)
      → SoundStage st
      → SoundStage (whisper_each reaches ps excluded m st)
  unfolding whisper_each
  whisper_each-Sound [] excluded m st s = s
  whisper_each-Sound (p ∷ ps) excluded m st s =
      if-holds SoundStage (is_excluded p excluded) _ _ (λ r. whisper_each-Sound ps excluded m st s)
        (λ r. whisper_each-Sound ps excluded m (whisper reaches p m st) (whisper-Sound p m st s))

  pub broadcast-Sound :
      (m : Content) (excluded : List (Option ℕ)) (st : Stage)
      → SoundStage st
      → SoundStage (broadcast reaches m excluded st)
  unfolding broadcast
  broadcast-Sound m excluded st s = whisper_each-Sound _ excluded m st s

  arriving-Sound :
      (p : ℕ) (st : Stage) → SoundStage st → AllOk SoundStage (on_entity_arriving reaches p st)
  unfolding on_entity_arriving
  arriving-Sound p st s =
      read-AllOk SoundStage p st.tree _
        (λ e k. pure-AllOk SoundStage (Uri.first e.uri) _ (λ name. broadcast-Sound _ _ st s))

  show_event-Sound :
      (event : HierarchyEvent) (st : Stage)
      → SoundStage st
      → AllOk SoundStage (show_event reaches event st)
  unfolding show_event
  show_event-Sound (entity_arriving p) st s = arriving-Sound p st s
  show_event-Sound (factory_arriving p) st s = arriving-Sound p st s
  show_event-Sound (performer_arriving p) st s = arriving-Sound p st s
  show_event-Sound (entity_updated p) st s = s
  show_event-Sound (entity_leaving u) st s = s
  show_event-Sound (factory_leaving u) st s = s
  show_event-Sound (performer_leaving u) st s = s

  caught-Sound :
      (st : Stage) (r : Result Stage)
      → SoundStage st
      → AllOk SoundStage r
      → AllOk SoundStage (caught st r)
  unfolding caught
  caught-Sound st (ok next) s a = a
  caught-Sound st (thrown Error.invalid_read) s a = tt
  caught-Sound st (thrown Error.out_of_fuel) s a = tt
  caught-Sound st (thrown Error.range_error) s a = s
  caught-Sound st (thrown Error.out_of_range) s a = s
  caught-Sound st (thrown Error.runtime_error) s a = s
  caught-Sound st (thrown Error.invalid_argument) s a = s

  show_each-Sound :
      (events : List HierarchyEvent) (st : Stage)
      → SoundStage st
      → AllOk SoundStage (show_each reaches events st)
  unfolding show_each
  show_each-Sound [] st s = s
  show_each-Sound (event ∷ events) st s =
      bind-AllOk SoundStage SoundStage _ _
        (caught-Sound st (show_event reaches event st) s (show_event-Sound event st s))
        (λ g r. show_each-Sound events g)

  pub process_events-Sound :
      (alive : ℕ → Bool) (self stack : ℕ) (st : Stage)
      → SoundStage st
      → AllOk SoundStage (process_events reaches alive self stack st)
  unfolding process_events
  process_events-Sound alive self stack st s =
      bind-AllOk SoundStage SoundStage _ _
        (show_each-Sound st.tree.events (record st { tree = record (st.tree) { events = [] } }) s)
        (λ g r t.
          bind-AllOk SoundTree SoundStage _ _
            (process_synchronisables-Sound alive self stack g.tree t) (λ h q v. v))
