-- ===== src/StageHierarchy/Reach.antt =====
-- What the server can come to by its messages, the responses of factories and its rounds of events,
-- in any order, and what every path that it finds leads to.
use showtime_cpp.Common.{ℕ, Bool, [], Option, none, ◌≡◌, ok}
use showtime_cpp.Uri.{Uri}
use showtime_cpp.Sync.{Sync}
use showtime_cpp.StageSession.{Signal}
use showtime_cpp.Hierarchy.Reach.{new_hierarchy}
use showtime_cpp.StageHierarchy.{FactoryRequest, Stage, process_events}
use showtime_cpp.StageHierarchy.Timer.{stage_heartbeat_timer}
use showtime_cpp.StageHierarchy.Handlers.{Message, answer_factory, on_receive_msg}

-- The server before its first message.
unfoldable pub new_stage : Stage
unfolding new_hierarchy
new_stage = record { tree = new_hierarchy; clients = []; sent = []; waiting = [] }

module _ (alive : ℕ → Bool) (self : ℕ) (stack : ℕ) (reaches : ℕ → Bool) where
  -- One step of the server that returns. A round of events does when its handlers throw exceptions,
  -- which the dispatcher catches. The object that a message may create is at an address not in use.
  pub data ServerStep : Stage → Stage → Type 0 where
    receives :
        {st next : Stage} (fresh : ℕ) (sync : Sync) (msg : Message)
        → st.tree.world.heap fresh ≡ none
        → on_receive_msg alive self stack reaches fresh sync msg st ≡ ok next
        → ServerStep st next
    is_answered :
        {st next : Stage} (r : FactoryRequest) (response : Option Signal)
        → answer_factory alive self stack reaches r response st ≡ ok next
        → ServerStep st next
    runs_events :
        {st next : Stage}
        → process_events reaches alive self stack st ≡ ok next
        → ServerStep st next
    timer_fires :
        {st next : Stage} → stage_heartbeat_timer alive self stack st ≡ ok next → ServerStep st next

  pub data Serves : Stage → Type 0 where
    is_new : Serves new_stage
    then_step : {st next : Stage} → Serves st → ServerStep st next → Serves next
