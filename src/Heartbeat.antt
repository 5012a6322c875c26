-- ===== src/Heartbeat.antt =====
-- The heartbeat of src/core/entities/ZstPerformer.cpp and the server's timer of
-- src/server/ZstStage.cpp, which looks for clients that no longer send it. StageHierarchy.Timer has
-- the whole timer, with the removal of the clients that are found.
pub mod Silence
pub mod Tests
use showtime_cpp.Common.{ℕ, ◌+◌, Bool, true, false, List, [], ◌∷◌, ltb, if◌then◌else◌}

-- `MAX_MISSED_HEARTBEATS`.
abbrev pub max_missed_heartbeats : ℕ
max_missed_heartbeats = 10

pub record Pulse : Type 0 where
  pub heartbeat_active : Bool
  pub missed_heartbeats : ℕ

-- A performer that is made by its name.
unfoldable pub joined : Pulse
joined = record { heartbeat_active = false; missed_heartbeats = 0 }

unfoldable pub set_heartbeat_active : Pulse → Pulse
set_heartbeat_active p = record { heartbeat_active = true; missed_heartbeats = 0 }

unfoldable pub clear_active_heartbeat : Pulse → Pulse
clear_active_heartbeat p = record p { heartbeat_active = false }

unfoldable pub set_heartbeat_inactive : Pulse → Pulse
set_heartbeat_inactive p = record p { missed_heartbeats = p.missed_heartbeats + 1 }

-- One round of the loop of `stage_heartbeat_timer`, and its test.
unfoldable pub check : Pulse → Pulse
unfolding clear_active_heartbeat set_heartbeat_inactive
check p = if p.heartbeat_active then clear_active_heartbeat p else set_heartbeat_inactive p

unfoldable pub is_over : Pulse → Bool
is_over p = ltb max_missed_heartbeats p.missed_heartbeats

-- The loop of the timer: the clients as it leaves them, and those to remove. A client is a number.
check_all : List (ℕ × Pulse) → List (ℕ × Pulse)
unfolding check
check_all [] = []
check_all ((c, p) ∷ cs) = (c, check p) ∷ check_all cs

removed_clients : List (ℕ × Pulse) → List ℕ
unfolding is_over check
removed_clients [] = []
removed_clients ((c, p) ∷ cs) =
    let rest = removed_clients cs in if is_over (check p) then c ∷ rest else rest

unfoldable pub find_silent : List (ℕ × Pulse) → List (ℕ × Pulse) × List ℕ
unfolding check_all removed_clients
find_silent cs = (check_all cs, removed_clients cs)
