-- ===== src/Heartbeat/Tests.antt =====
-- Three clients, two of which have been silent for too long.
use showtime_cpp.Common.{◌≡◌, refl, true, List, none, some, [], ◌∷◌, map}
use showtime_cpp.Heartbeat.{set_heartbeat_active, joined, is_over, find_silent}
use showtime_cpp.Heartbeat.Silence.{beats, fires, after, rounds, Client, pulse_of, silence_lem}

abbrev both : List Client
both =
    record { number = 1; before = some (beats ∷ fires ∷ []); silent = 11 }
    ∷ record { number = 2; before = some []; silent = 10 }
    ∷ record { number = 3; before = none; silent = 10 }
    ∷ []

one_removed : (find_silent (map pulse_of both)).1 ≡ 1 ∷ 3 ∷ []
unfolding find_silent set_heartbeat_active joined
one_removed = refl

silence_lem_example :
    let q = after (fires ∷ beats ∷ rounds 12) joined in
    (q.missed_heartbeats ≡ 11) × (is_over q ≡ true)
silence_lem_example = silence_lem (fires ∷ []) 12 joined
