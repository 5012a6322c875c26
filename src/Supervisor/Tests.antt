-- ===== src/Supervisor/Tests.antt =====
-- One request among others, and instances of the theorems.
use showtime_cpp.Common.{◌≡◌, refl, [], ◌∷◌, none, some, ok, ◌>>=◌}
use showtime_cpp.Supervisor.{
  Supervisor, find, register_response, process_message_response, finish_send,
  cleanup_response_messages,
}
use showtime_cpp.Supervisor.Answers.{timeout_lem, answered_lem, late_lem}

abbrev busy : Supervisor
busy = record {
  response_promises = (1, none) ∷ (2, some 20) ∷ [];
  owned_messages = (2, 20) ∷ [];
  dead_promises = [];
  completed = [];
}

timeout_lem_example :
    (register_response 3 busy >>= λ t. ok (cleanup_response_messages (finish_send 3 t))) ≡ ok busy
unfolding find
timeout_lem_example = timeout_lem 3 busy refl refl

answered_lem_example :
    (register_response 3 busy >>= λ t.
    process_message_response 3 30 t >>= λ u. ok (cleanup_response_messages (finish_send 3 u)))
    ≡ ok (record busy { completed = 3 ∷ [] })
unfolding find
answered_lem_example = answered_lem 3 30 busy refl refl refl

late_lem_example :
    (register_response 3 busy >>= λ t.
    process_message_response 3 30 (finish_send 3 t) >>= λ u. ok (cleanup_response_messages u))
    ≡ ok (record busy { owned_messages = (2, 20) ∷ (3, 30) ∷ [] })
unfolding find
late_lem_example = late_lem 3 30 busy refl refl refl
