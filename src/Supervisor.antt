-- ===== src/Supervisor.antt =====
-- src/core/ZstMessageSupervisor.cpp and `blocking_send` of
-- src/core/transports/ZstTransportLayerBase.hpp: a request waits for the message that answers it. An
-- identifier and a message are numbers; `completed` lists the identifiers whose clean-up callback
-- has been called, and every wait is two steps, the registration and the end.
pub mod Answers
pub mod Tests
use showtime_cpp.Common.{
  ℕ, ◌==◌, Bool, true, false, List, [], ◌∷◌, ◌++◌, Option, none, some, if◌then◌else◌, Result, ok,
  thrown, Error,
}

pub record Supervisor : Type 0 where
  -- `m_response_promises`, with the value that a promise was given.
  pub response_promises : List (ℕ × Option ℕ)
  pub owned_messages : List (ℕ × ℕ)
  pub dead_promises : List ℕ
  pub completed : List ℕ

module _ {ℓ} {A : Type ℓ} where
  pub find : ℕ → List (ℕ × A) → Option A
  find id [] = none
  find id ((k, x) ∷ rest) = if k == id then some x else find id rest

  pub assign : ℕ → A → List (ℕ × A) → List (ℕ × A)
  assign id x [] = (id, x) ∷ []
  assign id x ((k, y) ∷ rest) = if k == id then (k, x) ∷ rest else (k, y) ∷ assign id x rest

  pub erase : ℕ → List (ℕ × A) → List (ℕ × A)
  erase id [] = []
  erase id ((k, y) ∷ rest) = if k == id then rest else (k, y) ∷ erase id rest

register_found : ℕ → Option (Option ℕ) → Supervisor → Result Supervisor
unfolding assign
register_found id none s = ok (record s { response_promises = assign id none s.response_promises })
register_found id (some v) s = thrown Error.runtime_error

-- `emplace` keeps a promise that is there, and its future can be taken only once.
unfoldable pub register_response : ℕ → Supervisor → Result Supervisor
unfolding register_found find
register_response id s = register_found id (find id s.response_promises) s

unfoldable pub enqueue_resolved_promise : ℕ → Supervisor → Supervisor
enqueue_resolved_promise id s = record s { dead_promises = s.dead_promises ++ id ∷ [] }

unfoldable pub remove_response_promise : ℕ → Supervisor → Supervisor
unfolding erase
remove_response_promise id s = record s { response_promises = erase id s.response_promises }

remove_each : List ℕ → Supervisor → Supervisor
unfolding remove_response_promise
remove_each [] s = s
remove_each (id ∷ ids) s = remove_each ids (remove_response_promise id s)

unfoldable pub cleanup_response_messages : Supervisor → Supervisor
unfolding remove_each
cleanup_response_messages s = remove_each s.dead_promises (record s { dead_promises = [] })

unfoldable pub take_message_ownership : ℕ → ℕ → Supervisor → Supervisor
unfolding assign
take_message_ownership id message s = record s {
  owned_messages = assign id message s.owned_messages;
}

release_found : ℕ → Option ℕ → Supervisor → Supervisor
unfolding erase
release_found id none s = s
release_found id (some message) s = record s {
  owned_messages = erase id s.owned_messages;
  completed = s.completed ++ id ∷ [];
}

unfoldable pub release_owned_message : ℕ → Supervisor → Supervisor
unfolding release_found find
release_owned_message id s = release_found id (find id s.owned_messages) s

-- `set_value`; the error of a second one is caught.
set_value : ℕ → ℕ → Option ℕ → Supervisor → Supervisor
unfolding assign
set_value id message none s = record s {
  response_promises = assign id (some message) s.response_promises;
}
set_value id message (some old) s = s

respond_found : ℕ → ℕ → Option (Option ℕ) → Supervisor → Result Supervisor
unfolding take_message_ownership set_value
respond_found id message none s = thrown Error.out_of_range
respond_found id message (some v) s =
    ok (set_value id message v (take_message_ownership id message s))

-- The test for no promises at all throws as a failed search does.
unfoldable pub process_message_response : ℕ → ℕ → Supervisor → Result Supervisor
unfolding respond_found find
process_message_response id message s = respond_found id message (find id s.response_promises) s

-- `blocking_send` behind the wait: the message, if it came in time, is released.
finish_found : ℕ → Option (Option ℕ) → Supervisor → Supervisor
unfolding release_owned_message
finish_found id (some (some message)) s = release_owned_message id s
finish_found id _ s = s

unfoldable pub finish_send : ℕ → Supervisor → Supervisor
unfolding finish_found enqueue_resolved_promise find
finish_send id s = enqueue_resolved_promise id (finish_found id (find id s.response_promises) s)
