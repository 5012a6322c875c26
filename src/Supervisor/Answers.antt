-- ===== src/Supervisor/Answers.antt =====
-- A request from its registration to the clean-up, answered or not.
use showtime_cpp.Common.{
  ℕ, ◌==◌, ==_refl, ◌≡◌, refl, ap, ◌∙◌, List, [], ◌∷◌, ◌++◌, Option, none, some, ok, ◌>>=◌,
  Bool-cases, inl, inr,
}
use showtime_cpp.Supervisor.{
  Supervisor, find, assign, erase, register_found, register_response, respond_found,
  process_message_response, set_value, take_message_ownership, finish_found, finish_send,
  release_found, release_owned_message, enqueue_resolved_promise, cleanup_response_messages,
  remove_each, remove_response_promise,
}

module _ {ℓ} {A : Type ℓ} where
  assign_new :
      (id : ℕ) (x : A) (l : List (ℕ × A)) → find id l ≡ none → assign id x l ≡ l ++ (id, x) ∷ []
  unfolding find assign
  assign_new id x [] h = refl
  assign_new id x ((k, y) ∷ rest) h = elim (Bool-cases (k == id)) [
    | inl e ↦ absurd (cc (rw e at h))
    | inr e ↦ rw e (ap (λ r. (k, y) ∷ r) (assign_new id x rest (rw e at h)))
  ]

  find_last :
      (id : ℕ) (x : A) (l : List (ℕ × A)) → find id l ≡ none → find id (l ++ (id, x) ∷ []) ≡ some x
  unfolding find
  find_last id x [] h = rw (==_refl id) refl
  find_last id x ((k, y) ∷ rest) h = elim (Bool-cases (k == id)) [
    | inl e ↦ absurd (cc (rw e at h))
    | inr e ↦ rw e (find_last id x rest (rw e at h))
  ]

  assign_last :
      (id : ℕ) (x z : A) (l : List (ℕ × A))
      → find id l ≡ none
      → assign id z (l ++ (id, x) ∷ []) ≡ l ++ (id, z) ∷ []
  unfolding find assign
  assign_last id x z [] h = rw (==_refl id) refl
  assign_last id x z ((k, y) ∷ rest) h = elim (Bool-cases (k == id)) [
    | inl e ↦ absurd (cc (rw e at h))
    | inr e ↦ rw e (ap (λ r. (k, y) ∷ r) (assign_last id x z rest (rw e at h)))
  ]

  erase_last :
      (id : ℕ) (x : A) (l : List (ℕ × A)) → find id l ≡ none → erase id (l ++ (id, x) ∷ []) ≡ l
  unfolding find erase
  erase_last id x [] h = rw (==_refl id) refl
  erase_last id x ((k, y) ∷ rest) h = elim (Bool-cases (k == id)) [
    | inl e ↦ absurd (cc (rw e at h))
    | inr e ↦ rw e (ap (λ r. (k, y) ∷ r) (erase_last id x rest (rw e at h)))
  ]

abbrev promising : List (ℕ × Option ℕ) → Supervisor → Supervisor
promising l s = record s { response_promises = l }

register_step :
    (id : ℕ) (s : Supervisor)
    → find id s.response_promises ≡ none
    → register_response id s ≡ ok (promising (s.response_promises ++ (id, none) ∷ []) s)
unfolding register_response register_found
register_step id s h =
    ap (λ o. register_found id o s) h
    ∙ ap (λ l. ok (promising l s)) (assign_new id none s.response_promises h)

-- The end of a request whose promise is the last of the list.
cleanup_step :
    (id : ℕ) (v : Option ℕ) (ps : List (ℕ × Option ℕ)) (s : Supervisor)
    → find id ps ≡ none
    → s.response_promises ≡ ps ++ (id, v) ∷ []
    → s.dead_promises ≡ []
    → cleanup_response_messages (enqueue_resolved_promise id s) ≡ promising ps s
unfolding cleanup_response_messages enqueue_resolved_promise remove_each remove_response_promise
cleanup_step id v ps s h e d = rw (d, e, erase_last id v ps h) refl

waits_step :
    (id : ℕ) (t : Supervisor)
    → find id t.response_promises ≡ some none
    → finish_send id t ≡ enqueue_resolved_promise id t
unfolding finish_send finish_found
waits_step id t e = ap (λ o. enqueue_resolved_promise id (finish_found id o t)) e

-- A request with a new identifier that no message answers in time leaves nothing behind.
pub timeout_lem :
    (id : ℕ) (s : Supervisor)
    → find id s.response_promises ≡ none
    → s.dead_promises ≡ []
    → (register_response id s >>= λ t. ok (cleanup_response_messages (finish_send id t))) ≡ ok s
timeout_lem id s h d =
    let t = promising (s.response_promises ++ (id, none) ∷ []) s in
    ap (λ r. r >>= λ t. ok (cleanup_response_messages (finish_send id t))) (register_step id s h)
    ∙ ap ok (
        ap cleanup_response_messages (waits_step id t (find_last id none s.response_promises h))
        ∙ cleanup_step id none s.response_promises t h refl d)

abbrev owning : List (ℕ × ℕ) → Supervisor → Supervisor
owning l s = record s { owned_messages = l }

respond_step :
    (id message : ℕ) (ps : List (ℕ × Option ℕ)) (t : Supervisor)
    → find id ps ≡ none
    → t.response_promises ≡ ps ++ (id, none) ∷ []
    → find id t.owned_messages ≡ none
    → process_message_response id message t
      ≡ ok (
          promising
            (ps ++ (id, some message) ∷ [])
            (owning (t.owned_messages ++ (id, message) ∷ []) t))
unfolding process_message_response respond_found set_value take_message_ownership
respond_step id message ps t h e k =
    ap (λ o. respond_found id message o t) (ap (find id) e ∙ find_last id none ps h)
    ∙ ap ok (
        ap (λ l. promising (assign id (some message) t.response_promises) (owning l t))
          (assign_new id message t.owned_messages k)
        ∙ ap (λ l. promising l (owning (t.owned_messages ++ (id, message) ∷ []) t))
            (ap (assign id (some message)) e ∙ assign_last id none (some message) ps h))

finish_step :
    (id message : ℕ) (os : List (ℕ × ℕ)) (t : Supervisor)
    → find id t.response_promises ≡ some (some message)
    → find id os ≡ none
    → t.owned_messages ≡ os ++ (id, message) ∷ []
    → finish_send id t
      ≡ enqueue_resolved_promise id (record (owning os t) { completed = t.completed ++ id ∷ [] })
unfolding finish_send finish_found release_owned_message release_found
finish_step id message os t e k o =
    ap (λ v. enqueue_resolved_promise id (finish_found id v t)) e
    ∙ (ap (λ v. enqueue_resolved_promise id (release_found id v t))
          (ap (find id) o ∙ find_last id message os k)
        ∙ ap
            (λ l.
              enqueue_resolved_promise id
                (owning l (record t { completed = t.completed ++ id ∷ [] })))
            (ap (erase id) o ∙ erase_last id message os k))

-- A request with a new identifier that a message answers leaves nothing behind but one call of the
-- message's clean-up callback: the promise and the owned message are gone.
pub answered_lem :
    (id message : ℕ) (s : Supervisor)
    → find id s.response_promises ≡ none
    → find id s.owned_messages ≡ none
    → s.dead_promises ≡ []
    → (register_response id s >>= λ t. process_message_response id message t >>= λ u.
        ok (cleanup_response_messages (finish_send id u)))
      ≡ ok (record s { completed = s.completed ++ id ∷ [] })
answered_lem id message s h k d =
    let ps = s.response_promises in
    let os = s.owned_messages in
    let t = promising (ps ++ (id, none) ∷ []) s in
    let u = promising (ps ++ (id, some message) ∷ []) (owning (os ++ (id, message) ∷ []) t) in
    ap
      (λ r. r >>= λ t. process_message_response id message t >>= λ u.
        ok (cleanup_response_messages (finish_send id u)))
      (register_step id s h)
    ∙ (ap (λ r. r >>= λ u. ok (cleanup_response_messages (finish_send id u)))
          (respond_step id message ps t h refl k)
        ∙ ap ok (
            ap cleanup_response_messages
              (finish_step id message os u (find_last id (some message) ps h) k refl)
            ∙ cleanup_step id (some message) ps
                (record (owning os u) { completed = u.completed ++ id ∷ [] }) h refl d))

-- A message that answers a request with a new identifier after its wait has ended, but before the
-- promise is cleaned up, stays owned, and its clean-up callback is not called.
pub late_lem :
    (id message : ℕ) (s : Supervisor)
    → find id s.response_promises ≡ none
    → find id s.owned_messages ≡ none
    → s.dead_promises ≡ []
    → (register_response id s >>= λ t.
        process_message_response id message (finish_send id t) >>= λ u.
        ok (cleanup_response_messages u))
      ≡ ok (record s { owned_messages = s.owned_messages ++ (id, message) ∷ [] })
unfolding enqueue_resolved_promise
late_lem id message s h k d =
    let ps = s.response_promises in
    let t = promising (ps ++ (id, none) ∷ []) s in
    let v =
      promising (ps ++ (id, some message) ∷ [])
        (owning (s.owned_messages ++ (id, message) ∷ []) t) in
    ap
      (λ r. r >>= λ t. process_message_response id message (finish_send id t) >>= λ u.
        ok (cleanup_response_messages u))
      (register_step id s h)
    ∙ (ap (λ w. process_message_response id message w >>= λ u. ok (cleanup_response_messages u))
          (waits_step id t (find_last id none ps h))
        ∙ (ap (λ r. r >>= λ u. ok (cleanup_response_messages u))
              (respond_step id message ps (enqueue_resolved_promise id t) h refl k)
            ∙ ap ok (cleanup_step id (some message) ps v h refl d)))
