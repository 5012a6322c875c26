-- ===== src/Session/Heard.antt =====
-- What the session hears from a cable that is deactivated: first that there is an event, and when
-- the events are processed that the cable is destroyed.
use showtime_cpp.Common.{
  ℕ, ◌≡◌, ◌⊎◌, sym, ap, ◌∙◌, Bool, true, false, ◌==◌, List, [], ◌∷◌, ◌++◌, map, arith,
  if◌then◌else◌, drop, length, drop-length, append_assoc,
}
use showtime_cpp.Sync
use showtime_cpp.Sync.{
  Sync, Note, told_has_event, told_deactivated, told_destroyed, on_deactivation, activated,
  deactivating,
}
use showtime_cpp.Sync.Told.{live, enqueue_deactivation_lem}
use showtime_cpp.Sync.Settle.{deactivation_settles}
use showtime_cpp.Session.{any_note, heard, is_event_for, is_destruction_for}

-- Whether an adaptor is in a list.
abbrev pub listens : ℕ → List ℕ → Bool
listens self [] = false
listens self (a ∷ as') = if a == self then true else listens self as'

any_note-append :
    (is : Note → Bool) (ms ns : List Note) → any_note is ns ≡ true → any_note is (ms ++ ns) ≡ true
unfolding any_note
any_note-append is [] ns h = h
any_note-append is (m ∷ ms) ns h = ground (arith, any_note-append is ms ns h)

events_heard :
    (self : ℕ) (as' : List ℕ)
    → listens self as' ≡ true
    → any_note (is_event_for self) (map told_has_event as') ≡ true
unfolding any_note is_event_for
events_heard self [] h = h
events_heard self (a ∷ as') h = ground (arith, events_heard self as')

destruction_heard :
    (self : ℕ) (as' : List ℕ)
    → listens self as' ≡ true
    → any_note (is_destruction_for self) (map told_destroyed as') ≡ true
unfolding any_note is_destruction_for
destruction_heard self [] h = h
destruction_heard self (a ∷ as') h = ground (arith, destruction_heard self as')

module _ (alive : ℕ → Bool) (self : ℕ) (s : Sync) (a : ℕ) (rest : List ℕ)
    (st : (s.core.status ≡ activated) ⊎ (s.core.status ≡ deactivating))
    (quiet : s.events.events ≡ []) (lives : live alive s ≡ a ∷ rest)
    (hears : listens self (a ∷ rest) ≡ true) where
  queued_told :
      (Sync.enqueue_deactivation alive s).core.told ≡ s.core.told ++ map told_has_event (a ∷ rest)
  queued_told =
      ap (λ t. t.core.told) (enqueue_deactivation_lem alive s st)
      ∙ ap (λ l. s.core.told ++ map told_has_event l) lives

  pub heard_event : heard (is_event_for self) s (Sync.enqueue_deactivation alive s) ≡ true
  unfolding heard
  heard_event =
      ap (λ l. any_note (is_event_for self) (drop (length s.core.told) l)) queued_told
      ∙ (ap (any_note (is_event_for self)) (drop-length s.core.told (map told_has_event (a ∷ rest)))
          ∙ events_heard self (a ∷ rest) hears)

  pub heard_destruction :
      heard
        (is_destruction_for self)
        (Sync.enqueue_deactivation alive s)
        (Sync.process_events alive (Sync.enqueue_deactivation alive s))
      ≡ true
  unfolding heard
  heard_destruction =
      let q = map told_has_event (a ∷ rest) in
      let d = map told_deactivated (a ∷ rest) in
      let e = map told_destroyed (a ∷ rest) in
      let told = (deactivation_settles alive s a rest st quiet lives).1 in
      ap
        (λ l. any_note (is_destruction_for self) (
          drop (length l)
            (Sync.process_events alive (Sync.enqueue_deactivation alive s)).core.told))
        queued_told
      ∙ (ap (λ l. any_note (is_destruction_for self) (drop (length (s.core.told ++ q)) l))
            (told ∙ sym (append_assoc s.core.told q (d ++ on_deactivation ∷ e)))
          ∙ (ap (any_note (is_destruction_for self))
                (drop-length (s.core.told ++ q) (d ++ on_deactivation ∷ e))
              ∙ any_note-append (is_destruction_for self) d (on_deactivation ∷ e)
                  (unfold any_note is_destruction_for in destruction_heard self (a ∷ rest) hears)))
