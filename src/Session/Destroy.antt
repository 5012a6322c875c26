-- ===== src/Session/Destroy.antt =====
-- A cable from `destroy_cable_complete` to the reaper.
use showtime_cpp.Common.{
  ℕ, ◌≡◌, ◌⊎◌, refl, sym, subst, ap, ◌∙◌, Bool, true, false, List, [], ◌∷◌, ◌++◌, Option, none,
  some, All, if◌then◌else◌,
}
use showtime_cpp.CableAddress.{CableAddress, address_eq}
use showtime_cpp.CableAddress.Order.{IsAddress, address_eq_sym, address_eq_apart}
use showtime_cpp.Cable.{Cable}
use showtime_cpp.Sync
use showtime_cpp.Sync.{Sync, activated, deactivating}
use showtime_cpp.Sync.Told.{live}
use showtime_cpp.Session.{
  Session, on_cable_destroyed, address_of, find_if, find_cable, with_found, with_cable, heard,
  is_event_for, is_destruction_for, process_found, process_cable, process_woken, clean_up,
  process_synchronisables, destroy_cable_complete, unplug_both, change,
}
use showtime_cpp.Session.Cables.{WellFormed, resync, map_option, find_if-address}
use showtime_cpp.Session.Stored.{erase-WellFormed, find_if-erase}
use showtime_cpp.Session.Create.{
  with_cable-WellFormed, find_cable-with_cable, find_cable-with_other,
}
use showtime_cpp.Session.Heard.{listens, heard_event, heard_destruction}

find_if-IsAddress :
    (a : CableAddress) (cs : List Cable) (c : Cable)
    → All (λ c. IsAddress c.address) cs
    → find_if a cs ≡ some c
    → IsAddress c.address
unfolding find_if
find_if-IsAddress a [] c ks h = cc
find_if-IsAddress a (d ∷ cs) c (kd, ks) h =
    go (address_eq d.address a) (find_if-IsAddress a cs c ks) h
  where
    address_or : Cable → Option Cable → CableAddress
    address_or d none = d.address
    address_or d (some x) = x.address

    go :
        (b : Bool)
        → (find_if a cs ≡ some c → IsAddress c.address)
        → (if b then some d else find_if a cs) ≡ some c
        → IsAddress c.address
    go true later k = subst IsAddress (ap (λ o. address_or d o) k) kd
    go false later k = later k

-- The operation of the reaper for one cable.
reap_lem :
    (a b : CableAddress) (cs : List Cable) (c : Cable)
    → IsAddress a
    → IsAddress b
    → address_eq a b ≡ false
    → WellFormed cs
    → find_if a cs ≡ some c
    → let left = clean_up (a ∷ []) cs in
      WellFormed left × (find_if a left ≡ none) × (find_if b left ≡ find_if b cs)
unfolding clean_up address_of
reap_lem a b cs c ka kb d wf h =
    let kc = find_if-IsAddress a cs c wf.keys h in
    let same = find_if-address a cs c h in
    let gone =
      find_if-erase a c.address cs ka kc wf
      ∙ ap (λ t. if t then none else find_if a cs) (address_eq_sym a c.address ∙ same) in
    let apart : address_eq b c.address ≡ false =
      address_eq_sym b c.address ∙ address_eq_apart c.address a b same d in
    let other =
      find_if-erase b c.address cs kb kc wf ∙ ap (λ t. if t then none else find_if b cs) apart in
    rw (h, clean_up) (erase-WellFormed c.address cs wf, gone, other)

module _ (alive : ℕ → Bool) (self : ℕ) where
  with_cable_step :
      (a : CableAddress) (f : Sync → Sync) (s : Session) (c : Cable)
      → find_cable a s ≡ some c
      → with_cable alive self a f s ≡ record s {
        cables = change a (resync f) s.cables;
        woken = if heard (is_event_for self) c.sync (f c.sync) then s.woken ++ a ∷ [] else s.woken;
      }
  unfolding with_cable
  with_cable_step a f s c h = ap (with_found alive self a f s) h ∙ unfold with_found in refl

  -- A cable that the session does not hear from again is not woken again.
  process_step :
      (a : CableAddress) (s : Session) (c : Cable)
      → find_cable a s ≡ some c
      → heard (is_destruction_for self) c.sync (Sync.process_events alive c.sync) ≡ true
      → process_cable alive self a s ≡ (
          let t = with_cable alive self a (Sync.process_events alive) s in
          record t { cleanups = t.cleanups ++ a ∷ [] })
  unfolding process_cable
  process_step a s c h k = ap (process_found alive self a s) h ∙ unfold process_found in rw k refl

  finish : Session → Session
  finish u = record u { cables = clean_up u.cleanups u.cables; cleanups = [] }

  synchronisables_step :
      (a : CableAddress) (s t : Session)
      → s.woken ≡ a ∷ []
      → process_cable alive self a (record s { woken = [] }) ≡ t
      → process_synchronisables alive self s
        ≡ record t { cables = clean_up t.cleanups t.cables; cleanups = [] }
  unfolding process_synchronisables process_woken finish
  synchronisables_step a s t e p =
      ap (λ w. finish (process_woken alive self w (record s { woken = [] }))) e ∙ ap finish p

  -- What a cable that is destroyed ends as: `a` is gone, and `b` is found as before.
  abbrev Gone : CableAddress → CableAddress → Session → Session → Type 0
  Gone a b s t =
      WellFormed t.cables
      × (find_cable a t ≡ none)
      × (find_cable b t ≡ find_cable b s)
      × (t.cleanups ≡ [])

  -- The second half: a cable whose deactivation is queued, and that alone was woken.
  reap_queued :
      (a b : CableAddress) (s : Session) (c : Cable)
      → IsAddress a
      → IsAddress b
      → address_eq a b ≡ false
      → WellFormed s.cables
      → find_cable a s ≡ some c
      → heard (is_destruction_for self) c.sync (Sync.process_events alive c.sync) ≡ true
      → s.woken ≡ a ∷ []
      → s.cleanups ≡ []
      → Gone a b s (process_synchronisables alive self s)
  unfolding find_cable
  reap_queued a b s c ka kb d wf h k woken cleanups =
      let s' : Session = record s { woken = [] } in
      let h' : find_cable a s' ≡ some c = h in
      let t = with_cable alive self a (Sync.process_events alive) s' in
      let found : find_cable a t ≡ some (resync (Sync.process_events alive) c) =
        find_cable-with_cable alive self a (Sync.process_events alive) s'
        ∙ ap (map_option (resync (Sync.process_events alive))) h' in
      let others : find_cable b t ≡ find_cable b s' =
        find_cable-with_other alive self a b (Sync.process_events alive) s' d in
      let good : WellFormed t.cables =
        with_cable-WellFormed alive self a (Sync.process_events alive) s' wf in
      let named : t.cleanups ++ a ∷ [] ≡ a ∷ [] =
        ap (λ l. l ++ a ∷ [])
          (ap (λ u. u.cleanups) (with_cable_step a (Sync.process_events alive) s' c h')
            ∙ cleanups) in
      let reaped =
        reap_lem a b t.cables (resync (Sync.process_events alive) c) ka kb d good found in
      subst (Gone a b s) (sym (synchronisables_step a s _ woken (process_step a s' c h' k))) (
        subst (λ l. Gone a b s (record t { cables = clean_up l t.cables; cleanups = [] }))
          (sym named) (reaped.0, reaped.1, reaped.2 ∙ others, refl))

  destroyed_step :
      (a : CableAddress) (s : Session)
      → destroy_cable_complete alive self (some a) s
        ≡ with_cable alive self a (Sync.enqueue_deactivation alive) (record s {
          world = unplug_both a s.world;
          events = s.events ++ on_cable_destroyed a ∷ [];
        })
  unfolding destroy_cable_complete
  destroyed_step a s = refl

  -- A cable of the session that is activated or deactivating, as it is not while it is still
  -- activating, is destroyed while no event, no other cable and no clean-up waits, and its session
  -- still listens to it; the texts of the addresses hold no NUL and the set is well formed: after the next `process_events` the address finds nothing, another address finds
  -- what it found before, the set of cables is well formed, and no clean-up is left.
  pub destroyed_is_reaped :
      (a b : CableAddress) (s : Session) (c : Cable) (x : ℕ) (rest : List ℕ)
      → IsAddress a
      → IsAddress b
      → address_eq a b ≡ false
      → WellFormed s.cables
      → find_cable a s ≡ some c
      → (c.sync.core.status ≡ activated) ⊎ (c.sync.core.status ≡ deactivating)
      → c.sync.events.events ≡ []
      → live alive c.sync ≡ x ∷ rest
      → listens self (x ∷ rest) ≡ true
      → s.woken ≡ []
      → s.cleanups ≡ []
      → let t = process_synchronisables alive self (destroy_cable_complete alive self (some a) s) in
        WellFormed t.cables
        × (find_cable a t ≡ none)
        × (find_cable b t ≡ find_cable b s)
        × (t.cleanups ≡ [])
  unfolding find_cable
  destroyed_is_reaped a b s c x rest ka kb d wf h st quiet lives hears woken cleanups =
      let f = Sync.enqueue_deactivation alive in
      let s' : Session = record s {
        world = unplug_both a s.world;
        events = s.events ++ on_cable_destroyed a ∷ [];
      } in
      let q = with_cable alive self a f s' in
      let step = with_cable_step a f s' c h in
      let found : find_cable a q ≡ some (resync f c) =
        find_cable-with_cable alive self a f s' ∙ ap (map_option (resync f)) h in
      let others : find_cable b q ≡ find_cable b s = find_cable-with_other alive self a b f s' d in
      let waits : q.woken ≡ a ∷ [] =
        ap (λ u. u.woken) step
        ∙ (ap (λ t. if t then s.woken ++ a ∷ [] else s.woken)
              (heard_event alive self c.sync x rest st quiet lives hears)
            ∙ ap (λ l. l ++ a ∷ []) woken) in
      let gone =
        reap_queued a b q (resync f c) ka kb d (with_cable-WellFormed alive self a f s' wf) found
          (heard_destruction alive self c.sync x rest st quiet lives hears) waits
          (ap (λ u. u.cleanups) step ∙ cleanups) in
      subst (λ u. Gone a b s (process_synchronisables alive self u)) (sym (destroyed_step a s))
        (gone.0, gone.1, gone.2 ∙ others, gone.3)
