-- ===== src/Session/Create.antt =====
-- `create_cable` and `connect_cable`: which cable is there afterwards, and what stays as it was.
use showtime_cpp.Common.{
  ℕ, ◌≡◌, ◌≢◌, refl, sym, subst, ap, ◌∙◌, Bool, true, false, List, [], ◌∷◌, ◌++◌, Option, none,
  some, if◌then◌else◌, Bool-cases, inl, inr,
}
use showtime_cpp.CableAddress.{CableAddress, address_eq}
use showtime_cpp.CableAddress.Order.{IsAddress, address_eq_refl, address_eq_apart}
use showtime_cpp.Uri.{Uri}
use showtime_cpp.Cable.{Cable}
use showtime_cpp.Sync
use showtime_cpp.Sync.{Sync}
use showtime_cpp.World.{Entity}
use showtime_cpp.Session.{
  Session, SessionEvent, on_cable_created, find_if, find_cable, with_found, with_cable, new_cable,
  store_cable, create_found, create_between, create_cable,
}
use showtime_cpp.Session.Cables.{
  WellFormed, resync, map_option, change-WellFormed, find_if-change, find_if-change_other,
  find_if-same, find_if-address,
}
use showtime_cpp.Session.Stored.{insert-WellFormed, find_if-insert}

-- The address that the plugs give.
abbrev pub between : Entity → Entity → CableAddress
between i o = record { input_uri = i.uri; output_uri = o.uri }

module _ (alive : ℕ → Bool) (self : ℕ) where
  with_found-WellFormed :
      (a : CableAddress) (f : Sync → Sync) (s : Session) (o : Option Cable)
      → WellFormed s.cables
      → WellFormed (with_found alive self a f s o).cables
  unfolding with_found
  with_found-WellFormed a f s none wf = wf
  with_found-WellFormed a f s (some c) wf = change-WellFormed a f s.cables wf

  pub with_cable-WellFormed :
      (a : CableAddress) (f : Sync → Sync) (s : Session)
      → WellFormed s.cables
      → WellFormed (with_cable alive self a f s).cables
  unfolding with_cable
  with_cable-WellFormed a f s wf = with_found-WellFormed a f s (find_cable a s) wf

  find-with_found :
      (a : CableAddress) (f : Sync → Sync) (s : Session) (o : Option Cable)
      → find_cable a s ≡ o
      → find_cable a (with_found alive self a f s o) ≡ map_option (resync f) o
  unfolding with_found find_cable
  find-with_found a f s none e = e
  find-with_found a f s (some c) e = find_if-change a f s.cables ∙ ap (map_option (resync f)) e

  pub find_cable-with_cable :
      (a : CableAddress) (f : Sync → Sync) (s : Session)
      → find_cable a (with_cable alive self a f s) ≡ map_option (resync f) (find_cable a s)
  unfolding with_cable
  find_cable-with_cable a f s = find-with_found a f s (find_cable a s) refl

  find-with_found_other :
      (a b : CableAddress) (f : Sync → Sync) (s : Session) (o : Option Cable)
      → address_eq a b ≡ false
      → find_cable b (with_found alive self a f s o) ≡ find_cable b s
  unfolding with_found find_cable
  find-with_found_other a b f s none d = refl
  find-with_found_other a b f s (some c) d = find_if-change_other a b f s.cables d

  pub find_cable-with_other :
      (a b : CableAddress) (f : Sync → Sync) (s : Session)
      → address_eq a b ≡ false
      → find_cable b (with_cable alive self a f s) ≡ find_cable b s
  unfolding with_cable
  find_cable-with_other a b f s d = find-with_found_other a b f s (find_cable a s) d

  with_found_lem :
      (a : CableAddress) (f : Sync → Sync) (s : Session) (o : Option Cable)
      → let t = with_found alive self a f s o in (t.world ≡ s.world) × (t.events ≡ s.events)
  unfolding with_found
  with_found_lem a f s none = (refl, refl)
  with_found_lem a f s (some c) = (refl, refl)

  -- Only the cables and the queue of the woken change.
  pub with_cable_lem :
      (a : CableAddress) (f : Sync → Sync) (s : Session)
      → let t = with_cable alive self a f s in (t.world ≡ s.world) × (t.events ≡ s.events)
  unfolding with_cable
  with_cable_lem a f s = with_found_lem a f s (find_cable a s)

  pub find_here :
      (a b : CableAddress) (f : Sync → Sync) (s : Session)
      → address_eq a b ≡ true
      → find_cable b (with_cable alive self a f s) ≡ map_option (resync f) (find_cable b s)
  unfolding find_cable
  find_here a b f s e =
      let left = find_if-same a b (with_cable alive self a f s).cables e in
      let right = find_if-same a b s.cables e in
      sym left ∙ (find_cable-with_cable a f s ∙ ap (map_option (resync f)) right)

  -- A cable that is there is told of once, when it is new.
  abbrev pub events_after : Option Cable → CableAddress → List SessionEvent → List SessionEvent
  events_after none a es = es ++ on_cable_created a ∷ []
  events_after (some c) a es = es

  new_cable_address :
      (default input output : ℕ) (i o : Uri) (s : Session)
      → (new_cable alive self default input i output o s).address
        ≡ record { input_uri = i; output_uri = o }
  unfolding new_cable
  new_cable_address default input output i o s = refl

  abbrev Created : Session → CableAddress → CableAddress → Option Cable → Session → Type 0
  Created s a b found t =
      WellFormed t.cables
      × (find_cable a t ≢ none)
      × (find_cable b t ≡ find_cable b s)
      × (t.events ≡ events_after found a s.events)

  stored :
      (input output : ℕ) (c : Cable) (s : Session) (a b : CableAddress)
      → c.address ≡ a
      → IsAddress a
      → IsAddress b
      → address_eq a b ≡ false
      → WellFormed s.cables
      → find_cable a s ≡ none
      → Created s a b none (store_cable input output c s)
  unfolding store_cable find_cable
  stored input output c s a b named ka kb d wf h =
      let kc = subst IsAddress (sym named) ka in
      let absent = subst (λ x. find_if x s.cables ≡ none) (sym named) h in
      let now =
        λ (x : CableAddress) (kx : IsAddress x). find_if-insert x c s.cables kx kc wf absent in
      (
        insert-WellFormed c s.cables kc wf,
        λ k. cc (
            sym (
              now a ka
              ∙ ap (λ x. if x then some c else find_if a s.cables)
                  (ap (λ x. address_eq x a) named ∙ address_eq_refl a))
            ∙ k),
        now b kb
            ∙ ap (λ x. if x then some c else find_if b s.cables)
                (ap (λ x. address_eq x b) named ∙ d),
        ap (λ x. s.events ++ on_cable_created x ∷ []) named,
      )

  reactivated :
      (c : Cable) (s : Session) (a b : CableAddress) (f : Sync → Sync)
      → address_eq a b ≡ false
      → WellFormed s.cables
      → find_cable a s ≡ some c
      → Created s a b (some c) (with_cable alive self c.address f s)
  unfolding find_cable
  reactivated c s a b f d wf h =
      let same = find_if-address a s.cables c h in
      (
        with_cable-WellFormed c.address f s wf,
        λ k. cc (find_here c.address a f s same, ap (map_option (resync f)) h, k),
        find_cable-with_other c.address b f s (address_eq_apart c.address a b same d),
        (with_cable_lem c.address f s).1,
      )

  found_lem :
      (default input output : ℕ) (i o : Entity) (s : Session) (b : CableAddress)
      (found : Option Cable)
      → find_cable (between i o) s ≡ found
      → IsAddress (between i o)
      → IsAddress b
      → address_eq (between i o) b ≡ false
      → WellFormed s.cables
      → Created s (between i o) b found (create_found alive self default input i output o s found).0
  unfolding create_found
  found_lem default input output i o s b none h ka kb d wf =
      stored input output (new_cable alive self default input i.uri output o.uri s) s (between i o)
        b (new_cable_address default input output i.uri o.uri s) ka kb d wf h
  found_lem default input output i o s b (some c) h ka kb d wf =
      elim (Bool-cases (Sync.is_activated c.sync)) [
        | inl e ↦ rw e (wf, (λ k. cc (h, k)), refl, refl)
        | inr e ↦ rw e (reactivated c s (between i o) b (Sync.enqueue_activation alive) d wf h)
      ]

  pub create_cable_step :
      (default input output : ℕ) (i o : Entity) (s : Session)
      → s.world.heap input ≡ some i
      → s.world.heap output ≡ some o
      → create_cable alive self default (some input) (some output) s
        ≡ create_between alive self default input i output o s
  unfolding create_cable
  create_cable_step default input output i o s hi ho = rw (create_cable, hi, ho) refl

  -- `create_cable` of two live plugs: the set of cables stays well formed, it holds a cable between
  -- the plugs, every other address finds what it found before, and the session's adaptors are told
  -- of a new cable exactly when there was none between these plugs.
  pub create_cable_lem :
      (default input output : ℕ) (i o : Entity) (s : Session) (b : CableAddress)
      → s.world.heap input ≡ some i
      → s.world.heap output ≡ some o
      → IsAddress (between i o)
      → IsAddress b
      → address_eq (between i o) b ≡ false
      → WellFormed s.cables
      → let t = (create_cable alive self default (some input) (some output) s).0 in
        WellFormed t.cables
        × (find_cable (between i o) t ≢ none)
        × (find_cable b t ≡ find_cable b s)
        × (t.events ≡ events_after (find_cable (between i o) s) (between i o) s.events)
  unfolding create_between
  create_cable_lem default input output i o s b hi ho ka kb d wf =
      rw (create_cable_step default input output i o s hi ho)
        (found_lem default input output i o s b (find_cable (between i o) s) refl ka kb d wf)
