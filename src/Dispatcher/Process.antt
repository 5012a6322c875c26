-- ===== src/Dispatcher/Process.antt =====
-- The order in which events are shown, and why the loop ends.
use showtime_cpp.Common.{
  ℕ, zero, suc, ◌+◌, ◌<◌, ◌≡◌, refl, ◌∙◌, inl, inr, true, false, Bool, List, [], ◌∷◌, ◌++◌,
  append-nil, some, length, keep, if◌then◌else◌, Bool-cases, arith,
}
use showtime_cpp.Dispatcher.{
  Dispatcher, Shown, EventStatus, failed, success, merge, show_each, finish, process, drain, defer,
  invoke, invoke_each, process_events,
}

module _ {ℓ κ} {E : Type ℓ} {S : Type κ} (run : ℕ → E → S → Shown E S) where
  -- The state after an event is shown to some adaptors, in their order.
  abbrev pub tell : E → List ℕ → S → S
  tell e [] s = s
  tell e (a ∷ as') s = tell e as' (run a e s).state

  -- Whether one of them throws.
  abbrev pub throws : E → List ℕ → S → Bool
  throws e [] s = false
  throws e (a ∷ as') s = if (run a e s).threw then true else throws e as' (run a e s).state

module _ {ℓ κ} {E : Type ℓ} {S : Type κ} (alive : ℕ → Bool) (run : ℕ → E → S → Shown E S)
    (complete : E → EventStatus → S → S) where
  -- One event: every live adaptor sees it once, and then the callback is told whether one threw.
  abbrev pub handle : List ℕ → E → S → S
  handle adaptors e s =
      complete e (if throws run e (keep alive adaptors) s then failed else success)
        (tell run e (keep alive adaptors) s)

  -- The events in their order.
  abbrev pub handle_all : List ℕ → List E → S → S
  handle_all adaptors [] s = s
  handle_all adaptors (e ∷ events) s = handle_all adaptors events (handle adaptors e s)

  show_each_lem :
      (e : E) (as' : List ℕ) (r : Shown E S)
      → ((show_each alive run complete e as' r).state ≡ tell run e (keep alive as') r.state)
        × ((show_each alive run complete e as' r).threw
            ≡ (if r.threw then true else throws run e (keep alive as') r.state))
  unfolding show_each merge
  show_each_lem e [] r = (refl, ground arith)
  show_each_lem e (a ∷ as') r = elim (Bool-cases (alive a)) [
    | inl live ↦
        rw (live, show_each) (ground (arith, show_each_lem e as' (merge r (run a e r.state))))
    | inr dead ↦ rw (dead, show_each) (show_each_lem e as' r)
  ]

  process_lem :
      (as' : List ℕ) (e : E) (s : S) → (process alive run complete as' e s).state ≡ handle as' e s
  unfolding process finish
  process_lem as' e s =
      let (state, threw) =
        show_each_lem e as' (record { state = s; deferred = []; threw = false }) in
      rw (state, threw)

  shown_deferred :
      ((a : ℕ) (e : E) (s : S) → (run a e s).deferred ≡ [])
      → (e : E) (as' : List ℕ) (r : Shown E S) → r.deferred ≡ []
      → (show_each alive run complete e as' r).deferred ≡ []
  unfolding show_each merge
  shown_deferred quiet e [] r h = h
  shown_deferred quiet e (a ∷ as') r h = elim (Bool-cases (alive a)) [
    | inl live ↦
        rw (live, show_each)
          (shown_deferred quiet e as' (merge r (run a e r.state)) (rw (h, quiet a e r.state)))
    | inr dead ↦ rw (dead, show_each) (shown_deferred quiet e as' r h)
  ]

  drain_step :
      (fuel : ℕ) (as' : List ℕ) (e : E) (es : List E) (s : S)
      → drain alive run complete (suc fuel) as' (e ∷ es) s
        ≡ drain alive run complete fuel as'
            (es ++ (process alive run complete as' e s).deferred)
            (process alive run complete as' e s).state
  unfolding drain
  drain_step fuel as' e es s = refl

  drain_in_order :
      ((a : ℕ) (e : E) (s : S) → (run a e s).deferred ≡ [])
      → (as' : List ℕ) (es : List E) (s : S)
      → drain alive run complete (suc (length es)) as' es s ≡ some (handle_all as' es s)
  drain_in_order quiet as' [] s = unfold drain in refl
  drain_in_order quiet as' (e ∷ es) s =
      drain_step (suc (length es)) as' e es s
      ∙ rw (quiet_e, append-nil es, process_lem as' e s)
          (drain_in_order quiet as' es (handle as' e s))
    where
      quiet_e : (process alive run complete as' e s).deferred ≡ []
      quiet_e = unfold process finish in shown_deferred quiet e as' _ refl

  -- If no event defers another, every event in the queue is shown to every live adaptor once, in
  -- the order in which they were deferred; then its callback learns whether one threw. Fuel of one
  -- more than the events is enough, and the queue is empty afterwards.
  pub process_events_in_order :
      ((a : ℕ) (e : E) (s : S) → (run a e s).deferred ≡ [])
      → (d : Dispatcher E) (s : S)
      → process_events alive run complete (suc (length d.events)) d s
        ≡ some (record d { events = []; has_event = false }, handle_all d.adaptors d.events s)
  unfolding process_events
  process_events_in_order quiet d s =
      rw (drain_in_order quiet d.adaptors d.events s, process_events)

  -- The sizes of some events.
  abbrev pub total_weight : (E → ℕ) → List E → ℕ
  total_weight weight [] = 0
  total_weight weight (e ∷ es) = weight e + total_weight weight es

  total_weight-append :
      (weight : E → ℕ) (es fs : List E)
      → total_weight weight (es ++ fs) ≡ total_weight weight es + total_weight weight fs
  total_weight-append weight [] fs = omega arith
  total_weight-append weight (e ∷ es) fs = omega (arith, total_weight-append weight es fs)

  drain_total :
      (weight : E → ℕ) (as' : List ℕ)
      → ((e : E) (s : S)
          → total_weight weight (process alive run complete as' e s).deferred < weight e)
      → (fuel : ℕ) (es : List E) (s : S) → total_weight weight es < fuel
      → (s' : S) × (drain alive run complete fuel as' es s ≡ some s')
  unfolding drain
  drain_total weight as' less zero es s h = absurd (omega arith)
  drain_total weight as' less (suc fuel) [] s h = (s, refl)
  drain_total weight as' less (suc fuel) (e ∷ es) s h =
      drain_total weight as' less fuel (es ++ (process alive run complete as' e s).deferred)
        (process alive run complete as' e s).state
        (omega (
          arith,
          less e s,
          total_weight-append weight es (process alive run complete as' e s).deferred,
        ))

  -- Handlers may defer further events: if what an event defers to the dispatcher is always lighter
  -- than the event, the loop ends, with the queue empty, on any fuel above the weight of the queue.
  pub process_events_total :
      (weight : E → ℕ) (d : Dispatcher E)
      → ((e : E) (s : S)
          → total_weight weight (process alive run complete d.adaptors e s).deferred < weight e)
      → (fuel : ℕ) (s : S) → total_weight weight d.events < fuel
      → (s' : S) × (process_events alive run complete fuel d s
          ≡ some (record d { events = []; has_event = false }, s'))
  unfolding process_events
  process_events_total weight d less fuel s h =
      let (s', e) = drain_total weight d.adaptors less fuel d.events s h in
      (s', rw (e, process_events))

-- A function called for each of some adaptors, in their order.
abbrev pub for_each {κ} : {S : Type κ} → (ℕ → S → S) → List ℕ → S → S
for_each event [] s = s
for_each event (a ∷ as') s = for_each event as' (event a s)

invoke_each_lem {κ} :
    {S : Type κ} (alive : ℕ → Bool) (event : ℕ → S → S) (as' : List ℕ) (s : S)
    → invoke_each alive event as' s ≡ for_each event (keep alive as') s
unfolding invoke_each
invoke_each_lem alive event [] s = refl
invoke_each_lem alive event (a ∷ as') s = elim (Bool-cases (alive a)) [
  | inl e ↦ rw (e, invoke_each) (invoke_each_lem alive event as' (event a s))
  | inr e ↦ rw (e, invoke_each) (invoke_each_lem alive event as' s)
]

-- `invoke` calls each live adaptor once, in the order of the set.
pub invoke_lem {ℓ κ} :
    {E : Type ℓ} {S : Type κ} (alive : ℕ → Bool) (event : ℕ → S → S) (d : Dispatcher E) (s : S)
    → invoke alive event d s ≡ for_each event (keep alive d.adaptors) s
unfolding invoke
invoke_lem alive event d s = invoke_each_lem alive event d.adaptors s

-- A deferred event goes to the end of the queue, and the adaptors stay.
pub defer_lem {ℓ} :
    {E : Type ℓ} (e : E) (d : Dispatcher E)
    → ((defer e d).adaptors ≡ d.adaptors)
      × ((defer e d).events ≡ d.events ++ e ∷ [])
      × ((defer e d).has_event ≡ true)
unfolding defer
defer_lem e d = (refl, refl, refl)
