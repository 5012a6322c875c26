-- ===== src/Dispatcher/Tests.antt =====
-- A dispatcher of numbers: each live adaptor writes down what it is shown, and an event in `chain`
-- defers the number below it.
use showtime_cpp.Common.{
  ℕ, zero, suc, ◌+◌, ◌*◌, ◌<◌, ◌≡◌, refl, true, false, Bool, List, [], ◌∷◌, ◌++◌, some, none, arith,
}
use showtime_cpp.Dispatcher.{
  Dispatcher, Shown, EventStatus, new, add_adaptor, defer, process, process_events,
}
use showtime_cpp.Dispatcher.Process.{process_events_in_order, process_events_total, total_weight}

abbrev all_alive : ℕ → Bool
all_alive a = true

abbrev note_down : ℕ → ℕ → List ℕ → Shown ℕ (List ℕ)
note_down a e s = record { state = s ++ (a * 10 + e) ∷ []; deferred = []; threw = false }

abbrev below : ℕ → List ℕ
below zero = []
below (suc n) = n ∷ []

abbrev chain : ℕ → ℕ → List ℕ → Shown ℕ (List ℕ)
chain a e s = record { state = s ++ e ∷ []; deferred = below e; threw = false }

abbrev no_callback : ℕ → EventStatus → List ℕ → List ℕ
no_callback e st s = s

abbrev pair : Dispatcher ℕ
pair = record { adaptors = 1 ∷ 3 ∷ []; events = 7 ∷ 8 ∷ []; has_event = true; wake = none }

abbrev single : Dispatcher ℕ
single = record { adaptors = 1 ∷ []; events = 2 ∷ []; has_event = true; wake = some 1 }

deferred_twice : (defer 8 (defer 7 (new {E = ℕ} 1))).events ≡ 7 ∷ 8 ∷ []
unfolding defer new
deferred_twice = refl

added_in_order : (add_adaptor 3 (add_adaptor 5 (new {E = ℕ} 1))).adaptors ≡ 1 ∷ 3 ∷ 5 ∷ []
unfolding add_adaptor new
added_in_order = refl

process_events_in_order_example :
    process_events all_alive note_down no_callback 3 pair []
    ≡ some (record pair { events = []; has_event = false }, 17 ∷ 37 ∷ 18 ∷ 38 ∷ [])
process_events_in_order_example =
    process_events_in_order all_alive note_down no_callback (λ a e s. refl) pair []

chain_lighter :
    (e : ℕ) (s : List ℕ)
    → total_weight all_alive chain no_callback suc
        (process all_alive chain no_callback (1 ∷ []) e s).deferred
      < suc e
unfolding process
chain_lighter zero s = omega arith
chain_lighter (suc e) s = omega arith

process_events_total_example :
    (s' : List ℕ) × (process_events all_alive chain no_callback 4 single []
      ≡ some (record single { events = []; has_event = false }, s'))
process_events_total_example =
    process_events_total all_alive chain no_callback suc single chain_lighter 4 [] (omega arith)
