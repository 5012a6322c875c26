-- ===== src/Heartbeat/Silence.antt =====
-- How long a client may be silent.
use showtime_cpp.Common.{
  ℕ, zero, suc, ◌+◌, ◌-◌, ◌≡◌, refl, ap, ◌∙◌, Bool, true, false, List, [], ◌∷◌, ◌++◌, ltb, arith,
  Option, none, some,
}
use showtime_cpp.Heartbeat.{
  Pulse, joined, set_heartbeat_active, check, is_over, clear_active_heartbeat,
  set_heartbeat_inactive,
}

-- What happens to a client: a heartbeat arrives, or the timer fires.
pub data Event : Type 0 where
  beats fires : Event

abbrev pub after : List Event → Pulse → Pulse
after [] p = p
after (beats ∷ es) p = after es (set_heartbeat_active p)
after (fires ∷ es) p = after es (check p)

abbrev pub rounds : ℕ → List Event
rounds zero = []
rounds (suc n) = fires ∷ rounds n

after-append : (es fs : List Event) (p : Pulse) → after (es ++ fs) p ≡ after fs (after es p)
after-append [] fs p = refl
after-append (beats ∷ es) fs p = after-append es fs (set_heartbeat_active p)
after-append (fires ∷ es) fs p = after-append es fs (check p)

quiet_rounds :
    (n m : ℕ)
    → after (rounds n) (record { heartbeat_active = false; missed_heartbeats = m })
      ≡ record { heartbeat_active = false; missed_heartbeats = m + n }
unfolding check set_heartbeat_inactive
quiet_rounds zero m =
    ap (λ x. record { heartbeat_active = false; missed_heartbeats = x }) (omega arith)
quiet_rounds (suc n) m =
    quiet_rounds n (m + 1)
    ∙ ap (λ x. record { heartbeat_active = false; missed_heartbeats = x }) (omega arith)

after_beat :
    (n : ℕ)
    → let q = after (rounds n) (record { heartbeat_active = true; missed_heartbeats = 0 }) in
      q.missed_heartbeats ≡ n - 1
unfolding check clear_active_heartbeat
after_beat zero = refl
after_beat (suc n) =
    let e : 0 + n ≡ suc n - 1 = omega arith in ap (λ q. q.missed_heartbeats) (quiet_rounds n 0) ∙ e

-- `n` rounds of the timer after a client's last heartbeat, whatever came before, `n - 1` heartbeats
-- are missed, and the client is over the limit exactly when `n` is twelve or more.
pub silence_lem :
    (before : List Event) (n : ℕ) (p : Pulse)
    → let q = after (before ++ beats ∷ rounds n) p in
      (q.missed_heartbeats ≡ n - 1) × (is_over q ≡ ltb 11 n)
unfolding is_over set_heartbeat_active
silence_lem before n p =
    let missed =
      ap (λ q. q.missed_heartbeats) (after-append before (beats ∷ rounds n) p) ∙ after_beat n in
    (missed, ap (ltb 10) missed ∙ limit n)
  where
    limit : (n : ℕ) → ltb 10 (n - 1) ≡ ltb 11 n
    limit n = ground arith

-- A client: its number, what happened before its last heartbeat, if it sent one, and for how many
-- rounds it has been silent since then, or since it joined.
pub record Client : Type 0 where
  pub number : ℕ
  pub before : Option (List Event)
  pub silent : ℕ

abbrev history : Option (List Event) → ℕ → List Event
history none n = rounds n
history (some es) n = es ++ beats ∷ rounds n

abbrev pub pulse_of : Client → ℕ × Pulse
pulse_of c = (c.number, after (history c.before c.silent) joined)

abbrev pub one_more : Client → Client
one_more c = record c { silent = suc c.silent }

-- The rounds of silence that are forgiven before a round: one less without a heartbeat, since the
-- first round after a heartbeat only clears it.
abbrev forgiven : Option (List Event) → ℕ
forgiven none = 9
forgiven (some es) = 10

abbrev pub is_silent : Client → Bool
is_silent c = ltb (forgiven c.before) c.silent
