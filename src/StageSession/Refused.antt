-- ===== src/StageSession/Refused.antt =====
-- Requests for a cable that are answered with an error leave the stage as it was.
use showtime_cpp.Common.{
  ℕ, ◌≡◌, ◌≢◌, refl, sym, ◌∙◌, subst, Bool, false, List, [], ◌∷◌, Option, none, some, Bool-cases,
  inl, inr, Result, ok, thrown, Error, ◌⊎◌, leb, ◌>>=◌,
}
use showtime_cpp.Uri.{Uri}
use showtime_cpp.CableAddress.{CableAddress}
use showtime_cpp.Cable.{Cable}
use showtime_cpp.World.{World, Entity}
use showtime_cpp.World.Plug
use showtime_cpp.Session
use showtime_cpp.Session.{Session}
use showtime_cpp.Session.Live.{Live, destroy-Live, create_cable-some}
use showtime_cpp.StageSession.{
  Stage, Signal, is_ok, signal_empty, bad_cable_connect_request, Content, whisper, whisper_all,
  broadcast, destroy_cable, destroy_each, make_room, child_cables, cable_destroy, start_connection,
  connect_plugs, with_plugs, create_if_new, create_cable_handler, deref, performer_of,
}

-- The stage is the one before and the signal an error, unless the answer is still to come.
abbrev Fine : Stage → Result (Stage × Signal) → Type 0
Fine st (thrown e) = Unit
Fine st (ok r) = (r.1 ≡ signal_empty) ⊎ ((r.0 ≡ st) × (is_ok r.1 ≡ false))

bind-Fine {ℓ} :
    {A : Type ℓ} (st : Stage) (x : Result A) (f : A → Result (Stage × Signal))
    → ((a : A) → x ≡ ok a → Fine st (f a))
    → Fine st (x >>= f)
bind-Fine st (thrown e) f h = tt
bind-Fine st (ok a) f h = h a refl

later-Fine : (st : Stage) (r : Result Stage) → Fine st (r >>= λ t. ok (t, signal_empty))
later-Fine st (thrown e) = tt
later-Fine st (ok t) = inl refl

deref-Live : (p : Option ℕ) (w : World) (r : ℕ × Entity) → deref p w ≡ ok r → Live r.0 w
unfolding deref
deref-Live none w r h = absurd (cc h)
deref-Live (some p) w r h = go (w.heap p) refl h
  where
    go :
        (o : Option Entity)
        → w.heap p ≡ o
        → (elim o [ none ↦ thrown Error.invalid_read | some e ↦ ok (p, e) ]) ≡ ok r
        → Live r.0 w
    go none e k = absurd (cc k)
    go (some d) e k = (d, (cc (e, k)))

module _ (alive : ℕ → Bool) (self : ℕ) (reaches : ℕ → Bool) where
  whisper_session :
      (to : ℕ) (m : Content) (st : Stage)
      → (whisper alive self reaches to m st).session ≡ st.session
  unfolding whisper
  whisper_session to m st = elim (Bool-cases (reaches to)) [ inl e ↦ rw e refl | inr e ↦ rw e refl ]

  whisper_all_session :
      (ps : List ℕ) (m : Content) (st : Stage)
      → (whisper_all alive self reaches ps m st).session ≡ st.session
  unfolding whisper_all
  whisper_all_session [] m st = refl
  whisper_all_session (p ∷ ps) m st =
      whisper_all_session ps m (whisper alive self reaches p m st) ∙ whisper_session p m st

  destroy_each-Live :
      (p : ℕ) (as' : List CableAddress) (st : Stage)
      → Live p st.session.world
      → Live p (destroy_each alive self reaches as' st).session.world
  unfolding destroy_each destroy_cable broadcast
  destroy_each-Live p [] st l = l
  destroy_each-Live p (a ∷ as') st l =
      destroy_each-Live p as' (destroy_cable alive self reaches (some a) st) (
        subst (λ s. Live p (Session.destroy_cable_complete alive self (some a) s).world)
          (sym (whisper_all_session st.clients (cable_destroy a) st))
          (destroy-Live alive self p a st.session l))

  make_room-Live :
      (p : ℕ) (i : Entity) (st : Stage)
      → Live p st.session.world
      → Live p (make_room alive self reaches i st).session.world
  unfolding make_room
  make_room-Live p i st l =
      elim (Bool-cases (leb (Plug.max_connected_cables i) (Plug.num_cables i))) [
        | inl e ↦ rw e (destroy_each-Live p (child_cables i.cables st.session []) st l)
        | inr e ↦ rw e l
      ]

  start_connection-Fine :
      (a : CableAddress) (input_path output_path : Uri) (sender id : ℕ) (st made : Stage)
      → Fine st (start_connection alive self reaches a input_path output_path sender id made)
  unfolding start_connection
  start_connection-Fine a input_path output_path sender id st made =
      bind-Fine st (performer_of alive self reaches input_path made) _ (λ i hi.
        bind-Fine st (performer_of alive self reaches output_path made) _ (λ o ho. later-Fine st _))

  connect_plugs-Fine :
      (default input : ℕ) (i : Entity) (output : ℕ) (o : Entity) (sender id : ℕ) (st : Stage)
      → Live input st.session.world
      → Live output st.session.world
      → Fine st (connect_plugs alive self reaches default input i output o sender id st)
  unfolding connect_plugs
  connect_plugs-Fine default input i output o sender id st li lo = go created.1 (
      create_cable-some alive self default input output t.session (make_room-Live input i st li)
        (make_room-Live output i st lo))
    where
      t : Stage
      t = make_room alive self reaches i st

      created : Session × Option CableAddress
      created = Session.create_cable alive self default (some input) (some output) t.session

      made : Stage
      made = record t { session = created.0 }

      go :
          (x : Option CableAddress)
          → x ≢ none
          → Fine st (elim x [
            | none ↦ ok (made, bad_cable_connect_request)
            | some a ↦ start_connection alive self reaches a i.uri o.uri sender id made
          ])
      go none h = absurd (h refl)
      go (some a) h = start_connection-Fine a i.uri o.uri sender id st made

  with_plugs-Fine :
      (default : ℕ) (input output : Option ℕ) (sender id : ℕ) (st : Stage)
      → Fine st (with_plugs alive self reaches default input output sender id st)
  unfolding with_plugs
  with_plugs-Fine default none output sender id st = inr (refl, refl)
  with_plugs-Fine default (some input) none sender id st = inr (refl, refl)
  with_plugs-Fine default (some input) (some output) sender id st =
      bind-Fine st (deref (some input) st.session.world) _ (λ i hi.
        bind-Fine st (deref (some output) st.session.world) _ (λ o ho.
          connect_plugs-Fine default i.0 i.1 o.0 o.1 sender id st
            (deref-Live (some input) st.session.world i hi)
            (deref-Live (some output) st.session.world o ho)))

  create_if_new-Fine :
      (default : ℕ) (a : CableAddress) (found : Option Cable) (sender id : ℕ) (st : Stage)
      → Fine st (create_if_new alive self reaches default a found sender id st)
  unfolding create_if_new
  create_if_new-Fine default a (some c) sender id st = inr (refl, refl)
  create_if_new-Fine default a none sender id st = with_plugs-Fine default _ _ sender id st

  -- A request for a cable that is answered with a signal at once is answered with an error, and
  -- leaves the stage as it was: no cable was made or destroyed and no message was sent.
  pub refused_unchanged :
      (default : ℕ) (a : CableAddress) (sender id : ℕ) (st t : Stage) (sg : Signal)
      → create_cable_handler alive self reaches default a sender id st ≡ ok (t, sg)
      → sg ≢ signal_empty
      → (t ≡ st) × (is_ok sg ≡ false)
  unfolding create_cable_handler
  refused_unchanged default a sender id st t sg h n =
      elim (subst (Fine st) h
        (create_if_new-Fine default a (Session.find_cable a st.session) sender id st)) [
          | inl e ↦ absurd (n e)
          | inr e ↦ e
        ]
