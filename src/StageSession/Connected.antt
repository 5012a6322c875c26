-- ===== src/StageSession/Connected.antt =====
-- Connecting two clients: what is sent at once, what the response brings, and what is not sent.
use showtime_cpp.Common.{
  ℕ, ◌≡◌, ◌≢◌, ◌⊎◌, refl, ap, ◌∙◌, Bool, true, false, List, [], ◌∷◌, ◌++◌, map, append_assoc,
  append-nil, some, ok, Bool-cases, inl, inr, arith, ◌==◌, ==_refl,
}
use showtime_cpp.Uri.{Uri, equal}
use showtime_cpp.Uri.Order.{equal_refl}
use showtime_cpp.CableAddress.{CableAddress}
use showtime_cpp.Cable.{Cable}
use showtime_cpp.Session
use showtime_cpp.World
use showtime_cpp.World.{World, Entity}
use showtime_cpp.StageSession.{
  Stage, Signal, signal_ok, signal_empty, Content, cable_create, handshake_listen, handshake_start,
  handshake_stop, signal_message, OnConnected, finish_cable, Handshake, has_connected_subscriber,
  any_equal, add_subscriber, is_ok, whisper, whisper_all, broadcast, reply_with_signal, request,
  connect_entities, connect_finished, publish_cable, publish_found, reply_to,
  complete_client_connection, run_callback, answer, deref, with_world, performer_of,
  start_connection,
}

any_equal-append : (u : Uri) (vs : List Uri) → any_equal u (vs ++ u ∷ []) ≡ true
unfolding any_equal
any_equal-append u [] = rw (equal_refl u) refl
any_equal-append u (v ∷ vs) = ground (arith, any_equal-append u vs)

added_is_connected : (o i : Entity) → has_connected_subscriber (add_subscriber i.uri o) i ≡ true
unfolding has_connected_subscriber add_subscriber
added_is_connected o i = elim (Bool-cases (any_equal i.uri o.subscribers)) [
  | inl e ↦ rw (e, e) refl
  | inr e ↦ rw e (any_equal-append i.uri o.subscribers)
]

abbrev say : List (ℕ × Content) → Stage → Stage
say l st = record st { sent = st.sent ++ l }

modify_step :
    (p : ℕ) (f : Entity → Entity) (e : Entity) (w : World)
    → w.heap p ≡ some e
    → World.modify p f w ≡ World.put p (f e) w
unfolding World.modify World.put
modify_step p f e w h = rw (World.modify, h) refl

deref_step : (p : ℕ) (e : Entity) (w : World) → w.heap p ≡ some e → deref (some p) w ≡ ok (p, e)
unfolding deref
deref_step p e w h = rw (deref, h) refl

put_same : (p : ℕ) (e : Entity) (w : World) → (World.put p e w).heap p ≡ some e
unfolding World.put
put_same p e w = rw (==_refl p) refl

module _ (alive : ℕ → Bool) (self : ℕ) (reaches : ℕ → Bool)
    (all_reached : (p : ℕ) → reaches p ≡ true) where
  whisper_lem :
      (to : ℕ) (m : Content) (st : Stage)
      → whisper alive self reaches to m st ≡ record st { sent = st.sent ++ (to, m) ∷ [] }
  unfolding whisper
  whisper_lem to m st = rw (all_reached to) refl

  whisper_all_lem :
      (ps : List ℕ) (m : Content) (st : Stage)
      → whisper_all alive self reaches ps m st
        ≡ record st { sent = st.sent ++ map (λ p. (p, m)) ps }
  unfolding whisper_all
  whisper_all_lem [] m st = simp append-nil
  whisper_all_lem (p ∷ ps) m st =
      whisper_all_lem ps m (whisper alive self reaches p m st)
      ∙ (ap (say (map (λ p. (p, m)) ps)) (whisper_lem p m st) ∙ simp append_assoc)

  -- Two clients that are not connected: the input client is asked to listen, the output client to
  -- start, in this order, one callback is kept, and the session stays as it is.
  pub connect_entities_lem :
      (output input : ℕ) (o i : Entity) (callback : OnConnected) (st : Stage)
      → has_connected_subscriber o i ≡ false
      → equal o.uri i.uri ≡ false
      → let t = connect_entities alive self reaches output o input i callback st in
        (t.sent ≡ st.sent ++ (input, handshake_listen o.uri) ∷ (output, handshake_start i.uri) ∷ [])
        × (t.handshakes
            ≡ st.handshakes
              ++ record { output_client = output; input_client = input; on_connected = callback }
                ∷ [])
        × (t.session ≡ st.session)
  unfolding connect_entities request
  connect_entities_lem output input o i callback st h k =
      rw (h, k, all_reached input, all_reached output)
        (
          append_assoc st.sent ((input, handshake_listen o.uri) ∷ [])
              ((output, handshake_start i.uri) ∷ []),
          refl,
          refl,
        )

  connected_step :
      (a : CableAddress) (c : Cable) (sender id : ℕ) (s : Entity) (st : Stage)
      → Session.find_cable a st.session ≡ some c
      → st.session.world.heap sender ≡ some s
      → connect_finished alive self reaches a sender id signal_ok st
        ≡ ok (
            say
              (map (λ p. (p, cable_create c.address)) st.clients
                ++ (sender, signal_message signal_ok id) ∷ [])
              st)
  unfolding connect_finished publish_cable publish_found reply_to broadcast reply_with_signal is_ok
  connected_step a c sender id s st found there =
      let published = whisper_all_lem st.clients (cable_create c.address) st in
      rw (found, published, deref_step sender s st.session.world there)
        (ap ok (whisper_lem sender (signal_message signal_ok id) _ ∙ simp append_assoc))

  completed_step :
      (output : ℕ) (o i : Entity) (st : Stage)
      → st.session.world.heap output ≡ some o
      → complete_client_connection alive self reaches output i.uri st
        ≡ say
            ((output, handshake_stop i.uri) ∷ [])
            (with_world (World.put output (add_subscriber i.uri o)) st)
  unfolding complete_client_connection with_world World.modify
  completed_step output o i st h =
      whisper_lem output (handshake_stop i.uri) _
      ∙ ap (λ w. say ((output, handshake_stop i.uri) ∷ []) (with_world (λ v. w) st))
          (modify_step output (add_subscriber i.uri) o st.session.world h)

  -- An object stays where it is when another, or it, gets a subscriber.
  still_there :
      (sender output : ℕ) (s o : Entity) (w : World)
      → w.heap sender ≡ some s
      → (d : Entity) × ((World.put output o w).heap sender ≡ some d)
  unfolding World.put
  still_there sender output s o w there = elim (Bool-cases (sender == output)) [
    | inl same ↦ (o, rw same refl)
    | inr other ↦ (s, rw other there)
  ]

  -- The client that asked for a cable, whose two clients were connected for it, gets its reply when
  -- the input client answers with an OK: the output client may stop its handshake and has the input
  -- client as a subscriber, every client is told of the cable, and then the requesting client gets
  -- exactly one reply. With any other answer, a time-out included, nothing at all is sent. This is
  -- where every client still has its transport, and the two clients, the cable and the requesting
  -- client are still there.
  pub answer_lem :
      (sg : Signal) (a : CableAddress) (c : Cable) (output input sender id : ℕ) (o i s : Entity)
      (st : Stage)
      → st.session.world.heap output ≡ some o
      → st.session.world.heap input ≡ some i
      → Session.find_cable a st.session ≡ some c
      → st.session.world.heap sender ≡ some s
      → let h : Handshake = record {
        output_client = output;
        input_client = input;
        on_connected = finish_cable a sender id;
      } in
        ((sg ≡ signal_ok)
          × ((t : Stage) × (answer alive self reaches h sg st ≡ ok t)
              × (t.sent
                  ≡ st.sent
                    ++ (output, handshake_stop i.uri)
                      ∷ (map (λ p. (p, cable_create c.address)) st.clients
                          ++ (sender, signal_message signal_ok id) ∷ []))
              × ((o' : Entity) × (t.session.world.heap output ≡ some o')
                  × (has_connected_subscriber o' i ≡ true))))
        ⊎ ((sg ≢ signal_ok) × (answer alive self reaches h sg st ≡ ok st))
  unfolding answer is_ok with_world run_callback Session.find_cable
  answer_lem signal_ok a c output input sender id o i s st ho hi found there =
      let stopped =
        say ((output, handshake_stop i.uri) ∷ [])
          (with_world (World.put output (add_subscriber i.uri o)) st) in
      let done =
        say
          (map (λ p. (p, cable_create c.address)) st.clients
            ++ (sender, signal_message signal_ok id) ∷ [])
          stopped in
      let (d, still) =
        still_there sender output s (add_subscriber i.uri o) st.session.world there in
      inl (
        refl,
        (
          done,
          rw
              (
                deref_step output o st.session.world ho,
                deref_step input i st.session.world hi,
                completed_step output o i st ho,
              )
              (connected_step a c sender id d stopped found still),
          append_assoc st.sent ((output, handshake_stop i.uri) ∷ []) (
              map (λ p. (p, cable_create c.address)) st.clients
              ++ (sender, signal_message signal_ok id) ∷ []),
          (
            add_subscriber i.uri o,
            put_same output (add_subscriber i.uri o) st.session.world,
            added_is_connected o i,
          ),
        ),
      )
  answer_lem _ a c output input sender id o i s st ho hi found there = inr ((λ e. cc e), refl)

  -- The last part of a request for a cable, when the performers of both plugs are there. Plugs of one
  -- performer: every client is told of the cable and the requesting client gets its reply. Plugs of
  -- two performers that are connected: nothing is sent and nothing is kept, so the requesting client
  -- gets no reply and nobody hears of the cable. Plugs of two others: the clients are asked to
  -- connect, and the callback is kept that tells of the cable and replies. Every client has its
  -- transport, and the cable and the requesting client are there.
  pub start_connection_lem :
      (a : CableAddress) (c : Cable) (input_path output_path : Uri) (sender id input output : ℕ)
      (i o s : Entity) (st : Stage)
      → performer_of alive self reaches input_path st ≡ ok (input, i)
      → performer_of alive self reaches output_path st ≡ ok (output, o)
      → Session.find_cable a st.session ≡ some c
      → st.session.world.heap sender ≡ some s
      → (t : Stage) × (start_connection alive self reaches a input_path output_path sender id st
          ≡ ok (t, signal_empty))
        × (t.session ≡ st.session)
        × (((equal o.uri i.uri ≡ true)
              × (t.sent
                  ≡ st.sent
                    ++ (map (λ p. (p, cable_create c.address)) st.clients
                        ++ (sender, signal_message signal_ok id) ∷ []))
              × (t.handshakes ≡ st.handshakes))
            ⊎ ((equal o.uri i.uri ≡ false) × (has_connected_subscriber o i ≡ true) × (t ≡ st))
            ⊎ ((equal o.uri i.uri ≡ false)
                × (has_connected_subscriber o i ≡ false)
                × (t.sent
                    ≡ st.sent
                      ++ (input, handshake_listen o.uri) ∷ (output, handshake_start i.uri) ∷ [])
                × (t.handshakes
                    ≡ st.handshakes
                      ++ record {
                        output_client = output;
                        input_client = input;
                        on_connected = finish_cable a sender id;
                      }
                        ∷ [])))
  unfolding start_connection
  start_connection_lem a c input_path output_path sender id input output i o s st hi ho found
        there =
      elim (Bool-cases (equal o.uri i.uri)) [
        | inl e ↦ (
          say
              (map (λ p. (p, cable_create c.address)) st.clients
                ++ (sender, signal_message signal_ok id) ∷ [])
              st,
          rw (hi, ho, e, connected_step a c sender id s st found there) refl,
          refl,
          inl (e, refl, refl),
        )
        | inr e ↦ elim (Bool-cases (has_connected_subscriber o i)) [
          | inl f ↦ (
            st,
            rw (hi, ho, e) (ap (λ t. ok (t, signal_empty)) (unfold connect_entities in rw f refl)),
            refl,
            inr (inl (e, f, refl)),
          )
          | inr f ↦ (
            connect_entities alive self reaches output o input i (finish_cable a sender id) st,
            rw (hi, ho, e) refl,
            (connect_entities_lem output input o i (finish_cable a sender id) st f e).2,
            inr (
                inr (
                  e,
                  f,
                  (connect_entities_lem output input o i (finish_cable a sender id) st f e).0,
                  (connect_entities_lem output input o i (finish_cable a sender id) st f e).1,
                )),
          )
        ]
      ]
