-- ===== src/StageHierarchy/Handlers/Kept.antt =====
-- The handlers keep the lookup map of the server's tree right.
use showtime_cpp.Common.{
  ℕ, Bool, true, false, not, ◌||◌, [], ◌∷◌, Option, none, some, ◌≡◌, Result, ◌>>=◌, AllOk,
  bind-AllOk, if-AllOk, if-holds, Bytes,
}
use showtime_cpp.Uri
use showtime_cpp.Uri.{Uri, equal, not_equal}
use showtime_cpp.Sync.{Sync}
use showtime_cpp.StageSession.{Signal, is_ok}
use showtime_cpp.Tree.{entity_at, find_entity}
use showtime_cpp.Tree.Sound.{SoundTree, read-AllOk, pure-AllOk}
use showtime_cpp.Hierarchy.Proxies.{Payload, EntityTypes, no_entity, uri_of, create_proxy_entity}
use showtime_cpp.Hierarchy.Proxies.Kept.{add_proxy_entity-Sound, update_proxy_entity-Sound}
use showtime_cpp.Hierarchy.Removal.Kept.{remove_proxy_entity-Sound}
use showtime_cpp.StageHierarchy.{FactoryRequest, Stage, reply_with_signal}
use showtime_cpp.StageHierarchy.Kept.{SoundStage, whisper-Sound, broadcast-Sound, send_to-Sound}
use showtime_cpp.StageHierarchy.Handlers.{
  Request, signal_request, client_heartbeat, other_message, client_join_request, client_leave,
  entity_create, factory_create_entity, entity_update, entity_destroy, Message, with_tree,
  deref_sender, signal_of, signal_handler, stage_proxy_of, join_if_new, create_client_handler,
  client_leaving_handler, found_or_not, create_for_owner, with_entity_field, create_entity_handler,
  answer_factory, ask_factory, with_factory_client, with_factory, factory_create_entity_handler,
  update_found, update_entity_handler, destroy_found, destroy_entity_handler, handle,
  is_empty_signal, respond, on_receive_msg,
}

abbrev SoundReply : Stage × Signal → Type 0
SoundReply r = SoundTree (r.0.tree)

module _ (alive : ℕ → Bool) (self : ℕ) (stack : ℕ) (reaches : ℕ → Bool) where
  pub answer_factory-Sound :
      (r : FactoryRequest) (response : Option Signal) (st : Stage)
      → SoundStage st
      → AllOk SoundStage (answer_factory alive self stack reaches r response st)
  unfolding answer_factory reply_with_signal
  answer_factory-Sound r response st s = read-AllOk SoundStage r.sender st.tree _ (λ e k.
      whisper-Sound reaches r.sender _ _ (
        if-holds SoundStage (is_ok (signal_of response)) _ _ (λ q. s)
          (λ q. whisper-Sound reaches r.sender _ st s)))

  join-Sound :
      (found : Option ℕ) (fresh : ℕ) (sync : Sync) (msg : Message) (d : Payload) (st : Stage)
      → st.tree.world.heap fresh ≡ none
      → SoundStage st
      → AllOk SoundReply (join_if_new alive self stack reaches found fresh sync msg d st)
  unfolding join_if_new with_tree
  join-Sound (some p) fresh sync msg d st f s = s
  join-Sound none fresh sync msg d st f s =
      if-AllOk SoundReply msg.owned _ _
        (bind-AllOk SoundTree SoundReply _ _
          (add_proxy_entity-Sound alive self stack fresh (some (stage_proxy_of sync d)) st.tree f s)
          (λ h r t. t))
        s

  leaving-Sound :
      (reason : ℕ) (sender : Option ℕ) (st : Stage)
      → SoundStage st
      → AllOk SoundReply (client_leaving_handler alive self stack reaches reason sender st)
  unfolding client_leaving_handler with_tree
  leaving-Sound reason sender st s = pure-AllOk SoundReply (deref_sender sender st) _ (λ p.
      bind-AllOk SoundTree SoundReply _ _
        (remove_proxy_entity-Sound alive self stack sender st.tree s)
        (λ h r t.
          pure-AllOk SoundReply (entity_at (p.0) h) _
            (λ e. broadcast-Sound reaches _ [] (with_tree h st) t)))

  found_or_not-Sound : (o : Option ℕ) (st : Stage) → SoundStage st → SoundReply (found_or_not o st)
  unfolding found_or_not
  found_or_not-Sound none st s = s
  found_or_not-Sound (some p) st s = s

  create_for_owner-Sound :
      (fresh : ℕ) (sync : Sync) (d : Payload) (st : Stage)
      → st.tree.world.heap fresh ≡ none
      → SoundStage st
      → AllOk SoundReply (create_for_owner alive self stack reaches fresh sync d st)
  unfolding create_for_owner with_tree
  create_for_owner-Sound fresh sync d st f s =
      pure-AllOk SoundReply (create_proxy_entity sync d st.tree) _ (λ created.
        bind-AllOk SoundTree SoundReply _ _
          (add_proxy_entity-Sound alive self stack fresh created st.tree f s)
          (λ h r t. found_or_not-Sound (find_entity (uri_of d.uri) h) (with_tree h st) t))

  -- An entity field that is there leaves the server as it is.
  with_field-AllOk :
      (types : EntityTypes) (st : Stage) (next : Stage → Result (Stage × Signal))
      → AllOk SoundReply (next st)
      → AllOk SoundReply (with_entity_field types st >>= next)
  unfolding with_entity_field
  with_field-AllOk no_entity st next a = tt
  with_field-AllOk EntityTypes.performer_entity st next a = a
  with_field-AllOk EntityTypes.component_entity st next a = a
  with_field-AllOk EntityTypes.plug_entity st next a = a
  with_field-AllOk EntityTypes.factory_entity st next a = a

  create_entity-Sound :
      (fresh : ℕ) (sync : Sync) (d : Payload) (sender : Option ℕ) (st : Stage)
      → st.tree.world.heap fresh ≡ none
      → SoundStage st
      → AllOk SoundReply (create_entity_handler alive self stack reaches fresh sync d sender st)
  unfolding create_entity_handler
  create_entity-Sound fresh sync d sender st f s = with_field-AllOk d.entity_types st _ (
      pure-AllOk SoundReply (deref_sender sender st) _ (λ p.
        pure-AllOk SoundReply (Uri.first (p.1.uri)) _ (λ owner.
          pure-AllOk SoundReply (Uri.first (uri_of d.uri)) _ (λ root.
            if-AllOk SoundReply (not_equal owner root) _ _ s
              (create_for_owner-Sound fresh sync d st f s)))))

  ask-Sound :
      (to : Option ℕ) (sender : Option ℕ) (path : Uri) (creatable name : Bytes) (id : ℕ)
      (st : Stage)
      → SoundStage st
      → AllOk SoundReply
          (with_factory_client alive self stack reaches to sender path creatable name id st)
  unfolding with_factory_client ask_factory
  ask-Sound none sender path creatable name id st s = s
  ask-Sound (some to) none path creatable name id st s = tt
  ask-Sound (some to) (some sender) path creatable name id st s = whisper-Sound reaches to _ st s

  with_factory-Sound :
      (p : Option ℕ) (sender : Option ℕ) (path : Uri) (creatable name : Bytes) (id : ℕ) (st : Stage)
      → SoundStage st
      → AllOk SoundReply (with_factory alive self stack reaches p sender path creatable name id st)
  unfolding with_factory
  with_factory-Sound none sender path creatable name id st s = s
  with_factory-Sound (some p) sender path creatable name id st s =
      pure-AllOk SoundReply (Uri.first path) _
        (λ root. ask-Sound _ sender path creatable name id st s)

  update_found-Sound :
      (p : Option ℕ) (d : Payload) (original : Bytes) (sender : Option ℕ) (st : Stage)
      → SoundStage st
      → AllOk SoundReply (update_found alive self stack reaches p d original sender st)
  unfolding update_found with_tree
  update_found-Sound none d original sender st s = s
  update_found-Sound (some p) d original sender st s =
      bind-AllOk SoundTree SoundReply _ _
        (update_proxy_entity-Sound alive self stack (some p) d st.tree s)
        (λ h r t.
          pure-AllOk SoundReply (entity_at p h) _
            (λ e. broadcast-Sound reaches _ (sender ∷ []) (with_tree h st) t))

  destroy_found-Sound :
      (p : Option ℕ) (path : Bytes) (sender : Option ℕ) (st : Stage)
      → SoundStage st
      → AllOk SoundReply (destroy_found alive self stack reaches p path sender st)
  unfolding destroy_found with_tree
  destroy_found-Sound none path sender st s = s
  destroy_found-Sound (some p) path sender st s =
      bind-AllOk SoundTree SoundReply _ _
        (remove_proxy_entity-Sound alive self stack (some p) st.tree s)
        (λ h r t. broadcast-Sound reaches _ (sender ∷ []) (with_tree h st) t)

  signal-Sound :
      (is_heartbeat : Bool) (sender : Option ℕ) (st : Stage)
      → SoundStage st
      → SoundReply (signal_handler is_heartbeat sender st)
  unfolding signal_handler
  signal-Sound is_heartbeat none st s = s
  signal-Sound true (some p) st s = s
  signal-Sound false (some p) st s = s

  handle-Sound :
      (fresh : ℕ) (sync : Sync) (msg : Message) (r : Request) (sender : Option ℕ) (st : Stage)
      → st.tree.world.heap fresh ≡ none
      → SoundStage st
      → AllOk SoundReply (handle alive self stack reaches fresh sync msg r sender st)
  unfolding handle create_client_handler factory_create_entity_handler update_entity_handler
      destroy_entity_handler
  handle-Sound fresh sync msg (signal_request sg) sender st f s = signal-Sound false sender st s
  handle-Sound fresh sync msg client_heartbeat sender st f s = signal-Sound true sender st s
  handle-Sound fresh sync msg other_message sender st f s = s
  handle-Sound fresh sync msg (client_join_request d) sender st f s =
      join-Sound _ fresh sync msg d st f s
  handle-Sound fresh sync msg (client_leave reason) sender st f s = leaving-Sound reason sender st s
  handle-Sound fresh sync msg (entity_create d) sender st f s =
      create_entity-Sound fresh sync d sender st f s
  handle-Sound fresh sync msg (factory_create_entity creatable name) sender st f s =
      pure-AllOk SoundReply (Uri.parent (uri_of creatable)) _
        (λ path. with_factory-Sound _ sender path creatable name msg.id st s)
  handle-Sound fresh sync msg (entity_update d original) sender st f s =
      with_field-AllOk d.entity_types st _ (update_found-Sound _ d original sender st s)
  handle-Sound fresh sync msg (entity_destroy path) sender st f s =
      destroy_found-Sound _ path sender st s

  pub on_receive_msg-Sound :
      (fresh : ℕ) (sync : Sync) (msg : Message) (st : Stage)
      → st.tree.world.heap fresh ≡ none
      → SoundStage st
      → AllOk SoundStage (on_receive_msg alive self stack reaches fresh sync msg st)
  unfolding on_receive_msg respond
  on_receive_msg-Sound fresh sync msg st f s =
      bind-AllOk SoundReply SoundStage _ _ (handle-Sound fresh sync msg msg.content _ st f s)
        (λ g r t.
          if-holds SoundStage (is_empty_signal (g.1) || not msg.owned) _ _ (λ q. t)
            (λ q. send_to-Sound reaches msg.origin_endpoint _ (g.0) t))
