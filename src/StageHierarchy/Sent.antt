-- ===== src/StageHierarchy/Sent.antt =====
-- Who is sent what: the responses of factories, and what of an
-- entity arrives with a message.
use showtime_cpp.Common.{
  ℕ, ◌≤◌, ◌≡◌, ◌≢◌, ◌⊎◌, inl, inr, sym, ap, ◌∙◌, Bool, true, false, List, [], ◌∷◌, ◌++◌,
  append_assoc, Option, some, ok, if◌then◌else◌, length, take, length-take, c_str_self, arith,
  Bytes, ltb, ltb→lt, Bool-cases,
}
use showtime_cpp.Uri
use showtime_cpp.Uri.{Uri, not_equal, init}
use showtime_cpp.CableAddress.RoundTrip.{IsBuilt, take_all, sent, received}
use showtime_cpp.World.{Entity}
use showtime_cpp.StageSession.{Signal, is_ok}
use showtime_cpp.Tree.Leaf.{read_lem}
use showtime_cpp.Hierarchy.Proxies.{uri_of, owner_of}
use showtime_cpp.StageHierarchy.{
  Content, factory_create_entity_ack, signal_message, Client, FactoryRequest, Stage, client_at,
  serialize, send_to, whisper_client, whisper, reply_with_signal,
}
use showtime_cpp.StageHierarchy.Handlers.{signal_of, answer_factory}

sends : List (ℕ × Content) → Stage → Stage
sends ms st = record st { sent = st.sent ++ ms }

module _ (reaches : ℕ → Bool) where
  whisper_lem :
      (p : ℕ) (c : Client) (m : Content) (st : Stage)
      → client_at p st.clients ≡ some c
      → reaches c.endpoint ≡ true
      → whisper reaches p m st ≡ sends ((c.endpoint, m) ∷ []) st
  unfolding whisper whisper_client send_to sends
  whisper_lem p c m st k r =
      ap (λ o. whisper_client reaches o m st) k
      ∙ ap (λ b. if b then sends ((c.endpoint, m) ∷ []) st else st) r

module _ (alive : ℕ → Bool) (self : ℕ) (stack : ℕ) (reaches : ℕ → Bool) where
  -- A factory answers for a client that is still there and that is reached: whatever the response
  -- was, the client is sent the acknowledgement with the path of the factory, and if it was no OK, or
  -- timed out, the signal of the response before that.
  pub answer_factory_lem :
      (r : FactoryRequest) (response : Option Signal) (st : Stage) (e : Entity) (c : Client)
      → st.tree.world.heap r.sender ≡ some e
      → client_at r.sender st.clients ≡ some c
      → reaches c.endpoint ≡ true
      → let sg = signal_of response in
        let ack = factory_create_entity_ack (Uri.path r.factory_path) r.response_id in
        answer_factory alive self stack reaches r response st
        ≡ ok (record st {
          sent =
              st.sent
              ++ (if is_ok sg
                  then (c.endpoint, ack) ∷ []
                  else (c.endpoint, signal_message sg r.response_id) ∷ (c.endpoint, ack) ∷ []);
        })
  unfolding answer_factory reply_with_signal sends
  answer_factory_lem r response st e c k ck rc =
      let sg = signal_of response in
      let ack = factory_create_entity_ack (Uri.path r.factory_path) r.response_id in
      read_lem r.sender e st.tree _ k ∙ ap ok (go (is_ok sg))
    where
      ack : Content
      ack = factory_create_entity_ack (Uri.path r.factory_path) r.response_id

      sorry : Content
      sorry = signal_message (signal_of response) r.response_id

      go :
          (b : Bool)
          → whisper reaches r.sender ack (if b then st else whisper reaches r.sender sorry st)
            ≡ sends
                (if b then (c.endpoint, ack) ∷ [] else (c.endpoint, sorry) ∷ (c.endpoint, ack) ∷ [])
                st
      go true = whisper_lem reaches r.sender c ack st ck rc
      go false =
          ap (whisper reaches r.sender ack) (whisper_lem reaches r.sender c sorry st ck rc)
          ∙ whisper_lem reaches r.sender c ack (sends ((c.endpoint, sorry) ∷ []) st) ck rc
          ∙ ap (λ l. record st { sent = l })
              (append_assoc st.sent ((c.endpoint, sorry) ∷ []) ((c.endpoint, ack) ∷ []))

fits : (n : ℕ) (s : Bytes) → length (take n s) ≡ length s → length s ≤ n
fits n s h = omega (arith, h, length-take n s)

not_longer : (n m : ℕ) → ltb n m ≡ false → m ≤ n
not_longer n m h = ground arith

-- An entity whose path and owner's path were cut from texts without NUL is sent by `serialize`, and
-- its fields are read: the path arrives as it was, and of the
-- owner as many bytes as it has segments, so that the owner arrives only if it has no more bytes
-- than that.
pub serialized_paths_lem :
    (e : Entity)
    → IsBuilt e.uri
    → IsBuilt e.current_owner
    → let o = e.current_owner in
      let read_owner = owner_of (serialize e).owner in
      (uri_of (serialize e).uri ≡ e.uri)
      × (read_owner ≡ init (take (length o.components) o.original_path))
      × ((length o.original_path ≤ length o.components) ⊎ (read_owner ≢ o))
unfolding serialize owner_of uri_of Uri.from_buffer Uri.path Uri.full_size Uri.size init
serialized_paths_lem e bu bo =
    let o = e.current_owner in
    let n = length o.components in
    let owner =
      ap init (take_all (take n (Uri.path o)))
      ∙ ap (λ s. init (take n s)) (c_str_self o.original_path bo.nul_free) in
    (
      ap (λ t. Uri.from_buffer t (length t)) (sent e.uri bu) ∙ received e.uri bu,
      owner,
      elim (Bool-cases (ltb n (length o.original_path))) [
        | inl m ↦ inr (λ same. absurd (
            omega (
              arith,
              ltb→lt _ _ m,
              fits n o.original_path (ap (λ u. length u.original_path) (sym owner ∙ same)),
            )))
        | inr m ↦ inl (not_longer n (length o.original_path) m)
      ],
    )
