-- ===== src/StageHierarchy/Handlers/Taken.antt =====
-- What the server answers to a request for a path that is taken.
use showtime_cpp.Common.{
  ℕ, ◌≡◌, ◌≢◌, refl, ap, ◌∙◌, Bool, true, false, some, Result, ok, ◌>>=◌, if◌then◌else◌,
}
use showtime_cpp.Uri
use showtime_cpp.Uri.{Uri, not_equal}
use showtime_cpp.Sync.{Sync}
use showtime_cpp.World.{Entity}
use showtime_cpp.StageSession.{Signal, signal_ok, performer_already_exists, entity_not_found}
use showtime_cpp.Tree.{find_entity}
use showtime_cpp.Tree.Leaf.{read_lem}
use showtime_cpp.Hierarchy.Proxies.{Payload, EntityTypes, no_entity, uri_of, add_proxy_entity}
use showtime_cpp.Hierarchy.Proxies.Taken.{create_proxy_entity_taken}
use showtime_cpp.StageHierarchy.{Stage}
use showtime_cpp.StageHierarchy.Handlers.{
  Message, with_tree, deref_sender, create_client_handler, create_entity_handler, with_entity_field,
  join_if_new, create_for_owner, found_or_not,
}

with_field_lem : (t : EntityTypes) (st : Stage) → t ≢ no_entity → with_entity_field t st ≡ ok st
unfolding with_entity_field
with_field_lem no_entity st h = absurd (h refl)
with_field_lem EntityTypes.performer_entity st h = refl
with_field_lem EntityTypes.component_entity st h = refl
with_field_lem EntityTypes.plug_entity st h = refl
with_field_lem EntityTypes.factory_entity st h = refl

module _ (alive : ℕ → Bool) (self : ℕ) (stack : ℕ) (reaches : ℕ → Bool) where
  create_for_owner_taken :
      (fresh : ℕ) (sync : Sync) (d : Payload) (st : Stage) (p : ℕ)
      → find_entity (uri_of d.uri) st.tree ≡ some p
      → create_for_owner alive self stack reaches fresh sync d st ≡ ok (st, signal_ok)
  unfolding create_for_owner add_proxy_entity with_tree
  create_for_owner_taken fresh sync d st p t =
      ap
        (λ r. r >>= λ created. add_proxy_entity alive self stack fresh created st.tree >>= λ h.
          ok (found_or_not (find_entity (uri_of d.uri) h) (with_tree h st)))
        (create_proxy_entity_taken sync d st.tree p t)
      ∙ ap (λ o. ok (found_or_not o st)) t
      ∙ unfold found_or_not in refl

  -- A path that leads to an entity already: a client that joins with it is refused, and a client that
  -- wants to create an entity there is answered OK, or that the entity was not found where the path
  -- is below another client; nothing changes in any of these cases.
  pub taken_path_lem :
      (fresh : ℕ) (sync : Sync) (msg : Message) (d : Payload) (st : Stage) (p sender : ℕ)
      (e : Entity) (owner root : Uri)
      → find_entity (uri_of d.uri) st.tree ≡ some p
      → d.entity_types ≢ no_entity
      → st.tree.world.heap sender ≡ some e
      → Uri.first e.uri ≡ ok owner
      → Uri.first (uri_of d.uri) ≡ ok root
      → (create_client_handler alive self stack reaches fresh sync msg d st
          ≡ ok (st, performer_already_exists))
        × (create_entity_handler alive self stack reaches fresh sync d (some sender) st
            ≡ ok (st, if not_equal owner root then entity_not_found else signal_ok))
  unfolding create_client_handler create_entity_handler join_if_new deref_sender
  taken_path_lem fresh sync msg d st p sender e owner root t types k o r = (
    ap (λ x. join_if_new alive self stack reaches x fresh sync msg d st) t,
    ap
          (λ x. x >>= λ st. deref_sender (some sender) st >>= λ s. Uri.first (s.1.uri) >>= λ owner.
            Uri.first (uri_of d.uri) >>= λ root.
            if not_equal owner root
            then ok (st, entity_not_found)
            else create_for_owner alive self stack reaches fresh sync d st)
          (with_field_lem d.entity_types st types)
        ∙ ap (λ x. x >>= λ s. after (Uri.first (s.1.uri)) (Uri.first (uri_of d.uri)))
            (read_lem sender e st.tree (λ e. ok (sender, e)) k)
        ∙ ap (λ x. after x (Uri.first (uri_of d.uri))) o
        ∙ ap (after (ok owner)) r
        ∙ finish (not_equal owner root),
  )
    where
      after : Result Uri → Result Uri → Result (Stage × Signal)
      after first second = first >>= λ owner. second >>= λ root.
          if not_equal owner root
          then ok (st, entity_not_found)
          else create_for_owner alive self stack reaches fresh sync d st

      finish :
          (b : Bool)
          → (if b
              then ok (st, entity_not_found)
              else create_for_owner alive self stack reaches fresh sync d st)
            ≡ ok (st, if b then entity_not_found else signal_ok)
      finish true = refl
      finish false = create_for_owner_taken fresh sync d st p t
