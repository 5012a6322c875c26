-- ===== src/StageSession/Ownership.antt =====
-- `aquire_entity_ownership_handler` of src/server/ZstStageSession.cpp: a client takes the right to
-- fire an output plug, or gives it back.
use showtime_cpp.Common.{
  ℕ, Bool, List, [], ◌∷◌, Option, none, some, if◌then◌else◌, ltb, length, Bytes, Result, ok, ◌>>=◌,
}
use showtime_cpp.Uri
use showtime_cpp.Uri.{Uri, equal}
use showtime_cpp.Cable.{Cable}
use showtime_cpp.World
use showtime_cpp.World.{World, Entity, EntityKind, output_plug}
use showtime_cpp.World.Plug
use showtime_cpp.StageSession.{
  Stage, Signal, signal_ok, performer_not_found, entity_not_found, take_ownership, do_nothing,
  deref, with_world, broadcast, connect_entities, performer_of,
}

-- `set_owner` is virtual; the server has no local performer.
set_owner_of : EntityKind → Uri → Entity → Entity
unfolding Plug.set_owner
set_owner_of output_plug owner e = Plug.set_owner none owner e
set_owner_of _ owner e = record e { current_owner = owner }

entity_set_owner : ℕ → Uri → Stage → Stage
unfolding with_world World.modify set_owner_of
entity_set_owner p owner st = with_world (World.modify p (λ e. set_owner_of e.kind owner e)) st

module _ (alive : ℕ → Bool) (self : ℕ) (reaches : ℕ → Bool) where
  -- `performers[receiver->URI()] = receiver`.
  keep_receiver : ℕ × Entity → List (ℕ × Entity) → List (ℕ × Entity)
  keep_receiver r [] = r ∷ []
  keep_receiver r (q ∷ qs) = if equal q.1.uri r.1.uri then r ∷ qs else q ∷ keep_receiver r qs

  -- The performers with an input that the entity is connected to. The map has no order; here the
  -- performers stand as the loop meets them.
  receivers : Uri → List Cable → Stage → List (ℕ × Entity) → Result (List (ℕ × Entity))
  unfolding performer_of deref keep_receiver
  receivers entity_path [] st found = ok found
  receivers entity_path (c ∷ cs) st found = deref c.output st.session.world >>= λ o.
      (if equal o.1.uri entity_path
        then (deref c.input st.session.world >>= λ i.
            performer_of alive self reaches i.1.uri st >>= λ r.
            receivers entity_path cs st (keep_receiver r found))
        else receivers entity_path cs st found)

  -- The calls of `connect_clients`, with the receiver first.
  connect_receivers : List (ℕ × Entity) → Option (ℕ × Entity) → Stage → Stage
  unfolding connect_entities
  connect_receivers rs none st = st
  connect_receivers [] (some o) st = st
  connect_receivers (r ∷ rs) (some o) st =
      connect_receivers rs (some o)
        (connect_entities alive self reaches r.0 r.1 o.0 o.1 do_nothing st)

  -- From the setting of the owner on. Without a new owner its path is empty.
  change_owner : ℕ × Entity → Uri → Uri → Option (ℕ × Entity) → Stage → Result (Stage × Signal)
  unfolding entity_set_owner receivers connect_receivers broadcast
  change_owner entity owner new_owner_path new_owner st =
      let t = entity_set_owner entity.0 owner st in
      receivers entity.1.uri t.session.cables t [] >>= λ rs. ok (
        broadcast alive self reaches (take_ownership entity.1.uri new_owner_path)
            (connect_receivers rs (if Uri.is_empty new_owner_path then none else new_owner) t),
        signal_ok,
      )

  owner_found : ℕ × Entity → Uri → Option ℕ → Stage → Result (Stage × Signal)
  unfolding change_owner deref
  owner_found entity path none st = ok (st, performer_not_found)
  owner_found entity path (some p) st =
      deref (some p) st.session.world >>= λ o. change_owner entity o.1.uri path (some o) st

  entity_found : Option ℕ → Bytes → Stage → Result (Stage × Signal)
  unfolding owner_found change_owner deref
  entity_found none new_owner st = ok (st, entity_not_found)
  entity_found (some p) new_owner st = deref (some p) st.session.world >>= λ entity.
      (if ltb 0 (length new_owner)
        then owner_found entity (Uri.from_buffer new_owner (length new_owner))
            (World.find_stage_proxy (Uri.from_buffer new_owner (length new_owner)) st.session.world)
            st
        else change_owner entity Uri.empty Uri.empty none st)

  unfoldable pub aquire_entity_ownership_handler : Uri → Bytes → Stage → Result (Stage × Signal)
  unfolding entity_found
  aquire_entity_ownership_handler path new_owner st =
      entity_found (World.find_entity path st.session.world) new_owner st
