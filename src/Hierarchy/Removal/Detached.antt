-- ===== src/Hierarchy/Removal/Detached.antt =====
-- A proxy without children that has a parent, when it is destroyed.
use showtime_cpp.Common.{
  ℕ, suc, ◌==◌, ==_refl, ◌≡◌, refl, ap, ◌∙◌, Bool, true, false, [], ◌++◌, none, some, ok, ◌>>=◌,
  if◌then◌else◌,
}
use showtime_cpp.Uri
use showtime_cpp.Uri.{Uri, equal}
use showtime_cpp.Sync
use showtime_cpp.World
use showtime_cpp.World.{Entity}
use showtime_cpp.World.Lookup.{Distinct, update_entity_in_lookup_lem}
use showtime_cpp.Tree.{
  Hierarchy, put, in_world, is_component, is_factory, parent_of, type_of, find_entity,
  remove_child_path,
}
use showtime_cpp.Tree.Sound.{At}
use showtime_cpp.Tree.Leaf.{read_lem, moved, moved_tree, remove_child_lem}
use showtime_cpp.Hierarchy.{for_each, with_sync}
use showtime_cpp.Hierarchy.Removal.{
  leaving_event, announce_leaving, leave_parent, deactivate_below, destroy_entity_complete,
}
use showtime_cpp.Hierarchy.Removal.Freed.{leaf_entities}

-- The queue of events, with what a registered entity moved to another path leaves in the lookup.
relocated : ℕ → Entity → Uri → Hierarchy → Hierarchy
unfolding in_world put
relocated p e v h =
    in_world (World.update_entity_in_lookup v p e.uri) (put p (moved e Uri.empty v) h)

module _ (alive : ℕ → Bool) (self n : ℕ) (p q : ℕ) (e t : Entity) (v : Uri) (h : Hierarchy)
    (ke : At h p e) (kt : At h q t) (apart : (p == q) ≡ false) (below : parent_of e h ≡ some q)
    (c : is_component t.kind ≡ true) (dt : Sync.is_destroyed t.sync ≡ false)
    (leaf : e.children ≡ []) (f : is_factory e.kind ≡ false) (de : Sync.is_destroyed e.sync ≡ false)
    (l : Uri.last e.uri ≡ ok v) (registered : e.registered ≡ true)
    (proxy : e.sync.core.proxy ≡ true) where
  abbrev cut : Hierarchy
  cut = put q (remove_child_path e.uri t) h

  abbrev announced : Hierarchy
  announced =
      let g = relocated p e v cut in
      record g { events = g.events ++ leaving_event (type_of e.kind) v }

  relocated_eq : moved_tree p e Uri.empty v cut ≡ relocated p e v cut
  unfolding relocated
  relocated_eq =
      let put_moved = put p (moved e Uri.empty v) cut in
      ap
        (λ b. if b then in_world (World.update_entity_in_lookup v p e.uri) put_moved else put_moved)
        registered

  relocated_At : At (relocated p e v cut) p (moved e Uri.empty v)
  unfolding relocated in_world put World.put World.update_entity_in_lookup
      World.remove_entity_from_lookup World.add_entity_to_lookup
  relocated_At = rw (==_refl p) refl

  announce_eq : announce_leaving p (relocated p e v cut) ≡ ok announced
  unfolding announce_leaving
  announce_eq =
      let g = relocated p e v cut in
      read_lem p (moved e Uri.empty v) g _ relocated_At
      ∙ ap
          (λ b.
            ok
              (if b then record g { events = g.events ++ leaving_event (type_of e.kind) v } else g))
          proxy

  deactivated_eq :
      (g : Hierarchy) × (deactivate_below alive self (suc n) p announced ≡ ok g)
      × (g.events ≡ announced.events)
      × (g.world.lookup ≡ announced.world.lookup)
  unfolding deactivate_below for_each with_sync put in_world World.put
  deactivated_eq =
      let one = with_sync alive self (Sync.enqueue_deactivation alive) in
      (
        _,
        ap (λ r. r >>= λ bundle. for_each alive self one bundle announced)
              (leaf_entities n true p (moved e Uri.empty v) announced relocated_At leaf)
            ∙ ap (λ r. r >>= λ g. ok g) (read_lem p (moved e Uri.empty v) announced _ relocated_At),
        refl,
        refl,
      )

  -- A registered proxy that has a path, is not a factory and has no children, whose parent is found,
  -- is another entity and is a component, where neither has its destroyed flag set and no two keys of
  -- the lookup are equal: its destruction returns, and the event that is queued has the last segment
  -- of the path in place of the path, which leads to the object from then on, whatever it led to
  -- before; the path of the entity finds nothing, unless it is that segment, and others what they
  -- found.
  pub destroyed_child_lem :
      Distinct h.world.lookup
      → (g : Hierarchy) × (destroy_entity_complete alive self (suc n) (some p) h ≡ ok g)
        × (g.events ≡ h.events ++ leaving_event (type_of e.kind) v)
        × ((u : Uri)
            → find_entity u g
              ≡ (if equal v u then some p else if equal e.uri u then none else find_entity u h))
  unfolding destroy_entity_complete leave_parent find_entity World.find_entity World.put relocated
      put in_world
  destroyed_child_lem distinct =
      let (g, end, events, lookup) = deactivated_eq in
      (
        g,
        read_lem p e h _ ke
            ∙ ap
                (λ o. leave_parent alive self (suc n) o p h >>= λ h.
                  announce_leaving p h >>= λ h. deactivate_below alive self (suc n) p h)
                below
            ∙ ap
                (λ r.
                  r >>= λ h. announce_leaving p h >>= λ h. deactivate_below alive self (suc n) p h)
                (remove_child_lem alive self n q p t e v h kt ke apart c dt leaf f de l
                  ∙ ap ok relocated_eq)
            ∙ ap (λ r. r >>= λ h. deactivate_below alive self (suc n) p h) announce_eq
            ∙ end,
        events,
        (λ u.
            ap (World.find_in u) lookup
            ∙ (update_entity_in_lookup_lem u v p e.uri (put p (moved e Uri.empty v) cut).world
                distinct).0),
      )
