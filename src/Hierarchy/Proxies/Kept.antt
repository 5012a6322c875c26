-- ===== src/Hierarchy/Proxies/Kept.antt =====
-- The operations on proxies keep the lookup map right.
use showtime_cpp.Common.{
  ℕ, Bool, true, [], Option, none, some, ◌≡◌, refl, AllOk, bind-AllOk, if-AllOk, if-holds,
}
use showtime_cpp.Uri
use showtime_cpp.Uri.{Uri, not_equal}
use showtime_cpp.Sync
use showtime_cpp.Sync.{activated}
use showtime_cpp.World.{Entity}
use showtime_cpp.World.Sound.{put-Absent-Sound, free-Absent}
use showtime_cpp.Tree.{
  Hierarchy, EntityType, none_type, component_type, performer_type, plug_type, factory_type, put,
  in_world, note, is_component, is_factory, find_entity, update_creatable_uris, type_of,
}
use showtime_cpp.Tree.Sound.{
  SoundTree, At, read-AllOk, pure-AllOk, touch-Sound, register_entity-Sound, add_child-Sound,
  set_name-Sound,
}
use showtime_cpp.Hierarchy.{get_child_entities}
use showtime_cpp.Hierarchy.Sound.{with_sync-Sound, for_each-AllOk}
use showtime_cpp.Hierarchy.Proxies.{
  Payload, uri_of, add_each_creatable, is_factory_entity, dispatch_entity_arrived_event, arrived,
  defer, add_to_parent, adopt, adopt_below, keep_proxy, add_new_proxy, add_proxy_entity,
  alert_stage, wake_for, update_creatables, update_factory, rename, update_original,
  update_proxy_entity,
}

arrived-Sound : (t : EntityType) (p : ℕ) (h : Hierarchy) → SoundTree h → SoundTree (arrived t p h)
unfolding arrived defer
arrived-Sound none_type p h s = s
arrived-Sound component_type p h s = s
arrived-Sound performer_type p h s = s
arrived-Sound plug_type p h s = s
arrived-Sound factory_type p h s = s

dispatch-Sound :
    (p : ℕ) (h : Hierarchy) → SoundTree h → AllOk SoundTree (dispatch_entity_arrived_event p h)
unfolding dispatch_entity_arrived_event
dispatch-Sound p h s = read-AllOk SoundTree p h _ (λ e k. arrived-Sound (type_of e.kind) p h s)

module _ (alive : ℕ → Bool) (self : ℕ) (stack : ℕ) where
  add_to_parent-Sound :
      (parent : Option ℕ) (p : ℕ) (h : Hierarchy)
      → SoundTree h
      → AllOk SoundTree (add_to_parent alive self stack parent p h)
  unfolding add_to_parent
  add_to_parent-Sound none p h s = s
  add_to_parent-Sound (some parent) p h s = read-AllOk SoundTree parent h _ (λ q k.
      if-AllOk SoundTree (is_component q.kind) _ _
        (add_child-Sound alive self stack true parent p h s) tt)

  adopt-Sound : (p : ℕ) (h : Hierarchy) → SoundTree h → AllOk SoundTree (adopt alive self stack p h)
  unfolding adopt
  adopt-Sound p h s =
      bind-AllOk SoundTree SoundTree _ _ (with_sync-Sound alive self Sync.set_proxy p h s)
        (λ g r. with_sync-Sound alive self (Sync.set_activation_status activated) p g)

  adopt_below-Sound :
      (p : ℕ) (h : Hierarchy) → SoundTree h → AllOk SoundTree (adopt_below alive self stack p h)
  unfolding adopt_below
  adopt_below-Sound p h s =
      pure-AllOk SoundTree (get_child_entities stack true true none_type h p) _ (λ bundle.
        for_each-AllOk alive self SoundTree (adopt alive self stack) bundle h adopt-Sound s)

  -- The address of the new object is not in use.
  pub add_proxy_entity-Sound :
      (fresh : ℕ) (e : Option Entity) (h : Hierarchy)
      → h.world.heap fresh ≡ none
      → SoundTree h
      → AllOk SoundTree (add_proxy_entity alive self stack fresh e h)
  unfolding add_proxy_entity add_new_proxy keep_proxy put in_world
  add_proxy_entity-Sound fresh none h f s = s
  add_proxy_entity-Sound fresh (some e) h f s = pure-AllOk SoundTree (Uri.parent e.uri) _ (λ u.
      let new : Entity = record e { sync = Sync.set_proxy e.sync } in
      bind-AllOk SoundTree SoundTree _ _
        (add_to_parent-Sound (find_entity u h) fresh (put fresh new h)
          (put-Absent-Sound fresh new h.world (free-Absent fresh h.world f s) s))
        (λ g r t.
          bind-AllOk SoundTree SoundTree _ _ (register_entity-Sound alive self fresh g t) (λ i q v.
            bind-AllOk SoundTree SoundTree _ _ (adopt_below-Sound fresh i v)
              (λ j o w. dispatch-Sound fresh (keep_proxy alive self stack fresh j) w))))

  alert_stage-Sound :
      (p : ℕ) (e : Entity) (h : Hierarchy)
      → At h p e
      → SoundTree h
      → AllOk SoundTree (alert_stage alive self stack p e h)
  unfolding alert_stage note
  alert_stage-Sound p e h k s = if-AllOk SoundTree e.sync.core.proxy _ _ s (
      pure-AllOk SoundTree (update_creatable_uris e.uri e.creatables []) _ (λ cs.
        let t = touch-Sound p e (record e { creatables = cs }) h k refl refl s in
        if-holds SoundTree e.registered _ _ (λ r. t) (λ r. t)))

  update_creatables-Sound :
      (p : ℕ) (h : Hierarchy)
      → SoundTree h
      → AllOk SoundTree (update_creatables alive self stack p h)
  unfolding update_creatables wake_for note
  update_creatables-Sound p h s = read-AllOk SoundTree p h _ (λ e k.
      bind-AllOk SoundTree SoundTree _ _ (alert_stage-Sound p e h k s)
        (λ g r t. if-holds SoundTree e.registered _ _ (λ q. t) (λ q. t)))

  rename-Sound :
      (p : ℕ) (d : Payload) (h : Hierarchy)
      → SoundTree h
      → AllOk SoundTree (rename alive self stack p d h)
  unfolding rename defer
  rename-Sound p d h s = read-AllOk SoundTree p h _ (λ e k.
      if-AllOk SoundTree (not_equal e.uri (uri_of d.uri)) _ _
        (pure-AllOk SoundTree (Uri.parent (uri_of d.uri)) _ (λ above.
          if-AllOk SoundTree (not_equal e.parent above) _ _ s (
            pure-AllOk SoundTree (Uri.last (uri_of d.uri)) _ (λ name.
              bind-AllOk SoundTree SoundTree _ _
                (set_name-Sound alive self stack (Uri.path name) p h s) (λ g r t. t)))))
        s)

  pub update_proxy_entity-Sound :
      (p : Option ℕ) (d : Payload) (h : Hierarchy)
      → SoundTree h
      → AllOk SoundTree (update_proxy_entity alive self stack p d h)
  unfolding update_proxy_entity update_original update_factory
  update_proxy_entity-Sound none d h s = s
  update_proxy_entity-Sound (some p) d h s = read-AllOk SoundTree p h _ (λ e k.
      if-AllOk SoundTree (is_factory_entity d.entity_types) _ _
        (if-AllOk SoundTree (is_factory e.kind) _ _
          (bind-AllOk SoundTree SoundTree _ _
            (update_creatables-Sound p _ (
              touch-Sound p e (record e { creatables = add_each_creatable d.creatables [] }) h k
                refl refl s))
            (λ g r. rename-Sound p d g))
          s)
        (rename-Sound p d h s))
