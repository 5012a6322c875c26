-- ===== src/Hierarchy/Removal/Kept.antt =====
-- The destruction of entities and the reaper keep the lookup map right.
use showtime_cpp.Common.{
  ℕ, Bool, true, false, not, ◌&&◌, ◌||◌, List, [], ◌∷◌, ◌++◌, Option, none, some, ◌≡◌, refl, ◌∙◌,
  if◌then◌else◌, Result, ok, thrown, AllOk, bind-AllOk, if-AllOk, if-holds, Bool-cases, inl, inr,
}
use showtime_cpp.Sync
use showtime_cpp.Sync.{Sync, Note, deactivating, destroyed}
use showtime_cpp.Session.{heard, is_destruction_for}
use showtime_cpp.World
use showtime_cpp.World.{Entity}
use showtime_cpp.World.Sound.{Absent, unregistered-Absent, erase-Sound, erase-Absent, release-Sound}
use showtime_cpp.Tree.{Hierarchy, none_type, put, in_world, is_component, parent_of}
use showtime_cpp.Tree.Sound.{SoundTree, read-AllOk, pure-AllOk, touch-Sound, remove_child-Sound}
use showtime_cpp.Hierarchy.{get_child_entities, with_sync}
use showtime_cpp.Hierarchy.Sound.{with_sync-Sound, for_each-AllOk}
use showtime_cpp.Hierarchy.Removal.{
  announce_leaving, status_is_destroyed, deactivate_entity, deactivate, is_plug, is_output,
  run_hook, run_hooks, new_notes, member, remove, reaper_cleanup_entity, leave_activation,
  queue_cleanup, on_synchronisable_destroyed, leave_parent, deactivate_below,
  destroy_entity_complete, remove_proxy_entity, finish_processing, process_entity, process_woken,
  deactivate_children, set_destroyed, dispatch_destroyed, base_destructor, free, erase_proxy,
  clean_up, reap_each, reap_all, process_synchronisables,
}

-- The hooks leave the path and the registration alone.
SamePlace : Entity → Entity → Type 0
SamePlace d e = (d.uri ≡ e.uri) × (d.registered ≡ e.registered)

run_hook_lem : (n : Note) (e : Entity) → SamePlace (run_hook n e) e
unfolding run_hook SamePlace
run_hook_lem Note.on_activation e =
    if-holds (λ (d : Entity). (d.uri ≡ e.uri) × (d.registered ≡ e.registered))
      (is_output e.kind && not e.sync.core.proxy) _ _ (λ r. (refl, refl)) (λ r. (refl, refl))
run_hook_lem Note.on_deactivation e =
    if-holds (λ (d : Entity). (d.uri ≡ e.uri) × (d.registered ≡ e.registered)) (is_plug e.kind) _ _
      (λ r. (refl, refl)) (λ r. (refl, refl))
run_hook_lem (Note.told_activated a) e = (refl, refl)
run_hook_lem (Note.told_deactivated a) e = (refl, refl)
run_hook_lem (Note.told_destroyed a) e = (refl, refl)
run_hook_lem (Note.told_updated a) e = (refl, refl)
run_hook_lem (Note.told_has_event a) e = (refl, refl)

run_hooks_lem : (ns : List Note) (e : Entity) → SamePlace (run_hooks ns e) e
unfolding run_hooks SamePlace
run_hooks_lem [] e = (refl, refl)
run_hooks_lem (n ∷ ns) e =
    let (u, r) = run_hook_lem n e in let (v, q) = run_hooks_lem ns (run_hook n e) in (v ∙ u, q ∙ r)

announce_leaving-Sound :
    (p : ℕ) (h : Hierarchy) → SoundTree h → AllOk SoundTree (announce_leaving p h)
unfolding announce_leaving
announce_leaving-Sound p h s =
    read-AllOk SoundTree p h _ (λ e k. if-holds SoundTree e.sync.core.proxy _ _ (λ r. s) (λ r. s))

-- The map is right, and does not lead to the object that is about to go.
abbrev Leaving : ℕ → Hierarchy → Type 0
Leaving p h = SoundTree h × Absent p h.world.lookup

deactivate_entity-Leaving :
    (q p : ℕ) (h : Hierarchy) → Leaving q h → AllOk (Leaving q) (deactivate_entity p h)
unfolding deactivate_entity put in_world World.put
deactivate_entity-Leaving q p h (s, a) = read-AllOk (Leaving q) p h _ (λ e k.
    if-holds (Leaving q) (status_is_destroyed e.sync.core.status) _ _ (λ r. (s, a))
      (λ r. (
        touch-Sound p e (record e { sync = Sync.set_activation_status deactivating e.sync }) h k
            refl refl s,
        a,
      )))

deactivate-Leaving : (q p : ℕ) (h : Hierarchy) → Leaving q h → AllOk (Leaving q) (deactivate p h)
unfolding deactivate
deactivate-Leaving q p h l = read-AllOk (Leaving q) p h _ (λ e k.
    if-AllOk (Leaving q) (Sync.is_destroyed e.sync) _ _ l (
      if-AllOk (Leaving q) (not e.registered || not (Sync.is_activated e.sync)) _ _ l
        (deactivate_entity-Leaving q p h l)))

deactivate_entity-Sound :
    (p : ℕ) (h : Hierarchy) → SoundTree h → AllOk SoundTree (deactivate_entity p h)
unfolding deactivate_entity
deactivate_entity-Sound p h s = read-AllOk SoundTree p h _ (λ e k.
    if-holds SoundTree (status_is_destroyed e.sync.core.status) _ _ (λ r. s)
      (λ r.
        touch-Sound p e (record e { sync = Sync.set_activation_status deactivating e.sync }) h k
          refl refl s))

reaper_cleanup_entity-Sound :
    (p : ℕ) (h : Hierarchy) → SoundTree h → AllOk (Leaving p) (reaper_cleanup_entity p h)
unfolding reaper_cleanup_entity in_world World.remove_entity_from_lookup
reaper_cleanup_entity-Sound p h s =
    read-AllOk (Leaving p) p h _
      (λ e k. (erase-Sound e.uri h.world s, erase-Absent p e h.world k s))

queue_cleanup-Sound :
    (already_removed : Bool) (p : ℕ) (h : Hierarchy)
    → SoundTree h
    → AllOk SoundTree (queue_cleanup already_removed p h)
unfolding queue_cleanup
queue_cleanup-Sound true p h s = read-AllOk SoundTree p h _ (λ e k.
    let marked : Hierarchy = record h { dead = h.dead ++ e.sync.core.instance_id ∷ [] } in
    forget (reaper_cleanup_entity p marked) (reaper_cleanup_entity-Sound p marked s))
  where
    forget : (r : Result Hierarchy) → AllOk (Leaving p) r → AllOk SoundTree r
    forget (thrown why) l = tt
    forget (ok g) l = l.0
queue_cleanup-Sound false p h s = read-AllOk SoundTree p h _ (λ e k.
    touch-Sound p e (record e { sync = Sync.set_activation_status destroyed e.sync }) h k refl refl
      s)

pub on_synchronisable_destroyed-Sound :
    (already_removed : Bool) (p : ℕ) (h : Hierarchy)
    → SoundTree h
    → AllOk SoundTree (on_synchronisable_destroyed already_removed p h)
unfolding on_synchronisable_destroyed leave_activation
on_synchronisable_destroyed-Sound already_removed p h s =
    bind-AllOk SoundTree SoundTree (leave_activation p h) _
      (read-AllOk SoundTree p h _ (λ e k.
        if-AllOk SoundTree (Sync.is_activated e.sync || status_is_destroyed e.sync.core.status) _ _
          (deactivate_entity-Sound p h s) s))
      (λ g r t. queue_cleanup-Sound already_removed p g t)

deactivate-Sound : (p : ℕ) (h : Hierarchy) → SoundTree h → AllOk SoundTree (deactivate p h)
unfolding deactivate
deactivate-Sound p h s = read-AllOk SoundTree p h _ (λ e k.
    if-AllOk SoundTree (Sync.is_destroyed e.sync) _ _ s (
      if-AllOk SoundTree (not e.registered || not (Sync.is_activated e.sync)) _ _ s
        (deactivate_entity-Sound p h s)))

-- What the hierarchy does for a destructor.
told-Leaving :
    (p : ℕ) (h : Hierarchy) → SoundTree h → AllOk (Leaving p) (on_synchronisable_destroyed true p h)
unfolding on_synchronisable_destroyed leave_activation queue_cleanup
told-Leaving p h s =
    bind-AllOk SoundTree (Leaving p) _ _
      (read-AllOk SoundTree p h _ (λ e k.
        if-AllOk SoundTree (Sync.is_activated e.sync || status_is_destroyed e.sync.core.status) _ _
          (deactivate_entity-Sound p h s) s))
      (λ g r t. read-AllOk (Leaving p) p g _ (λ e k.
        reaper_cleanup_entity-Sound p (record g { dead = g.dead ++ e.sync.core.instance_id ∷ [] })
          t))

-- No path leads to the object, if its status is `DESTROYED` already.
abbrev pub Settled : ℕ → Hierarchy → Type 0
Settled p h =
    (e : Entity)
    → h.world.heap p ≡ some e
    → status_is_destroyed e.sync.core.status ≡ true
    → Absent p h.world.lookup

module _ (alive : ℕ → Bool) (self : ℕ) (stack : ℕ) where
  leave_parent-Sound :
      (parent : Option ℕ) (p : ℕ) (h : Hierarchy)
      → SoundTree h
      → AllOk SoundTree (leave_parent alive self stack parent p h)
  unfolding leave_parent
  leave_parent-Sound none p h s = s
  leave_parent-Sound (some q) p h s = remove_child-Sound alive self stack q p h s

  deactivate_below-Sound :
      (p : ℕ) (h : Hierarchy)
      → SoundTree h
      → AllOk SoundTree (deactivate_below alive self stack p h)
  unfolding deactivate_below
  deactivate_below-Sound p h s =
      pure-AllOk SoundTree (get_child_entities stack true true none_type h p) _ (λ bundle.
        for_each-AllOk alive self SoundTree (with_sync alive self (Sync.enqueue_deactivation alive))
          bundle h (λ q g t. with_sync-Sound alive self (Sync.enqueue_deactivation alive) q g t) s)

  pub destroy_entity_complete-Sound :
      (p : Option ℕ) (h : Hierarchy)
      → SoundTree h
      → AllOk SoundTree (destroy_entity_complete alive self stack p h)
  unfolding destroy_entity_complete
  destroy_entity_complete-Sound none h s = s
  destroy_entity_complete-Sound (some p) h s = read-AllOk SoundTree p h _ (λ e k.
      bind-AllOk SoundTree SoundTree _ _ (leave_parent-Sound (parent_of e h) p h s) (λ g r t.
        bind-AllOk SoundTree SoundTree _ _ (announce_leaving-Sound p g t)
          (λ i q. deactivate_below-Sound p i)))

  pub remove_proxy_entity-Sound :
      (p : Option ℕ) (h : Hierarchy)
      → SoundTree h
      → AllOk SoundTree (remove_proxy_entity alive self stack p h)
  unfolding remove_proxy_entity
  remove_proxy_entity-Sound none h s = s
  remove_proxy_entity-Sound (some p) h s = read-AllOk SoundTree p h _ (λ e k.
      if-AllOk SoundTree e.sync.core.proxy _ _ (destroy_entity_complete-Sound (some p) h s) s)

  finish_processing-Sound :
      (told : Bool) (p : ℕ) (h : Hierarchy)
      → SoundTree h
      → AllOk SoundTree (finish_processing alive self stack told p h)
  unfolding finish_processing
  finish_processing-Sound told p h s =
      if-AllOk SoundTree told _ _ (on_synchronisable_destroyed-Sound false p h s) s

  process_entity-Sound :
      (p : ℕ) (h : Hierarchy) → SoundTree h → AllOk SoundTree (process_entity alive self stack p h)
  unfolding process_entity SamePlace
  process_entity-Sound p h s = read-AllOk SoundTree p h _ (λ e k.
      let after = Sync.process_events alive e.sync in
      let (u, r) = run_hooks_lem (new_notes e.sync after) (record e { sync = after }) in
      finish_processing-Sound (heard (is_destruction_for self) e.sync after) p _ (
        touch-Sound p e (run_hooks (new_notes e.sync after) (record e { sync = after })) h k u r s))

  process_woken-Sound :
      (events : List (ℕ × ℕ)) (h : Hierarchy)
      → SoundTree h
      → AllOk SoundTree (process_woken alive self stack events h)
  unfolding process_woken
  process_woken-Sound [] h s = s
  process_woken-Sound ((p, id) ∷ rest) h s =
      bind-AllOk SoundTree SoundTree
        (if member id h.dead then ok h else process_entity alive self stack p h) _
        (if-AllOk SoundTree (member id h.dead) _ _ s (process_entity-Sound p h s))
        (λ g r. process_woken-Sound rest g)

  deactivate_children-Leaving :
      (e : Entity) (p : ℕ) (h : Hierarchy)
      → Leaving p h
      → AllOk (Leaving p) (deactivate_children alive self stack e p h)
  unfolding deactivate_children
  deactivate_children-Leaving e p h l =
      if-AllOk (Leaving p) (is_component e.kind) _ _
        (pure-AllOk (Leaving p) (get_child_entities stack false true none_type h p) _ (λ bundle.
          for_each-AllOk alive self (Leaving p) deactivate bundle h
            (λ q g m. deactivate-Leaving p q g m) l))
        l

  pub children-Sound :
      (e : Entity) (p : ℕ) (h : Hierarchy)
      → SoundTree h
      → AllOk SoundTree (deactivate_children alive self stack e p h)
  unfolding deactivate_children
  children-Sound e p h s =
      if-AllOk SoundTree (is_component e.kind) _ _
        (pure-AllOk SoundTree (get_child_entities stack false true none_type h p) _ (λ bundle.
          for_each-AllOk alive self SoundTree deactivate bundle h (λ q g t. deactivate-Sound q g t)
            s))
        s

  -- The destructor leaves no path to the object, if there was none when the object is `DESTROYED`.
  destroyed-Leaving :
      (p : ℕ) (h : Hierarchy)
      → SoundTree h
      → Settled p h
      → AllOk (Leaving p) (dispatch_destroyed alive self stack p h)
  unfolding dispatch_destroyed on_synchronisable_destroyed
  destroyed-Leaving p h s settled = read-AllOk (Leaving p) p h _ (λ e k.
      elim (Bool-cases (status_is_destroyed e.sync.core.status)) [
        | inl gone ↦ rw gone (s, settled e k gone)
        | inr there ↦ elim (Bool-cases e.registered) [
          | inr unknown ↦ rw (there, unknown) (s, unregistered-Absent p e h.world k unknown s)
          | inl known ↦
              rw (there, known)
                (pure-AllOk (Leaving p) (get_child_entities stack false false none_type h p) _
                  (λ bundle.
                    bind-AllOk SoundTree (Leaving p) _ _
                      (for_each-AllOk alive self SoundTree (set_destroyed alive self stack) bundle h
                        (λ q g t.
                          with_sync-Sound alive self (Sync.set_activation_status destroyed) q g t)
                        s)
                      (λ g r t. told-Leaving p g t)))
        ]
      ])

  pub base_destructor-Sound :
      (p : ℕ) (h : Hierarchy)
      → SoundTree h
      → Settled p h
      → AllOk SoundTree (base_destructor alive self stack p h)
  unfolding base_destructor in_world
  base_destructor-Sound p h s settled =
      bind-AllOk (Leaving p) SoundTree _ _ (destroyed-Leaving p h s settled)
        (λ g r m. release-Sound p g.world m.1 m.0)

  free-Sound : (p : ℕ) (h : Hierarchy) → Leaving p h → AllOk SoundTree (free alive self stack p h)
  unfolding free
  free-Sound p h l = read-AllOk SoundTree p h _ (λ e k.
      bind-AllOk (Leaving p) SoundTree _ _ (deactivate_children-Leaving e p h l)
        (λ g r m. base_destructor-Sound p g m.0 (λ d k gone. m.1)))

  clean_up-Sound :
      (p id : ℕ) (h : Hierarchy) → SoundTree h → AllOk SoundTree (clean_up alive self stack p id h)
  unfolding clean_up erase_proxy
  clean_up-Sound p id h s = if-AllOk SoundTree (member id h.dead) _ _ s (
      read-AllOk SoundTree p h _ (λ e k.
        bind-AllOk (Leaving p) SoundTree _ _ (reaper_cleanup_entity-Sound p h s) (λ g r l.
          if-AllOk SoundTree (e.sync.core.proxy && member p g.proxies) _ _
            (free-Sound p (record g { proxies = remove p g.proxies }) l) l.0)))

  reap_each-Sound :
      (ops : List (ℕ × ℕ)) (h : Hierarchy)
      → SoundTree h
      → AllOk SoundTree (reap_each alive self stack ops h)
  unfolding reap_each
  reap_each-Sound [] h s = s
  reap_each-Sound ((p, id) ∷ rest) h s =
      bind-AllOk SoundTree SoundTree _ _ (clean_up-Sound p id h s) (λ g r. reap_each-Sound rest g)

  pub process_synchronisables-Sound :
      (h : Hierarchy) → SoundTree h → AllOk SoundTree (process_synchronisables alive self stack h)
  unfolding process_synchronisables reap_all
  process_synchronisables-Sound h s =
      bind-AllOk SoundTree SoundTree _ _ (process_woken-Sound h.woken (record h { woken = [] }) s)
        (λ g r t.
          bind-AllOk SoundTree SoundTree _ _
            (reap_each-Sound g.cleanups (record g { cleanups = [] }) t) (λ i q v. v))
