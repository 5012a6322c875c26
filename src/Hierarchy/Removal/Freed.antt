-- ===== src/Hierarchy/Removal/Freed.antt =====
-- A proxy without children, from `remove_proxy_entity` to the reaper.
use showtime_cpp.Common.{
  ℕ, suc, ◌==◌, ◌≡◌, ◌⊎◌, refl, ap, ◌∙◌, Bool, true, false, not, ◌&&◌, ◌||◌, List, [], ◌∷◌, ◌++◌,
  none, some, Result, ok, ◌>>=◌, if◌then◌else◌, Bool-cases, inl, inr, append-nil,
}
use showtime_cpp.Uri.{Uri, equal}
use showtime_cpp.CableAddress.{CableAddress}
use showtime_cpp.Sync
use showtime_cpp.Sync.{Sync, Note, activated, deactivating, deactivated, destroyed}
use showtime_cpp.Sync.Told.{live}
use showtime_cpp.Sync.Settle.{deactivation_core, deactivated_lem}
use showtime_cpp.Session.{heard, is_destruction_for}
use showtime_cpp.Session.Heard.{listens, heard_event, heard_destruction}
use showtime_cpp.World
use showtime_cpp.World.{World, Entity}
use showtime_cpp.World.Lookup.{Distinct, find-erase}
use showtime_cpp.Tree.{
  Hierarchy, none_type, find_entity, entity_at, put, in_world, is_component, parent_of, type_of,
  passes,
}
use showtime_cpp.Tree.Sound.{At}
use showtime_cpp.Tree.Leaf.{read_lem, put_At}
use showtime_cpp.Hierarchy.{get_child_entities, for_each, with_sync, only_self, visit_each}
use showtime_cpp.Hierarchy.Removal.{
  leaving_event, announce_leaving, status_is_destroyed, run_hook, run_hooks, new_notes, member,
  remove, is_plug, is_output, reaper_cleanup_entity, leave_activation, queue_cleanup,
  on_synchronisable_destroyed, leave_parent, deactivate_below, destroy_entity_complete,
  remove_proxy_entity, finish_processing, process_entity, process_woken, deactivate_children,
  set_destroyed, dispatch_destroyed, base_destructor, free, deactivate, deactivate_entity,
  erase_proxy, clean_up, reap_each, reap_all, process_synchronisables,
}

-- What the hooks change.
hooked : Bool → List CableAddress → Entity → Entity
hooked can_fire cables e = record e { can_fire = can_fire; cables = cables }

run_hook_lem :
    (n : Note) (e : Entity) → (b : Bool) × (l : List CableAddress) × (run_hook n e ≡ hooked b l e)
unfolding run_hook hooked
run_hook_lem Note.on_activation e = go (is_output e.kind && not e.sync.core.proxy)
  where
    go :
        (t : Bool)
        → (b : Bool) × (l : List CableAddress) × ((if t then record e { can_fire = true } else e)
            ≡ record e { can_fire = b; cables = l })
    go true = (true, e.cables, refl)
    go false = (e.can_fire, e.cables, refl)
run_hook_lem Note.on_deactivation e = go (is_plug e.kind)
  where
    go :
        (t : Bool)
        → (b : Bool) × (l : List CableAddress) × ((if t then record e { cables = [] } else e)
            ≡ record e { can_fire = b; cables = l })
    go true = (e.can_fire, [], refl)
    go false = (e.can_fire, e.cables, refl)
run_hook_lem (Note.told_activated a) e = (e.can_fire, e.cables, refl)
run_hook_lem (Note.told_deactivated a) e = (e.can_fire, e.cables, refl)
run_hook_lem (Note.told_destroyed a) e = (e.can_fire, e.cables, refl)
run_hook_lem (Note.told_updated a) e = (e.can_fire, e.cables, refl)
run_hook_lem (Note.told_has_event a) e = (e.can_fire, e.cables, refl)

run_hooks_lem :
    (ns : List Note) (e : Entity)
    → (b : Bool) × (l : List CableAddress) × (run_hooks ns e ≡ hooked b l e)
unfolding run_hooks hooked
run_hooks_lem [] e = (e.can_fire, e.cables, refl)
run_hooks_lem (n ∷ ns) e =
    let (b, l, first) = run_hook_lem n e in
    let (c, m, rest) = run_hooks_lem ns (hooked b l e) in (c, m, ap (run_hooks ns) first ∙ rest)

visit_none :
    (visit : ℕ → Result (List ℕ)) (e : Entity) (h : Hierarchy) → visit_each visit e [] h ≡ ok []
unfolding visit_each
visit_none visit e h = refl

no_children :
    (visit : ℕ → Result (List ℕ)) (e : Entity) (h : Hierarchy) (own : List ℕ) (c : Bool)
    → e.children ≡ []
    → (if c then (visit_each visit e e.children h >>= λ below. ok (own ++ below)) else ok own)
      ≡ ok own
unfolding visit_each
no_children visit e h own c leaf =
    ap (λ us. if c then (visit_each visit e us h >>= λ below. ok (own ++ below)) else ok own) leaf
    ∙ alone c
  where
    alone : (c : Bool) → (if c then ok (own ++ []) else ok own) ≡ ok own
    alone true = simp append-nil
    alone false = refl

-- The bundle of an entity without children.
pub leaf_entities :
    (n : ℕ) (include_parent : Bool) (p : ℕ) (e : Entity) (h : Hierarchy)
    → At h p e
    → e.children ≡ []
    → get_child_entities (suc n) include_parent true none_type h p
      ≡ ok (if include_parent then p ∷ [] else [])
unfolding get_child_entities only_self passes
leaf_entities n include_parent p e h k leaf =
    read_lem p e h _ k
    ∙ no_children (get_child_entities n true true none_type h) e h _ (is_component e.kind) leaf
    ∙ own include_parent
  where
    own :
        (b : Bool)
        → ok (if b && passes none_type e then p ∷ [] else []) ≡ ok (if b then p ∷ [] else [])
    own true = refl
    own false = refl

abbrev forget_dead : Hierarchy → Hierarchy
forget_dead h = record h { dead = [] }

abbrev with_woken : List (ℕ × ℕ) → Hierarchy → Hierarchy
with_woken l h = record h { woken = l }

-- The operation of the reaper, for an object that `m_proxies` owns.
module _ (alive : ℕ → Bool) (self n : ℕ) (p : ℕ) (x : Entity) (g : Hierarchy) (k : At g p x)
    (proxy : x.sync.core.proxy ≡ true) (leaf : x.children ≡ [])
    (gone : status_is_destroyed x.sync.core.status ≡ true) (owned : member p g.proxies ≡ true) where
  abbrev unlisted : Hierarchy
  unlisted = in_world (World.remove_entity_from_lookup x.uri) g

  abbrev disowned : Hierarchy
  disowned = record unlisted { proxies = remove p g.proxies }

  children_eq : deactivate_children alive self (suc n) x p disowned ≡ ok disowned
  unfolding deactivate_children for_each in_world World.remove_entity_from_lookup
  children_eq = go (is_component x.kind)
    where
      go :
          (c : Bool)
          → (if c
              then (get_child_entities (suc n) false true none_type disowned p >>= λ bundle.
                  for_each alive self deactivate bundle disowned)
              else ok disowned)
            ≡ ok disowned
      go true =
          ap (λ r. r >>= λ bundle. for_each alive self deactivate bundle disowned)
            (leaf_entities n false p x disowned k leaf)
      go false = refl

  -- The destructor tells nobody of an object whose destruction was told.
  dispatched_eq : dispatch_destroyed alive self (suc n) p disowned ≡ ok disowned
  unfolding dispatch_destroyed in_world World.remove_entity_from_lookup
  dispatched_eq =
      read_lem p x disowned _ k
      ∙ ap
          (λ b.
            if b || not x.registered
            then ok disowned
            else (get_child_entities (suc n) false false none_type disowned p >>= λ bundle.
                for_each alive self (set_destroyed alive self (suc n)) bundle disowned >>= λ h.
                on_synchronisable_destroyed true p h))
          gone

  free_eq : free alive self (suc n) p disowned ≡ ok (in_world (World.release p) disowned)
  unfolding free base_destructor in_world World.remove_entity_from_lookup
  free_eq =
      read_lem p x disowned _ k
      ∙ ap (λ r. r >>= base_destructor alive self (suc n) p) children_eq
      ∙ ap (λ r. r >>= λ h. ok (in_world (World.release p) h)) dispatched_eq

  clean_up_eq :
      (id : ℕ)
      → member id g.dead ≡ false
      → clean_up alive self (suc n) p id g ≡ ok (in_world (World.release p) disowned)
  unfolding clean_up reaper_cleanup_entity erase_proxy in_world World.remove_entity_from_lookup
  clean_up_eq id new =
      ap
        (λ b.
          if b
          then ok g
          else (entity_at p g >>= λ e. reaper_cleanup_entity p g >>= λ h.
              erase_proxy alive self (suc n) e.sync.core.proxy p h))
        new
      ∙ read_lem p x g _ k
      ∙ ap (λ r. r >>= λ h. erase_proxy alive self (suc n) x.sync.core.proxy p h)
          (read_lem p x g (λ e. ok (in_world (World.remove_entity_from_lookup e.uri) g)) k)
      ∙ ap
          (λ b. if b && member p g.proxies then free alive self (suc n) p disowned else ok unlisted)
          proxy
      ∙ ap (λ b. if b then free alive self (suc n) p disowned else ok unlisted) owned
      ∙ free_eq

-- The processing of an entity whose events end its activation and tell the hierarchy so.
module _ (alive : ℕ → Bool) (self stack : ℕ) (p : ℕ) (d : Entity) (g : Hierarchy) (k : At g p d)
    (told : heard (is_destruction_for self) d.sync (Sync.process_events alive d.sync) ≡ true)
    (status : (Sync.process_events alive d.sync).core.status ≡ deactivated) where
  abbrev after : Sync
  after = Sync.process_events alive d.sync

  abbrev settled : Bool → List CableAddress → Entity
  settled b l = hooked b l (record d { sync = after })

  abbrev dying : Bool → List CableAddress → Entity
  dying b l = record (settled b l) { sync = Sync.set_activation_status destroyed after }

  abbrev doomed : Bool → List CableAddress → Hierarchy
  doomed b l =
      let t = put p (dying b l) (put p (settled b l) g) in
      record t { cleanups = g.cleanups ++ (p, after.core.instance_id) ∷ [] }

  leave_eq :
      (b : Bool) (l : List CableAddress)
      → leave_activation p (put p (settled b l) g) ≡ ok (put p (settled b l) g)
  unfolding leave_activation hooked
  leave_eq b l =
      let t = put p (settled b l) g in
      read_lem p (settled b l) t _ (put_At p (settled b l) g)
      ∙ ap (λ c. if c || status_is_destroyed after.core.status then deactivate_entity p t else ok t)
          (deactivated_lem after status)
      ∙ ap (λ c. if status_is_destroyed c then deactivate_entity p t else ok t) status

  dying_eq :
      (b : Bool) (l : List CableAddress)
      → on_synchronisable_destroyed false p (put p (settled b l) g) ≡ ok (doomed b l)
  unfolding on_synchronisable_destroyed queue_cleanup hooked put in_world
  dying_eq b l =
      ap (λ r. r >>= queue_cleanup false p) (leave_eq b l)
      ∙ read_lem p (settled b l) (put p (settled b l) g) _ (put_At p (settled b l) g)

  process_entity_eq :
      (b : Bool) × (l : List CableAddress) × (process_entity alive self stack p g ≡ ok (doomed b l))
  unfolding process_entity finish_processing
  process_entity_eq =
      let (b, l, hooks) = run_hooks_lem (new_notes d.sync after) (record d { sync = after }) in
      (
        b,
        l,
        read_lem p d g _ k
            ∙ ap
                (λ c.
                  finish_processing alive self stack c p
                    (put p (run_hooks (new_notes d.sync after) (record d { sync = after })) g))
                told
            ∙ ap (λ x. on_synchronisable_destroyed false p (put p x g)) hooks
            ∙ dying_eq b l,
      )

module _ (alive : ℕ → Bool) (self n : ℕ) (p : ℕ) (e : Entity) (h : Hierarchy) (k : At h p e)
    (proxy : e.sync.core.proxy ≡ true) (leaf : e.children ≡ []) (alone : parent_of e h ≡ none)
    (st : (e.sync.core.status ≡ activated) ⊎ (e.sync.core.status ≡ deactivating))
    (quiet : e.sync.events.events ≡ []) (a : ℕ) (rest : List ℕ)
    (lives : live alive e.sync ≡ a ∷ rest) (hears : listens self (a ∷ rest) ≡ true)
    (idle : h.woken ≡ []) where
  abbrev queued_sync : Sync
  queued_sync = Sync.enqueue_deactivation alive e.sync

  abbrev announced : Hierarchy
  announced = record h { events = h.events ++ leaving_event (type_of e.kind) e.uri }

  abbrev queued : Hierarchy
  queued =
      with_woken ((p, e.sync.core.instance_id) ∷ [])
        (put p (record e { sync = queued_sync }) announced)

  announce_eq : announce_leaving p h ≡ ok announced
  unfolding announce_leaving
  announce_eq =
      read_lem p e h _ k
      ∙ ap
          (λ b. ok (
            if b
            then record h { events = h.events ++ leaving_event (type_of e.kind) e.uri }
            else h))
          proxy

  with_sync_eq : with_sync alive self (Sync.enqueue_deactivation alive) p announced ≡ ok queued
  unfolding with_sync
  with_sync_eq =
      let changed = put p (record e { sync = queued_sync }) announced in
      read_lem p e announced _ k
      ∙ ap
          (λ b. ok (
            with_woken (if b then h.woken ++ (p, e.sync.core.instance_id) ∷ [] else h.woken)
              changed))
          (heard_event alive self e.sync a rest st quiet lives hears)
      ∙ ap (λ l. ok (with_woken (l ++ (p, e.sync.core.instance_id) ∷ []) changed)) idle

  below_eq : deactivate_below alive self (suc n) p announced ≡ ok queued
  unfolding deactivate_below for_each
  below_eq =
      ap
        (λ r. r >>= λ bundle.
          for_each alive self (with_sync alive self (Sync.enqueue_deactivation alive)) bundle
            announced)
        (leaf_entities n true p e announced k leaf)
      ∙ ap (λ r. r >>= λ g. ok g) with_sync_eq

  destroyed_eq : destroy_entity_complete alive self (suc n) (some p) h ≡ ok queued
  unfolding destroy_entity_complete leave_parent
  destroyed_eq =
      read_lem p e h _ k
      ∙ ap
          (λ o. leave_parent alive self (suc n) o p h >>= λ h.
            announce_leaving p h >>= λ h. deactivate_below alive self (suc n) p h)
          alone
      ∙ ap (λ r. r >>= deactivate_below alive self (suc n) p) announce_eq
      ∙ below_eq

  removed_eq : remove_proxy_entity alive self (suc n) (some p) h ≡ ok queued
  unfolding remove_proxy_entity
  removed_eq =
      read_lem p e h _ k
      ∙ ap (λ b. if b then destroy_entity_complete alive self (suc n) (some p) h else ok h) proxy
      ∙ destroyed_eq

  told_destroyed :
      heard (is_destruction_for self) queued_sync (Sync.process_events alive queued_sync) ≡ true
  told_destroyed = heard_destruction alive self e.sync a rest st quiet lives hears

  processed_sync : (Sync.process_events alive queued_sync).core.status ≡ deactivated
  processed_sync = ap (λ c. c.status) (deactivation_core alive e.sync a rest st quiet lives).0

  still_proxy : (Sync.process_events alive queued_sync).core.proxy ≡ true
  still_proxy = ap (λ c. c.proxy) (deactivation_core alive e.sync a rest st quiet lives).0 ∙ proxy

  module _ (clean : h.cleanups ≡ []) (none_dead : h.dead ≡ []) (owned : member p h.proxies ≡ true)
      (distinct : Distinct h.world.lookup) where
    abbrev left_of : Entity
    left_of = record e { sync = queued_sync }

    abbrev started : Hierarchy
    started = record queued { woken = [] }

    -- What is left of the hierarchy.
    Freed : Hierarchy → Type 0
    Freed g =
        ((q : ℕ) → g.world.heap q ≡ (if q == p then none else h.world.heap q))
        × ((u : Uri) → find_entity u g ≡ (if equal e.uri u then none else find_entity u h))
        × (g.proxies ≡ remove p h.proxies)
        × (g.events ≡ h.events ++ leaving_event (type_of e.kind) e.uri)
        × (g.woken ≡ [])
        × (g.cleanups ≡ [])

    reaped :
        (b : Bool) (l : List CableAddress)
        → (g : Hierarchy) × (reap_all alive self (suc n) (
              doomed alive self
                (suc n)
                p
                left_of
                started
                (put_At p left_of announced)
                told_destroyed
                processed_sync
                b
                l)
            ≡ ok g)
          × Freed g
    unfolding reap_all reap_each hooked put in_world World.put World.release
        World.remove_entity_from_lookup World.find_entity find_entity Freed
    reaped b l =
        let x =
          dying alive self (suc n) p left_of started (put_At p left_of announced) told_destroyed
            processed_sync b l in
        let g2 =
          doomed alive self (suc n) p left_of started (put_At p left_of announced) told_destroyed
            processed_sync b l in
        let i = (Sync.process_events alive queued_sync).core.instance_id in
        let g3 : Hierarchy = record g2 { cleanups = [] } in
        let before : Hierarchy =
          put p
            (settled alive self (suc n) p left_of started (put_At p left_of announced)
              told_destroyed processed_sync b l)
            started in
        (
          _,
          ap (λ ops. reap_each alive self (suc n) ops g3 >>= λ t. ok (forget_dead t))
                (ap (λ ops. ops ++ (p, i) ∷ []) clean)
              ∙ ap (λ r. (r >>= λ t. ok t) >>= λ t. ok (forget_dead t))
                  (clean_up_eq alive self n p x g3 (put_At p x before) still_proxy leaf refl owned i
                    (ap (member i) none_dead)),
          (
            (λ q. elim (Bool-cases (q == p)) [ inl n ↦ rw n refl | inr n ↦ rw n refl ]),
            (λ u. find-erase u e.uri h.world.lookup distinct),
            refl,
            refl,
            refl,
            refl,
          ),
        )

    -- A proxy without children whose parent is not found, that is active, has no event waiting, and
    -- whose hierarchy listens to it, while nothing else waits in the hierarchy: `remove_proxy_entity`
    -- and the next `process_events` return, and the object is freed, every other object is as it was,
    -- the path finds nothing and every other path what it found, the hierarchy no longer owns the
    -- object, the event that its kind calls for is queued with its path, and nothing is left to do.
    pub removed_is_freed :
        (g : Hierarchy) × ((remove_proxy_entity alive self (suc n) (some p) h
            >>= process_synchronisables alive self (suc n))
          ≡ ok g)
        × (((q : ℕ) → g.world.heap q ≡ (if q == p then none else h.world.heap q))
            × ((u : Uri) → find_entity u g ≡ (if equal e.uri u then none else find_entity u h))
            × (g.proxies ≡ remove p h.proxies)
            × (g.events ≡ h.events ++ leaving_event (type_of e.kind) e.uri)
            × (g.woken ≡ [])
            × (g.cleanups ≡ []))
    unfolding process_synchronisables process_woken Freed
    removed_is_freed =
        let at : At started p left_of = put_At p left_of announced in
        let (b, l, processed) =
          process_entity_eq alive self (suc n) p left_of started at told_destroyed processed_sync in
        let (g, end, freed) = reaped b l in
        let go = process_entity alive self (suc n) p started in
        (
          g,
          ap (λ r. r >>= process_synchronisables alive self (suc n)) removed_eq
              ∙ ap
                  (λ c.
                    ((if c then ok started else go) >>= λ t. ok t) >>= reap_all alive self (suc n))
                  (ap (member e.sync.core.instance_id) none_dead)
              ∙ ap (λ r. (r >>= λ t. ok t) >>= reap_all alive self (suc n)) processed
              ∙ end,
          freed,
        )
