-- ===== src/Tree/Sound.antt =====
-- Every operation on the tree keeps the lookup map right, whatever the shape of the tree.
use showtime_cpp.Common.{
  ℕ, suc, zero, ==_refl, Bool, true, not, ◌&&◌, List, [], ◌∷◌, Option, none, some, ◌≡◌, refl, ◌∙◌,
  if◌then◌else◌, Result, ok, thrown, Error, ◌>>=◌, AllOk, bind-AllOk, if-AllOk, if-holds, Bytes,
}
use showtime_cpp.Uri.{Uri}
use showtime_cpp.Sync
use showtime_cpp.World
use showtime_cpp.World.{World, Entity}
use showtime_cpp.World.Sound.{
  Sound, put-Sound, erase-Absent, unregistered-Absent, put-Absent-Sound, erase-Sound, assign-Sound,
}
use showtime_cpp.Tree.{
  Hierarchy, entity_at, put, in_world, note, update_creatable_uris, refresh_creatables, is_factory,
  update_uri, moved_uri, parent_address, move_to, base_set_parent, add_child_path,
  remove_child_path, has_child_path, is_component, register_entity, remove_child_by,
  request_activation, request_registration, store_child, add_child_by, reparent_each,
  reparent_children, set_parent, remove_child, add_child, renamed_uri, parent_of, refresh_in_parent,
  base_set_name, set_name,
}

abbrev pub SoundTree : Hierarchy → Type 0
SoundTree h = Sound h.world

abbrev pub At : Hierarchy → ℕ → Entity → Type 0
At h p e = h.world.heap p ≡ some e

pub entity_at-At : (p : ℕ) (h : Hierarchy) → AllOk (At h p) (entity_at p h)
unfolding entity_at
entity_at-At p h = got (h.world.heap p) refl
  where
    got :
        (o : Option Entity)
        → h.world.heap p ≡ o
        → AllOk (At h p) (elim o [ none ↦ thrown Error.invalid_read | some e ↦ ok e ])
    got none k = tt
    got (some e) k = k

-- What follows a dereference has its object.
pub read-AllOk {κ} :
    {A : Type 0} (Q : A → Type κ) (p : ℕ) (h : Hierarchy) (next : Entity → Result A)
    → ((e : Entity) → At h p e → AllOk Q (next e))
    → AllOk Q (entity_at p h >>= next)
read-AllOk Q p h next f =
    bind-AllOk (At h p) Q (entity_at p h) next (entity_at-At p h) (λ e k l. f e l)

always {ℓ} : {A : Type ℓ} (r : Result A) → AllOk {ℓ, 0} (λ a. Unit) r
always (thrown why) = tt
always (ok a) = tt

-- What follows a call that leaves the tree alone.
pub pure-AllOk {ℓ κ μ} :
    {A : Type ℓ} {B : Type κ} (Q : B → Type μ) (r : Result A) (next : A → Result B)
    → ((a : A) → AllOk Q (next a))
    → AllOk Q (r >>= next)
pure-AllOk Q r next f = bind-AllOk (λ a. Unit) Q r next (always r) (λ a k u. f a)

put_at : (p : ℕ) (e : Entity) (h : Hierarchy) → At (put p e h) p e
unfolding put in_world World.put
put_at p e h = rw (==_refl p) refl

-- The fields and the lookup change together.
moved-Sound :
    (p : ℕ) (e : Entity) (parent uri : Uri) (h : Hierarchy)
    → At h p e
    → SoundTree h
    → let moved = record e { parent = parent; uri = uri } in
      let put_moved = put p moved h in
      let t =
        if e.registered
        then in_world (World.update_entity_in_lookup uri p e.uri) put_moved
        else put_moved in
      SoundTree t × At t p moved
unfolding put in_world World.put World.update_entity_in_lookup World.remove_entity_from_lookup
    World.add_entity_to_lookup
moved-Sound p e parent uri h k s =
    let w : World = h.world in
    let moved : Entity = record e { parent = parent; uri = uri } in
    let gone : World = World.remove_entity_from_lookup e.uri w in
    if-holds (λ t. SoundTree t × At t p moved) e.registered _ _
      (λ r. (
        assign-Sound p moved (World.put p moved gone) (rw (==_refl p) refl) r
            (put-Absent-Sound p moved gone (erase-Absent p e w k s) (erase-Sound e.uri w s)),
        rw (==_refl p) refl,
      ))
      (λ r. (put-Absent-Sound p moved w (unregistered-Absent p e w k r s) s, rw (==_refl p) refl))

refresh-Sound :
    (p : ℕ) (e : Entity) (h : Hierarchy)
    → At h p e
    → SoundTree h
    → AllOk SoundTree (refresh_creatables p e h)
unfolding refresh_creatables put in_world
refresh-Sound p e h k s =
    if-AllOk SoundTree (is_factory e.kind) _ _
      (pure-AllOk SoundTree (update_creatable_uris e.uri e.creatables []) _
        (λ cs. put-Sound p e (record e { creatables = cs }) h.world k refl (λ r. r) s))
      s

move_to-Sound :
    (p : ℕ) (e : Entity) (parent uri : Uri) (h : Hierarchy)
    → At h p e
    → SoundTree h
    → AllOk SoundTree (move_to p e parent uri h)
unfolding move_to update_uri
move_to-Sound p e parent uri h k s =
    let (sound, here) = moved-Sound p e parent uri h k s in
    refresh-Sound p (record e { parent = parent; uri = uri }) _ here sound

base_set_parent-Sound :
    (parent : Option ℕ) (p : ℕ) (h : Hierarchy)
    → SoundTree h
    → AllOk SoundTree (base_set_parent parent p h)
unfolding base_set_parent
base_set_parent-Sound parent p h s = pure-AllOk SoundTree (parent_address parent h) _ (λ u.
    read-AllOk SoundTree p h _
      (λ e k. pure-AllOk SoundTree (moved_uri u e.uri) _ (λ v. move_to-Sound p e u v h k s)))

-- A change of fields that leaves the path and the registration alone.
pub touch-Sound :
    (p : ℕ) (e d : Entity) (h : Hierarchy)
    → At h p e
    → d.uri ≡ e.uri
    → d.registered ≡ e.registered
    → SoundTree h
    → SoundTree (put p d h)
unfolding put in_world
touch-Sound p e d h k u r s = put-Sound p e d h.world k u (λ t. r ∙ t) s

module _ (alive : ℕ → Bool) (self : ℕ) where
  pub register_entity-Sound :
      (p : ℕ) (h : Hierarchy) → SoundTree h → AllOk SoundTree (register_entity alive self p h)
  unfolding register_entity put in_world note World.put
  register_entity-Sound p h s = read-AllOk SoundTree p h _ (λ e k.
      let d : Entity = record e { sync = Sync.add_adaptor alive self e.sync; registered = true } in
      let sound =
        assign-Sound p d (World.put p d h.world) (rw (==_refl p) refl) refl
          (put-Sound p e d h.world k refl (λ r. refl) s) in
      if-holds SoundTree e.registered _ _ (λ r. sound) (λ r. sound))

  abbrev pub Keeps : (Option ℕ → ℕ → Hierarchy → Result Hierarchy) → Type 0
  Keeps f =
      (parent : Option ℕ) (p : ℕ) (h : Hierarchy) → SoundTree h → AllOk SoundTree (f parent p h)

  remove_child_by-Sound :
      (f : Option ℕ → ℕ → Hierarchy → Result Hierarchy)
      → Keeps f
      → (this child : ℕ) (h : Hierarchy) → SoundTree h
      → AllOk SoundTree (remove_child_by alive self f this child h)
  unfolding remove_child_by remove_child_path
  remove_child_by-Sound f keeps this child h s = read-AllOk SoundTree this h _ (λ t k.
      if-AllOk SoundTree (is_component t.kind) _ _
        (if-AllOk SoundTree (Sync.is_destroyed t.sync) _ _ s (
          read-AllOk SoundTree child h _ (λ c l.
            keeps none child _ (touch-Sound this t (remove_child_path c.uri t) h k refl refl s))))
        (keeps none child h s))

  request_activation-Sound :
      (auto_activate : Bool) (this child : ℕ) (h : Hierarchy)
      → SoundTree h
      → AllOk SoundTree (request_activation alive self auto_activate this child h)
  unfolding request_activation note
  request_activation-Sound auto_activate this child h s =
      read-AllOk SoundTree this h _
        (λ t k. read-AllOk SoundTree child h _ (λ c l. if-holds SoundTree _ _ _ (λ r. s) (λ r. s)))

  request_registration-Sound :
      (t c : Entity) (child : ℕ) (h : Hierarchy)
      → SoundTree h
      → AllOk SoundTree (request_registration alive self t c child h)
  unfolding request_registration
  request_registration-Sound t c child h s =
      if-AllOk SoundTree (t.registered && not c.registered) _ _ (register_entity-Sound child h s) s

  store_child-Sound :
      (auto_activate : Bool) (this child : ℕ) (h : Hierarchy)
      → SoundTree h
      → AllOk SoundTree (store_child alive self auto_activate this child h)
  unfolding store_child add_child_path
  store_child-Sound auto_activate this child h s = read-AllOk SoundTree this h _ (λ t k.
      read-AllOk SoundTree child h _ (λ c l.
        let stored = touch-Sound this t (add_child_path c.uri t) h k refl refl s in
        bind-AllOk SoundTree SoundTree _ _ (request_registration-Sound t c child _ stored)
          (λ g r. request_activation-Sound auto_activate this child g)))

  add_child_by-Sound :
      (f : Option ℕ → ℕ → Hierarchy → Result Hierarchy)
      → Keeps f
      → (auto_activate : Bool) (this child : ℕ) (h : Hierarchy) → SoundTree h
      → AllOk SoundTree (add_child_by alive self f auto_activate this child h)
  unfolding add_child_by
  add_child_by-Sound f keeps auto_activate this child h s = read-AllOk SoundTree this h _ (λ t k.
      if-AllOk SoundTree (Sync.is_destroyed t.sync) _ _ s (
        if-AllOk SoundTree (is_component t.kind) _ _
          (read-AllOk SoundTree child h _ (λ c l.
            if-AllOk SoundTree (has_child_path c.uri t) _ _ s (
              bind-AllOk SoundTree SoundTree _ _ (keeps (some this) child h s)
                (λ g r. store_child-Sound auto_activate this child g))))
          (keeps (some this) child h s)))

  reparent_each-Sound :
      (f : Option ℕ → ℕ → Hierarchy → Result Hierarchy)
      → Keeps f
      → (this : ℕ) (children : List ℕ) (h : Hierarchy) → SoundTree h
      → AllOk SoundTree (reparent_each alive self f this children h)
  unfolding reparent_each
  reparent_each-Sound f keeps this [] h s = s
  reparent_each-Sound f keeps this (c ∷ cs) h s =
      bind-AllOk SoundTree SoundTree _ _ (remove_child_by-Sound f keeps this c h s) (λ g r sg.
        bind-AllOk SoundTree SoundTree _ _ (add_child_by-Sound f keeps true this c g sg)
          (λ i q. reparent_each-Sound f keeps this cs i))

  reparent_children-Sound :
      (f : Option ℕ → ℕ → Hierarchy → Result Hierarchy)
      → Keeps f
      → (this : ℕ) (h : Hierarchy) → SoundTree h
      → AllOk SoundTree (reparent_children alive self f this h)
  unfolding reparent_children
  reparent_children-Sound f keeps this h s =
      read-AllOk SoundTree this h _ (λ e k. reparent_each-Sound f keeps this _ h s)

  pub set_parent-Sound : (stack : ℕ) → Keeps (set_parent alive self stack)
  unfolding set_parent
  set_parent-Sound zero parent p h s = tt
  set_parent-Sound (suc stack) parent p h s = read-AllOk SoundTree p h _ (λ e k.
      if-AllOk SoundTree (is_component e.kind) _ _
        (if-AllOk SoundTree (Sync.is_destroyed e.sync) _ _ s (
          bind-AllOk SoundTree SoundTree _ _ (base_set_parent-Sound parent p h s) (λ g r.
            reparent_children-Sound (set_parent alive self stack) (set_parent-Sound stack) p g)))
        (base_set_parent-Sound parent p h s))

  pub remove_child-Sound :
      (stack this child : ℕ) (h : Hierarchy)
      → SoundTree h
      → AllOk SoundTree (remove_child alive self stack this child h)
  unfolding remove_child
  remove_child-Sound stack =
      remove_child_by-Sound (set_parent alive self stack) (set_parent-Sound stack)

  pub add_child-Sound :
      (stack : ℕ) (auto_activate : Bool) (this child : ℕ) (h : Hierarchy)
      → SoundTree h
      → AllOk SoundTree (add_child alive self stack auto_activate this child h)
  unfolding add_child
  add_child-Sound stack = add_child_by-Sound (set_parent alive self stack) (set_parent-Sound stack)

  refresh_in_parent-Sound :
      (stack : ℕ) (parent : Option ℕ) (p : ℕ) (h : Hierarchy)
      → SoundTree h
      → AllOk SoundTree (refresh_in_parent alive self stack parent p h)
  unfolding refresh_in_parent
  refresh_in_parent-Sound stack none p h s = s
  refresh_in_parent-Sound stack (some q) p h s =
      bind-AllOk SoundTree SoundTree _ _ (remove_child-Sound stack q p h s)
        (λ g r. add_child-Sound stack true q p g)

  base_set_name-Sound :
      (stack : ℕ) (name : Bytes) (p : ℕ) (h : Hierarchy)
      → SoundTree h
      → AllOk SoundTree (base_set_name alive self stack name p h)
  unfolding base_set_name note
  base_set_name-Sound stack name p h s = read-AllOk SoundTree p h _ (λ e k.
      pure-AllOk SoundTree (renamed_uri alive self (parent_of e h) name e.uri) _ (λ v.
        bind-AllOk SoundTree SoundTree _ _ (move_to-Sound p e e.parent v h k s) (λ g r sg.
          read-AllOk SoundTree p g _ (λ d l.
            bind-AllOk SoundTree SoundTree _ _
              (refresh_in_parent-Sound stack (parent_of d g) p g sg)
              (λ i q si. if-holds SoundTree _ _ _ (λ r. si) (λ r. si))))))

  pub set_name-Sound :
      (stack : ℕ) (name : Bytes) (p : ℕ) (h : Hierarchy)
      → SoundTree h
      → AllOk SoundTree (set_name alive self stack name p h)
  unfolding set_name
  set_name-Sound stack name p h s = read-AllOk SoundTree p h _ (λ e k.
      if-AllOk SoundTree (is_component e.kind) _ _
        (if-AllOk SoundTree (Sync.is_destroyed e.sync) _ _ s (
          bind-AllOk SoundTree SoundTree _ _ (base_set_name-Sound stack name p h s) (λ g r.
            reparent_each-Sound (set_parent alive self stack) (set_parent-Sound stack) p _ g)))
        (base_set_name-Sound stack name p h s))
