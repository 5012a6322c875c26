-- ===== src/Tree/Leaf.antt =====
-- What the operations on the tree do to an entity without children.
use showtime_cpp.Common.{
  ℕ, suc, ◌==◌, ==_refl, ◌≡◌, refl, ap, ◌∙◌, Bool, true, false, [], Option, none, Result, ok, ◌>>=◌,
  if◌then◌else◌,
}
use showtime_cpp.Uri
use showtime_cpp.Uri.{Uri, equal}
use showtime_cpp.Sync
use showtime_cpp.World
use showtime_cpp.World.{World, Entity}
use showtime_cpp.Tree.{
  Hierarchy, entity_at, put, in_world, is_component, is_factory, moved_uri, parent_address, move_to,
  update_uri, refresh_creatables, base_set_parent, direct_children, reparent_each,
  reparent_children, set_parent, remove_child, remove_child_by, remove_child_path,
}
use showtime_cpp.Tree.Sound.{At}

-- A dereference of a pointer that has an object.
pub entity_at_lem : (p : ℕ) (e : Entity) (h : Hierarchy) → At h p e → entity_at p h ≡ ok e
unfolding entity_at
entity_at_lem p e h k = rw (k, entity_at) refl

pub read_lem {ℓ} :
    {A : Type ℓ} (p : ℕ) (e : Entity) (h : Hierarchy) (next : Entity → Result A)
    → At h p e
    → (entity_at p h >>= next) ≡ next e
read_lem p e h next k = ap (λ r. r >>= next) (entity_at_lem p e h k)

pub put_At : (p : ℕ) (e : Entity) (h : Hierarchy) → At (put p e h) p e
unfolding put in_world World.put
put_At p e h = rw (==_refl p) refl

pub put_other_At :
    (p q : ℕ) (e d : Entity) (h : Hierarchy) → (q == p) ≡ false → At h q d → At (put p e h) q d
unfolding put in_world World.put
put_other_At p q e d h n k = rw n k

-- An entity with another parent and path, stored.
abbrev pub moved : Entity → Uri → Uri → Entity
moved e parent uri = record e { parent = parent; uri = uri }

abbrev pub moved_tree : ℕ → Entity → Uri → Uri → Hierarchy → Hierarchy
moved_tree p e parent uri h =
    let t = put p (moved e parent uri) h in
    if e.registered then in_world (World.update_entity_in_lookup uri p e.uri) t else t

moved_tree_At :
    (p : ℕ) (e : Entity) (parent uri : Uri) (h : Hierarchy)
    → At (moved_tree p e parent uri h) p (moved e parent uri)
unfolding put in_world World.put World.update_entity_in_lookup World.remove_entity_from_lookup
    World.add_entity_to_lookup
moved_tree_At p e parent uri h = go e.registered
  where
    go :
        (b : Bool)
        → At
            (if b
              then in_world
                  (World.update_entity_in_lookup uri p e.uri)
                  (put p (moved e parent uri) h)
              else put p (moved e parent uri) h)
            p
            (moved e parent uri)
    go true = rw (==_refl p) refl
    go false = rw (==_refl p) refl

move_to_lem :
    (p : ℕ) (e : Entity) (parent uri : Uri) (h : Hierarchy)
    → is_factory e.kind ≡ false
    → move_to p e parent uri h ≡ ok (moved_tree p e parent uri h)
unfolding move_to update_uri refresh_creatables
move_to_lem p e parent uri h f = rw (f, refresh_creatables) refl

base_set_parent_lem :
    (parent : Option ℕ) (p : ℕ) (e : Entity) (u v : Uri) (h : Hierarchy)
    → At h p e
    → is_factory e.kind ≡ false
    → parent_address parent h ≡ ok u
    → moved_uri u e.uri ≡ ok v
    → base_set_parent parent p h ≡ ok (moved_tree p e u v h)
unfolding base_set_parent
base_set_parent_lem parent p e u v h k f a m =
    ap (λ r. r >>= λ u. entity_at p h >>= λ e. moved_uri u e.uri >>= λ v. move_to p e u v h) a
    ∙ read_lem p e h _ k
    ∙ ap (λ r. r >>= λ v. move_to p e u v h) m
    ∙ move_to_lem p e u v h f

module _ (alive : ℕ → Bool) (self : ℕ) where
  -- No child is found, so none is moved.
  leaf_children :
      (f : Option ℕ → ℕ → Hierarchy → Result Hierarchy) (p : ℕ) (e : Entity) (h : Hierarchy)
      → At h p e
      → e.children ≡ []
      → reparent_children alive self f p h ≡ ok h
  unfolding reparent_children
  leaf_children f p e h k leaf =
      read_lem p e h _ k
      ∙ ap (λ us. reparent_each alive self f p (direct_children e us h) h) leaf
      ∙ unfold reparent_each direct_children in refl

  pub set_parent_lem :
      (n : ℕ) (parent : Option ℕ) (p : ℕ) (e : Entity) (u v : Uri) (h : Hierarchy)
      → At h p e
      → e.children ≡ []
      → is_factory e.kind ≡ false
      → Sync.is_destroyed e.sync ≡ false
      → parent_address parent h ≡ ok u
      → moved_uri u e.uri ≡ ok v
      → set_parent alive self (suc n) parent p h ≡ ok (moved_tree p e u v h)
  unfolding set_parent
  set_parent_lem n parent p e u v h k leaf f d a m =
      let base = base_set_parent_lem parent p e u v h k f a m in
      let below =
        leaf_children (set_parent alive self n) p (moved e u v) (moved_tree p e u v h)
          (moved_tree_At p e u v h) leaf in
      read_lem p e h _ k ∙ go (is_component e.kind) base below
    where
      go :
          (c : Bool)
          → base_set_parent parent p h ≡ ok (moved_tree p e u v h)
          → reparent_children alive self (set_parent alive self n) p (moved_tree p e u v h)
            ≡ ok (moved_tree p e u v h)
          → (if c
              then (if Sync.is_destroyed e.sync
                  then ok h
                  else (base_set_parent parent p h >>= λ h.
                      reparent_children alive self (set_parent alive self n) p h))
              else base_set_parent parent p h)
            ≡ ok (moved_tree p e u v h)
      go true base below =
          ap
            (λ b.
              if b
              then ok h
              else (base_set_parent parent p h >>= λ h.
                  reparent_children alive self (set_parent alive self n) p h))
            d
          ∙ ap (λ r. r >>= λ h. reparent_children alive self (set_parent alive self n) p h) base
          ∙ below
      go false base below = base

  -- A component lets go of a child that has no children.
  pub remove_child_lem :
      (n this p : ℕ) (t e : Entity) (v : Uri) (h : Hierarchy)
      → At h this t
      → At h p e
      → (p == this) ≡ false
      → is_component t.kind ≡ true
      → Sync.is_destroyed t.sync ≡ false
      → e.children ≡ []
      → is_factory e.kind ≡ false
      → Sync.is_destroyed e.sync ≡ false
      → Uri.last e.uri ≡ ok v
      → remove_child alive self (suc n) this p h
        ≡ ok (moved_tree p e Uri.empty v (put this (remove_child_path e.uri t) h))
  unfolding remove_child remove_child_by
  remove_child_lem n this p t e v h kt ke apart c dt leaf f de l =
      let cut : Hierarchy = put this (remove_child_path e.uri t) h in
      read_lem this t h _ kt
      ∙ ap
          (λ b.
            if b
            then (if Sync.is_destroyed t.sync
                then ok h
                else (entity_at p h >>= λ x.
                    set_parent alive self (suc n) none p (put this (remove_child_path x.uri t) h)))
            else set_parent alive self (suc n) none p h)
          c
      ∙ ap
          (λ b.
            if b
            then ok h
            else (entity_at p h >>= λ x.
                set_parent alive self (suc n) none p (put this (remove_child_path x.uri t) h)))
          dt
      ∙ read_lem p e h _ ke
      ∙ set_parent_lem n none p e Uri.empty v cut
          (put_other_At this p (remove_child_path e.uri t) e h apart ke) leaf f de
          (unfold parent_address in refl) (unfold moved_uri Uri.is_empty Uri.empty in l)
