-- ===== src/Hierarchy/Sound.antt =====
-- The operations of the hierarchy keep the lookup map right, and the entities below a registered one
-- are registered.
use showtime_cpp.Common.{
  ℕ, suc, zero, ◌==◌, ==_iff, Bool, true, false, ◌&&◌, List, [], ◌∷◌, ◌++◌, Option, none, some, ◌≡◌,
  refl, sym, ap, ◌∙◌, Bool-cases, inl, inr, if◌then◌else◌, Result, AllOk, bind-AllOk, if-AllOk, All,
}
use showtime_cpp.Uri.{Uri}
use showtime_cpp.Sync
use showtime_cpp.Sync.{Sync, activating}
use showtime_cpp.World
use showtime_cpp.World.{World, Entity}
use showtime_cpp.World.Sound.{assign-Sound, find-Sound, some_injective}
use showtime_cpp.Tree.{
  Hierarchy, EntityType, none_type, put, in_world, is_component, find_entity, get_child_by_uri,
  passes,
}
use showtime_cpp.Tree.Sound.{SoundTree, At, read-AllOk, touch-Sound}
use showtime_cpp.Hierarchy.{
  visit_found, visit_each, only_self, base_child_entities, get_child_entities, with_sync, for_each,
  activate_one, activate_entity_complete,
}

abbrev pub Registered : Hierarchy → ℕ → Type 0
Registered h p = (e : Entity) × At h p e × (e.registered ≡ true)

All-append {ℓ κ} :
    {A : Type ℓ} (P : A → Type κ) (xs ys : List A) → All P xs → All P ys → All P (xs ++ ys)
All-append P [] ys h k = k
All-append P (x ∷ xs) ys (h, hs) k = (h, All-append P xs ys hs k)

child-Registered :
    (e : Entity) (u : Uri) (h : Hierarchy) (c : ℕ)
    → SoundTree h
    → get_child_by_uri e u h ≡ some c
    → Registered h c
unfolding get_child_by_uri find_entity
child-Registered e u h c s k = elim (Bool-cases e.registered) [
  | inl r ↦ let (d, a, q, t) = find-Sound u c h.world s (rw r at k) in (d, a, t)
  | inr r ↦ absurd (none_ne_some (rw r at k))
]
  where
    none_ne_some : none ≡ some c → ⊥
    none_ne_some l = cc

visit_found-AllOk {κ} :
    (P : ℕ → Type κ) (visit : ℕ → Result (List ℕ)) (o : Option ℕ)
    → ((c : ℕ) → o ≡ some c → AllOk (All P) (visit c))
    → AllOk (All P) (visit_found visit o)
unfolding visit_found
visit_found-AllOk P visit none f = tt
visit_found-AllOk P visit (some c) f = f c refl

visit_each-Registered :
    (visit : ℕ → Result (List ℕ)) (e : Entity) (us : List Uri) (h : Hierarchy)
    → SoundTree h
    → ((c : ℕ) → Registered h c → AllOk (All (Registered h)) (visit c))
    → AllOk (All (Registered h)) (visit_each visit e us h)
unfolding visit_each
visit_each-Registered visit e [] h s f = tt
visit_each-Registered visit e (u ∷ us) h s f =
    bind-AllOk (All (Registered h)) (All (Registered h)) _ _
      (visit_found-AllOk (Registered h) visit (get_child_by_uri e u h)
        (λ c k. f c (child-Registered e u h c s k)))
      (λ front r a.
        bind-AllOk (All (Registered h)) (All (Registered h)) _ _
          (visit_each-Registered visit e us h s f)
          (λ rest q b. All-append (Registered h) front rest a b))

only_self-Registered :
    (include_parent : Bool) (filter : EntityType) (p : ℕ) (e : Entity) (h : Hierarchy)
    → Registered h p
    → All (Registered h) (only_self include_parent filter p e)
unfolding only_self
only_self-Registered include_parent filter p e h r = own (include_parent && passes filter e)
  where
    own : (b : Bool) → All (Registered h) (if b then p ∷ [] else [])
    own true = (r, tt)
    own false = tt

base-Registered :
    (include_parent : Bool) (filter : EntityType) (h : Hierarchy) (p : ℕ)
    → Registered h p
    → AllOk (All (Registered h)) (base_child_entities include_parent filter h p)
unfolding base_child_entities
base-Registered include_parent filter h p r =
    read-AllOk (All (Registered h)) p h _
      (λ e k. only_self-Registered include_parent filter p e h r)

visit-Registered :
    (deep : Bool) (filter : EntityType) (h : Hierarchy) (further : ℕ → Result (List ℕ))
    → ((c : ℕ) → Registered h c → AllOk (All (Registered h)) (further c))
    → (c : ℕ) → Registered h c
    → AllOk (All (Registered h)) ((if deep then further else base_child_entities true filter h) c)
visit-Registered true filter h further f c t = f c t
visit-Registered false filter h further f c t = base-Registered true filter h c t

-- `get_child_entities` of a registered entity finds registered entities.
pub get_child_entities-Registered :
    (stack : ℕ) (include_parent recursive : Bool) (filter : EntityType) (h : Hierarchy) (p : ℕ)
    → SoundTree h
    → Registered h p
    → AllOk (All (Registered h)) (get_child_entities stack include_parent recursive filter h p)
unfolding get_child_entities
get_child_entities-Registered zero include_parent recursive filter h p s r = tt
get_child_entities-Registered (suc stack) include_parent recursive filter h p s r =
    read-AllOk (All (Registered h)) p h _ (λ e k.
      let own = only_self-Registered include_parent filter p e h r in
      if-AllOk (All (Registered h)) (is_component e.kind) _ _
        (bind-AllOk (All (Registered h)) (All (Registered h)) _ _
          (visit_each-Registered _ e e.children h s (
            visit-Registered recursive filter h _
              (λ c t. get_child_entities-Registered stack true true filter h c s t)))
          (λ below q b. All-append (Registered h) _ below own b))
        own)

put-Registered :
    (p q : ℕ) (e d : Entity) (h : Hierarchy)
    → At h p e
    → d.registered ≡ e.registered
    → Registered h q
    → Registered (put p d h) q
unfolding put in_world World.put
put-Registered p q e d h k r (c, l, t) = elim (Bool-cases (q == p)) [
  | inl n ↦
      let e_c : e ≡ c = some_injective e c (sym k ∙ ap h.world.heap (sym ((==_iff q p).0 n)) ∙ l) in
      (d, rw n refl, r ∙ ap (λ x. x.registered) e_c ∙ t)
  | inr n ↦ (c, rw n l, t)
]

module _ (alive : ℕ → Bool) (self : ℕ) where
  pub with_sync-Sound :
      (f : Sync → Sync) (p : ℕ) (h : Hierarchy)
      → SoundTree h
      → AllOk SoundTree (with_sync alive self f p h)
  unfolding with_sync
  with_sync-Sound f p h s =
      read-AllOk SoundTree p h _
        (λ e k. touch-Sound p e (record e { sync = f e.sync }) h k refl refl s)

  -- A loop whose body keeps a property keeps it.
  pub for_each-AllOk {κ} :
      (P : Hierarchy → Type κ) (f : ℕ → Hierarchy → Result Hierarchy) (ps : List ℕ) (h : Hierarchy)
      → ((p : ℕ) (g : Hierarchy) → P g → AllOk P (f p g))
      → P h
      → AllOk P (for_each alive self f ps h)
  unfolding for_each
  for_each-AllOk P f [] h keeps s = s
  for_each-AllOk P f (p ∷ ps) h keeps s =
      bind-AllOk P P _ _ (keeps p h s) (λ g r t. for_each-AllOk P f ps g keeps t)

  -- The map is right and the entities of a list are registered.
  abbrev Good : List ℕ → Hierarchy → Type 0
  Good ps h = SoundTree h × All (Registered h) ps

  All-put-Registered :
      (p : ℕ) (e d : Entity) (h : Hierarchy) (ps : List ℕ)
      → At h p e
      → d.registered ≡ e.registered
      → All (Registered h) ps
      → All (Registered (put p d h)) ps
  All-put-Registered p e d h [] k r a = tt
  All-put-Registered p e d h (q ∷ qs) k r (t, a) =
      (put-Registered p q e d h k r t, All-put-Registered p e d h qs k r a)

  with_sync-Good :
      (f : Sync → Sync) (p : ℕ) (ps : List ℕ) (h : Hierarchy)
      → Good ps h
      → AllOk (Good ps) (with_sync alive self f p h)
  unfolding with_sync
  with_sync-Good f p ps h (s, a) = read-AllOk (Good ps) p h _ (λ e k. (
    touch-Sound p e (record e { sync = f e.sync }) h k refl refl s,
    All-put-Registered p e (record e { sync = f e.sync }) h ps k refl a,
  ))

  activate_one-Good :
      (p : ℕ) (ps : List ℕ) (h : Hierarchy)
      → Good (p ∷ ps) h
      → AllOk (Good ps) (activate_one alive self p h)
  unfolding activate_one in_world World.add_entity_to_lookup
  activate_one-Good p ps h (s, ((d, l, t), a)) = read-AllOk (Good ps) p h _ (λ e k.
      let e_d : e ≡ d = some_injective e d (sym k ∙ l) in
      let stored = assign-Sound p e h.world k (ap (λ x. x.registered) e_d ∙ t) s in
      bind-AllOk (Good ps) (Good ps) _ _
        (with_sync-Good (Sync.set_activation_status activating) p ps _ (stored, a))
        (λ g r. with_sync-Good (Sync.enqueue_activation alive) p ps g))

  activate_each-Sound :
      (ps : List ℕ) (h : Hierarchy)
      → Good ps h
      → AllOk SoundTree (for_each alive self (activate_one alive self) ps h)
  unfolding for_each
  activate_each-Sound [] h (s, a) = s
  activate_each-Sound (p ∷ ps) h good =
      bind-AllOk (Good ps) SoundTree _ _ (activate_one-Good p ps h good)
        (λ g r. activate_each-Sound ps g)

  pub activate_entity_complete-Sound :
      (stack p : ℕ) (h : Hierarchy)
      → SoundTree h
      → Registered h p
      → AllOk SoundTree (activate_entity_complete alive self stack (some p) h)
  unfolding activate_entity_complete
  activate_entity_complete-Sound stack p h s r =
      bind-AllOk (All (Registered h)) SoundTree _ _
        (get_child_entities-Registered stack true true none_type h p s r)
        (λ ps q a. activate_each-Sound ps h (s, a))
