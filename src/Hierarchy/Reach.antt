-- ===== src/Hierarchy/Reach.antt =====
-- What the hierarchy can come to by its operations, in any order, and what every path that it finds
-- leads to.
use showtime_cpp.Common.{ℕ, Bool, [], Option, none, some, ◌≡◌, Result, ok, AllOk, Bytes, subst}
use showtime_cpp.Uri.{Uri}
use showtime_cpp.World.{Entity}
use showtime_cpp.World.Sound.{put-Absent-Sound, free-Absent}
use showtime_cpp.Tree.{
  Hierarchy, put, in_world, register_entity, add_child, remove_child, set_parent, set_name,
}
use showtime_cpp.Tree.Sound.{
  SoundTree, register_entity-Sound, add_child-Sound, remove_child-Sound, set_parent-Sound,
  set_name-Sound,
}
use showtime_cpp.Hierarchy.{activate_entity_complete}
use showtime_cpp.Hierarchy.Sound.{Registered, activate_entity_complete-Sound}
use showtime_cpp.Hierarchy.Proxies.{Payload, add_proxy_entity, update_proxy_entity}
use showtime_cpp.Hierarchy.Proxies.Kept.{add_proxy_entity-Sound, update_proxy_entity-Sound}
use showtime_cpp.Hierarchy.Removal.{
  remove_proxy_entity, on_synchronisable_destroyed, deactivate_children, base_destructor,
  process_synchronisables,
}
use showtime_cpp.Hierarchy.Removal.Kept.{
  Settled, children-Sound, base_destructor-Sound, remove_proxy_entity-Sound,
  on_synchronisable_destroyed-Sound, process_synchronisables-Sound,
}

-- `ZstHierarchy()`.
unfoldable pub new_hierarchy : Hierarchy
new_hierarchy = record {
  world = record { heap = λ p. none; lookup = [] };
  proxies = [];
  events = [];
  notes = [];
  woken = [];
  cleanups = [];
  dead = [];
}

result-Sound : (r : Result Hierarchy) (g : Hierarchy) → AllOk SoundTree r → r ≡ ok g → SoundTree g
result-Sound r g a e = subst (AllOk SoundTree) e a

module _ (alive : ℕ → Bool) (self : ℕ) (stack : ℕ) where
  -- One operation that returns. A new object is at an address that is not in use, only a registered
  -- entity is activated, and no path leads to an entity that is deleted while it is `DESTROYED`: its
  -- destructor would leave the path in the lookup.
  pub data Step : Hierarchy → Hierarchy → Type 0 where
    allocates : {h : Hierarchy} (p : ℕ) (e : Entity) → h.world.heap p ≡ none → Step h (put p e h)
    registers : {h g : Hierarchy} (p : ℕ) → register_entity alive self p h ≡ ok g → Step h g
    moves :
        {h g : Hierarchy} (parent : Option ℕ) (p : ℕ)
        → set_parent alive self stack parent p h ≡ ok g
        → Step h g
    adds_child :
        {h g : Hierarchy} (auto_activate : Bool) (this child : ℕ)
        → add_child alive self stack auto_activate this child h ≡ ok g
        → Step h g
    removes_child :
        {h g : Hierarchy} (this child : ℕ)
        → remove_child alive self stack this child h ≡ ok g
        → Step h g
    renames :
        {h g : Hierarchy} (name : Bytes) (p : ℕ)
        → set_name alive self stack name p h ≡ ok g
        → Step h g
    activates :
        {h g : Hierarchy} (p : ℕ)
        → Registered h p
        → activate_entity_complete alive self stack (some p) h ≡ ok g
        → Step h g
    adds_proxy :
        {h g : Hierarchy} (fresh : ℕ) (e : Option Entity)
        → h.world.heap fresh ≡ none
        → add_proxy_entity alive self stack fresh e h ≡ ok g
        → Step h g
    updates_proxy :
        {h g : Hierarchy} (p : Option ℕ) (d : Payload)
        → update_proxy_entity alive self stack p d h ≡ ok g
        → Step h g
    removes_proxy :
        {h g : Hierarchy} (p : Option ℕ)
        → remove_proxy_entity alive self stack p h ≡ ok g
        → Step h g
    is_told :
        {h g : Hierarchy} (already_removed : Bool) (p : ℕ)
        → on_synchronisable_destroyed already_removed p h ≡ ok g
        → Step h g
    deletes :
        {h i g : Hierarchy} (p : ℕ) (e : Entity)
        → h.world.heap p ≡ some e
        → deactivate_children alive self stack e p h ≡ ok i
        → Settled p i
        → base_destructor alive self stack p i ≡ ok g
        → Step h g
    processes : {h g : Hierarchy} → process_synchronisables alive self stack h ≡ ok g → Step h g

  pub data Reach : Hierarchy → Type 0 where
    starts : Reach new_hierarchy
    steps : {h g : Hierarchy} → Reach h → Step h g → Reach g

  pub step-Sound : (h g : Hierarchy) → Step h g → SoundTree h → SoundTree g
  unfolding put in_world
  step-Sound h g (allocates p e f) s = put-Absent-Sound p e h.world (free-Absent p h.world f s) s
  step-Sound h g (registers p e) s = result-Sound _ g (register_entity-Sound alive self p h s) e
  step-Sound h g (moves parent p e) s =
      result-Sound _ g (set_parent-Sound alive self stack parent p h s) e
  step-Sound h g (adds_child auto_activate this child e) s =
      result-Sound _ g (add_child-Sound alive self stack auto_activate this child h s) e
  step-Sound h g (removes_child this child e) s =
      result-Sound _ g (remove_child-Sound alive self stack this child h s) e
  step-Sound h g (renames name p e) s =
      result-Sound _ g (set_name-Sound alive self stack name p h s) e
  step-Sound h g (activates p r e) s =
      result-Sound _ g (activate_entity_complete-Sound alive self stack p h s r) e
  step-Sound h g (adds_proxy fresh p f e) s =
      result-Sound _ g (add_proxy_entity-Sound alive self stack fresh p h f s) e
  step-Sound h g (updates_proxy p d e) s =
      result-Sound _ g (update_proxy_entity-Sound alive self stack p d h s) e
  step-Sound h g (removes_proxy p e) s =
      result-Sound _ g (remove_proxy_entity-Sound alive self stack p h s) e
  step-Sound h g (is_told already_removed p e) s =
      result-Sound _ g (on_synchronisable_destroyed-Sound already_removed p h s) e
  step-Sound h g (deletes p e k below settled end) s =
      result-Sound _ g
        (base_destructor-Sound alive self stack p _
          (result-Sound _ _ (children-Sound alive self stack e p h s) below) settled)
        end
  step-Sound h g (processes e) s =
      result-Sound _ g (process_synchronisables-Sound alive self stack h s) e

  pub Reach-Sound : (h : Hierarchy) → Reach h → SoundTree h
  unfolding new_hierarchy
  Reach-Sound h starts = (tt, tt)
  Reach-Sound h (steps r s) = step-Sound _ h s (Reach-Sound _ r)
