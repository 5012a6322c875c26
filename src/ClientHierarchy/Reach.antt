-- ===== src/ClientHierarchy/Reach.antt =====
-- src/client/ZstClientHierarchy.cpp: what a client's hierarchy can come to by messages, in any order,
-- and what every path that it finds leads to.
use showtime_cpp.Common.{ℕ, Bool, none, ◌≡◌, ok}
use showtime_cpp.Uri.{Uri}
use showtime_cpp.Sync.{Sync}
use showtime_cpp.World
use showtime_cpp.World.{Entity}
use showtime_cpp.Tree
use showtime_cpp.Tree.{Hierarchy, put, register_entity}
use showtime_cpp.Hierarchy.Reach.{new_hierarchy}
use showtime_cpp.ClientHierarchy.{Notice, on_receive_msg}

module _ (root : ℕ) (alive : ℕ → Bool) (self : ℕ) (stack : ℕ) where
  -- The performer of the client is made and registered, and then messages come whose handlers return.
  -- The object that a message may create is at an address not in use.
  pub data Joined : Hierarchy → Type 0 where
    is_new :
        {h : Hierarchy} (r : Entity)
        → register_entity alive self root (put root r new_hierarchy) ≡ ok h
        → Joined h
    receives :
        {h g : Hierarchy} (fresh : ℕ) (sync : Sync) (m : Notice)
        → Joined h
        → h.world.heap fresh ≡ none
        → on_receive_msg root alive self stack fresh sync m h ≡ ok g
        → Joined g
