-- ===== src/World/Plug.antt =====
-- src/core/entities/ZstPlug.cpp: the cables of a plug, and whether an output may fire. The value is
-- in Value. What a method changes is the object itself.
use showtime_cpp.Common.{
  ℕ, Bool, true, false, not, ◌&&◌, ◌||◌, List, [], ◌∷◌, length, Option, none, some, if◌then◌else◌,
}
use showtime_cpp.Uri.{Uri, equal}
use showtime_cpp.CableAddress.{CableAddress, address_less}
use showtime_cpp.World.{Entity}
use showtime_cpp.OrderedSet

unfoldable pub num_cables : Entity → ℕ
num_cables plug = length plug.cables

unfoldable pub max_connected_cables : Entity → ℕ
max_connected_cables plug = plug.max_cables

-- The loop over `m_cables`.
connects : Uri → Uri → List CableAddress → Bool
connects this plug [] = false
connects this plug (c ∷ cs) =
    if (equal c.input_uri this && equal c.output_uri plug)
      || (equal c.input_uri plug && equal c.output_uri this)
    then true
    else connects this plug cs

unfoldable pub is_connected_to : Entity → Entity → Bool
unfolding connects
is_connected_to this plug = connects this.uri plug.uri this.cables

-- `m_cables.insert` and, where `find` finds it, `m_cables.erase`.
unfoldable pub add_cable : CableAddress → Entity → Entity
add_cable address plug = record plug {
  cables = OrderedSet.insert (λ a. a) address_less address plug.cables;
}

unfoldable pub remove_cable : CableAddress → Entity → Entity
remove_cable address plug = record plug {
  cables = OrderedSet.erase (λ a. a) address_less address plug.cables;
}

unfoldable pub on_deactivation : Entity → Entity
on_deactivation plug = record plug { cables = [] }

unfoldable pub set_can_fire : Bool → Entity → Entity
set_can_fire can plug = record plug { can_fire = can }

-- `ZstOutputPlug::on_activation`.
unfoldable pub on_activation : Entity → Entity
unfolding set_can_fire
on_activation plug = if not plug.sync.core.proxy then set_can_fire true plug else plug

-- `ZstOutputPlug::set_owner`, with the path of the local performer, if there is one.
unfoldable pub set_owner : Option Uri → Uri → Entity → Entity
unfolding set_can_fire
set_owner none owner plug = set_can_fire false (record plug { current_owner = owner })
set_owner (some performer) owner plug =
    set_can_fire (equal performer owner) (record plug { current_owner = owner })
