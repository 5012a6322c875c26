-- ===== src/Firing.antt =====
-- `ZstOutputPlug::fire` of src/core/entities/ZstPlug.cpp: what an output does with its value.
pub mod Published
pub mod Tests
use showtime_cpp.Common.{
  ℕ, ◌+◌, ◌==◌, leb, Bool, List, [], ◌∷◌, ◌++◌, Option, none, some, Result, ok, thrown, Error,
  ◌>>=◌, if◌then◌else◌, Bytes, length,
}
use showtime_cpp.Uri
use showtime_cpp.Uri.{Uri, equal}
use showtime_cpp.CableAddress.{CableAddress}
use showtime_cpp.Cable.{Cable}
use showtime_cpp.World.{Entity}
use showtime_cpp.Session
use showtime_cpp.Session.{Session}
use showtime_cpp.StageSession.{child_cables}
use showtime_cpp.Value
use showtime_cpp.Value.{Value, PlugValue, Conversions}

-- The session with the value of each plug, the inputs that `plug_received_value` was called for, and
-- the messages of each transport. `publishers` are the transports of the output that fires.
pub record Graph (I F : Type 0) : Type 0 where
  pub session : Session
  pub value_of : ℕ → Value I F
  pub received : List ℕ
  pub publishers : List ℕ
  pub published : List (ℕ × Bytes × Option (PlugValue I F))

module _ (I F : Type 0) (conv : Conversions I F) where
  pub plug_at : ℕ → Graph I F → Result Entity
  plug_at p g = elim (g.session.world.heap p) [ none ↦ thrown Error.invalid_read | some e ↦ ok e ]

  set_value : ℕ → Value I F → Graph I F → Graph I F
  set_value p v g = record g { value_of = λ q. if q == p then v else g.value_of q }

  -- `c->get_input()`, of a cable of the bundle.
  input_of : Option Cable → Result ℕ
  input_of none = thrown Error.invalid_read
  input_of (some c) = elim c.input [ none ↦ thrown Error.invalid_read | some q ↦ ok q ]

  -- The value is copied and the input told.
  receive : ℕ → ℕ → Graph I F → Graph I F
  unfolding set_value Value.copy
  receive this q g =
      let copied = set_value q (Value.copy I F conv (g.value_of this) (g.value_of q)) g in
      record copied { received = copied.received ++ q ∷ [] }

  -- The loop, with `num_local_cables`.
  pub send_local : ℕ → Uri → List CableAddress → ℕ → Graph I F → Result (Graph I F × ℕ)
  unfolding input_of plug_at Session.find_cable Uri.first receive
  send_local this path [] n g = ok (g, n)
  send_local this path (a ∷ as') n g = input_of (Session.find_cable a g.session) >>= λ q.
      plug_at q g >>= λ input. Uri.first input.uri >>= λ theirs. Uri.first path >>= λ mine.
      send_local this path as' (if equal theirs mine then n + 1 else n)
        (if equal theirs mine then receive this q g else g)

  -- The message of each transport is built anew.
  publish_each : ℕ → Bytes → List ℕ → Graph I F → Result (Graph I F)
  unfolding Value.serialize
  publish_each this path [] g = ok g
  publish_each this path (t ∷ ts) g = Value.serialize I F conv (g.value_of this) >>= λ table.
      publish_each this path ts (record g { published = g.published ++ (t, path, table) ∷ [] })

  publish : ℕ → Uri → List CableAddress → Graph I F × ℕ → Result (Graph I F)
  unfolding publish_each Uri.path
  publish this path bundle (g, n) =
      if leb n (length bundle) then publish_each this (Uri.path path) g.publishers g else ok g

  fire_to : ℕ → Entity → List CableAddress → Graph I F → Result (Graph I F)
  unfolding send_local publish set_value Value.clear
  fire_to p e bundle g = send_local p e.uri bundle 0 g >>= λ sent.
      publish p e.uri bundle sent >>= λ g. ok (set_value p (Value.clear I F conv (g.value_of p)) g)

  unfoldable pub fire : ℕ → Graph I F → Result (Graph I F)
  unfolding plug_at fire_to child_cables
  fire p g = plug_at p g >>= λ e.
      if e.can_fire then fire_to p e (child_cables e.cables g.session []) g else ok g
