-- ===== src/StageHierarchy/Timer.antt =====
-- `ZstStage::stage_heartbeat_timer` of src/server/ZstStage.cpp: a round over the performers of the
-- server, which removes those that are silent.
use showtime_cpp.Common.{
  ℕ, Bool, false, List, [], ◌∷◌, Option, none, some, Result, ok, ◌>>=◌, if◌then◌else◌, AllOk,
  bind-AllOk,
}
use showtime_cpp.Heartbeat
use showtime_cpp.Tree.{Hierarchy}
use showtime_cpp.Tree.Sound.{SoundTree}
use showtime_cpp.Hierarchy.{get_performers}
use showtime_cpp.Hierarchy.Removal.{member, remove_proxy_entity}
use showtime_cpp.Hierarchy.Removal.Kept.{remove_proxy_entity-Sound}
use showtime_cpp.StageHierarchy.{Client, Stage, client_at}
use showtime_cpp.StageHierarchy.Kept.{SoundStage}

check_clients : List ℕ → List Client → List Client
unfolding member Heartbeat.check
check_clients ps [] = []
check_clients ps (c ∷ cs) =
    (if member c.pointer ps then record c { pulse = Heartbeat.check c.pulse } else c)
    ∷ check_clients ps cs

client_is_over : Option Client → Bool
unfolding Heartbeat.is_over
client_is_over none = false
client_is_over (some c) = Heartbeat.is_over c.pulse

silent_performers : List ℕ → List Client → List ℕ
unfolding client_is_over client_at
silent_performers [] cs = []
silent_performers (p ∷ ps) cs =
    let rest = silent_performers ps cs in if client_is_over (client_at p cs) then p ∷ rest else rest

module _ (alive : ℕ → Bool) (self : ℕ) (stack : ℕ) where
  remove_each : List ℕ → Hierarchy → Result Hierarchy
  unfolding remove_proxy_entity
  remove_each [] h = ok h
  remove_each (p ∷ ps) h = remove_proxy_entity alive self stack (some p) h >>= λ h. remove_each ps h

  pub stage_heartbeat_timer : Stage → Result Stage
  unfolding get_performers check_clients silent_performers remove_each
  stage_heartbeat_timer st =
      let ps = get_performers none st.tree in
      let cs = check_clients ps st.clients in
      remove_each (silent_performers ps cs) st.tree >>= λ h.
      ok (record st { tree = h; clients = cs })

  remove_each-Sound :
      (ps : List ℕ) (h : Hierarchy) → SoundTree h → AllOk SoundTree (remove_each ps h)
  unfolding remove_each
  remove_each-Sound [] h s = s
  remove_each-Sound (p ∷ ps) h s =
      bind-AllOk SoundTree SoundTree _ _ (remove_proxy_entity-Sound alive self stack (some p) h s)
        (λ g r. remove_each-Sound ps g)

  -- The timer keeps the lookup map of the server's tree right.
  pub timer-Sound : (st : Stage) → SoundStage st → AllOk SoundStage (stage_heartbeat_timer st)
  unfolding stage_heartbeat_timer
  timer-Sound st s =
      let ps = get_performers none st.tree in
      let cs = check_clients ps st.clients in
      bind-AllOk SoundTree SoundStage (remove_each (silent_performers ps cs) st.tree)
        (λ h. ok (record st { tree = h; clients = cs }))
        (remove_each-Sound (silent_performers ps cs) st.tree s) (λ h r t. t)
