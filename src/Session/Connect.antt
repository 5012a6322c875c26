-- ===== src/Session/Connect.antt =====
-- `connect_cable`: the guards, and what it does to the cable that `create_cable` gives.
use showtime_cpp.Common.{
  ℕ, ◌≡◌, ◌⊎◌, refl, ap, ◌∙◌, Bool, true, false, not, ◌&&◌, ◌||◌, Option, none, some, if◌then◌else◌,
  Bool-cases, inl, inr,
}
use showtime_cpp.CableAddress.{CableAddress, address_eq}
use showtime_cpp.CableAddress.Order.{IsAddress, address_eq_refl}
use showtime_cpp.Cable.{Cable}
use showtime_cpp.Sync
use showtime_cpp.Sync.{Sync, activating}
use showtime_cpp.World.{Entity}
use showtime_cpp.Session.{
  Session, find_cable, with_cable, create_between, create_found, new_cable, store_cable, find_if,
  connect_between, connectable, in_order, finish_connection, connect_cable,
}
use showtime_cpp.Session.Cables.{WellFormed, resync, map_option, find_if-address}
use showtime_cpp.Session.Stored.{find_if-insert}
use showtime_cpp.Session.Create.{between, find_here}

module _ (alive : ℕ → Bool) (self : ℕ) where
  connect_cable_step :
      (default input output : ℕ) (i o : Entity) (s : Session)
      → s.world.heap input ≡ some i
      → s.world.heap output ≡ some o
      → connect_cable alive self default (some input) (some output) s
        ≡ connect_between alive self default input i output o s
  unfolding connect_cable
  connect_cable_step default input output i o s hi ho = rw (connect_cable, hi, ho) refl

  -- What `create_cable` leaves for `connect_cable`: the address of a cable between the plugs.
  abbrev Made : CableAddress → Session × Option CableAddress → Type 0
  Made b r =
      (a : CableAddress) × (c : Cable) × (r.1 ≡ some a)
      × (address_eq a b ≡ true)
      × (find_cable b r.0 ≡ some c)

  made :
      (default input output : ℕ) (i o : Entity) (s : Session) (found : Option Cable)
      → IsAddress (between i o)
      → WellFormed s.cables
      → find_cable (between i o) s ≡ found
      → Made (between i o) (create_found alive self default input i output o s found)
  unfolding create_found
  made default input output i o s none ka wf h =
      let c = new_cable alive self default input i.uri output o.uri s in
      let a = between i o in
      (
        a,
        c,
        refl,
        address_eq_refl a,
        unfold find_cable store_cable in
            (find_if-insert a c s.cables ka ka wf h
              ∙ ap (λ t. if t then some c else find_if a s.cables) (address_eq_refl a)),
      )
  made default input output i o s (some c) ka wf h = elim (Bool-cases (Sync.is_activated c.sync)) [
    | inl e ↦ (c.address, c, refl, same, rw e h)
    | inr e ↦ (
      c.address,
      resync (Sync.enqueue_activation alive) c,
      refl,
      same,
      rw e (
          find_here alive self c.address (between i o) (Sync.enqueue_activation alive) s same
          ∙ ap (map_option (resync (Sync.enqueue_activation alive))) h),
    )
  ]
    where
      same : address_eq c.address (between i o) ≡ true
      same = unfold find_cable in find_if-address (between i o) s.cables c h

  finished :
      (i o : Entity) (b : CableAddress) (r : Session × Option CableAddress)
      → Made b r
      → (c : Cable) × (find_cable b (finish_connection alive self i o r).0 ≡ some c)
        × (c.sync.core.status ≡ activating)
  unfolding finish_connection Sync.set_activation_status Sync.set_proxy
  finished i o b (s, none) (a, c, h, e, f) = absurd (cc h)
  finished i o b (s, some a') (a, c, h, e, f) =
      elim (Bool-cases (not i.sync.core.proxy || not o.sync.core.proxy)) [
        | inl p ↦ (
          resync Sync.set_proxy (resync (Sync.set_activation_status activating) c),
          rw p (
              find_here alive self a' b Sync.set_proxy _ same
              ∙ ap (map_option (resync Sync.set_proxy)) once),
          refl,
        )
        | inr p ↦ (resync (Sync.set_activation_status activating) c, rw p once, refl)
      ]
    where
      same : address_eq a' b ≡ true
      same = cc (h, e)

      once :
          find_cable b (with_cable alive self a' (Sync.set_activation_status activating) s)
          ≡ some (resync (Sync.set_activation_status activating) c)
      once =
          find_here alive self a' b (Sync.set_activation_status activating) s same
          ∙ ap (map_option (resync (Sync.set_activation_status activating))) f

  -- `connect_cable` of two live plugs. Where a plug is not activated, or the two are not an input
  -- and an output in this order, it returns no cable and changes nothing; otherwise there is
  -- afterwards a cable between the plugs, whose status is activating.
  pub connect_cable_lem :
      (default input output : ℕ) (i o : Entity) (s : Session)
      → s.world.heap input ≡ some i
      → s.world.heap output ≡ some o
      → IsAddress (between i o)
      → WellFormed s.cables
      → let r = connect_cable alive self default (some input) (some output) s in
        let accepts =
          Sync.is_activated i.sync
          && Sync.is_activated o.sync
          && in_order i.direction o.direction in
        ((accepts ≡ false) × (r ≡ (s, none)))
        ⊎ ((accepts ≡ true)
            × ((c : Cable) × (find_cable (between i o) r.0 ≡ some c)
                × (c.sync.core.status ≡ activating)))
  unfolding connect_between connectable create_between
  connect_cable_lem default input output i o s hi ho ka wf =
      elim (Bool-cases (
        Sync.is_activated i.sync && Sync.is_activated o.sync && in_order i.direction o.direction)) [
          | inl e ↦ inr (
            e,
            rw (connect_cable_step default input output i o s hi ho, e)
                (finished i o (between i o) _ (made default input output i o s _ ka wf refl)),
          )
          | inr e ↦ inl (e, connect_cable_step default input output i o s hi ho ∙ rw e refl)
        ]
