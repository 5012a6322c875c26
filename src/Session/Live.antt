-- ===== src/Session/Live.antt =====
-- No operation on cables frees an entity, and `create_cable` of two that live gives a cable.
use showtime_cpp.Common.{
  ℕ, ◌≡◌, ◌≢◌, refl, sym, ap, ◌∙◌, subst, Bool, [], ◌∷◌, ◌++◌, Option, none, some, Option-cases,
  Bool-cases, inl, inr, ◌==◌,
}
use showtime_cpp.CableAddress.{CableAddress}
use showtime_cpp.Sync
use showtime_cpp.Cable.{Cable}
use showtime_cpp.World
use showtime_cpp.World.{World, Entity}
use showtime_cpp.World.Plug
use showtime_cpp.Session.{
  Session, on_cable_destroyed, unplug, unplug_both, destroy_cable_complete, create_cable,
  create_between, create_found, find_cable,
}
use showtime_cpp.Session.Create.{with_cable_lem, create_cable_step}

-- A pointer that has an object.
abbrev pub Live : ℕ → World → Type 0
Live p w = (e : Entity) × (w.heap p ≡ some e)

modify-Live : (p q : ℕ) (f : Entity → Entity) (w : World) → Live p w → Live p (World.modify q f w)
unfolding World.modify World.put
modify-Live p q f w (e, h) = elim (Option-cases (w.heap q)) [
  | inl k ↦ (e, rw (World.modify, k) h)
  | inr (d, k) ↦ elim (Bool-cases (p == q)) [
    | inl b ↦ (f d, rw (World.modify, k, b) refl)
    | inr b ↦ (e, rw (World.modify, k, b) h)
  ]
]

unplug-Live :
    (p : ℕ) (q : Option ℕ) (a : CableAddress) (w : World) → Live p w → Live p (unplug q a w)
unfolding unplug
unplug-Live p none a w l = l
unplug-Live p (some q) a w l = modify-Live p q (Plug.remove_cable a) w l

unplug_both-Live : (p : ℕ) (a : CableAddress) (w : World) → Live p w → Live p (unplug_both a w)
unfolding unplug_both
unplug_both-Live p a w l =
    unplug-Live p (World.find_output_plug a.output_uri w) a
      (unplug (World.find_input_plug a.input_uri w) a w)
      (unplug-Live p (World.find_input_plug a.input_uri w) a w l)

module _ (alive : ℕ → Bool) (self : ℕ) where
  pub destroy-Live :
      (p : ℕ) (a : CableAddress) (s : Session)
      → Live p s.world
      → Live p (destroy_cable_complete alive self (some a) s).world
  unfolding destroy_cable_complete
  destroy-Live p a s l =
      subst (Live p)
        (sym
          (with_cable_lem alive self a (Sync.enqueue_deactivation alive) (record s {
            world = unplug_both a s.world;
            events = s.events ++ on_cable_destroyed a ∷ [];
          })).0)
        (unplug_both-Live p a s.world l)

  found_some :
      (default input output : ℕ) (i o : Entity) (s : Session) (found : Option Cable)
      → (create_found alive self default input i output o s found).1 ≢ none
  unfolding create_found
  found_some default input output i o s none h = cc h
  found_some default input output i o s (some c) h = cc h

  pub create_cable-some :
      (default input output : ℕ) (s : Session)
      → Live input s.world
      → Live output s.world
      → (create_cable alive self default (some input) (some output) s).1 ≢ none
  unfolding create_between
  create_cable-some default input output s (i, hi) (o, ho) h =
      found_some default input output i o s
        (find_cable (record { input_uri = i.uri; output_uri = o.uri }) s)
        (sym (ap (λ r. r.1) (create_cable_step alive self default input output i o s hi ho)) ∙ h)
