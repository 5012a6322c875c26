-- ===== src/Session/Performers.antt =====
-- The performers that a session listens to.
use showtime_cpp.Common.{
  ◌≡◌, refl, sym, ap, ◌∙◌, Bool, true, false, Option, none, some, if◌then◌else◌, Bool-cases, inl,
  inr,
}
use showtime_cpp.Uri.{Uri, less, equal, is_empty}
use showtime_cpp.Uri.Order.{IsKey, less-StrictOrder, equal-equivalent}
use showtime_cpp.OrderedSet
use showtime_cpp.OrderedSet.Lookup
use showtime_cpp.Session.{
  Session, self_key, add_connected_performer, remove_connected_performer, listening_to_performer,
}

found : Option Uri → Bool
found none = false
found (some u) = true

listening_lem :
    (u : Uri) (s : Session)
    → listening_to_performer u s ≡ found (OrderedSet.lookup self_key less u s.connected_performers)
unfolding listening_to_performer found
listening_lem u s = go (OrderedSet.lookup self_key less u s.connected_performers)
  where
    go : (o : Option Uri) → (elim o [ none ↦ false | some p ↦ true ]) ≡ found o
    go none = refl
    go (some p) = refl

-- The session listens to `v` after a performer `u` is added if `v` is `u`, or if it listened to it
-- before, and after `u` is removed unless `v` is `u`. The empty path is neither added nor removed.
pub performers_lem :
    (u v : Uri) (s : Session)
    → IsKey u
    → IsKey v
    → OrderedSet.Rising self_key less s.connected_performers
    → (listening_to_performer v (add_connected_performer u s) ≡ (
        if is_empty u
        then listening_to_performer v s
        else if equal v u
        then true
        else listening_to_performer v s))
      × (listening_to_performer v (remove_connected_performer u s) ≡ (
          if is_empty u
          then listening_to_performer v s
          else if equal v u
          then false
          else listening_to_performer v s))
unfolding add_connected_performer remove_connected_performer found self_key
performers_lem u v s ku kv r = elim (Bool-cases (is_empty u)) [
  | inl e ↦ rw e (refl, refl)
  | inr e ↦ rw e (
    listening_lem v _
        ∙ (ap found (Lookup.lookup-insert self_key less less-StrictOrder v u s.connected_performers)
            ∙ added),
    listening_lem v _
        ∙ (ap found
              (Lookup.lookup-erase self_key less less-StrictOrder v u s.connected_performers r)
            ∙ removed),
  )
]
  where
    before : Option Uri
    before = OrderedSet.lookup self_key less v s.connected_performers

    pick :
        (t : Bool) (o : Option Uri)
        → found (if t then Lookup.or_else o u else o) ≡ (if t then true else found o)
    pick true none = refl
    pick true (some x) = refl
    pick false o = refl

    drop_it :
        (t : Bool) (o : Option Uri) → found (if t then none else o) ≡ (if t then false else found o)
    drop_it true o = refl
    drop_it false o = refl

    added :
        found (
          if OrderedSet.equivalent self_key less v (self_key u)
          then Lookup.or_else (OrderedSet.lookup self_key less v s.connected_performers) u
          else OrderedSet.lookup self_key less v s.connected_performers)
        ≡ (if equal v u then true else listening_to_performer v s)
    added =
        ap (λ t. found (if t then Lookup.or_else before u else before))
          (sym (equal-equivalent v u kv ku))
        ∙ (pick (equal v u) before
            ∙ ap (λ x. if equal v u then true else x) (sym (listening_lem v s)))

    removed :
        found (
          if OrderedSet.equivalent self_key less v u
          then none
          else OrderedSet.lookup self_key less v s.connected_performers)
        ≡ (if equal v u then false else listening_to_performer v s)
    removed =
        ap (λ t. found (if t then none else before)) (sym (equal-equivalent v u kv ku))
        ∙ (drop_it (equal v u) before
            ∙ ap (λ x. if equal v u then false else x) (sym (listening_lem v s)))
