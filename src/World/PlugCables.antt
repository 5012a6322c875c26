-- ===== src/World/PlugCables.antt =====
-- The cables that a plug holds, after a cable is added or removed.
use showtime_cpp.Common.{
  ◌≡◌, refl, sym, ap, ◌∙◌, Bool, true, false, Option, none, some, if◌then◌else◌,
}
use showtime_cpp.CableAddress.{CableAddress, address_less, address_eq}
use showtime_cpp.CableAddress.Order.{IsAddress, address_less-StrictOrder, address_eq-equivalent}
use showtime_cpp.OrderedSet
use showtime_cpp.OrderedSet.Lookup
use showtime_cpp.World.{Entity}
use showtime_cpp.World.Plug.{add_cable, remove_cable}

-- `m_cables.find(address) != m_cables.end()`.
abbrev is_some {ℓ} : {A : Type ℓ} → Option A → Bool
is_some none = false
is_some (some x) = true

abbrev pub self_key : CableAddress → CableAddress
self_key a = a

abbrev pub holds : CableAddress → Entity → Bool
holds a plug = is_some (OrderedSet.lookup self_key address_less a plug.cables)

-- The set rises.
abbrev pub HasCables : Entity → Type 0
HasCables plug = OrderedSet.Rising self_key address_less plug.cables

-- A plug to which `a` is added holds `b` if it is `a`, or if it held it before; a plug from which `a`
-- is removed holds `b` unless it is `a`. Both keep the set in order.
pub plug_cables_lem :
    (a b : CableAddress) (plug : Entity)
    → IsAddress a
    → IsAddress b
    → HasCables plug
    → (holds b (add_cable a plug) ≡ (if address_eq b a then true else holds b plug))
      × (holds b (remove_cable a plug) ≡ (if address_eq b a then false else holds b plug))
      × HasCables (add_cable a plug)
      × HasCables (remove_cable a plug)
unfolding add_cable remove_cable
plug_cables_lem a b plug ka kb r = (
  ap is_some (
        Lookup.lookup-insert self_key address_less address_less-StrictOrder b a plug.cables
        ∙ ap
            (λ t.
              if t
              then Lookup.or_else (OrderedSet.lookup self_key address_less b plug.cables) a
              else OrderedSet.lookup self_key address_less b plug.cables)
            (sym (address_eq-equivalent b a kb ka)))
      ∙ added (address_eq b a) (OrderedSet.lookup self_key address_less b plug.cables),
  ap is_some (
        Lookup.lookup-erase self_key address_less address_less-StrictOrder b a plug.cables r
        ∙ ap (λ t. if t then none else OrderedSet.lookup self_key address_less b plug.cables)
            (sym (address_eq-equivalent b a kb ka)))
      ∙ removed (address_eq b a) (OrderedSet.lookup self_key address_less b plug.cables),
  Lookup.insert-Rising self_key address_less address_less-StrictOrder a plug.cables r,
  Lookup.erase-Rising self_key address_less address_less-StrictOrder a plug.cables r,
)
  where
    added :
        (t : Bool) (o : Option CableAddress)
        → is_some (if t then Lookup.or_else o a else o) ≡ (if t then true else is_some o)
    added true none = refl
    added true (some x) = refl
    added false o = refl

    removed :
        (t : Bool) (o : Option CableAddress)
        → is_some (if t then none else o) ≡ (if t then false else is_some o)
    removed true o = refl
    removed false o = refl
