-- ===== src/Session/Cables.antt =====
-- The set of cables: what `find_cable` finds after each operation.
use showtime_cpp.Common.{
  ◌≡◌, refl, ap, Bool, true, false, List, [], ◌∷◌, Option, none, some, All, arith, if◌then◌else◌,
  Bool-cases, inl, inr,
}
use showtime_cpp.CableAddress.{CableAddress, address_less, address_eq}
use showtime_cpp.CableAddress.Order.{
  IsAddress, address_less-StrictOrder, address_eq-equivalent, address_eq_apart, address_eq_sym,
  address_eq_class,
}
use showtime_cpp.Cable.{Cable}
use showtime_cpp.Sync.{Sync}
use showtime_cpp.OrderedSet
use showtime_cpp.OrderedSet.Lookup
use showtime_cpp.Session.{address_of, find_if, change}

-- The set rises, and the paths of its cables are keys.
pub record WellFormed (cs : List Cable) : Type 0 where
  pub rising : OrderedSet.Rising address_of address_less cs
  pub keys : All (λ c. IsAddress c.address) cs

-- `find_cable` searches by `==` where the set searches by `<`.
pub find_if-lookup :
    (a : CableAddress) (cs : List Cable)
    → IsAddress a
    → All (λ c. IsAddress c.address) cs
    → OrderedSet.Rising address_of address_less cs
    → find_if a cs ≡ OrderedSet.lookup address_of address_less a cs
unfolding find_if OrderedSet.lookup address_of
find_if-lookup a [] ka ks r = refl
find_if-lookup a (c ∷ cs) ka (kc, ks) (rc, r) = ground (
  arith,
  find_if-lookup a cs ka ks r,
  address_eq-equivalent c.address a kc ka,
  Lookup.lookup_below address_of address_less address_less-StrictOrder a cs,
  Lookup.All-less address_of address_less address_less-StrictOrder a c.address cs,
  address_less-StrictOrder.irrefl a,
)

-- A change of the activation state of a cable, which keeps its address.
abbrev pub resync : (Sync → Sync) → Cable → Cable
resync f c = record c { sync = f c.sync }

pub change-WellFormed :
    (a : CableAddress) (f : Sync → Sync) (cs : List Cable)
    → WellFormed cs
    → WellFormed (change a (resync f) cs)
unfolding change address_of
change-WellFormed a f cs wf = record { rising = rise cs wf.rising; keys = keep_keys cs wf.keys }
  where
    above :
        (k : CableAddress) (cs : List Cable)
        → All (λ c. address_less k c.address ≡ true) cs
        → All (λ c. address_less k c.address ≡ true) (change a (resync f) cs)
    above k [] r = tt
    above k (c ∷ cs) (rc, r) = elim (Bool-cases (address_eq c.address a)) [
      | inl e ↦ rw e (rc, r)
      | inr e ↦ rw e (rc, above k cs r)
    ]

    rise :
        (cs : List Cable)
        → OrderedSet.Rising address_of address_less cs
        → OrderedSet.Rising address_of address_less (change a (resync f) cs)
    rise [] r = tt
    rise (c ∷ cs) (rc, r) = elim (Bool-cases (address_eq c.address a)) [
      | inl e ↦ rw e (rc, r)
      | inr e ↦ rw e (above c.address cs rc, rise cs r)
    ]

    keep_keys :
        (cs : List Cable)
        → All (λ c. IsAddress c.address) cs
        → All (λ c. IsAddress c.address) (change a (resync f) cs)
    keep_keys [] r = tt
    keep_keys (c ∷ cs) (rc, r) = elim (Bool-cases (address_eq c.address a)) [
      | inl e ↦ rw e (rc, r)
      | inr e ↦ rw e (rc, keep_keys cs r)
    ]

abbrev pub map_option {ℓ κ} : {A : Type ℓ} {B : Type κ} → (A → B) → Option A → Option B
map_option f none = none
map_option f (some x) = some (f x)

pub find_if-change :
    (a : CableAddress) (f : Sync → Sync) (cs : List Cable)
    → find_if a (change a (resync f) cs) ≡ map_option (resync f) (find_if a cs)
unfolding find_if change
find_if-change a f [] = refl
find_if-change a f (c ∷ cs) = elim (Bool-cases (address_eq c.address a)) [
  | inl e ↦ rw (e, e) refl
  | inr e ↦ rw (e, e) (find_if-change a f cs)
]

pub find_if-change_other :
    (a b : CableAddress) (f : Sync → Sync) (cs : List Cable)
    → address_eq a b ≡ false
    → find_if b (change a (resync f) cs) ≡ find_if b cs
unfolding find_if change
find_if-change_other a b f [] d = refl
find_if-change_other a b f (c ∷ cs) d = elim (Bool-cases (address_eq c.address a)) [
  | inl e ↦ rw (e, address_eq_apart c.address a b e d) refl
  | inr e ↦
      rw e
        (ap (λ o. if address_eq c.address b then some c else o) (find_if-change_other a b f cs d))
]

-- What the search finds has the address that was asked for, and equal addresses find the same.
pub find_if-address :
    (a : CableAddress) (cs : List Cable) (c : Cable)
    → find_if a cs ≡ some c
    → address_eq c.address a ≡ true
unfolding find_if
find_if-address a [] c h = cc
find_if-address a (d ∷ cs) c h = go (address_eq d.address a) refl (find_if-address a cs c) h
  where
    go :
        (b : Bool)
        → address_eq d.address a ≡ b
        → (find_if a cs ≡ some c → address_eq c.address a ≡ true)
        → (if b then some d else find_if a cs) ≡ some c
        → address_eq c.address a ≡ true
    go true e later k = cc (k, e)
    go false e later k = later k

pub find_if-same :
    (a b : CableAddress) (cs : List Cable) → address_eq a b ≡ true → find_if a cs ≡ find_if b cs
unfolding find_if
find_if-same a b [] e = refl
find_if-same a b (c ∷ cs) e =
    rw
      (
        find_if-same a b cs e,
        address_eq_sym c.address a,
        address_eq_class a b c.address e,
        address_eq_sym b c.address,
      )
      refl
