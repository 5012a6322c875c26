-- ===== src/Session/Stored.antt =====
-- The set of cables under insertion and erasure, as `find_cable` sees it.
use showtime_cpp.Common.{
  ◌≡◌, refl, sym, ap, ◌∙◌, List, none, some, if◌then◌else◌, Bool-cases, inl, inr,
}
use showtime_cpp.CableAddress.{CableAddress, address_less, address_eq}
use showtime_cpp.CableAddress.Order.{
  IsAddress, address_less-StrictOrder, address_eq-equivalent, address_eq_sym,
}
use showtime_cpp.Cable.{Cable}
use showtime_cpp.OrderedSet
use showtime_cpp.OrderedSet.Lookup
use showtime_cpp.Session.{address_of, find_if}
use showtime_cpp.Session.Cables.{WellFormed, find_if-lookup}

pub insert-WellFormed :
    (c : Cable) (cs : List Cable)
    → IsAddress c.address
    → WellFormed cs
    → WellFormed (OrderedSet.insert address_of address_less c cs)
insert-WellFormed c cs k wf = record {
  rising = Lookup.insert-Rising address_of address_less address_less-StrictOrder c cs wf.rising;
  keys =
      Lookup.All-insert address_of address_less address_less-StrictOrder (λ c. IsAddress c.address)
        c cs k wf.keys;
}

pub erase-WellFormed :
    (a : CableAddress) (cs : List Cable)
    → WellFormed cs
    → WellFormed (OrderedSet.erase address_of address_less a cs)
erase-WellFormed a cs wf = record {
  rising = Lookup.erase-Rising address_of address_less address_less-StrictOrder a cs wf.rising;
  keys =
      Lookup.All-erase address_of address_less address_less-StrictOrder (λ c. IsAddress c.address) a
        cs wf.keys;
}

pub find_if-insert :
    (a : CableAddress) (c : Cable) (cs : List Cable)
    → IsAddress a
    → IsAddress c.address
    → WellFormed cs
    → find_if c.address cs ≡ none
    → find_if a (OrderedSet.insert address_of address_less c cs)
      ≡ (if address_eq c.address a then some c else find_if a cs)
unfolding address_of
find_if-insert a c cs ka kc wf h =
    let after = insert-WellFormed c cs kc wf in
    let found = find_if-lookup a cs ka wf.keys wf.rising in
    let absent : OrderedSet.lookup address_of address_less c.address cs ≡ none =
      sym (find_if-lookup c.address cs kc wf.keys wf.rising) ∙ h in
    find_if-lookup a _ ka after.keys after.rising
    ∙ (Lookup.lookup-insert address_of address_less address_less-StrictOrder a c cs
        ∙ (ap
              (λ b.
                if b
                then Lookup.or_else (OrderedSet.lookup address_of address_less a cs) c
                else OrderedSet.lookup address_of address_less a cs)
              (sym (address_eq-equivalent a c.address ka kc) ∙ address_eq_sym a c.address)
            ∙ last_step found absent))
  where
    last_step :
        find_if a cs ≡ OrderedSet.lookup address_of address_less a cs
        → OrderedSet.lookup address_of address_less c.address cs ≡ none
        → (if address_eq c.address a
            then Lookup.or_else (OrderedSet.lookup address_of address_less a cs) c
            else OrderedSet.lookup address_of address_less a cs)
          ≡ (if address_eq c.address a then some c else find_if a cs)
    last_step found absent = elim (Bool-cases (address_eq c.address a)) [
      | inl e ↦
          rw
            (
              e,
              Lookup.lookup_equivalent address_of address_less address_less-StrictOrder a c.address
                  cs
                  (sym (address_eq-equivalent a c.address ka kc)
                    ∙ (address_eq_sym a c.address ∙ e)),
              absent,
            )
            refl
      | inr e ↦ rw (e, found) refl
    ]

pub find_if-erase :
    (a b : CableAddress) (cs : List Cable)
    → IsAddress a
    → IsAddress b
    → WellFormed cs
    → find_if a (OrderedSet.erase address_of address_less b cs)
      ≡ (if address_eq a b then none else find_if a cs)
find_if-erase a b cs ka kb wf =
    let after = erase-WellFormed b cs wf in
    find_if-lookup a _ ka after.keys after.rising
    ∙ (Lookup.lookup-erase address_of address_less address_less-StrictOrder a b cs wf.rising
        ∙ (ap (λ t. if t then none else OrderedSet.lookup address_of address_less a cs)
              (sym (address_eq-equivalent a b ka kb))
            ∙ ap (λ o. if address_eq a b then none else o)
                (sym (find_if-lookup a cs ka wf.keys wf.rising))))
