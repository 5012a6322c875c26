-- ===== src/Session/Tests.antt =====
-- A session with one output plug and two input plugs, and instances of the theorems.
use showtime_cpp.Common.{◌≡◌, ◌≢◌, ◌⊎◌, refl, true, false, List, [], ◌∷◌, none, some, inl, arith}
use showtime_cpp.Uri.{init, equal}
use showtime_cpp.CableAddress.{address_eq}
use showtime_cpp.CableAddress.Order.{IsAddress}
use showtime_cpp.Sync
use showtime_cpp.Sync.{Sync, SyncStatus, activated, activating, no_err}
use showtime_cpp.Cable.{Cable}
use showtime_cpp.Samples.{all_alive, sync_with, sender, receiver, spare, objects, paths}
use showtime_cpp.OrderedSet
use showtime_cpp.Session.{
  Session, in_order, find_cable, create_cable, connect_cable, destroy_cable_complete,
  process_synchronisables, on_cable_created,
}
use showtime_cpp.Session.Cables.{WellFormed}
use showtime_cpp.Session.Create.{between, create_cable_lem}
use showtime_cpp.Session.Connect.{connect_cable_lem}
use showtime_cpp.Session.Destroy.{destroyed_is_reaped}

-- A cable from the sender to the receiver, which the adaptors 7 and 9 listen to.
abbrev wire : Cable
unfolding init
wire = record {
  address = between receiver sender;
  input = some 2;
  output = some 1;
  sync = sync_with (7 ∷ 9 ∷ []);
}

abbrev session_with : List Cable → Session
unfolding init
session_with cables = record {
  world = record { heap = objects; lookup = paths };
  cables = cables;
  connected_performers = [];
  events = [];
  woken = [];
  cleanups = [];
  id_counter = 5;
}

created_twice :
    (create_cable all_alive 9 7
      (some 2)
      (some 1)
      (create_cable all_alive 9 7 (some 2) (some 1) (session_with [])).0).0.events
    ≡ on_cable_created (between receiver sender) ∷ []
unfolding create_cable init OrderedSet.insert address_eq equal
created_twice = refl

receiver-IsAddress : IsAddress (between receiver sender)
unfolding init
receiver-IsAddress = record {
  input_key = record { bytes = omega arith; nul_free = omega arith };
  output_key = record { bytes = omega arith; nul_free = omega arith };
}

spare-IsAddress : IsAddress (between spare sender)
unfolding init
spare-IsAddress = record {
  input_key = record { bytes = omega arith; nul_free = omega arith };
  output_key = record { bytes = omega arith; nul_free = omega arith };
}

none-WellFormed : WellFormed []
none-WellFormed = record { rising = tt; keys = tt }

wire-WellFormed : WellFormed (wire ∷ [])
unfolding init
wire-WellFormed = record { rising = (tt, tt); keys = (receiver-IsAddress, tt) }

create_cable_lem_example :
    let s = session_with [] in
    let t = (create_cable all_alive 9 7 (some 2) (some 1) s).0 in
    WellFormed t.cables
    × (find_cable (between receiver sender) t ≢ none)
    × (find_cable (between spare sender) t ≡ find_cable (between spare sender) s)
    × (t.events ≡ on_cable_created (between receiver sender) ∷ [])
unfolding init find_cable address_eq equal
create_cable_lem_example =
    create_cable_lem all_alive 9 7 2 1 receiver sender (session_with []) (between spare sender) refl
      refl receiver-IsAddress spare-IsAddress refl none-WellFormed

connect_cable_lem_example :
    let s = session_with (wire ∷ []) in
    let r = connect_cable all_alive 9 7 (some 3) (some 1) s in
    ((true ≡ false) × (r ≡ (s, none)))
    ⊎ ((true ≡ true)
        × ((c : Cable) × (find_cable (between spare sender) r.0 ≡ some c)
            × (c.sync.core.status ≡ activating)))
unfolding init Sync.is_activated in_order
connect_cable_lem_example =
    connect_cable_lem all_alive 9 7 3 1 spare sender (session_with (wire ∷ [])) refl refl
      spare-IsAddress wire-WellFormed

destroyed_is_reaped_example :
    let s = session_with (wire ∷ []) in
    let t =
      process_synchronisables all_alive 9
        (destroy_cable_complete all_alive 9 (some (between receiver sender)) s) in
    WellFormed t.cables
    × (find_cable (between receiver sender) t ≡ none)
    × (find_cable (between spare sender) t ≡ find_cable (between spare sender) s)
    × (t.cleanups ≡ [])
unfolding init find_cable address_eq equal
destroyed_is_reaped_example =
    destroyed_is_reaped all_alive 9 (between receiver sender) (between spare sender)
      (session_with (wire ∷ [])) wire 7 (9 ∷ []) receiver-IsAddress spare-IsAddress refl
      wire-WellFormed refl (inl refl) refl refl refl refl refl
