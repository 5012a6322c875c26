-- ===== src/CableAddress/Tests.antt =====
-- Two cables into one input plug, and instances of the theorems.
use showtime_cpp.Common.{◌≡◌, refl, codes, true, some, none, arith}
use showtime_cpp.Uri.{init, less}
use showtime_cpp.Uri.Order.{ExactlyOne}
use showtime_cpp.CableAddress.{
  CableAddress, address_eq, address_less, serialize, deserialize, to_string, no_address,
}
use showtime_cpp.CableAddress.Order.{IsAddress, address_trichotomy}
use showtime_cpp.CableAddress.RoundTrip.{deserialize-serialize}

abbrev first_cable : CableAddress
unfolding init
first_cable = record { input_uri = init (codes "b/in"); output_uri = init (codes "a/out") }

abbrev second_cable : CableAddress
unfolding init
second_cable = record { input_uri = init (codes "b/in"); output_uri = init (codes "c/out") }

abbrev third_cable : CableAddress
unfolding init
third_cable = record { input_uri = init (codes "c/in"); output_uri = init (codes "a/out") }

first_text : to_string first_cable ≡ codes "a/out :~~> b/in"
unfolding to_string init
first_text = refl

first_before_second : address_less first_cable second_cable ≡ true
unfolding address_less less init
first_before_second = refl

first-IsAddress : IsAddress first_cable
unfolding init
first-IsAddress = record {
  input_key = record { bytes = omega arith; nul_free = omega arith };
  output_key = record { bytes = omega arith; nul_free = omega arith };
}

second-IsAddress : IsAddress second_cable
unfolding init
second-IsAddress = record {
  input_key = record { bytes = omega arith; nul_free = omega arith };
  output_key = record { bytes = omega arith; nul_free = omega arith };
}

address_trichotomy_example :
    ExactlyOne
      (address_less first_cable second_cable)
      (address_eq first_cable second_cable)
      (address_less second_cable first_cable)
address_trichotomy_example =
    address_trichotomy first_cable second_cable first-IsAddress second-IsAddress

deserialize-serialize_example :
    (deserialize no_address (some (serialize first_cable)) ≡ first_cable)
    × (deserialize no_address none ≡ no_address)
unfolding init
deserialize-serialize_example =
    deserialize-serialize first_cable no_address (record { cut = refl; nul_free = omega arith })
      (record { cut = refl; nul_free = omega arith })
