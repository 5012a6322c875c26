-- ===== src/Cable.antt =====
-- src/core/ZstCable.cpp: a cable keeps the address that it was made with, the pointers to its plugs
-- and its activation state.
use showtime_cpp.Common.{ℕ, Bool, ◌&&◌, ◌||◌, Option, none, some}
use showtime_cpp.Uri.{Uri, equal}
use showtime_cpp.CableAddress.{CableAddress, no_address}
use showtime_cpp.Sync
use showtime_cpp.Sync.{Sync}

pub record Cable : Type 0 where
  pub address : CableAddress
  pub input : Option ℕ
  pub output : Option ℕ
  pub sync : Sync

-- The constructors; `default` and `counter` are those of `Sync.construct`.
unfoldable pub no_cable : ℕ → ℕ → Cable
unfolding no_address Sync.construct
no_cable default counter = record {
  address = no_address;
  input = none;
  output = none;
  sync = (Sync.construct default counter).0;
}

unfoldable pub cable_between : ℕ → ℕ → ℕ → Uri → ℕ → Uri → Cable
unfolding Sync.construct
cable_between default counter input input_path output output_path = record {
  address = record { input_uri = input_path; output_uri = output_path };
  input = some input;
  output = some output;
  sync = (Sync.construct default counter).0;
}

unfoldable pub copy_cable : ℕ → ℕ → Cable → Cable
unfolding Sync.construct
copy_cable default counter other = record {
  address = other.address;
  input = other.input;
  output = other.output;
  sync = (Sync.construct default counter).0;
}

unfoldable pub disconnect : (ℕ → Bool) → Cable → Cable
unfolding Sync.enqueue_deactivation
disconnect alive c = record c { sync = Sync.enqueue_deactivation alive c.sync }

unfoldable pub is_attached : Uri → Cable → Bool
is_attached uri c = equal c.address.input_uri uri || equal c.address.output_uri uri

unfoldable pub is_attached_to_both : Uri → Uri → Cable → Bool
is_attached_to_both a b c =
    (equal c.address.input_uri a || equal c.address.input_uri b)
    && (equal c.address.output_uri a || equal c.address.output_uri b)

unfoldable pub set_input : ℕ → Cable → Cable
set_input p c = record c { input = some p }

unfoldable pub set_output : ℕ → Cable → Cable
set_output p c = record c { output = some p }
