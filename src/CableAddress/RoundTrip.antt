-- ===== src/CableAddress/RoundTrip.antt =====
-- An address sent as a `CableData` table and read back.
use showtime_cpp.Common.{
  ◌≡◌, refl, sym, ap, ◌∙◌, Bytes, NulFree, c_str_self, length, take, take-length, [], some, none,
  append-nil,
}
use showtime_cpp.Uri.{Uri, init, from_buffer, path, full_size}
use showtime_cpp.CableAddress.{CableAddress, serialize, deserialize}

-- A path that comes from one of the constructors and holds no NUL.
pub record IsBuilt (u : Uri) : Type 0 where
  pub cut : u ≡ init u.original_path
  pub nul_free : NulFree u.original_path

pub take_all : (s : Bytes) → take (length s) s ≡ s
take_all s = ap (take (length s)) (sym (append-nil s)) ∙ take-length s []

pub sent : (u : Uri) → IsBuilt u → take (full_size u) (path u) ≡ u.original_path
unfolding full_size path
sent u b = rw (c_str_self u.original_path b.nul_free) (take_all u.original_path)

pub received : (u : Uri) → IsBuilt u → from_buffer u.original_path (length u.original_path) ≡ u
unfolding from_buffer
received u b = rw (take_all u.original_path) (sym b.cut)

-- An address whose paths were cut from texts without NUL comes back from its table as it was,
-- whatever address reads it; a null table changes
-- nothing.
pub deserialize-serialize :
    (a other : CableAddress)
    → IsBuilt a.input_uri
    → IsBuilt a.output_uri
    → (deserialize other (some (serialize a)) ≡ a) × (deserialize other none ≡ other)
unfolding serialize deserialize
deserialize-serialize a other bi bo = (
  rw (sent a.input_uri bi, sent a.output_uri bo)
      (rw (received a.input_uri bi, received a.output_uri bo)),
  refl,
)
