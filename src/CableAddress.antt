-- ===== src/CableAddress.antt =====
-- src/core/ZstCableAddress.cpp: a cable is named by the paths of its input and its output plug.
-- The two texts of a `CableData` table are what the flatbuffers library stores and gives back; the
-- table is taken as the pair of texts.
pub mod Order
pub mod RoundTrip
pub mod Tests
use showtime_cpp.Common.{
  ℕ, ◌+◌, ◌*◌, ◌%◌, Bool, true, false, not, ◌&&◌, ◌||◌, ◌++◌, Bytes, codes, take, length, Option,
  none, some,
}
use showtime_cpp.Uri.{Uri, size_mod, path, full_size, from_buffer, empty, equal, less, hash}
use Prim.Native.Nat.{bit_xor}

pub record CableAddress : Type 0 where
  pub input_uri : Uri
  pub output_uri : Uri

-- The default constructor.
unfoldable pub no_address : CableAddress
unfolding empty
no_address = record { input_uri = empty; output_uri = empty }

-- `std::tie` compares pairs, the input first.
unfoldable pub address_eq : CableAddress → CableAddress → Bool
address_eq a b = equal a.input_uri b.input_uri && equal a.output_uri b.output_uri

unfoldable pub address_ne : CableAddress → CableAddress → Bool
unfolding address_eq
address_ne a b = not (address_eq a b)

unfoldable pub address_less : CableAddress → CableAddress → Bool
address_less a b =
    less a.input_uri b.input_uri
    || (not (less b.input_uri a.input_uri) && less a.output_uri b.output_uri)

-- The table that is sent: `CreateString(path(), full_size())` for each path.
pub record CableData : Type 0 where
  pub input : Bytes
  pub output : Bytes

unfoldable pub serialize : CableAddress → CableData
unfolding path full_size
serialize a = record {
  input = take (full_size a.input_uri) (path a.input_uri);
  output = take (full_size a.output_uri) (path a.output_uri);
}

-- A null pointer leaves the address as it is.
unfoldable pub deserialize : CableAddress → Option CableData → CableAddress
unfolding from_buffer
deserialize a none = a
deserialize a (some b) = record {
  input_uri = from_buffer b.input (length b.input);
  output_uri = from_buffer b.output (length b.output);
}

unfoldable pub to_string : CableAddress → Bytes
unfolding path
to_string a = path a.output_uri ++ (codes " :~~> " ++ path a.input_uri)

-- `h1 ^ (h2 << 1)`, where the shift drops the top bit.
unfoldable pub address_hash : CableAddress → ℕ
unfolding hash
address_hash a = bit_xor (hash a.output_uri) (hash a.input_uri * 2 % size_mod)
