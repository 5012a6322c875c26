-- ===== src/Value.antt =====
-- src/core/ZstValue.cpp: the values of a plug, a vector of variants, and the table that is sent. The
-- machine's integers and floats are the types `I` and `F`, and what the language and its library do
-- between them and texts is a record of functions.
pub mod RoundTrip
pub mod Samples
pub mod Tests
use showtime_cpp.Common.{
  ℕ, ◌+◌, ◌-◌, ◌%◌, ◌^◌, Bool, true, false, List, [], ◌∷◌, ◌++◌, Option, none, some, Result, ok,
  thrown, Error, ◌>>=◌, if◌then◌else◌, Bytes, length, get_elem?, ltb, c_str,
}

-- `ZstValueType` of include/showtime/ZstConstants.h, and `PlugValueData` of the messages.
pub data ValueType : Type 0 where
  no_type int_list float_list str_list plug_handshake : ValueType

-- The conversions: casts, `std::stoi`, `std::stof` and `std::to_string`.
pub record Conversions (I F : Type 0) : Type 0 where
  pub int_of_float : F → Result I
  pub float_of_int : I → F
  pub stoi : Bytes → Result I
  pub stof : Bytes → Result F
  pub int_to_string : I → Bytes
  pub float_to_string : F → Bytes

-- `size_t` has 64 bits, an `int` and a `float` 4 bytes.
abbrev pub size_mod : ℕ
size_mod = 2 ^ 64

abbrev pub int_size : ℕ
int_size = 4

abbrev pub float_size : ℕ
float_size = 4

-- `ZstValueVariant`.
pub data Variant (I F : Type 0) : Type 0 where
  of_int : I → Variant I F
  of_float : F → Variant I F
  of_string : Bytes → Variant I F

pub record Value (I F : Type 0) : Type 0 where
  pub values : List (Variant I F)
  pub default_type : ValueType

-- The table `PlugValue`, with the union that it holds.
pub data PlugValue (I F : Type 0) : Type 0 where
  int_values : List I → PlugValue I F
  float_values : List F → PlugValue I F
  str_values : List Bytes → PlugValue I F
  handshake_value no_values : PlugValue I F

-- `m_values.at(position)`.
pub value_at : {A : Type 0} → ℕ → List A → Result A
value_at position vs = elim (get_elem? vs position) [
  | none ↦ thrown Error.out_of_range
  | some v ↦ ok v
]

-- A visitor on each element of a loop, until one throws.
pub visit_all : {A B : Type 0} → (A → Result B) → List A → Result (List B)
visit_all f [] = ok []
visit_all f (v ∷ vs) = f v >>= λ b. visit_all f vs >>= λ bs. ok (b ∷ bs)

pub map_values : {A B : Type 0} → (A → B) → List A → List B
map_values f [] = []
map_values f (v ∷ vs) = f v ∷ map_values f vs

module _ (I F : Type 0) (conv : Conversions I F) where
  -- The constructors.
  unfoldable pub new_value : ValueType → Value I F
  new_value t = record { values = []; default_type = t }

  unfoldable pub default_value : Value I F
  unfolding new_value
  default_value = new_value int_list

  unfoldable pub copy : Value I F → Value I F → Value I F
  copy other v = record v { values = other.values }

  unfoldable pub clear : Value I F → Value I F
  clear v = record v { values = [] }

  unfoldable pub append_int : I → Value I F → Value I F
  append_int i v = record v { values = v.values ++ of_int i ∷ [] }

  unfoldable pub append_float : F → Value I F → Value I F
  append_float f v = record v { values = v.values ++ of_float f ∷ [] }

  unfoldable pub append_char : Bytes → Value I F → Value I F
  append_char s v = record v { values = v.values ++ of_string (c_str s) ∷ [] }

  pub size : Value I F → ℕ
  size v = length v.values

  -- The visitors.
  pub int_visitor : Variant I F → Result I
  int_visitor (of_int i) = ok i
  int_visitor (of_float f) = conv.int_of_float f
  int_visitor (of_string s) = conv.stoi s

  pub float_visitor : Variant I F → Result F
  float_visitor (of_int i) = ok (conv.float_of_int i)
  float_visitor (of_float f) = ok f
  float_visitor (of_string s) = conv.stof s

  pub str_visitor : Variant I F → Bytes
  str_visitor (of_int i) = conv.int_to_string i
  str_visitor (of_float f) = conv.float_to_string f
  str_visitor (of_string s) = s

  unfoldable pub int_at : ℕ → Value I F → Result I
  unfolding value_at int_visitor
  int_at position v = value_at position v.values >>= int_visitor

  unfoldable pub float_at : ℕ → Value I F → Result F
  unfolding value_at float_visitor
  float_at position v = value_at position v.values >>= float_visitor

  -- What is copied into the buffer, if anything is: `m_values.size() - 1` wraps around.
  pub char_at : ℕ → Value I F → Result (Option Bytes)
  unfolding size value_at str_visitor
  char_at position v =
      if ltb position ((size v + (size_mod - 1)) % size_mod)
      then ok none
      else (value_at position v.values >>= λ x. ok (some (str_visitor x)))

  size_of : ValueType → Variant I F → ℕ
  unfolding str_visitor
  size_of int_list x = int_size
  size_of float_list x = float_size
  size_of str_list x = length (str_visitor x)
  size_of _ x = 0

  unfoldable pub size_at : ℕ → Value I F → Result ℕ
  unfolding value_at size_of
  size_at position v = value_at position v.values >>= λ x. ok (size_of v.default_type x)

  pub as_int_vector : Value I F → Result (List I)
  unfolding visit_all int_visitor
  as_int_vector v = visit_all int_visitor v.values

  pub as_float_vector : Value I F → Result (List F)
  unfolding visit_all float_visitor
  as_float_vector v = visit_all float_visitor v.values

  pub as_string_vector : Value I F → List Bytes
  unfolding map_values str_visitor
  as_string_vector v = map_values str_visitor v.values

  -- `serialize_partial`: no table for the two types without a list.
  pub serialize_as : ValueType → Value I F → Result (Option (PlugValue I F))
  unfolding as_int_vector as_float_vector as_string_vector
  serialize_as int_list v = as_int_vector v >>= λ l. ok (some (int_values l))
  serialize_as float_list v = as_float_vector v >>= λ l. ok (some (float_values l))
  serialize_as str_list v = ok (some (str_values (as_string_vector v)))
  serialize_as plug_handshake v = ok none
  serialize_as no_type v = ok none

  unfoldable pub serialize : Value I F → Result (Option (PlugValue I F))
  unfolding serialize_as
  serialize v = serialize_as v.default_type v

  pub deserialize : Value I F → Option (PlugValue I F) → Value I F
  unfolding map_values
  deserialize v none = v
  deserialize v (some (int_values l)) = record {
    values = map_values of_int l;
    default_type = int_list;
  }
  deserialize v (some (float_values l)) = record {
    values = map_values of_float l;
    default_type = float_list;
  }
  deserialize v (some (str_values l)) = record {
    values = map_values of_string l;
    default_type = str_list;
  }
  deserialize v (some handshake_value) = record v { default_type = plug_handshake }
  deserialize v (some no_values) = record v { default_type = no_type }
