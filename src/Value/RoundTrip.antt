-- ===== src/Value/RoundTrip.antt =====
-- src/core/ZstValue.cpp: what is left of a value that is sent, and the texts that are read from it.
use showtime_cpp.Common.{
  ℕ, ◌≡◌, refl, sym, ap, ◌∙◌, ◌<◌, ◌+◌, ◌-◌, ◌%◌, Bool, true, false, List, [], ◌∷◌, Option, none,
  some, ok, thrown, Error, ◌>>=◌, if◌then◌else◌, ◌&&◌, Bytes, length, ltb, leb, lt→ltb, ◌==◌,
  ==_iff, Bool-cases, inl, inr, ◌≤◌, zero, suc, arith,
}
use showtime_cpp.Value.{
  ValueType, no_type, int_list, float_list, str_list, plug_handshake, Variant, of_int, of_float,
  of_string, Value, int_values, float_values, as_int_vector, as_float_vector, as_string_vector,
  int_visitor, float_visitor, str_visitor, serialize_as, Conversions, size_mod, visit_all, value_at,
  size, map_values, serialize, deserialize, char_at,
}

module _ (I F : Type 0) (conv : Conversions I F) where
  -- The variants that a value with a default type holds when it was filled with that type alone.
  unfoldable pub is_of : ValueType → Variant I F → Bool
  is_of int_list (of_int i) = true
  is_of int_list _ = false
  is_of float_list (of_float f) = true
  is_of float_list _ = false
  is_of str_list (of_string s) = true
  is_of str_list _ = false
  is_of plug_handshake x = true
  is_of no_type x = true

  unfoldable pub all_of : ValueType → List (Variant I F) → Bool
  unfolding is_of
  all_of t [] = true
  all_of t (x ∷ xs) = is_of t x && all_of t xs

  -- The types whose values have a table.
  unfoldable pub has_list : ValueType → Bool
  has_list int_list = true
  has_list float_list = true
  has_list str_list = true
  has_list plug_handshake = false
  has_list no_type = false

  -- A list of one type is made of what its variants hold.
  ints_of :
      (vs : List (Variant I F))
      → all_of int_list vs ≡ true
      → (l : List I) × (map_values of_int l ≡ vs)
  unfolding all_of is_of map_values
  ints_of [] holds = ([], refl)
  ints_of (of_int i ∷ vs) holds =
      let (l, same) = ints_of vs holds in (i ∷ l, ap (λ t. of_int i ∷ t) same)
  ints_of (of_float f ∷ vs) holds = cc
  ints_of (of_string s ∷ vs) holds = cc

  floats_of :
      (vs : List (Variant I F))
      → all_of float_list vs ≡ true
      → (l : List F) × (map_values of_float l ≡ vs)
  unfolding all_of is_of map_values
  floats_of [] holds = ([], refl)
  floats_of (of_float f ∷ vs) holds =
      let (l, same) = floats_of vs holds in (f ∷ l, ap (λ t. of_float f ∷ t) same)
  floats_of (of_int i ∷ vs) holds = cc
  floats_of (of_string s ∷ vs) holds = cc

  strings_of :
      (vs : List (Variant I F))
      → all_of str_list vs ≡ true
      → (l : List Bytes) × (map_values of_string l ≡ vs)
  unfolding all_of is_of map_values
  strings_of [] holds = ([], refl)
  strings_of (of_string s ∷ vs) holds =
      let (l, same) = strings_of vs holds in (s ∷ l, ap (λ t. of_string s ∷ t) same)
  strings_of (of_int i ∷ vs) holds = cc
  strings_of (of_float f ∷ vs) holds = cc

  -- Reading a list of one type gives it back.
  pub ints_read : (l : List I) → visit_all (int_visitor I F conv) (map_values of_int l) ≡ ok l
  unfolding visit_all map_values int_visitor
  ints_read [] = refl
  ints_read (i ∷ l) = ap (λ r. r >>= λ t. ok (i ∷ t)) (ints_read l)

  pub floats_read : (l : List F) → visit_all (float_visitor I F conv) (map_values of_float l) ≡ ok l
  unfolding visit_all map_values float_visitor
  floats_read [] = refl
  floats_read (f ∷ l) = ap (λ r. r >>= λ t. ok (f ∷ t)) (floats_read l)

  pub strings_read :
      (l : List Bytes) → map_values (str_visitor I F conv) (map_values of_string l) ≡ l
  unfolding map_values str_visitor
  strings_read [] = refl
  strings_read (s ∷ l) = ap (λ t. s ∷ t) (strings_read l)

  -- A value whose elements all are of its default type comes back as it was when it is serialised and
  -- deserialised into any other value, for the three types that have a list; a value of the other two
  -- types has no table, and the receiver keeps what it held.
  pub deserialize-serialize_sent :
      (t : ValueType) (vs : List (Variant I F)) (w : Value I F)
      → all_of t vs ≡ true
      → (serialize I F conv (record { values = vs; default_type = t }) >>= λ b.
          ok (deserialize I F conv w b))
        ≡ ok (if has_list t then record { values = vs; default_type = t } else w)
  unfolding serialize serialize_as deserialize has_list as_int_vector as_float_vector
      as_string_vector
  deserialize-serialize_sent int_list vs w holds =
      let (l, same) = ints_of vs holds in
      ap (λ r. (r >>= λ xs. ok (some (int_values xs))) >>= λ b. ok (deserialize I F conv w b))
        (ap (visit_all (int_visitor I F conv)) (sym same) ∙ ints_read l)
      ∙ ap (λ xs. ok (record { values = xs; default_type = int_list })) same
  deserialize-serialize_sent float_list vs w holds =
      let (l, same) = floats_of vs holds in
      ap (λ r. (r >>= λ xs. ok (some (float_values xs))) >>= λ b. ok (deserialize I F conv w b))
        (ap (visit_all (float_visitor I F conv)) (sym same) ∙ floats_read l)
      ∙ ap (λ xs. ok (record { values = xs; default_type = float_list })) same
  deserialize-serialize_sent str_list vs w holds =
      let (l, same) = strings_of vs holds in
      ap (λ xs. ok (record { values = map_values of_string xs; default_type = str_list }))
        (ap (map_values (str_visitor I F conv)) (sym same) ∙ strings_read l)
      ∙ ap (λ xs. ok (record { values = xs; default_type = str_list })) same
  deserialize-serialize_sent plug_handshake vs w holds = refl
  deserialize-serialize_sent no_type vs w holds = refl

  -- The text of the last element.
  unfoldable pub last_text : List (Variant I F) → Option Bytes
  unfolding str_visitor
  last_text [] = none
  last_text (x ∷ []) = some (str_visitor I F conv x)
  last_text (x ∷ y ∷ xs) = last_text (y ∷ xs)

  text_of_last :
      (x : Variant I F) (xs : List (Variant I F))
      → (value_at (length xs) (x ∷ xs) >>= λ y. ok (some (str_visitor I F conv y)))
        ≡ ok (last_text (x ∷ xs))
  unfolding value_at last_text str_visitor
  text_of_last x [] = refl
  text_of_last x (y ∷ xs) = text_of_last y xs

  past_the_end :
      (position : ℕ) (xs : List (Variant I F))
      → length xs ≤ position
      → value_at position xs ≡ thrown Error.out_of_range
  unfolding value_at
  past_the_end position [] h = refl
  past_the_end zero (x ∷ xs) h = absurd (omega arith)
  past_the_end (suc position) (x ∷ xs) h = past_the_end position xs (omega arith)

  -- The test of `char_at` for an empty value, and for one with a last element.
  wraps :
      (position : ℕ)
      → position + 1 < size_mod
      → ltb position ((0 + (size_mod - 1)) % size_mod) ≡ true
  wraps position small = lt→ltb position _ (omega arith)

  before_last : (n : ℕ) → suc n < size_mod → (suc n + (size_mod - 1)) % size_mod ≡ n
  before_last n few = omega arith

  texts :
      (position : ℕ) (vs : List (Variant I F)) (t : ValueType)
      → position + 1 < size_mod
      → length vs < size_mod
      → char_at I F conv position (record { values = vs; default_type = t }) ≡ (
          if ltb (position + 1) (length vs)
          then ok none
          else if ltb 0 (length vs) && leb (length vs) position
          then thrown Error.out_of_range
          else ok (last_text vs))
  unfolding char_at size last_text
  texts position [] t small few = rw (wraps position small) (ground arith)
  texts position (x ∷ xs) t small few =
      rw (before_last (length xs) few) (elim (Bool-cases (ltb position (length xs))) [
        | inl less ↦ rw less (ground arith)
        | inr not_less ↦ elim (Bool-cases (position == length xs)) [
          | inl same ↦
              rw (not_less, (==_iff position (length xs)).0 same, text_of_last x xs) (ground arith)
          | inr other ↦ rw (not_less, past_the_end position (x ∷ xs) (ground arith)) (ground arith)
        ]
      ])

  -- `char_at` copies a text for the last element alone: for an element before it, and for every position
  -- in an empty value, nothing is copied and nothing thrown; a position past the end of a value that has
  -- elements throws. The position is not the largest of `size_t`, and the value has fewer elements than
  -- `size_t` has numbers.
  pub char_at_lem :
      (position : ℕ) (v : Value I F)
      → position + 1 < size_mod
      → size I F conv v < size_mod
      → char_at I F conv position v ≡ (
          if ltb (position + 1) (size I F conv v)
          then ok none
          else if ltb 0 (size I F conv v) && leb (size I F conv v) position
          then thrown Error.out_of_range
          else ok (last_text v.values))
  unfolding char_at size
  char_at_lem position v small few = texts position v.values v.default_type small few
