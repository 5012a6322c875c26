-- ===== src/Value/Tests.antt =====
-- Instances of the theorems on the values of plugs.
use showtime_cpp.Common.{
  ℕ, ◌≡◌, refl, ◌<◌, none, some, ok, thrown, Error, ◌>>=◌, if◌then◌else◌, ltb, leb, ◌&&◌, ◌+◌,
  codes, arith,
}
use showtime_cpp.Value.{int_list, serialize, deserialize, char_at, size, size_mod}
use showtime_cpp.Value.Samples.{one_byte, two_ints, two_texts}
use showtime_cpp.Value.RoundTrip.{
  all_of, has_list, deserialize-serialize_sent, last_text, char_at_lem,
}

-- A text is read back from the last place and from no other.
reads_last : char_at ℕ ℕ one_byte 1 two_texts ≡ ok (some (codes "two"))
unfolding char_at
reads_last = refl

reads_first : char_at ℕ ℕ one_byte 0 two_texts ≡ ok none
unfolding char_at
reads_first = refl

deserialize-serialize_sent_example :
    (serialize ℕ ℕ one_byte two_ints >>= λ b. ok (deserialize ℕ ℕ one_byte two_texts b))
    ≡ ok (if has_list ℕ ℕ one_byte int_list then two_ints else two_texts)
unfolding all_of
deserialize-serialize_sent_example =
    deserialize-serialize_sent ℕ ℕ one_byte int_list two_ints.values two_texts refl

few : size ℕ ℕ one_byte two_texts < size_mod
unfolding size
few = omega arith

char_at_lem_example : char_at ℕ ℕ one_byte 0 two_texts ≡ (
    if ltb (0 + 1) (size ℕ ℕ one_byte two_texts)
    then ok none
    else if ltb 0 (size ℕ ℕ one_byte two_texts) && leb (size ℕ ℕ one_byte two_texts) 0
    then thrown Error.out_of_range
    else ok (last_text ℕ ℕ one_byte two_texts.values))
char_at_lem_example = char_at_lem ℕ ℕ one_byte 0 two_texts (omega arith) few
