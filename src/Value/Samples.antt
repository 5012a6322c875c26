-- ===== src/Value/Samples.antt =====
-- Values of plugs for the tests. Numbers stand for the machine's integers and floats.
use showtime_cpp.Common.{ℕ, [], ◌∷◌, Result, ok, thrown, Error, Bytes, codes}
use showtime_cpp.Value.{int_list, str_list, of_int, of_string, Value, Conversions}

-- Texts are read as the code of their first byte.
abbrev first_code : Bytes → Result ℕ
first_code [] = thrown Error.invalid_argument
first_code (c ∷ s) = ok c

abbrev pub one_byte : Conversions ℕ ℕ
one_byte = record {
  int_of_float = λ f. ok f;
  float_of_int = λ i. i;
  stoi = first_code;
  stof = first_code;
  int_to_string = λ i. i ∷ [];
  float_to_string = λ f. f ∷ [];
}

abbrev pub two_ints : Value ℕ ℕ
two_ints = record { values = of_int 5 ∷ of_int 7 ∷ []; default_type = int_list }

abbrev pub two_texts : Value ℕ ℕ
two_texts = record {
  values = of_string (codes "one") ∷ of_string (codes "two") ∷ [];
  default_type = str_list;
}
