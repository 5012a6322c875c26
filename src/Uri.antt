-- ===== src/Uri.antt =====
-- src/core/ZstURI.cpp and include/showtime/ZstURI.h: paths of entities, cut at `/` into segments.
-- A text is a list of byte values; a buffer's length is that of the list. A component's `cstr` is
-- the list itself, so `malloc` and `free` leave no trace, and a read or a write that the language
-- leaves undefined is the error `invalid_read`. `construct` is the whole constructor; `init` is the
-- path that it leaves where it stays inside `m_components`, and the other modules build paths of
-- that length.
pub mod Split
pub mod Join
pub mod Range
pub mod Parent
pub mod Contains
pub mod Order
pub mod Tests
use showtime_cpp.Common.{
  ℕ, zero, suc, ◌+◌, ◌-◌, ◌*◌, ◌%◌, ◌^◌, Bool, true, false, not, List, [], ◌∷◌, ◌++◌, Bytes, c_str,
  bytes_eq, length, get_elem?, take, drop, ltb, ◌==◌, if◌then◌else◌, Result, ok, thrown, Error,
  ◌>>=◌, none, some,
}

-- `DELIM`, `MAX_PATH_LEN` and the number of values of a `size_t`.
abbrev pub delim : ℕ
delim = b'/'

abbrev pub max_path_len : ℕ
max_path_len = 255

abbrev pub size_mod : ℕ
size_mod = 2 ^ 64

-- The length of `m_components` is `m_component_count`.
pub record Uri : Type 0 where
  pub original_path : Bytes
  pub components : List Bytes

-- The `len` bytes of `m_original_path` from `word_offset`.
word : Bytes → ℕ → ℕ → Bytes
word path word_offset len = take len (drop word_offset path)

-- The loop of `init`, over the bytes still to come, with the last component behind it.
scan : Bytes → Bytes → ℕ → ℕ → List Bytes → List Bytes
unfolding word
scan path [] len word_offset components = components ++ word path word_offset len ∷ []
scan path (c ∷ s) len word_offset components = elim (c == delim) [
  | true ↦ scan path s 0 (word_offset + (len + 1)) (components ++ word path word_offset len ∷ [])
  | false ↦ scan path s (len + 1) word_offset components
]

-- `cstr[0] == 0`, where a NUL stands behind the last byte.
unfoldable pub starts_with_nul : Bytes → Bool
starts_with_nul [] = true
starts_with_nul (c ∷ s) = c == 0

components_of : Bytes → List Bytes
unfolding starts_with_nul
components_of path = if starts_with_nul path then [] else scan path path 0 0 []

unfoldable pub init : Bytes → Uri
unfolding components_of scan
init path = record { original_path = path; components = components_of path }

-- A store into `m_components[m_component_count]`, an array of `max_path_len`.
pub store : List Bytes → Bytes → Result (List Bytes)
store components w =
    if ltb (length components) max_path_len
    then ok (components ++ w ∷ [])
    else thrown Error.invalid_read

-- The same loop with its stores.
pub fill : Bytes → Bytes → ℕ → ℕ → List Bytes → Result (List Bytes)
unfolding word store
fill path [] len word_offset components = store components (word path word_offset len)
fill path (c ∷ s) len word_offset components = elim (c == delim) [
  | true ↦ store components (word path word_offset len) >>= λ components.
      fill path s 0 (word_offset + (len + 1)) components
  | false ↦ fill path s (len + 1) word_offset components
]

unfoldable pub construct : Bytes → Result Uri
unfolding starts_with_nul fill
construct path =
    if starts_with_nul path
    then ok (record { original_path = path; components = [] })
    else (fill path path 0 0 [] >>= λ components.
        ok (record { original_path = path; components = components }))

-- The constructors: the empty path, a C string, and a buffer of which `len` bytes are copied.
unfoldable pub empty : Uri
empty = record { original_path = []; components = [] }

unfoldable pub from_c_str : Bytes → Uri
unfolding init
from_c_str p = init (c_str p)

unfoldable pub from_buffer : Bytes → ℕ → Uri
unfolding init
from_buffer p len = init (take len p)

unfoldable pub path : Uri → Bytes
path u = c_str u.original_path

unfoldable pub size : Uri → ℕ
size u = length u.components

unfoldable pub full_size : Uri → ℕ
full_size u = length (c_str u.original_path)

unfoldable pub is_empty : Uri → Bool
is_empty u = ltb (length u.components) 1

-- `m_components[index]`, where `index` is below the count.
component_at : List Bytes → ℕ → Error → Result Bytes
component_at cs index e = elim (get_elem? cs index) [ none ↦ thrown e | some c ↦ ok c ]

unfoldable pub segment : Uri → ℕ → Result Bytes
unfolding component_at
segment u index = component_at u.components index Error.range_error

-- The first loop of `range`: `start_position` is the sum of the lengths passed, each with its `/`.
seek : List Bytes → ℕ → ℕ → ℕ → Result ℕ
unfolding component_at
seek cs zero index start_position = ok start_position
seek cs (suc rounds) index start_position = component_at cs index Error.invalid_read >>= λ c.
    seek cs rounds (suc index) (start_position + (length c + 1))

-- The second loop.
measure : List Bytes → ℕ → ℕ → ℕ → Result ℕ
unfolding component_at
measure cs zero index len = ok len
measure cs (suc rounds) index len =
    component_at cs index Error.invalid_read >>= λ c. measure cs rounds (suc index) (len + length c)

-- The body behind the guard, for `start ≤ end`.
range_between : Uri → ℕ → ℕ → Result Uri
unfolding seek measure from_buffer
range_between u start end = seek u.components start 0 0 >>= λ start_position.
    measure u.components (suc end - start) start 0 >>= λ len.
    ok (from_buffer (drop start_position u.original_path) (len + (end - start)))

unfoldable pub range : Uri → ℕ → ℕ → Result Uri
unfolding range_between
range u start end =
    if ltb (length u.components) ((end + size_mod - start) % size_mod)
    then thrown Error.range_error
    else range_between u start end

-- `s - 2`, an `int`, is negative for fewer than two segments.
unfoldable pub parent : Uri → Result Uri
unfolding range empty
parent u = if ltb (length u.components) 2 then ok empty else range u 0 (length u.components - 2)

unfoldable pub first : Uri → Result Uri
unfolding from_c_str component_at
first u = component_at u.components 0 Error.out_of_range >>= λ c. ok (from_c_str c)

unfoldable pub last : Uri → Result Uri
unfolding from_c_str component_at
last u =
    if ltb (length u.components) 1
    then thrown Error.out_of_range
    else (component_at u.components (length u.components - 1) Error.invalid_read >>= λ c.
        ok (from_c_str c))

-- `operator+`: `memcpy` and a NUL, two calls of `strncat`, and the result read as a C string.
unfoldable pub concat : Uri → Uri → Uri
unfolding from_c_str
concat a b = from_c_str (c_str a.original_path ++ (delim ∷ c_str b.original_path))

-- The loop of `contains`, over the segments of both paths; `contiguous` counts those that agree.
match_segments : ℕ → ℕ → List Bytes → List Bytes → Bool
match_segments shortest contiguous (c ∷ cs) (t ∷ ts) =
    let hit = match_segments shortest (contiguous + 1) cs ts in
    let miss = match_segments shortest contiguous cs ts in
    if bytes_eq (c_str c) (c_str t)
    then (if contiguous + 1 == shortest then true else hit)
    else miss
match_segments shortest contiguous _ _ = false

unfoldable pub contains : Uri → Uri → Bool
unfolding match_segments
contains u compare =
    if ltb (length u.components) (length compare.components)
    then false
    else match_segments (length compare.components) 0 compare.components u.components

-- `equal` and `operator==`.
unfoldable pub equal : Uri → Uri → Bool
equal a b = bytes_eq (c_str a.original_path) (c_str b.original_path)

unfoldable pub not_equal : Uri → Uri → Bool
unfolding equal
not_equal a b = not (equal a b)

-- A `char` is signed, so a byte from 128 up stands below the others; `key` shifts the order back.
key : ℕ → ℕ
key c = (c + 128) % 256

-- `std::lexicographical_compare` over two ranges of `char`.
less_bytes : Bytes → Bytes → Bool
unfolding key
less_bytes [] [] = false
less_bytes [] (b ∷ bs) = true
less_bytes (a ∷ as') [] = false
less_bytes (a ∷ as') (b ∷ bs) =
    if ltb (key a) (key b) then true else if ltb (key b) (key a) then false else less_bytes as' bs

unfoldable pub less : Uri → Uri → Bool
unfolding less_bytes
less a b = less_bytes a.original_path b.original_path

-- A `char` widened to `size_t` keeps its sign.
widen : ℕ → ℕ
widen c = if ltb c 128 then c else size_mod + c - 256

hash_from : ℕ → Bytes → ℕ
unfolding widen
hash_from result [] = result
hash_from result (c ∷ s) = hash_from ((widen c + result * 31 % size_mod) % size_mod) s

unfoldable pub hash : Uri → ℕ
unfolding hash_from
hash u = hash_from 0 (c_str u.original_path)
