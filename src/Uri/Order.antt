-- ===== src/Uri/Order.antt =====
-- `operator<`, `operator==` and the hash, by which maps and sets of paths find their keys.
use showtime_cpp.Common.{
  ℕ, ◌+◌, ◌%◌, ◌*◌, ◌<◌, ◌≡◌, ◌⊎◌, refl, not, ◌&&◌, sym, ◌∙◌, Bool-cases, inl, inr, ap, true, false,
  [], ◌∷◌, Bytes, NulFree, All, bytes_eq, bytes_eq_refl, bytes_eq→eq, c_str, c_str_self, arith,
  Bool,
}
use showtime_cpp.OrderedSet.{StrictOrder}
use showtime_cpp.Uri.{Uri, size_mod, key, less_bytes, less, equal, widen, hash_from, hash}

-- Every value is that of a byte.
abbrev pub IsBytes : Bytes → Type 0
IsBytes = All (λ c. c < 256)

less_bytes_irrefl : (a : Bytes) → less_bytes a a ≡ false
unfolding less_bytes
less_bytes_irrefl [] = refl
less_bytes_irrefl (c ∷ a) = ground (arith, less_bytes_irrefl a)

less_bytes_trans :
    (a b c : Bytes) → less_bytes a b ≡ true → less_bytes b c ≡ true → less_bytes a c ≡ true
unfolding less_bytes
less_bytes_trans [] [] c h k = cc
less_bytes_trans [] (y ∷ b) [] h k = cc
less_bytes_trans [] (y ∷ b) (z ∷ c) h k = refl
less_bytes_trans (x ∷ a) [] c h k = cc
less_bytes_trans (x ∷ a) (y ∷ b) [] h k = cc
less_bytes_trans (x ∷ a) (y ∷ b) (z ∷ c) h k = ground (arith, less_bytes_trans a b c)

less_bytes_asym : (a b : Bytes) → less_bytes a b ≡ true → less_bytes b a ≡ false
unfolding less_bytes
less_bytes_asym [] [] h = cc
less_bytes_asym [] (y ∷ b) h = refl
less_bytes_asym (x ∷ a) [] h = cc
less_bytes_asym (x ∷ a) (y ∷ b) h = ground (arith, less_bytes_asym a b)

less_bytes_neg_trans :
    (a b c : Bytes) → less_bytes b a ≡ false → less_bytes c b ≡ false → less_bytes c a ≡ false
unfolding less_bytes
less_bytes_neg_trans [] [] [] h k = refl
less_bytes_neg_trans [] [] (z ∷ c) h k = cc
less_bytes_neg_trans [] (y ∷ b) [] h k = cc
less_bytes_neg_trans [] (y ∷ b) (z ∷ c) h k = refl
less_bytes_neg_trans (x ∷ a) [] [] h k = cc
less_bytes_neg_trans (x ∷ a) [] (z ∷ c) h k = cc
less_bytes_neg_trans (x ∷ a) (y ∷ b) [] h k = cc
less_bytes_neg_trans (x ∷ a) (y ∷ b) (z ∷ c) h k = ground (arith, less_bytes_neg_trans a b c)

key_injective : (a b : ℕ) → a < 256 → b < 256 → key a ≡ key b → a ≡ b
unfolding key
key_injective a b ha hb e = omega arith

-- One way or the other, unless the texts are equal.
less_bytes_total :
    (a b : Bytes) → IsBytes a → IsBytes b → less_bytes a b ≡ false → less_bytes b a ≡ false → a ≡ b
unfolding less_bytes
less_bytes_total [] [] _ _ h k = refl
less_bytes_total [] (y ∷ b) _ _ h k = cc
less_bytes_total (x ∷ a) [] _ _ h k = cc
less_bytes_total (x ∷ a) (y ∷ b) (hx, ha) (hy, hb) h k =
    ground (arith, less_bytes_total a b ha hb, key_injective x y hx hy)

-- What is asked of a path that serves as a key: its bytes are bytes, and none is NUL.
pub record IsKey (u : Uri) : Type 0 where
  pub bytes : IsBytes u.original_path
  pub nul_free : NulFree u.original_path

pub equal→path_eq :
    (a b : Uri) → IsKey a → IsKey b → equal a b ≡ true → a.original_path ≡ b.original_path
unfolding equal
equal→path_eq a b ka kb h =
    bytes_eq→eq _ _
      (rw (c_str_self a.original_path ka.nul_free, c_str_self b.original_path kb.nul_free) at h)

pub path_eq→equal : (a b : Uri) → a.original_path ≡ b.original_path → equal a b ≡ true
unfolding equal
path_eq→equal a b e = rw e (bytes_eq_refl (c_str b.original_path))

-- Exactly one of `a < b`, `a == b` and `b < a` holds.
abbrev pub ExactlyOne : Bool → Bool → Bool → Type 0
ExactlyOne l e g =
    ((l ≡ true) × (e ≡ false) × (g ≡ false))
    ⊎ ((l ≡ false) × (e ≡ true) × (g ≡ false))
    ⊎ ((l ≡ false) × (e ≡ false) × (g ≡ true))

-- Of two keys exactly one of `a < b`, `a == b` and `b < a` holds: the order of the maps and the
-- equality of the code agree on which paths are the same.
pub less_trichotomy : (a b : Uri) → IsKey a → IsKey b → ExactlyOne (less a b) (equal a b) (less b a)
unfolding less
less_trichotomy a b ka kb = ground (
  arith,
  less_bytes_total a.original_path b.original_path ka.bytes kb.bytes,
  less_bytes_asym a.original_path b.original_path,
  less_bytes_asym b.original_path a.original_path,
  less_bytes_irrefl b.original_path,
  equal→path_eq a b ka kb,
  path_eq→equal a b,
)

-- `operator<` is transitive, and no path is less than itself.
pub less_strict :
    (a b c : Uri) → (less a a ≡ false) × (less a b ≡ true → less b c ≡ true → less a c ≡ true)
unfolding less
less_strict a b c = (
  less_bytes_irrefl a.original_path,
  less_bytes_trans a.original_path b.original_path c.original_path,
)

-- Not less is transitive too.
pub less_neg_trans : (a b c : Uri) → less b a ≡ false → less c b ≡ false → less c a ≡ false
unfolding less
less_neg_trans a b c = less_bytes_neg_trans a.original_path b.original_path c.original_path

hash_from_bound : (r : ℕ) (s : Bytes) → r < size_mod → hash_from r s < size_mod
unfolding hash_from
hash_from_bound r [] h = h
hash_from_bound r (c ∷ s) h =
    hash_from_bound ((widen c + r * 31 % size_mod) % size_mod) s (omega arith)

-- Paths that compare equal have the same hash, and a hash is a value of `size_t`.
pub hash_lem : (a b : Uri) → (equal a b ≡ true → hash a ≡ hash b) × (hash a < size_mod)
unfolding hash equal
hash_lem a b = (
  λ e. ap (hash_from 0) (bytes_eq→eq (c_str a.original_path) (c_str b.original_path) e),
  hash_from_bound 0 (c_str a.original_path) (omega arith),
)

pub less-StrictOrder : StrictOrder less
less-StrictOrder = record {
  irrefl = λ a. (less_strict a a a).0;
  trans = λ a b c. (less_strict a b c).1;
  neg_trans = less_neg_trans;
}

-- Paths that compare equal compare alike with every other.
pub equal_class : (c a b : Uri) → equal c a ≡ true → equal c b ≡ equal a b
unfolding equal
equal_class c a b e =
    ap (λ p. bytes_eq p (c_str b.original_path))
      (bytes_eq→eq (c_str c.original_path) (c_str a.original_path) e)

pub equal_refl : (a : Uri) → equal a a ≡ true
equal_refl a = path_eq→equal a a refl

pub equal_sym : (a b : Uri) → equal a b ≡ equal b a
equal_sym a b = elim (Bool-cases (equal a b)) [
  | inl e ↦ e ∙ (sym (equal_refl a) ∙ equal_class a b a e)
  | inr e ↦ elim (Bool-cases (equal b a)) [
    | inl f ↦ sym (equal_class b a b f) ∙ (equal_refl b ∙ sym f)
    | inr f ↦ e ∙ sym f
  ]
]

pub equal-equivalent :
    (a b : Uri) → IsKey a → IsKey b → equal a b ≡ (not (less a b) && not (less b a))
equal-equivalent a b ka kb = ground (arith, less_trichotomy a b ka kb)
