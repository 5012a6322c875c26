-- ===== src/Common/Text.antt =====
-- Texts as lists of byte values, and what the C string functions read of them.
use Prim.Native.Nat.{ℕ}
use Prim.Native.Char.{code}
use Prim.Native.String.{String}
use mathlib.Core.Path.{◌≡◌, refl}
use mathlib.Core.Logic.{◌↔◌, ◌≢◌, inl, inr}
use mathlib.Core.Bool.{Bool, true, false, ◌&&◌}
use mathlib.Core.List.{List, [], ◌∷◌, ◌++◌}
use native.Mathlib.Omega.{arith}
use showtime_cpp.Common.Tests.{◌==◌, if◌then◌else◌, Bool-cases}
use showtime_cpp.Common.Lists.{All}

abbrev pub Bytes : Type 0
Bytes = List ℕ

abbrev pub codes : String → Bytes
codes String.[] = []
codes (String.◌∷◌ c s) = code c ∷ codes s

-- Whether two buffers hold the same bytes.
abbrev pub bytes_eq : Bytes → Bytes → Bool
bytes_eq [] [] = true
bytes_eq [] (b ∷ bs) = false
bytes_eq (a ∷ as') [] = false
bytes_eq (a ∷ as') (b ∷ bs) = a == b && bytes_eq as' bs

pub bytes_eq→eq : (a b : Bytes) → bytes_eq a b ≡ true → a ≡ b
bytes_eq→eq [] [] h = refl
bytes_eq→eq [] (b ∷ bs) h = cc
bytes_eq→eq (a ∷ as') [] h = cc
bytes_eq→eq (a ∷ as') (b ∷ bs) h = ground (arith, bytes_eq→eq as' bs)

pub bytes_eq_refl : (a : Bytes) → bytes_eq a a ≡ true
bytes_eq_refl [] = refl
bytes_eq_refl (a ∷ as') = ground (arith, bytes_eq_refl as')

pub bytes_eq_iff : (a b : Bytes) → (bytes_eq a b ≡ true) ↔ (a ≡ b)
bytes_eq_iff a b = (bytes_eq→eq a b, λ e. rw e (bytes_eq_refl b))

-- What `strlen`, `strcmp` and `strncat` see of a buffer: the bytes before the first NUL.
abbrev pub c_str : Bytes → Bytes
c_str [] = []
c_str (c ∷ s) = if c == 0 then [] else c ∷ c_str s

-- No byte of the text is NUL, so the C string functions see all of it.
abbrev pub NulFree : Bytes → Type 0
NulFree = All (λ c. c ≢ 0)

pub c_str_self : (s : Bytes) → NulFree s → c_str s ≡ s
c_str_self [] h = refl
c_str_self (c ∷ s) (h, hs) = ground (arith, c_str_self s hs)

pub c_str-NulFree : (s : Bytes) → NulFree (c_str s)
c_str-NulFree [] = tt
c_str-NulFree (c ∷ s) = elim (Bool-cases (c == 0)) [
  | inl e ↦ rw e tt
  | inr e ↦ rw e ((λ z. ground arith), c_str-NulFree s)
]

pub NulFree-append : (a b : Bytes) → NulFree a → NulFree b → NulFree (a ++ b)
NulFree-append [] b _ hb = hb
NulFree-append (c ∷ a) b (h, ha) hb = (h, NulFree-append a b ha hb)
