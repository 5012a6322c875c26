-- ===== src/OrderedSet.antt =====
-- `std::set` as src/core/ZstSession.cpp, src/core/entities/ZstPlug.cpp and ZstComponent.cpp use it:
-- a list that rises by the order of the keys, in which two elements with equivalent keys are one.
pub mod Lookup
use showtime_cpp.Common.{
  ◌≡◌, Bool, true, false, not, ◌&&◌, List, [], ◌∷◌, Option, none, some, if◌then◌else◌, All,
}

-- What the comparison of a set has to be.
pub record StrictOrder {ℓ} {K : Type ℓ} (less : K → K → Bool) : Type ℓ where
  pub irrefl : (a : K) → less a a ≡ false
  pub trans : (a b c : K) → less a b ≡ true → less b c ≡ true → less a c ≡ true
  pub neg_trans : (a b c : K) → less b a ≡ false → less c b ≡ false → less c a ≡ false

module _ {ℓ κ} {A : Type ℓ} {K : Type κ} (key : A → K) (less : K → K → Bool) where
  -- Neither key is less than the other.
  abbrev pub equivalent : K → K → Bool
  equivalent a b = not (less a b) && not (less b a)

  unfoldable pub insert : A → List A → List A
  insert x [] = x ∷ []
  insert x (y ∷ ys) =
      if less (key x) (key y)
      then x ∷ y ∷ ys
      else if less (key y) (key x)
      then y ∷ insert x ys
      else y ∷ ys

  unfoldable pub erase : K → List A → List A
  erase k [] = []
  erase k (y ∷ ys) =
      if less k (key y) then y ∷ ys else if less (key y) k then y ∷ erase k ys else ys

  unfoldable pub lookup : K → List A → Option A
  lookup k [] = none
  lookup k (y ∷ ys) =
      if less k (key y) then none else if less (key y) k then lookup k ys else some y

  abbrev pub Rising : List A → Type (ℓ ⊔ κ)
  Rising [] = Unit
  Rising (y ∷ ys) = All (λ z. less (key y) (key z) ≡ true) ys × Rising ys
