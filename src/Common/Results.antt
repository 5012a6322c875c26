-- ===== src/Common/Results.antt =====
-- What a C++ call gives: a value, or what it throws. `invalid_read` stands for a read or write
-- that the language leaves undefined, such as an element past the end of an array. `out_of_fuel` is
-- the model's own: a loop or a recursion that was given too little fuel.
use mathlib.Core.Path.{◌≡◌, refl}
use mathlib.Core.Bool.{Bool, true, false}
use showtime_cpp.Common.Tests.{if◌then◌else◌}

pub data Error : Type 0 where
  range_error out_of_range runtime_error invalid_argument invalid_read out_of_fuel : Error

pub data Result {ℓ} (A : Type ℓ) : Type ℓ where
  thrown : Error → Result A
  ok : A → Result A

-- An exception passes through what would follow.
infixl 5 ◌>>=◌
abbrev pub ◌>>=◌ {ℓ κ} : {A : Type ℓ} {B : Type κ} → Result A → (A → Result B) → Result B
◌>>=◌ (thrown why) next = thrown why
◌>>=◌ (ok a) next = next a

-- A predicate of the value, where there is one.
abbrev pub AllOk {ℓ κ} : {A : Type ℓ} → (A → Type κ) → Result A → Type κ
AllOk P (thrown why) = Unit
AllOk P (ok a) = P a

pub bind-AllOk {ℓ κ λ₁ μ} :
    {A : Type ℓ} {B : Type κ} (P : A → Type λ₁) (Q : B → Type μ) (r : Result A)
    (next : A → Result B)
    → AllOk P r
    → ((a : A) → r ≡ ok a → P a → AllOk Q (next a))
    → AllOk Q (r >>= next)
bind-AllOk P Q (thrown why) next h f = tt
bind-AllOk P Q (ok a) next h f = f a refl h

pub if-AllOk {ℓ κ} :
    {A : Type ℓ} (P : A → Type κ) (b : Bool) (x y : Result A)
    → AllOk P x
    → AllOk P y
    → AllOk P (if b then x else y)
if-AllOk P true x y h k = h
if-AllOk P false x y h k = k

-- A property of a conditional, of which each branch has its test.
pub if-holds {ℓ κ} :
    {A : Type ℓ} (P : A → Type κ) (b : Bool) (x y : A)
    → (b ≡ true → P x)
    → (b ≡ false → P y)
    → P (if b then x else y)
if-holds P true x y f g = f refl
if-holds P false x y f g = g refl
