-- ===== src/Dispatcher/Adaptors.antt =====
-- The set of adaptors: adding, removing and pruning, seen through `contains_adaptor`.
use showtime_cpp.Common.{
  ℕ, ◌<◌, ◌≡◌, refl, ap, inl, inr, true, false, Bool, not, ◌&&◌, List, [], ◌∷◌, keep, ◌==◌,
  if◌then◌else◌, Bool-cases, arith,
}
use showtime_cpp.Dispatcher.{
  Dispatcher, insert, erase, member, prune_each, add_adaptor, remove_adaptor, contains_adaptor,
  remove_all_adaptors, prune_missing_adaptors,
}

-- A rising list above a bound, which is how the set is kept: no adaptor stands in it twice.
abbrev pub Above : ℕ → List ℕ → Type 0
Above b [] = Unit {0}
Above b (x ∷ xs) = (b < x) × Above x xs

abbrev pub IsRising : List ℕ → Type 0
IsRising [] = Unit {0}
IsRising (x ∷ xs) = Above x xs

insert-Above : (a b : ℕ) (xs : List ℕ) → b < a → Above b xs → Above b (insert a xs)
unfolding insert
insert-Above a b [] h r = (h, tt)
insert-Above a b (x ∷ xs) h (hx, r) = ground (arith, insert-Above a x xs)

insert-IsRising : (a : ℕ) (xs : List ℕ) → IsRising xs → IsRising (insert a xs)
unfolding insert
insert-IsRising a [] r = tt
insert-IsRising a (x ∷ xs) r = ground (arith, insert-Above a x xs)

Above-mono : (b c : ℕ) (xs : List ℕ) → b < c → Above c xs → Above b xs
Above-mono b c [] h r = tt
Above-mono b c (x ∷ xs) h (hx, r) = (omega arith, r)

erase-Above : (a b : ℕ) (xs : List ℕ) → Above b xs → Above b (erase a xs)
unfolding erase
erase-Above a b [] r = tt
erase-Above a b (x ∷ xs) (hx, r) = ground (arith, erase-Above a x xs r, Above-mono b x xs hx r)

erase-IsRising : (a : ℕ) (xs : List ℕ) → IsRising xs → IsRising (erase a xs)
unfolding erase
erase-IsRising a [] r = tt
erase-IsRising a (x ∷ xs) r = ground (arith, erase-Above a x xs r, Above-IsRising xs r)
  where
    Above-IsRising : (xs : List ℕ) → Above x xs → IsRising xs
    Above-IsRising [] h = tt
    Above-IsRising (y ∷ ys) (_, h) = h

member-insert :
    (a b : ℕ) (xs : List ℕ) → member b (insert a xs) ≡ (if b == a then true else member b xs)
unfolding member insert
member-insert a b [] = refl
member-insert a b (x ∷ xs) = ground (arith, member-insert a b xs)

member_below : (a b : ℕ) (xs : List ℕ) → a < b → Above b xs → member a xs ≡ false
unfolding member
member_below a b [] h r = refl
member_below a b (x ∷ xs) h (hx, r) = ground (arith, member_below a x xs)

member_self_Above : (a : ℕ) (xs : List ℕ) → Above a xs → member a xs ≡ false
unfolding member
member_self_Above a [] r = refl
member_self_Above a (x ∷ xs) (hx, r) = ground (arith, member_below a x xs)

member-erase :
    (a b : ℕ) (xs : List ℕ)
    → IsRising xs
    → member b (erase a xs) ≡ (if b == a then false else member b xs)
unfolding member erase
member-erase a b [] r = ground arith
member-erase a b (x ∷ xs) r =
    ground (arith, member-erase a b xs (tail xs r), member_self_Above x xs r)
  where
    tail : (xs : List ℕ) → Above x xs → IsRising xs
    tail [] h = tt
    tail (y ∷ ys) (_, h) = h

prune_each-IsRising :
    (alive : ℕ → Bool) (ys xs : List ℕ) → IsRising xs → IsRising (prune_each alive ys xs)
unfolding prune_each
prune_each-IsRising alive [] xs r = r
prune_each-IsRising alive (y ∷ ys) xs r =
    prune_each-IsRising alive ys (if alive y then xs else erase y xs)
      (ground (arith, erase-IsRising y xs r))

-- Whether `b` is left by the pruning of `xs` for the adaptors `ys`.
member-prune_each :
    (alive : ℕ → Bool) (b : ℕ) (ys xs : List ℕ)
    → IsRising xs
    → member b (prune_each alive ys xs)
      ≡ (if member b ys && not (alive b) then false else member b xs)
unfolding prune_each member
member-prune_each alive b [] xs r = refl
member-prune_each alive b (y ∷ ys) xs r = elim (Bool-cases (alive y)) [
  | inl e ↦ rw e (ground (arith, member-prune_each alive b ys xs r, ap alive {x = b} {y = y}))
  | inr e ↦ rw e (
      ground (
        arith,
        member-prune_each alive b ys (erase y xs) (erase-IsRising y xs r),
        member-erase y b xs r,
      ))
]

-- The set holds an adaptor once at most, in rising order, whatever is added, removed or pruned.
pub adaptors-IsRising {ℓ} :
    {E : Type ℓ} (d : Dispatcher E) (a : ℕ) (alive : ℕ → Bool)
    → IsRising d.adaptors
    → IsRising (add_adaptor a d).adaptors
      × IsRising (remove_adaptor a d).adaptors
      × IsRising (prune_missing_adaptors alive d).adaptors
      × ((remove_all_adaptors d).adaptors ≡ [])
unfolding add_adaptor remove_adaptor prune_missing_adaptors remove_all_adaptors
adaptors-IsRising d a alive r = (
  insert-IsRising a d.adaptors r,
  erase-IsRising a d.adaptors r,
  prune_each-IsRising alive d.adaptors d.adaptors r,
  refl,
)

-- An adaptor is in the set after it is added and not after it is removed, the others are as before,
-- and pruning keeps exactly those that are alive.
pub contains_adaptor_lem {ℓ} :
    {E : Type ℓ} (d : Dispatcher E) (a b : ℕ) (alive : ℕ → Bool)
    → IsRising d.adaptors
    → (contains_adaptor b (add_adaptor a d) ≡ (if b == a then true else contains_adaptor b d))
      × (contains_adaptor b (remove_adaptor a d) ≡ (if b == a then false else contains_adaptor b d))
      × (contains_adaptor b (prune_missing_adaptors alive d) ≡ (contains_adaptor b d && alive b))
unfolding contains_adaptor add_adaptor remove_adaptor prune_missing_adaptors
contains_adaptor_lem d a b alive r = (
  member-insert a b d.adaptors,
  member-erase a b d.adaptors r,
  ground (arith, member-prune_each alive b d.adaptors d.adaptors r),
)

keep_found :
    (alive : ℕ → Bool) (a : ℕ) (xs : List ℕ)
    → alive a ≡ true
    → member a xs ≡ true
    → (b : ℕ) × (rest : List ℕ) × (keep alive xs ≡ b ∷ rest)
unfolding member
keep_found alive a [] h m = cc m
keep_found alive a (x ∷ xs) h m = elim (Bool-cases (alive x)) [
  | inl e ↦ (x, keep alive xs, rw e)
  | inr e ↦ rw e (keep_found alive a xs h (ground (arith, ap alive {x = a} {y = x})))
]

-- An adaptor of the set that is alive is among those that are called.
pub live-ne-nil {ℓ} :
    {E : Type ℓ} (alive : ℕ → Bool) (a : ℕ) (d : Dispatcher E)
    → alive a ≡ true
    → contains_adaptor a d ≡ true
    → (b : ℕ) × (rest : List ℕ) × (keep alive d.adaptors ≡ b ∷ rest)
unfolding contains_adaptor
live-ne-nil alive a d h m = keep_found alive a d.adaptors h m
