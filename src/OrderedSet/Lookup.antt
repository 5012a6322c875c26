-- ===== src/OrderedSet/Lookup.antt =====
-- What `insert` and `erase` do to the keys that a set holds.
use showtime_cpp.Common.{
  ◌≡◌, refl, Bool, Bool-cases, inl, inr, true, false, List, [], ◌∷◌, Option, none, some,
  if◌then◌else◌, All, arith,
}
use showtime_cpp.OrderedSet.{StrictOrder, equivalent, insert, erase, lookup, Rising}

-- The element that a set keeps where one of the same key is inserted: the one it had.
abbrev pub or_else {ℓ} : {A : Type ℓ} → Option A → A → Option A
or_else none x = some x
or_else (some y) x = some y

module _ {ℓ κ} {A : Type ℓ} {K : Type κ} (key : A → K) (less : K → K → Bool)
    (laws : StrictOrder less) where
  asym : (a b : K) → less a b ≡ true → less b a ≡ false
  asym a b h = ground (arith, laws.irrefl a, laws.trans a b a)

  -- A predicate of the elements is kept by both operations.
  pub All-insert {μ} :
      (P : A → Type μ) (x : A) (s : List A) → P x → All P s → All P (insert key less x s)
  unfolding insert
  All-insert P x [] h a = (h, tt)
  All-insert P x (y ∷ ys) h (hy, a) = elim (Bool-cases (less (key x) (key y))) [
    | inl e ↦ rw e (h, (hy, a))
    | inr e ↦ elim (Bool-cases (less (key y) (key x))) [
      | inl f ↦ rw (e, f) (hy, All-insert P x ys h a)
      | inr f ↦ rw (e, f) (hy, a)
    ]
  ]

  pub All-erase {μ} : (P : A → Type μ) (k : K) (s : List A) → All P s → All P (erase key less k s)
  unfolding erase
  All-erase P k [] a = tt
  All-erase P k (y ∷ ys) (hy, a) = elim (Bool-cases (less k (key y))) [
    | inl e ↦ rw e (hy, a)
    | inr e ↦ elim (Bool-cases (less (key y) k)) [
      | inl f ↦ rw (e, f) (hy, All-erase P k ys a)
      | inr f ↦ rw (e, f) a
    ]
  ]

  pub lookup-insert :
      (k : K) (x : A) (s : List A)
      → lookup key less k (insert key less x s) ≡ (
          if equivalent key less k (key x)
          then or_else (lookup key less k s) x
          else lookup key less k s)
  unfolding insert lookup
  lookup-insert k x [] = ground (arith, laws.irrefl k)
  lookup-insert k x (y ∷ ys) = ground (
    arith,
    lookup-insert k x ys,
    laws.trans k (key x) (key y),
    laws.trans (key y) (key x) k,
    laws.neg_trans k (key x) (key y),
    laws.neg_trans (key y) (key x) k,
    laws.trans (key x) k (key y),
    laws.trans (key y) k (key x),
    laws.neg_trans (key x) k (key y),
    laws.neg_trans (key y) k (key x),
    asym k (key y),
    asym (key y) k,
    asym k (key x),
    asym (key x) k,
    asym (key x) (key y),
    asym (key y) (key x),
  )

  pub All-less :
      (a b : K) (s : List A)
      → less a b ≡ true
      → All (λ z. less b (key z) ≡ true) s
      → All (λ z. less a (key z) ≡ true) s
  All-less a b [] h r = tt
  All-less a b (z ∷ s) h (hz, r) = (laws.trans a b (key z) h hz, All-less a b s h r)

  pub lookup_below :
      (k : K) (s : List A) → All (λ z. less k (key z) ≡ true) s → lookup key less k s ≡ none
  unfolding lookup
  lookup_below k [] r = refl
  lookup_below k (z ∷ s) (hz, r) = rw hz refl

  pub lookup_equivalent :
      (k j : K) (s : List A)
      → equivalent key less k j ≡ true
      → lookup key less k s ≡ lookup key less j s
  unfolding lookup
  lookup_equivalent k j [] e = refl
  lookup_equivalent k j (y ∷ ys) e = ground (
    arith,
    lookup_equivalent k j ys e,
    laws.neg_trans k j (key y),
    laws.neg_trans j k (key y),
    laws.neg_trans (key y) j k,
    laws.neg_trans (key y) k j,
  )

  pub lookup-erase :
      (k j : K) (s : List A)
      → Rising key less s
      → lookup key less k (erase key less j s)
        ≡ (if equivalent key less k j then none else lookup key less k s)
  unfolding erase lookup
  lookup-erase k j [] r = ground arith
  lookup-erase k j (y ∷ ys) (ry, r) = ground (
    arith,
    lookup-erase k j ys r,
    lookup_below (key y) ys ry,
    lookup_below k ys,
    All-less k (key y) ys,
    lookup_equivalent k (key y) ys,
    laws.neg_trans k j (key y),
    laws.neg_trans j k (key y),
    laws.neg_trans (key y) j k,
    laws.neg_trans (key y) k j,
    laws.neg_trans j (key y) k,
    laws.neg_trans k (key y) j,
    asym k (key y),
    asym j (key y),
    laws.trans k j (key y),
    laws.trans j k (key y),
  )

  pub insert-Rising :
      (x : A) (s : List A) → Rising key less s → Rising key less (insert key less x s)
  unfolding insert
  insert-Rising x [] r = (tt, tt)
  insert-Rising x (y ∷ ys) (ry, r) = elim (Bool-cases (less (key x) (key y))) [
    | inl e ↦ rw e ((e, All-less (key x) (key y) ys e ry), (ry, r))
    | inr e ↦ elim (Bool-cases (less (key y) (key x))) [
      | inl f ↦ rw (e, f) (All-insert _ x ys f ry, insert-Rising x ys r)
      | inr f ↦ rw (e, f) (ry, r)
    ]
  ]

  pub erase-Rising : (k : K) (s : List A) → Rising key less s → Rising key less (erase key less k s)
  unfolding erase
  erase-Rising k [] r = tt
  erase-Rising k (y ∷ ys) (ry, r) = elim (Bool-cases (less k (key y))) [
    | inl e ↦ rw e (ry, r)
    | inr e ↦ elim (Bool-cases (less (key y) k)) [
      | inl f ↦ rw (e, f) (All-erase _ k ys ry, erase-Rising k ys r)
      | inr f ↦ rw (e, f) r
    ]
  ]
