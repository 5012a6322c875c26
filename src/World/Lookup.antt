-- ===== src/World/Lookup.antt =====
-- What the map of entities finds after each change.
use showtime_cpp.Common.{
  ℕ, ◌≡◌, refl, ap, ◌∙◌, true, false, List, [], ◌∷◌, none, some, if◌then◌else◌, arith, All,
  Bool-cases, inl, inr,
}
use showtime_cpp.Uri.{Uri, equal}
use showtime_cpp.Uri.Order.{equal_class, equal_sym}
use showtime_cpp.World.{World, find_in, assign_in, erase_in, find_entity, update_entity_in_lookup}

-- No two keys of the map are equal.
abbrev pub Distinct : List (Uri × ℕ) → Type 0
Distinct [] = Unit
Distinct (b ∷ rest) = All (λ c. equal b.0 c.0 ≡ false) rest × Distinct rest

pub find-assign :
    (u path : Uri) (p : ℕ) (l : List (Uri × ℕ))
    → find_in u (assign_in path p l) ≡ (if equal path u then some p else find_in u l)
unfolding find_in assign_in
find-assign u path p [] = refl
find-assign u path p ((k, q) ∷ rest) = ground (
  arith,
  find-assign u path p rest,
  equal_class k path u,
  equal_class path u k,
  equal_sym k path,
  equal_sym k u,
)

find_apart :
    (u k : Uri) (l : List (Uri × ℕ))
    → equal k u ≡ true
    → All (λ c. equal k c.0 ≡ false) l
    → find_in u l ≡ none
unfolding find_in
find_apart u k [] e a = refl
find_apart u k ((j, q) ∷ rest) e (h, a) =
    ground (arith, find_apart u k rest e a, equal_class k u j, equal_sym j u)

pub find-erase :
    (u path : Uri) (l : List (Uri × ℕ))
    → Distinct l
    → find_in u (erase_in path l) ≡ (if equal path u then none else find_in u l)
unfolding find_in erase_in
find-erase u path [] d = ground arith
find-erase u path ((k, q) ∷ rest) (a, d) = ground (
  arith,
  find-erase u path rest d,
  find_apart u k rest,
  equal_class k path u,
  equal_class path k u,
  equal_class path u k,
  equal_sym k path,
  equal_sym k u,
)

All-assign :
    (k path : Uri) (p : ℕ) (l : List (Uri × ℕ))
    → equal k path ≡ false
    → All (λ c. equal k c.0 ≡ false) l
    → All (λ c. equal k c.0 ≡ false) (assign_in path p l)
unfolding assign_in
All-assign k path p [] h a = (h, tt)
All-assign k path p ((j, q) ∷ rest) h (ha, a) = elim (Bool-cases (equal j path)) [
  | inl e ↦ rw e (ha, a)
  | inr e ↦ rw e (ha, All-assign k path p rest h a)
]

pub All-erase :
    (k path : Uri) (l : List (Uri × ℕ))
    → All (λ c. equal k c.0 ≡ false) l
    → All (λ c. equal k c.0 ≡ false) (erase_in path l)
unfolding erase_in
All-erase k path [] a = tt
All-erase k path ((j, q) ∷ rest) (ha, a) = elim (Bool-cases (equal j path)) [
  | inl e ↦ rw e a
  | inr e ↦ rw e (ha, All-erase k path rest a)
]

pub assign-Distinct :
    (path : Uri) (p : ℕ) (l : List (Uri × ℕ)) → Distinct l → Distinct (assign_in path p l)
unfolding assign_in
assign-Distinct path p [] d = (tt, tt)
assign-Distinct path p ((j, q) ∷ rest) (a, d) = elim (Bool-cases (equal j path)) [
  | inl e ↦ rw e (a, d)
  | inr e ↦ rw e (All-assign j path p rest e a, assign-Distinct path p rest d)
]

pub erase-Distinct : (path : Uri) (l : List (Uri × ℕ)) → Distinct l → Distinct (erase_in path l)
unfolding erase_in
erase-Distinct path [] d = tt
erase-Distinct path ((j, q) ∷ rest) (a, d) = elim (Bool-cases (equal j path)) [
  | inl e ↦ rw e d
  | inr e ↦ rw e (All-erase j path rest a, erase-Distinct path rest d)
]

-- When an entity moves from one path to another, the new path finds it, the old path finds nothing
-- unless it is the new one, every other path finds what it found, and the keys stay distinct.
pub update_entity_in_lookup_lem :
    (u uri : Uri) (p : ℕ) (original : Uri) (w : World)
    → Distinct w.lookup
    → let t = update_entity_in_lookup uri p original w in
      (find_entity u t
        ≡ (if equal uri u then some p else if equal original u then none else find_entity u w))
      × Distinct t.lookup
unfolding update_entity_in_lookup find_entity
update_entity_in_lookup_lem u uri p original w d = (
  find-assign u uri p (erase_in original w.lookup)
      ∙ ap (λ o. if equal uri u then some p else o) (find-erase u original w.lookup d),
  assign-Distinct uri p (erase_in original w.lookup) (erase-Distinct original w.lookup d),
)
