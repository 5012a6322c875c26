-- ===== src/World/Sound.antt =====
-- The lookup map and the objects that it leads to: each pointer of the map is that of a registered
-- entity with the path by which it is found.
use showtime_cpp.Common.{
  ℕ, ◌==◌, ==_iff, Bool, true, false, List, [], ◌∷◌, Option, none, some, ◌≡◌, refl, sym, ap, ◌∙◌,
  All, Bool-cases, inl, inr,
}
use showtime_cpp.Uri.{Uri, equal}
use showtime_cpp.Uri.Order.{equal_class, equal_sym, equal_refl}
use showtime_cpp.World
use showtime_cpp.World.{World, Entity, find_in, assign_in, erase_in}
use showtime_cpp.World.Lookup.{Distinct, assign-Distinct, erase-Distinct}

-- An entry of the map is right.
abbrev pub Located : World → Uri × ℕ → Type 0
Located w b =
    (e : Entity) × (w.heap (b.1) ≡ some e) × (equal b.0 e.uri ≡ true) × (e.registered ≡ true)

abbrev pub Sound : World → Type 0
Sound w = Distinct w.lookup × All (Located w) w.lookup

-- No entry of the map leads to this pointer.
abbrev pub Absent : ℕ → List (Uri × ℕ) → Type 0
Absent p = All (λ b. (b.1 == p) ≡ false)

All-map {ℓ κ μ} :
    {A : Type ℓ} {P : A → Type κ} {Q : A → Type μ} (l : List A)
    → ((a : A) → P a → Q a)
    → All P l
    → All Q l
All-map [] f h = tt
All-map (x ∷ xs) f (h, hs) = (f x h, All-map xs f hs)

All-zip {ℓ κ μ ν} :
    {A : Type ℓ} {P : A → Type κ} {Q : A → Type μ} {R : A → Type ν} (l : List A)
    → ((a : A) → P a → Q a → R a)
    → All P l
    → All Q l
    → All R l
All-zip [] f h k = tt
All-zip (x ∷ xs) f (h, hs) (k, ks) = (f x h k, All-zip xs f hs ks)

clash : (b : Bool) → b ≡ true → b ≡ false → ⊥
clash b h k = cc

pub some_injective : (a b : Entity) → some a ≡ some b → a ≡ b
some_injective a b h = ap (value a) h
  where
    value : Entity → Option Entity → Entity
    value d none = d
    value d (some e) = e

-- Other pointers keep their objects.
put_other :
    (p : ℕ) (e : Entity) (w : World) (b : Uri × ℕ)
    → (b.1 == p) ≡ false
    → Located w b
    → Located (World.put p e w) b
unfolding World.put
put_other p e w b n (d, h, k, r) = (d, rw n h, k, r)

put_here :
    (p : ℕ) (e : Entity) (w : World) (b : Uri × ℕ)
    → (b.1 == p) ≡ true
    → equal b.0 e.uri ≡ true
    → e.registered ≡ true
    → Located (World.put p e w) b
unfolding World.put
put_here p e w b n k r = (e, rw n refl, k, r)

-- What an entry for `p` says of the object there.
here-Located :
    (p : ℕ) (e : Entity) (w : World) (b : Uri × ℕ)
    → w.heap p ≡ some e
    → (b.1 == p) ≡ true
    → Located w b
    → (equal b.0 e.uri ≡ true) × (e.registered ≡ true)
here-Located p e w b h n (d, k, u, r) =
    let same : b.1 ≡ p = (==_iff (b.1) p).0 n in
    let d_e : d ≡ e = some_injective d e (sym k ∙ ap w.heap same ∙ h) in
    (sym (ap (λ x. equal b.0 x.uri) d_e) ∙ u, sym (ap (λ x. x.registered) d_e) ∙ r)

put-Located :
    (p : ℕ) (e d : Entity) (w : World) (b : Uri × ℕ)
    → w.heap p ≡ some e
    → d.uri ≡ e.uri
    → (e.registered ≡ true → d.registered ≡ true)
    → Located w b
    → Located (World.put p d w) b
put-Located p e d w b h u r l = elim (Bool-cases (b.1 == p)) [
  | inl n ↦
      let (k, s) = here-Located p e w b h n l in
      put_here p d w b n (ap (λ x. equal b.0 x) u ∙ k) (r s)
  | inr n ↦ put_other p d w b n l
]

-- An object changes that keeps its path, and its registration if it has one.
pub put-Sound :
    (p : ℕ) (e d : Entity) (w : World)
    → w.heap p ≡ some e
    → d.uri ≡ e.uri
    → (e.registered ≡ true → d.registered ≡ true)
    → Sound w
    → Sound (World.put p d w)
unfolding World.put
put-Sound p e d w h u r (distinct, all) =
    (distinct, All-map w.lookup (λ b. put-Located p e d w b h u r) all)

-- The keys that are left when a path was erased are other paths.
erase_apart :
    (path : Uri) (l : List (Uri × ℕ))
    → Distinct l
    → All (λ b. equal path b.0 ≡ false) (erase_in path l)
unfolding erase_in
erase_apart path [] d = tt
erase_apart path ((k, q) ∷ rest) (a, d) = elim (Bool-cases (equal k path)) [
  | inl e ↦ rw e (All-map rest (λ b h. sym (equal_class k path (b.0) e) ∙ h) a)
  | inr e ↦ rw e (equal_sym path k ∙ e, erase_apart path rest d)
]

assign-All {κ} :
    (Q : Uri × ℕ → Type κ) (path : Uri) (p : ℕ) (l : List (Uri × ℕ))
    → ((k : Uri) → equal k path ≡ true → Q (k, p))
    → All Q l
    → All Q (assign_in path p l)
unfolding assign_in
assign-All Q path p [] f a = (f path (equal_refl path), tt)
assign-All Q path p ((k, q) ∷ rest) f (h, a) = elim (Bool-cases (equal k path)) [
  | inl e ↦ rw e (f k e, a)
  | inr e ↦ rw e (h, assign-All Q path p rest f a)
]

erase-All {κ} :
    (Q : Uri × ℕ → Type κ) (path : Uri) (l : List (Uri × ℕ)) → All Q l → All Q (erase_in path l)
unfolding erase_in
erase-All Q path [] a = tt
erase-All Q path ((k, q) ∷ rest) (h, a) = elim (Bool-cases (equal k path)) [
  | inl e ↦ rw e a
  | inr e ↦ rw e (h, erase-All Q path rest a)
]

-- An entry is for this pointer, with this path, or for another pointer.
not_here :
    (p : ℕ) (e : Entity) (w : World) (b : Uri × ℕ)
    → w.heap p ≡ some e
    → equal e.uri b.0 ≡ false
    → Located w b
    → (b.1 == p) ≡ false
not_here p e w b h n l = elim (Bool-cases (b.1 == p)) [
  | inl k ↦
      let (u, r) = here-Located p e w b h k l in
      absurd (clash (equal e.uri b.0) (equal_sym e.uri (b.0) ∙ u) n)
  | inr k ↦ k
]

-- When the path of an object is erased, no entry leads to the object.
pub erase-Absent :
    (p : ℕ) (e : Entity) (w : World)
    → w.heap p ≡ some e
    → Sound w
    → Absent p (erase_in e.uri w.lookup)
erase-Absent p e w h (distinct, all) =
    All-zip (erase_in e.uri w.lookup) (λ b. not_here p e w b h)
      (erase_apart e.uri w.lookup distinct) (erase-All (Located w) e.uri w.lookup all)

-- An entity that is not registered has no entry.
pub unregistered-Absent :
    (p : ℕ) (e : Entity) (w : World)
    → w.heap p ≡ some e
    → e.registered ≡ false
    → Sound w
    → Absent p w.lookup
unregistered-Absent p e w h r (distinct, all) = All-map w.lookup apart all
  where
    apart : (b : Uri × ℕ) → Located w b → (b.1 == p) ≡ false
    apart b l = elim (Bool-cases (b.1 == p)) [
      | inl k ↦ let (u, t) = here-Located p e w b h k l in absurd (clash e.registered t r)
      | inr k ↦ k
    ]

-- An object without an entry may become any other.
pub put-Absent-Sound :
    (p : ℕ) (d : Entity) (w : World) → Absent p w.lookup → Sound w → Sound (World.put p d w)
unfolding World.put
put-Absent-Sound p d w a (distinct, all) =
    (distinct, All-zip w.lookup (λ b. put_other p d w b) a all)

pub erase-Sound :
    (path : Uri) (w : World) → Sound w → Sound (World.remove_entity_from_lookup path w)
unfolding World.remove_entity_from_lookup
erase-Sound path w (distinct, all) =
    (erase-Distinct path w.lookup distinct, erase-All (Located w) path w.lookup all)

-- A registered entity is stored under its path.
pub assign-Sound :
    (p : ℕ) (e : Entity) (w : World)
    → w.heap p ≡ some e
    → e.registered ≡ true
    → Sound w
    → Sound (World.add_entity_to_lookup e.uri p w)
unfolding World.add_entity_to_lookup
assign-Sound p e w h r (distinct, all) = (
  assign-Distinct e.uri p w.lookup distinct,
  assign-All (Located w) e.uri p w.lookup (λ k s. (e, h, s, r)) all,
)

-- No entry leads to an address without an object.
pub free-Absent : (p : ℕ) (w : World) → w.heap p ≡ none → Sound w → Absent p w.lookup
free-Absent p w h (distinct, all) = All-map w.lookup apart all
  where
    some_ne_none : (e : Entity) → some e ≡ none → ⊥
    some_ne_none e k = cc

    apart : (b : Uri × ℕ) → Located w b → (b.1 == p) ≡ false
    apart b (e, k, u, r) = elim (Bool-cases (b.1 == p)) [
      | inl n ↦ absurd (some_ne_none e (sym k ∙ ap w.heap ((==_iff (b.1) p).0 n) ∙ h))
      | inr n ↦ n
    ]

-- An object without an entry may go.
pub release-Sound : (p : ℕ) (w : World) → Absent p w.lookup → Sound w → Sound (World.release p w)
unfolding World.release
release-Sound p w a (distinct, all) = (distinct, All-zip w.lookup stays a all)
  where
    stays : (b : Uri × ℕ) → (b.1 == p) ≡ false → Located w b → Located (World.release p w) b
    stays b n (e, k, u, r) = (e, rw (World.release, n) k, u, r)

same_pointer : (q p : ℕ) → some q ≡ some p → q ≡ p
same_pointer q p k = cc

found-Located :
    (u : Uri) (p : ℕ) (w : World) (l : List (Uri × ℕ))
    → All (Located w) l
    → find_in u l ≡ some p
    → (e : Entity) × (w.heap p ≡ some e) × (equal e.uri u ≡ true) × (e.registered ≡ true)
unfolding find_in
found-Located u p w [] a k = absurd cc
found-Located u p w ((j, q) ∷ rest) ((e, t, s, r), a) k = elim (Bool-cases (equal j u)) [
  | inl n ↦
      let q_p : q ≡ p = same_pointer q p (rw n at k) in
      (e, sym (ap w.heap q_p) ∙ t, sym (equal_class j (e.uri) u s) ∙ n, r)
  | inr n ↦ found-Located u p w rest a (rw n at k)
]

-- A path that is found leads to a registered object with that path.
pub find-Sound :
    (u : Uri) (p : ℕ) (w : World)
    → Sound w
    → World.find_entity u w ≡ some p
    → (e : Entity) × (w.heap p ≡ some e) × (equal e.uri u ≡ true) × (e.registered ≡ true)
unfolding World.find_entity
find-Sound u p w (distinct, all) f = found-Located u p w w.lookup all f
