-- ===== src/Uri/Parent.antt =====
-- `parent`, `last` and `operator+`: a path is its parent, a `/` and its last segment.
use showtime_cpp.Common.{
  ℕ, suc, ◌-◌, ◌<◌, ◌≤◌, ◌≡◌, refl, sym, ap, ◌∙◌, false, List, [], ◌∷◌, ◌++◌, append-nil,
  append_assoc, Bytes, NulFree, length, get_elem?, take, drop, length-take, take-append-drop,
  c_str_self, some, arith, ltb, ok, subst, zero,
}
use showtime_cpp.Uri.{
  Uri, delim, max_path_len, starts_with_nul, init, from_c_str, component_at, parent, last, concat,
  range,
}
use showtime_cpp.Uri.Join.{join, separated, components_joined, concat-init}
use showtime_cpp.Uri.Range.{range-slice, drop_at}

separated-append :
    (ws : List Bytes) (c : Bytes) → separated (ws ++ c ∷ []) ≡ separated ws ++ (delim ∷ c)
separated-append [] c = rw append-nil
separated-append (w ∷ ws) c = rw (separated-append ws c, append_assoc)

join-append :
    (ws : List Bytes) (c : Bytes) → 0 < length ws → join (ws ++ c ∷ []) ≡ join ws ++ (delim ∷ c)
join-append [] c h = absurd (omega arith)
join-append (w ∷ ws) c h = rw (separated-append ws c, append_assoc)

NulFree-append_left : (a b : Bytes) → NulFree (a ++ b) → NulFree a
NulFree-append_left [] b h = tt
NulFree-append_left (c ∷ a) b (h, hs) = (h, NulFree-append_left a b hs)

NulFree-append_right : (a b : Bytes) → NulFree (a ++ b) → NulFree b
NulFree-append_right [] b h = h
NulFree-append_right (c ∷ a) b (h, hs) = NulFree-append_right a b hs

drop_end : (cs : List Bytes) (n : ℕ) → length cs ≤ n → drop n cs ≡ []
drop_end [] zero h = refl
drop_end [] (suc n) h = refl
drop_end (c ∷ cs) zero h = absurd (omega arith)
drop_end (c ∷ cs) (suc n) h = drop_end cs n (omega arith)

take_but_last :
    (cs : List Bytes) (c : Bytes)
    → 0 < length cs
    → drop (length cs - 1) cs ≡ c ∷ drop (suc (length cs - 1)) cs
    → take (length cs - 1) cs ++ c ∷ [] ≡ cs
take_but_last cs c h rest =
    ap (◌++◌ (take (length cs - 1) cs))
      (sym (rest ∙ ap (λ l. c ∷ l) (drop_end cs (suc (length cs - 1)) (omega arith))))
    ∙ take-append-drop (length cs - 1) cs

parent-range : (u : Uri) → 1 < length u.components → parent u ≡ range u 0 (length u.components - 2)
unfolding parent
parent-range u h = ground arith

last_lem :
    (u : Uri) (c : Bytes)
    → 0 < length u.components
    → get_elem? u.components (length u.components - 1) ≡ some c
    → last u ≡ ok (from_c_str c)
unfolding last
last_lem u c h e = rw (refuses, e, component_at)
  where
    refuses : ltb (length u.components) 1 ≡ false
    refuses = ground arith

-- A path whose text holds no NUL and is not empty is its parent, a `/` and its last segment, if it
-- has two segments at least and no more than the array holds: `parent` and
-- `last` do not throw, and `operator+` puts their results together to the whole path.
pub concat-parent-last :
    (p : Bytes)
    → NulFree p
    → starts_with_nul p ≡ false
    → 1 < length (init p).components
    → length (init p).components ≤ max_path_len
    → (q : Uri) × (l : Uri) × (parent (init p) ≡ ok q)
      × (last (init p) ≡ ok l)
      × (concat q l ≡ init p)
concat-parent-last p free nul two bound =
    let n = length (init p).components in
    let (c, got, rest) = drop_at (init p).components (n - 1) (omega arith) in
    let cs = take (n - 1) (init p).components in
    let all : cs ++ c ∷ [] ≡ (init p).components =
      take_but_last (init p).components c (omega arith) rest in
    let text : join cs ++ (delim ∷ c) ≡ p =
      sym (join-append cs c (omega (arith, length-take (n - 1) (init p).components)))
      ∙ (ap join all ∙ components_joined p nul) in
    let same : suc (n - 2 - 0) ≡ n - 1 = omega arith in
    let frees : NulFree (join cs ++ (delim ∷ c)) = subst NulFree (sym text) free in
    let free_c : NulFree c = (NulFree-append_right (join cs) (delim ∷ c) frees).1 in
    (
      init (join cs),
      init c,
      parent-range (init p) two
          ∙ (range-slice p 0 (n - 2) nul (omega arith) (omega arith) bound
              ∙ ap (λ k. ok (init (join (take k (init p).components)))) same),
      last_lem (init p) c (omega arith) got ∙ ap ok (unfold from_c_str in rw (c_str_self c free_c)),
      concat-init (join cs) c (NulFree-append_left (join cs) (delim ∷ c) frees) free_c
          ∙ ap init text,
    )
