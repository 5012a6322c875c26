-- ===== src/Uri/Join.antt =====
-- Segments put together again: `init` and joining with `/` undo one another, and `operator+`
-- appends the segments.
use showtime_cpp.Common.{
  ℕ, ◌≡◌, ◌≢◌, refl, sym, ap, ◌∙◌, inl, inr, false, List, [], ◌∷◌, ◌++◌, append-nil, Bytes, NulFree,
  length, ◌≤◌, ok, c_str_self, NulFree-append, All, ◌==◌, Bool-cases, ==_iff, arith,
}
use showtime_cpp.Uri.{Uri, construct, max_path_len, delim, starts_with_nul, init, concat}
use showtime_cpp.Uri.Split.{segments, push_byte, segments-ne-nil, init_components, construct-init}

-- Each further segment behind a delimiter.
abbrev pub separated : List Bytes → Bytes
separated [] = []
separated (w ∷ ws) = delim ∷ (w ++ separated ws)

abbrev pub join : List Bytes → Bytes
join [] = []
join (w ∷ ws) = w ++ separated ws

-- No byte of a segment is a delimiter.
abbrev pub IsSegment : Bytes → Type 0
IsSegment = All (λ c. c ≢ delim)

join-cons : (ws : List Bytes) → ws ≢ [] → delim ∷ join ws ≡ separated ws
join-cons [] h = absurd (h refl)
join-cons (w ∷ ws) h = refl

join-push_byte : (c : ℕ) (ws : List Bytes) → ws ≢ [] → join (push_byte c ws) ≡ c ∷ join ws
join-push_byte c [] h = absurd (h refl)
join-push_byte c (w ∷ ws) h = refl

pub join-segments : (s : Bytes) → join (segments s) ≡ s
join-segments [] = refl
join-segments (c ∷ s) = elim (Bool-cases (c == delim)) [
  | inl e ↦ rw e (
      sym (join-cons (segments s) (segments-ne-nil s)) ∙ cc (join-segments s, (==_iff c delim).0 e))
  | inr e ↦
      rw e (join-push_byte c (segments s) (segments-ne-nil s) ∙ ap (λ l. c ∷ l) (join-segments s))
]

pub components_joined : (p : Bytes) → starts_with_nul p ≡ false → join (init p).components ≡ p
components_joined p h = rw (init_components p, h) (join-segments p)

-- Joining the components of a path with `/` gives the path back, for a path that is not empty, does
-- not begin with NUL and has no more segments than the array holds, so that its construction returns.
pub join-init :
    (p : Bytes)
    → starts_with_nul p ≡ false
    → length (init p).components ≤ max_path_len
    → (u : Uri) × (construct p ≡ ok u) × (join u.components ≡ p)
join-init p h fits = (init p, construct-init p fits, components_joined p h)

segments-append : (w s : Bytes) → IsSegment w → segments (w ++ (delim ∷ s)) ≡ w ∷ segments s
segments-append [] s h = refl
segments-append (c ∷ w) s (h, hw) = elim (Bool-cases (c == delim)) [
  | inl e ↦ absurd (h ((==_iff c delim).0 e))
  | inr e ↦ rw e (rw (segments-append w s hw))
]

segments-word : (w : Bytes) → IsSegment w → segments w ≡ w ∷ []
segments-word [] h = refl
segments-word (c ∷ w) (h, hw) = elim (Bool-cases (c == delim)) [
  | inl e ↦ absurd (h ((==_iff c delim).0 e))
  | inr e ↦ rw e (rw (segments-word w hw))
]

pub segments-join :
    (w : Bytes) (ws : List Bytes)
    → IsSegment w
    → All IsSegment ws
    → segments (join (w ∷ ws)) ≡ w ∷ ws
segments-join w [] h _ = rw append-nil (segments-word w h)
segments-join w (x ∷ ws) h (hx, hws) =
    segments-append w (join (x ∷ ws)) h ∙ ap (λ l. w ∷ l) (segments-join x ws hx hws)

-- A path written from one or more segments, none of which holds a `/` and of which there are no
-- more than the array holds, is cut into them again, unless the text is empty or begins with NUL.
pub init-join :
    (w : Bytes) (ws : List Bytes)
    → IsSegment w
    → All IsSegment ws
    → starts_with_nul (join (w ∷ ws)) ≡ false
    → length (w ∷ ws) ≤ max_path_len
    → (u : Uri) × (construct (join (w ∷ ws)) ≡ ok u) × (u.components ≡ w ∷ ws)
init-join w ws h hs e few =
    let cut : (init (join (w ∷ ws))).components ≡ w ∷ ws =
      init_components (join (w ∷ ws)) ∙ rw e (segments-join w ws h hs) in
    (init (join (w ∷ ws)), construct-init (join (w ∷ ws)) (omega (arith, ap length cut, few)), cut)

segments-delim-append : (a b : Bytes) → segments (a ++ (delim ∷ b)) ≡ segments a ++ segments b
segments-delim-append [] b = refl
segments-delim-append (c ∷ a) b = elim (Bool-cases (c == delim)) [
  | inl e ↦ rw e (rw (segments-delim-append a b))
  | inr e ↦ rw (e, segments-delim-append a b) (go (segments a) (segments-ne-nil a))
]
  where
    go : (ws : List Bytes) → ws ≢ [] → push_byte c (ws ++ segments b) ≡ push_byte c ws ++ segments b
    go [] h = absurd (h refl)
    go (w ∷ ws) h = refl

starts_with_nul-append :
    (a b : Bytes) → starts_with_nul a ≡ false → starts_with_nul (a ++ b) ≡ false
unfolding starts_with_nul
starts_with_nul-append [] b h = cc
starts_with_nul-append (c ∷ a) b h = h

pub concat-init :
    (a b : Bytes) → NulFree a → NulFree b → concat (init a) (init b) ≡ init (a ++ (delim ∷ b))
unfolding concat init
concat-init a b ha hb = rw (
  c_str_self a ha,
  c_str_self b hb,
  c_str_self (a ++ (delim ∷ b)) (NulFree-append a (delim ∷ b) ha ((λ z. ground arith), hb)),
)

-- The sum of two paths that have no NUL and are not empty has the text of the first, a `/` and the
-- text of the second, and the components of the first followed by those of the second.
pub concat_lem :
    (a b : Bytes)
    → NulFree a
    → NulFree b
    → starts_with_nul a ≡ false
    → starts_with_nul b ≡ false
    → (concat (init a) (init b) ≡ init (a ++ (delim ∷ b)))
      × ((concat (init a) (init b)).components ≡ (init a).components ++ (init b).components)
concat_lem a b ha hb na nb =
    (concat-init a b ha hb, ap (λ u. u.components) (concat-init a b ha hb) ∙ parts)
  where
    parts : (init (a ++ (delim ∷ b))).components ≡ (init a).components ++ (init b).components
    parts =
        init_components (a ++ (delim ∷ b))
        ∙ (rw (starts_with_nul-append a (delim ∷ b) na, segments-delim-append a b)
            (rw (init_components a, init_components b, na, nb)))
