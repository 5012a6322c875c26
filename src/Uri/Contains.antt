-- ===== src/Uri/Contains.antt =====
-- `contains` against a description of it: one path is a proper beginning of the other, segment by
-- segment.
use showtime_cpp.Common.{
  ℕ, ◌+◌, ◌<◌, ◌≡◌, ◌≢◌, ◌↔◌, inl, inr, refl, ap, true, false, List, [], ◌∷◌, ◌++◌, Bytes, NulFree,
  All, bytes_eq, bytes_eq_refl, bytes_eq→eq, c_str, c_str_self, length, length-append, Bool-cases,
  arith,
}
use showtime_cpp.Uri.{Uri, match_segments, contains}

-- The segments `cs` begin the segments `ts`.
Begins : List Bytes → List Bytes → Type 0
Begins cs ts = (rest : List Bytes) × (ts ≡ cs ++ rest)

-- The loop finds every one of the segments left to agree, or fails: a segment that differs is
-- passed over, but then the count cannot reach `shortest` any more.
match_fails : (n k : ℕ) (cs ts : List Bytes) → k + length cs < n → match_segments n k cs ts ≡ false
unfolding match_segments
match_fails n k [] ts h = refl
match_fails n k (c ∷ cs) [] h = refl
match_fails n k (c ∷ cs) (t ∷ ts) h =
    ground (arith, match_fails n (k + 1) cs ts, match_fails n k cs ts)

same_bytes : (a b : Bytes) → NulFree a → NulFree b → bytes_eq (c_str a) (c_str b) ≡ true → a ≡ b
same_bytes a b ha hb h = bytes_eq→eq a b (rw (c_str_self a ha, c_str_self b hb) at h)

match_sound :
    (n k : ℕ) (cs ts : List Bytes)
    → All NulFree cs
    → All NulFree ts
    → n ≡ k + length cs
    → match_segments n k cs ts ≡ true
    → Begins cs ts
unfolding match_segments Begins
match_sound n k [] ts _ _ e h = cc
match_sound n k (c ∷ cs) [] _ _ e h = cc
match_sound n k (c ∷ []) (t ∷ ts) (fc, _) (ft, _) e h =
    elim (Bool-cases (bytes_eq (c_str c) (c_str t))) [
      | inl hit ↦ (ts, cc (same_bytes c t fc ft hit))
      | inr miss ↦ cc (rw (miss, match_segments) at h)
    ]
match_sound n k (c ∷ x ∷ cs) (t ∷ ts) (fc, fcs) (ft, fts) e h =
    elim (Bool-cases (bytes_eq (c_str c) (c_str t))) [
      | inl hit ↦
          let later = match_sound n (k + 1) (x ∷ cs) ts fcs fts (omega arith) (counts hit) in
          (later.0, cc (same_bytes c t fc ft hit, later.1))
      | inr miss ↦ cc ((rw (miss, match_segments) at h), match_fails n k (x ∷ cs) ts (omega arith))
    ]
  where
    counts : bytes_eq (c_str c) (c_str t) ≡ true → match_segments n (k + 1) (x ∷ cs) ts ≡ true
    counts hit = ground arith

match_complete :
    (n k : ℕ) (cs rest : List Bytes)
    → cs ≢ []
    → n ≡ k + length cs
    → match_segments n k cs (cs ++ rest) ≡ true
unfolding match_segments
match_complete n k [] rest h e = absurd (h refl)
match_complete n k (c ∷ []) rest h e = rw (bytes_eq_refl (c_str c)) (ground arith)
match_complete n k (c ∷ x ∷ cs) rest h e =
    rw (bytes_eq_refl (c_str c))
      (ground (arith, match_complete n (k + 1) (x ∷ cs) rest (λ z. cc) (omega arith)))

-- `u.contains(compare)` holds exactly when `compare` has a segment and its segments begin those of
-- `u`, for paths whose segments hold no NUL; so the empty path is contained in none.
pub contains_iff :
    (u compare : Uri)
    → All NulFree u.components
    → All NulFree compare.components
    → (contains u compare ≡ true) ↔ (
        (compare.components ≢ [])
        × ((rest : List Bytes) × (u.components ≡ compare.components ++ rest)))
unfolding contains
contains_iff u compare fu fc = (sound, complete)
  where
    fits :
        contains u compare ≡ true
        → match_segments (length compare.components) 0 compare.components u.components ≡ true
    fits h = ground arith

    some_segment : (cs : List Bytes) → match_segments (length cs) 0 cs u.components ≡ true → cs ≢ []
    some_segment [] h = cc h
    some_segment (c ∷ cs) h = λ z. cc

    sound :
        contains u compare ≡ true
        → (compare.components ≢ [])
          × ((rest : List Bytes) × (u.components ≡ compare.components ++ rest))
    sound h = (
      some_segment compare.components (fits h),
      unfold Begins in
          match_sound (length compare.components) 0 compare.components u.components fc fu
            (omega arith) (fits h),
    )

    complete :
        (compare.components ≢ [])
          × ((rest : List Bytes) × (u.components ≡ compare.components ++ rest))
        → contains u compare ≡ true
    complete (h, (rest, e)) =
        ground (arith, ap length e, length-append compare.components rest, found)
      where
        found : match_segments (length compare.components) 0 compare.components u.components ≡ true
        found =
            rw e
              (match_complete (length compare.components) 0 compare.components rest h (omega arith))
