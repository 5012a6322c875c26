-- ===== src/Uri/Split.antt =====
-- The loop of `init` against a recursive description of the segments of a path.
use showtime_cpp.Common.{
  ◌↔◌, ℕ, ◌+◌, ◌≡◌, ◌≢◌, refl, sym, ap, ◌∙◌, inl, inr, true, false, List, [], ◌∷◌, ◌++◌, append-nil,
  append_assoc, Bytes, length, length-append, take-length, drop-length, ◌==◌, if◌then◌else◌,
  Bool-cases, ltb, leb, ltb→lt, Result, ok, thrown, Error, arith, ◌≤◌, ◌<◌,
}
use showtime_cpp.Uri.{
  fill, store, construct, delim, max_path_len, word, scan, starts_with_nul, components_of, init,
  size,
}

-- The first segment with a byte put before it.
abbrev pub push_byte : ℕ → List Bytes → List Bytes
push_byte c [] = (c ∷ []) ∷ []
push_byte c (w ∷ ws) = (c ∷ w) ∷ ws

-- The pieces of a text between its delimiters; a text has one more piece than delimiters.
abbrev pub segments : Bytes → List Bytes
segments [] = [] ∷ []
segments (c ∷ s) = if c == delim then [] ∷ segments s else push_byte c (segments s)

-- The first segment with a text put before it.
attach : Bytes → List Bytes → List Bytes
attach w [] = w ∷ []
attach w (x ∷ xs) = (w ++ x) ∷ xs

attach-push_byte :
    (w : Bytes) (c : ℕ) (ws : List Bytes) → attach w (push_byte c ws) ≡ attach (w ++ c ∷ []) ws
unfolding attach
attach-push_byte w c [] = refl
attach-push_byte w c (x ∷ xs) = simp append_assoc

attach-nil : (s : Bytes) → attach [] (segments s) ≡ segments s
unfolding attach
attach-nil [] = refl
attach-nil (c ∷ s) = elim (Bool-cases (c == delim)) [
  | inl e ↦ rw e
  | inr e ↦ rw e (go (segments s))
]
  where
    go : (ws : List Bytes) → attach [] (push_byte c ws) ≡ push_byte c ws
    go [] = refl
    go (w ∷ ws) = refl

word_lem : (before w after : Bytes) → word (before ++ (w ++ after)) (length before) (length w) ≡ w
unfolding word
word_lem before w after = rw (drop-length before (w ++ after)) (take-length w after)

scan-segments :
    (path before w s : Bytes) (len offset : ℕ) (cs : List Bytes)
    → path ≡ before ++ (w ++ s)
    → len ≡ length w
    → offset ≡ length before
    → scan path s len offset cs ≡ cs ++ attach w (segments s)
unfolding scan attach
scan-segments path before w [] len offset cs e n o =
    rw (e, n, o, word_lem before w [], append-nil w)
scan-segments path before w (c ∷ s) len offset cs e n o = elim (Bool-cases (c == delim)) [
  | inl hit ↦
      rw (hit, scan)
        (scan-segments path (before ++ (w ++ c ∷ [])) [] s 0 (offset + (len + 1))
            (cs ++ word path offset len ∷ []) (e ∙ simp append_assoc) refl
            (omega (arith, length-append before (w ++ c ∷ []), length-append w (c ∷ [])))
          ∙ (rw (attach-nil, e, n, o, word_lem before w (c ∷ s), append_assoc, append-nil)))
  | inr miss ↦
      rw (miss, scan)
        (scan-segments path before (w ++ c ∷ []) s (len + 1) offset cs (e ∙ simp append_assoc)
            (omega (arith, length-append w (c ∷ []))) o
          ∙ ap (◌++◌ cs) (sym (attach-push_byte w c (segments s))))
]

scanned : (p : Bytes) → scan p p 0 0 [] ≡ segments p
scanned p = scan-segments p [] [] p 0 0 [] refl refl refl ∙ attach-nil p

pub init_components :
    (p : Bytes) → (init p).components ≡ (if starts_with_nul p then [] else segments p)
unfolding init
init_components p = elim (Bool-cases (starts_with_nul p)) [
  | inl e ↦ rw (e, components_of)
  | inr e ↦ rw (e, components_of) (scanned p)
]

-- What the loop stores, if the array holds it.
guard : List Bytes → Result (List Bytes)
guard cs = if leb (length cs) max_path_len then ok cs else thrown Error.invalid_read

length-store : (cs : List Bytes) (w : Bytes) → length (cs ++ w ∷ []) ≡ length cs + 1
length-store cs w = length-append cs (w ∷ []) ∙ omega arith

scan_grows :
    (path s : Bytes) (len offset : ℕ) (cs : List Bytes)
    → length cs < length (scan path s len offset cs)
unfolding scan
scan_grows path [] len offset cs = omega (arith, length-store cs (word path offset len))
scan_grows path (c ∷ s) len offset cs = elim (Bool-cases (c == delim)) [
  | inl hit ↦
      rw (scan, hit)
        (omega (
          arith,
          scan_grows path s 0 (offset + (len + 1)) (cs ++ word path offset len ∷ []),
          length-store cs (word path offset len),
        ))
  | inr miss ↦ rw (scan, miss) (scan_grows path s (len + 1) offset cs)
]

in_bounds : (cs : List Bytes) → length cs ≤ max_path_len → leb (length cs) max_path_len ≡ true
in_bounds cs h = ground arith

past : (cs : List Bytes) → max_path_len < length cs → leb (length cs) max_path_len ≡ false
past cs h = ground arith

ltb_false→le : (n m : ℕ) → ltb n m ≡ false → m ≤ n
ltb_false→le n m h = ground arith

store_lem : (cs : List Bytes) (w : Bytes) → store cs w ≡ guard (cs ++ w ∷ [])
unfolding store guard
store_lem cs w = elim (Bool-cases (ltb (length cs) max_path_len)) [
  | inl room ↦
      rw (room, in_bounds (cs ++ w ∷ []) (omega (arith, length-store cs w, ltb→lt _ _ room))) refl
  | inr full ↦
      rw (full, past (cs ++ w ∷ []) (omega (arith, length-store cs w, ltb_false→le _ _ full))) refl
]

fill_lem :
    (path s : Bytes) (len offset : ℕ) (cs : List Bytes)
    → length cs ≤ max_path_len
    → fill path s len offset cs ≡ guard (scan path s len offset cs)
unfolding fill scan guard store
fill_lem path [] len offset cs fits = store_lem cs (word path offset len)
fill_lem path (c ∷ s) len offset cs fits = elim (Bool-cases (c == delim)) [
  | inl hit ↦
      rw (fill, scan, hit)
        (elim (Bool-cases (ltb (length cs) max_path_len)) [
          | inl room ↦ rw room (
              fill_lem path s 0 (offset + (len + 1)) (cs ++ word path offset len ∷ [])
                (omega (arith, length-store cs (word path offset len), ltb→lt _ _ room)))
          | inr full ↦
              rw
                (
                  full,
                  past (scan path s 0 (offset + (len + 1)) (cs ++ word path offset len ∷ [])) (
                      omega (
                        arith,
                        scan_grows path s 0 (offset + (len + 1)) (cs ++ word path offset len ∷ []),
                        length-store cs (word path offset len),
                        ltb_false→le _ _ full,
                      )),
                )
                refl
        ])
  | inr miss ↦ rw (fill, scan, miss) (fill_lem path s (len + 1) offset cs fits)
]

-- The constructor cuts a path into its segments, a path that is empty or begins with NUL into none,
-- if they are no more than the 255 that the array holds; it writes behind the array if there are
-- more.
pub init-segments :
    (p : Bytes)
    → construct p ≡ (
        if starts_with_nul p
        then ok (record { original_path = p; components = [] })
        else if leb (length (segments p)) max_path_len
        then ok (record { original_path = p; components = segments p })
        else thrown Error.invalid_read)
unfolding construct guard
init-segments p = elim (Bool-cases (starts_with_nul p)) [
  | inl nul ↦ rw nul refl
  | inr text ↦
      rw (text, fill_lem p p 0 0 [] (omega arith), scanned p)
        (elim (Bool-cases (leb (length (segments p)) max_path_len)) [
          | inl room ↦ rw room refl
          | inr full ↦ rw full refl
        ])
]

-- Where the array holds the segments, the constructor leaves the path that `init` is.
pub construct-init :
    (p : Bytes) → length (init p).components ≤ max_path_len → construct p ≡ ok (init p)
unfolding construct init guard
construct-init p h = init-segments p ∙ elim (Bool-cases (starts_with_nul p)) [
  | inl nul ↦ rw nul refl
  | inr text ↦
      let parts : (init p).components ≡ segments p = init_components p ∙ rw text refl in
      rw (text, in_bounds (segments p) (omega (arith, ap length parts, h)), scanned p) refl
]

-- How many delimiters a text holds.
abbrev pub count_delims : Bytes → ℕ
count_delims [] = 0
count_delims (c ∷ s) = if c == delim then count_delims s + 1 else count_delims s

length-push_byte : (c : ℕ) (ws : List Bytes) → ws ≢ [] → length (push_byte c ws) ≡ length ws
length-push_byte c [] h = absurd (h refl)
length-push_byte c (w ∷ ws) h = refl

pub segments-ne-nil : (s : Bytes) → segments s ≢ []
segments-ne-nil [] = λ e. cc
segments-ne-nil (c ∷ s) = elim (Bool-cases (c == delim)) [
  | inl e ↦ rw e (λ z. cc)
  | inr e ↦ rw e (go (segments s))
]
  where
    go : (ws : List Bytes) → push_byte c ws ≢ []
    go [] = λ z. cc
    go (w ∷ ws) = λ z. cc

pub length-segments : (s : Bytes) → length (segments s) ≡ count_delims s + 1
length-segments [] = omega arith
length-segments (c ∷ s) = elim (Bool-cases (c == delim)) [
  | inl e ↦ rw e (omega (arith, length-segments s))
  | inr e ↦ rw e (length-push_byte c (segments s) (segments-ne-nil s) ∙ length-segments s)
]

-- A path that does not begin with NUL has one component more than delimiters, so the stores of
-- `init` stay inside `m_components`, an array of 255, exactly when there are fewer than 255
-- delimiters.
pub init_bounds :
    (p : Bytes)
    → starts_with_nul p ≡ false
    → (size (init p) ≡ count_delims p + 1)
      × ((size (init p) ≤ max_path_len) ↔ (count_delims p < 255))
unfolding size
init_bounds p h =
    let e : length (init p).components ≡ count_delims p + 1 = counted in
    (e, ((λ b. omega (arith, e)), (λ b. omega (arith, e))))
  where
    counted : length (init p).components ≡ count_delims p + 1
    counted = rw (init_components p, h) (length-segments p)
