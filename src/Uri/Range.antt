-- ===== src/Uri/Range.antt =====
-- `range` on every branch: the slice of the segments, the throw, and the reads past the last
-- component; `parent` and `last`, which take the path apart, and `operator+`, which joins it.
use showtime_cpp.Common.{
  ◌⊎◌, inl, inr, ℕ, zero, suc, ◌+◌, ◌-◌, ◌%◌, ◌<◌, ◌≤◌, ◌≡◌, refl, sym, ap, ◌∙◌, inl, inr, true,
  false, List, [], ◌∷◌, ◌++◌, Bytes, length, get_elem?, take, drop, length-drop, some, none,
  Option-cases, arith, ltb, lt→ltb, ok, thrown, Error,
}
use native.Mathlib.Nat.{zero-add}
use native.Mathlib.Decide.{dec_le}
use showtime_cpp.Uri.{
  Uri, delim, size_mod, starts_with_nul, init, component_at, seek, measure, range_between, range,
  from_buffer, max_path_len,
}
use showtime_cpp.Uri.Join.{join, separated, components_joined}

-- How far the start of the text behind some segments is from theirs.
offset : List Bytes → ℕ
offset [] = 0
offset (w ∷ ws) = length w + suc (offset ws)

-- The lengths of some segments, without their delimiters.
total : List Bytes → ℕ
total [] = 0
total (w ∷ ws) = length w + total ws

module _ {ℓ} {A : Type ℓ} where
  pub drop_at :
      (xs : List A) (i : ℕ)
      → i < length xs
      → (x : A) × (get_elem? xs i ≡ some x) × (drop i xs ≡ x ∷ drop (suc i) xs)
  drop_at [] i h = absurd (omega arith)
  drop_at (x ∷ xs) zero h = (x, refl, refl)
  drop_at (x ∷ xs) (suc i) h = drop_at xs i (omega arith)

  get_elem?_past : (xs : List A) (i : ℕ) → length xs ≤ i → get_elem? xs i ≡ none
  get_elem?_past [] i h = refl
  get_elem?_past (x ∷ xs) zero h = absurd (omega arith)
  get_elem?_past (x ∷ xs) (suc i) h = get_elem?_past xs i (omega arith)

  drop-append : (xs ys : List A) (n k : ℕ) → n ≡ length xs + k → drop n (xs ++ ys) ≡ drop k ys
  drop-append [] ys n k e = ap (λ m. drop m ys) (omega arith)
  drop-append (x ∷ xs) ys zero k e = absurd (omega arith)
  drop-append (x ∷ xs) ys (suc n) k e = drop-append xs ys n k (omega arith)

  take-append : (xs ys : List A) (n k : ℕ) → n ≡ length xs + k → take n (xs ++ ys) ≡ xs ++ take k ys
  take-append [] ys n k e = ap (λ m. take m ys) (omega arith)
  take-append (x ∷ xs) ys zero k e = absurd (omega arith)
  take-append (x ∷ xs) ys (suc n) k e = ap (λ l. x ∷ l) (take-append xs ys n k (omega arith))

seek_lem :
    (cs : List Bytes) (k i acc : ℕ)
    → i + k ≤ length cs
    → seek cs k i acc ≡ ok (acc + offset (take k (drop i cs)))
unfolding seek offset component_at
seek_lem cs zero i acc h = ap ok (omega arith)
seek_lem cs (suc k) i acc h =
    let (x, got, rest) = drop_at cs i (omega arith) in
    rw (got, seek, component_at, rest)
      (seek_lem cs k (suc i) (acc + (length x + 1)) (omega arith) ∙ ap ok (omega arith))

measure_lem :
    (cs : List Bytes) (k i acc : ℕ)
    → i + k ≤ length cs
    → measure cs k i acc ≡ ok (acc + total (take k (drop i cs)))
unfolding measure total component_at
measure_lem cs zero i acc h = ap ok (omega arith)
measure_lem cs (suc k) i acc h =
    let (x, got, rest) = drop_at cs i (omega arith) in
    rw (got, measure, component_at, rest)
      (measure_lem cs k (suc i) (acc + length x) (omega arith) ∙ ap ok (omega arith))

drop-offset :
    (cs : List Bytes) (k : ℕ)
    → k < length cs
    → drop (offset (take k cs)) (join cs) ≡ join (drop k cs)
unfolding offset
drop-offset cs zero h = refl
drop-offset [] (suc k) h = absurd (omega arith)
drop-offset (w ∷ []) (suc k) h = absurd (omega arith)
drop-offset (w ∷ x ∷ ws) (suc k) h =
    drop-append w (delim ∷ join (x ∷ ws)) _ (suc (offset (take k (x ∷ ws)))) refl
    ∙ drop-offset (x ∷ ws) k (omega arith)

take-total :
    (cs : List Bytes) (m : ℕ)
    → m < length cs
    → take (total (take (suc m) cs) + m) (join cs) ≡ join (take (suc m) cs)
unfolding total
take-total [] m h = absurd (omega arith)
take-total (w ∷ ws) zero h = take-append w (separated ws) _ 0 (omega arith)
take-total (w ∷ []) (suc m) h = absurd (omega arith)
take-total (w ∷ x ∷ ws) (suc m) h =
    take-append w (delim ∷ join (x ∷ ws)) _ (suc (total (take (suc m) (x ∷ ws)) + m)) (omega arith)
    ∙ ap (λ l. w ++ (delim ∷ l)) (take-total (x ∷ ws) m (omega arith))

-- The slice of the segments from `start` to `end`, both included.
abbrev pub slice : List Bytes → ℕ → ℕ → List Bytes
slice cs start end = take (suc (end - start)) (drop start cs)

range_between_lem :
    (u : Uri) (start end : ℕ)
    → u.original_path ≡ join u.components
    → start ≤ end
    → end < length u.components
    → range_between u start end ≡ ok (init (join (slice u.components start end)))
unfolding range_between from_buffer
range_between_lem u start end e le lt =
    rw
      (
        seek_lem u.components start 0 0 (omega arith),
        measure_lem u.components (suc end - start) start 0 (omega arith),
        rounds,
      )
      (simp zero-add (
        rw (e, drop-offset u.components start (omega arith))
          (ap (λ t. ok (init t)) (take-total (drop start u.components) (end - start) within))))
  where
    rounds : suc end - start ≡ suc (end - start)
    rounds = omega arith

    within : end - start < length (drop start u.components)
    within = omega (arith, length-drop start u.components)

-- A difference of indexes that do not run past the end is not refused.
guard_passes :
    (n start end : ℕ)
    → start ≤ end
    → end - start ≤ n
    → end < size_mod
    → ltb n ((end + size_mod - start) % size_mod) ≡ false
guard_passes n start end le fits small =
    let e : (end + size_mod - start) % size_mod ≡ end - start = omega arith in rw e (ground arith)

guard_refuses :
    (n start end : ℕ)
    → n < (end + size_mod - start) % size_mod
    → ltb n ((end + size_mod - start) % size_mod) ≡ true
guard_refuses n start end h = lt→ltb _ _ h

-- `range` from one segment of a path to a later one gives the path of the segments between, both
-- ends included.
pub range-slice :
    (p : Bytes) (start end : ℕ)
    → starts_with_nul p ≡ false
    → start ≤ end
    → end < length (init p).components
    → length (init p).components ≤ max_path_len
    → range (init p) start end ≡ ok (init (join (slice (init p).components start end)))
unfolding range
range-slice p start end nul le lt bound =
    rw (guard_passes (length (init p).components) start end le (omega arith) (omega arith))
      (range_between_lem (init p) start end (whole ∙ sym (components_joined p nul)) le lt)
  where
    whole : (init p).original_path ≡ p
    whole = unfold init in refl

seek_fails :
    (cs : List Bytes) (k i acc : ℕ)
    → length cs < i + k
    → 0 < k
    → seek cs k i acc ≡ thrown Error.invalid_read
unfolding seek component_at
seek_fails cs zero i acc h z = absurd (omega arith)
seek_fails cs (suc zero) i acc h z = rw (get_elem?_past cs i (omega arith), seek, component_at)
seek_fails cs (suc (suc k)) i acc h z = elim (Option-cases (get_elem? cs i)) [
  | inl e ↦ rw (e, seek, component_at)
  | inr (c, e) ↦
      rw (e, seek, component_at)
        (seek_fails cs (suc k) (suc i) (acc + (length c + 1)) (omega arith) (omega arith))
]

measure_fails :
    (cs : List Bytes) (k i acc : ℕ)
    → length cs < i + k
    → 0 < k
    → measure cs k i acc ≡ thrown Error.invalid_read
unfolding measure component_at
measure_fails cs zero i acc h z = absurd (omega arith)
measure_fails cs (suc zero) i acc h z =
    rw (get_elem?_past cs i (omega arith), measure, component_at)
measure_fails cs (suc (suc k)) i acc h z = elim (Option-cases (get_elem? cs i)) [
  | inl e ↦ rw (e, measure, component_at)
  | inr (c, e) ↦
      rw (e, measure, component_at)
        (measure_fails cs (suc k) (suc i) (acc + length c) (omega arith) (omega arith))
]

between_fails :
    (u : Uri) (start end : ℕ)
    → start ≤ end
    → length u.components ≤ end
    → range_between u start end ≡ thrown Error.invalid_read
unfolding range_between
between_fails u start end le past = elim (dec_le start (length u.components)) [
  | yes fits ↦ rw (
    seek_lem u.components start 0 0 (omega arith),
    measure_fails u.components (suc end - start) start 0 (omega arith) (omega arith),
  )
  | no over ↦ rw (seek_fails u.components start 0 0 (omega arith) (omega arith))
]

-- `range` throws a range error where its indexes differ by more than the count, or come in the wrong
-- order (of numbers that are not near the largest).
pub range_refused :
    (u : Uri) (start end : ℕ)
    → start < size_mod
    → end < size_mod
    → length u.components ≤ max_path_len
    → ((start ≤ end) × (length u.components < end - start))
      ⊎ ((end < start) × (start + max_path_len < size_mod))
    → range u start end ≡ thrown Error.range_error
unfolding range
range_refused u start end hs he bound (inl (le, far)) =
    rw (guard_refuses (length u.components) start end (omega arith))
range_refused u start end hs he bound (inr (wrong, small)) =
    rw (guard_refuses (length u.components) start end (omega arith))

-- A call of `range` that ends past the last segment but spans no more than the count passes the
-- guard, and reads components that are not there.
pub range_outside :
    (u : Uri) (start end : ℕ)
    → end < size_mod
    → start ≤ end
    → end - start ≤ length u.components
    → length u.components ≤ end
    → range u start end ≡ thrown Error.invalid_read
unfolding range
range_outside u start end he le near past =
    rw (guard_passes (length u.components) start end le near he) (between_fails u start end le past)
