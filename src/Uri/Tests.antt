-- ===== src/Uri/Tests.antt =====
-- Paths as tests/TestURI.cpp has them, and instances of the theorems.
use showtime_cpp.Common.{
  ◌≡◌, ◌≢◌, refl, [], ◌∷◌, ◌++◌, List, Bytes, codes, true, false, ok, thrown, Error, arith, ◌<◌,
  ◌≤◌, ◌↔◌,
}
use showtime_cpp.Uri.{
  Uri, max_path_len, starts_with_nul, construct, init, segment, size, range, parent, first, last,
  concat, contains, less,
}
use showtime_cpp.Uri.Split.{init-segments, init_bounds}
use showtime_cpp.Uri.Join.{join, join-init, init-join}
use showtime_cpp.Uri.Range.{range-slice, range_outside}
use showtime_cpp.Uri.Parent.{concat-parent-last}
use showtime_cpp.Uri.Contains.{contains_iff}
use showtime_cpp.Uri.Order.{IsKey, less_strict}

abbrev plug : Uri
unfolding init
plug = init (codes "ins/someplug")

both_parts : plug.components ≡ codes "ins" ∷ codes "someplug" ∷ []
unfolding init
both_parts = refl

second_part : segment plug 1 ≡ ok (codes "someplug")
unfolding segment init
second_part = refl

tail_part : range plug 1 1 ≡ ok (init (codes "someplug"))
unfolding range init
tail_part = refl

too_far_throws : range plug 0 4 ≡ thrown Error.range_error
unfolding range init
too_far_throws = refl

one_up : parent plug ≡ ok (init (codes "ins"))
unfolding parent init
one_up = refl

head_part : first plug ≡ ok (init (codes "ins"))
unfolding first init
head_part = refl

ins_begins : contains plug (init (codes "ins")) ≡ true
unfolding contains init
ins_begins = refl

a_joins_b : concat (init (codes "a")) (init (codes "b")) ≡ init (codes "a/b")
unfolding concat init
a_joins_b = refl

a_before_b : less (init (codes "a")) (init (codes "b")) ≡ true
unfolding less init
a_before_b = refl

init-segments_example :
    construct (codes "a//b")
    ≡ ok (record { original_path = codes "a//b"; components = codes "a" ∷ [] ∷ codes "b" ∷ [] })
unfolding starts_with_nul
init-segments_example = init-segments (codes "a//b")

init_bounds_example :
    (size (init (codes "ins/someplug")) ≡ 2)
    × ((size (init (codes "ins/someplug")) ≤ max_path_len) ↔ (1 < 255))
unfolding starts_with_nul
init_bounds_example = init_bounds (codes "ins/someplug") refl

join-init_example :
    (u : Uri) × (construct (codes "ins/someplug") ≡ ok u)
    × (join u.components ≡ codes "ins/someplug")
unfolding starts_with_nul init
join-init_example = join-init (codes "ins/someplug") refl (omega arith)

init-join_example :
    (u : Uri) × (construct (join (codes "ins" ∷ codes "someplug" ∷ [])) ≡ ok u)
    × (u.components ≡ codes "ins" ∷ codes "someplug" ∷ [])
unfolding starts_with_nul
init-join_example =
    init-join (codes "ins") (codes "someplug" ∷ []) (omega arith) (omega arith) refl (omega arith)

range-slice_example : range (init (codes "a/b/c")) 1 2 ≡ ok (init (codes "b/c"))
unfolding init
range-slice_example = range-slice (codes "a/b/c") 1 2 refl (omega arith) (omega arith) (omega arith)

range_outside_example : range plug 1 2 ≡ thrown Error.invalid_read
unfolding init
range_outside_example =
    range_outside plug 1 2 (omega arith) (omega arith) (omega arith) (omega arith)

concat-parent-last_example :
    (q : Uri) × (l : Uri) × (parent (init (codes "a/b")) ≡ ok q)
    × (last (init (codes "a/b")) ≡ ok l)
    × (concat q l ≡ init (codes "a/b"))
unfolding init
concat-parent-last_example =
    concat-parent-last (codes "a/b") (omega arith) refl (omega arith) (omega arith)

abbrev ins : Uri
unfolding init
ins = init (codes "ins")

contains_iff_example :
    (contains plug ins ≡ true)
    ↔ ((ins.components ≢ []) × ((rest : List Bytes) × (plug.components ≡ ins.components ++ rest)))
unfolding init
contains_iff_example = contains_iff plug ins (omega arith) (omega arith)

plug-IsKey : IsKey plug
unfolding init
plug-IsKey = record { bytes = omega arith; nul_free = omega arith }

ins-IsKey : IsKey ins
unfolding init
ins-IsKey = record { bytes = omega arith; nul_free = omega arith }

less_strict_example :
    (less ins ins ≡ false) × (less ins plug ≡ true → less plug ins ≡ true → less ins ins ≡ true)
less_strict_example = less_strict ins plug ins
