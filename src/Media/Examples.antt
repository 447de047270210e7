-- ===== src/Media/Examples.antt =====
-- libmediadb on concrete inputs: the source's own tests, and each theorem applied where its hypotheses hold.
use chorale.Base.{ℕ, ◌≡◌, refl, inl, some, List, [], ◌∷◌, arith}
use chorale.Media.Children.{
  vector_to_children, children_to_vector, append_utf8, append_all, sextets, shift, get_utf8_char,
  continue, get_children, children_from, children_to_vector-vector_to_children,
}
use chorale.Media.AllocateId.{new_allocate_id, allocate, find_gap, IsFree}
use chorale.Base.{Gives, false, ◌<◌, ◌≤◌, ◌==◌}
use chorale.Media.FreshId.{allocate_from, allocate_from-fresh}
use chorale.Steam.State.{index_at}
use chorale.Steam.Valid.{int_field}
use chorale.Steam.Views.{int_view}
use chorale.Steam.Collating.{keys}
use chorale.Steam.Examples.{fields, two_records, fields-KnownType, two_records-Reach}

abbrev ids : List ℕ
ids = 111 ∷ 9 ∷ 0x40000000 ∷ []

children_test : children_to_vector (vector_to_children ids) ≡ some ids
unfolding children_to_vector vector_to_children append_utf8 append_all sextets shift get_utf8_char
    continue get_children children_from
children_test = refl

-- A child with the id zero becomes a question mark, and one of 2^31 or more is left out, so that the last child is missing.
lost_children_test :
    children_to_vector (vector_to_children (0 ∷ 0x80000000 ∷ [])) ≡ some (63 ∷ 0 ∷ [])
unfolding children_to_vector vector_to_children append_utf8 append_all sextets shift get_utf8_char
    continue get_children children_from
lost_children_test = refl

children_to_vector-vector_to_children_example :
    children_to_vector (vector_to_children ids) ≡ some ids
children_to_vector-vector_to_children_example =
    children_to_vector-vector_to_children ids (omega arith)
      ((omega arith, omega arith), ((omega arith, omega arith), ((omega arith, omega arith), _)))

-- A recordset that ignores the restriction of the query gives lower ids, and the gap that is found lies below the old one.
low_rows_test :
    allocate (0x10 ∷ 0x20 ∷ []) new_allocate_id
    ≡ (0x11, record { gap_begin = 0x12; gap_end = 0x20 })
unfolding allocate find_gap
low_rows_test = refl

-- With the one id 7 in use, the next id given is 8.
allocate_from-fresh_example : Gives (allocate_from two_records 0 new_allocate_id) (λ given.
    ((r : ℕ) → (int_view two_records.records r 0 == given.0) ≡ false)
    × (0 < given.0)
    × (given.0 < given.1.gap_begin)
    × (given.1.gap_begin ≤ given.1.gap_end)
    × IsFree (keys (index_at two_records.intindexes 0)) given.1)
unfolding index_at int_field
allocate_from-fresh_example =
    allocate_from-fresh 2 fields 0 new_allocate_id fields-KnownType two_records-Reach refl
      (omega arith, _) (inl (omega arith), _) (omega arith) (omega arith) (λ e. omega arith)
      (omega arith)
