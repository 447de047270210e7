-- ===== src/Media/FreshId.antt =====
-- libmediadb/allocate_id.cpp on libdbsteam: `Allocate` gives an id that no record of the database has, where the
-- ids are below UINT_MAX - 1 and none of them lies in the gap.
use chorale.Base.{
  Bool-cases, Option-cases, inl, inr, none, false, get_elem?, if◌then◌else◌, ℕ, suc, ◌+◌, ◌<◌, ◌≤◌,
  ◌≡◌, refl, sym, ◌∙◌, true, false, Option, some, List, [], ◌∷◌, All, length, ◌==◌, ◌>>=◌, arith,
}
use chorale.Base.{Gives}
use chorale.Steam.Keys.{nat_key}
use chorale.Steam.Index.{Index, find, listed, mem}
use chorale.Steam.State.{Database, index_at, is_int, is_indexed, is_string}
use chorale.Steam.Query.{
  Query, new_query, gt, restriction, restrict, restrict_where, collate_by, number_restriction,
  exists, is_null,
}
use chorale.Steam.Scanning.{Ascending}
use chorale.Steam.Valid.{IsValid, int_field}
use chorale.Steam.Views.{int_view}
use chorale.Steam.Created.{KnownType}
use chorale.Steam.History.{Reach, reached-IsValid}
use chorale.Steam.Looking.{listed-int_view}
use chorale.Steam.Ordered.{collate_numbers, Plan, collated, plan}
use chorale.Steam.Collating.{keys, collated_rows, collated_rows-keys}
use chorale.Steam.Sorted.{Reach-Sorted, index_at-Sorted}
use chorale.Media.AllocateId.{AllocateId, allocate, IsFree, uint_max, allocate-IsFree}

-- The query for the ids above the gap.
unfoldable pub ids_query : ℕ → AllocateId → Option Query
unfolding restrict restrict_where collate_by
ids_query field a =
    let made = restrict (collate_by new_query field) (number_restriction field gt a.gap_end) in
    restrict_where made.0 made.1

-- The rows of what `Execute` makes: a `CollateRecordset` of a number. `none`: no recordset, or one of another kind.
unfoldable pub id_rows : Database → Plan → Option (List ℕ)
unfolding collated_rows collate_numbers index_at
id_rows db (collated field) = do
  flags ← get_elem? db.fields field
  let index = index_at db.intindexes field
  (if is_int flags then collated_rows (suc (length index)) index (collate_numbers index) else none)
id_rows db _ = none

-- `Allocate` on a database with its ids in a field. While the gap is not empty, there is no query.
unfoldable pub allocate_from : Database → ℕ → AllocateId → Option (ℕ × AllocateId)
unfolding allocate ids_query plan id_rows
allocate_from db field a =
    if a.gap_begin == a.gap_end
    then (do
      q ← ids_query field a
      chosen ← plan db.fields q
      rows ← id_rows db chosen
      some (allocate rows a))
    else some (allocate [] a)

-- The flags of a field with an index by number.
int_field-flags :
    (fields : List ℕ) (f : ℕ)
    → int_field fields f ≡ true
    → (flags : ℕ) × (get_elem? fields f ≡ some flags)
      × (is_indexed flags ≡ true)
      × (is_string flags ≡ false)
unfolding int_field
int_field-flags fields f on = elim (Option-cases (get_elem? fields f)) [
  | inl off ↦ absurd (ground (arith, on, off))
  | inr (flags, there) ↦ (flags, there, ground (arith, on, there), ground (arith, on, there))
]

-- `Execute` collates by the ids.
ids_query-plan :
    (fields : List ℕ) (f flags : ℕ) (a : AllocateId)
    → get_elem? fields f ≡ some flags
    → is_indexed flags ≡ true
    → Gives (ids_query f a) (λ q. plan fields q ≡ some (collated f))
unfolding ids_query restrict restrict_where collate_by plan exists is_null
ids_query-plan fields f flags a there indexed =
    let query : Query = record {
      restrictions = number_restriction f gt a.gap_end ∷ [];
      relations = [];
      root = restriction 0;
      orderby = [];
      collateby = f ∷ [];
    } in
    (query, refl, ground (arith, there, indexed))

-- With the rows the keys of the index, `Allocate` is the loop over all ids.
allocate_from-keys :
    (db : Database) (f : ℕ) (a : AllocateId)
    → IsValid db
    → int_field db.fields f ≡ true
    → Ascending (keys (index_at db.intindexes f))
    → allocate_from db f a ≡ some (allocate (keys (index_at db.intindexes f)) a)
unfolding allocate_from allocate id_rows
allocate_from-keys db f a valid on up =
    let index = index_at db.intindexes f in
    let (flags, there, indexed, number) = int_field-flags db.fields f on in
    let known = valid.known f flags there in
    elim (Bool-cases (a.gap_begin == a.gap_end)) [
      | inl empty ↦
          let (q, asked, chosen) = ids_query-plan db.fields f flags a there indexed in
          ground (arith, empty, asked, chosen, there, known, number, collated_rows-keys index up)
      | inr left ↦ rw left refl
    ]

unlisted-mem : (m : Index ℕ) (k r : ℕ) → mem k (keys m) ≡ false → listed m k r ≡ false
unfolding mem listed find
unlisted-mem [] k r h = refl
unlisted-mem ((j, s) ∷ m) k r h = ground (arith, h, unlisted-mem m k r)

-- Where the flags given to the constructor, and to `SetFieldInfo`, name one of the two types, and `SetFieldInfo` is called
-- only while there are no records, after any history of calls that name existing fields: if the field of the ids has an
-- index by number, every id in it is below UINT_MAX - 1, and the gap begins above zero, ends no lower than it begins and
-- no higher than UINT_MAX, has none of the ids in it and, where it is empty, ends below UINT_MAX - 1, then `Allocate`
-- returns an id above zero that no record has, and leaves a gap that lies behind the id and has none of the ids in it.
pub allocate_from-fresh :
    (nfields : ℕ) (infos : List (ℕ × ℕ)) {db : Database} (f : ℕ) (a : AllocateId)
    → All KnownType infos
    → Reach nfields infos db
    → int_field db.fields f ≡ true
    → All (λ u. u + 1 < uint_max) (keys (index_at db.intindexes f))
    → IsFree (keys (index_at db.intindexes f)) a
    → 0 < a.gap_begin
    → a.gap_begin ≤ a.gap_end
    → (a.gap_begin ≡ a.gap_end → a.gap_end + 1 < uint_max)
    → a.gap_end ≤ uint_max
    → Gives (allocate_from db f a) (λ given.
      ((r : ℕ) → (int_view db.records r f == given.0) ≡ false)
      × (0 < given.0)
      × (given.0 < given.1.gap_begin)
      × (given.1.gap_begin ≤ given.1.gap_end)
      × IsFree (keys (index_at db.intindexes f)) given.1)
allocate_from-fresh nfields infos {db} f a types reached on room free positive ordered near top =
    let index = index_at db.intindexes f in
    let up = index_at-Sorted db.intindexes f (Reach-Sorted nfields infos reached) in
    let (unused, above, behind, left, clear) =
      allocate-IsFree (keys index) a up room free positive ordered near top in
    let given = allocate (keys index) a in
    (
      given,
      allocate_from-keys db f a (reached-IsValid nfields infos types reached) on up,
      (
        λ r.
            sym (listed-int_view nfields infos f given.0 r types reached on above)
            ∙ unlisted-mem index given.0 r unused,
        above,
        behind,
        left,
        clear,
      ),
    )
