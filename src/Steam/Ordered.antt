-- ===== src/Steam/Ordered.antt =====
-- libdbsteam/rs.cpp and query.cpp: the recordsets that follow a whole index, and the choice of a recordset for a query.
use chorale.Base.{
  ℕ, ◌+◌, Bool, true, false, not, ◌&&◌, Option, none, some, List, [], ◌∷◌, Bytes, length, get_elem?,
  ltb, ◌==◌, if◌then◌else◌, ◌>>=◌,
}
use chorale.Steam.Keys.{Key, nat_key, text_key}
use chorale.Steam.Index.{Index}
use chorale.Steam.State.{Database, Cursor, is_indexed, index_at}
use chorale.Steam.Query.{Query, eq, RestrictionType, Restriction, matches, is_null}
use chorale.Steam.Rows.{at_record}

-- `OrderedRecordset`: `m_subrecno` and `m_intval` or `m_stringval`.
pub record Order {ℓ} (K : Type ℓ) : Type ℓ where
  pub cursor : Cursor
  pub subrecno : ℕ
  pub value : K

abbrev pub past_end {ℓ} : {K : Type ℓ} → Order K → Order K
past_end p = record p { cursor = record { recno = p.cursor.recno; eof = true } }

module _ {K : Type 0} where
  -- `none` is the first element of an empty set.
  unfoldable pub ordered_recordset : Index K → K → Cursor → Option (Order K)
  ordered_recordset [] missing c =
      some
        (record { cursor = record { recno = c.recno; eof = true }; subrecno = 0; value = missing })
  ordered_recordset ((k, []) ∷ m) missing c = none
  ordered_recordset ((k, r ∷ s) ∷ m) missing c =
      some (record { cursor = at_record r; subrecno = 0; value = k })

  -- The loop over `i`, from the entry that the first argument starts with.
  unfoldable pub settle : Index K → ℕ → Order K → Order K
  settle [] sub p = past_end p
  settle ((k, s) ∷ m) sub p = elim (get_elem? s sub) [
    | some r ↦ record { cursor = at_record r; subrecno = sub; value = k }
    | none ↦ elim m [ [] ↦ past_end (record p { subrecno = sub }) | x ∷ rest ↦ settle m 0 p ]
  ]

module _ {K : Type 0} ⦃key : Key K⦄ where
  -- The entries from `the_index.lower_bound(k)` on.
  unfoldable pub entries_from : K → Index K → Index K
  entries_from k [] = []
  entries_from k ((j, s) ∷ m) =
      let rest = entries_from k m in if key.less j k then rest else (j, s) ∷ m

  unfoldable pub ordered_move_next : Index K → Order K → Order K
  unfolding entries_from settle
  ordered_move_next index p = if p.cursor.eof then p else elim (entries_from p.value index) [
    | [] ↦ past_end p
    | (j, s) ∷ m ↦ settle ((j, s) ∷ m) (if key.same j p.value then p.subrecno + 1 else 0) p
  ]

-- `CollateRecordset`: `m_strvalue` or `m_intvalue`, and `m_eof`.
pub record Collation {ℓ} (K : Type ℓ) : Type ℓ where
  pub value : K
  pub eof : Bool

-- The numbers: every key is a row.
unfoldable pub collate_numbers : Index ℕ → Collation ℕ
collate_numbers [] = record { value = 0; eof = true }
collate_numbers ((k, s) ∷ m) = record { value = k; eof = false }

unfoldable pub next_number : Index ℕ → Collation ℕ → Collation ℕ
next_number [] p = record p { eof = true }
next_number ((k, s) ∷ m) p =
    let rest = next_number m p in
    if p.eof then p else if ltb p.value k then record { value = k; eof = false } else rest

-- The texts: a key is a row if the query, where there is one, holds of a record in its set.
module _ (regex : Bytes → Bytes → Bool) (q : Option Query) where
  -- The loop over the set.
  unfoldable pub any_matches : List ℕ → Database → Option (Bool × Database)
  unfolding matches
  any_matches [] db = some (false, db)
  any_matches (r ∷ rs) db = elim q [
    | none ↦ some (true, db)
    | some p ↦ do
      m ← matches regex p db (at_record r)
      elim m.0 [ true ↦ some (true, m.1) | false ↦ any_matches rs m.1 ]
  ]

  unfoldable pub move_until_valid :
      Index Bytes → Bytes → Database → Option (Collation Bytes × Database)
  unfolding any_matches
  move_until_valid [] value db = some (record { value = value; eof = true }, db)
  move_until_valid ((k, s) ∷ m) value db = elim q [
    | none ↦ some (record { value = k; eof = false }, db)
    | some p ↦ do
      found ← any_matches s db
      elim found.0 [
        | true ↦ some (record { value = k; eof = false }, found.1)
        | false ↦ move_until_valid m k found.1
      ]
  ]

  unfoldable pub collate_texts : ℕ → Database → Option (Collation Bytes × Database)
  unfolding index_at move_until_valid
  collate_texts field db = move_until_valid (index_at db.stringindexes field) [] db

  -- The entries behind the one of a key, if it is there.
  unfoldable pub entries_after : Bytes → Index Bytes → Option (Index Bytes)
  entries_after k [] = none
  entries_after k ((j, s) ∷ m) =
      let rest = entries_after k m in if text_key.same k j then some m else rest

  unfoldable pub next_text : ℕ → Database → Collation Bytes → Option (Collation Bytes × Database)
  unfolding index_at entries_after move_until_valid
  next_text field db p =
      if p.eof
      then some (p, db)
      else elim (entries_after p.value (index_at db.stringindexes field)) [
        | none ↦ some (record p { eof = true }, db)
        | some m ↦ move_until_valid m p.value db
      ]

-- Which recordset `Execute` makes, and of which field.
pub data Plan : Type 0 where
  refused : Plan
  collated : ℕ → Plan
  ordered : ℕ → Plan
  looked_up_text : ℕ → Bytes → Plan
  looked_up_number : ℕ → ℕ → Plan
  scanned : Plan

abbrev pub is_eq : RestrictionType → Bool
is_eq eq = true
is_eq _ = false

-- The last choice, on the restrictions; `none` is a field out of range.
unfoldable pub plan_restrictions : List ℕ → List Restriction → Option Plan
plan_restrictions fields (r ∷ []) =
    if is_eq r.rt
    then (do
      flags ← get_elem? fields r.which
      some (
          if is_indexed flags
          then (if r.is_string
              then looked_up_text r.which r.sval
              else looked_up_number r.which r.ival)
          else scanned))
    else some scanned
plan_restrictions fields _ = some scanned

-- `Execute`; `none` is also a failed assertion.
unfoldable pub plan : List ℕ → Query → Option Plan
unfolding is_null plan_restrictions
plan fields q =
    if is_null q.root && not (length q.restrictions == 0) then none else elim q.collateby [
      | f ∷ more ↦ do
        flags ← get_elem? fields f
        some (if is_indexed flags && (length more == 0) then collated f else refused)
      | [] ↦ elim q.orderby [
        | f ∷ more ↦ some (ordered f)
        | [] ↦ plan_restrictions fields q.restrictions
      ]
    ]
