-- ===== src/Steam/Rows.antt =====
-- libdbsteam/rs.h and rs.cpp: the recordsets that step through the whole database, or through one set of an index.
use chorale.Base.{
  ℕ, zero, suc, ◌+◌, Bool, true, false, Option, none, some, List, [], ◌∷◌, Bytes, length, get_elem?,
  ◌==◌, if◌then◌else◌, ◌>>=◌,
}
use chorale.Steam.Keys.{Key, nat_key, text_key}
use chorale.Steam.Index.{Index, find}
use chorale.Steam.State.{Database, Cursor, upper_bound}
use chorale.Steam.Access.{enoent, delete_record}
use chorale.Steam.Query.{Query, matches}

-- `Recordset`'s constructor.
unfoldable pub new_recordset : Database → Cursor
new_recordset db = elim db.records [
  | [] ↦ record { recno = 0; eof = true }
  | x ∷ rest ↦ record { recno = x.0; eof = false }
]

-- `SetRecordNumber`
abbrev pub at_record : ℕ → Cursor
at_record r = record { recno = r; eof = false }

-- `SimpleRecordset`. Without a query every record is a row.
module _ (regex : Bytes → Bytes → Bool) (q : Option Query) where
  unfoldable pub row_matches : Database → Cursor → Option (Bool × Database)
  unfolding matches
  row_matches db c = elim q [ none ↦ some (true, db) | some p ↦ matches regex p db c ]

  -- The loop of `MoveNext`.
  unfoldable pub simple_loop : ℕ → Database → Cursor → Option (Cursor × Database)
  unfolding upper_bound row_matches
  simple_loop zero db c = none
  simple_loop (suc n) db c = elim (upper_bound c.recno db.records) [
    | none ↦ some (record { recno = c.recno; eof = true }, db)
    | some r ↦ do
      m ← row_matches db (at_record r)
      elim m.0 [ true ↦ some (at_record r, m.1) | false ↦ simple_loop n m.1 (at_record r) ]
  ]

  -- Each turn of the loop passes a record.
  unfoldable pub simple_move_next : Database → Cursor → Option (Cursor × Database)
  unfolding simple_loop
  simple_move_next db c = if c.eof then some (c, db) else simple_loop (suc (length db.records)) db c

  unfoldable pub simple_recordset : Database → Option (Cursor × Database)
  unfolding new_recordset row_matches simple_move_next
  simple_recordset db = if (new_recordset db).eof then some (new_recordset db, db) else do
    m ← row_matches db (new_recordset db)
    elim m.0 [
      | true ↦ some (new_recordset db, m.1)
      | false ↦ simple_move_next m.1 (new_recordset db)
    ]

  -- `Delete` ends with `MoveNext`, unless there was no record.
  unfoldable pub simple_delete : Database → Cursor → Option (ℕ × Cursor × Database)
  unfolding delete_record simple_move_next
  simple_delete db c = do
    d ← delete_record db c
    (if d.0 == enoent
        then some (enoent, c, d.1)
        else do g ← simple_move_next d.1 c; some (0, g.0, g.1))

  -- A client's loop, `while (!rs->IsEOF()) rs->MoveNext()`: the numbers of the rows.
  unfoldable pub simple_rows : ℕ → Database → Cursor → Option (List ℕ × Database)
  unfolding simple_move_next
  simple_rows zero db c = none
  simple_rows (suc n) db c = elim c.eof [
    | true ↦ some ([], db)
    | false ↦ do
      g ← simple_move_next db c
      rest ← simple_rows n g.1 g.0
      some (c.recno ∷ rest.0, rest.1)
  ]

  -- All rows of a new recordset.
  unfoldable pub scan : Database → Option (List ℕ × Database)
  unfolding simple_recordset simple_rows
  scan db = do g ← simple_recordset db; simple_rows (suc (length db.records)) g.1 g.0

-- `IndexedRecordset`: the rows of one key of an index, with `m_subrecno`, the row's place in the set.
pub record Place : Type 0 where
  pub cursor : Cursor
  pub subrecno : ℕ

module _ {K : Type 0} ⦃key : Key K⦄ where
  -- `none` is the first element of an empty set.
  unfoldable pub indexed_recordset : Index K → K → Cursor → Option Place
  unfolding find
  indexed_recordset index k c = elim (find k index) [
    | none ↦ some (record { cursor = record { recno = c.recno; eof = true }; subrecno = 0 })
    | some [] ↦ none
    | some (r ∷ rest) ↦ some (record { cursor = at_record r; subrecno = 0 })
  ]

  unfoldable pub indexed_move_next : Index K → K → Place → Place
  unfolding find
  indexed_move_next index k p = if p.cursor.eof then p else elim (find k index) [
    | none ↦ record p { cursor = record { recno = p.cursor.recno; eof = true } }
    | some s ↦ elim (get_elem? s (p.subrecno + 1)) [
      | none ↦ record {
        cursor = record { recno = p.cursor.recno; eof = true };
        subrecno = p.subrecno + 1;
      }
      | some r ↦ record { cursor = at_record r; subrecno = p.subrecno + 1 }
    ]
  ]

  -- A client's loop: the numbers of the rows.
  unfoldable pub indexed_rows : ℕ → Index K → K → Place → Option (List ℕ)
  unfolding indexed_move_next
  indexed_rows zero index k p = none
  indexed_rows (suc n) index k p = elim p.cursor.eof [
    | true ↦ some []
    | false ↦ do
      rest ← indexed_rows n index k (indexed_move_next index k p)
      some (p.cursor.recno ∷ rest)
  ]

  -- `Delete` ends with `MoveNext`, by the index as it is then.
  unfoldable pub after_delete : Index K → K → ℕ → Place → Place
  unfolding indexed_move_next
  after_delete index k code p = if code == enoent then p else indexed_move_next index k p

  unfoldable pub row_count : Index K → K → ℕ
  unfolding find
  row_count index k = elim (find k index) [ none ↦ 0 | some s ↦ length s ]

  -- All rows of a new recordset.
  unfoldable pub lookup : Index K → K → Cursor → Option (List ℕ)
  unfolding indexed_recordset indexed_rows row_count
  lookup index k c = do
    p ← indexed_recordset index k c
    indexed_rows (suc (row_count index k)) index k p
