-- ===== src/Steam/Access.antt =====
-- libdbsteam/rs.cpp: the methods of `Recordset` that read and write fields, and add and delete records. A number is
-- the code that is returned; `none` is a field out of range.
use chorale.Base.{
  ℕ, zero, suc, ◌+◌, true, false, not, ◌&&◌, Option, none, some, [], Bytes, same_text, get_elem?,
  set, replicate, ◌==◌, add32, if◌then◌else◌, ◌>>=◌,
}
use chorale.Steam.Keys.{Key, nat_key, text_key}
use chorale.Steam.Index.{Index, index_add, index_remove}
use chorale.Steam.Numbers.{print, strtoul}
use chorale.Steam.State.{
  Database, Cursor, FieldValue, Fields, blank, is_indexed, is_int, is_string, find_record,
  new_record, erase_record, put_cell, index_at,
}

-- ENOENT
abbrev pub enoent : ℕ
enoent = 2

-- What `GetInteger` finds in a value, and what it leaves there: the number is kept once it is parsed.
unfoldable pub int_of : FieldValue → ℕ
int_of v = if v.ivalid then v.i else if v.svalid then strtoul v.s else 0

unfoldable pub kept_int : FieldValue → FieldValue
kept_int v =
    if v.ivalid then v else if v.svalid then record v { i = strtoul v.s; ivalid = true } else v

unfoldable pub get_integer : Database → Cursor → ℕ → Option (ℕ × Database)
unfolding find_record put_cell
get_integer db c which = if c.eof then some (0, db) else elim (find_record c.recno db.records) [
  | none ↦ some (0, db)
  | some w ↦ elim (get_elem? w which) [
    | none ↦ none
    | some v ↦
        some (int_of v, record db { records = put_cell c.recno which (kept_int v) db.records })
  ]
]

-- What `GetString` finds in a value.
unfoldable pub text_of : FieldValue → Bytes
text_of v = if v.svalid then v.s else if v.ivalid && not (v.i == 0) then print v.i else []

unfoldable pub get_string : Database → Cursor → ℕ → Option Bytes
unfolding find_record
get_string db c which = if c.eof then some [] else elim (find_record c.recno db.records) [
  | none ↦ some []
  | some w ↦ elim (get_elem? w which) [ none ↦ none | some v ↦ some (text_of v) ]
]

-- The key under which a value stands in an index, if it does.
abbrev pub old_int : FieldValue → Option ℕ
old_int v = if v.ivalid then some v.i else none

abbrev pub old_text : FieldValue → Option Bytes
old_text v = if v.svalid then some v.s else none

module _ {K : Type 0} ⦃key : Key K⦄ where
  unfoldable pub unindex : Option K → ℕ → Index K → Index K
  unfolding index_remove
  unindex none r m = m
  unindex (some k) r m = index_remove k r m

  unfoldable pub reindex : Option K → K → ℕ → Index K → Index K
  unfolding index_add unindex
  reindex old k r m = index_add k r (unindex old r m)

-- The value that `SetString` leaves.
unfoldable pub string_value : ℕ → Bytes → FieldValue → FieldValue
string_value flags text v =
    if is_int flags
    then record { s = print (strtoul text); i = strtoul text; svalid = true; ivalid = true }
    else record { s = text; i = v.i; svalid = true; ivalid = false }

unfoldable pub store_string : Database → ℕ → ℕ → ℕ → Bytes → FieldValue → Database
unfolding put_cell
store_string db r which flags text v = record db {
  records = put_cell r which (string_value flags text v) db.records;
  stringindexes =
      if is_indexed flags && not (is_int flags)
      then set db.stringindexes which
          (reindex (old_text v) text r (index_at db.stringindexes which))
      else db.stringindexes;
  intindexes =
      if is_indexed flags && is_int flags
      then set db.intindexes which
          (reindex (old_int v) (strtoul text) r (index_at db.intindexes which))
      else db.intindexes;
}

unfoldable pub set_string : Database → Cursor → ℕ → Bytes → Option (ℕ × Database)
unfolding find_record
set_string db c which text =
    if c.eof then some (enoent, db) else elim (find_record c.recno db.records) [
      | none ↦ some (enoent, db)
      | some w ↦ do
        v ← get_elem? w which
        flags ← get_elem? db.fields which
        (if v.svalid && same_text v.s text
            then some (0, db)
            else some (0, store_string db c.recno which flags text v))
    ]

-- The value that `SetInteger` leaves.
unfoldable pub integer_value : ℕ → ℕ → FieldValue → FieldValue
integer_value flags n v =
    if is_indexed flags && is_string flags
    then record { s = print n; i = n; svalid = true; ivalid = true }
    else record { s = v.s; i = n; svalid = false; ivalid = true }

unfoldable pub store_integer : Database → ℕ → ℕ → ℕ → ℕ → FieldValue → Database
unfolding put_cell
store_integer db r which flags n v = record db {
  records = put_cell r which (integer_value flags n v) db.records;
  stringindexes =
      if is_indexed flags && is_string flags
      then set db.stringindexes which
          (reindex (old_text v) (print n) r (index_at db.stringindexes which))
      else db.stringindexes;
  intindexes =
      if is_indexed flags && not (is_string flags)
      then set db.intindexes which (reindex (old_int v) n r (index_at db.intindexes which))
      else db.intindexes;
}

unfoldable pub set_integer : Database → Cursor → ℕ → ℕ → Option (ℕ × Database)
unfolding find_record
set_integer db c which n =
    if c.eof then some (enoent, db) else elim (find_record c.recno db.records) [
      | none ↦ some (enoent, db)
      | some w ↦ do
        v ← get_elem? w which
        flags ← get_elem? db.fields which
        some (0, store_integer db c.recno which flags n v)
    ]

-- `m_data[m_next_recno++].resize(m_nfields)`: a record that is there already stays.
unfoldable pub add_record : Database → Cursor → ℕ × Database × Cursor
unfolding find_record new_record
add_record db c = (
  0,
  record db {
    next_recno = add32 db.next_recno 1;
    records = elim (find_record db.next_recno db.records) [
      | none ↦ new_record db.next_recno (replicate db.nfields blank) db.records
      | some w ↦ db.records
    ];
  },
  record { recno = db.next_recno; eof = false },
)

-- Takes one value of a record out of the index of its field.
unfoldable pub unindex_value : Database → ℕ → ℕ → ℕ → FieldValue → Database
unindex_value db r f flags v = record db {
  stringindexes =
      if is_indexed flags && is_string flags
      then set db.stringindexes f (unindex (old_text v) r (index_at db.stringindexes f))
      else db.stringindexes;
  intindexes =
      if is_indexed flags && not (is_string flags)
      then set db.intindexes f (unindex (old_int v) r (index_at db.intindexes f))
      else db.intindexes;
}

-- The loop over the fields, with `n` of them left from `f` on.
unfoldable pub unindex_fields : ℕ → ℕ → Fields → ℕ → Database → Option Database
unindex_fields zero f w r db = some db
unindex_fields (suc n) f w r db = do
  flags ← get_elem? db.fields f
  v ← get_elem? w f
  unindex_fields n (f + 1) w r (unindex_value db r f flags v)

-- `Delete`, before it calls `MoveNext`.
unfoldable pub delete_record : Database → Cursor → Option (ℕ × Database)
unfolding find_record unindex_fields erase_record
delete_record db c = if c.eof then some (enoent, db) else elim (find_record c.recno db.records) [
  | none ↦ some (enoent, db)
  | some w ↦ do
    db' ← unindex_fields db.nfields 0 w c.recno db
    some (0, record db' { records = erase_record c.recno db'.records })
]
