-- ===== src/Steam/State.antt =====
-- libdbsteam/db.h: the members of `Database`, and the position of a recordset in it.
use chorale.Base.{
  ℕ, ◌/◌, ◌%◌, Bool, false, Option, none, some, List, [], ◌∷◌, Bytes, get_elem?, set, replicate,
  length, ltb, ◌==◌, if◌then◌else◌, ◌>>=◌,
}
use chorale.Steam.Index.{Index}

-- The flags of a field: FIELD_INT is 1, FIELD_TYPEMASK 7 and FIELD_INDEXED 8.
abbrev pub is_indexed : ℕ → Bool
is_indexed flags = flags / 8 % 2 == 1

abbrev pub is_int : ℕ → Bool
is_int flags = flags % 8 == 1

abbrev pub is_string : ℕ → Bool
is_string flags = flags % 8 == 0

pub record FieldValue : Type 0 where
  pub s : Bytes
  pub i : ℕ
  pub svalid : Bool
  pub ivalid : Bool

abbrev pub blank : FieldValue
blank = record { s = []; i = 0; svalid = false; ivalid = false }

abbrev pub Fields : Type 0
Fields = List FieldValue

-- `records` is `m_data`, in the order of the record numbers.
pub record Database : Type 0 where
  pub nfields : ℕ
  pub next_recno : ℕ
  pub fields : List ℕ
  pub records : List (ℕ × Fields)
  pub stringindexes : List (Index Bytes)
  pub intindexes : List (Index ℕ)

-- `Recordset`: `m_record` and `m_eof`.
pub record Cursor : Type 0 where
  pub recno : ℕ
  pub eof : Bool

-- The array of (`which`, `flags`) that the constructor takes, up to its end mark.
-- `none`: a field that does not exist.
unfoldable pub set_field_infos : List (ℕ × ℕ) → List ℕ → Option (List ℕ)
set_field_infos [] fields = some fields
set_field_infos ((which, flags) ∷ infos) fields =
    let rest = set_field_infos infos (set fields which flags) in
    if ltb which (length fields) then rest else none

unfoldable pub new_database : ℕ → List (ℕ × ℕ) → Option Database
unfolding set_field_infos
new_database nfields infos = do
  fields ← set_field_infos infos (replicate nfields 0)
  some record {
    nfields = nfields;
    next_recno = 0;
    fields = fields;
    records = [];
    stringindexes = replicate nfields [];
    intindexes = replicate nfields [];
  }

-- `SetFieldInfo`. `none`: a field that does not exist.
unfoldable pub set_field_info : ℕ → ℕ → Database → Option Database
set_field_info which flags db =
    if ltb which (length db.fields)
    then some (record db { fields = set db.fields which flags })
    else none

-- `m_data.find(r)`
unfoldable pub find_record : ℕ → List (ℕ × Fields) → Option Fields
find_record r [] = none
find_record r ((q, v) ∷ m) = let rest = find_record r m in if r == q then some v else rest

-- The first record, in the order of the map, whose number is greater: `m_data.upper_bound(r)`.
unfoldable pub upper_bound : ℕ → List (ℕ × Fields) → Option ℕ
upper_bound r [] = none
upper_bound r ((q, v) ∷ m) = let rest = upper_bound r m in if ltb r q then some q else rest

-- The record with a new content, where it is there.
unfoldable pub put_record : ℕ → Fields → List (ℕ × Fields) → List (ℕ × Fields)
put_record r w [] = []
put_record r w ((q, v) ∷ m) =
    let rest = put_record r w m in if r == q then (q, w) ∷ m else (q, v) ∷ rest

-- A new record, in its place.
unfoldable pub new_record : ℕ → Fields → List (ℕ × Fields) → List (ℕ × Fields)
new_record r w [] = (r, w) ∷ []
new_record r w ((q, v) ∷ m) =
    let rest = new_record r w m in if ltb r q then (r, w) ∷ (q, v) ∷ m else (q, v) ∷ rest

unfoldable pub erase_record : ℕ → List (ℕ × Fields) → List (ℕ × Fields)
erase_record r [] = []
erase_record r ((q, v) ∷ m) = let rest = erase_record r m in if r == q then rest else (q, v) ∷ rest

-- The value of a field of a record.
unfoldable pub cell : List (ℕ × Fields) → ℕ → ℕ → Option FieldValue
unfolding find_record
cell m r f = do w ← find_record r m; get_elem? w f

-- The record with one value changed.
unfoldable pub put_cell : ℕ → ℕ → FieldValue → List (ℕ × Fields) → List (ℕ × Fields)
unfolding find_record put_record
put_cell r f v m = elim (find_record r m) [ none ↦ m | some w ↦ put_record r (set w f v) m ]

-- The index of a field.
unfoldable pub index_at {ℓ} : {K : Type ℓ} → List (Index K) → ℕ → Index K
index_at xs f = elim (get_elem? xs f) [ none ↦ [] | some m ↦ m ]
