-- ===== src/Steam/History.antt =====
-- libdbsteam/db.h, db.cpp and rs.cpp: any history of a database, from its constructor on, of calls that name existing
-- fields, with `SetFieldInfo` only while there are no records. Each call of a recordset comes from any position, also one
-- that another recordset has made stale.
use chorale.Base.{ℕ, ◌<◌, ◌≡◌, refl, sym, ◌∙◌, Option, some, List, [], Bytes, All, ◌>>=◌, subst}
use mathlib.Core.Option.{some-injective}
use chorale.Steam.Keys.{nat_key, text_key}
use chorale.Steam.State.{Database, Cursor, new_database, set_field_info}
use chorale.Steam.Access.{
  get_integer, set_string, set_integer, add_record, delete_record, old_int, old_text,
}
use chorale.Steam.Agrees.{Agrees}
use chorale.Steam.Valid.{IsValid, int_field, text_field}
use chorale.Steam.Deleting.{delete_record-IsValid}
use chorale.Base.{Gives}
use chorale.Steam.Methods.{
  set_integer-IsValid, set_string-IsValid, get_integer-IsValid, add_record-IsValid,
}
use chorale.Steam.Created.{KnownType, new_database-IsValid, set_field_info-IsValid}

pub data Op : Type 0 where
  gets_integer : Cursor → ℕ → Op
  sets_string : Cursor → ℕ → Bytes → Op
  sets_integer : Cursor → ℕ → ℕ → Op
  adds_record : Cursor → Op
  deletes : Cursor → Op
  sets_field_info : ℕ → ℕ → Op

-- The database after a call.
unfoldable pub perform : Op → Database → Option Database
unfolding set_field_info
perform (gets_integer c f) db = do r ← get_integer db c f; some r.1
perform (sets_string c f s) db = do r ← set_string db c f s; some r.1
perform (sets_integer c f n) db = do r ← set_integer db c f n; some r.1
perform (adds_record c) db = some (add_record db c).1
perform (deletes c) db = do r ← delete_record db c; some r.1
perform (sets_field_info which flags) db = set_field_info which flags db

-- What a caller has to respect: a field that exists; and `SetFieldInfo` with flags that name one of the two types, only
-- while there are no records.
abbrev pub InRange : Op → Database → Type 0
InRange (gets_integer c f) db = f < db.nfields
InRange (sets_string c f s) db = f < db.nfields
InRange (sets_integer c f n) db = f < db.nfields
InRange (adds_record c) db = Unit
InRange (deletes c) db = Unit
InRange (sets_field_info which flags) db =
    (which < db.nfields) × KnownType (which, flags) × (db.records ≡ [])

pub data Reach (nfields : ℕ) (infos : List (ℕ × ℕ)) : Database → Type 0 where
  start : {db : Database} → new_database nfields infos ≡ some db → Reach nfields infos db
  next :
      {db db' : Database} (op : Op)
      → Reach nfields infos db
      → InRange op db
      → perform op db ≡ some db'
      → Reach nfields infos db'

pub perform-IsValid :
    (op : Op) (db : Database) → IsValid db → InRange op db → Gives (perform op db) IsValid
unfolding perform
perform-IsValid (gets_integer c f) db v h =
    let (r, e, v') = get_integer-IsValid db c f v h in rw e (r.1, refl, v')
perform-IsValid (sets_string c f s) db v h =
    let (r, e, v') = set_string-IsValid db c f s v h in rw e (r.1, refl, v')
perform-IsValid (sets_integer c f n) db v h =
    let (r, e, v') = set_integer-IsValid db c f n v h in rw e (r.1, refl, v')
perform-IsValid (adds_record c) db v h = ((add_record db c).1, refl, add_record-IsValid db c v)
perform-IsValid (deletes c) db v h =
    let (r, e, v') = delete_record-IsValid db c v in rw e (r.1, refl, v')
perform-IsValid (sets_field_info which flags) db v (room, known, empty) =
    set_field_info-IsValid which flags db v room known empty

pub reached-IsValid :
    (nfields : ℕ) (infos : List (ℕ × ℕ)) {db : Database}
    → All KnownType infos
    → Reach nfields infos db
    → IsValid db
reached-IsValid n infos h (start made) = new_database-IsValid n infos h made
reached-IsValid n infos h (next {db} {db'} op reached allowed done) =
    let (d, e, v) = perform-IsValid op db (reached-IsValid n infos h reached) allowed in
    subst IsValid (some-injective _ _ (sym e ∙ done)) v

-- Where the flags given to the constructor, and to `SetFieldInfo`, name one of the two types, and `SetFieldInfo` is called
-- only while there are no records: after any history of calls that name existing fields, each index lists a record under
-- a value exactly where the record holds that value and the field has such an index; and no further such call faults.
pub Reach-indexes :
    (nfields : ℕ) (infos : List (ℕ × ℕ)) {db : Database}
    → All KnownType infos
    → Reach nfields infos db
    → Agrees (int_field db.fields) old_int db.records db.intindexes
      × Agrees (text_field db.fields) old_text db.records db.stringindexes
      × ((op : Op) → InRange op db → Gives (perform op db) IsValid)
Reach-indexes n infos {db} h reached =
    let v = reached-IsValid n infos h reached in
    (v.ints, v.texts, λ op allowed. perform-IsValid op db v allowed)
