-- ===== src/Steam/Methods.antt =====
-- libdbsteam/rs.cpp: each method of `Recordset` on a valid database, for every position of the recordset.
use mathlib.Core.Option.{some-injective}
use chorale.Base.{Gives}
use chorale.Base.{
  ℕ, ◌<◌, ◌≡◌, refl, sym, ◌∙◌, ap, Bool, true, false, ◌&&◌, none, some, List, Bytes, get_elem?,
  replicate, ◌==◌, same_text, arith, Bool-cases, Option-cases, inl, inr, length-replicate,
  get_elem?-lt, if_true, ◌≢◌,
}
use chorale.Steam.Keys.{nat_key, text_key}
use chorale.Steam.State.{
  Database, Cursor, FieldValue, Fields, blank, cell, put_cell, find_record, new_record,
}
use chorale.Steam.Access.{
  int_of, kept_int, get_integer, old_int, old_text, store_string, set_string, store_integer,
  set_integer, add_record, enoent,
}
use chorale.Steam.Records.{find_record-new_record, cell-new_record, get_elem?-replicate-none}
use chorale.Steam.Agrees.{Agrees-new_record}
use chorale.Steam.Valid.{
  IsValid, int_field, text_field, store_integer-IsValid, store_string-IsValid, kept_int-IsValid,
}

false_ne_true : false ≢ true
false_ne_true h = cc

-- A record in range has a value and flags for each field.
module _ (db : Database) (r f : ℕ) (w : Fields) (valid : IsValid db) (room : f < db.nfields)
    (there : find_record r db.records ≡ some w) where
  pub field_value : (v : FieldValue) × (get_elem? w f ≡ some v) × (cell db.records r f ≡ some v)
  unfolding cell
  field_value =
      let (v, e) = get_elem?-lt w f (ground (arith, valid.widths r w there, room)) in
      (v, e, ground (arith, there, e))

  pub field_flags : (flags : ℕ) × (get_elem? db.fields f ≡ some flags)
  field_flags = get_elem?-lt db.fields f (ground (arith, valid.field_count, room))

pub set_integer-IsValid :
    (db : Database) (c : Cursor) (f n : ℕ)
    → IsValid db
    → f < db.nfields
    → Gives (set_integer db c f n) (λ r. IsValid r.1)
unfolding set_integer
set_integer-IsValid db c f n valid room = elim (Bool-cases c.eof) [
  | inl ended ↦ rw ended ((enoent, db), refl, valid)
  | inr open_row ↦ elim (Option-cases (find_record c.recno db.records)) [
    | inl absent ↦ rw (open_row, absent) ((enoent, db), refl, valid)
    | inr (w, there) ↦
        let (v, e, at_cell) = field_value db c.recno f w valid room there in
        let (flags, g) = field_flags db c.recno f w valid room there in
        rw (open_row, there, e, g)
          (
            (0, store_integer db c.recno f flags n v),
            refl,
            store_integer-IsValid db c.recno f flags v valid at_cell g n,
          )
  ]
]

pub set_string-IsValid :
    (db : Database) (c : Cursor) (f : ℕ) (text : Bytes)
    → IsValid db
    → f < db.nfields
    → Gives (set_string db c f text) (λ r. IsValid r.1)
unfolding set_string
set_string-IsValid db c f text valid room = elim (Bool-cases c.eof) [
  | inl ended ↦ rw ended ((enoent, db), refl, valid)
  | inr open_row ↦ elim (Option-cases (find_record c.recno db.records)) [
    | inl absent ↦ rw (open_row, absent) ((enoent, db), refl, valid)
    | inr (w, there) ↦
        let (v, e, at_cell) = field_value db c.recno f w valid room there in
        let (flags, g) = field_flags db c.recno f w valid room there in
        elim (Bool-cases (v.svalid && same_text v.s text)) [
          | inl same ↦ rw (open_row, there, e, g, same) ((0, db), refl, valid)
          | inr new ↦
              rw (open_row, there, e, g, new)
                (
                  (0, store_string db c.recno f flags text v),
                  refl,
                  store_string-IsValid db c.recno f flags v valid at_cell g text,
                )
        ]
  ]
]

pub get_integer-IsValid :
    (db : Database) (c : Cursor) (f : ℕ)
    → IsValid db
    → f < db.nfields
    → Gives (get_integer db c f) (λ r. IsValid r.1)
unfolding get_integer
get_integer-IsValid db c f valid room = elim (Bool-cases c.eof) [
  | inl ended ↦ rw ended ((0, db), refl, valid)
  | inr open_row ↦ elim (Option-cases (find_record c.recno db.records)) [
    | inl absent ↦ rw (open_row, absent) ((0, db), refl, valid)
    | inr (w, there) ↦
        let (v, e, at_cell) = field_value db c.recno f w valid room there in
        let (flags, g) = field_flags db c.recno f w valid room there in
        rw (open_row, there, e)
          (
            (int_of v, record db { records = put_cell c.recno f (kept_int v) db.records }),
            refl,
            kept_int-IsValid db c.recno f flags v valid at_cell g,
          )
  ]
]

-- A new record has no value that is valid.
parsed-new_record :
    (on : ℕ → Bool) (m : List (ℕ × Fields)) (r n : ℕ)
    → ((p g : ℕ) (x : FieldValue)
        → cell m p g ≡ some x
        → on g ≡ true
        → x.svalid ≡ true
        → x.ivalid ≡ true)
    → find_record r m ≡ none
    → (p g : ℕ) (x : FieldValue) → cell (new_record r (replicate n blank) m) p g ≡ some x
    → on g ≡ true
    → x.svalid ≡ true
    → x.ivalid ≡ true
parsed-new_record on m r n all absent p g x h o s = elim (Bool-cases (p == r)) [
  | inr other ↦ all p g x (ground (arith, cell-new_record p r g n m absent, other, h)) o s
  | inl here ↦ elim (get_elem?-replicate-none n g) [
    | inl out ↦ absurd (ground (arith, cell-new_record p r g n m absent, here, h, out))
    | inr inside ↦
        let same : blank ≡ x =
          some-injective _ _
            (sym inside ∙ sym (if_true _ _ here) ∙ sym (cell-new_record p r g n m absent) ∙ h) in
        absurd (false_ne_true (ap (λ v. v.svalid) same ∙ s))
  ]
]

pub add_record-IsValid : (db : Database) (c : Cursor) → IsValid db → IsValid (add_record db c).1
unfolding add_record
add_record-IsValid db c valid = elim (Option-cases (find_record db.next_recno db.records)) [
  | inr (w, there) ↦ rw there (record {
    field_count = valid.field_count;
    text_count = valid.text_count;
    int_count = valid.int_count;
    known = valid.known;
    widths = valid.widths;
    ints = valid.ints;
    texts = valid.texts;
    parsed = valid.parsed;
  })
  | inl absent ↦ rw absent (record {
    field_count = valid.field_count;
    text_count = valid.text_count;
    int_count = valid.int_count;
    known = valid.known;
    widths = λ r w h. ground (
      arith,
      valid.widths r w,
      find_record-new_record r db.next_recno (replicate db.nfields blank) db.records absent,
      length-replicate db.nfields blank,
      h,
    );
    ints =
        Agrees-new_record (int_field db.fields) old_int db.records db.intindexes db.next_recno
          db.nfields valid.ints absent refl;
    texts =
        Agrees-new_record (text_field db.fields) old_text db.records db.stringindexes db.next_recno
          db.nfields valid.texts absent refl;
    parsed =
        parsed-new_record (int_field db.fields) db.records db.next_recno db.nfields valid.parsed
          absent;
  })
]
