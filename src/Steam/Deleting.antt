-- ===== src/Steam/Deleting.antt =====
-- libdbsteam/rs.cpp: `Delete` on a valid database, for every position of the recordset.
use chorale.Base.{
  ℕ, zero, suc, ◌+◌, ◌<◌, ◌≤◌, ◌≡◌, refl, sym, ◌∙◌, ap, Bool, true, false, not, ◌&&◌, some, List,
  length, get_elem?, ◌==◌, arith, Bool-cases, Option-cases, inl, inr, length-set, get_elem?-none,
  subst,
}
use chorale.Steam.Keys.{nat_key, text_key}
use chorale.Steam.State.{
  Database, Cursor, FieldValue, Fields, is_indexed, is_string, cell, find_record, index_at,
  erase_record,
}
use chorale.Steam.Access.{
  old_int, old_text, unindex_value, unindex_fields, delete_record, enoent, unindex,
}
use chorale.Steam.Records.{find_record-erase_record, cell-erase_record}
use chorale.Steam.Agrees.{
  Agrees, AgreesBut, AgreesBut-step, AgreesBut-skip, AgreesBut-start, AgreesBut-end,
}
use chorale.Steam.Valid.{IsValid, int_field, text_field, int_field-at, text_field-at}
use chorale.Base.{Gives}
use chorale.Steam.Methods.{field_value, field_flags}

-- The database while `Delete` takes the values of the record `r` out of the indexes, as far as the field `f`.
record Unindexed (r f : ℕ) (db start : Database) : Type 0 where
  same_records : db.records ≡ start.records
  same_fields : db.fields ≡ start.fields
  same_nfields : db.nfields ≡ start.nfields
  text_count : length db.stringindexes ≡ start.nfields
  int_count : length db.intindexes ≡ start.nfields
  ints : AgreesBut (int_field start.fields) old_int r f start.records db.intindexes
  texts : AgreesBut (text_field start.fields) old_text r f start.records db.stringindexes

unindex_value-Unindexed :
    (start : Database) (r f flags : ℕ) (v : FieldValue) (db : Database)
    → f < start.nfields
    → cell start.records r f ≡ some v
    → get_elem? start.fields f ≡ some flags
    → Unindexed r f db start
    → Unindexed r (f + 1) (unindex_value db r f flags v) start
unfolding unindex_value
unindex_value-Unindexed start r f flags v db room there field u = record {
  same_records = u.same_records;
  same_fields = u.same_fields;
  same_nfields = u.same_nfields;
  text_count = ground (
    arith,
    u.text_count,
    length-set db.stringindexes f (unindex (old_text v) r (index_at db.stringindexes f)),
  );
  int_count = ground (
    arith,
    u.int_count,
    length-set db.intindexes f (unindex (old_int v) r (index_at db.intindexes f)),
  );
  ints = elim (Bool-cases (is_indexed flags && not (is_string flags))) [
    | inl on ↦ rw on (
        AgreesBut-step (int_field start.fields) old_int start.records db.intindexes r f v u.ints
          there (ground (arith, u.int_count, room)) (int_field-at start.fields f flags field ∙ on))
    | inr off ↦ rw off (
        AgreesBut-skip (int_field start.fields) old_int start.records db.intindexes r f u.ints
          (int_field-at start.fields f flags field ∙ off))
  ];
  texts = elim (Bool-cases (is_indexed flags && is_string flags)) [
    | inl on ↦ rw on (
        AgreesBut-step (text_field start.fields) old_text start.records db.stringindexes r f v
          u.texts there (ground (arith, u.text_count, room))
          (text_field-at start.fields f flags field ∙ on))
    | inr off ↦ rw off (
        AgreesBut-skip (text_field start.fields) old_text start.records db.stringindexes r f u.texts
          (text_field-at start.fields f flags field ∙ off))
  ];
}

unindex_fields-Unindexed :
    (n f last : ℕ) (w : Fields) (r : ℕ) (db start : Database)
    → IsValid start
    → find_record r start.records ≡ some w
    → f + n ≡ last
    → last ≡ start.nfields
    → Unindexed r f db start
    → Gives (unindex_fields n f w r db) (λ d. Unindexed r last d start)
unfolding unindex_fields
unindex_fields-Unindexed zero f last w r db start valid there e m u =
    let all : f ≡ last = omega (arith, e) in (db, refl, rw (← all) u)
unindex_fields-Unindexed (suc n) f last w r db start valid there e m u =
    let (v, at_field, at_cell) = field_value start r f w valid (omega (arith, e, m)) there in
    let (flags, g) = field_flags start r f w valid (omega (arith, e, m)) there in
    let here : get_elem? db.fields f ≡ some flags = ap (λ l. get_elem? l f) u.same_fields ∙ g in
    rw (here, at_field)
      (unindex_fields-Unindexed n (f + 1) last w r (unindex_value db r f flags v) start valid there
        (omega (arith, e)) m
        (unindex_value-Unindexed start r f flags v db (omega (arith, e, m)) at_cell g u))

out_of_fields :
    (db : Database) (g : ℕ)
    → IsValid db
    → db.nfields ≤ g
    → (int_field db.fields g ≡ false) × (text_field db.fields g ≡ false)
unfolding int_field text_field
out_of_fields db g valid h =
    ground (arith, get_elem?-none db.fields g (omega (arith, valid.field_count, h)))

Unindexed-start : (db : Database) (r : ℕ) → IsValid db → Unindexed r 0 db db
Unindexed-start db r valid = record {
  same_records = refl;
  same_fields = refl;
  same_nfields = refl;
  text_count = valid.text_count;
  int_count = valid.int_count;
  ints = AgreesBut-start (int_field db.fields) old_int db.records db.intindexes r valid.ints;
  texts = AgreesBut-start (text_field db.fields) old_text db.records db.stringindexes r valid.texts;
}

widths-erase_record :
    (n r q : ℕ) (m : List (ℕ × Fields)) (w : Fields)
    → ((p : ℕ) (u : Fields) → find_record p m ≡ some u → length u ≡ n)
    → find_record q (erase_record r m) ≡ some w
    → length w ≡ n
widths-erase_record n r q m w all h = elim (Bool-cases (q == r)) [
  | inl here ↦ absurd (ground (arith, here, h, find_record-erase_record q r m))
  | inr other ↦ all q w (ground (arith, other, h, find_record-erase_record q r m))
]

parsed-erase_record :
    (on : ℕ → Bool) (m : List (ℕ × Fields)) (r : ℕ)
    → ((p g : ℕ) (x : FieldValue)
        → cell m p g ≡ some x
        → on g ≡ true
        → x.svalid ≡ true
        → x.ivalid ≡ true)
    → (p g : ℕ) (x : FieldValue) → cell (erase_record r m) p g ≡ some x
    → on g ≡ true
    → x.svalid ≡ true
    → x.ivalid ≡ true
parsed-erase_record on m r all p g x h o s = elim (Bool-cases (p == r)) [
  | inl here ↦ absurd (ground (arith, here, h, cell-erase_record p r g m))
  | inr other ↦ all p g x (ground (arith, other, h, cell-erase_record p r g m)) o s
]

-- The loop is done, and the record goes.
Unindexed-end :
    (db : Database) (r : ℕ) (d : Database)
    → IsValid db
    → Unindexed r db.nfields d db
    → IsValid (record d { records = erase_record r d.records })
Unindexed-end db r d valid u = record {
  field_count = ap length u.same_fields ∙ valid.field_count ∙ sym u.same_nfields;
  text_count = u.text_count ∙ sym u.same_nfields;
  int_count = u.int_count ∙ sym u.same_nfields;
  known = λ f flags h. valid.known f flags (ap (λ l. get_elem? l f) (sym u.same_fields) ∙ h);
  widths = λ q w h.
      widths-erase_record db.nfields r q db.records w valid.widths
        (ap (λ m. find_record q (erase_record r m)) (sym u.same_records) ∙ h)
      ∙ sym u.same_nfields;
  ints =
      subst (λ l. Agrees (int_field l) old_int (erase_record r d.records) d.intindexes)
        (sym u.same_fields)
        (subst (λ m. Agrees (int_field db.fields) old_int (erase_record r m) d.intindexes)
          (sym u.same_records)
          (AgreesBut-end (int_field db.fields) old_int db.records d.intindexes r db.nfields u.ints
            (λ g h. (out_of_fields db g valid h).0)));
  texts =
      subst (λ l. Agrees (text_field l) old_text (erase_record r d.records) d.stringindexes)
        (sym u.same_fields)
        (subst (λ m. Agrees (text_field db.fields) old_text (erase_record r m) d.stringindexes)
          (sym u.same_records)
          (AgreesBut-end (text_field db.fields) old_text db.records d.stringindexes r db.nfields
            u.texts (λ g h. (out_of_fields db g valid h).1)));
  parsed = λ p g x h o.
      parsed-erase_record (int_field db.fields) db.records r valid.parsed p g x
        (ap (λ m. cell (erase_record r m) p g) (sym u.same_records) ∙ h)
        (ap (λ l. int_field l g) (sym u.same_fields) ∙ o);
}

pub delete_record-IsValid :
    (db : Database) (c : Cursor) → IsValid db → Gives (delete_record db c) (λ r. IsValid r.1)
unfolding delete_record
delete_record-IsValid db c valid = elim (Bool-cases c.eof) [
  | inl ended ↦ rw ended ((enoent, db), refl, valid)
  | inr open_row ↦ elim (Option-cases (find_record c.recno db.records)) [
    | inl absent ↦ rw (open_row, absent) ((enoent, db), refl, valid)
    | inr (w, there) ↦
        let (d, e, u) =
          unindex_fields-Unindexed db.nfields 0 db.nfields w c.recno db db valid there (omega arith)
            refl (Unindexed-start db c.recno valid) in
        rw (open_row, there, e)
          (
            (0, record d { records = erase_record c.recno d.records }),
            refl,
            Unindexed-end db c.recno d valid u,
          )
  ]
]
