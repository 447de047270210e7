-- ===== src/Steam/Valid.antt =====
-- libdbsteam/db.h and rs.cpp: the invariant of the database, and that every method keeps it.
use mathlib.Core.Option.{some-injective}
use chorale.Base.{
  ℕ, ◌<◌, ◌≡◌, sym, ◌∙◌, ap, Bool, true, false, not, ◌&&◌, none, some, List, Bytes, length,
  get_elem?, set, ◌==◌, if◌then◌else◌, arith, Bool-cases, Option-cases, inl, inr, ◌⊎◌, ==_iff,
  length-set, lt_of_get_elem?, if_true,
}
use chorale.Steam.Keys.{nat_key, text_key}
use chorale.Steam.Numbers.{print, strtoul}
use chorale.Steam.State.{
  Database, FieldValue, Fields, is_indexed, is_int, is_string, cell, put_cell, find_record,
  index_at,
}
use chorale.Steam.Access.{
  kept_int, old_int, old_text, string_value, store_string, integer_value, store_integer, reindex,
}
use chorale.Steam.Records.{find_record-put_record, cell-put_cell}
use chorale.Steam.Agrees.{Agrees, Agrees-write, Agrees-put}

-- Does the field have an index by number, or by text?
unfoldable pub int_field : List ℕ → ℕ → Bool
int_field fields f = elim (get_elem? fields f) [
  | none ↦ false
  | some flags ↦ is_indexed flags && not (is_string flags)
]

unfoldable pub text_field : List ℕ → ℕ → Bool
text_field fields f = elim (get_elem? fields f) [
  | none ↦ false
  | some flags ↦ is_indexed flags && is_string flags
]

-- The vectors have a place for each field, each field is a string or a number, both kinds of index agree with the
-- records, and a value with an index by number that is valid as text is valid as a number.
pub record IsValid (db : Database) : Type 0 where
  pub field_count : length db.fields ≡ db.nfields
  pub text_count : length db.stringindexes ≡ db.nfields
  pub int_count : length db.intindexes ≡ db.nfields
  pub known :
      (f flags : ℕ) → get_elem? db.fields f ≡ some flags → is_int flags ≡ not (is_string flags)
  pub widths : (r : ℕ) (w : Fields) → find_record r db.records ≡ some w → length w ≡ db.nfields
  pub ints : Agrees (int_field db.fields) old_int db.records db.intindexes
  pub texts : Agrees (text_field db.fields) old_text db.records db.stringindexes
  pub parsed :
      (r f : ℕ) (v : FieldValue)
      → cell db.records r f ≡ some v
      → int_field db.fields f ≡ true
      → v.svalid ≡ true
      → v.ivalid ≡ true

widths-put_cell :
    (n r f q : ℕ) (v : FieldValue) (m : List (ℕ × Fields)) (w : Fields)
    → ((p : ℕ) (u : Fields) → find_record p m ≡ some u → length u ≡ n)
    → find_record q (put_cell r f v m) ≡ some w
    → length w ≡ n
unfolding put_cell
widths-put_cell n r f q v m w all h = elim (Option-cases (find_record r m)) [
  | inl absent ↦ all q w (ground (arith, absent))
  | inr (u, there) ↦ elim (Bool-cases (q == r)) [
    | inl here ↦ ground (
      arith,
      there,
      here,
      find_record-put_record q r (set u f v) u m there,
      all r u there,
      length-set u f v,
    )
    | inr other ↦
        all q w (ground (arith, there, other, find_record-put_record q r (set u f v) u m there))
  ]
]

parsed-put_cell :
    (on : ℕ → Bool) (m : List (ℕ × Fields)) (r f : ℕ) (u v : FieldValue)
    → ((p g : ℕ) (x : FieldValue)
        → cell m p g ≡ some x
        → on g ≡ true
        → x.svalid ≡ true
        → x.ivalid ≡ true)
    → cell m r f ≡ some u
    → (on f ≡ true → v.svalid ≡ true → v.ivalid ≡ true)
    → (p g : ℕ) (x : FieldValue) → cell (put_cell r f v m) p g ≡ some x
    → on g ≡ true
    → x.svalid ≡ true
    → x.ivalid ≡ true
parsed-put_cell on m r f u v all e new p g x h o s = elim (Bool-cases ((p == r) && (g == f))) [
  | inr other ↦ all p g x (ground (arith, cell-put_cell p r g f v m e, other)) o s
  | inl here ↦
      let same : v ≡ x =
        some-injective _ _ (sym (cell-put_cell p r g f v m e ∙ if_true _ _ here) ∙ h) in
      let at_field : on f ≡ true = ground (arith, o, here, ==_iff g f) in
      rw (← same) (new at_field (rw same s))
]

pub int_field-at :
    (fields : List ℕ) (f flags : ℕ)
    → get_elem? fields f ≡ some flags
    → int_field fields f ≡ (is_indexed flags && not (is_string flags))
unfolding int_field
int_field-at fields f flags h = ground (arith, h)

pub text_field-at :
    (fields : List ℕ) (f flags : ℕ)
    → get_elem? fields f ≡ some flags
    → text_field fields f ≡ (is_indexed flags && is_string flags)
unfolding text_field
text_field-at fields f flags h = ground (arith, h)

module _ (db : Database) (r f flags : ℕ) (v : FieldValue) (valid : IsValid db)
    (there : cell db.records r f ≡ some v) (field : get_elem? db.fields f ≡ some flags) where
  in_range : f < db.nfields
  in_range = ground (arith, valid.field_count, lt_of_get_elem? db.fields f field)

  -- The new value is a string by number exactly as its index is changed.
  store-ints :
      (v' : FieldValue) (n : ℕ)
      → (is_indexed flags && not (is_string flags) ≡ true → old_int v' ≡ some n)
      → Agrees (int_field db.fields) old_int (put_cell r f v' db.records) (
          if is_indexed flags && not (is_string flags)
          then set db.intindexes f (reindex (old_int v) n r (index_at db.intindexes f))
          else db.intindexes)
  store-ints v' n new = elim (Bool-cases (is_indexed flags && not (is_string flags))) [
    | inl on ↦ rw on (
        Agrees-write (int_field db.fields) old_int db.records db.intindexes r f v v' n valid.ints
          there (ground (arith, valid.int_count, in_range))
          (int_field-at db.fields f flags field ∙ on) (new on))
    | inr off ↦ rw off (
        Agrees-put (int_field db.fields) old_int db.records db.intindexes r f v v' valid.ints there
          (inl (int_field-at db.fields f flags field ∙ off)))
  ]

  store-texts :
      (v' : FieldValue) (text : Bytes)
      → (is_indexed flags && is_string flags ≡ true → old_text v' ≡ some text)
      → Agrees (text_field db.fields) old_text (put_cell r f v' db.records) (
          if is_indexed flags && is_string flags
          then set db.stringindexes f (reindex (old_text v) text r (index_at db.stringindexes f))
          else db.stringindexes)
  store-texts v' text new = elim (Bool-cases (is_indexed flags && is_string flags)) [
    | inl on ↦ rw on (
        Agrees-write (text_field db.fields) old_text db.records db.stringindexes r f v v' text
          valid.texts there (ground (arith, valid.text_count, in_range))
          (text_field-at db.fields f flags field ∙ on) (new on))
    | inr off ↦ rw off (
        Agrees-put (text_field db.fields) old_text db.records db.stringindexes r f v v' valid.texts
          there (inl (text_field-at db.fields f flags field ∙ off)))
  ]

  kept_text : old_text (kept_int v) ≡ old_text v
  unfolding kept_int
  kept_text = ground arith

  kept_parsed : (kept_int v).svalid ≡ true → (kept_int v).ivalid ≡ true
  unfolding kept_int
  kept_parsed s = ground (arith, s)

  kept_old : (int_field db.fields f ≡ false) ⊎ (old_int (kept_int v) ≡ old_int v)
  unfolding kept_int
  kept_old = elim (Bool-cases (int_field db.fields f)) [
    | inr off ↦ inl off
    | inl on ↦ inr (ground (arith, valid.parsed r f v there on))
  ]

  pub store_integer-IsValid : (n : ℕ) → IsValid (store_integer db r f flags n v)
  unfolding store_integer integer_value
  store_integer-IsValid n = record {
    field_count = valid.field_count;
    text_count = ground (
      arith,
      valid.text_count,
      length-set db.stringindexes f
          (reindex (old_text v) (print n) r (index_at db.stringindexes f)),
    );
    int_count = ground (
      arith,
      valid.int_count,
      length-set db.intindexes f (reindex (old_int v) n r (index_at db.intindexes f)),
    );
    known = valid.known;
    widths =
        λ q w. widths-put_cell db.nfields r f q (integer_value flags n v) db.records w valid.widths;
    ints = store-ints (integer_value flags n v) n (λ on. ground (arith, on));
    texts = store-texts (integer_value flags n v) (print n) (λ on. ground (arith, on));
    parsed =
        parsed-put_cell (int_field db.fields) db.records r f v (integer_value flags n v)
          valid.parsed there (λ on s. ground (arith, on));
  }

  kind : (is_indexed flags && is_int flags) ≡ (is_indexed flags && not (is_string flags))
  kind = ap (λ b. is_indexed flags && b) (valid.known f flags field)

  text_kind : (is_indexed flags && not (is_int flags)) ≡ (is_indexed flags && is_string flags)
  text_kind = ground (arith, valid.known f flags field)

  new_int :
      (text : Bytes)
      → (is_indexed flags && not (is_string flags)) ≡ true
      → old_int (string_value flags text v) ≡ some (strtoul text)
  unfolding string_value
  new_int text on = ground (arith, on, valid.known f flags field)

  new_text :
      (text : Bytes)
      → (is_indexed flags && is_string flags) ≡ true
      → old_text (string_value flags text v) ≡ some text
  unfolding string_value
  new_text text on = ground (arith, on, valid.known f flags field)

  new_parsed :
      (text : Bytes) → int_field db.fields f ≡ true → (string_value flags text v).ivalid ≡ true
  unfolding string_value
  new_parsed text on =
      ground (arith, on, valid.known f flags field, int_field-at db.fields f flags field)

  pub store_string-IsValid : (text : Bytes) → IsValid (store_string db r f flags text v)
  unfolding store_string
  store_string-IsValid text = record {
    field_count = valid.field_count;
    text_count = ground (
      arith,
      valid.text_count,
      length-set db.stringindexes f (reindex (old_text v) text r (index_at db.stringindexes f)),
    );
    int_count = ground (
      arith,
      valid.int_count,
      length-set db.intindexes f (reindex (old_int v) (strtoul text) r (index_at db.intindexes f)),
    );
    known = valid.known;
    widths = λ q w.
        widths-put_cell db.nfields r f q (string_value flags text v) db.records w valid.widths;
    ints = rw kind (store-ints (string_value flags text v) (strtoul text) (new_int text));
    texts = rw text_kind (store-texts (string_value flags text v) text (new_text text));
    parsed =
        parsed-put_cell (int_field db.fields) db.records r f v (string_value flags text v)
          valid.parsed there (λ on s. new_parsed text on);
  }

  pub kept_int-IsValid : IsValid (record db { records = put_cell r f (kept_int v) db.records })
  kept_int-IsValid = record {
    field_count = valid.field_count;
    text_count = valid.text_count;
    int_count = valid.int_count;
    known = valid.known;
    widths = λ q w. widths-put_cell db.nfields r f q (kept_int v) db.records w valid.widths;
    ints =
        Agrees-put (int_field db.fields) old_int db.records db.intindexes r f v (kept_int v)
          valid.ints there kept_old;
    texts =
        Agrees-put (text_field db.fields) old_text db.records db.stringindexes r f v (kept_int v)
          valid.texts there (inr kept_text);
    parsed =
        parsed-put_cell (int_field db.fields) db.records r f v (kept_int v) valid.parsed there
          (λ on s. kept_parsed s);
  }
