-- ===== src/Steam/Writing.antt =====
-- libdbsteam/rs.cpp: what `GetInteger` and `GetString` give after `SetInteger` and `SetString`.
use chorale.Base.{
  ℕ, ◌<◌, ◌≡◌, refl, sym, ◌∙◌, ap, false, not, ◌&&◌, some, List, [], Bytes, same_text, get_elem?,
  ◌==◌, if◌then◌else◌, arith, Bool-cases, inl, inr, ==_iff,
}
use chorale.Steam.Keys.{same_text_iff}
use chorale.Steam.Numbers.{print, strtoul}
use chorale.Steam.State.{
  Database, Cursor, FieldValue, Fields, is_int, is_string, is_indexed, find_record, cell, put_cell,
}
use chorale.Steam.Access.{
  set_integer, set_string, store_integer, store_string, int_of, text_of, integer_value,
  string_value,
}
use chorale.Steam.Records.{cell-put_cell}
use chorale.Steam.Valid.{IsValid, text_field, text_field-at}
use chorale.Base.{Gives}
use chorale.Steam.Methods.{field_value, field_flags}
use chorale.Steam.Views.{int_view, text_view, view}

-- A value changed in one place changes what is read there only.
view-put_cell {ℓ} :
    {A : Type ℓ} (read : FieldValue → A) (missing : A) (m : List (ℕ × Fields)) (q r g f : ℕ)
    {u : FieldValue} (v : FieldValue)
    → cell m r f ≡ some u
    → view read missing (cell (put_cell r f v m) q g)
      ≡ (if (q == r) && (g == f) then read v else view read missing (cell m q g))
view-put_cell read missing m q r g f v there = elim (Bool-cases ((q == r) && (g == f))) [
  | inl here ↦ rw (cell-put_cell q r g f v m there, here) refl
  | inr other ↦ rw (cell-put_cell q r g f v m there, other) refl
]

int_of-integer_value : (flags n : ℕ) (v : FieldValue) → int_of (integer_value flags n v) ≡ n
unfolding int_of integer_value
int_of-integer_value flags n v = ground arith

text_of-integer_value :
    (flags n : ℕ) (v : FieldValue)
    → text_of (integer_value flags n v)
      ≡ (if (n == 0) && not (is_indexed flags && is_string flags) then [] else print n)
unfolding text_of integer_value
text_of-integer_value flags n v = ground arith

-- On a valid database, `SetInteger` of an existing field of a record that is there returns 0, and then every recordset
-- reads the number there, and as text its digits, but nothing for zero in a field without an index by text; what is read
-- of all other fields and records is unchanged.
pub set_integer-views :
    (db : Database) (c : Cursor) (w : Fields) (f n q g : ℕ)
    → IsValid db
    → f < db.nfields
    → c.eof ≡ false
    → find_record c.recno db.records ≡ some w
    → Gives (set_integer db c f n) (λ done.
      (done.0 ≡ 0)
      × (int_view done.1.records q g
          ≡ (if (q == c.recno) && (g == f) then n else int_view db.records q g))
      × (text_view done.1.records q g ≡ (
          if (q == c.recno) && (g == f)
          then (if (n == 0) && not (text_field db.fields f) then [] else print n)
          else text_view db.records q g)))
unfolding set_integer store_integer int_view text_view
set_integer-views db c w f n q g valid room open_row there =
    let (v, e, at_cell) = field_value db c.recno f w valid room there in
    let (flags, h) = field_flags db c.recno f w valid room there in
    rw (open_row, there, e, h)
      (
        (0, _),
        refl,
        (
          refl,
          view-put_cell int_of 0 db.records q c.recno g f (integer_value flags n v) at_cell
              ∙ ap (λ x. if (q == c.recno) && (g == f) then x else int_view db.records q g)
                  (int_of-integer_value flags n v),
          view-put_cell text_of [] db.records q c.recno g f (integer_value flags n v) at_cell
              ∙ ap (λ x. if (q == c.recno) && (g == f) then x else text_view db.records q g)
                  (text_of-integer_value flags n v
                    ∙ ap (λ b. if (n == 0) && not b then [] else print n)
                        (sym (text_field-at db.fields f flags h))),
        ),
      )

text_of-string_value :
    (flags : ℕ) (text : Bytes) (v : FieldValue)
    → text_of (string_value flags text v) ≡ (if is_int flags then print (strtoul text) else text)
unfolding text_of string_value
text_of-string_value flags text v = ground arith

-- On a valid database, `SetString` of an existing field that is not a number, of a record that is there, returns 0, and
-- then every recordset reads the text there; what is read as text of all other fields and records is unchanged.
pub set_string-views :
    (db : Database) (c : Cursor) (w : Fields) (f flags : ℕ) (text : Bytes) (q g : ℕ)
    → IsValid db
    → f < db.nfields
    → c.eof ≡ false
    → find_record c.recno db.records ≡ some w
    → get_elem? db.fields f ≡ some flags
    → is_int flags ≡ false
    → Gives (set_string db c f text) (λ done.
      (done.0 ≡ 0)
      × (text_view done.1.records q g
          ≡ (if (q == c.recno) && (g == f) then text else text_view db.records q g)))
unfolding set_string store_string text_view text_of
set_string-views db c w f flags text q g valid room open_row there h words =
    let (v, e, at_cell) = field_value db c.recno f w valid room there in
    elim (Bool-cases (v.svalid && same_text v.s text)) [
      | inl same ↦ (
        (0, db),
        ground (arith, open_row, there, e, h, same),
        (refl, ground (arith, at_cell, same, ==_iff q c.recno, ==_iff g f, same_text_iff v.s text)),
      )
      | inr other ↦
          rw (open_row, there, e, h, other)
            (
              (0, _),
              refl,
              (
                refl,
                view-put_cell text_of [] db.records q c.recno g f (string_value flags text v)
                      at_cell
                    ∙ ap (λ x. if (q == c.recno) && (g == f) then x else text_view db.records q g)
                        (text_of-string_value flags text v
                          ∙ ap (λ b. if b then print (strtoul text) else text) words),
              ),
            )
    ]
