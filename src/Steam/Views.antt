-- ===== src/Steam/Views.antt =====
-- libdbsteam/rs.cpp: what `GetInteger` and `GetString` give, as functions of the database, and that the number which
-- `GetInteger` keeps in a value changes neither.
use chorale.Base.{
  ℕ, ◌<◌, ◌≡◌, refl, ◌∙◌, ap, false, Option, none, some, List, [], ◌∷◌, Bytes, length, get_elem?,
  set, map, arith, Option-cases, inl, inr, ==_iff, length-set, get_elem?-lt,
}
use chorale.Steam.State.{
  Database, Cursor, FieldValue, Fields, find_record, cell, put_cell, put_record,
}
use chorale.Steam.Access.{int_of, text_of, kept_int, get_integer, get_string}
use chorale.Steam.Records.{find_record-put_record, cell-some, cell-put_cell}
use chorale.Base.{Gives}

abbrev pub view {ℓ} : {A : Type ℓ} → (FieldValue → A) → A → Option FieldValue → A
view read missing none = missing
view read missing (some v) = read v

-- Of a record that is missing, zero and the empty text.
unfoldable pub int_view : List (ℕ × Fields) → ℕ → ℕ → ℕ
int_view m r f = view int_of 0 (cell m r f)

unfoldable pub text_view : List (ℕ × Fields) → ℕ → ℕ → Bytes
text_view m r f = view text_of [] (cell m r f)

abbrev pub numbers : List (ℕ × Fields) → List ℕ
numbers = map (λ e. e.0)

-- The number of values of a record, if it is there.
unfoldable pub width : List (ℕ × Fields) → ℕ → Option ℕ
unfolding find_record
width m r = elim (find_record r m) [ none ↦ none | some w ↦ some (length w) ]

-- Two databases that differ only in numbers that `GetInteger` has kept.
pub record SameViews (d e : Database) : Type 0 where
  pub same_ints : (r f : ℕ) → int_view d.records r f ≡ int_view e.records r f
  pub same_texts : (r f : ℕ) → text_view d.records r f ≡ text_view e.records r f
  pub same_width : (r : ℕ) → width d.records r ≡ width e.records r
  pub same_numbers : numbers d.records ≡ numbers e.records
  pub same_rest : d ≡ record e { records = d.records }

int_of-kept_int : (v : FieldValue) → int_of (kept_int v) ≡ int_of v
unfolding int_of kept_int
int_of-kept_int v = ground arith

text_of-kept_int : (v : FieldValue) → text_of (kept_int v) ≡ text_of v
unfolding text_of kept_int
text_of-kept_int v = ground arith

numbers-put_record :
    (r : ℕ) (w : Fields) (m : List (ℕ × Fields)) → numbers (put_record r w m) ≡ numbers m
unfolding put_record
numbers-put_record r w [] = refl
numbers-put_record r w ((q, v) ∷ m) = ground (arith, numbers-put_record r w m, ==_iff r q)

pub numbers-put_cell :
    (r f : ℕ) (v : FieldValue) (m : List (ℕ × Fields)) → numbers (put_cell r f v m) ≡ numbers m
unfolding put_cell
numbers-put_cell r f v m = elim (Option-cases (find_record r m)) [
  | inl absent ↦ ground (arith, absent)
  | inr (w, there) ↦ ground (arith, there, numbers-put_record r (set w f v) m)
]

module _ (db : Database) (r f : ℕ) (v : FieldValue) (there : cell db.records r f ≡ some v) where
  kept : List (ℕ × Fields)
  kept = put_cell r f (kept_int v) db.records

  kept_ints : (q g : ℕ) → int_view kept q g ≡ int_view db.records q g
  unfolding int_view kept
  kept_ints q g = ground (
    arith,
    cell-put_cell q r g f (kept_int v) db.records there,
    int_of-kept_int v,
    there,
    ==_iff q r,
    ==_iff g f,
  )

  kept_texts : (q g : ℕ) → text_view kept q g ≡ text_view db.records q g
  unfolding text_view kept
  kept_texts q g = ground (
    arith,
    cell-put_cell q r g f (kept_int v) db.records there,
    text_of-kept_int v,
    there,
    ==_iff q r,
    ==_iff g f,
  )

  kept_width : (q : ℕ) → width kept q ≡ width db.records q
  unfolding width kept put_cell
  kept_width q =
      let (w, here, e) = cell-some r f db.records there in
      ground (
        arith,
        here,
        find_record-put_record q r (set w f (kept_int v)) w db.records here,
        length-set w f (kept_int v),
        ==_iff q r,
      )

  kept-SameViews : SameViews (record db { records = kept }) db
  unfolding kept
  kept-SameViews = record {
    same_ints = kept_ints;
    same_texts = kept_texts;
    same_width = kept_width;
    same_numbers = numbers-put_cell r f (kept_int v) db.records;
    same_rest = refl;
  }

pub SameViews-refl : (d : Database) → SameViews d d
SameViews-refl d = record {
  same_ints = λ r f. refl;
  same_texts = λ r f. refl;
  same_width = λ r. refl;
  same_numbers = refl;
  same_rest = refl;
}

pub SameViews-trans : {d e g : Database} → SameViews d e → SameViews e g → SameViews d g
SameViews-trans {d} p q = record {
  same_ints = λ r f. p.same_ints r f ∙ q.same_ints r f;
  same_texts = λ r f. p.same_texts r f ∙ q.same_texts r f;
  same_width = λ r. p.same_width r ∙ q.same_width r;
  same_numbers = p.same_numbers ∙ q.same_numbers;
  same_rest = p.same_rest ∙ ap {A = Database} (λ x. record x { records = d.records }) q.same_rest;
}

-- The two reading methods at the position of a record that is there.
module _ (db : Database) (c : Cursor) (f n : ℕ) (open_row : c.eof ≡ false)
    (row : width db.records c.recno ≡ some n) (room : f < n) where
  at_cell :
      (w : Fields) × (v : FieldValue) × (find_record c.recno db.records ≡ some w)
      × (get_elem? w f ≡ some v)
  unfolding width
  at_cell = elim (Option-cases (find_record c.recno db.records)) [
    | inl absent ↦ absurd (grind (arith, row, absent))
    | inr (w, there) ↦
        let (v, e) = get_elem?-lt w f (ground (arith, row, there, room)) in (w, v, there, e)
  ]

  pub get_integer-views :
      Gives (get_integer db c f) (λ g. (g.0 ≡ int_view db.records c.recno f) × SameViews g.1 db)
  unfolding get_integer int_view cell kept
  get_integer-views =
      let (w, v, there, e) = at_cell in
      rw (open_row, there, e)
        ((int_of v, _), refl, (refl, kept-SameViews db c.recno f v (ground (arith, there, e))))

  pub get_string-views : get_string db c f ≡ some (text_view db.records c.recno f)
  unfolding get_string text_view cell
  get_string-views = let (w, v, there, e) = at_cell in rw (open_row, there, e) refl
