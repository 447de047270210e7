-- ===== src/Steam/Induction.antt =====
-- libdbsteam/rs.cpp: a property of the database that the changes within the methods preserve holds in any history that
-- `Steam.History` allows.
use mathlib.Core.Option.{some-injective}
use chorale.Base.{
  ltb, length, set, ℕ, zero, suc, ◌+◌, ◌≡◌, ◌&&◌, Option, none, some, List, Bytes, get_elem?, ◌>>=◌,
  arith, Bool-cases, Option-cases, inl, inr, subst, same_text,
}
use chorale.Steam.State.{
  Database, Cursor, FieldValue, Fields, find_record, erase_record, put_cell, new_database,
  set_field_info,
}
use chorale.Steam.Access.{
  get_integer, kept_int, set_string, store_string, set_integer, store_integer, add_record,
  unindex_fields, unindex_value, delete_record,
}
use chorale.Steam.History.{
  gets_integer, sets_string, sets_integer, adds_record, deletes, sets_field_info, perform, Reach,
  start, next,
}

-- The changes that the methods are made of.
pub record Closed (P : Database → Type 0) : Type 0 where
  pub stores_integer :
      (db : Database) (r f flags n : ℕ) (v : FieldValue) → P db → P (store_integer db r f flags n v)
  pub stores_string :
      (db : Database) (r f flags : ℕ) (text : Bytes) (v : FieldValue)
      → P db
      → P (store_string db r f flags text v)
  pub keeps_int :
      (db : Database) (r f : ℕ) (v : FieldValue)
      → P db
      → P (record db { records = put_cell r f (kept_int v) db.records })
  pub adds : (db : Database) (c : Cursor) → P db → P (add_record db c).1
  pub unindexes :
      (db : Database) (r f flags : ℕ) (v : FieldValue) → P db → P (unindex_value db r f flags v)
  pub sets_fields : (db : Database) (fields : List ℕ) → P db → P (record db { fields = fields })
  pub erases :
      (db : Database) (r : ℕ) → P db → P (record db { records = erase_record r db.records })

module _ (P : Database → Type 0) (closed : Closed P) where
  -- The call, if it does not fault, keeps the property.
  abbrev Keeps : {A : Type 0} → Option (A × Database) → Type 0
  Keeps none = Unit
  Keeps (some g) = P g.1

  unindex_fields-keeps :
      (n f : ℕ) (w : Fields) (r : ℕ) (db d : Database)
      → P db
      → unindex_fields n f w r db ≡ some d
      → P d
  unfolding unindex_fields
  unindex_fields-keeps zero f w r db d h e = subst P (some-injective _ _ e) h
  unindex_fields-keeps (suc n) f w r db d h e = elim (Option-cases (get_elem? db.fields f)) [
    | inl off ↦ absurd (ground (arith, e, off))
    | inr (flags, on) ↦ elim (Option-cases (get_elem? w f)) [
      | inl off ↦ absurd (ground (arith, e, on, off))
      | inr (v, there) ↦
          unindex_fields-keeps n (f + 1) w r (unindex_value db r f flags v) d
            (closed.unindexes db r f flags v h) (ground (arith, e, on, there))
    ]
  ]

  module _ (db : Database) (c : Cursor) (h : P db) where
    set_integer-Keeps : (f n : ℕ) → Keeps (set_integer db c f n)
    unfolding set_integer
    set_integer-Keeps f n = elim (Bool-cases c.eof) [
      | inl ended ↦ rw ended h
      | inr open_row ↦ elim (Option-cases (find_record c.recno db.records)) [
        | inl absent ↦ rw (open_row, absent) h
        | inr (w, there) ↦ elim (Option-cases (get_elem? w f)) [
          | inl off ↦ rw (open_row, there, off) _
          | inr (v, e) ↦ elim (Option-cases (get_elem? db.fields f)) [
            | inl off ↦ rw (open_row, there, e, off) _
            | inr (flags, on) ↦
                rw (open_row, there, e, on) (closed.stores_integer db c.recno f flags n v h)
          ]
        ]
      ]
    ]

    set_string-Keeps : (f : ℕ) (text : Bytes) → Keeps (set_string db c f text)
    unfolding set_string
    set_string-Keeps f text = elim (Bool-cases c.eof) [
      | inl ended ↦ rw ended h
      | inr open_row ↦ elim (Option-cases (find_record c.recno db.records)) [
        | inl absent ↦ rw (open_row, absent) h
        | inr (w, there) ↦ elim (Option-cases (get_elem? w f)) [
          | inl off ↦ rw (open_row, there, off) _
          | inr (v, e) ↦ elim (Option-cases (get_elem? db.fields f)) [
            | inl off ↦ rw (open_row, there, e, off) _
            | inr (flags, on) ↦ elim (Bool-cases (v.svalid && same_text v.s text)) [
              | inl same ↦ rw (open_row, there, e, on, same) h
              | inr other ↦
                  rw (open_row, there, e, on, other)
                    (closed.stores_string db c.recno f flags text v h)
            ]
          ]
        ]
      ]
    ]

    get_integer-Keeps : (f : ℕ) → Keeps (get_integer db c f)
    unfolding get_integer
    get_integer-Keeps f = elim (Bool-cases c.eof) [
      | inl ended ↦ rw ended h
      | inr open_row ↦ elim (Option-cases (find_record c.recno db.records)) [
        | inl absent ↦ rw (open_row, absent) h
        | inr (w, there) ↦ elim (Option-cases (get_elem? w f)) [
          | inl off ↦ rw (open_row, there, off) _
          | inr (v, e) ↦ rw (open_row, there, e) (closed.keeps_int db c.recno f v h)
        ]
      ]
    ]

    delete_record-Keeps : Keeps (delete_record db c)
    unfolding delete_record
    delete_record-Keeps = elim (Bool-cases c.eof) [
      | inl ended ↦ rw ended h
      | inr open_row ↦ elim (Option-cases (find_record c.recno db.records)) [
        | inl absent ↦ rw (open_row, absent) h
        | inr (w, there) ↦ elim (Option-cases (unindex_fields db.nfields 0 w c.recno db)) [
          | inl off ↦ rw (open_row, there, off) _
          | inr (d, e) ↦
              rw (open_row, there, e)
                (closed.erases d c.recno (unindex_fields-keeps db.nfields 0 w c.recno db d h e))
        ]
      ]
    ]

  -- From a call's result to the next database.
  Keeps-next :
      {A : Type 0} (o : Option (A × Database)) (d : Database)
      → Keeps o
      → (do r ← o; some r.1) ≡ some d
      → P d
  Keeps-next none d h e = cc
  Keeps-next (some g) d h e = subst P (some-injective _ _ e) h

  pub Reach-induction :
      (nfields : ℕ) (infos : List (ℕ × ℕ)) {db : Database}
      → ((made : Database) → new_database nfields infos ≡ some made → P made)
      → Reach nfields infos db
      → P db
  unfolding perform set_field_info
  Reach-induction n infos base (start {db} made) = base db made
  Reach-induction n infos base (next {db} {db' = d} (gets_integer c f) reached allowed done) =
      Keeps-next (get_integer db c f) d
        (get_integer-Keeps db c (Reach-induction n infos base reached) f) done
  Reach-induction n infos base (next {db} {db' = d} (sets_string c f s) reached allowed done) =
      Keeps-next (set_string db c f s) d
        (set_string-Keeps db c (Reach-induction n infos base reached) f s) done
  Reach-induction n infos base (next {db} {db' = d} (sets_integer c f k) reached allowed done) =
      Keeps-next (set_integer db c f k) d
        (set_integer-Keeps db c (Reach-induction n infos base reached) f k) done
  Reach-induction n infos base (next {db} {db' = d} (adds_record c) reached allowed done) =
      subst P (some-injective _ _ done) (closed.adds db c (Reach-induction n infos base reached))
  Reach-induction n infos base (next {db} {db' = d} (deletes c) reached allowed done) =
      Keeps-next (delete_record db c) d
        (delete_record-Keeps db c (Reach-induction n infos base reached)) done
  Reach-induction n infos base
        (next {db} {db' = d} (sets_field_info which flags) reached allowed done) =
      elim (Bool-cases (ltb which (length db.fields))) [
        | inr off ↦ absurd (ground (arith, done, off))
        | inl room ↦ subst P (some-injective _ _ (ground (arith, done, room))) (
            closed.sets_fields db (set db.fields which flags)
              (Reach-induction n infos base reached))
      ]
