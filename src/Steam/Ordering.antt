-- ===== src/Steam/Ordering.antt =====
-- libdbsteam/rs.cpp: the numbers of the records ascend in any history of the database, as `Steam.History` has them.
use chorale.Base.{
  ℕ, ◌<◌, ◌≡◌, sym, none, some, List, [], ◌∷◌, All, ltb, ◌==◌, arith, Bool-cases, Option-cases, inl,
  inr, subst, replicate,
}
use chorale.Steam.State.{
  Database, Cursor, FieldValue, Fields, blank, find_record, new_record, erase_record, put_cell,
  new_database,
}
use chorale.Steam.Access.{
  kept_int, store_string, string_value, store_integer, integer_value, add_record, unindex_value,
}
use chorale.Steam.History.{Reach}
use chorale.Steam.Created.{new_database-empty}
use chorale.Steam.Induction.{Closed, Reach-induction}
use chorale.Steam.Views.{numbers, numbers-put_cell}
use chorale.Steam.Scanning.{Ascending}

pub All-below : {q r : ℕ} (xs : List ℕ) → r < q → All (λ z. q < z) xs → All (λ z. r < z) xs
All-below [] h k = k
All-below (x ∷ xs) h k = (omega (arith, k.0), All-below xs h k.1)

module _ (r : ℕ) (w : Fields) where
  All-new_record :
      (x : ℕ) (m : List (ℕ × Fields))
      → x < r
      → All (λ z. x < z) (numbers m)
      → All (λ z. x < z) (numbers (new_record r w m))
  unfolding new_record
  All-new_record x [] h k = (h, k)
  All-new_record x ((q, v) ∷ m) h k = elim (Bool-cases (ltb r q)) [
    | inl before ↦ rw before (h, k)
    | inr after ↦ rw after (k.0, All-new_record x m h k.1)
  ]

  Ascending-new_record :
      (m : List (ℕ × Fields))
      → find_record r m ≡ none
      → Ascending (numbers m)
      → Ascending (numbers (new_record r w m))
  unfolding new_record Ascending find_record
  Ascending-new_record [] absent up = (_, _)
  Ascending-new_record ((q, v) ∷ m) absent up = elim (Bool-cases (ltb r q)) [
    | inl before ↦
        let h : r < q = ground (arith, before) in rw before ((h, All-below (numbers m) h up.0), up)
    | inr after ↦
        let h : q < r = ground (arith, after, absent) in
        rw after
          (All-new_record q m h up.0, Ascending-new_record m (ground (arith, absent, h)) up.1)
  ]

module _ (r : ℕ) where
  All-erase_record :
      (x : ℕ) (m : List (ℕ × Fields))
      → All (λ z. x < z) (numbers m)
      → All (λ z. x < z) (numbers (erase_record r m))
  unfolding erase_record
  All-erase_record x [] k = k
  All-erase_record x ((q, v) ∷ m) k = elim (Bool-cases (r == q)) [
    | inl here ↦ rw here (All-erase_record x m k.1)
    | inr other ↦ rw other (k.0, All-erase_record x m k.1)
  ]

  Ascending-erase_record :
      (m : List (ℕ × Fields)) → Ascending (numbers m) → Ascending (numbers (erase_record r m))
  unfolding erase_record Ascending
  Ascending-erase_record [] up = up
  Ascending-erase_record ((q, v) ∷ m) up = elim (Bool-cases (r == q)) [
    | inl here ↦ rw here (Ascending-erase_record m up.1)
    | inr other ↦ rw other (All-erase_record q m up.0, Ascending-erase_record m up.1)
  ]

put_cell-Ascending :
    (r f : ℕ) (v : FieldValue) (m : List (ℕ × Fields))
    → Ascending (numbers m)
    → Ascending (numbers (put_cell r f v m))
put_cell-Ascending r f v m up = subst Ascending (sym (numbers-put_cell r f v m)) up

add_record-Ascending :
    (db : Database) (c : Cursor)
    → Ascending (numbers db.records)
    → Ascending (numbers (add_record db c).1.records)
unfolding add_record
add_record-Ascending db c up = elim (Option-cases (find_record db.next_recno db.records)) [
  | inl absent ↦
      let added : (add_record db c).1.records
          ≡ new_record db.next_recno (replicate db.nfields blank) db.records =
        ground (arith, absent) in
      subst (λ m. Ascending (numbers m)) (sym added)
        (Ascending-new_record db.next_recno (replicate db.nfields blank) db.records absent up)
  | inr (w, there) ↦
      let kept : (add_record db c).1.records ≡ db.records = ground (arith, there) in
      subst (λ m. Ascending (numbers m)) (sym kept) up
]

Ascending-Closed : Closed (λ db. Ascending (numbers db.records))
unfolding store_integer store_string unindex_value
Ascending-Closed = record {
  stores_integer =
      λ db r f flags n v up. put_cell-Ascending r f (integer_value flags n v) db.records up;
  stores_string =
      λ db r f flags text v up. put_cell-Ascending r f (string_value flags text v) db.records up;
  keeps_int = λ db r f v up. put_cell-Ascending r f (kept_int v) db.records up;
  adds = add_record-Ascending;
  unindexes = λ db r f flags v up. up;
  sets_fields = λ db fields up. up;
  erases = λ db r up. Ascending-erase_record r db.records up;
}

new_database-Ascending :
    (nfields : ℕ) (infos : List (ℕ × ℕ)) (db : Database)
    → new_database nfields infos ≡ some db
    → Ascending (numbers db.records)
unfolding Ascending new_database
new_database-Ascending n infos db e =
    let empty = new_database-empty n infos db e in
    subst (λ m. Ascending (numbers m)) (sym empty.0) _

-- In any history of a database that `Reach` allows, the numbers of its records ascend strictly.
pub Reach-Ascending :
    (nfields : ℕ) (infos : List (ℕ × ℕ)) {db : Database}
    → Reach nfields infos db
    → Ascending (numbers db.records)
Reach-Ascending n infos reached =
    Reach-induction (λ db. Ascending (numbers db.records)) Ascending-Closed n infos
      (new_database-Ascending n infos) reached
