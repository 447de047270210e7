-- ===== src/Steam/Selecting.antt =====
-- libdbsteam/query.cpp and rs.cpp: a scan with a query selects the records that satisfy the query's formula, where
-- its tests are of existing fields by operators that their types allow.
use chorale.Base.{
  true, ◌↔◌, sym, subst, Bool-cases, ==_iff, ◌<◌, ◌&&◌, ℕ, ◌≡◌, refl, ◌∙◌, Bool, some, List, [],
  ◌∷◌, ◌++◌, Bytes, All, arith, Option-cases, inl, inr,
}
use chorale.Steam.State.{Database, Fields, find_record}
use chorale.Steam.Query.{Query}
use chorale.Steam.Views.{width, numbers, SameViews, SameViews-trans}
use chorale.Steam.Index.{mem}
use chorale.Steam.Meaning.{SatisfiesAt, accepts-SatisfiesAt}
use chorale.Base.{Gives}
use chorale.Steam.History.{Reach, reached-IsValid}
use chorale.Steam.Created.{KnownType}
use chorale.Steam.Evaluate.{Formula, Denotes, Allowed, accepts, accepts-SameViews}
use chorale.Steam.Building.{matches-accepts}
use chorale.Steam.Rows.{at_record, row_matches, scan}
use chorale.Steam.Scanning.{Ascending, select, scan-select}
use chorale.Steam.Ordering.{Reach-Ascending}

-- A number of the map is that of a record.
find_record-numbers :
    (m : List (ℕ × Fields)) (pre : List ℕ) (r : ℕ) (post : List ℕ)
    → numbers m ≡ pre ++ r ∷ post
    → (w : Fields) × (find_record r m ≡ some w)
unfolding find_record
find_record-numbers [] [] r post e = cc
find_record-numbers [] (x ∷ pre) r post e = cc
find_record-numbers ((q, v) ∷ m) [] r post e = let here : q ≡ r = cc in (v, ground (arith, here))
find_record-numbers ((q, v) ∷ m) (x ∷ pre) r post e =
    let (w, there) = find_record-numbers m pre r post cc in
    elim (Option-cases (find_record r ((q, v) ∷ m))) [
      | inl absent ↦ absurd (ground (arith, there, absent))
      | inr found ↦ found
    ]

All-select :
    (P : ℕ → Type 0) (accept : ℕ → Bool) (xs : List ℕ) → All P xs → All P (select accept xs)
unfolding select
All-select P accept [] h = h
All-select P accept (x ∷ xs) h = elim (Bool-cases (accept x)) [
  | inl pass ↦ rw pass (h.0, All-select P accept xs h.1)
  | inr fail ↦ rw fail (All-select P accept xs h.1)
]

pub Ascending-select :
    (accept : ℕ → Bool) (xs : List ℕ) → Ascending xs → Ascending (select accept xs)
unfolding select Ascending
Ascending-select accept [] up = up
Ascending-select accept (x ∷ xs) up = elim (Bool-cases (accept x)) [
  | inl pass ↦ rw pass (All-select (λ y. x < y) accept xs up.0, Ascending-select accept xs up.1)
  | inr fail ↦ rw fail (Ascending-select accept xs up.1)
]

pub mem-select :
    (accept : ℕ → Bool) (r : ℕ) (xs : List ℕ) → mem r (select accept xs) ≡ (accept r && mem r xs)
unfolding mem select
mem-select accept r [] = ground arith
mem-select accept r (x ∷ xs) = elim (Bool-cases (accept x)) [
  | inl pass ↦ rw pass (ground (arith, mem-select accept r xs, pass, ==_iff r x))
  | inr fail ↦ rw fail (ground (arith, mem-select accept r xs, fail, ==_iff r x))
]

-- A row that a number is of: the record is there and satisfies the formula.
pub mem-accepts :
    (regex : Bytes → Bytes → Bool) (n : ℕ) (t : Formula) (db : Database) (r : ℕ)
    → Allowed n t
    → (mem r (select (accepts regex t db) (numbers db.records)) ≡ true)
      ↔ ((mem r (numbers db.records) ≡ true) × SatisfiesAt regex t db r)
mem-accepts regex n t db r fit =
    let meaning = accepts-SatisfiesAt regex n t db r fit in
    let split = mem-select (accepts regex t db) r (numbers db.records) in
    (
      λ e. (ground (arith, split, e), meaning.0 (ground (arith, split, e))),
      λ there. ground (arith, split, there.0, meaning.1 there.1),
    )

-- Where the flags given to the constructor, and to `SetFieldInfo`, name one of the two types, and `SetFieldInfo` is called
-- only while there are no records, after any history of calls that name existing fields: if a query stands for a formula
-- whose tests are all of existing fields by operators that their types allow, then a new recordset of the query, read to
-- its end, returns; its rows ascend strictly; a record is a row exactly if it is there and the numbers and texts that the
-- database shows of it satisfy the formula; and the database shows the same values after it.
pub scan-query :
    (nfields : ℕ) (infos : List (ℕ × ℕ)) (regex : Bytes → Bytes → Bool) (q : Query) (t : Formula)
    {db : Database}
    → All KnownType infos
    → Reach nfields infos db
    → Denotes q q.root t
    → Allowed db.nfields t
    → Gives (scan regex (some q) db) (λ g.
      Ascending g.0
      × ((r : ℕ)
          → (mem r g.0 ≡ true) ↔ ((mem r (numbers db.records) ≡ true) × SatisfiesAt regex t db r))
      × SameViews g.1 db)
unfolding row_matches width
scan-query nfields infos regex q t {db} types reached meaning fit =
    let valid = reached-IsValid nfields infos types reached in
    let up = Reach-Ascending nfields infos reached in
    let (g, e, (rows, same)) =
      scan-select regex (some q) db (accepts regex t db) up (λ d pre r post same e.
        let (w, there) = find_record-numbers db.records pre r post e in
        let row : width d.records r ≡ some db.nfields =
          same.same_width r ∙ ground (arith, there, valid.widths r w there) in
        let (g, h, (value, same')) =
          matches-accepts regex q t d (at_record r) db.nfields refl row meaning fit in
        (g, h, (value ∙ accepts-SameViews regex t r same, SameViews-trans same' same))) in
    let ascending =
      subst Ascending (sym rows) (Ascending-select (accepts regex t db) (numbers db.records) up) in
    (
      g,
      e,
      (
        ascending,
        λ r.
            subst
              (λ xs.
                (mem r xs ≡ true)
                ↔ ((mem r (numbers db.records) ≡ true) × SatisfiesAt regex t db r))
              (sym rows) (mem-accepts regex db.nfields t db r fit),
        same,
      ),
    )
