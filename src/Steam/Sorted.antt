-- ===== src/Steam/Sorted.antt =====
-- libdbsteam/rs.cpp: the keys of each index by number ascend in any history of the database, as `Steam.History` has them.
use chorale.Base.{
  ℕ, zero, suc, ◌<◌, ◌≡◌, refl, Bool, true, false, not, ◌&&◌, Option, none, some, List, [], ◌∷◌,
  All, set, replicate, ltb, ◌==◌, if◌then◌else◌, arith, Bool-cases, Option-cases, List-cases, inl,
  inr, subst, sym,
}
use chorale.Steam.Keys.{nat_key}
use chorale.Steam.Index.{
  Index, find, replace, place, erase_key, index_add, index_remove, set_insert, set_erase,
}
use chorale.Steam.State.{Database, is_indexed, is_int, is_string, index_at}
use chorale.Steam.Access.{
  old_int, unindex, reindex, store_string, store_integer, unindex_value, add_record,
}
use chorale.Steam.History.{Reach}
use chorale.Steam.Created.{new_database-empty}
use chorale.Steam.Induction.{Closed, Reach-induction}
use chorale.Steam.Scanning.{Ascending}
use chorale.Steam.Ordering.{All-below}
use chorale.Steam.Collating.{keys}

abbrev pub Sorted : Index ℕ → Type 0
Sorted m = Ascending (keys m)

keys-replace : (k : ℕ) (s : List ℕ) (m : Index ℕ) → keys (replace k s m) ≡ keys m
unfolding replace
keys-replace k s [] = refl
keys-replace k s ((j, t) ∷ m) = ground (arith, keys-replace k s m)

replace-Sorted : (k : ℕ) (s : List ℕ) (m : Index ℕ) → Sorted m → Sorted (replace k s m)
replace-Sorted k s m up = subst Ascending (sym (keys-replace k s m)) up

All-place :
    (x k : ℕ) (s : List ℕ) (m : Index ℕ)
    → x < k
    → All (λ z. x < z) (keys m)
    → All (λ z. x < z) (keys (place k s m))
unfolding place
All-place x k s [] h a = (h, a)
All-place x k s ((j, t) ∷ m) h a = elim (Bool-cases (ltb k j)) [
  | inl before ↦ rw before (h, a)
  | inr after ↦ rw after (a.0, All-place x k s m h a.1)
]

place-Sorted :
    (k : ℕ) (s : List ℕ) (m : Index ℕ) → find k m ≡ none → Sorted m → Sorted (place k s m)
unfolding place Ascending find
place-Sorted k s [] absent up = (_, _)
place-Sorted k s ((j, t) ∷ m) absent up = elim (Bool-cases (ltb k j)) [
  | inl before ↦
      let h : k < j = ground (arith, before) in rw before ((h, All-below (keys m) h up.0), up)
  | inr after ↦
      let h : j < k = ground (arith, after, absent) in
      rw after (All-place j k s m h up.0, place-Sorted k s m (ground (arith, absent, h)) up.1)
]

All-erase_key :
    (x k : ℕ) (m : Index ℕ) → All (λ z. x < z) (keys m) → All (λ z. x < z) (keys (erase_key k m))
unfolding erase_key
All-erase_key x k [] a = a
All-erase_key x k ((j, t) ∷ m) a = elim (Bool-cases (k == j)) [
  | inl here ↦ rw here (All-erase_key x k m a.1)
  | inr other ↦ rw other (a.0, All-erase_key x k m a.1)
]

erase_key-Sorted : (k : ℕ) (m : Index ℕ) → Sorted m → Sorted (erase_key k m)
unfolding erase_key Ascending
erase_key-Sorted k [] up = up
erase_key-Sorted k ((j, t) ∷ m) up = elim (Bool-cases (k == j)) [
  | inl here ↦ rw here (erase_key-Sorted k m up.1)
  | inr other ↦ rw other (All-erase_key j k m up.0, erase_key-Sorted k m up.1)
]

index_add-Sorted : (k r : ℕ) (m : Index ℕ) → Sorted m → Sorted (index_add k r m)
unfolding index_add
index_add-Sorted k r m up = elim (Option-cases (find k m)) [
  | inl absent ↦ rw (index_add, absent) (place-Sorted k (r ∷ []) m absent up)
  | inr (s, there) ↦ rw (index_add, there) (replace-Sorted k (set_insert r s) m up)
]

index_remove-Sorted : (k r : ℕ) (m : Index ℕ) → Sorted m → Sorted (index_remove k r m)
unfolding index_remove
index_remove-Sorted k r m up = elim (Option-cases (find k m)) [
  | inl absent ↦ rw (index_remove, absent) up
  | inr (s, there) ↦ elim (List-cases (set_erase r s)) [
    | inl empty ↦ rw (index_remove, there, empty) (erase_key-Sorted k m up)
    | inr (x, xs, left) ↦ rw (index_remove, there, left) (replace-Sorted k (x ∷ xs) m up)
  ]
]

unindex-Sorted : (old : Option ℕ) (r : ℕ) (m : Index ℕ) → Sorted m → Sorted (unindex old r m)
unfolding unindex
unindex-Sorted none r m up = up
unindex-Sorted (some k) r m up = index_remove-Sorted k r m up

reindex-Sorted : (old : Option ℕ) (k r : ℕ) (m : Index ℕ) → Sorted m → Sorted (reindex old k r m)
unfolding reindex
reindex-Sorted old k r m up = index_add-Sorted k r (unindex old r m) (unindex-Sorted old r m up)

pub index_at-Sorted : (xs : List (Index ℕ)) (f : ℕ) → All Sorted xs → Sorted (index_at xs f)
unfolding index_at Ascending
index_at-Sorted [] f h = _
index_at-Sorted (x ∷ xs) zero h = h.0
index_at-Sorted (x ∷ xs) (suc f) h = index_at-Sorted xs f h.1

set-Sorted :
    (b : Bool) (xs : List (Index ℕ)) (f : ℕ) (m : Index ℕ)
    → Sorted m
    → All Sorted xs
    → All Sorted (if b then set xs f m else xs)
set-Sorted false xs f m k h = h
set-Sorted true [] f m k h = h
set-Sorted true (x ∷ xs) zero m k h = (k, h.1)
set-Sorted true (x ∷ xs) (suc f) m k h = (h.0, set-Sorted true xs f m k h.1)

empty-Sorted : (n : ℕ) → All Sorted (replicate n [])
unfolding Ascending
empty-Sorted zero = _
empty-Sorted (suc n) = (_, empty-Sorted n)

AllSorted-Closed : Closed (λ db. All Sorted db.intindexes)
unfolding store_integer store_string unindex_value add_record
AllSorted-Closed = record {
  stores_integer = λ db r f flags n v h.
      set-Sorted (is_indexed flags && not (is_string flags)) db.intindexes f _
        (reindex-Sorted (old_int v) n r _ (index_at-Sorted db.intindexes f h)) h;
  stores_string = λ db r f flags text v h.
      set-Sorted (is_indexed flags && is_int flags) db.intindexes f _
        (reindex-Sorted (old_int v) _ r _ (index_at-Sorted db.intindexes f h)) h;
  keeps_int = λ db r f v h. h;
  adds = λ db c h. h;
  unindexes = λ db r f flags v h.
      set-Sorted (is_indexed flags && not (is_string flags)) db.intindexes f _
        (unindex-Sorted (old_int v) r _ (index_at-Sorted db.intindexes f h)) h;
  sets_fields = λ db fields h. h;
  erases = λ db r h. h;
}

-- In any history of a database that `Reach` allows, the keys of each index by number ascend strictly.
pub Reach-Sorted :
    (nfields : ℕ) (infos : List (ℕ × ℕ)) {db : Database}
    → Reach nfields infos db
    → All Sorted db.intindexes
Reach-Sorted n infos reached =
    Reach-induction (λ db. All Sorted db.intindexes) AllSorted-Closed n infos
      (λ db e.
        subst (λ xs. All Sorted xs) (sym (new_database-empty n infos db e).1) (empty-Sorted n))
      reached
