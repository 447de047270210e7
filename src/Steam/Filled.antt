-- ===== src/Steam/Filled.antt =====
-- libdbsteam/rs.cpp: in a history as `Steam.History` has them, no index has a key with an empty set, so that `*(i->second.begin())` is there.
use chorale.Base.{
  subst, sym, ℕ, zero, suc, ◌≡◌, ◌≢◌, Bool, true, false, not, ◌&&◌, Option, none, some, List, [],
  ◌∷◌, Bytes, All, set, replicate, if◌then◌else◌, arith, Bool-cases, Option-cases, List-cases, inl,
  inr,
}
use chorale.Steam.Keys.{Key, nat_key, text_key}
use chorale.Steam.Index.{
  Index, find, replace, place, erase_key, index_add, index_remove, set_insert, set_erase,
}
use chorale.Steam.State.{Database, is_indexed, is_int, is_string, index_at}
use chorale.Steam.Access.{
  old_int, old_text, unindex, reindex, store_string, store_integer, unindex_value, add_record,
}
use chorale.Steam.History.{Reach}
use chorale.Steam.Created.{new_database-empty}
use chorale.Steam.Induction.{Closed, Reach-induction}

-- Each key has an element.
abbrev pub Filled : {K : Type 0} → Index K → Type 0
Filled m = All (λ e. e.1 ≢ []) m

set_insert_some : (r : ℕ) (xs : List ℕ) → set_insert r xs ≢ []
unfolding set_insert
set_insert_some r [] h = cc
set_insert_some r (x ∷ xs) h = ground (arith, h)

module _ {K : Type 0} ⦃key : Key K⦄ where
  replace-Filled : (k : K) (s : List ℕ) (m : Index K) → s ≢ [] → Filled m → Filled (replace k s m)
  unfolding replace
  replace-Filled k s [] some_s h = h
  replace-Filled k s ((j, t) ∷ m) some_s h = elim (Bool-cases (key.same k j)) [
    | inl here ↦ rw here (some_s, h.1)
    | inr other ↦ rw other (h.0, replace-Filled k s m some_s h.1)
  ]

  place-Filled : (k : K) (s : List ℕ) (m : Index K) → s ≢ [] → Filled m → Filled (place k s m)
  unfolding place
  place-Filled k s [] some_s h = (some_s, h)
  place-Filled k s ((j, t) ∷ m) some_s h = elim (Bool-cases (key.less k j)) [
    | inl before ↦ rw before (some_s, h)
    | inr after ↦ rw after (h.0, place-Filled k s m some_s h.1)
  ]

  erase_key-Filled : (k : K) (m : Index K) → Filled m → Filled (erase_key k m)
  unfolding erase_key
  erase_key-Filled k [] h = h
  erase_key-Filled k ((j, t) ∷ m) h = elim (Bool-cases (key.same k j)) [
    | inl here ↦ rw here (erase_key-Filled k m h.1)
    | inr other ↦ rw other (h.0, erase_key-Filled k m h.1)
  ]

  index_add-Filled : (k : K) (r : ℕ) (m : Index K) → Filled m → Filled (index_add k r m)
  unfolding index_add
  index_add-Filled k r m h = elim (Option-cases (find k m)) [
    | inl absent ↦ rw (index_add, absent) (place-Filled k (r ∷ []) m (λ e. cc) h)
    | inr (s, there) ↦
        rw (index_add, there) (replace-Filled k (set_insert r s) m (set_insert_some r s) h)
  ]

  index_remove-Filled : (k : K) (r : ℕ) (m : Index K) → Filled m → Filled (index_remove k r m)
  unfolding index_remove
  index_remove-Filled k r m h = elim (Option-cases (find k m)) [
    | inl absent ↦ rw (index_remove, absent) h
    | inr (s, there) ↦ elim (List-cases (set_erase r s)) [
      | inl empty ↦ rw (index_remove, there, empty) (erase_key-Filled k m h)
      | inr (x, xs, left) ↦ rw (index_remove, there, left) (replace-Filled k (x ∷ xs) m (λ e. cc) h)
    ]
  ]

  unindex-Filled : (old : Option K) (r : ℕ) (m : Index K) → Filled m → Filled (unindex old r m)
  unfolding unindex
  unindex-Filled none r m h = h
  unindex-Filled (some k) r m h = index_remove-Filled k r m h

  reindex-Filled :
      (old : Option K) (k : K) (r : ℕ) (m : Index K) → Filled m → Filled (reindex old k r m)
  unfolding reindex
  reindex-Filled old k r m h = index_add-Filled k r (unindex old r m) (unindex-Filled old r m h)

  pub find-Filled : (k : K) (m : Index K) {s : List ℕ} → Filled m → find k m ≡ some s → s ≢ []
  unfolding find
  find-Filled k [] h e = cc
  find-Filled k ((j, t) ∷ m) {s} h e = elim (Bool-cases (key.same k j)) [
    | inl here ↦ λ empty. h.0 (ground (arith, here, e, empty))
    | inr other ↦ find-Filled k m h.1 (ground (arith, other, e))
  ]

module _ {K : Type 0} where
  pub index_at-Filled : (xs : List (Index K)) (f : ℕ) → All Filled xs → Filled (index_at xs f)
  unfolding index_at
  index_at-Filled [] f h = _
  index_at-Filled (x ∷ xs) zero h = h.0
  index_at-Filled (x ∷ xs) (suc f) h = index_at-Filled xs f h.1

  -- One index is changed under a condition.
  set-Filled :
      (b : Bool) (xs : List (Index K)) (f : ℕ) (m : Index K)
      → Filled m
      → All Filled xs
      → All Filled (if b then set xs f m else xs)
  set-Filled false xs f m k h = h
  set-Filled true [] f m k h = h
  set-Filled true (x ∷ xs) zero m k h = (k, h.1)
  set-Filled true (x ∷ xs) (suc f) m k h = (h.0, set-Filled true xs f m k h.1)

empty-Filled : (K : Type 0) (n : ℕ) → All (λ (m : Index K). Filled m) (replicate n [])
empty-Filled K zero = _
empty-Filled K (suc n) = (_, empty-Filled K n)

abbrev BothFilled : Database → Type 0
BothFilled db = All Filled db.intindexes × All Filled db.stringindexes

BothFilled-Closed : Closed BothFilled
unfolding store_integer store_string unindex_value add_record
BothFilled-Closed = record {
  stores_integer = λ db r f flags n v h. (
    set-Filled (is_indexed flags && not (is_string flags)) db.intindexes f _
        (reindex-Filled (old_int v) n r _ (index_at-Filled db.intindexes f h.0)) h.0,
    set-Filled (is_indexed flags && is_string flags) db.stringindexes f _
        (reindex-Filled (old_text v) _ r _ (index_at-Filled db.stringindexes f h.1)) h.1,
  );
  stores_string = λ db r f flags text v h. (
    set-Filled (is_indexed flags && is_int flags) db.intindexes f _
        (reindex-Filled (old_int v) _ r _ (index_at-Filled db.intindexes f h.0)) h.0,
    set-Filled (is_indexed flags && not (is_int flags)) db.stringindexes f _
        (reindex-Filled (old_text v) text r _ (index_at-Filled db.stringindexes f h.1)) h.1,
  );
  keeps_int = λ db r f v h. h;
  adds = λ db c h. h;
  unindexes = λ db r f flags v h. (
    set-Filled (is_indexed flags && not (is_string flags)) db.intindexes f _
        (unindex-Filled (old_int v) r _ (index_at-Filled db.intindexes f h.0)) h.0,
    set-Filled (is_indexed flags && is_string flags) db.stringindexes f _
        (unindex-Filled (old_text v) r _ (index_at-Filled db.stringindexes f h.1)) h.1,
  );
  sets_fields = λ db fields h. h;
  erases = λ db r h. h;
}

-- In any history of a database that `Reach` allows, each key of each index has at least one record.
pub Reach-Filled :
    (nfields : ℕ) (infos : List (ℕ × ℕ)) {db : Database}
    → Reach nfields infos db
    → All Filled db.intindexes × All Filled db.stringindexes
Reach-Filled n infos reached =
    Reach-induction BothFilled BothFilled-Closed n infos
      (λ db e.
        let (_, ints, texts) = new_database-empty n infos db e in
        (
          subst (λ xs. All Filled xs) (sym ints) (empty-Filled ℕ n),
          subst (λ xs. All Filled xs) (sym texts) (empty-Filled Bytes n),
        ))
      reached
