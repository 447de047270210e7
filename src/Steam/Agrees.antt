-- ===== src/Steam/Agrees.antt =====
-- libdbsteam/rs.cpp: an index agrees with the records if it lists a record under a value exactly where the record
-- holds that value. What follows serves the indexes by number and by text alike.
use chorale.Base.{
  ℕ, zero, suc, ◌+◌, ◌<◌, ◌≡◌, Bool, true, false, not, ◌&&◌, ◌||◌, Option, none, some, List, [],
  ◌∷◌, length, set, replicate, ◌==◌, if◌then◌else◌, arith, Bool-cases, inl, inr, ==_iff, ltb, ◌⊎◌,
  ◌≤◌,
}
use chorale.Steam.Keys.{Key}
use chorale.Steam.Index.{Index, listed, listed-index_add, listed-index_remove}
use chorale.Steam.State.{
  FieldValue, Fields, blank, cell, put_cell, erase_record, new_record, find_record, index_at,
}
use chorale.Steam.Access.{unindex, reindex}
use chorale.Steam.Records.{
  cell-put_cell, cell-erase_record, cell-new_record, get_elem?-replicate-none,
}

module _ {K : Type 0} ⦃key : Key K⦄ where
  abbrev pub is_key : Option K → K → Bool
  is_key none k = false
  is_key (some j) k = key.same k j

  -- Does the value, if there is one, stand under the key?
  abbrev pub holds : (FieldValue → Option K) → Option FieldValue → K → Bool
  holds old none k = false
  holds old (some v) k = is_key (old v) k

  pub listed-unindex :
      (old : Option K) (k : K) (r q : ℕ) (m : Index K)
      → listed (unindex old r m) k q ≡ (not (is_key old k && (q == r)) && listed m k q)
  unfolding unindex
  listed-unindex none k r q m = ground arith
  listed-unindex (some j) k r q m = listed-index_remove j k r q m

  pub listed-reindex :
      (old : Option K) (n k : K) (r q : ℕ) (m : Index K)
      → listed (reindex old n r m) k q
        ≡ ((key.same k n && (q == r)) || (not (is_key old k && (q == r)) && listed m k q))
  unfolding reindex
  listed-reindex old n k r q m =
      ground (arith, listed-index_add n k r q (unindex old r m), listed-unindex old k r q m)

  pub index_at-set :
      (xs : List (Index K)) (f g : ℕ) (m : Index K)
      → f < length xs
      → index_at (set xs f m) g ≡ (if g == f then m else index_at xs g)
  unfolding index_at
  index_at-set [] f g m h = absurd (omega arith)
  index_at-set (x ∷ xs) zero zero m h = ground arith
  index_at-set (x ∷ xs) zero (suc g) m h = ground arith
  index_at-set (x ∷ xs) (suc f) zero m h = ground arith
  index_at-set (x ∷ xs) (suc f) (suc g) m h = ground (arith, index_at-set xs f g m)

  module _ (on : ℕ → Bool) (old : FieldValue → Option K) where
    abbrev pub Agrees : List (ℕ × Fields) → List (Index K) → Type 0
    Agrees m xs =
        (f r : ℕ) (k : K) → listed (index_at xs f) k r ≡ (on f && holds old (cell m r f) k)

    -- The index of a field moves the record from its old value to the new one.
    pub Agrees-write :
        (m : List (ℕ × Fields)) (xs : List (Index K)) (r f : ℕ) (v v' : FieldValue) (n : K)
        → Agrees m xs
        → cell m r f ≡ some v
        → f < length xs
        → on f ≡ true
        → old v' ≡ some n
        → Agrees (put_cell r f v' m) (set xs f (reindex (old v) n r (index_at xs f)))
    Agrees-write m xs r f v v' n a e h o w g q k = ground (
      arith,
      a g q k,
      a f q k,
      e,
      cell-put_cell q r g f v' m e,
      index_at-set xs f g (reindex (old v) n r (index_at xs f)) h,
      listed-reindex (old v) n k r q (index_at xs f),
      o,
      w,
    )

    -- A change that no index of this kind shows: the field has none, or its key stays.
    pub Agrees-put :
        (m : List (ℕ × Fields)) (xs : List (Index K)) (r f : ℕ) (v v' : FieldValue)
        → Agrees m xs
        → cell m r f ≡ some v
        → (on f ≡ false) ⊎ (old v' ≡ old v)
        → Agrees (put_cell r f v' m) xs
    Agrees-put m xs r f v v' a e (inl off) g q k =
        ground (arith, a g q k, e, off, cell-put_cell q r g f v' m e, ==_iff g f)
    Agrees-put m xs r f v v' a e (inr same) g q k =
        ground (arith, a g q k, e, same, cell-put_cell q r g f v' m e)

    pub Agrees-new_record :
        (m : List (ℕ × Fields)) (xs : List (Index K)) (r n : ℕ)
        → Agrees m xs
        → find_record r m ≡ none
        → old blank ≡ none
        → Agrees (new_record r (replicate n blank) m) xs
    unfolding cell
    Agrees-new_record m xs r n a h b g q k = elim (get_elem?-replicate-none n g) [
      | inl out ↦ ground (arith, a g q k, cell-new_record q r g n m h, out, h, ==_iff q r)
      | inr inside ↦ ground (arith, a g q k, cell-new_record q r g n m h, inside, b, h, ==_iff q r)
    ]

    -- An index that lists every record but `r`, whose values are taken out of it from the field `f` on.
    abbrev pub AgreesBut : ℕ → ℕ → List (ℕ × Fields) → List (Index K) → Type 0
    AgreesBut r f m xs =
        (g q : ℕ) (k : K)
        → listed (index_at xs g) k q
          ≡ (on g && (not ((q == r) && ltb g f) && holds old (cell m q g) k))

    pub AgreesBut-step :
        (m : List (ℕ × Fields)) (xs : List (Index K)) (r f : ℕ) (v : FieldValue)
        → AgreesBut r f m xs
        → cell m r f ≡ some v
        → f < length xs
        → on f ≡ true
        → AgreesBut r (f + 1) m (set xs f (unindex (old v) r (index_at xs f)))
    AgreesBut-step m xs r f v a e h o g q k = ground (
      arith,
      a g q k,
      e,
      o,
      index_at-set xs f g (unindex (old v) r (index_at xs f)) h,
      listed-unindex (old v) k r q (index_at xs f),
      a f q k,
    )

    pub AgreesBut-skip :
        (m : List (ℕ × Fields)) (xs : List (Index K)) (r f : ℕ)
        → AgreesBut r f m xs
        → on f ≡ false
        → AgreesBut r (f + 1) m xs
    AgreesBut-skip m xs r f a o g q k = ground (arith, a g q k, o)

    pub AgreesBut-start :
        (m : List (ℕ × Fields)) (xs : List (Index K)) (r : ℕ) → Agrees m xs → AgreesBut r 0 m xs
    AgreesBut-start m xs r a g q k = ground (arith, a g q k)

    -- All values of the record are out, and the record goes.
    pub AgreesBut-end :
        (m : List (ℕ × Fields)) (xs : List (Index K)) (r n : ℕ)
        → AgreesBut r n m xs
        → ((g : ℕ) → n ≤ g → on g ≡ false)
        → Agrees (erase_record r m) xs
    AgreesBut-end m xs r n a out g q k = elim (Bool-cases (ltb g n)) [
      | inl inside ↦ ground (arith, a g q k, cell-erase_record q r g m, inside)
      | inr beyond ↦ ground (arith, a g q k, cell-erase_record q r g m, beyond, out g)
    ]
