-- ===== src/Steam/Looking.antt =====
-- libdbsteam/rs.cpp: the rows of an `IndexedRecordset` are the records that the index lists under the key, and for a
-- number other than zero those whose `GetInteger` is the number.
use chorale.Base.{
  ℕ, zero, suc, ◌+◌, ◌<◌, ◌≡◌, refl, sym, ◌∙◌, ap, true, Option, none, some, List, [], ◌∷◌, ◌++◌,
  All, length, get_elem?, ◌==◌, ◌>>=◌, arith, Option-cases, inl, inr, ==_iff, length-append,
  get_elem?-append_right, append_assoc,
}
use chorale.Steam.Keys.{Key, nat_key, text_key}
use chorale.Steam.Index.{Index, find, listed, mem}
use chorale.Steam.State.{Database, Cursor, index_at, cell}
use chorale.Steam.Access.{int_of}
use chorale.Steam.Valid.{int_field}
use chorale.Steam.History.{Reach, reached-IsValid}
use chorale.Steam.Created.{KnownType}
use chorale.Base.{Gives}
use chorale.Steam.Views.{int_view}
use chorale.Steam.Filled.{Filled, find-Filled, index_at-Filled, Reach-Filled}
use chorale.Steam.Rows.{
  Place, at_record, indexed_recordset, indexed_move_next, indexed_rows, row_count, lookup,
}

module _ {K : Type 0} ⦃key : Key K⦄ (index : Index K) (k : K) where
  -- From the place after `pre`, the set that is left.
  indexed_rows-rest :
      (n : ℕ) (pre : List ℕ) (r : ℕ) (post : List ℕ)
      → find k index ≡ some (pre ++ r ∷ post)
      → length post + 1 < n
      → indexed_rows n index k (record { cursor = at_record r; subrecno = length pre })
        ≡ some (r ∷ post)
  unfolding indexed_rows indexed_move_next
  indexed_rows-rest zero pre r post there room = absurd (omega arith)
  indexed_rows-rest (suc zero) pre r post there room = absurd (omega arith)
  indexed_rows-rest (suc (suc n)) pre r [] there room =
      let last : get_elem? (pre ++ r ∷ []) (length pre + 1) ≡ none =
        get_elem?-append_right pre (r ∷ []) 1 in
      rw (there, last) refl
  indexed_rows-rest (suc (suc n)) pre r (p ∷ post) there room =
      let at : get_elem? (pre ++ r ∷ p ∷ post) (length pre + 1) ≡ some p =
        get_elem?-append_right pre (r ∷ p ∷ post) 1 in
      let next : indexed_move_next index k (record { cursor = at_record r; subrecno = length pre })
          ≡ record { cursor = at_record p; subrecno = length (pre ++ r ∷ []) } =
        rw (there, at, length-append pre (r ∷ [])) refl in
      let rest =
        indexed_rows-rest (suc n) (pre ++ r ∷ []) p post
          (there ∙ ap some (sym (append_assoc pre (r ∷ []) (p ∷ post)))) (omega arith) in
      let rows : indexed_rows (suc n) index k
            (indexed_move_next index k (record { cursor = at_record r; subrecno = length pre }))
          ≡ some (p ∷ post) =
        ap (indexed_rows (suc n) index k) next ∙ rest in
      rw (ap (λ (o : Option (List ℕ)). do t ← o; some (r ∷ t)) rows) refl

  indexed_rows-ended :
      (n : ℕ) (p : Place) → p.cursor.eof ≡ true → indexed_rows (suc n) index k p ≡ some []
  unfolding indexed_rows
  indexed_rows-ended n p ended = rw ended refl

  -- All rows: the set of the key, or none.
  lookup-find :
      (c : Cursor)
      → Filled index
      → lookup index k c ≡ some (elim (find k index) [ none ↦ [] | some s ↦ s ])
  unfolding lookup indexed_recordset row_count
  lookup-find c full = elim (Option-cases (find k index)) [
    | inl absent ↦
        let ended : Place = record {
          cursor = record { recno = c.recno; eof = true };
          subrecno = 0;
        } in
        ground (arith, absent, indexed_rows-ended 0 ended refl)
    | inr ([], there) ↦ absurd (find-Filled k index full there refl)
    | inr (r ∷ post, there) ↦
        let rows = indexed_rows-rest (suc (length (r ∷ post))) [] r post there (omega arith) in
        ground (arith, there, rows)
  ]

mem-find :
    {K : Type 0} ⦃key : Key K⦄ (index : Index K) (k : K) (r : ℕ)
    → mem r (elim (find k index) [ none ↦ [] | some s ↦ s ]) ≡ listed index k r
unfolding listed mem
mem-find index k r = elim (Option-cases (find k index)) [
  | inl absent ↦ ground (arith, absent)
  | inr (s, there) ↦ ground (arith, there)
]

-- After any history that `Reach` allows, with the flags of the constructor known: under a number other than zero, the index by number lists the records that show it.
pub listed-int_view :
    (nfields : ℕ) (infos : List (ℕ × ℕ)) {db : Database} (f n r : ℕ)
    → All KnownType infos
    → Reach nfields infos db
    → int_field db.fields f ≡ true
    → 0 < n
    → listed (index_at db.intindexes f) n r ≡ (int_view db.records r f == n)
unfolding int_view int_of
listed-int_view nfields infos {db} f n r types reached on positive =
    let valid = reached-IsValid nfields infos types reached in
    valid.ints f r n ∙ elim (Option-cases (cell db.records r f)) [
      | inl absent ↦ ground (arith, absent, positive)
      | inr (v, there) ↦
          let kept = valid.parsed r f v there on in
          ground (arith, there, on, kept, positive, ==_iff v.i n, ==_iff n v.i)
    ]

-- After any history that `Reach` allows, with the flags of the constructor known: a recordset on a value other than zero of a field with an index by
-- number, read to its end, returns, and its rows are the records whose `GetInteger` of the field is the value.
pub lookup-int_view :
    (nfields : ℕ) (infos : List (ℕ × ℕ)) {db : Database} (f n : ℕ) (c : Cursor) (r : ℕ)
    → All KnownType infos
    → Reach nfields infos db
    → int_field db.fields f ≡ true
    → 0 < n
    → Gives
        (lookup (index_at db.intindexes f) n c)
        (λ rows. mem r rows ≡ (int_view db.records r f == n))
lookup-int_view nfields infos {db} f n c r types reached on positive =
    let index = index_at db.intindexes f in
    let full = index_at-Filled db.intindexes f (Reach-Filled nfields infos reached).0 in
    (
      elim (find n index) [ none ↦ [] | some s ↦ s ],
      lookup-find index n c full,
      mem-find index n r ∙ listed-int_view nfields infos f n r types reached on positive,
    )
