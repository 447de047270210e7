-- ===== src/Steam/Scanning.antt =====
-- libdbsteam/rs.cpp: the rows of a `SimpleRecordset` are the records that match, in the order of their numbers.
use chorale.Base.{
  ℕ, zero, suc, ◌+◌, ◌<◌, ◌≤◌, ◌≡◌, ◌⊎◌, refl, sym, ◌∙◌, ap, Bool, true, false, Option, none, some,
  List, [], ◌∷◌, ◌++◌, Bytes, All, length, if◌then◌else◌, arith, Bool-cases, List-cases, inl, inr,
  append_assoc, subst,
}
use chorale.Steam.State.{Database, Cursor, Fields, upper_bound}
use chorale.Steam.Query.{Query}
use chorale.Steam.Views.{numbers, SameViews, SameViews-refl}
use chorale.Base.{Gives}
use chorale.Steam.Rows.{
  new_recordset, at_record, row_matches, simple_loop, simple_move_next, simple_recordset,
  simple_rows, scan,
}

-- Strictly ascending.
unfoldable pub Ascending : List ℕ → Type 0
Ascending [] = Unit
Ascending (x ∷ xs) = All (λ y. x < y) xs × Ascending xs

-- The elements that pass, in their order.
unfoldable pub select : (ℕ → Bool) → List ℕ → List ℕ
select accept [] = []
select accept (x ∷ xs) = let rest = select accept xs in if accept x then x ∷ rest else rest

abbrev pub first : List ℕ → Option ℕ
first [] = none
first (x ∷ xs) = some x

All-middle : {x y : ℕ} (pre post : List ℕ) → All (λ z. x < z) (pre ++ y ∷ post) → x < y
All-middle [] post h = h.0
All-middle (z ∷ pre) post h = All-middle pre post h.1

length-numbers : (m : List (ℕ × Fields)) → length (numbers m) ≡ length m
length-numbers [] = refl
length-numbers (x ∷ m) = omega (arith, length-numbers m)

upper_bound-head :
    (m : List (ℕ × Fields)) (r : ℕ)
    → All (λ z. r < z) (numbers m)
    → upper_bound r m ≡ first (numbers m)
unfolding upper_bound
upper_bound-head [] r h = refl
upper_bound-head ((q, v) ∷ m) r h = let above : r < q = h.0 in ground arith

-- After a number come the numbers that follow it in the map.
upper_bound-first :
    (m : List (ℕ × Fields)) (pre : List ℕ) (r : ℕ) (post : List ℕ)
    → Ascending (numbers m)
    → numbers m ≡ pre ++ r ∷ post
    → upper_bound r m ≡ first post
unfolding upper_bound Ascending
upper_bound-first [] [] r post up e = cc
upper_bound-first [] (x ∷ pre) r post up e = cc
upper_bound-first ((q, v) ∷ m) [] r post up e =
    let here : q ≡ r = cc in
    let after : numbers m ≡ post = cc in
    let above : All (λ z. r < z) (numbers m) =
      subst (λ k. All (λ z. k < z) (numbers m)) here up.0 in
    ground (arith, upper_bound-head m r above, after)
upper_bound-first ((q, v) ∷ m) (x ∷ pre) r post up e =
    let after : numbers m ≡ pre ++ r ∷ post = cc in
    let above : q < r = All-middle pre post (subst (All (λ z. q < z)) after up.0) in
    let rest = upper_bound-first m pre r post up.1 after in ground (arith, above, rest)

post_fits :
    (m : List (ℕ × Fields)) (pre : List ℕ) (r : ℕ) (post : List ℕ)
    → numbers m ≡ pre ++ r ∷ post
    → length post + 1 ≤ length m
post_fits [] [] r post e = cc
post_fits [] (x ∷ pre) r post e = cc
post_fits (y ∷ m) [] r post e = let h : numbers m ≡ post = cc in ground (arith, h, length-numbers m)
post_fits (y ∷ m) (x ∷ pre) r post e = let h = post_fits m pre r post cc in omega arith

-- What holds of a database for the rows to be found: the numbers ascend, and the query decides each record alike, now and
-- after `GetInteger` has kept numbers.
module _ (regex : Bytes → Bytes → Bool) (q : Option Query) (start : Database) (accept : ℕ → Bool)
    (up : Ascending (numbers start.records))
    (answers : (db : Database) (pre : List ℕ) (r : ℕ) (post : List ℕ)
      → SameViews db start
      → numbers start.records ≡ pre ++ r ∷ post
      → Gives
          (row_matches regex q db (at_record r))
          (λ g. (g.0 ≡ accept r) × SameViews g.1 start)) where
  -- The cursor is at the first number that passes, of those that follow; or there is none, and it is at the end.
  Landing : List ℕ → Cursor → Type 0
  unfolding select
  Landing post c =
      ((c.eof ≡ true) × (select accept post ≡ []))
      ⊎ ((pre' : List ℕ) × (p : ℕ) × (post' : List ℕ) × (c ≡ at_record p)
          × (numbers start.records ≡ pre' ++ p ∷ post')
          × (select accept post ≡ p ∷ select accept post')
          × (length post' < length post))

  Landing-skip :
      (p : ℕ) (post : List ℕ) (c : Cursor)
      → accept p ≡ false
      → Landing post c
      → Landing (p ∷ post) c
  unfolding Landing select
  Landing-skip p post c fail (inl (ended, none_left)) = inl (ended, ground (arith, fail, none_left))
  Landing-skip p post c fail (inr (pre', p', post', at, e, rows, shorter)) =
      inr (pre', p', post', at, e, ground (arith, fail, rows), omega arith)

  simple_loop-Landing :
      (n : ℕ) (db : Database) (c : Cursor) (pre post : List ℕ)
      → SameViews db start
      → numbers start.records ≡ pre ++ c.recno ∷ post
      → length post < n
      → Gives (simple_loop regex q n db c) (λ g. Landing post g.0 × SameViews g.1 start)
  unfolding simple_loop Landing select
  simple_loop-Landing zero db c pre post same e room = absurd (omega arith)
  simple_loop-Landing (suc n) db c pre [] same e room =
      let ended =
        upper_bound-first db.records pre c.recno [] (subst Ascending (sym same.same_numbers) up)
          (same.same_numbers ∙ e) in
      (
        (record { recno = c.recno; eof = true }, db),
        ground (arith, ended),
        (inl (refl, refl), same),
      )
  simple_loop-Landing (suc n) db c pre (p ∷ post) same e room =
      let ended =
        upper_bound-first db.records pre c.recno (p ∷ post)
          (subst Ascending (sym same.same_numbers) up) (same.same_numbers ∙ e) in
      let e' = e ∙ sym (append_assoc pre (c.recno ∷ []) (p ∷ post)) in
      let (m, found, (value, same')) = answers db (pre ++ c.recno ∷ []) p post same e' in
      elim (Bool-cases (accept p)) [
        | inl pass ↦ (
          (at_record p, m.1),
          ground (arith, ended, found, value, pass),
          (inr (pre ++ c.recno ∷ [], p, post, refl, e', ground (arith, pass), omega arith), same'),
        )
        | inr fail ↦
            let (g, h, (landed, last)) =
              simple_loop-Landing n m.1 (at_record p) (pre ++ c.recno ∷ []) post same' e'
                (omega arith) in
            (
              g,
              ground (arith, ended, found, value, fail, h),
              (Landing-skip p post g.0 fail landed, last),
            )
      ]

  simple_move_next-Landing :
      (db : Database) (c : Cursor) (pre post : List ℕ)
      → c.eof ≡ false
      → SameViews db start
      → numbers start.records ≡ pre ++ c.recno ∷ post
      → Gives (simple_move_next regex q db c) (λ g. Landing post g.0 × SameViews g.1 start)
  unfolding simple_move_next
  simple_move_next-Landing db c pre post open_row same e =
      let enough = post_fits db.records pre c.recno post (same.same_numbers ∙ e) in
      let (g, h, found) =
        simple_loop-Landing (suc (length db.records)) db c pre post same e (omega arith) in
      (g, ground (arith, open_row, h), found)

  simple_rows-ended :
      (n : ℕ) (db : Database) (c : Cursor)
      → c.eof ≡ true
      → 0 < n
      → simple_rows regex q n db c ≡ some ([], db)
  unfolding simple_rows
  simple_rows-ended zero db c ended room = absurd (omega arith)
  simple_rows-ended (suc n) db c ended room = rw ended refl

  -- From a row on.
  simple_rows-select :
      (n : ℕ) (db : Database) (c : Cursor) (pre post : List ℕ)
      → c.eof ≡ false
      → SameViews db start
      → numbers start.records ≡ pre ++ c.recno ∷ post
      → length post + 1 < n
      → Gives
          (simple_rows regex q n db c)
          (λ g. (g.0 ≡ c.recno ∷ select accept post) × SameViews g.1 start)
  unfolding simple_rows Landing
  simple_rows-select zero db c pre post open_row same e room = absurd (omega arith)
  simple_rows-select (suc n) db c pre post open_row same e room =
      let (g, h, (landed, same')) = simple_move_next-Landing db c pre post open_row same e in
      elim landed [
        | inl (ended, none_left) ↦ (
          (c.recno ∷ [], g.1),
          ground (arith, open_row, h, simple_rows-ended n g.1 g.0 ended (omega arith)),
          (ground (arith, none_left), same'),
        )
        | inr (pre', p, post', at, e', rows, shorter) ↦
            let open_row' : g.0.eof ≡ false = ap (λ (x : Cursor). x.eof) at in
            let here : g.0.recno ≡ p = ap (λ (x : Cursor). x.recno) at in
            let (k, h', (found, last)) =
              simple_rows-select n g.1 g.0 pre' post' open_row' same' (rw here e') (omega arith) in
            (
              (c.recno ∷ k.0, k.1),
              ground (arith, open_row, h, h'),
              (ground (arith, found, rows, here), last),
            )
      ]

  -- From where the loop of `MoveNext` has stopped.
  simple_rows-Landing :
      (n : ℕ) (db : Database) (c : Cursor) (post : List ℕ)
      → Landing post c
      → SameViews db start
      → length post < n
      → Gives (simple_rows regex q n db c) (λ g. (g.0 ≡ select accept post) × SameViews g.1 start)
  unfolding Landing
  simple_rows-Landing n db c post (inl (ended, none_left)) same room =
      (([], db), simple_rows-ended n db c ended (omega arith), (sym none_left, same))
  simple_rows-Landing n db c post (inr (pre', p, post', at, e, rows, shorter)) same room =
      let here : c.recno ≡ p = ap (λ (x : Cursor). x.recno) at in
      let (g, h, (found, last)) =
        simple_rows-select n db c pre' post' (ap (λ (x : Cursor). x.eof) at) same (rw here e)
          (omega arith) in
      (g, h, (grind (arith, found, rows, here), last))

  -- All rows of a new recordset.
  pub scan-select :
      Gives
        (scan regex q start)
        (λ g. (g.0 ≡ select accept (numbers start.records)) × SameViews g.1 start)
  unfolding scan simple_recordset new_recordset select simple_rows
  scan-select = elim (List-cases start.records) [
    | inl empty ↦
        (([], start), ground (arith, empty), (ground (arith, empty), SameViews-refl start))
    | inr ((r, w), m, some_left) ↦
        let e : numbers start.records ≡ r ∷ numbers m = ap numbers some_left in
        let (g, h, (value, same)) = answers start [] r (numbers m) (SameViews-refl start) e in
        let enough = post_fits start.records [] r (numbers m) e in
        let size = suc (length start.records) in
        elim (Bool-cases (accept r)) [
          | inl pass ↦
              let (k, h', (found, last)) =
                simple_rows-select size g.1 (at_record r) [] (numbers m) refl same e
                  (omega arith) in
              (
                k,
                ground (arith, some_left, h, value, pass, h'),
                (ground (arith, found, e, pass), last),
              )
          | inr fail ↦
              let (j, i, (landed, same')) =
                simple_move_next-Landing g.1 (at_record r) [] (numbers m) refl same e in
              let (k, h', (found, last)) =
                simple_rows-Landing size j.1 j.0 (numbers m) landed same' (omega arith) in
              (
                k,
                ground (arith, some_left, h, value, fail, i, h'),
                (ground (arith, found, e, fail), last),
              )
        ]
  ]
