-- ===== src/Steam/Building.antt =====
-- libdb/query.cpp: the subexpressions that `Restrict`, `And` and `Or` give stand for the formulas that were asked for, and
-- `Match` decides the formula of the root, where its tests are allowed, at a record that is there.
use chorale.Base.{
  ◌↔◌, subst, sym, ℕ, zero, suc, ◌≤◌, ◌≡◌, refl, Bool, true, false, some, List, [], ◌∷◌, ◌++◌,
  Bytes, length, get_elem?, lt_of_get_elem?, arith,
}
use chorale.Steam.State.{Database, Cursor}
use chorale.Steam.Query.{
  Restriction, Subexpression, relation, Relation, Query, restrict, exists, combine, is_null,
  restrict_where, matches,
}
use chorale.Steam.Views.{width, SameViews}
use chorale.Steam.Evaluate.{
  Formula, test, joined, rank, Denotes, leaf, node, Allowed, Decided, accepts, match_element-truth,
}
use chorale.Steam.Meaning.{SatisfiesAt, accepts-SatisfiesAt}
use chorale.Base.{Gives}

get_elem?-snoc_old :
    {A : Type 0} (xs : List A) (x y : A) (k : ℕ)
    → get_elem? xs k ≡ some y
    → get_elem? (xs ++ x ∷ []) k ≡ some y
get_elem?-snoc_old [] x y k h = cc
get_elem?-snoc_old (z ∷ xs) x y zero h = h
get_elem?-snoc_old (z ∷ xs) x y (suc k) h = get_elem?-snoc_old xs x y k h

get_elem?-snoc_new :
    {A : Type 0} (xs : List A) (x : A) → get_elem? (xs ++ x ∷ []) (length xs) ≡ some x
get_elem?-snoc_new [] x = refl
get_elem?-snoc_new (z ∷ xs) x = get_elem?-snoc_new xs x

-- A query with the elements of another and more.
record Extends (q p : Query) : Type 0 where
  more_restrictions :
      (k : ℕ) (r : Restriction)
      → get_elem? q.restrictions k ≡ some r
      → get_elem? p.restrictions k ≡ some r
  more_relations :
      (k : ℕ) (r : Relation) → get_elem? q.relations k ≡ some r → get_elem? p.relations k ≡ some r

Denotes-Extends :
    {q p : Query} → Extends q p → {e : Subexpression} {t : Formula} → Denotes q e t → Denotes p e t
Denotes-Extends more (leaf k r at) = leaf k r (more.more_restrictions k r at)
Denotes-Extends more (node k r at a_first b_first a b) =
    node k r (more.more_relations k r at) a_first b_first (Denotes-Extends more a)
      (Denotes-Extends more b)

-- `Restrict` gives a subexpression that stands for the test.
pub restrict-Denotes :
    (q : Query) (r : Restriction) → Denotes (restrict q r).0 (restrict q r).1 (test r)
unfolding restrict
restrict-Denotes q r = leaf (length q.restrictions) r (get_elem?-snoc_new q.restrictions r)

-- What another subexpression stands for is unchanged by `Restrict`.
pub restrict-Denotes_other :
    (q : Query) (r : Restriction) {e : Subexpression} {t : Formula}
    → Denotes q e t
    → Denotes (restrict q r).0 e t
unfolding restrict
restrict-Denotes_other q r d =
    Denotes-Extends
      record {
        more_restrictions = λ k y h. get_elem?-snoc_old q.restrictions r y k h;
        more_relations = λ k y h. h;
      }
      d

Denotes-exists : {q : Query} {e : Subexpression} {t : Formula} → Denotes q e t → exists q e ≡ true
unfolding exists
Denotes-exists {q} (leaf k r at) = ground (arith, lt_of_get_elem? q.restrictions k at)
Denotes-exists {q} (node k r at a_first b_first a b) =
    ground (arith, lt_of_get_elem? q.relations k at)

Denotes-rank :
    {q : Query} {e : Subexpression} {t : Formula}
    → Denotes q e t
    → rank e ≤ suc (length q.relations)
Denotes-rank (leaf k r at) = omega arith
Denotes-rank {q} (node k r at a_first b_first a b) =
    let h = lt_of_get_elem? q.relations k at in omega arith

Denotes-not_null : {q : Query} {e : Subexpression} {t : Formula} → Denotes q e t → is_null e ≡ false
unfolding is_null
Denotes-not_null (leaf k r at) = refl
Denotes-not_null (node k r at a_first b_first a b) = refl

-- `And` and `Or` on subexpressions that stand for formulas pass their assertions and give one that stands for the
-- formulas joined, and what another one stands for is unchanged.
pub combine-Denotes :
    (anditive : Bool) (q : Query) {a b e : Subexpression} {s t u : Formula}
    → Denotes q a s
    → Denotes q b t
    → Denotes q e u
    → Gives
        (combine anditive q a b)
        (λ made. Denotes made.0 made.1 (joined anditive s t) × Denotes made.0 e u)
unfolding combine
combine-Denotes anditive q {a} {b} left right other =
    let new : Relation = record { anditive = anditive; a = a; b = b } in
    let made : Query = record q { relations = q.relations ++ new ∷ [] } in
    let more : Extends q made = record {
      more_restrictions = λ k y h. h;
      more_relations = λ k y h. get_elem?-snoc_old q.relations new y k h;
    } in
    let a_first = Denotes-rank left in
    let b_first = Denotes-rank right in
    rw (Denotes-exists left, Denotes-exists right)
      (
        (made, relation (length q.relations)),
        refl,
        (
          node (length q.relations) new (get_elem?-snoc_new q.relations new) (omega arith)
              (omega arith) (Denotes-Extends more left) (Denotes-Extends more right),
          Denotes-Extends more other,
        ),
      )

-- `Where` accepts a subexpression that stands for a formula, and the query then stands for it.
pub restrict_where-Denotes :
    (q : Query) {e : Subexpression} {t : Formula}
    → Denotes q e t
    → Gives (restrict_where q e) (λ p. Denotes p p.root t)
unfolding restrict_where
restrict_where-Denotes q {e} d =
    let more : Extends q (record q { root = e }) = record {
      more_restrictions = λ k y h. h;
      more_relations = λ k y h. h;
    } in
    (record q { root = e }, ground (arith, Denotes-exists d), Denotes-Extends more d)

-- `Match` computes the truth value of the formula.
pub matches-accepts :
    (regex : Bytes → Bytes → Bool) (q : Query) (t : Formula) (db : Database) (c : Cursor) (n : ℕ)
    → c.eof ≡ false
    → width db.records c.recno ≡ some n
    → Denotes q q.root t
    → Allowed n t
    → Gives (matches regex q db c) (λ g. Decided regex db g.1 (accepts regex t db c.recno) g.0)
unfolding matches
matches-accepts regex q t db c n open_row row d h =
    let (g, e, decided) =
      match_element-truth regex (suc (length q.relations)) q t db c n open_row row d h
        (Denotes-rank d) in
    (g, ground (arith, e, Denotes-not_null d), decided)

-- At a record that is there, with a query that stands for a formula whose tests are all of existing fields by operators
-- that their types allow: `Match` returns; it gives true exactly where the numbers and texts that `GetInteger` and
-- `GetString` show of the record satisfy the formula, by equality, order and the pattern; and it changes nothing that
-- they show of any record.
pub matches-truth :
    (regex : Bytes → Bytes → Bool) (q : Query) (t : Formula) (db : Database) (c : Cursor) (n : ℕ)
    → c.eof ≡ false
    → width db.records c.recno ≡ some n
    → Denotes q q.root t
    → Allowed n t
    → Gives
        (matches regex q db c)
        (λ g. ((g.0 ≡ true) ↔ SatisfiesAt regex t db c.recno) × SameViews g.1 db)
matches-truth regex q t db c n open_row row d h =
    let (g, e, (value, same)) = matches-accepts regex q t db c n open_row row d h in
    let meaning = accepts-SatisfiesAt regex n t db c.recno h in
    (g, e, (subst (λ b. (b ≡ true) ↔ SatisfiesAt regex t db c.recno) (sym value) meaning, same))
