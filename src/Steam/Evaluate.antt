-- ===== src/Steam/Evaluate.antt =====
-- libdb/query.cpp and libdbsteam/query.cpp: a subexpression of a query stands for a formula, and `MatchElement` computes
-- the formula's truth value at a record, which `Meaning` compares with what the formula means.
use chorale.Base.{
  ℕ, zero, suc, ◌+◌, ◌<◌, ◌≤◌, ◌≡◌, refl, ◌∙◌, Bool, true, false, ◌&&◌, ◌||◌, Option, none, some,
  Bytes, get_elem?, if◌then◌else◌, arith, Bool-cases, inl, inr,
}
use chorale.Steam.State.{Database, Cursor}
use chorale.Steam.Query.{
  RestrictionType, eq, ne, gt, lt, le, ge, like, Restriction, Subexpression, invalid, restriction,
  relation, Relation, Query, test_string, test_integer, match_restriction, match_element,
}
use chorale.Steam.Views.{
  int_view, text_view, width, SameViews, SameViews-refl, SameViews-trans, get_integer-views,
  get_string-views,
}
use chorale.Base.{Gives}

pub data Formula : Type 0 where
  test : Restriction → Formula
  joined : Bool → Formula → Formula → Formula

-- The number of calls that a subexpression needs at most, by its place in the query.
abbrev pub rank : Subexpression → ℕ
rank invalid = 0
rank (restriction k) = 1
rank (relation k) = k + 2

-- The formula that a subexpression stands for. A relation joins subexpressions that come before it.
pub data Denotes (q : Query) : Subexpression → Formula → Type 0 where
  leaf :
      (k : ℕ) (r : Restriction)
      → get_elem? q.restrictions k ≡ some r
      → Denotes q (restriction k) (test r)
  node :
      (k : ℕ) (r : Relation) {s t : Formula}
      → get_elem? q.relations k ≡ some r
      → rank r.a < k + 2
      → rank r.b < k + 2
      → Denotes q r.a s
      → Denotes q r.b t
      → Denotes q (relation k) (joined r.anditive s t)

-- The operators that the type of the value allows.
unfoldable pub permitted : Bool → RestrictionType → Bool
permitted true eq = true
permitted true ne = true
permitted true like = true
permitted true _ = false
permitted false like = false
permitted false _ = true

-- Each test is of a field in range, by an operator that its type allows.
unfoldable pub Allowed : ℕ → Formula → Type 0
unfolding permitted
Allowed n (test r) = (r.which < n) × (permitted r.is_string r.rt ≡ true)
Allowed n (joined anditive s t) = Allowed n s × Allowed n t

module _ (regex : Bytes → Bytes → Bool) where
  -- The test with the values that the record shows; a test that the type does not allow has no value.
  unfoldable pub verdict : Restriction → (ℕ → ℕ) → (ℕ → Bytes) → Option Bool
  unfolding test_string test_integer
  verdict r ints texts =
      if r.is_string
      then test_string regex r.rt (texts r.which) r.sval
      else test_integer regex r.rt (ints r.which) r.ival

  -- The truth value of a formula.
  unfoldable pub truth : Formula → (ℕ → ℕ) → (ℕ → Bytes) → Bool
  unfolding verdict
  truth (test r) ints texts = elim (verdict r ints texts) [ none ↦ false | some b ↦ b ]
  truth (joined anditive s t) ints texts =
      if anditive
      then truth s ints texts && truth t ints texts
      else truth s ints texts || truth t ints texts

  -- Of a record of the database.
  abbrev pub accepts : Formula → Database → ℕ → Bool
  accepts t db r = truth t (int_view db.records r) (text_view db.records r)

  abbrev pub Decided : Database → Database → Bool → Bool → Type 0
  Decided db db' expected b = (b ≡ expected) × SameViews db' db

  test_string-permitted :
      (rt : RestrictionType) (val sval : Bytes)
      → permitted true rt ≡ true
      → (b : Bool) × (test_string regex rt val sval ≡ some b)
  unfolding permitted test_string
  test_string-permitted eq val sval h = (_, refl)
  test_string-permitted ne val sval h = (_, refl)
  test_string-permitted like val sval h = (_, refl)
  test_string-permitted gt val sval h = cc
  test_string-permitted lt val sval h = cc
  test_string-permitted le val sval h = cc
  test_string-permitted ge val sval h = cc

  test_integer-permitted :
      (rt : RestrictionType) (val ival : ℕ)
      → permitted false rt ≡ true
      → (b : Bool) × (test_integer regex rt val ival ≡ some b)
  unfolding permitted test_integer
  test_integer-permitted eq val ival h = (_, refl)
  test_integer-permitted ne val ival h = (_, refl)
  test_integer-permitted gt val ival h = (_, refl)
  test_integer-permitted lt val ival h = (_, refl)
  test_integer-permitted le val ival h = (_, refl)
  test_integer-permitted ge val ival h = (_, refl)
  test_integer-permitted like val ival h = cc

  module _ (db : Database) (c : Cursor) (n : ℕ) (open_row : c.eof ≡ false)
      (row : width db.records c.recno ≡ some n) where
    match_restriction-truth :
        (r : Restriction)
        → Allowed n (test r)
        → Gives
            (match_restriction regex db c r)
            (λ g. Decided db g.1 (accepts (test r) db c.recno) g.0)
    unfolding match_restriction Allowed truth verdict
    match_restriction-truth r (room, fit) = elim (Bool-cases r.is_string) [
      | inl text ↦
          let (b, e) =
            test_string-permitted r.rt (text_view db.records c.recno r.which) r.sval
              (ground (arith, text, fit)) in
          let shown = get_string-views db c r.which n open_row row room in
          ((b, db), ground (arith, text, shown, e), (ground (arith, text, e), SameViews-refl db))
      | inr number ↦
          let (b, e) =
            test_integer-permitted r.rt (int_view db.records c.recno r.which) r.ival
              (ground (arith, number, fit)) in
          let (g, h, (same_value, same)) = get_integer-views db c r.which n open_row row room in
          ((b, g.1), ground (arith, number, h, same_value, e), (ground (arith, number, e), same))
    ]

  -- The formulas show a database and its kept numbers alike.
  pub accepts-SameViews :
      (t : Formula) {d e : Database} (r : ℕ) → SameViews d e → accepts t d r ≡ accepts t e r
  unfolding truth verdict
  accepts-SameViews (test x) r same =
      ground (arith, same.same_ints r x.which, same.same_texts r x.which)
  accepts-SameViews (joined anditive s t) r same =
      ground (arith, accepts-SameViews s r same, accepts-SameViews t r same)

  pub match_element-truth :
      (k : ℕ) (q : Query) (t : Formula) {e : Subexpression} (db : Database) (c : Cursor) (n : ℕ)
      → c.eof ≡ false
      → width db.records c.recno ≡ some n
      → Denotes q e t
      → Allowed n t
      → rank e ≤ k
      → Gives (match_element regex k q db c e) (λ g. Decided db g.1 (accepts t db c.recno) g.0)
  unfolding match_element Allowed truth
  match_element-truth zero q t db c n open_row row (leaf j r at) h fits = absurd (omega arith)
  match_element-truth zero q t db c n open_row row (node j r at a_first b_first a b) h fits =
      absurd (omega arith)
  match_element-truth (suc k) q t db c n open_row row (leaf j r at) h fits =
      rw at (match_restriction-truth db c n open_row row r h)
  match_element-truth (suc k) q t db c n open_row row (node j r {s} {t = u} at a_first b_first a b)
        h fits =
      let (g, e, (value, same)) =
        match_element-truth k q s db c n open_row row a h.0 (omega arith) in
      let (g', e', (value', same')) =
        match_element-truth k q u g.1 c n open_row (same.same_width c.recno ∙ row) b h.1
          (omega arith) in
      let rhs = value' ∙ accepts-SameViews u c.recno same in
      elim (Bool-cases r.anditive) [
        | inl conj ↦ elim (Bool-cases g.0) [
          | inl met ↦ (
            g',
            ground (arith, at, e, e', conj, met),
            (ground (arith, rhs, value, conj, met), SameViews-trans same' same),
          )
          | inr unmet ↦ (
            (false, g.1),
            ground (arith, at, e, conj, unmet),
            (ground (arith, value, conj, unmet), same),
          )
        ]
        | inr disj ↦ elim (Bool-cases g.0) [
          | inl met ↦ (
            (true, g.1),
            ground (arith, at, e, disj, met),
            (ground (arith, value, disj, met), same),
          )
          | inr unmet ↦ (
            g',
            ground (arith, at, e, e', disj, unmet),
            (ground (arith, rhs, value, disj, unmet), SameViews-trans same' same),
          )
        ]
      ]
