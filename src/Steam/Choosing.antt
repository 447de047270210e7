-- ===== src/Steam/Choosing.antt =====
-- libdbsteam/query.cpp: where `Execute` looks a number other than zero up in the index of a field with an index by number
-- instead of scanning, the rows are the same, for a query whose tests are allowed. For zero, for the empty text, and for a
-- field with an index of the other kind, they need not be.
use mathlib.Core.Option.{some-injective}
use chorale.Base.{
  ◌↔◌, subst, ℕ, zero, suc, ◌<◌, ◌≡◌, refl, sym, ◌∙◌, ap, Bool, true, false, not, ◌&&◌, none, some,
  List, [], ◌∷◌, Bytes, All, length, get_elem?, ◌==◌, arith, Bool-cases, Option-cases, List-cases,
  inl, inr,
}
use chorale.Steam.Keys.{nat_key}
use chorale.Steam.Index.{mem}
use chorale.Steam.State.{Database, Cursor, Fields, find_record, cell, index_at, is_indexed}
use chorale.Steam.Query.{
  RestrictionType, eq, ne, gt, lt, ge, le, like, Restriction, Subexpression, Query, is_null,
  test_integer,
}
use chorale.Base.{Gives}
use chorale.Steam.Valid.{int_field}
use chorale.Steam.History.{Reach}
use chorale.Steam.Created.{KnownType}
use chorale.Steam.Views.{int_view, text_view, numbers}
use chorale.Steam.Evaluate.{Formula, test, Denotes, leaf, node, Allowed, truth, verdict, accepts}
use chorale.Steam.Selecting.{mem-select, mem-accepts}
use chorale.Steam.Meaning.{SatisfiesAt}
use chorale.Steam.Rows.{lookup}
use chorale.Steam.Scanning.{select}
use chorale.Steam.Looking.{lookup-int_view}
use chorale.Steam.Ordered.{looked_up_number, is_eq, plan_restrictions, plan}

-- A formula over one test is true where the test is.
single_truth :
    (regex : Bytes → Bytes → Bool) (q : Query) (r : Restriction) (ints : ℕ → ℕ) (texts : ℕ → Bytes)
    {e : Subexpression} {t : Formula}
    → q.restrictions ≡ r ∷ []
    → Denotes q e t
    → truth regex t ints texts ≡ truth regex (test r) ints texts
unfolding truth
single_truth regex q r ints texts one (leaf zero x at) =
    let same : r ≡ x = some-injective _ _ (sym (ap (λ rs. get_elem? rs 0) one) ∙ at) in
    ap (λ y. truth regex (test y) ints texts) (sym same)
single_truth regex q r ints texts one (leaf (suc k) x at) =
    let absent : none ≡ some x = sym (ap (λ rs. get_elem? rs (suc k)) one) ∙ at in cc
single_truth regex q r ints texts one (node k x {s} {t = u} at a_first b_first a b) =
    ground (arith, single_truth regex q r ints texts one a, single_truth regex q r ints texts one b)

abbrev OneTest : List Restriction → ℕ → ℕ → Type 0
OneTest rs f n =
    (r : Restriction) × (rs ≡ r ∷ [])
    × (is_eq r.rt ≡ true)
    × (r.is_string ≡ false)
    × (r.which ≡ f)
    × (r.ival ≡ n)

plan_restrictions-OneTest :
    (fields : List ℕ) (rs : List Restriction) (f n : ℕ)
    → plan_restrictions fields rs ≡ some (looked_up_number f n)
    → OneTest rs f n
unfolding plan_restrictions
plan_restrictions-OneTest fields [] f n h = cc
plan_restrictions-OneTest fields (r ∷ x ∷ rs) f n h = cc
plan_restrictions-OneTest fields (r ∷ []) f n h = elim (Bool-cases (is_eq r.rt)) [
  | inr other ↦ absurd (ground (arith, h, other))
  | inl equal ↦ elim (Option-cases (get_elem? fields r.which)) [
    | inl off ↦ absurd (ground (arith, h, equal, off))
    | inr (flags, on) ↦ elim (Bool-cases (is_indexed flags)) [
      | inr plain ↦ absurd (ground (arith, h, equal, on, plain))
      | inl indexed ↦ elim (Bool-cases r.is_string) [
        | inl text ↦ absurd (ground (arith, h, equal, on, indexed, text))
        | inr number ↦
            let chosen : some (looked_up_number r.which r.ival) ≡ some (looked_up_number f n) =
              ground (arith, h, equal, on, indexed, number) in
            (r, refl, equal, number, cc, cc)
      ]
    ]
  ]
]

-- `Execute` looks a number up only for a query with one test, of that field for that number.
plan-OneTest :
    (fields : List ℕ) (q : Query) (f n : ℕ)
    → plan fields q ≡ some (looked_up_number f n)
    → OneTest q.restrictions f n
unfolding plan
plan-OneTest fields q f n h =
    elim (Bool-cases (is_null q.root && not (length q.restrictions == 0))) [
      | inl fault ↦ absurd (ground (arith, h, fault))
      | inr fine ↦ elim (List-cases q.collateby) [
        | inr (g, more, collate) ↦ absurd (ground (arith, h, fine, collate))
        | inl no_collate ↦ elim (List-cases q.orderby) [
          | inr (g, more, order) ↦ absurd (ground (arith, h, fine, no_collate, order))
          | inl no_order ↦
              plan_restrictions-OneTest fields q.restrictions f n
                (ground (arith, h, fine, no_collate, no_order))
        ]
      ]
    ]

mem-numbers : (m : List (ℕ × Fields)) (r : ℕ) → (mem r (numbers m) ≡ false) → find_record r m ≡ none
unfolding mem find_record
mem-numbers [] r h = refl
mem-numbers ((q, v) ∷ m) r h = ground (arith, mem-numbers m r, h)

test_integer-eq :
    (regex : Bytes → Bytes → Bool) (rt : RestrictionType) (val ival : ℕ)
    → is_eq rt ≡ true
    → test_integer regex rt val ival ≡ some (val == ival)
unfolding test_integer
test_integer-eq regex eq val ival h = refl
test_integer-eq regex ne val ival h = cc
test_integer-eq regex gt val ival h = cc
test_integer-eq regex lt val ival h = cc
test_integer-eq regex le val ival h = cc
test_integer-eq regex ge val ival h = cc
test_integer-eq regex like val ival h = cc

single_accepts :
    (regex : Bytes → Bytes → Bool) (r : Restriction) (db : Database) (p : ℕ)
    → is_eq r.rt ≡ true
    → r.is_string ≡ false
    → accepts regex (test r) db p ≡ (int_view db.records p r.which == r.ival)
unfolding truth verdict
single_accepts regex r db p equal number =
    ground (arith, number, test_integer-eq regex r.rt (int_view db.records p r.which) r.ival equal)

-- A record that shows a number other than zero is there.
shown-mem :
    (m : List (ℕ × Fields)) (r f n : ℕ)
    → 0 < n
    → (int_view m r f == n) ≡ ((int_view m r f == n) && mem r (numbers m))
unfolding int_view cell
shown-mem m r f n positive = elim (Bool-cases (mem r (numbers m))) [
  | inl there ↦ ground (arith, there)
  | inr absent ↦ ground (arith, absent, mem-numbers m r absent, positive)
]

-- Where the flags given to the constructor, and to `SetFieldInfo`, name one of the two types, and `SetFieldInfo` is called
-- only while there are no records, after any history of calls that name existing fields: if `Execute` answers a query by
-- looking a number other than zero up in the index of a field with an index by number, and the query stands for a formula
-- whose tests are all of existing fields by operators that their types allow, then the recordset, read to its end,
-- returns, and a record is a row exactly if it is there and satisfies the formula, as with a scan.
pub plan-lookup :
    (nfields : ℕ) (infos : List (ℕ × ℕ)) (regex : Bytes → Bytes → Bool) (q : Query) (t : Formula)
    {db : Database} (f n : ℕ) (c : Cursor) (r : ℕ)
    → All KnownType infos
    → Reach nfields infos db
    → Denotes q q.root t
    → Allowed db.nfields t
    → plan db.fields q ≡ some (looked_up_number f n)
    → int_field db.fields f ≡ true
    → 0 < n
    → Gives (lookup (index_at db.intindexes f) n c) (λ rows.
      (mem r rows ≡ true) ↔ ((mem r (numbers db.records) ≡ true) × SatisfiesAt regex t db r))
plan-lookup nfields infos regex q t {db} f n c r types reached meaning fit chosen on positive =
    let (x, one, equal, number, field, value) = plan-OneTest db.fields q f n chosen in
    let (rows, e, found) = lookup-int_view nfields infos f n c r types reached on positive in
    let decided : accepts regex t db r ≡ (int_view db.records r f == n) =
      single_truth regex q x (int_view db.records r) (text_view db.records r) one meaning
      ∙ single_accepts regex x db r equal number
      ∙ ap (λ g. int_view db.records r g == x.ival) field
      ∙ ap (λ k. int_view db.records r f == k) value in
    let same : mem r rows ≡ mem r (select (accepts regex t db) (numbers db.records)) =
      found
      ∙ shown-mem db.records r f n positive
      ∙ ap (λ b. b && mem r (numbers db.records)) (sym decided)
      ∙ sym (mem-select (accepts regex t db) r (numbers db.records)) in
    (
      rows,
      e,
      subst (λ b. (b ≡ true) ↔ ((mem r (numbers db.records) ≡ true) × SatisfiesAt regex t db r))
          (sym same) (mem-accepts regex db.nfields t db r fit),
    )
