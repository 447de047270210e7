-- ===== src/Steam/Query.antt =====
-- libdb/query.h and query.cpp, libdbsteam/query.cpp: a query is two lists, of tests on one field and of pairs to combine,
-- and a root among them; `MatchElement` evaluates it at the position of a recordset.
use chorale.Base.{
  ℕ, zero, suc, Bool, true, false, not, ◌&&◌, ◌||◌, Option, none, some, List, [], ◌∷◌, ◌++◌, Bytes,
  same_text, length, get_elem?, ltb, leb, ◌==◌, if◌then◌else◌, ◌>>=◌,
}
use chorale.Steam.State.{Database, Cursor}
use chorale.Steam.Access.{get_integer, get_string}

-- `LIKE` is for strings only; the orders are for numbers only.
pub data RestrictionType : Type 0 where
  eq ne gt lt ge le like : RestrictionType

-- `is_string` says which of the two values counts.
pub record Restriction : Type 0 where
  pub which : ℕ
  pub rt : RestrictionType
  pub is_string : Bool
  pub sval : Bytes
  pub ival : ℕ

-- The number of a subexpression: 0, a restriction's index plus 1, or minus a relation's index plus 1.
pub data Subexpression : Type 0 where
  invalid : Subexpression
  restriction : ℕ → Subexpression
  relation : ℕ → Subexpression

pub record Relation : Type 0 where
  pub anditive : Bool
  pub a : Subexpression
  pub b : Subexpression

pub record Query : Type 0 where
  pub restrictions : List Restriction
  pub relations : List Relation
  pub root : Subexpression
  pub orderby : List ℕ
  pub collateby : List ℕ

abbrev pub new_query : Query
new_query = record {
  restrictions = [];
  relations = [];
  root = invalid;
  orderby = [];
  collateby = [];
}

-- The two functions `Restrict`.
unfoldable pub restrict : Query → Restriction → Query × Subexpression
restrict q r =
    (record q { restrictions = q.restrictions ++ r ∷ [] }, restriction (length q.restrictions))

-- The assertions on an operand.
unfoldable pub exists : Query → Subexpression → Bool
exists q invalid = false
exists q (restriction n) = ltb n (length q.restrictions)
exists q (relation n) = ltb n (length q.relations)

-- `And` and `Or`; `none` is a failed assertion.
unfoldable pub combine :
    Bool → Query → Subexpression → Subexpression → Option (Query × Subexpression)
unfolding exists
combine anditive q a b =
    if exists q a && exists q b
    then some (
      record q { relations = q.relations ++ record { anditive = anditive; a = a; b = b } ∷ [] },
      relation (length q.relations),
    )
    else none

unfoldable pub is_null : Subexpression → Bool
is_null invalid = true
is_null _ = false

unfoldable pub restrict_where : Query → Subexpression → Option Query
unfolding exists is_null
restrict_where q e = if is_null e || exists q e then some (record q { root = e }) else none

unfoldable pub order_by : Query → ℕ → Query
order_by q which = record q { orderby = q.orderby ++ which ∷ [] }

unfoldable pub collate_by : Query → ℕ → Query
collate_by q which = record q { collateby = q.collateby ++ which ∷ [] }

-- The two constructors of `Restriction`.
abbrev pub text_restriction : ℕ → RestrictionType → Bytes → Restriction
text_restriction which rt val = record {
  which = which;
  rt = rt;
  is_string = true;
  sval = val;
  ival = 0;
}

abbrev pub number_restriction : ℕ → RestrictionType → ℕ → Restriction
number_restriction which rt val = record {
  which = which;
  rt = rt;
  is_string = false;
  sval = [];
  ival = val;
}

-- The loops of `Clone`.
unfoldable pub clone_restrictions : List Restriction → Query → Query
unfolding restrict
clone_restrictions [] q = q
clone_restrictions (r ∷ rs) q =
    if r.is_string
    then clone_restrictions rs (restrict q (text_restriction r.which r.rt r.sval)).0
    else clone_restrictions rs (restrict q (number_restriction r.which r.rt r.ival)).0

unfoldable pub clone_relations : List Relation → Query → Option Query
unfolding combine
clone_relations [] q = some q
clone_relations (r ∷ rs) q = do made ← combine r.anditive q r.a r.b; clone_relations rs made.0

unfoldable pub clone_orderby : List ℕ → Query → Query
unfolding order_by
clone_orderby [] q = q
clone_orderby (f ∷ fs) q = clone_orderby fs (order_by q f)

unfoldable pub clone_collateby : List ℕ → Query → Query
unfolding collate_by
clone_collateby [] q = q
clone_collateby (f ∷ fs) q = clone_collateby fs (collate_by q f)

-- `Clone`; `Where`, `OrderBy` and `CollateBy` of this class always give 0.
unfoldable pub clone : Query → Query → Option Query
unfolding clone_restrictions clone_relations restrict_where clone_orderby clone_collateby
clone other q = do
  joined ← clone_relations other.relations (clone_restrictions other.restrictions q)
  rooted ← restrict_where joined other.root
  some (clone_collateby other.collateby (clone_orderby other.orderby rooted))

-- `regex pattern text` is `boost::regex_match` of the text, regardless of case.
module _ (regex : Bytes → Bytes → Bool) where
  -- A test of a string; `none` is a failed assertion.
  unfoldable pub test_string : RestrictionType → Bytes → Bytes → Option Bool
  test_string eq val sval = some (same_text val sval)
  test_string ne val sval = some (not (same_text val sval))
  test_string like val sval = some (regex sval val)
  test_string _ val sval = none

  unfoldable pub test_integer : RestrictionType → ℕ → ℕ → Option Bool
  test_integer eq val ival = some (val == ival)
  test_integer ne val ival = some (not (val == ival))
  test_integer gt val ival = some (ltb ival val)
  test_integer lt val ival = some (ltb val ival)
  test_integer le val ival = some (leb val ival)
  test_integer ge val ival = some (leb ival val)
  test_integer like val ival = none

  unfoldable pub match_restriction : Database → Cursor → Restriction → Option (Bool × Database)
  unfolding test_string test_integer
  match_restriction db c r =
      if r.is_string
      then (do val ← get_string db c r.which; b ← test_string r.rt val r.sval; some (b, db))
      else (do v ← get_integer db c r.which; b ← test_integer r.rt v.0 r.ival; some (b, v.1))

  -- The first argument counts the calls on the stack.
  unfoldable pub match_element :
      ℕ → Query → Database → Cursor → Subexpression → Option (Bool × Database)
  unfolding match_restriction
  match_element zero q db c e = none
  match_element (suc n) q db c invalid = none
  match_element (suc n) q db c (restriction k) = do
    r ← get_elem? q.restrictions k
    match_restriction db c r
  match_element (suc n) q db c (relation k) = do
    r ← get_elem? q.relations k
    lhs ← match_element n q db c r.a
    elim lhs.0 [
      | true ↦ elim r.anditive [ true ↦ match_element n q lhs.1 c r.b | false ↦ some (true, lhs.1) ]
      | false ↦ elim r.anditive [
        | true ↦ some (false, lhs.1)
        | false ↦ match_element n q lhs.1 c r.b
      ]
    ]

  -- `Match`
  unfoldable pub matches : Query → Database → Cursor → Option (Bool × Database)
  unfolding match_element is_null
  matches q db c =
      if is_null q.root
      then some (true, db)
      else match_element (suc (length q.relations)) q db c q.root
