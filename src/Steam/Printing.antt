-- ===== src/Steam/Printing.antt =====
-- libdb/query.cpp: a query as text.
use chorale.Base.{
  ℕ, zero, suc, Option, none, some, List, [], ◌∷◌, ◌++◌, Bytes, codes, length, get_elem?,
  if◌then◌else◌, ◌>>=◌,
}
use chorale.Steam.Numbers.{print}
use chorale.Steam.Query.{
  RestrictionType, eq, ne, gt, lt, ge, le, like, Restriction, Subexpression, invalid, restriction,
  relation, Query,
}

abbrev pub operator_text : RestrictionType → Bytes
operator_text eq = codes "="
operator_text ne = codes "!="
operator_text gt = codes ">"
operator_text ge = codes ">="
operator_text lt = codes "<"
operator_text le = codes "<="
operator_text like = codes "?="

abbrev pub restriction_text : Restriction → Bytes
restriction_text r =
    codes "#"
    ++ print r.which
    ++ codes " "
    ++ operator_text r.rt
    ++ codes " "
    ++ (if r.is_string then codes "\"" ++ r.sval ++ codes "\"" else print r.ival)
    ++ codes " "

-- `ToStringElement`. The first argument counts the calls on the stack.
unfoldable pub to_string_element : ℕ → Query → Subexpression → Option Bytes
to_string_element zero q e = none
to_string_element (suc n) q invalid = some []
to_string_element (suc n) q (restriction k) = do
  r ← get_elem? q.restrictions k
  some (restriction_text r)
to_string_element (suc n) q (relation k) = do
  r ← get_elem? q.relations k
  a ← to_string_element n q r.a
  b ← to_string_element n q r.b
  some (codes "( " ++ a ++ (if r.anditive then codes "and " else codes "or ") ++ b ++ codes ") ")

-- The loops over `m_orderby` and `m_collateby`.
unfoldable pub fields_text : Bytes → List ℕ → Bytes
fields_text label [] = []
fields_text label (f ∷ fs) = label ++ print f ++ codes " " ++ fields_text label fs

unfoldable pub to_string : Query → Option Bytes
unfolding to_string_element fields_text
to_string q = do
  e ← to_string_element (suc (suc (length q.relations))) q q.root
  some (
      e
      ++ fields_text (codes "order by #") q.orderby
      ++ fields_text (codes "collate by #") q.collateby)
