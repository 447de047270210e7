-- ===== src/Steam/Examples.antt =====
-- The database on concrete inputs: a database with a number and a text for each record, both indexed, and each theorem
-- applied where its hypotheses hold.
use chorale.Base.{
  ◌↔◌, ℕ, ◌≡◌, refl, Bool, true, false, not, ◌&&◌, some, List, [], ◌∷◌, Bytes, All, same_text,
  codes, arith, if◌then◌else◌, ◌==◌, ◌>>=◌,
}
use chorale.Steam.Keys.{nat_key, text_key}
use chorale.Steam.Index.{mem, find, replace, place, index_add, index_remove, set_insert, set_erase}
use chorale.Steam.Numbers.{print, print_from}
use chorale.Steam.State.{
  Database, Cursor, FieldValue, blank, new_database, set_field_infos, find_record, new_record,
  put_record, put_cell, index_at, upper_bound,
}
use chorale.Steam.Access.{
  set_integer, store_integer, integer_value, set_string, add_record, reindex, unindex, get_integer,
  kept_int, int_of, old_int, old_text,
}
use chorale.Steam.Agrees.{Agrees}
use chorale.Steam.Valid.{IsValid, int_field, text_field}
use chorale.Base.{Gives}
use chorale.Steam.History.{
  Op, adds_record, sets_integer, perform, InRange, Reach, start, next, Reach-indexes,
  reached-IsValid,
}
use chorale.Steam.Created.{KnownType}
use chorale.Steam.Query.{
  Restriction, eq, lt, restriction, relation, Relation, Query, new_query, restrict, combine, exists,
  restrict_where, is_null, matches, match_element, match_restriction, test_integer,
  number_restriction, clone,
}
use chorale.Steam.Views.{SameViews, int_view, text_view, numbers, width}
use chorale.Steam.Evaluate.{Formula, test, joined, Denotes, leaf, node, Allowed, permitted}
use chorale.Steam.Meaning.{SatisfiesAt}
use chorale.Steam.Building.{matches-truth}
use chorale.Steam.WellFormed.{Built, created, restricts_number, combines, roots}
use chorale.Steam.Cloning.{clone-Built}
use chorale.Steam.Printing.{to_string, to_string_element, fields_text}
use chorale.Steam.Rows.{
  at_record, scan, lookup, indexed_recordset, indexed_rows, row_count, indexed_move_next,
  after_delete, simple_recordset, simple_rows, new_recordset, simple_move_next, simple_loop,
  row_matches,
}
use chorale.Steam.Scanning.{Ascending}
use chorale.Steam.Selecting.{scan-query}
use chorale.Steam.Ordered.{plan, plan_restrictions, ordered_move_next, entries_from, settle}
use chorale.Steam.Choosing.{plan-lookup}
use chorale.Steam.Writing.{set_integer-views, set_string-views}

abbrev pub fields : List (ℕ × ℕ)
fields = (0, 9) ∷ (1, 8) ∷ []

abbrev empty_database : Database
empty_database = record {
  nfields = 2;
  next_recno = 0;
  fields = 9 ∷ 8 ∷ [];
  records = [];
  stringindexes = [] ∷ [] ∷ [];
  intindexes = [] ∷ [] ∷ [];
}

abbrev one_record : Database
one_record = record {
  nfields = 2;
  next_recno = 1;
  fields = 9 ∷ 8 ∷ [];
  records = (0, blank ∷ blank ∷ []) ∷ [];
  stringindexes = [] ∷ [] ∷ [];
  intindexes = [] ∷ [] ∷ [];
}

abbrev seven : FieldValue
seven = record { s = []; i = 7; svalid = false; ivalid = true }

abbrev seven_stored : Database
seven_stored = record one_record {
  records = (0, seven ∷ blank ∷ []) ∷ [];
  intindexes = ((7, 0 ∷ []) ∷ []) ∷ [] ∷ [];
}

abbrev pub two_records : Database
two_records = record seven_stored {
  next_recno = 2;
  records = (0, seven ∷ blank ∷ []) ∷ (1, blank ∷ blank ∷ []) ∷ [];
}

abbrev ended : Cursor
ended = record { recno = 0; eof = true }

pub two_records-Reach : Reach 2 fields two_records
unfolding perform new_database set_field_infos set_integer store_integer integer_value add_record
    find_record new_record put_cell put_record reindex unindex index_add find place set_insert
    index_at
two_records-Reach =
    next {db = seven_stored} (adds_record ended)
      (next {db = one_record} (sets_integer (at_record 0) 0 7)
        (next {db = empty_database} (adds_record ended) (start {db = empty_database} refl) _ refl)
        (omega arith) refl)
      _ refl

pub fields-KnownType : All KnownType fields
fields-KnownType = (refl, (refl, _))

-- Equality stands for the match of a pattern.
abbrev regex : Bytes → Bytes → Bool
regex pattern text = same_text pattern text

abbrev is_seven : Restriction
is_seven = number_restriction 0 eq 7

abbrev below_nine : Restriction
below_nine = number_restriction 0 lt 9

abbrev seven_query : Query
seven_query = record new_query { restrictions = is_seven ∷ []; root = restriction 0 }

abbrev both_tests : Relation
both_tests = record { anditive = true; a = restriction 0; b = restriction 1 }

abbrev both_query : Query
both_query = record {
  restrictions = is_seven ∷ below_nine ∷ [];
  relations = both_tests ∷ [];
  root = relation 0;
  orderby = [];
  collateby = [];
}

abbrev both_formula : Formula
both_formula = joined true (test is_seven) (test below_nine)

both_query-Denotes : Denotes both_query (relation 0) both_formula
both_query-Denotes =
    node 0 both_tests refl (omega arith) (omega arith) (leaf 0 is_seven refl)
      (leaf 1 below_nine refl)

both_formula-Allowed : Allowed 2 both_formula
unfolding Allowed permitted
both_formula-Allowed = ((omega arith, refl), (omega arith, refl))

to_string_test : to_string both_query ≡ some (codes "( #0 = 7 and #0 < 9 ) ")
unfolding to_string to_string_element fields_text print print_from
to_string_test = refl

-- `Delete` through an `IndexedRecordset` takes the record out of the set, and `MoveNext` then passes over the next one.
after_delete_test :
    after_delete {K = ℕ}
      (index_remove 7 0 ((7, 0 ∷ 1 ∷ 2 ∷ []) ∷ []))
      7
      0
      (record { cursor = at_record 0; subrecno = 0 })
    ≡ record { cursor = at_record 2; subrecno = 1 }
unfolding after_delete indexed_move_next index_remove find set_erase replace
after_delete_test = refl

-- An `OrderedRecordset` likewise.
ordered_delete_test :
    ordered_move_next {K = ℕ}
      (index_remove 7 0 ((7, 0 ∷ 1 ∷ 2 ∷ []) ∷ []))
      (record { cursor = at_record 0; subrecno = 0; value = 7 })
    ≡ record { cursor = at_record 2; subrecno = 1; value = 7 }
unfolding ordered_move_next entries_from settle index_remove find set_erase replace
ordered_delete_test = refl

-- A scan for zero finds the record that was never set, and a look in the index does not.
abbrev zero_query : Query
zero_query = record new_query {
  restrictions = number_restriction 0 eq 0 ∷ [];
  root = restriction 0;
}

lookup_zero_test : lookup (index_at two_records.intindexes 0) 0 ended ≡ some []
unfolding lookup row_count indexed_recordset indexed_rows find index_at
lookup_zero_test = refl

scan_zero_test : (do g ← scan regex (some zero_query) two_records; some g.0) ≡ some (1 ∷ [])
unfolding scan simple_recordset simple_rows new_recordset simple_move_next simple_loop row_matches
    matches match_element match_restriction test_integer get_integer find_record put_cell put_record
    int_of kept_int upper_bound is_null
scan_zero_test = refl

Reach-indexes_example :
    Agrees (int_field two_records.fields) old_int two_records.records two_records.intindexes
    × Agrees (text_field two_records.fields) old_text two_records.records two_records.stringindexes
    × ((op : Op) → InRange op two_records → Gives (perform op two_records) IsValid)
Reach-indexes_example = Reach-indexes 2 fields fields-KnownType two_records-Reach

matches-truth_example :
    Gives (matches regex both_query two_records (at_record 1)) (λ g.
      ((g.0 ≡ true) ↔ SatisfiesAt regex both_formula two_records 1) × SameViews g.1 two_records)
unfolding width find_record
matches-truth_example =
    matches-truth regex both_query both_formula two_records (at_record 1) 2 refl refl
      both_query-Denotes both_formula-Allowed

scan-query_example : Gives (scan regex (some both_query) two_records) (λ g.
    Ascending g.0
    × ((r : ℕ)
        → (mem r g.0 ≡ true) ↔ (
            (mem r (numbers two_records.records) ≡ true)
            × SatisfiesAt regex both_formula two_records r))
    × SameViews g.1 two_records)
scan-query_example =
    scan-query 2 fields regex both_query both_formula fields-KnownType two_records-Reach
      both_query-Denotes both_formula-Allowed

is_seven-Allowed : Allowed 2 (test is_seven)
unfolding Allowed permitted
is_seven-Allowed = (omega arith, refl)

plan-lookup_example : Gives (lookup (index_at two_records.intindexes 0) 7 ended) (λ rows.
    (mem 0 rows ≡ true) ↔ (
      (mem 0 (numbers two_records.records) ≡ true)
      × SatisfiesAt regex (test is_seven) two_records 0))
unfolding plan plan_restrictions is_null int_field
plan-lookup_example =
    plan-lookup 2 fields regex seven_query (test is_seven) 0 7 ended 0 fields-KnownType
      two_records-Reach (leaf 0 is_seven refl) is_seven-Allowed refl refl (omega arith)

both_query-Built : Built both_query
unfolding restrict combine exists restrict_where is_null
both_query-Built =
    roots (relation 0)
      (combines true (restriction 0) (restriction 1)
        (record both_query { root = new_query.root }, relation 0)
        (restricts_number 0 lt 9 (restricts_number 0 eq 7 created)) refl)
      refl

clone-Built_example : clone both_query new_query ≡ some both_query
clone-Built_example = clone-Built both_query-Built

two_records-IsValid : IsValid two_records
two_records-IsValid = reached-IsValid 2 fields fields-KnownType two_records-Reach

set_integer-views_example : Gives (set_integer two_records (at_record 1) 0 5) (λ done.
    (done.0 ≡ 0)
    × (int_view done.1.records 1 0
        ≡ (if (1 == 1) && (0 == 0) then 5 else int_view two_records.records 1 0))
    × (text_view done.1.records 1 0 ≡ (
        if (1 == 1) && (0 == 0)
        then (if (5 == 0) && not (text_field two_records.fields 0) then [] else print 5)
        else text_view two_records.records 1 0)))
unfolding find_record
set_integer-views_example =
    set_integer-views two_records (at_record 1) (blank ∷ blank ∷ []) 0 5 1 0 two_records-IsValid
      (omega arith) refl refl

set_string-views_example : Gives (set_string two_records (at_record 1) 1 (codes "one")) (λ done.
    (done.0 ≡ 0)
    × (text_view done.1.records 1 1
        ≡ (if (1 == 1) && (1 == 1) then codes "one" else text_view two_records.records 1 1)))
unfolding find_record
set_string-views_example =
    set_string-views two_records (at_record 1) (blank ∷ blank ∷ []) 1 8 (codes "one") 1 1
      two_records-IsValid (omega arith) refl refl refl refl
