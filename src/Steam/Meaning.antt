-- ===== src/Steam/Meaning.antt =====
-- libdb/query.h: what the operators of `Restrict` mean, and with `And` and `Or` the formulas, in terms of equality and order
-- alone, without the tests of query.cpp.
use chorale.Base.{
  ℕ, ◌<◌, ◌≤◌, ◌≡◌, ◌≢◌, ◌⊎◌, ◌↔◌, refl, Bool, true, false, Option, none, some, Bytes, arith,
  Bool-cases, inl, inr, same_text,
}
use chorale.Steam.Keys.{same_text_iff}
use chorale.Steam.State.{Database}
use chorale.Steam.Query.{RestrictionType, eq, ne, gt, lt, le, ge, like, test_string, test_integer}
use chorale.Steam.Views.{int_view, text_view}
use chorale.Steam.Evaluate.{Formula, test, joined, Allowed, permitted, truth, verdict, accepts}

-- A number of a record, by an operator, against the number of the restriction.
unfoldable pub NumberTest : RestrictionType → ℕ → ℕ → Type 0
NumberTest eq val ival = val ≡ ival
NumberTest ne val ival = val ≢ ival
NumberTest gt val ival = ival < val
NumberTest lt val ival = val < ival
NumberTest le val ival = val ≤ ival
NumberTest ge val ival = ival ≤ val
NumberTest like val ival = ⊥

module _ (regex : Bytes → Bytes → Bool) where
  -- A text of a record.
  unfoldable pub TextTest : RestrictionType → Bytes → Bytes → Type 0
  TextTest eq val sval = val ≡ sval
  TextTest ne val sval = val ≢ sval
  TextTest like val sval = regex sval val ≡ true
  TextTest _ val sval = ⊥

  -- A record with these numbers and texts satisfies the formula.
  unfoldable pub Satisfies : Formula → (ℕ → ℕ) → (ℕ → Bytes) → Type 0
  unfolding NumberTest TextTest
  Satisfies (test r) ints texts = elim r.is_string [
    | true ↦ TextTest r.rt (texts r.which) r.sval
    | false ↦ NumberTest r.rt (ints r.which) r.ival
  ]
  Satisfies (joined true s t) ints texts = Satisfies s ints texts × Satisfies t ints texts
  Satisfies (joined false s t) ints texts = Satisfies s ints texts ⊎ Satisfies t ints texts

  -- A record of the database satisfies the formula.
  abbrev pub SatisfiesAt : Formula → Database → ℕ → Type 0
  SatisfiesAt t db r = Satisfies t (int_view db.records r) (text_view db.records r)

  abbrev holds : Option Bool → Bool
  holds none = false
  holds (some b) = b

  test_integer-NumberTest :
      (rt : RestrictionType) (val ival : ℕ)
      → permitted false rt ≡ true
      → (holds (test_integer regex rt val ival) ≡ true) ↔ NumberTest rt val ival
  unfolding test_integer permitted NumberTest
  test_integer-NumberTest eq val ival h = ground arith
  test_integer-NumberTest ne val ival h = ground arith
  test_integer-NumberTest gt val ival h = ground arith
  test_integer-NumberTest lt val ival h = ground arith
  test_integer-NumberTest le val ival h = ground arith
  test_integer-NumberTest ge val ival h = ground arith
  test_integer-NumberTest like val ival h = cc

  test_string-TextTest :
      (rt : RestrictionType) (val sval : Bytes)
      → permitted true rt ≡ true
      → (holds (test_string regex rt val sval) ≡ true) ↔ TextTest rt val sval
  unfolding test_string permitted TextTest
  test_string-TextTest eq val sval h = same_text_iff val sval
  test_string-TextTest ne val sval h = elim (Bool-cases (same_text val sval)) [
    | inl same ↦ rw same ((λ e. cc), λ other. absurd (other ((same_text_iff val sval).0 same)))
    | inr other ↦ rw other ((λ _ same. let back = (same_text_iff val sval).1 same in cc), λ _. refl)
  ]
  test_string-TextTest like val sval h = ((λ e. e), λ e. e)
  test_string-TextTest gt val sval h = cc
  test_string-TextTest lt val sval h = cc
  test_string-TextTest le val sval h = cc
  test_string-TextTest ge val sval h = cc

  -- What the tests give is what the operators mean.
  truth-Satisfies :
      (n : ℕ) (t : Formula) (ints : ℕ → ℕ) (texts : ℕ → Bytes)
      → Allowed n t
      → (truth regex t ints texts ≡ true) ↔ Satisfies t ints texts
  unfolding truth verdict Satisfies Allowed
  truth-Satisfies n (test r) ints texts (room, fit) = elim (Bool-cases r.is_string) [
    | inl text ↦
        let h = test_string-TextTest r.rt (texts r.which) r.sval (ground (arith, text, fit)) in
        rw text h
    | inr number ↦
        let h = test_integer-NumberTest r.rt (ints r.which) r.ival (ground (arith, number, fit)) in
        rw number h
  ]
  truth-Satisfies n (joined true s t) ints texts fit =
      let h = truth-Satisfies n s ints texts fit.0 in
      let k = truth-Satisfies n t ints texts fit.1 in
      (
        λ e. (h.0 (ground (arith, e)), k.0 (ground (arith, e))),
        λ both_hold. ground (arith, h.1 both_hold.0, k.1 both_hold.1),
      )
  truth-Satisfies n (joined false s t) ints texts fit =
      let h = truth-Satisfies n s ints texts fit.0 in
      let k = truth-Satisfies n t ints texts fit.1 in
      (
        λ e. elim (Bool-cases (truth regex s ints texts)) [
          | inl left ↦ inl (h.0 left)
          | inr other ↦ inr (k.0 (ground (arith, e, other)))
        ],
        λ either. elim either [
          | inl left ↦ ground (arith, h.1 left)
          | inr right ↦ ground (arith, k.1 right)
        ],
      )

  pub accepts-SatisfiesAt :
      (n : ℕ) (t : Formula) (db : Database) (r : ℕ)
      → Allowed n t
      → (accepts regex t db r ≡ true) ↔ SatisfiesAt t db r
  accepts-SatisfiesAt n t db r fit =
      truth-Satisfies n t (int_view db.records r) (text_view db.records r) fit
