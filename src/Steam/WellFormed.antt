-- ===== src/Steam/WellFormed.antt =====
-- libdb/query.cpp: a query that was built by the calls of the interface is well formed: each relation joins
-- subexpressions that come before it.
use mathlib.Core.Option.{some-injective}
use chorale.Base.{
  ℕ, ◌+◌, ◌≡◌, refl, sym, ◌∙◌, ap, Bool, true, false, ◌&&◌, ◌||◌, some, List, [], ◌∷◌, ◌++◌, Bytes,
  All, All-append, length, ltb, if◌then◌else◌, arith, Bool-cases, inl, inr, length-append, subst,
}
use chorale.Steam.Query.{
  RestrictionType, Restriction, Subexpression, invalid, restriction, relation, Relation, Query,
  new_query, restrict, exists, combine, is_null, restrict_where, order_by, collate_by,
  text_restriction, number_restriction,
}

-- The queries that the calls of the interface build, from the constructor on.
pub data Built : Query → Type 0 where
  created : Built new_query
  restricts_text :
      {q : Query} (which : ℕ) (rt : RestrictionType) (val : Bytes)
      → Built q
      → Built (restrict q (text_restriction which rt val)).0
  restricts_number :
      {q : Query} (which : ℕ) (rt : RestrictionType) (val : ℕ)
      → Built q
      → Built (restrict q (number_restriction which rt val)).0
  combines :
      {q : Query} (anditive : Bool) (a b : Subexpression) (made : Query × Subexpression)
      → Built q
      → combine anditive q a b ≡ some made
      → Built made.0
  roots : {q p : Query} (e : Subexpression) → Built q → restrict_where q e ≡ some p → Built p
  orders : {q : Query} (which : ℕ) → Built q → Built (order_by q which)
  collates : {q : Query} (which : ℕ) → Built q → Built (collate_by q which)

-- Does a subexpression exist among so many restrictions and relations?
pub within : ℕ → ℕ → Subexpression → Bool
within m n invalid = false
within m n (restriction k) = ltb k m
within m n (relation k) = ltb k n

pub exists-within :
    (q : Query) (e : Subexpression)
    → exists q e ≡ within (length q.restrictions) (length q.relations) e
unfolding exists within
exists-within q invalid = refl
exists-within q (restriction k) = refl
exists-within q (relation k) = refl

within_more :
    (m n m' n' : ℕ) (e : Subexpression) → within m n e ≡ true → within (m + m') (n + n') e ≡ true
unfolding within
within_more m n m' n' invalid h = cc
within_more m n m' n' (restriction k) h = ground (arith, h)
within_more m n m' n' (relation k) h = ground (arith, h)

-- What exists is there still when lists have grown.
pub exists_more :
    (q p : Query) (e : Subexpression) (m n : ℕ)
    → length p.restrictions ≡ length q.restrictions + m
    → length p.relations ≡ length q.relations + n
    → (is_null e || exists q e) ≡ true
    → (is_null e || exists p e) ≡ true
exists_more q p e m n more more' h = elim (Bool-cases (is_null e)) [
  | inl null ↦ ground (arith, null)
  | inr real ↦
      let here : within (length q.restrictions) (length q.relations) e ≡ true =
        sym (exists-within q e) ∙ ground (arith, h, real) in
      ground (
        arith,
        real,
        exists-within p e,
        more,
        more',
        within_more (length q.restrictions) (length q.relations) m n e here,
      )
]

-- The operands of each relation come before it.
unfoldable pub Earlier : ℕ → ℕ → List Relation → Type 0
Earlier m n [] = Unit
Earlier m n (r ∷ rs) = (within m n r.a ≡ true) × (within m n r.b ≡ true) × Earlier m (n + 1) rs

-- A restriction as a constructor makes it.
abbrev pub Normal : Restriction → Type 0
Normal r =
    (if r.is_string
      then text_restriction r.which r.rt r.sval
      else number_restriction r.which r.rt r.ival)
    ≡ r

pub record WellFormed (q : Query) : Type 0 where
  pub normal : All Normal q.restrictions
  pub earlier : Earlier (length q.restrictions) 0 q.relations
  pub rooted : (is_null q.root || exists q q.root) ≡ true

Earlier_more : (m m' n : ℕ) (rs : List Relation) → Earlier m n rs → Earlier (m + m') n rs
unfolding Earlier
Earlier_more m m' n [] h = h
Earlier_more m m' n (r ∷ rs) (a, b, later) = (
  ground (arith, within_more m n m' 0 r.a a),
  ground (arith, within_more m n m' 0 r.b b),
  Earlier_more m m' (n + 1) rs later,
)

Earlier-snoc :
    (m n : ℕ) (rs : List Relation) (r : Relation)
    → Earlier m n rs
    → within m (n + length rs) r.a ≡ true
    → within m (n + length rs) r.b ≡ true
    → Earlier m n (rs ++ r ∷ [])
unfolding Earlier
Earlier-snoc m n [] r h a b = (ground (arith, a), ground (arith, b), _)
Earlier-snoc m n (x ∷ rs) r (a', b', later) a b =
    (a', b', Earlier-snoc m (n + 1) rs r later (ground (arith, a)) (ground (arith, b)))

restrict-WellFormed :
    (q : Query) (r : Restriction) → Normal r → WellFormed q → WellFormed (restrict q r).0
unfolding restrict
restrict-WellFormed q r fit w =
    let grown : Query = record q { restrictions = q.restrictions ++ r ∷ [] } in
    let size = length-append q.restrictions (r ∷ []) in
    record {
      normal = All-append Normal q.restrictions (r ∷ []) w.normal (fit, _);
      earlier =
          subst (λ m. Earlier m 0 q.relations) (sym size)
            (Earlier_more (length q.restrictions) 1 0 q.relations w.earlier);
      rooted = exists_more q grown q.root 1 0 size (omega arith) w.rooted;
    }

combine-WellFormed :
    (q : Query) (r : Relation)
    → exists q r.a ≡ true
    → exists q r.b ≡ true
    → WellFormed q
    → WellFormed (record q { relations = q.relations ++ r ∷ [] })
combine-WellFormed q r a b w =
    let grown : Query = record q { relations = q.relations ++ r ∷ [] } in
    record {
      normal = w.normal;
      earlier =
          Earlier-snoc (length q.restrictions) 0 q.relations r w.earlier
            (ground (arith, a, exists-within q r.a)) (ground (arith, b, exists-within q r.b));
      rooted =
          exists_more q grown q.root 0 1 (omega arith) (length-append q.relations (r ∷ []))
            w.rooted;
    }

combine_fine :
    (anditive : Bool) (q : Query) (a b : Subexpression)
    → (exists q a && exists q b) ≡ true
    → combine anditive q a b
      ≡ some (
        record q { relations = q.relations ++ record { anditive = anditive; a = a; b = b } ∷ [] },
        relation (length q.relations),
      )
unfolding combine
combine_fine anditive q a b fine = rw fine refl

pub restrict_where_fine :
    (q : Query) (e : Subexpression)
    → (is_null e || exists q e) ≡ true
    → restrict_where q e ≡ some (record q { root = e })
unfolding restrict_where
restrict_where_fine q e fine = rw fine refl

pub Built-WellFormed : {q : Query} → Built q → WellFormed q
unfolding restrict combine restrict_where order_by collate_by Earlier
Built-WellFormed created = record { normal = _; earlier = _; rooted = refl }
Built-WellFormed (restricts_text {q} which rt val built) =
    restrict-WellFormed q (text_restriction which rt val) refl (Built-WellFormed built)
Built-WellFormed (restricts_number {q} which rt val built) =
    restrict-WellFormed q (number_restriction which rt val) refl (Built-WellFormed built)
Built-WellFormed (combines {q} anditive a b made built done) =
    let new : Relation = record { anditive = anditive; a = a; b = b } in
    elim (Bool-cases (exists q a && exists q b)) [
      | inl fine ↦
          let same : record q { relations = q.relations ++ new ∷ [] } ≡ made.0 =
            ap (λ (x : Query × Subexpression). x.0)
              (some-injective _ _ (sym (combine_fine anditive q a b fine) ∙ done)) in
          subst WellFormed same (
            combine-WellFormed q new (ground (arith, fine)) (ground (arith, fine))
              (Built-WellFormed built))
      | inr fail ↦ absurd (ground (arith, fail, done))
    ]
Built-WellFormed (roots {q} {p} e built done) =
    let w = Built-WellFormed built in
    elim (Bool-cases (is_null e || exists q e)) [
      | inl fine ↦
          let same : record q { root = e } ≡ p =
            some-injective _ _ (sym (restrict_where_fine q e fine) ∙ done) in
          let rooted : WellFormed (record q { root = e }) = record {
            normal = w.normal;
            earlier = w.earlier;
            rooted = exists_more q (record q { root = e }) e 0 0 (omega arith) (omega arith) fine;
          } in
          subst WellFormed same rooted
      | inr fail ↦ absurd (ground (arith, fail, done))
    ]
Built-WellFormed (orders {q} which built) =
    let w = Built-WellFormed built in
    record {
      normal = w.normal;
      earlier = w.earlier;
      rooted = exists_more q (order_by q which) q.root 0 0 (omega arith) (omega arith) w.rooted;
    }
Built-WellFormed (collates {q} which built) =
    let w = Built-WellFormed built in
    record {
      normal = w.normal;
      earlier = w.earlier;
      rooted = exists_more q (collate_by q which) q.root 0 0 (omega arith) (omega arith) w.rooted;
    }
