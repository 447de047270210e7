-- ===== src/Steam/Cloning.antt =====
-- libdb/query.cpp: a clone of a query that was built by the calls of the interface is the same query.
use chorale.Base.{
  ℕ, ◌≡◌, refl, sym, ◌∙◌, ap, Bool, true, false, ◌||◌, some, List, [], ◌∷◌, ◌++◌, All, length,
  if◌then◌else◌, arith, append-nil, append_assoc, length-append, subst,
}
use chorale.Steam.Query.{
  Restriction, Relation, Query, new_query, restrict, exists, combine, is_null, order_by, collate_by,
  text_restriction, number_restriction, clone_restrictions, clone_relations, clone_orderby,
  clone_collateby, clone,
}
use chorale.Steam.WellFormed.{
  Built, exists-within, exists_more, Earlier, Normal, restrict_where_fine, Built-WellFormed,
}

if_apply {ℓ κ} :
    {A : Type ℓ} {B : Type κ} (b : Bool) (f : A → B) (x y : A)
    → (if b then f x else f y) ≡ f (if b then x else y)
if_apply true f x y = refl
if_apply false f x y = refl

clone_restrictions_lem :
    (rs : List Restriction) (q : Query)
    → All Normal rs
    → clone_restrictions rs q ≡ record q { restrictions = q.restrictions ++ rs }
unfolding clone_restrictions restrict
clone_restrictions_lem [] q h =
    ap {A = List Restriction} (λ xs. record q { restrictions = xs })
      (sym (append-nil q.restrictions))
clone_restrictions_lem (r ∷ rs) q h =
    if_apply r.is_string (λ x. clone_restrictions rs (restrict q x).0)
      (text_restriction r.which r.rt r.sval) (number_restriction r.which r.rt r.ival)
    ∙ ap (λ x. clone_restrictions rs (restrict q x).0) h.0
    ∙ clone_restrictions_lem rs (restrict q r).0 h.1
    ∙ ap {A = List Restriction} (λ xs. record q { restrictions = xs })
        (append_assoc q.restrictions (r ∷ []) rs)

clone_relations_lem :
    (rs : List Relation) (q : Query)
    → Earlier (length q.restrictions) (length q.relations) rs
    → clone_relations rs q ≡ some (record q { relations = q.relations ++ rs })
unfolding clone_relations combine Earlier
clone_relations_lem [] q h =
    ap {A = List Relation} (λ xs. some (record q { relations = xs })) (sym (append-nil q.relations))
clone_relations_lem (r ∷ rs) q (a_first, b_first, later) =
    let grown : Query = record q { relations = q.relations ++ r ∷ [] } in
    let next : Earlier (length q.restrictions) (length (q.relations ++ r ∷ [])) rs =
      subst (λ n. Earlier (length q.restrictions) n rs) (sym (length-append q.relations (r ∷ [])))
        later in
    let rest : clone_relations rs grown ≡ some (record q { relations = q.relations ++ r ∷ rs }) =
      clone_relations_lem rs grown next
      ∙ ap {A = List Relation} (λ xs. some (record q { relations = xs }))
          (append_assoc q.relations (r ∷ []) rs) in
    rw (exists-within q r.a, exists-within q r.b, a_first, b_first) rest

clone_orderby_lem :
    (fs : List ℕ) (q : Query) → clone_orderby fs q ≡ record q { orderby = q.orderby ++ fs }
unfolding clone_orderby order_by
clone_orderby_lem [] q =
    ap {A = List ℕ} (λ xs. record q { orderby = xs }) (sym (append-nil q.orderby))
clone_orderby_lem (f ∷ fs) q =
    clone_orderby_lem fs (order_by q f)
    ∙ ap {A = List ℕ} (λ xs. record q { orderby = xs }) (append_assoc q.orderby (f ∷ []) fs)

clone_collateby_lem :
    (fs : List ℕ) (q : Query) → clone_collateby fs q ≡ record q { collateby = q.collateby ++ fs }
unfolding clone_collateby collate_by
clone_collateby_lem [] q =
    ap {A = List ℕ} (λ xs. record q { collateby = xs }) (sym (append-nil q.collateby))
clone_collateby_lem (f ∷ fs) q =
    clone_collateby_lem fs (collate_by q f)
    ∙ ap {A = List ℕ} (λ xs. record q { collateby = xs }) (append_assoc q.collateby (f ∷ []) fs)

-- A query that was built by the calls of the interface, cloned into a new query, passes the assertions and gives the
-- same query.
pub clone-Built : {q : Query} → Built q → clone q new_query ≡ some q
unfolding clone
clone-Built {q} built =
    let w = Built-WellFormed built in
    let restricted : Query = record new_query { restrictions = q.restrictions } in
    let joined : Query = record restricted { relations = q.relations } in
    let rooted : Query = record joined { root = q.root } in
    let fine : (is_null q.root || exists joined q.root) ≡ true =
      exists_more q joined q.root 0 0 (omega arith) (omega arith) w.rooted in
    let ordered : Query = record rooted { orderby = q.orderby } in
    rw
      (
        clone_restrictions_lem q.restrictions new_query w.normal,
        clone_relations_lem q.relations restricted w.earlier,
        restrict_where_fine joined q.root fine,
        clone_orderby_lem q.orderby rooted,
        clone_collateby_lem q.collateby ordered,
      )
      refl
