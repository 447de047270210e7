-- ===== src/Steam/Created.antt =====
-- libdbsteam/db.h and db.cpp: what the constructor of `Database` and `SetFieldInfo` leave.
use chorale.Base.{
  none, ap, ltb, Bool-cases, Option-cases, inl, inr, ℕ, zero, suc, ◌<◌, ◌≡◌, refl, sym, ◌∙◌, Bool,
  false, not, ◌&&◌, Option, some, List, [], ◌∷◌, Bytes, All, length, get_elem?, set, replicate,
  arith, length-set, length-replicate, subst,
}
use mathlib.Core.Option.{some-injective}
use chorale.Steam.Keys.{Key, nat_key, text_key}
use chorale.Steam.Index.{Index, listed, find}
use chorale.Steam.State.{
  Database, FieldValue, Fields, is_int, is_string, new_database, set_field_infos, set_field_info,
  index_at, cell, find_record,
}
use chorale.Steam.Access.{old_int, old_text}
use chorale.Steam.Agrees.{Agrees}
use chorale.Steam.Valid.{IsValid, int_field, text_field}
use chorale.Base.{Gives}

-- Flags that name one of the two types.
abbrev pub KnownType : ℕ × ℕ → Type 0
KnownType info = is_int info.1 ≡ not (is_string info.1)

known-set :
    (fields : List ℕ) (which flags : ℕ)
    → ((f x : ℕ) → get_elem? fields f ≡ some x → is_int x ≡ not (is_string x))
    → is_int flags ≡ not (is_string flags)
    → (f x : ℕ) → get_elem? (set fields which flags) f ≡ some x
    → is_int x ≡ not (is_string x)
known-set [] which flags all h f x e = cc
known-set (y ∷ fields) zero flags all h zero x e = rw (← (some-injective _ _ e)) h
known-set (y ∷ fields) zero flags all h (suc f) x e = all (suc f) x e
known-set (y ∷ fields) (suc which) flags all h zero x e = all zero x e
known-set (y ∷ fields) (suc which) flags all h (suc f) x e =
    known-set fields which flags (λ g z. all (suc g) z) h f x e

no_cell :
    (m : List (ℕ × Fields)) (r f : ℕ) (x : FieldValue)
    → m ≡ []
    → cell m r f ≡ some x
    → none ≡ some x
unfolding cell find_record
no_cell m r f x empty e = ground (arith, empty, e)

-- Where there are no records, an index that agrees with them lists none, whatever the flags are.
Agrees-empty :
    {K : Type 0} ⦃key : Key K⦄ (on on' : ℕ → Bool) (old : FieldValue → Option K)
    (m : List (ℕ × Fields)) (xs : List (Index K))
    → m ≡ []
    → Agrees on old m xs
    → Agrees on' old m xs
unfolding cell find_record
Agrees-empty on on' old m xs empty h f r k = ground (arith, empty, h f r k)

pub set_field_info-IsValid :
    (which flags : ℕ) (db : Database)
    → IsValid db
    → which < db.nfields
    → KnownType (which, flags)
    → db.records ≡ []
    → Gives (set_field_info which flags db) IsValid
unfolding set_field_info
set_field_info-IsValid which flags db v room known empty =
    let fields = set db.fields which flags in
    let changed : Database = record db { fields = fields } in
    let valid : IsValid changed = record {
      field_count = length-set db.fields which flags ∙ v.field_count;
      text_count = v.text_count;
      int_count = v.int_count;
      known = known-set db.fields which flags v.known known;
      widths = v.widths;
      ints =
          Agrees-empty (int_field db.fields) (int_field fields) old_int db.records db.intindexes
            empty v.ints;
      texts =
          Agrees-empty (text_field db.fields) (text_field fields) old_text db.records
            db.stringindexes empty v.texts;
      parsed = λ r f x e. let h = no_cell db.records r f x empty e in cc;
    } in
    (changed, ground (arith, v.field_count, room), valid)

-- What the constructor's flags leave: as many fields, each of one of the two types.
set_field_infos_lem :
    (infos : List (ℕ × ℕ)) (fields fields' : List ℕ)
    → All KnownType infos
    → set_field_infos infos fields ≡ some fields'
    → ((f x : ℕ) → get_elem? fields f ≡ some x → is_int x ≡ not (is_string x))
    → (length fields' ≡ length fields)
      × ((f x : ℕ) → get_elem? fields' f ≡ some x → is_int x ≡ not (is_string x))
unfolding set_field_infos
set_field_infos_lem [] fields fields' h e all =
    let same = some-injective _ _ e in
    (
      ap length (sym same),
      subst (λ fs. (f x : ℕ) → get_elem? fs f ≡ some x → is_int x ≡ not (is_string x)) same all,
    )
set_field_infos_lem ((which, flags) ∷ infos) fields fields' h e all =
    elim (Bool-cases (ltb which (length fields))) [
      | inl room ↦
          let (size, known) =
            set_field_infos_lem infos (set fields which flags) fields' h.1 (ground (arith, e, room))
              (known-set fields which flags all h.0) in
          (size ∙ length-set fields which flags, known)
      | inr off ↦ absurd (ground (arith, e, off))
    ]

known-zeros : (n f x : ℕ) → get_elem? (replicate n 0) f ≡ some x → is_int x ≡ not (is_string x)
known-zeros zero f x e = cc
known-zeros (suc n) zero x e = rw (← (some-injective _ _ e)) refl
known-zeros (suc n) (suc f) x e = known-zeros n f x e

empty_indexes : {K : Type 0} (n f : ℕ) → index_at {K = K} (replicate n []) f ≡ []
unfolding index_at
empty_indexes zero f = refl
empty_indexes (suc n) zero = refl
empty_indexes (suc n) (suc f) = empty_indexes n f

none_listed :
    {K : Type 0} ⦃key : Key K⦄ (n f : ℕ) (k : K) (r : ℕ) (b : Bool)
    → listed (index_at (replicate n []) f) k r ≡ (b && false)
unfolding listed find
none_listed n f k r b = rw (empty_indexes n f) (ground arith)

-- With the flags of the fields, nothing else.
abbrev fresh : ℕ → List ℕ → Database
fresh n fields = record {
  nfields = n;
  next_recno = 0;
  fields = fields;
  records = [];
  stringindexes = replicate n [];
  intindexes = replicate n [];
}

new_database-fresh :
    (nfields : ℕ) (infos : List (ℕ × ℕ)) (db : Database)
    → new_database nfields infos ≡ some db
    → Gives (set_field_infos infos (replicate nfields 0)) (λ fields. fresh nfields fields ≡ db)
unfolding new_database
new_database-fresh n infos db e = elim (Option-cases (set_field_infos infos (replicate n 0))) [
  | inl off ↦ absurd (ground (arith, e, off))
  | inr (fields, made) ↦
      let same : some (fresh n fields) ≡ some db = ground (arith, e, made) in
      (fields, made, some-injective _ _ same)
]

-- A new database has no records and nothing in its indexes.
pub new_database-empty :
    (nfields : ℕ) (infos : List (ℕ × ℕ)) (db : Database)
    → new_database nfields infos ≡ some db
    → (db.records ≡ [])
      × (db.intindexes ≡ replicate nfields [])
      × (db.stringindexes ≡ replicate nfields [])
new_database-empty n infos db e =
    let (fields, made, same) = new_database-fresh n infos db e in
    (
      ap (λ (x : Database). x.records) (sym same),
      ap (λ (x : Database). x.intindexes) (sym same),
      ap (λ (x : Database). x.stringindexes) (sym same),
    )

pub new_database-IsValid :
    (nfields : ℕ) (infos : List (ℕ × ℕ)) {db : Database}
    → All KnownType infos
    → new_database nfields infos ≡ some db
    → IsValid db
unfolding find_record cell
new_database-IsValid n infos {db} h e =
    let (fields, made, same) = new_database-fresh n infos db e in
    let (size, known) = set_field_infos_lem infos (replicate n 0) fields h made (known-zeros n) in
    let valid : IsValid (fresh n fields) = record {
      field_count = size ∙ length-replicate n 0;
      text_count = length-replicate n [];
      int_count = length-replicate n [];
      known = known;
      widths = λ r w e. cc;
      ints = λ f r k. none_listed {K = ℕ} n f k r (int_field fields f);
      texts = λ f r k. none_listed {K = Bytes} n f k r (text_field fields f);
      parsed = λ r f v e. cc;
    } in
    subst IsValid same valid
