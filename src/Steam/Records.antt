-- ===== src/Steam/Records.antt =====
-- libdbsteam/rs.cpp: what the changes to `m_data` do to the values of the records.
use chorale.Base.{
  ℕ, zero, suc, ◌<◌, ◌≡◌, refl, ◌&&◌, none, some, List, [], ◌∷◌, length, get_elem?, set, replicate,
  ◌==◌, if◌then◌else◌, arith, lt_of_get_elem?, Option-cases, inl, inr, ◌⊎◌,
}
use chorale.Steam.State.{
  Fields, FieldValue, blank, find_record, put_record, new_record, erase_record, cell, put_cell,
}

module _ (q r : ℕ) (w : Fields) where
  pub find_record-put_record :
      (u : Fields) (m : List (ℕ × Fields))
      → find_record r m ≡ some u
      → find_record q (put_record r w m) ≡ (if q == r then some w else find_record q m)
  unfolding find_record put_record
  find_record-put_record u [] h = cc
  find_record-put_record u ((p, v) ∷ m) h = ground (arith, find_record-put_record u m)

  pub find_record-new_record :
      (m : List (ℕ × Fields))
      → find_record r m ≡ none
      → find_record q (new_record r w m) ≡ (if q == r then some w else find_record q m)
  unfolding find_record new_record
  find_record-new_record [] h = refl
  find_record-new_record ((p, v) ∷ m) h = ground (arith, find_record-new_record m)

pub find_record-erase_record :
    (q r : ℕ) (m : List (ℕ × Fields))
    → find_record q (erase_record r m) ≡ (if q == r then none else find_record q m)
unfolding find_record erase_record
find_record-erase_record q r [] = ground arith
find_record-erase_record q r ((p, v) ∷ m) = ground (arith, find_record-erase_record q r m)

-- A value that is there stands in a record that is there.
pub cell-some :
    (r f : ℕ) (m : List (ℕ × Fields)) {v : FieldValue}
    → cell m r f ≡ some v
    → (w : Fields) × (find_record r m ≡ some w) × (get_elem? w f ≡ some v)
unfolding cell
cell-some r f m h = elim (Option-cases (find_record r m)) [
  | inl absent ↦ ground (arith, absent)
  | inr (w, there) ↦ (w, there, ground (arith, there))
]

pub get_elem?-set :
    (w : Fields) (f g : ℕ) (v : FieldValue)
    → f < length w
    → get_elem? (set w f v) g ≡ (if g == f then some v else get_elem? w g)
get_elem?-set [] f g v h = absurd (omega arith)
get_elem?-set (x ∷ w) zero zero v h = ground arith
get_elem?-set (x ∷ w) zero (suc g) v h = ground arith
get_elem?-set (x ∷ w) (suc f) zero v h = ground arith
get_elem?-set (x ∷ w) (suc f) (suc g) v h = ground (arith, get_elem?-set w f g v)

-- One value is changed, and no other.
pub cell-put_cell :
    (q r g f : ℕ) (v : FieldValue) (m : List (ℕ × Fields)) {u : FieldValue}
    → cell m r f ≡ some u
    → cell (put_cell r f v m) q g ≡ (if (q == r) && (g == f) then some v else cell m q g)
unfolding cell put_cell
cell-put_cell q r g f v m h =
    let (w, there, e) = cell-some r f m h in
    ground (
      arith,
      there,
      find_record-put_record q r (set w f v) w m there,
      get_elem?-set w f g v,
      lt_of_get_elem? w f e,
    )

pub get_elem?-replicate-none :
    (n f : ℕ)
    → (get_elem? (replicate n blank) f ≡ none) ⊎ (get_elem? (replicate n blank) f ≡ some blank)
get_elem?-replicate-none zero f = inl refl
get_elem?-replicate-none (suc n) zero = inr refl
get_elem?-replicate-none (suc n) (suc f) = get_elem?-replicate-none n f

pub cell-erase_record :
    (q r g : ℕ) (m : List (ℕ × Fields))
    → cell (erase_record r m) q g ≡ (if q == r then none else cell m q g)
unfolding cell
cell-erase_record q r g m = ground (arith, find_record-erase_record q r m)

pub cell-new_record :
    (q r g n : ℕ) (m : List (ℕ × Fields))
    → find_record r m ≡ none
    → cell (new_record r (replicate n blank) m) q g
      ≡ (if q == r then get_elem? (replicate n blank) g else cell m q g)
unfolding cell
cell-new_record q r g n m h = ground (arith, find_record-new_record q r (replicate n blank) m h)
