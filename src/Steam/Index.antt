-- ===== src/Steam/Index.antt =====
-- libdbsteam/db.h: an index of a field, `std::map<K, std::set<unsigned int>>`, from a value to the numbers of the
-- records that hold it, and what the calls of rs.cpp do to it.
use chorale.Base.{
  ℕ, ◌≡◌, refl, Bool, false, not, ◌&&◌, ◌||◌, Option, none, some, List, [], ◌∷◌, ltb, ◌==◌,
  if◌then◌else◌, arith, Option-cases, List-cases, inl, inr,
}
use chorale.Steam.Keys.{Key}

-- A set of record numbers, in ascending order.
unfoldable pub mem : ℕ → List ℕ → Bool
mem r [] = false
mem r (x ∷ xs) = (r == x) || mem r xs

unfoldable pub set_insert : ℕ → List ℕ → List ℕ
set_insert r [] = r ∷ []
set_insert r (x ∷ xs) =
    let rest = set_insert r xs in
    if r == x then x ∷ xs else if ltb r x then r ∷ x ∷ xs else x ∷ rest

unfoldable pub set_erase : ℕ → List ℕ → List ℕ
set_erase r [] = []
set_erase r (x ∷ xs) = let rest = set_erase r xs in if r == x then rest else x ∷ rest

pub mem-set_insert : (q r : ℕ) (xs : List ℕ) → mem q (set_insert r xs) ≡ ((q == r) || mem q xs)
unfolding mem set_insert
mem-set_insert q r [] = refl
mem-set_insert q r (x ∷ xs) = ground (arith, mem-set_insert q r xs)

pub mem-set_erase : (q r : ℕ) (xs : List ℕ) → mem q (set_erase r xs) ≡ (not (q == r) && mem q xs)
unfolding mem set_erase
mem-set_erase q r [] = ground arith
mem-set_erase q r (x ∷ xs) = ground (arith, mem-set_erase q r xs)

-- The entries of the map, in the order of their keys.
abbrev pub Index {ℓ} : Type ℓ → Type ℓ
Index K = List (K × List ℕ)

module _ {K : Type 0} ⦃key : Key K⦄ where
  unfoldable pub find : K → Index K → Option (List ℕ)
  find k [] = none
  find k ((j, s) ∷ m) = let rest = find k m in if key.same k j then some s else rest

  -- The set of a key that is there.
  unfoldable pub replace : K → List ℕ → Index K → Index K
  replace k s [] = []
  replace k s ((j, t) ∷ m) =
      let rest = replace k s m in if key.same k j then (j, s) ∷ m else (j, t) ∷ rest

  -- A new key, before the first greater one.
  unfoldable pub place : K → List ℕ → Index K → Index K
  place k s [] = (k, s) ∷ []
  place k s ((j, t) ∷ m) =
      let rest = place k s m in if key.less k j then (k, s) ∷ (j, t) ∷ m else (j, t) ∷ rest

  unfoldable pub erase_key : K → Index K → Index K
  erase_key k [] = []
  erase_key k ((j, t) ∷ m) =
      let rest = erase_key k m in if key.same k j then rest else (j, t) ∷ rest

  -- `index[k].insert(r)`
  unfoldable pub index_add : K → ℕ → Index K → Index K
  unfolding find replace place set_insert
  index_add k r m = elim (find k m) [
    | none ↦ place k (r ∷ []) m
    | some s ↦ replace k (set_insert r s) m
  ]

  -- `index[k].erase(r); if (index[k].empty()) index.erase(k);`
  unfoldable pub index_remove : K → ℕ → Index K → Index K
  unfolding find replace erase_key set_erase
  index_remove k r m = elim (find k m) [
    | none ↦ m
    | some s ↦ elim (set_erase r s) [ [] ↦ erase_key k m | x ∷ xs ↦ replace k (x ∷ xs) m ]
  ]

  -- Is the record listed under the key?
  unfoldable pub listed : Index K → K → ℕ → Bool
  unfolding find mem
  listed m k r = elim (find k m) [ none ↦ false | some s ↦ mem r s ]

  pub find-replace :
      (q k : K) (s t : List ℕ) (m : Index K)
      → find k m ≡ some t
      → find q (replace k s m) ≡ (if key.same q k then some s else find q m)
  unfolding find replace
  find-replace q k s t [] h = cc
  find-replace q k s t ((j, u) ∷ m) h =
      ground (arith, key.same_iff q k, key.same_iff k j, key.same_iff q j, find-replace q k s t m)

  pub find-place :
      (q k : K) (s : List ℕ) (m : Index K)
      → find k m ≡ none
      → find q (place k s m) ≡ (if key.same q k then some s else find q m)
  unfolding find place
  find-place q k s [] h = refl
  find-place q k s ((j, u) ∷ m) h =
      ground (arith, key.same_iff q k, key.same_iff k j, key.same_iff q j, find-place q k s m)

  pub find-erase_key :
      (q k : K) (m : Index K) → find q (erase_key k m) ≡ (if key.same q k then none else find q m)
  unfolding find erase_key
  find-erase_key q k [] = ground arith
  find-erase_key q k ((j, u) ∷ m) =
      ground (arith, key.same_iff q k, key.same_iff k j, key.same_iff q j, find-erase_key q k m)

  pub listed-index_add :
      (k q : K) (r p : ℕ) (m : Index K)
      → listed (index_add k r m) q p ≡ ((key.same q k && (p == r)) || listed m q p)
  unfolding listed index_add mem
  listed-index_add k q r p m = elim (Option-cases (find k m)) [
    | inl absent ↦ ground (arith, absent, find-place q k (r ∷ []) m absent, key.same_iff q k)
    | inr (s, there) ↦ ground (
      arith,
      there,
      find-replace q k (set_insert r s) s m there,
      key.same_iff q k,
      mem-set_insert p r s,
    )
  ]

  pub listed-index_remove :
      (k q : K) (r p : ℕ) (m : Index K)
      → listed (index_remove k r m) q p ≡ (not (key.same q k && (p == r)) && listed m q p)
  unfolding listed index_remove mem
  listed-index_remove k q r p m = elim (Option-cases (find k m)) [
    | inl absent ↦ ground (arith, absent, key.same_iff q k)
    | inr (s, there) ↦ elim (List-cases (set_erase r s)) [
      | inl gone ↦
          ground (arith, there, gone, find-erase_key q k m, key.same_iff q k, mem-set_erase p r s)
      | inr (x, xs, left) ↦ ground (
        arith,
        there,
        left,
        find-replace q k (x ∷ xs) s m there,
        key.same_iff q k,
        mem-set_erase p r s,
      )
    ]
  ]
