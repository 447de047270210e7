-- ===== src/Steam/Collating.antt =====
-- libdbsteam/rs.cpp: the rows of a `CollateRecordset` of a field with an index by number are all keys of the index.
use chorale.Base.{
  ℕ, zero, suc, ◌+◌, ◌<◌, ◌≡◌, refl, sym, ◌∙◌, subst, true, false, Option, none, some, List, [],
  ◌∷◌, ◌++◌, All, length, map, if◌then◌else◌, ◌>>=◌, arith, append_assoc,
}
use chorale.Steam.Index.{Index}
use chorale.Steam.Scanning.{Ascending}
use chorale.Steam.Ordered.{Collation, collate_numbers, next_number}

abbrev pub keys : Index ℕ → List ℕ
keys = map (λ e. e.0)

-- The rows of a recordset that a client reads to its end, `GetInteger` of each. The first argument counts the rows.
unfoldable pub collated_rows : ℕ → Index ℕ → Collation ℕ → Option (List ℕ)
unfolding next_number
collated_rows zero index p = none
collated_rows (suc n) index p =
    if p.eof
    then some []
    else do rest ← collated_rows n index (next_number index p); some (p.value ∷ rest)

abbrev at_key : ℕ → Collation ℕ
at_key k = record { value = k; eof = false }

abbrev landed : ℕ → List ℕ → Collation ℕ
landed k [] = record { value = k; eof = true }
landed k (j ∷ post) = at_key j

All-middle : {x y : ℕ} (pre post : List ℕ) → All (λ z. x < z) (pre ++ y ∷ post) → x < y
All-middle [] post h = h.0
All-middle (z ∷ pre) post h = All-middle pre post h.1

next_number-head :
    (m : Index ℕ) (k : ℕ) → All (λ z. k < z) (keys m) → next_number m (at_key k) ≡ landed k (keys m)
unfolding next_number
next_number-head [] k h = refl
next_number-head ((j, s) ∷ m) k h = let above : k < j = h.0 in ground arith

-- After a key comes the one that follows it in the index.
next_number-landed :
    (m : Index ℕ) (pre : List ℕ) (k : ℕ) (post : List ℕ)
    → Ascending (keys m)
    → keys m ≡ pre ++ k ∷ post
    → next_number m (at_key k) ≡ landed k post
unfolding next_number Ascending
next_number-landed [] [] k post up e = cc
next_number-landed [] (x ∷ pre) k post up e = cc
next_number-landed ((j, s) ∷ m) [] k post up e =
    let here : j ≡ k = cc in
    let after : keys m ≡ post = cc in
    let above : All (λ z. k < z) (keys m) = subst (λ i. All (λ z. i < z) (keys m)) here up.0 in
    ground (arith, next_number-head m k above, after, here)
next_number-landed ((j, s) ∷ m) (x ∷ pre) k post up e =
    let after : keys m ≡ pre ++ k ∷ post = cc in
    let above : j < k = All-middle pre post (subst (All (λ z. j < z)) after up.0) in
    let rest = next_number-landed m pre k post up.1 after in ground (arith, above, rest)

collated_rows-rest :
    (n : ℕ) (m : Index ℕ) (pre : List ℕ) (k : ℕ) (post : List ℕ)
    → Ascending (keys m)
    → keys m ≡ pre ++ k ∷ post
    → length post + 1 < n
    → collated_rows n m (at_key k) ≡ some (k ∷ post)
unfolding collated_rows
collated_rows-rest zero m pre k post up e room = absurd (omega arith)
collated_rows-rest (suc zero) m pre k post up e room = absurd (omega arith)
collated_rows-rest (suc (suc n)) m pre k [] up e room = rw (next_number-landed m pre k [] up e) refl
collated_rows-rest (suc (suc n)) m pre k (j ∷ post) up e room =
    let rest =
      collated_rows-rest (suc n) m (pre ++ k ∷ []) j post up
        (e ∙ sym (append_assoc pre (k ∷ []) (j ∷ post))) (omega arith) in
    ground (arith, next_number-landed m pre k (j ∷ post) up e, rest)

length-keys : (m : Index ℕ) → length (keys m) ≡ length m
length-keys [] = refl
length-keys (x ∷ m) = omega (arith, length-keys m)

-- Enough rounds are one more than there are keys.
pub collated_rows-keys :
    (m : Index ℕ)
    → Ascending (keys m)
    → collated_rows (suc (length m)) m (collate_numbers m) ≡ some (keys m)
unfolding collated_rows collate_numbers
collated_rows-keys [] up = refl
collated_rows-keys ((k, s) ∷ m) up =
    collated_rows-rest (suc (suc (length m))) ((k, s) ∷ m) [] k (keys m) up refl
      (omega (arith, length-keys m))
