-- ===== src/Media/AllocateId.antt =====
-- libmediadb/allocate_id.cpp: ids for new entries, out of a gap between those that the database uses.
use chorale.Base.{
  ℕ, ◌+◌, ◌-◌, ◌^◌, ◌<◌, ◌≤◌, ◌≡◌, ◌⊎◌, refl, sym, false, List, [], ◌∷◌, All, ltb, ◌==◌,
  if◌then◌else◌, add32, arith, Bool-cases, inl, inr, subst,
}
use chorale.Steam.Index.{mem}
use chorale.Steam.Scanning.{Ascending}

-- The gap from `m_gap_begin` up to, and without, `m_gap_end`.
pub record AllocateId : Type 0 where
  pub gap_begin : ℕ
  pub gap_end : ℕ

abbrev pub new_allocate_id : AllocateId
new_allocate_id = record { gap_begin = 0x120; gap_end = 0x120 }

-- UINT_MAX
abbrev pub uint_max : ℕ
uint_max = 2 ^ 32 - 1

-- The loop over the rows of the recordset, the ids that the query gives.
unfoldable pub find_gap : List ℕ → ℕ → AllocateId
find_gap [] expected = record { gap_begin = expected; gap_end = uint_max }
find_gap (found ∷ rows) expected =
    let rest = find_gap rows (add32 found 1) in
    if ltb expected found then record { gap_begin = expected; gap_end = found } else rest

-- `Allocate`: the id, and the gap that is left.
unfoldable pub allocate : List ℕ → AllocateId → ℕ × AllocateId
unfolding find_gap
allocate rows a =
    let g = if a.gap_begin == a.gap_end then find_gap rows (add32 a.gap_end 1) else a in
    (g.gap_begin, record { gap_begin = add32 g.gap_begin 1; gap_end = g.gap_end })

-- No id of the gap is in use.
abbrev pub IsFree : List ℕ → AllocateId → Type 0
IsFree used a = All (λ u. (u < a.gap_begin) ⊎ (a.gap_end ≤ u)) used

behind_row :
    (low found : ℕ) (rows : List ℕ)
    → All (λ y. found < y) rows
    → IsFree rows (record { gap_begin = low; gap_end = found })
behind_row low found [] h = _
behind_row low found (x ∷ rows) h = (inr (omega (arith, h.0)), behind_row low found rows h.1)

-- Rows that are no lower than an id, with room for one more id behind each.
abbrev Rows : ℕ → List ℕ → Type 0
Rows low rows = All (λ x. (low ≤ x) × (x + 1 < uint_max)) rows

Rows-tail :
    (low found : ℕ) (rows : List ℕ)
    → All (λ y. found < y) rows
    → Rows low rows
    → Rows (found + 1) rows
Rows-tail low found [] h k = _
Rows-tail low found (x ∷ rows) h k = ((omega (arith, h.0), k.0.1), Rows-tail low found rows h.1 k.1)

abbrev Found : List ℕ → ℕ → AllocateId → Type 0
Found rows expected g =
    IsFree rows g × (expected ≤ g.gap_begin) × (g.gap_begin < g.gap_end) × (g.gap_end ≤ uint_max)

-- The gap that the loop finds is not empty, starts no lower than was expected, and holds none of the rows.
find_gap-IsFree :
    (rows : List ℕ) (expected : ℕ)
    → Ascending rows
    → Rows expected rows
    → expected < uint_max
    → Found rows expected (find_gap rows expected)
unfolding find_gap Ascending
find_gap-IsFree [] expected up h room = (_, omega arith, room, omega arith)
find_gap-IsFree (found ∷ rows) expected up h room = elim (Bool-cases (ltb expected found)) [
  | inl before ↦
      let low : expected < found = ground (arith, before) in
      let here : find_gap (found ∷ rows) expected
          ≡ record { gap_begin = expected; gap_end = found } =
        rw before refl in
      subst (Found (found ∷ rows) expected) (sym here) (
        (inr (omega arith), behind_row expected found rows up.0),
        omega arith,
        low,
        omega (arith, h.0.1),
      )
  | inr after ↦
      let size : add32 found 1 ≡ found + 1 = omega (arith, h.0.1) in
      let behind : Rows (add32 found 1) rows =
        subst (λ n. Rows n rows) (sym size) (Rows-tail expected found rows up.0 h.1) in
      let (free, low, some_left, top) =
        find_gap-IsFree rows (add32 found 1) up.1 behind (omega (arith, h.0.1)) in
      let here : find_gap (found ∷ rows) expected ≡ find_gap rows (add32 found 1) = rw after refl in
      subst (Found (found ∷ rows) expected) (sym here)
        ((inl (omega (arith, low)), free), omega (arith, low, h.0.0), some_left, top)
]

-- Where the loop starts does not matter: behind a row that is lower than was expected, it goes on from that row.
abbrev Clear : List ℕ → AllocateId → Type 0
Clear rows g =
    IsFree rows g × (0 < g.gap_begin) × (g.gap_begin < g.gap_end) × (g.gap_end ≤ uint_max)

Rows-All :
    (found : ℕ) (rows : List ℕ)
    → All (λ y. found < y) rows
    → All (λ u. u + 1 < uint_max) rows
    → Rows (found + 1) rows
Rows-All found [] h k = _
Rows-All found (x ∷ rows) h k = ((omega (arith, h.0), k.0), Rows-All found rows h.1 k.1)

find_gap-Clear :
    (rows : List ℕ) (expected : ℕ)
    → Ascending rows
    → All (λ u. u + 1 < uint_max) rows
    → 0 < expected
    → expected < uint_max
    → Clear rows (find_gap rows expected)
unfolding find_gap Ascending
find_gap-Clear [] expected up h positive room = (_, positive, room, omega arith)
find_gap-Clear (found ∷ rows) expected up h positive room = elim (Bool-cases (ltb expected found)) [
  | inl before ↦
      let low : expected < found = ground (arith, before) in
      let here : find_gap (found ∷ rows) expected
          ≡ record { gap_begin = expected; gap_end = found } =
        rw before refl in
      subst (Clear (found ∷ rows)) (sym here) (
        (inr (omega arith), behind_row expected found rows up.0),
        positive,
        low,
        omega (arith, h.0),
      )
  | inr after ↦
      let size : add32 found 1 ≡ found + 1 = omega (arith, h.0) in
      let behind : Rows (add32 found 1) rows =
        subst (λ n. Rows n rows) (sym size) (Rows-All found rows up.0 h.1) in
      let (free, low, some_left, top) =
        find_gap-IsFree rows (add32 found 1) up.1 behind (omega (arith, h.0)) in
      let here : find_gap (found ∷ rows) expected ≡ find_gap rows (add32 found 1) = rw after refl in
      subst (Clear (found ∷ rows)) (sym here)
        ((inl (omega (arith, low)), free), omega (arith, low), some_left, top)
]

IsFree-mem :
    (a : AllocateId) (used : List ℕ)
    → a.gap_begin < a.gap_end
    → IsFree used a
    → mem a.gap_begin used ≡ false
unfolding mem
IsFree-mem a [] some_left h = refl
IsFree-mem a (u ∷ used) some_left (inl below, h) =
    ground (arith, below, some_left, IsFree-mem a used some_left h)
IsFree-mem a (u ∷ used) some_left (inr above, h) =
    ground (arith, above, some_left, IsFree-mem a used some_left h)

IsFree-next :
    (a : AllocateId) (n : ℕ) (used : List ℕ)
    → a.gap_begin ≤ n
    → IsFree used a
    → IsFree used (record a { gap_begin = n })
IsFree-next a n [] low h = _
IsFree-next a n (u ∷ used) low (inl below, h) = (inl (omega arith), IsFree-next a n used low h)
IsFree-next a n (u ∷ used) low (inr above, h) = (inr above, IsFree-next a n used low h)

-- The id is not in use, and what is left of the gap lies behind it and is free.
abbrev pub Fresh : List ℕ → ℕ × AllocateId → Type 0
Fresh used r =
    (mem r.0 used ≡ false)
    × (0 < r.0)
    × (r.0 < r.1.gap_begin)
    × (r.1.gap_begin ≤ r.1.gap_end)
    × IsFree used r.1

take_first :
    (used : List ℕ) (g : AllocateId)
    → 0 < g.gap_begin
    → g.gap_begin < g.gap_end
    → g.gap_end ≤ uint_max
    → IsFree used g
    → Fresh used (g.gap_begin, record { gap_begin = add32 g.gap_begin 1; gap_end = g.gap_end })
take_first used g positive some_left top free =
    let size : add32 g.gap_begin 1 ≡ g.gap_begin + 1 = omega arith in
    (
      IsFree-mem g used some_left free,
      positive,
      omega arith,
      omega arith,
      IsFree-next g (add32 g.gap_begin 1) used (omega arith) free,
    )

-- Where the query gives all ids in use, none near UINT_MAX, in ascending order, and none of them lies in the gap.
pub allocate-IsFree :
    (used : List ℕ) (a : AllocateId)
    → Ascending used
    → All (λ u. u + 1 < uint_max) used
    → IsFree used a
    → 0 < a.gap_begin
    → a.gap_begin ≤ a.gap_end
    → (a.gap_begin ≡ a.gap_end → a.gap_end + 1 < uint_max)
    → a.gap_end ≤ uint_max
    → Fresh used (allocate used a)
unfolding allocate
allocate-IsFree used a up room free positive ordered near top =
    elim (Bool-cases (a.gap_begin == a.gap_end)) [
      | inl empty ↦
          let full : a.gap_begin ≡ a.gap_end = ground (arith, empty) in
          let size : add32 a.gap_end 1 ≡ a.gap_end + 1 = omega (arith, near full) in
          let g = find_gap used (add32 a.gap_end 1) in
          let (clear, low, some_left, end) =
            find_gap-Clear used (add32 a.gap_end 1) up room (omega arith)
              (omega (arith, near full)) in
          let taken = take_first used g low some_left end clear in rw empty taken
      | inr left ↦
          let some_left : a.gap_begin < a.gap_end = ground (arith, left, ordered) in
          let taken = take_first used a positive some_left top free in rw left taken
    ]
