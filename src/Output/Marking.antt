-- ===== src/Output/Marking.antt =====
-- liboutput/queue.cpp: the two loops of `QueueRemove` that mark entries and renumber the queue.
use Prim.Native.Nat.{◌-◌}
use native.Mathlib.Decide.{dec_lt}
use native.Mathlib.Numerals.{add-one}
use chorale.Base.{
  All, drop-drop, ℕ, zero, suc, ◌+◌, ◌<◌, ◌≤◌, ◌≡◌, refl, ◌∙◌, ap, Option, none, some, List, [],
  ◌∷◌, ◌++◌, arith, length, get_elem?, get_elem?-lt, count, SameItems, range_from, map,
  count-range_from, ltb, ◌==◌, bit, if◌then◌else◌, set, length-set, Bool-cases, Option-cases,
  count-append, count-take-drop, inl, inr, take, drop, length-append, length-take, length-drop,
  get_elem?-append_left, get_elem?-append_right, get_elem?-take, get_elem?-drop, drop-get_elem?,
  get_elem?-set_self, get_elem?-set_ne, subst,
}
use chorale.Output.State.{Queue, Entry}
use chorale.Output.Edit.{mark, renumber, renumbered, remove_null}
use chorale.Output.Valid.{IsValid, HasDb, All-get_elem?}

-- 1 where an entry stands that is not marked for deletion.
abbrev pub live : Option Entry → ℕ
live none = 0
live (some e) = elim e.db [ none ↦ 0 | some _ ↦ 1 ]

-- The indices that stay, in order.
pub survivors : List Entry → ℕ → List ℕ
survivors [] i = []
survivors (e ∷ es) i = elim e.db [ none ↦ survivors es (i + 1) | some _ ↦ i ∷ survivors es (i + 1) ]

get_elem?-cons :
    (e : Entry) (es : List Entry) (k : ℕ)
    → get_elem? (e ∷ es) k ≡ (if k == 0 then some e else get_elem? es (k - 1))
get_elem?-cons e es zero = refl
get_elem?-cons e es (suc k) = ground (arith, ap (get_elem? es) (pred-suc k))
  where
    pred-suc : (k : ℕ) → suc k - 1 ≡ k
    pred-suc k = omega arith

count-survivors :
    (es : List Entry) (i a : ℕ)
    → count a (survivors es i) ≡ (if ltb a i then 0 else live (get_elem? es (a - i)))
unfolding survivors
count-survivors [] i a = ground arith
count-survivors (e ∷ es) i a = ground (
  arith,
  get_elem?-cons e es (a - i),
  count-survivors es (i + 1) a,
  ap (get_elem? es) (sub-suc a i),
)
  where
    sub-suc : (a i : ℕ) → a - i - 1 ≡ a - (i + 1)
    sub-suc a i = omega arith

map-renumbered-skip :
    (m : List (ℕ × ℕ)) (i j b : ℕ) (es : List Entry)
    → i < b
    → map (renumbered ((i, j) ∷ m)) (survivors es b) ≡ map (renumbered m) (survivors es b)
unfolding survivors renumbered
map-renumbered-skip m i j b [] h = refl
map-renumbered-skip m i j b (e ∷ es) h =
    ground (arith, map-renumbered-skip m i j (b + 1) es (omega arith))

-- The map numbers the survivors from 0.
pub map-renumbered-survivors :
    (es : List Entry) (i j : ℕ)
    → map (renumbered (renumber es i j)) (survivors es i) ≡ range_from j (length (remove_null es))
unfolding survivors renumber renumbered remove_null
map-renumbered-survivors [] i j = refl
map-renumbered-survivors (e ∷ es) i j = ground (
  arith,
  map-renumbered-survivors es (i + 1) j,
  map-renumbered-survivors es (i + 1) (j + 1),
  map-renumbered-skip (renumber es (i + 1) (j + 1)) i j (i + 1) es (omega arith),
)

-- A live entry is found, after the deletion, at its new index.
pub renumbered-rank :
    (es : List Entry) (i j k : ℕ)
    → live (get_elem? es k) ≡ 1
    → (r : ℕ) × (renumbered (renumber es i j) (i + k) ≡ j + r)
      × (get_elem? (remove_null es) r ≡ get_elem? es k)
unfolding renumber renumbered remove_null
renumbered-rank [] i j k h = absurd (omega arith)
renumbered-rank (e ∷ es) i j zero h = (0, ground arith, ground arith)
renumbered-rank (e ∷ es) i j (suc k) h = elim (Option-cases e.db) [
  | inl null ↦
      let (r, p, g) = renumbered-rank es (i + 1) j k h in
      (r, ground (arith, p, ap (renumbered (renumber es (i + 1) j)) (shift i k)), ground (arith, g))
  | inr (d, found) ↦
      let (r, p, g) = renumbered-rank es (i + 1) (j + 1) k h in
      (
        suc r,
        ground (arith, p, ap (renumbered (renumber es (i + 1) (j + 1))) (shift i k)),
        ground (arith, g),
      )
]
  where
    shift : (i k : ℕ) → i + 1 + k ≡ i + suc k
    shift i k = omega arith

pub remove_null-HasDb : (es : List Entry) → All HasDb (remove_null es)
unfolding remove_null
remove_null-HasDb [] = tt
remove_null-HasDb (e ∷ es) = elim (Option-cases e.db) [
  | inl null ↦
      let same : remove_null es ≡ remove_null (e ∷ es) = ground arith in
      subst (All HasDb) same (remove_null-HasDb es)
  | inr (d, found) ↦
      let same : e ∷ remove_null es ≡ remove_null (e ∷ es) = ground arith in
      subst (All HasDb) same ((λ n. cc), remove_null-HasDb es)
]

All-map_lt : {m n : ℕ} (ks : List ℕ) → n ≡ m → All (λ k. k < m) ks → All (λ k. k < n) ks
All-map_lt [] e b = tt
All-map_lt (k ∷ ks) e b = (omega arith, All-map_lt ks e b.1)

-- `es'` is `es` with the entries of `slice` marked for deletion, and no other touched.
pub record Marked (slice : List ℕ) (es es' : List Entry) : Type 0 where
  pub same_length : length es' ≡ length es
  pub kept : (k : ℕ) → count k slice ≡ 0 → get_elem? es' k ≡ get_elem? es k
  pub gone : (k : ℕ) → 0 < count k slice → live (get_elem? es' k) ≡ 0

Marked-cons :
    (k₀ : ℕ) (e : Entry) (slice : List ℕ) (es es' : List Entry)
    → k₀ < length es
    → Marked slice (set es k₀ (record e { db = none })) es'
    → Marked (k₀ ∷ slice) es es'
Marked-cons k₀ e slice es es' lt m = record {
  same_length = m.same_length ∙ length-set es k₀ null;
  kept = λ k c. m.kept k (omega arith) ∙ get_elem?-set_ne es k₀ k null (λ same. ground arith);
  gone = λ k c. elim (dec_lt 0 (count k slice)) [
    | yes more ↦ m.gone k more
    | no first ↦ ap live (
        m.kept k (omega arith)
        ∙ ap (get_elem? (set es k₀ null)) (found k first c)
        ∙ get_elem?-set_self es k₀ null lt)
  ];
}
  where
    null : Entry
    null = record e { db = none }

    found : (k : ℕ) → ¬ (0 < count k slice) → 0 < count k (k₀ ∷ slice) → k ≡ k₀
    found k first c = ground arith

-- What marking does: it ends, deletes the entries of a slice of the queue, and keeps the others.
pub mark_lem :
    (n i : ℕ) (order : List ℕ) (es : List Entry)
    → i + n ≤ length order
    → All (λ k. k < length es) order
    → (es' : List Entry) × (mark n i order es ≡ some es') × Marked (take n (drop i order)) es es'
unfolding mark
mark_lem zero i order es h b = (
  es,
  refl,
  record { same_length = refl; kept = λ k e. refl; gone = λ k e. absurd (omega arith) },
)
mark_lem (suc n) i order es h b =
    let (k₀, p) = get_elem?-lt order i (omega arith) in
    let lt : k₀ < length es = All-get_elem? (λ k. k < length es) order i b p in
    let (e, pe) = get_elem?-lt es k₀ lt in
    let null : Entry = record e { db = none } in
    let (es', done, m) =
      mark_lem n (i + 1) order (set es k₀ null) (omega arith)
        (All-map_lt order (length-set es k₀ null) b) in
    let next : drop i order ≡ k₀ ∷ drop (i + 1) order = rw add-one (drop-get_elem? i order p) in
    (es', rw (p, pe) done, rw next (Marked-cons k₀ e (take n (drop (i + 1) order)) es es' lt m))

-- The slice of the queue that goes, and the rest.
abbrev pub slice : ℕ → ℕ → List ℕ → List ℕ
slice from to xs = take (to - from) (drop from xs)

abbrev pub rest {ℓ} : {A : Type ℓ} → ℕ → ℕ → List A → List A
rest from to xs = take from xs ++ drop to xs

pub length-rest {ℓ} :
    {A : Type ℓ} (from to : ℕ) (xs : List A)
    → from ≤ to
    → to ≤ length xs
    → length (rest from to xs) ≡ length xs - (to - from)
length-rest from to xs h k =
    omega (arith, length-append (take from xs) (drop to xs), length-take from xs, length-drop to xs)

-- What stands where in the rest.
pub get_elem?-rest {ℓ} :
    {A : Type ℓ} (from to j : ℕ) (xs : List A)
    → from ≤ to
    → to ≤ length xs
    → get_elem? (rest from to xs) j ≡ get_elem? xs (if ltb j from then j else j + (to - from))
get_elem?-rest {A} from to j xs h k = elim (Bool-cases (ltb j from)) [
  | inl before ↦ rw before (
      get_elem?-append_left (take from xs) (drop to xs) j (ground (arith, length-take from xs))
      ∙ get_elem?-take from xs j (ground arith))
  | inr behind ↦ rw behind (
      ap (get_elem? (rest from to xs)) (split j from to xs h k (ground arith))
      ∙ get_elem?-append_right (take from xs) (drop to xs) (j - from)
      ∙ get_elem?-drop to xs (j - from)
      ∙ ap (get_elem? xs) (shift j from to h (ground arith)))
]
  where
    split :
        (j from to : ℕ) (xs : List A)
        → from ≤ to
        → to ≤ length xs
        → from ≤ j
        → j ≡ length (take from xs) + (j - from)
    split j from to xs h k l = omega (arith, length-take from xs)

    shift : (j from to : ℕ) → from ≤ to → from ≤ j → to + (j - from) ≡ j + (to - from)
    shift j from to h l = omega arith

pub count-rest :
    (a from to : ℕ) (xs : List ℕ)
    → from ≤ to
    → count a (rest from to xs) + count a (slice from to xs) ≡ count a xs
count-rest a from to xs h = omega (
  arith,
  count-append a (take from xs) (drop to xs),
  count-take-drop a from xs,
  count-take-drop a (to - from) (drop from xs),
  ap (count a) (drop-drop (to - from) from xs ∙ ap (λ k. drop k xs) (to_end from to h)),
)
  where
    to_end : (from to : ℕ) → from ≤ to → from + (to - from) ≡ to
    to_end from to h = omega arith

pub live-HasDb :
    (es : List Entry) (k : ℕ) → All HasDb es → live (get_elem? es k) ≡ bit (ltb k (length es))
live-HasDb [] k h = ground arith
live-HasDb (e ∷ es) zero h = ground arith
live-HasDb (e ∷ es) (suc k) h = ground (arith, live-HasDb es k h.1)

-- After marking, the rest of a valid queue holds just the survivors.
pub rest-survivors :
    {q : Queue} (from to : ℕ) (marked : List Entry)
    → IsValid q
    → from ≤ to
    → Marked (slice from to q.queue) q.entries marked
    → SameItems (rest from to q.queue) (survivors marked 0)
rest-survivors {q} from to marked v h m a = elim (dec_lt 0 (count a (slice from to q.queue))) [
  | yes out ↦ ground (
    arith,
    count-rest a from to q.queue h,
    m.gone a out,
    count-survivors marked 0 a,
    v.order a,
    count-range_from a 0 (length q.entries),
    sub_zero a,
  )
  | no stays ↦ ground (
    arith,
    count-rest a from to q.queue h,
    m.kept a (omega arith),
    count-survivors marked 0 a,
    v.order a,
    count-range_from a 0 (length q.entries),
    live-HasDb q.entries a v.dbs,
    sub_zero a,
  )
]
  where
    sub_zero : (a : ℕ) → a - 0 ≡ a
    sub_zero a = omega arith
