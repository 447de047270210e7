-- ===== src/Output/Sweeping.antt =====
-- liboutput/queue.cpp: the loop of `EntryRemove` that closes the gap in the queue.
use Prim.Native.Nat.{◌-◌}
use mathlib.Core.Option.{some-injective}
use chorale.Base.{
  All, ℕ, zero, suc, ◌+◌, ◌<◌, ◌≤◌, ◌≡◌, refl, sym, ◌∙◌, ap, some, List, [], ◌∷◌, ◌⊎◌, ◌++◌, arith,
  length, get_elem?, count, u32, add32, ltb, leb, ◌==◌, bit, if◌then◌else◌, Bool-cases,
  count-append, inl, inr, take, length-append, get_elem?-append_right, append_assoc, append-nil,
}
use chorale.Output.Edit.{Sweep, sweep, sweep_step}

-- The index of an entry behind the removed range.
abbrev pub closed_up : ℕ → ℕ → ℕ → ℕ
closed_up from to k = if leb to k then add32 from (k - to) else k

-- What the sweep writes for one element.
kept_here : ℕ → ℕ → ℕ → List ℕ
kept_here from to k =
    if leb to k then add32 from (k - to) ∷ [] else if ltb k from then k ∷ [] else []

-- The elements that the sweep keeps, renumbered.
pub keep : ℕ → ℕ → List ℕ → List ℕ
keep from to [] = []
keep from to (k ∷ ks) = kept_here from to k ++ keep from to ks

step-kept :
    (from to c i k : ℕ) (s : Sweep)
    → (sweep_step from to c i k s).kept ≡ s.kept ++ kept_here from to k
unfolding sweep_step kept_here
step-kept from to c i k s = ground (arith, append-nil s.kept)

step-index :
    (from to c i k : ℕ) (s : Sweep)
    → (sweep_step from to c i k s).new_current_index
      ≡ (if c == i then length s.kept else s.new_current_index)
unfolding sweep_step
step-index from to c i k s = ground arith

pub sweep-kept :
    (from to c i : ℕ) (ks : List ℕ) (s : Sweep)
    → (sweep from to c i ks s).kept ≡ s.kept ++ keep from to ks
unfolding sweep keep
sweep-kept from to c i [] s = sym (append-nil s.kept)
sweep-kept from to c i (k ∷ ks) s =
    sweep-kept from to c (i + 1) ks (sweep_step from to c i k s)
    ∙ rw step-kept (append_assoc s.kept (kept_here from to k) (keep from to ks))

-- Behind the current index the loop leaves `new_current_index` alone.
sweep-index_past :
    (from to c i : ℕ) (ks : List ℕ) (s : Sweep)
    → c < i
    → (sweep from to c i ks s).new_current_index ≡ s.new_current_index
unfolding sweep
sweep-index_past from to c i [] s h = refl
sweep-index_past from to c i (k ∷ ks) s h =
    sweep-index_past from to c (i + 1) ks (sweep_step from to c i k s) (omega arith)
    ∙ step-index from to c i k s
    ∙ ground arith

-- At the current index it takes the number of elements kept so far.
pub sweep-index :
    (from to i d : ℕ) (ks : List ℕ) (s : Sweep)
    → d < length ks
    → (sweep from to (i + d) i ks s).new_current_index
      ≡ length s.kept + length (keep from to (take d ks))
unfolding sweep keep
sweep-index from to i d [] s h = elim h [ ]
sweep-index from to i zero (k ∷ ks) s h =
    sweep-index_past from to (i + 0) (i + 1) ks (sweep_step from to (i + 0) i k s) (omega arith)
    ∙ step-index from to (i + 0) i k s
    ∙ ground arith
sweep-index from to i (suc d) (k ∷ ks) s h =
    ap (λ c. (sweep from to c (i + 1) ks (sweep_step from to c i k s)).new_current_index)
      (shift i d)
    ∙ sweep-index from to (i + 1) d ks (sweep_step from to (i + 1 + d) i k s) (omega arith)
    ∙ omega (
      arith,
      ap length (step-kept from to (i + 1 + d) i k s),
      length-append s.kept (kept_here from to k),
      length-append (kept_here from to k) (keep from to (take d ks)),
    )
  where
    shift : (i d : ℕ) → i + suc d ≡ i + 1 + d
    shift i d = omega arith

pub sum_fits :
    (from to k : ℕ) → from ≤ to → to ≤ k → k < u32 → add32 from (k - to) ≡ from + (k - to)
sum_fits from to k h l b = omega arith

count-kept_here :
    (from to a k : ℕ)
    → from ≤ to
    → k < u32
    → count a (kept_here from to k)
      ≡ (if ltb a from then bit (a == k) else bit (a + (to - from) == k))
unfolding kept_here
count-kept_here from to a k h b = elim (Bool-cases (leb to k)) [
  | inl behind ↦ rw (behind, sum_fits from to k h (ground arith) b) (ground arith)
  | inr before ↦ rw before (ground arith)
]

pub count-keep :
    (from to a : ℕ) (ks : List ℕ)
    → from ≤ to
    → All (λ k. k < u32) ks
    → count a (keep from to ks) ≡ (if ltb a from then count a ks else count (a + (to - from)) ks)
unfolding keep
count-keep from to a [] h b = ground arith
count-keep from to a (k ∷ ks) h b =
    count-append a (kept_here from to k) (keep from to ks)
    ∙ ground (arith, count-kept_here from to a k h b.0, count-keep from to a ks h b.1)

kept_outside :
    (from to k : ℕ) → (k < from) ⊎ (to ≤ k) → kept_here from to k ≡ closed_up from to k ∷ []
unfolding kept_here
kept_outside from to k h = ground arith

-- A kept element stands behind those kept before it.
pub get_elem?-keep :
    (from to c : ℕ) (ks : List ℕ) {k : ℕ}
    → get_elem? ks c ≡ some k
    → (k < from) ⊎ (to ≤ k)
    → get_elem? (keep from to ks) (length (keep from to (take c ks))) ≡ some (closed_up from to k)
unfolding keep
get_elem?-keep from to c [] e h = cc
get_elem?-keep from to zero (k₀ ∷ ks) {k} e h =
    rw (some-injective _ _ e) (rw (kept_outside from to k h) refl)
get_elem?-keep from to (suc c) (k₀ ∷ ks) {k} e h =
    ap (get_elem? (kept_here from to k₀ ++ keep from to ks))
      (length-append (kept_here from to k₀) (keep from to (take c ks)))
    ∙ get_elem?-append_right (kept_here from to k₀) (keep from to ks)
        (length (keep from to (take c ks)))
    ∙ get_elem?-keep from to c ks e h

pub length-keep-take :
    (from to c : ℕ) (ks : List ℕ) → length (keep from to (take c ks)) ≤ length (keep from to ks)
unfolding keep
length-keep-take from to zero ks = omega arith
length-keep-take from to (suc c) [] = omega arith
length-keep-take from to (suc c) (k ∷ ks) = omega (
  arith,
  length-append (kept_here from to k) (keep from to (take c ks)),
  length-append (kept_here from to k) (keep from to ks),
  length-keep-take from to c ks,
)

-- An index past the end of the queue is never met.
pub sweep-index_end :
    (from to c i : ℕ) (ks : List ℕ) (s : Sweep)
    → i + length ks ≤ c
    → (sweep from to c i ks s).new_current_index ≡ s.new_current_index
unfolding sweep
sweep-index_end from to c i [] s h = refl
sweep-index_end from to c i (k ∷ ks) s h =
    sweep-index_end from to c (i + 1) ks (sweep_step from to c i k s) (omega arith)
    ∙ step-index from to c i k s
    ∙ ground arith
