-- ===== src/Output/Shuffle.antt =====
-- liboutput/queue.cpp: what `SetShuffle` does to a valid queue.
use Prim.Native.Nat.{◌-◌}
use native.Mathlib.Nat.{zero-add}
use chorale.Base.{
  ℕ, zero, suc, ◌+◌, ◌<◌, ◌≡◌, refl, sym, ◌∙◌, ap, Bool, true, false, Option, none, some, List, [],
  ◌∷◌, ◌++◌, arith, length, get_elem?, get_elem?-lt, count, SameItems, range_from, not,
  count-range_from, get_elem?-count, length-range_from, ltb, leb, ◌==◌, bit, if◌then◌else◌,
  Option-cases, Bool-cases, count-append, inl, inr, length-append, get_elem?-append_left,
  get_elem?-append_right, SameItems-length,
}
use chorale.Output.State.{Queue, Entry, World, Permutes, played, entry_at, set_next_url}
use chorale.Output.Transport.{set_shuffle, side}
use chorale.Output.Valid.{
  IsValid, length-queue, queue-lt, set_next_url-IsValid, SameLists-IsValid, SameLists-entry_at,
  SameLists-current,
}

-- Whether an entry is on the side that is wanted; no entry is on none.
abbrev on_side : Bool → Option Entry → Bool
on_side wanted none = false
on_side wanted (some e) = if wanted then played e else not (played e)

get_elem?-cons :
    (e : Entry) (es : List Entry) (k : ℕ)
    → get_elem? (e ∷ es) k ≡ (if k == 0 then some e else get_elem? es (k - 1))
get_elem?-cons e es zero = refl
get_elem?-cons e es (suc k) = ground (arith, ap (get_elem? es) (pred-suc k))
  where
    pred-suc : (k : ℕ) → suc k - 1 ≡ k
    pred-suc k = omega arith

count-side :
    (wanted : Bool) (current i : ℕ) (es : List Entry) (a : ℕ)
    → count a (side wanted current i es) ≡ (
        if ltb a i
        then 0
        else if a == current
        then 0
        else bit (on_side wanted (get_elem? es (a - i))))
unfolding side
count-side wanted current i [] a = ground arith
count-side wanted current i (e ∷ es) a = elim (Bool-cases (a == i)) [
  | inl here ↦ ground (arith, get_elem?-cons e es (a - i), count-side wanted current (i + 1) es a)
  | inr there ↦ ground (
    arith,
    get_elem?-cons e es (a - i),
    count-side wanted current (i + 1) es a,
    ap (get_elem? es) (sub-suc a i),
  )
]
  where
    sub-suc : (a i : ℕ) → a - i - 1 ≡ a - (i + 1)
    sub-suc a i = omega arith

side_of_valid :
    (es : List Entry) (a : ℕ)
    → bit (on_side true (get_elem? es a)) + bit (on_side false (get_elem? es a))
      ≡ bit (ltb a (length es))
side_of_valid [] a = ground arith
side_of_valid (e ∷ es) zero = ground arith
side_of_valid (e ∷ es) (suc a) = ground (arith, side_of_valid es a)

-- The queue after the branch that shuffles, with `k` the current entry's index.
unfoldable pub shuffled : World → Queue → ℕ → Queue
shuffled w q k =
    let behind = w.shuffle q.random (side true k 0 q.entries) in
    let ahead = w.shuffle behind.1 (side false k 0 q.entries) in
    record q {
      shuffled = true;
      queue = behind.0 ++ k ∷ ahead.0;
      current_index = length behind.0;
      random = ahead.1;
    }

unfoldable pub unshuffled : Queue → ℕ → Queue
unshuffled q k = record q {
  shuffled = false;
  queue = range_from 0 (length q.entries);
  current_index = k;
}

module _ (w : World) (p : Permutes w) {q : Queue} (v : IsValid q) (k : ℕ)
    (lt : k < length q.entries) where
  behind : List ℕ
  behind = (w.shuffle q.random (side true k 0 q.entries)).0

  random' : ℕ
  random' = (w.shuffle q.random (side true k 0 q.entries)).1

  ahead : List ℕ
  ahead = (w.shuffle random' (side false k 0 q.entries)).0

  count-behind :
      (a : ℕ) → count a behind ≡ (if a == k then 0 else bit (on_side true (get_elem? q.entries a)))
  unfolding behind
  count-behind a =
      p q.random a (side true k 0 q.entries)
      ∙ count-side true k 0 q.entries a
      ∙ ground (arith, ap (get_elem? q.entries) (sub_zero a))
    where
      sub_zero : (a : ℕ) → a - 0 ≡ a
      sub_zero a = omega arith

  count-ahead :
      (a : ℕ) → count a ahead ≡ (if a == k then 0 else bit (on_side false (get_elem? q.entries a)))
  unfolding ahead
  count-ahead a =
      p random' a (side false k 0 q.entries)
      ∙ count-side false k 0 q.entries a
      ∙ ground (arith, ap (get_elem? q.entries) (sub_zero a))
    where
      sub_zero : (a : ℕ) → a - 0 ≡ a
      sub_zero a = omega arith

  shuffled-order : SameItems (behind ++ k ∷ ahead) (range_from 0 (length q.entries))
  shuffled-order a = ground (
    arith,
    count-append a behind (k ∷ ahead),
    count-behind a,
    count-ahead a,
    side_of_valid q.entries a,
    count-range_from a 0 (length q.entries),
  )

  length-shuffled : length behind < length q.entries
  length-shuffled = omega (
    arith,
    SameItems-length _ _ shuffled-order,
    length-range_from 0 (length q.entries),
    length-append behind (k ∷ ahead),
  )

  shuffled-IsValid : IsValid (shuffled w q k)
  unfolding shuffled behind ahead random'
  shuffled-IsValid = record {
    order = shuffled-order;
    current = omega (arith, length-shuffled);
    dbs = v.dbs;
    fits = v.fits;
  }

  unshuffled-IsValid : IsValid (unshuffled q k)
  unfolding unshuffled
  unshuffled-IsValid = record {
    order = λ a. refl;
    current = omega arith;
    dbs = v.dbs;
    fits = v.fits;
  }

  shuffled-current :
      entry_at (shuffled w q k) (shuffled w q k).current_index ≡ get_elem? q.entries k
  unfolding shuffled entry_at
  shuffled-current = rw (get_middle _ _ k) refl
    where
      get_middle : (xs ys : List ℕ) (k : ℕ) → get_elem? (xs ++ k ∷ ys) (length xs) ≡ some k
      get_middle xs ys k =
          ap (get_elem? (xs ++ k ∷ ys)) (plus_zero (length xs))
          ∙ get_elem?-append_right xs (k ∷ ys) 0
        where
          plus_zero : (n : ℕ) → n ≡ n + 0
          plus_zero n = omega arith

  -- Behind the current index all has been played.
  shuffled-behind :
      (j : ℕ) (e : Entry)
      → j < (shuffled w q k).current_index
      → entry_at (shuffled w q k) j ≡ some e
      → played e ≡ true
  unfolding shuffled entry_at behind ahead random'
  shuffled-behind j e l found =
      let (a, pa) = get_elem?-lt behind j l in
      let at : get_elem? (behind ++ k ∷ ahead) j ≡ some a =
        get_elem?-append_left behind (k ∷ ahead) j l ∙ pa in
      let entry : get_elem? q.entries a ≡ some e = rw at at found in
      ground (arith, get_elem?-count behind j pa, count-behind a, entry)

  -- Ahead of it nothing has been played.
  shuffled-ahead :
      (j : ℕ) (e : Entry)
      → (shuffled w q k).current_index < j
      → entry_at (shuffled w q k) j ≡ some e
      → played e ≡ false
  unfolding shuffled entry_at behind ahead random'
  shuffled-ahead j e l found = elim (Option-cases (get_elem? ahead m)) [
    | inl past ↦ absurd (cc (rw (at, past) at found))
    | inr (a, pa) ↦
        let entry : get_elem? q.entries a ≡ some e = rw (at, pa) at found in
        ground (arith, get_elem?-count ahead m pa, count-ahead a, entry)
  ]
    where
      m : ℕ
      m = j - length behind - 1

      index : j ≡ length behind + suc m
      index = omega arith

      at : get_elem? (behind ++ k ∷ ahead) j ≡ get_elem? ahead m
      at =
          ap (get_elem? (behind ++ k ∷ ahead)) index
          ∙ get_elem?-append_right behind (k ∷ ahead) (suc m)

get_elem?-range_from : (k i n : ℕ) → k < n → get_elem? (range_from i n) k ≡ some (i + k)
get_elem?-range_from k i zero h = elim h [ ]
get_elem?-range_from zero i (suc n) h = ap (λ (m : ℕ). some m) (omega arith)
get_elem?-range_from (suc k) i (suc n) h =
    get_elem?-range_from k (i + 1) n (omega arith) ∙ ap some (shift i k)
  where
    shift : (i k : ℕ) → i + 1 + k ≡ i + suc k
    shift i k = omega arith

unshuffled-current :
    (q : Queue) (k : ℕ)
    → k < length q.entries
    → entry_at (unshuffled q k) (unshuffled q k).current_index ≡ get_elem? q.entries k
unfolding unshuffled entry_at
unshuffled-current q k h =
    rw (get_elem?-range_from k 0 (length q.entries) h) (ap (get_elem? q.entries) (zero-add k))

-- The branches of `SetShuffle`, given the entry that is current.
set_shuffle_on :
    (w : World) (q : Queue) (k : ℕ)
    → q.shuffled ≡ false
    → 1 < length q.entries
    → get_elem? q.queue q.current_index ≡ some k
    → set_shuffle w true q ≡ set_next_url w (shuffled w q k)
unfolding set_shuffle shuffled
set_shuffle_on w q k off many e = rw (off, several, e) refl
  where
    several : leb (length q.entries) 1 ≡ false
    several = ground arith

set_shuffle_off :
    (w : World) (q : Queue) (k : ℕ)
    → q.shuffled ≡ true
    → 1 < length q.entries
    → get_elem? q.queue q.current_index ≡ some k
    → set_shuffle w false q ≡ set_next_url w (unshuffled q k)
unfolding set_shuffle unshuffled
set_shuffle_off w q k on many e = rw (on, several, e) refl
  where
    several : leb (length q.entries) 1 ≡ false
    several = ground arith

current-entry :
    {q : Queue}
    → IsValid q
    → 0 < length q.entries
    → (k : ℕ) × (get_elem? q.queue q.current_index ≡ some k) × (k < length q.entries)
current-entry {q} v h =
    let (k, e) = get_elem?-lt q.queue q.current_index (omega (arith, v.current, length-queue v)) in
    (k, e, queue-lt v q.current_index e)

-- Turning the shuffle on in a valid queue of two entries or more gives a valid queue that plays the same
-- entry, with the same entries; those that were played stand before the current one in the new
-- order, and those that were not stand behind it.
pub set_shuffle_on-IsValid :
    (w : World) (q : Queue)
    → Permutes w
    → IsValid q
    → q.shuffled ≡ false
    → 1 < length q.entries
    → (q' : Queue) × (set_shuffle w true q ≡ some q')
      × IsValid q'
      × (q'.shuffled ≡ true)
      × (q'.entries ≡ q.entries)
      × (entry_at q' q'.current_index ≡ entry_at q q.current_index)
      × ((j : ℕ) (e : Entry) → j < q'.current_index → entry_at q' j ≡ some e → played e ≡ true)
      × ((j : ℕ) (e : Entry) → q'.current_index < j → entry_at q' j ≡ some e → played e ≡ false)
unfolding entry_at
set_shuffle_on-IsValid w q p v off many =
    let (k, e, lt) = current-entry v (omega arith) in
    let (q', done, s) = set_next_url-IsValid w (shuffled-IsValid w p v k lt) in
    let before = λ (j : ℕ) (x : Entry) (l : j < (shuffled w q k).current_index).
      shuffled-behind w p v k lt j x l in
    let behind = λ (j : ℕ) (x : Entry) (l : (shuffled w q k).current_index < j).
      shuffled-ahead w p v k lt j x l in
    (
      q',
      set_shuffle_on w q k off many e ∙ done,
      SameLists-IsValid s (shuffled-IsValid w p v k lt),
      s.same_shuffled ∙ unfold shuffled in refl,
      s.same_entries ∙ unfold shuffled in refl,
      SameLists-current s ∙ shuffled-current w p v k lt ∙ rw e refl,
      (λ j x l f. before j x (rw (← s.same_current) l) (sym (SameLists-entry_at s j) ∙ f)),
      (λ j x l f. behind j x (rw (← s.same_current) l) (sym (SameLists-entry_at s j) ∙ f)),
    )

-- Turning it off in a shuffled valid queue of two entries or more restores the order of the entries,
-- and plays the same entry.
pub set_shuffle_off-IsValid :
    (w : World) (q : Queue)
    → Permutes w
    → IsValid q
    → q.shuffled ≡ true
    → 1 < length q.entries
    → (q' : Queue) × (set_shuffle w false q ≡ some q')
      × IsValid q'
      × (q'.shuffled ≡ false)
      × (q'.entries ≡ q.entries)
      × (q'.queue ≡ range_from 0 (length q.entries))
      × (entry_at q' q'.current_index ≡ entry_at q q.current_index)
unfolding entry_at
set_shuffle_off-IsValid w q p v on many =
    let (k, e, lt) = current-entry v (omega arith) in
    let (q', done, s) = set_next_url-IsValid w (unshuffled-IsValid w p v k lt) in
    (
      q',
      set_shuffle_off w q k on many e ∙ done,
      SameLists-IsValid s (unshuffled-IsValid w p v k lt),
      s.same_shuffled ∙ unfold unshuffled in refl,
      s.same_entries ∙ unfold unshuffled in refl,
      s.same_queue ∙ unfold unshuffled in refl,
      SameLists-current s ∙ unshuffled-current q k lt ∙ rw e refl,
    )

with_mode : (q : Queue) (b : Bool) → IsValid q → IsValid (record q { shuffled = b })
with_mode q b v = record { order = v.order; current = v.current; dbs = v.dbs; fits = v.fits }

-- On every branch, `SetShuffle` on a valid queue succeeds and leaves a valid queue with the same entries.
pub set_shuffle-IsValid :
    (w : World) (whether : Bool) (q : Queue)
    → Permutes w
    → IsValid q
    → (q' : Queue) × (set_shuffle w whether q ≡ some q') × IsValid q' × (q'.entries ≡ q.entries)
set_shuffle-IsValid w true q p v = elim (Bool-cases q.shuffled) [
  | inl on ↦ (q, unfold set_shuffle in rw on refl, v, refl)
  | inr off ↦ elim (Bool-cases (leb (length q.entries) 1)) [
    | inl few ↦ (
      record q { shuffled = true },
      unfold set_shuffle in rw (off, few) refl,
      with_mode q true v,
      refl,
    )
    | inr many ↦ let x = set_shuffle_on-IsValid w q p v off (ground arith) in (x.0, x.1, x.2, x.4)
  ]
]
set_shuffle-IsValid w false q p v = elim (Bool-cases q.shuffled) [
  | inr off ↦ (q, unfold set_shuffle in rw off refl, v, refl)
  | inl on ↦ elim (Bool-cases (leb (length q.entries) 1)) [
    | inl few ↦ (
      record q { shuffled = false },
      unfold set_shuffle in rw (on, few) refl,
      with_mode q false v,
      refl,
    )
    | inr many ↦ let x = set_shuffle_off-IsValid w q p v on (ground arith) in (x.0, x.1, x.2, x.4)
  ]
]
