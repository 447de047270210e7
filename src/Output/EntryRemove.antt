-- ===== src/Output/EntryRemove.antt =====
-- liboutput/queue.cpp: what `EntryRemove` does to a valid queue.
use Prim.Native.Nat.{◌-◌}
use native.Mathlib.Nat.{zero-add}
use chorale.Base.{
  All, All-append, ℕ, ◌+◌, ◌<◌, ◌≤◌, ◌≡◌, refl, sym, ◌∙◌, ap, Bool, true, false, some, List, [],
  ◌∷◌, ◌⊎◌, ◌++◌, arith, length, get_elem?, get_elem?-lt, lt_of_get_elem?, SameItems, range_from,
  ◌&&◌, count-range_from, length-range_from, add32, ltb, leb, ◌==◌, if◌then◌else◌, Bool-cases, inl,
  inr, take, drop, SameItems-length, append_assoc, take-append, replicate,
}
use chorale.Output.State.{Queue, World, entry_at, announce}
use chorale.Output.Edit.{entry_remove, Sweep, sweep, resize, erase_range}
use chorale.Output.Marking.{rest, length-rest, get_elem?-rest}
use chorale.Output.Sweeping.{
  closed_up, keep, sweep-kept, sweep-index, sweep-index_end, count-keep, get_elem?-keep,
  length-keep-take, sum_fits,
}
use chorale.Output.Valid.{
  IsValid, HasDb, All-take, All-drop, queue-lt, queue-All, announce-IsValid, SameLists-current,
}

All-mono : {m n : ℕ} (ks : List ℕ) → m ≤ n → All (λ k. k < m) ks → All (λ k. k < n) ks
All-mono [] h b = tt
All-mono (k ∷ ks) h b = (omega arith, All-mono ks h b.1)

-- `new_current_index` after the loop.
abbrev swept_index : Queue → ℕ → ℕ → ℕ
swept_index q from to =
    if ltb q.current_index (length q.queue)
    then length (keep from to (take q.current_index q.queue))
    else 0

unfoldable pub entry_removed : Queue → ℕ → ℕ → Queue
entry_removed q from to = record q {
  entries = rest from to q.entries;
  queue = keep from to q.queue;
  current_index =
      if swept_index q from to == length (keep from to q.queue) then 0 else swept_index q from to;
}

module _ {q : Queue} (from to : ℕ) (v : IsValid q) (h : from ≤ to) (k : to ≤ length q.entries) where
  new_order : SameItems (keep from to q.queue) (range_from 0 (length (rest from to q.entries)))
  new_order a = ground (
    arith,
    count-keep from to a q.queue h (All-mono q.queue (omega (arith, v.fits)) (queue-All v)),
    v.order a,
    v.order (a + (to - from)),
    length-rest from to q.entries h k,
    count-range_from a 0 (length q.entries),
    count-range_from (a + (to - from)) 0 (length q.entries),
    count-range_from a 0 (length (rest from to q.entries)),
  )

  length-keep : length (keep from to q.queue) ≡ length (rest from to q.entries)
  length-keep =
      SameItems-length _ _ new_order ∙ length-range_from 0 (length (rest from to q.entries))

  entry_removed-IsValid : IsValid (entry_removed q from to)
  unfolding entry_removed
  entry_removed-IsValid = record {
    order = new_order;
    current = ground (arith, length-keep, length-keep-take from to q.current_index q.queue);
    dbs =
        All-append HasDb (take from q.entries) _ (All-take HasDb from q.entries v.dbs)
          (All-drop HasDb to q.entries v.dbs);
    fits = omega (arith, length-rest from to q.entries h k, v.fits);
  }

  -- An entry outside the range has the same contents at its new index.
  get_elem?-closed_up :
      (n : ℕ)
      → n < length q.entries
      → (n < from) ⊎ (to ≤ n)
      → get_elem? (rest from to q.entries) (closed_up from to n) ≡ get_elem? q.entries n
  get_elem?-closed_up n lt (inl before) =
      get_elem?-rest from to (closed_up from to n) q.entries h k ∙ ap (get_elem? q.entries) index
    where
      same : closed_up from to n ≡ n
      same = ground arith

      index :
          (if ltb (closed_up from to n) from
            then closed_up from to n
            else closed_up from to n + (to - from))
          ≡ n
      index = rw same (ground arith)
  get_elem?-closed_up n lt (inr behind) =
      get_elem?-rest from to (closed_up from to n) q.entries h k ∙ ap (get_elem? q.entries) index
    where
      test : leb to n ≡ true
      test = ground arith

      same : closed_up from to n ≡ from + (n - to)
      same = rw test (sum_fits from to n h behind (omega (arith, v.fits)))

      index :
          (if ltb (closed_up from to n) from
            then closed_up from to n
            else closed_up from to n + (to - from))
          ≡ n
      index = rw same (ground arith)

  entry_removed-current :
      (n : ℕ)
      → get_elem? q.queue q.current_index ≡ some n
      → (n < from) ⊎ (to ≤ n)
      → let q' = entry_removed q from to in
        entry_at q' q'.current_index ≡ entry_at q q.current_index
  unfolding entry_removed entry_at
  entry_removed-current n e outside =
      let there = get_elem?-keep from to q.current_index q.queue e outside in
      let lt = lt_of_get_elem? q.queue q.current_index e in
      let inside = lt_of_get_elem? (keep from to q.queue) _ there in
      rw (place lt inside, there, e) (get_elem?-closed_up n (queue-lt v q.current_index e) outside)
    where
      place :
          q.current_index < length q.queue
          → length (keep from to (take q.current_index q.queue)) < length (keep from to q.queue)
          → (if swept_index q from to == length (keep from to q.queue)
              then 0
              else swept_index q from to)
            ≡ length (keep from to (take q.current_index q.queue))
      place lt inside = ground arith

abbrev start : Sweep
start = record { kept = []; new_current_index = 0; gone = false }

next_entry-some :
    (q : Queue)
    → (n : ℕ) × ((if ltb (add32 q.current_index 1) (length q.queue)
          then get_elem? q.queue (add32 q.current_index 1)
          else some 0)
        ≡ some n)
next_entry-some q = elim (Bool-cases (ltb (add32 q.current_index 1) (length q.queue))) [
  | inl more ↦
      let (n, e) = get_elem?-lt q.queue (add32 q.current_index 1) (ground arith) in (n, rw more e)
  | inr last ↦ (0, rw last refl)
]

swept :
    (q : Queue) (from to : ℕ)
    → (sweep from to q.current_index 0 q.queue start).new_current_index ≡ swept_index q from to
swept q from to = elim (Bool-cases (ltb q.current_index (length q.queue))) [
  | inl here ↦ rw here (
      ap (λ c. (sweep from to c 0 q.queue start).new_current_index) (sym (zero-add q.current_index))
      ∙ sweep-index from to 0 q.current_index q.queue start (ground arith)
      ∙ zero-add (length (keep from to (take q.current_index q.queue))))
  | inr past ↦ rw past (sweep-index_end from to q.current_index 0 q.queue start (ground arith))
]

resize_kept : (n : ℕ) (xs ys zs : List ℕ) → xs ≡ ys → length ys ≡ n → resize n 0 (xs ++ zs) ≡ ys
unfolding resize
resize_kept n xs ys zs e h =
    rw (e, ← h, append_assoc ys zs (replicate (length ys) 0))
      (take-append ys (zs ++ replicate (length ys) 0))

-- The queue with a new order and the index that the loop left.
abbrev assemble : Queue → ℕ → ℕ → List ℕ → ℕ → Queue
assemble q from to order index = record q {
  entries = rest from to q.entries;
  queue = order;
  current_index = if index == length order then 0 else index;
}

assembled :
    (q : Queue) (from to : ℕ)
    → IsValid q
    → from ≤ to
    → to ≤ length q.entries
    → let s = sweep from to q.current_index 0 q.queue start in
      assemble q from to
        (resize (length (rest from to q.entries)) 0 (s.kept ++ drop (length s.kept) q.queue))
        s.new_current_index
      ≡ entry_removed q from to
unfolding entry_removed
assembled q from to v h k =
    let s = sweep from to q.current_index 0 q.queue start in
    ap (λ order. assemble q from to order s.new_current_index)
      (resize_kept (length (rest from to q.entries)) s.kept (keep from to q.queue)
        (drop (length s.kept) q.queue) (sweep-kept from to q.current_index 0 q.queue start)
        (length-keep from to v h k))
    ∙ ap (assemble q from to (keep from to q.queue)) (swept q from to)

entry_remove-announce :
    (w : World) (q : Queue) (from to : ℕ)
    → IsValid q
    → from ≤ to
    → to ≤ length q.entries
    → (a b : Bool) × (entry_remove w q from to ≡ announce w a b (entry_removed q from to))
unfolding entry_remove erase_range
entry_remove-announce w q from to v h k =
    let (n, e) = next_entry-some q in
    let set_next = leb from n && ltb n to in
    let gone = (sweep from to q.current_index 0 q.queue start).gone in
    (gone, set_next, rw (e, in_range) (ap (announce w gone set_next) (assembled q from to v h k)))
  where
    in_range : (leb from to && leb to (length q.entries)) ≡ true
    in_range = ground arith

-- `EntryRemove` of a range of entries of a valid queue, from `from` up to and without `to`, succeeds and leaves a valid
-- queue. The other
-- entries stay, in their order, and if the current entry is one of them it stays the current one.
pub entry_remove-IsValid :
    (w : World) (q : Queue) (from to : ℕ)
    → IsValid q
    → from ≤ to
    → to ≤ length q.entries
    → (q' : Queue) × (entry_remove w q from to ≡ some q')
      × IsValid q'
      × (q'.entries ≡ take from q.entries ++ drop to q.entries)
      × ((n : ℕ)
          → get_elem? q.queue q.current_index ≡ some n
          → (n < from) ⊎ (to ≤ n)
          → entry_at q' q'.current_index ≡ entry_at q q.current_index)
entry_remove-IsValid w q from to v h k =
    let (a, b, out) = entry_remove-announce w q from to v h k in
    let (q', done, v', s) = announce-IsValid w a b (entry_removed-IsValid from to v h k) in
    (
      q',
      out ∙ done,
      v',
      s.same_entries ∙ unfold entry_removed in refl,
      λ n e outside. SameLists-current s ∙ entry_removed-current from to v h k n e outside,
    )
