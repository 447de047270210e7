-- ===== src/Output/Insert.antt =====
-- liboutput/queue.cpp: what `Add`, `QueueInsert` and `EntryInsert` do to a valid queue.
use Prim.Native.Nat.{◌-◌}
use chorale.Base.{
  All-append, ℕ, suc, ◌<◌, ◌≤◌, ◌≡◌, refl, ◌∙◌, false, some, List, [], ◌∷◌, ◌++◌, arith, length,
  get_elem?, get_elem?-lt, not, ◌&&◌, count-range_from, u32, sub64, add32, ltb, leb, ◌==◌,
  if◌then◌else◌, Bool-cases, count-append, count-insert, length-append, inl, inr, take, drop,
  get_elem?-insert_lt, get_elem?-insert_le, get_elem?-insert_self, get_elem?-last,
  get_elem?-append_left,
}
use chorale.Output.State.{Queue, World, entry_at, announce}
use chorale.Output.Edit.{add, queue_insert, insert_at, new_entry}
use chorale.Output.Valid.{
  IsValid, HasDb, length-queue, queue-lt, announce-IsValid, set_next_url-IsValid, SameLists-IsValid,
  SameLists-entry_at, SameLists-current,
}

unfoldable pub added : Queue → ℕ → ℕ → Queue
added q d id = record q {
  entries = q.entries ++ new_entry (some d) id ∷ [];
  queue = q.queue ++ length q.entries ∷ [];
}

added-IsValid :
    {q : Queue} (d id : ℕ) → IsValid q → suc (length q.entries) < u32 → IsValid (added q d id)
unfolding added
added-IsValid {q} d id v room =
    let longer = length-append q.entries (new_entry (some d) id ∷ []) in
    record {
      order = λ a. ground (
        arith,
        longer,
        v.order a,
        count-append a q.queue (length q.entries ∷ []),
        count-range_from a 0 (length q.entries),
        count-range_from a 0 (length (q.entries ++ new_entry (some d) id ∷ [])),
      );
      current = omega (arith, longer, v.current);
      dbs = All-append HasDb q.entries _ v.dbs ((λ e. cc), tt);
      fits = omega (arith, longer);
    }

-- `Add` on a valid queue that still fits `unsigned int` succeeds, leaves a valid queue, puts the new
-- entry at the end of both lists, and moves neither the current index nor the shuffle mode.
pub add-IsValid :
    (w : World) {q : Queue} (d id : ℕ)
    → IsValid q
    → suc (length q.entries) < u32
    → (q' : Queue) × (add w q (some d) id ≡ some q')
      × IsValid q'
      × (q'.entries ≡ q.entries ++ new_entry (some d) id ∷ [])
      × (q'.queue ≡ q.queue ++ length q.entries ∷ [])
      × (q'.current_index ≡ q.current_index)
      × (q'.shuffled ≡ q.shuffled)
unfolding add added
add-IsValid w {q} d id v room =
    let v' = added-IsValid d id v room in
    let (q', e, s) = set_next_url-IsValid w v' in
    elim (Bool-cases (q.current_index == sub64 (length (added q d id).entries) 2)) [
      | inl last ↦ (
        q',
        rw last e,
        SameLists-IsValid s v',
        s.same_entries,
        s.same_queue,
        s.same_current,
        s.same_shuffled,
      )
      | inr other ↦ (added q d id, rw other refl, v', refl, refl, refl, refl)
    ]

-- An index moved behind an insertion shows what it showed.
pub get_elem?-bump :
    (pos x : ℕ) (xs : List ℕ) (c : ℕ)
    → c < length xs
    → suc c < u32
    → pos ≤ length xs
    → get_elem? (take pos xs ++ x ∷ drop pos xs) (if leb pos c then add32 c 1 else c)
      ≡ get_elem? xs c
get_elem?-bump pos x xs c h small k = elim (Bool-cases (leb pos c)) [
  | inl after ↦ rw (after, add32-one c small) (get_elem?-insert_le pos x xs c k (ground arith))
  | inr before ↦ rw before (get_elem?-insert_lt pos x xs c (ground arith) h)
]
  where
    add32-one : (c : ℕ) → suc c < u32 → add32 c 1 ≡ suc c
    add32-one c h = omega arith

unfoldable pub queue_inserted : Queue → ℕ → ℕ → ℕ → Queue
queue_inserted q d id pos = record q {
  entries = q.entries ++ new_entry (some d) id ∷ [];
  queue = take pos q.queue ++ length q.entries ∷ drop pos q.queue;
  current_index = if leb pos q.current_index then add32 q.current_index 1 else q.current_index;
}

queue_inserted-IsValid :
    {q : Queue} (d id pos : ℕ)
    → IsValid q
    → 0 < length q.entries
    → pos ≤ length q.entries
    → suc (length q.entries) < u32
    → IsValid (queue_inserted q d id pos)
unfolding queue_inserted
queue_inserted-IsValid {q} d id pos v some_entry k room =
    let longer = length-append q.entries (new_entry (some d) id ∷ []) in
    record {
      order = λ a. ground (
        arith,
        longer,
        v.order a,
        count-insert a pos (length q.entries) q.queue,
        count-range_from a 0 (length q.entries),
        count-range_from a 0 (length (q.entries ++ new_entry (some d) id ∷ [])),
      );
      current = ground (arith, longer, v.current);
      dbs = All-append HasDb q.entries _ v.dbs ((λ e. cc), tt);
      fits = omega (arith, longer);
    }

entry_at-queue_inserted :
    (q : Queue) (d id pos i j : ℕ)
    → IsValid q
    → i < length q.entries
    → get_elem? (take pos q.queue ++ length q.entries ∷ drop pos q.queue) j ≡ get_elem? q.queue i
    → entry_at (queue_inserted q d id pos) j ≡ entry_at q i
unfolding queue_inserted entry_at
entry_at-queue_inserted q d id pos i j v h same =
    let (k, pk) = get_elem?-lt q.queue i (rw (length-queue v) h) in
    rw (same, pk) (get_elem?-append_left q.entries _ k (queue-lt v i pk))

entry_at-new :
    (q : Queue) (d id pos : ℕ)
    → pos ≤ length q.queue
    → entry_at (queue_inserted q d id pos) pos ≡ some (new_entry (some d) id)
unfolding queue_inserted entry_at
entry_at-new q d id pos k =
    rw (get_elem?-insert_self pos (length q.entries) q.queue k) (get_elem?-last q.entries _)

queue_insert-announce :
    (w : World) (q : Queue) (d id pos : ℕ)
    → pos ≤ length q.queue
    → let q' = queue_inserted q d id pos in
      queue_insert w q (some d) id pos
      ≡ announce w (length q'.entries == 1) (ltb 0 pos && (q.current_index == pos - 1)) q'
unfolding queue_insert queue_inserted insert_at
queue_insert-announce w q d id pos k = rw (within, bump) refl
  where
    within : ltb (length q.queue) pos ≡ false
    within = ground arith

    bump :
        (not (ltb 0 pos && (q.current_index == pos - 1)) && leb pos q.current_index)
        ≡ leb pos q.current_index
    bump = ground arith

-- `QueueInsert` into a valid queue that is not empty succeeds at every place up to the end. It leaves a
-- valid queue: the new entry is last among the entries, shuffled or not, and stands at the given place of the queue, and
-- the current entry is still the current one.
pub queue_insert-IsValid :
    (w : World) {q : Queue} (d id pos : ℕ)
    → IsValid q
    → 0 < length q.entries
    → pos ≤ length q.entries
    → suc (length q.entries) < u32
    → (q' : Queue) × (queue_insert w q (some d) id pos ≡ some q')
      × IsValid q'
      × (q'.entries ≡ q.entries ++ new_entry (some d) id ∷ [])
      × (entry_at q' pos ≡ some (new_entry (some d) id))
      × (entry_at q' q'.current_index ≡ entry_at q q.current_index)
queue_insert-IsValid w {q} d id pos v some_entry k room =
    let v' = queue_inserted-IsValid d id pos v some_entry k room in
    let k' : pos ≤ length q.queue = rw (length-queue v) k in
    let (q', e, u, s) = announce-IsValid w _ _ v' in
    (
      q',
      queue_insert-announce w q d id pos k' ∙ e,
      u,
      s.same_entries ∙ unfold queue_inserted in refl,
      SameLists-entry_at s pos ∙ entry_at-new q d id pos k',
      SameLists-current s
          ∙ unfold queue_inserted in
            entry_at-queue_inserted q d id pos q.current_index _ v (omega (arith, v.current)) (
              get_elem?-bump pos (length q.entries) q.queue q.current_index
                (omega (arith, v.current, length-queue v)) (omega (arith, v.current)) k'),
    )
