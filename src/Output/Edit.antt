-- ===== src/Output/Edit.antt =====
-- liboutput/queue.cpp: `Add`, `QueueInsert`, `EntryInsert`, `QueueRemove` and `EntryRemove`.
use chorale.Base.{
  add64, ℕ, zero, suc, ◌+◌, ◌-◌, ◌%◌, Bool, false, not, ◌&&◌, ◌||◌, Option, none, some, List, [],
  ◌∷◌, ◌++◌, map, length, get_elem?, set, take, drop, replicate, ltb, leb, ◌==◌, add32, sub64,
  if◌then◌else◌, ◌>>=◌,
}
use chorale.Output.State.{play, Entry, Queue, World, set_next_url, announce}

module _ {ℓ} {A : Type ℓ} where
  -- `v.insert(v.begin() + pos, x)`
  unfoldable pub insert_at : ℕ → A → List A → Option (List A)
  insert_at pos x xs = if ltb (length xs) pos then none else some (take pos xs ++ x ∷ drop pos xs)

  -- `v.erase(v.begin() + from, v.begin() + to)`
  unfoldable pub erase_range : ℕ → ℕ → List A → Option (List A)
  erase_range from to xs =
      if leb from to && leb to (length xs) then some (take from xs ++ drop to xs) else none

  -- `v.resize(n)`; `zero_value` fills.
  unfoldable pub resize : ℕ → A → List A → List A
  resize n zero_value xs = take n (xs ++ replicate n zero_value)

-- A fresh entry.
abbrev pub new_entry : Option ℕ → ℕ → Entry
new_entry db id = record { db = db; id = id; flags = 0 }

unfoldable pub add : World → Queue → Option ℕ → ℕ → Option Queue
add w q db id =
    let q' = record q {
      entries = q.entries ++ new_entry db id ∷ [];
      queue = q.queue ++ length q.entries ∷ [];
    } in
    if q.current_index == sub64 (length q'.entries) 2 then set_next_url w q' else some q'

unfoldable pub queue_insert : World → Queue → Option ℕ → ℕ → ℕ → Option Queue
queue_insert w q db id where_at = do
  order ← insert_at where_at (length q.entries) q.queue
  let set_next = ltb 0 where_at && (q.current_index == where_at - 1)
  let bump = not set_next && leb where_at q.current_index
  let entries = q.entries ++ new_entry db id ∷ []
  announce w (length entries == 1) set_next (record q {
    entries = entries;
    queue = order;
    current_index = if bump then add32 q.current_index 1 else q.current_index;
  })

-- The body of the loop that makes room for a new entry.
unfoldable pub make_room : ℕ → ℕ → ℕ
make_room where_at k = if leb where_at k then add32 k 1 else k

-- A random place from `first_available` up to the end of the queue; `r` is the value of `rand()`. A
-- division by zero is a fault. The size and the sum are of type `size_t`.
unfoldable pub random_place : ℕ → ℕ → ℕ → Option ℕ
random_place first_available size r =
    let room = add64 (sub64 size first_available) 1 in
    if first_available == size
    then some size
    else if room == 0
    then none
    else some (add64 first_available (r % room))

-- Where `EntryInsert` puts the new entry.
unfoldable pub insert_position : Queue → ℕ → ℕ → Option ℕ
insert_position q where_at r =
    let first_available : ℕ = elim q.state [
      | play ↦ add32 q.current_index 1
      | _ ↦ q.current_index
    ] in
    if q.shuffled then random_place first_available (length q.queue) r else some where_at

unfoldable pub entry_insert : World → ℕ → Queue → Option ℕ → ℕ → ℕ → Option Queue
entry_insert w r q db id where_at = do
  entries ← insert_at where_at (new_entry db id) q.entries
  pos ← insert_position q where_at r
  order ← insert_at pos where_at (map (make_room where_at) q.queue)
  let set_next = ltb 0 pos && (q.current_index == pos - 1)
  let set = not set_next && (pos == q.current_index)
  let bump = not set_next && ltb pos q.current_index
  announce w set set_next (record q {
    entries = entries;
    queue = order;
    current_index = if bump then add32 q.current_index 1 else q.current_index;
  })

-- `for (i=from; i<to; ++i) m_entries[m_queue[i]].db = NULL;` with `n` rounds left.
unfoldable pub mark : ℕ → ℕ → List ℕ → List Entry → Option (List Entry)
mark zero i order entries = some entries
mark (suc n) i order entries = do
  k ← get_elem? order i
  e ← get_elem? entries k
  mark n (i + 1) order (set entries k (record e { db = none }))

-- The map from an old index to a new one, for the entries that stay.
unfoldable pub renumber : List Entry → ℕ → ℕ → List (ℕ × ℕ)
renumber [] i j = []
renumber (e ∷ es) i j = elim e.db [
  | none ↦ renumber es (i + 1) j
  | some _ ↦ (i, j) ∷ renumber es (i + 1) (j + 1)
]

-- `themap[k]`: a missing key is 0.
unfoldable pub renumbered : List (ℕ × ℕ) → ℕ → ℕ
renumbered [] k = 0
renumbered ((i, j) ∷ m) k = if i == k then j else renumbered m k

-- `remove_if` with `NullDatabase`, and the `erase` of what it leaves behind.
unfoldable pub remove_null : List Entry → List Entry
remove_null [] = []
remove_null (e ∷ es) = elim e.db [ none ↦ remove_null es | some _ ↦ e ∷ remove_null es ]

unfoldable pub queue_remove : World → Queue → ℕ → ℕ → Option Queue
queue_remove w q from to = do
  marked ← mark (to - from) from q.queue q.entries
  let entries = remove_null marked
  rest ← erase_range from to q.queue
  let order = map (renumbered (renumber marked 0 0)) rest
  let after = leb to q.current_index
  let inside = not after && leb from q.current_index
  let just_before = not after && not inside && ltb 0 from && (q.current_index == from - 1)
  announce w inside (inside || just_before) (record q {
    entries = entries;
    queue = order;
    current_index =
        if after
        then q.current_index - (to - from)
        else if inside
        then (if from == length entries then 0 else from)
        else q.current_index;
  })

-- The variables of the loop of `EntryRemove`: what it has written at the front of `m_queue`,
-- `new_current_index` and `set`.
pub record Sweep : Type 0 where
  pub kept : List ℕ
  pub new_current_index : ℕ
  pub gone : Bool

-- One round, at index `i` with element `k`. The index that is written, `j`, is the length of `kept`.
unfoldable pub sweep_step : ℕ → ℕ → ℕ → ℕ → ℕ → Sweep → Sweep
sweep_step from to current i k s =
    let index = if current == i then length s.kept else s.new_current_index in
    if leb to k
    then record {
      kept = s.kept ++ add32 from (k - to) ∷ [];
      new_current_index = index;
      gone = s.gone;
    }
    else if ltb k from
    then record { kept = s.kept ++ k ∷ []; new_current_index = index; gone = s.gone }
    else record { kept = s.kept; new_current_index = index; gone = s.gone || (current == i) }

unfoldable pub sweep : ℕ → ℕ → ℕ → ℕ → List ℕ → Sweep → Sweep
unfolding sweep_step
sweep from to current i [] s = s
sweep from to current i (k ∷ ks) s =
    sweep from to current (i + 1) ks (sweep_step from to current i k s)

unfoldable pub entry_remove : World → Queue → ℕ → ℕ → Option Queue
unfolding sweep
entry_remove w q from to = do
  next_entry ←
      (if ltb (add32 q.current_index 1) (length q.queue)
        then get_elem? q.queue (add32 q.current_index 1)
        else some 0)
  entries ← erase_range from to q.entries
  let s =
      sweep from to q.current_index 0 q.queue
        (record { kept = []; new_current_index = 0; gone = false })
  let order = resize (length entries) 0 (s.kept ++ drop (length s.kept) q.queue)
  announce w s.gone (leb from next_entry && ltb next_entry to) (record q {
    entries = entries;
    queue = order;
    current_index = if s.new_current_index == length order then 0 else s.new_current_index;
  })
