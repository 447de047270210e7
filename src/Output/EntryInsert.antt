-- ===== src/Output/EntryInsert.antt =====
-- liboutput/queue.cpp: what `EntryInsert` does to a valid queue, and where it crashes.
use Prim.Native.Nat.{◌-◌, ◌%◌}
use native.Mathlib.Nat.{mod-lt}
use chorale.Base.{
  All-append, add64, ℕ, zero, suc, ◌+◌, ◌<◌, ◌≤◌, ◌≡◌, ◌≢◌, refl, ◌∙◌, Bool, true, false, none,
  some, List, [], ◌∷◌, ◌⊎◌, ◌++◌, arith, length, get_elem?, get_elem?-lt, count, range_from, map,
  not, ◌&&◌, length-map, count-range_from, u32, sub64, add32, ltb, leb, ◌==◌, if◌then◌else◌,
  map-SameItems, Bool-cases, count-insert, inl, inr, take, drop, get_elem?-insert_lt,
  get_elem?-insert_le, get_elem?-insert_self, length-insert, get_elem?-map,
}
use chorale.Output.State.{Queue, Entry, World, PlayState, play, pause, stop, entry_at, announce}
use chorale.Output.Edit.{
  entry_insert, insert_at, new_entry, make_room, insert_position, random_place,
}
use chorale.Output.Insert.{get_elem?-bump}
use chorale.Output.Valid.{
  IsValid, HasDb, All-take, All-drop, length-queue, queue-lt, announce-IsValid, SameLists-entry_at,
  SameLists-current,
}

count-make_room :
    (w a i n : ℕ)
    → i + n < u32
    → count a (map (make_room w) (range_from i n)) ≡ (
        if ltb a w
        then count a (range_from i n)
        else if a == w
        then 0
        else count (a - 1) (range_from i n))
unfolding make_room
count-make_room w a i zero h = ground arith
count-make_room w a i (suc n) h = ground (arith, count-make_room w a (i + 1) n)

add32-one : (c : ℕ) → suc c < u32 → add32 c 1 ≡ suc c
add32-one c h = omega arith

-- The place is in the queue, and in a shuffled queue it is in the future.
abbrev pub InFuture : Queue → ℕ → Type 0
InFuture q pos =
    (pos ≤ length q.queue)
    × (q.shuffled ≡ true → q.current_index ≤ pos)
    × (q.shuffled ≡ true → q.state ≡ play → q.current_index < pos)

-- What keeps `rand() % room` from dividing by zero.
abbrev pub CanPlace : Queue → Type 0
CanPlace q = (q.shuffled ≡ false) ⊎ (q.state ≢ play) ⊎ (0 < length q.entries)

random_place_bounds :
    (first size r : ℕ)
    → first ≤ size
    → size < u32
    → (pos : ℕ) × (random_place first size r ≡ some pos) × (first ≤ pos) × (pos ≤ size)
unfolding random_place
random_place_bounds first size r h small = elim (Bool-cases (first == size)) [
  | inl at_end ↦ (size, rw at_end refl, h, omega arith)
  | inr before ↦
      let room = add64 (sub64 size first) 1 in
      let lt : first < size = ground arith in
      let size_of : room ≡ size - first + 1 = omega arith in
      let some_room : (room == 0) ≡ false = ground arith in
      let below : r % room < room = mod-lt r (omega arith) in
      (
        add64 first (r % room),
        rw (before, some_room) refl,
        omega (arith, below),
        omega (arith, below),
      )
]

PlayState-cases : (s : PlayState) → (s ≡ play) ⊎ (s ≡ pause) ⊎ (s ≡ stop)
PlayState-cases play = inl refl
PlayState-cases pause = inr (inl refl)
PlayState-cases stop = inr (inr refl)

insert_position-InFuture :
    (q : Queue) (where_at r : ℕ)
    → q.current_index ≤ length q.queue - 1
    → length q.queue < u32
    → where_at ≤ length q.queue
    → (q.shuffled ≡ false) ⊎ (q.state ≢ play) ⊎ (0 < length q.queue)
    → (pos : ℕ) × (insert_position q where_at r ≡ some pos) × InFuture q pos
unfolding insert_position
insert_position-InFuture q where_at r v fits k can = elim (Bool-cases q.shuffled) [
  | inr plain ↦ (where_at, ground arith, (k, (λ e. cc), (λ e. cc)))
  | inl mixed ↦ elim (PlayState-cases q.state) [
    | inl p ↦
        let (pos, e, l, u) =
          random_place_bounds (add32 q.current_index 1) (length q.queue) r (ground arith) fits in
        (pos, ground (arith, e), (u, (λ _. omega (arith, l)), (λ _ _. omega (arith, l))))
    | inr (inl p) ↦
        let (pos, e, l, u) =
          random_place_bounds q.current_index (length q.queue) r (omega arith) fits in
        (pos, ground (arith, e), (u, (λ _. omega (arith, l)), (λ _ e. absurd (cc))))
    | inr (inr p) ↦
        let (pos, e, l, u) =
          random_place_bounds q.current_index (length q.queue) r (omega arith) fits in
        (pos, ground (arith, e), (u, (λ _. omega (arith, l)), (λ _ e. absurd (cc))))
  ]
]

unfoldable pub entry_inserted : Queue → ℕ → ℕ → ℕ → ℕ → Queue
entry_inserted q d id where_at pos = record q {
  entries = take where_at q.entries ++ new_entry (some d) id ∷ drop where_at q.entries;
  queue =
      take pos (map (make_room where_at) q.queue)
      ++ where_at ∷ drop pos (map (make_room where_at) q.queue);
  current_index = if ltb pos q.current_index then add32 q.current_index 1 else q.current_index;
}

entry_inserted-IsValid :
    {q : Queue} (d id where_at pos : ℕ)
    → IsValid q
    → where_at ≤ length q.entries
    → suc (length q.entries) < u32
    → IsValid (entry_inserted q d id where_at pos)
unfolding entry_inserted
entry_inserted-IsValid {q} d id where_at pos v k room =
    let longer = length-insert where_at (new_entry (some d) id) q.entries in
    record {
      order = λ a. ground (
        arith,
        longer,
        count-insert a pos where_at (map (make_room where_at) q.queue),
        map-SameItems (make_room where_at) q.queue (range_from 0 (length q.entries)) v.order a,
        count-make_room where_at a 0 (length q.entries),
        count-range_from a 0 (length q.entries),
        count-range_from (a - 1) 0 (length q.entries),
        count-range_from a 0 (suc (length q.entries)),
      );
      current = ground (arith, longer, v.current);
      dbs =
          All-append HasDb (take where_at q.entries) _ (All-take HasDb where_at q.entries v.dbs)
            ((λ e. cc), All-drop HasDb where_at q.entries v.dbs);
      fits = omega (arith, longer);
    }

-- An entry keeps its contents at its new index.
get_elem?-make_room :
    (es : List Entry) (e : Entry) (where_at k : ℕ)
    → where_at ≤ length es
    → length es < u32
    → k < length es
    → get_elem? (take where_at es ++ e ∷ drop where_at es) (make_room where_at k) ≡ get_elem? es k
unfolding make_room
get_elem?-make_room es e where_at k h small lt = elim (Bool-cases (leb where_at k)) [
  | inl after ↦
      rw (after, add32-one k (omega arith)) (get_elem?-insert_le where_at e es k h (ground arith))
  | inr before ↦ rw before (get_elem?-insert_lt where_at e es k (ground arith) lt)
]

entry_at-entry_inserted :
    (q : Queue) (d id where_at pos i j : ℕ)
    → IsValid q
    → where_at ≤ length q.entries
    → i < length q.entries
    → get_elem? (entry_inserted q d id where_at pos).queue j
      ≡ get_elem? (map (make_room where_at) q.queue) i
    → entry_at (entry_inserted q d id where_at pos) j ≡ entry_at q i
unfolding entry_inserted entry_at
entry_at-entry_inserted q d id where_at pos i j v k h same =
    let (n, pn) = get_elem?-lt q.queue i (rw (length-queue v) h) in
    rw (same, get_elem?-map (make_room where_at) q.queue i pn, pn)
      (get_elem?-make_room q.entries _ where_at n k v.fits (queue-lt v i pn))

entry_inserted-current :
    (q : Queue) (d id where_at pos : ℕ)
    → IsValid q
    → where_at ≤ length q.entries
    → pos ≤ length q.queue
    → suc (length q.entries) < u32
    → 0 < length q.entries
    → pos ≢ q.current_index
    → let q' = entry_inserted q d id where_at pos in
      entry_at q' q'.current_index ≡ entry_at q q.current_index
entry_inserted-current q d id where_at pos v k h room some_entry ne =
    entry_at-entry_inserted q d id where_at pos q.current_index _ v k (omega (arith, v.current)) (
      unfold entry_inserted in
      rw (same_test pos q.current_index ne) (
        get_elem?-bump pos where_at (map (make_room where_at) q.queue) q.current_index
          (omega (arith, v.current, length-queue v, length-map (make_room where_at) q.queue))
          (omega (arith, v.current)) (omega (arith, length-map (make_room where_at) q.queue))))
  where
    same_test : (a b : ℕ) → a ≢ b → ltb a b ≡ leb a b
    same_test a b ne = ground arith

entry_inserted-new :
    (q : Queue) (d id where_at pos : ℕ)
    → where_at ≤ length q.entries
    → pos ≤ length q.queue
    → entry_at (entry_inserted q d id where_at pos) pos ≡ some (new_entry (some d) id)
unfolding entry_inserted entry_at
entry_inserted-new q d id where_at pos k h =
    rw
      (get_elem?-insert_self pos where_at (map (make_room where_at) q.queue)
        (omega (arith, length-map (make_room where_at) q.queue)))
      (get_elem?-insert_self where_at (new_entry (some d) id) q.entries k)

entry_insert-announce :
    (w : World) (q : Queue) (d id where_at pos r : ℕ)
    → where_at ≤ length q.entries
    → pos ≤ length q.queue
    → insert_position q where_at r ≡ some pos
    → (a b : Bool) × (entry_insert w r q (some d) id where_at
        ≡ announce w a b (entry_inserted q d id where_at pos))
unfolding entry_insert entry_inserted insert_at
entry_insert-announce w q d id where_at pos r k h e = (
  not set_next && (pos == q.current_index),
  set_next,
  rw (within_entries, e, within_queue, bump) refl,
)
  where
    set_next : Bool
    set_next = ltb 0 pos && (q.current_index == pos - 1)

    within_entries : ltb (length q.entries) where_at ≡ false
    within_entries = ground arith

    within_queue : ltb (length (map (make_room where_at) q.queue)) pos ≡ false
    within_queue = ground (arith, length-map (make_room where_at) q.queue)

    bump :
        (not (ltb 0 pos && (q.current_index == pos - 1)) && ltb pos q.current_index)
        ≡ ltb pos q.current_index
    bump = ground arith

-- `EntryInsert` into a valid queue, where `rand()` is not reduced modulo zero, succeeds at every place up
-- to the end of the entries. It leaves a valid queue; the new entry stands at some place `pos` of
-- the queue, which in a shuffled queue is not before the current index, nor at it while playing;
-- and unless `pos` is the current index or the queue was empty, the current entry stays the current one.
pub entry_insert-IsValid :
    (w : World) (q : Queue) (d id where_at r : ℕ)
    → IsValid q
    → CanPlace q
    → where_at ≤ length q.entries
    → suc (length q.entries) < u32
    → (q' : Queue) × (pos : ℕ) × (entry_insert w r q (some d) id where_at ≡ some q')
      × IsValid q'
      × (q'.entries ≡ take where_at q.entries ++ new_entry (some d) id ∷ drop where_at q.entries)
      × (entry_at q' pos ≡ some (new_entry (some d) id))
      × InFuture q pos
      × (0 < length q.entries
          → pos ≢ q.current_index
          → entry_at q' q'.current_index ≡ entry_at q q.current_index)
entry_insert-IsValid w q d id where_at r v can k room =
    let same = length-queue v in
    let (pos, e, future) =
      insert_position-InFuture q where_at r (rw same v.current) (rw same v.fits) (rw same k)
        (rw same can) in
    let (a, b, out) = entry_insert-announce w q d id where_at pos r k future.0 e in
    let (q', done, v', s) =
      announce-IsValid w a b (entry_inserted-IsValid d id where_at pos v k room) in
    (
      q',
      pos,
      out ∙ done,
      v',
      s.same_entries ∙ unfold entry_inserted in refl,
      SameLists-entry_at s pos ∙ entry_inserted-new q d id where_at pos k future.0,
      future,
      λ some_entry ne.
          SameLists-current s
          ∙ entry_inserted-current q d id where_at pos v k future.0 room some_entry ne,
    )

-- In a shuffled queue that is empty while the player still plays, `EntryInsert` divides by zero,
-- whatever is inserted.
pub entry_insert-fault :
    (w : World) (q : Queue) (d id r : ℕ)
    → q.entries ≡ []
    → q.queue ≡ []
    → q.current_index ≡ 0
    → q.shuffled ≡ true
    → q.state ≡ play
    → entry_insert w r q (some d) id 0 ≡ none
unfolding entry_insert insert_position random_place insert_at
entry_insert-fault w q d id r e₁ e₂ e₃ e₄ e₅ = ground arith
