-- ===== src/Output/QueueRemove.antt =====
-- liboutput/queue.cpp: what `QueueRemove` does to a valid queue.
use Prim.Native.Nat.{◌-◌}
use native.Mathlib.Nat.{zero-add}
use chorale.Base.{
  ℕ, ◌+◌, ◌<◌, ◌≤◌, ◌≡◌, sym, ◌∙◌, ap, Bool, true, some, List, ◌⊎◌, arith, length, get_elem?,
  get_elem?-lt, count, SameItems, range_from, map, not, ◌&&◌, ◌||◌, length-map, count-range_from,
  get_elem?-count, length-range_from, ltb, leb, ◌==◌, bit, if◌then◌else◌, map-SameItems, inl, inr,
  get_elem?-map, SameItems-length,
}
use chorale.Output.State.{Queue, Entry, World, entry_at, announce}
use chorale.Output.Edit.{queue_remove, mark, renumber, renumbered, remove_null, erase_range}
use chorale.Output.Marking.{
  Marked, mark_lem, rest, slice, rest-survivors, renumbered-rank, map-renumbered-survivors,
  remove_null-HasDb, length-rest, get_elem?-rest, live, live-HasDb, count-rest, survivors,
}
use chorale.Output.Valid.{
  IsValid, length-queue, queue-lt, queue-All, announce-IsValid, SameLists-entry_at,
  SameLists-current,
}

unfoldable pub queue_removed : Queue → ℕ → ℕ → List Entry → Queue
queue_removed q from to marked = record q {
  entries = remove_null marked;
  queue = map (renumbered (renumber marked 0 0)) (rest from to q.queue);
  current_index =
      if leb to q.current_index
      then q.current_index - (to - from)
      else if leb from q.current_index
      then (if from == length (remove_null marked) then 0 else from)
      else q.current_index;
}

module _ {q : Queue} (from to : ℕ) (marked : List Entry) (v : IsValid q) (h : from ≤ to)
    (k : to ≤ length q.entries) (m : Marked (slice from to q.queue) q.entries marked) where
  new_order :
      SameItems
        (map (renumbered (renumber marked 0 0)) (rest from to q.queue))
        (range_from 0 (length (remove_null marked)))
  new_order a =
      map-SameItems (renumbered (renumber marked 0 0)) (rest from to q.queue) (survivors marked 0)
        (rest-survivors from to marked v h m) a
      ∙ ap (count a) (map-renumbered-survivors marked 0 0)

  pub length-remove_null : length (remove_null marked) ≡ length q.entries - (to - from)
  length-remove_null = omega (
    arith,
    SameItems-length _ _ new_order,
    length-range_from 0 (length (remove_null marked)),
    length-map (renumbered (renumber marked 0 0)) (rest from to q.queue),
    length-rest from to q.queue h (rw (length-queue v) k),
    length-queue v,
  )

  pub queue_removed-IsValid : IsValid (queue_removed q from to marked)
  unfolding queue_removed
  queue_removed-IsValid = record {
    order = new_order;
    current = ground (arith, length-remove_null, v.current);
    dbs = remove_null-HasDb marked;
    fits = omega (arith, length-remove_null, v.fits);
  }

  -- The places that stay keep their entries, in their order.
  entry_at-queue_removed :
      (j : ℕ)
      → j < length q.entries - (to - from)
      → entry_at (queue_removed q from to marked) j
        ≡ entry_at q (if ltb j from then j else j + (to - from))
  unfolding queue_removed entry_at
  entry_at-queue_removed j lt =
      let same = length-queue v in
      let (n, pn) =
        get_elem?-lt (rest from to q.queue) j
          (omega (arith, length-rest from to q.queue h (rw same k), same)) in
      let old = sym (get_elem?-rest from to j q.queue h (rw same k)) ∙ pn in
      let staying = count-rest n from to q.queue h in
      let none_out : count n (slice from to q.queue) ≡ 0 = ground (
        arith,
        staying,
        get_elem?-count (rest from to q.queue) j pn,
        v.order n,
        count-range_from n 0 (length q.entries),
      ) in
      let found = m.kept n none_out in
      let alive : live (get_elem? marked n) ≡ 1 =
        ap live found ∙ live-HasDb q.entries n v.dbs ∙ ap bit (lt_test (queue-lt v _ old)) in
      let (r, p, g) = renumbered-rank marked 0 0 n alive in
      rw (get_elem?-map (renumbered (renumber marked 0 0)) (rest from to q.queue) j pn, old)
        (ap (get_elem? (remove_null marked))
            (ap (renumbered (renumber marked 0 0)) (sym (zero-add n)) ∙ p ∙ zero-add r)
          ∙ g
          ∙ found)
    where
      lt_test : {a b : ℕ} → a < b → ltb a b ≡ true
      lt_test l = ground arith

  pub current_before :
      q.current_index < from → (queue_removed q from to marked).current_index ≡ q.current_index
  unfolding queue_removed
  current_before l = ground arith

  current_behind :
      to ≤ q.current_index
      → (queue_removed q from to marked).current_index ≡ q.current_index - (to - from)
  unfolding queue_removed
  current_behind l = ground arith

  current-queue_removed :
      q.current_index < length q.entries
      → (q.current_index < from) ⊎ (to ≤ q.current_index)
      → let q' = queue_removed q from to marked in
        entry_at q' q'.current_index ≡ entry_at q q.current_index
  current-queue_removed lt (inl before) =
      ap (entry_at (queue_removed q from to marked)) (current_before before)
      ∙ entry_at-queue_removed q.current_index (omega arith)
      ∙ ap (entry_at q) index
    where
      index :
          (if ltb q.current_index from then q.current_index else q.current_index + (to - from))
          ≡ q.current_index
      index = ground arith
  current-queue_removed lt (inr behind) =
      ap (entry_at (queue_removed q from to marked)) (current_behind behind)
      ∙ entry_at-queue_removed (q.current_index - (to - from)) (omega arith)
      ∙ ap (entry_at q) index
    where
      moved : ℕ
      moved = q.current_index - (to - from)

      index : (if ltb moved from then moved else moved + (to - from)) ≡ q.current_index
      index = ground arith

pub queue_remove-announce :
    (w : World) (q : Queue) (from to : ℕ) (marked : List Entry)
    → from ≤ to
    → to ≤ length q.queue
    → mark (to - from) from q.queue q.entries ≡ some marked
    → (b : Bool) × (queue_remove w q from to
        ≡ announce w
            (not (leb to q.current_index) && leb from q.current_index)
            b
            (queue_removed q from to marked))
unfolding queue_remove queue_removed erase_range
queue_remove-announce w q from to marked h k e =
    (inside || just_before, rw (e, in_range) (ap (announce w inside (inside || just_before)) same))
  where
    after : Bool
    after = leb to q.current_index

    inside : Bool
    inside = not after && leb from q.current_index

    just_before : Bool
    just_before = not after && not inside && ltb 0 from && (q.current_index == from - 1)

    in_range : (leb from to && leb to (length q.queue)) ≡ true
    in_range = ground arith

    place : List Entry → Bool → ℕ
    place es b =
        if after
        then q.current_index - (to - from)
        else if b
        then (if from == length es then 0 else from)
        else q.current_index

    same_place : (es : List Entry) → place es inside ≡ place es (leb from q.current_index)
    same_place es = ground arith

    order : List ℕ
    order = map (renumbered (renumber marked 0 0)) (rest from to q.queue)

    with_place : ℕ → Queue
    with_place c = record q { entries = remove_null marked; queue = order; current_index = c }

    same :
        with_place (place (remove_null marked) inside)
        ≡ with_place (place (remove_null marked) (leb from q.current_index))
    same = ap with_place (same_place (remove_null marked))

-- `QueueRemove` of a range, from `from` up to and without `to`, that lies in a valid queue succeeds and leaves a valid
-- queue, with as many entries fewer as the range holds. The places outside the range keep their entries, in their order;
-- the current entry stays the current one if it is not in the range.
pub queue_remove-IsValid :
    (w : World) (q : Queue) (from to : ℕ)
    → IsValid q
    → from ≤ to
    → to ≤ length q.entries
    → (q' : Queue) × (queue_remove w q from to ≡ some q')
      × IsValid q'
      × (length q'.entries ≡ length q.entries - (to - from))
      × ((j : ℕ)
          → j < length q'.entries
          → entry_at q' j ≡ entry_at q (if ltb j from then j else j + (to - from)))
      × (q.current_index < length q.entries
          → (q.current_index < from) ⊎ (to ≤ q.current_index)
          → entry_at q' q'.current_index ≡ entry_at q q.current_index)
queue_remove-IsValid w q from to v h k =
    let same = length-queue v in
    let (marked, e, m) =
      mark_lem (to - from) from q.queue q.entries (omega (arith, same)) (queue-All v) in
    let (b, out) = queue_remove-announce w q from to marked h (rw same k) e in
    let (q', done, v', s) = announce-IsValid w _ b (queue_removed-IsValid from to marked v h k m) in
    let shorter : length q'.entries ≡ length q.entries - (to - from) =
      ap length s.same_entries
      ∙ unfold queue_removed in length-remove_null from to marked v h k m in
    (
      q',
      out ∙ done,
      v',
      shorter,
      (λ j lt.
          SameLists-entry_at s j
          ∙ entry_at-queue_removed from to marked v h k m j (omega (arith, shorter))),
      λ lt outside. SameLists-current s ∙ current-queue_removed from to marked v h k m lt outside,
    )
