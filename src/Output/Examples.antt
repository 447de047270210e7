-- ===== src/Output/Examples.antt =====
-- The play queue on concrete inputs: tests, and each theorem applied where its hypotheses hold.
use Prim.Native.Nat.{◌-◌}
use chorale.Base.{
  same_text, if◌then◌else◌, ltb, ◌⊎◌, ℕ, ◌+◌, ◌<◌, ◌≤◌, ◌≡◌, ◌≢◌, refl, true, false, Option, none,
  some, [], ◌∷◌, inr, arith, length, count,
}
use chorale.Output.State.{
  Queue, Entry, World, play, stop, Permutes, empty, played, entry_at, set_played, announce,
  set_next_url,
}
use chorale.Output.Edit.{
  add, queue_insert, entry_insert, queue_remove, entry_remove, mark, erase_range, renumber,
  renumbered, remove_null,
}
use chorale.Output.Transport.{set_shuffle, seek, on_url, nonempty}
use chorale.Output.Valid.{IsValid}
use chorale.Output.Insert.{queue_insert-IsValid}
use chorale.Output.EntryInsert.{InFuture, entry_insert-IsValid, entry_insert-fault}
use chorale.Output.QueueRemove.{queue_remove-IsValid}
use chorale.Output.EntryRemove.{entry_remove-IsValid}
use chorale.Output.Shuffle.{set_shuffle_on-IsValid, set_shuffle_off-IsValid}
use chorale.Output.Playing.{on_url-next, seek-IsValid}
use chorale.Output.Faults.{queue_remove-on_url-fault, queue_insert-empty}
use chorale.Output.History.{Reach, here, next, Reach-IsValid, perform, adds, Allowed, Op}

-- A database whose URLs are one byte, and a `shuffle` that leaves the list alone.
abbrev plain_world : World
plain_world = record {
  url = λ db id. (id + 1) ∷ [];
  metadata = λ db id. [];
  shuffle = λ g xs. (xs, g);
}

plain_world-Permutes : Permutes plain_world
plain_world-Permutes g a xs = refl

abbrev track : ℕ → ℕ → Entry
track id flags = record { db = some 7; id = id; flags = flags }

-- Three entries in the order 2, 0, 1; the first of the queue plays.
abbrev mixed : Queue
mixed = record {
  current_index = 0;
  queue = 2 ∷ 0 ∷ 1 ∷ [];
  entries = track 10 0 ∷ track 11 1 ∷ track 12 1 ∷ [];
  shuffled = true;
  random = 0;
  expected_url = 13 ∷ [];
  expected_next_url = 11 ∷ [];
  state = play;
  calls = [];
}

mixed-order : (a : ℕ) → count a (2 ∷ 0 ∷ 1 ∷ []) ≡ count a (0 ∷ 1 ∷ 2 ∷ [])
mixed-order a = omega arith

mixed-IsValid : IsValid mixed
mixed-IsValid = record {
  order = mixed-order;
  current = omega arith;
  dbs = ((λ e. cc), ((λ e. cc), ((λ e. cc), tt)));
  fits = omega arith;
}

abbrev sorted : Queue
sorted = record mixed { queue = 0 ∷ 1 ∷ 2 ∷ []; shuffled = false }

sorted-IsValid : IsValid sorted
sorted-IsValid = record {
  order = λ a. refl;
  current = omega arith;
  dbs = ((λ e. cc), ((λ e. cc), ((λ e. cc), tt)));
  fits = omega arith;
}

abbrev nothing_queued : Queue
nothing_queued = record mixed { queue = []; entries = [] }

-- Removing the second and third place leaves the current entry, renumbered.
queue_remove_test :
    queue_remove plain_world mixed 1 3
    ≡ some (record mixed { queue = 0 ∷ []; entries = track 12 1 ∷ [] })
unfolding queue_remove mark erase_range renumber renumbered remove_null announce set_next_url
queue_remove_test = refl

queue_insert-IsValid_example :
    (q' : Queue) × (queue_insert plain_world mixed (some 7) 13 0 ≡ some q')
    × IsValid q'
    × (q'.entries ≡ track 10 0 ∷ track 11 1 ∷ track 12 1 ∷ track 13 0 ∷ [])
    × (entry_at q' 0 ≡ some (track 13 0))
    × (entry_at q' q'.current_index ≡ entry_at mixed 0)
queue_insert-IsValid_example =
    queue_insert-IsValid plain_world {q = mixed} 7 13 0 mixed-IsValid (omega arith) (omega arith)
      (omega arith)

entry_insert-IsValid_example :
    (q' : Queue) × (pos : ℕ) × (entry_insert plain_world 5 mixed (some 7) 13 1 ≡ some q')
    × IsValid q'
    × (q'.entries ≡ track 10 0 ∷ track 13 0 ∷ track 11 1 ∷ track 12 1 ∷ [])
    × (entry_at q' pos ≡ some (track 13 0))
    × InFuture mixed pos
    × (0 < 3 → pos ≢ 0 → entry_at q' q'.current_index ≡ entry_at mixed 0)
entry_insert-IsValid_example =
    entry_insert-IsValid plain_world mixed 7 13 1 5 mixed-IsValid (inr (inr (omega arith)))
      (omega arith) (omega arith)

entry_insert-fault_example : entry_insert plain_world 5 nothing_queued (some 7) 13 0 ≡ none
entry_insert-fault_example =
    entry_insert-fault plain_world nothing_queued 7 13 5 refl refl refl refl refl

queue_remove-IsValid_example :
    (q' : Queue) × (queue_remove plain_world mixed 1 2 ≡ some q')
    × IsValid q'
    × (length q'.entries ≡ 2)
    × ((j : ℕ)
        → j < length q'.entries
        → entry_at q' j ≡ entry_at mixed (if ltb j 1 then j else j + (2 - 1)))
    × (0 < 3 → (0 < 1) ⊎ (2 ≤ 0) → entry_at q' q'.current_index ≡ entry_at mixed 0)
queue_remove-IsValid_example =
    queue_remove-IsValid plain_world mixed 1 2 mixed-IsValid (omega arith) (omega arith)

entry_remove-IsValid_example :
    (q' : Queue) × (entry_remove plain_world mixed 0 2 ≡ some q')
    × IsValid q'
    × (q'.entries ≡ track 12 1 ∷ [])
    × ((n : ℕ)
        → ◌≡◌ {A = Option ℕ} (some 2) (some n)
        → (n < 0) ⊎ (2 ≤ n)
        → entry_at q' q'.current_index ≡ entry_at mixed 0)
entry_remove-IsValid_example =
    entry_remove-IsValid plain_world mixed 0 2 mixed-IsValid (omega arith) (omega arith)

set_shuffle_on-IsValid_example :
    (q' : Queue) × (set_shuffle plain_world true sorted ≡ some q')
    × IsValid q'
    × (q'.shuffled ≡ true)
    × (q'.entries ≡ sorted.entries)
    × (entry_at q' q'.current_index ≡ entry_at sorted 0)
    × ((j : ℕ) (e : Entry) → j < q'.current_index → entry_at q' j ≡ some e → played e ≡ true)
    × ((j : ℕ) (e : Entry) → q'.current_index < j → entry_at q' j ≡ some e → played e ≡ false)
set_shuffle_on-IsValid_example =
    set_shuffle_on-IsValid plain_world sorted plain_world-Permutes sorted-IsValid refl (omega arith)

set_shuffle_off-IsValid_example :
    (q' : Queue) × (set_shuffle plain_world false mixed ≡ some q')
    × IsValid q'
    × (q'.shuffled ≡ false)
    × (q'.entries ≡ mixed.entries)
    × (q'.queue ≡ 0 ∷ 1 ∷ 2 ∷ [])
    × (entry_at q' q'.current_index ≡ entry_at mixed 0)
set_shuffle_off-IsValid_example =
    set_shuffle_off-IsValid plain_world mixed plain_world-Permutes mixed-IsValid refl (omega arith)

seek-IsValid_example :
    (q' : Queue) × (seek plain_world 2 mixed ≡ some q')
    × IsValid q'
    × (q'.entries ≡ mixed.entries)
    × (q'.current_index ≡ 2)
seek-IsValid_example = seek-IsValid plain_world 2 mixed mixed-IsValid

on_url-next_example :
    (q' : Queue) × (e : Entry) × (on_url plain_world (11 ∷ []) mixed ≡ some q')
    × IsValid q'
    × (q'.current_index ≡ 1)
    × (q'.queue ≡ mixed.queue)
    × (same_text (11 ∷ []) q'.expected_url ≡ true)
    × (entry_at mixed 1 ≡ some e)
    × (entry_at q' q'.current_index ≡ some (set_played e))
unfolding same_text nonempty
on_url-next_example =
    on_url-next plain_world (11 ∷ []) mixed mixed-IsValid (omega arith) refl refl refl

queue_remove-on_url-fault_example :
    (q' : Queue) × (queue_remove plain_world mixed 1 3 ≡ some q')
    × IsValid q'
    × (on_url plain_world (11 ∷ []) q' ≡ none)
unfolding same_text nonempty
queue_remove-on_url-fault_example =
    queue_remove-on_url-fault plain_world (11 ∷ []) mixed mixed-IsValid (omega arith) refl refl refl

queue_insert-empty_example :
    (q' : Queue) × (queue_insert plain_world nothing_queued (some 7) 13 0 ≡ some q')
    × (length q'.entries ≡ 1)
    × (q'.current_index ≡ 1)
    × (q'.calls ≡ [])
    × (¬ IsValid q')
queue_insert-empty_example = queue_insert-empty plain_world nothing_queued 7 13 refl refl refl

-- The queue after one `Add`.
abbrev one_added : Queue
one_added = record (start_up) { queue = 0 ∷ []; entries = track 20 0 ∷ [] }
  where
    start_up : Queue
    start_up = record {
      current_index = 0;
      queue = [];
      entries = [];
      shuffled = false;
      random = 0;
      expected_url = [];
      expected_next_url = [];
      state = stop;
      calls = [];
    }

one_added-Reach : Reach plain_world (empty 0) one_added
one_added-Reach =
    next {s = one_added} (adds 7 20) here (unfold empty in omega arith)
      (unfold perform add empty in refl)

Reach-IsValid_example :
    IsValid one_added × ((op : Op) → Allowed op one_added → perform plain_world op one_added ≢ none)
Reach-IsValid_example = Reach-IsValid plain_world 0 plain_world-Permutes one_added-Reach
