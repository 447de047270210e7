-- ===== src/Output/History.antt =====
-- liboutput/queue.h: any history of calls of a `Queue`, from its constructor on. A call is one of a client
-- thread or a callback of the player; calls follow one another, as under `m_mutex`.
use mathlib.Core.Option.{some-injective}
use chorale.Base.{
  Bytes, same_text, subst, ℕ, suc, ◌<◌, ◌≤◌, ◌≡◌, ◌≢◌, refl, sym, ◌∙◌, Bool, true, false, Option,
  none, some, arith, length, u32, Bool-cases, inl, inr, ltb, ◌&&◌,
}
use chorale.Output.State.{Queue, World, Permutes, PlayState, stop, empty, observer_time_code}
use chorale.Output.Edit.{add, queue_insert, entry_insert, queue_remove, entry_remove}
use chorale.Output.Transport.{
  set_play_state, set_shuffle, seek, on_play_state, on_url, on_time_code, nonempty, tell,
}
use chorale.Output.Valid.{IsValid, SameLists-IsValid}
use chorale.Output.Insert.{add-IsValid, queue_insert-IsValid}
use chorale.Output.EntryInsert.{entry_insert-IsValid, CanPlace}
use chorale.Output.QueueRemove.{queue_remove-IsValid}
use chorale.Output.EntryRemove.{entry_remove-IsValid}
use chorale.Output.Shuffle.{set_shuffle-IsValid}
use chorale.Output.Playing.{
  set_play_state-IsValid, seek-IsValid, on_url-next, mark_played-IsValid, tell-SameLists,
  marked_played,
}

-- The public calls and the callbacks. The last number of `entry_insert` is the value of `rand()`.
pub data Op : Type 0 where
  adds : ℕ → ℕ → Op
  queue_inserts : ℕ → ℕ → ℕ → Op
  entry_inserts : ℕ → ℕ → ℕ → ℕ → Op
  queue_removes : ℕ → ℕ → Op
  entry_removes : ℕ → ℕ → Op
  sets_play_state : PlayState → Op
  sets_shuffle : Bool → Op
  seeks : ℕ → Op
  hears_play_state : PlayState → Op
  hears_url : Bytes → Op
  hears_time_code : ℕ → Op

unfoldable pub perform : World → Op → Queue → Option Queue
perform w (adds d id) q = add w q (some d) id
perform w (queue_inserts d id pos) q = queue_insert w q (some d) id pos
perform w (entry_inserts d id pos r) q = entry_insert w r q (some d) id pos
perform w (queue_removes from to) q = queue_remove w q from to
perform w (entry_removes from to) q = entry_remove w q from to
perform w (sets_play_state s) q = set_play_state w s q
perform w (sets_shuffle b) q = set_shuffle w b q
perform w (seeks i) q = seek w i q
perform w (hears_play_state s) q = some (on_play_state s q)
perform w (hears_url url) q = on_url w url q
perform w (hears_time_code s) q = some (on_time_code s q)

-- What a caller has to respect: ranges in bounds, no more entries than `unsigned int` counts, no
-- `QueueInsert` into an empty queue, no `EntryInsert` where its modulus is 0, and a player that starts an
-- announced URL only while its entry is in the queue.
abbrev pub Allowed : Op → Queue → Type 0
Allowed (adds d id) q = suc (length q.entries) < u32
Allowed (queue_inserts d id pos) q =
    (0 < length q.entries) × (pos ≤ length q.entries) × (suc (length q.entries) < u32)
Allowed (entry_inserts d id pos r) q =
    CanPlace q × (pos ≤ length q.entries) × (suc (length q.entries) < u32)
Allowed (queue_removes from to) q = (from ≤ to) × (to ≤ length q.entries)
Allowed (entry_removes from to) q = (from ≤ to) × (to ≤ length q.entries)
Allowed (sets_play_state s) q = Unit
Allowed (sets_shuffle b) q = Unit
Allowed (seeks i) q = Unit
Allowed (hears_play_state s) q = Unit
Allowed (hears_url url) q =
    (same_text url q.expected_url ≡ true → q.current_index < length q.entries)
    × (same_text url q.expected_next_url ≡ true → suc q.current_index < length q.entries)
Allowed (hears_time_code s) q = Unit

on_play_state-IsValid : (s : PlayState) {q : Queue} → IsValid q → IsValid (on_play_state s q)
unfolding on_play_state
on_play_state-IsValid s v = record {
  order = v.order;
  current = v.current;
  dbs = v.dbs;
  fits = v.fits;
}

on_time_code-IsValid : (s : ℕ) {q : Queue} → IsValid q → IsValid (on_time_code s q)
unfolding on_time_code
on_time_code-IsValid s {q} v = elim (Bool-cases (ltb q.current_index (length q.entries))) [
  | inl here ↦
      rw here (SameLists-IsValid (tell-SameLists q (observer_time_code q.current_index s)) v)
  | inr past ↦ rw past v
]

-- `OnURL` for the URL that is expected to play: it flags the current entry.
on_url-current :
    (w : World) (url : Bytes) (q : Queue)
    → IsValid q
    → q.current_index < length q.entries
    → same_text url q.expected_url ≡ true
    → nonempty url ≡ true
    → (q' : Queue) × (on_url w url q ≡ some q') × IsValid q'
unfolding on_url
on_url-current w url q v h same some_url =
    let (k, e, pk, pe, done, v') = mark_played-IsValid q.current_index v h in
    let heard = tell-SameLists (marked_played q k e) (observer_time_code q.current_index 0) in
    (
      tell (marked_played q k e) (observer_time_code q.current_index 0),
      rw (same, some_url, done) refl,
      SameLists-IsValid heard v',
    )

-- For any other URL it stops.
on_url-other :
    (w : World) (url : Bytes) (q : Queue)
    → (same_text url q.expected_url && nonempty url) ≡ false
    → (same_text url q.expected_next_url && nonempty url) ≡ false
    → on_url w url q ≡ some (on_play_state stop q)
unfolding on_url
on_url-other w url q a b = rw (a, b) refl

on_url-IsValid :
    (w : World) (url : Bytes) (q : Queue)
    → IsValid q
    → Allowed (hears_url url) q
    → (q' : Queue) × (on_url w url q ≡ some q') × IsValid q'
on_url-IsValid w url q v h = elim (Bool-cases (nonempty url)) [
  | inr no_url ↦ (
    on_play_state stop q,
    on_url-other w url q (ground arith) (ground arith),
    on_play_state-IsValid stop v,
  )
  | inl some_url ↦ elim (Bool-cases (same_text url q.expected_url)) [
    | inl same ↦ on_url-current w url q v (h.0 same) same some_url
    | inr other ↦ elim (Bool-cases (same_text url q.expected_next_url)) [
      | inl next ↦ let x = on_url-next w url q v (h.1 next) other next some_url in (x.0, x.2, x.3)
      | inr unknown ↦ (
        on_play_state stop q,
        on_url-other w url q (ground arith) (ground arith),
        on_play_state-IsValid stop v,
      )
    ]
  ]
]

-- Every allowed call succeeds on a valid queue, and leaves a valid queue.
pub perform-IsValid :
    (w : World) (op : Op) (q : Queue)
    → Permutes w
    → IsValid q
    → Allowed op q
    → (q' : Queue) × (perform w op q ≡ some q') × IsValid q'
unfolding perform
perform-IsValid w (adds d id) q p v h = let x = add-IsValid w d id v h in (x.0, x.1, x.2)
perform-IsValid w (queue_inserts d id pos) q p v h =
    let x = queue_insert-IsValid w d id pos v h.0 h.1 h.2 in (x.0, x.1, x.2)
perform-IsValid w (entry_inserts d id pos r) q p v h =
    let x = entry_insert-IsValid w q d id pos r v h.0 h.1 h.2 in (x.0, x.2, x.3)
perform-IsValid w (queue_removes from to) q p v h =
    let x = queue_remove-IsValid w q from to v h.0 h.1 in (x.0, x.1, x.2)
perform-IsValid w (entry_removes from to) q p v h =
    let x = entry_remove-IsValid w q from to v h.0 h.1 in (x.0, x.1, x.2)
perform-IsValid w (sets_play_state s) q p v h =
    let (q', done, same) = set_play_state-IsValid w s v in (q', done, SameLists-IsValid same v)
perform-IsValid w (sets_shuffle b) q p v h =
    let x = set_shuffle-IsValid w b q p v in (x.0, x.1, x.2)
perform-IsValid w (seeks i) q p v h = let x = seek-IsValid w i q v in (x.0, x.1, x.2)
perform-IsValid w (hears_play_state s) q p v h =
    (on_play_state s q, refl, on_play_state-IsValid s v)
perform-IsValid w (hears_url url) q p v h = on_url-IsValid w url q v h
perform-IsValid w (hears_time_code s) q p v h = (on_time_code s q, refl, on_time_code-IsValid s v)

-- The states that allowed calls lead to.
pub data Reach (w : World) (q : Queue) : Queue → Type 0 where
  here : Reach w q q
  next :
      {r s : Queue} (op : Op) → Reach w q r → Allowed op r → perform w op r ≡ some s → Reach w q s

empty-IsValid : (seed : ℕ) → IsValid (empty seed)
unfolding empty
empty-IsValid seed = record {
  order = λ a. refl;
  current = omega arith;
  dbs = tt;
  fits = omega arith;
}

reached-IsValid :
    (w : World) (seed : ℕ) {q : Queue} → Permutes w → Reach w (empty seed) q → IsValid q
reached-IsValid w seed p here = empty-IsValid seed
reached-IsValid w seed p (next {r} {s} op reached allowed done) =
    let (q', done', v) = perform-IsValid w op r p (reached-IsValid w seed p reached) allowed in
    subst IsValid (some-injective _ _ (sym done' ∙ done)) v

-- After any history of allowed calls from the constructor on, every entry stands in the queue exactly
-- once, the current index is in range, and no further allowed call faults.
pub Reach-IsValid :
    (w : World) (seed : ℕ) {q : Queue}
    → Permutes w
    → Reach w (empty seed) q
    → IsValid q × ((op : Op) → Allowed op q → perform w op q ≢ none)
Reach-IsValid w seed {q} p r =
    let v = reached-IsValid w seed p r in
    (
      v,
      λ op allowed fault.
          let (q', done, v') = perform-IsValid w op q p v allowed in
          some-ne-none q' (sym done ∙ fault),
    )
  where
    some-ne-none : (q : Queue) → some q ≢ none
    some-ne-none q e = cc
