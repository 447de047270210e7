-- ===== src/Output/Transport.antt =====
-- liboutput/queue.cpp: `SetPlayState`, `SetShuffle` and `Seek`, and the player's callbacks `OnPlayState`,
-- `OnURL` and `OnTimeCode` of `Queue::Impl`.
use chorale.Base.{
  Bytes, same_text, ℕ, ◌+◌, Bool, true, false, not, ◌&&◌, Option, some, List, [], ◌∷◌, ◌++◌, length,
  get_elem?, set, ltb, leb, ◌==◌, add32, range_from, if◌then◌else◌, ◌>>=◌,
}
use chorale.Output.State.{
  PlayState, play, stop, pause, Entry, Queue, World, Call, player_state, observer_state,
  observer_time_code, played, set_played, set_url, set_next_url,
}

-- Appends one call.
abbrev pub tell : Queue → Call → Queue
tell q c = record q { calls = q.calls ++ c ∷ [] }

unfoldable pub set_play_state : World → PlayState → Queue → Option Queue
set_play_state w play q =
    if length q.entries == 0
    then some q
    else do q' ← set_url w q; q'' ← set_next_url w q'; some (tell q'' (player_state play))
set_play_state w pause q = some (tell q (player_state pause))
set_play_state w stop q = some (tell q (player_state stop))

-- The entries other than `current` whose flag is `wanted`, from index `i` on: the two loops of
-- `SetShuffle`.
unfoldable pub side : Bool → ℕ → ℕ → List Entry → List ℕ
side wanted current i [] = []
side wanted current i (e ∷ es) =
    let rest = side wanted current (i + 1) es in
    if not (i == current) && (if wanted then played e else not (played e)) then i ∷ rest else rest

unfoldable pub set_shuffle : World → Bool → Queue → Option Queue
set_shuffle w true q =
    if q.shuffled
    then some q
    else if leb (length q.entries) 1
    then some (record q { shuffled = true })
    else do
      current_entry ← get_elem? q.queue q.current_index
      let behind = w.shuffle q.random (side true current_entry 0 q.entries)
      let ahead = w.shuffle behind.1 (side false current_entry 0 q.entries)
      set_next_url w (record q {
        shuffled = true;
        queue = behind.0 ++ current_entry ∷ ahead.0;
        current_index = length behind.0;
        random = ahead.1;
      })
set_shuffle w false q =
    if not q.shuffled
    then some q
    else if leb (length q.entries) 1
    then some (record q { shuffled = false })
    else do
      current_entry ← get_elem? q.queue q.current_index
      set_next_url w (record q {
        shuffled = false;
        queue = range_from 0 (length q.entries);
        current_index = current_entry;
      })

unfoldable pub seek : World → ℕ → Queue → Option Queue
seek w index q = do
  let q₁ = if ltb index (length q.queue) then record q { current_index = index } else q
  q₂ ← set_url w q₁
  q₃ ← set_next_url w q₂
  set_play_state w q.state q₃

unfoldable pub on_play_state : PlayState → Queue → Queue
on_play_state s q = tell (record q { state = s }) (observer_state s)

-- `!url.empty()`
unfoldable pub nonempty : Bytes → Bool
nonempty [] = false
nonempty (_ ∷ _) = true

-- `m_entries[m_queue[index]].flags |= PLAYED`
unfoldable pub mark_played : ℕ → Queue → Option Queue
mark_played index q = do
  k ← get_elem? q.queue index
  e ← get_elem? q.entries k
  some (record q { entries = set q.entries k (set_played e) })

-- The branch of `OnURL` for the expected next URL, which now plays at `index`.
unfoldable pub advance : World → ℕ → Queue → Option Queue
advance w index q = do
  q' ← mark_played index (record q {
    current_index = index;
    expected_url = q.expected_next_url;
    expected_next_url = [];
  })
  set_next_url w (tell q' (observer_time_code index 0))

unfoldable pub on_url : World → Bytes → Queue → Option Queue
on_url w url q =
    if same_text url q.expected_url && nonempty url
    then (mark_played q.current_index q >>= λ q'.
        some (tell q' (observer_time_code q.current_index 0)))
    else if same_text url q.expected_next_url && nonempty url
    then advance w (add32 q.current_index 1) q
    else some (on_play_state stop q)

unfoldable pub on_time_code : ℕ → Queue → Queue
on_time_code s q =
    if ltb q.current_index (length q.entries)
    then tell q (observer_time_code q.current_index s)
    else q
