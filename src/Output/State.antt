-- ===== src/Output/State.antt =====
-- liboutput/queue.h and queue.cpp: the members of `Queue` and `Queue::Impl`, and the two private
-- methods that hand a URL to the player. `none` is undefined behaviour: an index out of range or
-- a null database. The databases, the engine of `std::shuffle` and the player are outside:
-- what they return is a field of `World`, and what they are told is the list `calls`.
use chorale.Base.{
  Bytes, c_str, ℕ, ◌+◌, ◌/◌, ◌%◌, ◌*◌, ◌≡◌, Bool, false, Option, some, List, [], ◌∷◌, ◌++◌, length,
  get_elem?, set, count, leb, ◌==◌, add32, if◌then◌else◌, ◌>>=◌,
}

pub data PlayState : Type 0 where
  stop pause play : PlayState

-- `db` is the handle of a database; `none` is a null pointer.
pub record Entry : Type 0 where
  pub db : Option ℕ
  pub id : ℕ
  pub flags : ℕ

-- `flags & PLAYED`
abbrev pub played : Entry → Bool
played e = e.flags % 2 == 1

-- `flags |= PLAYED`
abbrev pub set_played : Entry → Entry
set_played e = record e { flags = e.flags / 2 * 2 + 1 }

-- What the queue tells the player, and its own observers, in order.
pub data Call : Type 0 where
  player_url : Bytes → Bytes → Call
  player_next_url : Bytes → Bytes → Call
  player_state : PlayState → Call
  observer_state : PlayState → Call
  observer_time_code : ℕ → ℕ → Call

-- `random` is the state of `m_random`; `expected_url`, `expected_next_url` and `state` are members
-- of `Impl`.
pub record Queue : Type 0 where
  pub current_index : ℕ
  pub queue : List ℕ
  pub entries : List Entry
  pub shuffled : Bool
  pub random : ℕ
  pub expected_url : Bytes
  pub expected_next_url : Bytes
  pub state : PlayState
  pub calls : List Call

-- `url db id` is `db->GetURL(id)`. `metadata db id` is the DIDL text of the record with that id, or
-- empty. `shuffle` is `std::shuffle` over an engine: the list in its new order, and the new engine.
pub record World : Type 0 where
  pub url : ℕ → ℕ → Bytes
  pub metadata : ℕ → ℕ → Bytes
  pub shuffle : ℕ → List ℕ → List ℕ × ℕ

-- What the standard says of `std::shuffle`: it permutes.
abbrev pub Permutes : World → Type 0
Permutes w = (g a : ℕ) (xs : List ℕ) → count a (w.shuffle g xs).0 ≡ count a xs

-- The constructor; `seed` is the engine's state after seeding.
unfoldable pub empty : ℕ → Queue
empty seed = record {
  current_index = 0;
  queue = [];
  entries = [];
  shuffled = false;
  random = seed;
  expected_url = [];
  expected_next_url = [];
  state = stop;
  calls = [];
}

-- The entry at a place of the queue.
unfoldable pub entry_at : Queue → ℕ → Option Entry
entry_at q i = do k ← get_elem? q.queue i; get_elem? q.entries k

unfoldable pub set_url : World → Queue → Option Queue
unfolding entry_at
set_url w q = if leb (length q.entries) q.current_index then some q else do
  e ← entry_at q q.current_index
  db ← e.db
  let url = w.url db e.id
  some (record q {
    expected_url = c_str url;
    calls = q.calls ++ player_url url (w.metadata db e.id) ∷ [];
  })

unfoldable pub set_next_url : World → Queue → Option Queue
unfolding entry_at
set_next_url w q = if leb (length q.entries) (add32 q.current_index 1) then some q else do
  e ← entry_at q (add32 q.current_index 1)
  db ← e.db
  let url = w.url db e.id
  some (record q {
    expected_next_url = c_str url;
    calls = q.calls ++ player_next_url url (w.metadata db e.id) ∷ [];
  })

-- `if (set) SetURL(); if (set_next) SetNextURL();`
unfoldable pub announce : World → Bool → Bool → Queue → Option Queue
announce w set set_next q = do
  q' ← if set then set_url w q else some q
  if set_next then set_next_url w q' else some q'
