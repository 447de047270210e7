-- ===== src/Stream/Flat.antt =====
-- libutil/memory_stream.cpp: the chunks hold one flat sequence of bytes, and `ReadAt` reads that.
use chorale.Base.{
  ℕ, zero, suc, ◌+◌, ◌-◌, ◌≡◌, ◌≤◌, ◌<◌, refl, sym, ap, ◌∙◌, min, true, false, ◌||◌, some, List, [],
  ◌∷◌, ◌++◌, Bytes, length, get_elem?, take, drop, ltb, leb, ◌==◌, if◌then◌else◌, arith, Bool-cases,
  Option-cases, inl, inr, if_true, if_false, length-append, length-drop,
}
use mathlib.Core.Option.{some-injective}
use chorale.Stream.State.{done}
use chorale.Stream.Memory.{
  Chunk, Memory, lower_bound, previous, chunk_from, chunk_at, memory_read_at,
}

-- The bytes of all chunks.
abbrev pub flat : List Chunk → Bytes
flat [] = []
flat (c ∷ cs) = c.data_bytes ++ flat cs

-- Chunks that follow one another from `start` on, none of them empty.
abbrev pub Joined : ℕ → List Chunk → Type 0
Joined start [] = start ≡ start
Joined start (c ∷ cs) =
    (c.first ≡ start) × (0 < length c.data_bytes) × Joined (start + length c.data_bytes) cs

-- What the search is to find: a chunk that starts at or before `pos`, ends behind it, and holds the bytes there.
pub record Found (start : ℕ) (cs : List Chunk) (pos : ℕ) : Type 0 where
  pub index : ℕ
  pub chunk : Chunk
  pub here : get_elem? cs index ≡ some chunk
  pub starts : chunk.first ≤ pos
  pub ends : pos < chunk.first + length chunk.data_bytes
  pub bytes :
      (rest : Bytes) × (drop (pos - start) (flat cs)
        ≡ drop (pos - chunk.first) chunk.data_bytes ++ rest)
  pub next : (c : Chunk) → get_elem? cs (suc index) ≡ some c → pos < c.first
  pub bound : lower_bound cs pos ≡ (if chunk.first == pos then index else suc index)

drop-append_left : (n : ℕ) (xs ys : Bytes) → n ≤ length xs → drop n (xs ++ ys) ≡ drop n xs ++ ys
drop-append_left zero xs ys h = refl
drop-append_left (suc n) [] ys h = absurd (omega arith)
drop-append_left (suc n) (x ∷ xs) ys h = drop-append_left n xs ys (omega arith)

drop-append_right : (n : ℕ) (xs ys : Bytes) → drop (length xs + n) (xs ++ ys) ≡ drop n ys
drop-append_right n [] ys = let e : 0 + n ≡ n = omega arith in rw e refl
drop-append_right n (x ∷ xs) ys =
    let e : suc (length xs) + n ≡ suc (length xs + n) = omega arith in
    rw e (drop-append_right n xs ys)

lower_bound-zero :
    (start pos : ℕ) (cs : List Chunk) → Joined start cs → pos ≤ start → lower_bound cs pos ≡ 0
unfolding lower_bound
lower_bound-zero start pos [] j h = refl
lower_bound-zero start pos (c ∷ cs) j h = ground (arith, j.0, h)

head_first :
    (start : ℕ) (cs : List Chunk) (pos : ℕ)
    → Joined start cs
    → pos < start
    → (c : Chunk) → get_elem? cs 0 ≡ some c
    → pos < c.first
head_first start [] pos j h c e = cc
head_first start (d ∷ cs) pos j h c e =
    let same : d ≡ c = some-injective _ _ e in rw (← same, j.0) h

bound_here :
    (start : ℕ) (c : Chunk) (cs : List Chunk) (pos : ℕ)
    → Joined start (c ∷ cs)
    → start ≤ pos
    → ltb pos (start + length c.data_bytes) ≡ true
    → lower_bound (c ∷ cs) pos ≡ (if c.first == pos then 0 else 1)
unfolding lower_bound
bound_here start c cs pos j h inside =
    let none_after =
      lower_bound-zero (start + length c.data_bytes) pos cs j.2 (ground (arith, inside)) in
    ground (arith, none_after, j.0, h)

bound_later :
    (c : Chunk) (cs : List Chunk) (pos index : ℕ) (chunk : Chunk)
    → c.first < pos
    → lower_bound cs pos ≡ (if chunk.first == pos then index else suc index)
    → lower_bound (c ∷ cs) pos ≡ (if chunk.first == pos then suc index else suc (suc index))
unfolding lower_bound
bound_later c cs pos index chunk h e = ground (arith, e, h)

later :
    (start : ℕ) (c : Chunk) (cs : List Chunk) (pos : ℕ)
    → start + length c.data_bytes ≤ pos
    → drop (pos - start) (c.data_bytes ++ flat cs)
      ≡ drop (pos - (start + length c.data_bytes)) (flat cs)
later start c cs pos h =
    let split_pos : pos - start ≡ length c.data_bytes + (pos - (start + length c.data_bytes)) =
      omega (arith, h) in
    rw split_pos (drop-append_right (pos - (start + length c.data_bytes)) c.data_bytes (flat cs))

found :
    (start : ℕ) (cs : List Chunk) (pos : ℕ)
    → Joined start cs
    → start ≤ pos
    → pos < start + length (flat cs)
    → Found start cs pos
found start [] pos j h k = absurd (omega arith)
found start (c ∷ cs) pos j h k = elim (Bool-cases (ltb pos (start + length c.data_bytes))) [
  | inl inside ↦ record {
    index = 0;
    chunk = c;
    here = refl;
    starts = omega (arith, j.0, h);
    ends = ground (arith, j.0, inside);
    bytes = (
      flat cs,
      rw (j.0) (drop-append_left (pos - start) c.data_bytes (flat cs) (ground (arith, h, inside))),
    );
    next = head_first (start + length c.data_bytes) cs pos j.2 (ground (arith, inside));
    bound = bound_here start c cs pos j h inside;
  }
  | inr beyond ↦
      let f =
        found (start + length c.data_bytes) cs pos j.2 (ground (arith, beyond))
          (omega (arith, k, length-append c.data_bytes (flat cs))) in
      record {
        index = suc f.index;
        chunk = f.chunk;
        here = f.here;
        starts = f.starts;
        ends = f.ends;
        bytes = (f.bytes.0, later start c cs pos (ground (arith, beyond)) ∙ f.bytes.1);
        next = f.next;
        bound = bound_later c cs pos f.index f.chunk (ground (arith, j.0, j.1, beyond)) f.bound;
      }
]

chunk_from-here :
    (cs : List Chunk) (pos i : ℕ) (c : Chunk)
    → get_elem? cs i ≡ some c
    → c.first ≤ pos
    → chunk_from cs pos i ≡ some (i, c)
unfolding chunk_from
chunk_from-here cs pos i c e h =
    let not_before : ltb pos c.first ≡ false = ground (arith, h) in
    rw (chunk_from, e, not_before) refl

chunk_from-after :
    (cs : List Chunk) (pos i : ℕ) (c : Chunk)
    → get_elem? cs i ≡ some c
    → ((d : Chunk) → get_elem? cs (suc i) ≡ some d → pos < d.first)
    → chunk_from cs pos (suc i) ≡ some (i, c)
unfolding chunk_from previous
chunk_from-after cs pos i c e h = elim (Option-cases (get_elem? cs (suc i))) [
  | inl last ↦ rw (chunk_from, last, e) refl
  | inr (d, after) ↦
      let behind : ltb pos d.first ≡ true = ground (arith, h d after) in
      rw (chunk_from, after, behind, e) refl
]

-- The chunk that the search gives is the one that holds `pos`.
chunk_at_lem :
    (start : ℕ) (cs : List Chunk) (pos : ℕ) (f : Found start cs pos)
    → chunk_at cs pos ≡ some (f.index, f.chunk)
unfolding chunk_at
chunk_at_lem start cs pos f = elim (Bool-cases (f.chunk.first == pos)) [
  | inl exact ↦
      ap (chunk_from cs pos) (f.bound ∙ if_true _ _ exact)
      ∙ chunk_from-here cs pos f.index f.chunk f.here f.starts
  | inr inner ↦
      ap (chunk_from cs pos) (f.bound ∙ if_false _ _ inner)
      ∙ chunk_from-after cs pos f.index f.chunk f.here f.next
]

take-prefix : (k : ℕ) (xs ys : Bytes) → k ≤ length xs → take k (xs ++ ys) ≡ take k xs
take-prefix zero xs ys h = refl
take-prefix (suc k) [] ys h = absurd (omega arith)
take-prefix (suc k) (x ∷ xs) ys h = ap (◌∷◌ x) (take-prefix k xs ys (omega arith))

-- A read of one byte or more inside the stream, over chunks that follow one another and hold all of it, gives bytes of
-- the flat sequence from there on, and changes nothing: as many as were asked for, or as there are, or as are left in the
-- chunk that holds the position, whichever is least, and at least one.
pub memory_read_at-flat :
    (m : Memory) (pos n : ℕ)
    → Joined 0 m.chunks
    → m.size ≤ length (flat m.chunks)
    → pos < m.size
    → 0 < n
    → (k : ℕ) × (i : ℕ) × (c : Chunk) × (get_elem? m.chunks i ≡ some c)
      × (c.first ≤ pos)
      × (pos < c.first + length c.data_bytes)
      × (k ≡ min (min n (m.size - pos)) (c.first + length c.data_bytes - pos))
      × (0 < k)
      × (memory_read_at m pos n ≡ some (done (take k (drop pos (flat m.chunks))), m))
unfolding memory_read_at
memory_read_at-flat m pos n j fits inside some_asked =
    let f = found 0 m.chunks pos j (omega arith) (omega (arith, fits, inside)) in
    let offset = pos - f.chunk.first in
    let room = length f.chunk.data_bytes - offset in
    let k = min (min n (m.size - pos)) room in
    let asked : ((n == 0) || leb m.size pos) ≡ false = ground (arith, inside, some_asked) in
    let within : ltb (length f.chunk.data_bytes) offset ≡ false =
      ground (arith, f.ends, f.starts) in
    let from_start : pos - 0 ≡ pos = omega arith in
    let from_chunk : take k (drop pos (flat m.chunks)) ≡ take k (drop offset f.chunk.data_bytes) =
      ap (λ p. take k (drop p (flat m.chunks))) (sym from_start)
      ∙ ap (take k) f.bytes.1
      ∙ take-prefix k (drop offset f.chunk.data_bytes) f.bytes.0
          (omega (arith, length-drop offset f.chunk.data_bytes)) in
    (
      k,
      f.index,
      f.chunk,
      f.here,
      f.starts,
      f.ends,
      omega (arith, f.ends, f.starts),
      omega (arith, f.ends, f.starts, inside, some_asked),
      rw (memory_read_at, asked, chunk_at_lem 0 m.chunks pos f, within, from_chunk) refl,
    )
