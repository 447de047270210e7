-- ===== src/Stream/Memory.antt =====
-- libutil/memory_stream.cpp: a stream kept in chunks of memory. `roundup` is the constant `ROUNDUP`, 1 MiB in
-- the source. `none` is an iterator before the first chunk, or an offset past the end of a chunk.
use chorale.Base.{
  ℕ, zero, suc, ◌+◌, ◌-◌, ◌*◌, ◌/◌, min, Option, none, some, List, [], ◌∷◌, ◌++◌, Bytes, length,
  get_elem?, set, take, drop, replicate, ltb, leb, ◌==◌, ◌||◌, if◌then◌else◌, ◌>>=◌, add64,
}
use chorale.Stream.State.{Reply, done, Seekable}

-- An entry of the map `m_chunks`; the chunk's `len` is the length of `data`.
pub record Chunk : Type 0 where
  pub first : ℕ
  pub data_bytes : Bytes

-- The map is in the order of its keys. A new key is always the greatest.
pub record Memory : Type 0 where
  pub chunks : List Chunk
  pub capacity : ℕ
  pub size : ℕ

unfoldable pub ensure : ℕ → ℕ → Memory → Memory
ensure roundup sz m =
    if ltb m.capacity sz
    then (let more = (sz - m.capacity + (roundup - 1)) / roundup * roundup in
        record {
          chunks = m.chunks ++ record { first = m.capacity; data_bytes = replicate more 0 } ∷ [];
          capacity = add64 m.capacity more;
          size = m.size;
        })
    else m

-- The constructor, with its hint.
unfoldable pub new_memory : ℕ → ℕ → Memory
unfolding ensure
new_memory roundup hint =
    let m : Memory = record { chunks = []; capacity = 0; size = 0 } in
    if hint == 0 then m else ensure roundup hint m

-- `m_chunks.lower_bound(pos)`, as an index.
unfoldable pub lower_bound : List Chunk → ℕ → ℕ
lower_bound [] pos = 0
lower_bound (c ∷ cs) pos = if leb pos c.first then 0 else suc (lower_bound cs pos)

-- `--i`
unfoldable pub previous : ℕ → Option ℕ
previous zero = none
previous (suc i) = some i

-- The chunk that holds `pos`, where the search gave the index `i`.
unfoldable pub chunk_from : List Chunk → ℕ → ℕ → Option (ℕ × Chunk)
unfolding previous
chunk_from cs pos i =
    let before : Option (ℕ × Chunk) = (do k ← previous i; c ← get_elem? cs k; some (k, c)) in
    elim (get_elem? cs i) [
      | none ↦ before
      | some c ↦ if ltb pos c.first then before else some (i, c)
    ]

unfoldable pub chunk_at : List Chunk → ℕ → Option (ℕ × Chunk)
unfolding lower_bound chunk_from
chunk_at cs pos = chunk_from cs pos (lower_bound cs pos)

unfoldable pub memory_read_at : Memory → ℕ → ℕ → Option (Reply Bytes × Memory)
memory_read_at m pos n = if (n == 0) || leb m.size pos then some (done [], m) else do
  found ← chunk_at m.chunks pos
  let chunkpos = pos - found.1.first
  (if ltb (length found.1.data_bytes) chunkpos
      then none
      else some (
        done (
            take (min (min n (m.size - pos)) (length found.1.data_bytes - chunkpos))
              (drop chunkpos found.1.data_bytes)),
        m,
      ))

-- The bytes `bs` in place of those at `pos`.
abbrev pub overwrite : ℕ → Bytes → Bytes → Bytes
overwrite pos bs old = take pos old ++ bs ++ drop (pos + length bs) old

unfoldable pub memory_write_at : ℕ → Memory → ℕ → Bytes → Option (Reply ℕ × Memory)
unfolding ensure chunk_at
memory_write_at roundup m₀ pos bs =
    let m = ensure roundup (add64 pos (length bs)) m₀ in
    if length bs == 0 then some (done 0, m) else do
      found ← chunk_at m.chunks pos
      let chunkpos = pos - found.1.first
      let nwrite = min (length bs) (length found.1.data_bytes - chunkpos)
      (if leb (length found.1.data_bytes) chunkpos
          then none
          else some (
            done nwrite,
            record m {
              size = if ltb m.size (pos + nwrite) then pos + nwrite else m.size;
              chunks = set m.chunks found.0 (record (found.1) {
                data_bytes = overwrite chunkpos (take nwrite bs) found.1.data_bytes;
              });
            },
          ))

unfoldable pub memory_set_length : ℕ → Seekable Memory → ℕ → ℕ × Seekable Memory
unfolding ensure
memory_set_length roundup s pos =
    let m = record (ensure roundup pos s.inner) { size = pos } in
    (0, record { inner = m; pos = if ltb pos s.pos then pos else s.pos })
