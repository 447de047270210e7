-- ===== src/Stream/Examples.antt =====
-- The streams on concrete inputs: the source's own tests, and each theorem applied where its hypotheses hold.
use chorale.Base.{◌≡◌, refl, Option, none, some, [], ◌∷◌, arith, Bytes, codes, index_of}
use chorale.Stream.State.{Reply, done, Seekable, seekable_read}
use chorale.Stream.Loops.{read_all, copy_stream, read_line, read_line_from, earlier}
use chorale.Stream.Text.{string_stream, at, string_read_at}
use chorale.Stream.Partial.{partial_read_at}
use chorale.Stream.Memory.{
  new_memory, memory_write_at, ensure, chunk_at, chunk_from, lower_bound, previous,
}
use chorale.Stream.Lines.{LineReader, get_line, line_end, line_length}
use chorale.Stream.Whole.{read_all_lem, copy_stream_lem}
use chorale.Stream.Window.{partial_read_at-window}
use chorale.Stream.Lines.{get_line-total}
use chorale.Stream.Flat.{memory_read_at-flat}
use chorale.Base.{min, take, ℕ, ◌<◌, ◌≤◌}
use chorale.Stream.Memory.{Chunk, Memory, memory_read_at}
use chorale.Base.{length, get_elem?, ◌+◌, ◌-◌}

-- What a reply gives, or nothing.
abbrev given : {S : Type 0} → Option (Reply Bytes × S) → Option Bytes
given (some (done bs, s)) = some bs
given _ = none

lines_test :
    given (
      get_line string_stream 100 9
        (record { buffered = []; stream = at 0 (codes "GET / HTTP/1.0\r\n\r\n") }))
    ≡ some (codes "GET / HTTP/1.0")
unfolding get_line line_end line_length index_of string_stream seekable_read string_read_at
lines_test = refl

read_line_test : given (read_line string_stream 3 (at 0 (codes "one\ntwo"))) ≡ some (codes "one")
unfolding read_line read_line_from earlier index_of string_stream seekable_read string_read_at
read_line_test = refl

-- With chunks of four bytes, a write stops at the end of a chunk.
memory_test :
    memory_write_at 4 (new_memory 4 4) 2 (codes "abc")
    ≡ some (
      done 2,
      record {
        chunks =
            record { first = 0; data_bytes = 0 ∷ 0 ∷ codes "ab" }
            ∷ record { first = 4; data_bytes = 0 ∷ 0 ∷ 0 ∷ 0 ∷ [] }
            ∷ [];
        capacity = 8;
        size = 4;
      },
    )
unfolding memory_write_at new_memory ensure chunk_at chunk_from lower_bound previous
memory_test = refl

read_all_lem_example :
    read_all string_stream 2 (at 1 (codes "ABCD")) 2 [] ≡ some (0, codes "BC", at 3 (codes "ABCD"))
read_all_lem_example = read_all_lem 0 1 2 (codes "ABCD") (omega arith)

copy_stream_lem_example :
    copy_stream string_stream string_stream 4 (at 1 (codes "ABCD")) (at 1 (codes "x"))
    ≡ some (0, at 4 (codes "ABCD"), at 4 (codes "xBCD"))
copy_stream_lem_example = copy_stream_lem 4 1 (codes "ABCD") (codes "x") (omega arith) (omega arith)

partial_read_at-window_example :
    partial_read_at string_stream
      (record { begin = 4; end = 8; below = at 0 (codes "ABCDEFGHIJ") })
      1
      9
    ≡ some (done (codes "FGH"), record { begin = 4; end = 8; below = at 0 (codes "ABCDEFGHIJ") })
partial_read_at-window_example =
    partial_read_at-window 4 8 1 9 0 (codes "ABCDEFGHIJ") (omega arith) (omega arith) (omega arith)
      (omega arith)

get_line-total_example :
    (r : Reply Bytes × LineReader (Seekable Bytes)) × (get_line string_stream 8 9
        (record { buffered = []; stream = at 0 (codes "GET\r") })
      ≡ some r)
get_line-total_example =
    get_line-total 9 8 0 (codes "GET\r") [] (omega arith) (omega arith) (omega arith)

-- Two chunks of two bytes.
abbrev two_chunks : Memory
two_chunks = record {
  chunks =
      record { first = 0; data_bytes = codes "ab" }
      ∷ record { first = 2; data_bytes = codes "cd" }
      ∷ [];
  capacity = 4;
  size = 4;
}

memory_read_at-flat_example :
    (k : ℕ) × (i : ℕ) × (c : Chunk) × (get_elem? two_chunks.chunks i ≡ some c)
    × (c.first ≤ 1)
    × (1 < c.first + length c.data_bytes)
    × (k ≡ min (min 3 3) (c.first + length c.data_bytes - 1))
    × (0 < k)
    × (memory_read_at two_chunks 1 3 ≡ some (done (take k (codes "bcd")), two_chunks))
memory_read_at-flat_example =
    memory_read_at-flat two_chunks 1 3 (refl, (omega arith), (refl, (omega arith), refl))
      (omega arith) (omega arith) (omega arith)
