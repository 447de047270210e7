-- ===== src/Stream/Loops.antt =====
-- libutil/stream.cpp: the loops that `Stream` builds from its virtual methods. Each round of a loop is
-- counted by the first argument; `none` is a loop out of rounds or a fault of the stream.
use chorale.Base.{
  ℕ, zero, suc, ◌+◌, ◌-◌, Option, none, some, [], ◌∷◌, ◌++◌, Bytes, length, take, drop, ltb, not,
  if◌then◌else◌, index_of,
}
use chorale.Stream.State.{Reply, failed, done, Methods, eio, eacces, espipe}

module _ {S : Type 0} (m : Methods S) where
  -- The code, and the state of the stream after.
  unfoldable pub write_all : ℕ → S → Bytes → Option (ℕ × S)
  write_all zero s bs = none
  write_all (suc n) s [] = some (0, s)
  write_all (suc n) s (b ∷ bs) = elim (m.write s (b ∷ bs)) [
    | none ↦ none
    | some (failed rc, s') ↦ some (rc, s')
    | some (done zero, s') ↦ some (eio, s')
    | some (done (suc k), s') ↦ write_all n s' (drop k bs)
  ]

  -- The code, what has been put in the buffer, and the state after.
  unfoldable pub read_all : ℕ → S → ℕ → Bytes → Option (ℕ × Bytes × S)
  read_all zero s len got = none
  read_all (suc n) s zero got = some (0, got, s)
  read_all (suc n) s (suc k) got = elim (m.read s (suc k)) [
    | none ↦ none
    | some (failed rc, s') ↦ some (rc, got, s')
    | some (done [], s') ↦ some (eio, got, s')
    | some (done (b ∷ bs), s') ↦ read_all n s' (k - length bs) (got ++ b ∷ bs)
  ]

  unfoldable pub write_all_at_from : ℕ → S → ℕ → Bytes → Option (ℕ × S)
  write_all_at_from zero s pos bs = none
  write_all_at_from (suc n) s pos [] = some (0, s)
  write_all_at_from (suc n) s pos (b ∷ bs) = elim (m.write_at s pos (b ∷ bs)) [
    | none ↦ none
    | some (failed rc, s') ↦ some (rc, s')
    | some (done zero, s') ↦ some (eio, s')
    | some (done (suc k), s') ↦ write_all_at_from n s' (pos + suc k) (drop k bs)
  ]

  unfoldable pub write_all_at : ℕ → S → ℕ → Bytes → Option (ℕ × S)
  write_all_at n s pos bs =
      if not m.writable
      then some (eacces, s)
      else if not m.seekable
      then some (espipe, s)
      else write_all_at_from n s pos bs

  -- The lesser of two places, where both are there.
  unfoldable pub earlier : Option ℕ → Option ℕ → Option ℕ
  earlier none lf = lf
  earlier (some a) none = some a
  earlier (some a) (some b) = if ltb b a then some b else some a

  -- The loop of `ReadLine`, from the position `pos`, with `line` read so far.
  unfoldable pub read_line_from : ℕ → S → ℕ → Bytes → Option (Reply Bytes × S)
  read_line_from zero s pos line = none
  read_line_from (suc n) s pos line = elim (m.read s 1024) [
    | none ↦ none
    | some (failed rc, s') ↦ some (failed rc, s')
    | some (done [], s') ↦ some (done line, s')
    | some (done (b ∷ bs), s') ↦ elim (earlier (index_of 0 (b ∷ bs)) (index_of 10 (b ∷ bs))) [
      | some k ↦ some (
        done (line ++ take k (b ∷ bs)),
        (m.seek s' (pos + length (line ++ take k (b ∷ bs)) + 1)).1,
      )
      | none ↦ read_line_from n s' pos (line ++ b ∷ bs)
    ]
  ]

  unfoldable pub read_line : ℕ → S → Option (Reply Bytes × S)
  read_line n s =
      if not m.readable
      then some (failed eacces, s)
      else if not m.seekable
      then some (failed espipe, s)
      else read_line_from n s (m.tell s) []

  unfoldable pub discard_stream : ℕ → S → Option (ℕ × S)
  discard_stream zero s = none
  discard_stream (suc n) s = elim (m.read s 8192) [
    | none ↦ none
    | some (failed rc, s') ↦ some (rc, s')
    | some (done [], s') ↦ some (0, s')
    | some (done (b ∷ bs), s') ↦ discard_stream n s'
  ]

module _ {S T : Type 0} (from : Methods S) (to : Methods T) where
  -- `CopyStream(Stream*, Stream*)`. An empty read ends it, after a `WriteAll` of nothing.
  unfoldable pub copy_stream : ℕ → S → T → Option (ℕ × S × T)
  copy_stream zero s t = none
  copy_stream (suc n) s t = elim (from.read s 8192) [
    | none ↦ none
    | some (failed rc, s') ↦ some (rc, s', t)
    | some (done [], s') ↦ some (0, s', t)
    | some (done (b ∷ bs), s') ↦ elim (write_all to (suc (length (b ∷ bs))) t (b ∷ bs)) [
      | none ↦ none
      | some (zero, t') ↦ copy_stream n s' t'
      | some (suc rc, t') ↦ some (suc rc, s', t')
    ]
  ]

  -- `CopyStream(SeekableStream*, Stream*)`, from the position `pos` on.
  unfoldable pub copy_stream_at : ℕ → S → ℕ → T → Option (ℕ × S × T)
  copy_stream_at zero s pos t = none
  copy_stream_at (suc n) s pos t = elim (from.read_at s pos 8192) [
    | none ↦ none
    | some (failed rc, s') ↦ some (rc, s', t)
    | some (done [], s') ↦ some (0, s', t)
    | some (done (b ∷ bs), s') ↦ elim (write_all to (suc (length (b ∷ bs))) t (b ∷ bs)) [
      | none ↦ none
      | some (zero, t') ↦ copy_stream_at n s' (pos + length (b ∷ bs)) t'
      | some (suc rc, t') ↦ some (suc rc, s', t')
    ]
  ]
