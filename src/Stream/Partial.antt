-- ===== src/Stream/Partial.antt =====
-- libutil/partial_stream.cpp: a stream over a part of another.
use chorale.Base.{
  ℕ, Option, none, some, [], Bytes, length, take, ltb, ◌==◌, if◌then◌else◌, add64, sub64, ◌⊎◌, inl,
  inr,
}
use chorale.Stream.State.{Reply, failed, done, Methods, einval}

-- `PartialSeekableStream`, over the state of the stream below.
pub record PartialSeekable (S : Type 0) : Type 0 where
  pub begin : ℕ
  pub end : ℕ
  pub below : S

-- `PartialStream`: how much is left.
pub record Partial (S : Type 0) : Type 0 where
  pub left : ℕ
  pub stream : S

-- How much of `len` bytes at `pos` lies before `end`. The sums wrap at 64 bits.
unfoldable pub clip : ℕ → ℕ → ℕ → ℕ → ℕ
clip begin end pos len =
    if ltb end (add64 (add64 pos len) begin) then sub64 (sub64 end pos) begin else len

module _ {S : Type 0} (m : Methods S) where
  unfoldable pub partial_read_at :
      PartialSeekable S → ℕ → ℕ → Option (Reply Bytes × PartialSeekable S)
  partial_read_at p pos n =
      elim (m.read_at p.below (add64 pos p.begin) (clip p.begin p.end pos n)) [
        | none ↦ none
        | some (r, s) ↦ some (r, record p { below = s })
      ]

  unfoldable pub partial_write_at :
      PartialSeekable S → ℕ → Bytes → Option (Reply ℕ × PartialSeekable S)
  partial_write_at p pos bs =
      elim (m.write_at p.below (add64 pos p.begin) (take (clip p.begin p.end pos (length bs)) bs)) [
        | none ↦ none
        | some (r, s) ↦ some (r, record p { below = s })
      ]

  unfoldable pub partial_get_length : PartialSeekable S → ℕ
  partial_get_length p = sub64 p.end p.begin

  unfoldable pub partial_set_length : PartialSeekable S → ℕ → ℕ × PartialSeekable S
  partial_set_length p n = (einval, p)

  unfoldable pub partial_read : Partial S → ℕ → Option (Reply Bytes × Partial S)
  partial_read p n =
      let len = if ltb p.left n then p.left else n in
      if len == 0 then some (done [], p) else elim (m.read p.stream len) [
        | none ↦ none
        | some (failed rc, s) ↦ some (failed rc, record p { stream = s })
        | some (done bs, s) ↦ some (done bs, record { left = sub64 p.left (length bs); stream = s })
      ]

  unfoldable pub partial_write : Partial S → Bytes → Option (Reply ℕ × Partial S)
  partial_write p bs =
      let len = if ltb p.left (length bs) then p.left else length bs in
      elim (m.write p.stream (take len bs)) [
        | none ↦ none
        | some (failed rc, s) ↦ some (failed rc, record p { stream = s })
        | some (done n, s) ↦ some (done n, record { left = sub64 p.left n; stream = s })
      ]

  -- `CreatePartialStream`: which of the two classes wraps the stream.
  unfoldable pub create_partial_stream : S → ℕ → ℕ → PartialSeekable S ⊎ Partial S
  create_partial_stream s begin end =
      if m.seekable
      then inl (record { begin = begin; end = end; below = s })
      else inr (record { left = end; stream = s })
