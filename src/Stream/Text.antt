-- ===== src/Stream/Text.antt =====
-- libutil/string_stream.cpp: a stream over a string.
use chorale.Base.{
  ℕ, ◌+◌, ◌-◌, ◌≤◌, ◌≡◌, true, Option, none, some, ◌++◌, Bytes, length, take, drop, replicate, ltb,
  if◌then◌else◌, arith,
}
use chorale.Stream.State.{
  Reply, done, Methods, base_stream, Seekable, seekable_read, seekable_write,
}

-- Past the end, `remain` wraps around and `memcpy` reads out of bounds.
unfoldable pub string_read_at : Bytes → ℕ → ℕ → Option (Reply Bytes × Bytes)
string_read_at text pos n =
    if ltb (length text) pos then none else some (done (take n (drop pos text)), text)

-- Past the end, `std::string::replace` throws.
unfoldable pub string_write_at : Bytes → ℕ → Bytes → Option (Reply ℕ × Bytes)
string_write_at text pos bs =
    if ltb (length text) pos
    then none
    else some (done (length bs), take pos text ++ bs ++ drop (pos + length bs) text)

unfoldable pub string_set_length : Seekable Bytes → ℕ → ℕ × Seekable Bytes
string_set_length s n =
    if ltb (length s.inner) n
    then (0, record s { inner = s.inner ++ replicate (n - length s.inner) b' ' })
    else (0, record { inner = take n s.inner; pos = if ltb n s.pos then n else s.pos })

unfoldable pub string_stream : Methods (Seekable Bytes)
unfolding base_stream string_set_length seekable_read seekable_write string_read_at string_write_at
string_stream = record (base_stream) {
  readable = true;
  writable = true;
  seekable = true;
  read = seekable_read string_read_at;
  write = seekable_write string_write_at;
  seek = λ s pos. (0, record s { pos = pos });
  tell = λ s. s.pos;
  get_length = λ s. length s.inner;
  set_length = string_set_length;
  read_at = λ s pos n. elim (string_read_at s.inner pos n) [
    | none ↦ none
    | some (r, text) ↦ some (r, record s { inner = text })
  ];
  write_at = λ s pos bs. elim (string_write_at s.inner pos bs) [
    | none ↦ none
    | some (r, text) ↦ some (r, record s { inner = text })
  ];
}

-- A string stream at a place.
abbrev pub at : ℕ → Bytes → Seekable Bytes
at pos text = record { pos = pos; inner = text }

pub string_read :
    (pos n : ℕ) (text : Bytes)
    → pos ≤ length text
    → string_stream.read (at pos text) n
      ≡ some (done (take n (drop pos text)), at (pos + length (take n (drop pos text))) text)
unfolding string_stream seekable_read string_read_at
string_read pos n text h = ground arith

pub string_write :
    (pos : ℕ) (text bs : Bytes)
    → pos ≤ length text
    → string_stream.write (at pos text) bs
      ≡ some (
        done (length bs),
        at (pos + length bs) (take pos text ++ bs ++ drop (pos + length bs) text),
      )
unfolding string_stream seekable_write string_write_at
string_write pos text bs h = ground arith
