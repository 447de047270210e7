-- ===== src/Stream/State.antt =====
-- libutil/stream.h and stream.cpp: the virtual methods of `Stream`, and `SeekableStream`.
use chorale.Base.{ℕ, ◌+◌, Bool, false, Option, none, some, Bytes, length}

-- The return code of a call that failed, or what a call that succeeded gives.
pub data Reply {ℓ} (A : Type ℓ) : Type ℓ where
  failed : ℕ → Reply A
  done : A → Reply A

-- The numbers of `errno.h` on Linux.
abbrev pub eperm : ℕ
eperm = 1

abbrev pub eio : ℕ
eio = 5

abbrev pub eacces : ℕ
eacces = 13

abbrev pub einval : ℕ
einval = 22

abbrev pub espipe : ℕ
espipe = 29

-- The methods of a class of streams whose objects have the state `S`. `none` is a fault, such as a read
-- out of bounds. `read s n` gives the bytes that were put in the buffer, `write` the number written.
pub record Methods (S : Type 0) : Type 0 where
  pub readable : Bool
  pub writable : Bool
  pub seekable : Bool
  pub read : S → ℕ → Option (Reply Bytes × S)
  pub write : S → Bytes → Option (Reply ℕ × S)
  pub seek : S → ℕ → ℕ × S
  pub tell : S → ℕ
  pub get_length : S → ℕ
  pub set_length : S → ℕ → ℕ × S
  pub read_at : S → ℕ → ℕ → Option (Reply Bytes × S)
  pub write_at : S → ℕ → Bytes → Option (Reply ℕ × S)

-- The methods that `Stream` itself gives; a class overrides some.
unfoldable pub base_stream : {S : Type 0} → Methods S
base_stream = record {
  readable = false;
  writable = false;
  seekable = false;
  read = λ s n. some (failed eperm, s);
  write = λ s bs. some (failed eperm, s);
  seek = λ s pos. (espipe, s);
  tell = λ s. 0;
  get_length = λ s. 0;
  set_length = λ s n. (espipe, s);
  read_at = λ s pos n. some (failed espipe, s);
  write_at = λ s pos bs. some (failed espipe, s);
}

-- `SeekableStream`: the position, beside the state of the class that derives from it.
pub record Seekable (S : Type 0) : Type 0 where
  pub pos : ℕ
  pub inner : S

module _ {S : Type 0} where
  -- `Read` and `Write` of `SeekableStream`, given the derived class's `ReadAt` and `WriteAt`.
  unfoldable pub seekable_read :
      (S → ℕ → ℕ → Option (Reply Bytes × S)) → Seekable S → ℕ → Option (Reply Bytes × Seekable S)
  seekable_read read_at s n = elim (read_at s.inner s.pos n) [
    | none ↦ none
    | some (failed rc, i) ↦ some (failed rc, record s { inner = i })
    | some (done bs, i) ↦ some (done bs, record { pos = s.pos + length bs; inner = i })
  ]

  unfoldable pub seekable_write :
      (S → ℕ → Bytes → Option (Reply ℕ × S)) → Seekable S → Bytes → Option (Reply ℕ × Seekable S)
  seekable_write write_at s bs = elim (write_at s.inner s.pos bs) [
    | none ↦ none
    | some (failed rc, i) ↦ some (failed rc, record s { inner = i })
    | some (done n, i) ↦ some (done n, record { pos = s.pos + n; inner = i })
  ]
