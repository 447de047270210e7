-- ===== src/Stream/Lines.antt =====
-- libutil/line_reader.cpp: lines that end in a carriage return, read through a buffer of `max_line` bytes.
use chorale.Base.{
  ℕ, zero, suc, ◌+◌, ◌-◌, ◌≡◌, ◌≤◌, ◌<◌, refl, Option, none, some, [], ◌∷◌, ◌++◌, Bytes, length,
  get_elem?, take, drop, ltb, ◌==◌, arith, Option-cases, Bool-cases, List-cases, ap, min,
  length-take, length-drop, length-append, inl, inr, if◌then◌else◌, index_of,
}
use chorale.Stream.State.{Reply, failed, done, Methods, Seekable, eio}
use chorale.Stream.Text.{string_stream, at, string_read}

-- `m_buffer`, as far as `m_buffered` goes, and the stream below.
pub record LineReader (S : Type 0) : Type 0 where
  pub buffered : Bytes
  pub stream : S

-- Where the first carriage return is, unless it is missing or the last byte: then more is needed to tell
-- whether a line feed follows.
unfoldable pub line_end : Bytes → Option ℕ
line_end buffer = elim (index_of b'\r' buffer) [
  | none ↦ none
  | some k ↦ if suc k == length buffer then none else some k
]

-- How many bytes a line whose carriage return is at `k` takes from the buffer.
unfoldable pub line_length : Bytes → ℕ → ℕ
line_length buffer k = elim (get_elem? buffer (suc k)) [
  | none ↦ suc k
  | some c ↦ if c == b'\n' then suc (suc k) else suc k
]

module _ {S : Type 0} (m : Methods S) (max_line : ℕ) where
  unfoldable pub get_line : ℕ → LineReader S → Option (Reply Bytes × LineReader S)
  get_line zero r = none
  get_line (suc n) r = elim (line_end r.buffered) [
    | some k ↦ some (
      done (take k r.buffered),
      record r { buffered = drop (line_length r.buffered k) r.buffered },
    )
    | none ↦
        if length r.buffered == max_line
        then some (done r.buffered, record r { buffered = [] })
        else elim (m.read r.stream (max_line - length r.buffered)) [
          | none ↦ none
          | some (failed rc, s) ↦ some (failed rc, record r { stream = s })
          | some (done [], s) ↦ some (failed eio, record r { stream = s })
          | some (done (b ∷ bs), s) ↦
              get_line n (record { buffered = r.buffered ++ b ∷ bs; stream = s })
        ]
  ]

unfoldable pub read_leftovers : {S : Type 0} → LineReader S → ℕ → Bytes × LineReader S
read_leftovers r n =
    let k = if ltb (length r.buffered) n then length r.buffered else n in
    (take k r.buffered, record r { buffered = drop k r.buffered })

-- `GetLine` on a string, from a place within it and with no more than `max_line` bytes in the buffer, ends within as
-- many rounds as there is room in the buffer, and one more.
pub get_line-total :
    (n max_line pos : ℕ) (text buffered : Bytes)
    → pos ≤ length text
    → length buffered ≤ max_line
    → max_line - length buffered < n
    → (r : Reply Bytes × LineReader (Seekable Bytes)) × (get_line string_stream max_line n
          (record { buffered = buffered; stream = at pos text })
        ≡ some r)
unfolding get_line
get_line-total zero max_line pos text buffered h k l = absurd (omega arith)
get_line-total (suc n) max_line pos text buffered h k l = elim (Option-cases (line_end buffered)) [
  | inr (i, ends) ↦ rw (get_line, ends) (_, refl)
  | inl open_line ↦ elim (Bool-cases (length buffered == max_line)) [
    | inl full ↦ rw (get_line, open_line, full) (_, refl)
    | inr room ↦ elim (List-cases (take (max_line - length buffered) (drop pos text))) [
      | inl ended ↦
          rw (get_line, open_line, room, string_read pos (max_line - length buffered) text h, ended)
            (_, refl)
      | inr (b, bs, more) ↦
          let size : suc (length bs) ≡ min (max_line - length buffered) (length text - pos) =
            omega (
              arith,
              length-take (max_line - length buffered) (drop pos text),
              length-drop pos text,
              ap length more,
            ) in
          rw (get_line, open_line, room, string_read pos (max_line - length buffered) text h, more)
            (get_line-total n max_line (pos + suc (length bs)) text (buffered ++ b ∷ bs)
              (omega (arith, size, h)) (omega (arith, size, length-append buffered (b ∷ bs)))
              (omega (arith, size, l, length-append buffered (b ∷ bs))))
    ]
  ]
]
