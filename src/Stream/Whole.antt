-- ===== src/Stream/Whole.antt =====
-- libutil/stream.cpp over libutil/string_stream.cpp: what `ReadAll`, `WriteAll` and `CopyStream` give on a string.
use chorale.Base.{
  ℕ, zero, suc, ◌+◌, ◌-◌, ◌≤◌, ◌<◌, ◌≡◌, refl, sym, ap, ◌∙◌, true, false, ◌⊎◌, inl, inr, Bool-cases,
  List-cases, leb, some, [], ◌∷◌, ◌++◌, Bytes, length, take, drop, ltb, if◌then◌else◌, arith,
  length-take, length-drop, length-append, append_assoc, append-nil, take_all, drop-drop,
  take-append-drop,
}
use chorale.Stream.State.{eio}
use chorale.Stream.Loops.{read_all, write_all, copy_stream}
use chorale.Stream.Text.{string_stream, at, string_read, string_write}

drop-all : (n : ℕ) (xs : Bytes) → length xs ≤ n → drop n xs ≡ []
drop-all zero [] h = refl
drop-all zero (x ∷ xs) h = absurd (omega arith)
drop-all (suc n) [] h = refl
drop-all (suc n) (x ∷ xs) h = drop-all n xs (omega arith)

pos_end : (pos : ℕ) → pos + 0 ≡ pos
pos_end pos = omega arith

-- `WriteAll` at a place within a string overwrites what is there and extends the string, within two rounds, and
-- leaves the position behind what it wrote.
pub write_all_lem :
    (n pos : ℕ) (text bs : Bytes)
    → pos ≤ length text
    → write_all string_stream (suc (suc n)) (at pos text) bs
      ≡ some (0, at (pos + length bs) (take pos text ++ bs ++ drop (pos + length bs) text))
unfolding write_all
write_all_lem n pos text [] h =
    ap (λ t. some (0, at pos t)) (sym (take-append-drop pos text))
    ∙ ap (λ p. some (0, at p (take pos text ++ drop p text))) (sym (pos_end pos))
    ∙ ap (λ t. some (0, at (pos + 0) (t ++ drop (pos + 0) text))) (sym (append-nil (take pos text)))
write_all_lem n pos text (b ∷ bs) h =
    rw (write_all, string_write pos text (b ∷ bs) h, drop-all (length bs) bs (omega arith)) refl

-- A further round, with nothing left to read or nothing left of the string.
read_more :
    (n pos r : ℕ) (text got : Bytes)
    → pos ≤ length text
    → (r ≡ 0) ⊎ (length text ≡ pos)
    → read_all string_stream (suc n) (at pos text) r got
      ≡ some ((if ltb 0 r then eio else 0), got, at pos text)
unfolding read_all
read_more n pos zero text got h k = refl
read_more n pos (suc r) text got h (inl e) = absurd (omega arith)
read_more n pos (suc r) text got h (inr e) =
    let got_none : drop pos text ≡ [] = drop-all pos text (omega arith) in
    let nothing = string_read pos (suc r) text h in
    let some_left : ltb 0 (suc r) ≡ true = ground arith in
    rw (read_all, nothing, got_none, pos_end, some_left) refl

all_read :
    (k : ℕ) (bs : Bytes) (pos : ℕ) (text : Bytes)
    → length text - pos ≡ suc (length bs)
    → (k - length (take k bs) ≡ 0) ⊎ (length text ≡ pos + suc (length (take k bs)))
all_read k bs pos text h =
    let taken = length-take k bs in
    elim (Bool-cases (leb k (length bs))) [
      | inl within ↦ inl (ground (arith, taken, within))
      | inr beyond ↦ inr (ground (arith, taken, beyond, h))
    ]

-- `ReadAll` from a place within a string gives, within two rounds, the bytes from there on: all that were asked for,
-- or what there is and EIO, with the position behind them.
pub read_all_lem :
    (n pos len : ℕ) (text : Bytes)
    → pos ≤ length text
    → read_all string_stream (suc (suc n)) (at pos text) len []
      ≡ some (
        (if ltb (length text) (pos + len) then eio else 0),
        take len (drop pos text),
        at (pos + length (take len (drop pos text))) text,
      )
unfolding read_all
read_all_lem n pos zero text h =
    let fits : ltb (length text) (pos + 0) ≡ false = ground arith in rw (fits, pos_end) refl
read_all_lem n pos (suc k) text h = elim (List-cases (drop pos text)) [
  | inl ended ↦
      let short : ltb (length text) (pos + suc k) ≡ true =
        ground (arith, length-drop pos text, ap length ended) in
      rw (read_all, string_read pos (suc k) text h, ended, short) refl
  | inr (b, bs, more) ↦
      let bound : suc (length bs) ≡ length text - pos =
        omega (arith, length-drop pos text, ap length more) in
      let taken = length-take k bs in
      let same : ltb 0 (k - length (take k bs)) ≡ ltb (length text) (pos + suc k) =
        ground (arith, taken, bound) in
      rw (read_all, string_read pos (suc k) text h, more)
        (rw (← same) (
          read_more n (pos + suc (length (take k bs))) (k - length (take k bs)) text (b ∷ take k bs)
            (omega (arith, taken, bound)) (all_read k bs pos text (sym bound))))
]

-- `WriteAll` at the end of a string appends.
write_end :
    (n : ℕ) (out bs : Bytes)
    → write_all string_stream (suc (suc n)) (at (length out) out) bs
      ≡ some (0, at (length (out ++ bs)) (out ++ bs))
write_end n out bs =
    let all : take (length out) out ≡ out = take_all (length out) out (omega arith) in
    let nothing : drop (length out + length bs) out ≡ [] =
      drop-all (length out + length bs) out (omega arith) in
    write_all_lem n (length out) out bs (omega arith)
    ∙ rw (all, nothing, append-nil, length-append) refl

take_rest : (n : ℕ) (xs : Bytes) → take n xs ++ drop (length (take n xs)) xs ≡ xs
take_rest zero xs = refl
take_rest (suc n) [] = refl
take_rest (suc n) (x ∷ xs) = ap (◌∷◌ x) (take_rest n xs)

rest_copied :
    (n pos : ℕ) (text out xs : Bytes)
    → drop pos text ≡ xs
    → (out ++ take n xs) ++ drop (pos + length (take n xs)) text ≡ out ++ xs
rest_copied n pos text out xs e =
    append_assoc out (take n xs) (drop (pos + length (take n xs)) text)
    ∙ ap (λ l. out ++ (take n xs ++ l))
        (sym (drop-drop (length (take n xs)) pos text) ∙ ap (drop (length (take n xs))) e)
    ∙ ap (λ l. out ++ l) (take_rest n xs)

-- `CopyStream` from a place within a string to the end of another appends all that is left, within as many rounds as
-- there are bytes left, and one more.
pub copy_stream_lem :
    (n pos : ℕ) (text out : Bytes)
    → pos ≤ length text
    → length text - pos < n
    → copy_stream string_stream string_stream n (at pos text) (at (length out) out)
      ≡ some (0, at (length text) text, at (length (out ++ drop pos text)) (out ++ drop pos text))
unfolding copy_stream
copy_stream_lem zero pos text out h fuel = absurd (omega arith)
copy_stream_lem (suc n) pos text out h fuel = elim (List-cases (drop pos text)) [
  | inl ended ↦
      let last : pos ≡ length text = omega (arith, length-drop pos text, ap length ended) in
      rw (copy_stream, string_read pos 8192 text h, ended, append-nil, pos_end, last) refl
  | inr (b, bs, more) ↦
      let taken = length-take 8191 bs in
      let bound : suc (length bs) ≡ length text - pos =
        omega (arith, length-drop pos text, ap length more) in
      rw
        (
          copy_stream,
          string_read pos 8192 text h,
          more,
          write_end (length (take 8191 bs)) out (b ∷ take 8191 bs),
        )
        (copy_stream_lem n (pos + suc (length (take 8191 bs))) text (out ++ b ∷ take 8191 bs)
            (omega (arith, taken, bound)) (omega (arith, taken, bound, fuel))
          ∙ ap (λ l. some (0, at (length text) text, at (length l) l))
              (rest_copied 8192 pos text out (b ∷ bs) more))
]
