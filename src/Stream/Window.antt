-- ===== src/Stream/Window.antt =====
-- libutil/partial_stream.cpp over libutil/string_stream.cpp: a part of a string is read as that part alone.
use chorale.Base.{
  ℕ, zero, suc, ◌+◌, ◌-◌, ◌≡◌, ◌≤◌, ◌<◌, refl, sym, ap, ◌∙◌, false, some, [], ◌∷◌, Bytes, length,
  take, drop, ltb, add64, u64, arith, min, drop-drop,
}
use chorale.Stream.State.{done}
use chorale.Stream.Text.{string_stream, string_read_at, at}
use chorale.Stream.Partial.{partial_read_at, clip}

take-nil : (n : ℕ) → ◌≡◌ {A = Bytes} (take n []) []
take-nil zero = refl
take-nil (suc n) = refl

take-take : (m n : ℕ) (xs : Bytes) → take m (take n xs) ≡ take (min m n) xs
take-take zero n xs = let e : min 0 n ≡ 0 = omega arith in rw e refl
take-take (suc m) zero xs = let e : min (suc m) 0 ≡ 0 = omega arith in rw e refl
take-take (suc m) (suc n) [] =
    let e : min (suc m) (suc n) ≡ suc (min m n) = omega arith in rw e refl
take-take (suc m) (suc n) (x ∷ xs) =
    let e : min (suc m) (suc n) ≡ suc (min m n) = omega arith in rw (e, take-take m n xs) refl

drop-take : (m n : ℕ) (xs : Bytes) → drop m (take n xs) ≡ take (n - m) (drop m xs)
drop-take zero n xs = let e : n - 0 ≡ n = omega arith in rw e refl
drop-take (suc m) zero xs = let e : 0 - suc m ≡ 0 = omega arith in rw e refl
drop-take (suc m) (suc n) [] = sym (take-nil (suc n - suc m))
drop-take (suc m) (suc n) (x ∷ xs) =
    let e : suc n - suc m ≡ n - m = omega arith in rw (e, drop-take m n xs) refl

-- In range and without overflow, what is left of the part bounds the read.
clip_lem :
    (begin end pos n : ℕ)
    → begin + pos ≤ end
    → pos + n + begin < u64
    → end < u64
    → clip begin end pos n ≡ min n (end - begin - pos)
unfolding clip
clip_lem begin end pos n h k l = ground (arith, h, k, l)

-- The bytes of `text` from `begin` up to `end`.
abbrev pub window : ℕ → ℕ → Bytes → Bytes
window begin end text = take (end - begin) (drop begin text)

-- `ReadAt` of a part of a string, at a place within the part, gives what reading that part alone gives, if the part
-- lies in the string and the sums of the positions fit 64 bits.
pub partial_read_at-window :
    (begin end pos n at_pos : ℕ) (text : Bytes)
    → begin + pos ≤ end
    → end ≤ length text
    → pos + n + begin < u64
    → end < u64
    → partial_read_at string_stream
        (record { begin = begin; end = end; below = at at_pos text })
        pos
        n
      ≡ some (
        done (take n (drop pos (window begin end text))),
        record { begin = begin; end = end; below = at at_pos text },
      )
unfolding partial_read_at string_stream string_read_at
partial_read_at-window begin end pos n at_pos text h e k l =
    let wraps : add64 pos begin ≡ begin + pos = omega (arith, k) in
    let inside : ltb (length text) (begin + pos) ≡ false = ground (arith, h, e) in
    let part : take n (drop pos (window begin end text))
        ≡ take (min n (end - begin - pos)) (drop (begin + pos) text) =
      ap (take n) (drop-take pos (end - begin) (drop begin text))
      ∙ take-take n (end - begin - pos) (drop pos (drop begin text))
      ∙ ap (take (min n (end - begin - pos))) (drop-drop pos begin text) in
    rw (partial_read_at, clip_lem begin end pos n h k l, wraps, inside, part) refl
