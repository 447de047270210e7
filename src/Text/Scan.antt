-- ===== src/Text/Scan.antt =====
-- libutil/scanf64.cpp: `Scanf64`, a `scanf` for decimal numbers of 64 bits.
use mathlib.Core.Option.{some-injective}
use chorale.Base.{
  ℕ, zero, suc, ◌+◌, ◌-◌, ◌*◌, ◌%◌, ◌≡◌, ◌≤◌, ◌<◌, refl, Bool, true, false, not, ◌&&◌, ◌||◌, Option,
  none, some, List, [], ◌∷◌, ◌++◌, Bytes, c_str, length, u64, leb, ◌==◌, if◌then◌else◌, arith,
  Bool-cases, Option-cases, inl, inr, if_true, if_false, ◌⊎◌, sym, ◌∙◌, length-append, length-c_str,
}
use chorale.Text.UrlText.{is_space}

abbrev pub is_decimal : ℕ → Bool
is_decimal c = leb b'0' c && leb c b'9'

-- The digits at the start of the input: their value, which wraps, and the rest.
unfoldable pub scan_number : ℕ → Bytes → ℕ × Bytes
scan_number result [] = (result, [])
scan_number result (c ∷ input) =
    let more = scan_number ((result * 10 + (c - b'0')) % u64) input in
    if is_decimal c then more else (result, c ∷ input)

unfoldable pub skip_spaces : Bytes → Bytes
skip_spaces [] = []
skip_spaces (c ∷ input) = let rest = skip_spaces input in if is_space c then rest else c ∷ input

-- `%llu`, after the percent sign, and what follows it in the format.
unfoldable pub after_llu : Bytes → Option Bytes
after_llu (a ∷ b ∷ c ∷ format) =
    if (a == b'l') && (b == b'l') && (c == b'u') then some format else none
after_llu _ = none

-- What the call returns, and the numbers that it has stored, in order: `room` is the number of arguments
-- that are not null. The format is used up by a byte or more in a round, and the input ends the loop too.
unfoldable pub scanf64_from : ℕ → ℕ → List ℕ → Bytes → Bytes → Option (ℕ × List ℕ)
unfolding scan_number skip_spaces after_llu
scanf64_from zero room stored input format = none
scanf64_from (suc n) room stored input [] = some (length stored, stored)
scanf64_from (suc n) room stored [] (f ∷ format) = some (length stored, stored)
scanf64_from (suc n) room stored (c ∷ input) (f ∷ format) =
    let spaces = scanf64_from n room stored (skip_spaces (c ∷ input)) format in
    let literal = scanf64_from n room stored input format in
    let found = scan_number 0 (c ∷ input) in
    let number = λ (rest : Bytes). scanf64_from n room (stored ++ found.0 ∷ []) found.1 rest in
    if is_space f
    then spaces
    else if f == b'%'
    then (elim (after_llu format) [
      | none ↦ some (0, stored)
      | some rest ↦
          if (length stored == 3) || not (is_decimal c) || leb room (length stored)
          then some (0, stored)
          else number rest
    ])
    else if c == f
    then literal
    else some (0, stored)

unfoldable pub scanf64 : ℕ → Bytes → Bytes → Option (ℕ × List ℕ)
unfolding scanf64_from
scanf64 room input format = scanf64_from (suc (length format)) room [] (c_str input) (c_str format)

room_left :
    (stored : ℕ) (digit : Bool) (room : ℕ)
    → stored ≤ 3
    → ((stored == 3) || digit || leb room stored) ≡ false
    → (suc stored ≤ 3) × (suc stored ≤ room)
room_left stored true room k h = absurd (ground (arith, k, h))
room_left stored false room k h = ground (arith, k, h)

after_llu-shorter :
    (format rest : Bytes) → after_llu format ≡ some rest → length rest < length format
unfolding after_llu
after_llu-shorter [] rest h = cc
after_llu-shorter (a ∷ []) rest h = cc
after_llu-shorter (a ∷ b ∷ []) rest h = cc
after_llu-shorter (a ∷ b ∷ c ∷ format) rest h =
    elim (Bool-cases ((a == b'l') && (b == b'l') && (c == b'u'))) [
      | inr other ↦ cc
      | inl found ↦
          let same : format ≡ rest = some-injective _ _ (sym (if_true _ _ found) ∙ h) in
          rw (← same) (omega arith)
    ]

-- A result of `scanf64_from`: the count is zero or that of the numbers stored, of which there are at most three,
-- and no more than there are arguments.
abbrev pub Scanned : ℕ → ℕ × List ℕ → Type 0
Scanned room r = ((r.0 ≡ 0) ⊎ (r.0 ≡ length r.1)) × (length r.1 ≤ 3) × (length r.1 ≤ room)

scanf64_from-total :
    (n room : ℕ) (stored : List ℕ) (input format : Bytes)
    → length format < n
    → length stored ≤ 3
    → length stored ≤ room
    → (r : ℕ × List ℕ) × (scanf64_from n room stored input format ≡ some r) × Scanned room r
unfolding scanf64_from
scanf64_from-total zero room stored input format h k l = absurd (omega arith)
scanf64_from-total (suc n) room stored input [] h k l =
    ((length stored, stored), refl, (inr refl, k, l))
scanf64_from-total (suc n) room stored [] (f ∷ format) h k l =
    ((length stored, stored), refl, (inr refl, k, l))
scanf64_from-total (suc n) room stored (c ∷ input) (f ∷ format) h k l =
    elim (Bool-cases (is_space f)) [
      | inl space ↦
          let r =
            scanf64_from-total n room stored (skip_spaces (c ∷ input)) format (omega (arith, h)) k
              l in
          (r.0, if_true _ _ space ∙ r.1, r.2)
      | inr other ↦ elim (Bool-cases (f == b'%')) [
        | inr plain ↦ elim (Bool-cases (c == f)) [
          | inl same ↦
              let r = scanf64_from-total n room stored input format (omega (arith, h)) k l in
              (r.0, if_false _ _ other ∙ if_false _ _ plain ∙ if_true _ _ same ∙ r.1, r.2)
          | inr differs ↦ (
            (0, stored),
            if_false _ _ other ∙ if_false _ _ plain ∙ if_false _ _ differs,
            (inl refl, k, l),
          )
        ]
        | inl percent ↦ elim (Option-cases (after_llu format)) [
          | inl unknown ↦ (
            (0, stored),
            if_false _ _ other ∙ if_true _ _ percent ∙ rw unknown refl,
            (inl refl, k, l),
          )
          | inr (rest, known) ↦
              elim (Bool-cases
                ((length stored == 3) || not (is_decimal c) || leb room (length stored))) [
                  | inl stops ↦ (
                    (0, stored),
                    if_false _ _ other ∙ if_true _ _ percent ∙ rw known (if_true _ _ stops),
                    (inl refl, k, l),
                  )
                  | inr goes ↦
                      let found = scan_number 0 (c ∷ input) in
                      let places = room_left (length stored) (not (is_decimal c)) room k goes in
                      let r =
                        scanf64_from-total n room (stored ++ found.0 ∷ []) found.1 rest
                          (omega (arith, h, after_llu-shorter format rest known))
                          (omega (arith, places, length-append stored (found.0 ∷ [])))
                          (omega (arith, places, length-append stored (found.0 ∷ []))) in
                      (
                        r.0,
                        if_false _ _ other
                            ∙ if_true _ _ percent
                            ∙ rw known (if_false _ _ goes ∙ r.1),
                        r.2,
                      )
                ]
        ]
      ]
    ]

-- `Scanf64` ends on every input and format. It returns zero or the count of the numbers that it stored, which
-- are at most three and at most the arguments that it was given.
pub scanf64-total :
    (room : ℕ) (input format : Bytes)
    → (r : ℕ × List ℕ) × (scanf64 room input format ≡ some r) × Scanned room r
unfolding scanf64
scanf64-total room input format =
    scanf64_from-total (suc (length format)) room [] (c_str input) (c_str format)
      (omega (arith, length-c_str format)) (omega arith) (omega arith)
