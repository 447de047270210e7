-- ===== src/Text/Utf8.antt =====
-- libutil/utf8.cpp. A pointer into a NUL-terminated string is the units before the terminator; reading at the end
-- gives 0. `c & 0x3F` is `c % 2 ^ 6` and `c >> 6` is `c / 2 ^ 6`; `(c & 0xC0) == 0x80` of a byte is
-- `c / 2 ^ 6 == 2`.
pub mod Decode
pub mod Convert
use Prim.Native.Nat.{◌-◌}
use chorale.Base.{
  ℕ, zero, suc, ◌+◌, ◌*◌, ◌/◌, ◌%◌, ◌^◌, ◌<◌, Bool, true, false, Option, none, some, List, [], ◌∷◌,
  ◌++◌, length, ltb, leb, ◌==◌, ◌&&◌, ◌||◌, if◌then◌else◌, Bytes,
}

abbrev pub error_char : ℕ
error_char = 0xFFFD

abbrev pub bom : ℕ
bom = 0xFEFF

unfoldable pub cont : ℕ → Bool
cont c = c / 2 ^ 6 == 2

-- What a pointer shows, and the pointer moved on by one.
abbrev pub peek : List ℕ → ℕ
peek [] = 0
peek (c ∷ s) = c

abbrev pub skip : List ℕ → List ℕ
skip [] = []
skip (c ∷ s) = s

-- `GetChar(const utf32_t**)`
unfoldable pub get_char32 : List ℕ → ℕ × List ℕ
get_char32 s = (peek s, skip s)

-- `GetChar(const utf16_t**)`
unfoldable pub get_char16 : List ℕ → ℕ × List ℕ
get_char16 s =
    let ch = peek s in
    let rest = skip s in
    let ch2 = peek rest in
    if leb 0xD800 ch && ltb ch 0xDC00
    then (if leb 0xDC00 ch2 && ltb ch2 0xE000
        then (0x10000 + ch % 2 ^ 10 * 2 ^ 10 + ch2 % 2 ^ 10, skip rest)
        else (error_char, rest))
    else (ch, rest)

-- `(wc < least) ? ERROR : wc`
unfoldable pub at_least : ℕ → ℕ → ℕ
at_least least wc = if ltb wc least then error_char else wc

-- The branches of `GetChar(const char**)` for a lead byte of two, three and four bytes.
unfoldable pub get_two : ℕ → Bytes → ℕ × Bytes
unfolding cont at_least
get_two c s =
    if cont (peek s)
    then (at_least 0x80 (c % 2 ^ 5 * 2 ^ 6 + peek s % 2 ^ 6), skip s)
    else (error_char, s)

unfoldable pub get_three : ℕ → Bytes → ℕ × Bytes
unfolding cont at_least
get_three c s =
    let a = peek s in
    let b = peek (skip s) in
    if cont a && cont b
    then (at_least 0x800 (c % 2 ^ 4 * 2 ^ 12 + a % 2 ^ 6 * 2 ^ 6 + b % 2 ^ 6), skip (skip s))
    else (error_char, s)

unfoldable pub get_four : ℕ → Bytes → ℕ × Bytes
unfolding cont at_least
get_four c s =
    let a = peek s in
    let b = peek (skip s) in
    let d = peek (skip (skip s)) in
    if cont a && cont b && cont d
    then (
      at_least 0x10000 (c % 2 ^ 4 * 2 ^ 18 + a % 2 ^ 6 * 2 ^ 12 + b % 2 ^ 6 * 2 ^ 6 + d % 2 ^ 6),
      skip (skip (skip s)),
    )
    else (error_char, s)

-- `GetChar(const char**)`
unfoldable pub get_char8 : Bytes → ℕ × Bytes
unfolding get_two get_three get_four
get_char8 s =
    let c = peek s in
    let rest = skip s in
    if ltb c 0x80
    then (c, rest)
    else if c / 2 ^ 6 == 2
    then (error_char, rest)
    else if c / 2 ^ 5 == 6
    then get_two c rest
    else if c / 2 ^ 4 == 14
    then get_three c rest
    else if c / 2 ^ 3 == 30
    then get_four c rest
    else (error_char, rest)

-- The units that `PutChar` appends.
unfoldable pub put_char32 : ℕ → List ℕ
put_char32 ch = ch ∷ []

unfoldable pub put_char16 : ℕ → List ℕ
put_char16 ch =
    if leb 0x10000 ch
    then (0xD800 + (ch - 0x10000) / 2 ^ 10) % 2 ^ 16
      ∷ (0xDC00 + (ch - 0x10000) % 2 ^ 10) % 2 ^ 16
      ∷ []
    else ch % 2 ^ 16 ∷ []

unfoldable pub put_char8 : ℕ → Bytes
put_char8 ch =
    let last = 0x80 + ch % 2 ^ 6 in
    let second = 0x80 + ch / 2 ^ 6 % 2 ^ 6 in
    let third = 0x80 + ch / 2 ^ 12 % 2 ^ 6 in
    if ltb ch 0x80
    then ch ∷ []
    else if ltb ch 0x800
    then (0xC0 + ch / 2 ^ 6) % 2 ^ 8 ∷ last ∷ []
    else if ltb ch 0x10000
    then (0xE0 + ch / 2 ^ 12) % 2 ^ 8 ∷ second ∷ last ∷ []
    else (0xF0 + ch / 2 ^ 18) % 2 ^ 8 ∷ third ∷ second ∷ last ∷ []

-- The loop of `Convert`, over any `GetChar` and `PutChar`. `none` means that the fuel ran out.
unfoldable pub convert_from :
    (List ℕ → ℕ × List ℕ) → (ℕ → List ℕ) → ℕ → Bool → List ℕ → Option (List ℕ)
convert_from get put zero last_error s = none
convert_from get put (suc n) last_error s =
    let ch = (get s).0 in
    let rest = (get s).1 in
    elim (ch == 0) [
      | true ↦ some []
      | false ↦ elim (ch == bom) [
        | true ↦ convert_from get put n last_error rest
        | false ↦ elim (convert_from get put n (ch == error_char) rest) [
          | none ↦ none
          | some out ↦ some (if ch == error_char && last_error then out else put ch ++ out)
        ]
      ]
    ]

unfoldable pub convert : (List ℕ → ℕ × List ℕ) → (ℕ → List ℕ) → List ℕ → Option (List ℕ)
unfolding convert_from
convert get put s = convert_from get put (suc (length s)) false s

unfoldable pub utf32_to_utf8 : List ℕ → Option Bytes
unfolding convert get_char32 put_char8
utf32_to_utf8 = convert get_char32 put_char8

unfoldable pub utf16_to_utf8 : List ℕ → Option Bytes
unfolding convert get_char16 put_char8
utf16_to_utf8 = convert get_char16 put_char8

unfoldable pub utf8_to_utf16 : Bytes → Option (List ℕ)
unfolding convert get_char8 put_char16
utf8_to_utf16 = convert get_char8 put_char16

unfoldable pub utf8_to_utf32 : Bytes → Option (List ℕ)
unfolding convert get_char8 put_char32
utf8_to_utf32 = convert get_char8 put_char32
