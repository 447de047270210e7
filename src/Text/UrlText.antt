-- ===== src/Text/UrlText.antt =====
-- libutil/urlescape.cpp.
use Prim.Native.Nat.{◌-◌}
use chorale.Base.{
  ℕ, ◌+◌, ◌*◌, ◌/◌, ◌%◌, ◌<◌, ◌≤◌, ◌≡◌, ◌≢◌, refl, ap, ◌∙◌, Bool, true, false, Option, none, some,
  [], ◌∷◌, arith, ltb, leb, ◌==◌, ==_iff, ◌&&◌, ◌||◌, if◌then◌else◌, Bool-cases, inl, inr, Bytes,
  codes, All, IsByte, c_str, index_of, c_str_lem, u64, passes_below, passes_below_sound,
}

-- `strchr("$&+,/:?@'<>\"#%", c) != NULL`
unfoldable pub is_special : ℕ → Bool
unfolding index_of
is_special c = elim (index_of c (codes "$&+,/:?@'<>\"#%")) [ none ↦ false | some _ ↦ true ]

-- The test of `URLEscape`; a byte from 128 on is out of range as a signed and as an unsigned `char`.
unfoldable pub must_escape : ℕ → Bool
unfolding is_special
must_escape c = ltb c 33 || ltb 126 c || is_special c

-- A digit of `%02x`.
unfoldable pub hex_digit : ℕ → ℕ
hex_digit d = if ltb d 10 then b'0' + d else b'a' + (d - 10)

unfoldable pub url_escape : Bytes → Bytes
unfolding must_escape hex_digit
url_escape [] = []
url_escape (c ∷ s) =
    let rest = url_escape s in
    if must_escape c then b'%' ∷ hex_digit (c / 16) ∷ hex_digit (c % 16) ∷ rest else c ∷ rest

-- The value of a hexadecimal digit.
unfoldable pub hex_value : ℕ → Option ℕ
hex_value c =
    if leb b'0' c && leb c b'9'
    then some (c - b'0')
    else if leb b'a' c && leb c b'f'
    then some (c - b'a' + 10)
    else if leb b'A' c && leb c b'F'
    then some (c - b'A' + 10)
    else none

-- `isspace` of the C locale.
unfoldable pub is_space : ℕ → Bool
is_space c = c == b' ' || (leb 9 c && leb c 13)

unfoldable pub hex_number : ℕ → Bytes → ℕ
unfolding hex_value
hex_number n [] = n
hex_number n (c ∷ s) = elim (hex_value c) [ none ↦ n | some d ↦ hex_number (n * 16 + d) s ]

-- `strtoul(buf, NULL, 16)` of a text of at most two bytes: white space, a sign, digits. (A prefix `0x` with
-- a digit behind it is longer.)
unfoldable pub strtoul16 : Bytes → ℕ
unfolding hex_number is_space
strtoul16 [] = 0
strtoul16 (c ∷ s) =
    if is_space c
    then strtoul16 s
    else if c == b'+'
    then hex_number 0 s
    else if c == b'-'
    then (u64 - hex_number 0 s) % u64
    else hex_number 0 (c ∷ s)

-- The loop of `URLUnEscape` over `p`, up to the terminator.
unfoldable pub url_unescape_from : Bytes → Bytes
unfolding strtoul16
url_unescape_from [] = []
url_unescape_from (c ∷ []) = c ∷ []
url_unescape_from (c ∷ a ∷ []) = c ∷ a ∷ []
url_unescape_from (c ∷ a ∷ b ∷ p) = elim (c == b'%') [
  | true ↦ strtoul16 (a ∷ b ∷ []) % 256 ∷ url_unescape_from p
  | false ↦ c ∷ url_unescape_from (a ∷ b ∷ p)
]

unfoldable pub url_unescape : Bytes → Bytes
unfolding url_unescape_from
url_unescape s = url_unescape_from (c_str s)

read_plain :
    (c : ℕ) (p : Bytes) → (c == b'%') ≡ false → url_unescape_from (c ∷ p) ≡ c ∷ url_unescape_from p
unfolding url_unescape_from
read_plain c [] h = refl
read_plain c (a ∷ []) h = refl
read_plain c (a ∷ b ∷ p) h = rw (h, url_unescape_from) refl

hex_table :
    passes_below 256 (λ c. strtoul16 (hex_digit (c / 16) ∷ hex_digit (c % 16) ∷ []) % 256 == c)
    ≡ true
unfolding passes_below strtoul16 hex_digit
hex_table = refl

-- Two digits are read back.
strtoul16-hex_digit :
    (c : ℕ) → IsByte c → strtoul16 (hex_digit (c / 16) ∷ hex_digit (c % 16) ∷ []) % 256 ≡ c
strtoul16-hex_digit c h = (==_iff _ c).0 (passes_below_sound 256 _ c h hex_table)

read_escaped :
    (c : ℕ) (p : Bytes)
    → IsByte c
    → url_unescape_from (b'%' ∷ hex_digit (c / 16) ∷ hex_digit (c % 16) ∷ p)
      ≡ c ∷ url_unescape_from p
unfolding url_unescape_from
read_escaped c p h = ap (λ d. d ∷ url_unescape_from p) (strtoul16-hex_digit c h)

plain_char : (c : ℕ) → must_escape c ≡ false → (c == b'%') ≡ false
plain_char c h = elim (Bool-cases (c == b'%')) [
  | inr plain ↦ plain
  | inl percent ↦ absurd (escaped c ((==_iff c b'%').0 percent) h)
]
  where
    percent_escaped : must_escape b'%' ≡ true
    percent_escaped = unfold must_escape in refl

    escaped : (c : ℕ) → c ≡ b'%' → must_escape c ≡ false → ⊥
    escaped c e h = cc (percent_escaped, ap must_escape e)

escape-read : (s : Bytes) → All IsByte s → url_unescape_from (url_escape s) ≡ s
unfolding url_escape
escape-read [] h = unfold url_unescape_from in refl
escape-read (c ∷ s) h = elim (Bool-cases (must_escape c)) [
  | inl escaped ↦ rw escaped (read_escaped c (url_escape s) h.0 ∙ ap (◌∷◌ c) (escape-read s h.1))
  | inr plain ↦
      rw plain (read_plain c (url_escape s) (plain_char c plain) ∙ ap (◌∷◌ c) (escape-read s h.1))
]

-- A byte of a URL: no control character, no space, and below 127.
abbrev pub IsUrlByte : ℕ → Type 0
IsUrlByte c = (33 ≤ c) × (c ≤ 126)

hex_digit-IsUrlByte : (d : ℕ) → d < 16 → IsUrlByte (hex_digit d)
unfolding hex_digit
hex_digit-IsUrlByte d h = ground arith

plain-IsUrlByte : (c : ℕ) → must_escape c ≡ false → IsUrlByte c
unfolding must_escape
plain-IsUrlByte c h = ground (arith, none_holds (ltb c 33) (ltb 126 c) (is_special c) h)
  where
    none_holds : (a b x : Bool) → (a || b || x) ≡ false → (a ≡ false) × (b ≡ false)
    none_holds a b x h = ground arith

-- Escaped text is printable ASCII without spaces.
pub url_escape-IsUrlByte : (s : Bytes) → All IsByte s → All IsUrlByte (url_escape s)
unfolding url_escape
url_escape-IsUrlByte [] h = tt
url_escape-IsUrlByte (c ∷ s) h = elim (Bool-cases (must_escape c)) [
  | inl escaped ↦ rw escaped (
    (omega arith, omega arith),
    (
      hex_digit-IsUrlByte (c / 16) (omega arith),
      (hex_digit-IsUrlByte (c % 16) (omega arith), url_escape-IsUrlByte s h.1),
    ),
  )
  | inr plain ↦ rw plain (plain-IsUrlByte c plain, url_escape-IsUrlByte s h.1)
]

url_escape-no_nul : (s : Bytes) → All IsByte s → All (λ c. c ≢ 0) (url_escape s)
url_escape-no_nul s h = no_nul (url_escape s) (url_escape-IsUrlByte s h)
  where
    no_nul : (s : Bytes) → All IsUrlByte s → All (λ c. c ≢ 0) s
    no_nul [] h = tt
    no_nul (c ∷ s) h = (omega arith, no_nul s h.1)

-- `URLUnEscape` undoes `URLEscape` on every string of bytes.
pub url_unescape-url_escape : (s : Bytes) → All IsByte s → url_unescape (url_escape s) ≡ s
unfolding url_unescape
url_unescape-url_escape s h =
    rw (c_str_lem (url_escape s) (url_escape-no_nul s h)) (escape-read s h)
