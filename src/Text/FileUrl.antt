-- ===== src/Text/FileUrl.antt =====
-- libutil/file.cpp: `PathToURL`, `URLToPath`, `ProtectLeafname` and `IsInRoot`.
use Prim.Native.Nat.{◌-◌}
use chorale.Base.{
  ℕ, ◌+◌, ◌*◌, ◌/◌, ◌%◌, ◌≡◌, refl, ap, ◌∙◌, Bool, true, false, none, some, [], ◌∷◌, ◌++◌, arith,
  drop, ltb, leb, ◌==◌, ==_iff, ◌&&◌, ◌||◌, if◌then◌else◌, Bool-cases, inl, inr, Bytes, codes, All,
  IsByte, c_str, index_of, passes_below, passes_below_sound, append_assoc, append-nil,
}

between : ℕ → ℕ → ℕ → Bool
between lo hi c = leb lo c && leb c hi

-- The bytes that `PathToURL` copies: letters, digits, unreserved and most of pchar.
unfoldable pub is_path_char : ℕ → Bool
unfolding between index_of
is_path_char c =
    between b'A' b'Z' c
    || between b'a' b'z' c
    || between b'0' b'9' c
    || (elim (index_of c (codes "/-._~!$&'()*+;=:@")) [ none ↦ false | some _ ↦ true ])

-- `uchex[d]`
unfoldable pub upper_hex_digit : ℕ → ℕ
upper_hex_digit d = if ltb d 10 then b'0' + d else b'A' + (d - 10)

unfoldable pub path_chars : Bytes → Bytes
unfolding is_path_char upper_hex_digit
path_chars [] = []
path_chars (c ∷ s) =
    let rest = path_chars s in
    if is_path_char c
    then c ∷ rest
    else b'%' ∷ upper_hex_digit (c / 16) ∷ upper_hex_digit (c % 16) ∷ rest

unfoldable pub path_to_url : Bytes → Bytes
unfolding path_chars
path_to_url path = codes "file://" ++ path_chars path

unfoldable pub is_digit : ℕ → Bool
unfolding between
is_digit = between b'0' b'9'

unfoldable pub is_xdigit : ℕ → Bool
unfolding between is_digit
is_xdigit c = is_digit c || between b'a' b'f' c || between b'A' b'F' c

-- The byte that two hexadecimal digits stand for, in `char` arithmetic.
unfoldable pub decoded : ℕ → ℕ → ℕ
unfolding is_digit
decoded a b =
    let high = a % 16 * 16 % 256 in
    let high' = if is_digit a then high else (high + 0x90) % 256 in
    let both = (high' + b % 16) % 256 in if is_digit b then both else (both + 0x9) % 256

-- The loop of `URLToPath`; an invalid escape gives the empty string. The terminator is no digit.
unfoldable pub url_chars : Bytes → Bytes → Bytes
unfolding is_xdigit decoded
url_chars [] result = result
url_chars (c ∷ []) result = if c == b'%' then [] else result ++ c ∷ []
url_chars (c ∷ a ∷ []) result = elim (c == b'%') [
  | true ↦ []
  | false ↦ url_chars (a ∷ []) (result ++ c ∷ [])
]
url_chars (c ∷ a ∷ b ∷ s) result = elim (c == b'%') [
  | true ↦ elim (is_xdigit a && is_xdigit b) [
    | true ↦ url_chars s (result ++ decoded a b ∷ [])
    | false ↦ []
  ]
  | false ↦ url_chars (a ∷ b ∷ s) (result ++ c ∷ [])
]

-- `tolower` of the C locale.
unfoldable pub to_lower : ℕ → ℕ
unfolding between
to_lower c = if between b'A' b'Z' c then c + 32 else c

-- `strncasecmp(url, prefix, strlen(prefix)) == 0`
unfoldable pub has_prefix : Bytes → Bytes → Bool
unfolding to_lower
has_prefix [] s = true
has_prefix (p ∷ ps) [] = false
has_prefix (p ∷ ps) (c ∷ s) = (to_lower p == to_lower c) && has_prefix ps s

unfoldable pub url_to_path : Bytes → Bytes
unfolding url_chars has_prefix
url_to_path url =
    if has_prefix (codes "file:///") (c_str url) then url_chars (drop 7 url) [] else []

read_plain :
    (c : ℕ) (s result : Bytes)
    → (c == b'%') ≡ false
    → url_chars (c ∷ s) result ≡ url_chars s (result ++ c ∷ [])
unfolding url_chars
read_plain c [] result h = rw h refl
read_plain c (a ∷ []) result h = rw (h, url_chars) refl
read_plain c (a ∷ b ∷ s) result h = rw (h, url_chars) refl

hex_table :
    passes_below 256 (λ c.
      is_xdigit (upper_hex_digit (c / 16))
      && is_xdigit (upper_hex_digit (c % 16))
      && (decoded (upper_hex_digit (c / 16)) (upper_hex_digit (c % 16)) == c))
    ≡ true
unfolding passes_below is_xdigit upper_hex_digit decoded
hex_table = refl

read_escaped :
    (c : ℕ) (s result : Bytes)
    → IsByte c
    → url_chars (b'%' ∷ upper_hex_digit (c / 16) ∷ upper_hex_digit (c % 16) ∷ s) result
      ≡ url_chars s (result ++ c ∷ [])
unfolding url_chars
read_escaped c s result h =
    let (d, e, g) =
      all_three (is_xdigit (upper_hex_digit (c / 16))) (is_xdigit (upper_hex_digit (c % 16)))
        (decoded (upper_hex_digit (c / 16)) (upper_hex_digit (c % 16)) == c)
        (passes_below_sound 256 _ c h hex_table) in
    rw
      (
        d,
        e,
        (==_iff (decoded (upper_hex_digit (c / 16)) (upper_hex_digit (c % 16))) c).0 g,
        url_chars,
      )
      refl
  where
    all_three : (a b x : Bool) → (a && b && x) ≡ true → (a ≡ true) × (b ≡ true) × (x ≡ true)
    all_three a b x h = ground arith

path_char-ne_percent : (c : ℕ) → is_path_char c ≡ true → (c == b'%') ≡ false
path_char-ne_percent c h = elim (Bool-cases (c == b'%')) [
  | inr plain ↦ plain
  | inl percent ↦ absurd (escaped c ((==_iff c b'%').0 percent) h)
]
  where
    percent_escaped : is_path_char b'%' ≡ false
    percent_escaped = unfold is_path_char in refl

    escaped : (c : ℕ) → c ≡ b'%' → is_path_char c ≡ true → ⊥
    escaped c e h = cc (percent_escaped, ap is_path_char e)

read-path_chars : (s result : Bytes) → All IsByte s → url_chars (path_chars s) result ≡ result ++ s
unfolding path_chars
read-path_chars [] result h = rw append-nil (unfold url_chars in refl)
read-path_chars (c ∷ s) result h =
    elim (Bool-cases (is_path_char c)) [
      | inl plain ↦ rw plain (
          read_plain c (path_chars s) result (path_char-ne_percent c plain)
          ∙ read-path_chars s (result ++ c ∷ []) h.1)
      | inr escaped ↦
          rw escaped
            (read_escaped c (path_chars s) result h.0 ∙ read-path_chars s (result ++ c ∷ []) h.1)
    ]
    ∙ append_assoc result (c ∷ []) s

-- `URLToPath` undoes `PathToURL` on every absolute path.
pub url_to_path-path_to_url :
    (s : Bytes) → All IsByte s → url_to_path (path_to_url (b'/' ∷ s)) ≡ b'/' ∷ s
unfolding url_to_path path_to_url c_str
url_to_path-path_to_url s h = read-path_chars (b'/' ∷ s) [] (omega arith, h)
