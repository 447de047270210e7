-- ===== src/Text/Xml.antt =====
-- libutil/xmlescape.cpp.
use chorale.Base.{
  ◌⊎◌, Option-cases, ==_iff, ℕ, zero, suc, ◌<◌, ◌≤◌, ◌≡◌, ◌≢◌, refl, ◌∙◌, ap, Bool, true, false,
  Option, none, some, [], ◌∷◌, ◌++◌, arith, length, take, drop, leb, ◌==◌, ◌&&◌, ◌||◌,
  if◌then◌else◌, Bool-cases, inl, inr, Bytes, codes, All, c_str, same_text, index_of, c_str_lem,
  length-c_str, All-append, append_assoc, append-nil, length-append, length-drop,
}

-- What one round of `XmlEscape` appends.
unfoldable pub xml_escape_char : ℕ → Bytes
xml_escape_char c =
    if c == b'&'
    then codes "&amp;"
    else if c == b'"'
    then codes "&quot;"
    else if c == b'<'
    then codes "&lt;"
    else if c == b'>'
    then codes "&gt;"
    else if leb b' ' c || c == 10
    then c ∷ []
    else []

unfoldable pub xml_escape : Bytes → Bytes
unfolding xml_escape_char
xml_escape [] = []
xml_escape (c ∷ s) = xml_escape_char c ++ xml_escape s

-- `!strncmp(p+1, name, strlen(name))`
unfoldable pub entity_is : Bytes → Bytes → Bool
unfolding same_text
entity_is name p = same_text (take (length name) (drop 1 p)) name

-- What `XmlUnEscape` appends for the entity that ends at `p + k`.
unfoldable pub entity_text : ℕ → Bytes → Bytes
unfolding entity_is
entity_text k p =
    if k == 5 && entity_is (codes "quot") p
    then b'"' ∷ []
    else if k == 4 && entity_is (codes "amp") p
    then b'&' ∷ []
    else if k == 3
    then (if entity_is (codes "lt") p
        then b'<' ∷ []
        else if entity_is (codes "gt") p
        then b'>' ∷ []
        else [])
    else []

-- The loop over `p`; `result` is the text so far. `none` means that the fuel ran out.
unfoldable pub xml_unescape_from : ℕ → Bytes → Bytes → Option Bytes
xml_unescape_from zero p result = none
xml_unescape_from (suc n) [] result = some result
xml_unescape_from (suc n) (c ∷ p) result = elim (c == b'&') [
  | false ↦ xml_unescape_from n p (result ++ c ∷ [])
  | true ↦ elim (index_of b';' (c ∷ p)) [
    | none ↦ xml_unescape_from n p (result ++ b'&' ∷ [])
    | some k ↦ xml_unescape_from n (drop (suc k) (c ∷ p)) (result ++ entity_text k (c ∷ p))
  ]
]

unfoldable pub xml_unescape : Bytes → Option Bytes
unfolding xml_unescape_from
xml_unescape s = xml_unescape_from (suc (length s)) (c_str s) []

-- The loop ends within as many rounds as the text has bytes, and one more.
xml_unescape_from-total :
    (n : ℕ) (p result : Bytes)
    → length p < n
    → (r : Bytes) × (xml_unescape_from n p result ≡ some r)
unfolding xml_unescape_from
xml_unescape_from-total zero p result h = elim h [ ]
xml_unescape_from-total (suc n) [] result h = (result, refl)
xml_unescape_from-total (suc n) (c ∷ p) result h = elim (Bool-cases (c == b'&')) [
  | inr plain ↦
      rw (plain, xml_unescape_from) (xml_unescape_from-total n p (result ++ c ∷ []) (omega arith))
  | inl amp ↦ elim (Option-cases (index_of b';' (c ∷ p))) [
    | inl unended ↦
        rw (amp, unended, xml_unescape_from)
          (xml_unescape_from-total n p (result ++ b'&' ∷ []) (omega arith))
    | inr (k, found) ↦
        rw (amp, found, xml_unescape_from)
          (xml_unescape_from-total n (drop k p) (result ++ entity_text k (c ∷ p))
            (omega (arith, length-drop k p)))
  ]
]

-- `XmlUnEscape` ends on every text, whether its entities are known, unknown or unended.
pub xml_unescape-total : (s : Bytes) → (r : Bytes) × (xml_unescape s ≡ some r)
unfolding xml_unescape
xml_unescape-total s =
    xml_unescape_from-total (suc (length s)) (c_str s) [] (omega (arith, length-c_str s))

-- What `XmlEscape` does not drop: all but control characters, with line feeds kept.
abbrev pub printable : Bytes → Bytes
printable [] = []
printable (c ∷ s) = let rest = printable s in if leb b' ' c || c == 10 then c ∷ rest else rest

read_plain :
    (n c : ℕ) (p result : Bytes)
    → (c == b'&') ≡ false
    → xml_unescape_from (suc n) (c ∷ p) result ≡ xml_unescape_from n p (result ++ c ∷ [])
unfolding xml_unescape_from
read_plain n c p result h = rw (h, xml_unescape_from) refl

-- One escaped character is read back in at most one round.
read-escape_char :
    (n c : ℕ) (rest result : Bytes)
    → xml_unescape_from (suc n) (xml_escape_char c ++ rest) result ≡ (
        if leb b' ' c || c == 10
        then xml_unescape_from n rest (result ++ c ∷ [])
        else xml_unescape_from (suc n) rest result)
unfolding xml_unescape_from xml_escape_char entity_text index_of
read-escape_char n c rest result = elim (Bool-cases (c == b'&')) [
  | inl amp ↦ rw ((==_iff c b'&').0 amp) refl
  | inr not_amp ↦ elim (Bool-cases (c == b'"')) [
    | inl quot ↦ rw ((==_iff c b'"').0 quot) refl
    | inr not_quot ↦ elim (Bool-cases (c == b'<')) [
      | inl lt ↦ rw ((==_iff c b'<').0 lt) refl
      | inr not_lt ↦ elim (Bool-cases (c == b'>')) [
        | inl gt ↦ rw ((==_iff c b'>').0 gt) refl
        | inr not_gt ↦ elim (Bool-cases (leb b' ' c || c == 10)) [
          | inl kept ↦
              rw (not_amp, not_quot, not_lt, not_gt, kept) (read_plain n c rest result not_amp)
          | inr dropped ↦ rw (not_amp, not_quot, not_lt, not_gt, dropped) refl
        ]
      ]
    ]
  ]
]

length-escape_char : (c : ℕ) → (leb b' ' c || c == 10) ≡ true → 1 ≤ length (xml_escape_char c)
unfolding xml_escape_char
length-escape_char c h = ground arith

xml_escape-read :
    (s : Bytes) (n : ℕ) (result : Bytes)
    → length (xml_escape s) < n
    → xml_unescape_from n (xml_escape s) result ≡ some (result ++ printable s)
unfolding xml_escape
xml_escape-read s zero result h = elim h [ ]
xml_escape-read [] (suc n) result h = rw append-nil (unfold xml_unescape_from in refl)
xml_escape-read (c ∷ s) (suc n) result h =
    let longer = length-append (xml_escape_char c) (xml_escape s) in
    read-escape_char n c (xml_escape s) result ∙ elim (Bool-cases (leb b' ' c || c == 10)) [
      | inl kept ↦ rw kept (
          xml_escape-read s n (result ++ c ∷ []) (omega (arith, longer, length-escape_char c kept))
          ∙ ap some (append_assoc result (c ∷ []) (printable s)))
      | inr dropped ↦ rw dropped (xml_escape-read s (suc n) result (omega (arith, longer)))
    ]

escape_char-no_nul : (c : ℕ) → All (λ b. b ≢ 0) (xml_escape_char c)
unfolding xml_escape_char
escape_char-no_nul c = ground arith

escape-no_nul : (s : Bytes) → All (λ b. b ≢ 0) (xml_escape s)
unfolding xml_escape
escape-no_nul [] = tt
escape-no_nul (c ∷ s) =
    All-append _ (xml_escape_char c) (xml_escape s) (escape_char-no_nul c) (escape-no_nul s)

-- `XmlUnEscape` undoes `XmlEscape`, but for the control characters that `XmlEscape` drops; it always ends.
pub xml_unescape-xml_escape : (s : Bytes) → xml_unescape (xml_escape s) ≡ some (printable s)
unfolding xml_unescape
xml_unescape-xml_escape s =
    rw (c_str_lem (xml_escape s) (escape-no_nul s))
      (xml_escape-read s (suc (length (xml_escape s))) [] (omega arith))

-- A byte that needs no escape inside a quoted attribute or a text.
abbrev pub IsSafe : ℕ → Type 0
IsSafe b = (b ≢ b'"') × (b ≢ b'<') × (b ≢ b'>') × ((b ≡ 10) ⊎ (b' ' ≤ b))

escape_char-IsSafe : (c : ℕ) → All IsSafe (xml_escape_char c)
unfolding xml_escape_char
escape_char-IsSafe c = ground arith

-- Escaped text holds no double quote, no angle bracket and, of the bytes below 32, none but line feed.
pub xml_escape-IsSafe : (s : Bytes) → All IsSafe (xml_escape s)
unfolding xml_escape
xml_escape-IsSafe [] = tt
xml_escape-IsSafe (c ∷ s) =
    All-append IsSafe (xml_escape_char c) (xml_escape s) (escape_char-IsSafe c)
      (xml_escape-IsSafe s)
