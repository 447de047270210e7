-- ===== src/Text/Quote.antt =====
-- libutil/quote_escape.cpp.
use chorale.Base.{
  ℕ, ◌≡◌, refl, ap, ◌∙◌, true, false, [], ◌∷◌, arith, ◌==◌, ==_iff, ◌||◌, if◌then◌else◌, Bool-cases,
  inl, inr, Bytes, c_str,
}

unfoldable pub quote_escape : Bytes → Bytes
quote_escape [] = []
quote_escape (c ∷ s) =
    let rest = quote_escape s in if c == b'"' || c == b'\\' then b'\\' ∷ c ∷ rest else c ∷ rest

-- The loop of `QuoteUnEscape` over `p`, up to the terminator; a backslash at the end is dropped.
unfoldable pub quote_unescape_from : Bytes → Bytes
quote_unescape_from [] = []
quote_unescape_from (c ∷ []) = if c == b'\\' then [] else c ∷ []
quote_unescape_from (c ∷ d ∷ p) = elim (c == b'\\') [
  | true ↦ d ∷ quote_unescape_from p
  | false ↦ c ∷ quote_unescape_from (d ∷ p)
]

unfoldable pub quote_unescape : Bytes → Bytes
unfolding quote_unescape_from
quote_unescape s = quote_unescape_from (c_str s)

read_plain :
    (c : ℕ) (p : Bytes)
    → (c == b'\\') ≡ false
    → quote_unescape_from (c ∷ p) ≡ c ∷ quote_unescape_from p
unfolding quote_unescape_from
read_plain c [] h = rw h refl
read_plain c (d ∷ p) h = ground arith

read_escaped : (c : ℕ) (p : Bytes) → quote_unescape_from (b'\\' ∷ c ∷ p) ≡ c ∷ quote_unescape_from p
unfolding quote_unescape_from
read_escaped c p = refl

-- `QuoteUnEscape` undoes `QuoteEscape`, up to the first NUL of the text.
pub quote_unescape-quote_escape : (s : Bytes) → quote_unescape (quote_escape s) ≡ c_str s
unfolding quote_unescape quote_escape c_str
quote_unescape-quote_escape [] = unfold quote_unescape_from in refl
quote_unescape-quote_escape (c ∷ s) = elim (Bool-cases (c == 0)) [
  | inl nul ↦ rw ((==_iff c 0).0 nul) (unfold quote_unescape_from in refl)
  | inr some_char ↦ elim (Bool-cases (c == b'"' || c == b'\\')) [
    | inl special ↦
        rw (special, some_char, c_str)
          (read_escaped c (c_str (quote_escape s)) ∙ ap (◌∷◌ c) (quote_unescape-quote_escape s))
    | inr plain ↦
        rw (plain, some_char, c_str)
          (read_plain c (c_str (quote_escape s)) (ground arith)
            ∙ ap (◌∷◌ c) (quote_unescape-quote_escape s))
  ]
]
