-- ===== src/Text/Utf8/Convert.antt =====
-- libutil/utf8.cpp: `Convert` ends on every text, and where the conversions undo one another.
use chorale.Base.{
  ℕ, zero, suc, ◌<◌, ◌≤◌, ◌≡◌, ◌≢◌, refl, sym, ◌∙◌, ap, Bool, false, some, List, [], ◌∷◌, ◌++◌,
  arith, length, ◌==◌, ◌&&◌, if◌then◌else◌, Bool-cases, inl, inr, All, ◌⊎◌, length-append,
}
use chorale.Text.Utf8.{
  convert, convert_from, get_char8, get_char16, get_char32, put_char8, put_char16, put_char32,
  error_char, bom, utf8_to_utf16, utf16_to_utf8, utf8_to_utf32, utf32_to_utf8,
}
use chorale.Text.Utf8.Decode.{
  get_char8-put_char8, get_char16-put_char16, get_char8-progress, get_char16-progress,
}

module _ (get : List ℕ → ℕ × List ℕ) (put : ℕ → List ℕ) where
  -- With a `GetChar` that gives 0 at the end and moves on elsewhere, the loop ends within one round
  -- for each unit and one more.
  convert_from-total :
      (get []).0 ≡ 0
      → ((c : ℕ) (s : List ℕ) → length (get (c ∷ s)).1 ≤ length s)
      → (n : ℕ) (last_error : Bool) (s : List ℕ) → length s < n
      → (out : List ℕ) × (convert_from get put n last_error s ≡ some out)
  unfolding convert_from
  convert_from-total at_end moves zero last_error s h = elim h [ ]
  convert_from-total at_end moves (suc n) last_error [] h = ([], rw (at_end, convert_from) refl)
  convert_from-total at_end moves (suc n) last_error (c ∷ s) h =
      elim (Bool-cases ((get (c ∷ s)).0 == 0)) [
        | inl nul ↦ ([], rw (nul, convert_from) refl)
        | inr more ↦ elim (Bool-cases ((get (c ∷ s)).0 == bom)) [
          | inl mark ↦
              let (out, e) =
                convert_from-total at_end moves n last_error (get (c ∷ s)).1
                  (omega (arith, moves c s)) in
              (out, rw (more, mark, convert_from) e)
          | inr plain ↦
              let (out, e) =
                convert_from-total at_end moves n ((get (c ∷ s)).0 == error_char) (get (c ∷ s)).1
                  (omega (arith, moves c s)) in
              (
                if (get (c ∷ s)).0 == error_char && last_error
                    then out
                    else put (get (c ∷ s)).0 ++ out,
                rw (more, plain, e, convert_from) refl,
              )
        ]
      ]

-- A character that the loop copies.
abbrev pub IsPlain : ℕ → Type 0
IsPlain ch = (ch ≢ 0) × (ch ≢ bom) × (ch ≢ error_char)

-- A text, encoded character by character.
abbrev pub written : (ℕ → List ℕ) → List ℕ → List ℕ
written enc [] = []
written enc (ch ∷ cs) = enc ch ++ written enc cs

-- One round on a plain character.
convert_step :
    (get : List ℕ → ℕ × List ℕ) (put : ℕ → List ℕ) (n : ℕ) (last_error : Bool) (s : List ℕ) (ch : ℕ)
    (rest out : List ℕ)
    → get s ≡ (ch, rest)
    → IsPlain ch
    → convert_from get put n (ch == error_char) rest ≡ some out
    → convert_from get put (suc n) last_error s ≡ some (put ch ++ out)
unfolding convert_from
convert_step get put n last_error s ch rest out e plain ih =
    let first : (get s).0 ≡ ch = ap (λ p. p.0) e in
    let no_nul : ((get s).0 == 0) ≡ false = rw first (ground arith) in
    let no_bom : ((get s).0 == bom) ≡ false = rw first (ground arith) in
    let no_error : (ch == error_char) ≡ false = ground arith in
    let ih' : convert_from get put n ((get s).0 == error_char) (get s).1 ≡ some out =
      ap (λ p. convert_from get put n (p.0 == error_char) p.1) e ∙ ih in
    rw (no_nul, no_bom, ih', convert_from) (rw (first, no_error) refl)

module _ (get : List ℕ → ℕ × List ℕ) (put enc : ℕ → List ℕ) (Ok : ℕ → Type 0) where
  -- With a `GetChar` that reads back `enc`, the loop rewrites a text of plain characters.
  convert_from-written :
      (get []).0 ≡ 0
      → ((ch : ℕ) (rest : List ℕ) → Ok ch → get (enc ch ++ rest) ≡ (ch, rest))
      → (cs : List ℕ) (n : ℕ) (last_error : Bool) → All (λ ch. IsPlain ch × Ok ch) cs
      → length cs < n
      → convert_from get put n last_error (written enc cs) ≡ some (written put cs)
  unfolding convert_from
  convert_from-written at_end reads cs zero last_error ok h = elim h [ ]
  convert_from-written at_end reads [] (suc n) last_error ok h = rw (at_end, convert_from) refl
  convert_from-written at_end reads (ch ∷ cs) (suc n) last_error ok h =
      convert_step get put n last_error (written enc (ch ∷ cs)) ch (written enc cs) (written put cs)
        (reads ch (written enc cs) ok.0.1) ok.0.0
        (convert_from-written at_end reads cs n (ch == error_char) ok.1 (omega arith))

  -- So does the whole conversion.
  convert-written :
      (get []).0 ≡ 0
      → ((ch : ℕ) (rest : List ℕ) → Ok ch → get (enc ch ++ rest) ≡ (ch, rest))
      → ((ch : ℕ) → 1 ≤ length (enc ch))
      → (cs : List ℕ) → All (λ ch. IsPlain ch × Ok ch) cs
      → convert get put (written enc cs) ≡ some (written put cs)
  unfolding convert
  convert-written at_end reads some_unit cs ok =
      convert_from-written at_end reads cs (suc (length (written enc cs))) false ok
        (omega (arith, longer cs))
    where
      longer : (cs : List ℕ) → length cs ≤ length (written enc cs)
      longer [] = omega arith
      longer (ch ∷ cs) =
          omega (arith, longer cs, some_unit ch, length-append (enc ch) (written enc cs))

-- A code point that every encoding can hold: no surrogate, and at most U+10FFFF.
abbrev pub IsScalar : ℕ → Type 0
IsScalar ch = (ch < 0x110000) × ((ch < 0xD800) ⊎ (0xE000 ≤ ch))

some_unit8 : (ch : ℕ) → 1 ≤ length (put_char8 ch)
unfolding put_char8
some_unit8 ch = ground arith

some_unit16 : (ch : ℕ) → 1 ≤ length (put_char16 ch)
unfolding put_char16
some_unit16 ch = ground arith

read8 : (ch : ℕ) (rest : List ℕ) → IsScalar ch → get_char8 (put_char8 ch ++ rest) ≡ (ch, rest)
read8 ch rest h = get_char8-put_char8 ch rest (omega (arith, h.0))

read16 : (ch : ℕ) (rest : List ℕ) → IsScalar ch → get_char16 (put_char16 ch ++ rest) ≡ (ch, rest)
read16 ch rest h = get_char16-put_char16 ch rest h.0 (ground arith)

-- The text of any scalar values but NUL, U+FEFF and U+FFFD is converted exactly, from UTF-8 to UTF-16 and back.
pub utf8-utf16 :
    (cs : List ℕ)
    → All (λ ch. IsPlain ch × IsScalar ch) cs
    → (utf8_to_utf16 (written put_char8 cs) ≡ some (written put_char16 cs))
      × (utf16_to_utf8 (written put_char16 cs) ≡ some (written put_char8 cs))
unfolding utf8_to_utf16 utf16_to_utf8
utf8-utf16 cs ok = (
  convert-written get_char8 put_char16 put_char8 IsScalar (unfold get_char8 in refl) read8
      some_unit8 cs ok,
  convert-written get_char16 put_char8 put_char16 IsScalar (unfold get_char16 in refl) read16
      some_unit16 cs ok,
)

-- A number that UTF-8 with up to four bytes can hold.
abbrev pub FitsUtf8 : ℕ → Type 0
FitsUtf8 ch = ch < 0x200000

-- A text of characters that four bytes of UTF-8 can hold, surrogates included, other than NUL, U+FEFF and U+FFFD,
-- is converted exactly from UTF-8 to UTF-32 and back.
pub utf8-utf32 :
    (cs : List ℕ)
    → All (λ ch. IsPlain ch × FitsUtf8 ch) cs
    → (utf8_to_utf32 (written put_char8 cs) ≡ some cs)
      × (utf32_to_utf8 cs ≡ some (written put_char8 cs))
unfolding utf8_to_utf32 utf32_to_utf8
utf8-utf32 cs ok = (
  convert-written get_char8 put_char32 put_char8 FitsUtf8 (unfold get_char8 in refl)
        get_char8-put_char8 some_unit8 cs ok
      ∙ ap some (written32 cs),
  ap (convert get_char32 put_char8) (sym (written32 cs))
      ∙ convert-written get_char32 put_char8 put_char32 FitsUtf8 (unfold get_char32 in refl)
          (λ ch rest h. unfold get_char32 put_char32 in refl)
          (λ ch. unfold put_char32 in omega arith) cs ok,
)
  where
    written32 : (cs : List ℕ) → written put_char32 cs ≡ cs
    written32 [] = refl
    written32 (ch ∷ cs) = unfold put_char32 in ap (◌∷◌ ch) (written32 cs)

-- Every conversion ends, whatever the text holds.
pub conversions-total :
    (s : List ℕ)
    → ((out : List ℕ) × (utf8_to_utf16 s ≡ some out))
      × ((out : List ℕ) × (utf8_to_utf32 s ≡ some out))
      × ((out : List ℕ) × (utf16_to_utf8 s ≡ some out))
      × ((out : List ℕ) × (utf32_to_utf8 s ≡ some out))
unfolding utf8_to_utf16 utf16_to_utf8 utf8_to_utf32 utf32_to_utf8 convert
conversions-total s = (
  convert_from-total get_char8 put_char16 (unfold get_char8 in refl) get_char8-progress
      (suc (length s)) false s (omega arith),
  convert_from-total get_char8 put_char32 (unfold get_char8 in refl) get_char8-progress
      (suc (length s)) false s (omega arith),
  convert_from-total get_char16 put_char8 (unfold get_char16 in refl) get_char16-progress
      (suc (length s)) false s (omega arith),
  convert_from-total get_char32 put_char8 (unfold get_char32 in refl)
      (λ c t. unfold get_char32 in omega arith) (suc (length s)) false s (omega arith),
)
