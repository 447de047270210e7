-- ===== src/Text/Utf8/Decode.antt =====
-- libutil/utf8.cpp: where `GetChar` and `PutChar` undo each other.
use chorale.Base.{
  All, IsByte, length, ℕ, ◌/◌, ◌^◌, ◌<◌, ◌≤◌, ◌≡◌, ◌≢◌, refl, List, [], ◌∷◌, ◌++◌, arith, ltb, ◌==◌,
  Bool-cases, inl, inr, Bytes, ◌⊎◌,
}
use chorale.Text.Utf8.{
  get_char8, get_char16, get_two, get_three, get_four, put_char8, put_char16, error_char,
}

put_one : (ch : ℕ) (rest : Bytes) → ch < 0x80 → get_char8 (put_char8 ch ++ rest) ≡ (ch, rest)
unfolding get_char8 put_char8
put_one ch rest h = ground arith

put_two :
    (ch : ℕ) (rest : Bytes) → 0x80 ≤ ch → ch < 0x800 → get_char8 (put_char8 ch ++ rest) ≡ (ch, rest)
unfolding get_char8 put_char8
put_two ch rest l h = ground arith

put_three :
    (ch : ℕ) (rest : Bytes)
    → 0x800 ≤ ch
    → ch < 0x10000
    → get_char8 (put_char8 ch ++ rest) ≡ (ch, rest)
unfolding get_char8 put_char8
put_three ch rest l h = ground arith

put_four :
    (ch : ℕ) (rest : Bytes)
    → 0x10000 ≤ ch
    → ch < 0x200000
    → get_char8 (put_char8 ch ++ rest) ≡ (ch, rest)
unfolding get_char8 put_char8
put_four ch rest l h = ground arith

-- `GetChar` reads back what `PutChar` wrote in UTF-8, for every number of up to 21 bits.
pub get_char8-put_char8 :
    (ch : ℕ) (rest : Bytes) → ch < 0x200000 → get_char8 (put_char8 ch ++ rest) ≡ (ch, rest)
get_char8-put_char8 ch rest h = elim (Bool-cases (ltb ch 0x80)) [
  | inl one ↦ put_one ch rest (ground arith)
  | inr more ↦ elim (Bool-cases (ltb ch 0x800)) [
    | inl two ↦ put_two ch rest (ground arith) (ground arith)
    | inr yet_more ↦ elim (Bool-cases (ltb ch 0x10000)) [
      | inl three ↦ put_three ch rest (ground arith) (ground arith)
      | inr four ↦ put_four ch rest (ground arith) h
    ]
  ]
]

-- The same in UTF-16, for every code point that is no high surrogate.
pub get_char16-put_char16 :
    (ch : ℕ) (rest : List ℕ)
    → ch < 0x110000
    → (ch < 0xD800) ⊎ (0xDC00 ≤ ch)
    → get_char16 (put_char16 ch ++ rest) ≡ (ch, rest)
unfolding get_char16 put_char16
get_char16-put_char16 ch rest h plain = ground arith

get_two-canonical :
    (c : ℕ) (s : Bytes)
    → c < 256
    → c / 2 ^ 5 ≡ 6
    → All IsByte s
    → (get_two c s).0 ≢ error_char
    → c ∷ s ≡ put_char8 (get_two c s).0 ++ (get_two c s).1
unfolding get_two put_char8
get_two-canonical c [] h e b n = ground arith
get_two-canonical c (a ∷ s) h e b n = ground arith

get_three-canonical :
    (c : ℕ) (s : Bytes)
    → c < 256
    → c / 2 ^ 4 ≡ 14
    → All IsByte s
    → (get_three c s).0 ≢ error_char
    → c ∷ s ≡ put_char8 (get_three c s).0 ++ (get_three c s).1
unfolding get_three put_char8
get_three-canonical c [] h e b n = ground arith
get_three-canonical c (a ∷ []) h e b n = ground arith
get_three-canonical c (a ∷ d ∷ s) h e b n = ground arith

get_four-canonical :
    (c : ℕ) (s : Bytes)
    → c < 256
    → c / 2 ^ 3 ≡ 30
    → All IsByte s
    → (get_four c s).0 ≢ error_char
    → c ∷ s ≡ put_char8 (get_four c s).0 ++ (get_four c s).1
unfolding get_four put_char8
get_four-canonical c [] h e b n = ground arith
get_four-canonical c (a ∷ []) h e b n = ground arith
get_four-canonical c (a ∷ d ∷ []) h e b n = ground arith
get_four-canonical c (a ∷ d ∷ f ∷ s) h e b n = ground arith

-- What `GetChar` accepts in UTF-8 is what `PutChar` writes: a character other than U+FFFD comes from its own
-- encoding, so overlong forms are errors.
pub get_char8-canonical :
    (c : ℕ) (s : Bytes)
    → IsByte c
    → All IsByte s
    → (get_char8 (c ∷ s)).0 ≢ error_char
    → c ∷ s ≡ put_char8 (get_char8 (c ∷ s)).0 ++ (get_char8 (c ∷ s)).1
unfolding get_char8
get_char8-canonical c s h b n = elim (Bool-cases (ltb c 0x80)) [
  | inl one ↦ rw one (unfold put_char8 in rw one refl)
  | inr high ↦ elim (Bool-cases (c / 2 ^ 6 == 2)) [
    | inl continuation ↦ absurd (n (rw (high, continuation) refl))
    | inr lead ↦ elim (Bool-cases (c / 2 ^ 5 == 6)) [
      | inl two ↦
          rw (high, lead, two)
            (get_two-canonical c s h (ground arith) b (rw (high, lead, two) at n))
      | inr not_two ↦ elim (Bool-cases (c / 2 ^ 4 == 14)) [
        | inl three ↦
            rw (high, lead, not_two, three)
              (get_three-canonical c s h (ground arith) b (rw (high, lead, not_two, three) at n))
        | inr not_three ↦ elim (Bool-cases (c / 2 ^ 3 == 30)) [
          | inl four ↦
              rw (high, lead, not_two, not_three, four)
                (get_four-canonical c s h (ground arith) b
                  (rw (high, lead, not_two, not_three, four) at n))
          | inr no_lead ↦ absurd (n (rw (high, lead, not_two, not_three, no_lead) refl))
        ]
      ]
    ]
  ]
]

-- Behind the end of the text `GetChar` is not called again: reading any unit moves on.
pub get_char8-progress : (c : ℕ) (s : Bytes) → (length (get_char8 (c ∷ s)).1 ≤ length s)
unfolding get_char8
get_char8-progress c [] = ground arith
get_char8-progress c (a ∷ []) = ground arith
get_char8-progress c (a ∷ b ∷ []) = ground arith
get_char8-progress c (a ∷ b ∷ d ∷ s) = ground arith

pub get_char16-progress : (c : ℕ) (s : List ℕ) → (length (get_char16 (c ∷ s)).1 ≤ length s)
unfolding get_char16
get_char16-progress c [] = ground arith
get_char16-progress c (a ∷ s) = ground arith
